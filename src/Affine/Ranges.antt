-- ===== src/Affine/Ranges.antt =====
-- s2r__affine_window, s2r_affine_count_range and s2r_affine_count_lt of include/smart2raw.h.
use smart2raw.Base.{
  ltb, leb, ◌==◌, if◌then◌else◌, ltb→lt, lt→ltb, Bool-cases, All-imp, All-of, ℤ, wrap_sub, sx,
  to_u64, wrap_sub-lt, Fits, sx-Fits, to_u64-lt, ℕ, ◌+◌, ◌-◌, ◌*◌, ◌/◌, ◌^◌, ◌≤◌, ◌<◌, ◌≡◌, refl,
  sym, ap, ◌∙◌, ◌⊎◌, inl, inr, Bool, true, false, not, List, arith,
}
use smart2raw.Pool.{Pool, live}
use smart2raw.Pool.Valid.{IsValid}
use smart2raw.Scan.{count_if, in_range}
use smart2raw.Scan.Exact.{count_if-none, count_if-congr, count_range_exact}
use smart2raw.Fast.{count_range_fast}
use smart2raw.Fast.Counts.{count_range_fast-count_range}
use smart2raw.Affine.{
  Affine, column_le, distance, ceil_div, affine_window, affine_count_range, affine_count_lt,
}
use smart2raw.Affine.Held.{key_of, IsAbove, IsHeld, column_lt_key, column_le_key, distance_key}
use smart2raw.Affine.Arrays.{to_u64-sx}
use smart2raw.Affine.Quotients.{leb-quot, ceil_quot-leb}
use smart2raw.Affine.Spread.{no_values, no_value, constant_count, count_indices}
use smart2raw.Known.{IsKnown}

-- The lower bound lies below the base, or its distance and the stride, in a uint64_t, add up.
abbrev pub NoCarry : Affine → ℤ → Type 0
NoCarry a lo =
    let b = key_of a.is_signed a.base in
    let l = key_of a.is_signed lo in (l ≤ b) ⊎ (l - b + a.stride ≤ 2 ^ 64)

abbrev pub low_index : Affine → ℤ → ℕ
low_index a lo =
    if column_le a lo a.base
    then 0
    else if ltb 1 a.stride
    then ceil_div (distance a lo) a.stride
    else distance a lo

abbrev pub high_index : Affine → ℤ → ℕ
high_index a hi = if ltb 1 a.stride then distance a hi / a.stride else distance a hi

module _ (a : Affine) (lo hi : ℤ) (f : Fits 64 lo) (g : Fits 64 hi) (base : Fits 64 a.base)
    (p : 0 < a.stride) where
  -- The window of the indices is that of the values.
  pub window_exact :
      NoCarry a lo
      → let b = key_of a.is_signed a.base in
        b ≤ key_of a.is_signed hi
        → (x : ℕ)
        → in_range (low_index a lo) (high_index a hi) x
          ≡ in_range (key_of a.is_signed lo) (key_of a.is_signed hi) (b + a.stride * x)
  window_exact c from x =
      let b = key_of a.is_signed a.base in
      let l = key_of a.is_signed lo in
      let t = key_of a.is_signed hi in
      let st = a.stride in
      let le = column_le_key a lo f a.base base in
      let dh = distance_key a hi g from in
      let top : leb x (high_index a hi) ≡ leb (b + st * x) t =
        rw dh (leb-quot st (t - b) x p ∙ ground arith) in
      elim (Bool-cases (leb l b)) [
        | inl below ↦ rw (le, below, top) (ground arith)
        | inr above ↦
            let dl = distance_key a lo f (ground arith) in
            let bottom = ceil_quot-leb st (l - b) x p (ground (arith, c)) in
            rw (le, above, top, dl, bottom) (ground arith)
      ]

  pub window_open :
      (a.count == 0) ≡ false
      → let b = key_of a.is_signed a.base in
        b ≤ key_of a.is_signed hi
        → affine_window a lo hi
          ≡ (leb (low_index a lo) (high_index a hi), low_index a lo, high_index a hi)
  unfolding affine_window
  window_open n from =
      let below : ltb (key_of a.is_signed hi) (key_of a.is_signed a.base) ≡ false = ground arith in
      rw (n, column_lt_key a hi g a.base base, below) refl

  pub window_empty : (a.count == 0) ≡ true → affine_window a lo hi ≡ (false, 0, 0)
  unfolding affine_window
  window_empty e = rw e refl

  pub window_below :
      let b = key_of a.is_signed a.base in
      key_of a.is_signed hi < b → affine_window a lo hi ≡ (false, 0, 0)
  unfolding affine_window
  window_below h = elim (Bool-cases (a.count == 0)) [
    | inl e ↦ rw e refl
    | inr n ↦
        rw
          (
            n,
            column_lt_key a hi g a.base base,
            lt→ltb (key_of a.is_signed hi) (key_of a.is_signed a.base) h,
          )
          refl
  ]

-- Index 0 is the only one of a constant column.
pub at_zero :
    (il ih n : ℕ)
    → (if not (leb il ih) then 0 else if il == 0 then n else 0)
      ≡ (if in_range il ih 0 then n else 0)
at_zero il ih n = ground arith

counted_window :
    {p : Pool} (v : IsValid p) (k : IsKnown p) (il ih : ℕ)
    → (if not (leb il ih) then 0 else count_range_fast p il ih) ≡ count_if (in_range il ih) (live p)
counted_window {p} v k il ih = elim (Bool-cases (leb il ih)) [
  | inl e ↦ rw e (count_range_fast-count_range v k il ih ∙ count_range_exact p il ih v)
  | inr e ↦ rw e (
      sym (
        count_if-none (in_range il ih) (live p)
          (All-of (λ x. in_range il ih x ≡ false) (λ x. ground arith) (live p))))
]

module _ {A : Type 0} {key word : A → ℕ} {a : Affine} {vs : List A} (h : IsHeld key word a vs)
    (lo hi : ℤ) (f : Fits 64 lo) (g : Fits 64 hi) where
  pub held_count_range :
      NoCarry a lo
      → affine_count_range a lo hi
        ≡ count_if (λ v. in_range (key_of a.is_signed lo) (key_of a.is_signed hi) (key v)) vs
  unfolding affine_count_range count_if
  held_count_range c =
      let b = key_of a.is_signed a.base in
      let test = in_range (key_of a.is_signed lo) (key_of a.is_signed hi) in
      let il = low_index a lo in
      let ih = high_index a hi in
      elim (Bool-cases (a.count == 0)) [
        | inl e ↦ rw (window_empty a lo hi f g h.base_fits h.column.step e, no_values h e) refl
        | inr e ↦ elim (Bool-cases (ltb (key_of a.is_signed hi) b)) [
          | inl below ↦
              rw
                (window_below a lo hi f g h.base_fits h.column.step
                  (ltb→lt (key_of a.is_signed hi) b below))
                (no_value h (λ v. test (key v)) (λ v k l. ground arith))
          | inr from ↦
              let o = window_open a lo hi f g h.base_fits h.column.step e (ground arith) in
              let w = window_exact a lo hi f g h.base_fits h.column.step c (ground arith) in
              elim (Bool-cases a.is_const) [
                | inl k ↦
                    let z : test b ≡ in_range il ih 0 = ap test (omega arith) ∙ sym (w 0) in
                    rw (o, k) (at_zero il ih a.count ∙ rw z at (constant_count h k test))
                | inr n ↦
                    rw (o, n)
                      (counted_window (h.column.valid n) (h.column.known n) il ih
                        ∙ count_indices h n test (in_range il ih) w)
              ]
        ]
      ]

-- The value before, whose word is one less.
before : (t : ℤ) → to_u64 (sx 64 (wrap_sub 64 (to_u64 t) 1)) ≡ wrap_sub 64 (to_u64 t) 1
before t = to_u64-sx (wrap_sub 64 (to_u64 t) 1) (wrap_sub-lt 64 (to_u64 t) 1 (omega arith))

previous_key :
    (sg : Bool) (t : ℤ)
    → 0 < key_of sg t
    → key_of sg (sx 64 (wrap_sub 64 (to_u64 t) 1)) ≡ key_of sg t - 1
unfolding wrap_sub
previous_key true t h = omega (arith, to_u64-lt t, before t)
previous_key false t h = omega (arith, to_u64-lt t, before t)

module _ {A : Type 0} {key word : A → ℕ} {a : Affine} {vs : List A} (h : IsHeld key word a vs) where
  pub held_count_lt :
      (thr : ℤ)
      → Fits 64 thr
      → affine_count_lt a thr ≡ count_if (λ v. ltb (key v) (key_of a.is_signed thr)) vs
  unfolding affine_count_lt count_if
  held_count_lt thr f =
      let t = key_of a.is_signed thr in
      let b = key_of a.is_signed a.base in
      let le = column_le_key a thr f a.base h.base_fits in
      let last = sx 64 (wrap_sub 64 (to_u64 thr) 1) in
      elim (Bool-cases (a.count == 0)) [
        | inl e ↦ rw (e, no_values h e) refl
        | inr e ↦ elim (Bool-cases (leb t b)) [
          | inl below ↦ rw (e, le, below) (no_value h (λ v. ltb (key v) t) (λ v k l. ground arith))
          | inr from ↦
              let p = previous_key a.is_signed thr (ground arith) in
              rw (e, le, from)
                (held_count_range h a.base last h.base_fits
                    (sx-Fits 64 (wrap_sub 64 (to_u64 thr) 1)
                      (wrap_sub-lt 64 (to_u64 thr) 1 (omega arith)))
                    (inl (omega arith))
                  ∙ count_if-congr (λ v. in_range b (key_of a.is_signed last) (key v))
                      (λ v. ltb (key v) t) vs
                      (All-imp (IsAbove key word a)
                        (λ v. in_range b (key_of a.is_signed last) (key v) ≡ ltb (key v) t)
                        (λ v k. ground (arith, p, k.0)) vs h.above))
        ]
      ]
