-- ===== src/Affine/Totals.antt =====
-- s2r_affine_sum, s2r_affine_sum_if and their signed forms of include/smart2raw.h.
use native.Mathlib.Nat.{zero-add}
use smart2raw.Base.{
  ltb, leb, ◌==◌, if◌then◌else◌, ltb→lt, Bool-cases, length, All, length-map, All-imp, All-of,
  All-and, ℤ, IsWidth→is_width, wrap_add, wrap_mul, to_u64, Fits, to_u64-lt, ℕ, ◌+◌, ◌-◌, ◌*◌, ◌%◌,
  ◌^◌, ◌≤◌, ◌<◌, ◌≡◌, refl, sym, ap, fun_ext, ◌∙◌, inl, inr, Bool, true, false, not, List, map,
  arith,
}
use smart2raw.Pool.{Pool, width, live}
use smart2raw.Pool.Valid.{IsValid}
use smart2raw.Known.{IsKnown}
use smart2raw.Scan.{count_if, sum_from, sum_from_if, sum, in_range, sum_if}
use smart2raw.Scan.Exact.{count_if-All, elements-live, live_of_zero, count_range_exact}
use smart2raw.Fast.{count_range_fast, sum_if_fast}
use smart2raw.Fast.Counts.{count_range_fast-count_range}
use smart2raw.Fast.Sums.{sum_from_if-none, sum_if_fast-sum_if}
use smart2raw.Affine.{Affine, total_of, affine_sum, affine_sum_if}
use smart2raw.Affine.Held.{key_of, IsAbove, IsHeld}
use smart2raw.Affine.Folds.{
  lattice_word, lattice_fold, no_product, constant_total, sum_from_if-congr, sum_from_if-map,
  sum_from_all,
}
use smart2raw.Affine.Spread.{no_values, constant_keys, constant_count}
use smart2raw.Affine.Ranges.{
  NoCarry, low_index, high_index, window_exact, window_open, window_empty, window_below,
}

fold_empty : (b st : ℕ) → wrap_add 64 (wrap_mul 64 b 0) (wrap_mul 64 st 0) ≡ 0
unfolding wrap_add wrap_mul
fold_empty b st = omega arith

total_lem :
    (a : Affine) (test : ℕ → Bool) (xs : List ℕ)
    → total_of a (count_if test xs) (sum_from_if test (λ x. x) 0 xs)
      ≡ sum_from_if test (lattice_word (to_u64 a.base) a.stride) 0 xs
total_lem a test xs =
    let b = to_u64 a.base in
    rw (zero-add (count_if test xs)) at
      (lattice_fold b a.stride test 0 0 0 xs (fold_empty b a.stride))

zero_total :
    (b il ih n : ℕ)
    → (if not (leb il ih) then 0 else if il == 0 then wrap_mul 64 b n else 0)
      ≡ wrap_mul 64 b (if in_range il ih 0 then n else 0)
zero_total b il ih n =
    let z = no_product b in
    elim (Bool-cases (in_range il ih 0)) [
      | inl e ↦
          let o : leb il ih ≡ true = ground arith in
          let f : (il == 0) ≡ true = ground arith in rw (o, f, e) refl
      | inr e ↦ rw (e, z) (ground arith)
    ]

sum_if_exact :
    {p : Pool}
    → IsValid p
    → (lo hi : ℕ) → sum_if p lo hi ≡ sum_from_if (in_range lo hi) (λ x. x) 0 (live p)
unfolding sum_if sum_from_if
sum_if_exact {p} v lo hi = elim (Bool-cases (p.count == 0)) [
  | inl e ↦ rw (e, live_of_zero p e) refl
  | inr n ↦ rw (n, elements-live v) refl
]

-- Where the window is empty the fast paths answer 0 as well.
total_window :
    (a : Affine)
    → IsValid a.idx
    → IsKnown a.idx
    → (il ih : ℕ)
    → (if not (leb il ih)
        then 0
        else total_of a (count_range_fast a.idx il ih) (sum_if_fast a.idx il ih))
      ≡ sum_from_if (in_range il ih) (lattice_word (to_u64 a.base) a.stride) 0 (live a.idx)
total_window a v k il ih = elim (Bool-cases (leb il ih)) [
  | inl e ↦
      rw
        (
          e,
          count_range_fast-count_range v k il ih,
          count_range_exact a.idx il ih v,
          sum_if_fast-sum_if v il ih,
          sum_if_exact v il ih,
        )
        (total_lem a (in_range il ih) (live a.idx))
  | inr e ↦ rw e (
      sym (
        sum_from_if-none (in_range il ih) (lattice_word (to_u64 a.base) a.stride) 0 (live a.idx)
          (All-of (λ x. in_range il ih x ≡ false) (λ x. ground arith) (live a.idx))))
]

abbrev pub all : {A : Type 0} → A → Bool
all x = true

sum-live : {p : Pool} → IsValid p → sum p ≡ sum_from_if all (λ x. x) 0 (live p)
unfolding sum sum_from_if
sum-live {p} v = elim (Bool-cases (p.count == 0)) [
  | inl e ↦ rw (e, live_of_zero p e) refl
  | inr n ↦ rw (n, IsWidth→is_width (width p) v.class) (sum_from_all 0 (live p))
]

module _ {A : Type 0} {key word : A → ℕ} {a : Affine} {vs : List A} (h : IsHeld key word a vs) where
  constant_words : a.is_const ≡ true → All (λ v. word v ≡ to_u64 a.base) vs
  constant_words k =
      All-imp (λ v. IsAbove key word a v × (key v ≡ key_of a.is_signed a.base))
        (λ v. word v ≡ to_u64 a.base) (λ v t. omega (arith, t.0.2, t.1, to_u64-lt a.base)) vs
        (All-and (IsAbove key word a) (λ v. key v ≡ key_of a.is_signed a.base) vs h.above
          (constant_keys h k))

  -- The sum over a constant column.
  constant_sum :
      a.is_const ≡ true
      → (test : ℕ → Bool)
      → wrap_mul 64 (to_u64 a.base) (if test (key_of a.is_signed a.base) then a.count else 0)
        ≡ sum_from_if (λ v. test (key v)) word 0 vs
  constant_sum k test =
      ap (wrap_mul 64 (to_u64 a.base)) (constant_count h k test)
      ∙ constant_total (λ v. test (key v)) word (to_u64 a.base) vs (constant_words k)

  -- A test of the key is one of the index, and the words are those of the lattice.
  sum_indices :
      a.is_const ≡ false
      → (test on : ℕ → Bool) → ((x : ℕ) → on x ≡ test (key_of a.is_signed a.base + a.stride * x))
      → sum_from_if on (lattice_word (to_u64 a.base) a.stride) 0 (live a.idx)
        ≡ sum_from_if (λ v. test (key v)) word 0 vs
  sum_indices n test on e =
      let b = key_of a.is_signed a.base in
      let under : ℕ → Bool = λ o. test (b + o) in
      let place : ℕ → ℕ = λ o. (to_u64 a.base + o) % 2 ^ 64 in
      let off : A → ℕ = λ v. key v - b in
      ap (λ t. sum_from_if t (lattice_word (to_u64 a.base) a.stride) 0 (live a.idx)) (fun_ext e)
      ∙ sym (sum_from_if-map under place (λ x. a.stride * x) 0 (live a.idx))
      ∙ ap (sum_from_if under place 0) (h.column.spread n)
      ∙ sum_from_if-map under place off 0 vs
      ∙ sum_from_if-congr (λ v. under (off v)) (λ v. place (off v)) (λ v. test (key v)) word 0 vs
          (All-imp (IsAbove key word a)
            (λ v. (under (off v) ≡ test (key v)) × (place (off v) ≡ word v))
            (λ v k. (ap test (omega (arith, k.0)), sym k.2)) vs h.above)

  length_indices : a.is_const ≡ false → a.count ≡ count_if all (live a.idx)
  length_indices n =
      let xs = live a.idx in
      h.column.counted
      ∙ ap length (sym (h.column.spread n))
      ∙ length-map (λ x. a.stride * x) xs
      ∙ sym (count_if-All all xs (All-of (λ x. all x ≡ true) (λ x. refl) xs))

  pub held_sum : affine_sum a ≡ sum_from 0 (map word vs)
  unfolding affine_sum sum_from
  held_sum =
      let total = sum_from_if-map all (λ x. x) word 0 vs in
      elim (Bool-cases (a.count == 0)) [
        | inl e ↦ rw (e, no_values h e) refl
        | inr e ↦ elim (Bool-cases a.is_const) [
          | inl k ↦ rw (e, k, sum_from_all 0 (map word vs), total) (constant_sum k all)
          | inr n ↦
              rw
                (
                  e,
                  n,
                  sum_from_all 0 (map word vs),
                  total,
                  sum-live (h.column.valid n),
                  length_indices n,
                )
                (total_lem a all (live a.idx) ∙ sum_indices n all all (λ x. refl))
        ]
      ]

  no_total :
      (test : A → Bool)
      → ((v : A) → key_of a.is_signed a.base ≤ key v → key v < 2 ^ 64 → test v ≡ false)
      → 0 ≡ sum_from_if test word 0 vs
  no_total test t = sym (
      sum_from_if-none test word 0 vs
        (All-imp (IsAbove key word a) (λ v. test v ≡ false) (λ v k. t v k.0 k.1) vs h.above))

  pub held_sum_if :
      (lo hi : ℤ)
      → Fits 64 lo
      → Fits 64 hi
      → NoCarry a lo
      → affine_sum_if a lo hi
        ≡ sum_from_if
            (λ v. in_range (key_of a.is_signed lo) (key_of a.is_signed hi) (key v))
            word
            0
            vs
  unfolding affine_sum_if sum_from_if
  held_sum_if lo hi f g c =
      let b = key_of a.is_signed a.base in
      let test = in_range (key_of a.is_signed lo) (key_of a.is_signed hi) in
      let il = low_index a lo in
      let ih = high_index a hi in
      elim (Bool-cases (a.count == 0)) [
        | inl e ↦ rw (window_empty a lo hi f g h.base_fits h.column.step e, no_values h e) refl
        | inr e ↦ elim (Bool-cases (ltb (key_of a.is_signed hi) b)) [
          | inl below ↦
              rw
                (window_below a lo hi f g h.base_fits h.column.step
                  (ltb→lt (key_of a.is_signed hi) b below))
                (no_total (λ v. test (key v)) (λ v k l. ground arith))
          | inr from ↦
              let o = window_open a lo hi f g h.base_fits h.column.step e (ground arith) in
              let w = window_exact a lo hi f g h.base_fits h.column.step c (ground arith) in
              elim (Bool-cases a.is_const) [
                | inl k ↦
                    let z : test b ≡ in_range il ih 0 = ap test (omega arith) ∙ sym (w 0) in
                    rw (o, k)
                      (zero_total (to_u64 a.base) il ih a.count ∙ rw z at (constant_sum k test))
                | inr n ↦
                    rw (o, n)
                      (total_window a (h.column.valid n) (h.column.known n) il ih
                        ∙ sum_indices n test (in_range il ih) w)
              ]
        ]
      ]
