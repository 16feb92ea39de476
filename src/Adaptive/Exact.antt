-- ===== src/Adaptive/Exact.antt =====
-- s2r_add_scalar_safe and s2r_mul_scalar_safe of include/smart2raw.h.
use native.Mathlib.Nat.{div-mul-le_self, mul-le-mul_right}
use smart2raw.Base.{
  ltb, leb, ◌==◌, Bool-cases, drop, All, length-append, length-drop, take-append_le, take-all,
  length-map, All-append, All-drop, All-imp, All-map_of, pos_part, pos, u64_max, IsWidth,
  IsWidth→is_width, wrap, wrap_add, wrap_mul, width_bounds, pow_mono, wrap_of_lt, wrap_add_of_lt,
  wrap_mul_of_lt, wrap_add-lt, wrap_mul-lt, ℕ, zero, suc, ◌+◌, ◌-◌, ◌*◌, ◌/◌, ◌^◌, ◌≤◌, ◌<◌, ◌≡◌,
  refl, sym, ap, subst, ◌∙◌, ◌⊎◌, inl, inr, Bool, false, ◌&&◌, not, List, [], ◌∷◌, map, arith,
}
use smart2raw.Class.{abs_size, classify}
use smart2raw.Class.Least.{
  max_value-width, classify-least, neg_part-classify, max_from-bound, max_from-lt,
}
use smart2raw.Pool.{Pool, width, is_neg, is_signed, live, touched}
use smart2raw.Pool.Valid.{IsValid, live-words, length-live}
use smart2raw.Pool.Memory.{few-Requestable}
use smart2raw.Known.{values}
use smart2raw.Scan.{greatest, max}
use smart2raw.Scan.Exact.{map-congr, elements-live, live_of_zero}
use smart2raw.Arith.{each, add_scalar, mul_scalar}
use smart2raw.Resize.{promote}
use smart2raw.Resize.Promote.{promote_lem}
use smart2raw.Adaptive.{ensure_fits, add_scalar_safe, mul_scalar_safe}
use smart2raw.Adaptive.Push.{Growable-of, unsigned_of}
use smart2raw.Order.Facts.{values_unsigned}

-- An in-place loop on a valid pool.
pub each-IsValid :
    (p : Pool) (f : ℕ → ℕ)
    → IsValid p
    → ((x : ℕ) → f x < 2 ^ width p)
    → IsValid (each p f) × (live (each p f) ≡ map f (live p))
each-IsValid p f v b =
    let m = length-map f (live p) in
    let l = length-append (map f (live p)) (drop p.count p.cells) in
    let d = length-drop p.count p.cells in
    let t = length-live v in
    rw (IsWidth→is_width (width p) v.class) (
      record {
        class = v.class;
        room = v.room;
        cap_cells = omega (arith, l, d, m, t, v.room, v.cap_cells);
        cells_bytes = omega (arith, l, d, m, t, v.room, v.cap_cells) ∙ v.cells_bytes;
        small = v.small;
        words =
            All-append (λ x. x < 2 ^ width p) (map f (live p)) (drop p.count p.cells)
              (All-map_of f (λ x. x < 2 ^ width p) b (live p))
              (All-drop (λ x. x < 2 ^ width p) p.count p.cells v.words);
      },
      take-append_le p.count (map f (live p)) (drop p.count p.cells) (omega arith)
          ∙ take-all p.count (map f (live p)) (omega arith),
    )

-- The greatest element bounds them all.
greatest-bound : (xs : List ℕ) → All (λ x. x ≤ greatest xs) xs
unfolding greatest
greatest-bound [] = tt
greatest-bound (x ∷ xs) = max_from-bound x xs

pub max-bound : {p : Pool} → IsValid p → All (λ x. x ≤ max p) (live p)
unfolding max
max-bound {p} v = elim (Bool-cases (p.count == 0)) [
  | inl z ↦ rw (z, live_of_zero p z) tt
  | inr n ↦ rw (n, IsWidth→is_width (width p) v.class) (greatest-bound (live p))
]

greatest-lt : (w : ℕ) → IsWidth w → (xs : List ℕ) → All (λ x. x < 2 ^ w) xs → greatest xs < 2 ^ 64
unfolding greatest
greatest-lt w h [] a = omega arith
greatest-lt w h (x ∷ xs) a = omega (arith, max_from-lt (2 ^ w) x xs a.0 a.1, width_bounds w h)

pub max-lt : {p : Pool} → IsValid p → max p < 2 ^ 64
unfolding max
max-lt {p} v = elim (Bool-cases (p.count == 0)) [
  | inl z ↦ rw z (omega arith)
  | inr n ↦
      rw (n, IsWidth→is_width (width p) v.class)
        (greatest-lt (width p) v.class (live p) (live-words v))
]

pub touched-IsValid : {p : Pool} → IsValid p → IsValid (touched p)
touched-IsValid {p} v = record {
  class = v.class;
  room = v.room;
  cap_cells = v.cap_cells;
  cells_bytes = v.cells_bytes;
  small = v.small;
  words = v.words;
}

unpos : (xs : List ℕ) → map pos_part (map pos xs) ≡ xs
unpos [] = refl
unpos (x ∷ xs) = ap (λ l. x ∷ l) (unpos xs)

-- Unsigned pools of the same values have the same elements.
live_of_values :
    (p q : Pool)
    → IsValid p
    → IsValid q
    → is_signed p ≡ false
    → is_signed q ≡ false
    → values q ≡ values p
    → live q ≡ live p
live_of_values p q i j s t e =
    let a = values_unsigned p s ∙ ap (map pos) (elements-live i) in
    let b = values_unsigned q t ∙ ap (map pos) (elements-live j) in
    sym (unpos (live q)) ∙ ap (map pos_part) (sym b ∙ e ∙ a) ∙ unpos (live p)

map_exact :
    (f g : ℕ → ℕ) (m : ℕ) (xs : List ℕ)
    → ((x : ℕ) → x ≤ m → f x ≡ g x)
    → All (λ x. x ≤ m) xs
    → map f xs ≡ map g xs
map_exact f g m xs h a = map-congr f g xs (All-imp (λ x. x ≤ m) (λ x. f x ≡ g x) h xs a)

mul_step : (w m s : ℕ) → m * s < 2 ^ w → (x : ℕ) → x ≤ m → wrap_mul w x (wrap w s) ≡ x * s
mul_step w m s h zero k = wrap_mul_of_lt w 0 (wrap w s) (omega (arith, h)) ∙ omega arith
mul_step w m s h (suc x) k =
    let b : suc x * s ≤ m * s = mul-le-mul_right s k in
    ap (wrap_mul w (suc x)) (wrap_of_lt w s (omega (arith, b, h)))
    ∙ wrap_mul_of_lt w (suc x) s (omega (arith, b, h))

module _ (q : Pool) (v : IsValid q) (m s : ℕ) (a : All (λ x. x ≤ m) (live q)) where
  add_exact :
      m + s < 2 ^ width q
      → IsValid (add_scalar q s) × (live (add_scalar q s) ≡ map (λ x. x + s) (live q))
  unfolding add_scalar
  add_exact h = elim (Bool-cases (q.count == 0)) [
    | inl z ↦ rw (z, live_of_zero q z) (v, refl)
    | inr n ↦
        let w = width q in
        let f = λ (x : ℕ). wrap_add w x (wrap w s) in
        let e =
          each-IsValid (touched q) f (touched-IsValid v)
            (λ x. wrap_add-lt w x (wrap w s) v.class) in
        rw n (
          e.0,
          e.1
              ∙ map_exact f (λ x. x + s) m (live q)
                  (λ x k.
                    ap (wrap_add w x) (wrap_of_lt w s (omega arith))
                    ∙ wrap_add_of_lt w x s (omega arith))
                  a,
        )
  ]

  mul_exact :
      m * s < 2 ^ width q
      → IsValid (mul_scalar q s) × (live (mul_scalar q s) ≡ map (λ x. x * s) (live q))
  unfolding mul_scalar
  mul_exact h = elim (Bool-cases (q.count == 0)) [
    | inl z ↦ rw (z, live_of_zero q z) (v, refl)
    | inr n ↦
        let w = width q in
        let f = λ (x : ℕ). wrap_mul w x (wrap w s) in
        let e =
          each-IsValid (touched q) f (touched-IsValid v)
            (λ x. wrap_mul-lt w x (wrap w s) v.class) in
        rw n (e.0, e.1 ∙ map_exact f (λ x. x * s) m (live q) (mul_step w m s h) a)
  ]

pub positive : (w : ℕ) → IsWidth w → 0 < w
positive w h = omega arith

-- The pool after the room for `m` was made: the same elements, in a class that holds `m`.
abbrev pub Room : Pool → ℕ → ℕ × Pool → Type 0
Room p m r =
    (0 < r.0) × IsValid r.1 × (live r.1 ≡ live p) × (m < 2 ^ width r.1) ⊎ (r.0 ≡ 0) × (r.1 ≡ p)

pub ensure_fits_lem :
    (alloc : ℕ → Bool) (p : Pool) (m : ℕ)
    → IsValid p
    → p.byte_cap < 2 ^ 60
    → is_signed p ≡ false
    → (p.count == 0) ≡ false
    → m < 2 ^ 64
    → Room p m (ensure_fits alloc p m)
unfolding ensure_fits
ensure_fits_lem alloc p m i b u n h =
    let s = classify m in
    let c = classify-least m h in
    let w = max_value-width s c.0 in
    let f : m < 2 ^ abs_size s = omega (arith, c.1, w) in
    elim (Bool-cases (leb (abs_size s) (width p))) [
      | inl e ↦ rw e (
          inl (
            positive (width p) i.class,
            i,
            refl,
            omega (arith, f, pow_mono (abs_size s) (width p) (ground arith)),
          ))
      | inr e ↦
          let q = (promote alloc p s).1 in
          let r =
            few-Requestable (abs_size s) c.0 p.count (omega (arith, i.room, Growable-of p i b)) in
          elim (promote_lem alloc p s i (ground arith) r) [
            | inr k ↦ rw (e, n, k.0) (inr (refl, k.1))
            | inl k ↦
                rw (e, n, k.0)
                  (inl (
                    positive (abs_size s) c.0,
                    k.1,
                    live_of_values p q i k.1 u
                        (unsigned_of q m k.3
                          (k.2 ∙ ap is_neg k.3 ∙ ground (arith, neg_part-classify m)))
                        k.5,
                    subst (λ z. m < 2 ^ abs_size z) (sym k.3) f,
                  ))
          ]
    ]

-- The class's bits and the pool of the exact results, or 0 and the pool as it was.
abbrev pub Exactly : Pool → (ℕ → ℕ) → ℕ × Pool → Type 0
Exactly p f r =
    (r.0 ≡ width r.1) × IsValid r.1 × (live r.1 ≡ map f (live p)) ⊎ (r.0 ≡ 0) × (r.1 ≡ p)

-- The division that the code tests keeps the product within a uint64_t.
pub product_fits : (m s : ℕ) → (not (m == 0) && ltb (u64_max / m) s) ≡ false → m * s < 2 ^ 64
product_fits zero s h = omega arith
product_fits (suc m) s h =
    let k : s ≤ u64_max / suc m = ground arith in
    let a : s * suc m ≤ u64_max / suc m * suc m = mul-le-mul_right (suc m) k in
    let d = div-mul-le_self u64_max (suc m) in omega (arith, a, d)

pub zero_test : (x : ℕ) → 0 < x → (x == 0) ≡ false
zero_test x h = ground arith

module _ (alloc : ℕ → Bool) (p : Pool) (s : ℕ) (i : IsValid p) (b : p.byte_cap < 2 ^ 60) where
  -- On a valid pool whose buffer is below 2^60 bytes, `s2r_add_scalar_safe` either adds the scalar to
  -- every element without reduction, in a class that holds the sums, and answers the bits of the class,
  -- or answers 0 and changes nothing.
  pub add_scalar_safe_lem : Exactly p (λ x. x + s) (add_scalar_safe alloc p s)
  unfolding add_scalar_safe
  add_scalar_safe_lem = elim (Bool-cases (is_signed p)) [
    | inl e ↦ rw e (inr (refl, refl))
    | inr u ↦ elim (Bool-cases (p.count == 0)) [
      | inl z ↦ simp (u, z) (inl (refl, i, rw (live_of_zero p z) refl))
      | inr n ↦ elim (Bool-cases (ltb (u64_max - max p) s)) [
        | inl o ↦ rw (u, n, o) (inr (refl, refl))
        | inr o ↦
            let m = max p in
            let few : m + s < 2 ^ 64 = ground (arith, max-lt i) in
            let t = wrap_add_of_lt 64 m s few in
            rw (u, n, o, t)
              (elim (ensure_fits_lem alloc p (m + s) i b u n few) [
                | inr k ↦ rw k.0 (inr (refl, k.1))
                | inl k ↦
                    let q = (ensure_fits alloc p (m + s)).1 in
                    let a =
                      add_exact q k.1 m s (subst (All (λ x. x ≤ m)) (sym k.2) (max-bound i)) k.3 in
                    rw (zero_test (ensure_fits alloc p (m + s)).0 k.0)
                      (inl (refl, a.0, a.1 ∙ ap (map (λ x. x + s)) k.2))
              ])
      ]
    ]
  ]

  -- On a valid pool whose buffer is below 2^60 bytes, `s2r_mul_scalar_safe` either multiplies every
  -- element by the scalar without reduction, in a class that holds the products, and answers the bits
  -- of the class, or answers 0 and changes nothing.
  pub mul_scalar_safe_lem : Exactly p (λ x. x * s) (mul_scalar_safe alloc p s)
  unfolding mul_scalar_safe
  mul_scalar_safe_lem = elim (Bool-cases (is_signed p)) [
    | inl e ↦ rw e (inr (refl, refl))
    | inr u ↦ elim (Bool-cases (p.count == 0)) [
      | inl z ↦ simp (u, z) (inl (refl, i, rw (live_of_zero p z) refl))
      | inr n ↦ elim (Bool-cases (not (max p == 0) && ltb (u64_max / max p) s)) [
        | inl o ↦ rw (u, n, o) (inr (refl, refl))
        | inr o ↦
            let m = max p in
            let few : m * s < 2 ^ 64 = product_fits m s o in
            let t = wrap_mul_of_lt 64 m s few in
            rw (u, n, o, t)
              (elim (ensure_fits_lem alloc p (m * s) i b u n few) [
                | inr k ↦ rw k.0 (inr (refl, k.1))
                | inl k ↦
                    let q = (ensure_fits alloc p (m * s)).1 in
                    let a =
                      mul_exact q k.1 m s (subst (All (λ x. x ≤ m)) (sym k.2) (max-bound i)) k.3 in
                    rw (zero_test (ensure_fits alloc p (m * s)).0 k.0)
                      (inl (refl, a.0, a.1 ∙ ap (map (λ x. x * s)) k.2))
              ])
      ]
    ]
  ]
