-- ===== src/Fast/Sums.antt =====
-- s2r_sum_if_fast of include/smart2raw.h.
use native.Mathlib.Nat.{add-zero, zero-add, add_assoc}
use smart2raw.Base.{
  ltb, ◌==◌, if◌then◌else◌, Bool-cases, All, All-imp, All-of, IsWidth, wrap, wrap_add, wrap_sub,
  wrap_mul, by_width, ℕ, ◌+◌, ◌-◌, ◌%◌, ◌^◌, ◌≤◌, ◌<◌, ◌≡◌, refl, sym, ◌∙◌, inl, inr, Bool, true,
  false, List, [], ◌∷◌, arith,
}
use smart2raw.Class.{max_value}
use smart2raw.Class.Least.{max_value-width}
use smart2raw.Pool.{Pool, width, live}
use smart2raw.Pool.Valid.{IsValid, live-words}
use smart2raw.Scan.{count_if, sum_from_if, in_range, sum_if}
use smart2raw.Scan.Exact.{elements-live}
use smart2raw.Fast.{hit, offset, sumrng_scalar, sumrng_fast, sum_if_fast}
use smart2raw.Fast.Window.{hit_in_range}

fold_step :
    (lo a b c off word : ℕ)
    → (off + lo) % 2 ^ 64 ≡ word % 2 ^ 64
    → wrap_add 64 a (wrap_mul 64 lo c) ≡ b
    → wrap_add 64 (wrap_add 64 a off) (wrap_mul 64 lo (c + 1)) ≡ wrap_add 64 b word
unfolding wrap_add wrap_mul
fold_step lo a b c off word h e = omega arith

fold_start : (lo : ℕ) → wrap_add 64 0 (wrap_mul 64 lo 0) ≡ 0
unfolding wrap_add wrap_mul
fold_start lo = omega arith

-- A sum of offsets and one multiple of the base, against the sum of the values, from any start.
sum_from_if-fold :
    (test inside : ℕ → Bool) (off word : ℕ → ℕ) (lo a b c : ℕ) (xs : List ℕ)
    → All
        (λ x. (test x ≡ inside x) × (inside x ≡ true → (off x + lo) % 2 ^ 64 ≡ word x % 2 ^ 64))
        xs
    → wrap_add 64 a (wrap_mul 64 lo c) ≡ b
    → wrap_add 64 (sum_from_if test off a xs) (wrap_mul 64 lo (c + count_if test xs))
      ≡ sum_from_if inside word b xs
unfolding sum_from_if count_if
sum_from_if-fold test inside off word lo a b c [] h e = rw add-zero e
sum_from_if-fold test inside off word lo a b c (x ∷ xs) h e = elim (Bool-cases (inside x)) [
  | inr out ↦ rw (h.0.0, out, zero-add) (sum_from_if-fold test inside off word lo a b c xs h.1 e)
  | inl hit_x ↦
      rw (h.0.0, hit_x, ← add_assoc)
        (sum_from_if-fold test inside off word lo (wrap_add 64 a (off x)) (wrap_add 64 b (word x))
          (c + 1) xs h.1 (fold_step lo a b c (off x) (word x) (h.0.1 hit_x) e))
]

-- The offset of a hit, and the base, make up the value.
abbrev OffsetBack : ℕ → Type 0
OffsetBack w =
    (lo hi x : ℕ)
    → x < 2 ^ w
    → hi < 2 ^ w
    → in_range lo hi x ≡ true
    → (offset w lo x + lo) % 2 ^ 64 ≡ x % 2 ^ 64

offset_back : (w : ℕ) → IsWidth w → OffsetBack w
unfolding offset wrap wrap_sub
offset_back =
    by_width OffsetBack (λ lo hi x a b h. ground arith) (λ lo hi x a b h. ground arith)
      (λ lo hi x a b h. ground arith) (λ lo hi x a b h. ground arith)

pub sum_from_if-none {ℓ} :
    {A : Type ℓ} (inside : A → Bool) (word : A → ℕ) (a : ℕ) (xs : List A)
    → All (λ x. inside x ≡ false) xs
    → sum_from_if inside word a xs ≡ a
unfolding sum_from_if
sum_from_if-none inside word a [] h = refl
sum_from_if-none inside word a (x ∷ xs) h = rw h.0 (sum_from_if-none inside word a xs h.1)

module _ {p : Pool} (v : IsValid p) (min_v max_v : ℕ) where
  folded :
      min_v ≤ max_v
      → min_v ≤ max_value p.size
      → let w = width p in
        let top = if ltb (max_value p.size) max_v then max_value p.size else max_v in
        let test = hit w min_v (top - min_v) in
        wrap_add 64
          (sum_from_if test (offset w min_v) 0 (live p))
          (wrap_mul 64 min_v (count_if test (live p)))
        ≡ sum_from_if (in_range min_v max_v) (λ x. x) 0 (live p)
  folded h l =
      let w = width p in
      let m = max_value-width p.size v.class in
      let top = if ltb (max_value p.size) max_v then max_value p.size else max_v in
      let test = hit w min_v (top - min_v) in
      let same : (x : ℕ) → x < 2 ^ w → test x ≡ in_range min_v max_v x = λ x b.
        hit_in_range w v.class min_v top x b (ground (arith, m)) (ground (arith, m))
        ∙ ground (arith, m) in
      rw (zero-add (count_if test (live p))) at (
        sum_from_if-fold test (in_range min_v max_v) (offset w min_v) (λ x. x) min_v 0 0 0 (live p)
          (All-imp (λ x. x < 2 ^ w)
            (λ x.
              (test x ≡ in_range min_v max_v x)
              × (in_range min_v max_v x ≡ true → (offset w min_v x + min_v) % 2 ^ 64 ≡ x % 2 ^ 64))
            (λ x b. (
              same x b,
              λ i. offset_back w v.class min_v top x b (ground (arith, m)) (ground (arith, m)),
            ))
            (live p) (live-words v))
          (fold_start min_v))

  -- On a valid pool, `s2r_sum_if_fast` returns what `s2r_sum_if` returns.
  pub sum_if_fast-sum_if : sum_if_fast p min_v max_v ≡ sum_if p min_v max_v
  unfolding sum_if_fast sum_if sumrng_fast sumrng_scalar
  sum_if_fast-sum_if = elim (Bool-cases (p.count == 0)) [
    | inl e ↦ rw e
    | inr e ↦ elim (Bool-cases (ltb max_v min_v)) [
      | inl none_in ↦
          rw (e, none_in, elements-live v)
            (sym (
              sum_from_if-none (in_range min_v max_v) (λ x. x) 0 (live p)
                (All-of (λ x. in_range min_v max_v x ≡ false) (λ x. ground arith) (live p))))
      | inr some_in ↦ elim (Bool-cases (ltb (max_value p.size) min_v)) [
        | inl high ↦
            rw (e, some_in, high, elements-live v)
              (sym (
                sum_from_if-none (in_range min_v max_v) (λ x. x) 0 (live p)
                  (All-imp (λ x. x < 2 ^ width p) (λ x. in_range min_v max_v x ≡ false)
                    (λ x h. ground (arith, max_value-width p.size v.class)) (live p)
                    (live-words v))))
        | inr low ↦ rw (e, some_in, low, elements-live v) (folded (ground arith) (ground arith))
      ]
    ]
  ]
