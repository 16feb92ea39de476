-- ===== src/Affine/Folds.antt =====
-- `base * count + stride * sum` of include/smart2raw.h, against the sum of the values.
use native.Mathlib.Nat.{mul_comm, zero-add, add-zero, add_assoc}
use smart2raw.Base.{
  if◌then◌else◌, Bool-cases, All, wrap_add, wrap_mul, ℕ, ◌+◌, ◌*◌, ◌%◌, ◌^◌, ◌≡◌, refl, sym, ap,
  ◌∙◌, inl, inr, Bool, true, List, [], ◌∷◌, map, arith,
}
use smart2raw.Scan.{count_if, sum_from, sum_from_if}
use smart2raw.Adaptive.Commit.{mod-mul}

-- The word of a value on the lattice.
abbrev pub lattice_word : ℕ → ℕ → ℕ → ℕ
lattice_word b st x = (b + st * x) % 2 ^ 64

reduced : (st y : ℕ) → st * (y % 2 ^ 64) % 2 ^ 64 ≡ st * y % 2 ^ 64
reduced st y =
    ap (λ z. z % 2 ^ 64) (mul_comm st (y % 2 ^ 64))
    ∙ sym (mod-mul (2 ^ 64) y st)
    ∙ ap (λ z. z % 2 ^ 64) (mul_comm y st)

fold_step :
    (b st c s acc x : ℕ)
    → wrap_add 64 (wrap_mul 64 b c) (wrap_mul 64 st s) ≡ acc
    → wrap_add 64 (wrap_mul 64 b (c + 1)) (wrap_mul 64 st (wrap_add 64 s x))
      ≡ wrap_add 64 acc (lattice_word b st x)
unfolding wrap_add wrap_mul
fold_step b st c s acc x e = rw (reduced st (s + x)) (omega arith)

pub lattice_fold :
    (b st : ℕ) (test : ℕ → Bool) (c s acc : ℕ) (xs : List ℕ)
    → wrap_add 64 (wrap_mul 64 b c) (wrap_mul 64 st s) ≡ acc
    → wrap_add 64
        (wrap_mul 64 b (c + count_if test xs))
        (wrap_mul 64 st (sum_from_if test (λ x. x) s xs))
      ≡ sum_from_if test (lattice_word b st) acc xs
unfolding sum_from_if count_if
lattice_fold b st test c s acc [] e = rw add-zero e
lattice_fold b st test c s acc (x ∷ xs) e = elim (Bool-cases (test x)) [
  | inr out ↦ rw (out, zero-add) (lattice_fold b st test c s acc xs e)
  | inl inside ↦
      rw (inside, ← add_assoc)
        (lattice_fold b st test (c + 1) (wrap_add 64 s x) (wrap_add 64 acc (lattice_word b st x)) xs
          (fold_step b st c s acc x e))
]

pub no_product : (b : ℕ) → wrap_mul 64 b 0 ≡ 0
unfolding wrap_mul
no_product b = omega arith

module _ {A : Type 0} (test : A → Bool) (word : A → ℕ) where
  -- All words the same.
  constant_fold :
      (b c : ℕ) (vs : List A)
      → All (λ v. word v ≡ b) vs
      → sum_from_if test word (wrap_mul 64 b c) vs ≡ wrap_mul 64 b (c + count_if test vs)
  unfolding sum_from_if count_if wrap_mul wrap_add
  constant_fold b c [] h = rw add-zero refl
  constant_fold b c (v ∷ vs) h = elim (Bool-cases (test v)) [
    | inr out ↦ rw (out, zero-add) (constant_fold b c vs h.1)
    | inl inside ↦
        let s : wrap_add 64 (wrap_mul 64 b c) (word v) ≡ wrap_mul 64 b (c + 1) =
          rw h.0 (omega arith) in
        rw (inside, s, ← add_assoc) (constant_fold b (c + 1) vs h.1)
  ]

  pub constant_total :
      (b : ℕ) (vs : List A)
      → All (λ v. word v ≡ b) vs
      → wrap_mul 64 b (count_if test vs) ≡ sum_from_if test word 0 vs
  constant_total b vs h =
      let n = count_if test vs in rw (zero-add n, no_product b) at (sym (constant_fold b 0 vs h))

  pub sum_from_if-congr :
      (test' : A → Bool) (word' : A → ℕ) (acc : ℕ) (vs : List A)
      → All (λ v. (test v ≡ test' v) × (word v ≡ word' v)) vs
      → sum_from_if test word acc vs ≡ sum_from_if test' word' acc vs
  unfolding sum_from_if
  sum_from_if-congr t u acc [] h = refl
  sum_from_if-congr t u acc (v ∷ vs) h =
      rw h.0.0
        (rw h.0.1 (sum_from_if-congr t u (if t v then wrap_add 64 acc (u v) else acc) vs h.1))

  pub sum_from_if-map {κ} :
      {B : Type κ} (f : B → A) (acc : ℕ) (xs : List B)
      → sum_from_if test word acc (map f xs)
        ≡ sum_from_if (λ x. test (f x)) (λ x. word (f x)) acc xs
  unfolding sum_from_if
  sum_from_if-map f acc [] = refl
  sum_from_if-map f acc (x ∷ xs) =
      sum_from_if-map f (if test (f x) then wrap_add 64 acc (word (f x)) else acc) xs

pub sum_from_all :
    (acc : ℕ) (xs : List ℕ) → sum_from acc xs ≡ sum_from_if (λ x. true) (λ x. x) acc xs
unfolding sum_from sum_from_if
sum_from_all acc [] = refl
sum_from_all acc (x ∷ xs) = sum_from_all (wrap_add 64 acc x) xs
