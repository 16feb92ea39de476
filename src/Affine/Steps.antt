-- ===== src/Affine/Steps.antt =====
-- s2r_affine_detect and s2r_affine_detect_signed of include/smart2raw.h.
use Prim.Native.Nat.{◌∣◌}
use native.Mathlib.Nat.{dvd_refl, one-dvd, mul-div_cancel'}
use smart2raw.Base.{
  ltb, ◌==◌, Bool-cases, eq_of_==, All, All-of, ℤ, wrap_sub, to_u64, wrap_sub-lt, ℕ, ◌*◌, ◌<◌, ◌≡◌,
  refl, sym, subst, inl, inr, List, [], ◌∷◌, map, arith,
}
use smart2raw.Class.{min_from, min_from_ℤ}
use smart2raw.Gcd.{gcd64, gcd64-Divides}
use smart2raw.Affine.{common_step, at_least_one, affine_detect, affine_detect_signed, index_of}

abbrev pub StepOf : ℕ → ℕ → List ℕ → Type 0
StepOf d mn words = All (λ x. d ∣ wrap_sub 64 x mn) words

-- What divides the last step and every offset.
abbrev pub Common : ℕ → ℕ → List ℕ → ℕ → Type 0
Common mn g words d = (d ∣ g) × StepOf d mn words

pub one-StepOf : (mn : ℕ) (words : List ℕ) → StepOf 1 mn words
one-StepOf mn = All-of (λ x. 1 ∣ wrap_sub 64 x mn) (λ x. one-dvd (wrap_sub 64 x mn))

pub common_step-divides : (mn g : ℕ) (words : List ℕ) → Common mn g words (common_step mn g words)
unfolding common_step
common_step-divides mn g [] = (dvd_refl g, tt)
common_step-divides mn g (x ∷ xs) =
    let off = wrap_sub 64 x mn in
    elim (Bool-cases (g == 1)) [
      | inl e ↦
          let stop : common_step mn g (x ∷ xs) ≡ 1 = rw (common_step, e) (eq_of_== g 1 e) in
          subst (Common mn g (x ∷ xs)) (sym stop) (one-dvd g, one-StepOf mn (x ∷ xs))
      | inr n ↦
          let d = common_step mn (gcd64 g off) xs in
          let ih = common_step-divides mn (gcd64 g off) xs in
          let both = (gcd64-Divides d g off (wrap_sub-lt 64 x mn (omega arith))).1 ih.0 in
          let on : common_step mn g (x ∷ xs) ≡ d = rw (common_step, n) refl in
          subst (Common mn g (x ∷ xs)) (sym on) (both.0, (both.1, ih.1))
    ]

pub StepOf-at_least_one :
    (g mn : ℕ) (words : List ℕ)
    → StepOf g mn words
    → (0 < at_least_one g) × StepOf (at_least_one g) mn words
StepOf-at_least_one g mn words h = elim (Bool-cases (ltb g 2)) [
  | inl e ↦ rw e (omega arith, one-StepOf mn words)
  | inr n ↦ rw n (ground arith, h)
]

pub affine_detect-divides :
    (src : List ℕ) → let (st, mn) = affine_detect src in (0 < st) × StepOf st mn src
unfolding affine_detect
affine_detect-divides [] = (omega arith, tt)
affine_detect-divides (x ∷ xs) =
    let mn = min_from x xs in
    StepOf-at_least_one (common_step mn 0 (x ∷ xs)) mn (x ∷ xs)
      (common_step-divides mn 0 (x ∷ xs)).1

pub affine_detect_signed-divides :
    (src : List ℤ)
    → let (st, mn) = affine_detect_signed src in (0 < st) × StepOf st (to_u64 mn) (map to_u64 src)
unfolding affine_detect_signed
affine_detect_signed-divides [] = (omega arith, tt)
affine_detect_signed-divides (x ∷ xs) =
    let mn = to_u64 (min_from_ℤ x xs) in
    let words = map to_u64 (x ∷ xs) in
    StepOf-at_least_one (common_step mn 0 words) mn words (common_step-divides mn 0 words).1

-- The index times the stride is the offset.
pub index_of-stride :
    (bs st x : ℕ) → 0 < st → st ∣ wrap_sub 64 x bs → st * index_of bs st x ≡ wrap_sub 64 x bs
index_of-stride bs st x p d = elim (Bool-cases (ltb 1 st)) [
  | inl e ↦ rw e (mul-div_cancel' st d)
  | inr n ↦ let one : st ≡ 1 = ground arith in rw (n, one) (omega arith)
]
