-- ===== src/Base/Words.antt =====
-- Machine words: a `w`-bit word is a number below `2 ^ w`, and a signed one is its bit pattern.
use Prim.Native.Nat.{ℕ, ◌+◌, ◌-◌, ◌*◌, ◌%◌, ◌^◌, ◌≤◌, ◌<◌}
use mathlib.Core.Path.{◌≡◌, ◌∙◌}
use mathlib.Core.Logic.{◌⊎◌, inl, inr}
use mathlib.Core.Bool.{Bool, true, ◌||◌}
use native.Mathlib.Nat.{mod-lt, mod-eq_of_lt, mod-eq-sub-mod, pow-le-pow_right}
use native.Mathlib.Omega.{arith}
use smart2raw.Base.Tests.{ltb, ◌==◌, if◌then◌else◌}
use smart2raw.Base.Int.{ℤ, pos, negsuc, pos_part, neg_part}

abbrev pub u64_mod : ℕ
u64_mod = 2 ^ 64

-- SIZE_MAX and ~0ULL.
abbrev pub u64_max : ℕ
u64_max = 2 ^ 64 - 1

-- The four native widths, as a predicate and as the guard that the code writes.
abbrev pub IsWidth : ℕ → Type 0
IsWidth w = (w ≡ 8) ⊎ (w ≡ 16) ⊎ (w ≡ 32) ⊎ (w ≡ 64)

abbrev pub is_width : ℕ → Bool
is_width w = w == 8 || w == 16 || w == 32 || w == 64

pub is_width→IsWidth : (w : ℕ) → is_width w ≡ true → IsWidth w
is_width→IsWidth w h = ground arith

pub IsWidth→is_width : (w : ℕ) → IsWidth w → is_width w ≡ true
IsWidth→is_width w h = ground arith

-- The cast to an unsigned `w`-bit type.
unfoldable pub wrap : ℕ → ℕ → ℕ
wrap w v = v % 2 ^ w

-- Addition and subtraction of `w`-bit words.
unfoldable pub wrap_add : ℕ → ℕ → ℕ → ℕ
wrap_add w a b = (a + b) % 2 ^ w

unfoldable pub wrap_sub : ℕ → ℕ → ℕ → ℕ
wrap_sub w a b = (a + 2 ^ w - b) % 2 ^ w

unfoldable pub wrap_mul : ℕ → ℕ → ℕ → ℕ
wrap_mul w a b = a * b % 2 ^ w

-- The integer that a `w`-bit pattern stands for.
unfoldable pub sx : ℕ → ℕ → ℤ
sx w x = if ltb (2 * x) (2 ^ w) then pos x else negsuc (2 ^ w - x - 1)

-- The cast of an int64_t to uint64_t.
unfoldable pub to_u64 : ℤ → ℕ
to_u64 (pos n) = n % 2 ^ 64
to_u64 (negsuc n) = 2 ^ 64 - 1 - n % 2 ^ 64

-- The range of int64_t.
abbrev pub IsI64 : ℤ → Type 0
IsI64 v = (pos_part v < 2 ^ 63) × (neg_part v ≤ 2 ^ 63)

-- A statement about each width is one about the four.
pub by_width {ℓ} : (P : ℕ → Type ℓ) → P 8 → P 16 → P 32 → P 64 → (w : ℕ) → IsWidth w → P w
by_width P a b c d w (inl e) = rw e a
by_width P a b c d w (inr (inl e)) = rw e b
by_width P a b c d w (inr (inr (inl e))) = rw e c
by_width P a b c d w (inr (inr (inr e))) = rw e d

-- What a width says of its modulus.
pub width_bounds : (w : ℕ) → IsWidth w → (256 ≤ 2 ^ w) × (2 ^ w ≤ 2 ^ 64)
width_bounds =
    by_width (λ w. (256 ≤ 2 ^ w) × (2 ^ w ≤ 2 ^ 64)) (omega arith) (omega arith) (omega arith)
      (omega arith)

pub pow_mono : (v w : ℕ) → v ≤ w → 2 ^ v ≤ 2 ^ w
pow_mono v w h = pow-le-pow_right {n = 2} (omega arith) h

module _ (w v : ℕ) where
  pub wrap-lt : IsWidth w → wrap w v < 2 ^ w
  unfolding wrap
  wrap-lt h = mod-lt v (omega (arith, width_bounds w h))

  pub wrap_of_lt : v < 2 ^ w → wrap w v ≡ v
  unfolding wrap
  wrap_of_lt h = mod-eq_of_lt h

module _ (w a b : ℕ) where
  pub wrap_add_of_lt : a + b < 2 ^ w → wrap_add w a b ≡ a + b
  unfolding wrap_add
  wrap_add_of_lt h = mod-eq_of_lt h

  pub wrap_mul_of_lt : a * b < 2 ^ w → wrap_mul w a b ≡ a * b
  unfolding wrap_mul
  wrap_mul_of_lt h = mod-eq_of_lt h

  pub wrap_sub_of_le : b ≤ a → a < 2 ^ w → wrap_sub w a b ≡ a - b
  unfolding wrap_sub
  wrap_sub_of_le h k =
      rw (mod-eq-sub-mod {n = a + 2 ^ w - b} {m = 2 ^ w} (omega arith))
        (mod-eq_of_lt {n = a + 2 ^ w - b - 2 ^ w} (omega arith) ∙ omega arith)

  pub wrap_sub_of_lt : a < b → b ≤ 2 ^ w → wrap_sub w a b ≡ a + 2 ^ w - b
  unfolding wrap_sub
  wrap_sub_of_lt h k = mod-eq_of_lt (omega arith)

  pub wrap_add-lt : IsWidth w → wrap_add w a b < 2 ^ w
  unfolding wrap_add
  wrap_add-lt h = mod-lt (a + b) (omega (arith, width_bounds w h))

  pub wrap_sub-lt : IsWidth w → wrap_sub w a b < 2 ^ w
  unfolding wrap_sub
  wrap_sub-lt h = mod-lt (a + 2 ^ w - b) (omega (arith, width_bounds w h))

  pub wrap_mul-lt : IsWidth w → wrap_mul w a b < 2 ^ w
  unfolding wrap_mul
  wrap_mul-lt h = mod-lt (a * b) (omega (arith, width_bounds w h))

-- The integers that a signed `w`-bit type holds.
abbrev pub Fits : ℕ → ℤ → Type 0
Fits w v = (2 * pos_part v < 2 ^ w) × (2 * neg_part v ≤ 2 ^ w)

pub sx-Fits : (w x : ℕ) → x < 2 ^ w → Fits w (sx w x)
unfolding sx
sx-Fits w x h = ground arith

pub to_u64-lt : (v : ℤ) → to_u64 v < 2 ^ 64
unfolding to_u64
to_u64-lt (pos n) = omega arith
to_u64-lt (negsuc n) = omega arith

-- A pattern is read back from the integer that it stands for, by the cast to the unsigned type.
abbrev SxBack : ℕ → Type 0
SxBack w = (x : ℕ) → x < 2 ^ w → wrap w (to_u64 (sx w x)) ≡ x

pub wrap-to_u64-sx : (w : ℕ) → IsWidth w → (x : ℕ) → x < 2 ^ w → wrap w (to_u64 (sx w x)) ≡ x
unfolding wrap to_u64 sx
wrap-to_u64-sx =
    by_width SxBack (λ x h. ground arith) (λ x h. ground arith) (λ x h. ground arith)
      (λ x h. ground arith)

-- An integer that fits is read back from its pattern.
abbrev SxForth : ℕ → Type 0
SxForth w = (v : ℤ) → Fits w v → sx w (wrap w (to_u64 v)) ≡ v

pub sx-wrap-to_u64 : (w : ℕ) → IsWidth w → (v : ℤ) → Fits w v → sx w (wrap w (to_u64 v)) ≡ v
unfolding wrap to_u64 sx
sx-wrap-to_u64 =
    by_width SxForth (λ v h. ground arith) (λ v h. ground arith) (λ v h. ground arith)
      (λ v h. ground arith)
