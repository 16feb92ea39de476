-- ===== src/Fast/Window.antt =====
-- The frame of reference of the scans of include/smart2raw.h as a window of residues.
use smart2raw.Base.{
  leb, ℤ, ◌≤ℤ◌, leb_ℤ, IsWidth, wrap, wrap_sub, sx, to_u64, by_width, Fits, ℕ, ◌-◌, ◌^◌, ◌≤◌, ◌<◌,
  ◌≡◌, ◌&&◌, arith,
}
use smart2raw.Fast.{hit}

abbrev HitInRange : ℕ → Type 0
HitInRange w =
    (lo hi a : ℕ) → a < 2 ^ w → hi < 2 ^ w → lo ≤ hi → hit w lo (hi - lo) a ≡ leb lo a && leb a hi

-- Inside the class, the kernel's test is the range test.
pub hit_in_range :
    (w : ℕ)
    → IsWidth w
    → (lo hi a : ℕ) → a < 2 ^ w
    → hi < 2 ^ w
    → lo ≤ hi
    → hit w lo (hi - lo) a ≡ leb lo a && leb a hi
unfolding hit wrap wrap_sub
hit_in_range =
    by_width HitInRange (λ lo hi a ha hhi le. ground arith) (λ lo hi a ha hhi le. ground arith)
      (λ lo hi a ha hhi le. ground arith) (λ lo hi a ha hhi le. ground arith)

abbrev HitInRangeℤ : ℕ → Type 0
HitInRangeℤ w =
    (lo hi : ℤ) (a : ℕ)
    → a < 2 ^ w
    → Fits w lo
    → Fits w hi
    → lo ≤ℤ hi
    → hit w (to_u64 lo) (wrap_sub 64 (to_u64 hi) (to_u64 lo)) a
      ≡ leb_ℤ lo (sx w a) && leb_ℤ (sx w a) hi

-- The kernel on the patterns of a signed class decides the range of the integers.
pub hit_in_range_ℤ :
    (w : ℕ)
    → IsWidth w
    → (lo hi : ℤ) (a : ℕ) → a < 2 ^ w
    → Fits w lo
    → Fits w hi
    → lo ≤ℤ hi
    → hit w (to_u64 lo) (wrap_sub 64 (to_u64 hi) (to_u64 lo)) a
      ≡ leb_ℤ lo (sx w a) && leb_ℤ (sx w a) hi
unfolding hit wrap wrap_sub sx to_u64
hit_in_range_ℤ =
    by_width HitInRangeℤ (λ lo hi a ha fl fh le. ground arith) (λ lo hi a ha fl fh le. ground arith)
      (λ lo hi a ha fl fh le. ground arith) (λ lo hi a ha fl fh le. ground arith)
