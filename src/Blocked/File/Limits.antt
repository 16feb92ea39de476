-- ===== src/Blocked/File/Limits.antt =====
-- The checks of s2r_blocked_load of include/smart2raw.h, one by one.
use native.Mathlib.Nat.{le-div_iff_mul-le}
use smart2raw.Base.{
  ltb, ◌==◌, if◌then◌else◌, Bool-cases, ℤ, IsWidth, wrap_sub, wrap_mul, ℕ, zero, suc, ◌+◌, ◌-◌, ◌*◌,
  ◌/◌, ◌^◌, ◌≤◌, ◌<◌, ◌≡◌, refl, ap, inl, inr, Bool, true, false, ◌&&◌, ◌||◌, not, arith,
}
use smart2raw.Class.{s8, abs_size, classify}
use smart2raw.Blocked.{Blocked, md_bytes, block_len}
use smart2raw.Blocked.Filled.{NoEmpty}
use smart2raw.Blocked.File.{row_bytes, block_fits, all_fit}
use smart2raw.Blocked.File.Stored.{ClassesFit}

md_bytes-le : (c : ℤ) → IsWidth (abs_size c) → md_bytes c ≤ 8
md_bytes-le c w = omega (arith, w)

-- What is written takes no more than 42 bytes for a block and 16 for an element.
pub row_bytes-le : (b : Blocked) → ClassesFit b → IsWidth (abs_size b.tcls) → row_bytes b ≤ 42
row_bytes-le b f w =
    let t = md_bytes-le b.tcls w in
    let strides : (if b.has_stride then md_bytes b.tcls else 0) ≤ 8 =
      elim (Bool-cases b.has_stride) [ inl s ↦ rw s t | inr s ↦ rw s (omega arith) ] in
    omega (
      arith,
      md_bytes-le b.bcls f.bcls_width,
      md_bytes-le b.pcls f.pcls_width,
      md_bytes-le b.ocls f.ocls_width,
      md_bytes-le b.scls f.scls_width,
      strides,
    )

pub times_le_r : (n a b : ℕ) → a ≤ b → n * a ≤ n * b
times_le_r n a b h = grind arith

-- No more blocks than elements.
pub NoEmpty-le : (block n len : ℕ) → 0 < block → 0 < len → NoEmpty block n len → n ≤ len
NoEmpty-le block zero len p q c = omega arith
NoEmpty-le block (suc n) len p q (a, b) =
    let m : n ≤ n * block = grind arith in omega (arith, m, b, p)

pub NoEmpty-pos : (block n len : ℕ) → 0 < len → NoEmpty block n len → 0 < n
NoEmpty-pos block zero len q c = absurd (omega arith)
NoEmpty-pos block (suc n) len q c = omega arith

pub all_fit-of :
    (b : Blocked) (n bi : ℕ)
    → ((k : ℕ) → k < bi + n → block_fits b k ≡ true)
    → all_fit b n bi ≡ true
unfolding all_fit
all_fit-of b zero bi h = refl
all_fit-of b (suc n) bi h =
    rw (h bi (omega arith)) (all_fit-of b n (bi + 1) (λ k l. h k (omega arith)))

-- The deltas of a block lie inside the payload.
inside :
    (o w len bytes : ℕ)
    → o + len * w ≤ bytes
    → 0 < w
    → (ltb bytes o || ltb ((bytes - o) / w) len) ≡ false
inside o w len bytes h p =
    let q : len ≤ (bytes - o) / w = (le-div_iff_mul-le p).1 (omega arith) in ground arith

pub times_mono : (a b w : ℕ) → a ≤ b → a * w ≤ b * w
times_mono a b w h = grind arith

pub delta_fit :
    (cb w o len bytes : ℕ)
    → cb ≡ w * 8
    → (0 < w → o + len * w ≤ bytes)
    → (cb == 0 || not (ltb bytes o || ltb ((bytes - o) / (cb / 8)) len)) ≡ true
delta_fit cb zero o len bytes e h = ground arith
delta_fit cb (suc w) o len bytes e h =
    let z : (cb == 0) ≡ false = ground arith in
    let q : cb / 8 ≡ suc w = omega arith in
    rw (z, q) (ap not (inside o (suc w) len bytes (h (omega arith)) (omega arith)))

pub stride_fits :
    (has : Bool) (m t : ℕ) → (if has then m else 1) ≡ t → 0 < t → not (has && m == 0) ≡ true
stride_fits true m t e p = ground arith
stride_fits false m t e p = refl

pub all_three : (x y z : Bool) → x ≡ true → y ≡ true → z ≡ true → (x && y && z) ≡ true
all_three x y z e f g = rw (e, f, g) refl

pub block_len-le :
    (b : Blocked) (k : ℕ)
    → b.count < 2 ^ 64
    → k * b.block < b.count
    → (block_len b k ≤ b.block) × (block_len b k ≤ b.count - k * b.block)
unfolding block_len wrap_sub wrap_mul
block_len-le b k h l = ground arith

pub row_before : (k n blk : ℕ) → k < n → k * blk + blk ≤ n * blk
row_before k n blk h =
    let m : suc k * blk ≤ n * blk = times_mono (suc k) n blk (omega arith) in omega (arith, m)

pub plain_class : (top : ℕ) → ltb 1 top ≡ false → classify top ≡ s8
unfolding classify
plain_class top h = ground arith
