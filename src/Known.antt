-- ===== src/Known.antt =====
-- What the flags S2R_FLAG_SORTED and S2R_FLAG_SUMMARY promise of a pool of include/smart2raw.h.
pub mod Bounds
pub mod Keep
use smart2raw.Base.{
  if◌then◌else◌, ℤ, ◌≤ℤ◌, pos, wrap_add, sx, to_u64, ℕ, ◌≡◌, true, false, List, [], ◌∷◌, map,
}
use smart2raw.Class.{max_from_ℤ, min_from_ℤ}
use smart2raw.Pool.{Pool, is_signed, live, read, read_signed}

-- The integer that an element stands for: `s2r_get_signed` reads a signed pool, `s2r_get` another.
abbrev pub key : Pool → ℕ → ℤ
key p x = if is_signed p then read_signed p x else pos (read p x)

abbrev pub values : Pool → List ℤ
values p = map (key p) (live p)

-- So for a field of the summary, which holds a uint64_t.
abbrev pub bound : Pool → ℕ → ℤ
bound p m = if is_signed p then sx 64 m else pos m

-- Neighbours in order, the last of `v ∷ vs` first.
abbrev pub AscendingFrom : ℤ → List ℤ → Type 0
AscendingFrom v [] = Unit
AscendingFrom v (w ∷ ws) = (v ≤ℤ w) × AscendingFrom w ws

abbrev pub Ascending : List ℤ → Type 0
Ascending [] = Unit
Ascending (v ∷ vs) = AscendingFrom v vs

-- The sum in a uint64_t.
unfoldable pub sum_u64 : ℕ → List ℤ → ℕ
sum_u64 acc [] = acc
sum_u64 acc (v ∷ vs) = sum_u64 (wrap_add 64 acc (to_u64 v)) vs

-- The least and the greatest value and the sum; of an empty pool nothing is said.
abbrev pub Current : ℤ → ℤ → ℕ → List ℤ → Type 0
Current lo hi total [] = Unit
Current lo hi total (v ∷ vs) =
    (lo ≡ min_from_ℤ v vs) × (hi ≡ max_from_ℤ v vs) × (total ≡ sum_u64 0 (v ∷ vs))

pub record IsKnown (p : Pool) : Type 0 where
  pub order : p.flags.sorted ≡ true → Ascending (values p)
  pub extent : p.flags.summary ≡ true → Current (bound p p.smin) (bound p p.smax) p.ssum (values p)

module _ (p : Pool) (x : ℕ) where
  pub key_unsigned : is_signed p ≡ false → key p x ≡ pos (read p x)
  key_unsigned u = rw u

  pub key_signed : is_signed p ≡ true → key p x ≡ read_signed p x
  key_signed s = rw s

  pub bound_unsigned : is_signed p ≡ false → bound p x ≡ pos x
  bound_unsigned u = rw u

  pub bound_signed : is_signed p ≡ true → bound p x ≡ sx 64 x
  bound_signed s = rw s
