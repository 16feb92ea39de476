-- ===== src/Index.antt =====
-- S2RIndex of include/smart2raw.h: the cumulative index of a pool of 8 or 16 bits.
--
-- A NULL table is the empty list. The four tables of the 8-bit loop, added up bin by bin, are one.
pub mod Table
pub mod Exact
use smart2raw.Base.{
  ◌==◌, if◌then◌else◌, length, get_or, replicate, ℤ, ◌+ℤ◌, ltb_ℤ, leb_ℤ, eqb_ℤ, pos, negsuc,
  wrap_add, wrap_sub, sx, to_u64, ℕ, ◌+◌, ◌-◌, ◌*◌, ◌^◌, Bool, true, false, ◌&&◌, ◌||◌, not, List,
  [], ◌∷◌, map,
}
use smart2raw.Class.{min_signed}
use smart2raw.Pool.{Pool, width, is_signed, live}
use smart2raw.Scan.{elements}
use smart2raw.Fast.{at_least, at_most}
use smart2raw.Order.{tally}

pub record Index : Type 0 where
  pub cum : List ℕ
  pub nbins : ℕ
  pub epoch : ℕ
  pub size : ℤ
  pub base : ℤ

abbrev pub no_index : Index
no_index = record { cum = []; nbins = 0; epoch = 0; size = pos 0; base = pos 0 }

unfoldable pub index_free : Index → Index
index_free ix = no_index

-- `for (v) cum[v+1] += cum[v]`, on uint64_t.
unfoldable pub running : ℕ → List ℕ → List ℕ
running acc [] = []
running acc (c ∷ cs) = let t = wrap_add 64 acc c in t ∷ running t cs

abbrev pub base_of : Pool → ℤ
base_of p = if is_signed p then min_signed p.size else pos 0

-- The bin of a cell: `(size_t)((int64_t)(intN_t)a[i] - base)` or `(size_t)a[i]`.
unfoldable pub bin : Pool → ℕ → ℕ
bin p x = if is_signed p then wrap_sub 64 (to_u64 (sx (width p) x)) (to_u64 (base_of p)) else x

-- A bin's number of elements stands one place up.
abbrev pub binned : Pool → List ℕ
binned p = tally (replicate (2 ^ width p + 1) 0) (map (λ x. bin p x + 1) (live p))

unfoldable pub index_build : (ℕ → Bool) → Pool → Bool × Index
index_build alloc p =
    let w = width p in
    if not (w == 8 || w == 16)
    then (false, no_index)
    else if alloc ((2 ^ w + 1) * 8)
    then (
      true,
      record {
        cum = running 0 (binned p);
        nbins = 2 ^ w;
        epoch = p.epoch;
        size = p.size;
        base = base_of p;
      },
    )
    else (false, no_index)

unfoldable pub index_valid : Index → Pool → Bool
index_valid ix p = not (length ix.cum == 0) && ix.epoch == p.epoch && eqb_ℤ ix.size p.size

unfoldable pub index_bytes : Index → ℕ
index_bytes ix = if length ix.cum == 0 then 0 else (ix.nbins + 1) * 8

abbrev pub top_of : Index → ℤ
top_of ix = ix.base +ℤ pos ix.nbins +ℤ negsuc 0

-- The count, and what is written to `*ok`.
unfoldable pub index_count_range : Index → Pool → ℤ → ℤ → ℕ × Bool
index_count_range ix p lo hi =
    let a = wrap_sub 64 (to_u64 (at_least ix.base lo)) (to_u64 ix.base) in
    let b = wrap_sub 64 (to_u64 (at_most (top_of ix) hi)) (to_u64 ix.base) in
    if not (index_valid ix p) || ltb_ℤ hi lo
    then (0, false)
    else if ltb_ℤ hi ix.base || ltb_ℤ (top_of ix) lo
    then (0, true)
    else (wrap_sub 64 (get_or ix.cum (b + 1) 0) (get_or ix.cum a 0), true)

unfoldable pub index_count_gt : Index → Pool → ℤ → ℕ × Bool
index_count_gt ix p thr =
    if not (index_valid ix p)
    then (0, false)
    else if leb_ℤ (top_of ix) thr
    then (0, true)
    else index_count_range ix p (thr +ℤ pos 1) (top_of ix)

unfoldable pub index_count_lt : Index → Pool → ℤ → ℕ × Bool
index_count_lt ix p thr =
    if not (index_valid ix p)
    then (0, false)
    else if leb_ℤ thr ix.base
    then (0, true)
    else index_count_range ix p ix.base (thr +ℤ negsuc 0)

unfoldable pub index_count_eq : Index → Pool → ℤ → ℕ × Bool
index_count_eq ix p v = index_count_range ix p v v
