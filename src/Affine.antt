-- ===== src/Affine.antt =====
-- S2RAffine of include/smart2raw.h: a column as base + stride * index, with the indices in the
-- smallest class.
--
-- A column of uint64_t or of int64_t is built from its words, `su[i]` or `(uint64_t)ss[i]`, after
-- the step has been found. A NULL array is not one of them.
pub mod Indices
pub mod Steps
pub mod Build
pub mod Held
pub mod Arrays
pub mod RoundTrip
pub mod Quotients
pub mod Spread
pub mod Counts
pub mod Ranges
pub mod Folds
pub mod Totals
pub mod Answers
pub mod Progress
use smart2raw.Base.{
  ltb, leb, ◌==◌, if◌then◌else◌, length, ℤ, ltb_ℤ, leb_ℤ, pos, wrap_add, wrap_sub, wrap_mul, sx,
  to_u64, ℕ, ◌+◌, ◌-◌, ◌*◌, ◌/◌, ◌%◌, ◌<◌, Bool, true, false, ◌&&◌, not, List, [], ◌∷◌, map,
}
use smart2raw.Class.{s8, classify, max_from, min_from, min_from_ℤ}
use smart2raw.Pool.{Pool, blank, pool_init, get, set, used_bytes}
use smart2raw.Scan.{sum}
use smart2raw.Fast.{count_range_fast, count_gt_fast, count_eq_fast, sum_if_fast}
use smart2raw.Gcd.{gcd64}

pub record Affine : Type 0 where
  pub idx : Pool
  pub base : ℤ
  pub stride : ℕ
  pub count : ℕ
  pub is_signed : Bool
  pub is_const : Bool

-- `for (i; i < n && g != 1; i++) g = gcd64(g, v[i] - mn);`
unfoldable pub common_step : ℕ → ℕ → List ℕ → ℕ
common_step mn g [] = g
common_step mn g (x ∷ xs) = elim (g == 1) [
  | true ↦ g
  | false ↦ common_step mn (gcd64 g (wrap_sub 64 x mn)) xs
]

abbrev pub at_least_one : ℕ → ℕ
at_least_one g = if ltb g 2 then 1 else g

-- The stride, and what is written to `*base_out`.
unfoldable pub affine_detect : List ℕ → ℕ × ℕ
affine_detect [] = (1, 0)
affine_detect (x ∷ xs) = let mn = min_from x xs in (at_least_one (common_step mn 0 (x ∷ xs)), mn)

unfoldable pub affine_detect_signed : List ℤ → ℕ × ℤ
affine_detect_signed [] = (1, pos 0)
affine_detect_signed (x ∷ xs) =
    let mn = min_from_ℤ x xs in (at_least_one (common_step (to_u64 mn) 0 (map to_u64 (x ∷ xs))), mn)

-- `off = word - base; if (st > 1) off /= st;`
abbrev pub index_of : ℕ → ℕ → ℕ → ℕ
index_of bs st x = let off = wrap_sub 64 x bs in if ltb 1 st then off / st else off

-- `for (i < n) s2r_set(&idx, i, off);`
unfoldable pub set_from : Pool → ℕ → List ℕ → Pool
set_from p i [] = p
set_from p i (v ∷ vs) = set_from (set p i v) (i + 1) vs

-- The structure after `memset`.
abbrev pub zeroed_affine : Affine
zeroed_affine = record {
  idx = blank (pos 0) 0;
  base = pos 0;
  stride = 0;
  count = 0;
  is_signed = false;
  is_const = false;
}

unfoldable pub affine_free : Affine → Affine
affine_free a = zeroed_affine

module _ (alloc : ℕ → Bool) where
  -- The part of the build from the words, their base and their stride.
  unfoldable pub affine_from : Bool → List ℕ → ℤ → ℕ → Bool × Affine
  affine_from is_signed words bs st =
      let n = length words in
      let index = map (index_of (to_u64 bs) st) words in
      let imax = max_from 0 index in
      let empty = pool_init alloc (blank (pos 0) 0) s8 1 in
      let started = pool_init alloc (blank (pos 0) 0) (classify imax) n in
      let a : Affine = record {
        idx = blank (pos 0) 0;
        base = bs;
        stride = st;
        count = n;
        is_signed = is_signed;
        is_const = false;
      } in
      if n == 0
      then (empty.0, record a { base = pos 0; stride = 1; idx = empty.1 })
      else if imax == 0
      then (empty.0, record a { is_const = true; idx = empty.1 })
      else if started.0
      then (true, record a { idx = record (set_from started.1 0 index) { count = n } })
      else (false, record a { idx = started.1 })

  unfoldable pub affine_build : List ℕ → Bool × Affine
  affine_build src = let (st, ub) = affine_detect src in affine_from false src (sx 64 ub) st

  unfoldable pub affine_build_signed : List ℤ → Bool × Affine
  affine_build_signed src =
      let (st, bs) = affine_detect_signed src in affine_from true (map to_u64 src) bs st

unfoldable pub affine_bytes : Affine → ℕ
affine_bytes a = if a.is_const then 0 else used_bytes a.idx

-- `base + stride * x` on uint64_t.
abbrev pub value_at : Affine → ℕ → ℕ
value_at a x = wrap_add 64 (to_u64 a.base) (wrap_mul 64 a.stride x)

-- `base * cnt + stride * s` on uint64_t.
abbrev pub total_of : Affine → ℕ → ℕ → ℕ
total_of a cnt s = wrap_add 64 (wrap_mul 64 (to_u64 a.base) cnt) (wrap_mul 64 a.stride s)

unfoldable pub affine_get : Affine → ℕ → ℕ
affine_get a i =
    if leb a.count i then 0 else if a.is_const then to_u64 a.base else value_at a (get a.idx i)

unfoldable pub affine_get_signed : Affine → ℕ → ℤ
affine_get_signed a i =
    if leb a.count i then pos 0 else if a.is_const then a.base else sx 64 (value_at a (get a.idx i))

-- `s2r_sum_fast` ends at `s2r_sum` in the portable build.
unfoldable pub affine_sum : Affine → ℕ
affine_sum a =
    if a.count == 0
    then 0
    else if a.is_const
    then wrap_mul 64 (to_u64 a.base) a.count
    else total_of a a.count (sum a.idx)

unfoldable pub affine_sum_signed : Affine → ℤ
affine_sum_signed a = sx 64 (affine_sum a)

-- The order of the column's values, on int64_t arguments.
abbrev pub column_lt : Affine → ℤ → ℤ → Bool
column_lt a x y = if a.is_signed then ltb_ℤ x y else ltb (to_u64 x) (to_u64 y)

abbrev pub column_le : Affine → ℤ → ℤ → Bool
column_le a x y = if a.is_signed then leb_ℤ x y else leb (to_u64 x) (to_u64 y)

abbrev pub distance : Affine → ℤ → ℕ
distance a v = wrap_sub 64 (to_u64 v) (to_u64 a.base)

-- `(rl + st - 1) / st`, on uint64_t.
abbrev pub ceil_div : ℕ → ℕ → ℕ
ceil_div x st = wrap_sub 64 (wrap_add 64 x st) 1 / st

-- The answer, `*ilo` and `*ihi`; where the window is refused they keep the callers' zeros.
unfoldable pub affine_window : Affine → ℤ → ℤ → Bool × ℕ × ℕ
affine_window a lo hi =
    let st = a.stride in
    let ilo =
      if column_le a lo a.base
      then 0
      else if ltb 1 st
      then ceil_div (distance a lo) st
      else distance a lo in
    let ihi = if ltb 1 st then distance a hi / st else distance a hi in
    if a.count == 0
    then (false, 0, 0)
    else if column_lt a hi a.base
    then (false, 0, 0)
    else (leb ilo ihi, ilo, ihi)

unfoldable pub affine_count_gt : Affine → ℤ → ℕ
affine_count_gt a thr =
    let rem = distance a thr in
    if a.count == 0
    then 0
    else if column_lt a thr a.base
    then a.count
    else if a.is_const
    then 0
    else count_gt_fast a.idx (if ltb 1 a.stride then rem / a.stride else rem)

unfoldable pub affine_count_range : Affine → ℤ → ℤ → ℕ
affine_count_range a lo hi =
    let (some_in, il, ih) = affine_window a lo hi in
    if not some_in
    then 0
    else if a.is_const
    then (if il == 0 then a.count else 0)
    else count_range_fast a.idx il ih

unfoldable pub affine_count_lt : Affine → ℤ → ℕ
affine_count_lt a thr =
    if a.count == 0
    then 0
    else if column_le a thr a.base
    then 0
    else affine_count_range a a.base (sx 64 (wrap_sub 64 (to_u64 thr) 1))

unfoldable pub affine_count_eq : Affine → ℤ → ℕ
affine_count_eq a val =
    let off = distance a val in
    if a.count == 0
    then 0
    else if column_lt a val a.base
    then 0
    else if a.is_const
    then (if off == 0 then a.count else 0)
    else if ltb 1 a.stride && not (off % a.stride == 0)
    then 0
    else count_eq_fast a.idx (if ltb 1 a.stride then off / a.stride else off)

unfoldable pub affine_sum_if : Affine → ℤ → ℤ → ℕ
affine_sum_if a lo hi =
    let (some_in, il, ih) = affine_window a lo hi in
    if not some_in
    then 0
    else if a.is_const
    then (if il == 0 then wrap_mul 64 (to_u64 a.base) a.count else 0)
    else total_of a (count_range_fast a.idx il ih) (sum_if_fast a.idx il ih)

unfoldable pub affine_sum_if_signed : Affine → ℤ → ℤ → ℤ
affine_sum_if_signed a lo hi = sx 64 (affine_sum_if a lo hi)
