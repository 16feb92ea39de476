-- ===== src/Fast.antt =====
-- SIMD PREDICATE SCANS, the zone map and the `_fast` family of include/smart2raw.h, in the portable
-- build: `S2R_X86_SIMD` is 0, so every dispatch ends at the scalar loops.
pub mod Window
pub mod Bisect
pub mod Unsigned
pub mod Counts
pub mod Sums
pub mod Signed
pub mod SignedCounts
use smart2raw.Base.{
  ltb, leb, ◌==◌, if◌then◌else◌, ℤ, ◌+ℤ◌, ltb_ℤ, leb_ℤ, pos, negsuc, wrap, wrap_add, wrap_sub,
  wrap_mul, sx, to_u64, ℕ, zero, suc, ◌+◌, ◌-◌, ◌/◌, ◌<◌, Bool, true, false, ◌&&◌, ◌||◌, not, map,
}
use smart2raw.Class.{max_value, min_signed, max_signed}
use smart2raw.Pool.{Pool, width, is_signed, live, get, get_signed, used_bytes}
use smart2raw.Scan.{count_if, sum_from_if, sum}

-- `(a[i] - lo) mod 2^w <= span`, the one kernel of the family. At 64 bits nothing is cast.
unfoldable pub hit : ℕ → ℕ → ℕ → ℕ → Bool
hit w lo span a =
    if w == 8 || w == 16 || w == 32
    then leb (wrap_sub w a (wrap w lo)) (wrap w span)
    else leb (wrap_sub 64 a lo) span

unfoldable pub offset : ℕ → ℕ → ℕ → ℕ
offset w lo a = if w == 8 || w == 16 || w == 32 then wrap_sub w a (wrap w lo) else wrap_sub 64 a lo

unfoldable pub cntrng_scalar : Pool → ℕ → ℕ → ℕ
cntrng_scalar p lo span = count_if (hit (width p) lo span) (live p)

-- The sum of the offsets of the hits, and their number.
unfoldable pub sumrng_scalar : Pool → ℕ → ℕ → ℕ × ℕ
sumrng_scalar p lo span =
    let test = hit (width p) lo span in
    (sum_from_if test (offset (width p) lo) 0 (live p), count_if test (live p))

unfoldable pub cntrng_fast : Pool → ℕ → ℕ → ℕ
cntrng_fast p lo span = if p.count == 0 then 0 else cntrng_scalar p lo span

unfoldable pub sumrng_fast : Pool → ℕ → ℕ → ℕ × ℕ
sumrng_fast p lo span = if p.count == 0 then (0, 0) else sumrng_scalar p lo span

-- `while (lo < hi) { m = lo + ((hi - lo) >> 1); if (below m) lo = m + 1; else hi = m; }`
unfoldable pub bisect : (ℕ → Bool) → ℕ → ℕ → ℕ → ℕ
bisect below zero lo hi = lo
bisect below (suc fuel) lo hi =
    let m = lo + (hi - lo) / 2 in
    elim (ltb lo hi) [
      | true ↦ elim (below m) [
        | true ↦ bisect below fuel (m + 1) hi
        | false ↦ bisect below fuel lo m
      ]
      | false ↦ lo
    ]

-- The range shrinks in every round, so `count + 1` rounds are enough.
unfoldable pub lower_u : Pool → ℕ → ℕ
lower_u p v = bisect (λ m. ltb (get p m) v) (suc p.count) 0 p.count

unfoldable pub upper_u : Pool → ℕ → ℕ
upper_u p v = bisect (λ m. leb (get p m) v) (suc p.count) 0 p.count

unfoldable pub lower_s : Pool → ℤ → ℕ
lower_s p v = bisect (λ m. ltb_ℤ (get_signed p m) v) (suc p.count) 0 p.count

unfoldable pub upper_s : Pool → ℤ → ℕ
upper_s p v = bisect (λ m. leb_ℤ (get_signed p m) v) (suc p.count) 0 p.count

-- S2R_BLK_BSEARCH_MIN_BYTES.
abbrev pub bsearch_min_bytes : ℕ
bsearch_min_bytes = 512

unfoldable pub bsearch_worth : Pool → Bool
bsearch_worth p = p.flags.sorted && leb bsearch_min_bytes (used_bytes p)

unfoldable pub count_range_fast : Pool → ℕ → ℕ → ℕ
count_range_fast p min_v max_v =
    let cls_max = max_value p.size in
    let top = if ltb cls_max max_v then cls_max else max_v in
    let scan = if ltb cls_max min_v then 0 else cntrng_fast p min_v (top - min_v) in
    let search =
      if not (is_signed p) && bsearch_worth p
      then wrap_sub 64 (upper_u p max_v) (lower_u p min_v)
      else scan in
    if p.count == 0 || ltb max_v min_v
    then 0
    else if not (is_signed p) && p.flags.summary
    then (if ltb max_v p.smin || ltb p.smax min_v
        then 0
        else if leb min_v p.smin && leb p.smax max_v
        then p.count
        else search)
    else search

unfoldable pub count_gt_fast : Pool → ℕ → ℕ
count_gt_fast p thr =
    let cls_max = max_value p.size in
    let scan = if leb cls_max thr then 0 else count_range_fast p (wrap_add 64 thr 1) cls_max in
    let search =
      if not (is_signed p) && bsearch_worth p then wrap_sub 64 p.count (upper_u p thr) else scan in
    if p.count == 0
    then 0
    else if not (is_signed p) && p.flags.summary
    then (if leb p.smax thr then 0 else if ltb thr p.smin then p.count else search)
    else search

unfoldable pub count_lt_fast : Pool → ℕ → ℕ
count_lt_fast p thr = if p.count == 0 || thr == 0 then 0 else count_range_fast p 0 (thr - 1)

unfoldable pub count_eq_fast : Pool → ℕ → ℕ
count_eq_fast p value = count_range_fast p value value

unfoldable pub sum_if_fast : Pool → ℕ → ℕ → ℕ
sum_if_fast p min_v max_v =
    let cls_max = max_value p.size in
    let top = if ltb cls_max max_v then cls_max else max_v in
    let (s, cnt) = sumrng_fast p min_v (top - min_v) in
    if p.count == 0 || ltb max_v min_v
    then 0
    else if ltb cls_max min_v
    then 0
    else wrap_add 64 s (wrap_mul 64 min_v cnt)

-- `min_v`, `max_v` clamped to the limits of the class.
abbrev pub at_least : ℤ → ℤ → ℤ
at_least cmin v = if ltb_ℤ v cmin then cmin else v

abbrev pub at_most : ℤ → ℤ → ℤ
at_most cmax v = if ltb_ℤ cmax v then cmax else v

unfoldable pub count_range_signed_fast : Pool → ℤ → ℤ → ℕ
count_range_signed_fast p min_v max_v =
    let cmin = min_signed p.size in
    let cmax = max_signed p.size in
    let lo = to_u64 (at_least cmin min_v) in
    let hi = to_u64 (at_most cmax max_v) in
    let scan =
      if ltb_ℤ cmax min_v || ltb_ℤ max_v cmin then 0 else cntrng_fast p lo (wrap_sub 64 hi lo) in
    let search =
      if bsearch_worth p then wrap_sub 64 (upper_s p max_v) (lower_s p min_v) else scan in
    if p.count == 0 || ltb_ℤ max_v min_v || not (is_signed p)
    then 0
    else if p.flags.summary
    then (if ltb_ℤ max_v (sx 64 p.smin) || ltb_ℤ (sx 64 p.smax) min_v
        then 0
        else if leb_ℤ min_v (sx 64 p.smin) && leb_ℤ (sx 64 p.smax) max_v
        then p.count
        else search)
    else search

unfoldable pub count_gt_signed_fast : Pool → ℤ → ℕ
count_gt_signed_fast p thr =
    let cmax = max_signed p.size in
    let scan = if leb_ℤ cmax thr then 0 else count_range_signed_fast p (thr +ℤ pos 1) cmax in
    let search = if bsearch_worth p then wrap_sub 64 p.count (upper_s p thr) else scan in
    if p.count == 0 || not (is_signed p)
    then 0
    else if p.flags.summary
    then (if leb_ℤ (sx 64 p.smax) thr
        then 0
        else if ltb_ℤ thr (sx 64 p.smin)
        then p.count
        else search)
    else search

unfoldable pub count_lt_signed_fast : Pool → ℤ → ℕ
count_lt_signed_fast p thr =
    let cmin = min_signed p.size in
    if p.count == 0 || not (is_signed p)
    then 0
    else if leb_ℤ thr cmin
    then 0
    else count_range_signed_fast p cmin (thr +ℤ negsuc 0)

unfoldable pub count_eq_signed_fast : Pool → ℤ → ℕ
count_eq_signed_fast p value = count_range_signed_fast p value value

unfoldable pub sum_if_signed_fast : Pool → ℤ → ℤ → ℤ
sum_if_signed_fast p min_v max_v =
    let cmin = min_signed p.size in
    let cmax = max_signed p.size in
    let lo = to_u64 (at_least cmin min_v) in
    let hi = to_u64 (at_most cmax max_v) in
    let (s, cnt) = sumrng_fast p lo (wrap_sub 64 hi lo) in
    if p.count == 0 || ltb_ℤ max_v min_v || not (is_signed p)
    then pos 0
    else if ltb_ℤ cmax min_v || ltb_ℤ max_v cmin
    then pos 0
    else sx 64 (wrap_add 64 s (wrap_mul 64 lo cnt))
