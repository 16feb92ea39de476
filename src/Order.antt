-- ===== src/Order.antt =====
-- The summary and the order as facts that a pool records, ANALYTICS V2, the pool with an embedded
-- range and the group-by on 8-bit keys of include/smart2raw.h.
--
-- `qsort` is the C library's, a parameter: from a comparison and the elements to the elements in
-- order.
pub mod Facts
pub mod Extent
use smart2raw.Base.{
  ltb, ◌==◌, if◌then◌else◌, get_or, drop, replicate, ℤ, ◌+ℤ◌, ltb_ℤ, eqb_ℤ, pos, negsuc, is_width,
  wrap, wrap_add, sx, to_u64, ℕ, zero, suc, ◌+◌, ◌-◌, ◌<◌, Bool, true, false, ◌&&◌, ◌||◌, not, List,
  [], ◌∷◌, ◌++◌, map,
}
use smart2raw.Class.{abs_size, max_from, min_from, max_from_ℤ, min_from_ℤ}
use smart2raw.Pool.{
  S2RError, Pool, width, is_neg, is_signed, blank, live, read, read_signed, get, get_signed, set,
  set_signed, ok, err_oom, err_invalid_size,
}
use smart2raw.Scan.{sum_from, elements, signed_elements, sum}
use smart2raw.Resize.{fit_class}
use smart2raw.Known.{values, sum_u64}
use smart2raw.Arith.{copy}
use smart2raw.Base.Lists

abbrev with_summary : Pool → ℕ → ℕ → ℕ → Pool
with_summary p lo hi total = record p {
  smin = lo;
  smax = hi;
  ssum = total;
  flags = record (p.flags) { summary = true };
}

unfoldable pub summarize : Pool → Pool
summarize p =
    let x = get_signed p 0 in
    let y = get p 0 in
    if p.flags.summary
    then p
    else if p.count == 0
    then with_summary p 0 0 0
    else if is_signed p
    then with_summary p (to_u64 (min_from_ℤ x (signed_elements p)))
        (to_u64 (max_from_ℤ x (signed_elements p))) (sum_u64 0 (signed_elements p))
    else with_summary p (min_from y (elements p)) (max_from y (elements p))
        (sum_from 0 (elements p))

unfoldable pub summarize_empty : Pool → Pool
summarize_empty p = if p.count == 0 then with_summary p 0 0 0 else p

-- `if (get(i-1) > get(i)) return 0`, from the element before.
unfoldable pub ascending_from : ℕ → List ℕ → Bool
ascending_from prev [] = true
ascending_from prev (x ∷ xs) = not (ltb x prev) && ascending_from x xs

unfoldable pub ascending_from_ℤ : ℤ → List ℤ → Bool
ascending_from_ℤ prev [] = true
ascending_from_ℤ prev (x ∷ xs) = not (ltb_ℤ x prev) && ascending_from_ℤ x xs

unfoldable pub ascending : List ℕ → Bool
ascending [] = true
ascending (x ∷ xs) = ascending_from x xs

unfoldable pub ascending_ℤ : List ℤ → Bool
ascending_ℤ [] = true
ascending_ℤ (x ∷ xs) = ascending_from_ℤ x xs

abbrev pub in_order : Pool → Bool
in_order p = if is_signed p then ascending_ℤ (signed_elements p) else ascending (elements p)

abbrev pub with_order : Pool → Pool
with_order p = record p { flags = record (p.flags) { sorted = true } }

unfoldable pub is_sorted : Pool → Bool
is_sorted p = if ltb p.count 2 then true else if p.flags.sorted then true else in_order p

unfoldable pub mark_sorted : Pool → Bool × Pool
mark_sorted p =
    if p.flags.sorted
    then (true, p)
    else if ltb p.count 2
    then (true, with_order p)
    else if in_order p
    then (true, with_order p)
    else (false, p)

-- `(x > y) - (x < y)`, on the type of the class.
unfoldable pub cmp : ℤ → ℕ → ℕ → ℤ
cmp size x y =
    let w = abs_size size in
    let above = if is_neg size then ltb_ℤ (sx w y) (sx w x) else ltb y x in
    let below = if is_neg size then ltb_ℤ (sx w x) (sx w y) else ltb x y in
    (if above then pos 1 else pos 0) +ℤ (if below then negsuc 0 else pos 0)

-- Adjacent duplicates: what is read at `r` goes to `w` if it is not `prev`.
unfoldable pub unique_from : ℕ → ℕ → ℕ → ℕ → Pool → ℕ × Pool
unique_from zero r w prev p = (w, p)
unique_from (suc rounds) r w prev p =
    let v = get p r in
    if v == prev
    then unique_from rounds (r + 1) w prev p
    else unique_from rounds (r + 1) (w + 1) v (set p w v)

unfoldable pub unique_from_signed : ℕ → ℕ → ℕ → ℤ → Pool → ℕ × Pool
unique_from_signed zero r w prev p = (w, p)
unique_from_signed (suc rounds) r w prev p =
    let v = get_signed p r in
    if eqb_ℤ v prev
    then unique_from_signed rounds (r + 1) w prev p
    else unique_from_signed rounds (r + 1) (w + 1) v (set_signed p w v)

-- The values not seen before, of those that `seen` has a place for.
unfoldable pub count_new : List Bool → List ℕ → ℕ
count_new seen [] = 0
count_new seen (v ∷ vs) =
    (if get_or seen v false then 0 else 1) + count_new (Lists.set seen v true) vs

unfoldable pub changes_from : ℕ → List ℕ → ℕ
changes_from prev [] = 0
changes_from prev (x ∷ xs) = (if x == prev then 0 else 1) + changes_from x xs

unfoldable pub changes_from_ℤ : ℤ → List ℤ → ℕ
changes_from_ℤ prev [] = 0
changes_from_ℤ prev (x ∷ xs) = (if eqb_ℤ x prev then 0 else 1) + changes_from_ℤ x xs

unfoldable pub changes : List ℕ → ℕ
changes [] = 0
changes (x ∷ xs) = changes_from x xs

unfoldable pub changes_ℤ : List ℤ → ℕ
changes_ℤ [] = 0
changes_ℤ (x ∷ xs) = changes_from_ℤ x xs

-- `counts[a[i]]++` on uint64_t, over a table of 256.
unfoldable pub tally : List ℕ → List ℕ → List ℕ
tally counts [] = counts
tally counts (x ∷ xs) = tally (Lists.set counts x (wrap_add 64 (get_or counts x 0) 1)) xs

unfoldable pub value_counts_u8 : Pool → S2RError × List ℕ
value_counts_u8 p =
    if width p == 8
    then (ok, tally (replicate 256 0) (live p))
    else (err_invalid_size, replicate 256 0)

-- The four tables of the source are one; their sum is `hist`.
unfoldable pub histogram_u8 : Pool → List ℕ
histogram_u8 keys =
    if keys.count == 0 || not (width keys == 8)
    then replicate 256 0
    else tally (replicate 256 0) (live keys)

unfoldable pub tally_sum : List ℕ → List ℕ → List ℕ → List ℕ
tally_sum gsum [] vs = gsum
tally_sum gsum (k ∷ ks) [] = gsum
tally_sum gsum (k ∷ ks) (v ∷ vs) =
    tally_sum (Lists.set gsum k (wrap_add 64 (get_or gsum k 0) v)) ks vs

unfoldable pub group_sum_u8u32 : Pool → Pool → List ℕ
group_sum_u8u32 keys vals =
    if not (keys.count == vals.count) || not (width keys == 8) || not (width vals == 32)
    then replicate 256 0
    else tally_sum (replicate 256 0) (live keys) (live vals)

module _ (alloc : ℕ → Bool) where
  unfoldable pub unique_sorted : Pool → ℕ × Pool
  unique_sorted p =
      let (w, q) =
        if is_signed p
        then unique_from_signed (p.count - 1) 1 1 (get_signed p 0) p
        else unique_from (p.count - 1) 1 1 (get p 0) p in
      let r = (fit_class alloc (record q { count = w })).1 in
      if p.flags.readonly
      then (p.count, p)
      else if ltb p.count 2
      then (p.count, p)
      else (r.count, r)

module _ (qsort : (ℕ → ℕ → ℤ) → List ℕ → List ℕ) where
  unfoldable pub sort : Pool → S2RError × Pool
  sort p =
      if p.flags.readonly
      then (err_invalid_size, p)
      else if ltb p.count 2
      then (ok, p)
      else if is_width (width p)
      then (
        ok,
        with_order (record p { cells = qsort (cmp p.size) (live p) ++ drop p.count p.cells }),
      )
      else (err_invalid_size, p)

  -- `*out` after the call. The storage of the copy holds nothing that matters.
  unfoldable pub nunique : (ℕ → Bool) → Pool → S2RError × ℕ
  nunique alloc p =
      let w = width p in
      let bits =
        if is_signed p
        then map (λ x. wrap w (to_u64 (read_signed p x))) (live p)
        else map (λ x. wrap w (read p x)) (live p) in
      let (copied, tmp) = copy alloc (blank p.size 0) p in
      let (e, q) = sort tmp in
      let some_in = if q.count == 0 then 0 else 1 in
      if p.count == 0
      then (ok, 0)
      else if w == 8
      then (ok, count_new (replicate 256 false) bits)
      else if w == 16
      then (if alloc 65536 then (ok, count_new (replicate 65536 false) bits) else (err_oom, 0))
      else if not copied
      then (err_oom, 0)
      else elim e [
        | ok ↦ (
          ok,
          some_in + (if is_signed q then changes_ℤ (signed_elements q) else changes (elements q)),
        )
        | err ↦ (err, 0)
      ]
