-- ===== src/Blocked/Query.antt =====
-- The queries on S2RBlocked of include/smart2raw.h.
use smart2raw.Base.{
  ltb, leb, ◌==◌, if◌then◌else◌, get_or, take, drop, ℤ, ltb_ℤ, pos, wrap_add, wrap_mul, sx, to_u64,
  ℕ, zero, suc, ◌+◌, ◌-◌, ◌*◌, ◌/◌, ◌%◌, Bool, true, ◌&&◌, ◌||◌,
}
use smart2raw.Pool.{Pool, class_flags, blank}
use smart2raw.Scan.{sum}
use smart2raw.Fast.{bisect, bsearch_min_bytes, count_range_fast, count_gt_fast, sum_if_fast}
use smart2raw.Affine.{ceil_div}
use smart2raw.Format.{le_value, words_of}
use smart2raw.Blocked.{
  Blocked, md_bytes, block_base, block_offset, block_span, block_stride, block_sum, block_len,
}

abbrev pub delta_width : Blocked → ℕ → ℕ
delta_width b bi = get_or b.bclass bi 0 / 8

-- `((const uintN_t*)d)[within]` from the block's offset.
abbrev pub delta_at : Blocked → ℕ → ℕ → ℕ
delta_at b bi within =
    let w = delta_width b bi in le_value (take w (drop (block_offset b bi + within * w) b.payload))

unfoldable pub blocked_delta : Blocked → ℕ → ℕ → ℕ
blocked_delta b bi within = if delta_width b bi == 0 then 0 else delta_at b bi within

abbrev pub block_value : Blocked → ℕ → ℕ → ℕ
block_value b bi x = wrap_add 64 (block_base b bi) (wrap_mul 64 (block_stride b bi) x)

unfoldable pub blocked_get : Blocked → ℕ → ℕ
blocked_get b i =
    if leb b.count i
    then 0
    else block_value b (i / b.block) (blocked_delta b (i / b.block) (i % b.block))

unfoldable pub blocked_get_signed : Blocked → ℕ → ℤ
blocked_get_signed b i =
    if leb b.count i
    then pos 0
    else sx 64 (block_value b (i / b.block) (blocked_delta b (i / b.block) (i % b.block)))

-- `for (bi < nblocks) s += term(bi);`, with `n` blocks left from `bi` on.
unfoldable pub add_blocks : (ℕ → ℕ) → ℕ → ℕ → ℕ → ℕ
add_blocks term zero bi s = s
add_blocks term (suc n) bi s = add_blocks term n (bi + 1) (wrap_add 64 s (term bi))

unfoldable pub blocked_sum : Blocked → ℕ
blocked_sum b = add_blocks (block_sum b) b.nblocks 0 0

unfoldable pub blocked_sum_signed : Blocked → ℤ
blocked_sum_signed b = sx 64 (blocked_sum b)

-- The payload of a block as a pool that does not own it.
abbrev pub view : Blocked → ℕ → Pool
view b bi =
    let w = delta_width b bi in
    let len = block_len b bi in
    record (blank (pos (get_or b.bclass bi 0)) len) {
      cells = words_of true w len (drop (block_offset b bi) b.payload);
      byte_cap = len * w;
      count = len;
      flags = record (class_flags (pos 0)) { external = true };
    }

-- `s2r_sum_fast` ends at `s2r_sum` in the portable build.
unfoldable pub blocked_sum_fast : Blocked → ℕ
blocked_sum_fast b =
    add_blocks
      (λ bi.
        let fixed = wrap_mul 64 (block_base b bi) (block_len b bi) in
        if delta_width b bi == 0
        then fixed
        else wrap_add 64 fixed (wrap_mul 64 (block_stride b bi) (sum (view b bi))))
      b.nblocks 0 0

unfoldable pub max_blocks : Blocked → ℕ → ℕ → ℕ → ℕ
max_blocks b zero bi m = m
max_blocks b (suc n) bi m =
    let x = block_value b bi (block_span b bi) in max_blocks b n (bi + 1) (if ltb m x then x else m)

unfoldable pub blocked_max : Blocked → ℕ
blocked_max b =
    if b.count == 0 then 0 else max_blocks b (b.nblocks - 1) 1 (block_value b 0 (block_span b 0))

unfoldable pub min_blocks : Blocked → ℕ → ℕ → ℕ → ℕ
min_blocks b zero bi m = m
min_blocks b (suc n) bi m =
    let x = block_base b bi in min_blocks b n (bi + 1) (if ltb x m then x else m)

unfoldable pub blocked_min : Blocked → ℕ
blocked_min b = if b.count == 0 then 0 else min_blocks b (b.nblocks - 1) 1 (block_base b 0)

unfoldable pub blocked_bytes : Blocked → ℕ
blocked_bytes b =
    let metadata = md_bytes b.bcls + md_bytes b.pcls + md_bytes b.ocls + md_bytes b.scls in
    let row = 2 + metadata + (if b.has_stride then md_bytes b.tcls else 0) in
    wrap_add 64 b.bytes (wrap_mul 64 b.nblocks row)

unfoldable pub blocked_is_sorted : Blocked → ℕ → Bool
blocked_is_sorted b bi = ltb bi b.nblocks && get_or b.bflags bi 0 % 2 == 1

-- The interval shrinks in every round, so one round more than its length is enough.
unfoldable pub blk_upper : Blocked → ℕ → ℕ → ℕ
blk_upper b bi kp =
    let len = block_len b bi in bisect (λ mid. leb (delta_at b bi mid) kp) (suc len) 0 len

-- What a block adds to the count of the values above `thr`.
unfoldable pub count_gt_block : Blocked → ℕ → ℕ → ℕ
count_gt_block b thr bi =
    let len = block_len b bi in
    let base = block_base b bi in
    let st = block_stride b bi in
    let far = thr - base in
    let rem = if ltb 1 st then far / st else far in
    if ltb thr base
    then len
    else if leb (block_span b bi) rem
    then 0
    else if get_or b.bflags bi 0 % 2 == 1
        && leb bsearch_min_bytes (wrap_mul 64 len (delta_width b bi))
    then len - blk_upper b bi rem
    else count_gt_fast (view b bi) rem

unfoldable pub blocked_count_gt : Blocked → ℕ → ℕ
blocked_count_gt b thr = if b.count == 0 then 0 else add_blocks (count_gt_block b thr) b.nblocks 0 0

-- The answers to a window of values in a block: no value is inside, all are, or those whose indices are
-- in a window.
pub data Inside : Type 0 where
  outside : Inside
  whole : Inside
  in_window : ℕ → ℕ → Inside

unfoldable pub blk_window : Blocked → ℕ → ℕ → ℕ → Inside
blk_window b bi lo hi =
    let base = block_base b bi in
    let st = block_stride b bi in
    let sp = block_span b bi in
    let vmax = block_value b bi sp in
    let rl = lo - base in
    let rh = if leb vmax hi then wrap_mul 64 st sp else hi - base in
    let ilo = if leb lo base then 0 else if ltb 1 st then ceil_div rl st else rl in
    let ihi = if ltb 1 st then rh / st else rh in
    if ltb hi base || ltb vmax lo
    then outside
    else if leb lo base && leb vmax hi
    then whole
    else if leb ilo ihi
    then in_window ilo ihi
    else outside

unfoldable pub count_in : Blocked → ℕ → Inside → ℕ
count_in b bi outside = 0
count_in b bi whole = block_len b bi
count_in b bi (in_window il ih) =
    if delta_width b bi == 0 then block_len b bi else count_range_fast (view b bi) il ih

unfoldable pub blocked_count_range : Blocked → ℕ → ℕ → ℕ
blocked_count_range b lo hi =
    if b.count == 0 || ltb hi lo
    then 0
    else add_blocks (λ bi. count_in b bi (blk_window b bi lo hi)) b.nblocks 0 0

unfoldable pub blocked_count_lt : Blocked → ℕ → ℕ
blocked_count_lt b thr = if b.count == 0 || thr == 0 then 0 else blocked_count_range b 0 (thr - 1)

unfoldable pub blocked_count_eq : Blocked → ℕ → ℕ
blocked_count_eq b v = blocked_count_range b v v

unfoldable pub sum_in : Blocked → ℕ → Inside → ℕ
sum_in b bi outside = 0
sum_in b bi whole = block_sum b bi
sum_in b bi (in_window il ih) =
    let base = block_base b bi in
    let v = view b bi in
    if delta_width b bi == 0
    then wrap_mul 64 base (block_len b bi)
    else wrap_add 64 (wrap_mul 64 base (count_range_fast v il ih))
        (wrap_mul 64 (block_stride b bi) (sum_if_fast v il ih))

unfoldable pub blocked_sum_if : Blocked → ℕ → ℕ → ℕ
blocked_sum_if b lo hi =
    if b.count == 0 || ltb hi lo
    then 0
    else add_blocks (λ bi. sum_in b bi (blk_window b bi lo hi)) b.nblocks 0 0

unfoldable pub blocked_sum_if_signed : Blocked → ℤ → ℤ → ℤ
blocked_sum_if_signed b lo hi =
    if b.count == 0 || ltb_ℤ hi lo then pos 0 else sx 64 (blocked_sum_if b (to_u64 lo) (to_u64 hi))
