-- ===== src/Tests/Blocks.antt =====
-- Runs on small block-wise columns of S2RBlocked of include/smart2raw.h.
use smart2raw.Base.{
  pos, negsuc, u64_max, wrap, wrap_add, wrap_sub, wrap_mul, sx, to_u64, ℕ, ◌+◌, ◌-◌, ◌^◌, ◌≡◌, refl,
  Bool, true, [], ◌∷◌, arith,
}
use smart2raw.Class.{max_value, classify, classify_signed, max_from, classify_signed_range}
use smart2raw.Pool.{align_up}
use smart2raw.Scan.{count_if, sum_from}
use smart2raw.Fast.{
  hit, cntrng_scalar, cntrng_fast, bsearch_worth, count_range_fast, count_gt_fast, sum_if_fast,
}
use smart2raw.Affine.{common_step}
use smart2raw.Gcd.{gcd_loop, gcd64}
use smart2raw.Format.{le_bytes, le_value, memory, words_of}
use smart2raw.Blocked.{
  Blocked, md_ru, md_rs, block_base, block_offset, block_span, block_stride, block_sum, block_len,
  delta_bytes, min_word, max_word, in_order_from, stats, blocks_of, offsets_of, range_class,
  payload_of, outcome, build_blocks, blocked_build, blocked_build_signed,
}
use smart2raw.Blocked.Query.{
  blocked_delta, blocked_get, add_blocks, blocked_sum, count_gt_block, blocked_count_gt, blk_window,
  count_in, blocked_count_range, sum_in, blocked_sum_if, blocked_sum_if_signed,
}
use smart2raw.Blocked.Sums.{blocked_sum-blocked_build, blocked_build-succeeds}
use smart2raw.Blocked.RoundTrip.{blocked_get-blocked_build}
use smart2raw.Blocked.Answers.{blocked_count_gt-blocked_build}

abbrev granted : ℕ → Bool
granted n = true

-- Two blocks: 1000, 1300 in steps of 300, and 7.
abbrev column : Blocked
column = (blocked_build granted (1000 ∷ 1300 ∷ 7 ∷ []) 2).1

get_run : blocked_get column 1 ≡ 1300
unfolding blocked_get blocked_build blocked_build_signed build_blocks outcome blocks_of stats
    min_word max_word in_order_from common_step gcd64 gcd_loop sum_from wrap_add wrap_sub offsets_of
    range_class classify classify_signed classify_signed_range max_from payload_of memory le_bytes
    le_value delta_bytes md_ru md_rs block_base block_offset block_span block_stride block_sum
    block_len blocked_delta add_blocks count_gt_block blk_window count_in sum_in blocked_sum_if
    align_up wrap wrap_mul sx to_u64 words_of count_gt_fast count_range_fast sum_if_fast cntrng_fast
    cntrng_scalar hit bsearch_worth max_value count_if
get_run = refl

sum_run : blocked_sum column ≡ 2307
unfolding blocked_sum blocked_build blocked_build_signed build_blocks outcome blocks_of stats
    min_word max_word in_order_from common_step gcd64 gcd_loop sum_from wrap_add wrap_sub offsets_of
    range_class classify classify_signed classify_signed_range max_from payload_of memory le_bytes
    le_value delta_bytes md_ru md_rs block_base block_offset block_span block_stride block_sum
    block_len blocked_delta add_blocks count_gt_block blk_window count_in sum_in blocked_sum_if
    align_up wrap wrap_mul sx to_u64 words_of count_gt_fast count_range_fast sum_if_fast cntrng_fast
    cntrng_scalar hit bsearch_worth max_value count_if
sum_run = refl

count_run : blocked_count_gt column 900 ≡ 2
unfolding blocked_count_gt blocked_build blocked_build_signed build_blocks outcome blocks_of stats
    min_word max_word in_order_from common_step gcd64 gcd_loop sum_from wrap_add wrap_sub offsets_of
    range_class classify classify_signed classify_signed_range max_from payload_of memory le_bytes
    le_value delta_bytes md_ru md_rs block_base block_offset block_span block_stride block_sum
    block_len blocked_delta add_blocks count_gt_block blk_window count_in sum_in blocked_sum_if
    align_up wrap wrap_mul sx to_u64 words_of count_gt_fast count_range_fast sum_if_fast cntrng_fast
    cntrng_scalar hit bsearch_worth max_value count_if
count_run = refl

-- A block size near 2^64 makes the number of blocks wrap to 0: three values are taken as none.
wrapped_run :
    let (built, b) = blocked_build granted (5 ∷ 7 ∷ 9 ∷ []) (2 ^ 64 - 1) in
    (built ≡ true) × (b.count ≡ 3) × (b.nblocks ≡ 0) × (b.bclass ≡ [])
unfolding blocked_build build_blocks outcome wrap_add wrap_sub
wrapped_run = (refl, refl, refl, refl)

-- A window over both signs, of the values -3 and 4: the sum of both is 1.
abbrev signed_column : Blocked
signed_column = (blocked_build_signed granted (negsuc 2 ∷ pos 4 ∷ []) 2).1

sum_if_run : blocked_sum_if_signed signed_column (negsuc 4) (pos 5) ≡ pos 0
unfolding blocked_sum_if_signed blocked_build blocked_build_signed build_blocks outcome blocks_of
    stats min_word max_word in_order_from common_step gcd64 gcd_loop sum_from wrap_add wrap_sub
    offsets_of range_class classify classify_signed classify_signed_range max_from payload_of memory
    le_bytes le_value delta_bytes md_ru md_rs block_base block_offset block_span block_stride
    block_sum block_len blocked_delta add_blocks count_gt_block blk_window count_in sum_in
    blocked_sum_if align_up wrap wrap_mul sx to_u64 words_of count_gt_fast count_range_fast
    sum_if_fast cntrng_fast cntrng_scalar hit bsearch_worth max_value count_if
sum_if_run = refl

-- A distance that passes 2^64 with the stride: 0 is not above 2^63 - 1, and is counted.
abbrev far_column : Blocked
far_column = (blocked_build granted (0 ∷ (2 ^ 63 + 1) ∷ []) 2).1

window_run : blocked_count_range far_column (2 ^ 63) u64_max ≡ 2
unfolding blocked_count_range blocked_build blocked_build_signed build_blocks outcome blocks_of
    stats min_word max_word in_order_from common_step gcd64 gcd_loop sum_from wrap_add wrap_sub
    offsets_of range_class classify classify_signed classify_signed_range max_from payload_of memory
    le_bytes le_value delta_bytes md_ru md_rs block_base block_offset block_span block_stride
    block_sum block_len blocked_delta add_blocks count_gt_block blk_window count_in sum_in
    blocked_sum_if align_up wrap wrap_mul sx to_u64 words_of count_gt_fast count_range_fast
    sum_if_fast cntrng_fast cntrng_scalar hit bsearch_worth max_value count_if
window_run = refl

blocked_sum-blocked_build_example :
    blocked_sum (blocked_build granted (1000 ∷ 1300 ∷ 7 ∷ []) 2).1
    ≡ sum_from 0 (1000 ∷ 1300 ∷ 7 ∷ [])
blocked_sum-blocked_build_example =
    blocked_sum-blocked_build granted (1000 ∷ 1300 ∷ 7 ∷ []) 2 (omega arith)
      (blocked_build-succeeds (1000 ∷ 1300 ∷ 7 ∷ []) 2)

blocked_get-blocked_build_example :
    blocked_get (blocked_build granted (1000 ∷ 1300 ∷ 7 ∷ []) 2).1 1 ≡ 1300
blocked_get-blocked_build_example =
    blocked_get-blocked_build granted 2 (1000 ∷ 1300 ∷ 7 ∷ []) (omega arith) (omega arith)
      (omega arith) (blocked_build-succeeds (1000 ∷ 1300 ∷ 7 ∷ []) 2) 1 (omega arith)

-- Both values are above 900 in one block, and none is in the other.
blocked_count_gt-blocked_build_example :
    blocked_count_gt (blocked_build granted (1000 ∷ 1300 ∷ 7 ∷ []) 2).1 900 ≡ 2
unfolding count_if
blocked_count_gt-blocked_build_example =
    blocked_count_gt-blocked_build granted (1000 ∷ 1300 ∷ 7 ∷ []) 2 900 (omega arith) (omega arith)
      (omega arith) (blocked_build-succeeds (1000 ∷ 1300 ∷ 7 ∷ []) 2)
