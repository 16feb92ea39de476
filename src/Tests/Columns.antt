-- ===== src/Tests/Columns.antt =====
-- Runs on small columns of S2RAffine of include/smart2raw.h.
use Prim.Native.Nat.{◌∣◌}
use smart2raw.Base.{
  All, ℤ, pos, negsuc, wrap, wrap_add, wrap_sub, sx, to_u64, Fits, ℕ, ◌^◌, ◌<◌, ◌≡◌, refl, ◌↔◌, inr,
  Bool, true, List, [], ◌∷◌, arith,
}
use smart2raw.Class.{max_value, classify, max_from, min_from, min_from_ℤ}
use smart2raw.Pool.{align_up, pool_init, set}
use smart2raw.Scan.{count_if, sum_from, sum_from_if}
use smart2raw.Gcd.{gcd_loop, gcd_fuel, gcd64, gcd_loop-ends, gcd64-Divides}
use smart2raw.Affine.{
  Affine, common_step, affine_detect, affine_detect_signed, set_from, affine_from, affine_build,
  affine_build_signed, affine_get, affine_get_signed, affine_sum, affine_sum_signed, affine_window,
  affine_count_gt, affine_count_range, affine_count_lt, affine_count_eq, affine_sum_if,
  affine_sum_if_signed,
}
use smart2raw.Affine.RoundTrip.{affine_get-affine_build, affine_get_signed-affine_build_signed}
use smart2raw.Affine.Answers.{
  affine_counts_lem, affine_windows_lem, affine_signed_counts_lem, affine_signed_windows_lem,
}
use smart2raw.Affine.Ranges.{NoCarry}
use smart2raw.Fast.{hit, cntrng_scalar, cntrng_fast, bsearch_worth, count_range_fast}

abbrev granted : ℕ → Bool
granted n = true

-- Prices in steps of 25, and degrees in steps of 10.
abbrev prices : List ℕ
prices = 1000 ∷ 1075 ∷ 1025 ∷ []

abbrev degrees : List ℤ
degrees = negsuc 19 ∷ pos 10 ∷ negsuc 9 ∷ []

gcd64_run : gcd64 84 36 ≡ 12
unfolding gcd64 gcd_loop
gcd64_run = refl

gcd_loop-ends_example : (gcd_loop gcd_fuel 84 36).1 ≡ 0
gcd_loop-ends_example = gcd_loop-ends 84 36 (omega arith)

gcd64-Divides_example : ((12 ∣ 84) × (12 ∣ 36)) ↔ (12 ∣ gcd64 84 36)
gcd64-Divides_example = gcd64-Divides 12 84 36 (omega arith)

built : (affine_build granted prices).0 ≡ true
unfolding affine_build affine_from affine_detect common_step gcd64 gcd_loop min_from max_from
    classify pool_init wrap_sub to_u64 sx
built = refl

stride_run : (affine_build granted prices).1.stride ≡ 25
unfolding affine_build affine_from affine_detect common_step gcd64 gcd_loop min_from max_from
    classify pool_init wrap_sub to_u64 sx
stride_run = refl

built_signed : (affine_build_signed granted degrees).0 ≡ true
unfolding affine_build_signed affine_from affine_detect_signed common_step gcd64 gcd_loop min_from_ℤ
    max_from classify pool_init wrap_sub to_u64
built_signed = refl

prices_few : All (λ x. x < 2 ^ 64) prices
prices_few = omega arith

degrees_few : All (Fits 64) degrees
degrees_few = omega arith

affine_get-affine_build_example : affine_get (affine_build granted prices).1 1 ≡ 1075
affine_get-affine_build_example =
    affine_get-affine_build granted prices prices_few (omega arith) built 1 (omega arith)

affine_get_signed-affine_build_signed_example :
    affine_get_signed (affine_build_signed granted degrees).1 1 ≡ pos 10
affine_get_signed-affine_build_signed_example =
    affine_get_signed-affine_build_signed granted degrees degrees_few (omega arith) built_signed 1
      (omega arith)

affine_counts_lem_example :
    let a = (affine_build granted prices).1 in
    (affine_count_gt a (pos 1025) ≡ 1)
    × (affine_count_lt a (pos 1025) ≡ 1)
    × (affine_count_eq a (pos 1025) ≡ 1)
    × (affine_sum a ≡ 3100)
unfolding count_if sum_from wrap_add to_u64
affine_counts_lem_example =
    affine_counts_lem granted prices prices_few (omega arith) built (pos 1025) (omega arith)

affine_signed_counts_lem_example :
    let a = (affine_build_signed granted degrees).1 in
    (affine_count_gt a (negsuc 9) ≡ 1)
    × (affine_count_lt a (negsuc 9) ≡ 1)
    × (affine_count_eq a (negsuc 9) ≡ 1)
    × (affine_sum_signed a ≡ negsuc 19)
unfolding count_if sum_from wrap_add to_u64 sx
affine_signed_counts_lem_example =
    affine_signed_counts_lem granted degrees degrees_few (omega arith) built_signed (negsuc 9)
      (omega arith)

prices_window : NoCarry (affine_build granted prices).1 (pos 1010)
unfolding affine_build affine_from affine_detect common_step gcd64 gcd_loop min_from max_from
    classify pool_init wrap_sub to_u64 sx
prices_window = inr (omega arith)

degrees_window : NoCarry (affine_build_signed granted degrees).1 (negsuc 14)
unfolding affine_build_signed affine_from affine_detect_signed common_step gcd64 gcd_loop min_from_ℤ
    max_from classify pool_init wrap_sub to_u64
degrees_window = inr (omega arith)

affine_windows_lem_example :
    let a = (affine_build granted prices).1 in
    (affine_count_range a (pos 1010) (pos 1080) ≡ 2)
    × (affine_sum_if a (pos 1010) (pos 1080) ≡ 2100)
unfolding count_if sum_from_if wrap_add to_u64
affine_windows_lem_example =
    affine_windows_lem granted prices prices_few (omega arith) built (pos 1010) (pos 1080)
      (omega arith) (omega arith) prices_window

affine_signed_windows_lem_example :
    let a = (affine_build_signed granted degrees).1 in
    (affine_count_range a (negsuc 14) (pos 10) ≡ 2)
    × (affine_sum_if_signed a (negsuc 14) (pos 10) ≡ pos 0)
unfolding count_if sum_from_if wrap_add to_u64 sx
affine_signed_windows_lem_example =
    affine_signed_windows_lem granted degrees degrees_few (omega arith) built_signed (negsuc 14)
      (pos 10) (omega arith) (omega arith) degrees_window

-- A lower bound whose distance and the stride pass 2^64: both values are counted, and neither is in
-- the window.
abbrev carried : Affine
carried = (affine_build granted (0 ∷ 10 ∷ [])).1

carried_run : affine_count_range carried (negsuc 4) (negsuc 0) ≡ 2
unfolding affine_count_range affine_window affine_build affine_from affine_detect common_step gcd64
    gcd_loop min_from max_from classify pool_init wrap_sub wrap_add to_u64 sx count_range_fast
    cntrng_fast cntrng_scalar hit count_if set_from set wrap max_value bsearch_worth align_up
carried_run = refl
