-- ===== src/Tests/Plans.antt =====
-- Runs of the planner of include/smart2raw.h on small columns.
use smart2raw.Base.{
  length, replicate, ℤ, pos, negsuc, wrap_add, wrap_sub, wrap_mul, sx, to_u64, ℕ, ◌*◌, ◌≤◌, ◌≡◌,
  refl, ◌⊎◌, Bool, true, false, List, [], ◌∷◌, ◌++◌, map, arith,
}
use smart2raw.Class.{classify, classify_signed, max_from, classify_signed_range}
use smart2raw.Pool.{align_up}
use smart2raw.Scan.{sum_from}
use smart2raw.Gcd.{gcd_loop, gcd64}
use smart2raw.Affine.{common_step}
use smart2raw.Blocked.{
  block_default, delta_bytes, min_word, max_word, stats, blocks_of, offsets_of, range_class,
  outcome, build_blocks, blocked_build, blocked_build_signed,
}
use smart2raw.Blocked.Query.{blocked_get, blocked_bytes}
use smart2raw.Plan.{
  plan_max, cell_merge, cell_of, cells_of, merge_all, merged, priced, price, plans, blocked_plan,
  choose_block, blocked_build_auto, Representation, recommend,
}
use smart2raw.Plan.Choice.{IsChosen, choose_block-IsChosen, size_in, recommend-Least}
use smart2raw.Plan.Auto.{blocked_get-blocked_build_auto}
use smart2raw.Blocked.Sums.{blocked_build-succeeds}

abbrev ready : ℕ → Bool
ready n = true

-- 64 zeros, and 64 numbers in steps of 300.
abbrev flat_then_steps : List ℕ
flat_then_steps = replicate 64 0 ++ 300 ∷ replicate 63 0

-- The candidate of 128 elements misses the stride of 300 that the build finds: 265 bytes, not 137.
steps_planned : map (λ p. p.bytes) (blocked_plan ready false flat_then_steps 2) ≡ 82 ∷ 265 ∷ []
unfolding blocked_plan plans price priced merged merge_all cell_merge cells_of cell_of blocks_of
    min_word max_word common_step gcd64 gcd_loop sum_from wrap_add wrap_sub wrap_mul range_class
    classify classify_signed classify_signed_range max_from delta_bytes align_up
steps_planned = refl

steps_built : blocked_bytes (blocked_build ready flat_then_steps 128).1 ≡ 137
unfolding blocked_bytes blocked_build build_blocks outcome blocks_of stats min_word max_word
    common_step gcd64 gcd_loop sum_from wrap_add wrap_sub wrap_mul offsets_of range_class classify
    classify_signed classify_signed_range max_from delta_bytes align_up
steps_built = refl

-- 64 times -1, and 64 times 0: the candidate of 128 elements has 1038 bytes, the build 134.
abbrev signs : List ℤ
signs = replicate 64 (negsuc 0) ++ replicate 64 (pos 0)

signs_planned : map (λ p. p.bytes) (blocked_plan ready true (map to_u64 signs) 2) ≡ 12 ∷ 1038 ∷ []
unfolding blocked_plan plans price priced merged merge_all cell_merge cells_of cell_of blocks_of
    min_word max_word common_step gcd64 gcd_loop sum_from wrap_add wrap_sub wrap_mul range_class
    classify classify_signed classify_signed_range max_from delta_bytes align_up sx to_u64
signs_planned = refl

signs_built : blocked_bytes (blocked_build_signed ready signs 128).1 ≡ 134
unfolding blocked_bytes blocked_build_signed build_blocks outcome blocks_of stats min_word max_word
    common_step gcd64 gcd_loop sum_from wrap_add wrap_sub wrap_mul offsets_of range_class classify
    classify_signed classify_signed_range max_from delta_bytes align_up sx to_u64
signs_built = refl

choose_block-IsChosen_example :
    let ps = blocked_plan ready false (7 ∷ 9 ∷ []) plan_max in
    let r = choose_block ready false (7 ∷ 9 ∷ []) in (ps ≡ []) × (r ≡ block_default) ⊎ IsChosen r ps
choose_block-IsChosen_example = choose_block-IsChosen ready false (7 ∷ 9 ∷ [])

recommend-Least_example :
    let a = recommend ready (1000 ∷ 1300 ∷ []) in
    ((r : Representation) → a.best_bytes ≤ size_in a r)
    × (a.best_bytes ≡ size_in a a.best)
    × (a.best_bytes ≤ a.raw_bytes)
    × (a.raw_bytes ≡ length {A = ℕ} (1000 ∷ 1300 ∷ []) * 8)
recommend-Least_example = recommend-Least ready (1000 ∷ 1300 ∷ []) (omega arith)

built_auto : (blocked_build_auto ready (1000 ∷ 1300 ∷ 7 ∷ [])).0 ≡ true
unfolding blocked_build_auto
built_auto =
    blocked_build-succeeds (1000 ∷ 1300 ∷ 7 ∷ []) (choose_block ready false (1000 ∷ 1300 ∷ 7 ∷ []))

blocked_get-blocked_build_auto_example :
    blocked_get (blocked_build_auto ready (1000 ∷ 1300 ∷ 7 ∷ [])).1 2 ≡ 7
blocked_get-blocked_build_auto_example =
    blocked_get-blocked_build_auto ready (1000 ∷ 1300 ∷ 7 ∷ []) (omega arith) (omega arith)
      built_auto 2 (omega arith)
