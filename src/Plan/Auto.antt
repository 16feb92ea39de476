-- ===== src/Plan/Auto.antt =====
-- s2r_blocked_build_auto and s2r_blocked_build_signed_auto of include/smart2raw.h: the block size
-- that is chosen is small, so that the columns hold what they are built of.
use smart2raw.Base.{
  leb, ◌==◌, if◌then◌else◌, leb→le, Bool-cases, length, get_or, All, ℤ, pos, to_u64, Fits, ℕ, zero,
  suc, ◌*◌, ◌^◌, ◌≤◌, ◌<◌, ◌≡◌, refl, inl, inr, Bool, true, false, ◌||◌, not, List, [], ◌∷◌, map,
  arith,
}
use smart2raw.Blocked.Query.{blocked_get, blocked_get_signed}
use smart2raw.Blocked.RoundTrip.{blocked_get-blocked_build, blocked_get_signed-blocked_build_signed}
use smart2raw.Plan.{
  plan_grain, plan_max, BlockPlan, blocks_for, cells_of, price, plans, cell_size, blocked_plan,
  best_block, best_of, choose_block, blocked_build_auto, blocked_build_signed_auto,
}

plans-small :
    (price_of : ℕ → BlockPlan) (n left block : ℕ)
    → ((k : ℕ) → (price_of k).block ≡ k)
    → All (λ p. p.block ≤ 0x10_0000) (plans price_of n left block)
unfolding plans
plans-small price_of n zero block same = tt
plans-small price_of n (suc left) block same = elim (Bool-cases (leb block 0x10_0000)) [
  | inr e ↦ rw (plans, e) tt
  | inl e ↦
      let le = leb→le block 0x10_0000 e in
      let head : (price_of block).block ≤ 0x10_0000 = omega (arith, same block, le) in
      elim (Bool-cases (leb n block)) [
        | inl d ↦ rw (plans, e, d) (head, tt)
        | inr d ↦ rw (plans, e, d) (head, plans-small price_of n left (block * 2) same)
      ]
]

best_block-small :
    (best bb : ℕ) (ps : List BlockPlan)
    → best ≤ 0x10_0000
    → All (λ p. p.block ≤ 0x10_0000) ps
    → best_block best bb ps ≤ 0x10_0000
unfolding best_block
best_block-small best bb [] h a = h
best_block-small best bb (p ∷ ps) h a =
    let better = leb p.bytes bb in
    best_block-small (if better then p.block else best) (if better then p.bytes else bb) ps
      (ground (arith, a.0)) a.1

best_of-small : (ps : List BlockPlan) → All (λ p. p.block ≤ 0x10_0000) ps → best_of ps ≤ 0x10_0000
unfolding best_of
best_of-small [] a = omega arith
best_of-small (p ∷ ps) a = best_block-small p.block p.bytes ps a.0 a.1

-- The block size that is chosen is at most 2^20.
choose_block-small :
    (alloc : ℕ → Bool) (sg : Bool) (words : List ℕ) → choose_block alloc sg words ≤ 0x10_0000
unfolding choose_block blocked_plan price
choose_block-small alloc sg words =
    let n = length words in
    best_of-small (blocked_plan alloc sg words plan_max)
      (elim (Bool-cases
        (n == 0 || plan_max == 0 || not (alloc (blocks_for n plan_grain * cell_size)))) [
          | inl e ↦ rw (blocked_plan, e) tt
          | inr e ↦
              rw (blocked_plan, e)
                (plans-small (price sg n (cells_of sg words)) n plan_max plan_grain (λ k. refl))
        ])

module _ (alloc : ℕ → Bool) where
  -- Every value of an array of fewer than 2^60 numbers of 64 bits that `s2r_blocked_build_auto` takes
  -- is what `s2r_blocked_get` reads at its index, whatever block size is chosen.
  pub blocked_get-blocked_build_auto :
      (xs : List ℕ)
      → All (λ x. x < 2 ^ 64) xs
      → length xs < 2 ^ 60
      → (blocked_build_auto alloc xs).0 ≡ true
      → (i : ℕ) → i < length xs
      → blocked_get (blocked_build_auto alloc xs).1 i ≡ get_or xs i 0
  unfolding blocked_build_auto
  blocked_get-blocked_build_auto xs a few ok =
      let s = choose_block-small alloc false xs in
      blocked_get-blocked_build alloc (choose_block alloc false xs) xs a few (omega (arith, s, few))
        ok

  -- So for int64_t values.
  pub blocked_get_signed-blocked_build_signed_auto :
      (xs : List ℤ)
      → All (Fits 64) xs
      → length xs < 2 ^ 60
      → (blocked_build_signed_auto alloc xs).0 ≡ true
      → (i : ℕ) → i < length xs
      → blocked_get_signed (blocked_build_signed_auto alloc xs).1 i ≡ get_or xs i (pos 0)
  unfolding blocked_build_signed_auto
  blocked_get_signed-blocked_build_signed_auto xs a few ok =
      let s = choose_block-small alloc true (map to_u64 xs) in
      blocked_get_signed-blocked_build_signed alloc (choose_block alloc true (map to_u64 xs)) xs a
        few (omega (arith, s, few)) ok
