-- ===== src/Plan/Choice.antt =====
-- s2r_blocked_choose_block and s2r_recommend of include/smart2raw.h: the least of what is offered.
use smart2raw.Base.{
  leb, ◌==◌, Bool-cases, length, All, wrap_mul, wrap_mul_of_lt, ℕ, zero, suc, ◌*◌, ◌/◌, ◌^◌, ◌≤◌,
  ◌<◌, ◌≡◌, refl, sym, subst, ◌⊎◌, inl, inr, Bool, ◌||◌, not, List, [], ◌∷◌, arith,
}
use smart2raw.Class.{abs_size, classify, classify_array}
use smart2raw.Blocked.{block_default}
use smart2raw.Plan.{
  plan_grain, plan_max, BlockPlan, blocks_for, cells_of, price, plans, cell_size, blocked_plan,
  best_block, best_of, choose_block, Representation, Advice, recommend, flat, affine, blocked,
}

-- The candidates stand in the order of their block sizes, each above `lo`.
abbrev Rising : ℕ → List BlockPlan → Type 0
Rising lo [] = Unit {0}
Rising lo (p ∷ ps) = (lo < p.block) × Rising p.block ps

Rising-lower : (lo lo' : ℕ) (ps : List BlockPlan) → lo ≤ lo' → Rising lo' ps → Rising lo ps
Rising-lower lo lo' [] h r = tt
Rising-lower lo lo' (p ∷ ps) h r = (omega arith, r.1)

-- One of the candidates is so.
abbrev pub One : (BlockPlan → Type 0) → List BlockPlan → Type 0
One P [] = ⊥
One P (p ∷ ps) = P p ⊎ One P ps

One-imp :
    (P Q : BlockPlan → Type 0)
    → ((p : BlockPlan) → P p → Q p)
    → (ps : List BlockPlan) → One P ps
    → One Q ps
One-imp P Q imp [] h = h
One-imp P Q imp (p ∷ ps) (inl h) = inl (imp p h)
One-imp P Q imp (p ∷ ps) (inr h) = inr (One-imp P Q imp ps h)

-- A candidate of no fewer bytes than `bytes`, and where it has as many, of a block up to `block`.
abbrev pub Beaten : ℕ → ℕ → BlockPlan → Type 0
Beaten block bytes q = (bytes ≤ q.bytes) × (q.bytes ≡ bytes → q.block ≤ block)

abbrev Named : ℕ → ℕ → BlockPlan → Type 0
Named block bytes p = (p.block ≡ block) × (p.bytes ≡ bytes)

record Best (best bb r : ℕ) (ps : List BlockPlan) : Type 0 where
  least : ℕ
  below : least ≤ bb
  tie : least ≡ bb → best ≤ r
  others : All (Beaten r least) ps
  found : (r ≡ best) × (least ≡ bb) ⊎ One (Named r least) ps

best_block-Best :
    (best bb : ℕ) (ps : List BlockPlan) → Rising best ps → Best best bb (best_block best bb ps) ps
unfolding best_block
best_block-Best best bb [] r = record {
  least = bb;
  below = omega arith;
  tie = λ e. omega arith;
  others = tt;
  found = inl (refl, refl);
}
best_block-Best best bb (p ∷ ps) r = elim (Bool-cases (leb p.bytes bb)) [
  | inl e ↦
      let ih = best_block-Best p.block p.bytes ps r.1 in
      let h = ih.below in
      let t = ih.tie in
      let le : p.bytes ≤ bb = ground arith in
      rw (best_block, e)
        (record {
          least = ih.least;
          below = omega arith;
          tie = λ q. let k = t (omega arith) in omega arith;
          others = ((h, λ q. t (sym q)), ih.others);
          found = inr (elim ih.found [ inl q ↦ inl (sym q.0, sym q.1) | inr q ↦ inr q ]);
        })
  | inr e ↦
      let ih = best_block-Best best bb ps (Rising-lower best p.block ps (omega arith) r.1) in
      let h = ih.below in
      let gt : bb < p.bytes = ground arith in
      rw (best_block, e)
        (record {
          least = ih.least;
          below = h;
          tie = ih.tie;
          others = ((omega arith, λ q. absurd (omega arith)), ih.others);
          found = elim ih.found [ inl q ↦ inl q | inr q ↦ inr (inr q) ];
        })
]

-- A candidate of the block `r` that no other beats.
abbrev pub IsChosen : ℕ → List BlockPlan → Type 0
IsChosen r ps = One (λ p. (p.block ≡ r) × All (Beaten r p.bytes) ps) ps

best_of-IsChosen :
    (p : BlockPlan) (ps : List BlockPlan) → Rising p.block ps → IsChosen (best_of (p ∷ ps)) (p ∷ ps)
unfolding best_of
best_of-IsChosen p ps r =
    let b = best_block-Best p.block p.bytes ps r in
    let x = best_block p.block p.bytes ps in
    let h = b.below in
    let t = b.tie in
    let all : All (Beaten x b.least) (p ∷ ps) = ((h, λ q. t (sym q)), b.others) in
    elim b.found [
      | inl q ↦ inl (sym q.0, subst (λ k. All (Beaten x k) (p ∷ ps)) q.1 all)
      | inr q ↦ inr (
          One-imp (Named x b.least) (λ c. (c.block ≡ x) × All (Beaten x c.bytes) (p ∷ ps))
            (λ c n. (n.0, subst (λ k. All (Beaten x k) (p ∷ ps)) (sym n.1) all)) ps q)
    ]

-- The loop over the block sizes.
plans-Rising :
    (price_of : ℕ → BlockPlan) (n left lo block : ℕ)
    → ((k : ℕ) → (price_of k).block ≡ k)
    → lo < block
    → Rising lo (plans price_of n left block)
unfolding plans
plans-Rising price_of n zero lo block same h = tt
plans-Rising price_of n (suc left) lo block same h = elim (Bool-cases (leb block 0x10_0000)) [
  | inr e ↦ rw (plans, e) tt
  | inl e ↦ elim (Bool-cases (leb n block)) [
    | inl d ↦ rw (plans, e, d) (omega (arith, same block), tt)
    | inr d ↦
        rw (plans, e, d)
          (
            omega (arith, same block),
            plans-Rising price_of n left (price_of block).block (block * 2) same
                (omega (arith, same block)),
          )
  ]
]

blocked_plan-Rising :
    (alloc : ℕ → Bool) (sg : Bool) (words : List ℕ) (max_out : ℕ)
    → Rising 0 (blocked_plan alloc sg words max_out)
unfolding blocked_plan price
blocked_plan-Rising alloc sg words max_out =
    let n = length words in
    let r =
      plans-Rising (price sg n (cells_of sg words)) n max_out 0 plan_grain (λ k. refl)
        (omega arith) in
    elim (Bool-cases
      (n == 0 || max_out == 0 || not (alloc (blocks_for n plan_grain * cell_size)))) [
        | inl e ↦ rw e tt
        | inr e ↦ rw e r
      ]

chosen :
    (ps : List BlockPlan)
    → Rising 0 ps
    → (ps ≡ []) × (best_of ps ≡ block_default) ⊎ IsChosen (best_of ps) ps
unfolding best_of
chosen [] r = inl (refl, refl)
chosen (p ∷ ps) r = inr (best_of-IsChosen p ps r.1)

-- The block size that `s2r_blocked_choose_block` returns is that of a candidate of
-- `s2r_blocked_plan` with the fewest bytes, the largest block of these, or 256 where there is no
-- candidate.
pub choose_block-IsChosen :
    (alloc : ℕ → Bool) (sg : Bool) (words : List ℕ)
    → let ps = blocked_plan alloc sg words plan_max in
      let r = choose_block alloc sg words in (ps ≡ []) × (r ≡ block_default) ⊎ IsChosen r ps
unfolding choose_block
choose_block-IsChosen alloc sg words =
    chosen (blocked_plan alloc sg words plan_max) (blocked_plan-Rising alloc sg words plan_max)

-- The size that the advice gives for a representation.
abbrev pub size_in : Advice → Representation → ℕ
size_in a flat = a.flat_bytes
size_in a affine = a.affine_bytes
size_in a blocked = a.blocked_bytes

flat_size-le : (n c : ℕ) → c ≤ 64 → n * (c / 8) ≤ n * 8
flat_size-le n c h = grind arith

size_le : (v : List ℕ) → abs_size (classify_array v) ≤ 64
unfolding classify_array classify
size_le [] = ground arith
size_le (x ∷ xs) = ground arith

-- For an array of fewer than 2^61 numbers, what `s2r_recommend` calls the best is no larger than any
-- of the three, nor than the array of 64-bit numbers, which takes 8 bytes for each, and `best_bytes`
-- is the size of the representation that it names.
pub recommend-Least :
    (alloc : ℕ → Bool) (v : List ℕ)
    → length v < 2 ^ 61
    → let a = recommend alloc v in
      ((r : Representation) → a.best_bytes ≤ size_in a r)
      × (a.best_bytes ≡ size_in a a.best)
      × (a.best_bytes ≤ a.raw_bytes)
      × (a.raw_bytes ≡ length v * 8)
unfolding recommend
recommend-Least alloc v few =
    let c = abs_size (classify_array v) in
    let le = flat_size-le (length v) c (size_le v) in
    let raw : wrap_mul 64 (length v) 8 ≡ length v * 8 =
      wrap_mul_of_lt 64 (length v) 8 (omega (arith, few)) in
    let flat_eq : wrap_mul 64 (length v) (c / 8) ≡ length v * (c / 8) =
      wrap_mul_of_lt 64 (length v) (c / 8) (omega (arith, few, le)) in
    let flat_le : wrap_mul 64 (length v) (c / 8) ≤ wrap_mul 64 (length v) 8 =
      omega (arith, le, raw, flat_eq) in
    (
      elim [ flat ↦ ground arith | affine ↦ ground arith | blocked ↦ ground arith ],
      ground arith,
      ground arith,
      raw,
    )
