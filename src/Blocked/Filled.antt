-- ===== src/Blocked/Filled.antt =====
-- What s2r__blocked_build of include/smart2raw.h leaves in the structure, field by field.
use native.Mathlib.Nat.{div-add-mod', mod-lt}
use smart2raw.Base.{
  ltb, ◌==◌, if◌then◌else◌, Bool-cases, eq_of_==, length, drop, length-drop, wrap_add, wrap_sub, ℕ,
  zero, suc, ◌+◌, ◌-◌, ◌*◌, ◌/◌, ◌^◌, ◌≤◌, ◌<◌, ◌≡◌, refl, ap, ◌≢◌, inl, inr, Bool, true, false,
  List, [], map, arith,
}
use smart2raw.Class.{s8, i8, classify, max_from}
use smart2raw.Blocked.{
  block_default, blk_sorted, Blocked, md_word, stats, blocks_of, offsets_of, range_class,
  class_bits, payload_of, outcome, build_blocks,
}

-- The blocks make up the array.
abbrev pub NoEmpty : ℕ → ℕ → ℕ → Type 0
NoEmpty block n len = (len ≤ n * block) × (n * block < len + block)

few_blocks : (block n len : ℕ) → len ≡ 0 → NoEmpty block (suc n) len → ⊥
few_blocks block n len e (a, b) = omega arith

fewer :
    (block n : ℕ) (xs : List ℕ)
    → length xs == 0 ≡ false
    → NoEmpty block (suc n) (length xs)
    → NoEmpty block n (length (drop block xs))
fewer block n xs m (a, b) =
    let d = length-drop block xs in (omega (arith, d, a), omega (arith, d, a, b))

pub length-blocks_of :
    (block n : ℕ) (xs : List ℕ)
    → 0 < block
    → NoEmpty block n (length xs)
    → length (blocks_of block n xs) ≡ n
unfolding blocks_of
length-blocks_of block zero xs p h = refl
length-blocks_of block (suc n) xs p h = elim (Bool-cases (length xs == 0)) [
  | inl z ↦ let e = eq_of_== (length xs) 0 z in absurd (few_blocks block n (length xs) e h)
  | inr m ↦
      rw (blocks_of, m) (ap suc (length-blocks_of block n (drop block xs) p (fewer block n xs m h)))
]

pub block_count :
    (n block : ℕ)
    → 0 < block
    → n + block < 2 ^ 64
    → NoEmpty block (wrap_sub 64 (wrap_add 64 n block) 1 / block) n
unfolding wrap_sub wrap_add
block_count n block p h =
    let t = n + block - 1 in
    let top : wrap_sub 64 (wrap_add 64 n block) 1 ≡ t = omega arith in
    let q = div-add-mod' t block in
    let r = mod-lt t p in rw top (omega (arith, q, r), omega (arith, q, r))

abbrev pub used_block : ℕ → ℕ
used_block block = if block == 0 then block_default else block

abbrev pub blocks_in : List ℕ → ℕ → ℕ
blocks_in xs blk = wrap_sub 64 (wrap_add 64 (length xs) blk) 1 / blk

-- The structure of an array in `n` blocks of `blk` words.
pub record IsFilled (sg : Bool) (xs : List ℕ) (blk n : ℕ) (b : Blocked) : Type 0 where
  pub nblocks_eq : b.nblocks ≡ n
  pub count_eq : b.count ≡ length xs
  pub block_eq : b.block ≡ blk
  pub signed_eq : b.is_signed ≡ sg
  pub bclass_eq : b.bclass ≡ map class_bits (map (stats sg) (blocks_of blk n xs))
  pub boff_eq :
      let (offs, total) = offsets_of 0 (blocks_of blk n xs) (map (stats sg) (blocks_of blk n xs)) in
      b.boff ≡ map (md_word (classify total)) offs
  pub bcls_eq : b.bcls ≡ range_class sg (map (λ s. s.base) (map (stats sg) (blocks_of blk n xs)))
  pub bbase_eq :
      b.bbase ≡ map (md_word b.bcls) (map (λ s. s.base) (map (stats sg) (blocks_of blk n xs)))
  pub scls_eq : b.scls ≡ range_class sg (map (λ s. s.sum) (map (stats sg) (blocks_of blk n xs)))
  pub bsum_eq :
      b.bsum ≡ map (md_word b.scls) (map (λ s. s.sum) (map (stats sg) (blocks_of blk n xs)))
  pub stride_eq :
      b.has_stride ≡ ltb 1 (max_from 1 (map (λ s. s.stride) (map (stats sg) (blocks_of blk n xs))))
  pub bstride_eq :
      let strides = map (λ s. s.stride) (map (stats sg) (blocks_of blk n xs)) in
      b.bstride
      ≡ (if b.has_stride then map (md_word (classify (max_from 1 strides))) strides else [])
  pub payload_eq :
      let bs = blocks_of blk n xs in
      let ss = map (stats sg) bs in b.payload ≡ payload_of [] bs ss (offsets_of 0 bs ss).0
  pub bflags_eq :
      b.bflags ≡ map (λ s. if s.sorted then blk_sorted else 0) (map (stats sg) (blocks_of blk n xs))
  pub pcls_eq :
      b.pcls ≡ classify (max_from 0 (map (λ s. s.span) (map (stats sg) (blocks_of blk n xs))))
  pub bspan_eq :
      b.bspan ≡ map (md_word b.pcls) (map (λ s. s.span) (map (stats sg) (blocks_of blk n xs)))
  pub ocls_eq :
      b.ocls ≡ classify (offsets_of 0 (blocks_of blk n xs) (map (stats sg) (blocks_of blk n xs))).1
  pub bytes_eq :
      b.bytes ≡ (offsets_of 0 (blocks_of blk n xs) (map (stats sg) (blocks_of blk n xs))).1
  pub tcls_eq :
      n ≢ 0
      → b.tcls ≡ classify (max_from 1 (map (λ s. s.stride) (map (stats sg) (blocks_of blk n xs))))

pick :
    (P : Blocked → Type 0) (empty granted : Bool) (start full : Blocked)
    → (empty ≡ true → P start)
    → P full
    → (outcome empty granted start full).0 ≡ true
    → P (outcome empty granted start full).1
unfolding outcome
pick P true granted start full ps pf ok = ps refl
pick P false false start full ps pf ok = absurd (cc ok)
pick P false true start full ps pf ok = pf

empty-IsFilled :
    (sg : Bool) (xs : List ℕ) (blk n : ℕ) (b : Blocked)
    → n ≡ 0
    → (b.nblocks ≡ n) × (b.count ≡ length xs) × (b.block ≡ blk) × (b.is_signed ≡ sg)
    → (b.bclass ≡ []) × (b.boff ≡ []) × (b.bbase ≡ []) × (b.bsum ≡ []) × (b.bstride ≡ [])
    → (b.payload ≡ []) × (b.has_stride ≡ false)
    → (b.bcls ≡ (if sg then i8 else s8)) × (b.scls ≡ (if sg then i8 else s8))
    → (b.bflags ≡ []) × (b.bspan ≡ []) × (b.pcls ≡ s8) × (b.ocls ≡ s8) × (b.bytes ≡ 0)
    → IsFilled sg xs blk n b
unfolding blocks_of offsets_of range_class payload_of max_from classify
empty-IsFilled sg xs blk zero b z (a0, a1, a2, a3) (e0, e1, e2, e3, e4) (f0, f1) (g0, g1)
      (h0, h1, h2, h3, h4) =
    record {
      nblocks_eq = a0;
      count_eq = a1;
      block_eq = a2;
      signed_eq = a3;
      bclass_eq = e0;
      boff_eq = e1;
      bcls_eq = g0;
      bbase_eq = e2;
      scls_eq = g1;
      bsum_eq = e3;
      stride_eq = f1;
      bstride_eq = rw f1 e4;
      payload_eq = f0;
      bflags_eq = h0;
      pcls_eq = h2;
      bspan_eq = h1;
      ocls_eq = h3;
      bytes_eq = h4;
      tcls_eq = λ m. absurd (m refl);
    }
empty-IsFilled sg xs blk (suc n) b z h e f g k = absurd (omega arith)

-- A build that succeeds fills the structure.
pub build_blocks-IsFilled :
    (alloc : ℕ → Bool) (sg : Bool) (xs : List ℕ) (block : ℕ)
    → (build_blocks alloc sg xs block).0 ≡ true
    → let blk = used_block block in
      IsFilled sg xs blk (blocks_in xs blk) (build_blocks alloc sg xs block).1
unfolding build_blocks
build_blocks-IsFilled alloc sg xs block ok =
    let blk = used_block block in
    let n = blocks_in xs blk in
    pick (IsFilled sg xs blk n) (n == 0) _ _ _
      (λ z.
        empty-IsFilled sg xs blk n _ (eq_of_== n 0 z) (refl, refl, refl, refl)
          (refl, refl, refl, refl, refl) (refl, refl) (refl, refl) (refl, refl, refl, refl, refl))
      (record {
        nblocks_eq = refl;
        count_eq = refl;
        block_eq = refl;
        signed_eq = refl;
        bclass_eq = refl;
        boff_eq = refl;
        bcls_eq = refl;
        bbase_eq = refl;
        scls_eq = refl;
        bsum_eq = refl;
        stride_eq = refl;
        bstride_eq = refl;
        payload_eq = refl;
        bflags_eq = refl;
        pcls_eq = refl;
        bspan_eq = refl;
        ocls_eq = refl;
        bytes_eq = refl;
        tcls_eq = λ m. refl;
      })
      ok
