-- ===== src/Blocked/Answers.antt =====
-- s2r_blocked_count_gt of include/smart2raw.h on an unsigned column that was built.
use smart2raw.Base.{
  ltb, ◌==◌, Bool-cases, eq_of_==, length, take, drop, All, length-take, length-drop, length-map,
  nil_of_length, get_or-map, wrap_add, ℕ, zero, suc, ◌+◌, ◌*◌, ◌^◌, ◌≤◌, ◌<◌, ◌≡◌, refl, sym, ap,
  ◌∙◌, inl, inr, Bool, true, false, List, [], ◌∷◌, map, arith,
}
use smart2raw.Scan.{count_if, sum_from}
use smart2raw.Scan.Exact.{count_if-le-length}
use smart2raw.Blocked.{block_default, blocks_of, build_blocks, blocked_build}
use smart2raw.Blocked.Query.{add_blocks, count_gt_block, blocked_count_gt}
use smart2raw.Blocked.Filled.{
  length-blocks_of, block_count, used_block, blocks_in, build_blocks-IsFilled,
}
use smart2raw.Blocked.Sums.{add_blocks_list}
use smart2raw.Blocked.Above.{count_gt_block-piece}

count_if-parts :
    (test : ℕ → Bool) (n : ℕ) (xs : List ℕ)
    → count_if test (take n xs) + count_if test (drop n xs) ≡ count_if test xs
unfolding count_if
count_if-parts test zero xs = omega arith
count_if-parts test (suc n) [] = refl
count_if-parts test (suc n) (x ∷ xs) = omega (arith, count_if-parts test n xs)

-- The counts of the blocks add up to that of the array.
count_blocks :
    (test : ℕ → Bool) (block n s : ℕ) (xs : List ℕ)
    → s + length xs < 2 ^ 64
    → length xs ≤ n * block
    → sum_from s (map (count_if test) (blocks_of block n xs)) ≡ s + count_if test xs
unfolding blocks_of sum_from count_if wrap_add
count_blocks test block zero s xs h l = let e = nil_of_length xs (omega arith) in rw e (omega arith)
count_blocks test block (suc n) s xs h l = elim (Bool-cases (length xs == 0)) [
  | inl z ↦ let e = nil_of_length xs (eq_of_== (length xs) 0 z) in rw (e, blocks_of) (omega arith)
  | inr m ↦
      let d = drop block xs in
      let c = count_if test (take block xs) in
      let parts = count_if-parts test block xs in
      let ld = length-drop block xs in
      let le = count_if-le-length test (take block xs) in
      let lt = length-take block xs in
      let sum : wrap_add 64 s c ≡ s + c = omega (arith, h, le, lt) in
      rw (blocks_of, m)
        (ap (λ y. sum_from y (map (count_if test) (blocks_of block n d))) sum
          ∙ count_blocks test block n (s + c) d (omega (arith, h, le, lt, ld))
              (omega (arith, ld, l))
          ∙ omega (arith, parts))
]

module _ (alloc : ℕ → Bool) (xs : List ℕ) (block : ℕ) where
  -- The column that `s2r_blocked_build` makes of an array of fewer than 2^60 numbers of 64 bits, where
  -- the length, the block size and 256 add up to less than 2^64 and the build succeeds, counts the
  -- values above a threshold as a scan of the array does: what it skips, answers from the
  -- bookkeeping arrays, searches or scans.
  pub blocked_count_gt-blocked_build :
      (thr : ℕ)
      → All (λ x. x < 2 ^ 64) xs
      → length xs < 2 ^ 60
      → length xs + block + block_default < 2 ^ 64
      → (blocked_build alloc xs block).0 ≡ true
      → blocked_count_gt (blocked_build alloc xs block).1 thr ≡ count_if (ltb thr) xs
  unfolding blocked_build blocked_count_gt count_if
  blocked_count_gt-blocked_build thr words few small built =
      let blk = used_block block in
      let b = (build_blocks alloc false xs block).1 in
      let n = blocks_in xs blk in
      let bs = blocks_of blk n xs in
      let counts = map (count_if (ltb thr)) bs in
      let f = build_blocks-IsFilled alloc false xs block built in
      let p : 0 < blk = ground arith in
      let c = block_count (length xs) blk p (ground arith) in
      let lb = length-blocks_of blk n xs p c in
      let lm = length-map (count_if (ltb thr)) bs in
      let e : b.nblocks ≡ length counts = f.nblocks_eq ∙ sym lb ∙ sym lm in
      elim (Bool-cases (b.count == 0)) [
        | inl z ↦
            let none_there : length xs ≡ 0 = sym f.count_eq ∙ eq_of_== b.count 0 z in
            let nil = nil_of_length xs none_there in rw z (ap (count_if (ltb thr)) (sym nil))
        | inr z ↦ rw z (
            ap (λ k. add_blocks (count_gt_block b thr) k 0 0) e
            ∙ add_blocks_list (count_gt_block b thr) 0 0 counts (λ k l.
              let in_range : k < n = omega (arith, l, lm, lb) in
              ap (count_gt_block b thr) (omega arith)
              ∙ count_gt_block-piece xs blk n b f p words few c thr k in_range
              ∙ sym (get_or-map (count_if (ltb thr)) bs k [] 0 (omega (arith, l, lm))))
            ∙ count_blocks (ltb thr) blk n 0 xs (omega (arith, few)) c.0
            ∙ omega arith)
      ]
