-- ===== src/Blocked/Sums.antt =====
-- s2r_blocked_sum of include/smart2raw.h: the sums of the blocks.

use smart2raw.Base.{
  ◌==◌, Bool-cases, eq_of_==, length, get_or, take, drop, All, length-drop, take-append-drop,
  length-map, nil_of_length, ℤ, wrap_add, sx, to_u64, wrap_add-lt, ℕ, zero, suc, ◌+◌, ◌*◌, ◌^◌, ◌≤◌,
  ◌<◌, ◌≡◌, refl, sym, ap, ◌∙◌, inl, inr, Bool, true, false, List, [], ◌∷◌, ◌++◌, map, arith,
}
use smart2raw.Scan.{sum_from}
use smart2raw.Blocked.{
  block_default, Blocked, md_word, block_sum, stats, blocks_of, range_class, outcome, build_blocks,
  blocked_build, blocked_build_signed,
}
use smart2raw.Blocked.Query.{add_blocks, blocked_sum, blocked_sum_signed}
use smart2raw.Blocked.Words.{range_word, range_word_lem}
use smart2raw.Blocked.Filled.{
  length-blocks_of, block_count, used_block, blocks_in, IsFilled, build_blocks-IsFilled,
}

pub sum_from-lt : (s : ℕ) (xs : List ℕ) → s < 2 ^ 64 → sum_from s xs < 2 ^ 64
unfolding sum_from
sum_from-lt s [] h = h
sum_from-lt s (x ∷ xs) h = sum_from-lt (wrap_add 64 s x) xs (wrap_add-lt 64 s x (omega arith))

sum_from-append : (s : ℕ) (xs ys : List ℕ) → sum_from s (xs ++ ys) ≡ sum_from (sum_from s xs) ys
unfolding sum_from
sum_from-append s [] ys = refl
sum_from-append s (x ∷ xs) ys = sum_from-append (wrap_add 64 s x) xs ys

add_assoc_64 : (s t x : ℕ) → wrap_add 64 (wrap_add 64 s t) x ≡ wrap_add 64 s (wrap_add 64 t x)
unfolding wrap_add
add_assoc_64 s t x = omega arith

sum_from-shift :
    (s t : ℕ) (xs : List ℕ) → sum_from (wrap_add 64 s t) xs ≡ wrap_add 64 s (sum_from t xs)
unfolding sum_from
sum_from-shift s t [] = refl
sum_from-shift s t (x ∷ xs) =
    ap (λ y. sum_from y xs) (add_assoc_64 s t x) ∙ sum_from-shift s (wrap_add 64 t x) xs

sum_from_zero : (s : ℕ) (xs : List ℕ) → s < 2 ^ 64 → wrap_add 64 s (sum_from 0 xs) ≡ sum_from s xs
unfolding wrap_add
sum_from_zero s xs h = sym (sum_from-shift s 0 xs) ∙ ap (λ y. sum_from y xs) (omega arith)

sum_blocks :
    (block n s : ℕ) (xs : List ℕ)
    → s < 2 ^ 64
    → length xs ≤ n * block
    → sum_from s (map (sum_from 0) (blocks_of block n xs)) ≡ sum_from s xs
unfolding blocks_of sum_from
sum_blocks block zero s xs h l = let e = nil_of_length xs (omega arith) in rw e refl
sum_blocks block (suc n) s xs h l = elim (Bool-cases (length xs == 0)) [
  | inl z ↦ let e = nil_of_length xs (eq_of_== (length xs) 0 z) in rw (e, blocks_of) refl
  | inr m ↦
      let t = take block xs in
      let d = drop block xs in
      rw (blocks_of, m)
        (ap (λ y. sum_from y (map (sum_from 0) (blocks_of block n d))) (sum_from_zero s t h)
          ∙ sum_blocks block n (sum_from s t) d (sum_from-lt s t h)
              (omega (arith, length-drop block xs, l))
          ∙ sym (sum_from-append s t d)
          ∙ ap (sum_from s) (take-append-drop block xs))
]

-- The loop over the blocks adds up a list.
pub add_blocks_list :
    (term : ℕ → ℕ) (k s : ℕ) (xs : List ℕ)
    → ((i : ℕ) → i < length xs → term (k + i) ≡ get_or xs i 0)
    → add_blocks term (length xs) k s ≡ sum_from s xs
unfolding add_blocks sum_from
add_blocks_list term k s [] h = refl
add_blocks_list term k s (x ∷ xs) h =
    let first : term k ≡ x = ap term (omega arith) ∙ h 0 (omega arith) in
    ap (λ y. add_blocks term (length xs) (k + 1) (wrap_add 64 s y)) first
    ∙ add_blocks_list term (k + 1) (wrap_add 64 s x) xs
        (λ i l. ap term (omega arith) ∙ h (suc i) (omega arith))

pub stats_sum : (sg : Bool) (b : List ℕ) → (stats sg b).sum ≡ sum_from 0 b
unfolding stats sum_from
stats_sum sg [] = refl
stats_sum sg (x ∷ xs) = refl

sums_of :
    (sg : Bool) (bs : List (List ℕ)) → map (λ s. s.sum) (map (stats sg) bs) ≡ map (sum_from 0) bs
sums_of sg [] = refl
sums_of sg (b ∷ bs) = let one = stats_sum sg b in let rest = sums_of sg bs in λ i. one i ∷ rest i

sums_bounded : (bs : List (List ℕ)) → All (λ v. v < 2 ^ 64) (map (sum_from 0) bs)
sums_bounded [] = tt
sums_bounded (b ∷ bs) = (sum_from-lt 0 b (omega arith), sums_bounded bs)

-- The sum that is read of block `i` is that of its words.
block_sum-get :
    (sg : Bool) (xs : List ℕ) (blk n : ℕ) (b : Blocked)
    → IsFilled sg xs blk n b
    → (i : ℕ) → i < length (blocks_of blk n xs)
    → block_sum b (0 + i) ≡ get_or (map (sum_from 0) (blocks_of blk n xs)) i 0
unfolding block_sum
block_sum-get sg xs blk n b f i l =
    let bs = blocks_of blk n xs in
    let sums = map (sum_from 0) bs in
    let e = sums_of sg bs in
    let lm = length-map (sum_from 0) bs in
    rw (f.signed_eq, f.bsum_eq, f.scls_eq, e)
      (ap (range_word sg (map (md_word (range_class sg sums)) sums) (range_class sg sums))
          (omega arith)
        ∙ range_word_lem sg sums i (sums_bounded bs) (omega (arith, lm)))

build_blocks-sum :
    (alloc : ℕ → Bool) (sg : Bool) (xs : List ℕ) (block : ℕ)
    → length xs + block + block_default < 2 ^ 64
    → (build_blocks alloc sg xs block).0 ≡ true
    → blocked_sum (build_blocks alloc sg xs block).1 ≡ sum_from 0 xs
unfolding blocked_sum
build_blocks-sum alloc sg xs block h ok =
    let blk = used_block block in
    let b = (build_blocks alloc sg xs block).1 in
    let n = blocks_in xs blk in
    let bs = blocks_of blk n xs in
    let sums = map (sum_from 0) bs in
    let f = build_blocks-IsFilled alloc sg xs block ok in
    let p : 0 < blk = ground arith in
    let l : length xs + blk < 2 ^ 64 = ground arith in
    let c = block_count (length xs) blk p l in
    let m = length-map (sum_from 0) bs in
    let e : b.nblocks ≡ length sums = f.nblocks_eq ∙ sym (length-blocks_of blk n xs p c) ∙ sym m in
    ap (λ k. add_blocks (block_sum b) k 0 0) e
    ∙ add_blocks_list (block_sum b) 0 0 sums
        (λ i k. block_sum-get sg xs blk n b f i (omega (arith, m, k)))
    ∙ sum_blocks blk n 0 xs (omega arith) c.0

-- The sum of a column that was built from the sums of its blocks is that of the array modulo 2^64,
-- where the length, the block size and 256 add up to less than 2^64.
pub blocked_sum-blocked_build :
    (alloc : ℕ → Bool) (xs : List ℕ) (block : ℕ)
    → length xs + block + block_default < 2 ^ 64
    → (blocked_build alloc xs block).0 ≡ true
    → blocked_sum (blocked_build alloc xs block).1 ≡ sum_from 0 xs
unfolding blocked_build
blocked_sum-blocked_build alloc xs block h ok = build_blocks-sum alloc false xs block h ok

-- So for int64_t values, whose sum is that of their words, read with its sign.
pub blocked_sum_signed-blocked_build_signed :
    (alloc : ℕ → Bool) (xs : List ℤ) (block : ℕ)
    → length xs + block + block_default < 2 ^ 64
    → (blocked_build_signed alloc xs block).0 ≡ true
    → blocked_sum_signed (blocked_build_signed alloc xs block).1
      ≡ sx 64 (sum_from 0 (map to_u64 xs))
unfolding blocked_build_signed blocked_sum_signed
blocked_sum_signed-blocked_build_signed alloc xs block h ok =
    let l = length-map to_u64 xs in
    ap (sx 64) (build_blocks-sum alloc true (map to_u64 xs) block (omega (arith, h, l)) ok)

-- Where every request is granted, s2r_blocked_build and s2r_blocked_build_signed succeed.
build_blocks-succeeds :
    (sg : Bool) (xs : List ℕ) (block : ℕ) → (build_blocks (λ n. true) sg xs block).0 ≡ true
unfolding build_blocks outcome
build_blocks-succeeds sg xs block = ground arith

pub build_blocks-granted :
    (alloc : ℕ → Bool) (sg : Bool) (xs : List ℕ) (block : ℕ)
    → ((n : ℕ) → alloc n ≡ true)
    → (build_blocks alloc sg xs block).0 ≡ true
build_blocks-granted alloc sg xs block grants =
    ap (λ a. (build_blocks a sg xs block).0) (λ i n. grants n i) ∙ build_blocks-succeeds sg xs block

pub blocked_build-succeeds :
    (xs : List ℕ) (block : ℕ) → (blocked_build (λ n. true) xs block).0 ≡ true
unfolding blocked_build
blocked_build-succeeds xs block = build_blocks-succeeds false xs block

pub blocked_build_signed-succeeds :
    (xs : List ℤ) (block : ℕ) → (blocked_build_signed (λ n. true) xs block).0 ≡ true
unfolding blocked_build_signed
blocked_build_signed-succeeds xs block = build_blocks-succeeds true (map to_u64 xs) block
