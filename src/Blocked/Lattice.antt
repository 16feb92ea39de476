-- ===== src/Blocked/Lattice.antt =====
-- The words of a block of S2RBlocked of include/smart2raw.h and their indices, in an unsigned column.
use native.Mathlib.Nat.{mul-div-le, mul_comm}
use smart2raw.Base.{
  ltb, Bool-cases, length, get_or, All, take-all, All-imp, All-and, pos, IsWidth, wrap_add,
  wrap_sub, wrap_mul, wrap_mul_of_lt, ℕ, zero, suc, ◌+◌, ◌-◌, ◌*◌, ◌/◌, ◌^◌, ◌≤◌, ◌<◌, ◌≡◌, ap, ◌∙◌,
  inl, inr, true, false, List, [], ◌∷◌, arith,
}
use smart2raw.Pool.{Pool, class_flags, blank}
use smart2raw.Pool.Valid.{IsValid}
use smart2raw.Known.{IsKnown}
use smart2raw.Affine.{index_of}
use smart2raw.Blocked.{in_order_from, stats}
use smart2raw.Blocked.Extent.{min_word-IsLow, stats-IsKept}
use smart2raw.Scan.{count_if}
use smart2raw.Fast.{count_gt_fast}
use smart2raw.Fast.Counts.{count_gt_fast-count_gt}
use smart2raw.Scan.Exact.{count_gt_exact}

module _ (base st x : ℕ) (low : base ≤ x) (lt : x < 2 ^ 64) (pos : 0 < st) where
  steps_le : st * index_of base st x ≤ x - base
  unfolding wrap_sub
  steps_le =
      let off : wrap_sub 64 x base ≡ x - base = omega arith in
      let d = mul-div-le (x - base) st in
      let c = mul_comm st ((x - base) / st) in
      elim (Bool-cases (ltb 1 st)) [
        | inl t ↦ rw (t, off) (omega (arith, d, c))
        | inr t ↦ let one : st ≡ 1 = ground arith in rw (t, off, one) (omega arith)
      ]

  lattice :
      wrap_add 64 base (wrap_mul 64 st (index_of base st x)) ≡ x
      → base + st * index_of base st x ≡ x
  unfolding wrap_add
  lattice e =
      let l = steps_le in
      let m = wrap_mul_of_lt 64 st (index_of base st x) (omega (arith, l)) in omega (arith, e, m, l)

-- A word is its block's base and so many strides.
pub block_lattice :
    (q : List ℕ)
    → 0 < length q
    → All (λ x. x < 2 ^ 64) q
    → let s = stats false q in All (λ x. s.base + s.stride * index_of s.base s.stride x ≡ x) q
unfolding stats
block_lattice [] p h = absurd (omega arith)
block_lattice (y ∷ ys) p h =
    let q = y ∷ ys in
    let s = stats false q in
    let i = stats-IsKept false q p h in
    let lo = min_word-IsLow false y ys h.0 h.1 in
    All-imp
      (λ x.
        (x < 2 ^ 64)
        × ((s.base ≤ x)
            × (wrap_add 64 s.base (wrap_mul 64 s.stride (index_of s.base s.stride x)) ≡ x)))
      (λ x. s.base + s.stride * index_of s.base s.stride x ≡ x)
      (λ x g. lattice s.base s.stride x g.1.0 g.0 i.stride_pos g.1.1) q
      (All-and (λ x. x < 2 ^ 64) _ q h (All-and (λ x. s.base ≤ x) _ q (lo.1, lo.2) i.back))

order_from :
    (last : ℕ) (xs : List ℕ)
    → in_order_from false last xs ≡ true
    → (i j : ℕ) → i ≤ j
    → j < suc (length xs)
    → get_or (last ∷ xs) i 0 ≤ get_or (last ∷ xs) j 0
unfolding in_order_from
order_from last xs o zero zero h l = omega arith
order_from last [] o zero (suc j) h l = absurd (omega arith)
order_from last (x ∷ xs) o zero (suc j) h l =
    let rest : in_order_from false x xs ≡ true = ground arith in
    let first : last ≤ x = ground arith in
    omega (arith, first, order_from x xs rest zero j (omega arith) (omega arith))
order_from last xs o (suc i) zero h l = absurd (omega arith)
order_from last [] o (suc i) (suc j) h l = absurd (omega arith)
order_from last (x ∷ xs) o (suc i) (suc j) h l =
    let rest : in_order_from false x xs ≡ true = ground arith in
    order_from x xs rest i j (omega arith) (omega arith)

pub block_order :
    (q : List ℕ)
    → (stats false q).sorted ≡ true
    → (i j : ℕ) → i ≤ j
    → j < length q
    → get_or q i 0 ≤ get_or q j 0
unfolding stats
block_order [] o i j h l = absurd (omega arith)
block_order (x ∷ xs) o i j h l = order_from x xs o i j h l

steps_mono : (st i j : ℕ) → i ≤ j → st * i ≤ st * j
steps_mono st i j h = grind arith

pub index_order : (st i j : ℕ) → 0 < st → st * i ≤ st * j → i ≤ j
index_order st i j p h = elim (Bool-cases (ltb j i)) [
  | inl t ↦
      let m : st * suc j ≤ st * i = steps_mono st (suc j) i (ground arith) in
      absurd (omega (arith, m, h))
  | inr t ↦ ground arith
]

-- The pool that a block's deltas are read through.
abbrev pub payload_pool : ℕ → ℕ → ℕ → List ℕ → Pool
payload_pool cb len w vs = record (blank (pos cb) len) {
  cells = vs;
  byte_cap = len * w;
  count = len;
  flags = record (class_flags (pos 0)) { external = true };
}

bytes_back : (w n : ℕ) → IsWidth (w * 8) → n ≡ n * w / (w * 8 / 8)
bytes_back w n (inl e) = let k : w ≡ 1 = omega arith in rw k (omega arith)
bytes_back w n (inr (inl e)) = let k : w ≡ 2 = omega arith in rw k (omega arith)
bytes_back w n (inr (inr (inl e))) = let k : w ≡ 4 = omega arith in rw k (omega arith)
bytes_back w n (inr (inr (inr e))) = let k : w ≡ 8 = omega arith in rw k (omega arith)

pub payload_pool-IsValid :
    (w : ℕ) (vs : List ℕ)
    → IsWidth (w * 8)
    → length vs * w < 2 ^ 64
    → All (λ x. x < 2 ^ (w * 8)) vs
    → IsValid (payload_pool (w * 8) (length vs) w vs)
payload_pool-IsValid w vs c l h = record {
  class = c;
  room = omega arith;
  cap_cells = omega arith;
  cells_bytes = bytes_back w (length vs) c;
  small = l;
  words = h;
}

payload_pool-IsKnown : (cb len w : ℕ) (vs : List ℕ) → IsKnown (payload_pool cb len w vs)
payload_pool-IsKnown cb len w vs = record {
  order = λ h. absurd (cc h);
  extent = λ h. absurd (cc h);
}

pub payload_pool-count_gt :
    (w : ℕ) (vs : List ℕ) (thr : ℕ)
    → IsWidth (w * 8)
    → length vs * w < 2 ^ 64
    → All (λ x. x < 2 ^ (w * 8)) vs
    → count_gt_fast (payload_pool (w * 8) (length vs) w vs) thr ≡ count_if (ltb thr) vs
payload_pool-count_gt w vs thr c l h =
    let p = payload_pool (w * 8) (length vs) w vs in
    let v = payload_pool-IsValid w vs c l h in
    count_gt_fast-count_gt v (payload_pool-IsKnown (w * 8) (length vs) w vs) thr
    ∙ count_gt_exact p thr v
    ∙ ap (count_if (ltb thr)) (take-all (length vs) vs (omega arith))
