-- ===== src/Index/Table.antt =====
-- The table of an S2RIndex of include/smart2raw.h: histogram and prefix sums.
use smart2raw.Base.{
  leb, ◌==◌, if◌then◌else◌, Bool-cases, eq_of_==, length, get_or, replicate, length-set,
  length-replicate, All-of, wrap_add, ℕ, zero, suc, ◌+◌, ◌%◌, ◌^◌, ◌<◌, ◌≡◌, refl, ap, ◌∙◌, inl,
  inr, List, [], ◌∷◌, arith,
}
use smart2raw.Scan.{count_if}
use smart2raw.Scan.Exact.{count_if-congr, bit, count_if-add, count_if-le-length}
use smart2raw.Order.{tally}
use smart2raw.Index.{running}
use smart2raw.Base.Lists

get_or-set :
    (cs : List ℕ) (k v j : ℕ)
    → j < length cs
    → get_or (Lists.set cs k v) j 0 ≡ (if k == j then v else get_or cs j 0)
get_or-set [] k v j h = absurd (omega arith)
get_or-set (c ∷ cs) zero v zero h = ground arith
get_or-set (c ∷ cs) zero v (suc j) h = ground arith
get_or-set (c ∷ cs) (suc k) v zero h = ground arith
get_or-set (c ∷ cs) (suc k) v (suc j) h = get_or-set cs k v j (omega arith) ∙ ground arith

-- The bins after a tally, modulo 2^64.
tally_at :
    (cs ks : List ℕ) (j : ℕ)
    → j < length cs
    → get_or (tally cs ks) j 0 % 2 ^ 64 ≡ (get_or cs j 0 + count_if (λ k. k == j) ks) % 2 ^ 64
unfolding tally count_if wrap_add
tally_at cs [] j h = omega arith
tally_at cs (k ∷ ks) j h =
    let v = wrap_add 64 (get_or cs k 0) 1 in
    let r = tally_at (Lists.set cs k v) ks j (omega (arith, length-set cs k v)) in
    let g = get_or-set cs k v j h in
    elim (Bool-cases (k == j)) [
      | inl e ↦
          let s = ap (λ i. get_or cs i 0) (eq_of_== k j e) in rw e (omega (arith, r, rw e at g, s))
      | inr e ↦ rw e (omega (arith, r, rw e at g))
    ]

length-tally : (cs ks : List ℕ) → length (tally cs ks) ≡ length cs
unfolding tally
length-tally cs [] = refl
length-tally cs (k ∷ ks) =
    let v = wrap_add 64 (get_or cs k 0) 1 in length-tally (Lists.set cs k v) ks ∙ length-set cs k v

-- The sum up to a place.
sum_to : List ℕ → ℕ → ℕ
sum_to [] v = 0
sum_to (c ∷ cs) zero = c
sum_to (c ∷ cs) (suc v) = c + sum_to cs v

running_at :
    (acc : ℕ) (cs : List ℕ) (v : ℕ)
    → v < length cs
    → get_or (running acc cs) v 0 % 2 ^ 64 ≡ (acc + sum_to cs v) % 2 ^ 64
unfolding running sum_to wrap_add
running_at acc [] v h = absurd (omega arith)
running_at acc (c ∷ cs) zero h = omega arith
running_at acc (c ∷ cs) (suc v) h =
    omega (arith, running_at ((acc + c) % 2 ^ 64) cs v (omega arith))

length-running : (acc : ℕ) (cs : List ℕ) → length (running acc cs) ≡ length cs
unfolding running
length-running acc [] = refl
length-running acc (c ∷ cs) = ap suc (length-running (wrap_add 64 acc c) cs)

running-lt : (acc : ℕ) (cs : List ℕ) (v : ℕ) → get_or (running acc cs) v 0 < 2 ^ 64
unfolding running wrap_add
running-lt acc [] v = omega arith
running-lt acc (c ∷ cs) zero = omega arith
running-lt acc (c ∷ cs) (suc v) = running-lt ((acc + c) % 2 ^ 64) cs v

sum_to-suc :
    (cs : List ℕ) (v : ℕ)
    → suc v < length cs
    → sum_to cs (suc v) ≡ sum_to cs v + get_or cs (suc v) 0
unfolding sum_to
sum_to-suc [] v h = absurd (omega arith)
sum_to-suc (c ∷ []) v h = absurd (omega arith)
sum_to-suc (c ∷ (d ∷ ds)) zero h = omega arith
sum_to-suc (c ∷ (d ∷ ds)) (suc v) h = omega (arith, sum_to-suc (d ∷ ds) v (omega arith))

get_or-replicate : (n j : ℕ) → get_or (replicate {A = ℕ} n 0) j 0 ≡ 0
get_or-replicate zero j = refl
get_or-replicate (suc n) zero = refl
get_or-replicate (suc n) (suc j) = get_or-replicate n j

-- One place more.
count_le_zero : (ks : List ℕ) → count_if (λ k. leb k 0) ks ≡ count_if (λ k. k == 0) ks
count_le_zero ks =
    count_if-congr (λ k. leb k 0) (λ k. k == 0) ks
      (All-of (λ k. leb k 0 ≡ (k == 0)) (λ k. ground arith) ks)

count_le_suc :
    (v : ℕ) (ks : List ℕ)
    → count_if (λ k. leb k v) ks + count_if (λ k. k == suc v) ks ≡ count_if (λ k. leb k (suc v)) ks
count_le_suc v ks =
    count_if-add (λ k. leb k v) (λ k. k == suc v) (λ k. leb k (suc v)) ks
      (All-of (λ k. bit (leb k v) + bit (k == suc v) ≡ bit (leb k (suc v))) (λ k. ground arith) ks)

sum_to_zero : (cs : List ℕ) → 0 < length cs → sum_to cs 0 ≡ get_or cs 0 0
unfolding sum_to
sum_to_zero [] h = absurd (omega arith)
sum_to_zero (c ∷ cs) h = refl

module _ (n : ℕ) (ks : List ℕ) where
  fresh_tally_at :
      (j : ℕ)
      → j < n
      → get_or (tally (replicate n 0) ks) j 0 % 2 ^ 64 ≡ count_if (λ k. k == j) ks % 2 ^ 64
  fresh_tally_at j h =
      let r = tally_at (replicate n 0) ks j (omega (arith, length-replicate {A = ℕ} n 0)) in
      omega (arith, r, get_or-replicate n j)

  length-fresh : length (tally (replicate n 0) ks) ≡ n
  length-fresh = length-tally (replicate n 0) ks ∙ length-replicate {A = ℕ} n 0

  sum_to-tally :
      (v : ℕ)
      → v < n
      → sum_to (tally (replicate n 0) ks) v % 2 ^ 64 ≡ count_if (λ k. leb k v) ks % 2 ^ 64
  sum_to-tally zero h =
      let z = sum_to_zero (tally (replicate n 0) ks) (omega (arith, length-fresh)) in
      omega (arith, z, fresh_tally_at 0 h, count_le_zero ks)
  sum_to-tally (suc v) h =
      let s = sum_to-suc (tally (replicate n 0) ks) v (omega (arith, length-fresh)) in
      omega (arith, s, sum_to-tally v (omega arith), fresh_tally_at (suc v) h, count_le_suc v ks)

  -- The prefix sums are the numbers of keys up to each place, exactly.
  pub cumulative :
      (v : ℕ)
      → v < n
      → length ks < 2 ^ 64
      → get_or (running 0 (tally (replicate n 0) ks)) v 0 ≡ count_if (λ k. leb k v) ks
  cumulative v h b =
      let cs = tally (replicate n 0) ks in
      let r = running_at 0 cs v (omega (arith, length-fresh)) in
      let l = running-lt 0 cs v in
      let c = count_if-le-length (λ k. leb k v) ks in omega (arith, r, l, c, sum_to-tally v h)

  pub length-cumulative : length (running 0 (tally (replicate n 0) ks)) ≡ n
  length-cumulative = length-running 0 (tally (replicate n 0) ks) ∙ length-fresh
