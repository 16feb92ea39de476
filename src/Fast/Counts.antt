-- ===== src/Fast/Counts.antt =====
-- s2r_count_gt_fast, _lt_fast, _eq_fast and _range_fast of include/smart2raw.h.
use smart2raw.Base.{
  ltb, leb, ◌==◌, if◌then◌else◌, Bool-cases, All-imp, All-of, wrap_add, wrap_sub, width_bounds,
  wrap_add_of_lt, ℕ, ◌+◌, ◌-◌, ◌^◌, ◌≤◌, ◌<◌, ◌≡◌, sym, ◌∙◌, inl, inr, true, false, ◌&&◌, not,
  arith,
}
use smart2raw.Class.{max_value}
use smart2raw.Class.Least.{max_value-width}
use smart2raw.Pool.{Pool, width, is_signed, live}
use smart2raw.Pool.Valid.{IsValid, live-words, length-live}
use smart2raw.Known.{IsKnown}
use smart2raw.Scan.{count_if, in_range, count_gt, count_lt, count_eq, count_range}
use smart2raw.Scan.Exact.{
  count_if-none, count_if-All, count_if-congr, live_of_zero, count_gt_exact, count_lt_exact,
  count_eq_exact, count_range_exact,
}
use smart2raw.Fast.{
  upper_u, bsearch_worth, count_range_fast, count_gt_fast, count_lt_fast, count_eq_fast,
}
use smart2raw.Fast.Unsigned.{search_gt_exact, order_u, extent_u, count_range_fast-live}

module _ {p : Pool} (v : IsValid p) (k : IsKnown p) where
  -- On a valid pool whose flags SORTED and SUMMARY are true of its elements, `s2r_count_range_fast`
  -- returns what `s2r_count_range` returns.
  pub count_range_fast-count_range :
      (min_v max_v : ℕ) → count_range_fast p min_v max_v ≡ count_range p min_v max_v
  count_range_fast-count_range lo hi =
      count_range_fast-live v k lo hi ∙ sym (count_range_exact p lo hi v)

  scanned_gt :
      (thr : ℕ)
      → (if leb (max_value p.size) thr
          then 0
          else count_range_fast p (wrap_add 64 thr 1) (max_value p.size))
        ≡ count_if (ltb thr) (live p)
  scanned_gt thr =
      let w = width p in
      let cls = max_value p.size in
      let m = max_value-width p.size v.class in
      let b = width_bounds w v.class in
      elim (Bool-cases (leb cls thr)) [
        | inl high ↦ rw high (
            sym (
              count_if-none (ltb thr) (live p) (
                All-imp (λ x. x < 2 ^ w) (λ x. ltb thr x ≡ false) (λ x h. ground (arith, m))
                  (live p) (live-words v))))
        | inr low ↦
            rw (low, wrap_add_of_lt 64 thr 1 (ground (arith, m, b)))
              (count_range_fast-live v k (thr + 1) cls
                ∙ count_if-congr (in_range (thr + 1) cls) (ltb thr) (live p) (
                    All-imp (λ x. x < 2 ^ w) (λ x. in_range (thr + 1) cls x ≡ ltb thr x)
                      (λ x h. ground (arith, m)) (live p) (live-words v)))
      ]

  searched_gt :
      (thr : ℕ)
      → (if not (is_signed p) && bsearch_worth p
          then wrap_sub 64 p.count (upper_u p thr)
          else if leb (max_value p.size) thr
          then 0
          else count_range_fast p (wrap_add 64 thr 1) (max_value p.size))
        ≡ count_if (ltb thr) (live p)
  unfolding bsearch_worth
  searched_gt thr = elim (Bool-cases (not (is_signed p) && bsearch_worth p)) [
    | inl e ↦ rw e (search_gt_exact v (order_u v k (ground arith) (ground arith)) thr)
    | inr e ↦ rw e (scanned_gt thr)
  ]

  -- On a valid pool whose flags SORTED and SUMMARY are true of its elements, `s2r_count_gt_fast`
  -- returns what `s2r_count_gt` returns.
  pub count_gt_fast-count_gt : (thr : ℕ) → count_gt_fast p thr ≡ count_gt p thr
  unfolding count_gt_fast count_if
  count_gt_fast-count_gt thr = rw (count_gt_exact p thr v) (elim (Bool-cases (p.count == 0)) [
    | inl e ↦ rw (e, live_of_zero p e)
    | inr e ↦ elim (Bool-cases (not (is_signed p) && p.flags.summary)) [
      | inr s ↦ rw (e, s) (searched_gt thr)
      | inl s ↦ elim (Bool-cases (leb p.smax thr)) [
        | inl high ↦
            rw (e, s, high)
              (sym (
                count_if-none (ltb thr) (live p) (
                  All-imp (λ x. (p.smin ≤ x) × (x ≤ p.smax)) (λ x. ltb thr x ≡ false)
                    (λ x b. ground arith) (live p) (extent_u v k (ground arith) (ground arith)))))
        | inr low ↦ elim (Bool-cases (ltb thr p.smin)) [
          | inl below ↦
              rw (e, s, low, below)
                (sym (length-live v)
                  ∙ sym (
                      count_if-All (ltb thr) (live p) (
                        All-imp (λ x. (p.smin ≤ x) × (x ≤ p.smax)) (λ x. ltb thr x ≡ true)
                          (λ x b. ground arith) (live p)
                          (extent_u v k (ground arith) (ground arith)))))
          | inr within ↦ rw (e, s, low, within) (searched_gt thr)
        ]
      ]
    ]
  ])

  -- On a valid pool whose flags SORTED and SUMMARY are true of its elements, `s2r_count_lt_fast`
  -- returns what `s2r_count_lt` returns.
  pub count_lt_fast-count_lt : (thr : ℕ) → count_lt_fast p thr ≡ count_lt p thr
  unfolding count_lt_fast count_if
  count_lt_fast-count_lt thr = rw (count_lt_exact p thr v) (elim (Bool-cases (p.count == 0)) [
    | inl e ↦ rw (e, live_of_zero p e)
    | inr e ↦ elim (Bool-cases (thr == 0)) [
      | inl z ↦
          rw (e, z)
            (sym (
              count_if-none (λ a. ltb a thr) (live p)
                (All-of (λ x. ltb x thr ≡ false) (λ x. ground arith) (live p))))
      | inr nz ↦
          rw (e, nz)
            (count_range_fast-live v k 0 (thr - 1)
              ∙ count_if-congr (in_range 0 (thr - 1)) (λ a. ltb a thr) (live p)
                  (All-of (λ x. in_range 0 (thr - 1) x ≡ ltb x thr) (λ x. ground arith) (live p)))
    ]
  ])

  -- On a valid pool whose flags SORTED and SUMMARY are true of its elements, `s2r_count_eq_fast`
  -- returns what `s2r_count_eq` returns.
  pub count_eq_fast-count_eq : (value : ℕ) → count_eq_fast p value ≡ count_eq p value
  unfolding count_eq_fast
  count_eq_fast-count_eq value = rw (count_eq_exact p value v) (
      count_range_fast-live v k value value
      ∙ count_if-congr (in_range value value) (λ a. a == value) (live p)
          (All-of (λ x. in_range value value x ≡ (x == value)) (λ x. ground arith) (live p)))

  -- On a valid pool whose flags SORTED and SUMMARY are true of its elements, `s2r_count_lt_fast` and
  -- `s2r_count_eq_fast` return what `s2r_count_lt` and `s2r_count_eq` return.
  pub count_lt_eq_fast :
      (thr value : ℕ)
      → (count_lt_fast p thr ≡ count_lt p thr) × (count_eq_fast p value ≡ count_eq p value)
  count_lt_eq_fast thr value = (count_lt_fast-count_lt thr, count_eq_fast-count_eq value)
