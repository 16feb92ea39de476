-- ===== src/Fast/SignedCounts.antt =====
-- s2r_count_gt_signed_fast, _lt_, _eq_ and _range_signed_fast of include/smart2raw.h.
use smart2raw.Base.{
  ◌==◌, if◌then◌else◌, Bool-cases, get_or, All, All-imp, All-of, ℤ, ◌+ℤ◌, ◌≤ℤ◌, ltb_ℤ, leb_ℤ, eqb_ℤ,
  pos, negsuc, wrap_sub, sx, to_u64, ℕ, ◌^◌, ◌≤◌, ◌<◌, ◌≡◌, sym, subst₂, ◌∙◌, inl, inr, Bool, true,
  false, ◌&&◌, ◌||◌, arith,
}
use smart2raw.Class.{min_signed, max_signed}
use smart2raw.Pool.{Pool, width, is_neg, is_signed, live, read_signed, get_signed}
use smart2raw.Pool.Valid.{IsValid, live-words, length-live}
use smart2raw.Known.{key, bound, IsKnown, key_signed, bound_signed}
use smart2raw.Known.Bounds.{order_at, extent_bounds}
use smart2raw.Scan.{
  count_if, in_range_ℤ, count_gt_signed, count_lt_signed, count_eq_signed, count_range_signed,
}
use smart2raw.Scan.Exact.{count_if-none, count_if-All, count_if-congr, live_of_zero, count_if-map}
use smart2raw.Fast.{
  cntrng_fast, lower_s, upper_s, bsearch_worth, at_least, at_most, count_range_signed_fast,
  count_gt_signed_fast, count_lt_signed_fast, count_eq_signed_fast,
}
use smart2raw.Fast.Signed.{
  signed_count, limits, read_signed-Fits, scan_signed_exact, search_range_signed_exact,
  search_gt_signed_exact,
}

empty_range : (lo hi y : ℤ) → ltb_ℤ hi lo ≡ true → in_range_ℤ lo hi y ≡ false
empty_range lo hi y h = ground arith

above_none : (thr cls y : ℤ) → leb_ℤ cls thr ≡ true → y ≤ℤ cls → ltb_ℤ thr y ≡ false
above_none thr cls y h k = ground arith

below_none : (thr cls y : ℤ) → leb_ℤ thr cls ≡ true → cls ≤ℤ y → ltb_ℤ y thr ≡ false
below_none thr cls y h k = ground arith

above_range : (thr cls y : ℤ) → y ≤ℤ cls → in_range_ℤ (thr +ℤ pos 1) cls y ≡ ltb_ℤ thr y
unfolding ◌+ℤ◌
above_range thr cls y h = ground arith

below_range : (thr cls y : ℤ) → cls ≤ℤ y → in_range_ℤ cls (thr +ℤ negsuc 0) y ≡ ltb_ℤ y thr
unfolding ◌+ℤ◌
below_range thr cls y h = ground arith

point_range : (c y : ℤ) → in_range_ℤ c c y ≡ eqb_ℤ y c
point_range c y = ground arith

module _ {p : Pool} (v : IsValid p) (k : IsKnown p) (neg : is_neg p.size ≡ true) where
  signed : is_signed p ≡ true
  signed = rw neg

  order_s :
      p.flags.sorted ≡ true → (i j : ℕ) → i ≤ j → j < p.count → get_signed p i ≤ℤ get_signed p j
  unfolding get_signed
  order_s s i j h b =
      subst₂ (λ a c. a ≤ℤ c) (key_signed p (get_or p.cells i 0) signed)
        (key_signed p (get_or p.cells j 0) signed) (order_at v k i j s h b)

  abbrev InExtent : ℕ → Type 0
  InExtent x = (sx 64 p.smin ≤ℤ read_signed p x) × (read_signed p x ≤ℤ sx 64 p.smax)

  extent_s : p.flags.summary ≡ true → All InExtent (live p)
  extent_s s =
      All-imp (λ x. (bound p p.smin ≤ℤ key p x) × (key p x ≤ℤ bound p p.smax)) InExtent
        (λ x b. (
          subst₂ (λ lo y. lo ≤ℤ y) (bound_signed p p.smin signed) (key_signed p x signed) b.0,
          subst₂ (λ y hi. y ≤ℤ hi) (key_signed p x signed) (bound_signed p p.smax signed) b.1,
        ))
        (live p) (extent_bounds v k s)

  none_by_extent :
      (test : ℤ → Bool)
      → ((y : ℤ) → sx 64 p.smin ≤ℤ y → y ≤ℤ sx 64 p.smax → test y ≡ false)
      → p.flags.summary ≡ true
      → signed_count p test ≡ 0
  none_by_extent test f s =
      count_if-none (λ x. test (read_signed p x)) (live p)
        (All-imp InExtent (λ x. test (read_signed p x) ≡ false) (λ x b. f (read_signed p x) b.0 b.1)
          (live p) (extent_s s))

  all_by_extent :
      (test : ℤ → Bool)
      → ((y : ℤ) → sx 64 p.smin ≤ℤ y → y ≤ℤ sx 64 p.smax → test y ≡ true)
      → p.flags.summary ≡ true
      → signed_count p test ≡ p.count
  all_by_extent test f s =
      count_if-All (λ x. test (read_signed p x)) (live p)
        (All-imp InExtent (λ x. test (read_signed p x) ≡ true) (λ x b. f (read_signed p x) b.0 b.1)
          (live p) (extent_s s))
      ∙ length-live v

  searched_range_s :
      (lo hi : ℤ)
      → lo ≤ℤ hi
      → let cmin = min_signed p.size in
        let cmax = max_signed p.size in
        let a = to_u64 (at_least cmin lo) in
        let b = to_u64 (at_most cmax hi) in
        (if bsearch_worth p
          then wrap_sub 64 (upper_s p hi) (lower_s p lo)
          else if ltb_ℤ cmax lo || ltb_ℤ hi cmin
          then 0
          else cntrng_fast p a (wrap_sub 64 b a))
        ≡ signed_count p (in_range_ℤ lo hi)
  unfolding bsearch_worth
  searched_range_s lo hi h = elim (Bool-cases (bsearch_worth p)) [
    | inl e ↦ rw e (search_range_signed_exact v neg (order_s (ground arith)) lo hi h)
    | inr e ↦ rw e (scan_signed_exact v neg lo hi h)
  ]

  count_range_signed_fast_live :
      (lo hi : ℤ) → count_range_signed_fast p lo hi ≡ signed_count p (in_range_ℤ lo hi)
  unfolding count_range_signed_fast count_if
  count_range_signed_fast_live lo hi = elim (Bool-cases (p.count == 0)) [
    | inl e ↦ rw (e, live_of_zero p e)
    | inr e ↦ elim (Bool-cases (ltb_ℤ hi lo)) [
      | inl none_in ↦
          rw (e, none_in)
            (sym (
              count_if-none (λ x. in_range_ℤ lo hi (read_signed p x)) (live p)
                (All-of (λ x. in_range_ℤ lo hi (read_signed p x) ≡ false)
                  (λ x. empty_range lo hi (read_signed p x) none_in) (live p))))
      | inr some_in ↦ elim (Bool-cases p.flags.summary) [
        | inr s ↦ simp (e, some_in, signed, s) (searched_range_s lo hi (ground arith))
        | inl s ↦ elim (Bool-cases (ltb_ℤ hi (sx 64 p.smin) || ltb_ℤ (sx 64 p.smax) lo)) [
          | inl out ↦
              simp (e, some_in, signed, s, out)
                (sym (none_by_extent (in_range_ℤ lo hi) (λ y a b. ground arith) s))
          | inr near ↦ elim (Bool-cases (leb_ℤ lo (sx 64 p.smin) && leb_ℤ (sx 64 p.smax) hi)) [
            | inl whole ↦
                simp (e, some_in, signed, s, near, whole)
                  (sym (all_by_extent (in_range_ℤ lo hi) (λ y a b. ground arith) s))
            | inr part ↦
                simp (e, some_in, signed, s, near, part) (searched_range_s lo hi (ground arith))
          ]
        ]
      ]
    ]
  ]

  scanned_gt_s :
      (thr : ℤ)
      → (if leb_ℤ (max_signed p.size) thr
          then 0
          else count_range_signed_fast p (thr +ℤ pos 1) (max_signed p.size))
        ≡ signed_count p (ltb_ℤ thr)
  scanned_gt_s thr =
      let w = width p in
      let cls = max_signed p.size in
      let l = limits v neg in
      elim (Bool-cases (leb_ℤ cls thr)) [
        | inl high ↦ rw high (
            sym (
              count_if-none (λ x. ltb_ℤ thr (read_signed p x)) (live p)
                (All-imp (λ x. x < 2 ^ w) (λ x. ltb_ℤ thr (read_signed p x) ≡ false)
                  (λ x h.
                    above_none thr cls (read_signed p x) (ground arith)
                      (ground (arith, l, read_signed-Fits v neg x h)))
                  (live p) (live-words v))))
        | inr low ↦ rw low (
            count_range_signed_fast_live (thr +ℤ pos 1) cls
            ∙ count_if-congr (λ x. in_range_ℤ (thr +ℤ pos 1) cls (read_signed p x))
                (λ x. ltb_ℤ thr (read_signed p x)) (live p)
                (All-imp (λ x. x < 2 ^ w)
                  (λ x.
                    in_range_ℤ (thr +ℤ pos 1) cls (read_signed p x) ≡ ltb_ℤ thr (read_signed p x))
                  (λ x h.
                    above_range thr cls (read_signed p x)
                      (ground (arith, l, read_signed-Fits v neg x h)))
                  (live p) (live-words v)))
      ]

  searched_gt_s :
      (thr : ℤ)
      → (if bsearch_worth p
          then wrap_sub 64 p.count (upper_s p thr)
          else if leb_ℤ (max_signed p.size) thr
          then 0
          else count_range_signed_fast p (thr +ℤ pos 1) (max_signed p.size))
        ≡ signed_count p (ltb_ℤ thr)
  unfolding bsearch_worth
  searched_gt_s thr = elim (Bool-cases (bsearch_worth p)) [
    | inl e ↦ rw e (search_gt_signed_exact v neg (order_s (ground arith)) thr)
    | inr e ↦ rw e (scanned_gt_s thr)
  ]

  -- The scans as counts over the cells.
  count_gt_signed_live : (thr : ℤ) → count_gt_signed p thr ≡ signed_count p (ltb_ℤ thr)
  unfolding count_gt_signed count_if
  count_gt_signed_live thr = elim (Bool-cases (p.count == 0)) [
    | inl e ↦ rw (e, live_of_zero p e)
    | inr e ↦ rw e (count_if-map (ltb_ℤ thr) (read_signed p) (live p))
  ]

  count_lt_signed_live : (thr : ℤ) → count_lt_signed p thr ≡ signed_count p (λ y. ltb_ℤ y thr)
  unfolding count_lt_signed count_if
  count_lt_signed_live thr = elim (Bool-cases (p.count == 0)) [
    | inl e ↦ rw (e, live_of_zero p e)
    | inr e ↦ rw e (count_if-map (λ y. ltb_ℤ y thr) (read_signed p) (live p))
  ]

  count_range_signed_live :
      (lo hi : ℤ) → count_range_signed p lo hi ≡ signed_count p (in_range_ℤ lo hi)
  unfolding count_range_signed count_if
  count_range_signed_live lo hi = elim (Bool-cases (p.count == 0)) [
    | inl e ↦ rw (e, live_of_zero p e)
    | inr e ↦ elim (Bool-cases (ltb_ℤ hi lo)) [
      | inl none_in ↦
          rw (e, none_in)
            (sym (
              count_if-none (λ x. in_range_ℤ lo hi (read_signed p x)) (live p)
                (All-of (λ x. in_range_ℤ lo hi (read_signed p x) ≡ false)
                  (λ x. empty_range lo hi (read_signed p x) none_in) (live p))))
      | inr some_in ↦ rw (e, some_in) (count_if-map (in_range_ℤ lo hi) (read_signed p) (live p))
    ]
  ]

  -- On a valid pool of a signed class whose flags SORTED and SUMMARY are true of its elements,
  -- `s2r_count_range_signed_fast` returns what `s2r_count_range_signed` returns.
  pub count_range_signed_fast-count_range_signed :
      (min_v max_v : ℤ) → count_range_signed_fast p min_v max_v ≡ count_range_signed p min_v max_v
  count_range_signed_fast-count_range_signed lo hi =
      count_range_signed_fast_live lo hi ∙ sym (count_range_signed_live lo hi)

  -- On a valid pool of a signed class whose flags SORTED and SUMMARY are true of its elements,
  -- `s2r_count_gt_signed_fast` returns what `s2r_count_gt_signed` returns.
  pub count_gt_signed_fast-count_gt_signed :
      (thr : ℤ) → count_gt_signed_fast p thr ≡ count_gt_signed p thr
  unfolding count_gt_signed_fast count_if
  count_gt_signed_fast-count_gt_signed thr =
      rw (count_gt_signed_live thr) (elim (Bool-cases (p.count == 0)) [
        | inl e ↦ rw (e, live_of_zero p e)
        | inr e ↦ elim (Bool-cases p.flags.summary) [
          | inr s ↦ simp (e, signed, s) (searched_gt_s thr)
          | inl s ↦ elim (Bool-cases (leb_ℤ (sx 64 p.smax) thr)) [
            | inl high ↦
                simp (e, signed, s, high)
                  (sym (none_by_extent (ltb_ℤ thr) (λ y a b. ground arith) s))
            | inr low ↦ elim (Bool-cases (ltb_ℤ thr (sx 64 p.smin))) [
              | inl below ↦
                  simp (e, signed, s, low, below)
                    (sym (all_by_extent (ltb_ℤ thr) (λ y a b. ground arith) s))
              | inr within ↦ simp (e, signed, s, low, within) (searched_gt_s thr)
            ]
          ]
        ]
      ])

  -- On a valid pool of a signed class whose flags SORTED and SUMMARY are true of its elements,
  -- `s2r_count_lt_signed_fast` returns what `s2r_count_lt_signed` returns.
  pub count_lt_signed_fast-count_lt_signed :
      (thr : ℤ) → count_lt_signed_fast p thr ≡ count_lt_signed p thr
  unfolding count_lt_signed_fast count_if
  count_lt_signed_fast-count_lt_signed thr =
      let w = width p in
      let cls = min_signed p.size in
      let l = limits v neg in
      rw (count_lt_signed_live thr) (elim (Bool-cases (p.count == 0)) [
        | inl e ↦ rw (e, live_of_zero p e)
        | inr e ↦ elim (Bool-cases (leb_ℤ thr cls)) [
          | inl low ↦
              simp (e, signed, low)
                (sym (
                  count_if-none (λ x. ltb_ℤ (read_signed p x) thr) (live p)
                    (All-imp (λ x. x < 2 ^ w) (λ x. ltb_ℤ (read_signed p x) thr ≡ false)
                      (λ x h.
                        below_none thr cls (read_signed p x) (ground arith)
                          (ground (arith, l, read_signed-Fits v neg x h)))
                      (live p) (live-words v))))
          | inr high ↦
              simp (e, signed, high)
                (count_range_signed_fast_live cls (thr +ℤ negsuc 0)
                  ∙ count_if-congr (λ x. in_range_ℤ cls (thr +ℤ negsuc 0) (read_signed p x))
                      (λ x. ltb_ℤ (read_signed p x) thr) (live p)
                      (All-imp (λ x. x < 2 ^ w)
                        (λ x.
                          in_range_ℤ cls (thr +ℤ negsuc 0) (read_signed p x)
                          ≡ ltb_ℤ (read_signed p x) thr)
                        (λ x h.
                          below_range thr cls (read_signed p x)
                            (ground (arith, l, read_signed-Fits v neg x h)))
                        (live p) (live-words v)))
        ]
      ])

  count_eq_signed_live : (value : ℤ) → count_eq_signed p value ≡ signed_count p (λ y. eqb_ℤ y value)
  unfolding count_eq_signed count_if
  count_eq_signed_live value = elim (Bool-cases (p.count == 0)) [
    | inl e ↦ rw (e, live_of_zero p e)
    | inr e ↦ rw e (count_if-map (λ y. eqb_ℤ y value) (read_signed p) (live p))
  ]

  -- On a valid pool of a signed class whose flags SORTED and SUMMARY are true of its elements,
  -- `s2r_count_eq_signed_fast` returns what `s2r_count_eq_signed` returns.
  pub count_eq_signed_fast-count_eq_signed :
      (value : ℤ) → count_eq_signed_fast p value ≡ count_eq_signed p value
  unfolding count_eq_signed_fast
  count_eq_signed_fast-count_eq_signed value =
      count_range_signed_fast_live value value
      ∙ count_if-congr (λ x. in_range_ℤ value value (read_signed p x))
          (λ x. eqb_ℤ (read_signed p x) value) (live p)
          (All-of (λ x. in_range_ℤ value value (read_signed p x) ≡ eqb_ℤ (read_signed p x) value)
            (λ x. point_range value (read_signed p x)) (live p))
      ∙ sym (count_eq_signed_live value)

  -- On a valid pool of a signed class whose flags SORTED and SUMMARY are true of its elements,
  -- `s2r_count_lt_signed_fast` and `s2r_count_eq_signed_fast` return what `s2r_count_lt_signed` and
  -- `s2r_count_eq_signed` return.
  pub count_lt_eq_signed_fast :
      (thr value : ℤ)
      → (count_lt_signed_fast p thr ≡ count_lt_signed p thr)
        × (count_eq_signed_fast p value ≡ count_eq_signed p value)
  count_lt_eq_signed_fast thr value =
      (count_lt_signed_fast-count_lt_signed thr, count_eq_signed_fast-count_eq_signed value)
