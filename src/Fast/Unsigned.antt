-- ===== src/Fast/Unsigned.antt =====
-- The unsigned `_fast` predicates of include/smart2raw.h: what the summary, the search and the scan answer.
use smart2raw.Base.{
  ltb, leb, ◌==◌, if◌then◌else◌, Bool-cases, get_or, All, get_or-take, All-imp, All-of, ◌≤ℤ◌,
  IsWidth→is_width, wrap_sub, wrap_sub_of_le, ℕ, suc, ◌+◌, ◌-◌, ◌^◌, ◌≤◌, ◌<◌, ◌≡◌, refl, sym,
  subst₂, ◌∙◌, inl, inr, true, false, ◌&&◌, ◌||◌, not, arith,
}
use smart2raw.Class.{max_value}
use smart2raw.Class.Least.{max_value-width}
use smart2raw.Pool.{Pool, width, is_signed, live, get}
use smart2raw.Pool.Valid.{IsValid, live-words, length-live, count-lt}
use smart2raw.Known.{key, bound, IsKnown, key_unsigned, bound_unsigned}
use smart2raw.Known.Bounds.{order_at, extent_bounds}
use smart2raw.Scan.{count_if, in_range}
use smart2raw.Scan.Exact.{
  count_if-none, count_if-All, count_if-congr, live_of_zero, bit, count_if-add,
}
use smart2raw.Fast.{
  hit, cntrng_scalar, cntrng_fast, bisect, lower_u, upper_u, bsearch_worth, count_range_fast,
}
use smart2raw.Fast.Window.{hit_in_range}
use smart2raw.Fast.Bisect.{bisect_lem, count_if-split}

-- The scan inside the class: what does not fit is out of every range, and the top is clamped.
abbrev scanned : Pool → ℕ → ℕ → ℕ
scanned p lo hi =
    let cls_max = max_value p.size in
    let top = if ltb cls_max hi then cls_max else hi in
    if ltb cls_max lo then 0 else cntrng_fast p lo (top - lo)

cntrng_fast-live :
    (p : Pool) (lo span : ℕ) → cntrng_fast p lo span ≡ count_if (hit (width p) lo span) (live p)
unfolding cntrng_fast cntrng_scalar count_if
cntrng_fast-live p lo span = elim (Bool-cases (p.count == 0)) [
  | inl e ↦ rw (e, live_of_zero p e)
  | inr e ↦ rw e
]

module _ {p : Pool} (v : IsValid p) where
  scan_exact : (lo hi : ℕ) → lo ≤ hi → scanned p lo hi ≡ count_if (in_range lo hi) (live p)
  scan_exact lo hi h =
      let w = width p in
      let m = max_value-width p.size v.class in
      let top = if ltb (max_value p.size) hi then max_value p.size else hi in
      elim (Bool-cases (ltb (max_value p.size) lo)) [
        | inl high ↦ rw high (
            sym (
              count_if-none (in_range lo hi) (live p) (
                All-imp (λ x. x < 2 ^ w) (λ x. in_range lo hi x ≡ false) (λ x b. ground (arith, m))
                  (live p) (live-words v))))
        | inr low ↦ rw low (
            cntrng_fast-live p lo (top - lo)
            ∙ count_if-congr (hit w lo (top - lo)) (in_range lo hi) (live p) (
                All-imp (λ x. x < 2 ^ w) (λ x. hit w lo (top - lo) x ≡ in_range lo hi x)
                  (λ x b.
                    hit_in_range w v.class lo top x b (ground (arith, m)) (ground (arith, m))
                    ∙ ground (arith, m))
                  (live p) (live-words v)))
      ]

  get-live : (i : ℕ) → i < p.count → get_or (live p) i 0 ≡ get p i
  unfolding get
  get-live i h = rw (IsWidth→is_width (width p) v.class) (get_or-take p.count p.cells i 0 h)

  module _ (up : (i j : ℕ) → i ≤ j → j < p.count → get p i ≤ get p j) where
    -- The two searches count the elements below, and those not above.
    lower_u_exact :
        (t : ℕ) → (lower_u p t ≤ p.count) × (count_if (λ a. ltb a t) (live p) ≡ lower_u p t)
    unfolding lower_u
    lower_u_exact t =
        let below = λ (m : ℕ). ltb (get p m) t in
        let s = bisect_lem below p.count (λ i j h b e. ground (arith, up i j h b)) in
        (
          s.0,
          count_if-split (λ a. ltb a t) 0 (live p) (bisect below (suc p.count) 0 p.count)
              (omega (arith, s.0, length-live v))
              (λ i h. rw (get-live i (omega (arith, s.0))) (s.1 i h))
              (λ i h b.
                rw (get-live i (omega (arith, length-live v)))
                  (s.2 i h (omega (arith, length-live v)))),
        )

    upper_u_exact :
        (t : ℕ) → (upper_u p t ≤ p.count) × (count_if (λ a. leb a t) (live p) ≡ upper_u p t)
    unfolding upper_u
    upper_u_exact t =
        let below = λ (m : ℕ). leb (get p m) t in
        let s = bisect_lem below p.count (λ i j h b e. ground (arith, up i j h b)) in
        (
          s.0,
          count_if-split (λ a. leb a t) 0 (live p) (bisect below (suc p.count) 0 p.count)
              (omega (arith, s.0, length-live v))
              (λ i h. rw (get-live i (omega (arith, s.0))) (s.1 i h))
              (λ i h b.
                rw (get-live i (omega (arith, length-live v)))
                  (s.2 i h (omega (arith, length-live v)))),
        )

    -- A search for both ends of a range, and for one.
    search_range_exact :
        (lo hi : ℕ)
        → lo ≤ hi
        → wrap_sub 64 (upper_u p hi) (lower_u p lo) ≡ count_if (in_range lo hi) (live p)
    search_range_exact lo hi h =
        let c =
          count_if-add (in_range lo hi) (λ a. ltb a lo) (λ a. leb a hi) (live p)
            (All-of (λ x. bit (in_range lo hi x) + bit (ltb x lo) ≡ bit (leb x hi))
              (λ x. ground arith) (live p)) in
        let a = lower_u_exact lo in
        let b = upper_u_exact hi in
        wrap_sub_of_le 64 (upper_u p hi) (lower_u p lo) (omega (arith, c, a.1, b.1))
          (omega (arith, b.0, count-lt v))
        ∙ omega (arith, c, a.1, b.1)

    pub search_gt_exact : (t : ℕ) → wrap_sub 64 p.count (upper_u p t) ≡ count_if (ltb t) (live p)
    search_gt_exact t =
        let c =
          count_if-add (ltb t) (λ a. leb a t) (λ a. true) (live p)
            (All-of (λ x. bit (ltb t x) + bit (leb x t) ≡ 1) (λ x. ground arith) (live p)) in
        let all =
          count_if-All (λ a. true) (live p) (All-of (λ a. true ≡ true) (λ x. refl) (live p)) in
        let b = upper_u_exact t in
        wrap_sub_of_le 64 p.count (upper_u p t) b.0 (count-lt v)
        ∙ omega (arith, c, b.1, all, length-live v)

module _ {p : Pool} (v : IsValid p) (k : IsKnown p) where
  pub order_u :
      is_signed p ≡ false
      → p.flags.sorted ≡ true
      → (i j : ℕ) → i ≤ j
      → j < p.count
      → get p i ≤ get p j
  unfolding get
  order_u u s i j h b =
      let o =
        subst₂ (λ a c. a ≤ℤ c) (key_unsigned p (get_or p.cells i 0) u)
          (key_unsigned p (get_or p.cells j 0) u) (order_at v k i j s h b) in
      omega arith

  pub extent_u :
      is_signed p ≡ false → p.flags.summary ≡ true → All (λ x. (p.smin ≤ x) × (x ≤ p.smax)) (live p)
  extent_u u s =
      All-imp (λ x. (bound p p.smin ≤ℤ key p x) × (key p x ≤ℤ bound p p.smax))
        (λ x. (p.smin ≤ x) × (x ≤ p.smax))
        (λ x b.
          let c = subst₂ (λ lo y. lo ≤ℤ y) (bound_unsigned p p.smin u) (key_unsigned p x u) b.0 in
          let d = subst₂ (λ y hi. y ≤ℤ hi) (key_unsigned p x u) (bound_unsigned p p.smax u) b.1 in
          let e = IsWidth→is_width (width p) v.class in
          let c' = rw e at c in let d' = rw e at d in (omega arith, omega arith))
        (live p) (extent_bounds v k s)

  searched_range :
      (lo hi : ℕ)
      → lo ≤ hi
      → (if not (is_signed p) && bsearch_worth p
          then wrap_sub 64 (upper_u p hi) (lower_u p lo)
          else scanned p lo hi)
        ≡ count_if (in_range lo hi) (live p)
  unfolding bsearch_worth
  searched_range lo hi h = elim (Bool-cases (not (is_signed p) && bsearch_worth p)) [
    | inl e ↦ rw e (search_range_exact v (order_u (ground arith) (ground arith)) lo hi h)
    | inr e ↦ rw e (scan_exact v lo hi h)
  ]

  -- `s2r_count_range_fast` counts the elements of the range.
  pub count_range_fast-live :
      (min_v max_v : ℕ) → count_range_fast p min_v max_v ≡ count_if (in_range min_v max_v) (live p)
  unfolding count_range_fast count_if
  count_range_fast-live lo hi = elim (Bool-cases (p.count == 0)) [
    | inl e ↦ rw (e, live_of_zero p e)
    | inr e ↦ elim (Bool-cases (ltb hi lo)) [
      | inl none_in ↦
          rw (e, none_in)
            (sym (
              count_if-none (in_range lo hi) (live p)
                (All-of (λ x. in_range lo hi x ≡ false) (λ x. ground arith) (live p))))
      | inr some_in ↦ elim (Bool-cases (not (is_signed p) && p.flags.summary)) [
        | inr s ↦ rw (e, some_in, s) (searched_range lo hi (ground arith))
        | inl s ↦ elim (Bool-cases (ltb hi p.smin || ltb p.smax lo)) [
          | inl out ↦
              rw (e, some_in, s, out)
                (sym (
                  count_if-none (in_range lo hi) (live p) (
                    All-imp (λ x. (p.smin ≤ x) × (x ≤ p.smax)) (λ x. in_range lo hi x ≡ false)
                      (λ x b. ground arith) (live p) (extent_u (ground arith) (ground arith)))))
          | inr near ↦ elim (Bool-cases (leb lo p.smin && leb p.smax hi)) [
            | inl whole ↦
                rw (e, some_in, s, near, whole)
                  (sym (length-live v)
                    ∙ sym (
                        count_if-All (in_range lo hi) (live p) (
                          All-imp (λ x. (p.smin ≤ x) × (x ≤ p.smax)) (λ x. in_range lo hi x ≡ true)
                            (λ x b. ground arith) (live p)
                            (extent_u (ground arith) (ground arith)))))
            | inr part ↦ rw (e, some_in, s, near, part) (searched_range lo hi (ground arith))
          ]
        ]
      ]
    ]
  ]
