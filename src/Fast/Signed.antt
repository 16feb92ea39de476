-- ===== src/Fast/Signed.antt =====
-- The signed `_fast` predicates of include/smart2raw.h: the scan and the search.

use smart2raw.Base.{
  ◌==◌, if◌then◌else◌, Bool-cases, get_or, get_or-take, All-imp, All-of, ℤ, ◌≤ℤ◌, ltb_ℤ, leb_ℤ,
  IsWidth→is_width, wrap_sub, sx, to_u64, wrap_sub_of_le, Fits, sx-Fits, ℕ, suc, ◌+◌, ◌^◌, ◌≤◌, ◌<◌,
  ◌≡◌, refl, sym, ap, ◌∙◌, inl, inr, Bool, true, false, ◌||◌, arith,
}
use smart2raw.Class.{min_signed, max_signed}
use smart2raw.Class.Least.{Limits, signed-Limits}
use smart2raw.Pool.{Pool, width, is_neg, live, read_signed, get_signed}
use smart2raw.Pool.Valid.{IsValid, live-words, length-live, count-lt}
use smart2raw.Scan.{count_if, in_range_ℤ}
use smart2raw.Scan.Exact.{
  count_if-none, count_if-All, count_if-congr, live_of_zero, bit, count_if-add,
}
use smart2raw.Fast.{hit, cntrng_scalar, cntrng_fast, bisect, lower_s, upper_s, at_least, at_most}
use smart2raw.Fast.Window.{hit_in_range_ℤ}
use smart2raw.Fast.Bisect.{bisect_lem, count_if-split}

cntrng_fast-live :
    (p : Pool) (lo span : ℕ) → cntrng_fast p lo span ≡ count_if (hit (width p) lo span) (live p)
unfolding cntrng_fast cntrng_scalar count_if
cntrng_fast-live p lo span = elim (Bool-cases (p.count == 0)) [
  | inl e ↦ rw (e, live_of_zero p e)
  | inr e ↦ rw e
]

-- Clamping a range to limits that a value keeps does not change whether the value is in it.
pub clamped :
    (cmin cmax lo hi y : ℤ)
    → cmin ≤ℤ y
    → y ≤ℤ cmax
    → in_range_ℤ (at_least cmin lo) (at_most cmax hi) y ≡ in_range_ℤ lo hi y
clamped cmin cmax lo hi y a b = ground arith

pub range_bits :
    (lo hi y : ℤ) → lo ≤ℤ hi → bit (in_range_ℤ lo hi y) + bit (ltb_ℤ y lo) ≡ bit (leb_ℤ y hi)
range_bits lo hi y h = ground arith

side_bits : (t y : ℤ) → bit (ltb_ℤ t y) + bit (leb_ℤ y t) ≡ 1
side_bits t y = ground arith

-- The number of elements whose signed value passes a test.
abbrev pub signed_count : Pool → (ℤ → Bool) → ℕ
signed_count p test = count_if (λ x. test (read_signed p x)) (live p)

module _ {p : Pool} (v : IsValid p) (neg : is_neg p.size ≡ true) where
  pub limits : Limits p.size
  limits = signed-Limits p.size (ground arith) v.class

  pub read_signed-sx : (x : ℕ) → read_signed p x ≡ sx (width p) x
  read_signed-sx x = rw (neg, IsWidth→is_width (width p) v.class)

  -- What a signed class holds lies between its limits.
  pub read_signed-Fits : (x : ℕ) → x < 2 ^ width p → Fits (width p) (read_signed p x)
  read_signed-Fits x b = rw (read_signed-sx x) (sx-Fits (width p) x b)

  pub scan_signed_exact :
      (lo hi : ℤ)
      → lo ≤ℤ hi
      → let cmin = min_signed p.size in
        let cmax = max_signed p.size in
        let a = to_u64 (at_least cmin lo) in
        let b = to_u64 (at_most cmax hi) in
        (if ltb_ℤ cmax lo || ltb_ℤ hi cmin then 0 else cntrng_fast p a (wrap_sub 64 b a))
        ≡ signed_count p (in_range_ℤ lo hi)
  scan_signed_exact lo hi h =
      let w = width p in
      let cmin = min_signed p.size in
      let cmax = max_signed p.size in
      let l = limits in
      let a = at_least cmin lo in
      let b = at_most cmax hi in
      elim (Bool-cases (ltb_ℤ cmax lo || ltb_ℤ hi cmin)) [
        | inl out ↦ rw out (
            sym (
              count_if-none (λ x. in_range_ℤ lo hi (read_signed p x)) (live p)
                (All-imp (λ x. x < 2 ^ w) (λ x. in_range_ℤ lo hi (read_signed p x) ≡ false)
                  (λ x k. ground (arith, l, read_signed-Fits x k)) (live p) (live-words v))))
        | inr inside ↦ rw inside (
            cntrng_fast-live p (to_u64 a) (wrap_sub 64 (to_u64 b) (to_u64 a))
            ∙ count_if-congr (hit w (to_u64 a) (wrap_sub 64 (to_u64 b) (to_u64 a)))
                (λ x. in_range_ℤ lo hi (read_signed p x)) (live p)
                (All-imp (λ x. x < 2 ^ w)
                  (λ x.
                    hit w (to_u64 a) (wrap_sub 64 (to_u64 b) (to_u64 a)) x
                    ≡ in_range_ℤ lo hi (read_signed p x))
                  (λ x k.
                    hit_in_range_ℤ w v.class a b x k (ground (arith, l)) (ground (arith, l))
                      (ground (arith, l))
                    ∙ clamped cmin cmax lo hi (sx w x) (ground (arith, l, sx-Fits w x k))
                        (ground (arith, l, sx-Fits w x k))
                    ∙ ap (in_range_ℤ lo hi) (sym (read_signed-sx x)))
                  (live p) (live-words v)))
      ]

  module _ (up : (i j : ℕ) → i ≤ j → j < p.count → get_signed p i ≤ℤ get_signed p j) where
    get_signed-live : (i : ℕ) → i < p.count → read_signed p (get_or (live p) i 0) ≡ get_signed p i
    unfolding get_signed
    get_signed-live i h = ap (read_signed p) (get_or-take p.count p.cells i 0 h)

    lower_s_exact :
        (t : ℤ) → (lower_s p t ≤ p.count) × (signed_count p (λ a. ltb_ℤ a t) ≡ lower_s p t)
    unfolding lower_s
    lower_s_exact t =
        let below = λ (m : ℕ). ltb_ℤ (get_signed p m) t in
        let s = bisect_lem below p.count (λ i j h b e. ground (arith, up i j h b)) in
        (
          s.0,
          count_if-split (λ x. ltb_ℤ (read_signed p x) t) 0 (live p)
              (bisect below (suc p.count) 0 p.count) (omega (arith, s.0, length-live v))
              (λ i h. ap (λ a. ltb_ℤ a t) (get_signed-live i (omega (arith, s.0))) ∙ s.1 i h)
              (λ i h b.
                ap (λ a. ltb_ℤ a t) (get_signed-live i (omega (arith, length-live v)))
                ∙ s.2 i h (omega (arith, length-live v))),
        )

    upper_s_exact :
        (t : ℤ) → (upper_s p t ≤ p.count) × (signed_count p (λ a. leb_ℤ a t) ≡ upper_s p t)
    unfolding upper_s
    upper_s_exact t =
        let below = λ (m : ℕ). leb_ℤ (get_signed p m) t in
        let s = bisect_lem below p.count (λ i j h b e. ground (arith, up i j h b)) in
        (
          s.0,
          count_if-split (λ x. leb_ℤ (read_signed p x) t) 0 (live p)
              (bisect below (suc p.count) 0 p.count) (omega (arith, s.0, length-live v))
              (λ i h. ap (λ a. leb_ℤ a t) (get_signed-live i (omega (arith, s.0))) ∙ s.1 i h)
              (λ i h b.
                ap (λ a. leb_ℤ a t) (get_signed-live i (omega (arith, length-live v)))
                ∙ s.2 i h (omega (arith, length-live v))),
        )

    pub search_range_signed_exact :
        (lo hi : ℤ)
        → lo ≤ℤ hi
        → wrap_sub 64 (upper_s p hi) (lower_s p lo) ≡ signed_count p (in_range_ℤ lo hi)
    search_range_signed_exact lo hi h =
        let r = read_signed p in
        let c =
          count_if-add (λ x. in_range_ℤ lo hi (r x)) (λ x. ltb_ℤ (r x) lo) (λ x. leb_ℤ (r x) hi)
            (live p)
            (All-of
              (λ x. bit (in_range_ℤ lo hi (r x)) + bit (ltb_ℤ (r x) lo) ≡ bit (leb_ℤ (r x) hi))
              (λ x. range_bits lo hi (r x) h) (live p)) in
        let a = lower_s_exact lo in
        let b = upper_s_exact hi in
        wrap_sub_of_le 64 (upper_s p hi) (lower_s p lo) (omega (arith, c, a.1, b.1))
          (omega (arith, b.0, count-lt v))
        ∙ omega (arith, c, a.1, b.1)

    pub search_gt_signed_exact :
        (t : ℤ) → wrap_sub 64 p.count (upper_s p t) ≡ signed_count p (ltb_ℤ t)
    search_gt_signed_exact t =
        let r = read_signed p in
        let c =
          count_if-add (λ x. ltb_ℤ t (r x)) (λ x. leb_ℤ (r x) t) (λ x. true) (live p)
            (All-of (λ x. bit (ltb_ℤ t (r x)) + bit (leb_ℤ (r x) t) ≡ 1) (λ x. side_bits t (r x))
              (live p)) in
        let all =
          count_if-All (λ a. true) (live p) (All-of (λ a. true ≡ true) (λ x. refl) (live p)) in
        let b = upper_s_exact t in
        wrap_sub_of_le 64 p.count (upper_s p t) b.0 (count-lt v)
        ∙ omega (arith, c, b.1, all, length-live v)
