-- ===== src/Blocked/Counts.antt =====
-- s2r_blocked_count_gt of include/smart2raw.h on an unsigned column, against the array of the build.
use smart2raw.Base.{
  ltb, leb, ◌==◌, if◌then◌else◌, Bool-cases, length, get_or, All, All-imp, All-of, wrap_mul, ℕ, suc,
  ◌+◌, ◌-◌, ◌*◌, ◌%◌, ◌≤◌, ◌<◌, ◌≡◌, refl, sym, ap, ◌∙◌, inl, inr, Bool, true, false, ◌&&◌, List,
  map, arith,
}
use smart2raw.Affine.{index_of}
use smart2raw.Affine.Quotients.{quot, ltb-quot}
use smart2raw.Scan.{count_if}
use smart2raw.Scan.Exact.{
  count_if-none, count_if-All, count_if-congr, bit, count_if-add, count_if-map,
}
use smart2raw.Fast.{bisect, bsearch_min_bytes}
use smart2raw.Fast.Bisect.{bisect_lem, count_if-split}
use smart2raw.Blocked.RoundTrip.{All-under}

-- The count of a block from what is read of it.
abbrev pub gt_form : (len base st sp flags w : ℕ) → (upper fast : ℕ → ℕ) → ℕ → ℕ
gt_form len base st sp flags w upper fast thr =
    let rem = quot st (thr - base) in
    if ltb thr base
    then len
    else if leb sp rem
    then 0
    else if flags % 2 == 1 && leb bsearch_min_bytes (wrap_mul 64 len w)
    then len - upper rem
    else fast rem

over_base :
    (thr base step x : ℕ)
    → ltb thr base ≡ false
    → base + step ≡ x
    → ltb thr x ≡ ltb (thr - base) step
over_base thr base step x t e = ground arith

left_true : (x y : Bool) → (x && y) ≡ true → x ≡ true
left_true x y h = ground arith

module _ (q : List ℕ) (base st sp flags w : ℕ) (upper fast : ℕ → ℕ) (pos : 0 < st)
    (lat : All (λ x. base + st * index_of base st x ≡ x) q)
    (le : All (λ x. index_of base st x ≤ sp) q) where
  abbrev places : List ℕ
  places = map (index_of base st) q

  above_all : (thr : ℕ) → ltb thr base ≡ true → count_if (ltb thr) q ≡ length q
  above_all thr t = count_if-All (ltb thr) q (
      All-imp (λ x. base + st * index_of base st x ≡ x) (λ x. ltb thr x ≡ true)
        (λ x e. ground arith) q lat)

  above_places :
      (thr : ℕ)
      → ltb thr base ≡ false
      → count_if (ltb thr) q ≡ count_if (ltb (quot st (thr - base))) places
  above_places thr t =
      let r = quot st (thr - base) in
      count_if-congr (ltb thr) (λ x. ltb r (index_of base st x)) q
        (All-imp (λ x. base + st * index_of base st x ≡ x)
          (λ x. ltb thr x ≡ ltb r (index_of base st x))
          (λ x e.
            let c = ltb-quot st (thr - base) (index_of base st x) pos in
            over_base thr base (st * index_of base st x) x t e ∙ sym c)
          q lat)
      ∙ sym (count_if-map (ltb r) (index_of base st) q)

  none_places : (r : ℕ) → leb sp r ≡ true → count_if (ltb r) places ≡ 0
  none_places r t = count_if-none (ltb r) places (
      All-under (index_of base st) (λ i. ltb r i ≡ false) q
        (All-imp (λ x. index_of base st x ≤ sp) (λ x. ltb r (index_of base st x) ≡ false)
          (λ x h. ground arith) q le))

  pub gt_form_lem :
      (thr : ℕ)
      → ((r : ℕ)
          → leb sp r ≡ false
          → (flags % 2 == 1) ≡ true
          → length q - upper r ≡ count_if (ltb r) places)
      → ((r : ℕ) → leb sp r ≡ false → fast r ≡ count_if (ltb r) places)
      → gt_form (length q) base st sp flags w upper fast thr ≡ count_if (ltb thr) q
  gt_form_lem thr up fa =
      let r = quot st (thr - base) in
      elim (Bool-cases (ltb thr base)) [
        | inl t ↦ rw t (sym (above_all thr t))
        | inr t ↦ elim (Bool-cases (leb sp r)) [
          | inl u ↦ rw (t, u) (sym (above_places thr t ∙ none_places r u))
          | inr u ↦
              elim (Bool-cases
                (flags % 2 == 1 && leb bsearch_min_bytes (wrap_mul 64 (length q) w))) [
                  | inl v ↦ rw (t, u, v) (up r u (left_true _ _ v) ∙ sym (above_places thr t))
                  | inr v ↦ rw (t, u, v) (fa r u ∙ sym (above_places thr t))
                ]
        ]
      ]

-- A binary search over ascending indices leaves those above the bound.
pub search_above :
    (at : ℕ → ℕ) (is : List ℕ) (r : ℕ)
    → ((i : ℕ) → i < length is → at i ≡ get_or is i 0)
    → ((i j : ℕ) → i ≤ j → j < length is → get_or is i 0 ≤ get_or is j 0)
    → length is - bisect (λ mid. leb (at mid) r) (suc (length is)) 0 (length is)
      ≡ count_if (ltb r) is
search_above at is r reads order =
    let below : ℕ → Bool = λ mid. leb (at mid) r in
    let n = length is in
    let down : (i j : ℕ) → i ≤ j → j < n → below j ≡ true → below i ≡ true = λ i j h l t.
      let a = reads i (omega arith) in
      let c = reads j l in
      let o = order i j h l in let m : at i ≤ at j = omega arith in ground arith in
    let (within, before, after) = bisect_lem below n down in
    let k = bisect below (suc n) 0 n in
    let split =
      count_if-split (λ a. leb a r) 0 is k within
        (λ i h. ap (λ y. leb y r) (sym (reads i (omega (arith, h, within)))) ∙ before i h)
        (λ i h l. ap (λ y. leb y r) (sym (reads i l)) ∙ after i h l) in
    let c =
      count_if-add (ltb r) (λ a. leb a r) (λ a. true) is
        (All-of (λ x. bit (ltb r x) + bit (leb x r) ≡ 1) (λ x. ground arith) is) in
    let all = count_if-All (λ a. true) is (All-of (λ a. true ≡ true) (λ x. refl) is) in
    omega (arith, split, c, all, within)
