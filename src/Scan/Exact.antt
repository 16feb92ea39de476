-- ===== src/Scan/Exact.antt =====
-- s2r_count_gt, _lt, _eq and _range of include/smart2raw.h, and lemmas on counts.
use smart2raw.Base.{
  ltb, leb, ◌==◌, if◌then◌else◌, Bool-cases, eq_of_==, length, take, All, All-imp, IsWidth→is_width,
  width_bounds, wrap_of_lt, ℕ, ◌+◌, ◌-◌, ◌^◌, ◌≤◌, ◌<◌, ◌≡◌, refl, sym, ap, fun_ext, ◌∙◌, inl, inr,
  Bool, true, false, List, [], ◌∷◌, map, arith,
}
use smart2raw.Pool.{Pool, width, live}
use smart2raw.Pool.Valid.{IsValid, live-words, length-live}
use smart2raw.Scan.{count_if, elements, in_range, count_gt, count_lt, count_eq, count_range}

module _ {ℓ} {A : Type ℓ} where
  pub count_if-none :
      (test : A → Bool) (xs : List A) → All (λ x. test x ≡ false) xs → count_if test xs ≡ 0
  unfolding count_if
  count_if-none test [] h = refl
  count_if-none test (x ∷ xs) h = rw h.0 (omega (arith, count_if-none test xs h.1))

  pub count_if-All :
      (test : A → Bool) (xs : List A) → All (λ x. test x ≡ true) xs → count_if test xs ≡ length xs
  unfolding count_if
  count_if-All test [] h = refl
  count_if-All test (x ∷ xs) h = rw h.0 (omega (arith, count_if-All test xs h.1))

  pub count_if-congr :
      (s t : A → Bool) (xs : List A) → All (λ x. s x ≡ t x) xs → count_if s xs ≡ count_if t xs
  unfolding count_if
  count_if-congr s t [] h = refl
  count_if-congr s t (x ∷ xs) h =
      rw h.0 (ap (λ n. (if t x then 1 else 0) + n) (count_if-congr s t xs h.1))

pub map-congr {ℓ κ} :
    {A : Type ℓ} {B : Type κ} (f g : A → B) (xs : List A)
    → All (λ x. f x ≡ g x) xs
    → map f xs ≡ map g xs
map-congr f g [] h = refl
map-congr f g (x ∷ xs) h = λ i. h.0 i ∷ map-congr f g xs h.1 i

pub map-id {ℓ} : {A : Type ℓ} (xs : List A) → map (λ x. x) xs ≡ xs
map-id [] = refl
map-id (x ∷ xs) = ap (λ l. x ∷ l) (map-id xs)

-- On a native class a read is the cell.
pub elements-live : {p : Pool} → IsValid p → elements p ≡ live p
elements-live {p} v =
    ap (λ f. map f (live p)) (fun_ext (λ x. rw (IsWidth→is_width (width p) v.class)))
    ∙ map-id (live p)

pub live_of_zero : (p : Pool) → (p.count == 0) ≡ true → live p ≡ []
live_of_zero p e = ap (λ n. take n p.cells) (eq_of_== p.count 0 e)

module _ (p : Pool) (thr : ℕ) (v : IsValid p) where
  -- On a valid pool `s2r_count_gt` counts the elements above the threshold.
  pub count_gt_exact : count_gt p thr ≡ count_if (ltb thr) (live p)
  unfolding count_gt count_if
  count_gt_exact = elim (Bool-cases (p.count == 0)) [
    | inl e ↦ rw (e, live_of_zero p e)
    | inr e ↦ elim (Bool-cases (leb (2 ^ width p - 1) thr)) [
      | inl high ↦
          rw (e, IsWidth→is_width (width p) v.class, high)
            (sym (
              count_if-none (ltb thr) (live p) (
                All-imp (λ x. x < 2 ^ width p) (λ x. ltb thr x ≡ false) (λ x h. ground arith)
                  (live p) (live-words v))))
      | inr low ↦
          rw
            (
              e,
              IsWidth→is_width (width p) v.class,
              low,
              wrap_of_lt (width p) thr (ground (arith, width_bounds (width p) v.class)),
            )
            refl
    ]
  ]

  -- On a valid pool `s2r_count_lt` counts the elements below the threshold.
  pub count_lt_exact : count_lt p thr ≡ count_if (λ a. ltb a thr) (live p)
  unfolding count_lt count_if
  count_lt_exact = elim (Bool-cases (p.count == 0)) [
    | inl e ↦ rw (e, live_of_zero p e)
    | inr e ↦ elim (Bool-cases (thr == 0)) [
      | inl z ↦
          rw (e, z)
            (sym (
              count_if-none (λ a. ltb a thr) (live p)
                (All-imp (λ x. x < 2 ^ width p) (λ x. ltb x thr ≡ false) (λ x h. ground arith)
                  (live p) (live-words v))))
      | inr nz ↦ elim (Bool-cases (ltb (2 ^ width p - 1) thr)) [
        | inl high ↦
            rw (e, nz, IsWidth→is_width (width p) v.class, high)
              (sym (length-live v)
                ∙ sym (
                    count_if-All (λ a. ltb a thr) (live p)
                      (All-imp (λ x. x < 2 ^ width p) (λ x. ltb x thr ≡ true) (λ x h. ground arith)
                        (live p) (live-words v))))
        | inr low ↦
            rw
              (
                e,
                nz,
                IsWidth→is_width (width p) v.class,
                low,
                wrap_of_lt (width p) thr (ground (arith, width_bounds (width p) v.class)),
              )
              refl
      ]
    ]
  ]

  -- On a valid pool `s2r_count_eq` counts the elements equal to the value.
  pub count_eq_exact : count_eq p thr ≡ count_if (λ a. a == thr) (live p)
  unfolding count_eq count_if
  count_eq_exact = elim (Bool-cases (p.count == 0)) [
    | inl e ↦ rw (e, live_of_zero p e)
    | inr e ↦ elim (Bool-cases (ltb (2 ^ width p - 1) thr)) [
      | inl high ↦
          rw (e, IsWidth→is_width (width p) v.class, high)
            (sym (
              count_if-none (λ a. a == thr) (live p)
                (All-imp (λ x. x < 2 ^ width p) (λ x. (x == thr) ≡ false) (λ x h. ground arith)
                  (live p) (live-words v))))
      | inr low ↦
          rw
            (
              e,
              IsWidth→is_width (width p) v.class,
              low,
              wrap_of_lt (width p) thr (ground (arith, width_bounds (width p) v.class)),
            )
            refl
    ]
  ]

module _ (p : Pool) (min_v max_v : ℕ) (v : IsValid p) where
  -- On a valid pool `s2r_count_range` counts the elements of the range, none if it is empty.
  pub count_range_exact : count_range p min_v max_v ≡ count_if (in_range min_v max_v) (live p)
  unfolding count_range count_if
  count_range_exact = elim (Bool-cases (p.count == 0)) [
    | inl e ↦ rw (e, live_of_zero p e)
    | inr e ↦ elim (Bool-cases (ltb max_v min_v)) [
      | inl none_in ↦
          rw (e, none_in)
            (sym (
              count_if-none (in_range min_v max_v) (live p) (
                All-imp (λ x. x < 2 ^ width p) (λ x. in_range min_v max_v x ≡ false)
                  (λ x h. ground arith) (live p) (live-words v))))
      | inr some_in ↦ rw (e, some_in, elements-live v) refl
    ]
  ]

-- On a valid pool the scalar counts are those of the elements: `s2r_count_gt` above and `s2r_count_lt`
-- below the threshold, `s2r_count_eq` equal to it, and `s2r_count_range` in the range, which may be
-- empty.
pub counts_exact :
    (p : Pool)
    → IsValid p
    → (thr min_v max_v : ℕ)
    → (count_gt p thr ≡ count_if (ltb thr) (live p))
      × (count_lt p thr ≡ count_if (λ a. ltb a thr) (live p))
      × (count_eq p thr ≡ count_if (λ a. a == thr) (live p))
      × (count_range p min_v max_v ≡ count_if (in_range min_v max_v) (live p))
counts_exact p v thr min_v max_v = (
  count_gt_exact p thr v,
  count_lt_exact p thr v,
  count_eq_exact p thr v,
  count_range_exact p min_v max_v v,
)

-- Tests that add up at each element add up in number.
abbrev pub bit : Bool → ℕ
bit b = if b then 1 else 0

module _ {ℓ} {A : Type ℓ} where
  pub count_if-add :
      (s t u : A → Bool) (xs : List A)
      → All (λ x. bit (s x) + bit (t x) ≡ bit (u x)) xs
      → count_if s xs + count_if t xs ≡ count_if u xs
  unfolding count_if
  count_if-add s t u [] h = refl
  count_if-add s t u (x ∷ xs) h = omega (arith, h.0, count_if-add s t u xs h.1)

  pub count_if-le-length : (s : A → Bool) (xs : List A) → count_if s xs ≤ length xs
  unfolding count_if
  count_if-le-length s [] = omega arith
  count_if-le-length s (x ∷ xs) = ground (arith, count_if-le-length s xs)

pub count_if-map {ℓ κ} :
    {A : Type ℓ} {B : Type κ} (test : B → Bool) (f : A → B) (xs : List A)
    → count_if test (map f xs) ≡ count_if (λ x. test (f x)) xs
unfolding count_if
count_if-map test f [] = refl
count_if-map test f (x ∷ xs) = ap (λ n. bit (test (f x)) + n) (count_if-map test f xs)
