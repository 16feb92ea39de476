-- ===== src/Order/Facts.antt =====
-- s2r_mark_sorted of include/smart2raw.h.
use smart2raw.Base.{
  ltb, Bool-cases, length, length-map, All-of, ℤ, ltb_ℤ, pos, ℕ, ◌<◌, ◌≡◌, refl, sym, subst, ◌⊎◌,
  inl, inr, true, false, List, [], ◌∷◌, map, arith,
}
use smart2raw.Pool.{Pool, is_signed, live, read, read_signed}
use smart2raw.Pool.Valid.{IsValid, length-live}
use smart2raw.Scan.{elements, signed_elements}
use smart2raw.Scan.Exact.{map-congr}
use smart2raw.Known.{key, values, AscendingFrom, Ascending, IsKnown, key_unsigned, key_signed}
use smart2raw.Order.{
  ascending_from, ascending_from_ℤ, ascending, ascending_ℤ, in_order, with_order, mark_sorted,
}

ascending_from_ℤ-Ascending :
    (v : ℤ) (vs : List ℤ) → ascending_from_ℤ v vs ≡ true → AscendingFrom v vs
unfolding ascending_from_ℤ
ascending_from_ℤ-Ascending v [] h = tt
ascending_from_ℤ-Ascending v (w ∷ ws) h = elim (Bool-cases (ltb_ℤ w v)) [
  | inl e ↦ absurd (cc (rw e at h))
  | inr e ↦ (ground arith, ascending_from_ℤ-Ascending w ws (rw e at h))
]

ascending_from-Ascending :
    (v : ℕ) (vs : List ℕ) → ascending_from v vs ≡ true → AscendingFrom (pos v) (map pos vs)
unfolding ascending_from
ascending_from-Ascending v [] h = tt
ascending_from-Ascending v (w ∷ ws) h = elim (Bool-cases (ltb w v)) [
  | inl e ↦ absurd (cc (rw e at h))
  | inr e ↦ (ground arith, ascending_from-Ascending w ws (rw e at h))
]

ascending_ℤ-Ascending : (vs : List ℤ) → ascending_ℤ vs ≡ true → Ascending vs
unfolding ascending_ℤ
ascending_ℤ-Ascending [] h = tt
ascending_ℤ-Ascending (v ∷ vs) h = ascending_from_ℤ-Ascending v vs h

ascending-Ascending : (vs : List ℕ) → ascending vs ≡ true → Ascending (map pos vs)
unfolding ascending
ascending-Ascending [] h = tt
ascending-Ascending (v ∷ vs) h = ascending_from-Ascending v vs h

short-Ascending : (vs : List ℤ) → length vs < 2 → Ascending vs
short-Ascending [] h = tt
short-Ascending (v ∷ []) h = tt
short-Ascending (v ∷ (w ∷ ws)) h = absurd (omega arith)

map_pos :
    (f : ℕ → ℤ) (g : ℕ → ℕ) (xs : List ℕ)
    → ((x : ℕ) → f x ≡ pos (g x))
    → map f xs ≡ map pos (map g xs)
map_pos f g [] h = refl
map_pos f g (x ∷ xs) h = cc (h x, map_pos f g xs h)

-- The values that the flags speak of are those that the loops read.
pub values_signed : (p : Pool) → is_signed p ≡ true → values p ≡ signed_elements p
values_signed p s =
    map-congr (key p) (read_signed p) (live p)
      (All-of (λ x. key p x ≡ read_signed p x) (λ x. key_signed p x s) (live p))

pub values_unsigned : (p : Pool) → is_signed p ≡ false → values p ≡ map pos (elements p)
values_unsigned p u = map_pos (key p) (read p) (live p) (λ x. key_unsigned p x u)

in_order-Ascending : (p : Pool) → in_order p ≡ true → Ascending (values p)
in_order-Ascending p h = elim (Bool-cases (is_signed p)) [
  | inl s ↦
      subst Ascending (sym (values_signed p s))
        (ascending_ℤ-Ascending (signed_elements p) (rw s at h))
  | inr u ↦
      subst Ascending (sym (values_unsigned p u)) (ascending-Ascending (elements p) (rw u at h))
]

with_order-IsKnown : {p : Pool} → IsKnown p → Ascending (values p) → IsKnown (with_order p)
with_order-IsKnown {p} k a = record { order = λ e. a; extent = k.extent }

-- On a valid pool whose flags are true of its elements, `s2r_mark_sorted` leaves them true; it answers
-- true over elements in order, with SORTED raised, or false, and the pool is as it was.
pub mark_sorted-IsKnown :
    {p : Pool}
    → IsValid p
    → IsKnown p
    → let (done, q) = mark_sorted p in
      IsKnown q
      × ((done ≡ true) × Ascending (values q) × (q.flags.sorted ≡ true) ⊎ (done ≡ false) × (q ≡ p))
unfolding mark_sorted
mark_sorted-IsKnown {p} v k = elim (Bool-cases p.flags.sorted) [
  | inl e ↦ simp (e) (k, inl (refl, k.order e, refl))
  | inr e ↦ elim (Bool-cases (ltb p.count 2)) [
    | inl f ↦
        let a =
          short-Ascending (values p) (ground (arith, length-map (key p) (live p), length-live v)) in
        simp (e, f) (with_order-IsKnown k a, inl (refl, a, refl))
    | inr f ↦ elim (Bool-cases (in_order p)) [
      | inl g ↦
          let a = in_order-Ascending p g in
          simp (e, f, g) (with_order-IsKnown k a, inl (refl, a, refl))
      | inr g ↦ simp (e, f, g) (k, inr (refl, refl))
    ]
  ]
]
