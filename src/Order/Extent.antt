-- ===== src/Order/Extent.antt =====
-- s2r_summarize of include/smart2raw.h.
use smart2raw.Base.{
  ltb, ◌==◌, if◌then◌else◌, Bool-cases, get_or, All, get_or-take, get_or-map, ℤ, ltb_ℤ, pos,
  IsWidth, IsWidth→is_width, wrap_add, sx, to_u64, width_bounds, wrap_of_lt, Fits, sx-Fits,
  to_u64-lt, sx-wrap-to_u64, ℕ, ◌^◌, ◌<◌, ◌≡◌, refl, sym, ap, subst₂, ◌∙◌, inl, inr, true, false,
  List, [], ◌∷◌, map, arith,
}
use smart2raw.Class.{max_from, min_from, max_from_ℤ, min_from_ℤ}
use smart2raw.Class.Least.{max_from_ℤ-Fits, min_from_ℤ-Fits}
use smart2raw.Pool.{Pool, width, is_neg, is_signed, live, read, read_signed, get, get_signed}
use smart2raw.Pool.Valid.{IsValid, live-words, length-live}
use smart2raw.Scan.{sum_from, elements, signed_elements}
use smart2raw.Scan.Exact.{live_of_zero}
use smart2raw.Known.{values, bound, sum_u64, Current, IsKnown}
use smart2raw.Order.{summarize}
use smart2raw.Order.Facts.{values_signed, values_unsigned}

lesser-pos :
    (x m : ℕ) → (if ltb_ℤ (pos x) (pos m) then pos x else pos m) ≡ pos (if ltb x m then x else m)
lesser-pos x m = ground arith

greater-pos :
    (x m : ℕ) → (if ltb_ℤ (pos m) (pos x) then pos x else pos m) ≡ pos (if ltb m x then x else m)
greater-pos x m = ground arith

min_from_ℤ-pos : (m : ℕ) (xs : List ℕ) → min_from_ℤ (pos m) (map pos xs) ≡ pos (min_from m xs)
unfolding min_from_ℤ min_from
min_from_ℤ-pos m [] = refl
min_from_ℤ-pos m (x ∷ xs) =
    ap (λ y. min_from_ℤ y (map pos xs)) (lesser-pos x m)
    ∙ min_from_ℤ-pos (if ltb x m then x else m) xs

max_from_ℤ-pos : (m : ℕ) (xs : List ℕ) → max_from_ℤ (pos m) (map pos xs) ≡ pos (max_from m xs)
unfolding max_from_ℤ max_from
max_from_ℤ-pos m [] = refl
max_from_ℤ-pos m (x ∷ xs) =
    ap (λ y. max_from_ℤ y (map pos xs)) (greater-pos x m)
    ∙ max_from_ℤ-pos (if ltb m x then x else m) xs

wrap_add-to_u64_pos : (a x : ℕ) → wrap_add 64 a (to_u64 (pos x)) ≡ wrap_add 64 a x
unfolding wrap_add to_u64
wrap_add-to_u64_pos a x = omega arith

sum_u64-pos : (acc : ℕ) (xs : List ℕ) → sum_u64 acc (map pos xs) ≡ sum_from acc xs
unfolding sum_u64 sum_from
sum_u64-pos acc [] = refl
sum_u64-pos acc (x ∷ xs) =
    ap (λ a. sum_u64 a (map pos xs)) (wrap_add-to_u64_pos acc x)
    ∙ sum_u64-pos (wrap_add 64 acc x) xs

unsigned_extent :
    (vs : List ℕ)
    → let x = get_or vs 0 0 in
      Current (pos (min_from x vs)) (pos (max_from x vs)) (sum_from 0 vs) (map pos vs)
unfolding min_from max_from
unsigned_extent [] = tt
unsigned_extent (v ∷ vs) = elim (Bool-cases (ltb v v)) [
  | inl e ↦ absurd (ground arith)
  | inr e ↦
      rw e (sym (min_from_ℤ-pos v vs), sym (max_from_ℤ-pos v vs), sym (sum_u64-pos 0 (v ∷ vs)))
]

back : (v : ℤ) → Fits 64 v → sx 64 (to_u64 v) ≡ v
back v h =
    ap (sx 64) (sym (wrap_of_lt 64 (to_u64 v) (to_u64-lt v))) ∙ sx-wrap-to_u64 64 (ground arith) v h

signed_extent :
    (vs : List ℤ)
    → All (Fits 64) vs
    → let x = get_or vs 0 (pos 0) in
      Current
        (sx 64 (to_u64 (min_from_ℤ x vs)))
        (sx 64 (to_u64 (max_from_ℤ x vs)))
        (sum_u64 0 vs)
        vs
unfolding min_from_ℤ max_from_ℤ
signed_extent [] h = tt
signed_extent (v ∷ vs) h = elim (Bool-cases (ltb_ℤ v v)) [
  | inl e ↦ absurd (ground arith)
  | inr e ↦ rw e (
    back (min_from_ℤ v vs) (min_from_ℤ-Fits 64 v vs h.0 h.1),
    back (max_from_ℤ v vs) (max_from_ℤ-Fits 64 v vs h.0 h.1),
    refl,
  )
]

Fits-widen : (w : ℕ) → IsWidth w → (v : ℤ) → Fits w v → Fits 64 v
Fits-widen w h v f = ground (arith, width_bounds w h)

read_signed-Fits : {p : Pool} → IsValid p → (x : ℕ) → x < 2 ^ width p → Fits 64 (read_signed p x)
read_signed-Fits {p} v x b = elim (Bool-cases (is_neg p.size)) [
  | inl e ↦
      rw (e, IsWidth→is_width (width p) v.class)
        (Fits-widen (width p) v.class (sx (width p) x) (sx-Fits (width p) x b))
  | inr e ↦
      rw (e, IsWidth→is_width (width p) v.class)
        (sx-Fits 64 x (omega (arith, width_bounds (width p) v.class)))
]

All-map_from :
    (f : ℕ → ℤ) (P : ℕ → Type 0) (Q : ℤ → Type 0)
    → ((x : ℕ) → P x → Q (f x))
    → (xs : List ℕ) → All P xs
    → All Q (map f xs)
All-map_from f P Q g [] h = tt
All-map_from f P Q g (x ∷ xs) h = (g x h.0, All-map_from f P Q g xs h.1)

signed-Fits : {p : Pool} → IsValid p → All (Fits 64) (signed_elements p)
signed-Fits {p} v =
    All-map_from (read_signed p) (λ x. x < 2 ^ width p) (Fits 64) (read_signed-Fits v) (live p)
      (live-words v)

module _ {p : Pool} (v : IsValid p) (some_in : (p.count == 0) ≡ false) where
  first_signed : get_or (signed_elements p) 0 (pos 0) ≡ get_signed p 0
  unfolding get_signed
  first_signed =
      get_or-map (read_signed p) (live p) 0 0 (pos 0) (ground (arith, length-live v))
      ∙ ap (read_signed p) (get_or-take p.count p.cells 0 0 (ground arith))

  first_unsigned : get_or (elements p) 0 0 ≡ get p 0
  unfolding get
  first_unsigned =
      get_or-map (read p) (live p) 0 0 0 (ground (arith, length-live v))
      ∙ ap (read p) (get_or-take p.count p.cells 0 0 (ground arith))

  signed_summary :
      is_signed p ≡ true
      → let x = get_signed p 0 in
        let xs = signed_elements p in
        Current
          (bound p (to_u64 (min_from_ℤ x xs)))
          (bound p (to_u64 (max_from_ℤ x xs)))
          (sum_u64 0 xs)
          (values p)
  signed_summary s =
      let xs = signed_elements p in
      rw s (
        subst₂
          (λ x vs.
            Current (sx 64 (to_u64 (min_from_ℤ x xs))) (sx 64 (to_u64 (max_from_ℤ x xs)))
              (sum_u64 0 xs) vs)
          first_signed (sym (values_signed p s)) (signed_extent xs (signed-Fits v)))

  unsigned_summary :
      is_signed p ≡ false
      → let x = get p 0 in
        let xs = elements p in
        Current (bound p (min_from x xs)) (bound p (max_from x xs)) (sum_from 0 xs) (values p)
  unsigned_summary u =
      let xs = elements p in
      rw u (
        subst₂ (λ x vs. Current (pos (min_from x xs)) (pos (max_from x xs)) (sum_from 0 xs) vs)
          first_unsigned (sym (values_unsigned p u)) (unsigned_extent xs))

-- On a valid pool whose flags are true of its elements, `s2r_summarize` raises SUMMARY and leaves the
-- flags true: the fields are the least and the greatest value and the sum modulo 2^64.
pub summarize-IsKnown :
    {p : Pool}
    → IsValid p
    → IsKnown p
    → IsKnown (summarize p) × ((summarize p).flags.summary ≡ true)
unfolding summarize
summarize-IsKnown {p} v k = elim (Bool-cases p.flags.summary) [
  | inl e ↦ simp (e) (k, refl)
  | inr e ↦ elim (Bool-cases (p.count == 0)) [
    | inl z ↦ simp (e, z) (record { order = k.order; extent = λ q. rw (live_of_zero p z) tt }, refl)
    | inr n ↦ elim (Bool-cases (is_signed p)) [
      | inl s ↦
          simp (e, n, s) (record { order = k.order; extent = λ q. signed_summary v n s }, refl)
      | inr u ↦
          simp (e, n, u) (record { order = k.order; extent = λ q. unsigned_summary v n u }, refl)
    ]
  ]
]
