-- ===== src/Known/Bounds.antt =====
-- The flags SORTED and SUMMARY of include/smart2raw.h, for a reader: bounds and order at a distance.
use smart2raw.Base.{
  length, get_or, All, get_or-take, length-map, get_or-map, All-map, All-and, ℤ, ◌≤ℤ◌, pos, ℕ, zero,
  suc, ◌≤◌, ◌<◌, ◌≡◌, sym, ap, subst₂, ◌∙◌, true, List, [], ◌∷◌, arith,
}
use smart2raw.Class.{max_from_ℤ, min_from_ℤ}
use smart2raw.Class.Least.{max_from_ℤ-bound, min_from_ℤ-bound}
use smart2raw.Pool.{Pool, live}
use smart2raw.Pool.Valid.{IsValid, length-live}
use smart2raw.Known.{key, values, bound, AscendingFrom, Ascending, Current, IsKnown}

AscendingFrom-le :
    (v : ℤ) (vs : List ℤ) (j : ℕ) (d : ℤ) → AscendingFrom v vs → j < length vs → v ≤ℤ get_or vs j d
AscendingFrom-le v [] j d a h = absurd (omega arith)
AscendingFrom-le v (w ∷ ws) zero d a h = a.0
AscendingFrom-le v (w ∷ ws) (suc j) d a h =
    omega (arith, a.0, AscendingFrom-le w ws j d a.1 (omega arith))

Ascending-tail : (v : ℤ) (vs : List ℤ) → Ascending (v ∷ vs) → Ascending vs
Ascending-tail v [] a = tt
Ascending-tail v (w ∷ ws) a = a.1

pub Ascending-le :
    (vs : List ℤ) (i j : ℕ) (d : ℤ)
    → Ascending vs
    → i ≤ j
    → j < length vs
    → get_or vs i d ≤ℤ get_or vs j d
Ascending-le [] i j d a h k = absurd (omega arith)
Ascending-le (v ∷ vs) zero zero d a h k = omega arith
Ascending-le (v ∷ vs) zero (suc j) d a h k = AscendingFrom-le v vs j d a (omega arith)
Ascending-le (v ∷ vs) (suc i) zero d a h k = absurd (omega arith)
Ascending-le (v ∷ vs) (suc i) (suc j) d a h k =
    Ascending-le vs i j d (Ascending-tail v vs a) (omega arith) (omega arith)

Current-bounds :
    (lo hi : ℤ) (total : ℕ) (vs : List ℤ)
    → Current lo hi total vs
    → All (λ v. (lo ≤ℤ v) × (v ≤ℤ hi)) vs
Current-bounds lo hi total [] c = tt
Current-bounds lo hi total (v ∷ vs) c =
    let a = min_from_ℤ-bound v vs in
    let b = max_from_ℤ-bound v vs in
    subst₂ (λ lo hi. All (λ v. (lo ≤ℤ v) × (v ≤ℤ hi)) (v ∷ vs)) (sym c.0) (sym c.1)
      ((a.0, b.0), All-and (λ w. min_from_ℤ v vs ≤ℤ w) (λ w. w ≤ℤ max_from_ℤ v vs) vs a.1 b.1)

module _ {p : Pool} (v : IsValid p) (k : IsKnown p) where
  value_at : (i : ℕ) → i < p.count → get_or (values p) i (pos 0) ≡ key p (get_or p.cells i 0)
  value_at i h =
      get_or-map (key p) (live p) i 0 (pos 0) (omega (arith, length-live v))
      ∙ ap (key p) (get_or-take p.count p.cells i 0 h)

  -- A sorted pool is in order at any two places.
  pub order_at :
      (i j : ℕ)
      → p.flags.sorted ≡ true
      → i ≤ j
      → j < p.count
      → key p (get_or p.cells i 0) ≤ℤ key p (get_or p.cells j 0)
  order_at i j s h b =
      subst₂ (λ a c. a ≤ℤ c) (value_at i (omega arith)) (value_at j b)
        (Ascending-le (values p) i j (pos 0) (k.order s) h
          (omega (arith, length-map (key p) (live p), length-live v)))

  -- The summary bounds every element.
  pub extent_bounds :
      p.flags.summary ≡ true
      → All (λ x. (bound p p.smin ≤ℤ key p x) × (key p x ≤ℤ bound p p.smax)) (live p)
  extent_bounds s =
      All-map (key p) (λ v. (bound p p.smin ≤ℤ v) × (v ≤ℤ bound p p.smax)) (live p)
        (Current-bounds (bound p p.smin) (bound p p.smax) p.ssum (values p) (k.extent s))
