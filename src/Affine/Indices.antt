-- ===== src/Affine/Indices.antt =====
-- The loop of s2r__affine_build of include/smart2raw.h that writes the indices.
use smart2raw.Base.{
  length, take, length-set, take-set_next, IsWidth, wrap, ℕ, ◌+◌, ◌≤◌, ◌≡◌, refl, sym, ap, ◌∙◌,
  false, List, [], ◌∷◌, ◌++◌, map, append-nil, append_assoc, arith,
}
use smart2raw.Pool.{Pool, width}
use smart2raw.Pool.Valid.{IsValid}
use smart2raw.Known.{IsKnown}
use smart2raw.Affine.{set_from}
use smart2raw.Pool.Access.{written, set_lem, written-IsValid}

abbrev SameShape : Pool → Pool → Type 0
SameShape p q = (q.size ≡ p.size) × (q.capacity ≡ p.capacity) × (length q.cells ≡ length p.cells)

-- The loop writes the cells from `i` on, and keeps the shape of the pool.
abbrev Filled : Pool → ℕ → List ℕ → Pool → Type 0
Filled p i vs q =
    IsValid q
    × SameShape p q
    × (take (i + length vs) q.cells ≡ take i p.cells ++ map (wrap (width p)) vs)

pub set_from-Filled :
    (p : Pool) (i : ℕ) (vs : List ℕ)
    → IsValid p
    → i + length vs ≤ length p.cells
    → Filled p i vs (set_from p i vs)
unfolding set_from
set_from-Filled p i [] h fits = (
  h,
  (refl, refl, refl),
  ap (λ n. take n p.cells) (omega arith) ∙ sym (append-nil (take i p.cells)),
)
set_from-Filled p i (v ∷ vs) h fits =
    let q = written p i v in
    let w = width p in
    let l = length-set p.cells i (wrap w v) in
    let ih = set_from-Filled q (i + 1) vs (written-IsValid p i v h) (omega (arith, l)) in
    rw (set_from, set_lem p i v h.class)
      (
        ih.0,
        (ih.1.0, ih.1.1, ih.1.2 ∙ l),
        ap (λ n. take n (set_from q (i + 1) vs).cells) (omega arith)
            ∙ ih.2
            ∙ ap (λ xs. xs ++ map (wrap w) vs) (take-set_next i p.cells (wrap w v) (omega arith))
            ∙ append_assoc (take i p.cells) (wrap w v ∷ []) (map (wrap w) vs),
      )

pub unflagged-IsKnown : (p : Pool) → p.flags.sorted ≡ false → p.flags.summary ≡ false → IsKnown p
unflagged-IsKnown p s m = record {
  order = λ e. absurd (cc (s, e));
  extent = λ e. absurd (cc (m, e));
}

-- The loop leaves no flag on the pool, where there was none.
pub set_from-flags :
    (p : Pool) (i : ℕ) (vs : List ℕ)
    → IsWidth (width p)
    → p.flags.sorted ≡ false
    → p.flags.summary ≡ false
    → let q = set_from p i vs in (q.flags.sorted ≡ false) × (q.flags.summary ≡ false)
unfolding set_from
set_from-flags p i [] h s m = (s, m)
set_from-flags p i (v ∷ vs) h s m =
    rw (set_from, set_lem p i v h) (set_from-flags (written p i v) (i + 1) vs h refl refl)
