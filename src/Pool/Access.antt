-- ===== src/Pool/Access.antt =====
-- s2r_set and s2r_get of include/smart2raw.h.
use smart2raw.Base.Lists
use smart2raw.Base.{
  ◌==◌, if◌then◌else◌, Bool-cases, eq_of_==, get_or, length-set, get_or-set_self, get_or-set_ne,
  All-set, IsWidth, IsWidth→is_width, wrap, wrap-lt, ℕ, ◌^◌, ◌<◌, ◌≡◌, refl, sym, ◌∙◌, inl, inr,
  arith,
}
use smart2raw.Pool.{Pool, width, get, touched, set}
use smart2raw.Pool.Valid.{IsValid}

abbrev pub written : Pool → ℕ → ℕ → Pool
written p i v = record (touched p) { cells = Lists.set p.cells i (wrap (width p) v) }

pub set_lem : (p : Pool) (i v : ℕ) → IsWidth (width p) → set p i v ≡ written p i v
unfolding set
set_lem p i v h = rw (IsWidth→is_width (width p) h) refl

pub written-IsValid : (p : Pool) (i v : ℕ) → IsValid p → IsValid (written p i v)
written-IsValid p i v h =
    let l = length-set p.cells i (wrap (width p) v) in
    record {
      class = h.class;
      room = h.room;
      cap_cells = omega (arith, l, h.cap_cells);
      cells_bytes = l ∙ h.cells_bytes;
      small = h.small;
      words =
          All-set (λ x. x < 2 ^ width p) p.cells i (wrap (width p) v) (wrap-lt (width p) v h.class)
            h.words;
    }

-- A write by `s2r_set` keeps a valid pool valid.
pub set-IsValid : (p : Pool) (i v : ℕ) → IsValid p → IsValid (set p i v)
set-IsValid p i v h = rw (set_lem p i v h.class) (written-IsValid p i v h)

get_cell : (p : Pool) (j : ℕ) → IsWidth (width p) → get p j ≡ get_or p.cells j 0
unfolding get
get_cell p j h = rw (IsWidth→is_width (width p) h) refl

-- On a valid pool, after `s2r_set` of an element in use `s2r_get` reads there the value cast to the class,
-- and at every other index what it read before; the pool stays valid, with the same count.
pub get-set :
    (p : Pool) (i j v : ℕ)
    → IsValid p
    → i < p.count
    → IsValid (set p i v)
      × ((set p i v).count ≡ p.count)
      × (get (set p i v) j ≡ (if i == j then wrap (width p) v else get p j))
get-set p i j v h l =
    let q = written p i v in
    let x = wrap (width p) v in
    rw (set_lem p i v h.class) (
      written-IsValid p i v h,
      refl,
      get_cell q j h.class ∙ elim (Bool-cases (i == j)) [
        | inl e ↦
            rw (e, ← eq_of_== i j e)
              (get_or-set_self p.cells i x 0 (omega (arith, h.room, h.cap_cells)))
        | inr n ↦
            rw n (get_or-set_ne p.cells i j x 0 (λ t. ground arith) ∙ sym (get_cell p j h.class))
      ],
    )
