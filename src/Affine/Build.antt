-- ===== src/Affine/Build.antt =====
-- s2r__affine_build of include/smart2raw.h: what the structure holds.
use native.Mathlib.Nat.{div-le_self}
use smart2raw.Base.{
  ◌==◌, Bool-cases, eq_of_==, length, take, All, length-map, All-imp, All-map_of, ℤ, pos, wrap_sub,
  to_u64, wrap_sub-lt, ℕ, ◌*◌, ◌^◌, ◌≤◌, ◌<◌, ◌≡◌, refl, sym, ap, subst, ◌∙◌, inl, inr, Bool, true,
  false, List, [], ◌∷◌, map, arith,
}
use smart2raw.Class.{s8, abs_size, max_value, classify, max_from}
use smart2raw.Class.Least.{classify-least, max_from-bound, max_from-lt}
use smart2raw.Pool.{Pool, width, class_flags, blank, live, pool_init}
use smart2raw.Pool.Valid.{IsValid}
use smart2raw.Pool.Memory.{few-Requestable, pool_init-IsValid}
use smart2raw.Known.{IsKnown}
use smart2raw.Arith.Convert.{wraps_back, under_limit}
use smart2raw.Affine.{Affine, index_of, set_from, affine_from}
use smart2raw.Affine.Steps.{StepOf, index_of-stride}
use smart2raw.Affine.Indices.{set_from-Filled, unflagged-IsKnown, set_from-flags}

abbrev pub offsets : ℕ → List ℕ → List ℕ
offsets mn words = map (λ x. wrap_sub 64 x mn) words

-- The columns whose values are `offs` above the base.
pub record IsColumn (a : Affine) (offs : List ℕ) : Type 0 where
  pub step : 0 < a.stride
  pub counted : a.count ≡ length offs
  pub few : length offs < 2 ^ 60
  pub words : All (λ o. o < 2 ^ 64) offs
  pub constant : a.is_const ≡ true → All (λ o. o ≡ 0) offs
  pub valid : a.is_const ≡ false → IsValid a.idx
  pub known : a.is_const ≡ false → IsKnown a.idx
  pub spread : a.is_const ≡ false → map (λ x. a.stride * x) (live a.idx) ≡ offs

pub index_of-lt : (bs st x : ℕ) → index_of bs st x < 2 ^ 64
index_of-lt bs st x =
    ground (arith, wrap_sub-lt 64 x bs (omega arith), div-le_self (wrap_sub 64 x bs) st)

spread_lem :
    (bs st : ℕ) (words : List ℕ)
    → 0 < st
    → StepOf st bs words
    → map (λ x. st * x) (map (index_of bs st) words) ≡ offsets bs words
spread_lem bs st [] p h = refl
spread_lem bs st (x ∷ xs) p h = λ i. index_of-stride bs st x p h.0 i ∷ spread_lem bs st xs p h.1 i

constant_lem :
    (bs st : ℕ) (words : List ℕ)
    → 0 < st
    → StepOf st bs words
    → All (λ x. x ≤ 0) (map (index_of bs st) words)
    → All (λ o. o ≡ 0) (offsets bs words)
constant_lem bs st [] p h z = tt
constant_lem bs st (x ∷ xs) p h z = (
  sym (index_of-stride bs st x p h.0) ∙ ap (λ n. st * n) {y = 0} (omega (arith, z.0)) ∙ omega arith,
  constant_lem bs st xs p h.1 z.1,
)

-- The pool of the indices after the loop.
abbrev indexed : Pool → ℕ → List ℕ → Pool
indexed p n index = record (set_from p 0 index) { count = n }

indexed_lem :
    (p : Pool) (s : ℤ) (n : ℕ) (index : List ℕ)
    → IsValid p
    → p.size ≡ s
    → length index ≡ n
    → p.capacity ≡ n
    → p.flags ≡ class_flags s
    → All (λ x. x < 2 ^ abs_size s) index
    → let q = indexed p n index in IsValid q × IsKnown q × (live q ≡ index)
indexed_lem p s n index v e l c f a =
    let q = set_from p 0 index in
    let g = set_from-Filled p 0 index v (omega (arith, l, c, v.cap_cells)) in
    let fl = set_from-flags p 0 index v.class (ap (λ x. x.sorted) f) (ap (λ x. x.summary) f) in
    let h = g.0 in
    (
      record {
        class = h.class;
        room = omega (arith, c, g.1.1);
        cap_cells = h.cap_cells;
        cells_bytes = h.cells_bytes;
        small = h.small;
        words = h.words;
      },
      unflagged-IsKnown (indexed p n index) fl.0 fl.1,
      ap (λ k. take k q.cells) (omega (arith, l))
          ∙ g.2
          ∙ wraps_back (width p) index (subst (λ z. All (λ x. x < 2 ^ abs_size z) index) (sym e) a),
    )

module _ (alloc : ℕ → Bool) (sg : Bool) (words : List ℕ) (bs : ℤ) (st : ℕ) where
  -- The build from words that lie on the lattice of the stride.
  pub affine_from-IsColumn :
      0 < length words
      → length words < 2 ^ 60
      → 0 < st
      → StepOf st (to_u64 bs) words
      → (affine_from alloc sg words bs st).0 ≡ true
      → let a = (affine_from alloc sg words bs st).1 in
        IsColumn a (offsets (to_u64 bs) words) × (a.base ≡ bs) × (a.is_signed ≡ sg)
  unfolding affine_from
  affine_from-IsColumn n f p h e =
      let b = to_u64 bs in
      let index = map (index_of b st) words in
      let imax = max_from 0 index in
      let nz : (length words == 0) ≡ false = ground arith in
      let li = length-map (index_of b st) words in
      let lo = length-map (λ x. wrap_sub 64 x b) words in
      let m = max_from-bound 0 index in
      let bounded =
        All-map_of (λ x. wrap_sub 64 x b) (λ o. o < 2 ^ 64) (λ x. wrap_sub-lt 64 x b (omega arith))
          words in
      elim (Bool-cases (imax == 0)) [
        | inl z ↦
            rw (affine_from, nz, z)
              (
                record {
                  step = p;
                  counted = sym lo;
                  few = omega (arith, lo);
                  words = bounded;
                  constant = λ t.
                      constant_lem b st words p h
                        (subst (λ k. All (λ x. x ≤ k) index) (eq_of_== imax 0 z) m.1);
                  valid = λ t. absurd (cc t);
                  known = λ t. absurd (cc t);
                  spread = λ t. absurd (cc t);
                },
                refl,
                refl,
              )
        | inr nc ↦
            let s = classify imax in
            let start = pool_init alloc (blank (pos 0) 0) s (length words) in
            let c = classify-least imax (
              max_from-lt (2 ^ 64) 0 index (omega arith)
                (All-map_of (index_of b st) (λ x. x < 2 ^ 64) (index_of-lt b st) words)) in
            let fit = under_limit s c.0 index (
              All-imp (λ x. x ≤ imax) (λ x. x ≤ max_value s) (λ x k. omega (arith, c.1)) index
                m.1) in
            elim (Bool-cases start.0) [
              | inr oom ↦ absurd (cc (rw (affine_from, nz, nc, oom) at e))
              | inl got ↦
                  let i =
                    pool_init-IsValid alloc (blank (pos 0) 0) s (length words) c.0
                      (few-Requestable (abs_size s) c.0 (length words) f) got in
                  let q = indexed_lem start.1 s (length words) index i.0 i.1 li i.2 i.4 fit in
                  rw (affine_from, nz, nc, got)
                    (
                      record {
                        step = p;
                        counted = sym lo;
                        few = omega (arith, lo);
                        words = bounded;
                        constant = λ t. absurd (cc t);
                        valid = λ t. q.0;
                        known = λ t. q.1;
                        spread = λ t. ap (map (λ x. st * x)) q.2 ∙ spread_lem b st words p h;
                      },
                      refl,
                      refl,
                    )
            ]
      ]

  -- A column of no values has a pool for one index, and holds none.
  pub affine_from-empty :
      length words ≡ 0
      → (affine_from alloc sg words bs st).0 ≡ true
      → let a = (affine_from alloc sg words bs st).1 in
        IsColumn a [] × (a.base ≡ pos 0) × (a.is_signed ≡ sg)
  unfolding affine_from
  affine_from-empty n e =
      let z : (length words == 0) ≡ true = ground arith in
      let start = pool_init alloc (blank (pos 0) 0) s8 1 in
      let got : start.0 ≡ true = rw (affine_from, z) at e in
      let i = pool_init-IsValid alloc (blank (pos 0) 0) s8 1 (omega arith) (omega arith) got in
      rw (affine_from, z)
        (
          record {
            step = omega arith;
            counted = n;
            few = omega arith;
            words = tt;
            constant = λ t. absurd (cc t);
            valid = λ t. i.0;
            known =
                λ t. unflagged-IsKnown start.1 (ap (λ x. x.sorted) i.4) (ap (λ x. x.summary) i.4);
            spread = λ t. ap (map (λ x. 1 * x)) (ap (λ k. take k start.1.cells) i.3);
          },
          refl,
          refl,
        )

  pub affine_from-is_signed : (affine_from alloc sg words bs st).1.is_signed ≡ sg
  unfolding affine_from
  affine_from-is_signed =
      let imax = max_from 0 (map (index_of (to_u64 bs) st) words) in
      let start = pool_init alloc (blank (pos 0) 0) (classify imax) (length words) in
      elim (Bool-cases (length words == 0)) [
        | inl e ↦ rw (affine_from, e) refl
        | inr n ↦ elim (Bool-cases (imax == 0)) [
          | inl z ↦ rw (affine_from, n, z) refl
          | inr m ↦ elim (Bool-cases start.0) [
            | inl g ↦ rw (affine_from, n, m, g) refl
            | inr f ↦ rw (affine_from, n, m, f) refl
          ]
        ]
      ]
