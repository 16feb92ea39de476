-- ===== src/Affine/RoundTrip.antt =====
-- s2r_affine_get and s2r_affine_get_signed of include/smart2raw.h, against the array of the build.
use smart2raw.Base.{
  leb, Bool-cases, length, get_or, All, get_or-take, length-map, All-get_or, All-get_or_in,
  get_or-map, ℤ, pos, IsWidth→is_width, wrap_add, wrap_mul, sx, to_u64, wrap_mul_of_lt, Fits,
  to_u64-lt, ℕ, ◌+◌, ◌-◌, ◌*◌, ◌%◌, ◌^◌, ◌<◌, ◌≡◌, refl, sym, ap, ◌∙◌, inl, inr, Bool, true, false,
  List, arith,
}
use smart2raw.Pool.{width, live, get}
use smart2raw.Pool.Valid.{length-live}
use smart2raw.Affine.{Affine, affine_build, affine_build_signed, affine_get, affine_get_signed}
use smart2raw.Affine.Build.{IsColumn}
use smart2raw.Affine.Held.{key_of, IsAbove, IsHeld}
use smart2raw.Affine.Arrays.{affine_build-IsHeld, affine_build_signed-IsHeld}

pub sx-to_u64 : (v : ℤ) → Fits 64 v → sx 64 (to_u64 v) ≡ v
unfolding sx to_u64
sx-to_u64 v f = ground arith

module _ {a : Affine} {offs : List ℕ} (c : IsColumn a offs) where
  length_indices : a.is_const ≡ false → a.idx.count ≡ length offs
  length_indices n =
      let v = c.valid n in
      sym (length-live v)
      ∙ sym (length-map (λ x. a.stride * x) (live a.idx))
      ∙ ap length (c.spread n)

  index_spread :
      (n : a.is_const ≡ false) (i : ℕ)
      → i < length offs
      → wrap_mul 64 a.stride (get a.idx i) ≡ get_or offs i 0
  unfolding get
  index_spread n i l =
      let v = c.valid n in
      let lc = length_indices n in
      let x = get_or (live a.idx) i 0 in
      let e : a.stride * x ≡ get_or offs i 0 =
        sym (get_or-map (λ y. a.stride * y) (live a.idx) i 0 0 (omega (arith, lc, length-live v)))
        ∙ ap (λ xs. get_or xs i 0) (c.spread n) in
      let b = All-get_or (λ o. o < 2 ^ 64) offs i 0 (omega arith) c.words in
      rw
        (
          IsWidth→is_width (width a.idx) v.class,
          ← get_or-take a.idx.count a.idx.cells i 0 (omega (arith, lc)),
        )
        (wrap_mul_of_lt 64 a.stride x (omega (arith, e, b)) ∙ e)

  column_get :
      (i : ℕ) → i < length offs → affine_get a i ≡ (to_u64 a.base + get_or offs i 0) % 2 ^ 64
  unfolding affine_get wrap_add
  column_get i l =
      let t : leb a.count i ≡ false = ground (arith, c.counted) in
      elim (Bool-cases a.is_const) [
        | inl k ↦
            let z = All-get_or (λ o. o ≡ 0) offs i 0 refl (c.constant k) in
            rw (t, k, z) (omega (arith, to_u64-lt a.base))
        | inr n ↦ rw (t, n, index_spread n i l) refl
      ]

  column_get_signed :
      (i : ℕ) → i < length offs → Fits 64 a.base → affine_get_signed a i ≡ sx 64 (affine_get a i)
  unfolding affine_get affine_get_signed
  column_get_signed i l f =
      let t : leb a.count i ≡ false = ground (arith, c.counted) in
      elim (Bool-cases a.is_const) [
        | inl k ↦ rw (t, k) (sym (sx-to_u64 a.base f))
        | inr n ↦ rw (t, n) refl
      ]

module _ {A : Type 0} {key word : A → ℕ} {a : Affine} {vs : List A} (h : IsHeld key word a vs)
    (d : A) where
  held_get : (i : ℕ) → i < length vs → affine_get a i ≡ word (get_or vs i d)
  held_get i l =
      let off : A → ℕ = λ v. key v - key_of a.is_signed a.base in
      let lm = length-map off vs in
      column_get h.column i (omega (arith, lm))
      ∙ ap (λ o. (to_u64 a.base + o) % 2 ^ 64) (get_or-map off vs i d 0 l)
      ∙ sym (All-get_or_in (IsAbove key word a) vs i d l h.above).2

  held_get_signed : (i : ℕ) → i < length vs → affine_get_signed a i ≡ sx 64 (word (get_or vs i d))
  held_get_signed i l =
      let lm = length-map (λ v. key v - key_of a.is_signed a.base) vs in
      column_get_signed h.column i (omega (arith, lm)) h.base_fits ∙ ap (sx 64) (held_get i l)

module _ (alloc : ℕ → Bool) where
  -- Every value of an array of fewer than 2^60 numbers of 64 bits that `s2r_affine_build` takes is
  -- what `s2r_affine_get` reads at its index.
  pub affine_get-affine_build :
      (src : List ℕ)
      → All (λ x. x < 2 ^ 64) src
      → length src < 2 ^ 60
      → (affine_build alloc src).0 ≡ true
      → (i : ℕ) → i < length src
      → affine_get (affine_build alloc src).1 i ≡ get_or src i 0
  affine_get-affine_build src b f e i l = held_get (affine_build-IsHeld alloc src b f e) 0 i l

  -- Every value of an array of fewer than 2^60 int64_t values that `s2r_affine_build_signed` takes is
  -- what `s2r_affine_get_signed` reads at its index.
  pub affine_get_signed-affine_build_signed :
      (src : List ℤ)
      → All (Fits 64) src
      → length src < 2 ^ 60
      → (affine_build_signed alloc src).0 ≡ true
      → (i : ℕ) → i < length src
      → affine_get_signed (affine_build_signed alloc src).1 i ≡ get_or src i (pos 0)
  affine_get_signed-affine_build_signed src b f e i l =
      held_get_signed (affine_build_signed-IsHeld alloc src b f e) (pos 0) i l
      ∙ sx-to_u64 (get_or src i (pos 0)) (All-get_or_in (Fits 64) src i (pos 0) l b)
