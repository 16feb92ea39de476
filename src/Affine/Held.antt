-- ===== src/Affine/Held.antt =====
-- What a column of include/smart2raw.h that was built says of the values it was built from.
--
-- The order of the values is that of their keys: a uint64_t is its own, and an int64_t has that of
-- its word with the top bit turned over.
use smart2raw.Base.{
  ltb, leb, ◌==◌, if◌then◌else◌, Bool-cases, All, All-imp, ℤ, ltb_ℤ, leb_ℤ, eqb_ℤ, wrap_sub, to_u64,
  Fits, to_u64-lt, ℕ, ◌+◌, ◌-◌, ◌%◌, ◌^◌, ◌≤◌, ◌<◌, ◌≡◌, refl, sym, ap, subst, ◌∙◌, inl, inr, Bool,
  true, false, List, [], ◌∷◌, map, arith,
}
use smart2raw.Affine.{Affine, column_lt, column_le, distance}
use smart2raw.Affine.Build.{offsets, IsColumn}

abbrev pub signed_key : ℤ → ℕ
signed_key v = (to_u64 v + 2 ^ 63) % 2 ^ 64

abbrev pub key_of : Bool → ℤ → ℕ
key_of sg v = if sg then signed_key v else to_u64 v

module _ {A : Type 0} (key : A → ℕ) (word : A → ℕ) where
  -- The value lies at or above the base, and its word is the base's word and the distance.
  abbrev pub IsAbove : Affine → A → Type 0
  IsAbove a v =
      let kb = key_of a.is_signed a.base in
      (kb ≤ key v) × (key v < 2 ^ 64) × (word v ≡ (to_u64 a.base + (key v - kb)) % 2 ^ 64)

pub record IsHeld {A : Type 0} (key word : A → ℕ) (a : Affine) (vs : List A) : Type 0 where
  pub base_fits : Fits 64 a.base
  pub column : IsColumn a (map (λ v. key v - key_of a.is_signed a.base) vs)
  pub above : All (IsAbove key word a) vs

pub signed_key-lt : (v : ℤ) → signed_key v < 2 ^ 64
signed_key-lt v = omega arith

pub key_of-lt : (sg : Bool) (v : ℤ) → key_of sg v < 2 ^ 64
key_of-lt true v = signed_key-lt v
key_of-lt false v = to_u64-lt v

module _ (x y : ℤ) (f : Fits 64 x) (g : Fits 64 y) where
  pub signed_key-ltb : ltb (signed_key x) (signed_key y) ≡ ltb_ℤ x y
  unfolding to_u64
  signed_key-ltb = ground arith

  pub signed_key-leb : leb (signed_key x) (signed_key y) ≡ leb_ℤ x y
  unfolding to_u64
  signed_key-leb = ground arith

  pub signed_key-eq : (signed_key x == signed_key y) ≡ eqb_ℤ x y
  unfolding to_u64
  signed_key-eq = ground arith

-- The distance of two words is that of the keys, and leads back to the word.
pub word_distance :
    (sg : Bool) (x b : ℤ)
    → key_of sg b ≤ key_of sg x
    → wrap_sub 64 (to_u64 x) (to_u64 b) ≡ key_of sg x - key_of sg b
unfolding wrap_sub
word_distance true x b h = omega (arith, to_u64-lt x, to_u64-lt b)
word_distance false x b h = omega (arith, to_u64-lt x, to_u64-lt b)

distance_back : (x b d : ℕ) → x < 2 ^ 64 → b < 2 ^ 64 → wrap_sub 64 x b ≡ d → x ≡ (b + d) % 2 ^ 64
unfolding wrap_sub
distance_back x b d h k e = omega arith

module _ (a : Affine) (x : ℤ) (f : Fits 64 x) where
  pub column_lt_key :
      (y : ℤ) → Fits 64 y → column_lt a x y ≡ ltb (key_of a.is_signed x) (key_of a.is_signed y)
  column_lt_key y h = elim (Bool-cases a.is_signed) [
    | inl s ↦ rw s (sym (signed_key-ltb x y f h))
    | inr u ↦ rw u refl
  ]

  pub column_le_key :
      (y : ℤ) → Fits 64 y → column_le a x y ≡ leb (key_of a.is_signed x) (key_of a.is_signed y)
  column_le_key y h = elim (Bool-cases a.is_signed) [
    | inl s ↦ rw s (sym (signed_key-leb x y f h))
    | inr u ↦ rw u refl
  ]

  pub distance_key :
      key_of a.is_signed a.base ≤ key_of a.is_signed x
      → distance a x ≡ key_of a.is_signed x - key_of a.is_signed a.base
  distance_key h = word_distance a.is_signed x a.base h

module _ {A : Type 0} (key : A → ℕ) (word : A → ℕ) where
  abbrev pub Placed : Bool → ℤ → A → Type 0
  Placed sg bs v =
      (key_of sg bs ≤ key v)
      × (key v < 2 ^ 64)
      × (word v < 2 ^ 64)
      × (wrap_sub 64 (word v) (to_u64 bs) ≡ key v - key_of sg bs)

  Placed-offsets :
      (sg : Bool) (bs : ℤ) (vs : List A)
      → All (Placed sg bs) vs
      → offsets (to_u64 bs) (map word vs) ≡ map (λ v. key v - key_of sg bs) vs
  Placed-offsets sg bs [] h = refl
  Placed-offsets sg bs (v ∷ vs) h = λ i. h.0.3 i ∷ Placed-offsets sg bs vs h.1 i

  pub IsHeld-of :
      (sg : Bool) (bs : ℤ) (vs : List A) (words : List ℕ) (a : Affine)
      → map word vs ≡ words
      → Fits 64 bs
      → All (Placed sg bs) vs
      → IsColumn a (offsets (to_u64 bs) words) × (a.base ≡ bs) × (a.is_signed ≡ sg)
      → IsHeld key word a vs
  IsHeld-of sg bs vs words a m f h c =
      let same : key_of a.is_signed a.base ≡ key_of sg bs = rw (c.1, c.2) refl in
      record {
        base_fits = rw c.1 f;
        column =
            subst (IsColumn a)
              (ap (offsets (to_u64 bs)) (sym m)
                ∙ Placed-offsets sg bs vs h
                ∙ ap (λ k. map (λ v. key v - k) vs) (sym same))
              c.0;
        above =
            All-imp (Placed sg bs) (IsAbove key word a)
              (λ v p.
                rw (same, c.1)
                  (
                    p.0,
                    p.1,
                    distance_back (word v) (to_u64 bs) (key v - key_of sg bs) p.2 (to_u64-lt bs)
                        p.3,
                  ))
              vs h;
      }
