-- ===== src/Class/Least.antt =====
-- The classifiers of include/smart2raw.h: the least class.
use smart2raw.Base.{
  ℕ, ◌≤◌, ◌<◌, ◌^◌, ◌≡◌, refl, inl, inr, List, [], ◌∷◌, arith, ltb, if◌then◌else◌, All, ℤ, pos_part,
  neg_part, pos, ◌≤ℤ◌, ltb_ℤ, IsWidth, IsI64, Fits, ◌*◌, ◌+◌, negsuc, All-imp, pow_mono, subst, sym,
}
use smart2raw.Class.{
  abs_size, max_value, min_signed, max_signed, classify, classify_signed, max_from, max_from_ℤ,
  min_from_ℤ, classify_array, classify_signed_range, classify_signed_array,
}

-- The limits are those of the type.
pub max_value-width : (s : ℤ) → IsWidth (abs_size s) → max_value s + 1 ≡ 2 ^ abs_size s
unfolding max_value
max_value-width s (inl e) = rw (e, max_value)
max_value-width s (inr (inl e)) = rw (e, max_value)
max_value-width s (inr (inr (inl e))) = rw (e, max_value)
max_value-width s (inr (inr (inr e))) = rw (e, max_value)

-- What the limits of a signed class say of its width.
abbrev pub Limits : ℤ → Type 0
Limits s =
    (2 * (pos_part (max_signed s) + 1) ≡ 2 ^ abs_size s)
    × (2 * neg_part (min_signed s) ≡ 2 ^ abs_size s)
    × (neg_part (max_signed s) ≡ 0)
    × (pos_part (min_signed s) ≡ 0)

pub signed-Limits : (s : ℤ) → 0 < neg_part s → IsWidth (abs_size s) → Limits s
unfolding max_signed min_signed
signed-Limits (pos n) p h = absurd (omega arith)
signed-Limits (negsuc n) p h = ground arith

-- The class of a value is the least width that holds it.
pub classify-least :
    (v : ℕ)
    → v < 2 ^ 64
    → IsWidth (abs_size (classify v))
      × (v ≤ max_value (classify v))
      × ((w : ℕ) → IsWidth w → v < 2 ^ w → abs_size (classify v) ≤ w)
unfolding classify max_value
classify-least v b = ground arith

pub neg_part-classify : (v : ℕ) → neg_part (classify v) ≡ 0
unfolding classify
neg_part-classify v = ground arith

-- So for a signed value.
pub classify_signed-least :
    (v : ℤ)
    → IsI64 v
    → IsWidth (abs_size (classify_signed v))
      × (0 < neg_part (classify_signed v))
      × Fits (abs_size (classify_signed v)) v
      × ((w : ℕ) → IsWidth w → Fits w v → abs_size (classify_signed v) ≤ w)
unfolding classify_signed
classify_signed-least v b = ground arith

-- The running extrema bound what they have seen, and are among it.
pub max_from-bound : (m : ℕ) (xs : List ℕ) → (m ≤ max_from m xs) × All (λ x. x ≤ max_from m xs) xs
unfolding max_from
max_from-bound m [] = (omega arith, tt)
max_from-bound m (x ∷ xs) = ground (arith, max_from-bound (if ltb m x then x else m) xs)

pub max_from-lt : (b m : ℕ) (xs : List ℕ) → m < b → All (λ x. x < b) xs → max_from m xs < b
unfolding max_from
max_from-lt b m [] h k = h
max_from-lt b m (x ∷ xs) h k = max_from-lt b (if ltb m x then x else m) xs (ground arith) k.1

-- For values of 64 bits, `classify_array` returns the least class in which every value fits.
pub classify_array-least :
    (xs : List ℕ)
    → All (λ x. x < 2 ^ 64) xs
    → IsWidth (abs_size (classify_array xs))
      × All (λ x. x ≤ max_value (classify_array xs)) xs
      × ((w : ℕ) → IsWidth w → All (λ x. x < 2 ^ w) xs → abs_size (classify_array xs) ≤ w)
unfolding classify_array
classify_array-least [] h = (omega arith, tt, λ w hw k. ground arith)
classify_array-least (x ∷ xs) h =
    let m = max_from x xs in
    let b = max_from-bound x xs in
    let c = classify-least m (max_from-lt (2 ^ 64) x xs h.0 h.1) in
    (
      c.0,
      (
        omega (arith, b.0, c.1),
        All-imp (λ y. y ≤ m) (λ y. y ≤ max_value (classify m)) (λ y k. omega (arith, c.1)) xs b.1,
      ),
      λ w hw k. c.2 w hw (max_from-lt (2 ^ w) x xs k.0 k.1),
    )

-- The running extrema of a signed array.
pub max_from_ℤ-Fits :
    (w : ℕ) (m : ℤ) (xs : List ℤ) → Fits w m → All (Fits w) xs → Fits w (max_from_ℤ m xs)
unfolding max_from_ℤ
max_from_ℤ-Fits w m [] h k = h
max_from_ℤ-Fits w m (x ∷ xs) h k =
    max_from_ℤ-Fits w (if ltb_ℤ m x then x else m) xs (ground arith) k.1

pub min_from_ℤ-Fits :
    (w : ℕ) (m : ℤ) (xs : List ℤ) → Fits w m → All (Fits w) xs → Fits w (min_from_ℤ m xs)
unfolding min_from_ℤ
min_from_ℤ-Fits w m [] h k = h
min_from_ℤ-Fits w m (x ∷ xs) h k =
    min_from_ℤ-Fits w (if ltb_ℤ x m then x else m) xs (ground arith) k.1

pub max_from_ℤ-bound :
    (m : ℤ) (xs : List ℤ) → (m ≤ℤ max_from_ℤ m xs) × All (λ x. x ≤ℤ max_from_ℤ m xs) xs
unfolding max_from_ℤ
max_from_ℤ-bound m [] = (omega arith, tt)
max_from_ℤ-bound m (x ∷ xs) = ground (arith, max_from_ℤ-bound (if ltb_ℤ m x then x else m) xs)

pub min_from_ℤ-bound :
    (m : ℤ) (xs : List ℤ) → (min_from_ℤ m xs ≤ℤ m) × All (λ x. min_from_ℤ m xs ≤ℤ x) xs
unfolding min_from_ℤ
min_from_ℤ-bound m [] = (omega arith, tt)
min_from_ℤ-bound m (x ∷ xs) = ground (arith, min_from_ℤ-bound (if ltb_ℤ x m then x else m) xs)

-- The class of a range is the least signed class that holds both its ends.
pub classify_signed_range-least :
    (lo hi : ℤ)
    → IsI64 lo
    → IsI64 hi
    → let c = classify_signed_range lo hi in
      IsWidth (abs_size c)
      × (0 < neg_part c)
      × Fits (abs_size c) lo
      × Fits (abs_size c) hi
      × ((w : ℕ) → IsWidth w → Fits w lo → Fits w hi → abs_size c ≤ w)
unfolding classify_signed_range
classify_signed_range-least lo hi p q =
    let a = classify_signed lo in
    let b = classify_signed hi in
    ground (
      arith,
      classify_signed-least lo p,
      classify_signed-least hi q,
      pow_mono (abs_size a) (abs_size b),
      pow_mono (abs_size b) (abs_size a),
    )

-- The class of an array is that of the range of its values.
classify_signed_array-range :
    (x : ℤ) (xs : List ℤ)
    → classify_signed_array (x ∷ xs) ≡ classify_signed_range (min_from_ℤ x xs) (max_from_ℤ x xs)
unfolding classify_signed_array classify_signed_range
classify_signed_array-range x xs = refl

Fits-between : (w : ℕ) (lo hi x : ℤ) → Fits w lo → Fits w hi → lo ≤ℤ x → x ≤ℤ hi → Fits w x
Fits-between w lo hi x a b h k = ground arith

Fits-inside :
    (w : ℕ) (lo hi : ℤ) (xs : List ℤ)
    → Fits w lo
    → Fits w hi
    → All (λ x. lo ≤ℤ x) xs
    → All (λ x. x ≤ℤ hi) xs
    → All (Fits w) xs
Fits-inside w lo hi [] a b h k = tt
Fits-inside w lo hi (x ∷ xs) a b h k =
    (Fits-between w lo hi x a b h.0 k.0, Fits-inside w lo hi xs a b h.1 k.1)

-- `c` is the least signed class that holds all of `xs`.
abbrev pub IsLeastSigned : ℤ → List ℤ → Type 0
IsLeastSigned c xs =
    IsWidth (abs_size c)
    × (0 < neg_part c)
    × All (Fits (abs_size c)) xs
    × ((w : ℕ) → IsWidth w → All (Fits w) xs → abs_size c ≤ w)

-- For int64_t values, `classify_signed_array` returns the least signed class in which every value
-- fits.
pub classify_signed_array-least :
    (xs : List ℤ) → All (Fits 64) xs → IsLeastSigned (classify_signed_array xs) xs
unfolding classify_signed_array
classify_signed_array-least [] h = (omega arith, omega arith, tt, λ w hw k. ground arith)
classify_signed_array-least (x ∷ xs) h =
    subst (λ c. IsLeastSigned c (x ∷ xs)) (sym (classify_signed_array-range x xs))
      (let lo = min_from_ℤ x xs in
        let hi = max_from_ℤ x xs in
        let w = abs_size (classify_signed_range lo hi) in
        let below = min_from_ℤ-bound x xs in
        let above = max_from_ℤ-bound x xs in
        let c =
          classify_signed_range-least lo hi (omega (arith, min_from_ℤ-Fits 64 x xs h.0 h.1))
            (omega (arith, max_from_ℤ-Fits 64 x xs h.0 h.1)) in
        (
          c.0,
          c.1,
          (
            Fits-between w lo hi x c.2 c.3 below.0 above.0,
            Fits-inside w lo hi xs c.2 c.3 below.1 above.1,
          ),
          λ v hv k. c.4 v hv (min_from_ℤ-Fits v x xs k.0 k.1) (max_from_ℤ-Fits v x xs k.0 k.1),
        ))
