-- ===== src/Affine/Answers.antt =====
-- The queries on a column that s2r_affine_build or s2r_affine_build_signed of include/smart2raw.h made.
use smart2raw.Base.{
  ltb, ◌==◌, length, All, All-imp, ℤ, ltb_ℤ, eqb_ℤ, sx, to_u64, Fits, ℕ, ◌^◌, ◌<◌, ◌≡◌, refl, ap,
  ◌∙◌, Bool, true, false, List, map,
}
use smart2raw.Scan.{count_if, sum_from, sum_from_if, in_range, in_range_ℤ}
use smart2raw.Scan.Exact.{count_if-congr, map-id}
use smart2raw.Affine.{
  Affine, affine_detect, affine_detect_signed, affine_build, affine_build_signed, affine_sum,
  affine_sum_signed, affine_count_gt, affine_count_range, affine_count_lt, affine_count_eq,
  affine_sum_if, affine_sum_if_signed,
}
use smart2raw.Affine.Build.{affine_from-is_signed}
use smart2raw.Affine.Held.{signed_key, key_of, signed_key-ltb, signed_key-leb, signed_key-eq}
use smart2raw.Affine.Arrays.{affine_build-IsHeld, affine_build_signed-IsHeld}
use smart2raw.Affine.Counts.{held_count_gt, held_count_eq}
use smart2raw.Affine.Ranges.{NoCarry, held_count_range, held_count_lt}
use smart2raw.Affine.Folds.{sum_from_if-congr}
use smart2raw.Affine.Totals.{held_sum, held_sum_if}

module _ (alloc : ℕ → Bool) (src : List ℕ) (b : All (λ x. x < 2 ^ 64) src)
    (few : length src < 2 ^ 60) (e : (affine_build alloc src).0 ≡ true) where
  abbrev pub column : Affine
  column = (affine_build alloc src).1

  unsigned_key : (t : ℤ) → key_of column.is_signed t ≡ to_u64 t
  unfolding affine_build
  unsigned_key t =
      let d = affine_detect src in rw (affine_from-is_signed alloc false src (sx 64 d.1) d.0) refl

  -- The column of an array of fewer than 2^60 numbers of 64 bits that `s2r_affine_build` takes counts
  -- the values above, below and at an int64_t threshold, cast to uint64_t, as a scan of the array does,
  -- and sums them modulo 2^64.
  pub affine_counts_lem :
      (t : ℤ)
      → Fits 64 t
      → (affine_count_gt column t ≡ count_if (ltb (to_u64 t)) src)
        × (affine_count_lt column t ≡ count_if (λ v. ltb v (to_u64 t)) src)
        × (affine_count_eq column t ≡ count_if (λ v. v == to_u64 t) src)
        × (affine_sum column ≡ sum_from 0 src)
  affine_counts_lem t f =
      let h = affine_build-IsHeld alloc src b few e in
      rw (← unsigned_key t) (
        held_count_gt h t f,
        held_count_lt h t f,
        held_count_eq h t f,
        held_sum h ∙ ap (sum_from 0) (map-id src),
      )

  -- For a window of two int64_t bounds, cast to uint64_t, the column of an array of fewer than 2^60
  -- numbers that `s2r_affine_build` takes counts and sums the values inside as a scan of the array
  -- does, where the lower bound is not above the base or its distance from the base and the stride
  -- add up to 2^64 at most.
  pub affine_windows_lem :
      (lo hi : ℤ)
      → Fits 64 lo
      → Fits 64 hi
      → NoCarry column lo
      → (affine_count_range column lo hi ≡ count_if (in_range (to_u64 lo) (to_u64 hi)) src)
        × (affine_sum_if column lo hi
            ≡ sum_from_if (in_range (to_u64 lo) (to_u64 hi)) (λ v. v) 0 src)
  affine_windows_lem lo hi f g c =
      let h = affine_build-IsHeld alloc src b few e in
      rw (← unsigned_key lo, ← unsigned_key hi)
        (held_count_range h lo hi f g c, held_sum_if h lo hi f g c)

module _ (alloc : ℕ → Bool) (src : List ℤ) (b : All (Fits 64) src) (few : length src < 2 ^ 60)
    (e : (affine_build_signed alloc src).0 ≡ true) where
  abbrev pub signed_column : Affine
  signed_column = (affine_build_signed alloc src).1

  turned_key : (t : ℤ) → key_of signed_column.is_signed t ≡ signed_key t
  unfolding affine_build_signed
  turned_key t =
      let d = affine_detect_signed src in
      rw (affine_from-is_signed alloc true (map to_u64 src) d.1 d.0) refl

  scanned : (s t : ℤ → Bool) → ((v : ℤ) → Fits 64 v → s v ≡ t v) → count_if s src ≡ count_if t src
  scanned s t h = count_if-congr s t src (All-imp (Fits 64) (λ v. s v ≡ t v) h src b)

  -- The column of an array of fewer than 2^60 int64_t values that `s2r_affine_build_signed` takes counts
  -- the values above, below and at an int64_t threshold as a scan of the array does, and sums them
  -- modulo 2^64.
  pub affine_signed_counts_lem :
      (t : ℤ)
      → Fits 64 t
      → (affine_count_gt signed_column t ≡ count_if (ltb_ℤ t) src)
        × (affine_count_lt signed_column t ≡ count_if (λ v. ltb_ℤ v t) src)
        × (affine_count_eq signed_column t ≡ count_if (λ v. eqb_ℤ v t) src)
        × (affine_sum_signed signed_column ≡ sx 64 (sum_from 0 (map to_u64 src)))
  unfolding affine_sum_signed
  affine_signed_counts_lem t f =
      let h = affine_build_signed-IsHeld alloc src b few e in
      let k = turned_key t in
      (
        held_count_gt h t f
            ∙ rw k (
                scanned (λ v. ltb (signed_key t) (signed_key v)) (ltb_ℤ t)
                  (λ v g. signed_key-ltb t v f g)),
        held_count_lt h t f
            ∙ rw k (
                scanned (λ v. ltb (signed_key v) (signed_key t)) (λ v. ltb_ℤ v t)
                  (λ v g. signed_key-ltb v t g f)),
        held_count_eq h t f
            ∙ rw k (
                scanned (λ v. signed_key v == signed_key t) (λ v. eqb_ℤ v t)
                  (λ v g. signed_key-eq v t g f)),
        ap (sx 64) (held_sum h),
      )

  -- For a window of two int64_t bounds the column of an array of fewer than 2^60 values that
  -- `s2r_affine_build_signed` takes counts and sums the values inside as a scan of the array does,
  -- where the lower bound is not above the base or its distance from the base and the stride add up
  -- to 2^64 at most.
  pub affine_signed_windows_lem :
      (lo hi : ℤ)
      → Fits 64 lo
      → Fits 64 hi
      → NoCarry signed_column lo
      → (affine_count_range signed_column lo hi ≡ count_if (in_range_ℤ lo hi) src)
        × (affine_sum_if_signed signed_column lo hi
            ≡ sx 64 (sum_from_if (in_range_ℤ lo hi) to_u64 0 src))
  unfolding affine_sum_if_signed
  affine_signed_windows_lem lo hi f g c =
      let h = affine_build_signed-IsHeld alloc src b few e in
      let same : (v : ℤ)
          → Fits 64 v
          → in_range (signed_key lo) (signed_key hi) (signed_key v) ≡ in_range_ℤ lo hi v =
        λ v k. rw (signed_key-leb lo v f k, signed_key-leb v hi k g) refl in
      let test : ℤ → Bool = λ v. in_range (signed_key lo) (signed_key hi) (signed_key v) in
      (
        held_count_range h lo hi f g c
            ∙ rw (turned_key lo, turned_key hi) (scanned test (in_range_ℤ lo hi) same),
        ap (sx 64) (
            held_sum_if h lo hi f g c
            ∙ rw (turned_key lo, turned_key hi)
                (sum_from_if-congr test to_u64 (in_range_ℤ lo hi) to_u64 0 src (
                  All-imp (Fits 64) (λ v. (test v ≡ in_range_ℤ lo hi v) × (to_u64 v ≡ to_u64 v))
                    (λ v k. (same v k, refl)) src b))),
      )
