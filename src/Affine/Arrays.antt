-- ===== src/Affine/Arrays.antt =====
-- s2r_affine_build and s2r_affine_build_signed of include/smart2raw.h: what they make of an array.
use smart2raw.Base.{
  ltb, if◌then◌else◌, length, All, length-map, All-imp, All-and, ℤ, ◌≤ℤ◌, pos, sx, to_u64,
  wrap_sub_of_le, Fits, sx-Fits, to_u64-lt, ℕ, ◌^◌, ◌≤◌, ◌<◌, ◌≡◌, refl, sym, subst, Bool, true,
  false, List, [], ◌∷◌, map, arith,
}
use smart2raw.Class.{min_from, min_from_ℤ}
use smart2raw.Class.Least.{min_from_ℤ-Fits, min_from_ℤ-bound}
use smart2raw.Scan.Exact.{map-id}
use smart2raw.Affine.{affine_detect, affine_detect_signed, affine_build, affine_build_signed}
use smart2raw.Affine.Steps.{StepOf, affine_detect-divides, affine_detect_signed-divides}
use smart2raw.Affine.Build.{affine_from-IsColumn, affine_from-empty}
use smart2raw.Affine.Held.{
  signed_key, IsHeld, signed_key-lt, signed_key-leb, word_distance, Placed, IsHeld-of,
}

-- A uint64_t is its own key and its own word.
abbrev pub same_word : ℕ → ℕ
same_word x = x

min_from-bound : (m : ℕ) (xs : List ℕ) → (min_from m xs ≤ m) × All (λ x. min_from m xs ≤ x) xs
unfolding min_from
min_from-bound m [] = (omega arith, tt)
min_from-bound m (x ∷ xs) = ground (arith, min_from-bound (if ltb x m then x else m) xs)

pub to_u64-sx : (x : ℕ) → x < 2 ^ 64 → to_u64 (sx 64 x) ≡ x
unfolding to_u64 sx
to_u64-sx x h = ground arith

unsigned-Placed :
    (mn v : ℕ) → mn ≤ v → mn < 2 ^ 64 → v < 2 ^ 64 → Placed same_word same_word false (sx 64 mn) v
unsigned-Placed mn v h k l = let e = to_u64-sx mn k in rw e (h, l, l, wrap_sub_of_le 64 v mn h l)

signed_key_mono : (x y : ℤ) → Fits 64 x → Fits 64 y → x ≤ℤ y → signed_key x ≤ signed_key y
signed_key_mono x y f g h = ground (arith, signed_key-leb x y f g)

signed-Placed : (mn v : ℤ) → mn ≤ℤ v → Fits 64 mn → Fits 64 v → Placed signed_key to_u64 true mn v
signed-Placed mn v h f g =
    let k = signed_key_mono mn v f g h in
    (k, signed_key-lt v, to_u64-lt v, word_distance true v mn k)

module _ (alloc : ℕ → Bool) where
  pub affine_build-IsHeld :
      (src : List ℕ)
      → All (λ x. x < 2 ^ 64) src
      → length src < 2 ^ 60
      → (affine_build alloc src).0 ≡ true
      → IsHeld same_word same_word (affine_build alloc src).1 src
  unfolding affine_build affine_detect
  affine_build-IsHeld [] a f e =
      let c = affine_from-empty alloc false [] (sx 64 0) 1 refl e in
      record { base_fits = rw c.1 (omega arith); column = c.0; above = tt }
  affine_build-IsHeld (x ∷ xs) a f e =
      let src = x ∷ xs in
      let mn = min_from x xs in
      let m = min_from-bound x xs in
      let lt : mn < 2 ^ 64 = omega (arith, m.0, a.0) in
      let (st, base) = affine_detect src in
      let d = affine_detect-divides src in
      IsHeld-of same_word same_word false (sx 64 mn) src src (affine_build alloc src).1 (map-id src)
        (sx-Fits 64 mn lt)
        (All-imp (λ v. (mn ≤ v) × (v < 2 ^ 64)) (Placed same_word same_word false (sx 64 mn))
          (λ v h. unsigned-Placed mn v h.0 lt h.1) src
          (All-and (λ v. mn ≤ v) (λ v. v < 2 ^ 64) src (m.0, m.1) a))
        (affine_from-IsColumn alloc false src (sx 64 mn) st (omega arith) f d.0
          (subst (λ b. StepOf st b src) (sym (to_u64-sx mn lt)) d.1) e)

  pub affine_build_signed-IsHeld :
      (src : List ℤ)
      → All (Fits 64) src
      → length src < 2 ^ 60
      → (affine_build_signed alloc src).0 ≡ true
      → IsHeld signed_key to_u64 (affine_build_signed alloc src).1 src
  unfolding affine_build_signed affine_detect_signed
  affine_build_signed-IsHeld [] a f e =
      let c = affine_from-empty alloc true [] (pos 0) 1 refl e in
      record { base_fits = rw c.1 (omega arith); column = c.0; above = tt }
  affine_build_signed-IsHeld (x ∷ xs) a f e =
      let src = x ∷ xs in
      let mn = min_from_ℤ x xs in
      let m = min_from_ℤ-bound x xs in
      let fm = min_from_ℤ-Fits 64 x xs a.0 a.1 in
      let (st, base) = affine_detect_signed src in
      let d = affine_detect_signed-divides src in
      let l = length-map to_u64 src in
      IsHeld-of signed_key to_u64 true mn src (map to_u64 src) (affine_build_signed alloc src).1
        refl fm
        (All-imp (λ v. (mn ≤ℤ v) × Fits 64 v) (Placed signed_key to_u64 true mn)
          (λ v h. signed-Placed mn v h.0 fm h.1) src
          (All-and (λ v. mn ≤ℤ v) (Fits 64) src (m.0, m.1) a))
        (affine_from-IsColumn alloc true (map to_u64 src) mn st (omega arith) (omega (arith, l, f))
          d.0 d.1 e)
