-- ===== src/Affine/Spread.antt =====
-- The values of a column of S2RAffine of include/smart2raw.h, counted on its indices.
use smart2raw.Base.{
  ◌==◌, if◌then◌else◌, Bool-cases, eq_of_==, length, All, length-map, All-imp, nil_of_length,
  All-map, All-and, ℕ, ◌+◌, ◌-◌, ◌*◌, ◌^◌, ◌≤◌, ◌<◌, ◌≡◌, sym, ap, fun_ext, ◌∙◌, inl, inr, Bool,
  true, false, List, [], arith,
}
use smart2raw.Pool.{live}
use smart2raw.Scan.{count_if}
use smart2raw.Scan.Exact.{count_if-none, count_if-All, count_if-congr, count_if-map}
use smart2raw.Affine.{Affine}
use smart2raw.Affine.Held.{key_of, IsAbove, IsHeld}

module _ {A : Type 0} {key word : A → ℕ} {a : Affine} {vs : List A} (h : IsHeld key word a vs) where
  abbrev pub base_key : ℕ
  base_key = key_of a.is_signed a.base

  pub length_values : a.count ≡ length vs
  length_values = h.column.counted ∙ length-map (λ v. key v - base_key) vs

  pub no_values : (a.count == 0) ≡ true → vs ≡ []
  no_values e = nil_of_length vs (sym length_values ∙ eq_of_== a.count 0 e)

  -- A test that every value at or above the base meets, or none.
  pub count_values :
      (test : A → Bool)
      → ((v : A) → base_key ≤ key v → key v < 2 ^ 64 → test v ≡ true)
      → a.count ≡ count_if test vs
  count_values test t =
      length_values
      ∙ sym (
          count_if-All test vs
            (All-imp (IsAbove key word a) (λ v. test v ≡ true) (λ v k. t v k.0 k.1) vs h.above))

  pub no_value :
      (test : A → Bool)
      → ((v : A) → base_key ≤ key v → key v < 2 ^ 64 → test v ≡ false)
      → 0 ≡ count_if test vs
  no_value test t = sym (
      count_if-none test vs
        (All-imp (IsAbove key word a) (λ v. test v ≡ false) (λ v k. t v k.0 k.1) vs h.above))

  -- The values of a constant column are the base.
  pub constant_keys : a.is_const ≡ true → All (λ v. key v ≡ base_key) vs
  constant_keys k =
      All-imp (λ v. IsAbove key word a v × (key v - base_key ≡ 0)) (λ v. key v ≡ base_key)
        (λ v t. omega (arith, t.0.0, t.1)) vs
        (All-and (IsAbove key word a) (λ v. key v - base_key ≡ 0) vs h.above
          (All-map (λ v. key v - base_key) (λ o. o ≡ 0) vs (h.column.constant k)))

  pub constant_count :
      a.is_const ≡ true
      → (test : ℕ → Bool) → (if test base_key then a.count else 0) ≡ count_if (λ v. test (key v)) vs
  constant_count k test =
      let same : All (λ v. test (key v) ≡ test base_key) vs =
        All-imp (λ v. key v ≡ base_key) (λ v. test (key v) ≡ test base_key) (λ v e. ap test e) vs
          (constant_keys k) in
      elim (Bool-cases (test base_key)) [
        | inl e ↦ rw e (length_values ∙ sym (count_if-All (λ v. test (key v)) vs (rw e at same)))
        | inr e ↦ rw e (sym (count_if-none (λ v. test (key v)) vs (rw e at same)))
      ]

  -- A test of the key is one of the index.
  pub count_indices :
      a.is_const ≡ false
      → (test on : ℕ → Bool) → ((x : ℕ) → on x ≡ test (base_key + a.stride * x))
      → count_if on (live a.idx) ≡ count_if (λ v. test (key v)) vs
  count_indices n test on e =
      let under : ℕ → Bool = λ o. test (base_key + o) in
      let off : A → ℕ = λ v. key v - base_key in
      ap (λ t. count_if t (live a.idx)) (fun_ext e)
      ∙ sym (count_if-map under (λ x. a.stride * x) (live a.idx))
      ∙ ap (count_if under) (h.column.spread n)
      ∙ count_if-map under off vs
      ∙ count_if-congr (λ v. under (off v)) (λ v. test (key v)) vs
          (All-imp (IsAbove key word a) (λ v. under (off v) ≡ test (key v))
            (λ v k. ap test (omega (arith, k.0))) vs h.above)
