-- ===== src/Affine/Counts.antt =====
-- s2r_affine_count_gt, _range, _lt and _eq of include/smart2raw.h.
use native.Mathlib.Nat.{mod-one}
use smart2raw.Base.{
  ltb, ◌==◌, Bool-cases, All-of, ℤ, Fits, ℕ, ◌+◌, ◌-◌, ◌*◌, ◌%◌, ◌≤◌, ◌<◌, ◌≡◌, refl, sym, ◌∙◌, inl,
  inr, Bool, true, false, ◌&&◌, not, List, arith,
}
use smart2raw.Pool.{live}
use smart2raw.Scan.{count_if}
use smart2raw.Scan.Exact.{count_if-none, count_gt_exact, count_eq_exact}
use smart2raw.Fast.Counts.{count_gt_fast-count_gt, count_eq_fast-count_eq}
use smart2raw.Affine.{Affine, affine_count_gt, affine_count_eq}
use smart2raw.Affine.Held.{key_of, IsHeld, column_lt_key, distance_key}
use smart2raw.Affine.Quotients.{quot, ltb-quot, eq_quot, off_lattice}
use smart2raw.Affine.Spread.{no_values, count_values, no_value, constant_count, count_indices}

on_lattice : (st r : ℕ) → (ltb 1 st && not (r % st == 0)) ≡ false → 0 < st → (r % st == 0) ≡ true
on_lattice st r h p = elim (Bool-cases (ltb 1 st)) [
  | inl e ↦ ground arith
  | inr n ↦ let one : st ≡ 1 = ground arith in rw (one, mod-one r) refl
]

module _ {A : Type 0} {key word : A → ℕ} {a : Affine} {vs : List A} (h : IsHeld key word a vs) where
  pub held_count_gt :
      (thr : ℤ)
      → Fits 64 thr
      → affine_count_gt a thr ≡ count_if (λ v. ltb (key_of a.is_signed thr) (key v)) vs
  unfolding affine_count_gt count_if
  held_count_gt thr f =
      let t = key_of a.is_signed thr in
      let b = key_of a.is_signed a.base in
      let lt = column_lt_key a thr f a.base h.base_fits in
      elim (Bool-cases (a.count == 0)) [
        | inl e ↦ rw (e, no_values h e) refl
        | inr e ↦ elim (Bool-cases (ltb t b)) [
          | inl below ↦
              rw (e, lt, below) (count_values h (λ v. ltb t (key v)) (λ v k l. ground arith))
          | inr from ↦
              let d = distance_key a thr f (ground arith) in
              elim (Bool-cases a.is_const) [
                | inl k ↦ rw (e, lt, from, k) (rw from at (constant_count h k (ltb t)))
                | inr n ↦
                    let v = h.column.valid n in
                    let q = quot a.stride (t - b) in
                    rw (e, lt, from, n, d)
                      (count_gt_fast-count_gt v (h.column.known n) q
                        ∙ count_gt_exact a.idx q v
                        ∙ count_indices h n (ltb t) (ltb q)
                            (λ x. ltb-quot a.stride (t - b) x h.column.step ∙ ground arith))
              ]
        ]
      ]

  no_index_at :
      a.is_const ≡ false
      → {t : ℕ}
      → let b = key_of a.is_signed a.base in
        ((t - b) % a.stride == 0) ≡ false
        → b ≤ t
        → 0 ≡ count_if (λ x. b + a.stride * x == t) (live a.idx)
  no_index_at n {t} m l =
      let b = key_of a.is_signed a.base in
      let st = a.stride in
      sym (
        count_if-none (λ x. b + st * x == t) (live a.idx)
          (All-of (λ x. (b + st * x == t) ≡ false)
            (λ x. let o = off_lattice st (t - b) x h.column.step m in ground arith) (live a.idx)))

  pub held_count_eq :
      (val : ℤ)
      → Fits 64 val
      → affine_count_eq a val ≡ count_if (λ v. key v == key_of a.is_signed val) vs
  unfolding affine_count_eq count_if
  held_count_eq val f =
      let t = key_of a.is_signed val in
      let b = key_of a.is_signed a.base in
      let st = a.stride in
      let lt = column_lt_key a val f a.base h.base_fits in
      let test : ℕ → Bool = λ y. y == t in
      elim (Bool-cases (a.count == 0)) [
        | inl e ↦ rw (e, no_values h e) refl
        | inr e ↦ elim (Bool-cases (ltb t b)) [
          | inl below ↦ rw (e, lt, below) (no_value h (λ v. key v == t) (λ v k l. ground arith))
          | inr from ↦
              let d = distance_key a val f (ground arith) in
              elim (Bool-cases a.is_const) [
                | inl k ↦
                    let same : (t - b == 0) ≡ (b == t) = ground arith in
                    rw (e, lt, from, k, d, same) (constant_count h k test)
                | inr n ↦ elim (Bool-cases (ltb 1 st && not ((t - b) % st == 0))) [
                  | inl off ↦
                      let m : ((t - b) % st == 0) ≡ false = ground arith in
                      rw (e, lt, from, n, d, off)
                        (no_index_at n m (ground arith)
                          ∙ count_indices h n test (λ x. b + st * x == t) (λ x. refl))
                  | inr on ↦
                      let v = h.column.valid n in
                      let q = quot st (t - b) in
                      let m = on_lattice st (t - b) on h.column.step in
                      rw (e, lt, from, n, d, on)
                        (count_eq_fast-count_eq v (h.column.known n) q
                          ∙ count_eq_exact a.idx q v
                          ∙ count_indices h n test (λ x. x == q)
                              (λ x. eq_quot st (t - b) x h.column.step m ∙ ground arith))
                ]
              ]
        ]
      ]
