-- ===== src/Affine/Quotients.antt =====
-- The divisions by the stride in the predicates on S2RAffine of include/smart2raw.h.
use native.Mathlib.Nat.{
  div-lt_iff_lt-mul, le-div_iff_mul-le, mul_comm, mul-mod_right, mul-div_cancel',
  dvd_of_mod-eq-zero, eq_of_mul-eq-mul_left,
}
use smart2raw.Base.{
  ltb, leb, ◌==◌, if◌then◌else◌, Bool-cases, eq_of_==, wrap_add, wrap_sub, ℕ, ◌+◌, ◌-◌, ◌*◌, ◌/◌,
  ◌%◌, ◌^◌, ◌≤◌, ◌<◌, ◌≡◌, refl, ap, subst, inl, inr, true, false, arith,
}
use smart2raw.Affine.{ceil_div}

-- `if (st > 1) r /= st;`
abbrev pub quot : ℕ → ℕ → ℕ
quot st r = if ltb 1 st then r / st else r

abbrev pub ceil_quot : ℕ → ℕ → ℕ
ceil_quot st r = if ltb 1 st then ceil_div r st else r

module _ (st r x : ℕ) (p : 0 < st) where
  quot_div : quot st r ≡ r / st
  quot_div = elim (Bool-cases (ltb 1 st)) [
    | inl e ↦ rw e refl
    | inr n ↦ let one : st ≡ 1 = ground arith in rw (n, one) (omega arith)
  ]

  pub ltb-quot : ltb (quot st r) x ≡ ltb r (st * x)
  ltb-quot =
      let d = div-lt_iff_lt-mul {k = st} {x = r} {y = x} p in
      let c = mul_comm st x in rw quot_div (ground (arith, d, c))

  pub leb-quot : leb x (quot st r) ≡ leb (st * x) r
  leb-quot =
      let d = le-div_iff_mul-le {k = st} {x = x} {y = r} p in
      let c = mul_comm st x in rw quot_div (ground (arith, d, c))

  pub ceil_quot-leb : r + st ≤ 2 ^ 64 → leb (ceil_quot st r) x ≡ leb r (st * x)
  unfolding wrap_sub wrap_add
  ceil_quot-leb h = elim (Bool-cases (ltb 1 st)) [
    | inl e ↦
        let d = div-lt_iff_lt-mul {k = st} {x = r + st - 1} {y = x + 1} p in
        let c = mul_comm st x in
        let m : (x + 1) * st ≡ x * st + st = omega arith in
        let s : ((r + st) % 2 ^ 64 + 2 ^ 64 - 1) % 2 ^ 64 ≡ r + st - 1 = omega arith in
        rw (e, s) (ground (arith, d, c, m))
    | inr n ↦ let one : st ≡ 1 = ground arith in rw (n, one) (ground arith)
  ]

  pub eq_quot : (r % st == 0) ≡ true → (x == quot st r) ≡ (st * x == r)
  eq_quot h =
      let e = mul-div_cancel' st (dvd_of_mod-eq-zero st (eq_of_== (r % st) 0 h)) in
      let q = r / st in
      let down : st * x ≡ st * q → x ≡ q = eq_of_mul-eq-mul_left st p x q in
      let up : x ≡ q → st * x ≡ st * q = λ t. ap (λ y. st * y) t in
      rw quot_div (ground (arith, e, down, up))

  pub off_lattice : (r % st == 0) ≡ false → (st * x == r) ≡ false
  off_lattice h =
      let m : st * x ≡ r → r % st ≡ 0 = λ t. subst (λ y. y % st ≡ 0) t (mul-mod_right st x) in
      ground (arith, m)
