-- ===== src/Gcd.antt =====
-- s2r_gcd64 of include/smart2raw.h: Euclid's loop on two 64-bit words.
use Prim.Native.Nat.{◌∣◌}
use native.Mathlib.Nat.{mod-lt, mod-le, mod-eq-sub-mod, dvd-zero, dvd-mod_iff, pow-suc}
use smart2raw.Base.{
  ◌==◌, Bool-cases, eq_of_==, ℕ, zero, suc, ◌-◌, ◌*◌, ◌%◌, ◌^◌, ◌≤◌, ◌<◌, ◌≡◌, sym, subst, ◌↔◌, inl,
  inr, true, false, arith,
}

-- `while (b) { t = a % b; a = b; b = t; }`, at most `fuel` rounds of it: the two variables.
unfoldable pub gcd_loop : ℕ → ℕ → ℕ → ℕ × ℕ
gcd_loop zero a b = (a, b)
gcd_loop (suc fuel) a b = elim (b == 0) [ true ↦ (a, b) | false ↦ gcd_loop fuel b (a % b) ]

-- Two rounds halve `b`, so 128 rounds are enough for a 64-bit one.
abbrev pub gcd_fuel : ℕ
gcd_fuel = 128

unfoldable pub gcd64 : ℕ → ℕ → ℕ
gcd64 a b = (gcd_loop gcd_fuel a b).0

abbrev double : ℕ → ℕ
double zero = zero
double (suc n) = suc (suc (double n))

mod_halves : (a b : ℕ) → 0 < b → b ≤ a → 2 * (a % b) ≤ a
mod_halves a b p h = omega (arith, mod-lt a p, mod-le (a - b) b, mod-eq-sub-mod {n = a} {m = b} h)

-- A second variable below 2^n is zero after 2n rounds.
loop_ends : (n a b : ℕ) → b < 2 ^ n → (gcd_loop (double n) a b).1 ≡ 0
unfolding gcd_loop
loop_ends zero a b h = omega arith
loop_ends (suc n) a b h = elim (Bool-cases (b == 0)) [
  | inl z ↦ rw (gcd_loop, z) (eq_of_== b 0 z)
  | inr p ↦
      rw (gcd_loop, p)
        (elim (Bool-cases (a % b == 0)) [
          | inl z ↦ rw (gcd_loop, z) (eq_of_== (a % b) 0 z)
          | inr q ↦
              rw (gcd_loop, q)
                (loop_ends n (a % b) (b % (a % b)) (
                  omega (
                    arith,
                    h,
                    pow-suc 2 n,
                    mod_halves b (a % b) (ground arith)
                        (omega (arith, mod-lt a {m = b} (ground arith))),
                  )))
        ])
]

-- For a second argument of 64 bits the loop of `s2r_gcd64` ends within 128 rounds: `b` is zero.
pub gcd_loop-ends : (a b : ℕ) → b < 2 ^ 64 → (gcd_loop gcd_fuel a b).1 ≡ 0
gcd_loop-ends a b h = loop_ends 64 a b h

abbrev Divides : ℕ → ℕ × ℕ → Type 0
Divides d ab = (d ∣ ab.0) × (d ∣ ab.1)

-- The rounds keep the common divisors.
loop-Divides : (d n a b : ℕ) → Divides d (a, b) ↔ Divides d (gcd_loop n a b)
unfolding gcd_loop
loop-Divides d zero a b = ((λ x. x), (λ x. x))
loop-Divides d (suc n) a b = elim (Bool-cases (b == 0)) [
  | inl z ↦ rw (gcd_loop, z) ((λ x. x), (λ x. x))
  | inr p ↦
      let ih = loop-Divides d n b (a % b) in
      rw (gcd_loop, p)
        (
          (λ h. ih.0 (h.1, (dvd-mod_iff d h.1).1 h.0)),
          (λ k. let h = ih.1 k in ((dvd-mod_iff d h.0).0 h.1, h.0)),
        )
]

-- For a second argument of 64 bits, the divisors of `s2r_gcd64` are the common divisors of its arguments.
pub gcd64-Divides : (d a b : ℕ) → b < 2 ^ 64 → Divides d (a, b) ↔ (d ∣ gcd64 a b)
unfolding gcd64
gcd64-Divides d a b h =
    let l = loop-Divides d gcd_fuel a b in
    ((λ k. (l.0 k).0), (λ k. l.1 (k, subst (λ x. d ∣ x) (sym (gcd_loop-ends a b h)) (dvd-zero d))))
