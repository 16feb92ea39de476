-- ===== src/Fast/Bisect.antt =====
-- The binary searches of include/smart2raw.h.
use smart2raw.Base.{
  ltb, Bool-cases, length, get_or, ℕ, zero, suc, ◌+◌, ◌-◌, ◌/◌, ◌≤◌, ◌<◌, ◌≡◌, sym, subst, inl, inr,
  Bool, true, false, List, [], ◌∷◌, arith,
}
use smart2raw.Scan.{count_if}
use smart2raw.Fast.{bisect}

-- Everything before `r` passes, nothing from `r` up to `n` does.
abbrev pub Splits : (ℕ → Bool) → ℕ → ℕ → Type 0
Splits below n r =
    (r ≤ n) × ((i : ℕ) → i < r → below i ≡ true) × ((i : ℕ) → r ≤ i → i < n → below i ≡ false)

module _ (below : ℕ → Bool) (n : ℕ)
    (down : (i j : ℕ) → i ≤ j → j < n → below j ≡ true → below i ≡ true) where
  bisect_right :
      (fuel lo hi : ℕ)
      → ltb lo hi ≡ true
      → below (lo + (hi - lo) / 2) ≡ true
      → bisect below (suc fuel) lo hi ≡ bisect below fuel (lo + (hi - lo) / 2 + 1) hi
  unfolding bisect
  bisect_right fuel lo hi more pass = rw (more, pass, bisect)

  bisect_left :
      (fuel lo hi : ℕ)
      → ltb lo hi ≡ true
      → below (lo + (hi - lo) / 2) ≡ false
      → bisect below (suc fuel) lo hi ≡ bisect below fuel lo (lo + (hi - lo) / 2)
  unfolding bisect
  bisect_left fuel lo hi more stop = rw (more, stop, bisect)

  bisect_end : (fuel lo hi : ℕ) → ltb lo hi ≡ false → bisect below (suc fuel) lo hi ≡ lo
  unfolding bisect
  bisect_end fuel lo hi done = rw (done, bisect)

  bisect-Splits :
      (fuel lo hi : ℕ)
      → hi - lo < fuel
      → lo ≤ hi
      → hi ≤ n
      → ((i : ℕ) → i < lo → below i ≡ true)
      → ((i : ℕ) → hi ≤ i → i < n → below i ≡ false)
      → Splits below n (bisect below fuel lo hi)
  bisect-Splits zero lo hi f a b l r = absurd (omega arith)
  bisect-Splits (suc fuel) lo hi f a b l r = elim (Bool-cases (ltb lo hi)) [
    | inl more ↦ elim (Bool-cases (below (lo + (hi - lo) / 2))) [
      | inl pass ↦ subst (Splits below n) (sym (bisect_right fuel lo hi more pass)) (
          bisect-Splits fuel (lo + (hi - lo) / 2 + 1) hi (ground arith) (ground arith) b
            (λ i h. down i (lo + (hi - lo) / 2) (omega arith) (ground arith) pass) r)
      | inr stop ↦ subst (Splits below n) (sym (bisect_left fuel lo hi more stop)) (
          bisect-Splits fuel lo (lo + (hi - lo) / 2) (ground arith) (ground arith) (ground arith) l
            (λ i h k. after i h k stop))
    ]
    | inr done ↦
        subst (Splits below n) (sym (bisect_end fuel lo hi done))
          (omega arith, l, λ i h k. r i (ground arith) k)
  ]
    where
      after :
          (i : ℕ)
          → lo + (hi - lo) / 2 ≤ i
          → i < n
          → below (lo + (hi - lo) / 2) ≡ false
          → below i ≡ false
      after i h k stop = elim (Bool-cases (below i)) [
        | inl bad ↦ absurd (cc (down (lo + (hi - lo) / 2) i h k bad))
        | inr good ↦ good
      ]

  -- With more fuel than elements the search ends at the split.
  pub bisect_lem : Splits below n (bisect below (suc n) 0 n)
  bisect_lem =
      bisect-Splits (suc n) 0 n (omega arith) (omega arith) (omega arith)
        (λ i h. absurd (omega arith)) (λ i h k. absurd (omega arith))

-- A test that agrees with `below` at every index passes as often as the split says.
pub count_if-split {ℓ} :
    {A : Type ℓ} (test : A → Bool) (d : A) (xs : List A) (r : ℕ)
    → r ≤ length xs
    → ((i : ℕ) → i < r → test (get_or xs i d) ≡ true)
    → ((i : ℕ) → r ≤ i → i < length xs → test (get_or xs i d) ≡ false)
    → count_if test xs ≡ r
unfolding count_if
count_if-split test d [] r h a b = omega arith
count_if-split test d (x ∷ xs) zero h a b = rw (b 0 (omega arith) (omega arith)) (
    omega (
      arith,
      count_if-split test d xs 0 (omega arith) (λ i k. absurd (omega arith))
          (λ i k l. b (suc i) (omega arith) (omega arith)),
    ))
count_if-split test d (x ∷ xs) (suc r) h a b = rw (a 0 (omega arith)) (
    omega (
      arith,
      count_if-split test d xs r (omega arith) (λ i k. a (suc i) (omega arith))
          (λ i k l. b (suc i) (omega arith) (omega arith)),
    ))
