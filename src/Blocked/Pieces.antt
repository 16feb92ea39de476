-- ===== src/Blocked/Pieces.antt =====
-- The blocks of an array of include/smart2raw.h: which element stands where.
use smart2raw.Base.{
  ◌==◌, Bool-cases, length, get_or, drop, All, length-take, length-drop, get_or-take, All-take,
  All-drop, ℕ, zero, suc, ◌+◌, ◌*◌, ◌≤◌, ◌<◌, ◌≡◌, refl, ap, ◌∙◌, inl, inr, false, List, [], ◌∷◌,
  arith,
}
use smart2raw.Blocked.{blocks_of}

module _ {ℓ} {A : Type ℓ} (d : A) where
  get_or-same : (xs : List A) (i k : ℕ) → i ≡ k → get_or xs i d ≡ get_or xs k d
  get_or-same xs i k e = ap (λ j. get_or xs j d) e

  get_or-drop : (n : ℕ) (xs : List A) (i : ℕ) → get_or (drop n xs) i d ≡ get_or xs (n + i) d
  get_or-drop zero xs i = get_or-same xs i (zero + i) (omega arith)
  get_or-drop (suc n) [] i = refl
  get_or-drop (suc n) (x ∷ xs) i =
      get_or-drop n xs i ∙ get_or-same (x ∷ xs) (suc (n + i)) (suc n + i) (omega arith)

-- The element `j` of block `k` is the element `k * block + j` of the array.
pub get_or-blocks_of :
    (block n : ℕ) (xs : List ℕ) (k j : ℕ)
    → j < block
    → k * block + j < length xs
    → k < n
    → (j < length (get_or (blocks_of block n xs) k []))
      × (get_or (get_or (blocks_of block n xs) k []) j 0 ≡ get_or xs (k * block + j) 0)
unfolding blocks_of
get_or-blocks_of block zero xs k j h l m = absurd (omega arith)
get_or-blocks_of block (suc n) xs zero j h l m =
    let e : (length xs == 0) ≡ false = ground arith in
    let l' : j < length xs = omega arith in
    rw (blocks_of, e)
      (
        omega (arith, length-take block xs),
        get_or-take block xs j 0 h ∙ get_or-same 0 xs j (zero * block + j) (omega arith),
      )
get_or-blocks_of block (suc n) xs (suc k) j h l m =
    let e : (length xs == 0) ≡ false = ground arith in
    let ih =
      get_or-blocks_of block n (drop block xs) k j h (omega (arith, length-drop block xs))
        (omega arith) in
    rw (blocks_of, e)
      (
        ih.0,
        ih.1
            ∙ get_or-drop 0 block xs (k * block + j)
            ∙ get_or-same 0 xs (block + (k * block + j)) (suc k * block + j) (omega arith),
      )

abbrev pub total_length : List (List ℕ) → ℕ
total_length [] = 0
total_length (b ∷ bs) = length b + total_length bs

-- No block is empty, and the blocks have no more elements than the array, with what holds of each.
pub blocks_of-pieces :
    (P : ℕ → Type 0) (block n : ℕ) (xs : List ℕ)
    → 0 < block
    → All P xs
    → All (λ b. (0 < length b) × All P b) (blocks_of block n xs)
      × (total_length (blocks_of block n xs) ≤ length xs)
unfolding blocks_of
blocks_of-pieces P block zero xs p h = (tt, omega arith)
blocks_of-pieces P block (suc n) xs p h = elim (Bool-cases (length xs == 0)) [
  | inl e ↦ rw (blocks_of, e) (tt, omega arith)
  | inr e ↦
      let ih = blocks_of-pieces P block n (drop block xs) p (All-drop P block xs h) in
      let lt = length-take block xs in
      let ld = length-drop block xs in
      let nz : 0 < length xs = ground arith in
      rw (blocks_of, e)
        (((omega (arith, lt, nz), All-take P block xs h), ih.0), omega (arith, lt, ld, ih.1))
]
