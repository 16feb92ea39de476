-- ===== src/Format/Bytes.antt =====
-- The little-endian bytes of words in include/smart2raw.h: s2r__wr_le32 and the payload of a file.
use native.Mathlib.Nat.{pow-suc}
use smart2raw.Base.{
  leb, length, take, drop, All, length-append, length-take, length-drop, take-append-drop,
  All-append, All-take, All-drop, ℕ, zero, suc, ◌+◌, ◌*◌, ◌/◌, ◌%◌, ◌^◌, ◌<◌, ◌≡◌, refl, sym, ap,
  ◌∙◌, true, some, List, [], ◌∷◌, ◌++◌, arith,
}
use smart2raw.Format.{le_bytes, le_value, memory, words_of, fread, decoded, rd_le}

abbrev pub IsByte : ℕ → Type 0
IsByte b = b < 2 ^ 8

pub length-le_bytes : (n v : ℕ) → length (le_bytes n v) ≡ n
unfolding le_bytes
length-le_bytes zero v = refl
length-le_bytes (suc n) v = ap suc (length-le_bytes n (v / 2 ^ 8))

pub le_bytes-IsByte : (n v : ℕ) → All IsByte (le_bytes n v)
unfolding le_bytes
le_bytes-IsByte zero v = tt
le_bytes-IsByte (suc n) v = (omega arith, le_bytes-IsByte n (v / 2 ^ 8))

pub le_value-le_bytes : (n v : ℕ) → v < 256 ^ n → le_value (le_bytes n v) ≡ v
unfolding le_bytes le_value
le_value-le_bytes zero v h = omega arith
le_value-le_bytes (suc n) v h =
    let p = pow-suc 256 n in
    let ih = le_value-le_bytes n (v / 2 ^ 8) (omega (arith, p, h)) in omega (arith, ih)

pub le_bytes-le_value : (bs : List ℕ) → All IsByte bs → le_bytes (length bs) (le_value bs) ≡ bs
unfolding le_bytes le_value
le_bytes-le_value [] h = refl
le_bytes-le_value (b ∷ bs) h =
    let v = le_value bs in
    let low : (b + 2 ^ 8 * v) % 2 ^ 8 ≡ b = omega (arith, h.0) in
    let high : (b + 2 ^ 8 * v) / 2 ^ 8 ≡ v = omega (arith, h.0) in
    rw (low, high) (ap (λ l. b ∷ l) (le_bytes-le_value bs h.1))

pub le_value-lt : (bs : List ℕ) → All IsByte bs → le_value bs < 256 ^ length bs
unfolding le_value
le_value-lt [] h = omega arith
le_value-lt (b ∷ bs) h =
    let p = pow-suc 256 (length bs) in let ih = le_value-lt bs h.1 in omega (arith, p, ih, h.0)

module _ {ℓ} {A : Type ℓ} where
  pub take-append_self : (xs ys : List A) → take (length xs) (xs ++ ys) ≡ xs
  take-append_self [] ys = refl
  take-append_self (x ∷ xs) ys = ap (λ l. x ∷ l) (take-append_self xs ys)

  pub drop-append_self : (xs ys : List A) → drop (length xs) (xs ++ ys) ≡ ys
  drop-append_self [] ys = refl
  drop-append_self (x ∷ xs) ys = drop-append_self xs ys

-- Reading what was just written.
pub fread-append :
    (n : ℕ) (bs rest : List ℕ) → length bs ≡ n → fread n (bs ++ rest) ≡ some (bs, rest)
fread-append n bs rest h =
    let fits : leb n (length (bs ++ rest)) ≡ true = ground (arith, length-append bs rest) in
    let t : take n (bs ++ rest) ≡ bs =
      ap (λ k. take k (bs ++ rest)) (sym h) ∙ take-append_self bs rest in
    let d : drop n (bs ++ rest) ≡ rest =
      ap (λ k. drop k (bs ++ rest)) (sym h) ∙ drop-append_self bs rest in
    rw (fits, t, d) refl

pub rd_le-append :
    (n v : ℕ) (rest : List ℕ) → v < 256 ^ n → rd_le n (le_bytes n v ++ rest) ≡ some (v, rest)
unfolding rd_le
rd_le-append n v rest h =
    ap decoded (fread-append n (le_bytes n v) rest (length-le_bytes n v))
    ∙ ap (λ y. some (y, rest)) (le_value-le_bytes n v h)

-- The words of the payload.
pub length-memory : (eb : ℕ) (xs : List ℕ) → length (memory true eb xs) ≡ length xs * eb
unfolding memory
length-memory eb [] = omega arith
length-memory eb (x ∷ xs) = omega (
  arith,
  length-append (le_bytes eb x) (memory true eb xs),
  length-le_bytes eb x,
  length-memory eb xs,
)

pub memory-IsByte : (eb : ℕ) (xs : List ℕ) → All IsByte (memory true eb xs)
unfolding memory
memory-IsByte eb [] = tt
memory-IsByte eb (x ∷ xs) =
    All-append IsByte (le_bytes eb x) (memory true eb xs) (le_bytes-IsByte eb x)
      (memory-IsByte eb xs)

pub words_of-memory :
    (eb : ℕ) (xs : List ℕ)
    → All (λ x. x < 256 ^ eb) xs
    → words_of true eb (length xs) (memory true eb xs) ≡ xs
unfolding words_of memory
words_of-memory eb [] h = refl
words_of-memory eb (x ∷ xs) h =
    let b = le_bytes eb x in
    let bs = memory true eb xs in
    let l = length-le_bytes eb x in
    let t : take eb (b ++ bs) ≡ b = ap (λ k. take k (b ++ bs)) (sym l) ∙ take-append_self b bs in
    let d : drop eb (b ++ bs) ≡ bs = ap (λ k. drop k (b ++ bs)) (sym l) ∙ drop-append_self b bs in
    rw (t, d, le_value-le_bytes eb x h.0) (ap (λ ys. x ∷ ys) (words_of-memory eb xs h.1))

pub memory-words_of :
    (eb n : ℕ) (bs : List ℕ)
    → All IsByte bs
    → length bs ≡ n * eb
    → memory true eb (words_of true eb n bs) ≡ bs
unfolding words_of memory
memory-words_of eb zero [] h l = refl
memory-words_of eb zero (b ∷ bs) h l = absurd (omega arith)
memory-words_of eb (suc n) bs h l =
    let t = take eb bs in
    let lt : length t ≡ eb = omega (arith, length-take eb bs, l) in
    let back : le_bytes eb (le_value t) ≡ t =
      ap (λ k. le_bytes k (le_value t)) (sym lt) ∙ le_bytes-le_value t (All-take IsByte eb bs h) in
    rw
      (
        back,
        memory-words_of eb n (drop eb bs) (All-drop IsByte eb bs h)
            (omega (arith, length-drop eb bs, l)),
      )
      (take-append-drop eb bs)
