-- ===== src/Format/Hosts.antt =====
-- The payload of a file of include/smart2raw.h on a host of either byte order.
use smart2raw.Base.{
  ltb, if◌then◌else◌, length, take, drop, All, length-take, length-drop, All-take, All-drop,
  IsWidth, by_width, ℕ, zero, suc, ◌+◌, ◌*◌, ◌/◌, ◌%◌, ◌^◌, ◌<◌, ◌≡◌, refl, sym, ap, subst, ◌∙◌,
  Bool, true, false, List, [], ◌∷◌, ◌++◌, arith,
}
use smart2raw.Scan.Exact.{map-id}
use smart2raw.Format.{
  bswap16, bswap32, bswap64, bswap, swap_payload, le_bytes, le_value, be_bytes, be_value, memory,
  words_of,
}
use smart2raw.Format.File.{canon, host_words}
use smart2raw.Format.Bytes.{IsByte, le_bytes-le_value, le_value-lt}

cons_eq : {x y : ℕ} {xs ys : List ℕ} → x ≡ y → xs ≡ ys → x ∷ xs ≡ y ∷ ys
cons_eq h k = λ i. h i ∷ k i

-- A word with its bytes swapped, in the memory of a big-endian host.
abbrev SwapOut : ℕ → Type 0
SwapOut w = (x : ℕ) → x < 2 ^ w → be_bytes (w / 8) (bswap (w / 8) x) ≡ le_bytes (w / 8) x

SwapOut-16 : SwapOut 16
unfolding be_bytes le_bytes bswap bswap16
SwapOut-16 x h = cons_eq (omega arith) (cons_eq (omega arith) (refl))

swap_out_32 : (x : ℕ) → x < 2 ^ 32 → be_bytes 4 (bswap32 x) ≡ le_bytes 4 x
unfolding be_bytes le_bytes bswap32
swap_out_32 x h =
    cons_eq (omega arith)
      (cons_eq (omega arith) (cons_eq (omega arith) (cons_eq (omega arith) (refl))))

-- Eight bytes are twice four.
be_halves : (a b : ℕ) → b < 2 ^ 32 → be_bytes 8 (a * 2 ^ 32 + b) ≡ be_bytes 4 a ++ be_bytes 4 b
unfolding be_bytes
be_halves a b h = cons_eq (omega arith) (
    cons_eq (omega arith) (
      cons_eq (omega arith) (
        cons_eq (omega arith) (
          cons_eq (omega arith)
            (cons_eq (omega arith) (cons_eq (omega arith) (cons_eq (omega arith) (refl))))))))

le_halves : (x : ℕ) → le_bytes 8 x ≡ le_bytes 4 (x % 2 ^ 32) ++ le_bytes 4 (x / 2 ^ 32)
unfolding le_bytes
le_halves x = cons_eq (omega arith) (
    cons_eq (omega arith) (
      cons_eq (omega arith) (
        cons_eq (omega arith) (
          cons_eq (omega arith)
            (cons_eq (omega arith) (cons_eq (omega arith) (cons_eq (omega arith) (refl))))))))

bswap32-lt : (x : ℕ) → bswap32 x < 2 ^ 32
unfolding bswap32
bswap32-lt x = omega arith

SwapOut-64 : SwapOut 64
unfolding bswap bswap64
SwapOut-64 x h =
    let low = x % 2 ^ 32 in
    let high = x / 2 ^ 32 in
    be_halves (bswap32 low) (bswap32 high) (bswap32-lt high)
    ∙ (λ i. swap_out_32 low (omega arith) i ++ swap_out_32 high (omega arith) i)
    ∙ sym (le_halves x)

SwapOut-8 : SwapOut 8
unfolding be_bytes le_bytes bswap
SwapOut-8 x h = refl

swap_out : (w : ℕ) → IsWidth w → SwapOut w
unfolding bswap
swap_out = by_width SwapOut SwapOut-8 SwapOut-16 swap_out_32 SwapOut-64

-- And the bytes of a word, read on such a host and swapped.
abbrev SwapIn : ℕ → Type 0
SwapIn w = (v : ℕ) → v < 2 ^ w → bswap (w / 8) (be_value 0 (le_bytes (w / 8) v)) ≡ v

swap_in_32 : (v : ℕ) → v < 2 ^ 32 → bswap32 (be_value 0 (le_bytes 4 v)) ≡ v
unfolding be_value le_bytes bswap32
swap_in_32 v h = omega arith

SwapIn-64 : SwapIn 64
unfolding be_value le_bytes bswap bswap64
SwapIn-64 v h =
    let y = be_value 0 (le_bytes 8 v) in
    let high : y / 2 ^ 32 ≡ be_value 0 (le_bytes 4 (v % 2 ^ 32)) = omega arith in
    let low : y % 2 ^ 32 ≡ be_value 0 (le_bytes 4 (v / 2 ^ 32)) = omega arith in
    ap (λ z. bswap32 z * 2 ^ 32 + bswap32 (y / 2 ^ 32)) low
    ∙ ap (λ z. z * 2 ^ 32 + bswap32 (y / 2 ^ 32)) (swap_in_32 (v / 2 ^ 32) (omega arith))
    ∙ ap (λ z. v / 2 ^ 32 * 2 ^ 32 + bswap32 z) high
    ∙ ap (λ z. v / 2 ^ 32 * 2 ^ 32 + z) (swap_in_32 (v % 2 ^ 32) (omega arith))
    ∙ omega arith

swap_in : (w : ℕ) → IsWidth w → SwapIn w
unfolding be_value le_bytes bswap bswap16 bswap32
swap_in =
    by_width SwapIn (λ v h. omega arith) (λ v h. omega arith) (λ v h. swap_in_32 v h) SwapIn-64

-- Bytes have no order to swap.
abbrev SameSwap : ℕ → Type 0
SameSwap w =
    (xs : List ℕ)
    → (if ltb 1 (w / 8) then swap_payload (w / 8) xs else xs) ≡ swap_payload (w / 8) xs

same_swap : (w : ℕ) → IsWidth w → SameSwap w
unfolding swap_payload bswap
same_swap = by_width SameSwap (λ xs. sym (map-id xs)) (λ xs. refl) (λ xs. refl) (λ xs. refl)

pub power_bytes : (w : ℕ) → IsWidth w → 256 ^ (w / 8) ≡ 2 ^ w
power_bytes = by_width (λ w. 256 ^ (w / 8) ≡ 2 ^ w) refl refl refl refl

module _ (w : ℕ) (h : IsWidth w) where
  memory_swapped :
      (xs : List ℕ)
      → All (λ x. x < 2 ^ w) xs
      → memory false (w / 8) (swap_payload (w / 8) xs) ≡ memory true (w / 8) xs
  unfolding memory swap_payload
  memory_swapped [] a = refl
  memory_swapped (x ∷ xs) a = λ i. swap_out w h x a.0 i ++ memory_swapped xs a.1 i

  -- The payload of a file does not depend on the host.
  pub canon_lem :
      (little : Bool) (xs : List ℕ)
      → All (λ x. x < 2 ^ w) xs
      → canon little (w / 8) xs ≡ memory true (w / 8) xs
  canon_lem true xs a = refl
  canon_lem false xs a = ap (memory false (w / 8)) (same_swap w h xs) ∙ memory_swapped xs a

  swapped_value :
      (bs : List ℕ)
      → All IsByte bs
      → length bs ≡ w / 8
      → bswap (w / 8) (be_value 0 bs) ≡ le_value bs
  swapped_value bs a l =
      let eb = w / 8 in
      let v = le_value bs in
      let back : le_bytes eb v ≡ bs = ap (λ k. le_bytes k v) (sym l) ∙ le_bytes-le_value bs a in
      let lt : v < 2 ^ w =
        subst (λ k. v < k) (ap (λ k. 256 ^ k) l ∙ power_bytes w h) (le_value-lt bs a) in
      ap (λ xs. bswap eb (be_value 0 xs)) (sym back) ∙ swap_in w h v lt

  words_swapped :
      (n : ℕ) (raw : List ℕ)
      → All IsByte raw
      → length raw ≡ n * (w / 8)
      → swap_payload (w / 8) (words_of false (w / 8) n raw) ≡ words_of true (w / 8) n raw
  unfolding words_of swap_payload
  words_swapped zero raw a l = refl
  words_swapped (suc n) raw a l =
      let eb = w / 8 in
      let first =
        swapped_value (take eb raw) (All-take IsByte eb raw a)
          (omega (arith, length-take eb raw, l)) in
      let others =
        words_swapped n (drop eb raw) (All-drop IsByte eb raw a)
          (omega (arith, length-drop eb raw, l)) in
      λ i. first i ∷ others i

  -- Nor do the words that are made of it.
  pub host_words_lem :
      (little : Bool) (n : ℕ) (raw : List ℕ)
      → All IsByte raw
      → length raw ≡ n * (w / 8)
      → host_words little (w / 8) n raw ≡ words_of true (w / 8) n raw
  host_words_lem true n raw a l = refl
  host_words_lem false n raw a l =
      same_swap w h (words_of false (w / 8) n raw) ∙ words_swapped n raw a l
