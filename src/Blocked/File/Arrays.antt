-- ===== src/Blocked/File/Arrays.antt =====
-- The arrays of a block-wise column of include/smart2raw.h in the body of its file, and back.
use native.Mathlib.Nat.{zero-mul, mod-eq_of_lt}
use smart2raw.Base.{
  if◌then◌else◌, Bool-cases, length, get_or, take, drop, All, All-get_or_in, ℤ, IsWidth, wrap, sx,
  to_u64, by_width, ℕ, suc, ◌+◌, ◌*◌, ◌/◌, ◌%◌, ◌^◌, ◌<◌, ◌≡◌, refl, sym, ap, subst, ◌∙◌, inl, inr,
  Bool, true, List, [], ◌∷◌, ◌++◌, map, append_assoc, arith,
}
use smart2raw.Class.{abs_size}
use smart2raw.Format.{le_bytes, le_value, memory, words_of}
use smart2raw.Format.Bytes.{length-le_bytes, le_value-le_bytes, take-append_self, drop-append_self}
use smart2raw.Format.Hosts.{power_bytes}
use smart2raw.Blocked.{md_bytes, md_width, md_ru, md_rs}
use smart2raw.Blocked.File.{raw_word, staged, word_back, take_array}
use smart2raw.Blocked.RoundTrip.{drop-drop}
use smart2raw.Blocked.Words.{md_width-abs_size}

-- The bytes of the words that stand at the front, and what stands behind them.
pub words_of-front :
    (eb : ℕ) (vs rest : List ℕ)
    → All (λ x. x < 256 ^ eb) vs
    → (words_of true eb (length vs) (memory true eb vs ++ rest) ≡ vs)
      × (drop (length vs * eb) (memory true eb vs ++ rest) ≡ rest)
unfolding words_of memory
words_of-front eb [] rest h = (refl, rw (zero-mul eb) refl)
words_of-front eb (x ∷ xs) rest h =
    let b = le_bytes eb x in
    let tail = memory true eb xs ++ rest in
    let l = length-le_bytes eb x in
    let shape : memory true eb (x ∷ xs) ++ rest ≡ b ++ tail =
      append_assoc b (memory true eb xs) rest in
    let t : take eb (memory true eb (x ∷ xs) ++ rest) ≡ b =
      ap (take eb) shape ∙ ap (λ k. take k (b ++ tail)) (sym l) ∙ take-append_self b tail in
    let d : drop eb (memory true eb (x ∷ xs) ++ rest) ≡ tail =
      ap (drop eb) shape ∙ ap (λ k. drop k (b ++ tail)) (sym l) ∙ drop-append_self b tail in
    let ih = words_of-front eb xs rest h.1 in
    let v : le_value (take eb (memory true eb (x ∷ xs) ++ rest)) ≡ x =
      ap le_value t ∙ le_value-le_bytes eb x h.0 in
    let w : words_of true eb (length xs) (drop eb (memory true eb (x ∷ xs) ++ rest)) ≡ xs =
      ap (words_of true eb (length xs)) d ∙ ih.0 in
    let at : suc (length xs) * eb ≡ eb + length xs * eb = omega arith in
    let file = memory true eb (x ∷ xs) ++ rest in
    (
      λ i. v i ∷ w i,
      ap (λ k. drop k file) at
          ∙ drop-drop eb (length xs * eb) file
          ∙ ap (drop (length xs * eb)) d
          ∙ ih.1,
    )

-- The bytes of a word with its sign are those of the word.
sign_bytes :
    (w x : ℕ) → IsWidth w → x < 2 ^ w → le_bytes (w / 8) (to_u64 (sx w x)) ≡ le_bytes (w / 8) x
unfolding le_bytes sx to_u64
sign_bytes w x c =
    by_width (λ k. x < 2 ^ k → le_bytes (k / 8) (to_u64 (sx k x)) ≡ le_bytes (k / 8) x)
      (λ h. ground arith) (λ h. ground arith) (λ h. ground arith) (λ h. ground arith) w c

sign_word : (w x : ℕ) → IsWidth w → x < 2 ^ w → wrap w (to_u64 (sx w x)) ≡ x
unfolding wrap sx to_u64
sign_word w x c =
    by_width (λ k. x < 2 ^ k → wrap k (to_u64 (sx k x)) ≡ x) (λ h. ground arith) (λ h. ground arith)
      (λ h. ground arith) (λ h. ground arith) w c

staged-memory :
    (raw : ℕ → ℕ) (eb : ℕ) (vs : List ℕ) (k : ℕ)
    → ((i : ℕ) → i < length vs → le_bytes eb (raw (k + i)) ≡ le_bytes eb (get_or vs i 0))
    → staged raw eb (length vs) k ≡ memory true eb vs
unfolding staged memory
staged-memory raw eb [] k h = refl
staged-memory raw eb (x ∷ xs) k h =
    let first : le_bytes eb (raw k) ≡ le_bytes eb x =
      ap (λ j. le_bytes eb (raw j)) (omega arith) ∙ h 0 (omega arith) in
    let rest =
      staged-memory raw eb xs (k + 1)
        (λ i l. ap (λ j. le_bytes eb (raw j)) (omega arith) ∙ h (suc i) (omega arith)) in
    λ i. first i ++ rest i

class_bits-eq : (cls : ℤ) → IsWidth (abs_size cls) → md_bytes cls * 8 ≡ abs_size cls
class_bits-eq cls = by_width (λ w. w / 8 * 8 ≡ w) refl refl refl refl (abs_size cls)

module _ (sg : Bool) (cls : ℤ) (c : IsWidth (abs_size cls)) where
  -- The words of an array are below the power of its width.
  abbrev pub HeldIn : List ℕ → Type 0
  HeldIn a = All (λ x. x < 2 ^ abs_size cls) a

  raw_bytes :
      (x : ℕ)
      → x < 2 ^ abs_size cls
      → le_bytes (md_bytes cls) (if sg then to_u64 (sx (md_width cls) x) else x)
        ≡ le_bytes (md_bytes cls) x
  raw_bytes x h = elim (Bool-cases sg) [
    | inl s ↦ rw s (
        ap (λ w. le_bytes (md_bytes cls) (to_u64 (sx w x))) (md_width-abs_size cls c)
        ∙ sign_bytes (abs_size cls) x c h)
    | inr u ↦ rw u refl
  ]

  back : (x : ℕ) → x < 2 ^ abs_size cls → word_back sg cls x ≡ x
  unfolding wrap
  back x h = elim (Bool-cases sg) [
    | inl s ↦ rw s (
        ap (λ w. wrap w (to_u64 (sx (md_bytes cls * 8) x))) (md_width-abs_size cls c)
        ∙ ap (λ w. wrap (abs_size cls) (to_u64 (sx w x))) (class_bits-eq cls c)
        ∙ sign_word (abs_size cls) x c h)
    | inr u ↦ rw u (ap (λ w. x % 2 ^ w) (md_width-abs_size cls c) ∙ mod-eq_of_lt h)
  ]

  all_back : (a : List ℕ) → HeldIn a → map (word_back sg cls) a ≡ a
  all_back [] h = refl
  all_back (x ∷ xs) h = let one = back x h.0 in let rest = all_back xs h.1 in λ i. one i ∷ rest i

  -- What is staged of an array.
  pub staged_lem :
      (a : List ℕ)
      → HeldIn a
      → staged (raw_word sg cls a) (md_bytes cls) (length a) 0 ≡ memory true (md_bytes cls) a
  unfolding md_ru md_rs
  staged_lem a h = staged-memory (raw_word sg cls a) (md_bytes cls) a 0 (λ i l.
      ap (λ j. le_bytes (md_bytes cls) (raw_word sg cls a j)) (omega arith)
      ∙ raw_bytes (get_or a i 0) (All-get_or_in (λ x. x < 2 ^ abs_size cls) a i 0 l h))

  -- Reading the array back.
  pub take_array_lem :
      (n : ℕ) (a rest : List ℕ)
      → length a ≡ n
      → HeldIn a
      → take_array n sg cls (memory true (md_bytes cls) a ++ rest) ≡ (a, rest)
  take_array_lem n a rest e h =
      let eb = md_bytes cls in
      let file = memory true eb a ++ rest in
      let small : All (λ x. x < 256 ^ eb) a =
        subst (λ k. All (λ x. x < k) a) (sym (power_bytes (abs_size cls) c)) h in
      let r = words_of-front eb a rest small in
      let words : words_of true eb n file ≡ a = ap (λ k. words_of true eb k file) (sym e) ∙ r.0 in
      let got : map (word_back sg cls) (words_of true eb n file) ≡ a =
        ap (map (word_back sg cls)) words ∙ all_back a h in
      let left : drop (n * eb) file ≡ rest = ap (λ k. drop (k * eb) file) (sym e) ∙ r.1 in
      λ i. (got i, left i)
