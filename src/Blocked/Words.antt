-- ===== src/Blocked/Words.antt =====
-- The bookkeeping arrays of S2RBlocked of include/smart2raw.h: the class of an array holds its words.
use native.Mathlib.Nat.{mod-eq_of_lt}
use smart2raw.Base.{
  ltb, if◌then◌else◌, length, get_or, All, All-get_or_in, All-imp, get_or-map, All-and, ℤ, IsWidth,
  wrap, sx, to_u64, by_width, Fits, sx-Fits, ℕ, ◌%◌, ◌^◌, ◌≤◌, ◌<◌, ◌≡◌, refl, ap, ◌∙◌, inl, inr,
  Bool, true, false, List, [], ◌∷◌, map, arith,
}
use smart2raw.Class.{abs_size, max_value, classify, max_from, classify_signed_range}
use smart2raw.Class.Least.{
  max_value-width, classify-least, max_from-bound, max_from-lt, classify_signed_range-least,
}
use smart2raw.Blocked.{md_width, md_ru, md_rs, md_word, min_word, max_word, range_class}
use smart2raw.Blocked.Extent.{word_key, min_word-IsLow, max_word-IsHigh}

max_word-max_from : (m : ℕ) (xs : List ℕ) → max_word false m xs ≡ max_from m xs
unfolding max_word max_from
max_word-max_from m [] = refl
max_word-max_from m (x ∷ xs) = max_word-max_from (if ltb m x then x else m) xs

pub md_width-abs_size : (cls : ℤ) → IsWidth (abs_size cls) → md_width cls ≡ abs_size cls
md_width-abs_size cls (inl e) = rw e refl
md_width-abs_size cls (inr (inl e)) = rw e refl
md_width-abs_size cls (inr (inr (inl e))) = rw e refl
md_width-abs_size cls (inr (inr (inr e))) = rw e refl

word_held : (cls : ℤ) (v : ℕ) → IsWidth (abs_size cls) → v ≤ max_value cls → md_word cls v ≡ v
unfolding wrap
word_held cls v w h =
    let t = max_value-width cls w in
    ap (λ k. v % 2 ^ k) (md_width-abs_size cls w) ∙ mod-eq_of_lt (omega (arith, t, h))

under_top : (m t : ℕ) → m ≤ t → (vs : List ℕ) → All (λ x. x ≤ m) vs → All (λ x. x ≤ t) vs
under_top m t h vs a = All-imp (λ x. x ≤ m) (λ x. x ≤ t) (λ x l. omega (arith, l, h)) vs a

words_same :
    (cls : ℤ) (vs : List ℕ)
    → IsWidth (abs_size cls)
    → All (λ v. v ≤ max_value cls) vs
    → map (md_word cls) vs ≡ vs
words_same cls [] w h = refl
words_same cls (v ∷ vs) w (h, hs) =
    let one : md_word cls v ≡ v = word_held cls v w h in
    let rest = words_same cls vs w hs in λ i. one i ∷ rest i

-- An array in the class of a bound of its words is the array.
pub words_held :
    (top : ℕ) (vs : List ℕ)
    → top < 2 ^ 64
    → All (λ v. v ≤ top) vs
    → map (md_word (classify top)) vs ≡ vs
words_held top vs h a =
    let c = classify-least top h in
    words_same (classify top) vs c.0 (under_top top (max_value (classify top)) c.1 vs a)

-- What is read of an array of bases or of sums, as a uint64_t.
abbrev pub range_word : Bool → List ℕ → ℤ → ℕ → ℕ
range_word sg a cls i = if sg then to_u64 (md_rs a cls i) else md_ru a cls i

-- A value that fits the width is read back from the word with its sign.
sign_back : (w v : ℕ) → IsWidth w → v < 2 ^ 64 → Fits w (sx 64 v) → to_u64 (sx w (wrap w v)) ≡ v
unfolding to_u64 sx wrap
sign_back w v c h =
    by_width (λ k. Fits k (sx 64 v) → to_u64 (sx k (wrap k v)) ≡ v) (λ g. ground arith)
      (λ g. ground arith) (λ g. ground arith) (λ g. ground arith) w c

Fits-word :
    (w lo hi x : ℕ)
    → lo < 2 ^ 64
    → hi < 2 ^ 64
    → x < 2 ^ 64
    → word_key true lo ≤ word_key true x
    → word_key true x ≤ word_key true hi
    → Fits w (sx 64 lo)
    → Fits w (sx 64 hi)
    → Fits w (sx 64 x)
unfolding sx
Fits-word w lo hi x a b c l h f g = ground arith

pub range_class-classify :
    (v : ℕ) (vs : List ℕ) → range_class false (v ∷ vs) ≡ classify (max_from v vs)
unfolding range_class
range_class-classify v vs = ap classify (max_word-max_from v vs)

range_read_unsigned :
    (vs : List ℕ) → All (λ v. v < 2 ^ 64) vs → map (md_word (range_class false vs)) vs ≡ vs
range_read_unsigned [] h = refl
range_read_unsigned (v ∷ vs) (h, hs) =
    let top = max_from-bound v vs in
    ap (λ c. map (md_word c) (v ∷ vs)) (range_class-classify v vs)
    ∙ words_held (max_from v vs) (v ∷ vs) (max_from-lt (2 ^ 64) v vs h hs) top

module _ (cls : ℤ) (c : IsWidth (abs_size cls)) where
  sign_read :
      (v : ℕ)
      → v < 2 ^ 64
      → Fits (abs_size cls) (sx 64 v)
      → to_u64 (sx (md_width cls) (md_word cls v)) ≡ v
  sign_read v h f =
      ap (λ w. to_u64 (sx w (wrap w v))) (md_width-abs_size cls c)
      ∙ sign_back (abs_size cls) v c h f

-- The class of the range of signed words holds each of them.
pub range_class-Fits :
    (v : ℕ) (vs : List ℕ)
    → All (λ x. x < 2 ^ 64) (v ∷ vs)
    → let c = range_class true (v ∷ vs) in
      IsWidth (abs_size c) × All (λ x. (x < 2 ^ 64) × Fits (abs_size c) (sx 64 x)) (v ∷ vs)
unfolding range_class
range_class-Fits v vs (h, hs) =
    let lo = min_word-IsLow true v vs h hs in
    let hi = max_word-IsHigh true v vs h hs in
    let mn = min_word true v vs in
    let mx = max_word true v vs in
    let c =
      classify_signed_range-least (sx 64 mn) (sx 64 mx) (omega (arith, sx-Fits 64 mn lo.0))
        (omega (arith, sx-Fits 64 mx hi.0)) in
    let w = abs_size (classify_signed_range (sx 64 mn) (sx 64 mx)) in
    (
      c.0,
      All-imp
          (λ x.
            (x < 2 ^ 64)
            × ((word_key true mn ≤ word_key true x) × (word_key true x ≤ word_key true mx)))
          (λ x. (x < 2 ^ 64) × Fits w (sx 64 x))
          (λ x k. (k.0, Fits-word w mn mx x lo.0 hi.0 k.0 k.1.0 k.1.1 c.2 c.3)) (v ∷ vs)
          (All-and (λ x. x < 2 ^ 64)
            (λ x. (word_key true mn ≤ word_key true x) × (word_key true x ≤ word_key true mx))
            (v ∷ vs) (h, hs)
            (All-and (λ x. word_key true mn ≤ word_key true x)
              (λ x. word_key true x ≤ word_key true mx) (v ∷ vs) (lo.1, lo.2) (hi.1, hi.2))),
    )

-- What is read of an array in the class of its range is what was written.
pub range_word_lem :
    (sg : Bool) (vs : List ℕ) (i : ℕ)
    → All (λ v. v < 2 ^ 64) vs
    → i < length vs
    → let c = range_class sg vs in range_word sg (map (md_word c) vs) c i ≡ get_or vs i 0
unfolding md_ru md_rs
range_word_lem false vs i h l = ap (λ ws. get_or ws i 0) (range_read_unsigned vs h)
range_word_lem true [] i h l = absurd (omega arith)
range_word_lem true (v ∷ vs) i h l =
    let c = range_class true (v ∷ vs) in
    let (w, a) = range_class-Fits v vs h in
    let k = All-get_or_in (λ x. (x < 2 ^ 64) × Fits (abs_size c) (sx 64 x)) (v ∷ vs) i 0 l a in
    ap (λ x. to_u64 (sx (md_width c) x)) (get_or-map (md_word c) (v ∷ vs) i 0 0 l)
    ∙ sign_read c w (get_or (v ∷ vs) i 0) k.0 k.1
