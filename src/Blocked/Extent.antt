-- ===== src/Blocked/Extent.antt =====
-- What the first pass of s2r__blocked_build of include/smart2raw.h keeps of one block.
use Prim.Native.Nat.{◌∣◌}
use native.Mathlib.Nat.{mod-lt, le_trans, div-le_self, mul-div-le, le-div_iff_mul-le}
use smart2raw.Base.{
  ltb, ◌==◌, if◌then◌else◌, ltb→lt, Bool-cases, length, All, All-imp, All-and, wrap_add, wrap_sub,
  wrap_mul, sx, wrap_mul_of_lt, wrap_sub-lt, ℕ, zero, suc, ◌+◌, ◌-◌, ◌/◌, ◌%◌, ◌^◌, ◌≤◌, ◌<◌, ◌≡◌,
  refl, sym, subst, ◌∙◌, inl, inr, Bool, true, false, List, [], ◌∷◌, arith,
}
use smart2raw.Gcd.{gcd_loop, gcd64}
use smart2raw.Affine.{common_step, at_least_one, index_of}
use smart2raw.Affine.Steps.{
  StepOf, one-StepOf, common_step-divides, StepOf-at_least_one, index_of-stride,
}
use smart2raw.Blocked.{word_lt, min_word, max_word, Stats, stats}

pub not_ltb : (a b : ℕ) → ltb a b ≡ false → b ≤ a
not_ltb a b e = ground arith

-- The words stand in the order of their keys.
abbrev pub word_key : Bool → ℕ → ℕ
word_key sg x = if sg then (x + 2 ^ 63) % 2 ^ 64 else x

word_lt-key :
    (sg : Bool) (x y : ℕ)
    → x < 2 ^ 64
    → y < 2 ^ 64
    → word_lt sg x y ≡ ltb (word_key sg x) (word_key sg y)
unfolding sx
word_lt-key true x y h k = ground arith
word_lt-key false x y h k = refl

abbrev IsLow : Bool → ℕ → ℕ → Type 0
IsLow sg m x = word_key sg m ≤ word_key sg x

abbrev IsHigh : Bool → ℕ → ℕ → Type 0
IsHigh sg m x = word_key sg x ≤ word_key sg m

-- The lower one of two words, and the higher one.
lower :
    (sg : Bool) (x m : ℕ)
    → x < 2 ^ 64
    → m < 2 ^ 64
    → let r = if word_lt sg x m then x else m in (r < 2 ^ 64) × IsLow sg r m × IsLow sg r x
lower sg x m h k =
    let e = word_lt-key sg x m h k in
    elim (Bool-cases (word_lt sg x m)) [
      | inl t ↦
          let lt = ltb→lt (word_key sg x) (word_key sg m) (sym e ∙ t) in
          rw t (h, omega arith, omega arith)
      | inr t ↦
          let le = not_ltb (word_key sg x) (word_key sg m) (sym e ∙ t) in rw t (k, omega arith, le)
    ]

higher :
    (sg : Bool) (x m : ℕ)
    → x < 2 ^ 64
    → m < 2 ^ 64
    → let r = if word_lt sg m x then x else m in (r < 2 ^ 64) × IsHigh sg r m × IsHigh sg r x
higher sg x m h k =
    let e = word_lt-key sg m x k h in
    elim (Bool-cases (word_lt sg m x)) [
      | inl t ↦
          let lt = ltb→lt (word_key sg m) (word_key sg x) (sym e ∙ t) in
          rw t (h, omega arith, omega arith)
      | inr t ↦
          let le = not_ltb (word_key sg m) (word_key sg x) (sym e ∙ t) in rw t (k, omega arith, le)
    ]

pub min_word-IsLow :
    (sg : Bool) (m : ℕ) (xs : List ℕ)
    → m < 2 ^ 64
    → All (λ x. x < 2 ^ 64) xs
    → let r = min_word sg m xs in (r < 2 ^ 64) × IsLow sg r m × All (IsLow sg r) xs
unfolding min_word
min_word-IsLow sg m [] h a = (h, omega arith, tt)
min_word-IsLow sg m (x ∷ xs) h a =
    let p = lower sg x m a.0 h in
    let ih = min_word-IsLow sg (if word_lt sg x m then x else m) xs p.0 a.1 in
    (ih.0, le_trans ih.1 p.1, (le_trans ih.1 p.2, ih.2))

pub max_word-IsHigh :
    (sg : Bool) (m : ℕ) (xs : List ℕ)
    → m < 2 ^ 64
    → All (λ x. x < 2 ^ 64) xs
    → let r = max_word sg m xs in (r < 2 ^ 64) × IsHigh sg r m × All (IsHigh sg r) xs
unfolding max_word
max_word-IsHigh sg m [] h a = (h, omega arith, tt)
max_word-IsHigh sg m (x ∷ xs) h a =
    let p = higher sg x m a.0 h in
    let ih = max_word-IsHigh sg (if word_lt sg m x then x else m) xs p.0 a.1 in
    (ih.0, le_trans p.1 ih.1, (le_trans p.2 ih.1, ih.2))

key_distance :
    (sg : Bool) (x m : ℕ)
    → x < 2 ^ 64
    → m < 2 ^ 64
    → IsLow sg m x
    → wrap_sub 64 x m ≡ word_key sg x - word_key sg m
unfolding wrap_sub
key_distance true x m h k l = omega arith
key_distance false x m h k l = omega arith

-- The distances from the least word are no greater than that of the greatest.
within :
    (sg : Bool) (mn mx x : ℕ)
    → mn < 2 ^ 64
    → mx < 2 ^ 64
    → x < 2 ^ 64
    → IsLow sg mn x
    → IsHigh sg mx x
    → wrap_sub 64 x mn ≤ wrap_sub 64 mx mn
within sg mn mx x a b c l h =
    omega (arith, key_distance sg x mn c a l, key_distance sg mx mn b a (omega (arith, l, h)))

gcd_loop-lt : (n B a b : ℕ) → a < B → b < B → (gcd_loop n a b).0 < B
unfolding gcd_loop
gcd_loop-lt zero B a b h k = h
gcd_loop-lt (suc n) B a b h k = elim (Bool-cases (b == 0)) [
  | inl z ↦ rw (gcd_loop, z) h
  | inr z ↦
      let m = mod-lt a {m = b} (ground arith) in
      rw (gcd_loop, z) (gcd_loop-lt n B b (a % b) k (omega (arith, m)))
]

common_step-lt : (mn g : ℕ) (xs : List ℕ) → g < 2 ^ 64 → common_step mn g xs < 2 ^ 64
unfolding common_step gcd64
common_step-lt mn g [] h = h
common_step-lt mn g (x ∷ xs) h = elim (Bool-cases (g == 1)) [
  | inl e ↦ rw (common_step, e) (omega arith)
  | inr e ↦
      rw (common_step, e)
        (common_step-lt mn (gcd64 g (wrap_sub 64 x mn)) xs
          (gcd_loop-lt 128 (2 ^ 64) g (wrap_sub 64 x mn) h (wrap_sub-lt 64 x mn (omega arith))))
]

sub_back : (x b : ℕ) → x < 2 ^ 64 → b < 2 ^ 64 → wrap_add 64 b (wrap_sub 64 x b) ≡ x
unfolding wrap_add wrap_sub
sub_back x b h k = omega arith

-- What is kept of the words of a block.
pub record IsKept (s : Stats) (b : List ℕ) : Type 0 where
  pub base_lt : s.base < 2 ^ 64
  pub span_lt : s.span < 2 ^ 64
  pub stride_lt : s.stride < 2 ^ 64
  pub stride_pos : 0 < s.stride
  pub back : All (λ x. wrap_add 64 s.base (wrap_mul 64 s.stride (index_of s.base s.stride x)) ≡ x) b
  pub index_le : All (λ x. index_of s.base s.stride x ≤ s.span) b

div_mono : (a b n : ℕ) → 0 < n → a ≤ b → a / n ≤ b / n
div_mono a b n p h = (le-div_iff_mul-le p).1 (omega (arith, mul-div-le a n, h))

-- The words of a block: each is the base and the stride times its index, which the span bounds.
module _ (base stride wide : ℕ) (lt : base < 2 ^ 64) (pos : 0 < stride) where
  index_back :
      (x : ℕ)
      → x < 2 ^ 64
      → stride ∣ wrap_sub 64 x base
      → wrap_add 64 base (wrap_mul 64 stride (index_of base stride x)) ≡ x
  unfolding wrap_add
  index_back x h d =
      let e = index_of-stride base stride x pos d in
      let b = wrap_sub-lt 64 x base (omega arith) in
      rw (wrap_mul_of_lt 64 stride (index_of base stride x) (omega (arith, e, b)), e)
        (sub_back x base h lt)

  index_of-le :
      (x : ℕ)
      → wrap_sub 64 x base ≤ wide
      → index_of base stride x ≤ (if ltb stride 2 then wide else wide / stride)
  index_of-le x h = elim (Bool-cases (ltb stride 2)) [
    | inl t ↦ let one : stride ≡ 1 = ground arith in rw (t, one) (omega arith)
    | inr t ↦
        let more : ltb 1 stride ≡ true = ground arith in
        rw (t, more) (div_mono (wrap_sub 64 x base) wide stride pos h)
  ]

at_least_one-lt : (g : ℕ) → g < 2 ^ 64 → at_least_one g < 2 ^ 64
at_least_one-lt g h = ground arith

stride-StepOf :
    (mn : ℕ) (b : List ℕ) (same : Bool)
    → let stride = at_least_one (if same then 0 else common_step mn 0 b) in
      (0 < stride) × (stride < 2 ^ 64) × StepOf stride mn b
stride-StepOf mn b true = (omega arith, omega arith, one-StepOf mn b)
stride-StepOf mn b false =
    let g = common_step mn 0 b in
    let d = StepOf-at_least_one g mn b (common_step-divides mn 0 b).1 in
    (d.0, at_least_one-lt g (common_step-lt mn 0 b (omega arith)), d.1)

span_lem :
    (step wide : ℕ)
    → (if ltb step 2 then wide else wide / step)
      ≡ (if ltb (at_least_one step) 2 then wide else wide / at_least_one step)
span_lem step wide = elim (Bool-cases (ltb step 2)) [ inl t ↦ rw t refl | inr t ↦ rw (t, t) refl ]

span-le : (step wide : ℕ) → (if ltb step 2 then wide else wide / step) ≤ wide
span-le step wide = elim (Bool-cases (ltb step 2)) [
  | inl t ↦ rw t (omega arith)
  | inr t ↦ rw t (div-le_self wide step)
]

pub stats-IsKept :
    (sg : Bool) (b : List ℕ) → 0 < length b → All (λ x. x < 2 ^ 64) b → IsKept (stats sg b) b
unfolding stats
stats-IsKept sg [] p a = absurd (omega arith)
stats-IsKept sg (x ∷ xs) p a =
    let b = x ∷ xs in
    let mn = min_word sg x xs in
    let mx = max_word sg x xs in
    let lo = min_word-IsLow sg x xs a.0 a.1 in
    let hi = max_word-IsHigh sg x xs a.0 a.1 in
    let wide = wrap_sub 64 mx mn in
    let step = if wide == 0 then 0 else common_step mn 0 b in
    let stride = at_least_one step in
    let d = stride-StepOf mn b (wide == 0) in
    let span_eq = span_lem step wide in
    let near : All (λ y. wrap_sub 64 y mn ≤ wide) b =
      All-imp (λ y. (y < 2 ^ 64) × (IsLow sg mn y × IsHigh sg mx y)) (λ y. wrap_sub 64 y mn ≤ wide)
        (λ y h. within sg mn mx y lo.0 hi.0 h.0 h.1.0 h.1.1) b
        (All-and (λ y. y < 2 ^ 64) (λ y. IsLow sg mn y × IsHigh sg mx y) b a
          (All-and (IsLow sg mn) (IsHigh sg mx) b (lo.1, lo.2) (hi.1, hi.2))) in
    record {
      base_lt = lo.0;
      span_lt = omega (arith, span-le step wide, wrap_sub-lt 64 mx mn (omega arith));
      stride_lt = d.1;
      stride_pos = d.0;
      back =
          All-imp (λ y. (y < 2 ^ 64) × (stride ∣ wrap_sub 64 y mn))
            (λ y. wrap_add 64 mn (wrap_mul 64 stride (index_of mn stride y)) ≡ y)
            (λ y h. index_back mn stride wide lo.0 d.0 y h.0 h.1) b
            (All-and (λ y. y < 2 ^ 64) (λ y. stride ∣ wrap_sub 64 y mn) b a d.2);
      index_le =
          All-imp (λ y. wrap_sub 64 y mn ≤ wide)
            (λ y. index_of mn stride y ≤ (if ltb step 2 then wide else wide / step))
            (λ y h.
              subst (λ k. index_of mn stride y ≤ k) (sym span_eq)
                (index_of-le mn stride wide lo.0 d.0 y h))
            b near;
    }
