-- ===== src/Blocked/File/Classes.antt =====
-- The classes that s2r__blocked_build of include/smart2raw.h picks, as s2r_blocked_load tests them.
use smart2raw.Base.{
  if◌then◌else◌, length, All, ℤ, ltb_ℤ, pos, IsWidth, IsWidth→is_width, wrap, sx, by_width, ℕ, ◌%◌,
  ◌^◌, ◌<◌, ◌≡◌, refl, sym, subst, Bool, true, false, ◌||◌, List, [], ◌∷◌, map, arith,
}
use smart2raw.Class.{abs_size, classify, classify_signed, max_from, classify_signed_range}
use smart2raw.Class.Least.{max_from-lt}
use smart2raw.Pool.{is_neg}
use smart2raw.Blocked.{
  Blocked, md_word, delta_bytes, min_word, max_word, Stats, range_class, class_bits,
}
use smart2raw.Blocked.Words.{md_width-abs_size, range_class-classify, range_class-Fits}
use smart2raw.Blocked.File.{bad_classes, is_delta_class}

-- A class of unsigned words, and one of the words of a column.
abbrev pub Unsigned : ℤ → Type 0
Unsigned c = IsWidth (abs_size c) × (is_neg c ≡ false)

abbrev pub Ranged : Bool → ℤ → Type 0
Ranged sg c = IsWidth (abs_size c) × ((if sg then ltb_ℤ (pos 0) c else is_neg c) ≡ false)

pub classify-Unsigned : (v : ℕ) → v < 2 ^ 64 → Unsigned (classify v)
unfolding classify
classify-Unsigned v h = ground arith

not_positive : (lo hi : ℤ) → ltb_ℤ (pos 0) (classify_signed_range lo hi) ≡ false
unfolding classify_signed_range classify_signed
not_positive lo hi = ground arith

range_not_positive : (v : ℕ) (vs : List ℕ) → ltb_ℤ (pos 0) (range_class true (v ∷ vs)) ≡ false
unfolding range_class
range_not_positive v vs = not_positive (sx 64 (min_word true v vs)) (sx 64 (max_word true v vs))

pub range_class-Ranged :
    (sg : Bool) (vs : List ℕ)
    → All (λ v. v < 2 ^ 64) vs
    → 0 < length vs
    → Ranged sg (range_class sg vs)
range_class-Ranged sg [] h p = absurd (omega arith)
range_class-Ranged false (v ∷ vs) h p =
    rw (range_class-classify v vs)
      (classify-Unsigned (max_from v vs) (max_from-lt (2 ^ 64) v vs h.0 h.1))
range_class-Ranged true (v ∷ vs) h p = ((range_class-Fits v vs h).0, range_not_positive v vs)

both_ranged :
    (sg : Bool) (c d : ℤ)
    → (if sg then ltb_ℤ (pos 0) c else is_neg c) ≡ false
    → (if sg then ltb_ℤ (pos 0) d else is_neg d) ≡ false
    → (if sg then ltb_ℤ (pos 0) c || ltb_ℤ (pos 0) d else is_neg c || is_neg d) ≡ false
both_ranged true c d e f = rw (e, f) refl
both_ranged false c d e f = rw (e, f) refl

pub bad_classes-Ranged :
    (b : Blocked)
    → Ranged b.is_signed b.bcls
    → Unsigned b.pcls
    → Unsigned b.ocls
    → Ranged b.is_signed b.scls
    → bad_classes b ≡ false
bad_classes-Ranged b (w0, s0) (w1, s1) (w2, s2) (w3, s3) =
    rw
      (
        IsWidth→is_width (abs_size b.bcls) w0,
        IsWidth→is_width (abs_size b.pcls) w1,
        IsWidth→is_width (abs_size b.ocls) w2,
        IsWidth→is_width (abs_size b.scls) w3,
        s1,
        s2,
      )
      (both_ranged b.is_signed b.bcls b.scls s0 s3)

-- The words of an array lie below the width of its class.
md_word-lt : (c : ℤ) (v : ℕ) → IsWidth (abs_size c) → md_word c v < 2 ^ abs_size c
unfolding wrap
md_word-lt c v w =
    subst (λ k. v % 2 ^ k < 2 ^ abs_size c) (sym (md_width-abs_size c w))
      (by_width (λ k. v % 2 ^ k < 2 ^ k) (omega arith) (omega arith) (omega arith) (omega arith)
        (abs_size c) w)

pub words_below :
    (c : ℤ) (vs : List ℕ)
    → IsWidth (abs_size c)
    → All (λ x. x < 2 ^ abs_size c) (map (md_word c) vs)
words_below c [] w = tt
words_below c (v ∷ vs) w = (md_word-lt c v w, words_below c vs w)

pub class_bits-is_delta_class : (s : Stats) → is_delta_class (class_bits s) ≡ true
unfolding delta_bytes
class_bits-is_delta_class s = ground arith
