-- ===== src/Class.antt =====
-- The classes of include/smart2raw.h and their limits: HELPERS, VALUE LIMITS, CLASSIFICATION.
-- A class is the int8_t of the code: the bits of an element, negative for a signed class.
pub mod Least
use smart2raw.Base.{
  ℕ, suc, ◌-◌, ◌^◌, List, [], ◌∷◌, ltb, leb, ◌==◌, if◌then◌else◌, ℤ, pos, negsuc, ltb_ℤ, leb_ℤ,
  eqb_ℤ, u64_max, ◌&&◌,
}

-- The enumerators of S2RSize and S2RSizeSigned.
abbrev pub s8 : ℤ
s8 = pos 8

abbrev pub s16 : ℤ
s16 = pos 16

abbrev pub s32 : ℤ
s32 = pos 32

abbrev pub s64 : ℤ
s64 = pos 64

abbrev pub i8 : ℤ
i8 = negsuc 7

abbrev pub i16 : ℤ
i16 = negsuc 15

abbrev pub i32 : ℤ
i32 = negsuc 31

abbrev pub i64 : ℤ
i64 = negsuc 63

abbrev pub abs_size : ℤ → ℕ
abs_size (pos n) = n
abs_size (negsuc n) = suc n

unfoldable pub max_value : ℤ → ℕ
max_value size =
    if abs_size size == 8
    then 0xff
    else if abs_size size == 16
    then 0xffff
    else if abs_size size == 32
    then 0xffff_ffff
    else if abs_size size == 64
    then u64_max
    else 0

unfoldable pub min_signed : ℤ → ℤ
min_signed size =
    if eqb_ℤ size i8
    then negsuc (2 ^ 7 - 1)
    else if eqb_ℤ size i16
    then negsuc (2 ^ 15 - 1)
    else if eqb_ℤ size i32
    then negsuc (2 ^ 31 - 1)
    else if eqb_ℤ size i64
    then negsuc (2 ^ 63 - 1)
    else pos 0

-- The default case casts `max_value`, whose only value above INT64_MAX is that of S2R_64.
unfoldable pub max_signed : ℤ → ℤ
max_signed size =
    if eqb_ℤ size i8
    then pos (2 ^ 7 - 1)
    else if eqb_ℤ size i16
    then pos (2 ^ 15 - 1)
    else if eqb_ℤ size i32
    then pos (2 ^ 31 - 1)
    else if eqb_ℤ size i64
    then pos (2 ^ 63 - 1)
    else if max_value size == u64_max
    then negsuc 0
    else pos (max_value size)

unfoldable pub classify : ℕ → ℤ
classify v =
    if leb v 0xff then s8 else if leb v 0xffff then s16 else if leb v 0xffff_ffff then s32 else s64

unfoldable pub classify_signed : ℤ → ℤ
classify_signed v =
    if leb_ℤ (negsuc (2 ^ 7 - 1)) v && leb_ℤ v (pos (2 ^ 7 - 1))
    then i8
    else if leb_ℤ (negsuc (2 ^ 15 - 1)) v && leb_ℤ v (pos (2 ^ 15 - 1))
    then i16
    else if leb_ℤ (negsuc (2 ^ 31 - 1)) v && leb_ℤ v (pos (2 ^ 31 - 1))
    then i32
    else i64

-- The running extremum of a loop over the rest of an array.
unfoldable pub max_from : ℕ → List ℕ → ℕ
max_from m [] = m
max_from m (x ∷ xs) = max_from (if ltb m x then x else m) xs

unfoldable pub min_from : ℕ → List ℕ → ℕ
min_from m [] = m
min_from m (x ∷ xs) = min_from (if ltb x m then x else m) xs

unfoldable pub max_from_ℤ : ℤ → List ℤ → ℤ
max_from_ℤ m [] = m
max_from_ℤ m (x ∷ xs) = max_from_ℤ (if ltb_ℤ m x then x else m) xs

unfoldable pub min_from_ℤ : ℤ → List ℤ → ℤ
min_from_ℤ m [] = m
min_from_ℤ m (x ∷ xs) = min_from_ℤ (if ltb_ℤ x m then x else m) xs

unfoldable pub classify_array : List ℕ → ℤ
classify_array [] = s8
classify_array (x ∷ xs) = classify (max_from x xs)

-- The more negative class is the larger one.
unfoldable pub classify_signed_range : ℤ → ℤ → ℤ
classify_signed_range lo hi =
    if ltb_ℤ (classify_signed lo) (classify_signed hi)
    then classify_signed lo
    else classify_signed hi

unfoldable pub classify_signed_array : List ℤ → ℤ
classify_signed_array [] = i8
classify_signed_array (x ∷ xs) =
    let cls_min = classify_signed (min_from_ℤ x xs) in
    let cls_max = classify_signed (max_from_ℤ x xs) in
    if ltb_ℤ cls_min cls_max then cls_min else cls_max
