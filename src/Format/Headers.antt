-- ===== src/Format/Headers.antt =====
-- What s2r_load_portable of include/smart2raw.h reads of a header.
use smart2raw.Base.{
  ltb, leb, ◌==◌, if◌then◌else◌, Bool-cases, eq_of_==, length, get_or, All, length-take,
  take-append-drop, All-take, All-drop, All-get_or, ℤ, u64_max, IsWidth, is_width, is_width→IsWidth,
  sx, to_u64, by_width, ℕ, ◌*◌, ◌/◌, ◌%◌, ◌^◌, ◌<◌, ◌≡◌, refl, sym, ap, subst, ◌∙◌, ◌≢◌, inl, inr,
  Bool, true, false, ◌&&◌, ◌||◌, not, Option, none, some, List, [], ◌∷◌, ◌++◌, arith,
}
use smart2raw.Class.{abs_size}
use smart2raw.Pool.{is_neg, ok}
use smart2raw.Format.{magic_v33, fmt_version, le_bytes, le_value, fread, decoded, rd_le}
use smart2raw.Format.File.{
  magic_old, magic_v32, size_byte, Parsed, eqb, bad_v33, read_count, read_class, read_magic,
  refused, header,
}
use smart2raw.Format.Bytes.{IsByte, le_bytes-le_value, le_value-lt}

-- What a successful read says of the bytes.
abbrev pub GotBytes : ℕ → List ℕ → Option (List ℕ × List ℕ) → Type 0
GotBytes n bs none = Unit
GotBytes n bs (some (b, rest)) = (bs ≡ b ++ rest) × (length b ≡ n) × All IsByte b × All IsByte rest

pub fread-GotBytes : (n : ℕ) (bs : List ℕ) → All IsByte bs → GotBytes n bs (fread n bs)
fread-GotBytes n bs a = elim (Bool-cases (leb n (length bs))) [
  | inl e ↦ rw e (
    sym (take-append-drop n bs),
    ground (arith, length-take n bs),
    All-take IsByte n bs a,
    All-drop IsByte n bs a,
  )
  | inr f ↦ rw f tt
]

abbrev pub GotValue : ℕ → List ℕ → Option (ℕ × List ℕ) → Type 0
GotValue n bs none = Unit
GotValue n bs (some (v, rest)) = (bs ≡ le_bytes n v ++ rest) × (v < 256 ^ n) × All IsByte rest

decoded-GotValue :
    (n : ℕ) (bs : List ℕ) (o : Option (List ℕ × List ℕ))
    → GotBytes n bs o
    → GotValue n bs (decoded o)
decoded-GotValue n bs none h = tt
decoded-GotValue n bs (some (b, rest)) h =
    let back : le_bytes n (le_value b) ≡ b =
      ap (λ k. le_bytes k (le_value b)) (sym h.1) ∙ le_bytes-le_value b h.2 in
    (
      h.0 ∙ ap (λ xs. xs ++ rest) (sym back),
      subst (λ k. le_value b < 256 ^ k) h.1 (le_value-lt b h.2),
      h.3,
    )

pub rd_le-GotValue : (n : ℕ) (bs : List ℕ) → All IsByte bs → GotValue n bs (rd_le n bs)
unfolding rd_le
rd_le-GotValue n bs a = decoded-GotValue n bs (fread n bs) (fread-GotBytes n bs a)

-- The header's four bytes, with the flags byte `f`.
abbrev pub class_bytes : ℤ → ℕ → List ℕ
class_bytes size f = size_byte size ∷ f ∷ fmt_version ∷ 0 ∷ []

-- What a version 3.3 header that was accepted says of the bytes.
abbrev pub Describes : List ℕ → Parsed → Type 0
Describes bs (refused e) = Unit
Describes bs (header h) =
    h.is_v33 ≡ true
    → (f : ℕ) × (bs
        ≡ le_bytes 4 magic_v33 ++ (class_bytes h.size f ++ (le_bytes 8 h.count ++ h.rest)))
      × (h.signed ≡ (f % 2 == 1))
      × (h.signed ≡ is_neg h.size)
      × IsWidth (abs_size h.size)
      × (h.count < 2 ^ 64)
      × (h.count * (abs_size h.size / 8) < 2 ^ 64)
      × All IsByte h.rest

four :
    (xs : List ℕ)
    → length xs ≡ 4
    → xs ≡ get_or xs 0 0 ∷ get_or xs 1 0 ∷ get_or xs 2 0 ∷ get_or xs 3 0 ∷ []
four [] h = absurd (omega arith)
four (a ∷ []) h = absurd (omega arith)
four (a ∷ b ∷ []) h = absurd (omega arith)
four (a ∷ b ∷ c ∷ []) h = absurd (omega arith)
four (a ∷ b ∷ c ∷ d ∷ []) h = refl
four (a ∷ b ∷ c ∷ d ∷ e ∷ xs) h = absurd (omega arith)

and_right : (a b : Bool) → a ≡ true → (a && b) ≡ false → b ≡ false
and_right true b t h = h
and_right false b t h = absurd (cc t)

eqb_eq : (a b : Bool) → not (eqb a b) ≡ false → b ≡ a
eqb_eq true true h = refl
eqb_eq true false h = absurd (cc h)
eqb_eq false true h = absurd (cc h)
eqb_eq false false h = refl

byte_back : (b : ℕ) → IsByte b → size_byte (sx 8 b) ≡ b
unfolding sx to_u64
byte_back b h = ground arith

-- The header's bytes, of the class and the flags that were read.
good_v33 :
    (hdr : List ℕ) (size : ℤ) (signed : Bool)
    → length hdr ≡ 4
    → size_byte size ≡ get_or hdr 0 0
    → bad_v33 hdr size signed ≡ false
    → (hdr ≡ class_bytes size (get_or hdr 1 0)) × (signed ≡ is_neg size)
good_v33 hdr size signed l z h =
    let b : get_or hdr 2 0 ≡ fmt_version = ground arith in
    let r : get_or hdr 3 0 ≡ 0 = ground arith in
    let a : not (eqb (is_neg size) signed) ≡ false = ground arith in
    (four hdr l ∙ (λ i. sym z i ∷ get_or hdr 1 0 ∷ b i ∷ r i ∷ []), eqb_eq (is_neg size) signed a)

abbrev FitsCount : ℕ → Type 0
FitsCount w =
    (n : ℕ) → (not (w / 8 == 0) && ltb (u64_max / (w / 8)) n) ≡ false → n * (w / 8) < 2 ^ 64

fits_count : (w : ℕ) → IsWidth w → FitsCount w
fits_count =
    by_width FitsCount (λ n h. ground arith) (λ n h. ground arith) (λ n h. ground arith)
      (λ n h. ground arith)

module _ (bs : List ℕ) where
  abbrev Front : ℤ → ℕ → List ℕ → Type 0
  Front size f rest = bs ≡ le_bytes 4 magic_v33 ++ (class_bytes size f ++ rest)

  read_count-Describes :
      (v33 : Bool) (size : ℤ) (signed : Bool) (f : ℕ) (r : List ℕ) (o : Option (ℕ × List ℕ))
      → GotValue 8 r o
      → (v33 ≡ true → Front size f r × (signed ≡ (f % 2 == 1)) × (signed ≡ is_neg size))
      → Describes bs (read_count v33 size signed o)
  unfolding read_count
  read_count-Describes v33 size signed f r none g h = tt
  read_count-Describes v33 size signed f r (some (count, rest)) g h =
      elim (Bool-cases (is_width (abs_size size))) [
        | inr x ↦ rw x tt
        | inl w ↦ elim (Bool-cases (ltb u64_max count)) [
          | inl x ↦ rw (w, x) tt
          | inr c ↦
              elim (Bool-cases
                (not (abs_size size / 8 == 0) && ltb (u64_max / (abs_size size / 8)) count)) [
                  | inl x ↦ rw (w, c, x) tt
                  | inr y ↦
                      rw (w, c, y)
                        (λ t.
                          let k = h t in
                          (
                            f,
                            k.0 ∙ ap (λ xs. le_bytes 4 magic_v33 ++ (class_bytes size f ++ xs)) g.0,
                            k.1,
                            k.2,
                            is_width→IsWidth (abs_size size) w,
                            omega (arith, g.1),
                            fits_count (abs_size size) (is_width→IsWidth (abs_size size) w) count y,
                            g.2,
                          ))
                ]
        ]
      ]

  read_class-Describes :
      (magic : ℕ) (r : List ℕ) (o : Option (List ℕ × List ℕ))
      → bs ≡ le_bytes 4 magic ++ r
      → GotBytes (if magic == magic_v33 then 4 else 8) r o
      → Describes bs (read_class magic o)
  unfolding read_class
  read_class-Describes magic r none e g = tt
  read_class-Describes magic r (some (hdr, rest)) e g =
      let size = sx 8 (get_or hdr 0 0) in
      let signed = (magic == magic_v33 || magic == magic_v32) && get_or hdr 1 0 % 2 == 1 in
      elim (Bool-cases (magic == magic_v33 && bad_v33 hdr size signed)) [
        | inl x ↦ rw x tt
        | inr y ↦ rw y (
            read_count-Describes (magic == magic_v33) size signed (get_or hdr 1 0) rest
              (rd_le 8 rest) (rd_le-GotValue 8 rest g.3)
              (λ t.
                let n : length hdr ≡ 4 = rw t at g.1 in
                let z = byte_back (get_or hdr 0 0) (All-get_or IsByte hdr 0 0 (omega arith) g.2) in
                let k =
                  good_v33 hdr size signed n z
                    (and_right (magic == magic_v33) (bad_v33 hdr size signed) t y) in
                (
                  e
                      ∙ ap (λ m. le_bytes 4 m ++ r) (eq_of_== magic magic_v33 t)
                      ∙ ap (λ xs. le_bytes 4 magic_v33 ++ xs) g.0
                      ∙ ap (λ xs. le_bytes 4 magic_v33 ++ (xs ++ rest)) k.0,
                  rw t refl,
                  k.1,
                )))
      ]

  magic-Describes : (o : Option (ℕ × List ℕ)) → GotValue 4 bs o → Describes bs (read_magic o)
  unfolding read_magic
  magic-Describes none g = tt
  magic-Describes (some (magic, r)) g =
      let v33 = magic == magic_v33 in
      elim (Bool-cases (not v33 && not (magic == magic_old || magic == magic_v32))) [
        | inl x ↦ rw x tt
        | inr y ↦ rw y (
            let n = if v33 then 4 else 8 in
            read_class-Describes magic r (fread n r) g.0 (fread-GotBytes n r g.2))
      ]

  pub read_magic-Describes : All IsByte bs → Describes bs (read_magic (rd_le 4 bs))
  read_magic-Describes a = magic-Describes (rd_le 4 bs) (rd_le-GotValue 4 bs a)

-- A header after the magic of version 3.3; a refusal has an error.
abbrev pub IsV33 : Parsed → Type 0
IsV33 (refused e) = e ≢ ok
IsV33 (header h) = h.is_v33 ≡ true

read_count-IsV33 :
    (size : ℤ) (signed : Bool) (o : Option (ℕ × List ℕ)) → IsV33 (read_count true size signed o)
unfolding read_count
read_count-IsV33 size signed none = λ e. absurd (cc e)
read_count-IsV33 size signed (some (count, rest)) = elim (Bool-cases (is_width (abs_size size))) [
  | inr x ↦ rw x (λ e. absurd (cc e))
  | inl w ↦ elim (Bool-cases (ltb u64_max count)) [
    | inl x ↦ rw (w, x) (λ e. absurd (cc e))
    | inr c ↦
        elim (Bool-cases
          (not (abs_size size / 8 == 0) && ltb (u64_max / (abs_size size / 8)) count)) [
            | inl x ↦ rw (w, c, x) (λ e. absurd (cc e))
            | inr y ↦ rw (w, c, y) refl
          ]
  ]
]

pub read_class-IsV33 : (o : Option (List ℕ × List ℕ)) → IsV33 (read_class magic_v33 o)
unfolding read_class
read_class-IsV33 none = λ e. absurd (cc e)
read_class-IsV33 (some (hdr, rest)) =
    let size = sx 8 (get_or hdr 0 0) in
    let signed = get_or hdr 1 0 % 2 == 1 in
    elim (Bool-cases (bad_v33 hdr size signed)) [
      | inl x ↦ rw x (λ e. absurd (cc e))
      | inr y ↦ rw y (read_count-IsV33 size signed (rd_le 8 rest))
    ]
