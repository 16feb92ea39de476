-- ===== src/Format/Accepted.antt =====
-- The files that s2r_load_portable of include/smart2raw.h accepts.
use smart2raw.Base.{
  ◌==◌, if◌then◌else◌, Bool-cases, eq_of_==, length, take, drop, All, length-append, length-take,
  length-drop, All-take, All-drop, nil_of_length, IsWidth, wrap_mul, wrap_mul_of_lt, ℕ, zero, suc,
  ◌*◌, ◌/◌, ◌%◌, ◌^◌, ◌≤◌, ◌<◌, ◌≡◌, refl, sym, ap, subst, subst₂, ◌∙◌, inl, inr, Bool, true, not,
  Option, none, some, List, [], ◌++◌, append-nil, arith,
}
use smart2raw.Class.{abs_size}
use smart2raw.Pool.{S2RError, Pool, elem_bytes, is_neg, live, pool_init, ok}
use smart2raw.Pool.Valid.{IsValid}
use smart2raw.Pool.Memory.{Requestable, pool_init-IsValid}
use smart2raw.Arith.{loaded}
use smart2raw.Arith.Convert.{loaded-IsValid}
use smart2raw.Resize.Promote.{SignAgrees}
use smart2raw.Format.{magic_v33, le_bytes, le_value, memory, words_of, fread, rd_le}
use smart2raw.Format.File.{
  payload_crc, Header, Parsed, read_class, read_magic, host_words, filled_pool, read_tail,
  read_payload, read_body, load_portable, refused, header,
}
use smart2raw.Format.Bytes.{IsByte, le_value-lt, rd_le-append, memory-words_of}
use smart2raw.Format.Hosts.{power_bytes, host_words_lem}
use smart2raw.Format.Saved.{payload}
use smart2raw.Format.Headers.{
  GotBytes, fread-GotBytes, GotValue, rd_le-GotValue, class_bytes, Describes, read_magic-Describes,
  IsV33, read_class-IsV33,
}

-- The bytes of the file of a pool, with the flags byte `f`.
abbrev pub image_with : ℕ → Pool → List ℕ
image_with f p =
    le_bytes 4 magic_v33
    ++ (class_bytes p.size f
        ++ (le_bytes 8 p.count ++ (payload p ++ le_bytes 4 (payload_crc (payload p)))))

-- The answer S2R_OK is for the file of the pool that is returned.
abbrev pub Canonical : List ℕ → S2RError × Pool → Type 0
Canonical bs r =
    (f : ℕ) × (bs ≡ image_with f r.1)
    × (r.1.flags.signed ≡ (f % 2 == 1))
    × SignAgrees r.1
    × IsValid r.1

-- The pool that is filled has the payload that was read.
length-words_of : (little : Bool) (eb n : ℕ) (bs : List ℕ) → length (words_of little eb n bs) ≡ n
unfolding words_of
length-words_of little eb zero bs = refl
length-words_of little eb (suc n) bs = ap suc (length-words_of little eb n (drop eb bs))

words_of-lt :
    (eb n : ℕ) (bs : List ℕ)
    → All IsByte bs
    → length bs ≡ n * eb
    → All (λ x. x < 256 ^ eb) (words_of true eb n bs)
unfolding words_of
words_of-lt eb zero bs a l = tt
words_of-lt eb (suc n) bs a l =
    let t = take eb bs in
    let lt : length t ≡ eb = omega (arith, length-take eb bs, l) in
    (
      subst (λ k. le_value t < 256 ^ k) lt (le_value-lt t (All-take IsByte eb bs a)),
      words_of-lt eb n (drop eb bs) (All-drop IsByte eb bs a) (omega (arith, length-drop eb bs, l)),
    )

filled_lem :
    (little : Bool) (h : Header) (q : Pool) (raw : List ℕ)
    → IsValid q
    → q.size ≡ h.size
    → q.capacity ≡ h.count
    → IsWidth (abs_size h.size)
    → All IsByte raw
    → length raw ≡ h.count * (abs_size h.size / 8)
    → let p = filled_pool little h q raw in IsValid p × (payload p ≡ raw)
filled_lem little h q raw v e c w a l =
    let w8 = abs_size h.size in
    let eb = w8 / 8 in
    let xs = host_words little (elem_bytes q) h.count raw in
    let ys = words_of true eb h.count raw in
    let same : xs ≡ ys =
      ap (λ z. host_words little (abs_size z / 8) h.count raw) e
      ∙ host_words_lem w8 w little h.count raw a l in
    let n : length xs ≡ h.count = ap length same ∙ length-words_of true eb h.count raw in
    let small =
      subst (λ k. All (λ x. x < k) ys) (power_bytes w8 w) (words_of-lt eb h.count raw a l) in
    let o =
      loaded-IsValid q xs v (omega (arith, n, c))
        (subst₂ (λ z zs. All (λ x. x < 2 ^ abs_size z) zs) (sym e) (sym same) small) in
    let m = o.0 in
    let p = filled_pool little h q raw in
    let held : live p ≡ ys = ap (λ k. take k (loaded q xs).cells) (sym n) ∙ o.1 ∙ same in
    (
      record {
        class = m.class;
        room = omega (arith, c);
        cap_cells = m.cap_cells;
        cells_bytes = m.cells_bytes;
        small = m.small;
        words = m.words;
      },
      ap (λ z. memory true (abs_size z / 8) (live p)) e
          ∙ ap (memory true eb) held
          ∙ memory-words_of eb h.count raw a l,
    )

read_tail-Canonical :
    (little : Bool) (h : Header) (q : Pool) (raw r : List ℕ) (o : Option (ℕ × List ℕ))
    → GotValue 4 r o
    → (read_tail little h q raw o).0 ≡ ok
    → (r ≡ le_bytes 4 (payload_crc raw))
      × (read_tail little h q raw o ≡ (ok, filled_pool little h q raw))
unfolding read_tail
read_tail-Canonical little h q raw r none g e = absurd (cc e)
read_tail-Canonical little h q raw r (some (crc, rest)) g e =
    elim (Bool-cases (not (payload_crc raw == crc))) [
      | inl x ↦ absurd (cc (rw (read_tail, x) at e))
      | inr y ↦ elim (Bool-cases (not (length rest == 0))) [
        | inl x ↦ absurd (cc (rw (read_tail, y, x) at e))
        | inr z ↦
            let c : crc ≡ payload_crc raw = ground arith in
            let n = nil_of_length rest (ground arith) in
            (
              g.0 ∙ (λ i. le_bytes 4 (c i) ++ n i) ∙ append-nil (le_bytes 4 (payload_crc raw)),
              rw (read_tail, y, z) refl,
            )
      ]
    ]

read_payload-Canonical :
    (little : Bool) (h : Header) (q : Pool) (n : ℕ) (o : Option (List ℕ × List ℕ))
    → h.is_v33 ≡ true
    → GotBytes n h.rest o
    → (read_payload little h q o).0 ≡ ok
    → (raw : List ℕ) × (h.rest ≡ raw ++ le_bytes 4 (payload_crc raw))
      × (length raw ≡ n)
      × All IsByte raw
      × (read_payload little h q o ≡ (ok, filled_pool little h q raw))
unfolding read_payload read_tail
read_payload-Canonical little h q n none t g e = absurd (cc e)
read_payload-Canonical little h q n (some (raw, r)) t g e =
    let k =
      read_tail-Canonical little h q raw r (rd_le 4 r) (rd_le-GotValue 4 r g.3)
        (rw (read_payload, t) at e) in
    (raw, g.0 ∙ ap (λ xs. raw ++ xs) k.0, g.1, g.2, rw (read_payload, t) k.1)

payload-GotBytes :
    (n : ℕ) (rest : List ℕ)
    → All IsByte rest
    → GotBytes n rest (if n == 0 then some ([], rest) else fread n rest)
payload-GotBytes n rest a = elim (Bool-cases (n == 0)) [
  | inl z ↦ rw z (refl, sym (eq_of_== n 0 z), tt, a)
  | inr m ↦ rw m (fread-GotBytes n rest a)
]

-- A part of a short file is short.
rest-lt :
    (bs head fields count rest : List ℕ)
    → bs ≡ head ++ (fields ++ (count ++ rest))
    → length rest ≤ length bs
rest-lt bs head fields count rest e = omega (
  arith,
  ap length e,
  length-append head (fields ++ (count ++ rest)),
  length-append fields (count ++ rest),
  length-append count rest,
)

module _ (little : Bool) (alloc : ℕ → Bool) (bs : List ℕ) (few : length bs < 2 ^ 60)
    (q : Pool) where
  accepted :
      (h : Header)
      → Describes bs (header h)
      → h.is_v33 ≡ true
      → (read_body little alloc (header h) q).0 ≡ ok
      → Canonical bs (read_body little alloc (header h) q)
  unfolding read_body
  accepted h d t e =
      let (f, front, bit, sign, w, lt, fit, bytes) = d t in
      let eb = abs_size h.size / 8 in
      let r = (pool_init alloc q h.size h.count).1 in
      let n = wrap_mul 64 h.count eb in
      let same : n ≡ h.count * eb = wrap_mul_of_lt 64 h.count eb fit in
      let o = if n == 0 then some ([], h.rest) else fread n h.rest in
      elim (Bool-cases (pool_init alloc q h.size h.count).0) [
        | inr x ↦ absurd (cc (rw (read_body, x) at e))
        | inl g ↦
            let got : GotBytes n h.rest o = payload-GotBytes n h.rest bytes in
            let k = read_payload-Canonical little h r n o t got (rw (read_body, g) at e) in
            let crc = le_bytes 4 (payload_crc k.0) in
            let short =
              rest-lt bs (le_bytes 4 magic_v33) (class_bytes h.size f) (le_bytes 8 h.count) h.rest
                front in
            let small : Requestable (abs_size h.size) h.count =
              omega (arith, few, short, ap length k.1, length-append k.0 crc, k.2, same) in
            let i = pool_init-IsValid alloc q h.size h.count w small g in
            let m = filled_lem little h r k.0 i.0 i.1 i.2 w k.3 (k.2 ∙ same) in
            let p = filled_pool little h r k.0 in
            let done : read_body little alloc (header h) q ≡ (ok, p) = rw (read_body, g) k.4 in
            subst (Canonical bs) (sym done) (
              f,
              front
                  ∙ ap
                      (λ xs.
                        le_bytes 4 magic_v33
                        ++ (class_bytes h.size f ++ (le_bytes 8 h.count ++ xs)))
                      k.1
                  ∙ sym (λ j.
                    le_bytes 4 magic_v33
                    ++ (class_bytes (i.1 j) f
                        ++ (le_bytes 8 h.count ++ (m.1 j ++ le_bytes 4 (payload_crc (m.1 j)))))),
              bit,
              sign ∙ ap is_neg (sym i.1),
              m.0,
            )
      ]

  parsed_accepted :
      (o : Parsed)
      → Describes bs o
      → IsV33 o
      → (read_body little alloc o q).0 ≡ ok
      → Canonical bs (read_body little alloc o q)
  unfolding read_body
  parsed_accepted (refused x) d t e = absurd (t e)
  parsed_accepted (header h) d t e = accepted h d t e

-- A file of fewer than 2^60 bytes with the magic of version 3.3 for which `s2r_load_portable` answers
-- S2R_OK, on a host of either byte order, is that of the pool that it returns, but for the bits of the
-- flags byte that the format does not use; the pool is valid and its flag SIGNED agrees with its class.
pub load_portable-Canonical :
    (little : Bool) (alloc : ℕ → Bool) (rest : List ℕ) (q : Pool)
    → let bs = le_bytes 4 magic_v33 ++ rest in
      All IsByte bs
      → length bs < 2 ^ 60
      → (load_portable little alloc (some bs) q).0 ≡ ok
      → Canonical bs (load_portable little alloc (some bs) q)
unfolding load_portable read_magic
load_portable-Canonical little alloc rest q a few e =
    let bs = le_bytes 4 magic_v33 ++ rest in
    let v : read_magic (rd_le 4 bs) ≡ read_class magic_v33 (fread 4 rest) =
      ap read_magic (rd_le-append 4 magic_v33 rest (omega arith)) in
    parsed_accepted little alloc bs few q (read_magic (rd_le 4 bs)) (read_magic-Describes bs a)
      (subst IsV33 (sym v) (read_class-IsV33 (fread 4 rest))) e
