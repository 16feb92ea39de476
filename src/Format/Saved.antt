-- ===== src/Format/Saved.antt =====
-- s2r_save_portable of include/smart2raw.h: the bytes of the file.
use smart2raw.Base.{
  ltb, leb, ◌==◌, Bool-cases, length, nil_of_length, IsWidth, IsWidth→is_width, by_width, ℕ, ◌*◌,
  ◌/◌, ◌^◌, ◌≤◌, ◌<◌, ◌≡◌, refl, sym, ap, ◌∙◌, inl, inr, Bool, true, ◌&&◌, not, List, [], ◌++◌,
  append-nil, arith,
}
use smart2raw.Pool.{Pool, width, elem_bytes, used_bytes, live, ok}
use smart2raw.Pool.Valid.{IsValid, live-words, length-live}
use smart2raw.Format.{magic_v33, le_bytes, memory, Output, fwrite, wr_le32}
use smart2raw.Format.File.{canon, header_bytes, payload_crc, and_write, write_all, save_portable}
use smart2raw.Format.Bytes.{length-memory}
use smart2raw.Format.Hosts.{canon_lem}

abbrev pub payload : Pool → List ℕ
payload p = memory true (elem_bytes p) (live p)

-- The fields of the file in their order: magic, class, flags, version, reserved byte, count, payload,
-- checksum.
abbrev pub image : Pool → List ℕ
image p =
    le_bytes 4 magic_v33
    ++ header_bytes p
    ++ le_bytes 8 p.count
    ++ payload p
    ++ le_bytes 4 (payload_crc (payload p))

pub fwrite_ok :
    (f : Output) (bs : List ℕ) → (fwrite f bs).0 ≡ true → (fwrite f bs).1.written ≡ f.written ++ bs
fwrite_ok f bs h = elim (Bool-cases (leb (length bs) f.room)) [
  | inl e ↦ rw e refl
  | inr n ↦ absurd (cc (rw n at h))
]

pub and_write_ok :
    (r : Bool × Output) (bs : List ℕ)
    → (and_write r bs).0 ≡ true
    → (r.0 ≡ true) × ((and_write r bs).1.written ≡ r.1.written ++ bs)
and_write_ok r bs h = elim (Bool-cases r.0) [
  | inl e ↦ (e, rw e (fwrite_ok r.1 bs (rw e at h)))
  | inr n ↦ absurd (cc (rw n at h))
]

abbrev FitsBytes : ℕ → Type 0
FitsBytes w = (n b : ℕ) → n ≤ b / (w / 8) → b < 2 ^ 64 → n * (w / 8) < 2 ^ 64

fits_bytes : (w : ℕ) → IsWidth w → FitsBytes w
fits_bytes =
    by_width FitsBytes (λ n b e h. omega arith) (λ n b e h. omega arith) (λ n b e h. omega arith)
      (λ n b e h. omega arith)

-- The bytes in use fit in a size_t.
pub payload-lt : {p : Pool} → IsValid p → p.count * elem_bytes p < 2 ^ 64
payload-lt {p} v =
    fits_bytes (width p) v.class p.count p.byte_cap
      (omega (arith, v.room, v.cap_cells, v.cells_bytes)) v.small

abbrev written_fields : Pool → List ℕ → List ℕ
written_fields p src =
    le_bytes 4 magic_v33
    ++ header_bytes p
    ++ le_bytes 8 p.count
    ++ src
    ++ le_bytes 4 (payload_crc src)

write_all-success :
    (room : ℕ) (p : Pool) (src : List ℕ)
    → ((used_bytes p == 0) ≡ true → src ≡ [])
    → (write_all room p src).0 ≡ true
    → (write_all room p src).1.written ≡ written_fields p src
unfolding write_all
write_all-success room p src z e =
    let start = wr_le32 (record { written = []; room = room }) magic_v33 in
    let named = and_write start (header_bytes p) in
    let counted = and_write named (le_bytes 8 p.count) in
    let crc = le_bytes 4 (payload_crc src) in
    let fields : counted.0 ≡ true
        → counted.1.written ≡ le_bytes 4 magic_v33 ++ header_bytes p ++ le_bytes 8 p.count =
      λ c.
        let k = and_write_ok named (le_bytes 8 p.count) c in
        let h = and_write_ok start (header_bytes p) k.0 in
        k.1
        ∙ ap (λ xs. xs ++ le_bytes 8 p.count) h.1
        ∙ ap (λ xs. xs ++ header_bytes p ++ le_bytes 8 p.count)
            (fwrite_ok (record { written = []; room = room }) (le_bytes 4 magic_v33) h.0) in
    elim (Bool-cases (used_bytes p == 0)) [
      | inl empty ↦
          let r = and_write_ok counted crc (rw (write_all, empty) at e) in
          rw (write_all, empty)
            (r.1
              ∙ ap (λ xs. xs ++ crc) (fields r.0)
              ∙ (ap (λ xs. xs ++ crc)
                    (sym
                      (append-nil (le_bytes 4 magic_v33 ++ header_bytes p ++ le_bytes 8 p.count)))
                  ∙ ap
                      (λ xs.
                        le_bytes 4 magic_v33 ++ header_bytes p ++ le_bytes 8 p.count ++ xs ++ crc)
                      (sym (z empty))))
      | inr some_in ↦
          let r = and_write_ok (and_write counted src) crc (rw (write_all, some_in) at e) in
          let s = and_write_ok counted src r.0 in
          rw (write_all, some_in)
            (r.1 ∙ ap (λ xs. xs ++ crc) (s.1 ∙ ap (λ xs. xs ++ src) (fields s.0)))
    ]

pub empty_payload : {p : Pool} → IsValid p → (used_bytes p == 0) ≡ true → payload p ≡ []
empty_payload {p} v z =
    let n : p.count * elem_bytes p ≡ 0 = ground (arith, payload-lt v) in
    nil_of_length (payload p)
      (length-memory (elem_bytes p) (live p) ∙ ap (λ k. k * elem_bytes p) (length-live v) ∙ n)

-- On a valid pool, a save that answers S2R_OK has written the fields of the format, whatever the byte order of
-- the host.
pub save_portable-image :
    (little : Bool) (alloc : ℕ → Bool) (opened : Bool) (room : ℕ) (p : Pool)
    → IsValid p
    → (save_portable little alloc opened room p).0 ≡ ok
    → (save_portable little alloc opened room p).1 ≡ image p
unfolding save_portable
save_portable-image little alloc opened room p v e =
    let c = canon_lem (width p) v.class little (live p) (live-words v) in
    let w = IsWidth→is_width (width p) v.class in
    elim (Bool-cases opened) [
      | inr shut ↦ absurd (cc (rw (save_portable, w, shut) at e))
      | inl o ↦
          elim (Bool-cases (
            not little
            && not (used_bytes p == 0)
            && ltb 1 (elem_bytes p)
            && not (alloc (used_bytes p)))) [
              | inl oom ↦ absurd (cc (rw (save_portable, w, o, oom) at e))
              | inr room_for ↦
                  elim (Bool-cases (write_all room p (canon little (elem_bytes p) (live p))).0) [
                    | inr f ↦ absurd (cc (rw (save_portable, w, o, room_for, f) at e))
                    | inl d ↦
                        rw (save_portable, w, o, room_for)
                          (write_all-success room p (canon little (elem_bytes p) (live p))
                              (λ z. c ∙ empty_payload v z) d
                            ∙ ap (written_fields p) c)
                  ]
            ]
    ]
