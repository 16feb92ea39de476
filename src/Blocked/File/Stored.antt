-- ===== src/Blocked/File/Stored.antt =====
-- The file that s2r_blocked_save of include/smart2raw.h writes of a well-formed column.
use smart2raw.Base.{
  ◌==◌, if◌then◌else◌, Bool-cases, Option-cases, length, take, All, take-all, ℤ, IsWidth, is_width,
  wrap_add, wrap_sub, ℕ, ◌+◌, ◌*◌, ◌/◌, ◌^◌, ◌<◌, ◌≡◌, refl, sym, ap, ◌∙◌, inl, inr, Bool, true,
  false, ◌||◌, not, List, [], ◌∷◌, ◌++◌, append-nil, append_assoc, arith,
}
use smart2raw.Class.{s8, abs_size}
use smart2raw.Pool.{S2RError, is_neg, ok, err_io}
use smart2raw.Format.{magic_v33, le_bytes, memory, Output, fwrite, wr_le32}
use smart2raw.Format.File.{size_byte, payload_crc, and_write}
use smart2raw.Format.Saved.{image, fwrite_ok, and_write_ok}
use smart2raw.Blocked.{Blocked, md_bytes}
use smart2raw.Blocked.File.{
  row_bytes, body_len, raw_word, staged, staged_array, body_bytes, blk_stage, blk_header,
  class_bytes, write_blocks, blocked_save, bad_classes, all_fit,
}
use smart2raw.Blocked.File.Arrays.{staged_lem}

-- The arrays of a column are as long as its blocks are many, in classes that hold their words, and
-- its blocks pass the checks of the loader.
pub record IsStored (b : Blocked) : Type 0 where
  pub count_lt : b.count < 2 ^ 64
  pub block_lt : b.block < 2 ^ 64
  pub block_pos : 0 < b.block
  pub nblocks_eq : b.nblocks ≡ wrap_sub 64 (wrap_add 64 b.count b.block) 1 / b.block
  pub small : b.nblocks * row_bytes b + b.bytes < 2 ^ 64
  pub none_bytes : b.nblocks ≡ 0 → b.bytes ≡ 0
  pub classes : bad_classes b ≡ false
  pub tcls_width : IsWidth (abs_size b.tcls)
  pub tcls_pos : is_neg b.tcls ≡ false
  pub tcls_plain : b.has_stride ≡ false → b.tcls ≡ s8
  pub bclass_length : length b.bclass ≡ b.nblocks
  pub bflags_length : length b.bflags ≡ b.nblocks
  pub bbase_length : length b.bbase ≡ b.nblocks
  pub bspan_length : length b.bspan ≡ b.nblocks
  pub boff_length : length b.boff ≡ b.nblocks
  pub bsum_length : length b.bsum ≡ b.nblocks
  pub bstride_length : b.has_stride ≡ true → length b.bstride ≡ b.nblocks
  pub bstride_none : b.has_stride ≡ false → b.bstride ≡ []
  pub payload_length : length b.payload ≡ b.bytes
  pub bbase_words : All (λ x. x < 2 ^ abs_size b.bcls) b.bbase
  pub bspan_words : All (λ x. x < 2 ^ abs_size b.pcls) b.bspan
  pub boff_words : All (λ x. x < 2 ^ abs_size b.ocls) b.boff
  pub bsum_words : All (λ x. x < 2 ^ abs_size b.scls) b.bsum
  pub bstride_words : All (λ x. x < 2 ^ abs_size b.tcls) b.bstride
  pub fits : all_fit b b.nblocks 0 ≡ true

-- What the test of the four classes says of them.
pub record ClassesFit (b : Blocked) : Type 0 where
  pub bcls_width : IsWidth (abs_size b.bcls)
  pub pcls_width : IsWidth (abs_size b.pcls)
  pub ocls_width : IsWidth (abs_size b.ocls)
  pub scls_width : IsWidth (abs_size b.scls)

seven_false :
    (a b c d p q r : Bool)
    → (a || b || c || d || p || q || r) ≡ false
    → (a ≡ false) × (b ≡ false) × (c ≡ false) × (d ≡ false)
seven_false a b c d p q r h = ground arith

IsWidth-of : (w : ℕ) → not (is_width w) ≡ false → IsWidth w
IsWidth-of w h = ground arith

pub ClassesFit-of : (b : Blocked) → bad_classes b ≡ false → ClassesFit b
ClassesFit-of b h =
    let (w0, w1, w2, w3) = seven_false _ _ _ _ _ _ _ h in
    record {
      bcls_width = IsWidth-of (abs_size b.bcls) w0;
      pcls_width = IsWidth-of (abs_size b.pcls) w1;
      ocls_width = IsWidth-of (abs_size b.ocls) w2;
      scls_width = IsWidth-of (abs_size b.scls) w3;
    }

take-whole : (n : ℕ) (xs : List ℕ) → length xs ≡ n → take n xs ≡ xs
take-whole n xs e = take-all n xs (omega arith)

-- The body of the file, field by field.
abbrev pub body_image : Blocked → List ℕ → List ℕ
body_image b rest =
    b.bclass
    ++ (b.bflags
        ++ (memory true (md_bytes b.bcls) b.bbase
            ++ (memory true (md_bytes b.pcls) b.bspan
                ++ (memory true (md_bytes b.ocls) b.boff
                    ++ (memory true (md_bytes b.scls) b.bsum
                        ++ ((if b.has_stride then memory true (md_bytes b.tcls) b.bstride else [])
                            ++ rest))))))

staged_of :
    (b : Blocked) (sg : Bool) (cls : ℤ) (a : List ℕ)
    → IsWidth (abs_size cls)
    → length a ≡ b.nblocks
    → All (λ x. x < 2 ^ abs_size cls) a
    → staged_array b sg cls a ≡ memory true (md_bytes cls) a
staged_of b sg cls a c e h =
    ap (λ n. staged (raw_word sg cls a) (md_bytes cls) n 0) (sym e) ∙ staged_lem sg cls c a h

pub body_bytes-image : (b : Blocked) → IsStored b → body_bytes b ≡ body_image b b.payload
unfolding body_bytes
body_bytes-image b v =
    let f = ClassesFit-of b v.classes in
    let strides : (if b.has_stride then staged_array b false b.tcls b.bstride else [])
        ≡ (if b.has_stride then memory true (md_bytes b.tcls) b.bstride else []) =
      elim (Bool-cases b.has_stride) [
        | inl s ↦
            rw s
              (staged_of b false b.tcls b.bstride v.tcls_width (v.bstride_length s) v.bstride_words)
        | inr s ↦ rw s refl
      ] in
    λ i.
      take-whole b.nblocks b.bclass v.bclass_length i
      ++ (take-whole b.nblocks b.bflags v.bflags_length i
          ++ (staged_of b b.is_signed b.bcls b.bbase f.bcls_width v.bbase_length v.bbase_words i
              ++ (staged_of b false b.pcls b.bspan f.pcls_width v.bspan_length v.bspan_words i
                  ++ (staged_of b false b.ocls b.boff f.ocls_width v.boff_length v.boff_words i
                      ++ (staged_of b b.is_signed b.scls b.bsum f.scls_width v.bsum_length
                            v.bsum_words i
                          ++ (strides i ++ take-whole b.bytes b.payload v.payload_length i))))))

-- The bytes that were written, where the writes so far have succeeded, before any others.
abbrev Wrote : Bool × Output → (List ℕ → List ℕ) → Type 0
Wrote r image = r.0 ≡ true → (rest : List ℕ) → r.1.written ++ rest ≡ image rest

Wrote-start : (f : Output) (bs : List ℕ) → f.written ≡ [] → Wrote (fwrite f bs) (λ rest. bs ++ rest)
Wrote-start f bs e h rest = ap (λ w. w ++ rest) (fwrite_ok f bs h ∙ ap (λ w. w ++ bs) e)

Wrote-and :
    (r : Bool × Output) (image : List ℕ → List ℕ) (bs : List ℕ)
    → Wrote r image
    → Wrote (and_write r bs) (λ rest. image (bs ++ rest))
Wrote-and r image bs k h rest =
    let (e, w) = and_write_ok r bs h in
    ap (λ xs. xs ++ rest) w ∙ append_assoc r.1.written bs rest ∙ k e (bs ++ rest)

Wrote-if :
    (c : Bool) (r : Bool × Output) (image : List ℕ → List ℕ) (bs : List ℕ)
    → Wrote r image
    → Wrote (if c then and_write r bs else r) (λ rest. image ((if c then bs else []) ++ rest))
Wrote-if true r image bs k = Wrote-and r image bs k
Wrote-if false r image bs k = k

Wrote-body :
    (r : Bool × Output) (image : List ℕ → List ℕ) (body : List ℕ)
    → Wrote r image
    → Wrote (if length body == 0 then r else and_write r body) (λ rest. image (body ++ rest))
Wrote-body r image [] k = k
Wrote-body r image (x ∷ xs) k =
    let e : (length (x ∷ xs) == 0) ≡ false = ground arith in rw e (Wrote-and r image (x ∷ xs) k)

-- The fields of the file in their order.
abbrev pub blk_image : Blocked → List ℕ → List ℕ
blk_image b body =
    le_bytes 4 magic_v33
    ++ (blk_header b
        ++ (le_bytes 8 b.count
            ++ (le_bytes 8 b.block
                ++ (le_bytes 8 b.nblocks
                    ++ (class_bytes b
                        ++ (le_bytes 8 b.bytes
                            ++ ((if b.has_stride then size_byte b.tcls ∷ [] else [])
                                ++ (body ++ (le_bytes 4 (payload_crc body) ++ [])))))))))

write_blocks-Wrote :
    (room : ℕ) (b : Blocked) (body : List ℕ)
    → (write_blocks room b body).0 ≡ true
    → (write_blocks room b body).1.written ≡ blk_image b body
unfolding write_blocks
write_blocks-Wrote room b body ok_all =
    let start : Output = record { written = []; room = room } in
    let magic = wr_le32 start magic_v33 in
    let m = le_bytes 4 magic_v33 in
    let h = blk_header b in
    let c = le_bytes 8 b.count in
    let k = le_bytes 8 b.block in
    let n = le_bytes 8 b.nblocks in
    let s = class_bytes b in
    let p = le_bytes 8 b.bytes in
    let r1 = and_write magic h in
    let r2 = and_write r1 c in
    let r3 = and_write r2 k in
    let r4 = and_write r3 n in
    let r5 = and_write r4 s in
    let r6 = and_write r5 p in
    let t = size_byte b.tcls ∷ [] in
    let r7 = if b.has_stride then and_write r6 t else r6 in
    let r8 = if length body == 0 then r7 else and_write r7 body in
    let i0 : List ℕ → List ℕ = λ rest. m ++ rest in
    let i1 : List ℕ → List ℕ = λ rest. i0 (h ++ rest) in
    let i2 : List ℕ → List ℕ = λ rest. i1 (c ++ rest) in
    let i3 : List ℕ → List ℕ = λ rest. i2 (k ++ rest) in
    let i4 : List ℕ → List ℕ = λ rest. i3 (n ++ rest) in
    let i5 : List ℕ → List ℕ = λ rest. i4 (s ++ rest) in
    let i6 : List ℕ → List ℕ = λ rest. i5 (p ++ rest) in
    let i7 : List ℕ → List ℕ = λ rest. i6 ((if b.has_stride then t else []) ++ rest) in
    let i8 : List ℕ → List ℕ = λ rest. i7 (body ++ rest) in
    let w6 = Wrote-and r5 i5 p (
      Wrote-and r4 i4 s (
        Wrote-and r3 i3 n (
          Wrote-and r2 i2 k
            (Wrote-and r1 i1 c (Wrote-and magic i0 h (Wrote-start start m refl)))))) in
    let w8 = Wrote-body r7 i7 body (Wrote-if b.has_stride r6 i6 t w6) in
    let crc = le_bytes 4 (payload_crc body) in
    sym (append-nil (and_write r8 crc).1.written) ∙ Wrote-and r8 i8 crc w8 ok_all []

saved :
    (opened : Bool) (room : ℕ) (b : Blocked) (body : List ℕ)
    → let (done, f) = write_blocks room b body in
      let r : S2RError × List ℕ =
        if opened then ((if done then ok else err_io), f.written) else (err_io, []) in
      r.0 ≡ ok → r.1 ≡ blk_image b body
saved false room b body h = absurd (cc h)
saved true room b body h = elim (Bool-cases (write_blocks room b body).0) [
  | inl t ↦ write_blocks-Wrote room b body t
  | inr t ↦ absurd (cc (rw t at h))
]

-- What a save that answers S2R_OK has written.
pub blocked_save-image :
    (alloc : ℕ → Bool) (opened : Bool) (room : ℕ) (b : Blocked)
    → (blocked_save alloc opened room b).0 ≡ ok
    → (blocked_save alloc opened room b).1 ≡ blk_image b (body_bytes b)
unfolding blocked_save blk_stage
blocked_save-image alloc opened room b h = elim (Option-cases (body_len b)) [
  | inl z ↦ absurd (cc (rw (blocked_save, z) at h))
  | inr (len, z) ↦ elim (Bool-cases (alloc (if len == 0 then 1 else len))) [
    | inl t ↦
        rw (blocked_save, z, t) (saved opened room b (body_bytes b) (rw (blocked_save, z, t) at h))
    | inr t ↦ absurd (cc (rw (blocked_save, z, t) at h))
  ]
]
