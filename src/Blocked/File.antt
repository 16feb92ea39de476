-- ===== src/Blocked/File.antt =====
-- s2r_blocked_save and s2r_blocked_load of include/smart2raw.h: the file of a block-wise column, on a
-- little-endian host.
--
-- The positions that ftell reports are the bytes left of the file, and `seekable` says whether the
-- two calls of fseek and those of ftell succeed.
pub mod Safety
pub mod Classes
pub mod Limits
pub mod Built
pub mod Room
pub mod RoundTrip
pub mod Arrays
pub mod Stored
pub mod Header
pub mod Body
pub mod Loaded
use smart2raw.Base.{
  ltb, ◌==◌, if◌then◌else◌, length, get_or, take, drop, ℤ, ltb_ℤ, pos, u64_max, is_width, wrap_add,
  wrap_sub, sx, to_u64, ℕ, zero, suc, ◌+◌, ◌-◌, ◌*◌, ◌/◌, ◌%◌, ◌<◌, Bool, true, false, ◌&&◌, ◌||◌,
  not, Option, none, some, List, [], ◌∷◌, ◌++◌, map,
}
use smart2raw.Class.{s8, abs_size}
use smart2raw.Pool.{
  S2RError, Pool, is_neg, is_signed, alignment, align_up, read, ok, err_oom, err_io, err_corrupt,
}
use smart2raw.Format.{magic_v33, le_bytes, words_of, fread, Output, wr_le32, rd_le}
use smart2raw.Format.File.{size_byte, payload_crc, and_write, header}
use smart2raw.Blocked.{
  Blocked, md_bytes, md_ru, md_rs, md_word, block_offset, block_len, zeroed_blocked,
}

-- S2R_BLK_FMT and S2R_BLK_FMT_S.
abbrev pub blk_fmt : ℕ
blk_fmt = 2

abbrev pub blk_fmt_s : ℕ
blk_fmt_s = 3

-- The bytes of the bookkeeping of one block.
abbrev pub row_bytes : Blocked → ℕ
row_bytes b =
    2
    + md_bytes b.bcls
    + md_bytes b.pcls
    + md_bytes b.ocls
    + md_bytes b.scls
    + (if b.has_stride then md_bytes b.tcls else 0)

-- `none` where the code returns 0.
unfoldable pub body_len : Blocked → Option ℕ
body_len b =
    let per = row_bytes b in
    let len = b.nblocks * per in
    if not (per == 0) && ltb (u64_max / per) b.nblocks
    then none
    else if ltb (u64_max - len) b.bytes
    then none
    else some (len + b.bytes)

-- A word of an array, as the uint64_t that is written out.
abbrev pub raw_word : Bool → ℤ → List ℕ → ℕ → ℕ
raw_word sg cls a i = if sg then to_u64 (md_rs a cls i) else md_ru a cls i

-- `for (i < nblocks) for (j < eb) buf[at++] = (uint8_t)(raw >> 8*j)`, with `n` words left from `i` on.
unfoldable pub staged : (ℕ → ℕ) → ℕ → ℕ → ℕ → List ℕ
staged raw eb zero i = []
staged raw eb (suc n) i = le_bytes eb (raw i) ++ staged raw eb n (i + 1)

abbrev pub staged_array : Blocked → Bool → ℤ → List ℕ → List ℕ
staged_array b sg cls a = staged (raw_word sg cls a) (md_bytes cls) b.nblocks 0

-- The body of the file.
unfoldable pub body_bytes : Blocked → List ℕ
body_bytes b =
    take b.nblocks b.bclass
    ++ (take b.nblocks b.bflags
        ++ (staged_array b b.is_signed b.bcls b.bbase
            ++ (staged_array b false b.pcls b.bspan
                ++ (staged_array b false b.ocls b.boff
                    ++ (staged_array b b.is_signed b.scls b.bsum
                        ++ ((if b.has_stride then staged_array b false b.tcls b.bstride else [])
                            ++ take b.bytes b.payload))))))

unfoldable pub blk_stage : (ℕ → Bool) → Blocked → Option (List ℕ)
blk_stage alloc b = elim (body_len b) [
  | none ↦ none
  | some len ↦ if alloc (if len == 0 then 1 else len) then some (body_bytes b) else none
]

abbrev pub blk_header : Blocked → List ℕ
blk_header b =
    0 ∷ (if b.is_signed then 1 else 0) ∷ (if b.has_stride then blk_fmt_s else blk_fmt) ∷ 0 ∷ []

abbrev pub class_bytes : Blocked → List ℕ
class_bytes b = size_byte b.bcls ∷ size_byte b.pcls ∷ size_byte b.ocls ∷ size_byte b.scls ∷ []

-- The writes, one after the other, as long as they succeed.
unfoldable pub write_blocks : ℕ → Blocked → List ℕ → Bool × Output
write_blocks room b body =
    let named =
      and_write (wr_le32 (record { written = []; room = room }) magic_v33) (blk_header b) in
    let counted = and_write (and_write named (le_bytes 8 b.count)) (le_bytes 8 b.block) in
    let classed = and_write (and_write counted (le_bytes 8 b.nblocks)) (class_bytes b) in
    let sized = and_write classed (le_bytes 8 b.bytes) in
    let strided = if b.has_stride then and_write sized (size_byte b.tcls ∷ []) else sized in
    let stored = if length body == 0 then strided else and_write strided body in
    and_write stored (le_bytes 4 (payload_crc body))

-- The answer, and the bytes of a file that is opened, on a disk that takes `room` of them.
unfoldable pub blocked_save : (ℕ → Bool) → Bool → ℕ → Blocked → S2RError × List ℕ
blocked_save alloc opened room b = elim (blk_stage alloc b) [
  | none ↦ (err_oom, [])
  | some body ↦
      let (done, f) = write_blocks room b body in
      if opened then ((if done then ok else err_io), f.written) else (err_io, [])
]

-- A step of the loader: it goes on, or answers an error and leaves a structure.
pub data Step (A : Type 0) : Type 0 where
  failed : S2RError → Blocked → Step A
  next : A → Step A

infixl 5 ◌>>=◌ ◌>>◌
unfoldable pub ◌>>=◌ : {A B : Type 0} → Step A → (A → Step B) → Step B
failed e b >>= f = failed e b
next a >>= f = f a

unfoldable pub ◌>>◌ : {B : Type 0} → Step (Unit {0}) → Step B → Step B
m >> k = m >>= λ _. k

-- `if (c) { ...; return e; }` with the structure that is left.
unfoldable pub refuse : Bool → S2RError → Blocked → Step (Unit {0})
refuse true e b = failed e b
refuse false e b = next tt

-- A read whose failure empties the structure.
unfoldable pub expect : {A : Type 0} → S2RError → Option A → Step A
expect e none = failed e zeroed_blocked
expect e (some a) = next a

abbrev pub class_byte : List ℕ → ℕ → ℤ
class_byte cls i = sx 8 (get_or cls i 0)

-- The class and the rest of the file behind it, which a file of format 2 leaves out.
unfoldable pub read_tcls : Bool → List ℕ → Step (ℤ × List ℕ)
read_tcls false bs = next (s8, bs)
read_tcls true bs = do
  (tb, rest) ← expect err_io (fread 1 bs)
  refuse (is_neg (class_byte tb 0) || not (is_width (abs_size (class_byte tb 0)))) err_corrupt
      zeroed_blocked
  next (class_byte tb 0, rest)

abbrev pub bad_classes : Blocked → Bool
bad_classes b =
    not (is_width (abs_size b.bcls))
    || not (is_width (abs_size b.pcls))
    || not (is_width (abs_size b.ocls))
    || not (is_width (abs_size b.scls))
    || is_neg b.pcls
    || is_neg b.ocls
    || (if b.is_signed
        then ltb_ℤ (pos 0) b.bcls || ltb_ℤ (pos 0) b.scls
        else is_neg b.bcls || is_neg b.scls)

-- The structure that the header describes, and the rest of the file.
unfoldable pub read_blk_header : List ℕ → Step (Blocked × List ℕ)
read_blk_header file = do
  (magic, r0) ← expect err_corrupt (rd_le 4 file)
  refuse (not (magic == magic_v33)) err_corrupt zeroed_blocked
  (hdr, r1) ← expect err_io (fread 4 r0)
  let fmt = get_or hdr 2 0
  refuse
      (not (get_or hdr 0 0 == 0)
        || not (get_or hdr 3 0 == 0)
        || (not (fmt == blk_fmt) && not (fmt == blk_fmt_s)))
      err_corrupt zeroed_blocked
  (cnt, r2) ← expect err_io (rd_le 8 r1)
  (blk, r3) ← expect err_io (rd_le 8 r2)
  (nb, r4) ← expect err_io (rd_le 8 r3)
  (cls, r5) ← expect err_io (fread 4 r4)
  (pb, r6) ← expect err_io (rd_le 8 r5)
  (tcls, r7) ← read_tcls (fmt == blk_fmt_s) r6
  refuse (blk == 0 || ltb u64_max cnt || ltb u64_max nb || ltb u64_max pb) err_corrupt
      zeroed_blocked
  let start : Blocked = record zeroed_blocked { has_stride = fmt == blk_fmt_s; tcls = tcls }
  refuse (not (nb == wrap_sub 64 (wrap_add 64 cnt blk) 1 / blk)) err_corrupt start
  let b : Blocked = record start {
    is_signed = get_or hdr 1 0 % 2 == 1;
    count = cnt;
    block = blk;
    nblocks = nb;
    bytes = pb;
    bcls = class_byte cls 0;
    pcls = class_byte cls 1;
    ocls = class_byte cls 2;
    scls = class_byte cls 3;
  }
  refuse (bad_classes b) err_corrupt zeroed_blocked
  next (b, r7)

-- A word of an array from the bytes of the file: with its sign, or without.
abbrev pub word_back : Bool → ℤ → ℕ → ℕ
word_back sg cls raw = md_word cls (if sg then to_u64 (sx (md_bytes cls * 8) raw) else raw)

-- The array from the front of the bytes, and the bytes behind it.
abbrev pub take_array : ℕ → Bool → ℤ → List ℕ → List ℕ × List ℕ
take_array n sg cls bs =
    let eb = md_bytes cls in (map (word_back sg cls) (words_of true eb n bs), drop (n * eb) bs)

abbrev pub array_if : Bool → ℕ → ℤ → List ℕ → List ℕ × List ℕ
array_if has n cls bs = if has then take_array n false cls bs else ([], bs)

-- The structure with the arrays of the body, and the payload that stands behind them.
unfoldable pub take_arrays : Blocked → List ℕ → Blocked × List ℕ
take_arrays b body =
    let n = b.nblocks in
    let r0 = drop n body in
    let r1 = drop n r0 in
    let (bbase, r2) = take_array n b.is_signed b.bcls r1 in
    let (bspan, r3) = take_array n false b.pcls r2 in
    let (boff, r4) = take_array n false b.ocls r3 in
    let (bsum, r5) = take_array n b.is_signed b.scls r4 in
    let (bstride, r6) = array_if b.has_stride n b.tcls r5 in
    (
      record b {
        bclass = take n body;
        bflags = take n r0;
        bbase = bbase;
        bspan = bspan;
        boff = boff;
        bsum = bsum;
        bstride = bstride;
      },
      r6,
    )

abbrev pub is_delta_class : ℕ → Bool
is_delta_class cb = cb == 0 || cb == 8 || cb == 16 || cb == 32 || cb == 64

-- The checks of one block: its class, its stride, and that its deltas lie in the payload.
unfoldable pub block_fits : Blocked → ℕ → Bool
block_fits b bi =
    let cb = get_or b.bclass bi 0 in
    let o = block_offset b bi in
    is_delta_class cb
    && not (b.has_stride && md_ru b.bstride b.tcls bi == 0)
    && (cb == 0 || not (ltb b.bytes o || ltb ((b.bytes - o) / (cb / 8)) (block_len b bi)))

-- `for (bi < nblocks)`, with `n` blocks left from `bi` on.
unfoldable pub all_fit : Blocked → ℕ → ℕ → Bool
all_fit b zero bi = true
all_fit b (suc n) bi = block_fits b bi && all_fit b n (bi + 1)

-- The requests for the arrays.
abbrev pub arrays_granted : (ℕ → Bool) → Blocked → Bool
arrays_granted alloc b =
    let n = b.nblocks in
    alloc n
    && alloc (n * md_bytes b.bcls)
    && alloc (n * md_bytes b.pcls)
    && alloc (n * md_bytes b.ocls)
    && alloc (n * md_bytes b.scls)
    && (not b.has_stride || alloc (n * md_bytes b.tcls))

-- The structure of the body, whose checksum and length are right.
unfoldable pub fill_blocks : (ℕ → Bool) → Blocked → List ℕ → Step Blocked
fill_blocks alloc b body = do
  refuse (not (arrays_granted alloc b)) err_oom zeroed_blocked
  let (filled, rest) = take_arrays b body
  refuse (not (all_fit filled filled.nblocks 0)) err_corrupt zeroed_blocked
  refuse (not (b.bytes == 0) && not (alloc (align_up b.bytes alignment))) err_oom zeroed_blocked
  next (record filled { payload = take b.bytes rest })

-- The body and the checksum, which end the file.
unfoldable pub read_blk_body : Bool → (ℕ → Bool) → Blocked → List ℕ → Step (List ℕ)
read_blk_body seekable alloc b file = do
  blen ← expect err_corrupt (body_len b)
  refuse (not seekable) err_io zeroed_blocked
  refuse (ltb (length file) 4 || ltb (length file - 4) blen) err_corrupt zeroed_blocked
  refuse (not (alloc (if blen == 0 then 1 else blen))) err_oom zeroed_blocked
  (body, r0) ← expect err_io (fread blen file)
  (crc_disk, r1) ← expect err_io (rd_le 4 r0)
  refuse (not (length r1 == 0)) err_corrupt zeroed_blocked
  refuse (not (crc_disk == payload_crc body)) err_corrupt zeroed_blocked
  next body

unfoldable pub load_blocks : Bool → (ℕ → Bool) → List ℕ → Step Blocked
load_blocks seekable alloc file = do
  (b, rest) ← read_blk_header file
  elim (b.nblocks == 0) [
    | true ↦ next b
    | false ↦ do body ← read_blk_body seekable alloc b rest; fill_blocks alloc b body
  ]

abbrev pub load_answer : Step Blocked → S2RError × Blocked
load_answer (failed e b) = (e, b)
load_answer (next b) = (ok, b)

-- `file` is none where it cannot be opened.
unfoldable pub blocked_load : Bool → (ℕ → Bool) → Option (List ℕ) → S2RError × Blocked
blocked_load seekable alloc none = (err_io, zeroed_blocked)
blocked_load seekable alloc (some file) = load_answer (load_blocks seekable alloc file)
