-- ===== src/Format/File.antt =====
-- s2r_save_portable and s2r_load_portable of include/smart2raw.h.
use smart2raw.Base.{
  ltb, ◌==◌, if◌then◌else◌, length, get_or, ℤ, pos, u64_max, is_width, wrap_mul, sx, to_u64, ℕ, ◌/◌,
  ◌%◌, ◌^◌, Bool, true, false, ◌&&◌, ◌||◌, not, Option, none, some, List, [], ◌∷◌,
}
use smart2raw.Class.{abs_size}
use smart2raw.Pool.{
  S2RError, Pool, width, elem_bytes, used_bytes, is_neg, class_flags, forget, live, pool_init,
  pool_free, ok, err_oom, err_invalid_size, err_io, err_corrupt,
}
use smart2raw.Arith.{loaded}
use smart2raw.Format.{
  magic_v33, fmt_version, swap_payload, crc32, le_bytes, memory, words_of, fread, Output, fwrite,
  wr_le32, rd_le,
}

-- S2R_MAGIC and S2R_MAGIC_V32.
abbrev pub magic_old : ℕ
magic_old = 0x3352_3253

abbrev pub magic_v32 : ℕ
magic_v32 = 0x3252_3253

-- The elements as the file has them, in the bytes of the host's memory.
abbrev pub canon : Bool → ℕ → List ℕ → List ℕ
canon little eb xs = memory little eb (if not little && ltb 1 eb then swap_payload eb xs else xs)

-- `(uint8_t)p->size` and `(int8_t)hdr[0]`.
abbrev pub size_byte : ℤ → ℕ
size_byte size = to_u64 size % 2 ^ 8

abbrev pub header_bytes : Pool → List ℕ
header_bytes p = size_byte p.size ∷ (if p.flags.signed then 1 else 0) ∷ fmt_version ∷ 0 ∷ []

abbrev pub payload_crc : List ℕ → ℕ
payload_crc src = if length src == 0 then 0 else crc32 src 0

-- `ok = ok && fwrite(...)`.
abbrev pub and_write : Bool × Output → List ℕ → Bool × Output
and_write r bs = if r.0 then fwrite r.1 bs else r

-- The writes, one after the other, as long as they succeed.
unfoldable pub write_all : ℕ → Pool → List ℕ → Bool × Output
write_all room p src =
    let start = wr_le32 (record { written = []; room = room }) magic_v33 in
    let counted = and_write (and_write start (header_bytes p)) (le_bytes 8 p.count) in
    and_write (if used_bytes p == 0 then counted else and_write counted src)
      (le_bytes 4 (payload_crc src))

-- The bytes of a file that is opened, on a disk that takes `room` of them.
unfoldable pub save_portable : Bool → (ℕ → Bool) → Bool → ℕ → Pool → S2RError × List ℕ
save_portable little alloc opened room p =
    let eb = elem_bytes p in
    let (done, f) = write_all room p (canon little eb (live p)) in
    if not (is_width (width p))
    then (err_invalid_size, [])
    else if not opened
    then (err_io, [])
    else if not little && not (used_bytes p == 0) && ltb 1 eb && not (alloc (used_bytes p))
    then (err_oom, [])
    else ((if done then ok else err_io), f.written)

-- What the reader knows before it asks for memory.
pub record Header : Type 0 where
  pub is_v33 : Bool
  pub size : ℤ
  pub signed : Bool
  pub count : ℕ
  pub rest : List ℕ

pub data Parsed : Type 0 where
  refused : S2RError → Parsed
  header : Header → Parsed

abbrev pub eqb : Bool → Bool → Bool
eqb true b = b
eqb false b = not b

-- The checks of a version 3.3 header.
abbrev pub bad_v33 : List ℕ → ℤ → Bool → Bool
bad_v33 hdr size signed =
    not (get_or hdr 2 0 == fmt_version)
    || not (get_or hdr 3 0 == 0)
    || not (eqb (is_neg size) signed)

unfoldable pub read_count : Bool → ℤ → Bool → Option (ℕ × List ℕ) → Parsed
read_count v33 size signed none = refused err_io
read_count v33 size signed (some (count, rest)) =
    let eb = abs_size size / 8 in
    if not (is_width (abs_size size))
    then refused err_corrupt
    else if ltb u64_max count
    then refused err_corrupt
    else if not (eb == 0) && ltb (u64_max / eb) count
    then refused err_corrupt
    else header record { is_v33 = v33; size = size; signed = signed; count = count; rest = rest }

unfoldable pub read_class : ℕ → Option (List ℕ × List ℕ) → Parsed
read_class magic none = refused err_io
read_class magic (some (hdr, rest)) =
    let v33 = magic == magic_v33 in
    let size = sx 8 (get_or hdr 0 0) in
    let signed = (v33 || magic == magic_v32) && get_or hdr 1 0 % 2 == 1 in
    if v33 && bad_v33 hdr size signed
    then refused err_corrupt
    else read_count v33 size signed (rd_le 8 rest)

unfoldable pub read_magic : Option (ℕ × List ℕ) → Parsed
read_magic none = refused err_io
read_magic (some (magic, rest)) =
    let v33 = magic == magic_v33 in
    if not v33 && not (magic == magic_old || magic == magic_v32)
    then refused err_corrupt
    else read_class magic (fread (if v33 then 4 else 8) rest)

-- The words of the buffer, swapped on a big-endian host.
abbrev pub host_words : Bool → ℕ → ℕ → List ℕ → List ℕ
host_words little eb n raw =
    let ws = words_of little eb n raw in if not little && ltb 1 eb then swap_payload eb ws else ws

-- The pool with the bytes read into its buffer, and the flags and the count of the file.
abbrev pub filled_pool : Bool → Header → Pool → List ℕ → Pool
filled_pool little h p raw =
    let eb = elem_bytes p in
    record (loaded p (host_words little eb h.count raw)) {
      flags = record (forget (class_flags (pos 0))) { signed = h.signed };
      count = h.count;
    }

-- The checksum and the end of the file, of a version 3.3 file.
unfoldable pub read_tail : Bool → Header → Pool → List ℕ → Option (ℕ × List ℕ) → S2RError × Pool
read_tail little h p raw none = (err_io, pool_free p)
read_tail little h p raw (some (crc_disk, rest)) =
    if not (payload_crc raw == crc_disk)
    then (err_corrupt, pool_free p)
    else if not (length rest == 0)
    then (err_corrupt, pool_free p)
    else (ok, filled_pool little h p raw)

unfoldable pub read_payload : Bool → Header → Pool → Option (List ℕ × List ℕ) → S2RError × Pool
read_payload little h p none = (err_io, pool_free p)
read_payload little h p (some (raw, rest)) =
    if h.is_v33 then read_tail little h p raw (rd_le 4 rest) else (ok, filled_pool little h p raw)

unfoldable pub read_body : Bool → (ℕ → Bool) → Parsed → Pool → S2RError × Pool
read_body little alloc (refused e) p = (e, p)
read_body little alloc (header h) p =
    let (done, q) = pool_init alloc p h.size h.count in
    let bytes = wrap_mul 64 h.count (abs_size h.size / 8) in
    if not done
    then (err_oom, q)
    else read_payload little h q (if bytes == 0 then some ([], h.rest) else fread bytes h.rest)

-- `file` is none where it cannot be opened.
unfoldable pub load_portable : Bool → (ℕ → Bool) → Option (List ℕ) → Pool → S2RError × Pool
load_portable little alloc none p = (err_io, p)
load_portable little alloc (some bytes) p = read_body little alloc (read_magic (rd_le 4 bytes)) p
