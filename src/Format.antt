-- ===== src/Format.antt =====
-- PORTABLE BYTE ORDER + CRC32 and PORTABLE SERIALIZATION of include/smart2raw.h.
--
-- A file is the list of its bytes. `fwrite` takes its bytes where the disk has room for them; `fread`
-- gets all the bytes that it asks for or none. `little` is S2R_LITTLE_ENDIAN, the byte order of the
-- host.
pub mod File
pub mod Bytes
pub mod Hosts
pub mod Saved
pub mod Loaded
pub mod Headers
pub mod Accepted
use Prim.Native.Nat.{bit_xor}
use smart2raw.Base.{
  leb, ◌==◌, if◌then◌else◌, length, get_or, take, drop, ℕ, zero, suc, ◌+◌, ◌-◌, ◌*◌, ◌/◌, ◌%◌, ◌^◌,
  Bool, true, false, Option, none, some, List, [], ◌∷◌, ◌++◌, map,
}
use smart2raw.Pool.{Pool, read}

abbrev pub magic_v33 : ℕ
magic_v33 = 0x3333_5253

abbrev pub fmt_version : ℕ
fmt_version = 1

-- Shifts and masks of a uint16_t, a uint32_t and a uint64_t, on which no bits overlap.
unfoldable pub bswap16 : ℕ → ℕ
bswap16 x = x / 2 ^ 8 + x * 2 ^ 8 % 2 ^ 16

unfoldable pub bswap32 : ℕ → ℕ
bswap32 x =
    x / 2 ^ 24 % 2 ^ 8
    + x / 2 ^ 16 % 2 ^ 8 * 2 ^ 8
    + x / 2 ^ 8 % 2 ^ 8 * 2 ^ 16
    + x % 2 ^ 8 * 2 ^ 24

unfoldable pub bswap64 : ℕ → ℕ
bswap64 x = bswap32 (x % 2 ^ 32) * 2 ^ 32 + bswap32 (x / 2 ^ 32)

-- The word of the case of `elem_bytes`.
unfoldable pub bswap : ℕ → ℕ → ℕ
bswap eb x =
    if eb == 2 then bswap16 x else if eb == 4 then bswap32 x else if eb == 8 then bswap64 x else x

unfoldable pub swap_payload : ℕ → List ℕ → List ℕ
swap_payload eb xs = map (bswap eb) xs

-- Eight rounds of `c = (c >> 1) ^ (0xEDB88320 & -(c & 1))`.
unfoldable pub crc_rounds : ℕ → ℕ → ℕ
crc_rounds zero c = c
crc_rounds (suc k) c = crc_rounds k (bit_xor (c / 2) (if c % 2 == 0 then 0 else 0xedb8_8320))

unfoldable pub table_from : ℕ → ℕ → List ℕ
table_from zero i = []
table_from (suc n) i = crc_rounds 8 i ∷ table_from n (i + 1)

unfoldable pub crc_table : List ℕ
crc_table = table_from 256 0

-- `crc = (crc >> 8) ^ tab[(crc ^ p[i]) & 0xFF]` over the bytes.
unfoldable pub crc_from : List ℕ → ℕ → List ℕ → ℕ
crc_from tab crc [] = crc
crc_from tab crc (b ∷ bs) =
    crc_from tab (bit_xor (crc / 2 ^ 8) (get_or tab (bit_xor crc b % 2 ^ 8) 0)) bs

abbrev pub invert32 : ℕ → ℕ
invert32 x = 2 ^ 32 - 1 - x

unfoldable pub crc32 : List ℕ → ℕ → ℕ
crc32 bytes crc = invert32 (crc_from crc_table (invert32 crc) bytes)

-- `b[i] = (uint8_t)(v >> 8*i)` for the first `n` bytes, and `v |= b[i] << 8*i`.
unfoldable pub le_bytes : ℕ → ℕ → List ℕ
le_bytes zero v = []
le_bytes (suc n) v = v % 2 ^ 8 ∷ le_bytes n (v / 2 ^ 8)

unfoldable pub le_value : List ℕ → ℕ
le_value [] = 0
le_value (b ∷ bs) = b + 2 ^ 8 * le_value bs

unfoldable pub be_bytes : ℕ → ℕ → List ℕ
be_bytes zero v = []
be_bytes (suc n) v = be_bytes n (v / 2 ^ 8) ++ (v % 2 ^ 8 ∷ [])

unfoldable pub be_value : ℕ → List ℕ → ℕ
be_value acc [] = acc
be_value acc (b ∷ bs) = be_value (acc * 2 ^ 8 + b) bs

-- A word in the host's memory.
abbrev pub word_bytes : Bool → ℕ → ℕ → List ℕ
word_bytes little eb x = if little then le_bytes eb x else be_bytes eb x

abbrev pub word_value : Bool → List ℕ → ℕ
word_value little bs = if little then le_value bs else be_value 0 bs

unfoldable pub memory : Bool → ℕ → List ℕ → List ℕ
memory little eb [] = []
memory little eb (x ∷ xs) = word_bytes little eb x ++ memory little eb xs

unfoldable pub words_of : Bool → ℕ → ℕ → List ℕ → List ℕ
words_of little eb zero bs = []
words_of little eb (suc n) bs = word_value little (take eb bs) ∷ words_of little eb n (drop eb bs)

abbrev pub fread : ℕ → List ℕ → Option (List ℕ × List ℕ)
fread n bs = if leb n (length bs) then some (take n bs, drop n bs) else none

-- What a file open for writing holds, and the bytes that the disk still takes.
pub record Output : Type 0 where
  pub written : List ℕ
  pub room : ℕ

abbrev pub fwrite : Output → List ℕ → Bool × Output
fwrite f bs =
    if leb (length bs) f.room
    then (true, record { written = f.written ++ bs; room = f.room - length bs })
    else (false, record { written = f.written ++ take f.room bs; room = 0 })

abbrev pub wr_le32 : Output → ℕ → Bool × Output
wr_le32 f v = fwrite f (le_bytes 4 v)

-- `v |= b[i] << 8*i` over the bytes that were read.
abbrev pub decoded : Option (List ℕ × List ℕ) → Option (ℕ × List ℕ)
decoded none = none
decoded (some (b, rest)) = some (le_value b, rest)

unfoldable pub rd_le : ℕ → List ℕ → Option (ℕ × List ℕ)
rd_le n bs = decoded (fread n bs)
