-- ===== src/Tests/Files.antt =====
-- Runs on small files of the portable format of include/smart2raw.h.
use smart2raw.Base.{
  length, All, negsuc, to_u64, ℕ, ◌^◌, ◌<◌, ◌≡◌, refl, subst, Bool, true, false, some, List, [],
  ◌∷◌, ◌++◌, arith,
}
use smart2raw.Pool.{Pool, class_flags, pool_init, ok, err_io}
use smart2raw.Pool.Valid.{IsValid}
use smart2raw.Format.{
  magic_v33, bswap16, bswap32, bswap, swap_payload, crc_rounds, table_from, crc_table, crc_from,
  crc32, le_bytes, be_bytes, memory,
}
use smart2raw.Format.File.{write_all, save_portable, load_portable}
use smart2raw.Format.Bytes.{IsByte}
use smart2raw.Format.Saved.{image, save_portable-image}
use smart2raw.Format.Loaded.{
  after_magic, image_fields, Restored, load_portable-image, load_portable-save_portable,
}
use smart2raw.Format.Accepted.{Canonical, load_portable-Canonical}

abbrev granted : ℕ → Bool
granted n = true

-- -300, 7 in signed words of 16 bits.
abbrev words : Pool
words = record {
  cells = 65236 ∷ 7 ∷ 0 ∷ 0 ∷ [];
  byte_cap = 8;
  count = 2;
  capacity = 4;
  size = negsuc 15;
  flags = class_flags (negsuc 15);
  smin = 0;
  smax = 0;
  ssum = 0;
  epoch = 0;
}

words-IsValid : IsValid words
words-IsValid = record {
  class = omega arith;
  room = omega arith;
  cap_cells = omega arith;
  cells_bytes = refl;
  small = omega arith;
  words = omega arith;
}

-- The check value of the checksum.
crc32_run :
    crc32 (0x31 ∷ 0x32 ∷ 0x33 ∷ 0x34 ∷ 0x35 ∷ 0x36 ∷ 0x37 ∷ 0x38 ∷ 0x39 ∷ []) 0 ≡ 0xcbf4_3926
unfolding crc32 crc_from crc_table table_from crc_rounds
crc32_run = refl

bswap_run : bswap 4 0x0102_0304 ≡ 0x0403_0201
unfolding bswap bswap32
bswap_run = refl

abbrev file : List ℕ
file = (save_portable false granted true 100 words).1

written : (save_portable false granted true 100 words).0 ≡ ok
unfolding save_portable write_all le_bytes memory be_bytes swap_payload bswap bswap16
written = refl

started : (pool_init granted words (negsuc 15) 2).0 ≡ true
unfolding pool_init
started = refl

-- Written on a big-endian host and read on a little-endian one.
load_portable-save_portable_example :
    Restored words words-IsValid refl (load_portable true granted (some file) words)
load_portable-save_portable_example =
    load_portable-save_portable false true granted granted true 100 words words words-IsValid refl
      (omega arith) written started

save_portable-image_example : file ≡ image words
save_portable-image_example = save_portable-image false granted true 100 words words-IsValid written

-- A disk with room for 10 bytes.
full_disk_run : (save_portable true granted true 10 words).0 ≡ err_io
unfolding save_portable write_all le_bytes memory
full_disk_run = refl

loads : (load_portable true granted (some (le_bytes 4 magic_v33 ++ after_magic words)) words).0 ≡ ok
loads =
    subst (λ bs. (load_portable true granted (some bs) words).0 ≡ ok) (image_fields words)
      (load_portable-image words words-IsValid refl true granted words (omega arith) started).0

file_bytes : All IsByte (le_bytes 4 magic_v33 ++ after_magic words)
unfolding le_bytes memory crc32 to_u64
file_bytes = omega arith

file_few : length (le_bytes 4 magic_v33 ++ after_magic words) < 2 ^ 60
unfolding le_bytes memory
file_few = omega arith

load_portable-Canonical_example :
    let bs = le_bytes 4 magic_v33 ++ after_magic words in
    Canonical bs (load_portable true granted (some bs) words)
load_portable-Canonical_example =
    load_portable-Canonical true granted (after_magic words) words file_bytes file_few loads
