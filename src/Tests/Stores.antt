-- ===== src/Tests/Stores.antt =====
-- Runs of the file of a block-wise column of include/smart2raw.h.
use smart2raw.Base.{
  length, get_or, wrap_add, wrap_sub, wrap_mul, sx, ℕ, ◌<◌, ◌-◌, ◌^◌, ◌≡◌, refl, ap, Bool, true,
  false, some, List, [], ◌∷◌, ◌++◌, arith,
}
use smart2raw.Class.{s8}
use smart2raw.Pool.{ok}
use smart2raw.Format.{magic_v33, le_bytes, le_value, rd_le}
use smart2raw.Blocked.{build_blocks, Blocked, md_ru, block_offset, block_len}
use smart2raw.Blocked.File.{
  body_len, staged, body_bytes, blk_stage, write_blocks, blocked_save, refuse, expect, read_tcls,
  read_blk_header, block_fits, all_fit, load_blocks, blocked_load, ◌>>=◌, ◌>>◌,
}
use smart2raw.Blocked.File.Stored.{IsStored}
use smart2raw.Blocked.Query.{blocked_get, blocked_get_signed}
use smart2raw.Blocked.File.RoundTrip.{blocked_load-build_blocks}
use smart2raw.Blocked.File.Loaded.{blocked_load-blocked_save}
use smart2raw.Blocked.File.Safety.{AllInside, blocked_load-AllInside}

abbrev allowed : ℕ → Bool
allowed n = true

-- The column of 5 and 7: one block of base 5 in steps of 2.
abbrev pair : Blocked
pair = record {
  payload = 0 ∷ 1 ∷ [];
  bytes = 2;
  bclass = 8 ∷ [];
  bflags = 1 ∷ [];
  boff = 0 ∷ [];
  bbase = 5 ∷ [];
  bspan = 1 ∷ [];
  bsum = 12 ∷ [];
  bstride = 2 ∷ [];
  bcls = s8;
  ocls = s8;
  pcls = s8;
  scls = s8;
  tcls = s8;
  has_stride = true;
  nblocks = 1;
  count = 2;
  block = 256;
  is_signed = false;
}

pair-IsStored : IsStored pair
unfolding wrap_add wrap_sub all_fit block_fits block_offset block_len md_ru wrap_mul
pair-IsStored = record {
  count_lt = omega arith;
  block_lt = omega arith;
  block_pos = omega arith;
  nblocks_eq = refl;
  small = omega arith;
  none_bytes = λ z. absurd (omega arith);
  classes = refl;
  tcls_width = omega arith;
  tcls_pos = refl;
  tcls_plain = λ z. refl;
  bclass_length = refl;
  bflags_length = refl;
  bbase_length = refl;
  bspan_length = refl;
  boff_length = refl;
  bsum_length = refl;
  bstride_length = λ z. refl;
  bstride_none = λ z. absurd (cc z);
  payload_length = refl;
  bbase_words = omega arith;
  bspan_words = omega arith;
  boff_words = omega arith;
  bsum_words = omega arith;
  bstride_words = omega arith;
  fits = refl;
}

pair_saved : (blocked_save allowed true 100 pair).0 ≡ ok
unfolding blocked_save blk_stage body_len body_bytes write_blocks staged md_ru le_bytes
pair_saved = refl

blocked_load-blocked_save_example :
    blocked_load true allowed (some (blocked_save allowed true 100 pair).1) ≡ (ok, pair)
blocked_load-blocked_save_example =
    blocked_load-blocked_save allowed allowed true 100 pair pair-IsStored pair_saved (λ n. refl)

pair_loaded : (blocked_load true allowed (some (blocked_save allowed true 100 pair).1)).0 ≡ ok
pair_loaded =
    ap (λ r. r.0)
      (blocked_load-blocked_save allowed allowed true 100 pair pair-IsStored pair_saved (λ n. refl))

blocked_load-AllInside_example :
    AllInside (blocked_load true allowed (some (blocked_save allowed true 100 pair).1)).1
blocked_load-AllInside_example =
    blocked_load-AllInside true allowed (some (blocked_save allowed true 100 pair).1) pair_loaded

abbrev numbers : List ℕ
numbers = 5 ∷ 7 ∷ 2 ^ 63 ∷ []

blocked_load-build_blocks_example :
    let (built, b) = build_blocks allowed false numbers 2 in
    let (saved, file) = blocked_save allowed true 500 b in
    let (loaded, c) = blocked_load true allowed (some file) in
    (built ≡ true)
    × (saved ≡ ok)
    × (loaded ≡ ok)
    × ((i : ℕ)
        → i < length numbers
        → (blocked_get c i ≡ get_or numbers i 0)
          × (blocked_get_signed c i ≡ sx 64 (get_or numbers i 0)))
blocked_load-build_blocks_example =
    blocked_load-build_blocks false numbers 2 500 allowed (omega arith) (omega arith) (omega arith)
      (omega arith) (λ n. refl) (omega arith)

-- A file with no elements and five bytes of payload is accepted, with five bytes that are not there.
abbrev hollow_file : List ℕ
hollow_file =
    le_bytes 4 magic_v33
    ++ (0 ∷ 0 ∷ 2 ∷ 0 ∷ [])
    ++ le_bytes 8 0
    ++ le_bytes 8 256
    ++ le_bytes 8 0
    ++ (8 ∷ 8 ∷ 8 ∷ 8 ∷ [])
    ++ le_bytes 8 5

hollow_run :
    let (e, b) = blocked_load true allowed (some hollow_file) in
    (e ≡ ok) × (b.bytes ≡ 5) × (b.payload ≡ [])
unfolding blocked_load load_blocks read_blk_header read_tcls ◌>>=◌ ◌>>◌ expect refuse rd_le le_value
    le_bytes wrap_add wrap_sub sx
hollow_run = (refl, refl, refl)

-- A block size near 2^64 makes the number of blocks wrap to 0, and a count of 5 is accepted.
abbrev wrapped_file : List ℕ
wrapped_file =
    le_bytes 4 magic_v33
    ++ (0 ∷ 0 ∷ 2 ∷ 0 ∷ [])
    ++ le_bytes 8 5
    ++ le_bytes 8 (2 ^ 64 - 1)
    ++ le_bytes 8 0
    ++ (8 ∷ 8 ∷ 8 ∷ 8 ∷ [])
    ++ le_bytes 8 0

wrapped_run :
    let (e, b) = blocked_load true allowed (some wrapped_file) in
    (e ≡ ok) × (b.count ≡ 5) × (b.nblocks ≡ 0) × (b.bclass ≡ [])
unfolding blocked_load load_blocks read_blk_header read_tcls ◌>>=◌ ◌>>◌ expect refuse rd_le le_value
    le_bytes wrap_add wrap_sub sx
wrapped_run = (refl, refl, refl, refl)
