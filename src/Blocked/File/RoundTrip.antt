-- ===== src/Blocked/File/RoundTrip.antt =====
-- s2r__blocked_build, s2r_blocked_save, s2r_blocked_load and the readers of include/smart2raw.h, in a
-- row.
use smart2raw.Base.{
  length, get_or, All, sx, ℕ, ◌+◌, ◌*◌, ◌^◌, ◌≤◌, ◌<◌, ◌≡◌, refl, ap, ◌∙◌, Bool, true, some, List,
  arith,
}
use smart2raw.Pool.{ok}
use smart2raw.Blocked.{block_default, build_blocks}
use smart2raw.Blocked.Filled.{used_block, blocks_in, build_blocks-IsFilled}
use smart2raw.Blocked.Query.{blocked_get, blocked_get_signed}
use smart2raw.Blocked.RoundTrip.{build_blocks-get}
use smart2raw.Blocked.Sums.{build_blocks-granted}
use smart2raw.Blocked.File.{row_bytes, blocked_save, blocked_load}
use smart2raw.Blocked.File.Stored.{IsStored}
use smart2raw.Blocked.File.Loaded.{blocked_load-blocked_save}
use smart2raw.Blocked.File.Built.{stored_size, IsFilled-IsStored}
use smart2raw.Blocked.File.Room.{blocked_save-succeeds}

-- What a build makes of an array with elements passes the checks of the loader.
pub build_blocks-IsStored :
    (alloc : ℕ → Bool) (sg : Bool) (xs : List ℕ) (block : ℕ)
    → All (λ x. x < 2 ^ 64) xs
    → 0 < length xs
    → length xs < 2 ^ 58
    → length xs + block + block_default < 2 ^ 64
    → (build_blocks alloc sg xs block).0 ≡ true
    → let b = (build_blocks alloc sg xs block).1 in
      IsStored b × (b.nblocks * row_bytes b + b.bytes ≤ 58 * length xs)
build_blocks-IsStored alloc sg xs block words some_there few small built =
    let blk = used_block block in
    let n = blocks_in xs blk in
    let b = (build_blocks alloc sg xs block).1 in
    let f = build_blocks-IsFilled alloc sg xs block built in
    let p : 0 < blk = ground arith in
    let l : length xs + blk < 2 ^ 64 = ground arith in
    (
      IsFilled-IsStored sg xs blk n b f p words few l some_there refl,
      stored_size sg xs blk n b f p words few l some_there refl,
    )

-- Where the allocator grants every request, the disk takes 49 bytes and 58 for each element, and the
-- length, the block size and 256 add up to less than 2^64, an array of one to 2^58 - 1 words of 64
-- bits, unsigned or signed, is built as a column, saved and loaded without an error, the file being
-- seekable, and every value of the array is read at its index from the column that is loaded, as
-- uint64_t by `s2r_blocked_get` and as int64_t by `s2r_blocked_get_signed`.
pub blocked_load-build_blocks :
    (sg : Bool) (xs : List ℕ) (block room : ℕ) (alloc : ℕ → Bool)
    → All (λ x. x < 2 ^ 64) xs
    → 0 < length xs
    → length xs < 2 ^ 58
    → length xs + block + block_default < 2 ^ 64
    → ((n : ℕ) → alloc n ≡ true)
    → 49 + 58 * length xs ≤ room
    → let (built, b) = build_blocks alloc sg xs block in
      let (saved, file) = blocked_save alloc true room b in
      let (loaded, c) = blocked_load true alloc (some file) in
      (built ≡ true)
      × (saved ≡ ok)
      × (loaded ≡ ok)
      × ((i : ℕ)
          → i < length xs
          → (blocked_get c i ≡ get_or xs i 0) × (blocked_get_signed c i ≡ sx 64 (get_or xs i 0)))
blocked_load-build_blocks sg xs block room alloc words some_there few small grants big =
    let b = (build_blocks alloc sg xs block).1 in
    let built = build_blocks-granted alloc sg xs block grants in
    let (stored, size) = build_blocks-IsStored alloc sg xs block words some_there few small built in
    let saved = blocked_save-succeeds alloc room b stored grants (omega (arith, size, big)) in
    let back = blocked_load-blocked_save alloc alloc true room b stored saved grants in
    let get = build_blocks-get alloc block sg xs words (omega (arith, few)) small built in
    (
      built,
      saved,
      ap (λ r. r.0) back,
      λ i l.
          let (u, s) = get i l in
          (ap (λ r. blocked_get r.1 i) back ∙ u, ap (λ r. blocked_get_signed r.1 i) back ∙ s),
    )
