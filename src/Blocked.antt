-- ===== src/Blocked.antt =====
-- S2RBlocked of include/smart2raw.h, the BLOCK-WISE WIDTH MODULE (PFOR): the build and the readers.
--
-- A column is the list of its words, `su[i]` or `(uint64_t)ss[i]`, which a signed column compares as
-- int64_t. The payload `data` is the list of its bytes on a little-endian host, and the bytes between
-- two blocks, which the code leaves uninitialised, are written as zeros. A bookkeeping array is the
-- list of its words in its class.
pub mod Query
pub mod Words
pub mod Filled
pub mod Sums
pub mod RoundTrip
pub mod File
pub mod Pieces
pub mod Payload
pub mod Extent
pub mod Ends
pub mod Lattice
pub mod Counts
pub mod Above
pub mod Answers
use smart2raw.Base.{
  ltb, leb, ◌==◌, if◌then◌else◌, length, get_or, take, drop, replicate, ℤ, ltb_ℤ, pos, wrap,
  wrap_add, wrap_sub, wrap_mul, sx, to_u64, ℕ, zero, suc, ◌+◌, ◌-◌, ◌*◌, ◌/◌, ◌<◌, Bool, true,
  false, ◌&&◌, ◌||◌, not, List, [], ◌∷◌, ◌++◌, map,
}
use smart2raw.Class.{s8, i8, abs_size, classify, max_from, classify_signed_range}
use smart2raw.Pool.{Pool, width, alignment, align_up}
use smart2raw.Scan.{sum_from}
use smart2raw.Affine.{Affine, common_step, at_least_one, index_of}
use smart2raw.Format.{memory}

-- S2R_BLOCK_DEFAULT.
abbrev pub block_default : ℕ
block_default = 256

-- S2R_BLK_SORTED.
abbrev pub blk_sorted : ℕ
blk_sorted = 1

pub record Blocked : Type 0 where
  pub payload : List ℕ
  pub bytes : ℕ
  pub bclass : List ℕ
  pub bflags : List ℕ
  pub boff : List ℕ
  pub bbase : List ℕ
  pub bspan : List ℕ
  pub bsum : List ℕ
  pub bstride : List ℕ
  pub bcls : ℤ
  pub ocls : ℤ
  pub pcls : ℤ
  pub scls : ℤ
  pub tcls : ℤ
  pub has_stride : Bool
  pub nblocks : ℕ
  pub count : ℕ
  pub block : ℕ
  pub is_signed : Bool

abbrev pub md_bytes : ℤ → ℕ
md_bytes cls = abs_size cls / 8

-- The width that the four accessors take for a class.
abbrev pub md_width : ℤ → ℕ
md_width cls = let w = abs_size cls in if w == 8 || w == 16 || w == 32 then w else 64

unfoldable pub md_ru : List ℕ → ℤ → ℕ → ℕ
md_ru a cls i = get_or a i 0

unfoldable pub md_rs : List ℕ → ℤ → ℕ → ℤ
md_rs a cls i = sx (md_width cls) (get_or a i 0)

-- The word that `s2r__md_wu` and `s2r__md_ws` write.
abbrev pub md_word : ℤ → ℕ → ℕ
md_word cls v = wrap (md_width cls) v

unfoldable pub block_base : Blocked → ℕ → ℕ
block_base b i = if b.is_signed then to_u64 (md_rs b.bbase b.bcls i) else md_ru b.bbase b.bcls i

unfoldable pub block_offset : Blocked → ℕ → ℕ
block_offset b i = md_ru b.boff b.ocls i

unfoldable pub block_span : Blocked → ℕ → ℕ
block_span b i = md_ru b.bspan b.pcls i

unfoldable pub block_stride : Blocked → ℕ → ℕ
block_stride b i = if b.has_stride then md_ru b.bstride b.tcls i else 1

unfoldable pub blocked_stride : Blocked → ℕ → ℕ
blocked_stride b i = if ltb i b.nblocks then block_stride b i else 1

unfoldable pub block_sum : Blocked → ℕ → ℕ
block_sum b i = if b.is_signed then to_u64 (md_rs b.bsum b.scls i) else md_ru b.bsum b.scls i

unfoldable pub block_len : Blocked → ℕ → ℕ
block_len b bi =
    let rest = wrap_sub 64 b.count (wrap_mul 64 bi b.block) in
    if ltb rest b.block then rest else b.block

unfoldable pub delta_bytes : ℕ → ℕ
delta_bytes span =
    if span == 0
    then 0
    else if leb span 0xff
    then 1
    else if leb span 0xffff
    then 2
    else if leb span 0xffff_ffff
    then 4
    else 8

-- The comparison of two words of a column.
abbrev pub word_lt : Bool → ℕ → ℕ → Bool
word_lt is_signed x y = if is_signed then ltb_ℤ (sx 64 x) (sx 64 y) else ltb x y

unfoldable pub min_word : Bool → ℕ → List ℕ → ℕ
min_word sg m [] = m
min_word sg m (x ∷ xs) = min_word sg (if word_lt sg x m then x else m) xs

unfoldable pub max_word : Bool → ℕ → List ℕ → ℕ
max_word sg m [] = m
max_word sg m (x ∷ xs) = max_word sg (if word_lt sg m x then x else m) xs

-- `if (i && x < src[start+i-1]) sorted = 0`.
unfoldable pub in_order_from : Bool → ℕ → List ℕ → Bool
in_order_from sg last [] = true
in_order_from sg last (x ∷ xs) = not (word_lt sg x last) && in_order_from sg x xs

-- What the first pass keeps of a block.
pub record Stats : Type 0 where
  pub base : ℕ
  pub span : ℕ
  pub sum : ℕ
  pub stride : ℕ
  pub sorted : Bool

unfoldable pub stats : Bool → List ℕ → Stats
stats sg [] = record { base = 0; span = 0; sum = 0; stride = 1; sorted = true }
stats sg (x ∷ xs) =
    let mn = min_word sg x xs in
    let wide = wrap_sub 64 (max_word sg x xs) mn in
    let step = if wide == 0 then 0 else common_step mn 0 (x ∷ xs) in
    let stride = at_least_one step in
    record {
      base = mn;
      span = if ltb step 2 then wide else wide / step;
      sum = sum_from 0 (x ∷ xs);
      stride = stride;
      sorted = in_order_from sg x xs;
    }

-- The blocks of the array, `fuel` of them at most; `count` blocks are enough.
unfoldable pub blocks_of : ℕ → ℕ → List ℕ → List (List ℕ)
blocks_of block zero xs = []
blocks_of block (suc fuel) xs = elim (length xs == 0) [
  | true ↦ []
  | false ↦ take block xs ∷ blocks_of block fuel (drop block xs)
]

-- `at = align_up(total, 8); total = at + len*w`, and 0 for a block without a payload.
abbrev pub place : ℕ → ℕ → ℕ → ℕ × ℕ
place total len w =
    if w == 0
    then (0, total)
    else let at = align_up total 8 in (at, wrap_add 64 at (wrap_mul 64 len w))

unfoldable pub offsets_of : ℕ → List (List ℕ) → List Stats → List ℕ × ℕ
offsets_of total [] ss = ([], total)
offsets_of total (b ∷ bs) [] = ([], total)
offsets_of total (b ∷ bs) (s ∷ ss) =
    let (at, next) = place total (length b) (delta_bytes s.span) in
    let (offs, last) = offsets_of next bs ss in (at ∷ offs, last)

abbrev pub zeroed_blocked : Blocked
zeroed_blocked = record {
  payload = [];
  bytes = 0;
  bclass = [];
  bflags = [];
  boff = [];
  bbase = [];
  bspan = [];
  bsum = [];
  bstride = [];
  bcls = pos 0;
  ocls = pos 0;
  pcls = pos 0;
  scls = pos 0;
  tcls = pos 0;
  has_stride = false;
  nblocks = 0;
  count = 0;
  block = 0;
  is_signed = false;
}

unfoldable pub blocked_free : Blocked → Blocked
blocked_free b = zeroed_blocked

-- The class of the bases or of the sums.
unfoldable pub range_class : Bool → List ℕ → ℤ
range_class sg [] = if sg then i8 else s8
range_class sg (x ∷ xs) =
    if sg
    then classify_signed_range (sx 64 (min_word true x xs)) (sx 64 (max_word true x xs))
    else classify (max_word false x xs)

abbrev pub class_bits : Stats → ℕ
class_bits s = delta_bytes s.span * 8

-- The bytes of the blocks, each at its offset.
unfoldable pub payload_of : List ℕ → List (List ℕ) → List Stats → List ℕ → List ℕ
payload_of bytes [] ss os = bytes
payload_of bytes (b ∷ bs) [] os = bytes
payload_of bytes (b ∷ bs) (s ∷ ss) [] = bytes
payload_of bytes (b ∷ bs) (s ∷ ss) (o ∷ os) =
    let w = delta_bytes s.span in
    let deltas = memory true w (map (index_of s.base s.stride) b) in
    let next = if w == 0 then bytes else bytes ++ replicate (o - length bytes) 0 ++ deltas in
    payload_of next bs ss os

-- What the build answers: no blocks, a request that failed, or the filled structure.
unfoldable pub outcome : Bool → Bool → Blocked → Blocked → Bool × Blocked
outcome empty granted start full =
    if empty then (true, start) else if not granted then (false, zeroed_blocked) else (true, full)

-- `s2r__blocked_build` with the structure that it fills; a request that fails empties it.
unfoldable pub build_blocks : (ℕ → Bool) → Bool → List ℕ → ℕ → Bool × Blocked
build_blocks alloc sg words block =
    let blk = if block == 0 then block_default else block in
    let n = length words in
    let nblocks = wrap_sub 64 (wrap_add 64 n blk) 1 / blk in
    let bs = blocks_of blk nblocks words in
    let ss = map (stats sg) bs in
    let (offs, total) = offsets_of 0 bs ss in
    let bases = map (λ s. s.base) ss in
    let spans = map (λ s. s.span) ss in
    let sums = map (λ s. s.sum) ss in
    let strides = map (λ s. s.stride) ss in
    let any_stride = ltb 1 (max_from 1 strides) in
    let bcls = range_class sg bases in
    let pcls = classify (max_from 0 spans) in
    let ocls = classify total in
    let scls = range_class sg sums in
    let tcls = classify (max_from 1 strides) in
    let start : Blocked = record zeroed_blocked {
      bcls = if sg then i8 else s8;
      ocls = s8;
      pcls = s8;
      scls = if sg then i8 else s8;
      nblocks = nblocks;
      count = n;
      block = blk;
      is_signed = sg;
    } in
    let arrays =
      alloc (nblocks * md_bytes bcls)
      && alloc (nblocks * md_bytes pcls)
      && alloc (nblocks * md_bytes ocls)
      && alloc (nblocks * md_bytes scls)
      && (not any_stride || alloc (nblocks * md_bytes tcls)) in
    let granted =
      alloc (nblocks * 8)
      && alloc nblocks
      && arrays
      && (total == 0 || alloc (align_up total alignment)) in
    outcome (nblocks == 0) granted start (record start {
      payload = payload_of [] bs ss offs;
      bytes = total;
      bclass = map class_bits ss;
      bflags = map (λ s. if s.sorted then blk_sorted else 0) ss;
      boff = map (md_word ocls) offs;
      bbase = map (md_word bcls) bases;
      bspan = map (md_word pcls) spans;
      bsum = map (md_word scls) sums;
      bstride = if any_stride then map (md_word tcls) strides else [];
      bcls = bcls;
      ocls = ocls;
      pcls = pcls;
      scls = scls;
      tcls = tcls;
      has_stride = any_stride;
    })

unfoldable pub blocked_build : (ℕ → Bool) → List ℕ → ℕ → Bool × Blocked
blocked_build alloc src block = build_blocks alloc false src block

unfoldable pub blocked_build_signed : (ℕ → Bool) → List ℤ → ℕ → Bool × Blocked
blocked_build_signed alloc src block = build_blocks alloc true (map to_u64 src) block
