-- ===== src/Plan.antt =====
-- The classification of the block size and the advice on the representation, of
-- include/smart2raw.h: s2r_blocked_plan, s2r_blocked_choose_block, the two automatic builds and
-- s2r_recommend.
--
-- A column is the list of its words, `su[i]` or `(uint64_t)ss[i]`. A block of cells is the list that
-- the code takes from the array of cells by two indices.
pub mod Choice
pub mod Auto
use smart2raw.Base.{
  ltb, leb, ◌==◌, if◌then◌else◌, length, take, drop, ℤ, wrap_add, wrap_sub, wrap_mul, to_u64, ℕ,
  zero, suc, ◌+◌, ◌-◌, ◌*◌, ◌/◌, ◌<◌, Bool, true, false, ◌&&◌, ◌||◌, not, List, [], ◌∷◌, map,
}
use smart2raw.Class.{abs_size, classify, max_from, classify_array}
use smart2raw.Scan.{sum_from, elements, sum}
use smart2raw.Gcd.{gcd64}
use smart2raw.Affine.{Affine, common_step, at_least_one, affine_build, affine_bytes}
use smart2raw.Blocked.{
  block_default, Blocked, md_bytes, delta_bytes, min_word, max_word, blocks_of, place, range_class,
  blocked_build, blocked_build_signed,
}
use smart2raw.Blocked.Query.{blocked_bytes}

-- S2R_PLAN_GRAIN.
abbrev pub plan_grain : ℕ
plan_grain = 64

-- S2R_PLAN_MAX.
abbrev pub plan_max : ℕ
plan_max = 12

pub record BlockPlan : Type 0 where
  pub block : ℕ
  pub bytes : ℕ
  pub nblocks : ℕ
  pub nconst : ℕ
  pub has_stride : Bool

pub record Cell : Type 0 where
  pub mn : ℕ
  pub mx : ℕ
  pub step : ℕ
  pub sum : ℕ
  pub any : Bool

abbrev pub no_cell : Cell
no_cell = record { mn = 0; mx = 0; step = 0; sum = 0; any = false }

unfoldable pub cell_merge : Cell → Cell → Cell
cell_merge a b =
    let m = if ltb a.mn b.mn then a.mn else b.mn in
    let top = if ltb b.mx a.mx then a.mx else b.mx in
    let g = gcd64 a.step b.step in
    let below = gcd64 g (wrap_sub 64 a.mn m) in
    if not a.any then b else if not b.any then a else record {
      mn = m;
      mx = top;
      step = gcd64 below (wrap_sub 64 b.mn m);
      sum = wrap_add 64 a.sum b.sum;
      any = true;
    }

-- What one pass at the finest granularity keeps of `S2R_PLAN_GRAIN` words.
unfoldable pub cell_of : Bool → List ℕ → Cell
cell_of sg [] = no_cell
cell_of sg (x ∷ xs) =
    let mn = min_word sg x xs in
    let mx = max_word sg x xs in
    record {
      mn = mn;
      mx = mx;
      step = at_least_one (if mx == mn then 0 else common_step mn 0 (x ∷ xs));
      sum = sum_from 0 (x ∷ xs);
      any = true;
    }

-- `(n + block - 1) / block`.
abbrev pub blocks_for : ℕ → ℕ → ℕ
blocks_for n block = wrap_sub 64 (wrap_add 64 n block) 1 / block

unfoldable pub cells_of : Bool → List ℕ → List Cell
cells_of sg words =
    map (cell_of sg) (blocks_of plan_grain (blocks_for (length words) plan_grain) words)

-- `for (c = c0; c < c1; c++) acc = merge(acc, cell[c]);`
unfoldable pub merge_all : Cell → List Cell → Cell
merge_all acc [] = acc
merge_all acc (c ∷ cs) = merge_all (cell_merge acc c) cs

-- The cells of each of the `nb` blocks, merged.
unfoldable pub merged : ℕ → ℕ → List Cell → List Cell
merged per zero cs = []
merged per (suc nb) cs = merge_all no_cell (take per cs) ∷ merged per nb (drop per cs)

abbrev pub span_of : Cell → ℕ
span_of c = wrap_sub 64 c.mx c.mn / c.step

-- `total` and `nconst` after the blocks from `start` on.
unfoldable pub priced : ℕ → ℕ → ℕ → ℕ → ℕ → List Cell → ℕ × ℕ
priced n block start total nconst [] = (total, nconst)
priced n block start total nconst (c ∷ cs) =
    let end = wrap_add 64 start block in
    let len = if leb end n then block else wrap_sub 64 n start in
    let w = delta_bytes (span_of c) in
    priced n block end (place total len w).1 (if w == 0 then nconst + 1 else nconst) cs

-- A candidate of `n` elements.
unfoldable pub price : Bool → ℕ → List Cell → ℕ → BlockPlan
price sg n cells block =
    let nb = blocks_for n block in
    let accs = merged (block / plan_grain) nb cells in
    let (total, nconst) = priced n block 0 0 0 accs in
    let strides = max_from 1 (map (λ c. c.step) accs) in
    let any_stride = ltb 1 strides in
    let bcls = range_class sg (map (λ c. c.mn) accs) in
    let pcls = classify (max_from 0 (map span_of accs)) in
    let ocls = classify total in
    let scls = range_class sg (map (λ c. c.sum) accs) in
    let tcls = classify strides in
    let row =
      2
      + md_bytes bcls
      + md_bytes pcls
      + md_bytes ocls
      + md_bytes scls
      + (if any_stride then md_bytes tcls else 0) in
    record {
      block = block;
      bytes = wrap_add 64 total (wrap_mul 64 nb row);
      nblocks = nb;
      nconst = nconst;
      has_stride = any_stride;
    }

-- `for (blk; blk <= 1 << 20 && nout < max_out; blk *= 2)`, with `left = max_out - nout`.
unfoldable pub plans : (ℕ → BlockPlan) → ℕ → ℕ → ℕ → List BlockPlan
plans price_of n zero block = []
plans price_of n (suc left) block = elim (leb block 0x10_0000) [
  | false ↦ []
  | true ↦
      price_of block
      ∷ (elim (leb n block) [ true ↦ [] | false ↦ plans price_of n left (block * 2) ])
]

-- `sizeof(S2R__Cell)`.
abbrev pub cell_size : ℕ
cell_size = 40

unfoldable pub blocked_plan : (ℕ → Bool) → Bool → List ℕ → ℕ → List BlockPlan
blocked_plan alloc sg words max_out =
    let n = length words in
    if n == 0 || max_out == 0 || not (alloc (blocks_for n plan_grain * cell_size))
    then []
    else plans (price sg n (cells_of sg words)) n max_out plan_grain

-- `if (pl[i].bytes <= bb) { bb = pl[i].bytes; best = pl[i].block; }`
unfoldable pub best_block : ℕ → ℕ → List BlockPlan → ℕ
best_block best bb [] = best
best_block best bb (p ∷ ps) =
    let better = leb p.bytes bb in
    best_block (if better then p.block else best) (if better then p.bytes else bb) ps

unfoldable pub best_of : List BlockPlan → ℕ
best_of [] = block_default
best_of (p ∷ ps) = best_block p.block p.bytes ps

unfoldable pub choose_block : (ℕ → Bool) → Bool → List ℕ → ℕ
choose_block alloc sg words = best_of (blocked_plan alloc sg words plan_max)

unfoldable pub blocked_build_auto : (ℕ → Bool) → List ℕ → Bool × Blocked
blocked_build_auto alloc src = blocked_build alloc src (choose_block alloc false src)

unfoldable pub blocked_build_signed_auto : (ℕ → Bool) → List ℤ → Bool × Blocked
blocked_build_signed_auto alloc src =
    blocked_build_signed alloc src (choose_block alloc true (map to_u64 src))

-- The text of the field `best`.
pub data Representation : Type 0 where
  flat : Representation
  affine : Representation
  blocked : Representation

pub record Advice : Type 0 where
  pub raw_bytes : ℕ
  pub flat_bytes : ℕ
  pub affine_bytes : ℕ
  pub blocked_bytes : ℕ
  pub block : ℕ
  pub best_bytes : ℕ
  pub best : Representation

-- `s2r_recommend` with what it writes to `*out`.
unfoldable pub recommend : (ℕ → Bool) → List ℕ → Advice
recommend alloc v =
    let n = length v in
    let flat_size = wrap_mul 64 n (abs_size (classify_array v) / 8) in
    let (built, af) = affine_build alloc v in
    let affine_size = if built then affine_bytes af else flat_size in
    let block = choose_block alloc false v in
    let (done, b) = blocked_build alloc v block in
    let blocked_size = if done then blocked_bytes b else flat_size in
    let first_best = if ltb affine_size flat_size then affine_size else flat_size in
    record {
      raw_bytes = wrap_mul 64 n 8;
      flat_bytes = flat_size;
      affine_bytes = affine_size;
      blocked_bytes = blocked_size;
      block = block;
      best_bytes = if ltb blocked_size first_best then blocked_size else first_best;
      best =
          if ltb blocked_size first_best
          then blocked
          else if ltb affine_size flat_size
          then affine
          else flat;
    }
