-- ===== src/Pool.antt =====
-- S2RPool of include/smart2raw.h and its memory: HELPERS, POOL MANAGEMENT, TYPED ACCESS.
--
-- `cells` is the buffer `data`, all of it, as words of the pool's class; a NULL buffer has none.
-- A cell at or past `count` holds an indeterminate word, and a buffer that the code leaves
-- uninitialised, or reads anew at another class while the pool is empty, is written as zeros.
-- Releasing a buffer changes nothing that the model keeps. `alloc n` says whether the allocator
-- grants a request of `n` bytes.
pub mod Valid
pub mod Memory
pub mod Access
pub mod Shrink
use smart2raw.Base.{
  ltb, leb, ◌==◌, if◌then◌else◌, get_or, take, replicate, ℤ, ltb_ℤ, pos, u64_mod, u64_max, is_width,
  wrap, sx, to_u64, ℕ, zero, ◌+◌, ◌-◌, ◌*◌, ◌/◌, ◌%◌, ◌^◌, Bool, true, false, ◌&&◌, ◌||◌, none,
  List, [], ◌++◌,
}
use smart2raw.Class.{abs_size}
use smart2raw.Base.Lists

pub data S2RError : Type 0 where
  ok err_null err_oom err_overflow err_invalid_size : S2RError
  err_value_too_large err_value_too_small err_empty err_io err_corrupt : S2RError

-- The bits of S2RFlags.
pub record Flags : Type 0 where
  pub signed : Bool
  pub readonly : Bool
  pub external : Bool
  pub sorted : Bool
  pub summary : Bool

pub record Pool : Type 0 where
  pub cells : List ℕ
  pub byte_cap : ℕ
  pub count : ℕ
  pub capacity : ℕ
  pub size : ℤ
  pub flags : Flags
  pub smin : ℕ
  pub smax : ℕ
  pub ssum : ℕ
  pub epoch : ℕ

abbrev pub width : Pool → ℕ
width p = abs_size p.size

abbrev pub elem_bytes : Pool → ℕ
elem_bytes p = width p / 8

abbrev pub used_bytes : Pool → ℕ
used_bytes p = p.count * elem_bytes p % u64_mod

abbrev pub is_neg : ℤ → Bool
is_neg size = ltb_ℤ size (pos 0)

abbrev pub is_signed : Pool → Bool
is_signed p = is_neg p.size || p.flags.signed

-- S2R_ALIGNMENT; the addition is that of size_t.
abbrev pub alignment : ℕ
alignment = 64

unfoldable pub align_up : ℕ → ℕ → ℕ
align_up n align = (n + align - 1) % u64_mod / align * align

-- `S2R_FLAG_SIGNED` or `S2R_FLAG_NONE`, by the class.
abbrev pub class_flags : ℤ → Flags
class_flags size = record {
  signed = is_neg size;
  readonly = false;
  external = false;
  sorted = false;
  summary = false;
}

-- `flags &= ~(S2R_FLAG_SORTED|S2R_FLAG_SUMMARY)`.
abbrev pub forget : Flags → Flags
forget f = record f { sorted = false; summary = false }

-- `epoch++` on a uint32_t.
abbrev pub next_epoch : ℕ → ℕ
next_epoch e = (e + 1) % 2 ^ 32

-- The fields that `pool_init` writes before it asks for memory.
abbrev pub blank : ℤ → ℕ → Pool
blank size capacity = record {
  cells = [];
  byte_cap = 0;
  count = 0;
  capacity = capacity;
  size = size;
  flags = class_flags size;
  smin = 0;
  smax = 0;
  ssum = 0;
  epoch = 0;
}

-- And with the buffer of `total` bytes that it got.
abbrev pub zeroed : ℤ → ℕ → ℕ → Pool
zeroed size capacity total = record (blank size capacity) {
  cells = replicate (total / (abs_size size / 8)) 0;
  byte_cap = total;
}

-- The elements in use.
abbrev pub live : Pool → List ℕ
live p = take p.count p.cells

-- The buffer of `bytes` bytes that keeps the elements in use and is zero after them.
abbrev pub moved : Pool → ℕ → List ℕ
moved p bytes = live p ++ replicate (bytes / elem_bytes p - p.count) 0

-- The pool with its elements in such a buffer, which it owns.
abbrev pub moved_to : Pool → ℕ → ℕ → Pool
moved_to p bytes room = record p {
  cells = moved p bytes;
  byte_cap = bytes;
  capacity = room;
  flags = record (p.flags) { external = false };
}

module _ (alloc : ℕ → Bool) where
  -- `p` is what the caller's storage held; a refused class leaves it alone.
  unfoldable pub pool_init : Pool → ℤ → ℕ → Bool × Pool
  pool_init p size capacity =
      let eb = abs_size size / 8 in
      let total = align_up (capacity * eb) alignment in
      if is_width (abs_size size)
      then (if capacity == 0
          then (true, blank size capacity)
          else if ltb (u64_max / eb) capacity
          then (false, blank size capacity)
          else if alloc total
          then (true, zeroed size capacity total)
          else (false, blank size capacity))
      else (false, p)

  unfoldable pub reserve : Pool → ℕ → Bool × Pool
  reserve p new_cap =
      let new_bytes = align_up (new_cap * elem_bytes p) alignment in
      if leb new_cap p.capacity
      then (true, p)
      else if p.flags.readonly
      then (false, p)
      else if elem_bytes p == 0
      then (false, p)
      else if ltb (u64_max / elem_bytes p) new_cap
      then (false, p)
      else if alloc new_bytes
      then (true, moved_to p new_bytes new_cap)
      else (false, p)

  unfoldable pub shrink_to_fit : Pool → Bool × Pool
  shrink_to_fit p =
      let new_bytes = align_up (used_bytes p) alignment in
      if p.count == 0
      then (true, p)
      else if p.count == p.capacity
      then (true, p)
      else if p.flags.readonly
      then (false, p)
      else if alloc new_bytes
      then (true, moved_to p new_bytes p.count)
      else (false, p)

unfoldable pub pool_free : Pool → Pool
pool_free p = record p {
  cells = [];
  count = 0;
  capacity = 0;
  byte_cap = 0;
  size = pos 0;
  flags = class_flags (pos 0);
}

-- What the typed reads make of a cell.
abbrev pub read : Pool → ℕ → ℕ
read p x = if is_width (width p) then x else 0

abbrev pub read_signed : Pool → ℕ → ℤ
read_signed p x = if is_neg p.size && is_width (width p) then sx (width p) x else sx 64 (read p x)

unfoldable pub get : Pool → ℕ → ℕ
get p i = read p (get_or p.cells i 0)

unfoldable pub get_signed : Pool → ℕ → ℤ
get_signed p i = read_signed p (get_or p.cells i 0)

-- `flags &= ~(SORTED|SUMMARY); epoch++`, the start of every arbitrary write.
abbrev pub touched : Pool → Pool
touched p = record p { flags = forget p.flags; epoch = next_epoch p.epoch }

unfoldable pub set : Pool → ℕ → ℕ → Pool
set p i v =
    if is_width (width p)
    then record (touched p) { cells = Lists.set p.cells i (wrap (width p) v) }
    else touched p

unfoldable pub set_signed : Pool → ℕ → ℤ → Pool
set_signed p i v =
    if is_neg p.size && is_width (width p)
    then record (touched p) { cells = Lists.set p.cells i (wrap (width p) (to_u64 v)) }
    else set (touched p) i (to_u64 v)

unfoldable pub clear : Pool → Pool
clear p = record (touched p) { count = 0 }
