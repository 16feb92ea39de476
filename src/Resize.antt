-- ===== src/Resize.antt =====
-- CLASS PROMOTION/DEMOTION and BIDIRECTIONAL WIDTH of include/smart2raw.h.
pub mod Promote
use smart2raw.Base.{
  ltb, leb, ◌==◌, if◌then◌else◌, replicate, ℤ, ltb_ℤ, eqb_ℤ, pos, u64_mod, wrap, to_u64, ℕ, ◌-◌,
  ◌*◌, ◌/◌, ◌%◌, Bool, true, false, ◌||◌, not, List, [], ◌∷◌, ◌++◌, map,
}
use smart2raw.Class.{
  s8, s16, s32, s64, i16, i32, i64, abs_size, max_value, classify, classify_signed_range,
}
use smart2raw.Pool.{
  Flags, Pool, width, is_neg, is_signed, alignment, align_up, class_flags, live, read, read_signed,
  get, get_signed, set, set_signed,
}
use smart2raw.Scan.{elements, max, min_signed_val, max_signed_val}

-- The buffer of `n` converted elements, in `bytes` bytes.
abbrev pub converted : Pool → (ℕ → ℕ) → ℤ → ℕ → Pool
converted p f new_size bytes = record p {
  cells = map f (live p) ++ replicate (bytes / (abs_size new_size / 8) - p.count) 0;
  byte_cap = bytes;
  capacity = p.count;
  size = new_size;
}

-- The bytes of `count` elements of a class, rounded up; the product is that of size_t.
abbrev pub class_bytes : Pool → ℤ → ℕ
class_bytes p new_size = align_up (p.count * (abs_size new_size / 8) % u64_mod) alignment

-- `(intN_t)s2r_get_signed(p, i)` and `(uintN_t)s2r_get(p, i)`.
abbrev pub recast_signed : Pool → ℤ → ℕ → ℕ
recast_signed p new_size x = wrap (abs_size new_size) (to_u64 (read_signed p x))

abbrev pub recast : Pool → ℤ → ℕ → ℕ
recast p new_size x = wrap (abs_size new_size) (read p x)

-- The cases of the two switches of `s2r_promote`.
abbrev pub promotable : Bool → ℤ → Bool
promotable signed new_size =
    if signed
    then eqb_ℤ new_size i16 || eqb_ℤ new_size i32 || eqb_ℤ new_size i64
    else eqb_ℤ new_size s16 || eqb_ℤ new_size s32 || eqb_ℤ new_size s64

-- Some element is above the new maximum.
unfoldable pub any_above : ℕ → List ℕ → Bool
any_above m [] = false
any_above m (x ∷ xs) = ltb m x || any_above m xs

-- The capacity of the buffer at hand in elements of the new class, for an empty pool. The words
-- that its bytes make are indeterminate.
unfoldable pub recap_empty : Pool → Pool
recap_empty p =
    let eb = width p / 8 in
    let room = if eb == 0 || p.byte_cap == 0 then 0 else p.byte_cap / eb in
    record p { capacity = room; cells = replicate room 0 }

abbrev pub with_sign : ℤ → Flags → Flags
with_sign new_size f = record f { signed = is_neg new_size }

module _ (alloc : ℕ → Bool) where
  unfoldable pub promote : Pool → ℤ → Bool × Pool
  promote p new_size =
      let bytes = class_bytes p new_size in
      let f = if is_signed p then recast_signed p new_size else recast p new_size in
      if p.count == 0
      then (false, p)
      else if leb (abs_size new_size) (width p)
      then (false, p)
      else if not (alloc bytes)
      then (false, p)
      else if promotable (is_signed p) new_size
      then (true, record (converted p f new_size bytes) { flags = class_flags new_size })
      else (false, p)

  -- The flags stay as they were.
  unfoldable pub demote : Pool → ℤ → Bool × Pool
  demote p new_size =
      let bytes = class_bytes p new_size in
      if p.count == 0
      then (false, p)
      else if leb (width p) (abs_size new_size)
      then (false, p)
      else if any_above (max_value new_size) (elements p)
      then (false, p)
      else if not (alloc bytes)
      then (false, p)
      else if eqb_ℤ new_size s8 || eqb_ℤ new_size s16 || eqb_ℤ new_size s32
      then (true, converted p (recast p new_size) new_size bytes)
      else (false, p)

  unfoldable pub reclass : Pool → ℤ → Bool × Pool
  reclass p new_size =
      let bytes = class_bytes p new_size in
      let f = if is_signed p then recast_signed p new_size else recast p new_size in
      if p.count == 0
      then (true, recap_empty (record p { size = new_size; flags = with_sign new_size p.flags }))
      else if alloc bytes
      then (true, record (converted p f new_size bytes) { flags = with_sign new_size p.flags })
      else (false, p)

  unfoldable pub fit_class : Pool → Bool × Pool
  fit_class p =
      let target =
        if is_signed p
        then classify_signed_range (min_signed_val p) (max_signed_val p)
        else classify (max p) in
      if p.count == 0
      then (true, p)
      else if leb (width p) (abs_size target)
      then (true, p)
      else reclass p target

  unfoldable pub fit_class_signedness : Pool → Bool × Pool
  fit_class_signedness p =
      let target = classify (to_u64 (max_signed_val p)) in
      if p.count == 0
      then (true, p)
      else if not (is_signed p)
      then fit_class p
      else if ltb_ℤ (min_signed_val p) (pos 0)
      then fit_class p
      else if leb (width p) (abs_size target)
      then (true, p)
      else reclass p target

unfoldable pub remove_swap : Pool → ℕ → Pool
remove_swap p i =
    let last = p.count - 1 in
    let moved_last =
      if is_signed p then set_signed p i (get_signed p last) else set p i (get p last) in
    let q = if i == last then p else moved_last in
    if leb p.count i then p else record q { count = q.count - 1 }
