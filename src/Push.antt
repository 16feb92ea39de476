-- ===== src/Push.antt =====
-- PUSH VARIANTS of include/smart2raw.h: `s2r_push`, what it keeps of the order and of the summary,
-- and its checked, saturating and bulk forms.
pub mod Append
use smart2raw.Base.{
  ltb, leb, ◌==◌, if◌then◌else◌, length, ℤ, ltb_ℤ, leb_ℤ, u64_mod, u64_max, is_width, wrap,
  wrap_add, sx, to_u64, ℕ, ◌+◌, ◌-◌, ◌*◌, ◌/◌, ◌%◌, Bool, true, false, not, List, [], ◌∷◌,
}
use smart2raw.Class.{max_value, min_signed, max_signed}
use smart2raw.Pool.{
  S2RError, Pool, width, is_signed, next_epoch, reserve, get, get_signed, set, ok, err_oom,
  err_invalid_size, err_value_too_large, err_value_too_small,
}
use smart2raw.Base.Lists

-- S2R_INITIAL_CAPACITY.
abbrev pub initial_capacity : ℕ
initial_capacity = 64

abbrev pub unsorted : Pool → Pool
unsorted p = record p { flags = record (p.flags) { sorted = false } }

-- The order survives if the new value is not smaller than the last.
unfoldable pub keep_sorted : Pool → ℕ → Pool
keep_sorted p v =
    let kept =
      if p.count == 0
      then true
      else if is_signed p
      then leb_ℤ (get_signed p (p.count - 1)) (sx 64 v)
      else leb (get p (p.count - 1)) v in
    if p.flags.sorted then (if kept then p else unsorted p) else p

-- The summary takes the new value in.
unfoldable pub keep_summary : Pool → ℕ → Pool
keep_summary p v =
    if p.flags.summary
    then (if p.count == 0
        then record p { smin = v; smax = v; ssum = v }
        else if is_signed p
        then record p {
          smin = if ltb_ℤ (sx 64 v) (sx 64 p.smin) then v else p.smin;
          smax = if ltb_ℤ (sx 64 p.smax) (sx 64 v) then v else p.smax;
          ssum = wrap_add 64 p.ssum v;
        }
        else record p {
          smin = if ltb v p.smin then v else p.smin;
          smax = if ltb p.smax v then v else p.smax;
          ssum = wrap_add 64 p.ssum v;
        })
    else p

-- The start of `s2r_push`: a new epoch, the order and the summary kept up.
unfoldable pub noted : Pool → ℕ → Pool
noted p v = keep_summary (keep_sorted (record p { epoch = next_epoch p.epoch }) v) v

-- The write at `data[count]`, in the type of the class.
unfoldable pub store : Pool → ℕ → Bool × Pool
store p v =
    if is_width (width p)
    then (
      true,
      record p { cells = Lists.set p.cells p.count (wrap (width p) v); count = p.count + 1 },
    )
    else (false, p)

-- S2R_GROWTH_FACTOR_NUM / S2R_GROWTH_FACTOR_DEN.
abbrev pub grown : ℕ → ℕ
grown capacity =
    let new_cap = capacity * 3 % u64_mod / 2 in
    if leb new_cap capacity then capacity + 1 else new_cap

module _ (alloc : ℕ → Bool) where
  unfoldable pub grow : Pool → Bool × Pool
  grow p =
      if ltb p.count p.capacity
      then (true, p)
      else if p.capacity == 0
      then reserve alloc p initial_capacity
      else if ltb (u64_max / 3) p.capacity
      then (false, p)
      else reserve alloc p (grown p.capacity)

  unfoldable pub push : Pool → ℕ → Bool × Pool
  push p v =
      let (done, r) = grow (noted p v) in
      if p.flags.readonly then (false, p) else if done then store r v else (false, r)

  unfoldable pub push_checked : Pool → ℕ → S2RError × Pool
  push_checked p v =
      let (done, q) = push p v in
      if p.flags.readonly
      then (err_invalid_size, p)
      else if ltb (max_value p.size) v
      then (err_value_too_large, p)
      else if done
      then (ok, q)
      else (err_oom, q)

  unfoldable pub push_signed_checked : Pool → ℤ → S2RError × Pool
  push_signed_checked p v =
      let (done, q) = push p (to_u64 v) in
      if not (is_signed p)
      then (err_invalid_size, p)
      else if ltb_ℤ v (min_signed p.size)
      then (err_value_too_small, p)
      else if ltb_ℤ (max_signed p.size) v
      then (err_value_too_large, p)
      else if done
      then (ok, q)
      else (err_oom, q)

  unfoldable pub push_saturate : Pool → ℕ → Bool × Pool
  push_saturate p v = push p (if ltb (max_value p.size) v then max_value p.size else v)

  -- The loop of `s2r_push_many`, with the number pushed so far.
  unfoldable pub push_each : Pool → List ℕ → ℕ → ℕ × Pool
  push_each p [] pushed = (pushed, p)
  push_each p (v ∷ vs) pushed =
      let (done, q) = push p v in push_each q vs (if done then pushed + 1 else pushed)

  unfoldable pub push_many : Pool → List ℕ → ℕ × Pool
  push_many p [] = (0, p)
  push_many p (v ∷ vs) =
      let needed = (p.count + length (v ∷ vs)) % u64_mod in
      let (got, q) = reserve alloc p needed in
      if ltb p.capacity needed
      then (if got then push_each q (v ∷ vs) 0 else (0, q))
      else push_each p (v ∷ vs) 0
