-- ===== src/Tests.antt =====
-- Runs on small pools of include/smart2raw.h.
pub mod Columns
pub mod Files
pub mod Blocks
pub mod Plans
pub mod Stores
use smart2raw.Base.{
  ltb, ◌==◌, pos, negsuc, wrap, wrap_add, sx, to_u64, ℕ, ◌+◌, ◌-◌, ◌*◌, ◌^◌, ◌≤◌, ◌<◌, ◌≡◌, refl,
  ◌⊎◌, Bool, true, false, [], ◌∷◌, ◌++◌, arith,
}
use smart2raw.Class.{classify, max_from, max_from_ℤ, min_from_ℤ, classify_array}
use smart2raw.Pool.{Flags, Pool, class_flags, live, pool_init, reserve, shrink_to_fit, get, set}
use smart2raw.Pool.Valid.{IsValid}
use smart2raw.Pool.Memory.{reserve-IsValid}
use smart2raw.Push.{keep_sorted, keep_summary, noted, store, grow, push}
use smart2raw.Push.Append.{push_lem}
use smart2raw.Known.{values, Ascending, sum_u64, IsKnown}
use smart2raw.Scan.{
  count_if, in_range, in_range_ℤ, count_range_signed, count_gt, count_lt, count_eq, count_range,
  sum_if,
}
use smart2raw.Scan.Exact.{counts_exact}
use smart2raw.Fast.{count_range_fast, count_gt_fast, sum_if_fast, count_range_signed_fast}
use smart2raw.Fast.Counts.{count_range_fast-count_range, count_gt_fast-count_gt}
use smart2raw.Fast.Sums.{sum_if_fast-sum_if}
use smart2raw.Fast.SignedCounts.{count_range_signed_fast-count_range_signed}
use smart2raw.Order.{summarize, mark_sorted}
use smart2raw.Order.Facts.{mark_sorted-IsKnown}
use smart2raw.Order.Extent.{summarize-IsKnown}
use smart2raw.Known.Keep.{push-IsKnown}
use smart2raw.Resize.{promote}
use smart2raw.Resize.Promote.{SignAgrees, promote_lem}
use smart2raw.Adaptive.{push_adaptive, add_scalar_safe, mul_scalar_safe, defer_commit}
use smart2raw.Adaptive.Push.{Outcome, push_adaptive_lem}
use smart2raw.Arith.{to_array_any, from_array_auto}
use smart2raw.Arith.Convert.{to_array_any-from_array_auto}
use smart2raw.Lazy.{defer_begin, op_add, op_mul}
use smart2raw.Adaptive.Exact.{Exactly, add_scalar_safe_lem, mul_scalar_safe_lem}
use smart2raw.Adaptive.Session.{replay, session}
use smart2raw.Adaptive.Commit.{defer_commit-session}
use smart2raw.Index.{Index, index_build, index_count_range}
use smart2raw.Index.Exact.{index_count_range-exact, index_count_range-stale}
use smart2raw.Pool.Access.{get-set}
use smart2raw.Pool.Shrink.{Keeps, shrink_to_fit-Shrunk}

abbrev facts : Bool → Flags
facts signed = record {
  signed = signed;
  readonly = false;
  external = false;
  sorted = true;
  summary = true;
}

-- 1, 5, 9 in bytes, with room for one more.
abbrev bytes : Pool
bytes = record {
  cells = 1 ∷ 5 ∷ 9 ∷ 0 ∷ [];
  byte_cap = 4;
  count = 3;
  capacity = 4;
  size = pos 8;
  flags = facts false;
  smin = 1;
  smax = 9;
  ssum = 15;
  epoch = 3;
}

-- -2, 3, 7 in signed bytes.
abbrev signed_bytes : Pool
signed_bytes = record bytes {
  cells = 254 ∷ 3 ∷ 7 ∷ 0 ∷ [];
  size = negsuc 7;
  flags = facts true;
  smin = 2 ^ 64 - 2;
  smax = 7;
  ssum = 8;
}

-- 1, 5, 9 with nothing known.
abbrev plain : Pool
plain = record bytes { flags = class_flags (pos 8); smin = 0; smax = 0; ssum = 0 }

abbrev granted : ℕ → Bool
granted n = true

bytes-IsValid : IsValid bytes
bytes-IsValid = record {
  class = omega arith;
  room = omega arith;
  cap_cells = omega arith;
  cells_bytes = refl;
  small = omega arith;
  words = omega arith;
}

signed_bytes-IsValid : IsValid signed_bytes
signed_bytes-IsValid = record {
  class = omega arith;
  room = omega arith;
  cap_cells = omega arith;
  cells_bytes = refl;
  small = omega arith;
  words = omega arith;
}

plain-IsValid : IsValid plain
plain-IsValid = record {
  class = omega arith;
  room = omega arith;
  cap_cells = omega arith;
  cells_bytes = refl;
  small = omega arith;
  words = omega arith;
}

bytes-IsKnown : IsKnown bytes
unfolding sum_u64 wrap_add to_u64 min_from_ℤ max_from_ℤ
bytes-IsKnown = record { order = λ e. omega arith; extent = λ e. (refl, refl, refl) }

signed_bytes-IsKnown : IsKnown signed_bytes
unfolding sum_u64 wrap_add to_u64 min_from_ℤ max_from_ℤ sx
signed_bytes-IsKnown = record { order = λ e. omega arith; extent = λ e. (refl, refl, refl) }

plain-IsKnown : IsKnown plain
plain-IsKnown = record { order = λ e. absurd (cc e); extent = λ e. absurd (cc e) }

count_range_fast-count_range_example : count_range_fast bytes 2 9 ≡ count_range bytes 2 9
count_range_fast-count_range_example = count_range_fast-count_range bytes-IsValid bytes-IsKnown 2 9

count_gt_fast-count_gt_example : count_gt_fast bytes 4 ≡ count_gt bytes 4
count_gt_fast-count_gt_example = count_gt_fast-count_gt bytes-IsValid bytes-IsKnown 4

sum_if_fast-sum_if_example : sum_if_fast bytes 2 9 ≡ sum_if bytes 2 9
sum_if_fast-sum_if_example = sum_if_fast-sum_if bytes-IsValid 2 9

count_range_signed_fast-count_range_signed_example :
    count_range_signed_fast signed_bytes (negsuc 4) (pos 3)
    ≡ count_range_signed signed_bytes (negsuc 4) (pos 3)
count_range_signed_fast-count_range_signed_example =
    count_range_signed_fast-count_range_signed signed_bytes-IsValid signed_bytes-IsKnown refl
      (negsuc 4) (pos 3)

push_lem_example :
    let (done, q) = push granted bytes 300 in
    IsValid q
    × ((done ≡ true) × (live q ≡ live bytes ++ (wrap 8 300 ∷ []))
        ⊎ (done ≡ false) × (live q ≡ live bytes))
push_lem_example = push_lem granted bytes 300 bytes-IsValid (omega arith)

reserve-IsValid_example :
    let (done, q) = reserve granted bytes 100 in
    IsValid q
    × (live q ≡ live bytes)
    × (((done ≡ true) × (100 ≤ q.capacity)) ⊎ ((done ≡ false) × (q ≡ bytes)))
reserve-IsValid_example = reserve-IsValid granted bytes 100 bytes-IsValid (omega arith)

summarize-IsKnown_example : IsKnown (summarize plain) × ((summarize plain).flags.summary ≡ true)
summarize-IsKnown_example = summarize-IsKnown plain-IsValid plain-IsKnown

push-IsKnown_example : IsKnown (push granted bytes 7).1
unfolding push store grow noted keep_sorted keep_summary get wrap
push-IsKnown_example =
    push-IsKnown granted 7 bytes-IsValid (omega arith) refl refl (omega arith) bytes-IsKnown

promote_lem_example :
    let (done, q) = promote granted plain (pos 32) in
    ((done ≡ true)
      × IsValid q
      × SignAgrees q
      × (q.size ≡ pos 32)
      × (8 < 32)
      × (values q ≡ values plain)
      × (q.capacity ≡ 3))
    ⊎ ((done ≡ false) × (q ≡ plain))
promote_lem_example = promote_lem granted plain (pos 32) plain-IsValid refl (omega arith)

push_adaptive_lem_example : Outcome (values bytes) (pos 1000) (push_adaptive granted bytes 1000)
push_adaptive_lem_example =
    push_adaptive_lem granted 1000 bytes bytes-IsValid (omega arith) (omega arith)

to_array_any-from_array_auto_example :
    to_array_any (from_array_auto granted bytes (3 ∷ 7 ∷ [])).1 (0 ∷ 0 ∷ 9 ∷ []) ≡ 3 ∷ 7 ∷ 9 ∷ []
unfolding from_array_auto pool_init classify_array classify max_from
to_array_any-from_array_auto_example =
    to_array_any-from_array_auto granted bytes (3 ∷ 7 ∷ []) (0 ∷ 0 ∷ 9 ∷ []) (omega arith)
      (omega arith) refl

add_scalar_safe_lem_example : Exactly bytes (λ x. x + 250) (add_scalar_safe granted bytes 250)
add_scalar_safe_lem_example = add_scalar_safe_lem granted bytes 250 bytes-IsValid (omega arith)

mul_scalar_safe_lem_example : Exactly bytes (λ x. x * 1000) (mul_scalar_safe granted bytes 1000)
mul_scalar_safe_lem_example = mul_scalar_safe_lem granted bytes 1000 bytes-IsValid (omega arith)

defer_commit-session_example :
    let (done, q) =
      defer_commit granted (session (defer_begin bytes) (op_mul 100 ∷ op_add 7 ∷ [])) bytes in
    (done ≡ true) × IsValid q × (live q ≡ 107 ∷ 507 ∷ 907 ∷ []) ⊎ (done ≡ false) × (q ≡ bytes)
unfolding replay
defer_commit-session_example =
    defer_commit-session granted bytes (op_mul 100 ∷ op_add 7 ∷ []) bytes-IsValid (omega arith) refl

index_count_range-exact_example :
    index_count_range (index_build granted bytes).1 bytes (pos 2) (pos 300)
    ≡ (count_if (in_range_ℤ (pos 2) (pos 300)) (values bytes), true)
unfolding index_build
index_count_range-exact_example =
    index_count_range-exact granted bytes (pos 2) (pos 300) bytes-IsValid refl refl (omega arith)
      (omega arith) (omega arith)

index_count_range-stale_example :
    index_count_range (index_build granted bytes).1 (set bytes 1 6) (pos 2) (pos 300) ≡ (0, false)
index_count_range-stale_example =
    index_count_range-stale granted bytes 1 6 (pos 2) (pos 300) (omega arith)

counts_exact_example :
    (count_gt bytes 261 ≡ count_if (ltb 261) (live bytes))
    × (count_lt bytes 261 ≡ count_if (λ a. ltb a 261) (live bytes))
    × (count_eq bytes 261 ≡ count_if (λ a. a == 261) (live bytes))
    × (count_range bytes 2 300 ≡ count_if (in_range 2 300) (live bytes))
counts_exact_example = counts_exact bytes bytes-IsValid 261 2 300

get-set_example :
    IsValid (set bytes 1 300)
    × ((set bytes 1 300).count ≡ 3)
    × (get (set bytes 1 300) 2 ≡ get bytes 2)
get-set_example = get-set bytes 1 2 300 bytes-IsValid (omega arith)

shrink_to_fit-Shrunk_example : Keeps bytes (shrink_to_fit granted bytes)
shrink_to_fit-Shrunk_example = shrink_to_fit-Shrunk granted bytes bytes-IsValid (omega arith)
