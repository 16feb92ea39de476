-- ===== src/Scan.antt =====
-- AGGREGATIONS, SIGNED-AWARE AGGREGATIONS and FILTERS AND COUNTS of include/smart2raw.h: the scalar
-- loops. A loop over `data[0..count)` recurs on the elements in use; the four width cases of a
-- switch are one, at the width.
pub mod Exact
use smart2raw.Base.{
  ltb, leb, ◌==◌, if◌then◌else◌, ℤ, ltb_ℤ, leb_ℤ, eqb_ℤ, pos, negsuc, is_width, wrap, wrap_add, sx,
  to_u64, ℕ, ◌+◌, ◌-◌, ◌^◌, Bool, ◌&&◌, ◌||◌, not, List, [], ◌∷◌, map,
}
use smart2raw.Class.{max_from, min_from, max_from_ℤ, min_from_ℤ}
use smart2raw.Pool.{Pool, width, is_neg, live, read, read_signed}

-- `cnt += test(a[i])`. It stays below `count`, so the size_t does not wrap.
unfoldable pub count_if {ℓ} : {A : Type ℓ} → (A → Bool) → List A → ℕ
count_if test [] = 0
count_if test (x ∷ xs) = (if test x then 1 else 0) + count_if test xs

-- `sum += a[i]` on a uint64_t.
unfoldable pub sum_from : ℕ → List ℕ → ℕ
sum_from acc [] = acc
sum_from acc (x ∷ xs) = sum_from (wrap_add 64 acc x) xs

-- `if (test(a[i])) sum += a[i]`.
unfoldable pub sum_from_if {ℓ} : {A : Type ℓ} → (A → Bool) → (A → ℕ) → ℕ → List A → ℕ
sum_from_if test word acc [] = acc
sum_from_if test word acc (x ∷ xs) =
    sum_from_if test word (if test x then wrap_add 64 acc (word x) else acc) xs

-- `if (a[i] == v) return i`, from index `i`.
unfoldable pub find_from : ℕ → ℕ → List ℕ → ℤ
find_from v i [] = negsuc 0
find_from v i (x ∷ xs) = if x == v then pos i else find_from v (i + 1) xs

-- The elements as `s2r_get` and as `s2r_get_signed` read them.
abbrev pub elements : Pool → List ℕ
elements p = map (read p) (live p)

abbrev pub signed_elements : Pool → List ℤ
signed_elements p = map (read_signed p) (live p)

unfoldable pub sum : Pool → ℕ
sum p = if p.count == 0 then 0 else if is_width (width p) then sum_from 0 (live p) else 0

unfoldable pub sum_signed : Pool → ℤ
sum_signed p =
    if p.count == 0
    then pos 0
    else if is_neg p.size && is_width (width p)
    then sx 64 (sum_from 0 (map (λ x. to_u64 (sx (width p) x)) (live p)))
    else sx 64 (sum p)

least : List ℕ → ℕ
least [] = 0
least (x ∷ xs) = min_from x xs

unfoldable pub greatest : List ℕ → ℕ
greatest [] = 0
greatest (x ∷ xs) = max_from x xs

least_ℤ : List ℤ → ℤ
least_ℤ [] = pos 0
least_ℤ (x ∷ xs) = min_from_ℤ x xs

greatest_ℤ : List ℤ → ℤ
greatest_ℤ [] = pos 0
greatest_ℤ (x ∷ xs) = max_from_ℤ x xs

-- `min` and `max` start at `a[0]`; an empty pool has returned before.
unfoldable pub min : Pool → ℕ
unfolding least
min p = if p.count == 0 then 0 else if is_width (width p) then least (live p) else 0

unfoldable pub max : Pool → ℕ
unfolding greatest
max p = if p.count == 0 then 0 else if is_width (width p) then greatest (live p) else 0

unfoldable pub min_signed_val : Pool → ℤ
unfolding least_ℤ
min_signed_val p = if p.count == 0 then pos 0 else least_ℤ (signed_elements p)

unfoldable pub max_signed_val : Pool → ℤ
unfolding greatest_ℤ
max_signed_val p = if p.count == 0 then pos 0 else greatest_ℤ (signed_elements p)

abbrev pub in_range : ℕ → ℕ → ℕ → Bool
in_range min_v max_v v = leb min_v v && leb v max_v

abbrev pub in_range_ℤ : ℤ → ℤ → ℤ → Bool
in_range_ℤ min_v max_v v = leb_ℤ min_v v && leb_ℤ v max_v

unfoldable pub count_gt_signed : Pool → ℤ → ℕ
count_gt_signed p thr = if p.count == 0 then 0 else count_if (ltb_ℤ thr) (signed_elements p)

unfoldable pub count_lt_signed : Pool → ℤ → ℕ
count_lt_signed p thr = if p.count == 0 then 0 else count_if (λ v. ltb_ℤ v thr) (signed_elements p)

unfoldable pub count_eq_signed : Pool → ℤ → ℕ
count_eq_signed p value =
    if p.count == 0 then 0 else count_if (λ v. eqb_ℤ v value) (signed_elements p)

unfoldable pub count_range_signed : Pool → ℤ → ℤ → ℕ
count_range_signed p min_v max_v =
    if p.count == 0 || ltb_ℤ max_v min_v
    then 0
    else count_if (in_range_ℤ min_v max_v) (signed_elements p)

unfoldable pub sum_if_signed : Pool → ℤ → ℤ → ℤ
sum_if_signed p min_v max_v =
    if p.count == 0 || ltb_ℤ max_v min_v
    then pos 0
    else sx 64 (sum_from_if (in_range_ℤ min_v max_v) to_u64 0 (signed_elements p))

-- The test before each loop of `s2r_count_gt` is that the threshold is the class's maximum or more.
unfoldable pub count_gt : Pool → ℕ → ℕ
count_gt p thr =
    let w = width p in
    if p.count == 0
    then 0
    else if is_width w
    then (if leb (2 ^ w - 1) thr then 0 else count_if (ltb (wrap w thr)) (live p))
    else 0

unfoldable pub count_lt : Pool → ℕ → ℕ
count_lt p thr =
    let w = width p in
    if p.count == 0
    then 0
    else if thr == 0
    then 0
    else if is_width w
    then (if ltb (2 ^ w - 1) thr then p.count else count_if (λ a. ltb a (wrap w thr)) (live p))
    else 0

unfoldable pub count_eq : Pool → ℕ → ℕ
count_eq p value =
    let w = width p in
    if p.count == 0
    then 0
    else if is_width w
    then (if ltb (2 ^ w - 1) value then 0 else count_if (λ a. a == wrap w value) (live p))
    else 0

unfoldable pub count_range : Pool → ℕ → ℕ → ℕ
count_range p min_v max_v =
    if p.count == 0
    then 0
    else if ltb max_v min_v
    then 0
    else count_if (in_range min_v max_v) (elements p)

unfoldable pub sum_if : Pool → ℕ → ℕ → ℕ
sum_if p min_v max_v =
    if p.count == 0 then 0 else sum_from_if (in_range min_v max_v) (λ v. v) 0 (elements p)

unfoldable pub find : Pool → ℕ → ℤ
find p value =
    let w = width p in
    if p.count == 0
    then negsuc 0
    else if is_width w
    then (if ltb (2 ^ w - 1) value then negsuc 0 else find_from (wrap w value) 0 (live p))
    else negsuc 0
