-- ===== src/Pool/Shrink.antt =====
-- s2r_shrink_to_fit of include/smart2raw.h.
use native.Mathlib.Nat.{mod-eq_of_lt}
use smart2raw.Base.{
  ◌==◌, if◌then◌else◌, ℕ, ◌+◌, ◌*◌, ◌^◌, ◌≤◌, ◌<◌, ◌≡◌, refl, ◌⊎◌, inl, inr, Bool, true, false,
  arith,
}
use smart2raw.Pool.{
  Pool, width, elem_bytes, used_bytes, alignment, align_up, live, moved_to, shrink_to_fit,
}
use smart2raw.Pool.Valid.{IsValid, align_up_lem}
use smart2raw.Pool.Memory.{Requestable, moved_to-IsValid}

-- What a shrink leaves: the pool as it was, or a buffer for the elements in use with fewer than 64 bytes more.
abbrev pub Shrunk : Pool → Bool × Pool → Type 0
Shrunk p r =
    (r.1 ≡ p)
    ⊎ ((r.0 ≡ true)
        × (r.1.capacity ≡ p.count)
        × (p.count * elem_bytes p ≤ r.1.byte_cap)
        × (r.1.byte_cap < p.count * elem_bytes p + 64))

align_up-lt : (n : ℕ) → n + 63 < 2 ^ 64 → align_up n alignment < n + 64
unfolding align_up
align_up-lt n h = omega arith

abbrev pub Keeps : Pool → Bool × Pool → Type 0
Keeps p r = IsValid r.1 × (live r.1 ≡ live p) × Shrunk p r

-- The answers of a shrink, on its four tests.
answers :
    (P : Bool × Pool → Type 0) (p q : Pool) (none_in full shut got : Bool)
    → ((b : Bool) → P (b, p))
    → P (true, q)
    → P (
        if none_in
        then (true, p)
        else if full
        then (true, p)
        else if shut
        then (false, p)
        else if got
        then (true, q)
        else (false, p))
answers P p q true full shut got h k = h true
answers P p q false true shut got h k = h true
answers P p q false false true got h k = h false
answers P p q false false false true h k = k
answers P p q false false false false h k = h false

-- On a valid pool whose elements in use take fewer than 2^64 - 63 bytes, `s2r_shrink_to_fit` keeps
-- the pool valid and its elements, and leaves the pool as it was or with a buffer of fewer than 64
-- bytes more than the elements take.
pub shrink_to_fit-Shrunk :
    (alloc : ℕ → Bool) (p : Pool)
    → IsValid p
    → Requestable (width p) p.count
    → Keeps p (shrink_to_fit alloc p)
unfolding shrink_to_fit
shrink_to_fit-Shrunk alloc p v r =
    let used : used_bytes p ≡ p.count * elem_bytes p = mod-eq_of_lt (omega arith) in
    let m = moved_to-IsValid p p.count v (omega arith) r in
    let n = p.count * elem_bytes p in
    let total = align_up n alignment in
    let up = align_up_lem n r in
    let near = align_up-lt n r in
    let kept : (b : Bool) → Keeps p (b, p) = λ b. (v, refl, inl refl) in
    rw (shrink_to_fit, used)
      (answers (Keeps p) p (moved_to p total p.count) (p.count == 0) (p.count == p.capacity)
        p.flags.readonly (alloc total) kept (m.0, m.1, inr (refl, refl, up.0, near)))
