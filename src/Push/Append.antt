-- ===== src/Push/Append.antt =====
-- s2r_push of include/smart2raw.h: the elements.
use smart2raw.Base.Lists
use smart2raw.Base.{
  length-set, take-set_next, All-set, IsWidth, IsWidth→is_width, wrap, by_width, wrap-lt, ℕ, ◌^◌,
  ◌<◌, ◌≡◌, refl, sym, subst, ◌∙◌, ◌⊎◌, Bool, true, false, [], ◌∷◌, ◌++◌, arith,
}
use smart2raw.Pool.{Pool, width, next_epoch, live, reserve}
use smart2raw.Pool.Valid.{IsValid}
use smart2raw.Pool.Memory.{Requestable, reserve-IsValid}
use smart2raw.Push.{initial_capacity, keep_sorted, keep_summary, noted, store, grown, grow, push}

-- The fields that decide what the elements are.
abbrev SameData : Pool → Pool → Type 0
SameData p q =
    (q.cells ≡ p.cells)
    × (q.byte_cap ≡ p.byte_cap)
    × (q.count ≡ p.count)
    × (q.capacity ≡ p.capacity)
    × (q.size ≡ p.size)

keep_sorted-SameData : (p : Pool) (v : ℕ) → SameData p (keep_sorted p v)
unfolding keep_sorted
keep_sorted-SameData p v = ground arith

keep_summary-SameData : (p : Pool) (v : ℕ) → SameData p (keep_summary p v)
unfolding keep_summary
keep_summary-SameData p v = ground arith

-- `reserve` moves the buffer and nothing else.
abbrev pub SameFacts : Pool → Pool → Type 0
SameFacts p q =
    (q.count ≡ p.count)
    × (q.size ≡ p.size)
    × (q.flags.signed ≡ p.flags.signed)
    × (q.flags.sorted ≡ p.flags.sorted)
    × (q.flags.summary ≡ p.flags.summary)
    × (q.smin ≡ p.smin)
    × (q.smax ≡ p.smax)
    × (q.ssum ≡ p.ssum)
    × (q.epoch ≡ p.epoch)

pub reserve-SameFacts : (alloc : ℕ → Bool) (p : Pool) (n : ℕ) → SameFacts p (reserve alloc p n).1
unfolding reserve
reserve-SameFacts alloc p n = ground arith

pub grow-SameFacts : (alloc : ℕ → Bool) (p : Pool) → SameFacts p (grow alloc p).1
unfolding grow
grow-SameFacts alloc p = ground (
  arith,
  reserve-SameFacts alloc p initial_capacity,
  reserve-SameFacts alloc p (grown p.capacity),
)

grown-Requestable : (w : ℕ) → IsWidth w → (n : ℕ) → n < 2 ^ 60 → Requestable w (grown n)
grown-Requestable =
    by_width (λ w. (n : ℕ) → n < 2 ^ 60 → Requestable w (grown n)) (λ n h. ground arith)
      (λ n h. ground arith) (λ n h. ground arith) (λ n h. ground arith)

initial-Requestable : (w : ℕ) → IsWidth w → Requestable w 64
initial-Requestable =
    by_width (λ w. Requestable w 64) (omega arith) (omega arith) (omega arith) (omega arith)

-- Below this capacity growing does not leave size_t.
abbrev pub Growable : Pool → Type 0
Growable p = p.capacity < 2 ^ 60

-- Growing makes room for one more element, or refuses; the elements stay.
pub grow_lem :
    (alloc : ℕ → Bool) (p : Pool)
    → IsValid p
    → Growable p
    → let (done, q) = grow alloc p in
      IsValid q × (live q ≡ live p) × ((done ≡ true) × (q.count < q.capacity) ⊎ (done ≡ false))
unfolding grow
grow_lem alloc p v h = ground (
  arith,
  reserve-IsValid alloc p initial_capacity v (initial-Requestable (width p) v.class),
  reserve-IsValid alloc p (grown p.capacity) v (grown-Requestable (width p) v.class p.capacity h),
  reserve-SameFacts alloc p initial_capacity,
  reserve-SameFacts alloc p (grown p.capacity),
)

noted-SameData : (p : Pool) (v : ℕ) → SameData p (noted p v)
unfolding noted
noted-SameData p v =
    let p' = record p { epoch = next_epoch p.epoch } in
    ground (arith, keep_sorted-SameData p' v, keep_summary-SameData (keep_sorted p' v) v)

SameData-IsValid : (p q : Pool) → SameData p q → IsValid p → IsValid q × (live q ≡ live p)
SameData-IsValid p q d v =
    subst (λ r. IsValid r × (live r ≡ live p))
      (λ i. record q {
        cells = sym d.0 i;
        byte_cap = sym d.1 i;
        count = sym d.2 i;
        capacity = sym d.3 i;
        size = sym d.4 i;
      })
      (
        record {
          class = v.class;
          room = v.room;
          cap_cells = v.cap_cells;
          cells_bytes = v.cells_bytes;
          small = v.small;
          words = v.words;
        },
        refl,
      )

pub store_lem :
    (p : Pool) (v : ℕ)
    → IsValid p
    → p.count < p.capacity
    → let (done, q) = store p v in
      (done ≡ true) × IsValid q × (live q ≡ live p ++ (wrap (width p) v ∷ []))
unfolding store
store_lem p v i h =
    let w = width p in
    let c = Lists.set p.cells p.count (wrap w v) in
    let l = length-set p.cells p.count (wrap w v) in
    rw (IsWidth→is_width w i.class) (
      refl,
      record {
        class = i.class;
        room = omega arith;
        cap_cells = omega (arith, l, i.cap_cells);
        cells_bytes = l ∙ i.cells_bytes;
        small = i.small;
        words = All-set (λ x. x < 2 ^ w) p.cells p.count (wrap w v) (wrap-lt w v i.class) i.words;
      },
      take-set_next p.count p.cells (wrap w v) (omega arith),
    )

-- On a valid pool whose capacity is below 2^60, a push leaves a valid pool: it answers true and has
-- appended the value cast to the class, or it answers false and the elements are as they were.
pub push_lem :
    (alloc : ℕ → Bool) (p : Pool) (v : ℕ)
    → IsValid p
    → Growable p
    → let (done, q) = push alloc p v in
      IsValid q
      × ((done ≡ true) × (live q ≡ live p ++ (wrap (width p) v ∷ []))
          ⊎ (done ≡ false) × (live q ≡ live p))
unfolding push
push_lem alloc p v i h =
    let n = noted p v in
    let d = noted-SameData p v in
    let s = SameData-IsValid p n d i in
    ground (arith, s, d, grow_lem alloc n s.0, store_lem (grow alloc n).1 v, grow-SameFacts alloc n)
