-- ===== src/Pool/Memory.antt =====
-- s2r_pool_init and s2r_reserve of include/smart2raw.h.
use smart2raw.Base.{
  ltb, leb, ◌==◌, Bool-cases, length, replicate, All, length-append, length-replicate,
  take-append_le, take-all, All-append, All-replicate, ℤ, u64_max, IsWidth, is_width,
  IsWidth→is_width, by_width, width_bounds, ℕ, ◌+◌, ◌-◌, ◌*◌, ◌/◌, ◌^◌, ◌≤◌, ◌<◌, ◌≡◌, refl, ◌∙◌,
  ◌⊎◌, inl, inr, Bool, true, false, arith,
}
use smart2raw.Pool.{
  Pool, width, elem_bytes, alignment, align_up, class_flags, blank, zeroed, live, moved, moved_to,
  pool_init, reserve,
}
use smart2raw.Class.{abs_size}
use smart2raw.Pool.Valid.{IsValid, live-words, length-live, le-div_bytes, align_up_lem}

-- A request that the alignment does not push past SIZE_MAX.
abbrev pub Requestable : ℕ → ℕ → Type 0
Requestable w n = n * (w / 8) + 63 < 2 ^ 64

-- Below 2^60 elements.
abbrev FewRequestable : ℕ → Type 0
FewRequestable w = (n : ℕ) → n < 2 ^ 60 → Requestable w n

pub few-Requestable : (w : ℕ) → IsWidth w → FewRequestable w
few-Requestable =
    by_width FewRequestable (λ n h. omega arith) (λ n h. omega arith) (λ n h. omega arith)
      (λ n h. omega arith)

fresh_cells :
    (w : ℕ)
    → IsWidth w
    → (n : ℕ) → Requestable w n
    → let total = align_up (n * (w / 8)) alignment in
      let cells = replicate {A = ℕ} (total / (w / 8)) 0 in
      (n ≤ length cells)
      × (length cells ≡ total / (w / 8))
      × (total < 2 ^ 64)
      × All (λ x. x < 2 ^ w) cells
fresh_cells w h n r =
    let total = align_up (n * (w / 8)) alignment in
    let a = align_up_lem (n * (w / 8)) r in
    let l = length-replicate {A = ℕ} (total / (w / 8)) 0 in
    (
      rw l (le-div_bytes w h n total a.0),
      l,
      a.2,
      All-replicate (λ x. x < 2 ^ w) (total / (w / 8)) 0 (omega (arith, width_bounds w h)),
    )

-- What a successful `pool_init` leaves.
pub pool_init_success :
    (alloc : ℕ → Bool) (p : Pool) (size : ℤ) (capacity : ℕ)
    → is_width (abs_size size) ≡ true
    → (pool_init alloc p size capacity).0 ≡ true
    → let q = (pool_init alloc p size capacity).1 in
      ((capacity ≡ 0) × (q ≡ blank size capacity))
      ⊎ (q ≡ zeroed size capacity (align_up (capacity * (abs_size size / 8)) alignment))
unfolding pool_init
pool_init_success alloc p size capacity h e = elim (Bool-cases (capacity == 0)) [
  | inl z ↦ inl (ground arith, rw (h, z))
  | inr z ↦ elim (Bool-cases (ltb (u64_max / (abs_size size / 8)) capacity)) [
    | inl big ↦ absurd (cc (rw (h, z, big) at e))
    | inr fits ↦ elim (Bool-cases (alloc (align_up (capacity * (abs_size size / 8)) alignment))) [
      | inl got ↦ inr (rw (h, z, fits, got))
      | inr oom ↦ absurd (cc (rw (h, z, fits, oom) at e))
    ]
  ]
]

-- A successful `pool_init` of a native class, for a request that rounding up does not push past
-- SIZE_MAX, gives a valid pool of that class with no element in use.
pub pool_init-IsValid :
    (alloc : ℕ → Bool) (p : Pool) (size : ℤ) (capacity : ℕ)
    → IsWidth (abs_size size)
    → Requestable (abs_size size) capacity
    → (pool_init alloc p size capacity).0 ≡ true
    → let q = (pool_init alloc p size capacity).1 in
      IsValid q
      × (q.size ≡ size)
      × (q.capacity ≡ capacity)
      × (q.count ≡ 0)
      × (q.flags ≡ class_flags size)
pool_init-IsValid alloc p size capacity h r e =
    let w = abs_size size in
    let total = align_up (capacity * (w / 8)) alignment in
    let c = fresh_cells w h capacity r in
    elim (pool_init_success alloc p size capacity (IsWidth→is_width w h) e) [
      | inl z ↦ rw z.1 (
        record {
          class = h;
          room = omega arith;
          cap_cells = omega arith;
          cells_bytes = omega arith;
          small = omega arith;
          words = tt;
        },
        refl,
        refl,
        refl,
        refl,
      )
      | inr q ↦ rw q (
        record {
          class = h;
          room = omega arith;
          cap_cells = c.0;
          cells_bytes = c.1;
          small = c.2;
          words = c.3;
        },
        refl,
        refl,
        refl,
        refl,
      )
    ]

-- A buffer of a granted size keeps the invariant and the elements in use.
pub moved_to-IsValid :
    (p : Pool) (n : ℕ)
    → IsValid p
    → p.count ≤ n
    → Requestable (width p) n
    → let q = moved_to p (align_up (n * elem_bytes p) alignment) n in IsValid q × (live q ≡ live p)
moved_to-IsValid p n v h r =
    let w = width p in
    let total = align_up (n * (w / 8)) alignment in
    let a = align_up_lem (n * (w / 8)) r in
    let fits = le-div_bytes w v.class n total a.0 in
    let l : length (moved p total) ≡ total / (w / 8) = omega (
      arith,
      length-append (live p) (replicate (total / (w / 8) - p.count) 0),
      length-replicate {A = ℕ} (total / (w / 8) - p.count) 0,
      length-live v,
    ) in
    (
      record {
        class = v.class;
        room = h;
        cap_cells = rw l fits;
        cells_bytes = l;
        small = a.2;
        words =
            All-append (λ x. x < 2 ^ w) (live p) (replicate (total / (w / 8) - p.count) 0)
              (live-words v)
              (All-replicate (λ x. x < 2 ^ w) (total / (w / 8) - p.count) 0
                (omega (arith, width_bounds w v.class)));
      },
      take-append_le p.count (live p) (replicate (total / (w / 8) - p.count) 0)
            (omega (arith, length-live v))
          ∙ take-all p.count (live p) (omega (arith, length-live v)),
    )

-- For a request that rounding up does not push past SIZE_MAX, `reserve` keeps a valid pool valid and
-- its elements as they are: either it refuses and changes nothing, or there is room for as many as
-- were asked for.
pub reserve-IsValid :
    (alloc : ℕ → Bool) (p : Pool) (n : ℕ)
    → IsValid p
    → Requestable (width p) n
    → let (done, q) = reserve alloc p n in
      IsValid q
      × (live q ≡ live p)
      × (((done ≡ true) × (n ≤ q.capacity)) ⊎ ((done ≡ false) × (q ≡ p)))
unfolding reserve
reserve-IsValid alloc p n v r = elim (Bool-cases (leb n p.capacity)) [
  | inl e ↦ rw e (v, refl, inl (refl, ground arith))
  | inr e ↦ let m = moved_to-IsValid p n v (ground (arith, v.room)) r in rw e (ground (arith, m))
]

abbrev FitsSize : ℕ → Type 0
FitsSize w = (n : ℕ) → n * (w / 8) + 63 < 2 ^ 64 → ltb (u64_max / (w / 8)) n ≡ false

fits_size : (w : ℕ) → IsWidth w → FitsSize w
fits_size =
    by_width FitsSize (λ n h. ground arith) (λ n h. ground arith) (λ n h. ground arith)
      (λ n h. ground arith)

-- A native class and a request that rounding up does not push past SIZE_MAX are refused by the
-- allocator only.
pub pool_init-granted :
    (alloc : ℕ → Bool) (p : Pool) (size : ℤ) (capacity : ℕ)
    → IsWidth (abs_size size)
    → Requestable (abs_size size) capacity
    → alloc (align_up (capacity * (abs_size size / 8)) alignment) ≡ true
    → (pool_init alloc p size capacity).0 ≡ true
unfolding pool_init
pool_init-granted alloc p size capacity h r g =
    let w = IsWidth→is_width (abs_size size) h in
    let f = fits_size (abs_size size) h capacity r in
    elim (Bool-cases (capacity == 0)) [ inl z ↦ rw (w, z) refl | inr n ↦ rw (w, n, f, g) refl ]
