-- ===== src/Pool/Valid.antt =====
-- The representation invariant of a pool, and what it says of the elements in use.
use smart2raw.Base.{
  length, All, length-take, All-take, IsWidth, by_width, ℕ, ◌+◌, ◌*◌, ◌/◌, ◌%◌, ◌^◌, ◌≤◌, ◌<◌, ◌≡◌,
  arith,
}
use smart2raw.Pool.{Pool, width, elem_bytes, alignment, align_up, live}

-- The buffer is whole words of the class, room for `capacity` of them, `count` in use.
pub record IsValid (p : Pool) : Type 0 where
  pub class : IsWidth (width p)
  pub room : p.count ≤ p.capacity
  pub cap_cells : p.capacity ≤ length p.cells
  pub cells_bytes : length p.cells ≡ p.byte_cap / elem_bytes p
  pub small : p.byte_cap < 2 ^ 64
  pub words : All (λ x. x < 2 ^ width p) p.cells

pub live-words : {p : Pool} → IsValid p → All (λ x. x < 2 ^ width p) (live p)
live-words {p} v = All-take (λ x. x < 2 ^ width p) p.count p.cells v.words

pub length-live : {p : Pool} → IsValid p → length (live p) ≡ p.count
length-live {p} v = omega (arith, length-take p.count p.cells, v.room, v.cap_cells)

-- A buffer with the bytes has the words.
pub le-div_bytes : (w : ℕ) → IsWidth w → (n b : ℕ) → n * (w / 8) ≤ b → n ≤ b / (w / 8)
le-div_bytes =
    by_width (λ w. (n b : ℕ) → n * (w / 8) ≤ b → n ≤ b / (w / 8)) (λ n b e. omega arith)
      (λ n b e. omega arith) (λ n b e. omega arith) (λ n b e. omega arith)

-- Rounding up to the alignment, where the sum does not leave size_t.
pub align_up_lem :
    (n : ℕ)
    → n + 63 < 2 ^ 64
    → (n ≤ align_up n alignment) × (align_up n alignment % 64 ≡ 0) × (align_up n alignment < 2 ^ 64)
unfolding align_up
align_up_lem n h = omega arith

abbrev NarrowLength : ℕ → Type 0
NarrowLength w = (n b : ℕ) → n ≡ b / (w / 8) → b < 2 ^ 64 → n < 2 ^ 64

narrow_length : (w : ℕ) → IsWidth w → NarrowLength w
narrow_length =
    by_width NarrowLength (λ n b e h. omega arith) (λ n b e h. omega arith) (λ n b e h. omega arith)
      (λ n b e h. omega arith)

-- A count is a size_t.
pub count-lt : {p : Pool} → IsValid p → p.count < 2 ^ 64
count-lt {p} v = omega (
  arith,
  v.room,
  v.cap_cells,
  narrow_length (width p) v.class (length p.cells) p.byte_cap v.cells_bytes v.small,
)
