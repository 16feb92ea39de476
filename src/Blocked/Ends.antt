-- ===== src/Blocked/Ends.antt =====
-- Where the blocks of S2RBlocked of include/smart2raw.h end: in the array, and in the payload.

use smart2raw.Base.{
  ◌==◌, Bool-cases, length, get_or, drop, replicate, All, length-take, length-drop, wrap_sub,
  wrap_mul, ℕ, zero, suc, ◌+◌, ◌-◌, ◌*◌, ◌^◌, ◌≤◌, ◌<◌, ◌≡◌, refl, ap, ◌≢◌, inl, inr, false, List,
  [], ◌∷◌, ◌++◌, arith,
}
use smart2raw.Pool.{align_up}
use smart2raw.Blocked.{
  Blocked, block_len, delta_bytes, Stats, stats, blocks_of, place, offsets_of, payload_of,
}
use smart2raw.Blocked.Pieces.{total_length}
use smart2raw.Blocked.Payload.{
  deltas_of, Room, delta_bytes-le, place-bounds, place_end, length_next, payload_end-lt,
}
use Prim.Native.Nat.{min}

-- The length of block `k` is what is left, up to the block size.
length-block :
    (block n : ℕ) (xs : List ℕ) (k : ℕ)
    → k < n
    → k * block < length xs
    → length (get_or (blocks_of block n xs) k []) ≡ min block (length xs - k * block)
unfolding blocks_of
length-block block zero xs k m l = absurd (omega arith)
length-block block (suc n) xs zero m l =
    let e : (length xs == 0) ≡ false = ground arith in
    rw (blocks_of, e) (omega (arith, length-take block xs))
length-block block (suc n) xs (suc k) m l =
    let e : (length xs == 0) ≡ false = ground arith in
    let d = length-drop block xs in
    rw (blocks_of, e)
      (omega (arith, d, length-block block n (drop block xs) k (omega arith) (omega (arith, d, l))))

pub block_holds :
    (block n : ℕ) (xs : List ℕ) (k r : ℕ)
    → k < n
    → k * block < length xs
    → r ≤ block
    → r ≤ length xs - k * block
    → r ≤ length (get_or (blocks_of block n xs) k [])
block_holds block n xs k r m l h i = omega (arith, length-block block n xs k m l, h, i)

-- The length that the code computes is that of the block.
pub block_len-blocks_of :
    (b : Blocked) (n : ℕ) (xs : List ℕ) (k : ℕ)
    → b.count ≡ length xs
    → b.count < 2 ^ 64
    → k < n
    → k * b.block < b.count
    → block_len b k ≡ length (get_or (blocks_of b.block n xs) k [])
unfolding block_len wrap_sub wrap_mul
block_len-blocks_of b n xs k e h m l =
    let c = length-block b.block n xs k m (omega arith) in ground (arith, c)

pub length-offsets_of :
    (total : ℕ) (bs : List (List ℕ)) (ss : List Stats)
    → length ss ≡ length bs
    → length (offsets_of total bs ss).0 ≡ length bs
unfolding offsets_of
length-offsets_of total [] ss e = refl
length-offsets_of total (b ∷ bs) [] e = absurd (omega arith)
length-offsets_of total (b ∷ bs) (s ∷ ss) e =
    ap suc (length-offsets_of (place total (length b) (delta_bytes s.span)).1 bs ss (omega arith))

-- The payload has at most sixteen bytes for each element.
pub payload_end-le :
    (total : ℕ) (bs : List (List ℕ)) (ss : List Stats)
    → Room total bs
    → All (λ b. 0 < length b) bs
    → (offsets_of total bs ss).1 ≤ total + 16 * total_length bs
unfolding offsets_of
payload_end-le total [] ss r p = omega arith
payload_end-le total (b ∷ bs) [] r p = omega arith
payload_end-le total (b ∷ bs) (s ∷ ss) r p = elim (Bool-cases (delta_bytes s.span == 0)) [
  | inl z ↦
      let ih = payload_end-le total bs ss (omega arith) p.1 in
      rw (offsets_of, z) (omega (arith, ih))
  | inr z ↦
      let w = delta_bytes s.span in
      let bd = place-bounds total (length b) w (omega arith) p.0 (delta_bytes-le s.span) in
      let pe = place_end total (length b) w (omega arith) p.0 (delta_bytes-le s.span) in
      let ih = payload_end-le (align_up total 8 + length b * w) bs ss (omega (arith, bd.1)) p.1 in
      rw (offsets_of, z, pe) (omega (arith, bd.1, ih))
]

-- The payload is as long as the second pass says.
pub length-payload_of :
    (bytes : List ℕ) (total : ℕ) (bs : List (List ℕ)) (ss : List Stats)
    → length bytes ≡ total
    → Room total bs
    → All (λ b. 0 < length b) bs
    → length (payload_of bytes bs ss (offsets_of total bs ss).0) ≡ (offsets_of total bs ss).1
unfolding payload_of offsets_of
length-payload_of bytes total [] ss e r p = e
length-payload_of bytes total (b ∷ bs) [] e r p = e
length-payload_of bytes total (b ∷ bs) (s ∷ ss) e r p =
    elim (Bool-cases (delta_bytes s.span == 0)) [
      | inl z ↦
          rw (payload_of, offsets_of, z) (length-payload_of bytes total bs ss e (omega arith) p.1)
      | inr z ↦
          let w = delta_bytes s.span in
          let at = align_up total 8 in
          let bd = place-bounds total (length b) w (omega arith) p.0 (delta_bytes-le s.span) in
          let pe = place_end total (length b) w (omega arith) p.0 (delta_bytes-le s.span) in
          let ln = length_next bytes at s b (omega (arith, e, bd.0)) in
          rw (payload_of, offsets_of, z, pe)
            (length-payload_of (bytes ++ replicate (at - length bytes) 0 ++ deltas_of s b)
              (at + length b * w) bs ss ln (omega (arith, bd.1)) p.1)
    ]

-- The deltas of block `k` end inside the payload.
pub block_end-le :
    (total : ℕ) (bs : List (List ℕ)) (ss : List Stats) (k : ℕ)
    → Room total bs
    → All (λ b. 0 < length b) bs
    → length ss ≡ length bs
    → k < length bs
    → let w = delta_bytes (get_or ss k (stats false [])).span in
      w ≢ 0
      → get_or (offsets_of total bs ss).0 k 0 + length (get_or bs k []) * w
        ≤ (offsets_of total bs ss).1
unfolding offsets_of
block_end-le total [] ss k r p e l n = absurd (omega arith)
block_end-le total (b ∷ bs) [] k r p e l n = absurd (omega arith)
block_end-le total (b ∷ bs) (s ∷ ss) zero r p e l n =
    let w = delta_bytes s.span in
    let z : (w == 0) ≡ false = ground arith in
    let bd = place-bounds total (length b) w (omega arith) p.0 (delta_bytes-le s.span) in
    let pe = place_end total (length b) w (omega arith) p.0 (delta_bytes-le s.span) in
    rw (offsets_of, z, pe)
      (payload_end-lt (align_up total 8 + length b * w) bs ss (omega (arith, bd.1)) p.1).0
block_end-le total (b ∷ bs) (s ∷ ss) (suc k) r p e l n =
    elim (Bool-cases (delta_bytes s.span == 0)) [
      | inl z ↦
          rw (offsets_of, z)
            (block_end-le total bs ss k (omega arith) p.1 (omega arith) (omega arith) n)
      | inr z ↦
          let w = delta_bytes s.span in
          let bd = place-bounds total (length b) w (omega arith) p.0 (delta_bytes-le s.span) in
          let pe = place_end total (length b) w (omega arith) p.0 (delta_bytes-le s.span) in
          rw (offsets_of, z, pe)
            (block_end-le (align_up total 8 + length b * w) bs ss k (omega (arith, bd.1)) p.1
              (omega arith) (omega arith) n)
    ]
