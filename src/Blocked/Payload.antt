-- ===== src/Blocked/Payload.antt =====
-- The payload that s2r__blocked_build of include/smart2raw.h writes: what stands at each offset.
use native.Mathlib.Nat.{zero-mul, zero-add}
use smart2raw.Base.{
  ◌==◌, Bool-cases, length, get_or, take, drop, replicate, All, length-append, length-replicate,
  length-map, wrap_add, wrap_mul, wrap_mul_of_lt, ℕ, zero, suc, ◌+◌, ◌-◌, ◌*◌, ◌^◌, ◌≤◌, ◌<◌, ◌≡◌,
  sym, ap, ◌∙◌, ◌≢◌, inl, inr, true, false, List, [], ◌∷◌, ◌++◌, map, append-nil, append_assoc,
  arith,
}
use smart2raw.Format.{le_bytes, memory}
use smart2raw.Format.Bytes.{length-le_bytes, take-append_self, drop-append_self, length-memory}
use smart2raw.Pool.{align_up}
use smart2raw.Affine.{index_of}
use smart2raw.Blocked.{delta_bytes, Stats, stats, offsets_of, payload_of}
use smart2raw.Blocked.Pieces.{total_length}

drop-append : (xs ys : List ℕ) (n : ℕ) → drop (length xs + n) (xs ++ ys) ≡ drop n ys
drop-append [] ys n = ap (λ k. drop k ys) (zero-add n)
drop-append (x ∷ xs) ys n =
    let e : suc (length xs) + n ≡ suc (length xs + n) = omega arith in
    ap (λ k. drop k (x ∷ (xs ++ ys))) e ∙ drop-append xs ys n

-- Word `j` of the words that stand at the front.
pub front_word :
    (w : ℕ) (vs rest : List ℕ) (j : ℕ)
    → j < length vs
    → take w (drop (j * w) (memory true w vs ++ rest)) ≡ le_bytes w (get_or vs j 0)
unfolding memory
front_word w [] rest j h = absurd (omega arith)
front_word w (v ∷ vs) rest zero h =
    let b = le_bytes w v in
    let tail = memory true w vs ++ rest in
    rw (zero-mul w) (
      ap (take w) (append_assoc b (memory true w vs) rest)
      ∙ ap (λ k. take k (b ++ tail)) (sym (length-le_bytes w v))
      ∙ take-append_self b tail)
front_word w (v ∷ vs) rest (suc j) h =
    let b = le_bytes w v in
    let tail = memory true w vs ++ rest in
    let e : suc j * w ≡ length b + j * w = omega (arith, length-le_bytes w v) in
    ap (λ bs. take w (drop (suc j * w) bs)) (append_assoc b (memory true w vs) rest)
    ∙ ap (λ k. take w (drop k (b ++ tail))) e
    ∙ ap (take w) (drop-append b tail (j * w))
    ∙ front_word w vs rest j (omega arith)

drop-append_at : (xs ys : List ℕ) (n : ℕ) → n ≡ length xs → drop n (xs ++ ys) ≡ ys
drop-append_at xs ys n e = ap (λ k. drop k (xs ++ ys)) e ∙ drop-append_self xs ys

abbrev pub deltas_of : Stats → List ℕ → List ℕ
deltas_of s b = memory true (delta_bytes s.span) (map (index_of s.base s.stride) b)

-- The payload goes on from what is written.
payload-grows :
    (bytes : List ℕ) (bs : List (List ℕ)) (ss : List Stats) (os : List ℕ)
    → (rest : List ℕ) × (payload_of bytes bs ss os ≡ bytes ++ rest)
unfolding payload_of
payload-grows bytes [] ss os = ([], sym (append-nil bytes))
payload-grows bytes (b ∷ bs) [] os = ([], sym (append-nil bytes))
payload-grows bytes (b ∷ bs) (s ∷ ss) [] = ([], sym (append-nil bytes))
payload-grows bytes (b ∷ bs) (s ∷ ss) (o ∷ os) = elim (Bool-cases (delta_bytes s.span == 0)) [
  | inl z ↦ let (rest, e) = payload-grows bytes bs ss os in (rest, rw (payload_of, z) e)
  | inr n ↦
      let gap = replicate (o - length bytes) 0 in
      let (rest, e) = payload-grows (bytes ++ gap ++ deltas_of s b) bs ss os in
      (
        gap ++ (deltas_of s b ++ rest),
        rw (payload_of, n)
            (e
              ∙ append_assoc (bytes ++ gap) (deltas_of s b) rest
              ∙ append_assoc bytes gap (deltas_of s b ++ rest)),
      )
]

-- What is left to write stays below 2^64, the gaps included.
abbrev pub Room : ℕ → List (List ℕ) → Type 0
Room total bs = total + 16 * total_length bs < 2 ^ 64

pub delta_bytes-le : (span : ℕ) → delta_bytes span ≤ 8
unfolding delta_bytes
delta_bytes-le span = ground arith

times_le : (len w : ℕ) → w ≤ 8 → len * w ≤ len * 8
times_le len w h = grind arith

-- A block with deltas stands at or after what is written, and ends before the next.
pub place-bounds :
    (total len w : ℕ)
    → total + 16 * len < 2 ^ 64
    → 0 < len
    → w ≤ 8
    → (total ≤ align_up total 8) × (align_up total 8 + len * w ≤ total + 16 * len)
unfolding align_up
place-bounds total len w r p h = let m = times_le len w h in (omega arith, omega (arith, m, r, p))

-- The end of the block does not wrap.
pub place_end :
    (total len w : ℕ)
    → total + 16 * len < 2 ^ 64
    → 0 < len
    → w ≤ 8
    → wrap_add 64 (align_up total 8) (wrap_mul 64 len w) ≡ align_up total 8 + len * w
unfolding wrap_add wrap_mul
place_end total len w r p h =
    let bd = place-bounds total len w r p h in
    let m = wrap_mul_of_lt 64 len w (omega (arith, bd.1, r)) in omega (arith, m, bd.1, r)

pub length_next :
    (bytes : List ℕ) (at : ℕ) (s : Stats) (b : List ℕ)
    → length bytes ≤ at
    → length (bytes ++ replicate (at - length bytes) 0 ++ deltas_of s b)
      ≡ at + length b * delta_bytes s.span
length_next bytes at s b h =
    let gap : List ℕ = replicate (at - length bytes) 0 in
    let vs = map (index_of s.base s.stride) b in
    omega (
      arith,
      length-append (bytes ++ gap) (deltas_of s b),
      length-append bytes gap,
      length-replicate {A = ℕ} (at - length bytes) 0,
      length-memory (delta_bytes s.span) vs,
      ap (λ (t : ℕ). t * delta_bytes s.span) (length-map (index_of s.base s.stride) b),
    )

-- Where block `k` has deltas, they stand at its offset.
abbrev pub Stands : List ℕ → List (List ℕ) → List Stats → List ℕ → ℕ → Type 0
Stands payload bs ss os k =
    let s = get_or ss k (stats false []) in
    (rest : List ℕ) × (drop (get_or os k 0) payload ≡ deltas_of s (get_or bs k []) ++ rest)

pub payload-Stands :
    (bytes : List ℕ) (total : ℕ) (bs : List (List ℕ)) (ss : List Stats) (k : ℕ)
    → length bytes ≤ total
    → Room total bs
    → All (λ b. 0 < length b) bs
    → length ss ≡ length bs
    → k < length bs
    → delta_bytes (get_or ss k (stats false [])).span ≢ 0
    → Stands (payload_of bytes bs ss (offsets_of total bs ss).0) bs ss (offsets_of total bs ss).0 k
unfolding payload_of offsets_of
payload-Stands bytes total [] ss k l r p e h n = absurd (omega arith)
payload-Stands bytes total (b ∷ bs) [] k l r p e h n = absurd (omega arith)
payload-Stands bytes total (b ∷ bs) (s ∷ ss) zero l r p e h n =
    let w = delta_bytes s.span in
    let at = align_up total 8 in
    let z : (w == 0) ≡ false = ground arith in
    let at_le = place-bounds total (length b) w (omega arith) p.0 (delta_bytes-le s.span) in
    let pe = place_end total (length b) w (omega arith) p.0 (delta_bytes-le s.span) in
    let lr = length-replicate {A = ℕ} (at - length bytes) 0 in
    let la = length-append bytes (replicate (at - length bytes) 0) in
    let next = bytes ++ replicate (at - length bytes) 0 ++ deltas_of s b in
    let (rest, g) = payload-grows next bs ss (offsets_of (at + length b * w) bs ss).0 in
    rw (payload_of, z, pe)
      (
        rest,
        ap (drop at)
              (g ∙ append_assoc (bytes ++ replicate (at - length bytes) 0) (deltas_of s b) rest)
            ∙ drop-append_at (bytes ++ replicate (at - length bytes) 0) (deltas_of s b ++ rest) at
                (omega (arith, la, lr, at_le.0)),
      )
payload-Stands bytes total (b ∷ bs) (s ∷ ss) (suc k) l r p e h n =
    elim (Bool-cases (delta_bytes s.span == 0)) [
      | inl z ↦
          rw (payload_of, z)
            (payload-Stands bytes total bs ss k l (omega arith) p.1 (omega arith) (omega arith) n)
      | inr z ↦
          let w = delta_bytes s.span in
          let at = align_up total 8 in
          let gap : List ℕ = replicate (at - length bytes) 0 in
          let next = bytes ++ gap ++ deltas_of s b in
          let bd = place-bounds total (length b) w (omega arith) p.0 (delta_bytes-le s.span) in
          let pe = place_end total (length b) w (omega arith) p.0 (delta_bytes-le s.span) in
          let ln : length next ≡ at + length b * w =
            length_next bytes at s b (omega (arith, bd.0)) in
          rw (payload_of, z, pe)
            (payload-Stands next (at + length b * w) bs ss k (omega (arith, ln))
              (omega (arith, bd.1)) p.1 (omega arith) (omega arith) n)
    ]

-- The payload ends below 2^64.
pub payload_end-lt :
    (total : ℕ) (bs : List (List ℕ)) (ss : List Stats)
    → Room total bs
    → All (λ b. 0 < length b) bs
    → (total ≤ (offsets_of total bs ss).1) × ((offsets_of total bs ss).1 < 2 ^ 64)
unfolding offsets_of
payload_end-lt total [] ss r p = (omega arith, omega arith)
payload_end-lt total (b ∷ bs) [] r p = (omega arith, omega arith)
payload_end-lt total (b ∷ bs) (s ∷ ss) r p = elim (Bool-cases (delta_bytes s.span == 0)) [
  | inl z ↦ rw (offsets_of, z) (payload_end-lt total bs ss (omega arith) p.1)
  | inr z ↦
      let w = delta_bytes s.span in
      let bd = place-bounds total (length b) w (omega arith) p.0 (delta_bytes-le s.span) in
      let pe = place_end total (length b) w (omega arith) p.0 (delta_bytes-le s.span) in
      let ih = payload_end-lt (align_up total 8 + length b * w) bs ss (omega (arith, bd.1)) p.1 in
      rw (offsets_of, z, pe) (omega (arith, bd.0, ih.0), ih.1)
]

-- The offsets are no greater than the length of the payload.
pub offsets_of-le :
    (cap total : ℕ) (bs : List (List ℕ)) (ss : List Stats)
    → Room total bs
    → All (λ b. 0 < length b) bs
    → (offsets_of total bs ss).1 ≤ cap
    → All (λ o. o ≤ cap) (offsets_of total bs ss).0
unfolding offsets_of
offsets_of-le cap total [] ss r p h = tt
offsets_of-le cap total (b ∷ bs) [] r p h = tt
offsets_of-le cap total (b ∷ bs) (s ∷ ss) r p h = elim (Bool-cases (delta_bytes s.span == 0)) [
  | inl z ↦
      let k : (offsets_of total bs ss).1 ≤ cap = rw (offsets_of, z) at h in
      rw (offsets_of, z) (omega arith, offsets_of-le cap total bs ss (omega arith) p.1 k)
  | inr z ↦
      let w = delta_bytes s.span in
      let bd = place-bounds total (length b) w (omega arith) p.0 (delta_bytes-le s.span) in
      let pe = place_end total (length b) w (omega arith) p.0 (delta_bytes-le s.span) in
      let next = align_up total 8 + length b * w in
      let k : (offsets_of next bs ss).1 ≤ cap = rw (offsets_of, z, pe) at h in
      let e = payload_end-lt next bs ss (omega (arith, bd.1)) p.1 in
      rw (offsets_of, z, pe)
        (omega (arith, e.0, k), offsets_of-le cap next bs ss (omega (arith, bd.1)) p.1 k)
]
