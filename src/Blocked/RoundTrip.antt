-- ===== src/Blocked/RoundTrip.antt =====
-- s2r_blocked_get and s2r_blocked_get_signed of include/smart2raw.h, against the array of the build.
use native.Mathlib.Nat.{div-add-mod', mod-lt, div-lt_iff_lt-mul}
use smart2raw.Base.{
  ltb, leb, ◌==◌, Bool-cases, eq_of_==, length, get_or, take, drop, All, length-map, All-get_or_in,
  All-imp, All-of, get_or-map, ℤ, pos, wrap_add, wrap_mul, sx, to_u64, Fits, to_u64-lt, ℕ, zero,
  suc, ◌+◌, ◌*◌, ◌/◌, ◌%◌, ◌^◌, ◌≤◌, ◌<◌, ◌≡◌, refl, sym, ap, subst, ◌∙◌, ◌≢◌, inl, inr, Bool, true,
  false, List, [], ◌∷◌, ◌++◌, map, arith,
}
use smart2raw.Class.{max_from}
use smart2raw.Class.Least.{max_from-bound, max_from-lt}
use smart2raw.Format.{le_bytes, le_value, memory}
use smart2raw.Format.Bytes.{le_value-le_bytes}
use smart2raw.Affine.{index_of}
use smart2raw.Affine.RoundTrip.{sx-to_u64}
use smart2raw.Blocked.{
  block_default, Blocked, md_ru, block_base, block_offset, block_stride, delta_bytes, Stats, stats,
  blocks_of, offsets_of, class_bits, payload_of, build_blocks, blocked_build, blocked_build_signed,
}
use smart2raw.Blocked.Query.{
  delta_width, blocked_delta, block_value, blocked_get, blocked_get_signed,
}
use smart2raw.Blocked.Pieces.{get_or-blocks_of, blocks_of-pieces}
use smart2raw.Blocked.Payload.{front_word, Room, payload-Stands, payload_end-lt, offsets_of-le}
use smart2raw.Blocked.Extent.{not_ltb, IsKept, stats-IsKept}
use smart2raw.Blocked.Words.{words_held, range_word_lem}
use smart2raw.Blocked.Filled.{
  NoEmpty, length-blocks_of, block_count, used_block, blocks_in, IsFilled, build_blocks-IsFilled,
}

pub All-under {ℓ κ} :
    {A : Type ℓ} {B : Type κ} (f : A → B) (P : B → Type 0) (xs : List A)
    → All (λ x. P (f x)) xs
    → All P (map f xs)
All-under f P [] h = tt
All-under f P (x ∷ xs) h = (h.0, All-under f P xs h.1)

drop-nil : (n : ℕ) → drop {A = ℕ} n [] ≡ []
drop-nil zero = refl
drop-nil (suc n) = refl

pub drop-drop : (m n : ℕ) (xs : List ℕ) → drop (m + n) xs ≡ drop n (drop m xs)
drop-drop zero n xs = ap (λ k. drop k xs) (omega arith)
drop-drop (suc m) n [] = drop-nil (suc m + n) ∙ sym (drop-nil n)
drop-drop (suc m) n (x ∷ xs) =
    let e : suc m + n ≡ suc (m + n) = omega arith in ap (λ k. drop k (x ∷ xs)) e ∙ drop-drop m n xs

pub delta_bytes-holds : (span : ℕ) → span < 2 ^ 64 → span < 256 ^ delta_bytes span
unfolding delta_bytes
delta_bytes-holds span h = ground arith

pub delta_bytes-zero : (span : ℕ) → delta_bytes span ≡ 0 → span ≡ 0
unfolding delta_bytes
delta_bytes-zero span h = ground arith

class_bits-bytes : (s : Stats) → class_bits s / 8 ≡ delta_bytes s.span
class_bits-bytes s = omega arith

module _ (sg : Bool) (xs : List ℕ) (blk n : ℕ) (b : Blocked) (f : IsFilled sg xs blk n b)
    (p : 0 < blk) (words : All (λ x. x < 2 ^ 64) xs) (few : length xs < 2 ^ 60) where
  abbrev pub bs : List (List ℕ)
  bs = blocks_of blk n xs

  abbrev pub ss : List Stats
  ss = map (stats sg) bs

  abbrev pub piece : ℕ → List ℕ
  piece k = get_or bs k []

  abbrev pub kept : ℕ → Stats
  kept k = stats sg (piece k)

  pub all_kept : All (λ q. (0 < length q) × All (λ x. x < 2 ^ 64) q) bs
  all_kept = (blocks_of-pieces (λ x. x < 2 ^ 64) blk n xs p words).0

  pub blocks_of-Room : Room 0 bs
  blocks_of-Room = omega (arith, (blocks_of-pieces (λ x. x < 2 ^ 64) blk n xs p words).1)

  pub no_empty : All (λ q. 0 < length q) bs
  no_empty =
      All-imp (λ q. (0 < length q) × All (λ x. x < 2 ^ 64) q) (λ q. 0 < length q) (λ q h. h.0) bs
        all_kept

  module _ (get : Stats → ℕ)
      (lt : (q : List ℕ) → IsKept (stats sg q) q → get (stats sg q) < 2 ^ 64) where
    pub kept_words : All (λ v. v < 2 ^ 64) (map get ss)
    kept_words =
        All-under get (λ v. v < 2 ^ 64) ss
          (All-under (stats sg) (λ s. get s < 2 ^ 64) bs
            (All-imp (λ q. (0 < length q) × All (λ x. x < 2 ^ 64) q)
              (λ q. get (stats sg q) < 2 ^ 64) (λ q h. lt q (stats-IsKept sg q h.0 h.1)) bs
              all_kept))

    pub kept_read : (k : ℕ) → k < length bs → get_or (map get ss) k 0 ≡ get (kept k)
    kept_read k l =
        let m = length-map (stats sg) bs in
        get_or-map get ss k (stats false []) 0 (omega (arith, m))
        ∙ ap get (get_or-map (stats sg) bs k [] (stats false []) l)

  pub piece-IsKept : (k : ℕ) → k < length bs → IsKept (kept k) (piece k)
  piece-IsKept k l =
      let h = All-get_or_in (λ q. (0 < length q) × All (λ x. x < 2 ^ 64) q) bs k [] l all_kept in
      stats-IsKept sg (piece k) h.0 h.1

  pub base_read : (k : ℕ) → k < length bs → block_base b k ≡ (kept k).base
  unfolding block_base
  base_read k l =
      let bases = map (λ s. s.base) ss in
      let m = length-map (stats sg) bs in
      let m' = length-map (λ s. s.base) ss in
      rw (f.signed_eq, f.bbase_eq, f.bcls_eq)
        (range_word_lem sg bases k (kept_words (λ s. s.base) (λ q i. i.base_lt))
            (omega (arith, m, m'))
          ∙ kept_read (λ s. s.base) (λ q i. i.base_lt) k l)

  pub stride_read : (k : ℕ) → k < length bs → block_stride b k ≡ (kept k).stride
  unfolding block_stride md_ru
  stride_read k l =
      let strides = map (λ s. s.stride) ss in
      let top = max_from 1 strides in
      let w = kept_words (λ s. s.stride) (λ q i. i.stride_lt) in
      let g = kept_read (λ s. s.stride) (λ q i. i.stride_lt) k l in
      let bound = max_from-bound 1 strides in
      let i = piece-IsKept k l in
      elim (Bool-cases (ltb 1 top)) [
        | inl t ↦
            let e =
              words_held top strides (max_from-lt (2 ^ 64) 1 strides (omega arith) w) bound.1 in
            let h : b.has_stride ≡ true = f.stride_eq ∙ t in rw (h, f.bstride_eq, h, e) g
        | inr t ↦
            let h : b.has_stride ≡ false = f.stride_eq ∙ t in
            let m = length-map (stats sg) bs in
            let m' = length-map (λ s. s.stride) ss in
            let le = All-get_or_in (λ v. v ≤ top) strides k 0 (omega (arith, m, m')) bound.1 in
            let pos = i.stride_pos in rw h (omega (arith, g, le, pos, not_ltb 1 top t))
      ]

  pub class_at : (k : ℕ) → k < length bs → get_or b.bclass k 0 ≡ delta_bytes (kept k).span * 8
  class_at k l =
      let m = length-map (stats sg) bs in
      ap (λ c. get_or c k 0) f.bclass_eq
      ∙ get_or-map class_bits ss k (stats false []) 0 (omega (arith, m))
      ∙ ap class_bits (get_or-map (stats sg) bs k [] (stats false []) l)

  pub width_read : (k : ℕ) → k < length bs → delta_width b k ≡ delta_bytes (kept k).span
  width_read k l = ap (λ c. c / 8) (class_at k l) ∙ class_bits-bytes (kept k)

  pub offset_read : (k : ℕ) → block_offset b k ≡ get_or (offsets_of 0 bs ss).0 k 0
  unfolding block_offset md_ru
  offset_read k =
      let (offs, total) = offsets_of 0 bs ss in
      let e = payload_end-lt 0 bs ss blocks_of-Room no_empty in
      ap (λ a. get_or a k 0)
        (f.boff_eq
          ∙ words_held total offs e.1
              (offsets_of-le total 0 bs ss blocks_of-Room no_empty (omega arith)))

  abbrev pub indices : ℕ → List ℕ
  indices k = map (index_of (kept k).base (kept k).stride) (piece k)

  pub stands :
      (k : ℕ)
      → k < length bs
      → delta_bytes (kept k).span ≢ 0
      → (rest : List ℕ) × (drop (block_offset b k) b.payload
          ≡ memory true (delta_bytes (kept k).span) (indices k) ++ rest)
  stands k l z =
      let none : Stats = stats false [] in
      let same = get_or-map (stats sg) bs k [] none l in
      let (rest, e) =
        payload-Stands [] 0 bs ss k (omega arith) blocks_of-Room no_empty (length-map (stats sg) bs)
          l (subst (λ s. delta_bytes s.span ≢ 0) (sym same) z) in
      (
        rest,
        ap (λ o. drop o b.payload) (offset_read k)
            ∙ ap (drop (get_or (offsets_of 0 bs ss).0 k 0)) f.payload_eq
            ∙ subst
                (λ s.
                  drop (get_or (offsets_of 0 bs ss).0 k 0)
                    (payload_of [] bs ss (offsets_of 0 bs ss).0)
                  ≡ memory true (delta_bytes s.span) (map (index_of s.base s.stride) (piece k))
                    ++ rest)
                same e,
      )

  -- The delta of an element is its index.
  pub delta_read :
      (k j : ℕ)
      → k < length bs
      → j < length (piece k)
      → blocked_delta b k j ≡ index_of (kept k).base (kept k).stride (get_or (piece k) j 0)
  unfolding blocked_delta
  delta_read k j l h =
      let s = kept k in
      let i = piece-IsKept k l in
      let x = get_or (piece k) j 0 in
      let le =
        All-get_or_in (λ y. index_of s.base s.stride y ≤ s.span) (piece k) j 0 h i.index_le in
      elim (Bool-cases (delta_bytes s.span == 0)) [
        | inl z ↦
            let none_left = delta_bytes-zero s.span (eq_of_== (delta_bytes s.span) 0 z) in
            rw (blocked_delta, width_read k l, z) (omega (arith, le, none_left))
        | inr z ↦
            let w = delta_bytes s.span in
            let small = delta_bytes-holds s.span i.span_lt in
            let (rest, e) = stands k l (ground arith) in
            let lm = length-map (index_of s.base s.stride) (piece k) in
            rw (blocked_delta, width_read k l, z)
              (ap (λ bytes. le_value (take w bytes))
                  (drop-drop (block_offset b k) (j * w) b.payload ∙ ap (drop (j * w)) e)
                ∙ ap le_value (front_word w (indices k) rest j (omega (arith, lm, h)))
                ∙ ap (λ v. le_value (le_bytes w v))
                    (get_or-map (index_of s.base s.stride) (piece k) j 0 0 h)
                ∙ le_value-le_bytes w (index_of s.base s.stride x) (omega (arith, small, le)))
      ]

  value_read :
      (k j : ℕ)
      → k < length bs
      → j < length (piece k)
      → block_value b k (blocked_delta b k j) ≡ get_or (piece k) j 0
  value_read k j l h =
      let s = kept k in
      rw (base_read k l, stride_read k l, delta_read k j l h)
        (All-get_or_in
          (λ y. wrap_add 64 s.base (wrap_mul 64 s.stride (index_of s.base s.stride y)) ≡ y)
          (piece k) j 0 h (piece-IsKept k l).back)

  word_get :
      NoEmpty blk n (length xs)
      → (i : ℕ) → i < length xs
      → (blocked_get b i ≡ get_or xs i 0) × (blocked_get_signed b i ≡ sx 64 (get_or xs i 0))
  unfolding blocked_get blocked_get_signed
  word_get c i l =
      let k = i / blk in
      let j = i % blk in
      let at : k * blk + j ≡ i = div-add-mod' i blk in
      let r = mod-lt i p in
      let inside : leb b.count i ≡ false = rw f.count_eq (ground arith) in
      let m : k < n = (div-lt_iff_lt-mul p).1 (omega (arith, c.0, l)) in
      let g = get_or-blocks_of blk n xs k j r (omega (arith, at, l)) m in
      let lb = length-blocks_of blk n xs p c in
      let v : block_value b k (blocked_delta b k j) ≡ get_or xs i 0 =
        value_read k j (omega (arith, lb, m)) g.0 ∙ g.1 ∙ ap (λ q. get_or xs q 0) at in
      let at_block = λ (q : ℕ). block_value b (i / q) (blocked_delta b (i / q) (i % q)) in
      let e = ap at_block f.block_eq ∙ v in rw inside (e, ap (sx 64) e)

module _ (alloc : ℕ → Bool) (block : ℕ) where
  pub build_blocks-get :
      (sg : Bool) (xs : List ℕ)
      → All (λ x. x < 2 ^ 64) xs
      → length xs < 2 ^ 60
      → length xs + block + block_default < 2 ^ 64
      → (build_blocks alloc sg xs block).0 ≡ true
      → (i : ℕ) → i < length xs
      → let b = (build_blocks alloc sg xs block).1 in
        (blocked_get b i ≡ get_or xs i 0) × (blocked_get_signed b i ≡ sx 64 (get_or xs i 0))
  build_blocks-get sg xs a few small ok =
      let blk = used_block block in
      let p : 0 < blk = ground arith in
      let l : length xs + blk < 2 ^ 64 = ground arith in
      word_get sg xs blk (blocks_in xs blk) (build_blocks alloc sg xs block).1
        (build_blocks-IsFilled alloc sg xs block ok) p a few (block_count (length xs) blk p l)

  -- Every value of an array of fewer than 2^60 numbers of 64 bits that `s2r_blocked_build` takes is
  -- what `s2r_blocked_get` reads at its index, where the length, the block size and 256 add
  -- up to less than 2^64.
  pub blocked_get-blocked_build :
      (xs : List ℕ)
      → All (λ x. x < 2 ^ 64) xs
      → length xs < 2 ^ 60
      → length xs + block + block_default < 2 ^ 64
      → (blocked_build alloc xs block).0 ≡ true
      → (i : ℕ) → i < length xs
      → blocked_get (blocked_build alloc xs block).1 i ≡ get_or xs i 0
  unfolding blocked_build
  blocked_get-blocked_build xs a few small ok i l = (build_blocks-get false xs a few small ok i l).0

  -- So for an array of int64_t values, `s2r_blocked_build_signed` and `s2r_blocked_get_signed`.
  pub blocked_get_signed-blocked_build_signed :
      (xs : List ℤ)
      → All (Fits 64) xs
      → length xs < 2 ^ 60
      → length xs + block + block_default < 2 ^ 64
      → (blocked_build_signed alloc xs block).0 ≡ true
      → (i : ℕ) → i < length xs
      → blocked_get_signed (blocked_build_signed alloc xs block).1 i ≡ get_or xs i (pos 0)
  unfolding blocked_build_signed
  blocked_get_signed-blocked_build_signed xs a few small ok i l =
      let m = length-map to_u64 xs in
      (build_blocks-get true (map to_u64 xs)
        (All-under to_u64 (λ x. x < 2 ^ 64) xs (All-of (λ v. to_u64 v < 2 ^ 64) to_u64-lt xs))
        (omega (arith, few, m)) (omega (arith, small, m)) ok i (omega (arith, l, m))).1
      ∙ ap (sx 64) (get_or-map to_u64 xs i (pos 0) 0 l)
      ∙ sx-to_u64 (get_or xs i (pos 0)) (All-get_or_in (Fits 64) xs i (pos 0) l a)
