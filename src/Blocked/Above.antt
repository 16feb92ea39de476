-- ===== src/Blocked/Above.antt =====
-- s2r_blocked_count_gt of include/smart2raw.h in one block of an unsigned column.
use smart2raw.Base.{
  ltb, leb, ◌==◌, if◌then◌else◌, length, get_or, drop, All, length-map, All-get_or_in, All-imp,
  get_or-map, IsWidth, ℕ, zero, suc, ◌+◌, ◌-◌, ◌*◌, ◌%◌, ◌^◌, ◌≤◌, ◌<◌, ◌≡◌, refl, sym, ap, ◌∙◌,
  ◌≢◌, Bool, true, false, List, [], ◌∷◌, map, arith,
}
use smart2raw.Class.{max_from}
use smart2raw.Class.Least.{max_from-bound, max_from-lt}
use smart2raw.Format.{words_of}
use smart2raw.Affine.{index_of}
use smart2raw.Scan.{count_if}
use smart2raw.Fast.{bisect, count_gt_fast}
use smart2raw.Blocked.{
  blk_sorted, Blocked, md_ru, md_word, block_offset, block_span, block_len, delta_bytes, Stats,
  stats, blocks_of,
}
use smart2raw.Blocked.Query.{delta_width, delta_at, blocked_delta, view, blk_upper, count_gt_block}
use smart2raw.Blocked.Pieces.{total_length, blocks_of-pieces}
use smart2raw.Blocked.Payload.{delta_bytes-le}
use smart2raw.Blocked.Ends.{block_len-blocks_of}
use smart2raw.Blocked.Extent.{IsKept}
use smart2raw.Blocked.Words.{words_held}
use smart2raw.Blocked.Filled.{NoEmpty, length-blocks_of, IsFilled}
use smart2raw.Blocked.RoundTrip.{
  All-under, delta_bytes-holds, delta_bytes-zero, bs, all_kept, kept_words, kept_read, piece-IsKept,
  base_read, stride_read, class_at, width_read, stands, delta_read,
}
use smart2raw.Blocked.Lattice.{
  block_lattice, block_order, index_order, payload_pool, payload_pool-count_gt,
}
use smart2raw.Blocked.Counts.{gt_form, gt_form_lem, search_above}
use smart2raw.Blocked.File.Arrays.{words_of-front}

delta_bytes-IsWidth : (span : ℕ) → delta_bytes span ≢ 0 → IsWidth (delta_bytes span * 8)
unfolding delta_bytes
delta_bytes-IsWidth span h = ground arith

delta_bytes-bits : (span : ℕ) → span < 2 ^ 64 → span < 2 ^ (delta_bytes span * 8)
unfolding delta_bytes
delta_bytes-bits span h = ground arith

times_eight : (n w : ℕ) → w ≤ 8 → n * w ≤ n * 8
times_eight n w h = grind arith

block_before : (k n blk len : ℕ) → k < n → NoEmpty blk n len → k * blk < len
block_before k n blk len h (a, b) =
    let m : suc k * blk ≤ n * blk = grind arith in omega (arith, m, b)

piece_le : (bs : List (List ℕ)) (k : ℕ) → length (get_or bs k []) ≤ total_length bs
piece_le [] k = omega arith
piece_le (b ∷ bs) zero = omega arith
piece_le (b ∷ bs) (suc k) = omega (arith, piece_le bs k)

sorted_flag : (sorted : Bool) → ((if sorted then blk_sorted else 0) % 2 == 1) ≡ true → sorted ≡ true
sorted_flag true h = refl
sorted_flag false h = absurd (cc h)

module _ (xs : List ℕ) (blk n : ℕ) (b : Blocked) (f : IsFilled false xs blk n b) (p : 0 < blk)
    (words : All (λ x. x < 2 ^ 64) xs) (few : length xs < 2 ^ 60)
    (parts : NoEmpty blk n (length xs)) (thr k : ℕ) (m : k < n) where
  abbrev blocks : List (List ℕ)
  blocks = blocks_of blk n xs

  abbrev q : List ℕ
  q = get_or blocks k []

  abbrev s : Stats
  s = stats false q

  abbrev is : List ℕ
  is = map (index_of s.base s.stride) q

  at : k < length blocks
  at = omega (arith, length-blocks_of blk n xs p parts, m)

  whole_block : (0 < length q) × All (λ x. x < 2 ^ 64) q
  whole_block =
      All-get_or_in (λ q. (0 < length q) × All (λ x. x < 2 ^ 64) q) blocks k [] at
        (all_kept false xs blk n b f p words few)

  q-IsKept : IsKept s q
  q-IsKept = piece-IsKept false xs blk n b f p words few k at

  len_at : block_len b k ≡ length q
  len_at =
      let l = block_before k n blk (length xs) m parts in
      block_len-blocks_of b n xs k f.count_eq (omega (arith, f.count_eq, few)) m
        (rw (f.count_eq, f.block_eq) l)
      ∙ ap (λ y. length (get_or (blocks_of y n xs) k [])) f.block_eq

  block_len_small : length q < 2 ^ 60
  block_len_small =
      let t = (blocks_of-pieces (λ x. x < 2 ^ 64) blk n xs p words).1 in
      omega (arith, piece_le blocks k, t, few)

  span_at : block_span b k ≡ s.span
  unfolding block_span md_ru
  span_at =
      let ts = map (stats false) blocks in
      let spans = map (λ s. s.span) ts in
      let top = max_from 0 spans in
      let w = kept_words false xs blk n b f p words few (λ s. s.span) (λ q i. i.span_lt) in
      let e =
        words_held top spans (max_from-lt (2 ^ 64) 0 spans (omega arith) w)
          (max_from-bound 0 spans).1 in
      ap (λ a. get_or a k 0) (f.bspan_eq ∙ ap (λ c. map (md_word c) spans) f.pcls_eq ∙ e)
      ∙ kept_read false xs blk n b f p words few (λ s. s.span) (λ q i. i.span_lt) k at

  flag_at : get_or b.bflags k 0 ≡ (if s.sorted then blk_sorted else 0)
  flag_at =
      let none : Stats = stats false [] in
      let g : Stats → ℕ = λ s. if s.sorted then blk_sorted else 0 in
      let e = length-map (stats false) blocks in
      ap (λ c. get_or c k 0) f.bflags_eq
      ∙ get_or-map g (map (stats false) blocks) k none 0 (omega (arith, e, at))
      ∙ ap g (get_or-map (stats false) blocks k [] none at)

  some_width : (r : ℕ) → leb s.span r ≡ false → delta_bytes s.span ≢ 0
  some_width r u z = let e = delta_bytes-zero s.span z in ground arith

  length-is : length is ≡ length q
  length-is = length-map (index_of s.base s.stride) q

  below_span : All (λ i. i ≤ s.span) is
  below_span = All-under (index_of s.base s.stride) (λ i. i ≤ s.span) q q-IsKept.index_le

  deltas_at : delta_bytes s.span ≢ 0 → (i : ℕ) → i < length is → delta_at b k i ≡ get_or is i 0
  unfolding blocked_delta
  deltas_at z i l =
      let nz : (delta_bytes s.span == 0) ≡ false = ground arith in
      let w = width_read false xs blk n b f p words few k at in
      let inside : i < length q = omega (arith, length-is, l) in
      let d = delta_read false xs blk n b f p words few k i at inside in
      let nw : (delta_width b k == 0) ≡ false = ap (λ y. y == 0) w ∙ nz in
      rw (blocked_delta, nw) at d ∙ sym (get_or-map (index_of s.base s.stride) q i 0 0 inside)

  ordered : s.sorted ≡ true → (i j : ℕ) → i ≤ j → j < length is → get_or is i 0 ≤ get_or is j 0
  ordered o i j h l =
      let j_in : j < length q = omega (arith, length-is, l) in
      let i_in : i < length q = omega (arith, h, j_in) in
      let on_lattice = block_lattice q whole_block.0 whole_block.1 in
      let here : ℕ → Type 0 = λ x. s.base + s.stride * index_of s.base s.stride x ≡ x in
      let ei = All-get_or_in here q i 0 i_in on_lattice in
      let ej = All-get_or_in here q j 0 j_in on_lattice in
      let le = block_order q o i j h j_in in
      let ri = get_or-map (index_of s.base s.stride) q i 0 0 i_in in
      let rj = get_or-map (index_of s.base s.stride) q j 0 0 j_in in
      let c =
        index_order s.stride (index_of s.base s.stride (get_or q i 0))
          (index_of s.base s.stride (get_or q j 0)) q-IsKept.stride_pos
          (omega (arith, ei, ej, le)) in
      omega (arith, c, ri, rj)

  searched :
      (r : ℕ)
      → leb s.span r ≡ false
      → (get_or b.bflags k 0 % 2 == 1) ≡ true
      → length q - blk_upper b k r ≡ count_if (ltb r) is
  unfolding blk_upper
  searched r u o =
      let sorted = sorted_flag s.sorted (ap (λ y. y % 2 == 1) (sym flag_at) ∙ o) in
      let e = search_above (delta_at b k) is r (deltas_at (some_width r u)) (ordered sorted) in
      ap (λ n. length q - bisect (λ mid. leb (delta_at b k mid) r) (suc n) 0 n)
        (len_at ∙ sym length-is)
      ∙ ap (λ n. n - bisect (λ mid. leb (delta_at b k mid) r) (suc (length is)) 0 (length is))
          (sym length-is)
      ∙ e

  view_at :
      delta_bytes s.span ≢ 0
      → let w = delta_bytes s.span in view b k ≡ payload_pool (w * 8) (length is) w is
  view_at z =
      let w = delta_bytes s.span in
      let (rest, e) = stands false xs blk n b f p words few k at z in
      let wide = width_read false xs blk n b f p words few k at in
      let cls = class_at false xs blk n b f p words few k at in
      let len = len_at ∙ sym length-is in
      let holds =
        All-imp (λ i. i ≤ s.span) (λ i. i < 256 ^ w)
          (λ i h. omega (arith, h, delta_bytes-holds s.span q-IsKept.span_lt)) is below_span in
      let cells : words_of true (delta_width b k) (block_len b k)
            (drop (block_offset b k) b.payload)
          ≡ is =
        (λ i. words_of true (wide i) (len i) (drop (block_offset b k) b.payload))
        ∙ ap (words_of true w (length is)) e
        ∙ (words_of-front w is rest holds).0 in
      λ i. payload_pool (cls i) (len i) (wide i) (cells i)

  scanned : (r : ℕ) → leb s.span r ≡ false → count_gt_fast (view b k) r ≡ count_if (ltb r) is
  scanned r u =
      let w = delta_bytes s.span in
      let z = some_width r u in
      let few_words : length is * w < 2 ^ 64 =
        omega
          (arith, times_eight (length is) w (delta_bytes-le s.span), length-is, block_len_small) in
      ap (λ v. count_gt_fast v r) (view_at z)
      ∙ payload_pool-count_gt w is r (delta_bytes-IsWidth s.span z) few_words (
          All-imp (λ i. i ≤ s.span) (λ i. i < 2 ^ (w * 8))
            (λ i h. omega (arith, h, delta_bytes-bits s.span q-IsKept.span_lt)) is below_span)

  pub count_gt_block-piece : count_gt_block b thr k ≡ count_if (ltb thr) q
  unfolding count_gt_block
  count_gt_block-piece =
      let flags = get_or b.bflags k 0 in
      let base = base_read false xs blk n b f p words few k at in
      let st = stride_read false xs blk n b f p words few k at in
      (λ i.
        gt_form (len_at i) (base i) (st i) (span_at i) flags (delta_width b k) (blk_upper b k)
          (count_gt_fast (view b k)) thr)
      ∙ gt_form_lem q s.base s.stride s.span flags (delta_width b k) (blk_upper b k)
          (count_gt_fast (view b k)) q-IsKept.stride_pos
          (block_lattice q whole_block.0 whole_block.1) q-IsKept.index_le thr searched scanned
