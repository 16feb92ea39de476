-- ===== src/Blocked/File/Built.antt =====
-- A column that s2r__blocked_build of include/smart2raw.h makes can be saved and loaded.
use smart2raw.Base.{
  if◌then◌else◌, Bool-cases, length, get_or, All, length-map, get_or-map, ℤ, IsWidth, wrap_add,
  wrap_sub, ℕ, ◌+◌, ◌-◌, ◌*◌, ◌/◌, ◌^◌, ◌≤◌, ◌<◌, ◌≡◌, refl, sym, ap, subst, ◌∙◌, ◌≢◌, inl, inr,
  Bool, true, false, List, [], map, arith,
}
use smart2raw.Class.{s8, abs_size, classify, max_from}
use smart2raw.Class.Least.{max_from-lt}
use smart2raw.Blocked.{
  blk_sorted, Blocked, md_ru, md_word, block_offset, block_stride, block_len, delta_bytes, Stats,
  stats, blocks_of, offsets_of, range_class, class_bits,
}
use smart2raw.Blocked.Pieces.{blocks_of-pieces}
use smart2raw.Blocked.Payload.{Room}
use smart2raw.Blocked.Ends.{
  block_holds, length-offsets_of, payload_end-le, length-payload_of, block_end-le,
}
use smart2raw.Blocked.Extent.{IsKept}
use smart2raw.Blocked.Filled.{NoEmpty, length-blocks_of, block_count, blocks_in, IsFilled}
use smart2raw.Blocked.RoundTrip.{
  blocks_of-Room, no_empty, kept_words, piece-IsKept, stride_read, class_at, offset_read,
}
use smart2raw.Blocked.File.{row_bytes, bad_classes, is_delta_class, block_fits}
use smart2raw.Blocked.File.Classes.{
  Unsigned, Ranged, classify-Unsigned, range_class-Ranged, bad_classes-Ranged, words_below,
  class_bits-is_delta_class,
}
use smart2raw.Blocked.File.Stored.{IsStored, ClassesFit-of}
use smart2raw.Blocked.Sums.{sum_from-lt, stats_sum}
use smart2raw.Blocked.File.Limits.{
  row_bytes-le, times_le_r, NoEmpty-le, NoEmpty-pos, all_fit-of, times_mono, delta_fit, stride_fits,
  all_three, block_len-le, row_before, plain_class,
}

module _ (sg : Bool) (xs : List ℕ) (blk n : ℕ) (b : Blocked) (f : IsFilled sg xs blk n b)
    (p : 0 < blk) (words : All (λ x. x < 2 ^ 64) xs) (few : length xs < 2 ^ 58)
    (l : length xs + blk < 2 ^ 64) (filled : 0 < length xs) (number : n ≡ blocks_in xs blk) where
  few_60 : length xs < 2 ^ 60
  few_60 = omega (arith, few)

  parts : NoEmpty blk n (length xs)
  parts = subst (λ k. NoEmpty blk k (length xs)) (sym number) (block_count (length xs) blk p l)

  abbrev qs : List (List ℕ)
  qs = blocks_of blk n xs

  abbrev ts : List Stats
  ts = map (stats sg) qs

  abbrev total : ℕ
  total = (offsets_of 0 qs ts).1

  abbrev offs : List ℕ
  offs = (offsets_of 0 qs ts).0

  qs-Room : Room 0 qs
  qs-Room = blocks_of-Room sg xs blk n b f p words few_60

  none_empty : All (λ q. 0 < length q) qs
  none_empty = no_empty sg xs blk n b f p words few_60

  total-le : total ≤ 16 * length xs
  total-le =
      let t = (blocks_of-pieces (λ x. x < 2 ^ 64) blk n xs p words).1 in
      omega (arith, payload_end-le 0 qs ts qs-Room none_empty, t)

  blocks_n : length qs ≡ n
  blocks_n = length-blocks_of blk n xs p parts

  length-kept : {A : Type 0} (g : Stats → A) → length (map g ts) ≡ b.nblocks
  length-kept g = length-map g ts ∙ length-map (stats sg) qs ∙ blocks_n ∙ sym f.nblocks_eq

  length-words : (c : ℤ) (g : Stats → ℕ) → length (map (md_word c) (map g ts)) ≡ b.nblocks
  length-words c g = length-map (md_word c) (map g ts) ∙ length-kept g

  below :
      (g : Stats → ℕ)
      → ((q : List ℕ) → IsKept (stats sg q) q → g (stats sg q) < 2 ^ 64)
      → All (λ v. v < 2 ^ 64) (map g ts)
  below g h = kept_words sg xs blk n b f p words few_60 g h

  some_kept : (g : Stats → ℕ) → 0 < length (map g ts)
  some_kept g =
      omega (arith, length-kept g, f.nblocks_eq, NoEmpty-pos blk n (length xs) filled parts)

  ranged :
      (g : Stats → ℕ)
      → ((q : List ℕ) → IsKept (stats sg q) q → g (stats sg q) < 2 ^ 64)
      → Ranged sg (range_class sg (map g ts))
  ranged g h = range_class-Ranged sg (map g ts) (below g h) (some_kept g)

  sum_lt : (q : List ℕ) → IsKept (stats sg q) q → (stats sg q).sum < 2 ^ 64
  sum_lt q i = omega (arith, stats_sum sg q, sum_from-lt 0 q (omega arith))

  bcls_known : Ranged b.is_signed b.bcls
  bcls_known = rw (f.signed_eq, f.bcls_eq) (ranged (λ s. s.base) (λ q i. i.base_lt))

  scls_known : Ranged b.is_signed b.scls
  scls_known = rw (f.signed_eq, f.scls_eq) (ranged (λ s. s.sum) sum_lt)

  pcls_known : Unsigned b.pcls
  pcls_known = rw f.pcls_eq (
      classify-Unsigned (max_from 0 (map (λ s. s.span) ts)) (
        max_from-lt (2 ^ 64) 0 (map (λ s. s.span) ts) (omega arith)
          (below (λ s. s.span) (λ q i. i.span_lt))))

  ocls_known : Unsigned b.ocls
  ocls_known = rw f.ocls_eq (classify-Unsigned total (omega (arith, total-le, few)))

  abbrev strides : List ℕ
  strides = map (λ s. s.stride) ts

  tcls_is : b.tcls ≡ classify (max_from 1 strides)
  tcls_is = f.tcls_eq (λ z. omega (arith, z, NoEmpty-pos blk n (length xs) filled parts))

  tcls_known : Unsigned b.tcls
  tcls_known = rw tcls_is (
      classify-Unsigned (max_from 1 strides)
        (max_from-lt (2 ^ 64) 1 strides (omega arith) (below (λ s. s.stride) (λ q i. i.stride_lt))))

  -- A block and its statistics.
  abbrev block_stats : ℕ → Stats
  block_stats k = stats sg (get_or qs k [])

  stats_at : (k : ℕ) → k < length qs → get_or ts k (stats false []) ≡ block_stats k
  stats_at k m = get_or-map (stats sg) qs k [] (stats false []) m

  class_here : (k : ℕ) → k < length qs → get_or b.bclass k 0 ≡ class_bits (block_stats k)
  class_here k m = class_at sg xs blk n b f p words few_60 k m

  block_len_fits : (k : ℕ) → k < n → block_len b k ≤ length (get_or qs k [])
  block_len_fits k m =
      let before : k * blk < length xs = omega (arith, parts.1, row_before k n blk m) in
      let (h, i) =
        block_len-le b k (omega (arith, f.count_eq, few)) (rw (f.count_eq, f.block_eq) before) in
      block_holds blk n xs k (block_len b k) m before (omega (arith, h, f.block_eq))
        (subst (λ t. block_len b k ≤ t) (λ j. f.count_eq j - k * f.block_eq j) i)

  fits_at : (k : ℕ) → k < n → block_fits b k ≡ true
  unfolding block_fits block_stride
  fits_at k m =
      let s = block_stats k in
      let w = delta_bytes s.span in
      let at : k < length qs = omega (arith, blocks_n, m) in
      let kept_k = piece-IsKept sg xs blk n b f p words few_60 k at in
      let ends : 0 < w → block_offset b k + block_len b k * w ≤ b.bytes = λ z.
        let e =
          subst
            (λ t.
              delta_bytes t.span ≢ 0
              → get_or offs k 0 + length (get_or qs k []) * delta_bytes t.span ≤ total)
            (stats_at k at)
            (block_end-le 0 qs ts k qs-Room none_empty (length-map (stats sg) qs) at)
            (λ y. omega (arith, y, z)) in
        let o = offset_read sg xs blk n b f p words few_60 k in
        let le : block_len b k * w ≤ length (get_or qs k []) * w =
          times_mono (block_len b k) (length (get_or qs k [])) w (block_len_fits k m) in
        omega (arith, e, o, le, f.bytes_eq) in
      all_three _ _ _ (ap is_delta_class (class_here k at) ∙ class_bits-is_delta_class s)
        (stride_fits b.has_stride (md_ru b.bstride b.tcls k) s.stride
          (stride_read sg xs blk n b f p words few_60 k at) kept_k.stride_pos)
        (delta_fit (get_or b.bclass k 0) w (block_offset b k) (block_len b k) b.bytes
          (class_here k at) ends)

  plain_strides : b.has_stride ≡ false → b.tcls ≡ s8
  plain_strides z = tcls_is ∙ plain_class (max_from 1 strides) (sym f.stride_eq ∙ z)

  strides_when : b.has_stride ≡ true → b.bstride ≡ map (md_word b.tcls) strides
  strides_when z =
      f.bstride_eq
      ∙ ap (λ (c : Bool). if c then map (md_word (classify (max_from 1 strides))) strides else []) z
      ∙ ap (λ c. map (md_word c) strides) (sym tcls_is)

  strides_without : b.has_stride ≡ false → b.bstride ≡ []
  strides_without z =
      f.bstride_eq
      ∙ ap (λ (c : Bool). if c then map (md_word (classify (max_from 1 strides))) strides else []) z

  array_below :
      (c : ℤ) (a : List ℕ) (g : Stats → ℕ)
      → a ≡ map (md_word c) (map g ts)
      → IsWidth (abs_size c)
      → All (λ x. x < 2 ^ abs_size c) a
  array_below c a g e w = subst (All (λ x. x < 2 ^ abs_size c)) (sym e) (words_below c (map g ts) w)

  classes_good : bad_classes b ≡ false
  classes_good = bad_classes-Ranged b bcls_known pcls_known ocls_known scls_known

  pub stored_size : b.nblocks * row_bytes b + b.bytes ≤ 58 * length xs
  stored_size =
      let few_blocks = NoEmpty-le blk n (length xs) p filled parts in
      let rows : b.nblocks * row_bytes b ≤ b.nblocks * 42 =
        times_le_r b.nblocks (row_bytes b) 42
          (row_bytes-le b (ClassesFit-of b classes_good) tcls_known.0) in
      omega (arith, rows, few_blocks, f.nblocks_eq, f.bytes_eq, total-le)

  body_small : b.nblocks * row_bytes b + b.bytes < 2 ^ 64
  body_small = omega (arith, stored_size, few)

  offsets_are : b.boff ≡ map (md_word b.ocls) offs
  offsets_are = f.boff_eq ∙ ap (λ c. map (md_word c) offs) (sym f.ocls_eq)

  pub IsFilled-IsStored : IsStored b
  IsFilled-IsStored = record {
    count_lt = omega (arith, f.count_eq, few);
    block_lt = omega (arith, f.block_eq, l);
    block_pos = omega (arith, f.block_eq, p);
    nblocks_eq = f.nblocks_eq ∙ number ∙ (λ i.
        wrap_sub 64 (wrap_add 64 (sym f.count_eq i) (sym f.block_eq i)) 1 / sym f.block_eq i);
    small = body_small;
    none_bytes =
        λ z. absurd (omega (arith, z, f.nblocks_eq, NoEmpty-pos blk n (length xs) filled parts));
    classes = classes_good;
    tcls_width = tcls_known.0;
    tcls_pos = tcls_known.1;
    tcls_plain = plain_strides;
    bclass_length = ap length f.bclass_eq ∙ length-kept class_bits;
    bflags_length = ap length f.bflags_eq ∙ length-kept (λ s. if s.sorted then blk_sorted else 0);
    bbase_length = ap length f.bbase_eq ∙ length-words b.bcls (λ s. s.base);
    bspan_length = ap length f.bspan_eq ∙ length-words b.pcls (λ s. s.span);
    boff_length =
        ap length offsets_are
        ∙ length-map (md_word b.ocls) offs
        ∙ length-offsets_of 0 qs ts (length-map (stats sg) qs)
        ∙ blocks_n
        ∙ sym f.nblocks_eq;
    bsum_length = ap length f.bsum_eq ∙ length-words b.scls (λ s. s.sum);
    bstride_length = λ z. ap length (strides_when z) ∙ length-words b.tcls (λ s. s.stride);
    bstride_none = strides_without;
    payload_length =
        ap length f.payload_eq
        ∙ length-payload_of [] 0 qs ts refl qs-Room none_empty
        ∙ sym f.bytes_eq;
    bbase_words = array_below b.bcls b.bbase (λ s. s.base) f.bbase_eq bcls_known.0;
    bspan_words = array_below b.pcls b.bspan (λ s. s.span) f.bspan_eq pcls_known.0;
    boff_words =
        subst (All (λ x. x < 2 ^ abs_size b.ocls)) (sym offsets_are)
          (words_below b.ocls offs ocls_known.0);
    bsum_words = array_below b.scls b.bsum (λ s. s.sum) f.bsum_eq scls_known.0;
    bstride_words = elim (Bool-cases b.has_stride) [
      | inl z ↦ array_below b.tcls b.bstride (λ s. s.stride) (strides_when z) tcls_known.0
      | inr z ↦ subst (All (λ x. x < 2 ^ abs_size b.tcls)) (sym (strides_without z)) tt
    ];
    fits = all_fit-of b b.nblocks 0 (λ k m. fits_at k (omega (arith, f.nblocks_eq, m)));
  }
