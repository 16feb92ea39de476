-- ===== src/Blocked/File/Body.antt =====
-- s2r_blocked_load of include/smart2raw.h on a file that s2r_blocked_save wrote: the body.
use native.Mathlib.Nat.{mul-zero}
use smart2raw.Base.{
  if◌then◌else◌, Bool-cases, length, take, drop, length-append, ℕ, ◌+◌, ◌*◌, ◌≡◌, sym, ap, ◌∙◌, inl,
  inr, true, false, some, List, [], ◌++◌, arith,
}
use smart2raw.Format.{memory}
use smart2raw.Format.Bytes.{take-append_self, drop-append_self}
use smart2raw.Blocked.{Blocked, md_bytes}
use smart2raw.Blocked.File.{row_bytes, body_len, body_bytes, take_array, array_if, take_arrays}
use smart2raw.Blocked.File.Arrays.{take_array_lem}
use smart2raw.Blocked.File.Stored.{IsStored, ClassesFit-of, body_bytes-image}
use smart2raw.Blocked.File.Safety.{row_parts}
use smart2raw.Blocked.File.Header.{header_only, len_fits, memory_size}

module _ (b : Blocked) (v : IsStored b) where
  strides_length :
      length (if b.has_stride then memory true (md_bytes b.tcls) b.bstride else [])
      ≡ b.nblocks * (if b.has_stride then md_bytes b.tcls else 0)
  strides_length = elim (Bool-cases b.has_stride) [
    | inl s ↦ rw s (memory_size (md_bytes b.tcls) b.bstride b.nblocks (v.bstride_length s))
    | inr s ↦ let z = mul-zero b.nblocks in rw s (omega (arith, z))
  ]

  pub body_length : length (body_bytes b) ≡ b.nblocks * row_bytes b + b.bytes
  body_length =
      let n = b.nblocks in
      let m1 = memory true (md_bytes b.bcls) b.bbase in
      let m2 = memory true (md_bytes b.pcls) b.bspan in
      let m3 = memory true (md_bytes b.ocls) b.boff in
      let m4 = memory true (md_bytes b.scls) b.bsum in
      let m5 : List ℕ = if b.has_stride then memory true (md_bytes b.tcls) b.bstride else [] in
      let p = b.payload in
      let l5 : length m5 ≡ n * (if b.has_stride then md_bytes b.tcls else 0) = strides_length in
      ap length (body_bytes-image b v)
      ∙ omega (
        arith,
        length-append b.bclass (b.bflags ++ (m1 ++ (m2 ++ (m3 ++ (m4 ++ (m5 ++ p)))))),
        length-append b.bflags (m1 ++ (m2 ++ (m3 ++ (m4 ++ (m5 ++ p))))),
        length-append m1 (m2 ++ (m3 ++ (m4 ++ (m5 ++ p)))),
        length-append m2 (m3 ++ (m4 ++ (m5 ++ p))),
        length-append m3 (m4 ++ (m5 ++ p)),
        length-append m4 (m5 ++ p),
        length-append m5 p,
        memory_size (md_bytes b.bcls) b.bbase n v.bbase_length,
        memory_size (md_bytes b.pcls) b.bspan n v.bspan_length,
        memory_size (md_bytes b.ocls) b.boff n v.boff_length,
        memory_size (md_bytes b.scls) b.bsum n v.bsum_length,
        l5,
        v.bclass_length,
        v.bflags_length,
        v.payload_length,
        row_parts n (md_bytes b.bcls) (md_bytes b.pcls) (md_bytes b.ocls) (md_bytes b.scls)
            (if b.has_stride then md_bytes b.tcls else 0),
      )

  pub len_known : body_len (header_only b) ≡ some (length (body_bytes b))
  unfolding body_len
  len_known =
      len_fits (row_bytes b) b.nblocks b.bytes (omega arith) v.small ∙ ap some (sym body_length)

  -- The arrays of the body, one after the other.
  abbrev with_strides : (c f bb sp of sm : List ℕ) → List ℕ × List ℕ → Blocked × List ℕ
  with_strides c f bb sp of sm (st, rest) = (
    record (header_only b) {
      bclass = c;
      bflags = f;
      bbase = bb;
      bspan = sp;
      boff = of;
      bsum = sm;
      bstride = st;
    },
    rest,
  )

  abbrev with_sums : (c f bb sp of : List ℕ) → List ℕ × List ℕ → Blocked × List ℕ
  with_sums c f bb sp of (sm, rest) =
      with_strides c f bb sp of sm (array_if b.has_stride b.nblocks b.tcls rest)

  abbrev with_offsets : (c f bb sp : List ℕ) → List ℕ × List ℕ → Blocked × List ℕ
  with_offsets c f bb sp (of, rest) =
      with_sums c f bb sp of (take_array b.nblocks b.is_signed b.scls rest)

  abbrev with_spans : (c f bb : List ℕ) → List ℕ × List ℕ → Blocked × List ℕ
  with_spans c f bb (sp, rest) = with_offsets c f bb sp (take_array b.nblocks false b.ocls rest)

  abbrev with_bases : (c f : List ℕ) → List ℕ × List ℕ → Blocked × List ℕ
  with_bases c f (bb, rest) = with_spans c f bb (take_array b.nblocks false b.pcls rest)

  abbrev with_flags : List ℕ → List ℕ × List ℕ → Blocked × List ℕ
  with_flags c (f, rest) = with_bases c f (take_array b.nblocks b.is_signed b.bcls rest)

  abbrev with_classes : List ℕ × List ℕ → Blocked × List ℕ
  with_classes (c, rest) = with_flags c (take b.nblocks rest, drop b.nblocks rest)

  split_at :
      (xs rest : List ℕ)
      → length xs ≡ b.nblocks
      → ◌≡◌ {A = List ℕ × List ℕ}
          (take b.nblocks (xs ++ rest), drop b.nblocks (xs ++ rest))
          (xs, rest)
  split_at xs rest e =
      let t : take b.nblocks (xs ++ rest) ≡ xs =
        ap (λ n. take n (xs ++ rest)) (sym e) ∙ take-append_self xs rest in
      let d : drop b.nblocks (xs ++ rest) ≡ rest =
        ap (λ n. drop n (xs ++ rest)) (sym e) ∙ drop-append_self xs rest in
      λ i. (t i, d i)

  strides_read :
      (rest : List ℕ)
      → array_if b.has_stride b.nblocks b.tcls
          ((if b.has_stride then memory true (md_bytes b.tcls) b.bstride else []) ++ rest)
        ≡ (b.bstride, rest)
  strides_read rest = elim (Bool-cases b.has_stride) [
    | inl s ↦ rw s (
        take_array_lem false b.tcls v.tcls_width b.nblocks b.bstride rest (v.bstride_length s)
          v.bstride_words)
    | inr s ↦ let none_there = v.bstride_none s in rw s (λ i. (sym none_there i, rest))
  ]

  pub arrays_read :
      take_arrays (header_only b) (body_bytes b) ≡ (record b { payload = [] }, b.payload)
  unfolding take_arrays
  arrays_read =
      let f = ClassesFit-of b v.classes in
      let n = b.nblocks in
      let m1 = memory true (md_bytes b.bcls) b.bbase in
      let m2 = memory true (md_bytes b.pcls) b.bspan in
      let m3 = memory true (md_bytes b.ocls) b.boff in
      let m4 = memory true (md_bytes b.scls) b.bsum in
      let m5 : List ℕ = if b.has_stride then memory true (md_bytes b.tcls) b.bstride else [] in
      let z5 = m5 ++ b.payload in
      let z4 = m4 ++ z5 in
      let z3 = m3 ++ z4 in
      let z2 = m2 ++ z3 in
      let z1 = m1 ++ z2 in
      ap (take_arrays (header_only b)) (body_bytes-image b v)
      ∙ ap with_classes (split_at b.bclass (b.bflags ++ z1) v.bclass_length)
      ∙ ap (with_flags b.bclass) (split_at b.bflags z1 v.bflags_length)
      ∙ ap (with_bases b.bclass b.bflags)
          (take_array_lem b.is_signed b.bcls f.bcls_width n b.bbase z2 v.bbase_length v.bbase_words)
      ∙ ap (with_spans b.bclass b.bflags b.bbase)
          (take_array_lem false b.pcls f.pcls_width n b.bspan z3 v.bspan_length v.bspan_words)
      ∙ ap (with_offsets b.bclass b.bflags b.bbase b.bspan)
          (take_array_lem false b.ocls f.ocls_width n b.boff z4 v.boff_length v.boff_words)
      ∙ ap (with_sums b.bclass b.bflags b.bbase b.bspan b.boff)
          (take_array_lem b.is_signed b.scls f.scls_width n b.bsum z5 v.bsum_length v.bsum_words)
      ∙ ap (with_strides b.bclass b.bflags b.bbase b.bspan b.boff b.bsum) (strides_read b.payload)
