-- ===== src/Blocked/File/Loaded.antt =====
-- s2r_blocked_load of include/smart2raw.h on a file that s2r_blocked_save wrote.
use smart2raw.Base.{
  ◌==◌, if◌then◌else◌, Bool-cases, eq_of_==, length, take, length-append, take-all, nil_of_length,
  ℕ, ◌*◌, ◌≡◌, refl, sym, ap, ◌∙◌, inl, inr, Bool, true, not, some, List, [], ◌++◌, arith,
}
use smart2raw.Pool.{alignment, align_up, ok, err_oom, err_io, err_corrupt}
use smart2raw.Format.{le_bytes, fread, rd_le}
use smart2raw.Format.Bytes.{length-le_bytes, fread-append, rd_le-append}
use smart2raw.Format.File.{payload_crc}
use smart2raw.Format.Loaded.{payload_crc-lt, eq_self}
use smart2raw.Blocked.{Blocked, md_bytes, zeroed_blocked}
use smart2raw.Blocked.File.{
  body_len, body_bytes, blocked_save, read_blk_header, all_fit, arrays_granted, fill_blocks,
  read_blk_body, load_blocks, load_answer, blocked_load, next,
}
use smart2raw.Blocked.File.Stored.{IsStored, ClassesFit-of, blk_image, blocked_save-image}
use smart2raw.Blocked.File.Safety.{all_fit-payload}
use smart2raw.Blocked.File.Header.{
  expect-some, refuse-false, bind-next, header_only, room_left, or_true, spare, trailer,
  header_read,
}
use smart2raw.Blocked.File.Body.{len_known, arrays_read}

module _ (b : Blocked) (v : IsStored b) where
  module _ (alloc : ℕ → Bool) (grants : (n : ℕ) → alloc n ≡ true) where
    body_read :
        read_blk_body true alloc (header_only b) (trailer (body_bytes b)) ≡ next (body_bytes b)
    unfolding read_blk_body
    body_read =
        let body = body_bytes b in
        let crc = payload_crc body in
        let tail = le_bytes 4 crc ++ [] in
        let blen = length body in
        let l4 = length-le_bytes 4 crc in
        let lt = length-append (le_bytes 4 crc) [] in
        let la = length-append body tail in
        expect-some err_corrupt (body_len (header_only b)) blen _ (len_known b v)
        ∙ refuse-false _ err_io zeroed_blocked _ refl
        ∙ refuse-false _ err_corrupt zeroed_blocked _
            (room_left (length (trailer body)) blen (omega (arith, la, lt, l4)))
        ∙ refuse-false _ err_oom zeroed_blocked _ (ap not (grants (if blen == 0 then 1 else blen)))
        ∙ expect-some err_io (fread blen (trailer body)) (body, tail) _
            (fread-append blen body tail refl)
        ∙ expect-some err_io (rd_le 4 tail) (crc, []) _
            (rd_le-append 4 crc [] (payload_crc-lt body))
        ∙ refuse-false _ err_corrupt zeroed_blocked _ refl
        ∙ refuse-false _ err_corrupt zeroed_blocked _ (ap not (eq_self crc))

    all_granted : arrays_granted alloc (header_only b) ≡ true
    all_granted =
        let n = b.nblocks in
        rw
          (
            grants n,
            grants (n * md_bytes b.bcls),
            grants (n * md_bytes b.pcls),
            grants (n * md_bytes b.ocls),
            grants (n * md_bytes b.scls),
            grants (n * md_bytes b.tcls),
          )
          (or_true (not b.has_stride))

    filled : fill_blocks alloc (header_only b) (body_bytes b) ≡ next b
    unfolding fill_blocks
    filled =
        refuse-false _ err_oom zeroed_blocked _ (ap not all_granted)
        ∙ refuse-false _ err_corrupt zeroed_blocked _ (
            ap (λ (t : Blocked × List ℕ). not (all_fit t.0 t.0.nblocks 0)) (arrays_read b v)
            ∙ ap not (all_fit-payload b [] b.nblocks 0 ∙ v.fits))
        ∙ refuse-false _ err_oom zeroed_blocked _ (
            spare (not (b.bytes == 0)) (alloc (align_up b.bytes alignment))
              (grants (align_up b.bytes alignment)))
        ∙ ap (λ (t : Blocked × List ℕ). next (record t.0 { payload = take b.bytes t.1 }))
            (arrays_read b v)
        ∙ ap (λ p. next (record b { payload = p }))
            (take-all b.bytes b.payload (omega (arith, v.payload_length)))

    empty_column : b.nblocks ≡ 0 → header_only b ≡ b
    empty_column z =
        let f = ClassesFit-of b v.classes in
        let nil : (xs : List ℕ) → length xs ≡ b.nblocks → [] ≡ xs =
          λ xs e. sym (nil_of_length xs (e ∙ z)) in
        let strides : [] ≡ b.bstride = elim (Bool-cases b.has_stride) [
          | inl s ↦ nil b.bstride (v.bstride_length s)
          | inr s ↦ sym (v.bstride_none s)
        ] in
        let payload = sym (nil_of_length b.payload (v.payload_length ∙ v.none_bytes z)) in
        λ i. record b {
          payload = payload i;
          bclass = nil b.bclass v.bclass_length i;
          bflags = nil b.bflags v.bflags_length i;
          bbase = nil b.bbase v.bbase_length i;
          bspan = nil b.bspan v.bspan_length i;
          boff = nil b.boff v.boff_length i;
          bsum = nil b.bsum v.bsum_length i;
          bstride = strides i;
        }

    pub load_image : load_blocks true alloc (blk_image b (body_bytes b)) ≡ next b
    unfolding load_blocks
    load_image =
        bind-next (read_blk_header (blk_image b (body_bytes b)))
          (header_only b, trailer (body_bytes b)) _ (header_read b v (body_bytes b))
        ∙ elim (Bool-cases (b.nblocks == 0)) [
          | inl z ↦ rw z (ap next (empty_column (eq_of_== b.nblocks 0 z)))
          | inr z ↦ rw z (
              bind-next (read_blk_body true alloc (header_only b) (trailer (body_bytes b)))
                (body_bytes b) _ body_read
              ∙ filled)
        ]

-- What `s2r_blocked_save` writes of a well-formed column, where it answers S2R_OK, is loaded as the
-- same column, on a seekable file and where the allocator grants every request.
pub blocked_load-blocked_save :
    (alloc_w alloc_r : ℕ → Bool) (opened : Bool) (room : ℕ) (b : Blocked)
    → IsStored b
    → (blocked_save alloc_w opened room b).0 ≡ ok
    → ((n : ℕ) → alloc_r n ≡ true)
    → blocked_load true alloc_r (some (blocked_save alloc_w opened room b).1) ≡ (ok, b)
unfolding blocked_load
blocked_load-blocked_save alloc_w alloc_r opened room b v saved grants =
    ap (λ file. load_answer (load_blocks true alloc_r file))
      (blocked_save-image alloc_w opened room b saved)
    ∙ ap load_answer (load_image b v alloc_r grants)
