-- ===== src/Format/Loaded.antt =====
-- s2r_load_portable of include/smart2raw.h on a file that s2r_save_portable wrote.
use smart2raw.Base.{
  ltb, ◌==◌, if◌then◌else◌, Bool-cases, eq_of_==, length, take, All, nil_of_length, ℤ, pos, negsuc,
  u64_max, IsWidth, IsWidth→is_width, wrap_mul, sx, to_u64, by_width, wrap_mul_of_lt, ℕ, ◌*◌, ◌/◌,
  ◌%◌, ◌^◌, ◌<◌, ◌≡◌, refl, sym, ap, subst, subst₂, ◌∙◌, inl, inr, Bool, true, false, ◌&&◌, not,
  some, List, [], ◌++◌, append-nil, append_assoc, arith,
}
use smart2raw.Class.{abs_size}
use smart2raw.Pool.{S2RError, Pool, width, elem_bytes, is_neg, live, pool_init, ok}
use smart2raw.Pool.Valid.{IsValid, live-words, length-live, count-lt}
use smart2raw.Pool.Memory.{few-Requestable, pool_init-IsValid}
use smart2raw.Arith.{loaded}
use smart2raw.Arith.Convert.{loaded-IsValid}
use smart2raw.Resize.Promote.{SignAgrees}
use smart2raw.Format.{magic_v33, crc32, le_bytes, words_of, fread, rd_le}
use smart2raw.Format.File.{
  size_byte, header_bytes, payload_crc, save_portable, Header, eqb, read_count, read_class,
  read_magic, host_words, filled_pool, read_tail, read_payload, read_body, load_portable, header,
}
use smart2raw.Format.Bytes.{
  fread-append, rd_le-append, length-memory, memory-IsByte, words_of-memory,
}
use smart2raw.Format.Hosts.{power_bytes, host_words_lem}
use smart2raw.Format.Saved.{payload, image, payload-lt, save_portable-image}

abbrev crc_bytes : Pool → List ℕ
crc_bytes p = le_bytes 4 (payload_crc (payload p))

abbrev pub after_magic : Pool → List ℕ
after_magic p = header_bytes p ++ (le_bytes 8 p.count ++ (payload p ++ crc_bytes p))

pub image_fields : (p : Pool) → image p ≡ le_bytes 4 magic_v33 ++ after_magic p
image_fields p =
    let m = le_bytes 4 magic_v33 in
    let h = header_bytes p in
    let c = le_bytes 8 p.count in
    append_assoc (m ++ h ++ c) (payload p) (crc_bytes p)
    ∙ append_assoc (m ++ h) c (payload p ++ crc_bytes p)
    ∙ append_assoc m h (c ++ (payload p ++ crc_bytes p))

pub payload_crc-lt : (src : List ℕ) → payload_crc src < 256 ^ 4
unfolding crc32
payload_crc-lt src = ground arith

pub eq_self : (n : ℕ) → (n == n) ≡ true
eq_self n = ground arith

-- The class is read back from its byte.
pub size_back : (s : ℤ) → IsWidth (abs_size s) → sx 8 (size_byte s) ≡ s
unfolding sx to_u64
size_back (pos n) h = ground arith
size_back (negsuc n) h = ground arith

abbrev header_of : Pool → Header
header_of p = record {
  is_v33 = true;
  size = p.size;
  signed = p.flags.signed;
  count = p.count;
  rest = payload p ++ crc_bytes p;
}

abbrev CountFits : ℕ → Type 0
CountFits w =
    (n : ℕ) → n * (w / 8) < 2 ^ 64 → (not (w / 8 == 0) && ltb (u64_max / (w / 8)) n) ≡ false

count_fits : (w : ℕ) → IsWidth w → CountFits w
count_fits =
    by_width CountFits (λ n h. ground arith) (λ n h. ground arith) (λ n h. ground arith)
      (λ n h. ground arith)

pub bit_back : (b : Bool) → ((if b then 1 else 0) % 2 == 1) ≡ b
bit_back true = refl
bit_back false = refl

eqb_self : (b : Bool) → eqb b b ≡ true
eqb_self true = refl
eqb_self false = refl

module _ (p : Pool) (v : IsValid p) (s : SignAgrees p) where
  count_read :
      read_count true p.size p.flags.signed (some (p.count, payload p ++ crc_bytes p))
      ≡ header (header_of p)
  unfolding read_count
  count_read =
      let w = IsWidth→is_width (width p) v.class in
      let c : ltb u64_max p.count ≡ false = ground (arith, count-lt v) in
      rw (w, c, count_fits (width p) v.class p.count (payload-lt v)) refl

  class_read :
      read_class magic_v33 (some (header_bytes p, le_bytes 8 p.count ++ (payload p ++ crc_bytes p)))
      ≡ header (header_of p)
  unfolding read_class
  class_read =
      let agree : eqb (is_neg p.size) p.flags.signed ≡ true = rw s (eqb_self (is_neg p.size)) in
      rw
        (
          size_back p.size v.class,
          bit_back p.flags.signed,
          agree,
          rd_le-append 8 p.count (payload p ++ crc_bytes p) (omega (arith, count-lt v)),
        )
        count_read

  header_read : read_magic (rd_le 4 (image p)) ≡ header (header_of p)
  unfolding read_magic
  header_read =
      ap (λ bs. read_magic (rd_le 4 bs)) (image_fields p)
      ∙ ap read_magic (rd_le-append 4 magic_v33 (after_magic p) (omega arith))
      ∙ ap (read_class magic_v33)
          (fread-append 4 (header_bytes p) (le_bytes 8 p.count ++ (payload p ++ crc_bytes p)) refl)
      ∙ class_read

  -- The answer where the reader gets its buffer.
  abbrev pub Restored : S2RError × Pool → Type 0
  Restored r =
      (r.0 ≡ ok)
      × IsValid r.1
      × (live r.1 ≡ live p)
      × (r.1.size ≡ p.size)
      × (r.1.flags.signed ≡ p.flags.signed)

  crc_back : rd_le 4 (crc_bytes p) ≡ some (payload_crc (payload p), [])
  crc_back =
      let c = payload_crc (payload p) in
      ap (rd_le 4) (sym (append-nil (le_bytes 4 c)))
      ∙ rd_le-append 4 c [] (payload_crc-lt (payload p))

  tail_read :
      (little : Bool) (q : Pool)
      → read_tail little (header_of p) q (payload p) (rd_le 4 (crc_bytes p))
        ≡ (ok, filled_pool little (header_of p) q (payload p))
  unfolding read_tail
  tail_read little q = rw crc_back (rw (eq_self (payload_crc (payload p))) refl)

  payload_read :
      (little : Bool) (q : Pool)
      → read_payload little (header_of p) q (
          if wrap_mul 64 p.count (elem_bytes p) == 0
          then some ([], payload p ++ crc_bytes p)
          else fread (wrap_mul 64 p.count (elem_bytes p)) (payload p ++ crc_bytes p))
        ≡ (ok, filled_pool little (header_of p) q (payload p))
  unfolding read_payload
  payload_read little q =
      let n = wrap_mul 64 p.count (elem_bytes p) in
      let same : n ≡ p.count * elem_bytes p =
        wrap_mul_of_lt 64 p.count (elem_bytes p) (payload-lt v) in
      let len : length (payload p) ≡ n =
        length-memory (elem_bytes p) (live p)
        ∙ ap (λ k. k * elem_bytes p) (length-live v)
        ∙ sym same in
      let got : (if n == 0
            then some ([], payload p ++ crc_bytes p)
            else fread n (payload p ++ crc_bytes p))
          ≡ some (payload p, crc_bytes p) =
        elim (Bool-cases (n == 0)) [
          | inl z ↦ let e = nil_of_length (payload p) (len ∙ eq_of_== n 0 z) in rw (z, e) refl
          | inr m ↦ rw m (fread-append n (payload p) (crc_bytes p) len)
        ] in
      ap (read_payload little (header_of p) q) got ∙ tail_read little q

  filled-Restored :
      (little : Bool) (q : Pool)
      → IsValid q
      → q.size ≡ p.size
      → q.capacity ≡ p.count
      → Restored (ok, filled_pool little (header_of p) q (payload p))
  filled-Restored little q i e c =
      let eb = elem_bytes p in
      let len = length-memory eb (live p) ∙ ap (λ k. k * eb) (length-live v) in
      let small =
        subst (λ k. All (λ x. x < k) (live p)) (sym (power_bytes (width p) v.class))
          (live-words v) in
      let xs = host_words little (elem_bytes q) p.count (payload p) in
      let back : xs ≡ live p =
        ap (λ z. host_words little (abs_size z / 8) p.count (payload p)) e
        ∙ host_words_lem (width p) v.class little p.count (payload p) (memory-IsByte eb (live p))
            len
        ∙ ap (λ n. words_of true eb n (payload p)) (sym (length-live v))
        ∙ words_of-memory eb (live p) small in
      let n : length xs ≡ p.count = ap length back ∙ length-live v in
      let l =
        loaded-IsValid q xs i (omega (arith, n, c))
          (subst₂ (λ z ys. All (λ x. x < 2 ^ abs_size z) ys) (sym e) (sym back) (live-words v)) in
      let m = l.0 in
      (
        refl,
        record {
          class = m.class;
          room = omega (arith, c);
          cap_cells = m.cap_cells;
          cells_bytes = m.cells_bytes;
          small = m.small;
          words = m.words;
        },
        ap (λ k. take k (loaded q xs).cells) (sym n) ∙ l.1 ∙ back,
        e,
        refl,
      )

  -- A file of a valid pool of fewer than 2^60 elements, whose flag SIGNED agrees with its class, is
  -- loaded on a host of either byte order, where the allocator grants the buffer, as a valid pool of the class with the same elements.
  pub load_portable-image :
      (little : Bool) (alloc : ℕ → Bool) (q : Pool)
      → p.count < 2 ^ 60
      → (pool_init alloc q p.size p.count).0 ≡ true
      → Restored (load_portable little alloc (some (image p)) q)
  unfolding load_portable read_body
  load_portable-image little alloc q f g =
      let i =
        pool_init-IsValid alloc q p.size p.count v.class
          (few-Requestable (width p) v.class p.count f) g in
      let r = (pool_init alloc q p.size p.count).1 in
      let step : load_portable little alloc (some (image p)) q
          ≡ (ok, filled_pool little (header_of p) r (payload p)) =
        ap (λ h. read_body little alloc h q) header_read
        ∙ rw (read_body, g) (payload_read little r) in
      subst Restored (sym step) (filled-Restored little r i.0 i.1 i.2)

-- What `s2r_save_portable` writes of a valid pool of fewer than 2^60 elements whose flag SIGNED agrees
-- with its class, where it answers S2R_OK on a host of either byte order, is loaded on a host of
-- either byte order, where the allocator grants the buffer, as a valid pool of the class with the
-- same elements.
pub load_portable-save_portable :
    (writer reader : Bool) (alloc_w alloc_r : ℕ → Bool) (opened : Bool) (room : ℕ) (p q : Pool)
    → (v : IsValid p) (s : SignAgrees p) → p.count < 2 ^ 60
    → (save_portable writer alloc_w opened room p).0 ≡ ok
    → (pool_init alloc_r q p.size p.count).0 ≡ true
    → Restored p v s
        (load_portable reader alloc_r (some (save_portable writer alloc_w opened room p).1) q)
load_portable-save_portable writer reader alloc_w alloc_r opened room p q v s f saved g =
    let e = save_portable-image writer alloc_w opened room p v saved in
    rw e (load_portable-image p v s reader alloc_r q f g)
