-- ===== src/Blocked/File/Header.antt =====
-- s2r_blocked_load of include/smart2raw.h on a file that s2r_blocked_save wrote: the header.
use native.Mathlib.Nat.{le-div_iff_mul-le}
use smart2raw.Base.{
  ltb, ◌==◌, if◌then◌else◌, Bool-cases, ltb-false, length, ℤ, u64_max, is_width, IsWidth→is_width,
  wrap_add, wrap_sub, ℕ, ◌+◌, ◌-◌, ◌*◌, ◌/◌, ◌^◌, ◌≤◌, ◌<◌, ◌≡◌, refl, sym, ap, ◌∙◌, inl, inr, Bool,
  true, false, ◌&&◌, ◌||◌, not, Option, none, some, List, [], ◌∷◌, ◌++◌, arith,
}
use smart2raw.Class.{abs_size}
use smart2raw.Pool.{S2RError, is_neg, err_io, err_corrupt}
use smart2raw.Format.{magic_v33, le_bytes, memory, fread, rd_le}
use smart2raw.Format.Bytes.{fread-append, rd_le-append, length-memory}
use smart2raw.Format.File.{size_byte, payload_crc}
use smart2raw.Format.Loaded.{eq_self, size_back, bit_back}
use smart2raw.Blocked.{Blocked, md_bytes, zeroed_blocked}
use smart2raw.Blocked.File.{
  blk_fmt, blk_fmt_s, blk_header, class_bytes, Step, ◌>>=◌, ◌>>◌, refuse, expect, read_tcls,
  bad_classes, read_blk_header, next,
}
use smart2raw.Blocked.File.Stored.{IsStored, ClassesFit-of, blk_image}
use smart2raw.Blocked.File.Safety.{row_parts}

-- A step that goes on.
module _ {B : Type 0} where
  pub expect-some :
      {A : Type 0} (e : S2RError) (o : Option A) (a : A) (f : A → Step B)
      → o ≡ some a
      → (expect e o >>= f) ≡ f a
  unfolding ◌>>=◌ expect
  expect-some e o a f h = rw h refl

  pub refuse-false :
      (c : Bool) (e : S2RError) (b : Blocked) (m : Step B) → c ≡ false → (refuse c e b >> m) ≡ m
  unfolding ◌>>=◌ ◌>>◌ refuse
  refuse-false c e b m h = rw h refl

  pub bind-next : {A : Type 0} (m : Step A) (a : A) (f : A → Step B) → m ≡ next a → (m >>= f) ≡ f a
  unfolding ◌>>=◌
  bind-next m a f h = rw h refl

-- The structure that the header of a column describes.
abbrev pub header_only : Blocked → Blocked
header_only b = record zeroed_blocked {
  has_stride = b.has_stride;
  tcls = b.tcls;
  is_signed = b.is_signed;
  count = b.count;
  block = b.block;
  nblocks = b.nblocks;
  bytes = b.bytes;
  bcls = b.bcls;
  pcls = b.pcls;
  ocls = b.ocls;
  scls = b.scls;
}

fmt_known :
    (has : Bool)
    → let fmt = if has then blk_fmt_s else blk_fmt in
      (not (fmt == blk_fmt) && not (fmt == blk_fmt_s)) ≡ false
fmt_known true = refl
fmt_known false = refl

fmt_back : (has : Bool) → ((if has then blk_fmt_s else blk_fmt) == blk_fmt_s) ≡ has
fmt_back true = refl
fmt_back false = refl

pub len_fits :
    (per n bytes : ℕ)
    → 0 < per
    → n * per + bytes < 2 ^ 64
    → (if not (per == 0) && ltb (u64_max / per) n
        then none
        else if ltb (u64_max - n * per) bytes
        then none
        else some (n * per + bytes))
      ≡ some (n * per + bytes)
len_fits per n bytes p h =
    let q : n ≤ u64_max / per = (le-div_iff_mul-le p).1 (omega arith) in
    let a : (not (per == 0) && ltb (u64_max / per) n) ≡ false = ground arith in
    let b : ltb (u64_max - n * per) bytes ≡ false =
      ltb-false (u64_max - n * per) bytes (omega arith) in
    rw (a, b) refl

pub room_left : (len blen : ℕ) → len ≡ blen + 4 → (ltb len 4 || ltb (len - 4) blen) ≡ false
room_left len blen e = ground arith

pub or_true : (x : Bool) → (x || true) ≡ true
or_true true = refl
or_true false = refl

pub spare : (x y : Bool) → y ≡ true → (x && not y) ≡ false
spare true y h = ap not h
spare false y h = refl

pub memory_size :
    (eb : ℕ) (vs : List ℕ) (n : ℕ) → length vs ≡ n → length (memory true eb vs) ≡ n * eb
memory_size eb vs n e = length-memory eb vs ∙ ap (λ k. k * eb) e

nblocks_lt : (b : Blocked) → IsStored b → b.nblocks < 2 ^ 64
nblocks_lt b v = omega (
  arith,
  row_parts b.nblocks (md_bytes b.bcls) (md_bytes b.pcls) (md_bytes b.ocls) (md_bytes b.scls)
      (if b.has_stride then md_bytes b.tcls else 0),
  v.small,
)

-- What stands behind the header.
abbrev pub trailer : List ℕ → List ℕ
trailer body = body ++ (le_bytes 4 (payload_crc body) ++ [])

module _ (b : Blocked) (v : IsStored b) where
  tcls_read :
      (rest : List ℕ)
      → read_tcls b.has_stride ((if b.has_stride then size_byte b.tcls ∷ [] else []) ++ rest)
        ≡ next (b.tcls, rest)
  unfolding read_tcls
  tcls_read rest = elim (Bool-cases b.has_stride) [
    | inr s ↦ let e = v.tcls_plain s in rw (s, e) refl
    | inl s ↦
        let t = size_byte b.tcls ∷ [] in
        let e = size_back b.tcls v.tcls_width in
        let c : (is_neg b.tcls || not (is_width (abs_size b.tcls))) ≡ false =
          rw (v.tcls_pos, IsWidth→is_width (abs_size b.tcls) v.tcls_width) refl in
        rw s (
          expect-some err_io (fread 1 (t ++ rest)) (t, rest) _ (fread-append 1 t rest refl)
          ∙ refuse-false _ err_corrupt zeroed_blocked _
              (ap (λ z. is_neg z || not (is_width (abs_size z))) e ∙ c)
          ∙ ap (λ z. next (z, rest)) e)
  ]

  -- The end of the header, after its fields are read.
  abbrev finish : Bool → Bool → ℤ → ℤ → ℤ → ℤ → ℤ × List ℕ → Step (Blocked × List ℕ)
  finish has sg c0 c1 c2 c3 (tcls, rest) = do
    refuse (b.block == 0 || ltb u64_max b.count || ltb u64_max b.nblocks || ltb u64_max b.bytes)
        err_corrupt zeroed_blocked
    let start : Blocked = record zeroed_blocked { has_stride = has; tcls = tcls }
    refuse (not (b.nblocks == wrap_sub 64 (wrap_add 64 b.count b.block) 1 / b.block)) err_corrupt
        start
    let h : Blocked = record start {
      is_signed = sg;
      count = b.count;
      block = b.block;
      nblocks = b.nblocks;
      bytes = b.bytes;
      bcls = c0;
      pcls = c1;
      ocls = c2;
      scls = c3;
    }
    refuse (bad_classes h) err_corrupt zeroed_blocked
    next (h, rest)

  finish_lem :
      (rest : List ℕ)
      → finish b.has_stride b.is_signed b.bcls b.pcls b.ocls b.scls (b.tcls, rest)
        ≡ next (header_only b, rest)
  finish_lem rest =
      refuse-false _ err_corrupt zeroed_blocked _
        (ground (arith, v.block_pos, v.count_lt, v.small, nblocks_lt b v))
      ∙ refuse-false _ err_corrupt _ _
          (ap (λ k. not (b.nblocks == k)) (sym v.nblocks_eq) ∙ ap not (eq_self b.nblocks))
      ∙ refuse-false _ err_corrupt zeroed_blocked _ v.classes

  pub header_read :
      (body : List ℕ) → read_blk_header (blk_image b body) ≡ next (header_only b, trailer body)
  unfolding read_blk_header
  header_read body =
      let f = ClassesFit-of b v.classes in
      let t = (if b.has_stride then size_byte b.tcls ∷ [] else []) ++ trailer body in
      let r6 = le_bytes 8 b.bytes ++ t in
      let r5 = class_bytes b ++ r6 in
      let r4 = le_bytes 8 b.nblocks ++ r5 in
      let r3 = le_bytes 8 b.block ++ r4 in
      let r2 = le_bytes 8 b.count ++ r3 in
      let r1 = blk_header b ++ r2 in
      expect-some err_corrupt (rd_le 4 (blk_image b body)) (magic_v33, r1) _
        (rd_le-append 4 magic_v33 r1 (omega arith))
      ∙ refuse-false _ err_corrupt zeroed_blocked _ refl
      ∙ expect-some err_io (fread 4 r1) (blk_header b, r2) _ (fread-append 4 (blk_header b) r2 refl)
      ∙ refuse-false _ err_corrupt zeroed_blocked _ (fmt_known b.has_stride)
      ∙ expect-some err_io (rd_le 8 r2) (b.count, r3) _
          (rd_le-append 8 b.count r3 (omega (arith, v.count_lt)))
      ∙ expect-some err_io (rd_le 8 r3) (b.block, r4) _
          (rd_le-append 8 b.block r4 (omega (arith, v.block_lt)))
      ∙ expect-some err_io (rd_le 8 r4) (b.nblocks, r5) _
          (rd_le-append 8 b.nblocks r5 (nblocks_lt b v))
      ∙ expect-some err_io (fread 4 r5) (class_bytes b, r6) _
          (fread-append 4 (class_bytes b) r6 refl)
      ∙ expect-some err_io (rd_le 8 r6) (b.bytes, t) _
          (rd_le-append 8 b.bytes t (omega (arith, v.small)))
      ∙ (λ i.
          read_tcls (fmt_back b.has_stride i) t
          >>= finish (fmt_back b.has_stride i) (bit_back b.is_signed i)
              (size_back b.bcls f.bcls_width i) (size_back b.pcls f.pcls_width i)
              (size_back b.ocls f.ocls_width i) (size_back b.scls f.scls_width i))
      ∙ bind-next (read_tcls b.has_stride t) (b.tcls, trailer body)
          (finish b.has_stride b.is_signed b.bcls b.pcls b.ocls b.scls) (tcls_read (trailer body))
      ∙ finish_lem (trailer body)
