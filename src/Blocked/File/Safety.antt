-- ===== src/Blocked/File/Safety.antt =====
-- What s2r_blocked_load of include/smart2raw.h accepts: no block reaches outside the payload.

use native.Mathlib.Nat.{le-div_iff_mul-le, mul-zero}
use smart2raw.Base.{
  ltb, leb, ◌==◌, if◌then◌else◌, leb→le, Bool-cases, eq_of_==, length, get_or, take, drop,
  length-take, length-drop, ℤ, ℕ, zero, suc, ◌+◌, ◌-◌, ◌*◌, ◌/◌, ◌≤◌, ◌<◌, ◌≡◌, refl, sym, ap, ◌∙◌,
  ◌≢◌, ◌⊎◌, inl, inr, Bool, true, false, ◌&&◌, ◌||◌, not, Option, none, some, List, arith,
}
use smart2raw.Pool.{S2RError, ok, err_oom, err_io, err_corrupt}
use smart2raw.Format.{fread, rd_le}
use smart2raw.Blocked.{Blocked, md_bytes, md_ru, block_offset, block_stride, block_len}
use smart2raw.Blocked.Query.{delta_width}
use smart2raw.Blocked.File.{
  row_bytes, body_len, Step, ◌>>=◌, ◌>>◌, refuse, expect, read_tcls, read_blk_header, array_if,
  take_arrays, is_delta_class, block_fits, all_fit, fill_blocks, read_blk_body, load_blocks,
  load_answer, blocked_load, failed, next,
}
use smart2raw.Blocked.Extent.{not_ltb}

-- A step answers an error, or goes on with what is so.
data Ensures {A : Type 0} (P : A → Type 0) : Step A → Type 0 where
  fails : {e : S2RError} {b : Blocked} → e ≢ ok → Ensures P (failed e b)
  goes : {a : A} → P a → Ensures P (next a)

Ensures-bind :
    {A B : Type 0} (Q : A → Type 0) (P : B → Type 0) (m : Step A) (f : A → Step B)
    → Ensures Q m
    → ((a : A) → Q a → Ensures P (f a))
    → Ensures P (m >>= f)
unfolding ◌>>=◌
Ensures-bind Q P (failed e b) f (fails h) k = fails h
Ensures-bind Q P (next a) f (goes h) k = k a h

module _ {B : Type 0} (P : B → Type 0) where
  -- A read, which answers an error where it fails.
  Ensures-expect :
      {A : Type 0} (e : S2RError) (o : Option A) (f : A → Step B)
      → e ≢ ok
      → ((a : A) → o ≡ some a → Ensures P (f a))
      → Ensures P (expect e o >>= f)
  unfolding ◌>>=◌ expect
  Ensures-expect e none f h k = fails h
  Ensures-expect e (some a) f h k = k a refl

  Ensures-refuse :
      (c : Bool) (e : S2RError) (b : Blocked) (m : Step B)
      → e ≢ ok
      → (c ≡ false → Ensures P m)
      → Ensures P (refuse c e b >> m)
  unfolding ◌>>=◌ ◌>>◌ refuse
  Ensures-refuse true e b m h k = fails h
  Ensures-refuse false e b m h k = k refl

io_ne : err_io ≢ ok
io_ne e = cc

corrupt_ne : err_corrupt ≢ ok
corrupt_ne e = cc

oom_ne : err_oom ≢ ok
oom_ne e = cc

data Any {A : Type 0} (a : A) : Type 0 where
  any : Any a

read_tcls-Ensures : (has : Bool) (bs : List ℕ) → Ensures Any (read_tcls has bs)
unfolding read_tcls
read_tcls-Ensures false bs = goes any
read_tcls-Ensures true bs =
    Ensures-expect Any err_io (fread 1 bs) _ io_ne
      (λ r e. Ensures-refuse Any _ err_corrupt _ _ corrupt_ne (λ c. goes any))

read_blk_header-Ensures : (file : List ℕ) → Ensures Any (read_blk_header file)
unfolding read_blk_header
read_blk_header-Ensures file = Ensures-expect Any err_corrupt (rd_le 4 file) _ corrupt_ne (λ m e0.
    Ensures-refuse Any _ err_corrupt _ _ corrupt_ne (λ c0.
      Ensures-expect Any err_io (fread 4 m.1) _ io_ne (λ hdr e1.
        Ensures-refuse Any _ err_corrupt _ _ corrupt_ne (λ c1.
          Ensures-expect Any err_io (rd_le 8 hdr.1) _ io_ne (λ cnt e2.
            Ensures-expect Any err_io (rd_le 8 cnt.1) _ io_ne (λ blk e3.
              Ensures-expect Any err_io (rd_le 8 blk.1) _ io_ne (λ nb e4.
                Ensures-expect Any err_io (fread 4 nb.1) _ io_ne (λ cls e5.
                  Ensures-expect Any err_io (rd_le 8 cls.1) _ io_ne (λ pb e6.
                    Ensures-bind Any Any (read_tcls _ pb.1) _ (read_tcls-Ensures _ pb.1) (λ t e7.
                      Ensures-refuse Any _ err_corrupt _ _ corrupt_ne (λ c2.
                        Ensures-refuse Any _ err_corrupt _ _ corrupt_ne (λ c3.
                          Ensures-refuse Any _ err_corrupt _ _ corrupt_ne
                            (λ c4. goes any)))))))))))))

pub row_parts :
    (n a b c d e : ℕ) → n * (2 + a + b + c + d + e) ≡ n + n + n * a + n * b + n * c + n * d + n * e
row_parts n a b c d e = grind arith

array_if-length :
    (has : Bool) (n : ℕ) (cls : ℤ) (bs : List ℕ)
    → length (array_if has n cls bs).1 ≡ length bs - n * (if has then md_bytes cls else 0)
array_if-length true n cls bs = length-drop (n * md_bytes cls) bs
array_if-length false n cls bs = let z = mul-zero n in omega (arith, z)

body_len-some : (b : Blocked) (k : ℕ) → body_len b ≡ some k → b.nblocks * row_bytes b + b.bytes ≡ k
unfolding body_len
body_len-some b k h = ground arith

-- What stands behind the arrays is as long as the header says.
rest-length :
    (b : Blocked) (body : List ℕ)
    → body_len b ≡ some (length body)
    → length (take_arrays b body).1 ≡ b.bytes
unfolding take_arrays
rest-length b body h =
    let n = b.nblocks in
    let m1 = md_bytes b.bcls in
    let m2 = md_bytes b.pcls in
    let m3 = md_bytes b.ocls in
    let m4 = md_bytes b.scls in
    let m5 = if b.has_stride then md_bytes b.tcls else 0 in
    let r1 = drop n (drop n body) in
    let r2 = drop (n * m1) r1 in
    let r3 = drop (n * m2) r2 in
    let r4 = drop (n * m3) r3 in
    let r5 = drop (n * m4) r4 in
    omega (
      arith,
      array_if-length b.has_stride n b.tcls r5,
      length-drop (n * m4) r4,
      length-drop (n * m3) r3,
      length-drop (n * m2) r2,
      length-drop (n * m1) r1,
      length-drop n (drop n body),
      length-drop n body,
      row_parts n m1 m2 m3 m4 m5,
      body_len-some b (length body) h,
    )

-- The reads of block `bi` stay inside the payload, and its stride is not zero.
abbrev pub IsInside : Blocked → ℕ → Type 0
IsInside b bi =
    (is_delta_class (get_or b.bclass bi 0) ≡ true)
    × (delta_width b bi ≢ 0
        → block_offset b bi + block_len b bi * delta_width b bi ≤ length b.payload)
    × (b.has_stride ≡ true → block_stride b bi ≢ 0)

three_parts : (x y z : Bool) → (x && not y && z) ≡ true → (x ≡ true) × (y ≡ false) × (z ≡ true)
three_parts true false true h = (refl, refl, refl)
three_parts true false false h = absurd (cc h)
three_parts true true z h = absurd (cc h)
three_parts false y z h = absurd (cc h)

both_false : (z x y : Bool) → z ≡ false → (z || not (x || y)) ≡ true → (x ≡ false) × (y ≡ false)
both_false true x y z h = absurd (cc z)
both_false false true y z h = absurd (cc h)
both_false false false true z h = absurd (cc h)
both_false false false false z h = (refl, refl)

in_reach :
    (cb bytes o len : ℕ)
    → cb / 8 ≢ 0
    → (cb == 0 || not (ltb bytes o || ltb ((bytes - o) / (cb / 8)) len)) ≡ true
    → (o ≤ bytes) × (len ≤ (bytes - o) / (cb / 8))
in_reach cb bytes o len nz h =
    let q = (bytes - o) / (cb / 8) in
    let z : (cb == 0) ≡ false = ground arith in
    let f = both_false (cb == 0) (ltb bytes o) (ltb q len) z h in
    (not_ltb bytes o f.0, not_ltb q len f.1)

nonzero_if :
    (has : Bool) (m : ℕ) → has ≡ true → (has && m == 0) ≡ false → (if has then m else 1) ≢ 0
nonzero_if true m h e z = absurd (cc (rw z at e))
nonzero_if false m h e z = absurd (cc h)

stride_nonzero :
    (b : Blocked) (bi : ℕ)
    → b.has_stride ≡ true
    → (b.has_stride && md_ru b.bstride b.tcls bi == 0) ≡ false
    → block_stride b bi ≢ 0
unfolding block_stride
stride_nonzero b bi = nonzero_if b.has_stride (md_ru b.bstride b.tcls bi)

fits-IsInside :
    (b : Blocked) (bi : ℕ) → length b.payload ≡ b.bytes → block_fits b bi ≡ true → IsInside b bi
unfolding block_fits block_stride
fits-IsInside b bi l h =
    let cb = get_or b.bclass bi 0 in
    let (c, st, reach) =
      three_parts (is_delta_class cb) (b.has_stride && md_ru b.bstride b.tcls bi == 0) _ h in
    (
      c,
      λ nz.
          let w = cb / 8 in
          let pos : 0 < w = omega arith in
          let r = in_reach cb b.bytes (block_offset b bi) (block_len b bi) nz reach in
          let m = (le-div_iff_mul-le pos).0 r.1 in omega (arith, m, r.0, l),
      λ has. stride_nonzero b bi has st,
    )

all_fit-IsInside :
    (b : Blocked) (n k : ℕ)
    → length b.payload ≡ b.bytes
    → all_fit b n k ≡ true
    → (i : ℕ) → k ≤ i
    → i < k + n
    → IsInside b i
unfolding all_fit
all_fit-IsInside b zero k l h i lo hi = absurd (omega arith)
all_fit-IsInside b (suc n) k l h i lo hi = elim (Bool-cases (block_fits b k)) [
  | inl t ↦ elim (Bool-cases (i == k)) [
    | inl e ↦ let same = eq_of_== i k e in rw same (fits-IsInside b k l t)
    | inr e ↦ all_fit-IsInside b n (k + 1) l (rw t at h) i (ground arith) (omega arith)
  ]
  | inr t ↦ absurd (cc (rw t at h))
]

unnegated : (x : Bool) → not x ≡ false → x ≡ true
unnegated true h = refl
unnegated false h = absurd (cc h)

abbrev read_length : Option (List ℕ × List ℕ) → ℕ
read_length none = 0
read_length (some r) = length r.0

fread-length :
    (n : ℕ) (file : List ℕ) (r : List ℕ × List ℕ) → fread n file ≡ some r → n ≡ length r.0
fread-length n file r h = elim (Bool-cases (leb n (length file))) [
  | inl t ↦
      let e : some (take n file, drop n file) ≡ some r = rw t at h in
      omega (arith, ap read_length e, length-take n file, leb→le n (length file) t)
  | inr t ↦ absurd (cc (rw t at h))
]

-- The check of a block does not read the payload.
pub all_fit-payload :
    (b : Blocked) (bs : List ℕ) (n k : ℕ) → all_fit (record b { payload = bs }) n k ≡ all_fit b n k
unfolding all_fit block_fits block_offset block_len
all_fit-payload b bs zero k = refl
all_fit-payload b bs (suc n) k = ap (λ t. block_fits b k && t) (all_fit-payload b bs n (k + 1))

abbrev pub AllInside : Blocked → Type 0
AllInside b = (i : ℕ) → i < b.nblocks → (length b.payload ≡ b.bytes) × IsInside b i

same_bytes : (b : Blocked) (body : List ℕ) → (take_arrays b body).0.bytes ≡ b.bytes
unfolding take_arrays
same_bytes b body = refl

fill_blocks-AllInside :
    (alloc : ℕ → Bool) (b : Blocked) (body : List ℕ)
    → body_len b ≡ some (length body)
    → Ensures AllInside (fill_blocks alloc b body)
unfolding fill_blocks
fill_blocks-AllInside alloc b body h =
    let (filled, rest) = take_arrays b body in
    let bytes = take b.bytes rest in
    Ensures-refuse AllInside _ err_oom _ _ oom_ne (λ c0.
      Ensures-refuse AllInside _ err_corrupt _ _ corrupt_ne (λ c1.
        Ensures-refuse AllInside _ err_oom _ _ oom_ne (λ c2. goes (λ i l.
          let len : length bytes ≡ b.bytes =
            omega (arith, length-take b.bytes rest, rest-length b body h) in
          (
            len ∙ sym (same_bytes b body),
            all_fit-IsInside (record filled { payload = bytes }) filled.nblocks 0
                (len ∙ sym (same_bytes b body))
                (all_fit-payload filled bytes filled.nblocks 0
                  ∙ unnegated (all_fit filled filled.nblocks 0) c1)
                i (omega arith) (omega arith),
          )))))

read_blk_body-Ensures :
    (seekable : Bool) (alloc : ℕ → Bool) (b : Blocked) (file : List ℕ)
    → Ensures (λ body. body_len b ≡ some (length body)) (read_blk_body seekable alloc b file)
unfolding read_blk_body
read_blk_body-Ensures seekable alloc b file =
    let P = λ (body : List ℕ). body_len b ≡ some (length body) in
    Ensures-expect P err_corrupt (body_len b) _ corrupt_ne (λ blen e0.
      Ensures-refuse P _ err_io _ _ io_ne (λ c0.
        Ensures-refuse P _ err_corrupt _ _ corrupt_ne (λ c1.
          Ensures-refuse P _ err_oom _ _ oom_ne (λ c2.
            Ensures-expect P err_io (fread blen file) _ io_ne (λ r e1.
              Ensures-expect P err_io (rd_le 4 r.1) _ io_ne (λ crc e2.
                Ensures-refuse P _ err_corrupt _ _ corrupt_ne (λ c3.
                  Ensures-refuse P _ err_corrupt _ _ corrupt_ne
                    (λ c4. goes (e0 ∙ ap some (fread-length blen file r e1))))))))))

load_blocks-AllInside :
    (seekable : Bool) (alloc : ℕ → Bool) (file : List ℕ)
    → Ensures AllInside (load_blocks seekable alloc file)
unfolding load_blocks
load_blocks-AllInside seekable alloc file =
    Ensures-bind Any AllInside (read_blk_header file) _ (read_blk_header-Ensures file)
      (λ r a. read_on r.0 r.1 (Bool-cases (r.0.nblocks == 0)))
  where
    read_on :
        (b : Blocked) (rest : List ℕ)
        → (b.nblocks == 0 ≡ true) ⊎ (b.nblocks == 0 ≡ false)
        → Ensures AllInside (elim (b.nblocks == 0) [
          | true ↦ next b
          | false ↦ read_blk_body seekable alloc b rest >>= fill_blocks alloc b
        ])
    read_on b rest (inl z) =
        let none_in = eq_of_== b.nblocks 0 z in rw z (goes (λ i l. absurd (omega arith)))
    read_on b rest (inr z) = rw z (
        Ensures-bind (λ body. body_len b ≡ some (length body)) AllInside
          (read_blk_body seekable alloc b rest) (fill_blocks alloc b)
          (read_blk_body-Ensures seekable alloc b rest) (fill_blocks-AllInside alloc b))

answer-AllInside :
    (m : Step Blocked) → Ensures AllInside m → (load_answer m).0 ≡ ok → AllInside (load_answer m).1
answer-AllInside (failed e b) (fails n) h = absurd (n h)
answer-AllInside (next b) (goes h) e = h

-- A file that `s2r_blocked_load` accepts gives a structure such that, for every block that it has,
-- the payload has the length that the header says, the deltas of the block lie inside the payload,
-- its class is one of the five and its stride is not zero. Nothing is said of a file without blocks.
pub blocked_load-AllInside :
    (seekable : Bool) (alloc : ℕ → Bool) (file : Option (List ℕ))
    → (blocked_load seekable alloc file).0 ≡ ok
    → AllInside (blocked_load seekable alloc file).1
unfolding blocked_load
blocked_load-AllInside seekable alloc none h = absurd (io_ne h)
blocked_load-AllInside seekable alloc (some file) h =
    answer-AllInside (load_blocks seekable alloc file) (load_blocks-AllInside seekable alloc file) h
