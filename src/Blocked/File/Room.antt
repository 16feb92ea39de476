-- ===== src/Blocked/File/Room.antt =====
-- s2r_blocked_save of include/smart2raw.h on a disk that takes the file.
use smart2raw.Base.{
  leb, ◌==◌, if◌then◌else◌, length, ℕ, ◌+◌, ◌*◌, ◌≤◌, ◌<◌, ◌≡◌, refl, Bool, true, false, List, [],
  ◌∷◌, arith,
}
use smart2raw.Pool.{ok}
use smart2raw.Format.{magic_v33, le_bytes, Output, fwrite}
use smart2raw.Format.Bytes.{length-le_bytes}
use smart2raw.Format.File.{size_byte, payload_crc, and_write}
use smart2raw.Blocked.{Blocked}
use smart2raw.Blocked.File.{
  row_bytes, body_len, body_bytes, blk_stage, blk_header, class_bytes, write_blocks, blocked_save,
}
use smart2raw.Blocked.File.Stored.{IsStored}
use smart2raw.Blocked.File.Header.{len_fits}
use smart2raw.Blocked.File.Body.{body_length}

-- The writes so far have succeeded, and the disk takes `k` more bytes.
abbrev Left : ℕ → Bool × Output → Type 0
Left k r = (r.0 ≡ true) × (k ≤ r.1.room)

Left-fwrite : (k : ℕ) (f : Output) (bs : List ℕ) → length bs + k ≤ f.room → Left k (fwrite f bs)
Left-fwrite k f bs h =
    let e : leb (length bs) f.room ≡ true = ground arith in rw e (refl, omega arith)

Left-and :
    (k m : ℕ) (r : Bool × Output) (bs : List ℕ)
    → length bs + k ≤ m
    → Left m r
    → Left k (and_write r bs)
Left-and k m r bs h (e, l) = rw e (Left-fwrite k r.1 bs (omega arith))

Left-if :
    (k m : ℕ) (c : Bool) (r : Bool × Output) (bs : List ℕ)
    → length bs + k ≤ m
    → Left m r
    → Left k (if c then and_write r bs else r)
Left-if k m true r bs h l = Left-and k m r bs h l
Left-if k m false r bs h (e, l) = (e, omega arith)

Left-body :
    (k m : ℕ) (r : Bool × Output) (body : List ℕ)
    → length body + k ≤ m
    → Left m r
    → Left k (if length body == 0 then r else and_write r body)
Left-body k m r [] h (e, l) = (e, omega arith)
Left-body k m r (x ∷ xs) h l =
    let e : (length (x ∷ xs) == 0) ≡ false = ground arith in rw e (Left-and k m r (x ∷ xs) h l)

-- The file takes 49 bytes besides its body.
write_blocks-Left :
    (room : ℕ) (b : Blocked) (body : List ℕ)
    → 49 + length body ≤ room
    → (write_blocks room b body).0 ≡ true
unfolding write_blocks
write_blocks-Left room b body h =
    let start : Output = record { written = []; room = room } in
    let k8 = length body + 4 in
    let k7 = 1 + k8 in
    let crc = le_bytes 4 (payload_crc body) in
    let c = le_bytes 8 b.count in
    let z = le_bytes 8 b.block in
    let n = le_bytes 8 b.nblocks in
    let s = le_bytes 8 b.bytes in
    let m = le_bytes 4 magic_v33 in
    let l8 = length-le_bytes 8 in
    let l4 = length-le_bytes 4 in
    let h1 : Left (40 + k7) (fwrite start m) =
      Left-fwrite (40 + k7) start m (omega (arith, l4 magic_v33, h)) in
    let r2 = and_write (fwrite start m) (blk_header b) in
    let h2 : Left (36 + k7) r2 = Left-and (36 + k7) (40 + k7) _ (blk_header b) (omega arith) h1 in
    let r3 = and_write r2 c in
    let h3 : Left (28 + k7) r3 = Left-and (28 + k7) (36 + k7) r2 c (omega (arith, l8 b.count)) h2 in
    let r4 = and_write r3 z in
    let h4 : Left (20 + k7) r4 = Left-and (20 + k7) (28 + k7) r3 z (omega (arith, l8 b.block)) h3 in
    let r5 = and_write r4 n in
    let h5 : Left (12 + k7) r5 =
      Left-and (12 + k7) (20 + k7) r4 n (omega (arith, l8 b.nblocks)) h4 in
    let r6 = and_write r5 (class_bytes b) in
    let h6 : Left (8 + k7) r6 = Left-and (8 + k7) (12 + k7) r5 (class_bytes b) (omega arith) h5 in
    let r7 = and_write r6 s in
    let h7 : Left k7 r7 = Left-and k7 (8 + k7) r6 s (omega (arith, l8 b.bytes)) h6 in
    let t = size_byte b.tcls ∷ [] in
    let r8 = if b.has_stride then and_write r7 t else r7 in
    let h8 : Left k8 r8 = Left-if k8 k7 b.has_stride r7 t (omega arith) h7 in
    let r9 = if length body == 0 then r8 else and_write r8 body in
    let h9 : Left 4 r9 = Left-body 4 k8 r8 body (omega arith) h8 in
    (Left-and 0 4 r9 crc (omega (arith, l4 (payload_crc body))) h9).0

-- Where the buffer is granted, the file opens and the disk takes it, the save answers S2R_OK.
pub blocked_save-succeeds :
    (alloc : ℕ → Bool) (room : ℕ) (b : Blocked)
    → IsStored b
    → ((n : ℕ) → alloc n ≡ true)
    → 49 + (b.nblocks * row_bytes b + b.bytes) ≤ room
    → (blocked_save alloc true room b).0 ≡ ok
unfolding blocked_save blk_stage body_len
blocked_save-succeeds alloc room b v grants h =
    let per : 0 < row_bytes b = omega arith in
    let e = len_fits (row_bytes b) b.nblocks b.bytes per v.small in
    let len = b.nblocks * row_bytes b + b.bytes in
    let w = write_blocks-Left room b (body_bytes b) (omega (arith, body_length b v, h)) in
    let g = grants (if len == 0 then 1 else len) in rw (blocked_save, e, g, w) refl
