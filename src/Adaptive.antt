-- ===== src/Adaptive.antt =====
-- SELF-ADAPTIVE PUSH and the promoting operations of LAZY-CARRY ARITHMETIC of include/smart2raw.h:
-- the class is raised first.
pub mod Push
pub mod Exact
pub mod Session
pub mod Commit
use smart2raw.Base.{
  ltb, leb, ◌==◌, if◌then◌else◌, ℤ, ltb_ℤ, u64_max, wrap_add, wrap_mul, to_u64, ℕ, ◌-◌, ◌/◌, Bool,
  true, false, ◌&&◌, ◌||◌, not, none, some,
}
use smart2raw.Class.{
  abs_size, max_value, min_signed, max_signed, classify, classify_signed, classify_signed_range,
}
use smart2raw.Pool.{S2RError, Pool, width, is_signed, ok, err_oom, err_invalid_size}
use smart2raw.Push.{push}
use smart2raw.Scan.{max, min_signed_val, max_signed_val}
use smart2raw.Arith.{add_scalar, mul_scalar}
use smart2raw.Resize.{promote}
use smart2raw.Lazy.{
  retyped, Deferred, DeferredSigned, apply_ops, add_ovf_i64, mul_ovf_i64, min_ℤ, max_ℤ,
  apply_ops_signed,
}

module _ (alloc : ℕ → Bool) where
  -- `return s2r_push(p, v) ? S2R_OK : S2R_ERR_OOM`.
  unfoldable pub answered : Pool → ℕ → S2RError × Pool
  answered p v = let (done, r) = push alloc p v in if done then (ok, r) else (err_oom, r)

  unfoldable pub push_adaptive : Pool → ℕ → S2RError × Pool
  push_adaptive p v =
      let need = classify v in
      let (up, q) = promote alloc p need in
      if p.flags.readonly
      then (err_invalid_size, p)
      else if is_signed p
      then (err_invalid_size, p)
      else if ltb (max_value p.size) v
      then (if p.count == 0
          then answered (retyped p need) v
          else if up
          then answered q v
          else (err_oom, q))
      else answered p v

  unfoldable pub push_signed_adaptive : Pool → ℤ → S2RError × Pool
  push_signed_adaptive p v =
      let need = classify_signed v in
      let (up, q) = promote alloc p need in
      if p.flags.readonly
      then (err_invalid_size, p)
      else if not (is_signed p)
      then (err_invalid_size, p)
      else if ltb_ℤ v (min_signed p.size) || ltb_ℤ (max_signed p.size) v
      then (if p.count == 0
          then answered (retyped p need) (to_u64 v)
          else if ltb (width p) (abs_size need)
          then (if up then answered q (to_u64 v) else (err_oom, q))
          else answered p (to_u64 v))
      else answered p (to_u64 v)

  -- The bits of the class that the pool has now, or 0.
  unfoldable pub ensure_fits : Pool → ℕ → ℕ × Pool
  ensure_fits p needed_max =
      let req = classify needed_max in
      let (up, q) = promote alloc p req in
      if leb (abs_size req) (width p)
      then (width p, p)
      else if p.count == 0
      then (abs_size req, retyped p req)
      else if up
      then (abs_size req, q)
      else (0, q)

  unfoldable pub add_scalar_safe : Pool → ℕ → ℕ × Pool
  add_scalar_safe p s =
      let cmax = max p in
      let (bits, q) = ensure_fits p (wrap_add 64 cmax s) in
      if is_signed p
      then (0, p)
      else if p.count == 0
      then (width p, p)
      else if ltb (u64_max - cmax) s
      then (0, p)
      else if bits == 0
      then (0, q)
      else (width (add_scalar q s), add_scalar q s)

  unfoldable pub mul_scalar_safe : Pool → ℕ → ℕ × Pool
  mul_scalar_safe p s =
      let cmax = max p in
      let (bits, q) = ensure_fits p (wrap_mul 64 cmax s) in
      if is_signed p
      then (0, p)
      else if p.count == 0
      then (width p, p)
      else if not (cmax == 0) && ltb (u64_max / cmax) s
      then (0, p)
      else if bits == 0
      then (0, q)
      else (width (mul_scalar q s), mul_scalar q s)

  unfoldable pub defer_commit : Deferred → Pool → Bool × Pool
  defer_commit d p =
      let (bits, q) = ensure_fits p d.vmax in
      if d.overflow
      then (false, p)
      else if p.count == 0
      then (true, p)
      else if bits == 0
      then (false, q)
      else (true, apply_ops q d.ops)

  unfoldable pub ensure_fits_signed : Pool → ℤ → ℤ → ℕ × Pool
  ensure_fits_signed p lo hi =
      let req = classify_signed_range lo hi in
      let (up, q) = promote alloc p req in
      if not (is_signed p)
      then (0, p)
      else if leb (abs_size req) (width p)
      then (width p, p)
      else if p.count == 0
      then (abs_size req, retyped p req)
      else if up
      then (abs_size req, q)
      else (0, q)

  unfoldable pub add_scalar_signed_safe : Pool → ℤ → ℕ × Pool
  add_scalar_signed_safe p s =
      if not (is_signed p)
      then (0, p)
      else if p.count == 0
      then (width p, p)
      else elim (add_ovf_i64 (min_signed_val p) s) [
        | none ↦ (0, p)
        | some nlo ↦ elim (add_ovf_i64 (max_signed_val p) s) [
          | none ↦ (0, p)
          | some nhi ↦
              let (bits, q) = ensure_fits_signed p nlo nhi in
              if bits == 0
              then (0, q)
              else (width (add_scalar q (to_u64 s)), add_scalar q (to_u64 s))
        ]
      ]

  unfoldable pub mul_scalar_signed_safe : Pool → ℤ → ℕ × Pool
  mul_scalar_signed_safe p s =
      if not (is_signed p)
      then (0, p)
      else if p.count == 0
      then (width p, p)
      else elim (mul_ovf_i64 (min_signed_val p) s) [
        | none ↦ (0, p)
        | some p1 ↦ elim (mul_ovf_i64 (max_signed_val p) s) [
          | none ↦ (0, p)
          | some p2 ↦
              let (bits, q) = ensure_fits_signed p (min_ℤ p1 p2) (max_ℤ p1 p2) in
              if bits == 0
              then (0, q)
              else (width (mul_scalar q (to_u64 s)), mul_scalar q (to_u64 s))
        ]
      ]

  unfoldable pub defer_signed_commit : DeferredSigned → Pool → Bool × Pool
  defer_signed_commit d p =
      let (bits, q) = ensure_fits_signed p d.vmin d.vmax in
      if d.overflow
      then (false, p)
      else if p.count == 0
      then (true, p)
      else if bits == 0
      then (false, q)
      else (true, apply_ops_signed q d.ops)
