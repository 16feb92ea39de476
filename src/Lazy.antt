-- ===== src/Lazy.antt =====
-- The deferred sessions of LAZY-CARRY ARITHMETIC, unsigned and signed, of include/smart2raw.h.
-- A session points at its pool; here the pool is handed to the commit, in Adaptive.
use smart2raw.Base.{
  ltb, leb, ◌==◌, if◌then◌else◌, length, ℤ, pos_part, neg_part, ◌+ℤ◌, ◌*ℤ◌, ltb_ℤ, pos, u64_max,
  to_u64, ℕ, ◌+◌, ◌-◌, ◌*◌, ◌/◌, ◌^◌, Bool, true, false, ◌&&◌, ◌||◌, not, Option, none, some, List,
  [], ◌∷◌, ◌++◌,
}
use smart2raw.Pool.{Pool}
use smart2raw.Scan.{max, min_signed_val, max_signed_val}
use smart2raw.Arith.{add_scalar, mul_scalar}
use smart2raw.Resize.{recap_empty}

-- `p->size = need; s2r__recap_empty(p)`.
abbrev pub retyped : Pool → ℤ → Pool
retyped p need = recap_empty (record p { size = need })

pub data Op : Type 0 where
  op_add op_mul : ℕ → Op

pub data OpSigned : Type 0 where
  op_add_signed op_mul_signed : ℤ → OpSigned

-- S2R_DEFER_MAX_OPS.
abbrev pub defer_max_ops : ℕ
defer_max_ops = 64

-- `op[0..n)` and `arg[0..n)` as one list.
pub record Deferred : Type 0 where
  pub vmax : ℕ
  pub ops : List Op
  pub overflow : Bool

pub record DeferredSigned : Type 0 where
  pub vmin : ℤ
  pub vmax : ℤ
  pub ops : List OpSigned
  pub overflow : Bool

unfoldable pub defer_begin : Pool → Deferred
defer_begin p = record { vmax = if p.count == 0 then 0 else max p; ops = []; overflow = false }

unfoldable pub defer_add : Deferred → ℕ → Deferred
defer_add d s =
    if leb defer_max_ops (length d.ops) || ltb (u64_max - d.vmax) s
    then record d { overflow = true }
    else record d { vmax = d.vmax + s; ops = d.ops ++ (op_add s ∷ []) }

unfoldable pub defer_mul : Deferred → ℕ → Deferred
defer_mul d s =
    if leb defer_max_ops (length d.ops)
    then record d { overflow = true }
    else if not (d.vmax == 0) && ltb (u64_max / d.vmax) s
    then record d { overflow = true }
    else record d { vmax = d.vmax * s; ops = d.ops ++ (op_mul s ∷ []) }

unfoldable pub apply_op : Pool → Op → Pool
apply_op p (op_add s) = add_scalar p s
apply_op p (op_mul s) = mul_scalar p s

unfoldable pub apply_ops : Pool → List Op → Pool
apply_ops p [] = p
apply_ops p (o ∷ os) = apply_ops (apply_op p o) os

-- `__builtin_add_overflow` and `__builtin_mul_overflow`: the exact result, if it is an int64_t.
abbrev pub fits_i64 : ℤ → Bool
fits_i64 v = ltb (pos_part v) (2 ^ 63) && leb (neg_part v) (2 ^ 63)

unfoldable pub add_ovf_i64 : ℤ → ℤ → Option ℤ
add_ovf_i64 a b = if fits_i64 (a +ℤ b) then some (a +ℤ b) else none

unfoldable pub mul_ovf_i64 : ℤ → ℤ → Option ℤ
mul_ovf_i64 a b = if fits_i64 (a *ℤ b) then some (a *ℤ b) else none

abbrev pub min_ℤ : ℤ → ℤ → ℤ
min_ℤ a b = if ltb_ℤ a b then a else b

abbrev pub max_ℤ : ℤ → ℤ → ℤ
max_ℤ a b = if ltb_ℤ b a then a else b

unfoldable pub defer_signed_begin : Pool → DeferredSigned
defer_signed_begin p = record {
  vmin = if p.count == 0 then pos 0 else min_signed_val p;
  vmax = if p.count == 0 then pos 0 else max_signed_val p;
  ops = [];
  overflow = false;
}

abbrev pub overflowed : DeferredSigned → DeferredSigned
overflowed d = record d { overflow = true }

unfoldable pub defer_signed_add : DeferredSigned → ℤ → DeferredSigned
defer_signed_add d s =
    if leb defer_max_ops (length d.ops) then overflowed d else elim (add_ovf_i64 d.vmin s) [
      | none ↦ overflowed d
      | some nlo ↦ elim (add_ovf_i64 d.vmax s) [
        | none ↦ overflowed d
        | some nhi ↦ record d { vmin = nlo; vmax = nhi; ops = d.ops ++ (op_add_signed s ∷ []) }
      ]
    ]

unfoldable pub defer_signed_mul : DeferredSigned → ℤ → DeferredSigned
defer_signed_mul d s =
    if leb defer_max_ops (length d.ops) then overflowed d else elim (mul_ovf_i64 d.vmin s) [
      | none ↦ overflowed d
      | some p1 ↦ elim (mul_ovf_i64 d.vmax s) [
        | none ↦ overflowed d
        | some p2 ↦ record d {
          vmin = min_ℤ p1 p2;
          vmax = max_ℤ p1 p2;
          ops = d.ops ++ (op_mul_signed s ∷ []);
        }
      ]
    ]

unfoldable pub apply_op_signed : Pool → OpSigned → Pool
apply_op_signed p (op_add_signed s) = add_scalar p (to_u64 s)
apply_op_signed p (op_mul_signed s) = mul_scalar p (to_u64 s)

unfoldable pub apply_ops_signed : Pool → List OpSigned → Pool
apply_ops_signed p [] = p
apply_ops_signed p (o ∷ os) = apply_ops_signed (apply_op_signed p o) os
