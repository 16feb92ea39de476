-- ===== src/Adaptive/Session.antt =====
-- The calls of a deferred session of include/smart2raw.h.
use native.Mathlib.Nat.{mul-le-mul_right}
use smart2raw.Base.{
  ltb, leb, ◌==◌, Bool-cases, length, u64_max, ℕ, ◌+◌, ◌*◌, ◌/◌, ◌^◌, ◌≤◌, ◌<◌, ◌≡◌, refl, sym, ap,
  ◌∙◌, inl, inr, true, false, ◌&&◌, not, List, [], ◌∷◌, ◌++◌, arith,
}
use smart2raw.Pool.{Pool}
use smart2raw.Pool.Valid.{IsValid}
use smart2raw.Scan.{max}
use smart2raw.Lazy.{Op, defer_max_ops, Deferred, defer_begin, defer_add, defer_mul, op_add, op_mul}
use smart2raw.Adaptive.Exact.{max-lt, product_fits}

-- What the operations of a session make of a number.
unfoldable pub replay : List Op → ℕ → ℕ
replay [] x = x
replay (op_add s ∷ os) x = replay os (x + s)
replay (op_mul s ∷ os) x = replay os (x * s)

replay-append_add : (os : List Op) (s x : ℕ) → replay (os ++ (op_add s ∷ [])) x ≡ replay os x + s
unfolding replay
replay-append_add [] s x = refl
replay-append_add (op_add t ∷ os) s x = replay-append_add os s (x + t)
replay-append_add (op_mul t ∷ os) s x = replay-append_add os s (x * t)

replay-append_mul : (os : List Op) (s x : ℕ) → replay (os ++ (op_mul s ∷ [])) x ≡ replay os x * s
unfolding replay
replay-append_mul [] s x = refl
replay-append_mul (op_add t ∷ os) s x = replay-append_mul os s (x + t)
replay-append_mul (op_mul t ∷ os) s x = replay-append_mul os s (x * t)

-- No element goes above the bound that the session keeps.
pub replay_mono : (os : List Op) (x y : ℕ) → x ≤ y → replay os x ≤ replay os y
unfolding replay
replay_mono [] x y h = h
replay_mono (op_add s ∷ os) x y h = replay_mono os (x + s) (y + s) (omega arith)
replay_mono (op_mul s ∷ os) x y h = replay_mono os (x * s) (y * s) (mul-le-mul_right s h)

-- The bound of a session over elements that are at most `m`.
abbrev pub Tracks : ℕ → Deferred → Type 0
Tracks m d = (d.vmax ≡ replay d.ops m) × (d.vmax < 2 ^ 64)

defer_add-Tracks : (m : ℕ) (d : Deferred) (s : ℕ) → Tracks m d → Tracks m (defer_add d s)
unfolding defer_add
defer_add-Tracks m d s t = ground (arith, replay-append_add d.ops s m)

defer_mul-Tracks : (m : ℕ) (d : Deferred) (s : ℕ) → Tracks m d → Tracks m (defer_mul d s)
unfolding defer_mul
defer_mul-Tracks m d s t = elim (Bool-cases (leb defer_max_ops (length d.ops))) [
  | inl e ↦ rw e t
  | inr e ↦ elim (Bool-cases (not (d.vmax == 0) && ltb (u64_max / d.vmax) s)) [
    | inl o ↦ rw (e, o) t
    | inr o ↦
        rw (e, o) (ap (λ x. x * s) t.0 ∙ sym (replay-append_mul d.ops s m), product_fits d.vmax s o)
  ]
]

-- The calls of a session, in order.
unfoldable pub request : Deferred → Op → Deferred
request d (op_add s) = defer_add d s
request d (op_mul s) = defer_mul d s

unfoldable pub session : Deferred → List Op → Deferred
session d [] = d
session d (o ∷ os) = session (request d o) os

pub session-Tracks : (m : ℕ) (d : Deferred) (os : List Op) → Tracks m d → Tracks m (session d os)
unfolding session request
session-Tracks m d [] t = t
session-Tracks m d (op_add s ∷ os) t =
    session-Tracks m (defer_add d s) os (defer_add-Tracks m d s t)
session-Tracks m d (op_mul s ∷ os) t =
    session-Tracks m (defer_mul d s) os (defer_mul-Tracks m d s t)

pub begin-Tracks : (p : Pool) → IsValid p → (p.count == 0) ≡ false → Tracks (max p) (defer_begin p)
unfolding defer_begin replay
begin-Tracks p i n = rw n (refl, max-lt i)

-- Overflow stays, and without it every call is recorded.
request_overflow : (d : Deferred) (o : Op) → d.overflow ≡ true → (request d o).overflow ≡ true
unfolding request defer_add defer_mul
request_overflow d (op_add s) e = ground arith
request_overflow d (op_mul s) e = ground arith

request_ops :
    (d : Deferred) (o : Op)
    → (request d o).overflow ≡ false
    → ((request d o).ops ≡ d.ops ++ (o ∷ [])) × (d.overflow ≡ false)
unfolding request defer_add defer_mul
request_ops d (op_add s) e = ground arith
request_ops d (op_mul s) e = ground arith

append_nil : (xs : List Op) → xs ++ [] ≡ xs
append_nil [] = refl
append_nil (x ∷ xs) = ap (λ l. x ∷ l) (append_nil xs)

append_assoc : (xs : List Op) (y : Op) (ys : List Op) → (xs ++ (y ∷ [])) ++ ys ≡ xs ++ (y ∷ ys)
append_assoc [] y ys = refl
append_assoc (x ∷ xs) y ys = ap (λ l. x ∷ l) (append_assoc xs y ys)

pub session_ops :
    (d : Deferred) (os : List Op)
    → (session d os).overflow ≡ false
    → ((session d os).ops ≡ d.ops ++ os) × (d.overflow ≡ false)
unfolding session
session_ops d [] e = (sym (append_nil d.ops), e)
session_ops d (o ∷ os) e =
    let h = session_ops (request d o) os e in
    let k = request_ops d o h.1 in (h.0 ∙ ap (λ l. l ++ os) k.0 ∙ append_assoc d.ops o os, k.1)
