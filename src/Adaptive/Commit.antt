-- ===== src/Adaptive/Commit.antt =====
-- s2r_defer_commit of include/smart2raw.h.
use native.Mathlib.Nat.{add-mod, add-mod-mod, div-add-mod, mod-mod, mul-add-mod_self_left}
use smart2raw.Base.{
  ◌==◌, Bool-cases, All, All-imp, IsWidth, IsWidth→is_width, wrap, wrap_add, wrap_mul, wrap_of_lt,
  wrap_add-lt, wrap_mul-lt, ℕ, ◌+◌, ◌*◌, ◌/◌, ◌%◌, ◌^◌, ◌≤◌, ◌<◌, ◌≡◌, refl, sym, ap, subst, ◌∙◌,
  ◌⊎◌, inl, inr, Bool, true, false, List, [], ◌∷◌, ◌++◌, map, arith,
}
use smart2raw.Pool.{Pool, width, is_signed, live, touched}
use smart2raw.Pool.Valid.{IsValid, live-words}
use smart2raw.Scan.{max}
use smart2raw.Scan.Exact.{map-congr, live_of_zero}
use smart2raw.Arith.{each, add_scalar, mul_scalar}
use smart2raw.Lazy.{Op, defer_begin, apply_op, apply_ops, op_add, op_mul}
use smart2raw.Adaptive.{ensure_fits, defer_commit}
use smart2raw.Adaptive.Exact.{each-IsValid, max-bound, touched-IsValid, ensure_fits_lem, zero_test}
use smart2raw.Adaptive.Session.{
  replay, replay_mono, session, session-Tracks, begin-Tracks, session_ops,
}
use smart2raw.Arith.Convert.{wraps_back}

module _ (k : ℕ) where
  spread : (q r b : ℕ) → (k * q + r) * b ≡ k * (q * b) + r * b
  spread q r b = omega arith

  pub mod-mul : (a b : ℕ) → a * b % k ≡ a % k * b % k
  mod-mul a b =
      let d = div-add-mod a k in
      let e : a * b ≡ k * (a / k * b) + a % k * b =
        ap (λ x. x * b) (sym d) ∙ spread (a / k) (a % k) b in
      ap (λ x. x % k) e ∙ mul-add-mod_self_left k (a / k * b) (a % k * b)

  add_same : (a b s : ℕ) → a % k ≡ b % k → (a + s) % k ≡ (b + s) % k
  add_same a b s h = add-mod a s k ∙ ap (λ x. (x + s % k) % k) h ∙ sym (add-mod b s k)

  mul_same : (a b s : ℕ) → a % k ≡ b % k → a * s % k ≡ b * s % k
  mul_same a b s h = mod-mul a s ∙ ap (λ x. x * s % k) h ∙ sym (mod-mul b s)

  replay-same : (os : List Op) (a b : ℕ) → a % k ≡ b % k → replay os a % k ≡ replay os b % k
  unfolding replay
  replay-same [] a b h = h
  replay-same (op_add s ∷ os) a b h = replay-same os (a + s) (b + s) (add_same a b s h)
  replay-same (op_mul s ∷ os) a b h = replay-same os (a * s) (b * s) (mul_same a b s h)

-- The reduced step is the exact step, modulo 2^w.
step_add : (w x s : ℕ) → wrap_add w x (wrap w s) % 2 ^ w ≡ (x + s) % 2 ^ w
unfolding wrap_add wrap
step_add w x s = mod-mod (x + s % 2 ^ w) (2 ^ w) ∙ add-mod-mod x s (2 ^ w)

step_mul : (w x s : ℕ) → wrap_mul w x (wrap w s) % 2 ^ w ≡ x * s % 2 ^ w
unfolding wrap_mul wrap
step_mul w x s =
    mod-mod (x * (s % 2 ^ w)) (2 ^ w)
    ∙ ap (λ y. y % 2 ^ w) (omega arith)
    ∙ sym (mod-mul (2 ^ w) s x)
    ∙ ap (λ y. y % 2 ^ w) (omega arith)

map-map_as : (f g h : ℕ → ℕ) (xs : List ℕ) → ((x : ℕ) → g (f x) ≡ h x) → map g (map f xs) ≡ map h xs
map-map_as f g h [] e = refl
map-map_as f g h (x ∷ xs) e = λ i. e x i ∷ map-map_as f g h xs e i

-- One operation on a valid pool, reduced to the class.
abbrev Reduced : Pool → (ℕ → ℕ) → Pool → Type 0
Reduced p f q = IsValid q × (width q ≡ width p) × (live q ≡ map f (live p))

each-width : (p : Pool) (f : ℕ → ℕ) → IsWidth (width p) → width (each p f) ≡ width p
each-width p f h = rw (IsWidth→is_width (width p) h) refl

add-Reduced :
    (p : Pool) (s : ℕ)
    → IsValid p
    → Reduced p (λ x. wrap_add (width p) x (wrap (width p) s)) (add_scalar p s)
unfolding add_scalar
add-Reduced p s v = elim (Bool-cases (p.count == 0)) [
  | inl z ↦ simp (z) (v, refl, rw (live_of_zero p z) refl)
  | inr n ↦
      let w = width p in
      let e =
        each-IsValid (touched p) (λ x. wrap_add w x (wrap w s)) (touched-IsValid v)
          (λ x. wrap_add-lt w x (wrap w s) v.class) in
      simp (n) (e.0, each-width (touched p) (λ x. wrap_add w x (wrap w s)) v.class, e.1)
]

mul-Reduced :
    (p : Pool) (s : ℕ)
    → IsValid p
    → Reduced p (λ x. wrap_mul (width p) x (wrap (width p) s)) (mul_scalar p s)
unfolding mul_scalar
mul-Reduced p s v = elim (Bool-cases (p.count == 0)) [
  | inl z ↦ simp (z) (v, refl, rw (live_of_zero p z) refl)
  | inr n ↦
      let w = width p in
      let e =
        each-IsValid (touched p) (λ x. wrap_mul w x (wrap w s)) (touched-IsValid v)
          (λ x. wrap_mul-lt w x (wrap w s) v.class) in
      simp (n) (e.0, each-width (touched p) (λ x. wrap_mul w x (wrap w s)) v.class, e.1)
]

abbrev Replayed : List Op → Pool → Pool → Type 0
Replayed os p q = IsValid q × (live q ≡ map (λ x. wrap (width p) (replay os x)) (live p))

-- One more operation in front.
after :
    (os : List Op) (p q r : Pool) (f g : ℕ → ℕ)
    → Reduced p f q
    → Replayed os q r
    → ((x : ℕ) → replay os (f x) % 2 ^ width p ≡ replay os (g x) % 2 ^ width p)
    → IsValid r × (live r ≡ map (λ x. wrap (width p) (replay os (g x))) (live p))
unfolding wrap
after os p q r f g a b h = (
  b.0,
  b.1
      ∙ ap (λ w. map (λ x. wrap w (replay os x)) (live q)) a.1
      ∙ ap (map (λ x. wrap (width p) (replay os x))) a.2
      ∙ map-map_as f (λ x. wrap (width p) (replay os x)) (λ x. wrap (width p) (replay os (g x)))
          (live p) h,
)

apply_ops_lem : (os : List Op) (p : Pool) → IsValid p → Replayed os p (apply_ops p os)
unfolding apply_ops apply_op replay
apply_ops_lem [] p v = (v, sym (wraps_back (width p) (live p) (live-words v)))
apply_ops_lem (op_add s ∷ os) p v =
    let w = width p in
    let a = add-Reduced p s v in
    after os p (add_scalar p s) (apply_ops (add_scalar p s) os) (λ x. wrap_add w x (wrap w s))
      (λ x. x + s) a (apply_ops_lem os (add_scalar p s) a.0)
      (λ x. replay-same (2 ^ w) os (wrap_add w x (wrap w s)) (x + s) (step_add w x s))
apply_ops_lem (op_mul s ∷ os) p v =
    let w = width p in
    let a = mul-Reduced p s v in
    after os p (mul_scalar p s) (apply_ops (mul_scalar p s) os) (λ x. wrap_mul w x (wrap w s))
      (λ x. x * s) a (apply_ops_lem os (mul_scalar p s) a.0)
      (λ x. replay-same (2 ^ w) os (wrap_mul w x (wrap w s)) (x * s) (step_mul w x s))

-- Below the bound of the class nothing is reduced.
unreduced :
    (os : List Op) (w m : ℕ) (xs : List ℕ)
    → replay os m < 2 ^ w
    → All (λ x. x ≤ m) xs
    → map (λ x. wrap w (replay os x)) xs ≡ map (replay os) xs
unreduced os w m xs h a =
    map-congr (λ x. wrap w (replay os x)) (replay os) xs
      (All-imp (λ x. x ≤ m) (λ x. wrap w (replay os x) ≡ replay os x)
        (λ x k. wrap_of_lt w (replay os x) (omega (arith, replay_mono os x m k, h))) xs a)

begin_ops : (p : Pool) (os : List Op) → (defer_begin p).ops ++ os ≡ os
unfolding defer_begin
begin_ops p os = refl

-- On a valid unsigned pool whose buffer is below 2^60 bytes, the commit of a session of additions and
-- multiplications begun on the pool either applies all of them, in order, to every element without
-- reduction, whatever the intermediate results, and answers true, or answers false and changes nothing.
pub defer_commit-session :
    (alloc : ℕ → Bool) (p : Pool) (os : List Op)
    → IsValid p
    → p.byte_cap < 2 ^ 60
    → is_signed p ≡ false
    → let (done, q) = defer_commit alloc (session (defer_begin p) os) p in
      (done ≡ true) × IsValid q × (live q ≡ map (replay os) (live p)) ⊎ (done ≡ false) × (q ≡ p)
unfolding defer_commit
defer_commit-session alloc p os i b u =
    let d = session (defer_begin p) os in
    elim (Bool-cases d.overflow) [
      | inl o ↦ rw o (inr (refl, refl))
      | inr o ↦ elim (Bool-cases (p.count == 0)) [
        | inl z ↦ simp (o, z) (inl (refl, i, rw (live_of_zero p z) refl))
        | inr n ↦
            let t = session-Tracks (max p) (defer_begin p) os (begin-Tracks p i n) in
            let r = (session_ops (defer_begin p) os o).0 in
            elim (ensure_fits_lem alloc p d.vmax i b u n t.1) [
              | inr k ↦ rw (o, n, k.0) (inr (refl, k.1))
              | inl k ↦
                  let q = (ensure_fits alloc p d.vmax).1 in
                  let a = apply_ops_lem d.ops q k.1 in
                  rw (o, n, zero_test (ensure_fits alloc p d.vmax).0 k.0)
                    (inl (
                      refl,
                      a.0,
                      a.1
                          ∙ ap (map (λ x. wrap (width q) (replay d.ops x))) k.2
                          ∙ unreduced d.ops (width q) (max p) (live p)
                              (subst (λ y. y < 2 ^ width q) t.0 k.3) (max-bound i)
                          ∙ ap (λ l. map (replay l) (live p)) (r ∙ begin_ops p os),
                    ))
            ]
      ]
    ]
