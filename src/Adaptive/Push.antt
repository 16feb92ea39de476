-- ===== src/Adaptive/Push.antt =====
-- s2r_push_adaptive of include/smart2raw.h.
use smart2raw.Base.{
  ltb, ◌==◌, if◌then◌else◌, Bool-cases, length-replicate, All-replicate, ℤ, neg_part, pos, IsWidth,
  IsWidth→is_width, wrap, by_width, width_bounds, wrap_of_lt, ℕ, ◌/◌, ◌^◌, ◌≤◌, ◌<◌, ◌≡◌, refl, sym,
  ap, subst, ◌∙◌, ◌⊎◌, inl, inr, Bool, true, false, ◌||◌, List, [], ◌∷◌, ◌++◌, map, arith,
}
use smart2raw.Class.{abs_size, max_value, classify}
use smart2raw.Class.Least.{max_value-width, classify-least, neg_part-classify}
use smart2raw.Pool.{S2RError, Pool, width, is_neg, is_signed, ok, err_oom, err_invalid_size}
use smart2raw.Pool.Valid.{IsValid}
use smart2raw.Pool.Memory.{few-Requestable}
use smart2raw.Push.{push}
use smart2raw.Push.Append.{Growable, push_lem}
use smart2raw.Known.{key, values, bound, bound_unsigned}
use smart2raw.Known.Keep.{push_same, values_same, pushed_values}
use smart2raw.Resize.{recap_empty, promote}
use smart2raw.Resize.Promote.{promote_lem}
use smart2raw.Lazy.{retyped}
use smart2raw.Adaptive.{answered, push_adaptive}
use smart2raw.Scan.Exact.{live_of_zero}

abbrev pub Refused : S2RError → Type 0
Refused e = (e ≡ err_oom) ⊎ (e ≡ err_invalid_size)

-- The pool is valid; it holds the values `vs` and then `v`, or the values `vs` and the call has
-- refused.
abbrev pub Outcome : List ℤ → ℤ → S2RError × Pool → Type 0
Outcome vs v r =
    IsValid r.1 × ((r.0 ≡ ok) × (values r.1 ≡ vs ++ (v ∷ [])) ⊎ Refused r.0 × (values r.1 ≡ vs))

module _ (alloc : ℕ → Bool) where
  answered_cases :
      (p : Pool) (v : ℕ)
      → let (done, q) = push alloc p v in
        ((done ≡ true) × (answered alloc p v ≡ (ok, q)))
        ⊎ ((done ≡ false) × (answered alloc p v ≡ (err_oom, q)))
  unfolding answered
  answered_cases p v = ground arith

  -- What the class holds is appended, or nothing is.
  pub answered_lem :
      (p : Pool) (v : ℕ)
      → IsValid p
      → Growable p
      → key p (wrap (width p) v) ≡ bound p v
      → Outcome (values p) (bound p v) (answered alloc p v)
  answered_lem p v i g fit =
      let (done, q) = push alloc p v in
      let l = push_lem alloc p v i g in
      let s = push_same alloc p v in
      elim (answered_cases p v) [
        | inl h ↦
            subst (Outcome (values p) (bound p v)) (sym h.1)
              (l.0, inl (refl, pushed_values alloc v i g fit h.0))
        | inr h ↦ subst (Outcome (values p) (bound p v)) (sym h.1) (
          l.0,
          inr (
            inl refl,
            elim l.1 [ inl k ↦ absurd (cc (k.0, h.0)) | inr k ↦ values_same p q s.0 s.1 k.1 ],
          ),
        )
      ]

-- The words of a buffer, as the code counts them.
abbrev words_of : ℕ → ℕ → ℕ
words_of w b = if w / 8 == 0 || b == 0 then 0 else b / (w / 8)

abbrev WordsOf : ℕ → Type 0
WordsOf w = (b : ℕ) → (words_of w b ≡ b / (w / 8)) × (b / (w / 8) ≤ b)

words_of_lem : (w : ℕ) → IsWidth w → WordsOf w
words_of_lem =
    by_width WordsOf (λ b. ground arith) (λ b. ground arith) (λ b. ground arith) (λ b. ground arith)

-- An empty pool of another class over the same buffer.
pub retyped-IsValid :
    (p : Pool) (s : ℤ)
    → p.byte_cap < 2 ^ 60
    → (p.count == 0) ≡ true
    → IsWidth (abs_size s)
    → IsValid (retyped p s) × Growable (retyped p s)
unfolding recap_empty
retyped-IsValid p s b z h =
    let w = abs_size s in
    let r = words_of_lem w h p.byte_cap in
    let room = words_of w p.byte_cap in
    let l = length-replicate {A = ℕ} room 0 in
    (
      record {
        class = h;
        room = ground arith;
        cap_cells = omega (arith, l);
        cells_bytes = l ∙ r.0;
        small = omega arith;
        words = All-replicate (λ x. x < 2 ^ w) room 0 (omega (arith, width_bounds w h));
      },
      omega (arith, r),
    )

values_of_zero : (p : Pool) → (p.count == 0) ≡ true → values p ≡ []
values_of_zero p z = ap (map (key p)) (live_of_zero p z)

pub retyped-class :
    (p : Pool) (s : ℤ)
    → ((retyped p s).count ≡ p.count) × ((retyped p s).flags ≡ p.flags) × ((retyped p s).size ≡ s)
unfolding recap_empty
retyped-class p s = (refl, refl, refl)

-- A class that holds `v` stores it as it is.
fits_unsigned :
    (p : Pool) (v : ℕ)
    → IsValid p
    → is_signed p ≡ false
    → v ≤ max_value p.size
    → key p (wrap (width p) v) ≡ bound p v
fits_unsigned p v i u h =
    rw
      (
        u,
        wrap_of_lt (width p) v (omega (arith, max_value-width p.size i.class)),
        IsWidth→is_width (width p) i.class,
      )
      refl

pub Growable-of : (p : Pool) → IsValid p → p.byte_cap < 2 ^ 60 → Growable p
Growable-of p i b =
    omega (arith, i.cap_cells, i.cells_bytes, words_of_lem (width p) i.class p.byte_cap)

pub unsigned_of :
    (q : Pool) (v : ℕ) → q.size ≡ classify v → q.flags.signed ≡ false → is_signed q ≡ false
unsigned_of q v s t =
    let n : neg_part q.size ≡ 0 = ap neg_part s ∙ neg_part-classify v in ground arith

module _ (alloc : ℕ → Bool) (v : ℕ) where
  fitting_push :
      (q : Pool)
      → IsValid q
      → Growable q
      → is_signed q ≡ false
      → v ≤ max_value q.size
      → Outcome (values q) (pos v) (answered alloc q v)
  fitting_push q i g u h =
      subst (λ x. Outcome (values q) x (answered alloc q v)) (bound_unsigned q v u)
        (answered_lem alloc q v i g (fits_unsigned q v i u h))

  -- A pool of the class of `v`.
  classed_push :
      (q : Pool)
      → v < 2 ^ 64
      → IsValid q
      → Growable q
      → q.size ≡ classify v
      → q.flags.signed ≡ false
      → Outcome (values q) (pos v) (answered alloc q v)
  classed_push q f i g s t =
      fitting_push q i g (unsigned_of q v s t)
        (subst (λ x. v ≤ max_value x) (sym s) (classify-least v f).1)

  module _ (p : Pool) (i : IsValid p) (b : p.byte_cap < 2 ^ 60) (f : v < 2 ^ 64)
      (u : is_signed p ≡ false) where
    empty_push :
        (p.count == 0) ≡ true
        → Outcome (values p) (pos v) (answered alloc (retyped p (classify v)) v)
    empty_push z =
        let q = retyped p (classify v) in
        let c = retyped-class p (classify v) in
        let r = retyped-IsValid p (classify v) b z (classify-least v f).0 in
        subst (λ vs. Outcome vs (pos v) (answered alloc q v))
          (values_of_zero q (ap (λ n. n == 0) c.0 ∙ z) ∙ sym (values_of_zero p z))
          (classed_push q f r.0 r.1 c.2 (ap (λ g. g.signed) c.1 ∙ ground arith))

    promoted_push :
        (promote alloc p (classify v)).0 ≡ true
        → Outcome (values p) (pos v) (answered alloc (promote alloc p (classify v)).1 v)
    promoted_push e =
        let q = (promote alloc p (classify v)).1 in
        let n = Growable-of p i b in
        let r =
          few-Requestable (abs_size (classify v)) (classify-least v f).0 p.count
            (omega (arith, i.room)) in
        elim (promote_lem alloc p (classify v) i (ground arith) r) [
          | inl k ↦
              subst (λ vs. Outcome vs (pos v) (answered alloc q v)) k.5
                (classed_push q f k.1 (omega (arith, k.6, i.room)) k.3
                  (k.2 ∙ ap is_neg k.3 ∙ ground (arith, neg_part-classify v)))
          | inr k ↦ absurd (cc (k.0, e))
        ]

    unpromoted :
        (promote alloc p (classify v)).0 ≡ false
        → Outcome (values p) (pos v) (err_oom, (promote alloc p (classify v)).1)
    unpromoted e =
        let r =
          few-Requestable (abs_size (classify v)) (classify-least v f).0 p.count
            (omega (arith, i.room, Growable-of p i b)) in
        elim (promote_lem alloc p (classify v) i (ground arith) r) [
          | inl k ↦ absurd (cc (k.0, e))
          | inr k ↦
              subst (λ q. Outcome (values p) (pos v) (err_oom, q)) (sym k.1)
                (i, inr (inl refl, refl))
        ]

  -- On a valid pool whose buffer is below 2^60 bytes, `s2r_push_adaptive` of a uint64_t leaves a valid
  -- pool: it answers OK and the values are those before and then the new one, whole, whatever class it
  -- needs, or it refuses with OOM or INVALID_SIZE and the values are those before.
  pub push_adaptive_lem :
      (p : Pool)
      → IsValid p
      → p.byte_cap < 2 ^ 60
      → v < 2 ^ 64
      → Outcome (values p) (pos v) (push_adaptive alloc p v)
  unfolding push_adaptive
  push_adaptive_lem p i b f = elim (Bool-cases p.flags.readonly) [
    | inl e ↦ simp (e) (i, inr (inr refl, refl))
    | inr e ↦ elim (Bool-cases (is_signed p)) [
      | inl s ↦ simp (e, s) (i, inr (inr refl, refl))
      | inr u ↦ elim (Bool-cases (ltb (max_value p.size) v)) [
        | inr low ↦ simp (e, u, low) (fitting_push p i (Growable-of p i b) u (ground arith))
        | inl high ↦ elim (Bool-cases (p.count == 0)) [
          | inl z ↦ simp (e, u, high, z) (empty_push p i b f u z)
          | inr n ↦ elim (Bool-cases (promote alloc p (classify v)).0) [
            | inl up ↦ simp (e, u, high, n, up) (promoted_push p i b f u up)
            | inr stay ↦ simp (e, u, high, n, stay) (unpromoted p i b f u stay)
          ]
        ]
      ]
    ]
  ]
