-- ===== src/Resize/Promote.antt =====
-- s2r_promote of include/smart2raw.h.
use smart2raw.Base.{
  if◌then◌else◌, Bool-cases, length, replicate, All, length-append, length-replicate,
  take-append_le, take-all, length-map, All-append, All-replicate, All-imp, All-map_of, ℤ, pos,
  u64_mod, IsWidth, IsWidth→is_width, sx, to_u64, width_bounds, pow_mono, wrap-lt, wrap_of_lt, Fits,
  sx-Fits, sx-wrap-to_u64, ℕ, ◌-◌, ◌*◌, ◌/◌, ◌%◌, ◌^◌, ◌≤◌, ◌<◌, ◌≡◌, refl, sym, ap, subst, ◌∙◌,
  ◌⊎◌, inl, inr, Bool, true, false, List, [], ◌∷◌, ◌++◌, map, arith,
}
use smart2raw.Class.{abs_size}
use smart2raw.Pool.{Flags, Pool, width, is_neg, is_signed, class_flags, live, read, read_signed}
use smart2raw.Pool.Valid.{IsValid, live-words, length-live, le-div_bytes, align_up_lem}
use smart2raw.Pool.Memory.{Requestable}
use smart2raw.Resize.{converted, class_bytes, recast_signed, recast, promotable, promote}
use smart2raw.Known.{key, values}

-- A converted buffer is valid in its class, whatever flags it gets.
converted-IsValid :
    (p : Pool) (f : ℕ → ℕ) (s : ℤ) (g : Flags)
    → IsValid p
    → IsWidth (abs_size s)
    → Requestable (abs_size s) p.count
    → ((x : ℕ) → f x < 2 ^ abs_size s)
    → let q = record (converted p f s (class_bytes p s)) { flags = g } in
      IsValid q × (live q ≡ map f (live p))
converted-IsValid p f s g v h r b =
    let w = abs_size s in
    let total = class_bytes p s in
    let e : p.count * (w / 8) % u64_mod ≡ p.count * (w / 8) = omega arith in
    let a = align_up_lem (p.count * (w / 8) % u64_mod) (omega arith) in
    let fits = le-div_bytes w h p.count total (omega (arith, e, a.0)) in
    let rest = total / (w / 8) - p.count in
    let m = length-map f (live p) in
    let l : length (map f (live p) ++ replicate rest 0) ≡ total / (w / 8) = omega (
      arith,
      length-append (map f (live p)) (replicate rest 0),
      length-replicate {A = ℕ} rest 0,
      length-live v,
      m,
    ) in
    (
      record {
        class = h;
        room = omega arith;
        cap_cells = rw l fits;
        cells_bytes = l;
        small = a.2;
        words =
            All-append (λ x. x < 2 ^ w) (map f (live p)) (replicate rest 0)
              (All-map_of f (λ x. x < 2 ^ w) b (live p))
              (All-replicate (λ x. x < 2 ^ w) rest 0 (omega (arith, width_bounds w h)));
      },
      take-append_le p.count (map f (live p)) (replicate rest 0) (omega (arith, length-live v, m))
          ∙ take-all p.count (map f (live p)) (omega (arith, length-live v, m)),
    )

promotable-IsWidth : (signed : Bool) (s : ℤ) → promotable signed s ≡ true → IsWidth (abs_size s)
promotable-IsWidth signed s h = ground arith

map_back :
    (g : ℕ → ℤ) (f : ℕ → ℕ) (h : ℕ → ℤ) (xs : List ℕ)
    → All (λ x. g (f x) ≡ h x) xs
    → map g (map f xs) ≡ map h xs
map_back g f h [] a = refl
map_back g f h (x ∷ xs) a = λ i. a.0 i ∷ map_back g f h xs a.1 i

promotable-sign : (signed : Bool) (s : ℤ) → promotable signed s ≡ true → is_neg s ≡ signed
promotable-sign signed s h = ground arith

-- The flag SIGNED agrees with the class.
abbrev pub SignAgrees : Pool → Type 0
SignAgrees p = p.flags.signed ≡ is_neg p.size

pub sign_of_class : (p : Pool) → SignAgrees p → is_signed p ≡ is_neg p.size
sign_of_class p h = ground arith

-- How the cells are cast.
abbrev pub caster : Pool → ℤ → ℕ → ℕ
caster p s = if is_signed p then recast_signed p s else recast p s

abbrev promoted : Pool → ℤ → Pool
promoted p s = record (converted p (caster p s) s (class_bytes p s)) { flags = class_flags s }

caster-lt : (p : Pool) (s : ℤ) → IsWidth (abs_size s) → (x : ℕ) → caster p s x < 2 ^ abs_size s
caster-lt p s h x = elim (Bool-cases (is_signed p)) [
  | inl e ↦ rw e (wrap-lt (abs_size s) (to_u64 (read_signed p x)) h)
  | inr e ↦ rw e (wrap-lt (abs_size s) (read p x) h)
]

Fits-mono : (v w : ℕ) → v ≤ w → (x : ℤ) → Fits v x → Fits w x
Fits-mono v w h x f = omega (arith, f, pow_mono v w h)

-- A cast cell stands for the same integer.
caster-key :
    (p : Pool) (s : ℤ)
    → IsValid p
    → SignAgrees p
    → promotable (is_signed p) s ≡ true
    → width p < abs_size s
    → (x : ℕ) → x < 2 ^ width p
    → key (promoted p s) (caster p s x) ≡ key p x
caster-key p s v g h k x b =
    let w = width p in
    let w' = abs_size s in
    let t = sign_of_class p g in
    let u = promotable-sign (is_signed p) s h in
    let i = IsWidth→is_width w' (promotable-IsWidth (is_signed p) s h) in
    let j = IsWidth→is_width w v.class in
    elim (Bool-cases (is_neg p.size)) [
      | inl n ↦
          rw (t ∙ n, n, u ∙ (t ∙ n), i, j)
            (sx-wrap-to_u64 w' (promotable-IsWidth (is_signed p) s h) (sx w x)
              (Fits-mono w w' (omega arith) (sx w x) (sx-Fits w x b)))
      | inr n ↦
          rw (t ∙ n, u ∙ (t ∙ n), i, j)
            (ap pos (wrap_of_lt w' x (omega (arith, pow_mono w w' (omega arith)))))
    ]

module _ (alloc : ℕ → Bool) (p : Pool) (s : ℤ) where
  promote_cases :
      let (done, q) = promote alloc p s in
      ((done ≡ true)
        × (q ≡ promoted p s)
        × (promotable (is_signed p) s ≡ true)
        × (width p < abs_size s))
      ⊎ ((done ≡ false) × (q ≡ p))
  unfolding promote
  promote_cases = ground arith

  abbrev Kept : Pool → Type 0
  Kept q =
      IsValid q
      × SignAgrees q
      × (q.size ≡ s)
      × (width p < abs_size s)
      × (values q ≡ values p)
      × (q.capacity ≡ p.count)

  -- On a valid pool whose flag SIGNED agrees with its class, where rounding the new buffer up does not
  -- pass SIZE_MAX, `s2r_promote` answers true and has left a valid pool of the wider class asked for
  -- with the values that it had and no room to spare, or answers false and changes nothing.
  pub promote_lem :
      IsValid p
      → SignAgrees p
      → Requestable (abs_size s) p.count
      → let (done, q) = promote alloc p s in
        ((done ≡ true)
          × IsValid q
          × SignAgrees q
          × (q.size ≡ s)
          × (width p < abs_size s)
          × (values q ≡ values p)
          × (q.capacity ≡ p.count))
        ⊎ ((done ≡ false) × (q ≡ p))
  promote_lem v g r = elim promote_cases [
    | inl h ↦
        let b = promotable-IsWidth (is_signed p) s h.2 in
        let c = converted-IsValid p (caster p s) s (class_flags s) v b r (caster-lt p s b) in
        let e =
          ap (map (key (promoted p s))) c.1
          ∙ map_back (key (promoted p s)) (caster p s) (key p) (live p) (
              All-imp (λ x. x < 2 ^ width p) (λ x. key (promoted p s) (caster p s x) ≡ key p x)
                (caster-key p s v g h.2 h.3) (live p) (live-words v)) in
        let k : Kept (promote alloc p s).1 = subst Kept (sym h.1) (c.0, refl, refl, h.3, e, refl) in
        inl (h.0, k.0, k.1, k.2, k.3, k.4, k.5)
    | inr h ↦ inr h
  ]
