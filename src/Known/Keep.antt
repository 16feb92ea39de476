-- ===== src/Known/Keep.antt =====
-- s2r_push of include/smart2raw.h: the flags SORTED and SUMMARY.
use smart2raw.Base.{
  if◌then◌else◌, length, get_or, get_or-take, length-map, All-of, get_or-map, ℤ, ◌≤ℤ◌, ltb_ℤ, wrap,
  wrap_add, sx, to_u64, wrap_add_of_lt, to_u64-lt, ℕ, ◌+◌, ◌-◌, ◌^◌, ◌<◌, ◌≡◌, refl, sym, ap, subst,
  subst₂, ◌∙◌, ◌⊎◌, inl, inr, Bool, true, List, [], ◌∷◌, ◌++◌, map, arith,
}
use smart2raw.Class.{max_from_ℤ, min_from_ℤ}
use smart2raw.Pool.{Pool, width, live, get, get_signed}
use smart2raw.Pool.Valid.{IsValid, length-live}
use smart2raw.Push.{keep_sorted, keep_summary, noted, store, push}
use smart2raw.Push.Append.{grow-SameFacts, Growable, push_lem}
use smart2raw.Known.{key, values, bound, AscendingFrom, Ascending, sum_u64, Current, IsKnown}
use smart2raw.Scan.Exact.{map-congr}
use smart2raw.Known.{key, values, bound, AscendingFrom, Ascending, sum_u64, Current, IsKnown}

AscendingFrom-append :
    (v : ℤ) (vs : List ℤ) (b : ℤ)
    → AscendingFrom v vs
    → get_or (v ∷ vs) (length vs) b ≤ℤ b
    → AscendingFrom v (vs ++ (b ∷ []))
AscendingFrom-append v [] b a h = (h, tt)
AscendingFrom-append v (w ∷ ws) b a h = (a.0, AscendingFrom-append w ws b a.1 h)

-- A value that is not below the last goes after it.
Ascending-append :
    (vs : List ℤ) (b : ℤ)
    → Ascending vs
    → ((i : ℕ) → i + 1 ≡ length vs → get_or vs i b ≤ℤ b)
    → Ascending (vs ++ (b ∷ []))
Ascending-append [] b a h = tt
Ascending-append (v ∷ vs) b a h = AscendingFrom-append v vs b a (h (length vs) (omega arith))

min_from_ℤ-append :
    (m : ℤ) (xs : List ℤ) (b : ℤ)
    → min_from_ℤ m (xs ++ (b ∷ [])) ≡ (if ltb_ℤ b (min_from_ℤ m xs) then b else min_from_ℤ m xs)
unfolding min_from_ℤ
min_from_ℤ-append m [] b = refl
min_from_ℤ-append m (x ∷ xs) b = min_from_ℤ-append (if ltb_ℤ x m then x else m) xs b

max_from_ℤ-append :
    (m : ℤ) (xs : List ℤ) (b : ℤ)
    → max_from_ℤ m (xs ++ (b ∷ [])) ≡ (if ltb_ℤ (max_from_ℤ m xs) b then b else max_from_ℤ m xs)
unfolding max_from_ℤ
max_from_ℤ-append m [] b = refl
max_from_ℤ-append m (x ∷ xs) b = max_from_ℤ-append (if ltb_ℤ m x then x else m) xs b

sum_u64-append :
    (acc : ℕ) (xs : List ℤ) (b : ℤ)
    → sum_u64 acc (xs ++ (b ∷ [])) ≡ wrap_add 64 (sum_u64 acc xs) (to_u64 b)
unfolding sum_u64
sum_u64-append acc [] b = refl
sum_u64-append acc (x ∷ xs) b = sum_u64-append (wrap_add 64 acc (to_u64 x)) xs b

Current-append :
    (lo hi : ℤ) (total : ℕ) (vs : List ℤ) (b : ℤ)
    → 0 < length vs
    → Current lo hi total vs
    → Current
        (if ltb_ℤ b lo then b else lo)
        (if ltb_ℤ hi b then b else hi)
        (wrap_add 64 total (to_u64 b))
        (vs ++ (b ∷ []))
Current-append lo hi total [] b h c = absurd (omega arith)
Current-append lo hi total (v ∷ vs) b h c = (
  ap (λ m. if ltb_ℤ b m then b else m) c.0 ∙ sym (min_from_ℤ-append v vs b),
  ap (λ m. if ltb_ℤ m b then b else m) c.1 ∙ sym (max_from_ℤ-append v vs b),
  ap (λ t. wrap_add 64 t (to_u64 b)) c.2 ∙ sym (sum_u64-append 0 (v ∷ vs) b),
)

Current-single :
    (vs : List ℤ) (b : ℤ) (v : ℕ) → length vs ≡ 0 → to_u64 b ≡ v → Current b b v (vs ++ (b ∷ []))
unfolding sum_u64 min_from_ℤ max_from_ℤ
Current-single [] b v h e =
    (refl, refl, omega (arith, e, wrap_add_of_lt 64 0 (to_u64 b) (omega (arith, to_u64-lt b))))
Current-single (w ∷ ws) b v h e = absurd (omega arith)

Current-same :
    {lo lo' hi hi' : ℤ} {total total' : ℕ} (vs : List ℤ)
    → lo ≡ lo'
    → hi ≡ hi'
    → total ≡ total'
    → Current lo' hi' total' vs
    → Current lo hi total vs
Current-same {lo} {lo'} {hi} {hi'} {total} {total'} vs a b c d =
    subst (λ x. Current x hi total vs) (sym a)
      (subst₂ (λ x t. Current lo' x t vs) (sym b) (sym c) d)

module _ (p q : Pool) (s : q.size ≡ p.size) (t : q.flags.signed ≡ p.flags.signed) where
  key_same : (x : ℕ) → key q x ≡ key p x
  key_same x = rw (s, t) refl

  bound_same : (x : ℕ) → bound q x ≡ bound p x
  bound_same x = rw (s, t) refl

-- The order flag that is left after the new value `v` is noted.
noted_order :
    (p : Pool) (v : ℕ)
    → (noted p v).flags.sorted ≡ true
    → (p.flags.sorted ≡ true)
      × ((p.count ≡ 0) ⊎ (key p (get_or p.cells (p.count - 1) 0) ≤ℤ bound p v))
unfolding noted keep_sorted keep_summary get get_signed
noted_order p v h = ground arith

-- The summary with the new value in it.
noted_extent :
    (p : Pool) (v : ℕ)
    → let n = noted p v in
      (n.size ≡ p.size)
      × (n.flags.signed ≡ p.flags.signed)
      × (n.flags.summary ≡ p.flags.summary)
      × (p.flags.summary ≡ true
          → ((p.count ≡ 0) × (n.smin ≡ v) × (n.smax ≡ v) × (n.ssum ≡ v))
            ⊎ (0 < p.count)
              × (bound p n.smin
                  ≡ (if ltb_ℤ (bound p v) (bound p p.smin) then bound p v else bound p p.smin))
              × (bound p n.smax
                  ≡ (if ltb_ℤ (bound p p.smax) (bound p v) then bound p v else bound p p.smax))
              × (n.ssum ≡ wrap_add 64 p.ssum v))
unfolding noted keep_sorted keep_summary
noted_extent p v = ground arith

-- What a push that appends leaves beside the elements.
push-noted :
    (alloc : ℕ → Bool) (p : Pool) (v : ℕ)
    → (push alloc p v).0 ≡ true
    → let q = (push alloc p v).1 in
      let n = noted p v in
      (q.size ≡ n.size)
      × (q.flags.signed ≡ n.flags.signed)
      × (q.flags.sorted ≡ n.flags.sorted)
      × (q.flags.summary ≡ n.flags.summary)
      × (q.smin ≡ n.smin)
      × (q.smax ≡ n.smax)
      × (q.ssum ≡ n.ssum)
unfolding push store
push-noted alloc p v h = ground (arith, grow-SameFacts alloc (noted p v))

-- A push keeps the class, also where it fails.
pub push_same :
    (alloc : ℕ → Bool) (p : Pool) (v : ℕ)
    → let q = (push alloc p v).1 in (q.size ≡ p.size) × (q.flags.signed ≡ p.flags.signed)
unfolding push store
push_same alloc p v = ground (arith, grow-SameFacts alloc (noted p v), noted_extent p v)

pub values_same :
    (p q : Pool)
    → q.size ≡ p.size
    → q.flags.signed ≡ p.flags.signed
    → live q ≡ live p
    → values q ≡ values p
values_same p q s t l =
    map-congr (key q) (key p) (live q)
      (All-of (λ x. key q x ≡ key p x) (λ x. key_same p q s t x) (live q))
    ∙ ap (map (key p)) l

map-append : (f : ℕ → ℤ) (xs : List ℕ) (x : ℕ) → map f (xs ++ (x ∷ [])) ≡ map f xs ++ (f x ∷ [])
map-append f [] x = refl
map-append f (y ∷ ys) x = ap (λ l. f y ∷ l) (map-append f ys x)

-- The bits of the value, from the integer that they stand for.
bits_of_bound : (p : Pool) (v : ℕ) → v < 2 ^ 64 → to_u64 (bound p v) ≡ v
unfolding to_u64 sx
bits_of_bound p v h = ground arith

module _ (alloc : ℕ → Bool) {p : Pool} (v : ℕ) (i : IsValid p) (g : Growable p) where
  module _ (fit : key p (wrap (width p) v) ≡ bound p v) (done : (push alloc p v).0 ≡ true) where
    same : ((push alloc p v).1.size ≡ p.size) × ((push alloc p v).1.flags.signed ≡ p.flags.signed)
    same = let a = push-noted alloc p v done in let b = noted_extent p v in (a.0 ∙ b.0, a.1 ∙ b.1)

    pushed_live : live (push alloc p v).1 ≡ live p ++ (wrap (width p) v ∷ [])
    pushed_live = elim (push_lem alloc p v i g).1 [ inl h ↦ h.1 | inr h ↦ absurd (cc (h.0, done)) ]

    pub pushed_values : values (push alloc p v).1 ≡ values p ++ (bound p v ∷ [])
    pushed_values =
        let q = (push alloc p v).1 in
        map-congr (key q) (key p) (live q)
          (All-of (λ x. key q x ≡ key p x) (λ x. key_same p q same.0 same.1 x) (live q))
        ∙ ap (map (key p)) pushed_live
        ∙ map-append (key p) (live p) (wrap (width p) v)
        ∙ ap (λ b. values p ++ (b ∷ [])) fit

    length-values : length (values p) ≡ p.count
    length-values = length-map (key p) (live p) ∙ length-live i

    pushed_order :
        IsKnown p → (noted p v).flags.sorted ≡ true → Ascending (values p ++ (bound p v ∷ []))
    pushed_order k s =
        let n = noted_order p v s in
        Ascending-append (values p) (bound p v) (k.order n.0) (λ j e. elim n.1 [
          | inl z ↦ absurd (omega (arith, length-values))
          | inr h ↦
              subst (λ x. x ≤ℤ bound p v)
                (sym (
                  get_or-map (key p) (live p) j 0 (bound p v)
                    (omega (arith, length-map (key p) (live p)))
                  ∙ ap (key p) (get_or-take p.count p.cells j 0 (omega (arith, length-values)))))
                (subst (λ x. key p (get_or p.cells x 0) ≤ℤ bound p v) (omega (arith, length-values))
                  h)
        ])

    pushed_extent :
        v < 2 ^ 64
        → IsKnown p
        → (noted p v).flags.summary ≡ true
        → let n = noted p v in
          Current (bound p n.smin) (bound p n.smax) n.ssum (values p ++ (bound p v ∷ []))
    pushed_extent b k s =
        let n = noted_extent p v in
        let e = sym n.2 ∙ s in
        elim (n.3 e) [
          | inl z ↦
              Current-same (values p ++ (bound p v ∷ [])) (ap (bound p) z.1) (ap (bound p) z.2) z.3
                (Current-single (values p) (bound p v) v (length-values ∙ z.0)
                  (bits_of_bound p v b))
          | inr f ↦
              Current-same (values p ++ (bound p v ∷ [])) f.1 f.2
                (f.3 ∙ ap (wrap_add 64 p.ssum) (sym (bits_of_bound p v b)))
                (Current-append (bound p p.smin) (bound p p.smax) p.ssum (values p) (bound p v)
                  (omega (arith, length-values)) (k.extent e))
        ]

    -- On a valid pool with a capacity below 2^60 whose flags SORTED and SUMMARY are true of its elements,
    -- a push of a value that the class holds, where it answers true, leaves the flags true.
    pub push-IsKnown : v < 2 ^ 64 → IsKnown p → IsKnown (push alloc p v).1
    push-IsKnown b k =
        let q = (push alloc p v).1 in
        let f = push-noted alloc p v done in
        let at = λ (x y : ℕ) (e : x ≡ y). bound_same p q same.0 same.1 x ∙ ap (bound p) e in
        record {
          order = λ s. subst Ascending (sym pushed_values) (pushed_order k (sym f.2 ∙ s));
          extent = λ s.
              subst (Current (bound q q.smin) (bound q q.smax) q.ssum) (sym pushed_values) (
                Current-same (values p ++ (bound p v ∷ [])) (at q.smin (noted p v).smin f.4)
                  (at q.smax (noted p v).smax f.5) f.6 (pushed_extent b k (sym f.3 ∙ s)));
        }
