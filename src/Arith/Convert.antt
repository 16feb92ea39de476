-- ===== src/Arith/Convert.antt =====
-- s2r_from_array_auto, s2r_from_array_signed_auto and s2r_to_array_any of include/smart2raw.h.
use smart2raw.Base.{
  ◌==◌, Bool-cases, length, take, drop, All, length-append, length-drop, take-append_le, take-all,
  length-map, All-append, All-drop, All-imp, All-of, All-map_of, ℤ, neg_part, IsWidth,
  IsWidth→is_width, wrap, sx, to_u64, wrap-lt, wrap_of_lt, Fits, sx-wrap-to_u64, ℕ, ◌^◌, ◌≤◌, ◌<◌,
  ◌≡◌, refl, sym, ap, subst, ◌∙◌, ◌⊎◌, inl, inr, Bool, true, false, List, [], ◌∷◌, ◌++◌, map, arith,
}
use smart2raw.Class.{s8, i8, abs_size, max_value, classify_array, classify_signed_array}
use smart2raw.Class.Least.{max_value-width, classify_array-least, classify_signed_array-least}
use smart2raw.Pool.{Pool, width, is_neg, live, pool_init, read_signed}
use smart2raw.Pool.Valid.{IsValid, length-live}
use smart2raw.Pool.Memory.{few-Requestable, pool_init-IsValid}
use smart2raw.Scan.{signed_elements}
use smart2raw.Arith.{to_array_any, loaded, from_array_auto, from_array_signed_auto}
use smart2raw.Scan.Exact.{map-congr, live_of_zero}

-- The cells written over the first ones of an empty valid pool.
pub loaded-IsValid :
    (q : Pool) (xs : List ℕ)
    → IsValid q
    → length xs ≤ q.capacity
    → All (λ x. x < 2 ^ width q) xs
    → IsValid (loaded q xs) × (live (loaded q xs) ≡ xs)
loaded-IsValid q xs v h a =
    let n = length xs in
    let l = length-append xs (drop n q.cells) in
    let d = length-drop n q.cells in
    (
      record {
        class = v.class;
        room = h;
        cap_cells = omega (arith, l, d, v.cap_cells);
        cells_bytes = omega (arith, l, d, v.cap_cells) ∙ v.cells_bytes;
        small = v.small;
        words =
            All-append (λ x. x < 2 ^ width q) xs (drop n q.cells) a
              (All-drop (λ x. x < 2 ^ width q) n q.cells v.words);
      },
      take-append_le n xs (drop n q.cells) (omega arith) ∙ take-all n xs (omega arith),
    )

-- Reading the array back gives what was written, over the start of `out`.
to_array_live :
    (q : Pool) (out : List ℕ)
    → IsValid q
    → to_array_any q out ≡ live q ++ drop (length (live q)) out
unfolding to_array_any
to_array_live q out v = elim (Bool-cases (q.count == 0)) [
  | inl z ↦ rw (z, live_of_zero q z) refl
  | inr n ↦ rw (n, IsWidth→is_width (width q) v.class, length-live v) refl
]

pub wraps_back : (w : ℕ) (xs : List ℕ) → All (λ x. x < 2 ^ w) xs → map (wrap w) xs ≡ xs
wraps_back w [] h = refl
wraps_back w (x ∷ xs) h = λ i. wrap_of_lt w x h.0 i ∷ wraps_back w xs h.1 i

module _ (alloc : ℕ → Bool) (p : Pool) (s : ℤ) (h : IsWidth (abs_size s)) where
  -- A new pool of class `s` with the elements `xs`.
  filled :
      (n : ℕ) (xs : List ℕ)
      → length xs ≡ n
      → n < 2 ^ 60
      → (pool_init alloc p s n).0 ≡ true
      → All (λ x. x < 2 ^ abs_size s) xs
      → let q = loaded (pool_init alloc p s n).1 xs in IsValid q × (live q ≡ xs) × (q.size ≡ s)
  filled n xs l few e a =
      let q = (pool_init alloc p s n).1 in
      let i = pool_init-IsValid alloc p s n h (few-Requestable (abs_size s) h n few) e in
      let f =
        loaded-IsValid q xs i.0 (omega arith)
          (subst (λ z. All (λ x. x < 2 ^ abs_size z) xs) (sym i.1) a) in
      (f.0, f.1, i.1)

  started :
      let r = pool_init alloc p s 0 in (r.0 ≡ true) × IsValid r.1 × (live r.1 ≡ []) × (r.1.size ≡ s)
  unfolding pool_init
  started =
      let e : (pool_init alloc p s 0).0 ≡ true = rw (IsWidth→is_width (abs_size s) h) refl in
      let i = pool_init-IsValid alloc p s 0 h (few-Requestable (abs_size s) h 0 (omega arith)) e in
      (e, i.0, ap (λ n. take n (pool_init alloc p s 0).1.cells) i.3, i.1)

signed_back :
    (w : ℕ)
    → IsWidth w
    → (xs : List ℤ) → All (Fits w) xs
    → map (sx w) (map (λ v. wrap w (to_u64 v)) xs) ≡ xs
signed_back w h [] f = refl
signed_back w h (x ∷ xs) f = λ i. sx-wrap-to_u64 w h x f.0 i ∷ signed_back w h xs f.1 i

read_as :
    (q : Pool) (s : ℤ)
    → q.size ≡ s
    → IsWidth (abs_size s)
    → 0 < neg_part s
    → (y : ℕ) → read_signed q y ≡ sx (abs_size s) y
read_as q s e h n y =
    let t : is_neg s ≡ true = ground arith in rw (e, t, IsWidth→is_width (abs_size s) h) refl

pub under_limit :
    (s : ℤ)
    → IsWidth (abs_size s)
    → (xs : List ℕ) → All (λ x. x ≤ max_value s) xs
    → All (λ x. x < 2 ^ abs_size s) xs
under_limit s h xs a =
    All-imp (λ x. x ≤ max_value s) (λ x. x < 2 ^ abs_size s)
      (λ x k. omega (arith, max_value-width s h)) xs a

abbrev pub Loaded : List ℕ → Bool × Pool → Type 0
Loaded arr r =
    (r.0 ≡ true) × IsValid r.1 × (live r.1 ≡ arr) × (r.1.size ≡ classify_array arr) ⊎ (r.0 ≡ false)

abbrev pub LoadedSigned : List ℤ → Bool × Pool → Type 0
LoadedSigned arr r =
    (r.0 ≡ true)
      × IsValid r.1
      × (signed_elements r.1 ≡ arr)
      × (r.1.size ≡ classify_signed_array arr)
    ⊎ (r.0 ≡ false)

module _ (alloc : ℕ → Bool) (p : Pool) where
  -- For an array of fewer than 2^60 numbers of 64 bits, `s2r_from_array_auto` gives a valid pool with the
  -- elements of the array, unchanged, in the class that `s2r_classify_array` picks, or answers false.
  pub from_array_auto_lem :
      (arr : List ℕ)
      → All (λ x. x < 2 ^ 64) arr
      → length arr < 2 ^ 60
      → Loaded arr (from_array_auto alloc p arr)
  unfolding from_array_auto classify_array
  from_array_auto_lem [] a few = inl (started alloc p s8 (omega arith))
  from_array_auto_lem (x ∷ xs) a few =
      let arr = x ∷ xs in
      let s = classify_array arr in
      let c = classify_array-least arr a in
      let t = under_limit s c.0 arr c.1 in
      elim (Bool-cases (pool_init alloc p s (length arr)).0) [
        | inr e ↦ rw e (inr refl)
        | inl e ↦
            let f = filled alloc p s c.0 (length arr) arr refl few e t in
            rw e (
              subst (λ ys. Loaded arr (true, loaded (pool_init alloc p s (length arr)).1 ys))
                (sym (wraps_back (abs_size s) arr t)) (inl (refl, f.0, f.1, f.2)))
      ]

  -- For an array of fewer than 2^60 int64_t values, `s2r_from_array_signed_auto` gives a valid pool whose
  -- elements, read as signed, are those of the array, in the class that `s2r_classify_signed_array`
  -- picks, or answers false.
  pub from_array_signed_auto_lem :
      (arr : List ℤ)
      → All (Fits 64) arr
      → length arr < 2 ^ 60
      → LoadedSigned arr (from_array_signed_auto alloc p arr)
  unfolding from_array_signed_auto classify_signed_array
  from_array_signed_auto_lem [] a few =
      let i = started alloc p i8 (omega arith) in
      inl (i.0, i.1, ap (map (read_signed (pool_init alloc p i8 0).1)) i.2, i.3)
  from_array_signed_auto_lem (x ∷ xs) a few =
      let arr = x ∷ xs in
      let s = classify_signed_array arr in
      let w = abs_size s in
      let c = classify_signed_array-least arr a in
      let bits = map (λ v. wrap w (to_u64 v)) arr in
      let t =
        All-map_of (λ v. wrap w (to_u64 v)) (λ y. y < 2 ^ w) (λ v. wrap-lt w (to_u64 v) c.0) arr in
      elim (Bool-cases (pool_init alloc p s (length arr)).0) [
        | inr e ↦ rw e (inr refl)
        | inl e ↦
            let f =
              filled alloc p s c.0 (length arr) bits (length-map (λ v. wrap w (to_u64 v)) arr) few e
                t in
            let q = loaded (pool_init alloc p s (length arr)).1 bits in
            rw e (
              inl (
                refl,
                f.0,
                ap (map (read_signed q)) f.1
                    ∙ map-congr (read_signed q) (sx w) bits
                        (All-of (λ y. read_signed q y ≡ sx w y) (read_as q s f.2 c.0 c.1) bits)
                    ∙ signed_back w c.0 arr c.2,
                f.2,
              ))
      ]

  -- An array of fewer than 2^60 numbers of 64 bits that `s2r_from_array_auto` takes is what
  -- `s2r_to_array_any` writes over the start of any array.
  pub to_array_any-from_array_auto :
      (arr out : List ℕ)
      → All (λ x. x < 2 ^ 64) arr
      → length arr < 2 ^ 60
      → (from_array_auto alloc p arr).0 ≡ true
      → to_array_any (from_array_auto alloc p arr).1 out ≡ arr ++ drop (length arr) out
  to_array_any-from_array_auto arr out a few e = elim (from_array_auto_lem arr a few) [
    | inl h ↦
        to_array_live (from_array_auto alloc p arr).1 out h.1
        ∙ ap (λ xs. xs ++ drop (length xs) out) h.2
    | inr h ↦ absurd (cc (h, e))
  ]
