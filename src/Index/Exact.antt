-- ===== src/Index/Exact.antt =====
-- s2r_index_build and s2r_index_count_range of include/smart2raw.h.
use smart2raw.Base.{
  leb, Bool-cases, length, get_or, length-map, All-imp, ℤ, pos_part, neg_part, ◌+ℤ◌, ◌≤ℤ◌, ltb_ℤ,
  leb_ℤ, pos, negsuc, IsWidth→is_width, wrap_sub, sx, to_u64, width_bounds, pow_mono,
  wrap_sub_of_le, Fits, sx-Fits, ℕ, ◌+◌, ◌^◌, ◌≤◌, ◌<◌, ◌≡◌, refl, sym, ap, subst, ◌∙◌, ◌≢◌, ◌⊎◌,
  inl, inr, Bool, true, false, ◌||◌, map, arith,
}
use smart2raw.Class.{min_signed}
use smart2raw.Class.Least.{signed-Limits}
use smart2raw.Pool.{Pool, width, is_neg, next_epoch, live, set}
use smart2raw.Pool.Valid.{IsValid, live-words, length-live, count-lt}
use smart2raw.Known.{key, values}
use smart2raw.Scan.{count_if, in_range_ℤ}
use smart2raw.Scan.Exact.{count_if-none, bit, count_if-add, count_if-le-length, count_if-map}
use smart2raw.Fast.{at_least, at_most}
use smart2raw.Resize.Promote.{SignAgrees, sign_of_class}
use smart2raw.Index.{
  Index, running, base_of, bin, binned, index_build, index_valid, top_of, index_count_range,
}
use smart2raw.Index.Table.{cumulative, length-cumulative}
use smart2raw.Fast.Signed.{range_bits}

-- `(size_t)(v - base)` of two int64_t.
abbrev diff : ℤ → ℤ → ℕ
diff v base = wrap_sub 64 (to_u64 v) (to_u64 base)

-- `n` is the distance from `base` up to `v`.
abbrev Apart : ℤ → ℤ → ℕ → Type 0
Apart v base n = n + pos_part base + neg_part v ≡ pos_part v + neg_part base

diff_lem : (v base : ℤ) → Fits 64 v → Fits 64 base → base ≤ℤ v → Apart v base (diff v base)
unfolding to_u64 wrap_sub
diff_lem (pos n) (pos m) f g h = omega arith
diff_lem (pos n) (negsuc m) f g h = omega arith
diff_lem (negsuc n) (pos m) f g h = absurd (omega arith)
diff_lem (negsuc n) (negsuc m) f g h = omega arith

top_lem :
    (base : ℤ) (n : ℕ)
    → 0 < n
    → let top = base +ℤ pos n +ℤ negsuc 0 in
      pos_part top + neg_part base + 1 ≡ pos_part base + n + neg_part top
unfolding ◌+ℤ◌
top_lem base n h = ground arith

top-Fits :
    (base top : ℤ) (size : ℕ)
    → Fits 64 base
    → 0 < size
    → size ≤ 2 ^ 16
    → pos_part base ≡ 0
    → pos_part top + neg_part base + 1 ≡ pos_part base + size + neg_part top
    → Fits 64 top
top-Fits base (pos n) size f o h z t = omega arith
top-Fits base (negsuc n) size f o h z t = omega arith

below_lo :
    (base lo y : ℤ) (n a : ℕ)
    → Apart y base n
    → Apart (at_least base lo) base a
    → leb (n + 1) a ≡ ltb_ℤ y lo
below_lo base lo y n a h k = ground arith

up_to_hi :
    (base top hi y : ℤ) (size n b : ℕ)
    → Apart y base n
    → n < size
    → pos_part top + neg_part base + 1 ≡ pos_part base + size + neg_part top
    → Apart (at_most top hi) base b
    → leb (n + 1) (b + 1) ≡ leb_ℤ y hi
up_to_hi base top hi y size n b h l t k = ground arith

missed :
    (base top lo hi y : ℤ) (size n : ℕ)
    → Apart y base n
    → n < size
    → pos_part top + neg_part base + 1 ≡ pos_part base + size + neg_part top
    → (ltb_ℤ hi base || ltb_ℤ top lo) ≡ true
    → in_range_ℤ lo hi y ≡ false
missed base top lo hi y size n h l t o = ground arith

-- The index that `index_build` leaves.
abbrev built : Pool → Index
built p = record {
  cum = running 0 (binned p);
  nbins = 2 ^ width p;
  epoch = p.epoch;
  size = p.size;
  base = base_of p;
}

built_lem :
    (alloc : ℕ → Bool) (p : Pool)
    → (index_build alloc p).0 ≡ true
    → ((index_build alloc p).1 ≡ built p) × (width p ≤ 16)
unfolding index_build
built_lem alloc p h = ground arith

module _ {p : Pool} (v : IsValid p) (g : SignAgrees p) (narrow : width p ≤ 16) where
  base-Fits :
      Fits 64 (base_of p) × (0 < 2 ^ width p) × (2 ^ width p ≤ 2 ^ 16) × (pos_part (base_of p) ≡ 0)
  base-Fits =
      let t = sign_of_class p g in
      let w = width_bounds (width p) v.class in
      let m = pow_mono (width p) 16 narrow in
      elim (Bool-cases (is_neg p.size)) [
        | inl n ↦
            let l = signed-Limits p.size (ground arith) v.class in
            rw (t ∙ n) (omega (arith, l, w, m))
        | inr n ↦ rw (t ∙ n) (omega (arith, w, m))
      ]

  -- A cell's bin is its distance from the least value of the class.
  bin_lem :
      (x : ℕ) → x < 2 ^ width p → Apart (key p x) (base_of p) (bin p x) × (bin p x < 2 ^ width p)
  unfolding bin
  bin_lem x b =
      let t = sign_of_class p g in
      let w = width_bounds (width p) v.class in
      let i = IsWidth→is_width (width p) v.class in
      elim (Bool-cases (is_neg p.size)) [
        | inl n ↦
            let l = signed-Limits p.size (ground arith) v.class in
            let f = sx-Fits (width p) x b in
            let d =
              diff_lem (sx (width p) x) (min_signed p.size) (omega (arith, f, w))
                (omega (arith, l, w)) (omega (arith, f, l)) in
            rw (t ∙ n, n, i) (d, omega (arith, d, f, l))
        | inr n ↦ rw (t ∙ n, i) (omega arith, b)
      ]

  place :
      (i : ℕ)
      → i < 2 ^ width p + 1
      → get_or (running 0 (binned p)) i 0 ≡ count_if (λ x. leb (bin p x + 1) i) (live p)
  place i h =
      cumulative (2 ^ width p + 1) (map (λ x. bin p x + 1) (live p)) i h
        (omega (arith, length-map (λ x. bin p x + 1) (live p), length-live v, count-lt v))
      ∙ count_if-map (λ k. leb k i) (λ x. bin p x + 1) (live p)

  built_valid : (q : Pool) → q.epoch ≡ p.epoch → q.size ≡ p.size → index_valid (built p) q ≡ true
  unfolding index_valid
  built_valid q e z =
      let l = length-cumulative (2 ^ width p + 1) (map (λ x. bin p x + 1) (live p)) in
      ground (arith, l, e, ap pos_part z, ap neg_part z)

  -- The window from bin `a` to bin `b`.
  window :
      (lo hi : ℤ) (a b : ℕ)
      → a ≤ b
      → b < 2 ^ width p
      → ((x : ℕ)
          → x < 2 ^ width p
          → bit (in_range_ℤ lo hi (key p x)) + bit (leb (bin p x + 1) a)
            ≡ bit (leb (bin p x + 1) (b + 1)))
      → wrap_sub 64 (get_or (running 0 (binned p)) (b + 1) 0) (get_or (running 0 (binned p)) a 0)
        ≡ count_if (in_range_ℤ lo hi) (values p)
  window lo hi a b h k e =
      let s =
        count_if-add (λ x. in_range_ℤ lo hi (key p x)) (λ x. leb (bin p x + 1) a)
          (λ x. leb (bin p x + 1) (b + 1)) (live p)
          (All-imp (λ x. x < 2 ^ width p)
            (λ x.
              bit (in_range_ℤ lo hi (key p x)) + bit (leb (bin p x + 1) a)
              ≡ bit (leb (bin p x + 1) (b + 1)))
            e (live p) (live-words v)) in
      let c = count_if-map (in_range_ℤ lo hi) (key p) (live p) in
      let m = count_if-le-length (λ x. leb (bin p x + 1) (b + 1)) (live p) in
      rw (place (b + 1) (omega arith), place a (omega arith))
        (wrap_sub_of_le 64 (count_if (λ x. leb (bin p x + 1) (b + 1)) (live p))
            (count_if (λ x. leb (bin p x + 1) a) (live p)) (omega (arith, s))
            (omega (arith, m, length-live v, count-lt v))
          ∙ omega (arith, s, c))

  range_of_bins :
      (lo hi : ℤ)
      → Fits 64 lo
      → Fits 64 hi
      → lo ≤ℤ hi
      → (ltb_ℤ hi (base_of p) || ltb_ℤ (top_of (built p)) lo) ≡ false
      → let a = diff (at_least (base_of p) lo) (base_of p) in
        let b = diff (at_most (top_of (built p)) hi) (base_of p) in
        wrap_sub 64 (get_or (running 0 (binned p)) (b + 1) 0) (get_or (running 0 (binned p)) a 0)
        ≡ count_if (in_range_ℤ lo hi) (values p)
  range_of_bins lo hi f h k o =
      let base = base_of p in
      let top = top_of (built p) in
      let n = base-Fits in
      let t = top_lem base (2 ^ width p) n.1 in
      let s : (base ≤ℤ hi) × (lo ≤ℤ top) = ground arith in
      let topFits : Fits 64 top = top-Fits base top (2 ^ width p) n.0 n.1 n.2 n.3 t in
      let lo' = at_least base lo in
      let hi' = at_most top hi in
      let da = diff_lem lo' base (ground arith) n.0 (ground arith) in
      let db = diff_lem hi' base (ground arith) n.0 (ground (arith, t)) in
      window lo hi (diff lo' base) (diff hi' base) (ground (arith, da, db, t))
        (ground (arith, db, t))
        (λ x b.
          let y = bin_lem x b in
          ap (λ z. bit (in_range_ℤ lo hi (key p x)) + bit z)
            (below_lo base lo (key p x) (bin p x) (diff lo' base) y.0 da)
          ∙ range_bits lo hi (key p x) k
          ∙ sym (
              ap bit (
                up_to_hi base top hi (key p x) (2 ^ width p) (bin p x) (diff hi' base) y.0 y.1 t
                  db)))

  outside :
      (lo hi : ℤ)
      → (ltb_ℤ hi (base_of p) || ltb_ℤ (top_of (built p)) lo) ≡ true
      → 0 ≡ count_if (in_range_ℤ lo hi) (values p)
  outside lo hi o =
      let base = base_of p in
      let top = top_of (built p) in
      let t = top_lem base (2 ^ width p) base-Fits.1 in
      sym (
        count_if-map (in_range_ℤ lo hi) (key p) (live p)
        ∙ count_if-none (λ x. in_range_ℤ lo hi (key p x)) (live p)
            (All-imp (λ x. x < 2 ^ width p) (λ x. in_range_ℤ lo hi (key p x) ≡ false)
              (λ x b.
                let y = bin_lem x b in
                missed base top lo hi (key p x) (2 ^ width p) (bin p x) y.0 y.1 t o)
              (live p) (live-words v)))

-- On a valid pool of 8 or 16 bits whose flag SIGNED agrees with its class, the index built from it
-- answers `lo..hi`, two int64_t in order, with the number of the values in the range, and says that it
-- could.
pub index_count_range-exact :
    (alloc : ℕ → Bool) (p : Pool) (lo hi : ℤ)
    → IsValid p
    → SignAgrees p
    → (index_build alloc p).0 ≡ true
    → Fits 64 lo
    → Fits 64 hi
    → lo ≤ℤ hi
    → index_count_range (index_build alloc p).1 p lo hi
      ≡ (count_if (in_range_ℤ lo hi) (values p), true)
unfolding index_count_range
index_count_range-exact alloc p lo hi v g e f h k =
    let b = built_lem alloc p e in
    let u = built_valid v g b.1 p refl refl in
    let c : ltb_ℤ hi lo ≡ false = ground arith in
    subst (λ ix. index_count_range ix p lo hi ≡ (count_if (in_range_ℤ lo hi) (values p), true))
      (sym b.0)
      (elim (Bool-cases (ltb_ℤ hi (base_of p) || ltb_ℤ (top_of (built p)) lo)) [
        | inl o ↦ rw (u, c, o) (ap (λ n. (n, true)) (outside v g b.1 lo hi o))
        | inr o ↦ rw (u, c, o) (ap (λ n. (n, true)) (range_of_bins v g b.1 lo hi f h k o))
      ])

build_epoch :
    (alloc : ℕ → Bool) (p : Pool)
    → let ix = (index_build alloc p).1 in (length ix.cum ≡ 0) ⊎ (ix.epoch ≡ p.epoch)
unfolding index_build
build_epoch alloc p = ground arith

set_epoch : (p : Pool) (i v : ℕ) → (set p i v).epoch ≡ next_epoch p.epoch
unfolding set
set_epoch p i v = ground arith

invalid :
    (ix : Index) (q : Pool) → (length ix.cum ≡ 0) ⊎ (ix.epoch ≢ q.epoch) → index_valid ix q ≡ false
unfolding index_valid
invalid ix q h = ground arith

-- An index built before a write through `s2r_set`, which moves the epoch on, refuses every range.
pub index_count_range-stale :
    (alloc : ℕ → Bool) (p : Pool) (i v : ℕ) (lo hi : ℤ)
    → p.epoch < 2 ^ 32
    → index_count_range (index_build alloc p).1 (set p i v) lo hi ≡ (0, false)
unfolding index_count_range
index_count_range-stale alloc p i v lo hi h =
    let e = set_epoch p i v in
    let c : (length (index_build alloc p).1.cum ≡ 0)
        ⊎ ((index_build alloc p).1.epoch ≢ (set p i v).epoch) =
      elim (build_epoch alloc p) [
        | inl z ↦ inl z
        | inr z ↦ inr (λ w. absurd (omega (arith, e, w, z)))
      ] in
    rw (invalid (index_build alloc p).1 (set p i v) c) refl
