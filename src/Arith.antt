-- ===== src/Arith.antt =====
-- ARITHMETIC, BITWISE, STREAMING / CONVERSION and UTILITY of include/smart2raw.h.
-- A loop over `data[0..count)` maps the elements in use and leaves the rest of the buffer.
pub mod Convert
use Prim.Native.Nat.{bit_and, bit_or, bit_xor}
use smart2raw.Base.{
  ◌==◌, if◌then◌else◌, length, drop, ℤ, is_width, wrap, wrap_add, wrap_sub, wrap_mul, to_u64, ℕ,
  zero, suc, ◌+◌, ◌-◌, ◌/◌, ◌^◌, ◌<◌, Bool, true, false, not, List, [], ◌∷◌, ◌++◌, map,
}
use smart2raw.Class.{s8, i8, abs_size, classify_array, classify_signed_array}
use smart2raw.Pool.{Pool, width, live, pool_init, get, touched, set}

-- `for (i = 0; i < n; i++) a[i] = f(a[i])`.
abbrev pub on_live : (ℕ → ℕ) → Pool → List ℕ
on_live f p = map f (live p) ++ drop p.count p.cells

-- The body of an in-place loop: nothing for an empty pool, nothing for another width.
abbrev pub each : Pool → (ℕ → ℕ) → Pool
each p f = if is_width (width p) then record p { cells = on_live f p } else p

unfoldable pub add_scalar : Pool → ℕ → Pool
add_scalar p s =
    let w = width p in if p.count == 0 then p else each (touched p) (λ a. wrap_add w a (wrap w s))

-- Neither the flags nor the epoch are touched here, nor by the bitwise operations and `fill`.
unfoldable pub sub_scalar : Pool → ℕ → Pool
sub_scalar p s =
    let w = width p in if p.count == 0 then p else each p (λ a. wrap_sub w a (wrap w s))

unfoldable pub mul_scalar : Pool → ℕ → Pool
mul_scalar p s =
    let w = width p in if p.count == 0 then p else each (touched p) (λ a. wrap_mul w a (wrap w s))

-- The callback is a function of the value; what it does through `ctx` is not kept.
unfoldable pub transform_from : (ℕ → ℕ) → ℕ → ℕ → Pool → Pool
transform_from fn zero i p = p
transform_from fn (suc rounds) i p = transform_from fn rounds (i + 1) (set p i (fn (get p i)))

unfoldable pub transform : Pool → (ℕ → ℕ) → Pool
transform p fn = if p.count == 0 then p else transform_from fn p.count 0 p

unfoldable pub xor_scalar : Pool → ℕ → Pool
xor_scalar p value = if p.count == 0 then p else each p (λ a. bit_xor a (wrap (width p) value))

unfoldable pub and_scalar : Pool → ℕ → Pool
and_scalar p value = if p.count == 0 then p else each p (λ a. bit_and a (wrap (width p) value))

unfoldable pub or_scalar : Pool → ℕ → Pool
or_scalar p value = if p.count == 0 then p else each p (λ a. bit_or a (wrap (width p) value))

unfoldable pub not_all : Pool → Pool
not_all p = if p.count == 0 then p else each p (λ a. 2 ^ width p - 1 - a)

unfoldable pub fill : Pool → ℕ → Pool
fill p value = if p.count == 0 then p else each p (λ a. wrap (width p) value)

-- What `s2r_to_array_any` writes to `arr`; another width leaves it alone.
unfoldable pub to_array_any : Pool → List ℕ → List ℕ
to_array_any p arr =
    if p.count == 0 then arr else if is_width (width p) then live p ++ drop p.count arr else arr

-- The first cells written, and `count` set.
abbrev pub loaded : Pool → List ℕ → Pool
loaded p xs = record p { cells = xs ++ drop (length xs) p.cells; count = length xs }

module _ (alloc : ℕ → Bool) where
  unfoldable pub from_array_auto : Pool → List ℕ → Bool × Pool
  from_array_auto p [] = pool_init alloc p s8 0
  from_array_auto p (x ∷ xs) =
      let arr = x ∷ xs in
      let sz = classify_array arr in
      let (done, q) = pool_init alloc p sz (length arr) in
      if done then (true, loaded q (map (wrap (abs_size sz)) arr)) else (false, q)

  unfoldable pub from_array_signed_auto : Pool → List ℤ → Bool × Pool
  from_array_signed_auto p [] = pool_init alloc p i8 0
  from_array_signed_auto p (x ∷ xs) =
      let arr = x ∷ xs in
      let sz = classify_signed_array arr in
      let (done, q) = pool_init alloc p sz (length arr) in
      if done then (true, loaded q (map (λ v. wrap (abs_size sz) (to_u64 v)) arr)) else (false, q)

  -- The summary fields are those of `pool_init`, the flags those of the source.
  unfoldable pub copy : Pool → Pool → Bool × Pool
  copy dst src =
      let (done, q) = pool_init alloc dst src.size src.count in
      if done
      then (
        true,
        record (loaded q (live src)) {
          count = src.count;
          flags = record (src.flags) { external = false };
        },
      )
      else (false, q)
