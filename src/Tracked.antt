-- ===== src/Tracked.antt =====
-- S2RTracked of include/smart2raw.h: a pool with its range at hand.
use smart2raw.Base.{ltb, ◌==◌, if◌then◌else◌, ℤ, u64_max, ℕ, Bool, true, false, ◌&&◌, not}
use smart2raw.Pool.{S2RError, Pool, pool_init, pool_free, ok}
use smart2raw.Scan.{min, max}
use smart2raw.Adaptive.{push_adaptive}

pub record Tracked : Type 0 where
  pub p : Pool
  pub umin : ℕ
  pub umax : ℕ
  pub dirty : Bool
  pub empty : Bool

module _ (alloc : ℕ → Bool) where
  unfoldable pub tracked_init : Tracked → ℤ → ℕ → Bool × Tracked
  tracked_init t size room =
      let (done, q) = pool_init alloc t.p size room in
      (done, record { p = q; umin = u64_max; umax = 0; dirty = false; empty = true })

  unfoldable pub tracked_push : Tracked → ℕ → S2RError × Tracked
  tracked_push t v =
      let (e, q) = push_adaptive alloc t.p v in
      elim e [
        | ok ↦ (
          ok,
          record {
            p = q;
            umin = if ltb v t.umin then v else t.umin;
            umax = if ltb t.umax v then v else t.umax;
            dirty = t.dirty;
            empty = false;
          },
        )
        | err ↦ (err, record t { p = q })
      ]

-- The two numbers that it writes through its pointers, and the record.
unfoldable pub tracked_range : Tracked → (ℕ × ℕ) × Tracked
tracked_range t =
    let fresh = record t { umin = min t.p; umax = max t.p; dirty = false } in
    let u = if t.dirty && not (t.p.count == 0) then fresh else t in
    ((if u.p.count == 0 then (0, 0) else (u.umin, u.umax)), u)

unfoldable pub tracked_free : Tracked → Tracked
tracked_free t = record t { p = pool_free t.p }
