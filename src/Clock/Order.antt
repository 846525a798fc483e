-- ===== src/Clock/Order.antt =====
-- The revisions that a clock issues lie above all that it has seen.
use prima_db.Prelude.{ℕ, ◌<◌, ◌≤◌, ◌≡◌, ◌⊎◌, ◌↔◌, ap, List, [], ◌∷◌, All, arith}
use prima_db.Ord.{◌≺◌}
use prima_db.Clock.{
  HybridClock, Revision, revision_ord, cmp_revision, next_revision, observe, u32_max, u64_max,
  IsInRange,
}
use mathlib.Core.List.{foldl}

-- `c` has seen `r`, or something at the same instant with no lower counter.
abbrev pub Covers : HybridClock → Revision → Type 0
Covers c r = (r.millis < c.last_millis) ⊎ ((r.millis ≡ c.last_millis) × (r.counter ≤ c.counter))

unfoldable pub observe_all : HybridClock → List Revision → HybridClock
observe_all = foldl observe

pub observe-Covers : (c : HybridClock) (r : Revision) → Covers (observe c r) r
unfolding observe
observe-Covers c r = ground arith

pub observe-Covers_old : (c : HybridClock) (r q : Revision) → Covers c q → Covers (observe c r) q
unfolding observe
observe-Covers_old c r q h = ground arith

observe_all-Covers_old :
    (rs : List Revision) (c : HybridClock) (q : Revision) → Covers c q → Covers (observe_all c rs) q
unfolding observe_all
observe_all-Covers_old [] c q h = h
observe_all-Covers_old (r ∷ rs) c q h =
    observe_all-Covers_old rs (observe c r) q (observe-Covers_old c r q h)

pub observe_all-Covers : (rs : List Revision) (c : HybridClock) → All (Covers (observe_all c rs)) rs
unfolding observe_all
observe_all-Covers [] c = tt
observe_all-Covers (r ∷ rs) c = (
  observe_all-Covers_old rs (observe c r) r (observe-Covers c r),
  observe_all-Covers rs (observe c r),
)

-- Observing a revision a second time changes nothing.
pub observe_idem : (c : HybridClock) (r : Revision) → observe (observe c r) r ≡ observe c r
unfolding observe
observe_idem c r = ground arith

-- The clock after two observations does not depend on their order.
observe_comm :
    (c : HybridClock) (r q : Revision) → observe (observe c r) q ≡ observe (observe c q) r
unfolding observe
observe_comm c r q = ground arith

pub next_revision-above :
    (c : HybridClock) (now : ℕ) (r : Revision)
    → c.counter < u32_max
    → Covers c r
    → r ≺ (next_revision c now).1
unfolding next_revision revision_ord cmp_revision
next_revision-above c now r room h = ground arith

All-above :
    (c : HybridClock) (now : ℕ) (rs : List Revision)
    → c.counter < u32_max
    → All (Covers c) rs
    → All (λ r. r ≺ (next_revision c now).1) rs
All-above c now [] room h = tt
All-above c now (r ∷ rs) room h =
    (next_revision-above c now r room h.0, All-above c now rs room h.1)

-- After a clock has observed any revisions, and while its counter is below the largest `u32`, the
-- next revision it issues is strictly above each of them, whatever the wall clock reads.
pub next_revision-above_observed :
    (c : HybridClock) (rs : List Revision) (now : ℕ)
    → (observe_all c rs).counter < u32_max
    → All (λ r. r ≺ (next_revision (observe_all c rs) now).1) rs
next_revision-above_observed c rs now room =
    All-above (observe_all c rs) now rs room (observe_all-Covers rs c)

-- Two revisions issued in a row strictly increase, if the counter is below the largest `u32` or
-- the wall clock has passed the clock's time.
pub next_revision_increases :
    (c : HybridClock) (now later : ℕ)
    → ((next_revision c now).0.counter < u32_max) ⊎ ((next_revision c now).0.last_millis < later)
    → (next_revision c now).1 ≺ (next_revision (next_revision c now).0 later).1
unfolding next_revision revision_ord cmp_revision
next_revision_increases c now later h = ground arith

-- Two revisions issued in a row are the same just where the clock's counter has come to the largest
-- `u32` and the wall clock has not passed the clock's time.
pub next_revision_repeats :
    (c : HybridClock) (now later : ℕ)
    → ((next_revision (next_revision c now).0 later).1 ≡ (next_revision c now).1) ↔ (
        ((next_revision c now).0.counter ≡ u32_max) × (later ≤ (next_revision c now).0.last_millis))
unfolding next_revision
next_revision_repeats c now later = (
  λ same.
      let counters = ap (λ r. r.counter) same in
      let times = ap (λ r. r.millis) same in (ground arith, ground arith),
  λ full. ground arith,
)

-- A clock's fields stay in the ranges of their machine integers when it issues a revision, if the
-- wall clock's reading is in the range of `u64`.
pub next_revision-IsInRange :
    (c : HybridClock) (now : ℕ) → now ≤ u64_max → IsInRange c → IsInRange (next_revision c now).0
unfolding next_revision
next_revision-IsInRange c now n h = ground arith
