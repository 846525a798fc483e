-- ===== src/Tests/Clocks.antt =====
-- The clock's theorems at concrete inputs, and runs of clock.rs.
use prima_db.Prelude.{◌<◌, ◌≤◌, ◌≡◌, ◌≢◌, ◌↔◌, refl, inl, List, [], ◌∷◌, All, arith}
use prima_db.Text.{bytes}
use prima_db.Ord.{◌≺◌}
use prima_db.Clock.{
  HybridClock, Revision, revision_ord, next_revision, observe, next_op_id, op_id_text,
  sanitize_component, u32_max, u64_max, IsInRange,
}
use prima_db.Clock.Order.{
  observe_all, next_revision-above_observed, next_revision_increases, next_revision_repeats,
  next_revision-IsInRange,
}
use prima_db.Clock.Ids.{op_id_text-injective, next_op_id-ne}
use prima_db.Tests.Data.{alice, bob, alice_clock, at}

next_op_id_run : (next_op_id alice_clock (bytes "set")).1 ≡ bytes "alice/set/64-2-7"
unfolding next_op_id op_id_text sanitize_component
next_op_id_run = refl

alice_clock-IsInRange : IsInRange alice_clock
alice_clock-IsInRange = record {
  millis_fits = omega arith;
  counter_fits = omega arith;
  sequence_fits = omega arith;
}

abbrev seen : List Revision
seen = at 90 9 bob ∷ at 120 4 bob ∷ []

room_to_above : (observe_all alice_clock seen).counter < u32_max
unfolding observe_all observe
room_to_above = omega arith

next_revision-above_observed_example :
    All (λ r. r ≺ (next_revision (observe_all alice_clock seen) 110).1) seen
next_revision-above_observed_example =
    next_revision-above_observed alice_clock seen 110 room_to_above

room_to_increase : (next_revision alice_clock 50).0.counter < u32_max
unfolding next_revision
room_to_increase = omega arith

next_revision_increases_example :
    (next_revision alice_clock 50).1 ≺ (next_revision (next_revision alice_clock 50).0 60).1
next_revision_increases_example = next_revision_increases alice_clock 50 60 (inl room_to_increase)

abbrev full_clock : HybridClock
full_clock = record alice_clock { counter = u32_max }

next_revision_repeats_example :
    ((next_revision (next_revision full_clock 50).0 60).1 ≡ (next_revision full_clock 50).1) ↔ (
      ((next_revision full_clock 50).0.counter ≡ u32_max)
      × (60 ≤ (next_revision full_clock 50).0.last_millis))
next_revision_repeats_example = next_revision_repeats full_clock 50 60

next_revision-IsInRange_example : IsInRange (next_revision alice_clock 110).0
next_revision-IsInRange_example =
    next_revision-IsInRange alice_clock 110 (omega arith) alice_clock-IsInRange

op_id_text-injective_example :
    (sanitize_component alice ≡ sanitize_component alice)
    × (sanitize_component bob ≡ sanitize_component bob)
    × (alice_clock.last_millis ≡ alice_clock.last_millis)
    × (alice_clock.counter ≡ alice_clock.counter)
    × (alice_clock.sequence ≡ alice_clock.sequence)
op_id_text-injective_example =
    op_id_text-injective alice alice bob bob alice_clock.last_millis alice_clock.last_millis
      alice_clock.counter alice_clock.counter alice_clock.sequence alice_clock.sequence
      (omega arith, omega arith) (omega arith, omega arith) (omega arith, omega arith) refl

later_clock_fits : IsInRange (next_op_id alice_clock (bytes "set")).0
unfolding next_op_id
later_clock_fits = record {
  millis_fits = omega arith;
  counter_fits = omega arith;
  sequence_fits = omega arith;
}

room_to_op_id : (next_op_id alice_clock (bytes "set")).0.sequence < u64_max
unfolding next_op_id
room_to_op_id = omega arith

next_op_id-ne_example :
    (next_op_id alice_clock (bytes "set")).1
    ≢ (next_op_id (next_op_id alice_clock (bytes "set")).0 (bytes "set")).1
next_op_id-ne_example =
    next_op_id-ne alice_clock (next_op_id alice_clock (bytes "set")).0 (bytes "set") (bytes "set")
      alice_clock-IsInRange later_clock_fits (omega arith) room_to_op_id
