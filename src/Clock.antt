-- ===== src/Clock.antt =====
-- clock.rs: revisions, version markers and the hybrid logical clock. The wall clock
-- (`now_millis`) is an argument of the operations that read it.
mod Version
mod OpIdText
pub mod Order
pub mod Ids
unfoldable pub use Version.*
unfoldable pub use OpIdText.*
use prima_db.Prelude.{ℕ, ◌≤◌, ◌++◌, ltb, ◌==◌, ◌&&◌, if◌then◌else◌, saturating_add}
use prima_db.Text.{Text, bytes}

pub record HybridClock : Type 0 where
  pub actor : Text
  pub last_millis : ℕ
  pub counter : ℕ
  pub sequence : ℕ

abbrev pub u32_max : ℕ
u32_max = 4294967295

abbrev pub u64_max : ℕ
u64_max = 18446744073709551615

-- `now` is what `now_millis()` returns.
unfoldable pub with_actor : Text → ℕ → HybridClock
with_actor actor now = record { actor = actor; last_millis = now; counter = 0; sequence = 0 }

unfoldable pub next_revision : HybridClock → ℕ → HybridClock × Revision
next_revision c now =
    let c' : HybridClock =
      if ltb c.last_millis now
      then record c { last_millis = now; counter = 0 }
      else record c { counter = saturating_add u32_max c.counter 1 } in
    (c', record { millis = c'.last_millis; counter = c'.counter; actor = c'.actor })

unfoldable pub observe : HybridClock → Revision → HybridClock
observe c r =
    if ltb c.last_millis r.millis
    then record c { last_millis = r.millis; counter = r.counter }
    else if (r.millis == c.last_millis) && ltb c.counter r.counter
    then record c { counter = r.counter }
    else c

unfoldable pub next_op_id : HybridClock → Text → HybridClock × Text
next_op_id c namespace =
    let c' : HybridClock = record c { sequence = saturating_add u64_max c.sequence 1 } in
    (c', op_id_text c.actor namespace c.last_millis c.counter c'.sequence)

unfoldable pub next_node_id : HybridClock → Text → HybridClock × Text
next_node_id c hint =
    let c' : HybridClock = record c { sequence = saturating_add u64_max c.sequence 1 } in
    (c', node_id_text c.actor hint c'.sequence)

unfoldable pub default_actor : ℕ → Text
default_actor now = bytes "replica-" ++ hex now

unfoldable pub rebased_with_actor : HybridClock → Text → HybridClock
rebased_with_actor c actor = record c { actor = actor }

-- The ranges of the machine integers.
pub record IsInRange (c : HybridClock) : Type 0 where
  pub millis_fits : c.last_millis ≤ u64_max
  pub counter_fits : c.counter ≤ u32_max
  pub sequence_fits : c.sequence ≤ u64_max
