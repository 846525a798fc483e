-- ===== src/Tests/Writes.antt =====
-- The theorem on local writes at a concrete input.
use prima_db.Prelude.{ℕ, ◌≡◌, refl, inr, true, none, arith}
use prima_db.Ord.{list_ord, nat_ord}
use prima_db.Map
use prima_db.Map.{Map}
use prima_db.Clock.Order.{Covers}
use prima_db.Graph.{FieldValue, NodeState, OperationValue, new_node, marker_of}
use prima_db.Graph.OperationAction.{set_field}
use prima_db.Graph.Apply.{entry_or_new}
use prima_db.Graph.Cells.{cell}
use prima_db.Graph.Marks.{CellMarks}
use prima_db.Queue
use prima_db.Replica.{Inner, write}
use prima_db.Replica.Writes.{write_accepted}
use prima_db.Tests.Data.{alice_clock, doc, title, titled}

abbrev node : NodeState ℕ
node = record (new_node doc) {
  fields =
      Map.insert Map.empty title
        (record { value = FieldValue.scalar 3; version = marker_of titled });
}

abbrev replica : Inner ℕ
replica = record {
  clock = alice_clock;
  nodes = Map.insert Map.empty doc node;
  pending_ops = Queue.empty;
  unflushed_ops = Queue.empty;
  scope_policies = Map.empty;
  max_pending_ops = 10;
  journal = none;
}

field_is_seen :
    CellMarks (λ v. Covers replica.clock v.revision) (cell (entry_or_new replica.nodes doc) title)
unfolding Map.get Map.insert list_ord nat_ord
field_is_seen = (tt, (inr (refl, omega arith), tt))

write_accepted_example : (write replica 90 (set_field doc title (OperationValue.scalar 8))).1 ≡ true
write_accepted_example =
    write_accepted replica 90 (set_field doc title (OperationValue.scalar 8)) (omega arith)
      (omega arith) field_is_seen
