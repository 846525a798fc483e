-- ===== src/Tests/Replicas.antt =====
-- The theorems on replicas and transactions at concrete inputs.
use prima_db.Prelude.{ℕ, ◌≡◌, refl, inl, inr, false, none, [], ◌∷◌}
use prima_db.Text.{bytes}
use prima_db.Ord.{list_ord, nat_ord}
use prima_db.Map
use prima_db.Graph.{OperationValue}
use prima_db.Graph.OperationAction.{set_field, add_set_member}
use prima_db.Graph.Convergence.{deliver_all}
use prima_db.Queue.{from_operations}
use prima_db.Queue.Content.{from_operations-IsIndexed}
use prima_db.Replica.{Inner, write}
use prima_db.Replica.Transaction.{
  begin_transaction, ensure_node, allocate_node_id, Runs, here, writes, ensures, allocates,
  roll_back,
}
use prima_db.Replica.Transaction.Rollback.{roll_back_restores}
use prima_db.Replica.{from_remote, apply_operation_internal, apply_operations}
use prima_db.Replica.Remote.{
  permitted, replicas_converge, nodes-apply_operations, apply_operation_internal_again,
}
use prima_db.Replica.Journal.{new_undo, journal_operation, restore_queue}
use prima_db.Replica.Transaction.Queues.{
  new_undo-QueueUndoable, push-QueueUndoable, restore_queue-QueueUndoable,
}
use prima_db.Queue.{CompactedOperations, len, push}
use prima_db.Tests.Data.{alice_clock, doc, title, tags, titled, tagged, all_four}
use prima_db.Tests.Graphs.{no_nodes, sets, Known, known, no_nodes-Fits}

abbrev replica : Inner ℕ
replica = record {
  clock = alice_clock;
  nodes = deliver_all Map.empty all_four;
  pending_ops = from_operations all_four;
  unflushed_ops = from_operations all_four;
  scope_policies = Map.empty;
  max_pending_ops = 10;
  journal = none;
}

abbrev queue : CompactedOperations ℕ
queue = from_operations all_four

-- A transaction that creates a node and writes two fields.
abbrev created : Inner ℕ
created = ensure_node (allocate_node_id (begin_transaction replica) doc) (bytes "docs/2")

abbrev renamed : Inner ℕ
renamed = (write created 200 (set_field doc title (OperationValue.scalar 8))).0

abbrev retagged : Inner ℕ
retagged = (write renamed 200 (add_set_member (bytes "docs/2") tags (bytes "tag/y"))).0

transaction : Runs (begin_transaction replica) retagged
transaction =
    writes
      (writes (ensures (allocates here doc) (bytes "docs/2")) 200
        (set_field doc title (OperationValue.scalar 8)))
      200 (add_set_member (bytes "docs/2") tags (bytes "tag/y"))

roll_back_restores_example : roll_back retagged ≡ replica
roll_back_restores_example =
    roll_back_restores replica retagged refl (from_operations-IsIndexed all_four)
      (from_operations-IsIndexed all_four) transaction

apply_operation_internal_again_example :
    apply_operation_internal
      (apply_operation_internal replica tagged from_remote).0
      tagged
      from_remote
    ≡ ((apply_operation_internal replica tagged from_remote).0, false)
apply_operation_internal_again_example = apply_operation_internal_again replica tagged refl

abbrev empty_replica : Inner ℕ
empty_replica = record replica { nodes = no_nodes }

replicas_converge_example :
    (apply_operations empty_replica (titled ∷ tagged ∷ [])).0.nodes
    ≡ (apply_operations empty_replica (tagged ∷ titled ∷ tagged ∷ [])).0.nodes
replicas_converge_example =
    replicas_converge sets Known known empty_replica empty_replica (titled ∷ tagged ∷ [])
      (tagged ∷ titled ∷ tagged ∷ []) refl refl no_nodes-Fits (inl refl, (inr (inl refl), tt))
      (inr (inl refl), (inl refl, (inr (inl refl), tt))) (inr (inl refl), (inl refl, tt))
      (inr (inl refl), (inl refl, (inr (inl refl), tt)))

nodes-apply_operations_example :
    (apply_operations replica all_four).0.nodes
    ≡ deliver_all replica.nodes (permitted replica.scope_policies all_four)
nodes-apply_operations_example = nodes-apply_operations replica all_four

restore_queue-QueueUndoable_example :
    restore_queue (journal_operation queue (new_undo (len queue)) tagged) (push queue tagged)
    ≡ queue
restore_queue-QueueUndoable_example =
    restore_queue-QueueUndoable queue (push queue tagged)
      (journal_operation queue (new_undo (len queue)) tagged)
      (push-QueueUndoable queue queue (new_undo (len queue)) tagged
        (new_undo-QueueUndoable queue (from_operations-IsIndexed all_four)))
