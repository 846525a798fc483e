-- ===== src/Replica.antt =====
-- `Inner` of db.rs: the state of a replica, and how it takes local and remote operations. Modelled
-- are the clock, the graph, the two queues, the policies, the limit on pending operations and the
-- journal of a running transaction.
pub mod Journal
pub mod Remote
pub mod Writes
pub mod Transaction
use prima_db.Prelude.{
  ℕ, ◌+◌, Bool, true, false, not, Option, none, some, List, [], ◌∷◌, ◌++◌, leb, if◌then◌else◌,
}
use prima_db.Text.{Text, bytes}
use prima_db.Ord.{list_ord, nat_ord}
use prima_db.Map
use prima_db.Map.{Map}
use prima_db.Clock.{HybridClock, observe, next_revision, next_op_id}
use prima_db.Graph.{
  NodeId, NodeState, OperationValue, OperationAction, Operation, source_node, touched_field,
}
use prima_db.Graph.OperationAction.{set_field, add_set_member, remove_set_member, delete_field}
use prima_db.Graph.Apply.{apply_to_nodes}
use prima_db.Queue.{CompactedOperations, push, push_all, len}
use prima_db.Queue
use prima_db.Scope.{ScopePolicy, author_allowed}
use Journal.{
  TransactionJournal, journal_node, journal_operation, restore_queue, put_back_nodes, new_undo,
}

pub data OperationOrigin : Type 0 where
  from_here from_remote : OperationOrigin

pub record Inner (J : Type 0) : Type 0 where
  pub clock : HybridClock
  pub nodes : Map NodeId (NodeState J)
  pub pending_ops : CompactedOperations J
  pub unflushed_ops : CompactedOperations J
  pub scope_policies : Map Text ScopePolicy
  pub max_pending_ops : ℕ
  pub journal : Option (TransactionJournal J)

abbrev pub is_local : OperationOrigin → Bool
is_local from_here = true
is_local from_remote = false

module _ {J : Type 0} where
  -- What the journal remembers, where a transaction runs.
  abbrev pub while_running :
      (TransactionJournal J → TransactionJournal J)
      → Option (TransactionJournal J)
      → Option (TransactionJournal J)
  while_running note none = none
  while_running note (some j) = some (note j)

  -- `operation_touched_path`
  unfoldable pub touched_path : OperationAction J → Text
  touched_path action = source_node action ++ bytes "/" ++ touched_field action

  unfoldable pub remote_operation_allowed : Inner J → Operation J → Bool
  unfolding touched_path author_allowed
  remote_operation_allowed inner op =
      author_allowed inner.scope_policies (touched_path op.action) op.author

  -- `self.journal_node(..)`, where a transaction runs.
  abbrev pub journal_source : NodeId → Inner J → Inner J
  journal_source id inner = record inner {
    journal =
        while_running (λ j. record j { nodes = journal_node inner.nodes j.nodes id }) inner.journal;
  }

  -- `self.journal_operation_queue(Unflushed, ..)` and the push on `unflushed_ops`.
  unfoldable pub push_unflushed : Operation J → Inner J → Inner J
  unfolding push journal_operation
  push_unflushed op inner = record inner {
    journal =
        while_running
          (λ j. record j {
            unflushed_ops = journal_operation inner.unflushed_ops j.unflushed_ops op;
          })
          inner.journal;
    unflushed_ops = push inner.unflushed_ops op;
  }

  -- `self.journal_operation_queue(Pending, ..)` and the push on `pending_ops`.
  unfoldable pub push_pending : Operation J → Inner J → Inner J
  unfolding push journal_operation
  push_pending op inner = record inner {
    journal =
        while_running
          (λ j. record j { pending_ops = journal_operation inner.pending_ops j.pending_ops op })
          inner.journal;
    pending_ops = push inner.pending_ops op;
  }

  -- The two early returns of `apply_operation_internal`.
  unfoldable pub refused_at_once : Inner J → Operation J → OperationOrigin → Bool
  unfolding remote_operation_allowed
  refused_at_once inner op from_here = leb inner.max_pending_ops (len inner.pending_ops)
  refused_at_once inner op from_remote = not (remote_operation_allowed inner op)

  -- The clock, the journal and the graph: `apply_operation_internal` up to its match.
  unfoldable pub apply_to_graph : Inner J → Operation J → Inner J × Bool
  unfolding observe journal_node apply_to_nodes
  apply_to_graph inner op =
      let seen : Inner J = record inner { clock = observe inner.clock op.revision } in
      let journaled = journal_source (source_node op.action) seen in
      let (nodes, accepted) = apply_to_nodes journaled.nodes op in
      (record journaled { nodes = nodes }, accepted)

  -- The queues after an accepted operation.
  unfoldable pub enqueue : Operation J → OperationOrigin → Inner J → Inner J
  unfolding push_unflushed push_pending
  enqueue op from_here inner = push_pending op (push_unflushed op inner)
  enqueue op from_remote inner = push_unflushed op inner

  unfoldable pub apply_operation_internal : Inner J → Operation J → OperationOrigin → Inner J × Bool
  unfolding refused_at_once apply_to_graph enqueue
  apply_operation_internal inner op origin =
      if refused_at_once inner op origin
      then (inner, false)
      else let (changed, accepted) = apply_to_graph inner op in
        if accepted then (enqueue op origin changed, true) else (changed, false)

  -- `set_field`, `delete_field`, `add_set_member` and `remove_member_from_set`: a revision and an
  -- operation id are taken from the clock, and the operation is applied. The result says whether it
  -- was accepted, which the code does not look at.
  unfoldable pub local_write : Inner J → ℕ → Text → OperationAction J → Inner J × Bool
  unfolding next_revision next_op_id apply_operation_internal
  local_write inner now namespace action =
      let (c₁, revision) = next_revision inner.clock now in
      let (c₂, op_id) = next_op_id c₁ namespace in
      let op : Operation J = record {
        op_id = op_id;
        author = c₂.actor;
        revision = revision;
        action = action;
      } in
      apply_operation_internal (record inner { clock = c₂ }) op from_here

  -- The namespace that each kind of write puts into its operation id.
  abbrev pub namespace_of : OperationAction J → Text
  namespace_of (set_field node field value) = bytes "set"
  namespace_of (delete_field node field) = bytes "delete"
  namespace_of (add_set_member node field member) = bytes "set-add"
  namespace_of (remove_set_member node field member) = bytes "set-remove"

  -- One of the four writes.
  unfoldable pub write : Inner J → ℕ → OperationAction J → Inner J × Bool
  unfolding local_write
  write inner now action = local_write inner now (namespace_of action) action

  -- The loop of `apply_operations`, with the number of accepted operations.
  unfoldable pub apply_operations : Inner J → List (Operation J) → Inner J × ℕ
  unfolding apply_operation_internal
  apply_operations inner [] = (inner, 0)
  apply_operations inner (op ∷ ops) =
      let (after, accepted) = apply_operation_internal inner op from_remote in
      let (final, applied) = apply_operations after ops in
      (final, if accepted then applied + 1 else applied)

  unfoldable pub drain_pending_operations : Inner J → Inner J × List (Operation J)
  drain_pending_operations inner =
      (record inner { pending_ops = Queue.empty }, inner.pending_ops.operations)

  unfoldable pub requeue_pending_operations : Inner J → List (Operation J) → Inner J
  unfolding push_all
  requeue_pending_operations inner ops = record inner {
    pending_ops = push_all inner.pending_ops ops;
  }
