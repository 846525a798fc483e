-- ===== src/Replica/Journal.antt =====
-- `TransactionJournal` and `OperationQueueUndo` of db.rs: what a transaction remembers in order to be
-- undone, and how it is undone.
use prima_db.Prelude.{
  ℕ, Option, none, some, List, [], ◌∷◌, get_elem?, set, take, length, ltb, if◌then◌else◌,
}
use prima_db.Ord.{list_ord, nat_ord}
use prima_db.Map
use prima_db.Map.{Map}
use prima_db.Clock.{HybridClock}
use prima_db.Graph.{NodeId, NodeState, Operation}
use prima_db.Queue.{CompactedOperations, from_operation, rebuild_indices}

pub record OperationQueueUndo (J : Type 0) : Type 0 where
  pub initial_len : ℕ
  pub replaced : Map ℕ (Operation J)

pub record TransactionJournal (J : Type 0) : Type 0 where
  pub clock : HybridClock
  pub nodes : Map NodeId (Option (NodeState J))
  pub pending_ops : OperationQueueUndo J
  pub unflushed_ops : OperationQueueUndo J

module _ {J : Type 0} where
  -- `OperationQueueUndo::new`
  abbrev pub new_undo : ℕ → OperationQueueUndo J
  new_undo n = record { initial_len = n; replaced = Map.empty }

  -- `replaced.entry(index).or_insert_with(..)`. The index is in range (`IsIndexed`); out of range
  -- Rust panics.
  unfoldable pub remember : ℕ → Option (Operation J) → OperationQueueUndo J → OperationQueueUndo J
  remember index none undo = undo
  remember index (some old) undo =
      if Map.contains_key undo.replaced index
      then undo
      else record undo { replaced = Map.insert undo.replaced index old }

  -- `journal_operation_queue`: the operation that a push may replace is remembered, the first time.
  unfoldable pub journal_operation :
      CompactedOperations J → OperationQueueUndo J → Operation J → OperationQueueUndo J
  unfolding from_operation remember
  journal_operation q undo op = elim (q.indices (from_operation op)) [
    | none ↦ undo
    | some index ↦ remember index (get_elem? q.operations index) undo
  ]

  -- `journal_node`: the node as it was before its first change, or that it was not there.
  unfoldable pub journal_node :
      Map NodeId (NodeState J)
      → Map NodeId (Option (NodeState J))
      → NodeId
      → Map NodeId (Option (NodeState J))
  journal_node nodes remembered id =
      if Map.contains_key remembered id
      then remembered
      else Map.insert remembered id (Map.get nodes id)

  -- The loop of `OperationQueueUndo::restore`.
  unfoldable pub put_back : List (ℕ × Operation J) → List (Operation J) → List (Operation J)
  put_back [] ops = ops
  put_back ((index, op) ∷ rest) ops =
      put_back rest (if ltb index (length ops) then set ops index op else ops)

  -- `OperationQueueUndo::restore`
  unfoldable pub restore_queue :
      OperationQueueUndo J → CompactedOperations J → CompactedOperations J
  unfolding put_back rebuild_indices
  restore_queue undo q = rebuild_indices (record q {
    operations = put_back undo.replaced.entries (take undo.initial_len q.operations);
  })

  -- The loop over `self.nodes` in `TransactionJournal::restore`.
  unfoldable pub put_back_nodes :
      List (NodeId × Option (NodeState J)) → Map NodeId (NodeState J) → Map NodeId (NodeState J)
  put_back_nodes [] nodes = nodes
  put_back_nodes ((id, some state) ∷ rest) nodes = put_back_nodes rest (Map.insert nodes id state)
  put_back_nodes ((id, none) ∷ rest) nodes = put_back_nodes rest (Map.remove nodes id)
