-- ===== src/Replica/Transaction.antt =====
-- The local transactions of db.rs: `run_local_transaction_in_scope`, whose closure writes, allocates
-- node ids and creates nodes, in an order and a number that are its own.
pub mod Queues
pub mod Nodes
pub mod Rollback
use prima_db.Prelude.{ℕ, Bool, true, false, Option, none, some}
use prima_db.Text.{Text}
use prima_db.Ord.{list_ord, nat_ord}
use prima_db.Map
use prima_db.Clock.{next_node_id}
use prima_db.Graph.{NodeId, OperationAction}
use prima_db.Graph.Apply.{entry_or_new}
use prima_db.Queue.{len}
use prima_db.Replica.{Inner, write, journal_source}
use prima_db.Replica.Journal.{
  TransactionJournal, new_undo, journal_node, restore_queue, put_back_nodes,
}

module _ {J : Type 0} where
  -- `TransactionJournal::begin`
  unfoldable pub begin_journal : Inner J → TransactionJournal J
  begin_journal inner = record {
    clock = inner.clock;
    nodes = Map.empty;
    pending_ops = new_undo (len inner.pending_ops);
    unflushed_ops = new_undo (len inner.unflushed_ops);
  }

  unfoldable pub begin_transaction : Inner J → Inner J
  unfolding begin_journal
  begin_transaction inner = record inner { journal = some (begin_journal inner) }

  -- `ensure_node`
  unfoldable pub ensure_node : Inner J → NodeId → Inner J
  unfolding journal_node
  ensure_node inner id =
      let journaled = journal_source id inner in
      record journaled { nodes = Map.insert inner.nodes id (entry_or_new inner.nodes id) }

  unfoldable pub allocate_node_id : Inner J → Text → Inner J
  unfolding next_node_id
  allocate_node_id inner hint = record inner { clock = (next_node_id inner.clock hint).0 }

  -- What the closure of a transaction does to the state, one step at a time.
  pub data Runs (s : Inner J) : Inner J → Type 0 where
    here : Runs s s
    writes :
        {t : Inner J}
        → Runs s t
        → (now : ℕ) (action : OperationAction J) → Runs s (write t now action).0
    ensures : {t : Inner J} → Runs s t → (id : NodeId) → Runs s (ensure_node t id)
    allocates : {t : Inner J} → Runs s t → (hint : Text) → Runs s (allocate_node_id t hint)

  -- `TransactionJournal::restore`
  unfoldable pub restore : TransactionJournal J → Inner J → Inner J
  unfolding restore_queue put_back_nodes
  restore j inner = record inner {
    clock = j.clock;
    pending_ops = restore_queue j.pending_ops inner.pending_ops;
    unflushed_ops = restore_queue j.unflushed_ops inner.unflushed_ops;
    nodes = put_back_nodes j.nodes.entries inner.nodes;
  }

  -- The end of a transaction whose closure returned an error.
  unfoldable pub roll_back : Inner J → Inner J
  unfolding restore
  roll_back inner = elim inner.journal [
    | none ↦ inner
    | some j ↦ restore j (record inner { journal = none })
  ]

  -- The end of a transaction whose closure returned a value.
  unfoldable pub commit : Inner J → Inner J
  commit inner = record inner { journal = none }
