-- ===== src/Replica/Transaction/Rollback.antt =====
-- A transaction that fails leaves the replica as it found it.
use prima_db.Prelude.{ℕ, ◌≡◌, refl, sym, ◌∙◌, Bool, true, false, Option, none, some, if◌then◌else◌}
use prima_db.Ord.{list_ord, nat_ord}
use prima_db.Map
use prima_db.Map.{Map, IsSorted}
use prima_db.Map.Laws.{get-empty}
use prima_db.Clock.{HybridClock, observe, next_revision, next_op_id, next_node_id}
use prima_db.Graph.{NodeId, NodeState, OperationAction, Operation, source_node, marker_of}
use prima_db.Graph.Apply.{apply_to_node, entry_or_new}
use prima_db.Queue.Invariant.{IsIndexed}
use prima_db.Replica.{
  Inner, from_here, apply_operation_internal, apply_to_graph, enqueue, push_unflushed, push_pending,
  refused_at_once, local_write, write, namespace_of, journal_source,
}
use prima_db.Replica.Journal.{TransactionJournal, journal_operation, journal_node}
use prima_db.Replica.Transaction.{
  begin_journal, begin_transaction, ensure_node, allocate_node_id, Runs, here, writes, ensures,
  allocates, restore, roll_back,
}
use prima_db.Replica.Transaction.Queues.{
  new_undo-QueueUndoable, push-QueueUndoable, restore_queue-QueueUndoable,
}
use prima_db.Replica.Transaction.Nodes.{Undoable, note_node, restored_nodes}

module _ {J : Type 0} where
  -- The running transaction can be undone from its journal.
  record Revertible (start inner : Inner J) : Type 0 where
    journal : TransactionJournal J
    running : inner.journal ≡ some journal
    undoable : Undoable start inner journal

  -- The clock may move.
  clock-Revertible :
      (start inner : Inner J) (c : HybridClock)
      → Revertible start inner
      → Revertible start (record inner { clock = c })
  clock-Revertible start inner c r = record {
    journal = r.journal;
    running = r.running;
    undoable = record {
      clock = r.undoable.clock;
      nodes = r.undoable.nodes;
      pending = r.undoable.pending;
      unflushed = r.undoable.unflushed;
      policies = r.undoable.policies;
      limit = r.undoable.limit;
    };
  }

  -- A node that is noted may be set.
  node-Revertible :
      (start inner : Inner J) (id : NodeId) (state : NodeState J)
      → Revertible start inner
      → Revertible start
          (record (journal_source id inner) { nodes = Map.insert inner.nodes id state })
  node-Revertible start inner id state r =
      let j = r.journal in
      record {
        journal = record j { nodes = journal_node inner.nodes j.nodes id };
        running = rw r.running refl;
        undoable = record {
          clock = r.undoable.clock;
          nodes = λ x. note_node inner.nodes j.nodes id state x ∙ r.undoable.nodes x;
          pending = r.undoable.pending;
          unflushed = r.undoable.unflushed;
          policies = r.undoable.policies;
          limit = r.undoable.limit;
        };
      }

  unflushed-Revertible :
      (start inner : Inner J) (op : Operation J)
      → Revertible start inner
      → Revertible start (push_unflushed op inner)
  unfolding push_unflushed
  unflushed-Revertible start inner op r =
      let j = r.journal in
      record {
        journal = record j {
          unflushed_ops = journal_operation inner.unflushed_ops j.unflushed_ops op;
        };
        running = rw r.running refl;
        undoable = record {
          clock = r.undoable.clock;
          nodes = r.undoable.nodes;
          pending = r.undoable.pending;
          unflushed =
              push-QueueUndoable start.unflushed_ops inner.unflushed_ops j.unflushed_ops op
                r.undoable.unflushed;
          policies = r.undoable.policies;
          limit = r.undoable.limit;
        };
      }

  pending-Revertible :
      (start inner : Inner J) (op : Operation J)
      → Revertible start inner
      → Revertible start (push_pending op inner)
  unfolding push_pending
  pending-Revertible start inner op r =
      let j = r.journal in
      record {
        journal = record j { pending_ops = journal_operation inner.pending_ops j.pending_ops op };
        running = rw r.running refl;
        undoable = record {
          clock = r.undoable.clock;
          nodes = r.undoable.nodes;
          pending =
              push-QueueUndoable start.pending_ops inner.pending_ops j.pending_ops op
                r.undoable.pending;
          unflushed = r.undoable.unflushed;
          policies = r.undoable.policies;
          limit = r.undoable.limit;
        };
      }

  graph-Revertible :
      (start inner : Inner J) (op : Operation J)
      → Revertible start inner
      → Revertible start (apply_to_graph inner op).0
  unfolding apply_to_graph
  graph-Revertible start inner op r =
      let id = source_node op.action in
      let seen = observe inner.clock op.revision in
      let changed = apply_to_node (marker_of op) op.action (entry_or_new inner.nodes id) in
      node-Revertible start (record inner { clock = seen }) id changed.0
        (clock-Revertible start inner seen r)

  abbrev ended : Bool → Bool → Inner J → Inner J → Inner J → Inner J × Bool
  ended refused accepted s t u =
      if refused then (s, false) else if accepted then (t, true) else (u, false)

  -- All three ends of an application.
  every_end :
      {start s t u : Inner J} (refused accepted : Bool)
      → Revertible start s
      → Revertible start t
      → Revertible start u
      → Revertible start (ended refused accepted s t u).0
  every_end true accepted s t u = s
  every_end false true s t u = t
  every_end false false s t u = u

  local-Revertible :
      (start inner : Inner J) (op : Operation J)
      → Revertible start inner
      → Revertible start (apply_operation_internal inner op from_here).0
  unfolding apply_operation_internal enqueue
  local-Revertible start inner op r =
      let changed = apply_to_graph inner op in
      let logged = push_unflushed op changed.0 in
      let r₁ = graph-Revertible start inner op r in
      let r₂ = pending-Revertible start logged op (unflushed-Revertible start changed.0 op r₁) in
      every_end (refused_at_once inner op from_here) changed.1 r r₂ r₁

  write-Revertible :
      (start inner : Inner J) (now : ℕ) (action : OperationAction J)
      → Revertible start inner
      → Revertible start (write inner now action).0
  unfolding write local_write
  write-Revertible start inner now action r =
      let (c₁, revision) = next_revision inner.clock now in
      let (c₂, op_id) = next_op_id c₁ (namespace_of action) in
      let op : Operation J = record {
        op_id = op_id;
        author = c₂.actor;
        revision = revision;
        action = action;
      } in
      local-Revertible start (record inner { clock = c₂ }) op (clock-Revertible start inner c₂ r)

  Runs-Revertible : {start s t : Inner J} → Revertible start s → Runs s t → Revertible start t
  unfolding ensure_node allocate_node_id
  Runs-Revertible r here = r
  Runs-Revertible {start} r (writes {t} run now action) =
      write-Revertible start t now action (Runs-Revertible r run)
  Runs-Revertible {start} r (ensures {t} run id) =
      node-Revertible start t id (entry_or_new t.nodes id) (Runs-Revertible r run)
  Runs-Revertible {start} r (allocates {t} run hint) =
      clock-Revertible start t (next_node_id t.clock hint).0 (Runs-Revertible r run)

  begin-Revertible :
      (start : Inner J)
      → IsIndexed start.pending_ops
      → IsIndexed start.unflushed_ops
      → Revertible start (begin_transaction start)
  unfolding begin_transaction begin_journal
  begin-Revertible start pending unflushed = record {
    journal = begin_journal start;
    running = refl;
    undoable = record {
      clock = refl;
      nodes = λ id. rw (get-empty {K = NodeId} {V = Option (NodeState J)} id) refl;
      pending = new_undo-QueueUndoable start.pending_ops pending;
      unflushed = new_undo-QueueUndoable start.unflushed_ops unflushed;
      policies = refl;
      limit = refl;
    };
  }

  -- Undoing from the journal gives the start, whose own journal is off.
  restored :
      (start inner : Inner J) (j : TransactionJournal J)
      → start.journal ≡ none
      → Undoable start inner j
      → restore j (record inner { journal = none }) ≡ start
  unfolding restore
  restored start inner j off u =
      let nodes = restored_nodes start inner j u in
      let pending =
        restore_queue-QueueUndoable start.pending_ops inner.pending_ops j.pending_ops u.pending in
      let unflushed =
        restore_queue-QueueUndoable start.unflushed_ops inner.unflushed_ops j.unflushed_ops
          u.unflushed in
      λ i. record {
        clock = u.clock i;
        nodes = nodes i;
        pending_ops = pending i;
        unflushed_ops = unflushed i;
        scope_policies = u.policies i;
        max_pending_ops = u.limit i;
        journal = sym off i;
      }

  -- A transaction whose closure fails leaves the replica exactly as it was, whatever writes it made,
  -- node ids it took and nodes it created, in any number and order: the clock, the graph, both
  -- queues and their indices. This holds from every state without a running transaction whose two
  -- queues are indexed.
  pub roll_back_restores :
      (start end : Inner J)
      → start.journal ≡ none
      → IsIndexed start.pending_ops
      → IsIndexed start.unflushed_ops
      → Runs (begin_transaction start) end
      → roll_back end ≡ start
  unfolding roll_back
  roll_back_restores start end off pending unflushed run =
      let r = Runs-Revertible (begin-Revertible start pending unflushed) run in
      rw r.running (restored start end r.journal off r.undoable)
