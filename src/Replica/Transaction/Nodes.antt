-- ===== src/Replica/Transaction/Nodes.antt =====
-- The nodes of a graph are put back as they were, from what a transaction's journal remembers of them.
use prima_db.Prelude.{
  ◌≡◌, refl, ◌∙◌, inl, inr, Option, Option-cases, none, some, List, [], ◌∷◌, arith,
}
use prima_db.Ord.{Ord, list_ord, nat_ord, eq_or_ne}
use prima_db.Map
use prima_db.Map.{Map, IsSorted}
use prima_db.Map.Entries.{get_in, get_in-Above}
use prima_db.Map.Laws.{map_ext, get-insert_self, get-insert_ne, get-remove_self, get-remove_ne}
use prima_db.Graph.{NodeId, NodeState}
use prima_db.Replica.{Inner}
use prima_db.Replica.Journal.{TransactionJournal, journal_node, put_back_nodes}
use prima_db.Replica.Transaction.Queues.{QueueUndoable}

abbrev Nodes : Type 0 → Type 0
Nodes J = Map NodeId (NodeState J)

abbrev texts : Ord NodeId
texts = list_ord

module _ {J : Type 0} where
  -- The node that undoing gives.
  abbrev pub undone_node :
      Option (Option (NodeState J)) → Option (NodeState J) → Option (NodeState J)
  undone_node none now = now
  undone_node (some before) now = before

  -- What the journal `j` needs to say, at `inner`, for the transaction that began at `start`.
  pub record Undoable (start inner : Inner J) (j : TransactionJournal J) : Type 0 where
    pub clock : j.clock ≡ start.clock
    pub nodes :
        (id : NodeId)
        → undone_node (Map.get j.nodes id) (Map.get inner.nodes id) ≡ Map.get start.nodes id
    pub pending : QueueUndoable start.pending_ops inner.pending_ops j.pending_ops
    pub unflushed : QueueUndoable start.unflushed_ops inner.unflushed_ops j.unflushed_ops
    pub policies : inner.scope_policies ≡ start.scope_policies
    pub limit : inner.max_pending_ops ≡ start.max_pending_ops

  -- A node that is noted may be changed.
  pub note_node :
      (nodes : Nodes J) (noted : Map NodeId (Option (NodeState J))) (id : NodeId)
      (state : NodeState J) (x : NodeId)
      → undone_node
          (Map.get (journal_node nodes noted id) x)
          (Map.get (Map.insert nodes id state) x)
        ≡ undone_node (Map.get noted x) (Map.get nodes x)
  unfolding journal_node
  note_node nodes noted id state x = elim (eq_or_ne x id) [
    | inl same ↦ rw same (elim (Option-cases (Map.get noted id)) [
      | inl new ↦ rw (new, get-insert_self noted id (Map.get nodes id))
      | inr (o, known) ↦ rw (known, known)
    ])
    | inr different ↦ ground (
      arith,
      get-insert_ne nodes id state x different,
      get-insert_ne noted id (Map.get nodes id) x different,
    )
  ]

  get-put_back_nodes :
      (entries : List (NodeId × Option (NodeState J))) (nodes : Nodes J) (x : NodeId)
      → IsSorted entries
      → Map.get (put_back_nodes entries nodes) x ≡ undone_node (get_in entries x) (Map.get nodes x)
  unfolding put_back_nodes get_in
  get-put_back_nodes [] nodes x s = refl
  get-put_back_nodes ((id, some state) ∷ rest) nodes x s =
      get-put_back_nodes rest (Map.insert nodes id state) x s.1 ∙ elim (eq_or_ne x id) [
        | inl same ↦ ground (
          arith,
          same,
          get_in-Above id rest s.0,
          texts.cmp_refl id,
          get-insert_self nodes id state,
        )
        | inr different ↦
            ground (arith, texts.eq_of_cmp x id, get-insert_ne nodes id state x different)
      ]
  get-put_back_nodes ((id, none) ∷ rest) nodes x s =
      get-put_back_nodes rest (Map.remove nodes id) x s.1 ∙ elim (eq_or_ne x id) [
        | inl same ↦
            ground
              (arith, same, get_in-Above id rest s.0, texts.cmp_refl id, get-remove_self nodes id)
        | inr different ↦ ground (arith, texts.eq_of_cmp x id, get-remove_ne nodes id x different)
      ]

  pub restored_nodes :
      (start inner : Inner J) (j : TransactionJournal J)
      → Undoable start inner j
      → put_back_nodes j.nodes.entries inner.nodes ≡ start.nodes
  unfolding Map.get
  restored_nodes start inner j u =
      map_ext (put_back_nodes j.nodes.entries inner.nodes) start.nodes
        λ x. get-put_back_nodes j.nodes.entries inner.nodes x j.nodes.sorted ∙ u.nodes x
