-- ===== src/Graph/Delivery.antt =====
-- Two operations that keep to one schema and have different markers commute on the whole graph.
use prima_db.Prelude.{◌≡◌, ◌≢◌, refl, ap, sym, ◌∙◌, inl, inr, Bool}
use prima_db.Text.{Text}
use prima_db.Ord.{list_ord, nat_ord, eq_or_ne}
use prima_db.Map
use prima_db.Map.{Map}
use prima_db.Map.Laws.{get-insert_self, get-insert_ne, insert-insert, insert_comm}
use prima_db.Clock.{VersionMarker}
use prima_db.Graph.{
  NodeId, NodeState, OperationAction, Operation, marker_of, source_node, touched_field, zero_marker,
}
use prima_db.Graph.Apply.{apply_to_node, apply_to_nodes, entry_or_new}
use prima_db.Graph.Cells.{cell, step_cell, node_ext, Acts-apply_to_node}
use prima_db.Graph.Schema.{IsOfKind, FitsKind, step_cell_comm, step_cell_fits}

module _ {J : Type 0} where
  -- The node after an operation.
  abbrev after : VersionMarker → OperationAction J → NodeState J → NodeState J
  after m a n = (apply_to_node m a n).0

  cell_own :
      (m : VersionMarker) (a : OperationAction J) (n : NodeState J) (f : Text)
      → f ≡ touched_field a
      → cell (after m a n) f ≡ (step_cell m a (cell n f)).0
  cell_own m a n f e = rw e (Acts-apply_to_node m a n).own

  cell_other :
      (m : VersionMarker) (a : OperationAction J) (n : NodeState J) (f : Text)
      → f ≢ touched_field a
      → cell (after m a n) f ≡ cell n f
  cell_other m a n f h = (Acts-apply_to_node m a n).others f h

  module _ (m m' : VersionMarker) (a a' : OperationAction J) (n : NodeState J)
      (own : touched_field a ≡ touched_field a'
        → (step_cell m' a' (step_cell m a (cell n (touched_field a))).0).0
          ≡ (step_cell m a (step_cell m' a' (cell n (touched_field a))).0).0) where
    cell_comm : (f : Text) → cell (after m' a' (after m a n)) f ≡ cell (after m a (after m' a' n)) f
    cell_comm f = elim (eq_or_ne f (touched_field a)) [
      | inl e ↦ elim (eq_or_ne f (touched_field a')) [
        | inl e' ↦ cc (
          cell_own m' a' (after m a n) f e',
          cell_own m a n f e,
          cell_own m a (after m' a' n) f e,
          cell_own m' a' n f e',
          own (sym e ∙ e'),
        )
        | inr d' ↦ cc (
          cell_other m' a' (after m a n) f d',
          cell_own m a n f e,
          cell_own m a (after m' a' n) f e,
          cell_other m' a' n f d',
        )
      ]
      | inr d ↦ elim (eq_or_ne f (touched_field a')) [
        | inl e' ↦ cc (
          cell_own m' a' (after m a n) f e',
          cell_other m a n f d,
          cell_other m a (after m' a' n) f d,
          cell_own m' a' n f e',
        )
        | inr d' ↦ cc (
          cell_other m' a' (after m a n) f d',
          cell_other m a n f d,
          cell_other m a (after m' a' n) f d,
          cell_other m' a' n f d',
        )
      ]
    ]

    node_comm : after m' a' (after m a n) ≡ after m a (after m' a' n)
    node_comm =
        node_ext (after m' a' (after m a n)) (after m a (after m' a' n))
          (cc (
            (Acts-apply_to_node m' a' (after m a n)).id,
            (Acts-apply_to_node m a n).id,
            (Acts-apply_to_node m a (after m' a' n)).id,
            (Acts-apply_to_node m' a' n).id,
          ))
          cell_comm

  -- The graph after an operation.
  abbrev pub deliver : Map NodeId (NodeState J) → Operation J → Map NodeId (NodeState J)
  deliver nodes op = (apply_to_nodes nodes op).0

  abbrev node_at : Operation J → NodeState J → NodeState J
  node_at op n = after (marker_of op) op.action n

  deliver_lem :
      (nodes : Map NodeId (NodeState J)) (op : Operation J)
      → let id = source_node op.action in
        deliver nodes op ≡ Map.insert nodes id (node_at op (entry_or_new nodes id))
  unfolding apply_to_nodes
  deliver_lem nodes op = refl

  deliver_at :
      (nodes : Map NodeId (NodeState J)) (op : Operation J) (id : NodeId)
      → source_node op.action ≡ id
      → deliver nodes op ≡ Map.insert nodes id (node_at op (entry_or_new nodes id))
  deliver_at nodes op id e = rw (← e) (deliver_lem nodes op)

  pub entry-deliver_self :
      (nodes : Map NodeId (NodeState J)) (op : Operation J) (id : NodeId)
      → source_node op.action ≡ id
      → entry_or_new (deliver nodes op) id ≡ node_at op (entry_or_new nodes id)
  entry-deliver_self nodes op id e =
      rw (deliver_at nodes op id e, get-insert_self nodes id (node_at op (entry_or_new nodes id)))

  pub entry-deliver_ne :
      (nodes : Map NodeId (NodeState J)) (op : Operation J) (id : NodeId)
      → id ≢ source_node op.action
      → entry_or_new (deliver nodes op) id ≡ entry_or_new nodes id
  entry-deliver_ne nodes op id h =
      let source = source_node op.action in
      rw (
        deliver_lem nodes op,
        get-insert_ne nodes source (node_at op (entry_or_new nodes source)) id h,
      )

  deliver_twice :
      (nodes : Map NodeId (NodeState J)) (p q : Operation J) (id : NodeId)
      → source_node p.action ≡ id
      → source_node q.action ≡ id
      → deliver (deliver nodes p) q
        ≡ Map.insert nodes id (node_at q (node_at p (entry_or_new nodes id)))
  deliver_twice nodes p q id ep eq =
      deliver_at (deliver nodes p) q id eq
      ∙ rw (entry-deliver_self nodes p id ep, deliver_at nodes p id ep)
          (insert-insert nodes id (node_at p (entry_or_new nodes id))
            (node_at q (node_at p (entry_or_new nodes id))))

  deliver_same_node :
      (nodes : Map NodeId (NodeState J)) (p q : Operation J) (id : NodeId)
      → source_node p.action ≡ id
      → source_node q.action ≡ id
      → node_at q (node_at p (entry_or_new nodes id))
        ≡ node_at p (node_at q (entry_or_new nodes id))
      → deliver (deliver nodes p) q ≡ deliver (deliver nodes q) p
  deliver_same_node nodes p q id ep eq h =
      deliver_twice nodes p q id ep eq
      ∙ ap (Map.insert nodes id) h
      ∙ sym (deliver_twice nodes q p id eq ep)

  deliver_apart :
      (nodes : Map NodeId (NodeState J)) (p q : Operation J)
      → source_node q.action ≢ source_node p.action
      → let ip = source_node p.action in
        let iq = source_node q.action in
        deliver (deliver nodes p) q
        ≡ Map.insert
            (Map.insert nodes ip (node_at p (entry_or_new nodes ip)))
            iq
            (node_at q (entry_or_new nodes iq))
  deliver_apart nodes p q h =
      deliver_lem (deliver nodes p) q
      ∙ rw (entry-deliver_ne nodes p (source_node q.action) h, deliver_lem nodes p)

  deliver_other_node :
      (nodes : Map NodeId (NodeState J)) (p q : Operation J)
      → source_node p.action ≢ source_node q.action
      → deliver (deliver nodes p) q ≡ deliver (deliver nodes q) p
  deliver_other_node nodes p q h =
      let ip = source_node p.action in
      let iq = source_node q.action in
      deliver_apart nodes p q (λ e. h (sym e))
      ∙ insert_comm nodes ip iq (node_at p (entry_or_new nodes ip))
          (node_at q (entry_or_new nodes iq)) h
      ∙ sym (deliver_apart nodes q p h)

  -- The operation keeps to the schema, and its marker is not the zero marker.
  pub record Conforms (sets : NodeId → Text → Bool) (op : Operation J) : Type 0 where
    pub kind : IsOfKind (sets (source_node op.action) (touched_field op.action)) op.action
    pub stamped : marker_of op ≢ zero_marker

  -- The fields that hold sets by the schema hold sets or nothing.
  pub record Fits (sets : NodeId → Text → Bool) (nodes : Map NodeId (NodeState J)) : Type 0 where
    pub at_field : (id : NodeId) (f : Text) → FitsKind (sets id f) (cell (entry_or_new nodes id) f)

  module _ (sets : NodeId → Text → Bool) where
    pub deliver_comm :
        (nodes : Map NodeId (NodeState J)) (p q : Operation J)
        → Fits sets nodes
        → Conforms sets p
        → Conforms sets q
        → marker_of p ≢ marker_of q
        → deliver (deliver nodes p) q ≡ deliver (deliver nodes q) p
    deliver_comm nodes p q fit cp cq h =
        elim (eq_or_ne (source_node p.action) (source_node q.action)) [
          | inl e ↦
              let id = source_node p.action in
              deliver_same_node nodes p q id refl (sym e) (
                node_comm (marker_of p) (marker_of q) p.action q.action (entry_or_new nodes id)
                  (λ f.
                    step_cell_comm (marker_of p) (marker_of q) (sets id (touched_field p.action))
                      p.action q.action (cell (entry_or_new nodes id) (touched_field p.action)) h
                      cp.stamped cq.stamped cp.kind (rw (e, f) cq.kind)
                      (fit.at_field id (touched_field p.action))))
          | inr d ↦ deliver_other_node nodes p q d
        ]

    node_fits :
        (m : VersionMarker) (a : OperationAction J) (id : NodeId) (n : NodeState J) (f : Text)
        → IsOfKind (sets id (touched_field a)) a
        → FitsKind (sets id f) (cell n f)
        → FitsKind (sets id f) (cell (after m a n) f)
    node_fits m a id n f k fit = elim (eq_or_ne f (touched_field a)) [
      | inl e ↦ rw (cell_own m a n f e) (step_cell_fits m (sets id f) a (cell n f) (rw e k) fit)
      | inr d ↦ rw (cell_other m a n f d) fit
    ]

    pub deliver-Fits :
        (nodes : Map NodeId (NodeState J)) (op : Operation J)
        → Fits sets nodes
        → Conforms sets op
        → Fits sets (deliver nodes op)
    deliver-Fits nodes op fit c = record {
      at_field = λ id f. elim (eq_or_ne id (source_node op.action)) [
        | inl e ↦ rw (entry-deliver_self nodes op id (sym e)) (
            node_fits (marker_of op) op.action id (entry_or_new nodes id) f (rw e c.kind)
              (fit.at_field id f))
        | inr d ↦ rw (entry-deliver_ne nodes op id d) (fit.at_field id f)
      ];
    }
