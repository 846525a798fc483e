-- ===== src/Graph/Redelivery.antt =====
-- An operation that arrives a second time changes nothing and is refused.
use prima_db.Prelude.{◌≡◌, refl, ap, pair_path, Bool, false, Option, none, some, arith, ◌∙◌}
use prima_db.Ord.{Ord, list_ord, nat_ord}
use prima_db.Map
use prima_db.Map.{Map}
use prima_db.Map.Laws.{get-insert_self, insert_same}
use prima_db.Clock.{VersionMarker, marker_ord}
use prima_db.Graph.{
  NodeId, FieldValue, FieldState, NodeState, OperationAction, Operation, marker_of, source_node,
  touched_field,
}
use prima_db.Graph.FieldValue.{set}
use prima_db.Graph.OperationAction.{set_field, add_set_member, remove_set_member, delete_field}
use prima_db.Graph.Apply.{
  add_to_value, add_to_field, remove_from_value, remove_from_field, apply_to_node, apply_to_nodes,
  entry_or_new,
}
use prima_db.Graph.Cells.{Cell, cell, node_ext_at, update_cell, step_cell, Acts-apply_to_node}

abbrev markers : Ord VersionMarker
markers = marker_ord

module _ {J : Type 0} where
  -- A change of a field that refuses to be made twice.
  abbrev Settles : (Option (FieldState J) → FieldState J × Bool) → Type 0
  Settles change = (s : Option (FieldState J)) → change (some (change s).0) ≡ ((change s).0, false)

  add_to_value-Settles :
      (m : VersionMarker) (x : NodeId) (version : VersionMarker) (v : FieldValue J)
      → add_to_field m x (some (add_to_value m x version v).0)
        ≡ ((add_to_value m x version v).0, false)
  unfolding add_to_field
  add_to_value-Settles m x version (set s) =
      ground (arith, get-insert_self s.members x m, markers.cmp_refl m)
  add_to_value-Settles m x version _ = ground (arith, markers.cmp_refl m)

  add_to_field-Settles : (m : VersionMarker) (x : NodeId) → Settles (add_to_field m x)
  unfolding add_to_field
  add_to_field-Settles m x none =
      ground (arith, get-insert_self (Map.empty {K = NodeId}) x m, markers.cmp_refl m)
  add_to_field-Settles m x (some s) = add_to_value-Settles m x s.version s.value

  remove_from_value-Settles :
      (m : VersionMarker) (x : NodeId) (version : VersionMarker) (v : FieldValue J)
      → remove_from_field m x (some (remove_from_value m x version v).0)
        ≡ ((remove_from_value m x version v).0, false)
  unfolding remove_from_field
  remove_from_value-Settles m x version (set s) =
      ground (arith, get-insert_self s.removed x m, markers.cmp_refl m)
  remove_from_value-Settles m x version _ =
      ground (arith, get-insert_self (Map.empty {K = NodeId}) x m, markers.cmp_refl m)

  remove_from_field-Settles : (m : VersionMarker) (x : NodeId) → Settles (remove_from_field m x)
  unfolding remove_from_field
  remove_from_field-Settles m x none =
      ground (arith, get-insert_self (Map.empty {K = NodeId}) x m, markers.cmp_refl m)
  remove_from_field-Settles m x (some s) = remove_from_value-Settles m x s.version s.value

  update_cell_again :
      (change : Option (FieldState J) → FieldState J × Bool) (m : VersionMarker) (c : Cell J)
      → Settles change
      → update_cell change m (update_cell change m c).0 ≡ ((update_cell change m c).0, false)
  update_cell_again change m c h = ground (arith, h c.state)

  step_cell_again :
      (m : VersionMarker) (a : OperationAction J) (c : Cell J)
      → step_cell m a (step_cell m a c).0 ≡ ((step_cell m a c).0, false)
  step_cell_again m (set_field node field value) c = ground (arith, markers.cmp_refl m)
  step_cell_again m (add_set_member node field x) c =
      update_cell_again (add_to_field m x) m c (add_to_field-Settles m x)
  step_cell_again m (remove_set_member node field x) c =
      update_cell_again (remove_from_field m x) m c (remove_from_field-Settles m x)
  step_cell_again m (delete_field node field) c = ground (arith, markers.cmp_refl m)

  apply_to_node_again :
      (m : VersionMarker) (a : OperationAction J) (n : NodeState J)
      → apply_to_node m a (apply_to_node m a n).0 ≡ ((apply_to_node m a n).0, false)
  apply_to_node_again m a n =
      let f = touched_field a in
      let n₁ = (apply_to_node m a n).0 in
      let once = Acts-apply_to_node m a n in
      let twice = Acts-apply_to_node m a n₁ in
      let again = step_cell_again m a (cell n f) in
      let own : step_cell m a (cell n₁ f) ≡ (cell n₁ f, false) = rw once.own again in
      pair_path
        (node_ext_at (apply_to_node m a n₁).0 n₁ f twice.id (twice.own ∙ ap (λ p. p.0) own)
          twice.others)
        (twice.accepted ∙ ap (λ p. p.1) own)

  -- A second delivery of an operation leaves the graph as the first left it, and is refused, also
  -- where the first was refused.
  pub apply_to_nodes_again :
      (nodes : Map NodeId (NodeState J)) (op : Operation J)
      → apply_to_nodes (apply_to_nodes nodes op).0 op ≡ ((apply_to_nodes nodes op).0, false)
  unfolding apply_to_nodes
  apply_to_nodes_again nodes op =
      let id = source_node op.action in
      let (state, accepted) = apply_to_node (marker_of op) op.action (entry_or_new nodes id) in
      let again = apply_to_node_again (marker_of op) op.action (entry_or_new nodes id) in
      rw (get-insert_self nodes id state, again)
        (pair_path
          (insert_same (Map.insert nodes id state) id state (get-insert_self nodes id state)) refl)
