-- ===== src/Replica/Writes.antt =====
-- A local write is never refused for being old.
use prima_db.Prelude.{ℕ, ◌<◌, ◌≡◌, refl, ap, ◌∙◌, Bool, true, false, leb, arith, if◌then◌else◌}
use prima_db.Ord.{list_ord, nat_ord, ◌≺◌}
use prima_db.Clock.{
  revision_ord, VersionMarker, marker_ord, cmp_marker, next_revision, next_op_id, u32_max,
}
use prima_db.Clock.Order.{Covers, next_revision-above}
use prima_db.Graph.{OperationAction, Operation, marker_of, source_node, touched_field}
use prima_db.Graph.Apply.{entry_or_new}
use prima_db.Graph.Cells.{cell}
use prima_db.Graph.Marks.{CellMarks, CellMarks-map, apply_to_node_accepts}
use prima_db.Queue.{len}
use prima_db.Replica.{
  Inner, from_here, refused_at_once, apply_to_graph, enqueue, apply_operation_internal,
  namespace_of, local_write, write,
}

marker_above : (v : VersionMarker) (m : VersionMarker) → v.revision ≺ m.revision → v ≺ m
unfolding marker_ord cmp_marker revision_ord
marker_above v m h = rw h refl

module _ {J : Type 0} where
  graph_accepts :
      (inner : Inner J) (op : Operation J)
      → CellMarks
          (λ v. v ≺ marker_of op)
          (cell (entry_or_new inner.nodes (source_node op.action)) (touched_field op.action))
      → (apply_to_graph inner op).1 ≡ true
  unfolding apply_to_graph
  graph_accepts inner op h =
      apply_to_node_accepts (marker_of op) op.action
        (entry_or_new inner.nodes (source_node op.action)) h

  abbrev taken : Inner J × Bool → Inner J × Bool → Bool → Inner J × Bool
  taken s t accepted = if accepted then s else t

  local_accepts :
      (inner : Inner J) (op : Operation J)
      → len inner.pending_ops < inner.max_pending_ops
      → (apply_to_graph inner op).1 ≡ true
      → (apply_operation_internal inner op from_here).1 ≡ true
  unfolding apply_operation_internal refused_at_once
  local_accepts inner op room accepted =
      let changed = (apply_to_graph inner op).0 in
      let queued : Inner J × Bool = (enqueue op from_here changed, true) in
      let is_full : leb inner.max_pending_ops (len inner.pending_ops) ≡ false = ground arith in
      ap
        (λ full.
          (if full
            then (inner, false)
            else taken queued (changed, false) (apply_to_graph inner op).1).1)
        is_full
      ∙ ap (λ b. (taken queued (changed, false) b).1) accepted

  -- A local write is accepted, whatever its kind and whatever the wall clock reads, if the clock has
  -- seen every marker that the field holds, the clock's counter is below the largest `u32` and the
  -- queue of pending operations has room.
  pub write_accepted :
      (inner : Inner J) (now : ℕ) (action : OperationAction J)
      → len inner.pending_ops < inner.max_pending_ops
      → inner.clock.counter < u32_max
      → CellMarks
          (λ v. Covers inner.clock v.revision)
          (cell (entry_or_new inner.nodes (source_node action)) (touched_field action))
      → (write inner now action).1 ≡ true
  unfolding write local_write next_op_id
  write_accepted inner now action room count seen =
      let (c₁, revision) = next_revision inner.clock now in
      let (c₂, op_id) = next_op_id c₁ (namespace_of action) in
      let op : Operation J = record {
        op_id = op_id;
        author = c₂.actor;
        revision = revision;
        action = action;
      } in
      let ticked : Inner J = record inner { clock = c₂ } in
      local_accepts ticked op room (
        graph_accepts ticked op (
          CellMarks-map (λ v. Covers inner.clock v.revision) (λ v. v ≺ marker_of op)
            (cell (entry_or_new inner.nodes (source_node action)) (touched_field action))
            (λ v h.
              marker_above v (marker_of op)
                (next_revision-above inner.clock now v.revision count h))
            seen))
