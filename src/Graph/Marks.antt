-- ===== src/Graph/Marks.antt =====
-- The markers that one field of one node holds. An operation with a marker above all of them is
-- accepted, whatever its kind and the field's are.
use prima_db.Prelude.{◌≡◌, refl, ◌∙◌, true, false, Option, none, some, arith}
use prima_db.Ord.{Ord, list_ord, nat_ord, ◌≺◌}
use prima_db.Map
use prima_db.Clock.{VersionMarker, marker_ord}
use prima_db.Graph.{
  NodeId, SetState, FieldValue, FieldState, NodeState, OperationAction, touched_field,
}
use prima_db.Graph.OperationAction.{set_field, add_set_member, remove_set_member, delete_field}
use prima_db.Graph.Apply.{
  blocked_by, field_blocked_by, add_to_value, add_to_field, remove_from_value, remove_from_field,
  apply_to_node,
}
use prima_db.Graph.Cells.{Cell, cell, step_cell, Acts-apply_to_node}

abbrev markers : Ord VersionMarker
markers = marker_ord

abbrev pub Marks : (VersionMarker → Type 0) → Option VersionMarker → Type 0
Marks P none = Unit
Marks P (some v) = P v

Marks-map :
    (P Q : VersionMarker → Type 0) (o : Option VersionMarker)
    → ((v : VersionMarker) → P v → Q v)
    → Marks P o
    → Marks Q o
Marks-map P Q none f h = tt
Marks-map P Q (some v) f h = f v h

module _ {J : Type 0} where
  abbrev pub ValueMarks : (VersionMarker → Type 0) → FieldValue J → Type 0
  ValueMarks P (FieldValue.set s) =
      P s.baseline
      × ((x : NodeId) → Marks P (Map.get s.members x))
      × ((x : NodeId) → Marks P (Map.get s.removed x))
  ValueMarks P _ = Unit

  abbrev pub StateMarks : (VersionMarker → Type 0) → Option (FieldState J) → Type 0
  StateMarks P none = Unit
  StateMarks P (some f) = P f.version × ValueMarks P f.value

  -- Every marker in the cell has the property.
  abbrev pub CellMarks : (VersionMarker → Type 0) → Cell J → Type 0
  CellMarks P c = Marks P c.tombstone × StateMarks P c.state

  ValueMarks-map :
      (P Q : VersionMarker → Type 0) (w : FieldValue J)
      → ((v : VersionMarker) → P v → Q v)
      → ValueMarks P w
      → ValueMarks Q w
  ValueMarks-map P Q (FieldValue.set s) f h = (
    f s.baseline h.0,
    λ x. Marks-map P Q (Map.get s.members x) f (h.1 x),
    λ x. Marks-map P Q (Map.get s.removed x) f (h.2 x),
  )
  ValueMarks-map P Q _ f h = tt

  StateMarks-map :
      (P Q : VersionMarker → Type 0) (s : Option (FieldState J))
      → ((v : VersionMarker) → P v → Q v)
      → StateMarks P s
      → StateMarks Q s
  StateMarks-map P Q none f h = tt
  StateMarks-map P Q (some s) f h = (f s.version h.0, ValueMarks-map P Q s.value f h.1)

  pub CellMarks-map :
      (P Q : VersionMarker → Type 0) (c : Cell J)
      → ((v : VersionMarker) → P v → Q v)
      → CellMarks P c
      → CellMarks Q c
  CellMarks-map P Q c f h = (Marks-map P Q c.tombstone f h.0, StateMarks-map P Q c.state f h.1)

abbrev Below : VersionMarker → VersionMarker → Type 0
Below m v = v ≺ m

not_blocked :
    (m : VersionMarker) (o : Option VersionMarker) → Marks (Below m) o → blocked_by m o ≡ false
not_blocked m none h = refl
not_blocked m (some v) h = ground (arith, markers.cmp_swap v m)

add_accepted_in_set :
    (J : Type 0) (m : VersionMarker) (x : NodeId) (s : SetState) (version : VersionMarker)
    → s.baseline ≺ m
    → blocked_by m (Map.get s.members x) ≡ false
    → blocked_by m (Map.get s.removed x) ≡ false
    → (add_to_value {J = J} m x version (FieldValue.set s)).1 ≡ true
unfolding add_to_value
add_accepted_in_set J m x s version h k l =
    let above = markers.cmp_swap s.baseline m in rw (above, h, k, l) refl

remove_accepted_in_set :
    (J : Type 0) (m : VersionMarker) (x : NodeId) (s : SetState) (version : VersionMarker)
    → s.baseline ≺ m
    → blocked_by m (Map.get s.members x) ≡ false
    → blocked_by m (Map.get s.removed x) ≡ false
    → (remove_from_value {J = J} m x version (FieldValue.set s)).1 ≡ true
unfolding remove_from_value
remove_accepted_in_set J m x s version h k l =
    let above = markers.cmp_swap s.baseline m in rw (above, h, k, l) refl

module _ {J : Type 0} (m : VersionMarker) where
  field_not_blocked :
      (s : Option (FieldState J)) → StateMarks (Below m) s → field_blocked_by m s ≡ false
  field_not_blocked none h = refl
  field_not_blocked (some s) h = let below = h.0 in ground (arith, markers.cmp_swap s.version m)

  add_accepted :
      (x : NodeId) (s : Option (FieldState J))
      → StateMarks (Below m) s
      → (add_to_field m x s).1 ≡ true
  unfolding add_to_field
  add_accepted x none h = refl
  add_accepted x (some s) h = at_value s.value s.version h.0 h.1
    where
      at_value :
          (w : FieldValue J) (version : VersionMarker)
          → version ≺ m
          → ValueMarks (Below m) w
          → (add_to_value m x version w).1 ≡ true
      at_value (FieldValue.set s) version h k =
          add_accepted_in_set J m x s version k.0 (not_blocked m (Map.get s.members x) (k.1 x))
            (not_blocked m (Map.get s.removed x) (k.2 x))
      at_value _ version h k = ground (arith, markers.cmp_swap version m)

  remove_accepted :
      (x : NodeId) (s : Option (FieldState J))
      → StateMarks (Below m) s
      → (remove_from_field m x s).1 ≡ true
  unfolding remove_from_field
  remove_accepted x none h = refl
  remove_accepted x (some s) h = at_value s.value s.version h.0 h.1
    where
      at_value :
          (w : FieldValue J) (version : VersionMarker)
          → version ≺ m
          → ValueMarks (Below m) w
          → (remove_from_value m x version w).1 ≡ true
      at_value (FieldValue.set s) version h k =
          remove_accepted_in_set J m x s version k.0 (not_blocked m (Map.get s.members x) (k.1 x))
            (not_blocked m (Map.get s.removed x) (k.2 x))
      at_value _ version h k = ground (arith, markers.cmp_swap version m)

  step_accepted :
      (a : OperationAction J) (c : Cell J) → CellMarks (Below m) c → (step_cell m a c).1 ≡ true
  step_accepted (set_field node field value) c h =
      ground (arith, not_blocked m c.tombstone h.0, field_not_blocked c.state h.1)
  step_accepted (add_set_member node field x) c h =
      ground (arith, not_blocked m c.tombstone h.0, add_accepted x c.state h.1)
  step_accepted (remove_set_member node field x) c h =
      ground (arith, not_blocked m c.tombstone h.0, remove_accepted x c.state h.1)
  step_accepted (delete_field node field) c h =
      ground (arith, not_blocked m c.tombstone h.0, field_not_blocked c.state h.1)

  -- An operation whose marker is above every marker of its field is accepted.
  pub apply_to_node_accepts :
      (a : OperationAction J) (n : NodeState J)
      → CellMarks (λ v. v ≺ m) (cell n (touched_field a))
      → (apply_to_node m a n).1 ≡ true
  apply_to_node_accepts a n h =
      (Acts-apply_to_node m a n).accepted ∙ step_accepted a (cell n (touched_field a)) h
