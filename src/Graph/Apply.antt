-- ===== src/Graph/Apply.antt =====
-- What one operation does to the graph: the match in `apply_operation_internal` of db.rs. Each
-- branch returns the node and whether the operation was accepted.
use prima_db.Prelude.{
  Bool, true, false, ◌||◌, Option, none, some, List, [], ◌∷◌, is_some_and, unwrap_or, if◌then◌else◌,
}
use prima_db.Text.{Text}
use prima_db.Ord.{list_ord, nat_ord, ◌≤?◌, ◌<?◌}
use prima_db.Map
use prima_db.Map.{Map}
use prima_db.Clock.{VersionMarker, marker_ord}
use prima_db.Graph.{
  NodeId, FieldValue, FieldState, NodeState, new_node, OperationValue, OperationAction, Operation,
  zero_marker, marker_of, source_node,
}
use prima_db.Graph.OperationAction.{set_field, add_set_member, remove_set_member, delete_field}

-- A version that is there and not older than the marker blocks it.
abbrev pub blocked_by : VersionMarker → Option VersionMarker → Bool
blocked_by marker current = is_some_and current (λ c. marker ≤? c)

abbrev pub field_blocked_by : {J : Type 0} → VersionMarker → Option (FieldState J) → Bool
field_blocked_by marker current = is_some_and current (λ c. marker ≤? c.version)

-- All the members, each at the marker.
unfoldable pub members_at : VersionMarker → List NodeId → Map NodeId VersionMarker
members_at marker [] = Map.empty
members_at marker (member ∷ rest) = Map.insert (members_at marker rest) member marker

unfoldable pub field_value : {J : Type 0} → VersionMarker → OperationValue J → FieldValue J
unfolding members_at
field_value marker (OperationValue.scalar value) = FieldValue.scalar value
field_value marker (OperationValue.binary content) = FieldValue.binary content
field_value marker (OperationValue.blob reference) = FieldValue.blob reference
field_value marker (OperationValue.link target) = FieldValue.link target
field_value marker (OperationValue.set members) =
    FieldValue.set
      (record { baseline = marker; members = members_at marker members; removed = Map.empty })

abbrev pub later : VersionMarker → VersionMarker → VersionMarker
later marker version = if version <? marker then marker else version

module _ {J : Type 0} where
  unfoldable pub apply_set_field :
      VersionMarker → Text → OperationValue J → NodeState J → NodeState J × Bool
  unfolding field_value
  apply_set_field marker field value state =
      let tombstone_blocks = blocked_by marker (Map.get state.tombstones field) in
      let field_blocks = field_blocked_by marker (Map.get state.fields field) in
      if tombstone_blocks || field_blocks then (state, false) else (
        record state {
          tombstones = Map.remove state.tombstones field;
          fields =
              Map.insert state.fields field
                (record { value = field_value marker value; version = marker });
        },
        true,
      )

  -- The `match &mut current.value` of the branch `AddSetMember`, on the parts of `current`.
  unfoldable pub add_to_value :
      VersionMarker → NodeId → VersionMarker → FieldValue J → FieldState J × Bool
  add_to_value marker member version (FieldValue.set s) =
      let current : FieldState J = record { value = FieldValue.set s; version = version } in
      if marker ≤? s.baseline
      then (current, false)
      else if blocked_by marker (Map.get s.members member)
          || blocked_by marker (Map.get s.removed member)
      then (current, false)
      else (
        record {
          value = FieldValue.set (record s {
            members = Map.insert s.members member marker;
            removed = Map.remove s.removed member;
          });
          version = later marker version;
        },
        true,
      )
  add_to_value marker member version value =
      if marker ≤? version then (record { value = value; version = version }, false) else (
        record {
          value = FieldValue.set (record {
            baseline = marker;
            members = Map.insert Map.empty member marker;
            removed = Map.empty;
          });
          version = marker;
        },
        true,
      )

  -- The `match state.fields.get_mut(field)` around it.
  unfoldable pub add_to_field : VersionMarker → NodeId → Option (FieldState J) → FieldState J × Bool
  unfolding add_to_value
  add_to_field marker member none = (
    record {
      value = FieldValue.set (record {
        baseline = zero_marker;
        members = Map.insert Map.empty member marker;
        removed = Map.empty;
      });
      version = marker;
    },
    true,
  )
  add_to_field marker member (some current) =
      add_to_value marker member current.version current.value

  unfoldable pub apply_add_set_member :
      VersionMarker → Text → NodeId → NodeState J → NodeState J × Bool
  unfolding add_to_field
  apply_add_set_member marker field member state =
      if blocked_by marker (Map.get state.tombstones field)
      then (state, false)
      else let (current, accepted) = add_to_field marker member (Map.get state.fields field) in
        (record state { fields = Map.insert state.fields field current }, accepted)

  -- The `match &mut current.value` of the branch `RemoveSetMember`.
  unfoldable pub remove_from_value :
      VersionMarker → NodeId → VersionMarker → FieldValue J → FieldState J × Bool
  remove_from_value marker member version (FieldValue.set s) =
      let current : FieldState J = record { value = FieldValue.set s; version = version } in
      if marker ≤? s.baseline
      then (current, false)
      else if blocked_by marker (Map.get s.members member)
          || blocked_by marker (Map.get s.removed member)
      then (current, false)
      else (
        record {
          value = FieldValue.set (record s {
            members = Map.remove s.members member;
            removed = Map.insert s.removed member marker;
          });
          version = later marker version;
        },
        true,
      )
  remove_from_value marker member version value =
      if marker ≤? version then (record { value = value; version = version }, false) else (
        record {
          value = FieldValue.set (record {
            baseline = zero_marker;
            members = Map.empty;
            removed = Map.insert Map.empty member marker;
          });
          version = marker;
        },
        true,
      )

  unfoldable pub remove_from_field :
      VersionMarker → NodeId → Option (FieldState J) → FieldState J × Bool
  unfolding remove_from_value
  remove_from_field marker member none = (
    record {
      value = FieldValue.set (record {
        baseline = zero_marker;
        members = Map.empty;
        removed = Map.insert Map.empty member marker;
      });
      version = marker;
    },
    true,
  )
  remove_from_field marker member (some current) =
      remove_from_value marker member current.version current.value

  unfoldable pub apply_remove_set_member :
      VersionMarker → Text → NodeId → NodeState J → NodeState J × Bool
  unfolding remove_from_field
  apply_remove_set_member marker field member state =
      if blocked_by marker (Map.get state.tombstones field)
      then (state, false)
      else let (current, accepted) = remove_from_field marker member (Map.get state.fields field) in
        (record state { fields = Map.insert state.fields field current }, accepted)

  unfoldable pub apply_delete_field : VersionMarker → Text → NodeState J → NodeState J × Bool
  apply_delete_field marker field state =
      let field_blocks = field_blocked_by marker (Map.get state.fields field) in
      let tombstone_blocks = blocked_by marker (Map.get state.tombstones field) in
      if field_blocks || tombstone_blocks then (state, false) else (
        record state {
          fields = Map.remove state.fields field;
          tombstones = Map.insert state.tombstones field marker;
        },
        true,
      )

  unfoldable pub apply_to_node :
      VersionMarker → OperationAction J → NodeState J → NodeState J × Bool
  unfolding apply_set_field apply_add_set_member apply_remove_set_member apply_delete_field
  apply_to_node marker (set_field node field value) state = apply_set_field marker field value state
  apply_to_node marker (add_set_member node field member) state =
      apply_add_set_member marker field member state
  apply_to_node marker (remove_set_member node field member) state =
      apply_remove_set_member marker field member state
  apply_to_node marker (delete_field node field) state = apply_delete_field marker field state

  -- `nodes.entry(id).or_insert_with(|| NodeState::new(id))`
  abbrev pub entry_or_new : Map NodeId (NodeState J) → NodeId → NodeState J
  entry_or_new nodes id = unwrap_or (Map.get nodes id) (new_node id)

  -- The entry is created, and stays, also where the operation is then refused.
  unfoldable pub apply_to_nodes :
      Map NodeId (NodeState J) → Operation J → Map NodeId (NodeState J) × Bool
  unfolding apply_to_node
  apply_to_nodes nodes op =
      let id = source_node op.action in
      let (state, accepted) = apply_to_node (marker_of op) op.action (entry_or_new nodes id) in
      (Map.insert nodes id state, accepted)
