-- ===== src/Merge.antt =====
-- The merge of snapshots in db.rs: `merge_node_state` and what it calls, and `observe_node_state`,
-- which moves the clock past every marker of a node that comes in.
pub mod Commutes
use prima_db.Prelude.{
  Bool, true, false, ◌||◌, Option, none, some, List, [], ◌∷◌, map, is_some_and, if◌then◌else◌,
}
use prima_db.Text.{Text}
use prima_db.Ord.{list_ord, nat_ord, ◌≤?◌, ◌<?◌}
use prima_db.Map
use prima_db.Map.{Map}
use prima_db.Clock.{HybridClock, VersionMarker, marker_ord, observe}
use prima_db.Graph.{NodeId, SetState, FieldValue, FieldState, NodeState}
use prima_db.Graph.Apply.{blocked_by, field_blocked_by, entry_or_new}

-- `std::cmp::max`
abbrev pub larger : VersionMarker → VersionMarker → VersionMarker
larger left right = if left ≤? right then right else left

unfoldable pub max_marker : Option VersionMarker → Option VersionMarker → Option VersionMarker
max_marker (some left) (some right) = some (larger left right)
max_marker (some left) none = some left
max_marker none right = right

-- `candidate_ids.extend(..)`; a `BTreeSet` is a map to `Unit`.
unfoldable pub extend : Map NodeId (Unit {0}) → List NodeId → Map NodeId (Unit {0})
extend ids [] = ids
extend ids (id ∷ rest) = extend (Map.insert ids id tt) rest

unfoldable pub candidate_ids : SetState → SetState → Map NodeId (Unit {0})
unfolding extend
candidate_ids current incoming =
    let mine = extend (extend Map.empty (Map.keys current.members)) (Map.keys current.removed) in
    extend (extend mine (Map.keys incoming.members)) (Map.keys incoming.removed)

-- The members and the removals that the loop of `merge_set_state` has found.
pub record Merged : Type 0 where
  pub members : Map NodeId VersionMarker
  pub removed : Map NodeId VersionMarker

-- A marker that is above the baseline.
abbrev pub valid : VersionMarker → Option VersionMarker → Option VersionMarker
valid baseline none = none
valid baseline (some marker) = if baseline <? marker then some marker else none

-- The match at the end of the loop, on the valid addition and the valid removal.
unfoldable pub keep_latest : NodeId → Option VersionMarker → Option VersionMarker → Merged → Merged
keep_latest member (some add) (some drop) found =
    if drop <? add
    then record found { members = Map.insert found.members member add }
    else record found { removed = Map.insert found.removed member drop }
keep_latest member (some add) none found = record found {
  members = Map.insert found.members member add;
}
keep_latest member none (some drop) found = record found {
  removed = Map.insert found.removed member drop;
}
keep_latest member none none found = found

-- One turn of the loop of `merge_set_state`.
unfoldable pub merge_member : VersionMarker → SetState → SetState → NodeId → Merged → Merged
unfolding max_marker keep_latest
merge_member baseline current incoming member found =
    let add = max_marker (Map.get current.members member) (Map.get incoming.members member) in
    let drop = max_marker (Map.get current.removed member) (Map.get incoming.removed member) in
    keep_latest member (valid baseline add) (valid baseline drop) found

unfoldable pub merge_members : VersionMarker → SetState → SetState → List NodeId → Merged → Merged
unfolding merge_member
merge_members baseline current incoming [] found = found
merge_members baseline current incoming (member ∷ rest) found =
    merge_members baseline current incoming rest
      (merge_member baseline current incoming member found)

unfoldable pub merge_set_state : SetState → SetState → SetState
unfolding merge_members candidate_ids
merge_set_state current incoming =
    let baseline = larger current.baseline incoming.baseline in
    let found =
      merge_members baseline current incoming (Map.keys (candidate_ids current incoming))
        (record { members = Map.empty; removed = Map.empty }) in
    record { baseline = baseline; members = found.members; removed = found.removed }

unfoldable pub observe_markers : HybridClock → List (Text × VersionMarker) → HybridClock
unfolding observe
observe_markers clock [] = clock
observe_markers clock ((key, marker) ∷ rest) = observe_markers (observe clock marker.revision) rest

module _ {J : Type 0} where
  -- The branch of `merge_field_state` that is not for two sets.
  abbrev pub newer_field : FieldState J → FieldState J → FieldState J
  newer_field existing incoming =
      if existing.version <? incoming.version then incoming else existing

  -- The match of `merge_field_state`, on the two values.
  abbrev pub merge_values : FieldValue J → FieldValue J → FieldState J → FieldState J → FieldState J
  merge_values (FieldValue.set current) (FieldValue.set incoming_set) existing incoming = record {
    value = FieldValue.set (merge_set_state current incoming_set);
    version = if existing.version <? incoming.version then incoming.version else existing.version;
  }
  merge_values _ _ existing incoming = newer_field existing incoming

  unfoldable pub merge_field_state : FieldState J → FieldState J → FieldState J
  unfolding merge_set_state
  merge_field_state existing incoming = merge_values existing.value incoming.value existing incoming

  -- The first loop of `merge_node_state`.
  unfoldable pub merge_tombstones : List (Text × VersionMarker) → NodeState J → NodeState J
  merge_tombstones [] current = current
  merge_tombstones ((field, tombstone) ∷ rest) current =
      let tombstone_blocks = blocked_by tombstone (Map.get current.tombstones field) in
      let field_blocks = field_blocked_by tombstone (Map.get current.fields field) in
      merge_tombstones rest (
        if tombstone_blocks || field_blocks then current else record current {
          fields = Map.remove current.fields field;
          tombstones = Map.insert current.tombstones field tombstone;
        })

  abbrev pub merged_field : Option (FieldState J) → FieldState J → FieldState J
  merged_field none incoming = incoming
  merged_field (some existing) incoming = merge_field_state existing incoming

  -- The second loop of `merge_node_state`.
  unfoldable pub merge_fields : List (Text × FieldState J) → NodeState J → NodeState J
  unfolding merge_field_state
  merge_fields [] current = current
  merge_fields ((field, incoming) ∷ rest) current = merge_fields rest (
      if blocked_by incoming.version (Map.get current.tombstones field)
      then current
      else record current {
        tombstones = Map.remove current.tombstones field;
        fields =
            Map.insert current.fields field (merged_field (Map.get current.fields field) incoming);
      })

  unfoldable pub merge_node_state :
      Map NodeId (NodeState J) → NodeState J → Map NodeId (NodeState J)
  unfolding merge_tombstones merge_fields
  merge_node_state nodes incoming =
      let current = entry_or_new nodes incoming.id in
      Map.insert nodes incoming.id (
        merge_fields incoming.fields.entries (merge_tombstones incoming.tombstones.entries current))

  abbrev pub observe_value : HybridClock → FieldValue J → HybridClock
  observe_value clock (FieldValue.set s) =
      observe_markers (observe_markers (observe clock s.baseline.revision) s.members.entries)
        s.removed.entries
  observe_value clock _ = clock

  unfoldable pub observe_fields : HybridClock → List (Text × FieldState J) → HybridClock
  unfolding observe observe_markers
  observe_fields clock [] = clock
  observe_fields clock ((key, field) ∷ rest) =
      observe_fields (observe_value (observe clock field.version.revision) field.value) rest

  unfoldable pub observe_node_state : HybridClock → NodeState J → HybridClock
  unfolding observe_markers observe_fields
  observe_node_state clock node =
      observe_fields (observe_markers clock node.tombstones.entries) node.fields.entries
