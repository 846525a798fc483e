-- ===== src/Tests/Merges.antt =====
-- The merge's theorems at concrete inputs, and a run of it.
use prima_db.Prelude.{ℕ, ◌≡◌, refl, ap, arith}
use prima_db.Text.{bytes}
use prima_db.Ord.{list_ord, nat_ord}
use prima_db.Map
use prima_db.Clock.{marker_ord, cmp_marker, cmp_revision}
use prima_db.Graph.{SetState, FieldValue, FieldState, marker_of, zero_marker}
use prima_db.Merge.{merge_set_state, merge_field_state}
use prima_db.Merge.Commutes.{merge_set_state_comm, merge_field_state_comm}
use prima_db.Tests.Data.{titled, tagged, untagged}

abbrev one_member : SetState
one_member = record {
  baseline = zero_marker;
  members = Map.insert Map.empty (bytes "tag/x") (marker_of tagged);
  removed = Map.empty;
}

abbrev one_removed : SetState
one_removed = record {
  baseline = zero_marker;
  members = Map.empty;
  removed = Map.insert Map.empty (bytes "tag/x") (marker_of untagged);
}

merge_set_state_comm_example :
    merge_set_state one_member one_removed ≡ merge_set_state one_removed one_member
merge_set_state_comm_example = merge_set_state_comm one_member one_removed

abbrev before : FieldState ℕ
before = record { value = FieldValue.scalar 4; version = marker_of titled }

abbrev after : FieldState ℕ
after = record { value = FieldValue.set one_member; version = marker_of tagged }

merge_field_state_comm_example : merge_field_state before after ≡ merge_field_state after before
merge_field_state_comm_example =
    merge_field_state_comm before after
      λ same. let millis = ap (λ m. m.revision.millis) same in omega arith

-- A set that was assigned loses its members when it is merged with itself.
abbrev assigned : SetState
assigned = record {
  baseline = marker_of titled;
  members = Map.insert Map.empty (bytes "tag/x") (marker_of titled);
  removed = Map.empty;
}

merge_drops_assigned :
    merge_set_state assigned assigned
    ≡ record { baseline = marker_of titled; members = Map.empty; removed = Map.empty }
unfolding merge_set_state marker_ord Map.get Map.insert list_ord nat_ord cmp_marker cmp_revision
merge_drops_assigned = refl
