-- ===== src/Merge/Commutes.antt =====
-- The merge of two sets, and of two states of a field, does not depend on which one comes in.
use prima_db.Prelude.{
  ◌≡◌, ◌≢◌, refl, ap, ap₂, sym, ◌∙◌, inl, inr, Bool, true, false, Option, none, some, List, [], ◌∷◌,
  if◌then◌else◌, arith,
}
use prima_db.Ord.{Ord, list_ord, nat_ord, eq_or_ne, ◌<?◌}
use prima_db.Map
use prima_db.Map.{Map}
use prima_db.Map.Laws.{insert_comm}
use prima_db.Clock.{VersionMarker, marker_ord}
use prima_db.Graph.{NodeId, SetState, FieldValue, FieldState}
use prima_db.Merge.{
  larger, max_marker, extend, candidate_ids, Merged, valid, keep_latest, merge_member,
  merge_members, merge_set_state, newer_field, merge_values, merge_field_state,
}

abbrev markers : Ord VersionMarker
markers = marker_ord

abbrev Ids : Type 0
Ids = Map NodeId (Unit {0})

larger_comm : (a b : VersionMarker) → larger a b ≡ larger b a
larger_comm a b = ground (arith, markers.cmp_swap a b, markers.eq_of_cmp a b)

max_marker_comm : (a b : Option VersionMarker) → max_marker a b ≡ max_marker b a
unfolding max_marker
max_marker_comm none none = refl
max_marker_comm none (some b) = refl
max_marker_comm (some a) none = refl
max_marker_comm (some a) (some b) = ap some (larger_comm a b)

insert_two :
    (ids : Ids) (x y : NodeId)
    → Map.insert (Map.insert ids x tt) y tt ≡ Map.insert (Map.insert ids y tt) x tt
insert_two ids x y = elim (eq_or_ne x y) [
  | inl same ↦ rw same refl
  | inr different ↦ insert_comm ids x y tt tt different
]

extend-insert :
    (ids : Ids) (x : NodeId) (ys : List NodeId)
    → extend (Map.insert ids x tt) ys ≡ Map.insert (extend ids ys) x tt
unfolding extend
extend-insert ids x [] = refl
extend-insert ids x (y ∷ ys) =
    ap (λ s. extend s ys) (insert_two ids x y) ∙ extend-insert (Map.insert ids y tt) x ys

extend_comm :
    (ids : Ids) (xs ys : List NodeId) → extend (extend ids xs) ys ≡ extend (extend ids ys) xs
unfolding extend
extend_comm ids [] ys = refl
extend_comm ids (x ∷ xs) ys =
    extend_comm (Map.insert ids x tt) xs ys ∙ ap (λ s. extend s xs) (extend-insert ids x ys)

candidate_ids_comm : (a b : SetState) → candidate_ids a b ≡ candidate_ids b a
unfolding candidate_ids
candidate_ids_comm a b =
    let am = Map.keys a.members in
    let ar = Map.keys a.removed in
    let bm = Map.keys b.members in
    let br = Map.keys b.removed in
    let none_yet : Ids = Map.empty in
    ap (λ s. extend s br) (extend_comm (extend none_yet am) ar bm)
    ∙ ap (λ s. extend (extend s ar) br) (extend_comm none_yet am bm)
    ∙ extend_comm (extend (extend none_yet bm) am) ar br
    ∙ ap (λ s. extend s ar) (extend_comm (extend none_yet bm) am br)

merge_member_comm :
    (m : VersionMarker) (a b : SetState) (x : NodeId) (found : Merged)
    → merge_member m a b x found ≡ merge_member m b a x found
unfolding merge_member
merge_member_comm m a b x found =
    ap₂ (λ add drop. keep_latest x (valid m add) (valid m drop) found)
      (max_marker_comm (Map.get a.members x) (Map.get b.members x))
      (max_marker_comm (Map.get a.removed x) (Map.get b.removed x))

merge_members_comm :
    (m : VersionMarker) (a b : SetState) (ids : List NodeId) (found : Merged)
    → merge_members m a b ids found ≡ merge_members m b a ids found
unfolding merge_members
merge_members_comm m a b [] found = refl
merge_members_comm m a b (x ∷ ids) found =
    ap (merge_members m a b ids) (merge_member_comm m a b x found)
    ∙ merge_members_comm m a b ids (merge_member m b a x found)

-- Merging two states of a set gives the same state whichever of them comes in.
pub merge_set_state_comm : (a b : SetState) → merge_set_state a b ≡ merge_set_state b a
unfolding merge_set_state
merge_set_state_comm a b =
    let start : Merged = record { members = Map.empty; removed = Map.empty } in
    let found =
      ap₂ (λ m ids. merge_members m a b (Map.keys ids) start) (larger_comm a.baseline b.baseline)
        (candidate_ids_comm a b)
      ∙ merge_members_comm (larger b.baseline a.baseline) a b (Map.keys (candidate_ids b a))
          start in
    λ i. record {
      baseline = larger_comm a.baseline b.baseline i;
      members = (found i).members;
      removed = (found i).removed;
    }

later_comm : (v w : VersionMarker) → (if v <? w then w else v) ≡ (if w <? v then v else w)
later_comm v w = ground (arith, markers.cmp_swap v w, markers.eq_of_cmp v w)

module _ {J : Type 0} where
  newer_field_comm :
      (a b : FieldState J) → a.version ≢ b.version → newer_field a b ≡ newer_field b a
  newer_field_comm a b h =
      ground (arith, markers.cmp_swap a.version b.version, markers.eq_of_cmp a.version b.version)

  abbrev is_set : FieldValue J → Bool
  is_set (FieldValue.set s) = true
  is_set _ = false

  merge_into_plain :
      (v w : FieldValue J) (a b : FieldState J)
      → is_set w ≡ false
      → merge_values v w a b ≡ newer_field a b
  merge_into_plain (FieldValue.set s) (FieldValue.set r) a b h = absurd (cc)
  merge_into_plain (FieldValue.set s) _ a b h = refl
  merge_into_plain _ w a b h = refl

  merge_values_comm :
      (v w : FieldValue J) (a b : FieldState J)
      → a.version ≢ b.version
      → merge_values v w a b ≡ merge_values w v b a
  merge_values_comm (FieldValue.set s) (FieldValue.set r) a b h = λ i. record {
    value = FieldValue.set (merge_set_state_comm s r i);
    version = later_comm a.version b.version i;
  }
  merge_values_comm (FieldValue.set s) _ a b h = newer_field_comm a b h
  merge_values_comm v w a b h = newer_field_comm a b h ∙ sym (merge_into_plain w v b a refl)

  -- Merging two states of a field with different versions gives the same state whichever of them
  -- comes in, of whatever kinds their values are.
  pub merge_field_state_comm :
      (a b : FieldState J) → a.version ≢ b.version → merge_field_state a b ≡ merge_field_state b a
  unfolding merge_field_state
  merge_field_state_comm a b h = merge_values_comm a.value b.value a b h
