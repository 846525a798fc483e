-- ===== src/Graph/SetFields.antt =====
-- Additions and removals of set members: in a field that holds a set or nothing, two of them with
-- different markers have the same effect in both orders.
use prima_db.Prelude.{
  ℕ, [], ◌∷◌, ◌≡◌, ◌≢◌, ap₂, sym, ◌∙◌, Bool, true, false, Option, none, some, arith,
}
use prima_db.Text.{Text}
use prima_db.Ord.{list_ord, nat_ord, ◌<?◌}
use prima_db.Map
use prima_db.Map.Laws.{get-empty, remove-empty}
use prima_db.Clock.{VersionMarker, marker_ord, cmp_marker, revision_ord, cmp_revision}
use prima_db.Graph.{NodeId, SetState, FieldValue, FieldState, zero_marker}
use prima_db.Graph.FieldValue.{set}
use prima_db.Graph.Apply.{add_to_field, remove_from_field}
use prima_db.Graph.Slots.{markers}
use prima_db.Graph.Touch.{touched, version_after, touched_comm, version_comm}

-- A set with its field's version.
abbrev set_at : {J : Type 0} → SetState → VersionMarker → FieldState J
set_at s v = record { value = set s; version = v }

abbrev pub HoldsSet : {J : Type 0} → FieldValue J → Type 0
HoldsSet (set s) = Unit
HoldsSet _ = ⊥

abbrev no_members : SetState
no_members = record { baseline = zero_marker; members = Map.empty; removed = Map.empty }

above_zero_parts :
    (millis counter : ℕ) (actor op_id : Text)
    → let m : VersionMarker = record {
      revision = record { millis = millis; counter = counter; actor = actor };
      op_id = op_id;
    } in
      m ≢ zero_marker → (zero_marker <? m) ≡ true
unfolding marker_ord cmp_marker revision_ord cmp_revision
above_zero_parts millis counter (c ∷ actor) (d ∷ op_id) h = ground arith
above_zero_parts millis counter [] [] h = ground arith
above_zero_parts millis counter _ _ h = ground arith

-- Every marker but the zero marker lies above it.
pub above_zero : (m : VersionMarker) → m ≢ zero_marker → (zero_marker <? m) ≡ true
above_zero m h = above_zero_parts m.revision.millis m.revision.counter m.revision.actor m.op_id h

module _ {J : Type 0} where
  -- The change that an addition (`true`) or a removal (`false`) makes to a field.
  abbrev pub change : Bool → VersionMarker → NodeId → Option (FieldState J) → FieldState J × Bool
  change true m x = add_to_field m x
  change false m x = remove_from_field m x

  change-set_at :
      (b : Bool) (m : VersionMarker) (x : NodeId) (s : SetState) (v : VersionMarker)
      → (change b m x (some (set_at s v))).0 ≡ set_at (touched b m x s) (version_after m x s v)
  unfolding add_to_field remove_from_field touched
  change-set_at true m x s v = ground arith
  change-set_at false m x s v = ground arith

  -- A field that is not there is changed as the empty set at the zero marker.
  change-none :
      (b : Bool) (m : VersionMarker) (x : NodeId)
      → m ≢ zero_marker
      → (change b m x none).0 ≡ (change b m x (some (set_at no_members zero_marker))).0
  unfolding add_to_field remove_from_field
  change-none true m x h = ground (
    arith,
    above_zero m h,
    markers.cmp_swap m zero_marker,
    get-empty {V = VersionMarker} x,
    remove-empty {V = VersionMarker} x,
  )
  change-none false m x h = ground (
    arith,
    above_zero m h,
    markers.cmp_swap m zero_marker,
    get-empty {V = VersionMarker} x,
    remove-empty {V = VersionMarker} x,
  )

  -- The field holds a set, or nothing.
  abbrev pub IsSetOrAbsent : Option (FieldState J) → Type 0
  IsSetOrAbsent none = Unit
  IsSetOrAbsent (some s) = HoldsSet s.value

  change_twice :
      (b b' : Bool) (m m' : VersionMarker) (x y : NodeId) (s : SetState) (v : VersionMarker)
      → (change b' m' y (some (change b m x (some (set_at s v))).0)).0
        ≡ set_at
            (touched b' m' y (touched b m x s))
            (version_after m' y (touched b m x s) (version_after m x s v))
  change_twice b b' m m' x y s v = rw (change-set_at b m x s v) (change-set_at b' m' y _ _)

  change_set_comm :
      (b b' : Bool) (m m' : VersionMarker) (x y : NodeId) (s : SetState) (v : VersionMarker)
      → m ≢ m'
      → (change b' m' y (some (change b m x (some (set_at s v))).0)).0
        ≡ (change b m x (some (change b' m' y (some (set_at s v))).0)).0
  change_set_comm b b' m m' x y s v h =
      change_twice b b' m m' x y s v
      ∙ ap₂ set_at (touched_comm b b' m m' x y s h) (version_comm b b' m m' x y s v h)
      ∙ sym (change_twice b' b m' m y x s v)

  -- Two additions or removals of one field with different markers, neither the zero marker, commute.
  pub change_comm :
      (b b' : Bool) (m m' : VersionMarker) (x y : NodeId) (s : Option (FieldState J))
      → m ≢ m'
      → m ≢ zero_marker
      → m' ≢ zero_marker
      → IsSetOrAbsent s
      → (change b' m' y (some (change b m x s).0)).0 ≡ (change b m x (some (change b' m' y s).0)).0
  change_comm b b' m m' x y none h z z' i =
      rw (change-none b m x z, change-none b' m' y z')
        (change_set_comm b b' m m' x y no_members zero_marker h)
  change_comm b b' m m' x y (some s) h z z' i = at_value s.value s.version i
    where
      at_value :
          (w : FieldValue J) (v : VersionMarker)
          → HoldsSet w
          → let f : FieldState J = record { value = w; version = v } in
            (change b' m' y (some (change b m x (some f)).0)).0
            ≡ (change b m x (some (change b' m' y (some f)).0)).0
      at_value (set s) v i = change_set_comm b b' m m' x y s v h
      at_value _ v i = absurd i

  -- An addition or a removal leaves a set, where there was a set or nothing.
  pub change-HoldsSet :
      (b : Bool) (m : VersionMarker) (x : NodeId) (s : Option (FieldState J))
      → IsSetOrAbsent s
      → HoldsSet (change b m x s).0.value
  unfolding add_to_field remove_from_field
  change-HoldsSet true m x none i = tt
  change-HoldsSet false m x none i = tt
  change-HoldsSet b m x (some s) i = at_value s.value s.version i
    where
      at_value :
          (w : FieldValue J) (v : VersionMarker)
          → HoldsSet w
          → HoldsSet (change b m x (some (record { value = w; version = v }))).0.value
      at_value (set s) v i = rw (change-set_at b m x s v) tt
      at_value _ v i = absurd i
