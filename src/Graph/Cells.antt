-- ===== src/Graph/Cells.antt =====
-- One field of one node, as operations see it: its state and its tombstone. An operation reads and
-- writes the cell of its own field, and leaves every other cell alone.
use prima_db.Prelude.{
  ◌≡◌, ◌≢◌, ap, inl, inr, Bool, true, false, ◌||◌, Option, none, some, arith, if◌then◌else◌,
}
use prima_db.Text.{Text}
use prima_db.Ord.{list_ord, nat_ord, eq_or_ne}
use prima_db.Map
use prima_db.Map.{Map}
use prima_db.Map.Laws.{map_ext, get-insert_self, get-remove_self, get-insert_ne, get-remove_ne}
use prima_db.Clock.{VersionMarker, marker_ord}
use prima_db.Graph.{FieldState, NodeState, OperationValue, OperationAction, touched_field}
use prima_db.Graph.OperationAction.{set_field, add_set_member, remove_set_member, delete_field}
use prima_db.Graph.Apply.{
  blocked_by, field_blocked_by, field_value, add_to_field, remove_from_field, apply_to_node,
}

pub record Cell (J : Type 0) : Type 0 where
  pub state : Option (FieldState J)
  pub tombstone : Option VersionMarker

module _ {J : Type 0} where
  abbrev pub cell : NodeState J → Text → Cell J
  cell n f = record { state = Map.get n.fields f; tombstone = Map.get n.tombstones f }

  abbrev pub set_cell : VersionMarker → OperationValue J → Cell J → Cell J × Bool
  set_cell m v c = if blocked_by m c.tombstone || field_blocked_by m c.state then (c, false) else (
    record { state = some (record { value = field_value m v; version = m }); tombstone = none },
    true,
  )

  abbrev pub update_cell :
      (Option (FieldState J) → FieldState J × Bool) → VersionMarker → Cell J → Cell J × Bool
  update_cell change m c =
      if blocked_by m c.tombstone
      then (c, false)
      else (record c { state = some (change c.state).0 }, (change c.state).1)

  abbrev pub delete_cell : VersionMarker → Cell J → Cell J × Bool
  delete_cell m c =
      if field_blocked_by m c.state || blocked_by m c.tombstone
      then (c, false)
      else (record { state = none; tombstone = some m }, true)

  abbrev pub step_cell : VersionMarker → OperationAction J → Cell J → Cell J × Bool
  step_cell m (set_field node field value) c = set_cell m value c
  step_cell m (add_set_member node field member) c = update_cell (add_to_field m member) m c
  step_cell m (remove_set_member node field member) c = update_cell (remove_from_field m member) m c
  step_cell m (delete_field node field) c = delete_cell m c

  -- Two nodes with one id and equal cells are equal.
  pub node_ext : (n n' : NodeState J) → n.id ≡ n'.id → ((f : Text) → cell n f ≡ cell n' f) → n ≡ n'
  node_ext n n' e h =
      let fields = map_ext n.fields n'.fields (λ f. ap (λ (c : Cell J). c.state) (h f)) in
      let tombs =
        map_ext n.tombstones n'.tombstones (λ f. ap (λ (c : Cell J). c.tombstone) (h f)) in
      λ i. record { id = e i; fields = fields i; tombstones = tombs i }

  pub node_ext_at :
      (n n' : NodeState J) (f₀ : Text)
      → n.id ≡ n'.id
      → cell n f₀ ≡ cell n' f₀
      → ((f : Text) → f ≢ f₀ → cell n f ≡ cell n' f)
      → n ≡ n'
  node_ext_at n n' f₀ e own others =
      node_ext n n' e
        λ f. elim (eq_or_ne f f₀) [ inl same ↦ rw same own | inr different ↦ others f different ]

  -- What `apply_to_node` does, cell by cell.
  pub record Acts (m : VersionMarker) (a : OperationAction J) (n : NodeState J) : Type 0 where
    pub id : (apply_to_node m a n).0.id ≡ n.id
    pub accepted : (apply_to_node m a n).1 ≡ (step_cell m a (cell n (touched_field a))).1
    pub own :
        cell (apply_to_node m a n).0 (touched_field a)
        ≡ (step_cell m a (cell n (touched_field a))).0
    pub others : (f : Text) → f ≢ touched_field a → cell (apply_to_node m a n).0 f ≡ cell n f

  pub Acts-apply_to_node :
      (m : VersionMarker) (a : OperationAction J) (n : NodeState J) → Acts m a n
  unfolding apply_to_node
  Acts-apply_to_node m (set_field node field value) n = record {
    id = ground arith;
    accepted = ground arith;
    own = ground (
      arith,
      get-insert_self n.fields field (record { value = field_value m value; version = m }),
      get-remove_self n.tombstones field,
    );
    others = λ f h. ground (
      arith,
      get-insert_ne n.fields field (record { value = field_value m value; version = m }) f h,
      get-remove_ne n.tombstones field f h,
    );
  }
  Acts-apply_to_node m (add_set_member node field member) n = record {
    id = ground arith;
    accepted = ground arith;
    own =
        ground (
          arith,
          get-insert_self n.fields field (add_to_field m member (Map.get n.fields field)).0,
        );
    others = λ f h. ground (
      arith,
      get-insert_ne n.fields field (add_to_field m member (Map.get n.fields field)).0 f h,
    );
  }
  Acts-apply_to_node m (remove_set_member node field member) n = record {
    id = ground arith;
    accepted = ground arith;
    own = ground (
      arith,
      get-insert_self n.fields field (remove_from_field m member (Map.get n.fields field)).0,
    );
    others = λ f h. ground (
      arith,
      get-insert_ne n.fields field (remove_from_field m member (Map.get n.fields field)).0 f h,
    );
  }
  Acts-apply_to_node m (delete_field node field) n = record {
    id = ground arith;
    accepted = ground arith;
    own = ground (arith, get-insert_self n.tombstones field m, get-remove_self n.fields field);
    others = λ f h.
        ground (arith, get-insert_ne n.tombstones field m f h, get-remove_ne n.fields field f h);
  }
