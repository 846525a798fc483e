-- ===== src/Graph/Schema.antt =====
-- A schema says which fields hold sets. Where all operations keep to one schema, two operations
-- with different markers commute on every cell.
use prima_db.Prelude.{◌≡◌, ◌≢◌, Bool, true, false, arith}
use prima_db.Clock.{VersionMarker}
use prima_db.Graph.{NodeId, OperationAction, zero_marker}
use prima_db.Graph.OperationAction.{set_field, add_set_member, remove_set_member, delete_field}
use prima_db.Graph.Cells.{Cell, step_cell, update_cell}
use prima_db.Graph.Registers.{assign, erase, write_cell_comm}
use prima_db.Graph.SetFields.{change, IsSetOrAbsent, change_comm, change-HoldsSet}

module _ {J : Type 0} where
  -- `true` is for additions and removals of members, `false` for assignments and deletions.
  abbrev pub IsOfKind : Bool → OperationAction J → Type 0
  IsOfKind b (set_field node field value) = b ≡ false
  IsOfKind b (add_set_member node field member) = b ≡ true
  IsOfKind b (remove_set_member node field member) = b ≡ true
  IsOfKind b (delete_field node field) = b ≡ false

  abbrev pub FitsKind : Bool → Cell J → Type 0
  FitsKind true c = IsSetOrAbsent c.state
  FitsKind false c = Unit

  update_comm :
      (b b' : Bool) (m m' : VersionMarker) (x y : NodeId) (c : Cell J)
      → m ≢ m'
      → m ≢ zero_marker
      → m' ≢ zero_marker
      → IsSetOrAbsent c.state
      → (update_cell (change b' m' y) m' (update_cell (change b m x) m c).0).0
        ≡ (update_cell (change b m x) m (update_cell (change b' m' y) m' c).0).0
  update_comm b b' m m' x y c h z z' i = ground (arith, change_comm b b' m m' x y c.state h z z' i)

  pub step_cell_comm :
      (m m' : VersionMarker) (b : Bool) (a a' : OperationAction J) (c : Cell J)
      → m ≢ m'
      → m ≢ zero_marker
      → m' ≢ zero_marker
      → IsOfKind b a
      → IsOfKind b a'
      → FitsKind b c
      → (step_cell m' a' (step_cell m a c).0).0 ≡ (step_cell m a (step_cell m' a' c).0).0
  step_cell_comm m m' false (set_field n f v) (set_field n' f' v') c h z z' k k' fit =
      write_cell_comm m m' (assign v) (assign v') c h
  step_cell_comm m m' false (set_field n f v) (delete_field n' f') c h z z' k k' fit =
      write_cell_comm m m' (assign v) erase c h
  step_cell_comm m m' false (delete_field n f) (set_field n' f' v') c h z z' k k' fit =
      write_cell_comm m m' erase (assign v') c h
  step_cell_comm m m' false (delete_field n f) (delete_field n' f') c h z z' k k' fit =
      write_cell_comm m m' erase erase c h
  step_cell_comm m m' true (add_set_member n f x) (add_set_member n' f' y) c h z z' k k' fit =
      update_comm true true m m' x y c h z z' fit
  step_cell_comm m m' true (add_set_member n f x) (remove_set_member n' f' y) c h z z' k k' fit =
      update_comm true false m m' x y c h z z' fit
  step_cell_comm m m' true (remove_set_member n f x) (add_set_member n' f' y) c h z z' k k' fit =
      update_comm false true m m' x y c h z z' fit
  step_cell_comm m m' true (remove_set_member n f x) (remove_set_member n' f' y) c h z z' k k' fit =
      update_comm false false m m' x y c h z z' fit
  step_cell_comm m m' _ _ _ c h z z' k k' fit = cc

  update_fits :
      (b : Bool) (m : VersionMarker) (x : NodeId) (c : Cell J)
      → IsSetOrAbsent c.state
      → IsSetOrAbsent (update_cell (change b m x) m c).0.state
  update_fits b m x c i = ground (arith, change-HoldsSet b m x c.state i)

  pub step_cell_fits :
      (m : VersionMarker) (b : Bool) (a : OperationAction J) (c : Cell J)
      → IsOfKind b a
      → FitsKind b c
      → FitsKind b (step_cell m a c).0
  step_cell_fits m false a c k fit = tt
  step_cell_fits m true (add_set_member n f x) c k fit = update_fits true m x c fit
  step_cell_fits m true (remove_set_member n f x) c k fit = update_fits false m x c fit
  step_cell_fits m true _ c k fit = cc
