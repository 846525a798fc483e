-- ===== src/Graph/Registers.antt =====
-- Assignments and deletions of one field: whatever the field holds, two of them with different
-- markers have the same effect in both orders.
use prima_db.Prelude.{◌≡◌, ◌≢◌, Option, none, some, lt, inl, inr, arith, sym}
use prima_db.Ord.{Ord, le_of_lt_le, lt_or_gt}
use prima_db.Clock.{VersionMarker, marker_ord}
use prima_db.Graph.{OperationValue, FieldState}
use prima_db.Graph.Cells.{Cell, set_cell, delete_cell}

abbrev markers : Ord VersionMarker
markers = marker_ord

-- An assignment or a deletion.
pub data Write (J : Type 0) : Type 0 where
  assign : OperationValue J → Write J
  erase : Write J

module _ {J : Type 0} where
  abbrev pub write_cell : VersionMarker → Write J → Cell J → Cell J
  write_cell m (assign v) c = (set_cell m v c).0
  write_cell m erase c = (delete_cell m c).0

  write_ordered :
      (m m' : VersionMarker) (w w' : Write J) (s : Option (FieldState J)) (t : Option VersionMarker)
      → markers.cmp m m' ≡ lt
      → let c : Cell J = record { state = s; tombstone = t } in
        write_cell m' w' (write_cell m w c) ≡ write_cell m w (write_cell m' w' c)
  write_ordered m m' (assign v) (assign v') none none h = ground (arith, markers.cmp_swap m m')
  write_ordered m m' w w' none (some t) h =
      ground (arith, markers.cmp_swap m m', le_of_lt_le m m' t)
  write_ordered m m' w w' (some s) none h =
      ground (arith, markers.cmp_swap m m', le_of_lt_le m m' s.version)
  write_ordered m m' w w' (some s) (some t) h =
      ground (arith, markers.cmp_swap m m', le_of_lt_le m m' t, le_of_lt_le m m' s.version)
  write_ordered m m' _ _ _ _ h = ground (arith, markers.cmp_swap m m')

  -- Two writes of one field with different markers commute.
  pub write_cell_comm :
      (m m' : VersionMarker) (w w' : Write J) (c : Cell J)
      → m ≢ m'
      → write_cell m' w' (write_cell m w c) ≡ write_cell m w (write_cell m' w' c)
  write_cell_comm m m' w w' c h = elim (lt_or_gt m m' h) [
    | inl before ↦ write_ordered m m' w w' c.state c.tombstone before
    | inr after ↦ sym (write_ordered m' m w' w c.state c.tombstone after)
  ]
