-- ===== src/Graph/Touch.antt =====
-- Additions and removals of the members of a set, with the set's version.
use prima_db.Prelude.{
  ◌≡◌, ◌≢◌, Bool, true, false, ◌||◌, lt, inl, inr, arith, sym, ◌∙◌, if◌then◌else◌,
}
use prima_db.Ord.{Ord, list_ord, nat_ord, le_of_lt_le, lt_or_gt, eq_or_ne, ◌=?◌, ◌≤?◌}
use prima_db.Map
use prima_db.Map.Laws.{get-insert, get-remove}
use prima_db.Clock.{VersionMarker, marker_ord}
use prima_db.Graph.{NodeId, SetState}
use prima_db.Graph.Apply.{later}
use prima_db.Graph.Slots.{
  slot, set_ext, slot_blocks, put, put_comm, blocks_earlier, blocks_put_earlier, blocks_put_later,
  markers,
}

abbrev ids : Ord NodeId
ids = list_ord

abbrev pub refused : VersionMarker → NodeId → SetState → Bool
refused m x s = (m ≤? s.baseline) || slot_blocks m (slot s x)

unfoldable pub touched : Bool → VersionMarker → NodeId → SetState → SetState
touched b m x s =
    if refused m x s
    then s
    else if b
    then record s { members = Map.insert s.members x m; removed = Map.remove s.removed x }
    else record s { members = Map.remove s.members x; removed = Map.insert s.removed x m }

abbrev pub version_after : VersionMarker → NodeId → SetState → VersionMarker → VersionMarker
version_after m x s v = if refused m x s then v else later m v

pub slot-touched :
    (b : Bool) (m : VersionMarker) (x : NodeId) (s : SetState) (j : NodeId)
    → slot (touched b m x s) j
      ≡ (if j =? x then (if m ≤? s.baseline then slot s x else put b m (slot s x)) else slot s j)
unfolding touched
slot-touched true m x s j =
    ground (arith, get-insert s.members x m j, get-remove s.removed x j, ids.eq_of_cmp j x)
slot-touched false m x s j =
    ground (arith, get-insert s.removed x m j, get-remove s.members x j, ids.eq_of_cmp j x)

pub baseline-touched :
    (b : Bool) (m : VersionMarker) (x : NodeId) (s : SetState)
    → (touched b m x s).baseline ≡ s.baseline
unfolding touched
baseline-touched b m x s = ground arith

-- The same, with `touched` shut.
pub slot-touched_self :
    (b : Bool) (m : VersionMarker) (x : NodeId) (s : SetState)
    → slot (touched b m x s) x ≡ (if m ≤? s.baseline then slot s x else put b m (slot s x))
slot-touched_self b m x s = ground (arith, slot-touched b m x s x, ids.cmp_refl x)

pub slot-touched_ne :
    (b : Bool) (m : VersionMarker) (x : NodeId) (s : SetState) (j : NodeId)
    → j ≢ x
    → slot (touched b m x s) j ≡ slot s j
slot-touched_ne b m x s j h = ground (arith, slot-touched b m x s j, ids.eq_of_cmp j x)

pub touched_comm :
    (b b' : Bool) (m m' : VersionMarker) (x y : NodeId) (s : SetState)
    → m ≢ m'
    → touched b' m' y (touched b m x s) ≡ touched b m x (touched b' m' y s)
touched_comm b b' m m' x y s h =
    let xy = touched b' m' y (touched b m x s) in
    let yx = touched b m x (touched b' m' y s) in
    set_ext xy yx
      (cc (
        baseline-touched b' m' y (touched b m x s),
        baseline-touched b m x s,
        baseline-touched b m x (touched b' m' y s),
        baseline-touched b' m' y s,
      ))
      λ j. elim (eq_or_ne j x) [
        | inl jx ↦ elim (eq_or_ne j y) [ inl jy ↦ both j jx jy | inr jy ↦ first j jx jy ]
        | inr jx ↦ elim (eq_or_ne j y) [ inl jy ↦ second j jx jy | inr jy ↦ neither j jx jy ]
      ]
  where
    both :
        (j : NodeId)
        → j ≡ x
        → j ≡ y
        → slot (touched b' m' y (touched b m x s)) j ≡ slot (touched b m x (touched b' m' y s)) j
    both j jx jy = ground (
      arith,
      slot-touched_self b' m' x (touched b m x s),
      slot-touched_self b m x s,
      slot-touched_self b m x (touched b' m' x s),
      slot-touched_self b' m' x s,
      baseline-touched b m x s,
      baseline-touched b' m' x s,
      put_comm b b' m m' (slot s x) h,
    )

    first :
        (j : NodeId)
        → j ≡ x
        → j ≢ y
        → slot (touched b' m' y (touched b m x s)) j ≡ slot (touched b m x (touched b' m' y s)) j
    first j jx jy = ground (
      arith,
      slot-touched_ne b' m' y (touched b m x s) j jy,
      slot-touched_self b m x s,
      slot-touched_self b m x (touched b' m' y s),
      slot-touched_ne b' m' y s j jy,
      baseline-touched b' m' y s,
    )

    second :
        (j : NodeId)
        → j ≢ x
        → j ≡ y
        → slot (touched b' m' y (touched b m x s)) j ≡ slot (touched b m x (touched b' m' y s)) j
    second j jx jy = ground (
      arith,
      slot-touched_ne b m x (touched b' m' y s) j jx,
      slot-touched_self b' m' y s,
      slot-touched_self b' m' y (touched b m x s),
      slot-touched_ne b m x s j jx,
      baseline-touched b m x s,
    )

    neither :
        (j : NodeId)
        → j ≢ x
        → j ≢ y
        → slot (touched b' m' y (touched b m x s)) j ≡ slot (touched b m x (touched b' m' y s)) j
    neither j jx jy =
        slot-touched_ne b' m' y (touched b m x s) j jy
        ∙ slot-touched_ne b m x s j jx
        ∙ sym (slot-touched_ne b' m' y s j jy)
        ∙ sym (slot-touched_ne b m x (touched b' m' y s) j jx)

pub version_ordered :
    (b b' : Bool) (m m' : VersionMarker) (x y : NodeId) (s : SetState) (v : VersionMarker)
    → markers.cmp m m' ≡ lt
    → version_after m' y (touched b m x s) (version_after m x s v)
      ≡ version_after m x (touched b' m' y s) (version_after m' y s v)
version_ordered b b' m m' x y s v h = elim (eq_or_ne x y) [
  | inl same ↦ rw (← same) at_one
  | inr different ↦ apart different
]
  where
    at_one :
        version_after m' x (touched b m x s) (version_after m x s v)
        ≡ version_after m x (touched b' m' x s) (version_after m' x s v)
    at_one = ground (
      arith,
      slot-touched_self b m x s,
      slot-touched_self b' m' x s,
      baseline-touched b m x s,
      baseline-touched b' m' x s,
      blocks_put_earlier b m m' (slot s x) h,
      blocks_put_later b' m m' (slot s x) h,
      blocks_earlier m m' (slot s x) h,
      le_of_lt_le m m' s.baseline h,
      markers.lt_trans v m m',
    )

    apart :
        x ≢ y
        → version_after m' y (touched b m x s) (version_after m x s v)
          ≡ version_after m x (touched b' m' y s) (version_after m' y s v)
    apart different = ground (
      arith,
      slot-touched_ne b m x s y (λ e. different (sym e)),
      slot-touched_ne b' m' y s x different,
      baseline-touched b m x s,
      baseline-touched b' m' y s,
      markers.lt_trans v m m',
      markers.cmp_swap m m',
    )

pub version_comm :
    (b b' : Bool) (m m' : VersionMarker) (x y : NodeId) (s : SetState) (v : VersionMarker)
    → m ≢ m'
    → version_after m' y (touched b m x s) (version_after m x s v)
      ≡ version_after m x (touched b' m' y s) (version_after m' y s v)
version_comm b b' m m' x y s v h = elim (lt_or_gt m m' h) [
  | inl before ↦ version_ordered b b' m m' x y s v before
  | inr after ↦ sym (version_ordered b' b m' m y x s v after)
]
