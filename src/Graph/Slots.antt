-- ===== src/Graph/Slots.antt =====
-- One member of a set field: additions and removals of it, whichever way they arrive.
use prima_db.Prelude.{
  ◌≡◌, ◌≢◌, ap, Bool, true, ◌||◌, Option, none, some, lt, inl, inr, arith, sym, if◌then◌else◌,
}
use prima_db.Ord.{Ord, list_ord, nat_ord, le_of_lt_le, lt_or_gt}
use prima_db.Map
use prima_db.Map.Laws.{map_ext}
use prima_db.Clock.{VersionMarker, marker_ord}
use prima_db.Graph.{NodeId, SetState}
use prima_db.Graph.Apply.{blocked_by}

abbrev pub markers : Ord VersionMarker
markers = marker_ord

-- One member of a set: the marker of its addition and that of its removal.
pub record Slot : Type 0 where
  pub added : Option VersionMarker
  pub dropped : Option VersionMarker

abbrev pub slot : SetState → NodeId → Slot
slot s x = record { added = Map.get s.members x; dropped = Map.get s.removed x }

pub set_ext :
    (s t : SetState) → s.baseline ≡ t.baseline → ((x : NodeId) → slot s x ≡ slot t x) → s ≡ t
set_ext s t e h =
    let adds = map_ext s.members t.members (λ x. ap (λ (p : Slot). p.added) (h x)) in
    let drops = map_ext s.removed t.removed (λ x. ap (λ (p : Slot). p.dropped) (h x)) in
    λ i. record { baseline = e i; members = adds i; removed = drops i }

-- An addition (`true`) or a removal (`false`) that the baseline does not block, at its member.
abbrev pub slot_blocks : VersionMarker → Slot → Bool
slot_blocks m p = blocked_by m p.added || blocked_by m p.dropped

abbrev pub put : Bool → VersionMarker → Slot → Slot
put b m p =
    if slot_blocks m p
    then p
    else if b
    then record { added = some m; dropped = none }
    else record { added = none; dropped = some m }

pub put_ordered :
    (b b' : Bool) (m m' : VersionMarker) (a d : Option VersionMarker)
    → markers.cmp m m' ≡ lt
    → let p : Slot = record { added = a; dropped = d } in
      put b' m' (put b m p) ≡ put b m (put b' m' p)
put_ordered b b' m m' none none h = ground (arith, markers.cmp_swap m m')
put_ordered b b' m m' (some a) none h = ground (arith, markers.cmp_swap m m', le_of_lt_le m m' a)
put_ordered b b' m m' none (some d) h = ground (arith, markers.cmp_swap m m', le_of_lt_le m m' d)
put_ordered b b' m m' (some a) (some d) h =
    ground (arith, markers.cmp_swap m m', le_of_lt_le m m' a, le_of_lt_le m m' d)

pub put_comm :
    (b b' : Bool) (m m' : VersionMarker) (p : Slot)
    → m ≢ m'
    → put b' m' (put b m p) ≡ put b m (put b' m' p)
put_comm b b' m m' p h = elim (lt_or_gt m m' h) [
  | inl before ↦ put_ordered b b' m m' p.added p.dropped before
  | inr after ↦ sym (put_ordered b' b m' m p.added p.dropped after)
]

-- What blocks the later of two markers blocks the earlier, and the earlier does not block the later.
pub blocks_earlier :
    (m m' : VersionMarker) (p : Slot)
    → markers.cmp m m' ≡ lt
    → slot_blocks m' p ≡ true
    → slot_blocks m p ≡ true
blocks_earlier m m' p h k = blocks_parts p.added p.dropped k
  where
    blocks_parts :
        (a d : Option VersionMarker)
        → slot_blocks m' (record { added = a; dropped = d }) ≡ true
        → slot_blocks m (record { added = a; dropped = d }) ≡ true
    blocks_parts none none k = k
    blocks_parts (some a) none k = ground (arith, le_of_lt_le m m' a)
    blocks_parts none (some d) k = ground (arith, le_of_lt_le m m' d)
    blocks_parts (some a) (some d) k = ground (arith, le_of_lt_le m m' a, le_of_lt_le m m' d)

pub blocks_put_earlier :
    (b : Bool) (m m' : VersionMarker) (p : Slot)
    → markers.cmp m m' ≡ lt
    → slot_blocks m' (put b m p) ≡ slot_blocks m' p
blocks_put_earlier b m m' p h = ground (arith, blocks_earlier m m' p h, markers.cmp_swap m m')

pub blocks_put_later :
    (b : Bool) (m m' : VersionMarker) (p : Slot)
    → markers.cmp m m' ≡ lt
    → slot_blocks m (put b m' p) ≡ true
blocks_put_later b m m' p h = ground (arith, blocks_earlier m m' p h)
