-- ===== src/Records/Collect.antt =====
-- The records of a scan, from a store and from the writes that it does not hold yet:
-- `collect_record_entries_for_scan_page` of db.rs.
use prima_db.Prelude.{◌≡◌, refl, Option, none, some, List, [], ◌∷◌, unwrap_or, if◌then◌else◌, arith}
use prima_db.Text.{Text}
use prima_db.Ord.{Ord, list_ord, nat_ord, ◌=?◌}
use prima_db.Map
use prima_db.Map.{Map, IsSorted}
use prima_db.Map.Entries.{get_in, get_in-Above}
use prima_db.Map.Laws.{get-insert, get-remove, get-empty}
use prima_db.Records.{RecordEntry, RecordScan, matches_key}

abbrev texts : Ord Text
texts = list_ord

-- The last writes, by key: the record, or none where it was deleted.
abbrev pub Overlay : Type 0 → Type 0
Overlay J = Map Text (Option (RecordEntry J))

abbrev pub Found : Type 0 → Type 0
Found J = Map Text (RecordEntry J)

module _ {J : Type 0} where
  abbrev add_stored : RecordScan → RecordEntry J → Found J → Found J
  add_stored scan entry found =
      if matches_key scan entry.key then Map.insert found entry.key entry else found

  unfoldable pub add_storage : RecordScan → List (RecordEntry J) → Found J → Found J
  unfolding matches_key
  add_storage scan [] found = found
  add_storage scan (entry ∷ entries) found = add_storage scan entries (add_stored scan entry found)

  abbrev overwrite : Text → Option (RecordEntry J) → Found J → Found J
  overwrite key none found = Map.remove found key
  overwrite key (some entry) found = Map.insert found entry.key entry

  unfoldable pub add_overlay : RecordScan → List (Text × Option (RecordEntry J)) → Found J → Found J
  unfolding matches_key
  add_overlay scan [] found = found
  add_overlay scan ((key, entry) ∷ entries) found =
      add_overlay scan entries (if matches_key scan key then overwrite key entry found else found)

  -- The map that `collect_record_entries_for_scan_page` fills.
  unfoldable pub found_for_scan : Overlay J → RecordScan → Option (List (RecordEntry J)) → Found J
  unfolding add_storage add_overlay
  found_for_scan overlay scan storage =
      add_overlay scan overlay.entries (add_storage scan (unwrap_or storage []) Map.empty)

  unfoldable pub collect_record_entries_for_scan_page :
      Overlay J → RecordScan → Option (List (RecordEntry J)) → List (RecordEntry J)
  unfolding found_for_scan
  collect_record_entries_for_scan_page overlay scan storage =
      Map.values (found_for_scan overlay scan storage)

  -- Each write of the overlay stands under the key of its record.
  abbrev pub IsKeyed : List (Text × Option (RecordEntry J)) → Type 0
  IsKeyed [] = Unit
  IsKeyed ((key, none) ∷ rest) = IsKeyed rest
  IsKeyed ((key, some entry) ∷ rest) = (entry.key ≡ key) × IsKeyed rest

  -- The record that a list of stored records has for a key: the last one.
  unfoldable pub stored : List (RecordEntry J) → Text → Option (RecordEntry J)
  stored [] key = none
  stored (entry ∷ entries) key =
      let later = stored entries key in
      elim later [ some e ↦ some e | none ↦ if key =? entry.key then some entry else none ]

  -- What a reader is to see: the overlay's word on a key, else the store's.
  unfoldable pub visible : Overlay J → List (RecordEntry J) → Text → Option (RecordEntry J)
  unfolding stored
  visible overlay storage key = elim (Map.get overlay key) [
    | some written ↦ written
    | none ↦ stored storage key
  ]

  get-add_storage :
      (scan : RecordScan) (entries : List (RecordEntry J)) (found : Found J) (key : Text)
      → Map.get (add_storage scan entries found) key ≡ (
          if matches_key scan key
          then (elim (stored entries key) [ some e ↦ some e | none ↦ Map.get found key ])
          else Map.get found key)
  unfolding add_storage stored
  get-add_storage scan [] found key = ground arith
  get-add_storage scan (entry ∷ entries) found key = ground (
    arith,
    get-add_storage scan entries (add_stored scan entry found) key,
    get-insert found entry.key entry key,
    texts.eq_of_cmp key entry.key,
  )

  get-add_overlay :
      (scan : RecordScan) (entries : List (Text × Option (RecordEntry J))) (found : Found J)
      (key : Text)
      → IsSorted entries
      → IsKeyed entries
      → Map.get (add_overlay scan entries found) key ≡ (elim (get_in entries key) [
        | none ↦ Map.get found key
        | some written ↦ if matches_key scan key then written else Map.get found key
      ])
  unfolding add_overlay get_in
  get-add_overlay scan [] found key s k = refl
  get-add_overlay scan ((j, none) ∷ entries) found key s k = ground (
    arith,
    get-add_overlay scan entries (if matches_key scan j then Map.remove found j else found) key,
    get-remove found j key,
    texts.eq_of_cmp key j,
    get_in-Above j entries,
  )
  get-add_overlay scan ((j, some entry) ∷ entries) found key s k = ground (
    arith,
    get-add_overlay scan entries
        (if matches_key scan j then Map.insert found entry.key entry else found) key,
    get-insert found entry.key entry key,
    texts.eq_of_cmp key j,
    get_in-Above j entries,
  )

  -- Under each key a scan finds what a reader is to see there if the scan matches the key, and
  -- nothing otherwise, if the writes of the overlay stand under the keys of their records.
  pub get-found_for_scan :
      (overlay : Overlay J) (scan : RecordScan) (storage : Option (List (RecordEntry J)))
      (key : Text)
      → IsKeyed overlay.entries
      → Map.get (found_for_scan overlay scan storage) key
        ≡ (if matches_key scan key then visible overlay (unwrap_or storage []) key else none)
  unfolding found_for_scan visible Map.get
  get-found_for_scan overlay scan storage key keyed = ground (
    arith,
    get-add_overlay scan overlay.entries (add_storage scan (unwrap_or storage []) Map.empty) key
        overlay.sorted keyed,
    get-add_storage scan (unwrap_or storage []) Map.empty key,
    get-empty {V = RecordEntry J} key,
  )
