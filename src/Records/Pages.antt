-- ===== src/Records/Pages.antt =====
-- The pages of a scan: `record_scan_result` of db.rs.
use prima_db.Prelude.{
  ℕ, ◌≡◌, refl, ap, ◌∙◌, Bool, true, Option, none, some, List, [], ◌∷◌, reverse, length, take, drop,
  insert_by, sort_by, All, Ordered, ltb, if◌then◌else◌, arith,
}
use prima_db.Text.{Text}
use prima_db.Ord.{Ord, list_ord, nat_ord}
use prima_db.Records.{RecordEntry, RecordScan, RecordScanResult}
use prima_db.Records.Prefix.{or}
use prima_db.Records.Collect.{Overlay, collect_record_entries_for_scan_page}
use prima_db.Records.Sorted.{key_before}

abbrev texts : Ord Text
texts = list_ord

module _ {J : Type 0} where
  -- `sort_by` on the keys, which keeps the order of equal ones.
  unfoldable pub sort_by_key : List (RecordEntry J) → List (RecordEntry J)
  sort_by_key entries = sort_by key_before entries

  abbrev pub first_key : List (RecordEntry J) → Option Text
  first_key [] = none
  first_key (entry ∷ entries) = some entry.key

  abbrev pub last_key : List (RecordEntry J) → Option Text
  last_key [] = none
  last_key (entry ∷ []) = some entry.key
  last_key (_ ∷ entry ∷ entries) = last_key (entry ∷ entries)

  abbrev pub in_direction : Bool → List (RecordEntry J) → List (RecordEntry J)
  in_direction backward entries = if backward then reverse entries else entries

  abbrev pub limited : Option ℕ → List (RecordEntry J) → RecordScanResult J
  limited none entries = record { entries = entries; next_cursor = none }
  limited (some limit) entries =
      if ltb limit (length entries)
      then record {
        entries = take limit entries;
        next_cursor = or (last_key (take limit entries)) (first_key (drop limit entries));
      }
      else record { entries = entries; next_cursor = none }

  unfoldable pub record_scan_result : List (RecordEntry J) → RecordScan → RecordScanResult J
  unfolding sort_by_key
  record_scan_result entries scan =
      limited scan.limit (in_direction scan.reverse (sort_by_key entries))

  -- The result of a scan for which these entries of the store were read.
  unfoldable pub listing :
      Overlay J → Option (List (RecordEntry J)) → RecordScan → RecordScanResult J
  unfolding record_scan_result collect_record_entries_for_scan_page
  listing overlay storage scan =
      record_scan_result (collect_record_entries_for_scan_page overlay scan storage) scan

  insert_first :
      (entry : RecordEntry J) (entries : List (RecordEntry J))
      → All (λ e. key_before entry e ≡ true) entries
      → insert_by key_before entry entries ≡ entry ∷ entries
  insert_first entry [] a = refl
  insert_first entry (first ∷ entries) a = ground (arith, texts.cmp_swap entry.key first.key)

  pub sort_by_key-Ordered :
      (entries : List (RecordEntry J)) → Ordered key_before entries → sort_by_key entries ≡ entries
  unfolding sort_by_key
  sort_by_key-Ordered [] o = refl
  sort_by_key-Ordered (entry ∷ entries) o =
      ap (insert_by key_before entry) (sort_by_key-Ordered entries o.1)
      ∙ insert_first entry entries o.0
