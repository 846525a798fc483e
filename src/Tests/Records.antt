-- ===== src/Tests/Records.antt =====
-- The theorems on records at concrete inputs. Scalars are numbers.
use prima_db.Prelude.{
  ℕ, ◌≡◌, ◌≢◌, refl, subst, take, retain, true, false, Bool-cases, inl, inr, Option, none, some,
  List, [], ◌∷◌, unwrap_or, if◌then◌else◌, arith,
}
use prima_db.Text.{Text, bytes, starts_with}
use prima_db.Text.Chars.{chars}
use prima_db.Ord.{list_ord, nat_ord}
use prima_db.Map
use prima_db.Map.{Map}
use prima_db.Map.Entries.{insert_in, remove_in}
use prima_db.Records.{RecordValue, RecordEntry, RecordScan, matches_key}
use prima_db.Records.Prefix.{
  record_scan_key_prefix, common_string_prefix, common_chars, matches_key-record_scan_key_prefix,
}
use prima_db.Records.Collect.{
  Overlay, found_for_scan, visible, get-found_for_scan, collect_record_entries_for_scan_page,
  add_storage, add_overlay,
}
use prima_db.Records.Pages.{sort_by_key, record_scan_result}
use prima_db.Records.Reads.{listed_by}
use prima_db.Records.Scans.{Engine, scanned, scan_records, collect_from}
use prima_db.Records.Answers.{with_limit}
use prima_db.Records.Store.{
  collected, fuel_ran_out, IsPageOf, collect_record_entries_for_scan, collect_limited,
  collect_pages, collect_record_entries_for_scan_ends,
}

abbrev entry : Text → RecordEntry ℕ
entry key = record { key = key; value = RecordValue.json 0 }

abbrev all_records : RecordScan
all_records = record {
  prefix = none;
  start_at = none;
  start_after = none;
  end_at = none;
  end_before = none;
  reverse = false;
  limit = none;
  cursor = none;
}

-- The users from user/10 to user/19.
abbrev teens : RecordScan
teens = record all_records { start_at = some (bytes "user/10"); end_at = some (bytes "user/19") }

teens_match : matches_key teens (bytes "user/12") ≡ true
unfolding matches_key list_ord nat_ord
teens_match = refl

teens_prefix : record_scan_key_prefix teens ≡ some (bytes "user/1")
unfolding record_scan_key_prefix common_string_prefix common_chars chars list_ord nat_ord
teens_prefix = refl

matches_key-record_scan_key_prefix_example : starts_with (bytes "user/12") (bytes "user/1") ≡ true
matches_key-record_scan_key_prefix_example =
    matches_key-record_scan_key_prefix teens (bytes "user/12") teens_match teens_prefix

-- A store with records under a, b and c, of which the overlay deletes b and to which it adds d.
abbrev store : List (RecordEntry ℕ)
store = entry (bytes "a") ∷ entry (bytes "b") ∷ entry (bytes "c") ∷ []

abbrev overlay : Overlay ℕ
unfolding Map.insert
overlay = Map.insert (Map.insert Map.empty (bytes "b") none) (bytes "d") (some (entry (bytes "d")))

get-found_for_scan_example :
    Map.get (found_for_scan overlay all_records (some store)) (bytes "b") ≡ (
      if matches_key all_records (bytes "b")
      then visible overlay (unwrap_or (some store) []) (bytes "b")
      else none)
unfolding Map.insert insert_in list_ord nat_ord
get-found_for_scan_example =
    get-found_for_scan overlay all_records (some store) (bytes "b") (refl, tt)

abbrev first_two : RecordScan
first_two = record all_records { limit = some 2 }

-- A store that holds these records and lists what a scan matches, up to its limit.
abbrev stores : List (RecordEntry ℕ) → Engine ℕ
stores entries scan = some (some (with_limit scan.limit (listed_by scan entries)))

abbrev engine : Option (Engine ℕ)
engine = some (stores store)

-- The overlay adds d.
abbrev grown : Overlay ℕ
unfolding Map.insert
grown = Map.insert Map.empty (bytes "d") (some (entry (bytes "d")))

grown_first_two :
    scan_records engine grown first_two 1
    ≡ scanned (record {
      entries = entry (bytes "a") ∷ entry (bytes "b") ∷ [];
      next_cursor = some (bytes "b");
    })
unfolding scan_records collect_from collect_record_entries_for_scan collect_limited collect_pages
    record_scan_result sort_by_key collect_record_entries_for_scan_page found_for_scan add_storage
    add_overlay matches_key Map.insert Map.remove insert_in remove_in list_ord nat_ord
grown_first_two = refl

-- A store that answers each scan by the first of its records that the scan matches.
abbrev first_match : RecordScan → List (RecordEntry ℕ) → List (RecordEntry ℕ)
first_match scan [] = []
first_match scan (e ∷ entries) = if matches_key scan e.key then e ∷ [] else first_match scan entries

abbrev one_by_one : List (RecordEntry ℕ) → RecordScan → Option (Option (List (RecordEntry ℕ)))
one_by_one entries scan = some (some (first_match scan entries))

abbrev two_records : List (RecordEntry ℕ)
two_records = entry (bytes "a") ∷ entry (bytes "b") ∷ []

abbrev two_keys : List Text
two_keys = bytes "a" ∷ bytes "b" ∷ []

first_match-IsPageOf :
    (scan : RecordScan) (page : List (RecordEntry ℕ))
    → one_by_one two_records scan ≡ some (some page)
    → IsPageOf two_keys scan page
unfolding list_ord nat_ord
first_match-IsPageOf scan page h =
    let given : first_match scan two_records ≡ page = ground arith in
    subst (IsPageOf two_keys scan) given (elim (Bool-cases (matches_key scan (bytes "a"))) [
      | inl a ↦ rw a ((refl, a), tt)
      | inr not_a ↦ elim (Bool-cases (matches_key scan (bytes "b"))) [
        | inl b ↦ rw (not_a, b) ((refl, b), tt)
        | inr not_b ↦ rw (not_a, not_b) tt
      ]
    ])

collect_record_entries_for_scan_ends_example :
    collect_record_entries_for_scan (one_by_one two_records) Map.empty first_two 3 ≢ fuel_ran_out
collect_record_entries_for_scan_ends_example =
    collect_record_entries_for_scan_ends (one_by_one two_records) Map.empty first_two two_keys
      first_match-IsPageOf 3 (omega arith)

-- A store that answers a scan by as many matching records as the scan's limit, here two.
abbrev pages_of_two : List (RecordEntry ℕ) → RecordScan → Option (Option (List (RecordEntry ℕ)))
pages_of_two entries scan = some (some (take 2 (retain (λ e. matches_key scan e.key) entries)))

abbrev first_one : RecordScan
first_one = record all_records { limit = some 1 }

-- The overlay deletes a and b and adds y and z.
abbrev rewritten : Overlay ℕ
unfolding Map.insert
rewritten =
    Map.insert
      (Map.insert (Map.insert (Map.insert Map.empty (bytes "a") none) (bytes "b") none) (bytes "y")
        (some (entry (bytes "y"))))
      (bytes "z") (some (entry (bytes "z")))

-- The records that a page reads are deleted, and those that the overlay adds end the loop before
-- the page with c is read: c is not in the page, though it comes before y.
c_is_skipped :
    collect_record_entries_for_scan (pages_of_two store) rewritten first_one 9
    ≡ collected (entry (bytes "y") ∷ entry (bytes "z") ∷ [])
unfolding collect_record_entries_for_scan collect_limited collect_pages
    collect_record_entries_for_scan_page found_for_scan add_storage add_overlay matches_key
    Map.insert Map.remove insert_in remove_in list_ord nat_ord
c_is_skipped = refl
