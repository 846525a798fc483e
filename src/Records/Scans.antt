-- ===== src/Records/Scans.antt =====
-- `scan_records` of db.rs, with a store or without one.
use prima_db.Prelude.{ℕ, Option, none, some, List}
use prima_db.Records.{RecordEntry, RecordScan, RecordScanResult}
use prima_db.Records.Collect.{Overlay, collect_record_entries_for_scan_page}
use prima_db.Records.Pages.{record_scan_result}
use prima_db.Records.Store.{
  Collected, collected, store_failed, fuel_ran_out, collect_record_entries_for_scan,
}

-- A store's answers to scans: `IncrementalStore::scan_record_entries`.
abbrev pub Engine : Type 0 → Type 0
Engine J = RecordScan → Option (Option (List (RecordEntry J)))

pub data Scanned (J : Type 0) : Type 0 where
  scanned : RecordScanResult J → Scanned J
  scan_failed scan_unfinished : Scanned J

module _ {J : Type 0} where
  -- The test for a store, with which `collect_record_entries_for_scan` begins.
  unfoldable pub collect_from : Option (Engine J) → Overlay J → RecordScan → ℕ → Collected J
  unfolding collect_record_entries_for_scan collect_record_entries_for_scan_page
  collect_from none overlay scan fuel =
      collected (collect_record_entries_for_scan_page overlay scan none)
  collect_from (some store) overlay scan fuel =
      collect_record_entries_for_scan store overlay scan fuel

  abbrev pub result_of : RecordScan → Collected J → Scanned J
  result_of scan (collected entries) = scanned (record_scan_result entries scan)
  result_of scan store_failed = scan_failed
  result_of scan fuel_ran_out = scan_unfinished

  unfoldable pub scan_records : Option (Engine J) → Overlay J → RecordScan → ℕ → Scanned J
  unfolding collect_from record_scan_result
  scan_records engine overlay scan fuel = result_of scan (collect_from engine overlay scan fuel)
