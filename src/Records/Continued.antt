-- ===== src/Records/Continued.antt =====
-- The pages of `scan_records`: what the scan behind a page's cursor goes on with.
use prima_db.Prelude.{ℕ, suc, ◌≡◌, Option, none, some, ◌++◌, length}
use prima_db.Text.{Text}
use prima_db.Ord.{list_ord, nat_ord}
use prima_db.Records.{RecordScan, RecordScanResult}
use prima_db.Records.Collect.{Overlay}
use prima_db.Records.Resume.{rest_of}
use prima_db.Records.Scans.{Engine, scanned, scan_records}
use prima_db.Records.Answers.{Reads}

module _ {J : Type 0} where
  module _ (engine : Option (Engine J)) (overlay : Overlay J) (scan : RecordScan)
      (fewer fuel : ℕ) where
    -- How a page stands to all that the scan finds: without a cursor it is all; with a cursor it is
    -- as long as the limit, and the scan behind the cursor gives the rest.
    abbrev pub Completes : RecordScanResult J → RecordScanResult J → Option Text → Type 0
    Completes page whole none = page.entries ≡ whole.entries
    Completes page whole (some cursor) =
        (length page.entries ≡ suc fewer)
        × ((rest : RecordScanResult J) × (scan_records engine overlay (rest_of scan cursor)
                (suc fuel)
              ≡ scanned rest)
            × (page.entries ++ rest.entries ≡ whole.entries))
