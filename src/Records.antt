-- ===== src/Records.antt =====
-- record.rs: the records that a replica keeps under keys, and the scans over them. `J` stands for
-- `serde_json::Value`.
pub mod Prefix
pub mod Collect
pub mod Sorted
pub mod Pages
pub mod Resume
pub mod Store
pub mod Scans
pub mod Listed
pub mod Reads
pub mod Pagewise
pub mod Answers
pub mod Outcomes
pub mod Continued
use prima_db.Prelude.{ℕ, Bool, true, not, ◌&&◌, Option, none, some, List, if◌then◌else◌}
use prima_db.Text.{Text, starts_with}
use prima_db.Ord.{list_ord, nat_ord, ◌<?◌, ◌≤?◌}
use prima_db.Graph.{BinaryBytes, BlobRef}

pub data RecordValue (J : Type 0) : Type 0 where
  json : J → RecordValue J
  binary : BinaryBytes → RecordValue J
  blob : BlobRef → RecordValue J

pub record RecordEntry (J : Type 0) : Type 0 where
  pub key : Text
  pub value : RecordValue J

pub record RecordScan : Type 0 where
  pub prefix : Option Text
  pub start_at : Option Text
  pub start_after : Option Text
  pub end_at : Option Text
  pub end_before : Option Text
  pub reverse : Bool
  pub limit : Option ℕ
  pub cursor : Option Text

pub record RecordScanResult (J : Type 0) : Type 0 where
  pub entries : List (RecordEntry J)
  pub next_cursor : Option Text

-- A bound that is not given refuses no key.
abbrev pub passes : Option Text → (Text → Bool) → Bool
passes none test = true
passes (some bound) test = test bound

-- `key >= cursor` refuses in reverse, and `key <= cursor` otherwise.
abbrev pub passes_cursor : Bool → Text → Text → Bool
passes_cursor reverse key cursor = if reverse then not (cursor ≤? key) else not (key ≤? cursor)

unfoldable pub matches_key : RecordScan → Text → Bool
unfolding starts_with
matches_key scan key =
    passes scan.prefix (λ prefix. starts_with key prefix)
    && (passes scan.cursor (λ cursor. passes_cursor scan.reverse key cursor)
        && (passes scan.start_at (λ start_at. not (key <? start_at))
            && (passes scan.start_after (λ start_after. not (key ≤? start_after))
                && (passes scan.end_at (λ end_at. not (end_at <? key))
                    && passes scan.end_before (λ end_before. not (end_before ≤? key))))))
