-- ===== src/Records/Outcomes.antt =====
-- What `scan_records` answers, from whatever pages the loop reads.
use prima_db.Prelude.{
  ℕ, suc, ◌<◌, ◌≤◌, ◌≡◌, sym, ap, ◌∙◌, subst, Bool-cases, Option-cases, ◌⊎◌, inl, inr, Option, none,
  some, List, [], length, take, retain, Ordered, ltb, arith,
}
use prima_db.Ord.{list_ord, nat_ord}
use prima_db.Clock.{u64_max}
use prima_db.Records.{RecordEntry, RecordScan, matches_key}
use prima_db.Records.Collect.{Overlay, IsKeyed, collect_record_entries_for_scan_page}
use prima_db.Records.Pages.{record_scan_result, listing}
use prima_db.Records.Sorted.{key_before}
use prima_db.Records.Reads.{listed_by, length-in_direction, KeepsAll}
use prima_db.Records.Store.{collected, collect_unlimited}
use prima_db.Records.Scans.{Engine, scanned, collect_from, result_of, scan_records}
use prima_db.Records.Answers.{
  IsSmall, with_limit, Reads, found_in, found_in_listed, limited_answer, short_answer, long_answer,
  without_limit,
}

module _ {J : Type 0} where
  module _ (overlay : Overlay J) (storage : List (RecordEntry J)) (keyed : IsKeyed overlay.entries)
      (sorted : Ordered key_before storage) (scan : RecordScan) where
    unlimited_result :
        (store : Engine J) (fuel : ℕ)
        → scan.limit ≡ none
        → store scan ≡ some (some (listed_by scan storage))
        → result_of scan (collect_from (some store) overlay scan (suc fuel))
          ≡ scanned (listing overlay (some storage) scan)
    unfolding listing collect_record_entries_for_scan_page
    unlimited_result store fuel unbounded given =
        ap (result_of scan)
          (without_limit overlay storage keyed sorted scan store (suc fuel) unbounded)
        ∙ ap (λ a. result_of scan (collect_unlimited store overlay scan a)) given
        ∙ ap (λ l. scanned (record_scan_result l scan))
            (found_in_listed overlay storage keyed sorted scan)

    short_result :
        (store : Engine J) (limit fuel : ℕ)
        → scan.limit ≡ some limit
        → limit < u64_max
        → store (record scan { limit = some (suc limit) })
          ≡ some (some (take (suc limit) (listed_by scan storage)))
        → length (listed_by scan storage) ≤ limit
        → result_of scan (collect_from (some store) overlay scan (suc fuel))
          ≡ scanned (listing overlay (some storage) scan)
    unfolding listing collect_record_entries_for_scan_page
    short_result store limit fuel bound small given short =
        ap (result_of scan)
          (short_answer overlay storage keyed sorted scan store limit fuel bound small given short)

    limited_result :
        (store : Engine J) (limit fuel : ℕ)
        → scan.limit ≡ some limit
        → limit < u64_max
        → KeepsAll overlay.entries ⊎ (storage ≡ [])
        → store (record scan { limit = some (suc limit) })
          ≡ some (some (take (suc limit) (listed_by scan storage)))
        → result_of scan (collect_from (some store) overlay scan (suc fuel))
          ≡ scanned (listing overlay (some storage) scan)
    limited_result store limit fuel bound small keeps given =
        elim (Bool-cases (ltb limit (length (listed_by scan storage)))) [
          | inr short ↦ short_result store limit fuel bound small given (ground arith)
          | inl long ↦ elim keeps [
            | inl kept ↦
                long_answer overlay storage keyed sorted scan store limit fuel bound small kept
                  given (ground arith)
            | inr empty ↦ absurd (
                ground (
                  arith,
                  ap (λ l. length (listed_by scan l)) empty,
                  length-in_direction scan.reverse (retain (λ e. matches_key scan e.key) []),
                ))
          ]
        ]

    -- A store that keeps no records of its own.
    nothing_stored :
        (store : Engine J) (fuel : ℕ)
        → IsSmall scan.limit
        → ((s : RecordScan) → store s ≡ some none)
        → collect_from (some store) overlay scan (suc fuel)
          ≡ collected ((found_in overlay storage keyed sorted scan) [])
    unfolding collect_record_entries_for_scan_page
    nothing_stored store fuel small answers = elim (Option-cases scan.limit) [
      | inl unbounded ↦
          without_limit overlay storage keyed sorted scan store (suc fuel) unbounded
          ∙ ap (collect_unlimited store overlay scan) (answers scan)
      | inr (limit, bound) ↦
          limited_answer overlay storage keyed sorted scan store limit fuel none bound
            (subst IsSmall bound small) (answers (record scan { limit = some (suc limit) }))
            (ground arith)
    ]

    -- A store that holds the records.
    all_stored :
        (store : Engine J) (fuel : ℕ)
        → IsSmall scan.limit
        → KeepsAll overlay.entries ⊎ (storage ≡ [])
        → ((s : RecordScan) → store s ≡ some (some (with_limit s.limit (listed_by s storage))))
        → result_of scan (collect_from (some store) overlay scan (suc fuel))
          ≡ scanned (listing overlay (some storage) scan)
    unfolding matches_key
    all_stored store fuel small keeps answers = elim (Option-cases scan.limit) [
      | inl unbounded ↦
          unlimited_result store fuel unbounded
            (answers scan ∙ ap (λ l. some (some (with_limit l (listed_by scan storage)))) unbounded)
      | inr (limit, bound) ↦
          limited_result store limit fuel bound (subst IsSmall bound small) keeps
            (answers (record scan { limit = some (suc limit) }))
    ]

    -- What `scan_records` answers, from whatever pages the loop reads.
    pub scan_records-listing :
        (engine : Option (Engine J)) (fuel : ℕ)
        → IsSmall scan.limit
        → KeepsAll overlay.entries ⊎ (storage ≡ [])
        → Reads engine storage
        → scan_records engine overlay scan (suc fuel)
          ≡ scanned (listing overlay (some storage) scan)
    unfolding scan_records collect_from listing collect_record_entries_for_scan_page
    scan_records-listing none fuel small keeps reads =
        ap (λ l. scanned (record_scan_result ((found_in overlay storage keyed sorted scan) l) scan))
          (sym reads)
    scan_records-listing (some store) fuel small keeps (inl (empty, answers)) =
        ap (result_of scan) (nothing_stored store fuel small answers)
        ∙ ap
            (λ l.
              scanned (record_scan_result ((found_in overlay storage keyed sorted scan) l) scan))
            (sym empty)
    scan_records-listing (some store) fuel small keeps (inr answers) =
        all_stored store fuel small keeps answers
