-- ===== src/Records/Answers.antt =====
-- What the loop of `collect_record_entries_for_scan` answers, from a store that lists what it holds.
use Prim.Native.Nat.{max}
use prima_db.Prelude.{
  ℕ, suc, ◌<◌, ◌≤◌, ◌≡◌, refl, sym, ap, ◌∙◌, true, not, ◌⊎◌, Option, none, some, List, [], ◌∷◌,
  length, length-take, take, retain, All, fun_ext, unwrap_or, saturating_add, Ordered, arith,
}
use prima_db.Ord.{list_ord, nat_ord}
use prima_db.Map
use prima_db.Clock.{u64_max}
use prima_db.Records.{RecordEntry, RecordScan}
use prima_db.Records.Collect.{Overlay, IsKeyed, collect_record_entries_for_scan_page}
use prima_db.Records.Pages.{limited, listing}
use prima_db.Records.Sorted.{key_before}
use prima_db.Records.Resume.{
  before, before_irrefl, before_asym, before-passes_cursor, in_order, split_at_last,
  listing-in_order,
}
use prima_db.Records.Listed.{take_whole}
use prima_db.Records.Reads.{listed_by, listed_by-Ordered, KeepsAll}
use prima_db.Records.Pagewise.{found_listed, page, limited-page, long_page}
use prima_db.Records.Store.{
  Collected, collected, collect_unlimited, is_done, collect_pages, collect_limited,
  collect_record_entries_for_scan,
}
use prima_db.Records.Scans.{Engine, scanned, collect_from, result_of}

-- The limit is none, or below the largest `u64`.
abbrev pub IsSmall : Option ℕ → Type 0
IsSmall none = Unit
IsSmall (some limit) = limit < u64_max

page_limit_suc : (limit : ℕ) → limit < u64_max → max (saturating_add u64_max limit 1) 1 ≡ suc limit
page_limit_suc limit h = ground arith

module _ {J : Type 0} where
  anything : (entries : List (RecordEntry J)) → All (λ _. Unit {0}) entries
  anything [] = tt
  anything (_ ∷ entries) = (tt, anything entries)

  abbrev pub with_limit : Option ℕ → List (RecordEntry J) → List (RecordEntry J)
  with_limit none entries = entries
  with_limit (some limit) entries = take limit entries

  -- The engine holds these records: it lists those that a scan matches, in its direction and up to
  -- its limit. Without records there may be no engine, or one that keeps no records of its own.
  abbrev pub Reads : Option (Engine J) → List (RecordEntry J) → Type 0
  Reads none storage = storage ≡ []
  Reads (some store) storage =
      ((storage ≡ []) × ((s : RecordScan) → store s ≡ some none))
      ⊎ ((s : RecordScan) → store s ≡ some (some (with_limit s.limit (listed_by s storage))))

  done_at_once :
      (store : Engine J) (overlay : Overlay J) (scan page_scan : RecordScan)
      (limit page_limit fuel : ℕ) (answer : Option (List (RecordEntry J)))
      → store page_scan ≡ some answer
      → is_done limit page_limit answer
          (collect_record_entries_for_scan_page overlay scan (some (unwrap_or answer [])))
        ≡ true
      → collect_pages store overlay scan limit page_limit (suc fuel) page_scan []
        ≡ collected (collect_record_entries_for_scan_page overlay scan (some (unwrap_or answer [])))
  unfolding collect_pages
  done_at_once store overlay scan page_scan limit page_limit fuel answer given done =
      rw (given, done) refl

  module _ (overlay : Overlay J) (storage : List (RecordEntry J)) (keyed : IsKeyed overlay.entries)
      (sorted : Ordered key_before storage) (scan : RecordScan) where
    abbrev pub found_in : List (RecordEntry J) → List (RecordEntry J)
    found_in entries = collect_record_entries_for_scan_page overlay scan (some entries)

    pub found_in_listed : found_in (listed_by scan storage) ≡ found_in storage
    unfolding collect_record_entries_for_scan_page
    found_in_listed = ap Map.values (found_listed overlay storage keyed sorted scan)

    abbrev by_limit : Engine J → ℕ → Option ℕ → Collected J
    by_limit store fuel limit = elim limit [
      | none ↦ collect_unlimited store overlay scan (store scan)
      | some n ↦ collect_limited store overlay scan fuel n
    ]

    pub without_limit :
        (store : Engine J) (fuel : ℕ)
        → scan.limit ≡ none
        → collect_from (some store) overlay scan fuel
          ≡ collect_unlimited store overlay scan (store scan)
    unfolding collect_from collect_record_entries_for_scan
    without_limit store fuel unbounded = ap (by_limit store fuel) unbounded

    on_limit :
        (store : Engine J) (limit fuel : ℕ)
        → scan.limit ≡ some limit
        → collect_from (some store) overlay scan fuel
          ≡ collect_limited store overlay scan fuel limit
    unfolding collect_from collect_record_entries_for_scan
    on_limit store limit fuel bound = ap (by_limit store fuel) bound

    with_the_limit :
        (store : Engine J) (limit fuel : ℕ)
        → scan.limit ≡ some limit
        → limit < u64_max
        → collect_from (some store) overlay scan fuel
          ≡ collect_pages store overlay scan limit
              (suc limit)
              fuel
              (record scan { limit = some (suc limit) })
              []
    unfolding collect_limited
    with_the_limit store limit fuel bound small =
        on_limit store limit fuel bound
        ∙ ap
            (λ p. collect_pages store overlay scan limit p fuel (record scan { limit = some p }) [])
            (page_limit_suc limit small)

    -- The loop's answer, if the store's first answer is enough.
    pub limited_answer :
        (store : Engine J) (limit fuel : ℕ) (answer : Option (List (RecordEntry J)))
        → scan.limit ≡ some limit
        → limit < u64_max
        → store (record scan { limit = some (suc limit) }) ≡ some answer
        → is_done limit (suc limit) answer (found_in (unwrap_or answer [])) ≡ true
        → collect_from (some store) overlay scan (suc fuel)
          ≡ collected (found_in (unwrap_or answer []))
    limited_answer store limit fuel answer bound small given done =
        with_the_limit store limit (suc fuel) bound small
        ∙ done_at_once store overlay scan (record scan { limit = some (suc limit) }) limit
            (suc limit) fuel answer given done

    pub short_answer :
        (store : Engine J) (limit fuel : ℕ)
        → scan.limit ≡ some limit
        → limit < u64_max
        → store (record scan { limit = some (suc limit) })
          ≡ some (some (take (suc limit) (listed_by scan storage)))
        → length (listed_by scan storage) ≤ limit
        → collect_from (some store) overlay scan (suc fuel) ≡ collected (found_in storage)
    short_answer store limit fuel bound small given short =
        let listed = listed_by scan storage in
        let all : take (suc limit) listed ≡ listed = take_whole (suc limit) listed (omega arith) in
        let answered : store (record scan { limit = some (suc limit) }) ≡ some (some listed) =
          given ∙ ap (λ l. some (some l)) all in
        let done : is_done limit (suc limit) (some listed) (found_in listed) ≡ true =
          ground arith in
        limited_answer store limit fuel (some listed) bound small answered done
        ∙ ap collected found_in_listed

    pub long_answer :
        (store : Engine J) (limit fuel : ℕ)
        → scan.limit ≡ some limit
        → limit < u64_max
        → KeepsAll overlay.entries
        → store (record scan { limit = some (suc limit) })
          ≡ some (some (take (suc limit) (listed_by scan storage)))
        → limit < length (listed_by scan storage)
        → result_of scan (collect_from (some store) overlay scan (suc fuel))
          ≡ scanned (listing overlay (some storage) scan)
    unfolding listing collect_record_entries_for_scan_page
    long_answer store limit fuel bound small keeps given long =
        let listed = listed_by scan storage in
        let (e, _, _, _, kept) =
          split_at_last (before scan.reverse) (before_irrefl scan.reverse)
            (before_asym scan.reverse) (λ _. Unit {0}) limit listed long
            (listed_by-Ordered scan storage sorted) (anything listed) in
        let start = page overlay storage keyed sorted scan e in
        let same : take (suc limit) listed ≡ start =
          sym kept
          ∙ ap (λ p. retain p listed)
              (fun_ext (λ z. ap not (sym (before-passes_cursor scan.reverse e z)))) in
        let answered : store (record scan { limit = some (suc limit) }) ≡ some (some start) =
          given ∙ ap (λ l. some (some l)) same in
        let longer : limit < length start =
          omega (arith, ap length same, length-take (suc limit) listed) in
        let done : is_done limit (suc limit) (some start) (found_in start) ≡ true =
          ground (arith, long_page overlay storage keyed sorted scan e keeps limit longer) in
        ap (result_of scan) (limited_answer store limit fuel (some start) bound small answered done)
        ∙ ap scanned (
            listing-in_order overlay (some start) keyed scan
            ∙ ap (λ l. limited l (in_order overlay (some start) keyed scan)) bound
            ∙ limited-page overlay storage keyed sorted scan e keeps limit longer
            ∙ sym (
                listing-in_order overlay (some storage) keyed scan
                ∙ ap (λ l. limited l (in_order overlay (some storage) keyed scan)) bound))
