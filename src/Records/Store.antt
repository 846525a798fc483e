-- ===== src/Records/Store.antt =====
-- The loop of `collect_record_entries_for_scan` in db.rs, which reads a store page by page. The
-- store is a parameter: `IncrementalStore::scan_record_entries`, whose answer is none where it
-- fails, and `some none` where it does not keep records of its own.
use Prim.Native.Nat.{max}
use prima_db.Prelude.{
  ℕ, zero, suc, ◌<◌, ◌≤◌, ◌≡◌, ◌≢◌, refl, Bool, true, false, ◌&&◌, ◌||◌, Option-cases, inl, inr,
  Option, none, some, List, [], ◌∷◌, ◌++◌, any, length, retain, All, unwrap_or, saturating_add, ltb,
  if◌then◌else◌, arith,
}
use prima_db.Text.{Text}
use prima_db.Ord.{Ord, list_ord, nat_ord, ◌=?◌}
use prima_db.Clock.{u64_max}
use prima_db.Records.{RecordEntry, RecordScan, passes_cursor, matches_key}
use prima_db.Records.Collect.{Overlay, collect_record_entries_for_scan_page}
use prima_db.Records.Pages.{last_key}
use prima_db.Records.Resume.{rest_of-matches_key}

abbrev texts : Ord Text
texts = list_ord

pub data Collected (J : Type 0) : Type 0 where
  collected : List (RecordEntry J) → Collected J
  store_failed fuel_ran_out : Collected J

abbrev is_none : Option Text → Bool
is_none none = true
is_none (some _) = false

-- The scan behind a cursor.
abbrev behind : RecordScan → Option Text → RecordScan
behind scan cursor = record scan { cursor = cursor }

-- The `?` on an answer of the store.
abbrev on_answer :
    {J : Type 0}
    → Option (Option (List (RecordEntry J)))
    → (Option (List (RecordEntry J)) → Collected J)
    → Collected J
on_answer none next = store_failed
on_answer (some page) next = next page

module _ {J : Type 0} where
  abbrev pub page_is_short : ℕ → Option (List (RecordEntry J)) → Bool
  page_is_short page_limit none = true
  page_is_short page_limit (some page) = ltb (length page) page_limit

  -- `merged.len() > limit || page_is_short || last_key.is_none()`
  abbrev pub is_done : ℕ → ℕ → Option (List (RecordEntry J)) → List (RecordEntry J) → Bool
  is_done limit page_limit page merged =
      ltb limit (length merged)
      || (page_is_short page_limit page || is_none (last_key (unwrap_or page [])))

module _ {J : Type 0} (scan_store : RecordScan → Option (Option (List (RecordEntry J))))
    (overlay : Overlay J) (scan : RecordScan) where
  -- The loop, with fuel.
  unfoldable pub collect_pages : ℕ → ℕ → ℕ → RecordScan → List (RecordEntry J) → Collected J
  unfolding collect_record_entries_for_scan_page
  collect_pages limit page_limit zero page_scan gathered = fuel_ran_out
  collect_pages limit page_limit (suc fuel) page_scan gathered =
      on_answer (scan_store page_scan) λ page.
        let listed = unwrap_or page [] in
        let merged =
          collect_record_entries_for_scan_page overlay scan (some (gathered ++ listed)) in
        let later =
          collect_pages limit page_limit fuel (behind page_scan (last_key listed))
            (gathered ++ listed) in
        if is_done limit page_limit page merged then collected merged else later

  unfoldable pub collect_limited : ℕ → ℕ → Collected J
  unfolding collect_pages
  collect_limited fuel limit =
      let page_limit = max (saturating_add u64_max limit 1) 1 in
      collect_pages limit page_limit fuel (record scan { limit = some page_limit }) []

  abbrev pub collect_unlimited : Option (Option (List (RecordEntry J))) → Collected J
  collect_unlimited none = store_failed
  collect_unlimited (some storage) =
      collected (collect_record_entries_for_scan_page overlay scan storage)

  unfoldable pub collect_record_entries_for_scan : ℕ → Collected J
  unfolding collect_limited
  collect_record_entries_for_scan fuel = elim scan.limit [
    | none ↦ collect_unlimited (scan_store scan)
    | some limit ↦ collect_limited fuel limit
  ]

behind-matches_key :
    (scan : RecordScan) (cursor key : Text)
    → matches_key scan cursor ≡ true
    → matches_key (behind scan (some cursor)) key
      ≡ (passes_cursor scan.reverse key cursor && matches_key scan key)
unfolding matches_key
behind-matches_key scan cursor key h = rest_of-matches_key scan cursor key h

-- How many of the keys a scan matches.
abbrev matched : RecordScan → List Text → ℕ
matched scan keys = length (retain (matches_key scan) keys)

length-retain-le :
    (p q : Text → Bool) (keys : List Text)
    → ((k : Text) → p k ≡ true → q k ≡ true)
    → length (retain p keys) ≤ length (retain q keys)
length-retain-le p q [] h = omega arith
length-retain-le p q (x ∷ keys) h = ground (arith, h x, length-retain-le p q keys h)

length-retain : (p : Text → Bool) (keys : List Text) → length (retain p keys) ≤ length keys
length-retain p [] = omega arith
length-retain p (x ∷ keys) = ground (arith, length-retain p keys)

length-retain-lt :
    (p q : Text → Bool) (keys : List Text) (dropped : Text)
    → ((k : Text) → p k ≡ true → q k ≡ true)
    → any (λ k. k =? dropped) keys ≡ true
    → q dropped ≡ true
    → p dropped ≡ false
    → length (retain p keys) < length (retain q keys)
length-retain-lt p q [] dropped h m s t = cc
length-retain-lt p q (x ∷ keys) dropped h m s t = ground (
  arith,
  h x,
  length-retain-le p q keys h,
  length-retain-lt p q keys dropped h,
  texts.eq_of_cmp x dropped,
)

matched-behind :
    (scan : RecordScan) (keys : List Text) (cursor : Text)
    → any (λ k. k =? cursor) keys ≡ true
    → matches_key scan cursor ≡ true
    → matched (behind scan (some cursor)) keys < matched scan keys
matched-behind scan keys cursor m h =
    length-retain-lt (matches_key (behind scan (some cursor))) (matches_key scan) keys cursor
      (λ k g. ground (arith, behind-matches_key scan cursor k h)) m h
      (ground (arith, behind-matches_key scan cursor cursor h, texts.cmp_refl cursor))

module _ {J : Type 0} where
  -- A page of the store holds records under these keys, which the scan matches.
  abbrev pub IsPageOf : List Text → RecordScan → List (RecordEntry J) → Type 0
  IsPageOf keys scan =
      All (λ e. (any (λ k. k =? e.key) keys ≡ true) × (matches_key scan e.key ≡ true))

  last_key-IsPageOf :
      (keys : List Text) (scan : RecordScan) (page : List (RecordEntry J)) {key : Text}
      → IsPageOf keys scan page
      → last_key page ≡ some key
      → (any (λ k. k =? key) keys ≡ true) × (matches_key scan key ≡ true)
  last_key-IsPageOf keys scan [] a h = cc
  last_key-IsPageOf keys scan (e ∷ []) {key} a h =
      let same : e.key ≡ key = cc in (rw same at a.0.0, rw same at a.0.1)
  last_key-IsPageOf keys scan (e ∷ f ∷ page) a h = last_key-IsPageOf keys scan (f ∷ page) a.1 h

  on_answer_ends :
      (answer : Option (Option (List (RecordEntry J))))
      (next : Option (List (RecordEntry J)) → Collected J)
      → ((page : Option (List (RecordEntry J))) → answer ≡ some page → next page ≢ fuel_ran_out)
      → on_answer answer next ≢ fuel_ran_out
  on_answer_ends none next h = cc
  on_answer_ends (some page) next h = h page refl

  choose_ends :
      (b : Bool) (merged : List (RecordEntry J)) (later : Collected J)
      → (b ≡ false → later ≢ fuel_ran_out)
      → (if b then collected merged else later) ≢ fuel_ran_out
  choose_ends true merged later h = cc
  choose_ends false merged later h = h refl

  limit_ends :
      (limit : Option ℕ) (whole : Collected J) (pages : ℕ → Collected J)
      → whole ≢ fuel_ran_out
      → ((n : ℕ) → pages n ≢ fuel_ran_out)
      → (elim limit [ none ↦ whole | some n ↦ pages n ]) ≢ fuel_ran_out
  limit_ends none whole pages h k = h
  limit_ends (some n) whole pages h k = k n

  collect_unlimited_ends :
      (scan_store : RecordScan → Option (Option (List (RecordEntry J)))) (overlay : Overlay J)
      (scan : RecordScan) (answer : Option (Option (List (RecordEntry J))))
      → collect_unlimited scan_store overlay scan answer ≢ fuel_ran_out
  collect_unlimited_ends scan_store overlay scan none = cc
  collect_unlimited_ends scan_store overlay scan (some storage) = cc

  module _ (scan_store : RecordScan → Option (Option (List (RecordEntry J)))) (overlay : Overlay J)
      (scan : RecordScan) (keys : List Text)
      (answers : (s : RecordScan) (page : List (RecordEntry J))
        → scan_store s ≡ some (some page)
        → IsPageOf keys s page) where
    listed-IsPageOf :
        (s : RecordScan) (page : Option (List (RecordEntry J)))
        → scan_store s ≡ some page
        → IsPageOf keys s (unwrap_or page [])
    listed-IsPageOf s none h = tt
    listed-IsPageOf s (some page) h = answers s page h

    collect_pages_ends :
        (limit page_limit fuel : ℕ) (page_scan : RecordScan) (gathered : List (RecordEntry J))
        → matched page_scan keys < fuel
        → collect_pages scan_store overlay scan limit page_limit fuel page_scan gathered
          ≢ fuel_ran_out
    unfolding collect_pages
    collect_pages_ends limit page_limit zero page_scan gathered room = absurd (omega arith)
    collect_pages_ends limit page_limit (suc fuel) page_scan gathered room =
        on_answer_ends (scan_store page_scan) _ λ page given.
          let listed = unwrap_or page [] in
          let merged =
            collect_record_entries_for_scan_page overlay scan (some (gathered ++ listed)) in
          choose_ends (is_done limit page_limit page merged) merged _ λ more.
            elim (Option-cases (last_key listed)) [
              | inl empty ↦ absurd (ground arith)
              | inr (key, last) ↦
                  let (known, matches) =
                    last_key-IsPageOf keys page_scan listed (listed-IsPageOf page_scan page given)
                      last in
                  rw last (
                    collect_pages_ends limit page_limit fuel (behind page_scan (some key))
                      (gathered ++ listed)
                      (omega (arith, matched-behind page_scan keys key known matches)))
            ]

    -- If every page of the store holds records under these keys that the scan matches, a scan ends
    -- with fuel above the number of the keys, whatever the pages' lengths and order are.
    pub collect_record_entries_for_scan_ends :
        (fuel : ℕ)
        → length keys < fuel
        → collect_record_entries_for_scan scan_store overlay scan fuel ≢ fuel_ran_out
    unfolding collect_record_entries_for_scan collect_limited
    collect_record_entries_for_scan_ends fuel room =
        limit_ends scan.limit _ _ (collect_unlimited_ends scan_store overlay scan (scan_store scan))
          λ limit.
            let page_limit = max (saturating_add u64_max limit 1) 1 in
            let page_scan : RecordScan = record scan { limit = some page_limit } in
            collect_pages_ends limit page_limit fuel page_scan []
              (omega (arith, length-retain (matches_key page_scan) keys))
