-- ===== src/Records/Resume.antt =====
-- A scan that goes on behind the cursor of a page, and what the pages are together.
use prima_db.Prelude.{
  ℕ, zero, suc, ◌<◌, ◌≡◌, refl, sym, ap, ap₂, ◌∙◌, subst, fun_ext, Bool, true, false, not, ◌&&◌,
  Bool-cases, inl, inr, Option, none, some, List, [], ◌∷◌, ◌++◌, reverse, length, take, drop,
  retain, retain-All, retain-reverse, take-append-drop, length-take, All, All-map, All-reverse,
  Ordered, Ordered-reverse, ltb, if◌then◌else◌, arith,
}
use prima_db.Text.{Text}
use prima_db.Ord.{Ord, list_ord, nat_ord}
use prima_db.Map
use prima_db.Map.Laws.{map_ext, get-retain}
use prima_db.Records.{RecordEntry, RecordScan, passes, passes_cursor, matches_key}
use prima_db.Records.Collect.{
  Overlay, IsKeyed, found_for_scan, get-found_for_scan, collect_record_entries_for_scan_page,
}
use prima_db.Records.Pages.{
  last_key, in_direction, limited, record_scan_result, listing, sort_by_key-Ordered,
}
use prima_db.Records.Sorted.{
  key_before, found-OwnKey, values-Ordered, values-matches, values-retain,
}

abbrev texts : Ord Text
texts = list_ord

module _ {J : Type 0} where
  pub retain_none :
      (p : RecordEntry J → Bool) (xs : List (RecordEntry J))
      → All (λ x. p x ≡ false) xs
      → retain p xs ≡ []
  retain_none p [] a = refl
  retain_none p (x ∷ xs) a = rw a.0 (retain_none p xs a.1)

module _ {J : Type 0} (before : RecordEntry J → RecordEntry J → Bool)
    (irrefl : (x : RecordEntry J) → before x x ≡ false)
    (asym : (x y : RecordEntry J) → before x y ≡ true → before y x ≡ false) where
  All-both :
      (P Q : RecordEntry J → Type 0) (xs : List (RecordEntry J))
      → All P xs
      → All Q xs
      → All (λ x. P x × Q x) xs
  All-both P Q [] p q = tt
  All-both P Q (x ∷ xs) p q = ((p.0, q.0), All-both P Q xs p.1 q.1)

  -- Behind the last entry of a page come the entries that the page leaves out.
  pub split_at_last :
      (P : RecordEntry J → Type 0) (fewer : ℕ) (entries : List (RecordEntry J))
      → fewer < length entries
      → Ordered before entries
      → All P entries
      → (e : RecordEntry J) × P e
        × (last_key (take (suc fewer) entries) ≡ some e.key)
        × (retain (before e) entries ≡ drop (suc fewer) entries)
        × (retain (λ z. not (before e z)) entries ≡ take (suc fewer) entries)
  split_at_last P fewer [] h o p = absurd (omega arith)
  split_at_last P zero (x ∷ entries) h o p = (
    x,
    p.0,
    refl,
    rw (irrefl x) (retain-All (before x) entries o.0),
    rw (irrefl x) (
        ap (λ l. x ∷ l)
          (retain_none (λ z. not (before x z)) entries (All-map entries (λ z b. ap not b) o.0))),
  )
  split_at_last P (suc fewer) (x ∷ []) h o p = absurd (omega arith)
  split_at_last P (suc fewer) (x ∷ y ∷ entries) h o p =
      let (e, (holds, later), last, rest, kept) =
        split_at_last (λ z. P z × (before x z ≡ true)) fewer (y ∷ entries) (omega arith) o.1
          (All-both P (λ z. before x z ≡ true) (y ∷ entries) p.1 o.0) in
      (e, holds, last, rw (asym x e later) rest, rw (asym x e later) (ap (λ l. x ∷ l) kept))

-- The scan that goes on behind a key, without a limit.
abbrev pub rest_of : RecordScan → Text → RecordScan
rest_of scan cursor = record scan { limit = none; cursor = some cursor }

abbrev pub unlimited : RecordScan → RecordScan
unlimited scan = record scan { limit = none }

cursor_trans :
    (reverse : Bool) (old : Option Text) (cursor key : Text)
    → passes old (λ o. passes_cursor reverse cursor o) ≡ true
    → passes_cursor reverse key cursor ≡ true
    → passes old (λ o. passes_cursor reverse key o) ≡ true
cursor_trans reverse none cursor key h k = refl
cursor_trans true (some old) cursor key h k = ground (
  arith,
  texts.lt_trans key cursor old,
  texts.cmp_swap cursor old,
  texts.cmp_swap key cursor,
  texts.cmp_swap key old,
)
cursor_trans false (some old) cursor key h k = ground (
  arith,
  texts.lt_trans old cursor key,
  texts.cmp_swap cursor old,
  texts.cmp_swap key cursor,
  texts.cmp_swap key old,
)

pub rest_of-matches_key :
    (scan : RecordScan) (cursor key : Text)
    → matches_key scan cursor ≡ true
    → matches_key (rest_of scan cursor) key
      ≡ (passes_cursor scan.reverse key cursor && matches_key scan key)
unfolding matches_key
rest_of-matches_key scan cursor key h =
    ground (arith, cursor_trans scan.reverse scan.cursor cursor key)

module _ {J : Type 0} where
  abbrev pub before : Bool → RecordEntry J → RecordEntry J → Bool
  before backward a b = if backward then key_before b a else key_before a b

  pub before_irrefl : (backward : Bool) (x : RecordEntry J) → before backward x x ≡ false
  before_irrefl backward x = ground (arith, texts.cmp_refl x.key)

  pub before_asym :
      (backward : Bool) (x y : RecordEntry J)
      → before backward x y ≡ true
      → before backward y x ≡ false
  before_asym backward x y h = ground (arith, texts.cmp_swap x.key y.key)

  pub before-passes_cursor :
      (backward : Bool) (e f : RecordEntry J)
      → passes_cursor backward f.key e.key ≡ before backward e f
  before-passes_cursor backward e f = ground (arith, texts.cmp_swap e.key f.key)

  pub in_direction-Ordered :
      (backward : Bool) (entries : List (RecordEntry J))
      → Ordered key_before entries
      → Ordered (before backward) (in_direction backward entries)
  in_direction-Ordered true entries o = Ordered-reverse key_before entries o
  in_direction-Ordered false entries o = o

  pub in_direction-All :
      (P : RecordEntry J → Type 0) (backward : Bool) (entries : List (RecordEntry J))
      → All P entries
      → All P (in_direction backward entries)
  in_direction-All P true entries a = All-reverse P entries a
  in_direction-All P false entries a = a

  pub in_direction-retain :
      (backward : Bool) (p : RecordEntry J → Bool) (entries : List (RecordEntry J))
      → in_direction backward (retain p entries) ≡ retain p (in_direction backward entries)
  in_direction-retain true p entries = sym (retain-reverse p entries)
  in_direction-retain false p entries = refl

  page_goes_on :
      (P : RecordEntry J → Type 0) (backward : Bool) (fewer : ℕ) (entries : List (RecordEntry J))
      {cursor : Text}
      → Ordered (before backward) entries
      → All P entries
      → (limited (some (suc fewer)) entries).next_cursor ≡ some cursor
      → (e : RecordEntry J) × P e
        × (e.key ≡ cursor)
        × ((limited (some (suc fewer)) entries).entries ++ retain (before backward e) entries
            ≡ entries)
        × (length (limited (some (suc fewer)) entries).entries ≡ suc fewer)
  page_goes_on P backward fewer entries {cursor} o p h =
      elim (Bool-cases (ltb (suc fewer) (length entries))) [
        | inl more ↦
            let (e, holds, last, rest, kept) =
              split_at_last (before backward) (before_irrefl backward) (before_asym backward) P
                fewer entries (ground arith) o p in
            (
              e,
              holds,
              ground arith,
              rw (more, rest) (take-append-drop (suc fewer) entries),
              rw more (ground (arith, length-take (suc fewer) entries)),
            )
        | inr all ↦ absurd (ground arith)
      ]

  module _ (overlay : Overlay J) (storage : Option (List (RecordEntry J)))
      (keyed : IsKeyed overlay.entries) where
    found_rest_of :
        (scan : RecordScan) (cursor : Text)
        → matches_key scan cursor ≡ true
        → found_for_scan overlay (rest_of scan cursor) storage
          ≡ Map.retain
              (found_for_scan overlay scan storage)
              (λ k. passes_cursor scan.reverse k cursor)
    found_rest_of scan cursor h =
        let found = found_for_scan overlay scan storage in
        let later : Text → Bool = λ k. passes_cursor scan.reverse k cursor in
        map_ext (found_for_scan overlay (rest_of scan cursor) storage) (Map.retain found later) λ k.
          ground (
            arith,
            get-found_for_scan overlay scan storage k keyed,
            get-found_for_scan overlay (rest_of scan cursor) storage k keyed,
            get-retain found later k,
            rest_of-matches_key scan cursor k h,
          )

    found_unlimited :
        (scan : RecordScan)
        → found_for_scan overlay (unlimited scan) storage ≡ found_for_scan overlay scan storage
    unfolding matches_key
    found_unlimited scan =
        map_ext (found_for_scan overlay (unlimited scan) storage)
          (found_for_scan overlay scan storage)
          λ k.
            get-found_for_scan overlay (unlimited scan) storage k keyed
            ∙ sym (get-found_for_scan overlay scan storage k keyed)

    abbrev pub in_order : RecordScan → List (RecordEntry J)
    in_order scan = in_direction scan.reverse (Map.values (found_for_scan overlay scan storage))

    pub found_sorted :
        (scan : RecordScan) → Ordered key_before (Map.values (found_for_scan overlay scan storage))
    found_sorted scan =
        let found = found_for_scan overlay scan storage in
        values-Ordered scan found.entries found.sorted (found-OwnKey overlay scan storage keyed)

    pub listing-in_order :
        (scan : RecordScan) → listing overlay storage scan ≡ limited scan.limit (in_order scan)
    unfolding listing record_scan_result collect_record_entries_for_scan_page
    listing-in_order scan =
        ap (λ l. limited scan.limit (in_direction scan.reverse l))
          (sort_by_key-Ordered (Map.values (found_for_scan overlay scan storage))
            (found_sorted scan))

    pub in_order-unlimited : (scan : RecordScan) → in_order (unlimited scan) ≡ in_order scan
    in_order-unlimited scan =
        ap (λ m. in_direction scan.reverse (Map.values m)) (found_unlimited scan)

    in_order_rest :
        (scan : RecordScan) (e : RecordEntry J)
        → matches_key scan e.key ≡ true
        → in_order (rest_of scan e.key) ≡ retain (before scan.reverse e) (in_order scan)
    unfolding Map.retain
    in_order_rest scan e h =
        let found = found_for_scan overlay scan storage in
        let later : Text → Bool = λ k. passes_cursor scan.reverse k e.key in
        ap (λ m. in_direction scan.reverse (Map.values m)) (found_rest_of scan e.key h)
        ∙ ap (in_direction scan.reverse)
            (values-retain scan later found.entries (found-OwnKey overlay scan storage keyed))
        ∙ in_direction-retain scan.reverse (λ f. later f.key) (Map.values found)
        ∙ ap (λ p. retain p (in_order scan)) (fun_ext (λ f. before-passes_cursor scan.reverse e f))

    -- A page of a scan is as long as its limit where it has a cursor, and the entries of the page
    -- with those of the scan that goes on behind the cursor are the entries of the scan without a
    -- limit, in either direction and from any earlier cursor, if the limit is not 0.
    pub listing_resumes :
        (scan : RecordScan) (fewer : ℕ) {cursor : Text}
        → scan.limit ≡ some (suc fewer)
        → (listing overlay storage scan).next_cursor ≡ some cursor
        → ((listing overlay storage scan).entries
              ++ (listing overlay storage (rest_of scan cursor)).entries
            ≡ (listing overlay storage (unlimited scan)).entries)
          × (length (listing overlay storage scan).entries ≡ suc fewer)
    listing_resumes scan fewer {cursor} limit next =
        let page : listing overlay storage scan ≡ limited (some (suc fewer)) (in_order scan) =
          listing-in_order scan ∙ ap (λ l. limited l (in_order scan)) limit in
        let found = found_for_scan overlay scan storage in
        let (e, matches, at, split, count) =
          page_goes_on (λ f. matches_key scan f.key ≡ true) scan.reverse fewer (in_order scan)
            (in_direction-Ordered scan.reverse (Map.values found) (found_sorted scan))
            (in_direction-All (λ f. matches_key scan f.key ≡ true) scan.reverse (Map.values found)
              (values-matches scan found.entries (found-OwnKey overlay scan storage keyed)))
            (ap (λ r. r.next_cursor) (sym page) ∙ next) in
        let whole =
          ap (λ r. r.entries) (listing-in_order (unlimited scan)) ∙ in_order-unlimited scan in
        let rest =
          ap (λ r. r.entries) (listing-in_order (rest_of scan e.key))
          ∙ in_order_rest scan e matches in
        (
          subst
              (λ c.
                (listing overlay storage scan).entries
                  ++ (listing overlay storage (rest_of scan c)).entries
                ≡ (listing overlay storage (unlimited scan)).entries)
              at (ap₂ ◌++◌ (ap (λ r. r.entries) page) rest ∙ split ∙ sym whole),
          ap (λ r. length r.entries) page ∙ count,
        )
