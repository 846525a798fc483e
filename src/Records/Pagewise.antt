-- ===== src/Records/Pagewise.antt =====
-- A page that a scan reads from a store is enough for the page that it returns.
use prima_db.Prelude.{
  ℕ, suc, ◌<◌, ◌≤◌, ◌≡◌, sym, ap, ◌∙◌, Bool, true, false, not, ◌||◌, Option-cases, inl, inr, some,
  List, length, length-take, take, retain, retain-All_both, is_some, All-map, Ordered, arith,
}
use prima_db.Text.{Text}
use prima_db.Ord.{Ord, list_ord, nat_ord}
use prima_db.Map
use prima_db.Map.{Map}
use prima_db.Map.Laws.{map_ext, get-retain}
use prima_db.Records.{RecordEntry, RecordScan, passes_cursor}
use prima_db.Records.Collect.{Overlay, IsKeyed, visible, found_for_scan, get-found_for_scan}
use prima_db.Records.Pages.{in_direction, limited}
use prima_db.Records.Sorted.{key_before, found-OwnKey, values-retain}
use prima_db.Records.Resume.{
  before, before-passes_cursor, in_direction-Ordered, in_direction-retain, in_order, found_sorted,
}
use prima_db.Records.Listed.{
  stored-retain, has_key, has_key-in_direction, has_key-retain, length-has_key, same_start,
  limited-take, length-retain,
}
use prima_db.Records.Reads.{
  listed_by, Ordered-retain, stored-listed_by, listed_by-Ordered, length-in_direction, KeepsAll,
  no_deletion, own_key, stored-some, found_has_key,
}

abbrev texts : Ord Text
texts = list_ord

behind_trans :
    (backward : Bool) (point a b : Text)
    → passes_cursor backward b a ≡ true
    → passes_cursor backward a point ≡ true
    → passes_cursor backward b point ≡ true
behind_trans true point a b h k = ground (
  arith,
  texts.lt_trans b a point,
  texts.cmp_swap b a,
  texts.cmp_swap a point,
  texts.cmp_swap b point,
)
behind_trans false point a b h k = ground (
  arith,
  texts.lt_trans point a b,
  texts.cmp_swap b a,
  texts.cmp_swap a point,
  texts.cmp_swap b point,
)

module _ {J : Type 0} (overlay : Overlay J) (storage : List (RecordEntry J))
    (keyed : IsKeyed overlay.entries) (sorted : Ordered key_before storage)
    (scan : RecordScan) where
  abbrev listed : List (RecordEntry J)
  listed = listed_by scan storage

  -- The store's list of what a scan matches is as good as all that it holds.
  pub found_listed :
      found_for_scan overlay scan (some listed) ≡ found_for_scan overlay scan (some storage)
  unfolding visible
  found_listed =
      map_ext (found_for_scan overlay scan (some listed))
        (found_for_scan overlay scan (some storage))
        λ k. ground (
          arith,
          get-found_for_scan overlay scan (some listed) k keyed,
          get-found_for_scan overlay scan (some storage) k keyed,
          stored-listed_by scan storage k sorted,
        )

  module _ (point : RecordEntry J) where
    -- Behind the last record of the page.
    abbrev behind : Text → Bool
    behind key = passes_cursor scan.reverse key point.key

    abbrev pub page : List (RecordEntry J)
    page = retain (λ e. not (behind e.key)) listed

    -- What the page and the overlay know of.
    abbrev known : Text → Bool
    known key = not (behind key) || is_some (Map.get overlay key)

    found_page :
        found_for_scan overlay scan (some page)
        ≡ Map.retain (found_for_scan overlay scan (some storage)) known
    unfolding visible
    found_page =
        let found = found_for_scan overlay scan (some storage) in
        map_ext (found_for_scan overlay scan (some page)) (Map.retain found known) λ k. ground (
          arith,
          get-found_for_scan overlay scan (some page) k keyed,
          get-found_for_scan overlay scan (some storage) k keyed,
          get-retain found known k,
          stored-retain (λ key. not (behind key)) listed k,
          stored-listed_by scan storage k sorted,
        )

    abbrev whole : List (RecordEntry J)
    whole = in_order overlay (some storage) keyed scan

    in_order-page : in_order overlay (some page) keyed scan ≡ retain (λ e. known e.key) whole
    unfolding Map.retain
    in_order-page =
        let found = found_for_scan overlay scan (some storage) in
        ap (λ m. in_direction scan.reverse (Map.values m)) found_page
        ∙ ap (in_direction scan.reverse) (
            values-retain scan known found.entries (found-OwnKey overlay scan (some storage) keyed))
        ∙ in_direction-retain scan.reverse (λ e. known e.key) (Map.values found)

    has_key-whole :
        (key : Text)
        → KeepsAll overlay.entries
        → has_key key listed ≡ true
        → has_key key whole ≡ true
    unfolding visible Map.get
    has_key-whole key keeps listed_there =
        let found = found_for_scan overlay scan (some storage) in
        let (e, there) = stored-some listed key listed_there in
        elim (Option-cases (Map.get found key)) [
          | inl nothing ↦ absurd (
              ground (
                arith,
                get-found_for_scan overlay scan (some storage) key keyed,
                stored-listed_by scan storage key sorted,
                no_deletion overlay.entries key keeps,
              ))
          | inr (f, here) ↦
              has_key-in_direction key scan.reverse (Map.values found)
              ∙ found_has_key scan found.entries key
                  (found-OwnKey overlay scan (some storage) keyed) here
        ]

    module _ (keeps : KeepsAll overlay.entries) where
      enough_ahead : length page ≤ length (retain (λ e. not (behind e.key)) whole)
      enough_ahead =
          let found = found_for_scan overlay scan (some storage) in
          length-has_key scan.reverse page (retain (λ e. not (behind e.key)) whole)
            (Ordered-retain (before scan.reverse) (λ e. not (behind e.key)) listed
              (listed_by-Ordered scan storage sorted))
            (Ordered-retain (before scan.reverse) (λ e. not (behind e.key)) whole
              (in_direction-Ordered scan.reverse (Map.values found)
                (found_sorted overlay (some storage) keyed scan)))
            (All-map page
              (λ x c.
                has_key-retain x.key (λ key. not (behind key)) whole c.1
                ∙ has_key-whole x.key keeps c.0)
              (retain-All_both (λ x. has_key x.key listed ≡ true) (λ e. not (behind e.key)) listed
                (own_key listed)))

      same_page :
          (n : ℕ)
          → n < length page
          → take (suc n) (in_order overlay (some page) keyed scan) ≡ take (suc n) whole
      same_page n long =
          let found = found_for_scan overlay scan (some storage) in
          ap (take (suc n)) in_order-page
          ∙ same_start (before scan.reverse) (λ e. known e.key) (λ e. behind e.key) n whole
              (λ y z b.
                behind_trans scan.reverse point.key y.key z.key
                  (before-passes_cursor scan.reverse y z ∙ b))
              (λ x a. ground arith)
              (in_direction-Ordered scan.reverse (Map.values found)
                (found_sorted overlay (some storage) keyed scan))
              (omega (arith, enough_ahead))

      -- A page of the scan is the same from the store's page as from the whole store.
      pub limited-page :
          (n : ℕ)
          → n < length page
          → limited (some n) (in_order overlay (some page) keyed scan) ≡ limited (some n) whole
      limited-page n long =
          sym (limited-take n (in_order overlay (some page) keyed scan))
          ∙ ap (limited (some n)) (same_page n long)
          ∙ limited-take n whole

      -- And the loop over the store's pages stops there.
      pub long_page :
          (n : ℕ)
          → n < length page
          → n < length (Map.values (found_for_scan overlay scan (some page)))
      long_page n long = omega (
        arith,
        enough_ahead,
        length-retain (λ e. not (behind e.key)) whole,
        ap length (same_page n long),
        length-take (suc n) whole,
        length-take (suc n) (in_order overlay (some page) keyed scan),
        length-in_direction scan.reverse (Map.values (found_for_scan overlay scan (some page))),
      )
