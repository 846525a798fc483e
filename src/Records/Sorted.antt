-- ===== src/Records/Sorted.antt =====
-- The records of a scan stand in the order of their keys.
use prima_db.Prelude.{
  ◌≡◌, refl, sym, ap, subst, Bool, true, Option, none, some, List, [], ◌∷◌, map, retain, All,
  Ordered, unwrap_or, arith,
}
use prima_db.Text.{Text}
use prima_db.Ord.{Ord, list_ord, nat_ord, is_lt, ◌<?◌}
use prima_db.Map
use prima_db.Map.{Map, IsSorted}
use prima_db.Map.Entries.{Above, get_in, get_in-Above}
use prima_db.Records.{RecordEntry, RecordScan, matches_key}
use prima_db.Records.Collect.{Overlay, IsKeyed, stored, visible, found_for_scan, get-found_for_scan}

abbrev texts : Ord Text
texts = list_ord

module _ {J : Type 0} where
  abbrev pub key_before : RecordEntry J → RecordEntry J → Bool
  key_before a b = a.key <? b.key

  stored-key :
      (entries : List (RecordEntry J)) (key : Text) {e : RecordEntry J}
      → stored entries key ≡ some e
      → e.key ≡ key
  unfolding stored
  stored-key [] key h = cc
  stored-key (entry ∷ entries) key {e} h =
      ground (arith, stored-key entries key {e = e}, texts.eq_of_cmp key entry.key)

  keyed_get :
      (entries : List (Text × Option (RecordEntry J))) (key : Text) {e : RecordEntry J}
      → IsKeyed entries
      → get_in entries key ≡ some (some e)
      → e.key ≡ key
  unfolding get_in
  keyed_get [] key k h = cc
  keyed_get ((j, none) ∷ entries) key {e} k h =
      ground (arith, keyed_get entries key {e = e}, texts.eq_of_cmp key j)
  keyed_get ((j, some entry) ∷ entries) key {e} k h =
      ground (arith, keyed_get entries key {e = e}, texts.eq_of_cmp key j)

  found-key :
      (overlay : Overlay J) (scan : RecordScan) (storage : Option (List (RecordEntry J)))
      (key : Text) {e : RecordEntry J}
      → IsKeyed overlay.entries
      → Map.get (found_for_scan overlay scan storage) key ≡ some e
      → (e.key ≡ key) × (matches_key scan key ≡ true)
  unfolding visible Map.get
  found-key overlay scan storage key {e} keyed h = ground (
    arith,
    get-found_for_scan overlay scan storage key keyed,
    keyed_get overlay.entries key {e = e},
    stored-key (unwrap_or storage []) key {e = e},
  )

  abbrev pub OwnKey : RecordScan → Text × RecordEntry J → Type 0
  OwnKey scan p = (p.1.key ≡ p.0) × (matches_key scan p.0 ≡ true)

  entries-OwnKey :
      (scan : RecordScan) (l : List (Text × RecordEntry J))
      → IsSorted l
      → ((k : Text) (e : RecordEntry J) → get_in l k ≡ some e → OwnKey scan (k, e))
      → All (OwnKey scan) l
  unfolding get_in
  entries-OwnKey scan [] s h = tt
  entries-OwnKey scan ((j, e) ∷ l) s h = (
    h j e (ground (arith, texts.cmp_refl j)),
    entries-OwnKey scan l s.1
        (λ k f g. h k f (ground (arith, get_in-Above j l, texts.eq_of_cmp k j))),
  )

  pub found-OwnKey :
      (overlay : Overlay J) (scan : RecordScan) (storage : Option (List (RecordEntry J)))
      → IsKeyed overlay.entries
      → All (OwnKey scan) (found_for_scan overlay scan storage).entries
  unfolding Map.get
  found-OwnKey overlay scan storage keyed =
      let found = found_for_scan overlay scan storage in
      entries-OwnKey scan found.entries found.sorted
        (λ k e. found-key overlay scan storage k {e = e} keyed)

  values-Above :
      (scan : RecordScan) (first : RecordEntry J) (l : List (Text × RecordEntry J))
      → Above first.key l
      → All (OwnKey scan) l
      → All (λ e. key_before first e ≡ true) (map (λ p. p.1) l)
  values-Above scan first [] a o = tt
  values-Above scan first ((k, e) ∷ l) a o = (
    subst (λ x. (first.key <? x) ≡ true) (sym o.0.0) (ap is_lt a.0),
    values-Above scan first l a.1 o.1,
  )

  -- The values of a map whose records have its keys stand in the order of their keys.
  pub values-Ordered :
      (scan : RecordScan) (l : List (Text × RecordEntry J))
      → IsSorted l
      → All (OwnKey scan) l
      → Ordered key_before (map (λ p. p.1) l)
  values-Ordered scan [] s o = tt
  values-Ordered scan ((k, e) ∷ l) s o = (
    values-Above scan e l (subst (λ b. Above b l) (sym o.0.0) s.0) o.1,
    values-Ordered scan l s.1 o.1,
  )

  pub values-matches :
      (scan : RecordScan) (l : List (Text × RecordEntry J))
      → All (OwnKey scan) l
      → All (λ e. matches_key scan e.key ≡ true) (map (λ p. p.1) l)
  values-matches scan [] o = tt
  values-matches scan ((k, e) ∷ l) o =
      (subst (λ x. matches_key scan x ≡ true) (sym o.0.0) o.0.1, values-matches scan l o.1)

  pub values-retain :
      (scan : RecordScan) (p : Text → Bool) (l : List (Text × RecordEntry J))
      → All (OwnKey scan) l
      → map (λ e. e.1) (retain (λ e. p e.0) l) ≡ retain (λ e. p e.key) (map (λ e. e.1) l)
  values-retain scan p [] o = refl
  values-retain scan p ((k, e) ∷ l) o = ground (arith, values-retain scan p l o.1)
