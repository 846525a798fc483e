-- ===== src/Records/Reads.antt =====
-- What a scan finds, of a store that holds these records and lists those that a scan matches.
use prima_db.Prelude.{
  ◌≡◌, ◌≢◌, refl, ◌∙◌, Bool, true, false, Bool-cases, Option-cases, inl, inr, Option, none, some,
  List, [], ◌∷◌, map, reverse, length, length-append, retain, retain-All_both, All, All-map,
  Ordered, if◌then◌else◌, arith,
}
use mathlib.Core.List.{reverse-cons}
use prima_db.Text.{Text}
use prima_db.Ord.{Ord, list_ord, nat_ord, ◌=?◌, eq_of_test}
use prima_db.Map.Entries.{get_in}
use prima_db.Records.{RecordEntry, RecordScan, matches_key}
use prima_db.Records.Collect.{stored}
use prima_db.Records.Pages.{in_direction}
use prima_db.Records.Sorted.{key_before, OwnKey}
use prima_db.Records.Resume.{before, in_direction-Ordered}
use prima_db.Records.Listed.{stored-retain, stored-reverse, has_key}

abbrev texts : Ord Text
texts = list_ord

module _ {J : Type 0} where
  -- The records that a scan matches, in its direction.
  abbrev pub listed_by : RecordScan → List (RecordEntry J) → List (RecordEntry J)
  listed_by scan storage = in_direction scan.reverse (retain (λ e. matches_key scan e.key) storage)

  All-retained :
      (P : RecordEntry J → Type 0) (p : RecordEntry J → Bool) (xs : List (RecordEntry J))
      → All P xs
      → All P (retain p xs)
  All-retained P p xs a = All-map (retain p xs) (λ x c. c.0) (retain-All_both P p xs a)

  pub Ordered-retain :
      (order : RecordEntry J → RecordEntry J → Bool) (p : RecordEntry J → Bool)
      (xs : List (RecordEntry J))
      → Ordered order xs
      → Ordered order (retain p xs)
  Ordered-retain order p [] o = tt
  Ordered-retain order p (x ∷ xs) o = elim (Bool-cases (p x)) [
    | inl kept ↦
        rw kept (All-retained (λ y. order x y ≡ true) p xs o.0, Ordered-retain order p xs o.1)
    | inr dropped ↦ rw dropped (Ordered-retain order p xs o.1)
  ]

  stored-in_direction :
      (backward : Bool) (xs : List (RecordEntry J)) (key : Text)
      → Ordered key_before xs
      → stored (in_direction backward xs) key ≡ stored xs key
  stored-in_direction true xs key o = stored-reverse xs key o
  stored-in_direction false xs key o = refl

  pub stored-listed_by :
      (scan : RecordScan) (storage : List (RecordEntry J)) (key : Text)
      → Ordered key_before storage
      → stored (listed_by scan storage) key
        ≡ (if matches_key scan key then stored storage key else none)
  stored-listed_by scan storage key o =
      stored-in_direction scan.reverse (retain (λ e. matches_key scan e.key) storage) key
        (Ordered-retain key_before (λ e. matches_key scan e.key) storage o)
      ∙ stored-retain (matches_key scan) storage key

  pub listed_by-Ordered :
      (scan : RecordScan) (storage : List (RecordEntry J))
      → Ordered key_before storage
      → Ordered (before scan.reverse) (listed_by scan storage)
  listed_by-Ordered scan storage o =
      in_direction-Ordered scan.reverse (retain (λ e. matches_key scan e.key) storage)
        (Ordered-retain key_before (λ e. matches_key scan e.key) storage o)

  pub length-in_direction :
      (backward : Bool) (xs : List (RecordEntry J)) → length (in_direction backward xs) ≡ length xs
  length-in_direction true [] = refl
  length-in_direction true (x ∷ xs) =
      rw (reverse-cons x xs)
        (ground (arith, length-append (reverse xs) (x ∷ []), length-in_direction true xs))
  length-in_direction false xs = refl

  -- The overlay adds records and deletes none.
  abbrev pub KeepsAll : List (Text × Option (RecordEntry J)) → Type 0
  KeepsAll [] = Unit
  KeepsAll ((key, none) ∷ rest) = ⊥
  KeepsAll ((key, some entry) ∷ rest) = KeepsAll rest

  pub no_deletion :
      (entries : List (Text × Option (RecordEntry J))) (key : Text)
      → KeepsAll entries
      → get_in entries key ≢ some none
  unfolding get_in
  no_deletion [] key k = cc
  no_deletion ((j, none) ∷ rest) key k = absurd k
  no_deletion ((j, some entry) ∷ rest) key k = λ h. ground (arith, no_deletion rest key k)

  pub own_key : (xs : List (RecordEntry J)) → All (λ x. has_key x.key xs ≡ true) xs
  own_key [] = tt
  own_key (x ∷ xs) =
      (ground (arith, texts.cmp_refl x.key), All-map xs (λ z h. ground arith) (own_key xs))

  pub stored-some :
      (xs : List (RecordEntry J)) (key : Text)
      → has_key key xs ≡ true
      → (e : RecordEntry J) × (stored xs key ≡ some e)
  unfolding stored
  stored-some [] key h = absurd (cc)
  stored-some (x ∷ xs) key h = elim (Option-cases (stored xs key)) [
    | inr (e, later) ↦ (e, rw later refl)
    | inl none_later ↦ elim (Bool-cases (x.key =? key)) [
      | inl same ↦
          let e = eq_of_test x.key key same in
          (x, rw none_later (ground (arith, e, texts.cmp_refl key)))
      | inr other ↦ absurd (let (e, found) = stored-some xs key (ground arith) in cc)
    ]
  ]

  pub found_has_key :
      (scan : RecordScan) (l : List (Text × RecordEntry J)) (key : Text) {e : RecordEntry J}
      → All (OwnKey scan) l
      → get_in l key ≡ some e
      → has_key key (map (λ p. p.1) l) ≡ true
  unfolding get_in
  found_has_key scan [] key o h = absurd (cc)
  found_has_key scan ((k, v) ∷ l) key {e} o h =
      ground (
        arith,
        o.0.0,
        found_has_key scan l key {e = e} o.1,
        texts.eq_of_cmp key k,
        texts.cmp_refl k,
      )
