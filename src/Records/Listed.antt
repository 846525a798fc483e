-- ===== src/Records/Listed.antt =====
-- What a scan reads from a store that keeps its records in the order of their keys.
use prima_db.Prelude.{
  ℕ, zero, suc, ◌<◌, ◌≤◌, ◌≡◌, refl, ap, Bool, true, false, not, ◌||◌, Bool-cases, inl, inr, none,
  some, List, [], ◌∷◌, ◌++◌, reverse, length, take, drop, retain, any, All, Ordered, ltb,
  length-take, if◌then◌else◌, arith,
}
use mathlib.Core.List.{reverse-cons}
use prima_db.Text.{Text}
use prima_db.Ord.{Ord, list_ord, nat_ord, ◌=?◌, eq_of_test}
use prima_db.Records.{RecordEntry}
use prima_db.Records.Collect.{stored}
use prima_db.Records.Pages.{first_key, limited, in_direction}
use prima_db.Records.Sorted.{key_before}
use prima_db.Records.Resume.{before, before_irrefl, retain_none}

abbrev texts : Ord Text
texts = list_ord

module _ {J : Type 0} where
  pub stored-retain :
      (p : Text → Bool) (entries : List (RecordEntry J)) (key : Text)
      → stored (retain (λ e. p e.key) entries) key ≡ (if p key then stored entries key else none)
  unfolding stored
  stored-retain p [] key = ground arith
  stored-retain p (e ∷ entries) key =
      ground (arith, stored-retain p entries key, texts.eq_of_cmp key e.key)

  stored-append :
      (xs ys : List (RecordEntry J)) (key : Text)
      → stored (xs ++ ys) key ≡ (elim (stored ys key) [ some e ↦ some e | none ↦ stored xs key ])
  unfolding stored
  stored-append [] ys key = ground arith
  stored-append (x ∷ xs) ys key = ground (arith, stored-append xs ys key)

  stored-none :
      (x : RecordEntry J) (xs : List (RecordEntry J))
      → All (λ y. key_before x y ≡ true) xs
      → stored xs x.key ≡ none
  unfolding stored
  stored-none x [] a = refl
  stored-none x (y ∷ xs) a = ground (arith, stored-none x xs a.1, texts.cmp_refl x.key)

  pub stored-reverse :
      (xs : List (RecordEntry J)) (key : Text)
      → Ordered key_before xs
      → stored (reverse xs) key ≡ stored xs key
  unfolding stored
  stored-reverse [] key o = refl
  stored-reverse (x ∷ xs) key o = rw (reverse-cons x xs) (
      ground (
        arith,
        stored-append (reverse xs) (x ∷ []) key,
        stored-reverse xs key o.1,
        stored-none x xs o.0,
        texts.eq_of_cmp key x.key,
      ))

  pub length-retain :
      (p : RecordEntry J → Bool) (xs : List (RecordEntry J)) → length (retain p xs) ≤ length xs
  length-retain p [] = omega arith
  length-retain p (x ∷ xs) = ground (arith, length-retain p xs)

  -- A page depends on as many entries as it has, and on the next.
  take-take : (n : ℕ) (xs : List (RecordEntry J)) → take n (take (suc n) xs) ≡ take n xs
  take-take zero xs = refl
  take-take (suc n) [] = refl
  take-take (suc n) (x ∷ xs) = ap (λ l. x ∷ l) (take-take n xs)

  pub take_whole : (n : ℕ) (xs : List (RecordEntry J)) → length xs ≤ n → take n xs ≡ xs
  take_whole zero [] h = refl
  take_whole zero (x ∷ xs) h = absurd (omega arith)
  take_whole (suc n) [] h = refl
  take_whole (suc n) (x ∷ xs) h = ap (λ l. x ∷ l) (take_whole n xs (omega arith))

  first_key-drop :
      (n : ℕ) (xs : List (RecordEntry J))
      → first_key (drop n (take (suc n) xs)) ≡ first_key (drop n xs)
  first_key-drop zero [] = refl
  first_key-drop zero (x ∷ xs) = refl
  first_key-drop (suc n) [] = refl
  first_key-drop (suc n) (x ∷ xs) = first_key-drop n xs

  pub limited-take :
      (n : ℕ) (xs : List (RecordEntry J)) → limited (some n) (take (suc n) xs) ≡ limited (some n) xs
  limited-take n xs =
      let longer : ltb n (length (take (suc n) xs)) ≡ ltb n (length xs) =
        ground (arith, length-take (suc n) xs) in
      elim (Bool-cases (ltb n (length xs))) [
        | inl more ↦ rw (longer, more, take-take n xs, first_key-drop n xs) refl
        | inr all ↦
            rw (longer, all)
              (ap (λ l. record { entries = l; next_cursor = none })
                (take_whole (suc n) xs (ground arith)))
      ]

  module _ (before : RecordEntry J → RecordEntry J → Bool) where
    -- Where an entry is behind a point, so are those that follow it.
    All-behind :
        (behind : RecordEntry J → Bool) (x : RecordEntry J) (xs : List (RecordEntry J))
        → ((y z : RecordEntry J) → before y z ≡ true → behind y ≡ true → behind z ≡ true)
        → behind x ≡ true
        → All (λ y. before x y ≡ true) xs
        → All (λ y. not (behind y) ≡ false) xs
    All-behind behind x [] up b a = tt
    All-behind behind x (y ∷ xs) up b a = (ap not (up x y a.0 b), All-behind behind x xs up b a.1)

    nothing_ahead :
        (behind : RecordEntry J → Bool) (x : RecordEntry J) (xs : List (RecordEntry J))
        → ((y z : RecordEntry J) → before y z ≡ true → behind y ≡ true → behind z ≡ true)
        → behind x ≡ true
        → All (λ y. before x y ≡ true) xs
        → retain (λ y. not (behind y)) xs ≡ []
    nothing_ahead behind x xs up b a =
        retain_none (λ y. not (behind y)) xs (All-behind behind x xs up b a)

    -- Leaving out entries behind a point changes nothing of a page that ends before it.
    pub same_start :
        (q behind : RecordEntry J → Bool) (n : ℕ) (xs : List (RecordEntry J))
        → ((y z : RecordEntry J) → before y z ≡ true → behind y ≡ true → behind z ≡ true)
        → ((x : RecordEntry J) → behind x ≡ false → q x ≡ true)
        → Ordered before xs
        → n < length (retain (λ x. not (behind x)) xs)
        → take (suc n) (retain q xs) ≡ take (suc n) xs
    same_start q behind n [] up keeps o long = refl
    same_start q behind zero (x ∷ xs) up keeps o long = elim (Bool-cases (behind x)) [
      | inl b ↦ absurd (ground (arith, b, nothing_ahead behind x xs up b o.0))
      | inr ahead ↦ rw (keeps x ahead) refl
    ]
    same_start q behind (suc n) (x ∷ xs) up keeps o long = elim (Bool-cases (behind x)) [
      | inl b ↦ absurd (ground (arith, b, nothing_ahead behind x xs up b o.0))
      | inr ahead ↦
          rw (keeps x ahead)
            (ap (λ l. x ∷ l) (same_start q behind n xs up keeps o.1 (ground (arith, ahead))))
    ]

abbrev pub has_key : {J : Type 0} → Text → List (RecordEntry J) → Bool
has_key key xs = any (λ e. e.key =? key) xs

module _ {J : Type 0} where
  has_key-append :
      (key : Text) (xs ys : List (RecordEntry J))
      → has_key key (xs ++ ys) ≡ (has_key key xs || has_key key ys)
  has_key-append key [] ys = refl
  has_key-append key (x ∷ xs) ys = ground (arith, has_key-append key xs ys)

  has_key-reverse :
      (key : Text) (xs : List (RecordEntry J)) → has_key key (reverse xs) ≡ has_key key xs
  has_key-reverse key [] = refl
  has_key-reverse key (x ∷ xs) =
      rw (reverse-cons x xs)
        (ground (arith, has_key-append key (reverse xs) (x ∷ []), has_key-reverse key xs))

  pub has_key-in_direction :
      (key : Text) (backward : Bool) (xs : List (RecordEntry J))
      → has_key key (in_direction backward xs) ≡ has_key key xs
  has_key-in_direction key true xs = has_key-reverse key xs
  has_key-in_direction key false xs = refl

  pub has_key-retain :
      (key : Text) (p : Text → Bool) (xs : List (RecordEntry J))
      → p key ≡ true
      → has_key key (retain (λ e. p e.key) xs) ≡ has_key key xs
  has_key-retain key p [] h = refl
  has_key-retain key p (x ∷ xs) h =
      ground (arith, has_key-retain key p xs h, texts.eq_of_cmp x.key key)

  -- The keys of `zs` are elsewhere if `y` has none of them.
  keys_elsewhere :
      (y : RecordEntry J) (ys zs : List (RecordEntry J))
      → All (λ z. (y.key =? z.key) ≡ false) zs
      → All (λ z. has_key z.key (y ∷ ys) ≡ true) zs
      → All (λ z. has_key z.key ys ≡ true) zs
  keys_elsewhere y ys [] d a = tt
  keys_elsewhere y ys (z ∷ zs) d a = (ground arith, keys_elsewhere y ys zs d.1 a.1)

  module _ (backward : Bool) where
    differs_same :
        (x y : RecordEntry J) (zs : List (RecordEntry J))
        → y.key ≡ x.key
        → All (λ z. before backward x z ≡ true) zs
        → All (λ z. (y.key =? z.key) ≡ false) zs
    differs_same x y [] same a = tt
    differs_same x y (z ∷ zs) same a = (
      rw same (
          ground (
            arith,
            texts.eq_of_cmp x.key z.key,
            texts.cmp_refl x.key,
            before_irrefl backward x,
            a.0,
            texts.cmp_swap x.key z.key,
          )),
      differs_same x y zs same a.1,
    )

    -- An entry behind `y` has the key.
    behind_first :
        (x y : RecordEntry J) (ys : List (RecordEntry J))
        → All (λ w. before backward y w ≡ true) ys
        → has_key x.key ys ≡ true
        → before backward y x ≡ true
    behind_first x y [] a h = absurd (cc)
    behind_first x y (w ∷ ys) a h = elim (Bool-cases (w.key =? x.key)) [
      | inl same ↦ let e = eq_of_test w.key x.key same in ground (arith, e, a.0)
      | inr other ↦ behind_first x y ys a.1 (ground arith)
    ]

    differs_behind :
        (x y : RecordEntry J) (zs : List (RecordEntry J))
        → before backward y x ≡ true
        → All (λ z. before backward x z ≡ true) zs
        → All (λ z. (y.key =? z.key) ≡ false) zs
    differs_behind x y [] b a = tt
    differs_behind x y (z ∷ zs) b a = (
      ground (
        arith,
        texts.eq_of_cmp y.key z.key,
        texts.cmp_swap x.key y.key,
        texts.cmp_swap x.key z.key,
        a.0,
        b,
      ),
      differs_behind x y zs b a.1,
    )

    -- Of two lists in order, the one whose keys the other has is no longer.
    pub length-has_key :
        (xs ys : List (RecordEntry J))
        → Ordered (before backward) xs
        → Ordered (before backward) ys
        → All (λ x. has_key x.key ys ≡ true) xs
        → length xs ≤ length ys
    length-has_key [] ys o p a = omega arith
    length-has_key (x ∷ xs) [] o p a = absurd (cc)
    length-has_key (x ∷ xs) (y ∷ ys) o p a = elim (Bool-cases (y.key =? x.key)) [
      | inl same ↦
          let shorter =
            length-has_key xs ys o.1 p.1 (
              keys_elsewhere y ys xs (differs_same x y xs (eq_of_test y.key x.key same) o.0) a.1) in
          omega arith
      | inr other ↦
          let here : has_key x.key ys ≡ true = ground arith in
          let shorter = length-has_key (x ∷ xs) ys o p.1 (
            here,
            keys_elsewhere y ys xs (differs_behind x y xs (behind_first x y ys p.0 here) o.0) a.1,
          ) in
          omega arith
    ]
