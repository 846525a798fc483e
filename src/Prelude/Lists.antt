-- ===== src/Prelude/Lists.antt =====
-- Lists measured by native numbers, under the library's names.
use Prim.Native.Nat.{ℕ, zero, suc, ◌+◌, ◌-◌, ◌<◌, min}
use mathlib.Core.Path.{◌≡◌, refl, sym, ap, ap₂, subst}
use mathlib.Core.List.{List, [], ◌∷◌, ◌++◌, reverse, reverse-cons, append-nil}
use prima_db.Prelude.Tests.{if◌then◌else◌, Bool-cases}
use mathlib.Core.Bool.{Bool, true, false, ◌||◌, ◌&&◌}
use mathlib.Core.Option.{Option, none, some}
use mathlib.Core.Logic.{◌≢◌, inl, inr}
use native.Mathlib.Omega.{arith}

module _ {ℓ} {A : Type ℓ} where
  abbrev pub length : List A → ℕ
  length [] = 0
  length (x ∷ xs) = suc (length xs)

  pub length-append : (xs ys : List A) → length (xs ++ ys) ≡ length xs + length ys
  length-append [] ys = omega arith
  length-append (x ∷ xs) ys = omega (arith, length-append xs ys)

  abbrev pub take : ℕ → List A → List A
  take zero xs = []
  take (suc n) [] = []
  take (suc n) (x ∷ xs) = x ∷ take n xs

  abbrev pub drop : ℕ → List A → List A
  drop zero xs = xs
  drop (suc n) [] = []
  drop (suc n) (x ∷ xs) = drop n xs

  pub length-take : (n : ℕ) (xs : List A) → length (take n xs) ≡ min n (length xs)
  length-take zero xs = omega arith
  length-take (suc n) [] = omega arith
  length-take (suc n) (x ∷ xs) = omega (arith, length-take n xs)

  pub length-drop : (n : ℕ) (xs : List A) → length (drop n xs) ≡ length xs - n
  length-drop zero xs = omega arith
  length-drop (suc n) [] = omega arith
  length-drop (suc n) (x ∷ xs) = omega (arith, length-drop n xs)

  abbrev pub get_elem? : List A → ℕ → Option A
  get_elem? [] i = none
  get_elem? (x ∷ xs) zero = some x
  get_elem? (x ∷ xs) (suc i) = get_elem? xs i

  -- A write out of bounds changes nothing.
  abbrev pub set : List A → ℕ → A → List A
  set [] i v = []
  set (x ∷ xs) zero v = v ∷ xs
  set (x ∷ xs) (suc i) v = x ∷ set xs i v

  pub length-set : (xs : List A) (i : ℕ) (v : A) → length (set xs i v) ≡ length xs
  length-set [] i v = refl
  length-set (x ∷ xs) zero v = refl
  length-set (x ∷ xs) (suc i) v = ap suc (length-set xs i v)

  pub get_elem?-set_self :
      (xs : List A) (i : ℕ) (v : A) → i < length xs → get_elem? (set xs i v) i ≡ some v
  get_elem?-set_self [] i v h = absurd (omega arith)
  get_elem?-set_self (x ∷ xs) zero v h = refl
  get_elem?-set_self (x ∷ xs) (suc i) v h = get_elem?-set_self xs i v (omega arith)

  pub get_elem?-set_ne :
      (xs : List A) (i j : ℕ) (v : A) → j ≢ i → get_elem? (set xs i v) j ≡ get_elem? xs j
  get_elem?-set_ne [] i j v h = refl
  get_elem?-set_ne (x ∷ xs) zero zero v h = absurd (h refl)
  get_elem?-set_ne (x ∷ xs) zero (suc j) v h = refl
  get_elem?-set_ne (x ∷ xs) (suc i) zero v h = refl
  get_elem?-set_ne (x ∷ xs) (suc i) (suc j) v h = get_elem?-set_ne xs i j v (λ e. h (ap suc e))

  pub get_elem?-append_left :
      (xs ys : List A) (i : ℕ) → i < length xs → get_elem? (xs ++ ys) i ≡ get_elem? xs i
  get_elem?-append_left [] ys i h = absurd (omega arith)
  get_elem?-append_left (x ∷ xs) ys zero h = refl
  get_elem?-append_left (x ∷ xs) ys (suc i) h = get_elem?-append_left xs ys i (omega arith)

  pub get_elem?-take :
      (n : ℕ) (xs : List A) (i : ℕ) → i < n → get_elem? (take n xs) i ≡ get_elem? xs i
  get_elem?-take zero xs i h = absurd (omega arith)
  get_elem?-take (suc n) [] i h = refl
  get_elem?-take (suc n) (x ∷ xs) zero h = refl
  get_elem?-take (suc n) (x ∷ xs) (suc i) h = get_elem?-take n xs i (omega arith)

  -- Lists of one length that agree at each index are equal.
  pub list_ext :
      (xs ys : List A)
      → length xs ≡ length ys
      → ((i : ℕ) → i < length xs → get_elem? xs i ≡ get_elem? ys i)
      → xs ≡ ys
  list_ext [] [] e h = refl
  list_ext [] (y ∷ ys) e h = absurd (omega arith)
  list_ext (x ∷ xs) [] e h = absurd (omega arith)
  list_ext (x ∷ xs) (y ∷ ys) e h =
      let heads : some x ≡ some y = h 0 (omega arith) in
      ap₂ ◌∷◌ (cc) (list_ext xs ys (omega arith) (λ i l. h (suc i) (omega arith)))

  -- `iter().any(test)`
  abbrev pub any : (A → Bool) → List A → Bool
  any p [] = false
  any p (x ∷ xs) = p x || any p xs

  abbrev pub all : (A → Bool) → List A → Bool
  all p [] = true
  all p (x ∷ xs) = p x && all p xs

  abbrev pub All {κ} : (A → Type κ) → List A → Type κ
  All P [] = Unit
  All P (x ∷ xs) = P x × All P xs

  pub All-map {κ μ} :
      {P : A → Type κ} {Q : A → Type μ} (xs : List A) → ((x : A) → P x → Q x) → All P xs → All Q xs
  All-map [] f a = tt
  All-map (x ∷ xs) f a = (f x a.0, All-map xs f a.1)

  -- `retain(test)`
  pub all-All : (p : A → Bool) (xs : List A) → all p xs ≡ true → All (λ x. p x ≡ true) xs
  all-All p [] h = tt
  all-All p (x ∷ xs) h = (ground arith, all-All p xs (ground arith))

  pub All-all : (p : A → Bool) (xs : List A) → All (λ x. p x ≡ true) xs → all p xs ≡ true
  All-all p [] a = refl
  All-all p (x ∷ xs) a = rw (a.0, All-all p xs a.1) refl

  abbrev pub retain : (A → Bool) → List A → List A
  retain p [] = []
  retain p (x ∷ xs) = if p x then x ∷ retain p xs else retain p xs

  pub retain-append :
      (p : A → Bool) (xs ys : List A) → retain p (xs ++ ys) ≡ retain p xs ++ retain p ys
  retain-append p [] ys = refl
  retain-append p (x ∷ xs) ys = ground (arith, retain-append p xs ys)

  pub retain-reverse : (p : A → Bool) (xs : List A) → retain p (reverse xs) ≡ reverse (retain p xs)
  retain-reverse p [] = refl
  retain-reverse p (x ∷ xs) = elim (Bool-cases (p x)) [
    | inl kept ↦
        rw (reverse-cons x xs, retain-append p (reverse xs) (x ∷ []), kept, retain-reverse p xs)
          (sym (reverse-cons x (retain p xs)))
    | inr dropped ↦
        rw
          (
            reverse-cons x xs,
            retain-append p (reverse xs) (x ∷ []),
            dropped,
            retain-reverse p xs,
            append-nil (reverse (retain p xs)),
          )
          refl
  ]

  pub take-append-drop : (n : ℕ) (xs : List A) → take n xs ++ drop n xs ≡ xs
  take-append-drop zero xs = refl
  take-append-drop (suc n) [] = refl
  take-append-drop (suc n) (x ∷ xs) = ap (λ l. x ∷ l) (take-append-drop n xs)

  pub All-append {κ} : (P : A → Type κ) (xs ys : List A) → All P xs → All P ys → All P (xs ++ ys)
  All-append P [] ys a b = b
  All-append P (x ∷ xs) ys a b = (a.0, All-append P xs ys a.1 b)

  pub append-All {κ} : (P : A → Type κ) (xs ys : List A) → All P (xs ++ ys) → All P xs × All P ys
  append-All P [] ys a = (tt, a)
  append-All P (x ∷ xs) ys a = let (b, c) = append-All P xs ys a.1 in ((a.0, b), c)

  pub retain-All : (p : A → Bool) (xs : List A) → All (λ x. p x ≡ true) xs → retain p xs ≡ xs
  retain-All p [] a = refl
  retain-All p (x ∷ xs) a = rw a.0 (ap (λ l. x ∷ l) (retain-All p xs a.1))

  -- Each element stands before all that follow it.
  abbrev pub Ordered : (A → A → Bool) → List A → Type 0
  Ordered before [] = Unit
  Ordered before (x ∷ xs) = All (λ y. before x y ≡ true) xs × Ordered before xs

  Ordered-append_last :
      (before : A → A → Bool) (xs : List A) (y : A)
      → Ordered before xs
      → All (λ x. before x y ≡ true) xs
      → Ordered before (xs ++ y ∷ [])
  Ordered-append_last before [] y o a = (tt, tt)
  Ordered-append_last before (x ∷ xs) y o a = (
    All-append (λ z. before x z ≡ true) xs (y ∷ []) o.0 (a.0, tt),
    Ordered-append_last before xs y o.1 a.1,
  )

  pub All-reverse {κ} : (P : A → Type κ) (xs : List A) → All P xs → All P (reverse xs)
  All-reverse P [] a = tt
  All-reverse P (x ∷ xs) a =
      rw (reverse-cons x xs) (All-append P (reverse xs) (x ∷ []) (All-reverse P xs a.1) (a.0, tt))

  pub Ordered-reverse :
      (before : A → A → Bool) (xs : List A)
      → Ordered before xs
      → Ordered (λ x y. before y x) (reverse xs)
  Ordered-reverse before [] o = tt
  Ordered-reverse before (x ∷ xs) o = rw (reverse-cons x xs) (
      Ordered-append_last (λ y z. before z y) (reverse xs) x (Ordered-reverse before xs o.1)
        (All-reverse (λ y. before x y ≡ true) xs o.0))

  -- A stable sort: an element stands behind those that come before it.
  abbrev pub insert_by : (A → A → Bool) → A → List A → List A
  insert_by before x [] = x ∷ []
  insert_by before x (y ∷ ys) =
      let later = insert_by before x ys in if before y x then y ∷ later else x ∷ y ∷ ys

  abbrev pub sort_by : (A → A → Bool) → List A → List A
  sort_by before [] = []
  sort_by before (x ∷ xs) = insert_by before x (sort_by before xs)

  All-insert_by {κ} :
      (P : A → Type κ) (before : A → A → Bool) (x : A) (xs : List A)
      → P x
      → All P xs
      → All P (insert_by before x xs)
  All-insert_by P before x [] p a = (p, tt)
  All-insert_by P before x (y ∷ xs) p a = elim (Bool-cases (before y x)) [
    | inl behind ↦ rw behind (a.0, All-insert_by P before x xs p a.1)
    | inr ahead ↦ rw ahead (p, a)
  ]

  pub All-sort_by {κ} :
      (P : A → Type κ) (before : A → A → Bool) (xs : List A) → All P xs → All P (sort_by before xs)
  All-sort_by P before [] a = tt
  All-sort_by P before (x ∷ xs) a =
      All-insert_by P before x (sort_by before xs) a.0 (All-sort_by P before xs a.1)

  insert_by-All {κ} :
      (P : A → Type κ) (before : A → A → Bool) (x : A) (xs : List A)
      → All P (insert_by before x xs)
      → P x × All P xs
  insert_by-All P before x [] a = a
  insert_by-All P before x (y ∷ xs) a =
      let inserted : Bool → List A = λ b. if b then y ∷ insert_by before x xs else x ∷ y ∷ xs in
      elim (Bool-cases (before y x)) [
        | inl behind ↦
            let (first, later) = subst (λ b. All P (inserted b)) behind a in
            let (here, rest) = insert_by-All P before x xs later in (here, (first, rest))
        | inr ahead ↦ subst (λ b. All P (inserted b)) ahead a
      ]

  pub sort_by-All {κ} :
      (P : A → Type κ) (before : A → A → Bool) (xs : List A) → All P (sort_by before xs) → All P xs
  sort_by-All P before [] a = tt
  sort_by-All P before (x ∷ xs) a =
      let (here, rest) = insert_by-All P before x (sort_by before xs) a in
      (here, sort_by-All P before xs rest)

  pub retain-All_both {κ} :
      (P : A → Type κ) (p : A → Bool) (xs : List A)
      → All P xs
      → All (λ x. P x × (p x ≡ true)) (retain p xs)
  retain-All_both P p [] a = tt
  retain-All_both P p (x ∷ xs) a = elim (Bool-cases (p x)) [
    | inl kept ↦ rw kept ((a.0, kept), retain-All_both P p xs a.1)
    | inr dropped ↦ rw dropped (retain-All_both P p xs a.1)
  ]

  pub All-retain : (p : A → Bool) (xs : List A) → All (λ x. p x ≡ true) (retain p xs)
  All-retain p [] = tt
  All-retain p (x ∷ xs) = elim (Bool-cases (p x)) [
    | inl kept ↦ rw kept (kept, All-retain p xs)
    | inr dropped ↦ rw dropped (All-retain p xs)
  ]
