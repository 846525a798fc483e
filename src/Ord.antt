-- ===== src/Ord.antt =====
-- Rust's trait `Ord`: a comparison with the laws that the trait asks for, where equal means `≡`.
-- The instances are numbers and lists, which compare as Rust compares the bytes of a `str`.
use prima_db.Prelude.{
  ℕ, ◌≡◌, ◌≢◌, refl, ◌⊎◌, inl, inr, Bool, true, false, List, [], ◌∷◌, Ordering, lt, eq, gt, compare,
  Ordering-cases, arith,
}

abbrev pub swap : Ordering → Ordering
swap lt = gt
swap eq = eq
swap gt = lt

-- What the trait's documentation asks of `cmp`.
pub record IsLawful {ℓ} {A : Type ℓ} (cmp : A → A → Ordering) : Type ℓ where
  pub cmp_swap : (x y : A) → cmp y x ≡ swap (cmp x y)
  pub lt_trans : (x y z : A) → cmp x y ≡ lt → cmp y z ≡ lt → cmp x z ≡ lt
  pub eq_of_cmp : (x y : A) → cmp x y ≡ eq → x ≡ y
  pub cmp_refl : (x : A) → cmp x x ≡ eq

pub record Ord {ℓ} (A : Type ℓ) : Type ℓ where
  pub cmp : A → A → Ordering
  pub lawful : IsLawful cmp
  pub open lawful use *

infix 50 ◌≺◌ ◌<?◌ ◌≤?◌ ◌=?◌
-- Strictly below.
abbrev pub ◌≺◌ {ℓ} : {A : Type ℓ} ⦃ord : Ord A⦄ → A → A → Type 0
◌≺◌ ⦃ord⦄ x y = ord.cmp x y ≡ lt

abbrev pub is_lt : Ordering → Bool
is_lt lt = true
is_lt _ = false

abbrev pub is_le : Ordering → Bool
is_le gt = false
is_le _ = true

abbrev pub is_eq : Ordering → Bool
is_eq eq = true
is_eq _ = false

-- The operators `<`, `<=` and `==`.
abbrev pub ◌<?◌ {ℓ} : {A : Type ℓ} ⦃ord : Ord A⦄ → A → A → Bool
◌<?◌ ⦃ord⦄ x y = is_lt (ord.cmp x y)

abbrev pub ◌≤?◌ {ℓ} : {A : Type ℓ} ⦃ord : Ord A⦄ → A → A → Bool
◌≤?◌ ⦃ord⦄ x y = is_le (ord.cmp x y)

abbrev pub ◌=?◌ {ℓ} : {A : Type ℓ} ⦃ord : Ord A⦄ → A → A → Bool
◌=?◌ ⦃ord⦄ x y = is_eq (ord.cmp x y)

pub eq_or_ne {ℓ} : {K : Type ℓ} ⦃o : Ord K⦄ (a b : K) → (a ≡ b) ⊎ (a ≢ b)
eq_or_ne ⦃o⦄ a b = elim (Ordering-cases (o.cmp a b)) [
  | inl below ↦ inr (λ e. ground (arith, o.cmp_refl a))
  | inr (inl same) ↦ inl (o.eq_of_cmp a b same)
  | inr (inr above) ↦ inr (λ e. ground (arith, o.cmp_refl a))
]

pub eq_of_test {ℓ} : {K : Type ℓ} ⦃o : Ord K⦄ (a b : K) → (a =? b) ≡ true → a ≡ b
eq_of_test ⦃o⦄ a b h = ground (arith, o.eq_of_cmp a b)

module _ {ℓ} {K : Type ℓ} ⦃o : Ord K⦄ where
  pub le_of_lt_le :
      (a b c : K) → o.cmp a b ≡ lt → is_le (o.cmp b c) ≡ true → is_le (o.cmp a c) ≡ true
  le_of_lt_le a b c h k = ground (arith, o.lt_trans a b c, o.eq_of_cmp b c)

  pub lt_of_le_lt : (a b c : K) → is_le (o.cmp a b) ≡ true → o.cmp b c ≡ lt → o.cmp a c ≡ lt
  lt_of_le_lt a b c h k = ground (arith, o.lt_trans a b c, o.eq_of_cmp a b)

  pub le_trans :
      (a b c : K) → is_le (o.cmp a b) ≡ true → is_le (o.cmp b c) ≡ true → is_le (o.cmp a c) ≡ true
  le_trans a b c h k = ground (arith, o.lt_trans a b c, o.eq_of_cmp a b, o.eq_of_cmp b c)

  -- Two different keys are strictly ordered, one way or the other.
  pub lt_or_gt : (a b : K) → a ≢ b → (o.cmp a b ≡ lt) ⊎ (o.cmp b a ≡ lt)
  lt_or_gt a b h = ground (arith, o.eq_of_cmp a b, o.cmp_swap a b)

-- `Ordering::then_with`
abbrev pub then_with : Ordering → Ordering → Ordering
then_with lt second = lt
then_with gt second = gt
then_with eq second = second

pub compare-IsLawful : IsLawful compare
compare-IsLawful = record {
  cmp_swap = λ x y. ground arith;
  lt_trans = λ x y z h k. ground arith;
  eq_of_cmp = λ x y h. ground arith;
  cmp_refl = λ x. ground arith;
}

instance unfoldable pub nat_ord : Ord ℕ
nat_ord = record { cmp = compare; lawful = compare-IsLawful }

module _ {ℓ} {A : Type ℓ} ⦃a : Ord A⦄ where
  abbrev pub cmp_list : List A → List A → Ordering
  cmp_list [] [] = eq
  cmp_list [] (y ∷ ys) = lt
  cmp_list (x ∷ xs) [] = gt
  cmp_list (x ∷ xs) (y ∷ ys) = then_with (a.cmp x y) (cmp_list xs ys)

  cmp_list_refl : (xs : List A) → cmp_list xs xs ≡ eq
  cmp_list_refl [] = refl
  cmp_list_refl (x ∷ xs) = ground (arith, a.cmp_refl x, cmp_list_refl xs)

  eq_of_cmp_list : (xs ys : List A) → cmp_list xs ys ≡ eq → xs ≡ ys
  eq_of_cmp_list [] [] h = refl
  eq_of_cmp_list [] (y ∷ ys) h = cc
  eq_of_cmp_list (x ∷ xs) [] h = cc
  eq_of_cmp_list (x ∷ xs) (y ∷ ys) h = ground (arith, a.eq_of_cmp x y, eq_of_cmp_list xs ys)

  cmp_list-swap : (xs ys : List A) → cmp_list ys xs ≡ swap (cmp_list xs ys)
  cmp_list-swap [] [] = refl
  cmp_list-swap [] (y ∷ ys) = refl
  cmp_list-swap (x ∷ xs) [] = refl
  cmp_list-swap (x ∷ xs) (y ∷ ys) = ground (arith, a.cmp_swap x y, cmp_list-swap xs ys)

  cmp_list_trans :
      (xs ys zs : List A) → cmp_list xs ys ≡ lt → cmp_list ys zs ≡ lt → cmp_list xs zs ≡ lt
  cmp_list_trans [] [] zs h k = cc
  cmp_list_trans [] (y ∷ ys) [] h k = cc
  cmp_list_trans [] (y ∷ ys) (z ∷ zs) h k = refl
  cmp_list_trans (x ∷ xs) [] zs h k = cc
  cmp_list_trans (x ∷ xs) (y ∷ ys) [] h k = cc
  cmp_list_trans (x ∷ xs) (y ∷ ys) (z ∷ zs) h k = ground (
    arith,
    a.eq_of_cmp x y,
    a.eq_of_cmp y z,
    a.lt_trans x y z,
    a.cmp_swap x y,
    a.cmp_swap y z,
    cmp_list_trans xs ys zs,
  )

  pub cmp_list-IsLawful : IsLawful cmp_list
  cmp_list-IsLawful = record {
    cmp_refl = cmp_list_refl;
    eq_of_cmp = eq_of_cmp_list;
    cmp_swap = cmp_list-swap;
    lt_trans = cmp_list_trans;
  }

  instance unfoldable pub list_ord : Ord (List A)
  list_ord = record { cmp = cmp_list; lawful = cmp_list-IsLawful }
