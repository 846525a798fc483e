-- ===== src/Map/Entries.antt =====
-- The entries of a map: lists of pairs in the strict order of their keys.
use prima_db.Prelude.{
  ◌≡◌, refl, ap₂, Bool, Option, none, some, List, [], ◌∷◌, retain, arith, lt, eq, gt, if◌then◌else◌,
}
use prima_db.Ord.{Ord, ◌≺◌, ◌=?◌}

module _ {ℓ κ} {K : Type ℓ} {V : Type κ} ⦃o : Ord K⦄ where
  -- Every key lies above `b`.
  abbrev pub Above : K → List (K × V) → Type 0
  Above b [] = Unit
  Above b ((k, v) ∷ l) = (b ≺ k) × Above b l

  abbrev pub IsSorted : List (K × V) → Type 0
  IsSorted [] = Unit
  IsSorted ((k, v) ∷ l) = Above k l × IsSorted l

  unfoldable pub get_in : List (K × V) → K → Option V
  get_in [] k = none
  get_in ((j, v) ∷ l) k = if k =? j then some v else get_in l k

  unfoldable pub insert_in : List (K × V) → K → V → List (K × V)
  insert_in [] k v = (k, v) ∷ []
  insert_in ((j, w) ∷ l) k v = elim (o.cmp k j) [
    | lt ↦ (k, v) ∷ (j, w) ∷ l
    | eq ↦ (k, v) ∷ l
    | gt ↦ (j, w) ∷ insert_in l k v
  ]

  unfoldable pub remove_in : List (K × V) → K → List (K × V)
  remove_in [] k = []
  remove_in ((j, w) ∷ l) k = if k =? j then l else (j, w) ∷ remove_in l k

  pub Above-trans : (a b : K) (l : List (K × V)) → a ≺ b → Above b l → Above a l
  Above-trans a b [] h p = tt
  Above-trans a b ((k, v) ∷ l) h p = (o.lt_trans a b k h p.0, Above-trans a b l h p.1)

  Above-insert_in :
      (b : K) (l : List (K × V)) (k : K) (v : V) → b ≺ k → Above b l → Above b (insert_in l k v)
  unfolding insert_in
  Above-insert_in b [] k v h p = (h, tt)
  Above-insert_in b ((j, w) ∷ l) k v h p = ground (arith, Above-insert_in b l k v)

  pub insert_in-IsSorted :
      (l : List (K × V)) (k : K) (v : V) → IsSorted l → IsSorted (insert_in l k v)
  unfolding insert_in
  insert_in-IsSorted [] k v s = (tt, tt)
  insert_in-IsSorted ((j, w) ∷ l) k v s = ground (
    arith,
    o.cmp_swap k j,
    o.eq_of_cmp k j,
    Above-trans k j l,
    Above-insert_in j l k v,
    insert_in-IsSorted l k v,
  )

  Above-remove_in : (b : K) (l : List (K × V)) (k : K) → Above b l → Above b (remove_in l k)
  unfolding remove_in
  Above-remove_in b [] k p = tt
  Above-remove_in b ((j, w) ∷ l) k p = ground (arith, Above-remove_in b l k)

  pub remove_in-IsSorted : (l : List (K × V)) (k : K) → IsSorted l → IsSorted (remove_in l k)
  unfolding remove_in
  remove_in-IsSorted [] k s = tt
  remove_in-IsSorted ((j, w) ∷ l) k s =
      ground (arith, Above-remove_in j l k, remove_in-IsSorted l k)

  Above-retain :
      (p : K → Bool) (b : K) (l : List (K × V)) → Above b l → Above b (retain (λ e. p e.0) l)
  Above-retain p b [] h = tt
  Above-retain p b ((k, v) ∷ l) h = ground (arith, Above-retain p b l)

  pub retain-IsSorted :
      (p : K → Bool) (l : List (K × V)) → IsSorted l → IsSorted (retain (λ e. p e.0) l)
  retain-IsSorted p [] s = tt
  retain-IsSorted p ((k, v) ∷ l) s = ground (arith, Above-retain p k l, retain-IsSorted p l)

  pub get_in-retain :
      (p : K → Bool) (l : List (K × V)) (k : K)
      → get_in (retain (λ e. p e.0) l) k ≡ (if p k then get_in l k else none)
  unfolding get_in
  get_in-retain p [] k = ground arith
  get_in-retain p ((j, v) ∷ l) k = ground (arith, o.eq_of_cmp k j, get_in-retain p l k)

  pub get_in-Above : (b : K) (l : List (K × V)) → Above b l → get_in l b ≡ none
  unfolding get_in
  get_in-Above b [] p = refl
  get_in-Above b ((j, w) ∷ l) p = ground (arith, get_in-Above b l)

  pub get_in-insert_in :
      (l : List (K × V)) (k j : K) (v : V)
      → get_in (insert_in l k v) j ≡ (if j =? k then some v else get_in l j)
  unfolding get_in insert_in
  get_in-insert_in [] k j v = refl
  get_in-insert_in ((i, w) ∷ l) k j v = ground (
    arith,
    o.eq_of_cmp k i,
    o.eq_of_cmp j k,
    o.eq_of_cmp j i,
    get_in-insert_in l k j v,
    o.cmp_refl i,
    o.cmp_swap k i,
  )

  pub get_in-remove_in :
      (l : List (K × V)) (k j : K)
      → IsSorted l
      → get_in (remove_in l k) j ≡ (if j =? k then none else get_in l j)
  unfolding get_in remove_in
  get_in-remove_in [] k j s = ground arith
  get_in-remove_in ((i, w) ∷ l) k j s = ground (
    arith,
    o.eq_of_cmp k i,
    o.eq_of_cmp j k,
    o.eq_of_cmp j i,
    o.cmp_refl i,
    get_in-Above i l,
    get_in-remove_in l k j,
  )

  pub get_in_below : (b : K) (l : List (K × V)) (c : K) → b ≺ c → Above c l → get_in l b ≡ none
  get_in_below b l c h p = get_in-Above b l (Above-trans b c l h p)

  Σ_pair : {i j : K} {v w : V} → i ≡ j → v ≡ w → ◌≡◌ {A = K × V} (i, v) (j, w)
  Σ_pair p q = cc

  heads_agree :
      (i : K) (v : V) (l : List (K × V)) (j : K) (w : V) (m : List (K × V))
      → IsSorted ((i, v) ∷ l)
      → IsSorted ((j, w) ∷ m)
      → ((k : K) → get_in ((i, v) ∷ l) k ≡ get_in ((j, w) ∷ m) k)
      → (i ≡ j) × (v ≡ w)
  unfolding get_in
  heads_agree i v l j w m s t h = ground (
    arith,
    h i,
    h j,
    o.cmp_refl i,
    o.cmp_refl j,
    o.cmp_swap i j,
    o.eq_of_cmp i j,
    get_in_below i m j,
    get_in_below j l i,
  )

  tails_agree :
      (i : K) (v : V) (l : List (K × V)) (j : K) (w : V) (m : List (K × V))
      → IsSorted ((i, v) ∷ l)
      → IsSorted ((j, w) ∷ m)
      → ((k : K) → get_in ((i, v) ∷ l) k ≡ get_in ((j, w) ∷ m) k)
      → (k : K) → get_in l k ≡ get_in m k
  unfolding get_in
  tails_agree i v l j w m s t h k = ground (
    arith,
    heads_agree i v l j w m s t h,
    h k,
    o.eq_of_cmp k i,
    get_in-Above i l,
    get_in-Above i m,
  )

  -- Sorted entries that read alike are the same entries.
  pub entries_ext :
      (l m : List (K × V)) → IsSorted l → IsSorted m → ((k : K) → get_in l k ≡ get_in m k) → l ≡ m
  unfolding get_in
  entries_ext [] [] s t h = refl
  entries_ext [] ((j, w) ∷ m) s t h = ground (arith, h j, o.cmp_refl j)
  entries_ext ((i, v) ∷ l) [] s t h = ground (arith, h i, o.cmp_refl i)
  entries_ext ((i, v) ∷ l) ((j, w) ∷ m) s t h =
      let same = heads_agree i v l j w m s t h in
      ap₂ ◌∷◌ (Σ_pair same.0 same.1) (entries_ext l m s.1 t.1 (tails_agree i v l j w m s t h))

  Above-prop : (b : K) (l : List (K × V)) → IsProp (Above b l)
  Above-prop b [] = hlevel
  Above-prop b ((k, v) ∷ l) = hlevel (Above-prop b l)

  pub IsSorted-prop : (l : List (K × V)) → IsProp (IsSorted l)
  IsSorted-prop [] = hlevel
  IsSorted-prop ((k, v) ∷ l) = hlevel (Above-prop k l, IsSorted-prop l)
