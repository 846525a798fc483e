-- ===== src/Map/Laws.antt =====
-- The laws of maps that the components use; with them the representation stays shut.
use prima_db.Prelude.{Bool, ◌≡◌, ◌≢◌, refl, none, some, if◌then◌else◌, arith}
use prima_db.Ord.{Ord, ◌=?◌}
use prima_db.Map.{Map, empty, get, insert, remove, retain}
use prima_db.Map.Entries.{
  IsSorted, IsSorted-prop, entries_ext, get_in-insert_in, get_in-remove_in, get_in-retain,
}
use mathlib.Core.HLevel.{is_prop→PathP}

module _ {ℓ κ} {K : Type ℓ} {V : Type κ} ⦃o : Ord K⦄ where
  pub get-empty : (k : K) → get (empty {V = V}) k ≡ none
  unfolding get
  get-empty k = refl

  pub get-insert :
      (m : Map K V) (k : K) (v : V) (j : K)
      → get (insert m k v) j ≡ (if j =? k then some v else get m j)
  unfolding get insert
  get-insert m k v j = get_in-insert_in m.entries k j v

  pub get-remove : (m : Map K V) (k j : K) → get (remove m k) j ≡ (if j =? k then none else get m j)
  unfolding get remove
  get-remove m k j = get_in-remove_in m.entries k j m.sorted

  pub get-insert_self : (m : Map K V) (k : K) (v : V) → get (insert m k v) k ≡ some v
  get-insert_self m k v = simp (get-insert, o.cmp_refl)

  pub get-remove_self : (m : Map K V) (k : K) → get (remove m k) k ≡ none
  get-remove_self m k = simp (get-remove, o.cmp_refl)

  pub get-insert_ne : (m : Map K V) (k : K) (v : V) (j : K) → j ≢ k → get (insert m k v) j ≡ get m j
  get-insert_ne m k v j h = ground (arith, get-insert m k v j, o.eq_of_cmp j k)

  pub get-remove_ne : (m : Map K V) (k j : K) → j ≢ k → get (remove m k) j ≡ get m j
  get-remove_ne m k j h = ground (arith, get-remove m k j, o.eq_of_cmp j k)

  pub get-retain :
      (m : Map K V) (p : K → Bool) (k : K) → get (retain m p) k ≡ (if p k then get m k else none)
  unfolding get retain
  get-retain m p k = get_in-retain p m.entries k

  -- Two maps that read alike are equal.
  pub map_ext : (m n : Map K V) → ((k : K) → get m k ≡ get n k) → m ≡ n
  unfolding get
  map_ext m n h =
      let p = entries_ext m.entries n.entries m.sorted n.sorted h in
      λ i. record {
        entries = p i;
        sorted = is_prop→PathP (λ j. IsSorted (p j)) (λ j. IsSorted-prop (p j)) m.sorted n.sorted i;
      }

  -- Writing back what a map reads changes nothing.
  pub insert_same : (m : Map K V) (k : K) (v : V) → get m k ≡ some v → insert m k v ≡ m
  insert_same m k v h =
      map_ext (insert m k v) m λ j. ground (arith, get-insert m k v j, o.eq_of_cmp j k)

  pub remove-empty : (k : K) → remove (empty {V = V}) k ≡ empty
  remove-empty k =
      map_ext (remove empty k) empty
        λ j. ground (arith, get-remove (empty {V = V}) k j, get-empty j)

  pub insert-insert : (m : Map K V) (k : K) (v w : V) → insert (insert m k v) k w ≡ insert m k w
  insert-insert m k v w =
      map_ext (insert (insert m k v) k w) (insert m k w)
        λ j. ground (arith, get-insert (insert m k v) k w j, get-insert m k v j, get-insert m k w j)

  pub insert_comm :
      (m : Map K V) (k j : K) (v w : V)
      → k ≢ j
      → insert (insert m k v) j w ≡ insert (insert m j w) k v
  insert_comm m k j v w h = map_ext (insert (insert m k v) j w) (insert (insert m j w) k v) λ i.
      ground (
        arith,
        get-insert (insert m k v) j w i,
        get-insert m k v i,
        get-insert (insert m j w) k v i,
        get-insert m j w i,
        o.eq_of_cmp i k,
        o.eq_of_cmp i j,
      )

pub ruleset map_laws = (get-empty, get-insert, get-remove)
