-- ===== src/Map.antt =====
-- Rust's `BTreeMap`: its entries in the order of their keys, each key once. The order is part of
-- the type, so two maps with the same entries are equal, whatever the history of either.
pub mod Entries
pub mod Laws
use prima_db.Prelude.{ℕ, ◌≡◌, Bool, Option, none, some, List, [], ◌∷◌, map, length, is_some}
use prima_db.Prelude
use prima_db.Ord.{Ord}
use Entries.{
  IsSorted, get_in, insert_in, remove_in, insert_in-IsSorted, remove_in-IsSorted, retain-IsSorted,
}
unfoldable pub use Entries.{IsSorted}

pub record Map {ℓ κ} (K : Type ℓ) (V : Type κ) ⦃o : Ord K⦄ : Type (ℓ ⊔ κ) where
  pub entries : List (K × V)
  pub sorted : IsSorted entries

module _ {ℓ κ} {K : Type ℓ} {V : Type κ} ⦃o : Ord K⦄ where
  abbrev pub empty : Map K V
  empty = record { entries = []; sorted = tt }

  unfoldable pub get : Map K V → K → Option V
  unfolding get_in
  get m k = get_in m.entries k

  unfoldable pub insert : Map K V → K → V → Map K V
  unfolding insert_in
  insert m k v = record {
    entries = insert_in m.entries k v;
    sorted = insert_in-IsSorted m.entries k v m.sorted;
  }

  unfoldable pub remove : Map K V → K → Map K V
  unfolding remove_in
  remove m k = record {
    entries = remove_in m.entries k;
    sorted = remove_in-IsSorted m.entries k m.sorted;
  }

  abbrev pub contains_key : Map K V → K → Bool
  contains_key m k = is_some (get m k)

  abbrev pub len : Map K V → ℕ
  len m = length m.entries

  abbrev pub keys : Map K V → List K
  keys m = map (λ e. e.0) m.entries

  unfoldable pub retain : Map K V → (K → Bool) → Map K V
  retain m p = record {
    entries = Prelude.retain (λ e. p e.0) m.entries;
    sorted = retain-IsSorted p m.entries m.sorted;
  }

  abbrev pub values : Map K V → List V
  values m = map (λ e. e.1) m.entries
