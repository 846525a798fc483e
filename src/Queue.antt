-- ===== src/Queue.antt =====
-- `CompactedOperations` of db.rs: a queue of operations that keeps at most one operation for each
-- slot of the state, with an index from slots to positions. The `HashMap` is a function.
pub mod Invariant
pub mod Content
use prima_db.Prelude.{
  ℕ, zero, suc, ◌+◌, ◌-◌, ◌≡◌, Bool, true, false, ◌&&◌, Option, none, some, List, [], ◌∷◌, ◌++◌,
  length, get_elem?, set, drop, ltb, if◌then◌else◌,
}
use prima_db.Text.{Text}
use prima_db.Ord.{list_ord, nat_ord, ◌=?◌, ◌≤?◌}
use prima_db.Clock.{revision_ord}
use prima_db.Graph.{NodeId, OperationAction, Operation}
use prima_db.Graph.OperationAction.{set_field, add_set_member, remove_set_member, delete_field}

-- The slot of the state that an operation updates.
pub data OperationCompactionKey : Type 0 where
  field : NodeId → Text → OperationCompactionKey
  set_member : NodeId → Text → NodeId → OperationCompactionKey

unfoldable pub key_eq : OperationCompactionKey → OperationCompactionKey → Bool
key_eq (field n f) (field n' f') = (n =? n') && (f =? f')
key_eq (set_member n f x) (set_member n' f' x') = (n =? n') && ((f =? f') && (x =? x'))
key_eq _ _ = false

module _ {J : Type 0} where
  unfoldable pub from_operation : Operation J → OperationCompactionKey
  from_operation op = elim op.action [
    | set_field node f value ↦ field node f
    | delete_field node f ↦ field node f
    | add_set_member node f member ↦ set_member node f member
    | remove_set_member node f member ↦ set_member node f member
  ]

pub record CompactedOperations (J : Type 0) : Type 0 where
  pub operations : List (Operation J)
  pub indices : OperationCompactionKey → Option ℕ

-- `indices.insert(key, index)`
abbrev pub put_index :
    OperationCompactionKey
    → ℕ
    → (OperationCompactionKey → Option ℕ)
    → OperationCompactionKey
    → Option ℕ
put_index key index indices k = if key_eq k key then some index else indices k

-- `indices.retain(..)`, for one value of the map.
abbrev pub shift_index : ℕ → Option ℕ → Option ℕ
shift_index count none = none
shift_index count (some index) = if ltb index count then none else some (index - count)

module _ {J : Type 0} where
  abbrev pub empty : CompactedOperations J
  empty = record { operations = []; indices = λ k. none }

  -- The queue with the operation at `index` replaced, if the new one is not older. The index is in
  -- range (`IsIndexed`); out of range, where Rust panics, nothing is changed.
  unfoldable pub replace_at : CompactedOperations J → ℕ → Operation J → CompactedOperations J
  replace_at q index op = elim (get_elem? q.operations index) [
    | none ↦ q
    | some existing ↦
        if existing.revision ≤? op.revision
        then record q { operations = set q.operations index op }
        else q
  ]

  unfoldable pub push : CompactedOperations J → Operation J → CompactedOperations J
  unfolding from_operation replace_at
  push q op = elim (q.indices (from_operation op)) [
    | some index ↦ replace_at q index op
    | none ↦ record {
      operations = q.operations ++ op ∷ [];
      indices = put_index (from_operation op) (length q.operations) q.indices;
    }
  ]

  unfoldable pub push_all : CompactedOperations J → List (Operation J) → CompactedOperations J
  unfolding push
  push_all q [] = q
  push_all q (op ∷ ops) = push_all (push q op) ops

  unfoldable pub from_operations : List (Operation J) → CompactedOperations J
  unfolding push_all
  from_operations ops = push_all empty ops

  abbrev pub len : CompactedOperations J → ℕ
  len q = length q.operations

  -- The loop of `rebuild_indices`, from position `i`.
  unfoldable pub index_from :
      ℕ
      → List (Operation J)
      → (OperationCompactionKey → Option ℕ)
      → OperationCompactionKey
      → Option ℕ
  unfolding from_operation
  index_from i [] indices = indices
  index_from i (op ∷ ops) indices = index_from (suc i) ops (put_index (from_operation op) i indices)

  unfoldable pub rebuild_indices : CompactedOperations J → CompactedOperations J
  unfolding index_from
  rebuild_indices q = record q { indices = index_from 0 q.operations (λ k. none) }

  unfoldable pub drain_prefix : CompactedOperations J → ℕ → CompactedOperations J
  drain_prefix q count = record {
    operations = drop count q.operations;
    indices = λ k. shift_index count (q.indices k);
  }
