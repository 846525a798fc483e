-- ===== src/Queue/Invariant.antt =====
-- The index of a queue always names the position of the operation for each slot.
use prima_db.Prelude.{
  ℕ, zero, suc, ◌+◌, ◌≡◌, refl, ap, sym, ◌∙◌, map, inl, inr, Bool, Bool-cases, Option-cases, true,
  false, Option, none, some, List, [], ◌∷◌, ◌++◌, length, get_elem?, set, drop, if◌then◌else◌,
  arith,
}
use prima_db.Text.{Text}
use prima_db.Ord.{Ord, list_ord, nat_ord, ◌≤?◌}
use prima_db.Clock.{revision_ord}
use prima_db.Graph.{Operation}
use prima_db.Queue.{
  OperationCompactionKey, field, set_member, key_eq, from_operation, CompactedOperations, empty,
  put_index, replace_at, push, index_from, rebuild_indices, shift_index, drain_prefix,
}

abbrev texts : Ord Text
texts = list_ord

pub eq_of_key_eq : (k j : OperationCompactionKey) → key_eq k j ≡ true → k ≡ j
unfolding key_eq
eq_of_key_eq (field n f) (field n' f') h =
    ground (arith, texts.eq_of_cmp n n', texts.eq_of_cmp f f')
eq_of_key_eq (set_member n f x) (set_member n' f' x') h =
    ground (arith, texts.eq_of_cmp n n', texts.eq_of_cmp f f', texts.eq_of_cmp x x')
eq_of_key_eq _ _ h = cc

pub key_eq_refl : (k : OperationCompactionKey) → key_eq k k ≡ true
unfolding key_eq
key_eq_refl (field n f) = ground (arith, texts.cmp_refl n, texts.cmp_refl f)
key_eq_refl (set_member n f x) =
    ground (arith, texts.cmp_refl n, texts.cmp_refl f, texts.cmp_refl x)

-- A position one further on.
abbrev pub next : Option ℕ → Option ℕ
next none = none
next (some i) = some (suc i)

abbrev Keys : Type 0
Keys = List OperationCompactionKey

-- The position of a slot among the slots of a queue's operations.
unfoldable pub position : Keys → OperationCompactionKey → Option ℕ
position [] k = none
position (j ∷ keys) k = let rest = position keys k in if key_eq k j then some 0 else next rest

-- No slot stands twice.
abbrev pub Distinct : Keys → Type 0
Distinct [] = Unit
Distinct (j ∷ keys) = (position keys j ≡ none) × Distinct keys

abbrev or_at : Option ℕ → ℕ → Bool → Option ℕ
or_at (some i) n same = some i
or_at none n same = if same then some n else none

position-append_one :
    (keys : Keys) (j k : OperationCompactionKey)
    → position (keys ++ j ∷ []) k ≡ or_at (position keys k) (length keys) (key_eq k j)
unfolding position
position-append_one [] j k = ground arith
position-append_one (i ∷ keys) j k = ground (arith, position-append_one keys j k)

Distinct-append_one :
    (keys : Keys) (j : OperationCompactionKey)
    → Distinct keys
    → position keys j ≡ none
    → Distinct (keys ++ j ∷ [])
unfolding position
Distinct-append_one [] j d h = (refl, tt)
Distinct-append_one (i ∷ keys) j d h = (
  ground (arith, position-append_one keys j i, eq_of_key_eq i j, key_eq_refl j),
  Distinct-append_one keys j d.1 (ground arith),
)

abbrev or_else : Option ℕ → Option ℕ → ℕ → Option ℕ
or_else (some p) o i = some (i + p)
or_else none o i = o

module _ {J : Type 0} where
  abbrev pub keys_of : List (Operation J) → Keys
  keys_of = map from_operation

  pub record IsIndexed (q : CompactedOperations J) : Type 0 where
    pub distinct : Distinct (keys_of q.operations)
    pub indexed : (k : OperationCompactionKey) → q.indices k ≡ position (keys_of q.operations) k

  pub empty-IsIndexed : IsIndexed empty
  unfolding position
  empty-IsIndexed = record { distinct = tt; indexed = λ k. refl }

  -- A slot's position is that of an operation on it.
  pub get-position :
      (ops : List (Operation J)) (k : OperationCompactionKey) (i : ℕ)
      → position (keys_of ops) k ≡ some i
      → (op : Operation J) × (get_elem? ops i ≡ some op) × (from_operation op ≡ k)
  unfolding position
  get-position [] k i h = absurd (cc)
  get-position (op ∷ ops) k zero h = (op, refl, ground (arith, eq_of_key_eq k (from_operation op)))
  get-position (op ∷ ops) k (suc i) h = get-position ops k i (ground arith)

  keys_of-set :
      (ops : List (Operation J)) (i : ℕ) (op old : Operation J)
      → get_elem? ops i ≡ some old
      → from_operation op ≡ from_operation old
      → keys_of (set ops i op) ≡ keys_of ops
  keys_of-set [] i op old h e = refl
  keys_of-set (p ∷ ops) zero op old h e = cc
  keys_of-set (p ∷ ops) (suc i) op old h e =
      ap (◌∷◌ (from_operation p)) (keys_of-set ops i op old h e)

  keys_of-append :
      (ops : List (Operation J)) (op : Operation J)
      → keys_of (ops ++ op ∷ []) ≡ keys_of ops ++ from_operation op ∷ []
  keys_of-append [] op = refl
  keys_of-append (p ∷ ops) op = ap (◌∷◌ (from_operation p)) (keys_of-append ops op)

  length-keys_of : (ops : List (Operation J)) → length (keys_of ops) ≡ length ops
  length-keys_of [] = refl
  length-keys_of (p ∷ ops) = ap suc (length-keys_of ops)

  index_from_lem :
      (i : ℕ) (ops : List (Operation J)) (indices : OperationCompactionKey → Option ℕ)
      (k : OperationCompactionKey)
      → Distinct (keys_of ops)
      → index_from i ops indices k ≡ or_else (position (keys_of ops) k) (indices k) i
  unfolding index_from position
  index_from_lem i [] indices k d = refl
  index_from_lem i (op ∷ ops) indices k d = ground (
    arith,
    index_from_lem (suc i) ops (put_index (from_operation op) i indices) k d.1,
    eq_of_key_eq k (from_operation op),
  )

  -- Rebuilding the index of a queue without a doubled slot gives the index that the invariant asks.
  pub rebuild_indices-IsIndexed :
      (q : CompactedOperations J) → Distinct (keys_of q.operations) → IsIndexed (rebuild_indices q)
  unfolding rebuild_indices
  rebuild_indices-IsIndexed q d = record {
    distinct = d;
    indexed = λ k. ground (arith, index_from_lem 0 q.operations (λ k. none) k d);
  }

  drop-Distinct :
      (count : ℕ) (ops : List (Operation J))
      → Distinct (keys_of ops)
      → Distinct (keys_of (drop count ops))
  drop-Distinct zero ops d = d
  drop-Distinct (suc count) [] d = d
  drop-Distinct (suc count) (op ∷ ops) d = drop-Distinct count ops d.1

  drop-position :
      (count : ℕ) (ops : List (Operation J)) (k : OperationCompactionKey)
      → Distinct (keys_of ops)
      → shift_index count (position (keys_of ops) k) ≡ position (keys_of (drop count ops)) k
  unfolding position
  drop-position zero ops k d = ground arith
  drop-position (suc count) [] k d = refl
  drop-position (suc count) (op ∷ ops) k d =
      ground (arith, drop-position count ops k d.1, eq_of_key_eq k (from_operation op), d.0)

  abbrev pub appended : CompactedOperations J → Operation J → CompactedOperations J
  appended q op = record {
    operations = q.operations ++ op ∷ [];
    indices = put_index (from_operation op) (length q.operations) q.indices;
  }

  -- The three outcomes of a push.
  pub data Pushed (q : CompactedOperations J) (op : Operation J) : Type 0 where
    fresh : q.indices (from_operation op) ≡ none → push q op ≡ appended q op → Pushed q op
    newer :
        (i : ℕ) (old : Operation J)
        → q.indices (from_operation op) ≡ some i
        → get_elem? q.operations i ≡ some old
        → from_operation op ≡ from_operation old
        → (old.revision ≤? op.revision) ≡ true
        → push q op ≡ record q { operations = set q.operations i op }
        → Pushed q op
    older :
        (i : ℕ) (old : Operation J)
        → q.indices (from_operation op) ≡ some i
        → get_elem? q.operations i ≡ some old
        → from_operation op ≡ from_operation old
        → (old.revision ≤? op.revision) ≡ false
        → push q op ≡ q
        → Pushed q op

  replace_cases :
      (q : CompactedOperations J) (op : Operation J) (i : ℕ) (old : Operation J)
      → q.indices (from_operation op) ≡ some i
      → get_elem? q.operations i ≡ some old
      → from_operation op ≡ from_operation old
      → Pushed q op
  unfolding push
  replace_cases q op i old found at_i on_slot = elim (Bool-cases (old.revision ≤? op.revision)) [
    | inl le ↦ newer i old found at_i on_slot le (rw (found, push, at_i, replace_at, le))
    | inr gt ↦ older i old found at_i on_slot gt (rw (found, push, at_i, replace_at, gt))
  ]

  pub push_cases : (q : CompactedOperations J) (op : Operation J) → IsIndexed q → Pushed q op
  unfolding push
  push_cases q op w = elim (Option-cases (q.indices (from_operation op))) [
    | inl none_there ↦ fresh none_there (rw (none_there, push))
    | inr (i, found) ↦
        let (old, at_i, on_slot) =
          get-position q.operations (from_operation op) i
            (sym (w.indexed (from_operation op)) ∙ found) in
        replace_cases q op i old found at_i (sym on_slot)
  ]

  appended-IsIndexed :
      (q : CompactedOperations J) (op : Operation J)
      → IsIndexed q
      → q.indices (from_operation op) ≡ none
      → IsIndexed (appended q op)
  appended-IsIndexed q op w h =
      let key = from_operation op in
      let absent : position (keys_of q.operations) key ≡ none = sym (w.indexed key) ∙ h in
      record {
        distinct =
            rw (keys_of-append q.operations op)
              (Distinct-append_one (keys_of q.operations) key w.distinct absent);
        indexed = λ k. rw (keys_of-append q.operations op) (
            ground (
              arith,
              position-append_one (keys_of q.operations) key k,
              w.indexed k,
              length-keys_of q.operations,
              eq_of_key_eq k key,
              absent,
            ));
      }

  replaced-IsIndexed :
      (q : CompactedOperations J) (i : ℕ) (op old : Operation J)
      → IsIndexed q
      → get_elem? q.operations i ≡ some old
      → from_operation op ≡ from_operation old
      → IsIndexed (record q { operations = set q.operations i op })
  replaced-IsIndexed q i op old w at_i on_slot =
      let same = keys_of-set q.operations i op old at_i on_slot in
      record { distinct = rw same w.distinct; indexed = λ k. rw same (w.indexed k) }

  -- A push keeps the invariant: no slot has two operations, and the index is exact.
  pub push-IsIndexed :
      (q : CompactedOperations J) (op : Operation J) → IsIndexed q → IsIndexed (push q op)
  push-IsIndexed q op w = elim (push_cases q op w) [
    | fresh h e ↦ rw e (appended-IsIndexed q op w h)
    | newer i old found at_i on_slot le e ↦ rw e (replaced-IsIndexed q i op old w at_i on_slot)
    | older i old found at_i on_slot gt e ↦ rw e w
  ]

  -- Dropping a prefix of the queue keeps the invariant.
  pub drain_prefix-IsIndexed :
      (q : CompactedOperations J) (count : ℕ) → IsIndexed q → IsIndexed (drain_prefix q count)
  unfolding drain_prefix
  drain_prefix-IsIndexed q count w = record {
    distinct = drop-Distinct count q.operations w.distinct;
    indexed =
        λ k. ap (shift_index count) (w.indexed k) ∙ drop-position count q.operations k w.distinct;
  }
