-- ===== src/Queue/Content.antt =====
-- What a queue holds: for each slot the newest of the operations pushed on it, in the order in which
-- the slots were first pushed.
use prima_db.Prelude.{
  ℕ, zero, suc, ◌≡◌, refl, ap, ◌∙◌, Option, none, some, List, [], ◌∷◌, ◌++◌, get_elem?, set,
  if◌then◌else◌, arith,
}
use prima_db.Ord.{◌≤?◌}
use prima_db.Clock.{revision_ord}
use prima_db.Graph.{Operation}
use prima_db.Queue.{
  OperationCompactionKey, key_eq, from_operation, CompactedOperations, empty, push, push_all,
  from_operations,
}
use prima_db.Queue.Invariant.{
  eq_of_key_eq, key_eq_refl, position, keys_of, IsIndexed, fresh, newer, older, push_cases,
  push-IsIndexed, empty-IsIndexed, Distinct,
}

module _ {J : Type 0} where
  -- The operation on a slot.
  pub held : List (Operation J) → OperationCompactionKey → Option (Operation J)
  held [] k = none
  held (op ∷ ops) k = if key_eq k (from_operation op) then some op else held ops k

  -- A newer operation, or one with the same revision, takes the place of the old one.
  abbrev pub newest : Option (Operation J) → Operation J → Option (Operation J)
  newest none op = some op
  newest (some old) op = if old.revision ≤? op.revision then some op else some old

  -- The newest operation on a slot, in the order of pushing.
  pub newest_on :
      OperationCompactionKey → Option (Operation J) → List (Operation J) → Option (Operation J)
  newest_on k best [] = best
  newest_on k best (op ∷ ops) =
      newest_on k (if key_eq k (from_operation op) then newest best op else best) ops

  held_of_position :
      (ops : List (Operation J)) (k : OperationCompactionKey)
      → position (keys_of ops) k ≡ none
      → held ops k ≡ none
  unfolding held position
  held_of_position [] k h = refl
  held_of_position (op ∷ ops) k h = ground (arith, held_of_position ops k)

  held-append_one :
      (ops : List (Operation J)) (op : Operation J) (k : OperationCompactionKey)
      → position (keys_of ops) (from_operation op) ≡ none
      → held (ops ++ op ∷ []) k ≡ (if key_eq k (from_operation op) then some op else held ops k)
  unfolding held position
  held-append_one [] op k h = refl
  held-append_one (p ∷ ops) op k h = ground (
    arith,
    held-append_one ops op k,
    eq_of_key_eq k (from_operation op),
    eq_of_key_eq k (from_operation p),
    key_eq_refl (from_operation p),
  )

  held_at :
      (ops : List (Operation J)) (i : ℕ) (old : Operation J)
      → Distinct (keys_of ops)
      → position (keys_of ops) (from_operation old) ≡ some i
      → get_elem? ops i ≡ some old
      → held ops (from_operation old) ≡ some old
  unfolding held position
  held_at [] i old d h g = cc
  held_at (p ∷ ops) zero old d h g = ground arith
  held_at (p ∷ ops) (suc i) old d h g = ground (arith, held_at ops i old d.1)

  held-set :
      (ops : List (Operation J)) (i : ℕ) (op old : Operation J) (k : OperationCompactionKey)
      → Distinct (keys_of ops)
      → position (keys_of ops) (from_operation op) ≡ some i
      → get_elem? ops i ≡ some old
      → from_operation op ≡ from_operation old
      → held (set ops i op) k ≡ (if key_eq k (from_operation op) then some op else held ops k)
  unfolding held position
  held-set [] i op old k d h g e = cc
  held-set (p ∷ ops) zero op old k d h g e = ground arith
  held-set (p ∷ ops) (suc i) op old k d h g e = ground (
    arith,
    held-set ops i op old k d.1,
    eq_of_key_eq k (from_operation op),
    eq_of_key_eq k (from_operation p),
    key_eq_refl (from_operation op),
  )

  -- A push on a queue with an exact index replaces the operation on its own slot by the newer of the
  -- two (the pushed one, if the revisions are equal) and leaves every other slot as it was.
  pub held-push :
      (q : CompactedOperations J) (op : Operation J) (k : OperationCompactionKey)
      → IsIndexed q
      → held (push q op).operations k ≡ (
          if key_eq k (from_operation op)
          then newest (held q.operations k) op
          else held q.operations k)
  held-push q op k w =
      let key = from_operation op in
      let there = w.indexed key in
      elim (push_cases q op w) [
        | fresh h e ↦ rw e (
            ground (
              arith,
              held-append_one q.operations op k,
              held_of_position q.operations key,
              eq_of_key_eq k key,
            ))
        | newer i old found at_i on_slot le e ↦ rw e (
            ground (
              arith,
              held-set q.operations i op old k w.distinct,
              held_at q.operations i old w.distinct,
              eq_of_key_eq k key,
            ))
        | older i old found at_i on_slot gt e ↦
            rw e (ground (arith, held_at q.operations i old w.distinct, eq_of_key_eq k key))
      ]

  held-push_all :
      (q : CompactedOperations J) (ops : List (Operation J)) (k : OperationCompactionKey)
      → IsIndexed q
      → held (push_all q ops).operations k ≡ newest_on k (held q.operations k) ops
  unfolding push_all newest_on
  held-push_all q [] k w = refl
  held-push_all q (op ∷ ops) k w =
      held-push_all (push q op) ops k (push-IsIndexed q op w)
      ∙ ap (λ best. newest_on k best ops) (held-push q op k w)

  -- A queue made from any operations holds on each slot the newest of them by revision, the last
  -- pushed among equals, and nothing on a slot that none of them is on.
  pub held-from_operations :
      (ops : List (Operation J)) (k : OperationCompactionKey)
      → held (from_operations ops).operations k ≡ newest_on k none ops
  unfolding from_operations held
  held-from_operations ops k = held-push_all empty ops k empty-IsIndexed

  push_all-IsIndexed :
      (q : CompactedOperations J) (ops : List (Operation J))
      → IsIndexed q
      → IsIndexed (push_all q ops)
  unfolding push_all
  push_all-IsIndexed q [] w = w
  push_all-IsIndexed q (op ∷ ops) w = push_all-IsIndexed (push q op) ops (push-IsIndexed q op w)

  -- A queue made from any operations has no slot twice, and its index is exact.
  pub from_operations-IsIndexed : (ops : List (Operation J)) → IsIndexed (from_operations ops)
  unfolding from_operations
  from_operations-IsIndexed ops = push_all-IsIndexed empty ops empty-IsIndexed
