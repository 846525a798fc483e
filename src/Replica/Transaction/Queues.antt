-- ===== src/Replica/Transaction/Queues.antt =====
-- A queue can be put back as it was, from what a transaction's journal remembers of it.
use prima_db.Prelude.{
  ℕ, ◌<◌, ◌≤◌, ◌≡◌, refl, ap, sym, ◌∙◌, fun_ext, inl, inr, Option, Option-cases, none, some, List,
  [], ◌∷◌, get_elem?, get_elem?-set_self, get_elem?-set_ne, get_elem?-append_left, get_elem?-take,
  list_ext, set, take, length, length-take, length-set, length-append, ltb, if◌then◌else◌, arith,
}
use prima_db.Ord.{Ord, list_ord, nat_ord, eq_or_ne}
use prima_db.Map
use prima_db.Map.{Map, IsSorted}
use prima_db.Map.Entries.{get_in, get_in-Above}
use prima_db.Map.Laws.{get-insert_self, get-insert_ne, get-empty}
use prima_db.Graph.{Operation}
use prima_db.Queue.{from_operation, CompactedOperations, push, len, rebuild_indices}
use prima_db.Queue.Invariant.{
  IsIndexed, position, keys_of, fresh, newer, older, push_cases, push-IsIndexed,
  rebuild_indices-IsIndexed,
}
use prima_db.Replica.Journal.{
  OperationQueueUndo, new_undo, remember, journal_operation, put_back, restore_queue,
}

abbrev numbers : Ord ℕ
numbers = nat_ord

module _ {J : Type 0} where
  -- The item at `i` that undoing gives.
  abbrev pub undone : Option (Operation J) → Option (Operation J) → Option (Operation J)
  undone none now = now
  undone (some old) now = some old

  pub record QueueUndoable (q₀ q : CompactedOperations J) (u : OperationQueueUndo J) : Type 0 where
    pub start_indexed : IsIndexed q₀
    pub now_indexed : IsIndexed q
    pub initial : u.initial_len ≡ len q₀
    pub grown : len q₀ ≤ len q
    pub items :
        (i : ℕ)
        → i < len q₀
        → undone (Map.get u.replaced i) (get_elem? q.operations i) ≡ get_elem? q₀.operations i

  pub new_undo-QueueUndoable :
      (q : CompactedOperations J) → IsIndexed q → QueueUndoable q q (new_undo (len q))
  new_undo-QueueUndoable q w = record {
    start_indexed = w;
    now_indexed = w;
    initial = refl;
    grown = omega arith;
    items = λ i h. rw (get-empty {K = ℕ} {V = Operation J} i);
  }

  -- Remembering an item does not change what undoing gives, as long as the item is in place.
  undone-remember :
      (u : OperationQueueUndo J) (index : ℕ) (old : Operation J) (i : ℕ)
      (now : Option (Operation J))
      → (i ≡ index → now ≡ some old)
      → undone (Map.get (remember index (some old) u).replaced i) now
        ≡ undone (Map.get u.replaced i) now
  unfolding remember
  undone-remember u index old i now h = elim (eq_or_ne i index) [
    | inl same ↦ let here = h same in ground (arith, get-insert_self u.replaced index old)
    | inr different ↦ ground (arith, get-insert_ne u.replaced index old i different)
  ]

  -- Nor does replacing an item that is remembered.
  replace_undone :
      (u : OperationQueueUndo J) (ops : List (Operation J)) (index : ℕ) (op old : Operation J)
      (i : ℕ)
      → get_elem? ops index ≡ some old
      → undone (Map.get (remember index (some old) u).replaced i) (get_elem? (set ops index op) i)
        ≡ undone (Map.get u.replaced i) (get_elem? ops i)
  unfolding remember
  replace_undone u ops index op old i at_i = elim (eq_or_ne i index) [
    | inl same ↦ rw same (elim (Option-cases (Map.get u.replaced index)) [
      | inl new ↦ rw (new, get-insert_self u.replaced index old) (sym at_i)
      | inr (o, known) ↦ rw (known, known)
    ])
    | inr different ↦
        rw (get_elem?-set_ne ops index i op different)
          (undone-remember u index old i (get_elem? ops i) (λ same. absurd (different same)))
  ]

  initial-remember :
      (u : OperationQueueUndo J) (index : ℕ) (old : Option (Operation J))
      → (remember index old u).initial_len ≡ u.initial_len
  unfolding remember
  initial-remember u index none = refl
  initial-remember u index (some old) = ground arith

  journal_absent :
      (q : CompactedOperations J) (u : OperationQueueUndo J) (op : Operation J)
      → q.indices (from_operation op) ≡ none
      → journal_operation q u op ≡ u
  unfolding journal_operation
  journal_absent q u op h = rw (h, journal_operation)

  journal_found :
      (q : CompactedOperations J) (u : OperationQueueUndo J) (op old : Operation J) (i : ℕ)
      → q.indices (from_operation op) ≡ some i
      → get_elem? q.operations i ≡ some old
      → journal_operation q u op ≡ remember i (some old) u
  unfolding journal_operation
  journal_found q u op old i h g = rw (h, journal_operation) (ap (λ o. remember i o u) g)

  -- A push that the journal has noted can be undone.
  pub push-QueueUndoable :
      (q₀ q : CompactedOperations J) (u : OperationQueueUndo J) (op : Operation J)
      → QueueUndoable q₀ q u
      → QueueUndoable q₀ (push q op) (journal_operation q u op)
  push-QueueUndoable q₀ q u op w =
      let indexed = push-IsIndexed q op w.now_indexed in
      elim (push_cases q op w.now_indexed) [
        | fresh h e ↦ record {
          start_indexed = w.start_indexed;
          now_indexed = indexed;
          initial = rw (journal_absent q u op h) w.initial;
          grown = rw e (omega (arith, w.grown, length-append q.operations (op ∷ [])));
          items = λ i l.
              rw
                (
                  e,
                  journal_absent q u op h,
                  get_elem?-append_left q.operations (op ∷ []) i (omega (arith, w.grown)),
                )
                (w.items i l);
        }
        | newer index old found at_i on_slot le e ↦ record {
          start_indexed = w.start_indexed;
          now_indexed = indexed;
          initial =
              rw (journal_found q u op old index found at_i)
                (initial-remember u index (some old) ∙ w.initial);
          grown = rw e (omega (arith, w.grown, length-set q.operations index op));
          items = λ i l.
              rw (e, journal_found q u op old index found at_i)
                (replace_undone u q.operations index op old i at_i ∙ w.items i l);
        }
        | older index old found at_i on_slot gt e ↦ record {
          start_indexed = w.start_indexed;
          now_indexed = indexed;
          initial =
              rw (journal_found q u op old index found at_i)
                (initial-remember u index (some old) ∙ w.initial);
          grown = rw e w.grown;
          items = λ i l.
              rw (e, journal_found q u op old index found at_i)
                (undone-remember u index old i (get_elem? q.operations i)
                    (λ same. ap (get_elem? q.operations) same ∙ at_i)
                  ∙ w.items i l);
        }
      ]

  length-put_back :
      (entries : List (ℕ × Operation J)) (ops : List (Operation J))
      → length (put_back entries ops) ≡ length ops
  unfolding put_back
  length-put_back [] ops = refl
  length-put_back ((i, op) ∷ entries) ops =
      length-put_back entries (if ltb i (length ops) then set ops i op else ops)
      ∙ ground (arith, length-set ops i op)

  get_elem?-put_back :
      (entries : List (ℕ × Operation J)) (ops : List (Operation J)) (i : ℕ)
      → IsSorted entries
      → i < length ops
      → get_elem? (put_back entries ops) i ≡ undone (get_in entries i) (get_elem? ops i)
  unfolding put_back get_in
  get_elem?-put_back [] ops i s h = refl
  get_elem?-put_back ((j, op) ∷ entries) ops i s h =
      let placed = if ltb j (length ops) then set ops j op else ops in
      get_elem?-put_back entries placed i s.1 (ground (arith, length-set ops j op))
      ∙ elim (eq_or_ne i j) [
        | inl same ↦ ground (
          arith,
          same,
          get_in-Above j entries s.0,
          numbers.cmp_refl j,
          get_elem?-set_self ops j op,
        )
        | inr different ↦
            ground (arith, numbers.eq_of_cmp i j, get_elem?-set_ne ops j i op different)
      ]

  queue_ext :
      (q q' : CompactedOperations J)
      → IsIndexed q
      → IsIndexed q'
      → q.operations ≡ q'.operations
      → q ≡ q'
  queue_ext q q' w w' e =
      let same =
        fun_ext λ k. w.indexed k ∙ ap (λ ops. position (keys_of ops) k) e ∙ sym (w'.indexed k) in
      λ i. record { operations = e i; indices = same i }

  restored_operations :
      (q₀ q : CompactedOperations J) (u : OperationQueueUndo J)
      → QueueUndoable q₀ q u
      → put_back u.replaced.entries (take u.initial_len q.operations) ≡ q₀.operations
  unfolding Map.get
  restored_operations q₀ q u w =
      let kept = take u.initial_len q.operations in
      let long : length kept ≡ len q₀ =
        omega (arith, length-take u.initial_len q.operations, w.grown, w.initial) in
      list_ext (put_back u.replaced.entries kept) q₀.operations
        (length-put_back u.replaced.entries kept ∙ long)
        λ i l.
          let within : i < len q₀ = omega (arith, length-put_back u.replaced.entries kept) in
          get_elem?-put_back u.replaced.entries kept i u.replaced.sorted (omega arith)
          ∙ ap (undone (get_in u.replaced.entries i))
              (get_elem?-take u.initial_len q.operations i (omega (arith, w.initial)))
          ∙ w.items i within

  -- Where the undo record of a queue remembers what a transaction replaced in it, restoring the
  -- queue gives the queue that the transaction began with, its index included.
  pub restore_queue-QueueUndoable :
      (q₀ q : CompactedOperations J) (u : OperationQueueUndo J)
      → QueueUndoable q₀ q u
      → restore_queue u q ≡ q₀
  unfolding restore_queue
  restore_queue-QueueUndoable q₀ q u w =
      let ops = restored_operations q₀ q u w in
      let back : CompactedOperations J = record q {
        operations = put_back u.replaced.entries (take u.initial_len q.operations);
      } in
      queue_ext (rebuild_indices back) q₀
        (rebuild_indices-IsIndexed back (rw ops w.start_indexed.distinct)) w.start_indexed ops
