-- ===== src/Replica/Remote.antt =====
-- Operations from other replicas: `apply_operations` on the graph, and what a second delivery does.
use prima_db.Prelude.{
  ◌≡◌, refl, ap, ap₂, subst, sym, not, ◌∙◌, inl, inr, Bool, true, false, Bool-cases, Option, none,
  List, [], ◌∷◌, All, if◌then◌else◌,
}
use prima_db.Text.{Text}
use prima_db.Ord.{list_ord, nat_ord}
use prima_db.Map.{Map}
use prima_db.Clock.{observe}
use prima_db.Clock.Order.{observe_idem}
use prima_db.Graph.{NodeId, NodeState, Operation, source_node}
use prima_db.Graph.Apply.{apply_to_nodes}
use prima_db.Graph.Redelivery.{apply_to_nodes_again}
use prima_db.Graph.Delivery.{deliver, Fits}
use prima_db.Graph.Convergence.{Contains, IsKnown, deliver_all, deliver_all_converges}
use prima_db.Scope.{ScopePolicy, author_allowed}
use prima_db.Replica.Journal.{TransactionJournal, journal_node}
use prima_db.Replica.{
  while_running, Inner, OperationOrigin, from_remote, remote_operation_allowed, touched_path,
  apply_to_graph, enqueue, push_unflushed, apply_operation_internal, apply_operations,
}

module _ {J : Type 0} where
  -- The operations whose authors may write where they write, by the policies.
  unfoldable pub permitted : Map Text ScopePolicy → List (Operation J) → List (Operation J)
  permitted policies [] = []
  permitted policies (op ∷ ops) =
      let rest = permitted policies ops in
      if author_allowed policies (touched_path op.action) op.author then op ∷ rest else rest

  -- What becomes of an operation that is not refused at once.
  abbrev taken : Inner J → Operation J → OperationOrigin → Inner J × Bool
  taken inner op origin =
      let (changed, accepted) = apply_to_graph inner op in
      if accepted then (enqueue op origin changed, true) else (changed, false)

  remote_permitted :
      (inner : Inner J) (op : Operation J)
      → remote_operation_allowed inner op ≡ true
      → apply_operation_internal inner op from_remote ≡ taken inner op from_remote
  unfolding apply_operation_internal
  remote_permitted inner op h =
      ap (λ allowed. if not allowed then (inner, false) else taken inner op from_remote) h

  pub remote_refused :
      (inner : Inner J) (op : Operation J)
      → remote_operation_allowed inner op ≡ false
      → apply_operation_internal inner op from_remote ≡ (inner, false)
  unfolding apply_operation_internal
  remote_refused inner op h =
      ap (λ allowed. if not allowed then (inner, false) else taken inner op from_remote) h

  -- One remote operation on the graph and the policies.
  abbrev Leaves : Map NodeId (NodeState J) → Map Text ScopePolicy → Inner J × Bool → Type 0
  Leaves nodes policies end = (end.0.nodes ≡ nodes) × (end.0.scope_policies ≡ policies)

  either_end :
      (P : Inner J × Bool → Type 0) (accepted : Bool) (t u : Inner J)
      → P (t, true)
      → P (u, false)
      → P (if accepted then (t, true) else (u, false))
  either_end P true t u pt pu = pt
  either_end P false t u pt pu = pu

  taken-Leaves :
      (inner : Inner J) (op : Operation J)
      → Leaves (deliver inner.nodes op) inner.scope_policies (taken inner op from_remote)
  unfolding apply_to_graph enqueue push_unflushed
  taken-Leaves inner op =
      let changed = apply_to_graph inner op in
      either_end (Leaves (deliver inner.nodes op) inner.scope_policies) changed.1
        (enqueue op from_remote changed.0) changed.0 (refl, refl) (refl, refl)

  -- `apply_operations` delivers to the graph exactly the operations that the policies permit to
  -- their authors, in their order.
  pub nodes-apply_operations :
      (inner : Inner J) (ops : List (Operation J))
      → (apply_operations inner ops).0.nodes
        ≡ deliver_all inner.nodes (permitted inner.scope_policies ops)
  unfolding apply_operations permitted remote_operation_allowed deliver_all
  nodes-apply_operations inner [] = refl
  nodes-apply_operations inner (op ∷ ops) =
      let next = apply_operation_internal inner op from_remote in
      let rest = nodes-apply_operations next.0 ops in
      elim (Bool-cases (remote_operation_allowed inner op)) [
        | inl allowed ↦
            let e = remote_permitted inner op allowed in
            let (nodes, policies) = taken-Leaves inner op in
            rest
            ∙ ap₂ (λ n p. deliver_all n (permitted p ops)) (ap (λ r. r.0.nodes) e ∙ nodes)
                (ap (λ r. r.0.scope_policies) e ∙ policies)
            ∙ sym (
                ap
                  (λ b. deliver_all inner.nodes (
                    if b
                    then op ∷ permitted inner.scope_policies ops
                    else permitted inner.scope_policies ops))
                  allowed)
        | inr refused ↦
            let e = remote_refused inner op refused in
            rest
            ∙ ap (λ r. deliver_all r.0.nodes (permitted r.0.scope_policies ops)) e
            ∙ sym (
                ap
                  (λ b. deliver_all inner.nodes (
                    if b
                    then op ∷ permitted inner.scope_policies ops
                    else permitted inner.scope_policies ops))
                  refused)
      ]

  -- The author of an operation may write where it writes.
  abbrev IsPermitted : Map Text ScopePolicy → Operation J → Type 0
  IsPermitted policies p = author_allowed policies (touched_path p.action) p.author ≡ true

  Contains-permitted :
      (policies : Map Text ScopePolicy) (ops : List (Operation J)) (p : Operation J)
      → Contains ops p
      → IsPermitted policies p
      → Contains (permitted policies ops) p
  unfolding permitted
  Contains-permitted policies [] p c a = c
  Contains-permitted policies (op ∷ ops) p (inl e) a =
      let at_op = subst (IsPermitted policies) e a in rw at_op (inl e)
  Contains-permitted policies (op ∷ ops) p (inr c) a =
      let rest = Contains-permitted policies ops p c a in
      elim (Bool-cases (author_allowed policies (touched_path op.action) op.author)) [
        | inl allowed ↦ rw allowed (inr rest)
        | inr refused ↦ rw refused rest
      ]

  All-permitted :
      (policies : Map Text ScopePolicy) (P Q : Operation J → Type 0) (ops : List (Operation J))
      → ((p : Operation J) → P p → IsPermitted policies p → Q p)
      → All P ops
      → All Q (permitted policies ops)
  unfolding permitted
  All-permitted policies P Q [] f a = tt
  All-permitted policies P Q (op ∷ ops) f a =
      let rest = All-permitted policies P Q ops f a.1 in
      elim (Bool-cases (author_allowed policies (touched_path op.action) op.author)) [
        | inl allowed ↦ let here = f op a.0 allowed in rw allowed (here, rest)
        | inr refused ↦ rw refused rest
      ]

  -- Two replicas with the same graph and the same policies receive the same operations, in any
  -- order and each any number of times. Then their graphs are the same, also where the policies
  -- refuse some of the operations, if the operations keep to a schema that the graph fits, none of
  -- them has the zero marker, and a marker names one operation. The schema says of each field that
  -- it receives only additions and removals of members (and then it holds a set or nothing), or
  -- only assignments and deletions: a set that is assigned or deleted as well is not covered.
  pub replicas_converge :
      (sets : NodeId → Text → Bool) (Known : Operation J → Type 0) (known : IsKnown sets Known)
      (r s : Inner J) (xs ys : List (Operation J))
      → r.nodes ≡ s.nodes
      → r.scope_policies ≡ s.scope_policies
      → Fits sets r.nodes
      → All Known xs
      → All Known ys
      → All (Contains ys) xs
      → All (Contains xs) ys
      → (apply_operations r xs).0.nodes ≡ (apply_operations s ys).0.nodes
  replicas_converge sets Known known r s xs ys same_nodes same_policies fit kx ky cx cy =
      let ps = r.scope_policies in
      let keep = All-permitted ps Known Known in
      let among = λ (l k : List (Operation J)).
        All-permitted ps (Contains l) (Contains (permitted ps l)) k (Contains-permitted ps l) in
      nodes-apply_operations r xs
      ∙ deliver_all_converges sets Known known r.nodes (permitted ps xs) (permitted ps ys) fit
          (keep xs (λ p k a. k) kx) (keep ys (λ p k a. k) ky) (among ys xs cx) (among xs ys cy)
      ∙ ap₂ (λ n p. deliver_all n (permitted p ys)) same_nodes same_policies
      ∙ sym (nodes-apply_operations s ys)

  -- What holds of a replica that has taken `op`.
  record Settled (op : Operation J) (t : Inner J) : Type 0 where
    clock : observe t.clock op.revision ≡ t.clock
    nodes : apply_to_nodes t.nodes op ≡ (t.nodes, false)
    off : t.journal ≡ none
    allowed : remote_operation_allowed t op ≡ true

  taken-Settled :
      (inner : Inner J) (op : Operation J)
      → inner.journal ≡ none
      → remote_operation_allowed inner op ≡ true
      → Settled op (taken inner op from_remote).0
  unfolding apply_to_graph enqueue push_unflushed remote_operation_allowed
  taken-Settled inner op off allowed =
      let changed = apply_to_graph inner op in
      either_end (λ end. Settled op end.0) changed.1 (enqueue op from_remote changed.0) changed.0
        (record {
          clock = observe_idem inner.clock op.revision;
          nodes = apply_to_nodes_again inner.nodes op;
          off = rw off refl;
          allowed = allowed;
        })
        (record {
          clock = observe_idem inner.clock op.revision;
          nodes = apply_to_nodes_again inner.nodes op;
          off = rw off refl;
          allowed = allowed;
        })

  while_running_off :
      (note : TransactionJournal J → TransactionJournal J) (journal : Option (TransactionJournal J))
      → journal ≡ none
      → while_running note journal ≡ journal
  while_running_off note journal off = rw off refl

  apply_to_graph-Settled :
      (t : Inner J) (op : Operation J) → Settled op t → apply_to_graph t op ≡ (t, false)
  unfolding apply_to_graph
  apply_to_graph-Settled t op w =
      let note = λ (j : TransactionJournal J). record j {
        nodes = journal_node t.nodes j.nodes (source_node op.action);
      } in
      λ i. (
        record t {
          clock = w.clock i;
          nodes = (w.nodes i).0;
          journal = while_running_off note t.journal w.off i;
        },
        (w.nodes i).1,
      )

  Settled-refused :
      (t : Inner J) (op : Operation J)
      → Settled op t
      → apply_operation_internal t op from_remote ≡ (t, false)
  Settled-refused t op w =
      remote_permitted t op w.allowed
      ∙ ap (λ r. if r.1 then (enqueue op from_remote r.0, true) else (r.0, false))
          (apply_to_graph-Settled t op w)

  -- Outside a transaction, a remote operation that arrives again right after it has arrived, with
  -- nothing between, changes nothing at all (the clock, the graph, the queues) and is refused,
  -- whether or not the first was accepted.
  pub apply_operation_internal_again :
      (inner : Inner J) (op : Operation J)
      → inner.journal ≡ none
      → let once = (apply_operation_internal inner op from_remote).0 in
        apply_operation_internal once op from_remote ≡ (once, false)
  apply_operation_internal_again inner op off =
      let once = (apply_operation_internal inner op from_remote).0 in
      elim (Bool-cases (remote_operation_allowed inner op)) [
        | inl allowed ↦
            let e = ap (λ r. r.0) (remote_permitted inner op allowed) in
            Settled-refused once op
              (subst (Settled op) (sym e) (taken-Settled inner op off allowed))
        | inr refused ↦
            let e = ap (λ r. r.0) (remote_refused inner op refused) in
            subst (λ t. apply_operation_internal t op from_remote ≡ (t, false)) (sym e)
              (remote_refused inner op refused)
      ]
