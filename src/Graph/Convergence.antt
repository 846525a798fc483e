-- ===== src/Graph/Convergence.antt =====
-- Replicas that receive the same operations, in any order and however often, hold the same graph.
use prima_db.Prelude.{◌≡◌, refl, ap, sym, ◌∙◌, ◌⊎◌, inl, inr, Bool, List, [], ◌∷◌, All}
use prima_db.Text.{Text}
use prima_db.Ord.{list_ord, nat_ord, eq_or_ne}
use prima_db.Map.{Map}
use prima_db.Clock.{marker_ord}
use prima_db.Graph.{NodeId, NodeState, Operation, marker_of}
use prima_db.Graph.Redelivery.{apply_to_nodes_again}
use prima_db.Graph.Delivery.{deliver, Conforms, Fits, deliver_comm, deliver-Fits}

module _ {J : Type 0} where
  abbrev pub Contains : List (Operation J) → Operation J → Type 0
  Contains [] p = ⊥
  Contains (q ∷ ops) p = (p ≡ q) ⊎ Contains ops p

  unfoldable pub deliver_all :
      Map NodeId (NodeState J) → List (Operation J) → Map NodeId (NodeState J)
  deliver_all nodes [] = nodes
  deliver_all nodes (op ∷ ops) = deliver_all (deliver nodes op) ops

  -- Operations that keep to a schema, where a marker names one operation.
  pub record IsKnown (sets : NodeId → Text → Bool) (Known : Operation J → Type 0) : Type 0 where
    pub conforms : (p : Operation J) → Known p → Conforms sets p
    pub unique : (p q : Operation J) → Known p → Known q → marker_of p ≡ marker_of q → p ≡ q

  module _ (sets : NodeId → Text → Bool) (Known : Operation J → Type 0)
      (known : IsKnown sets Known) where
    two_comm :
        (nodes : Map NodeId (NodeState J)) (p q : Operation J)
        → Fits sets nodes
        → Known p
        → Known q
        → deliver (deliver nodes p) q ≡ deliver (deliver nodes q) p
    two_comm nodes p q fit kp kq = elim (eq_or_ne (marker_of p) (marker_of q)) [
      | inl e ↦ let same = known.unique p q kp kq e in cc
      | inr d ↦ deliver_comm sets nodes p q fit (known.conforms p kp) (known.conforms q kq) d
    ]

    keeps_fit :
        (nodes : Map NodeId (NodeState J)) (p : Operation J)
        → Fits sets nodes
        → Known p
        → Fits sets (deliver nodes p)
    keeps_fit nodes p fit kp = deliver-Fits sets nodes p fit (known.conforms p kp)

    deliver_all-Fits :
        (nodes : Map NodeId (NodeState J)) (ops : List (Operation J))
        → Fits sets nodes
        → All Known ops
        → Fits sets (deliver_all nodes ops)
    unfolding deliver_all
    deliver_all-Fits nodes [] fit k = fit
    deliver_all-Fits nodes (op ∷ ops) fit k =
        deliver_all-Fits (deliver nodes op) ops (keeps_fit nodes op fit k.0) k.1

    -- An operation may come first or last.
    last_is_first :
        (nodes : Map NodeId (NodeState J)) (ops : List (Operation J)) (p : Operation J)
        → Fits sets nodes
        → All Known ops
        → Known p
        → deliver (deliver_all nodes ops) p ≡ deliver_all (deliver nodes p) ops
    unfolding deliver_all
    last_is_first nodes [] p fit k kp = refl
    last_is_first nodes (op ∷ ops) p fit k kp =
        last_is_first (deliver nodes op) ops p (keeps_fit nodes op fit k.0) k.1 kp
        ∙ ap (λ n. deliver_all n ops) (two_comm nodes op p fit k.0 kp)

    -- An operation that has been delivered changes nothing any more, whatever came after it.
    absorbed :
        (nodes : Map NodeId (NodeState J)) (ops : List (Operation J)) (p : Operation J)
        → Fits sets nodes
        → All Known ops
        → Contains ops p
        → deliver (deliver_all nodes ops) p ≡ deliver_all nodes ops
    unfolding deliver_all
    absorbed nodes [] p fit k c = absurd c
    absorbed nodes (op ∷ ops) p fit k (inl e) =
        ap (deliver (deliver_all (deliver nodes op) ops)) e
        ∙ last_is_first (deliver nodes op) ops op (keeps_fit nodes op fit k.0) k.1 k.0
        ∙ ap (λ r. deliver_all r.0 ops) (apply_to_nodes_again nodes op)
    absorbed nodes (op ∷ ops) p fit k (inr c) =
        absorbed (deliver nodes op) ops p (keeps_fit nodes op fit k.0) k.1 c

    batch_absorbed :
        (nodes : Map NodeId (NodeState J)) (ops again : List (Operation J))
        → Fits sets nodes
        → All Known ops
        → All (Contains ops) again
        → deliver_all (deliver_all nodes ops) again ≡ deliver_all nodes ops
    unfolding deliver_all
    batch_absorbed nodes ops [] fit k c = refl
    batch_absorbed nodes ops (p ∷ again) fit k c =
        ap (λ n. deliver_all n again) (absorbed nodes ops p fit k c.0)
        ∙ batch_absorbed nodes ops again fit k c.1

    batches_comm :
        (nodes : Map NodeId (NodeState J)) (xs ys : List (Operation J))
        → Fits sets nodes
        → All Known xs
        → All Known ys
        → deliver_all (deliver_all nodes xs) ys ≡ deliver_all (deliver_all nodes ys) xs
    unfolding deliver_all
    batches_comm nodes xs [] fit kx ky = refl
    batches_comm nodes xs (y ∷ ys) fit kx ky =
        ap (λ n. deliver_all n ys) (last_is_first nodes xs y fit kx ky.0)
        ∙ batches_comm (deliver nodes y) xs ys (keeps_fit nodes y fit ky.0) kx ky.1

    -- Operations that keep to a schema, of which none has the zero marker, and where a marker names
    -- one operation, are delivered to a graph that fits the schema: two sequences with the same
    -- operations, in any order and each any number of times, give the same graph. The schema says of
    -- each field that it receives only additions and removals of members (and then it holds a set or
    -- nothing), or only assignments and deletions: a set that is assigned or deleted as well is not
    -- covered.
    pub deliver_all_converges :
        (nodes : Map NodeId (NodeState J)) (xs ys : List (Operation J))
        → Fits sets nodes
        → All Known xs
        → All Known ys
        → All (Contains ys) xs
        → All (Contains xs) ys
        → deliver_all nodes xs ≡ deliver_all nodes ys
    deliver_all_converges nodes xs ys fit kx ky cx cy =
        sym (batch_absorbed nodes xs ys fit kx cy)
        ∙ batches_comm nodes xs ys fit kx ky
        ∙ batch_absorbed nodes ys xs fit ky cx
