-- ===== src/Tests/Graphs.antt =====
-- The graph's theorems at concrete inputs.
use prima_db.Prelude.{
  ℕ, ◌≡◌, refl, ap, sym, ◌∙◌, ◌<◌, ◌==◌, if◌then◌else◌, inl, inr, Bool, true, false, [], ◌∷◌, arith,
}
use prima_db.Text.{Text}
use prima_db.Ord.{list_ord, nat_ord, ◌=?◌}
use prima_db.Map
use prima_db.Map.{Map}
use prima_db.Map.Laws.{get-empty}
use prima_db.Graph.{NodeId, NodeState, Operation, marker_of, zero_marker, new_node}
use prima_db.Graph.Apply.{apply_to_nodes}
use prima_db.Graph.Cells.{cell}
use prima_db.Graph.Schema.{FitsKind}
use prima_db.Graph.Redelivery.{apply_to_nodes_again}
use prima_db.Graph.Delivery.{Conforms, Fits}
use prima_db.Graph.Convergence.{Contains, IsKnown, deliver_all, deliver_all_converges}
use prima_db.Tests.Data.{tags, titled, tagged, untitled, untagged, all_four}

abbrev pub no_nodes : Map NodeId (NodeState ℕ)
no_nodes = Map.empty

apply_to_nodes_again_example :
    apply_to_nodes (apply_to_nodes no_nodes tagged).0 tagged
    ≡ ((apply_to_nodes no_nodes tagged).0, false)
apply_to_nodes_again_example = apply_to_nodes_again no_nodes tagged

-- The schema of the data: the field `tags` holds a set.
abbrev pub sets : NodeId → Text → Bool
sets id f = f =? tags

abbrev pub Known : Operation ℕ → Type 0
Known = Contains all_four

later_than_zero : (p : Operation ℕ) → marker_of p ≡ zero_marker → 0 < p.revision.millis → ⊥
later_than_zero p h l = let same = ap (λ m. m.revision.millis) h in omega arith

known-Conforms : (p : Operation ℕ) → Known p → Conforms sets p
unfolding list_ord nat_ord
known-Conforms p (inl e) =
    rw e (record { kind = refl; stamped = λ h. later_than_zero titled h (omega arith) })
known-Conforms p (inr (inl e)) =
    rw e (record { kind = refl; stamped = λ h. later_than_zero tagged h (omega arith) })
known-Conforms p (inr (inr (inl e))) =
    rw e (record { kind = refl; stamped = λ h. later_than_zero untitled h (omega arith) })
known-Conforms p (inr (inr (inr (inl e)))) =
    rw e (record { kind = refl; stamped = λ h. later_than_zero untagged h (omega arith) })
known-Conforms p (inr (inr (inr (inr e)))) = absurd e

-- The time of an operation of the data names it.
abbrev named : ℕ → Operation ℕ
named millis =
    if millis == 100
    then titled
    else if millis == 101
    then tagged
    else if millis == 105
    then untitled
    else untagged

known_by_name : (p : Operation ℕ) → Known p → named p.revision.millis ≡ p
known_by_name p (inl e) = rw e refl
known_by_name p (inr (inl e)) = rw e refl
known_by_name p (inr (inr (inl e))) = rw e refl
known_by_name p (inr (inr (inr (inl e)))) = rw e refl
known_by_name p (inr (inr (inr (inr e)))) = absurd e

pub known : IsKnown sets Known
known = record {
  conforms = known-Conforms;
  unique = λ p q kp kq same.
      sym (known_by_name p kp) ∙ ap (λ m. named m.revision.millis) same ∙ known_by_name q kq;
}

fits_kind : (b : Bool) (id : NodeId) (f : Text) → FitsKind b (cell (new_node {J = ℕ} id) f)
fits_kind true id f = rw (get-empty {K = Text} f) tt
fits_kind false id f = tt

pub no_nodes-Fits : Fits sets no_nodes
no_nodes-Fits = record {
  at_field = λ id f. rw (get-empty {K = NodeId} {V = NodeState ℕ} id) (fits_kind (sets id f) id f);
}

deliver_all_converges_example :
    deliver_all no_nodes (titled ∷ tagged ∷ untitled ∷ untagged ∷ [])
    ≡ deliver_all no_nodes (untagged ∷ untitled ∷ titled ∷ tagged ∷ untitled ∷ [])
deliver_all_converges_example =
    deliver_all_converges sets Known known no_nodes (titled ∷ tagged ∷ untitled ∷ untagged ∷ [])
      (untagged ∷ untitled ∷ titled ∷ tagged ∷ untitled ∷ []) no_nodes-Fits
      (inl refl, (inr (inl refl), (inr (inr (inl refl)), (inr (inr (inr (inl refl))), tt))))
      (
        inr (inr (inr (inl refl))),
        (inr (inr (inl refl)), (inl refl, (inr (inl refl), (inr (inr (inl refl)), tt)))),
      )
      (inr (inr (inl refl)), (inr (inr (inr (inl refl))), (inr (inl refl), (inl refl, tt))))
      (
        inr (inr (inr (inl refl))),
        (inr (inr (inl refl)), (inl refl, (inr (inl refl), (inr (inr (inl refl)), tt)))),
      )
