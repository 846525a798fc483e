-- ===== src/Clock/Version.antt =====
-- `Revision` and `VersionMarker` of clock.rs, with their orders.
use prima_db.Prelude.{ℕ, Ordering, compare, arith}
use prima_db.Ord.{Ord, IsLawful, nat_ord, list_ord, then_with, cmp_list}
use prima_db.Text.{Text}

pub record Revision : Type 0 where
  pub millis : ℕ
  pub counter : ℕ
  pub actor : Text

abbrev text_ord : Ord Text
text_ord = list_ord

unfoldable pub cmp_revision : Revision → Revision → Ordering
cmp_revision a b =
    then_with (then_with (compare a.millis b.millis) (compare a.counter b.counter))
      (cmp_list a.actor b.actor)

pub cmp_revision-IsLawful : IsLawful cmp_revision
unfolding cmp_revision list_ord
cmp_revision-IsLawful = record {
  cmp_refl = λ a. ground (arith, text_ord.cmp_refl a.actor);
  eq_of_cmp = λ a b. ground (arith, text_ord.eq_of_cmp a.actor b.actor);
  cmp_swap = λ a b. ground (arith, text_ord.cmp_swap a.actor b.actor);
  lt_trans = λ a b c. ground (
    arith,
    text_ord.eq_of_cmp a.actor b.actor,
    text_ord.eq_of_cmp b.actor c.actor,
    text_ord.lt_trans a.actor b.actor c.actor,
  );
}

instance unfoldable pub revision_ord : Ord Revision
revision_ord = record { cmp = cmp_revision; lawful = cmp_revision-IsLawful }

pub record VersionMarker : Type 0 where
  pub revision : Revision
  pub op_id : Text

abbrev revision_laws : Ord Revision
revision_laws = revision_ord

unfoldable pub cmp_marker : VersionMarker → VersionMarker → Ordering
cmp_marker a b = then_with (cmp_revision a.revision b.revision) (cmp_list a.op_id b.op_id)

pub cmp_marker-IsLawful : IsLawful cmp_marker
unfolding cmp_marker list_ord revision_ord
cmp_marker-IsLawful = record {
  cmp_refl = λ a. simp (revision_laws.cmp_refl, text_ord.cmp_refl);
  eq_of_cmp = λ a b.
      ground
        (arith, revision_laws.eq_of_cmp a.revision b.revision, text_ord.eq_of_cmp a.op_id b.op_id);
  cmp_swap = λ a b.
      ground
        (arith, revision_laws.cmp_swap a.revision b.revision, text_ord.cmp_swap a.op_id b.op_id);
  lt_trans = λ a b c. ground (
    arith,
    revision_laws.eq_of_cmp a.revision b.revision,
    revision_laws.eq_of_cmp b.revision c.revision,
    revision_laws.lt_trans a.revision b.revision c.revision,
    text_ord.lt_trans a.op_id b.op_id c.op_id,
  );
}

instance unfoldable pub marker_ord : Ord VersionMarker
marker_ord = record { cmp = cmp_marker; lawful = cmp_marker-IsLawful }
