-- ===== src/Tests/Data.antt =====
-- Data that the tests share: two replicas, three operations and a queue. Scalars are numbers.
use prima_db.Prelude.{ℕ, List, [], ◌∷◌}
use prima_db.Text.{Text, bytes}
use prima_db.Clock.{Revision, HybridClock}
use prima_db.Graph.{OperationValue, Operation}
use prima_db.Graph.OperationAction.{set_field, add_set_member, remove_set_member, delete_field}

abbrev pub alice : Text
alice = bytes "alice"

abbrev pub bob : Text
bob = bytes "bob"

abbrev pub alice_clock : HybridClock
alice_clock = record { actor = alice; last_millis = 100; counter = 2; sequence = 6 }

abbrev pub at : ℕ → ℕ → Text → Revision
at millis counter actor = record { millis = millis; counter = counter; actor = actor }

abbrev pub doc : Text
doc = bytes "docs/1"

abbrev pub title : Text
title = bytes "title"

abbrev pub tags : Text
tags = bytes "tags"

abbrev pub titled : Operation ℕ
titled = record {
  op_id = bytes "o1";
  author = alice;
  revision = at 100 0 alice;
  action = set_field doc title (OperationValue.scalar 7);
}

abbrev pub untitled : Operation ℕ
untitled = record {
  op_id = bytes "o2";
  author = bob;
  revision = at 105 0 bob;
  action = delete_field doc title;
}

abbrev pub tagged : Operation ℕ
tagged = record {
  op_id = bytes "o3";
  author = bob;
  revision = at 101 3 bob;
  action = add_set_member doc tags (bytes "tag/x");
}

abbrev pub untagged : Operation ℕ
untagged = record {
  op_id = bytes "o4";
  author = alice;
  revision = at 102 0 alice;
  action = remove_set_member doc tags (bytes "tag/x");
}

abbrev pub all_four : List (Operation ℕ)
all_four = titled ∷ tagged ∷ untitled ∷ untagged ∷ []
