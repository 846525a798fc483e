-- ===== src/Tests/Routers.antt =====
-- The router's theorems at concrete inputs. The contents are numbers, and the hash is a constant.
use prima_db.Prelude.{
  ℕ, ◌+◌, ◌≡◌, refl, true, Option, none, some, [], ◌∷◌, any, length, unwrap_or, arith,
}
use prima_db.Text.{Text, bytes}
use prima_db.Ord.{list_ord, nat_ord, ◌=?◌}
use prima_db.Map
use prima_db.Router.{
  Contents, RouteTarget, RoutePayload, RouteEnvelope, RouterInner, new_config, new_router,
}
use prima_db.Router.Envelopes.{wrap_payload}
use prima_db.Router.Accept.{is_duplicate, forward_of, duplicate_decision, accept}
use prima_db.Router.Loops.{Route, made, sent_on, ttl-Route, accept-Route}
use prima_db.Router.Cache.{IsBounded, accept-IsBounded}
use prima_db.Tests.Data.{alice, bob}

abbrev pub contents : Contents
contents = record {
  application_route_message = ℕ;
  json_value = ℕ;
  database_snapshot = ℕ;
  pull_request = ℕ;
  pull_response = ℕ;
  watch_request = ℕ;
  watch_event = ℕ;
  auth_challenge = ℕ;
  auth_response = ℕ;
  presence_identity = ℕ;
}

abbrev pub router : RouterInner contents
router = new_router

abbrev pub hash : RoutePayload contents → Option Text
hash payload = some (bytes "blake3:0")

abbrev envelope : RouteEnvelope contents
envelope =
    (wrap_payload hash (new_config alice) router 50 (RoutePayload.pull_request 3)
      RouteTarget.broadcast none).1

abbrev passed_on : RouteEnvelope contents
passed_on = unwrap_or (forward_of (new_config bob) envelope) envelope

passes_on : (accept (new_config bob) router 60 envelope).1.forward ≡ some passed_on
unfolding accept is_duplicate forward_of wrap_payload new_config list_ord nat_ord Map.get
passes_on = refl

on_the_way : Route envelope (bob ∷ []) passed_on
unfolding new_config
on_the_way = sent_on made (new_config bob) router 60 passes_on

ttl-Route_example : length (bob ∷ []) + passed_on.ttl ≡ envelope.ttl
ttl-Route_example = ttl-Route envelope passed_on (bob ∷ []) on_the_way

bob_is_on_path : any (λ q. q =? (new_config bob).peer_id) (bob ∷ []) ≡ true
unfolding new_config list_ord nat_ord
bob_is_on_path = refl

accept-Route_example : (accept (new_config bob) router 70 passed_on).1 ≡ duplicate_decision
accept-Route_example =
    accept-Route envelope passed_on (bob ∷ []) (new_config bob) router 70 on_the_way bob_is_on_path

router-IsBounded : IsBounded (new_config bob) router
unfolding new_config
router-IsBounded = record { routes = omega arith; content = omega arith }

accept-IsBounded_example : IsBounded (new_config bob) (accept (new_config bob) router 60 envelope).0
accept-IsBounded_example = accept-IsBounded (new_config bob) router 60 envelope router-IsBounded
