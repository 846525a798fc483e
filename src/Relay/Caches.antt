-- ===== src/Relay/Caches.antt =====
-- The caches of a relay stay within their limit, and a route is passed on once.
use prima_db.Prelude.{ℕ, ◌≤◌, ◌<◌, ◌≡◌, refl, ap, ◌∙◌, true, false, Bool-cases, inl, inr, Option}
use prima_db.Text.{Text}
use prima_db.Ord.{list_ord, nat_ord}
use prima_db.Map
use prima_db.Map.{Map}
use prima_db.Router.{Contents, RoutePayload, RouteEnvelope}
use prima_db.Router.Accept.{dedupe_key, seen_by_peer}
use prima_db.Router.Cache.{len-trim_seen_cache, len-note_content, kept_in_cache}
use prima_db.Relay.{RouteRelayCore, no_forward}
use prima_db.Relay.Forward.{
  is_known, note_seen, announce, with_presence, stamp, take_route, forward_route,
}

module _ {C : Contents} {T : Type 0} where
  -- Both caches hold no more routes than the relay's limit.
  pub record IsBounded (core : RouteRelayCore C T) : Type 0 where
    pub routes : Map.len core.seen_routes ≤ core.max_seen_routes
    pub content : Map.len core.seen_content ≤ core.max_seen_routes

  note_seen-IsBounded :
      (core : RouteRelayCore C T) (seen_at : ℕ) (route : RouteEnvelope C)
      → IsBounded core
      → IsBounded (note_seen core seen_at route)
  unfolding note_seen
  note_seen-IsBounded core seen_at route w = record {
    routes =
        len-trim_seen_cache (Map.insert core.seen_routes route.route_id seen_at)
          core.max_seen_routes;
    content =
        len-note_content seen_at core.max_seen_routes (dedupe_key route) core.seen_content
          w.content;
  }

  -- A presence leaves the caches and the relay's own fields as they are.
  record SameCaches (core after : RouteRelayCore C T) : Type 0 where
    same_peer_id : after.relay_peer_id ≡ core.relay_peer_id
    same_limit : after.max_seen_routes ≡ core.max_seen_routes
    same_routes : after.seen_routes ≡ core.seen_routes
    same_content : after.seen_content ≡ core.seen_content

  SameCaches-IsBounded :
      (core after : RouteRelayCore C T) → SameCaches core after → IsBounded core → IsBounded after
  SameCaches-IsBounded core after s w = record {
    routes = rw (s.same_routes, s.same_limit) w.routes;
    content = rw (s.same_content, s.same_limit) w.content;
  }

  module _ (stable_content_hash : RoutePayload C → Option Text) (now relay_id : ℕ) where
    with_presence-SameCaches :
        (core : RouteRelayCore C T) (session_id : ℕ) (route : RouteEnvelope C)
        (payload : RoutePayload C)
        → SameCaches core
            (with_presence stable_content_hash now relay_id core session_id route payload).0
    unfolding announce
    with_presence-SameCaches core session_id route (RoutePayload.presence peer) = record {
      same_peer_id = refl;
      same_limit = refl;
      same_routes = refl;
      same_content = refl;
    }
    with_presence-SameCaches core session_id route _ = record {
      same_peer_id = refl;
      same_limit = refl;
      same_routes = refl;
      same_content = refl;
    }

    -- Whatever route a session sends, the caches of the relay stay within its limit.
    pub forward_route-IsBounded :
        (core : RouteRelayCore C T) (session_id : ℕ) (route : RouteEnvelope C)
        → IsBounded core
        → IsBounded (forward_route stable_content_hash now relay_id core session_id route).0
    unfolding forward_route take_route
    forward_route-IsBounded core session_id route w = elim (Bool-cases (is_known core route)) [
      | inl known ↦ rw known w
      | inr new ↦
          let passed = stamp stable_content_hash now relay_id core route in
          rw new (
            SameCaches-IsBounded (note_seen core now route) _
              (with_presence-SameCaches (note_seen core now route) session_id passed passed.payload)
              (note_seen-IsBounded core now route w))
    ]

    after_route :
        (core : RouteRelayCore C T) (session_id : ℕ) (route : RouteEnvelope C)
        → is_known core route ≡ false
        → SameCaches
            (note_seen core now route)
            (forward_route stable_content_hash now relay_id core session_id route).0
    unfolding forward_route take_route
    after_route core session_id route new =
        let passed = stamp stable_content_hash now relay_id core route in
        rw new
          (with_presence-SameCaches (note_seen core now route) session_id passed passed.payload)

  known_route :
      (core : RouteRelayCore C T) (route : RouteEnvelope C)
      → Map.contains_key core.seen_routes route.route_id ≡ true
      → is_known core route ≡ true
  unfolding is_known
  known_route core route known = elim (Bool-cases (seen_by_peer core.relay_peer_id route)) [
    | inl seen ↦ rw seen refl
    | inr unseen ↦ rw (unseen, known) refl
  ]

  -- Where a relay passes a route on while its cache of routes has room, it drops the next route
  -- with the same route id, from whatever session, and the state stays as it is.
  pub forward_route_once :
      (stable_content_hash : RoutePayload C → Option Text) (now later relay_id next_id : ℕ)
      (core : RouteRelayCore C T) (session_id other_id : ℕ) (route again : RouteEnvelope C)
      → is_known core route ≡ false
      → Map.len core.seen_routes < core.max_seen_routes
      → again.route_id ≡ route.route_id
      → let after = (forward_route stable_content_hash now relay_id core session_id route).0 in
        forward_route stable_content_hash later next_id after other_id again ≡ (after, no_forward)
  unfolding forward_route note_seen
  forward_route_once hash now later relay_id next_id core session_id other_id route again new room
        same =
      let after = (forward_route hash now relay_id core session_id route).0 in
      let kept = kept_in_cache core.seen_routes route.route_id now core.max_seen_routes room in
      let cached = (after_route hash now relay_id core session_id route new).same_routes in
      let known =
        known_route after again
          (rw same (ap (λ s. Map.contains_key s route.route_id) cached ∙ kept)) in
      rw known refl
