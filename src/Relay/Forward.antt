-- ===== src/Relay/Forward.antt =====
-- `forward_route` and `disconnect_session` of transport.rs, whose copies of `dedupe_key` and
-- `trim_seen_cache` are those of router.rs.
use prima_db.Prelude.{ℕ, Bool, ◌||◌, Option, none, some, [], ◌∷◌, ◌++◌, is_some_and, if◌then◌else◌}
use prima_db.Text.{Text, bytes}
use prima_db.Ord.{list_ord, nat_ord}
use prima_db.Map
use prima_db.Map.{Map}
use prima_db.Router.{Contents, RouteTarget, PeerPresence, RoutePayload, RouteEnvelope}
use prima_db.Router.Accept.{trim_seen_cache, note_content, dedupe_key, seen_by_peer}
use prima_db.Relay.{
  PresenceRecord, RouteRelaySession, RouteRelayForward, RouteRelayCore, no_forward, from_others,
  collect_route_recipients, collect_peer_recommendations, relay_route, build_bootstrap_route,
}

module _ {C : Contents} where
  abbrev pub unindex : Option (PresenceRecord C) → Map Text ℕ → Map Text ℕ
  unindex none index = index
  unindex (some presence) index = Map.remove index presence.peer.peer_id

  abbrev offline : PeerPresence C → PeerPresence C
  offline peer = record peer {
    metadata = Map.insert peer.metadata (bytes "state") (bytes "offline");
  }

module _ {C : Contents} {T : Type 0} where
  -- The test at the start of `forward_route`.
  unfoldable pub is_known : RouteRelayCore C T → RouteEnvelope C → Bool
  unfolding dedupe_key
  is_known core route =
      seen_by_peer core.relay_peer_id route
      || (Map.contains_key core.seen_routes route.route_id
          || is_some_and (dedupe_key route) (λ key. Map.contains_key core.seen_content key))

  unfoldable pub note_seen : RouteRelayCore C T → ℕ → RouteEnvelope C → RouteRelayCore C T
  unfolding trim_seen_cache note_content dedupe_key
  note_seen core seen_at route = record core {
    seen_routes =
        trim_seen_cache (Map.insert core.seen_routes route.route_id seen_at) core.max_seen_routes;
    seen_content = note_content seen_at core.max_seen_routes (dedupe_key route) core.seen_content;
  }

  abbrev pub presence_of : Option (RouteRelaySession C T) → Option (PresenceRecord C)
  presence_of none = none
  presence_of (some session) = session.presence

  abbrev pub announce_in :
      Option (RouteRelaySession C T)
      → ℕ
      → PresenceRecord C
      → Map ℕ (RouteRelaySession C T)
      → Map ℕ (RouteRelaySession C T)
  announce_in none session_id presence sessions = sessions
  announce_in (some session) session_id presence sessions =
      Map.insert sessions session_id (record session { presence = some presence })

  -- What a presence does to the index and to the session that sends it.
  unfoldable pub announce :
      RouteRelayCore C T → ℕ → PeerPresence C → RouteEnvelope C → RouteRelayCore C T
  announce core session_id peer route =
      let session = Map.get core.sessions session_id in
      record core {
        peer_index =
            Map.insert (unindex (presence_of session) core.peer_index) peer.peer_id session_id;
        sessions =
            announce_in session session_id (record { peer = peer; route = route }) core.sessions;
      }

  abbrev presence_route : RouteRelaySession C T → Option (RouteEnvelope C)
  presence_route session = elim session.presence [
    | none ↦ none
    | some presence ↦ some presence.route
  ]

  module _ (stable_content_hash : RoutePayload C → Option Text) (now relay_id : ℕ) where
    -- The envelope that is passed on.
    abbrev pub stamp : RouteRelayCore C T → RouteEnvelope C → RouteEnvelope C
    stamp core route = record route {
      seen_by =
          if seen_by_peer core.relay_peer_id route
          then route.seen_by
          else route.seen_by ++ core.relay_peer_id ∷ [];
      content_hash = elim route.content_hash [
        | none ↦ stable_content_hash route.payload
        | some hash ↦ some hash
      ];
    }

    -- What a presence makes of the state, and the envelope for the peer that sent it.
    abbrev pub with_presence :
        RouteRelayCore C T
        → ℕ
        → RouteEnvelope C
        → RoutePayload C
        → RouteRelayCore C T × Option (RouteEnvelope C)
    with_presence core session_id route (RoutePayload.presence peer) = (
      announce core session_id peer route,
      build_bootstrap_route stable_content_hash now relay_id core.relay_peer_id route.channel
          peer.peer_id (from_others presence_route session_id core.sessions.entries)
          (collect_peer_recommendations core now session_id),
    )
    with_presence core session_id route _ = (core, none)

    unfoldable pub take_route :
        RouteRelayCore C T → ℕ → RouteEnvelope C → RouteRelayCore C T × RouteRelayForward C T
    unfolding note_seen announce build_bootstrap_route collect_peer_recommendations
        collect_route_recipients
    take_route core session_id route =
        let passed = stamp core route in
        let (after, bootstrap) =
          with_presence (note_seen core now route) session_id passed passed.payload in
        (
          after,
          record {
            bootstrap = bootstrap;
            recipients = collect_route_recipients after session_id passed;
            route = some passed;
          },
        )

    unfoldable pub forward_route :
        RouteRelayCore C T → ℕ → RouteEnvelope C → RouteRelayCore C T × RouteRelayForward C T
    unfolding is_known take_route
    forward_route core session_id route =
        if is_known core route then (core, no_forward) else take_route core session_id route

    abbrev pub farewell : RouteRelayCore C T → PresenceRecord C → RouteEnvelope C
    farewell core presence =
        relay_route stable_content_hash now relay_id core.relay_peer_id (bytes "/disconnect/")
          presence.route.channel RouteTarget.broadcast
          (RoutePayload.presence (offline presence.peer))

    abbrev pub drop_session :
        RouteRelayCore C T
        → ℕ
        → Option (PresenceRecord C)
        → RouteRelayCore C T × Option (RouteRelayForward C T)
    drop_session core session_id none =
        (record core { sessions = Map.remove core.sessions session_id }, none)
    drop_session core session_id (some presence) =
        let after : RouteRelayCore C T = record core {
          sessions = Map.remove core.sessions session_id;
          peer_index = Map.remove core.peer_index presence.peer.peer_id;
        } in
        let route = farewell core presence in
        (
          after,
          some (record {
            bootstrap = none;
            recipients = collect_route_recipients after session_id route;
            route = some route;
          }),
        )

    abbrev pub disconnect_known :
        RouteRelayCore C T
        → ℕ
        → Option (RouteRelaySession C T)
        → RouteRelayCore C T × Option (RouteRelayForward C T)
    disconnect_known core session_id none = (core, none)
    disconnect_known core session_id (some session) = drop_session core session_id session.presence

    unfoldable pub disconnect_session :
        RouteRelayCore C T → ℕ → RouteRelayCore C T × Option (RouteRelayForward C T)
    unfolding collect_route_recipients
    disconnect_session core session_id =
        disconnect_known core session_id (Map.get core.sessions session_id)
