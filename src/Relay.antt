-- ===== src/Relay.antt =====
-- `RouteRelayCore` of transport.rs: the relay that passes routes on between its sessions. `T` is a
-- session's handle. The wall clock's reading, the next value of the counter of relay ids and
-- `stable_content_hash` are parameters.
mod CommaList
pub mod Forward
pub mod Recipients
pub mod Caches
pub mod Index
use prima_db.Prelude.{
  ℕ, ◌+◌, ◌*◌, Bool, true, false, not, ◌||◌, Option, none, some, List, [], ◌∷◌, ◌++◌, any, length,
  is_some, is_some_and, ◌==◌, if◌then◌else◌,
}
use Prim.Native.Nat.{min, max}
use prima_db.Text.{Text, bytes}
use prima_db.Ord.{list_ord, nat_ord, ◌=?◌}
use prima_db.Map
use prima_db.Map.{Map}
use prima_db.Clock.{hex}
use prima_db.Router.{
  Contents, RouteTarget, PeerPresence, PeerRecommendation, RouteBatchItem, RoutePayload,
  RouteEnvelope,
}
use CommaList.{comma_list}

pub record PresenceRecord (C : Contents) : Type 0 where
  pub peer : PeerPresence C
  pub route : RouteEnvelope C

pub record RouteRelaySession (C : Contents) (T : Type 0) : Type 0 where
  pub handle : T
  pub presence : Option (PresenceRecord C)

pub record RouteRelayForward (C : Contents) (T : Type 0) : Type 0 where
  pub bootstrap : Option (RouteEnvelope C)
  pub recipients : List T
  pub route : Option (RouteEnvelope C)

pub record RouteRelayCore (C : Contents) (T : Type 0) : Type 0 where
  pub relay_peer_id : Text
  pub max_seen_routes : ℕ
  pub sessions : Map ℕ (RouteRelaySession C T)
  pub peer_index : Map Text ℕ
  pub seen_routes : Map Text ℕ
  pub seen_content : Map Text ℕ

module _ {C : Contents} where
  unfoldable pub recommendation_score : PeerPresence C → ℕ
  recommendation_score peer =
      50 + min (length peer.capabilities) 8 * 10 + min (length peer.topics) 8 * 5

  abbrev relay_urls : PeerPresence C → List Text
  relay_urls peer = elim (Map.get peer.metadata (bytes "relay_url")) [
    | none ↦ []
    | some value ↦ comma_list value
  ]

module _ {C : Contents} {T : Type 0} where
  -- `RouteRelayForward::default`
  abbrev pub no_forward : RouteRelayForward C T
  no_forward = record { bootstrap = none; recipients = []; route = none }

  -- `RouteRelayCore::new`
  unfoldable pub new_relay : Text → ℕ → RouteRelayCore C T
  new_relay relay_peer_id max_seen_routes = record {
    relay_peer_id = relay_peer_id;
    max_seen_routes = max max_seen_routes 1;
    sessions = Map.empty;
    peer_index = Map.empty;
    seen_routes = Map.empty;
    seen_content = Map.empty;
  }

  unfoldable pub insert_session : RouteRelayCore C T → ℕ → T → RouteRelayCore C T
  insert_session core session_id handle = record core {
    sessions = Map.insert core.sessions session_id (record { handle = handle; presence = none });
  }

  -- What a function gives at the sessions other than one: `filter_map` with the test that each of
  -- the code's closures begins with.
  abbrev pub from_others :
      {B : Type 0}
      → (RouteRelaySession C T → Option B)
      → ℕ
      → List (ℕ × RouteRelaySession C T)
      → List B
  from_others f except [] = []
  from_others f except ((candidate_id, session) ∷ sessions) =
      let later = from_others f except sessions in
      if candidate_id == except
      then later
      else elim (f session) [ none ↦ later | some b ↦ b ∷ later ]

  unfoldable pub session_handles_except : RouteRelayCore C T → ℕ → List T
  session_handles_except core session_id =
      from_others (λ session. some session.handle) session_id core.sessions.entries

  -- Who takes a broadcast: the sessions on its channel, and those that are not announced.
  abbrev pub takes_broadcast : Text → RouteRelaySession C T → Option T
  takes_broadcast channel session = elim session.presence [
    | none ↦ some session.handle
    | some presence ↦ if presence.route.channel =? channel then some session.handle else none
  ]

  abbrev pub takes_topic : Text → RouteRelaySession C T → Option T
  takes_topic topic session = elim session.presence [
    | none ↦ none
    | some presence ↦
        if any (λ candidate. candidate =? topic) presence.peer.topics
          || (presence.route.channel =? topic)
        then some session.handle
        else none
  ]

  abbrev pub handle_of : Option (RouteRelaySession C T) → List T
  handle_of none = []
  handle_of (some session) = session.handle ∷ []

  abbrev pub peer_recipient : RouteRelayCore C T → ℕ → Option ℕ → List T
  peer_recipient core sender_id none = []
  peer_recipient core sender_id (some session_id) =
      if session_id == sender_id then [] else handle_of (Map.get core.sessions session_id)

  abbrev pub recipients_of : RouteRelayCore C T → ℕ → Text → RouteTarget → List T
  recipients_of core sender_id channel (RouteTarget.peer peer_id) =
      peer_recipient core sender_id (Map.get core.peer_index peer_id)
  recipients_of core sender_id channel RouteTarget.broadcast =
      from_others (takes_broadcast channel) sender_id core.sessions.entries
  recipients_of core sender_id channel (RouteTarget.topic topic) =
      from_others (takes_topic topic) sender_id core.sessions.entries

  unfoldable pub collect_route_recipients : RouteRelayCore C T → ℕ → RouteEnvelope C → List T
  collect_route_recipients core sender_id route =
      recipients_of core sender_id route.channel route.target

  abbrev recommendation : ℕ → RouteRelaySession C T → Option (PeerRecommendation C)
  recommendation now session = elim session.presence [
    | none ↦ none
    | some presence ↦ some (record {
      peer = presence.peer;
      relay_urls = relay_urls presence.peer;
      score = recommendation_score presence.peer;
      discovered_at_millis = now;
    })
  ]

  -- `collect_peer_recommendations`, of the sessions other than one.
  unfoldable pub collect_peer_recommendations :
      RouteRelayCore C T → ℕ → ℕ → List (PeerRecommendation C)
  unfolding recommendation_score comma_list
  collect_peer_recommendations core now session_id =
      from_others (recommendation now) session_id core.sessions.entries

module _ {C : Contents} (stable_content_hash : RoutePayload C → Option Text)
    (now relay_id : ℕ) where
  abbrev presence_items : List (RouteEnvelope C) → List (RouteBatchItem C)
  presence_items [] = []
  presence_items (route ∷ routes) = elim route.payload [
    | RoutePayload.presence peer ↦ RouteBatchItem.presence peer ∷ presence_items routes
    | _ ↦ presence_items routes
  ]

  abbrev exchange_items : List (PeerRecommendation C) → List (RouteBatchItem C)
  exchange_items [] = []
  exchange_items (first ∷ recommendations) =
      RouteBatchItem.peer_exchange (first ∷ recommendations) ∷ []

  -- The envelopes that a relay makes itself.
  abbrev pub relay_route : Text → Text → Text → RouteTarget → RoutePayload C → RouteEnvelope C
  relay_route relay_peer_id kind channel target payload = record {
    route_id = relay_peer_id ++ (kind ++ hex relay_id);
    from = relay_peer_id;
    channel = channel;
    target = target;
    ttl = 1;
    hops = 0;
    issued_at_millis = now;
    reply_to = none;
    content_hash = stable_content_hash payload;
    seen_by = relay_peer_id ∷ [];
    payload = payload;
  }

  abbrev bootstrap_of : Text → Text → Text → List (RouteBatchItem C) → Option (RouteEnvelope C)
  bootstrap_of relay_peer_id channel target_peer_id [] = none
  bootstrap_of relay_peer_id channel target_peer_id (first ∷ items) = some (
      relay_route relay_peer_id (bytes "/bootstrap/") channel (RouteTarget.peer target_peer_id)
        (RoutePayload.batch (first ∷ items)))

  unfoldable pub build_bootstrap_route :
      Text
      → Text
      → Text
      → List (RouteEnvelope C)
      → List (PeerRecommendation C)
      → Option (RouteEnvelope C)
  unfolding hex
  build_bootstrap_route relay_peer_id channel target_peer_id existing recommendations =
      bootstrap_of relay_peer_id channel target_peer_id
        (presence_items existing ++ exchange_items recommendations)
