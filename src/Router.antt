-- ===== src/Router.antt =====
-- router.rs: the envelopes that replicas send to one another, and the router's state. `Contents`
-- names the types of the messages inside, which the router only moves and copies.
pub mod Envelopes
pub mod Accept
pub mod Loops
pub mod Cache
use prima_db.Prelude.{ℕ, Bool, Option, List}
use prima_db.Text.{Text, bytes}
use prima_db.Ord.{list_ord, nat_ord}
use prima_db.Map
use prima_db.Map.{Map}

pub record Contents : Type 1 where
  pub application_route_message : Type 0
  pub json_value : Type 0
  pub database_snapshot : Type 0
  pub pull_request : Type 0
  pub pull_response : Type 0
  pub watch_request : Type 0
  pub watch_event : Type 0
  pub auth_challenge : Type 0
  pub auth_response : Type 0
  pub presence_identity : Type 0

pub data RouteTarget : Type 0 where
  broadcast : RouteTarget
  peer topic : Text → RouteTarget

pub record PeerPresence (C : Contents) : Type 0 where
  pub peer_id : Text
  pub replica_id : Text
  pub transport : Text
  pub identity : Option C.presence_identity
  pub capabilities : List Text
  pub topics : List Text
  pub metadata : Map Text Text

pub record PeerRecommendation (C : Contents) : Type 0 where
  pub peer : PeerPresence C
  pub relay_urls : List Text
  pub score : ℕ
  pub discovered_at_millis : ℕ

pub data RouteBatchItem (C : Contents) : Type 0 where
  application : C.application_route_message → RouteBatchItem C
  sync : Text → C.json_value → RouteBatchItem C
  presence : PeerPresence C → RouteBatchItem C
  signal : Text → C.json_value → RouteBatchItem C
  snapshot_request : Option Text → RouteBatchItem C
  snapshot_response : Option Text → C.database_snapshot → RouteBatchItem C
  pull_request : C.pull_request → RouteBatchItem C
  pull_response : C.pull_response → RouteBatchItem C
  watch_request : C.watch_request → RouteBatchItem C
  watch_event : C.watch_event → RouteBatchItem C
  peer_exchange : List (PeerRecommendation C) → RouteBatchItem C
  auth_challenge : C.auth_challenge → RouteBatchItem C
  auth_response : C.auth_response → RouteBatchItem C

pub data RoutePayload (C : Contents) : Type 0 where
  application : C.application_route_message → RoutePayload C
  sync : Text → C.json_value → RoutePayload C
  presence : PeerPresence C → RoutePayload C
  signal : Text → C.json_value → RoutePayload C
  snapshot_request : Option Text → RoutePayload C
  snapshot_response : Option Text → C.database_snapshot → RoutePayload C
  pull_request : C.pull_request → RoutePayload C
  pull_response : C.pull_response → RoutePayload C
  watch_request : C.watch_request → RoutePayload C
  watch_event : C.watch_event → RoutePayload C
  peer_exchange : List (PeerRecommendation C) → RoutePayload C
  auth_challenge : C.auth_challenge → RoutePayload C
  auth_response : C.auth_response → RoutePayload C
  batch : List (RouteBatchItem C) → RoutePayload C

pub record RouteEnvelope (C : Contents) : Type 0 where
  pub route_id : Text
  pub from : Text
  pub channel : Text
  pub target : RouteTarget
  pub ttl : ℕ
  pub hops : ℕ
  pub issued_at_millis : ℕ
  pub reply_to : Option Text
  pub content_hash : Option Text
  pub seen_by : List Text
  pub payload : RoutePayload C

pub record RouterConfig : Type 0 where
  pub peer_id : Text
  pub default_channel : Text
  pub default_ttl : ℕ
  pub max_seen_routes : ℕ

pub record RouterStats : Type 0 where
  pub seen_routes : ℕ
  pub known_peers : ℕ
  pub delivered_routes : ℕ
  pub forwarded_routes : ℕ
  pub duplicate_routes : ℕ

pub record RouterInner (C : Contents) : Type 0 where
  pub next_route_seq : ℕ
  pub seen_routes : Map Text ℕ
  pub seen_content : Map Text ℕ
  pub peers : Map Text (PeerPresence C)
  pub delivered_routes : ℕ
  pub forwarded_routes : ℕ
  pub duplicate_routes : ℕ

pub record RouteDecision (C : Contents) : Type 0 where
  pub deliver : Bool
  pub forward : Option (RouteEnvelope C)
  pub duplicate : Bool

-- `RouterConfig::new`
unfoldable pub new_config : Text → RouterConfig
new_config peer_id = record {
  peer_id = peer_id;
  default_channel = bytes "primadb";
  default_ttl = 6;
  max_seen_routes = 4096;
}

module _ {C : Contents} where
  -- `Router::new`, without the configuration, which does not change.
  abbrev pub new_router : RouterInner C
  new_router = record {
    next_route_seq = 0;
    seen_routes = Map.empty;
    seen_content = Map.empty;
    peers = Map.empty;
    delivered_routes = 0;
    forwarded_routes = 0;
    duplicate_routes = 0;
  }

  abbrev pub forget_peer : RouterInner C → Text → RouterInner C
  forget_peer inner peer_id = record inner { peers = Map.remove inner.peers peer_id }

  unfoldable pub router_stats : RouterInner C → RouterStats
  router_stats inner = record {
    seen_routes = Map.len inner.seen_routes;
    known_peers = Map.len inner.peers;
    delivered_routes = inner.delivered_routes;
    forwarded_routes = inner.forwarded_routes;
    duplicate_routes = inner.duplicate_routes;
  }
