-- ===== src/Router/Envelopes.antt =====
-- The envelopes that a router makes: `wrap_payload` of router.rs and the functions on it. The wall
-- clock's reading and `stable_content_hash` are parameters.
use prima_db.Prelude.{ℕ, Option, none, List, [], ◌∷◌, ◌++◌, saturating_add}
use prima_db.Text.{Text, bytes}
use prima_db.Ord.{list_ord, nat_ord}
use prima_db.Map
use prima_db.Clock.{u64_max, hex}
use prima_db.Router.{
  Contents, RouteTarget, PeerPresence, PeerRecommendation, RouteBatchItem, RoutePayload,
  RouteEnvelope, RouterConfig, RouterInner,
}

module _ {C : Contents} where
  -- `RoutePayload::from_batch_item`
  unfoldable pub from_batch_item : RouteBatchItem C → RoutePayload C
  from_batch_item (RouteBatchItem.application message) = RoutePayload.application message
  from_batch_item (RouteBatchItem.sync encoding payload) = RoutePayload.sync encoding payload
  from_batch_item (RouteBatchItem.presence peer) = RoutePayload.presence peer
  from_batch_item (RouteBatchItem.signal room payload) = RoutePayload.signal room payload
  from_batch_item (RouteBatchItem.snapshot_request root) = RoutePayload.snapshot_request root
  from_batch_item (RouteBatchItem.snapshot_response root snapshot) =
      RoutePayload.snapshot_response root snapshot
  from_batch_item (RouteBatchItem.pull_request request) = RoutePayload.pull_request request
  from_batch_item (RouteBatchItem.pull_response response) = RoutePayload.pull_response response
  from_batch_item (RouteBatchItem.watch_request request) = RoutePayload.watch_request request
  from_batch_item (RouteBatchItem.watch_event event) = RoutePayload.watch_event event
  from_batch_item (RouteBatchItem.peer_exchange peers) = RoutePayload.peer_exchange peers
  from_batch_item (RouteBatchItem.auth_challenge challenge) = RoutePayload.auth_challenge challenge
  from_batch_item (RouteBatchItem.auth_response response) = RoutePayload.auth_response response

module _ {C : Contents} (stable_content_hash : RoutePayload C → Option Text) (config : RouterConfig)
    (inner : RouterInner C) (now : ℕ) where
  -- The state after, and the envelope.
  abbrev Wrapped : Type 0
  Wrapped = RouterInner C × RouteEnvelope C

  unfoldable pub wrap_payload : RoutePayload C → RouteTarget → Option Text → Wrapped
  wrap_payload payload target reply_to =
      let seq = saturating_add u64_max inner.next_route_seq 1 in
      (
        record inner { next_route_seq = seq },
        record {
          route_id = config.peer_id ++ bytes "/route/" ++ hex seq;
          from = config.peer_id;
          channel = config.default_channel;
          target = target;
          ttl = config.default_ttl;
          hops = 0;
          issued_at_millis = now;
          reply_to = reply_to;
          content_hash = stable_content_hash payload;
          seen_by = config.peer_id ∷ [];
          payload = payload;
        },
      )

  -- `route.content_hash = None`
  abbrev without_content_hash : Wrapped → Wrapped
  without_content_hash (after, route) = (after, record route { content_hash = none })

  unfoldable pub wrap_sync : Text → C.json_value → RouteTarget → Wrapped
  unfolding wrap_payload
  wrap_sync encoding payload target = wrap_payload (RoutePayload.sync encoding payload) target none

  unfoldable pub wrap_signal : Text → C.json_value → RouteTarget → Wrapped
  unfolding wrap_payload
  wrap_signal room payload target = wrap_payload (RoutePayload.signal room payload) target none

  unfoldable pub wrap_application :
      C.application_route_message → RouteTarget → Option Text → Wrapped
  unfolding wrap_payload
  wrap_application message = wrap_payload (RoutePayload.application message)

  unfoldable pub wrap_pull_request : C.pull_request → RouteTarget → Wrapped
  unfolding wrap_payload
  wrap_pull_request request target = wrap_payload (RoutePayload.pull_request request) target none

  unfoldable pub wrap_pull_response : C.pull_response → RouteTarget → Option Text → Wrapped
  unfolding wrap_payload
  wrap_pull_response response = wrap_payload (RoutePayload.pull_response response)

  unfoldable pub wrap_watch_request : C.watch_request → RouteTarget → Option Text → Wrapped
  unfolding wrap_payload
  wrap_watch_request request target reply_to =
      without_content_hash (wrap_payload (RoutePayload.watch_request request) target reply_to)

  unfoldable pub wrap_watch_event : C.watch_event → RouteTarget → Option Text → Wrapped
  unfolding wrap_payload
  wrap_watch_event event target reply_to =
      without_content_hash (wrap_payload (RoutePayload.watch_event event) target reply_to)

  unfoldable pub wrap_batch : List (RouteBatchItem C) → RouteTarget → Option Text → Wrapped
  unfolding wrap_payload
  wrap_batch items = wrap_payload (RoutePayload.batch items)

  unfoldable pub wrap_batch_item : RouteBatchItem C → RouteTarget → Option Text → Wrapped
  unfolding wrap_payload from_batch_item
  wrap_batch_item item = wrap_payload (from_batch_item item)

  unfoldable pub presence : Text → Text → List Text → List Text → Wrapped
  unfolding wrap_payload
  presence replica_id transport capabilities topics =
      let peer : PeerPresence C = record {
        peer_id = config.peer_id;
        replica_id = replica_id;
        transport = transport;
        identity = none;
        capabilities = capabilities;
        topics = topics;
        metadata = Map.empty;
      } in
      wrap_payload (RoutePayload.presence peer) RouteTarget.broadcast none

  unfoldable pub peer_exchange : List (PeerRecommendation C) → RouteTarget → Option Text → Wrapped
  unfolding wrap_payload
  peer_exchange peers = wrap_payload (RoutePayload.peer_exchange peers)

  unfoldable pub auth_challenge : C.auth_challenge → RouteTarget → Wrapped
  unfolding wrap_payload
  auth_challenge challenge target = wrap_payload (RoutePayload.auth_challenge challenge) target none

  unfoldable pub auth_response : C.auth_response → RouteTarget → Wrapped
  unfolding wrap_payload
  auth_response response target = wrap_payload (RoutePayload.auth_response response) target none

  unfoldable pub snapshot_request : Option Text → RouteTarget → Wrapped
  unfolding wrap_payload
  snapshot_request root target = wrap_payload (RoutePayload.snapshot_request root) target none

  unfoldable pub snapshot_response : Option Text → C.database_snapshot → RouteTarget → Wrapped
  unfolding wrap_payload
  snapshot_response root snapshot target =
      wrap_payload (RoutePayload.snapshot_response root snapshot) target none
