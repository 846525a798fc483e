-- ===== src/Router/Accept.antt =====
-- `accept` of router.rs: which envelopes a router takes, delivers and forwards. The clock's reading
-- is an argument. The two critical sections of the code run one right after the other.
use prima_db.Prelude.{
  ℕ, zero, suc, ◌-◌, Bool, true, false, ◌||◌, Option, none, some, [], ◌∷◌, ◌++◌, any, ltb,
  if◌then◌else◌, is_some, is_some_and, unwrap_or, saturating_add,
}
use prima_db.Text.{Text, bytes}
use prima_db.Ord.{list_ord, nat_ord, ◌=?◌}
use prima_db.Map
use prima_db.Map.{Map}
use prima_db.Clock.{u64_max}
use prima_db.Router.{
  Contents, RouteTarget, PeerPresence, RoutePayload, RouteEnvelope, RouterConfig, RouterInner,
  RouteDecision,
}

-- The largest `u8`.
abbrev pub u8_max : ℕ
u8_max = 255

-- The loop of `trim_seen_cache`, with as much fuel as there are entries.
unfoldable pub trim_to : ℕ → ℕ → Map Text ℕ → Map Text ℕ
trim_to max_seen_routes zero seen = seen
trim_to max_seen_routes (suc fuel) seen =
    if ltb max_seen_routes (Map.len seen)
    then elim seen.entries [
      | [] ↦ seen
      | (oldest, at) ∷ rest ↦ trim_to max_seen_routes fuel (Map.remove seen oldest)
    ]
    else seen

unfoldable pub trim_seen_cache : Map Text ℕ → ℕ → Map Text ℕ
unfolding trim_to
trim_seen_cache seen max_seen_routes = trim_to max_seen_routes (Map.len seen) seen

unfoldable pub note_content : ℕ → ℕ → Option Text → Map Text ℕ → Map Text ℕ
unfolding trim_seen_cache
note_content seen_at max_seen_routes none seen = seen
note_content seen_at max_seen_routes (some key) seen =
    trim_seen_cache (Map.insert seen key seen_at) max_seen_routes

unfoldable pub matches_target : {C : Contents} → Text → Text → RouteEnvelope C → Bool
matches_target peer_id channel envelope = elim envelope.target [
  | RouteTarget.broadcast ↦ envelope.channel =? channel
  | RouteTarget.peer target ↦ target =? peer_id
  | RouteTarget.topic topic ↦ (envelope.channel =? topic) || (topic =? channel)
]

module _ {C : Contents} where
  unfoldable pub dedupe_key : RouteEnvelope C → Option Text
  dedupe_key envelope = elim envelope.content_hash [
    | none ↦ none
    | some content_hash ↦
        some (
          envelope.from ++ bytes ":" ++ unwrap_or envelope.reply_to [] ++ bytes ":" ++ content_hash)
  ]

  -- `peer.metadata.get("state") == Some("offline")`
  abbrev pub is_offline : PeerPresence C → Bool
  is_offline peer =
      is_some_and (Map.get peer.metadata (bytes "state")) (λ state. state =? bytes "offline")

  unfoldable pub update_peer_presence :
      Map Text (PeerPresence C) → PeerPresence C → Map Text (PeerPresence C)
  update_peer_presence peers peer =
      if is_offline peer then Map.remove peers peer.peer_id else Map.insert peers peer.peer_id peer

  abbrev pub seen_by_peer : Text → RouteEnvelope C → Bool
  seen_by_peer peer_id envelope = any (λ p. p =? peer_id) envelope.seen_by

  -- The three tests of `accept`.
  unfoldable pub is_duplicate : RouterConfig → RouterInner C → RouteEnvelope C → Bool
  unfolding dedupe_key
  is_duplicate config inner envelope =
      let seen_route = Map.contains_key inner.seen_routes envelope.route_id in
      let duplicate_content =
        is_some_and (dedupe_key envelope) (λ key. Map.contains_key inner.seen_content key) in
      seen_by_peer config.peer_id envelope || (seen_route || duplicate_content)

  -- What `accept` does to the peers, for an envelope that is new.
  abbrev pub note_presence : Map Text (PeerPresence C) → RoutePayload C → Map Text (PeerPresence C)
  note_presence peers (RoutePayload.presence peer) = update_peer_presence peers peer
  note_presence peers _ = peers

  -- The state after an envelope that is new: the else branch of the first critical section.
  unfoldable pub remember_route : RouterConfig → RouterInner C → ℕ → RouteEnvelope C → RouterInner C
  unfolding trim_seen_cache note_content update_peer_presence dedupe_key
  remember_route config inner seen_at envelope = record inner {
    seen_routes =
        trim_seen_cache (Map.insert inner.seen_routes envelope.route_id seen_at)
          config.max_seen_routes;
    seen_content =
        note_content seen_at config.max_seen_routes (dedupe_key envelope) inner.seen_content;
    peers = note_presence inner.peers envelope.payload;
  }

  -- The envelope that is sent on, if its time to live allows it.
  unfoldable pub forward_of : RouterConfig → RouteEnvelope C → Option (RouteEnvelope C)
  forward_of config envelope =
      if ltb 1 envelope.ttl
      then some (record envelope {
        ttl = envelope.ttl - 1;
        hops = saturating_add u8_max envelope.hops 1;
        seen_by =
            if seen_by_peer config.peer_id envelope
            then envelope.seen_by
            else envelope.seen_by ++ config.peer_id ∷ [];
      })
      else none

  abbrev pub duplicate_decision : RouteDecision C
  duplicate_decision = record { deliver = false; forward = none; duplicate = true }

  -- The counters at the end of `accept`.
  abbrev pub count_routes : RouterInner C → Bool → Bool → RouterInner C
  count_routes inner deliver forwards = record inner {
    delivered_routes =
        if deliver then saturating_add u64_max inner.delivered_routes 1 else inner.delivered_routes;
    forwarded_routes =
        if forwards
        then saturating_add u64_max inner.forwarded_routes 1
        else inner.forwarded_routes;
  }

  unfoldable pub accept :
      RouterConfig → RouterInner C → ℕ → RouteEnvelope C → RouterInner C × RouteDecision C
  unfolding is_duplicate remember_route matches_target forward_of
  accept config inner seen_at envelope =
      if is_duplicate config inner envelope
      then (
        record inner { duplicate_routes = saturating_add u64_max inner.duplicate_routes 1 },
        duplicate_decision,
      )
      else let deliver = matches_target config.peer_id config.default_channel envelope in
        let forward = forward_of config envelope in
        (
          count_routes (remember_route config inner seen_at envelope) deliver (is_some forward),
          record { deliver = deliver; forward = forward; duplicate = false },
        )
