-- ===== src/Tests/Relays.antt =====
-- The theorems on the relay and on the underlays at concrete inputs. Handles are numbers.
use prima_db.Prelude.{
  ℕ, ◌≡◌, ◌↔◌, ◌⊎◌, refl, true, false, any, ◌==◌, Option, none, some, [], ◌∷◌, All, if◌then◌else◌,
}
use prima_db.Text.{Text, bytes}
use prima_db.Ord.{list_ord, nat_ord}
use prima_db.Map
use prima_db.Map.Entries.{get_in, insert_in, remove_in}
use prima_db.Map.{Map}
use prima_db.Router.{RouteEnvelope, new_config}
use prima_db.Router.Envelopes.{presence}
use prima_db.Router.Accept.{trim_seen_cache, trim_to, note_content, dedupe_key}
use prima_db.Application.{RouteTransportKind}
use prima_db.Relay.{RouteRelayCore, new_relay, insert_session, collect_route_recipients}
use prima_db.Relay.Forward.{
  is_known, note_seen, announce, take_route, forward_route, disconnect_session,
}
use prima_db.Relay.Recipients.{IsOther, forward_route-IsOther}
use prima_db.Relay.Index.{Reached, starts, opens_session, forwards, peer_of, indexed_peer}
use prima_db.Underlays.{
  RouteOverlayUnderlayInfo, default_overlay_policy, is_allowed, goes_before, ordered_underlays,
  try_underlays, send_route,
}
use prima_db.Underlays.Delivery.{Allowed, Forbidden, Among, Refuses, send_route-Allowed}
use prima_db.Tests.Data.{alice}
use prima_db.Tests.Routers.{contents, router, hash}

-- A relay with the sessions 1 and 2.
abbrev opened : RouteRelayCore contents ℕ
opened = insert_session (insert_session (new_relay (bytes "relay") 9) 1 10) 2 20

opened-Reached : Reached [] opened
unfolding new_relay insert_session Map.get Map.insert get_in insert_in list_ord nat_ord
opened-Reached = opens_session (opens_session (starts (bytes "relay") 9) 1 10 refl) 2 20 refl

-- Session 1 announces the peer alice.
abbrev hello : RouteEnvelope contents
hello =
    (presence hash (new_config alice) router 50 (bytes "alice-replica") (bytes "websocket") [] []).1

abbrev announced : RouteRelayCore contents ℕ
announced = (forward_route hash 60 1 opened 1 hello).0

announced-Reached : Reached [] announced
unfolding new_relay insert_session Map.get Map.insert get_in insert_in list_ord nat_ord
announced-Reached =
    forwards opened-Reached hash 60 1 1 (record { handle = 10; presence = none }) hello refl

alice_is_indexed : Map.get announced.peer_index alice ≡ some 1
unfolding forward_route is_known take_route note_seen announce trim_seen_cache trim_to note_content
    dedupe_key presence new_relay insert_session new_config Map.get Map.insert get_in insert_in
    list_ord nat_ord
alice_is_indexed = refl

indexed_peer_example :
    (peer_of announced.sessions 1 ≡ some alice) ⊎ (any (λ stray. stray == 1) [] ≡ true)
indexed_peer_example = indexed_peer alice 1 announced-Reached alice_is_indexed

-- A session that was never opened announces her: the index leads to it.
abbrev strayed : RouteRelayCore contents ℕ
strayed = (forward_route hash 60 1 opened 3 hello).0

alice_is_nowhere : (Map.get strayed.peer_index alice ≡ some 3) × (peer_of strayed.sessions 3 ≡ none)
unfolding forward_route is_known take_route note_seen announce trim_seen_cache trim_to note_content
    dedupe_key presence new_relay insert_session new_config Map.get Map.insert get_in insert_in
    list_ord nat_ord
alice_is_nowhere = (refl, refl)

forward_route-IsOther_example :
    let (after, forward) = forward_route hash 60 1 opened 1 hello in
    All (IsOther 1 after.sessions) forward.recipients
forward_route-IsOther_example = forward_route-IsOther hash 60 1 opened 1 hello

-- Session 2 hears of alice.
bob_hears : (forward_route hash 60 1 opened 1 hello).1.recipients ≡ 20 ∷ []
unfolding forward_route is_known take_route note_seen announce trim_seen_cache trim_to note_content
    dedupe_key collect_route_recipients presence new_relay insert_session new_config Map.get
    Map.insert get_in insert_in list_ord nat_ord
bob_hears = refl

-- Alice comes back in session 2 before session 1 is closed.
abbrev returned : RouteRelayCore contents ℕ
returned =
    let again : RouteEnvelope contents = record hello {
      route_id = bytes "r2";
      content_hash = some (bytes "h2");
    } in
    (disconnect_session hash 80 3 (forward_route hash 70 2 announced 2 again).0 1).0

-- She is announced by session 2, and the index has forgotten her.
alice_is_lost :
    (peer_of returned.sessions 2 ≡ some alice) × (Map.get returned.peer_index alice ≡ none)
unfolding forward_route is_known take_route note_seen announce disconnect_session trim_seen_cache
    trim_to note_content dedupe_key presence new_relay insert_session new_config Map.get Map.insert
    Map.remove get_in insert_in remove_in list_ord nat_ord
alice_is_lost = (refl, refl)

abbrev direct : RouteOverlayUnderlayInfo
direct = record {
  id = bytes "d";
  transport = RouteTransportKind.web_rtc;
  direct = true;
  relay_routed = false;
  connected = true;
  priority = 0;
  metadata = Map.empty;
}

abbrev relayed : RouteOverlayUnderlayInfo
relayed = record direct {
  id = bytes "r";
  transport = RouteTransportKind.web_socket;
  direct = false;
  relay_routed = true;
}

abbrev two_underlays : Map Text RouteOverlayUnderlayInfo
two_underlays = Map.insert (Map.insert Map.empty (bytes "r") relayed) (bytes "d") direct

abbrev direct_fails : RouteOverlayUnderlayInfo → Option Text
direct_fails info = if info.direct then some (bytes "closed") else none

send_route-Allowed_example :
    All
      (λ attempt.
        Allowed default_overlay_policy attempt.underlay
        × Among attempt.underlay (Map.values two_underlays))
      (send_route direct_fails 60 default_overlay_policy two_underlays hello).attempts
    × (((send_route direct_fails 60 default_overlay_policy two_underlays
            hello).delivered_underlay_ids
          ≡ [])
        ↔ All
            (λ info. Forbidden default_overlay_policy info ⊎ Refuses direct_fails info)
            (Map.values two_underlays))
send_route-Allowed_example =
    send_route-Allowed direct_fails 60 default_overlay_policy two_underlays hello

-- The direct one is tried first.
direct_then_relayed :
    (send_route direct_fails 60 default_overlay_policy two_underlays hello).failed_underlay_ids
    ≡ bytes "d" ∷ []
unfolding send_route ordered_underlays try_underlays is_allowed goes_before Map.insert insert_in
    list_ord nat_ord
direct_then_relayed = refl
