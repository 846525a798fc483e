-- ===== src/Underlays.antt =====
-- The underlays of a `RouteOverlaySession` in overlay.rs: which of them a route is sent through, and
-- in what order. The underlays' `send_route` is a parameter, whose answer is the error's text. The
-- infos are those that `info` gives, with the connection's state of the moment.
pub mod Delivery
use prima_db.Prelude.{
  ℕ, ◌+◌, Bool, true, false, not, ◌&&◌, ◌||◌, Option, none, some, List, [], ◌∷◌, ◌++◌, retain,
  sort_by, length, compare, ltb, ◌==◌, if◌then◌else◌,
}
use prima_db.Text.{Text, bytes}
use prima_db.Ord.{list_ord, nat_ord, cmp_list, then_with, is_lt}
use prima_db.Map
use prima_db.Map.{Map}
use prima_db.Router.{Contents, RouteTarget, RouteEnvelope}
use prima_db.Application.{RouteTransportKind}

pub data RouteOverlaySendMode : Type 0 where
  first_success fan_out : RouteOverlaySendMode

pub record RouteOverlayPolicy : Type 0 where
  pub preferred_transports : List RouteTransportKind
  pub send_mode : RouteOverlaySendMode
  pub direct_first : Bool
  pub allow_direct : Bool
  pub allow_relay : Bool
  pub require_direct : Bool

pub record RouteOverlayUnderlayInfo : Type 0 where
  pub id : Text
  pub transport : RouteTransportKind
  pub direct : Bool
  pub relay_routed : Bool
  pub connected : Bool
  pub priority : ℕ
  pub metadata : Map Text Text

pub record RouteOverlayDeliveryAttempt : Type 0 where
  pub underlay : RouteOverlayUnderlayInfo
  pub attempted_at_millis : ℕ
  pub success : Bool
  pub message : Option Text

pub record RouteOverlaySendReport (C : Contents) : Type 0 where
  pub route : RouteEnvelope C
  pub attempts : List RouteOverlayDeliveryAttempt
  pub delivered_underlay_ids : List Text
  pub failed_underlay_ids : List Text
  pub delivered_peer_ids : List Text
  pub fallback_reason : Option Text
  pub duplicate_suppressed : ℕ

-- `RouteOverlayPolicy::default`
abbrev pub default_overlay_policy : RouteOverlayPolicy
default_overlay_policy = record {
  preferred_transports =
      RouteTransportKind.web_rtc ∷ RouteTransportKind.moq ∷ RouteTransportKind.web_socket
      ∷ RouteTransportKind.broadcast_channel ∷ RouteTransportKind.in_memory ∷ [];
  send_mode = RouteOverlaySendMode.first_success;
  direct_first = true;
  allow_direct = true;
  allow_relay = true;
  require_direct = false;
}

unfoldable pub is_allowed : RouteOverlayPolicy → RouteOverlayUnderlayInfo → Bool
is_allowed policy info =
    info.connected
    && ((not policy.require_direct || info.direct)
        && ((policy.allow_direct || not info.direct)
            && (policy.allow_relay || not info.relay_routed)))

abbrev code : RouteTransportKind → ℕ
code RouteTransportKind.web_socket = 0
code RouteTransportKind.moq = 1
code RouteTransportKind.web_rtc = 2
code RouteTransportKind.broadcast_channel = 3
code RouteTransportKind.in_memory = 4

-- `iter().position(..)`, counted from `at`, or `missing`.
abbrev position : RouteTransportKind → ℕ → ℕ → List RouteTransportKind → ℕ
position transport at missing [] = missing
position transport at missing (first ∷ transports) =
    let later = position transport (at + 1) missing transports in
    if code first == code transport then at else later

abbrev preference : RouteOverlayPolicy → RouteOverlayUnderlayInfo → ℕ
preference policy info =
    position info.transport 0 (length policy.preferred_transports + 16) policy.preferred_transports

abbrev direct_bias : RouteOverlayPolicy → RouteOverlayUnderlayInfo → ℕ
direct_bias policy info = if policy.direct_first && info.direct then 0 else 1

-- The order of the keys `(direct_bias, preferred, priority, id)`.
unfoldable pub goes_before :
    RouteOverlayPolicy → RouteOverlayUnderlayInfo → RouteOverlayUnderlayInfo → Bool
goes_before policy a b = is_lt (
    then_with (compare (direct_bias policy a) (direct_bias policy b)) (
      then_with (compare (preference policy a) (preference policy b))
        (then_with (compare a.priority b.priority) (cmp_list a.id b.id))))

unfoldable pub ordered_underlays :
    RouteOverlayPolicy → Map Text RouteOverlayUnderlayInfo → List RouteOverlayUnderlayInfo
unfolding is_allowed goes_before
ordered_underlays policy underlays =
    sort_by (goes_before policy) (retain (is_allowed policy) (Map.values underlays))

-- What the loop of `send_route` gathers.
pub record Sending : Type 0 where
  pub attempts : List RouteOverlayDeliveryAttempt
  pub delivered : List Text
  pub failed : List Text

abbrev nothing_sent : Sending
nothing_sent = record { attempts = []; delivered = []; failed = [] }

abbrev note_success : ℕ → RouteOverlayUnderlayInfo → Sending → Sending
note_success now info sending = record {
  attempts =
      record { underlay = info; attempted_at_millis = now; success = true; message = none }
      ∷ sending.attempts;
  delivered = info.id ∷ sending.delivered;
  failed = sending.failed;
}

abbrev note_failure : ℕ → RouteOverlayUnderlayInfo → Text → Sending → Sending
note_failure now info message sending = record {
  attempts =
      record { underlay = info; attempted_at_millis = now; success = false; message = some message }
      ∷ sending.attempts;
  delivered = sending.delivered;
  failed = info.id ∷ sending.failed;
}

abbrev pub stops : RouteOverlaySendMode → Bool
stops RouteOverlaySendMode.first_success = true
stops RouteOverlaySendMode.fan_out = false

-- Where the underlay takes the route, the loop may stop.
abbrev pub note_answer :
    ℕ → RouteOverlaySendMode → RouteOverlayUnderlayInfo → Sending → Option Text → Sending
note_answer now mode info later none =
    note_success now info (if stops mode then nothing_sent else later)
note_answer now mode info later (some error) = note_failure now info error later

-- The loop; each underlay is tried before those behind it.
unfoldable pub try_underlays :
    (RouteOverlayUnderlayInfo → Option Text)
    → ℕ
    → RouteOverlaySendMode
    → List RouteOverlayUnderlayInfo
    → Sending
try_underlays send now mode [] = nothing_sent
try_underlays send now mode (info ∷ underlays) =
    note_answer now mode info (try_underlays send now mode underlays) (send info)

abbrev fallback_of : Sending → Option Text
fallback_of sending = elim sending.delivered [
  | [] ↦ some (bytes "all attempted route underlays failed")
  | _ ∷ _ ↦ elim sending.failed [
    | [] ↦ none
    | _ ∷ _ ↦
        some (bytes "one or more preferred underlays failed before a later underlay delivered")
  ]
]

abbrev peers_of : RouteTarget → List Text → List Text
peers_of (RouteTarget.peer peer_id) (_ ∷ _) = peer_id ∷ []
peers_of _ _ = []

module _ {C : Contents} where
  abbrev report_of : RouteEnvelope C → Sending → Option Text → RouteOverlaySendReport C
  report_of route sending fallback_reason = record {
    route = route;
    attempts = sending.attempts;
    delivered_underlay_ids = sending.delivered;
    failed_underlay_ids = sending.failed;
    delivered_peer_ids = peers_of route.target sending.delivered;
    fallback_reason = fallback_reason;
    duplicate_suppressed = 0;
  }

  abbrev pub send_through :
      (RouteOverlayUnderlayInfo → Option Text)
      → ℕ
      → RouteOverlaySendMode
      → RouteEnvelope C
      → List RouteOverlayUnderlayInfo
      → RouteOverlaySendReport C
  send_through send now mode route [] =
      report_of route nothing_sent
        (some (bytes "no connected underlay matched the route overlay policy"))
  send_through send now mode route (first ∷ underlays) =
      let sending = try_underlays send now mode (first ∷ underlays) in
      report_of route sending (fallback_of sending)

  -- `send` is each underlay's answer to this route.
  unfoldable pub send_route :
      (RouteOverlayUnderlayInfo → Option Text)
      → ℕ
      → RouteOverlayPolicy
      → Map Text RouteOverlayUnderlayInfo
      → RouteEnvelope C
      → RouteOverlaySendReport C
  unfolding ordered_underlays try_underlays
  send_route send now policy underlays route =
      send_through send now policy.send_mode route (ordered_underlays policy underlays)
