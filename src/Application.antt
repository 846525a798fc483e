-- ===== src/Application.antt =====
-- app_route.rs: the messages of applications and the bus that hands them to subscribers. `J` stands
-- for `serde_json::Value` and `V` for the verified identity. A subscriber's channel is bounded:
-- here it is the list of the events in it.
use prima_db.Prelude.{
  ℕ, ◌+◌, ◌≤◌, ◌≡◌, Bool, true, false, not, ◌&&◌, Option, none, some, List, [], ◌∷◌, ◌++◌, retain,
  length, length-append, is_some_and, All, ltb, if◌then◌else◌, arith,
}
use prima_db.Text.{Text}
use prima_db.Ord.{list_ord, nat_ord, ◌=?◌}
use prima_db.Map.{Map}
use prima_db.Router.{RouteTarget}

pub data RouteTransportKind : Type 0 where
  web_socket moq web_rtc broadcast_channel in_memory : RouteTransportKind

pub record ApplicationRouteMessage (J : Type 0) : Type 0 where
  pub namespace : Text
  pub protocol : Text
  pub topic : Option Text
  pub body : J
  pub metadata : Map Text J

pub data ApplicationRouteAuthStatus : Type 0 where
  unknown not_required unauthenticated authenticated required_but_missing :
      ApplicationRouteAuthStatus

pub record ApplicationRouteContext : Type 0 where
  pub source_peer_id : Text
  pub transport : RouteTransportKind
  pub underlay_id : Option Text
  pub direct : Bool
  pub relay_routed : Bool
  pub gateway_routed : Bool
  pub gateway_peer_id : Option Text
  pub auth_status : ApplicationRouteAuthStatus
  pub provenance : List Text

pub record ApplicationRouteEvent (J V : Type 0) : Type 0 where
  pub route_id : Text
  pub from : Text
  pub channel : Text
  pub target : RouteTarget
  pub issued_at_millis : ℕ
  pub received_at_millis : ℕ
  pub transport : RouteTransportKind
  pub verified_identity : Option V
  pub context : ApplicationRouteContext
  pub message : ApplicationRouteMessage J

pub record ApplicationRouteFilter : Type 0 where
  pub namespace : Option Text
  pub protocol : Option Text
  pub topic : Option Text

-- `ApplicationRouteContext::new`
abbrev pub new_context : Text → RouteTransportKind → ApplicationRouteContext
new_context source_peer_id transport = record {
  source_peer_id = source_peer_id;
  transport = transport;
  underlay_id = none;
  direct = false;
  relay_routed = false;
  gateway_routed = false;
  gateway_peer_id = none;
  auth_status = ApplicationRouteAuthStatus.unknown;
  provenance = [];
}

-- `is_none_or`
abbrev pub is_none_or : Option Text → (Text → Bool) → Bool
is_none_or none test = true
is_none_or (some text) test = test text

unfoldable pub filter_matches :
    {J : Type 0} → ApplicationRouteFilter → ApplicationRouteMessage J → Bool
filter_matches filter message =
    is_none_or filter.namespace (λ namespace. namespace =? message.namespace)
    && (is_none_or filter.protocol (λ protocol. protocol =? message.protocol)
        && is_none_or filter.topic
            (λ topic. is_some_and message.topic (λ candidate. candidate =? topic)))

pub record ApplicationRouteSubscriber (J V : Type 0) : Type 0 where
  pub filter : ApplicationRouteFilter
  pub queue : List (ApplicationRouteEvent J V)
  pub is_closed : Bool

module _ {J V : Type 0} where
  -- `ApplicationRouteBus::subscribe`; the channel is empty.
  abbrev pub subscribe :
      List (ApplicationRouteSubscriber J V)
      → ApplicationRouteFilter
      → List (ApplicationRouteSubscriber J V)
  subscribe subscribers filter =
      subscribers ++ record { filter = filter; queue = []; is_closed = false } ∷ []

  -- `ApplicationRouteSubscription::try_recv`
  abbrev pub try_recv :
      ApplicationRouteSubscriber J V
      → Option (ApplicationRouteEvent J V) × ApplicationRouteSubscriber J V
  try_recv subscriber = elim subscriber.queue [
    | [] ↦ (none, subscriber)
    | event ∷ later ↦ (some event, record subscriber { queue = later })
  ]

  -- `ApplicationRouteSubscription::drain`
  abbrev pub drain :
      ApplicationRouteSubscriber J V
      → List (ApplicationRouteEvent J V) × ApplicationRouteSubscriber J V
  drain subscriber = (subscriber.queue, record subscriber { queue = [] })

module _ {J V : Type 0} (capacity : ℕ) (event : ApplicationRouteEvent J V) where
  -- The filter matches, and `try_send` finds room in the channel.
  abbrev pub takes : ApplicationRouteSubscriber J V → Bool
  takes subscriber =
      filter_matches subscriber.filter event.message && ltb (length subscriber.queue) capacity

  abbrev pub deliver : ApplicationRouteSubscriber J V → ApplicationRouteSubscriber J V
  deliver subscriber =
      if takes subscriber
      then record subscriber { queue = subscriber.queue ++ event ∷ [] }
      else subscriber

  unfoldable pub deliver_all :
      List (ApplicationRouteSubscriber J V) → List (ApplicationRouteSubscriber J V) × ℕ
  unfolding filter_matches
  deliver_all [] = ([], 0)
  deliver_all (subscriber ∷ subscribers) =
      let (later, delivered) = deliver_all subscribers in
      (deliver subscriber ∷ later, if takes subscriber then delivered + 1 else delivered)

  -- `ApplicationRouteBus::publish`
  unfoldable pub publish :
      List (ApplicationRouteSubscriber J V) → List (ApplicationRouteSubscriber J V) × ℕ
  unfolding deliver_all
  publish subscribers = deliver_all (retain (λ s. not s.is_closed) subscribers)

  abbrev pub queued : List (ApplicationRouteSubscriber J V) → ℕ
  queued [] = 0
  queued (subscriber ∷ subscribers) = length subscriber.queue + queued subscribers

  deliver_all-queued :
      (subscribers : List (ApplicationRouteSubscriber J V))
      → queued (deliver_all subscribers).0 ≡ queued subscribers + (deliver_all subscribers).1
  unfolding deliver_all
  deliver_all-queued [] = omega arith
  deliver_all-queued (s ∷ subscribers) =
      ground (arith, deliver_all-queued subscribers, length-append s.queue (event ∷ []))

  abbrev pub IsWithin : ApplicationRouteSubscriber J V → Type 0
  IsWithin subscriber = length subscriber.queue ≤ capacity

  deliver_all-IsWithin :
      (subscribers : List (ApplicationRouteSubscriber J V))
      → All IsWithin subscribers
      → All IsWithin (deliver_all subscribers).0
  unfolding deliver_all
  deliver_all-IsWithin [] a = tt
  deliver_all-IsWithin (s ∷ subscribers) a =
      (ground (arith, length-append s.queue (event ∷ [])), deliver_all-IsWithin subscribers a.1)

  retain_open-IsWithin :
      (subscribers : List (ApplicationRouteSubscriber J V))
      → All IsWithin subscribers
      → All IsWithin (retain (λ s. not s.is_closed) subscribers)
  retain_open-IsWithin [] a = tt
  retain_open-IsWithin (s ∷ subscribers) a = ground (arith, retain_open-IsWithin subscribers a.1)

  -- Publishing keeps every queue within the capacity, and the number that it returns is that of the
  -- events that it added to the queues of the open subscribers.
  pub publish-IsWithin :
      (subscribers : List (ApplicationRouteSubscriber J V))
      → All IsWithin subscribers
      → All IsWithin (publish subscribers).0
        × (queued (publish subscribers).0
            ≡ queued (retain (λ s. not s.is_closed) subscribers) + (publish subscribers).1)
  unfolding publish
  publish-IsWithin subscribers a =
      let open_ones = retain (λ s. not s.is_closed) subscribers in
      (
        deliver_all-IsWithin open_ones (retain_open-IsWithin subscribers a),
        deliver_all-queued open_ones,
      )
