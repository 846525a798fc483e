-- ===== src/Relay/Recipients.antt =====
-- A relay sends a route to sessions other than the one that it came from.
use prima_db.Prelude.{
  ℕ, ◌≡◌, ◌≢◌, refl, sym, subst, Bool-cases, Option-cases, inl, inr, Option, none, some, List, [],
  ◌∷◌, All, All-map, ◌==◌, arith,
}
use prima_db.Text.{Text}
use prima_db.Ord.{list_ord, nat_ord}
use prima_db.Map
use prima_db.Map.{Map, IsSorted}
use prima_db.Map.Entries.{get_in, get_in-Above}
use prima_db.Router.{Contents, RouteTarget, RoutePayload, RouteEnvelope}
use prima_db.Relay.{
  RouteRelaySession, RouteRelayCore, from_others, takes_broadcast, takes_topic, peer_recipient,
  recipients_of, collect_route_recipients,
}
use prima_db.Relay.Forward.{is_known, note_seen, stamp, with_presence, take_route, forward_route}

module _ {C : Contents} {T : Type 0} (sender_id : ℕ) where
  -- The handle is that of a session of this map other than the sender's.
  abbrev pub IsOther : Map ℕ (RouteRelaySession C T) → T → Type 0
  IsOther sessions handle =
      (id : ℕ) × (session : RouteRelaySession C T) × (id ≢ sender_id)
      × (Map.get sessions id ≡ some session)
      × (session.handle ≡ handle)

  abbrev IsOtherIn : List (ℕ × RouteRelaySession C T) → T → Type 0
  IsOtherIn sessions handle =
      (id : ℕ) × (session : RouteRelaySession C T) × (id ≢ sender_id)
      × (get_in sessions id ≡ some session)
      × (session.handle ≡ handle)

  -- A function that gives the handle of the session, where it gives one.
  abbrev GivesHandle : (RouteRelaySession C T → Option T) → Type 0
  GivesHandle f = (s : RouteRelaySession C T) (h : T) → f s ≡ some h → s.handle ≡ h

  skip_first :
      (j : ℕ) (s : RouteRelaySession C T) (sessions : List (ℕ × RouteRelaySession C T))
      → IsSorted ((j, s) ∷ sessions)
      → (h : T) → IsOtherIn sessions h
      → IsOtherIn ((j, s) ∷ sessions) h
  unfolding get_in
  skip_first j s sessions sorted h (id, session, other, known, handle) =
      (id, session, other, ground (arith, get_in-Above j sessions, nat_ord.eq_of_cmp id j), handle)

  from_others-IsOther :
      (f : RouteRelaySession C T → Option T) (sessions : List (ℕ × RouteRelaySession C T))
      → GivesHandle f
      → IsSorted sessions
      → All (IsOtherIn sessions) (from_others f sender_id sessions)
  unfolding get_in
  from_others-IsOther f [] gives sorted = tt
  from_others-IsOther f ((j, s) ∷ sessions) gives sorted =
      let later =
        All-map (from_others f sender_id sessions) (skip_first j s sessions sorted)
          (from_others-IsOther f sessions gives sorted.1) in
      elim (Bool-cases (j == sender_id)) [
        | inl sender ↦ rw sender later
        | inr other ↦ elim (Option-cases (f s)) [
          | inl nothing ↦ rw (other, nothing) later
          | inr (h, given) ↦
              rw (other, given)
                (
                  (j, s, λ e. ground arith, ground (arith, nat_ord.cmp_refl j), gives s h given),
                  later,
                )
        ]
      ]

  broadcast-GivesHandle : (channel : Text) → GivesHandle (takes_broadcast channel)
  broadcast-GivesHandle channel s h g = ground arith

  topic-GivesHandle : (topic : Text) → GivesHandle (takes_topic topic)
  topic-GivesHandle topic s h g = ground arith

  peer_recipient-IsOther :
      (core : RouteRelayCore C T) (indexed : Option ℕ)
      → All (IsOther core.sessions) (peer_recipient core sender_id indexed)
  peer_recipient-IsOther core none = tt
  peer_recipient-IsOther core (some id) = elim (Bool-cases (id == sender_id)) [
    | inl sender ↦ rw sender tt
    | inr other ↦ elim (Option-cases (Map.get core.sessions id)) [
      | inl unknown ↦ rw (other, unknown) tt
      | inr (session, known) ↦ rw (other, known) ((id, session, λ e. ground arith, known, refl), tt)
    ]
  ]

  recipients_of-IsOther :
      (core : RouteRelayCore C T) (channel : Text) (target : RouteTarget)
      → All (IsOther core.sessions) (recipients_of core sender_id channel target)
  unfolding Map.get
  recipients_of-IsOther core channel (RouteTarget.peer peer_id) =
      peer_recipient-IsOther core (Map.get core.peer_index peer_id)
  recipients_of-IsOther core channel RouteTarget.broadcast =
      from_others-IsOther (takes_broadcast channel) core.sessions.entries
        (broadcast-GivesHandle channel) core.sessions.sorted
  recipients_of-IsOther core channel (RouteTarget.topic topic) =
      from_others-IsOther (takes_topic topic) core.sessions.entries (topic-GivesHandle topic)
        core.sessions.sorted

module _ {C : Contents} {T : Type 0} (stable_content_hash : RoutePayload C → Option Text)
    (now relay_id : ℕ) where
  -- Whatever route a session sends, and to whatever target, the relay hands it to sessions that it
  -- has and never back to the sender's.
  pub forward_route-IsOther :
      (core : RouteRelayCore C T) (session_id : ℕ) (route : RouteEnvelope C)
      → let (after, forward) =
          forward_route stable_content_hash now relay_id core session_id route in
        All (IsOther session_id after.sessions) forward.recipients
  unfolding forward_route take_route collect_route_recipients
  forward_route-IsOther core session_id route = elim (Bool-cases (is_known core route)) [
    | inl known ↦ rw known tt
    | inr new ↦
        let passed = stamp stable_content_hash now relay_id core route in
        let after =
          (with_presence stable_content_hash now relay_id (note_seen core now route) session_id
            passed passed.payload).0 in
        let taken : forward_route stable_content_hash now relay_id core session_id route
            ≡ take_route stable_content_hash now relay_id core session_id route =
          rw new refl in
        subst (λ r. All (IsOther session_id r.0.sessions) r.1.recipients) (sym taken)
          (recipients_of-IsOther session_id after passed.channel passed.target)
  ]
