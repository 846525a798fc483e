-- ===== src/Relay/Index.antt =====
-- The index of peers in a relay, and the sessions that it leads to.
use prima_db.Prelude.{
  ℕ, ◌≡◌, ◌≢◌, refl, sym, subst, Bool-cases, Option-cases, ◌⊎◌, inl, inr, true, Option, none, some,
  List, [], ◌∷◌, any, ◌==◌, arith,
}
use prima_db.Text.{Text}
use prima_db.Ord.{Ord, list_ord, nat_ord, eq_or_ne}
use prima_db.Map
use prima_db.Map.{Map}
use prima_db.Map.Laws.{get-empty, get-insert, get-remove}
use prima_db.Router.{Contents, PeerPresence, RoutePayload, RouteEnvelope}
use prima_db.Relay.{PresenceRecord, RouteRelaySession, RouteRelayCore, new_relay, insert_session}
use prima_db.Relay.Forward.{
  is_known, note_seen, announce, announce_in, unindex, presence_of, stamp, with_presence,
  take_route, forward_route, drop_session, disconnect_known, disconnect_session,
}

abbrev texts : Ord Text
texts = list_ord

module _ {C : Contents} where
  abbrev presence_peer : Option (PresenceRecord C) → Option Text
  presence_peer none = none
  presence_peer (some presence) = some presence.peer.peer_id

  unindexed-get :
      (presence : Option (PresenceRecord C)) (index : Map Text ℕ) (peer : Text) (id : ℕ)
      → Map.get (unindex presence index) peer ≡ some id
      → (Map.get index peer ≡ some id) × (presence_peer presence ≢ some peer)
  unindexed-get none index peer id h = (h, cc)
  unindexed-get (some presence) index peer id h = (
    ground (arith, get-remove index presence.peer.peer_id peer),
    λ e. ground (arith, get-remove index presence.peer.peer_id peer, texts.cmp_refl peer),
  )

module _ {C : Contents} {T : Type 0} where
  -- The peer that a session announced.
  abbrev pub peer_of : Map ℕ (RouteRelaySession C T) → ℕ → Option Text
  peer_of sessions id = presence_peer (presence_of (Map.get sessions id))

  -- The session announced the peer, or it is one of those that sent a route while the relay did not
  -- have them.
  abbrev pub Leads : List ℕ → Map ℕ (RouteRelaySession C T) → ℕ → Text → Type 0
  Leads strays sessions id peer =
      (peer_of sessions id ≡ some peer) ⊎ (any (λ stray. stray == id) strays ≡ true)

  abbrev Indexed : List ℕ → Map Text ℕ → Map ℕ (RouteRelaySession C T) → Type 0
  Indexed strays index sessions =
      (peer : Text) (id : ℕ) → Map.get index peer ≡ some id → Leads strays sessions id peer

  abbrev IsIndexed : List ℕ → RouteRelayCore C T → Type 0
  IsIndexed strays core = Indexed strays core.peer_index core.sessions

  -- What leads to a session still does, if the session's peer stays.
  Leads-stays :
      (strays : List ℕ) (sessions later : Map ℕ (RouteRelaySession C T)) (id : ℕ) (peer : Text)
      → (peer_of sessions id ≡ some peer → peer_of later id ≡ some peer)
      → Leads strays sessions id peer
      → Leads strays later id peer
  Leads-stays strays sessions later id peer f (inl announced) = inl (f announced)
  Leads-stays strays sessions later id peer f (inr stray) = inr stray

  opened-Indexed :
      (strays : List ℕ) (index : Map Text ℕ) (sessions : Map ℕ (RouteRelaySession C T)) (id : ℕ)
      (handle : T)
      → Map.get sessions id ≡ none
      → Indexed strays index sessions
      → Indexed strays index (Map.insert sessions id (record { handle = handle; presence = none }))
  opened-Indexed strays index sessions id handle fresh w peer at h =
      let opened = Map.insert sessions id (record { handle = handle; presence = none }) in
      Leads-stays strays sessions opened at peer
        (λ announced. ground (
          arith,
          get-insert sessions id (record { handle = handle; presence = none }) at,
          nat_ord.eq_of_cmp at id,
        ))
        (w peer at h)

  announced-Indexed :
      (strays : List ℕ) (index : Map Text ℕ) (sessions : Map ℕ (RouteRelaySession C T)) (id : ℕ)
      (session : RouteRelaySession C T) (peer : PeerPresence C) (route : RouteEnvelope C)
      → Map.get sessions id ≡ some session
      → Indexed strays index sessions
      → Indexed strays (Map.insert (unindex session.presence index) peer.peer_id id) (
          Map.insert sessions id
            (record session { presence = some (record { peer = peer; route = route }) }))
  announced-Indexed strays index sessions id session peer route known w q at h =
      let announced : RouteRelaySession C T = record session {
        presence = some (record { peer = peer; route = route });
      } in
      let later = Map.insert sessions id announced in
      let written = get-insert sessions id announced at in
      let indexed = get-insert (unindex session.presence index) peer.peer_id id q in
      elim (eq_or_ne q peer.peer_id) [
        | inl same ↦ inl (
            ground (
              arith,
              written,
              indexed,
              texts.eq_of_cmp q peer.peer_id,
              texts.cmp_refl q,
              nat_ord.cmp_refl at,
            ))
        | inr different ↦
            let (before, other) =
              unindexed-get session.presence index q at
                (ground (arith, indexed, texts.eq_of_cmp q peer.peer_id)) in
            Leads-stays strays sessions later at q
              (λ e. ground (arith, written, nat_ord.eq_of_cmp at id)) (w q at before)
      ]

  more_strays :
      (strays : List ℕ) (sessions : Map ℕ (RouteRelaySession C T)) (stray id : ℕ) (peer : Text)
      → Leads strays sessions id peer
      → Leads (stray ∷ strays) sessions id peer
  more_strays strays sessions stray id peer (inl announced) = inl announced
  more_strays strays sessions stray id peer (inr known) = inr (ground arith)

  -- A presence from a session that the relay does not have.
  stray-Indexed :
      (strays : List ℕ) (index : Map Text ℕ) (sessions : Map ℕ (RouteRelaySession C T)) (id : ℕ)
      (peer : Text)
      → Indexed strays index sessions
      → Indexed (id ∷ strays) (Map.insert index peer id) sessions
  stray-Indexed strays index sessions id peer w q at h = elim (eq_or_ne q peer) [
    | inl same ↦
        inr (ground (arith, get-insert index peer id q, texts.eq_of_cmp q peer, texts.cmp_refl q))
    | inr different ↦
        more_strays strays sessions id at q
          (w q at (ground (arith, get-insert index peer id q, texts.eq_of_cmp q peer)))
  ]

  closed-Indexed :
      (strays : List ℕ) (index : Map Text ℕ) (sessions : Map ℕ (RouteRelaySession C T)) (id : ℕ)
      (session : RouteRelaySession C T)
      → Map.get sessions id ≡ some session
      → Indexed strays index sessions
      → Indexed strays (unindex session.presence index) (Map.remove sessions id)
  closed-Indexed strays index sessions id session known w q at h =
      let (before, other) = unindexed-get session.presence index q at h in
      Leads-stays strays sessions (Map.remove sessions id) at q
        (λ e. ground (arith, get-remove sessions id at, nat_ord.eq_of_cmp at id)) (w q at before)

  -- The states that a relay reaches, with the sessions that sent it a route while it did not have
  -- them. Sessions are opened under ids that are not in use.
  pub data Reached : List ℕ → RouteRelayCore C T → Type 0 where
    starts :
        (relay_peer_id : Text) (max_seen_routes : ℕ)
        → Reached [] (new_relay relay_peer_id max_seen_routes)
    opens_session :
        {strays : List ℕ} {core : RouteRelayCore C T}
        → Reached strays core
        → (id : ℕ) (handle : T) → Map.get core.sessions id ≡ none
        → Reached strays (insert_session core id handle)
    forwards :
        {strays : List ℕ} {core : RouteRelayCore C T}
        → Reached strays core
        → (stable_content_hash : RoutePayload C → Option Text) (now relay_id id : ℕ)
          (session : RouteRelaySession C T) (route : RouteEnvelope C)
        → Map.get core.sessions id ≡ some session
        → Reached strays (forward_route stable_content_hash now relay_id core id route).0
    forwards_stray :
        {strays : List ℕ} {core : RouteRelayCore C T}
        → Reached strays core
        → (stable_content_hash : RoutePayload C → Option Text) (now relay_id id : ℕ)
          (route : RouteEnvelope C)
        → Map.get core.sessions id ≡ none
        → Reached (id ∷ strays) (forward_route stable_content_hash now relay_id core id route).0
    disconnects :
        {strays : List ℕ} {core : RouteRelayCore C T}
        → Reached strays core
        → (stable_content_hash : RoutePayload C → Option Text) (now relay_id id : ℕ)
        → Reached strays (disconnect_session stable_content_hash now relay_id core id).0

  -- With the sender of a route, if the relay does not have it.
  abbrev with_sender : List ℕ → ℕ → Option (RouteRelaySession C T) → List ℕ
  with_sender strays id none = id ∷ strays
  with_sender strays id (some _) = strays

  Indexed-with_sender :
      (strays : List ℕ) (core : RouteRelayCore C T) (id : ℕ)
      (sender : Option (RouteRelaySession C T))
      → IsIndexed strays core
      → IsIndexed (with_sender strays id sender) core
  Indexed-with_sender strays core id none w q at h =
      more_strays strays core.sessions id at q (w q at h)
  Indexed-with_sender strays core id (some _) w q at h = w q at h

  announce_in-Indexed :
      (strays : List ℕ) (core : RouteRelayCore C T) (id : ℕ)
      (sender : Option (RouteRelaySession C T)) (peer : PeerPresence C) (route : RouteEnvelope C)
      → Map.get core.sessions id ≡ sender
      → IsIndexed strays core
      → Indexed
          (with_sender strays id sender)
          (Map.insert (unindex (presence_of sender) core.peer_index) peer.peer_id id)
          (announce_in sender id (record { peer = peer; route = route }) core.sessions)
  announce_in-Indexed strays core id none peer route known w =
      stray-Indexed strays core.peer_index core.sessions id peer.peer_id w
  announce_in-Indexed strays core id (some session) peer route known w =
      announced-Indexed strays core.peer_index core.sessions id session peer route known w

  announce-IsIndexed :
      (strays : List ℕ) (core : RouteRelayCore C T) (id : ℕ) (peer : PeerPresence C)
      (route : RouteEnvelope C)
      → IsIndexed strays core
      → IsIndexed (with_sender strays id (Map.get core.sessions id)) (announce core id peer route)
  unfolding announce
  announce-IsIndexed strays core id peer route w =
      announce_in-Indexed strays core id (Map.get core.sessions id) peer route refl w

  with_presence-IsIndexed :
      (stable_content_hash : RoutePayload C → Option Text) (now relay_id : ℕ) (strays : List ℕ)
      (core : RouteRelayCore C T) (id : ℕ) (route : RouteEnvelope C) (payload : RoutePayload C)
      → IsIndexed strays core
      → IsIndexed
          (with_sender strays id (Map.get core.sessions id))
          (with_presence stable_content_hash now relay_id core id route payload).0
  with_presence-IsIndexed hash now relay_id strays core id route (RoutePayload.presence peer) w =
      announce-IsIndexed strays core id peer route w
  with_presence-IsIndexed hash now relay_id strays core id route _ w =
      Indexed-with_sender strays core id (Map.get core.sessions id) w

  forward_route-IsIndexed :
      (stable_content_hash : RoutePayload C → Option Text) (now relay_id : ℕ) (strays : List ℕ)
      (core : RouteRelayCore C T) (id : ℕ) (route : RouteEnvelope C)
      → IsIndexed strays core
      → IsIndexed
          (with_sender strays id (Map.get core.sessions id))
          (forward_route stable_content_hash now relay_id core id route).0
  unfolding forward_route take_route note_seen
  forward_route-IsIndexed hash now relay_id strays core id route w =
      elim (Bool-cases (is_known core route)) [
        | inl old ↦ rw old (Indexed-with_sender strays core id (Map.get core.sessions id) w)
        | inr new ↦
            let passed = stamp hash now relay_id core route in
            rw new (
              with_presence-IsIndexed hash now relay_id strays (note_seen core now route) id passed
                passed.payload w)
      ]

  drop_session-IsIndexed :
      (stable_content_hash : RoutePayload C → Option Text) (now relay_id : ℕ) (strays : List ℕ)
      (core : RouteRelayCore C T) (id : ℕ) (presence : Option (PresenceRecord C))
      → Indexed strays (unindex presence core.peer_index) (Map.remove core.sessions id)
      → IsIndexed strays (drop_session stable_content_hash now relay_id core id presence).0
  drop_session-IsIndexed hash now relay_id strays core id none w = w
  drop_session-IsIndexed hash now relay_id strays core id (some presence) w = w

  disconnect_session-IsIndexed :
      (stable_content_hash : RoutePayload C → Option Text) (now relay_id : ℕ) (strays : List ℕ)
      (core : RouteRelayCore C T) (id : ℕ)
      → IsIndexed strays core
      → IsIndexed strays (disconnect_session stable_content_hash now relay_id core id).0
  unfolding disconnect_session
  disconnect_session-IsIndexed hash now relay_id strays core id w =
      let goal : Option (RouteRelaySession C T) → Type 0 =
        λ o. IsIndexed strays (disconnect_known hash now relay_id core id o).0 in
      elim (Option-cases (Map.get core.sessions id)) [
        | inl unknown ↦ subst goal (sym unknown) w
        | inr (session, known) ↦ subst goal (sym known) (
            drop_session-IsIndexed hash now relay_id strays core id session.presence
              (closed-Indexed strays core.peer_index core.sessions id session known w))
      ]

  Reached-IsIndexed :
      {strays : List ℕ} {core : RouteRelayCore C T} → Reached strays core → IsIndexed strays core
  unfolding new_relay insert_session
  Reached-IsIndexed (starts relay_peer_id max_seen_routes) =
      λ peer id h. inl (ground (arith, get-empty {V = ℕ} peer))
  Reached-IsIndexed (opens_session {strays} {core} r id handle fresh) =
      opened-Indexed strays core.peer_index core.sessions id handle fresh (Reached-IsIndexed r)
  Reached-IsIndexed (forwards {strays} {core} r hash now relay_id id session route known) =
      subst
        (λ o. IsIndexed (with_sender strays id o) (forward_route hash now relay_id core id route).0)
        known (forward_route-IsIndexed hash now relay_id strays core id route (Reached-IsIndexed r))
  Reached-IsIndexed (forwards_stray {strays} {core} r hash now relay_id id route unknown) =
      subst
        (λ o. IsIndexed (with_sender strays id o) (forward_route hash now relay_id core id route).0)
        unknown
        (forward_route-IsIndexed hash now relay_id strays core id route (Reached-IsIndexed r))
  Reached-IsIndexed (disconnects {strays} {core} r hash now relay_id id) =
      disconnect_session-IsIndexed hash now relay_id strays core id (Reached-IsIndexed r)

  -- In every state that a relay reaches, the index of peers leads to sessions that announced them,
  -- or to sessions that sent a route while the relay did not have them.
  pub indexed_peer :
      {strays : List ℕ} {core : RouteRelayCore C T} (peer : Text) (id : ℕ)
      → Reached strays core
      → Map.get core.peer_index peer ≡ some id
      → (peer_of core.sessions id ≡ some peer) ⊎ (any (λ stray. stray == id) strays ≡ true)
  indexed_peer peer id r h = Reached-IsIndexed r peer id h
