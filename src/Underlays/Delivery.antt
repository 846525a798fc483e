-- ===== src/Underlays/Delivery.antt =====
-- What a send through the underlays comes to.
use prima_db.Prelude.{
  ℕ, ◌≡◌, ◌≢◌, refl, subst, Bool, true, false, Bool-cases, ◌↔◌, ◌⊎◌, Option-cases, inl, inr, Option,
  none, some, List, [], ◌∷◌, All, All-map, All-sort_by, sort_by-All, retain-All_both, retain,
  if◌then◌else◌, arith,
}
use prima_db.Text.{Text}
use prima_db.Map
use prima_db.Map.{Map}
use prima_db.Ord.{list_ord, nat_ord}
use prima_db.Router.{Contents, RouteEnvelope}
use prima_db.Underlays.{
  RouteOverlaySendMode, RouteOverlayPolicy, RouteOverlayUnderlayInfo, Sending, is_allowed,
  goes_before, ordered_underlays, try_underlays, note_answer, send_through, send_route,
}

-- The underlay refuses the route.
abbrev pub Refuses : (RouteOverlayUnderlayInfo → Option Text) → RouteOverlayUnderlayInfo → Type 0
Refuses send info = send info ≢ none

-- The underlay is connected and the policy has nothing against it.
abbrev pub Allowed : RouteOverlayPolicy → RouteOverlayUnderlayInfo → Type 0
Allowed policy info =
    (info.connected ≡ true)
    × (((policy.require_direct ≡ false) ⊎ (info.direct ≡ true))
        × (((policy.allow_direct ≡ true) ⊎ (info.direct ≡ false))
            × ((policy.allow_relay ≡ true) ⊎ (info.relay_routed ≡ false))))

-- The underlay is not connected, or the policy is against it.
abbrev pub Forbidden : RouteOverlayPolicy → RouteOverlayUnderlayInfo → Type 0
Forbidden policy info =
    (info.connected ≡ false)
    ⊎ (((policy.require_direct ≡ true) × (info.direct ≡ false))
        ⊎ (((policy.allow_direct ≡ false) × (info.direct ≡ true))
            ⊎ ((policy.allow_relay ≡ false) × (info.relay_routed ≡ true))))

is_allowed-Allowed :
    (policy : RouteOverlayPolicy) (info : RouteOverlayUnderlayInfo)
    → is_allowed policy info ≡ true
    → Allowed policy info
unfolding is_allowed
is_allowed-Allowed policy info h = ground arith

is_allowed-Forbidden :
    (policy : RouteOverlayPolicy) (info : RouteOverlayUnderlayInfo)
    → is_allowed policy info ≡ false
    → Forbidden policy info
unfolding is_allowed
is_allowed-Forbidden policy info h = ground arith

Forbidden-is_allowed :
    (policy : RouteOverlayPolicy) (info : RouteOverlayUnderlayInfo)
    → is_allowed policy info ≡ true
    → Forbidden policy info
    → ⊥
unfolding is_allowed
Forbidden-is_allowed policy info h f = ground arith

-- One of the underlays.
abbrev pub Among : RouteOverlayUnderlayInfo → List RouteOverlayUnderlayInfo → Type 0
Among info [] = ⊥
Among info (first ∷ infos) = (info ≡ first) ⊎ Among info infos

Among-longer :
    (first : RouteOverlayUnderlayInfo) (infos rest : List RouteOverlayUnderlayInfo)
    → All (λ info. Among info infos) rest
    → All (λ info. Among info (first ∷ infos)) rest
Among-longer first infos [] a = tt
Among-longer first infos (info ∷ rest) a = (inr a.0, Among-longer first infos rest a.1)

All-Among : (infos : List RouteOverlayUnderlayInfo) → All (λ info. Among info infos) infos
All-Among [] = tt
All-Among (info ∷ infos) = (inl refl, Among-longer info infos infos (All-Among infos))

-- An underlay through which a route may be sent.
abbrev IsChoice :
    RouteOverlayPolicy → List RouteOverlayUnderlayInfo → RouteOverlayUnderlayInfo → Type 0
IsChoice policy infos info = Allowed policy info × Among info infos

ordered_underlays-IsChoice :
    (policy : RouteOverlayPolicy) (underlays : Map Text RouteOverlayUnderlayInfo)
    → All (IsChoice policy (Map.values underlays)) (ordered_underlays policy underlays)
unfolding ordered_underlays
ordered_underlays-IsChoice policy underlays =
    let infos = Map.values underlays in
    All-sort_by (IsChoice policy infos) (goes_before policy) (retain (is_allowed policy) infos) (
      All-map (retain (is_allowed policy) infos)
        (λ info c. (is_allowed-Allowed policy info c.1, c.0))
        (retain-All_both (λ info. Among info infos) (is_allowed policy) infos (All-Among infos)))

module _ (send : RouteOverlayUnderlayInfo → Option Text) (policy : RouteOverlayPolicy) where
  untried_cases :
      (infos : List RouteOverlayUnderlayInfo)
      → All (Refuses send) (retain (is_allowed policy) infos)
      → All (λ info. Forbidden policy info ⊎ Refuses send info) infos
  untried_cases [] a = tt
  untried_cases (info ∷ infos) a =
      let kept : Bool → List RouteOverlayUnderlayInfo = λ b.
        if b then info ∷ retain (is_allowed policy) infos else retain (is_allowed policy) infos in
      elim (Bool-cases (is_allowed policy info)) [
        | inl allowed ↦
            let (here, rest) = subst (λ b. All (Refuses send) (kept b)) allowed a in
            (inr here, untried_cases infos rest)
        | inr forbidden ↦ (
          inl (is_allowed-Forbidden policy info forbidden),
          untried_cases infos (subst (λ b. All (Refuses send) (kept b)) forbidden a),
        )
      ]

  refused_if_allowed :
      (info : RouteOverlayUnderlayInfo)
      → is_allowed policy info ≡ true
      → Forbidden policy info ⊎ Refuses send info
      → Refuses send info
  refused_if_allowed info allowed (inl forbidden) =
      absurd (Forbidden-is_allowed policy info allowed forbidden)
  refused_if_allowed info allowed (inr refuses) = refuses

  choices_refuse :
      (infos : List RouteOverlayUnderlayInfo)
      → All (λ info. Forbidden policy info ⊎ Refuses send info) infos
      → All (Refuses send) (retain (is_allowed policy) infos)
  choices_refuse infos a =
      All-map (retain (is_allowed policy) infos) (λ info c. refused_if_allowed info c.1 c.0)
        (retain-All_both (λ info. Forbidden policy info ⊎ Refuses send info) (is_allowed policy)
          infos a)

  ordered_underlays-Refuses :
      (underlays : Map Text RouteOverlayUnderlayInfo)
      → All (Refuses send) (ordered_underlays policy underlays)
        ↔ All (λ info. Forbidden policy info ⊎ Refuses send info) (Map.values underlays)
  unfolding ordered_underlays
  ordered_underlays-Refuses underlays =
      let infos = Map.values underlays in
      (
        λ a.
            untried_cases infos (
              sort_by-All (Refuses send) (goes_before policy) (retain (is_allowed policy) infos) a),
        λ a.
            All-sort_by (Refuses send) (goes_before policy) (retain (is_allowed policy) infos)
              (choices_refuse infos a),
      )

module _ (send : RouteOverlayUnderlayInfo → Option Text) (now : ℕ)
    (P : RouteOverlayUnderlayInfo → Type 0) where
  note_answer-All :
      (mode : RouteOverlaySendMode) (info : RouteOverlayUnderlayInfo) (later : Sending)
      (answer : Option Text)
      → P info
      → All (λ attempt. P attempt.underlay) later.attempts
      → All (λ attempt. P attempt.underlay) (note_answer now mode info later answer).attempts
  note_answer-All RouteOverlaySendMode.first_success info later none p a = (p, tt)
  note_answer-All RouteOverlaySendMode.fan_out info later none p a = (p, a)
  note_answer-All mode info later (some error) p a = (p, a)

  try_underlays-All :
      (mode : RouteOverlaySendMode) (infos : List RouteOverlayUnderlayInfo)
      → All P infos
      → All (λ attempt. P attempt.underlay) (try_underlays send now mode infos).attempts
  unfolding try_underlays
  try_underlays-All mode [] a = tt
  try_underlays-All mode (info ∷ infos) a =
      note_answer-All mode info (try_underlays send now mode infos) (send info) a.0
        (try_underlays-All mode infos a.1)

  send_through-All :
      {C : Contents} (mode : RouteOverlaySendMode) (route : RouteEnvelope C)
      (infos : List RouteOverlayUnderlayInfo)
      → All P infos
      → All (λ attempt. P attempt.underlay) (send_through send now mode route infos).attempts
  send_through-All mode route [] a = tt
  send_through-All mode route (info ∷ infos) a = try_underlays-All mode (info ∷ infos) a

module _ (send : RouteOverlayUnderlayInfo → Option Text) (now : ℕ) where
  -- Nothing is delivered just where every underlay refuses.
  delivered_none :
      (mode : RouteOverlaySendMode) (infos : List RouteOverlayUnderlayInfo)
      → (try_underlays send now mode infos).delivered ≡ []
      → All (Refuses send) infos
  unfolding try_underlays
  delivered_none mode [] h = tt
  delivered_none mode (info ∷ infos) h = elim (Option-cases (send info)) [
    | inl taken ↦ absurd (ground arith)
    | inr (error, refused) ↦ (λ e. ground arith, delivered_none mode infos (ground arith))
  ]

  none_delivers :
      (mode : RouteOverlaySendMode) (infos : List RouteOverlayUnderlayInfo)
      → All (Refuses send) infos
      → (try_underlays send now mode infos).delivered ≡ []
  unfolding try_underlays
  none_delivers mode [] a = refl
  none_delivers mode (info ∷ infos) a = elim (Option-cases (send info)) [
    | inl taken ↦ absurd (a.0 taken)
    | inr (error, refused) ↦ rw refused (none_delivers mode infos a.1)
  ]

module _ {C : Contents} (send : RouteOverlayUnderlayInfo → Option Text) (now : ℕ)
    (policy : RouteOverlayPolicy) (underlays : Map Text RouteOverlayUnderlayInfo)
    (route : RouteEnvelope C) where
  send_through_none :
      (infos : List RouteOverlayUnderlayInfo)
      → ((send_through send now policy.send_mode route infos).delivered_underlay_ids ≡ [])
        ↔ All (Refuses send) infos
  send_through_none [] = (λ h. tt, λ a. refl)
  send_through_none (info ∷ infos) = (
    delivered_none send now policy.send_mode (info ∷ infos),
    none_delivers send now policy.send_mode (info ∷ infos),
  )

  -- A route is tried only through underlays of the session that are connected and that the policy
  -- does not forbid; and it is delivered through none just where each underlay of the session
  -- refuses it, is not connected or is forbidden by the policy.
  pub send_route-Allowed :
      All
        (λ attempt. Allowed policy attempt.underlay × Among attempt.underlay (Map.values underlays))
        (send_route send now policy underlays route).attempts
      × (((send_route send now policy underlays route).delivered_underlay_ids ≡ [])
          ↔ All (λ info. Forbidden policy info ⊎ Refuses send info) (Map.values underlays))
  unfolding send_route
  send_route-Allowed =
      let infos = ordered_underlays policy underlays in
      let (forth, back) = ordered_underlays-Refuses send policy underlays in
      let (refused, undelivered) = send_through_none infos in
      (
        send_through-All send now (IsChoice policy (Map.values underlays)) policy.send_mode route
            infos (ordered_underlays-IsChoice policy underlays),
        (λ h. forth (refused h), λ a. undelivered (back a)),
      )
