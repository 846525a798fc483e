-- ===== src/Router/Loops.antt =====
-- Envelopes do not go round: a router takes no envelope that it has sent on, made or taken before,
-- and an envelope is sent on no more often than its time to live allows.
use prima_db.Prelude.{
  ℕ, ◌≤◌, ◌+◌, ◌≡◌, refl, Bool, true, false, Bool-cases, Option, some, List, [], ◌∷◌, ◌++◌, any,
  length, if◌then◌else◌, arith, ◌||◌, inl, inr, All, All-map,
}
use prima_db.Text.{Text}
use prima_db.Ord.{Ord, list_ord, nat_ord, ◌=?◌, eq_or_ne}
use prima_db.Router.{
  Contents, RouteTarget, RoutePayload, RouteEnvelope, RouterConfig, RouterInner, RouteDecision,
}
use prima_db.Router.Envelopes.{wrap_payload}
use prima_db.Router.Accept.{
  seen_by_peer, is_duplicate, matches_target, forward_of, duplicate_decision, accept,
}

abbrev texts : Ord Text
texts = list_ord

any-append_one :
    (p : Text → Bool) (xs : List Text) (x : Text) → any p (xs ++ x ∷ []) ≡ (any p xs || p x)
any-append_one p [] x = ground arith
any-append_one p (y ∷ xs) x = ground (arith, any-append_one p xs x)

module _ {C : Contents} where
  -- An envelope that names a router among those that have seen it is a duplicate to it.
  seen_by-accept :
      (config : RouterConfig) (inner : RouterInner C) (now : ℕ) (e : RouteEnvelope C)
      → seen_by_peer config.peer_id e ≡ true
      → (accept config inner now e).1 ≡ duplicate_decision
  unfolding accept is_duplicate
  seen_by-accept config inner now e h = rw h refl

  forward_seen :
      (config : RouterConfig) (e sent : RouteEnvelope C)
      → forward_of config e ≡ some sent
      → (seen_by_peer config.peer_id sent ≡ true) × (sent.ttl + 1 ≡ e.ttl) × (1 ≤ sent.ttl)
  unfolding forward_of
  forward_seen config e sent h = ground (
    arith,
    any-append_one (λ p. p =? config.peer_id) e.seen_by config.peer_id,
    texts.cmp_refl config.peer_id,
  )

  abbrev decided :
      Bool
      → Bool
      → Option (RouteEnvelope C)
      → RouterInner C
      → RouterInner C
      → RouterInner C × RouteDecision C
  decided is_known deliver forward s t =
      if is_known
      then (s, duplicate_decision)
      else (t, record { deliver = deliver; forward = forward; duplicate = false })

  decided_forwards :
      (is_known deliver : Bool) (forward : Option (RouteEnvelope C)) (s t : RouterInner C)
      (sent : RouteEnvelope C)
      → (decided is_known deliver forward s t).1.forward ≡ some sent
      → (is_known ≡ false) × (forward ≡ some sent)
  decided_forwards true deliver forward s t sent h = absurd (cc)
  decided_forwards false deliver forward s t sent h = (refl, h)

  not_seen :
      (config : RouterConfig) (inner : RouterInner C) (e : RouteEnvelope C)
      → is_duplicate config inner e ≡ false
      → seen_by_peer config.peer_id e ≡ false
  unfolding is_duplicate
  not_seen config inner e h = elim (Bool-cases (seen_by_peer config.peer_id e)) [
    | inl seen ↦ absurd (cc)
    | inr new ↦ new
  ]

  -- An envelope that is sent on is one that the router had not seen.
  accept_forwards :
      (config : RouterConfig) (inner : RouterInner C) (now : ℕ) (e sent : RouteEnvelope C)
      → (accept config inner now e).1.forward ≡ some sent
      → (seen_by_peer config.peer_id e ≡ false) × (forward_of config e ≡ some sent)
  unfolding accept
  accept_forwards config inner now e sent h =
      let (new, f) =
        decided_forwards (is_duplicate config inner e)
          (matches_target config.peer_id config.default_channel e) (forward_of config e) _ _ sent
          h in
      (not_seen config inner e new, f)

  forward_keeps :
      (config : RouterConfig) (e sent : RouteEnvelope C) (p : Text)
      → forward_of config e ≡ some sent
      → seen_by_peer p e ≡ true
      → seen_by_peer p sent ≡ true
  unfolding forward_of
  forward_keeps config e sent p h k =
      ground (arith, any-append_one (λ q. q =? p) e.seen_by config.peer_id)

  -- The way of an envelope: the routers that have sent it on, the last first, and what is sent.
  pub data Route (e : RouteEnvelope C) : List Text → RouteEnvelope C → Type 0 where
    made : Route e [] e
    sent_on :
        {path : List Text} {before after : RouteEnvelope C}
        → Route e path before
        → (config : RouterConfig) (inner : RouterInner C) (now : ℕ)
        → (accept config inner now before).1.forward ≡ some after
        → Route e (config.peer_id ∷ path) after

  -- However many routers send an envelope on, in whatever states they are, its time to live goes
  -- down by exactly one at each of them, so they are no more than the time to live it was made with.
  pub ttl-Route :
      (e last : RouteEnvelope C) (path : List Text)
      → Route e path last
      → length path + last.ttl ≡ e.ttl
  ttl-Route e last [] made = omega arith
  ttl-Route e last (p ∷ path) (sent_on {before} r config inner now h) =
      let before_it = ttl-Route e before path r in
      let step =
        forward_seen config before last (accept_forwards config inner now before last h).1 in
      omega arith

  -- Every router on the way is among those that have seen what is sent.
  path_seen :
      (e last : RouteEnvelope C) (path : List Text)
      → Route e path last
      → All (λ p. seen_by_peer p last ≡ true) path
  path_seen e last [] made = tt
  path_seen e last (p ∷ path) (sent_on {before} r config inner now h) =
      let f = (accept_forwards config inner now before last h).1 in
      (
        (forward_seen config before last f).0,
        All-map path (λ q seen. forward_keeps config before last q f seen)
            (path_seen e before path r),
      )

  seen_on_path :
      (last : RouteEnvelope C) (path : List Text) (p : Text)
      → All (λ q. seen_by_peer q last ≡ true) path
      → any (λ q. q =? p) path ≡ true
      → seen_by_peer p last ≡ true
  seen_on_path last [] p a h = absurd (cc)
  seen_on_path last (q ∷ path) p a h = elim (eq_or_ne q p) [
    | inl same ↦ rw (← same) a.0
    | inr different ↦ seen_on_path last path p a.1 (ground (arith, texts.eq_of_cmp q p))
  ]

  -- A router on the way of an envelope does not deliver what is sent, nor send it on again: whatever
  -- has happened to the router since, it is a duplicate.
  pub accept-Route :
      (e last : RouteEnvelope C) (path : List Text) (config : RouterConfig) (inner : RouterInner C)
      (now : ℕ)
      → Route e path last
      → any (λ q. q =? config.peer_id) path ≡ true
      → (accept config inner now last).1 ≡ duplicate_decision
  accept-Route e last path config inner now r on_path =
      seen_by-accept config inner now last
        (seen_on_path last path config.peer_id (path_seen e last path r) on_path)

  -- A router takes no envelope that it made itself.
  accept-wrap_payload :
      (stable_content_hash : RoutePayload C → Option Text) (config : RouterConfig)
      (before later : RouterInner C) (made_at now : ℕ) (payload : RoutePayload C)
      (target : RouteTarget) (reply_to : Option Text)
      → (accept config later now
          (wrap_payload stable_content_hash config before made_at payload target reply_to).1).1
        ≡ duplicate_decision
  unfolding wrap_payload
  accept-wrap_payload hash config before later made_at now payload target reply_to =
      seen_by-accept config later now
        (wrap_payload hash config before made_at payload target reply_to).1
        (ground (arith, texts.cmp_refl config.peer_id))
