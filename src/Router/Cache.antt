-- ===== src/Router/Cache.antt =====
-- The two caches of a router stay within their limit, and a route that is in them is not taken twice.
use prima_db.Prelude.{
  ℕ, zero, suc, ◌<◌, ◌≤◌, ◌+◌, ◌≡◌, refl, ap, ◌∙◌, Bool, true, false, Bool-cases, inl, inr, Option,
  none, some, List, [], ◌∷◌, length, is_some, if◌then◌else◌, arith,
}
use prima_db.Text.{Text}
use prima_db.Ord.{Ord, list_ord, nat_ord}
use prima_db.Map
use prima_db.Map.{Map, IsSorted}
use prima_db.Map.Entries.{insert_in, remove_in, remove_in-IsSorted}
use prima_db.Map.Laws.{get-insert_self}
use prima_db.Router.{Contents, RouteEnvelope, RouterConfig, RouterInner, RouteDecision}
use prima_db.Router.Accept.{
  trim_to, trim_seen_cache, note_content, dedupe_key, seen_by_peer, is_duplicate, remember_route,
  duplicate_decision, accept,
}

abbrev texts : Ord Text
texts = list_ord

length-remove_first :
    (k : Text) (at : ℕ) (rest : List (Text × ℕ))
    → length (remove_in ((k, at) ∷ rest) k) ≡ length rest
unfolding remove_in
length-remove_first k at rest = ground (arith, texts.cmp_refl k)

length-insert_in :
    (entries : List (Text × ℕ)) (k : Text) (at : ℕ)
    → length (insert_in entries k at) ≤ length entries + 1
unfolding insert_in
length-insert_in [] k at = ground arith
length-insert_in ((j, at') ∷ rest) k at = ground (arith, length-insert_in rest k at)

len-trim_to :
    (max_seen_routes fuel : ℕ) (entries : List (Text × ℕ)) (s : IsSorted entries)
    → length entries ≤ max_seen_routes + fuel
    → Map.len (trim_to max_seen_routes fuel (record { entries = entries; sorted = s }))
      ≤ max_seen_routes
unfolding trim_to Map.remove
len-trim_to m zero entries s h = omega arith
len-trim_to m (suc fuel) [] s h = ground arith
len-trim_to m (suc fuel) ((k, at) ∷ rest) s h =
    let shorter = remove_in ((k, at) ∷ rest) k in
    let next =
      len-trim_to m fuel shorter (remove_in-IsSorted ((k, at) ∷ rest) k s)
        (omega (arith, length-remove_first k at rest)) in
    ground arith

-- The loop of `trim_seen_cache` ends, with no more entries than the limit.
pub len-trim_seen_cache :
    (seen : Map Text ℕ) (max_seen_routes : ℕ)
    → Map.len (trim_seen_cache seen max_seen_routes) ≤ max_seen_routes
unfolding trim_seen_cache
len-trim_seen_cache seen m = len-trim_to m (Map.len seen) seen.entries seen.sorted (omega arith)

trim_to_fits :
    (max_seen_routes fuel : ℕ) (seen : Map Text ℕ)
    → Map.len seen ≤ max_seen_routes
    → trim_to max_seen_routes fuel seen ≡ seen
unfolding trim_to
trim_to_fits m zero seen h = refl
trim_to_fits m (suc fuel) seen h = ground arith

pub len-note_content :
    (now max_seen_routes : ℕ) (key : Option Text) (seen : Map Text ℕ)
    → Map.len seen ≤ max_seen_routes
    → Map.len (note_content now max_seen_routes key seen) ≤ max_seen_routes
unfolding note_content
len-note_content now m none seen h = h
len-note_content now m (some key) seen h = len-trim_seen_cache (Map.insert seen key now) m

pub kept_in_cache :
    (seen : Map Text ℕ) (key : Text) (now max_seen_routes : ℕ)
    → Map.len seen < max_seen_routes
    → Map.contains_key (trim_seen_cache (Map.insert seen key now) max_seen_routes) key ≡ true
unfolding trim_seen_cache Map.insert
kept_in_cache seen key now m room =
    let inserted = Map.insert seen key now in
    let kept =
      trim_to_fits m (Map.len inserted) inserted
        (omega (arith, length-insert_in seen.entries key now)) in
    ap (λ s. Map.contains_key s key) kept ∙ ap is_some (get-insert_self seen key now)

module _ {C : Contents} where
  -- Both caches hold no more routes than the configuration allows.
  pub record IsBounded (config : RouterConfig) (inner : RouterInner C) : Type 0 where
    pub routes : Map.len inner.seen_routes ≤ config.max_seen_routes
    pub content : Map.len inner.seen_content ≤ config.max_seen_routes

  choose-IsBounded :
      (config : RouterConfig) (b : Bool) (s t : RouterInner C × RouteDecision C)
      → IsBounded config s.0
      → IsBounded config t.0
      → IsBounded config (if b then s else t).0
  choose-IsBounded config true s t ws wt = ws
  choose-IsBounded config false s t ws wt = wt

  -- Whatever envelope a router takes or refuses, its caches stay within the limit.
  pub accept-IsBounded :
      (config : RouterConfig) (inner : RouterInner C) (now : ℕ) (e : RouteEnvelope C)
      → IsBounded config inner
      → IsBounded config (accept config inner now e).0
  unfolding accept remember_route
  accept-IsBounded config inner now e w =
      choose-IsBounded config (is_duplicate config inner e) _ _
        (record { routes = w.routes; content = w.content })
        (record {
          routes =
              len-trim_seen_cache (Map.insert inner.seen_routes e.route_id now)
                config.max_seen_routes;
          content =
              len-note_content now config.max_seen_routes (dedupe_key e) inner.seen_content
                w.content;
        })

  routes_after :
      (config : RouterConfig) (inner : RouterInner C) (now : ℕ) (e : RouteEnvelope C)
      → is_duplicate config inner e ≡ false
      → (accept config inner now e).0.seen_routes
        ≡ trim_seen_cache (Map.insert inner.seen_routes e.route_id now) config.max_seen_routes
  unfolding accept remember_route
  routes_after config inner now e new = rw new refl

  known_is_duplicate :
      (config : RouterConfig) (inner : RouterInner C) (e : RouteEnvelope C)
      → Map.contains_key inner.seen_routes e.route_id ≡ true
      → is_duplicate config inner e ≡ true
  unfolding is_duplicate
  known_is_duplicate config inner e known = elim (Bool-cases (seen_by_peer config.peer_id e)) [
    | inl seen ↦ rw seen refl
    | inr unseen ↦ rw (unseen, known) refl
  ]

  duplicate-accept :
      (config : RouterConfig) (inner : RouterInner C) (now : ℕ) (e : RouteEnvelope C)
      → is_duplicate config inner e ≡ true
      → (accept config inner now e).1 ≡ duplicate_decision
  unfolding accept
  duplicate-accept config inner now e known = rw known refl

  -- Where a router takes an envelope while its cache of routes has room, it takes no other one with
  -- the same route id right after, whatever else the second holds and whatever the time is.
  accept_once :
      (config : RouterConfig) (inner : RouterInner C) (now later : ℕ) (e again : RouteEnvelope C)
      → is_duplicate config inner e ≡ false
      → Map.len inner.seen_routes < config.max_seen_routes
      → again.route_id ≡ e.route_id
      → (accept config (accept config inner now e).0 later again).1 ≡ duplicate_decision
  accept_once config inner now later e again new room same =
      let kept = kept_in_cache inner.seen_routes e.route_id now config.max_seen_routes room in
      let after = routes_after config inner now e new in
      duplicate-accept config (accept config inner now e).0 later again (
        known_is_duplicate config (accept config inner now e).0 again
          (rw same (ap (λ s. Map.contains_key s e.route_id) after ∙ kept)))
