-- ===== src/Scope.antt =====
-- consistency.rs and the policy lookup of db.rs: which scope governs a path, and who may write in it.
pub mod Lookup
use prima_db.Prelude.{
  ℕ, Bool, true, false, ◌||◌, ◌&&◌, Option, none, some, List, [], ◌∷◌, ◌++◌, length, any, leb,
  if◌then◌else◌,
}
use prima_db.Text.{Text, bytes, starts_with}
use prima_db.Ord.{list_ord, nat_ord, ◌=?◌}
use prima_db.Map.{Map}

pub data ScopeConsistency : Type 0 where
  eventual local_transactional coordinated : ScopeConsistency

pub data ScopeAuthority : Type 0 where
  peer : Text → ScopeAuthority
  full_node : Text → ScopeAuthority
  quorum : List Text → ℕ → ScopeAuthority

pub data ScopeIsolation : Type 0 where
  serializable : ScopeIsolation

pub data ScopeReadMode : Type 0 where
  cached authority quorum : ScopeReadMode

pub data ScopeOfflineWrites : Type 0 where
  reject queue_provisional : ScopeOfflineWrites

pub record ScopePolicy : Type 0 where
  pub consistency : ScopeConsistency
  pub authority : Option ScopeAuthority
  pub isolation : ScopeIsolation
  pub read_mode : ScopeReadMode
  pub offline_writes : ScopeOfflineWrites

-- `ScopePolicy::default`
abbrev pub default_policy : ScopePolicy
default_policy = record {
  consistency = ScopeConsistency.eventual;
  authority = none;
  isolation = ScopeIsolation.serializable;
  read_mode = ScopeReadMode.cached;
  offline_writes = ScopeOfflineWrites.reject;
}

unfoldable pub node_matches_root : Text → Text → Bool
unfolding starts_with
node_matches_root node_id root = (node_id =? root) || starts_with node_id (root ++ bytes "/")

-- The id of the actor itself, or with one of the two prefixes.
unfoldable pub names_actor : Text → Text → Bool
names_actor actor peer_id =
    (peer_id =? actor)
    || ((peer_id =? (bytes "native:" ++ actor)) || (peer_id =? (bytes "full-node:" ++ actor)))

unfoldable pub authority_matches : Text → ScopeAuthority → Bool
unfolding names_actor
authority_matches actor (ScopeAuthority.peer peer_id) = names_actor actor peer_id
authority_matches actor (ScopeAuthority.full_node peer_id) = names_actor actor peer_id
authority_matches actor (ScopeAuthority.quorum peers threshold) =
    leb threshold 1 && any (names_actor actor) peers

unfoldable pub scope_policy_matches_authority_actor : ScopePolicy → Text → Bool
unfolding authority_matches
scope_policy_matches_authority_actor policy actor = elim policy.authority [
  | none ↦ false
  | some named ↦ authority_matches actor named
]

-- One step of `filter` and `max_by_key`, which keeps the last of several longest.
unfoldable pub keep_longer :
    Text → Option (Text × ScopePolicy) → Text × ScopePolicy → Option (Text × ScopePolicy)
unfolding node_matches_root
keep_longer path none e = if node_matches_root path e.0 then some e else none
keep_longer path (some b) e =
    if node_matches_root path e.0 && leb (length b.0) (length e.0) then some e else some b

unfoldable pub longest_match :
    Text → Option (Text × ScopePolicy) → List (Text × ScopePolicy) → Option (Text × ScopePolicy)
unfolding keep_longer
longest_match path best [] = best
longest_match path best (e ∷ rest) = longest_match path (keep_longer path best e) rest

unfoldable pub policy_for_path : Map Text ScopePolicy → Text → Option (Text × ScopePolicy)
unfolding longest_match
policy_for_path policies path = longest_match path none policies.entries

abbrev pub is_coordinated : ScopeConsistency → Bool
is_coordinated ScopeConsistency.coordinated = true
is_coordinated _ = false

-- The test of `remote_operation_allowed`, for an author and a path.
unfoldable pub author_allowed : Map Text ScopePolicy → Text → Text → Bool
unfolding policy_for_path scope_policy_matches_authority_actor
author_allowed policies path author = elim (policy_for_path policies path) [
  | none ↦ true
  | some (scope, policy) ↦
      if is_coordinated policy.consistency
      then scope_policy_matches_authority_actor policy author
      else true
]
