-- ===== src/Tests/Scopes.antt =====
-- The theorems on the policy of a path at concrete inputs.
use prima_db.Prelude.{◌≤◌, ◌≡◌, refl, inl, true, some, length}
use prima_db.Text.{Text, bytes}
use prima_db.Ord.{list_ord, nat_ord}
use prima_db.Map
use prima_db.Map.{Map}
use prima_db.Scope.{
  ScopePolicy, ScopeAuthority, ScopeConsistency, default_policy, node_matches_root, policy_for_path,
}
use prima_db.Scope.Lookup.{Within, policy_for_path_longest}
use prima_db.Tests.Data.{alice}

abbrev coordinated : ScopePolicy
coordinated = record default_policy {
  consistency = ScopeConsistency.coordinated;
  authority = some (ScopeAuthority.peer alice);
}

abbrev policies : Map Text ScopePolicy
policies = Map.insert (Map.insert Map.empty (bytes "a") default_policy) (bytes "a/b") coordinated

matches : node_matches_root (bytes "a/b/title") (bytes "a") ≡ true
unfolding node_matches_root list_ord nat_ord
matches = refl

within : Within policies.entries (bytes "a", default_policy)
unfolding Map.insert list_ord nat_ord
within = inl refl

policy_for_path_longest_example :
    (r : Text × ScopePolicy) × (policy_for_path policies (bytes "a/b/title") ≡ some r)
    × (Within policies.entries r
        × ((node_matches_root (bytes "a/b/title") r.0 ≡ true) × (length (bytes "a") ≤ length r.0)))
policy_for_path_longest_example =
    policy_for_path_longest policies (bytes "a/b/title") (bytes "a", default_policy) within matches
