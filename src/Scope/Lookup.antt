-- ===== src/Scope/Lookup.antt =====
-- The governing policy is that of the longest scope that contains the path.
use prima_db.Prelude.{
  ◌≤◌, ◌≡◌, refl, subst, ◌&&◌, ◌⊎◌, inl, inr, true, Option, none, some, List, [], ◌∷◌, length, leb,
  Bool-cases, arith,
}
use prima_db.Text.{Text}
use prima_db.Ord.{list_ord, nat_ord}
use prima_db.Map.{Map}
use prima_db.Scope.{ScopePolicy, node_matches_root, keep_longer, longest_match, policy_for_path}

abbrev Entry : Type 0
Entry = Text × ScopePolicy

abbrev pub Within : List Entry → Entry → Type 0
Within [] e = ⊥
Within (d ∷ rest) e = (e ≡ d) ⊎ Within rest e

-- A candidate is there only if it contains the path.
abbrev IsCandidate : Text → Option Entry → Type 0
IsCandidate path none = Unit
IsCandidate path (some b) = node_matches_root path b.0 ≡ true

keep_longer-IsCandidate :
    (path : Text) (best : Option Entry) (e : Entry)
    → IsCandidate path best
    → IsCandidate path (keep_longer path best e)
unfolding keep_longer
keep_longer-IsCandidate path none e c = elim (Bool-cases (node_matches_root path e.0)) [
  | inl m ↦ rw m m
  | inr m ↦ rw m tt
]
keep_longer-IsCandidate path (some b) e c =
    elim (Bool-cases (node_matches_root path e.0 && leb (length b.0) (length e.0))) [
      | inl longer ↦ rw longer (ground arith)
      | inr kept ↦ rw kept c
    ]

-- After a step the candidate is at least as long as what contains the path.
keep_longer_at_least :
    (path : Text) (best : Option Entry) (e : Entry)
    → node_matches_root path e.0 ≡ true
    → (c : Entry) × (keep_longer path best e ≡ some c) × (length e.0 ≤ length c.0)
unfolding keep_longer
keep_longer_at_least path none e m = (e, rw m, omega arith)
keep_longer_at_least path (some b) e m = elim (Bool-cases (leb (length b.0) (length e.0))) [
  | inl longer ↦ (e, rw (m, longer), omega arith)
  | inr kept ↦ (b, rw (m, kept), ground arith)
]

keep_longer_grows :
    (path : Text) (b e : Entry)
    → (c : Entry) × (keep_longer path (some b) e ≡ some c) × (length b.0 ≤ length c.0)
unfolding keep_longer
keep_longer_grows path b e =
    elim (Bool-cases (node_matches_root path e.0 && leb (length b.0) (length e.0))) [
      | inl longer ↦ (e, rw longer, ground arith)
      | inr kept ↦ (b, rw kept, omega arith)
    ]

longest_match_grows :
    (path : Text) (l : List Entry) (b : Entry)
    → (r : Entry) × (longest_match path (some b) l ≡ some r) × (length b.0 ≤ length r.0)
unfolding longest_match
longest_match_grows path [] b = (b, refl, omega arith)
longest_match_grows path (e ∷ l) b =
    let (c, ec, lc) = keep_longer_grows path b e in
    let (r, er, lr) = longest_match_grows path l c in (r, rw ec er, omega arith)

longest_match_at_least :
    (path : Text) (l : List Entry) (best : Option Entry) (e : Entry)
    → Within l e
    → node_matches_root path e.0 ≡ true
    → (r : Entry) × (longest_match path best l ≡ some r) × (length e.0 ≤ length r.0)
unfolding longest_match
longest_match_at_least path [] best e w m = absurd w
longest_match_at_least path (d ∷ l) best e (inl p) m =
    let (c, ec, lc) = keep_longer_at_least path best e m in
    let (r, er, lr) = longest_match_grows path l c in (r, rw (← p, ec) er, omega arith)
longest_match_at_least path (d ∷ l) best e (inr w) m =
    longest_match_at_least path l (keep_longer path best d) e w m

keep_longer_origin :
    (path : Text) (best : Option Entry) (e r : Entry)
    → keep_longer path best e ≡ some r
    → (best ≡ some r) ⊎ (r ≡ e)
unfolding keep_longer
keep_longer_origin path none e r h = ground arith
keep_longer_origin path (some b) e r h = ground arith

longest_match_origin :
    (path : Text) (l : List Entry) (best : Option Entry) (r : Entry)
    → IsCandidate path best
    → longest_match path best l ≡ some r
    → ((best ≡ some r) ⊎ Within l r) × (node_matches_root path r.0 ≡ true)
unfolding longest_match
longest_match_origin path [] best r c h = (inl h, subst (IsCandidate path) h c)
longest_match_origin path (d ∷ l) best r c h =
    let (o, m) =
      longest_match_origin path l (keep_longer path best d) r
        (keep_longer-IsCandidate path best d c) h in
    (ground (arith, keep_longer_origin path best d r), m)

-- The policy that governs a path is that of one of the scopes that contain the path.
policy_for_path_sound :
    (policies : Map Text ScopePolicy) (path : Text) (r : Entry)
    → policy_for_path policies path ≡ some r
    → Within policies.entries r × (node_matches_root path r.0 ≡ true)
unfolding policy_for_path
policy_for_path_sound policies path r h =
    let (o, m) = longest_match_origin path policies.entries none r tt h in (ground arith, m)

-- Where a scope contains a path, the path is governed by one of the scopes that contain it, and by
-- one at least as long.
pub policy_for_path_longest :
    (policies : Map Text ScopePolicy) (path : Text) (e : Entry)
    → Within policies.entries e
    → node_matches_root path e.0 ≡ true
    → (r : Entry) × (policy_for_path policies path ≡ some r)
      × (Within policies.entries r
          × ((node_matches_root path r.0 ≡ true) × (length e.0 ≤ length r.0)))
unfolding policy_for_path
policy_for_path_longest policies path e w m =
    let (r, found, longer) = longest_match_at_least path policies.entries none e w m in
    let (known, contains) = policy_for_path_sound policies path r found in
    (r, found, (known, (contains, longer)))
