-- ===== src/Security/Roots.antt =====
-- The roots that operations write to, and the roots that a user may write to (auth.rs).
use prima_db.Prelude.{
  Bool, true, false, not, ◌&&◌, ◌||◌, Option, none, some, List, [], ◌∷◌, ◌++◌, any, all,
  if◌then◌else◌,
}
use prima_db.Text.{Text, bytes, starts_with}
use prima_db.Ord.{list_ord, nat_ord, ◌=?◌}
use prima_db.Graph.{Operation, source_node}
use prima_db.Storage.Keys.{split}
use prima_db.Security.{UserGrant, UserRecord, AuthClaims, SyncFrame, SecurityError, Result}

-- `text.split(separator).next().unwrap_or(text)`
abbrev pub first_of : List Text → Text → Text
first_of [] text = text
first_of (part ∷ parts) text = part

unfoldable pub root_for_node : Text → Text
unfolding split
root_for_node node = let first = first_of (split b'/' node) node in first_of (split b'~' first) node

unfoldable pub operation_roots : {J : Type 0} → Operation J → List Text
unfolding root_for_node
operation_roots op = root_for_node (source_node op.action) ∷ []

-- The loop's body, for the roots of one operation.
abbrev pub push_roots : List Text → List Text → List Text
push_roots roots [] = roots
push_roots roots (root ∷ more) =
    push_roots
      (if not (any (λ candidate. candidate =? root) roots) then roots ++ root ∷ [] else roots) more

unfoldable pub roots_from : {J : Type 0} → List Text → List (Operation J) → List Text
unfolding operation_roots
roots_from roots [] = roots
roots_from roots (op ∷ ops) = roots_from (push_roots roots (operation_roots op)) ops

unfoldable pub roots_for_ops : {J : Type 0} → List (Operation J) → List Text
unfolding roots_from
roots_for_ops ops = roots_from [] ops

unfoldable pub roots_for_frame : {J : Type 0} → SyncFrame J → List Text
unfolding roots_for_ops
roots_for_frame (SyncFrame.sync from message_id ops) = roots_for_ops ops
roots_for_frame (SyncFrame.ack from message_id applied) = []

-- `text.trim_start_matches(character)`
abbrev trim_start : Text → Text
trim_start [] = []
trim_start (c ∷ text) = let rest = trim_start text in if c =? b'~' then rest else c ∷ text

unfoldable pub owner_public_key_for_path : Text → Option Text
unfolding split starts_with
owner_public_key_for_path path =
    let root = first_of (split b'/' path) path in
    if not (starts_with root (bytes "~")) || starts_with root (bytes "~@")
    then none
    else some (trim_start root)

unfoldable pub matches_root : UserGrant → Text → Bool
matches_root grant candidate = grant.root =? bytes "*" || grant.root =? candidate

unfoldable pub can_write_roots : UserRecord → List Text → Bool
unfolding matches_root
can_write_roots user roots =
    all (λ root. any (λ grant. grant.write && matches_root grant root) user.grants) roots

-- `Vec::is_empty`
abbrev is_empty : List Text → Bool
is_empty [] = true
is_empty (_ ∷ _) = false

unfoldable pub authorize_roots : UserRecord → AuthClaims → List Text → Result Unit
unfolding can_write_roots
authorize_roots user claims actual_roots =
    if not (all (λ claimed. any (λ actual. actual =? claimed) actual_roots) claims.roots)
      && not (is_empty actual_roots)
    then Result.err (SecurityError.advertised claims.alias)
    else if not (is_empty actual_roots) && not (can_write_roots user actual_roots)
    then Result.err (SecurityError.unauthorized claims.alias)
    else Result.ok tt
