-- ===== src/Security/Spaces.antt =====
-- The spaces of users, whose paths begin with `~` and the user's key, and their roots (auth.rs).
use prima_db.Prelude.{true, ◌==◌, some, [], ◌∷◌, ◌≡◌, refl, arith}
use prima_db.Text.{Text, bytes, starts_with}
use prima_db.Ord.{list_ord, nat_ord}
use prima_db.Storage.Keys.{split}
use prima_db.Security.Roots.{first_of, root_for_node, owner_public_key_for_path}

begins_tilde :
    (first path : Text)
    → starts_with first (bytes "~") ≡ true
    → first_of (split b'~' first) path ≡ []
unfolding starts_with split
begins_tilde [] path h = absurd (cc)
begins_tilde (c ∷ rest) path h = let tilde : (c == b'~') ≡ true = ground arith in rw tilde refl

-- Whatever the owner of a user's space is, the root of the paths in it is the empty text.
pub root_for_node-owner_public_key_for_path :
    (path owner : Text) → owner_public_key_for_path path ≡ some owner → root_for_node path ≡ []
unfolding root_for_node owner_public_key_for_path
root_for_node-owner_public_key_for_path path owner h =
    let first = first_of (split b'/' path) path in begins_tilde first path (ground arith)
