-- ===== src/Security.antt =====
-- auth.rs, and SyncFrame of sync.rs: the users that a replica trusts and what they are granted. `J`
-- stands for `serde_json::Value`, `I` for the key pair of an `Identity`, and `X` for the key of a
-- `SecretBoxKey`.
pub mod Roots
pub mod Frames
pub mod Grants
pub mod Spaces
pub mod Policies
pub mod Certificates
pub mod Owners
pub mod Exchange
use prima_db.Prelude.{
  ℕ, Bool, Option, none, some, List, [], if◌then◌else◌, not, false, ◌≡◌, refl, ap,
}
use prima_db.Text.{Text}
use prima_db.Ord.{list_ord, nat_ord, ◌=?◌}
use prima_db.Map
use prima_db.Map.{Map}
use prima_db.Graph.{Operation}

-- The errors of these functions, each by its cause; the texts are left out.
pub data SecurityError : Type 0 where
  signed_sync_required no_transport_key : SecurityError
  unknown_alias signer_mismatch alias_mismatch : Text → SecurityError
  bad_base64 bad_length bad_key bad_signature_bytes bad_signature : SecurityError
  cannot_encrypt cannot_decrypt no_json not_sea : SecurityError
  signer_not_owner certificate_expired not_certificant path_not_authorized path_blocked :
      SecurityError
  advertised unauthorized : Text → SecurityError

pub data Result (A : Type 0) : Type 0 where
  ok : A → Result A
  err : SecurityError → Result A

-- The operator `?`
abbrev pub and_then : {A B : Type 0} → Result A → (A → Result B) → Result B
and_then (Result.ok a) f = f a
and_then (Result.err e) f = Result.err e

abbrev pub ok_or : {A : Type 0} → Option A → SecurityError → Result A
ok_or none e = Result.err e
ok_or (some a) e = Result.ok a

pub and_then-ok :
    {A B : Type 0} (r : Result A) (f : A → Result B) {b : B}
    → and_then r f ≡ Result.ok b
    → (a : A) × (r ≡ Result.ok a) × (f a ≡ Result.ok b)
and_then-ok (Result.ok a) f h = (a, refl, h)
and_then-ok (Result.err e) f h = absurd (cc)

pub ok_or-ok :
    {A : Type 0} (o : Option A) (e : SecurityError) {a : A} → ok_or o e ≡ Result.ok a → o ≡ some a
ok_or-ok none e h = absurd (cc)
ok_or-ok (some a) e h = ap (λ r. elim r [ Result.ok b ↦ some b | Result.err e ↦ some a ]) h

pub ok-injective : {A : Type 0} {a b : A} → Result.ok a ≡ Result.ok b → a ≡ b
ok-injective {a = a} h = ap (λ r. elim r [ Result.ok c ↦ c | Result.err e ↦ a ]) h

pub record UserGrant : Type 0 where
  pub root : Text
  pub read : Bool
  pub write : Bool

pub record UserRecord : Type 0 where
  pub alias : Text
  pub public_key : Text
  pub grants : List UserGrant
  pub metadata : Map Text Text

pub record LocalUser (I : Type 0) : Type 0 where
  pub alias : Text
  pub identity : I
  pub grants : List UserGrant

pub record AuthClaims : Type 0 where
  pub alias : Text
  pub replica_id : Text
  pub roots : List Text
  pub issued_at_millis : ℕ

pub data SyncFrame (J : Type 0) : Type 0 where
  sync : Text → Text → List (Operation J) → SyncFrame J
  ack : Text → Text → ℕ → SyncFrame J

pub record EncryptedPayload : Type 0 where
  pub nonce : Text
  pub ciphertext : Text

pub record AuthenticatedSyncFrame (J : Type 0) : Type 0 where
  pub claims : AuthClaims
  pub signer : Text
  pub signature : Text
  pub frame : SyncFrame J

pub record EncryptedSyncFrame : Type 0 where
  pub claims : AuthClaims
  pub signer : Text
  pub signature : Text
  pub payload : EncryptedPayload

pub data SecureSyncFrame (J : Type 0) : Type 0 where
  plain : SyncFrame J → SecureSyncFrame J
  authenticated : AuthenticatedSyncFrame J → SecureSyncFrame J
  encrypted : EncryptedSyncFrame → SecureSyncFrame J

pub record SecurityState (I X : Type 0) : Type 0 where
  pub require_signed_sync : Bool
  pub trusted_users : Map Text UserRecord
  pub local_user : Option (LocalUser I)
  pub transport_encryption_key : Option X
  pub snapshot_encryption_key : Option X

-- `SecurityState::default`
abbrev pub no_security : {I X : Type 0} → SecurityState I X
no_security = record {
  require_signed_sync = false;
  trusted_users = Map.empty;
  local_user = none;
  transport_encryption_key = none;
  snapshot_encryption_key = none;
}

module _ {I X : Type 0} where
  -- The public identity is given by its text.
  unfoldable pub register_user :
      SecurityState I X → Text → Text → List UserGrant → SecurityState I X
  register_user state alias public_key grants = record state {
    trusted_users =
        Map.insert state.trusted_users alias (record {
          alias = alias;
          public_key = public_key;
          grants = grants;
          metadata = Map.empty;
        });
  }

  unfoldable pub set_snapshot_encryption_key : SecurityState I X → X → SecurityState I X
  set_snapshot_encryption_key state key = record state { snapshot_encryption_key = some key }

  unfoldable pub set_transport_encryption_key : SecurityState I X → X → SecurityState I X
  set_transport_encryption_key state key = record state { transport_encryption_key = some key }

  unfoldable pub clear_local_user : SecurityState I X → SecurityState I X
  clear_local_user state = record state { local_user = none }

  -- The answer is none where the code returns no error. The grants of a user that is known already
  -- stay as they are.
  module _ (public_key_base64 : I → Text) where
    unfoldable pub set_local_user :
        SecurityState I X → Text → I → List UserGrant → Result (SecurityState I X)
    unfolding register_user
    set_local_user state alias identity grants =
        let user : LocalUser I = record { alias = alias; identity = identity; grants = grants } in
        elim (Map.get state.trusted_users alias) [
          | some existing ↦
              if not (existing.public_key =? public_key_base64 identity)
              then Result.err (SecurityError.alias_mismatch alias)
              else Result.ok (record state { local_user = some user })
          | none ↦
              let known = register_user state alias (public_key_base64 identity) grants in
              Result.ok (record known { local_user = some user })
        ]
