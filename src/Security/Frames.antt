-- ===== src/Security/Frames.antt =====
-- How frames are signed, encrypted, and taken in: auth.rs with what it calls of crypto.rs. The
-- primitives of the libraries are the fields of `Primitives`: Ed25519 with the key pairs `I`, the
-- verifying keys `K` and the signatures `G`; XChaCha20-Poly1305 with the keys `X`; the unpadded
-- URL-safe Base64; and `serde_json`. Bytes are lists of numbers, as texts are.
use prima_db.Prelude.{ℕ, Bool, ◌==◌, Option, none, some, List, length, if◌then◌else◌, not}
use prima_db.Text.{Text}
use prima_db.Ord.{list_ord, nat_ord, ◌=?◌}
use prima_db.Map
use prima_db.Security.{
  UserRecord, LocalUser, AuthClaims, AuthenticatedSyncFrame, EncryptedSyncFrame, EncryptedPayload,
  SecureSyncFrame, SecurityState, SyncFrame, Result, and_then, ok_or,
}
use prima_db.Security.SecurityError.{
  signed_sync_required, no_transport_key, unknown_alias, signer_mismatch, bad_base64, bad_length,
  bad_key, bad_signature_bytes, bad_signature, cannot_encrypt, cannot_decrypt, no_json,
}
use prima_db.Security.Roots.{authorize_roots, roots_for_frame}

pub record SignedPayload (T : Type 0) : Type 0 where
  pub signer : Text
  pub signature : Text
  pub payload : T

pub record Primitives (I K G X J : Type 0) : Type 0 where
  pub verifying_key : I → K
  pub as_bytes : K → Text
  pub from_bytes : Text → Option K
  pub sign : I → Text → G
  pub to_bytes : G → Text
  pub from_slice : Text → Option G
  pub verify : K → Text → G → Bool
  pub encode_string : Text → Text
  pub decode_vec : Text → Option Text
  pub encrypt : X → Text → Text → Option Text
  pub decrypt : X → Text → Text → Option Text
  pub frame_to_vec : SyncFrame J → Option Text
  pub frame_from_slice : Text → Option (SyncFrame J)
  pub signed_frame_to_vec : AuthClaims × SyncFrame J → Option Text
  pub signed_payload_to_vec : AuthClaims × EncryptedPayload → Option Text

module _ {I K G X J : Type 0} (primitives : Primitives I K G X J) where
  abbrev pub decode_base64 : Text → Result Text
  decode_base64 text = ok_or (primitives.decode_vec text) bad_base64

  unfoldable pub decode_fixed : ℕ → Text → Result Text
  decode_fixed count text =
      and_then (decode_base64 text)
        λ decoded. if length decoded == count then Result.ok decoded else Result.err bad_length

  unfoldable pub public_key_base64 : I → Text
  public_key_base64 identity =
      primitives.encode_string (primitives.as_bytes (primitives.verifying_key identity))

  -- `PublicIdentity::from_base64`
  unfoldable pub from_base64 : Text → Result K
  unfolding decode_fixed
  from_base64 public_key =
      and_then (decode_fixed 32 public_key) λ decoded. ok_or (primitives.from_bytes decoded) bad_key

  unfoldable pub sign_payload : {T : Type 0} → (T → Option Text) → I → T → Result (SignedPayload T)
  unfolding public_key_base64
  sign_payload to_vec identity payload = and_then (ok_or (to_vec payload) no_json) λ payload_bytes.
      Result.ok (record {
        signer = public_key_base64 identity;
        signature =
            primitives.encode_string (primitives.to_bytes (primitives.sign identity payload_bytes));
        payload = payload;
      })

  unfoldable pub verify_payload :
      {T : Type 0} → (T → Option Text) → K → SignedPayload T → Result Unit
  verify_payload to_vec key signed =
      and_then (ok_or (to_vec signed.payload) no_json) λ payload_bytes.
        and_then (decode_base64 signed.signature) λ decoded.
          and_then (ok_or (primitives.from_slice decoded) bad_signature_bytes) λ signature.
            if primitives.verify key payload_bytes signature
            then Result.ok tt
            else Result.err bad_signature

  -- The nonce is random.
  unfoldable pub encrypt_json : X → Text → SyncFrame J → Result EncryptedPayload
  encrypt_json key nonce frame =
      and_then (ok_or (primitives.frame_to_vec frame) no_json) λ plaintext.
        and_then (ok_or (primitives.encrypt key nonce plaintext) cannot_encrypt) λ ciphertext.
          Result.ok (record {
            nonce = primitives.encode_string nonce;
            ciphertext = primitives.encode_string ciphertext;
          })

  unfoldable pub decrypt_json : X → EncryptedPayload → Result (SyncFrame J)
  unfolding decode_fixed
  decrypt_json key payload = and_then (decode_fixed 24 payload.nonce) λ nonce.
      and_then (decode_base64 payload.ciphertext) λ ciphertext.
        and_then (ok_or (primitives.decrypt key nonce ciphertext) cannot_decrypt)
          λ plaintext. ok_or (primitives.frame_from_slice plaintext) no_json

  unfoldable pub verify_claims : SecurityState I X → AuthClaims → Text → Result UserRecord
  verify_claims state claims signer =
      and_then (ok_or (Map.get state.trusted_users claims.alias) (unknown_alias claims.alias))
        λ user.
          if not (user.public_key =? signer)
          then Result.err (signer_mismatch claims.alias)
          else Result.ok user

  -- `user.public_identity()?.verify_payload(..)?`
  unfoldable pub verify_signed :
      {T : Type 0} → (T → Option Text) → UserRecord → SignedPayload T → Result Unit
  unfolding from_base64 verify_payload
  verify_signed to_vec user signed =
      and_then (from_base64 user.public_key) (λ key. verify_payload to_vec key signed)

  abbrev pub signed_frame : AuthenticatedSyncFrame J → SignedPayload (AuthClaims × SyncFrame J)
  signed_frame frame = record {
    signer = frame.signer;
    signature = frame.signature;
    payload = (frame.claims, frame.frame);
  }

  abbrev pub signed_payload : EncryptedSyncFrame → SignedPayload (AuthClaims × EncryptedPayload)
  signed_payload frame = record {
    signer = frame.signer;
    signature = frame.signature;
    payload = (frame.claims, frame.payload);
  }

  -- The end of `decode_sync_frame` in the arms of signed frames.
  abbrev pub authorized : UserRecord → AuthClaims → SyncFrame J → Result (SyncFrame J)
  authorized user claims frame =
      and_then (authorize_roots user claims (roots_for_frame frame)) (λ _. Result.ok frame)

  unfoldable pub decode_sync_frame : SecurityState I X → SecureSyncFrame J → Result (SyncFrame J)
  unfolding verify_claims verify_signed decrypt_json authorize_roots roots_for_frame
  decode_sync_frame state (SecureSyncFrame.plain frame) =
      if state.require_signed_sync then Result.err signed_sync_required else Result.ok frame
  decode_sync_frame state (SecureSyncFrame.authenticated frame) =
      and_then (verify_claims state frame.claims frame.signer) λ user.
        and_then (verify_signed primitives.signed_frame_to_vec user (signed_frame frame))
          λ _. authorized user frame.claims frame.frame
  decode_sync_frame state (SecureSyncFrame.encrypted frame) =
      and_then (verify_claims state frame.claims frame.signer) λ user.
        and_then (verify_signed primitives.signed_payload_to_vec user (signed_payload frame)) λ _.
          and_then (ok_or state.transport_encryption_key no_transport_key) λ key.
            and_then (decrypt_json key frame.payload)
              λ decoded. authorized user frame.claims decoded

  module _ (now : ℕ) (nonce : Text) where
    abbrev pub claims_of : LocalUser I → Text → List Text → AuthClaims
    claims_of user replica_id roots = record {
      alias = user.alias;
      replica_id = replica_id;
      roots = roots;
      issued_at_millis = now;
    }

    -- With a local user.
    abbrev pub encode_signed :
        LocalUser I → Option X → AuthClaims → SyncFrame J → Result (SecureSyncFrame J)
    encode_signed user (some key) claims frame = and_then (encrypt_json key nonce frame) λ payload.
        and_then (sign_payload primitives.signed_payload_to_vec user.identity (claims, payload))
          λ signed. Result.ok (
            SecureSyncFrame.encrypted (record {
              claims = claims;
              signer = public_key_base64 user.identity;
              signature = signed.signature;
              payload = payload;
            }))
    encode_signed user none claims frame =
        and_then (sign_payload primitives.signed_frame_to_vec user.identity (claims, frame))
          λ signed. Result.ok (
            SecureSyncFrame.authenticated (record {
              claims = claims;
              signer = public_key_base64 user.identity;
              signature = signed.signature;
              frame = frame;
            }))

    unfoldable pub encode_sync_frame :
        SecurityState I X → Text → List Text → SyncFrame J → Result (SecureSyncFrame J)
    unfolding encrypt_json sign_payload public_key_base64
    encode_sync_frame state replica_id roots frame = elim state.local_user [
      | none ↦
          if state.require_signed_sync
          then Result.err signed_sync_required
          else Result.ok (SecureSyncFrame.plain frame)
      | some user ↦
          encode_signed user state.transport_encryption_key (claims_of user replica_id roots) frame
    ]
