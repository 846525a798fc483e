-- ===== src/Security/Exchange.antt =====
-- What one replica signs, another that trusts its user takes in.
use prima_db.Prelude.{
  ℕ, true, Option-cases, Option, none, some, List, [], ◌∷◌, any, all, length, ◌≡◌, inl, inr, refl,
  ◌∙◌, arith,
}
use prima_db.Text.{Text}
use prima_db.Ord.{Ord, list_ord, nat_ord, ◌=?◌}
use prima_db.Map
use prima_db.Security.{
  UserRecord, LocalUser, AuthClaims, EncryptedPayload, SecureSyncFrame, SecurityState, SyncFrame,
  Result,
}
use prima_db.Security.Roots.{roots_for_frame, can_write_roots, authorize_roots}
use prima_db.Security.Frames.{
  Primitives, SignedPayload, claims_of, encrypt_json, decrypt_json, sign_payload, verify_payload,
  verify_claims, verify_signed, from_base64, decode_fixed, public_key_base64, encode_sync_frame,
  decode_sync_frame,
}

-- What the libraries promise: Base64, keys and signatures are read back, a signature by a key pair
-- verifies, a ciphertext is decrypted to its plaintext, and the claims and what goes with them
-- have a JSON text.
pub record IsSound {I K G X J : Type 0} (primitives : Primitives I K G X J) : Type 0 where
  pub decode_encode : (b : Text) → primitives.decode_vec (primitives.encode_string b) ≡ some b
  pub key_length : (k : K) → length (primitives.as_bytes k) ≡ 32
  pub key_read : (k : K) → primitives.from_bytes (primitives.as_bytes k) ≡ some k
  pub signature_read : (g : G) → primitives.from_slice (primitives.to_bytes g) ≡ some g
  pub verifies :
      (i : I) (m : Text)
      → primitives.verify (primitives.verifying_key i) m (primitives.sign i m) ≡ true
  pub encrypts :
      (x : X) (nonce m : Text)
      → length nonce ≡ 24
      → (c : Text) × (primitives.encrypt x nonce m ≡ some c)
        × (primitives.decrypt x nonce c ≡ some m)
  pub frame_written :
      (p : AuthClaims × SyncFrame J) → (b : Text) × (primitives.signed_frame_to_vec p ≡ some b)
  pub payload_written :
      (p : AuthClaims × EncryptedPayload)
      → (b : Text) × (primitives.signed_payload_to_vec p ≡ some b)

abbrev texts : Ord Text
texts = list_ord

all_in_longer :
    (root : Text) (known roots : List Text)
    → all (λ c. any (λ a. a =? c) known) roots ≡ true
    → all (λ c. any (λ a. a =? c) (root ∷ known)) roots ≡ true
all_in_longer root known [] h = refl
all_in_longer root known (r ∷ roots) h =
    ground (arith, all_in_longer root known roots (ground arith))

all_in_self : (roots : List Text) → all (λ c. any (λ a. a =? c) roots) roots ≡ true
all_in_self [] = refl
all_in_self (root ∷ roots) =
    ground (arith, texts.cmp_refl root, all_in_longer root roots roots (all_in_self roots))

authorize_roots-can_write_roots :
    (user : UserRecord) (claims : AuthClaims)
    → can_write_roots user claims.roots ≡ true
    → authorize_roots user claims claims.roots ≡ Result.ok tt
unfolding authorize_roots
authorize_roots-can_write_roots user claims h = rw (all_in_self claims.roots, h) (ground arith)

module _ {I K G X J : Type 0} (primitives : Primitives I K G X J) (sound : IsSound primitives) where
  from_base64-public_key_base64 :
      (identity : I)
      → from_base64 primitives (public_key_base64 primitives identity)
        ≡ Result.ok (primitives.verifying_key identity)
  unfolding from_base64 decode_fixed public_key_base64
  from_base64-public_key_base64 identity =
      let key = primitives.verifying_key identity in
      rw (sound.decode_encode (primitives.as_bytes key), sound.key_length key, sound.key_read key)
        refl

  module _ {T : Type 0} (to_vec : T → Option Text) (identity : I) (payload : T) (text : Text)
      (written : to_vec payload ≡ some text) where
    abbrev signed : SignedPayload T
    signed = record {
      signer = public_key_base64 primitives identity;
      signature = primitives.encode_string (primitives.to_bytes (primitives.sign identity text));
      payload = payload;
    }

    signs : sign_payload primitives to_vec identity payload ≡ Result.ok signed
    unfolding sign_payload
    signs = rw written refl

    verify_signed-signed :
        (user : UserRecord)
        → user.public_key ≡ public_key_base64 primitives identity
        → verify_signed primitives to_vec user signed ≡ Result.ok tt
    unfolding verify_signed verify_payload
    verify_signed-signed user key =
        let signature = primitives.sign identity text in
        rw
          (
            key,
            from_base64-public_key_base64 identity,
            written,
            sound.decode_encode (primitives.to_bytes signature),
            sound.signature_read signature,
            sound.verifies identity text,
          )
          refl

  module _ (user : LocalUser I) (known : UserRecord) (receiver : SecurityState I X) (now : ℕ)
      (nonce replica_id : Text) (frame : SyncFrame J) where
    abbrev claims : AuthClaims
    claims = claims_of primitives now nonce user replica_id (roots_for_frame frame)

    verify_claims-ok :
        Map.get receiver.trusted_users user.alias ≡ some known
        → known.public_key ≡ public_key_base64 primitives user.identity
        → verify_claims primitives receiver claims (public_key_base64 primitives user.identity)
          ≡ Result.ok known
    unfolding verify_claims
    verify_claims-ok found key =
        rw (found, key, texts.cmp_refl (public_key_base64 primitives user.identity)) refl

    decrypt_json-encrypt_json :
        (key : X) (text : Text)
        → length nonce ≡ 24
        → primitives.frame_to_vec frame ≡ some text
        → primitives.frame_from_slice text ≡ some frame
        → (payload : EncryptedPayload) × (encrypt_json primitives key nonce frame
            ≡ Result.ok payload)
          × (decrypt_json primitives key payload ≡ Result.ok frame)
    unfolding encrypt_json decrypt_json decode_fixed
    decrypt_json-encrypt_json key text l written read =
        let (c, encrypted, decrypted) = sound.encrypts key nonce text l in
        let payload : EncryptedPayload = record {
          nonce = primitives.encode_string nonce;
          ciphertext = primitives.encode_string c;
        } in
        (
          payload,
          rw (written, encrypted) refl,
          rw (sound.decode_encode nonce, l, sound.decode_encode c, decrypted, read) refl,
        )

    -- The sender's frame is taken in.
    abbrev Arrives : SecurityState I X → Type 0
    Arrives sender =
        (sent : SecureSyncFrame J) × (encode_sync_frame primitives now nonce sender replica_id
            (roots_for_frame frame) frame
          ≡ Result.ok sent)
        × (decode_sync_frame primitives receiver sent ≡ Result.ok frame)

    module _ (sender : SecurityState I X) (local : sender.local_user ≡ some user)
        (found : Map.get receiver.trusted_users user.alias ≡ some known)
        (key : known.public_key ≡ public_key_base64 primitives user.identity)
        (allowed : can_write_roots known (roots_for_frame frame) ≡ true) where
      goes_through_signed : sender.transport_encryption_key ≡ none → Arrives sender
      unfolding encode_sync_frame decode_sync_frame
      goes_through_signed no_key =
          let (b, claimed) = sound.frame_written (claims, frame) in
          let to_vec = primitives.signed_frame_to_vec in
          (
            SecureSyncFrame.authenticated (record {
              claims = claims;
              signer = public_key_base64 primitives user.identity;
              signature = (signed to_vec user.identity (claims, frame) b claimed).signature;
              frame = frame;
            }),
            rw (local, no_key, signs to_vec user.identity (claims, frame) b claimed) refl,
            rw
                (
                  verify_claims-ok found key,
                  verify_signed-signed to_vec user.identity (claims, frame) b claimed known key,
                  authorize_roots-can_write_roots known claims allowed,
                )
                refl,
          )

      goes_through_sealed :
          (x : X) (payload : EncryptedPayload)
          → encrypt_json primitives x nonce frame ≡ Result.ok payload
          → decrypt_json primitives x payload ≡ Result.ok frame
          → sender.transport_encryption_key ≡ some x
          → receiver.transport_encryption_key ≡ some x
          → Arrives sender
      unfolding encode_sync_frame decode_sync_frame
      goes_through_sealed x payload encrypted decrypted has_key shared =
          let (b, claimed) = sound.payload_written (claims, payload) in
          let to_vec = primitives.signed_payload_to_vec in
          (
            SecureSyncFrame.encrypted (record {
              claims = claims;
              signer = public_key_base64 primitives user.identity;
              signature = (signed to_vec user.identity (claims, payload) b claimed).signature;
              payload = payload;
            }),
            rw (local, has_key, encrypted, signs to_vec user.identity (claims, payload) b claimed)
                refl,
            rw
                (
                  verify_claims-ok found key,
                  verify_signed-signed to_vec user.identity (claims, payload) b claimed known key,
                  shared,
                  decrypted,
                  authorize_roots-can_write_roots known claims allowed,
                )
                refl,
          )

      -- What a sender with a local user makes of a frame, a receiver takes in as that frame, whether
      -- it is encrypted or only signed, if the receiver knows the user's key, has the sender's
      -- transport key, and lets the user write to the frame's roots; the libraries do what they
      -- promise, a nonce has 24 bytes, and the frame's JSON text is read back.
      pub decode_sync_frame-encode_sync_frame :
          (text : Text)
          → length nonce ≡ 24
          → primitives.frame_to_vec frame ≡ some text
          → primitives.frame_from_slice text ≡ some frame
          → receiver.transport_encryption_key ≡ sender.transport_encryption_key
          → (sent : SecureSyncFrame J) × (encode_sync_frame primitives now nonce sender replica_id
                (roots_for_frame frame)
                frame
              ≡ Result.ok sent)
            × (decode_sync_frame primitives receiver sent ≡ Result.ok frame)
      decode_sync_frame-encode_sync_frame text l written read shared =
          elim (Option-cases sender.transport_encryption_key) [
            | inl no_key ↦ goes_through_signed no_key
            | inr (x, has_key) ↦
                let (payload, encrypted, decrypted) =
                  decrypt_json-encrypt_json x text l written read in
                goes_through_sealed x payload encrypted decrypted has_key (shared ∙ has_key)
          ]
