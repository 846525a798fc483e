-- ===== src/Security/Certificates.antt =====
-- Signed values and certificates (auth.rs). `J` stands for `serde_json::Value`; how it is parsed and
-- written are parameters.
use prima_db.Prelude.{
  ℕ, not, ◌||◌, Option, none, some, List, any, drop, is_some_and, ltb, unwrap_or, if◌then◌else◌,
}
use prima_db.Text.{Text, bytes, starts_with}
use prima_db.Ord.{list_ord, nat_ord, ◌=?◌}
use prima_db.Security.{Result, and_then, ok_or}
use prima_db.Security.SecurityError.{
  not_sea, no_json, signer_not_owner, certificate_expired, not_certificant, path_not_authorized,
  path_blocked,
}
use prima_db.Security.Roots.{owner_public_key_for_path}
use prima_db.Security.Frames.{Primitives, SignedPayload, from_base64, verify_payload}
use prima_db.Security.Policies.{Policy, matches_certificate_path}

pub record SignedValueClaims (J : Type 0) : Type 0 where
  pub path : Text
  pub value : J
  pub cert : Option Text

pub record DataCertificate : Type 0 where
  pub certificants : List Text
  pub write_policy : Policy
  pub expires_at_millis : Option ℕ
  pub write_block : Option Policy
  pub iat : ℕ

-- An object with what stands in it under `signed`, or any other value.
pub data Envelope (J : Type 0) : Type 0 where
  object : Option J → J → Envelope J
  other : J → Envelope J

-- The parsers and printers of `serde_json` that these functions call.
pub record Json (J : Type 0) : Type 0 where
  pub as_string : J → Option Text
  pub envelope_from_str : Text → Option (Envelope J)
  pub value_from_json : J → Option (SignedPayload (SignedValueClaims J))
  pub certificate_from_json : J → Option (SignedPayload DataCertificate)
  pub value_to_vec : SignedValueClaims J → Option Text
  pub certificate_to_vec : DataCertificate → Option Text

module _ {I K G X J : Type 0} (primitives : Primitives I K G X J) (json : Json J) (now : ℕ) where
  unfoldable pub parse_sea_envelope : Text → Option (Envelope J)
  unfolding starts_with
  parse_sea_envelope value =
      if not (starts_with value (bytes "SEA")) then none else json.envelope_from_str (drop 3 value)

  abbrev signed_of : Envelope J → J
  signed_of (Envelope.object signed whole) = unwrap_or signed whole
  signed_of (Envelope.other value) = value

  unfoldable pub decode_signed_value : J → Result (Option (SignedPayload (SignedValueClaims J)))
  unfolding parse_sea_envelope
  decode_signed_value value = elim (json.as_string value) [
    | none ↦ Result.ok none
    | some text ↦ elim (parse_sea_envelope text) [
      | none ↦ Result.ok none
      | some envelope ↦
          and_then (ok_or (json.value_from_json (signed_of envelope)) no_json)
            λ signed. Result.ok (some signed)
    ]
  ]

  unfoldable pub decode_certificate : Text → Result (SignedPayload DataCertificate)
  unfolding parse_sea_envelope
  decode_certificate value =
      and_then (ok_or (parse_sea_envelope value) not_sea)
        λ envelope. ok_or (json.certificate_from_json (signed_of envelope)) no_json

  -- `SignedPayload::verify`
  unfoldable pub verify : {T : Type 0} → (T → Option Text) → SignedPayload T → Result T
  unfolding from_base64 verify_payload
  verify to_vec signed = and_then (from_base64 primitives signed.signer) λ identity.
      and_then (verify_payload primitives to_vec identity signed) λ _. Result.ok signed.payload

  -- The tests on a certificate that is verified.
  unfoldable pub check_claims : DataCertificate → Text → Text → Result Unit
  unfolding matches_certificate_path
  check_claims claims certificant expected_path =
      if is_some_and claims.expires_at_millis (λ expires_at. ltb expires_at now)
      then Result.err certificate_expired
      else if not (
          any (λ candidate. candidate =? bytes "*" || candidate =? certificant) claims.certificants)
      then Result.err not_certificant
      else if not (matches_certificate_path expected_path claims.write_policy)
      then Result.err path_not_authorized
      else if is_some_and claims.write_block (matches_certificate_path expected_path)
      then Result.err path_blocked
      else Result.ok tt

  unfoldable pub validate_certificate : Text → Text → Text → Text → Result Unit
  unfolding decode_certificate verify check_claims
  validate_certificate certificate owner_pub certificant expected_path =
      and_then (decode_certificate certificate) λ signed.
        if not (signed.signer =? owner_pub)
        then Result.err signer_not_owner
        else and_then (verify json.certificate_to_vec signed)
            λ claims. check_claims claims certificant expected_path

  -- A signer other than the owner, with a certificate or without.
  unfoldable pub by_certificate :
      Text → Text → SignedPayload (SignedValueClaims J) → Option Text → Result (Option J)
  unfolding validate_certificate
  by_certificate expected_path owner_pub signed none = Result.ok none
  by_certificate expected_path owner_pub signed (some certificate) =
      and_then (validate_certificate certificate owner_pub signed.signer expected_path)
        λ _. Result.ok (some signed.payload.value)

  unfoldable pub by_owner :
      Text → SignedPayload (SignedValueClaims J) → Option Text → Result (Option J)
  unfolding by_certificate
  by_owner expected_path signed none = Result.ok (some signed.payload.value)
  by_owner expected_path signed (some owner_pub) =
      if not (signed.signer =? owner_pub)
      then by_certificate expected_path owner_pub signed signed.payload.cert
      else Result.ok (some signed.payload.value)

  -- `claims` are the verified payload, which `verify` gives back.
  abbrev pub accept_claims :
      Text → SignedPayload (SignedValueClaims J) → SignedValueClaims J → Result (Option J)
  accept_claims expected_path signed claims =
      if not (claims.path =? expected_path)
      then Result.ok none
      else by_owner expected_path (record signed { payload = claims })
          (owner_public_key_for_path expected_path)

  abbrev pub accept_decoded :
      Text → J → Option (SignedPayload (SignedValueClaims J)) → Result (Option J)
  accept_decoded expected_path value none = Result.ok (some value)
  accept_decoded expected_path value (some signed) =
      and_then (verify json.value_to_vec signed) (accept_claims expected_path signed)

  unfoldable pub verify_data_value : Text → J → Result (Option J)
  unfolding decode_signed_value verify by_owner owner_public_key_for_path
  verify_data_value expected_path value =
      and_then (decode_signed_value value) (accept_decoded expected_path value)
