-- ===== src/Tests/Owners.antt =====
-- The theorem on signed values at a concrete input: a signer with a certificate writes in the space
-- of the owner. JSON is replaced by what this value and this certificate need.
use prima_db.Prelude.{ℕ, none, some, [], ◌∷◌, ◌≡◌, refl}
use prima_db.Text.{Text, bytes, starts_with}
use prima_db.Ord.{list_ord, nat_ord}
use prima_db.Storage.Keys.{split}
use prima_db.Security.{Result}
use prima_db.Security.Roots.{owner_public_key_for_path}
use prima_db.Security.Frames.{SignedPayload, decode_fixed, from_base64, verify_payload}
use prima_db.Security.Policies.{
  Policy, PolicyEntry, matches_lex, segments_of, soul_path, matches_entry, matches_certificate_path,
}
use prima_db.Security.Certificates.{
  SignedValueClaims, DataCertificate, Envelope, Json, parse_sea_envelope, decode_signed_value,
  decode_certificate, verify, check_claims, validate_certificate, by_owner, by_certificate,
  verify_data_value,
}
use prima_db.Security.Owners.{Speaks, verify_data_value-Speaks}
use prima_db.Tests.Exchanges.{plain_primitives}

-- Keys of 32 bytes.
abbrev owner_key : Text
owner_key = bytes "oooooooooooooooooooooooooooooooo"

abbrev writer_key : Text
writer_key = bytes "wwwwwwwwwwwwwwwwwwwwwwwwwwwwwwww"

abbrev owned_title : Text
owned_title = bytes "~oooooooooooooooooooooooooooooooo/profile/title"

abbrev certificate_text : Text
certificate_text = bytes "SEA{cert}"

abbrev signed_value : SignedPayload (SignedValueClaims ℕ)
signed_value = record {
  signer = writer_key;
  signature = b'w' ∷ owned_title;
  payload = record { path = owned_title; value = 9; cert = some certificate_text };
}

abbrev certificate : SignedPayload DataCertificate
certificate = record {
  signer = owner_key;
  signature = b'o' ∷ bytes "{cert}";
  payload = record {
    certificants = writer_key ∷ [];
    write_policy = Policy.single (PolicyEntry.object none (some (bytes "ti*")));
    expires_at_millis = some 100;
    write_block = none;
    iat = 10;
  };
}

abbrev one_value : Json ℕ
one_value = record {
  as_string = λ j. some (bytes "SEA{}");
  envelope_from_str = λ text. some (Envelope.other 1);
  value_from_json = λ j. some signed_value;
  certificate_from_json = λ j. some certificate;
  value_to_vec = λ claims. some claims.path;
  certificate_to_vec = λ claims. some (bytes "{cert}");
}

title_owned : owner_public_key_for_path owned_title ≡ some owner_key
unfolding owner_public_key_for_path split starts_with list_ord nat_ord
title_owned = refl

value_decoded : decode_signed_value plain_primitives one_value 50 2 ≡ Result.ok (some signed_value)
unfolding decode_signed_value parse_sea_envelope starts_with list_ord nat_ord
value_decoded = refl

value_accepted : verify_data_value plain_primitives one_value 50 owned_title 2 ≡ Result.ok (some 9)
unfolding verify_data_value decode_signed_value parse_sea_envelope verify from_base64 decode_fixed
    verify_payload by_owner by_certificate validate_certificate decode_certificate check_claims
    owner_public_key_for_path matches_certificate_path segments_of soul_path matches_entry
    matches_lex split starts_with list_ord nat_ord
value_accepted = refl

verify_data_value-Speaks_example :
    (verify plain_primitives one_value 50 one_value.value_to_vec signed_value
      ≡ Result.ok signed_value.payload)
    × ((signed_value.payload.path ≡ owned_title)
        × (Speaks plain_primitives one_value 50 owner_key owned_title signed_value
            × (9 ≡ signed_value.payload.value)))
verify_data_value-Speaks_example =
    verify_data_value-Speaks plain_primitives one_value 50 owned_title owner_key 2 9 signed_value
      title_owned value_decoded value_accepted
