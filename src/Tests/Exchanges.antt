-- ===== src/Tests/Exchanges.antt =====
-- The theorems on signed frames at concrete inputs. The libraries' primitives are replaced by plain
-- ones: a key is a number that stands before 31 zeros, a signature is the key before the message,
-- and Base64, the cipher and JSON leave a text as it is, or write what the tests need.
use prima_db.Prelude.{ℕ, true, false, none, some, List, [], ◌∷◌, ◌≡◌, refl, if◌then◌else◌}
use prima_db.Text.{Text, bytes, starts_with}
use prima_db.Ord.{Ord, list_ord, nat_ord, ◌=?◌}
use prima_db.Map
use prima_db.Map.Entries.{insert_in}
use prima_db.Storage.Keys.{split}
use prima_db.Security.{
  UserGrant, UserRecord, LocalUser, SyncFrame, SecureSyncFrame, SecurityState, Result, no_security,
  register_user,
}
use prima_db.Security.Roots.{
  root_for_node, roots_for_frame, roots_for_ops, roots_from, operation_roots, matches_root,
  can_write_roots, authorize_roots, owner_public_key_for_path,
}
use prima_db.Security.Frames.{
  Primitives, public_key_base64, claims_of, encode_sync_frame, decode_sync_frame, verify_claims,
  verify_signed, verify_payload, from_base64, decode_fixed,
}
use prima_db.Security.Grants.{IsVouched, IsGranted, decode_sync_frame-IsGranted}
use prima_db.Security.Spaces.{root_for_node-owner_public_key_for_path}
use prima_db.Security.Exchange.{IsSound, decode_sync_frame-encode_sync_frame}
use prima_db.Tests.Data.{alice, titled}

abbrev zeros : Text
zeros =
    0 ∷ 0 ∷ 0 ∷ 0 ∷ 0 ∷ 0 ∷ 0 ∷ 0 ∷ 0 ∷ 0 ∷ 0 ∷ 0 ∷ 0 ∷ 0 ∷ 0 ∷ 0 ∷ 0 ∷ 0 ∷ 0 ∷ 0 ∷ 0 ∷ 0 ∷ 0 ∷ 0
    ∷ []

abbrev change : SyncFrame ℕ
change = SyncFrame.sync alice (bytes "m1") (titled ∷ [])

abbrev pub plain_primitives : Primitives ℕ ℕ Text ℕ ℕ
plain_primitives = record {
  verifying_key = λ i. i;
  as_bytes = λ k. k ∷ 0 ∷ 0 ∷ 0 ∷ 0 ∷ 0 ∷ 0 ∷ 0 ∷ zeros;
  from_bytes = λ b. elim b [ [] ↦ none | k ∷ _ ↦ some k ];
  sign = λ i m. i ∷ m;
  to_bytes = λ g. g;
  from_slice = λ b. some b;
  verify = λ k m g. (k ∷ m) =? g;
  encode_string = λ b. b;
  decode_vec = λ b. some b;
  encrypt = λ x nonce m. some (x ∷ m);
  decrypt = λ x nonce c. elim c [ [] ↦ none | y ∷ m ↦ if y =? x then some m else none ];
  frame_to_vec = λ f. some (bytes "m1");
  frame_from_slice = λ b. some change;
  signed_frame_to_vec = λ p. some p.0.alias;
  signed_payload_to_vec = λ p. some p.1.ciphertext;
}

abbrev numbers : Ord ℕ
numbers = nat_ord

abbrev texts : Ord Text
texts = list_ord

plain_primitives-IsSound : IsSound plain_primitives
plain_primitives-IsSound = record {
  decode_encode = λ b. refl;
  key_length = λ k. refl;
  key_read = λ k. refl;
  signature_read = λ g. refl;
  verifies = λ i m. rw (texts.cmp_refl (i ∷ m)) refl;
  encrypts = λ x nonce m l. (x ∷ m, refl, rw (numbers.cmp_refl x) refl);
  frame_written = λ p. (p.0.alias, refl);
  payload_written = λ p. (p.1.ciphertext, refl);
}

abbrev alice_user : LocalUser ℕ
alice_user = record { alias = alice; identity = 7; grants = [] }

abbrev writes_docs : List UserGrant
writes_docs = record { root = bytes "docs"; read = true; write = true } ∷ []

abbrev known_alice : UserRecord
known_alice = record {
  alias = alice;
  public_key = public_key_base64 plain_primitives 7;
  grants = writes_docs;
  metadata = Map.empty;
}

abbrev sender : SecurityState ℕ ℕ
sender = record no_security { local_user = some alice_user; transport_encryption_key = some 3 }

abbrev receiver : SecurityState ℕ ℕ
receiver =
    register_user
      (record no_security { require_signed_sync = true; transport_encryption_key = some 3 }) alice
      (public_key_base64 plain_primitives 7) writes_docs

alice_found : Map.get receiver.trusted_users alice_user.alias ≡ some known_alice
unfolding register_user Map.insert insert_in Map.get list_ord nat_ord
alice_found = refl

docs_allowed : can_write_roots known_alice (roots_for_frame change) ≡ true
unfolding can_write_roots matches_root roots_for_frame roots_for_ops roots_from operation_roots
    root_for_node split list_ord nat_ord
docs_allowed = refl

same_key : receiver.transport_encryption_key ≡ sender.transport_encryption_key
unfolding register_user
same_key = refl

decode_sync_frame-encode_sync_frame_example :
    (sent : SecureSyncFrame ℕ) × (encode_sync_frame plain_primitives 50 zeros sender alice
        (roots_for_frame change)
        change
      ≡ Result.ok sent)
    × (decode_sync_frame plain_primitives receiver sent ≡ Result.ok change)
decode_sync_frame-encode_sync_frame_example =
    decode_sync_frame-encode_sync_frame plain_primitives plain_primitives-IsSound alice_user
      known_alice receiver 50 zeros alice change sender refl alice_found refl docs_allowed
      (bytes "m1") refl refl refl same_key

-- With no transport key, signed by alice's key 7.
abbrev signed_change : SecureSyncFrame ℕ
signed_change = SecureSyncFrame.authenticated (record {
  claims = claims_of plain_primitives 50 zeros alice_user alice (bytes "docs" ∷ []);
  signer = public_key_base64 plain_primitives 7;
  signature = 7 ∷ alice;
  frame = change;
})

required : receiver.require_signed_sync ≡ true
unfolding register_user
required = refl

change_accepted : decode_sync_frame plain_primitives receiver signed_change ≡ Result.ok change
unfolding decode_sync_frame verify_claims verify_signed verify_payload from_base64 decode_fixed
    public_key_base64 authorize_roots can_write_roots matches_root roots_for_frame roots_for_ops
    roots_from operation_roots root_for_node split register_user Map.insert insert_in Map.get
    list_ord nat_ord
change_accepted = refl

decode_sync_frame-IsGranted_example :
    (user : UserRecord) × IsVouched plain_primitives receiver signed_change user
    × IsGranted user change
decode_sync_frame-IsGranted_example =
    decode_sync_frame-IsGranted plain_primitives receiver signed_change change required
      change_accepted

abbrev alice_space : Text
alice_space = bytes "~key/profile"

alice_owns : owner_public_key_for_path alice_space ≡ some (bytes "key")
unfolding owner_public_key_for_path split starts_with list_ord nat_ord
alice_owns = refl

root_for_node-owner_public_key_for_path_example : root_for_node alice_space ≡ []
root_for_node-owner_public_key_for_path_example =
    root_for_node-owner_public_key_for_path alice_space (bytes "key") alice_owns

-- The grant for her space's root does not let its owner write in it.
own_space_refused :
    can_write_roots
      (record known_alice {
        grants = record { root = bytes "~key"; read = true; write = true } ∷ [];
      })
      (root_for_node alice_space ∷ [])
    ≡ false
unfolding can_write_roots matches_root root_for_node split list_ord nat_ord
own_space_refused = refl
