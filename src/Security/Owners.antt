-- ===== src/Security/Owners.antt =====
-- In a user's space, only values count that the user has signed or allows by a certificate.
use prima_db.Prelude.{
  ℕ, Bool, true, false, not, ◌||◌, Bool-cases, Option, none, some, any, is_some_and, unwrap_or, ltb,
  if◌then◌else◌, ◌≡◌, ◌⊎◌, inl, inr, refl, sym, ap, ◌∙◌, subst, arith,
}
use prima_db.Text.{Text, bytes}
use prima_db.Ord.{eq_of_test, list_ord, nat_ord, ◌=?◌}
use prima_db.Security.{Result, SecurityError, and_then, and_then-ok, ok-injective}
use prima_db.Security.Roots.{owner_public_key_for_path}
use prima_db.Security.Frames.{Primitives, SignedPayload, from_base64, verify_payload}
use prima_db.Security.Policies.{matches_certificate_path}
use prima_db.Security.Certificates.{
  SignedValueClaims, DataCertificate, Json, decode_signed_value, decode_certificate, verify,
  check_claims, validate_certificate, by_owner, by_certificate, accept_claims, accept_decoded,
  verify_data_value,
}

-- A test that is passed by the result, and what follows it.
passed :
    {A : Type 0} (b : Bool) (e : SecurityError) (r : Result A) {a : A}
    → (if b then Result.err e else r) ≡ Result.ok a
    → (b ≡ false) × (r ≡ Result.ok a)
passed true e r h = absurd (cc)
passed false e r h = (refl, h)

passed_some :
    {A : Type 0} (b : Bool) (r : Result (Option A)) {a : A}
    → (if not b then Result.ok none else r) ≡ Result.ok (some a)
    → (b ≡ true) × (r ≡ Result.ok (some a))
passed_some true r h = (refl, h)
passed_some false r {a} h = let no_value : none ≡ some a = ok-injective h in absurd (cc)

some-injective : {A : Type 0} {a b : A} → some a ≡ some b → a ≡ b
some-injective {a = a} h = ap (λ o. unwrap_or o a) h

four_tests :
    (a b c d : Bool) (e f g h : SecurityError) {u : Unit {0}}
    → (if a
        then Result.err e
        else if not b
        then Result.err f
        else if not c
        then Result.err g
        else if d
        then Result.err h
        else Result.ok tt)
      ≡ Result.ok u
    → (a ≡ false) × ((b ≡ true) × ((c ≡ true) × (d ≡ false)))
four_tests true b c d e f g h t = absurd (cc)
four_tests false false c d e f g h t = absurd (cc)
four_tests false true false d e f g h t = absurd (cc)
four_tests false true true true e f g h t = absurd (cc)
four_tests false true true false e f g h t = (refl, (refl, (refl, refl)))

module _ {I K G X J : Type 0} (primitives : Primitives I K G X J) (json : Json J) (now : ℕ) where
  -- The certificate has not expired, it names the signer or everyone, its policy matches the path,
  -- and it does not block the path.
  abbrev pub Permits : DataCertificate → Text → Text → Type 0
  Permits claims signer path =
      (is_some_and claims.expires_at_millis (λ expires_at. ltb expires_at now) ≡ false)
      × ((any (λ candidate. candidate =? bytes "*" || candidate =? signer) claims.certificants
            ≡ true)
          × ((matches_certificate_path path claims.write_policy ≡ true)
              × (is_some_and claims.write_block (matches_certificate_path path) ≡ false)))

  check_claims-Permits :
      (claims : DataCertificate) (signer path : Text) {u : Unit {0}}
      → check_claims primitives json now claims signer path ≡ Result.ok u
      → Permits claims signer path
  unfolding check_claims
  check_claims-Permits claims signer path h =
      four_tests (is_some_and claims.expires_at_millis (λ expires_at. ltb expires_at now))
        (any (λ candidate. candidate =? bytes "*" || candidate =? signer) claims.certificants)
        (matches_certificate_path path claims.write_policy)
        (is_some_and claims.write_block (matches_certificate_path path)) (_) (_) (_) (_) h

  -- A certificate by the owner that the owner's key verifies, and that permits the signer the path.
  abbrev pub Certifies : Text → Text → Text → Text → Type 0
  Certifies owner signer path text =
      (c : SignedPayload DataCertificate) × (decode_certificate primitives json now text
        ≡ Result.ok c)
      × (c.signer ≡ owner)
      × (verify primitives json now json.certificate_to_vec c ≡ Result.ok c.payload)
      × Permits c.payload signer path

  verified_payload :
      {T : Type 0} (to_vec : T → Option Text) (signed : SignedPayload T) {claims : T}
      → verify primitives json now to_vec signed ≡ Result.ok claims
      → claims ≡ signed.payload
  unfolding verify
  verified_payload to_vec signed h =
      let (identity, known, h₁) = and_then-ok (from_base64 primitives signed.signer) (_) h in
      let (u, valid, h₂) = and_then-ok (verify_payload primitives to_vec identity signed) (_) h₁ in
      sym (ok-injective h₂)

  validate_certificate-Certifies :
      (text owner signer path : Text) {u : Unit {0}}
      → validate_certificate primitives json now text owner signer path ≡ Result.ok u
      → Certifies owner signer path text
  unfolding validate_certificate check_claims
  validate_certificate-Certifies text owner signer path h =
      let (c, decoded, h₁) = and_then-ok (decode_certificate primitives json now text) (_) h in
      let (by_owner, h₂) = passed (not (c.signer =? owner)) (_) (_) h₁ in
      let (claims, verified, h₃) =
        and_then-ok (verify primitives json now json.certificate_to_vec c) (_) h₂ in
      let permits =
        subst (λ d. Permits d signer path) (verified_payload json.certificate_to_vec c verified)
          (check_claims-Permits claims signer path h₃) in
      let same = verified_payload json.certificate_to_vec c verified in
      (c, decoded, eq_of_test c.signer owner (ground arith), verified ∙ ap Result.ok same, permits)

  -- Who may say what stands at a path of this owner.
  abbrev pub Speaks : Text → Text → SignedPayload (SignedValueClaims J) → Type 0
  Speaks owner path signed =
      (signed.signer ≡ owner)
      ⊎ ((text : Text) × (signed.payload.cert ≡ some text)
          × Certifies owner signed.signer path text)

  by_certificate-Speaks :
      (path owner : Text) (signed : SignedPayload (SignedValueClaims J)) (cert : Option Text)
      {v : J}
      → signed.payload.cert ≡ cert
      → by_certificate primitives json now path owner signed cert ≡ Result.ok (some v)
      → Speaks owner path signed × (v ≡ signed.payload.value)
  unfolding by_certificate
  by_certificate-Speaks path owner signed none {v} c h =
      let no_value : none ≡ some v = ok-injective h in absurd (cc)
  by_certificate-Speaks path owner signed (some text) c h =
      let (u, valid, h₁) =
        and_then-ok (validate_certificate primitives json now text owner signed.signer path) (_)
          h in
      (
        inr (text, c, validate_certificate-Certifies text owner signed.signer path valid),
        sym (some-injective (ok-injective h₁)),
      )

  by_owner-Speaks :
      (path owner : Text) (signed : SignedPayload (SignedValueClaims J)) {v : J}
      → by_owner primitives json now path signed (some owner) ≡ Result.ok (some v)
      → Speaks owner path signed × (v ≡ signed.payload.value)
  unfolding by_owner by_certificate
  by_owner-Speaks path owner signed {v} h =
      let checked : Bool → Result (Option J) = λ b.
        if not b
        then by_certificate primitives json now path owner signed signed.payload.cert
        else Result.ok (some signed.payload.value) in
      elim (Bool-cases (signed.signer =? owner)) [
        | inl same ↦ (
          inl (eq_of_test signed.signer owner same),
          sym (some-injective (ok-injective (sym (ap checked same) ∙ h))),
        )
        | inr differs ↦
            by_certificate-Speaks path owner signed signed.payload.cert refl
              (sym (ap checked differs) ∙ h)
      ]

  -- A signed value that `verify_data_value` gives out for a path in a user's space is verified by its
  -- signer's key, was signed for this path, is the one that was signed, and comes from the owner
  -- or from a signer whom a valid certificate of the owner permits the path.
  pub verify_data_value-Speaks :
      (path owner : Text) (value v : J) (signed : SignedPayload (SignedValueClaims J))
      → owner_public_key_for_path path ≡ some owner
      → decode_signed_value primitives json now value ≡ Result.ok (some signed)
      → verify_data_value primitives json now path value ≡ Result.ok (some v)
      → (verify primitives json now json.value_to_vec signed ≡ Result.ok signed.payload)
        × ((signed.payload.path ≡ path) × (Speaks owner path signed × (v ≡ signed.payload.value)))
  unfolding verify_data_value
  verify_data_value-Speaks path owner value v signed owned decoded h =
      let accepted : Option (SignedPayload (SignedValueClaims J)) → Result (Option J) =
        accept_decoded primitives json now path value in
      let (claims, verified, h₁) =
        and_then-ok (verify primitives json now json.value_to_vec signed) (_)
          (subst (λ r. and_then r accepted ≡ Result.ok (some v)) decoded h) in
      let same = verified_payload json.value_to_vec signed verified in
      let h₂ : accept_claims primitives json now path signed signed.payload ≡ Result.ok (some v) =
        subst (λ c. accept_claims primitives json now path signed c ≡ Result.ok (some v)) same h₁ in
      let (own_path, h₃) = passed_some (signed.payload.path =? path) (_) h₂ in
      (
        verified ∙ ap Result.ok same,
        (
          eq_of_test signed.payload.path path own_path,
          by_owner-Speaks path owner signed (
              subst (λ o. by_owner primitives json now path signed o ≡ Result.ok (some v)) owned
                h₃),
        ),
      )
