-- ===== src/Security/Grants.antt =====
-- What a replica takes in where it requires signed frames, and the roots of user spaces.
use prima_db.Prelude.{
  Bool, true, not, ◌&&◌, Bool-cases, some, List, [], ◌∷◌, ◌++◌, any, all, All, All-map, append-All,
  all-All, if◌then◌else◌, ◌≡◌, ◌⊎◌, inl, inr, sym, ap, ◌∙◌, subst, arith,
}
use prima_db.Text.{Text, bytes}
use prima_db.Ord.{eq_of_test, list_ord, nat_ord, ◌=?◌}
use prima_db.Map
use prima_db.Graph.{Operation, source_node}
use prima_db.Security.{
  UserGrant, UserRecord, AuthClaims, SecureSyncFrame, SecurityState, SyncFrame, Result,
  SecurityError, ok_or, and_then-ok, ok_or-ok, ok-injective,
}
use prima_db.Security.Roots.{
  root_for_node, operation_roots, push_roots, roots_from, roots_for_ops, roots_for_frame,
  matches_root, can_write_roots, authorize_roots,
}
use prima_db.Security.Frames.{
  Primitives, authorized, decrypt_json, decode_sync_frame, signed_frame, signed_payload,
  verify_claims, verify_signed,
}

-- One of the grants is for writing, and for this root or for every root.
abbrev pub CanWrite : List UserGrant → Text → Type 0
CanWrite [] root = ⊥
CanWrite (grant ∷ grants) root =
    ((grant.write ≡ true) × ((grant.root ≡ bytes "*") ⊎ (grant.root ≡ root))) ⊎ CanWrite grants root

matched :
    (grant : UserGrant) (root : Text)
    → matches_root grant root ≡ true
    → (grant.root ≡ bytes "*") ⊎ (grant.root ≡ root)
unfolding matches_root
matched grant root h = elim (Bool-cases (grant.root =? bytes "*")) [
  | inl star ↦ inl (eq_of_test grant.root (bytes "*") star)
  | inr other ↦ inr (eq_of_test grant.root root (ground arith))
]

granted :
    (grants : List UserGrant) (root : Text)
    → any (λ grant. grant.write && matches_root grant root) grants ≡ true
    → CanWrite grants root
unfolding matches_root
granted [] root h = absurd (cc)
granted (grant ∷ grants) root h = elim (Bool-cases (grant.write && matches_root grant root)) [
  | inl here ↦ inl (ground arith, matched grant root (ground arith))
  | inr further ↦ inr (granted grants root (ground arith))
]

abbrev pub IsGranted : {J : Type 0} → UserRecord → SyncFrame J → Type 0
IsGranted user (SyncFrame.sync from message_id ops) =
    All (λ op. CanWrite user.grants (root_for_node (source_node op.action))) ops
IsGranted user (SyncFrame.ack from message_id applied) = Unit

root_known :
    (P : Text → Type 0) (roots : List Text) (root : Text)
    → any (λ candidate. candidate =? root) roots ≡ true
    → All P roots
    → P root
root_known P [] root h a = absurd (cc)
root_known P (c ∷ roots) root h a = elim (Bool-cases (c =? root)) [
  | inl same ↦ subst P (eq_of_test c root same) a.0
  | inr other ↦ root_known P roots root (ground arith) a.1
]

push_roots-All :
    (P : Text → Type 0) (roots more : List Text)
    → All P (push_roots roots more)
    → All P roots × All P more
push_roots-All P roots [] a = (a, tt)
push_roots-All P roots (root ∷ more) a =
    let pushed : Bool → List Text =
      λ known. push_roots (if not known then roots ++ root ∷ [] else roots) more in
    elim (Bool-cases (any (λ candidate. candidate =? root) roots)) [
      | inl known ↦
          let (r, m) = push_roots-All P roots more (subst (λ b. All P (pushed b)) known a) in
          (r, (root_known P roots root known r, m))
      | inr new ↦
          let (r, m) =
            push_roots-All P (roots ++ root ∷ []) more (subst (λ b. All P (pushed b)) new a) in
          let (earlier, last) = append-All P roots (root ∷ []) r in (earlier, (last.0, m))
    ]

roots_from-All :
    {J : Type 0} (P : Text → Type 0) (roots : List Text) (ops : List (Operation J))
    → All P (roots_from roots ops)
    → All P roots × All (λ op. P (root_for_node (source_node op.action))) ops
unfolding roots_from operation_roots
roots_from-All P roots [] a = (a, tt)
roots_from-All P roots (op ∷ ops) a =
    let (pushed, later) = roots_from-All P (push_roots roots (operation_roots op)) ops a in
    let (earlier, own) = push_roots-All P roots (operation_roots op) pushed in
    (earlier, (own.0, later))

-- Where the roots of a frame are not refused, the user may write to each of them.
authorize_roots-All :
    (user : UserRecord) (claims : AuthClaims) (roots : List Text) {u : Unit {0}}
    → authorize_roots user claims roots ≡ Result.ok u
    → All (CanWrite user.grants) roots
unfolding authorize_roots can_write_roots
authorize_roots-All user claims [] h = tt
authorize_roots-All user claims (root ∷ roots) h =
    let may_write : Text → Bool =
      λ r. any (λ grant. grant.write && matches_root grant r) user.grants in
    let every : all may_write (root ∷ roots) ≡ true = ground arith in
    All-map (root ∷ roots) (granted user.grants) (all-All may_write (root ∷ roots) every)

roots_for_frame-All :
    {J : Type 0} (user : UserRecord) (frame : SyncFrame J)
    → All (CanWrite user.grants) (roots_for_frame frame)
    → IsGranted user frame
unfolding roots_for_frame roots_for_ops
roots_for_frame-All user (SyncFrame.sync from message_id ops) a =
    (roots_from-All (CanWrite user.grants) [] ops a).1
roots_for_frame-All user (SyncFrame.ack from message_id applied) a = tt

module _ {I K G X J : Type 0} (primitives : Primitives I K G X J) where
  authorized-IsGranted :
      (user : UserRecord) (claims : AuthClaims) (frame : SyncFrame J) {decoded : SyncFrame J}
      → authorized primitives user claims frame ≡ Result.ok decoded
      → IsGranted user decoded
  authorized-IsGranted user claims frame h =
      let (u, allowed, same) =
        and_then-ok (authorize_roots user claims (roots_for_frame frame)) (λ _. Result.ok frame)
          h in
      subst (IsGranted user) (ok-injective same) (
        roots_for_frame-All user frame
          (authorize_roots-All user claims (roots_for_frame frame) allowed))

  claimed_user :
      (state : SecurityState I X) (claims : AuthClaims) (signer : Text) {user : UserRecord}
      → verify_claims primitives state claims signer ≡ Result.ok user
      → (Map.get state.trusted_users claims.alias ≡ some user) × (user.public_key ≡ signer)
  unfolding verify_claims
  claimed_user state claims signer {user} h =
      let (known, found, h₁) =
        and_then-ok (ok_or (Map.get state.trusted_users claims.alias) (_)) (_) h in
      let checked : Bool → Result UserRecord = λ b.
        if not b
        then Result.err (SecurityError.signer_mismatch claims.alias)
        else Result.ok known in
      elim (Bool-cases (known.public_key =? signer)) [
        | inl same ↦
            let is_user = ok-injective (sym (ap checked same) ∙ h₁) in
            (
              ok_or-ok (Map.get state.trusted_users claims.alias) (_) found ∙ ap some is_user,
              sym (ap (λ u. u.public_key) is_user) ∙ eq_of_test known.public_key signer same,
            )
        | inr differs ↦
            let clash : Result.err (SecurityError.signer_mismatch claims.alias) ≡ Result.ok user =
              sym (ap checked differs) ∙ h₁ in
            absurd (cc)
      ]

  -- A trusted user of the name that the frame claims has its signer's key, and the key verifies the
  -- signature over the claims and what the frame carries.
  abbrev pub IsVouched : SecurityState I X → SecureSyncFrame J → UserRecord → Type 0
  IsVouched state (SecureSyncFrame.plain frame) user = ⊥
  IsVouched state (SecureSyncFrame.authenticated frame) user =
      (Map.get state.trusted_users frame.claims.alias ≡ some user)
      × ((user.public_key ≡ frame.signer)
          × (verify_signed primitives primitives.signed_frame_to_vec user
                (signed_frame primitives frame)
              ≡ Result.ok tt))
  IsVouched state (SecureSyncFrame.encrypted frame) user =
      (Map.get state.trusted_users frame.claims.alias ≡ some user)
      × ((user.public_key ≡ frame.signer)
          × (verify_signed primitives primitives.signed_payload_to_vec user
                (signed_payload primitives frame)
              ≡ Result.ok tt))

  -- A replica that requires signed frames takes in only frames that a trusted user vouches for, and
  -- of these only such that write to roots that its record of the user grants for writing.
  pub decode_sync_frame-IsGranted :
      (state : SecurityState I X) (frame : SecureSyncFrame J) (decoded : SyncFrame J)
      → state.require_signed_sync ≡ true
      → decode_sync_frame primitives state frame ≡ Result.ok decoded
      → (user : UserRecord) × IsVouched state frame user × IsGranted user decoded
  unfolding decode_sync_frame
  decode_sync_frame-IsGranted state (SecureSyncFrame.plain frame) decoded required h =
      absurd (ground arith)
  decode_sync_frame-IsGranted state (SecureSyncFrame.authenticated frame) decoded required h =
      let (user, claimed, h₁) =
        and_then-ok (verify_claims primitives state frame.claims frame.signer) (_) h in
      let (u, verified, h₂) =
        and_then-ok
          (verify_signed primitives primitives.signed_frame_to_vec user
            (signed_frame primitives frame))
          (_) h₁ in
      let (known, key) = claimed_user state frame.claims frame.signer claimed in
      (user, (known, (key, verified)), authorized-IsGranted user frame.claims frame.frame h₂)
  decode_sync_frame-IsGranted state (SecureSyncFrame.encrypted frame) decoded required h =
      let (user, claimed, h₁) =
        and_then-ok (verify_claims primitives state frame.claims frame.signer) (_) h in
      let (u, verified, h₂) =
        and_then-ok
          (verify_signed primitives primitives.signed_payload_to_vec user
            (signed_payload primitives frame))
          (_) h₁ in
      let (key, keyed, h₃) =
        and_then-ok (ok_or state.transport_encryption_key SecurityError.no_transport_key) (_) h₂ in
      let (inner, decrypted, h₄) = and_then-ok (decrypt_json primitives key frame.payload) (_) h₃ in
      let (known, signer) = claimed_user state frame.claims frame.signer claimed in
      (user, (known, (signer, verified)), authorized-IsGranted user frame.claims inner h₄)
