-- ===== src/Introduction/Envelopes.antt =====
-- runtime/crates/contacts-model/src/lib.rs: an introduction that is signed verifies, with an
-- authority request for each of its identities.
use polyvisor.Common.{
  ℕ, ◌+◌, ◌≡◌, refl, sym, subst, List, [], ◌∷◌, ok, guard, >>=-eq-ok, >>-eq-ok, guard-eq-ok, length,
  leb, bytes_eq, bytes_eq→eq, arith,
}
use polyvisor.Introduction.{
  text, Introduction, AuthorityRequest, Messages, MessagesLaws, Ed25519, Ed25519Laws, max_parties,
  introduction_domain, domain_message, bounded, require_version, valid_time, valid_key,
  verify_signature,
}
use polyvisor.Introduction.Signed.{seal_payload}
use polyvisor.Introduction.RoundTrip.{verify_signature-sign}
use polyvisor.Introduction.Accepted.{
  key32-valid_key, collect-cons, authority_request-validated, extract-authenticated,
  collect-validate_identities, collect-validate_parties,
}
use polyvisor.Introduction.Verify.{
  collect, validate_authenticated_identity, authority_request, validate_identities,
  validate_introduction, protobuf_introduction, nanos_of, extract_introduction, sign_introduction,
  all_identities, verify_introduction,
}

module _ (m : Messages) (c : Ed25519) (claws : Ed25519Laws c) where
  -- What a valid introduction gives: its message reads back, and each identity makes a request.
  validated :
      (value : Introduction)
      → validate_introduction m c value ≡ ok tt
      → (extract_introduction m c (protobuf_introduction value) ≡ ok value)
        × ((requests : List AuthorityRequest) × (collect
                (authority_request m c)
                (all_identities value)
              ≡ ok requests))
  unfolding validate_introduction extract_introduction protobuf_introduction require_version
      nanos_of all_identities
  validated value valid =
      let (time, next) = >>-eq-ok (valid_time value.issued_at) _ valid in
      let (few, next₂) =
        >>-eq-ok
          (guard (leb (length value.parties + 1) max_parties)
            (text "introduction has too many parties"))
          _ next in
      let (device, next₃) = >>-eq-ok (valid_key c value.device "device signing key") _ next₂ in
      let (binding, issuer, next₄) =
        >>=-eq-ok (validate_authenticated_identity m c value.issuer) _ next₃ in
      let (signer, next₅) =
        >>-eq-ok
          (guard (bytes_eq value.issuer.authority_device value.device)
            (text "issuer authority device does not match introduction signer"))
          _ next₄ in
      let (others, parties) =
        >>-eq-ok (validate_identities m c (binding.root ∷ []) value.authenticated_identities) _
          next₅ in
      let (same, (requests, made)) =
        collect-validate_identities m c claws (binding.root ∷ []) value.authenticated_identities
          others in
      (
        rw
            (
              time,
              extract-authenticated m c claws value.issuer binding issuer,
              key32-valid_key m c claws value.device "device signing key" "device signing key"
                  device,
              same,
              collect-validate_parties m c claws (binding.root ∷ []) value.parties parties,
            )
            refl,
        (
          _,
          collect-cons (authority_request m c) value.issuer _ value.authenticated_identities
              requests (authority_request-validated m c value.issuer binding issuer) made,
        ),
      )

  -- Whatever introduction a device signs verifies to that introduction, and to the authority request
  -- of each of its identities, the issuer first.
  pub verify_introduction-sign :
      (mlaws : MessagesLaws m) (value : Introduction) (seed bytes : List ℕ)
      → sign_introduction m c value seed ≡ ok bytes
      → (requests : List AuthorityRequest) × (collect (authority_request m c) (all_identities value)
          ≡ ok requests)
        × (verify_introduction m c bytes
            ≡ ok (record { introduction = value; requests = requests }))
  unfolding sign_introduction verify_introduction seal_payload bounded
  verify_introduction-sign mlaws value seed bytes made =
      let (valid, next) = >>-eq-ok (validate_introduction m c value) _ made in
      let (own, next₂) = guard-eq-ok (bytes_eq value.device (c.verifying_key seed)) _ _ next in
      let payload = m.introduction.encode (protobuf_introduction value) in
      let signature = c.sign seed (domain_message introduction_domain payload) in
      let envelope = m.envelope.encode (record { payload = payload; signature = signature }) in
      let (small, is) = >>-eq-ok (bounded envelope) _ next₂ in
      let same : envelope ≡ bytes = ground arith in
      let (reads, (requests, asked)) = validated value valid in
      let key : value.device ≡ c.verifying_key seed =
        bytes_eq→eq value.device (c.verifying_key seed) own in
      let signed : verify_signature c value.device introduction_domain payload signature ≡ ok tt =
        subst (λ k. verify_signature c k introduction_domain payload signature ≡ ok tt) (sym key)
          (verify_signature-sign c claws seed payload introduction_domain) in
      (
        requests,
        asked,
        rw
            (
              sym same,
              small,
              mlaws.envelope_law (record { payload = payload; signature = signature }),
              mlaws.introduction_law (protobuf_introduction value),
              reads,
              valid,
              signed,
              asked,
            )
            refl,
      )
