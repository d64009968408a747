-- ===== src/Introduction/RoundTrip.antt =====
-- runtime/crates/contacts-model/src/lib.rs: what is signed verifies, and reads back.
use Prim.Native.String.{String}
use polyvisor.Common.{
  ℕ, ◌≤◌, ◌≡◌, refl, sym, List, true, ok, >>-eq-ok, length, leb, bytes_eq_refl, arith,
}
use polyvisor.Introduction.{
  Claim, Messages, MessagesLaws, Ed25519, Ed25519Laws, version, max_signed_bytes, Domain,
  binding_domain, profile_domain, domain_message, bounded, require_version, key32, validate_claims,
  extract_claims, valid_key, verify_signature,
}
use polyvisor.Introduction.Signed.{
  seal_payload, binding_payload, sign_root_binding, verify_root_binding, profile_payload,
  sign_profile, verify_profile,
}

pub key32-long : (k : List ℕ) (what : String) → length k ≡ 32 → key32 k what ≡ ok k
unfolding key32
key32-long k what long = rw long refl

module _ (c : Ed25519) (claws : Ed25519Laws c) where
  pub verify_signature-sign :
      (seed payload : List ℕ) (d : Domain)
      → verify_signature c (c.verifying_key seed) d payload (c.sign seed (domain_message d payload))
        ≡ ok tt
  unfolding verify_signature valid_key
  verify_signature-sign seed payload d =
      rw
        (
          claws.verifying_key-is_key seed,
          claws.verifying_key-is_weak seed,
          claws.sign-is_signature seed (domain_message d payload),
          claws.verify_strict-sign seed (domain_message d payload),
        )
        refl

  key32-verifying_key :
      (seed : List ℕ) (what : String)
      → key32 (c.verifying_key seed) what ≡ ok (c.verifying_key seed)
  key32-verifying_key seed what =
      key32-long (c.verifying_key seed) what
        (claws.is_key_length (c.verifying_key seed) (claws.verifying_key-is_key seed))

  module _ (m : Messages) (mlaws : MessagesLaws m) where
    -- A binding that a root signs for a group of 32 bytes verifies to the root's key and the group,
    -- if the signed value is at most 262,144 bytes.
    pub verify_root_binding-sign :
        (root group : List ℕ)
        → length group ≡ 32
        → length (sign_root_binding m c root group) ≤ max_signed_bytes
        → verify_root_binding m c (sign_root_binding m c root group)
          ≡ ok (record { root = c.verifying_key root; group = group })
    unfolding verify_root_binding sign_root_binding seal_payload binding_payload bounded
        require_version
    verify_root_binding-sign root group long small =
        let payload = binding_payload m c root group in
        let fits : leb (length (sign_root_binding m c root group)) max_signed_bytes ≡ true =
          ground arith in
        let is_group : key32 group "group id" ≡ ok group = key32-long group "group id" long in
        rw
          (
            fits,
            mlaws.envelope_law (record {
              payload = payload;
              signature = c.sign root (domain_message binding_domain payload);
            }),
            mlaws.binding_law (record {
              version = version;
              root_public_key = c.verifying_key root;
              group_id = group;
            }),
            key32-verifying_key root "root identity",
            is_group,
            verify_signature-sign root payload binding_domain,
          )
          refl

    -- A profile that a root signs verifies to the root's key, as subject and as issuer, and the claims,
    -- if the signed value is at most 262,144 bytes.
    pub verify_profile-sign_profile :
        (root : List ℕ) (claims : List Claim) (signed : List ℕ)
        → sign_profile m c root claims ≡ ok signed
        → length signed ≤ max_signed_bytes
        → verify_profile m c signed
          ≡ ok (record {
            subject = c.verifying_key root;
            issuer = c.verifying_key root;
            claims = claims;
          })
    unfolding verify_profile sign_profile seal_payload profile_payload bounded require_version
        extract_claims
    verify_profile-sign_profile root claims signed made small =
        let (valid, is) = >>-eq-ok (validate_claims claims) _ made in
        let payload = profile_payload m c root claims in
        let fits : leb (length signed) max_signed_bytes ≡ true = ground arith in
        let same : seal_payload m c profile_domain root payload ≡ signed = ground arith in
        rw
          (
            fits,
            sym same,
            mlaws.envelope_law (record {
              payload = payload;
              signature = c.sign root (domain_message profile_domain payload);
            }),
            mlaws.profile_law (record {
              version = version;
              subject_root = c.verifying_key root;
              issuer_root = c.verifying_key root;
              claims = claims;
            }),
            key32-verifying_key root "profile subject",
            key32-verifying_key root "profile issuer",
            bytes_eq_refl (c.verifying_key root),
            valid,
            verify_signature-sign root payload profile_domain,
          )
          refl
