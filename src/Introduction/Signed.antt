-- ===== src/Introduction/Signed.antt =====
-- runtime/crates/contacts-model/src/lib.rs: the root-signed group binding and the root-signed
-- profile.
use polyvisor.Common.{ℕ, List, Result, ok, guard, ok_or, ◌>>=◌, ◌>>◌, bytes_eq}
use polyvisor.Introduction.{
  Why, text, Claim, RootBinding, Profile, Messages, Ed25519, version, binding_domain,
  profile_domain, Domain, domain_message, bounded, require_version, key32, validate_claims,
  extract_claims, verify_signature,
}

module _ (m : Messages) (c : Ed25519) where
  -- The envelope of a payload that a seed signs under a domain.
  unfoldable pub seal_payload : Domain → List ℕ → List ℕ → List ℕ
  seal_payload domain seed payload =
      m.envelope.encode
        (record { payload = payload; signature = c.sign seed (domain_message domain payload) })

  unfoldable pub binding_payload : List ℕ → List ℕ → List ℕ
  binding_payload root group =
      m.binding.encode
        (record { version = version; root_public_key = c.verifying_key root; group_id = group })

  unfoldable pub sign_root_binding : List ℕ → List ℕ → List ℕ
  sign_root_binding root group = seal_payload binding_domain root (binding_payload root group)

  unfoldable pub verify_root_binding : List ℕ → Result Why RootBinding
  verify_root_binding bytes = do
    bounded bytes
    signed ← ok_or (m.envelope.decode bytes) (text "invalid root binding envelope")
    value ← ok_or (m.binding.decode signed.payload) (text "invalid root binding payload")
    require_version value.version "root binding"
    root ← key32 value.root_public_key "root identity"
    group ← key32 value.group_id "group id"
    verify_signature c root binding_domain signed.payload signed.signature
    ok (record { root = root; group = group })

  unfoldable pub profile_payload : List ℕ → List Claim → List ℕ
  profile_payload root claims = m.profile.encode (record {
    version = version;
    subject_root = c.verifying_key root;
    issuer_root = c.verifying_key root;
    claims = claims;
  })

  unfoldable pub sign_profile : List ℕ → List Claim → Result Why (List ℕ)
  sign_profile root claims = do
    validate_claims claims
    ok (seal_payload profile_domain root (profile_payload root claims))

  unfoldable pub verify_profile : List ℕ → Result Why Profile
  verify_profile bytes = do
    bounded bytes
    signed ← ok_or (m.envelope.decode bytes) (text "invalid signed profile envelope")
    value ← ok_or (m.profile.decode signed.payload) (text "invalid profile payload")
    require_version value.version "profile"
    subject ← key32 value.subject_root "profile subject"
    issuer ← key32 value.issuer_root "profile issuer"
    guard (bytes_eq subject issuer)
        (text "an official self-profile must have identical subject and issuer")
    claims ← extract_claims value.claims
    verify_signature c issuer profile_domain signed.payload signed.signature
    ok (record { subject = subject; issuer = issuer; claims = claims })

  -- `SignedRootBinding::from_bytes` and `SignedProfile::from_bytes`.
  unfoldable pub binding_from_bytes : List ℕ → Result Why (List ℕ)
  binding_from_bytes bytes = do verified ← verify_root_binding bytes; ok bytes

  unfoldable pub profile_from_bytes : List ℕ → Result Why (List ℕ)
  profile_from_bytes bytes = do verified ← verify_profile bytes; ok bytes
