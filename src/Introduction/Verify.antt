-- ===== src/Introduction/Verify.antt =====
-- runtime/crates/contacts-model/src/lib.rs: what a signed introduction must satisfy, and its two
-- forms.
use polyvisor.Common.{
  ℕ, ◌+◌, List, [], ◌∷◌, some, Bool, true, false, not, ◌&&◌, ◌||◌, Result, ok, err, guard, ok_or,
  ◌>>=◌, ◌>>◌, length, leb, bytes_eq,
}
use polyvisor.Introduction.{
  Why, text, ℤ, pos, negsuc, Party, RootBinding, AuthenticatedIdentity, Introduction,
  AuthorityRequest, PendingIntroduction, WireIntroduction, Messages, Ed25519, version,
  introduction_domain, max_parties, contains, bounded, require_version, key32, valid_time,
  validate_claims, extract_claims, valid_key, verify_signature,
}
use polyvisor.Introduction.Signed.{
  seal_payload, verify_root_binding, verify_profile, binding_from_bytes, profile_from_bytes,
}

-- `is_empty`.
unfoldable pub is_empty {ℓ} : {A : Type ℓ} → List A → Bool
is_empty [] = true
is_empty (x ∷ xs) = false

-- `collect::<Result<Vec<_>, _>>()` over a map.
unfoldable pub collect {ℓ κ} :
    {A : Type ℓ} {B : Type κ} → (A → Result Why B) → List A → Result Why (List B)
collect f [] = ok []
collect f (a ∷ items) = do b ← f a; bs ← collect f items; ok (b ∷ bs)

-- `protobuf_introduction`; `nanos as i32` keeps what is below 2 ^ 31.
unfoldable pub protobuf_introduction : Introduction → WireIntroduction
protobuf_introduction value = record {
  version = version;
  issuer = some value.issuer;
  device_signing_key = value.device;
  authenticated_identities = value.authenticated_identities;
  parties = value.parties;
  issued_at =
      some (record { seconds = value.issued_at.seconds; nanos = pos value.issued_at.nanos });
}

-- `all_identities`.
unfoldable pub all_identities : Introduction → List AuthenticatedIdentity
all_identities value = value.issuer ∷ value.authenticated_identities

-- `u32::try_from`.
unfoldable pub nanos_of : ℤ → Result Why ℕ
nanos_of (pos n) = ok n
nanos_of (negsuc n) = err (text "invalid introduction time")

unfoldable pub extract_party : Party → Result Why Party
extract_party party = do
  key ← key32 party.public_key "observed party key"
  claims ← extract_claims party.observations
  ok (record { public_key = key; observations = claims })

module _ (c : Ed25519) where
  -- The loop over the parties, with the keys seen.
  unfoldable pub validate_parties : List (List ℕ) → List Party → Result Why (Unit {0})
  validate_parties seen [] = ok tt
  validate_parties seen (party ∷ rest) = do
    valid_key c party.public_key "observed party key"
    guard (not (contains seen party.public_key)) (text "introduction repeats a party")
    validate_claims party.observations
    validate_parties (party.public_key ∷ seen) rest

module _ (m : Messages) (c : Ed25519) where
  -- The loop over the profiles of an identity, with those seen.
  unfoldable pub validate_profiles : List ℕ → List (List ℕ) → List (List ℕ) → Result Why (Unit {0})
  validate_profiles root seen [] = ok tt
  validate_profiles root seen (signed ∷ rest) = do
    profile ← verify_profile m c signed
    guard (bytes_eq profile.subject root && bytes_eq profile.issuer root)
        (text "profile does not match its root binding")
    guard (not (contains seen signed)) (text "authenticated identity repeats a profile variant")
    validate_profiles root (signed ∷ seen) rest

  unfoldable pub validate_authenticated_identity : AuthenticatedIdentity → Result Why RootBinding
  validate_authenticated_identity value = do
    binding ← verify_root_binding m c value.binding
    guard (not (is_empty value.profiles || is_empty value.keyhive_authority_proof))
        (text "authenticated identity lacks profile or authority proof")
    valid_key c value.authority_device "authority device"
    validate_profiles binding.root [] value.profiles
    ok binding

  unfoldable pub authority_request : AuthenticatedIdentity → Result Why AuthorityRequest
  authority_request value = do
    binding ← validate_authenticated_identity value
    ok (record {
      root = binding.root;
      group = binding.group;
      device = value.authority_device;
      keyhive_authority_proof = value.keyhive_authority_proof;
    })

  -- The loop over the further identities, with the roots seen.
  unfoldable pub validate_identities :
      List (List ℕ) → List AuthenticatedIdentity → Result Why (Unit {0})
  validate_identities seen [] = ok tt
  validate_identities seen (identity ∷ rest) = do
    binding ← validate_authenticated_identity identity
    guard (not (contains seen binding.root)) (text "introduction repeats an authenticated identity")
    validate_identities (binding.root ∷ seen) rest

  unfoldable pub validate_introduction : Introduction → Result Why (Unit {0})
  validate_introduction value = do
    valid_time value.issued_at
    guard (leb (length value.parties + 1) max_parties) (text "introduction has too many parties")
    valid_key c value.device "device signing key"
    issuer ← validate_authenticated_identity value.issuer
    guard (bytes_eq value.issuer.authority_device value.device)
        (text "issuer authority device does not match introduction signer")
    validate_identities (issuer.root ∷ []) value.authenticated_identities
    validate_parties c (issuer.root ∷ []) value.parties

  unfoldable pub extract_authenticated_identity :
      AuthenticatedIdentity → Result Why AuthenticatedIdentity
  extract_authenticated_identity value = do
    binding ← binding_from_bytes m c value.binding
    profiles ← collect (profile_from_bytes m c) value.profiles
    device ← key32 value.authority_device "authority device"
    ok (record {
      binding = binding;
      profiles = profiles;
      authority_device = device;
      keyhive_authority_proof = value.keyhive_authority_proof;
    })

  unfoldable pub extract_introduction : WireIntroduction → Result Why Introduction
  extract_introduction value = do
    require_version value.version "introduction"
    time ← ok_or value.issued_at (text "introduction has no issued time")
    nanos ← nanos_of time.nanos
    valid_time (record { seconds = time.seconds; nanos = nanos })
    wire_issuer ← ok_or value.issuer (text "introduction has no issuer")
    issuer ← extract_authenticated_identity wire_issuer
    device ← key32 value.device_signing_key "device signing key"
    identities ← collect extract_authenticated_identity value.authenticated_identities
    parties ← collect extract_party value.parties
    ok (record {
      issuer = issuer;
      device = device;
      authenticated_identities = identities;
      parties = parties;
      issued_at = record { seconds = time.seconds; nanos = nanos };
    })

  unfoldable pub sign_introduction : Introduction → List ℕ → Result Why (List ℕ)
  sign_introduction value seed = do
    validate_introduction value
    guard (bytes_eq value.device (c.verifying_key seed))
        (text "introduction device key does not match signer")
    let payload = m.introduction.encode (protobuf_introduction value) in
        let envelope = seal_payload m c introduction_domain seed payload in
        bounded envelope >> ok envelope

  unfoldable pub verify_introduction : List ℕ → Result Why PendingIntroduction
  verify_introduction bytes = do
    bounded bytes
    signed ← ok_or (m.envelope.decode bytes) (text "invalid introduction envelope")
    wire ← ok_or (m.introduction.decode signed.payload) (text "invalid introduction payload")
    introduction ← extract_introduction wire
    validate_introduction introduction
    verify_signature c introduction.device introduction_domain signed.payload signed.signature
    requests ← collect authority_request (all_identities introduction)
    ok (record { introduction = introduction; requests = requests })
