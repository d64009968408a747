-- ===== src/Introduction/Toy/Tests.antt =====
-- runtime/crates/contacts-model/src/lib.rs: the theorems on signed values at one small introduction.
use polyvisor.Common.{
  ℕ, ◌≡◌, refl, List, [], ◌∷◌, ◌++◌, Option, some, none, Bool, true, Result, ok, ◌>>◌, replicate,
  All, arith, length, leb, ◌≤◌, ◌<◌,
}
use polyvisor.Introduction.{
  Why, pos, Claim, AuthenticatedIdentity, Introduction, AuthorityRequest, PendingIntroduction,
  binding_domain, profile_domain, introduction_domain, domain_bytes, domain_message, contains,
  bounded, require_version, key32, valid_seconds, valid_time, validate_each, validate_claims,
  extract_claims, valid_key, verify_signature,
}
use polyvisor.Introduction.Signed.{
  sign_root_binding, verify_root_binding, sign_profile, verify_profile, seal_payload,
  profile_payload,
}
use polyvisor.Introduction.Verify.{
  is_empty, collect, validate_profiles, validate_authenticated_identity, validate_identities,
  validate_parties, validate_introduction, authority_request, all_identities, protobuf_introduction,
  sign_introduction, verify_introduction,
}
use polyvisor.Introduction.Domains.{domain_message-inj}
use polyvisor.Introduction.Envelopes.{verify_introduction-sign}
use polyvisor.Introduction.Soundness.{IsSound}
use polyvisor.Introduction.Selection.{
  select, SelectedIntroduction, available_root, validate_authority, validate_requests, is_distinct,
  all_in, distinct_indices, has_index, all_under, validate_authority-IsSound,
}
use polyvisor.Introduction.Toy
use polyvisor.Introduction.Signed
use polyvisor.Introduction.Toy.{toy_ed25519, toy_ed25519_laws, toy_messages, toy_messages_laws}

abbrev root_seed : List ℕ
root_seed = 5 ∷ []

abbrev device_seed : List ℕ
device_seed = 6 ∷ []

abbrev group : List ℕ
group = replicate 32 4

abbrev key_of : List ℕ → List ℕ
key_of seed = toy_ed25519.verifying_key seed

abbrev claims : List Claim
claims = record { name = 110 ∷ []; value = 118 ∷ [] } ∷ []

binding : List ℕ
binding = sign_root_binding toy_messages toy_ed25519 root_seed group

profile : List ℕ
profile =
    seal_payload toy_messages toy_ed25519 profile_domain root_seed
      (profile_payload toy_messages toy_ed25519 root_seed claims)

domain_message-inj_example : (binding_domain ≡ binding_domain) × (([] ++ group) ≡ group)
domain_message-inj_example =
    domain_message-inj binding_domain binding_domain ([] ++ group) group refl

abbrev identity : AuthenticatedIdentity
identity = record {
  binding = binding;
  profiles = profile ∷ [];
  authority_device = key_of device_seed;
  keyhive_authority_proof = 1 ∷ [];
}

abbrev small_introduction : Introduction
small_introduction = record {
  issuer = identity;
  device = key_of device_seed;
  authenticated_identities = [];
  parties = record { public_key = key_of (7 ∷ []); observations = claims } ∷ [];
  issued_at = record { seconds = pos 1_700_000_000; nanos = 5 };
}

introduced : List ℕ
introduced =
    seal_payload toy_messages toy_ed25519 introduction_domain device_seed
      (toy_messages.introduction.encode (protobuf_introduction small_introduction))

introduced_made :
    sign_introduction toy_messages toy_ed25519 small_introduction device_seed ≡ ok introduced
unfolding introduced binding profile sign_root_binding seal_payload Signed.binding_payload
    profile_payload verify_root_binding verify_profile bounded require_version key32 valid_seconds
    valid_time validate_each validate_claims extract_claims valid_key verify_signature contains
    domain_message domain_bytes is_empty collect validate_profiles validate_authenticated_identity
    validate_identities validate_parties validate_introduction protobuf_introduction
    sign_introduction toy_messages Toy.whole_message Toy.envelope_part Toy.binding_part
    Toy.profile_part Toy.introduction_part Toy.identity_part Toy.party_part Toy.time_part
    Toy.int_part Toy.claim_part Toy.bytes_part Toy.option_part Toy.list_part Toy.pair_part Toy.along
    Toy.nat_part Toy.write_all Toy.option_write Toy.of_int Toy.read_all Toy.read_nat Toy.and_then
    Toy.only Toy.option_read Toy.int_of polyvisor.Common.bytes_eq
introduced_made = refl

verify_introduction-sign_example :
    (requests : List AuthorityRequest) × (collect
        (authority_request toy_messages toy_ed25519)
        (all_identities small_introduction)
      ≡ ok requests)
    × (verify_introduction toy_messages toy_ed25519 introduced
        ≡ ok (record { introduction = small_introduction; requests = requests }))
verify_introduction-sign_example =
    verify_introduction-sign toy_messages toy_ed25519 toy_ed25519_laws toy_messages_laws
      small_introduction device_seed introduced introduced_made

verified :
    (requests : List AuthorityRequest) × (collect
        (authority_request toy_messages toy_ed25519)
        (all_identities small_introduction)
      ≡ ok requests)
    × (verify_introduction toy_messages toy_ed25519 introduced
        ≡ ok (record { introduction = small_introduction; requests = requests }))
verified =
    verify_introduction-sign toy_messages toy_ed25519 toy_ed25519_laws toy_messages_laws
      small_introduction device_seed introduced introduced_made

abbrev pending : PendingIntroduction
pending = record { introduction = small_introduction; requests = verified.0 }

abbrev accept : AuthorityRequest → Result Why (Unit {0})
accept request = ok tt

accepted : validate_authority pending accept ≡ ok small_introduction
unfolding validate_authority validate_requests
accepted = all_accepted verified.0
  where
    all_accepted :
        (requests : List AuthorityRequest)
        → (validate_requests accept requests >> ok small_introduction) ≡ ok small_introduction
    all_accepted [] = refl
    all_accepted (request ∷ rest) = all_accepted rest

validate_authority-IsSound_example :
    IsSound toy_messages toy_ed25519 introduced pending
    × (small_introduction ≡ pending.introduction)
    × All (λ request. accept request ≡ ok tt) pending.requests
validate_authority-IsSound_example =
    validate_authority-IsSound toy_messages toy_ed25519 accept introduced pending small_introduction
      (verified.2) accepted

abbrev chosen : SelectedIntroduction
chosen = record {
  introduction = small_introduction;
  roots = key_of root_seed ∷ [];
  parties = 0 ∷ [];
}

selected :
    select toy_messages toy_ed25519 small_introduction (key_of root_seed ∷ []) (0 ∷ []) ≡ ok chosen
unfolding select available_root collect all_identities is_distinct all_in distinct_indices has_index
    all_under binding sign_root_binding seal_payload Signed.binding_payload verify_root_binding
    bounded require_version key32 valid_key verify_signature contains domain_message domain_bytes
    toy_messages Toy.whole_message Toy.envelope_part Toy.binding_part Toy.bytes_part Toy.list_part
    Toy.pair_part Toy.along Toy.nat_part Toy.write_all Toy.read_all Toy.read_nat Toy.and_then
    Toy.only polyvisor.Common.bytes_eq
selected = refl
