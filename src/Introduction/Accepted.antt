-- ===== src/Introduction/Accepted.antt =====
-- runtime/crates/contacts-model/src/lib.rs: what validation accepts, extraction leaves as it is.
use Prim.Native.String.{String}
use polyvisor.Common.{
  ℕ, ◌≡◌, refl, List, [], ◌∷◌, not, ◌&&◌, ◌||◌, Result, ok, guard, >>=-eq-ok, >>-eq-ok, guard-eq-ok,
  bytes_eq,
}
use polyvisor.Introduction.{
  Why, text, Party, RootBinding, AuthenticatedIdentity, AuthorityRequest, Messages, Ed25519,
  Ed25519Laws, contains, key32, validate_claims, extract_claims, valid_key,
}
use polyvisor.Introduction.Signed.{
  verify_root_binding, verify_profile, binding_from_bytes, profile_from_bytes,
}
use polyvisor.Introduction.RoundTrip.{key32-long}
use polyvisor.Introduction.Verify.{
  is_empty, collect, validate_profiles, validate_authenticated_identity, authority_request,
  validate_identities, validate_parties, extract_authenticated_identity, extract_party,
}

pub collect-cons {ℓ κ} :
    {A : Type ℓ} {B : Type κ} (f : A → Result Why B) (a : A) (b : B) (items : List A) (bs : List B)
    → f a ≡ ok b
    → collect f items ≡ ok bs
    → collect f (a ∷ items) ≡ ok (b ∷ bs)
unfolding collect
collect-cons f a b items bs first rest = rw (first, rest) refl

module _ (m : Messages) (c : Ed25519) where
  pub authority_request-validated :
      (id : AuthenticatedIdentity) (b : RootBinding)
      → validate_authenticated_identity m c id ≡ ok b
      → authority_request m c id
        ≡ ok (record {
          root = b.root;
          group = b.group;
          device = id.authority_device;
          keyhive_authority_proof = id.keyhive_authority_proof;
        })
  unfolding authority_request
  authority_request-validated id b valid = rw valid refl

module _ (m : Messages) (c : Ed25519) (claws : Ed25519Laws c) where
  pub key32-valid_key :
      (k : List ℕ) (what name : String) → valid_key c k what ≡ ok tt → key32 k name ≡ ok k
  unfolding valid_key
  key32-valid_key k what name valid =
      let (is, rest) = guard-eq-ok (c.is_key k) _ _ valid in
      key32-long k name (claws.is_key_length k is)

  collect-validate_profiles :
      (root : List ℕ) (seen signed : List (List ℕ))
      → validate_profiles m c root seen signed ≡ ok tt
      → collect (profile_from_bytes m c) signed ≡ ok signed
  unfolding collect validate_profiles profile_from_bytes
  collect-validate_profiles root seen [] valid = refl
  collect-validate_profiles root seen (first ∷ rest) valid =
      let (profile, verified, next) = >>=-eq-ok (verify_profile m c first) _ valid in
      let (matches, next₂) =
        >>-eq-ok
          (guard (bytes_eq profile.subject root && bytes_eq profile.issuer root)
            (text "profile does not match its root binding"))
          _ next in
      let (new, next₃) =
        >>-eq-ok
          (guard (not (contains seen first))
            (text "authenticated identity repeats a profile variant"))
          _ next₂ in
      rw (verified, collect-validate_profiles root (first ∷ seen) rest next₃) refl

  pub extract-authenticated :
      (id : AuthenticatedIdentity) (b : RootBinding)
      → validate_authenticated_identity m c id ≡ ok b
      → extract_authenticated_identity m c id ≡ ok id
  unfolding validate_authenticated_identity extract_authenticated_identity binding_from_bytes
  extract-authenticated id b valid =
      let (binding, verified, next) = >>=-eq-ok (verify_root_binding m c id.binding) _ valid in
      let (full, next₂) =
        >>-eq-ok
          (guard (not (is_empty id.profiles || is_empty id.keyhive_authority_proof))
            (text "authenticated identity lacks profile or authority proof"))
          _ next in
      let (device, next₃) = >>-eq-ok (valid_key c id.authority_device "authority device") _ next₂ in
      let (profiles, next₄) =
        >>-eq-ok (validate_profiles m c binding.root [] id.profiles) _ next₃ in
      rw
        (
          verified,
          collect-validate_profiles binding.root [] id.profiles profiles,
          key32-valid_key id.authority_device "authority device" "authority device" device,
        )
        refl

  pub collect-validate_identities :
      (seen : List (List ℕ)) (ids : List AuthenticatedIdentity)
      → validate_identities m c seen ids ≡ ok tt
      → (collect (extract_authenticated_identity m c) ids ≡ ok ids)
        × ((requests : List AuthorityRequest) × (collect (authority_request m c) ids ≡ ok requests))
  unfolding collect validate_identities
  collect-validate_identities seen [] valid = (refl, ([], refl))
  collect-validate_identities seen (id ∷ rest) valid =
      let (binding, verified, next) = >>=-eq-ok (validate_authenticated_identity m c id) _ valid in
      let (new, next₂) =
        >>-eq-ok
          (guard (not (contains seen binding.root))
            (text "introduction repeats an authenticated identity"))
          _ next in
      let (same, (requests, made)) = collect-validate_identities (binding.root ∷ seen) rest next₂ in
      (
        collect-cons (extract_authenticated_identity m c) id id rest rest
            (extract-authenticated id binding verified) same,
        (
          _,
          collect-cons (authority_request m c) id _ rest requests
              (authority_request-validated m c id binding verified) made,
        ),
      )

  pub collect-validate_parties :
      (seen : List (List ℕ)) (parties : List Party)
      → validate_parties c seen parties ≡ ok tt
      → collect (extract_party) parties ≡ ok parties
  unfolding collect validate_parties extract_party extract_claims
  collect-validate_parties seen [] valid = refl
  collect-validate_parties seen (party ∷ rest) valid =
      let (key, next) = >>-eq-ok (valid_key c party.public_key "observed party key") _ valid in
      let (new, next₂) =
        >>-eq-ok
          (guard (not (contains seen party.public_key)) (text "introduction repeats a party")) _
          next in
      let (claims, next₃) = >>-eq-ok (validate_claims party.observations) _ next₂ in
      rw
        (
          key32-valid_key party.public_key "observed party key" "observed party key" key,
          claims,
          collect-validate_parties (party.public_key ∷ seen) rest next₃,
        )
        refl
