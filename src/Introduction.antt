-- ===== src/Introduction.antt =====
-- runtime/crates/contacts-model/src/lib.rs: root-signed bindings and profiles, and device-signed
-- introductions of contacts. A key, a text and a signed value are their bytes.
pub mod Signed
pub mod Verify
pub mod Domains
pub mod RoundTrip
pub mod Accepted
pub mod Envelopes
pub mod Extracted
pub mod Soundness
pub mod Selection
pub mod Toy
use Prim.Native.String.{String}
use polyvisor.Common.{
  ℕ, suc, ◌≡◌, List, [], ◌∷◌, ◌++◌, Option, some, Bool, true, false, not, ◌&&◌, ◌||◌, Result, ok,
  err, guard, ◌>>=◌, ◌>>◌, length, ◌==◌, leb, ltb, bytes_eq, codes,
}

-- The text of an error. `invalid what` is `format!("invalid {what}")`, and so on.
pub data Why : Type 0 where
  text invalid weak invalid_length unsupported_version : String → Why

-- An integer of 32 or 64 bits, with its sign.
pub data ℤ : Type 0 where
  pos negsuc : ℕ → ℤ

pub record ClaimedTime : Type 0 where
  pub seconds : ℤ
  pub nanos : ℕ

-- `Claim` and `proto::Claim`, which have the same fields.
pub record Claim : Type 0 where
  pub name : List ℕ
  pub value : List ℕ

-- `Party` and `proto::Party`.
pub record Party : Type 0 where
  pub public_key : List ℕ
  pub observations : List Claim

pub record RootBinding : Type 0 where
  pub root : List ℕ
  pub group : List ℕ

pub record Profile : Type 0 where
  pub subject : List ℕ
  pub issuer : List ℕ
  pub claims : List Claim

-- `AuthenticatedIdentity` and `proto::AuthenticatedIdentity`.
pub record AuthenticatedIdentity : Type 0 where
  pub binding : List ℕ
  pub profiles : List (List ℕ)
  pub authority_device : List ℕ
  pub keyhive_authority_proof : List ℕ

pub record Introduction : Type 0 where
  pub issuer : AuthenticatedIdentity
  pub device : List ℕ
  pub authenticated_identities : List AuthenticatedIdentity
  pub parties : List Party
  pub issued_at : ClaimedTime

pub record AuthorityRequest : Type 0 where
  pub root : List ℕ
  pub group : List ℕ
  pub device : List ℕ
  pub keyhive_authority_proof : List ℕ

pub record PendingIntroduction : Type 0 where
  pub introduction : Introduction
  pub requests : List AuthorityRequest

-- `proto::RootBinding`, `proto::Profile`, `prost_types::Timestamp` and `proto::Introduction`.
pub record WireBinding : Type 0 where
  pub version : ℕ
  pub root_public_key : List ℕ
  pub group_id : List ℕ

pub record WireProfile : Type 0 where
  pub version : ℕ
  pub subject_root : List ℕ
  pub issuer_root : List ℕ
  pub claims : List Claim

pub record Timestamp : Type 0 where
  pub seconds : ℤ
  pub nanos : ℤ

pub record WireIntroduction : Type 0 where
  pub version : ℕ
  pub issuer : Option AuthenticatedIdentity
  pub device_signing_key : List ℕ
  pub authenticated_identities : List AuthenticatedIdentity
  pub parties : List Party
  pub issued_at : Option Timestamp

-- `SignedRootBinding`, `SignedProfile` and `SignedIntroduction` of the messages.
pub record Envelope : Type 0 where
  pub payload : List ℕ
  pub signature : List ℕ

-- prost on one message.
pub record Proto (A : Type 0) : Type 0 where
  pub encode : A → List ℕ
  pub decode : List ℕ → Option A

pub record Messages : Type 0 where
  pub envelope : Proto Envelope
  pub binding : Proto WireBinding
  pub profile : Proto WireProfile
  pub introduction : Proto WireIntroduction

pub record MessagesLaws (m : Messages) : Type 0 where
  pub envelope_law : (e : Envelope) → m.envelope.decode (m.envelope.encode e) ≡ some e
  pub binding_law : (b : WireBinding) → m.binding.decode (m.binding.encode b) ≡ some b
  pub profile_law : (p : WireProfile) → m.profile.decode (m.profile.encode p) ≡ some p
  pub introduction_law :
      (i : WireIntroduction) → m.introduction.decode (m.introduction.encode i) ≡ some i

-- ed25519_dalek: `VerifyingKey::from_bytes` succeeds, `is_weak`, the key of a seed, `sign`,
-- `Signature::from_slice` succeeds, and `verify_strict` at a key, a message and a signature.
pub record Ed25519 : Type 0 where
  pub is_key : List ℕ → Bool
  pub is_weak : List ℕ → Bool
  pub verifying_key : List ℕ → List ℕ
  pub sign : List ℕ → List ℕ → List ℕ
  pub is_signature : List ℕ → Bool
  pub verify_strict : List ℕ → List ℕ → List ℕ → Bool

-- The key of a seed is a point of large order, and what a seed signs verifies under its key.
pub record Ed25519Laws (c : Ed25519) : Type 0 where
  pub is_key_length : (k : List ℕ) → c.is_key k ≡ true → length k ≡ 32
  pub verifying_key-is_key : (s : List ℕ) → c.is_key (c.verifying_key s) ≡ true
  pub verifying_key-is_weak : (s : List ℕ) → c.is_weak (c.verifying_key s) ≡ false
  pub sign-is_signature : (s m : List ℕ) → c.is_signature (c.sign s m) ≡ true
  pub verify_strict-sign :
      (s m : List ℕ) → c.verify_strict (c.verifying_key s) m (c.sign s m) ≡ true

-- `VERSION` and the bounds.
abbrev pub version : ℕ
version = 0

abbrev pub max_signed_bytes : ℕ
max_signed_bytes = 262_144

abbrev pub max_parties : ℕ
max_parties = 64

abbrev pub max_claims_per_party : ℕ
max_claims_per_party = 128

abbrev pub max_name_bytes : ℕ
max_name_bytes = 256

abbrev pub max_value_bytes : ℕ
max_value_bytes = 4_096

pub data Domain : Type 0 where
  binding_domain profile_domain introduction_domain : Domain

-- `BINDING_DOMAIN`, `PROFILE_DOMAIN` and `INTRODUCTION_DOMAIN`.
unfoldable pub domain_bytes : Domain → List ℕ
domain_bytes binding_domain = codes "polyvisor:root-group-binding:v0\0"
domain_bytes profile_domain = codes "polyvisor:self-profile:v0\0"
domain_bytes introduction_domain = codes "polyvisor:introduction:v0\0"

unfoldable pub domain_message : Domain → List ℕ → List ℕ
domain_message domain payload = domain_bytes domain ++ payload

-- `BTreeSet::contains`, on a list of the elements.
unfoldable pub contains : List (List ℕ) → List ℕ → Bool
contains [] x = false
contains (y ∷ ys) x = bytes_eq y x || contains ys x

unfoldable pub bounded : List ℕ → Result Why (Unit {0})
bounded bytes = guard (leb (length bytes) max_signed_bytes) (text "signed value is too large")

unfoldable pub require_version : ℕ → String → Result Why (Unit {0})
require_version found what = guard (found == version) (unsupported_version what)

unfoldable pub key32 : List ℕ → String → Result Why (List ℕ)
key32 bytes what = do guard (length bytes == 32) (invalid_length what); ok bytes

unfoldable pub valid_seconds : ℤ → Bool
valid_seconds (pos n) = leb n 253_402_300_799
valid_seconds (negsuc n) = leb (suc n) 62_135_596_800

unfoldable pub valid_time : ClaimedTime → Result Why (Unit {0})
valid_time time =
    guard (valid_seconds time.seconds && ltb time.nanos 1_000_000_000)
      (text "invalid introduction time")

unfoldable pub validate_each : List Claim → Result Why (Unit {0})
validate_each [] = ok tt
validate_each (claim ∷ claims) = do
  guard (not (ltb max_name_bytes (length claim.name) || ltb max_value_bytes (length claim.value)))
      (text "claim is too large")
  validate_each claims

unfoldable pub validate_claims : List Claim → Result Why (Unit {0})
validate_claims claims = do
  guard (leb (length claims) max_claims_per_party) (text "too many claims")
  validate_each claims

unfoldable pub extract_claims : List Claim → Result Why (List Claim)
extract_claims claims = do validate_claims claims; ok claims

module _ (c : Ed25519) where
  unfoldable pub valid_key : List ℕ → String → Result Why (Unit {0})
  valid_key bytes what = do
    guard (c.is_key bytes) (invalid what)
    guard (not (c.is_weak bytes)) (weak what)

  unfoldable pub verify_signature : List ℕ → Domain → List ℕ → List ℕ → Result Why (Unit {0})
  verify_signature key domain payload signature = do
    valid_key key "signing key"
    guard (c.is_signature signature) (text "invalid signature")
    guard (c.verify_strict key (domain_message domain payload) signature)
        (text "signature does not verify")
