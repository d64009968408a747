-- ===== src/Introduction/Extracted.antt =====
-- runtime/crates/contacts-model/src/lib.rs: the extraction of a message keeps all of it.
use Prim.Native.String.{String}
use polyvisor.Common.{
  ℕ, ◌≡◌, refl, sym, ap, ap₂, subst, ◌∙◌, List, [], ◌∷◌, some, Result, ok, ok_or, ok-inj,
  ok_or-eq-ok, >>=-eq-ok, >>-eq-ok, guard-eq-ok, length, ◌==◌, arith,
}
use polyvisor.Introduction.{
  Why, text, ℤ, Timestamp, pos, negsuc, Party, AuthenticatedIdentity, Introduction,
  WireIntroduction, Messages, Ed25519, version, require_version, key32, valid_time, validate_claims,
  extract_claims,
}
use polyvisor.Introduction.Signed.{
  verify_root_binding, verify_profile, binding_from_bytes, profile_from_bytes,
}
use polyvisor.Introduction.Verify.{
  collect, nanos_of, extract_party, extract_authenticated_identity, extract_introduction,
  protobuf_introduction,
}

-- A conversion that succeeds gives what it was given.
abbrev Keeps {ℓ} : {A : Type ℓ} → (A → Result Why A) → Type ℓ
Keeps {A} f = (a b : A) → f a ≡ ok b → b ≡ a

collect-Keeps : {A : Type 0} (f : A → Result Why A) → Keeps f → Keeps (collect f)
unfolding collect
collect-Keeps f keeps [] bs h = sym (ok-inj h)
collect-Keeps f keeps (a ∷ items) bs h =
    let (first, x, next) = >>=-eq-ok (f a) _ h in
    let (rest, y, is) = >>=-eq-ok (collect f items) _ next in
    sym (ok-inj is) ∙ ap₂ (λ b l. b ∷ l) (keeps a first x) (collect-Keeps f keeps items rest y)

key32-Keeps : (what : String) → Keeps (λ bytes. key32 bytes what)
unfolding key32
key32-Keeps what a b h = sym (ok-inj (guard-eq-ok (length a == 32) _ _ h).1)

extract_party-Keeps : Keeps extract_party
unfolding extract_party extract_claims
extract_party-Keeps party b h =
    let (key, x, next) = >>=-eq-ok (key32 party.public_key "observed party key") _ h in
    let (claims, y, is) = >>=-eq-ok (extract_claims party.observations) _ next in
    let (_, same) = >>-eq-ok (validate_claims party.observations) _ y in
    sym (ok-inj is)
    ∙ ap₂ (λ k l. record { public_key = k; observations = l })
        (key32-Keeps "observed party key" party.public_key key x) (sym (ok-inj same))

require_version-eq :
    (found : ℕ) (what : String) → require_version found what ≡ ok tt → found ≡ version
unfolding require_version
require_version-eq found what h = ground arith

nanos_of-eq : (n : ℤ) (k : ℕ) → nanos_of n ≡ ok k → pos k ≡ n
unfolding nanos_of
nanos_of-eq (pos n) k h = ap pos (sym (ok-inj h))
nanos_of-eq (negsuc n) k h = cc

-- The message whose parts are these.
assemble :
    (wire : WireIntroduction) (time : Timestamp) (nanos : ℕ)
    (wire_issuer issuer : AuthenticatedIdentity) (device : List ℕ)
    (identities : List AuthenticatedIdentity) (parties : List Party)
    → wire.version ≡ version
    → wire.issued_at ≡ some time
    → pos nanos ≡ time.nanos
    → wire.issuer ≡ some wire_issuer
    → issuer ≡ wire_issuer
    → device ≡ wire.device_signing_key
    → identities ≡ wire.authenticated_identities
    → parties ≡ wire.parties
    → protobuf_introduction (record {
      issuer = issuer;
      device = device;
      authenticated_identities = identities;
      parties = parties;
      issued_at = record { seconds = time.seconds; nanos = nanos };
    })
      ≡ wire
unfolding protobuf_introduction
assemble wire time nanos wire_issuer issuer device identities parties =
    λ a b d e f g h i. ground arith

module _ (m : Messages) (c : Ed25519) where
  binding_from_bytes-Keeps : Keeps (binding_from_bytes m c)
  unfolding binding_from_bytes
  binding_from_bytes-Keeps a b h =
      let (_, _, is) = >>=-eq-ok (verify_root_binding m c a) _ h in sym (ok-inj is)

  profile_from_bytes-Keeps : Keeps (profile_from_bytes m c)
  unfolding profile_from_bytes
  profile_from_bytes-Keeps a b h =
      let (_, _, is) = >>=-eq-ok (verify_profile m c a) _ h in sym (ok-inj is)

  extract_authenticated_identity-Keeps : Keeps (extract_authenticated_identity m c)
  unfolding extract_authenticated_identity
  extract_authenticated_identity-Keeps value b h =
      let (binding, x, next) = >>=-eq-ok (binding_from_bytes m c value.binding) _ h in
      let (profiles, y, next₂) =
        >>=-eq-ok (collect (profile_from_bytes m c) value.profiles) _ next in
      let (device, z, is) = >>=-eq-ok (key32 value.authority_device "authority device") _ next₂ in
      let same_binding = binding_from_bytes-Keeps value.binding binding x in
      let same_profiles =
        collect-Keeps (profile_from_bytes m c) profile_from_bytes-Keeps value.profiles profiles y in
      let same_device = key32-Keeps "authority device" value.authority_device device z in
      sym (ok-inj is) ∙ rw (same_binding, same_profiles, same_device) refl

  -- The introduction that is extracted prints back to the message it was extracted from.
  pub extract_introduction-protobuf_introduction :
      (wire : WireIntroduction) (value : Introduction)
      → extract_introduction m c wire ≡ ok value
      → protobuf_introduction value ≡ wire
  unfolding extract_introduction
  extract_introduction-protobuf_introduction wire value h =
      let (_, h1) = >>-eq-ok (require_version wire.version "introduction") _ h in
      let (time, t, h2) =
        >>=-eq-ok (ok_or wire.issued_at (text "introduction has no issued time")) _ h1 in
      let (nanos, n, h3) = >>=-eq-ok (nanos_of time.nanos) _ h2 in
      let (_, h4) = >>-eq-ok (valid_time (record { seconds = time.seconds; nanos = nanos })) _ h3 in
      let (wire_issuer, i, h5) =
        >>=-eq-ok (ok_or wire.issuer (text "introduction has no issuer")) _ h4 in
      let (issuer, j, h6) = >>=-eq-ok (extract_authenticated_identity m c wire_issuer) _ h5 in
      let (device, k, h7) = >>=-eq-ok (key32 wire.device_signing_key "device signing key") _ h6 in
      let (identities, l, h8) =
        >>=-eq-ok (collect (extract_authenticated_identity m c) wire.authenticated_identities) _
          h7 in
      let (parties, p, is) = >>=-eq-ok (collect extract_party wire.parties) _ h8 in
      let same_version =
        require_version-eq wire.version "introduction"
          (>>-eq-ok (require_version wire.version "introduction") _ h).0 in
      let timed = ok_or-eq-ok wire.issued_at _ t in
      let issued = ok_or-eq-ok wire.issuer _ i in
      let same_nanos = nanos_of-eq time.nanos nanos n in
      let same_issuer = extract_authenticated_identity-Keeps wire_issuer issuer j in
      let same_device = key32-Keeps "device signing key" wire.device_signing_key device k in
      let same_identities =
        collect-Keeps (extract_authenticated_identity m c) extract_authenticated_identity-Keeps
          wire.authenticated_identities identities l in
      let same_parties = collect-Keeps extract_party extract_party-Keeps wire.parties parties p in
      subst (λ v. protobuf_introduction v ≡ wire) (ok-inj is)
        (assemble wire time nanos wire_issuer issuer device identities parties same_version timed
          same_nanos issued same_issuer same_device same_identities same_parties)
