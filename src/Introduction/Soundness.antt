-- ===== src/Introduction/Soundness.antt =====
-- runtime/crates/contacts-model/src/lib.rs: what an introduction that verified is known to satisfy.
use polyvisor.Common.{
  ℕ, ◌+◌, ◌≡◌, refl, sym, ap, subst, ◌∙◌, List, [], ◌∷◌, map, some, Bool, true, false, not, ok,
  guard, ok_or, ok-inj, ok_or-eq-ok, >>=-eq-ok, >>-eq-ok, guard-eq-ok, length, leb, bytes_eq,
  bytes_eq→eq, All, arith,
}
use polyvisor.Introduction.{
  Why, text, Party, RootBinding, AuthenticatedIdentity, Introduction, AuthorityRequest,
  PendingIntroduction, Envelope, Messages, Ed25519, max_parties, introduction_domain,
  domain_message, contains, bounded, valid_time, validate_claims, valid_key, verify_signature,
}
use polyvisor.Introduction.Accepted.{authority_request-validated}
use polyvisor.Introduction.Verify.{
  collect, validate_authenticated_identity, authority_request, validate_identities,
  validate_parties, validate_introduction, extract_introduction, all_identities,
  protobuf_introduction, verify_introduction,
}
use polyvisor.Introduction.Extracted.{extract_introduction-protobuf_introduction}

-- No two of the list are equal.
unfoldable pub IsApart : List (List ℕ) → Type 0
IsApart [] = Unit {0}
IsApart (x ∷ xs) = All (λ y. bytes_eq x y ≡ false) xs × IsApart xs

-- What is in no longer list is not its head, and not in its tail.
contains-cons :
    (x : List ℕ) (seen l : List (List ℕ))
    → All (λ y. contains (x ∷ seen) y ≡ false) l
    → All (λ y. bytes_eq x y ≡ false) l × All (λ y. contains seen y ≡ false) l
unfolding contains
contains-cons x seen [] none_in = (tt, tt)
contains-cons x seen (y ∷ l) (out, none_in) =
    let (heads, tails) = contains-cons x seen l none_in in
    ((ground arith, heads), (ground arith, tails))

abbrev pub roots : List AuthorityRequest → List (List ℕ)
roots requests = map (λ r. r.root) requests

abbrev pub keys : List Party → List (List ℕ)
keys parties = map (λ p. p.public_key) parties

parties-IsApart :
    (c : Ed25519) (seen : List (List ℕ)) (parties : List Party)
    → validate_parties c seen parties ≡ ok tt
    → All (λ y. contains seen y ≡ false) (keys parties) × IsApart (keys parties)
unfolding validate_parties IsApart
parties-IsApart c seen [] valid = (tt, tt)
parties-IsApart c seen (party ∷ rest) valid =
    let (key, next) = >>-eq-ok (valid_key c party.public_key "observed party key") _ valid in
    let (new, next₂) = guard-eq-ok (not (contains seen party.public_key)) _ _ next in
    let (claims, next₃) = >>-eq-ok (validate_claims party.observations) _ next₂ in
    let (out, apart) = parties-IsApart c (party.public_key ∷ seen) rest next₃ in
    let (heads, tails) = contains-cons party.public_key seen (keys rest) out in
    ((ground arith, tails), (heads, apart))

module _ (m : Messages) (c : Ed25519) where
  collect-request :
      (id : AuthenticatedIdentity) (rest : List AuthenticatedIdentity) (binding : RootBinding)
      (requests : List AuthorityRequest)
      → validate_authenticated_identity m c id ≡ ok binding
      → collect (authority_request m c) (id ∷ rest) ≡ ok requests
      → (others : List AuthorityRequest) × (collect (authority_request m c) rest ≡ ok others)
        × (roots requests ≡ binding.root ∷ roots others)
  unfolding collect authority_request
  collect-request id rest binding requests verified made =
      let (first, asked, next) = >>=-eq-ok (authority_request m c id) _ made in
      let (others, went, is) = >>=-eq-ok (collect (authority_request m c) rest) _ next in
      let known : first.root ≡ binding.root =
        ap (λ r. r.root)
          (ok-inj (sym asked ∙ authority_request-validated m c id binding verified)) in
      let list : first ∷ others ≡ requests = ok-inj is in
      (others, went, sym (ap roots list) ∙ ap (λ r. r ∷ roots others) known)

  identities-IsApart :
      (seen : List (List ℕ)) (ids : List AuthenticatedIdentity) (requests : List AuthorityRequest)
      → validate_identities m c seen ids ≡ ok tt
      → collect (authority_request m c) ids ≡ ok requests
      → All (λ y. contains seen y ≡ false) (roots requests) × IsApart (roots requests)
  unfolding validate_identities IsApart collect
  identities-IsApart seen [] requests valid made =
      let none_left : [] ≡ requests = empty requests made in
      subst (λ l. All (λ y. contains seen y ≡ false) (roots l) × IsApart (roots l)) none_left
        (tt, tt)
    where
      empty :
          (requests : List AuthorityRequest)
          → collect (authority_request m c) [] ≡ ok requests
          → [] ≡ requests
      empty requests made = ok-inj made
  identities-IsApart seen (id ∷ rest) requests valid made =
      let (binding, verified, next) = >>=-eq-ok (validate_authenticated_identity m c id) _ valid in
      let (new, next₂) = guard-eq-ok (not (contains seen binding.root)) _ _ next in
      let (others, went, list) = collect-request id rest binding requests verified made in
      let (out, apart) = identities-IsApart (binding.root ∷ seen) rest others next₂ went in
      let (heads, tails) = contains-cons binding.root seen (roots others) out in
      rw list ((ground arith, tails), (heads, apart))

  validated-IsApart :
      (value : Introduction) (requests : List AuthorityRequest)
      → validate_introduction m c value ≡ ok tt
      → collect (authority_request m c) (all_identities value) ≡ ok requests
      → (value.issuer.authority_device ≡ value.device)
        × IsApart (roots requests)
        × ((binding : RootBinding) × (validate_authenticated_identity m c value.issuer ≡ ok binding)
            × IsApart (binding.root ∷ keys value.parties))
  unfolding validate_introduction all_identities IsApart
  validated-IsApart value requests valid made =
      let (time, next) = >>-eq-ok (valid_time value.issued_at) _ valid in
      let (few, next₂) =
        >>-eq-ok
          (guard (leb (length value.parties + 1) max_parties)
            (text "introduction has too many parties"))
          _ next in
      let (device, next₃) = >>-eq-ok (valid_key c value.device "device signing key") _ next₂ in
      let (binding, issuer, next₄) =
        >>=-eq-ok (validate_authenticated_identity m c value.issuer) _ next₃ in
      let (signer, next₅) =
        guard-eq-ok (bytes_eq value.issuer.authority_device value.device) _ _ next₄ in
      let (ids, parties) =
        >>-eq-ok (validate_identities m c (binding.root ∷ []) value.authenticated_identities) _
          next₅ in
      let (others, went, list) =
        collect-request value.issuer value.authenticated_identities binding requests issuer made in
      let (out, apart) =
        identities-IsApart (binding.root ∷ []) value.authenticated_identities others ids went in
      let (keys_out, keys_apart) = parties-IsApart c (binding.root ∷ []) value.parties parties in
      (
        bytes_eq→eq value.issuer.authority_device value.device signer,
        rw list ((contains-cons binding.root [] (roots others) out).0, apart),
        (
          binding,
          issuer,
          ((contains-cons binding.root [] (keys value.parties) keys_out).0, keys_apart),
        ),
      )

  verify_signature-eq-ok :
      (key payload signature : List ℕ)
      → verify_signature c key introduction_domain payload signature ≡ ok tt
      → c.verify_strict key (domain_message introduction_domain payload) signature ≡ true
  unfolding verify_signature
  verify_signature-eq-ok key payload signature good =
      let (is_key, next) = >>-eq-ok (valid_key c key "signing key") _ good in
      let (shape, next₂) =
        >>-eq-ok (guard (c.is_signature signature) (text "invalid signature")) _ next in
      guard_true _ _ next₂
    where
      guard_true : (t : Bool) (e : Why) → guard t e ≡ ok tt → t ≡ true
      guard_true true e h = refl
      guard_true false e h = cc

  unfoldable pub IsSound : List ℕ → PendingIntroduction → Type 0
  IsSound bytes pending =
      ((signed : Envelope) × (m.envelope.decode bytes ≡ some signed)
        × (c.verify_strict pending.introduction.device
              (domain_message introduction_domain signed.payload) signed.signature
            ≡ true)
        × (m.introduction.decode signed.payload
            ≡ some (protobuf_introduction pending.introduction)))
      × (pending.introduction.issuer.authority_device ≡ pending.introduction.device)
      × (collect (authority_request m c) (all_identities pending.introduction)
          ≡ ok pending.requests)
      × IsApart (roots pending.requests)
      × ((binding : RootBinding) × (validate_authenticated_identity m c pending.introduction.issuer
            ≡ ok binding)
          × IsApart (binding.root ∷ keys pending.introduction.parties))

  -- An introduction that verifies is sound: its envelope's signature is good, strictly, for its
  -- payload under the introduction domain and the device's key, and the payload is the message of
  -- this very introduction. The device is the one that the
  -- issuer's authority names; every identity, the issuer first, has an authority request; no two of
  -- them have one root; and no two parties have one key, nor the issuer's root.
  pub verify_introduction-IsSound :
      (bytes : List ℕ) (pending : PendingIntroduction)
      → verify_introduction m c bytes ≡ ok pending
      → IsSound bytes pending
  unfolding verify_introduction IsSound
  verify_introduction-IsSound bytes pending went =
      let (small, next) = >>-eq-ok (bounded bytes) _ went in
      let (signed, decoded, next₂) =
        >>=-eq-ok (ok_or (m.envelope.decode bytes) (text "invalid introduction envelope")) _ next in
      let (wire, read, next₃) =
        >>=-eq-ok
          (ok_or (m.introduction.decode signed.payload) (text "invalid introduction payload")) _
          next₂ in
      let (introduction, extracted, next₄) = >>=-eq-ok (extract_introduction m c wire) _ next₃ in
      let (valid, next₅) = >>-eq-ok (validate_introduction m c introduction) _ next₄ in
      let (signature, next₆) =
        >>-eq-ok
          (verify_signature c introduction.device introduction_domain signed.payload
            signed.signature)
          _ next₅ in
      let (requests, made, is) =
        >>=-eq-ok (collect (authority_request m c) (all_identities introduction)) _ next₆ in
      let (device, apart, parties) = validated-IsApart introduction requests valid made in
      let shape = ok-inj is in
      subst (IsSound bytes) shape (
        (
          signed,
          ok_or-eq-ok (m.envelope.decode bytes) _ decoded,
          verify_signature-eq-ok introduction.device signed.payload signed.signature signature,
          ok_or-eq-ok (m.introduction.decode signed.payload) _ read
              ∙ ap some (
                  sym (extract_introduction-protobuf_introduction m c wire introduction extracted)),
        ),
        device,
        made,
        apart,
        parties,
      )
