-- ===== src/Introduction/Selection.antt =====
-- runtime/crates/contacts-model/src/lib.rs: the kernel's authority callback, and what a user may
-- select of a verified introduction.
use polyvisor.Common.{
  ℕ, ◌<◌, ◌≡◌, refl, sym, subst, List, [], ◌∷◌, Bool, true, false, not, ◌&&◌, ◌||◌, Result, ok,
  guard, ◌>>=◌, ◌>>◌, ok-inj, >>=-eq-ok, >>-eq-ok, guard-eq-ok, length, ltb, ◌==◌, All, arith,
}
use polyvisor.Introduction.{
  Why, text, Introduction, AuthenticatedIdentity, AuthorityRequest, PendingIntroduction, Messages,
  Ed25519, contains,
}
use polyvisor.Introduction.Signed.{verify_root_binding}
use polyvisor.Introduction.Verify.{collect, all_identities, verify_introduction}
use polyvisor.Introduction.Soundness.{IsSound, verify_introduction-IsSound}

-- The loop of `validate_authority`, over the kernel's answer to a request.
unfoldable pub validate_requests :
    (AuthorityRequest → Result Why (Unit {0})) → List AuthorityRequest → Result Why (Unit {0})
validate_requests kernel_validate [] = ok tt
validate_requests kernel_validate (request ∷ rest) = do
  kernel_validate request
  validate_requests kernel_validate rest

-- `validate_authority`: a `VerifiedIntroduction` is its introduction.
unfoldable pub validate_authority :
    PendingIntroduction → (AuthorityRequest → Result Why (Unit {0})) → Result Why Introduction
validate_authority pending kernel_validate = do
  validate_requests kernel_validate pending.requests
  ok pending.introduction

pub record SelectedIntroduction : Type 0 where
  pub introduction : Introduction
  pub roots : List (List ℕ)
  pub parties : List ℕ

-- The set of a list has as many elements as the list.
unfoldable pub is_distinct : List (List ℕ) → Bool
is_distinct [] = true
is_distinct (x ∷ xs) = not (contains xs x) && is_distinct xs

unfoldable pub has_index : List ℕ → ℕ → Bool
has_index [] i = false
has_index (j ∷ js) i = (j == i) || has_index js i

unfoldable pub distinct_indices : List ℕ → Bool
distinct_indices [] = true
distinct_indices (i ∷ is) = not (has_index is i) && distinct_indices is

-- `is_subset`.
unfoldable pub all_in : List (List ℕ) → List (List ℕ) → Bool
all_in available [] = true
all_in available (x ∷ xs) = contains available x && all_in available xs

-- `any(|index| *index as usize >= len)`, negated.
unfoldable pub all_under : ℕ → List ℕ → Bool
all_under count [] = true
all_under count (i ∷ is) = ltb i count && all_under count is

module _ (m : Messages) (c : Ed25519) where
  unfoldable pub available_root : AuthenticatedIdentity → Result Why (List ℕ)
  available_root identity = do binding ← verify_root_binding m c identity.binding; ok binding.root

  -- `VerifiedIntroduction::select`.
  unfoldable pub select : Introduction → List (List ℕ) → List ℕ → Result Why SelectedIntroduction
  select introduction identity_roots party_indices = do
    available ← collect available_root (all_identities introduction)
    guard (is_distinct identity_roots && all_in available identity_roots)
        (text "identity selection was not present in the verified introduction")
    guard (distinct_indices party_indices && all_under (length introduction.parties) party_indices)
        (text "party selection was not present in the verified introduction")
    ok (record { introduction = introduction; roots = identity_roots; parties = party_indices })

all_in-All :
    (available xs : List (List ℕ))
    → all_in available xs ≡ true
    → All (λ x. contains available x ≡ true) xs
unfolding all_in
all_in-All available [] h = tt
all_in-All available (x ∷ xs) h = (ground arith, all_in-All available xs (ground arith))

all_under-All : (count : ℕ) (is : List ℕ) → all_under count is ≡ true → All (λ i. i < count) is
unfolding all_under
all_under-All count [] h = tt
all_under-All count (i ∷ is) h = (ground arith, all_under-All count is (ground arith))

accepted-All :
    (kernel_validate : AuthorityRequest → Result Why (Unit {0})) (requests : List AuthorityRequest)
    → validate_requests kernel_validate requests ≡ ok tt
    → All (λ request. kernel_validate request ≡ ok tt) requests
unfolding validate_requests
accepted-All kernel_validate [] accepted = tt
accepted-All kernel_validate (request ∷ rest) accepted =
    let (first, next) = >>-eq-ok (kernel_validate request) _ accepted in
    (first, accepted-All kernel_validate rest next)

-- An introduction that verified, and then became available through the kernel's callback, is sound
-- and is the one that verified, and the kernel accepted the authority request of each identity.
-- Sound means: the envelope's signature is good, strictly, for its payload under the introduction
-- domain and the device's key; that payload decodes to the message of this very introduction, with
-- all its identities and parties; the device is the one that the issuer's authority names; the requests
-- are those of all identities, the issuer first; no two identities have one root; and no two parties
-- have one key, nor the issuer's root.
pub validate_authority-IsSound :
    (m : Messages) (c : Ed25519) (kernel_validate : AuthorityRequest → Result Why (Unit {0}))
    (bytes : List ℕ) (pending : PendingIntroduction) (introduction : Introduction)
    → verify_introduction m c bytes ≡ ok pending
    → validate_authority pending kernel_validate ≡ ok introduction
    → IsSound m c bytes pending
      × (introduction ≡ pending.introduction)
      × All (λ request. kernel_validate request ≡ ok tt) pending.requests
unfolding validate_authority
validate_authority-IsSound m c kernel_validate bytes pending introduction verified went =
    let (accepted, is) = >>-eq-ok (validate_requests kernel_validate pending.requests) _ went in
    (
      verify_introduction-IsSound m c bytes pending verified,
      sym (ok-inj is),
      accepted-All kernel_validate pending.requests accepted,
    )

-- What is selected was present: every root is that of a verified binding of the introduction, and
-- every index is of one of its parties.
pub select-All :
    (m : Messages) (c : Ed25519) (introduction : Introduction) (identity_roots : List (List ℕ))
    (party_indices : List ℕ) (selected : SelectedIntroduction)
    → select m c introduction identity_roots party_indices ≡ ok selected
    → ((available : List (List ℕ)) × (collect (available_root m c) (all_identities introduction)
          ≡ ok available)
        × All (λ root. contains available root ≡ true) selected.roots)
      × All (λ index. index < length selected.introduction.parties) selected.parties
      × (selected.introduction ≡ introduction)
unfolding select
select-All m c introduction identity_roots party_indices selected went =
    let (available, found, next) =
      >>=-eq-ok (collect (available_root m c) (all_identities introduction)) _ went in
    let (roots, next₂) =
      guard-eq-ok (is_distinct identity_roots && all_in available identity_roots) _ _ next in
    let (parties, is) =
      guard-eq-ok
        (distinct_indices party_indices && all_under (length introduction.parties) party_indices) _
        _ next₂ in
    subst
      (λ s.
        ((available : List (List ℕ)) × (collect (available_root m c) (all_identities introduction)
            ≡ ok available)
          × All (λ root. contains available root ≡ true) s.roots)
        × All (λ index. index < length s.introduction.parties) s.parties
        × (s.introduction ≡ introduction))
      (ok-inj is)
      (
        (available, found, all_in-All available identity_roots (ground arith)),
        all_under-All (length introduction.parties) party_indices (ground arith),
        refl,
      )
