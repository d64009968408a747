-- ===== src/Policy/Rules.antt =====
-- runtime/crates/engine/src/policy.rs: the answers against a list of what is permitted.
use polyvisor.Common.{
  ℕ, ◌≡◌, refl, ◌∙◌, ◌↔◌, ◌⊎◌, inl, inr, List, Option, none, some, Bool, true, false, Bool-cases,
  ◌||◌, arith, if◌then◌else◌, In, head, behind, map, [], ◌∷◌, ◌≢◌, bytes_eq, bytes_eq→eq,
  bytes_eq_refl, get_or, subst, ap,
}
use polyvisor.Opaque.{lookup, has_key, is_opaque_tree, status}
use polyvisor.Policy.{
  GroupPolicy, TreeAuthority, Provenance, own, remote, allow, deny, contains, retired,
  peer_not_ready, reserved, is_true, allowed, judge, authorize,
}

-- This device is always ready; a peer is once its key is among those of the ready peers.
abbrev Ready : GroupPolicy → Provenance → Type 0
Ready p own = Unit
Ready p (remote peer) = In peer (map (λ entry. entry.0) p.lifecycle.ready_peers)

-- What an operation that is not a deletion asks for: a tree that is not opaque, or one whose register
-- says that it is on, and a party that is ready.
pub data InUse (p : GroupPolicy) (who : Provenance) (tree : List ℕ) : Type 0 where
  plain : is_opaque_tree tree ≡ false → InUse p who tree
  opaque : status p.lifecycle tree ≡ some true → Ready p who → InUse p who tree

-- What is permitted, by who asks and what governs the tree. The tags 2 and 3 are those of the shared
-- trees and of their authority.
pub data Permitted (p : GroupPolicy) (tree : List ℕ) (deleting : Bool) : Provenance → Type 0 where
  local : (deleting ≡ true) ⊎ InUse p own tree → Permitted p tree deleting own
  reader :
      (peer : List ℕ) (authority : TreeAuthority)
      → deleting ≡ false
      → InUse p (remote peer) tree
      → lookup tree p.shared ≡ some authority
      → In peer authority.readers
      → Permitted p tree deleting (remote peer)
  member :
      (peer : List ℕ)
      → (deleting ≡ true) ⊎ InUse p (remote peer) tree
      → lookup tree p.shared ≡ none
      → get_or tree 0 0 ≢ 2
      → get_or tree 0 0 ≢ 3
      → In peer p.members
      → Permitted p tree deleting (remote peer)

contains→In : (key : List ℕ) (keys : List (List ℕ)) → contains key keys ≡ true → In key keys
unfolding contains
contains→In key [] h = cc
contains→In key (k ∷ keys) h = elim (Bool-cases (bytes_eq key k)) [
  | inl e ↦ head (bytes_eq→eq key k e)
  | inr e ↦ behind (contains→In key keys (ground arith))
]

In→contains : (key : List ℕ) (keys : List (List ℕ)) → In key keys → contains key keys ≡ true
unfolding contains
In→contains key [] i = elim i [ ]
In→contains key (k ∷ keys) (head e) =
    let same : bytes_eq key k ≡ true = subst (λ x. bytes_eq key x ≡ true) e (bytes_eq_refl key) in
    rw same refl
In→contains key (k ∷ keys) (behind i) = elim (Bool-cases (bytes_eq key k)) [
  | inl e ↦ rw e refl
  | inr e ↦ rw e (In→contains key keys i)
]

has_key→In {ℓ} :
    {A : Type ℓ} (key : List ℕ) (entries : List (List ℕ × A))
    → has_key key entries ≡ true
    → In key (map (λ entry. entry.0) entries)
unfolding has_key
has_key→In key [] h = cc
has_key→In key ((k, a) ∷ entries) h = elim (Bool-cases (bytes_eq key k)) [
  | inl e ↦ head (bytes_eq→eq key k e)
  | inr e ↦ behind (has_key→In key entries (ground arith))
]

In→has_key {ℓ} :
    {A : Type ℓ} (key : List ℕ) (entries : List (List ℕ × A))
    → In key (map (λ entry. entry.0) entries)
    → has_key key entries ≡ true
unfolding has_key
In→has_key key [] i = elim i [ ]
In→has_key key ((k, a) ∷ entries) (head e) =
    let same : bytes_eq key k ≡ true = subst (λ x. bytes_eq key x ≡ true) e (bytes_eq_refl key) in
    rw same refl
In→has_key key ((k, a) ∷ entries) (behind i) = elim (Bool-cases (bytes_eq key k)) [
  | inl e ↦ rw e refl
  | inr e ↦ rw e (In→has_key key entries i)
]

is_true→eq : (o : Option Bool) → is_true o ≡ true → o ≡ some true
is_true→eq none h = cc
is_true→eq (some b) h = ap some h

module _ (p : GroupPolicy) (tree : List ℕ) where
  in_use :
      (who : Provenance)
      → retired p tree ≡ false
      → peer_not_ready p who tree ≡ false
      → InUse p who tree
  unfolding retired
  in_use who r n = elim (Bool-cases (is_opaque_tree tree)) [
    | inr e ↦ plain e
    | inl e ↦ elim (Bool-cases (is_true (status p.lifecycle tree))) [
      | inr off ↦ absurd (ground (arith, e, off))
      | inl on ↦ opaque (is_true→eq (status p.lifecycle tree) on) (ready who e n)
    ]
  ]
    where
      ready :
          (who : Provenance)
          → is_opaque_tree tree ≡ true
          → peer_not_ready p who tree ≡ false
          → Ready p who
      ready own e n = tt
      ready (remote peer) e n = has_key→In peer p.lifecycle.ready_peers (ground (arith, e))

  passes_both :
      (who : Provenance)
      → InUse p who tree
      → (retired p tree ≡ false) × (peer_not_ready p who tree ≡ false)
  unfolding retired
  passes_both own (plain e) = (rw e refl, refl)
  passes_both (remote peer) (plain e) = (rw e refl, rw e refl)
  passes_both own (opaque on ready) = (ground (arith, on), refl)
  passes_both (remote peer) (opaque on ready) =
      (ground (arith, on), ground (arith, In→has_key peer p.lifecycle.ready_peers ready))

reserved-false :
    (tree : List ℕ) → reserved tree ≡ false → (get_or tree 0 0 ≢ 2) × (get_or tree 0 0 ≢ 3)
unfolding reserved
reserved-false tree h = (λ e. ground arith, λ e. ground arith)

not_reserved : (tree : List ℕ) → get_or tree 0 0 ≢ 2 → get_or tree 0 0 ≢ 3 → reserved tree ≡ false
unfolding reserved
not_reserved tree a b = ground arith

module _ (p : GroupPolicy) (tree : List ℕ) (deleting : Bool) where
  -- The first test lets through.
  passed :
      (who : Provenance)
      → authorize p who tree deleting ≡ allow
      → ((deleting ≡ true) ⊎ InUse p who tree) × (judge p who tree deleting ≡ allow)
  unfolding authorize
  passed who h = elim (Bool-cases deleting) [
    | inl d ↦ (inl d, ground (arith, d))
    | inr d ↦ elim (Bool-cases (retired p tree)) [
      | inl r ↦ absurd (ground (arith, d, r))
      | inr r ↦ elim (Bool-cases (peer_not_ready p who tree)) [
        | inl n ↦ absurd (ground (arith, d, r, n))
        | inr n ↦ (inr (in_use p tree who r n), ground (arith, d, r, n))
      ]
    ]
  ]

  passes :
      (who : Provenance)
      → (deleting ≡ true) ⊎ InUse p who tree
      → authorize p who tree deleting ≡ judge p who tree deleting
  unfolding authorize
  passes who (inl d) = elim (Bool-cases (retired p tree || peer_not_ready p who tree)) [
    | inl r ↦ rw (r, d, authorize) refl
    | inr r ↦ rw (r, authorize) refl
  ]
  passes who (inr u) = let (r, n) = passes_both p tree who u in rw (r, n) refl

  judged : (peer : List ℕ) (b : Bool) → (if b then allow else deny) ≡ allow → b ≡ true
  judged peer true h = refl
  judged peer false h = cc

  -- A peer that is allowed is a reader or a member.
  peer-Permitted :
      (peer : List ℕ) (o : Option TreeAuthority)
      → lookup tree p.shared ≡ o
      → (deleting ≡ true) ⊎ InUse p (remote peer) tree
      → allowed p peer tree deleting o ≡ true
      → Permitted p tree deleting (remote peer)
  unfolding allowed
  peer-Permitted peer (some authority) l (inl d) h = absurd (ground (arith, d))
  peer-Permitted peer (some authority) l (inr u) h =
      reader peer authority (ground arith) u l (contains→In peer authority.readers (ground arith))
  peer-Permitted peer none l u h = elim (Bool-cases (reserved tree)) [
    | inl r ↦ absurd (ground (arith, r))
    | inr r ↦
        let (a, b) = reserved-false tree r in
        member peer u l a b (contains→In peer p.members (ground (arith, r)))
  ]

  sound : (who : Provenance) → authorize p who tree deleting ≡ allow → Permitted p tree deleting who
  sound own h = local (passed own h).0
  sound (remote peer) h =
      let (u, j) = passed (remote peer) h in
      peer-Permitted peer (lookup tree p.shared) refl u (judged peer _ j)

  complete :
      (who : Provenance) → Permitted p tree deleting who → authorize p who tree deleting ≡ allow
  unfolding allowed
  complete who (local u) = passes own u
  complete who (reader peer authority d u l r) =
      passes (remote peer) (inr u) ∙ rw (l, d, In→contains peer authority.readers r) refl
  complete who (member peer u l a b i) =
      passes (remote peer) u ∙ rw (l, not_reserved tree a b, In→contains peer p.members i) refl

  -- An operation is allowed exactly if it is permitted: to this device, on a tree in use or to delete;
  -- to a peer, under an authority of the tree as one of its readers and never to delete; to a peer on
  -- any other tree as one of the group's members, if the first byte of the tree is neither 2 nor 3, on
  -- a tree in use or to delete. In use is a tree that is not opaque, or one whose register says that
  -- it is on, and for a peer only if the peer is one of the ready ones.
  pub authorize_lem :
      (who : Provenance) → (authorize p who tree deleting ≡ allow) ↔ Permitted p tree deleting who
  authorize_lem who = (sound who, complete who)
