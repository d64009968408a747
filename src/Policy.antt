-- ===== src/Policy.antt =====
-- runtime/crates/engine/src/policy.rs: what a storage operation on a tree is allowed.
pub mod Rules
mod Tests
use polyvisor.Common.{
  ℕ, List, [], ◌∷◌, Option, none, some, Bool, true, false, ◌&&◌, ◌||◌, not, ◌==◌, get_or,
  if◌then◌else◌, bytes_eq,
}
use polyvisor.Opaque.{Lifecycle, has_key, lookup, is_opaque_tree, status}

pub record TreeAuthority : Type 0 where
  pub readers : List (List ℕ)
  pub editors : List (List ℕ)

pub record GroupPolicy : Type 0 where
  pub members : List (List ℕ)
  pub lifecycle : Lifecycle
  pub shared : List (List ℕ × TreeAuthority)

-- Who asks, and the answer.
pub data Provenance : Type 0 where
  own : Provenance
  remote : List ℕ → Provenance

pub data Verdict : Type 0 where
  allow deny : Verdict

-- `BTreeSet::contains`.
unfoldable pub contains : List ℕ → List (List ℕ) → Bool
contains key [] = false
contains key (k ∷ keys) = bytes_eq key k || contains key keys

abbrev pub shared_tree_tag : ℕ
shared_tree_tag = 2

abbrev pub shared_authority_tree_tag : ℕ
shared_authority_tree_tag = 3

abbrev pub is_true : Option Bool → Bool
is_true none = false
is_true (some b) = b

pub retired : GroupPolicy → List ℕ → Bool
retired p tree = is_opaque_tree tree && not (is_true (status p.lifecycle tree))

abbrev pub peer_not_ready : GroupPolicy → Provenance → List ℕ → Bool
peer_not_ready p own tree = false
peer_not_ready p (remote peer) tree =
    is_opaque_tree tree && not (has_key peer p.lifecycle.ready_peers)

pub reserved : List ℕ → Bool
reserved tree =
    let tag = get_or tree 0 0 in (tag == shared_tree_tag) || (tag == shared_authority_tree_tag)

-- What a peer may do; `deleting` is `action == StorageAction::Delete`.
pub allowed : GroupPolicy → List ℕ → List ℕ → Bool → Option TreeAuthority → Bool
allowed p peer tree deleting (some authority) = not deleting && contains peer authority.readers
allowed p peer tree deleting none = if reserved tree then false else contains peer p.members

abbrev pub judge : GroupPolicy → Provenance → List ℕ → Bool → Verdict
judge p own tree deleting = allow
judge p (remote peer) tree deleting =
    if allowed p peer tree deleting (lookup tree p.shared) then allow else deny

pub authorize : GroupPolicy → Provenance → List ℕ → Bool → Verdict
authorize p who tree deleting =
    if (retired p tree || peer_not_ready p who tree) && not deleting
    then deny
    else judge p who tree deleting
