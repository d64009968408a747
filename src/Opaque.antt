-- ===== src/Opaque.antt =====
-- runtime/crates/engine/src/opaque.rs: the register of the opaque trees and their names.
pub mod Register
mod Tests
use polyvisor.Common.{
  ℕ, zero, suc, ◌+◌, ◌*◌, ◌/◌, ◌%◌, List, [], ◌∷◌, ◌++◌, Option, none, some, Bool, true, false,
  ◌&&◌, length, take, drop, get_or, ◌==◌, if◌then◌else◌, bytes_eq, codes,
}

-- `u64::to_be_bytes` and `u64::from_be_bytes`, at any width.
unfoldable pub to_be_bytes : ℕ → ℕ → List ℕ
to_be_bytes zero n = []
to_be_bytes (suc w) n = to_be_bytes w (n / 256) ++ (n % 256 ∷ [])

unfoldable pub from_be_bytes : ℕ → List ℕ → ℕ
from_be_bytes acc [] = acc
from_be_bytes acc (b ∷ bytes) = from_be_bytes (acc * 256 + b) bytes

pub data OpaqueMode : Type 0 where
  group_sealed caller_encrypted : OpaqueMode

pub record RegisterValue : Type 0 where
  pub sequence : ℕ
  pub nonce : List ℕ
  pub mode : Option OpaqueMode

pub encode_mode : Option OpaqueMode → ℕ
encode_mode none = 0
encode_mode (some group_sealed) = 1
encode_mode (some caller_encrypted) = 2

pub encode : RegisterValue → List ℕ
encode v = to_be_bytes 8 v.sequence ++ (v.nonce ++ (encode_mode v.mode ∷ []))

-- The value with a mode byte.
pub with_mode : ℕ → List ℕ → ℕ → Option RegisterValue
with_mode sequence nonce zero = some (record { sequence = sequence; nonce = nonce; mode = none })
with_mode sequence nonce (suc zero) =
    some (record { sequence = sequence; nonce = nonce; mode = some group_sealed })
with_mode sequence nonce (suc (suc zero)) =
    some (record { sequence = sequence; nonce = nonce; mode = some caller_encrypted })
with_mode sequence nonce (suc (suc (suc b))) = none

pub decode : List ℕ → Option RegisterValue
decode bytes =
    if length bytes == 25
    then with_mode (from_be_bytes 0 (take 8 bytes)) (take 16 (drop 8 bytes)) (get_or bytes 24 0)
    else none

-- `BTreeMap::get`, over the list of the entries.
unfoldable pub lookup {ℓ} : {A : Type ℓ} → List ℕ → List (List ℕ × A) → Option A
lookup key [] = none
lookup key ((k, a) ∷ entries) = if bytes_eq key k then some a else lookup key entries

unfoldable pub has_key {ℓ} : {A : Type ℓ} → List ℕ → List (List ℕ × A) → Bool
has_key key [] = false
has_key key ((k, a) ∷ entries) = if bytes_eq key k then true else has_key key entries

pub record Lifecycle : Type 0 where
  pub registers : List (List ℕ × RegisterValue)
  pub ready_peers : List (List ℕ × ℕ)

abbrev pub opaque_prefix : List ℕ
opaque_prefix = codes "OPQ1"

pub tree_id : List ℕ → List ℕ → List ℕ
tree_id slot nonce = opaque_prefix ++ (slot ++ nonce)

pub is_opaque_tree : List ℕ → Bool
is_opaque_tree tree = bytes_eq (take 4 tree) opaque_prefix

pub tree_slot : List ℕ → Option (List ℕ)
tree_slot tree = if is_opaque_tree tree then some (take 12 (drop 4 tree)) else none

abbrev pub is_on : Option OpaqueMode → Bool
is_on none = false
is_on (some m) = true

status_of : List ℕ → List ℕ → Option RegisterValue → Option Bool
status_of tree slot none = none
status_of tree slot (some current) =
    some (is_on current.mode && bytes_eq (tree_id slot current.nonce) tree)

status_in : Lifecycle → List ℕ → Option (List ℕ) → Option Bool
unfolding status_of
status_in lifecycle tree none = none
status_in lifecycle tree (some slot) = status_of tree slot (lookup slot lifecycle.registers)

pub status : Lifecycle → List ℕ → Option Bool
unfolding status_in
status lifecycle tree = status_in lifecycle tree (tree_slot tree)

mode_of : Option RegisterValue → Option OpaqueMode
mode_of none = none
mode_of (some v) = v.mode

mode_in : Lifecycle → Option (List ℕ) → Option OpaqueMode
unfolding mode_of
mode_in lifecycle none = none
mode_in lifecycle (some slot) = mode_of (lookup slot lifecycle.registers)

mode_if : Lifecycle → List ℕ → Option Bool → Option OpaqueMode
unfolding mode_in
mode_if lifecycle tree none = none
mode_if lifecycle tree (some false) = none
mode_if lifecycle tree (some true) = mode_in lifecycle (tree_slot tree)

pub mode : Lifecycle → List ℕ → Option OpaqueMode
unfolding mode_if
mode lifecycle tree = mode_if lifecycle tree (status lifecycle tree)
