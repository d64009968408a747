-- ===== src/RootTransfer.antt =====
-- runtime/crates/kernel/src/root_transfer.rs: handing the user's root seed to another member.
-- Awaited answers are fields of a script; what other tasks do meanwhile is a function on the world.
pub mod Frames
pub mod Persist
pub mod Receiving
pub mod Sending
mod Tests
use polyvisor.Common.{
  ℕ, ◌+◌, ◌*◌, ◌-◌, List, [], ◌∷◌, ◌++◌, Option, none, some, Bool, true, false, ◌&&◌, ◌||◌, not,
  Result, ok, err, guard, ok_or, ◌>>=◌, ◌>>◌, is_ok, length, take, drop, ◌==◌, leb, if◌then◌else◌,
  bytes_eq,
}
use polyvisor.Errors.{Error, refused, unavailable, failed}

pub data Frame : Type 0 where
  transfer : List ℕ → List ℕ → List ℕ → Frame
  persisted received declined : Frame

-- `TRANSFER_LEN`, also `MAX_FRAME`.
abbrev pub transfer_len : ℕ
transfer_len = 1 + 32 + 32 + 32

pub encode : Frame → List ℕ
encode (transfer root group seed) = 1 ∷ (root ++ (group ++ seed))
encode persisted = 2 ∷ []
encode received = 3 ∷ []
encode declined = 4 ∷ []

decode_body : ℕ → List ℕ → Option Frame
decode_body tag body =
    if tag == 1 && (length body == transfer_len - 1)
    then some (transfer (take 32 body) (take 32 (drop 32 body)) (drop 64 body))
    else none

-- The patterns of `decode`, in order.
pub decode : List ℕ → Option Frame
unfolding decode_body
decode [] = none
decode (tag ∷ []) =
    if tag == 2
    then some persisted
    else if tag == 3
    then some received
    else if tag == 4
    then some declined
    else decode_body tag []
decode (tag ∷ b ∷ body) = decode_body tag (b ∷ body)

-- `receive`: the bytes of one message, if any came, within `MAX_FRAME`.
pub receive : Option (List ℕ) → Option Frame
receive none = none
receive (some bytes) = if leb (length bytes) transfer_len then decode bytes else none

pub record Identity : Type 0 where
  pub root : List ℕ
  pub group : List ℕ

-- `IdentityContext`.
pub record Context : Type 0 where
  pub generation : ℕ
  pub adopting : Bool

same_flag : Bool → Bool → Bool
same_flag true b = b
same_flag false b = not b

-- `identity_context_is`.
unfoldable pub context_is : Context → Context → Bool
unfolding same_flag
context_is c d = (c.generation == d.generation) && same_flag c.adopting d.adopting

unfoldable pub require_same_identity : Identity → Identity → Result Error (Unit {0})
require_same_identity before after =
    guard (bytes_eq before.root after.root && bytes_eq before.group after.group)
      (refused "the user identity changed during transfer")

-- `members` is the answer of the engine, or its failure.
unfoldable pub require_current_member :
    Result Error (List (List ℕ)) → List ℕ → Result Error (Unit {0})
require_current_member members key = do
  current ← members
  guard (contains current key) (refused "that device is not a current member")
  where
    contains : List (List ℕ) → List ℕ → Bool
    contains [] k = false
    contains (m ∷ ms) k = bytes_eq m k || contains ms k

-- The device, as far as a transfer reads and writes it. `stored` is the seed of the last durable
-- checkpoint; `announced` counts the `ContactsChanged` events.
pub record World : Type 0 where
  pub context : Context
  pub root_seed : Option (List ℕ)
  pub stored : Option (List ℕ)
  pub announced : ℕ

-- `replace_root_seed`.
pub replace_root_seed : Option (List ℕ) → World → World
replace_root_seed seed w = record w { root_seed = seed }
