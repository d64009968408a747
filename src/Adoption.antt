-- ===== src/Adoption.antt =====
-- runtime/crates/kernel/src/lib.rs: the gates of the kernel, and the adoption of another user's
-- identity, one at a time.
pub mod Exclusive
mod Tests
use polyvisor.Common.{
  ℕ, ◌+◌, ◌-◌, ◌^◌, min, Bool, true, false, ◌&&◌, Option, none, some, List, Result, ok, err, guard,
  ◌>>=◌, ◌>>◌, ◌==◌, not, if◌then◌else◌,
}
use polyvisor.Errors.{Error, unavailable}
use polyvisor.RootTransfer.{Context}
use polyvisor.Store.{Tier, ephemeral, durable}

-- `device::State`.
pub data State : Type 0 where
  fresh sealed opened erased : State

-- The part of the kernel that the gates read: the erasure mark, the data key, the tier of the row,
-- and the identity context.
pub record Kernel : Type 0 where
  pub is_erased : Bool
  pub dek : Option (List ℕ)
  pub tier : Tier
  pub context : Context

unfoldable pub state : Kernel → State
state k = if k.is_erased then erased else by_key k.dek k.tier
  where
    by_key : Option (List ℕ) → Tier → State
    by_key none tier = sealed
    by_key (some key) ephemeral = fresh
    by_key (some key) durable = opened

-- `Kernel::open`.
unfoldable pub open_gate : Kernel → Result Error (Unit {0})
open_gate k = elim (state k) [
  | fresh ↦ ok tt
  | opened ↦ ok tt
  | sealed ↦ err (unavailable "this device is sealed; unseal it first")
  | erased ↦ err (unavailable "this device has been erased")
]

unfoldable pub identity_open : Kernel → Result Error (Unit {0})
identity_open k = do
  open_gate k
  guard (not k.context.adopting) (unavailable "the user identity is being adopted")

-- `u64::saturating_add(1)`.
unfoldable pub next_context : ℕ → ℕ
next_context generation = min (generation + 1) (2 ^ 64 - 1)

-- The tests of `begin_identity_adoption`, which end with `clear_root_custody`.
unfoldable pub may_begin : Result Error (Unit {0}) → Kernel → Result Error (Unit {0})
may_begin cleared k = do
  open_gate k
  guard (not k.context.adopting) (unavailable "the user identity is already being adopted")
  cleared

-- `begin_identity_adoption`, at what `clear_root_custody` gives: the context before.
unfoldable pub begin_identity_adoption :
    Result Error (Unit {0}) → Kernel → Kernel × Result Error Context
begin_identity_adoption cleared k = elim (may_begin cleared k) [
  | ok u ↦ (
    record k {
      context = record { generation = next_context k.context.generation; adopting = true };
    },
    ok k.context,
  )
  | err e ↦ (k, err e)
]

unfoldable pub finish_identity_adoption : Context → Bool → Kernel → Kernel
finish_identity_adoption previous succeeded k =
    if succeeded
      && (k.context.adopting && (k.context.generation == next_context previous.generation))
    then record k { context = record { generation = k.context.generation; adopting = false } }
    else k
