-- ===== src/Store.antt =====
-- runtime/crates/kernel/src/store.rs: the index of the devices and the sweep of abandoned ones.
-- A name is its bytes; the sum of a device's files and rows stands for its namespace.
pub mod Sweep
pub mod Abandoned
mod Tests
use polyvisor.Common.{
  ℕ, ◌+◌, ◌-◌, ◌≡◌, refl, List, [], ◌∷◌, ◌++◌, map, Option, none, some, Bool, true, false, not,
  ◌||◌, Result, ok, err, ◌>>=◌, bytes_eq, leb, if◌then◌else◌,
}
use polyvisor.Errors.{Error}
use polyvisor.Checkpoint.Files.{Disk, run}
use polyvisor.Checkpoint.{Pointer, World, pointer, or_default}
use polyvisor.Checkpoint

pub data Tier : Type 0 where
  ephemeral durable : Tier

pub data Rest : Type 0 where
  rests_open passphrase : Rest

-- `IndexRow`, with times in milliseconds.
pub record IndexRow : Type 0 where
  pub id : List ℕ
  pub petname : List ℕ
  pub tier : Tier
  pub rest : Rest
  pub created : ℕ
  pub last_used : ℕ

-- What the host keeps of a device: its files with the pointer, the other rows under `dev/<id>/`,
-- and the row `index/<id>`.
pub record Held : Type 0 where
  pub disk : Disk
  pub small : List (List ℕ × List ℕ)
  pub row : Option (List ℕ)

abbrev pub Store : Type 0
Store = List ℕ → Held

unfoldable pub update : List ℕ → Held → Store → Store
update id held store q = if bytes_eq id q then held else store q

abbrev pub lease_ttl_ms : ℕ
lease_ttl_ms = 120_000

unfoldable pub is_ephemeral : Tier → Bool
is_ephemeral ephemeral = true
is_ephemeral durable = false

unfoldable pub row_of : (List ℕ → Option IndexRow) → Option (List ℕ) → Option IndexRow
row_of decode none = none
row_of decode (some bytes) = decode bytes

-- `rows`: what decodes, over the sorted names that `Platform::keys` gives.
unfoldable pub rows : (List ℕ → Option IndexRow) → List (List ℕ) → Store → List IndexRow
unfolding row_of
rows decode [] store = []
rows decode (key ∷ keys) store =
    let rest = rows decode keys store in
    elim (row_of decode (store key).row) [ none ↦ rest | some row ↦ row ∷ rest ]

-- The device that `destroy` leaves.
unfoldable pub destroyed : Pointer → Held → Held
destroyed p held = record {
  disk = record { read = (run (Checkpoint.destroy p) held.disk).read; pointer_row = none };
  small = [];
  row = none;
}

-- The tests of the sweep that pass a row over: it is ours, it is durable, its lease is fresh (the
-- subtraction saturates), or its lock is held.
unfoldable pub is_kept : List ℕ → ℕ → (List ℕ → Bool) → IndexRow → Bool
is_kept ours now is_held row =
    (bytes_eq row.id ours || not (is_ephemeral row.tier))
    || (leb (now - row.last_used) lease_ttl_ms || is_held row.id)

module _ {Snapshot Delta Journal View : Type 0} (world : World Snapshot Delta Journal View) where
  unfoldable pub destroy : List ℕ → Store → Result Error Store
  destroy id store = do
    found ← pointer world (store id).disk
    ok (update id (destroyed (or_default found) (store id)) store)

  -- The loop of `sweep`: the store that it leaves, and the ids swept or the error that stopped it.
  unfoldable pub sweep_rows :
      List ℕ
      → ℕ
      → (List ℕ → Bool)
      → List IndexRow
      → Store
      → List (List ℕ)
      → Store × Result Error (List (List ℕ))
  sweep_rows ours now is_held [] store swept = (store, ok swept)
  sweep_rows ours now is_held (row ∷ rest) store swept =
      if is_kept ours now is_held row
      then sweep_rows ours now is_held rest store swept
      else elim (destroy row.id store) [
        | err e ↦ (store, err e)
        | ok left ↦ sweep_rows ours now is_held rest left (swept ++ (row.id ∷ []))
      ]

  unfoldable pub sweep :
      (List ℕ → Option IndexRow)
      → List (List ℕ)
      → (List ℕ → Bool)
      → List ℕ
      → ℕ
      → Store
      → Store × Result Error (List (List ℕ))
  sweep decode keys is_held ours now store =
      sweep_rows ours now is_held (rows decode keys store) store []
