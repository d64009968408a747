-- ===== src/Store/Tests.antt =====
-- A sweep over three devices: ours, an abandoned one, and one whose lock is held.
use polyvisor.Common.{ℕ, ◌≡◌, inr, refl, List, [], ◌∷◌, Option, none, some, Bool, ok, In, bytes_eq}
use polyvisor.Checkpoint.Files.{Disk}
use polyvisor.Checkpoint.{World}
use polyvisor.Checkpoint.Tests.{toy_world}
use polyvisor.Store.{
  ephemeral, rests_open, IndexRow, Store, sweep, sweep_rows, rows, destroy, is_kept, is_ephemeral,
}
use polyvisor.Store.Sweep.{sweep-other}
use polyvisor.Store.Abandoned.{Indexed, IsAbandoned, sweep-IsAbandoned}

-- A row is the name of its device.
read_row : List ℕ → Option IndexRow
read_row bytes = some (record {
  id = bytes;
  petname = [];
  tier = ephemeral;
  rest = rests_open;
  created = 0;
  last_used = 0;
})

blank : Disk
blank = record { read = λ q. none; pointer_row = none }

three : Store
three id = record { disk = blank; small = []; row = some id }

abbrev locked : List ℕ → Bool
locked id = bytes_eq id (3 ∷ [])

abbrev keys : List (List ℕ)
keys = (1 ∷ []) ∷ (2 ∷ []) ∷ (3 ∷ []) ∷ []

swept_second : (sweep toy_world read_row keys locked (1 ∷ []) 900_000 three).1 ≡ ok ((2 ∷ []) ∷ [])
unfolding sweep sweep_rows rows destroy is_kept is_ephemeral read_row three blank bytes_eq
    polyvisor.Checkpoint.pointer
swept_second = refl

sweep-other_example :
    (sweep toy_world read_row keys locked (1 ∷ []) 900_000 three).0 (3 ∷ []) ≡ three (3 ∷ [])
unfolding bytes_eq
sweep-other_example =
    sweep-other toy_world (1 ∷ []) 900_000 locked read_row keys three (3 ∷ []) (inr refl)

sweep-IsAbandoned_example :
    ((id : List ℕ)
      → In id ((2 ∷ []) ∷ [])
      → ((row : IndexRow) × Indexed read_row keys three row
          × IsAbandoned (1 ∷ []) 900_000 locked row
          × (id ≡ row.id))
        × (((sweep toy_world read_row keys locked (1 ∷ []) 900_000 three).0 id).row ≡ none))
    × ((row : IndexRow)
        → Indexed read_row keys three row
        → IsAbandoned (1 ∷ []) 900_000 locked row
        → In row.id ((2 ∷ []) ∷ []))
sweep-IsAbandoned_example =
    sweep-IsAbandoned toy_world (1 ∷ []) 900_000 locked read_row keys three ((2 ∷ []) ∷ [])
      swept_second
