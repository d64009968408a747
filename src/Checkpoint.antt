-- ===== src/Checkpoint.antt =====
-- runtime/crates/kernel/src/checkpoint.rs: the generations of a device's state, the engine's
-- journal, and the pointer that commits both. A message is kept without what the code
-- interpolates into it.
pub mod Files
pub mod Agreement
pub mod Crashes
pub mod Phases
pub mod Commit
pub mod Journal
pub mod Removal
pub mod Tests
use polyvisor.Common.{
  ℕ, zero, suc, ◌+◌, ◌-◌, ◌%◌, ◌/◌, ◌^◌, ◌≡◌, List, [], ◌∷◌, ◌++◌, map, Option, some, none, Bool,
  true, false, ◌&&◌, not, Result, ok, err, guard, ok_or, map_err, ◌>>=◌, ◌>>◌, ◌==◌, ltb, bytes_eq,
  if◌then◌else◌, codes, min,
}
use polyvisor.Errors.{Error, failed}
use polyvisor.Primitives.{Aead, AeadLaws}
use polyvisor.Seal.{seal, unseal}
use polyvisor.Checkpoint.Files.{
  FilePath, state, manifest, journal, Dir, generation_dir, engine_dir, namespace, Disk, Effect,
  write_file, set_pointer, remove_file, remove_dir,
}

-- `Pointer`.
pub record Pointer : Type 0 where
  pub generation : ℕ
  pub engine_head : ℕ

-- `ManifestJson`.
pub record Manifest : Type 0 where
  pub generation : ℕ
  pub sha256 : List ℕ

-- serde_json and bincode on one type.
pub record Codec {ℓ} (A : Type ℓ) : Type ℓ where
  pub encode : A → Option (List ℕ)
  pub decode : List ℕ → Option A

-- `unwrap_or_default`.
unfoldable pub or_default : Option Pointer → Pointer
or_default none = record { generation = 0; engine_head = 0 }
or_default (some p) = p

-- What the module takes from others: the cipher, the hex text of a SHA-256 digest, the codecs,
-- and the engine's `JournalState` with `apply` and `snapshot`.
pub record World (Snapshot Delta Journal View : Type 0) : Type 0 where
  pub aead : Aead
  pub digest : List ℕ → List ℕ
  pub snapshots : Codec Snapshot
  pub manifests : Codec Manifest
  pub deltas : Codec Delta
  -- The code expects that a pointer serializes.
  pub encode_pointer : Pointer → List ℕ
  pub decode_pointer : List ℕ → Option Pointer
  pub empty : Journal
  pub apply : Journal → Delta → Journal
  pub view : Journal → Option View

-- What is encoded reads back.
pub record WorldLaws {Snapshot Delta Journal View : Type 0} (w : World Snapshot Delta Journal View)
    : Type 0 where
  pub aead_laws : AeadLaws w.aead
  pub snapshots_law :
      (s : Snapshot) (b : List ℕ) → w.snapshots.encode s ≡ some b → w.snapshots.decode b ≡ some s
  pub manifests_law :
      (m : Manifest) (b : List ℕ) → w.manifests.encode m ≡ some b → w.manifests.decode b ≡ some m
  pub deltas_law :
      (x : Delta) (b : List ℕ) → w.deltas.encode x ≡ some b → w.deltas.decode b ≡ some x
  pub pointers_law : (p : Pointer) → w.decode_pointer (w.encode_pointer p) ≡ some p

-- The lowest `n` bytes of a number, the least first.
unfoldable pub to_le_bytes : ℕ → ℕ → List ℕ
to_le_bytes zero value = []
to_le_bytes (suc n) value = (value % 256) ∷ to_le_bytes n (value / 256)

unfoldable pub journal_aad : List ℕ → ℕ → List ℕ
journal_aad id sequence = codes "polyvisor:engine-journal:v1\0" ++ (id ++ to_le_bytes 8 sequence)

-- How `Files::write` ends: the file is whole, or the failure is reported and the file holds
-- anything.
pub data Landing : Type 0 where
  whole : Landing
  torn : Option (List ℕ) → Landing

unfoldable pub is_whole : Landing → Bool
is_whole whole = true
is_whole (torn o) = false

unfoldable pub left_by : Landing → List ℕ → Option (List ℕ)
left_by whole contents = some contents
left_by (torn o) contents = o

unfoldable pub remove_generation : ℕ → List Effect
remove_generation n =
    remove_file (manifest n) ∷ remove_file (state n) ∷ remove_dir (generation_dir n) ∷ []

-- One turn of the loop over the older generations.
unfoldable pub drop_old : ℕ → List Effect
drop_old old = if ltb 0 old then remove_generation old else []

unfoldable pub cleanup : ℕ → List Effect
cleanup generation = drop_old (generation - 1) ++ drop_old (generation - 2)

-- `1..=count`, from a start.
unfoldable pub remove_journal : ℕ → ℕ → List Effect
remove_journal zero sequence = []
remove_journal (suc count) sequence =
    remove_file (journal sequence) ∷ remove_journal count (suc sequence)

-- `u64::saturating_add(1)`.
unfoldable pub saturating_suc : ℕ → ℕ
saturating_suc n = min (n + 1) (2 ^ 64 - 1)

unfoldable pub destroy_engine : ℕ → List Effect
destroy_engine head = remove_journal (saturating_suc head) 1 ++ (remove_dir engine_dir ∷ [])

-- The generations at `back` from 0 through 3.
unfoldable pub destroy : Pointer → List Effect
destroy p =
    destroy_engine p.engine_head
    ++ (drop_old (p.generation + 1)
        ++ (drop_old (p.generation + 1 - 1)
            ++ (drop_old (p.generation + 1 - 2)
                ++ (drop_old (p.generation + 1 - 3) ++ (remove_dir namespace ∷ [])))))

module _ {Snapshot Delta Journal View : Type 0} (world : World Snapshot Delta Journal View) where
  unfoldable pub pointer : Disk → Result Error (Option Pointer)
  pointer disk = elim disk.pointer_row [
    | none ↦ ok none
    | some bytes ↦
        ok_or (world.decode_pointer bytes) (failed "this device's commit pointer is invalid")
        >>= λ p. ok (some p)
  ]

  -- `read_generation`, with an error in place of `None`.
  module _ (dek id : List ℕ) where
    unfoldable pub read_generation : Disk → ℕ → Result (Unit {0}) Snapshot
    read_generation disk generation = do
      bytes ← ok_or (disk.read (manifest generation)) tt
      m ← ok_or (world.manifests.decode bytes) tt
      guard (m.generation == generation) tt
      sealed ← ok_or (disk.read (state generation)) tt
      guard (bytes_eq (world.digest sealed) m.sha256) tt
      plain ← map_err (λ e. tt) (unseal world.aead dek sealed id)
      ok_or (world.snapshots.decode plain) tt

    -- The pointed generation, none for a device that has no checkpoint.
    unfoldable pub read_pointed : Disk → ℕ → Result Error (Option Snapshot)
    read_pointed disk zero = ok none
    read_pointed disk (suc n) = do
      snapshot ←
          map_err (λ e. failed "this device's committed state did not open")
            (read_generation disk (suc n))
      ok (some snapshot)

    unfoldable pub read_delta : Disk → ℕ → Result Error Delta
    read_delta disk sequence = do
      sealed ←
          ok_or (disk.read (journal sequence)) (failed "this device's committed history is missing")
      plain ←
          map_err (λ e. failed "this device's committed history did not open")
            (unseal world.aead dek sealed (journal_aad id sequence))
      ok_or (world.deltas.decode plain) (failed "this device's committed history is invalid")

    -- The loop over `1..=engine_head`: how many are left, and the next.
    unfoldable pub replay : Disk → ℕ → ℕ → Journal → Result Error Journal
    replay disk zero sequence acc = ok acc
    replay disk (suc count) sequence acc = do
      delta ← read_delta disk sequence
      replay disk count (suc sequence) (world.apply acc delta)

    -- What `load` reads once it has the pointer.
    unfoldable pub load_at : Disk → Pointer → Result Error (Pointer × Option Snapshot × Option View)
    load_at disk p = do
      snapshot ← read_pointed disk p.generation
      history ← replay disk p.engine_head 1 world.empty
      ok (p, snapshot, world.view history)

    unfoldable pub load : Disk → Result Error (Pointer × Option Snapshot × Option View)
    load disk = do found ← pointer disk; load_at disk (or_default found)

    -- The calls on the files once the state is sealed: the manifest only behind a whole state,
    -- the pointer only behind a whole manifest.
    unfoldable pub write_files :
        Landing → Landing → Pointer → List ℕ → List ℕ → List Effect × Result Error (Unit {0})
    write_files first second p sealed m =
        let failure = failed "this device's state could not be written" in
        let state_write = write_file (state p.generation) (left_by first sealed) in
        let manifest_write = write_file (manifest p.generation) (left_by second m) in
        if is_whole first
        then (if is_whole second
            then (
              state_write
                  ∷ manifest_write
                  ∷ set_pointer (world.encode_pointer p)
                  ∷ cleanup p.generation,
              ok tt,
            )
            else (state_write ∷ manifest_write ∷ [], err failure))
        else (state_write ∷ [], err failure)

    -- The bytes of the two files, under the nonce that the generator draws.
    unfoldable pub prepare : List ℕ → ℕ → Snapshot → Result Error (List ℕ × List ℕ)
    prepare nonce generation snapshot = do
      plain ←
          ok_or (world.snapshots.encode snapshot) (failed "the kernel state could not be written")
      sealed ← seal world.aead dek nonce plain id
      m ←
          ok_or
            (world.manifests.encode
              (record { generation = generation; sha256 = world.digest sealed }))
            (failed "the checkpoint manifest could not be written")
      ok (sealed, m)

    -- What `write` calls, in order, and how it ends.
    unfoldable pub write :
        Landing → Landing → List ℕ → Pointer → Snapshot → List Effect × Result Error (Unit {0})
    write first second nonce p snapshot = elim (prepare nonce p.generation snapshot) [
      | ok (sealed, m) ↦ write_files first second p sealed m
      | err e ↦ ([], err e)
    ]

    unfoldable pub seal_delta : List ℕ → ℕ → Delta → Result Error (List ℕ)
    seal_delta nonce sequence delta = do
      plain ← ok_or (world.deltas.encode delta) (failed "engine history could not be written")
      seal world.aead dek nonce plain (journal_aad id sequence)

    unfoldable pub write_engine :
        Landing → List ℕ → ℕ → Delta → List Effect × Result Error (Unit {0})
    write_engine landing nonce sequence delta = elim (seal_delta nonce sequence delta) [
      | ok sealed ↦ (
        write_file (journal sequence) (left_by landing sealed) ∷ [],
        guard (is_whole landing) (failed "this device's history could not be written"),
      )
      | err e ↦ ([], err e)
    ]

  unfoldable pub commit_pointer : Pointer → List Effect
  commit_pointer p = set_pointer (world.encode_pointer p) ∷ []
