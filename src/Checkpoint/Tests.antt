-- ===== src/Checkpoint/Tests.antt =====
-- Runs of the checkpoint at a small disk, with codecs that write a value as it is.
use polyvisor.Common.{
  ℕ, ◌≡◌, ◌⊎◌, inl, inr, refl, List, [], ◌∷◌, ◌++◌, Option, some, none, Bool-cases, ◌==◌, Result,
  ok, err, ◌>>=◌, length, replicate, arith,
}
use polyvisor.Errors.{Error}
use polyvisor.Primitives.Toy.{toy_aead, toy_aead_laws}
use polyvisor.Seal.{seal, encrypt, unseal, decrypt}
use polyvisor.Checkpoint.Files.{
  FilePath, state, manifest, journal, same_path, Disk, put, perform, run, Crash, tear,
}
use polyvisor.Checkpoint.{
  Codec, World, WorldLaws, Manifest, Pointer, whole, is_whole, left_by, pointer, or_default, load,
  prepare, write, write_files, write_engine, seal_delta, commit_pointer, destroy, replay,
  read_pointed, read_generation, load_at, cleanup, drop_old, remove_generation,
}
use polyvisor.Checkpoint.Commit.{committed_load, load-Crash, load-write}
use polyvisor.Checkpoint.Journal.{load-write_engine, load-commit_pointer}
use polyvisor.Checkpoint.Removal.{destroy-none, IsNamed}

abbrev plain_codec : Codec (List ℕ)
plain_codec = record { encode = λ b. some b; decode = λ b. some b }

read_manifest : List ℕ → Option Manifest
read_manifest [] = none
read_manifest (g ∷ sum) = some (record { generation = g; sha256 = sum })

read_pointer : List ℕ → Option Pointer
read_pointer (g ∷ h ∷ []) = some (record { generation = g; engine_head = h })
read_pointer bytes = none

pub toy_world : World (List ℕ) (List ℕ) (List (List ℕ)) (List (List ℕ))
unfolding read_manifest read_pointer
toy_world = record {
  aead = toy_aead;
  digest = λ b. length b ∷ [];
  snapshots = plain_codec;
  manifests = record { encode = λ m. some (m.generation ∷ m.sha256); decode = read_manifest };
  deltas = plain_codec;
  encode_pointer = λ p. p.generation ∷ p.engine_head ∷ [];
  decode_pointer = read_pointer;
  empty = [];
  apply = λ history delta. delta ∷ history;
  view = λ history. some history;
}

toy_world_laws : WorldLaws toy_world
unfolding toy_world read_manifest read_pointer
toy_world_laws = record {
  aead_laws = toy_aead_laws;
  snapshots_law = λ s b h. ground (arith);
  manifests_law = λ m b h. ground (arith);
  deltas_law = λ x b h. ground (arith);
  pointers_law = λ p. refl;
}

-- Generation 1 is pointed, with no journal.
device : Disk
device = record {
  read = λ q. elim q [ state n ↦ none | manifest n ↦ none | journal n ↦ none ];
  pointer_row = some (1 ∷ 0 ∷ []);
}

abbrev next_pointer : Pointer
next_pointer = record { generation = 2; engine_head = 0 }

abbrev key : List ℕ
key = replicate 32 7

abbrev nonce : List ℕ
nonce = replicate 12 9

pointed : pointer toy_world device ≡ ok (some (record { generation = 1; engine_head = 0 }))
unfolding pointer toy_world device read_pointer
pointed = refl

torn_state :
    Crash
      ((write toy_world key [] whole whole nonce next_pointer (5 ∷ [])).0)
      device
      (put (state 2) (some (9 ∷ [])) device)
unfolding write write_files prepare toy_world is_whole left_by seal encrypt
torn_state = tear (some (9 ∷ []))

load-Crash_example :
    (load toy_world key [] (put (state 2) (some (9 ∷ [])) device) ≡ load toy_world key [] device)
    ⊎ (load toy_world key [] (put (state 2) (some (9 ∷ [])) device)
        ≡ committed_load toy_world key [] device next_pointer (5 ∷ []))
unfolding or_default
load-Crash_example =
    load-Crash toy_world toy_world_laws key [] device (put (state 2) (some (9 ∷ [])) device)
      (some (record { generation = 1; engine_head = 0 })) whole whole nonce next_pointer (5 ∷ [])
      pointed refl refl torn_state

load-write_example :
    (((write toy_world key [] whole whole nonce next_pointer (5 ∷ [])).1 ≡ ok tt)
      × (load toy_world key []
            (run ((write toy_world key [] whole whole nonce next_pointer (5 ∷ [])).0) device)
          ≡ committed_load toy_world key [] device next_pointer (5 ∷ [])))
    ⊎ ((e : Error) × ((write toy_world key [] whole whole nonce next_pointer (5 ∷ [])).1 ≡ err e)
        × (load toy_world key []
              (run ((write toy_world key [] whole whole nonce next_pointer (5 ∷ [])).0) device)
            ≡ load toy_world key [] device))
unfolding or_default
load-write_example =
    load-write toy_world toy_world_laws key [] device
      (some (record { generation = 1; engine_head = 0 })) whole whole nonce next_pointer (5 ∷ [])
      pointed refl refl

-- The new snapshot does load.
loads_new :
    load toy_world key []
      (run ((write toy_world key [] whole whole nonce next_pointer (5 ∷ [])).0) device)
    ≡ ok (next_pointer, some (5 ∷ []), some [])
unfolding load load_at pointer or_default read_pointed read_generation replay write write_files
    prepare toy_world read_manifest read_pointer is_whole left_by seal encrypt unseal decrypt run
    perform put same_path cleanup drop_old remove_generation device polyvisor.Common.bytes_eq
    polyvisor.Common.strip_prefix
loads_new = refl

torn_record :
    Crash
      ((write_engine toy_world key [] whole nonce 1 (8 ∷ [])).0)
      device
      (put (journal 1) none device)
unfolding write_engine seal_delta toy_world is_whole left_by seal encrypt
torn_record = tear none

load-write_engine_example :
    load toy_world key [] (put (journal 1) none device) ≡ load toy_world key [] device
unfolding or_default
load-write_engine_example =
    load-write_engine toy_world key [] device (put (journal 1) none device)
      (some (record { generation = 1; engine_head = 0 })) whole nonce 1 (8 ∷ []) pointed
      (omega arith) torn_record

abbrev fresh : Pointer
fresh = record { generation = 0; engine_head = 0 }

record_lands : (write_engine toy_world key [] whole nonce 1 (8 ∷ [])).1 ≡ ok tt
unfolding write_engine seal_delta toy_world is_whole left_by seal encrypt
record_lands = refl

load-commit_pointer_example :
    load toy_world key [] (
      run
        (commit_pointer toy_world (record { generation = 0; engine_head = 1 }))
        (run ((write_engine toy_world key [] whole nonce 1 (8 ∷ [])).0) device))
    ≡ (read_pointed toy_world key [] device 0 >>= λ snapshot.
        replay toy_world key [] device 0 1 toy_world.empty >>= λ history. ok (
          record { generation = 0; engine_head = 1 },
          snapshot,
          toy_world.view (toy_world.apply history (8 ∷ [])),
        ))
load-commit_pointer_example =
    load-commit_pointer toy_world key [] toy_world_laws device whole nonce fresh (8 ∷ []) refl
      record_lands

-- A state of generation 2 that the pointer does not name.
crowded : Disk
crowded = put (state 2) (some (9 ∷ [])) device

crowded-IsNamed :
    (q : FilePath)
    → (crowded.read q ≡ none) ⊎ IsNamed (record { generation = 1; engine_head = 0 }) q
unfolding crowded device put IsNamed same_path
crowded-IsNamed (journal n) = inl refl
crowded-IsNamed (manifest n) = inl refl
crowded-IsNamed (state n) = elim (Bool-cases (2 == n)) [
  | inl e ↦ inr (ground arith, ground arith, ground arith)
  | inr e ↦ rw e (inl refl)
]

destroy-none_example :
    (run (destroy (record { generation = 1; engine_head = 0 })) crowded).read (state 2) ≡ none
destroy-none_example =
    destroy-none (record { generation = 1; engine_head = 0 }) crowded (omega arith) crowded-IsNamed
      (state 2)
