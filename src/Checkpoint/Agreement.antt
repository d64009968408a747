-- ===== src/Checkpoint/Agreement.antt =====
-- Loading reads the pointer, the two files of its generation and its journal, and no more.
use polyvisor.Common.{
  ℕ, zero, suc, ◌+◌, ◌<◌, ◌≡◌, refl, List, Option, ok, Result-cases, inl, inr, arith,
}
use polyvisor.Checkpoint.Files.{state, manifest, journal, Disk}
use polyvisor.Checkpoint.{
  World, Pointer, pointer, or_default, read_generation, read_pointed, read_delta, replay, load_at,
  load,
}

module _ {Snapshot Delta Journal View : Type 0} (world : World Snapshot Delta Journal View)
    (dek id : List ℕ) (d d' : Disk) where
  pub read_pointed-agree :
      (g : ℕ)
      → d'.read (state g) ≡ d.read (state g)
      → d'.read (manifest g) ≡ d.read (manifest g)
      → read_pointed world dek id d' g ≡ read_pointed world dek id d g
  unfolding read_pointed read_generation
  read_pointed-agree zero s m = refl
  read_pointed-agree (suc g) s m = rw (s, m) refl

  pub replay-agree :
      (count sequence : ℕ) (acc : Journal)
      → ((n : ℕ) → n < sequence + count → d'.read (journal n) ≡ d.read (journal n))
      → replay world dek id d' count sequence acc ≡ replay world dek id d count sequence acc
  unfolding replay read_delta
  replay-agree zero sequence acc same = refl
  replay-agree (suc count) sequence acc same =
      elim (Result-cases (read_delta world dek id d sequence)) [
        | inl (delta, x) ↦
            rw (same sequence (omega arith), x)
              (replay-agree count (suc sequence) (world.apply acc delta)
                (λ n below. same n (omega arith)))
        | inr (e, x) ↦ rw (same sequence (omega arith), x) refl
      ]

  -- Two disks that agree there load alike.
  pub load_at-agree :
      (p : Pointer)
      → d'.read (state p.generation) ≡ d.read (state p.generation)
      → d'.read (manifest p.generation) ≡ d.read (manifest p.generation)
      → ((n : ℕ) → n < 1 + p.engine_head → d'.read (journal n) ≡ d.read (journal n))
      → load_at world dek id d' p ≡ load_at world dek id d p
  unfolding load_at
  load_at-agree p s m same =
      rw
        (
          read_pointed-agree p.generation s m,
          replay-agree p.engine_head 1 world.empty (λ n below. same n below),
        )
        refl

  pointer-agree :
      (found : Option Pointer)
      → pointer world d ≡ ok found
      → d'.pointer_row ≡ d.pointer_row
      → pointer world d' ≡ ok found
  unfolding pointer
  pointer-agree found known row = rw row known

  pub load-agree :
      (found : Option Pointer)
      → pointer world d ≡ ok found
      → d'.pointer_row ≡ d.pointer_row
      → d'.read (state ((or_default found).generation))
        ≡ d.read (state ((or_default found).generation))
      → d'.read (manifest ((or_default found).generation))
        ≡ d.read (manifest ((or_default found).generation))
      → ((n : ℕ)
          → n < 1 + (or_default found).engine_head
          → d'.read (journal n) ≡ d.read (journal n))
      → load world dek id d' ≡ load world dek id d
  unfolding load
  load-agree found known row s m same =
      let found' : pointer world d' ≡ ok found = pointer-agree found known row in
      rw (found', known) (load_at-agree (or_default found) s m same)
