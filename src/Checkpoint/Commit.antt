-- ===== src/Checkpoint/Commit.antt =====
-- `write` of runtime/crates/kernel/src/checkpoint.rs: the pointer is the commit, wherever power
-- is lost.
use polyvisor.Common.{
  ℕ, zero, suc, ◌+◌, ◌≡◌, refl, ap, subst, ◌∙◌, ◌⊎◌, inl, inr, List, [], Option, some, Option-cases,
  true, false, ◌==◌, Result, ok, err, Result-cases, ◌>>=◌, length, bytes_eq_refl, arith,
}
use polyvisor.Errors.{Error, failed}
use polyvisor.Seal.{seal, unseal}
use polyvisor.Seal.Opening.{unseal-seal}
use polyvisor.Checkpoint.Files.{
  state, manifest, journal, same_path, Disk, set_pointer, put, perform, run, Crash, stop,
}
use polyvisor.Checkpoint.Crashes.{IsSafe, Crash-IsSafe, run-IsSafe}
use polyvisor.Checkpoint.Agreement.{load-agree, replay-agree}
use polyvisor.Checkpoint.{
  World, WorldLaws, Pointer, Landing, whole, torn, is_whole, left_by, pointer, or_default,
  read_generation, read_pointed, replay, load_at, load, cleanup, prepare, write_files, write,
}
use polyvisor.Checkpoint.Phases.{
  Before, After, start, put-state-Before, put-manifest-Before, committed-After, cleanup-After,
  commit-Crash,
}

module _ {Snapshot Delta Journal View : Type 0} (world : World Snapshot Delta Journal View)
    (dek id : List ℕ) where
  -- What loads once the pointer is `q`: the new snapshot, with the journal that is on the disk.
  unfoldable pub committed_load :
      Disk → Pointer → Snapshot → Result Error (Pointer × Option Snapshot × Option View)
  committed_load d q snapshot = do
    history ← replay world dek id d q.engine_head 1 world.empty
    ok (q, some snapshot, world.view history)

module _ {Snapshot Delta Journal View : Type 0} (world : World Snapshot Delta Journal View)
    (laws : WorldLaws world) (dek id : List ℕ) where
  -- The two files that `prepare` makes read back as the snapshot.
  read_generation-prepare :
      (nonce : List ℕ) (g : ℕ) (snapshot : Snapshot) (sealed m : List ℕ) (d : Disk)
      → length nonce ≡ 12
      → prepare world dek id nonce g snapshot ≡ ok (sealed, m)
      → d.read (state g) ≡ some sealed
      → d.read (manifest g) ≡ some m
      → read_generation world dek id d g ≡ ok snapshot
  unfolding prepare read_generation
  read_generation-prepare nonce g snapshot sealed m d long made s_file m_file =
      elim (Option-cases (world.snapshots.encode snapshot)) [
        | inl e ↦ absurd (ground arith)
        | inr (plain, e) ↦ elim (Result-cases (seal world.aead dek nonce plain id)) [
          | inr (why, f) ↦ absurd (ground arith)
          | inl (ct, f) ↦
              elim (Option-cases
                (world.manifests.encode (record { generation = g; sha256 = world.digest ct }))) [
                  | inl u ↦ absurd (ground arith)
                  | inr (text, u) ↦
                      let same : ct ≡ sealed = ground arith in
                      let same_m : text ≡ m = ground arith in
                      let opened : unseal world.aead dek sealed id ≡ ok plain =
                        unseal-seal world.aead laws.aead_laws dek nonce plain id sealed long
                          (f ∙ ap ok same) in
                      let is_m : world.manifests.decode m
                          ≡ some (record { generation = g; sha256 = world.digest sealed }) =
                        subst
                          (λ t.
                            world.manifests.decode t
                            ≡ some (record { generation = g; sha256 = world.digest sealed }))
                          same_m
                          (subst
                            (λ t.
                              world.manifests.decode text
                              ≡ some (record { generation = g; sha256 = world.digest t }))
                            same
                            (laws.manifests_law
                              (record { generation = g; sha256 = world.digest ct }) text u)) in
                      let own : (g == g) ≡ true = ground arith in
                      rw
                        (
                          m_file,
                          is_m,
                          own,
                          s_file,
                          bytes_eq_refl (world.digest sealed),
                          opened,
                          laws.snapshots_law snapshot plain e,
                        )
                        refl
                ]
        ]
      ]

  load-Before :
      (d d' : Disk) (found : Option Pointer) (g : ℕ)
      → pointer world d ≡ ok found
      → g ≡ (or_default found).generation + 1
      → Before d g d'
      → load world dek id d' ≡ load world dek id d
  unfolding same_path
  load-Before d d' found g known next b =
      let away : (g == (or_default found).generation) ≡ false = ground arith in
      load-agree world dek id d d' found known b.row
        (b.files (state (or_default found).generation) away refl)
        (b.files (manifest (or_default found).generation) refl away)
        (λ n below. b.files (journal n) refl refl)

  write_files-Crash :
      (d d' : Disk) (first second : Landing) (q : Pointer) (sealed m : List ℕ) (p : ℕ)
      → q.generation ≡ p + 1
      → Crash ((write_files world dek id first second q sealed m).0) d d'
      → Before d q.generation d' ⊎ After d q.generation (world.encode_pointer q) sealed m d'
  unfolding write_files is_whole left_by IsSafe
  write_files-Crash d d' whole whole q sealed m p next crash =
      commit-Crash d q.generation (world.encode_pointer q) sealed m p next d' crash
  write_files-Crash d d' whole (torn o) q sealed m p next crash =
      let g = q.generation in
      inl (
        Crash-IsSafe (Before d g) (put-state-Before d g, (put-manifest-Before d g, tt)) (start d g)
          crash)
  write_files-Crash d d' (torn o) second q sealed m p next crash =
      let g = q.generation in
      inl (Crash-IsSafe (Before d g) (put-state-Before d g, tt) (start d g) crash)

  read_pointed-ok :
      (d : Disk) (g p : ℕ) (snapshot : Snapshot)
      → g ≡ p + 1
      → read_generation world dek id d g ≡ ok snapshot
      → read_pointed world dek id d g ≡ ok (some snapshot)
  unfolding read_pointed
  read_pointed-ok d zero p snapshot next h = absurd (omega arith)
  read_pointed-ok d (suc g) p snapshot next h = rw h refl

  load-After :
      (d d' : Disk) (q : Pointer) (snapshot : Snapshot) (nonce sealed m : List ℕ) (p : ℕ)
      → q.generation ≡ p + 1
      → length nonce ≡ 12
      → prepare world dek id nonce q.generation snapshot ≡ ok (sealed, m)
      → After d q.generation (world.encode_pointer q) sealed m d'
      → load world dek id d' ≡ committed_load world dek id d q snapshot
  unfolding load load_at pointer read_pointed committed_load or_default
  load-After d d' q snapshot nonce sealed m p next long made a =
      let set : pointer world d' ≡ ok (some q) =
        let row = a.row in rw (row, laws.pointers_law q) refl in
      let pointed : read_pointed world dek id d' q.generation ≡ ok (some snapshot) =
        read_pointed-ok d' q.generation p snapshot next (
          read_generation-prepare nonce q.generation snapshot sealed m d' long made a.state_file
            a.manifest_file) in
      let history : replay world dek id d' q.engine_head 1 world.empty
          ≡ replay world dek id d q.engine_head 1 world.empty =
        replay-agree world dek id d d' q.engine_head 1 world.empty (λ n below. a.journals n) in
      rw (set, pointed, history) refl

  -- Power may be lost anywhere in a write of the next generation, in the middle of a file too, and
  -- each of its files may fail with a report: what loads next is either exactly what loaded before,
  -- or the new snapshot under the new pointer.
  pub load-Crash :
      (d d' : Disk) (found : Option Pointer) (first second : Landing) (nonce : List ℕ) (q : Pointer)
      (snapshot : Snapshot)
      → pointer world d ≡ ok found
      → q.generation ≡ (or_default found).generation + 1
      → length nonce ≡ 12
      → Crash ((write world dek id first second nonce q snapshot).0) d d'
      → (load world dek id d' ≡ load world dek id d)
        ⊎ (load world dek id d' ≡ committed_load world dek id d q snapshot)
  unfolding write
  load-Crash d d' found first second nonce q snapshot known next long =
      elim (Result-cases (prepare world dek id nonce q.generation snapshot)) [
        | inr (e, made) ↦ rw (made, write) (λ crash. inl (load-untouched d d' crash))
        | inl ((sealed, m), made) ↦
            rw (made, write)
              (λ crash.
                elim (write_files-Crash d d' first second q sealed m (or_default found).generation
                  next crash) [
                    | inl before ↦ inl (load-Before d d' found q.generation known next before)
                    | inr after ↦ inr (
                        load-After d d' q snapshot nonce sealed m (or_default found).generation next
                          long made after)
                  ])
      ]
    where
      load-untouched : (d d' : Disk) → Crash [] d d' → load world dek id d' ≡ load world dek id d
      load-untouched d d' stop = refl

  write_files-run :
      (d : Disk) (first second : Landing) (q : Pointer) (sealed m : List ℕ) (p : ℕ)
      → q.generation ≡ p + 1
      → (((write_files world dek id first second q sealed m).1 ≡ ok tt)
          × After d q.generation
              (world.encode_pointer q)
              sealed
              m
              (run ((write_files world dek id first second q sealed m).0) d))
        ⊎ ((e : Error) × ((write_files world dek id first second q sealed m).1 ≡ err e)
            × Before d q.generation (run ((write_files world dek id first second q sealed m).0) d))
  unfolding write_files is_whole left_by IsSafe run perform
  write_files-run d whole whole q sealed m p next =
      let g = q.generation in
      let bytes = world.encode_pointer q in
      inl (
        refl,
        run-IsSafe (After d g bytes sealed m) (cleanup g)
            (perform (set_pointer bytes)
              (put (manifest g) (some m) (put (state g) (some sealed) d)))
            (cleanup-After d g bytes sealed m p next)
            (committed-After d g bytes sealed m d (start d g)),
      )
  write_files-run d whole (torn o) q sealed m p next =
      let g = q.generation in
      inr (
        failed "this device's state could not be written",
        refl,
        put-manifest-Before d g o (put (state g) (some sealed) d)
            (put-state-Before d g (some sealed) d (start d g)),
      )
  write_files-run d (torn o) second q sealed m p next =
      let g = q.generation in
      inr (
        failed "this device's state could not be written",
        refl,
        put-state-Before d g o d (start d g),
      )

  -- A write of the next generation that runs to its end either reports success, and then what loads
  -- is the new snapshot under the new pointer, or reports an error, and then what loads is
  -- unchanged.
  pub load-write :
      (d : Disk) (found : Option Pointer) (first second : Landing) (nonce : List ℕ) (q : Pointer)
      (snapshot : Snapshot)
      → pointer world d ≡ ok found
      → q.generation ≡ (or_default found).generation + 1
      → length nonce ≡ 12
      → (((write world dek id first second nonce q snapshot).1 ≡ ok tt)
          × (load world dek id (run ((write world dek id first second nonce q snapshot).0) d)
              ≡ committed_load world dek id d q snapshot))
        ⊎ ((e : Error) × ((write world dek id first second nonce q snapshot).1 ≡ err e)
            × (load world dek id (run ((write world dek id first second nonce q snapshot).0) d)
                ≡ load world dek id d))
  unfolding write run
  load-write d found first second nonce q snapshot known next long =
      let p = (or_default found).generation in
      elim (Result-cases (prepare world dek id nonce q.generation snapshot)) [
        | inr (e, made) ↦ rw (made, write) (inr (e, refl, refl))
        | inl ((sealed, m), made) ↦
            rw (made, write)
              (elim (write_files-run d first second q sealed m p next) [
                | inl (went, after) ↦
                    inl (went, load-After d _ q snapshot nonce sealed m p next long made after)
                | inr (e, why, before) ↦
                    inr (e, why, load-Before d _ found q.generation known next before)
              ])
      ]
