-- ===== src/Checkpoint/Phases.antt =====
-- `write` of runtime/crates/kernel/src/checkpoint.rs: the disk before and after the commit.
use polyvisor.Common.{
  ℕ, ◌+◌, ◌-◌, ◌≡◌, ◌≢◌, refl, ◌⊎◌, inl, inr, List, ◌∷◌, Option, some, false, Bool-cases, ltb, ◌==◌,
  All, arith,
}
use polyvisor.Checkpoint.Files.{
  FilePath, state, manifest, journal, same_path, same_path_refl, Disk, write_file, set_pointer, put,
  perform, Crash, stop, tear, step,
}
use polyvisor.Checkpoint.Crashes.{IsSafe, Crash-IsSafe, All-append}
use polyvisor.Checkpoint.{remove_generation, drop_old, cleanup}

-- Nothing changed but the two files of one generation.
pub record Before (d₀ : Disk) (g : ℕ) (d : Disk) : Type 0 where
  pub row : d.pointer_row ≡ d₀.pointer_row
  pub files :
      (q : FilePath)
      → same_path (state g) q ≡ false
      → same_path (manifest g) q ≡ false
      → d.read q ≡ d₀.read q

-- The generation is on disk and pointed, and the journal is as it was.
pub record After (d₀ : Disk) (g : ℕ) (bytes sealed m : List ℕ) (d : Disk) : Type 0 where
  pub row : d.pointer_row ≡ some bytes
  pub state_file : d.read (state g) ≡ some sealed
  pub manifest_file : d.read (manifest g) ≡ some m
  pub journals : (n : ℕ) → d.read (journal n) ≡ d₀.read (journal n)

module _ (d₀ : Disk) (g : ℕ) where
  pub put-state-Before :
      (o : Option (List ℕ)) (d : Disk) → Before d₀ g d → Before d₀ g (put (state g) o d)
  unfolding put
  put-state-Before o d b = record { row = b.row; files = λ q s m. rw s (b.files q s m) }

  pub put-manifest-Before :
      (o : Option (List ℕ)) (d : Disk) → Before d₀ g d → Before d₀ g (put (manifest g) o d)
  unfolding put
  put-manifest-Before o d b = record { row = b.row; files = λ q s m. rw m (b.files q s m) }

  pub start : Before d₀ g d₀
  start = record { row = refl; files = λ q s m. refl }

  module _ (bytes sealed m : List ℕ) where
    pub committed-After :
        (d : Disk)
        → Before d₀ g d
        → After d₀ g bytes sealed m (
            perform (set_pointer bytes) (put (manifest g) (some m) (put (state g) (some sealed) d)))
    unfolding perform put same_path
    committed-After d b = record {
      row = refl;
      state_file = rw (same_path_refl (state g)) refl;
      manifest_file = rw (same_path_refl (manifest g)) refl;
      journals = λ n. b.files (journal n) refl refl;
    }

    remove_generation-After :
        (k : ℕ) → k ≢ g → All (IsSafe (After d₀ g bytes sealed m)) (remove_generation k)
    unfolding remove_generation IsSafe put same_path
    remove_generation-After k away =
        let apart : (k == g) ≡ false = ground arith in
        (
          (λ d a. record {
            row = a.row;
            state_file = a.state_file;
            manifest_file = rw apart a.manifest_file;
            journals = a.journals;
          }),
          (
            (λ d a. record {
              row = a.row;
              state_file = rw apart a.state_file;
              manifest_file = a.manifest_file;
              journals = a.journals;
            }),
            ((λ d a. a), tt),
          ),
        )

    drop_old-After : (k : ℕ) → k ≢ g → All (IsSafe (After d₀ g bytes sealed m)) (drop_old k)
    unfolding drop_old
    drop_old-After k away = elim (Bool-cases (ltb 0 k)) [
      | inl e ↦ rw e (remove_generation-After k away)
      | inr e ↦ rw e tt
    ]

    pub cleanup-After : (p : ℕ) → g ≡ p + 1 → All (IsSafe (After d₀ g bytes sealed m)) (cleanup g)
    unfolding cleanup
    cleanup-After p next =
        All-append (IsSafe (After d₀ g bytes sealed m)) (drop_old (g - 1)) (drop_old (g - 2))
          (drop_old-After (g - 1) (omega arith)) (drop_old-After (g - 2) (omega arith))

    -- Wherever the calls of a whole write stop, the disk is before or after the commit.
    pub commit-Crash :
        (p : ℕ)
        → g ≡ p + 1
        → (d' : Disk)
        → Crash
            (write_file (state g) (some sealed)
              ∷ write_file (manifest g) (some m)
              ∷ set_pointer bytes
              ∷ cleanup g)
            d₀
            d'
        → Before d₀ g d' ⊎ After d₀ g bytes sealed m d'
    unfolding perform
    commit-Crash p next d' stop = inl start
    commit-Crash p next d' (tear left) = inl (put-state-Before left d₀ start)
    commit-Crash p next d' (step stop) = inl (put-state-Before (some sealed) d₀ start)
    commit-Crash p next d' (step (tear left)) = inl (
        put-manifest-Before left (put (state g) (some sealed) d₀)
          (put-state-Before (some sealed) d₀ start))
    commit-Crash p next d' (step (step stop)) = inl (
        put-manifest-Before (some m) (put (state g) (some sealed) d₀)
          (put-state-Before (some sealed) d₀ start))
    commit-Crash p next d' (step (step (step later))) = inr (
        Crash-IsSafe (After d₀ g bytes sealed m) (cleanup-After p next) (committed-After d₀ start)
          later)
