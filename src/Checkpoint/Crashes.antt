-- ===== src/Checkpoint/Crashes.antt =====
-- Predicates on the disk that calls keep, wherever power is lost.
use polyvisor.Common.{ℕ, List, [], ◌∷◌, ◌++◌, Option, none, All}
use polyvisor.Checkpoint.Files.{
  Disk, Effect, write_file, set_pointer, remove_file, remove_dir, put, perform, run, Crash, stop,
  tear, step, skip,
}

-- A call keeps a predicate, also when it is a write that is torn.
unfoldable pub IsSafe : (Disk → Type 0) → Effect → Type 0
IsSafe P (write_file p contents) = (left : Option (List ℕ)) (d : Disk) → P d → P (put p left d)
IsSafe P (set_pointer bytes) = (d : Disk) → P d → P (perform (set_pointer bytes) d)
IsSafe P (remove_file p) = (d : Disk) → P d → P (put p none d)
IsSafe P (remove_dir dir) = (d : Disk) → P d → P d

module _ (P : Disk → Type 0) where
  perform-IsSafe : (e : Effect) (d : Disk) → IsSafe P e → P d → P (perform e d)
  unfolding IsSafe perform
  perform-IsSafe (write_file p contents) d safe h = safe contents d h
  perform-IsSafe (set_pointer bytes) d safe h = safe d h
  perform-IsSafe (remove_file p) d safe h = safe d h
  perform-IsSafe (remove_dir dir) d safe h = safe d h

  pub Crash-IsSafe :
      {es : List Effect} {d d' : Disk} → All (IsSafe P) es → P d → Crash es d d' → P d'
  unfolding IsSafe
  Crash-IsSafe safe h stop = h
  Crash-IsSafe {d = d} safe h (tear left) = let (torn_safe, rest) = safe in torn_safe left d h
  Crash-IsSafe {d = d} safe h (step {e = e} later) =
      let (first, rest) = safe in Crash-IsSafe rest (perform-IsSafe e d first h) later
  Crash-IsSafe safe h (skip later) = let (first, rest) = safe in Crash-IsSafe rest h later

  pub run-IsSafe : (es : List Effect) (d : Disk) → All (IsSafe P) es → P d → P (run es d)
  unfolding run
  run-IsSafe [] d safe h = h
  run-IsSafe (e ∷ es) d (first, safe) h =
      run-IsSafe es (perform e d) safe (perform-IsSafe e d first h)

pub All-append :
    (P : Effect → Type 0) (es fs : List Effect) → All P es → All P fs → All P (es ++ fs)
All-append P [] fs h k = k
All-append P (e ∷ es) fs (x, h) k = (x, All-append P es fs h k)
