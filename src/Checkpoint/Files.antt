-- ===== src/Checkpoint/Files.antt =====
-- The files and the key-value row that runtime/crates/kernel/src/checkpoint.rs names, and the
-- calls it makes on them, as `Platform` and `Files` of runtime/crates/kernel/src/lib.rs document
-- them: only a write reports failure, a removal is best effort, a row is set whole.
use polyvisor.Common.{
  ℕ, ◌≡◌, refl, List, [], ◌∷◌, ◌++◌, Option, some, none, Bool, true, false, ◌==◌, if◌then◌else◌,
  arith,
}

-- `/<id>/gen-<n>/state`, `/<id>/gen-<n>/MANIFEST` and `/<id>/engine/<n>`.
pub data FilePath : Type 0 where
  state manifest journal : ℕ → FilePath

-- `/<id>/gen-<n>`, `/<id>/engine` and `/<id>`.
pub data Dir : Type 0 where
  generation_dir : ℕ → Dir
  engine_dir namespace : Dir

unfoldable pub same_path : FilePath → FilePath → Bool
same_path (state m) (state n) = m == n
same_path (manifest m) (manifest n) = m == n
same_path (journal m) (journal n) = m == n
same_path p q = false

pub same_path→eq : (p q : FilePath) → same_path p q ≡ true → p ≡ q
unfolding same_path
same_path→eq (state m) (state n) h = ground arith
same_path→eq (manifest m) (manifest n) h = ground arith
same_path→eq (journal m) (journal n) h = ground arith
same_path→eq (state m) (manifest n) h = ground arith
same_path→eq (state m) (journal n) h = ground arith
same_path→eq (manifest m) (state n) h = ground arith
same_path→eq (manifest m) (journal n) h = ground arith
same_path→eq (journal m) (state n) h = ground arith
same_path→eq (journal m) (manifest n) h = ground arith

pub same_path_refl : (p : FilePath) → same_path p p ≡ true
unfolding same_path
same_path_refl (state m) = ground arith
same_path_refl (manifest m) = ground arith
same_path_refl (journal m) = ground arith

-- The contents under each name, and the row that holds the pointer.
pub record Disk : Type 0 where
  pub read : FilePath → Option (List ℕ)
  pub pointer_row : Option (List ℕ)

-- The calls of `Files` and `Platform` that change something. A write says what the file then
-- holds.
pub data Effect : Type 0 where
  write_file : FilePath → Option (List ℕ) → Effect
  set_pointer : List ℕ → Effect
  remove_file : FilePath → Effect
  remove_dir : Dir → Effect

unfoldable pub put : FilePath → Option (List ℕ) → Disk → Disk
put p contents d = record {
  read = λ q. if same_path p q then contents else d.read q;
  pointer_row = d.pointer_row;
}

-- A directory is removed only when it is empty, so no file changes with it.
unfoldable pub perform : Effect → Disk → Disk
perform (write_file p contents) d = put p contents d
perform (set_pointer bytes) d = record { read = d.read; pointer_row = some bytes }
perform (remove_file p) d = put p none d
perform (remove_dir dir) d = d

unfoldable pub run : List Effect → Disk → Disk
run [] d = d
run (e ∷ es) d = run es (perform e d)

pub run-append : (es fs : List Effect) (d : Disk) → run (es ++ fs) d ≡ run fs (run es d)
unfolding run
run-append [] fs d = refl
run-append (e ∷ es) fs d = run-append es fs (perform e d)

-- A device may lose power between two calls, and in the middle of a write, which leaves
-- anything in the file. A row is set whole or not at all, and a removal may do nothing.
pub data Crash : List Effect → Disk → Disk → Type 0 where
  stop : {es : List Effect} {d : Disk} → Crash es d d
  tear :
      {p : FilePath} {o : Option (List ℕ)} {es : List Effect} {d : Disk} (left : Option (List ℕ))
      → Crash (write_file p o ∷ es) d (put p left d)
  step :
      {e : Effect} {es : List Effect} {d d' : Disk}
      → Crash es (perform e d) d'
      → Crash (e ∷ es) d d'
  skip :
      {p : FilePath} {es : List Effect} {d d' : Disk}
      → Crash es d d'
      → Crash (remove_file p ∷ es) d d'
