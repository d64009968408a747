-- ===== src/RootTransfer/Receiving.antt =====
-- runtime/crates/kernel/src/root_transfer.rs: `receive_root_transfer` and `root_transfer_accept`.
pub mod Custody
mod Tests
use polyvisor.Common.{
  ℕ, ◌+◌, ◌≡◌, refl, ◌⊎◌, inl, inr, List, [], ◌∷◌, Option, none, some, Bool, true, false, ◌&&◌,
  ◌||◌, not, Result, ok, err, guard, ◌>>=◌, ◌>>◌, if◌then◌else◌, bytes_eq, bytes_eq→eq, arith,
  Bool-cases, Result-cases, ◌==◌,
}
use polyvisor.Errors.{Error, refused, failed}
use polyvisor.RootTransfer.{
  Frame, transfer, persisted, received, declined, Identity, Context, World, context_is,
  require_same_identity, require_current_member, replace_root_seed,
}
use polyvisor.RootTransfer.Persist.{Writing, checkpoint_durable}

-- The answers of the awaits, in the order of the code. A receive that times out is an error. The
-- world that the functions take is the one in which the context is read; `during_receive` is what
-- other tasks do from there to the checks behind the frame.
pub record Script : Type 0 where
  pub open? : Result Error (Unit {0})
  pub members_before : Result Error (List (List ℕ))
  pub before : Result Error Identity
  pub frame : Result Error (Option Frame)
  pub during_receive : World → World
  pub members_after : Result Error (List (List ℕ))
  pub after : Result Error Identity
  pub writing : Writing
  pub rolling_back : Writing

abbrev changed : Error
changed = refused "the user identity changed during transfer"

-- `let Some(Frame::Transfer { .. }) = .. else`.
unfoldable pub as_transfer : Option Frame → Result Error (List ℕ × List ℕ × List ℕ)
as_transfer (some (transfer root group seed)) = ok (root, group, seed)
as_transfer (some persisted) = err (refused "invalid root transfer frame")
as_transfer (some received) = err (refused "invalid root transfer frame")
as_transfer (some declined) = err (refused "invalid root transfer frame")
as_transfer none = err (refused "invalid root transfer frame")

-- `public` is `SigningKey::from_bytes(seed).verifying_key()`.
module _ (public : List ℕ → List ℕ) where
  -- The checks behind the frame.
  pub verify :
      Script
      → List ℕ
      → Context
      → World
      → Identity
      → List ℕ
      → List ℕ
      → List ℕ
      → Result Error (List ℕ)
  verify s sender context w before root group seed = do
    require_current_member s.members_after sender
    identity ← s.after
    guard (context_is (s.during_receive w).context context) changed
    require_same_identity before identity
    guard
        (bytes_eq root identity.root
          && (bytes_eq group identity.group && bytes_eq (public seed) root))
        (refused "transferred custody does not match this user's identity")
    ok seed

  -- Everything up to the installation: the seed to install, or the refusal.
  pub examine : Script → List ℕ → Context → World → Result Error (List ℕ)
  examine s sender context w = do
    s.open?
    require_current_member s.members_before sender
    before ← s.before
    frame ← s.frame
    (root, group, seed) ← as_transfer frame
    verify s sender context w before root group seed

  -- A failed write puts the previous seed back and writes again, unless the identity changed
  -- meanwhile; how the second write ends does not matter.
  pub roll_back :
      Script → Context → Option (List ℕ) → Error → World → World × Result Error (Unit {0})
  roll_back s context previous e w =
      if context_is w.context context
      then ((checkpoint_durable s.rolling_back (replace_root_seed previous w)).0, err e)
      else (w, err e)

  pub announce : Context → World → World × Result Error (Unit {0})
  announce context w =
      if context_is w.context context
      then (record w { announced = w.announced + 1 }, ok tt)
      else (w, err changed)

  -- Behind the write of the installed seed, by its outcome.
  pub settle :
      Script
      → Context
      → Option (List ℕ)
      → World × Result Error (Unit {0})
      → World × Result Error (Unit {0})
  settle s context previous (w, ok _) = announce context w
  settle s context previous (w, err e) = roll_back s context previous e w

  pub install : Script → Context → List ℕ → World → World × Result Error (Unit {0})
  install s context seed w =
      settle s context w.root_seed (checkpoint_durable s.writing (replace_root_seed (some seed) w))

  pub receive_root_transfer : Script → List ℕ → World → World × Result Error (Unit {0})
  receive_root_transfer s sender w =
      let waited = s.during_receive w in
      elim (examine s sender w.context w) [
        | err e ↦ (waited, err e)
        | ok seed ↦ install s w.context seed waited
      ]

-- The reply of `root_transfer_accept`.
pub reply : Result Error (Unit {0}) → Frame
reply (ok _) = persisted
reply (err e) = declined
