-- ===== src/Meeting/Exchange.antt =====
-- runtime/crates/kernel/src/meeting.rs: the two sides of an exchange of introductions over one
-- connection, as programs over the answers that their awaits get.
pub mod Quiet
pub mod Agreed
pub mod Guarded
pub mod Transcript
mod Tests
use Prim.Native.String.{String}
use polyvisor.Common.{
  ℕ, ◌+◌, ◌*◌, ◌^◌, ◌%◌, List, [], ◌∷◌, ◌++◌, Option, none, some, Bool, true, false, ◌&&◌, not,
  Result, ok, err, length, get_or, ◌==◌, if◌then◌else◌, bytes_eq, codes,
}
use polyvisor.Opaque.{to_be_bytes}
use polyvisor.Meeting.{Review, Phase, awaiting_confirm, awaiting_peer}
use polyvisor.Meeting as Meeting
use polyvisor.Runs.{
  Run, Outcome, waiting, broken, finished, ◌>>=◌, ◌>>◌, return, failing, try, require, attempt,
}

pub data Frame : Type 0 where
  claim : List ℕ → List ℕ → List ℕ → List ℕ → Frame
  accept : List ℕ → List ℕ → List ℕ → Frame
  reveal : List ℕ → Frame
  confirm accepted refused cancel : Frame

-- `accept_contact` is `contacts_accept_meeting`, which stores a contact.
pub data Action (Intro : Type 0) : Type 0 where
  send : Frame → Action Intro
  show : Phase → Action Intro
  accept_contact : Intro → Action Intro

abbrev pub Steps : Type 0 → Type 0 → Type 0
Steps Intro A = Run (Action Intro) String A

abbrev pub cancelled : String
cancelled = "the other person cancelled"

abbrev pub gone : String
gone = "the other device went away"

abbrev pub out_of_order : String
out_of_order = "that device did not speak meeting"

abbrev pub replaced : String
replaced = "that meeting was replaced"

-- Each field behind its length, as the hasher gets them.
unfoldable pub fields : List (List ℕ) → List ℕ
fields [] = []
fields (field ∷ rest) = to_be_bytes 4 (length field % 2 ^ 32) ++ (field ++ fields rest)

unfoldable pub transcript : List ℕ → List ℕ → List ℕ → List ℕ → List ℕ → List ℕ → List ℕ → List ℕ
transcript token guest_key host_key guest_bytes host_bytes guest_nonce host_nonce =
    codes "polyvisor:meeting:sas:v0\0"
    ++ fields
        (token ∷ guest_key ∷ host_key ∷ guest_bytes ∷ host_bytes ∷ guest_nonce ∷ host_nonce ∷ [])

-- `sas`, as the number below 1,000,000 that the six digits write.
unfoldable pub sas :
    (List ℕ → List ℕ) → List ℕ → List ℕ → List ℕ → List ℕ → List ℕ → List ℕ → List ℕ → ℕ
sas blake3 token guest_key host_key guest_bytes host_bytes guest_nonce host_nonce =
    let d =
      blake3 (transcript token guest_key host_key guest_bytes host_bytes guest_nonce host_nonce) in
    (get_or d 0 0 * 2 ^ 24 + get_or d 1 0 * 2 ^ 16 + get_or d 2 0 * 2 ^ 8 + get_or d 3 0)
    % 1_000_000

-- What a wait for the user or the wire gives: the confirmation, or a frame (`none`: closed).
pub data Wake : Type 0 where
  confirmed : Wake
  frame : Option Frame → Wake

-- The answers that the common end of both sides meets: whether the phase could be set, each wake
-- with whether it was sent and whether the generation was current then, the checks before and after
-- the contact is stored, and what storing it gave.
pub record EndScript : Type 0 where
  pub shown : Bool
  pub wakes : List (Wake × Bool × Result String (Unit {0}))
  pub current_before : Bool
  pub stored : Result String String
  pub current_after : Bool

-- What the two sides know of the peer's introduction: its check, and the part of `review` that
-- reads it.
pub record Contacts (Intro : Type 0) : Type 0 where
  pub validate : List ℕ → Result String Intro
  pub peer_key : Intro → List ℕ
  pub claims : Intro → List (String × String)

module _ {Intro : Type 0} where
  -- `fixed32`, at the text for what is malformed.
  unfoldable pub fixed32 : List ℕ → String → Steps Intro (List ℕ)
  fixed32 bytes malformed = do require (length bytes == 32) malformed; return bytes

  unfoldable pub on_frame : Option Frame → Steps Intro (Unit {0})
  on_frame (some confirm) = return tt
  on_frame (some cancel) = failing cancelled
  on_frame none = failing gone
  on_frame (some other) = failing out_of_order

  -- The loop over the wakes, with the two marks. After the own confirmation only the wire is looked
  -- at, so a further `confirmed` of the script is passed over.
  unfoldable pub confirmations :
      List (Wake × Bool × Result String (Unit {0})) → Bool → Bool → Steps Intro (Unit {0})
  confirmations ws true true = return tt
  confirmations [] true false = ([], waiting)
  confirmations [] false there = ([], waiting)
  confirmations ((confirmed, current, sent) ∷ ws) true false = confirmations ws true false
  confirmations ((confirmed, current, sent) ∷ ws) false there = do
    require current replaced
    attempt (send confirm) sent
    (if there then [] else show awaiting_peer ∷ [], finished tt)
    confirmations ws true there
  confirmations ((frame f, current, sent) ∷ ws) true false = do
    require current replaced
    on_frame f
    confirmations ws true true
  confirmations ((frame f, current, sent) ∷ ws) false there = do
    require current replaced
    on_frame f
    confirmations ws false true

  -- `meeting_confirm_and_persist`; the last frame and the wait for its receipt are best effort.
  unfoldable pub confirm_and_persist :
      Contacts Intro → EndScript → ℕ → ℕ → Intro → Steps Intro String
  confirm_and_persist contacts s generation digits intro = do
    (
      show (
            awaiting_confirm (record {
              generation = generation;
              sas = digits;
              peer_key = contacts.peer_key intro;
              claims = contacts.claims intro;
            }))
          ∷ [],
      finished tt,
    )
    require s.shown replaced
    confirmations s.wakes false false
    require s.current_before replaced
    contact ← attempt (accept_contact intro) s.stored
    require s.current_after replaced
    (show (Meeting.done contact) ∷ send accepted ∷ [], finished tt)
    return contact

  unfoldable pub expect_accept : List ℕ → Option Frame → Steps Intro (List ℕ × List ℕ)
  expect_accept host_key (some (accept key introduction commit)) =
      require (bytes_eq key host_key) out_of_order
      >> (fixed32 commit "that device sent a malformed commitment" >>= λ fixed.
          return (introduction, fixed))
  expect_accept host_key (some refused) = failing "that meeting link is spent or expired"
  expect_accept host_key (some cancel) = failing cancelled
  expect_accept host_key none = failing gone
  expect_accept host_key (some other) = failing out_of_order

  -- `next_reveal`.
  unfoldable pub next_reveal : Option Frame → Steps Intro (List ℕ)
  next_reveal (some (reveal nonce)) = fixed32 nonce "that device sent a malformed nonce"
  next_reveal (some cancel) = failing cancelled
  next_reveal none = failing gone
  next_reveal (some other) = failing out_of_order

-- The answers that `meeting_run_guest` meets, in its order.
pub record GuestScript : Type 0 where
  pub bound : Result String (Unit {0})
  pub own_key : Result String (List ℕ)
  pub nonce : List ℕ
  pub sent_claim : Result String (Unit {0})
  pub answered : Option Frame
  pub sent_reveal : Result String (Unit {0})
  pub revealed : Option Frame
  pub last : EndScript

-- The answers that `meeting_run_claimed` meets, in its order.
pub record HostScript : Type 0 where
  pub own_key : Result String (List ℕ)
  pub bound : Result String (Unit {0})
  pub nonce : List ℕ
  pub sent_accept : Result String (Unit {0})
  pub revealed : Option Frame
  pub sent_reveal : Result String (Unit {0})
  pub last : EndScript

module _ {Intro : Type 0} (contacts : Contacts Intro) (blake3 : List ℕ → List ℕ)
    (generation : ℕ) where
  unfoldable pub run_guest : GuestScript → List ℕ → List ℕ → List ℕ → Steps Intro String
  run_guest s host_key token guest_bytes = do
    try s.bound
    guest_key ← try s.own_key
    attempt (send (claim token guest_key guest_bytes (blake3 s.nonce))) s.sent_claim
    (host_bytes, host_commit) ← expect_accept host_key s.answered
    intro ← try (contacts.validate host_bytes)
    attempt (send (reveal s.nonce)) s.sent_reveal
    host_nonce ← next_reveal s.revealed
    require (bytes_eq (blake3 host_nonce) host_commit)
        "that device's nonce did not match its commitment"
    confirm_and_persist contacts s.last generation
        (sas blake3 token guest_key host_key guest_bytes host_bytes s.nonce host_nonce) intro

  unfoldable pub run_claimed :
      HostScript → List ℕ → List ℕ → List ℕ → List ℕ → List ℕ → Steps Intro String
  run_claimed s guest_key token guest_bytes commit host_bytes = do
    require (length token == 16) "that meeting token is malformed"
    guest_commit ← fixed32 commit "that device sent a malformed commitment"
    intro ← try (contacts.validate guest_bytes)
    host_key ← try s.own_key
    try s.bound
    attempt (send (accept host_key host_bytes (blake3 s.nonce))) s.sent_accept
    guest_nonce ← next_reveal s.revealed
    require (bytes_eq (blake3 guest_nonce) guest_commit)
        "that device's nonce did not match its commitment"
    attempt (send (reveal s.nonce)) s.sent_reveal
    confirm_and_persist contacts s.last generation
        (sas blake3 token guest_key host_key guest_bytes host_bytes guest_nonce s.nonce) intro
