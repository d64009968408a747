-- ===== src/Pairing/Ceremony.antt =====
-- runtime/crates/kernel/src/pairing.rs: the two sides of the ceremony over one connection, as
-- programs over the answers that their awaits get. A run gives the actions in order and an outcome.
pub mod Quiet
pub mod Guarded
pub mod Digits
mod Tests
use Prim.Native.String.{String}
use polyvisor.Common.{
  ℕ, ◌+◌, ◌*◌, ◌-◌, ◌^◌, ◌%◌, List, [], ◌∷◌, ◌++◌, Option, none, some, Bool, true, false, ◌&&◌, not,
  Result, ok, err, length, get_or, ◌==◌, if◌then◌else◌, bytes_eq,
}
use polyvisor.Pairing.{Phase, awaiting_confirm, awaiting_peer, code_version}

-- What `Enroll` carries; a grant and an item are their bytes.
pub record Enrolment : Type 0 where
  pub us : List ℕ
  pub keyhive : List ℕ
  pub read_back : List ℕ
  pub name_key : List ℕ
  pub visor : List ℕ
  pub contacts : List ℕ
  pub shared : List (List ℕ × List (List ℕ))

pub data Frame : Type 0 where
  claim : List ℕ → List ℕ → Frame
  accept : List ℕ → List ℕ → String → List ℕ → Frame
  reveal : List ℕ → Frame
  confirm_join : Frame
  enroll : Enrolment → Frame
  enrolled refused cancel : Frame

-- `add_member` is the grant of the adder, `adopt` the joiner's taking over of the group.
pub data Action : Type 0 where
  send : Frame → Action
  show : Phase → Action
  add_member : List ℕ → String → Action
  adopt : Enrolment → Action

-- `pending`: an await has no answer yet.
pub data Outcome {ℓ} (A : Type ℓ) : Type ℓ where
  pending : Outcome A
  fail : String → Outcome A
  done : A → Outcome A

abbrev pub Run {ℓ} : Type ℓ → Type ℓ
Run A = List Action × Outcome A

infixl 5 ◌>>=◌ ◌>>◌
pub ◌>>=◌ {ℓ κ} : {A : Type ℓ} {B : Type κ} → Run A → (A → Run B) → Run B
◌>>=◌ (t, pending) f = (t, pending)
◌>>=◌ (t, fail e) f = (t, fail e)
◌>>=◌ (t, done a) f = (t ++ (f a).0, (f a).1)

abbrev pub ◌>>◌ {κ} : {B : Type κ} → Run (Unit {0}) → Run B → Run B
m >> k = m >>= λ _. k

abbrev pub return {ℓ} : {A : Type ℓ} → A → Run A
return a = ([], done a)

abbrev pub failing {ℓ} : {A : Type ℓ} → String → Run A
failing e = ([], fail e)

-- `?` on a result, and a send, which may fail on the wire.
abbrev pub try {ℓ} : {A : Type ℓ} → Result String A → Run A
try (ok a) = ([], done a)
try (err e) = ([], fail e)

abbrev pub send_frame : Frame → Result String (Unit {0}) → Run (Unit {0})
send_frame f (ok _) = (send f ∷ [], done tt)
send_frame f (err e) = (send f ∷ [], fail e)

abbrev pub perform : Action → Run (Unit {0})
perform a = (a ∷ [], done tt)

abbrev pub require : Bool → String → Run (Unit {0})
require true e = ([], done tt)
require false e = ([], fail e)

abbrev pub cancelled : String
cancelled = "the other device cancelled"

abbrev pub gone : String
gone = "the other device went away"

abbrev pub out_of_order : String
out_of_order = "that device did not speak pairing"

-- `nonce32`.
abbrev pub nonce32 : List ℕ → Run (List ℕ)
nonce32 n = if length n == 32 then return n else failing "that device sent a malformed nonce"

-- `u32::from_be_bytes(digest[..4]) % 1_000_000`, over `blake3` of the transcript.
pub sas : (List ℕ → List ℕ) → List ℕ → List ℕ → List ℕ → List ℕ → List ℕ → ℕ
sas blake3 token joiner_key adder_key nonce_j nonce_a =
    let d =
      blake3 (code_version ∷ (token ++ (joiner_key ++ (adder_key ++ (nonce_j ++ nonce_a))))) in
    (get_or d 0 0 * 2 ^ 24 + get_or d 1 0 * 2 ^ 16 + get_or d 2 0 * 2 ^ 8 + get_or d 3 0)
    % 1_000_000

-- What a wait for the user or the wire gives: the confirmation, or a frame (`none`: closed).
pub data Wake : Type 0 where
  confirmed : Wake
  frame : Option Frame → Wake

-- The adder's loop. A wait after the own confirmation looks at the wire alone, so a further
-- `confirmed` in the script is passed over. An empty script is a wait without an answer.
pub confirmations : List Wake → Bool → Bool → Run (Unit {0})
confirmations ws true true = return tt
confirmations [] true false = ([], pending)
confirmations [] false there = ([], pending)
confirmations (confirmed ∷ ws) false there =
    let shown = if there then [] else show awaiting_peer ∷ [] in
    let rest = confirmations ws true there in (shown ++ rest.0, rest.1)
confirmations (confirmed ∷ ws) true false = confirmations ws true false
confirmations (frame (some confirm_join) ∷ ws) true false = confirmations ws true true
confirmations (frame (some confirm_join) ∷ ws) false there = confirmations ws false true
confirmations (frame (some cancel) ∷ ws) here there = failing cancelled
confirmations (frame none ∷ ws) here there = failing gone
confirmations (frame (some _) ∷ ws) here there = failing out_of_order

-- The answers that `run_adder` meets, in its order. `prepared` joins the initialisations of the
-- documents; `saved` is the payload that the engine gives, up to the store key.
pub record AdderScript : Type 0 where
  pub bound : Result String (Unit {0})
  pub nonce_a : List ℕ
  pub sent_claim : Result String (Unit {0})
  pub accepted : Option Frame
  pub sent_reveal : Result String (Unit {0})
  pub adder_key : Result String (List ℕ)
  pub wakes : List Wake
  pub prepared : Result String (Unit {0})
  pub added : Result String (Unit {0})
  pub saved : Result String Enrolment
  pub sent_enroll : Result String (Unit {0})
  pub checkpointed : Result String (Unit {0})

-- The joiner's answer: its nonce, its name and its card.
pub expect_accept : List ℕ → Option Frame → Run (List ℕ × String × List ℕ)
expect_accept joiner_key (some (accept nonce key petname card)) = do
  require (bytes_eq key joiner_key) "that device answered for a different key"
  n ← nonce32 nonce
  return (n, petname, card)
expect_accept joiner_key (some refused) =
    failing "that code is spent or expired; ask that device for a new one"
expect_accept joiner_key (some cancel) = failing cancelled
expect_accept joiner_key (some (claim _ _)) = failing out_of_order
expect_accept joiner_key (some (reveal _)) = failing out_of_order
expect_accept joiner_key (some confirm_join) = failing out_of_order
expect_accept joiner_key (some (enroll _)) = failing out_of_order
expect_accept joiner_key (some enrolled) = failing out_of_order
expect_accept joiner_key none = failing gone

module _ (blake3 : List ℕ → List ℕ) where
  -- Up to the digits; the result is the name of the joiner.
  pub adder_handshake : AdderScript → List ℕ → List ℕ → Run String
  adder_handshake s joiner_key token = do
    try s.bound
    send_frame (claim token (blake3 s.nonce_a)) s.sent_claim
    (nonce_j, petname, card) ← expect_accept joiner_key s.accepted
    send_frame (reveal s.nonce_a) s.sent_reveal
    adder_key ← try s.adder_key
    perform (show (awaiting_confirm (sas blake3 token joiner_key adder_key nonce_j s.nonce_a)))
    return petname

  -- The grant. Whatever the receipt is, the checkpoint follows.
  pub enrol : AdderScript → List ℕ → String → Run (Unit {0})
  enrol s joiner_key petname = do
    try s.prepared
    perform (add_member joiner_key petname)
    try s.added
    payload ← try s.saved
    send_frame (enroll payload) s.sent_enroll
    try s.checkpointed

  pub run_adder : AdderScript → List ℕ → List ℕ → Run (Unit {0})
  run_adder s joiner_key token = do
    petname ← adder_handshake s joiner_key token
    confirmations s.wakes false false
    enrol s joiner_key petname

-- The answers that `run_claimed` meets. `group_of` is `adoption_group`, `profile_group` the group
-- that the adopted contacts' identity is bound to.
pub record JoinerScript : Type 0 where
  pub bound : Result String (Unit {0})
  pub joiner_key : Result String (List ℕ)
  pub card : Result String (List ℕ)
  pub petname : String
  pub nonce_j : List ℕ
  pub sent_accept : Result String (Unit {0})
  pub revealed : Option Frame
  pub wake : Wake
  pub sent_confirm : Result String (Unit {0})
  pub enrolling : Option Frame
  pub group_of : Enrolment → Result String (List ℕ)
  pub profile_group : Enrolment → Result String (List ℕ)
  pub adopting : Result String (Unit {0})
  pub adopted : Result String (Unit {0})

pub expect_reveal : Option Frame → Run (List ℕ)
expect_reveal (some (reveal nonce)) = nonce32 nonce
expect_reveal (some cancel) = failing cancelled
expect_reveal (some (claim _ _)) = failing out_of_order
expect_reveal (some (accept _ _ _ _)) = failing out_of_order
expect_reveal (some confirm_join) = failing out_of_order
expect_reveal (some (enroll _)) = failing out_of_order
expect_reveal (some enrolled) = failing out_of_order
expect_reveal (some refused) = failing out_of_order
expect_reveal none = failing gone

pub expect_confirmed : Wake → Run (Unit {0})
expect_confirmed confirmed = return tt
expect_confirmed (frame (some cancel)) = failing cancelled
expect_confirmed (frame none) = failing gone
expect_confirmed (frame (some (reveal _))) = failing out_of_order
expect_confirmed (frame (some (claim _ _))) = failing out_of_order
expect_confirmed (frame (some (accept _ _ _ _))) = failing out_of_order
expect_confirmed (frame (some confirm_join)) = failing out_of_order
expect_confirmed (frame (some (enroll _))) = failing out_of_order
expect_confirmed (frame (some enrolled)) = failing out_of_order
expect_confirmed (frame (some refused)) = failing out_of_order

pub expect_enroll : Option Frame → Run Enrolment
expect_enroll (some (enroll payload)) = return payload
expect_enroll (some cancel) = failing cancelled
expect_enroll (some (reveal _)) = failing out_of_order
expect_enroll (some (claim _ _)) = failing out_of_order
expect_enroll (some (accept _ _ _ _)) = failing out_of_order
expect_enroll (some confirm_join) = failing out_of_order
expect_enroll (some enrolled) = failing out_of_order
expect_enroll (some refused) = failing out_of_order
expect_enroll none = failing gone

-- The user's word, and the payload that the adder answers with.
pub await_enrolment : JoinerScript → Run Enrolment
await_enrolment s = do
  expect_confirmed s.wake
  send_frame confirm_join s.sent_confirm
  perform (show awaiting_peer)
  payload ← expect_enroll s.enrolling
  require (length payload.name_key == 32) "that device sent a malformed store key"
  expected ← try (s.group_of payload)
  group ← try (s.profile_group payload)
  require (bytes_eq group expected) "the adopted identity is bound to another Keyhive group"
  return payload

module _ (blake3 : List ℕ → List ℕ) where
  -- Up to the digits.
  pub joiner_handshake : JoinerScript → List ℕ → List ℕ → List ℕ → Run (Unit {0})
  joiner_handshake s adder_key token commit = do
    try s.bound
    require (length token == 16) "that code's token is malformed"
    joiner_key ← try s.joiner_key
    card ← try s.card
    send_frame (accept s.nonce_j joiner_key s.petname card) s.sent_accept
    nonce_a ← expect_reveal s.revealed
    require (bytes_eq (blake3 nonce_a) commit)
        "that device's nonce did not match what it committed to"
    perform (show (awaiting_confirm (sas blake3 token joiner_key adder_key s.nonce_j nonce_a)))

  pub run_claimed : JoinerScript → List ℕ → List ℕ → List ℕ → Run (Unit {0})
  run_claimed s adder_key token commit = do
    joiner_handshake s adder_key token commit
    payload ← await_enrolment s
    try s.adopting
    perform (adopt payload)
    try s.adopted
    perform (send enrolled)
