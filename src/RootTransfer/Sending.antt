-- ===== src/RootTransfer/Sending.antt =====
-- runtime/crates/kernel/src/root_transfer.rs: `root_transfer`, the sending side.
mod Tests
use polyvisor.Common.{
  ℕ, ◌≡◌, ◌≢◌, refl, sym, ap, ◌∙◌, ◌⊎◌, inl, inr, List, [], ◌∷◌, Option, none, some, Bool, true,
  false, not, Result, ok, err, guard, ok_or, ◌>>=◌, ◌>>◌, bytes_eq, bytes_eq→eq, arith,
  Result-cases, >>=-eq-ok, >>-eq-ok, guard-eq-ok,
}
use polyvisor.Errors.{Error, refused, unavailable, failed}
use polyvisor.RootTransfer.{
  Frame, transfer, persisted, received, declined, Identity, Context, context_is,
  require_same_identity, require_current_member,
}

-- The answers that the code meets, in its order. `connected` is the peer that answered; an
-- operation that times out is an error.
pub record Script : Type 0 where
  pub open? : Result Error (Unit {0})
  pub target : Result Error (List ℕ)
  pub own_key : List ℕ
  pub before : Identity
  pub context : Context
  pub endpoint_ready : Bool
  pub connected : Result Error (List ℕ)
  pub members : Result Error (List (List ℕ))
  pub identity : Identity
  pub context_now : Context
  pub root_seed : Option (List ℕ)
  pub sent : Result Error (Unit {0})
  pub answer : Result Error (Option Frame)
  pub context_later : Context
  pub identity_later : Identity
  pub members_later : Result Error (List (List ℕ))
  pub acknowledged : Result Error (Unit {0})

abbrev changed : Error
changed = refused "the user identity changed during transfer"

-- The dialled peer.
pub dial : Script → Result Error (List ℕ)
dial s = do
  s.open?
  target ← s.target
  guard (not (bytes_eq target s.own_key)) (refused "root custody is already on this device")
  guard s.endpoint_ready (unavailable "this device endpoint is not ready")
  s.connected

-- The seed to send to `peer`.
pub release : Script → List ℕ → Result Error (List ℕ)
release s peer = do
  target ← s.target
  guard (bytes_eq peer target) (refused "a different device answered the selected endpoint")
  require_current_member s.members peer
  guard (context_is s.context_now s.context) changed
  require_same_identity s.before s.identity
  ok_or s.root_seed (refused "this device does not hold the user root; transfer or unlock it first")

-- The match on the recipient's answer, up to the last send.
pub confirm : Script → List ℕ → Option Frame → Result Error (Unit {0})
confirm s peer (some persisted) = do
  guard (context_is s.context_later s.context) changed
  require_same_identity s.before s.identity_later
  require_current_member s.members_later peer
confirm s peer (some declined) = err (refused "the recipient refused root custody")
confirm s peer (some received) =
    err (failed "the recipient did not acknowledge persisted root custody")
confirm s peer (some (transfer root group seed)) =
    err (failed "the recipient did not acknowledge persisted root custody")
confirm s peer none = err (failed "the recipient did not acknowledge persisted root custody")

-- The frames handed to the transport, and the result.
abbrev pub Conversation : Type 0
Conversation = List Frame × Result Error (Unit {0})

-- Behind the first send.
pub finish : Script → List ℕ → List ℕ → Conversation
finish s peer seed =
    let first = transfer s.identity.root s.identity.group seed in
    elim (s.sent >> s.answer) [
      | err e ↦ (first ∷ [], err e)
      | ok answer ↦ elim (confirm s peer answer) [
        | err e ↦ (first ∷ [], err e)
        | ok _ ↦ (first ∷ received ∷ [], s.acknowledged)
      ]
    ]

pub root_transfer : Script → Conversation
root_transfer s = elim (dial s) [
  | err e ↦ ([], err e)
  | ok peer ↦ elim (release s peer) [ err e ↦ ([], err e) | ok seed ↦ finish s peer seed ]
]

-- The seed goes out only to the chosen member, on an unmoved identity.
pub record Released (s : Script) (seed : List ℕ) : Type 0 where
  pub peer : List ℕ
  pub chosen : s.target ≡ ok peer
  pub answered : s.connected ≡ ok peer
  pub other : bytes_eq peer s.own_key ≡ false
  pub member : require_current_member s.members peer ≡ ok tt
  pub same_context : context_is s.context_now s.context ≡ true
  pub same_identity : require_same_identity s.before s.identity ≡ ok tt
  pub held : s.root_seed ≡ some seed

dial-ok :
    (s : Script) (peer : List ℕ)
    → dial s ≡ ok peer
    → (s.connected ≡ ok peer)
      × ((target : List ℕ) × (s.target ≡ ok target) × (bytes_eq target s.own_key ≡ false))
unfolding dial
dial-ok s peer h =
    let (_, h1) = >>-eq-ok s.open? _ h in
    let (target, t, h2) = >>=-eq-ok s.target _ h1 in (ground arith, (target, t, ground arith))

release-ok :
    (s : Script) (peer target seed : List ℕ)
    → s.target ≡ ok target
    → release s peer ≡ ok seed
    → (peer ≡ target)
      × (require_current_member s.members peer ≡ ok tt)
      × (context_is s.context_now s.context ≡ true)
      × (require_same_identity s.before s.identity ≡ ok tt)
      × (s.root_seed ≡ some seed)
unfolding release
release-ok s peer target seed t h =
    (bytes_eq→eq peer target (ground arith), ground arith, ground arith, ground arith, ground arith)

-- The recipient said `persisted`, and then nothing of the identity had moved.
pub record Persisted (s : Script) : Type 0 where
  pub said : s.answer ≡ ok (some persisted)
  pub same_context : context_is s.context_later s.context ≡ true
  pub same_identity : require_same_identity s.before s.identity_later ≡ ok tt

module _ (s : Script) where
  abbrev pub first : List ℕ → Frame
  first seed = transfer s.identity.root s.identity.group seed

  -- The seed was sent, and the transfer failed or went through.
  abbrev pub Finished : List ℕ → Conversation → Type 0
  Finished seed c =
      ((e : Error) × (c ≡ (first seed ∷ [], err e)))
      ⊎ (Persisted s × (c ≡ (first seed ∷ received ∷ [], s.acknowledged)))

  confirm-Persisted :
      (peer : List ℕ) (a : Option Frame) → s.answer ≡ ok a → confirm s peer a ≡ ok tt → Persisted s
  unfolding confirm
  confirm-Persisted peer (some persisted) e h = record {
    said = e;
    same_context = ground arith;
    same_identity = ground arith;
  }
  confirm-Persisted peer (some declined) e h = absurd (ground arith)
  confirm-Persisted peer (some received) e h = absurd (ground arith)
  confirm-Persisted peer (some (transfer _ _ _)) e h = absurd (ground arith)
  confirm-Persisted peer none e h = absurd (ground arith)

  finish-Finished : (peer seed : List ℕ) → Finished seed (finish s peer seed)
  unfolding finish
  finish-Finished peer seed = elim (Result-cases (s.sent >> s.answer)) [
    | inr (e, x) ↦ inl (e, rw (x, finish))
    | inl (a, x) ↦ elim (Result-cases (confirm s peer a)) [
      | inr (e, y) ↦ inl (e, rw (x, y, finish))
      | inl (_, y) ↦
          inr (confirm-Persisted peer a (>>-eq-ok s.sent s.answer x).1 y, rw (x, y, finish))
    ]
  ]

  release-Released :
      (peer seed : List ℕ) → dial s ≡ ok peer → release s peer ≡ ok seed → Released s seed
  release-Released peer seed d h =
      let (answered, (target, t, other)) = dial-ok s peer d in
      let (is, member, context, id, held) = release-ok s peer target seed t h in
      record {
        peer = peer;
        chosen = rw is t;
        answered = answered;
        other = rw is other;
        member = member;
        same_context = context;
        same_identity = id;
        held = held;
      }

  root_transfer-finish :
      (peer seed : List ℕ)
      → dial s ≡ ok peer
      → release s peer ≡ ok seed
      → root_transfer s ≡ finish s peer seed
  unfolding root_transfer
  root_transfer-finish peer seed x y = rw (x, y, root_transfer)

  -- Either the transfer fails with no frame sent, or the peer that answered is the chosen one, another
  -- device and a current member, on an unmoved identity, and the first frame carries the held seed; then
  -- the transfer fails with that frame alone, or a second frame follows an answer `persisted` on a still
  -- unmoved identity, and its sending decides.
  pub root_transfer_guarded :
      ((e : Error) × (root_transfer s ≡ ([], err e)))
      ⊎ ((seed : List ℕ) × Released s seed × Finished seed (root_transfer s))
  root_transfer_guarded = elim (Result-cases (dial s)) [
    | inr (e, x) ↦ inl (e, unfold root_transfer in rw (x, root_transfer))
    | inl (peer, x) ↦ elim (Result-cases (release s peer)) [
      | inr (e, y) ↦ inl (e, unfold root_transfer in rw (x, y, root_transfer))
      | inl (seed, y) ↦ inr (
        seed,
        release-Released peer seed x y,
        rw (root_transfer-finish peer seed x y) (finish-Finished peer seed),
      )
    ]
  ]
