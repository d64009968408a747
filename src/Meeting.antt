-- ===== src/Meeting.antt =====
-- runtime/crates/kernel/src/meeting.rs: the offer, the session and the generation of a meeting.
-- Operations are state transformers on `Meeting`; the await for the signed card is a function
-- argument on the state. `events` lists the announced statuses, the newest first.
pub mod Fragment
pub mod Generations
pub mod Stale
pub mod Order
pub mod Exchange
mod Tests
use Prim.Native.String.{String}
use polyvisor.Common.{
  ℕ, ◌+◌, ◌^◌, List, [], ◌∷◌, ◌++◌, Option, none, some, Bool, true, false, ◌&&◌, ◌||◌, not, Result,
  ok, err, map_err, guard, ok_or, ◌>>=◌, ◌>>◌, length, take, drop, get_or, ◌==◌, ltb, leb,
  if◌then◌else◌, bytes_eq, codes, strip_prefix,
}
use polyvisor.Errors.{Error, refused, unavailable, message}
use polyvisor.Primitives.{Encoding}
use polyvisor.Pairing.{Host, ready, saturating_add, clean}

-- `MEETING_TTL_MS`.
abbrev pub meeting_ttl_ms : ℕ
meeting_ttl_ms = 120_000

abbrev pub code_version : ℕ
code_version = 1

pub record Review : Type 0 where
  pub generation : ℕ
  pub sas : ℕ
  pub peer_key : List ℕ
  pub claims : List (String × String)

pub data Phase : Type 0 where
  idle : Phase
  offering : ℕ → List ℕ → Phase
  dialing : ℕ → Phase
  awaiting_confirm : Review → Phase
  awaiting_peer : Phase
  done : String → Phase
  failed : String → Phase

pub record Status : Type 0 where
  pub generation : ℕ
  pub phase : Phase

pub record Offer : Type 0 where
  pub token : List ℕ
  pub expires : ℕ
  pub claimed : Bool
  pub introduction : List ℕ

-- `transport` names the connection; `confirm` says whether the sender is still there.
pub record Session : Type 0 where
  pub generation : ℕ
  pub transport : ℕ
  pub confirm : Bool
  pub cancelled : Bool

pub record Meeting : Type 0 where
  pub generation : ℕ
  pub phase : Phase
  pub offer : Option Offer
  pub session : Option Session
  pub events : List Status
  -- The connections that are closed, and those whose user confirmed.
  pub closed : List ℕ
  pub confirmed : List ℕ

-- `checked_add` on `u32`.
pub next_generation : ℕ → Result Error ℕ
next_generation current =
    if ltb (current + 1) (2 ^ 32)
    then ok (current + 1)
    else err (unavailable "this runtime has exhausted meeting generations")

abbrev pub replaced : Error
replaced = refused "that meeting was replaced"

abbrev pub is_done : Phase → Bool
is_done (done id) = true
is_done idle = false
is_done (offering g link) = false
is_done (dialing g) = false
is_done (awaiting_confirm r) = false
is_done awaiting_peer = false
is_done (failed why) = false

-- Whether the phase is none of `Idle`, `Done` and `Failed`.
abbrev pub is_live : Phase → Bool
is_live (done id) = false
is_live idle = false
is_live (offering g link) = true
is_live (dialing g) = true
is_live (awaiting_confirm r) = true
is_live awaiting_peer = true
is_live (failed why) = false

pub transition : ℕ → Phase → Meeting → Meeting × Bool
transition generation phase m =
    if not (m.generation == generation) || is_done m.phase
    then (m, false)
    else (record m { phase = phase; offer = if is_done phase then none else m.offer }, true)

abbrev pub announce : Status → Meeting → Meeting
announce status m = record m { events = status ∷ m.events }

-- `meeting_set_phase`.
pub set_phase : ℕ → Phase → Meeting → Meeting × Bool
set_phase generation phase m =
    let (moved, changed) = transition generation phase m in
    if changed
    then (announce (record { generation = generation; phase = phase }) moved, true)
    else (moved, false)

abbrev pub close_of : Option Session → List ℕ → List ℕ
close_of none closed = closed
close_of (some s) closed = s.transport ∷ closed

-- A new generation with the session taken out, and `meeting_dispose` of it. The flag `cancelled`
-- is set on the session that left the state.
abbrev pub renew : ℕ → Phase → Meeting → Meeting
renew generation phase m = record m {
  generation = generation;
  phase = phase;
  offer = none;
  session = none;
  closed = close_of m.session m.closed;
}

pub meeting_reserve : Meeting → Meeting × Result Error ℕ
meeting_reserve m = elim (next_generation m.generation) [
  | err e ↦ (m, err e)
  | ok g ↦ (renew g idle m, ok g)
]

pub meeting_is_current : ℕ → Meeting → Bool
meeting_is_current generation m = m.generation == generation

pub meeting_is_active : ℕ → Meeting → Bool
meeting_is_active generation m = (m.generation == generation) && is_live m.phase

pub meeting_status_for : ℕ → Meeting → Result Error Status
meeting_status_for generation m =
    if m.generation == generation
    then ok (record { generation = generation; phase = m.phase })
    else err replaced

abbrev pub expired : Phase
expired = failed "this meeting expired"

-- `meeting_expire`: the connection of a session is closed without a frame.
pub meeting_expire : ℕ → Meeting → Meeting
meeting_expire generation m = elim (next_generation m.generation) [
  | err e ↦
      if meeting_is_active generation m
      then record m { phase = failed "meeting generations exhausted"; offer = none }
      else m
  | ok g ↦
      if meeting_is_active generation m
      then announce (record { generation = g; phase = expired }) (renew g expired m)
      else m
]

-- `fragment.strip_prefix("meet/").unwrap_or(fragment)`.
pub without_kind : List ℕ → List ℕ
without_kind fragment = elim (strip_prefix (codes "meet/") fragment) [
  | none ↦ fragment
  | some rest ↦ rest
]

-- The fragment of a link.
module _ (base32 : Encoding) (is_whitespace : ℕ → Bool) where
  pub encode_fragment : List ℕ → List ℕ → List ℕ
  encode_fragment key token = base32.encode (code_version ∷ (key ++ token))

  pub decode_fragment : List ℕ → Result String (List ℕ × List ℕ)
  decode_fragment fragment = do
    payload ←
        ok_or (base32.decode (clean base32 is_whitespace (without_kind fragment)))
          "that is not a meeting fragment"
    guard ((length payload == 49) && (get_or payload 0 0 == code_version))
        "that meeting fragment has the wrong version or length"
    ok (take 32 (drop 1 payload), take 16 (drop 33 payload))

-- `page_url.split(['?', '#']).next()`.
pub before_query : List ℕ → List ℕ
before_query [] = []
before_query (c ∷ url) = if (c == b'?') || (c == b'#') then [] else c ∷ before_query url

module _ (base32 : Encoding) (is_whitespace : ℕ → Bool) (host : Host) where
  pub publish : ℕ → List ℕ → List ℕ → List ℕ → ℕ → List ℕ → Meeting → Meeting
  publish generation page_url key token now introduction m =
      let offer : Offer = record {
        token = token;
        expires = saturating_add now meeting_ttl_ms;
        claimed = false;
        introduction = introduction;
      } in
      let link =
        before_query page_url
        ++ (codes "#meet/" ++ encode_fragment base32 is_whitespace key token) in
      (set_phase generation (offering generation link) (record m { offer = some offer })).0

  -- What follows the await for the card.
  pub offer_shared :
      ℕ
      → List ℕ
      → List ℕ
      → List ℕ
      → ℕ
      → Result Error (List ℕ)
      → Meeting
      → Meeting × Result Error Status
  offer_shared generation page_url key token now (err e) m =
      ((set_phase generation (failed (message e)) m).0, err e)
  offer_shared generation page_url key token now (ok introduction) m =
      let after = publish generation page_url key token now introduction m in
      if meeting_is_current generation m
      then (after, meeting_status_for generation after)
      else (m, err replaced)

  pub meeting_offer :
      List ℕ
      → List ℕ
      → ℕ
      → Result Error (List ℕ)
      → (Meeting → Meeting)
      → Meeting
      → Meeting × Result Error Status
  meeting_offer page_url token now card during m = elim (ready host) [
    | err e ↦ (m, err e)
    | ok key ↦
        let (fresh, reserved) = meeting_reserve m in
        elim reserved [
          | err e ↦ (fresh, err e)
          | ok g ↦ offer_shared g page_url key token now card (during fresh)
        ]
  ]

  -- The key and the token to dial with.
  pub join_target : List ℕ → Result Error (List ℕ × List ℕ)
  join_target fragment = do
    host.open?
    own ← host.key
    host.endpoint_ready
    target ← map_err refused (decode_fragment base32 is_whitespace fragment)
    guard (not (bytes_eq target.0 own)) (refused "that is this device's own meeting link")
    ok target

  pub join_shared : ℕ → Result Error (List ℕ) → Meeting → Meeting × Result Error Status
  join_shared generation (err e) m = ((set_phase generation (failed (message e)) m).0, err e)
  join_shared generation (ok introduction) m =
      if meeting_is_current generation m
      then (m, meeting_status_for generation m)
      else (m, err replaced)

  -- `meeting_join`, up to the spawned connection.
  pub meeting_join :
      List ℕ → Result Error (List ℕ) → (Meeting → Meeting) → Meeting → Meeting × Result Error Status
  unfolding join_shared
  meeting_join fragment card during m = elim (join_target fragment) [
    | err e ↦ (m, err e)
    | ok target ↦
        let (fresh, reserved) = meeting_reserve m in
        elim reserved [
          | err e ↦ (fresh, err e)
          | ok g ↦ join_shared g card (during (set_phase g (dialing g) fresh).0)
        ]
  ]

pub take_confirm : Option Session → Meeting → Meeting × Result Error (Unit {0})
take_confirm none m = (m, err (refused "there is nothing to confirm"))
take_confirm (some s) m =
    if s.confirm
    then (
      record m {
        session = some (record s { confirm = false });
        confirmed = s.transport ∷ m.confirmed;
      },
      ok tt,
    )
    else (m, err (refused "there is nothing to confirm"))

confirm_in : Phase → ℕ → Meeting → Meeting × Result Error (Unit {0})
confirm_in (awaiting_confirm r) g m =
    if (g == m.generation) && (g == r.generation)
    then take_confirm m.session m
    else (m, err replaced)
confirm_in idle g m = (m, err (refused "there is nothing to confirm"))
confirm_in (offering h link) g m = (m, err (refused "there is nothing to confirm"))
confirm_in (dialing h) g m = (m, err (refused "there is nothing to confirm"))
confirm_in awaiting_peer g m = (m, err (refused "there is nothing to confirm"))
confirm_in (done id) g m = (m, err (refused "there is nothing to confirm"))
confirm_in (failed why) g m = (m, err (refused "there is nothing to confirm"))

pub meeting_confirm : Result Error (Unit {0}) → ℕ → Meeting → Meeting × Result Error (Unit {0})
unfolding confirm_in
meeting_confirm (err e) g m = (m, err e)
meeting_confirm (ok _) g m = confirm_in m.phase g m

pub cancel_current : ℕ → Meeting → Meeting × Result Error (Unit {0})
cancel_current g m = elim (next_generation m.generation) [
  | err e ↦ (m, err (if m.generation == g then e else replaced))
  | ok n ↦
      if m.generation == g
      then (announce (record { generation = n; phase = idle }) (renew n idle m), ok tt)
      else (m, err replaced)
]

pub meeting_cancel : Result Error (Unit {0}) → ℕ → Meeting → Meeting × Result Error (Unit {0})
meeting_cancel (err e) g m = (m, err e)
meeting_cancel (ok _) g m = cancel_current g m

pub meeting_invalidate : Result Error (Unit {0}) → Meeting → Meeting
meeting_invalidate opened m =
    if meeting_is_active m.generation m then (meeting_cancel opened m.generation m).0 else m

abbrev pub is_offering : Phase → Bool
is_offering (offering g link) = true
is_offering idle = false
is_offering (dialing g) = false
is_offering (awaiting_confirm r) = false
is_offering awaiting_peer = false
is_offering (done id) = false
is_offering (failed why) = false

abbrev pub past : ℕ → Option Offer → Bool
past now none = false
past now (some o) = leb o.expires now

pub meeting_status : Result Error (Unit {0}) → ℕ → Meeting → Meeting × Result Error Status
meeting_status (err e) now m = (m, err e)
meeting_status (ok _) now m =
    let after =
      if past now m.offer && is_offering m.phase then meeting_expire m.generation m else m in
    (after, ok (record { generation = after.generation; phase = after.phase }))

-- What `meeting_run_host` decides about a claim; a burn has taken the session out already.
pub data Verdict : Type 0 where
  ignore refuse : Verdict
  burn : ℕ → Verdict
  claim : ℕ → List ℕ → Verdict

abbrev pub burnt : Phase
burnt = failed "someone else used this meeting link; make a new one"

-- The state with the verdict, and with what the verdict does at once.
judge_offer : List ℕ → ℕ → Offer → Meeting → Meeting × Verdict
judge_offer token now o m = elim (next_generation m.generation) [
  | err e ↦
      if not (bytes_eq token o.token)
      then (m, ignore)
      else if o.claimed
      then (m, ignore)
      else if leb o.expires now
      then (m, refuse)
      else (
        record m { offer = some (record o { claimed = true }) },
        claim m.generation o.introduction,
      )
  | ok g ↦
      if not (bytes_eq token o.token)
      then (m, ignore)
      else if o.claimed
      then (announce (record { generation = g; phase = burnt }) (renew g burnt m), burn g)
      else if leb o.expires now
      then (m, refuse)
      else (
        record m { offer = some (record o { claimed = true }) },
        claim m.generation o.introduction,
      )
]

pub host_verdict : List ℕ → ℕ → Meeting → Meeting × Verdict
unfolding judge_offer
host_verdict token now m = elim m.offer [ none ↦ (m, ignore) | some o ↦ judge_offer token now o m ]

-- The offer is spent once its ceremony is over.
pub spend : ℕ → Meeting → Meeting
spend generation m = if meeting_is_current generation m then record m { offer = none } else m

pub meeting_bind_session : ℕ → ℕ → Meeting → Meeting × Result String (Unit {0})
meeting_bind_session generation transport m = elim m.session [
  | some s ↦ (m, err "this device is already meeting")
  | none ↦
      let s : Session = record {
        generation = generation;
        transport = transport;
        confirm = true;
        cancelled = false;
      } in
      if generation == m.generation
      then (record m { session = some s }, ok tt)
      else (m, err "this device is already meeting")
]

abbrev pub outcome_phase : Result String String → Phase
outcome_phase (ok id) = done id
outcome_phase (err why) = failed why

-- `meeting_finish` after the session `taken` left the state.
finish_taken : ℕ → Result String String → Option Session → Meeting → Meeting
finish_taken generation outcome none m =
    if is_done m.phase then m else (set_phase generation (outcome_phase outcome) m).0
finish_taken generation outcome (some s) m =
    let ended = if is_done m.phase then m else (set_phase generation (outcome_phase outcome) m).0 in
    if s.cancelled then m else record ended { closed = s.transport ∷ ended.closed }

-- The session of the generation is taken, another's is left.
abbrev pub take_session : ℕ → Meeting → Option Session → Meeting × Option Session
take_session generation m none = (m, none)
take_session generation m (some s) =
    if s.generation == generation then (record m { session = none }, some s) else (m, none)

pub meeting_finish : ℕ → Result String String → Meeting → Meeting
unfolding finish_taken
meeting_finish generation outcome m =
    let (left, taken) = take_session generation m m.session in
    if meeting_is_current generation m then finish_taken generation outcome taken left else m
