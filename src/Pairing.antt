-- ===== src/Pairing.antt =====
-- runtime/crates/kernel/src/pairing.rs: the code, the offer and the session of a pairing.
-- Operations are state transformers on `Pairing`; an await that lets other tasks run is a function
-- argument on the state. `events` lists the announced phases, the newest first.
pub mod Code
pub mod Sessions
pub mod Transports
pub mod Claims
pub mod Ceremony
mod Tests
use Prim.Native.String.{String}
use polyvisor.Common.{
  ℕ, ◌+◌, ◌*◌, ◌-◌, ◌^◌, ◌%◌, List, [], ◌∷◌, ◌++◌, Option, none, some, Bool, true, false, ◌&&◌,
  ◌||◌, not, min, Result, ok, err, map_err, guard, ok_or, ◌>>=◌, ◌>>◌, length, take, drop, get_or,
  ◌==◌, leb, if◌then◌else◌, bytes_eq, codes,
}
use polyvisor.Errors.{Error, refused, unavailable}
use polyvisor.Primitives.{Encoding}

-- `OFFER_TTL_MS`.
abbrev pub offer_ttl_ms : ℕ
offer_ttl_ms = 120_000

abbrev pub code_version : ℕ
code_version = 1

-- `u64::saturating_add`.
abbrev pub saturating_add : ℕ → ℕ → ℕ
saturating_add a b = min (a + b) (2 ^ 64 - 1)

pub data Phase : Type 0 where
  idle : Phase
  offering : List ℕ → Phase
  claiming : Phase
  awaiting_confirm : ℕ → Phase
  awaiting_peer done : Phase
  failed : String → Phase

pub record Offer : Type 0 where
  pub token : List ℕ
  pub expires : ℕ
  pub claimed : Bool

-- `transport` names the connection; `confirm` says whether the sender is still there.
pub record Session : Type 0 where
  pub transport : ℕ
  pub confirm : Bool
  pub cancelled : Bool

pub record Pairing : Type 0 where
  pub phase : Phase
  pub offer : Option Offer
  pub session : Option Session
  pub events : List Phase
  -- The sessions that were torn down, with the mark that their flags then carry.
  pub torn : List Session
  -- The connections that were told `Cancel` and closed, and those whose user confirmed.
  pub closed : List ℕ
  pub confirmed : List ℕ

pub set_phase : Phase → Pairing → Pairing
set_phase phase p = record p { phase = phase; events = phase ∷ p.events }

-- The session is taken and marked before the first await.
pub tear_down_session : Pairing → Pairing
tear_down_session p = elim p.session [
  | none ↦ p
  | some s ↦ record p {
    session = none;
    torn = (record s { cancelled = true }) ∷ p.torn;
    closed = s.transport ∷ p.closed;
  }
]

-- The code that a person types.
module _ (base32 : Encoding) (is_whitespace : ℕ → Bool) where
  pub encode_code : List ℕ → List ℕ → List ℕ
  encode_code key token = base32.encode (code_version ∷ (key ++ token))

  pub clean : List ℕ → List ℕ
  clean [] = []
  clean (c ∷ text) = if is_whitespace c || (c == b'-') then clean text else c ∷ clean text

  pub decode_code : List ℕ → Result String (List ℕ × List ℕ)
  decode_code code = do
    payload ← ok_or (base32.decode (clean code)) "that is not a pairing code"
    guard (length payload == 49) "that pairing code is the wrong length"
    guard (get_or payload 0 0 == code_version) "that code is from a different version of pairing"
    ok (take 32 (drop 1 payload), take 16 (drop 33 payload))

-- What the kernel answers when an operation starts: `open`, the engine's key, the endpoint.
pub record Host : Type 0 where
  pub open? : Result Error (Unit {0})
  pub key : Result Error (List ℕ)
  pub endpoint_ready : Result Error (Unit {0})

-- The refusals of `pairing_offer` that come before it changes anything.
pub ready : Host → Result Error (List ℕ)
ready host = do host.open?; key ← host.key; host.endpoint_ready; ok key

module _ (base32 : Encoding) (is_whitespace : ℕ → Bool) (host : Host) where
  pub publish : List ℕ → List ℕ → ℕ → Pairing → Pairing
  publish key token now p =
      let offer : Offer = record {
        token = token;
        expires = saturating_add now offer_ttl_ms;
        claimed = false;
      } in
      set_phase (offering (encode_code base32 is_whitespace key token))
        (record p { offer = some offer })

  -- `pairing_offer`, with the drawn token, the clock, and what runs while the old session closes.
  pub pairing_offer : List ℕ → ℕ → (Pairing → Pairing) → Pairing → Pairing × Result Error (List ℕ)
  pairing_offer token now during p = elim (ready host) [
    | err e ↦ (p, err e)
    | ok key ↦ (
      publish key token now (during (tear_down_session p)),
      ok (encode_code base32 is_whitespace key token),
    )
  ]

  -- The key and the token to dial with.
  pub claim_target : List ℕ → Result Error (List ℕ × List ℕ)
  claim_target code = do
    host.open?
    own ← host.key
    host.endpoint_ready
    target ← map_err refused (decode_code base32 is_whitespace code)
    guard (not (bytes_eq target.0 own)) (refused "that is this device's own code")
    ok target

  -- `pairing_claim`, up to the spawned ceremony.
  pub pairing_claim :
      List ℕ → (Pairing → Pairing) → Pairing → Pairing × Result Error (List ℕ × List ℕ)
  pairing_claim code during p = elim (claim_target code) [
    | err e ↦ (p, err e)
    | ok target ↦
        (set_phase claiming (record (during (tear_down_session p)) { offer = none }), ok target)
  ]

-- `session.as_mut().and_then(|s| s.confirm.take())`, and the send.
pub take_confirm : Option Session → Pairing → Pairing × Result Error (Unit {0})
take_confirm none p = (p, err (refused "there is nothing to confirm"))
take_confirm (some s) p =
    if s.confirm
    then (
      record p {
        session = some (record s { confirm = false });
        confirmed = s.transport ∷ p.confirmed;
      },
      ok tt,
    )
    else (p, err (refused "there is nothing to confirm"))

confirm_in : Phase → Pairing → Pairing × Result Error (Unit {0})
confirm_in (awaiting_confirm sas) p = take_confirm p.session p
confirm_in idle p = (p, err (refused "there is nothing to confirm"))
confirm_in (offering code) p = (p, err (refused "there is nothing to confirm"))
confirm_in claiming p = (p, err (refused "there is nothing to confirm"))
confirm_in awaiting_peer p = (p, err (refused "there is nothing to confirm"))
confirm_in done p = (p, err (refused "there is nothing to confirm"))
confirm_in (failed why) p = (p, err (refused "there is nothing to confirm"))

pub pairing_confirm : Result Error (Unit {0}) → Pairing → Pairing × Result Error (Unit {0})
unfolding confirm_in
pairing_confirm (err e) p = (p, err e)
pairing_confirm (ok _) p = confirm_in p.phase p

pub pairing_cancel :
    Result Error (Unit {0}) → (Pairing → Pairing) → Pairing → Pairing × Result Error (Unit {0})
pairing_cancel (err e) during p = (p, err e)
pairing_cancel (ok _) during p =
    (set_phase idle (record (during (tear_down_session p)) { offer = none }), ok tt)

abbrev pub lapsed : Phase
lapsed = failed "this code expired; make a new one"

abbrev pub offer_expired : ℕ → Option Offer → Bool
offer_expired now none = false
offer_expired now (some o) = leb o.expires now

status_in : Phase → Bool → Pairing → Pairing × Phase
status_in (offering code) true p = (set_phase lapsed p, lapsed)
status_in phase expired p = (p, p.phase)

pub pairing_status : Result Error (Unit {0}) → ℕ → Pairing → Pairing × Result Error Phase
unfolding status_in
pairing_status (err e) now p = (p, err e)
pairing_status (ok _) now p =
    let r = status_in p.phase (offer_expired now p.offer) p in (r.0, ok r.1)

-- What `run_joiner` decides about a claim, and the offer as it leaves it.
pub data Verdict : Type 0 where
  ignore refuse burn claim : Verdict

judge_offer : List ℕ → ℕ → Offer → Verdict
judge_offer token now o =
    if not (bytes_eq token o.token)
    then ignore
    else if o.claimed
    then burn
    else if leb o.expires now
    then refuse
    else claim

pub judge : List ℕ → ℕ → Option Offer → Verdict
unfolding judge_offer
judge token now none = ignore
judge token now (some o) = judge_offer token now o

abbrev pub mark_claimed : Option Offer → Option Offer
mark_claimed none = none
mark_claimed (some o) = some (record o { claimed = true })

abbrev pub burnt : Phase
burnt = failed "someone already tried this code; make a new one"

-- The state after the verdict; `during` runs while a burnt session closes.
pub apply_verdict : Verdict → (Pairing → Pairing) → Pairing → Pairing
apply_verdict ignore during p = p
apply_verdict refuse during p = p
apply_verdict burn during p =
    set_phase burnt (record (during (tear_down_session p)) { offer = none })
apply_verdict claim during p = record p { offer = mark_claimed p.offer }

-- `bind_session`, for the connection `transport`.
pub bind_session : ℕ → Pairing → Pairing × Result String (Unit {0})
bind_session transport p = elim p.session [
  | some s ↦ (p, err "this device is already pairing")
  | none ↦
      let s : Session = record { transport = transport; confirm = true; cancelled = false } in
      (record p { session = some s }, ok tt)
]

abbrev pub outcome_phase : Result String (Unit {0}) → Phase
outcome_phase (ok _) = done
outcome_phase (err why) = failed why

-- `finish`: the session that is in place is taken, whichever ceremony ends.
pub finish : Result String (Unit {0}) → Pairing → Pairing
finish outcome p = elim p.session [
  | none ↦ p
  | some s ↦
      let q = record p { session = none } in
      let ended = set_phase (outcome_phase outcome) q in
      if s.cancelled then q else record ended { closed = s.transport ∷ ended.closed }
]

-- The task that `pairing_claim` spawns, from the answer of the dial: `run_adder` starts with
-- `bind_session`, `during` is what happens until it returns, and `outcome` is what it returns.
pub claim_task :
    List ℕ
    → Result String (List ℕ × ℕ)
    → (Pairing → Pairing)
    → Result String (Unit {0})
    → Pairing
    → Pairing
claim_task key (err why) during outcome p = finish (err why) p
claim_task key (ok (dialed, transport)) during outcome p =
    if bytes_eq dialed key
    then (elim (bind_session transport p).1 [
      | err why ↦ finish (err why) (bind_session transport p).0
      | ok _ ↦ finish outcome (during (bind_session transport p).0)
    ])
    else finish (err "that device answered with a different key") p
