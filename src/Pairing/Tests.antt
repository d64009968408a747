-- ===== src/Pairing/Tests.antt =====
-- runtime/crates/kernel/src/pairing.rs: the theorems on codes, offers and sessions at small states.
use Prim.Native.String.{String}
use polyvisor.Common.{
  ℕ, ◌≡◌, ◌≢◌, refl, ◌↔◌, ◌<◌, List, [], ◌∷◌, ◌++◌, none, some, Bool, true, false, ok, replicate,
  IsBytes-replicate, arith,
}
use polyvisor.Primitives.Toy.{toy_base32, toy_base32_laws, shift_up-All}
use polyvisor.Pairing.{
  awaiting_confirm, failed, Offer, Session, Pairing, Host, ignore, burn, claim, judge,
  apply_verdict, burnt, pairing_confirm, bind_session, claim_task, encode_code, decode_code,
  take_confirm, confirm_in, tear_down_session,
}
use polyvisor.Pairing.Code.{Spaced, end, keep, space, decode_code-encode_code}
use polyvisor.Pairing.Claims.{judge_lem, judge_twice, claim_task_displaces, Taken}
use polyvisor.Pairing.Sessions.{Inv, Reach, here, next, torn, bound}
use polyvisor.Pairing.Transports.{in_hand, all_accepted, pairing_Reach-in_hand}

abbrev no_space : ℕ → Bool
no_space c = false

abbrev token : List ℕ
token = replicate 16 5

abbrev key : List ℕ
key = replicate 32 6

-- Any text is a spacing of itself.
as_it_is : (text : List ℕ) → Spaced toy_base32 toy_base32_laws no_space text text
as_it_is [] = end
as_it_is (c ∷ text) = keep c (as_it_is text)

decode_code-encode_code_example :
    decode_code toy_base32 no_space (b'-' ∷ encode_code toy_base32 no_space key token)
    ≡ ok (key, token)
decode_code-encode_code_example =
    decode_code-encode_code toy_base32 toy_base32_laws no_space key token
      (b'-' ∷ encode_code toy_base32 no_space key token) refl refl
      (IsBytes-replicate 32 6 (omega arith)) (IsBytes-replicate 16 5 (omega arith))
      (λ b h. shift_up-All b)
      (space b'-' refl (as_it_is (encode_code toy_base32 no_space key token)))

abbrev offer : Offer
offer = record { token = token; expires = 100; claimed = false }

abbrev session : Session
session = record { transport = 3; confirm = true; cancelled = false }

abbrev comparing : Pairing
comparing = record {
  phase = awaiting_confirm 42;
  offer = some offer;
  session = some session;
  events = awaiting_confirm 42 ∷ [];
  torn = [];
  closed = [];
  confirmed = [];
}

comparing-Inv : Inv comparing
comparing-Inv = record { in_place = refl; marked = tt; announced = refl }

abbrev host : Host
host = record { open? = ok tt; key = ok key; endpoint_ready = ok tt }

abbrev rebound :
    Reach toy_base32 no_space host comparing (bind_session 4 (tear_down_session comparing)).0
rebound = next (next here torn) (bound 4)

pairing_Reach-in_hand_example :
    Inv (bind_session 4 (tear_down_session comparing)).0
    × (in_hand (bind_session 4 (tear_down_session comparing)).0
        ≡ all_accepted toy_base32 no_space host rebound ++ (3 ∷ []))
pairing_Reach-in_hand_example = pairing_Reach-in_hand toy_base32 no_space host rebound comparing-Inv

judge_lem_example :
    ((judge token 7 (some offer) ≡ claim)
      ↔ ((token ≡ offer.token) × (offer.claimed ≡ false) × (7 < offer.expires)))
    × ((judge token 7 (some offer) ≡ burn) ↔ ((token ≡ offer.token) × (offer.claimed ≡ true)))
    × ((judge token 7 (some offer) ≡ ignore) ↔ (token ≢ offer.token))
judge_lem_example = judge_lem token 7 offer

judge_twice_example :
    (let q = apply_verdict claim (λ p. p) comparing in
      (judge token 8 q.offer ≡ burn)
      × ((apply_verdict burn (λ p. p) q).offer ≡ none)
      × ((apply_verdict burn (λ p. p) q).phase ≡ burnt))
judge_twice_example =
    judge_twice comparing offer 7 8 (λ p. p) refl
      ((judge_lem token 7 offer).0.1 (refl, refl, omega arith))

claim_task_displaces_example :
    (why : String) × ((claim_task key (ok (key, 4)) (λ p. p) (ok tt) comparing).phase ≡ failed why)
    × ((claim_task key (ok (key, 4)) (λ p. p) (ok tt) comparing).session ≡ none)
    × ((claim_task key (ok (key, 4)) (λ p. p) (ok tt) comparing).closed ≡ 3 ∷ [])
claim_task_displaces_example =
    claim_task_displaces key (ok (key, 4)) (λ p. p) (ok tt) comparing session comparing-Inv refl

confirms : pairing_confirm (ok tt) comparing ≡ (Taken comparing session, ok tt)
unfolding pairing_confirm confirm_in take_confirm
confirms = refl
