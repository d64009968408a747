-- ===== src/Pairing/Ceremony/Tests.antt =====
-- runtime/crates/kernel/src/pairing.rs: one ceremony that comes through, on each side.
use Prim.Native.String.{String}
use polyvisor.Common.{ℕ, ◌≡◌, refl, List, [], ◌∷◌, some, false, ok, length, replicate, bytes_eq}
use polyvisor.Pairing.{awaiting_confirm}
use polyvisor.Pairing.Ceremony.Digits.{shown, handshake-digits}
use polyvisor.Pairing.Ceremony.{
  done, Enrolment, accept, reveal, confirm_join, enroll, confirmed, frame, AdderScript,
  JoinerScript, ◌>>=◌, adder_handshake, enrol, run_adder, joiner_handshake, await_enrolment,
  run_claimed, confirmations, expect_accept, expect_reveal, expect_confirmed, expect_enroll,
}
use polyvisor.Pairing.Ceremony.Quiet.{quiet}
use polyvisor.Pairing.Ceremony.Guarded.{Confirms, PeerConfirms, adder_guarded, joiner_guarded}

abbrev hash : List ℕ → List ℕ
hash b = 1 ∷ []

abbrev nonce : List ℕ
nonce = replicate 32 4

abbrev payload : Enrolment
payload = record {
  us = [];
  keyhive = [];
  read_back = [];
  name_key = replicate 32 2;
  visor = [];
  contacts = [];
  shared = [];
}

abbrev adder : AdderScript
adder = record {
  bound = ok tt;
  nonce_a = nonce;
  sent_claim = ok tt;
  accepted = some (accept nonce (9 ∷ []) "phone" []);
  sent_reveal = ok tt;
  adder_key = ok (8 ∷ []);
  wakes = frame (some confirm_join) ∷ confirmed ∷ [];
  prepared = ok tt;
  added = ok tt;
  saved = ok payload;
  sent_enroll = ok tt;
  checkpointed = ok tt;
}

adds : quiet (run_adder hash adder (9 ∷ []) []).0 ≡ false
unfolding quiet run_adder adder_handshake enrol confirmations expect_accept ◌>>=◌ bytes_eq
adds = refl

adder_guarded_example :
    (petname : String) × (n card : List ℕ) × (adder.accepted
      ≡ some (accept n (9 ∷ []) petname card))
    × (length n ≡ 32)
    × Confirms adder.wakes
    × PeerConfirms adder.wakes
adder_guarded_example = adder_guarded hash adder (9 ∷ []) [] adds

abbrev joiner : JoinerScript
joiner = record {
  bound = ok tt;
  joiner_key = ok (9 ∷ []);
  card = ok [];
  petname = "phone";
  nonce_j = nonce;
  sent_accept = ok tt;
  revealed = some (reveal nonce);
  wake = confirmed;
  sent_confirm = ok tt;
  enrolling = some (enroll payload);
  group_of = λ p. ok (6 ∷ []);
  profile_group = λ p. ok (6 ∷ []);
  adopting = ok tt;
  adopted = ok tt;
}

adopts : quiet (run_claimed hash joiner (8 ∷ []) (replicate 16 5) (1 ∷ [])).0 ≡ false
unfolding quiet run_claimed joiner_handshake await_enrolment expect_reveal expect_confirmed
    expect_enroll ◌>>=◌ bytes_eq
adopts = refl

joiner_guarded_example :
    (n : List ℕ) × (p : Enrolment) × (group : List ℕ) × (joiner.revealed ≡ some (reveal n))
    × (hash n ≡ 1 ∷ [])
    × (joiner.wake ≡ confirmed)
    × (joiner.enrolling ≡ some (enroll p))
    × (length p.name_key ≡ 32)
    × (joiner.group_of p ≡ ok group)
    × (joiner.profile_group p ≡ ok group)
joiner_guarded_example = joiner_guarded hash joiner (8 ∷ []) (replicate 16 5) (1 ∷ []) adopts

greets : (adder_handshake hash adder (9 ∷ []) (replicate 16 5)).1 ≡ done "phone"
unfolding adder_handshake expect_accept ◌>>=◌ bytes_eq
greets = refl

answers : (joiner_handshake hash joiner (8 ∷ []) (replicate 16 5) (hash adder.nonce_a)).1 ≡ done tt
unfolding joiner_handshake expect_reveal ◌>>=◌ bytes_eq
answers = refl

handshake-digits_example :
    (digits : ℕ) × (shown (adder_handshake hash adder (9 ∷ []) (replicate 16 5)).0
      ≡ awaiting_confirm digits ∷ [])
    × (shown (joiner_handshake hash joiner (8 ∷ []) (replicate 16 5) (hash adder.nonce_a)).0
        ≡ awaiting_confirm digits ∷ [])
handshake-digits_example =
    handshake-digits hash adder joiner (9 ∷ []) (8 ∷ []) (replicate 16 5) [] "phone" refl refl refl
      refl greets answers
