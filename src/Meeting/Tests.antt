-- ===== src/Meeting/Tests.antt =====
-- runtime/crates/kernel/src/meeting.rs: the theorems at small states.
use polyvisor.Common.{
  ℕ, ◌≡◌, refl, List, [], ◌∷◌, ◌++◌, none, some, Bool, false, ok, replicate, IsBytes-replicate,
  arith, codes,
}
use polyvisor.Primitives.Toy.{toy_base32, toy_base32_laws, shift_up-All}
use polyvisor.Pairing.{Host}
use polyvisor.Pairing.Code.{Spaced, end, keep, space}
use polyvisor.Meeting.{
  awaiting_peer, done, Meeting, encode_fragment, decode_fragment, meeting_bind_session,
  meeting_confirm, meeting_reserve,
}
use polyvisor.Meeting.Fragment.{decode_fragment-encode_fragment}
use polyvisor.Meeting.Generations.{
  Inv, Later, here, next, reserved, confirmed, bound, meeting_Reach-Inv,
}
use polyvisor.Meeting.Order.{meeting_Reach-Later}
use polyvisor.Meeting.Stale.{
  Turn, late, other, offers, finishes, run, without_late, run-without_late,
}

abbrev no_space : ℕ → Bool
no_space c = false

abbrev token : List ℕ
token = replicate 16 5

abbrev key : List ℕ
key = replicate 32 6

as_it_is : (text : List ℕ) → Spaced toy_base32 toy_base32_laws no_space text text
as_it_is [] = end
as_it_is (c ∷ text) = keep c (as_it_is text)

decode_fragment-encode_fragment_example :
    decode_fragment toy_base32 no_space
      (codes "meet/" ++ (b'-' ∷ encode_fragment toy_base32 no_space key token))
    ≡ ok (key, token)
decode_fragment-encode_fragment_example =
    decode_fragment-encode_fragment toy_base32 toy_base32_laws no_space key token
      (b'-' ∷ encode_fragment toy_base32 no_space key token) refl refl
      (IsBytes-replicate 32 6 (omega arith)) (IsBytes-replicate 16 5 (omega arith))
      (λ b h. shift_up-All b)
      (space b'-' refl (as_it_is (encode_fragment toy_base32 no_space key token)))

abbrev host : Host
host = record { open? = ok tt; key = ok key; endpoint_ready = ok tt }

-- The other side has not confirmed yet.
abbrev waiting : Meeting
waiting = record {
  generation = 4;
  phase = awaiting_peer;
  offer = none;
  session = some (record { generation = 4; transport = 3; confirm = false; cancelled = false });
  events = [];
  closed = [];
  confirmed = 3 ∷ [];
}

waiting-Inv : Inv waiting
waiting-Inv = record { bounded = omega arith; owned = tt; in_place = (refl, refl) }

abbrev met : Meeting
met = record waiting { phase = done "contact" }

meeting_Reach-Inv_example : Inv (meeting_bind_session 5 6 (meeting_reserve waiting).0).0
meeting_Reach-Inv_example =
    meeting_Reach-Inv toy_base32 no_space host waiting-Inv (next (next here reserved) (bound 5 6))

meeting_Reach-Later_example : Later met (meeting_bind_session 5 6 (meeting_reserve met).0).0
meeting_Reach-Later_example =
    meeting_Reach-Later toy_base32 no_space host (next (next here reserved) (bound 5 6))

-- An old offer gets its card, and an old task ends, around the confirmation of the new meeting.
abbrev turns : List (Turn toy_base32 no_space host)
turns =
    late (offers [] key token 7 (ok []))
    ∷ other (λ m. (meeting_confirm (ok tt) 4 m).0) (λ m. next here (confirmed (ok tt) 4))
    ∷ late (finishes (ok "contact"))
    ∷ []

run-without_late_example :
    run toy_base32 no_space host 3 turns waiting
    ≡ run toy_base32 no_space host 3 (without_late toy_base32 no_space host turns) waiting
run-without_late_example = run-without_late toy_base32 no_space host 3 turns waiting (omega arith)
