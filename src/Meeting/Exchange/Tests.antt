-- ===== src/Meeting/Exchange/Tests.antt =====
-- runtime/crates/kernel/src/meeting.rs: an exchange that ends well, from both sides.
use polyvisor.Common.{
  ℕ, ◌≡◌, refl, List, [], ◌∷◌, some, true, ok, length, ◌==◌, replicate, bytes_eq, arith,
}
use polyvisor.Runs.{◌>>=◌, ◌>>◌, try, require, attempt}
use polyvisor.Meeting.Exchange.{
  accept, reveal, confirm, EndScript, confirmed, frame, Contacts, GuestScript, HostScript,
  run_guest, run_claimed, fixed32, on_frame, confirmations, confirm_and_persist, expect_accept,
  next_reveal,
}
use polyvisor.Meeting.Exchange.Quiet.{stores}
use polyvisor.Meeting.Exchange.Agreed.{IsAgreed}
use polyvisor.Meeting.Exchange.Transcript.{transcript-inj}
use polyvisor.Meeting.Exchange.Guarded.{run_guest_guarded, run_claimed_guarded}

-- An introduction is its bytes, and every commitment is the same.
abbrev toy_contacts : Contacts (List ℕ)
toy_contacts = record { validate = λ b. ok b; peer_key = λ b. b; claims = λ b. [] }

abbrev toy_blake3 : List ℕ → List ℕ
toy_blake3 m = replicate 32 1

abbrev token : List ℕ
token = replicate 16 6

abbrev well : EndScript
well = record {
  shown = true;
  wakes = (confirmed, true, ok tt) ∷ (frame (some confirm), true, ok tt) ∷ [];
  current_before = true;
  stored = ok "c1";
  current_after = true;
}

abbrev guest : GuestScript
guest = record {
  bound = ok tt;
  own_key = ok (replicate 32 8);
  nonce = replicate 32 4;
  sent_claim = ok tt;
  answered = some (accept (replicate 32 2) (5 ∷ []) (replicate 32 1));
  sent_reveal = ok tt;
  revealed = some (reveal (replicate 32 3));
  last = well;
}

abbrev host : HostScript
host = record {
  own_key = ok (replicate 32 2);
  bound = ok tt;
  nonce = replicate 32 3;
  sent_accept = ok tt;
  revealed = some (reveal (replicate 32 4));
  sent_reveal = ok tt;
  last = well;
}

guest_run :
    stores (run_guest toy_contacts toy_blake3 1 guest (replicate 32 2) (replicate 16 6) (7 ∷ [])).0
    ≡ (5 ∷ []) ∷ []
unfolding run_guest stores try require attempt ◌>>=◌ ◌>>◌ fixed32 on_frame confirmations
    confirm_and_persist expect_accept next_reveal bytes_eq
guest_run = refl

host_run :
    stores
      (run_claimed toy_contacts toy_blake3 1 host
        (replicate 32 8)
        (replicate 16 6)
        (7 ∷ [])
        (replicate 32 1)
        (5 ∷ [])).0
    ≡ (7 ∷ []) ∷ []
unfolding run_claimed stores try require attempt ◌>>=◌ ◌>>◌ fixed32 on_frame confirmations
    confirm_and_persist next_reveal bytes_eq
host_run = refl

run_guest_guarded_example :
    (host_bytes : List ℕ) × (host_nonce : List ℕ) × (guest.answered
      ≡ some (accept (replicate 32 2) host_bytes (toy_blake3 host_nonce)))
    × (guest.revealed ≡ some (reveal host_nonce))
    × (toy_contacts.validate host_bytes ≡ ok (5 ∷ []))
    × ((let l : List (List ℕ) = [] in l) ≡ [])
    × IsAgreed guest.last
run_guest_guarded_example =
    run_guest_guarded toy_contacts toy_blake3 1 guest (replicate 32 2) (replicate 16 6) (7 ∷ [])
      (5 ∷ []) [] guest_run

run_claimed_guarded_example :
    (guest_nonce : List ℕ) × ((length token == 16) ≡ true)
    × (replicate 32 1 ≡ toy_blake3 guest_nonce)
    × (host.revealed ≡ some (reveal guest_nonce))
    × (toy_contacts.validate (7 ∷ []) ≡ ok (7 ∷ []))
    × ((let l : List (List ℕ) = [] in l) ≡ [])
    × IsAgreed host.last
run_claimed_guarded_example =
    run_claimed_guarded toy_contacts toy_blake3 1 host (replicate 32 8) (replicate 16 6) (7 ∷ [])
      (replicate 32 1) (5 ∷ []) (7 ∷ []) [] host_run

transcript-inj_example :
    token ∷ token ∷ token ∷ token ∷ token ∷ token ∷ token ∷ []
    ≡ token ∷ token ∷ token ∷ token ∷ token ∷ token ∷ token ∷ []
transcript-inj_example =
    transcript-inj token token token token token token token token token token token token token
      token (omega arith) (omega arith) refl
