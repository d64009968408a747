-- ===== src/Pairing/Ceremony/Guarded.antt =====
-- runtime/crates/kernel/src/pairing.rs: what must have happened before a device is added or a
-- group is adopted.
use Prim.Native.String.{String}
use polyvisor.Common.{
  ℕ, ◌≡◌, refl, ap, ◌∙◌, ◌⊎◌, inl, inr, List, [], ◌∷◌, ◌++◌, Option, none, some, Bool, true, false,
  Result, ok, err, arith, length, ◌==◌, bytes_eq, bytes_eq→eq,
}
use polyvisor.Pairing.{awaiting_confirm, awaiting_peer}
use polyvisor.Pairing.Ceremony.{
  Enrolment, Frame, claim, accept, reveal, confirm_join, enroll, cancel, Action, send, show,
  pending, fail, done, Run, ◌>>=◌, ◌>>◌, return, try, send_frame, perform, require, Wake, confirmed,
  frame, confirmations, AdderScript, JoinerScript, expect_accept, expect_reveal, expect_confirmed,
  expect_enroll, adder_handshake, run_adder, joiner_handshake, await_enrolment, run_claimed, sas,
}
use polyvisor.Pairing.Ceremony.Quiet.{
  quiet, behind, quiet_both, try-quiet, send-quiet, require-quiet, confirmations-quiet,
  expect_accept-quiet, expect_reveal-quiet, expect_confirmed-quiet, expect_enroll-quiet,
}

-- The script has the user's confirmation, and the peer's frame.
abbrev pub Confirms : List Wake → Type 0
Confirms [] = ⊥
Confirms (confirmed ∷ ws) = Unit
Confirms (frame f ∷ ws) = Confirms ws

abbrev pub PeerConfirms : List Wake → Type 0
PeerConfirms [] = ⊥
PeerConfirms (confirmed ∷ ws) = PeerConfirms ws
PeerConfirms (frame (some confirm_join) ∷ ws) = Unit
PeerConfirms (frame _ ∷ ws) = PeerConfirms ws

-- Where the loop stands: the user confirmed before or will, and so for the peer.
abbrev Both : List Wake → Bool → Bool → Type 0
Both ws here there = ((here ≡ true) ⊎ Confirms ws) × ((there ≡ true) ⊎ PeerConfirms ws)

confirmations-done :
    (ws : List Wake) (here there : Bool)
    → (confirmations ws here there).1 ≡ done tt
    → Both ws here there
unfolding confirmations
confirmations-done [] true true h = (inl refl, inl refl)
confirmations-done [] true false h = absurd (cc)
confirmations-done [] false true h = absurd (cc)
confirmations-done [] false false h = absurd (cc)
confirmations-done (w ∷ ws) true true h = (inl refl, inl refl)
confirmations-done (confirmed ∷ ws) false there h = (inr tt, (confirmations-done ws true there h).1)
confirmations-done (confirmed ∷ ws) true false h =
    (inl refl, (confirmations-done ws true false h).1)
confirmations-done (frame (some confirm_join) ∷ ws) true false h = (inl refl, inr tt)
confirmations-done (frame (some confirm_join) ∷ ws) false true h =
    ((confirmations-done ws false true h).0, inl refl)
confirmations-done (frame (some confirm_join) ∷ ws) false false h =
    ((confirmations-done ws false true h).0, inr tt)
confirmations-done (frame f ∷ ws) here there h = absurd (cc)

-- The frame that the adder accepts: from the dialled key, with a nonce of 32 bytes.
expect_accept-done :
    (joiner_key : List ℕ) (f : Option Frame) {r : List ℕ × String × List ℕ}
    → (expect_accept joiner_key f).1 ≡ done r
    → (f ≡ some (accept r.0 joiner_key r.1 r.2)) × (length r.0 ≡ 32)
unfolding expect_accept ◌>>=◌
expect_accept-done joiner_key (some (accept nonce key petname card)) h =
    let same : key ≡ joiner_key = bytes_eq→eq key joiner_key (ground arith) in
    (ground arith, ground arith)
expect_accept-done joiner_key none h = absurd (cc)
expect_accept-done joiner_key (some f) h = absurd (cc)

-- A run that ended well went through both of its parts.
>>=-done {ℓ κ} :
    {A : Type ℓ} {B : Type κ} (m : Run A) (f : A → Run B) {b : B}
    → (m >>= f).1 ≡ done b
    → (a : A) × (m.1 ≡ done a) × ((f a).1 ≡ done b) × ((m >>= f).0 ≡ m.0 ++ (f a).0)
unfolding ◌>>=◌
>>=-done (t, pending) f h = absurd (cc)
>>=-done (t, fail e) f h = absurd (cc)
>>=-done (t, done a) f h = (a, refl, h, refl)

try-done {ℓ} :
    {A : Type ℓ} (r : Result String A) {a : A} → (try r).1 ≡ done a → (r ≡ ok a) × ((try r).0 ≡ [])
try-done (ok a) h = (cc, refl)
try-done (err e) h = absurd (cc)

send-done :
    (f : Frame) (r : Result String (Unit {0})) {u : Unit {0}}
    → (send_frame f r).1 ≡ done u
    → (send_frame f r).0 ≡ send f ∷ []
send-done f (ok _) h = refl
send-done f (err e) h = absurd (cc)

expect_reveal-done :
    (f : Option Frame) {n : List ℕ} → (expect_reveal f).1 ≡ done n → f ≡ some (reveal n)
unfolding expect_reveal
expect_reveal-done (some (reveal nonce)) h = ground arith
expect_reveal-done none h = absurd (cc)
expect_reveal-done (some f) h = absurd (cc)

expect_confirmed-done : (w : Wake) {u : Unit {0}} → (expect_confirmed w).1 ≡ done u → w ≡ confirmed
unfolding expect_confirmed
expect_confirmed-done confirmed h = refl
expect_confirmed-done (frame none) h = absurd (cc)
expect_confirmed-done (frame (some cancel)) h = absurd (cc)
expect_confirmed-done (frame (some f)) h = absurd (cc)

expect_enroll-done :
    (f : Option Frame) {e : Enrolment} → (expect_enroll f).1 ≡ done e → f ≡ some (enroll e)
unfolding expect_enroll
expect_enroll-done (some (enroll payload)) h = cc
expect_enroll-done none h = absurd (cc)
expect_enroll-done (some f) h = absurd (cc)

require-done : (b : Bool) (e : String) {u : Unit {0}} → (require b e).1 ≡ done u → b ≡ true
require-done true e h = refl
require-done false e h = absurd (cc)

return-done {ℓ} : {A : Type ℓ} {x y : A} → (return x).1 ≡ done y → x ≡ y
return-done h = cc

==→eq : {m n : ℕ} → (m == n) ≡ true → m ≡ n
==→eq h = ground arith

perform-done {ℓ} : {A : Type ℓ} (a : Action) {x y : A} → (perform a >> return x).1 ≡ done y → x ≡ y
unfolding ◌>>=◌
perform-done a h = cc

either_true {ℓ} : {A : Type ℓ} → (false ≡ true) ⊎ A → A
either_true (inl h) = absurd (cc)
either_true (inr a) = a

module _ (blake3 : List ℕ → List ℕ) (s : AdderScript) (joiner_key token : List ℕ) where
  adder_handshake-quiet : quiet (adder_handshake blake3 s joiner_key token).0 ≡ true
  unfolding adder_handshake quiet
  adder_handshake-quiet = quiet_both (try s.bound) _ (try-quiet _) λ _.
      quiet_both (send_frame (claim token (blake3 s.nonce_a)) s.sent_claim) _ (send-quiet _ _) λ _.
        quiet_both (expect_accept joiner_key s.accepted) _ (expect_accept-quiet _ _) λ r.
          quiet_both (send_frame (reveal s.nonce_a) s.sent_reveal) _ (send-quiet _ _) λ _.
            quiet_both (try s.adder_key) _ (try-quiet _) λ key.
              quiet_both
                (perform (show (awaiting_confirm (sas blake3 token joiner_key key r.0 s.nonce_a))))
                _ refl λ _. refl

  adder_handshake-done :
      (petname : String)
      → (adder_handshake blake3 s joiner_key token).1 ≡ done petname
      → (nonce card : List ℕ) × (s.accepted ≡ some (accept nonce joiner_key petname card))
        × (length nonce ≡ 32)
  unfolding adder_handshake
  adder_handshake-done petname h =
      let (_, b, h1, t1) = >>=-done (try s.bound) _ h in
      let (_, c, h2, t2) =
        >>=-done (send_frame (claim token (blake3 s.nonce_a)) s.sent_claim) _ h1 in
      let (r, d, h3, t3) = >>=-done (expect_accept joiner_key s.accepted) _ h2 in
      let (_, e, h4, t4) = >>=-done (send_frame (reveal s.nonce_a) s.sent_reveal) _ h3 in
      let (key, g, h5, t5) = >>=-done (try s.adder_key) _ h4 in
      let (answered, long) = expect_accept-done joiner_key s.accepted d in
      let named : r.1 ≡ petname =
        perform-done (show (awaiting_confirm (sas blake3 token joiner_key key r.0 s.nonce_a))) h5 in
      (r.0, r.2, answered ∙ ap (λ n. some (accept r.0 joiner_key n r.2)) named, long)

  -- A run of the adder that adds a member had an acceptance for the dialled key with a nonce of 32
  -- bytes, and both the confirmation of its user and the one of the peer.
  pub adder_guarded :
      quiet (run_adder blake3 s joiner_key token).0 ≡ false
      → (petname : String) × (nonce card : List ℕ) × (s.accepted
          ≡ some (accept nonce joiner_key petname card))
        × (length nonce ≡ 32)
        × Confirms s.wakes
        × PeerConfirms s.wakes
  unfolding run_adder
  adder_guarded h =
      let (petname, met, h1) =
        behind (adder_handshake blake3 s joiner_key token) _ adder_handshake-quiet h in
      let (_, agreed, h2) =
        behind (confirmations s.wakes false false) _ (confirmations-quiet s.wakes false false) h1 in
      let (nonce, card, answered, long) = adder_handshake-done petname met in
      let (here, there) = confirmations-done s.wakes false false agreed in
      (petname, nonce, card, answered, long, either_true here, either_true there)

module _ (s : JoinerScript) where
  await_enrolment-quiet : quiet (await_enrolment s).0 ≡ true
  unfolding await_enrolment quiet
  await_enrolment-quiet = quiet_both (expect_confirmed s.wake) _ (expect_confirmed-quiet _) λ _.
      quiet_both (send_frame confirm_join s.sent_confirm) _ (send-quiet _ _) λ _.
        quiet_both (perform (show awaiting_peer)) _ refl λ _.
          quiet_both (expect_enroll s.enrolling) _ (expect_enroll-quiet _) λ p.
            quiet_both (require (length p.name_key == 32) "that device sent a malformed store key")
              _ (require-quiet _ _)
              λ _. quiet_both (try (s.group_of p)) _ (try-quiet _) λ expected.
                quiet_both (try (s.profile_group p)) _ (try-quiet _) λ group.
                  quiet_both
                    (require (bytes_eq group expected)
                      "the adopted identity is bound to another Keyhive group")
                    _ (require-quiet _ _) λ _. refl

  await_enrolment-done :
      (p : Enrolment)
      → (await_enrolment s).1 ≡ done p
      → (s.wake ≡ confirmed)
        × (s.enrolling ≡ some (enroll p))
        × (length p.name_key ≡ 32)
        × (group : List ℕ) × (s.group_of p ≡ ok group)
        × (s.profile_group p ≡ ok group)
  unfolding await_enrolment
  await_enrolment-done p h =
      let (_, b, h1, t1) = >>=-done (expect_confirmed s.wake) _ h in
      let (_, c, h2, t2) = >>=-done (send_frame confirm_join s.sent_confirm) _ h1 in
      let (_, d, h3, t3) = >>=-done (perform (show awaiting_peer)) _ h2 in
      let (q, e, h4, t4) = >>=-done (expect_enroll s.enrolling) _ h3 in
      let (_, g, h5, t5) =
        >>=-done (require (length q.name_key == 32) "that device sent a malformed store key") _
          h4 in
      let (expected, i, h6, t6) = >>=-done (try (s.group_of q)) _ h5 in
      let (group, j, h7, t7) = >>=-done (try (s.profile_group q)) _ h6 in
      let (_, k, h8, t8) =
        >>=-done
          (require (bytes_eq group expected)
            "the adopted identity is bound to another Keyhive group")
          _ h7 in
      let same : q ≡ p = return-done h8 in
      let bound : group ≡ expected = bytes_eq→eq group expected (require-done _ _ k) in
      let wake = expect_confirmed-done s.wake b in
      let frame = expect_enroll-done s.enrolling e in
      let long : length q.name_key ≡ 32 = ==→eq (require-done _ _ g) in
      let asked = (try-done (s.group_of q) i).0 in
      let given = (try-done (s.profile_group q) j).0 in (wake, cc, cc, expected, cc, cc)

module _ (blake3 : List ℕ → List ℕ) (s : JoinerScript) (adder_key token commit : List ℕ) where
  joiner_handshake-quiet : quiet (joiner_handshake blake3 s adder_key token commit).0 ≡ true
  unfolding joiner_handshake quiet
  joiner_handshake-quiet = quiet_both (try s.bound) _ (try-quiet _) λ _.
      quiet_both (require (length token == 16) "that code's token is malformed") _
        (require-quiet _ _)
        λ _. quiet_both (try s.joiner_key) _ (try-quiet _) λ key.
          quiet_both (try s.card) _ (try-quiet _) λ card.
            quiet_both (send_frame (accept s.nonce_j key s.petname card) s.sent_accept) _
              (send-quiet _ _)
              λ _. quiet_both (expect_reveal s.revealed) _ (expect_reveal-quiet _) λ n.
                quiet_both
                  (require (bytes_eq (blake3 n) commit)
                    "that device's nonce did not match what it committed to")
                  _ (require-quiet _ _) λ _. refl

  joiner_handshake-done :
      (joiner_handshake blake3 s adder_key token commit).1 ≡ done tt
      → (nonce : List ℕ) × (s.revealed ≡ some (reveal nonce)) × (blake3 nonce ≡ commit)
  unfolding joiner_handshake
  joiner_handshake-done h =
      let (_, b, h1, t1) = >>=-done (try s.bound) _ h in
      let (_, c, h2, t2) =
        >>=-done (require (length token == 16) "that code's token is malformed") _ h1 in
      let (key, d, h3, t3) = >>=-done (try s.joiner_key) _ h2 in
      let (card, e, h4, t4) = >>=-done (try s.card) _ h3 in
      let (_, g, h5, t5) =
        >>=-done (send_frame (accept s.nonce_j key s.petname card) s.sent_accept) _ h4 in
      let (n, i, h6, t6) = >>=-done (expect_reveal s.revealed) _ h5 in
      let (_, j, h7, t7) =
        >>=-done
          (require (bytes_eq (blake3 n) commit)
            "that device's nonce did not match what it committed to")
          _ h6 in
      (n, expect_reveal-done s.revealed i, bytes_eq→eq (blake3 n) commit (require-done _ _ j))

  -- A run of the joiner that adopts a group had a revealed nonce that hashes to the commitment, the
  -- confirmation of its user, and an enrolment with a store key of 32 bytes whose profile is bound to
  -- the group that it adopts.
  pub joiner_guarded :
      quiet (run_claimed blake3 s adder_key token commit).0 ≡ false
      → (nonce : List ℕ) × (p : Enrolment) × (group : List ℕ) × (s.revealed ≡ some (reveal nonce))
        × (blake3 nonce ≡ commit)
        × (s.wake ≡ confirmed)
        × (s.enrolling ≡ some (enroll p))
        × (length p.name_key ≡ 32)
        × (s.group_of p ≡ ok group)
        × (s.profile_group p ≡ ok group)
  unfolding run_claimed
  joiner_guarded h =
      let (_, met, h1) =
        behind (joiner_handshake blake3 s adder_key token commit) _ joiner_handshake-quiet h in
      let (p, agreed, h2) = behind (await_enrolment s) _ (await_enrolment-quiet s) h1 in
      let (nonce, revealed, committed) = joiner_handshake-done met in
      let (wake, enrolling, long, group, asked, given) = await_enrolment-done s p agreed in
      (nonce, p, group, revealed, committed, wake, enrolling, long, asked, given)
