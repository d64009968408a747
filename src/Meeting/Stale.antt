-- ===== src/Meeting/Stale.antt =====
-- runtime/crates/kernel/src/meeting.rs: a completion that comes after its meeting was replaced.
use Prim.Native.String.{String}
use polyvisor.Common.{
  ℕ, ◌≡◌, ◌<◌, refl, ap, ◌∙◌, List, [], ◌∷◌, Bool, inl, inr, false, Result, ok, err, Result-cases,
  Option-cases, arith, ◌==◌,
}
use polyvisor.Errors.{Error}
use polyvisor.Meeting.{
  Phase, idle, offering, dialing, awaiting_confirm, awaiting_peer, done, failed, Meeting,
  next_generation, transition, set_phase, meeting_is_active, meeting_is_current, meeting_expire,
  confirm_in, meeting_confirm, cancel_current, meeting_cancel, spend, meeting_bind_session,
  meeting_finish, offer_shared, join_shared,
}
use polyvisor.Primitives.{Encoding}
use polyvisor.Pairing.{Host}
use polyvisor.Meeting.Generations.{Later, Reach}
use polyvisor.Meeting.Order.{meeting_Reach-Later}

module _ (g : ℕ) (m : Meeting) (h : (m.generation == g) ≡ false) where
  set_phase-stale : (phase : Phase) → (set_phase g phase m).0 ≡ m
  unfolding set_phase transition
  set_phase-stale phase = rw h refl

  finish-stale : (outcome : Result String String) → meeting_finish g outcome m ≡ m
  unfolding meeting_finish meeting_is_current
  finish-stale outcome = rw h refl

  expire-stale : meeting_expire g m ≡ m
  unfolding meeting_expire meeting_is_active
  expire-stale = elim (Result-cases (next_generation m.generation)) [
    | inl (n, e) ↦ rw (e, h, meeting_expire) refl
    | inr (x, e) ↦ rw (e, h, meeting_expire) refl
  ]

  spend-stale : spend g m ≡ m
  unfolding spend meeting_is_current
  spend-stale = rw h refl

  bind-stale : (transport : ℕ) → (meeting_bind_session g transport m).0 ≡ m
  unfolding meeting_bind_session
  bind-stale transport = elim (Option-cases m.session) [
    | inr (s, e) ↦ rw e refl
    | inl e ↦ let other : (g == m.generation) ≡ false = ground (arith, h) in rw (e, other) refl
  ]

  confirm_in-stale : (phase : Phase) → (confirm_in phase g m).0 ≡ m
  unfolding confirm_in
  confirm_in-stale (awaiting_confirm r) =
      let other : (g == m.generation) ≡ false = ground (arith, h) in rw other refl
  confirm_in-stale idle = refl
  confirm_in-stale (offering k link) = refl
  confirm_in-stale (dialing k) = refl
  confirm_in-stale awaiting_peer = refl
  confirm_in-stale (done id) = refl
  confirm_in-stale (failed why) = refl

  confirm-stale : (r : Result Error (Unit {0})) → (meeting_confirm r g m).0 ≡ m
  unfolding meeting_confirm
  confirm-stale (err e) = refl
  confirm-stale (ok _) = confirm_in-stale m.phase

  cancel-stale : (r : Result Error (Unit {0})) → (meeting_cancel r g m).0 ≡ m
  unfolding meeting_cancel cancel_current
  cancel-stale (err e) = refl
  cancel-stale (ok _) = elim (Result-cases (next_generation m.generation)) [
    | inl (n, e) ↦ rw (e, h, cancel_current) refl
    | inr (x, e) ↦ rw (e, cancel_current) refl
  ]

-- What is left to do for the tasks of a generation: the stretches that carry its number.
pub data Late : Type 0 where
  shows : Phase → Late
  finishes : Result String String → Late
  expires spends : Late
  binds : ℕ → Late
  confirms cancels : Result Error (Unit {0}) → Late
  offers : (page_url key token : List ℕ) (now : ℕ) → Result Error (List ℕ) → Late
  joins : Result Error (List ℕ) → Late

module _ (base32 : Encoding) (is_whitespace : ℕ → Bool) (host : Host) where
  pub perform : ℕ → Late → Meeting → Meeting
  perform g (shows phase) m = (set_phase g phase m).0
  perform g (finishes outcome) m = meeting_finish g outcome m
  perform g expires m = meeting_expire g m
  perform g spends m = spend g m
  perform g (binds transport) m = (meeting_bind_session g transport m).0
  perform g (confirms r) m = (meeting_confirm r g m).0
  perform g (cancels r) m = (meeting_cancel r g m).0
  perform g (offers page_url key token now card) m =
      (offer_shared base32 is_whitespace host g page_url key token now card m).0
  perform g (joins card) m = (join_shared base32 is_whitespace host g card m).0

  perform-stale :
      (g : ℕ) (late : Late) (m : Meeting) → (m.generation == g) ≡ false → perform g late m ≡ m
  unfolding perform offer_shared join_shared meeting_is_current
  perform-stale g (shows phase) m h = set_phase-stale g m h phase
  perform-stale g (finishes outcome) m h = finish-stale g m h outcome
  perform-stale g expires m h = expire-stale g m h
  perform-stale g spends m h = spend-stale g m h
  perform-stale g (binds transport) m h = bind-stale g m h transport
  perform-stale g (confirms r) m h = confirm-stale g m h r
  perform-stale g (cancels r) m h = cancel-stale g m h r
  perform-stale g (offers page_url key token now (err e)) m h = set_phase-stale g m h _
  perform-stale g (offers page_url key token now (ok card)) m h = rw (h, perform, offer_shared) refl
  perform-stale g (joins (err e)) m h = set_phase-stale g m h _
  perform-stale g (joins (ok card)) m h = rw (h, perform, join_shared) refl

  -- An interleaving: a late stretch of the old generation, or any operations of other tasks.
  pub data Turn : Type 0 where
    late : Late → Turn
    other :
        (f : Meeting → Meeting) → ((m : Meeting) → Reach base32 is_whitespace host m (f m)) → Turn

  abbrev pub run : ℕ → List Turn → Meeting → Meeting
  run g [] m = m
  run g (late what ∷ turns) m = run g turns (perform g what m)
  run g (other f steps ∷ turns) m = run g turns (f m)

  -- The same interleaving without the late stretches.
  abbrev pub without_late : List Turn → List Turn
  without_late [] = []
  without_late (late what ∷ turns) = without_late turns
  without_late (other f steps ∷ turns) = other f steps ∷ without_late turns

  forward : (g : ℕ) (m n : Meeting) → g < m.generation → Later m n → g < n.generation
  unfolding Later
  forward g m n h (inl up) = omega arith
  forward g m n h (inr (same, _)) = omega arith

  -- Once a meeting was replaced, whatever its own tasks still do, in any number and order and between
  -- any operations of the others, ends in the meeting that the others alone would have reached: the
  -- late stretches show a phase, end, expire, spend the offer, bind a session, confirm, cancel, or
  -- go on with an offer or a join whose card has come or failed.
  pub run-without_late :
      (g : ℕ) (turns : List Turn) (m : Meeting)
      → g < m.generation
      → run g turns m ≡ run g (without_late turns) m
  run-without_late g [] m h = refl
  run-without_late g (late what ∷ turns) m h =
      let stale : (m.generation == g) ≡ false = ground arith in
      ap (run g turns) (perform-stale g what m stale) ∙ run-without_late g turns m h
  run-without_late g (other f steps ∷ turns) m h =
      run-without_late g turns (f m)
        (forward g m (f m) h (meeting_Reach-Later base32 is_whitespace host (steps m)))
