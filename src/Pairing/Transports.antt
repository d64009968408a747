-- ===== src/Pairing/Transports.antt =====
-- runtime/crates/kernel/src/pairing.rs: every connection that a ceremony binds is ended once.
use Prim.Native.String.{String}
use polyvisor.Common.{
  ℕ, ◌≡◌, refl, sym, ap, subst, ◌∙◌, inl, inr, List, [], ◌∷◌, ◌++◌, append_assoc, Option, none,
  some, Bool, true, false, Result, ok, err, Option-cases, Bool-cases,
}
use polyvisor.Errors.{Error}
use polyvisor.Primitives.{Encoding}
use polyvisor.Pairing.{
  Phase, idle, offering, claiming, awaiting_confirm, awaiting_peer, done, failed, Session, Pairing,
  Host, set_phase, tear_down_session, publish, pairing_confirm, pairing_status, take_confirm,
  bind_session, finish, confirm_in, status_in, offer_expired,
}
use polyvisor.Pairing.Sessions.{
  Step, torn, published, began, confirmed, stopped, asked, marked, blown, bound, shown, spent,
  ended, Reach, here, next, Inv, InPlace, Step-Inv,
}

abbrev held : Option Session → List ℕ
held none = []
held (some s) = s.transport ∷ []

-- The connections that are known, the newest first: that of the session in place, then the closed.
abbrev pub in_hand : Pairing → List ℕ
in_hand p = held p.session ++ p.closed

take_confirm-in_hand :
    (o : Option Session) (p : Pairing) → p.session ≡ o → in_hand (take_confirm o p).0 ≡ in_hand p
unfolding take_confirm
take_confirm-in_hand none p e = refl
take_confirm-in_hand (some s) p e = elim (Bool-cases s.confirm) [
  | inl there ↦ rw (there, e) refl
  | inr gone ↦ rw gone refl
]

confirm_in-in_hand : (phase : Phase) (p : Pairing) → in_hand (confirm_in phase p).0 ≡ in_hand p
unfolding confirm_in
confirm_in-in_hand (awaiting_confirm sas) p = take_confirm-in_hand p.session p refl
confirm_in-in_hand idle p = refl
confirm_in-in_hand (offering code) p = refl
confirm_in-in_hand claiming p = refl
confirm_in-in_hand awaiting_peer p = refl
confirm_in-in_hand done p = refl
confirm_in-in_hand (failed why) p = refl

pairing_confirm-in_hand :
    (r : Result Error (Unit {0})) (p : Pairing) → in_hand (pairing_confirm r p).0 ≡ in_hand p
unfolding pairing_confirm
pairing_confirm-in_hand (err e) p = refl
pairing_confirm-in_hand (ok _) p = confirm_in-in_hand p.phase p

status_in-in_hand :
    (phase : Phase) (b : Bool) (p : Pairing) → in_hand (status_in phase b p).0 ≡ in_hand p
unfolding status_in set_phase
status_in-in_hand (offering code) true p = refl
status_in-in_hand (offering code) false p = refl
status_in-in_hand idle b p = refl
status_in-in_hand claiming b p = refl
status_in-in_hand (awaiting_confirm sas) b p = refl
status_in-in_hand awaiting_peer b p = refl
status_in-in_hand done b p = refl
status_in-in_hand (failed why) b p = refl

pairing_status-in_hand :
    (r : Result Error (Unit {0})) (now : ℕ) (p : Pairing)
    → in_hand (pairing_status r now p).0 ≡ in_hand p
unfolding pairing_status
pairing_status-in_hand (err e) now p = refl
pairing_status-in_hand (ok _) now p = status_in-in_hand p.phase (offer_expired now p.offer) p

tear_down_session-in_hand : (p : Pairing) → in_hand (tear_down_session p) ≡ in_hand p
unfolding tear_down_session
tear_down_session-in_hand p = elim (Option-cases p.session) [
  | inl e ↦ rw (e, tear_down_session) (rw e refl)
  | inr (s, e) ↦ rw (e, tear_down_session) refl
]

-- The connection that a ceremony binds, if it is not refused.
abbrev pub taken : ℕ → Result String (Unit {0}) → List ℕ
taken t (ok _) = t ∷ []
taken t (err why) = []

bind_session-in_hand :
    (t : ℕ) (p : Pairing) → in_hand (bind_session t p).0 ≡ taken t (bind_session t p).1 ++ in_hand p
unfolding bind_session
bind_session-in_hand t p = elim (Option-cases p.session) [
  | inl e ↦ rw (e, bind_session) refl
  | inr (s, e) ↦ rw (e, bind_session) (rw e refl)
]

finish-in_hand :
    (outcome : Result String (Unit {0})) (p : Pairing)
    → InPlace p.session
    → in_hand (finish outcome p) ≡ in_hand p
unfolding finish set_phase
finish-in_hand outcome p v = elim (Option-cases p.session) [
  | inl e ↦ rw (e, finish) (rw e refl)
  | inr (s, e) ↦
      let placed : s.cancelled ≡ false = subst InPlace e v in rw (e, finish) (rw placed refl)
]

module _ (base32 : Encoding) (is_whitespace : ℕ → Bool) (host : Host) where
  -- The connections that a stretch binds, and those that a run binds, the newest first.
  abbrev pub accepted : {p q : Pairing} → Step base32 is_whitespace host p q → List ℕ
  accepted {p} (bound t) = taken t (bind_session t p).1
  accepted _ = []

  abbrev pub all_accepted : {p q : Pairing} → Reach base32 is_whitespace host p q → List ℕ
  all_accepted here = []
  all_accepted (next r s) = accepted s ++ all_accepted r

  Step-in_hand :
      {p q : Pairing} (s : Step base32 is_whitespace host p q)
      → Inv p
      → in_hand q ≡ accepted s ++ in_hand p
  Step-in_hand {p} torn v = tear_down_session-in_hand p
  Step-in_hand {p} (published key token now) v = unfold publish in unfold set_phase in refl
  Step-in_hand {p} began v = unfold set_phase in refl
  Step-in_hand {p} (confirmed r) v = pairing_confirm-in_hand r p
  Step-in_hand {p} stopped v = unfold set_phase in refl
  Step-in_hand {p} (asked r now) v = pairing_status-in_hand r now p
  Step-in_hand marked v = refl
  Step-in_hand {p} blown v = unfold set_phase in refl
  Step-in_hand {p} (bound t) v = bind_session-in_hand t p
  Step-in_hand {p} (shown phase) v = unfold set_phase in refl
  Step-in_hand spent v = refl
  Step-in_hand {p} (ended outcome) v = finish-in_hand outcome p v.in_place

  -- From a state where this holds, however the stretches of the operations interleave: the phase on show
  -- is the one announced last, or idle before any; every session that was torn down is marked as
  -- cancelled, and the one in place is not; and the connections that were bound since, the newest
  -- first, before those of the start, are the one in place and the closed ones: each is closed once,
  -- unless it is the newest and its session is still in place.
  pub pairing_Reach-in_hand :
      {p q : Pairing} (r : Reach base32 is_whitespace host p q)
      → Inv p
      → Inv q × (in_hand q ≡ all_accepted r ++ in_hand p)
  pairing_Reach-in_hand here v = (v, refl)
  pairing_Reach-in_hand {p} (next r s) v =
      let (w, e) = pairing_Reach-in_hand r v in
      (
        Step-Inv base32 is_whitespace host s w,
        Step-in_hand s w
            ∙ ap (λ l. accepted s ++ l) e
            ∙ sym (append_assoc (accepted s) (all_accepted r) (in_hand p)),
      )
