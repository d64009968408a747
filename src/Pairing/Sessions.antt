-- ===== src/Pairing/Sessions.antt =====
-- runtime/crates/kernel/src/pairing.rs: the offer and the session under any interleaving of the
-- operations. Each constructor of `Step` is a stretch of code between two awaits.
use Prim.Native.String.{String}
use polyvisor.Common.{
  ℕ, ◌≡◌, refl, subst, inl, inr, List, [], ◌∷◌, Option, none, some, Bool, true, false, Result, ok,
  err, Result-cases, Option-cases, Bool-cases, All,
}
use polyvisor.Errors.{Error}
use polyvisor.Primitives.{Encoding}
use polyvisor.Pairing.{
  Phase, idle, offering, claiming, awaiting_confirm, awaiting_peer, done, failed, Session, Pairing,
  Host, set_phase, tear_down_session, publish, pairing_offer, pairing_claim, pairing_confirm,
  pairing_cancel, pairing_status, Verdict, ignore, refuse, burn, claim, apply_verdict, ready,
  claim_target, mark_claimed, bind_session, finish, burnt, take_confirm, confirm_in, status_in,
  lapsed, offer_expired,
}

module _ (base32 : Encoding) (is_whitespace : ℕ → Bool) (host : Host) where
  pub data Step (p : Pairing) : Pairing → Type 0 where
    torn : Step p (tear_down_session p)
    published :
        (key token : List ℕ) (now : ℕ) → Step p (publish base32 is_whitespace host key token now p)
    began : Step p (set_phase claiming (record p { offer = none }))
    confirmed : (r : Result Error (Unit {0})) → Step p (pairing_confirm r p).0
    stopped : Step p (set_phase idle (record p { offer = none }))
    asked : (r : Result Error (Unit {0})) (now : ℕ) → Step p (pairing_status r now p).0
    marked : Step p (record p { offer = mark_claimed p.offer })
    blown : Step p (set_phase burnt (record p { offer = none }))
    bound : (transport : ℕ) → Step p (bind_session transport p).0
    shown : (phase : Phase) → Step p (set_phase phase p)
    spent : Step p (record p { offer = none })
    ended : (outcome : Result String (Unit {0})) → Step p (finish outcome p)

  pub data Reach (p : Pairing) : Pairing → Type 0 where
    here : Reach p p
    next : {q r : Pairing} → Reach p q → Step q r → Reach p r

  Reach-trans : {p q r : Pairing} → Reach p q → Reach q r → Reach p r
  Reach-trans a here = a
  Reach-trans a (next b s) = next (Reach-trans a b) s

  -- The operations are such stretches, with any others while they wait.
  module _ (during : Pairing → Pairing) (others : (q : Pairing) → Reach q (during q)) where
    pub pairing_offer-Reach :
        (token : List ℕ) (now : ℕ) (p : Pairing)
        → Reach p (pairing_offer base32 is_whitespace host token now during p).0
    unfolding pairing_offer
    pairing_offer-Reach token now p = elim (Result-cases (ready host)) [
      | inr (e, x) ↦ rw (x, pairing_offer) here
      | inl (key, x) ↦
          rw (x, pairing_offer)
            (next (Reach-trans (next here torn) (others (tear_down_session p)))
              (published key token now))
    ]

    pub pairing_claim-Reach :
        (code : List ℕ) (p : Pairing)
        → Reach p (pairing_claim base32 is_whitespace host code during p).0
    unfolding pairing_claim
    pairing_claim-Reach code p = elim (Result-cases (claim_target base32 is_whitespace host code)) [
      | inr (e, x) ↦ rw (x, pairing_claim) here
      | inl (target, x) ↦
          rw (x, pairing_claim)
            (next (Reach-trans (next here torn) (others (tear_down_session p))) began)
    ]

    pub pairing_cancel-Reach :
        (r : Result Error (Unit {0})) (p : Pairing) → Reach p (pairing_cancel r during p).0
    unfolding pairing_cancel
    pairing_cancel-Reach (err e) p = here
    pairing_cancel-Reach (ok _) p =
        next (Reach-trans (next here torn) (others (tear_down_session p))) stopped

    pub apply_verdict-Reach : (v : Verdict) (p : Pairing) → Reach p (apply_verdict v during p)
    unfolding apply_verdict
    apply_verdict-Reach ignore p = here
    apply_verdict-Reach refuse p = here
    apply_verdict-Reach burn p =
        next (Reach-trans (next here torn) (others (tear_down_session p))) blown
    apply_verdict-Reach claim p = next here marked

-- What holds at every point: a session in place is never cancelled, one that was torn down is, and the
-- phase that is shown is the one announced last.
abbrev pub InPlace : Option Session → Type 0
InPlace none = Unit
InPlace (some s) = s.cancelled ≡ false

abbrev Announced : Phase → List Phase → Type 0
Announced phase [] = phase ≡ idle
Announced phase (e ∷ es) = phase ≡ e

pub record Inv (p : Pairing) : Type 0 where
  pub in_place : InPlace p.session
  pub marked : All (λ s. s.cancelled ≡ true) p.torn
  pub announced : Announced p.phase p.events

set_phase-Inv :
    (phase : Phase) (p : Pairing)
    → InPlace p.session
    → All (λ s. s.cancelled ≡ true) p.torn
    → Inv (set_phase phase p)
unfolding set_phase
set_phase-Inv phase p h m = record { in_place = h; marked = m; announced = refl }

tear_down_session-Inv : (p : Pairing) → Inv p → Inv (tear_down_session p)
unfolding tear_down_session
tear_down_session-Inv p v = elim (Option-cases p.session) [
  | inl e ↦ rw (e, tear_down_session) v
  | inr (s, e) ↦
      rw (e, tear_down_session)
        (record { in_place = tt; marked = (refl, v.marked); announced = v.announced })
]

take_confirm-Inv : (o : Option Session) (p : Pairing) → InPlace o → Inv p → Inv (take_confirm o p).0
unfolding take_confirm
take_confirm-Inv none p h v = v
take_confirm-Inv (some s) p h v = elim (Bool-cases s.confirm) [
  | inl e ↦
      rw (e, take_confirm) (record { in_place = h; marked = v.marked; announced = v.announced })
  | inr e ↦ rw (e, take_confirm) v
]

confirm_in-Inv : (phase : Phase) (p : Pairing) → Inv p → Inv (confirm_in phase p).0
unfolding confirm_in
confirm_in-Inv (awaiting_confirm sas) p v = take_confirm-Inv p.session p v.in_place v
confirm_in-Inv idle p v = v
confirm_in-Inv (offering code) p v = v
confirm_in-Inv claiming p v = v
confirm_in-Inv awaiting_peer p v = v
confirm_in-Inv done p v = v
confirm_in-Inv (failed why) p v = v

pairing_confirm-Inv :
    (r : Result Error (Unit {0})) (p : Pairing) → Inv p → Inv (pairing_confirm r p).0
unfolding pairing_confirm
pairing_confirm-Inv (err e) p v = v
pairing_confirm-Inv (ok _) p v = confirm_in-Inv p.phase p v

status_in-Inv : (phase : Phase) (b : Bool) (p : Pairing) → Inv p → Inv (status_in phase b p).0
unfolding status_in
status_in-Inv (offering code) true p v = set_phase-Inv lapsed p v.in_place v.marked
status_in-Inv (offering code) false p v = v
status_in-Inv idle b p v = v
status_in-Inv claiming b p v = v
status_in-Inv (awaiting_confirm sas) b p v = v
status_in-Inv awaiting_peer b p v = v
status_in-Inv done b p v = v
status_in-Inv (failed why) b p v = v

pairing_status-Inv :
    (r : Result Error (Unit {0})) (now : ℕ) (p : Pairing) → Inv p → Inv (pairing_status r now p).0
unfolding pairing_status
pairing_status-Inv (err e) now p v = v
pairing_status-Inv (ok _) now p v = status_in-Inv p.phase (offer_expired now p.offer) p v

bind_session-Inv : (t : ℕ) (p : Pairing) → Inv p → Inv (bind_session t p).0
unfolding bind_session
bind_session-Inv t p v = elim (Option-cases p.session) [
  | inl e ↦
      rw (e, bind_session) (record { in_place = refl; marked = v.marked; announced = v.announced })
  | inr (s, e) ↦ rw (e, bind_session) v
]

finish-Inv : (outcome : Result String (Unit {0})) (p : Pairing) → Inv p → Inv (finish outcome p)
unfolding finish set_phase
finish-Inv outcome p v = elim (Option-cases p.session) [
  | inl e ↦ rw (e, finish) v
  | inr (s, e) ↦
      let placed : s.cancelled ≡ false = subst InPlace e v.in_place in
      rw (e, finish) (rw placed (record { in_place = tt; marked = v.marked; announced = refl }))
]

module _ (base32 : Encoding) (is_whitespace : ℕ → Bool) (host : Host) where
  pub Step-Inv : {p q : Pairing} → Step base32 is_whitespace host p q → Inv p → Inv q
  Step-Inv {p} torn v = tear_down_session-Inv p v
  Step-Inv {p} (published key token now) v = unfold publish in set_phase-Inv _ _ v.in_place v.marked
  Step-Inv {p} began v = set_phase-Inv claiming _ v.in_place v.marked
  Step-Inv {p} (confirmed r) v = pairing_confirm-Inv r p v
  Step-Inv {p} stopped v = set_phase-Inv idle _ v.in_place v.marked
  Step-Inv {p} (asked r now) v = pairing_status-Inv r now p v
  Step-Inv marked v = record { in_place = v.in_place; marked = v.marked; announced = v.announced }
  Step-Inv {p} blown v = set_phase-Inv burnt _ v.in_place v.marked
  Step-Inv {p} (bound t) v = bind_session-Inv t p v
  Step-Inv {p} (shown phase) v = set_phase-Inv phase p v.in_place v.marked
  Step-Inv spent v = record { in_place = v.in_place; marked = v.marked; announced = v.announced }
  Step-Inv {p} (ended outcome) v = finish-Inv outcome p v

  pub pairing_Reach-Inv : {p q : Pairing} → Inv p → Reach base32 is_whitespace host p q → Inv q
  pairing_Reach-Inv v here = v
  pairing_Reach-Inv v (next r s) = Step-Inv s (pairing_Reach-Inv v r)
