-- ===== src/Pairing/Claims.antt =====
-- runtime/crates/kernel/src/pairing.rs: what a claim and a confirmation get, and what the
-- task of a claim does to the session of another ceremony.
use Prim.Native.String.{String}
use polyvisor.Common.{
  ℕ, ◌≡◌, ◌≢◌, refl, sym, ap, subst, ◌↔◌, inl, inr, ◌<◌, List, ◌∷◌, Option, none, some, true, false,
  Result, ok, err, Bool-cases, arith, bytes_eq, bytes_eq→eq, bytes_eq_refl, bytes_eq→ne,
}
use polyvisor.Pairing.{
  Phase, idle, offering, claiming, awaiting_confirm, awaiting_peer, done, failed, Offer, Session,
  Pairing, set_phase, pairing_confirm, judge, ignore, burn, claim, apply_verdict, bind_session,
  finish, claim_task, burnt, take_confirm, confirm_in,
}
use polyvisor.Pairing.Sessions.{Inv, InPlace}

-- A claim takes the offer exactly with its token, before it expires and for the first time; it burns
-- the offer exactly with its token and after another; it is ignored exactly with another token.
pub judge_lem :
    (token : List ℕ) (now : ℕ) (o : Offer)
    → ((judge token now (some o) ≡ claim)
        ↔ ((token ≡ o.token) × (o.claimed ≡ false) × (now < o.expires)))
      × ((judge token now (some o) ≡ burn) ↔ ((token ≡ o.token) × (o.claimed ≡ true)))
      × ((judge token now (some o) ≡ ignore) ↔ (token ≢ o.token))
unfolding judge
judge_lem token now o = elim (Bool-cases (bytes_eq token o.token)) [
  | inl e ↦
      let same : token ≡ o.token = bytes_eq→eq token o.token e in
      (
        (λ h. (same, ground arith, ground arith), λ h. ground arith),
        (λ h. (same, ground arith), λ h. ground arith),
        (λ h. absurd (ground arith), λ n. absurd (n same)),
      )
  | inr e ↦
      let other : token ≢ o.token = bytes_eq→ne token o.token e in
      (
        (λ h. absurd (ground arith), λ h. absurd (other h.0)),
        (λ h. absurd (ground arith), λ h. absurd (other h.0)),
        (λ h. other, λ n. ground arith),
      )
]

-- After a claim with the token of an offer was taken, another with that token gets the verdict burn at
-- whatever time it comes, and a burn leaves no offer and the phase that says so.
pub judge_twice :
    (p : Pairing) (o : Offer) (now later : ℕ) (during : Pairing → Pairing)
    → p.offer ≡ some o
    → judge o.token now p.offer ≡ claim
    → let q = apply_verdict claim during p in
      (judge o.token later q.offer ≡ burn)
      × ((apply_verdict burn during q).offer ≡ none)
      × ((apply_verdict burn during q).phase ≡ burnt)
unfolding judge apply_verdict set_phase
judge_twice p o now later during e h = (rw e (ground (arith, bytes_eq_refl o.token)), refl, refl)

-- Where a session is in place, the task of a claim ends it with a failure, closes its connection and
-- binds none, whatever the dial answers: an error, another key, or the key dialled, where
-- `bind_session` refuses.
pub claim_task_displaces :
    (key : List ℕ) (answer : Result String (List ℕ × ℕ)) (during : Pairing → Pairing)
    (outcome : Result String (Unit {0})) (p : Pairing) (s : Session)
    → Inv p
    → p.session ≡ some s
    → (why : String) × ((claim_task key answer during outcome p).phase ≡ failed why)
      × ((claim_task key answer during outcome p).session ≡ none)
      × ((claim_task key answer during outcome p).closed ≡ s.transport ∷ p.closed)
unfolding claim_task bind_session finish set_phase
claim_task_displaces key (err why) during outcome p s v e =
    let placed : s.cancelled ≡ false = subst InPlace e v.in_place in
    (why, ground arith, ground arith, ground arith)
claim_task_displaces key (ok (dialed, transport)) during outcome p s v e =
    let placed : s.cancelled ≡ false = subst InPlace e v.in_place in
    elim (Bool-cases (bytes_eq dialed key)) [
      | inl same ↦ ("this device is already pairing", ground arith, ground arith, ground arith)
      | inr other ↦
          ("that device answered with a different key", ground arith, ground arith, ground arith)
    ]

confirm_in-ok :
    (phase : Phase) (p q : Pairing)
    → confirm_in phase p ≡ (q, ok tt)
    → ((sas : ℕ) × (phase ≡ awaiting_confirm sas)) × (take_confirm p.session p ≡ (q, ok tt))
unfolding confirm_in
confirm_in-ok (awaiting_confirm sas) p q h = ((sas, refl), h)
confirm_in-ok idle p q h = absurd (ground arith)
confirm_in-ok (offering code) p q h = absurd (ground arith)
confirm_in-ok claiming p q h = absurd (ground arith)
confirm_in-ok awaiting_peer p q h = absurd (ground arith)
confirm_in-ok done p q h = absurd (ground arith)
confirm_in-ok (failed why) p q h = absurd (ground arith)

abbrev pub Taken : Pairing → Session → Pairing
Taken p s = record p {
  session = some (record s { confirm = false });
  confirmed = s.transport ∷ p.confirmed;
}

take_confirm-ok :
    (o : Option Session) (p q : Pairing)
    → take_confirm o p ≡ (q, ok tt)
    → (s : Session) × (o ≡ some s) × (s.confirm ≡ true) × (q ≡ Taken p s)
unfolding take_confirm
take_confirm-ok none p q h = absurd (ground arith)
take_confirm-ok (some s) p q h = (s, refl, ground arith, ground arith)

take_confirm_twice :
    (phase : Phase) (p : Pairing) (s : Session) → (confirm_in phase (Taken p s)).1 ≢ ok tt
unfolding take_confirm
take_confirm_twice phase p s h =
    let r = confirm_in phase (Taken p s) in
    let (_, again) = confirm_in-ok phase (Taken p s) r.0 (ap (λ x. (r.0, x)) h) in
    absurd (ground arith)

-- A confirmation that succeeds finds digits on show and a session whose sender is still there, uses
-- that sender up and changes nothing else, and the next confirmation fails.
pub pairing_confirm-ok :
    (p q : Pairing)
    → pairing_confirm (ok tt) p ≡ (q, ok tt)
    → ((sas : ℕ) × (p.phase ≡ awaiting_confirm sas))
      × ((s : Session) × (p.session ≡ some s) × (s.confirm ≡ true) × (q ≡ Taken p s))
      × ((pairing_confirm (ok tt) q).1 ≢ ok tt)
unfolding pairing_confirm
pairing_confirm-ok p q h =
    let (digits, taken) = confirm_in-ok p.phase p q h in
    let (s, e, there, is) = take_confirm-ok p.session p q taken in
    (
      digits,
      (s, e, there, is),
      subst (λ r. (pairing_confirm (ok tt) r).1 ≢ ok tt) (sym is) (take_confirm_twice p.phase p s),
    )
