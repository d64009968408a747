-- ===== src/Meeting/Generations.antt =====
-- runtime/crates/kernel/src/meeting.rs: the generation keeps a late completion from a meeting that
-- replaced its own. Each constructor of `Step` is a stretch of code between two awaits.
use Prim.Native.String.{String}
use polyvisor.Common.{
  ℕ, ◌+◌, ◌^◌, ◌≡◌, refl, sym, ap, subst, ◌⊎◌, inl, inr, ◌<◌, List, ◌∷◌, Option, none, some, Bool,
  true, false, ◌&&◌, Result, ok, err, Result-cases, Option-cases, Bool-cases, arith, leb, ltb, ◌==◌,
  bytes_eq, if◌then◌else◌,
}
use polyvisor.Errors.{Error}
use polyvisor.Primitives.{Encoding}
use polyvisor.Pairing.{Host}
use polyvisor.Meeting.{
  Phase, idle, offering, dialing, awaiting_confirm, awaiting_peer, done, failed, Offer, Session,
  Meeting, next_generation, is_done, transition, set_phase, meeting_reserve, meeting_is_active,
  meeting_is_current, meeting_expire, publish, take_confirm, confirm_in, meeting_confirm,
  cancel_current, meeting_cancel, meeting_status, judge_offer, host_verdict, spend,
  meeting_bind_session, finish_taken, take_session, meeting_finish, outcome_phase, renew, burnt,
  past, is_offering,
}

-- A phase that names a generation names that of the meeting.
abbrev pub Owned : ℕ → Phase → Type 0
Owned g idle = Unit
Owned g (offering h link) = h ≡ g
Owned g (dialing h) = h ≡ g
Owned g (awaiting_confirm r) = r.generation ≡ g
Owned g awaiting_peer = Unit
Owned g (done id) = Unit
Owned g (failed why) = Unit

abbrev pub InPlace : ℕ → Option Session → Type 0
InPlace g none = Unit
InPlace g (some s) = (s.generation ≡ g) × (s.cancelled ≡ false)

pub record Inv (m : Meeting) : Type 0 where
  pub bounded : m.generation < 2 ^ 32
  pub owned : Owned m.generation m.phase
  pub in_place : InPlace m.generation m.session

-- Two states of one kernel in their order.
unfoldable pub Later : Meeting → Meeting → Type 0
Later m n =
    (m.generation < n.generation)
    ⊎ ((m.generation ≡ n.generation) × ((is_done m.phase ≡ false) ⊎ (n.phase ≡ m.phase)))

pub next_generation-ok : (c g : ℕ) → next_generation c ≡ ok g → (g ≡ c + 1) × (g < 2 ^ 32)
unfolding next_generation
next_generation-ok c g h = elim (Bool-cases (ltb (c + 1) (2 ^ 32))) [
  | inl e ↦ ground (arith, e)
  | inr e ↦ absurd (ground (arith, e))
]

renew-Inv :
    (g : ℕ) (phase : Phase) (m : Meeting) → g < 2 ^ 32 → Owned g phase → Inv (renew g phase m)
renew-Inv g phase m b o = record { bounded = b; owned = o; in_place = tt }

-- `set_phase` does nothing, or it is current, not done, and the phase is put.
set_phase-cases :
    (g : ℕ) (phase : Phase) (m : Meeting)
    → ((set_phase g phase m).0 ≡ m)
      ⊎ ((m.generation ≡ g)
          × (is_done m.phase ≡ false)
          × ((set_phase g phase m).0 ≡ record m {
            phase = phase;
            offer = if is_done phase then none else m.offer;
            events = record { generation = g; phase = phase } ∷ m.events;
          }))
unfolding set_phase transition
set_phase-cases g phase m = elim (Bool-cases (m.generation == g)) [
  | inr e ↦ inl (rw e refl)
  | inl e ↦ elim (Bool-cases (is_done m.phase)) [
    | inl d ↦ inl (rw (e, d) refl)
    | inr d ↦ inr (ground (arith, e), d, rw (e, d) refl)
  ]
]

set_phase-Inv :
    (g : ℕ) (phase : Phase) (m : Meeting) → Owned g phase → Inv m → Inv (set_phase g phase m).0
set_phase-Inv g phase m o v = elim (set_phase-cases g phase m) [
  | inl e ↦ subst Inv (sym e) v
  | inr (same, d, e) ↦ subst Inv (sym e) (record {
    bounded = v.bounded;
    owned = subst (λ h. Owned h phase) (sym same) o;
    in_place = v.in_place;
  })
]

pub set_phase-Later : (g : ℕ) (phase : Phase) (m : Meeting) → Later m (set_phase g phase m).0
unfolding Later
set_phase-Later g phase m = elim (set_phase-cases g phase m) [
  | inl e ↦ inr (cc, inr cc)
  | inr (same, d, e) ↦ inr (ap (λ n. n.generation) (sym e), inl d)
]

take_session-Inv : (g : ℕ) (m : Meeting) (o : Option Session) → Inv m → Inv (take_session g m o).0
take_session-Inv g m none v = v
take_session-Inv g m (some s) v = elim (Bool-cases (s.generation == g)) [
  | inl e ↦ rw e (record { bounded = v.bounded; owned = v.owned; in_place = tt })
  | inr e ↦ rw e v
]

outcome_phase-Owned : (g : ℕ) (outcome : Result String String) → Owned g (outcome_phase outcome)
outcome_phase-Owned g (ok id) = tt
outcome_phase-Owned g (err why) = tt

finish_taken-Inv :
    (g : ℕ) (outcome : Result String String) (o : Option Session) (m : Meeting)
    → Inv m
    → Inv (finish_taken g outcome o m)
unfolding finish_taken
finish_taken-Inv g outcome none m v = elim (Bool-cases (is_done m.phase)) [
  | inl e ↦ rw (e, finish_taken) v
  | inr e ↦
      rw (e, finish_taken)
        (set_phase-Inv g (outcome_phase outcome) m (outcome_phase-Owned g outcome) v)
]
finish_taken-Inv g outcome (some s) m v =
    let w = set_phase-Inv g (outcome_phase outcome) m (outcome_phase-Owned g outcome) v in
    elim (Bool-cases s.cancelled) [
      | inl c ↦ rw (c, finish_taken) v
      | inr c ↦ elim (Bool-cases (is_done m.phase)) [
        | inl e ↦
            rw (c, e, finish_taken)
              (record { bounded = v.bounded; owned = v.owned; in_place = v.in_place })
        | inr e ↦
            rw (c, e, finish_taken)
              (record { bounded = w.bounded; owned = w.owned; in_place = w.in_place })
      ]
    ]

meeting_finish-Inv :
    (g : ℕ) (outcome : Result String String) (m : Meeting)
    → Inv m
    → Inv (meeting_finish g outcome m)
unfolding meeting_finish
meeting_finish-Inv g outcome m v = elim (Bool-cases (meeting_is_current g m)) [
  | inl e ↦
      rw (e, meeting_finish) (finish_taken-Inv g outcome _ _ (take_session-Inv g m m.session v))
  | inr e ↦ rw (e, meeting_finish) v
]

meeting_reserve-Inv : (m : Meeting) → Inv m → Inv (meeting_reserve m).0
unfolding meeting_reserve
meeting_reserve-Inv m v = elim (Result-cases (next_generation m.generation)) [
  | inl (g, e) ↦ rw (e, meeting_reserve) (renew-Inv g idle m (next_generation-ok _ _ e).1 tt)
  | inr (x, e) ↦ rw (e, meeting_reserve) v
]

meeting_expire-Inv : (g : ℕ) (m : Meeting) → Inv m → Inv (meeting_expire g m)
unfolding meeting_expire
meeting_expire-Inv g m v = elim (Bool-cases (meeting_is_active g m)) [
  | inl c ↦ elim (Result-cases (next_generation m.generation)) [
    | inl (n, e) ↦
        rw (e, c, meeting_expire)
          (record { bounded = (next_generation-ok _ _ e).1; owned = tt; in_place = tt })
    | inr (x, e) ↦
        rw (e, c, meeting_expire)
          (record { bounded = v.bounded; owned = tt; in_place = v.in_place })
  ]
  | inr c ↦ elim (Result-cases (next_generation m.generation)) [
    | inl (n, e) ↦ rw (e, c, meeting_expire) v
    | inr (x, e) ↦ rw (e, c, meeting_expire) v
  ]
]

take_confirm-Inv :
    (o : Option Session) (m : Meeting) → InPlace m.generation o → Inv m → Inv (take_confirm o m).0
unfolding take_confirm
take_confirm-Inv none m h v = v
take_confirm-Inv (some s) m h v = elim (Bool-cases s.confirm) [
  | inl e ↦ rw (e, take_confirm) (record { bounded = v.bounded; owned = v.owned; in_place = h })
  | inr e ↦ rw (e, take_confirm) v
]

confirm_in-Inv : (phase : Phase) (g : ℕ) (m : Meeting) → Inv m → Inv (confirm_in phase g m).0
unfolding confirm_in
confirm_in-Inv (awaiting_confirm r) g m v =
    elim (Bool-cases ((g == m.generation) && (g == r.generation))) [
      | inl e ↦ rw (e, confirm_in) (take_confirm-Inv m.session m v.in_place v)
      | inr e ↦ rw (e, confirm_in) v
    ]
confirm_in-Inv idle g m v = v
confirm_in-Inv (offering h link) g m v = v
confirm_in-Inv (dialing h) g m v = v
confirm_in-Inv awaiting_peer g m v = v
confirm_in-Inv (done id) g m v = v
confirm_in-Inv (failed why) g m v = v

meeting_confirm-Inv :
    (r : Result Error (Unit {0})) (g : ℕ) (m : Meeting) → Inv m → Inv (meeting_confirm r g m).0
unfolding meeting_confirm
meeting_confirm-Inv (err e) g m v = v
meeting_confirm-Inv (ok _) g m v = confirm_in-Inv m.phase g m v

meeting_cancel-Inv :
    (r : Result Error (Unit {0})) (g : ℕ) (m : Meeting) → Inv m → Inv (meeting_cancel r g m).0
unfolding meeting_cancel cancel_current
meeting_cancel-Inv (err e) g m v = v
meeting_cancel-Inv (ok _) g m v = elim (Bool-cases (m.generation == g)) [
  | inl c ↦ elim (Result-cases (next_generation m.generation)) [
    | inl (n, e) ↦
        rw (e, c, cancel_current)
          (record { bounded = (next_generation-ok _ _ e).1; owned = tt; in_place = tt })
    | inr (x, e) ↦ rw (e, cancel_current) v
  ]
  | inr c ↦ elim (Result-cases (next_generation m.generation)) [
    | inl (n, e) ↦ rw (e, c, cancel_current) v
    | inr (x, e) ↦ rw (e, cancel_current) v
  ]
]

meeting_status-Inv :
    (r : Result Error (Unit {0})) (now : ℕ) (m : Meeting) → Inv m → Inv (meeting_status r now m).0
unfolding meeting_status
meeting_status-Inv (err e) now m v = v
meeting_status-Inv (ok _) now m v = elim (Bool-cases (past now m.offer && is_offering m.phase)) [
  | inl e ↦ rw (e, meeting_status) (meeting_expire-Inv m.generation m v)
  | inr e ↦ rw (e, meeting_status) v
]

judge_offer-Inv :
    (token : List ℕ) (now : ℕ) (o : Offer) (m : Meeting) → Inv m → Inv (judge_offer token now o m).0
unfolding judge_offer
judge_offer-Inv token now o m v =
    let claimed : Inv (record m { offer = some (record o { claimed = true }) }) = record {
      bounded = v.bounded;
      owned = v.owned;
      in_place = v.in_place;
    } in
    elim (Result-cases (next_generation m.generation)) [
      | inl (n, e) ↦
          let burned : Inv (renew n burnt m) =
            renew-Inv n burnt m (next_generation-ok _ _ e).1 tt in
          elim (Bool-cases (bytes_eq token o.token)) [
            | inr a ↦ rw (e, a, judge_offer) v
            | inl a ↦ elim (Bool-cases o.claimed) [
              | inl b ↦
                  rw (e, a, b, judge_offer)
                    (record {
                      bounded = burned.bounded;
                      owned = burned.owned;
                      in_place = burned.in_place;
                    })
              | inr b ↦ elim (Bool-cases (leb o.expires now)) [
                | inl c ↦ rw (e, a, b, c, judge_offer) v
                | inr c ↦ rw (e, a, b, c, judge_offer) claimed
              ]
            ]
          ]
      | inr (x, e) ↦ elim (Bool-cases (bytes_eq token o.token)) [
        | inr a ↦ rw (e, a, judge_offer) v
        | inl a ↦ elim (Bool-cases o.claimed) [
          | inl b ↦ rw (e, a, b, judge_offer) v
          | inr b ↦ elim (Bool-cases (leb o.expires now)) [
            | inl c ↦ rw (e, a, b, c, judge_offer) v
            | inr c ↦ rw (e, a, b, c, judge_offer) claimed
          ]
        ]
      ]
    ]

host_verdict-Inv :
    (token : List ℕ) (now : ℕ) (m : Meeting) → Inv m → Inv (host_verdict token now m).0
unfolding host_verdict
host_verdict-Inv token now m v = elim (Option-cases m.offer) [
  | inl e ↦ rw (e, host_verdict) v
  | inr (o, e) ↦ rw (e, host_verdict) (judge_offer-Inv token now o m v)
]

spend-Inv : (g : ℕ) (m : Meeting) → Inv m → Inv (spend g m)
unfolding spend
spend-Inv g m v = elim (Bool-cases (meeting_is_current g m)) [
  | inl e ↦ rw (e, spend) (record { bounded = v.bounded; owned = v.owned; in_place = v.in_place })
  | inr e ↦ rw (e, spend) v
]

meeting_bind_session-Inv :
    (g transport : ℕ) (m : Meeting) → Inv m → Inv (meeting_bind_session g transport m).0
unfolding meeting_bind_session
meeting_bind_session-Inv g transport m v = elim (Option-cases m.session) [
  | inr (s, e) ↦ rw (e, meeting_bind_session) v
  | inl e ↦ elim (Bool-cases (g == m.generation)) [
    | inl c ↦
        let same : g ≡ m.generation = ground (arith, c) in
        rw (e, c, meeting_bind_session)
          (record { bounded = v.bounded; owned = v.owned; in_place = (same, refl) })
    | inr c ↦ rw (e, c, meeting_bind_session) v
  ]
]

module _ (base32 : Encoding) (is_whitespace : ℕ → Bool) (host : Host) where
  pub data Step (m : Meeting) : Meeting → Type 0 where
    reserved : Step m (meeting_reserve m).0
    shown : (g : ℕ) (phase : Phase) → Owned g phase → Step m (set_phase g phase m).0
    published :
        (g now : ℕ) (page_url key token introduction : List ℕ)
        → Step m (publish base32 is_whitespace host g page_url key token now introduction m)
    confirmed : (r : Result Error (Unit {0})) (g : ℕ) → Step m (meeting_confirm r g m).0
    stopped : (r : Result Error (Unit {0})) (g : ℕ) → Step m (meeting_cancel r g m).0
    asked : (r : Result Error (Unit {0})) (now : ℕ) → Step m (meeting_status r now m).0
    claimed : (token : List ℕ) (now : ℕ) → Step m (host_verdict token now m).0
    spent : (g : ℕ) → Step m (spend g m)
    bound : (g transport : ℕ) → Step m (meeting_bind_session g transport m).0
    lapsed : (g : ℕ) → Step m (meeting_expire g m)
    ended : (g : ℕ) (outcome : Result String String) → Step m (meeting_finish g outcome m)

  pub data Reach (m : Meeting) : Meeting → Type 0 where
    here : Reach m m
    next : {n k : Meeting} → Reach m n → Step n k → Reach m k

  Step-Inv : (m n : Meeting) → Step m n → Inv m → Inv n
  unfolding publish
  Step-Inv m n reserved v = meeting_reserve-Inv m v
  Step-Inv m n (shown g phase o) v = set_phase-Inv g phase m o v
  Step-Inv m n (published g now page_url key token introduction) v =
      set_phase-Inv g _ _ refl
        (record { bounded = v.bounded; owned = v.owned; in_place = v.in_place })
  Step-Inv m n (confirmed r g) v = meeting_confirm-Inv r g m v
  Step-Inv m n (stopped r g) v = meeting_cancel-Inv r g m v
  Step-Inv m n (asked r now) v = meeting_status-Inv r now m v
  Step-Inv m n (claimed token now) v = host_verdict-Inv token now m v
  Step-Inv m n (spent g) v = spend-Inv g m v
  Step-Inv m n (bound g transport) v = meeting_bind_session-Inv g transport m v
  Step-Inv m n (lapsed g) v = meeting_expire-Inv g m v
  Step-Inv m n (ended g outcome) v = meeting_finish-Inv g outcome m v

  -- From a state where this holds, however the stretches of the operations interleave: the generation
  -- is a `u32`, a phase that names a generation names the current one, and a session in place is of the
  -- current generation and not cancelled.
  pub meeting_Reach-Inv : {m n : Meeting} → Inv m → Reach m n → Inv n
  meeting_Reach-Inv v here = v
  meeting_Reach-Inv v (next r s) = Step-Inv _ _ s (meeting_Reach-Inv v r)
