-- ===== src/Meeting/Order.antt =====
-- runtime/crates/kernel/src/meeting.rs: the generation never goes back, and a meeting that is done
-- stays done until the next generation.
use Prim.Native.String.{String}
use polyvisor.Common.{
  ℕ, ◌≡◌, refl, sym, ap, ◌∙◌, inl, inr, List, Option, none, some, Bool, true, false, ◌&&◌, Result,
  ok, err, Result-cases, Option-cases, Bool-cases, arith, leb, ◌==◌, bytes_eq,
}
use polyvisor.Errors.{Error}
use polyvisor.Primitives.{Encoding}
use polyvisor.Pairing.{Host}
use polyvisor.Meeting.Generations.{
  Later, next_generation-ok, set_phase-Later, Step, Reach, reserved, shown, published, confirmed,
  stopped, asked, claimed, spent, bound, lapsed, ended, here, next,
}
use polyvisor.Meeting.{
  Phase, idle, offering, dialing, awaiting_confirm, awaiting_peer, done, failed, Offer, Session,
  Meeting, next_generation, is_done, meeting_reserve, meeting_is_active, meeting_is_current,
  meeting_expire, publish, take_confirm, confirm_in, meeting_confirm, cancel_current,
  meeting_cancel, meeting_status, judge_offer, host_verdict, spend, meeting_bind_session,
  finish_taken, take_session, meeting_finish, outcome_phase, is_live, past, is_offering,
}

Later-refl : (m : Meeting) → Later m m
unfolding Later
Later-refl m = inr (refl, inr refl)

Later-trans : (m n k : Meeting) → Later m n → Later n k → Later m k
unfolding Later
Later-trans m n k (inl a) (inl b) = inl (omega arith)
Later-trans m n k (inl a) (inr (b, f)) = inl (omega arith)
Later-trans m n k (inr (a, f)) (inl b) = inl (omega arith)
Later-trans m n k (inr (a, inl d)) (inr (b, g)) = inr (a ∙ b, inl d)
Later-trans m n k (inr (a, inr same)) (inr (b, inl d)) =
    inr (a ∙ b, inl (ap is_done (sym same) ∙ d))
Later-trans m n k (inr (a, inr same)) (inr (b, inr then_same)) = inr (a ∙ b, inr (then_same ∙ same))

-- A new generation is later, whatever else changes.
renewed :
    (m n : Meeting) (g : ℕ) → next_generation m.generation ≡ ok g → n.generation ≡ g → Later m n
unfolding Later
renewed m n g e h = let same = (next_generation-ok m.generation g e).0 in inl (omega arith)

-- Nothing but the offer, the session and what is logged changes.
kept : (m n : Meeting) → n.generation ≡ m.generation → n.phase ≡ m.phase → Later m n
unfolding Later
kept m n h p = inr (sym h, inr p)

reserve-Later : (m : Meeting) → Later m (meeting_reserve m).0
unfolding meeting_reserve
reserve-Later m = elim (Result-cases (next_generation m.generation)) [
  | inl (g, e) ↦ rw (e, meeting_reserve) (renewed m _ g e refl)
  | inr (x, e) ↦ rw (e, meeting_reserve) (Later-refl m)
]

live-not_done : (phase : Phase) → is_live phase ≡ true → is_done phase ≡ false
live-not_done idle h = refl
live-not_done (offering k link) h = refl
live-not_done (dialing k) h = refl
live-not_done (awaiting_confirm r) h = refl
live-not_done awaiting_peer h = refl
live-not_done (done id) h = absurd (cc)
live-not_done (failed why) h = refl

active-not_done : (g : ℕ) (m : Meeting) → meeting_is_active g m ≡ true → is_done m.phase ≡ false
unfolding meeting_is_active
active-not_done g m h = live-not_done m.phase (ground arith)

not_done_Later : (m n : Meeting) → n.generation ≡ m.generation → is_done m.phase ≡ false → Later m n
unfolding Later
not_done_Later m n h d = inr (sym h, inl d)

expire-Later : (g : ℕ) (m : Meeting) → Later m (meeting_expire g m)
unfolding meeting_expire
expire-Later g m = elim (Bool-cases (meeting_is_active g m)) [
  | inl c ↦ elim (Result-cases (next_generation m.generation)) [
    | inl (n, e) ↦ rw (e, c, meeting_expire) (renewed m _ n e refl)
    | inr (x, e) ↦ rw (e, c, meeting_expire) (not_done_Later m _ refl (active-not_done g m c))
  ]
  | inr c ↦ elim (Result-cases (next_generation m.generation)) [
    | inl (n, e) ↦ rw (e, c, meeting_expire) (Later-refl m)
    | inr (x, e) ↦ rw (e, c, meeting_expire) (Later-refl m)
  ]
]

take_confirm-Later : (o : Option Session) (m : Meeting) → Later m (take_confirm o m).0
unfolding take_confirm
take_confirm-Later none m = Later-refl m
take_confirm-Later (some s) m = elim (Bool-cases s.confirm) [
  | inl e ↦ rw (e, take_confirm) (kept m _ refl refl)
  | inr e ↦ rw (e, take_confirm) (Later-refl m)
]

confirm_in-Later : (phase : Phase) (g : ℕ) (m : Meeting) → Later m (confirm_in phase g m).0
unfolding confirm_in
confirm_in-Later (awaiting_confirm r) g m =
    elim (Bool-cases ((g == m.generation) && (g == r.generation))) [
      | inl e ↦ rw (e, confirm_in) (take_confirm-Later m.session m)
      | inr e ↦ rw (e, confirm_in) (Later-refl m)
    ]
confirm_in-Later idle g m = Later-refl m
confirm_in-Later (offering h link) g m = Later-refl m
confirm_in-Later (dialing h) g m = Later-refl m
confirm_in-Later awaiting_peer g m = Later-refl m
confirm_in-Later (done id) g m = Later-refl m
confirm_in-Later (failed why) g m = Later-refl m

confirm-Later :
    (r : Result Error (Unit {0})) (g : ℕ) (m : Meeting) → Later m (meeting_confirm r g m).0
unfolding meeting_confirm
confirm-Later (err e) g m = Later-refl m
confirm-Later (ok _) g m = confirm_in-Later m.phase g m

cancel-Later :
    (r : Result Error (Unit {0})) (g : ℕ) (m : Meeting) → Later m (meeting_cancel r g m).0
unfolding meeting_cancel cancel_current
cancel-Later (err e) g m = Later-refl m
cancel-Later (ok _) g m = elim (Bool-cases (m.generation == g)) [
  | inl c ↦ elim (Result-cases (next_generation m.generation)) [
    | inl (n, e) ↦ rw (e, c, cancel_current) (renewed m _ n e refl)
    | inr (x, e) ↦ rw (e, cancel_current) (Later-refl m)
  ]
  | inr c ↦ elim (Result-cases (next_generation m.generation)) [
    | inl (n, e) ↦ rw (e, c, cancel_current) (Later-refl m)
    | inr (x, e) ↦ rw (e, cancel_current) (Later-refl m)
  ]
]

status-Later :
    (r : Result Error (Unit {0})) (now : ℕ) (m : Meeting) → Later m (meeting_status r now m).0
unfolding meeting_status
status-Later (err e) now m = Later-refl m
status-Later (ok _) now m = elim (Bool-cases (past now m.offer && is_offering m.phase)) [
  | inl e ↦ rw (e, meeting_status) (expire-Later m.generation m)
  | inr e ↦ rw (e, meeting_status) (Later-refl m)
]

judge_offer-Later :
    (token : List ℕ) (now : ℕ) (o : Offer) (m : Meeting) → Later m (judge_offer token now o m).0
unfolding judge_offer
judge_offer-Later token now o m = elim (Bool-cases (bytes_eq token o.token)) [
  | inr a ↦ elim (Result-cases (next_generation m.generation)) [
    | inl (n, e) ↦ rw (e, a, judge_offer) (Later-refl m)
    | inr (x, e) ↦ rw (e, a, judge_offer) (Later-refl m)
  ]
  | inl a ↦ elim (Bool-cases o.claimed) [
    | inl b ↦ elim (Result-cases (next_generation m.generation)) [
      | inl (n, e) ↦ rw (e, a, b, judge_offer) (renewed m _ n e refl)
      | inr (x, e) ↦ rw (e, a, b, judge_offer) (Later-refl m)
    ]
    | inr b ↦ elim (Bool-cases (leb o.expires now)) [
      | inl c ↦ elim (Result-cases (next_generation m.generation)) [
        | inl (n, e) ↦ rw (e, a, b, c, judge_offer) (Later-refl m)
        | inr (x, e) ↦ rw (e, a, b, c, judge_offer) (Later-refl m)
      ]
      | inr c ↦ elim (Result-cases (next_generation m.generation)) [
        | inl (n, e) ↦ rw (e, a, b, c, judge_offer) (kept m _ refl refl)
        | inr (x, e) ↦ rw (e, a, b, c, judge_offer) (kept m _ refl refl)
      ]
    ]
  ]
]

host_verdict-Later : (token : List ℕ) (now : ℕ) (m : Meeting) → Later m (host_verdict token now m).0
unfolding host_verdict Later
host_verdict-Later token now m = elim (Option-cases m.offer) [
  | inl e ↦ rw (e, host_verdict) (inr (refl, inr refl))
  | inr (o, e) ↦ rw (e, host_verdict) (judge_offer-Later token now o m)
]

spend-Later : (g : ℕ) (m : Meeting) → Later m (spend g m)
unfolding spend
spend-Later g m = elim (Bool-cases (meeting_is_current g m)) [
  | inl e ↦ rw (e, spend) (kept m _ refl refl)
  | inr e ↦ rw (e, spend) (Later-refl m)
]

bind-Later : (g transport : ℕ) (m : Meeting) → Later m (meeting_bind_session g transport m).0
unfolding meeting_bind_session Later
bind-Later g transport m = elim (Option-cases m.session) [
  | inr (s, e) ↦ rw (e, meeting_bind_session) (inr (refl, inr refl))
  | inl e ↦ elim (Bool-cases (g == m.generation)) [
    | inl c ↦ rw (e, c, meeting_bind_session) (inr (refl, inr refl))
    | inr c ↦ rw (e, c, meeting_bind_session) (inr (refl, inr refl))
  ]
]

finish_taken-Later :
    (g : ℕ) (outcome : Result String String) (o : Option Session) (m : Meeting)
    → Later m (finish_taken g outcome o m)
unfolding finish_taken
finish_taken-Later g outcome none m = elim (Bool-cases (is_done m.phase)) [
  | inl e ↦ rw (e, finish_taken) (Later-refl m)
  | inr e ↦ rw (e, finish_taken) (set_phase-Later g (outcome_phase outcome) m)
]
finish_taken-Later g outcome (some s) m = elim (Bool-cases s.cancelled) [
  | inl c ↦ rw (c, finish_taken) (Later-refl m)
  | inr c ↦ elim (Bool-cases (is_done m.phase)) [
    | inl e ↦ rw (c, e, finish_taken) (kept m _ refl refl)
    | inr e ↦
        rw (c, e, finish_taken)
          (Later-trans m _ _ (set_phase-Later g (outcome_phase outcome) m) (kept _ _ refl refl))
  ]
]

take_session-Later : (g : ℕ) (m : Meeting) (o : Option Session) → Later m (take_session g m o).0
take_session-Later g m none = Later-refl m
take_session-Later g m (some s) = elim (Bool-cases (s.generation == g)) [
  | inl e ↦ rw e (kept m _ refl refl)
  | inr e ↦ rw e (Later-refl m)
]

finish-Later :
    (g : ℕ) (outcome : Result String String) (m : Meeting) → Later m (meeting_finish g outcome m)
unfolding meeting_finish
finish-Later g outcome m = elim (Bool-cases (meeting_is_current g m)) [
  | inl e ↦
      rw (e, meeting_finish)
        (Later-trans m _ _ (take_session-Later g m m.session) (finish_taken-Later g outcome _ _))
  | inr e ↦ rw (e, meeting_finish) (Later-refl m)
]

module _ (base32 : Encoding) (is_whitespace : ℕ → Bool) (host : Host) where
  Step-Later : (m n : Meeting) → Step base32 is_whitespace host m n → Later m n
  unfolding publish
  Step-Later m n reserved = reserve-Later m
  Step-Later m n (shown g phase o) = set_phase-Later g phase m
  Step-Later m n (published g now page_url key token introduction) =
      Later-trans m _ _ (kept m _ refl refl) (set_phase-Later g _ _)
  Step-Later m n (confirmed r g) = confirm-Later r g m
  Step-Later m n (stopped r g) = cancel-Later r g m
  Step-Later m n (asked r now) = status-Later r now m
  Step-Later m n (claimed token now) = host_verdict-Later token now m
  Step-Later m n (spent g) = spend-Later g m
  Step-Later m n (bound g transport) = bind-Later g transport m
  Step-Later m n (lapsed g) = expire-Later g m
  Step-Later m n (ended g outcome) = finish-Later g outcome m

  -- However the stretches of the operations interleave, either the generation went up, or it is the
  -- same and then a meeting that was done shows what it showed.
  pub meeting_Reach-Later : {m n : Meeting} → Reach base32 is_whitespace host m n → Later m n
  meeting_Reach-Later here = Later-refl _
  meeting_Reach-Later (next r s) = Later-trans _ _ _ (meeting_Reach-Later r) (Step-Later _ _ s)
