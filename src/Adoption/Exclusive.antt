-- ===== src/Adoption/Exclusive.antt =====
-- runtime/crates/kernel/src/lib.rs: while an identity is adopted, nothing else uses or adopts one.
use polyvisor.Common.{
  ℕ, ◌≡◌, refl, sym, ap, ◌∙◌, ◌⊎◌, inl, inr, Bool, true, false, ◌&&◌, Result, ok, err, Result-cases,
  ok-inj, ◌==◌, arith,
}
use polyvisor.Errors.{Error, unavailable}
use polyvisor.RootTransfer.{Context}
use polyvisor.Adoption.{
  Kernel, open_gate, identity_open, next_context, may_begin, begin_identity_adoption,
  finish_identity_adoption,
}

-- What other tasks try while the adoption runs: to begin one, or to end one that is not this one, or
-- to end this one as failed.
pub data Step (mine : ℕ) : Kernel → Kernel → Type 0 where
  begins :
      (k : Kernel) (cleared : Result Error (Unit {0}))
      → Step mine k ((begin_identity_adoption cleared k).0)
  ends :
      (k : Kernel) (previous : Context) (succeeded : Bool)
      → (succeeded ≡ false) ⊎ ((mine == next_context previous.generation) ≡ false)
      → Step mine k (finish_identity_adoption previous succeeded k)

pub data Steps (mine : ℕ) (k : Kernel) : Kernel → Type 0 where
  here : Steps mine k k
  next : {l m : Kernel} → Steps mine k l → Step mine l m → Steps mine k m

may_begin-busy :
    (cleared : Result Error (Unit {0})) (k : Kernel)
    → k.context.adopting ≡ true
    → (e : Error) × (may_begin cleared k ≡ err e)
unfolding may_begin
may_begin-busy cleared k busy = elim (Result-cases (open_gate k)) [
  | inl (u, x) ↦ (unavailable "the user identity is already being adopted", rw (x, busy) refl)
  | inr (e, x) ↦ (e, rw x refl)
]

both_false : (a b : Bool) → (a && (b && false)) ≡ false
both_false true true = refl
both_false true false = refl
both_false false b = refl

unmatched :
    {mine : ℕ} (k : Kernel) (previous : Context) (succeeded : Bool)
    → (succeeded ≡ false) ⊎ ((mine == next_context previous.generation) ≡ false)
    → k.context.generation ≡ mine
    → (succeeded
        && (k.context.adopting && (k.context.generation == next_context previous.generation)))
      ≡ false
unmatched k previous succeeded (inl e) same = rw e refl
unmatched k previous succeeded (inr e) same = rw (same, e) (both_false succeeded k.context.adopting)

Step-adopting :
    {mine : ℕ} {k l : Kernel}
    → Step mine k l
    → k.context ≡ record { generation = mine; adopting = true }
    → l ≡ k
unfolding begin_identity_adoption finish_identity_adoption
Step-adopting (begins k cleared) held =
    let busy : k.context.adopting ≡ true = ap (λ c. c.adopting) held in
    let (e, refusal) = may_begin-busy cleared k busy in rw (refusal, begin_identity_adoption) refl
Step-adopting (ends k previous succeeded other) held =
    rw (unmatched k previous succeeded other (ap (λ c. c.generation) held)) refl

Steps-adopting :
    {mine : ℕ} {k l : Kernel}
    → Steps mine k l
    → k.context ≡ record { generation = mine; adopting = true }
    → l ≡ k
Steps-adopting here held = refl
Steps-adopting (next before step) held =
    let same = Steps-adopting before held in
    Step-adopting step (ap (λ k. k.context) same ∙ held) ∙ same

begun :
    (k : Kernel) (cleared : Result Error (Unit {0})) (previous : Context)
    → (begin_identity_adoption cleared k).1 ≡ ok previous
    → (previous ≡ k.context)
      × ((begin_identity_adoption cleared k).0.context
          ≡ record { generation = next_context k.context.generation; adopting = true })
unfolding begin_identity_adoption
begun k cleared previous = elim (Result-cases (may_begin cleared k)) [
  | inr (e, refusal) ↦ rw (refusal, begin_identity_adoption) (λ went. absurd (ground arith))
  | inl (u, passed) ↦ rw (passed, begin_identity_adoption) (λ went. (sym (ok-inj went), refl))
]

-- From the begin of an adoption, whatever other tasks begin or end in between, the kernel stays as the
-- begin left it: what needs the identity is refused, and the end of this adoption, if it succeeded,
-- makes its generation the current one.
pub begin-finish :
    (k l : Kernel) (cleared : Result Error (Unit {0})) (previous : Context)
    → (begin_identity_adoption cleared k).1 ≡ ok previous
    → Steps (next_context previous.generation) ((begin_identity_adoption cleared k).0) l
    → (l ≡ (begin_identity_adoption cleared k).0)
      × ((e : Error) × (identity_open l ≡ err e))
      × ((finish_identity_adoption previous true l).context
          ≡ record { generation = next_context previous.generation; adopting = false })
unfolding identity_open finish_identity_adoption
begin-finish k l cleared previous went steps =
    let (was, now) = begun k cleared previous went in
    let mine = next_context previous.generation in
    let held : (begin_identity_adoption cleared k).0.context
        ≡ record { generation = mine; adopting = true } =
      now
      ∙ ap (λ c. record { generation = next_context c.generation; adopting = true }) (sym was) in
    let same = Steps-adopting steps held in
    let at_l : l.context ≡ record { generation = mine; adopting = true } =
      ap (λ k. k.context) same ∙ held in
    let busy : l.context.adopting ≡ true = ap (λ c. c.adopting) at_l in
    let gen : l.context.generation ≡ mine = ap (λ c. c.generation) at_l in
    let own : (mine == mine) ≡ true = ground arith in
    (same, closed l busy, rw (busy, gen, own) refl)
  where
    closed : (l : Kernel) → l.context.adopting ≡ true → (e : Error) × (identity_open l ≡ err e)
    closed l busy = elim (Result-cases (open_gate l)) [
      | inl (u, x) ↦ (unavailable "the user identity is being adopted", rw (x, busy) refl)
      | inr (e, x) ↦ (e, rw x refl)
    ]
