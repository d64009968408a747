-- ===== src/Meeting/Exchange/Quiet.antt =====
-- runtime/crates/kernel/src/meeting.rs: parts of an exchange that store no contact.
use Prim.Native.String.{String}
use polyvisor.Common.{
  ◌≡◌, refl, sym, ◌∙◌, ◌⊎◌, inl, inr, List, [], ◌∷◌, ◌++◌, Bool, true, false, Result, ok, err, ◌||◌,
}
use polyvisor.Runs.{waiting, broken, finished, ◌>>=◌, try, require, attempt}
use polyvisor.Meeting.Exchange.{Frame, Action, send, show, accept_contact, Steps}

module _ {Intro : Type 0} where
  -- The introductions that a run stores.
  unfoldable pub stores : List (Action Intro) → List Intro
  stores [] = []
  stores (send f ∷ t) = stores t
  stores (show p ∷ t) = stores t
  stores (accept_contact intro ∷ t) = intro ∷ stores t

  stores-append : (t u : List (Action Intro)) → stores t ≡ [] → stores (t ++ u) ≡ stores u
  unfolding stores
  stores-append [] u h = refl
  stores-append (send f ∷ t) u h = stores-append t u h
  stores-append (show p ∷ t) u h = stores-append t u h
  stores-append (accept_contact intro ∷ t) u h = cc

  -- Behind a part that stores nothing: the run stores nothing, or that part went through and the run
  -- stores what the rest stores.
  pub stores->>= :
      {A B : Type 0} (m : Steps Intro A) (f : A → Steps Intro B)
      → stores m.0 ≡ []
      → (stores (m >>= f).0 ≡ [])
        ⊎ ((a : A) × (m.1 ≡ finished a) × (stores (m >>= f).0 ≡ stores (f a).0))
  unfolding ◌>>=◌
  stores->>= (t, waiting) f h = inl h
  stores->>= (t, broken e) f h = inl h
  stores->>= (t, finished a) f h = inr (a, refl, stores-append t (f a).0 h)

  -- So a run that stores something went through that part.
  pub behind :
      {A B : Type 0} (m : Steps Intro A) (f : A → Steps Intro B) (intro : Intro) (rest : List Intro)
      → stores m.0 ≡ []
      → stores (m >>= f).0 ≡ intro ∷ rest
      → (a : A) × (m.1 ≡ finished a) × (stores (f a).0 ≡ intro ∷ rest)
  behind m f intro rest quiet h = elim (stores->>= m f quiet) [
    | inl e ↦ absurd (cc)
    | inr (a, went, same) ↦ (a, went, sym same ∙ h)
  ]

module _ {Intro : Type 0} where
  pub quiet_both :
      {A B : Type 0} (m : Steps Intro A) (f : A → Steps Intro B)
      → stores m.0 ≡ []
      → ((a : A) → stores (f a).0 ≡ [])
      → stores (m >>= f).0 ≡ []
  quiet_both m f first rest = elim (stores->>= m f first) [
    | inl e ↦ e
    | inr (a, went, same) ↦ same ∙ rest a
  ]

  pub both_finished :
      {A B : Type 0} (m : Steps Intro A) (f : A → Steps Intro B) {b : B}
      → (m >>= f).1 ≡ finished b
      → (a : A) × (m.1 ≡ finished a) × ((f a).1 ≡ finished b)
  unfolding ◌>>=◌
  both_finished (t, waiting) f h = cc
  both_finished (t, broken e) f h = cc
  both_finished (t, finished a) f h = (a, refl, h)

pub or_true : (b : Bool) → (b || true) ≡ true
or_true true = refl
or_true false = refl

module _ (Intro : Type 0) where
  pub attempt-eq-finished :
      (x : Action Intro) (r : Result String (Unit {0})) {a : Unit {0}}
      → (attempt x r).1 ≡ finished a
      → r ≡ ok tt
  unfolding attempt
  attempt-eq-finished x (ok a) h = refl
  attempt-eq-finished x (err e) h = cc

  pub stores-try : {A : Type 0} (r : Result String A) → stores (try {X = Action Intro} r).0 ≡ []
  unfolding stores try
  stores-try (ok a) = refl
  stores-try (err e) = refl

  pub stores-require : (b : Bool) (e : String) → stores (require {X = Action Intro} b e).0 ≡ []
  unfolding stores require
  stores-require true e = refl
  stores-require false e = refl

  pub stores-send :
      (f : Frame) (r : Result String (Unit {0}))
      → stores (attempt (let a : Action Intro = send f in a) r).0 ≡ []
  unfolding stores attempt
  stores-send f (ok a) = refl
  stores-send f (err e) = refl

  pub require-eq-finished :
      (b : Bool) (e : String) {u : Unit {0}}
      → (require {X = Action Intro} b e).1 ≡ finished u
      → b ≡ true
  unfolding require
  require-eq-finished true e h = refl
  require-eq-finished false e h = cc

  pub try-eq-finished :
      {A : Type 0} (r : Result String A) {a : A}
      → (try {X = Action Intro} r).1 ≡ finished a
      → r ≡ ok a
  unfolding try
  try-eq-finished (ok a) h = cc
  try-eq-finished (err e) h = cc
