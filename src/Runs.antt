-- ===== src/Runs.antt =====
-- A program over the answers of its awaits: the actions that it takes, in order, and its outcome.
use polyvisor.Common.{List, [], ◌∷◌, ◌++◌, Bool, true, false, Result, ok, err}

-- `waiting`: an await has no answer.
pub data Outcome {ℓ κ} (E : Type ℓ) (A : Type κ) : Type (ℓ ⊔ κ) where
  waiting : Outcome E A
  broken : E → Outcome E A
  finished : A → Outcome E A

abbrev pub Run {ℓ κ μ} : Type ℓ → Type κ → Type μ → Type (ℓ ⊔ κ ⊔ μ)
Run X E A = List X × Outcome E A

infixl 5 ◌>>=◌ ◌>>◌
unfoldable pub ◌>>=◌ {ℓ κ μ ν} :
    {X : Type ℓ} {E : Type κ} {A : Type μ} {B : Type ν} → Run X E A → (A → Run X E B) → Run X E B
◌>>=◌ (t, waiting) f = (t, waiting)
◌>>=◌ (t, broken e) f = (t, broken e)
◌>>=◌ (t, finished a) f = (t ++ (f a).0, (f a).1)

unfoldable pub ◌>>◌ {ℓ κ ν} :
    {X : Type ℓ} {E : Type κ} {B : Type ν} → Run X E (Unit {0}) → Run X E B → Run X E B
m >> k = m >>= λ u. k

abbrev pub return {ℓ κ μ} : {X : Type ℓ} {E : Type κ} {A : Type μ} → A → Run X E A
return a = ([], finished a)

-- `return Err(e)`.
abbrev pub failing {ℓ κ μ} : {X : Type ℓ} {E : Type κ} {A : Type μ} → E → Run X E A
failing e = ([], broken e)

-- `?`.
unfoldable pub try {ℓ κ μ} : {X : Type ℓ} {E : Type κ} {A : Type μ} → Result E A → Run X E A
try (ok a) = ([], finished a)
try (err e) = ([], broken e)

unfoldable pub require {ℓ κ} : {X : Type ℓ} {E : Type κ} → Bool → E → Run X E (Unit {0})
require true e = ([], finished tt)
require false e = ([], broken e)

-- An action whose await reports a result.
unfoldable pub attempt {ℓ κ μ} : {X : Type ℓ} {E : Type κ} {A : Type μ} → X → Result E A → Run X E A
attempt x (ok a) = (x ∷ [], finished a)
attempt x (err e) = (x ∷ [], broken e)
