-- ===== src/Pairing/Ceremony/Quiet.antt =====
-- runtime/crates/kernel/src/pairing.rs: the parts of a ceremony that neither add a member nor adopt
-- a group.
use Prim.Native.String.{String}
use polyvisor.Common.{
  ℕ, ◌≡◌, refl, sym, ◌∙◌, inl, inr, List, [], ◌∷◌, ◌++◌, Option, none, some, Bool, true, false,
  Result, ok, err, Bool-cases, length, ◌==◌, bytes_eq,
}
use polyvisor.Pairing.Ceremony.{
  Frame, accept, reveal, confirm_join, enroll, cancel, Action, send, show, add_member, adopt,
  pending, fail, done, Run, ◌>>=◌, try, send_frame, require, Wake, confirmed, frame, confirmations,
  expect_accept, expect_reveal, expect_confirmed, expect_enroll, nonce32,
}

-- No member is added and no group adopted.
unfoldable pub quiet : List Action → Bool
quiet [] = true
quiet (send f ∷ t) = quiet t
quiet (show p ∷ t) = quiet t
quiet (add_member k n ∷ t) = false
quiet (adopt e ∷ t) = false

pub quiet-append : (t u : List Action) → quiet t ≡ true → quiet (t ++ u) ≡ quiet u
unfolding quiet
quiet-append [] u h = refl
quiet-append (send f ∷ t) u h = quiet-append t u h
quiet-append (show p ∷ t) u h = quiet-append t u h
quiet-append (add_member k n ∷ t) u h = cc
quiet-append (adopt e ∷ t) u h = cc

-- A grant in a run comes from behind a first part that has none, and then that part went through.
pub behind {ℓ κ} :
    {A : Type ℓ} {B : Type κ} (m : Run A) (f : A → Run B)
    → quiet m.0 ≡ true
    → quiet (m >>= f).0 ≡ false
    → (a : A) × (m.1 ≡ done a) × (quiet (f a).0 ≡ false)
unfolding ◌>>=◌
behind (t, pending) f q h = cc
behind (t, fail e) f q h = cc
behind (t, done a) f q h = (a, refl, sym (quiet-append t (f a).0 q) ∙ h)

-- Both sides quiet, then the whole is.
pub quiet_both {ℓ κ} :
    {A : Type ℓ} {B : Type κ} (m : Run A) (f : A → Run B)
    → quiet m.0 ≡ true
    → ((a : A) → quiet (f a).0 ≡ true)
    → quiet (m >>= f).0 ≡ true
unfolding ◌>>=◌
quiet_both (t, pending) f q h = q
quiet_both (t, fail e) f q h = q
quiet_both (t, done a) f q h = quiet-append t (f a).0 q ∙ h a

pub try-quiet {ℓ} : {A : Type ℓ} (r : Result String A) → quiet (try r).0 ≡ true
unfolding quiet
try-quiet (ok a) = refl
try-quiet (err e) = refl

pub send-quiet : (f : Frame) (r : Result String (Unit {0})) → quiet (send_frame f r).0 ≡ true
unfolding quiet
send-quiet f (ok u) = refl
send-quiet f (err e) = refl

pub require-quiet : (b : Bool) (e : String) → quiet (require b e).0 ≡ true
unfolding quiet
require-quiet true e = refl
require-quiet false e = refl

pub nonce32-quiet : (n : List ℕ) → quiet (nonce32 n).0 ≡ true
unfolding quiet
nonce32-quiet n = elim (Bool-cases (length n == 32)) [ inl e ↦ rw e | inr e ↦ rw e ]

pub confirmations-quiet :
    (ws : List Wake) (here there : Bool) → quiet (confirmations ws here there).0 ≡ true
unfolding confirmations quiet
confirmations-quiet [] true true = refl
confirmations-quiet [] true false = refl
confirmations-quiet [] false true = refl
confirmations-quiet [] false false = refl
confirmations-quiet (w ∷ ws) true true = refl
confirmations-quiet (confirmed ∷ ws) false true = confirmations-quiet ws true true
confirmations-quiet (confirmed ∷ ws) false false = confirmations-quiet ws true false
confirmations-quiet (confirmed ∷ ws) true false = confirmations-quiet ws true false
confirmations-quiet (frame (some confirm_join) ∷ ws) true false = confirmations-quiet ws true true
confirmations-quiet (frame (some confirm_join) ∷ ws) false true = confirmations-quiet ws false true
confirmations-quiet (frame (some confirm_join) ∷ ws) false false = confirmations-quiet ws false true
confirmations-quiet (frame f ∷ ws) here there = refl

pub expect_accept-quiet :
    (joiner_key : List ℕ) (f : Option Frame) → quiet (expect_accept joiner_key f).0 ≡ true
unfolding expect_accept quiet
expect_accept-quiet joiner_key (some (accept nonce key petname card)) =
    quiet_both (require (bytes_eq key joiner_key) "that device answered for a different key") _
      (require-quiet _ _) (λ _. quiet_both (nonce32 nonce) _ (nonce32-quiet nonce) (λ n. refl))
expect_accept-quiet joiner_key none = refl
expect_accept-quiet joiner_key (some f) = refl

pub expect_reveal-quiet : (f : Option Frame) → quiet (expect_reveal f).0 ≡ true
unfolding expect_reveal quiet
expect_reveal-quiet (some (reveal nonce)) = nonce32-quiet nonce
expect_reveal-quiet none = refl
expect_reveal-quiet (some f) = refl

pub expect_confirmed-quiet : (w : Wake) → quiet (expect_confirmed w).0 ≡ true
unfolding expect_confirmed quiet
expect_confirmed-quiet confirmed = refl
expect_confirmed-quiet (frame none) = refl
expect_confirmed-quiet (frame (some cancel)) = refl
expect_confirmed-quiet (frame (some f)) = refl

pub expect_enroll-quiet : (f : Option Frame) → quiet (expect_enroll f).0 ≡ true
unfolding expect_enroll quiet
expect_enroll-quiet (some (enroll payload)) = refl
expect_enroll-quiet none = refl
expect_enroll-quiet (some f) = refl
