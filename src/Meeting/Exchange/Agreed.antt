-- ===== src/Meeting/Exchange/Agreed.antt =====
-- runtime/crates/kernel/src/meeting.rs: what stands behind the contact that the common end stores.
use Prim.Native.String.{String}
use polyvisor.Common.{
  ℕ, ◌≡◌, refl, sym, ap, ◌∙◌, List, [], ◌∷◌, Option, none, some, Bool, true, false, Result, ok, err,
  length, ◌==◌, bytes_eq, bytes_eq→eq, if◌then◌else◌, ◌||◌,
}
use polyvisor.Runs.{Outcome, finished, ◌>>=◌, ◌>>◌, require, attempt}
use polyvisor.Meeting.{awaiting_confirm, awaiting_peer}
use polyvisor.Meeting.Exchange.{
  Frame, claim, accept, reveal, confirm, accepted, refused, cancel, Action, send, show,
  accept_contact, Steps, Wake, confirmed, frame, EndScript, Contacts, fixed32, on_frame,
  confirmations, confirm_and_persist, replaced, expect_accept, next_reveal,
}
use polyvisor.Meeting.Exchange.Quiet.{
  stores, behind, quiet_both, both_finished, or_true, attempt-eq-finished, stores-require,
  stores-send, require-eq-finished,
}

-- The user's confirmation was seen, and sent on, while the generation was current.
unfoldable pub user_confirmed : List (Wake × Bool × Result String (Unit {0})) → Bool
user_confirmed [] = false
user_confirmed ((confirmed, true, ok u) ∷ ws) = true
user_confirmed ((confirmed, true, err e) ∷ ws) = user_confirmed ws
user_confirmed ((confirmed, false, sent) ∷ ws) = user_confirmed ws
user_confirmed ((frame f, current, sent) ∷ ws) = user_confirmed ws

-- The peer's confirmation was seen while the generation was current.
unfoldable pub peer_confirmed : List (Wake × Bool × Result String (Unit {0})) → Bool
peer_confirmed [] = false
peer_confirmed ((confirmed, current, sent) ∷ ws) = peer_confirmed ws
peer_confirmed ((frame (some confirm), true, sent) ∷ ws) = true
peer_confirmed ((frame f, current, sent) ∷ ws) = peer_confirmed ws

module _ (Intro : Type 0) where
  stores-on_frame : (f : Option Frame) → stores (on_frame {Intro = Intro} f).0 ≡ []
  unfolding stores on_frame
  stores-on_frame none = refl
  stores-on_frame (some confirm) = refl
  stores-on_frame (some cancel) = refl
  stores-on_frame (some refused) = refl
  stores-on_frame (some accepted) = refl
  stores-on_frame (some (reveal n)) = refl
  stores-on_frame (some (accept k i c)) = refl
  stores-on_frame (some (claim t k i c)) = refl

  on_frame-eq-finished :
      (f : Option Frame) {u : Unit {0}}
      → (on_frame {Intro = Intro} f).1 ≡ finished u
      → f ≡ some confirm
  unfolding on_frame
  on_frame-eq-finished none h = cc
  on_frame-eq-finished (some confirm) h = refl
  on_frame-eq-finished (some cancel) h = cc
  on_frame-eq-finished (some refused) h = cc
  on_frame-eq-finished (some accepted) h = cc
  on_frame-eq-finished (some (reveal n)) h = cc
  on_frame-eq-finished (some (accept k i c)) h = cc
  on_frame-eq-finished (some (claim t k i c)) h = cc

  stores-confirmations :
      (ws : List (Wake × Bool × Result String (Unit {0}))) (here there : Bool)
      → stores (confirmations {Intro = Intro} ws here there).0 ≡ []
  unfolding confirmations stores ◌>>◌
  stores-confirmations ws true true = refl
  stores-confirmations [] true false = refl
  stores-confirmations [] false there = refl
  stores-confirmations ((confirmed, current, sent) ∷ ws) true false =
      stores-confirmations ws true false
  stores-confirmations ((confirmed, current, sent) ∷ ws) false there =
      quiet_both (require current replaced) _ (stores-require Intro current replaced) (λ u.
        quiet_both (attempt (send confirm) sent) _ (stores-send Intro confirm sent) (λ v.
          quiet_both (if there then [] else show awaiting_peer ∷ [], finished tt) _ (shows there)
            (λ w. stores-confirmations ws true there)))
    where
      shows :
          (there : Bool)
          → stores
              (if there then [] else (let l : List (Action Intro) = show awaiting_peer ∷ [] in l))
            ≡ []
      shows true = refl
      shows false = refl
  stores-confirmations ((frame f, current, sent) ∷ ws) true false =
      quiet_both (require current replaced) _ (stores-require Intro current replaced) (λ u.
        quiet_both (on_frame f) _ (stores-on_frame f) (λ v. stores-confirmations ws true true))
  stores-confirmations ((frame f, current, sent) ∷ ws) false there =
      quiet_both (require current replaced) _ (stores-require Intro current replaced) (λ u.
        quiet_both (on_frame f) _ (stores-on_frame f) (λ v. stores-confirmations ws false true))

  -- A loop that ends saw both confirmations.
  confirmations-eq-finished :
      (ws : List (Wake × Bool × Result String (Unit {0}))) (here there : Bool) {u : Unit {0}}
      → (confirmations {Intro = Intro} ws here there).1 ≡ finished u
      → ((here || user_confirmed ws) ≡ true) × ((there || peer_confirmed ws) ≡ true)
  unfolding confirmations user_confirmed peer_confirmed ◌>>◌
  confirmations-eq-finished ws true true h = (refl, refl)
  confirmations-eq-finished [] true false h = cc
  confirmations-eq-finished [] false there h = cc
  confirmations-eq-finished ((confirmed, current, sent) ∷ ws) true false h =
      confirmations-eq-finished ws true false h
  confirmations-eq-finished ((confirmed, current, sent) ∷ ws) false there h =
      let (u, now, next) = both_finished (require current replaced) _ h in
      let (v, went, next₂) = both_finished (attempt (send confirm) sent) _ next in
      let (w, showed, next₃) =
        both_finished (if there then [] else show awaiting_peer ∷ [], finished tt) _ next₂ in
      let (mine, theirs) = confirmations-eq-finished ws true there next₃ in
      rw (require-eq-finished Intro current replaced now)
        (rw (attempt-eq-finished Intro (send confirm) sent went) (refl, theirs))
  confirmations-eq-finished ((frame f, current, sent) ∷ ws) true false h =
      let (u, now, next) = both_finished (require current replaced) _ h in
      let (v, came, next₂) = both_finished (on_frame f) _ next in
      rw (require-eq-finished Intro current replaced now, on_frame-eq-finished f came) (refl, refl)
  confirmations-eq-finished ((frame f, current, sent) ∷ ws) false there h =
      let (u, now, next) = both_finished (require current replaced) _ h in
      let (v, came, next₂) = both_finished (on_frame f) _ next in
      let (mine, theirs) = confirmations-eq-finished ws false true next₂ in
      rw (require-eq-finished Intro current replaced now, on_frame-eq-finished f came)
        (mine, or_true there)

-- The review was shown, both sides confirmed, and the generation was current, before the contact
-- was stored.
unfoldable pub IsAgreed : EndScript → Type 0
IsAgreed s =
    (s.shown ≡ true)
    × (user_confirmed s.wakes ≡ true)
    × (peer_confirmed s.wakes ≡ true)
    × (s.current_before ≡ true)

module _ {Intro : Type 0} (contacts : Contacts Intro) where
  stored_one :
      {B : Type 0} (intro : Intro) (r : Result String String) (f : String → Steps Intro B)
      → ((a : String) → stores (f a).0 ≡ [])
      → stores (attempt (accept_contact intro) r >>= f).0 ≡ intro ∷ []
  unfolding stores attempt ◌>>=◌
  stored_one intro (ok a) f quiet = ap (λ l. intro ∷ l) (quiet a)
  stored_one intro (err e) f quiet = refl

  pub persisted :
      (s : EndScript) (generation digits : ℕ) (intro stored : Intro) (rest : List Intro)
      → stores (confirm_and_persist contacts s generation digits intro).0 ≡ stored ∷ rest
      → (stored ≡ intro) × (rest ≡ []) × IsAgreed s
  unfolding confirm_and_persist ◌>>◌ IsAgreed stores
  persisted s generation digits intro stored rest h =
      let (u, shown, h₂) =
        behind (show (awaiting_confirm _) ∷ [], finished tt) _ stored rest refl h in
      let (u₂, set, h₃) =
        behind (require s.shown replaced) _ stored rest (stores-require Intro s.shown replaced)
          h₂ in
      let (u₃, both, h₄) =
        behind (confirmations s.wakes false false) _ stored rest
          (stores-confirmations Intro s.wakes false false) h₃ in
      let (u₄, before, h₅) =
        behind (require s.current_before replaced) _ stored rest
          (stores-require Intro s.current_before replaced) h₄ in
      let (mine, theirs) = confirmations-eq-finished Intro s.wakes false false both in
      let one = stored_one intro s.stored _ (λ contact.
        quiet_both (require s.current_after replaced) _
          (stores-require Intro s.current_after replaced)
          (λ v. quiet_both (_, finished tt) _ refl (λ w. refl))) in
      let same = sym h₅ ∙ one in
      (
        cons_head same,
        cons_tail same,
        (
          require-eq-finished Intro s.shown replaced set,
          mine,
          theirs,
          require-eq-finished Intro s.current_before replaced before,
        ),
      )
    where
      cons_head : {a b : Intro} {l k : List Intro} → a ∷ l ≡ b ∷ k → a ≡ b
      cons_head e = cc

      cons_tail : {a b : Intro} {l k : List Intro} → a ∷ l ≡ b ∷ k → l ≡ k
      cons_tail e = cc

  pub stores-fixed32 :
      (bytes : List ℕ) (malformed : String)
      → stores (fixed32 {Intro = Intro} bytes malformed).0 ≡ []
  unfolding fixed32 ◌>>◌ stores
  stores-fixed32 bytes malformed =
      quiet_both (require (length bytes == 32) malformed) _ (stores-require Intro _ malformed)
        (λ u. refl)

  pub fixed32-eq-finished :
      (bytes : List ℕ) (malformed : String) {a : List ℕ}
      → (fixed32 {Intro = Intro} bytes malformed).1 ≡ finished a
      → bytes ≡ a
  unfolding fixed32 ◌>>◌
  fixed32-eq-finished bytes malformed h =
      let (u, full, next) = both_finished (require (length bytes == 32) malformed) _ h in
      finished-inj next
    where
      finished-inj :
          {a b : List ℕ} → (let o : Outcome String (List ℕ) = finished a in o) ≡ finished b → a ≡ b
      finished-inj e = cc

  pub stores-next_reveal : (f : Option Frame) → stores (next_reveal {Intro = Intro} f).0 ≡ []
  unfolding next_reveal stores
  stores-next_reveal none = refl
  stores-next_reveal (some (reveal n)) = stores-fixed32 n _
  stores-next_reveal (some confirm) = refl
  stores-next_reveal (some cancel) = refl
  stores-next_reveal (some refused) = refl
  stores-next_reveal (some accepted) = refl
  stores-next_reveal (some (accept k i c)) = refl
  stores-next_reveal (some (claim t k i c)) = refl

  pub next_reveal-eq-finished :
      (f : Option Frame) {a : List ℕ}
      → (next_reveal {Intro = Intro} f).1 ≡ finished a
      → f ≡ some (reveal a)
  unfolding next_reveal
  next_reveal-eq-finished none h = cc
  next_reveal-eq-finished (some (reveal n)) h =
      ap (λ k. some (reveal k)) (fixed32-eq-finished n _ h)
  next_reveal-eq-finished (some confirm) h = cc
  next_reveal-eq-finished (some cancel) h = cc
  next_reveal-eq-finished (some refused) h = cc
  next_reveal-eq-finished (some accepted) h = cc
  next_reveal-eq-finished (some (accept k i c)) h = cc
  next_reveal-eq-finished (some (claim t k i c)) h = cc

  pub stores-expect_accept :
      (key : List ℕ) (f : Option Frame) → stores (expect_accept {Intro = Intro} key f).0 ≡ []
  unfolding expect_accept stores ◌>>◌
  stores-expect_accept key none = refl
  stores-expect_accept key (some (accept k i c)) =
      quiet_both (require (bytes_eq k key) _) _ (stores-require Intro _ _)
        (λ u. quiet_both (fixed32 c _) _ (stores-fixed32 c _) (λ v. refl))
  stores-expect_accept key (some confirm) = refl
  stores-expect_accept key (some cancel) = refl
  stores-expect_accept key (some refused) = refl
  stores-expect_accept key (some accepted) = refl
  stores-expect_accept key (some (reveal n)) = refl
  stores-expect_accept key (some (claim t k i c)) = refl

  pub expect_accept-eq-finished :
      (key : List ℕ) (f : Option Frame) {i c : List ℕ}
      → (expect_accept {Intro = Intro} key f).1 ≡ finished (i, c)
      → f ≡ some (accept key i c)
  unfolding expect_accept ◌>>◌
  expect_accept-eq-finished key none h = cc
  expect_accept-eq-finished key (some (accept k i c)) h =
      let (u, same, next) = both_finished (require (bytes_eq k key) _) _ h in
      let (fixed, full, last) = both_finished (fixed32 c _) _ next in
      let is = bytes_eq→eq k key (require-eq-finished Intro _ _ same) in
      let commit = fixed32-eq-finished c _ full in cc
  expect_accept-eq-finished key (some confirm) h = cc
  expect_accept-eq-finished key (some cancel) h = cc
  expect_accept-eq-finished key (some refused) h = cc
  expect_accept-eq-finished key (some accepted) h = cc
  expect_accept-eq-finished key (some (reveal n)) h = cc
  expect_accept-eq-finished key (some (claim t k i c)) h = cc
