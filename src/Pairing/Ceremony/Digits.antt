-- ===== src/Pairing/Ceremony/Digits.antt =====
-- runtime/crates/kernel/src/pairing.rs: the digits that the two sides show.
use Prim.Native.String.{String}
use polyvisor.Common.{
  ℕ, ◌≡◌, refl, sym, ap, ap₂, ◌∙◌, inl, inr, List, [], ◌∷◌, ◌++◌, some, Bool, true, false, Result,
  ok, err, length, ◌==◌, bytes_eq, Bool-cases, arith,
}
use polyvisor.Pairing.{Phase, awaiting_confirm}
use polyvisor.Pairing.Ceremony.{
  Frame, claim, accept, reveal, Action, send, show, add_member, adopt, pending, fail, done, Run,
  ◌>>=◌, ◌>>◌, try, send_frame, perform, require, return, nonce32, sas, AdderScript, JoinerScript,
  expect_accept, expect_reveal, adder_handshake, joiner_handshake,
}

-- The phases that a run shows.
unfoldable pub shown : List Action → List Phase
shown [] = []
shown (send f ∷ t) = shown t
shown (show p ∷ t) = p ∷ shown t
shown (add_member k n ∷ t) = shown t
shown (adopt e ∷ t) = shown t

shown-append : (t u : List Action) → shown t ≡ [] → shown (t ++ u) ≡ shown u
unfolding shown
shown-append [] u h = refl
shown-append (send f ∷ t) u h = shown-append t u h
shown-append (show p ∷ t) u h = cc
shown-append (add_member k n ∷ t) u h = shown-append t u h
shown-append (adopt e ∷ t) u h = shown-append t u h

-- What a run shows behind a first part that is through and shows nothing.
shown_behind {ℓ κ} :
    {A : Type ℓ} {B : Type κ} (m : Run A) (f : A → Run B) (a : A)
    → m.1 ≡ done a
    → shown m.0 ≡ []
    → shown (m >>= f).0 ≡ shown (f a).0
unfolding ◌>>=◌
shown_behind (t, pending) f a h q = cc
shown_behind (t, fail e) f a h q = cc
shown_behind (t, done b) f a h q =
    let same : b ≡ a = cc in shown-append t (f b).0 q ∙ ap (λ x. shown (f x).0) same

-- A first part that is through, from a whole that is.
through {ℓ κ} :
    {A : Type ℓ} {B : Type κ} (m : Run A) (f : A → Run B) {b : B}
    → (m >>= f).1 ≡ done b
    → (a : A) × (m.1 ≡ done a) × ((f a).1 ≡ done b)
unfolding ◌>>=◌
through (t, pending) f h = absurd (cc)
through (t, fail e) f h = absurd (cc)
through (t, done a) f h = (a, refl, h)

try-shown {ℓ} : {A : Type ℓ} (r : Result String A) → shown (try r).0 ≡ []
unfolding shown
try-shown (ok a) = refl
try-shown (err e) = refl

send-shown : (f : Frame) (r : Result String (Unit {0})) → shown (send_frame f r).0 ≡ []
unfolding shown
send-shown f (ok u) = refl
send-shown f (err e) = refl

require-shown : (b : Bool) (e : String) → shown (require b e).0 ≡ []
unfolding shown
require-shown true e = refl
require-shown false e = refl

nonce32-shown : (n : List ℕ) → shown (nonce32 n).0 ≡ []
unfolding shown
nonce32-shown n = elim (Bool-cases (length n == 32)) [ inl e ↦ rw e refl | inr e ↦ rw e refl ]

nonce32-done : (n : List ℕ) {m : List ℕ} → (nonce32 n).1 ≡ done m → m ≡ n
nonce32-done n h = elim (Bool-cases (length n == 32)) [
  | inl e ↦ ground (arith, e)
  | inr e ↦ absurd (ground (arith, e))
]

accept-nonce :
    (key : List ℕ) (nonce wire : List ℕ) (petname : String) (card : List ℕ)
    {r : List ℕ × String × List ℕ}
    → (expect_accept key (some (accept nonce wire petname card))).1 ≡ done r
    → r.0 ≡ nonce
unfolding expect_accept ◌>>=◌
accept-nonce key nonce wire petname card h = ground arith

accept-shown :
    (key : List ℕ) (nonce wire : List ℕ) (petname : String) (card : List ℕ)
    → shown (expect_accept key (some (accept nonce wire petname card))).0 ≡ []
unfolding expect_accept ◌>>=◌ shown
accept-shown key nonce wire petname card = ground arith

try-ok {ℓ} : {A : Type ℓ} (r : Result String A) {a : A} → (try r).1 ≡ done a → r ≡ ok a
try-ok (ok a) h = cc
try-ok (err e) h = absurd (cc)

perform-shown {ℓ} :
    {A : Type ℓ} (p : Phase) (x : A) → shown (perform (show p) >> return x).0 ≡ p ∷ []
unfolding shown ◌>>=◌
perform-shown p x = refl

module _ (blake3 : List ℕ → List ℕ) (s : AdderScript) (joiner_key token : List ℕ) where
  adder-shown :
      (nonce wire card key : List ℕ) (petname p : String)
      → s.accepted ≡ some (accept nonce wire petname card)
      → s.adder_key ≡ ok key
      → (adder_handshake blake3 s joiner_key token).1 ≡ done p
      → shown (adder_handshake blake3 s joiner_key token).0
        ≡ awaiting_confirm (sas blake3 token joiner_key key nonce s.nonce_a) ∷ []
  unfolding adder_handshake
  adder-shown nonce wire card key petname p a k h =
      let (_, b, h1) = through (try s.bound) _ h in
      let (_, c, h2) = through (send_frame (claim token (blake3 s.nonce_a)) s.sent_claim) _ h1 in
      let (r, d, h3) = through (expect_accept joiner_key s.accepted) _ h2 in
      let (_, e, h4) = through (send_frame (reveal s.nonce_a) s.sent_reveal) _ h3 in
      let (own, g, h5) = through (try s.adder_key) _ h4 in
      let same_nonce : r.0 ≡ nonce =
        accept-nonce joiner_key nonce wire petname card
          (ap (λ f. (expect_accept joiner_key f).1) (sym a) ∙ d) in
      let same_key : own ≡ key = cc (try-ok s.adder_key g, k) in
      let silent : shown (expect_accept joiner_key s.accepted).0 ≡ [] =
        ap (λ f. shown (expect_accept joiner_key f).0) a
        ∙ accept-shown joiner_key nonce wire petname card in
      shown_behind (try s.bound) _ _ b (try-shown s.bound)
      ∙ (shown_behind (send_frame (claim token (blake3 s.nonce_a)) s.sent_claim) _ _ c
            (send-shown _ _)
          ∙ (shown_behind (expect_accept joiner_key s.accepted) _ r d silent
              ∙ (shown_behind (send_frame (reveal s.nonce_a) s.sent_reveal) _ _ e (send-shown _ _)
                  ∙ (shown_behind (try s.adder_key) _ own g (try-shown s.adder_key)
                      ∙ (perform-shown
                            (awaiting_confirm (sas blake3 token joiner_key own r.0 s.nonce_a)) r.1
                          ∙ ap₂
                              (λ x y.
                                awaiting_confirm (sas blake3 token joiner_key x y s.nonce_a) ∷ [])
                              same_key same_nonce)))))

reveal-nonce :
    (nonce : List ℕ) {n : List ℕ} → (expect_reveal (some (reveal nonce))).1 ≡ done n → n ≡ nonce
unfolding expect_reveal
reveal-nonce nonce h = nonce32-done nonce h

reveal-shown : (nonce : List ℕ) → shown (expect_reveal (some (reveal nonce))).0 ≡ []
unfolding expect_reveal
reveal-shown nonce = nonce32-shown nonce

module _ (blake3 : List ℕ → List ℕ) (s : JoinerScript) (adder_key token commit : List ℕ) where
  joiner-shown :
      (nonce key : List ℕ)
      → s.revealed ≡ some (reveal nonce)
      → s.joiner_key ≡ ok key
      → (joiner_handshake blake3 s adder_key token commit).1 ≡ done tt
      → shown (joiner_handshake blake3 s adder_key token commit).0
        ≡ awaiting_confirm (sas blake3 token key adder_key s.nonce_j nonce) ∷ []
  unfolding joiner_handshake shown
  joiner-shown nonce key a k h =
      let (_, b, h1) = through (try s.bound) _ h in
      let (_, c, h2) =
        through (require (length token == 16) "that code's token is malformed") _ h1 in
      let (own, d, h3) = through (try s.joiner_key) _ h2 in
      let (card, e, h4) = through (try s.card) _ h3 in
      let (_, g, h5) =
        through (send_frame (accept s.nonce_j own s.petname card) s.sent_accept) _ h4 in
      let (n, i, h6) = through (expect_reveal s.revealed) _ h5 in
      let (_, j, h7) =
        through
          (require (bytes_eq (blake3 n) commit)
            "that device's nonce did not match what it committed to")
          _ h6 in
      let same_nonce : n ≡ nonce = reveal-nonce nonce (ap (λ f. (expect_reveal f).1) (sym a) ∙ i) in
      let same_key : own ≡ key = cc (try-ok s.joiner_key d, k) in
      let silent : shown (expect_reveal s.revealed).0 ≡ [] =
        ap (λ f. shown (expect_reveal f).0) a ∙ reveal-shown nonce in
      shown_behind (try s.bound) _ _ b (try-shown s.bound)
      ∙ (shown_behind (require (length token == 16) "that code's token is malformed") _ _ c
            (require-shown _ _)
          ∙ (shown_behind (try s.joiner_key) _ own d (try-shown s.joiner_key)
              ∙ (shown_behind (try s.card) _ card e (try-shown s.card)
                  ∙ (shown_behind (send_frame (accept s.nonce_j own s.petname card) s.sent_accept) _
                        _ g (send-shown _ _)
                      ∙ (shown_behind (expect_reveal s.revealed) _ n i silent
                          ∙ (shown_behind
                                (require (bytes_eq (blake3 n) commit)
                                  "that device's nonce did not match what it committed to")
                                _ _ j (require-shown _ _)
                              ∙ ap₂
                                  (λ x y.
                                    awaiting_confirm (sas blake3 token x adder_key s.nonce_j y)
                                    ∷ [])
                                  same_key same_nonce))))))

-- When each side received what the other sent, and both handshakes went through, the two devices
-- show the same digits and nothing else.
pub handshake-digits :
    (blake3 : List ℕ → List ℕ) (a : AdderScript) (j : JoinerScript)
    (joiner_key adder_key token card : List ℕ) (petname : String)
    → a.adder_key ≡ ok adder_key
    → j.joiner_key ≡ ok joiner_key
    → a.accepted ≡ some (accept j.nonce_j joiner_key j.petname card)
    → j.revealed ≡ some (reveal a.nonce_a)
    → (adder_handshake blake3 a joiner_key token).1 ≡ done petname
    → (joiner_handshake blake3 j adder_key token (blake3 a.nonce_a)).1 ≡ done tt
    → (digits : ℕ) × (shown (adder_handshake blake3 a joiner_key token).0
        ≡ awaiting_confirm digits ∷ [])
      × (shown (joiner_handshake blake3 j adder_key token (blake3 a.nonce_a)).0
          ≡ awaiting_confirm digits ∷ [])
handshake-digits blake3 a j joiner_key adder_key token card petname ak jk accepted revealed h k = (
  sas blake3 token joiner_key adder_key j.nonce_j a.nonce_a,
  adder-shown blake3 a joiner_key token j.nonce_j joiner_key card adder_key j.petname petname
      accepted ak h,
  joiner-shown blake3 j adder_key token (blake3 a.nonce_a) a.nonce_a joiner_key revealed jk k,
)
