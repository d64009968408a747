-- ===== src/Meeting/Exchange/Guarded.antt =====
-- runtime/crates/kernel/src/meeting.rs: what stands behind a contact that an exchange stores.
use polyvisor.Common.{
  ℕ, ◌≡◌, sym, ap, ◌∙◌, List, [], ◌∷◌, some, true, ok, length, ◌==◌, bytes_eq, bytes_eq→eq,
}
use polyvisor.Runs.{◌>>◌, try, require, attempt}
use polyvisor.Meeting.Exchange.{
  claim, accept, reveal, send, Contacts, fixed32, expect_accept, next_reveal, GuestScript,
  HostScript, run_guest, run_claimed,
}
use polyvisor.Meeting.Exchange.Quiet.{
  stores, behind, stores-try, stores-require, stores-send, require-eq-finished, try-eq-finished,
}
use polyvisor.Meeting.Exchange.Agreed.{
  IsAgreed, persisted, stores-fixed32, fixed32-eq-finished, stores-next_reveal,
  next_reveal-eq-finished, stores-expect_accept, expect_accept-eq-finished,
}

module _ {Intro : Type 0} (contacts : Contacts Intro) (blake3 : List ℕ → List ℕ)
    (generation : ℕ) where
  -- A contact that the guest stores is the only one, and is what its check made of the introduction
  -- in an acceptance under the dialled key, whose commitment is that of the nonce that the host then
  -- revealed. The review was shown, both people confirmed, and the generation was current.
  pub run_guest_guarded :
      (s : GuestScript) (host_key token guest_bytes : List ℕ) (stored : Intro) (rest : List Intro)
      → stores (run_guest contacts blake3 generation s host_key token guest_bytes).0 ≡ stored ∷ rest
      → (host_bytes : List ℕ) × (host_nonce : List ℕ) × (s.answered
          ≡ some (accept host_key host_bytes (blake3 host_nonce)))
        × (s.revealed ≡ some (reveal host_nonce))
        × (contacts.validate host_bytes ≡ ok stored)
        × (rest ≡ [])
        × IsAgreed s.last
  unfolding run_guest ◌>>◌
  run_guest_guarded s host_key token guest_bytes stored rest h =
      let (u, bound, h₂) = behind (try s.bound) _ stored rest (stores-try Intro s.bound) h in
      let (guest_key, own, h₃) =
        behind (try s.own_key) _ stored rest (stores-try Intro s.own_key) h₂ in
      let (u₃, sent, h₄) =
        behind (attempt (send (claim token guest_key guest_bytes (blake3 s.nonce))) s.sent_claim) _
          stored rest (stores-send Intro _ s.sent_claim) h₃ in
      let ((host_bytes, commit), came, h₅) =
        behind (expect_accept host_key s.answered) _ stored rest
          (stores-expect_accept contacts host_key s.answered) h₄ in
      let (intro, valid, h₆) =
        behind (try (contacts.validate host_bytes)) _ stored rest
          (stores-try Intro (contacts.validate host_bytes)) h₅ in
      let (u₆, revealed, h₇) =
        behind (attempt (send (reveal s.nonce)) s.sent_reveal) _ stored rest
          (stores-send Intro _ s.sent_reveal) h₆ in
      let (nonce, theirs, h₈) =
        behind (next_reveal s.revealed) _ stored rest (stores-next_reveal contacts s.revealed) h₇ in
      let (u₈, matches, h₉) =
        behind
          (require (bytes_eq (blake3 nonce) commit)
            "that device's nonce did not match its commitment")
          _ stored rest (stores-require Intro _ _) h₈ in
      let (same, alone, agreed) = persisted contacts s.last generation _ intro stored rest h₉ in
      let fits : blake3 nonce ≡ commit =
        bytes_eq→eq (blake3 nonce) commit (require-eq-finished Intro _ _ matches) in
      (
        host_bytes,
        nonce,
        expect_accept-eq-finished contacts host_key s.answered came
            ∙ ap (λ c. some (accept host_key host_bytes c)) (sym fits),
        next_reveal-eq-finished contacts s.revealed theirs,
        try-eq-finished Intro (contacts.validate host_bytes) valid ∙ ap ok (sym same),
        alone,
        agreed,
      )

  -- A contact that the host stores is the only one, and is what its check made of the introduction in
  -- the claim, whose commitment is that of the nonce that the guest then revealed; the claim's token
  -- has 16 bytes. The review was shown, both people confirmed, and the generation was current.
  pub run_claimed_guarded :
      (s : HostScript) (guest_key token guest_bytes commit host_bytes : List ℕ) (stored : Intro)
      (rest : List Intro)
      → stores
          (run_claimed contacts blake3 generation s guest_key token guest_bytes commit host_bytes).0
        ≡ stored ∷ rest
      → (guest_nonce : List ℕ) × ((length token == 16) ≡ true)
        × (commit ≡ blake3 guest_nonce)
        × (s.revealed ≡ some (reveal guest_nonce))
        × (contacts.validate guest_bytes ≡ ok stored)
        × (rest ≡ [])
        × IsAgreed s.last
  unfolding run_claimed ◌>>◌
  run_claimed_guarded s guest_key token guest_bytes commit host_bytes stored rest h =
      let (u, sized, h₂) =
        behind (require (length token == 16) "that meeting token is malformed") _ stored rest
          (stores-require Intro _ _) h in
      let (fixed, full, h₃) =
        behind (fixed32 commit "that device sent a malformed commitment") _ stored rest
          (stores-fixed32 contacts commit _) h₂ in
      let (intro, valid, h₄) =
        behind (try (contacts.validate guest_bytes)) _ stored rest
          (stores-try Intro (contacts.validate guest_bytes)) h₃ in
      let (host_key, own, h₅) =
        behind (try s.own_key) _ stored rest (stores-try Intro s.own_key) h₄ in
      let (u₅, bound, h₆) = behind (try s.bound) _ stored rest (stores-try Intro s.bound) h₅ in
      let (u₆, sent, h₇) =
        behind (attempt (send (accept host_key host_bytes (blake3 s.nonce))) s.sent_accept) _ stored
          rest (stores-send Intro _ s.sent_accept) h₆ in
      let (nonce, theirs, h₈) =
        behind (next_reveal s.revealed) _ stored rest (stores-next_reveal contacts s.revealed) h₇ in
      let (u₈, matches, h₉) =
        behind
          (require (bytes_eq (blake3 nonce) fixed)
            "that device's nonce did not match its commitment")
          _ stored rest (stores-require Intro _ _) h₈ in
      let (u₉, revealed, last) =
        behind (attempt (send (reveal s.nonce)) s.sent_reveal) _ stored rest
          (stores-send Intro _ s.sent_reveal) h₉ in
      let (same, alone, agreed) = persisted contacts s.last generation _ intro stored rest last in
      let fits : blake3 nonce ≡ fixed =
        bytes_eq→eq (blake3 nonce) fixed (require-eq-finished Intro _ _ matches) in
      (
        nonce,
        require-eq-finished Intro _ _ sized,
        fixed32-eq-finished contacts commit _ full ∙ sym fits,
        next_reveal-eq-finished contacts s.revealed theirs,
        try-eq-finished Intro (contacts.validate guest_bytes) valid ∙ ap ok (sym same),
        alone,
        agreed,
      )
