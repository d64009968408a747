-- ===== src/RootTransfer/Receiving/Custody.antt =====
-- runtime/crates/kernel/src/root_transfer.rs: what a transfer does to the recipient's custody.
use polyvisor.Common.{
  ℕ, ◌+◌, ◌≡◌, sym, ap, ◌∙◌, inl, inr, List, Option, none, some, true, ok, bytes_eq, bytes_eq→eq,
  arith, Result-cases, >>=-eq-ok, >>-eq-ok,
}
use polyvisor.RootTransfer.{
  Frame, transfer, persisted, received, declined, Identity, Context, World, context_is,
  require_same_identity, require_current_member, replace_root_seed,
}
use polyvisor.RootTransfer.Persist.{
  checkpoint_durable, at_snapshot, LeavesSeed, checkpoint_durable-ok, checkpoint_durable-LeavesSeed,
  at_snapshot-LeavesSeed,
}
use polyvisor.RootTransfer.Receiving.{
  Script, as_transfer, verify, examine, roll_back, announce, settle, install, receive_root_transfer,
}

require_same_identity→eq :
    (a b : Identity) {u : Unit {0}}
    → require_same_identity a b ≡ ok u
    → (a.root ≡ b.root) × (a.group ≡ b.group)
unfolding require_same_identity
require_same_identity→eq a b h =
    (bytes_eq→eq a.root b.root (ground arith), bytes_eq→eq a.group b.group (ground arith))

-- A seed that passes: the sender is a member at both ends of the wait, nothing of the identity
-- moved, and the seed is the private half of this user's root.
pub record Examined (public : List ℕ → List ℕ) (s : Script) (sender : List ℕ) (context : Context)
    (w : World) (seed : List ℕ) : Type 0 where
  pub before : Identity
  pub identity : Identity
  pub was : s.before ≡ ok before
  pub is : s.after ≡ ok identity
  pub sent : s.frame ≡ ok (some (transfer identity.root identity.group seed))
  pub member_before : require_current_member s.members_before sender ≡ ok tt
  pub member_after : require_current_member s.members_after sender ≡ ok tt
  pub same_context : context_is (s.during_receive w).context context ≡ true
  pub same_root : before.root ≡ identity.root
  pub same_group : before.group ≡ identity.group
  pub private_half : public seed ≡ identity.root

as_transfer-eq-ok :
    (f : Option Frame) (p : List ℕ × List ℕ × List ℕ)
    → as_transfer f ≡ ok p
    → f ≡ some (transfer p.0 p.1 p.2)
unfolding as_transfer
as_transfer-eq-ok (some (transfer root group seed)) p h = ground arith
as_transfer-eq-ok (some persisted) p h = absurd (ground arith)
as_transfer-eq-ok (some received) p h = absurd (ground arith)
as_transfer-eq-ok (some declined) p h = absurd (ground arith)
as_transfer-eq-ok none p h = absurd (ground arith)

-- The seed as it is put in place, before the write.
abbrev pub installed : Script → World → List ℕ → World
installed s w seed = record (s.during_receive w) { root_seed = some seed }

module _ (public : List ℕ → List ℕ) (s : Script) (sender : List ℕ) where
  verify-ok :
      (context : Context) (w : World) (before : Identity) (root group k seed : List ℕ)
      → verify public s sender context w before root group k ≡ ok seed
      → (require_current_member s.members_after sender ≡ ok tt)
        × (context_is (s.during_receive w).context context ≡ true)
        × ((identity : Identity) × (s.after ≡ ok identity)
            × (require_same_identity before identity ≡ ok tt)
            × (bytes_eq root identity.root ≡ true)
            × (bytes_eq group identity.group ≡ true)
            × (bytes_eq (public k) root ≡ true))
        × (k ≡ seed)
  unfolding verify
  verify-ok context w before root group k seed h =
      let (member, h1) = >>-eq-ok (require_current_member s.members_after sender) _ h in
      let (identity, is, h2) = >>=-eq-ok s.after _ h1 in
      (
        member,
        ground arith,
        (identity, is, ground arith, ground arith, ground arith, ground arith),
        ground arith,
      )

  examine-Examined :
      (context : Context) (w : World) (seed : List ℕ)
      → examine public s sender context w ≡ ok seed
      → Examined public s sender context w seed
  unfolding examine
  examine-Examined context w seed h =
      let (_, h1) = >>-eq-ok s.open? _ h in
      let (member, h2) = >>-eq-ok (require_current_member s.members_before sender) _ h1 in
      let (before, was, h3) = >>=-eq-ok s.before _ h2 in
      let (frame, came, h4) = >>=-eq-ok s.frame _ h3 in
      let (p, is, h5) = >>=-eq-ok (as_transfer frame) _ h4 in
      let (member', same, found, mine) = verify-ok context w before p.0 p.1 p.2 seed h5 in
      let (identity, now, id, r, g, half) = found in
      let root = bytes_eq→eq p.0 identity.root r in
      let group = bytes_eq→eq p.1 identity.group g in
      let unmoved = require_same_identity→eq before identity id in
      record {
        before = before;
        identity = identity;
        was = was;
        is = now;
        sent = came ∙ ap ok (as_transfer-eq-ok frame p is ∙ rw (root, group, mine));
        member_before = member;
        member_after = member';
        same_context = same;
        same_root = unmoved.0;
        same_group = unmoved.1;
        private_half = sym (ap public mine) ∙ bytes_eq→eq (public p.2) p.0 half ∙ root;
      }

  install-ok :
      (context : Context) (seed : List ℕ) (w w' : World)
      → install public s context seed w ≡ (w', ok tt)
      → (kept : World) × (checkpoint_durable s.writing (record w { root_seed = some seed })
          ≡ (kept, ok tt))
        × (context_is kept.context context ≡ true)
        × (w' ≡ record kept { announced = kept.announced + 1 })
  unfolding install settle announce roll_back replace_root_seed
  install-ok context seed w w' h =
      let kept = checkpoint_durable s.writing (record w { root_seed = some seed }) in
      elim (Result-cases kept.1) [
        | inr (e, x) ↦ absurd (ground arith)
        | inl (_, x) ↦ (kept.0, ground arith, ground arith, ground arith)
      ]

  -- A transfer that is reported as received had a frame of a member, on an identity that did not move,
  -- with the private half of the root; the write after the installation succeeded on the same context,
  -- and one more change is announced. What is stored then is the seed in memory when that write took
  -- its snapshot, behind the writer's lock and the engine's preparation.
  pub receive-ok :
      (w w' : World)
      → receive_root_transfer public s sender w ≡ (w', ok tt)
      → (seed : List ℕ) × Examined public s sender w.context w seed
        × (s.writing.written ≡ ok tt)
        × (context_is w'.context w.context ≡ true)
        × (w'.stored ≡ (at_snapshot s.writing (installed s w seed)).root_seed)
        × (w'.announced ≡ (checkpoint_durable s.writing (installed s w seed)).0.announced + 1)
  unfolding receive_root_transfer
  receive-ok w w' h = elim (Result-cases (examine public s sender w.context w)) [
    | inr (e, x) ↦ absurd (ground arith)
    | inl (seed, x) ↦
        let (kept, y, same, is) =
          install-ok w.context seed (s.during_receive w) w' (ground arith) in
        let (written, stored) = checkpoint_durable-ok s.writing (installed s w seed) kept y in
        (
          seed,
          examine-Examined w.context w seed x,
          written,
          ap (λ v. context_is v.context w.context) is ∙ same,
          ap (λ v. v.stored) is ∙ stored,
          ap (λ v. v.announced) is ∙ sym (ap (λ r. r.0.announced + 1) y),
        )
  ]

  -- If other tasks leave the seed alone while it is written, a transfer that is reported as received
  -- leaves the accepted seed, the private half of this user's root, both in memory and in store.
  pub receive_stores :
      (w w' : World)
      → LeavesSeed s.writing
      → receive_root_transfer public s sender w ≡ (w', ok tt)
      → (seed : List ℕ) × Examined public s sender w.context w seed
        × (w'.root_seed ≡ some seed)
        × (w'.stored ≡ some seed)
  unfolding receive_root_transfer
  receive_stores w w' leaves h = elim (Result-cases (examine public s sender w.context w)) [
    | inr (e, x) ↦ absurd (ground arith)
    | inl (seed, x) ↦
        let (kept, y, same, is) =
          install-ok w.context seed (s.during_receive w) w' (ground arith) in
        let (_, stored) = checkpoint_durable-ok s.writing (installed s w seed) kept y in
        (
          seed,
          examine-Examined w.context w seed x,
          ap (λ v. v.root_seed) is
              ∙ sym (ap (λ r. r.0.root_seed) y)
              ∙ checkpoint_durable-LeavesSeed s.writing (installed s w seed) leaves,
          ap (λ v. v.stored) is
              ∙ stored
              ∙ at_snapshot-LeavesSeed s.writing (installed s w seed) leaves,
        )
  ]
