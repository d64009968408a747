-- ===== src/RootTransfer/Receiving/Tests.antt =====
-- runtime/crates/kernel/src/root_transfer.rs: one transfer that arrives and one that is undone.
use polyvisor.Common.{
  ℕ, ◌+◌, ◌≡◌, refl, List, [], ◌∷◌, none, some, true, false, Result, ok, bytes_eq,
}
use polyvisor.Errors.{Error}
use polyvisor.RootTransfer.{
  transfer, Identity, World, context_is, replace_root_seed, require_same_identity,
  require_current_member,
}
use polyvisor.RootTransfer.Persist.{Writing, checkpoint_durable, at_snapshot}
use polyvisor.RootTransfer.Receiving.{
  Script, as_transfer, receive_root_transfer, examine, verify, install, settle, announce,
}
use polyvisor.RootTransfer.Receiving.Custody.{Examined, installed, receive-ok}

abbrev identity : Identity
identity = record { root = 1 ∷ []; group = 2 ∷ [] }

abbrev before : World
before = record {
  context = record { generation = 0; adopting = false };
  root_seed = none;
  stored = none;
  announced = 0;
}

-- A write that succeeds, or fails with the disk; nobody else acts meanwhile.
abbrev writing : Result Error (Unit {0}) → Writing
writing result = record {
  while_locking = λ w. w;
  open? = ok tt;
  while_preparing = λ w. w;
  engine_ready = ok tt;
  while_writing = λ w. w;
  written = result;
  while_touching = λ w. w;
  touched = ok tt;
}

abbrev answers : Result Error (Unit {0}) → Script
answers result = record {
  open? = ok tt;
  members_before = ok ((9 ∷ []) ∷ []);
  before = ok identity;
  frame = ok (some (transfer (1 ∷ []) (2 ∷ []) (1 ∷ [])));
  during_receive = λ w. w;
  members_after = ok ((9 ∷ []) ∷ []);
  after = ok identity;
  writing = writing result;
  rolling_back = writing (ok tt);
}

abbrev kept : World
kept = record {
  context = before.context;
  root_seed = some (1 ∷ []);
  stored = some (1 ∷ []);
  announced = 1;
}

arrives : receive_root_transfer (λ k. k) (answers (ok tt)) (9 ∷ []) before ≡ (kept, ok tt)
unfolding receive_root_transfer examine verify install settle announce checkpoint_durable
    replace_root_seed require_current_member bytes_eq as_transfer context_is require_same_identity
arrives = refl

receive-ok_example :
    (seed : List ℕ) × Examined (λ k. k) (answers (ok tt)) (9 ∷ []) before.context before seed
    × ((answers (ok tt)).writing.written ≡ ok tt)
    × (context_is kept.context before.context ≡ true)
    × (kept.stored
        ≡ (at_snapshot (writing (ok tt)) (installed (answers (ok tt)) before seed)).root_seed)
    × (kept.announced
        ≡ (checkpoint_durable
            (writing (ok tt))
            (installed (answers (ok tt)) before seed)).0.announced
          + 1)
receive-ok_example = receive-ok (λ k. k) (answers (ok tt)) (9 ∷ []) before kept arrives

abbrev unwritten : World
unwritten = record before { root_seed = some (1 ∷ []) }
