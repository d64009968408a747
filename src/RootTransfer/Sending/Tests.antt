-- ===== src/RootTransfer/Sending/Tests.antt =====
-- runtime/crates/kernel/src/root_transfer.rs: one transfer that is sent and acknowledged.
use polyvisor.Common.{ℕ, ◌≡◌, ◌⊎◌, List, [], ◌∷◌, some, true, false, ok, err}
use polyvisor.Errors.{Error}
use polyvisor.RootTransfer.{persisted, Identity, Context}
use polyvisor.RootTransfer.Sending.{
  Script, root_transfer, Released, Finished, root_transfer_guarded,
}

abbrev identity : Identity
identity = record { root = 1 ∷ []; group = 2 ∷ [] }

abbrev context : Context
context = record { generation = 0; adopting = false }

abbrev answers : Script
answers = record {
  open? = ok tt;
  target = ok (9 ∷ []);
  own_key = 8 ∷ [];
  before = identity;
  context = context;
  endpoint_ready = true;
  connected = ok (9 ∷ []);
  members = ok ((9 ∷ []) ∷ []);
  identity = identity;
  context_now = context;
  root_seed = some (1 ∷ []);
  sent = ok tt;
  answer = ok (some persisted);
  context_later = context;
  identity_later = identity;
  members_later = ok ((9 ∷ []) ∷ []);
  acknowledged = ok tt;
}

root_transfer_guarded_example :
    ((e : Error) × (root_transfer answers ≡ ([], err e)))
    ⊎ ((seed : List ℕ) × Released answers seed × Finished answers seed (root_transfer answers))
root_transfer_guarded_example = root_transfer_guarded answers
