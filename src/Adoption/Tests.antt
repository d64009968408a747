-- ===== src/Adoption/Tests.antt =====
-- An adoption during which another task tries to adopt, and a stale one ends.
use polyvisor.Common.{◌≡◌, refl, inr, [], ◌∷◌, some, true, false, ok, err}
use polyvisor.Errors.{Error}
use polyvisor.RootTransfer.{Context}
use polyvisor.Store.{durable}
use polyvisor.Adoption.{
  Kernel, begin_identity_adoption, finish_identity_adoption, identity_open, next_context, open_gate,
  may_begin, state,
}
use polyvisor.Adoption.Exclusive.{begins, ends, Steps, here, next, begin-finish}

abbrev settled : Kernel
settled = record {
  is_erased = false;
  dek = some (1 ∷ []);
  tier = durable;
  context = record { generation = 4; adopting = false };
}

abbrev before : Context
before = record { generation = 4; adopting = false }

abbrev stale : Context
stale = record { generation = 2; adopting = false }

abbrev adopting : Kernel
adopting = (begin_identity_adoption (ok tt) settled).0

begins_well : (begin_identity_adoption (ok tt) settled).1 ≡ ok before
unfolding begin_identity_adoption may_begin open_gate state
begins_well = refl

abbrev later : Kernel
later = finish_identity_adoption stale true ((begin_identity_adoption (ok tt) adopting).0)

meanwhile : Steps (next_context 4) adopting later
unfolding next_context
meanwhile =
    next (next here (begins adopting (ok tt)))
      (ends ((begin_identity_adoption (ok tt) adopting).0) stale true (inr refl))

begin-finish_example :
    (later ≡ adopting)
    × ((e : Error) × (identity_open later ≡ err e))
    × ((finish_identity_adoption before true later).context
        ≡ record { generation = next_context 4; adopting = false })
begin-finish_example = begin-finish settled later (ok tt) before begins_well meanwhile
