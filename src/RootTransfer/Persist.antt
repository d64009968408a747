-- ===== src/RootTransfer/Persist.antt =====
-- runtime/crates/kernel/src/lib.rs: `persist` and `write_persistence` with the device's metadata.
-- The awaits are fields of a script, each with what other tasks do meanwhile.
use polyvisor.Common.{
  ◌≡◌, ◌∙◌, inl, inr, List, ℕ, Option, not, Result, ok, err, guard, ◌>>◌, Result-cases, arith,
}
use polyvisor.Errors.{Error, unavailable}
use polyvisor.RootTransfer.{World}

-- `engine_ready` is the answer of `prepare_persistence`; `written` that of the journal and the files,
-- up to the pointer; `touched` that of the lease.
pub record Writing : Type 0 where
  pub while_locking : World → World
  pub open? : Result Error (Unit {0})
  pub while_preparing : World → World
  pub engine_ready : Result Error (Unit {0})
  pub while_writing : World → World
  pub written : Result Error (Unit {0})
  pub while_touching : World → World
  pub touched : Result Error (Unit {0})

-- What other tasks do while this one holds the writer's lock: none of them stores.
unfoldable pub held : (World → World) → World → World
held others w = record (others w) { stored = w.stored }

-- The lease, after the pointer made the snapshot the stored one.
unfoldable pub touch : Writing → Option (List ℕ) → World → World × Result Error (Unit {0})
unfolding held
touch p snapshot w = (held p.while_touching (record w { stored = snapshot }), p.touched)

-- `write_persistence`: the snapshot is taken once the engine is ready.
unfoldable pub write_persistence : Writing → World → World × Result Error (Unit {0})
unfolding held touch
write_persistence p w =
    let prepared = held p.while_preparing w in
    elim p.engine_ready [
      | err e ↦ (prepared, err e)
      | ok _ ↦
          let later = held p.while_writing prepared in
          elim p.written [ err e ↦ (later, err e) | ok _ ↦ touch p prepared.root_seed later ]
    ]

-- `checkpoint_durable` is `persist(true)`.
unfoldable pub checkpoint_durable : Writing → World → World × Result Error (Unit {0})
unfolding write_persistence
checkpoint_durable p w =
    let locked = p.while_locking w in
    elim (p.open?
      >> guard (not locked.context.adopting) (unavailable "identity adoption is incomplete")) [
        | err e ↦ (locked, err e)
        | ok _ ↦ write_persistence p locked
      ]

-- The world of which the snapshot is taken.
abbrev pub at_snapshot : Writing → World → World
at_snapshot p w = held p.while_preparing (p.while_locking w)

-- Other tasks leave the seed in memory alone.
pub record LeavesSeed (p : Writing) : Type 0 where
  pub locking : (w : World) → (p.while_locking w).root_seed ≡ w.root_seed
  pub preparing : (w : World) → (p.while_preparing w).root_seed ≡ w.root_seed
  pub writing : (w : World) → (p.while_writing w).root_seed ≡ w.root_seed
  pub touching : (w : World) → (p.while_touching w).root_seed ≡ w.root_seed

module _ (p : Writing) (w : World) where
  write_persistence-ok :
      (v after : World)
      → write_persistence p v ≡ (after, ok tt)
      → (p.engine_ready ≡ ok tt)
        × (p.written ≡ ok tt)
        × (p.touched ≡ ok tt)
        × (after.stored ≡ (held p.while_preparing v).root_seed)
  unfolding write_persistence held touch
  write_persistence-ok v after h = ground arith

  -- A durable checkpoint that succeeds stores the seed in memory at the snapshot.
  pub checkpoint_durable-ok :
      (after : World)
      → checkpoint_durable p w ≡ (after, ok tt)
      → (p.written ≡ ok tt) × (after.stored ≡ (at_snapshot p w).root_seed)
  unfolding checkpoint_durable
  checkpoint_durable-ok after h =
      elim (Result-cases (
        p.open?
        >> guard (not (p.while_locking w).context.adopting)
            (unavailable "identity adoption is incomplete"))) [
              | inr (e, x) ↦ absurd (ground arith)
              | inl (_, x) ↦
                  let (_, b, _, d) =
                    write_persistence-ok (p.while_locking w) after (ground arith) in
                  (b, d)
            ]

  write_persistence-LeavesSeed :
      (v : World) → LeavesSeed p → (write_persistence p v).0.root_seed ≡ v.root_seed
  unfolding write_persistence held touch
  write_persistence-LeavesSeed v leaves =
      let prepared = held p.while_preparing v in
      let later = held p.while_writing prepared in
      let a = leaves.preparing v in
      let b = leaves.writing prepared in
      let c = leaves.touching (record later { stored = prepared.root_seed }) in
      elim (Result-cases p.engine_ready) [
        | inr (e, x) ↦ rw x a
        | inl (_, x) ↦ elim (Result-cases p.written) [
          | inr (e, y) ↦ rw (x, y) (b ∙ a)
          | inl (_, y) ↦ rw (x, y) (c ∙ b ∙ a)
        ]
      ]

  -- A checkpoint leaves the seed in memory alone, if the other tasks do.
  pub checkpoint_durable-LeavesSeed :
      LeavesSeed p → (checkpoint_durable p w).0.root_seed ≡ w.root_seed
  unfolding checkpoint_durable
  checkpoint_durable-LeavesSeed leaves =
      elim (Result-cases (
        p.open?
        >> guard (not (p.while_locking w).context.adopting)
            (unavailable "identity adoption is incomplete"))) [
              | inr (e, x) ↦ rw (x, checkpoint_durable) (leaves.locking w)
              | inl (_, x) ↦
                  rw (x, checkpoint_durable)
                    (write_persistence-LeavesSeed (p.while_locking w) leaves ∙ leaves.locking w)
            ]

  -- Under such tasks the snapshot has the seed with which the checkpoint was asked for.
  pub at_snapshot-LeavesSeed : LeavesSeed p → (at_snapshot p w).root_seed ≡ w.root_seed
  unfolding held
  at_snapshot-LeavesSeed leaves = leaves.preparing (p.while_locking w) ∙ leaves.locking w
