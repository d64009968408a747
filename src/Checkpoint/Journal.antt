-- ===== src/Checkpoint/Journal.antt =====
-- `write_engine` and `commit_pointer` of runtime/crates/kernel/src/checkpoint.rs: the journal
-- grows by one record at a time.
use polyvisor.Common.{
  ℕ, zero, suc, ◌+◌, ◌<◌, ◌≡◌, refl, sym, ap, ◌∙◌, inl, inr, List, [], ◌∷◌, Option, some,
  Option-cases, true, false, ◌==◌, ok, Result-cases, ◌>>=◌, guard, length, arith,
}
use polyvisor.Errors.{failed}
use polyvisor.Seal.{unseal}
use polyvisor.Seal.Opening.{unseal-seal}
use polyvisor.Checkpoint.Files.{
  journal, same_path, Disk, write_file, put, perform, run, Crash, stop, tear, step,
}
use polyvisor.Checkpoint.Agreement.{load-agree, read_pointed-agree, replay-agree}
use polyvisor.Checkpoint.{
  World, WorldLaws, Pointer, Landing, whole, torn, is_whole, left_by, pointer, or_default,
  read_delta, read_pointed, replay, load_at, load, journal_aad, seal_delta, write_engine,
  commit_pointer,
}

module _ {Snapshot Delta Journal View : Type 0} (world : World Snapshot Delta Journal View)
    (dek id : List ℕ) where
  put-journal-load :
      (d : Disk) (found : Option Pointer) (n : ℕ) (left : Option (List ℕ))
      → pointer world d ≡ ok found
      → (or_default found).engine_head < n
      → load world dek id (put (journal n) left d) ≡ load world dek id d
  unfolding put same_path
  put-journal-load d found n left known beyond =
      load-agree world dek id d (put (journal n) left d) found known refl refl refl
        (λ k below. let apart : (n == k) ≡ false = ground arith in rw apart refl)

  -- A record beyond the pointed head changes nothing that loads, whether it is written whole, is
  -- torn, or fails with a report.
  pub load-write_engine :
      (d d' : Disk) (found : Option Pointer) (landing : Landing) (nonce : List ℕ) (n : ℕ)
      (delta : Delta)
      → pointer world d ≡ ok found
      → (or_default found).engine_head < n
      → Crash ((write_engine world dek id landing nonce n delta).0) d d'
      → load world dek id d' ≡ load world dek id d
  unfolding write_engine perform
  load-write_engine d d' found landing nonce n delta known beyond =
      elim (Result-cases (seal_delta world dek id nonce n delta)) [
        | inr (e, made) ↦ rw (made, write_engine) (λ crash. untouched d d' crash)
        | inl (sealed, made) ↦
            rw (made, write_engine) (λ crash. one d sealed landing d' crash known beyond)
      ]
    where
      untouched : (d d' : Disk) → Crash [] d d' → load world dek id d' ≡ load world dek id d
      untouched d d' stop = refl

      one :
          (d : Disk) (sealed : List ℕ) (landing : Landing) (d' : Disk)
          → Crash (write_file (journal n) (left_by landing sealed) ∷ []) d d'
          → pointer world d ≡ ok found
          → (or_default found).engine_head < n
          → load world dek id d' ≡ load world dek id d
      one d sealed landing d' stop known beyond = refl
      one d sealed landing d' (tear left) known beyond =
          put-journal-load d found n left known beyond
      one d sealed landing d' (step stop) known beyond =
          put-journal-load d found n (left_by landing sealed) known beyond

  module _ (laws : WorldLaws world) where
    read_delta-seal_delta :
        (nonce : List ℕ) (n : ℕ) (delta : Delta) (sealed : List ℕ) (d : Disk)
        → length nonce ≡ 12
        → seal_delta world dek id nonce n delta ≡ ok sealed
        → d.read (journal n) ≡ some sealed
        → read_delta world dek id d n ≡ ok delta
    unfolding seal_delta read_delta
    read_delta-seal_delta nonce n delta sealed d long made on_disk =
        elim (Option-cases (world.deltas.encode delta)) [
          | inl e ↦ absurd (ground arith)
          | inr (plain, e) ↦
              let opened : unseal world.aead dek sealed (journal_aad id n) ≡ ok plain =
                unseal-seal world.aead laws.aead_laws dek nonce plain (journal_aad id n) sealed long
                  (ground arith) in
              rw (on_disk, opened, laws.deltas_law delta plain e) refl
        ]

  -- The records read last are applied last.
  replay_last :
      (d : Disk) (count sequence : ℕ) (acc : Journal)
      → replay world dek id d (suc count) sequence acc ≡ (
          replay world dek id d count sequence acc >>= λ history.
          read_delta world dek id d (sequence + count) >>= λ delta. ok (world.apply history delta))
  unfolding replay
  replay_last d zero sequence acc =
      ap (λ n. read_delta world dek id d n >>= λ delta. ok (world.apply acc delta)) (omega arith)
  replay_last d (suc count) sequence acc =
      elim (Result-cases (read_delta world dek id d sequence)) [
        | inr (e, x) ↦ rw x refl
        | inl (delta, x) ↦
            let after : suc sequence + count ≡ sequence + suc count = omega arith in
            let rest = replay_last d count (suc sequence) (world.apply acc delta) in
            rw (x, sym after) rest
      ]

  module _ (laws : WorldLaws world) where
    -- The history with one more record.
    replay_next :
        (d after : Disk) (nonce : List ℕ) (delta : Delta) (sealed : List ℕ) (count : ℕ)
        → length nonce ≡ 12
        → seal_delta world dek id nonce (suc count) delta ≡ ok sealed
        → after.read (journal (suc count)) ≡ some sealed
        → ((n : ℕ) → n < 1 + count → after.read (journal n) ≡ d.read (journal n))
        → replay world dek id after (suc count) 1 world.empty ≡ (
            replay world dek id d count 1 world.empty >>= λ history. ok (world.apply history delta))
    replay_next d after nonce delta sealed count long made last older =
        let next : 1 + count ≡ suc count = omega arith in
        let same = replay-agree world dek id d after count 1 world.empty older in
        let read = read_delta-seal_delta laws nonce (suc count) delta sealed after long made last in
        replay_last after count 1 world.empty ∙ rw (same, next, read) refl

    appended :
        (d : Disk) (nonce : List ℕ) (delta : Delta) (sealed : List ℕ) (p : Pointer)
        → length nonce ≡ 12
        → seal_delta world dek id nonce (suc p.engine_head) delta ≡ ok sealed
        → let q : Pointer = record { generation = p.generation; engine_head = suc p.engine_head } in
          load world dek id
            (run (commit_pointer world q) (put (journal (suc p.engine_head)) (some sealed) d))
          ≡ (read_pointed world dek id d p.generation >>= λ snapshot.
              replay world dek id d p.engine_head 1 world.empty >>= λ history.
              ok (q, snapshot, world.view (world.apply history delta)))
    unfolding load load_at pointer or_default run perform commit_pointer put same_path
    appended d nonce delta sealed p long made =
        let n = suc p.engine_head in
        let q : Pointer = record { generation = p.generation; engine_head = n } in
        let after : Disk = run (commit_pointer world q) (put (journal n) (some sealed) d) in
        let own : (n == n) ≡ true = ground arith in
        let state_same = read_pointed-agree world dek id d after p.generation refl refl in
        let history =
          replay_next d after nonce delta sealed p.engine_head long made (rw own refl)
            (λ k below. let apart : (n == k) ≡ false = ground arith in rw apart refl) in
        elim (Result-cases (read_pointed world dek id d p.generation)) [
          | inr (e, x) ↦ rw (laws.pointers_law q, state_same, x) refl
          | inl (snapshot, x) ↦
              elim (Result-cases (replay world dek id d p.engine_head 1 world.empty)) [
                | inr (e, y) ↦ rw (laws.pointers_law q, state_same, x, history, y) refl
                | inl (j, y) ↦ rw (laws.pointers_law q, state_same, x, history, y) refl
              ]
        ]

    -- A record that is written whole behind the head, and then committed, is applied last in what
    -- loads; the generation is the same.
    pub load-commit_pointer :
        (d : Disk) (landing : Landing) (nonce : List ℕ) (p : Pointer) (delta : Delta)
        → length nonce ≡ 12
        → (write_engine world dek id landing nonce (suc p.engine_head) delta).1 ≡ ok tt
        → let effects = (write_engine world dek id landing nonce (suc p.engine_head) delta).0 in
          let q : Pointer = record { generation = p.generation; engine_head = suc p.engine_head } in
          load world dek id (run (commit_pointer world q) (run effects d)) ≡ (
            read_pointed world dek id d p.generation >>= λ snapshot.
            replay world dek id d p.engine_head 1 world.empty >>= λ history.
            ok (q, snapshot, world.view (world.apply history delta)))
    unfolding write_engine run perform left_by is_whole
    load-commit_pointer d landing nonce p delta long =
        elim (Result-cases (seal_delta world dek id nonce (suc p.engine_head) delta)) [
          | inr (e, made) ↦ rw (made, write_engine) (λ went. absurd (ground arith))
          | inl (sealed, made) ↦
              rw (made, write_engine) (λ went. landed d landing sealed p went made)
        ]
      where
        landed :
            (d : Disk) (landing : Landing) (sealed : List ℕ) (p : Pointer)
            → guard (is_whole landing) (failed "this device's history could not be written") ≡ ok tt
            → seal_delta world dek id nonce (suc p.engine_head) delta ≡ ok sealed
            → let q : Pointer = record {
              generation = p.generation;
              engine_head = suc p.engine_head;
            } in
              load world dek id (
                run
                  (commit_pointer world q)
                  (run (write_file (journal (suc p.engine_head)) (left_by landing sealed) ∷ []) d))
              ≡ (read_pointed world dek id d p.generation >>= λ snapshot.
                  replay world dek id d p.engine_head 1 world.empty >>= λ history.
                  ok (q, snapshot, world.view (world.apply history delta)))
        landed d whole sealed p went made = appended d nonce delta sealed p long made
        landed d (torn o) sealed p went made = absurd (ground arith)
