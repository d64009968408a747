-- ===== src/Checkpoint/Removal.antt =====
-- `destroy` of runtime/crates/kernel/src/checkpoint.rs: what it names, it removes.
use polyvisor.Common.{
  ℕ, zero, suc, ◌+◌, ◌-◌, ◌^◌, ◌≤◌, ◌<◌, ◌≡◌, refl, ◌⊎◌, inl, inr, List, [], ◌∷◌, ◌++◌, none, Bool,
  true, false, ◌||◌, Bool-cases, ltb, ◌==◌, All, arith,
}
use polyvisor.Checkpoint.Files.{
  FilePath, state, manifest, journal, same_path, Dir, engine_dir, namespace, Disk, Effect,
  write_file, set_pointer, remove_file, remove_dir, put, perform, run,
}
use polyvisor.Checkpoint.{
  Pointer, remove_generation, drop_old, remove_journal, saturating_suc, destroy_engine, destroy,
}

-- A file that a generation of the window, or the journal up to one past its head, may have.
unfoldable pub IsNamed : Pointer → FilePath → Type 0
IsNamed p (state n) = (1 ≤ n) × (p.generation ≤ n + 2) × (n ≤ p.generation + 1)
IsNamed p (manifest n) = (1 ≤ n) × (p.generation ≤ n + 2) × (n ≤ p.generation + 1)
IsNamed p (journal n) = (1 ≤ n) × (n ≤ p.engine_head + 1)

-- Some call removes the file.
clears : List Effect → FilePath → Bool
clears [] q = false
clears (remove_file p ∷ es) q = same_path p q || clears es q
clears (remove_dir dir ∷ es) q = clears es q
clears (write_file p o ∷ es) q = clears es q
clears (set_pointer bytes ∷ es) q = clears es q

IsRemoval : Effect → Type 0
IsRemoval (remove_file p) = Unit {0}
IsRemoval (remove_dir dir) = Unit {0}
IsRemoval (write_file p o) = 1 < 0
IsRemoval (set_pointer bytes) = 1 < 0

run-none :
    (es : List Effect) (d : Disk) (q : FilePath)
    → All IsRemoval es
    → d.read q ≡ none
    → (run es d).read q ≡ none
unfolding run perform put IsRemoval
run-none [] d q removal gone = gone
run-none (remove_file p ∷ es) d q (r, removal) gone =
    run-none es (put p none d) q removal
      (elim (Bool-cases (same_path p q)) [ inl e ↦ rw e refl | inr e ↦ rw e gone ])
run-none (remove_dir dir ∷ es) d q (r, removal) gone = run-none es d q removal gone
run-none (write_file p o ∷ es) d q (r, removal) gone = absurd (omega arith)
run-none (set_pointer bytes ∷ es) d q (r, removal) gone = absurd (omega arith)

run-clears :
    (es : List Effect) (d : Disk) (q : FilePath)
    → All IsRemoval es
    → clears es q ≡ true
    → (run es d).read q ≡ none
unfolding run perform put IsRemoval clears
run-clears [] d q removal named = absurd (ground arith)
run-clears (remove_file p ∷ es) d q (r, removal) named = elim (Bool-cases (same_path p q)) [
  | inl e ↦ run-none es (put p none d) q removal (rw e refl)
  | inr e ↦ run-clears es (put p none d) q removal (ground arith)
]
run-clears (remove_dir dir ∷ es) d q (r, removal) named = run-clears es d q removal named
run-clears (write_file p o ∷ es) d q (r, removal) named = absurd (omega arith)
run-clears (set_pointer bytes ∷ es) d q (r, removal) named = absurd (omega arith)

clears-append :
    (es fs : List Effect) (q : FilePath) → clears (es ++ fs) q ≡ (clears es q || clears fs q)
unfolding clears
clears-append [] fs q = refl
clears-append (remove_file p ∷ es) fs q = ground (arith, clears-append es fs q)
clears-append (remove_dir dir ∷ es) fs q = clears-append es fs q
clears-append (write_file p o ∷ es) fs q = clears-append es fs q
clears-append (set_pointer bytes ∷ es) fs q = clears-append es fs q

All-append : (es fs : List Effect) → All IsRemoval es → All IsRemoval fs → All IsRemoval (es ++ fs)
All-append [] fs h k = k
All-append (e ∷ es) fs (x, h) k = (x, All-append es fs h k)

drop_old-IsRemoval : (k : ℕ) → All IsRemoval (drop_old k)
unfolding drop_old remove_generation IsRemoval
drop_old-IsRemoval k = elim (Bool-cases (ltb 0 k)) [
  | inl e ↦ rw e (tt, (tt, (tt, tt)))
  | inr e ↦ rw e tt
]

drop_old-clears :
    (n : ℕ)
    → 1 ≤ n
    → (clears (drop_old n) (state n) ≡ true) × (clears (drop_old n) (manifest n) ≡ true)
unfolding drop_old remove_generation clears same_path
drop_old-clears n positive =
    let above : ltb 0 n ≡ true = ground arith in
    let own : (n == n) ≡ true = ground arith in rw (above, own) (refl, refl)

remove_journal-IsRemoval : (count sequence : ℕ) → All IsRemoval (remove_journal count sequence)
unfolding remove_journal IsRemoval
remove_journal-IsRemoval zero sequence = tt
remove_journal-IsRemoval (suc count) sequence = (tt, remove_journal-IsRemoval count (suc sequence))

remove_journal-clears :
    (count sequence n : ℕ)
    → sequence ≤ n
    → n < sequence + count
    → clears (remove_journal count sequence) (journal n) ≡ true
unfolding remove_journal clears same_path
remove_journal-clears zero sequence n low high = absurd (omega arith)
remove_journal-clears (suc count) sequence n low high = elim (Bool-cases (sequence == n)) [
  | inl e ↦ rw e refl
  | inr e ↦ rw e (remove_journal-clears count (suc sequence) n (ground arith) (omega arith))
]

destroy_engine-IsRemoval : (head : ℕ) → All IsRemoval (destroy_engine head)
unfolding destroy_engine IsRemoval
destroy_engine-IsRemoval head =
    All-append (remove_journal (saturating_suc head) 1) (remove_dir engine_dir ∷ [])
      (remove_journal-IsRemoval (saturating_suc head) 1) (tt, tt)

-- The five parts of the calls, and the directory behind them.
module _ (a b c d e : List Effect) (f : Dir) where
  parts-IsRemoval :
      All IsRemoval a
      → All IsRemoval b
      → All IsRemoval c
      → All IsRemoval d
      → All IsRemoval e
      → All IsRemoval (a ++ (b ++ (c ++ (d ++ (e ++ (remove_dir f ∷ []))))))
  unfolding IsRemoval
  parts-IsRemoval ra rb rc rd re =
      let re' = All-append e (remove_dir f ∷ []) re (tt, tt) in
      let rd' = All-append d (e ++ (remove_dir f ∷ [])) rd re' in
      let rc' = All-append c (d ++ (e ++ (remove_dir f ∷ []))) rc rd' in
      let rb' = All-append b (c ++ (d ++ (e ++ (remove_dir f ∷ [])))) rb rc' in
      All-append a (b ++ (c ++ (d ++ (e ++ (remove_dir f ∷ []))))) ra rb'

  parts-clears :
      (q : FilePath)
      → clears (a ++ (b ++ (c ++ (d ++ (e ++ (remove_dir f ∷ [])))))) q
        ≡ (clears a q || (clears b q || (clears c q || (clears d q || (clears e q || false)))))
  unfolding clears
  parts-clears q =
      rw
        (
          clears-append a (b ++ (c ++ (d ++ (e ++ (remove_dir f ∷ []))))) q,
          clears-append b (c ++ (d ++ (e ++ (remove_dir f ∷ [])))) q,
          clears-append c (d ++ (e ++ (remove_dir f ∷ []))) q,
          clears-append d (e ++ (remove_dir f ∷ [])) q,
          clears-append e (remove_dir f ∷ []) q,
        )
        refl

  hit_one :
      (q : FilePath)
      → (clears a q ≡ true)
        ⊎ (clears b q ≡ true)
        ⊎ (clears c q ≡ true)
        ⊎ (clears d q ≡ true)
        ⊎ (clears e q ≡ true)
      → clears (a ++ (b ++ (c ++ (d ++ (e ++ (remove_dir f ∷ [])))))) q ≡ true
  hit_one q hit = rw (parts-clears q) (ground arith)

drop_old-hit :
    (k n : ℕ)
    → 1 ≤ n
    → k ≡ n
    → (clears (drop_old k) (state n) ≡ true) × (clears (drop_old k) (manifest n) ≡ true)
drop_old-hit k n positive same = rw same (drop_old-clears n positive)

-- Where a generation of the window stands.
places :
    (g n : ℕ)
    → 1 ≤ n
    → g ≤ n + 2
    → n ≤ g + 1
    → (g + 1 ≡ n) ⊎ (g + 1 - 1 ≡ n) ⊎ (g + 1 - 2 ≡ n) ⊎ (g + 1 - 3 ≡ n)
places g n low window high = ground arith

module _ (p : Pointer) where
  hit_any :
      (q : FilePath)
      → (clears (destroy_engine p.engine_head) q ≡ true)
        ⊎ (clears (drop_old (p.generation + 1)) q ≡ true)
        ⊎ (clears (drop_old (p.generation + 1 - 1)) q ≡ true)
        ⊎ (clears (drop_old (p.generation + 1 - 2)) q ≡ true)
        ⊎ (clears (drop_old (p.generation + 1 - 3)) q ≡ true)
      → clears (destroy p) q ≡ true
  unfolding destroy
  hit_any q hit =
      hit_one (destroy_engine p.engine_head) (drop_old (p.generation + 1))
        (drop_old (p.generation + 1 - 1)) (drop_old (p.generation + 1 - 2))
        (drop_old (p.generation + 1 - 3)) namespace q hit

  destroy_engine-clears :
      (n : ℕ)
      → p.engine_head < 2 ^ 64 - 1
      → 1 ≤ n
      → n ≤ p.engine_head + 1
      → clears (destroy_engine p.engine_head) (journal n) ≡ true
  unfolding destroy_engine saturating_suc
  destroy_engine-clears n bound low high =
      let count = saturating_suc p.engine_head in
      let found : clears (remove_journal count 1) (journal n) ≡ true =
        remove_journal-clears count 1 n low (omega arith) in
      rw (clears-append (remove_journal count 1) (remove_dir engine_dir ∷ []) (journal n))
        (ground arith)

  destroy-clears :
      (q : FilePath) → p.engine_head < 2 ^ 64 - 1 → IsNamed p q → clears (destroy p) q ≡ true
  unfolding IsNamed
  destroy-clears (journal n) bound (low, high) =
      hit_any (journal n) (inl (destroy_engine-clears n bound low high))
  destroy-clears (state n) bound (low, window, high) =
      hit_any (state n) (elim (places p.generation n low window high) [
        | inl e ↦ inr (inl ((drop_old-hit (p.generation + 1) n low e).0))
        | inr (inl e) ↦ inr (inr (inl ((drop_old-hit (p.generation + 1 - 1) n low e).0)))
        | inr (inr (inl e)) ↦
            inr (inr (inr (inl ((drop_old-hit (p.generation + 1 - 2) n low e).0))))
        | inr (inr (inr e)) ↦
            inr (inr (inr (inr ((drop_old-hit (p.generation + 1 - 3) n low e).0))))
      ])
  destroy-clears (manifest n) bound (low, window, high) =
      hit_any (manifest n) (elim (places p.generation n low window high) [
        | inl e ↦ inr (inl ((drop_old-hit (p.generation + 1) n low e).1))
        | inr (inl e) ↦ inr (inr (inl ((drop_old-hit (p.generation + 1 - 1) n low e).1)))
        | inr (inr (inl e)) ↦
            inr (inr (inr (inl ((drop_old-hit (p.generation + 1 - 2) n low e).1))))
        | inr (inr (inr e)) ↦
            inr (inr (inr (inr ((drop_old-hit (p.generation + 1 - 3) n low e).1))))
      ])

  destroy-IsRemoval : All IsRemoval (destroy p)
  unfolding destroy
  destroy-IsRemoval =
      parts-IsRemoval (destroy_engine p.engine_head) (drop_old (p.generation + 1))
        (drop_old (p.generation + 1 - 1)) (drop_old (p.generation + 1 - 2))
        (drop_old (p.generation + 1 - 3)) namespace (destroy_engine-IsRemoval p.engine_head)
        (drop_old-IsRemoval (p.generation + 1)) (drop_old-IsRemoval (p.generation + 1 - 1))
        (drop_old-IsRemoval (p.generation + 1 - 2)) (drop_old-IsRemoval (p.generation + 1 - 3))

-- For a head below 2 ^ 64 - 1: if every file of a device is of a generation from two before the
-- pointer to one after it, or a journal record up to one past the head, then destroying it leaves
-- no file.
pub destroy-none :
    (p : Pointer) (d : Disk)
    → p.engine_head < 2 ^ 64 - 1
    → ((q : FilePath) → (d.read q ≡ none) ⊎ IsNamed p q)
    → (q : FilePath) → (run (destroy p) d).read q ≡ none
destroy-none p d bound named q = elim (named q) [
  | inl gone ↦ run-none (destroy p) d q (destroy-IsRemoval p) gone
  | inr is ↦ run-clears (destroy p) d q (destroy-IsRemoval p) (destroy-clears p q bound is)
]
