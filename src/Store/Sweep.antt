-- ===== src/Store/Sweep.antt =====
-- runtime/crates/kernel/src/store.rs: which devices a sweep destroys, and which it never touches.
use polyvisor.Common.{
  ℕ, ◌≡◌, refl, sym, ap, subst, ◌∙◌, ◌⊎◌, inl, inr, List, [], ◌∷◌, ◌++◌, append-nil, append_assoc,
  Option, none, Bool, true, false, Bool-cases, ok, Result-cases, bytes_eq, bytes_eq→eq,
  bytes_eq_refl, All, if◌then◌else◌, arith,
}
use polyvisor.Checkpoint.{World, pointer, or_default}
use polyvisor.Store.{IndexRow, Store, update, rows, is_kept, destroyed, destroy, sweep_rows, sweep}

-- The ids of the rows that no test keeps, in order.
unfoldable pub abandoned : List ℕ → ℕ → (List ℕ → Bool) → List IndexRow → List (List ℕ)
abandoned ours now is_held [] = []
abandoned ours now is_held (row ∷ rest) =
    let others = abandoned ours now is_held rest in
    if is_kept ours now is_held row then others else row.id ∷ others

module _ {Snapshot Delta Journal View : Type 0} (world : World Snapshot Delta Journal View)
    (ours : List ℕ) (now : ℕ) (is_held : List ℕ → Bool) where
  destroy-other :
      (id q : List ℕ) (store left : Store)
      → destroy world id store ≡ ok left
      → bytes_eq id q ≡ false
      → left q ≡ store q
  unfolding destroy update
  destroy-other id q store left went apart = elim (Result-cases (pointer world (store id).disk)) [
    | inr (e, x) ↦ absurd (ground arith)
    | inl (found, x) ↦
        let is : update id (destroyed (or_default found) (store id)) store ≡ left = ground arith in
        sym (ap (λ s. s q) is) ∙ rw apart refl
  ]

  destroy-own :
      (id : List ℕ) (store left : Store) → destroy world id store ≡ ok left → (left id).row ≡ none
  unfolding destroy update destroyed
  destroy-own id store left went = elim (Result-cases (pointer world (store id).disk)) [
    | inr (e, x) ↦ absurd (ground arith)
    | inl (found, x) ↦
        let is : update id (destroyed (or_default found) (store id)) store ≡ left = ground arith in
        sym (ap (λ s. (s id).row) is) ∙ rw (bytes_eq_refl id) refl
  ]

  destroy-gone :
      (id q : List ℕ) (store left : Store)
      → destroy world id store ≡ ok left
      → (store q).row ≡ none
      → (left q).row ≡ none
  destroy-gone id q store left went gone = elim (Bool-cases (bytes_eq id q)) [
    | inr apart ↦ ap (λ h. h.row) (destroy-other id q store left went apart) ∙ gone
    | inl same ↦
        subst (λ r. (left r).row ≡ none) (bytes_eq→eq id q same) (destroy-own id store left went)
  ]

  is_kept-apart :
      (row : IndexRow) (q : List ℕ)
      → (q ≡ ours) ⊎ (is_held q ≡ true)
      → is_kept ours now is_held row ≡ false
      → bytes_eq row.id q ≡ false
  unfolding is_kept
  is_kept-apart row q safe gone = elim (Bool-cases (bytes_eq row.id q)) [
    | inr e ↦ e
    | inl e ↦
        let same : row.id ≡ q = bytes_eq→eq row.id q e in
        elim safe [
          | inl is ↦
              let own : bytes_eq row.id ours ≡ true = rw (same, is) (bytes_eq_refl ours) in
              absurd (ground arith)
          | inr locked ↦ let held : is_held row.id ≡ true = rw same locked in absurd (ground arith)
        ]
  ]

  sweep_rows-other :
      (list : List IndexRow) (store : Store) (swept : List (List ℕ)) (q : List ℕ)
      → (q ≡ ours) ⊎ (is_held q ≡ true)
      → (sweep_rows world ours now is_held list store swept).0 q ≡ store q
  unfolding sweep_rows
  sweep_rows-other [] store swept q safe = refl
  sweep_rows-other (row ∷ rest) store swept q safe =
      elim (Bool-cases (is_kept ours now is_held row)) [
        | inl kept ↦ rw kept (sweep_rows-other rest store swept q safe)
        | inr gone ↦ elim (Result-cases (destroy world row.id store)) [
          | inr (e, x) ↦ rw (gone, x) refl
          | inl (left, x) ↦
              rw (gone, x)
                (sweep_rows-other rest left (swept ++ (row.id ∷ [])) q safe
                  ∙ destroy-other row.id q store left x (is_kept-apart row q safe gone))
        ]
      ]

  -- Our own device, and a device whose lock is held, are as they were after a sweep, however it ends.
  pub sweep-other :
      (decode : List ℕ → Option IndexRow) (keys : List (List ℕ)) (store : Store) (q : List ℕ)
      → (q ≡ ours) ⊎ (is_held q ≡ true)
      → (sweep world decode keys is_held ours now store).0 q ≡ store q
  unfolding sweep
  sweep-other decode keys store q safe = sweep_rows-other (rows decode keys store) store [] q safe

  pub sweep_rows-abandoned :
      (list : List IndexRow) (store : Store) (swept result : List (List ℕ))
      → (sweep_rows world ours now is_held list store swept).1 ≡ ok result
      → result ≡ swept ++ abandoned ours now is_held list
  unfolding sweep_rows abandoned
  sweep_rows-abandoned [] store swept result =
      λ went. let same : swept ≡ result = ground arith in sym same ∙ sym (append-nil swept)
  sweep_rows-abandoned (row ∷ rest) store swept result =
      elim (Bool-cases (is_kept ours now is_held row)) [
        | inl kept ↦ rw kept (sweep_rows-abandoned rest store swept result)
        | inr gone ↦ elim (Result-cases (destroy world row.id store)) [
          | inr (e, x) ↦ rw (gone, x) (λ went. absurd (ground arith))
          | inl (left, x) ↦
              rw (gone, x)
                (λ went.
                  sweep_rows-abandoned rest left (swept ++ (row.id ∷ [])) result went
                  ∙ append_assoc swept (row.id ∷ []) (abandoned ours now is_held rest))
        ]
      ]

  -- A row that was taken away stays away.
  sweep_rows-gone :
      (list : List IndexRow) (store : Store) (swept : List (List ℕ)) (q : List ℕ)
      → (store q).row ≡ none
      → ((sweep_rows world ours now is_held list store swept).0 q).row ≡ none
  unfolding sweep_rows
  sweep_rows-gone [] store swept q gone = gone
  sweep_rows-gone (row ∷ rest) store swept q gone =
      elim (Bool-cases (is_kept ours now is_held row)) [
        | inl kept ↦ rw kept (sweep_rows-gone rest store swept q gone)
        | inr drop ↦ elim (Result-cases (destroy world row.id store)) [
          | inr (e, x) ↦ rw (drop, x) gone
          | inl (left, x) ↦
              rw (drop, x)
                (sweep_rows-gone rest left (swept ++ (row.id ∷ [])) q
                  (destroy-gone row.id q store left x gone))
        ]
      ]

  sweep_rows-next :
      (row : IndexRow) (rest : List IndexRow) (store left : Store) (swept : List (List ℕ))
      → is_kept ours now is_held row ≡ false
      → destroy world row.id store ≡ ok left
      → sweep_rows world ours now is_held (row ∷ rest) store swept
        ≡ sweep_rows world ours now is_held rest left (swept ++ (row.id ∷ []))
  unfolding sweep_rows
  sweep_rows-next row rest store left swept gone went = rw (gone, went) refl

  pub sweep_rows-swept :
      (list : List IndexRow) (store : Store) (swept result : List (List ℕ))
      → (sweep_rows world ours now is_held list store swept).1 ≡ ok result
      → All
          (λ id. ((sweep_rows world ours now is_held list store swept).0 id).row ≡ none)
          (abandoned ours now is_held list)
  unfolding sweep_rows abandoned
  sweep_rows-swept [] store swept result = λ went. tt
  sweep_rows-swept (row ∷ rest) store swept result =
      elim (Bool-cases (is_kept ours now is_held row)) [
        | inl kept ↦ rw kept (sweep_rows-swept rest store swept result)
        | inr gone ↦ elim (Result-cases (destroy world row.id store)) [
          | inr (e, x) ↦ rw (gone, x) (λ went. absurd (ground arith))
          | inl (left, x) ↦
              let next = sweep_rows-next row rest store left swept gone x in
              let list : abandoned ours now is_held (row ∷ rest)
                  ≡ row.id ∷ abandoned ours now is_held rest =
                rw gone refl in
              subst
                (λ s.
                  s.1 ≡ ok result
                  → All (λ id. (s.0 id).row ≡ none) (abandoned ours now is_held (row ∷ rest)))
                (sym next)
                (rw list (λ went. (
                  sweep_rows-gone rest left (swept ++ (row.id ∷ [])) row.id
                      (destroy-own row.id store left x),
                  sweep_rows-swept rest left (swept ++ (row.id ∷ [])) result went,
                )))
        ]
      ]
