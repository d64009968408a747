-- ===== src/Store/Abandoned.antt =====
-- runtime/crates/kernel/src/store.rs: a sweep against what it means that a device is abandoned.
use polyvisor.Common.{
  ℕ, ◌+◌, ◌<◌, ◌≡◌, ◌≢◌, refl, sym, ap, subst, ◌∙◌, inl, inr, List, [], ◌∷◌, Option, none, some,
  Bool, true, false, Bool-cases, Option-cases, ok, bytes_eq, bytes_eq→eq, bytes_eq_refl, All, In,
  head, behind, arith,
}
use polyvisor.Checkpoint.{World}
use polyvisor.Store.{
  Tier, ephemeral, durable, IndexRow, Store, is_ephemeral, rows, row_of, is_kept, sweep,
}
use polyvisor.Store.Sweep.{abandoned, sweep_rows-abandoned, sweep_rows-swept}

-- A row of the index: the entry of a listed key, and what it decodes to.
pub record Indexed (decode : List ℕ → Option IndexRow) (keys : List (List ℕ)) (store : Store)
    (row : IndexRow) : Type 0 where
  pub key : List ℕ
  pub listed : In key keys
  pub bytes : List ℕ
  pub stored : (store key).row ≡ some bytes
  pub decoded : decode bytes ≡ some row

-- An ephemeral device other than ours, last used more than two minutes ago, whose lock is free.
pub record IsAbandoned (ours : List ℕ) (now : ℕ) (is_held : List ℕ → Bool) (row : IndexRow)
    : Type 0 where
  pub other : row.id ≢ ours
  pub is_temporary : row.tier ≡ ephemeral
  pub stale : row.last_used + 120_000 < now
  pub free : is_held row.id ≡ false

tier_of : (tier : Tier) → is_ephemeral tier ≡ true → tier ≡ ephemeral
unfolding is_ephemeral
tier_of ephemeral h = refl
tier_of durable h = cc

module _ (ours : List ℕ) (now : ℕ) (is_held : List ℕ → Bool) where
  is_kept→IsAbandoned :
      (row : IndexRow) → is_kept ours now is_held row ≡ false → IsAbandoned ours now is_held row
  unfolding is_kept
  is_kept→IsAbandoned row h =
      let own : bytes_eq row.id ours ≡ false = ground arith in
      record {
        other =
            λ e. let same : bytes_eq row.id ours ≡ true = rw e (bytes_eq_refl ours) in ground arith;
        is_temporary = tier_of row.tier (ground arith);
        stale = ground arith;
        free = ground arith;
      }

  IsAbandoned→is_kept :
      (row : IndexRow) → IsAbandoned ours now is_held row → is_kept ours now is_held row ≡ false
  unfolding is_kept
  IsAbandoned→is_kept row v = elim (Bool-cases (bytes_eq row.id ours)) [
    | inl own ↦ absurd (v.other (bytes_eq→eq row.id ours own))
    | inr apart ↦
        let short : is_ephemeral row.tier ≡ true = unfold is_ephemeral in rw v.is_temporary refl in
        ground (arith, apart, short)
  ]

  -- A row of the list that no test keeps, by its id.
  abbrev Dropped : List ℕ → List IndexRow → Type 0
  Dropped id list =
      (row : IndexRow) × In row list × (id ≡ row.id) × (is_kept ours now is_held row ≡ false)

  behind-Dropped :
      (id : List ℕ) (row : IndexRow) (rest : List IndexRow)
      → Dropped id rest
      → Dropped id (row ∷ rest)
  behind-Dropped id row rest (r, i, e, k) = (r, behind i, e, k)

  pick :
      (id : List ℕ) (row : IndexRow) (rest : List IndexRow) (others : List (List ℕ))
      → is_kept ours now is_held row ≡ false
      → (In id others → Dropped id rest)
      → In id (row.id ∷ others)
      → Dropped id (row ∷ rest)
  pick id row rest others gone further (head e) = (row, head refl, e, gone)
  pick id row rest others gone further (behind i) = behind-Dropped id row rest (further i)

  abandoned-In :
      (id : List ℕ) (list : List IndexRow)
      → In id (abandoned ours now is_held list)
      → Dropped id list
  unfolding abandoned
  abandoned-In id [] = λ i. elim i [ ]
  abandoned-In id (row ∷ rest) = elim (Bool-cases (is_kept ours now is_held row)) [
    | inl kept ↦ rw kept (λ i. behind-Dropped id row rest (abandoned-In id rest i))
    | inr gone ↦
        rw gone (pick id row rest (abandoned ours now is_held rest) gone (abandoned-In id rest))
  ]

  In-abandoned :
      (row : IndexRow) (list : List IndexRow)
      → In row list
      → is_kept ours now is_held row ≡ false
      → In row.id (abandoned ours now is_held list)
  unfolding abandoned
  In-abandoned row [] i k = elim i [ ]
  In-abandoned row (first ∷ rest) (head e) k =
      let gone : is_kept ours now is_held first ≡ false =
        subst (λ r. is_kept ours now is_held r ≡ false) e k in
      rw gone (head (ap (λ r. r.id) e))
  In-abandoned row (first ∷ rest) (behind i) k =
      elim (Bool-cases (is_kept ours now is_held first)) [
        | inl kept ↦ rw kept (In-abandoned row rest i k)
        | inr gone ↦ rw gone (behind (In-abandoned row rest i k))
      ]

module _ (decode : List ℕ → Option IndexRow) (store : Store) where
  behind-Indexed :
      (key : List ℕ) (keys : List (List ℕ)) (row : IndexRow)
      → Indexed decode keys store row
      → Indexed decode (key ∷ keys) store row
  behind-Indexed key keys row x = record {
    key = x.key;
    listed = behind x.listed;
    bytes = x.bytes;
    stored = x.stored;
    decoded = x.decoded;
  }

  first-Indexed :
      (key : List ℕ) (keys : List (List ℕ)) (o : Option (List ℕ)) (row first : IndexRow)
      → (store key).row ≡ o
      → row_of decode o ≡ some first
      → row ≡ first
      → Indexed decode (key ∷ keys) store row
  unfolding row_of
  first-Indexed key keys none row first e d same = absurd (ground arith)
  first-Indexed key keys (some bytes) row first e d same = record {
    key = key;
    listed = head refl;
    bytes = bytes;
    stored = e;
    decoded = d ∙ ap some (sym same);
  }

  pick_row :
      (key : List ℕ) (keys : List (List ℕ)) (row first : IndexRow) (rest : List IndexRow)
      → row_of decode (store key).row ≡ some first
      → (In row rest → Indexed decode keys store row)
      → In row (first ∷ rest)
      → Indexed decode (key ∷ keys) store row
  pick_row key keys row first rest d further (head e) =
      first-Indexed key keys (store key).row row first refl d e
  pick_row key keys row first rest d further (behind i) = behind-Indexed key keys row (further i)

  rows-Indexed :
      (keys : List (List ℕ)) (row : IndexRow)
      → In row (rows decode keys store)
      → Indexed decode keys store row
  unfolding rows
  rows-Indexed [] row = λ i. elim i [ ]
  rows-Indexed (key ∷ keys) row = elim (Option-cases (row_of decode (store key).row)) [
    | inl e ↦ rw (e, rows) (λ i. behind-Indexed key keys row (rows-Indexed keys row i))
    | inr (first, e) ↦
        rw (e, rows)
          (pick_row key keys row first (rows decode keys store) e (rows-Indexed keys row))
  ]

  In-rows :
      (keys : List (List ℕ)) (key : List ℕ) (bytes : List ℕ) (row : IndexRow)
      → In key keys
      → (store key).row ≡ some bytes
      → decode bytes ≡ some row
      → In row (rows decode keys store)
  unfolding rows row_of
  In-rows [] key bytes row i e d = elim i [ ]
  In-rows (k ∷ keys) key bytes row (head same) e d =
      let here : (store k).row ≡ some bytes = subst (λ q. (store q).row ≡ some bytes) same e in
      rw (here, d, rows) (head refl)
  In-rows (k ∷ keys) key bytes row (behind i) e d =
      elim (Option-cases (row_of decode (store k).row)) [
        | inl x ↦ rw (x, rows) (In-rows keys key bytes row i e d)
        | inr (first, x) ↦ rw (x, rows) (behind (In-rows keys key bytes row i e d))
      ]

All-In {ℓ κ} : {A : Type ℓ} (P : A → Type κ) (x : A) (list : List A) → All P list → In x list → P x
All-In P x (y ∷ ys) (p, ps) (head e) = subst P (sym e) p
All-In P x (y ∷ ys) (p, ps) (behind i) = All-In P x ys ps i
All-In P x [] ps i = elim i [ ]

-- A sweep that ends well reports exactly the abandoned devices among the entries of the listed keys
-- that decode, and none of those that it reports has an entry then. Abandoned is an ephemeral device
-- other than ours, last used more than 120,000 milliseconds ago, whose lock is free.
pub sweep-IsAbandoned :
    {Snapshot Delta Journal View : Type 0} (world : World Snapshot Delta Journal View)
    (ours : List ℕ) (now : ℕ) (is_held : List ℕ → Bool) (decode : List ℕ → Option IndexRow)
    (keys : List (List ℕ)) (store : Store) (result : List (List ℕ))
    → (sweep world decode keys is_held ours now store).1 ≡ ok result
    → ((id : List ℕ)
        → In id result
        → ((row : IndexRow) × Indexed decode keys store row
            × IsAbandoned ours now is_held row
            × (id ≡ row.id))
          × (((sweep world decode keys is_held ours now store).0 id).row ≡ none))
      × ((row : IndexRow)
          → Indexed decode keys store row
          → IsAbandoned ours now is_held row
          → In row.id result)
unfolding sweep
sweep-IsAbandoned world ours now is_held decode keys store result went =
    let list = rows decode keys store in
    let is : result ≡ abandoned ours now is_held list =
      sweep_rows-abandoned world ours now is_held list store [] result went in
    let gone = sweep_rows-swept world ours now is_held list store [] result went in
    (
      λ id i.
          let there : In id (abandoned ours now is_held list) = subst (In id) is i in
          let (row, found, e, k) = abandoned-In ours now is_held id list there in
          (
            (
              row,
              rows-Indexed decode store keys row found,
              is_kept→IsAbandoned ours now is_held row k,
              e,
            ),
            All-In (λ q. ((sweep world decode keys is_held ours now store).0 q).row ≡ none) id
                (abandoned ours now is_held list) gone there,
          ),
      λ row x v.
          let found = In-rows decode store keys x.key x.bytes row x.listed x.stored x.decoded in
          subst (In row.id) (sym is) (
            In-abandoned ours now is_held row list found
              (IsAbandoned→is_kept ours now is_held row v)),
    )
