-- ===== src/Z32/Canonical.antt =====
-- runtime/component/src/z32.rs: a text that `decode` accepts is the one that `encode` writes.
-- The encoder now trails the decoder by up to two symbols: one lemma for each of the eight
-- numbers of bits that the decoder can hold, with the symbols that the encoder still owes.
use polyvisor.Common.{
  ◌≡◌, refl, sym, ℕ, suc, ◌+◌, ◌-◌, ◌*◌, ◌/◌, ◌%◌, ◌^◌, ◌<◌, ◌≤◌, List, [], ◌∷◌, some, Result, ok,
  err, inl, inr, Option-cases, length, get_or, subst, ◌∙◌, arith, ◌==◌, Bool-cases,
}
use polyvisor.Z32.Symbols.{decode_loop_narrow, decode_loop_wide}
use polyvisor.Z32.{
  Error, alphabet, position, encode_loop, encode, decode_loop, decode, flush, shift_in, push,
  symbol,
}

position_found :
    (xs : List ℕ) (c v : ℕ) → position xs c ≡ some v → (v < length xs) × (get_or xs v 0 ≡ c)
unfolding position
position_found [] c v h = ground arith
position_found (x ∷ xs) c v h = elim (Bool-cases (x == c)) [
  | inl e ↦ ground arith
  | inr e ↦ elim (Option-cases (position xs c)) [
    | inl m ↦ ground arith
    | inr (w, m) ↦
        let (lt, eq) = position_found xs c w m in
        let v_eq : v ≡ suc w = ground arith in rw v_eq (omega arith, eq)
  ]
]

found_symbol : (c v : ℕ) → position alphabet c ≡ some v → (v < 32) × (symbol v ≡ c)
unfolding symbol
found_symbol c v h = position_found alphabet c v h

decode_ends :
    (d bits : ℕ) (bs : List ℕ)
    → decode_loop [] d bits ≡ ok bs
    → (bs ≡ []) × (bits < 5) × (d % 2 ^ bits ≡ 0)
unfolding decode_loop
decode_ends d bits bs h = ground arith

push-eq-ok :
    (b : ℕ) (r : Result Error (List ℕ)) (bs : List ℕ)
    → push b r ≡ ok bs
    → (bs' : List ℕ) × (bs ≡ b ∷ bs') × (r ≡ ok bs')
push-eq-ok b (ok out) bs h = (out, ground arith, refl)
push-eq-ok b (err e) bs h = absurd (ground arith)

-- A text that decodes begins with a symbol of the alphabet.
decode_first :
    (c : ℕ) (rest : List ℕ) (d bits : ℕ) (bs : List ℕ)
    → decode_loop (c ∷ rest) d bits ≡ ok bs
    → (v : ℕ) × (v < 32) × (symbol v ≡ c)
unfolding decode_loop
decode_first c rest d bits bs h = elim (Option-cases (position alphabet c)) [
  | inl m ↦ absurd (ground arith)
  | inr (v, m) ↦ (v, (found_symbol c v m).0, (found_symbol c v m).1)
]

-- Its rest decodes to the same bytes, or to those behind the byte that the symbol completes.
decode_narrow :
    (c : ℕ) (rest : List ℕ) (d bits : ℕ) (bs : List ℕ)
    → bits < 3
    → decode_loop (c ∷ rest) d bits ≡ ok bs
    → (v : ℕ) × (v < 32) × (symbol v ≡ c) × (decode_loop rest (shift_in 5 d v) (bits + 5) ≡ ok bs)
decode_narrow c rest d bits bs hb h =
    let (v, lt, eq) = decode_first c rest d bits bs h in
    (
      v,
      lt,
      eq,
      sym (decode_loop_narrow v rest d bits lt (ground arith))
          ∙ subst (λ k. decode_loop (k ∷ rest) d bits ≡ ok bs) (sym eq) h,
    )

decode_wide :
    (c : ℕ) (rest : List ℕ) (d bits : ℕ) (bs : List ℕ)
    → 3 ≤ bits
    → decode_loop (c ∷ rest) d bits ≡ ok bs
    → (v : ℕ) × (bs' : List ℕ) × (v < 32)
      × (symbol v ≡ c)
      × (bs ≡ (shift_in 5 d v / 2 ^ (bits + 5 - 8) % 256) ∷ bs')
      × (decode_loop rest (shift_in 5 d v) (bits + 5 - 8) ≡ ok bs')
decode_wide c rest d bits bs hb h =
    let (v, lt, eq) = decode_first c rest d bits bs h in
    let wide_step =
      sym (decode_loop_wide v rest d bits lt (ground arith))
      ∙ subst (λ k. decode_loop (k ∷ rest) d bits ≡ ok bs) (sym eq) h in
    let (bs', e, r) = push-eq-ok _ _ bs wide_step in (v, bs', lt, eq, e, r)

cons_symbol : {a b c : ℕ} {l m : List ℕ} → a ≡ b → symbol b ≡ c → l ≡ m → symbol a ∷ l ≡ c ∷ m
cons_symbol e f g = rw (e, f, g)

mutual
  unfolding encode_loop flush

  owes_none : (s bs : List ℕ) (e d : ℕ) → decode_loop s d 0 ≡ ok bs → encode_loop bs e 0 ≡ s
  owes_none [] bs e d h = let (nil, _, _) = decode_ends d 0 bs h in rw nil
  owes_none (c ∷ rest) bs e d h =
      let (v, lt, eq, next) = decode_narrow c rest d 0 bs (omega arith) h in
      owes_5 rest bs c e _ v eq (omega arith) next

  owes_5 :
      (s bs : List ℕ) (c e d v : ℕ)
      → symbol v ≡ c
      → d % 32 ≡ v
      → decode_loop s d 5 ≡ ok bs
      → encode_loop bs e 0 ≡ c ∷ s
  owes_5 [] bs c e d v hc hv h = let (_, lt, _) = decode_ends d 5 bs h in absurd (omega arith)
  owes_5 (c' ∷ rest) bs c e d v hc hv h =
      let (v', bs', lt, eq, cons, next) = decode_wide c' rest d 5 bs (omega arith) h in
      rw cons (cons_symbol (omega arith) hc (owes_2 rest bs' c' _ _ v' eq (omega arith) next))

  owes_2 :
      (s bs : List ℕ) (c e d v : ℕ)
      → symbol v ≡ c
      → e % 8 * 4 + d % 4 ≡ v
      → decode_loop s d 2 ≡ ok bs
      → encode_loop bs e 3 ≡ c ∷ s
  owes_2 [] bs c e d v hc hv h =
      let (nil, lt, zeros) = decode_ends d 2 bs h in rw nil (cons_symbol (omega arith) hc refl)
  owes_2 (c' ∷ rest) bs c e d v hc hv h =
      let (v', lt, eq, next) = decode_narrow c' rest d 2 bs (omega arith) h in
      owes_7 rest bs c c' e _ v v' hc eq lt (omega arith) next

  owes_7 :
      (s bs : List ℕ) (c c' e d v v' : ℕ)
      → symbol v ≡ c
      → symbol v' ≡ c'
      → v' < 32
      → e % 8 * 128 + d % 128 ≡ v * 32 + v'
      → decode_loop s d 7 ≡ ok bs
      → encode_loop bs e 3 ≡ c ∷ c' ∷ s
  owes_7 [] bs c c' e d v v' hc hc' lt' hv h =
      let (_, lt, _) = decode_ends d 7 bs h in absurd (omega arith)
  owes_7 (k ∷ rest) bs c c' e d v v' hc hc' lt' hv h =
      let (w, bs', lt, eq, cons, next) = decode_wide k rest d 7 bs (omega arith) h in
      rw cons (
        cons_symbol (omega arith) hc
          (cons_symbol (omega arith) hc' (owes_4 rest bs' k _ _ w eq (omega arith) next)))

  owes_4 :
      (s bs : List ℕ) (c e d v : ℕ)
      → symbol v ≡ c
      → e % 2 * 16 + d % 16 ≡ v
      → decode_loop s d 4 ≡ ok bs
      → encode_loop bs e 1 ≡ c ∷ s
  owes_4 [] bs c e d v hc hv h =
      let (nil, lt, zeros) = decode_ends d 4 bs h in rw nil (cons_symbol (omega arith) hc refl)
  owes_4 (k ∷ rest) bs c e d v hc hv h =
      let (w, bs', lt, eq, cons, next) = decode_wide k rest d 4 bs (omega arith) h in
      rw cons (cons_symbol (omega arith) hc (owes_1 rest bs' k _ _ w eq (omega arith) next))

  owes_1 :
      (s bs : List ℕ) (c e d v : ℕ)
      → symbol v ≡ c
      → e % 16 * 2 + d % 2 ≡ v
      → decode_loop s d 1 ≡ ok bs
      → encode_loop bs e 4 ≡ c ∷ s
  owes_1 [] bs c e d v hc hv h =
      let (nil, lt, zeros) = decode_ends d 1 bs h in rw nil (cons_symbol (omega arith) hc refl)
  owes_1 (k ∷ rest) bs c e d v hc hv h =
      let (w, lt, eq, next) = decode_narrow k rest d 1 bs (omega arith) h in
      owes_6 rest bs c k e _ v w hc eq lt (omega arith) next

  owes_6 :
      (s bs : List ℕ) (c c' e d v v' : ℕ)
      → symbol v ≡ c
      → symbol v' ≡ c'
      → v' < 32
      → e % 16 * 64 + d % 64 ≡ v * 32 + v'
      → decode_loop s d 6 ≡ ok bs
      → encode_loop bs e 4 ≡ c ∷ c' ∷ s
  owes_6 [] bs c c' e d v v' hc hc' lt' hv h =
      let (_, lt, _) = decode_ends d 6 bs h in absurd (omega arith)
  owes_6 (k ∷ rest) bs c c' e d v v' hc hc' lt' hv h =
      let (w, bs', lt, eq, cons, next) = decode_wide k rest d 6 bs (omega arith) h in
      rw cons (
        cons_symbol (omega arith) hc
          (cons_symbol (omega arith) hc' (owes_3 rest bs' k _ _ w eq (omega arith) next)))

  owes_3 :
      (s bs : List ℕ) (c e d v : ℕ)
      → symbol v ≡ c
      → e % 4 * 8 + d % 8 ≡ v
      → decode_loop s d 3 ≡ ok bs
      → encode_loop bs e 2 ≡ c ∷ s
  owes_3 [] bs c e d v hc hv h =
      let (nil, lt, zeros) = decode_ends d 3 bs h in rw nil (cons_symbol (omega arith) hc refl)
  owes_3 (k ∷ rest) bs c e d v hc hv h =
      let (w, bs', lt, eq, cons, next) = decode_wide k rest d 3 bs (omega arith) h in
      rw cons
        (cons_symbol (omega arith) hc (cons_symbol (omega arith) eq (owes_none rest bs' _ _ next)))

-- A text that decodes is exactly the text that its bytes encode to.
pub z32_encode-decode : (text bytes : List ℕ) → decode text ≡ ok bytes → encode bytes ≡ text
unfolding decode encode
z32_encode-decode text bytes h = owes_none text bytes 0 0 h
