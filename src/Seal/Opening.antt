-- ===== src/Seal/Opening.antt =====
-- runtime/crates/kernel/src/seal.rs: what opens is what was sealed.
use polyvisor.Common.{
  ℕ, ◌≡◌, refl, ap, ◌∙◌, inl, inr, List, ◌++◌, Option, some, Option-cases, ok, Result-cases, length,
  length-append, take, drop, take-append-drop, take-append_length, drop-append_length, leb, arith,
  true,
}
use polyvisor.Primitives.{Aead, AeadLaws}
use polyvisor.Seal.{
  encrypt, decrypt, seal, unseal, derive_kek, wrap, unwrap_with, WrappedDek, decode_dek,
}

module _ (aead : Aead) (laws : AeadLaws aead) where
  seal-ok :
      (dek nonce plain aad blob : List ℕ)
      → seal aead dek nonce plain aad ≡ ok blob
      → (ct : List ℕ) × (aead.encrypt dek nonce aad plain ≡ some ct) × (blob ≡ nonce ++ ct)
  unfolding seal encrypt
  seal-ok dek nonce plain aad blob h = elim (Option-cases (aead.encrypt dek nonce aad plain)) [
    | inl e ↦ absurd (ground arith)
    | inr (ct, e) ↦ (ct, e, ground arith)
  ]

  -- A blob that was sealed under a nonce of 12 bytes opens to what was sealed.
  pub unseal-seal :
      (dek nonce plain aad blob : List ℕ)
      → length nonce ≡ 12
      → seal aead dek nonce plain aad ≡ ok blob
      → unseal aead dek blob aad ≡ ok plain
  unfolding unseal decrypt
  unseal-seal dek nonce plain aad blob long h =
      let (ct, e, is) = seal-ok dek nonce plain aad blob h in
      let front : take 12 (nonce ++ ct) ≡ nonce = take-append_length 12 nonce ct long in
      let back : drop 12 (nonce ++ ct) ≡ ct = drop-append_length 12 nonce ct long in
      let size : leb 12 (length (nonce ++ ct)) ≡ true = ground (arith, length-append nonce ct) in
      rw (is, size, front, back, laws.decrypt-encrypt dek nonce aad plain ct e) refl

  -- A blob that opens is exactly what sealing the plaintext under its first 12 bytes gives.
  pub seal-unseal :
      (dek plain aad blob : List ℕ)
      → unseal aead dek blob aad ≡ ok plain
      → seal aead dek (take 12 blob) plain aad ≡ ok blob
  unfolding unseal decrypt seal encrypt
  seal-unseal dek plain aad blob h =
      elim (Option-cases (aead.decrypt dek (take 12 blob) aad (drop 12 blob))) [
        | inl e ↦ absurd (ground arith)
        | inr (p, e) ↦
            let same : p ≡ plain = ground arith in
            let opened : aead.decrypt dek (take 12 blob) aad (drop 12 blob) ≡ some plain =
              e ∙ ap some same in
            rw (laws.encrypt-decrypt dek (take 12 blob) aad plain (drop 12 blob) opened)
              (ap ok (take-append-drop 12 blob))
      ]

  -- A data key of 32 bytes that is wrapped comes back under the same passphrase and device.
  pub unwrap_with-wrap :
      (argon2 : List ℕ → List ℕ → Option (List ℕ)) (salt nonce dek passphrase id : List ℕ)
      (w : WrappedDek)
      → length nonce ≡ 12
      → length dek ≡ 32
      → wrap aead argon2 salt nonce dek passphrase id ≡ ok w
      → unwrap_with aead argon2 w passphrase id ≡ ok dek
  unfolding wrap unwrap_with encrypt decrypt decode_dek
  unwrap_with-wrap argon2 salt nonce dek passphrase id w long full h =
      elim (Result-cases (derive_kek aead argon2 passphrase salt)) [
        | inr (e, x) ↦ absurd (ground arith)
        | inl (kek, x) ↦ elim (Option-cases (aead.encrypt kek nonce id dek)) [
          | inl e ↦ absurd (ground arith)
          | inr (ct, e) ↦
              let is : w ≡ record { salt = salt; nonce = nonce; ct = ct } = ground arith in
              rw (is, x, long, laws.decrypt-encrypt kek nonce id dek ct e, full) refl
        ]
      ]
