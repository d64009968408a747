-- ===== src/Seal.antt =====
-- runtime/crates/kernel/src/seal.rs: the data key, what it seals, and how it rests under a
-- passphrase. A message is kept without what the code interpolates into it.
pub mod Opening
mod Tests
use polyvisor.Common.{
  ℕ, List, [], ◌∷◌, ◌++◌, Option, Result, ok, err, guard, ok_or, ◌>>=◌, ◌>>◌, length, take, drop,
  ◌==◌, leb,
}
use polyvisor.Errors.{Error, failed}
use polyvisor.Primitives.{Aead}

abbrev pub dek_len : ℕ
dek_len = 32

abbrev pub nonce_len : ℕ
nonce_len = 12

abbrev pub unreadable : Error
unreadable = failed "the sealed record did not open"

-- `Dek::decode`.
pub decode_dek : List ℕ → Result Error (List ℕ)
decode_dek bytes = do
  guard (length bytes == dek_len) (failed "the stored data key has the wrong length")
  ok bytes

-- `WrappedDek`.
pub record WrappedDek : Type 0 where
  pub salt : List ℕ
  pub nonce : List ℕ
  pub ct : List ℕ

module _ (aead : Aead) where
  unfoldable pub encrypt : List ℕ → List ℕ → List ℕ → List ℕ → Result Error (List ℕ)
  encrypt key nonce plaintext aad =
      ok_or (aead.encrypt key nonce aad plaintext) (failed "the state could not be sealed")

  unfoldable pub decrypt : List ℕ → List ℕ → List ℕ → List ℕ → Result Error (List ℕ)
  decrypt key nonce ct aad = ok_or (aead.decrypt key nonce aad ct) unreadable

  -- `Dek::seal`, with the nonce that the generator draws.
  unfoldable pub seal : List ℕ → List ℕ → List ℕ → List ℕ → Result Error (List ℕ)
  seal dek nonce plaintext aad = do ct ← encrypt dek nonce plaintext aad; ok (nonce ++ ct)

  -- `Dek::open`.
  unfoldable pub unseal : List ℕ → List ℕ → List ℕ → Result Error (List ℕ)
  unseal dek blob aad = do
    guard (leb nonce_len (length blob)) unreadable
    decrypt dek (take nonce_len blob) (drop nonce_len blob) aad

  -- `argon2` is `Argon2::hash_password_into` under the parameters that `derive_kek` fixes.
  module _ (argon2 : List ℕ → List ℕ → Option (List ℕ)) where
    pub derive_kek : List ℕ → List ℕ → Result Error (List ℕ)
    derive_kek passphrase salt =
        ok_or (argon2 passphrase salt) (failed "the passphrase could not be turned into a key")

    -- With the salt and the nonce that the generator draws.
    pub wrap : List ℕ → List ℕ → List ℕ → List ℕ → List ℕ → Result Error WrappedDek
    wrap salt nonce dek passphrase id = do
      kek ← derive_kek passphrase salt
      ct ← encrypt kek nonce dek id
      ok (record { salt = salt; nonce = nonce; ct = ct })

    pub unwrap_with : WrappedDek → List ℕ → List ℕ → Result Error (List ℕ)
    unwrap_with w passphrase id = do
      kek ← derive_kek passphrase w.salt
      guard (length w.nonce == nonce_len) unreadable
      plain ← decrypt kek w.nonce w.ct id
      decode_dek plain
