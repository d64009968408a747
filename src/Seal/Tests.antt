-- ===== src/Seal/Tests.antt =====
-- Runs of sealing and opening, with a toy cipher.
use polyvisor.Common.{ℕ, ◌≡◌, refl, List, [], ◌∷◌, ◌++◌, Option, some, ok, replicate}
use polyvisor.Primitives.Toy.{toy_aead}
use polyvisor.Seal.{seal, unseal, wrap, unwrap_with, WrappedDek}

abbrev key : List ℕ
key = replicate 32 7

abbrev nonce : List ℕ
nonce = replicate 12 9

abbrev blob : List ℕ
blob = nonce ++ (replicate 16 0 ++ (104 ∷ 105 ∷ []))

abbrev toy_argon2 : List ℕ → List ℕ → Option (List ℕ)
toy_argon2 passphrase salt = some (replicate 32 1)

abbrev resting : WrappedDek
resting = record { salt = replicate 16 3; nonce = nonce; ct = replicate 16 0 ++ key }

sealed : seal toy_aead key nonce (104 ∷ 105 ∷ []) (1 ∷ []) ≡ ok blob
unfolding polyvisor.Seal.seal polyvisor.Seal.encrypt
sealed = refl

wrapped : wrap toy_aead toy_argon2 (replicate 16 3) nonce key (112 ∷ []) (1 ∷ []) ≡ ok resting
unfolding polyvisor.Seal.wrap polyvisor.Seal.encrypt polyvisor.Seal.derive_kek
wrapped = refl
