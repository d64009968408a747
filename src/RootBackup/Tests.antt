-- ===== src/RootBackup/Tests.antt =====
-- A backup under a toy cipher.
use polyvisor.Common.{ℕ, ◌≡◌, refl, List, [], ◌∷◌, ◌++◌, ok, length, replicate, bytes_eq}
use polyvisor.Primitives.Toy.{toy_aead, toy_aead_laws}
use polyvisor.Opaque.{to_be_bytes}
use polyvisor.RootBackup.{preamble, salt_of, prepare_encrypt, prepare_decrypt, encrypt, decrypt}
use polyvisor.RootBackup.Envelope.{decrypt-encrypt, decrypt-root}

abbrev seed : List ℕ
seed = replicate 32 5

abbrev group : List ℕ
group = replicate 32 6

abbrev public : List ℕ → List ℕ
public s = 1 ∷ replicate 31 2

abbrev salt : List ℕ
salt = replicate 16 7

abbrev nonce : List ℕ
nonce = replicate 12 8

backup : List ℕ
backup = prepare_encrypt public seed group salt nonce ++ (replicate 16 0 ++ seed)

backs_up :
    encrypt toy_aead public (prepare_encrypt public seed group salt nonce) seed (9 ∷ []) ≡ ok backup
unfolding encrypt prepare_encrypt preamble to_be_bytes bytes_eq backup
backs_up = refl

decrypt-encrypt_example :
    (length backup ≡ 162)
    × (prepare_decrypt (public seed) group backup ≡ ok backup)
    × (salt_of backup ≡ salt)
    × (decrypt toy_aead public backup (9 ∷ []) ≡ ok seed)
decrypt-encrypt_example =
    decrypt-encrypt toy_aead toy_aead_laws public seed group salt nonce (9 ∷ []) backup refl refl
      refl refl refl backs_up

decrypt-root_example : (backup ≡ backup) × (length seed ≡ 32) × (public seed ≡ public seed)
decrypt-root_example =
    decrypt-root toy_aead public (public seed) group backup backup seed (9 ∷ []) accepts opened
  where
    all :
        (length backup ≡ 162)
        × (prepare_decrypt (public seed) group backup ≡ ok backup)
        × (salt_of backup ≡ salt)
        × (decrypt toy_aead public backup (9 ∷ []) ≡ ok seed)
    all =
        decrypt-encrypt toy_aead toy_aead_laws public seed group salt nonce (9 ∷ []) backup refl
          refl refl refl refl backs_up

    accepts : prepare_decrypt (public seed) group backup ≡ ok backup
    accepts = all.1

    opened : decrypt toy_aead public backup (9 ∷ []) ≡ ok seed
    opened = all.3
