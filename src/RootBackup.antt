-- ===== src/RootBackup.antt =====
-- runtime/crates/kernel/src/root_backup.rs: the backup of the root seed under a passphrase. The
-- error carries nothing, as in the source.
pub mod Envelope
mod Tests
use polyvisor.Common.{
  ℕ, ◌+◌, List, [], ◌∷◌, ◌++◌, Option, Bool, ◌&&◌, Result, ok, guard, ok_or, ◌>>=◌, ◌>>◌, length,
  take, drop, get_or, ◌==◌, leb, bytes_eq, codes,
}
use polyvisor.Opaque.{to_be_bytes, from_be_bytes}
use polyvisor.Primitives.{Aead}

abbrev pub argon2_memory_kib : ℕ
argon2_memory_kib = 65_536

abbrev pub argon2_time_cost : ℕ
argon2_time_cost = 3

abbrev pub argon2_lanes : ℕ
argon2_lanes = 1

abbrev pub magic : List ℕ
magic = codes "PVROOTBK"

abbrev pub version : ℕ
version = 1

abbrev pub kdf_argon2id_v19 : ℕ
kdf_argon2id_v19 = 1

abbrev pub header_len : ℕ
header_len = 114

abbrev pub encoded_len : ℕ
encoded_len = 162

abbrev pub max_passphrase_len : ℕ
max_passphrase_len = 1_024

-- `bytes[at..at + n]`.
abbrev pub slice : ℕ → ℕ → List ℕ → List ℕ
slice at n bytes = take n (drop at bytes)

abbrev pub read_u32 : List ℕ → ℕ → ℕ
read_u32 bytes at = from_be_bytes 0 (slice at 4 bytes)

-- The part of the header before the root: offsets 0 to 22.
unfoldable pub preamble : List ℕ
preamble =
    magic
    ++ (version
        ∷ kdf_argon2id_v19
        ∷ (to_be_bytes 4 argon2_memory_kib
            ++ (to_be_bytes 4 argon2_time_cost ++ to_be_bytes 4 argon2_lanes)))

-- `PreparedDecryption::salt`, at the offsets of `PreparedEncryption::salt`.
abbrev pub salt_of : List ℕ → List ℕ
salt_of bytes = slice 86 16 bytes

-- `prepare_encrypt`, over the key of a seed: the header.
unfoldable pub prepare_encrypt : (List ℕ → List ℕ) → List ℕ → List ℕ → List ℕ → List ℕ → List ℕ
prepare_encrypt public seed group salt nonce =
    preamble ++ (public seed ++ (group ++ (salt ++ nonce)))

-- `prepare_decrypt`: the envelope.
unfoldable pub prepare_decrypt : List ℕ → List ℕ → List ℕ → Result (Unit {0}) (List ℕ)
prepare_decrypt expected_root expected_group envelope = do
  guard (length envelope == encoded_len) tt
  guard (bytes_eq (take 8 envelope) magic) tt
  guard (get_or envelope 8 0 == version) tt
  guard (get_or envelope 9 0 == kdf_argon2id_v19) tt
  guard (read_u32 envelope 10 == argon2_memory_kib) tt
  guard (read_u32 envelope 14 == argon2_time_cost) tt
  guard (read_u32 envelope 18 == argon2_lanes) tt
  guard (bytes_eq (slice 22 32 envelope) expected_root) tt
  guard (bytes_eq (slice 54 32 envelope) expected_group) tt
  ok envelope

-- `derive_key`, over Argon2id under the parameters above.
unfoldable pub derive_key :
    (List ℕ → List ℕ → Option (List ℕ)) → List ℕ → List ℕ → Result (Unit {0}) (List ℕ)
derive_key argon2 passphrase salt = do
  guard (leb (length passphrase) max_passphrase_len) tt
  ok_or (argon2 passphrase salt) tt

module _ (aead : Aead) (public : List ℕ → List ℕ) where
  unfoldable pub encrypt : List ℕ → List ℕ → List ℕ → Result (Unit {0}) (List ℕ)
  encrypt header seed key = do
    guard (bytes_eq (public seed) (slice 22 32 header)) tt
    ciphertext ← ok_or (aead.encrypt key (drop 102 header) header seed) tt
    ok (header ++ ciphertext)

  unfoldable pub decrypt : List ℕ → List ℕ → Result (Unit {0}) (List ℕ)
  decrypt envelope key = do
    seed ←
        ok_or
          (aead.decrypt key (slice 102 12 envelope) (take header_len envelope)
            (drop header_len envelope))
          tt
    guard (length seed == 32) tt
    guard (bytes_eq (public seed) (slice 22 32 envelope)) tt
    ok seed
