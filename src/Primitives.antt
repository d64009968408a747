-- ===== src/Primitives.antt =====
-- What the code takes from other crates: the cipher, the hashes, the text encodings. Each is a
-- record of operations, with a record of the documented laws that the proofs use.
pub mod Toy
use polyvisor.Common.{ℕ, ◌+◌, ◌≤◌, ◌≡◌, List, Option, some, Bool, length, IsBytes}

-- `aes_gcm::Aes256Gcm`. Arguments: key, nonce, associated data, text.
pub record Aead : Type 0 where
  pub encrypt : List ℕ → List ℕ → List ℕ → List ℕ → Option (List ℕ)
  pub decrypt : List ℕ → List ℕ → List ℕ → List ℕ → Option (List ℕ)

-- GCM is deterministic in its nonce: a text opens exactly when it is what sealing gives, and
-- carries a tag of 16 bytes. Sealing refuses only a message over its limit, 2 ^ 36 - 32 bytes.
pub record AeadLaws (a : Aead) : Type 0 where
  pub decrypt-encrypt :
      (k n d m c : List ℕ) → a.encrypt k n d m ≡ some c → a.decrypt k n d c ≡ some m
  pub encrypt-decrypt :
      (k n d m c : List ℕ) → a.decrypt k n d c ≡ some m → a.encrypt k n d m ≡ some c
  pub encrypt_small :
      (k n d m : List ℕ) → length m ≤ 1_000_000 → (c : List ℕ) × (a.encrypt k n d m ≡ some c)
  pub encrypt_length : (k n d m c : List ℕ) → a.encrypt k n d m ≡ some c → length c ≡ length m + 16
  pub encrypt-IsBytes : (k n d m c : List ℕ) → IsBytes m → a.encrypt k n d m ≡ some c → IsBytes c

-- `Hmac<Sha256>`, `blake3`: 32 bytes.
pub record Mac : Type 0 where
  pub mac : List ℕ → List ℕ → List ℕ

pub record MacLaws (h : Mac) : Type 0 where
  pub length-mac : (k m : List ℕ) → length (h.mac k m) ≡ 32
  pub mac-IsBytes : (k m : List ℕ) → IsBytes (h.mac k m)

-- An encoding of `data_encoding`: BASE64URL_NOPAD, BASE32_NOPAD_VISUAL, HEXLOWER.
pub record Encoding : Type 0 where
  pub encode : List ℕ → List ℕ
  pub decode : List ℕ → Option (List ℕ)

pub record EncodingLaws (e : Encoding) : Type 0 where
  pub decode-encode : (b : List ℕ) → IsBytes b → e.decode (e.encode b) ≡ some b
  -- The length of a text depends only on the length of the bytes.
  pub encode_length :
      (b c : List ℕ) → length b ≡ length c → length (e.encode b) ≡ length (e.encode c)

-- Trailing bits are checked, so no bytes have a second spelling (BASE64URL_NOPAD, HEXLOWER).
pub record CanonicalLaws (e : Encoding) : Type 0 where
  pub encode-decode : (t b : List ℕ) → e.decode t ≡ some b → e.encode b ≡ t

-- `std::str::from_utf8(bytes).is_ok()`.
pub record Utf8 : Type 0 where
  pub valid : List ℕ → Bool
