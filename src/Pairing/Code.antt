-- ===== src/Pairing/Code.antt =====
-- runtime/crates/kernel/src/pairing.rs: the code that a person types, spaced as they like.
use polyvisor.Common.{
  ℕ, ◌≡◌, refl, sym, ap, ◌∙◌, List, [], ◌∷◌, ◌++◌, Bool, true, false, ◌||◌, ok, length,
  length-append, take, drop, take-append_length, drop-append_length, IsBytes, IsBytes-append, All,
  arith, ◌==◌, take-append_length,
}
use mathlib.Core.List.{append-nil}
use polyvisor.Primitives.{Encoding, EncodingLaws}
use polyvisor.Pairing.{encode_code, decode_code, clean, code_version}

module _ (base32 : Encoding) (laws : EncodingLaws base32) (is_whitespace : ℕ → Bool) where
  -- What `decode_code` drops.
  abbrev pub is_separator : ℕ → Bool
  is_separator c = is_whitespace c || (c == b'-')

  -- A text with separators put in anywhere.
  pub data Spaced : List ℕ → List ℕ → Type 0 where
    end : Spaced [] []
    keep : (c : ℕ) {code text : List ℕ} → Spaced code text → Spaced (c ∷ code) (c ∷ text)
    space :
        (c : ℕ) {code text : List ℕ}
        → is_separator c ≡ true
        → Spaced code text
        → Spaced code (c ∷ text)

  -- No symbol of the alphabet is a separator.
  abbrev pub IsSolid : List ℕ → Type 0
  IsSolid = All (λ c. is_separator c ≡ false)

  pub clean-Spaced :
      {code text : List ℕ}
      → Spaced code text
      → IsSolid code
      → clean base32 is_whitespace text ≡ code
  unfolding clean
  clean-Spaced end h = refl
  clean-Spaced (keep c s) (hc, h) = rw hc (ap (λ l. c ∷ l) (clean-Spaced s h))
  clean-Spaced (space c hc s) h = rw hc (clean-Spaced s h)

  -- If no symbol of the encoding is a separator, the code of a key of 32 bytes and a token of 16 is
  -- read back from any spacing of it.
  pub decode_code-encode_code :
      (key token text : List ℕ)
      → length key ≡ 32
      → length token ≡ 16
      → IsBytes key
      → IsBytes token
      → ((b : List ℕ) → IsBytes b → IsSolid (base32.encode b))
      → Spaced (encode_code base32 is_whitespace key token) text
      → decode_code base32 is_whitespace text ≡ ok (key, token)
  unfolding decode_code encode_code
  decode_code-encode_code key token text hk ht bk bt solid s =
      let payload = code_version ∷ (key ++ token) in
      let bytes : IsBytes payload = (omega arith, IsBytes-append key token bk bt) in
      let whole : length (key ++ token) ≡ 48 = omega (arith, length-append key token) in
      let key_part : take 32 (key ++ token) ≡ key = take-append_length 32 key token hk in
      let rest : drop 32 (key ++ token) ≡ token = drop-append_length 32 key token hk in
      let token_part : take 16 token ≡ token =
        ap (take 16) (sym (append-nil token)) ∙ take-append_length 16 token [] ht in
      rw (clean-Spaced s (solid payload bytes), laws.decode-encode payload bytes, whole)
        (rw (key_part, rest, token_part) refl)
