-- ===== src/Meeting/Fragment.antt =====
-- runtime/crates/kernel/src/meeting.rs: the fragment of a meeting link.
use polyvisor.Common.{
  ℕ, ◌≡◌, refl, sym, ap, ◌∙◌, List, [], ◌∷◌, ◌++◌, append-nil, length, length-append, take, drop,
  take-append_length, drop-append_length, IsBytes, IsBytes-append, ok, arith, codes, strip_prefix,
  Bool,
}
use polyvisor.Primitives.{Encoding, EncodingLaws}
use polyvisor.Pairing.Code.{IsSolid, Spaced, clean-Spaced}
use polyvisor.Meeting.{encode_fragment, decode_fragment, without_kind, code_version}

without_kind-append : (text : List ℕ) → without_kind (codes "meet/" ++ text) ≡ text
unfolding without_kind strip_prefix
without_kind-append text = refl

module _ (base32 : Encoding) (laws : EncodingLaws base32) (is_whitespace : ℕ → Bool) where
  -- If no symbol of the encoding is a separator, the fragment of a key of 32 bytes and a token of 16
  -- is read back from any spacing of it behind `meet/`.
  pub decode_fragment-encode_fragment :
      (key token text : List ℕ)
      → length key ≡ 32
      → length token ≡ 16
      → IsBytes key
      → IsBytes token
      → ((b : List ℕ) → IsBytes b → IsSolid base32 laws is_whitespace (base32.encode b))
      → Spaced base32 laws is_whitespace (encode_fragment base32 is_whitespace key token) text
      → decode_fragment base32 is_whitespace (codes "meet/" ++ text) ≡ ok (key, token)
  unfolding decode_fragment encode_fragment
  decode_fragment-encode_fragment key token text hk ht bk bt solid s =
      let payload = code_version ∷ (key ++ token) in
      let bytes : IsBytes payload = (omega arith, IsBytes-append key token bk bt) in
      let whole : length (key ++ token) ≡ 48 = omega (arith, length-append key token) in
      let key_part : take 32 (key ++ token) ≡ key = take-append_length 32 key token hk in
      let rest : drop 32 (key ++ token) ≡ token = drop-append_length 32 key token hk in
      let token_part : take 16 token ≡ token =
        ap (take 16) (sym (append-nil token)) ∙ take-append_length 16 token [] ht in
      let bare = without_kind-append text in
      let cleaned = clean-Spaced base32 laws is_whitespace s (solid payload bytes) in
      rw (bare, cleaned, laws.decode-encode payload bytes, whole)
        (rw (key_part, rest, token_part) refl)
