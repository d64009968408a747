-- ===== src/Primitives/Toy.antt =====
-- Small functions that meet the laws of the interfaces, for the witnesses.
use polyvisor.Common.{
  ℕ, ◌+◌, ◌%◌, ◌≡◌, refl, sym, ap, ap₂, subst, ◌-◌, All, ◌==◌, false, List, [], ◌∷◌, ◌++◌, some,
  Bool, true, ◌&&◌, length, IsBytes, IsBytes-append, IsBytes-replicate, replicate, strip_prefix,
  strip_prefix-append, strip_prefix-eq-some, arith, ltb,
}
use polyvisor.Primitives.{Aead, AeadLaws, Mac, MacLaws, Encoding, EncodingLaws, CanonicalLaws, Utf8}

-- The text behind a tag of 16 zeros.
abbrev pub toy_aead : Aead
toy_aead = record {
  encrypt = λ k n d m. some (replicate 16 0 ++ m);
  decrypt = λ k n d c. strip_prefix (replicate 16 0) c;
}

some_eq : (t b : List ℕ) → some t ≡ some b → t ≡ b
some_eq t b h = ground arith

toy_aead-decrypt :
    (m c : List ℕ) → some (replicate 16 0 ++ m) ≡ some c → strip_prefix (replicate 16 0) c ≡ some m
toy_aead-decrypt m c h = ground (arith, strip_prefix-append (replicate 16 0) m)

toy_aead-IsBytes : (m c : List ℕ) → IsBytes m → some (replicate 16 0 ++ m) ≡ some c → IsBytes c
toy_aead-IsBytes m c h e =
    subst IsBytes (some_eq (replicate 16 0 ++ m) c e)
      (IsBytes-append (replicate 16 0) m (IsBytes-replicate 16 0 (omega arith)) h)

pub toy_aead_laws : AeadLaws toy_aead
toy_aead_laws = record {
  decrypt-encrypt = λ k n d m c h. toy_aead-decrypt m c h;
  encrypt-decrypt = λ k n d m c h. ap some (sym (strip_prefix-eq-some (replicate 16 0) c m h));
  encrypt_small = λ k n d m h. (replicate 16 0 ++ m, refl);
  encrypt_length = λ k n d m c h. ground (arith);
  encrypt-IsBytes = λ k n d m c h e. toy_aead-IsBytes m c h e;
}

-- The length of the message, and zeros.
abbrev pub toy_mac : Mac
toy_mac = record { mac = λ k m. (length m % 256) ∷ replicate 31 0 }

pub toy_mac_laws : MacLaws toy_mac
toy_mac_laws = record { length-mac = λ k m. refl; mac-IsBytes = λ k m. omega arith }

-- A text that is its bytes.
abbrev pub toy_encoding : Encoding
toy_encoding = record { encode = λ b. b; decode = λ t. some t }

pub toy_encoding_laws : EncodingLaws toy_encoding
toy_encoding_laws = record { decode-encode = λ b h. refl; encode_length = λ b c h. h }

pub toy-CanonicalLaws : CanonicalLaws toy_encoding
toy-CanonicalLaws = record { encode-decode = λ t b h. sym (some_eq t b h) }

is_ascii : List ℕ → Bool
is_ascii [] = true
is_ascii (b ∷ bs) = ltb b 128 && is_ascii bs

-- Plain ASCII.
unfoldable pub toy_utf8 : Utf8
unfolding is_ascii
toy_utf8 = record { valid = is_ascii }

-- Each byte moved up, so that no symbol is `-`.
unfoldable pub shift_up : List ℕ → List ℕ
shift_up [] = []
shift_up (b ∷ bs) = (b + 46) ∷ shift_up bs

unfoldable pub shift_down : List ℕ → List ℕ
shift_down [] = []
shift_down (c ∷ cs) = (c - 46) ∷ shift_down cs

abbrev pub toy_base32 : Encoding
toy_base32 = record { encode = shift_up; decode = λ t. some (shift_down t) }

shift_down-shift_up : (b : List ℕ) → shift_down (shift_up b) ≡ b
unfolding shift_down shift_up
shift_down-shift_up [] = refl
shift_down-shift_up (b ∷ bs) = ap₂ (λ x l. x ∷ l) (omega arith) (shift_down-shift_up bs)

length-shift_up : (b c : List ℕ) → length b ≡ length c → length (shift_up b) ≡ length (shift_up c)
unfolding shift_up
length-shift_up [] [] h = refl
length-shift_up [] (c ∷ cs) h = absurd (omega arith)
length-shift_up (b ∷ bs) [] h = absurd (omega arith)
length-shift_up (b ∷ bs) (c ∷ cs) h = omega (arith, length-shift_up bs cs (omega arith))

pub toy_base32_laws : EncodingLaws toy_base32
toy_base32_laws = record {
  decode-encode = λ b h. ap some (shift_down-shift_up b);
  encode_length = λ b c h. length-shift_up b c h;
}

pub shift_up-All : (b : List ℕ) → All (λ c. (c == 45) ≡ false) (shift_up b)
unfolding shift_up
shift_up-All [] = tt
shift_up-All (b ∷ bs) = (ground arith, shift_up-All bs)
