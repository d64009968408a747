-- ===== src/Z32/Tests.antt =====
-- runtime/component/src/z32.rs: the theorems at a short text.
use polyvisor.Common.{◌≡◌, refl, [], ◌∷◌, ok, arith, codes}
use polyvisor.Z32.{encode, decode, decode_loop, position}
use polyvisor.Z32.RoundTrip.{z32_decode-encode}
use polyvisor.Z32.Canonical.{z32_encode-decode}

z32_decode-encode_example : decode (encode (104 ∷ 105 ∷ [])) ≡ ok (104 ∷ 105 ∷ [])
z32_decode-encode_example = z32_decode-encode (104 ∷ 105 ∷ []) (omega arith, (omega arith, tt))

z32_encode-decode_example : encode (0 ∷ []) ≡ codes "yy"
unfolding decode decode_loop position
z32_encode-decode_example = z32_encode-decode (codes "yy") (0 ∷ []) refl
