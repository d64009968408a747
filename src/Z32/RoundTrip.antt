-- ===== src/Z32/RoundTrip.antt =====
-- runtime/component/src/z32.rs: `decode` reads back what `encode` wrote.
-- While it reads, the decoder is level with the encoder or behind it by one byte. That byte is then
-- split: its high bits wait in the decoder and its low bits in the encoder. One lemma for each split.
use polyvisor.Common.{
  ◌≡◌, ℕ, ◌+◌, ◌-◌, ◌*◌, ◌/◌, ◌%◌, ◌^◌, ◌<◌, ◌≤◌, List, [], ◌∷◌, Result, ok, IsBytes, ◌∙◌, arith,
}
use polyvisor.Z32.{Error, encode_loop, encode, decode_loop, decode, flush, shift_in, push, symbol}
use polyvisor.Z32.Symbols.{decode_loop_narrow, decode_loop_wide}

decode_end : (d bits : ℕ) → bits < 5 → d % 2 ^ bits ≡ 0 → decode_loop [] d bits ≡ ok []
unfolding decode_loop
decode_end d bits h e = ground arith

push_ok :
    {b c : ℕ} {bs : List ℕ} {r : Result Error (List ℕ)} → b ≡ c → r ≡ ok bs → push b r ≡ ok (c ∷ bs)
push_ok e h = rw (e, h)

-- A symbol that completes no byte, and one that completes the byte `x`.
narrow :
    (v : ℕ) (rest : List ℕ) (d bits : ℕ) {r : Result Error (List ℕ)}
    → v < 32
    → bits < 3
    → decode_loop rest (shift_in 5 d v) (bits + 5) ≡ r
    → decode_loop (symbol v ∷ rest) d bits ≡ r
narrow v rest d bits hv hb e = decode_loop_narrow v rest d bits hv (ground arith) ∙ e

wide :
    (v : ℕ) (rest : List ℕ) (d bits : ℕ) {x : ℕ} {xs : List ℕ}
    → v < 32
    → 3 ≤ bits
    → shift_in 5 d v / 2 ^ (bits + 5 - 8) % 256 ≡ x
    → decode_loop rest (shift_in 5 d v) (bits + 5 - 8) ≡ ok xs
    → decode_loop (symbol v ∷ rest) d bits ≡ ok (x ∷ xs)
wide v rest d bits hv hb e h = decode_loop_wide v rest d bits hv (ground arith) ∙ push_ok e h

mutual
  unfolding encode_loop flush

  level : (xs : List ℕ) (e d : ℕ) → IsBytes xs → decode_loop (encode_loop xs e 0) d 0 ≡ ok xs
  level [] e d h = decode_end d 0 (omega arith) (omega arith)
  level (x ∷ xs) e d (hx, h) =
      narrow _ _ d 0 (omega arith) (omega arith) (split_5_3 xs (shift_in 8 e x) _ x h (omega arith))

  split_5_3 :
      (xs : List ℕ) (e d x : ℕ)
      → IsBytes xs
      → d % 32 * 8 + e % 8 ≡ x
      → decode_loop (encode_loop xs e 3) d 5 ≡ ok (x ∷ xs)
  split_5_3 [] e d x h eq =
      wide _ [] d 5 (omega arith) (omega arith) (omega arith)
        (decode_end _ 2 (omega arith) (omega arith))
  split_5_3 (y ∷ ys) e d x (hy, h) eq = wide _ _ d 5 (omega arith) (omega arith) (omega arith) (
      narrow _ _ _ 2 (omega arith) (omega arith)
        (split_7_1 ys (shift_in 8 e y) _ y h (omega arith)))

  split_7_1 :
      (xs : List ℕ) (e d x : ℕ)
      → IsBytes xs
      → d % 128 * 2 + e % 2 ≡ x
      → decode_loop (encode_loop xs e 1) d 7 ≡ ok (x ∷ xs)
  split_7_1 [] e d x h eq =
      wide _ [] d 7 (omega arith) (omega arith) (omega arith)
        (decode_end _ 4 (omega arith) (omega arith))
  split_7_1 (y ∷ ys) e d x (hy, h) eq =
      wide _ _ d 7 (omega arith) (omega arith) (omega arith)
        (split_4_4 ys (shift_in 8 e y) _ y h (omega arith))

  split_4_4 :
      (xs : List ℕ) (e d x : ℕ)
      → IsBytes xs
      → d % 16 * 16 + e % 16 ≡ x
      → decode_loop (encode_loop xs e 4) d 4 ≡ ok (x ∷ xs)
  split_4_4 [] e d x h eq =
      wide _ [] d 4 (omega arith) (omega arith) (omega arith)
        (decode_end _ 1 (omega arith) (omega arith))
  split_4_4 (y ∷ ys) e d x (hy, h) eq = wide _ _ d 4 (omega arith) (omega arith) (omega arith) (
      narrow _ _ _ 1 (omega arith) (omega arith)
        (split_6_2 ys (shift_in 8 e y) _ y h (omega arith)))

  split_6_2 :
      (xs : List ℕ) (e d x : ℕ)
      → IsBytes xs
      → d % 64 * 4 + e % 4 ≡ x
      → decode_loop (encode_loop xs e 2) d 6 ≡ ok (x ∷ xs)
  split_6_2 [] e d x h eq =
      wide _ [] d 6 (omega arith) (omega arith) (omega arith)
        (decode_end _ 3 (omega arith) (omega arith))
  split_6_2 (y ∷ ys) e d x (hy, h) eq =
      wide _ _ d 6 (omega arith) (omega arith) (omega arith)
        (wide _ _ _ 3 (omega arith) (omega arith) (omega arith) (level ys (shift_in 8 e y) _ h))

-- Decoding the text of any byte string gives the byte string back.
pub z32_decode-encode : (bytes : List ℕ) → IsBytes bytes → decode (encode bytes) ≡ ok bytes
unfolding decode encode
z32_decode-encode bytes h = level bytes 0 0 h
