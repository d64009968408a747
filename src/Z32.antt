-- ===== src/Z32.antt =====
-- runtime/component/src/z32.rs: the z-base-32 text of an endpoint id.
-- Bytes and ASCII characters are numbers; `u32` arithmetic keeps its wrap-around.
pub mod Symbols
pub mod RoundTrip
pub mod Canonical
mod Tests
use polyvisor.Common.{
  ℕ, zero, suc, ◌+◌, ◌-◌, ◌*◌, ◌/◌, ◌%◌, ◌^◌, ◌||◌, not, List, [], ◌∷◌, ◌++◌, Option, none, some,
  Result, ok, err, ◌==◌, ltb, leb, if◌then◌else◌, get_or,
}

-- `ALPHABET`: "ybndrfg8ejkmcpqxot1uwisza345h769".
abbrev pub alphabet : List ℕ
alphabet =
    b'y' ∷ b'b' ∷ b'n' ∷ b'd' ∷ b'r' ∷ b'f' ∷ b'g' ∷ b'8' ∷ b'e' ∷ b'j' ∷ b'k' ∷ b'm' ∷ b'c' ∷ b'p'
    ∷ b'q' ∷ b'x' ∷ b'o' ∷ b't' ∷ b'1' ∷ b'u' ∷ b'w' ∷ b'i' ∷ b's' ∷ b'z' ∷ b'a' ∷ b'3' ∷ b'4'
    ∷ b'5' ∷ b'h' ∷ b'7' ∷ b'6' ∷ b'9' ∷ []

-- `ALPHABET[i]`; every index the code uses is masked below 32.
pub symbol : ℕ → ℕ
symbol i = get_or alphabet i 0

-- `(acc << n) | v` in `u32`, for `v` below `2 ^ n`: the bits that `v` fills are zero.
abbrev pub shift_in : ℕ → ℕ → ℕ → ℕ
shift_in n acc v = acc * 2 ^ n % 2 ^ 32 + v

-- `while bits >= 5 { bits -= 5; push }`; each round takes 5 of the bits, so `bits` rounds are enough.
pub flush : ℕ → ℕ → ℕ → List ℕ × ℕ
flush zero acc bits = ([], bits)
flush (suc fuel) acc bits =
    let rest = flush fuel acc (bits - 5) in
    if leb 5 bits then (symbol (acc / 2 ^ (bits - 5) % 32) ∷ rest.0, rest.1) else ([], bits)

-- What the loop pushes from a byte on, and the last symbol of the leftover bits.
pub encode_loop : List ℕ → ℕ → ℕ → List ℕ
encode_loop [] acc bits =
    if ltb 0 bits then symbol (acc * 2 ^ (5 - bits) % 2 ^ 32 % 32) ∷ [] else []
encode_loop (byte ∷ rest) acc bits =
    let acc' = shift_in 8 acc byte in
    let pushed = flush (bits + 8) acc' (bits + 8) in pushed.0 ++ encode_loop rest acc' pushed.1

pub encode : List ℕ → List ℕ
encode bytes = encode_loop bytes 0 0

-- The two messages of `decode`.
pub data Error : Type 0 where
  not_part : ℕ → Error
  not_whole : Error

-- `ALPHABET.iter().position(|&c| c == symbol)`.
pub position : List ℕ → ℕ → Option ℕ
position [] c = none
position (x ∷ xs) c =
    if x == c then some 0 else elim (position xs c) [ none ↦ none | some i ↦ some (suc i) ]

abbrev pub push : ℕ → Result Error (List ℕ) → Result Error (List ℕ)
push b (ok out) = ok (b ∷ out)
push b (err e) = err e

-- What the loop pushes from a symbol on, then the test of the trailing bits.
pub decode_loop : List ℕ → ℕ → ℕ → Result Error (List ℕ)
decode_loop [] acc bits = if leb 5 bits || not (acc % 2 ^ bits == 0) then err not_whole else ok []
decode_loop (c ∷ rest) acc bits = elim (position alphabet c) [
  | none ↦ err (not_part c)
  | some value ↦
      let acc' = shift_in 5 acc value in
      let narrow = decode_loop rest acc' (bits + 5) in
      let wide = push (acc' / 2 ^ (bits + 5 - 8) % 256) (decode_loop rest acc' (bits + 5 - 8)) in
      if leb 8 (bits + 5) then wide else narrow
]

pub decode : List ℕ → Result Error (List ℕ)
decode text = decode_loop text 0 0
