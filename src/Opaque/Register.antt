-- ===== src/Opaque/Register.antt =====
-- runtime/crates/engine/src/opaque.rs: a stored register is read back, and it names one tree.
use polyvisor.Common.{
  ℕ, zero, suc, ◌+◌, ◌*◌, ◌^◌, ◌<◌, ◌/◌, ◌%◌, ◌≡◌, refl, ap, ◌∙◌, List, [], ◌∷◌, ◌++◌, Option, none,
  some, length, length-append, take, drop, get_or, take-append_length, drop-append_length,
  get_or-drop, bytes_eq, arith, ◌&&◌,
}
use polyvisor.Opaque.{
  to_be_bytes, from_be_bytes, OpaqueMode, group_sealed, caller_encrypted, RegisterValue,
  encode_mode, encode, with_mode, decode, lookup, Lifecycle, tree_id, is_opaque_tree, tree_slot,
  is_on, status, status_in, status_of,
}

pub length-to_be_bytes : (w n : ℕ) → length (to_be_bytes w n) ≡ w
unfolding to_be_bytes
length-to_be_bytes zero n = refl
length-to_be_bytes (suc w) n =
    length-append (to_be_bytes w (n / 256)) (n % 256 ∷ [])
    ∙ omega (arith, length-to_be_bytes w (n / 256))

from_be_bytes-append :
    (acc b : ℕ) (xs : List ℕ) → from_be_bytes acc (xs ++ (b ∷ [])) ≡ from_be_bytes acc xs * 256 + b
unfolding from_be_bytes
from_be_bytes-append acc b [] = refl
from_be_bytes-append acc b (x ∷ xs) = from_be_bytes-append (acc * 256 + x) b xs

pub from_be_bytes-to_be_bytes : (w n : ℕ) → n < 256 ^ w → from_be_bytes 0 (to_be_bytes w n) ≡ n
unfolding to_be_bytes from_be_bytes
from_be_bytes-to_be_bytes zero n h = omega arith
from_be_bytes-to_be_bytes (suc w) n h =
    let fits : n / 256 < 256 ^ w = omega arith in
    from_be_bytes-append 0 (n % 256) (to_be_bytes w (n / 256))
    ∙ omega (arith, from_be_bytes-to_be_bytes w (n / 256) fits)

with_mode-encode_mode :
    (s : ℕ) (n : List ℕ) (m : Option OpaqueMode)
    → with_mode s n (encode_mode m) ≡ some (record { sequence = s; nonce = n; mode = m })
unfolding with_mode encode_mode
with_mode-encode_mode s n none = refl
with_mode-encode_mode s n (some group_sealed) = refl
with_mode-encode_mode s n (some caller_encrypted) = refl

-- A register value whose sequence fits in 64 bits and whose nonce has 16 bytes is read back from its
-- encoding.
pub register-decode-encode :
    (v : RegisterValue) → v.sequence < 2 ^ 64 → length v.nonce ≡ 16 → decode (encode v) ≡ some v
unfolding decode encode
register-decode-encode v hs hn =
    let b = to_be_bytes 8 v.sequence in
    let e = encode_mode v.mode ∷ [] in
    let eight : length b ≡ 8 = length-to_be_bytes 8 v.sequence in
    let whole : length (b ++ (v.nonce ++ e)) ≡ 25 =
      omega (arith, length-append b (v.nonce ++ e), length-append v.nonce e) in
    let sequence_part : take 8 (b ++ (v.nonce ++ e)) ≡ b =
      take-append_length 8 b (v.nonce ++ e) eight in
    let rest : drop 8 (b ++ (v.nonce ++ e)) ≡ v.nonce ++ e =
      drop-append_length 8 b (v.nonce ++ e) eight in
    let nonce_part : take 16 (v.nonce ++ e) ≡ v.nonce = take-append_length 16 v.nonce e hn in
    let mode_part : get_or (b ++ (v.nonce ++ e)) 24 0 ≡ encode_mode v.mode =
      get_or-drop 8 16 (b ++ (v.nonce ++ e)) 0
      ∙ (ap (λ l. get_or l 16 0) rest
          ∙ (get_or-drop 16 0 (v.nonce ++ e) 0
              ∙ ap (λ l. get_or l 0 0) (drop-append_length 16 v.nonce e hn))) in
    rw
      (whole, sequence_part, rest, nonce_part, mode_part, from_be_bytes-to_be_bytes 8 v.sequence hs)
      (with_mode-encode_mode v.sequence v.nonce v.mode)

module _ (slot nonce : List ℕ) (slot_length : length slot ≡ 12) where
  tree_slot-tree_id : tree_slot (tree_id slot nonce) ≡ some slot
  unfolding tree_slot tree_id is_opaque_tree bytes_eq
  tree_slot-tree_id = ap some (take-append_length 12 slot nonce slot_length)

  -- For a slot of 12 bytes with a register, a tree of the slot is current exactly while the register
  -- has a mode and its nonce gives the same tree.
  pub status-tree_id :
      (lifecycle : Lifecycle) (v : RegisterValue)
      → lookup slot lifecycle.registers ≡ some v
      → status lifecycle (tree_id slot nonce)
        ≡ some (is_on v.mode && bytes_eq (tree_id slot v.nonce) (tree_id slot nonce))
  unfolding status status_in status_of
  status-tree_id lifecycle v h = rw (tree_slot-tree_id, h) refl
