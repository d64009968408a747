-- ===== src/RootTransfer/Frames.antt =====
-- runtime/crates/kernel/src/root_transfer.rs: the frames on the wire.
use polyvisor.Common.{
  ℕ, ◌≡◌, refl, ap, ◌∙◌, List, [], ◌∷◌, ◌++◌, some, length, length-append, length-take, length-drop,
  take, drop, arith, take-append_length, drop-append_length, take-append-drop, drop-drop, ◌<◌,
}
use polyvisor.RootTransfer.{
  Frame, transfer, persisted, received, declined, encode, decode, decode_body, receive,
}

-- The three fields of a transfer are 32 bytes each.
abbrev pub IsFrame : Frame → Type 0
IsFrame (transfer root group seed) = (length root ≡ 32) × (length group ≡ 32) × (length seed ≡ 32)
IsFrame persisted = Unit
IsFrame received = Unit
IsFrame declined = Unit

decode_body-fields :
    (root group seed : List ℕ)
    → length root ≡ 32
    → length group ≡ 32
    → length seed ≡ 32
    → decode_body 1 (root ++ (group ++ seed)) ≡ some (transfer root group seed)
unfolding decode_body
decode_body-fields root group seed h k l =
    let whole : length (root ++ (group ++ seed)) ≡ 96 =
      omega (arith, length-append root (group ++ seed), length-append group seed) in
    rw (
      whole,
      take-append_length 32 root (group ++ seed) h,
      drop-drop 32 32 (root ++ (group ++ seed)),
      drop-append_length 32 root (group ++ seed) h,
      take-append_length 32 group seed k,
      drop-append_length 32 group seed k,
    )

decode-transfer : (bytes : List ℕ) → 0 < length bytes → decode (1 ∷ bytes) ≡ decode_body 1 bytes
unfolding decode
decode-transfer [] h = absurd (omega arith)
decode-transfer (b ∷ bytes) h = refl

-- Every frame whose fields have 32 bytes is received back from its bytes.
pub receive-encode : (f : Frame) → IsFrame f → receive (some (encode f)) ≡ some f
unfolding encode receive
receive-encode (transfer root group seed) (h, k, l) =
    let whole : length (root ++ (group ++ seed)) ≡ 96 =
      omega (arith, length-append root (group ++ seed), length-append group seed) in
    rw (whole, decode-transfer (root ++ (group ++ seed)) (omega arith))
      (decode_body-fields root group seed h k l)
receive-encode persisted h = unfold decode in refl
receive-encode received h = unfold decode in refl
receive-encode declined h = unfold decode in refl

decode_body-cases :
    (tag : ℕ) (body : List ℕ) (f : Frame)
    → decode_body tag body ≡ some f
    → (tag ≡ 1)
      × (length body ≡ 96)
      × (f ≡ transfer (take 32 body) (take 32 (drop 32 body)) (drop 64 body))
unfolding decode_body
decode_body-cases tag body f h = ground arith

thirds : (body : List ℕ) → take 32 body ++ (take 32 (drop 32 body) ++ drop 64 body) ≡ body
thirds body =
    ap (λ l. take 32 body ++ (take 32 (drop 32 body) ++ l)) (drop-drop 32 32 body)
    ∙ ap (λ l. take 32 body ++ l) (take-append-drop 32 (drop 32 body))
    ∙ take-append-drop 32 body

encode-body :
    (tag : ℕ) (body : List ℕ) (f : Frame)
    → decode_body tag body ≡ some f
    → (encode f ≡ tag ∷ body) × IsFrame f
unfolding encode
encode-body tag body f h =
    let (one, whole, is) = decode_body-cases tag body f h in
    rw (is, one)
      (
        ap (λ l. 1 ∷ l) (thirds body),
        (
          omega (arith, length-take 32 body),
          omega (arith, length-take 32 (drop 32 body), length-drop 32 body),
          omega (arith, length-drop 64 body),
        ),
      )

-- A byte on its own is one of the three short frames.
decode_single :
    (tag : ℕ) (f : Frame) → decode (tag ∷ []) ≡ some f → (encode f ≡ tag ∷ []) × IsFrame f
unfolding decode encode
decode_single tag f h =
    ground (arith, λ (e : decode_body tag [] ≡ some f). decode_body-cases tag [] f e)

-- Bytes that decode are those that the frame encodes to, and the fields of the frame have 32 bytes.
pub frame_encode-decode :
    (bytes : List ℕ) (f : Frame) → decode bytes ≡ some f → (encode f ≡ bytes) × IsFrame f
frame_encode-decode [] f h = unfold decode in absurd (ground arith)
frame_encode-decode (tag ∷ []) f h = decode_single tag f h
frame_encode-decode (tag ∷ b ∷ body) f h = encode-body tag (b ∷ body) f (unfold decode in h)
