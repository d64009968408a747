-- ===== src/Meeting/Exchange/Transcript.antt =====
-- runtime/crates/kernel/src/meeting.rs: the text under the digits of a meeting fixes every field.
use polyvisor.Common.{
  ℕ, ◌%◌, ◌^◌, ◌<◌, ◌≡◌, refl, sym, ap, ap₂, ◌∙◌, List, [], ◌∷◌, ◌++◌, length, All, append-inj,
  codes, arith,
}
use polyvisor.Opaque.{to_be_bytes, from_be_bytes}
use polyvisor.Opaque.Register.{length-to_be_bytes, from_be_bytes-to_be_bytes}
use polyvisor.Meeting.Exchange.{fields, transcript}

-- A field whose length fits in 32 bits.
abbrev pub IsShort : List ℕ → Type 0
IsShort field = length field < 4_294_967_296

length_of :
    (x y : List ℕ)
    → IsShort x
    → IsShort y
    → to_be_bytes 4 (length x % 2 ^ 32) ≡ to_be_bytes 4 (length y % 2 ^ 32)
    → length x ≡ length y
length_of x y short_x short_y h =
    let a : length x % 2 ^ 32 ≡ length x = omega arith in
    let b : length y % 2 ^ 32 ≡ length y = omega arith in
    sym a
    ∙ sym (from_be_bytes-to_be_bytes 4 (length x % 2 ^ 32) (omega arith))
    ∙ ap (from_be_bytes 0) h
    ∙ from_be_bytes-to_be_bytes 4 (length y % 2 ^ 32) (omega arith)
    ∙ b

fields-inj :
    (xs ys : List (List ℕ))
    → length xs ≡ length ys
    → All IsShort xs
    → All IsShort ys
    → fields xs ≡ fields ys
    → xs ≡ ys
unfolding fields
fields-inj [] [] same short_x short_y h = refl
fields-inj [] (y ∷ ys) same short_x short_y h = absurd (omega arith)
fields-inj (x ∷ xs) [] same short_x short_y h = absurd (omega arith)
fields-inj (x ∷ xs) (y ∷ ys) same (sx, short_x) (sy, short_y) h =
    let front = to_be_bytes 4 (length x % 2 ^ 32) in
    let front' = to_be_bytes 4 (length y % 2 ^ 32) in
    let (lengths, rest) =
      append-inj front front' (x ++ fields xs) (y ++ fields ys)
        (length-to_be_bytes 4 _ ∙ sym (length-to_be_bytes 4 _)) h in
    let (first, others) =
      append-inj x y (fields xs) (fields ys) (length_of x y sx sy lengths) rest in
    ap₂ (λ a l. a ∷ l) first (fields-inj xs ys (omega arith) short_x short_y others)

-- If the fields are shorter than 2 ^ 32, two meetings hash the same text under their digits only if
-- they have the same token, the same keys, the same introductions and the same nonces.
pub transcript-inj :
    (t t' g g' h h' gb gb' hb hb' gn gn' hn hn' : List ℕ)
    → All IsShort (t ∷ g ∷ h ∷ gb ∷ hb ∷ gn ∷ hn ∷ [])
    → All IsShort (t' ∷ g' ∷ h' ∷ gb' ∷ hb' ∷ gn' ∷ hn' ∷ [])
    → transcript t g h gb hb gn hn ≡ transcript t' g' h' gb' hb' gn' hn'
    → t ∷ g ∷ h ∷ gb ∷ hb ∷ gn ∷ hn ∷ [] ≡ t' ∷ g' ∷ h' ∷ gb' ∷ hb' ∷ gn' ∷ hn' ∷ []
unfolding transcript
transcript-inj t t' g g' h h' gb gb' hb hb' gn gn' hn hn' short short' same =
    fields-inj (t ∷ g ∷ h ∷ gb ∷ hb ∷ gn ∷ hn ∷ []) (t' ∷ g' ∷ h' ∷ gb' ∷ hb' ∷ gn' ∷ hn' ∷ []) refl
      short short'
      ((append-inj (codes "polyvisor:meeting:sas:v0\0") (codes "polyvisor:meeting:sas:v0\0") _ _
        refl same).1)
