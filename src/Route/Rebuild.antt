-- ===== src/Route/Rebuild.antt =====
-- runtime/crates/kernel/src/route.rs: bytes that `decode_instance` accepts are the ones that
-- `encode_instance` lays out for what it read.
use polyvisor.Common.{
  ℕ, ◌+◌, ◌-◌, ◌*◌, ◌/◌, ◌%◌, ◌≤◌, ◌≡◌, refl, sym, ap, ◌∙◌, List, [], ◌∷◌, ◌++◌, append_assoc,
  length, length-take, length-drop, take, drop, get_or, take-append-drop, drop-drop, drop-cons,
  arith, ok, true, all_zero, all_zero→replicate,
}
use polyvisor.Primitives.{Utf8}
use polyvisor.Route.{parse, plaintext, Target, non_empty, or_empty}
use polyvisor.Route.Layout.{layout, zeros, plaintext-layout}
use polyvisor.Route.Parse.{Accepted, check_fields-Accepted}

or_empty-non_empty : (xs : List ℕ) → or_empty (non_empty xs) ≡ xs
or_empty-non_empty [] = refl
or_empty-non_empty (x ∷ xs) = refl

-- A slice with a zero tail, given back from its head.
padded_slice :
    (n k : ℕ) (xs : List ℕ)
    → length xs ≡ k
    → n ≤ k
    → all_zero (drop n xs) ≡ true
    → take n xs ++ zeros (k - length (take n xs)) ≡ xs
padded_slice n k xs hk hn h =
    let len : k - length (take n xs) ≡ length (drop n xs) =
      omega (arith, length-take n xs, length-drop n xs) in
    ap (λ m. take n xs ++ zeros m) len
    ∙ ap (λ l. take n xs ++ l) (sym (all_zero→replicate (drop n xs) h))
    ∙ take-append-drop n xs

-- The 256 bytes, cut where `decode_instance` cuts them.
cut :
    (plain : List ℕ)
    → length plain ≡ 256
    → plain
      ≡ take 16 plain
        ++ (get_or plain 16 0
            ∷ (take 32 (drop 17 plain) ++ (get_or plain 49 0 ∷ get_or plain 50 0 ∷ drop 51 plain)))
cut plain h =
    sym (take-append-drop 16 plain)
    ∙ ap (λ l. take 16 plain ++ l) (drop-cons 16 plain 0 (omega arith))
    ∙ ap (λ l. take 16 plain ++ (get_or plain 16 0 ∷ l))
        (sym (take-append-drop 32 (drop 17 plain))
          ∙ ap (λ l. take 32 (drop 17 plain) ++ l)
              (sym (drop-drop 17 32 plain)
                ∙ drop-cons 49 plain 0 (omega arith)
                ∙ ap (λ l. get_or plain 49 0 ∷ l) (drop-cons 50 plain 0 (omega arith))))

-- The lengths that are written are those that were read.
layout_lengths :
    (install inst route : List ℕ) (n hi lo : ℕ)
    → n ≤ 32
    → hi * 256 + lo ≤ 205
    → length inst ≡ n
    → length route ≡ hi * 256 + lo
    → layout install (length inst % 256) inst (length route / 256 % 256) (length route % 256) route
      ≡ layout install n inst hi lo route
layout_lengths install inst route n hi lo few small hn hr =
    let e1 : length inst % 256 ≡ n = omega arith in
    let e2 : length route / 256 % 256 ≡ hi = omega arith in
    let e3 : length route % 256 ≡ lo = omega arith in rw (e1, e2, e3)

module _ (utf8 : Utf8) (plain : List ℕ) (t : Target) (h : length plain ≡ 256) where
  abbrev body : List ℕ
  body = take 32 (drop 17 plain)

  abbrev route_length : ℕ
  route_length = get_or plain 49 0 * 256 + get_or plain 50 0

  abbrev Fields : Type 0
  Fields = Accepted utf8 (take 16 plain) (get_or plain 16 0) body route_length (drop 51 plain) t

  pub parse-Accepted : parse utf8 plain ≡ ok t → Fields
  unfolding parse
  parse-Accepted e =
      check_fields-Accepted utf8 (take 16 plain) (get_or plain 16 0) body route_length
        (drop 51 plain) t e

  length-body : length body ≡ 32
  length-body = omega (arith, length-take 32 (drop 17 plain), length-drop 17 plain)

  relaid :
      Fields
      → layout
          (take 16 plain)
          (get_or plain 16 0)
          (take (get_or plain 16 0) body)
          (get_or plain 49 0)
          (get_or plain 50 0)
          (take route_length (drop 51 plain))
        ≡ plain
  relaid a =
      let inst = take (get_or plain 16 0) body in
      let back = get_or plain 49 0 ∷ get_or plain 50 0 ∷ drop 51 plain in
      ap
        (λ l.
          take 16 plain
          ++ (get_or plain 16 0
              ∷ (inst
                  ++ (zeros (32 - length inst) ++ (get_or plain 49 0 ∷ get_or plain 50 0 ∷ l)))))
        (padded_slice route_length 205 (drop 51 plain) (omega (arith, length-drop 51 plain)) a.fits
          a.padded_route)
      ∙ ap (λ l. take 16 plain ++ (get_or plain 16 0 ∷ l))
          (sym (append_assoc inst (zeros (32 - length inst)) back))
      ∙ ap (λ l. take 16 plain ++ (get_or plain 16 0 ∷ (l ++ back)))
          (padded_slice (get_or plain 16 0) 32 body length-body a.cap a.padded)
      ∙ sym (cut plain h)

  -- Laying out what was read gives the same bytes, within both caps.
  pub parse-plaintext :
      parse utf8 plain ≡ ok t
      → (plaintext t.install (or_empty t.inst) t.route ≡ plain)
        × (length (or_empty t.inst) ≤ 32)
        × (length t.route ≤ 205)
  parse-plaintext e =
      let a : Fields = parse-Accepted e in
      let inst = take (get_or plain 16 0) body in
      let route = take route_length (drop 51 plain) in
      let inst_length : length inst ≡ get_or plain 16 0 =
        omega (arith, a.cap, length-body, length-take (get_or plain 16 0) body) in
      let route_len : length route ≡ route_length =
        omega (arith, a.fits, length-take route_length (drop 51 plain), length-drop 51 plain) in
      let laid : plaintext (take 16 plain) inst route ≡ plain =
        plaintext-layout (take 16 plain) inst route (omega (arith, length-take 16 plain))
          (omega (arith, a.cap)) (omega (arith, a.fits))
        ∙ layout_lengths (take 16 plain) inst route (get_or plain 16 0) (get_or plain 49 0)
            (get_or plain 50 0) a.cap a.fits inst_length route_len
        ∙ relaid a in
      rw (a.target, or_empty-non_empty inst) (laid, omega (arith, a.cap), omega (arith, a.fits))
