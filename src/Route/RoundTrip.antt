-- ===== src/Route/RoundTrip.antt =====
-- runtime/crates/kernel/src/route.rs: `encode_instance` and `decode_instance` invert one another.
use polyvisor.Common.{
  ℕ, ◌+◌, ◌*◌, ◌/◌, ◌%◌, ◌≤◌, ◌<◌, ◌≡◌, refl, sym, ap, ◌∙◌, List, ◌∷◌, ◌++◌, length, length-append,
  length-take, take, drop, get_or, take-append_length, take-append-drop, drop-append_length,
  drop-cons, arith, IsBytes, IsBytes-append, IsBytes-take, ok, err, true, Option, some,
  bytes_eq_refl, bytes_eq→eq, strip_prefix, strip_prefix-append, strip_prefix-eq-some, Option-cases,
  inl, inr, ◌⊎◌, ◌↔◌,
}
use polyvisor.Primitives.{Utf8}
use polyvisor.Route.{
  Crates, CratesLaws, parse, plaintext, Target, unreadable, too_long, non_empty, or_empty,
  encode_instance, launch_app, launch_fragment, decode_instance, open_blob, siv, siv_key, enc_key,
  kind, aad, version,
}
use polyvisor.Route.Layout.{plaintext-layout, length-layout, layout-IsBytes}
use polyvisor.Route.Parse.{parse-slices, check_fields-layout}
use polyvisor.Route.Rebuild.{parse-plaintext}

-- What the type `str`, `[u8; 16]` and the two caps say of a target.
pub record IsTarget (utf8 : Utf8) (install inst route : List ℕ) : Type 0 where
  pub install16 : length install ≡ 16
  pub install_bytes : IsBytes install
  pub inst_cap : length inst ≤ 32
  pub inst_bytes : IsBytes inst
  pub inst_utf8 : utf8.valid inst ≡ true
  pub route_cap : length route ≤ 205
  pub route_bytes : IsBytes route
  pub route_utf8 : utf8.valid route ≡ true

parse-plaintext_lem :
    (utf8 : Utf8) (install inst route : List ℕ)
    → IsTarget utf8 install inst route
    → (parse utf8 (plaintext install inst route)
        ≡ ok (record { install = install; inst = non_empty inst; route = route }))
      × (length (plaintext install inst route) ≡ 256)
      × IsBytes (plaintext install inst route)
parse-plaintext_lem utf8 install inst route w =
    let n_eq : length inst % 256 ≡ length inst = omega (arith, w.inst_cap) in
    let len_eq : length route / 256 % 256 * 256 + length route % 256 ≡ length route =
      omega (arith, w.route_cap) in
    rw (plaintext-layout install inst route w.install16 w.inst_cap w.route_cap) (
      parse-slices install (length inst % 256) inst (length route / 256 % 256) (length route % 256)
            route w.install16 w.inst_cap utf8
          ∙ rw (n_eq, len_eq)
              (check_fields-layout utf8 install inst route _ _ w.inst_cap w.route_cap w.inst_utf8
                w.route_utf8),
      length-layout install _ inst _ _ route w.install16 w.inst_cap w.route_cap,
      layout-IsBytes install _ inst _ _ route w.install_bytes (omega arith) w.inst_bytes
          (omega arith) (omega arith) w.route_bytes,
    )

abbrev pub or_empty_target : List ℕ → List ℕ → List ℕ → Target
or_empty_target install inst route = record {
  install = install;
  inst = non_empty inst;
  route = route;
}

module _ (c : Crates) (laws : CratesLaws c) where
  open c use {aead, hmac, base64, utf8}
  open laws use {aead_laws, mac_laws, base64_laws, base64_canonical}

  length-siv : (k plain : List ℕ) → length (siv c k plain) ≡ 12
  unfolding siv
  length-siv k plain = omega (arith, length-take 12 (hmac.mac k plain), mac_laws.length-mac k plain)

  siv-IsBytes : (k plain : List ℕ) → IsBytes (siv c k plain)
  unfolding siv
  siv-IsBytes k plain = IsBytes-take 12 (hmac.mac k plain) (mac_laws.mac-IsBytes k plain)

  -- What `encode_instance` returns within the caps, from a text that the cipher gives.
  encode_sealed :
      (key install : List ℕ) (inst? : Option (List ℕ)) (route ct : List ℕ)
      → length (or_empty inst?) ≤ 32
      → length route ≤ 205
      → aead.encrypt
          (enc_key c key)
          (siv c (siv_key c key) (plaintext install (or_empty inst?) route))
          aad
          (plaintext install (or_empty inst?) route)
        ≡ some ct
      → encode_instance c key install inst? route
        ≡ ok (
            kind
            ++ base64.encode (
                version ∷ (siv c (siv_key c key) (plaintext install (or_empty inst?) route) ++ ct)))
  unfolding encode_instance
  encode_sealed key install inst? route ct hn hr e = rw e (ground arith)

  -- `decode_instance` on a token whose bytes are version, nonce and text.
  decode_sealed :
      (key nonce ct plain : List ℕ)
      → IsBytes nonce
      → IsBytes ct
      → length nonce ≡ 12
      → length plain ≡ 256
      → siv c (siv_key c key) plain ≡ nonce
      → aead.decrypt (enc_key c key) nonce aad ct ≡ some plain
      → decode_instance c key (kind ++ base64.encode (version ∷ (nonce ++ ct))) ≡ parse utf8 plain
  unfolding decode_instance open_blob
  decode_sealed key nonce ct plain bn bc hn hp hs e =
      rw
        (
          strip_prefix-append kind (base64.encode (version ∷ (nonce ++ ct))),
          base64_laws.decode-encode (version ∷ (nonce ++ ct))
              (omega arith, IsBytes-append nonce ct bn bc),
          take-append_length 12 nonce ct hn,
          drop-append_length 12 nonce ct hn,
          e,
          hs,
          bytes_eq_refl nonce,
        )
        (ground (arith, length-append nonce ct))

  -- For an install of 16 bytes and an instance and a route that are UTF-8 and within their caps, a
  -- fragment is produced, and it decodes to that target; an absent instance and an empty one are the
  -- same.
  pub decode_instance-encode_instance :
      (key install : List ℕ) (inst? : Option (List ℕ)) (route : List ℕ)
      → IsTarget utf8 install (or_empty inst?) route
      → (fragment : List ℕ) × (encode_instance c key install inst? route ≡ ok fragment)
        × (decode_instance c key fragment ≡ ok (or_empty_target install (or_empty inst?) route))
  decode_instance-encode_instance key install inst? route w =
      let plain = plaintext install (or_empty inst?) route in
      let nonce = siv c (siv_key c key) plain in
      let (parses, full, bytes) = parse-plaintext_lem utf8 install (or_empty inst?) route w in
      let (ct, sealed) =
        aead_laws.encrypt_small (enc_key c key) nonce aad plain (omega (arith, full)) in
      (
        kind ++ base64.encode (version ∷ (nonce ++ ct)),
        encode_sealed key install inst? route ct w.inst_cap w.route_cap sealed,
        decode_sealed key nonce ct plain (siv-IsBytes (siv_key c key) plain)
              (aead_laws.encrypt-IsBytes (enc_key c key) nonce aad plain ct bytes sealed)
              (length-siv (siv_key c key) plain) full refl
              (aead_laws.decrypt-encrypt (enc_key c key) nonce aad plain ct sealed)
            ∙ parses,
      )

  -- What a successful `decode_instance` found in the fragment.
  pub record Opened (key fragment : List ℕ) (t : Target) : Type 0 where
    pub ct : List ℕ
    pub plain : List ℕ
    pub spelled : fragment ≡ kind ++ base64.encode (version ∷ (siv c (siv_key c key) plain ++ ct))
    pub opened : aead.decrypt (enc_key c key) (siv c (siv_key c key) plain) aad ct ≡ some plain
    pub full : length plain ≡ 256
    pub parsed : parse utf8 plain ≡ ok t

  open_blob-cases :
      (key body : List ℕ) (t : Target)
      → open_blob c key body ≡ ok t
      → (plain : List ℕ) × (aead.decrypt (enc_key c key) (take 12 body) aad (drop 12 body)
          ≡ some plain)
        × (length plain ≡ 256)
        × (siv c (siv_key c key) plain ≡ take 12 body)
        × (parse utf8 plain ≡ ok t)
  unfolding open_blob
  open_blob-cases key body t h =
      elim (Option-cases (aead.decrypt (enc_key c key) (take 12 body) aad (drop 12 body))) [
        | inl e ↦ absurd (ground arith)
        | inr (plain, e) ↦ (plain, e, ground arith, bytes_eq→eq _ _ (ground arith), ground arith)
      ]

  decode_instance-Opened :
      (key fragment : List ℕ) (t : Target)
      → decode_instance c key fragment ≡ ok t
      → Opened key fragment t
  unfolding decode_instance
  decode_instance-Opened key fragment t h = elim (Option-cases (strip_prefix kind fragment)) [
    | inl e ↦ absurd (ground arith)
    | inr (token, e) ↦ elim (Option-cases (base64.decode token)) [
      | inl e' ↦ absurd (ground arith)
      | inr (blob, e') ↦
          let shut : open_blob c key (drop 1 blob) ≡ ok t = ground arith in
          let (plain, d, full, nonce, parsed) = open_blob-cases key (drop 1 blob) t shut in
          let first : drop 0 blob ≡ get_or blob 0 0 ∷ drop 1 blob =
            drop-cons 0 blob 0 (ground arith) in
          let v : get_or blob 0 0 ≡ version = ground arith in
          record {
            ct = drop 12 (drop 1 blob);
            plain = plain;
            spelled =
                strip_prefix-eq-some kind fragment token e
                ∙ ap (λ s. kind ++ s) (sym (base64_canonical.encode-decode token blob e'))
                ∙ ap (λ b. kind ++ base64.encode b)
                    (first
                      ∙ rw (v, nonce)
                          (ap (λ l. version ∷ l) (sym (take-append-drop 12 (drop 1 blob)))));
            opened = rw nonce d;
            full = full;
            parsed = parsed;
          }
    ]
  ]

  -- A fragment that decodes to a target is exactly the one that encoding the target gives.
  pub encode_instance-decode_instance :
      (key fragment : List ℕ) (t : Target)
      → decode_instance c key fragment ≡ ok t
      → encode_instance c key t.install t.inst t.route ≡ ok fragment
  encode_instance-decode_instance key fragment t h =
      let o = decode_instance-Opened key fragment t h in
      let (laid, inst_cap, route_cap) = parse-plaintext utf8 o.plain t o.full o.parsed in
      encode_sealed key t.install t.inst t.route o.ct inst_cap route_cap
        (rw laid (aead_laws.encrypt-decrypt _ _ _ _ _ o.opened))
      ∙ ap ok (rw laid (sym o.spelled))

  encode_instance-sealed :
      (key install : List ℕ) (inst? : Option (List ℕ)) (route f : List ℕ)
      → encode_instance c key install inst? route ≡ ok f
      → let plain = plaintext install (or_empty inst?) route in
        (ct : List ℕ) × (aead.encrypt (enc_key c key) (siv c (siv_key c key) plain) aad plain
          ≡ some ct)
        × (f ≡ kind ++ base64.encode (version ∷ (siv c (siv_key c key) plain ++ ct)))
  unfolding encode_instance
  encode_instance-sealed key install inst? route f h =
      let plain = plaintext install (or_empty inst?) route in
      elim (Option-cases (aead.encrypt (enc_key c key) (siv c (siv_key c key) plain) aad plain)) [
        | inl e ↦ absurd (ground arith)
        | inr (ct, e) ↦ (ct, e, ground arith)
      ]

  -- Any two fragments of targets within the caps have the same length, whatever they name and whatever
  -- their keys are.
  pub encode_instance-length :
      (key key' install install' : List ℕ) (inst? inst?' : Option (List ℕ))
      (route route' f f' : List ℕ)
      → IsTarget utf8 install (or_empty inst?) route
      → IsTarget utf8 install' (or_empty inst?') route'
      → encode_instance c key install inst? route ≡ ok f
      → encode_instance c key' install' inst?' route' ≡ ok f'
      → length f ≡ length f'
  encode_instance-length key key' install install' inst? inst?' route route' f f' w w' h h' =
      let (ct, sealed, eq) = encode_instance-sealed key install inst? route f h in
      let (ct', sealed', eq') = encode_instance-sealed key' install' inst?' route' f' h' in
      let plain = plaintext install (or_empty inst?) route in
      let plain' = plaintext install' (or_empty inst?') route' in
      let full = (parse-plaintext_lem utf8 install (or_empty inst?) route w).1 in
      let full' = (parse-plaintext_lem utf8 install' (or_empty inst?') route' w').1 in
      let nonce = siv c (siv_key c key) plain in
      let nonce' = siv c (siv_key c key') plain' in
      let same : length (version ∷ (nonce ++ ct)) ≡ length (version ∷ (nonce' ++ ct')) = omega (
        arith,
        length-append nonce ct,
        length-append nonce' ct',
        length-siv (siv_key c key) plain,
        length-siv (siv_key c key') plain',
        aead_laws.encrypt_length _ _ _ _ ct sealed,
        aead_laws.encrypt_length _ _ _ _ ct' sealed',
        full,
        full',
      ) in
      rw (eq, eq')
        (omega (
          arith,
          length-append kind (base64.encode (version ∷ (nonce ++ ct))),
          length-append kind (base64.encode (version ∷ (nonce' ++ ct'))),
          base64_laws.encode_length (version ∷ (nonce ++ ct)) (version ∷ (nonce' ++ ct')) same,
        ))

-- Encoding refuses a target as too long exactly if its route has more than 205 bytes or its instance
-- more than 32.
pub encode_instance_too_long :
    (c : Crates) (key install : List ℕ) (inst? : Option (List ℕ)) (route : List ℕ)
    → (encode_instance c key install inst? route ≡ err too_long)
      ↔ ((205 < length route) ⊎ (32 < length (or_empty inst?)))
unfolding encode_instance
encode_instance_too_long c key install inst? route = (λ h. ground arith, λ h. ground arith)

-- A launch fragment names its app, and is no `app/` fragment.
pub launch-decode :
    (c : Crates) (key app : List ℕ)
    → (launch_app (launch_fragment app) ≡ non_empty app)
      × (decode_instance c key (launch_fragment app) ≡ err unreadable)
unfolding launch_app launch_fragment decode_instance strip_prefix
launch-decode c key app = (refl, refl)
