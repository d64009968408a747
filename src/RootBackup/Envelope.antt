-- ===== src/RootBackup/Envelope.antt =====
-- runtime/crates/kernel/src/root_backup.rs: what a backup gives back, and to whom.
use polyvisor.Common.{
  ℕ, ◌≡◌, refl, sym, ap, subst, ◌∙◌, List, [], ◌++◌, append_assoc, append-nil, some, ok, ok_or,
  ok-inj, ok_or-eq-ok, >>=-eq-ok, guard-eq-ok, length, length-append, take, drop, get_or,
  take-append_length, drop-append_length, drop-drop, ◌==◌, ==_iff, bytes_eq, bytes_eq→eq,
  bytes_eq_refl, arith,
}
use polyvisor.Opaque.{to_be_bytes, from_be_bytes}
use polyvisor.Primitives.{Aead, AeadLaws}
use polyvisor.RootBackup.{
  encoded_len, header_len, magic, version, kdf_argon2id_v19, argon2_memory_kib, argon2_time_cost,
  argon2_lanes, slice, read_u32, preamble, salt_of, prepare_encrypt, prepare_decrypt, encrypt,
  decrypt,
}

-- Where the fields of an envelope stand.
module _ (root group salt nonce ct : List ℕ) (root_long : length root ≡ 32)
    (group_long : length group ≡ 32) (salt_long : length salt ≡ 16)
    (nonce_long : length nonce ≡ 12) where
  header : List ℕ
  header = preamble ++ (root ++ (group ++ (salt ++ nonce)))

  flat : header ++ ct ≡ preamble ++ (root ++ (group ++ (salt ++ (nonce ++ ct))))
  unfolding header
  flat =
      append_assoc preamble (root ++ (group ++ (salt ++ nonce))) ct
      ∙ ap (λ l. preamble ++ l)
          (append_assoc root (group ++ (salt ++ nonce)) ct
            ∙ ap (λ l. root ++ l)
                (append_assoc group (salt ++ nonce) ct
                  ∙ ap (λ l. group ++ l) (append_assoc salt nonce ct)))

  from_root : drop 22 (header ++ ct) ≡ root ++ (group ++ (salt ++ (nonce ++ ct)))
  unfolding preamble to_be_bytes
  from_root = ap (drop 22) flat ∙ drop-append_length 22 preamble _ refl

  from_group : drop 54 (header ++ ct) ≡ group ++ (salt ++ (nonce ++ ct))
  from_group =
      drop-drop 22 32 (header ++ ct)
      ∙ ap (drop 32) from_root
      ∙ drop-append_length 32 root _ root_long

  from_salt : drop 86 (header ++ ct) ≡ salt ++ (nonce ++ ct)
  from_salt =
      drop-drop 54 32 (header ++ ct)
      ∙ ap (drop 32) from_group
      ∙ drop-append_length 32 group _ group_long

  from_nonce : drop 102 (header ++ ct) ≡ nonce ++ ct
  from_nonce =
      drop-drop 86 16 (header ++ ct)
      ∙ ap (drop 16) from_salt
      ∙ drop-append_length 16 salt _ salt_long

  length-header : length header ≡ 114
  unfolding header preamble to_be_bytes
  length-header = omega (
    arith,
    length-append root (group ++ (salt ++ nonce)),
    length-append group (salt ++ nonce),
    length-append salt nonce,
  )

  opens : length ct ≡ 48 → prepare_decrypt root group (header ++ ct) ≡ ok (header ++ ct)
  unfolding prepare_decrypt preamble to_be_bytes from_be_bytes
  opens sized =
      let full : length (header ++ ct) ≡ 162 =
        omega (arith, length-append header ct, length-header) in
      let is_magic : take 8 (header ++ ct) ≡ magic = ap (take 8) flat in
      let is_version : get_or (header ++ ct) 8 0 ≡ 1 = ap (λ l. get_or l 8 0) flat in
      let is_kdf : get_or (header ++ ct) 9 0 ≡ 1 = ap (λ l. get_or l 9 0) flat in
      let memory : read_u32 (header ++ ct) 10 ≡ 65_536 = ap (λ l. read_u32 l 10) flat in
      let time : read_u32 (header ++ ct) 14 ≡ 3 = ap (λ l. read_u32 l 14) flat in
      let lanes : read_u32 (header ++ ct) 18 ≡ 1 = ap (λ l. read_u32 l 18) flat in
      let is_root : slice 22 32 (header ++ ct) ≡ root =
        ap (take 32) from_root ∙ take-append_length 32 root _ root_long in
      let is_group : slice 54 32 (header ++ ct) ≡ group =
        ap (take 32) from_group ∙ take-append_length 32 group _ group_long in
      rw
        (
          full,
          is_magic,
          is_version,
          is_kdf,
          memory,
          time,
          lanes,
          is_root,
          is_group,
          bytes_eq_refl magic,
          bytes_eq_refl root,
          bytes_eq_refl group,
        )
        refl

nonce_at :
    (root group salt nonce : List ℕ)
    → length root ≡ 32
    → length group ≡ 32
    → length salt ≡ 16
    → length nonce ≡ 12
    → drop 102 (preamble ++ (root ++ (group ++ (salt ++ nonce)))) ≡ nonce
unfolding header
nonce_at root group salt nonce root_long group_long salt_long nonce_long =
    ap (drop 102) (sym (append-nil (preamble ++ (root ++ (group ++ (salt ++ nonce))))))
    ∙ from_nonce root group salt nonce [] root_long group_long salt_long nonce_long
    ∙ append-nil nonce

module _ (aead : Aead) (laws : AeadLaws aead) (public : List ℕ → List ℕ) where
  -- A seed of 32 bytes that is backed up, for a group of 32 bytes and under a salt of 16 and a nonce of
  -- 12, makes an envelope of 162 bytes that is accepted for the seed's root and that group, shows the
  -- salt, and opens to the seed under the same key. A root key is 32 bytes.
  pub decrypt-encrypt :
      (seed group salt nonce key envelope : List ℕ)
      → length (public seed) ≡ 32
      → length seed ≡ 32
      → length group ≡ 32
      → length salt ≡ 16
      → length nonce ≡ 12
      → encrypt aead public (prepare_encrypt public seed group salt nonce) seed key ≡ ok envelope
      → (length envelope ≡ 162)
        × (prepare_decrypt (public seed) group envelope ≡ ok envelope)
        × (salt_of envelope ≡ salt)
        × (decrypt aead public envelope key ≡ ok seed)
  unfolding encrypt decrypt prepare_encrypt header
  decrypt-encrypt seed group salt nonce key envelope root_long seed_long group_long salt_long
        nonce_long made =
      let h = header (public seed) group salt nonce [] root_long group_long salt_long nonce_long in
      let (own, next) = guard-eq-ok (bytes_eq (public seed) (slice 22 32 h)) _ _ made in
      let (ct, sealed, is) = >>=-eq-ok (ok_or (aead.encrypt key (drop 102 h) h seed) tt) _ next in
      let went = ok_or-eq-ok (aead.encrypt key (drop 102 h) h seed) tt sealed in
      let sized : length ct ≡ 48 =
        omega (arith, laws.encrypt_length key (drop 102 h) h seed ct went) in
      let same : h ++ ct ≡ envelope = ok-inj is in
      let root = public seed in
      let under : aead.encrypt key nonce h seed ≡ some ct =
        subst (λ n. aead.encrypt key n h seed ≡ some ct)
          (nonce_at root group salt nonce root_long group_long salt_long nonce_long) went in
      let long = length-header root group salt nonce ct root_long group_long salt_long nonce_long in
      let is_nonce : slice 102 12 (h ++ ct) ≡ nonce =
        ap (take 12) (from_nonce root group salt nonce ct root_long group_long salt_long nonce_long)
        ∙ take-append_length 12 nonce ct nonce_long in
      let is_salt : salt_of (h ++ ct) ≡ salt =
        ap (take 16) (from_salt root group salt nonce ct root_long group_long salt_long nonce_long)
        ∙ take-append_length 16 salt _ salt_long in
      let is_root : slice 22 32 (h ++ ct) ≡ root =
        ap (take 32) (from_root root group salt nonce ct root_long group_long salt_long nonce_long)
        ∙ take-append_length 32 root _ root_long in
      let front : take 114 (h ++ ct) ≡ h = take-append_length 114 h ct long in
      let back : drop 114 (h ++ ct) ≡ ct = drop-append_length 114 h ct long in
      let opened : decrypt aead public (h ++ ct) key ≡ ok seed =
        rw
          (
            is_nonce,
            front,
            back,
            laws.decrypt-encrypt key nonce h seed ct under,
            seed_long,
            is_root,
            bytes_eq_refl root,
          )
          refl in
      subst
        (λ e.
          (length e ≡ 162)
          × (prepare_decrypt root group e ≡ ok e)
          × (salt_of e ≡ salt)
          × (decrypt aead public e key ≡ ok seed))
        same
        (
          omega (arith, length-append h ct, long, sized),
          opens root group salt nonce ct root_long group_long salt_long nonce_long sized,
          is_salt,
          opened,
        )

-- A backup that opens for a root gives 32 bytes, and they are a seed of that root.
pub decrypt-root :
    (aead : Aead) (public : List ℕ → List ℕ)
    (expected_root expected_group envelope prepared seed key : List ℕ)
    → prepare_decrypt expected_root expected_group envelope ≡ ok prepared
    → decrypt aead public prepared key ≡ ok seed
    → (prepared ≡ envelope) × (length seed ≡ 32) × (public seed ≡ expected_root)
unfolding prepare_decrypt decrypt
decrypt-root aead public expected_root expected_group envelope prepared seed key accepted opened =
    let (full, a₁) = guard-eq-ok (length envelope == encoded_len) _ _ accepted in
    let (is_magic, a₂) = guard-eq-ok (bytes_eq (take 8 envelope) magic) _ _ a₁ in
    let (is_version, a₃) = guard-eq-ok (get_or envelope 8 0 == version) _ _ a₂ in
    let (is_kdf, a₄) = guard-eq-ok (get_or envelope 9 0 == kdf_argon2id_v19) _ _ a₃ in
    let (memory, a₅) = guard-eq-ok (read_u32 envelope 10 == argon2_memory_kib) _ _ a₄ in
    let (time, a₆) = guard-eq-ok (read_u32 envelope 14 == argon2_time_cost) _ _ a₅ in
    let (lanes, a₇) = guard-eq-ok (read_u32 envelope 18 == argon2_lanes) _ _ a₆ in
    let (is_root, a₈) = guard-eq-ok (bytes_eq (slice 22 32 envelope) expected_root) _ _ a₇ in
    let (is_group, a₉) = guard-eq-ok (bytes_eq (slice 54 32 envelope) expected_group) _ _ a₈ in
    let same : prepared ≡ envelope = sym (ok-inj a₉) in
    let (plain, text, b₁) =
      >>=-eq-ok
        (ok_or
          (aead.decrypt key (slice 102 12 prepared) (take header_len prepared)
            (drop header_len prepared))
          tt)
        _ opened in
    let (sized, b₂) = guard-eq-ok (length plain == 32) _ _ b₁ in
    let (own, b₃) = guard-eq-ok (bytes_eq (public plain) (slice 22 32 prepared)) _ _ b₂ in
    let is_seed : plain ≡ seed = ok-inj b₃ in
    let long : length plain ≡ 32 = (==_iff (length plain) 32).0 sized in
    (
      same,
      ap length (sym is_seed) ∙ long,
      ap public (sym is_seed)
          ∙ bytes_eq→eq (public plain) (slice 22 32 prepared) own
          ∙ ap (slice 22 32) same
          ∙ bytes_eq→eq (slice 22 32 envelope) expected_root is_root,
    )
