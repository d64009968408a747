-- ===== src/Route/Layout.antt =====
-- runtime/crates/kernel/src/route.rs: where the five writes of `encode_instance` land.
use polyvisor.Common.{
  ℕ, zero, suc, ◌+◌, ◌-◌, ◌/◌, ◌%◌, ◌≤◌, ◌<◌, ◌≡◌, refl, sym, ap, ◌∙◌, List, [], ◌∷◌, ◌++◌,
  append_assoc, length, length-append, length-replicate, replicate, take-append_length,
  drop-append_length, copy_at, arith, IsBytes, IsBytes-append, IsBytes-replicate,
}
use polyvisor.Route.{plaintext, max_route, instance_cap}

abbrev pub zeros : ℕ → List ℕ
zeros n = replicate n 0

zeros_add : (m n k : ℕ) → k ≡ m + n → zeros k ≡ zeros m ++ zeros n
zeros_add zero n k h = ap zeros (omega arith)
zeros_add (suc m) n k h = ap zeros h' ∙ ap (◌∷◌ 0) (zeros_add m n (m + n) refl)
  where
    h' : k ≡ suc (m + n)
    h' = omega arith

-- A write of `s` behind `front`, over zeros.
copy_at-zeros :
    (at : ℕ) (front s : List ℕ) (k : ℕ)
    → length front ≡ at
    → length s ≤ k
    → copy_at at s (front ++ zeros k) ≡ (front ++ s) ++ zeros (k - length s)
unfolding copy_at
copy_at-zeros at front s k hf hs =
    rw
      (
        zeros_add (length s) (k - length s) k (omega arith),
        take-append_length at front _ hf,
        sym (append_assoc front (zeros (length s)) (zeros (k - length s))),
        drop-append_length (at + length s) (front ++ zeros (length s)) _ (
            omega
              (arith, length-append front (zeros (length s)), length-replicate (length s) (zero))),
      )
      (sym (append_assoc front s _))

-- The 256 bytes: install, instance length, instance and its padding, route length, route, padding.
abbrev pub layout : List ℕ → ℕ → List ℕ → ℕ → ℕ → List ℕ → List ℕ
layout install n inst hi lo route =
    install
    ++ (n
        ∷ (inst
            ++ (zeros (instance_cap - length inst)
                ++ (hi ∷ lo ∷ (route ++ zeros (max_route - length route))))))

-- The part of the buffer that is settled after each write.
module _ (install inst route : List ℕ) where
  abbrev settled2 : List ℕ
  settled2 = install ++ (length inst % 256 ∷ [])

  abbrev settled3 : List ℕ
  settled3 = (settled2 ++ inst) ++ zeros (instance_cap - length inst)

  abbrev settled4 : List ℕ
  settled4 = settled3 ++ (length route / 256 % 256 ∷ length route % 256 ∷ [])

module _ (install inst route : List ℕ) (hi : length install ≡ 16) (hn : length inst ≤ 32)
    (hr : length route ≤ 205) where
  written2 :
      copy_at 16 (length inst % 256 ∷ []) (copy_at 0 install (zeros 256))
      ≡ settled2 install inst route ++ zeros 239
  written2 =
      rw (copy_at-zeros 0 [] install 256 refl (omega arith), hi)
        (copy_at-zeros 16 install (length inst % 256 ∷ []) 240 hi (omega arith))

  length-settled2 : length (settled2 install inst route) ≡ 17
  length-settled2 = omega (arith, length-append install (length inst % 256 ∷ []))

  written3 :
      copy_at 17 inst (settled2 install inst route ++ zeros 239)
      ≡ settled3 install inst route ++ zeros 207
  written3 =
      copy_at-zeros 17 (settled2 install inst route) inst 239 length-settled2 (omega arith)
      ∙ rw (zeros_add (32 - length inst) 207 (239 - length inst) (omega arith)) (
          sym (
            append_assoc (settled2 install inst route ++ inst) (zeros (32 - length inst))
              (zeros 207)))

  length-settled3 : length (settled3 install inst route) ≡ 49
  length-settled3 = omega (
    arith,
    length-settled2,
    length-append (settled2 install inst route ++ inst) (zeros (32 - length inst)),
    length-append (settled2 install inst route) inst,
    length-replicate {A = ℕ} (32 - length inst) 0,
  )

  written4 :
      copy_at 49
        (length route / 256 % 256 ∷ length route % 256 ∷ [])
        (settled3 install inst route ++ zeros 207)
      ≡ settled4 install inst route ++ zeros 205
  written4 = copy_at-zeros 49 (settled3 install inst route) _ 207 length-settled3 (omega arith)

  written5 :
      copy_at 51 route (settled4 install inst route ++ zeros 205)
      ≡ (settled4 install inst route ++ route) ++ zeros (205 - length route)
  written5 =
      copy_at-zeros 51 (settled4 install inst route) route 205
        (omega (
          arith,
          length-settled3,
          length-append (settled3 install inst route)
              (length route / 256 % 256 ∷ length route % 256 ∷ []),
        ))
        hr

  pub plaintext-layout :
      plaintext install inst route
      ≡ layout install
          (length inst % 256)
          inst
          (length route / 256 % 256)
          (length route % 256)
          route
  unfolding plaintext
  plaintext-layout = rw (written2, written3, written4, written5) (simp append_assoc)

-- A layout has 256 bytes.
pub length-layout :
    (install : List ℕ) (n : ℕ) (inst : List ℕ) (hi lo : ℕ) (route : List ℕ)
    → length install ≡ 16
    → length inst ≤ 32
    → length route ≤ 205
    → length (layout install n inst hi lo route) ≡ 256
length-layout install n inst hi lo route h k l = omega (
  arith,
  length-append install (
      n
      ∷ (inst ++ (zeros (32 - length inst) ++ (hi ∷ lo ∷ (route ++ zeros (205 - length route)))))),
  length-append inst
      (zeros (32 - length inst) ++ (hi ∷ lo ∷ (route ++ zeros (205 - length route)))),
  length-append (zeros (32 - length inst)) (hi ∷ lo ∷ (route ++ zeros (205 - length route))),
  length-append route (zeros (205 - length route)),
  length-replicate {A = ℕ} (32 - length inst) 0,
  length-replicate {A = ℕ} (205 - length route) 0,
)

pub layout-IsBytes :
    (install : List ℕ) (n : ℕ) (inst : List ℕ) (hi lo : ℕ) (route : List ℕ)
    → IsBytes install
    → n < 256
    → IsBytes inst
    → hi < 256
    → lo < 256
    → IsBytes route
    → IsBytes (layout install n inst hi lo route)
layout-IsBytes install n inst hi lo route a b c d e f =
    let pad : (k : ℕ) → IsBytes (zeros k) = λ k. IsBytes-replicate k 0 (omega arith) in
    let route_part : IsBytes (route ++ zeros (205 - length route)) =
      IsBytes-append route (zeros (205 - length route)) f (pad (205 - length route)) in
    let inst_part : IsBytes
        (inst ++ (zeros (32 - length inst) ++ (hi ∷ lo ∷ (route ++ zeros (205 - length route))))) =
      IsBytes-append inst
        (zeros (32 - length inst) ++ (hi ∷ lo ∷ (route ++ zeros (205 - length route)))) c
        (IsBytes-append (zeros (32 - length inst)) (hi ∷ lo ∷ (route ++ zeros (205 - length route)))
          (pad (32 - length inst)) (d, (e, route_part))) in
    IsBytes-append install
      (n
        ∷ (inst ++ (zeros (32 - length inst) ++ (hi ∷ lo ∷ (route ++ zeros (205 - length route))))))
      a (b, inst_part)
