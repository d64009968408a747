-- ===== src/Route/Parse.antt =====
-- runtime/crates/kernel/src/route.rs: what `decode_instance` reads in the 256 bytes.
use polyvisor.Common.{
  ℕ, ◌+◌, ◌-◌, ◌*◌, ◌≤◌, ◌≡◌, refl, sym, ap, ◌∙◌, List, [], ◌∷◌, ◌++◌, append_assoc, length,
  length-append, length-replicate, take, drop, get_or-drop, take-append_length, drop-append_length,
  drop-drop, arith, ok, true, all_zero, all_zero-replicate,
}
use polyvisor.Primitives.{Utf8}
use polyvisor.Route.{parse, check_fields, Target, non_empty, max_route, instance_cap}
use polyvisor.Route.Layout.{layout, zeros}

-- The slices of a layout.
module _ (install : List ℕ) (n : ℕ) (inst : List ℕ) (hi lo : ℕ) (route : List ℕ)
    (hi16 : length install ≡ 16) (cap : length inst ≤ 32) where
  abbrev pub plain : List ℕ
  plain = layout install n inst hi lo route

  abbrev pub route_part : List ℕ
  route_part = route ++ zeros (max_route - length route)

  abbrev pub inst_part : List ℕ
  inst_part = inst ++ zeros (instance_cap - length inst)

  length-inst_part : length inst_part ≡ 32
  length-inst_part = omega (
    arith,
    length-append inst (zeros (32 - length inst)),
    length-replicate {A = ℕ} (32 - length inst) 0,
  )

  drop_install : drop 16 plain ≡ n ∷ (inst ++ (zeros (32 - length inst) ++ (hi ∷ lo ∷ route_part)))
  drop_install = drop-append_length 16 install _ hi16

  drop_head : drop 17 plain ≡ inst_part ++ (hi ∷ lo ∷ route_part)
  drop_head =
      ap (λ l. drop 17 l)
        (sym (
          append_assoc install (n ∷ [])
            (inst ++ (zeros (32 - length inst) ++ (hi ∷ lo ∷ route_part)))))
      ∙ drop-append_length 17 (install ++ n ∷ []) _ (omega (arith, length-append install (n ∷ [])))
      ∙ sym (append_assoc inst (zeros (32 - length inst)) (hi ∷ lo ∷ route_part))

  drop_inst : drop 49 plain ≡ hi ∷ lo ∷ route_part
  drop_inst =
      drop-drop 17 32 plain
      ∙ ap (λ l. drop 32 l) drop_head
      ∙ drop-append_length 32 inst_part _ length-inst_part

  drop_lengths : drop 51 plain ≡ route_part
  drop_lengths = drop-drop 49 2 plain ∙ ap (λ l. drop 2 l) drop_inst

  pub parse-slices :
      (utf8 : Utf8)
      → parse utf8 plain ≡ check_fields utf8 install n inst_part (hi * 256 + lo) route_part
  unfolding parse
  parse-slices utf8 = rw (
    take-append_length 16 install
        (n ∷ (inst ++ (zeros (32 - length inst) ++ (hi ∷ lo ∷ route_part)))) hi16,
    get_or-drop 16 0 plain 0,
    drop_install,
    drop_head,
    take-append_length 32 inst_part (hi ∷ lo ∷ route_part) length-inst_part,
    get_or-drop 49 0 plain 0,
    get_or-drop 49 1 plain 0,
    drop_inst,
    drop_lengths,
  )

zeros_tail : (xs : List ℕ) (k : ℕ) → all_zero (drop (length xs) (xs ++ zeros k)) ≡ true
zeros_tail xs k = rw (drop-append_length (length xs) xs (zeros k) refl) (all_zero-replicate k)

-- The fields of a layout pass every test.
pub check_fields-layout :
    (utf8 : Utf8) (install inst route : List ℕ) (k m : ℕ)
    → length inst ≤ 32
    → length route ≤ 205
    → utf8.valid inst ≡ true
    → utf8.valid route ≡ true
    → check_fields utf8 install (length inst) (inst ++ zeros k) (length route) (route ++ zeros m)
      ≡ ok (record { install = install; inst = non_empty inst; route = route })
unfolding check_fields
check_fields-layout utf8 install inst route k m hn hr vi vr =
    rw
      (
        take-append_length (length inst) inst (zeros k) refl,
        take-append_length (length route) route (zeros m) refl,
        zeros_tail inst k,
        zeros_tail route m,
        vi,
        vr,
      )
      (ground arith)

-- What the tests that passed say of the slices.
pub record Accepted (utf8 : Utf8) (install : List ℕ) (n : ℕ) (body : List ℕ) (len : ℕ)
    (tail : List ℕ) (t : Target) : Type 0 where
  pub cap : n ≤ 32
  pub padded : all_zero (drop n body) ≡ true
  pub valid_inst : utf8.valid (take n body) ≡ true
  pub fits : len ≤ 205
  pub padded_route : all_zero (drop len tail) ≡ true
  pub valid_route : utf8.valid (take len tail) ≡ true
  pub target :
      t ≡ record { install = install; inst = non_empty (take n body); route = take len tail }

pub check_fields-Accepted :
    (utf8 : Utf8) (install : List ℕ) (n : ℕ) (body : List ℕ) (len : ℕ) (tail : List ℕ) (t : Target)
    → check_fields utf8 install n body len tail ≡ ok t
    → Accepted utf8 install n body len tail t
unfolding check_fields
check_fields-Accepted utf8 install n body len tail t h = ground arith
