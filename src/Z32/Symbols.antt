-- ===== src/Z32/Symbols.antt =====
-- The alphabet of runtime/component/src/z32.rs, and single rounds of its two loops.
use polyvisor.Common.{
  ◌≡◌, refl, ℕ, ◌+◌, ◌-◌, ◌/◌, ◌%◌, ◌^◌, ◌<◌, Bool, true, false, List, ◌∷◌, Option, none, some,
  ◌==◌, leb, all_below, all_below_sound, arith,
}
use polyvisor.Z32.{alphabet, symbol, position, decode_loop, shift_in, push}

abbrev found_at : Option ℕ → ℕ → Bool
found_at none v = false
found_at (some w) v = w == v

found_at-eq : (o : Option ℕ) (v : ℕ) → found_at o v ≡ true → o ≡ some v
found_at-eq none v h = ground arith
found_at-eq (some w) v h = ground arith

alphabet_table : all_below 32 (λ v. found_at (position alphabet (symbol v)) v) ≡ true
unfolding all_below position symbol
alphabet_table = refl

pub position-symbol : (v : ℕ) → v < 32 → position alphabet (symbol v) ≡ some v
position-symbol v h =
    found_at-eq _ v
      (all_below_sound (λ w. found_at (position alphabet (symbol w)) w) 32 v alphabet_table h)

module _ (v : ℕ) (rest : List ℕ) (acc bits : ℕ) (small : v < 32) where
  pub decode_loop_narrow :
      leb 8 (bits + 5) ≡ false
      → decode_loop (symbol v ∷ rest) acc bits ≡ decode_loop rest (shift_in 5 acc v) (bits + 5)
  unfolding decode_loop
  decode_loop_narrow h = rw (position-symbol v small, decode_loop) (rw h)

  pub decode_loop_wide :
      leb 8 (bits + 5) ≡ true
      → decode_loop (symbol v ∷ rest) acc bits
        ≡ push
            (shift_in 5 acc v / 2 ^ (bits + 5 - 8) % 256)
            (decode_loop rest (shift_in 5 acc v) (bits + 5 - 8))
  unfolding decode_loop
  decode_loop_wide h = rw (position-symbol v small, decode_loop) (rw h)
