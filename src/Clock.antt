-- ===== src/Clock.antt =====
-- runtime/crates/engine/src/clock.rs: the clock that the engine's node reads.
mod Tests
use polyvisor.Common.{ℕ, ◌/◌, ◌≤◌, ◌<◌, max, ◌≡◌, refl, List, [], ◌∷◌, All, length, arith}

-- `Now`: milliseconds that never step back, and wall seconds.
pub record Now : Type 0 where
  pub monotonic : ℕ
  pub wall : ℕ

-- `ClockAdapter::now` at a raw reading: the high-water mark left behind, and what is reported.
unfoldable pub now : ℕ → ℕ → ℕ × Now
now raw high_water =
    let monotonic = max raw high_water in
    (monotonic, record { monotonic = monotonic; wall = raw / 1000 })

-- The reports of an adapter over the raw readings of a clock.
unfoldable pub reports : List ℕ → ℕ → List Now
reports [] high_water = []
reports (raw ∷ later) high_water =
    let (mark, reported) = now raw high_water in reported ∷ reports later mark

-- `ClockAdapter::new`.
abbrev pub new : ℕ
new = 0

reports-bounded :
    (raws : List ℕ) (low high_water : ℕ)
    → low ≤ high_water
    → All (λ n. low ≤ n.monotonic) (reports raws high_water)
unfolding reports now
reports-bounded [] low high_water under = tt
reports-bounded (raw ∷ later) low high_water under =
    (omega arith, reports-bounded later low (max raw high_water) (omega arith))

-- Each report is at most every later one.
unfoldable pub IsMonotone : List Now → Type 0
IsMonotone [] = Unit {0}
IsMonotone (n ∷ later) = All (λ m. n.monotonic ≤ m.monotonic) later × IsMonotone later

-- Whatever the raw readings do, the reported milliseconds never step back.
pub reports-IsMonotone : (raws : List ℕ) (high_water : ℕ) → IsMonotone (reports raws high_water)
unfolding reports now IsMonotone
reports-IsMonotone [] high_water = tt
reports-IsMonotone (raw ∷ later) high_water = (
  reports-bounded later (max raw high_water) (max raw high_water) (omega arith),
  reports-IsMonotone later (max raw high_water),
)
