-- ===== src/Clock/Tests.antt =====
-- A clock that steps back.
use polyvisor.Common.{◌≡◌, refl, [], ◌∷◌}
use polyvisor.Clock.{now, reports, new}

steps_back :
    reports (5_000 ∷ 2_000 ∷ 7_000 ∷ []) new
    ≡ record { monotonic = 5_000; wall = 5 }
      ∷ record { monotonic = 5_000; wall = 2 }
      ∷ record { monotonic = 7_000; wall = 7 }
      ∷ []
unfolding reports now
steps_back = refl
