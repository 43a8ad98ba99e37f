-- ===== src/RateLimit/Tests.antt =====
-- src/auth/rate-limit.ts: two requests a minute.
use inbox_angel_worker.Common.{◌≤◌, ◌≡◌, refl, arith, [], ◌∷◌, none}
use inbox_angel_worker.Text.{codes, text_eq}
use inbox_angel_worker.RateLimit.{Rule, Windows, hit, consume}
use inbox_angel_worker.RateLimit.Bound.{allowed_count, allowed_count-le}

abbrev two_a_minute : Rule
two_a_minute = record { window = 60; max_requests = 2 }

abbrev empty : Windows
empty = λ _. none

-- The fourth request finds a new window.
three_of_four : allowed_count (codes "ip") two_a_minute (1000 ∷ 2000 ∷ 3000 ∷ 61000 ∷ []) empty ≡ 3
unfolding allowed_count consume hit text_eq
three_of_four = refl

allowed_count-le_example :
    allowed_count (codes "ip") two_a_minute (1000 ∷ 2000 ∷ 3000 ∷ 60999 ∷ []) empty ≤ 2
allowed_count-le_example =
    allowed_count-le (codes "ip") two_a_minute 1000 (2000 ∷ 3000 ∷ 60999 ∷ []) empty refl
      (omega arith, (omega arith, (omega arith, tt)))
