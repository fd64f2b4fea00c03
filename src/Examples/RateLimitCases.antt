-- ===== src/Examples/RateLimitCases.antt =====
-- The limiter of backend/app/core/ratelimit.py with its defaults: five failures, five minutes.
use joulenap.Prelude.{◌<◌, ◌+◌, ◌≡◌, refl, List, [], ◌∷◌, codes, lookup, insert, text_eq, arith}
use joulenap.RateLimit.{Limits, locked_for, record_failure}
use joulenap.RateLimit.Guesses.{Section, asks, records, guesses, guesses_bounded}

abbrev limits : Limits
limits = record { max_failures = 5; lockout = 300 }

-- Six requests, of which two are being checked at a time.
abbrev sections : List Section
sections = asks 10 ∷ asks 11 ∷ records 12 ∷ asks 13 ∷ records 14 ∷ records 15 ∷ asks 16 ∷ []

three_checked : guesses (record limits { max_failures = 2 }) (codes "10.0.0.7") 2 sections 0 [] ≡ 3
unfolding guesses locked_for record_failure lookup insert text_eq
three_checked = refl

guesses_bounded_example : guesses limits (codes "10.0.0.7") 2 sections 0 [] < 5 + 2
unfolding lookup
guesses_bounded_example =
    guesses_bounded limits (codes "10.0.0.7") 10 2 sections [] (omega arith)
      (
        (omega arith, omega arith),
        (
          (omega arith, omega arith),
          (
            (omega arith, omega arith),
            (
              (omega arith, omega arith),
              (
                (omega arith, omega arith),
                ((omega arith, omega arith), ((omega arith, omega arith), tt)),
              ),
            ),
          ),
        ),
      )
      refl
