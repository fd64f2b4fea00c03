-- ===== src/RateLimit.antt =====
-- backend/app/core/ratelimit.py, `LoginRateLimiter`, and the handlers of backend/app/api/auth.py
-- that use it, `login` and `setup`, up to their answer. Times are natural numbers; `now` is the
-- clock when a handler asks for the lockout, `later` the clock when it records a failure. A method
-- of the limiter is one step, as its lock makes it; a handler is several, and `login` and `setup`
-- here run them with nothing in between. RateLimit.Guesses interleaves them.
pub mod Guesses
use joulenap.Prelude.{
  ℕ, zero, ◌+◌, ◌-◌, Bool, true, false, Option, none, some, List, [], ◌∷◌, Text, Dict, lookup,
  insert, remove, leb, ltb, ◌==◌, if◌then◌else◌,
}

-- The pair that the limiter keeps for an address; 0 stands for no lock.
pub record Entry : Type 0 where
  pub failures : ℕ
  pub locked_until : ℕ

pub record Limits : Type 0 where
  pub max_failures : ℕ
  pub lockout : ℕ

-- Seconds left, and the state without an entry that has expired.
unfoldable pub locked_for : ℕ → Text → Dict Entry → ℕ × Dict Entry
locked_for now ip s = elim (lookup ip s) [
  | none ↦ (0, s)
  | some e ↦
      if e.locked_until == 0
      then (0, s)
      else if leb e.locked_until now
      then (0, remove ip s)
      else (e.locked_until - now, s)
]

unfoldable pub set_default : Text → Dict Entry → Entry
set_default ip s = elim (lookup ip s) [
  | none ↦ record { failures = 0; locked_until = 0 }
  | some e ↦ e
]

unfoldable pub record_failure : Limits → ℕ → Text → Dict Entry → Dict Entry
unfolding set_default
record_failure limits now ip s =
    let e = set_default ip s in
    insert ip
      (record {
        failures = e.failures + 1;
        locked_until =
            if leb limits.max_failures (e.failures + 1)
            then now + limits.lockout
            else e.locked_until;
      })
      s

unfoldable pub reset : Text → Dict Entry → Dict Entry
reset ip s = remove ip s

pub data Answer : Type 0 where
  too_many_attempts : ℕ → Answer
  no_account account_exists incorrect accepted : Answer

-- `correct` is whether the name and the password are the account's.
unfoldable pub login : Limits → Bool → Bool → ℕ → ℕ → Text → Dict Entry → Answer × Dict Entry
login limits needs_setup correct now later ip s =
    let (remaining, s') = locked_for now ip s in
    if ltb 0 remaining
    then (too_many_attempts (remaining + 1), s')
    else if needs_setup
    then (no_account, s')
    else if correct
    then (accepted, reset ip s')
    else (incorrect, record_failure limits later ip s')

unfoldable pub setup : Limits → Bool → ℕ → ℕ → Text → Dict Entry → Answer × Dict Entry
setup limits needs_setup now later ip s =
    let (remaining, s') = locked_for now ip s in
    if ltb 0 remaining
    then (too_many_attempts (remaining + 1), s')
    else if needs_setup
    then (accepted, reset ip s')
    else (account_exists, record_failure limits later ip s')
