-- ===== src/RateLimit/Guesses.antt =====
-- How many passwords an address can try (backend/app/core/ratelimit.py, backend/app/api/auth.py).
use joulenap.Prelude.{
  ◌≢◌, ℕ, zero, suc, if◌then◌else◌, ltb, Bool-cases, inl, inr, ◌+◌, ◌≤◌, ◌<◌, ◌≡◌, refl, Bool,
  false, Option, none, some, List, [], ◌∷◌, Text, Dict, text_eq, text_eq_refl, lookup, dict_laws,
  All, arith,
}
use joulenap.RateLimit.{
  Entry, Limits, set_default, locked_for, record_failure, reset, Answer, too_many_attempts,
  accepted, login, setup,
}

abbrev streak_of : Option Entry → ℕ
streak_of none = 0
streak_of (some e) = e.failures

abbrev until_of : Option Entry → ℕ
until_of none = 0
until_of (some e) = e.locked_until

-- The two sections of a login with a wrong password: it asks for the lockout, and, once the slow
-- check of the password is done, it records the failure.
pub data Section : Type 0 where
  asks records : ℕ → Section

-- How many wrong passwords of an address are checked, where at most `threads` of its requests are
-- being checked at once and `checking` are now. What the sections do, and in which order those of
-- different requests come, is the list; a request that finds no free thread is not begun, and a
-- failure is recorded only for a password that was being checked.
unfoldable pub guesses : Limits → Text → ℕ → List Section → ℕ → Dict Entry → ℕ
guesses limits ip threads [] checking s = 0
guesses limits ip threads (asks now ∷ later) checking s =
    let (remaining, s') = locked_for now ip s in
    let begun = guesses limits ip threads later (suc checking) s' in
    let refused = guesses limits ip threads later checking s' in
    let waiting = guesses limits ip threads later checking s in
    if ltb checking threads then (if ltb 0 remaining then refused else suc begun) else waiting
guesses limits ip threads (records now ∷ later) zero s = guesses limits ip threads later zero s
guesses limits ip threads (records now ∷ later) (suc checking) s =
    guesses limits ip threads later checking (record_failure limits now ip s)

abbrev pub time_of : Section → ℕ
time_of (asks now) = now
time_of (records now) = now

module _ (limits : Limits) (ip : Text) (from : ℕ) where
  -- There is no lock before the last failure that is allowed, and from then on one that outlasts
  -- `from` by the lockout.
  record IsCounted (s : Dict Entry) : Type 0 where
    free : streak_of (lookup ip s) < limits.max_failures → until_of (lookup ip s) ≡ 0
    locked :
        limits.max_failures ≤ streak_of (lookup ip s)
        → from + limits.lockout ≤ until_of (lookup ip s)

  -- All the sections fall within the lockout that `from` begins.
  abbrev pub Within : List Section → Type 0
  Within = All (λ e. (from ≤ time_of e) × (time_of e < from + limits.lockout))

  record IsAsked (now : ℕ) (s : Dict Entry) : Type 0 where
    same : (locked_for now ip s).1 ≡ s
    few : (locked_for now ip s).0 ≡ 0 → streak_of (lookup ip s) < limits.max_failures

  locked_for-IsAsked :
      (now : ℕ) (s : Dict Entry) → now < from + limits.lockout → IsCounted s → IsAsked now s
  unfolding locked_for
  locked_for-IsAsked now s b c = record {
    same = grind (arith, c.free, c.locked);
    few = λ h. grind (arith, c.free, c.locked);
  }

  record IsRecorded (s s' : Dict Entry) : Type 0 where
    kept : IsCounted s'
    counted : streak_of (lookup ip s') ≡ streak_of (lookup ip s) + 1

  record_failure-IsRecorded :
      (now : ℕ) (s : Dict Entry)
      → from ≤ now
      → IsCounted s
      → IsRecorded s (record_failure limits now ip s)
  unfolding record_failure set_default
  record_failure-IsRecorded now s a c = record {
    kept = record {
      free = λ h. grind (arith, dict_laws, text_eq_refl ip, c.free, c.locked);
      locked = λ h. grind (arith, dict_laws, text_eq_refl ip, c.free, c.locked);
    };
    counted = grind (arith, dict_laws, text_eq_refl ip);
  }

  guesses_left :
      (threads : ℕ) (sections : List Section) (checking : ℕ) (s : Dict Entry)
      → checking ≤ threads
      → streak_of (lookup ip s) + checking < limits.max_failures + threads
      → Within sections
      → IsCounted s
      → guesses limits ip threads sections checking s + (streak_of (lookup ip s) + checking)
        < limits.max_failures + threads
  unfolding guesses
  guesses_left threads [] checking s k b h c = omega arith
  guesses_left threads (records now ∷ later) zero s k b h c =
      guesses_left threads later zero s k b h.1 c
  guesses_left threads (records now ∷ later) (suc checking) s k b h c =
      let r = record_failure-IsRecorded now s h.0.0 c in
      let left =
        guesses_left threads later checking (record_failure limits now ip s) (omega arith)
          (omega (arith, r.counted)) h.1 r.kept in
      omega (arith, left, r.counted)
  guesses_left threads (asks now ∷ later) checking s k b h c =
      let a = locked_for-IsAsked now s h.0.1 c in
      elim (Bool-cases (ltb checking threads)) [
        | inr q ↦ rw q (guesses_left threads later checking s k b h.1 c)
        | inl q ↦ elim (Bool-cases (ltb 0 (locked_for now ip s).0)) [
          | inl l ↦ rw (q, l, a.same) (guesses_left threads later checking s k b h.1 c)
          | inr l ↦
              let few = a.few (ground arith) in
              let left =
                guesses_left threads later (suc checking) s (ground arith) (ground arith) h.1 c in
              rw (q, l, a.same) (omega (arith, left))
        ]
      ]

-- An address with no failures on record, which sends only wrong passwords and of whose requests at
-- most `threads` are handled at once, gets fewer than `max_failures + threads` of them checked in
-- any stretch of time as long as the lockout, however many it sends and however the sections of
-- their handlers interleave.
pub guesses_bounded :
    (limits : Limits) (ip : Text) (from threads : ℕ) (sections : List Section) (s : Dict Entry)
    → 0 < limits.max_failures
    → All (λ e. (from ≤ time_of e) × (time_of e < from + limits.lockout)) sections
    → lookup ip s ≡ none
    → guesses limits ip threads sections 0 s < limits.max_failures + threads
guesses_bounded limits ip from threads sections s p h fresh =
    let none_yet : streak_of (lookup ip s) ≡ 0 = rw fresh refl in
    let left =
      guesses_left limits ip from threads sections 0 s (omega arith) (omega arith) h
        (record { free = λ q. rw fresh refl; locked = λ q. absurd (omega arith) }) in
    omega arith

-- What an answer of `login` or `setup` to the address `ip` left in the state.
pub record IsAnswered (limits : Limits) (now : ℕ) (ip : Text) (s : Dict Entry) (answer : Answer)
    (s' : Dict Entry) : Type 0 where
  pub others : (j : Text) → text_eq ip j ≡ false → lookup j s' ≡ lookup j s
  pub cleared : answer ≡ accepted → lookup ip s' ≡ none
  pub waits :
      (left : ℕ) → answer ≡ too_many_attempts (left + 1) → until_of (lookup ip s) ≡ now + left
  pub expired : until_of (lookup ip s) ≤ now → (left : ℕ) → answer ≢ too_many_attempts left

-- A login concerns the entry of its own address only; an accepted one clears it; an attempt is
-- turned away only until the lock's end, which the answer names, and never from then on.
pub login-IsAnswered :
    (limits : Limits) (needs_setup correct : Bool) (now later : ℕ) (ip : Text) (s : Dict Entry)
    → let (answer, s') = login limits needs_setup correct now later ip s in
      IsAnswered limits now ip s answer s'
unfolding login locked_for record_failure set_default reset
login-IsAnswered limits needs_setup correct now later ip s = record {
  others = λ j h. grind (arith, dict_laws, text_eq_refl ip);
  cleared = λ h. grind (arith, dict_laws, text_eq_refl ip);
  waits = λ left h. grind (arith, dict_laws, text_eq_refl ip);
  expired = λ h left e. grind (arith, dict_laws, text_eq_refl ip);
}

-- The same of a setup.
pub setup-IsAnswered :
    (limits : Limits) (needs_setup : Bool) (now later : ℕ) (ip : Text) (s : Dict Entry)
    → let (answer, s') = setup limits needs_setup now later ip s in
      IsAnswered limits now ip s answer s'
unfolding setup locked_for record_failure set_default reset
setup-IsAnswered limits needs_setup now later ip s = record {
  others = λ j h. grind (arith, dict_laws, text_eq_refl ip);
  cleared = λ h. grind (arith, dict_laws, text_eq_refl ip);
  waits = λ left h. grind (arith, dict_laws, text_eq_refl ip);
  expired = λ h left e. grind (arith, dict_laws, text_eq_refl ip);
}
