-- ===== src/Reachable/Waits.antt =====
-- When `wait_until_reachable` of backend/app/connectors/net.py returns, and what it returns.
use joulenap.Prelude.{
  ◌≢◌, ℕ, zero, suc, ◌+◌, ◌≤◌, ◌<◌, ◌≡◌, ◌⊎◌, inl, inr, refl, Bool, true, false, Option, none, some,
  leb, Bool-cases, arith,
}
use joulenap.Reachable.{Host, wait_loop, wait_until_reachable}

module _ (host : Host) (deadline : ℕ) where
  -- What a wait of which `n` calls were made tells.
  pub record IsWait (o : Option Bool) (n : ℕ) : Type 0 where
    pub up : o ≡ some true → (m : ℕ) × (n ≡ m + 1) × (host.reachable m ≡ true)
    pub down :
        o ≡ some false
        → ((m : ℕ) × (n ≡ m + 1) × (host.cancelled m ≡ true))
          ⊎ ((m : ℕ) × (n ≡ m + 2) × (host.reachable m ≡ false) × (deadline ≤ host.clock (m + 1)))

  wait_loop-IsWait :
      (fuel n : ℕ) → IsWait (wait_loop host deadline fuel n).0 (wait_loop host deadline fuel n).1
  unfolding wait_loop
  wait_loop-IsWait zero n = record {
    up = λ e. absurd (ground arith);
    down = λ e. absurd (ground arith);
  }
  wait_loop-IsWait (suc fuel) n =
      let later = wait_loop-IsWait fuel (n + 3) in
      elim (Bool-cases (host.cancelled n)) [
        | inl c ↦ rw c (record { up = λ e. absurd (ground arith); down = λ e. inl (n, refl, c) })
        | inr c ↦ elim (Bool-cases (host.reachable (n + 1))) [
          | inl u ↦
              rw (c, u)
                (record { up = λ e. (n + 1, omega arith, u); down = λ e. absurd (ground arith) })
          | inr u ↦ elim (Bool-cases (leb deadline (host.clock (n + 2)))) [
            | inl d ↦
                rw (c, u, d)
                  (record {
                    up = λ e. absurd (ground arith);
                    down = λ e. inr (n + 1, omega arith, u, ground arith);
                  })
            | inr d ↦ rw (c, u, d) later
          ]
        ]
      ]

  wait_loop-returns :
      ((n : ℕ) → host.clock n < host.clock (n + 3))
      → (fuel n : ℕ) → deadline ≤ host.clock (n + 2) + fuel
      → (wait_loop host deadline (suc fuel) n).0 ≢ none
  unfolding wait_loop
  wait_loop-returns moves zero n q e = ground arith
  wait_loop-returns moves (suc fuel) n q e =
      let same : n + 3 + 2 ≡ n + 2 + 3 = omega arith in
      let later : host.clock (n + 2) < host.clock (n + 3 + 2) = rw same (moves (n + 2)) in
      ground (arith, wait_loop-returns moves fuel (n + 3) (omega arith))

-- `wait_until_reachable` answers yes only if its last call was a probe that found the box up, and
-- no only if its last call was a `should_cancel` that said so, or its last probe failed and the
-- clock, read after that probe, was at the deadline or past it.
pub wait_until_reachable-IsWait :
    (host : Host) (timeout fuel : ℕ)
    → IsWait host
        (host.clock 0 + timeout)
        (wait_until_reachable host timeout fuel).0
        (wait_until_reachable host timeout fuel).1
unfolding wait_until_reachable
wait_until_reachable-IsWait host timeout fuel =
    wait_loop-IsWait host (host.clock 0 + timeout) fuel 1

-- Where three calls, a turn of the loop, move the clock on, one turn more than the timeout counts is
-- enough for an answer.
pub wait_until_reachable-returns :
    (host : Host) (timeout : ℕ)
    → ((n : ℕ) → host.clock n < host.clock (n + 3))
    → (wait_until_reachable host timeout (suc timeout)).0 ≢ none
unfolding wait_until_reachable
wait_until_reachable-returns host timeout moves =
    wait_loop-returns host (host.clock 0 + timeout) moves timeout 1 (omega (arith, moves 0))
