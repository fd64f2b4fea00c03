-- ===== src/Reachable.antt =====
-- backend/app/connectors/net.py, `wait_until_reachable`: the wait for a box that was just woken. The
-- answers of the probe, of `should_cancel` and of the clock are functions of the number of calls
-- made before; a `should_cancel` that is not given is one that never answers yes. Times are in
-- milliseconds.
pub mod Waits
use joulenap.Prelude.{ℕ, zero, suc, ◌+◌, Bool, true, false, Option, none, some, leb, if◌then◌else◌}

pub record Host : Type 0 where
  pub reachable : ℕ → Bool
  pub clock : ℕ → ℕ
  pub cancelled : ℕ → Bool

-- The result, if there is one, and the calls made.
unfoldable pub wait_loop : Host → ℕ → ℕ → ℕ → Option Bool × ℕ
wait_loop host deadline zero n = (none, n)
wait_loop host deadline (suc fuel) n =
    let later = wait_loop host deadline fuel (n + 3) in
    if host.cancelled n
    then (some false, n + 1)
    else if host.reachable (n + 1)
    then (some true, n + 2)
    else if leb deadline (host.clock (n + 2))
    then (some false, n + 3)
    else later

unfoldable pub wait_until_reachable : Host → ℕ → ℕ → Option Bool × ℕ
wait_until_reachable host timeout fuel = wait_loop host (host.clock 0 + timeout) fuel 1
