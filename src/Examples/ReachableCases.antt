-- ===== src/Examples/ReachableCases.antt =====
-- `wait_until_reachable` of backend/app/connectors/net.py on a box that comes up late.
use joulenap.Prelude.{◌≢◌, none, false, leb, arith}
use joulenap.Reachable.{Host, wait_until_reachable}
use joulenap.Reachable.Waits.{IsWait, wait_until_reachable-IsWait, wait_until_reachable-returns}

abbrev host : Host
host = record { reachable = λ n. leb 8 n; clock = λ n. n; cancelled = λ n. false }

wait_until_reachable-IsWait_example :
    IsWait host 5 (wait_until_reachable host 5 4).0 (wait_until_reachable host 5 4).1
wait_until_reachable-IsWait_example = wait_until_reachable-IsWait host 5 4

wait_until_reachable-returns_example : (wait_until_reachable host 5 6).0 ≢ none
wait_until_reachable-returns_example = wait_until_reachable-returns host 5 (λ n. omega arith)
