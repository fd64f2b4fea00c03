-- ===== src/Lease.antt =====
-- backend/app/jobs/lease.py: the refcounted power lease. `PowerLease._state` is the world's
-- `machines`; the two sections of `acquire` and the one of `release` that hold `_lock` are `join`,
-- `hold` and `drop`, each atomic. Times are in milliseconds. Log lines are not modelled.
pub mod Table
pub mod Wake
pub mod Acquire
pub mod Release
pub mod Races
pub mod Frame
use joulenap.Prelude.{
  ℕ, zero, suc, ◌+◌, ◌-◌, ◌*◌, Bool, true, false, not, ◌&&◌, Option, none, some, List, Text, Dict,
  codes, strip, lower, is_empty, any, text_eq, lookup, insert, remove, ltb, ◌==◌, if◌then◌else◌,
}
use joulenap.Config.{PbsDevice}
use joulenap.Effects.{
  pbs_unreachable_error, Result, ok, err, LeaseState, Event, World, Env, Action, pure, raise, call,
  gets, attempt, ◌>>=◌, ◌>>◌, ask_cancelled, ask_clock,
}

pub data ReleaseOutcome : Type 0 where
  powered_off still_needed unmanaged busy poweroff_failed left_on : ReleaseOutcome

unfoldable pub costs_power : ReleaseOutcome → Bool
costs_power busy = true
costs_power poweroff_failed = true
costs_power left_on = true
costs_power _ = false

-- The machine's name: the host as the user typed it, folded, or the id of a device with no host.
unfoldable pub lease_key : PbsDevice → Text
lease_key d = let host = lower (strip d.host) in if is_empty host then d.id else host

-- `acquire` under the lock, the first time: join the holders, if there are any.
unfoldable pub join : Text → Dict LeaseState → Option (Bool × Dict LeaseState)
join key machines = elim (lookup key machines) [
  | none ↦ none
  | some held ↦
      if held.holders == 0
      then none
      else some (
        held.was_awake,
        insert key (record { holders = held.holders + 1; was_awake = held.was_awake }) machines,
      )
]

-- `acquire` under the lock, the second time: `setdefault` and the increment.
unfoldable pub hold : Text → Bool → Dict LeaseState → Dict LeaseState
hold key awake machines = elim (lookup key machines) [
  | none ↦ insert key (record { holders = 1; was_awake = awake }) machines
  | some held ↦
      insert key (record { holders = held.holders + 1; was_awake = held.was_awake }) machines
]

-- `release` under the lock: how many holders remain; `none` for a machine that nobody holds.
unfoldable pub drop : Text → Dict LeaseState → Option (ℕ × Dict LeaseState)
drop key machines = elim (lookup key machines) [
  | none ↦ none
  | some held ↦
      let remaining = held.holders - 1 in
      if held.holders == 0
      then none
      else some (
        remaining,
        if remaining == 0
            then remove key machines
            else insert key (record { holders = remaining; was_awake = held.was_awake }) machines,
      )
]

-- The snapshot that `PowerLease.state` returns.
unfoldable pub state : PbsDevice → Dict LeaseState → LeaseState
state d machines = elim (lookup (lease_key d) machines) [
  | none ↦ record { holders = 0; was_awake = false }
  | some held ↦ record { holders = held.holders; was_awake = held.was_awake }
]

unfoldable pub joining : Text → Action (Option Bool)
joining key w = elim (join key w.machines) [
  | none ↦ (ok none, w)
  | some (awake, machines) ↦ (ok (some awake), record w { machines = machines })
]

unfoldable pub holding : Text → Bool → Action (Unit {0})
holding key awake w = (ok tt, record w { machines = hold key awake w.machines })

unfoldable pub dropping : Text → Action (Option ℕ)
dropping key w = elim (drop key w.machines) [
  | none ↦ (ok none, w)
  | some (remaining, machines) ↦ (ok (some remaining), record w { machines = machines })
]

module _ (env : Env) where
  unfoldable pub probe : PbsDevice → ℕ → Bool → Action Bool
  probe d timeout cancellable =
      call (Event.probed d.id timeout) (env.wait_reachable d timeout cancellable)

  -- The ⏻ button: wake, and return.
  unfoldable pub wake : PbsDevice → Action (Unit {0})
  wake d = call (Event.wol_sent d.id) (env.send_wol d)

  unfoldable pub power_off_now : PbsDevice → Action (Unit {0})
  power_off_now d = call (Event.power_commanded d.id) (env.power_off d)

  -- A run stopped in mid-wake waits out what is left of the attempt, with no cancel probe.
  unfoldable pub see_through : PbsDevice → ℕ → Action Bool
  see_through d started = do
    now ← ask_clock env
    let grace = 1000 * d.wait_timeout - (now - started)
    up ← if ltb 0 grace then probe d grace false else pure false
    if up then pure false else raise (pbs_unreachable_error (codes "cancelled_waiting"))

  -- The loop over the wake attempts, by how many are left.
  unfoldable pub wake_attempts : PbsDevice → ℕ → Action Bool
  wake_attempts d zero = raise (pbs_unreachable_error (codes "pbs_unreachable"))
  wake_attempts d (suc left) = do
    started ← ask_clock env
    wake d
    up ← probe d (1000 * d.wait_timeout) true
    stopped ← if up then pure false else ask_cancelled env
    if up
        then pure false
        else elim stopped [ true ↦ see_through d started | false ↦ wake_attempts d left ]

  unfoldable pub bring_up : PbsDevice → Action Bool
  bring_up d = do
    up ← probe d 0 false
    if up
        then pure true
        else if not d.managed_power
        then raise (pbs_unreachable_error (codes "unmanaged"))
        else do
          stopped ← ask_cancelled env
          if stopped
              then raise (pbs_unreachable_error (codes "cancelled_waiting"))
              else wake_attempts d (d.wol_retries + 1)

  abbrev take_hold : PbsDevice → Option Bool → Action Bool
  take_hold d (some awake) = pure awake
  take_hold d none = do awake ← bring_up d; holding (lease_key d) awake; pure awake

  unfoldable pub acquire : PbsDevice → Action Bool
  acquire d = do joined ← joining (lease_key d); take_hold d joined

  unfoldable pub power_off : PbsDevice → Action ReleaseOutcome
  power_off d = do
    idle ←
        if ltb 0 d.poweroff_task_wait
        then attempt (call (Event.idle_awaited d.id) (env.wait_idle d)) (λ _. pure true)
        else pure true
    if not idle
        then pure busy
        else attempt (do power_off_now d; pure powered_off) (λ _. pure poweroff_failed)

  -- What is left to decide once the lock is dropped.
  unfoldable pub settle : PbsDevice → Bool → Option ℕ → Action ReleaseOutcome
  settle d wanted none = pure left_on
  settle d wanted (some remaining) =
      if not (remaining == 0)
      then pure still_needed
      else if not d.managed_power
      then pure unmanaged
      else do
        pending ← call Event.pending_read (λ t. ok (env.pending t))
        if any (λ k. text_eq k (lease_key d)) pending
            then pure still_needed
            else if not wanted
            then pure left_on
            else power_off d

  unfoldable pub release : PbsDevice → Bool → Action ReleaseOutcome
  release d wanted = do dropped ← dropping (lease_key d); settle d wanted dropped
