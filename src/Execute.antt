-- ===== src/Execute.antt =====
-- `JobService._execute` of backend/app/jobs/service.py and what it calls: take the leases of a
-- run, do its job, release them, notify. The job is a parameter: an action that says whether there
-- is something to notify, as `CycleJob` returns a context or `None`. The cancel event, which
-- `_start` has just cleared, is read through `Env.cancelled`, and the single-run lock is Service's.
pub mod Frame
pub mod Leases
pub mod Balance
pub mod Complete
pub mod Power
use joulenap.Prelude.{
  ℕ, suc, Bool, true, false, not, ◌&&◌, ◌||◌, Option, none, some, List, [], ◌∷◌, ◌++◌, Text, codes,
  is_empty, if◌then◌else◌,
}
use joulenap.Config.{PbsDevice, PowerAction, power_down, suspend, Config}
use joulenap.Effects.{
  Failure, localized_error, ok, RunStatus, running, success, failure, aborted, step_skipped,
  StepName, wait, poweroff, LogLevel, info, warn, Event, World, Env, Action, pure, raise, call,
  gets, modify, attempt, ensure, ◌>>=◌, ◌>>◌, ask_cancelled,
}
use joulenap.Lease.{
  ReleaseOutcome, powered_off, still_needed, unmanaged, busy, poweroff_failed, left_on, costs_power,
  acquire, release,
}
use joulenap.Service.{QueuedRun, Subject, resolve, power_off_policy, left_on_reason}
use joulenap.Recorder.{set_detail, set_status, log, in_step, finish, recorded, open_run}

abbrev pub is_multi : List PbsDevice → Bool
is_multi [] = false
is_multi (d ∷ rest) = not (is_empty rest)

-- `ReleaseOutcome.key`
pub outcome_key : ReleaseOutcome → Text
outcome_key powered_off = codes "powered_off"
outcome_key still_needed = codes "still_needed"
outcome_key unmanaged = codes "unmanaged"
outcome_key busy = codes "busy"
outcome_key poweroff_failed = codes "poweroff_failed"
outcome_key left_on = codes "left_on"

abbrev pub is_left_on : ReleaseOutcome → Bool
is_left_on left_on = true
is_left_on _ = false

abbrev pub is_success : RunStatus → Bool
is_success success = true
is_success _ = false

abbrev pub off_word : PowerAction → Text
off_word power_down = codes "powered_off"
off_word suspend = codes "suspended"

abbrev pub step_label : Bool → PbsDevice → Option Text
step_label multi d = if multi then some d.id else none

unfoldable pub forget_held : Action (Unit {0})
unfolding modify
forget_held = modify λ w. record w { held = [] }

unfoldable pub add_held : PbsDevice → Action (Unit {0})
unfolding modify
add_held d = modify λ w. record w { held = w.held ++ d ∷ [] }

module _ (env : Env) where
  -- `_acquire_step`
  unfoldable pub acquire_step : Bool → PbsDevice → Action (Unit {0})
  acquire_step multi d = in_step env wait (step_label multi d) (do
    was_awake ← acquire env d
    set_detail (if was_awake then codes "already_awake" else codes "woken"))

  unfoldable pub acquire_all : Bool → List PbsDevice → Action (Unit {0})
  acquire_all multi [] = pure tt
  acquire_all multi (d ∷ rest) = do acquire_step multi d; add_held d; acquire_all multi rest

  unfoldable pub ask_cancel_power_off : Action Bool
  unfolding call
  ask_cancel_power_off = call Event.cancel_power_off_read (λ t. ok (env.cancel_power_off t))

  -- `_power_off_policy`, which reads the cancel event only where it has to.
  unfoldable pub ask_policy : QueuedRun → Bool → Action Bool
  ask_policy item succeeded = if not item.power_off then pure false else do
    cancelled ← ask_cancelled env
    cancel_off ← if cancelled then ask_cancel_power_off else pure false
    pure (power_off_policy item cancelled cancel_off succeeded)

  -- The detail of a box that was not powered off.
  unfoldable pub left_detail : QueuedRun → Bool → ReleaseOutcome → Action Text
  left_detail item wanted outcome =
      if not (is_left_on outcome && not wanted)
      then pure (outcome_key outcome)
      else if not item.power_off
      then pure (left_on_reason item false)
      else do cancelled ← ask_cancelled env; pure (left_on_reason item cancelled)

  unfoldable pub record_left : QueuedRun → Bool → ReleaseOutcome → Action (Unit {0})
  unfolding left_detail
  record_left item wanted outcome = do
    detail ← left_detail item wanted outcome
    set_detail detail
    set_status step_skipped
    log env (if costs_power outcome then warn else info)

  unfoldable pub record_outcome : QueuedRun → Bool → PbsDevice → ReleaseOutcome → Action (Unit {0})
  unfolding record_left
  record_outcome item wanted d powered_off = set_detail (off_word d.power_action)
  record_outcome item wanted d outcome = record_left item wanted outcome

  -- One box of `_release_all`: whether it is left on at the user's cost.
  unfoldable pub release_step : QueuedRun → Bool → Bool → PbsDevice → Action Bool
  unfolding record_outcome
  release_step item wanted multi d = in_step env poweroff (step_label multi d) (do
    outcome ← release env d wanted
    record_outcome item wanted d outcome
    pure (costs_power outcome))

  unfoldable pub release_each : QueuedRun → Bool → Bool → List PbsDevice → Action (List Text)
  release_each item wanted multi [] = pure []
  release_each item wanted multi (d ∷ rest) = do
    costs ← release_step item wanted multi d
    left ← release_each item wanted multi rest
    pure (if costs then d.id ∷ left else left)

  -- `_release_all` with the recorder.
  unfoldable pub release_recorded : QueuedRun → Bool → Action (List Text)
  release_recorded item multi = do
    succeeded ← gets (λ w. is_success w.run.status)
    wanted ← ask_policy item succeeded
    held ← gets (λ w. w.held)
    release_each item wanted multi held

  unfoldable pub release_bare : Bool → List PbsDevice → Action (Unit {0})
  release_bare wanted [] = pure tt
  release_bare wanted (d ∷ rest) = do outcome ← release env d wanted; release_bare wanted rest

  -- `_release_all` with `recorder=None`.
  unfoldable pub release_crashed : QueuedRun → Action (Unit {0})
  release_crashed item = do
    wanted ← ask_policy item false
    held ← gets (λ w. w.held)
    release_bare wanted held

  -- `_notify`
  unfoldable pub notify : List Text → Action (Unit {0})
  notify left = attempt (call (Event.notified left) (env.notify left)) (λ e. log env warn)

  unfoldable pub notify_if : Bool → List Text → Action (Unit {0})
  notify_if true left = notify left
  notify_if false left = pure tt

  -- The end that a run shares with one that could not wake its boxes.
  unfoldable pub settle_up : QueuedRun → Bool → Bool → Action (Unit {0})
  unfolding notify_if
  settle_up item multi speaks = do
    left ← release_recorded item multi
    forget_held
    notify_if speaks left

  unfoldable pub wake_failed : QueuedRun → Bool → Failure → Action (Unit {0})
  wake_failed item multi e = do
    cancelled ← ask_cancelled env
    if cancelled
        then finish env aborted (some (localized_error (codes "cancelled")))
        else finish env failure (some e)
    settle_up item multi (not cancelled)

  unfoldable pub do_job : QueuedRun → Bool → Action Bool → Action (Unit {0})
  do_job item multi job = do
    cancelled ← ask_cancelled env
    speaks ←
        if cancelled
        then (do finish env aborted (some (localized_error (codes "cancelled"))); pure false)
        else job
    settle_up item multi speaks

  -- Whether the boxes came up, or why not.
  unfoldable pub woke : Bool → List PbsDevice → Action (Option Failure)
  woke multi devices = attempt (do acquire_all multi devices; pure none) (λ e. pure (some e))

  unfoldable pub run_or_settle : QueuedRun → Bool → Action Bool → Option Failure → Action (Unit {0})
  run_or_settle item multi job none = do_job item multi job
  run_or_settle item multi job (some e) = wake_failed item multi e

  -- The block under `with recorder`.
  unfoldable pub run_block : QueuedRun → List PbsDevice → Action Bool → Action (Unit {0})
  unfolding run_or_settle
  run_block item devices job = do
    let multi = is_multi devices
    failed ← woke multi devices
    run_or_settle item multi job failed

  -- From the recorder on.
  unfoldable pub run_held : QueuedRun → List PbsDevice → Action Bool → Action (Unit {0})
  run_held item devices job =
      ensure (recorded env (run_block item devices job)) (release_crashed item)

  -- A run that could not write its row is announced all the same.
  unfoldable pub could_not_start : Action (Unit {0})
  could_not_start = attempt (call (Event.notified []) (env.notify [])) (λ e. pure tt)

  unfoldable pub begin_held : QueuedRun → List PbsDevice → Action Bool → Bool → Action (Unit {0})
  begin_held item devices job true = do forget_held; run_held item devices job
  begin_held item devices job false = could_not_start

  unfoldable pub execute_resolved :
      QueuedRun → (Subject → Action Bool) → Option (Subject × List PbsDevice) → Action (Unit {0})
  unfolding begin_held
  execute_resolved item job none = pure tt
  execute_resolved item job (some (subject, devices)) = do
    started ← attempt (do open_run env; pure true) (λ e. pure false)
    begin_held item devices (job subject) started

  unfoldable pub execute : Config → QueuedRun → (Subject → Action Bool) → Action (Unit {0})
  unfolding execute_resolved
  execute config item job = execute_resolved item job (resolve config item)
