-- ===== src/Jobs/Tasks.antt =====
-- backend/app/jobs/backup_cycle.py: waiting for a remote task while its log is stored, stopping it
-- when the run is cancelled, and watching the tasks that others started.
use joulenap.Prelude.{
  ℕ, zero, suc, ◌+◌, ◌-◌, ◌*◌, Bool, not, Option, none, some, List, [], ◌∷◌, Text, codes, text_eq,
  any, is_empty, leb, length, if◌then◌else◌,
}
use joulenap.Config.{PbsDevice}
use joulenap.Effects.{
  Failure, cycle_cancelled, task_cancelled, other_exception, Result, ok, err, warn, error, Env,
  Action, pure, raise, attempt, ◌>>=◌, ◌>>◌, ask_cancelled, ask_clock,
}
use joulenap.Remote.{task_awaited, task_stopped, tasks_read, slept}
use joulenap.Recorder.{commit, log}
use joulenap.Jobs.Clients.{Heard, batch, lost, Clients, ask}

abbrev pub LogWatch : Type 0
LogWatch = List (ℕ × Text) → Action (Unit {0})

abbrev pub no_watch : LogWatch
no_watch lines = pure tt

abbrev pub settled : Result (Unit {0}) → Action (Unit {0})
settled (ok a) = pure tt
settled (err e) = raise e

module _ (env : Env) where
  -- `_tailer`; the rows that `task_log` adds are not modelled, its commit is.
  unfoldable pub on_log : LogWatch → LogWatch
  on_log watch lines = do attempt (commit env) (λ e. log env warn); watch lines

  -- The callbacks of a wait, in the order in which it makes them.
  unfoldable pub hear : LogWatch → List Heard → Action (Unit {0})
  unfolding on_log
  hear watch [] = pure tt
  hear watch (batch lines ∷ later) = do on_log watch lines; hear watch later
  hear watch (lost ∷ later) = do log env warn; hear watch later

  -- `if deps.cancelled(): raise CycleCancelled(...)`
  unfoldable pub stop_if_cancelled : Action (Unit {0})
  stop_if_cancelled = do
    cancelled ← ask_cancelled env
    if cancelled then raise cycle_cancelled else pure tt

module _ (env : Env) (far : Clients) where
  -- The end of a wait that did not return.
  unfoldable pub end_wait : Text → Failure → Action (Unit {0})
  end_wait upid task_cancelled = do
    attempt (do ask (task_stopped upid) (far.stop_task upid); log env warn) (λ e. log env error)
    raise cycle_cancelled
  end_wait upid e = raise e

  -- `_wait_or_stop`
  unfoldable pub wait_or_stop : Text → LogWatch → Action (Unit {0})
  unfolding end_wait
  wait_or_stop upid watch =
      attempt
        (do
          waited ← ask (task_awaited upid) (λ t. ok (far.wait_task upid t))
          hear env watch waited.heard
          settled waited.ended)
        (end_wait upid)

  unfoldable pub sleep : ℕ → Action (Unit {0})
  sleep time = ask (slept time) (λ t. ok tt)

  unfoldable pub add_seen : List (Option Text) → List Text → List Text
  add_seen [] seen = seen
  add_seen (none ∷ tasks) seen = add_seen tasks seen
  add_seen (some upid ∷ tasks) seen =
      add_seen tasks
        (if is_empty upid then seen else if any (text_eq upid) seen then seen else upid ∷ seen)

  -- Whether a task runs, and the tasks seen so far.
  unfoldable pub poll_tasks : PbsDevice → List Text → Action (Bool × List Text)
  poll_tasks pbs seen = do
    stop_if_cancelled env
    tasks ← ask (tasks_read pbs.id) (far.active_tasks pbs)
    pure (not (is_empty tasks), add_seen tasks seen)

  abbrev pub outlasted {ℓ} : {A : Type ℓ} → Action A
  outlasted = raise (other_exception (codes "outlasted"))

  -- Until a first task shows up: the tasks seen then, or none at the deadline.
  unfoldable pub await_first : PbsDevice → ℕ → ℕ → Action (Option (List Text))
  await_first pbs deadline zero = outlasted
  await_first pbs deadline (suc fuel) = do
    let later = do sleep 10000; await_first pbs deadline fuel
    polled ← poll_tasks pbs []
    if polled.0
        then pure (some polled.1)
        else (do now ← ask_clock env; if leb deadline now then pure none else later)

  abbrev pub quiet_from : ℕ → Option ℕ → ℕ
  quiet_from now none = now
  quiet_from now (some since) = since

  -- Until no task has run for `idle` milliseconds: the number of tasks seen.
  unfoldable pub await_idle : PbsDevice → ℕ → ℕ → Option ℕ → List Text → Action ℕ
  await_idle pbs idle zero quiet seen = outlasted
  await_idle pbs idle (suc fuel) quiet seen = do
    let later : Option ℕ → List Text → Action ℕ =
        λ q s. do sleep 10000; await_idle pbs idle fuel q s
    polled ← poll_tasks pbs seen
    if polled.0 then later none polled.1 else (do
      now ← ask_clock env
      if leb idle (now - quiet_from now quiet)
          then pure (length polled.1)
          else later (some (quiet_from now quiet)) polled.1)

  abbrev pub idle_after : PbsDevice → ℕ → Option (List Text) → Action (Option ℕ)
  idle_after pbs fuel none = pure none
  idle_after pbs fuel (some seen) = do
    n ← await_idle pbs (pbs.watch.idle_wait * 1000) fuel none seen
    pure (some n)

  -- `watch_external_tasks`
  unfoldable pub watch_external_tasks : PbsDevice → ℕ → Action (Option ℕ)
  unfolding await_first await_idle
  watch_external_tasks pbs fuel = do
    now ← ask_clock env
    first ← await_first pbs (now + pbs.watch.first_task_wait * 1000) fuel
    idle_after pbs fuel first
