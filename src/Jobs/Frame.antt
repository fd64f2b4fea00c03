-- ===== src/Jobs/Frame.antt =====
-- What the cycles of backend/app/jobs/backup_cycle.py and route_cycle.py do not touch.
pub mod Steps
pub mod Backup
pub mod Sync
pub mod Routes
use joulenap.Prelude.{
  ℕ, zero, suc, ◌≡◌, refl, Bool, true, false, not, ◌&&◌, ◌||◌, Option, none, some, List, [], ◌∷◌,
  Text, codes, Dict, if◌then◌else◌,
}
use joulenap.Config.{PbsDevice}
use joulenap.Effects.{
  Failure, RunStatus, StepName, Result, ok, err, LogLevel, Event, Trace, World, Env, Action, pure,
  raise, call, gets, modify, attempt, ensure, ◌>>=◌, ask_cancelled, ask_clock, task_cancelled,
}
use joulenap.Effects.Keeps.{
  IsPreorder, Keeps, Keeps-bind, Keeps-attempt, Keeps-call, Keeps-pure, Keeps-raise, Keeps-modify,
  Keeps-gets, Keeps-if, Keeps-ensure,
}
use joulenap.Remote.{Call, Cycle}
use joulenap.Recorder.{log, commit, set_detail, in_step, skip_step, finish}
use joulenap.Recorder.Frame.{
  IsFrame, Keeps-set_detail, Keeps-log, Keeps-commit, Keeps-in_step, Keeps-finish, Keeps-add_step,
}
use joulenap.Execute.Frame.{IsRunFrame, Keeps-ask_cancelled}
use joulenap.Jobs.Backup.{on_cycle}
use joulenap.Jobs.Clients.{Heard, batch, lost, Clients, ask}
use joulenap.Jobs.Tasks.{
  LogWatch, no_watch, on_log, hear, stop_if_cancelled, end_wait, wait_or_stop, settled,
}

-- A relation that looks neither at the run's row, nor at what a job keeps, nor at calls other than
-- power commands.
pub record IsJobFrame (R : World → World → Type 0) : Type 0 where
  pub run : IsRunFrame R
  pub on_cycle : (w : World) (c : Cycle) → R w (record w { cycle = c })

module _ {R : World → World → Type 0} (job : IsJobFrame R) where
  pub order : IsPreorder R
  order = job.run.frame.order

  pub Keeps-ask {ℓ} : {A : Type ℓ} (c : Call) (answer : Trace → Result A) → Keeps R (ask c answer)
  unfolding ask
  Keeps-ask c answer = Keeps-call _ _ (job.run.on_event (Event.remote c) refl)

  pub Keeps-on_cycle : (f : Cycle → Cycle) → Keeps R (on_cycle f)
  unfolding on_cycle
  Keeps-on_cycle f = Keeps-modify _ (λ w. job.on_cycle w (f w.cycle))

  pub Keeps-detail : (key : Text) → Keeps R (set_detail key)
  unfolding set_detail
  Keeps-detail key = record { at = λ w. job.run.frame.on_row w _ w.saved w.finished }

module _ (env : Env) {R : World → World → Type 0} (job : IsJobFrame R) where
  pub Keeps-logged : (level : LogLevel) → Keeps R (log env level)
  Keeps-logged level = Keeps-log env job.run.frame level

  Keeps-committed : Keeps R (commit env)
  Keeps-committed = Keeps-commit env job.run.frame

  pub Keeps-stepped {ℓ} :
      {A : Type ℓ} (name : StepName) (label : Option Text) (body : Action A)
      → Keeps R body
      → Keeps R (in_step env name label body)
  Keeps-stepped name label body k = Keeps-in_step env job.run.frame name label body k

  pub Keeps-skipped : (name : StepName) (detail : Text) → Keeps R (skip_step env name detail)
  unfolding skip_step
  Keeps-skipped name detail =
      Keeps-bind (order job) _ _ (Keeps-add_step env job.run.frame _)
        (λ _. Keeps-bind (order job) _ _ (Keeps-logged _) (λ _. Keeps-committed))

  pub Keeps-finished : (status : RunStatus) (e : Option Failure) → Keeps R (finish env status e)
  Keeps-finished status e = Keeps-finish env job.run.frame status e

  Keeps-on_log :
      (watch : LogWatch)
      → ((lines : List (ℕ × Text)) → Keeps R (watch lines))
      → (lines : List (ℕ × Text)) → Keeps R (on_log env watch lines)
  unfolding on_log
  Keeps-on_log watch k lines =
      search (Keeps-bind, Keeps-attempt, (order job), Keeps-committed, Keeps-logged, k)

  Keeps-hear :
      (watch : LogWatch)
      → ((lines : List (ℕ × Text)) → Keeps R (watch lines))
      → (heard : List Heard) → Keeps R (hear env watch heard)
  unfolding hear
  Keeps-hear watch k [] = Keeps-pure (order job) tt
  Keeps-hear watch k (batch lines ∷ later) =
      Keeps-bind (order job) _ _ (Keeps-on_log watch k lines) (λ _. Keeps-hear watch k later)
  Keeps-hear watch k (lost ∷ later) =
      Keeps-bind (order job) _ _ (Keeps-logged _) (λ _. Keeps-hear watch k later)

  Keeps-settled : (r : Result (Unit {0})) → Keeps R (settled r)
  Keeps-settled (ok a) = Keeps-pure (order job) tt
  Keeps-settled (err e) = Keeps-raise (order job) e

  pub Keeps-stop_if_cancelled : Keeps R (stop_if_cancelled env)
  unfolding stop_if_cancelled
  Keeps-stop_if_cancelled =
      Keeps-bind (order job) _ _ (Keeps-ask_cancelled env job.run)
        (λ c. Keeps-if c _ _ (Keeps-raise (order job) _) (Keeps-pure (order job) tt))

  pub Keeps-ask_clock : Keeps R (ask_clock env)
  unfolding ask_clock
  Keeps-ask_clock = Keeps-call _ _ (job.run.on_event Event.clock_read refl)

  module _ (far : Clients) where
    Keeps-end_wait : (upid : Text) (e : Failure) → Keeps R (end_wait env far upid e)
    unfolding end_wait
    Keeps-end_wait upid task_cancelled =
        search (Keeps-bind, Keeps-attempt, Keeps-raise, (order job), Keeps-logged, Keeps-ask)
    Keeps-end_wait upid _ = Keeps-raise (order job) _

    pub Keeps-wait_or_stop :
        (upid : Text) (watch : LogWatch)
        → ((lines : List (ℕ × Text)) → Keeps R (watch lines))
        → Keeps R (wait_or_stop env far upid watch)
    unfolding wait_or_stop
    Keeps-wait_or_stop upid watch k = search (
      Keeps-bind,
      Keeps-attempt,
      (order job),
      Keeps-ask,
      Keeps-hear watch k,
      Keeps-settled,
      Keeps-end_wait upid,
    )

pub ruleset job_rules = (
  Keeps-bind, Keeps-attempt, Keeps-ensure, Keeps-pure, Keeps-raise, Keeps-gets, order, Keeps-ask,
  Keeps-on_cycle, Keeps-detail, Keeps-logged, Keeps-stop_if_cancelled, Keeps-ask_clock,
  Keeps-wait_or_stop, Keeps-stepped, Keeps-skipped, Keeps-finished,
)
