-- ===== src/Recorder.antt =====
-- backend/app/jobs/recorder.py: `RunRecorder`. A step's body writes to the newest row of the run.
-- Texts, times and task-log rows are not modelled; a commit may fail, and then the session is
-- rolled back to what was saved.
pub mod Frame
pub mod Steps
pub mod Closed
use joulenap.Prelude.{
  Bool, true, false, Option, none, some, List, [], ◌∷◌, Text, codes, if◌then◌else◌,
}
use joulenap.Effects.{
  Failure, localized_error, RunStatus, running, failure, StepStatus, step_running, step_success,
  step_failure, step_skipped, StepName, LogLevel, info, log_ok, error, RunStep, Run, Event, Env,
  Action, pure, raise, call, gets, modify, attempt, ◌>>=◌, ◌>>◌,
}

abbrev pub new_run : Run
new_run = record { status = running; error = none; guests_ok = none; steps = [] }

-- The newest step's row.
abbrev pub on_newest : (RunStep → RunStep) → List RunStep → List RunStep
on_newest f [] = []
on_newest f (step ∷ steps) = f step ∷ steps

unfoldable pub update_step : (RunStep → RunStep) → Action (Unit {0})
unfolding modify
update_step f = modify λ w. record w { run = record w.run { steps = on_newest f w.run.steps } }

unfoldable pub add_step : RunStep → Action (Unit {0})
unfolding modify
add_step step = modify λ w. record w { run = record w.run { steps = step ∷ w.run.steps } }

-- `set_detail`
unfoldable pub set_detail : Text → Action (Unit {0})
unfolding update_step
set_detail key = update_step λ s. record s { detail = some key }

unfoldable pub set_status : StepStatus → Action (Unit {0})
unfolding update_step
set_status status = update_step λ s. record s { status = status }

unfoldable pub save : Action (Unit {0})
unfolding modify
save = modify λ w. record w { saved = w.run }

unfoldable pub roll_back : Action (Unit {0})
unfolding modify
roll_back = modify λ w. record w { run = w.saved }

abbrev newest_status : List RunStep → StepStatus
newest_status [] = step_failure
newest_status (step ∷ steps) = step.status

abbrev is_running_step : StepStatus → Bool
is_running_step step_running = true
is_running_step _ = false

module _ (env : Env) where
  unfoldable pub commit : Action (Unit {0})
  unfolding save roll_back
  commit = do attempt (call Event.committed env.commit) (λ e. do roll_back; raise e); save

  unfoldable pub log : LogLevel → Action (Unit {0})
  log level = do modify λ w. record w { trace = Event.logged level ∷ w.trace }; commit

  unfoldable pub step_failed : Failure → Action (Unit {0})
  step_failed e = do
    update_step λ s. record s { status = step_failure; detail = none }
    log error
    commit

  unfoldable pub step_done : Action (Unit {0})
  step_done = do
    open_still ← gets (λ w. is_running_step (newest_status w.run.steps))
    if open_still then (do set_status step_success; log log_ok) else pure tt
    commit

  -- `with recorder.step(name, label) as step: body`, up to the body and from there.
  unfoldable pub begin_step : StepName → Option Text → Action (Unit {0})
  begin_step name label = do
    add_step (record { name = name; label = label; status = step_running; detail = none })
    commit
    log info

  unfoldable pub end_step {ℓ} : {A : Type ℓ} → Action A → Action A
  end_step body = do a ← attempt body (λ e. do step_failed e; raise e); step_done; pure a

  unfoldable pub in_step {ℓ} : {A : Type ℓ} → StepName → Option Text → Action A → Action A
  in_step name label body = do begin_step name label; end_step body

  unfoldable pub skip_step : StepName → Text → Action (Unit {0})
  skip_step name detail = do
    add_step (record { name = name; label = none; status = step_skipped; detail = some detail })
    log info
    commit

  unfoldable pub set_error : Option Failure → Run → Run
  set_error none run = run
  set_error (some e) run = record run { error = some e }

  unfoldable pub finish : RunStatus → Option Failure → Action (Unit {0})
  unfolding set_error
  finish status e = do
    modify λ w. record w { run = set_error e (record w.run { status = status }) }
    commit
    modify λ w. record w { finished = true }

  -- `__exit__`, given the exception that ended the block, if one did.
  unfoldable pub leave : Failure → Action (Unit {0})
  leave e = do
    over ← gets (λ w. w.finished)
    if over
        then pure tt
        else attempt (finish failure (some e)) (λ x. do roll_back; finish failure (some e))

  -- `with recorder: body`
  unfoldable pub recorded {ℓ} : {A : Type ℓ} → Action A → Action A
  unfolding leave
  recorded body = do
    a ← attempt body (λ e. do leave e; raise e)
    leave (localized_error (codes "unknown"))
    pure a

  -- `__init__`
  unfoldable pub open_run : Action (Unit {0})
  open_run = do
    call Event.committed env.commit
    modify λ w. record w { run = new_run; saved = new_run; finished = false }
