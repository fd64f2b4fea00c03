-- ===== src/Recorder/Frame.antt =====
-- What the recorder of backend/app/jobs/recorder.py does not touch.
use joulenap.Prelude.{Bool, true, Option, ◌∷◌, Text}
use joulenap.Effects.{
  Failure, RunStatus, StepName, StepStatus, LogLevel, RunStep, Run, Event, World, Env, Action,
}
use joulenap.Effects.Keeps.{
  IsPreorder, Keeps, Keeps-bind, Keeps-attempt, Keeps-call, Keeps-pure, Keeps-raise, Keeps-modify,
  Keeps-gets, Keeps-if,
}
use joulenap.Recorder.{
  update_step, add_step, set_detail, set_status, save, roll_back, commit, log, step_failed,
  step_done, begin_step, end_step, in_step, finish, leave, recorded,
}

-- A relation that does not look at the run's row, nor at commits and log lines.
pub record IsFrame (R : World → World → Type 0) : Type 0 where
  pub order : IsPreorder R
  pub on_row :
      (w : World) (run saved : Run) (finished : Bool)
      → R w (record w { run = run; saved = saved; finished = finished })
  pub on_commit : (w : World) → R w (record w { trace = Event.committed ∷ w.trace })
  pub on_log :
      (level : LogLevel) (w : World) → R w (record w { trace = Event.logged level ∷ w.trace })

module _ (env : Env) {R : World → World → Type 0} (frame : IsFrame R) where
  Keeps-update_step : (f : RunStep → RunStep) → Keeps R (update_step f)
  unfolding update_step
  Keeps-update_step f = record { at = λ w. frame.on_row w _ w.saved w.finished }

  pub Keeps-add_step : (step : RunStep) → Keeps R (add_step step)
  unfolding add_step
  Keeps-add_step step = record { at = λ w. frame.on_row w _ w.saved w.finished }

  pub Keeps-set_detail : (key : Text) → Keeps R (set_detail key)
  unfolding set_detail
  Keeps-set_detail key = record { at = λ w. frame.on_row w _ w.saved w.finished }

  pub Keeps-set_status : (status : StepStatus) → Keeps R (set_status status)
  unfolding set_status
  Keeps-set_status status = record { at = λ w. frame.on_row w _ w.saved w.finished }

  Keeps-save : Keeps R save
  unfolding save
  Keeps-save = record { at = λ w. frame.on_row w w.run w.run w.finished }

  Keeps-roll_back : Keeps R roll_back
  unfolding roll_back
  Keeps-roll_back = record { at = λ w. frame.on_row w w.saved w.saved w.finished }

  pub Keeps-commit : Keeps R (commit env)
  unfolding commit
  Keeps-commit =
      Keeps-bind frame.order _ _
        (Keeps-attempt frame.order _ _ (Keeps-call _ _ frame.on_commit)
          (λ e. Keeps-bind frame.order _ _ Keeps-roll_back (λ _. Keeps-raise frame.order e)))
        (λ _. Keeps-save)

  pub Keeps-log : (level : LogLevel) → Keeps R (log env level)
  unfolding log
  Keeps-log level =
      Keeps-bind frame.order _ _ (Keeps-modify _ (frame.on_log level)) (λ _. Keeps-commit)

  pub Keeps-step_failed : (e : Failure) → Keeps R (step_failed env e)
  unfolding step_failed
  Keeps-step_failed e =
      Keeps-bind frame.order _ _ (Keeps-update_step _)
        (λ _. Keeps-bind frame.order _ _ (Keeps-log LogLevel.error) (λ _. Keeps-commit))

  pub Keeps-step_done : Keeps R (step_done env)
  unfolding step_done
  Keeps-step_done = Keeps-bind frame.order _ _ (Keeps-gets frame.order _) (λ b.
      Keeps-bind frame.order _ _
        (Keeps-if b _ _
          (Keeps-bind frame.order _ _ (Keeps-set_status _) (λ _. Keeps-log LogLevel.log_ok))
          (Keeps-pure frame.order tt))
        (λ _. Keeps-commit))

  pub Keeps-begin_step :
      (name : StepName) (label : Option Text) → Keeps R (begin_step env name label)
  unfolding begin_step
  Keeps-begin_step name label =
      Keeps-bind frame.order _ _ (Keeps-add_step _)
        (λ _. Keeps-bind frame.order _ _ Keeps-commit (λ _. Keeps-log LogLevel.info))

  pub Keeps-in_step {ℓ} :
      {A : Type ℓ} (name : StepName) (label : Option Text) (body : Action A)
      → Keeps R body
      → Keeps R (in_step env name label body)
  unfolding in_step end_step
  Keeps-in_step name label body k = Keeps-bind frame.order _ _ (Keeps-begin_step name label) (λ _.
      Keeps-bind frame.order _ _
        (Keeps-attempt frame.order _ _ k
          (λ e. Keeps-bind frame.order _ _ (Keeps-step_failed e) (λ _. Keeps-raise frame.order e)))
        (λ a. Keeps-bind frame.order _ _ Keeps-step_done (λ _. Keeps-pure frame.order a)))

  pub Keeps-finish : (status : RunStatus) (e : Option Failure) → Keeps R (finish env status e)
  unfolding finish
  Keeps-finish status e =
      Keeps-bind frame.order _ _ (Keeps-modify _ (λ w. frame.on_row w _ w.saved w.finished)) (λ _.
        Keeps-bind frame.order _ _ Keeps-commit
          (λ _. Keeps-modify _ (λ w. frame.on_row w w.run w.saved true)))

  pub Keeps-leave : (e : Failure) → Keeps R (leave env e)
  unfolding leave
  Keeps-leave e = Keeps-bind frame.order _ _ (Keeps-gets frame.order _) (λ over.
      Keeps-if over _ _ (Keeps-pure frame.order tt) (
        Keeps-attempt frame.order _ _ (Keeps-finish _ _)
          (λ x. Keeps-bind frame.order _ _ Keeps-roll_back (λ _. Keeps-finish _ _))))

  pub Keeps-recorded {ℓ} :
      {A : Type ℓ} (body : Action A) → Keeps R body → Keeps R (recorded env body)
  unfolding recorded
  Keeps-recorded body k =
      Keeps-bind frame.order _ _
        (Keeps-attempt frame.order _ _ k
          (λ e. Keeps-bind frame.order _ _ (Keeps-leave e) (λ _. Keeps-raise frame.order e)))
        (λ a. Keeps-bind frame.order _ _ (Keeps-leave _) (λ _. Keeps-pure frame.order a))
