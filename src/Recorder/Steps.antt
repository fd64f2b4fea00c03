-- ===== src/Recorder/Steps.antt =====
-- What the body of a step did, from what the step did (backend/app/jobs/recorder.py).
use joulenap.Prelude.{◌≡◌, refl, Option, Text, codes, ◌∷◌, arith, inl, inr}
use joulenap.Effects.{
  Failure, localized_error, ok, err, RunStatus, StepName, LogLevel, RunStep, Event, Trace, World,
  Env, Action, pure, raise, call, gets, modify, attempt, ◌>>=◌, Result-cases,
}
use joulenap.Effects.Binds.{
  >>=-inv_ok, >>=-inv_err, Returns, Returns-bind, Returns-pure, Returns-if, Returns-ne-err,
}
use joulenap.Effects.Keeps.{Keeps-moves, Keeps-bind, Keeps-pure}
use joulenap.Recorder.{
  update_step, add_step, set_status, save, roll_back, commit, log, step_failed, step_done, leave,
  recorded, begin_step, end_step, in_step, finish,
}
use joulenap.Recorder.Frame.{
  IsFrame, Keeps-step_failed, Keeps-step_done, Keeps-begin_step, Keeps-leave,
}

-- No commit fails.
abbrev pub CommitsWork : Env → Type 0
CommitsWork env = (t : Trace) → env.commit t ≡ ok tt

module _ (env : Env) (works : CommitsWork env) where
  unfoldable pub committing : World → World
  committing w = record w { trace = Event.committed ∷ w.trace; saved = w.run }

  pub commit_lem : (w : World) → commit env w ≡ (ok tt, committing w)
  unfolding commit attempt call roll_back save committing modify ◌>>=◌ raise
  commit_lem w = ground (arith, works w.trace)

  pub Returns-commit : Returns (commit env)
  Returns-commit = record { at = λ w. (tt, committing w, commit_lem w) }

  pub Returns-modify : (f : World → World) → Returns (modify f)
  unfolding modify
  Returns-modify f = record { at = λ w. (tt, f w, refl) }

  pub Returns-update_step : (f : RunStep → RunStep) → Returns (update_step f)
  unfolding update_step
  Returns-update_step f = Returns-modify _

  pub Returns-log : (level : LogLevel) → Returns (log env level)
  unfolding log
  Returns-log level = Returns-bind _ _ (Returns-modify _) (λ _. Returns-commit)

  pub Returns-step_failed : (e : Failure) → Returns (step_failed env e)
  unfolding step_failed
  Returns-step_failed e =
      Returns-bind _ _ (Returns-update_step _)
        (λ _. Returns-bind _ _ (Returns-log LogLevel.error) (λ _. Returns-commit))

  Returns-gets {ℓ} : {A : Type ℓ} (f : World → A) → Returns (gets f)
  unfolding gets
  Returns-gets f = record { at = λ w. (f w, w, refl) }

  pub Returns-step_done : Returns (step_done env)
  unfolding step_done set_status
  Returns-step_done = Returns-bind _ _ (Returns-gets _) (λ b.
      Returns-bind _ _
        (Returns-if b _ _
          (Returns-bind _ _ (Returns-update_step _) (λ _. Returns-log LogLevel.log_ok))
          (Returns-pure tt))
        (λ _. Returns-commit))

  pub Returns-begin_step :
      (name : StepName) (label : Option Text) → Returns (begin_step env name label)
  unfolding begin_step add_step
  Returns-begin_step name label =
      Returns-bind _ _ (Returns-modify _)
        (λ _. Returns-bind _ _ Returns-commit (λ _. Returns-log LogLevel.info))

  pub Returns-finish : (status : RunStatus) (e : Option Failure) → Returns (finish env status e)
  unfolding finish
  Returns-finish status e =
      Returns-bind _ _ (Returns-modify _)
        (λ _. Returns-bind _ _ Returns-commit (λ _. Returns-modify _))

module _ {ℓ} {A : Type ℓ} (env : Env) where
  end_step-ok :
      (body : Action A) (w : World) {a : A} {u : World}
      → body w ≡ (ok a, u)
      → end_step env body w ≡ (step_done env >>= λ _. pure a) u
  unfolding end_step attempt ◌>>=◌
  end_step-ok body w e = rw e

  end_step-err :
      (body : Action A) (w : World) {x : Failure} {u : World}
      → body w ≡ (err x, u)
      → (y : Failure) × (end_step env body w ≡ (err y, (step_failed env x u).1))
  unfolding end_step attempt raise ◌>>=◌
  end_step-err body w {x} {u} e = elim (Result-cases (step_failed env x u)) [
    | inl (c, u', d) ↦ (x, rw (e, d))
    | inr (y, u', d) ↦ (y, rw (e, d))
  ]

  done-inv_ok :
      (a : A) (u : World) {b : A} {v : World}
      → (step_done env >>= λ _. pure a) u ≡ (ok b, v)
      → (a ≡ b) × ((step_done env u).1 ≡ v)
  unfolding pure ◌>>=◌
  done-inv_ok a u h = elim (Result-cases (step_done env u)) [
    | inl (c, u', d) ↦ (cc (rw d at h), cc (rw d at h))
    | inr (y, u', d) ↦ absurd (cc (rw d at h))
  ]

  -- A step that returned ran its body, from a world that differs from `w` by the step's beginning;
  -- what came after it is the step's end.
  pub in_step-inv_ok :
      {R : World → World → Type 0} (frame : IsFrame R) (name : StepName) (label : Option Text)
      (body : Action A) (w : World) {a : A} {v : World}
      → in_step env name label body w ≡ (ok a, v)
      → (w' : World) × (v' : World) × R w w' × (body w' ≡ (ok a, v')) × R v' v
  unfolding in_step
  in_step-inv_ok {R} frame name label body w {a} {v} h =
      let (x, w', b, rest) = >>=-inv_ok (begin_step env name label) (λ _. end_step env body) w h in
      elim (Result-cases (body w')) [
        | inl (c, u, e) ↦
            let (same, last) = done-inv_ok c u (rw (end_step-ok body w' e) at rest) in
            (
              w',
              u,
              Keeps-moves (begin_step env name label) w (Keeps-begin_step env frame name label) b,
              rw same at e,
              rw last at ((Keeps-step_done env frame).at u),
            )
        | inr (y, u, e) ↦ absurd (cc ((end_step-err body w' e).1))
      ]

  -- Where commits work, a step that raised ran a body that raised.
  pub in_step-inv_err :
      (works : CommitsWork env) {R : World → World → Type 0} (frame : IsFrame R) (name : StepName)
      (label : Option Text) (body : Action A) (w : World) {x : Failure} {v : World}
      → in_step env name label body w ≡ (err x, v)
      → (w' : World) × (v' : World) × (y : Failure) × R w w' × (body w' ≡ (err y, v')) × R v' v
  unfolding in_step
  in_step-inv_err works {R} frame name label body w {x} {v} h =
      elim (>>=-inv_err (begin_step env name label) (λ _. end_step env body) w h) [
        | inl early ↦ absurd (Returns-ne-err _ w (Returns-begin_step env works name label) early)
        | inr (t, w', b, rest) ↦ elim (Result-cases (body w')) [
          | inl (c, u, e) ↦ absurd (
              Returns-ne-err (step_done env >>= λ _. pure c) u
                (Returns-bind _ _ (Returns-step_done env works) (λ _. Returns-pure c))
                (rw (end_step-ok body w' e) at rest))
          | inr (y, u, e) ↦
              let (z, p) = end_step-err body w' e in
              let last : (step_failed env y u).1 ≡ v = cc in
              (
                w',
                u,
                y,
                Keeps-moves (begin_step env name label) w (Keeps-begin_step env frame name label) b,
                e,
                rw last at ((Keeps-step_failed env frame y).at u),
              )
        ]
      ]

  pub recorded-ok :
      (body : Action A) (w : World) {a : A} {u : World}
      → body w ≡ (ok a, u)
      → recorded env body w ≡ (leave env (localized_error (codes "unknown")) >>= λ _. pure a) u
  unfolding recorded attempt ◌>>=◌
  recorded-ok body w e = rw e

  pub recorded-err :
      (body : Action A) (w : World) {x : Failure} {u : World}
      → body w ≡ (err x, u)
      → (recorded env body w).1 ≡ (leave env x u).1
  unfolding recorded attempt raise ◌>>=◌
  recorded-err body w {x} {u} e = elim (Result-cases (leave env x u)) [
    | inl (c, u', d) ↦ rw (e, d)
    | inr (y, u', d) ↦ rw (e, d)
  ]

  -- Leaving the recorder's block does no more than closing the run's row.
  pub recorded-end :
      {R : World → World → Type 0} (frame : IsFrame R) (body : Action A) (w : World)
      → R (body w).1 (recorded env body w).1
  recorded-end {R} frame body w = elim (Result-cases (body w)) [
    | inl (a, u, e) ↦
        rw (recorded-ok body w e, e)
          ((Keeps-bind frame.order _ _ (Keeps-leave env frame _) (λ _. Keeps-pure frame.order a)).at
            u)
    | inr (x, u, e) ↦ rw (recorded-err body w e, e) ((Keeps-leave env frame x).at u)
  ]
