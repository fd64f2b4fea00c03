-- ===== src/Recorder/Closed.antt =====
-- The safety net of `RunRecorder.__exit__` (backend/app/jobs/recorder.py): the row it leaves.
use joulenap.Prelude.{◌≡◌, refl, inl, inr, true, false, some, Option, Bool-cases, arith, codes}
use joulenap.Effects.{
  Failure, localized_error, ok, RunStatus, failure, World, Env, Action, pure, gets, modify, attempt,
  ◌>>=◌, Result-cases,
}
use joulenap.Recorder.{finish, leave, recorded, set_error}
use joulenap.Recorder.Steps.{CommitsWork, committing, commit_lem, recorded-ok, recorded-err}

-- The row was as `u` has it when the recorder's block was left, and now is as `v` has it.
pub record IsClosed (u v : World) : Type 0 where
  pub finished : v.finished ≡ true
  pub kept : u.finished ≡ true → (v.run ≡ u.run) × (v.saved ≡ u.saved)
  pub failed : u.finished ≡ false → (v.run.status ≡ failure) × (v.saved ≡ v.run)

module _ (env : Env) (works : CommitsWork env) where
  unfoldable pub row : RunStatus → Option Failure → World → World
  row status e w = record w { run = set_error env e (record w.run { status = status }) }

  pub finish_lem :
      (status : RunStatus) (e : Option Failure) (w : World)
      → finish env status e w
        ≡ (ok tt, record (committing env works (row status e w)) { finished = true })
  unfolding finish modify ◌>>=◌ row
  finish_lem status e w = ground (arith, commit_lem env works (row status e w))

  leave_open :
      (x : Failure) (w : World) → w.finished ≡ false → leave env x w ≡ finish env failure (some x) w
  unfolding leave gets attempt ◌>>=◌
  leave_open x w h = ground (arith, finish_lem failure (some x) w)

  leave_over : (x : Failure) (w : World) → w.finished ≡ true → leave env x w ≡ (ok tt, w)
  unfolding leave gets pure ◌>>=◌
  leave_over x w h = ground arith

  closed :
      (x : Failure) (w : World)
      → w.finished ≡ false
      → IsClosed w (record (committing env works (row failure (some x) w)) { finished = true })
  unfolding row committing set_error
  closed x w h = record {
    finished = refl;
    kept = λ q. absurd (ground arith);
    failed = λ q. (refl, refl);
  }

  leave-IsClosed : (x : Failure) (w : World) → IsClosed w (leave env x w).1
  leave-IsClosed x w = elim (Bool-cases w.finished) [
    | inl h ↦
        rw (leave_over x w h)
          (record { finished = h; kept = λ q. (refl, refl); failed = λ q. absurd (ground arith) })
    | inr h ↦ rw (leave_open x w h, finish_lem failure (some x) w) (closed x w h)
  ]

bind_pure_world {ℓ} :
    {A : Type ℓ} (m : Action (Unit {0})) (a : A) (w : World) → ((m >>= λ _. pure a) w).1 ≡ (m w).1
unfolding pure ◌>>=◌
bind_pure_world m a w = elim (Result-cases (m w)) [
  | inl (b, v, e) ↦ rw e refl
  | inr (x, v, e) ↦ rw e refl
]

-- Where no commit fails, the row of a run is closed when the recorder's block is left, however its
-- body ended: a row that the body finished is left as it is, and any other is saved as a failure.
pub recorded-IsClosed {ℓ} :
    {A : Type ℓ} (env : Env) (body : Action A) (w : World)
    → CommitsWork env
    → IsClosed (body w).1 (recorded env body w).1
recorded-IsClosed env body w works = elim (Result-cases (body w)) [
  | inl (a, u, e) ↦
      rw (recorded-ok env body w e, e)
        (rw (bind_pure_world (leave env (localized_error (codes "unknown"))) a u)
          (leave-IsClosed env works (localized_error (codes "unknown")) u))
  | inr (x, u, e) ↦ rw (recorded-err env body w e, e) (leave-IsClosed env works x u)
]
