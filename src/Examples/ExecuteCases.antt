-- ===== src/Examples/ExecuteCases.antt =====
-- `_execute` of backend/app/jobs/service.py on a sync between two boxes.
use joulenap.Prelude.{false, ◌≡◌, lookup, refl, Bool, true}
use joulenap.Effects.{err, cycle_cancelled, Action, pure}
use joulenap.Effects.Keeps.{Keeps, Keeps-pure}
use joulenap.Service.{QueuedRun, Subject}
use joulenap.Execute.{execute}
use joulenap.Execute.Frame.{SameLease, SameLease-frame, AllFree}
use joulenap.Execute.Complete.{execute-AllFree}
use joulenap.Execute.Power.{execute-Quiet}
use joulenap.Recorder.{recorded}
use joulenap.Recorder.Closed.{IsClosed, recorded-IsClosed}
use joulenap.Lease.Release.{commands}
use joulenap.Examples.{config, mirror_run, env, free}

-- A job that has something to announce.
abbrev job : Subject → Action Bool
job s = pure true

job-SameLease : (s : Subject) → Keeps SameLease (job s)
job-SameLease s = Keeps-pure SameLease-frame.order true

execute-AllFree_example : AllFree (execute env config mirror_run job free).1
unfolding lookup
execute-AllFree_example =
    execute-AllFree env config mirror_run job free (λ t. refl) job-SameLease (λ k. refl)

-- A run by hand that leaves the boxes on.
abbrev staying_on : QueuedRun
staying_on = record mirror_run { power_off = false }

execute-Quiet_example : commands (execute env config staying_on job free).1.trace ≡ 0
execute-Quiet_example =
    execute-Quiet env config staying_on job free refl
      (λ s. record { at = λ w. unfold pure in refl })

-- A body that raises.
abbrev crash : Action Bool
crash w = (err cycle_cancelled, w)

recorded-IsClosed_example : IsClosed free (recorded env crash free).1
recorded-IsClosed_example = recorded-IsClosed env crash free (λ t. refl)
