-- ===== src/Jobs/Runs.antt =====
-- Runs of the jobs that `JobService` queues (`run_route` and `run_maintenance` of
-- backend/app/jobs/service.py): the cycles of backup_cycle.py and route_cycle.py in `_execute`.
use joulenap.Prelude.{◌≡◌, refl, ℕ, Bool, false, codes}
use joulenap.Config.{Config}
use joulenap.Effects.{other_exception, World, Env, Action, raise}
use joulenap.Effects.Keeps.{Keeps, Keeps-raise}
use joulenap.Lease.Release.{commands}
use joulenap.Recorder.Steps.{CommitsWork}
use joulenap.Service.{
  CycleJob, run_route_job, maintenance_job, QueuedRun, Subject, route_subject, pbs_subject,
}
use joulenap.Execute.{execute}
use joulenap.Execute.Frame.{SameLease, SameLease-run, AllFree}
use joulenap.Execute.Complete.{execute-AllFree}
use joulenap.Execute.Power.{Quiet, run, execute-Quiet}
use joulenap.Jobs.Clients.{Clients}
use joulenap.Jobs.Routes.{run_route, run_pbs_maintenance}
use joulenap.Jobs.Frame.{IsJobFrame, order}
use joulenap.Jobs.Frame.Routes.{Keeps-run_route, Keeps-run_pbs_maintenance}

module _ (env : Env) (far : Clients) (patience : ℕ) (config : Config) where
  -- The job of a queued run, on what it was resolved to. A route's job is never given a box, nor a
  -- box's a route.
  unfoldable pub job_of : CycleJob → Subject → Action Bool
  job_of run_route_job (route_subject route) = run_route env far patience config route
  job_of (maintenance_job asked) (pbs_subject pbs) = run_pbs_maintenance env far patience asked pbs
  job_of _ _ = raise (other_exception (codes "AttributeError"))

  -- `_execute` of a queued run.
  unfoldable pub run_queued : QueuedRun → Action (Unit {0})
  unfolding job_of
  run_queued item = execute env config item (job_of item.job)

  Keeps-job_of :
      {R : World → World → Type 0}
      → IsJobFrame R
      → (job : CycleJob) (s : Subject) → Keeps R (job_of job s)
  unfolding job_of
  Keeps-job_of f run_route_job (route_subject route) =
      Keeps-run_route env far patience f config route
  Keeps-job_of f run_route_job (pbs_subject pbs) = Keeps-raise (order f) _
  Keeps-job_of f (maintenance_job asked) (pbs_subject pbs) =
      Keeps-run_pbs_maintenance env far patience f asked pbs
  Keeps-job_of f (maintenance_job asked) (route_subject route) = Keeps-raise (order f) _

SameLease-job : IsJobFrame SameLease
SameLease-job = record {
  run = SameLease-run;
  on_cycle = λ w c. record { machines = refl; held = refl };
}

Quiet-job : IsJobFrame Quiet
Quiet-job = record { run = run; on_cycle = λ w c. refl }

-- Where no commit fails, a queued run of a route of any kind, or of a box's maintenance, that starts
-- with no machine held ends with none held, whatever the servers answer.
pub run_queued-AllFree :
    (env : Env) (far : Clients) (patience : ℕ) (config : Config) (item : QueuedRun) (w : World)
    → CommitsWork env
    → AllFree w
    → AllFree (run_queued env far patience config item w).1
unfolding run_queued
run_queued-AllFree env far patience config item w works free =
    execute-AllFree env config item (job_of env far patience config item.job) w works
      (Keeps-job_of env far patience config SameLease-job item.job) free

-- A queued run of a route of any kind, or of a box's maintenance, that was queued with the choice to
-- leave its boxes on sends no power command, whatever the servers answer.
pub run_queued-Quiet :
    (env : Env) (far : Clients) (patience : ℕ) (config : Config) (item : QueuedRun) (w : World)
    → item.power_off ≡ false
    → commands (run_queued env far patience config item w).1.trace ≡ commands w.trace
unfolding run_queued
run_queued-Quiet env far patience config item w stays_on =
    execute-Quiet env config item (job_of env far patience config item.job) w stays_on
      (Keeps-job_of env far patience config Quiet-job item.job)
