-- ===== src/Jobs/Frame/Routes.antt =====
-- The jobs that `JobService` is given (backend/app/jobs/route_cycle.py), by what they do not touch.
use joulenap.Prelude.{ℕ, zero, suc, Option, none, some, List, Text}
use joulenap.Config.{RouteKind, backup, external, verify, other_kind, PbsDevice, Route, Config}
use joulenap.Effects.{World, Env, Action}
use joulenap.Effects.Keeps.{Keeps, Keeps-attempt, Keeps-bind}
use joulenap.Service.{gc_action, verify_action, Action as Maintenance}
use joulenap.Jobs.Clients.{Clients, DatastoreStatus}
use joulenap.Jobs.Tasks.{poll_tasks, await_first, await_idle, idle_after, watch_external_tasks}
use joulenap.Jobs.Routes.{
  sync_body, external_source_pve, external_body, verify_body, run_body, body_of, simple_body,
  run_route, maintain, run_pbs_maintenance, log_unseen, refresh_all, source_pve, attributed,
  by_kind,
}
use joulenap.Jobs.Frame.{IsJobFrame, job_rules, order}
use joulenap.Jobs.Frame.Steps.{step_rules}
use joulenap.Jobs.Frame.Backup.{
  Keeps-gc_or_skip, Keeps-verify_or_skip, Keeps-end_cycle, Keeps-run_route_backup,
}
use joulenap.Jobs.Frame.Sync.{Keeps-sleep, Keeps-sync}

module _ (env : Env) (far : Clients) {R : World → World → Type 0} (job : IsJobFrame R) where
  Keeps-poll_tasks : (pbs : PbsDevice) (seen : List Text) → Keeps R (poll_tasks env far pbs seen)
  unfolding poll_tasks
  Keeps-poll_tasks pbs seen = search job_rules depth 10

  Keeps-await_first :
      (pbs : PbsDevice) (deadline fuel : ℕ) → Keeps R (await_first env far pbs deadline fuel)
  unfolding await_first
  Keeps-await_first pbs deadline zero = search job_rules
  Keeps-await_first pbs deadline (suc fuel) =
      let later : Unit {0} → Keeps R (await_first env far pbs deadline fuel) =
        λ _. Keeps-await_first pbs deadline fuel in
      search (step_rules, Keeps-poll_tasks, Keeps-sleep, later) depth 14

  Keeps-await_idle :
      (pbs : PbsDevice) (idle fuel : ℕ) (quiet : Option ℕ) (seen : List Text)
      → Keeps R (await_idle env far pbs idle fuel quiet seen)
  unfolding await_idle
  Keeps-await_idle pbs idle zero quiet seen = search job_rules
  Keeps-await_idle pbs idle (suc fuel) quiet seen =
      let later = Keeps-await_idle pbs idle fuel in
      search (step_rules, Keeps-poll_tasks, Keeps-sleep, later) depth 14

  Keeps-idle_after :
      (pbs : PbsDevice) (fuel : ℕ) (o : Option (List Text))
      → Keeps R (idle_after env far pbs fuel o)
  Keeps-idle_after pbs fuel none = search job_rules
  Keeps-idle_after pbs fuel (some seen) = search (job_rules, Keeps-await_idle)

  Keeps-watch_external_tasks :
      (pbs : PbsDevice) (fuel : ℕ) → Keeps R (watch_external_tasks env far pbs fuel)
  unfolding watch_external_tasks
  Keeps-watch_external_tasks pbs fuel =
      search (job_rules, Keeps-await_first, Keeps-idle_after) depth 10

module _ (env : Env) (far : Clients) (patience : ℕ) {R : World → World → Type 0}
    (job : IsJobFrame R) where
  Keeps-sync_body :
      (config : Config) (route : Route) (target : PbsDevice)
      → Keeps R (sync_body env far patience config route target)
  unfolding sync_body
  Keeps-sync_body config route target =
      search (step_rules, Keeps-sync, Keeps-gc_or_skip, Keeps-verify_or_skip) depth 14

  Keeps-log_unseen : (o : Option ℕ) → Keeps R (log_unseen env far patience o)
  Keeps-log_unseen none = search job_rules
  Keeps-log_unseen (some n) = search job_rules

  Keeps-external_source_pve :
      (config : Config) (target : PbsDevice)
      → Keeps R (external_source_pve env far patience config target)
  unfolding external_source_pve
  Keeps-external_source_pve config target = go (source_pve config target)
    where
      go : (o : Option Text) → Keeps R (attributed env far patience o)
      go (some id) = search job_rules
      go none = search job_rules

  Keeps-refresh_all :
      (target : PbsDevice) (o : Option Text) → Keeps R (refresh_all env far patience target o)
  Keeps-refresh_all target none = search job_rules
  Keeps-refresh_all target (some pve) = search step_rules

  Keeps-external_body :
      (config : Config) (target : PbsDevice)
      → Keeps R (external_body env far patience config target)
  unfolding external_body
  Keeps-external_body config target =
      search
        (
          step_rules, Keeps-watch_external_tasks, Keeps-log_unseen, Keeps-external_source_pve,
          Keeps-refresh_all,
        )
        depth 16

  Keeps-verify_body :
      (route : Route) (target : PbsDevice) → Keeps R (verify_body env far patience route target)
  unfolding verify_body
  Keeps-verify_body route target = search step_rules depth 10

  Keeps-run_body :
      (body : Action (Option DatastoreStatus))
      → Keeps R body
      → Keeps R (run_body env far patience body)
  unfolding run_body
  Keeps-run_body body k =
      Keeps-attempt (order job) _ _ (Keeps-bind (order job) _ _ k (λ ds. search job_rules))
        (Keeps-end_cycle env far job)

  Keeps-body_of :
      (kind : RouteKind) (config : Config) (route : Route) (target : PbsDevice)
      → Keeps R (body_of env far patience kind config route target)
  unfolding body_of
  Keeps-body_of RouteKind.sync config route target = Keeps-sync_body config route target
  Keeps-body_of external config route target = Keeps-external_body config target
  Keeps-body_of verify config route target = Keeps-verify_body route target
  Keeps-body_of backup config route target = search job_rules
  Keeps-body_of (other_kind k) config route target = search job_rules

  Keeps-simple_body :
      (config : Config) (route : Route) → Keeps R (simple_body env far patience config route)
  unfolding simple_body
  Keeps-simple_body config route = search (step_rules, Keeps-body_of) depth 10

  pub Keeps-run_route :
      (config : Config) (route : Route) → Keeps R (run_route env far patience config route)
  unfolding run_route
  Keeps-run_route config route = go route.kind
    where
      go : (kind : RouteKind) → Keeps R (by_kind env far patience config route kind)
      go backup = Keeps-run_route_backup env far job config route
      go _ = search (Keeps-run_body, Keeps-simple_body)

  Keeps-maintain :
      (asked : Maintenance) (pbs : PbsDevice) → Keeps R (maintain env far patience asked pbs)
  unfolding maintain
  Keeps-maintain gc_action pbs = search step_rules
  Keeps-maintain verify_action pbs = search step_rules

  pub Keeps-run_pbs_maintenance :
      (asked : Maintenance) (pbs : PbsDevice)
      → Keeps R (run_pbs_maintenance env far patience asked pbs)
  unfolding run_pbs_maintenance
  Keeps-run_pbs_maintenance asked pbs = search (step_rules, Keeps-run_body, Keeps-maintain) depth 10
