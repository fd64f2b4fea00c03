-- ===== src/Jobs/Frame/Sync.antt =====
-- The sync of a route (backend/app/jobs/route_cycle.py), by what it does not touch.
use joulenap.Prelude.{ℕ, zero, suc, Bool, List, [], ◌∷◌, Text}
use joulenap.Config.{PbsDevice, Route, Config}
use joulenap.Effects.{World, Env, Action}
use joulenap.Effects.Keeps.{Keeps, Keeps-if}
use joulenap.Jobs.Clients.{Clients}
use joulenap.Jobs.Tasks.{sleep}
use joulenap.Jobs.Sync.{
  drop_pair, drop_until, drop_sync_config, sweep_name, sweep_names, sweep_sync_config, task_reason,
  run_pair, sync_pair, sync, unless, wait_turn,
}
use joulenap.Jobs.Frame.{IsJobFrame, job_rules}
use joulenap.Jobs.Frame.Steps.{step_rules}

module _ (env : Env) (far : Clients) {R : World → World → Type 0} (job : IsJobFrame R) where
  pub Keeps-sleep : (time : ℕ) → Keeps R (sleep env far time)
  unfolding sleep
  Keeps-sleep time = search job_rules

  Keeps-unless : (b : Bool) (m : Action (Unit {0})) → Keeps R m → Keeps R (unless env far b m)
  Keeps-unless b m k = search (Keeps-if, job_rules)

  Keeps-wait_turn :
      (deadline : ℕ) (later : Action (Unit {0}))
      → Keeps R later
      → Keeps R (wait_turn env far deadline later)
  Keeps-wait_turn deadline later k = search (step_rules, Keeps-sleep) depth 10

  Keeps-drop_pair : (pbs : PbsDevice) (name : Text) → Keeps R (drop_pair env far pbs name)
  unfolding drop_pair
  Keeps-drop_pair pbs name = search job_rules

  Keeps-drop_until :
      (pbs : PbsDevice) (name : Text) (deadline fuel : ℕ)
      → Keeps R (drop_until env far pbs name deadline fuel)
  unfolding drop_until
  Keeps-drop_until pbs name deadline zero = search job_rules
  Keeps-drop_until pbs name deadline (suc fuel) =
      let later : Unit {0} → Keeps R (drop_until env far pbs name deadline fuel) =
        λ _. Keeps-drop_until pbs name deadline fuel in
      search (job_rules, Keeps-drop_pair, Keeps-unless, Keeps-wait_turn, later) depth 14

  Keeps-drop_sync_config :
      (pbs : PbsDevice) (name : Text) (fuel : ℕ) → Keeps R (drop_sync_config env far pbs name fuel)
  unfolding drop_sync_config
  Keeps-drop_sync_config pbs name fuel = search (job_rules, Keeps-drop_until)

  Keeps-sweep_name :
      (pbs : PbsDevice) (jobs remotes : List Text) (name : Text)
      → Keeps R (sweep_name env far pbs jobs remotes name)
  unfolding sweep_name
  Keeps-sweep_name pbs jobs remotes name = search step_rules depth 14

  Keeps-sweep_names :
      (pbs : PbsDevice) (jobs remotes : List Text) (keep busy : Text) (names : List Text)
      → Keeps R (sweep_names env far pbs jobs remotes keep busy names)
  unfolding sweep_names
  Keeps-sweep_names pbs jobs remotes keep busy [] = search job_rules
  Keeps-sweep_names pbs jobs remotes keep busy (name ∷ names) =
      let later : Unit {0} → Keeps R (sweep_names env far pbs jobs remotes keep busy names) =
        λ _. Keeps-sweep_names pbs jobs remotes keep busy names in
      search (step_rules, Keeps-sweep_name, later) depth 14

  Keeps-sweep_sync_config :
      (pbs : PbsDevice) (keep : Text) → Keeps R (sweep_sync_config env far pbs keep)
  unfolding sweep_sync_config
  Keeps-sweep_sync_config pbs keep = search (step_rules, Keeps-sweep_names) depth 14

  Keeps-run_pair : (pbs : PbsDevice) (name : Text) → Keeps R (run_pair env far pbs name)
  unfolding run_pair task_reason
  Keeps-run_pair pbs name = search step_rules depth 14

  Keeps-sync_pair :
      (route : Route) (executor peer : PbsDevice) (fuel : ℕ)
      → Keeps R (sync_pair env far route executor peer fuel)
  unfolding sync_pair
  Keeps-sync_pair route executor peer fuel =
      search (step_rules, Keeps-sweep_sync_config, Keeps-run_pair, Keeps-drop_sync_config) depth 20

  pub Keeps-sync :
      (config : Config) (route : Route) (target : PbsDevice) (fuel : ℕ)
      → Keeps R (sync env far config route target fuel)
  unfolding sync
  Keeps-sync config route target fuel = search (step_rules, Keeps-sync_pair) depth 14
