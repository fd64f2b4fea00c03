-- ===== src/Jobs/Frame/Backup.antt =====
-- The cycle of a backup route (backend/app/jobs/backup_cycle.py), by what it does not touch.
use joulenap.Prelude.{ℕ, Option, none, some, List, [], ◌∷◌, Text, Dict}
use joulenap.Config.{PveDevice, PbsDevice, RouteGuests, RouteSource, Route, Config}
use joulenap.Effects.{Failure, World, Env, cycle_cancelled, cycle_abort}
use joulenap.Effects.Keeps.{Keeps, Keeps-bind, Keeps-modify}
use joulenap.Jobs.Clients.{Guest, VzdumpRequest, Clients}
use joulenap.Jobs.Backup.{
  guest_watcher, await_vzdump, run_vzdump, count_node, backup_node, backup_nodes, backup_source,
  source_step, source_failed, try_source, backup_sources, gc_or_skip, verify_or_skip, backup_body,
  end_cycle, run_route_backup, raise_first, request, or_first, warn_missing, storage_for,
  note_guests, conclude,
}
use joulenap.Jobs.Frame.{IsJobFrame, job_rules, order}
use joulenap.Jobs.Frame.Steps.{step_rules}

module _ (env : Env) (far : Clients) {R : World → World → Type 0} (job : IsJobFrame R) where
  pub Keeps-guest_watcher :
      (guests : List Guest) (lines : List (ℕ × Text)) → Keeps R (guest_watcher guests lines)
  unfolding guest_watcher
  Keeps-guest_watcher guests lines = search job_rules depth 14

  pub Keeps-await_vzdump :
      (upid : Text) (guests : List Guest) (before : ℕ)
      → Keeps R (await_vzdump env far upid guests before)
  unfolding await_vzdump
  Keeps-await_vzdump upid guests before = search (step_rules, Keeps-guest_watcher) depth 14

  pub Keeps-run_vzdump :
      (pve : PveDevice) (asked : VzdumpRequest) (guests : List Guest) (before : ℕ)
      → Keeps R (run_vzdump env far pve asked guests before)
  unfolding run_vzdump
  Keeps-run_vzdump pve asked guests before = search (step_rules, Keeps-await_vzdump) depth 14

  pub Keeps-count_node :
      (pve : Text) (vmids : List ℕ) (done : ℕ) (o : Option Failure)
      → Keeps R (count_node env far pve vmids done o)
  unfolding count_node
  Keeps-count_node pve vmids done none = search job_rules depth 14
  Keeps-count_node pve vmids done (some e) = search job_rules depth 14

  pub Keeps-backup_node :
      (pve : PveDevice) (asked : VzdumpRequest) (guests : List Guest) (vmids : List ℕ)
      → Keeps R (backup_node env far pve asked guests vmids)
  unfolding backup_node
  Keeps-backup_node pve asked guests vmids =
      search (step_rules, Keeps-run_vzdump, Keeps-count_node) depth 14

  pub Keeps-raise_first : (o : Option Failure) → Keeps R (raise_first o)
  Keeps-raise_first none = search job_rules
  Keeps-raise_first (some e) = search job_rules

  pub Keeps-backup_nodes :
      (route : Route) (source : RouteSource) (pve : PveDevice) (storage : Text)
      (guests : List Guest) (first : Option Failure) (nodes : Dict (List ℕ))
      → Keeps R (backup_nodes env far route source pve storage guests first nodes)
  unfolding backup_nodes
  Keeps-backup_nodes route source pve storage guests first [] = Keeps-raise_first first
  Keeps-backup_nodes route source pve storage guests first ((node, vmids) ∷ rest) =
      Keeps-bind (order job) _ _
        (Keeps-backup_node pve (request route source storage node vmids) guests vmids)
        (λ failed. Keeps-backup_nodes route source pve storage guests (or_first first failed) rest)

  pub Keeps-warn_missing :
      (selection : RouteGuests) (guests : List Guest)
      → Keeps R (warn_missing env far selection guests)
  Keeps-warn_missing selection guests = search step_rules

  pub Keeps-storage_for : (key : Text) (o : Option Text) → Keeps R (storage_for env far key o)
  Keeps-storage_for key none = search job_rules
  Keeps-storage_for key (some []) = search job_rules
  Keeps-storage_for key (some (c ∷ storage)) = search job_rules

  pub Keeps-backup_source :
      (config : Config) (route : Route) (source : RouteSource)
      → Keeps R (backup_source env far config route source)
  unfolding backup_source
  Keeps-backup_source config route source =
      search (step_rules, Keeps-warn_missing, Keeps-storage_for, Keeps-backup_nodes) depth 18

  pub Keeps-source_step :
      (config : Config) (route : Route) (source : RouteSource)
      → Keeps R (source_step env far config route source)
  unfolding source_step
  Keeps-source_step config route source = search (job_rules, Keeps-backup_source) depth 10

  pub Keeps-source_failed :
      (source : RouteSource) (e : Failure) → Keeps R (source_failed env far source e)
  unfolding source_failed
  Keeps-source_failed source e = search step_rules depth 10

  pub Keeps-try_source :
      (config : Config) (route : Route) (source : RouteSource)
      → Keeps R (try_source env far config route source)
  unfolding try_source
  Keeps-try_source config route source =
      search (job_rules, Keeps-source_step, Keeps-source_failed) depth 10

  pub Keeps-backup_sources :
      (config : Config) (route : Route) (sources : List RouteSource)
      → Keeps R (backup_sources env far config route sources)
  unfolding backup_sources
  Keeps-backup_sources config route [] = search job_rules
  Keeps-backup_sources config route (source ∷ rest) =
      Keeps-bind (order job) _ _ (Keeps-try_source config route source)
        (λ _. Keeps-backup_sources config route rest)

  pub Keeps-gc_or_skip :
      (route : Route) (target : PbsDevice) → Keeps R (gc_or_skip env far route target)
  unfolding gc_or_skip
  Keeps-gc_or_skip route target = search step_rules

  pub Keeps-verify_or_skip :
      (route : Route) (target : PbsDevice) → Keeps R (verify_or_skip env far route target)
  unfolding verify_or_skip
  Keeps-verify_or_skip route target = search step_rules

  Keeps-note_guests : Keeps R (note_guests env far)
  Keeps-note_guests = Keeps-modify _ (λ w. job.run.frame.on_row w _ w.saved w.finished)

  Keeps-conclude : (failed : List Text) → Keeps R (conclude env far failed)
  Keeps-conclude failed = search step_rules

  Keeps-backup_body : (config : Config) (route : Route) → Keeps R (backup_body env far config route)
  unfolding backup_body
  Keeps-backup_body config route =
      search
        (
          step_rules, Keeps-backup_sources, Keeps-note_guests, Keeps-gc_or_skip,
          Keeps-verify_or_skip, Keeps-conclude,
        )
        depth 24

  pub Keeps-end_cycle : (e : Failure) → Keeps R (end_cycle env far e)
  unfolding end_cycle
  Keeps-end_cycle cycle_cancelled = search job_rules
  Keeps-end_cycle (cycle_abort key) = search job_rules
  Keeps-end_cycle _ = search job_rules

  pub Keeps-run_route_backup :
      (config : Config) (route : Route) → Keeps R (run_route_backup env far config route)
  unfolding run_route_backup
  Keeps-run_route_backup config route = search (job_rules, Keeps-backup_body, Keeps-end_cycle)
