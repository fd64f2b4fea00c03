-- ===== src/Jobs/Frame/Steps.antt =====
-- The shared steps of backend/app/jobs/backup_cycle.py, by what they do not touch.
use joulenap.Prelude.{ℕ, Option, none, some, Text}
use joulenap.Config.{RetentionConfig, PbsDevice, Route}
use joulenap.Effects.{World, Env}
use joulenap.Effects.Keeps.{Keeps, Keeps-if}
use joulenap.Jobs.Clients.{DatastoreStatus, Clients}
use joulenap.Jobs.Steps.{
  required, Covered, cache_datastore, preflight, gc_step, verify_target, prune_step, read_datastore,
  refresh_backup_cache, keep_status, is_no_pruning,
}
use joulenap.Jobs.Frame.{IsJobFrame, job_rules}

module _ (env : Env) (far : Clients) {R : World → World → Type 0} (job : IsJobFrame R) where
  pub Keeps-required {ℓ} : {A : Type ℓ} (key : Text) (o : Option A) → Keeps R (required key o)
  Keeps-required key (some a) = search job_rules depth 14
  Keeps-required key none = search job_rules depth 14

  pub Keeps-cache_datastore :
      (target : PbsDevice) (ds : DatastoreStatus) → Keeps R (cache_datastore env far target ds)
  unfolding cache_datastore
  Keeps-cache_datastore target ds = search job_rules depth 14

  pub Keeps-preflight :
      (route : Route) (target : PbsDevice) → Keeps R (preflight env far route target)
  unfolding preflight
  Keeps-preflight route target = search (job_rules, Keeps-if, Keeps-cache_datastore) depth 14

  pub Keeps-gc_step : (target : PbsDevice) → Keeps R (gc_step env far target)
  unfolding gc_step
  Keeps-gc_step target = search job_rules depth 14

  pub Keeps-verify_target :
      (target : PbsDevice) (outdated : Option ℕ) → Keeps R (verify_target env far target outdated)
  unfolding verify_target
  Keeps-verify_target target outdated = search job_rules depth 14

  pub Keeps-prune_step :
      (target : PbsDevice) (r : RetentionConfig) → Keeps R (prune_step env far target r)
  unfolding prune_step
  Keeps-prune_step target r =
      Keeps-if (is_no_pruning r) _ _ (search job_rules depth 14) (search job_rules depth 14)

  Keeps-keep_status :
      (target : PbsDevice) (o : Option DatastoreStatus) → Keeps R (keep_status env far target o)
  Keeps-keep_status target none = search job_rules depth 14
  Keeps-keep_status target (some ds) = search (job_rules, Keeps-cache_datastore) depth 14

  pub Keeps-read_datastore : (target : PbsDevice) → Keeps R (read_datastore env far target)
  unfolding read_datastore
  Keeps-read_datastore target = search (job_rules, Keeps-keep_status) depth 14

  pub Keeps-refresh_backup_cache :
      (target : PbsDevice) (covered : Covered)
      → Keeps R (refresh_backup_cache env far target covered)
  unfolding refresh_backup_cache
  Keeps-refresh_backup_cache target covered = search (job_rules, Keeps-if) depth 14

pub ruleset step_rules = (
  job_rules, Keeps-if, Keeps-required, Keeps-preflight, Keeps-gc_step, Keeps-verify_target,
  Keeps-prune_step, Keeps-read_datastore, Keeps-refresh_backup_cache,
)
