-- ===== src/Jobs/Steps.antt =====
-- The steps that the cycles of backend/app/jobs/backup_cycle.py and route_cycle.py share.
use joulenap.Prelude.{
  ℕ, zero, ◌+◌, ◌*◌, Bool, true, false, Option, none, some, List, map, filter, Text, codes, ltb,
  ◌==◌, if◌then◌else◌,
}
use joulenap.Config.{RetentionConfig, PbsDevice, Route}
use joulenap.Effects.{
  cycle_abort, StepName, precheck, prune, gc, verify_step, info, warn, Env, Action, pure, raise,
  attempt, ◌>>=◌, ◌>>◌,
}
use joulenap.Remote.{
  connected, datastore_read, gc_started, prune_started, backups_read, verify_started, stat_saved,
  backups_saved,
}
use joulenap.Recorder.{log, set_detail, in_step, skip_step}
use joulenap.Jobs.Clients.{DatastoreStatus, avail_tenths, Clients, ask}
use joulenap.Jobs.Guests.{is_member}
use joulenap.Jobs.Tasks.{no_watch, wait_or_stop}

-- The device, or `CycleAbort` if the configuration has none of that id.
abbrev pub required {ℓ} : {A : Type ℓ} → Text → Option A → Action A
required key (some a) = pure a
required key none = raise (cycle_abort (key))

-- What each source is credited with: the vmids it backed up, or every snapshot.
abbrev pub Covered : Type 0
Covered = List (Text × Option (List ℕ))

abbrev claimed : Option (List ℕ) → List (ℕ × ℕ) → List (ℕ × ℕ)
claimed none latest = latest
claimed (some vmids) latest = filter (λ (b : ℕ × ℕ). is_member b.0 vmids) latest

-- The arguments of `start_verify`: `ignore_verified`, `outdated_after`.
abbrev pub verify_window : Option ℕ → Bool × Option ℕ
verify_window (some zero) = (false, none)
verify_window outdated = (true, outdated)

abbrev pub is_no_pruning : RetentionConfig → Bool
is_no_pruning r = r.keep_last + r.keep_daily + r.keep_weekly + r.keep_monthly + r.keep_yearly == 0

module _ (env : Env) (far : Clients) where
  abbrev pub connect : Text → Action (Unit {0})
  connect id = ask (connected id) (far.connect id)

  abbrev pub read_status : PbsDevice → Action DatastoreStatus
  read_status pbs = ask (datastore_read pbs.id) (far.datastore_status pbs)

  -- `_cache_route_datastore`
  unfoldable pub cache_datastore : PbsDevice → DatastoreStatus → Action (Unit {0})
  cache_datastore target ds =
      attempt (ask (stat_saved target.id) (far.save_stat target ds)) (λ e. log env warn)

  -- `_route_preflight`
  unfoldable pub preflight : Route → PbsDevice → Action (Unit {0})
  unfolding cache_datastore
  preflight route target =
      if route.options.min_free_percent == 0
      then pure tt
      else in_step env precheck none (do
        connect target.id
        ds ← read_status target
        cache_datastore target ds
        set_detail (codes "free_space")
        if ltb (avail_tenths ds) (route.options.min_free_percent * 10)
            then raise (cycle_abort (codes "datastore_full"))
            else pure tt)

  -- A step that starts a task of the box and waits for it.
  abbrev task_step : StepName → PbsDevice → Action Text → Action (Unit {0})
  task_step name target start =
      in_step env name none
        (do connect target.id; upid ← start; set_detail upid; wait_or_stop env far upid no_watch)

  -- `_route_gc_step`
  unfoldable pub gc_step : PbsDevice → Action (Unit {0})
  gc_step target = task_step gc target (ask (gc_started target.id) (far.start_gc target))

  -- `_route_verify_step`
  unfoldable pub verify_target : PbsDevice → Option ℕ → Action (Unit {0})
  verify_target target outdated =
      let (ignore_verified, after) = verify_window outdated in
      task_step verify_step target (
        ask (verify_started target.id ignore_verified after)
          (far.start_verify target ignore_verified after))

  -- `_route_prune_step`
  unfoldable pub prune_step : PbsDevice → RetentionConfig → Action (Unit {0})
  prune_step target retention =
      if is_no_pruning retention
      then skip_step env prune (codes "retention_empty")
      else task_step prune target (ask (prune_started target.id) (far.start_prune target retention))

  abbrev pub keep_status : PbsDevice → Option DatastoreStatus → Action (Option DatastoreStatus)
  keep_status target none = pure none
  keep_status target (some ds) = do log env info; cache_datastore target ds; pure (some ds)

  -- `_route_read_datastore`
  unfoldable pub read_datastore : PbsDevice → Action (Option DatastoreStatus)
  unfolding cache_datastore
  read_datastore target = do
    read ←
        attempt (do connect target.id; ds ← read_status target; pure (some ds))
          (λ e. do log env warn; pure none)
    keep_status target read

  -- `_refresh_route_backup_cache`
  unfoldable pub refresh_backup_cache : PbsDevice → Covered → Action (Unit {0})
  refresh_backup_cache target covered = do
    saved ←
        attempt
          (do
            connect target.id
            latest ← ask (backups_read target.id) (far.latest_backups target)
            ask (backups_saved target.id)
                (far.save_backups target (map (λ c. (c.0, claimed c.1 latest)) covered))
            pure true)
          (λ e. do log env warn; pure false)
    if saved then log env info else pure tt
