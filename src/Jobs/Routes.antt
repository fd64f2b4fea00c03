-- ===== src/Jobs/Routes.antt =====
-- backend/app/jobs/route_cycle.py: the bodies of the other kinds of route, the dispatch on the
-- kind, and maintenance outside any route. `patience` bounds the turns of the two loops that
-- depend on the boxes, the external watch and the clean-up of a sync; past it they raise.
use joulenap.Prelude.{
  if◌then◌else◌, ℕ, Bool, true, false, Option, none, some, List, [], ◌∷◌, map, filter, Text, codes,
  lookup,
}
use joulenap.Config.{
  RouteKind, backup, external, verify, other_kind, PveDevice, PbsDevice, Route, Config, find_pbs,
}
use joulenap.Effects.{
  raise, cycle_abort, monitor, success, warn, Env, Action, pure, attempt, ◌>>=◌, ◌>>◌,
}
use joulenap.Recorder.{log, set_detail, in_step, finish}
use joulenap.Service.{gc_action, verify_action, Action as Maintenance}
use joulenap.Jobs.Clients.{DatastoreStatus, Clients}
use joulenap.Jobs.Tasks.{watch_external_tasks}
use joulenap.Jobs.Steps.{
  required, connect, gc_step, verify_target, prune_step, read_datastore, refresh_backup_cache,
}
use joulenap.Jobs.Sync.{sync}
use joulenap.Jobs.Backup.{gc_or_skip, verify_or_skip, end_cycle, run_route_backup}

-- `monitor_key`
abbrev pub monitor_key : Option ℕ → Text
monitor_key none = codes "no_tasks_observed"
monitor_key (some n) = codes "tasks_observed"

abbrev pub maps_to : Text → PveDevice → Bool
maps_to pbs pve = elim (lookup pbs pve.storages) [ some s ↦ true | none ↦ false ]

abbrev only : List Text → Option Text
only (id ∷ []) = some id
only _ = none

-- The ids of the servers that back up to the box, if there is exactly one.
unfoldable pub source_pve : Config → PbsDevice → Option Text
source_pve config target =
    only (map (λ (p : PveDevice). p.id) (filter (maps_to target.id) config.pves))

module _ (env : Env) (far : Clients) (patience : ℕ) where
  -- `_sync_body`
  unfoldable pub sync_body : Config → Route → PbsDevice → Action (Option DatastoreStatus)
  sync_body config route target = do
    sync env far config route target patience
    prune_step env far target route.retention
    gc_or_skip env far route target
    verify_or_skip env far route target
    read_datastore env far target

  abbrev pub log_unseen : Option ℕ → Action (Unit {0})
  log_unseen none = log env warn
  log_unseen (some n) = pure tt

  abbrev pub attributed : Option Text → Action (Option Text)
  attributed (some id) = pure (some id)
  attributed none = do log env warn; pure none

  -- `_external_source_pve`
  unfoldable pub external_source_pve : Config → PbsDevice → Action (Option Text)
  unfolding source_pve
  external_source_pve config target = attributed (source_pve config target)

  abbrev pub refresh_all : PbsDevice → Option Text → Action (Unit {0})
  refresh_all target none = pure tt
  refresh_all target (some pve) = refresh_backup_cache env far target ((pve, none) ∷ [])

  -- `_external_body`
  unfoldable pub external_body : Config → PbsDevice → Action (Option DatastoreStatus)
  unfolding external_source_pve
  external_body config target = do
    in_step env monitor none (do
      connect env far target.id
      observed ← watch_external_tasks env far target patience
      set_detail (monitor_key observed)
      log_unseen observed)
    ds ← read_datastore env far target
    pve ← external_source_pve config target
    refresh_all target pve
    pure ds

  -- `_verify_body`
  unfoldable pub verify_body : Route → PbsDevice → Action (Option DatastoreStatus)
  verify_body route target = do
    verify_target env far target (some route.options.reverify_days)
    read_datastore env far target

  -- `_run_body`
  unfoldable pub run_body : Action (Option DatastoreStatus) → Action Bool
  run_body body = attempt (do ds ← body; finish env success none; pure true) (end_cycle env far)

  -- The body that `_BODIES` has for the kind, on the target.
  unfoldable pub body_of : RouteKind → Config → Route → PbsDevice → Action (Option DatastoreStatus)
  unfolding sync_body external_body verify_body
  body_of RouteKind.sync config route target = sync_body config route target
  body_of external config route target = external_body config target
  body_of verify config route target = verify_body route target
  body_of _ config route target = raise (cycle_abort (codes "unsupported_kind"))

  abbrev pub has_body : RouteKind → Bool
  has_body backup = false
  has_body (other_kind k) = false
  has_body _ = true

  -- `_simple_body`
  unfoldable pub simple_body : Config → Route → Action (Option DatastoreStatus)
  unfolding body_of
  simple_body config route = do
    if has_body route.kind then pure tt else raise (cycle_abort (codes "unsupported_kind"))
    target ← required (codes "pbs_missing") (find_pbs route.target config.pbss)
    body_of route.kind config route target

  abbrev pub by_kind : Config → Route → RouteKind → Action Bool
  by_kind config route backup = run_route_backup env far config route
  by_kind config route _ = run_body (simple_body config route)

  -- `run_route`
  unfoldable pub run_route : Config → Route → Action Bool
  unfolding simple_body run_body
  run_route config route = by_kind config route route.kind

  unfoldable pub maintain : Maintenance → PbsDevice → Action (Unit {0})
  maintain gc_action pbs = gc_step env far pbs
  maintain verify_action pbs = verify_target env far pbs (some 0)

  -- `run_pbs_maintenance`
  unfoldable pub run_pbs_maintenance : Maintenance → PbsDevice → Action Bool
  unfolding maintain run_body
  run_pbs_maintenance action pbs = run_body (do maintain action pbs; read_datastore env far pbs)
