-- ===== src/Jobs/Backup.antt =====
-- backend/app/jobs/backup_cycle.py: the cycle of a backup route.
use joulenap.Prelude.{
  ℕ, ◌+◌, Bool, true, false, not, ◌||◌, ◌&&◌, Option, none, some, List, [], ◌∷◌, ◌++◌, map, Text,
  codes, is_empty, ltb, length, if◌then◌else◌, Dict, lookup, insert, join_texts, starts_with,
}
use joulenap.Config.{
  GuestMode, include, exclude, PveDevice, PbsDevice, RouteGuests, RouteSource, Route, Config,
  find_pbs, find_pve,
}
use joulenap.Effects.{
  Failure, is_cancelled, cycle_abort, cycle_cancelled, task_error, localized_error, success,
  failure, aborted, backup_step, gc, verify_step, warn, error, Env, Action, pure, raise, gets,
  modify, attempt, ◌>>=◌, ◌>>◌,
}
use joulenap.Remote.{vzdump_started, guests_listed, Cycle, new_cycle}
use joulenap.Recorder.{log, set_detail, in_step, skip_step, finish}
use joulenap.Jobs.Clients.{Guest, VzdumpRequest, build_prune_string, Clients, ask}
use joulenap.Jobs.Guests.{guests_by_node, lacks_some, watch_lines}
use joulenap.Jobs.Tasks.{LogWatch, stop_if_cancelled, wait_or_stop}
use joulenap.Jobs.Steps.{
  required, Covered, connect, preflight, gc_step, verify_target, read_datastore,
  refresh_backup_cache,
}

unfoldable pub on_cycle : (Cycle → Cycle) → Action (Unit {0})
unfolding modify
on_cycle f = modify λ w. record w { cycle = f w.cycle }

-- The callback that `_guest_watcher` returns.
unfoldable pub guest_watcher : List Guest → LogWatch
guest_watcher guests lines = on_cycle λ c. record c { guests = watch_lines guests lines c.guests }

-- A task that ended with warnings.
abbrev pub is_warned : Failure → Bool
is_warned (task_error (some status)) = starts_with (codes "WARNINGS") status
is_warned _ = false

abbrev is_include : GuestMode → Bool
is_include include = true
is_include _ = false

abbrev pub request : Route → RouteSource → Text → Text → List ℕ → VzdumpRequest
request route source storage node vmids = record {
  storage = storage;
  node = node;
  vmids = elim source.guests.mode [ include ↦ some vmids | _ ↦ none ];
  all_guests = elim source.guests.mode [ include ↦ false | _ ↦ true ];
  exclude = elim source.guests.mode [ exclude ↦ some source.guests.list | _ ↦ none ];
  mode = route.options.mode;
  prune_backups = build_prune_string route.retention;
  bwlimit = route.options.bwlimit;
  change_detection_mode = route.options.change_detection_mode;
}

abbrev vmids_of : Option (List ℕ) → List ℕ
vmids_of none = []
vmids_of (some vmids) = vmids

-- `covered |= set(vmids)`, of the set that is kept for the source.
abbrev pub cover : Text → List ℕ → Dict (List ℕ) → Dict (List ℕ)
cover pve vmids covered = insert pve (vmids_of (lookup pve covered) ++ vmids) covered

abbrev pub or_first : Option Failure → Option Failure → Option Failure
or_first none second = second
or_first (some e) second = some e

abbrev pub raise_first : Option Failure → Action (Unit {0})
raise_first none = pure tt
raise_first (some e) = raise e

module _ (env : Env) (far : Clients) where
  -- The wait for a vzdump that may end with warnings, where `before` guests had failed.
  unfoldable pub await_vzdump : Text → List Guest → ℕ → Action (Unit {0})
  await_vzdump upid guests before = attempt (wait_or_stop env far upid (guest_watcher guests)) (λ e.
      do
        failed ← gets (λ w. length w.cycle.guests.failed)
        if not (is_warned e) || ltb before failed then raise e else log env warn)

  unfoldable pub run_vzdump : PveDevice → VzdumpRequest → List Guest → ℕ → Action (Unit {0})
  unfolding await_vzdump
  run_vzdump pve asked guests before = do
    upid ← ask (vzdump_started pve.id asked.node) (far.vzdump pve asked)
    on_cycle λ c. record c { upids = c.upids ++ upid ∷ [] }
    upids ← gets (λ w. w.cycle.upids)
    set_detail (join_texts (codes ", ") upids)
    await_vzdump upid guests before

  -- The tally of a node whose task ended well.
  unfoldable pub count_node : Text → List ℕ → ℕ → Option Failure → Action (Option Failure)
  count_node pve vmids done (some e) = pure (some e)
  count_node pve vmids done none = do
    on_cycle λ c. record c {
      guests = record c.guests { ok = done + length vmids };
      covered = cover pve vmids c.covered;
    }
    pure none

  -- One node of a source: the failure that the others are not to suffer from, if there was one.
  unfoldable pub backup_node :
      PveDevice → VzdumpRequest → List Guest → List ℕ → Action (Option Failure)
  unfolding count_node
  backup_node pve asked guests vmids = do
    stop_if_cancelled env
    on_cycle λ c. record c { guests = record c.guests { total = c.guests.total + length vmids } }
    before ← gets (λ w. w.cycle.guests)
    failed ←
        attempt (do run_vzdump pve asked guests (length before.failed); pure none)
          (λ e. if is_cancelled e then raise e else (do log env error; pure (some e)))
    count_node pve.id vmids before.ok failed

  unfoldable pub backup_nodes :
      Route
      → RouteSource
      → PveDevice
      → Text
      → List Guest
      → Option Failure
      → Dict (List ℕ)
      → Action (Unit {0})
  backup_nodes route source pve storage guests first [] = raise_first first
  backup_nodes route source pve storage guests first ((node, vmids) ∷ rest) = do
    failed ← backup_node pve (request route source storage node vmids) guests vmids
    backup_nodes route source pve storage guests (or_first first failed) rest

  abbrev pub warn_missing : RouteGuests → List Guest → Action (Unit {0})
  warn_missing selection guests =
      if is_include selection.mode && lacks_some selection guests then log env warn else pure tt

  abbrev pub storage_for : Text → Option Text → Action Text
  storage_for key (some []) = raise (cycle_abort key)
  storage_for key (some (c ∷ storage)) = pure (c ∷ storage)
  storage_for key none = raise (cycle_abort key)

  -- `_route_backup_source`
  unfoldable pub backup_source : Config → Route → RouteSource → Action (Unit {0})
  unfolding backup_nodes
  backup_source config route source = do
    pve ← required (codes "source_pve_missing") (find_pve source.pve config.pves)
    storage ← storage_for (codes "no_storage_mapping") (lookup route.target pve.storages)
    on_cycle λ c. record c { upids = [] }
    connect env far pve.id
    guests ← ask (guests_listed pve.id) (far.list_guests pve)
    warn_missing source.guests guests
    let per_node = guests_by_node source.guests guests
    if is_empty per_node then raise (cycle_abort (codes "no_guests")) else pure tt
    backup_nodes route source pve storage guests none per_node

  -- A source's step, with the place for what it covers, which is filled node by node.
  unfoldable pub source_step : Config → Route → RouteSource → Action (Unit {0})
  unfolding backup_source
  source_step config route source = do
    on_cycle λ c. record c { covered = insert source.pve [] c.covered }
    in_step env backup_step (some source.pve) (backup_source config route source)

  unfoldable pub source_failed : RouteSource → Failure → Action (Unit {0})
  source_failed source e =
      if is_cancelled e
      then raise e
      else (do on_cycle λ c. record c { failed = c.failed ++ source.pve ∷ [] }; log env error)

  -- One source, whose failure is not the others'.
  unfoldable pub try_source : Config → Route → RouteSource → Action (Unit {0})
  unfolding source_step source_failed
  try_source config route source = do
    stop_if_cancelled env
    attempt (source_step config route source) (source_failed source)

  unfoldable pub backup_sources : Config → Route → List RouteSource → Action (Unit {0})
  unfolding try_source
  backup_sources config route [] = pure tt
  backup_sources config route (source ∷ rest) = do
    try_source config route source
    backup_sources config route rest

  -- `if route.options.gc` and `if route.options.verify_after`.
  unfoldable pub gc_or_skip : Route → PbsDevice → Action (Unit {0})
  gc_or_skip route target =
      if route.options.gc then gc_step env far target else skip_step env gc (codes "gc_disabled")

  unfoldable pub verify_or_skip : Route → PbsDevice → Action (Unit {0})
  verify_or_skip route target =
      if route.options.verify_after
      then verify_target env far target none
      else skip_step env verify_step (codes "verify_disabled")

  abbrev pub note_guests : Action (Unit {0})
  note_guests = modify λ w. record w { run = record w.run { guests_ok = some w.cycle.guests.ok } }

  abbrev pub conclude : List Text → Action (Unit {0})
  conclude failed =
      if is_empty failed
      then finish env success none
      else finish env failure (some (localized_error (codes "sources_failed")))

  abbrev claims : Dict (List ℕ) → Covered
  claims = map (λ c. (c.0, some c.1))

  -- The body of the `try` of `run_route_backup`.
  unfoldable pub backup_body : Config → Route → Action (Unit {0})
  unfolding gc_or_skip verify_or_skip backup_sources
  backup_body config route = do
    target ← required (codes "target_pbs_missing") (find_pbs route.target config.pbss)
    preflight env far route target
    backup_sources config route route.sources
    note_guests
    stop_if_cancelled env
    gc_or_skip route target
    stop_if_cancelled env
    verify_or_skip route target
    ds ← read_datastore env far target
    covered ← gets (λ w. claims w.cycle.covered)
    refresh_backup_cache env far target covered
    failed ← gets (λ w. w.cycle.failed)
    conclude failed

  -- The `except` clauses that the cycles share, with what they return.
  unfoldable pub end_cycle : Failure → Action Bool
  end_cycle cycle_cancelled = do
    finish env aborted (some (localized_error (codes "cancelled")))
    pure false
  end_cycle (cycle_abort key) = do finish env aborted (some (cycle_abort key)); pure true
  end_cycle e = do finish env failure (some e); pure true

  -- `run_route_backup`: whether it returns something to notify of.
  unfoldable pub run_route_backup : Config → Route → Action Bool
  unfolding backup_body end_cycle
  run_route_backup config route = do
    on_cycle λ c. new_cycle
    attempt (do backup_body config route; pure true) end_cycle
