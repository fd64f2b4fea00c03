-- ===== src/Jobs/Sync.antt =====
-- backend/app/jobs/route_cycle.py: the sync of a route, with the remote and the job that it makes
-- on the executing box and removes again.
pub mod Sweep
pub mod Cleanup
use joulenap.Prelude.{
  hex_value, hex_code, ℕ, zero, suc, ◌+◌, ◌-◌, ◌*◌, Bool, true, false, ◌&&◌, ◌||◌, Option, none,
  some, List, [], ◌∷◌, ◌++◌, filter, Text, codes, text_eq, any, is_empty, leb, ltb, ◌==◌,
  if◌then◌else◌, contains, starts_with,
}
use joulenap.Config.{pull, push, PbsDevice, Route, Config, find_pbs}
use joulenap.Effects.{
  Failure, task_error, localized_error, other_exception, sync_step, info, warn, Env, Action, pure,
  raise, attempt, ensure, ◌>>=◌, ◌>>◌, ask_clock,
}
use joulenap.Remote.{
  tasks_read, sync_names_read, sync_job_deleted, remote_deleted, remote_ensured, sync_job_ensured,
  sync_job_run, task_log_read,
}
use joulenap.Recorder.{log, set_detail, in_step}
use joulenap.Jobs.Clients.{RemoteConfig, SyncJob, Clients, ask}
use joulenap.Jobs.Tasks.{no_watch, wait_or_stop, sleep}
use joulenap.Jobs.Steps.{required, connect}

-- The character that `\xNN` stands for.
abbrev decode : ℕ → ℕ → ℕ → ℕ → Option ℕ
decode slash x a b = if slash == 92 && x == 120 then hex_code (hex_value a) (hex_value b) else none

-- `unescape_upid` of connectors/pbs.py
unfoldable pub unescape_upid : Text → Text
unescape_upid (s ∷ x ∷ a ∷ b ∷ t) = elim (decode s x a b) [
  | some c ↦ c ∷ unescape_upid t
  | none ↦ s ∷ unescape_upid (x ∷ a ∷ b ∷ t)
]
unescape_upid t = t

-- The order of texts by their code points.
unfoldable pub text_ltb : Text → Text → Bool
text_ltb _ [] = false
text_ltb [] (d ∷ t) = true
text_ltb (c ∷ s) (d ∷ t) = ltb c d || (c == d && text_ltb s t)

-- The set of the names, in the order of `sorted`.
unfoldable pub insert_name : Text → List Text → List Text
insert_name n [] = n ∷ []
insert_name n (m ∷ names) =
    let rest = insert_name n names in
    if text_eq n m then m ∷ names else if text_ltb n m then n ∷ m ∷ names else m ∷ rest

unfoldable pub sort_names : List Text → List Text
unfolding insert_name
sort_names [] = []
sort_names (n ∷ names) = insert_name n (sort_names names)

abbrev pub ours : Text
ours = codes "joulenap-"

abbrev pub is_named : Text → List Text → Bool
is_named n = any (text_eq n)

-- The names of Joulenap's own objects, out of those of the jobs and the remotes.
unfoldable pub stale_names : List Text → List Text → List Text
unfolding sort_names
stale_names jobs remotes = filter (starts_with ours) (sort_names (jobs ++ remotes))

abbrev upid_text : Option Text → Text
upid_text none = []
upid_text (some upid) = unescape_upid upid

unfoldable pub busy_text : List (Option Text) → Text
unfolding unescape_upid
busy_text [] = []
busy_text (t ∷ []) = upid_text t
busy_text (t ∷ u ∷ tasks) = upid_text t ++ codes " " ++ busy_text (u ∷ tasks)

-- The name of the pair that the run of a route makes.
abbrev pub pair_name : Route → Text
pair_name route = ours ++ route.id

-- Only the reason's text is at stake.
abbrev sync_failed : Failure → Failure
sync_failed (task_error status) = localized_error (codes "sync_failed")
sync_failed e = e

abbrev is_task_error : Failure → Bool
is_task_error (task_error status) = true
is_task_error _ = false

module _ (env : Env) (far : Clients) where
  unfoldable pub drop_pair : PbsDevice → Text → Action (Unit {0})
  drop_pair pbs name = do
    ask (sync_job_deleted pbs.id name) (far.delete_sync_job pbs name)
    ask (remote_deleted pbs.id name) (far.delete_remote pbs name)

  abbrev pub wait_turn : ℕ → Action (Unit {0}) → Action (Unit {0})
  wait_turn deadline later = do
    now ← ask_clock env
    if leb deadline now then log env warn else (do sleep env far 5000; later)

  abbrev pub succeeded : Action (Unit {0}) → Action Bool
  succeeded m = attempt (do m; pure true) (λ e. pure false)

  abbrev pub unless : Bool → Action (Unit {0}) → Action (Unit {0})
  unless b m = if b then pure tt else m

  -- The loop of `_drop_sync_config`.
  unfoldable pub drop_until : PbsDevice → Text → ℕ → ℕ → Action (Unit {0})
  unfolding drop_pair
  drop_until pbs name deadline zero = raise (other_exception (codes "outlasted"))
  drop_until pbs name deadline (suc fuel) = do
    let later = drop_until pbs name deadline fuel
    gone ← succeeded (drop_pair pbs name)
    unless gone (wait_turn deadline later)

  -- `_drop_sync_config`
  unfoldable pub drop_sync_config : PbsDevice → Text → ℕ → Action (Unit {0})
  unfolding drop_until
  drop_sync_config pbs name fuel = do now ← ask_clock env; drop_until pbs name (now + 60000) fuel

  -- One name of the sweep.
  unfoldable pub sweep_name : PbsDevice → List Text → List Text → Text → Action (Unit {0})
  sweep_name pbs jobs remotes name = do
    if is_named name jobs
        then ask (sync_job_deleted pbs.id name) (far.delete_sync_job pbs name)
        else pure tt
    if is_named name remotes
        then ask (remote_deleted pbs.id name) (far.delete_remote pbs name)
        else pure tt
    log env info

  unfoldable pub sweep_names :
      PbsDevice → List Text → List Text → Text → Text → List Text → Action (Unit {0})
  unfolding sweep_name
  sweep_names pbs jobs remotes keep busy [] = pure tt
  sweep_names pbs jobs remotes keep busy (name ∷ names) = do
    if text_eq name keep || contains name busy then pure tt else sweep_name pbs jobs remotes name
    sweep_names pbs jobs remotes keep busy names

  abbrev pub sweep_stale : PbsDevice → List Text → List Text → Text → List Text → Action (Unit {0})
  sweep_stale pbs jobs remotes keep stale = do
    tasks ← ask (tasks_read pbs.id) (far.active_tasks pbs)
    if contains keep (busy_text tasks) then log env warn else pure tt
    sweep_names pbs jobs remotes keep (busy_text tasks) stale

  -- `_sweep_sync_config`
  unfoldable pub sweep_sync_config : PbsDevice → Text → Action (Unit {0})
  unfolding stale_names busy_text sweep_names
  sweep_sync_config pbs keep =
      attempt
        (do
          names ← ask (sync_names_read pbs.id) (far.sync_config_names pbs)
          if is_empty (stale_names names.0 names.1)
              then pure tt
              else sweep_stale pbs names.0 names.1 keep (stale_names names.0 names.1))
        (λ e. log env warn)

  -- The task's log is read for the reason; a log that cannot be read gives none.
  unfoldable pub task_reason : Text → Action (Unit {0})
  task_reason upid =
      attempt (do lines ← ask (task_log_read upid) (far.task_log upid); pure tt) (λ e. pure tt)

  unfoldable pub run_pair : PbsDevice → Text → Action (Unit {0})
  unfolding task_reason
  run_pair executor name = do
    upid ← ask (sync_job_run executor.id name) (far.run_sync_job executor name)
    set_detail upid
    attempt (wait_or_stop env far upid no_watch)
        (λ e. do if is_task_error e then task_reason upid else pure tt; raise (sync_failed e))

  abbrev remote_of : PbsDevice → RemoteConfig
  remote_of peer = record {
    host = peer.host;
    port = peer.port;
    auth_id = peer.api_token_id;
    password = peer.api_token_secret;
    fingerprint = peer.fingerprint;
  }

  abbrev job_of : Route → PbsDevice → PbsDevice → SyncJob
  job_of route executor peer = record {
    remote_store = peer.datastore;
    store = executor.datastore;
    pushes = elim route.sync_direction [ push ↦ true | pull ↦ false ];
    owner = executor.api_token_id;
    transfer_last = route.options.transfer_last;
    remove_vanished = route.options.remove_vanished;
    rate = route.options.bwlimit;
    worker_threads = route.options.worker_threads;
  }

  -- The block of the step, on the box that does the work.
  unfoldable pub sync_pair : Route → PbsDevice → PbsDevice → ℕ → Action (Unit {0})
  unfolding sweep_sync_config run_pair drop_sync_config
  sync_pair route executor peer fuel = do
    let name = pair_name route
    log env info
    connect env far executor.id
    sweep_sync_config executor name
    ask (sync_job_deleted executor.id name) (far.delete_sync_job executor name)
    ask (remote_ensured executor.id name) (far.ensure_remote executor name (remote_of peer))
    ask (sync_job_ensured executor.id name)
        (far.ensure_sync_job executor name (job_of route executor peer))
    ensure (run_pair executor name) (drop_sync_config executor name fuel)

  -- The executing box and the other one.
  abbrev pub swap_pair : Route → PbsDevice → PbsDevice → PbsDevice × PbsDevice
  swap_pair route source target = elim route.sync_direction [
    | push ↦ (source, target)
    | pull ↦ (target, source)
  ]

  -- `_sync_body` up to its maintenance.
  unfoldable pub sync : Config → Route → PbsDevice → ℕ → Action (Unit {0})
  unfolding sync_pair
  sync config route target fuel = do
    source ← required (codes "pbs_missing") (find_pbs route.source_pbs config.pbss)
    let pair = swap_pair route source target
    in_step env sync_step none (sync_pair route pair.0 pair.1 fuel)
