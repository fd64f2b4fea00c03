-- ===== src/Examples/JobsCases.antt =====
-- The cycles on a server with two guests on two nodes, one of whose tasks fails, and a box that
-- always answers.
use joulenap.Prelude.{
  ℕ, ◌+◌, ◌≡◌, refl, Bool, false, none, some, [], ◌∷◌, Text, codes, lookup, is_empty, text_eq,
  if◌then◌else◌, ◌⊎◌, inl, inr, Bool-cases, All, arith, after_prefix, starts_with, read_digits,
}
use joulenap.Config.{PveDevice, backup, all, RouteGuests, RouteSource, Route, Config, route_of}
use joulenap.Effects.{task_error, cycle_cancelled, ok, err, Event, Trace, World, Env}
use joulenap.Remote.{slept}
use joulenap.Lease.Release.{commands}
use joulenap.Service.{QueuedRun}
use joulenap.Execute.Frame.{AllFree}
use joulenap.Jobs.Clients.{Guest, DatastoreStatus, batch, Waited, Clients}
use joulenap.Jobs.Guests.{guests_by_node, vzdump_failed}
use joulenap.Jobs.Guests.Grouping.{wanted_on, lookup-guests_by_node}
use joulenap.Jobs.Backup.{backup_sources}
use joulenap.Jobs.Sync.{drop_sync_config, sweep_sync_config, unescape_upid}
use joulenap.Jobs.Sync.Sweep.{Harmless, sweep_sync_config-Harmless}
use joulenap.Jobs.Sync.Cleanup.{IsSteady, IsDropped, drop_sync_config-returns}
use joulenap.Effects.Adds.{Adds}
use joulenap.Jobs.Routes.{run_route}
use joulenap.Jobs.Runs.{run_queued, run_queued-AllFree, run_queued-Quiet}
use joulenap.Jobs.Answer.{IsAnswer, run_route-IsAnswer}
use joulenap.Effects.Blames.{Cancelled}
use joulenap.Jobs.Blames.{AreHonest}
use joulenap.Jobs.Turns.{HasTurn, backup_sources-HasTurn}
use joulenap.Examples.{box, config, env, free, gc_entry, mirror_run}

abbrev server : PveDevice
server = record {
  id = codes "pve";
  host = codes "10.0.0.2";
  port = 8006;
  verify_tls = false;
  api_token_id = codes "root@pam!j";
  api_token_secret = codes "s";
  storages = (codes "main", codes "nas") ∷ [];
}

abbrev web : Guest
web = record { vmid = 100; name = codes "web"; node = codes "n1" }

abbrev mail : Guest
mail = record { vmid = 101; name = codes "mail"; node = codes "n2" }

abbrev pool : DatastoreStatus
pool = record { total = 1000; used = 400; avail = 600 }

-- The task of node `n2` fails.
abbrev waited : Text → Waited
waited upid =
    if text_eq upid (codes "n2")
    then record {
      heard = batch ((1, codes "ERROR: Backup of VM 101 failed - timeout") ∷ []) ∷ [];
      ended = err (task_error (some (codes "job errors")));
    }
    else record { heard = []; ended = ok tt }

abbrev far : Clients
far = record {
  connect = λ id t. ok tt;
  list_guests = λ pve t. ok (web ∷ mail ∷ []);
  vzdump = λ pve asked t. ok asked.node;
  wait_task = λ upid t. waited upid;
  stop_task = λ upid t. ok tt;
  datastore_status = λ pbs t. ok pool;
  start_gc = λ pbs t. ok (codes "gc");
  start_verify = λ pbs ignored outdated t. ok (codes "verify");
  start_prune = λ pbs retention t. ok (codes "prune");
  latest_backups = λ pbs t. ok ((100, 7) ∷ []);
  active_tasks = λ pbs t. ok [];
  sync_config_names = λ pbs t. ok (codes "joulenap-old" ∷ [], codes "joulenap-old" ∷ []);
  delete_sync_job = λ pbs name t. ok tt;
  delete_remote = λ pbs name t. ok tt;
  ensure_remote = λ pbs name r t. ok tt;
  ensure_sync_job = λ pbs name j t. ok tt;
  run_sync_job = λ pbs name t. ok (codes "sync");
  task_log = λ upid t. ok [];
  save_stat = λ pbs ds t. ok tt;
  save_backups = λ pbs rows t. ok tt;
}

abbrev everything : RouteGuests
everything = record { mode = all; list = [] }

abbrev cluster : RouteSource
cluster = record { pve = codes "pve"; guests = everything }

abbrev site : Config
site = record config { pves = server ∷ [] }

abbrev daily : Route
daily = route_of (codes "daily") backup (cluster ∷ []) [] (codes "main")

run_queued-AllFree_example : AllFree (run_queued env far 20 config mirror_run free).1
unfolding lookup
run_queued-AllFree_example =
    run_queued-AllFree env far 20 config mirror_run free (λ t. refl) (λ k. refl)

abbrev calm_entry : QueuedRun
calm_entry = record gc_entry { power_off = false }

run_queued-Quiet_example :
    commands (run_queued env far 20 config calm_entry free).1.trace ≡ commands free.trace
run_queued-Quiet_example = run_queued-Quiet env far 20 config calm_entry free refl

run_route-IsAnswer_example :
    (speaks : Bool) × (v : World) × (run_route env far 20 site daily free ≡ (ok speaks, v))
    × IsAnswer speaks v
run_route-IsAnswer_example = run_route-IsAnswer env far 20 site daily free (λ t. refl) refl

waited-ends :
    (upid : Text)
    → ((waited upid).ended ≡ ok tt)
      ⊎ ((waited upid).ended ≡ err (task_error (some (codes "job errors"))))
waited-ends upid = elim (Bool-cases (text_eq upid (codes "n2"))) [
  | inl e ↦ inr (rw e refl)
  | inr e ↦ inl (rw e refl)
]

far-AreHonest : AreHonest env far
far-AreHonest = record {
  connect = λ id t e. cc;
  list_guests = λ pve t e. cc;
  vzdump = λ pve asked t e. cc;
  waits = λ upid t e. elim (waited-ends upid) [ inl p ↦ cc | inr p ↦ cc ];
  cancelled_waits =
      λ upid t e. elim (waited-ends upid) [ inl p ↦ absurd (cc) | inr p ↦ absurd (cc) ];
}

backup_sources-HasTurn_example :
    ((v : World) × (backup_sources env far site daily (cluster ∷ cluster ∷ []) free ≡ (ok tt, v))
      × All (HasTurn site daily free v) (cluster ∷ cluster ∷ []))
    ⊎ ((v : World) × (backup_sources env far site daily (cluster ∷ cluster ∷ []) free
          ≡ (err cycle_cancelled, v))
        × Cancelled env free v)
backup_sources-HasTurn_example =
    backup_sources-HasTurn env far site daily (cluster ∷ cluster ∷ []) free (λ t. refl)
      far-AreHonest

lookup-guests_by_node_example :
    lookup (codes "n2") (guests_by_node everything (web ∷ mail ∷ [])) ≡ (
      if is_empty (wanted_on everything (codes "n2") (web ∷ mail ∷ []))
      then none
      else some (wanted_on everything (codes "n2") (web ∷ mail ∷ [])))
lookup-guests_by_node_example = lookup-guests_by_node everything (codes "n2") (web ∷ mail ∷ [])

sweep_sync_config-Harmless_example :
    Adds
      (Harmless far box (codes "joulenap-mirror"))
      free
      (sweep_sync_config env far box (codes "joulenap-mirror") free).1
sweep_sync_config-Harmless_example =
    sweep_sync_config-Harmless env far box (codes "joulenap-mirror") free

-- A clock on which a sleep takes its time and any other call a millisecond.
ticks : Event → ℕ
ticks (Event.remote (slept n)) = n
ticks _ = 1

elapsed : Trace → ℕ
unfolding ticks
elapsed [] = 0
elapsed (e ∷ t) = elapsed t + ticks e

abbrev timed_env : Env
timed_env = record env { clock = elapsed }

timed_env-IsSteady : IsSteady timed_env
unfolding elapsed ticks
timed_env-IsSteady = record { onward = λ e t. omega arith; rests = λ n t. omega arith }

drop_sync_config-returns_example :
    (v : World) × (drop_sync_config timed_env far box (codes "joulenap-m") 13 free ≡ (ok tt, v))
    × IsDropped timed_env far box (codes "joulenap-m") (timed_env.clock free.trace + 60000) v
drop_sync_config-returns_example =
    drop_sync_config-returns timed_env far box (codes "joulenap-m") free (λ t. refl)
      timed_env-IsSteady

-- Tests.
failed_test : vzdump_failed (codes "x ERROR: Backup of VM 101 failed - timeout") ≡ some 101
unfolding vzdump_failed after_prefix starts_with read_digits
failed_test = refl

unescape_test : unescape_upid (codes "joulenap\\x2dr1\\x3as") ≡ codes "joulenap-r1:s"
unfolding unescape_upid
unescape_test = refl
