-- ===== src/Jobs/Clients.antt =====
-- The clients that backend/app/jobs is given (`CycleDeps`, the methods of PveClient and PbsClient,
-- the tables of the history database): each answers by the calls made before. A failing call may
-- raise anything.
use joulenap.Prelude.{
  ℕ, suc, Bool, Option, none, some, List, [], ◌∷◌, Text, codes, decimal, join_texts, ◌==◌, ◌++◌,
  ltb, if◌then◌else◌, ◌*◌, ◌/◌, ◌%◌,
}
use joulenap.Config.{RetentionConfig, PveDevice, PbsDevice, BackupMode, ChangeDetectionMode}
use joulenap.Effects.{Result, Event, Trace, Action, call}
use joulenap.Remote.{Call}

-- connectors/pve.py
pub record Guest : Type 0 where
  pub vmid : ℕ
  pub name : Text
  pub node : Text

-- connectors/pbs.py
pub record DatastoreStatus : Type 0 where
  pub total : ℕ
  pub used : ℕ
  pub avail : ℕ

-- `round(part / whole * 100, 1)` in tenths: half to even, on the exact quotient.
abbrev pub tenths : ℕ → ℕ → ℕ
tenths part whole =
    let q = part * 1000 / whole in
    let r = part * 1000 % whole in
    if ltb (r * 2) whole
    then q
    else if ltb whole (r * 2)
    then suc q
    else if q % 2 == 0
    then q
    else suc q

-- `avail_pct`, in tenths of a percent.
unfoldable pub avail_tenths : DatastoreStatus → ℕ
avail_tenths ds = if ds.total == 0 then 0 else tenths ds.avail ds.total

-- The arguments of `PveClient.vzdump`.
pub record VzdumpRequest : Type 0 where
  pub storage : Text
  pub node : Text
  pub vmids : Option (List ℕ)
  pub all_guests : Bool
  pub exclude : Option (List ℕ)
  pub mode : BackupMode
  pub prune_backups : Option Text
  pub bwlimit : ℕ
  pub change_detection_mode : ChangeDetectionMode

abbrev keep_part : Text → ℕ → List Text → List Text
keep_part key n rest = if n == 0 then rest else (key ++ codes "=" ++ decimal n) ∷ rest

-- `build_prune_string`
unfoldable pub build_prune_string : RetentionConfig → Option Text
build_prune_string r =
    elim (keep_part (codes "keep-last") r.keep_last (
      keep_part (codes "keep-daily") r.keep_daily (
        keep_part (codes "keep-weekly") r.keep_weekly (
          keep_part (codes "keep-monthly") r.keep_monthly
            (keep_part (codes "keep-yearly") r.keep_yearly []))))) [
              | [] ↦ none
              | p ∷ ps ↦ some (join_texts (codes ",") (p ∷ ps))
            ]

-- What `wait_task` reports while it waits: a batch of log lines to `on_log`, or a lost contact to
-- `on_error`.
pub data Heard : Type 0 where
  batch : List (ℕ × Text) → Heard
  lost : Heard

pub record Waited : Type 0 where
  pub heard : List Heard
  pub ended : Result (Unit {0})

-- `ensure_remote`
pub record RemoteConfig : Type 0 where
  pub host : Text
  pub port : ℕ
  pub auth_id : Text
  pub password : Text
  pub fingerprint : Text

-- `ensure_sync_job`, with its remote, whose name it has, left out.
pub record SyncJob : Type 0 where
  pub remote_store : Text
  pub store : Text
  pub pushes : Bool
  pub owner : Text
  pub transfer_last : ℕ
  pub remove_vanished : Bool
  pub rate : ℕ
  pub worker_threads : ℕ

pub record Clients : Type 0 where
  pub connect : Text → Trace → Result (Unit {0})
  pub list_guests : PveDevice → Trace → Result (List Guest)
  pub vzdump : PveDevice → VzdumpRequest → Trace → Result Text
  pub wait_task : Text → Trace → Waited
  pub stop_task : Text → Trace → Result (Unit {0})
  pub datastore_status : PbsDevice → Trace → Result DatastoreStatus
  pub start_gc : PbsDevice → Trace → Result Text
  pub start_verify : PbsDevice → Bool → Option ℕ → Trace → Result Text
  pub start_prune : PbsDevice → RetentionConfig → Trace → Result Text
  pub latest_backups : PbsDevice → Trace → Result (List (ℕ × ℕ))
  pub active_tasks : PbsDevice → Trace → Result (List (Option Text))
  pub sync_config_names : PbsDevice → Trace → Result (List Text × List Text)
  pub delete_sync_job : PbsDevice → Text → Trace → Result (Unit {0})
  pub delete_remote : PbsDevice → Text → Trace → Result (Unit {0})
  pub ensure_remote : PbsDevice → Text → RemoteConfig → Trace → Result (Unit {0})
  pub ensure_sync_job : PbsDevice → Text → SyncJob → Trace → Result (Unit {0})
  pub run_sync_job : PbsDevice → Text → Trace → Result Text
  pub task_log : Text → Trace → Result (List (ℕ × Text))
  pub save_stat : PbsDevice → DatastoreStatus → Trace → Result (Unit {0})
  pub save_backups : PbsDevice → List (Text × List (ℕ × ℕ)) → Trace → Result (Unit {0})  -- one transaction

unfoldable pub ask {ℓ} : {A : Type ℓ} → Call → (Trace → Result A) → Action A
unfolding call
ask c answer = call (Event.remote c) answer
