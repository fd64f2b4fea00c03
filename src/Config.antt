-- ===== src/Config.antt =====
-- backend/app/config.py: the devices and routes of a configuration. The sections that no modelled
-- code reads (the web application's, the channels') are left out of `Config`.
pub mod Validation
use joulenap.Prelude.{ℕ, Bool, true, false, List, [], ◌∷◌, Text, codes, Dict, find, text_eq, Option}

-- `power_action`
pub data PowerAction : Type 0 where
  power_down suspend : PowerAction

-- `kind`; `other_kind` is a value past the four that the validator allows.
pub data RouteKind : Type 0 where
  backup sync external verify : RouteKind
  other_kind : Text → RouteKind

pub data GuestMode : Type 0 where
  all include exclude : GuestMode

pub data SyncDirection : Type 0 where
  pull push : SyncDirection

pub record RetentionConfig : Type 0 where
  pub keep_last : ℕ
  pub keep_daily : ℕ
  pub keep_weekly : ℕ
  pub keep_monthly : ℕ
  pub keep_yearly : ℕ

pub record PveDevice : Type 0 where
  pub id : Text
  pub host : Text
  pub port : ℕ
  pub verify_tls : Bool
  pub api_token_id : Text
  pub api_token_secret : Text
  pub storages : Dict Text

pub record PbsExternalConfig : Type 0 where
  pub first_task_wait : ℕ
  pub idle_wait : ℕ

pub record PbsDevice : Type 0 where
  pub id : Text
  pub host : Text
  pub port : ℕ
  pub datastore : Text
  pub fingerprint : Text
  pub api_token_id : Text
  pub api_token_secret : Text
  pub task_silence_timeout : ℕ
  pub managed_power : Bool
  pub mac : Text
  pub wol_broadcast_iface : Text
  pub wait_timeout : ℕ
  pub wol_retries : ℕ
  pub poweroff_task_wait : ℕ
  pub power_action : PowerAction
  pub ssh_user : Text
  pub ssh_key_path : Text
  pub watch : PbsExternalConfig  -- `external`

pub record RouteGuests : Type 0 where
  pub mode : GuestMode
  pub list : List ℕ

pub record RouteSource : Type 0 where
  pub pve : Text
  pub guests : RouteGuests

pub record RouteSchedule : Type 0 where
  pub time : Text
  pub days : List Bool
  pub cron : Text

pub data BackupMode : Type 0 where
  snapshot suspend_mode stop : BackupMode

pub data ChangeDetectionMode : Type 0 where
  default legacy data_mode metadata : ChangeDetectionMode

pub record RouteOptions : Type 0 where
  pub mode : BackupMode
  pub change_detection_mode : ChangeDetectionMode
  pub bwlimit : ℕ
  pub min_free_percent : ℕ
  pub gc : Bool
  pub verify_after : Bool
  pub reverify_days : ℕ
  pub transfer_last : ℕ
  pub remove_vanished : Bool
  pub worker_threads : ℕ

pub record Route : Type 0 where
  pub id : Text
  pub name : Text
  pub color : Text
  pub enabled : Bool
  pub notify : Bool
  pub kind : RouteKind
  pub sources : List RouteSource
  pub source_pbs : Text
  pub target : Text
  pub schedule : RouteSchedule
  pub retention : RetentionConfig
  pub sync_direction : SyncDirection
  pub options : RouteOptions

pub record Config : Type 0 where
  pub pves : List PveDevice
  pub pbss : List PbsDevice
  pub routes : List Route
  pub scheduler_enabled : Bool
  pub retention_days : ℕ

-- `next((d for d in config.pbss if d.id == id), None)` and its like.
abbrev pub find_pbs : Text → List PbsDevice → Option PbsDevice
find_pbs id = find (λ d. text_eq d.id id)

abbrev pub find_pve : Text → List PveDevice → Option PveDevice
find_pve id = find (λ d. text_eq d.id id)

abbrev pub find_route : Text → List Route → Option Route
find_route id = find (λ r. text_eq r.id id)

-- A device with the defaults of the source, under an id, a host and a MAC.
abbrev pub pbs_device : Text → Text → Text → PbsDevice
pbs_device id host mac = record {
  id = id;
  host = host;
  port = 8007;
  datastore = [];
  fingerprint = [];
  api_token_id = [];
  api_token_secret = [];
  task_silence_timeout = 21600;
  managed_power = true;
  mac = mac;
  wol_broadcast_iface = [];
  wait_timeout = 180;
  wol_retries = 2;
  poweroff_task_wait = 600;
  power_action = power_down;
  ssh_user = codes "root";
  ssh_key_path = codes "/app/data/id_ed25519";
  watch = record { first_task_wait = 900; idle_wait = 300 };
}

abbrev pub default_options : RouteOptions
default_options = record {
  mode = snapshot;
  change_detection_mode = default;
  bwlimit = 0;
  min_free_percent = 0;
  gc = true;
  verify_after = false;
  reverify_days = 30;
  transfer_last = 0;
  remove_vanished = false;
  worker_threads = 1;
}

abbrev pub default_retention : RetentionConfig
default_retention = record {
  keep_last = 0;
  keep_daily = 7;
  keep_weekly = 4;
  keep_monthly = 6;
  keep_yearly = 0;
}

abbrev pub every_day : RouteSchedule
every_day = record {
  time = codes "04:00";
  days = true ∷ true ∷ true ∷ true ∷ true ∷ true ∷ true ∷ [];
  cron = [];
}

-- A route with the defaults of the source.
abbrev pub route_of : Text → RouteKind → List RouteSource → Text → Text → Route
route_of id kind sources source_pbs target = record {
  id = id;
  name = [];
  color = codes "#f5a524";
  enabled = true;
  notify = true;
  kind = kind;
  sources = sources;
  source_pbs = source_pbs;
  target = target;
  schedule = every_day;
  retention = default_retention;
  sync_direction = pull;
  options = default_options;
}
