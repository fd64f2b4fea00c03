-- ===== src/Examples.antt =====
-- A small installation on which the theorems are tried: one box with two datastores, another box,
-- an environment in which a box answers once a packet was sent, and every call succeeds.
mod LeaseCases
mod ServiceCases
mod ExecuteCases
mod RateLimitCases
mod WolTargetCases
mod ReachableCases
mod PollingCases
mod SecretsCases
mod JobsCases
mod SchedulerCases
mod ApplyCases
mod MigrateCases
use joulenap.Prelude.{
  ℕ, zero, suc, ◌≡◌, refl, Bool, true, false, none, some, List, [], ◌∷◌, Text, Dict, codes, lookup,
  length, ltb,
}
use joulenap.Config.{PbsDevice, verify, sync, Route, Config, pbs_device, route_of}
use joulenap.Effects.{ok, LeaseState, Trace, World, Env}
use joulenap.Remote.{new_cycle}
use joulenap.Lease.Wake.{packets}
use joulenap.Recorder.{new_run}
use joulenap.Service.{
  manual, sync_run, gc_run, run_route_job, maintenance_job, gc_action, QueuedRun,
}

abbrev pub box : PbsDevice
box = pbs_device (codes "main") (codes " NAS.lan ") (codes "AA:BB:CC:DD:EE:FF")

-- A second datastore of the same machine.
abbrev pub box_too : PbsDevice
box_too = pbs_device (codes "archive") (codes "nas.LAN") (codes "AA:BB:CC:DD:EE:FF")

abbrev pub other_box : PbsDevice
other_box = pbs_device (codes "offsite") (codes "10.0.0.9") (codes "AA:BB:CC:DD:EE:00")

-- A box that is put to sleep without waiting for its tasks.
abbrev pub hasty_box : PbsDevice
hasty_box = record box { poweroff_task_wait = 0 }

abbrev pub nightly : Route
nightly = route_of (codes "nightly") verify [] [] (codes "main")

abbrev pub mirror : Route
mirror = route_of (codes "mirror") sync [] (codes "offsite") (codes "main")

abbrev pub config : Config
config = record {
  pves = [];
  pbss = box ∷ box_too ∷ other_box ∷ [];
  routes = nightly ∷ mirror ∷ [];
  scheduler_enabled = true;
  retention_days = 90;
}

abbrev pub mirror_run : QueuedRun
mirror_run = record {
  key = codes "mirror";
  trigger = manual;
  kind = sync_run;
  job = run_route_job;
  route_id = some (codes "mirror");
  pbs_id = none;
  power_off = true;
  run_id = none;
}

abbrev pub gc_entry : QueuedRun
gc_entry = record {
  key = codes "pbs:main:gc";
  trigger = manual;
  kind = gc_run;
  job = maintenance_job gc_action;
  route_id = none;
  pbs_id = some (codes "main");
  power_off = true;
  run_id = none;
}

abbrev pub env : Env
env = record {
  send_wol = λ d t. ok tt;
  wait_reachable = λ d timeout cancellable t. ok (ltb 0 (packets t));
  wait_idle = λ d t. ok true;
  power_off = λ d t. ok tt;
  pending = λ t. [];
  cancelled = λ t. false;
  cancel_power_off = λ t. false;
  clock = λ t. length t;
  commit = λ t. ok tt;
  notify = λ left t. ok tt;
}

abbrev pub world : Dict LeaseState → World
world machines = record {
  trace = [];
  machines = machines;
  run = new_run;
  saved = new_run;
  finished = false;
  held = [];
  cycle = new_cycle;
}

abbrev pub free : World
free = world []

-- The box is held by one run.
abbrev pub held_once : World
held_once = world ((codes "nas.lan", record { holders = 1; was_awake = false }) ∷ [])
