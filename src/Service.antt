-- ===== src/Service.antt =====
-- backend/app/jobs/service.py: the run queue of `JobService`, without the runs themselves (see
-- Execute). What a method does under `_state_lock` is one step here. `cancel` takes no lock: its
-- guard and what it does past it are definitions of their own, which Service.Sessions interleaves
-- with the other threads. Threads are represented by `worker` (the drain thread is alive) and
-- `locked` (somebody holds the single-run lock).
pub mod Queue
pub mod Sessions
pub mod Phases
pub mod Invariant
pub mod Resolve
pub mod Machines
use joulenap.Prelude.{
  ℕ, zero, suc, ◌+◌, Bool, true, false, not, ◌&&◌, ◌||◌, Option, none, some, List, [], ◌∷◌, ◌++◌,
  map, Text, codes, Dict, any, find, filter, length, text_eq, is_empty, lookup, insert, ◌==◌,
  if◌then◌else◌,
}
use joulenap.Config.{
  PbsDevice, RouteKind, backup, sync, external, verify, other_kind, Route, Config, find_pbs,
  find_route,
}
use joulenap.Lease.{lease_key}

-- `db/models.py`
pub data RunTrigger : Type 0 where
  manual scheduled : RunTrigger

pub data RunKind : Type 0 where
  cycle gc_run verify_run monitor_run sync_run : RunKind

-- What a queued run does: `run_route`, or `run_pbs_maintenance` with its action.
pub data Action : Type 0 where
  gc_action verify_action : Action

pub data CycleJob : Type 0 where
  run_route_job : CycleJob
  maintenance_job : Action → CycleJob

pub record QueuedRun : Type 0 where
  pub key : Text
  pub trigger : RunTrigger
  pub kind : RunKind
  pub job : CycleJob
  pub route_id : Option Text
  pub pbs_id : Option Text
  pub power_off : Bool
  pub run_id : Option ℕ

pub record JobService : Type 0 where
  pub queue : List QueuedRun
  pub current : Option QueuedRun
  pub worker : Bool
  pub locked : Bool
  pub cancel_set : Bool
  pub cancel_power_off : Bool
  pub current_run_id : Option ℕ

abbrev pub new_service : JobService
new_service = record {
  queue = [];
  current = none;
  worker = false;
  locked = false;
  cancel_set = false;
  cancel_power_off = false;
  current_run_id = none;
}

pub data ServiceError : Type 0 where
  already_running already_queued unknown_subject unknown_action no_thread : ServiceError

pub data Reply {ℓ} (A : Type ℓ) : Type ℓ where
  done : A → Reply A
  refused : ServiceError → Reply A

abbrev pub same_key : Text → QueuedRun → Bool
same_key key item = text_eq item.key key

abbrev pub is_some {ℓ} : {A : Type ℓ} → Option A → Bool
is_some none = false
is_some (some a) = true

is_current : Text → Option QueuedRun → Bool
is_current key none = false
is_current key (some item) = same_key key item

-- `thread_starts` is whether the system can start the drain thread.
unfoldable pub enqueue : Bool → QueuedRun → JobService → Reply ℕ × JobService
unfolding is_current
enqueue thread_starts item s =
    if is_current item.key s.current
    then (refused already_running, s)
    else if any (same_key item.key) s.queue
    then (refused already_queued, s)
    else if not s.worker && not thread_starts
    then (refused no_thread, s)
    else (
      done (length s.queue + (if is_some s.current || s.locked then 1 else 0)),
      record s { worker = true; queue = s.queue ++ item ∷ [] },
    )

-- `RUN_KINDS.get(route.kind, RunKind.CYCLE)` (jobs/route_cycle.py)
pub run_kind : RouteKind → RunKind
run_kind backup = cycle
run_kind sync = sync_run
run_kind external = monitor_run
run_kind verify = verify_run
run_kind (other_kind k) = cycle

unfoldable pub run_route :
    Config → Bool → Text → RunTrigger → Bool → JobService → Reply ℕ × JobService
unfolding run_kind
run_route config thread_starts route_id trigger power_off s =
    elim (find_route route_id config.routes) [
      | none ↦ (refused unknown_subject, s)
      | some route ↦
          enqueue thread_starts
            (record {
              key = route.id;
              trigger = trigger;
              kind = run_kind route.kind;
              job = run_route_job;
              route_id = some route.id;
              pbs_id = none;
              power_off = power_off;
              run_id = none;
            })
            s
    ]

action_of : Text → Option Action
action_of action =
    if text_eq action (codes "gc")
    then some gc_action
    else if text_eq action (codes "verify")
    then some verify_action
    else none

kind_of : Action → RunKind
kind_of gc_action = gc_run
kind_of verify_action = verify_run

unfoldable pub maintenance_key : Text → Text → Text
maintenance_key pbs_id action = codes "pbs:" ++ (pbs_id ++ (codes ":" ++ action))

unfoldable pub run_maintenance :
    Config → Bool → Text → Text → RunTrigger → Bool → JobService → Reply ℕ × JobService
unfolding action_of kind_of
run_maintenance config thread_starts pbs_id action trigger power_off s = elim (action_of action) [
  | none ↦ (refused unknown_action, s)
  | some act ↦ elim (find_pbs pbs_id config.pbss) [
    | none ↦ (refused unknown_subject, s)
    | some device ↦
        enqueue thread_starts
          (record {
            key = maintenance_key pbs_id action;
            trigger = trigger;
            kind = kind_of act;
            job = maintenance_job act;
            route_id = none;
            pbs_id = some pbs_id;
            power_off = power_off;
            run_id = none;
          })
          s
  ]
]

-- The first entry of that key.
unfoldable pub remove_first : Text → List QueuedRun → List QueuedRun
remove_first key [] = []
remove_first key (item ∷ rest) =
    let later = remove_first key rest in if same_key key item then rest else item ∷ later

unfoldable pub dequeue : Text → JobService → Bool × JobService
dequeue key s = (any (same_key key) s.queue, record s { queue = remove_first key s.queue })

is_id : ℕ → Option ℕ → Bool
is_id run_id none = false
is_id run_id (some id) = id == run_id

-- `self._current_run_id == run_id`
unfoldable pub is_in_flight : ℕ → JobService → Bool
unfolding is_id
is_in_flight run_id s = is_id run_id s.current_run_id

-- What `cancel` does once past its guard.
unfoldable pub set_cancel : Bool → JobService → JobService
set_cancel power_off s = record s { cancel_power_off = power_off; cancel_set = true }

-- `cancel` with nothing in between.
unfoldable pub cancel : ℕ → Bool → JobService → Bool × JobService
unfolding is_in_flight set_cancel
cancel run_id power_off s =
    if not (is_in_flight run_id s) || not s.locked
    then (false, s)
    else (true, set_cancel power_off s)

-- `exclusive` on its way in and out.
unfoldable pub enter_exclusive : JobService → Reply (Unit {0}) × JobService
enter_exclusive s =
    if s.locked then (refused already_running, s) else (done tt, record s { locked = true })

unfoldable pub unlock : JobService → JobService
unlock s = record s { locked = false }

-- `_drain` under `_state_lock`: the next entry, or the end of the thread.
unfoldable pub take_next : JobService → Option QueuedRun × JobService
take_next s = elim s.queue [
  | [] ↦ (none, record s { worker = false })
  | item ∷ rest ↦ (some item, record s { queue = rest; current = some item })
]

-- `_drain` when the entry is done, however it ended.
unfoldable pub end_current : JobService → JobService
end_current s = record s { current = none; current_run_id = none }

-- How `_execute` ended: an exception of it is logged.
pub data Ending : Type 0 where
  returned raised : Ending

-- What executing an entry makes of the service, with all that other threads do in the meantime.
abbrev pub Executing : Type 0
Executing = QueuedRun → JobService → Ending × JobService

-- The body of the loop of `_drain`, past the `except` and the `finally`.
unfoldable pub execute_entry : Executing → QueuedRun → JobService → Ending × JobService
unfolding end_current
execute_entry execute item s = let (ending, s') = execute item s in (ending, end_current s')

-- The loop of `_drain`: the entries that it executes, and how each of them ended. Between its
-- entries it holds no lock: what others do then counts as done while the entry before was executed.
unfoldable pub drain : Executing → ℕ → JobService → List (QueuedRun × Ending) × JobService
unfolding take_next execute_entry
drain execute zero s = ([], s)
drain execute (suc fuel) s =
    let (next, s') = take_next s in
    elim next [
      | none ↦ ([], s')
      | some item ↦
          let (ending, s'') = execute_entry execute item s' in
          let rest = drain execute fuel s'' in ((item, ending) ∷ rest.0, rest.1)
    ]

-- `_start` once the lock is taken: a cancel left over is cleared before the row is written.
unfoldable pub begin_run : JobService → JobService
begin_run s = record s { locked = true; cancel_set = false; cancel_power_off = false }

unfoldable pub name_run : ℕ → JobService → JobService
name_run run_id s = record s { current_run_id = some run_id }

-- `_power_off_policy` and `_left_on_reason`
unfoldable pub power_off_policy : QueuedRun → Bool → Bool → Bool → Bool
power_off_policy item cancelled cancel_off succeeded =
    if not item.power_off then false else if cancelled then cancel_off else succeeded

unfoldable pub left_on_reason : QueuedRun → Bool → Text
left_on_reason item cancelled =
    if not item.power_off || cancelled
    then codes "left_on_by_request"
    else codes "left_on_run_failed"

-- `_resolve`: what the entry is about, and the devices it needs awake, one to a machine.
pub data Subject : Type 0 where
  route_subject : Route → Subject
  pbs_subject : PbsDevice → Subject

unfoldable pub set_default : Text → PbsDevice → Dict PbsDevice → Dict PbsDevice
set_default key d devices = elim (lookup key devices) [
  | none ↦ insert key d devices
  | some _ ↦ devices
]

unfoldable pub collect : Config → List Text → Dict PbsDevice → Option (Dict PbsDevice)
unfolding set_default
collect config [] devices = some devices
collect config (id ∷ ids) devices = elim (find_pbs id config.pbss) [
  | none ↦ none
  | some d ↦ collect config ids (set_default (lease_key d) d devices)
]

abbrev pub needed_ids : Route → List Text
needed_ids route = route.target ∷ (if is_empty route.source_pbs then [] else route.source_pbs ∷ [])

abbrev pub values {ℓ} : {V : Type ℓ} → Dict V → List V
values [] = []
values ((k, v) ∷ d) = v ∷ values d

resolve_route : Config → Option Text → Option (Subject × List PbsDevice)
unfolding collect
resolve_route config none = none
resolve_route config (some route_id) = elim (find_route route_id config.routes) [
  | none ↦ none
  | some route ↦ elim (collect config (needed_ids route) []) [
    | none ↦ none
    | some devices ↦ some (route_subject route, values devices)
  ]
]

unfoldable pub resolve : Config → QueuedRun → Option (Subject × List PbsDevice)
unfolding resolve_route
resolve config item = elim item.pbs_id [
  | some pbs_id ↦ elim (find_pbs pbs_id config.pbss) [
    | none ↦ none
    | some d ↦ some (pbs_subject d, d ∷ [])
  ]
  | none ↦ resolve_route config item.route_id
]

-- `_pending_pbs_keys`
abbrev pub truthy : Option Text → List Text
truthy none = []
truthy (some id) = if is_empty id then [] else id ∷ []

abbrev pub named_pbss : List QueuedRun → List Text
named_pbss [] = []
named_pbss (item ∷ rest) = truthy item.pbs_id ++ named_pbss rest

abbrev pub named_routes : List QueuedRun → List Text
named_routes [] = []
named_routes (item ∷ rest) = truthy item.route_id ++ named_routes rest

abbrev pub contains : Text → List Text → Bool
contains id = any (λ j. text_eq j id)

abbrev pub route_pbss : List Text → List Route → List Text
route_pbss queued [] = []
route_pbss queued (route ∷ rest) =
    let later = route_pbss queued rest in
    if contains route.id queued then needed_ids route ++ later else later

unfoldable pub pending_pbs_keys : Config → List QueuedRun → List Text
pending_pbs_keys config pending =
    let ids = named_pbss pending ++ route_pbss (named_routes pending) config.routes in
    map lease_key (filter (λ (d : PbsDevice). contains d.id ids) config.pbss)
