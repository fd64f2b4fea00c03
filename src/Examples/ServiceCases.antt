-- ===== src/Examples/ServiceCases.antt =====
-- backend/app/jobs/service.py on a queue of two entries.
use joulenap.Prelude.{
  ◌≡◌, ◌&&◌, not, sym, map, if◌then◌else◌, Bool-cases, inl, inr, ◌≤◌, ℕ, false, refl, true, none,
  some, List, [], ◌∷◌, ◌++◌, codes, All, arith, text_eq, lookup, insert, lower, strip,
}
use mathlib.Core.List.{append-nil}
use joulenap.Config.{PbsDevice}
use joulenap.Config.Validation.{check_references, check_routes, check_route, require_unique_ids}
use joulenap.Lease.{lease_key}
use joulenap.Service.{
  QueuedRun, Executing, raised, JobService, new_service, already_running, done, refused, enqueue,
  dequeue, drain, is_in_flight, cancel, set_cancel, take_next, begin_run, name_run, route_subject,
  resolve,
}
use joulenap.Service.Queue.{
  Unique, active, IsEnqueued, enqueue-IsEnqueued, enqueue-Unique, IsDequeued, dequeue-IsDequeued,
  OnlyAppends, drain-executes,
}
use joulenap.Service.Sessions.{
  Session, start, resolving, starting, working, enqueues, takes, begins, names, cancels, sets,
  remove_one, Reach, here, next, Inv,
}
use joulenap.Service.Invariant.{Reach-Inv, cancel_reaches_its_run}
use joulenap.Service.Resolve.{HasNames, IsPending, resolve-IsPending}
use joulenap.Service.Machines.{Distinct, resolve-Distinct, resolve_validated}
use joulenap.Examples.{box, other_box, config, mirror, mirror_run, gc_entry}

abbrev one_queued : JobService
one_queued = record new_service { queue = mirror_run ∷ []; worker = true }

abbrev one_running : JobService
one_running = record new_service { current = some mirror_run; worker = true }

accepted : (enqueue true gc_entry one_queued).0 ≡ done 1
unfolding enqueue text_eq
accepted = refl

enqueue-IsEnqueued_example : IsEnqueued gc_entry one_queued 1 (enqueue true gc_entry one_queued).1
enqueue-IsEnqueued_example = enqueue-IsEnqueued true gc_entry one_queued accepted

turned_away : (enqueue true mirror_run one_running).0 ≡ refused already_running
unfolding enqueue text_eq
turned_away = refl

enqueue-Unique_example : Unique (active (enqueue true gc_entry one_queued).1)
enqueue-Unique_example = enqueue-Unique true gc_entry one_queued (refl, tt)

dequeue-IsDequeued_example :
    IsDequeued
      (codes "mirror")
      one_queued
      (dequeue (codes "mirror") one_queued).0
      (dequeue (codes "mirror") one_queued).1
dequeue-IsDequeued_example = dequeue-IsDequeued (codes "mirror") one_queued (refl, tt)

-- The run raises, and while it ran its maintenance was queued, unless that is what it is.
abbrev crashing : Executing
crashing item s = (
  raised,
  if text_eq item.key mirror_run.key then record s { queue = s.queue ++ gc_entry ∷ [] } else s,
)

crashing-OnlyAppends : OnlyAppends crashing
crashing-OnlyAppends item s = elim (Bool-cases (text_eq item.key mirror_run.key)) [
  | inl e ↦ rw e (gc_entry ∷ [], refl)
  | inr e ↦ rw e ([], sym (append-nil s.queue))
]

both_executed : map (λ x. x.0) (drain crashing 3 one_queued).0 ≡ mirror_run ∷ gc_entry ∷ []
unfolding drain text_eq
both_executed = refl

drain-executes_example :
    (later : List QueuedRun) × (map (λ x. x.0) (drain crashing 3 one_queued).0
      ≡ (mirror_run ∷ []) ++ later)
drain-executes_example = drain-executes crashing 3 one_queued crashing-OnlyAppends (omega arith)

mirror_resolves : resolve config mirror_run ≡ some (route_subject mirror, box ∷ other_box ∷ [])
unfolding resolve text_eq lookup insert lease_key lower strip
mirror_resolves = refl

resolve-Distinct_example : Distinct (box ∷ other_box ∷ [])
resolve-Distinct_example = resolve-Distinct config mirror_run mirror_resolves

mirror_run-HasNames : HasNames mirror_run
mirror_run-HasNames = record { pbs = λ id e. cc; route = λ id e. ground arith }

resolve-IsPending_example :
    All (IsPending config ((gc_entry ∷ []) ++ mirror_run ∷ [])) (box ∷ other_box ∷ [])
resolve-IsPending_example =
    resolve-IsPending config (gc_entry ∷ []) [] mirror_run mirror_run-HasNames mirror_resolves

config_is_valid : check_references config ≡ none
unfolding check_references check_routes check_route require_unique_ids text_eq
config_is_valid = refl

resolve_validated_example :
    (devices : List PbsDevice) × (resolve config mirror_run ≡ some (route_subject mirror, devices))
unfolding text_eq
resolve_validated_example =
    resolve_validated config mirror_run (codes "mirror") config_is_valid refl refl refl

-- A run in flight that somebody asked to cancel.
abbrev enqueued : Session
enqueued = record start { service = (enqueue true mirror_run new_service).1 }

abbrev taken : Session
taken = record enqueued { service = (take_next enqueued.service).1; phase = resolving }

abbrev begun : Session
begun = record taken { service = begin_run taken.service; phase = starting; late = false }

abbrev in_flight : Session
in_flight = record begun { service = name_run 1 begun.service; phase = working 1; next_id = 2 }

accepted_at_once :
    (cancel 1 true in_flight.service).0 && not (cancel 2 true in_flight.service).0 ≡ true
unfolding cancel enqueue take_next begin_run name_run text_eq
accepted_at_once = refl

abbrev asked : Session
asked = record in_flight { on_the_way = 1 ∷ [] }

abbrev stopping : Session
stopping = record asked {
  service = set_cancel true asked.service;
  on_the_way = remove_one 1 asked.on_the_way;
  requested = some 1;
}

stopping-Reach : Reach stopping
unfolding enqueue take_next begin_run name_run is_in_flight set_cancel remove_one text_eq
stopping-Reach =
    next
      (next
        (next
          (next (next (next here (enqueues mirror_run true)) (takes mirror_run refl refl refl))
            (begins refl refl))
          (names refl))
        (cancels 1 refl))
      (sets 1 true refl)

flag_set : stopping.service.cancel_set ≡ true
unfolding enqueue take_next begin_run name_run set_cancel text_eq
flag_set = refl

Reach-Inv_example : Inv stopping
Reach-Inv_example = Reach-Inv stopping-Reach

cancel_reaches_its_run_example :
    (id : ℕ) × (stopping.requested ≡ some id) × (id ≤ 1) × (stopping.late ≡ false → id ≡ 1)
cancel_reaches_its_run_example = cancel_reaches_its_run 1 stopping-Reach refl flag_set
