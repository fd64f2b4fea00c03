-- ===== src/Scheduler/Armed.antt =====
-- Which jobs are armed after `Scheduler.rearm` (backend/app/core/scheduler.py).
use joulenap.Prelude.{
  ◌≡◌, refl, ◌∙◌, Bool, true, false, not, ◌&&◌, Option, none, some, List, [], ◌∷◌, Text, text_eq,
  text_eq_iff, text_eq_sound, both_true, any, if◌then◌else◌, Dict, lookup, lookup-insert,
  starts_with, Bool-cases, inl, inr, arith,
}
use joulenap.Config.{Route, Config, find_route}
use joulenap.Scheduler.{
  CronLibrary, route_prefix, prune_id, job_id, route_trigger, arm_route, arm_routes, arm_prune,
  drop_routes, rearm, add_job,
}

-- No two routes have the same id, as the configuration's validators require.
abbrev pub distinct_ids : List Route → Bool
distinct_ids [] = true
distinct_ids (r ∷ rs) = not (any (λ (q : Route). text_eq q.id r.id) rs) && distinct_ids rs

text_eq-job_id : (a b : Text) → text_eq (job_id a) (job_id b) ≡ text_eq a b
unfolding text_eq
text_eq-job_id a b = refl

starts_with-job_id : (a : Text) → starts_with route_prefix (job_id a) ≡ true
unfolding starts_with
starts_with-job_id a = refl

job_id-ne : (k a : Text) → starts_with route_prefix k ≡ false → text_eq (job_id a) k ≡ false
job_id-ne k a h = ground (arith, text_eq_iff (job_id a) k, starts_with-job_id a)

module _ {Trigger : Type 0} (lib : CronLibrary Trigger) (zone : Text) where
  -- The trigger that the scheduler is to have for an id.
  abbrev pub due : Option Route → Option Trigger
  due none = none
  due (some r) = if r.enabled then route_trigger lib zone r else none

  lookup-drop_routes :
      (k : Text) (jobs : Dict Trigger)
      → lookup k (drop_routes lib jobs)
        ≡ (if starts_with route_prefix k then none else lookup k jobs)
  unfolding drop_routes lookup
  lookup-drop_routes k [] = ground arith
  lookup-drop_routes k ((j, t) ∷ jobs) =
      let later = lookup-drop_routes k jobs in
      elim (Bool-cases (starts_with route_prefix j)) [
        | inl p ↦ elim (Bool-cases (text_eq j k)) [
          | inl e ↦ let same = rw (text_eq_sound j k e) at p in rw (p, e, same) (rw same at later)
          | inr e ↦ rw (p, e) later
        ]
        | inr p ↦ elim (Bool-cases (text_eq j k)) [
          | inl e ↦ let same = rw (text_eq_sound j k e) at p in rw (p, e, same) refl
          | inr e ↦ rw (p, e) later
        ]
      ]

  or_else : Option Trigger → Option Trigger → Option Trigger
  or_else (some t) o = some t
  or_else none o = o

  lookup-add_job :
      (k id : Text) (o : Option Trigger) (jobs : Dict Trigger)
      → lookup k (add_job lib id o jobs)
        ≡ (if text_eq id k then or_else o (lookup k jobs) else lookup k jobs)
  unfolding or_else
  lookup-add_job k id (some t) jobs = lookup-insert id k t jobs
  lookup-add_job k id none jobs = ground arith

  find_route-none :
      (id : Text) (rs : List Route)
      → any (λ (q : Route). text_eq q.id id) rs ≡ false
      → find_route id rs ≡ none
  find_route-none id [] h = refl
  find_route-none id (r ∷ rs) h = ground (arith, find_route-none id rs)

  armed_here :
      (r : Route) (id : Text) (jobs : Dict Trigger)
      → text_eq r.id id ≡ true
      → lookup (job_id id) (arm_route lib zone r jobs)
        ≡ or_else (route_trigger lib zone r) (lookup (job_id id) jobs)
  unfolding arm_route
  armed_here r id jobs m =
      lookup-add_job (job_id id) (job_id r.id) (route_trigger lib zone r) jobs
      ∙ rw (text_eq-job_id r.id id, m) refl

  armed_elsewhere :
      (r : Route) (id : Text) (jobs : Dict Trigger)
      → text_eq r.id id ≡ false
      → lookup (job_id id) (arm_route lib zone r jobs) ≡ lookup (job_id id) jobs
  unfolding arm_route
  armed_elsewhere r id jobs m =
      lookup-add_job (job_id id) (job_id r.id) (route_trigger lib zone r) jobs
      ∙ rw (text_eq-job_id r.id id, m) refl

  arm_route_other :
      (k : Text) (r : Route) (jobs : Dict Trigger)
      → starts_with route_prefix k ≡ false
      → lookup k (arm_route lib zone r jobs) ≡ lookup k jobs
  unfolding arm_route
  arm_route_other k r jobs h =
      lookup-add_job k (job_id r.id) (route_trigger lib zone r) jobs ∙ rw (job_id-ne k r.id h) refl

  lookup-arm_routes :
      (id : Text) (routes : List Route) (jobs : Dict Trigger)
      → distinct_ids routes ≡ true
      → lookup (job_id id) (arm_routes lib zone routes jobs)
        ≡ or_else (due (find_route id routes)) (lookup (job_id id) jobs)
  unfolding arm_routes or_else lookup route_trigger
  lookup-arm_routes id [] jobs h = refl
  lookup-arm_routes id (r ∷ rs) jobs h =
      let (lone, rest) =
        both_true (not (any (λ (q : Route). text_eq q.id r.id) rs)) (distinct_ids rs) h in
      elim (Bool-cases r.enabled) [
        | inl e ↦ elim (Bool-cases (text_eq r.id id)) [
          | inl m ↦
              let gone = find_route-none r.id rs (ground arith) in
              rw
                (
                  e,
                  m,
                  lookup-arm_routes id rs (arm_route lib zone r jobs) rest,
                  (rw (text_eq_sound r.id id m) at gone),
                  armed_here r id jobs m,
                )
                refl
          | inr m ↦
              rw
                (
                  e,
                  m,
                  lookup-arm_routes id rs (arm_route lib zone r jobs) rest,
                  armed_elsewhere r id jobs m,
                )
                refl
        ]
        | inr e ↦ elim (Bool-cases (text_eq r.id id)) [
          | inl m ↦
              let gone = find_route-none r.id rs (ground arith) in
              rw (e, m, lookup-arm_routes id rs jobs rest, (rw (text_eq_sound r.id id m) at gone))
                refl
          | inr m ↦ rw (e, m) (lookup-arm_routes id rs jobs rest)
        ]
      ]

  -- Jobs that are no route's are left alone.
  lookup-arm_others :
      (k : Text) (routes : List Route) (jobs : Dict Trigger)
      → starts_with route_prefix k ≡ false
      → lookup k (arm_routes lib zone routes jobs) ≡ lookup k jobs
  unfolding arm_routes route_trigger
  lookup-arm_others k [] jobs h = refl
  lookup-arm_others k (r ∷ rs) jobs h = elim (Bool-cases r.enabled) [
    | inl e ↦
        rw e (lookup-arm_others k rs (arm_route lib zone r jobs) h ∙ arm_route_other k r jobs h)
    | inr e ↦ rw e (lookup-arm_others k rs jobs h)
  ]

  -- What is armed: for each id of a route of the configuration, its schedule's trigger, if it is
  -- enabled, scheduling is on and its schedule can be read; for any other id, nothing. Jobs that are
  -- no route's, nor the prune job, are as they were.
  pub record IsArmed (prune : Option Trigger) (config : Config) (jobs armed : Dict Trigger)
      : Type 0 where
    pub routes :
        (id : Text)
        → lookup (job_id id) armed
          ≡ (if config.scheduler_enabled then due (find_route id config.routes) else none)
    pub others :
        (k : Text)
        → starts_with route_prefix k ≡ false
        → text_eq prune_id k ≡ false
        → lookup k armed ≡ lookup k jobs

  or_else-none : (o : Option Trigger) → or_else o none ≡ o
  unfolding or_else
  or_else-none none = refl
  or_else-none (some t) = refl

  not_prune : (id : Text) → text_eq prune_id (job_id id) ≡ false
  unfolding text_eq
  not_prune id = refl

  dropped : (id : Text) (jobs : Dict Trigger) → lookup (job_id id) (drop_routes lib jobs) ≡ none
  dropped id jobs = lookup-drop_routes (job_id id) jobs ∙ rw (starts_with-job_id id) refl

-- After `rearm` exactly the enabled routes of the configuration are armed, each by its own schedule,
-- if scheduling is on and the schedule can be read; nothing is left of the routes that were armed
-- before, and jobs of other kinds are left alone, the prune job excepted.
pub rearm-IsArmed :
    {Trigger : Type 0} (lib : CronLibrary Trigger) (zone : Text) (prune : Option Trigger)
    (config : Config) (jobs : Dict Trigger)
    → distinct_ids config.routes ≡ true
    → IsArmed lib zone prune config jobs (rearm lib zone prune config jobs)
unfolding rearm arm_prune
rearm-IsArmed lib zone prune config jobs h = record {
  routes = λ id.
      lookup-add_job lib zone (job_id id) prune_id prune _
      ∙ rw (not_prune lib zone id) (elim (Bool-cases config.scheduler_enabled) [
        | inl e ↦ rw e (
            lookup-arm_routes lib zone id config.routes (drop_routes lib jobs) h
            ∙ rw (dropped lib zone id jobs) (or_else-none lib zone _))
        | inr e ↦ rw e (dropped lib zone id jobs)
      ]);
  others = λ k p q.
      lookup-add_job lib zone k prune_id prune _
      ∙ rw q (elim (Bool-cases config.scheduler_enabled) [
        | inl e ↦ rw e (
            lookup-arm_others lib zone k config.routes (drop_routes lib jobs) p
            ∙ lookup-drop_routes lib zone k jobs
            ∙ rw p refl)
        | inr e ↦ rw e (lookup-drop_routes lib zone k jobs ∙ rw p refl)
      ]);
}
