-- ===== src/Service/Machines.antt =====
-- `_resolve` of backend/app/jobs/service.py: the devices that a run takes, and what the
-- validators of backend/app/config.py have to do with it.
use joulenap.Prelude.{
  ◌≡◌, inl, inr, refl, subst, false, Option, none, some, List, [], ◌∷◌, Text, Dict, All, any,
  text_eq, text_eq_iff, is_empty, lookup, insert, lookup-insert, Bool-cases, Option-cases, arith,
}
use joulenap.Config.{PbsDevice, Route, Config, find_pbs, find_route}
use joulenap.Config.Validation.{
  ConfigError, check_route, check_routes, check_references, ◌then_check◌,
}
use joulenap.Lease.{lease_key}
use joulenap.Service.{
  QueuedRun, Subject, route_subject, set_default, collect, needed_ids, values, resolve,
}
use joulenap.Service.Resolve.{some_injective, resolve_pbs, resolve_route_id}

-- No two of the devices stand for one machine.
abbrev pub Distinct : List PbsDevice → Type 0
Distinct [] = Unit
Distinct (d ∷ rest) =
    (any (λ (e : PbsDevice). text_eq (lease_key e) (lease_key d)) rest ≡ false) × Distinct rest

-- Each entry of the dictionary stands under its machine.
abbrev Keyed : Dict PbsDevice → Type 0
Keyed [] = Unit
Keyed ((k, d) ∷ rest) = (k ≡ lease_key d) × (lookup k rest ≡ none) × Keyed rest

lookup-values :
    (key : Text) (devices : Dict PbsDevice)
    → Keyed devices
    → lookup key devices ≡ none
    → any (λ (e : PbsDevice). text_eq (lease_key e) key) (values devices) ≡ false
unfolding lookup
lookup-values key [] k h = refl
lookup-values key ((j, d) ∷ rest) k h =
    let tail = lookup-values key rest k.2 (ground arith) in rw (← k.0) (ground arith)

Keyed-Distinct : (devices : Dict PbsDevice) → Keyed devices → Distinct (values devices)
Keyed-Distinct [] k = tt
Keyed-Distinct ((j, d) ∷ rest) k =
    (lookup-values (lease_key d) rest k.2 (rw k.0 at k.1), Keyed-Distinct rest k.2)

insert-lookup :
    (key j : Text) (d : PbsDevice) (devices : Dict PbsDevice)
    → lookup j devices ≡ none
    → text_eq key j ≡ false
    → lookup j (insert key d devices) ≡ none
insert-lookup key j d devices h n = rw (lookup-insert key j d devices, n) h

insert-Keyed :
    (d : PbsDevice) (devices : Dict PbsDevice)
    → lookup (lease_key d) devices ≡ none
    → Keyed devices
    → Keyed (insert (lease_key d) d devices)
unfolding insert lookup
insert-Keyed d [] h k = (refl, refl, tt)
insert-Keyed d ((j, e) ∷ rest) h k = elim (Bool-cases (text_eq j (lease_key d))) [
  | inl t ↦ absurd (ground arith)
  | inr t ↦ rw t (
    k.0,
    insert-lookup (lease_key d) j d rest k.1
        (ground (arith, text_eq_iff j (lease_key d), text_eq_iff (lease_key d) j)),
    insert-Keyed d rest (ground arith) k.2,
  )
]

set_default-Keyed :
    (d : PbsDevice) (devices : Dict PbsDevice)
    → Keyed devices
    → Keyed (set_default (lease_key d) d devices)
unfolding set_default
set_default-Keyed d devices k = elim (Option-cases (lookup (lease_key d) devices)) [
  | inl e ↦ rw (e, set_default) (insert-Keyed d devices e k)
  | inr (x, e) ↦ rw (e, set_default) k
]

collect-Keyed :
    (config : Config) (ids : List Text) (devices : Dict PbsDevice) {out : Dict PbsDevice}
    → Keyed devices
    → collect config ids devices ≡ some out
    → Keyed out
unfolding collect
collect-Keyed config [] devices {out} k e =
    let same : devices ≡ out = some_injective e in subst Keyed same k
collect-Keyed config (id ∷ ids) devices {out} k e = elim (Option-cases (find_pbs id config.pbss)) [
  | inl n ↦ absurd (ground arith)
  | inr (d, n) ↦
      collect-Keyed config ids (set_default (lease_key d) d devices) {out = out}
        (set_default-Keyed d devices k) (ground arith)
]

-- A run takes each machine once, also where a sync goes between two datastores of one box.
pub resolve-Distinct :
    (config : Config) (item : QueuedRun) {subject : Subject} {devices : List PbsDevice}
    → resolve config item ≡ some (subject, devices)
    → Distinct devices
resolve-Distinct config item {subject} {devices} h = elim (Option-cases item.pbs_id) [
  | inr (id, e) ↦ rw (resolve_pbs config item id e h).2 (refl, tt)
  | inl e ↦
      let (id, r, out, named, found, taken, same) =
        resolve_route_id config item {subject = subject} {devices = devices} e h in
      rw same (Keyed-Distinct out (collect-Keyed config (needed_ids r) [] tt taken))
]

then_check-none : (a b : Option ConfigError) → (a then_check b) ≡ none → (a ≡ none) × (b ≡ none)
then_check-none a b h = ground arith

check_routes-find :
    (config : Config) (id : Text) (routes : List Route) {r : Route}
    → check_routes config routes ≡ none
    → find_route id routes ≡ some r
    → check_route config r ≡ none
unfolding check_routes
check_routes-find config id [] h f = ground arith
check_routes-find config id (x ∷ xs) {r} h f =
    let (first, rest) = then_check-none (check_route config x) (check_routes config xs) h in
    elim (Bool-cases (text_eq x.id id)) [
      | inl e ↦ let same : x ≡ r = some_injective (ground arith) in rw same at first
      | inr e ↦ check_routes-find config id xs {r = r} rest (ground arith)
    ]

check_route-target :
    (config : Config) (r : Route)
    → check_route config r ≡ none
    → (d : PbsDevice) × (find_pbs r.target config.pbss ≡ some d)
unfolding check_route
check_route-target config r h = elim (Option-cases (find_pbs r.target config.pbss)) [
  | inl e ↦ absurd (ground arith)
  | inr found ↦ found
]

check_route-source :
    (config : Config) (r : Route)
    → check_route config r ≡ none
    → is_empty r.source_pbs ≡ false
    → (d : PbsDevice) × (find_pbs r.source_pbs config.pbss ≡ some d)
unfolding check_route
check_route-source config r h n = elim (Option-cases (find_pbs r.source_pbs config.pbss)) [
  | inl e ↦ absurd (ground arith)
  | inr found ↦ found
]

collect-total :
    (config : Config) (ids : List Text) (devices : Dict PbsDevice)
    → All (λ id. (d : PbsDevice) × (find_pbs id config.pbss ≡ some d)) ids
    → (out : Dict PbsDevice) × (collect config ids devices ≡ some out)
unfolding collect
collect-total config [] devices h = (devices, refl)
collect-total config (id ∷ ids) devices h =
    rw (h.0.1, collect) (collect-total config ids (set_default (lease_key h.0.0) h.0.0 devices) h.1)

needed_ids-All :
    (Q : Text → Type 0) (r : Route)
    → Q r.target
    → (is_empty r.source_pbs ≡ false → Q r.source_pbs)
    → All Q (needed_ids r)
needed_ids-All Q r t s = elim (Bool-cases (is_empty r.source_pbs)) [
  | inl e ↦ rw e (t, tt)
  | inr e ↦ rw e (t, (s e, tt))
]

-- In a configuration that the validator accepts, a queued route that still exists always resolves:
-- a run is dropped only when its route is gone.
pub resolve_validated :
    (config : Config) (item : QueuedRun) (route_id : Text) {r : Route}
    → check_references config ≡ none
    → item.pbs_id ≡ none
    → item.route_id ≡ some route_id
    → find_route route_id config.routes ≡ some r
    → (devices : List PbsDevice) × (resolve config item ≡ some (route_subject r, devices))
unfolding resolve check_references
resolve_validated config item route_id {r} valid no_pbs named found =
    let checked = check_routes-find config route_id config.routes {r = r} (ground arith) found in
    let (out, taken) = collect-total config (needed_ids r) [] (
      needed_ids-All (λ id. (d : PbsDevice) × (find_pbs id config.pbss ≡ some d)) r
        (check_route-target config r checked) (check_route-source config r checked)) in
    (values out, ground arith)
