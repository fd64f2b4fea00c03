-- ===== src/Service/Resolve.antt =====
-- `_resolve` and `_pending_pbs_keys` of backend/app/jobs/service.py: the machines a queued run
-- needs, and the machines that the lease keeps awake for it.
use joulenap.Prelude.{
  ◌≡◌, inl, inr, sym, subst, true, false, none, some, List, [], ◌∷◌, ◌++◌, map, Text, Dict, All,
  any-append, filter, text_eq, text_eq_sound, text_eq_refl, is_empty, lookup, insert, Bool-cases,
  Option-cases, arith,
}
use joulenap.Config.{PbsDevice, Route, Config, find_pbs, find_route}
use joulenap.Lease.{lease_key}
use joulenap.Service.{
  QueuedRun, Subject, set_default, collect, needed_ids, values, resolve, named_pbss, named_routes,
  contains, route_pbss, pending_pbs_keys, truthy,
}

pub some_injective {ℓ} : {A : Type ℓ} {a b : A} → some a ≡ some b → a ≡ b
some_injective e = cc

contains-append :
    (id : Text) (xs ys : List Text) → contains id xs ≡ true → contains id (xs ++ ys) ≡ true
contains-append id xs ys h = ground (arith, any-append (λ j. text_eq j id) xs ys)

contains-append_right :
    (id : Text) (xs ys : List Text) → contains id ys ≡ true → contains id (xs ++ ys) ≡ true
contains-append_right id xs ys h = elim (Bool-cases (contains id xs)) [
  | inl e ↦ contains-append id xs ys e
  | inr e ↦ rw (any-append (λ j. text_eq j id) xs ys, e) h
]

-- A device that is found under one of the ids is among the machines of those ids.
find-machines :
    (id : Text) (ids : List Text) (pbss : List PbsDevice) {d : PbsDevice}
    → find_pbs id pbss ≡ some d
    → contains id ids ≡ true
    → contains (lease_key d) (map lease_key (filter (λ (p : PbsDevice). contains p.id ids) pbss))
      ≡ true
find-machines id ids [] h c = ground arith
find-machines id ids (p ∷ ps) {d} h c = elim (Bool-cases (text_eq p.id id)) [
  | inl e ↦
      let same : contains p.id ids ≡ true =
        subst (λ j. contains j ids ≡ true) (sym (text_eq_sound p.id id e)) c in
      rw same (ground (arith, text_eq_refl (lease_key p)))
  | inr e ↦
      let later = find-machines id ids ps {d = d} (ground arith) c in
      elim (Bool-cases (contains p.id ids)) [ inl k ↦ rw k (ground arith) | inr k ↦ rw k later ]
]

module _ (P : PbsDevice → Type 0) where
  insert-All :
      (key : Text) (d : PbsDevice) (devices : Dict PbsDevice)
      → P d
      → All P (values devices)
      → All P (values (insert key d devices))
  unfolding insert
  insert-All key d [] p h = (p, tt)
  insert-All key d ((j, e) ∷ rest) p h = elim (Bool-cases (text_eq j key)) [
    | inl t ↦ rw t (p, h.1)
    | inr t ↦ rw t (h.0, insert-All key d rest p h.1)
  ]

  set_default-All :
      (key : Text) (d : PbsDevice) (devices : Dict PbsDevice)
      → P d
      → All P (values devices)
      → All P (values (set_default key d devices))
  unfolding set_default
  set_default-All key d devices p h = elim (Option-cases (lookup key devices)) [
    | inl e ↦ rw (e, set_default) (insert-All key d devices p h)
    | inr (x, e) ↦ rw (e, set_default) h
  ]

  collect-All :
      (config : Config) (ids : List Text) (devices : Dict PbsDevice) {out : Dict PbsDevice}
      → All (λ id. (d : PbsDevice) → find_pbs id config.pbss ≡ some d → P d) ids
      → All P (values devices)
      → collect config ids devices ≡ some out
      → All P (values out)
  unfolding collect
  collect-All config [] devices {out} q h e =
      let same : devices ≡ out = some_injective e in subst (λ o. All P (values o)) same h
  collect-All config (id ∷ ids) devices {out} q h e =
      elim (Option-cases (find_pbs id config.pbss)) [
        | inl n ↦ absurd (ground arith)
        | inr (d, n) ↦
            collect-All config ids (set_default (lease_key d) d devices) {out = out} q.1
              (set_default-All (lease_key d) d devices (q.0 d n) h) (ground arith)
      ]

route_pbss-contains :
    (queued : List Text) (routes : List Route) (route_id id : Text) {r : Route}
    → find_route route_id routes ≡ some r
    → contains route_id queued ≡ true
    → contains id (needed_ids r) ≡ true
    → contains id (route_pbss queued routes) ≡ true
route_pbss-contains queued [] route_id id f q c = ground arith
route_pbss-contains queued (x ∷ xs) route_id id {r} f q c =
    elim (Bool-cases (text_eq x.id route_id)) [
      | inl e ↦
          let same : contains x.id queued ≡ true =
            subst (λ j. contains j queued ≡ true) (sym (text_eq_sound x.id route_id e)) q in
          let it : x ≡ r = some_injective (ground arith) in
          rw same (contains-append id (needed_ids x) (route_pbss queued xs) (rw it c))
      | inr e ↦
          let later = route_pbss-contains queued xs route_id id {r = r} (ground arith) q c in
          elim (Bool-cases (contains x.id queued)) [
            | inl k ↦ rw k (contains-append_right id (needed_ids x) (route_pbss queued xs) later)
            | inr k ↦ rw k later
          ]
    ]

named_pbss-contains :
    (before after : List QueuedRun) (item : QueuedRun) (id : Text)
    → item.pbs_id ≡ some id
    → is_empty id ≡ false
    → contains id (named_pbss (before ++ item ∷ after)) ≡ true
named_pbss-contains [] after item id e n = rw (e, n) (rw (text_eq_refl id))
named_pbss-contains (x ∷ xs) after item id e n =
    contains-append_right id (truthy x.pbs_id) (named_pbss (xs ++ item ∷ after))
      (named_pbss-contains xs after item id e n)

named_routes-contains :
    (before after : List QueuedRun) (item : QueuedRun) (id : Text)
    → item.route_id ≡ some id
    → is_empty id ≡ false
    → contains id (named_routes (before ++ item ∷ after)) ≡ true
named_routes-contains [] after item id e n = rw (e, n) (rw (text_eq_refl id))
named_routes-contains (x ∷ xs) after item id e n =
    contains-append_right id (truthy x.route_id) (named_routes (xs ++ item ∷ after))
      (named_routes-contains xs after item id e n)

-- The ids that an entry names are not empty.
pub record HasNames (item : QueuedRun) : Type 0 where
  pub pbs : (id : Text) → item.pbs_id ≡ some id → is_empty id ≡ false
  pub route : (id : Text) → item.route_id ≡ some id → is_empty id ≡ false

All-contained :
    (Q : Text → Type 0) (ids : List Text)
    → ((id : Text) → contains id ids ≡ true → Q id)
    → All Q ids
All-contained Q [] h = tt
All-contained Q (x ∷ xs) h = (
  h x (rw (text_eq_refl x)),
  All-contained Q xs (λ id c. h id (contains-append_right id (x ∷ []) xs c)),
)

-- The machine of a device is among those that the queued runs need.
abbrev pub IsPending : Config → List QueuedRun → PbsDevice → Type 0
IsPending config queue d = contains (lease_key d) (pending_pbs_keys config queue) ≡ true

pub resolve_pbs :
    (config : Config) (item : QueuedRun) (id : Text) {subject : Subject} {devices : List PbsDevice}
    → item.pbs_id ≡ some id
    → resolve config item ≡ some (subject, devices)
    → (d : PbsDevice) × (find_pbs id config.pbss ≡ some d) × (devices ≡ d ∷ [])
unfolding resolve
resolve_pbs config item id e h = elim (Option-cases (find_pbs id config.pbss)) [
  | inl n ↦ absurd (ground arith)
  | inr (d, n) ↦ (d, n, ground arith)
]

pub resolve_route_id :
    (config : Config) (item : QueuedRun) {subject : Subject} {devices : List PbsDevice}
    → item.pbs_id ≡ none
    → resolve config item ≡ some (subject, devices)
    → (id : Text) × (r : Route) × (out : Dict PbsDevice) × (item.route_id ≡ some id)
      × (find_route id config.routes ≡ some r)
      × (collect config (needed_ids r) [] ≡ some out)
      × (devices ≡ values out)
unfolding resolve
resolve_route_id config item {subject} {devices} e h = elim (Option-cases item.route_id) [
  | inl n ↦ absurd (ground arith)
  | inr (id, n) ↦ elim (Option-cases (find_route id config.routes)) [
    | inl m ↦ absurd (ground arith)
    | inr (r, m) ↦ elim (Option-cases (collect config (needed_ids r) [])) [
      | inl k ↦ absurd (ground arith)
      | inr (out, k) ↦ (id, r, out, n, m, k, ground arith)
    ]
  ]
]

-- While an entry waits in the queue, wherever it stands there, the lease is told to keep awake
-- every machine that its run will take when it starts.
pub resolve-IsPending :
    (config : Config) (before after : List QueuedRun) (item : QueuedRun) {subject : Subject}
    {devices : List PbsDevice}
    → HasNames item
    → resolve config item ≡ some (subject, devices)
    → All (IsPending config (before ++ item ∷ after)) devices
unfolding pending_pbs_keys
resolve-IsPending config before after item {subject} {devices} names h =
    let queue : List QueuedRun = before ++ item ∷ after in
    let pbs_ids : List Text = named_pbss queue in
    let route_ids : List Text = route_pbss (named_routes queue) config.routes in
    elim (Option-cases item.pbs_id) [
      | inr (id, e) ↦
          let (d, found, one) = resolve_pbs config item id e h in
          rw one (
            find-machines id (pbs_ids ++ route_ids) config.pbss found (
                contains-append id pbs_ids route_ids
                  (named_pbss-contains before after item id e (names.pbs id e))),
            tt,
          )
      | inl e ↦
          let (id, r, out, named, found, taken, same) =
            resolve_route_id config item {subject = subject} {devices = devices} e h in
          rw same (
            collect-All (IsPending config queue) config (needed_ids r) []
              (All-contained
                (λ j. (d : PbsDevice) → find_pbs j config.pbss ≡ some d → IsPending config queue d)
                (needed_ids r)
                (λ j c d f. find-machines j (pbs_ids ++ route_ids) config.pbss f (
                  contains-append_right j pbs_ids route_ids (
                    route_pbss-contains (named_routes queue) config.routes id j found
                      (named_routes-contains before after item id named (names.route id named))
                      c))))
              tt taken)
    ]
