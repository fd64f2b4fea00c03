-- ===== src/Migrate/Resolved.antt =====
-- The references of the routes that `migrate` of backend/app/config_migrate.py makes.
use joulenap.Prelude.{
  ◌≡◌, refl, Bool, true, false, Option, none, some, List, [], ◌∷◌, ◌++◌, Text, codes, text_eq,
  if◌then◌else◌, All, All-append, text_eq_sound, text_eq_refl, length, length-append, ap, arith,
  ◌⊎◌, inl,
}
use joulenap.Tree.{
  Value, Items, Fields, null, text, array, nil, cons, truthy, find_field, get, set_field,
}
use joulenap.Migrate.{get_or, section}
use joulenap.Migrate.Devices.{device_id, pve_device, pbs_device}
use joulenap.Migrate.Routes.{
  Migrated, migrated, routes, route, external_routes, backup_routes, verify_routes, backup_route,
  guests, listed, kept, pve_id, pbs_id, pves_of, pbss_of,
}

-- One of the devices has this value for its id.
abbrev IsId : Value → List Fields → Type 0
IsId v [] = ⊥
IsId v (device ∷ devices) = (find_field (codes "id") device ≡ v) ⊎ IsId v devices

-- One of the devices has this value for its id, and it names a storage on the target.
abbrev IsMapped : Text → Value → List Fields → Type 0
IsMapped target v [] = ⊥
IsMapped target v (device ∷ devices) =
    ((find_field (codes "id") device ≡ v)
      × (truthy (get target (find_field (codes "storages") device)) ≡ true))
    ⊎ IsMapped target v devices

-- Each of the sources names such a device.
abbrev AreSources : Value → List Fields → Items → Type 0
AreSources (text target) pves (cons source sources) =
    IsMapped target (get (codes "pve") source) pves × AreSources (text target) pves sources
AreSources target pves nil = Unit
AreSources target pves (cons source sources) = ⊥

abbrev items_of : Value → Items
items_of (array xs) = xs
items_of _ = nil

-- What the cross-checks of a configuration ask of a route's references, in migrated data.
abbrev IsResolved : List Fields → List Fields → Fields → Type 0
IsResolved pves pbss r =
    IsId (find_field (codes "target") r) pbss
    × AreSources (find_field (codes "target") r) pves (items_of (find_field (codes "sources") r))

-- The migration made routes whose references resolve, or the guests of the backup were no list.
abbrev pub IsMigrated : Fields → Option Migrated → Type 0
IsMigrated raw (some m) = All (IsResolved m.pves m.pbss) m.routes
IsMigrated raw none =
    listed
      (get_or (codes "list") (array nil) (section (section raw (codes "backup")) (codes "guests")))
    ≡ none

abbrev IsRouted : Fields → List Fields → List Fields → Option (List Fields) → Type 0
IsRouted backup pves pbss (some rs) = All (IsResolved pves pbss) rs
IsRouted backup pves pbss none =
    listed (get_or (codes "list") (array nil) (section backup (codes "guests"))) ≡ none

if-IsRouted :
    (backup : Fields) (pves pbss : List Fields) (b : Bool)
    (some_routes others : Option (List Fields))
    → (b ≡ true → IsRouted backup pves pbss some_routes)
    → IsRouted backup pves pbss others
    → IsRouted backup pves pbss (if b then some_routes else others)
if-IsRouted backup pves pbss true some_routes others f x = f refl
if-IsRouted backup pves pbss false some_routes others f x = x

each-IsRouted :
    (backup : Fields) (pves pbss : List Fields) (f : Fields → List Fields) (o : Option Fields)
    → (o ≡ none → IsRouted backup pves pbss none)
    → ((g : Fields) → All (IsResolved pves pbss) (f g))
    → IsRouted backup pves pbss (elim o [ some g ↦ some (f g) | none ↦ none ])
each-IsRouted backup pves pbss f (some g) missing each = each g
each-IsRouted backup pves pbss f none missing each = missing refl

if-All {ℓ κ} :
    {A : Type ℓ} (P : A → Type κ) (b : Bool) (xs : List A) → All P xs → All P (if b then xs else [])
if-All P true xs h = h
if-All P false xs h = tt

route-IsResolved :
    (pves : List Fields) (pbs : Fields) (pbss : List Fields) (source : Fields)
    (route_id name kind target : Text) (gc : Bool)
    → find_field (codes "id") pbs ≡ text target
    → IsResolved pves (pbs ∷ pbss) (route source route_id name kind target gc)
unfolding route find_field text_eq
route-IsResolved pves pbs pbss source route_id name kind target gc e = (inl e, tt)

external_routes-IsResolved :
    (pves : List Fields) (pbs : Fields) (pbss : List Fields) (managed : Value) (backup : Fields)
    (target : Text)
    → find_field (codes "id") pbs ≡ text target
    → All (IsResolved pves (pbs ∷ pbss)) (external_routes managed backup target)
unfolding external_routes
external_routes-IsResolved pves pbs pbss managed backup target e =
    if-All _ (truthy managed) _ (route-IsResolved pves pbs pbss backup _ _ _ target false e, tt)

verify_routes-IsResolved :
    (pves : List Fields) (pbs : Fields) (pbss : List Fields) (verify : Fields) (target : Text)
    → find_field (codes "id") pbs ≡ text target
    → All (IsResolved pves (pbs ∷ pbss)) (verify_routes verify target)
unfolding verify_routes route find_field set_field text_eq
verify_routes-IsResolved pves pbs pbss verify target e =
    if-All _ (truthy (find_field (codes "enabled") verify)) _ ((inl e, tt), tt)

-- What `guests` raises.
guests-none :
    (fs : Fields) → guests fs ≡ none → listed (get_or (codes "list") (array nil) fs) ≡ none
unfolding guests
guests-none fs h = ground arith

backup_routes-IsRouted :
    (pves : List Fields) (pbs : Fields) (pbss : List Fields) (backup maintenance : Fields)
    (pve_id target : Text)
    → find_field (codes "id") pbs ≡ text target
    → All (λ d. find_field (codes "id") d ≡ text pve_id) pves
    → IsRouted backup pves (pbs ∷ pbss) (backup_routes backup maintenance pves pve_id target)
unfolding backup_routes backup_route route find_field set_field text_eq
backup_routes-IsRouted [] pbs pbss backup maintenance pve_id target e es = tt
backup_routes-IsRouted (pve ∷ pves) pbs pbss backup maintenance pve_id target e es =
    if-IsRouted backup (pve ∷ pves) (pbs ∷ pbss)
      (truthy (get target (find_field (codes "storages") pve))) _ _
      (λ h.
        each-IsRouted backup (pve ∷ pves) (pbs ∷ pbss) _ (guests (section backup (codes "guests")))
          (guests-none (section backup (codes "guests"))) (λ g. ((inl e, (inl (es.0, h), tt)), tt)))
      tt

more-IsRouted :
    (backup : Fields) (pves pbss more : List Fields) (o : Option (List Fields))
    → IsRouted backup pves pbss o
    → All (IsResolved pves pbss) more
    → IsRouted backup pves pbss (elim o [ some rs ↦ some (rs ++ more) | none ↦ none ])
more-IsRouted backup pves pbss more (some rs) h m = All-append _ rs more h m
more-IsRouted backup pves pbss more none h m = h

routes-IsRouted :
    (backup maintenance : Fields) (pves pbss : List Fields) (pve_id target : Text)
    → All (λ d. find_field (codes "id") d ≡ text pve_id) pves
    → All (λ d. find_field (codes "id") d ≡ text target) pbss
    → IsRouted backup pves pbss (routes backup maintenance pves pbss pve_id target)
unfolding routes
routes-IsRouted backup maintenance pves [] pve_id target es is = tt
routes-IsRouted backup maintenance pves (pbs ∷ pbss) pve_id target es is =
    more-IsRouted backup pves (pbs ∷ pbss) _ _
      (if-IsRouted backup pves (pbs ∷ pbss)
        (truthy (find_field (codes "enabled") (section backup (codes "external")))) _ _
        (λ h.
          external_routes-IsResolved pves pbs pbss (find_field (codes "managed_power") pbs) backup
            target is.0)
        (backup_routes-IsRouted pves pbs pbss backup maintenance pve_id target is.0 es))
      (verify_routes-IsResolved pves pbs pbss (section maintenance (codes "verify")) target is.0)

kept-IsNamed :
    (b : Bool) (device : Fields) (v : Value)
    → find_field (codes "id") device ≡ v
    → All (λ d. find_field (codes "id") d ≡ v) (kept b device)
kept-IsNamed true device v h = (h, tt)
kept-IsNamed false device v h = tt

finish-IsMigrated :
    (raw : Fields) (pves pbss : List Fields) (o : Option (List Fields))
    → IsRouted (section raw (codes "backup")) pves pbss o
    → IsMigrated raw
        (elim o [ some rs ↦ some (record { pves = pves; pbss = pbss; routes = rs }) | none ↦ none ])
finish-IsMigrated raw pves pbss (some rs) h = h
finish-IsMigrated raw pves pbss none h = h

longer : (t : Text) → ¬ (t ≡ t ++ codes "-pbs")
longer t e =
    let p : length t ≡ length (t ++ codes "-pbs") = ap length e in
    let q = length-append t (codes "-pbs") in omega (arith, p, q)

ids_differ :
    (a own : Text) (b : Bool) → text_eq a own ≡ b → ¬ (a ≡ (if b then own ++ codes "-pbs" else own))
ids_differ a own true h e = let same : a ≡ own = text_eq_sound a own h in longer own (cc)
ids_differ a own false h e =
    let p : text_eq own own ≡ false = rw e at h in let q = text_eq_refl own in absurd (cc)

resolved : (raw : Fields) → IsMigrated raw (migrated raw)
unfolding migrated pve_device pbs_device find_field text_eq
resolved raw = finish-IsMigrated raw (pves_of raw) (pbss_of raw) _ (
    routes-IsRouted (section raw (codes "backup")) (section raw (codes "maintenance")) (pves_of raw)
      (pbss_of raw) (pve_id raw) (pbs_id raw)
      (kept-IsNamed (truthy (find_field (codes "host") (section raw (codes "pve")))) _ _ refl)
      (kept-IsNamed (truthy (find_field (codes "host") (section raw (codes "pbs")))) _ _ refl))

-- The migration of a 0.9 configuration gives the PVE and the PBS different ids. It fails only if the
-- guests of the backup are no list; else each route that it makes has one of the migrated PBSs for
-- its target, and each source of the route names a migrated PVE that has a storage for that target.
pub migrated-IsMigrated :
    (raw : Fields) → (¬ (pve_id raw ≡ pbs_id raw)) × IsMigrated raw (migrated raw)
migrated-IsMigrated raw = (
  ids_differ (pve_id raw)
      (device_id null (find_field (codes "host") (section raw (codes "pbs"))) (codes "pbs")) _ refl,
  resolved raw,
)
