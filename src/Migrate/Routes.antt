-- ===== src/Migrate/Routes.antt =====
-- The routes of a migrated configuration (backend/app/config_migrate.py), and the migration.
use joulenap.Prelude.{
  Bool, true, false, not, ◌&&◌, ◌||◌, Option, none, some, List, [], ◌∷◌, ◌++◌, Text, codes, text_eq,
  if◌then◌else◌, any,
}
use joulenap.Tree.{
  Value, Items, Fields, null, boolean, number, text, array, object, nil, cons, end, field, truthy,
  has_field, find_field, get, set_field, value_eq,
}
use joulenap.Migrate.{get_or, fields_of, section, parse_cron}
use joulenap.Migrate.Devices.{device_id, pve_device, pbs_device}

-- `needs_migration`
unfoldable pub needs_migration : Fields → Bool
unfolding has_field text_eq
needs_migration raw =
    not (has_field (codes "routes") raw)
    && any (λ k. has_field k raw) (codes "pve" ∷ codes "pbs" ∷ codes "backup" ∷ [])

abbrev characters : Text → Items
characters [] = nil
characters (c ∷ t) = cons (text (c ∷ [])) (characters t)

abbrev keys : Fields → Items
keys end = nil
keys (field k v fs) = cons (text k) (keys fs)

-- `list(value)`, or nothing where it raises
abbrev pub listed : Value → Option Items
listed (array xs) = some xs
listed (text t) = some (characters t)
listed (object fs) = some (keys fs)
listed _ = none

abbrev chosen : Value → Items → Fields
chosen mode xs = field (codes "mode") mode (field (codes "list") (array xs) end)

-- `_guests`
unfoldable pub guests : Fields → Option Fields
unfolding value_eq
guests fs =
    let mode = get_or (codes "mode") (text (codes "all")) fs in
    if value_eq mode (text (codes "include")) || value_eq mode (text (codes "exclude"))
    then (elim (listed (get_or (codes "list") (array nil) fs)) [
      | some xs ↦ some (chosen mode xs)
      | none ↦ none
    ])
    else some (chosen (text (codes "all")) nil)

-- `_route`
unfoldable pub route : Fields → Text → Text → Text → Text → Bool → Fields
unfolding parse_cron
route source route_id name kind target gc = field (codes "id") (text route_id) (
    field (codes "name") (text name) (
      field (codes "color") (text (codes "#e8830f")) (
        field (codes "enabled") (boolean (truthy (get_or (codes "enabled") (boolean true) source)))
          (field (codes "kind") (text kind) (
            field (codes "target") (text target) (
              field (codes "schedule")
                (object (parse_cron (get_or (codes "schedule") (text []) source)))
                (field (codes "options")
                  (object (
                    field (codes "mode") (get_or (codes "mode") (text (codes "snapshot")) source) (
                      field (codes "bwlimit") (get_or (codes "bwlimit") (number 0) source) (
                        field (codes "min_free_percent")
                          (get_or (codes "min_free_percent") (number 0) source)
                          (field (codes "gc") (boolean gc) end)))))
                  end)))))))

-- `route["options"][key] = value`
abbrev set_option : Text → Value → Fields → Fields
set_option key v r =
    set_field (codes "options")
      (object (set_field key v (fields_of (find_field (codes "options") r)))) r

unfoldable pub backup_route : Fields → Fields → Text → Text → Fields → Fields
unfolding route
backup_route backup maintenance pve_id pbs_id chosen_guests =
    let gc = truthy (get_or (codes "enabled") (boolean true) (section maintenance (codes "gc"))) in
    let source : Value =
      object
        (field (codes "pve") (text pve_id) (field (codes "guests") (object chosen_guests) end)) in
    let after =
      truthy
        (get_or (codes "after_backup") (boolean false) (section maintenance (codes "verify"))) in
    set_option (codes "verify_after") (boolean after) (
      set_field (codes "retention") (object (section backup (codes "retention"))) (
        set_field (codes "sources") (array (cons source nil))
          (route backup (codes "backup") (codes "Backup") (codes "backup") pbs_id gc)))

unfoldable pub external_routes : Value → Fields → Text → List Fields
unfolding route
external_routes managed backup pbs_id =
    if truthy managed
    then route backup (codes "backup") (codes "Backup") (codes "external") pbs_id false ∷ []
    else []

unfoldable pub backup_routes : Fields → Fields → List Fields → Text → Text → Option (List Fields)
unfolding guests backup_route
backup_routes backup maintenance [] pve_id pbs_id = some []
backup_routes backup maintenance (pve ∷ pves) pve_id pbs_id =
    if truthy (get pbs_id (find_field (codes "storages") pve))
    then (elim (guests (section backup (codes "guests"))) [
      | some g ↦ some (backup_route backup maintenance pve_id pbs_id g ∷ [])
      | none ↦ none
    ])
    else some []

unfoldable pub verify_routes : Fields → Text → List Fields
unfolding route
verify_routes verify pbs_id =
    if truthy (find_field (codes "enabled") verify)
    then set_option (codes "reverify_days") (get_or (codes "reverify_days") (number 30) verify) (
        set_field (codes "color") (text (codes "#14b8a6"))
          (route verify (codes "verify") (codes "Verify") (codes "verify") pbs_id false))
      ∷ []
    else []

-- `_routes`
unfoldable pub routes :
    Fields → Fields → List Fields → List Fields → Text → Text → Option (List Fields)
unfolding external_routes backup_routes verify_routes
routes backup maintenance pves [] pve_id pbs_id = some []
routes backup maintenance pves (pbs ∷ pbss) pve_id pbs_id =
    let managed = find_field (codes "managed_power") pbs in
    let external = truthy (find_field (codes "enabled") (section backup (codes "external"))) in
    elim (if external
      then some (external_routes managed backup pbs_id)
      else backup_routes backup maintenance pves pve_id pbs_id) [
        | some rs ↦ some (rs ++ verify_routes (section maintenance (codes "verify")) pbs_id)
        | none ↦ none
      ]

pub record Migrated : Type 0 where
  pub pves : List Fields
  pub pbss : List Fields
  pub routes : List Fields

abbrev pub kept : Bool → Fields → List Fields
kept b device = if b then device ∷ [] else []

-- `pve_id` of `migrate`
abbrev pub pve_id : Fields → Text
pve_id raw =
    let pve = section raw (codes "pve") in
    device_id (find_field (codes "node") pve) (find_field (codes "host") pve) (codes "pve")

-- `pbs_id` of `migrate`
abbrev pub pbs_id : Fields → Text
pbs_id raw =
    let own =
      device_id null (find_field (codes "host") (section raw (codes "pbs"))) (codes "pbs") in
    if text_eq (pve_id raw) own then own ++ codes "-pbs" else own

abbrev pub pves_of : Fields → List Fields
pves_of raw =
    let pve = section raw (codes "pve") in
    kept (truthy (find_field (codes "host") pve)) (pve_device pve (pve_id raw) (pbs_id raw))

abbrev pub pbss_of : Fields → List Fields
pbss_of raw =
    let pbs = section raw (codes "pbs") in
    kept (truthy (find_field (codes "host") pbs))
      (pbs_device pbs (pbs_id raw) (section raw (codes "backup")))

-- The devices and the routes of `migrate`, or nothing where it raises.
unfoldable pub migrated : Fields → Option Migrated
unfolding device_id pve_device pbs_device routes text_eq
migrated raw =
    elim (routes (section raw (codes "backup")) (section raw (codes "maintenance")) (pves_of raw)
      (pbss_of raw) (pve_id raw) (pbs_id raw)) [
        | some rs ↦ some (record { pves = pves_of raw; pbss = pbss_of raw; routes = rs })
        | none ↦ none
      ]

abbrev without : List Text → Fields → Fields
without names end = end
without names (field k v fs) =
    let rest = without names fs in
    if any (λ name. text_eq name k) names then rest else field k v rest

abbrev drop_steps : Fields → Fields
drop_steps out = elim (find_field (codes "maintenance") out) [
  | object fs ↦
      set_field (codes "maintenance") (object (without (codes "gc" ∷ codes "verify" ∷ []) fs)) out
  | _ ↦ out
]

abbrev objects : List Fields → Items
objects [] = nil
objects (fs ∷ fss) = cons (object fs) (objects fss)

-- `migrate`
unfoldable pub migrate : Fields → Option Fields
unfolding migrated
migrate raw = elim (migrated raw) [
  | none ↦ none
  | some m ↦ some (
      drop_steps (
        without (codes "pve" ∷ codes "pbs" ∷ codes "backup" ∷ []) (
          set_field (codes "routes") (array (objects m.routes)) (
            set_field (codes "pbss") (array (objects m.pbss))
              (set_field (codes "pves") (array (objects m.pves)) raw)))))
]
