-- ===== src/Config/Validation.antt =====
-- The model validators of backend/app/config.py. `none` is acceptance; an error says which check of
-- the validator refused.
use joulenap.Prelude.{
  Bool, true, false, not, ◌&&◌, ◌||◌, List, [], ◌∷◌, Option, none, some, any, map, Text, text_eq,
  is_empty, lookup, if◌then◌else◌,
}
use joulenap.Config.{
  PveDevice, PbsDevice, RouteKind, backup, sync, external, RouteSource, Route, Config, find_pbs,
  find_pve,
}

pub data ConfigError : Type 0 where
  missing_power_fields : Text → ConfigError
  no_source needless_source_pbs needless_sources no_source_pbs same_pbs : Text → ConfigError
  duplicate_id : Text → ConfigError
  unknown_target unknown_source_pbs unknown_source : Text → Text → ConfigError
  no_storage_mapping : Text → Text → ConfigError
  external_unmanaged : Text → ConfigError

infixl 30 ◌then_check◌
-- The next check of a validator runs if the ones before it raised nothing.
abbrev pub ◌then_check◌ : Option ConfigError → Option ConfigError → Option ConfigError
none then_check later = later
some e then_check later = some e

abbrev refuse_if : Bool → ConfigError → Option ConfigError
refuse_if true e = some e
refuse_if false e = none

pub check_power_fields : PbsDevice → Option ConfigError
check_power_fields d =
    refuse_if
      (d.managed_power
        && not (is_empty d.host)
        && (is_empty d.mac || is_empty d.ssh_user || is_empty d.ssh_key_path))
      (missing_power_fields d.id)

check_sources : RouteKind → Route → Option ConfigError
check_sources backup r =
    refuse_if (is_empty r.sources) (no_source r.id)
    then_check refuse_if (not (is_empty r.source_pbs)) (needless_source_pbs r.id)
check_sources sync r =
    refuse_if (not (is_empty r.sources)) (needless_sources r.id)
    then_check refuse_if (is_empty r.source_pbs) (no_source_pbs r.id)
    then_check refuse_if (text_eq r.source_pbs r.target) (same_pbs r.id)
check_sources _ r =
    refuse_if (not (is_empty r.sources) || not (is_empty r.source_pbs)) (needless_sources r.id)

unfoldable pub check_kind : Route → Option ConfigError
unfolding check_sources
check_kind r = check_sources r.kind r

-- `_require_unique_ids`, with the set of the ids seen.
unfoldable pub require_unique_ids : List Text → List Text → Option ConfigError
require_unique_ids seen [] = none
require_unique_ids seen (value ∷ ids) =
    let rest = require_unique_ids (value ∷ seen) ids in
    if any (λ s. text_eq s value) seen then some (duplicate_id value) else rest

is_backup : RouteKind → Bool
is_backup backup = true
is_backup _ = false

is_external : RouteKind → Bool
is_external external = true
is_external _ = false

check_source : List PveDevice → Route → RouteSource → Option ConfigError
unfolding is_backup
check_source pves r s = elim (find_pve s.pve pves) [
  | none ↦ some (unknown_source r.id s.pve)
  | some pve ↦ elim (lookup r.target pve.storages) [
    | none ↦ refuse_if (is_backup r.kind) (no_storage_mapping r.id s.pve)
    | some _ ↦ none
  ]
]

check_all_sources : List PveDevice → Route → List RouteSource → Option ConfigError
check_all_sources pves r [] = none
check_all_sources pves r (s ∷ sources) =
    check_source pves r s then_check check_all_sources pves r sources

check_source_pbs : List PbsDevice → Route → Option ConfigError
check_source_pbs pbss r =
    if is_empty r.source_pbs then none else elim (find_pbs r.source_pbs pbss) [
      | none ↦ some (unknown_source_pbs r.id r.source_pbs)
      | some _ ↦ none
    ]

-- One round of the loop over the routes.
unfoldable pub check_route : Config → Route → Option ConfigError
unfolding check_all_sources check_source check_source_pbs is_external
check_route c r = elim (find_pbs r.target c.pbss) [
  | none ↦ some (unknown_target r.id r.target)
  | some target ↦
      check_source_pbs c.pbss r
      then_check check_all_sources c.pves r r.sources
      then_check refuse_if (is_external r.kind && not target.managed_power)
          (external_unmanaged r.id)
]

unfoldable pub check_routes : Config → List Route → Option ConfigError
check_routes c [] = none
check_routes c (r ∷ rs) = check_route c r then_check check_routes c rs

unfoldable pub check_references : Config → Option ConfigError
check_references c =
    require_unique_ids [] (map (λ (d : PveDevice). d.id) c.pves)
    then_check require_unique_ids [] (map (λ (d : PbsDevice). d.id) c.pbss)
    then_check require_unique_ids [] (map (λ (r : Route). r.id) c.routes)
    then_check check_routes c c.routes
