-- ===== src/Examples/MigrateCases.antt =====
-- A 0.9 configuration of one PVE and one PBS, and a test of its migration.
use joulenap.Prelude.{
  ◌≡◌, refl, Bool, true, false, Option, none, some, codes, text_eq, ◌&&◌, length, ◌==◌,
}
use joulenap.Tree.{Fields, boolean, text, object, end, field, find_field, has_field}
use joulenap.Migrate.Routes.{Migrated, migrated, pve_id, pbs_id}
use joulenap.Migrate.Resolved.{IsMigrated, migrated-IsMigrated}

abbrev old : Fields
old =
    field (codes "pve")
      (object (
        field (codes "node") (text (codes "PVE 1")) (
          field (codes "host") (text (codes "10.0.0.2:8006"))
            (field (codes "storage_id") (text (codes "backups")) end))))
      (field (codes "pbs")
        (object (
          field (codes "host") (text (codes "pbs.lan"))
            (field (codes "mac") (text (codes "aa:bb:cc:dd:ee:ff")) end)))
        (field (codes "backup")
          (object (field (codes "schedule") (text (codes "30 2 * * 1,3")) end))
          (field (codes "maintenance")
            (object
              (field (codes "verify") (object (field (codes "enabled") (boolean true) end)) end))
            end)))

abbrev two_routes : Option Migrated → Bool
two_routes (some m) = length m.routes == 2
two_routes none = false

old-routes : two_routes (migrated old) ≡ true
unfolding migrated find_field has_field
old-routes = refl

old-ids : text_eq (pve_id old) (codes "pve-1") && text_eq (pbs_id old) (codes "pbs") ≡ true
unfolding migrated find_field
old-ids = refl

migrated-IsMigrated_example : (¬ (pve_id old ≡ pbs_id old)) × IsMigrated old (migrated old)
migrated-IsMigrated_example = migrated-IsMigrated old
