-- ===== src/Examples/ApplyCases.antt =====
-- Changing the configuration where the document is dumped to a few fields and anything passes
-- validation.
use joulenap.Prelude.{false, some, codes}
use joulenap.Config.{Config}
use joulenap.Tree.{Fields, text, object, end, field, number}
use joulenap.ConfigApi.{App, apply_config}
use joulenap.ConfigApi.Applied.{IsApplied, apply_config-IsApplied}
use joulenap.Examples.{config}
use joulenap.Examples.SchedulerCases.{daily_library}

abbrev dumped : Config → Fields
dumped c =
    field (codes "app")
      (object (
        field (codes "secret_key") (text (codes "k"))
          (field (codes "port") (number c.retention_days) end)))
      end

abbrev running : App
running = record { memory = config; disk = config; armed = config }

abbrev change : Fields
change = field (codes "app") (object (field (codes "secret_key") (text (codes "mine")) end)) end

apply_config-IsApplied_example :
    IsApplied daily_library dumped
      (λ v. some config)
      running
      (apply_config daily_library dumped (λ v. some config) false change running).0
      (apply_config daily_library dumped (λ v. some config) false change running).1
apply_config-IsApplied_example =
    apply_config-IsApplied daily_library dumped (λ v. some config) false change running
