-- ===== src/Examples/SchedulerCases.antt =====
-- A cron library whose triggers are the names of their days and fire at any time.
use joulenap.Prelude.{◌≡◌, refl, true, false, none, some, List, [], ◌∷◌, Text, codes, text_eq}
use joulenap.Scheduler.{CronLibrary, translate_dow, dow_field, rearm, job_id}
use joulenap.Scheduler.Days.{day_names, translate_dow-dow_field}
use joulenap.Scheduler.Armed.{IsArmed, rearm-IsArmed}
use joulenap.Migrate.{parse_dow}
use joulenap.Migrate.Weekdays.{parse_dow-dow_field}
use joulenap.Examples.{config}

abbrev pub daily_library : CronLibrary Text
daily_library = record {
  of_fields = λ minute hour day month dow zone. some dow;
  from_crontab = λ schedule zone. none;
  next_fire_time = λ t from. some from;
  is_zone = λ name. true;
}

translate_dow-dow_field_example :
    translate_dow (dow_field (true ∷ false ∷ true ∷ false ∷ false ∷ false ∷ true ∷ []))
    ≡ some (day_names (true ∷ false ∷ true ∷ false ∷ false ∷ false ∷ true ∷ []))
translate_dow-dow_field_example =
    translate_dow-dow_field (true ∷ false ∷ true ∷ false ∷ false ∷ false ∷ true ∷ []) refl

parse_dow-dow_field_example :
    parse_dow (dow_field (true ∷ false ∷ true ∷ false ∷ false ∷ false ∷ true ∷ []))
    ≡ some (true ∷ false ∷ true ∷ false ∷ false ∷ false ∷ true ∷ [])
parse_dow-dow_field_example =
    parse_dow-dow_field (true ∷ false ∷ true ∷ false ∷ false ∷ false ∷ true ∷ []) refl refl

abbrev old_jobs : List (Text × Text)
old_jobs = (job_id (codes "gone"), codes "mon") ∷ (codes "heartbeat", codes "*") ∷ []

rearm-IsArmed_example :
    IsArmed daily_library
      (codes "UTC")
      none
      config
      old_jobs
      (rearm daily_library (codes "UTC") none config old_jobs)
unfolding text_eq
rearm-IsArmed_example = rearm-IsArmed daily_library (codes "UTC") none config old_jobs refl
