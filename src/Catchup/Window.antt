-- ===== src/Catchup/Window.antt =====
-- What the check for missed runs accuses the process of (backend/app/core/catchup.py).
use joulenap.Prelude.{ℕ, ◌+◌, ◌≤◌, ◌<◌, ◌≡◌, Option, some, Text, Dict, lookup}
use joulenap.Config.{Route, Config}
use joulenap.Scheduler.{CronLibrary, job_id}
use joulenap.Catchup.{max}

module _ {Trigger : Type 0} (lib : CronLibrary Trigger) where
  -- A trigger's next time is not before the time that is asked about.
  abbrev pub LooksAhead : Type 0
  LooksAhead = (t : Trigger) (from fire : ℕ) → lib.next_fire_time t from ≡ some fire → from ≤ fire

  module _ (last_finished : Text → Option ℕ) (jobs : Dict Trigger) (routes : Dict Route)
      (seen now : ℕ) where
    -- A reported route is armed, and the time is the first one at which its trigger was due from a
    -- second after its last finished run, or after the process was last known to be alive if that is
    -- later; it is no later than now.
    pub record IsMissed (r : Route × ℕ) : Type 0 where
      pub id : Text
      pub known : lookup id routes ≡ some r.0
      pub trigger : Trigger
      pub armed : lookup (job_id id) jobs ≡ some trigger
      pub anchor : ℕ
      pub ran : last_finished id ≡ some anchor
      pub first : lib.next_fire_time trigger (max anchor seen + 1000) ≡ some r.1
      pub ran_before : anchor < r.1
      pub down : seen < r.1
      pub due : r.1 ≤ now
