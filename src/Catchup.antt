-- ===== src/Catchup.antt =====
-- backend/app/core/catchup.py: which routes missed a run while the process was down. The last
-- finished run of a route is read from the history database, a parameter, as are the heartbeat and
-- the clock; times are in milliseconds. The log line and the notification of each are left out: a
-- notification that fails is logged and changes nothing.
pub mod Window
use joulenap.Prelude.{
  ℕ, Bool, true, false, Option, none, some, List, [], ◌∷◌, Text, Dict, lookup, insert, after_prefix,
  leb, if◌then◌else◌,
}
use joulenap.Config.{Route, Config}
use joulenap.Scheduler.{CronLibrary, route_prefix, missed_run_since}

abbrev pub max : ℕ → ℕ → ℕ
max a b = if leb a b then b else a

-- `{r.id: r for r in config.routes}`
unfoldable pub by_id : Dict Route → List Route → Dict Route
by_id d [] = d
by_id d (r ∷ rs) = by_id (insert r.id r d) rs

module _ {Trigger : Type 0} (lib : CronLibrary Trigger) where
  -- `armed_route_ids`
  unfoldable pub armed_route_ids : Dict Trigger → List Text
  armed_route_ids [] = []
  armed_route_ids ((id, t) ∷ jobs) =
      let rest = armed_route_ids jobs in
      elim (after_prefix route_prefix id) [ some route_id ↦ route_id ∷ rest | none ↦ rest ]

  -- What is reported of one armed route, before what is reported of the others.
  abbrev report : Option Route → Option ℕ → List (Route × ℕ) → List (Route × ℕ)
  report (some route) (some fire) rest = (route, fire) ∷ rest
  report _ _ rest = rest

  abbrev missed_after : Dict Trigger → Text → Option ℕ → ℕ → ℕ → Option ℕ
  missed_after jobs id none seen now = none
  missed_after jobs id (some anchor) seen now = missed_run_since lib jobs id (max anchor seen) now

  unfoldable pub report_each :
      (Text → Option ℕ) → Dict Trigger → Dict Route → ℕ → ℕ → List Text → List (Route × ℕ)
  report_each last_finished jobs routes seen now [] = []
  report_each last_finished jobs routes seen now (id ∷ ids) =
      let rest = report_each last_finished jobs routes seen now ids in
      report (lookup id routes) (missed_after jobs id (last_finished id) seen now) rest

  -- `check_missed_runs`, with the heartbeat's time, if there is one.
  unfoldable pub check_missed_runs :
      (Text → Option ℕ) → Dict Trigger → Config → Option ℕ → ℕ → List (Route × ℕ)
  unfolding by_id armed_route_ids report_each
  check_missed_runs last_finished jobs config none now = []
  check_missed_runs last_finished jobs config (some seen) now =
      report_each last_finished jobs (by_id [] config.routes) seen now (armed_route_ids jobs)
