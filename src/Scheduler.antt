-- ===== src/Scheduler.antt =====
-- backend/app/core/scheduler.py: the schedule of a route, and which jobs are armed. APScheduler is a
-- third-party library: what is used of it are the fields of `CronLibrary`. The jobs are kept by
-- their ids with their triggers, the part that depends on the configuration. A raised ValueError is
-- `none`.
pub mod Days
pub mod Armed
use joulenap.Prelude.{
  ℕ, zero, suc, ◌+◌, ◌*◌, ◌%◌, Bool, true, false, not, ◌&&◌, ◌||◌, Option, none, some, List, [],
  ◌∷◌, ◌++◌, filter, Text, codes, text_eq, any, is_empty, ltb, leb, ◌==◌, if◌then◌else◌, Dict,
  lookup, insert, is_digit, is_space, read_digits, decimal, join_texts, starts_with,
}
use joulenap.Config.{RouteSchedule, Route, Config}

abbrev add_first : ℕ → List Text → List Text
add_first c [] = (c ∷ []) ∷ []
add_first c (piece ∷ pieces) = (c ∷ piece) ∷ pieces

-- The pieces of a text between the characters that are separators.
unfoldable pub pieces : (ℕ → Bool) → Text → List Text
pieces p [] = [] ∷ []
pieces p (c ∷ t) = let rest = pieces p t in if p c then [] ∷ rest else add_first c rest

-- `text.split(sep)`, of one character.
unfoldable pub split : ℕ → Text → List Text
unfolding pieces
split sep = pieces (λ c. c == sep)

-- `text.split()`
unfoldable pub split_words : Text → List Text
unfolding pieces
split_words t = filter (λ piece. not (is_empty piece)) (pieces (λ c. is_space c) t)

-- A day-of-week token that `_CRON_DOW_TOKEN` matches: the first and the last day of its span, and
-- its step.
pub record Span : Type 0 where
  pub first : ℕ
  pub last : ℕ
  pub step : ℕ

abbrev starts_digit : Text → Bool
starts_digit [] = false
starts_digit (c ∷ t) = is_digit c

-- A number and the text after it.
abbrev number_at : Text → Option (ℕ × Text)
number_at t = if starts_digit t then some (read_digits 0 t) else none

-- The end of a token, given its span.
abbrev with_step : ℕ → ℕ → Text → Option Span
with_step first last [] = some (record { first = first; last = last; step = 1 })
with_step first last (c ∷ t) =
    if c == b'/'
    then (elim (number_at t) [
      | some (n, []) ↦ some (record { first = first; last = last; step = n })
      | some (n, d ∷ rest) ↦ none
      | none ↦ none
    ])
    else none

abbrev with_last : ℕ → Text → Option Span
with_last first [] = with_step first first []
with_last first (c ∷ t) =
    if c == b'-'
    then (elim (number_at t) [ some (n, rest) ↦ with_step first n rest | none ↦ none ])
    else with_step first first (c ∷ t)

unfoldable pub dow_token : Text → Option Span
dow_token [] = none
dow_token (c ∷ t) =
    if c == b'*'
    then with_step 0 7 t
    else (elim (number_at (c ∷ t)) [ some (n, rest) ↦ with_last n rest | none ↦ none ])

-- `_CRON_DOW_NAME`
unfoldable pub dow_name : ℕ → Text
dow_name zero = codes "sun"
dow_name (suc zero) = codes "mon"
dow_name (suc (suc zero)) = codes "tue"
dow_name (suc (suc (suc zero))) = codes "wed"
dow_name (suc (suc (suc (suc zero)))) = codes "thu"
dow_name (suc (suc (suc (suc (suc zero))))) = codes "fri"
dow_name (suc (suc (suc (suc (suc (suc zero)))))) = codes "sat"
dow_name _ = codes "sun"

abbrev add_name : Text → List Text → List Text
add_name n out = if any (text_eq n) out then out else out ++ n ∷ []

-- `for day in range(day, last + 1, step)`, which takes no more turns than `fuel`.
unfoldable pub add_days : ℕ → ℕ → ℕ → ℕ → List Text → List Text
unfolding dow_name
add_days zero day last step out = out
add_days (suc fuel) day last step out =
    let rest = add_days fuel (day + step) last step (add_name (dow_name day) out) in
    if leb day last then rest else out

abbrev add_span : Span → List Text → Option (List Text)
add_span s out =
    if leb s.first s.last && leb s.last 7 && leb 1 s.step
    then some (add_days 9 s.first s.last s.step out)
    else none

abbrev add_token : Text → List Text → Option (List Text)
add_token token out = elim (dow_token token) [
  | some s ↦ add_span s out
  | none ↦ some (out ++ token ∷ [])
]

unfoldable pub add_tokens : List Text → List Text → Option (List Text)
unfolding dow_token add_days
add_tokens [] out = some out
add_tokens (t ∷ ts) out = elim (add_token t out) [ some more ↦ add_tokens ts more | none ↦ none ]

abbrev star : Text
star = codes "*"

-- `_translate_dow`
unfoldable pub translate_dow : Text → Option Text
unfolding split add_tokens
translate_dow dow = if text_eq dow star then some star else (elim (add_tokens (split b',' dow) []) [
  | some out ↦ some (join_texts (codes ",") out)
  | none ↦ none
])

abbrev pub all_on : List Bool → Bool
all_on [] = true
all_on (b ∷ bs) = b && all_on bs

-- The cron numbers of the days that are on, where the list begins with day `i` after Sunday.
unfoldable pub on_days : ℕ → List Bool → List Text
on_days i [] = []
on_days i (on ∷ days) =
    let rest = on_days (suc i) days in if on then decimal ((i + 1) % 7) ∷ rest else rest

-- The day-of-week field of `route_cron`.
unfoldable pub dow_field : List Bool → Text
unfolding on_days
dow_field days = if all_on days then star else join_texts (codes ",") (on_days 0 days)

abbrev time_field : List Text → Text → Option Text
time_field (hour ∷ minute ∷ []) dow = some (
    join_texts (codes " ")
      (decimal (read_digits 0 minute).0 ∷ decimal (read_digits 0 hour).0 ∷ star ∷ star ∷ dow ∷ []))
time_field _ dow = none

-- `route_cron`; a time has two parts, of digits, which the configuration validates.
unfoldable pub route_cron : Route → Option Text
unfolding dow_field split
route_cron route =
    if not (is_empty route.schedule.cron)
    then some route.schedule.cron
    else time_field (split b':' route.schedule.time) (dow_field route.schedule.days)

-- A trigger of the fields of a crontab line, in a time zone; a trigger of a line that has another
-- number of fields; and the first time at which a trigger fires, from a time on.
pub record CronLibrary (Trigger : Type 0) : Type 0 where
  pub of_fields : Text → Text → Text → Text → Text → Text → Option Trigger
  pub from_crontab : Text → Text → Option Trigger
  pub next_fire_time : Trigger → ℕ → Option ℕ
  pub is_zone : Text → Bool

abbrev pub route_prefix : Text
route_prefix = codes "route:"

abbrev pub prune_id : Text
prune_id = codes "history-prune"

abbrev pub job_id : Text → Text
job_id route_id = route_prefix ++ route_id

module _ {Trigger : Type 0} (lib : CronLibrary Trigger) where
  abbrev of_words : Text → Text → List Text → Option Trigger
  of_words zone schedule (minute ∷ hour ∷ day ∷ month ∷ dow ∷ []) = elim (translate_dow dow) [
    | some names ↦ lib.of_fields minute hour day month names zone
    | none ↦ none
  ]
  of_words zone schedule _ = lib.from_crontab schedule zone

  -- `_build_trigger`
  unfoldable pub build_trigger : Text → Text → Option Trigger
  unfolding split_words
  build_trigger zone schedule = of_words zone schedule (split_words schedule)

  abbrev try_zone : Text → Text → Text
  try_zone name otherwise =
      if not (is_empty name) && (text_eq name (codes "UTC") || lib.is_zone name)
      then name
      else otherwise

  -- `resolve_timezone`, of `app.timezone` and the variable `TZ`.
  unfoldable pub resolve_timezone : Text → Text → Text
  resolve_timezone name tz = try_zone name (try_zone tz (codes "UTC"))

  -- The trigger of a route, if its schedule has one.
  unfoldable pub route_trigger : Text → Route → Option Trigger
  unfolding build_trigger route_cron
  route_trigger zone route = elim (route_cron route) [
    | some schedule ↦ build_trigger zone schedule
    | none ↦ none
  ]

  abbrev add_job : Text → Option Trigger → Dict Trigger → Dict Trigger
  add_job id (some t) jobs = insert id t jobs
  add_job id none jobs = jobs

  -- `_arm_route`
  unfoldable pub arm_route : Text → Route → Dict Trigger → Dict Trigger
  arm_route zone route jobs = add_job (job_id route.id) (route_trigger zone route) jobs

  unfoldable pub arm_routes : Text → List Route → Dict Trigger → Dict Trigger
  unfolding arm_route
  arm_routes zone [] jobs = jobs
  arm_routes zone (route ∷ rest) jobs =
      arm_routes zone rest (if route.enabled then arm_route zone route jobs else jobs)

  -- `arm_prune`, of the prune job's trigger, if there is a callback.
  unfoldable pub arm_prune : Option Trigger → Dict Trigger → Dict Trigger
  arm_prune prune jobs = add_job prune_id prune jobs

  unfoldable pub drop_routes : Dict Trigger → Dict Trigger
  drop_routes = filter (λ (j : Text × Trigger). not (starts_with route_prefix j.0))

  -- `rearm`, in a time zone.
  unfoldable pub rearm : Text → Option Trigger → Config → Dict Trigger → Dict Trigger
  unfolding arm_routes drop_routes arm_prune
  rearm zone prune config jobs = arm_prune prune (
      if config.scheduler_enabled
      then arm_routes zone config.routes (drop_routes jobs)
      else drop_routes jobs)

  -- `missed_run_since`; times are in milliseconds.
  unfoldable pub missed_run_since : Dict Trigger → Text → ℕ → ℕ → Option ℕ
  missed_run_since jobs route_id anchor now = elim (lookup (job_id route_id) jobs) [
    | none ↦ none
    | some t ↦ elim (lib.next_fire_time t (anchor + 1000)) [
      | some fire ↦ if leb fire now then some fire else none
      | none ↦ none
    ]
  ]
