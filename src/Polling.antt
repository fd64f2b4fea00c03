-- ===== src/Polling.antt =====
-- backend/app/connectors/_tasks.py, `poll_task`: waiting for a remote task while its log is
-- tailed. What the loop calls is a parameter, `Remote`: each answer is a function of the number of
-- calls made before it. Times are in seconds. A `should_cancel` that is not given is one that never
-- answers yes; sleeping has no effect here.
pub mod Drain
pub mod Loop
pub mod Ends
use joulenap.Prelude.{
  ℕ, zero, suc, ◌+◌, ◌-◌, Bool, true, false, Option, none, some, List, [], ◌∷◌, Text, codes,
  text_eq, filter, is_empty, ltb, leb, if◌then◌else◌,
}

abbrev pub LogLine : Type 0
LogLine = ℕ × Text

-- The answer of the status call, with the exit status of a task that stopped.
pub data TaskStatus : Type 0 where
  task_running : TaskStatus
  task_stopped : Option Text → TaskStatus

-- `none` stands for an `ApiError`; `tails` is whether `log_fn` and `on_lines` are given.
pub record Remote : Type 0 where
  pub status : ℕ → Option TaskStatus
  pub log : ℕ → ℕ → Option (List LogLine)
  pub clock : ℕ → ℕ
  pub cancelled : ℕ → Bool
  pub tails : Bool
  pub timeout : ℕ

-- The variables of the loop, the batches handed to `on_lines`, newest first, and how often
-- `on_error` was called.
pub record Poll : Type 0 where
  pub calls : ℕ
  pub deadline : ℕ
  pub seen : ℕ
  pub lost_at : Option ℕ
  pub handed : List (List LogLine)
  pub drops : ℕ

-- How `poll_task` ends. `still_polling` is none of its ends: the fuel is spent.
pub data Outcome : Type 0 where
  stopped_ok : Outcome
  task_failed : Option Text → Outcome
  silent cancelled_wait contact_lost still_polling : Outcome

pub data Drained : Type 0 where
  drained log_failed still_draining : Drained

pub data Verdict : Type 0 where
  ended : Outcome → Verdict
  again : Verdict

abbrev pub error_grace : ℕ
error_grace = 300

abbrev pub after : Poll → Poll
after p = record p { calls = p.calls + 1 }

abbrev max : ℕ → ℕ → ℕ
max a b = if leb a b then b else a

-- `max(n for n, _ in batch)`
abbrev pub highest : List LogLine → ℕ
highest [] = 0
highest (line ∷ rest) = max line.0 (highest rest)

abbrev pub newer : ℕ → List LogLine → List LogLine
newer seen = filter (λ (line : LogLine). ltb seen line.0)

abbrev pub is_ok : Option Text → Bool
is_ok none = false
is_ok (some status) = text_eq status (codes "OK")

abbrev pub since : ℕ → Option ℕ → ℕ
since now none = now
since now (some t) = t

abbrev new_drops : Option ℕ → ℕ
new_drops none = 1
new_drops (some t) = 0

module _ (r : Remote) where
  -- A batch handed over: the clock restarts.
  abbrev pub hand : List LogLine → Poll → Poll
  hand batch p = record p {
    calls = p.calls + 2;
    handed = batch ∷ p.handed;
    seen = highest batch;
    deadline = r.clock (p.calls + 1) + r.timeout;
  }

  -- The loop of `drain`, on fuel.
  unfoldable pub drain_lines : ℕ → Poll → Drained × Poll
  drain_lines zero p = (still_draining, p)
  drain_lines (suc fuel) p = elim (r.log p.seen p.calls) [
    | none ↦ (log_failed, after p)
    | some lines ↦
        let rest = drain_lines fuel (hand (newer p.seen lines) p) in
        if is_empty (newer p.seen lines) then (drained, after p) else rest
  ]

  unfoldable pub drain : ℕ → Poll → Drained × Poll
  drain fuel p = let lines = drain_lines fuel p in if r.tails then lines else (drained, p)

  -- The handler of `ApiError`.
  unfoldable pub lose : Poll → Verdict × Poll
  lose p =
      let now = r.clock p.calls in
      let from = since now p.lost_at in
      (
        if leb error_grace (now - from) then ended contact_lost else again,
        record p {
          calls = p.calls + 1;
          lost_at = some from;
          drops = p.drops + new_drops p.lost_at;
        },
      )

  unfoldable pub walk_away : Drained × Poll → Verdict × Poll
  walk_away (still_draining, p) = (ended still_polling, p)
  walk_away (drained, p) = (ended cancelled_wait, p)
  walk_away (log_failed, p) = (ended cancelled_wait, p)

  -- What is made of a status once the log is drained.
  unfoldable pub judge : TaskStatus → Drained × Poll → Verdict × Poll
  judge status (log_failed, p) = lose p
  judge status (still_draining, p) = (ended still_polling, p)
  judge (task_stopped exit) (drained, p) =
      (ended (if is_ok exit then stopped_ok else task_failed exit), record p { lost_at = none })
  judge task_running (drained, p) = (
    if leb p.deadline (r.clock p.calls) then ended silent else again,
    record p { calls = p.calls + 1; lost_at = none },
  )

  -- One turn of the loop; `lines` is the fuel of its drain.
  unfoldable pub turn : ℕ → Poll → Verdict × Poll
  turn lines p = elim (r.cancelled p.calls) [
    | true ↦ walk_away (drain lines (after p))
    | false ↦ elim (r.status (p.calls + 1)) [
      | none ↦ lose (after (after p))
      | some status ↦ judge status (drain lines (after (after p)))
    ]
  ]

  unfoldable pub poll : ℕ → ℕ → Poll → Outcome × Poll
  poll lines zero p = (still_polling, p)
  poll lines (suc fuel) p =
      let (verdict, p') = turn lines p in
      elim verdict [ ended outcome ↦ (outcome, p') | again ↦ poll lines fuel p' ]

  abbrev pub start : Poll
  start = record {
    calls = 1;
    deadline = r.clock 0 + r.timeout;
    seen = 0;
    lost_at = none;
    handed = [];
    drops = 0;
  }

  unfoldable pub poll_task : ℕ → ℕ → Outcome × Poll
  poll_task lines fuel = poll lines fuel start
