-- ===== src/Polling/Ends.antt =====
-- How long `poll_task` (backend/app/connectors/_tasks.py) may take to come to an end.
use joulenap.Prelude.{
  ◌≢◌, ℕ, zero, suc, ◌+◌, ◌≤◌, ◌<◌, ◌≡◌, refl, sym, ap, ◌∙◌, Option, none, some, Text, subst,
  Bool-cases, Option-cases, inl, inr, leb, arith,
}
use joulenap.Polling.{
  TaskStatus, task_running, task_stopped, Remote, Poll, Outcome, still_polling, Drained, drained,
  log_failed, still_draining, Verdict, ended, again, after, drain, lose, walk_away, judge, turn,
  poll, poll_task, start,
}
use joulenap.Polling.Drain.{LogEnds, drain-IsDrain}
use joulenap.Polling.Loop.{turn_cancelled, turn_lost, turn_answered}

-- From the call `k` on the task is stopped and its server answers.
pub record StopsAt (r : Remote) (k : ℕ) : Type 0 where
  pub stopped : (n : ℕ) → k ≤ n → (exit : Option Text) × (r.status n ≡ some (task_stopped exit))
  pub answers : (seen n : ℕ) → k ≤ n → r.log seen n ≢ none

module _ (r : Remote) (last k lines : ℕ) (log_ends : LogEnds r last) (stops : StopsAt r k)
    (enough : last < lines) where
  none_some : {s : TaskStatus} → ◌≢◌ {A = Option TaskStatus} none (some s)
  none_some e = cc

  -- A turn from `p` uses up a call, and after `k` calls it is the last one.
  record IsLive (p : Poll) (v : Verdict) (p' : Poll) : Type 0 where
    calls : p.calls < p'.calls
    bounded : p'.seen ≤ last
    returns : v ≢ ended still_polling
    ends : k ≤ p.calls → v ≢ again

  walk_away-IsLive :
      (p q : Poll) (d : Drained)
      → p.calls < q.calls
      → q.seen ≤ last
      → d ≢ still_draining
      → IsLive p (walk_away r (d, q)).0 (walk_away r (d, q)).1
  unfolding walk_away
  walk_away-IsLive p q drained c b n = record {
    calls = c;
    bounded = b;
    returns = λ e. cc;
    ends = λ h e. cc;
  }
  walk_away-IsLive p q log_failed c b n = record {
    calls = c;
    bounded = b;
    returns = λ e. cc;
    ends = λ h e. cc;
  }
  walk_away-IsLive p q still_draining c b n = absurd (n refl)

  lose-IsLive :
      (p q : Poll)
      → p.calls < q.calls
      → q.seen ≤ last
      → p.calls < k
      → IsLive p (lose r q).0 (lose r q).1
  unfolding lose
  lose-IsLive p q c b early = record {
    calls = omega arith;
    bounded = b;
    returns = λ e. ground arith;
    ends = λ h. absurd (omega arith);
  }

  judge-IsLive :
      (p q : Poll) (status : TaskStatus) (d : Drained)
      → p.calls < q.calls
      → q.seen ≤ last
      → d ≢ still_draining
      → (k ≤ p.calls → d ≢ log_failed)
      → (k ≤ p.calls → status ≢ task_running)
      → IsLive p (judge r status (d, q)).0 (judge r status (d, q)).1
  unfolding judge lose
  judge-IsLive p q status still_draining c b n a s = absurd (n refl)
  judge-IsLive p q task_running log_failed c b n a s = record {
    calls = omega arith;
    bounded = b;
    returns = λ e. ground arith;
    ends = λ h. absurd (a h refl);
  }
  judge-IsLive p q (task_stopped exit) log_failed c b n a s = record {
    calls = omega arith;
    bounded = b;
    returns = λ e. ground arith;
    ends = λ h. absurd (a h refl);
  }
  judge-IsLive p q task_running drained c b n a s = record {
    calls = omega arith;
    bounded = b;
    returns = λ e. ground arith;
    ends = λ h. absurd (s h refl);
  }
  judge-IsLive p q (task_stopped exit) drained c b n a s = record {
    calls = c;
    bounded = b;
    returns = λ e. ground arith;
    ends = λ h e. cc;
  }

  early : (p : Poll) → r.status (p.calls + 1) ≡ none → p.calls < k
  early p e = elim (Bool-cases (leb k p.calls)) [
    | inl h ↦ absurd (none_some (sym e ∙ (stops.stopped (p.calls + 1) (ground arith)).1))
    | inr h ↦ ground arith
  ]

  not_running :
      {exit : Option Text}
      → ◌≢◌ {A = Option TaskStatus} (some task_running) (some (task_stopped exit))
  not_running e = cc

  running_late : (p : Poll) → k ≤ p.calls → r.status (p.calls + 1) ≢ some task_running
  running_late p h e = not_running (sym e ∙ (stops.stopped (p.calls + 1) (omega arith)).1)

  turn-IsLive : (p : Poll) → p.seen ≤ last → IsLive p (turn r lines p).0 (turn r lines p).1
  turn-IsLive p b =
      let one = drain-IsDrain r lines (after p) in
      let two = drain-IsDrain r lines (after (after p)) in
      elim (Bool-cases (r.cancelled p.calls)) [
        | inl c ↦ rw (turn_cancelled r lines p c) (
            walk_away-IsLive p (drain r lines (after p)).1 (drain r lines (after p)).0
              (omega (arith, one.calls)) (one.bounded last log_ends b)
              (one.enough last log_ends b (omega arith)))
        | inr c ↦ elim (Option-cases (r.status (p.calls + 1))) [
          | inl e ↦
              rw (turn_lost r lines p c e)
                (lose-IsLive p (after (after p)) (omega arith) b (early p e))
          | inr (status, e) ↦ rw (turn_answered r lines p c e) (
              judge-IsLive p (drain r lines (after (after p))).1 status
                (drain r lines (after (after p))).0 (omega (arith, two.calls))
                (two.bounded last log_ends b) (two.enough last log_ends b (omega arith))
                (λ h. two.answers (λ n m le. stops.answers n m (omega arith)))
                (λ h x. running_late p h (subst (λ s. r.status (p.calls + 1) ≡ some s) x e)))
        ]
      ]

  poll-returns :
      (fuel : ℕ) (p : Poll)
      → p.seen ≤ last
      → 0 < fuel
      → k < p.calls + fuel
      → (poll r lines fuel p).0 ≢ still_polling
  unfolding poll
  poll-returns zero p b pos h = absurd (omega arith)
  poll-returns (suc fuel) p b pos h =
      next (turn r lines p).0 (turn r lines p).1 (turn-IsLive p b)
        (λ q seen some_left calls. poll-returns fuel q seen some_left calls)
    where
      next :
          (v : Verdict) (p' : Poll)
          → IsLive p v p'
          → ((q : Poll)
              → q.seen ≤ last
              → 0 < fuel
              → k < q.calls + fuel
              → (poll r lines fuel q).0 ≢ still_polling)
          → (elim v as (λ x. Outcome × Poll) [
            | ended outcome ↦ (outcome, p')
            | again ↦ poll r lines fuel p'
          ]).0
            ≢ still_polling
      next (ended o) p' i rest = λ e. i.returns (ap ended e)
      next again p' i rest = elim (Bool-cases (leb k p.calls)) [
        | inl late ↦ absurd (i.ends (ground arith) refl)
        | inr soon ↦
            let not_yet : p.calls < k = ground arith in
            rest p' i.bounded (omega arith) (omega (arith, i.calls))
      ]

-- Where the log has no line past `last`, and from the `k`-th call on the task is stopped and its
-- server answers, a wait with fuel for more than `last` batches of lines and for `k` turns ends:
-- it returns or raises.
pub poll_task-returns :
    (r : Remote) (last k lines fuel : ℕ)
    → LogEnds r last
    → StopsAt r k
    → last < lines
    → 0 < fuel
    → k ≤ fuel
    → (poll_task r lines fuel).0 ≢ still_polling
unfolding poll_task
poll_task-returns r last k lines fuel log_ends stops enough pos h =
    poll-returns r last k lines log_ends stops enough fuel (start r) (omega arith) pos (omega arith)
