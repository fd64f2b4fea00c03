-- ===== src/Polling/Loop.antt =====
-- The loop of `poll_task` (backend/app/connectors/_tasks.py): why it ends.
use joulenap.Prelude.{
  ◌≢◌, ℕ, zero, suc, ◌+◌, ◌-◌, ◌≤◌, ◌≡◌, refl, true, false, Option, none, some, Text, subst,
  Bool-cases, Option-cases, inl, inr, ◌⊎◌, leb, arith,
}
use joulenap.Polling.{
  TaskStatus, task_running, task_stopped, Remote, Poll, Outcome, stopped_ok, task_failed, silent,
  cancelled_wait, contact_lost, still_polling, Drained, drained, log_failed, still_draining,
  Verdict, ended, again, error_grace, after, is_ok, since, drain, lose, walk_away, judge, turn,
  poll, poll_task, start,
}
use joulenap.Polling.Drain.{Fresh, IsDue, IsTailed, drain-IsDrain}

ended_injective : {o x : Outcome} → ended x ≡ ended o → x ≡ o
ended_injective e = cc

none_some : {t : ℕ} → ◌≢◌ {A = Option ℕ} none (some t)
none_some e = cc

again_ended : {o : Outcome} → again ≢ ended o
again_ended e = cc

module _ (r : Remote) where
  pub turn_cancelled :
      (lines : ℕ) (p : Poll)
      → r.cancelled p.calls ≡ true
      → turn r lines p ≡ walk_away r (drain r lines (after p))
  unfolding turn
  turn_cancelled lines p c = ground arith

  pub turn_lost :
      (lines : ℕ) (p : Poll)
      → r.cancelled p.calls ≡ false
      → r.status (p.calls + 1) ≡ none
      → turn r lines p ≡ lose r (after (after p))
  unfolding turn
  turn_lost lines p c e = ground arith

  pub turn_answered :
      (lines : ℕ) (p : Poll) {status : TaskStatus}
      → r.cancelled p.calls ≡ false
      → r.status (p.calls + 1) ≡ some status
      → turn r lines p ≡ judge r status (drain r lines (after (after p)))
  unfolding turn
  turn_answered lines p c e = ground arith

  module _ (lines : ℕ) where
    -- A turn without an answer: the status call fails, or the log call that follows it.
    abbrev pub IsDrop : Poll → Type 0
    IsDrop p =
        (r.cancelled p.calls ≡ false)
        × ((r.status (p.calls + 1) ≡ none) ⊎ ((drain r lines (after (after p))).0 ≡ log_failed))

    -- Contact is lost since the reading `m` of the clock: it is that of a turn without an answer,
    -- and so were all turns from there on.
    pub data Lost : ℕ → Poll → Type 0 where
      drops :
          (p : Poll) (m : ℕ)
          → p.lost_at ≡ none
          → IsDrop p
          → (turn r lines p).1.calls ≡ m + 1
          → Lost m (turn r lines p).1
      stays : (p : Poll) (m : ℕ) → Lost m p → IsDrop p → Lost m (turn r lines p).1

    -- What an end of the wait says about the calls that were made.
    abbrev pub Explains : Outcome → Poll → Type 0
    Explains stopped_ok p =
        (n : ℕ) × (exit : Option Text) × (r.status n ≡ some (task_stopped exit))
        × (is_ok exit ≡ true)
    Explains (task_failed exit) p =
        (n : ℕ) × (r.status n ≡ some (task_stopped exit)) × (is_ok exit ≡ false)
    Explains silent p =
        (due : ℕ) × (n : ℕ) × IsDue r p.handed due × (p.calls ≡ n + 1) × (due ≤ r.clock n)
    Explains cancelled_wait p = (n : ℕ) × (r.cancelled n ≡ true)
    Explains contact_lost p =
        (m : ℕ) × (n : ℕ) × Lost m p × (p.calls ≡ n + 1) × (error_grace ≤ r.clock n - r.clock m)
    Explains still_polling p = Unit

    -- While contact is lost `lost_at` is the reading of the clock since when it is.
    abbrev Out : Poll → Type 0
    Out p = (t : ℕ) → p.lost_at ≡ some t → (m : ℕ) × (t ≡ r.clock m) × Lost m p

    record IsTurn (v : Verdict) (p' : Poll) : Type 0 where
      tailed : IsTailed r p'
      out : v ≡ again → Out p'
      explained : (o : Outcome) → v ≡ ended o → Explains o p'

    lose-Lost :
        (p q : Poll)
        → turn r lines p ≡ lose r q
        → q.lost_at ≡ p.lost_at
        → IsDrop p
        → Out p
        → (m : ℕ) × (since (r.clock q.calls) q.lost_at ≡ r.clock m) × Lost m (lose r q).1
    lose-Lost p q e l d out = elim (Option-cases p.lost_at) [
      | inl n ↦ (
        q.calls,
        rw (l, n) refl,
        subst (λ x. Lost q.calls x.1) e (drops p q.calls n d (rw e (unfold lose in refl))),
      )
      | inr (t, n) ↦
          let (m, c, lost) = out t n in
          (m, rw (l, n) c, subst (λ x. Lost m x.1) e (stays p m lost d))
    ]

    lose-IsTurn :
        (p q : Poll)
        → turn r lines p ≡ lose r q
        → q.lost_at ≡ p.lost_at
        → IsDrop p
        → Out p
        → IsTailed r q
        → IsTurn (lose r q).0 (lose r q).1
    unfolding lose
    lose-IsTurn p q e l d out t =
        let (m, c, lost) = lose-Lost p q e l d out in
        record {
          tailed = record { fresh = t.fresh; timed = t.timed };
          out = λ v x h. (m, ground (arith, c), lost);
          explained = λ o h.
              elim (Bool-cases
                (leb error_grace (r.clock q.calls - since (r.clock q.calls) q.lost_at))) [
                  | inl k ↦
                      subst (λ x. Explains x (lose r q).1) (ended_injective (rw k at h))
                        (m, q.calls, lost, refl, ground (arith, c))
                  | inr k ↦ absurd (again_ended (rw k at h))
                ];
        }

    walk_away-IsTurn :
        (d : Drained) (p : Poll) (n : ℕ)
        → r.cancelled n ≡ true
        → IsTailed r p
        → IsTurn (walk_away r (d, p)).0 (walk_away r (d, p)).1
    unfolding walk_away
    walk_away-IsTurn drained p n c t = record {
      tailed = t;
      out = λ v. absurd (cc);
      explained = λ o h. subst (λ x. Explains x p) (ended_injective h) (n, c);
    }
    walk_away-IsTurn log_failed p n c t = record {
      tailed = t;
      out = λ v. absurd (cc);
      explained = λ o h. subst (λ x. Explains x p) (ended_injective h) (n, c);
    }
    walk_away-IsTurn still_draining p n c t = record {
      tailed = t;
      out = λ v. absurd (cc);
      explained = λ o h. subst (λ x. Explains x p) (ended_injective h) tt;
    }

    judge-IsTurn :
        (p q : Poll) (status : TaskStatus) (d : Drained)
        → turn r lines p ≡ judge r status (d, q)
        → q.lost_at ≡ p.lost_at
        → (d ≡ log_failed → IsDrop p)
        → r.status (p.calls + 1) ≡ some status
        → Out p
        → IsTailed r q
        → IsTurn (judge r status (d, q)).0 (judge r status (d, q)).1
    unfolding judge
    judge-IsTurn p q task_running log_failed e l d s out t = lose-IsTurn p q e l (d refl) out t
    judge-IsTurn p q (task_stopped exit) log_failed e l d s out t =
        lose-IsTurn p q e l (d refl) out t
    judge-IsTurn p q task_running still_draining e l d s out t = record {
      tailed = t;
      out = λ v. absurd (cc);
      explained = λ o h. subst (λ x. Explains x q) (ended_injective h) tt;
    }
    judge-IsTurn p q (task_stopped exit) still_draining e l d s out t = record {
      tailed = t;
      out = λ v. absurd (cc);
      explained = λ o h. subst (λ x. Explains x q) (ended_injective h) tt;
    }
    judge-IsTurn p q (task_stopped exit) drained e l d s out t = record {
      tailed = record { fresh = t.fresh; timed = t.timed };
      out = λ v. absurd (cc);
      explained = λ o h. elim (Bool-cases (is_ok exit)) [
        | inl k ↦
            subst (λ x. Explains x (record q { lost_at = none })) (ended_injective (rw k at h))
              (p.calls + 1, exit, s, k)
        | inr k ↦
            subst (λ x. Explains x (record q { lost_at = none })) (ended_injective (rw k at h))
              (p.calls + 1, s, k)
      ];
    }
    judge-IsTurn p q task_running drained e l d s out t = record {
      tailed = record { fresh = t.fresh; timed = t.timed };
      out = λ v x h. absurd (none_some h);
      explained = λ o h. elim (Bool-cases (leb q.deadline (r.clock q.calls))) [
        | inl k ↦
            subst (λ x. Explains x (record q { calls = q.calls + 1; lost_at = none }))
              (ended_injective (rw k at h)) (q.deadline, q.calls, t.timed, refl, ground arith)
        | inr k ↦ absurd (again_ended (rw k at h))
      ];
    }

    moved : {p : Poll} → IsTailed r p → IsTailed r (after p)
    moved t = record { fresh = t.fresh; timed = t.timed }

    turn-IsTurn : (p : Poll) → Out p → IsTailed r p → IsTurn (turn r lines p).0 (turn r lines p).1
    turn-IsTurn p out t =
        let one = drain-IsDrain r lines (after p) in
        let two = drain-IsDrain r lines (after (after p)) in
        elim (Bool-cases (r.cancelled p.calls)) [
          | inl c ↦ rw (turn_cancelled lines p c) (
              walk_away-IsTurn (drain r lines (after p)).0 (drain r lines (after p)).1 p.calls c
                (one.tailed (moved t)))
          | inr c ↦ elim (Option-cases (r.status (p.calls + 1))) [
            | inl e ↦
                let l = turn_lost lines p c e in
                rw l (lose-IsTurn p (after (after p)) l refl (c, inl e) out (moved (moved t)))
            | inr (status, e) ↦
                let j = turn_answered lines p c e in
                rw j (
                  judge-IsTurn p (drain r lines (after (after p))).1 status
                    (drain r lines (after (after p))).0 j two.lost_at (λ f. (c, inr f)) e out
                    (two.tailed (moved (moved t))))
          ]
        ]

    -- However long it has run, every batch handed over is new, and an end of the wait is explained.
    poll-IsTurn :
        (fuel : ℕ) (p : Poll)
        → Out p
        → IsTailed r p
        → IsTailed r (poll r lines fuel p).1
          × Explains (poll r lines fuel p).0 (poll r lines fuel p).1
    unfolding poll
    poll-IsTurn zero p out t = (t, tt)
    poll-IsTurn (suc fuel) p out t =
        next (turn r lines p).0 (turn r lines p).1 (turn-IsTurn p out t)
          (λ q o k. poll-IsTurn fuel q o k)
      where
        next :
            (v : Verdict) (p' : Poll)
            → IsTurn v p'
            → ((q : Poll)
                → Out q
                → IsTailed r q
                → IsTailed r (poll r lines fuel q).1
                  × Explains (poll r lines fuel q).0 (poll r lines fuel q).1)
            → let (o, q) = elim v as (λ x. Outcome × Poll) [
              | ended outcome ↦ (outcome, p')
              | again ↦ poll r lines fuel p'
            ] in
              IsTailed r q × Explains o q
        next (ended o) p' i rest = (i.tailed, i.explained o refl)
        next again p' i rest = rest p' (i.out refl) i.tailed

-- What a wait has done when it ends, or at any time before.
pub record IsPolled (r : Remote) (lines : ℕ) (o : Outcome) (p : Poll) : Type 0 where
  pub fresh : Fresh p.handed p.seen
  pub explained : Explains r lines o p

-- However many turns the wait has taken: each batch of log lines that was handed over has only
-- lines past those of all batches before it, so no line is handed over in two batches. A wait that
-- ended well saw the task stopped with `OK`, one that failed saw it stopped otherwise, one that was
-- cancelled was asked to. One that ended for silence read the clock at the end, and the timeout had
-- passed since the reading that followed the last batch handed over, or since the start if there
-- was none. One that gave up on lost contact read the clock at the end, and the grace period had
-- passed since a reading such that in its turn, and in every later one, a call to the server failed.
pub poll_task-IsPolled :
    (r : Remote) (lines fuel : ℕ)
    → IsPolled r lines (poll_task r lines fuel).0 (poll_task r lines fuel).1
unfolding poll_task
poll_task-IsPolled r lines fuel =
    let (tailed, explained) =
      poll-IsTurn r lines fuel (start r) (λ t e. absurd (none_some e))
        (record { fresh = tt; timed = refl }) in
    record { fresh = tailed.fresh; explained = explained }
