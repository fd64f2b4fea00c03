-- ===== src/Jobs/Sync/Cleanup.antt =====
-- The clean-up at the end of a sync (`_drop_sync_config` of backend/app/jobs/route_cycle.py).
use joulenap.Prelude.{
  ℕ, zero, suc, ◌+◌, ◌*◌, ◌≤◌, ◌≡◌, refl, ◌⊎◌, inl, inr, Bool, true, false, leb, ◌∷◌, Text,
  Bool-cases, arith,
}
use joulenap.Config.{PbsDevice}
use joulenap.Effects.{
  Result, ok, err, warn, Event, Trace, World, Env, Action, call, pure, attempt, ◌>>=◌, ask_clock,
  modify,
}
use joulenap.Remote.{sync_job_deleted, remote_deleted, slept}
use joulenap.Recorder.{log}
use joulenap.Recorder.Steps.{CommitsWork, committing, commit_lem}
use joulenap.Jobs.Clients.{Clients, ask}
use joulenap.Jobs.Tasks.{sleep}
use joulenap.Jobs.Sync.{drop_pair, drop_until, drop_sync_config, succeeded, unless, wait_turn}

-- The clock does not go back, and a sleep takes its time.
pub record IsSteady (env : Env) : Type 0 where
  pub onward : (e : Event) (t : Trace) → env.clock t ≤ env.clock (e ∷ t)
  pub rests : (n : ℕ) (t : Trace) → env.clock t + n ≤ env.clock (Event.remote (slept n) ∷ t)

module _ (env : Env) (far : Clients) (pbs : PbsDevice) (name : Text) (deadline : ℕ) where
  -- The box has removed the job and then the remote; or the clock, read after a failed attempt, was
  -- at the deadline or past it, and the run's log says so.
  pub record IsDropped (v : World) : Type 0 where
    pub tells :
        ((t : Trace) × (v.trace
            ≡ Event.remote (remote_deleted pbs.id name)
              ∷ Event.remote (sync_job_deleted pbs.id name)
              ∷ t)
          × (far.delete_sync_job pbs name t ≡ ok tt)
          × (far.delete_remote pbs name (Event.remote (sync_job_deleted pbs.id name) ∷ t) ≡ ok tt))
        ⊎ ((t : Trace) × (v.trace ≡ Event.committed ∷ Event.logged warn ∷ Event.clock_read ∷ t)
            × (deadline ≤ env.clock t))

  after_job : World → World
  after_job w = record w { trace = Event.remote (sync_job_deleted pbs.id name) ∷ w.trace }

  after_both : World → World
  unfolding after_job
  after_both w = record w {
    trace = Event.remote (remote_deleted pbs.id name) ∷ (after_job w).trace;
  }

  -- What an attempt to remove the two answers.
  record IsTried (w : World) : Type 0 where
    world : World
    gone : Bool
    done : succeeded env far (drop_pair env far pbs name) w ≡ (ok gone, world)
    tells : gone ≡ true → IsDropped world
    later : IsSteady env → env.clock w.trace ≤ env.clock world.trace

  attempt-IsTried : (w : World) → IsTried w
  unfolding drop_pair ask call attempt ◌>>=◌ pure after_job after_both
  attempt-IsTried w =
      go (far.delete_sync_job pbs name w.trace) refl
        (far.delete_remote pbs name (Event.remote (sync_job_deleted pbs.id name) ∷ w.trace)) refl
    where
      job : Event
      job = Event.remote (sync_job_deleted pbs.id name)

      both : IsSteady env → env.clock w.trace ≤ env.clock (after_both w).trace
      both s = omega (
        arith,
        s.onward job w.trace,
        s.onward (Event.remote (remote_deleted pbs.id name)) (job ∷ w.trace),
      )

      go :
          (r : Result (Unit {0}))
          → far.delete_sync_job pbs name w.trace ≡ r
          → (q : Result (Unit {0}))
          → far.delete_remote pbs name (Event.remote (sync_job_deleted pbs.id name) ∷ w.trace) ≡ q
          → IsTried w
      go (ok x) a (ok y) b = record {
        world = after_both w;
        gone = true;
        done = rw (a, b) refl;
        tells = λ h. record { tells = inl (w.trace, refl, a, b) };
        later = both;
      }
      go (ok x) a (err e) b = record {
        world = after_both w;
        gone = false;
        done = rw (a, b) refl;
        tells = λ h. absurd (cc);
        later = both;
      }
      go (err e) a q b = record {
        world = after_job w;
        gone = false;
        done = rw a refl;
        tells = λ h. absurd (cc);
        later = λ s. s.onward job w.trace;
      }

  module _ (works : CommitsWork env) (steady : IsSteady env) where
    ticked : World → World
    ticked w = record w { trace = Event.clock_read ∷ w.trace }

    give_up :
        (u : World) (later : Action (Unit {0}))
        → deadline ≤ env.clock u.trace
        → (v : World) × (wait_turn env far deadline later u ≡ (ok tt, v)) × IsDropped v
    unfolding ask_clock call ◌>>=◌ log modify committing
    give_up u later h =
        let due : leb deadline (env.clock u.trace) ≡ true = ground arith in
        let warned : World = record u { trace = Event.logged warn ∷ Event.clock_read ∷ u.trace } in
        (
          committing env works warned,
          rw (due, commit_lem env works warned) refl,
          record { tells = inr (u.trace, refl, h) },
        )

    rested : World → World
    rested u = record u { trace = Event.remote (slept 5000) ∷ Event.clock_read ∷ u.trace }

    go_on :
        (u : World) (later : Action (Unit {0})) {v : World}
        → leb deadline (env.clock u.trace) ≡ false
        → later (rested u) ≡ (ok tt, v)
        → wait_turn env far deadline later u ≡ (ok tt, v)
    unfolding ask_clock call ◌>>=◌ sleep ask rested
    go_on u later h e = rw (h, e) refl

    rested_lem : (u : World) → env.clock u.trace + 5000 ≤ env.clock (rested u).trace
    unfolding rested
    rested_lem u = omega (
      arith,
      steady.onward Event.clock_read u.trace,
      steady.rests 5000 (Event.clock_read ∷ u.trace),
    )

    turn :
        (fuel : ℕ) (w u : World) {gone : Bool} {v : World}
        → succeeded env far (drop_pair env far pbs name) w ≡ (ok gone, u)
        → unless env far gone
            (wait_turn env far deadline (drop_until env far pbs name deadline fuel))
            u
          ≡ (ok tt, v)
        → drop_until env far pbs name deadline (suc fuel) w ≡ (ok tt, v)
    unfolding drop_until ◌>>=◌
    turn fuel w u e h = rw e h

    -- A turn of the loop, with the turns after it where the deadline is not reached.
    drop_until-turn :
        (fuel : ℕ) (w : World) (t : IsTried w)
        → (leb deadline (env.clock t.world.trace) ≡ false
            → (v : World) × (drop_until env far pbs name deadline fuel (rested t.world)
                ≡ (ok tt, v))
              × IsDropped v)
        → (v : World) × (drop_until env far pbs name deadline (suc fuel) w ≡ (ok tt, v))
          × IsDropped v
    unfolding pure
    drop_until-turn fuel w t more = elim (Bool-cases t.gone) [
      | inl g ↦ (t.world, turn fuel w t.world t.done (rw g refl), t.tells g)
      | inr g ↦ elim (Bool-cases (leb deadline (env.clock t.world.trace))) [
        | inl d ↦
            let (v, e, p) =
              give_up t.world (drop_until env far pbs name deadline fuel) (ground arith) in
            (v, turn fuel w t.world t.done (rw g e), p)
        | inr d ↦
            let (v, e, p) = more d in
            (v, turn fuel w t.world t.done (rw g (go_on t.world _ d e)), p)
      ]
    ]

    drop_until-returns :
        (k : ℕ) (w : World)
        → deadline ≤ env.clock w.trace + 5000 * k
        → (v : World) × (drop_until env far pbs name deadline (suc k) w ≡ (ok tt, v)) × IsDropped v
    drop_until-returns zero w h =
        let t = attempt-IsTried w in
        drop_until-turn zero w t (λ d. absurd (ground (arith, t.later steady)))
    drop_until-returns (suc k) w h =
        let t = attempt-IsTried w in
        drop_until-turn (suc k) w t (λ d.
          drop_until-returns k (rested t.world)
            (omega (arith, h, t.later steady, rested_lem t.world)))

-- Where no commit fails, the clock does not go back and a sleep takes its time, 13 attempts are
-- enough for the clean-up to return: then the box has removed the job and after it the remote that
-- holds the other box's token; or a minute has passed, and the run's log says that it did not.
pub drop_sync_config-returns :
    (env : Env) (far : Clients) (pbs : PbsDevice) (name : Text) (w : World)
    → CommitsWork env
    → IsSteady env
    → (v : World) × (drop_sync_config env far pbs name 13 w ≡ (ok tt, v))
      × IsDropped env far pbs name (env.clock w.trace + 60000) v
unfolding drop_sync_config ask_clock call ◌>>=◌
drop_sync_config-returns env far pbs name w works steady =
    drop_until-returns env far pbs name (env.clock w.trace + 60000) works steady 12
      (record w { trace = Event.clock_read ∷ w.trace })
      (omega (arith, steady.onward Event.clock_read w.trace))
