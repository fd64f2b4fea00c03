-- ===== src/Jobs/Turns.antt =====
-- The sources of a backup route (`run_route_backup` of backend/app/jobs/backup_cycle.py): one that
-- fails does not cost the others their turn.
use joulenap.Prelude.{
  ◌≡◌, ◌⊎◌, inl, inr, ◌∷◌, List, [], Text, some, Option, lookup, ℕ, All, All-weaken, Bool-cases,
}
use joulenap.Config.{PveDevice, RouteSource, Route, Config, find_pve}
use joulenap.Effects.{
  call, Failure, StepName, cycle_cancelled, ok, err, Event, World, Env, Action, backup_step, error,
  pure, raise, ◌>>=◌, Result-cases, ask_cancelled,
}
use joulenap.Effects.Binds.{
  >>=-inv_ok, >>=-inv_err, attempt-ok, attempt-err, Returns, Returns-ne-err, Returns-bind,
}
use joulenap.Effects.Keeps.{Keeps-moves, Keeps-bind, Keeps-pure, Keeps-raise}
use joulenap.Effects.Reach.{
  Since, Since-later, Since-first, Reaches, Reaches-call, Reaches-attempt, Reaches-first,
  Reaches-pure, Reaches-after,
}
use joulenap.Effects.Adds.{Adds-preorder}
use joulenap.Effects.Blames.{Grown, Cancelled}
use joulenap.Jobs.Blames.{AreHonest, Grown-job}
use joulenap.Jobs.Blames.Sources.{Blames-backup_sources}
use joulenap.Remote.{Cycle, connected}
use joulenap.Recorder.{in_step, end_step}
use joulenap.Recorder.Frame.{Keeps-step_failed, Keeps-step_done, Keeps-begin_step}
use joulenap.Recorder.Steps.{CommitsWork, Returns-begin_step, Returns-log, Returns-modify}
use joulenap.Jobs.Clients.{Clients, ask}
use joulenap.Jobs.Tasks.{stop_if_cancelled}
use joulenap.Jobs.Backup.{
  source_step, source_failed, on_cycle, backup_source, try_source, backup_sources,
}
use joulenap.Jobs.Frame.{Keeps-on_cycle, Keeps-stop_if_cancelled}
use joulenap.Jobs.Frame.Steps.{step_rules}
use joulenap.Jobs.Frame.Backup.{
  Keeps-warn_missing, Keeps-backup_nodes, Keeps-source_failed, Keeps-backup_sources,
  Keeps-try_source,
}

-- From `w` to `v` the server of the source was asked, if the configuration has it, with a storage for the target.
pub record HasTurn (config : Config) (route : Route) (w v : World) (source : RouteSource)
    : Type 0 where
  pub asked :
      (pve : PveDevice) (c : ℕ) (storage : Text)
      → find_pve source.pve config.pves ≡ some pve
      → lookup route.target pve.storages ≡ some (c ∷ storage)
      → Since (Event.remote (connected pve.id)) w v

module _ (env : Env) (far : Clients) (works : CommitsWork env) (config : Config)
    (route : Route) where
  Returns-on_cycle : (f : Cycle → Cycle) → Returns (on_cycle f)
  unfolding on_cycle
  Returns-on_cycle f = Returns-modify env works _

  backup_source-Reaches :
      (source : RouteSource) (pve : PveDevice) (c : ℕ) (storage : Text)
      → find_pve source.pve config.pves ≡ some pve
      → lookup route.target pve.storages ≡ some (c ∷ storage)
      → Reaches (Event.remote (connected pve.id)) (backup_source env far config route source)
  unfolding backup_source ask
  backup_source-Reaches source pve c storage h k = rw h (
      Reaches-pure pve _ (
        rw k (
          Reaches-pure (c ∷ storage) _ (
            Reaches-after _ _ (Returns-on_cycle _) (Keeps-on_cycle Grown-job _) (λ _.
              Reaches-first _ _ (Reaches-call _) (λ _.
                search (Grown-job, step_rules, Keeps-warn_missing, Keeps-backup_nodes) depth
                  18))))))

  in_step-Reaches :
      {e : Event} (name : StepName) (label : Option Text) (body : Action (Unit {0}))
      → Reaches e body
      → Reaches e (in_step env name label body)
  unfolding in_step end_step
  in_step-Reaches name label body r =
      Reaches-after _ _ (Returns-begin_step env works name label)
        (Keeps-begin_step env Grown-job.run.frame name label)
        (λ _.
          Reaches-first _ _
            (Reaches-attempt _ _ r (λ x.
              Keeps-bind (Adds-preorder _) _ _ (Keeps-step_failed env Grown-job.run.frame x)
                (λ _. Keeps-raise (Adds-preorder _) x)))
            (λ a.
              Keeps-bind (Adds-preorder _) _ _ (Keeps-step_done env Grown-job.run.frame)
                (λ _. Keeps-pure (Adds-preorder _) a)))

  source_step-Reaches :
      (source : RouteSource) (pve : PveDevice) (c : ℕ) (storage : Text)
      → find_pve source.pve config.pves ≡ some pve
      → lookup route.target pve.storages ≡ some (c ∷ storage)
      → Reaches (Event.remote (connected pve.id)) (source_step env far config route source)
  unfolding source_step
  source_step-Reaches source pve c storage h k =
      Reaches-after _ _ (Returns-on_cycle _) (Keeps-on_cycle Grown-job _)
        (λ _. in_step-Reaches backup_step _ _ (backup_source-Reaches source pve c storage h k))

  try_source-Happened :
      (source : RouteSource) (pve : PveDevice) (c : ℕ) (storage : Text)
      → find_pve source.pve config.pves ≡ some pve
      → lookup route.target pve.storages ≡ some (c ∷ storage)
      → (w v : World) {a : Unit {0}} → try_source env far config route source w ≡ (ok a, v)
      → Since (Event.remote (connected pve.id)) w v
  unfolding try_source
  try_source-Happened source pve c storage h k w v e =
      let (a, u, p, q) = >>=-inv_ok (stop_if_cancelled env) _ w e in
      let r =
        Reaches-attempt _ _ (source_step-Reaches source pve c storage h k)
          (Keeps-source_failed env far Grown-job source) in
      Since-first w u v
        (Keeps-moves (stop_if_cancelled env) w (Keeps-stop_if_cancelled env Grown-job) p)
        (rw q at (r.at u))

  stop-ends :
      (w : World) {e : Failure} {v : World}
      → stop_if_cancelled env w ≡ (err e, v)
      → e ≡ cycle_cancelled
  unfolding stop_if_cancelled ask_cancelled call ◌>>=◌ raise pure
  stop-ends w h = elim (Bool-cases (env.cancelled w.trace)) [
    | inl c ↦ cc (rw c at h)
    | inr c ↦ absurd (cc (rw c at h))
  ]

  source_failed-ends :
      (source : RouteSource) (x : Failure) (u : World) {e : Failure} {v : World}
      → source_failed env far source x u ≡ (err e, v)
      → e ≡ cycle_cancelled
  unfolding source_failed raise
  source_failed-ends source cycle_cancelled u h = cc
  source_failed-ends source _ u h = absurd (
      Returns-ne-err _ u (Returns-bind _ _ (Returns-on_cycle _) (λ _. Returns-log env works error))
        h)

  try_source-ends :
      (source : RouteSource) (w : World) {e : Failure} {v : World}
      → try_source env far config route source w ≡ (err e, v)
      → e ≡ cycle_cancelled
  unfolding try_source
  try_source-ends source w h = elim (>>=-inv_err (stop_if_cancelled env) _ w h) [
    | inl early ↦ stop-ends w early
    | inr (a, u, p, q) ↦ elim (Result-cases (source_step env far config route source u)) [
      | inl (b, u', r) ↦ absurd (
          cc (
            attempt-ok (source_step env far config route source) (source_failed env far source) u
              r))
      | inr (x, u', r) ↦ source_failed-ends source x u' (
          rw
            (attempt-err (source_step env far config route source) (source_failed env far source) u
              r)
            at q)
    ]
  ]

  backup_sources-ends :
      (sources : List RouteSource) (w : World) {e : Failure} {v : World}
      → backup_sources env far config route sources w ≡ (err e, v)
      → e ≡ cycle_cancelled
  unfolding backup_sources pure
  backup_sources-ends [] w h = absurd (cc)
  backup_sources-ends (source ∷ rest) w h =
      elim (>>=-inv_err (try_source env far config route source) _ w h) [
        | inl early ↦ try_source-ends source w early
        | inr (a, u, p, q) ↦ backup_sources-ends rest u q
      ]

  later_turn :
      (w u v : World)
      → Grown w u
      → (source : RouteSource) → HasTurn config route u v source
      → HasTurn config route w v source
  later_turn w u v g source t = record {
    asked = λ pve c storage f k. Since-first w u v g (t.asked pve c storage f k);
  }

  backup_sources-turns :
      (sources : List RouteSource) (w v : World) {a : Unit {0}}
      → backup_sources env far config route sources w ≡ (ok a, v)
      → All (HasTurn config route w v) sources
  unfolding backup_sources
  backup_sources-turns [] w v h = tt
  backup_sources-turns (source ∷ rest) w v h =
      let (a, u, p, q) = >>=-inv_ok (try_source env far config route source) _ w h in
      let later = Keeps-moves _ u (Keeps-backup_sources env far Grown-job config route rest) q in
      let first = Keeps-moves _ w (Keeps-try_source env far Grown-job config route source) p in
      (
        record {
          asked = λ pve c storage f k.
              Since-later w u v (try_source-Happened source pve c storage f k w u p) later;
        },
        All-weaken (λ x t. later_turn w u v first x t) rest (backup_sources-turns rest u v q),
      )

-- Where no commit fails, no client raises `CycleCancelled` of its own and a wait for a task is
-- cancelled only when the user has cancelled the run, the sources of a backup route all get their
-- turn, whatever the servers answer and however many of them fail: each one that the configuration
-- can reach is asked in the course of the sources' backups; or else these end with the run being
-- cancelled, and at some moment in their course the user had cancelled it.
pub backup_sources-HasTurn :
    (env : Env) (far : Clients) (config : Config) (route : Route) (sources : List RouteSource)
    (w : World)
    → CommitsWork env
    → AreHonest env far
    → ((v : World) × (backup_sources env far config route sources w ≡ (ok tt, v))
        × All (HasTurn config route w v) sources)
      ⊎ ((v : World) × (backup_sources env far config route sources w ≡ (err cycle_cancelled, v))
          × Cancelled env w v)
backup_sources-HasTurn env far config route sources w works honest =
    elim (Result-cases (backup_sources env far config route sources w)) [
      | inl (a, v, e) ↦ inl (v, e, backup_sources-turns env far works config route sources w v e)
      | inr (x, v, e) ↦
          let c = backup_sources-ends env far works config route sources w e in
          let cancelled = rw c at e in
          inr (
            v,
            cancelled,
            (Blames-backup_sources env far works honest config route sources).raises w cancelled,
          )
    ]
