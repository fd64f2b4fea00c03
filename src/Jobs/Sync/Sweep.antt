-- ===== src/Jobs/Sync/Sweep.antt =====
-- What the sweep at the start of a sync may remove (`_sweep_sync_config` of
-- backend/app/jobs/route_cycle.py).
use joulenap.Prelude.{
  ◌≡◌, refl, Bool, true, false, ◌||◌, Option, none, some, List, [], ◌∷◌, ◌++◌, Text, text_eq,
  is_empty, contains, starts_with, All, filter, Bool-cases, inl, inr, if◌then◌else◌, arith,
}
use joulenap.Config.{PbsDevice}
use joulenap.Effects.{ok, Event, Trace, World, Env, Action, pure}
use joulenap.Effects.Keeps.{Keeps, Keeps-bind, Keeps-attempt, Keeps-pure, Keeps-if, Keeps-call}
use joulenap.Effects.Adds.{Adds, Adds-preorder, Adds-event, Keeps-call_bind}
use joulenap.Remote.{sync_job_deleted, remote_deleted, sync_names_read, tasks_read}
use joulenap.Recorder.Frame.{IsFrame, Keeps-log}
use joulenap.Jobs.Clients.{Clients, ask}
use joulenap.Jobs.Sync.{
  ours, busy_text, stale_names, sort_names, sweep_name, sweep_names, sweep_sync_config, sweep_stale,
  is_named,
}

-- What an event removes from which box, if it does.
abbrev pub removes : Event → Option (Text × Text)
removes (Event.remote (sync_job_deleted pbs name)) = some (pbs, name)
removes (Event.remote (remote_deleted pbs name)) = some (pbs, name)
removes _ = none

module _ (far : Clients) (pbs : PbsDevice) (keep : Text) where
  -- An object of that name may be removed: it is Joulenap's, not this run's, and none of the tasks
  -- that the box answered it is running names it.
  pub record MayGo (name : Text) : Type 0 where
    pub our_own : starts_with ours name ≡ true
    pub not_kept : text_eq name keep ≡ false
    pub idle :
        (t : Trace) × (tasks : List (Option Text)) × (far.active_tasks pbs t ≡ ok tasks)
        × (contains name (busy_text tasks) ≡ false)

  abbrev pub Harmless : Event → Type 0
  Harmless e = (box name : Text) → removes e ≡ some (box, name) → (box ≡ pbs.id) × MayGo name

  frame : IsFrame (Adds Harmless)
  frame = record {
    order = Adds-preorder Harmless;
    on_row = λ w run saved finished. record { events = []; grown = refl; sort = tt };
    on_commit = Adds-event Harmless Event.committed (λ box name q. absurd (cc));
    on_log = λ level. Adds-event Harmless (Event.logged level) (λ box name q. absurd (cc));
  }

  given :
      (name : Text)
      → MayGo name
      → (box n : Text) → ◌≡◌ {A = Option (Text × Text)} (some (pbs.id, name)) (some (box, n))
      → (box ≡ pbs.id) × MayGo n
  given name m box n q = let e : name ≡ n = cc in (cc, rw e at m)

  Keeps-unless :
      (b : Bool) (m : Action (Unit {0}))
      → (b ≡ false → Keeps (Adds Harmless) m)
      → Keeps (Adds Harmless) (if b then pure tt else m)
  Keeps-unless true m k = Keeps-pure frame.order tt
  Keeps-unless false m k = k refl

  module _ (env : Env) where
    sweep_name-Harmless :
        (jobs remotes : List Text) (name : Text)
        → MayGo name
        → Keeps (Adds Harmless) (sweep_name env far pbs jobs remotes name)
    unfolding sweep_name ask
    sweep_name-Harmless jobs remotes name m =
        Keeps-bind frame.order _ _
          (Keeps-if (is_named name jobs) _ _
            (Keeps-call _ (far.delete_sync_job pbs name)
              (Adds-event Harmless (Event.remote (sync_job_deleted pbs.id name)) (given name m)))
            (Keeps-pure frame.order tt))
          (λ _.
            Keeps-bind frame.order _ _
              (Keeps-if (is_named name remotes) _ _
                (Keeps-call _ (far.delete_remote pbs name)
                  (Adds-event Harmless (Event.remote (remote_deleted pbs.id name)) (given name m)))
                (Keeps-pure frame.order tt))
              (λ _. Keeps-log env frame _))

    sweep_names-Harmless :
        (t : Trace) (tasks : List (Option Text))
        → far.active_tasks pbs t ≡ ok tasks
        → (jobs remotes names : List Text) → All (λ n. starts_with ours n ≡ true) names
        → Keeps (Adds Harmless) (sweep_names env far pbs jobs remotes keep (busy_text tasks) names)
    unfolding sweep_names
    sweep_names-Harmless t tasks a jobs remotes [] h = Keeps-pure frame.order tt
    sweep_names-Harmless t tasks a jobs remotes (name ∷ names) h =
        Keeps-bind frame.order _ _
          (Keeps-unless (text_eq name keep || contains name (busy_text tasks)) _ (λ free.
            sweep_name-Harmless jobs remotes name (record {
              our_own = h.0;
              not_kept = ground arith;
              idle = (t, tasks, a, ground arith);
            })))
          (λ _. sweep_names-Harmless t tasks a jobs remotes names h.1)

    sweep_stale-Harmless :
        (jobs remotes names : List Text)
        → All (λ n. starts_with ours n ≡ true) names
        → Keeps (Adds Harmless) (sweep_stale env far pbs jobs remotes keep names)
    unfolding ask
    sweep_stale-Harmless jobs remotes names h =
        Keeps-call_bind frame.order _ _ _
          (Adds-event Harmless (Event.remote (tasks_read pbs.id)) (λ box n q. absurd (cc)))
          (λ t tasks a.
            Keeps-bind frame.order _ _
              (Keeps-if (contains keep (busy_text tasks)) _ _ (Keeps-log env frame _)
                (Keeps-pure frame.order tt))
              (λ _. sweep_names-Harmless t tasks a jobs remotes names h))

All-filter : (p : Text → Bool) (xs : List Text) → All (λ x. p x ≡ true) (filter p xs)
All-filter p [] = tt
All-filter p (x ∷ xs) = elim (Bool-cases (p x)) [
  | inl e ↦ rw e (e, All-filter p xs)
  | inr e ↦ rw e (All-filter p xs)
]

-- Whatever the box answers, the sweep removes only objects from that box whose names start as
-- Joulenap's do, that are not this run's own, and that no task names which the box said was running.
pub sweep_sync_config-Harmless :
    (env : Env) (far : Clients) (pbs : PbsDevice) (keep : Text) (w : World)
    → Adds (Harmless far pbs keep) w (sweep_sync_config env far pbs keep w).1
unfolding sweep_sync_config ask stale_names
sweep_sync_config-Harmless env far pbs keep w =
    (Keeps-attempt (frame far pbs keep).order _ _
        (Keeps-bind (frame far pbs keep).order _ _
          (Keeps-call _ _ (
            Adds-event (Harmless far pbs keep) (Event.remote (sync_names_read pbs.id))
              (λ box n q. absurd (cc))))
          (λ names.
            Keeps-if (is_empty (stale_names names.0 names.1)) _ _
              (Keeps-pure (frame far pbs keep).order tt)
              (sweep_stale-Harmless far pbs keep env names.0 names.1 (stale_names names.0 names.1)
                (All-filter (starts_with ours) (sort_names (names.0 ++ names.1))))))
        (λ e. Keeps-log env (frame far pbs keep) _)).at
      w
