-- ===== src/Jobs/Blames.antt =====
-- The sources of a backup route (backend/app/jobs/backup_cycle.py): only the user cancels them.
pub mod Sources
use joulenap.Prelude.{
  ◌≡◌, ◌≢◌, refl, ap, ◌∙◌, sym, Bool, true, false, Option, none, some, List, [], ◌∷◌, Text, codes,
  Dict, inl, inr, ℕ, is_empty, length, ◌||◌, not, ltb, if◌then◌else◌, Bool-cases,
}
use joulenap.Config.{PveDevice, RouteGuests, RouteSource, Route, Config}
use joulenap.Effects.{
  Failure, cycle_cancelled, cycle_abort, task_cancelled, Result, ok, err, LogLevel, StepName, Event,
  Trace, World, Env, Action, pure, raise, call, gets, modify, attempt, ◌>>=◌, ◌>>◌, Result-cases,
  ask_cancelled,
}
use joulenap.Effects.Adds.{Adds, Adds-preorder}
use joulenap.Effects.Binds.{
  >>=-inv_ok, >>=-inv_err, attempt-ok, attempt-err, Returns, Returns-bind, Returns-pure,
  Returns-gets, Returns-if, Returns-ne-err, Returns-attempt, pure-inv,
}
use joulenap.Effects.Keeps.{Keeps, Keeps-moves, Keeps-bind, Keeps-pure, Keeps-raise, Keeps-gets}
use joulenap.Effects.Blames.{
  Grown, Cancelled, Cancelled-now, Cancelled-before, Blames, Any, Blames-pure, Blames-Returns,
  Blames-raise, Blames-call, Blames-if, Blames-attempt, Blames-bind,
}
use joulenap.Remote.{Cycle, task_awaited}
use joulenap.Recorder.{
  log, commit, set_detail, begin_step, end_step, in_step, step_failed, step_done, update_step,
}
use joulenap.Recorder.Steps.{
  CommitsWork, Returns-commit, Returns-log, Returns-modify, Returns-update_step, Returns-begin_step,
  Returns-step_failed, Returns-step_done,
}
use joulenap.Jobs.Clients.{Guest, VzdumpRequest, Heard, batch, lost, Clients, ask}
use joulenap.Jobs.Tasks.{LogWatch, on_log, hear, settled, end_wait, wait_or_stop, stop_if_cancelled}
use joulenap.Jobs.Frame.{
  IsJobFrame, job_rules, Keeps-detail, Keeps-stop_if_cancelled, Keeps-wait_or_stop,
}
use joulenap.Jobs.Frame.Steps.{step_rules}

pub Grown-job : IsJobFrame Grown
Grown-job = record {
  run = record {
    frame = record {
      order = Adds-preorder _;
      on_row = λ w run saved finished. record { events = []; grown = refl; sort = tt };
      on_commit = λ w. record { events = _ ∷ []; grown = refl; sort = (tt, tt) };
      on_log = λ level w. record { events = _ ∷ []; grown = refl; sort = (tt, tt) };
    };
    on_event = λ e p w. record { events = e ∷ []; grown = refl; sort = (tt, tt) };
  };
  on_cycle = λ w c. record { events = []; grown = refl; sort = tt };
}

-- The clients of a backup raise no `CycleCancelled` of their own, and a wait for a task is
-- cancelled only if its `should_cancel` said so: the user had cancelled the run.
pub record AreHonest (env : Env) (far : Clients) : Type 0 where
  pub connect : (id : Text) (t : Trace) → far.connect id t ≢ err cycle_cancelled
  pub list_guests : (pve : PveDevice) (t : Trace) → far.list_guests pve t ≢ err cycle_cancelled
  pub vzdump :
      (pve : PveDevice) (asked : VzdumpRequest) (t : Trace)
      → far.vzdump pve asked t ≢ err cycle_cancelled
  pub waits : (upid : Text) (t : Trace) → (far.wait_task upid t).ended ≢ err cycle_cancelled
  pub cancelled_waits :
      (upid : Text) (t : Trace)
      → (far.wait_task upid t).ended ≡ err task_cancelled
      → env.cancelled t ≡ true

module _ (env : Env) (far : Clients) (works : CommitsWork env) (honest : AreHonest env far) where
  not_cancelled :
      (w : World) {v : World}
      → env.cancelled w.trace ≡ false
      → stop_if_cancelled env w ≡ (err cycle_cancelled, v)
      → ⊥
  unfolding stop_if_cancelled ask_cancelled call ◌>>=◌ raise pure
  not_cancelled w c e = cc (rw c at e)

  pub Blames-stop_if_cancelled : Blames env (Any env) (stop_if_cancelled env)
  Blames-stop_if_cancelled = record {
    grows = Keeps-stop_if_cancelled env Grown-job;
    returns = λ w e. tt;
    raises = λ w {v} e. elim (Bool-cases (env.cancelled w.trace)) [
      | inl c ↦
          Cancelled-now env w v c
            (Keeps-moves (stop_if_cancelled env) w (Keeps-stop_if_cancelled env Grown-job) e)
      | inr c ↦ absurd (not_cancelled w c e)
    ];
  }

  Returns-on_log :
      (watch : LogWatch)
      → ((lines : List (ℕ × Text)) → Returns (watch lines))
      → (lines : List (ℕ × Text)) → Returns (on_log env watch lines)
  unfolding on_log
  Returns-on_log watch r lines =
      Returns-bind _ _ (Returns-attempt _ _ (λ e. Returns-log env works _)) (λ _. r lines)

  Returns-hear :
      (watch : LogWatch)
      → ((lines : List (ℕ × Text)) → Returns (watch lines))
      → (heard : List Heard) → Returns (hear env watch heard)
  unfolding hear
  Returns-hear watch r [] = Returns-pure tt
  Returns-hear watch r (batch lines ∷ later) =
      Returns-bind _ _ (Returns-on_log watch r lines) (λ _. Returns-hear watch r later)
  Returns-hear watch r (lost ∷ later) =
      Returns-bind _ _ (Returns-log env works _) (λ _. Returns-hear watch r later)

  settled-err :
      (r : Result (Unit {0})) (w : World) {x : Failure} {v : World}
      → settled r w ≡ (err x, v)
      → r ≡ err x
  unfolding pure raise
  settled-err (ok a) w e = absurd (cc)
  settled-err (err y) w e = cc

  -- The wait itself, of which `wait_or_stop` handles the failure.
  abbrev wait : Text → LogWatch → Action (Unit {0})
  wait upid watch = do
    waited ← ask (task_awaited upid) (λ t. ok (far.wait_task upid t))
    hear env watch waited.heard
    settled waited.ended

  wait-err :
      (upid : Text) (watch : LogWatch) (w : World) {x : Failure} {v : World}
      → ((lines : List (ℕ × Text)) → Returns (watch lines))
      → wait upid watch w ≡ (err x, v)
      → (far.wait_task upid w.trace).ended ≡ err x
  unfolding ask call ◌>>=◌
  wait-err upid watch w r e =
      elim (>>=-inv_err (hear env watch (far.wait_task upid w.trace).heard) _ _ e) [
        | inl early ↦ absurd (Returns-ne-err _ _ (Returns-hear watch r _) early)
        | inr (a, u, p, q) ↦ settled-err _ u q
      ]

  end_wait-Cancelled :
      (upid : Text) (w u : World) (x : Failure) (v : World)
      → (far.wait_task upid w.trace).ended ≡ err x
      → Grown w v
      → end_wait env far upid x u ≡ (err cycle_cancelled, v)
      → Cancelled env w v
  unfolding end_wait raise
  end_wait-Cancelled upid w u task_cancelled v ended g e =
      Cancelled-now env w v (honest.cancelled_waits upid w.trace ended) g
  end_wait-Cancelled upid w u x v ended g e =
      let same : x ≡ cycle_cancelled = cc in absurd (honest.waits upid w.trace (rw same at ended))

  Blames-waiting :
      (upid : Text) (watch : LogWatch)
      → ((lines : List (ℕ × Text)) → Returns (watch lines))
      → Keeps Grown (attempt (wait upid watch) (end_wait env far upid))
      → Blames env (Any env) (attempt (wait upid watch) (end_wait env far upid))
  Blames-waiting upid watch r grows = record {
    grows = grows;
    returns = λ w e. tt;
    raises = λ w {v} e. elim (Result-cases (wait upid watch w)) [
      | inl (a, u, p) ↦ absurd (cc (attempt-ok (wait upid watch) (end_wait env far upid) w p))
      | inr (x, u, p) ↦
          end_wait-Cancelled upid w u x v (wait-err upid watch w r p) (Keeps-moves _ w grows e)
            (sym (attempt-err (wait upid watch) (end_wait env far upid) w p) ∙ e)
    ];
  }

  pub Blames-wait_or_stop :
      (upid : Text) (watch : LogWatch)
      → ((lines : List (ℕ × Text)) → Returns (watch lines))
      → ((lines : List (ℕ × Text)) → Keeps Grown (watch lines))
      → Blames env (Any env) (wait_or_stop env far upid watch)
  unfolding wait_or_stop
  Blames-wait_or_stop upid watch r k =
      Blames-waiting upid watch r (Keeps-wait_or_stop env Grown-job far upid watch k)
