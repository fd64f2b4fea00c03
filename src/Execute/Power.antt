-- ===== src/Execute/Power.antt =====
-- A run that was told to leave its boxes on (`_power_off_policy` of backend/app/jobs/service.py).
use joulenap.Prelude.{
  subst, ◌≡◌, ◌∙◌, refl, inl, inr, Bool, true, false, not, Option, none, some, List, [], ◌∷◌,
  Bool-cases, ◌==◌, arith,
}
use joulenap.Config.{PbsDevice, Config}
use joulenap.Effects.{Failure, ok, Event, World, Env, Action, pure, ◌>>=◌, Result-cases}
use joulenap.Effects.Binds.{>>=-ok, >>=-err}
use joulenap.Effects.Keeps.{
  IsPreorder, Keeps, Keeps-moves, Keeps-bind, Keeps-attempt, Keeps-ensure, Keeps-call, Keeps-modify,
  Keeps-pure, Keeps-gets, Keeps-if,
}
use joulenap.Lease.{release}
use joulenap.Lease.Release.{commands, release-IsRelease}
use joulenap.Lease.Frame.{is_power, IsLeaseFrame, Keeps-acquire}
use joulenap.Service.{QueuedRun, Subject, resolve}
use joulenap.Recorder.{open_run}
use joulenap.Recorder.Frame.{IsFrame, Keeps-set_detail, Keeps-in_step, Keeps-finish, Keeps-recorded}
use joulenap.Execute.{
  forget_held, add_held, acquire_step, acquire_all, ask_policy, release_step, release_each,
  release_recorded, release_bare, release_crashed, settle_up, wake_failed, do_job, woke,
  run_or_settle, run_block, run_held, is_multi, could_not_start, begin_held, execute_resolved,
  execute,
}
use joulenap.Execute.Frame.{IsRunFrame, Keeps-ask_cancelled, Keeps-record_outcome, Keeps-notify_if}

-- No power command was sent.
abbrev pub Quiet : World → World → Type 0
Quiet v w = commands w.trace ≡ commands v.trace

order : IsPreorder Quiet
order = record { same = λ w. refl; chain = λ u v w p q. q ∙ p }

frame : IsFrame Quiet
frame = record {
  order = order;
  on_row = λ w run saved finished. refl;
  on_commit = λ w. refl;
  on_log = λ level w. refl;
}

quiet_event :
    (e : Event) → is_power e ≡ false → (w : World) → Quiet w (record w { trace = e ∷ w.trace })
quiet_event e p w = ground arith

lease : IsLeaseFrame Quiet
lease = record { order = order; on_event = quiet_event; on_machines = λ w machines. refl }

pub run : IsRunFrame Quiet
run = record { frame = frame; on_event = quiet_event }

-- A bind whose first part can only return values of which `P` holds.
Keeps-bind_where {ℓ κ} :
    {A : Type ℓ} {B : Type κ} (P : A → Type 0) (m : Action A) (f : A → Action B)
    → Keeps Quiet m
    → ((w : World) (a : A) (v : World) → m w ≡ (ok a, v) → P a)
    → ((a : A) → P a → Keeps Quiet (f a))
    → Keeps Quiet (m >>= f)
Keeps-bind_where P m f k h g = record {
  at = λ w. elim (Result-cases (m w)) [
    | inl (a, v, e) ↦ rw (>>=-ok m f w e) ((g a (h w a v e)).at v ∙ Keeps-moves m w k e)
    | inr (x, v, e) ↦ rw (>>=-err m f w e) (Keeps-moves m w k e)
  ];
}

module _ (env : Env) where
  Quiet-release : (d : PbsDevice) → Keeps Quiet (release env d false)
  Quiet-release d = record {
    at = λ w.
        let r = release-IsRelease env d false w in
        elim (Bool-cases (commands (release env d false w).1.trace == commands w.trace)) [
          | inl e ↦ ground arith
          | inr e ↦
              absurd (let may = (r.safe (λ q. ground arith)).1 in ground (arith, may.wanted_off))
        ];
  }

  Quiet-acquire_step : (multi : Bool) (d : PbsDevice) → Keeps Quiet (acquire_step env multi d)
  unfolding acquire_step
  Quiet-acquire_step multi d =
      Keeps-in_step env frame _ _ _
        (Keeps-bind order _ _ (Keeps-acquire env lease d) (λ awake. Keeps-set_detail env frame _))

  Quiet-acquire_all : (multi : Bool) (ds : List PbsDevice) → Keeps Quiet (acquire_all env multi ds)
  unfolding acquire_all add_held
  Quiet-acquire_all multi [] = Keeps-pure order tt
  Quiet-acquire_all multi (d ∷ ds) =
      Keeps-bind order _ _ (Quiet-acquire_step multi d)
        (λ _. Keeps-bind order _ _ (Keeps-modify _ (λ w. refl)) (λ _. Quiet-acquire_all multi ds))

  Quiet-release_bare : (ds : List PbsDevice) → Keeps Quiet (release_bare env false ds)
  unfolding release_bare
  Quiet-release_bare [] = Keeps-pure order tt
  Quiet-release_bare (d ∷ ds) = Keeps-bind order _ _ (Quiet-release d) (λ o. Quiet-release_bare ds)

  module _ (item : QueuedRun) (stays_on : item.power_off ≡ false) where
    ask_policy_lem :
        (succeeded : Bool) (w : World) → ask_policy env item succeeded w ≡ (ok false, w)
    unfolding ask_policy pure
    ask_policy_lem succeeded w = ground arith

    Quiet-release_step :
        (multi : Bool) (d : PbsDevice) → Keeps Quiet (release_step env item false multi d)
    unfolding release_step
    Quiet-release_step multi d = Keeps-in_step env frame _ _ _ (
        Keeps-bind order _ _ (Quiet-release d) (λ o.
          Keeps-bind order _ _ (Keeps-record_outcome env run item false d o)
            (λ _. Keeps-pure order _)))

    Quiet-release_each :
        (multi : Bool) (ds : List PbsDevice) → Keeps Quiet (release_each env item false multi ds)
    unfolding release_each
    Quiet-release_each multi [] = Keeps-pure order _
    Quiet-release_each multi (d ∷ ds) =
        Keeps-bind order _ _ (Quiet-release_step multi d)
          (λ c. Keeps-bind order _ _ (Quiet-release_each multi ds) (λ l. Keeps-pure order _))

    decided :
        (succeeded : Bool) (w : World) (b : Bool) (v : World)
        → ask_policy env item succeeded w ≡ (ok b, v)
        → false ≡ b
    decided succeeded w b v e = ground (arith, ask_policy_lem succeeded w)

    asked : (succeeded : Bool) → Keeps Quiet (ask_policy env item succeeded)
    asked succeeded = record { at = λ w. rw (ask_policy_lem succeeded w) refl }

    Quiet-release_recorded : (multi : Bool) → Keeps Quiet (release_recorded env item multi)
    unfolding release_recorded
    Quiet-release_recorded multi = Keeps-bind order _ _ (Keeps-gets order _) (λ s.
        Keeps-bind_where (λ b. false ≡ b) _ _ (asked s) (decided s)
          (λ wanted e. Keeps-bind order _ _ (Keeps-gets order _) (λ held.
            subst (λ b. Keeps Quiet (release_each env item b multi held)) e
              (Quiet-release_each multi held))))

    Quiet-release_crashed : Keeps Quiet (release_crashed env item)
    unfolding release_crashed
    Quiet-release_crashed =
        Keeps-bind_where (λ b. false ≡ b) _ _ (asked false) (decided false)
          (λ wanted e. Keeps-bind order _ _ (Keeps-gets order _) (λ held.
            subst (λ b. Keeps Quiet (release_bare env b held)) e (Quiet-release_bare held)))

    Quiet-forget_held : Keeps Quiet forget_held
    unfolding forget_held
    Quiet-forget_held = Keeps-modify _ (λ w. refl)

    Quiet-settle_up : (multi speaks : Bool) → Keeps Quiet (settle_up env item multi speaks)
    unfolding settle_up
    Quiet-settle_up multi speaks =
        Keeps-bind order _ _ (Quiet-release_recorded multi) (λ left.
          Keeps-bind order _ _ Quiet-forget_held (λ _. Keeps-notify_if env run speaks left))

    Quiet-wake_failed : (multi : Bool) (e : Failure) → Keeps Quiet (wake_failed env item multi e)
    unfolding wake_failed
    Quiet-wake_failed multi e = Keeps-bind order _ _ (Keeps-ask_cancelled env run) (λ c.
        Keeps-bind order _ _
          (Keeps-if c _ _ (Keeps-finish env frame _ _) (Keeps-finish env frame _ _))
          (λ _. Quiet-settle_up multi (not c)))

    module _ (job : Action Bool) (quiet : Keeps Quiet job) where
      Quiet-do_job : (multi : Bool) → Keeps Quiet (do_job env item multi job)
      unfolding do_job
      Quiet-do_job multi = Keeps-bind order _ _ (Keeps-ask_cancelled env run) (λ c.
          Keeps-bind order _ _
            (Keeps-if c _ _
              (Keeps-bind order _ _ (Keeps-finish env frame _ _) (λ _. Keeps-pure order false))
              quiet)
            (λ speaks. Quiet-settle_up multi speaks))

      Quiet-run_or_settle :
          (multi : Bool) (o : Option Failure) → Keeps Quiet (run_or_settle env item multi job o)
      unfolding run_or_settle
      Quiet-run_or_settle multi none = Quiet-do_job multi
      Quiet-run_or_settle multi (some e) = Quiet-wake_failed multi e

      Quiet-woke : (multi : Bool) (ds : List PbsDevice) → Keeps Quiet (woke env multi ds)
      unfolding woke
      Quiet-woke multi ds =
          Keeps-attempt order _ _
            (Keeps-bind order _ _ (Quiet-acquire_all multi ds) (λ _. Keeps-pure order none))
            (λ e. Keeps-pure order (some e))

      Quiet-run_block : (ds : List PbsDevice) → Keeps Quiet (run_block env item ds job)
      unfolding run_block
      Quiet-run_block ds =
          Keeps-bind order _ _ (Quiet-woke (is_multi ds) ds)
            (λ o. Quiet-run_or_settle (is_multi ds) o)

      Quiet-begin_held :
          (ds : List PbsDevice) (b : Bool) → Keeps Quiet (begin_held env item ds job b)
      unfolding begin_held run_held could_not_start
      Quiet-begin_held ds true = Keeps-bind order _ _ Quiet-forget_held (λ _.
          Keeps-ensure order _ _ (Keeps-recorded env frame _ (Quiet-run_block ds))
            Quiet-release_crashed)
      Quiet-begin_held ds false =
          Keeps-attempt order _ _ (Keeps-call _ _ (quiet_event (Event.notified []) refl))
            (λ e. Keeps-pure order tt)

    Quiet-open_run : Keeps Quiet (open_run env)
    unfolding open_run
    Quiet-open_run =
        Keeps-bind order _ _ (Keeps-call _ _ (quiet_event Event.committed refl))
          (λ _. Keeps-modify _ (λ w. refl))

    module _ (job : Subject → Action Bool) (quiet : (s : Subject) → Keeps Quiet (job s)) where
      Quiet-resolved :
          (o : Option (Subject × List PbsDevice)) → Keeps Quiet (execute_resolved env item job o)
      unfolding execute_resolved
      Quiet-resolved none = Keeps-pure order tt
      Quiet-resolved (some (s, ds)) =
          Keeps-bind order _ _
            (Keeps-attempt order _ _
              (Keeps-bind order _ _ Quiet-open_run (λ _. Keeps-pure order true))
              (λ e. Keeps-pure order false))
            (λ started. Quiet-begin_held (job s) (quiet s) ds started)

-- A run that was queued with the choice to leave its boxes on sends no power command, whether it
-- succeeds, fails, is cancelled or raises, if its job itself sends none.
pub execute-Quiet :
    (env : Env) (config : Config) (item : QueuedRun) (job : Subject → Action Bool) (w : World)
    → item.power_off ≡ false
    → ((s : Subject) → Keeps Quiet (job s))
    → commands (execute env config item job w).1.trace ≡ commands w.trace
unfolding execute
execute-Quiet env config item job w stays_on quiet =
    (Quiet-resolved env item stays_on job quiet (resolve config item)).at w
