-- ===== src/Execute/Complete.antt =====
-- The whole of `_execute` (backend/app/jobs/service.py): its leases from one end to the other.
use joulenap.Prelude.{
  ◌≡◌, refl, inl, inr, Bool, true, false, not, Option, none, some, List, [], ◌∷◌, All, arith,
}
use joulenap.Config.{PbsDevice, Config}
use joulenap.Effects.{
  Failure, ok, World, Env, Action, pure, attempt, ensure, call, modify, ◌>>=◌, ◌>>◌, Result-cases,
}
use joulenap.Effects.Binds.{>>=-ok, >>=-err}
use joulenap.Effects.Keeps.{IsPreorder, Keeps, Keeps-moves, Keeps-bind, Keeps-pure, Keeps-if}
use joulenap.Lease.{lease_key}
use joulenap.Service.{QueuedRun, Subject, resolve}
use joulenap.Service.Machines.{Distinct, resolve-Distinct}
use joulenap.Recorder.{recorded, open_run}
use joulenap.Recorder.Frame.{IsFrame, Keeps-finish}
use joulenap.Recorder.Steps.{CommitsWork, recorded-end}
use joulenap.Execute.{
  release_recorded, acquire_all, forget_held, notify_if, settle_up, wake_failed, do_job, woke,
  run_or_settle, run_block, run_held, is_multi, could_not_start, begin_held, execute_resolved,
  execute,
}
use joulenap.Execute.Frame.{
  SameLease, SameLease-run, owns, Bound, AllFree, Bound-Fewer, Bound-Same, Keeps-notify_if,
  Keeps-ask_cancelled,
}
use joulenap.Execute.Leases.{Keeps-release_recorded, release_recorded-frees}
use joulenap.Execute.Balance.{release_crashed-frees, acquire_all-Bound}

-- The run still lists every hold.
abbrev StaysBound : World → World → Type 0
StaysBound v w = Bound v → Bound w

StaysBound-order : IsPreorder StaysBound
StaysBound-order = record { same = λ w b. b; chain = λ u v w p q b. q (p b) }

StaysBound-frame : IsFrame StaysBound
StaysBound-frame = record {
  order = StaysBound-order;
  on_row = λ w run saved finished b. b;
  on_commit = λ w b. b;
  on_log = λ level w b. b;
}

StaysBound-Same {ℓ} : {A : Type ℓ} (m : Action A) → Keeps SameLease m → Keeps StaysBound m
StaysBound-Same m k = record { at = λ w b. Bound-Same (k.at w) b }

forgotten : World → World
forgotten w = record w { held = [] }

forget_held_lem : (w : World) → forget_held w ≡ (ok tt, forgotten w)
unfolding forget_held forgotten
forget_held_lem w = refl

forgotten-held : (w : World) → (forgotten w).held ≡ []
unfolding forgotten
forgotten-held w = refl

could_not_start-machines : (env : Env) (w : World) → (could_not_start env w).1.machines ≡ w.machines
unfolding could_not_start attempt call pure
could_not_start-machines env w = ground arith

Bound-forgotten : (w : World) → AllFree w → Bound (forgotten w)
unfolding forgotten
Bound-forgotten w free k = omega (arith, free k)

All-fresh :
    (ds : List PbsDevice) (w : World)
    → w.held ≡ []
    → All (λ d. owns (lease_key d) w.held ≡ false) ds
All-fresh [] w h = tt
All-fresh (d ∷ ds) w h = (rw h, All-fresh ds w h)

module _ (env : Env) (item : QueuedRun) where
  Bound-settle_up : (multi speaks : Bool) → Keeps StaysBound (settle_up env item multi speaks)
  unfolding settle_up
  Bound-settle_up multi speaks = record {
    at = λ w b. elim (Result-cases (release_recorded env item multi w)) [
      | inr (e, v, h) ↦ rw (>>=-err (release_recorded env item multi) _ w h) (
          Bound-Fewer
            (Keeps-moves (release_recorded env item multi) w (Keeps-release_recorded env item multi)
              h)
            b)
      | inl (left, v, h) ↦ rw (>>=-ok (release_recorded env item multi) _ w h) (
          rw (>>=-ok forget_held (λ _. notify_if env speaks left) v (forget_held_lem v)) (
            Bound-Same ((Keeps-notify_if env SameLease-run speaks left).at (forgotten v))
              (Bound-forgotten v (release_recorded-frees env item multi w b h))))
    ];
  }

  Bound-wake_failed : (multi : Bool) (e : Failure) → Keeps StaysBound (wake_failed env item multi e)
  unfolding wake_failed
  Bound-wake_failed multi e =
      Keeps-bind StaysBound-order _ _ (StaysBound-Same _ (Keeps-ask_cancelled env SameLease-run))
        (λ c.
          Keeps-bind StaysBound-order _ _
            (Keeps-if c _ _ (Keeps-finish env StaysBound-frame _ _)
              (Keeps-finish env StaysBound-frame _ _))
            (λ _. Bound-settle_up multi (not c)))

  module _ (job : Action Bool) (keeps : Keeps SameLease job) where
    Bound-do_job : (multi : Bool) → Keeps StaysBound (do_job env item multi job)
    unfolding do_job
    Bound-do_job multi =
        Keeps-bind StaysBound-order _ _ (StaysBound-Same _ (Keeps-ask_cancelled env SameLease-run))
          (λ c.
            Keeps-bind StaysBound-order _ _
              (Keeps-if c _ _
                (Keeps-bind StaysBound-order _ _ (Keeps-finish env StaysBound-frame _ _)
                  (λ _. Keeps-pure StaysBound-order false))
                (StaysBound-Same job keeps))
              (λ speaks. Bound-settle_up multi speaks))

    Bound-run_or_settle :
        (multi : Bool) (o : Option Failure) → Keeps StaysBound (run_or_settle env item multi job o)
    unfolding run_or_settle
    Bound-run_or_settle multi none = Bound-do_job multi
    Bound-run_or_settle multi (some e) = Bound-wake_failed multi e

    woke_lem :
        (multi : Bool) (ds : List PbsDevice) (w : World)
        → (o : Option Failure) × (woke env multi ds w ≡ (ok o, (acquire_all env multi ds w).1))
    unfolding woke attempt pure ◌>>=◌
    woke_lem multi ds w = elim (Result-cases (acquire_all env multi ds w)) [
      | inl (t, v, h) ↦ (none, rw h)
      | inr (e, v, h) ↦ (some e, rw h)
    ]

    Bound-run_block :
        CommitsWork env
        → (ds : List PbsDevice) (w : World) → Distinct ds
        → w.held ≡ []
        → Bound w
        → Bound (run_block env item ds job w).1
    unfolding run_block
    Bound-run_block works ds w distinct nothing b =
        let (o, woken) = woke_lem (is_multi ds) ds w in
        let up =
          acquire_all-Bound env works (is_multi ds) ds w b (All-fresh ds w nothing) distinct in
        rw (>>=-ok (woke env (is_multi ds) ds) _ w woken)
          ((Bound-run_or_settle (is_multi ds) o).at (acquire_all env (is_multi ds) ds w).1 up)

    AllFree-run_held :
        CommitsWork env
        → (ds : List PbsDevice) (w : World) → Distinct ds
        → w.held ≡ []
        → Bound w
        → AllFree (run_held env item ds job w).1
    unfolding run_held ensure
    AllFree-run_held works ds w distinct nothing b =
        release_crashed-frees env item (recorded env (run_block env item ds job) w).1 (
          recorded-end env StaysBound-frame (run_block env item ds job) w
            (Bound-run_block works ds w distinct nothing b))

open_run-machines : (env : Env) (w : World) → (open_run env w).1.machines ≡ w.machines
unfolding open_run call modify ◌>>=◌
open_run-machines env w = ground arith

-- The attempt to write the run's row.
opening : Env → Action Bool
opening env = attempt (do open_run env; pure true) (λ e. pure false)

opening_lem :
    (env : Env) (w : World)
    → (b : Bool) × (u : World) × (opening env w ≡ (ok b, u)) × (u.machines ≡ w.machines)
unfolding opening attempt pure ◌>>=◌
opening_lem env w = elim (Result-cases (open_run env w)) [
  | inl (t, u, h) ↦ (true, u, rw h, rw h at (open_run-machines env w))
  | inr (e, u, h) ↦ (false, u, rw h, rw h at (open_run-machines env w))
]

module _ (env : Env) (item : QueuedRun) (job : Subject → Action Bool) (works : CommitsWork env)
    (keeps : (s : Subject) → Keeps SameLease (job s)) where
  AllFree-begin_held :
      (s : Subject) (ds : List PbsDevice) (b : Bool) (w : World)
      → Distinct ds
      → AllFree w
      → AllFree (begin_held env item ds (job s) b w).1
  unfolding begin_held
  AllFree-begin_held s ds true w distinct free =
      rw (>>=-ok forget_held (λ _. run_held env item ds (job s)) w (forget_held_lem w)) (
        AllFree-run_held env item (job s) (keeps s) works ds (forgotten w) distinct
          (forgotten-held w) (Bound-forgotten w free))
  AllFree-begin_held s ds false w distinct free =
      λ k. rw ((could_not_start-machines env w)) (free k)

  AllFree-resolved :
      (o : Option (Subject × List PbsDevice)) (w : World)
      → ((s : Subject) (ds : List PbsDevice) → o ≡ some (s, ds) → Distinct ds)
      → AllFree w
      → AllFree (execute_resolved env item job o w).1
  unfolding execute_resolved pure opening
  AllFree-resolved none w distinct free = free
  AllFree-resolved (some (s, ds)) w distinct free =
      let (b, u, opened, same) = opening_lem env w in
      rw (>>=-ok (opening env) (begin_held env item ds (job s)) w opened)
        (AllFree-begin_held s ds b u (distinct s ds refl) (λ k. rw same (free k)))

-- Where no commit fails and the job itself leaves the lease table alone, a run that starts with no
-- machine held ends with none held: whether it was dropped, could not start, could not wake its
-- boxes, was cancelled, raised, or went through.
pub execute-AllFree :
    (env : Env) (config : Config) (item : QueuedRun) (job : Subject → Action Bool) (w : World)
    → CommitsWork env
    → ((s : Subject) → Keeps SameLease (job s))
    → AllFree w
    → AllFree (execute env config item job w).1
unfolding execute
execute-AllFree env config item job w works keeps free =
    AllFree-resolved env item job works keeps (resolve config item) w
      (λ s ds e. resolve-Distinct config item e) free
