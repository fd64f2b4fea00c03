-- ===== src/Effects.antt =====
-- What backend/app/jobs reads and writes while a run is in flight: the lease table, the run's row
-- and the outside world. Every call that leaves the process is recorded in `trace`, newest first,
-- and its answer is a function of the calls made before it (`Env`), so that an environment may
-- answer the same question differently each time. A blocking thread sees another thread (a cancel,
-- an enqueue) only through such answers.
pub mod Keeps
pub mod Adds
pub mod Reach
pub mod Blames
pub mod Binds
use joulenap.Prelude.{
  ℕ, Bool, true, false, List, [], ◌∷◌, Option, none, some, Text, Dict, if◌then◌else◌, ◌≡◌, ◌⊎◌, inl,
  inr, refl,
}
use joulenap.Config.{PbsDevice}
use joulenap.Remote.{Call, Cycle}

-- connectors/errors.py and the exceptions of jobs/: the class, with what callers branch on or show.
pub data Failure : Type 0 where
  pbs_unreachable_error : Text → Failure
  cycle_abort : Text → Failure
  cycle_cancelled : Failure
  task_error : Option Text → Failure
  task_cancelled : Failure
  localized_error : Text → Failure
  api_error : Failure
  other_exception : Text → Failure

-- `isinstance(e, CycleCancelled)`
abbrev pub is_cancelled : Failure → Bool
is_cancelled cycle_cancelled = true
is_cancelled _ = false

pub data Result {ℓ} (A : Type ℓ) : Type ℓ where
  ok : A → Result A
  err : Failure → Result A

module _ {ℓ κ} {A : Type ℓ} {W : Type κ} where
  -- To split on a call and keep the equation.
  pub Result-cases :
      (p : Result A × W)
      → ((a : A) × (w : W) × (p ≡ (ok a, w))) ⊎ ((e : Failure) × (w : W) × (p ≡ (err e, w)))
  Result-cases (ok a, w) = inl (a, w, refl)
  Result-cases (err e, w) = inr (e, w, refl)

-- `jobs/lease.py`, LeaseState.
pub record LeaseState : Type 0 where
  pub holders : ℕ
  pub was_awake : Bool

-- `db/models.py`
pub data RunStatus : Type 0 where
  running success failure aborted : RunStatus

pub data StepStatus : Type 0 where
  step_running step_success step_failure step_skipped : StepStatus

pub data StepName : Type 0 where
  wake wait precheck backup_step monitor sync_step prune gc verify_step poweroff : StepName

pub data LogLevel : Type 0 where
  info log_ok warn error : LogLevel

-- A row of `run_steps`: its name, its label and its detail key.
pub record RunStep : Type 0 where
  pub name : StepName
  pub label : Option Text
  pub status : StepStatus
  pub detail : Option Text

-- The row of `runs`.
pub record Run : Type 0 where
  pub status : RunStatus
  pub error : Option Failure
  pub guests_ok : Option ℕ
  pub steps : List RunStep  -- newest first

pub data Event : Type 0 where
  wol_sent : Text → Event
  probed : Text → ℕ → Event
  idle_awaited : Text → Event
  power_commanded : Text → Event
  cancel_read cancel_power_off_read pending_read clock_read committed : Event
  logged : LogLevel → Event
  notified : List Text → Event
  job_ran : Event
  remote : Call → Event

abbrev pub Trace : Type 0
Trace = List Event

-- `run` is the row as the recorder's session sees it and `saved` as it was last committed;
-- `finished` is the recorder's flag, `held` the list of that name in `_execute`, `cycle` what a job
-- keeps outside its steps.
pub record World : Type 0 where
  pub trace : Trace
  pub machines : Dict LeaseState
  pub run : Run
  pub saved : Run
  pub finished : Bool
  pub held : List PbsDevice
  pub cycle : Cycle

-- The answers of what the jobs call. `wait_reachable` is given its timeout in milliseconds and
-- whether it polls for a cancel.
pub record Env : Type 0 where
  pub send_wol : PbsDevice → Trace → Result (Unit {0})
  pub wait_reachable : PbsDevice → ℕ → Bool → Trace → Result Bool
  pub wait_idle : PbsDevice → Trace → Result Bool
  pub power_off : PbsDevice → Trace → Result (Unit {0})
  pub pending : Trace → List Text
  pub cancelled : Trace → Bool
  pub cancel_power_off : Trace → Bool
  pub clock : Trace → ℕ
  pub commit : Trace → Result (Unit {0})
  pub notify : List Text → Trace → Result (Unit {0})

abbrev pub Action {ℓ} : Type ℓ → Type ℓ
Action A = World → Result A × World

module _ {ℓ} {A : Type ℓ} where
  unfoldable pub pure : A → Action A
  pure a w = (ok a, w)

  unfoldable pub raise : Failure → Action A
  raise e w = (err e, w)

  -- A call that leaves the process.
  unfoldable pub call : Event → (Trace → Result A) → Action A
  call e answer w = (answer w.trace, record w { trace = e ∷ w.trace })

  unfoldable pub gets : (World → A) → Action A
  gets f w = (ok (f w), w)

  abbrev caught : Result A → (Failure → Action A) → Action A
  caught (ok a) handler w = (ok a, w)
  caught (err e) handler w = handler e w

  -- try: … except Exception as exc: …
  unfoldable pub attempt : Action A → (Failure → Action A) → Action A
  attempt m handler w = let (r, w') = m w in caught r handler w'

  abbrev outcome : Result A → Result (Unit {0}) → Result A
  outcome r (ok _) = r
  outcome r (err e) = err e

  -- try: … finally: …
  unfoldable pub ensure : Action A → Action (Unit {0}) → Action A
  ensure m cleanup w = let (r, w') = m w in let (r', w'') = cleanup w' in (outcome r r', w'')

unfoldable pub modify : (World → World) → Action (Unit {0})
modify f w = (ok tt, f w)

module _ {ℓ κ} {A : Type ℓ} {B : Type κ} where
  abbrev pub continue : Result A → (A → Action B) → Action B
  continue (ok a) f w = f a w
  continue (err e) f w = (err e, w)

  infixl 5 ◌>>=◌
  unfoldable pub ◌>>=◌ : Action A → (A → Action B) → Action B
  ◌>>=◌ m f w = let (r, w') = m w in continue r f w'

infixl 5 ◌>>◌
abbrev pub ◌>>◌ {ℓ} : {B : Type ℓ} → Action (Unit {0}) → Action B → Action B
m >> k = m >>= λ _. k

module _ (env : Env) where
  -- `self._cancelled()` and `deps.cancelled()`
  unfoldable pub ask_cancelled : Action Bool
  unfolding call
  ask_cancelled = call cancel_read (λ t. ok (env.cancelled t))

  unfoldable pub ask_clock : Action ℕ
  unfolding call
  ask_clock = call clock_read (λ t. ok (env.clock t))
