-- ===== src/Execute/Frame.antt =====
-- The lease table under `_execute` (backend/app/jobs/service.py): who accounts for each hold.
use joulenap.Prelude.{
  ◌≤◌, ◌≡◌, refl, ◌∙◌, Bool, List, Text, any, text_eq, text_eq_iff, if◌then◌else◌, arith,
}
use joulenap.Config.{PbsDevice}
use joulenap.Effects.{World, Env}
use joulenap.Effects.Keeps.{Keeps}
use joulenap.Lease.{lease_key, release}
use joulenap.Lease.Table.{holders_of}
use joulenap.Lease.Release.{release-IsRelease}
use joulenap.Lease.Frame.{is_power, IsLeaseFrame, Keeps-release}
use joulenap.Execute.{
  is_left_on, ask_cancel_power_off, ask_policy, left_detail, record_left, record_outcome, notify,
  notify_if,
}
use joulenap.Service.{QueuedRun}
use joulenap.Lease.{ReleaseOutcome, powered_off}
use joulenap.Effects.{ask_cancelled, Event, pure}
use joulenap.Effects.Keeps.{Keeps-call, Keeps-bind, Keeps-if, Keeps-pure, Keeps-attempt}
use joulenap.Prelude.{not, ◌&&◌, true, false, ◌∷◌}
use joulenap.Recorder.Frame.{Keeps-set_detail, Keeps-set_status, Keeps-log}
use joulenap.Recorder.Frame.{IsFrame}

-- The list of the leases that the run holds is as it was.
abbrev pub SameHeld : World → World → Type 0
SameHeld v w = w.held ≡ v.held

pub SameHeld-lease : IsLeaseFrame SameHeld
SameHeld-lease = record {
  order = record { same = λ w. refl; chain = λ u v w p q. q ∙ p };
  on_event = λ e p w. refl;
  on_machines = λ w machines. refl;
}

-- So is the table.
pub record SameLease (v w : World) : Type 0 where
  pub machines : w.machines ≡ v.machines
  pub held : w.held ≡ v.held

pub SameLease-frame : IsFrame SameLease
SameLease-frame = record {
  order = record {
    same = λ w. record { machines = refl; held = refl };
    chain = λ u v w p q. record { machines = q.machines ∙ p.machines; held = q.held ∙ p.held };
  };
  on_row = λ w run saved finished. record { machines = refl; held = refl };
  on_commit = λ w. record { machines = refl; held = refl };
  on_log = λ level w. record { machines = refl; held = refl };
}

-- No count has grown, and the run lists the same leases.
pub record Fewer (v w : World) : Type 0 where
  pub counts : (k : Text) → holders_of k w.machines ≤ holders_of k v.machines
  pub held : w.held ≡ v.held

pub Fewer-frame : IsFrame Fewer
Fewer-frame = record {
  order = record {
    same = λ w. record { counts = λ k. omega arith; held = refl };
    chain = λ u v w p q. record {
      counts = λ k. omega (arith, p.counts k, q.counts k);
      held = q.held ∙ p.held;
    };
  };
  on_row = λ w run saved finished. record { counts = λ k. omega arith; held = refl };
  on_commit = λ w. record { counts = λ k. omega arith; held = refl };
  on_log = λ level w. record { counts = λ k. omega arith; held = refl };
}

abbrev pub owns : Text → List PbsDevice → Bool
owns k = any (λ (d : PbsDevice). text_eq (lease_key d) k)

-- Every hold of the table is one that the run lists, and no machine is held twice.
abbrev pub Bound : World → Type 0
Bound w = (k : Text) → holders_of k w.machines ≤ (if owns k w.held then 1 else 0)

abbrev pub AllFree : World → Type 0
AllFree w = (k : Text) → holders_of k w.machines ≡ 0

pub Bound-Fewer : {v w : World} → Fewer v w → Bound v → Bound w
Bound-Fewer f b k = rw f.held (omega (arith, f.counts k, b k))

pub Bound-Same : {v w : World} → SameLease v w → Bound v → Bound w
Bound-Same s b k = rw (s.held, s.machines) (b k)

module _ (env : Env) (d : PbsDevice) where
  pub release-Fewer : (wanted : Bool) → Keeps Fewer (release env d wanted)
  release-Fewer wanted = record {
    at = λ w. record {
      counts = λ k.
          ground (arith, (release-IsRelease env d wanted w).counted k, text_eq_iff (lease_key d) k);
      held = (Keeps-release env SameHeld-lease (λ id v. refl) d wanted).at w;
    };
  }

-- A relation that does not look at the run's row, nor at calls other than power commands.
pub record IsRunFrame (R : World → World → Type 0) : Type 0 where
  pub frame : IsFrame R
  pub on_event :
      (e : Event) → is_power e ≡ false → (w : World) → R w (record w { trace = e ∷ w.trace })

pub SameLease-run : IsRunFrame SameLease
SameLease-run = record {
  frame = SameLease-frame;
  on_event = λ e p w. record { machines = refl; held = refl };
}

pub Fewer-run : IsRunFrame Fewer
Fewer-run = record {
  frame = Fewer-frame;
  on_event = λ e p w. record { counts = λ k. omega arith; held = refl };
}

module _ (env : Env) {R : World → World → Type 0} (run : IsRunFrame R) where
  pub Keeps-ask_cancelled : Keeps R (ask_cancelled env)
  unfolding ask_cancelled
  Keeps-ask_cancelled = Keeps-call _ _ (run.on_event Event.cancel_read refl)

  Keeps-ask_cancel_power_off : Keeps R (ask_cancel_power_off env)
  unfolding ask_cancel_power_off
  Keeps-ask_cancel_power_off = Keeps-call _ _ (run.on_event Event.cancel_power_off_read refl)

  pub Keeps-ask_policy :
      (item : QueuedRun) (succeeded : Bool) → Keeps R (ask_policy env item succeeded)
  unfolding ask_policy
  Keeps-ask_policy item succeeded =
      Keeps-if (not item.power_off) _ _ (Keeps-pure run.frame.order _) (
        Keeps-bind run.frame.order _ _ Keeps-ask_cancelled (λ cancelled.
          Keeps-bind run.frame.order _ _
            (Keeps-if cancelled (ask_cancel_power_off env) (pure false) Keeps-ask_cancel_power_off
              (Keeps-pure run.frame.order false))
            (λ off. Keeps-pure run.frame.order _)))

  Keeps-left_detail :
      (item : QueuedRun) (wanted : Bool) (o : ReleaseOutcome)
      → Keeps R (left_detail env item wanted o)
  unfolding left_detail
  Keeps-left_detail item wanted o =
      Keeps-if (not (is_left_on o && not wanted)) _ _ (Keeps-pure run.frame.order _) (
        Keeps-if (not item.power_off) _ _ (Keeps-pure run.frame.order _)
          (Keeps-bind run.frame.order _ _ Keeps-ask_cancelled (λ c. Keeps-pure run.frame.order _)))

  Keeps-record_left :
      (item : QueuedRun) (wanted : Bool) (o : ReleaseOutcome)
      → Keeps R (record_left env item wanted o)
  unfolding record_left
  Keeps-record_left item wanted o =
      Keeps-bind run.frame.order _ _ (Keeps-left_detail item wanted o) (λ detail.
        Keeps-bind run.frame.order _ _ (Keeps-set_detail env run.frame detail) (λ _.
          Keeps-bind run.frame.order _ _ (Keeps-set_status env run.frame _)
            (λ _. Keeps-log env run.frame _)))

  pub Keeps-record_outcome :
      (item : QueuedRun) (wanted : Bool) (d : PbsDevice) (o : ReleaseOutcome)
      → Keeps R (record_outcome env item wanted d o)
  unfolding record_outcome
  Keeps-record_outcome item wanted d powered_off = Keeps-set_detail env run.frame _
  Keeps-record_outcome item wanted d _ = Keeps-record_left item wanted _

  pub Keeps-notify_if : (speaks : Bool) (left : List Text) → Keeps R (notify_if env speaks left)
  unfolding notify_if notify
  Keeps-notify_if true left =
      Keeps-attempt run.frame.order _ _ (Keeps-call _ _ (run.on_event (Event.notified left) refl))
        (λ e. Keeps-log env run.frame _)
  Keeps-notify_if false left = Keeps-pure run.frame.order tt
