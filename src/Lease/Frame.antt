-- ===== src/Lease/Frame.antt =====
-- What acquiring and releasing (backend/app/jobs/lease.py) do not touch.
use joulenap.Prelude.{
  ℕ, zero, suc, Bool, true, false, not, ◌≡◌, refl, Option, none, some, ◌∷◌, Text, Dict, any,
  text_eq, ◌==◌,
}
use joulenap.Config.{PbsDevice}
use joulenap.Effects.{Result, ok, LeaseState, Event, World, Env, Action, ask_cancelled, ask_clock}
use joulenap.Effects.Keeps.{
  IsPreorder, Keeps, Keeps-bind, Keeps-attempt, Keeps-call, Keeps-pure, Keeps-raise, Keeps-if,
}
use joulenap.Lease.{
  join, drop, joining, holding, dropping, probe, wake, power_off_now, see_through, wake_attempts,
  bring_up, take_hold, acquire, power_off, settle, release, lease_key,
}

abbrev pub is_power : Event → Bool
is_power (Event.power_commanded id) = true
is_power _ = false

-- A relation that does not look at the lease table, nor at calls other than power commands.
pub record IsLeaseFrame (R : World → World → Type 0) : Type 0 where
  pub order : IsPreorder R
  pub on_event :
      (e : Event) → is_power e ≡ false → (w : World) → R w (record w { trace = e ∷ w.trace })
  pub on_machines :
      (w : World) (machines : Dict LeaseState) → R w (record w { machines = machines })

module _ (env : Env) {R : World → World → Type 0} (frame : IsLeaseFrame R) where
  Keeps-joining : (key : Text) → Keeps R (joining key)
  unfolding joining
  Keeps-joining key = record { at = λ w. go w (join key w.machines) }
    where
      go :
          (w : World) (o : Option (Bool × Dict LeaseState))
          → R w (
              (elim o as (λ x. Result (Option Bool) × World) [
                | none ↦ (ok none, w)
                | some (awake, machines) ↦ (ok (some awake), record w { machines = machines })
              ]).1)
      go w none = frame.order.same w
      go w (some (awake, machines)) = frame.on_machines w machines

  Keeps-holding : (key : Text) (awake : Bool) → Keeps R (holding key awake)
  unfolding holding
  Keeps-holding key awake = record { at = λ w. frame.on_machines w _ }

  Keeps-dropping : (key : Text) → Keeps R (dropping key)
  unfolding dropping
  Keeps-dropping key = record { at = λ w. go w (drop key w.machines) }
    where
      go :
          (w : World) (o : Option (ℕ × Dict LeaseState))
          → R w (
              (elim o as (λ x. Result (Option ℕ) × World) [
                | none ↦ (ok none, w)
                | some (remaining, machines) ↦
                    (ok (some remaining), record w { machines = machines })
              ]).1)
      go w none = frame.order.same w
      go w (some (remaining, machines)) = frame.on_machines w machines

  Keeps-probe :
      (d : PbsDevice) (timeout : ℕ) (cancellable : Bool) → Keeps R (probe env d timeout cancellable)
  unfolding probe
  Keeps-probe d timeout cancellable =
      Keeps-call _ _ (frame.on_event (Event.probed d.id timeout) refl)

  pub Keeps-ask_cancelled : Keeps R (ask_cancelled env)
  unfolding ask_cancelled
  Keeps-ask_cancelled = Keeps-call _ _ (frame.on_event Event.cancel_read refl)

  Keeps-ask_clock : Keeps R (ask_clock env)
  unfolding ask_clock
  Keeps-ask_clock = Keeps-call _ _ (frame.on_event Event.clock_read refl)

  Keeps-wake : (d : PbsDevice) → Keeps R (wake env d)
  unfolding wake
  Keeps-wake d = Keeps-call _ _ (frame.on_event (Event.wol_sent d.id) refl)

  Keeps-see_through : (d : PbsDevice) (started : ℕ) → Keeps R (see_through env d started)
  unfolding see_through
  Keeps-see_through d started = Keeps-bind frame.order _ _ Keeps-ask_clock (λ now.
      Keeps-bind frame.order _ _ (Keeps-if _ _ _ (Keeps-probe _ _ _) (Keeps-pure frame.order _))
        (λ up. Keeps-if up _ _ (Keeps-pure frame.order _) (Keeps-raise frame.order _)))

  Keeps-wake_attempts : (d : PbsDevice) (n : ℕ) → Keeps R (wake_attempts env d n)
  unfolding wake_attempts
  Keeps-wake_attempts d zero = Keeps-raise frame.order _
  Keeps-wake_attempts d (suc n) = Keeps-bind frame.order _ _ Keeps-ask_clock (λ started.
      Keeps-bind frame.order _ _ (Keeps-wake d) (λ _.
        Keeps-bind frame.order _ _ (Keeps-probe _ _ _) (λ up.
          Keeps-bind frame.order _ _
            (Keeps-if up _ _ (Keeps-pure frame.order _) Keeps-ask_cancelled)
            (λ stopped.
              Keeps-if up _ _ (Keeps-pure frame.order _)
                (decide (Keeps-wake_attempts d n) started stopped)))))
    where
      decide :
          Keeps R (wake_attempts env d n)
          → (started : ℕ) (stopped : Bool)
          → Keeps R (elim stopped as (λ x. Action Bool) [
            | true ↦ see_through env d started
            | false ↦ wake_attempts env d n
          ])
      decide rest started true = Keeps-see_through d started
      decide rest started false = rest

  Keeps-bring_up : (d : PbsDevice) → Keeps R (bring_up env d)
  unfolding bring_up
  Keeps-bring_up d = Keeps-bind frame.order _ _ (Keeps-probe _ _ _) (λ up.
      Keeps-if up _ _ (Keeps-pure frame.order _) (
        Keeps-if _ _ _ (Keeps-raise frame.order _) (
          Keeps-bind frame.order _ _ Keeps-ask_cancelled (λ stopped.
            Keeps-if stopped _ _ (Keeps-raise frame.order _) (Keeps-wake_attempts d _)))))

  Keeps-take_hold : (d : PbsDevice) (joined : Option Bool) → Keeps R (take_hold env d joined)
  Keeps-take_hold d (some awake) = Keeps-pure frame.order awake
  Keeps-take_hold d none = Keeps-bind frame.order _ _ (Keeps-bring_up d) (λ awake.
      Keeps-bind frame.order _ _ (Keeps-holding _ awake) (λ _. Keeps-pure frame.order awake))

  pub Keeps-acquire : (d : PbsDevice) → Keeps R (acquire env d)
  unfolding acquire
  Keeps-acquire d =
      Keeps-bind frame.order _ _ (Keeps-joining _) (λ joined. Keeps-take_hold d joined)

  module _
      (on_power : (id : Text) (w : World)
        → R w (record w { trace = Event.power_commanded id ∷ w.trace })) where
    Keeps-power_off : (d : PbsDevice) → Keeps R (power_off env d)
    unfolding power_off power_off_now
    Keeps-power_off d =
        Keeps-bind frame.order _ _
          (Keeps-if _ _ _
            (Keeps-attempt frame.order _ _
              (Keeps-call _ _ (frame.on_event (Event.idle_awaited d.id) refl))
              (λ e. Keeps-pure frame.order _))
            (Keeps-pure frame.order _))
          (λ idle. Keeps-if _ _ _ (Keeps-pure frame.order _) (
            Keeps-attempt frame.order _ _
              (Keeps-bind frame.order _ _ (Keeps-call _ _ (on_power d.id))
                (λ _. Keeps-pure frame.order _))
              (λ e. Keeps-pure frame.order _)))

    Keeps-settle : (d : PbsDevice) (wanted : Bool) (o : Option ℕ) → Keeps R (settle env d wanted o)
    unfolding settle
    Keeps-settle d wanted none = Keeps-pure frame.order _
    Keeps-settle d wanted (some remaining) =
        Keeps-if (not (remaining == 0)) _ _ (Keeps-pure frame.order _) (
          Keeps-if (not d.managed_power) _ _ (Keeps-pure frame.order _) (
            Keeps-bind frame.order _ _ (Keeps-call _ _ (frame.on_event Event.pending_read refl))
              (λ pending.
                Keeps-if (any (λ k. text_eq k (lease_key d)) pending) _ _ (Keeps-pure frame.order _)
                  (Keeps-if (not wanted) _ _ (Keeps-pure frame.order _) (Keeps-power_off d)))))

    pub Keeps-release : (d : PbsDevice) (wanted : Bool) → Keeps R (release env d wanted)
    unfolding release
    Keeps-release d wanted =
        Keeps-bind frame.order _ _ (Keeps-dropping _) (λ o. Keeps-settle d wanted o)
