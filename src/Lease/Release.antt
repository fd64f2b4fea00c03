-- ===== src/Lease/Release.antt =====
-- `PowerLease.release` and `_power_off` of backend/app/jobs/lease.py: when a box is put to sleep.
use joulenap.Prelude.{
  ◌≢◌, ℕ, zero, suc, ◌+◌, ◌-◌, ◌≡◌, ◌⊎◌, inl, inr, refl, Bool, true, false, none, some,
  Option-cases, Bool-cases, [], ◌∷◌, Text, Dict, any, text_eq, if◌then◌else◌, arith,
}
use joulenap.Config.{PbsDevice}
use joulenap.Effects.{
  Failure, Result, ok, err, LeaseState, Event, Trace, World, Env, pure, call, attempt, ◌>>=◌,
  Result-cases,
}
use joulenap.Lease.{
  ReleaseOutcome, powered_off, busy, poweroff_failed, left_on, lease_key, drop, dropping,
  power_off_now, power_off, settle, release,
}
use joulenap.Lease.Table.{holders_of, IsTight, drop-holders, drop-IsTight, unheld-holders}

-- Power-off or suspend commands sent.
abbrev pub commands : Trace → ℕ
commands [] = 0
commands (Event.power_commanded id ∷ t) = suc (commands t)
commands (Event.wol_sent id ∷ t) = commands t
commands (Event.probed id n ∷ t) = commands t
commands (Event.idle_awaited id ∷ t) = commands t
commands (_ ∷ t) = commands t

module _ (env : Env) (d : PbsDevice) where
  -- Every condition under which a run may put the box to sleep.
  pub record MaySleep (wanted : Bool) (remaining : ℕ) (t : Trace) : Type 0 where
    pub nobody_left : remaining ≡ 0
    pub managed : d.managed_power ≡ true
    pub not_queued : any (λ k. text_eq k (lease_key d)) (env.pending t) ≡ false
    pub wanted_off : wanted ≡ true

  -- What a release may do, from `w` to `o` and `w'`, when the box may sleep.
  pub record IsPowerOff (w : World) (o : ReleaseOutcome) (w' : World) : Type 0 where
    pub machines : w'.machines ≡ w.machines
    pub outcomes : (o ≡ busy) ⊎ (o ≡ powered_off) ⊎ (o ≡ poweroff_failed)
    pub one_command : o ≢ busy → commands w'.trace ≡ commands w.trace + 1
    pub no_command : o ≡ busy → commands w'.trace ≡ commands w.trace
    pub no_guard : d.poweroff_task_wait ≡ 0 → o ≢ busy

  power_off-ne-err : (w : World) (e : Failure) → (power_off env d w).0 ≢ err e
  unfolding power_off power_off_now attempt pure call ◌>>=◌
  power_off-ne-err w e h = ground arith

  power_off-IsPowerOff :
      (w : World) (o : ReleaseOutcome)
      → (power_off env d w).0 ≡ ok o
      → IsPowerOff w o (power_off env d w).1
  unfolding power_off power_off_now attempt pure call ◌>>=◌
  power_off-IsPowerOff w o h = record {
    machines = ground arith;
    outcomes = ground arith;
    one_command = λ n. ground (arith);
    no_command = λ e. ground arith;
    no_guard = λ z e. ground arith;
  }

  asked : World → World
  asked w = record w { trace = Event.pending_read ∷ w.trace }

  settle_sleeps :
      (wanted : Bool) (remaining : ℕ) (w : World)
      → MaySleep wanted remaining w.trace
      → settle env d wanted (some remaining) w ≡ power_off env d (asked w)
  unfolding settle asked pure call ◌>>=◌
  settle_sleeps wanted remaining w may = ground arith

  -- Otherwise the box is left alone.
  settle_keeps :
      (wanted : Bool) (remaining : ℕ) (w : World)
      → MaySleep wanted remaining w.trace
        ⊎ ((MaySleep wanted remaining w.trace → ⊥)
            × (commands (settle env d wanted (some remaining) w).1.trace ≡ commands w.trace)
            × ((settle env d wanted (some remaining) w).1.machines ≡ w.machines)
            × ((settle env d wanted (some remaining) w).0 ≢ ok powered_off)
            × ((e : Failure) → (settle env d wanted (some remaining) w).0 ≢ err e))
  unfolding settle asked pure call ◌>>=◌
  settle_keeps wanted zero w = elim (Bool-cases d.managed_power) [
    | inl m ↦ elim (Bool-cases (any (λ k. text_eq k (lease_key d)) (env.pending w.trace))) [
      | inl q ↦
          inr (
            λ may. ground arith,
            ground arith,
            ground arith,
            λ e. ground arith,
            λ x e. ground arith,
          )
      | inr q ↦ elim (Bool-cases wanted) [
        | inl y ↦ inl (record { nobody_left = refl; managed = m; not_queued = q; wanted_off = y })
        | inr n ↦ inr (
          λ may. ground arith,
          ground arith,
          ground arith,
          λ e. ground arith,
          λ x e. ground arith,
        )
      ]
    ]
    | inr m ↦
        inr
          (λ may. ground arith, ground arith, ground arith, λ e. ground arith, λ x e. ground arith)
  ]
  settle_keeps wanted (suc k) w =
      inr (λ may. ground arith, ground arith, ground arith, λ e. ground arith, λ x e. ground arith)

  -- What dropping one's hold does once the lock is dropped, from `w` to `r` and `w'`.
  record IsSettle (wanted : Bool) (remaining : ℕ) (w : World) (r : Result ReleaseOutcome)
      (w' : World) : Type 0 where
    machines : w'.machines ≡ w.machines
    returns : (e : Failure) → r ≢ err e
    safe : commands w'.trace ≢ commands w.trace → MaySleep wanted remaining w.trace
    asleep : r ≡ ok powered_off → commands w'.trace ≡ commands w.trace + 1
    sleeps :
        MaySleep wanted remaining w.trace
        → d.poweroff_task_wait ≡ 0
        → commands w'.trace ≡ commands w.trace + 1

  settle-IsSettle :
      (wanted : Bool) (remaining : ℕ) (w : World)
      → IsSettle wanted remaining w
          (settle env d wanted (some remaining) w).0
          (settle env d wanted (some remaining) w).1
  settle-IsSettle wanted remaining w = elim (settle_keeps wanted remaining w) [
    | inl may ↦
        rw (settle_sleeps wanted remaining w may) (elim (Result-cases (power_off env d (asked w))) [
          | inl (o, w', e) ↦
              let p = rw e at (power_off-IsPowerOff (asked w) o (rw e)) in
              rw e (record {
                machines = unfold asked in p.machines;
                returns = λ x q. cc;
                safe = λ q. may;
                asleep = λ q. unfold asked in p.one_command (λ z. ground arith);
                sleeps = λ m z. unfold asked in p.one_command (p.no_guard z);
              })
          | inr (x, w', e) ↦ absurd (power_off-ne-err (asked w) x (rw e))
        ])
    | inr (awake_for, same, machines, awake, returns) ↦ record {
      machines = machines;
      returns = returns;
      safe = λ q. absurd (q same);
      asleep = λ q. absurd (awake q);
      sleeps = λ m z. absurd (awake_for m);
    }
  ]

  release_unheld :
      (wanted : Bool) (w : World)
      → drop (lease_key d) w.machines ≡ none
      → release env d wanted w ≡ (ok left_on, w)
  unfolding release dropping settle pure ◌>>=◌
  release_unheld wanted w h = ground arith

  release_held :
      (wanted : Bool) (w : World) {remaining : ℕ} {after : Dict LeaseState}
      → drop (lease_key d) w.machines ≡ some (remaining, after)
      → release env d wanted w
        ≡ settle env d wanted (some remaining) (record w { machines = after })
  unfolding release dropping ◌>>=◌
  release_held wanted w h = ground arith

  drop-none :
      (key : Text) (machines : Dict LeaseState)
      → drop key machines ≡ none
      → holders_of key machines ≡ 0
  unfolding drop
  drop-none key machines h = ground arith

  -- What `release` did from `w`.
  pub record IsRelease (wanted : Bool) (w : World) (r : Result ReleaseOutcome) (w' : World)
      : Type 0 where
    pub returns : (e : Failure) → r ≢ err e
    pub counted :
        (j : Text)
        → holders_of j w'.machines ≡ (
            if text_eq (lease_key d) j
            then holders_of (lease_key d) w.machines - 1
            else holders_of j w.machines)
    pub tight : IsTight w.machines → IsTight w'.machines
    pub safe :
        commands w'.trace ≢ commands w.trace
        → (holders_of (lease_key d) w.machines ≡ 1)
          × MaySleep wanted (holders_of (lease_key d) w.machines - 1) w.trace
    pub asleep : r ≡ ok powered_off → commands w'.trace ≡ commands w.trace + 1
    pub sleeps :
        holders_of (lease_key d) w.machines ≡ 1
        → MaySleep wanted 0 w.trace
        → d.poweroff_task_wait ≡ 0
        → commands w'.trace ≡ commands w.trace + 1

  held-IsRelease :
      (wanted : Bool) (w : World) (remaining : ℕ) (after : Dict LeaseState)
      → drop (lease_key d) w.machines ≡ some (remaining, after)
      → let (r, w') = settle env d wanted (some remaining) (record w { machines = after }) in
        IsRelease wanted w r w'
  held-IsRelease wanted w remaining after h =
      let v : World = record w { machines = after } in
      let s = settle-IsSettle wanted remaining v in
      let left : remaining + 1 ≡ holders_of (lease_key d) w.machines =
        (drop-holders (lease_key d) (lease_key d) w.machines h).0 in
      let is_left : holders_of (lease_key d) w.machines - 1 ≡ remaining = omega arith in
      record {
        returns = s.returns;
        counted = λ j. rw (s.machines, is_left) (drop-holders (lease_key d) j w.machines h).1;
        tight = λ t. rw s.machines (drop-IsTight (lease_key d) w.machines t h);
        safe = λ q. let may = s.safe q in (omega (arith, may.nobody_left), rw is_left may);
        asleep = s.asleep;
        sleeps = λ one may z.
            let none_left : remaining ≡ 0 = omega arith in s.sleeps (rw none_left may) z;
      }

  -- `release` never raises, and lowers the count of its machine, if anybody holds it, and of no
  -- other. It sends a power command only if it dropped the last hold, the box's power is managed,
  -- no queued run needs the machine and the run wanted it off; then, where no task guard is
  -- configured, it does send one. It reports the box as powered off only after one command.
  pub release-IsRelease :
      (wanted : Bool) (w : World)
      → IsRelease wanted w (release env d wanted w).0 (release env d wanted w).1
  release-IsRelease wanted w = elim (Option-cases (drop (lease_key d) w.machines)) [
    | inl h ↦
        let zero_held = drop-none (lease_key d) w.machines h in
        rw (release_unheld wanted w h) (record {
          returns = λ e q. cc;
          counted = λ j. unheld-holders (lease_key d) j w.machines zero_held;
          tight = λ t. t;
          safe = λ q. absurd (q refl);
          asleep = λ q. cc;
          sleeps = λ one. absurd (omega arith);
        })
    | inr ((remaining, after), h) ↦
        rw (release_held wanted w h) (held-IsRelease wanted w remaining after h)
  ]
