-- ===== src/Lease/Wake.antt =====
-- Waking a machine: `_bring_up` and `acquire` of backend/app/jobs/lease.py.
use joulenap.Prelude.{
  ℕ, zero, suc, ◌+◌, ◌-◌, ◌*◌, ◌≤◌, ◌≡◌, ◌⊎◌, inl, inr, refl, Bool, true, false, [], ◌∷◌, arith,
}
use joulenap.Config.{PbsDevice}
use joulenap.Effects.{
  Result, ok, Event, Trace, World, Env, pure, raise, call, ◌>>=◌, ask_cancelled, ask_clock,
}
use joulenap.Lease.{probe, wake, see_through, wake_attempts, bring_up}

-- Magic packets sent.
abbrev pub packets : Trace → ℕ
packets [] = 0
packets (Event.wol_sent id ∷ t) = suc (packets t)
packets (Event.probed id n ∷ t) = packets t
packets (Event.idle_awaited id ∷ t) = packets t
packets (_ ∷ t) = packets t

-- The last thing asked was whether the box answers, and it did.
abbrev pub Answered : Env → PbsDevice → Trace → Type 0
Answered env d t =
    (timeout : ℕ) × (cancellable : Bool) × (before : Trace) × (t
      ≡ Event.probed d.id timeout ∷ before)
    × (env.wait_reachable d timeout cancellable before ≡ ok true)

module _ (env : Env) (d : PbsDevice) where
  -- A wake that began in `w`, may send `n` packets, and ended in `r` and `w'`.
  pub record IsWake (n : ℕ) (w : World) (r : Result Bool) (w' : World) : Type 0 where
    pub machines : w'.machines ≡ w.machines
    pub at_least : packets w.trace ≤ packets w'.trace
    pub at_most : packets w'.trace ≤ packets w.trace + n
    pub woken : (b : Bool) → r ≡ ok b → b ≡ false
    pub sent : (b : Bool) → r ≡ ok b → packets w.trace + 1 ≤ packets w'.trace

  see_through-keeps :
      (started : ℕ) (w : World)
      → let (r, w') = see_through env d started w in
        (w'.machines ≡ w.machines)
        × (packets w'.trace ≡ packets w.trace)
        × ((b : Bool) → r ≡ ok b → b ≡ false)
  unfolding see_through probe pure raise call ◌>>=◌ ask_clock
  see_through-keeps started w = (ground arith, ground arith, λ b e. ground arith)

  wake_attempts-IsWake :
      (n : ℕ) (w : World) → IsWake n w (wake_attempts env d n w).0 (wake_attempts env d n w).1
  unfolding wake_attempts wake probe pure raise call ◌>>=◌ ask_clock ask_cancelled
  wake_attempts-IsWake zero w = record {
    machines = refl;
    at_least = omega arith;
    at_most = omega arith;
    woken = λ b e. ground arith;
    sent = λ b e. ground arith;
  }
  wake_attempts-IsWake (suc n) w =
      let v : World = record w {
        trace =
            Event.cancel_read
            ∷ Event.probed d.id (1000 * d.wait_timeout)
            ∷ Event.wol_sent d.id
            ∷ Event.clock_read
            ∷ w.trace;
      } in
      let rest = wake_attempts-IsWake n v in
      let last = see_through-keeps (env.clock w.trace) v in
      record {
        machines = ground arith;
        at_least = ground arith;
        at_most = ground arith;
        woken = λ b e. ground (arith, rest.woken b, last.2 b);
        sent = λ b e. ground (arith, rest.sent b, last.2 b);
      }

  see_through-Answered :
      (started : ℕ) (w : World) (b : Bool)
      → (see_through env d started w).0 ≡ ok b
      → Answered env d (see_through env d started w).1.trace
  unfolding see_through probe pure raise call ◌>>=◌ ask_clock
  see_through-Answered started w b h =
      let grace : ℕ = 1000 * d.wait_timeout - (env.clock w.trace - started) in
      (grace, false, Event.clock_read ∷ w.trace, ground arith, ground arith)

  -- The world in which an attempt that was not answered goes on.
  abbrev unanswered : World → World
  unanswered w = record w {
    trace =
        Event.cancel_read
        ∷ Event.probed d.id (1000 * d.wait_timeout)
        ∷ Event.wol_sent d.id
        ∷ Event.clock_read
        ∷ w.trace;
  }

  abbrev at_probe : World → Trace
  at_probe w = Event.wol_sent d.id ∷ Event.clock_read ∷ w.trace

  wake_attempts_cases :
      (n : ℕ) (w : World) (b : Bool)
      → (wake_attempts env d (suc n) w).0 ≡ ok b
      → ((env.wait_reachable d (1000 * d.wait_timeout) true (at_probe w) ≡ ok true)
          × ((wake_attempts env d (suc n) w).1.trace
              ≡ Event.probed d.id (1000 * d.wait_timeout) ∷ at_probe w))
        ⊎ (wake_attempts env d (suc n) w ≡ see_through env d (env.clock w.trace) (unanswered w))
        ⊎ (wake_attempts env d (suc n) w ≡ wake_attempts env d n (unanswered w))
  unfolding wake_attempts wake probe pure raise call ◌>>=◌ ask_clock ask_cancelled
  wake_attempts_cases n w b h = ground arith

  wake_attempts-Answered :
      (n : ℕ) (w : World) (b : Bool)
      → (wake_attempts env d n w).0 ≡ ok b
      → Answered env d (wake_attempts env d n w).1.trace
  wake_attempts-Answered zero w b h = absurd (unfold wake_attempts raise in ground arith)
  wake_attempts-Answered (suc n) w b h = elim (wake_attempts_cases n w b h) [
    | inl (up, e) ↦ (1000 * d.wait_timeout, true, at_probe w, e, up)
    | inr (inl e) ↦ rw e (see_through-Answered (env.clock w.trace) (unanswered w) b (rw e at h))
    | inr (inr e) ↦ rw e (wake_attempts-Answered n (unanswered w) b (rw e at h))
  ]

  -- What bringing a machine up sends, on every branch.
  pub record IsBringUp (w : World) (r : Result Bool) (w' : World) : Type 0 where
    pub machines : w'.machines ≡ w.machines
    pub at_most : packets w'.trace ≤ packets w.trace + d.wol_retries + 1
    pub awake : r ≡ ok true → packets w'.trace ≡ packets w.trace
    pub woken : r ≡ ok false → packets w.trace + 1 ≤ packets w'.trace
    pub unmanaged : d.managed_power ≡ false → packets w'.trace ≡ packets w.trace
    pub stopped :
        env.cancelled (Event.probed d.id 0 ∷ w.trace) ≡ true → packets w'.trace ≡ packets w.trace

  -- Bringing a machine up sends at most one packet more than the configured retries, none to a box
  -- that answers at once, to one whose power is not managed, or for a run already stopped; a box
  -- reported as woken was sent one. The lease table is not touched.
  pub bring_up-IsBringUp : (w : World) → IsBringUp w (bring_up env d w).0 (bring_up env d w).1
  unfolding bring_up probe pure raise call ◌>>=◌ ask_cancelled
  bring_up-IsBringUp w =
      let v : World = record w { trace = Event.cancel_read ∷ Event.probed d.id 0 ∷ w.trace } in
      let rest = wake_attempts-IsWake (d.wol_retries + 1) v in
      record {
        machines = ground arith;
        at_most = ground arith;
        awake = λ e. ground (arith, rest.woken true);
        woken = λ e. ground (arith, rest.sent false);
        unmanaged = λ e. ground arith;
        stopped = λ e. ground arith;
      }

  awaited : World → World
  awaited w = record w { trace = Event.cancel_read ∷ Event.probed d.id 0 ∷ w.trace }

  bring_up_cases :
      (w : World) (b : Bool)
      → (bring_up env d w).0 ≡ ok b
      → ((env.wait_reachable d 0 false w.trace ≡ ok true)
          × ((bring_up env d w).1.trace ≡ Event.probed d.id 0 ∷ w.trace))
        ⊎ (bring_up env d w ≡ wake_attempts env d (d.wol_retries + 1) (awaited w))
  unfolding bring_up probe pure raise call ◌>>=◌ ask_cancelled awaited
  bring_up_cases w b h = ground arith

  -- A machine is reported up only if the very last call was a probe of it that was answered.
  pub bring_up-Answered :
      (w : World) (b : Bool)
      → (bring_up env d w).0 ≡ ok b
      → Answered env d (bring_up env d w).1.trace
  bring_up-Answered w b h = elim (bring_up_cases w b h) [
    | inl (up, e) ↦ (0, false, w.trace, e, up)
    | inr e ↦ rw e (wake_attempts-Answered (d.wol_retries + 1) (awaited w) b (rw e at h))
  ]
