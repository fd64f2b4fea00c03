-- ===== src/Lease/Acquire.antt =====
-- `PowerLease.acquire` of backend/app/jobs/lease.py by one thread: who is counted as a holder.
use joulenap.Prelude.{
  suc, ◌+◌, ◌<◌, ◌≤◌, ◌≡◌, refl, inl, inr, Bool, none, some, Option-cases, Text, Dict, text_eq,
  if◌then◌else◌, arith,
}
use joulenap.Config.{PbsDevice}
use joulenap.Effects.{Failure, Result, ok, err, LeaseState, World, Env, pure, ◌>>=◌, Result-cases}
use joulenap.Lease.{lease_key, join, hold, joining, holding, bring_up, acquire}
use joulenap.Lease.Table.{
  holders_of, IsTight, join-holders, hold-holders, join-IsTight, hold-IsTight,
}
use joulenap.Lease.Wake.{packets, bring_up-IsBringUp, Answered, bring_up-Answered}

module _ (env : Env) (d : PbsDevice) where
  -- A run that joins holders does nothing but count itself.
  acquire_joined :
      (w : World) {awake : Bool} {after : Dict LeaseState}
      → join (lease_key d) w.machines ≡ some (awake, after)
      → acquire env d w ≡ (ok awake, record w { machines = after })
  unfolding acquire joining pure ◌>>=◌
  acquire_joined w h = ground arith

  -- A first holder is counted after the box answered, in the table as it then stands.
  acquire_up :
      (w : World) {awake : Bool} {w' : World}
      → join (lease_key d) w.machines ≡ none
      → bring_up env d w ≡ (ok awake, w')
      → acquire env d w ≡ (ok awake, record w' { machines = hold (lease_key d) awake w'.machines })
  unfolding acquire joining holding pure ◌>>=◌
  acquire_up w h e = ground arith

  acquire_failed :
      (w : World) {x : Failure} {w' : World}
      → join (lease_key d) w.machines ≡ none
      → bring_up env d w ≡ (err x, w')
      → acquire env d w ≡ (err x, w')
  unfolding acquire joining holding pure ◌>>=◌
  acquire_failed w h e = ground arith

  join-none :
      (key : Text) (machines : Dict LeaseState)
      → join key machines ≡ none
      → holders_of key machines ≡ 0
  unfolding join
  join-none key machines h = ground arith

  -- What `acquire` did from `w`, whether it returned or raised.
  pub record IsAcquire (w : World) (r : Result Bool) (w' : World) : Type 0 where
    pub counted :
        (b : Bool)
        → r ≡ ok b
        → (j : Text)
        → holders_of j w'.machines ≡ (
            if text_eq (lease_key d) j
            then suc (holders_of j w.machines)
            else holders_of j w.machines)
    pub refused : (e : Failure) → r ≡ err e → w'.machines ≡ w.machines
    pub tight : IsTight w.machines → IsTight w'.machines
    pub quiet : 0 < holders_of (lease_key d) w.machines → w'.trace ≡ w.trace
    pub answered :
        (b : Bool) → r ≡ ok b → holders_of (lease_key d) w.machines ≡ 0 → Answered env d w'.trace
    pub few_packets : packets w'.trace ≤ packets w.trace + d.wol_retries + 1

  joined-IsAcquire :
      (w : World) (awake : Bool) (after : Dict LeaseState)
      → join (lease_key d) w.machines ≡ some (awake, after)
      → IsAcquire w (ok awake) (record w { machines = after })
  joined-IsAcquire w awake after h = record {
    counted = λ b e j. join-holders (lease_key d) j w.machines h;
    refused = λ e q. cc;
    tight = λ t. join-IsTight (lease_key d) w.machines t h;
    quiet = λ p. refl;
    answered = λ b e z. absurd (unfold join in ground arith);
    few_packets = omega arith;
  }

  first-IsAcquire :
      (w : World) (awake : Bool) (w' : World)
      → join (lease_key d) w.machines ≡ none
      → bring_up env d w ≡ (ok awake, w')
      → IsAcquire w (ok awake) (record w' { machines = hold (lease_key d) awake w'.machines })
  first-IsAcquire w awake w' h e =
      let up = rw e at (bring_up-IsBringUp env d w) in
      record {
        counted = λ b q j. rw (← up.machines) (hold-holders (lease_key d) j awake w'.machines);
        refused = λ x q. cc;
        tight = λ t. hold-IsTight (lease_key d) awake w'.machines (rw up.machines t);
        quiet = λ p. absurd (omega (arith, join-none (lease_key d) w.machines h));
        answered = λ b q z. rw e at (bring_up-Answered env d w awake (rw e));
        few_packets = up.at_most;
      }

  failed-IsAcquire :
      (w : World) (x : Failure) (w' : World)
      → join (lease_key d) w.machines ≡ none
      → bring_up env d w ≡ (err x, w')
      → IsAcquire w (err x) w'
  failed-IsAcquire w x w' h e =
      let up = rw e at (bring_up-IsBringUp env d w) in
      record {
        counted = λ b q j. cc;
        refused = λ y q. up.machines;
        tight = λ t. rw up.machines t;
        quiet = λ p. absurd (omega (arith, join-none (lease_key d) w.machines h));
        answered = λ b q z. cc;
        few_packets = up.at_most;
      }

  -- `acquire` counts the run as one more holder of its machine, and of no other, exactly when it
  -- returns; when it raises the table is as it was, so nothing has to be released. If the machine
  -- is held, nothing is asked or sent; the first holder is counted only after the machine answered
  -- as the last call. At most one packet more than the configured retries is sent.
  pub acquire-IsAcquire : (w : World) → IsAcquire w (acquire env d w).0 (acquire env d w).1
  acquire-IsAcquire w = elim (Option-cases (join (lease_key d) w.machines)) [
    | inl h ↦ elim (Result-cases (bring_up env d w)) [
      | inl (awake, w', e) ↦ rw (acquire_up w h e) (first-IsAcquire w awake w' h e)
      | inr (x, w', e) ↦ rw (acquire_failed w h e) (failed-IsAcquire w x w' h e)
    ]
    | inr ((awake, after), h) ↦ rw (acquire_joined w h) (joined-IsAcquire w awake after h)
  ]
