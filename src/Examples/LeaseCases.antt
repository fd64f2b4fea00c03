-- ===== src/Examples/LeaseCases.antt =====
-- backend/app/jobs/lease.py on one box.
use joulenap.Prelude.{if◌then◌else◌, text_eq, suc, ◌≡◌, refl, true, false, [], codes, strip, lower}
use joulenap.Effects.{ok, pure, raise, call, ◌>>=◌, ask_cancelled, ask_clock}
use joulenap.Lease.{lease_key, hold, acquire, release, bring_up, probe, wake, wake_attempts}
use joulenap.Lease.Wake.{IsBringUp, bring_up-IsBringUp, Answered, bring_up-Answered}
use joulenap.Lease.Acquire.{IsAcquire, acquire-IsAcquire}
use joulenap.Lease.Release.{IsRelease, release-IsRelease}
use joulenap.Lease.Races.{Fleet, holds, Reach, here, next, Agrees, Reach-Agrees}
use joulenap.Examples.{box, hasty_box, env, free, held_once}

-- The host is folded.
box_key : lease_key box ≡ codes "nas.lan"
unfolding lease_key strip lower
box_key = refl

box_comes_up : (bring_up env box free).0 ≡ ok false
unfolding bring_up wake_attempts wake probe pure raise call ◌>>=◌ ask_cancelled ask_clock
box_comes_up = refl

bring_up-IsBringUp_example :
    IsBringUp env box free (bring_up env box free).0 (bring_up env box free).1
bring_up-IsBringUp_example = bring_up-IsBringUp env box free

bring_up-Answered_example : Answered env box (bring_up env box free).1.trace
bring_up-Answered_example = bring_up-Answered env box free false box_comes_up

acquire-IsAcquire_example : IsAcquire env box free (acquire env box free).0 (acquire env box free).1
acquire-IsAcquire_example = acquire-IsAcquire env box free

release-IsRelease_example :
    IsRelease env hasty_box true held_once
      (release env hasty_box true held_once).0
      (release env hasty_box true held_once).1
release-IsRelease_example = release-IsRelease env hasty_box true held_once

-- Two threads that woke one machine at once.
abbrev fleet : Fleet
fleet = record {
  machines = hold (codes "nas") false (hold (codes "nas") false []);
  claims = (λ j.
      if text_eq (codes "nas") j
      then suc (if text_eq (codes "nas") j then suc 0 else 0)
      else (if text_eq (codes "nas") j then suc 0 else 0));
}

fleet-Reach : Reach fleet
fleet-Reach = next (next here (holds (codes "nas") false)) (holds (codes "nas") false)

Reach-Agrees_example : Agrees fleet
Reach-Agrees_example = Reach-Agrees fleet-Reach
