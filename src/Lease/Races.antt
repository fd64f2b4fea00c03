-- ===== src/Lease/Races.antt =====
-- Threads that acquire and release leases at once. The sections of backend/app/jobs/lease.py under
-- the lock are atomic and may come in any order; between `join` and `hold` a thread wakes the box
-- with the lock dropped, so several threads may be there for one machine.
use joulenap.Prelude.{
  ℕ, suc, ◌-◌, ◌<◌, ◌≡◌, refl, Bool, some, [], Text, Dict, text_eq, text_eq_iff, lookup,
  if◌then◌else◌, arith,
}
use joulenap.Effects.{LeaseState}
use joulenap.Lease.{join, hold, drop}
use joulenap.Lease.Table.{
  holders_of, IsTight, join-holders, hold-holders, drop-holders, join-IsTight, hold-IsTight,
  drop-IsTight, drop-held,
}

-- The table, with how many threads have acquired each machine and not released it.
pub record Fleet : Type 0 where
  pub machines : Dict LeaseState
  pub claims : Text → ℕ

abbrev pub gain : Text → (Text → ℕ) → Text → ℕ
gain key claims j = if text_eq key j then suc (claims j) else claims j

abbrev pub lose : Text → (Text → ℕ) → Text → ℕ
lose key claims j = if text_eq key j then claims j - 1 else claims j

pub data Step : Fleet → Fleet → Type 0 where
  joins :
      {f : Fleet} (key : Text) {awake : Bool} {after : Dict LeaseState}
      → join key f.machines ≡ some (awake, after)
      → Step f (record { machines = after; claims = gain key f.claims })
  holds :
      {f : Fleet} (key : Text) (awake : Bool)
      → Step f (record { machines = hold key awake f.machines; claims = gain key f.claims })
  drops :
      {f : Fleet} (key : Text) {remaining : ℕ} {after : Dict LeaseState}
      → 0 < f.claims key
      → drop key f.machines ≡ some (remaining, after)
      → Step f (record { machines = after; claims = lose key f.claims })

abbrev pub start : Fleet
start = record { machines = []; claims = λ key. 0 }

pub data Reach : Fleet → Type 0 where
  here : Reach start
  next : {f g : Fleet} → Reach f → Step f g → Reach g

-- The table agrees with the claims, and holds no dead entry.
pub record Agrees (f : Fleet) : Type 0 where
  pub counts : (key : Text) → holders_of key f.machines ≡ f.claims key
  pub tight : IsTight f.machines

start-Agrees : Agrees start
unfolding lookup
start-Agrees = record { counts = λ key. refl; tight = λ key held e. ground arith }

Step-Agrees : {f g : Fleet} → Agrees f → Step f g → Agrees g
Step-Agrees {f} a (joins key h) = record {
  counts = λ j. ground (arith, a.counts j, join-holders key j f.machines h);
  tight = join-IsTight key f.machines a.tight h;
}
Step-Agrees {f} a (holds key awake) = record {
  counts = λ j. ground (arith, a.counts j, hold-holders key j awake f.machines);
  tight = hold-IsTight key awake f.machines a.tight;
}
Step-Agrees {f} a (drops key claimed h) = record {
  counts = λ j.
      ground (arith, a.counts j, a.counts key, drop-holders key j f.machines h, text_eq_iff key j);
  tight = drop-IsTight key f.machines a.tight h;
}

-- Whatever the interleaving of joins, first acquires racing on one machine included, and
-- releases: the refcount of each machine is the number of threads that have acquired it and not
-- yet released it, and no entry is left without a holder.
pub Reach-Agrees : {f : Fleet} → Reach f → Agrees f
Reach-Agrees here = start-Agrees
Reach-Agrees (next r s) = Step-Agrees (Reach-Agrees r) s

-- In any reachable state a thread that holds a machine finds its entry when it releases, and the
-- number it is told remains is the number of the other threads that hold the machine.
pub drop-last :
    {f : Fleet} (key : Text)
    → Reach f
    → 0 < f.claims key
    → (after : Dict LeaseState) × (drop key f.machines ≡ some (f.claims key - 1, after))
drop-last {f} key r claimed =
    let a = Reach-Agrees r in
    let held = drop-held key f.machines (rw (a.counts key) claimed) in
    (held.0, rw (a.counts key) at held.1)
