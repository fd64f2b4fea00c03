-- ===== src/Lease/Table.antt =====
-- The refcounts that the locked sections of backend/app/jobs/lease.py leave in the table.
use joulenap.Prelude.{
  ℕ, suc, ◌+◌, ◌-◌, ◌<◌, ◌≡◌, inl, inr, Bool, Option, none, some, Option-cases, Bool-cases,
  text_eq_sound, subst, Text, Dict, text_eq, text_eq_iff, lookup, insert, remove, ◌==◌, dict_laws,
  if◌then◌else◌, arith,
}
use joulenap.Effects.{LeaseState}
use joulenap.Lease.{join, hold, drop}

abbrev pub count_of : Option LeaseState → ℕ
count_of none = 0
count_of (some held) = held.holders

-- How many runs hold a machine.
abbrev pub holders_of : Text → Dict LeaseState → ℕ
holders_of key machines = count_of (lookup key machines)

-- No entry without a holder: `release` deletes it with the last one.
abbrev pub IsTight : Dict LeaseState → Type 0
IsTight machines =
    (key : Text) (held : LeaseState) → lookup key machines ≡ some held → 0 < held.holders

pub join-holders :
    (key j : Text) (machines : Dict LeaseState) {awake : Bool} {after : Dict LeaseState}
    → join key machines ≡ some (awake, after)
    → holders_of j after
      ≡ (if text_eq key j then suc (holders_of j machines) else holders_of j machines)
unfolding join
join-holders key j machines h = grind (arith, dict_laws, text_eq_iff)

pub hold-holders :
    (key j : Text) (awake : Bool) (machines : Dict LeaseState)
    → holders_of j (hold key awake machines)
      ≡ (if text_eq key j then suc (holders_of j machines) else holders_of j machines)
unfolding hold
hold-holders key j awake machines = grind (arith, dict_laws, text_eq_iff)

pub drop-holders :
    (key j : Text) (machines : Dict LeaseState) {remaining : ℕ} {after : Dict LeaseState}
    → drop key machines ≡ some (remaining, after)
    → (remaining + 1 ≡ holders_of key machines)
      × (holders_of j after ≡ (if text_eq key j then remaining else holders_of j machines))
unfolding drop
drop-holders key j machines h = grind (arith, dict_laws, text_eq_iff)

pub join-IsTight :
    (key : Text) (machines : Dict LeaseState) {awake : Bool} {after : Dict LeaseState}
    → IsTight machines
    → join key machines ≡ some (awake, after)
    → IsTight after
unfolding join
join-IsTight key machines tight h j held e = grind (arith, dict_laws, text_eq_iff, tight j)

pub hold-IsTight :
    (key : Text) (awake : Bool) (machines : Dict LeaseState)
    → IsTight machines
    → IsTight (hold key awake machines)
unfolding hold
hold-IsTight key awake machines tight j held e = grind (arith, dict_laws, text_eq_iff, tight j)

pub drop-IsTight :
    (key : Text) (machines : Dict LeaseState) {remaining : ℕ} {after : Dict LeaseState}
    → IsTight machines
    → drop key machines ≡ some (remaining, after)
    → IsTight after
unfolding drop
drop-IsTight key machines tight h j held e = grind (arith, dict_laws, text_eq_iff, tight j)

-- A machine that somebody holds can be dropped, and dropping says how many remain.
pub drop-held :
    (key : Text) (machines : Dict LeaseState)
    → 0 < holders_of key machines
    → (after : Dict LeaseState) × (drop key machines ≡ some (holders_of key machines - 1, after))
unfolding drop
drop-held key machines h = elim (Option-cases (lookup key machines)) [
  | inl e ↦ absurd (ground arith)
  | inr (held, e) ↦ (
    if held.holders - 1 == 0
        then remove key machines
        else insert key (record { holders = held.holders - 1; was_awake = held.was_awake })
            machines,
    ground arith,
  )
]

-- Of a machine that nobody holds, one holder less is none.
pub unheld-holders :
    (key j : Text) (machines : Dict LeaseState)
    → holders_of key machines ≡ 0
    → holders_of j machines
      ≡ (if text_eq key j then holders_of key machines - 1 else holders_of j machines)
unheld-holders key j machines h = elim (Bool-cases (text_eq key j)) [
  | inl e ↦ rw e (
      subst (λ k. holders_of k machines ≡ holders_of key machines - 1) (text_eq_sound key j e)
        (omega arith))
  | inr e ↦ rw e
]
