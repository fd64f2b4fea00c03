-- ===== src/Service/Phases.antt =====
-- What the phase says of the service (backend/app/jobs/service.py), through the steps that leave
-- the phase as it is.
use joulenap.Prelude.{
  ℕ, ◌≡◌, inl, inr, refl, Bool, true, false, some, List, [], ◌∷◌, arith, ◌<◌, ◌==◌, All, Bool-cases,
}
use joulenap.Service.{done, is_in_flight, set_cancel, enter_exclusive, unlock}
use joulenap.Service.Sessions.{
  Phase, resting, resolving, starting, ending, working, Session, PhaseFits, Inv, IsAimed,
  remove_one, holds,
}

-- The parts of a session that its phase speaks of are the same.
pub record SameRun (s t : Session) : Type 0 where
  pub current : t.service.current ≡ s.service.current
  pub run_id : t.service.current_run_id ≡ s.service.current_run_id
  pub locked : t.service.locked ≡ s.service.locked
  pub cancel_set : t.service.cancel_set ≡ s.service.cancel_set
  pub exclusive : t.exclusive ≡ s.exclusive
  pub requested : t.requested ≡ s.requested
  pub next_id : t.next_id ≡ s.next_id
  pub on_the_way : t.on_the_way ≡ s.on_the_way
  pub late : t.late ≡ s.late

IsAimed-same : (id : ℕ) (s t : Session) → SameRun s t → IsAimed id s → IsAimed id t
IsAimed-same id s t e h = λ c. rw (e.requested, e.late) (h (rw e.cancel_set at c))

pub known-same :
    (s t : Session)
    → t.service.current_run_id ≡ s.service.current_run_id
    → t.next_id ≡ s.next_id
    → Inv s
    → (id : ℕ) → t.service.current_run_id ≡ some id
    → id < t.next_id
known-same s t r n i id e = rw n (i.known id (rw r at e))

pub fits-same : (p : Phase) (s t : Session) → SameRun s t → PhaseFits p s → PhaseFits p t
fits-same resting s t e h = ground arith
fits-same resolving s t e h = ground arith
fits-same starting s t e h = (
  ground arith,
  ground arith,
  ground arith,
  ground arith,
  rw (e.late, e.on_the_way) h.4,
  rw e.next_id (IsAimed-same s.next_id s t e h.5),
)
fits-same (working run_id) s t e h = (
  ground arith,
  ground arith,
  ground arith,
  ground arith,
  rw (e.late, e.on_the_way) h.4,
  IsAimed-same run_id s t e h.5,
  rw e.next_id h.6,
)
fits-same ending s t e h = ground arith

pub All-remove_one : (P : ℕ → Type 0) (n : ℕ) (ns : List ℕ) → All P ns → All P (remove_one n ns)
unfolding remove_one
All-remove_one P n [] h = tt
All-remove_one P n (m ∷ ns) h = elim (Bool-cases (m == n)) [
  | inl e ↦ rw e h.1
  | inr e ↦ rw e (h.0, All-remove_one P n ns h.1)
]

pub All-holds : (P : ℕ → Type 0) (n : ℕ) (ns : List ℕ) → holds n ns ≡ true → All P ns → P n
All-holds P n [] h a = absurd (cc)
All-holds P n (m ∷ ns) h a = elim (Bool-cases (m == n)) [
  | inl e ↦ let same : m ≡ n = ground arith in rw (← same) a.0
  | inr e ↦ All-holds P n ns (rw e at h) a.1
]

pub fits-cancels :
    (p : Phase) (s : Session) (run_id : ℕ)
    → PhaseFits p s
    → is_in_flight run_id s.service ≡ true
    → PhaseFits p (record s { on_the_way = run_id ∷ s.on_the_way })
unfolding is_in_flight
fits-cancels resting s run_id h e = h
fits-cancels resolving s run_id h e = h
fits-cancels starting s run_id h e = absurd (ground arith)
fits-cancels (working id) s run_id h e = (h.0, h.1, h.2, h.3, λ l. (ground arith, h.4 l), h.5, h.6)
fits-cancels ending s run_id h e = h

pub fits-gives_up :
    (p : Phase) (s : Session) (run_id : ℕ)
    → PhaseFits p s
    → PhaseFits p (record s { on_the_way = remove_one run_id s.on_the_way })
fits-gives_up resting s run_id h = h
fits-gives_up resolving s run_id h = h
fits-gives_up starting s run_id h =
    (h.0, h.1, h.2, h.3, λ l. rw (h.4 l) (unfold remove_one in refl), h.5)
fits-gives_up (working id) s run_id h =
    (h.0, h.1, h.2, h.3, λ l. All-remove_one _ run_id s.on_the_way (h.4 l), h.5, h.6)
fits-gives_up ending s run_id h = h

-- The flag is set, and nothing is on the way but what was.
abbrev pub set_by : ℕ → Bool → Session → Session
set_by run_id power_off s = record s {
  service = set_cancel power_off s.service;
  requested = some run_id;
}

pub fits-sets :
    (p : Phase) (s : Session) (run_id : ℕ) (power_off : Bool)
    → PhaseFits p s
    → holds run_id s.on_the_way ≡ true
    → run_id < s.next_id
    → PhaseFits p (set_by run_id power_off s)
unfolding set_cancel
fits-sets resting s run_id power_off h e l = h
fits-sets resolving s run_id power_off h e l = h
fits-sets starting s run_id power_off h e l =
    (h.0, h.1, h.2, h.3, h.4, λ c. (run_id, refl, omega arith, λ n. absurd (cc (rw (h.4 n) at e))))
fits-sets (working id) s run_id power_off h e l = (
  h.0,
  h.1,
  h.2,
  h.3,
  h.4,
  λ c. (run_id, refl, omega (arith, h.6), λ n. All-holds _ run_id s.on_the_way e (h.4 n)),
  h.6,
)
fits-sets ending s run_id power_off h e l = h

pub fits-enters :
    (p : Phase) (s : Session)
    → PhaseFits p s
    → (enter_exclusive s.service).0 ≡ done tt
    → PhaseFits p (record s { service = (enter_exclusive s.service).1; exclusive = true })
unfolding enter_exclusive
fits-enters resting s h e = ground arith
fits-enters resolving s h e = ground arith
fits-enters starting s h e = absurd (ground arith)
fits-enters (working id) s h e = absurd (ground arith)
fits-enters ending s h e = ground arith

pub fits-exits :
    (p : Phase) (s : Session)
    → PhaseFits p s
    → s.exclusive ≡ true
    → PhaseFits p (record s { service = unlock s.service; exclusive = false })
unfolding unlock
fits-exits resting s h e = ground arith
fits-exits resolving s h e = ground arith
fits-exits starting s h e = absurd (ground arith)
fits-exits (working id) s h e = absurd (ground arith)
fits-exits ending s h e = ground arith
