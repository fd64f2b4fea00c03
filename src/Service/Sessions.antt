-- ===== src/Service/Sessions.antt =====
-- The service of backend/app/jobs/service.py over time: requests from the API and the scheduler
-- interleaved with the drain thread, which goes through `_drain`, `_execute` and `_start` in the
-- phases below. A cancel is two steps, as it takes no lock: it finds its run in flight, and later
-- it sets the flag, or it gives up (the test of the single-run lock, which is in between, can only
-- make it give up).
use joulenap.Prelude.{
  ℕ, suc, ◌≡◌, ◌<◌, ◌≤◌, ◌==◌, Bool, true, false, not, Option, none, some, List, [], ◌∷◌, Text,
  is_empty, any, All, if◌then◌else◌,
}
use joulenap.Service.{
  QueuedRun, JobService, is_some, new_service, done, enqueue, dequeue, is_in_flight, set_cancel,
  enter_exclusive, unlock, take_next, end_current, begin_run, name_run,
}
use joulenap.Service.Queue.{active, Unique}

-- Where the drain thread is: between entries, with an entry but no lock, holding the lock before
-- the row is written, executing the run of that id, or past the lock's release.
pub data Phase : Type 0 where
  resting resolving starting ending : Phase
  working : ℕ → Phase

-- `exclusive` is whether a block of `exclusive()` holds the lock, and `next_id` the id of the next
-- row. `on_the_way` has the runs of the cancels that are between their two steps, `late` is whether
-- there were any when the run in flight cleared the flag, and `requested` is the run of the cancel
-- that set the flag last.
pub record Session : Type 0 where
  pub service : JobService
  pub phase : Phase
  pub exclusive : Bool
  pub requested : Option ℕ
  pub next_id : ℕ
  pub on_the_way : List ℕ
  pub late : Bool

abbrev pub start : Session
start = record {
  service = new_service;
  phase = resting;
  exclusive = false;
  requested = none;
  next_id = 1;
  on_the_way = [];
  late = false;
}

-- Without the first of its occurrences.
unfoldable pub remove_one : ℕ → List ℕ → List ℕ
remove_one n [] = []
remove_one n (m ∷ ns) = let rest = remove_one n ns in if m == n then ns else m ∷ rest

abbrev pub holds : ℕ → List ℕ → Bool
holds n = any (λ m. m == n)

pub data Step (s : Session) : Session → Type 0 where
  enqueues :
      (item : QueuedRun) (thread_starts : Bool)
      → Step s (record s { service = (enqueue thread_starts item s.service).1 })
  dequeues : (key : Text) → Step s (record s { service = (dequeue key s.service).1 })
  cancels :
      (run_id : ℕ)
      → is_in_flight run_id s.service ≡ true
      → Step s (record s { on_the_way = run_id ∷ s.on_the_way })
  sets :
      (run_id : ℕ) (power_off : Bool)
      → holds run_id s.on_the_way ≡ true
      → Step s (record s {
        service = set_cancel power_off s.service;
        on_the_way = remove_one run_id s.on_the_way;
        requested = some run_id;
      })
  gives_up : (run_id : ℕ) → Step s (record s { on_the_way = remove_one run_id s.on_the_way })
  enters :
      (enter_exclusive s.service).0 ≡ done tt
      → Step s (record s { service = (enter_exclusive s.service).1; exclusive = true })
  exits : s.exclusive ≡ true → Step s (record s { service = unlock s.service; exclusive = false })
  takes :
      (item : QueuedRun)
      → s.phase ≡ resting
      → s.service.worker ≡ true
      → (take_next s.service).0 ≡ some item
      → Step s (record s { service = (take_next s.service).1; phase = resolving })
  stops :
      s.phase ≡ resting
      → s.service.worker ≡ true
      → (take_next s.service).0 ≡ none
      → Step s (record s { service = (take_next s.service).1 })
  skips : s.phase ≡ resolving → Step s (record s { phase = ending })
  begins :
      s.phase ≡ resolving
      → s.service.locked ≡ false
      → Step s (record s {
        service = begin_run s.service;
        phase = starting;
        late = not (is_empty s.on_the_way);
      })
  fails_to_start :
      s.phase ≡ starting → Step s (record s { service = unlock s.service; phase = ending })
  names :
      s.phase ≡ starting
      → Step s (record s {
        service = name_run s.next_id s.service;
        phase = working s.next_id;
        next_id = suc s.next_id;
      })
  releases :
      (run_id : ℕ)
      → s.phase ≡ working run_id
      → Step s (record s { service = unlock s.service; phase = ending })
  ends : s.phase ≡ ending → Step s (record s { service = end_current s.service; phase = resting })

pub data Reach : Session → Type 0 where
  here : Reach start
  next : {s t : Session} → Reach s → Step s t → Reach t

-- Where the cancel flag of the run `run_id` comes from: the last cancel to set it was aimed at this
-- run or at one before it, and at this one unless a cancel was late.
abbrev pub IsAimed : ℕ → Session → Type 0
IsAimed run_id s =
    s.service.cancel_set ≡ true
    → (id : ℕ) × (s.requested ≡ some id) × (id ≤ run_id) × (s.late ≡ false → id ≡ run_id)

-- What the phase says of the service.
abbrev pub PhaseFits : Phase → Session → Type 0
PhaseFits resting s =
    (is_some s.service.current ≡ false)
    × (s.service.current_run_id ≡ none)
    × (s.service.locked ≡ s.exclusive)
PhaseFits resolving s =
    (is_some s.service.current ≡ true)
    × (s.service.current_run_id ≡ none)
    × (s.service.locked ≡ s.exclusive)
PhaseFits starting s =
    (is_some s.service.current ≡ true)
    × (s.service.current_run_id ≡ none)
    × (s.service.locked ≡ true)
    × (s.exclusive ≡ false)
    × (s.late ≡ false → s.on_the_way ≡ [])
    × IsAimed s.next_id s
PhaseFits (working run_id) s =
    (is_some s.service.current ≡ true)
    × (s.service.current_run_id ≡ some run_id)
    × (s.service.locked ≡ true)
    × (s.exclusive ≡ false)
    × (s.late ≡ false → All (λ id. id ≡ run_id) s.on_the_way)
    × IsAimed run_id s
    × (suc run_id ≡ s.next_id)
PhaseFits ending s = (is_some s.service.current ≡ true) × (s.service.locked ≡ s.exclusive)

pub record Inv (s : Session) : Type 0 where
  pub unique : Unique (active s.service)
  pub fits : PhaseFits s.phase s
  pub served : is_empty s.service.queue ≡ false → s.service.worker ≡ true
  pub busy : is_some s.service.current ≡ true → s.service.worker ≡ true
  pub known : (id : ℕ) → s.service.current_run_id ≡ some id → id < s.next_id
  pub earlier : All (λ id. id < s.next_id) s.on_the_way
