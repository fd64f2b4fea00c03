-- ===== src/Service/Invariant.antt =====
-- What holds of the service of backend/app/jobs/service.py after any interleaving.
use joulenap.Prelude.{
  ℕ, ◌≡◌, ◌≢◌, inl, inr, refl, sym, ◌∙◌, subst, Bool, true, false, Option, none, some, List, [],
  ◌∷◌, Text, arith, ◌<◌, ◌≤◌, not, is_empty, All, All-weaken, Option-cases,
}
use joulenap.Service.{
  QueuedRun, JobService, is_some, enqueue, dequeue, is_in_flight, set_cancel, enter_exclusive,
  unlock, take_next, end_current, begin_run, name_run,
}
use joulenap.Service.Queue.{
  active, Unique, enqueue-Unique, dequeue-IsDequeued, remove_first-empty, List-cases, Unique-queue,
}
use joulenap.Service.Sessions.{
  resting, resolving, starting, ending, working, Session, start, Step, enqueues, dequeues, cancels,
  sets, gives_up, enters, exits, takes, stops, skips, begins, fails_to_start, names, releases, ends,
  Reach, here, next, PhaseFits, Inv,
}
use joulenap.Service.Phases.{
  known-same, fits-same, All-remove_one, All-holds, fits-cancels, fits-gives_up, fits-sets,
  fits-enters, fits-exits, set_by,
}

is_none_of : (o : Option QueuedRun) → is_some o ≡ false → o ≡ none
is_none_of none h = refl
is_none_of (some x) h = cc

none_some : {x : QueuedRun} → ◌≢◌ {A = Option QueuedRun} none (some x)
none_some e = cc

start-Inv : Inv start
start-Inv = record {
  unique = tt;
  fits = (refl, refl, refl);
  served = λ h. cc;
  busy = λ h. cc;
  known = λ id e. cc;
  earlier = tt;
}

enqueues-Inv :
    (s : Session) (item : QueuedRun) (thread_starts : Bool)
    → Inv s
    → Inv (record s { service = (enqueue thread_starts item s.service).1 })
enqueues-Inv s item thread_starts i = record {
  unique = enqueue-Unique thread_starts item s.service i.unique;
  fits =
      fits-same s.phase s (record s { service = (enqueue thread_starts item s.service).1 })
        (unfold enqueue in
          record {
            current = ground arith;
            run_id = ground arith;
            locked = ground arith;
            cancel_set = ground arith;
            exclusive = refl;
            requested = refl;
            next_id = refl;
            on_the_way = refl;
            late = refl;
          })
        i.fits;
  known =
      known-same s (record s { service = (enqueue thread_starts item s.service).1 })
        (unfold enqueue in ground arith) refl i;
  earlier = i.earlier;
  served = λ h. unfold enqueue in ground (arith, i.served);
  busy = λ h. unfold enqueue in ground (arith, i.busy);
}

dequeues-Inv :
    (s : Session) (key : Text) → Inv s → Inv (record s { service = (dequeue key s.service).1 })
unfolding dequeue
dequeues-Inv s key i = record {
  unique = (dequeue-IsDequeued key s.service i.unique).unique;
  fits =
      fits-same s.phase s (record s { service = (dequeue key s.service).1 })
        (record {
          current = refl;
          run_id = refl;
          locked = refl;
          cancel_set = refl;
          exclusive = refl;
          requested = refl;
          next_id = refl;
          on_the_way = refl;
          late = refl;
        })
        i.fits;
  known = i.known;
  earlier = i.earlier;
  served = λ h. i.served (remove_first-empty key s.service.queue h);
  busy = λ h. i.busy h;
}

-- The service that has taken the first entry.
abbrev serving : QueuedRun → List QueuedRun → JobService → JobService
serving x rest s = record s { queue = rest; current = some x }

take_next-cons :
    (s : JobService) {x : QueuedRun} {rest : List QueuedRun}
    → s.queue ≡ x ∷ rest
    → take_next s ≡ (some x, serving x rest s)
unfolding take_next
take_next-cons s q = ground arith

take_next-nil : (s : JobService) → s.queue ≡ [] → take_next s ≡ (none, record s { worker = false })
unfolding take_next
take_next-nil s q = ground arith

active-resting : (s : JobService) → is_some s.current ≡ false → Unique (active s) → Unique s.queue
active-resting s n u = rw (is_none_of s.current n) at u

takes-Inv :
    (s : Session) (item : QueuedRun)
    → Inv s
    → PhaseFits resting s
    → s.service.worker ≡ true
    → (take_next s.service).0 ≡ some item
    → Inv (record s { service = (take_next s.service).1; phase = resolving })
takes-Inv s item i h w e = elim (List-cases s.service.queue) [
  | inl q ↦ absurd (none_some (rw (take_next-nil s.service q) at e))
  | inr (x, rest, q) ↦ rw (take_next-cons s.service q) (record {
    unique = rw q at (active-resting s.service h.0 i.unique);
    fits = (refl, h.1, h.2);
    served = λ z. w;
    busy = λ z. w;
    known = i.known;
    earlier = i.earlier;
  })
]

stops-Inv :
    (s : Session)
    → Inv s
    → PhaseFits s.phase s
    → s.phase ≡ resting
    → (take_next s.service).0 ≡ none
    → Inv (record s { service = (take_next s.service).1 })
stops-Inv s i f r e = elim (List-cases s.service.queue) [
  | inr (x, rest, q) ↦ absurd (none_some (sym (rw (take_next-cons s.service q) at e)))
  | inl q ↦
      let idle : PhaseFits resting s = subst (λ p. PhaseFits p s) r f in
      rw (take_next-nil s.service q) (record {
        unique = i.unique;
        fits =
            subst (λ p. PhaseFits p (record s { service = record s.service { worker = false } }))
              (sym r) idle;
        served = λ z. ground arith;
        busy = λ z. ground arith;
        known = i.known;
        earlier = i.earlier;
      })
]

-- A step that leaves the queue and the running entry alone.
lock_step :
    (s : Session) (t : Session)
    → Inv s
    → t.service.queue ≡ s.service.queue
    → t.service.current ≡ s.service.current
    → t.service.worker ≡ s.service.worker
    → PhaseFits t.phase t
    → ((id : ℕ) → t.service.current_run_id ≡ some id → id < t.next_id)
    → All (λ id. id < t.next_id) t.on_the_way
    → Inv t
lock_step s t i q c w f k l = record {
  unique = rw (q, c) i.unique;
  fits = f;
  served = λ h. rw w (i.served (rw q at h));
  busy = λ h. rw w (i.busy (rw c at h));
  known = k;
  earlier = l;
}

ends-Inv :
    (s : Session)
    → Inv s
    → PhaseFits ending s
    → Inv (record s { service = end_current s.service; phase = resting })
unfolding end_current
ends-Inv s i h = record {
  unique = Unique-queue s.service.current s.service.queue i.unique;
  fits = (refl, refl, h.1);
  served = i.served;
  busy = λ z. cc;
  known = λ id e. cc;
  earlier = i.earlier;
}

in_flight-known :
    (s : Session) (run_id : ℕ) → Inv s → is_in_flight run_id s.service ≡ true → run_id < s.next_id
unfolding is_in_flight
in_flight-known s run_id i e = elim (Option-cases s.service.current_run_id) [
  | inl n ↦ absurd (cc (rw n at e))
  | inr (id, n) ↦ let l = i.known id n in let same : id ≡ run_id = ground arith in omega arith
]

none_on_the_way : (ns : List ℕ) → not (is_empty ns) ≡ false → ns ≡ []
none_on_the_way [] h = refl
none_on_the_way (n ∷ ns) h = absurd (cc)

-- Every step keeps the invariant.
Step-Inv : {s t : Session} → Inv s → Step s t → Inv t
Step-Inv {s} i (enqueues item starts) = enqueues-Inv s item starts i
Step-Inv {s} i (dequeues key) = dequeues-Inv s key i
Step-Inv {s} i (cancels run_id e) =
    lock_step s _ i refl refl refl (fits-cancels s.phase s run_id i.fits e) i.known
      (in_flight-known s run_id i e, i.earlier)
Step-Inv {s} i (sets run_id off e) =
    let l = All-holds _ run_id s.on_the_way e i.earlier in
    lock_step s _ i (unfold set_cancel in refl) (unfold set_cancel in refl)
      (unfold set_cancel in refl)
      (fits-gives_up s.phase (set_by run_id off s) run_id
        (fits-sets s.phase s run_id off i.fits e l))
      (unfold set_cancel in i.known) (All-remove_one _ run_id s.on_the_way i.earlier)
Step-Inv {s} i (gives_up run_id) =
    lock_step s _ i refl refl refl (fits-gives_up s.phase s run_id i.fits) i.known
      (All-remove_one _ run_id s.on_the_way i.earlier)
Step-Inv {s} i (enters e) =
    lock_step s _ i (unfold enter_exclusive in ground arith)
      (unfold enter_exclusive in ground arith) (unfold enter_exclusive in ground arith)
      (fits-enters s.phase s i.fits e)
      (known-same s (record s { service = (enter_exclusive s.service).1; exclusive = true })
        (unfold enter_exclusive in ground arith) refl i)
      i.earlier
Step-Inv {s} i (exits e) =
    lock_step s _ i (unfold unlock in refl) (unfold unlock in refl) (unfold unlock in refl)
      (fits-exits s.phase s i.fits e) (unfold unlock in i.known) i.earlier
Step-Inv {s} i (takes item r w e) = takes-Inv s item i (subst (λ p. PhaseFits p s) r i.fits) w e
Step-Inv {s} i (stops r w e) = stops-Inv s i i.fits r e
Step-Inv {s} i (skips r) =
    let f : PhaseFits resolving s = subst (λ p. PhaseFits p s) r i.fits in
    lock_step s _ i refl refl refl (f.0, f.2) i.known i.earlier
Step-Inv {s} i (begins r l) =
    let f : PhaseFits resolving s = subst (λ p. PhaseFits p s) r i.fits in
    unfold begin_run in
    lock_step s _ i refl refl refl
      (f.0, f.1, refl, sym f.2 ∙ l, λ n. none_on_the_way s.on_the_way n, λ c. absurd (cc)) i.known
      i.earlier
Step-Inv {s} i (fails_to_start r) =
    let f : PhaseFits starting s = subst (λ p. PhaseFits p s) r i.fits in
    unfold unlock in lock_step s _ i refl refl refl (f.0, sym f.3) i.known i.earlier
Step-Inv {s} i (names r) =
    let f : PhaseFits starting s = subst (λ p. PhaseFits p s) r i.fits in
    unfold name_run in
    lock_step s _ i refl refl refl (f.0, refl, f.2, f.3, λ n. rw (f.4 n) tt, f.5, refl)
      (λ id e. ground arith) (All-weaken (λ id l. omega arith) s.on_the_way i.earlier)
Step-Inv {s} i (releases run_id r) =
    let f : PhaseFits (working run_id) s = subst (λ p. PhaseFits p s) r i.fits in
    unfold unlock in lock_step s _ i refl refl refl (f.0, sym f.3) i.known i.earlier
Step-Inv {s} i (ends r) = ends-Inv s i (subst (λ p. PhaseFits p s) r i.fits)

-- After any interleaving of requests with the drain thread: the entries running or queued have
-- different keys; whenever an entry is queued or running the drain thread is alive; the lock, the
-- running entry and its id are as the thread's phase says; no cancel on its way is aimed at a run
-- that is yet to come; and while a run is in flight its cancel flag comes from a cancel aimed at it
-- or, if one was between its guard and the flag when the run began, at a run before it.
pub Reach-Inv : {s : Session} → Reach s → Inv s
Reach-Inv here = start-Inv
Reach-Inv (next r st) = Step-Inv (Reach-Inv r) st

-- A run sees a cancel only if the last cancel to set the flag was aimed at it or at a run before
-- it; and it was aimed at this run if no cancel was between its guard and the flag when the run
-- cleared the flag.
pub cancel_reaches_its_run :
    {s : Session} (run_id : ℕ)
    → Reach s
    → s.phase ≡ working run_id
    → s.service.cancel_set ≡ true
    → (id : ℕ) × (s.requested ≡ some id) × (id ≤ run_id) × (s.late ≡ false → id ≡ run_id)
cancel_reaches_its_run {s} run_id r p c = (subst (λ q. PhaseFits q s) p (Reach-Inv r).fits).5 c
