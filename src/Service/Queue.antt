-- ===== src/Service/Queue.antt =====
-- The queue of backend/app/jobs/service.py, one method at a time.
use joulenap.Prelude.{
  ℕ, zero, suc, ◌≤◌, ◌≡◌, ◌⊎◌, inl, inr, refl, sym, ◌∙◌, ap, Bool, true, false, Option, none, some,
  List, [], ◌∷◌, ◌++◌, Text, is_empty, any, any-append, length, map, text_eq, text_eq_iff,
  text_eq_sound, Bool-cases, arith,
}
use mathlib.Core.List.{append_assoc, append-nil}
use joulenap.Service.{
  QueuedRun, JobService, ServiceError, Reply, done, refused, same_key, enqueue, dequeue,
  remove_first, drain, Executing, execute_entry,
}

-- The entries that are running or queued.
abbrev pub active_of : Option QueuedRun → List QueuedRun → List QueuedRun
active_of none queue = queue
active_of (some item) queue = item ∷ queue

abbrev pub active : JobService → List QueuedRun
active s = active_of s.current s.queue

-- No two entries share a key.
abbrev pub Unique : List QueuedRun → Type 0
Unique [] = Unit
Unique (item ∷ rest) = (any (same_key item.key) rest ≡ false) × Unique rest

length-zero {ℓ} : {A : Type ℓ} (xs : List A) → length xs ≡ 0 → xs ≡ []
length-zero [] h = refl
length-zero (x ∷ xs) h = absurd (omega arith)

Reply-cases {ℓ κ} :
    {A : Type ℓ} {S : Type κ} (p : Reply A × S)
    → ((a : A) × (s : S) × (p ≡ (done a, s)))
      ⊎ ((e : ServiceError) × (s : S) × (p ≡ (refused e, s)))
Reply-cases (done a, s) = inl (a, s, refl)
Reply-cases (refused e, s) = inr (e, s, refl)

Unique-snoc :
    (items : List QueuedRun) (item : QueuedRun)
    → Unique items
    → any (same_key item.key) items ≡ false
    → Unique (items ++ item ∷ [])
Unique-snoc [] item u h = (refl, tt)
Unique-snoc (x ∷ xs) item u h = (
  ground (
    arith,
    any-append (same_key x.key) xs (item ∷ []),
    text_eq_iff item.key x.key,
    text_eq_iff x.key item.key,
  ),
  Unique-snoc xs item u.1 (ground arith),
)

any-remove_first :
    (p : QueuedRun → Bool) (key : Text) (items : List QueuedRun)
    → any p items ≡ false
    → any p (remove_first key items) ≡ false
unfolding remove_first
any-remove_first p key [] h = refl
any-remove_first p key (x ∷ xs) h = ground (arith, any-remove_first p key xs)

Unique-remove_first :
    (key : Text) (items : List QueuedRun) → Unique items → Unique (remove_first key items)
unfolding remove_first
Unique-remove_first key [] u = tt
Unique-remove_first key (x ∷ xs) u = elim (Bool-cases (text_eq x.key key)) [
  | inl e ↦ rw e u.1
  | inr e ↦ rw e (any-remove_first (same_key x.key) key xs u.0, Unique-remove_first key xs u.1)
]

active_of-snoc :
    (current : Option QueuedRun) (queue : List QueuedRun) (item : QueuedRun)
    → active_of current (queue ++ item ∷ []) ≡ active_of current queue ++ item ∷ []
active_of-snoc none queue item = refl
active_of-snoc (some x) queue item = refl

-- An entry that `enqueue` refuses, for whichever reason, leaves the service as it was.
pub enqueue_refused :
    (thread_starts : Bool) (item : QueuedRun) (s : JobService) {e : ServiceError}
    → (enqueue thread_starts item s).0 ≡ refused e
    → (enqueue thread_starts item s).1 ≡ s
unfolding enqueue
enqueue_refused thread_starts item s h = ground arith

pub record IsEnqueued (item : QueuedRun) (s : JobService) (ahead : ℕ) (s' : JobService)
    : Type 0 where
  pub at_end : s'.queue ≡ s.queue ++ item ∷ []
  pub current : s'.current ≡ s.current
  pub worker : s'.worker ≡ true
  pub new_key : any (same_key item.key) (active s) ≡ false
  pub ahead_of_it : length s.queue ≤ ahead
  pub at_once : ahead ≡ 0 → (s.current ≡ none) × (s.locked ≡ false) × (s.queue ≡ [])

-- An entry that `enqueue` accepts goes to the end of the queue, with a drain thread alive and no
-- other entry of its key running or queued. The number it answers is at least the number of
-- entries queued before it, and it is 0 only if nothing was running or queued and the lock free.
pub enqueue-IsEnqueued :
    (thread_starts : Bool) (item : QueuedRun) (s : JobService) {ahead : ℕ}
    → (enqueue thread_starts item s).0 ≡ done ahead
    → IsEnqueued item s ahead (enqueue thread_starts item s).1
unfolding enqueue
enqueue-IsEnqueued thread_starts item s h = record {
  at_end = ground arith;
  current = ground arith;
  worker = ground arith;
  new_key = ground (arith, text_eq_iff item.key item.key);
  ahead_of_it = ground arith;
  at_once = λ z. (ground arith, ground arith, length-zero s.queue (ground arith));
}

-- Keys stay unique whether an entry is accepted or refused.
pub enqueue-Unique :
    (thread_starts : Bool) (item : QueuedRun) (s : JobService)
    → Unique (active s)
    → Unique (active (enqueue thread_starts item s).1)
enqueue-Unique thread_starts item s u = elim (Reply-cases (enqueue thread_starts item s)) [
  | inl (ahead, s', e) ↦
      let q = rw e at (enqueue-IsEnqueued thread_starts item s {ahead = ahead} (rw e)) in
      rw (e, q.current, q.at_end, active_of-snoc s.current s.queue item)
        (Unique-snoc (active s) item u q.new_key)
  | inr (x, s', e) ↦ rw (enqueue_refused thread_starts item s {e = x} (rw e)) u
]

active_of-remove :
    (key : Text) (current : Option QueuedRun) (queue : List QueuedRun)
    → Unique (active_of current queue)
    → Unique (active_of current (remove_first key queue))
active_of-remove key none queue u = Unique-remove_first key queue u
active_of-remove key (some item) queue u =
    (any-remove_first (same_key item.key) key queue u.0, Unique-remove_first key queue u.1)

-- What `dequeue` did from `s`.
pub record IsDequeued (key : Text) (s : JobService) (found : Bool) (s' : JobService) : Type 0 where
  pub found_it : found ≡ any (same_key key) s.queue
  pub unique : Unique (active s')
  pub gone : any (same_key key) s'.queue ≡ false
  pub untouched : found ≡ false → s' ≡ s
  pub others :
      (j : Text) → text_eq j key ≡ false → any (same_key j) s'.queue ≡ any (same_key j) s.queue

remove_first-none :
    (key : Text) (items : List QueuedRun)
    → any (same_key key) items ≡ false
    → remove_first key items ≡ items
unfolding remove_first
remove_first-none key [] h = refl
remove_first-none key (x ∷ xs) h = ground (arith, remove_first-none key xs)

any-key :
    (j key : Text) (xs : List QueuedRun)
    → text_eq j key ≡ true
    → any (same_key j) xs ≡ any (same_key key) xs
any-key j key xs h = rw (text_eq_sound j key h)

remove_first-gone :
    (key : Text) (items : List QueuedRun)
    → Unique items
    → any (same_key key) (remove_first key items) ≡ false
unfolding remove_first
remove_first-gone key [] u = refl
remove_first-gone key (x ∷ xs) u = elim (Bool-cases (text_eq x.key key)) [
  | inl e ↦ rw e (sym (any-key x.key key xs e) ∙ u.0)
  | inr e ↦ rw (e, e) (remove_first-gone key xs u.1)
]

remove_first-others :
    (key j : Text) (items : List QueuedRun)
    → text_eq j key ≡ false
    → any (same_key j) (remove_first key items) ≡ any (same_key j) items
unfolding remove_first
remove_first-others key j [] h = refl
remove_first-others key j (x ∷ xs) h = ground (
  arith,
  remove_first-others key j xs,
  text_eq_iff x.key key,
  text_eq_iff x.key j,
  text_eq_iff j key,
)

pub Unique-queue :
    (current : Option QueuedRun) (queue : List QueuedRun)
    → Unique (active_of current queue)
    → Unique queue
Unique-queue none queue u = u
Unique-queue (some item) queue u = u.1

-- In a service whose keys are unique, `dequeue` says whether an entry of that key was queued, and
-- afterwards none is; entries of other keys stay queued, and the keys are still unique. If there
-- was none the service is as it was.
pub dequeue-IsDequeued :
    (key : Text) (s : JobService)
    → Unique (active s)
    → IsDequeued key s (dequeue key s).0 (dequeue key s).1
unfolding dequeue
dequeue-IsDequeued key s u = record {
  found_it = refl;
  unique = active_of-remove key s.current s.queue u;
  gone = remove_first-gone key s.queue (Unique-queue s.current s.queue u);
  untouched = λ e. rw (remove_first-none key s.queue e);
  others = λ j h. remove_first-others key j s.queue h;
}

pub remove_first-empty :
    (key : Text) (items : List QueuedRun)
    → is_empty (remove_first key items) ≡ false
    → is_empty items ≡ false
unfolding remove_first
remove_first-empty key [] h = h
remove_first-empty key (x ∷ xs) h = refl

pub List-cases {ℓ} :
    {A : Type ℓ} (xs : List A) → (xs ≡ []) ⊎ ((a : A) × (rest : List A) × (xs ≡ a ∷ rest))
List-cases [] = inl refl
List-cases (x ∷ xs) = inr (x, xs, refl)

-- The service that has taken the first entry.
abbrev serving : QueuedRun → List QueuedRun → JobService → JobService
serving item rest s = record s { queue = rest; current = some item }

module _ (execute : Executing) where
  -- While an entry is executed others may be put behind the queue, and nothing else happens to it.
  abbrev pub OnlyAppends : Type 0
  OnlyAppends =
      (item : QueuedRun) (s : JobService)
      → (more : List QueuedRun) × ((execute item s).1.queue ≡ s.queue ++ more)

  drain_more :
      (fuel : ℕ) (s : JobService) {item : QueuedRun} {rest : List QueuedRun}
      → s.queue ≡ item ∷ rest
      → let (ending, s') = execute_entry execute item (serving item rest s) in
        drain execute (suc fuel) s
        ≡ ((item, ending) ∷ (drain execute fuel s').0, (drain execute fuel s').1)
  unfolding drain
  drain_more fuel s e = ground arith

  drain-prefix :
      (fuel : ℕ) (first more : List QueuedRun) (s : JobService)
      → OnlyAppends
      → s.queue ≡ first ++ more
      → length first ≤ fuel
      → (later : List QueuedRun) × (map (λ x. x.0) (drain execute fuel s).0 ≡ first ++ later)
  drain-prefix fuel [] more s appends e l = (map (λ x. x.0) (drain execute fuel s).0, refl)
  drain-prefix zero (x ∷ xs) more s appends e l = absurd (omega arith)
  drain-prefix (suc fuel) (item ∷ rest) more s appends e l =
      let (new, q) = appends item (serving item (rest ++ more) s) in
      let (later, h) =
        drain-prefix fuel rest (more ++ new)
          (execute_entry execute item (serving item (rest ++ more) s)).1 appends
          (unfold execute_entry in q ∙ append_assoc rest more new) (omega arith) in
      (later, rw (drain_more fuel s e) (ap (◌∷◌ item) h))

-- With fuel for as many turns as there are entries in the queue, the drain thread executes all of
-- them, in the order in which they were queued and before any that are queued meanwhile, whether
-- the entries before them return or raise; if nobody takes an entry off while others run.
pub drain-executes :
    (execute : Executing) (fuel : ℕ) (s : JobService)
    → OnlyAppends execute
    → length s.queue ≤ fuel
    → (later : List QueuedRun) × (map (λ x. x.0) (drain execute fuel s).0 ≡ s.queue ++ later)
drain-executes execute fuel s appends l =
    drain-prefix execute fuel s.queue [] s appends (sym (append-nil s.queue)) l
