-- ===== src/Jobs/Answer.antt =====
-- How a route's run ends (`run_route` of backend/app/jobs/route_cycle.py).
use joulenap.Prelude.{
  ◌≡◌, ◌≢◌, refl, ◌∙◌, ℕ, Bool, true, false, Option, none, some, List, [], ◌∷◌, Text, codes, inl,
  inr,
}
use joulenap.Config.{RouteKind, backup, external, Route, Config}
use joulenap.Effects.{
  Failure, cycle_cancelled, cycle_abort, localized_error, ok, RunStatus, running, success, failure,
  aborted, World, Env, Action, modify, pure, attempt, ◌>>=◌, Result-cases,
}
use joulenap.Effects.Binds.{>>=-ok, >>=-inv_ok, attempt-ok, attempt-err, pure-inv}
use joulenap.Recorder.{finish, set_error}
use joulenap.Recorder.Steps.{CommitsWork, committing}
use joulenap.Recorder.Closed.{row, finish_lem}
use joulenap.Jobs.Clients.{Clients, DatastoreStatus}
use joulenap.Remote.{new_cycle}
use joulenap.Jobs.Backup.{on_cycle, conclude, backup_body, end_cycle, run_route_backup}
use joulenap.Jobs.Routes.{run_body, simple_body, by_kind, run_route}

-- The row is closed and saved; where nothing is to be notified of, the run was cancelled.
pub record IsAnswer (speaks : Bool) (w : World) : Type 0 where
  pub finished : w.finished ≡ true
  pub ended : w.run.status ≢ running
  pub kept : w.saved ≡ w.run
  pub silent :
      speaks ≡ false
      → (w.run.status ≡ aborted) × (w.run.error ≡ some (localized_error (codes "cancelled")))

-- Where `m` returns, it leaves a world of which `P` holds.
record Ends {ℓ} {A : Type ℓ} (P : World → Type 0) (m : Action A) : Type ℓ where
  at : (w : World) {a : A} {v : World} → m w ≡ (ok a, v) → P v

Ends-bind {ℓ κ} :
    {A : Type ℓ} {B : Type κ} {P : World → Type 0} (m : Action A) (f : A → Action B)
    → ((a : A) → Ends P (f a))
    → Ends P (m >>= f)
Ends-bind m f h = record { at = λ w e. let (a, u, p, q) = >>=-inv_ok m f w e in (h a).at u q }

-- An action has one result.
same_end :
    (m : Action Bool) (u : World) {b c : Bool} {v x : World}
    → m u ≡ (ok b, v)
    → m u ≡ (ok c, x)
    → IsAnswer c x
    → IsAnswer b v
same_end m u {b} {c} {v} {x} p q a = let e : c ≡ b = cc in let d : x ≡ v = cc in rw (e, d) at a

same_world :
    (m : Action (Unit {0})) (u : World) {a : Unit {0}} {v x : World}
    → m u ≡ (ok a, v)
    → m u ≡ (ok tt, x)
    → IsAnswer true x
    → IsAnswer true v
same_world m u {a = r} {v} {x} p q a = let d : x ≡ v = cc in rw d at a

module _ (env : Env) (works : CommitsWork env) where
  IsAnswer-row :
      (status : RunStatus) (e : Option Failure) (b : Bool) (w : World)
      → status ≢ running
      → (b ≡ false → (status ≡ aborted) × (e ≡ some (localized_error (codes "cancelled"))))
      → IsAnswer b (record (committing env works (row env works status e w)) { finished = true })
  unfolding row committing set_error
  IsAnswer-row status none b w n s = record {
    finished = refl;
    ended = n;
    kept = refl;
    silent = λ q. absurd (cc ((s q).1));
  }
  IsAnswer-row status (some e) b w n s = record {
    finished = refl;
    ended = n;
    kept = refl;
    silent = λ q. s q;
  }

  -- A run that ends with this status and answers `b`.
  closing :
      (status : RunStatus) (e : Option Failure) (b : Bool) (w : World)
      → status ≢ running
      → (b ≡ false → (status ≡ aborted) × (e ≡ some (localized_error (codes "cancelled"))))
      → (c : Bool) × (v : World) × ((finish env status e >>= λ _. pure b) w ≡ (ok c, v))
        × IsAnswer c v
  unfolding pure
  closing status e b w n s = (
    b,
    _,
    >>=-ok (finish env status e) (λ _. pure b) w (finish_lem env works status e w),
    IsAnswer-row status e b w n s,
  )

  end_cycle-IsAnswer :
      (far : Clients) (e : Failure) (w : World)
      → (c : Bool) × (v : World) × (end_cycle env far e w ≡ (ok c, v)) × IsAnswer c v
  unfolding end_cycle
  end_cycle-IsAnswer far cycle_cancelled w = closing _ _ _ w (λ p. cc) (λ p. (refl, refl))
  end_cycle-IsAnswer far (cycle_abort key) w = closing _ _ _ w (λ p. cc) (λ p. absurd (cc))
  end_cycle-IsAnswer far _ w = closing _ _ _ w (λ p. cc) (λ p. absurd (cc))

  -- A body that closes the row where it returns, under the `except` clauses.
  envelope :
      (far : Clients) (m : Action Bool) (w : World)
      → ((b : Bool) (v : World) → m w ≡ (ok b, v) → IsAnswer b v)
      → (c : Bool) × (v : World) × (attempt m (end_cycle env far) w ≡ (ok c, v)) × IsAnswer c v
  envelope far m w h = elim (Result-cases (m w)) [
    | inl (b, v, e) ↦ (b, v, attempt-ok m _ w e, h b v e)
    | inr (x, u, e) ↦
        let (c, v, p, a) = end_cycle-IsAnswer far x u in (c, v, attempt-err m _ w e ∙ p, a)
  ]

  run_body-IsAnswer :
      (far : Clients) (patience : ℕ) (body : Action (Option DatastoreStatus)) (w : World)
      → (c : Bool) × (v : World) × (run_body env far patience body w ≡ (ok c, v)) × IsAnswer c v
  unfolding run_body
  run_body-IsAnswer far patience body w = envelope far _ w (λ b v e.
      let (ds, u, p, q) = >>=-inv_ok body (λ _. finish env success none >>= λ _. pure true) w e in
      let (c, x, r, a) = closing success none true u (λ p. cc) (λ p. absurd (cc)) in
      same_end (finish env success none >>= λ _. pure true) u q r a)

  finish-Ends :
      (status : RunStatus) (e : Option Failure)
      → status ≢ running
      → Ends (IsAnswer true) (finish env status e)
  finish-Ends status e n = record {
    at = λ w q.
        same_world (finish env status e) w q (finish_lem env works status e w)
          (IsAnswer-row status e true w n (λ p. absurd (cc)));
  }

  conclude-Ends :
      (far : Clients) (failed : List Text) → Ends (IsAnswer true) (conclude env far failed)
  conclude-Ends far [] = finish-Ends success none (λ p. cc)
  conclude-Ends far (f ∷ fs) = finish-Ends failure _ (λ p. cc)

  backup_body-Ends :
      (far : Clients) (config : Config) (route : Route)
      → Ends (IsAnswer true) (backup_body env far config route)
  unfolding backup_body
  backup_body-Ends far config route = Ends-bind _ _ (λ target. Ends-bind _ _ (λ _.
      Ends-bind _ _ (λ _. Ends-bind _ _ (λ _. Ends-bind _ _ (λ _. Ends-bind _ _ (λ _.
        Ends-bind _ _ (λ _. Ends-bind _ _ (λ _. Ends-bind _ _ (λ ds. Ends-bind _ _ (λ covered.
          Ends-bind _ _ (λ _. Ends-bind _ _ (λ failed. conclude-Ends far failed))))))))))))

  run_route_backup-IsAnswer :
      (far : Clients) (config : Config) (route : Route) (w : World)
      → (c : Bool) × (v : World) × (run_route_backup env far config route w ≡ (ok c, v))
        × IsAnswer c v
  unfolding run_route_backup on_cycle modify
  run_route_backup-IsAnswer far config route w =
      let w' : World = record w { cycle = new_cycle } in
      let (c, v, p, a) =
        envelope far (backup_body env far config route >>= λ _. pure true) w' (λ b v e.
          let (x, u, q, r) = >>=-inv_ok (backup_body env far config route) (λ _. pure true) w' e in
          let (same, there) = pure-inv true u r in
          rw (← same, ← there) ((backup_body-Ends far config route).at w' q)) in
      (
        c,
        v,
        >>=-ok (on_cycle (λ c. new_cycle))
              (λ _.
                attempt (backup_body env far config route >>= λ _. pure true) (end_cycle env far))
              w refl
            ∙ p,
        a,
      )

-- The kinds whose runs wait for nothing but the calls that they make: neither an external watch nor
-- the clean-up of a sync, which turn until the boxes are done.
abbrev pub is_loop_free : RouteKind → Bool
is_loop_free external = false
is_loop_free RouteKind.sync = false
is_loop_free _ = true

-- Where no commit fails, the run of a route that is neither an external watch nor a sync returns,
-- whatever the servers answer, with its row closed and saved; and where it answers that there is
-- nothing to notify of, the row says that the run was aborted because it was cancelled.
pub run_route-IsAnswer :
    (env : Env) (far : Clients) (patience : ℕ) (config : Config) (route : Route) (w : World)
    → CommitsWork env
    → is_loop_free route.kind ≡ true
    → (speaks : Bool) × (v : World) × (run_route env far patience config route w ≡ (ok speaks, v))
      × IsAnswer speaks v
unfolding run_route
run_route-IsAnswer env far patience config route w works h = go route.kind h
  where
    go :
        (kind : RouteKind)
        → is_loop_free kind ≡ true
        → (speaks : Bool) × (v : World) × (by_kind env far patience config route kind w
            ≡ (ok speaks, v))
          × IsAnswer speaks v
    go backup h = run_route_backup-IsAnswer env works far config route w
    go external h = absurd (cc)
    go RouteKind.sync h = absurd (cc)
    go _ h = run_body-IsAnswer env works far patience (simple_body env far patience config route) w
