-- ===== src/Jobs/Blames/Sources.antt =====
-- The sources of a backup route, part by part, are cancelled by the user only
-- (backend/app/jobs/backup_cycle.py).
use joulenap.Prelude.{
  ◌≡◌, refl, subst, false, Option, none, some, List, [], ◌∷◌, Text, codes, Dict, ℕ, Bool-cases, inl,
  inr, if◌then◌else◌, lookup,
}
use joulenap.Config.{PveDevice, RouteSource, Route, Config, find_pve}
use joulenap.Effects.{
  Failure, is_cancelled, cycle_abort, ok, StepName, backup_step, World, Env, Action, pure, raise,
  gets, ◌>>◌, error, warn,
}
use joulenap.Effects.Binds.{Returns, Returns-gets, >>=-inv_ok, pure-inv}
use joulenap.Effects.Keeps.{Keeps-gets, Keeps-bind, Keeps-raise}
use joulenap.Effects.Adds.{Adds-preorder}
use joulenap.Effects.Blames.{
  Blames, Any, Blames-pure, Blames-Returns, Blames-raise, Blames-call, Blames-if, Blames-attempt,
  Blames-bind, Blames-then,
}
use joulenap.Remote.{Cycle}
use joulenap.Recorder.{log, set_detail, end_step, in_step}
use joulenap.Recorder.Frame.{Keeps-begin_step, Keeps-step_failed, Keeps-step_done}
use joulenap.Recorder.Steps.{
  CommitsWork, Returns-log, Returns-modify, Returns-update_step, Returns-begin_step,
  Returns-step_failed, Returns-step_done,
}
use joulenap.Jobs.Clients.{Guest, VzdumpRequest, Clients, ask}
use joulenap.Jobs.Steps.{required}
use joulenap.Jobs.Backup.{
  on_cycle, guest_watcher, await_vzdump, run_vzdump, count_node, backup_node, backup_nodes,
  raise_first, request, or_first, storage_for, backup_source, source_step, source_failed,
  try_source, backup_sources,
}
use joulenap.Jobs.Frame.{Keeps-on_cycle, Keeps-detail, Keeps-logged}
use joulenap.Jobs.Frame.Steps.{step_rules}
use joulenap.Jobs.Frame.Backup.{
  Keeps-guest_watcher, Keeps-source_failed, Keeps-backup_nodes, Keeps-count_node,
}
use joulenap.Jobs.Blames.{AreHonest, Grown-job, Blames-stop_if_cancelled, Blames-wait_or_stop}

-- A failure that was kept for later is none of a cancelled run.
abbrev IsOther : Option Failure → Type 0
IsOther none = Unit
IsOther (some e) = is_cancelled e ≡ false

module _ (env : Env) (far : Clients) (works : CommitsWork env) (honest : AreHonest env far) where
  Blames-on_cycle : (f : Cycle → Cycle) → Blames env (Any env) (on_cycle f)
  unfolding on_cycle
  Blames-on_cycle f = Blames-Returns env _ (Returns-modify env works _) (Keeps-on_cycle Grown-job f)

  Blames-log : (l : _) → Blames env (Any env) (log env l)
  Blames-log l = Blames-Returns env _ (Returns-log env works l) (Keeps-logged env Grown-job l)

  Blames-detail : (key : Text) → Blames env (Any env) (set_detail key)
  unfolding set_detail
  Blames-detail key =
      Blames-Returns env _ (Returns-update_step env works _) (Keeps-detail Grown-job key)

  Blames-gets {ℓ} : {A : Type ℓ} (f : World → A) → Blames env (Any env) (gets f)
  Blames-gets f = Blames-Returns env _ (Returns-gets f) (Keeps-gets (Adds-preorder _) f)

  Returns-guest_watcher :
      (guests : List Guest) (lines : List (ℕ × Text)) → Returns (guest_watcher guests lines)
  unfolding guest_watcher on_cycle
  Returns-guest_watcher guests lines = Returns-modify env works _

  Blames-await_vzdump :
      (upid : Text) (guests : List Guest) (before : ℕ)
      → Blames env (Any env) (await_vzdump env far upid guests before)
  unfolding await_vzdump
  Blames-await_vzdump upid guests before =
      Blames-attempt env (Any env) _ _
        (Blames-wait_or_stop env far works honest upid (guest_watcher guests)
          (Returns-guest_watcher guests) (Keeps-guest_watcher env far Grown-job guests))
        (λ e. search (step_rules, Grown-job) depth 14) (λ e w a v h. tt)
        (λ e n.
          (Blames-then env (Any env) _ _ (Blames-gets _) (λ failed.
            Blames-if env (Any env) _ _ _ (λ _. Blames-raise env (Any env) e n)
              (λ _. Blames-log warn))).raises)

  Blames-run_vzdump :
      (pve : PveDevice) (asked : VzdumpRequest) (guests : List Guest) (before : ℕ)
      → Blames env (Any env) (run_vzdump env far pve asked guests before)
  unfolding run_vzdump ask
  Blames-run_vzdump pve asked guests before =
      Blames-then env (Any env) _ _ (Blames-call env _ _ (honest.vzdump pve asked)) (λ upid.
        Blames-then env (Any env) _ _ (Blames-on_cycle _) (λ _.
          Blames-then env (Any env) _ _ (Blames-gets _) (λ upids.
            Blames-then env (Any env) _ _ (Blames-detail _)
              (λ _. Blames-await_vzdump upid guests before))))

  Blames-count_node :
      (pve : Text) (vmids : List ℕ) (done : ℕ) (o : Option Failure)
      → IsOther o
      → Blames env IsOther (count_node env far pve vmids done o)
  unfolding count_node
  Blames-count_node pve vmids done none h =
      Blames-then env IsOther _ _ (Blames-on_cycle _) (λ _. Blames-pure env none tt)
  Blames-count_node pve vmids done (some e) h = Blames-pure env (some e) h

  keep_failure : Failure → Action (Option Failure)
  keep_failure e = if is_cancelled e then raise e else (do log env error; pure (some e))

  keep_failure-IsOther :
      (e : Failure) (w : World) (a : Option Failure) (v : World)
      → keep_failure e w ≡ (ok a, v)
      → IsOther a
  unfolding keep_failure raise
  keep_failure-IsOther e w a v h = elim (Bool-cases (is_cancelled e)) [
    | inl c ↦ absurd (cc (rw c at h))
    | inr c ↦
        let (x, u, p, q) = >>=-inv_ok (log env error) (λ _. pure (some e)) w (rw c at h) in
        subst IsOther (pure-inv (some e) u q).0 c
  ]

  Blames-backup_node :
      (pve : PveDevice) (asked : VzdumpRequest) (guests : List Guest) (vmids : List ℕ)
      → Blames env IsOther (backup_node env far pve asked guests vmids)
  unfolding backup_node keep_failure
  Blames-backup_node pve asked guests vmids =
      Blames-then env IsOther _ _ (Blames-stop_if_cancelled env far works honest) (λ _.
        Blames-then env IsOther _ _ (Blames-on_cycle _) (λ _.
          Blames-then env IsOther _ _ (Blames-gets _) (λ before.
            Blames-bind env IsOther IsOther _ _
              (Blames-attempt env IsOther _ keep_failure
                (Blames-then env IsOther _ _ (Blames-run_vzdump pve asked guests _)
                  (λ _. Blames-pure env none tt))
                (λ e. search (step_rules, Grown-job) depth 14) keep_failure-IsOther
                (λ e n.
                  (Blames-if env IsOther (is_cancelled e) _ _ (λ c. Blames-raise env IsOther e n)
                    (λ _.
                      Blames-then env IsOther _ _ (Blames-log error)
                        (λ _. Blames-pure env (some e) n))).raises))
              (λ failed. Keeps-count_node env far Grown-job pve.id vmids _ failed)
              (λ failed h. Blames-count_node pve.id vmids _ failed h))))

  Blames-raise_first : (o : Option Failure) → IsOther o → Blames env (Any env) (raise_first o)
  Blames-raise_first none h = Blames-pure env tt tt
  Blames-raise_first (some e) h = Blames-raise env (Any env) e h

  or_first-IsOther : (a b : Option Failure) → IsOther a → IsOther b → IsOther (or_first a b)
  or_first-IsOther none b x y = y
  or_first-IsOther (some e) b x y = x

  Blames-backup_nodes :
      (route : Route) (source : RouteSource) (pve : PveDevice) (storage : Text)
      (guests : List Guest) (first : Option Failure) (nodes : Dict (List ℕ))
      → IsOther first
      → Blames env (Any env) (backup_nodes env far route source pve storage guests first nodes)
  unfolding backup_nodes
  Blames-backup_nodes route source pve storage guests first [] h = Blames-raise_first first h
  Blames-backup_nodes route source pve storage guests first ((node, vmids) ∷ rest) h =
      Blames-bind env IsOther (Any env) _ _
        (Blames-backup_node pve (request route source storage node vmids) guests vmids)
        (λ failed.
          Keeps-backup_nodes env far Grown-job route source pve storage guests
            (or_first first failed) rest)
        (λ failed o.
          Blames-backup_nodes route source pve storage guests (or_first first failed) rest
            (or_first-IsOther first failed h o))

  Blames-required {ℓ} :
      {A : Type ℓ} (key : Text) (o : Option A) → Blames env (Any env) (required key o)
  Blames-required key none = Blames-raise env (Any env) (cycle_abort key) refl
  Blames-required key (some a) = Blames-pure env a tt

  Blames-storage_for :
      (key : Text) (o : Option Text) → Blames env (Any env) (storage_for env far key o)
  Blames-storage_for key none = Blames-raise env (Any env) (cycle_abort key) refl
  Blames-storage_for key (some []) = Blames-raise env (Any env) (cycle_abort key) refl
  Blames-storage_for key (some (c ∷ storage)) = Blames-pure env (c ∷ storage) tt

  Blames-backup_source :
      (config : Config) (route : Route) (source : RouteSource)
      → Blames env (Any env) (backup_source env far config route source)
  unfolding backup_source ask
  Blames-backup_source config route source =
      Blames-then env (Any env) _ _ (Blames-required _ (find_pve source.pve config.pves)) (λ pve.
        Blames-then env (Any env) _ _ (Blames-storage_for _ (lookup route.target pve.storages))
          (λ storage. Blames-then env (Any env) _ _ (Blames-on_cycle _) (λ _.
            Blames-then env (Any env) _ _ (Blames-call env _ _ (honest.connect pve.id)) (λ _.
              Blames-then env (Any env) _ _ (Blames-call env _ _ (honest.list_guests pve))
                (λ guests.
                  Blames-then env (Any env) _ _
                    (Blames-if env (Any env) _ _ _ (λ _. Blames-log warn)
                      (λ _. Blames-pure env tt tt))
                    (λ _.
                      Blames-then env (Any env) _ _
                        (Blames-if env (Any env) _ _ _
                          (λ _. Blames-raise env (Any env) (cycle_abort (codes "no_guests")) refl)
                          (λ _. Blames-pure env tt tt))
                        (λ _. Blames-backup_nodes route source pve storage guests none _ tt)))))))

  Blames-in_step :
      (name : StepName) (label : Option Text) (body : Action (Unit {0}))
      → Blames env (Any env) body
      → Blames env (Any env) (in_step env name label body)
  unfolding in_step end_step
  Blames-in_step name label body b =
      Blames-then env (Any env) _ _
        (Blames-Returns env _ (Returns-begin_step env works name label)
          (Keeps-begin_step env Grown-job.run.frame name label))
        (λ _.
          Blames-then env (Any env) _ _
            (Blames-attempt env (Any env) _ _ b
              (λ e.
                Keeps-bind (Adds-preorder _) _ _ (Keeps-step_failed env Grown-job.run.frame e)
                  (λ _. Keeps-raise (Adds-preorder _) e))
              (λ e w a v h. tt)
              (λ e n.
                (Blames-then env (Any env) _ _
                  (Blames-Returns env _ (Returns-step_failed env works e)
                    (Keeps-step_failed env Grown-job.run.frame e))
                  (λ _. Blames-raise env (Any env) e n)).raises))
            (λ a.
              Blames-then env (Any env) _ _
                (Blames-Returns env _ (Returns-step_done env works)
                  (Keeps-step_done env Grown-job.run.frame))
                (λ _. Blames-pure env a tt)))

  Blames-source_step :
      (config : Config) (route : Route) (source : RouteSource)
      → Blames env (Any env) (source_step env far config route source)
  unfolding source_step
  Blames-source_step config route source =
      Blames-then env (Any env) _ _ (Blames-on_cycle _)
        (λ _. Blames-in_step backup_step _ _ (Blames-backup_source config route source))

  Blames-source_failed :
      (source : RouteSource) (e : Failure)
      → is_cancelled e ≡ false
      → Blames env (Any env) (source_failed env far source e)
  unfolding source_failed
  Blames-source_failed source e n =
      Blames-if env (Any env) (is_cancelled e) _ _ (λ _. Blames-raise env (Any env) e n)
        (λ _. Blames-then env (Any env) _ _ (Blames-on_cycle _) (λ _. Blames-log error))

  Blames-try_source :
      (config : Config) (route : Route) (source : RouteSource)
      → Blames env (Any env) (try_source env far config route source)
  unfolding try_source
  Blames-try_source config route source =
      Blames-then env (Any env) _ _ (Blames-stop_if_cancelled env far works honest) (λ _.
        Blames-attempt env (Any env) _ _ (Blames-source_step config route source)
          (Keeps-source_failed env far Grown-job source) (λ e w a v h. tt)
          (λ e n. (Blames-source_failed source e n).raises))

  pub Blames-backup_sources :
      (config : Config) (route : Route) (sources : List RouteSource)
      → Blames env (Any env) (backup_sources env far config route sources)
  unfolding backup_sources
  Blames-backup_sources config route [] = Blames-pure env tt tt
  Blames-backup_sources config route (source ∷ rest) =
      Blames-then env (Any env) _ _ (Blames-try_source config route source)
        (λ _. Blames-backup_sources config route rest)
