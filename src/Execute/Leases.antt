-- ===== src/Execute/Leases.antt =====
-- The leases that `_release_all` of backend/app/jobs/service.py drops.
use joulenap.Prelude.{
  ◌-◌, ◌≤◌, ◌≡◌, sym, inl, inr, Bool, true, List, [], ◌∷◌, Text, text_eq, text_eq_refl,
  text_eq_sound, subst, Bool-cases, arith,
}
use joulenap.Config.{PbsDevice}
use joulenap.Effects.{ok, World, Env, Action, pure, ◌>>◌}
use joulenap.Effects.Binds.{>>=-inv_ok, pure-inv, gets-inv}
use joulenap.Effects.Keeps.{Keeps, Keeps-moves, Keeps-bind, Keeps-pure, Keeps-gets}
use joulenap.Lease.{lease_key, ReleaseOutcome, costs_power, release}
use joulenap.Lease.Table.{holders_of}
use joulenap.Lease.Release.{release-IsRelease}
use joulenap.Service.{QueuedRun}
use joulenap.Recorder.Frame.{Keeps-in_step}
use joulenap.Recorder.Steps.{in_step-inv_ok}
use joulenap.Execute.{record_outcome, release_step, release_each, release_recorded, ask_policy}
use joulenap.Execute.Frame.{
  Fewer, Fewer-frame, Fewer-run, owns, Bound, AllFree, Bound-Fewer, release-Fewer,
  Keeps-record_outcome, Keeps-ask_policy,
}

pub free_of_Bound :
    (k : Text) (w v : World)
    → Bound w
    → Fewer w v
    → (owns k w.held ≡ true → holders_of k v.machines ≤ holders_of k w.machines - 1)
    → holders_of k v.machines ≡ 0
free_of_Bound k w v b f h = elim (Bool-cases (owns k w.held)) [
  | inl e ↦ omega (arith, h e, (let q : holders_of k w.machines ≤ 1 = rw e at (b k) in q))
  | inr e ↦ omega (arith, f.counts k, (let q : holders_of k w.machines ≤ 0 = rw e at (b k) in q))
]

module _ (env : Env) (item : QueuedRun) where
  record_body : Bool → PbsDevice → ReleaseOutcome → Action Bool
  record_body wanted d o = do record_outcome env item wanted d o; pure (costs_power o)

  Keeps-record_body :
      (wanted : Bool) (d : PbsDevice) (o : ReleaseOutcome) → Keeps Fewer (record_body wanted d o)
  unfolding record_body
  Keeps-record_body wanted d o =
      Keeps-bind Fewer-frame.order _ _ (Keeps-record_outcome env Fewer-run item wanted d o)
        (λ _. Keeps-pure Fewer-frame.order _)

  Keeps-release_step :
      (wanted multi : Bool) (d : PbsDevice) → Keeps Fewer (release_step env item wanted multi d)
  unfolding release_step record_body
  Keeps-release_step wanted multi d = Keeps-in_step env Fewer-frame _ _ _ (
      Keeps-bind Fewer-frame.order _ _ (release-Fewer env d wanted)
        (λ o. Keeps-record_body wanted d o))

  -- A step that went through dropped one hold of its machine.
  release_step-drops :
      (wanted multi : Bool) (d : PbsDevice) (w : World) {c : Bool} {v : World}
      → release_step env item wanted multi d w ≡ (ok c, v)
      → holders_of (lease_key d) v.machines ≤ holders_of (lease_key d) w.machines - 1
  unfolding release_step record_body
  release_step-drops wanted multi d w h =
      let (w', v', before, ran, after) = in_step-inv_ok env Fewer-frame _ _ _ w h in
      let (o, u, released, rest) =
        >>=-inv_ok (release env d wanted) (record_body wanted d) w' ran in
      let dropped = rw released at ((release-IsRelease env d wanted w').counted (lease_key d)) in
      let later = Keeps-moves (record_body wanted d o) u (Keeps-record_body wanted d o) rest in
      omega (
        arith,
        before.counts (lease_key d),
        rw (text_eq_refl (lease_key d)) at dropped,
        later.counts (lease_key d),
        after.counts (lease_key d),
      )

  Keeps-release_each :
      (wanted multi : Bool) (ds : List PbsDevice)
      → Keeps Fewer (release_each env item wanted multi ds)
  unfolding release_each
  Keeps-release_each wanted multi [] = Keeps-pure Fewer-frame.order _
  Keeps-release_each wanted multi (d ∷ rest) =
      Keeps-bind Fewer-frame.order _ _ (Keeps-release_step wanted multi d) (λ c.
        Keeps-bind Fewer-frame.order _ _ (Keeps-release_each wanted multi rest)
          (λ l. Keeps-pure Fewer-frame.order _))

  -- All steps went through, so each machine lost a hold.
  release_each-frees :
      (wanted multi : Bool) (ds : List PbsDevice) (w : World) {left : List Text} {v : World}
      → release_each env item wanted multi ds w ≡ (ok left, v)
      → (k : Text) → owns k ds ≡ true
      → holders_of k v.machines ≤ holders_of k w.machines - 1
  unfolding release_each
  release_each-frees wanted multi [] w h k o = absurd (cc)
  release_each-frees wanted multi (d ∷ rest) w {v = v} h k o =
      let (c, u, first, more) = >>=-inv_ok (release_step env item wanted multi d) _ w h in
      let (l, u', second, last) = >>=-inv_ok (release_each env item wanted multi rest) _ u more in
      let same : u' ≡ v = (pure-inv _ u' last).1 in
      let dropped = release_step-drops wanted multi d w first in
      let step =
        Keeps-moves (release_step env item wanted multi d) w (Keeps-release_step wanted multi d)
          first in
      let later =
        Keeps-moves (release_each env item wanted multi rest) u
          (Keeps-release_each wanted multi rest) second in
      rw (← same) (elim (Bool-cases (text_eq (lease_key d) k)) [
        | inl e ↦
            subst (λ j. holders_of j u'.machines ≤ holders_of j w.machines - 1)
              (text_eq_sound (lease_key d) k e) (omega (arith, dropped, later.counts (lease_key d)))
        | inr e ↦
            omega
              (arith, release_each-frees wanted multi rest u second k (ground arith), step.counts k)
      ])

  pub Keeps-release_recorded : (multi : Bool) → Keeps Fewer (release_recorded env item multi)
  unfolding release_recorded
  Keeps-release_recorded multi =
      Keeps-bind Fewer-frame.order _ _ (Keeps-gets Fewer-frame.order _) (λ s.
        Keeps-bind Fewer-frame.order _ _ (Keeps-ask_policy env Fewer-run item s) (λ wanted.
          Keeps-bind Fewer-frame.order _ _ (Keeps-gets Fewer-frame.order _)
            (λ held. Keeps-release_each wanted multi held)))

  -- If the recorded releases all went through, nothing is held any more.
  pub release_recorded-frees :
      (multi : Bool) (w : World) {left : List Text} {v : World}
      → Bound w
      → release_recorded env item multi w ≡ (ok left, v)
      → AllFree v
  unfolding release_recorded
  release_recorded-frees multi w {left} {v} b h k =
      let (s, w1, read, h1) = >>=-inv_ok _ _ w h in
      let (wanted, w2, asked, h2) = >>=-inv_ok (ask_policy env item s) _ w1 h1 in
      let (held, w3, read', h3) = >>=-inv_ok _ _ w2 h2 in
      let at_start : w ≡ w1 = (gets-inv _ w read).1 in
      let listed : w2.held ≡ held = (gets-inv _ w2 read').0 in
      let here : w2 ≡ w3 = (gets-inv _ w2 read').1 in
      let b2 : Bound w2 =
        Bound-Fewer
          (Keeps-moves (ask_policy env item s) w1 (Keeps-ask_policy env Fewer-run item s) asked)
          (rw at_start at b) in
      let ran : release_each env item wanted multi held w2 ≡ (ok left, v) =
        subst (λ x. release_each env item wanted multi held x ≡ (ok left, v)) (sym here) h3 in
      free_of_Bound k w2 v b2
        (Keeps-moves (release_each env item wanted multi held) w2
          (Keeps-release_each wanted multi held) ran)
        (λ o. release_each-frees wanted multi held w2 ran k (rw listed at o))
