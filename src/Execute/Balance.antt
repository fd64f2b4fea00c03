-- ===== src/Execute/Balance.antt =====
-- The leases of `_execute` (backend/app/jobs/service.py) while the boxes come up, and after a crash.
use joulenap.Prelude.{
  suc, ◌-◌, ◌≤◌, ◌≡◌, refl, ◌∙◌, ap, inl, inr, Bool, true, false, not, codes, List, [], ◌∷◌, ◌++◌,
  Text, any, any-append, All, text_eq, text_eq_iff, text_eq_sound, subst, Bool-cases, if◌then◌else◌,
  arith,
}
use joulenap.Config.{PbsDevice}
use joulenap.Effects.{
  Failure, Result, ok, err, Event, World, Env, Action, pure, gets, ◌>>=◌, Result-cases,
  ask_cancelled,
}
use joulenap.Effects.Binds.{
  >>=-ok, >>=-err, >>=-inv_ok, >>=-inv_err, Returns, Returns-bind, Returns-pure, Returns-if,
  Returns-call, Returns-ne-err,
}
use joulenap.Effects.Keeps.{Keeps, Keeps-moves, Keeps-bind, Keeps-pure}
use joulenap.Lease.{lease_key, ReleaseOutcome, acquire, release}
use joulenap.Lease.Table.{holders_of}
use joulenap.Lease.Acquire.{acquire-IsAcquire}
use joulenap.Lease.Release.{release-IsRelease}
use joulenap.Lease.Frame.{Keeps-acquire}
use joulenap.Service.{QueuedRun}
use joulenap.Service.Machines.{Distinct}
use joulenap.Recorder.{set_detail}
use joulenap.Recorder.Frame.{Keeps-set_detail}
use joulenap.Recorder.Steps.{CommitsWork, in_step-inv_ok, in_step-inv_err}
use joulenap.Execute.{
  release_bare, release_crashed, acquire_step, acquire_all, add_held, ask_policy,
  ask_cancel_power_off,
}
use joulenap.Execute.Frame.{
  SameHeld-lease, SameLease, SameLease-frame, Fewer, Fewer-frame, Fewer-run, owns, Bound, AllFree,
  Bound-Fewer, Bound-Same, release-Fewer, Keeps-ask_policy,
}
use joulenap.Execute.Leases.{free_of_Bound}

Returns-set_detail : (key : Text) → Returns (set_detail key)
unfolding set_detail
Returns-set_detail key = record { at = λ w. (tt, _, refl) }

add_held_lem :
    (d : PbsDevice) (w : World) → add_held d w ≡ (ok tt, record w { held = w.held ++ d ∷ [] })
unfolding add_held
add_held_lem d w = refl

module _ (env : Env) where
  Returns-release : (d : PbsDevice) (wanted : Bool) → Returns (release env d wanted)
  Returns-release d wanted = record {
    at = λ w. elim (Result-cases (release env d wanted w)) [
      | inl r ↦ r
      | inr (e, v, h) ↦ absurd (
          (release-IsRelease env d wanted w).returns e
            (ap (λ (q : Result ReleaseOutcome × World). q.0) h))
    ];
  }

  Keeps-release_bare :
      (wanted : Bool) (ds : List PbsDevice) → Keeps Fewer (release_bare env wanted ds)
  unfolding release_bare
  Keeps-release_bare wanted [] = Keeps-pure Fewer-frame.order _
  Keeps-release_bare wanted (d ∷ rest) =
      Keeps-bind Fewer-frame.order _ _ (release-Fewer env d wanted)
        (λ o. Keeps-release_bare wanted rest)

  release_bare-frees :
      (wanted : Bool) (ds : List PbsDevice) (w : World) (k : Text)
      → owns k ds ≡ true
      → holders_of k (release_bare env wanted ds w).1.machines ≤ holders_of k w.machines - 1
  unfolding release_bare
  release_bare-frees wanted [] w k o = absurd (cc)
  release_bare-frees wanted (d ∷ rest) w k o =
      let (x, u, h) = (Returns-release d wanted).at w in
      let dropped = rw h at ((release-IsRelease env d wanted w).counted k) in
      let later = (Keeps-release_bare wanted rest).at u in
      rw (>>=-ok (release env d wanted) (λ _. release_bare env wanted rest) w h)
        (elim (Bool-cases (text_eq (lease_key d) k)) [
          | inl e ↦ omega (
            arith,
            later.counts k,
            rw e at dropped,
            ap (λ j. holders_of j w.machines) (text_eq_sound (lease_key d) k e),
          )
          | inr e ↦
              omega (arith, release_bare-frees wanted rest u k (ground arith), rw e at dropped)
        ])

  Returns-ask_policy : (item : QueuedRun) (s : Bool) → Returns (ask_policy env item s)
  unfolding ask_policy ask_cancelled ask_cancel_power_off
  Returns-ask_policy item s = Returns-if (not item.power_off) _ _ (Returns-pure _) (
      Returns-bind _ _ (Returns-call Event.cancel_read _ (λ t. (env.cancelled t, refl))) (λ c.
        Returns-bind _ _
          (Returns-if c _ _
            (Returns-call Event.cancel_power_off_read _ (λ t. (env.cancel_power_off t, refl)))
            (Returns-pure _))
          (λ off. Returns-pure _)))

  pub release_crashed-frees :
      (item : QueuedRun) (w : World) → Bound w → AllFree (release_crashed env item w).1
  unfolding release_crashed gets
  release_crashed-frees item w b k =
      let (wanted, u, asked) = (Returns-ask_policy item false).at w in
      let moved =
        Keeps-moves (ask_policy env item false) w (Keeps-ask_policy env Fewer-run item false)
          asked in
      let all = Bound-Fewer moved b in
      rw (>>=-ok (ask_policy env item false) _ w asked) (
        rw (>>=-ok (gets (λ v. v.held)) (release_bare env wanted) u refl) (
          free_of_Bound k u (release_bare env wanted u.held u).1 all
            ((Keeps-release_bare wanted u.held).at u)
            (λ o. release_bare-frees wanted u.held u k o)))

  -- The count after a wait step, whether it took the lease or not.
  acquire_body : PbsDevice → Action (Unit {0})
  acquire_body d = do
    was_awake ← acquire env d
    set_detail (if was_awake then codes "already_awake" else codes "woken")

  acquire_step-ok :
      (multi : Bool) (d : PbsDevice) (w v : World)
      → acquire_step env multi d w ≡ (ok tt, v)
      → (v.held ≡ w.held)
        × ((k : Text)
            → holders_of k v.machines ≡ (
                if text_eq (lease_key d) k
                then suc (holders_of k w.machines)
                else holders_of k w.machines))
  unfolding acquire_step
  acquire_step-ok multi d w v h =
      let (w', v', before, ran, after) = in_step-inv_ok env SameLease-frame _ _ _ w h in
      let (a, u, took, rest) = >>=-inv_ok (acquire env d) _ w' ran in
      let named = Keeps-moves _ u (Keeps-set_detail env SameLease-frame _) rest in
      let held = Keeps-moves (acquire env d) w' (Keeps-acquire env SameHeld-lease d) took in
      let counted =
        rw took at
          ((acquire-IsAcquire env d w').counted a (ap (λ (q : Result Bool × World). q.0) took)) in
      (
        after.held ∙ (named.held ∙ (held ∙ before.held)),
        λ k. rw (after.machines, named.machines, ← before.machines) (counted k),
      )

  acquire_step-err :
      CommitsWork env
      → (multi : Bool) (d : PbsDevice) (w : World) {e : Failure} {v : World}
      → acquire_step env multi d w ≡ (err e, v)
      → SameLease w v
  unfolding acquire_step
  acquire_step-err works multi d w h =
      let (w', v', y, before, ran, after) = in_step-inv_err env works SameLease-frame _ _ _ w h in
      elim (>>=-inv_err (acquire env d) _ w' ran) [
        | inl refused ↦
            let kept : v'.machines ≡ w'.machines = rw refused at (
              (acquire-IsAcquire env d w').refused y
                (ap (λ (q : Result Bool × World). q.0) refused)) in
            let held =
              Keeps-moves (acquire env d) w' (Keeps-acquire env SameHeld-lease d) refused in
            record {
              machines = after.machines ∙ (kept ∙ before.machines);
              held = after.held ∙ (held ∙ before.held);
            }
        | inr (a, u, took, rest) ↦ absurd (Returns-ne-err _ u (Returns-set_detail _) rest)
      ]

  -- The devices still to be taken are no machine that the run holds.
  abbrev pub Fresh : List PbsDevice → World → Type 0
  Fresh ds w = All (λ d. owns (lease_key d) w.held ≡ false) ds

  abbrev taking : PbsDevice → World → World
  taking d w = record w { held = w.held ++ d ∷ [] }

  taking-Bound :
      (d : PbsDevice) (w v : World)
      → Bound w
      → owns (lease_key d) w.held ≡ false
      → v.held ≡ w.held
      → ((k : Text)
          → holders_of k v.machines ≡ (
              if text_eq (lease_key d) k
              then suc (holders_of k w.machines)
              else holders_of k w.machines))
      → Bound (taking d v)
  taking-Bound d w v b fresh held counted k =
      rw (any-append (λ (e : PbsDevice). text_eq (lease_key e) k) v.held (d ∷ []), held, counted k)
        (elim (Bool-cases (text_eq (lease_key d) k)) [
          | inl e ↦
              let none_yet : owns k w.held ≡ false =
                subst (λ j. owns j w.held ≡ false) (text_eq_sound (lease_key d) k e) fresh in
              let bound : holders_of k w.machines ≤ 0 = rw none_yet at (b k) in
              rw (e, none_yet) (omega (arith, bound))
          | inr e ↦ rw e (elim (Bool-cases (owns k w.held)) [
            | inl o ↦ let q : holders_of k w.machines ≤ 1 = rw o at (b k) in rw o q
            | inr o ↦ let q : holders_of k w.machines ≤ 0 = rw o at (b k) in rw o q
          ])
        ])

  taking-Fresh :
      (d : PbsDevice) (rest : List PbsDevice) (w v : World)
      → Fresh rest w
      → any (λ (e : PbsDevice). text_eq (lease_key e) (lease_key d)) rest ≡ false
      → v.held ≡ w.held
      → Fresh rest (taking d v)
  taking-Fresh d [] w v f n held = tt
  taking-Fresh d (e ∷ rest) w v f n held = (
    rw
        (
          any-append (λ (x : PbsDevice). text_eq (lease_key x) (lease_key e)) v.held (d ∷ []),
          held,
          f.0,
        )
        (ground (
          arith,
          text_eq_iff (lease_key d) (lease_key e),
          text_eq_iff (lease_key e) (lease_key d),
        )),
    taking-Fresh d rest w v f.1 (ground arith) held,
  )

  pub acquire_all-Bound :
      CommitsWork env
      → (multi : Bool) (ds : List PbsDevice) (w : World) → Bound w
      → Fresh ds w
      → Distinct ds
      → Bound (acquire_all env multi ds w).1
  unfolding acquire_all pure
  acquire_all-Bound works multi [] w b f x = b
  acquire_all-Bound works multi (d ∷ rest) w b f x =
      elim (Result-cases (acquire_step env multi d w)) [
        | inr (e, v, h) ↦
            rw (>>=-err (acquire_step env multi d) _ w h)
              (Bound-Same (acquire_step-err works multi d w h) b)
        | inl (t, v, h) ↦
            let (held, counted) = acquire_step-ok multi d w v h in
            rw (>>=-ok (acquire_step env multi d) _ w h) (
              rw (>>=-ok (add_held d) (λ _. acquire_all env multi rest) v (add_held_lem d v)) (
                acquire_all-Bound works multi rest (taking d v)
                  (taking-Bound d w v b f.0 held counted) (taking-Fresh d rest w v f.1 x.0 held)
                  x.1))
      ]
