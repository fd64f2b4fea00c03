-- ===== src/Effects/Keeps.antt =====
-- Relations between the worlds before and after an action, one rule for each way to build one.
use joulenap.Prelude.{Bool, true, false, ◌≡◌, refl, ◌∙◌, if◌then◌else◌, ◌∷◌}
use joulenap.Effects.{
  Failure, Result, ok, err, Event, Trace, World, Action, pure, raise, call, gets, modify, attempt,
  ensure, caught, continue, ◌>>=◌,
}

pub record IsPreorder (R : World → World → Type 0) : Type 0 where
  pub same : (w : World) → R w w
  pub chain : (u v w : World) → R u v → R v w → R u w

-- `m` relates the world it starts from to the one it leaves, whether it returns or raises.
pub record Keeps {ℓ} {A : Type ℓ} (R : World → World → Type 0) (m : Action A) : Type ℓ where
  pub at : (w : World) → R w (m w).1

module _ {ℓ} {A : Type ℓ} {R : World → World → Type 0} (o : IsPreorder R) where
  pub Keeps-pure : (a : A) → Keeps R (pure a)
  unfolding pure
  Keeps-pure a = record { at = λ w. o.same w }

  pub Keeps-raise : (e : Failure) → Keeps R (raise {A = A} e)
  unfolding raise
  Keeps-raise e = record { at = λ w. o.same w }

  pub Keeps-gets : (f : World → A) → Keeps R (gets f)
  unfolding gets
  Keeps-gets f = record { at = λ w. o.same w }

  pub Keeps-attempt :
      (m : Action A) (handler : Failure → Action A)
      → Keeps R m
      → ((e : Failure) → Keeps R (handler e))
      → Keeps R (attempt m handler)
  unfolding attempt
  Keeps-attempt m handler km kh = record { at = λ w. go w (m w).0 (m w).1 (km.at w) }
    where
      go : (w : World) (r : Result A) (v : World) → R w v → R w (caught r handler v).1
      go w (ok a) v h = h
      go w (err e) v h = o.chain w v (handler e v).1 h ((kh e).at v)

  pub Keeps-ensure :
      (m : Action A) (cleanup : Action (Unit {0}))
      → Keeps R m
      → Keeps R cleanup
      → Keeps R (ensure m cleanup)
  unfolding ensure
  Keeps-ensure m cleanup km kc = record {
    at = λ w. o.chain w (m w).1 (cleanup (m w).1).1 (km.at w) (kc.at (m w).1);
  }

module _ {ℓ} {A : Type ℓ} {R : World → World → Type 0} where
  pub Keeps-call :
      (e : Event) (answer : Trace → Result A)
      → ((w : World) → R w (record w { trace = e ∷ w.trace }))
      → Keeps R (call e answer)
  unfolding call
  Keeps-call e answer h = record { at = h }

  pub Keeps-if : (b : Bool) (m n : Action A) → Keeps R m → Keeps R n → Keeps R (if b then m else n)
  Keeps-if true m n km kn = km
  Keeps-if false m n km kn = kn

module _ {ℓ κ} {A : Type ℓ} {B : Type κ} {R : World → World → Type 0} (o : IsPreorder R) where
  pub Keeps-bind :
      (m : Action A) (f : A → Action B) → Keeps R m → ((a : A) → Keeps R (f a)) → Keeps R (m >>= f)
  unfolding ◌>>=◌
  Keeps-bind m f km kf = record { at = λ w. go w (m w).0 (m w).1 (km.at w) }
    where
      go : (w : World) (r : Result A) (v : World) → R w v → R w (continue r f v).1
      go w (ok a) v h = o.chain w v (f a v).1 h ((kf a).at v)
      go w (err e) v h = h

module _ {ℓ} {A : Type ℓ} {R : World → World → Type 0} where
  pub Keeps-moves :
      (m : Action A) (w : World) {r : Result A} {v : World} → Keeps R m → m w ≡ (r, v) → R w v
  Keeps-moves m w k e = rw e at (k.at w)

module _ {R : World → World → Type 0} where
  pub Keeps-modify : (f : World → World) → ((w : World) → R w (f w)) → Keeps R (modify f)
  unfolding modify
  Keeps-modify f h = record { at = h }

pub ruleset keeps_rules = (
  Keeps-pure, Keeps-raise, Keeps-gets, Keeps-attempt, Keeps-ensure, Keeps-call, Keeps-if,
  Keeps-bind, Keeps-modify,
)

-- The lease table is as it was.
abbrev pub SameMachines : World → World → Type 0
SameMachines v w = w.machines ≡ v.machines

pub SameMachines-preorder : IsPreorder SameMachines
SameMachines-preorder = record { same = λ w. refl; chain = λ u v w p q. q ∙ p }

pub SameMachines-call : (e : Event) (w : World) → SameMachines w (record w { trace = e ∷ w.trace })
SameMachines-call e w = refl

pub ruleset machines_rules = (keeps_rules, SameMachines-preorder, SameMachines-call)
