-- ===== src/Effects/Binds.antt =====
-- Running a sequence of actions, by what its parts do.
use joulenap.Prelude.{◌≡◌, refl, ◌∙◌, ◌⊎◌, inl, inr, ◌∷◌, Bool, true, false, if◌then◌else◌}
use joulenap.Effects.{
  Failure, ok, err, World, Action, Event, Trace, Result, call, pure, gets, attempt, ◌>>=◌,
  Result-cases,
}

module _ {ℓ κ} {A : Type ℓ} {B : Type κ} where
  pub >>=-ok :
      (m : Action A) (f : A → Action B) (w : World) {a : A} {v : World}
      → m w ≡ (ok a, v)
      → (m >>= f) w ≡ f a v
  unfolding ◌>>=◌
  >>=-ok m f w h = rw h

  pub >>=-err :
      (m : Action A) (f : A → Action B) (w : World) {e : Failure} {v : World}
      → m w ≡ (err e, v)
      → (m >>= f) w ≡ (err e, v)
  unfolding ◌>>=◌
  >>=-err m f w h = rw h

  -- A sequence that returns went through its parts.
  pub >>=-inv_ok :
      (m : Action A) (f : A → Action B) (w : World) {b : B} {v : World}
      → (m >>= f) w ≡ (ok b, v)
      → (a : A) × (u : World) × (m w ≡ (ok a, u)) × (f a u ≡ (ok b, v))
  >>=-inv_ok m f w h = elim (Result-cases (m w)) [
    | inl (a, u, e) ↦ (a, u, e, rw (>>=-ok m f w e) at h)
    | inr (x, u, e) ↦ absurd (cc (>>=-err m f w e))
  ]

  -- One that raises was stopped by its first part or its second.
  pub >>=-inv_err :
      (m : Action A) (f : A → Action B) (w : World) {e : Failure} {v : World}
      → (m >>= f) w ≡ (err e, v)
      → (m w ≡ (err e, v)) ⊎ ((a : A) × (u : World) × (m w ≡ (ok a, u)) × (f a u ≡ (err e, v)))
  >>=-inv_err m f w h = elim (Result-cases (m w)) [
    | inl (a, u, e) ↦ inr (a, u, e, rw (>>=-ok m f w e) at h)
    | inr (x, u, e) ↦ inl (cc (>>=-err m f w e))
  ]

module _ {ℓ} {A : Type ℓ} where
  pub attempt-ok :
      (m : Action A) (handler : Failure → Action A) (w : World) {a : A} {v : World}
      → m w ≡ (ok a, v)
      → attempt m handler w ≡ (ok a, v)
  unfolding attempt
  attempt-ok m handler w h = rw h

  pub attempt-err :
      (m : Action A) (handler : Failure → Action A) (w : World) {e : Failure} {v : World}
      → m w ≡ (err e, v)
      → attempt m handler w ≡ handler e v
  unfolding attempt
  attempt-err m handler w h = rw h

  -- `m` returns in every world.
  pub record Returns (m : Action A) : Type ℓ where
    pub at : (w : World) → (a : A) × (v : World) × (m w ≡ (ok a, v))

module _ {ℓ κ} {A : Type ℓ} {B : Type κ} where
  pub Returns-bind :
      (m : Action A) (f : A → Action B) → Returns m → ((a : A) → Returns (f a)) → Returns (m >>= f)
  Returns-bind m f rm rf = record {
    at = λ w. let (a, u, e) = rm.at w in let (b, v, h) = (rf a).at u in (b, v, >>=-ok m f w e ∙ h);
  }

module _ {ℓ} {A : Type ℓ} where
  pub Returns-pure : (a : A) → Returns (pure a)
  unfolding pure
  Returns-pure a = record { at = λ w. (a, w, refl) }

  pub pure-inv : (a : A) (w : World) {b : A} {v : World} → pure a w ≡ (ok b, v) → (a ≡ b) × (w ≡ v)
  unfolding pure
  pure-inv a w h = (cc, cc)

  pub gets-inv :
      (f : World → A) (w : World) {b : A} {v : World} → gets f w ≡ (ok b, v) → (f w ≡ b) × (w ≡ v)
  unfolding gets
  gets-inv f w h = (cc, cc)

  pub Returns-if :
      (b : Bool) (m n : Action A) → Returns m → Returns n → Returns (if b then m else n)
  Returns-if true m n rm rn = rm
  Returns-if false m n rm rn = rn

  pub Returns-call :
      (e : Event) (answer : Trace → Result A)
      → ((t : Trace) → (a : A) × (answer t ≡ ok a))
      → Returns (call e answer)
  unfolding call
  Returns-call e answer h = record {
    at = λ w. let (a, p) = h w.trace in (a, record w { trace = e ∷ w.trace }, rw p);
  }

  pub Returns-gets : (f : World → A) → Returns (gets f)
  unfolding gets
  Returns-gets f = record { at = λ w. (f w, w, refl) }

  pub Returns-attempt :
      (m : Action A) (handler : Failure → Action A)
      → ((e : Failure) → Returns (handler e))
      → Returns (attempt m handler)
  Returns-attempt m handler rh = record {
    at = λ w. elim (Result-cases (m w)) [
      | inl (a, v, e) ↦ (a, v, attempt-ok m handler w e)
      | inr (x, v, e) ↦ let (a, u, h) = (rh x).at v in (a, u, attempt-err m handler w e ∙ h)
    ];
  }

  -- An action that returns does not raise.
  pub Returns-ne-err :
      (m : Action A) (w : World) {e : Failure} {v : World} → Returns m → m w ≡ (err e, v) → ⊥
  Returns-ne-err m w r h = let (a, u, e) = r.at w in cc
