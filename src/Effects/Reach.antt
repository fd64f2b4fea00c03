-- ===== src/Effects/Reach.antt =====
-- Calls that an action is sure to make.
use joulenap.Prelude.{◌≡◌, refl, ap, ◌∙◌, sym, ◌⊎◌, inl, inr, List, [], ◌∷◌, ◌++◌}
use mathlib.Core.List.{append_assoc}
use joulenap.Effects.{
  Failure, Result, Event, Trace, World, Action, pure, call, attempt, ◌>>=◌, Result-cases,
}
use joulenap.Effects.Binds.{>>=-ok, >>=-err, attempt-ok, attempt-err, Returns}
use joulenap.Effects.Keeps.{Keeps, Keeps-moves}
use joulenap.Effects.Blames.{Grown}

abbrev pub Happened : Event → Trace → Type 0
Happened e [] = ⊥
Happened e (x ∷ t) = (x ≡ e) ⊎ Happened e t

Happened-after : (e : Event) (new t : Trace) → Happened e t → Happened e (new ++ t)
Happened-after e [] t h = h
Happened-after e (x ∷ new) t h = inr (Happened-after e new t h)

Happened-before : (e : Event) (new t : Trace) → Happened e new → Happened e (new ++ t)
Happened-before e [] t h = absurd h
Happened-before e (x ∷ new) t (inl p) = inl p
Happened-before e (x ∷ new) t (inr h) = inr (Happened-before e new t h)

-- It happened on the way from the one world to the other.
pub record Since (e : Event) (v w : World) : Type 0 where
  pub new : List Event
  pub grown : w.trace ≡ new ++ v.trace
  pub happened : Happened e new

pub Since-later : {e : Event} (u v w : World) → Since e u v → Grown v w → Since e u w
Since-later {e} u v w s g = record {
  new = g.events ++ s.new;
  grown = g.grown ∙ (ap (λ t. g.events ++ t) s.grown ∙ sym (append_assoc g.events s.new u.trace));
  happened = Happened-after e g.events s.new s.happened;
}

pub Since-first : {e : Event} (u v w : World) → Grown u v → Since e v w → Since e u w
Since-first {e} u v w g s = record {
  new = s.new ++ g.events;
  grown = s.grown ∙ (ap (λ t. s.new ++ t) g.grown ∙ sym (append_assoc s.new g.events u.trace));
  happened = Happened-before e s.new g.events s.happened;
}

pub record Reaches {ℓ} {A : Type ℓ} (e : Event) (m : Action A) : Type ℓ where
  pub at : (w : World) → Since e w (m w).1

module _ {ℓ} {A : Type ℓ} {e : Event} where
  pub Reaches-call : (answer : Trace → Result A) → Reaches e (call e answer)
  unfolding call
  Reaches-call answer = record {
    at = λ w. record { new = e ∷ []; grown = refl; happened = inl refl };
  }

  pub Reaches-attempt :
      (m : Action A) (handler : Failure → Action A)
      → Reaches e m
      → ((x : Failure) → Keeps Grown (handler x))
      → Reaches e (attempt m handler)
  Reaches-attempt m handler r k = record {
    at = λ w. elim (Result-cases (m w)) [
      | inl (a, u, p) ↦ rw (attempt-ok m handler w p) (rw p at (r.at w))
      | inr (x, u, p) ↦
          rw (attempt-err m handler w p)
            (Since-later w u (handler x u).1 (rw p at (r.at w)) ((k x).at u))
    ];
  }

module _ {ℓ κ} {A : Type ℓ} {B : Type κ} {e : Event} where
  pub Reaches-first :
      (m : Action A) (f : A → Action B)
      → Reaches e m
      → ((a : A) → Keeps Grown (f a))
      → Reaches e (m >>= f)
  Reaches-first m f r k = record {
    at = λ w. elim (Result-cases (m w)) [
      | inl (a, u, p) ↦
          rw (>>=-ok m f w p) (Since-later w u (f a u).1 (rw p at (r.at w)) ((k a).at u))
      | inr (x, u, p) ↦ rw (>>=-err m f w p) (rw p at (r.at w))
    ];
  }

  pub Reaches-after :
      (m : Action A) (f : A → Action B)
      → Returns m
      → Keeps Grown m
      → ((a : A) → Reaches e (f a))
      → Reaches e (m >>= f)
  Reaches-after m f r g k = record {
    at = λ w.
        let (a, u, p) = r.at w in
        rw (>>=-ok m f w p) (Since-first w u (f a u).1 (Keeps-moves m w g p) ((k a).at u));
  }

  pub Reaches-pure : (a : A) (f : A → Action B) → Reaches e (f a) → Reaches e (pure a >>= f)
  unfolding pure ◌>>=◌
  Reaches-pure a f r = record { at = λ w. r.at w }
