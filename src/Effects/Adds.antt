-- ===== src/Effects/Adds.antt =====
-- The calls that an action makes, all of one sort.
use joulenap.Prelude.{◌≡◌, refl, ap, ◌∙◌, sym, List, [], ◌∷◌, ◌++◌, All, All-append}
use mathlib.Core.List.{append_assoc}
use joulenap.Effects.{Result, ok, err, Event, Trace, World, Action, call, continue, ◌>>=◌}
use joulenap.Effects.Keeps.{IsPreorder, Keeps}

module _ (P : Event → Type 0) where
  -- The trace has grown by events of which `P` holds.
  pub record Adds (v w : World) : Type 0 where
    pub events : List Event
    pub grown : w.trace ≡ events ++ v.trace
    pub sort : All P events

  pub Adds-preorder : IsPreorder Adds
  Adds-preorder = record {
    same = λ w. record { events = []; grown = refl; sort = tt };
    chain = λ u v w p q. record {
      events = q.events ++ p.events;
      grown =
          q.grown ∙ ap (λ t. q.events ++ t) p.grown ∙ sym (append_assoc q.events p.events u.trace);
      sort = All-append P q.events p.events q.sort p.sort;
    };
  }

  pub Adds-event : (e : Event) → P e → (w : World) → Adds w (record w { trace = e ∷ w.trace })
  Adds-event e p w = record { events = e ∷ []; grown = refl; sort = (p, tt) }

-- A call and what is done with an answer that it gave.
pub Keeps-call_bind {ℓ κ} :
    {A : Type ℓ} {B : Type κ} {R : World → World → Type 0} (o : IsPreorder R) (e : Event)
    (answer : Trace → Result A) (f : A → Action B)
    → ((w : World) → R w (record w { trace = e ∷ w.trace }))
    → ((t : Trace) (a : A) → answer t ≡ ok a → Keeps R (f a))
    → Keeps R (call e answer >>= f)
unfolding call ◌>>=◌
Keeps-call_bind {R} o e answer f h k = record { at = λ w. go w (answer w.trace) refl }
  where
    go :
        (w : World) (r : Result _)
        → answer w.trace ≡ r
        → R w (continue r f (record w { trace = e ∷ w.trace })).1
    go w (ok a) p = o.chain w _ _ (h w) ((k w.trace a p).at _)
    go w (err x) p = h w
