-- ===== src/Effects/Blames.antt =====
-- Actions that are cancelled by the user only, one rule for each way to build one.
use joulenap.Prelude.{
  ◌≡◌, ◌≢◌, refl, ap, ◌∙◌, sym, inl, inr, List, [], ◌∷◌, ◌++◌, Bool, true, false, if◌then◌else◌,
  Bool-cases,
}
use mathlib.Core.List.{append_assoc}
use joulenap.Effects.{
  Failure, is_cancelled, cycle_cancelled, Result, ok, err, Event, Trace, World, Env, Action, pure,
  raise, call, attempt, ◌>>=◌, Result-cases,
}
use joulenap.Effects.Adds.{Adds, Adds-preorder}
use joulenap.Effects.Binds.{
  >>=-inv_ok, >>=-inv_err, attempt-ok, attempt-err, Returns, Returns-ne-err, Returns-pure, pure-inv,
}
use joulenap.Effects.Keeps.{
  Keeps, Keeps-bind, Keeps-attempt, Keeps-pure, Keeps-raise, Keeps-call, Keeps-moves,
}

-- More has happened.
abbrev pub Grown : World → World → Type 0
Grown = Adds (λ e. Unit)

is_cancelled_sound : (e : Failure) → is_cancelled e ≡ true → e ≡ cycle_cancelled
is_cancelled_sound cycle_cancelled h = refl
is_cancelled_sound _ h = absurd (cc)

module _ (env : Env) where
  -- At some moment from the one world to the other the user had cancelled the run.
  pub record Cancelled (v w : World) : Type 0 where
    pub before : List Event
    pub later : List Event
    pub grown : w.trace ≡ later ++ (before ++ v.trace)
    pub asked : env.cancelled (before ++ v.trace) ≡ true

  pub Cancelled-after : (u v w : World) → Grown u v → Cancelled v w → Cancelled u w
  Cancelled-after u v w g c = record {
    before = c.before ++ g.events;
    later = c.later;
    grown =
        c.grown
        ∙ ap (λ t. c.later ++ t)
            (ap (λ t. c.before ++ t) g.grown ∙ sym (append_assoc c.before g.events u.trace));
    asked = rw (append_assoc c.before g.events u.trace, ← g.grown) c.asked;
  }

  pub Cancelled-before : (u v w : World) → Cancelled u v → Grown v w → Cancelled u w
  Cancelled-before u v w c g = record {
    before = c.before;
    later = g.events ++ c.later;
    grown =
        g.grown
        ∙ (ap (λ t. g.events ++ t) c.grown
            ∙ sym (append_assoc g.events c.later (c.before ++ u.trace)));
    asked = c.asked;
  }

  pub Cancelled-now : (v w : World) → env.cancelled v.trace ≡ true → Grown v w → Cancelled v w
  Cancelled-now v w c g = record { before = []; later = g.events; grown = g.grown; asked = c }

  -- What `m` returns satisfies `Q`; where it raises that the run is cancelled, the user did that.
  pub record Blames {ℓ} {A : Type ℓ} (Q : A → Type 0) (m : Action A) : Type ℓ where
    pub grows : Keeps Grown m
    pub returns : (w : World) {a : A} {v : World} → m w ≡ (ok a, v) → Q a
    pub raises : (w : World) {v : World} → m w ≡ (err cycle_cancelled, v) → Cancelled w v

  abbrev pub Any {ℓ} : {A : Type ℓ} → A → Type 0
  Any a = Unit

  module _ {ℓ} {A : Type ℓ} where
    pub Blames-pure : {Q : A → Type 0} (a : A) → Q a → Blames Q (pure a)
    Blames-pure {Q} a q = record {
      grows = Keeps-pure (Adds-preorder _) a;
      returns = λ w e. rw (pure-inv a w e).0 at q;
      raises = λ w e. absurd (Returns-ne-err _ w (Returns-pure a) e);
    }

    pub Blames-Returns : (m : Action A) → Returns m → Keeps Grown m → Blames Any m
    Blames-Returns m r k = record {
      grows = k;
      returns = λ w e. tt;
      raises = λ w e. absurd (Returns-ne-err m w r e);
    }

    pub Blames-raise : (Q : A → Type 0) (e : Failure) → is_cancelled e ≡ false → Blames Q (raise e)
    unfolding raise
    Blames-raise Q e n = record {
      grows = Keeps-raise (Adds-preorder _) e;
      returns = λ w h. absurd (cc);
      raises = λ w h. let same : e ≡ cycle_cancelled = cc in absurd (cc (rw same at n));
    }

    pub Blames-call :
        (e : Event) (answer : Trace → Result A)
        → ((t : Trace) → answer t ≢ err cycle_cancelled)
        → Blames Any (call e answer)
    unfolding call
    Blames-call e answer n = record {
      grows = Keeps-call e answer (λ w. record { events = e ∷ []; grown = refl; sort = (tt, tt) });
      returns = λ w h. tt;
      raises = λ w h. absurd (n w.trace (ap (λ x. x.0) h));
    }

    pub Blames-if :
        (Q : A → Type 0) (b : Bool) (m n : Action A)
        → (b ≡ true → Blames Q m)
        → (b ≡ false → Blames Q n)
        → Blames Q (if b then m else n)
    Blames-if Q true m n x y = x refl
    Blames-if Q false m n x y = y refl

    pub Blames-attempt :
        (Q : A → Type 0) (m : Action A) (handler : Failure → Action A)
        → Blames Q m
        → ((x : Failure) → Keeps Grown (handler x))
        → ((x : Failure) (w : World) (a : A) (v : World) → handler x w ≡ (ok a, v) → Q a)
        → ((x : Failure)
            → is_cancelled x ≡ false
            → (w : World) (v : World) → handler x w ≡ (err cycle_cancelled, v)
            → Cancelled w v)
        → Blames Q (attempt m handler)
    Blames-attempt Q m handler b k q h = record {
      grows = Keeps-attempt (Adds-preorder _) m handler b.grows k;
      returns = λ w {a} {v} e. elim (Result-cases (m w)) [
        | inl (c, u, p) ↦
            let same : m w ≡ (ok a, v) = p ∙ (sym (attempt-ok m handler w p) ∙ e) in
            b.returns w same
        | inr (x, u, p) ↦ q x u a v (sym (attempt-err m handler w p) ∙ e)
      ];
      raises = λ w {v} e. elim (Result-cases (m w)) [
        | inl (c, u, p) ↦ absurd (cc (attempt-ok m handler w p))
        | inr (x, u, p) ↦
            let there = sym (attempt-err m handler w p) ∙ e in
            elim (Bool-cases (is_cancelled x)) [
              | inl c ↦
                  Cancelled-before w u v (b.raises w (rw (is_cancelled_sound x c) at p))
                    (Keeps-moves (handler x) u (k x) there)
              | inr c ↦ Cancelled-after w u v (Keeps-moves m w b.grows p) (h x c u v there)
            ]
      ];
    }

  pub Blames-bind {ℓ κ} :
      {A : Type ℓ} {B : Type κ} (P : A → Type 0) (Q : B → Type 0) (m : Action A) (f : A → Action B)
      → Blames P m
      → ((a : A) → Keeps Grown (f a))
      → ((a : A) → P a → Blames Q (f a))
      → Blames Q (m >>= f)
  Blames-bind P Q m f b k h = record {
    grows = Keeps-bind (Adds-preorder _) m f b.grows k;
    returns = λ w e. let (a, u, p, q) = >>=-inv_ok m f w e in (h a (b.returns w p)).returns u q;
    raises = λ w {v} e. elim (>>=-inv_err m f w e) [
      | inl early ↦ b.raises w early
      | inr (a, u, p, q) ↦
          Cancelled-after w u v (Keeps-moves m w b.grows p) ((h a (b.returns w p)).raises u q)
    ];
  }

  -- The same where the rest does not depend on what the first part returned.
  pub Blames-then {ℓ κ} :
      {A : Type ℓ} {B : Type κ} (Q : B → Type 0) (m : Action A) (f : A → Action B)
      → Blames Any m
      → ((a : A) → Blames Q (f a))
      → Blames Q (m >>= f)
  Blames-then Q m f b h = Blames-bind Any Q m f b (λ a. (h a).grows) (λ a _. h a)
