-- ===== src/Scheduler/Days.antt =====
-- The weekdays of a schedule through `route_cron` and `_translate_dow` (backend/app/core/scheduler.py).
use joulenap.Prelude.{
  ◌≡◌, refl, Bool, true, false, ◌&&◌, Option, none, some, List, [], ◌∷◌, Text, codes, text_eq,
  text_eq_sound, both_true, if◌then◌else◌, length, arith, join_texts, decimal, digits, read_digits,
}
use joulenap.Scheduler.{
  all_on, dow_field, on_days, translate_dow, split, pieces, dow_token, dow_name, add_days,
  add_tokens,
}

-- The names of the days that are on, the week beginning with Monday.
abbrev pub names_from : List Text → List Bool → List Text
names_from (name ∷ names) (on ∷ days) =
    let rest = names_from names days in if on then name ∷ rest else rest
names_from _ _ = []

abbrev pub week : List Text
week =
    codes "mon"
    ∷ codes "tue"
    ∷ codes "wed"
    ∷ codes "thu"
    ∷ codes "fri"
    ∷ codes "sat"
    ∷ codes "sun"
    ∷ []

-- The days on which a schedule fires, as APScheduler is told them.
abbrev pub day_names : List Bool → Text
day_names days = if all_on days then codes "*" else join_texts (codes ",") (names_from week days)

abbrev pub seven : Bool → Bool → Bool → Bool → Bool → Bool → Bool → List Bool
seven a b c d e f g = a ∷ b ∷ c ∷ d ∷ e ∷ f ∷ g ∷ []

abbrev is_text : Text → Option Text → Bool
is_text t (some s) = text_eq s t
is_text t none = false

is_text_sound : (t : Text) (o : Option Text) → is_text t o ≡ true → o ≡ some t
is_text_sound t (some s) h = rw (text_eq_sound s t h) refl
is_text_sound t none h = absurd (cc)

-- A test on two values, which are all there are.
unfoldable pub both : (Bool → Bool) → Bool
both p = p true && p false

pub both_sound : (p : Bool → Bool) → both p ≡ true → (b : Bool) → p b ≡ true
unfolding both
both_sound p h true = (both_true (p true) (p false) h).0
both_sound p h false = (both_true (p true) (p false) h).1

agrees_on : List Bool → Bool
agrees_on days = is_text (day_names days) (translate_dow (dow_field days))

always_agrees :
    both (λ a. both (λ b.
      both (λ c. both (λ d. both (λ e. both (λ f. both (λ g. agrees_on (seven a b c d e f g))))))))
    ≡ true
unfolding agrees_on both translate_dow dow_field split pieces dow_token dow_name add_days add_tokens
    on_days join_texts decimal digits read_digits text_eq
always_agrees = refl

seven-agrees :
    (a b c d e f g : Bool)
    → translate_dow (dow_field (seven a b c d e f g)) ≡ some (day_names (seven a b c d e f g))
unfolding agrees_on
seven-agrees a b c d e f g = is_text_sound _ _ (
    both_sound _
      (both_sound _
        (both_sound _
          (both_sound _ (both_sound _ (both_sound _ (both_sound _ always_agrees a) b) c) d) e)
        f)
      g)

-- The day-of-week field that is made of a route's seven flags, of which the first is Monday's, is
-- read back as the days whose flags are on, for each choice of them.
pub translate_dow-dow_field :
    (days : List Bool) → length days ≡ 7 → translate_dow (dow_field days) ≡ some (day_names days)
translate_dow-dow_field (a ∷ b ∷ c ∷ d ∷ e ∷ f ∷ g ∷ []) h = seven-agrees a b c d e f g
translate_dow-dow_field [] h = absurd (omega (arith, h))
translate_dow-dow_field (a ∷ []) h = absurd (omega (arith, h))
translate_dow-dow_field (a ∷ b ∷ []) h = absurd (omega (arith, h))
translate_dow-dow_field (a ∷ b ∷ c ∷ []) h = absurd (omega (arith, h))
translate_dow-dow_field (a ∷ b ∷ c ∷ d ∷ []) h = absurd (omega (arith, h))
translate_dow-dow_field (a ∷ b ∷ c ∷ d ∷ e ∷ []) h = absurd (omega (arith, h))
translate_dow-dow_field (a ∷ b ∷ c ∷ d ∷ e ∷ f ∷ []) h = absurd (omega (arith, h))
translate_dow-dow_field (a ∷ b ∷ c ∷ d ∷ e ∷ f ∷ g ∷ i ∷ days) h = absurd (omega (arith, h))
