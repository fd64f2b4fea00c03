-- ===== src/Migrate/Weekdays.antt =====
-- The weekdays of a migrated schedule (`_parse_dow` of backend/app/config_migrate.py) against those
-- that `route_cron` of backend/app/core/scheduler.py writes.
use joulenap.Prelude.{
  ◌≡◌, refl, Bool, true, false, not, ◌&&◌, Option, none, some, List, [], ◌∷◌, text_eq, both_true,
  if◌then◌else◌, length, arith, join_texts, decimal, digits, read_digits,
}
use joulenap.Migrate.{any_on, parse_dow, with_days, turn_on}
use joulenap.Scheduler.{dow_field, on_days, split, pieces}
use joulenap.Scheduler.Days.{both, both_sound, seven}

abbrev same : Bool → Bool → Bool
same true b = b
same false b = not b

same_sound : (a b : Bool) → same a b ≡ true → a ≡ b
same_sound true b h = cc
same_sound false true h = absurd (cc)
same_sound false false h = refl

abbrev same_flags : List Bool → List Bool → Bool
same_flags [] [] = true
same_flags (a ∷ xs) (b ∷ ys) = same a b && same_flags xs ys
same_flags _ _ = false

same_flags_sound : (xs ys : List Bool) → same_flags xs ys ≡ true → xs ≡ ys
same_flags_sound [] [] h = refl
same_flags_sound (a ∷ xs) (b ∷ ys) h =
    let (p, q) = both_true (same a b) (same_flags xs ys) h in
    let e : a ≡ b = same_sound a b p in let es : xs ≡ ys = same_flags_sound xs ys q in cc
same_flags_sound [] (b ∷ ys) h = absurd (cc)
same_flags_sound (a ∷ xs) [] h = absurd (cc)

abbrev is_week : List Bool → Option (List Bool) → Bool
is_week days (some more) = same_flags more days
is_week days none = false

is_week_sound : (days : List Bool) (o : Option (List Bool)) → is_week days o ≡ true → o ≡ some days
is_week_sound days (some more) h = let e = same_flags_sound more days h in cc
is_week_sound days none h = absurd (cc)

reads_back : List Bool → Bool
reads_back days = if any_on days then is_week days (parse_dow (dow_field days)) else true

always_reads_back :
    both (λ a. both (λ b.
      both (λ c. both (λ d. both (λ e. both (λ f. both (λ g. reads_back (seven a b c d e f g))))))))
    ≡ true
unfolding reads_back both parse_dow with_days turn_on dow_field split pieces on_days join_texts
    decimal digits read_digits text_eq
always_reads_back = refl

seven-reads_back :
    (a b c d e f g : Bool)
    → any_on (seven a b c d e f g) ≡ true
    → parse_dow (dow_field (seven a b c d e f g)) ≡ some (seven a b c d e f g)
unfolding reads_back
seven-reads_back a b c d e f g on =
    let all =
      both_sound _
        (both_sound _
          (both_sound _
            (both_sound _ (both_sound _ (both_sound _ (both_sound _ always_reads_back a) b) c) d) e)
          f)
        g in
    is_week_sound _ _ (rw on at all)

-- The day-of-week field that is made of a route's seven flags, at least one of them on, is read by
-- the migration as the same seven flags.
pub parse_dow-dow_field :
    (days : List Bool)
    → length days ≡ 7
    → any_on days ≡ true
    → parse_dow (dow_field days) ≡ some days
parse_dow-dow_field (a ∷ b ∷ c ∷ d ∷ e ∷ f ∷ g ∷ []) h on = seven-reads_back a b c d e f g on
parse_dow-dow_field [] h on = absurd (omega (arith, h))
parse_dow-dow_field (a ∷ []) h on = absurd (omega (arith, h))
parse_dow-dow_field (a ∷ b ∷ []) h on = absurd (omega (arith, h))
parse_dow-dow_field (a ∷ b ∷ c ∷ []) h on = absurd (omega (arith, h))
parse_dow-dow_field (a ∷ b ∷ c ∷ d ∷ []) h on = absurd (omega (arith, h))
parse_dow-dow_field (a ∷ b ∷ c ∷ d ∷ e ∷ []) h on = absurd (omega (arith, h))
parse_dow-dow_field (a ∷ b ∷ c ∷ d ∷ e ∷ f ∷ []) h on = absurd (omega (arith, h))
parse_dow-dow_field (a ∷ b ∷ c ∷ d ∷ e ∷ f ∷ g ∷ i ∷ days) h on = absurd (omega (arith, h))
