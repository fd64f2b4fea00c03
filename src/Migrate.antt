-- ===== src/Migrate.antt =====
-- backend/app/config_migrate.py: the conversion of a 0.9 configuration, on plain data. Where the
-- source makes a text of a value, texts, numbers, Booleans and empty values are covered.
pub mod Weekdays
pub mod Devices
pub mod Routes
pub mod Resolved
use joulenap.Prelude.{
  ℕ, zero, suc, ◌+◌, ◌%◌, Bool, true, false, not, ◌&&◌, ◌||◌, Option, none, some, List, [], ◌∷◌,
  ◌++◌, Text, codes, text_eq, any, is_empty, leb, ltb, ◌==◌, if◌then◌else◌, is_digit, read_digits,
  decimal, join_texts, strip, lower,
}
use joulenap.Tree.{
  Value, Items, Fields, null, boolean, number, text, array, object, nil, cons, end, field, truthy,
  has_field, find_field, get, set_field,
}
use joulenap.Scheduler.{split, split_words, all_on}

-- `raw.get(key, default)`
abbrev pub get_or : Text → Value → Fields → Value
get_or key v fs = if has_field key fs then find_field key fs else v

abbrev pub fields_of : Value → Fields
fields_of (object fs) = fs
fields_of _ = end

-- `_section`
abbrev pub section : Fields → Text → Fields
section raw key = fields_of (find_field key raw)

-- `str(value or "")`
abbrev pub as_text : Value → Text
as_text (text t) = t
as_text (number n) = if n == 0 then [] else decimal n
as_text (boolean true) = codes "True"
as_text _ = []

abbrev pub all_digits : Text → Bool
all_digits [] = true
all_digits (c ∷ t) = is_digit c && all_digits t

-- `_INT`, and the number.
abbrev as_int : Text → Option ℕ
as_int [] = none
as_int (c ∷ t) = if all_digits (c ∷ t) then some (read_digits 0 (c ∷ t)).0 else none

-- `days[i] = True`
unfoldable pub turn_on : ℕ → List Bool → List Bool
turn_on i [] = []
turn_on zero (b ∷ days) = true ∷ days
turn_on (suc i) (b ∷ days) = b ∷ turn_on i days

-- `_CRON_DOW_TO_INDEX`
abbrev pub dow_index : ℕ → ℕ
dow_index n = (n + 6) % 7

abbrev with_day : Option ℕ → List Bool → Option (List Bool)
with_day none days = none
with_day (some n) days = if leb n 7 then some (turn_on (dow_index n) days) else none

unfoldable pub with_days : List Text → List Bool → Option (List Bool)
unfolding turn_on
with_days [] days = some days
with_days (token ∷ tokens) days = elim (with_day (as_int token) days) [
  | some more ↦ with_days tokens more
  | none ↦ none
]

abbrev pub any_on : List Bool → Bool
any_on [] = false
any_on (b ∷ bs) = b || any_on bs

abbrev week_of : Bool → List Bool
week_of b = b ∷ b ∷ b ∷ b ∷ b ∷ b ∷ b ∷ []

-- `_parse_dow`
unfoldable pub parse_dow : Text → Option (List Bool)
unfolding with_days split
parse_dow dow =
    if text_eq dow (codes "*")
    then some (week_of true)
    else (elim (with_days (split b',' dow) (week_of false)) [
      | some days ↦ if any_on days then some days else none
      | none ↦ none
    ])

abbrev two_digits : ℕ → Text
two_digits n = if ltb n 10 then codes "0" ++ decimal n else decimal n

abbrev flags : List Bool → Items
flags [] = nil
flags (b ∷ bs) = cons (boolean b) (flags bs)

abbrev plain : Option ℕ → Option ℕ → Option (List Bool) → Fields → Fields
plain (some minute) (some hour) (some days) raw =
    if leb minute 59 && leb hour 23
    then field (codes "time") (text (two_digits hour ++ codes ":" ++ two_digits minute))
        (field (codes "days") (array (flags days)) end)
    else raw
plain _ _ _ raw = raw

abbrev of_words : Value → List Text → Fields
of_words schedule [] = end
of_words schedule (minute ∷ hour ∷ dom ∷ month ∷ dow ∷ []) =
    let raw : Fields =
      field (codes "cron") (text (join_texts (codes " ") (minute ∷ hour ∷ dom ∷ month ∷ dow ∷ [])))
        end in
    if text_eq dom (codes "*") && text_eq month (codes "*")
    then plain (as_int minute) (as_int hour) (parse_dow dow) raw
    else raw
of_words schedule _ = field (codes "cron") schedule end

-- `parse_cron`
unfoldable pub parse_cron : Value → Fields
unfolding parse_dow split_words
parse_cron schedule = of_words schedule (split_words (as_text schedule))
