-- ===== src/MacAddress.antt =====
-- backend/app/connectors/wol.py: parsing a MAC and the packet that wakes a box. A raised `WolError` is
-- `none`.
use joulenap.Prelude.{
  ℕ, zero, suc, Bool, ◌||◌, Option, none, some, List, [], ◌∷◌, ◌++◌, Text, ◌==◌, if◌then◌else◌,
  hex_value, hex_code, strip,
}

abbrev is_separator : ℕ → Bool
is_separator c = c == b':' || c == b'-'

-- The byte that two hexadecimal digits spell, and the text after them.
unfoldable pub hex_pair : Text → Option (ℕ × Text)
hex_pair (a ∷ b ∷ t) = elim (hex_code (hex_value a) (hex_value b)) [
  | some n ↦ some (n, t)
  | none ↦ none
]
hex_pair _ = none

-- The text after a separator, where there is to be one.
abbrev pub after_separator : Option ℕ → Text → Option Text
after_separator none t = some t
after_separator (some c) [] = none
after_separator (some c) (d ∷ t) = if c == d then some t else none

abbrev pub then_pair : Option Text → Option (ℕ × Text)
then_pair none = none
then_pair (some t) = hex_pair t

-- `n` more bytes, each after a separator, up to the end of the text.
unfoldable pub more_pairs : ℕ → Option ℕ → Text → Option (List ℕ)
unfolding hex_pair
more_pairs zero separator [] = some []
more_pairs zero separator (c ∷ t) = none
more_pairs (suc n) separator t = elim (then_pair (after_separator separator t)) [
  | none ↦ none
  | some (byte, rest) ↦ elim (more_pairs n separator rest) [
    | none ↦ none
    | some bytes ↦ some (byte ∷ bytes)
  ]
]

-- The separator of the text after the first byte, which the others repeat.
abbrev pub separator_of : Text → Option ℕ
separator_of [] = none
separator_of (c ∷ t) = if is_separator c then some c else none

abbrev pub with_first : Option (ℕ × Text) → Option (List ℕ)
with_first none = none
with_first (some (byte, t)) = elim (more_pairs 5 (separator_of t) t) [
  | none ↦ none
  | some bytes ↦ some (byte ∷ bytes)
]

-- `normalize_mac`
unfoldable pub normalize_mac : Text → Option (List ℕ)
unfolding hex_pair more_pairs
normalize_mac mac = with_first (hex_pair (strip mac))

unfoldable pub times : ℕ → List ℕ → List ℕ
times zero bytes = []
times (suc n) bytes = bytes ++ times n bytes

-- `build_magic_packet`
unfoldable pub build_magic_packet : Text → Option (List ℕ)
unfolding normalize_mac times
build_magic_packet mac = elim (normalize_mac mac) [
  | some bytes ↦ some (times 6 (255 ∷ []) ++ times 16 bytes)
  | none ↦ none
]
