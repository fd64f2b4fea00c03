-- ===== src/Tree/Lookup.antt =====
-- Looking up the fields of a dict.
use joulenap.Prelude.{◌≡◌, refl, false, ◌||◌, Text, text_eq, text_eq_iff, if◌then◌else◌, arith}
use joulenap.Tree.{Value, null, Fields, end, field, has_field, find_field, set_field}

pub find_field-set_field :
    (k j : Text) (v : Value) (fs : Fields)
    → find_field j (set_field k v fs) ≡ (if text_eq k j then v else find_field j fs)
unfolding find_field set_field
find_field-set_field k j v end = ground arith
find_field-set_field k j v (field i w fs) =
    ground (arith, text_eq_iff k j, text_eq_iff i k, text_eq_iff i j, find_field-set_field k j v fs)

pub has_field-set_field :
    (k j : Text) (v : Value) (fs : Fields)
    → has_field j (set_field k v fs) ≡ (text_eq k j || has_field j fs)
unfolding has_field set_field
has_field-set_field k j v end = ground arith
has_field-set_field k j v (field i w fs) =
    ground (arith, text_eq_iff k j, text_eq_iff i k, text_eq_iff i j, has_field-set_field k j v fs)

pub find_field-missing : (k : Text) (fs : Fields) → has_field k fs ≡ false → find_field k fs ≡ null
unfolding has_field find_field
find_field-missing k end h = refl
find_field-missing k (field j v fs) h = ground (arith, find_field-missing k fs)
