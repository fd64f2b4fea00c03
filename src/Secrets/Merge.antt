-- ===== src/Secrets/Merge.antt =====
-- `deep_merge` of backend/app/config.py, field by field.
use joulenap.Prelude.{
  ◌≡◌, refl, ◌∙◌, true, false, not, Text, text_eq, text_eq_sound, both_true, ap, Bool-cases, inl,
  inr, if◌then◌else◌, arith,
}
use joulenap.Tree.{Fields, end, field, has_field, find_field, set_field, unique_keys}
use joulenap.Tree.Lookup.{find_field-set_field}
use joulenap.Secrets.{deep_merge, merge_value}

deep_merge_absent :
    (k : Text) (fs base : Fields)
    → has_field k fs ≡ false
    → find_field k (deep_merge base fs) ≡ find_field k base
unfolding deep_merge has_field
deep_merge_absent k end base h = refl
deep_merge_absent k (field j v fs) base h =
    deep_merge_absent k fs (set_field j (merge_value (find_field j base) v) base) (ground arith)
    ∙ ground (arith, find_field-set_field j k (merge_value (find_field j base) v) base)

-- The value of a key of two dicts that are merged: where the second does not have the key it is the
-- first one's; otherwise the two values are merged, which for anything but two dicts is the second.
pub find_field-deep_merge :
    (k : Text) (base fs : Fields)
    → unique_keys fs ≡ true
    → find_field k (deep_merge base fs) ≡ (
        if has_field k fs
        then merge_value (find_field k base) (find_field k fs)
        else find_field k base)
unfolding deep_merge has_field find_field unique_keys
find_field-deep_merge k base end u = refl
find_field-deep_merge k base (field j v fs) u = elim (Bool-cases (text_eq j k)) [
  | inl e ↦
      let same = text_eq_sound j k e in
      let first = (both_true (not (has_field j fs)) (unique_keys fs) u).0 in
      let missing : has_field j fs ≡ false = ground arith in
      let gone : has_field k fs ≡ false = rw same at missing in
      rw
        (
          e,
          deep_merge_absent k fs (set_field j (merge_value (find_field j base) v) base) gone,
          find_field-set_field j k (merge_value (find_field j base) v) base,
          e,
        )
        (ap (λ x. merge_value (find_field x base) v) same)
  | inr e ↦
      rw
        (
          e,
          find_field-deep_merge k (set_field j (merge_value (find_field j base) v) base) fs
              (both_true (not (has_field j fs)) (unique_keys fs) u).1,
          find_field-set_field j k (merge_value (find_field j base) v) base,
          e,
        )
        refl
]
