-- ===== src/Secrets/PutGet.antt =====
-- A client that reads the configuration and puts it back: `deep_merge` of what it was sent onto
-- what is stored (backend/app/config.py).
use joulenap.Prelude.{
  ◌≡◌, refl, ap, ◌∙◌, true, false, not, ◌&&◌, ◌||◌, Text, text_eq, text_eq_refl, text_eq_iff,
  both_true, Bool-cases, inl, inr, if◌then◌else◌, arith,
}
use joulenap.Tree.{
  Value, Fields, null, boolean, number, text, array, object, end, field, has_field, find_field,
  set_field, unique_keys,
}
use joulenap.Secrets.{
  is_secret, mask, mask_one, redact, redact_fields, deep_merge, merge_value, restored, restore,
}
use joulenap.Secrets.Sound.{is_sound, fields_sound, is_full}
use joulenap.Secrets.RoundTrip.{restore-redact}

append : Fields → Fields → Fields
append end gs = gs
append (field k v fs) gs = field k v (append fs gs)

snoc : Fields → Text → Value → Fields
unfolding append
snoc fs k v = append fs (field k v end)

append-snoc :
    (fs gs : Fields) (k : Text) (v : Value) → append (snoc fs k v) gs ≡ append fs (field k v gs)
unfolding append snoc
append-snoc end gs k v = refl
append-snoc (field j w fs) gs k v = ap (field j w) (append-snoc fs gs k v)

has_field-snoc :
    (j k : Text) (v : Value) (fs : Fields)
    → has_field j (snoc fs k v) ≡ (has_field j fs || text_eq k j)
unfolding append snoc has_field
has_field-snoc j k v end = ground arith
has_field-snoc j k v (field i w fs) = ground (arith, has_field-snoc j k v fs)

find_field-append :
    (k : Text) (v : Value) (fs gs : Fields)
    → has_field k fs ≡ false
    → find_field k (append fs (field k v gs)) ≡ v
unfolding append has_field find_field
find_field-append k v end gs h = rw (text_eq_refl k) refl
find_field-append k v (field j w fs) gs h = ground (arith, find_field-append k v fs gs)

set_field-append :
    (k : Text) (v w : Value) (fs gs : Fields)
    → has_field k fs ≡ false
    → set_field k w (append fs (field k v gs)) ≡ append (snoc fs k w) gs
unfolding append snoc has_field set_field
set_field-append k v w end gs h = rw (text_eq_refl k) refl
set_field-append k v w (field j x fs) gs h = ground (arith, set_field-append k v w fs gs)

-- No key of `gs` is one of `fs`.
abbrev AreApart : Fields → Fields → Type 0
AreApart fs gs = (k : Text) → has_field k gs ≡ true → has_field k fs ≡ false

AreApart-snoc :
    (done fs : Fields) (k : Text) (v w : Value)
    → has_field k fs ≡ false
    → AreApart done (field k v fs)
    → AreApart (snoc done k w) fs
unfolding has_field
AreApart-snoc done fs k v w h a j e = rw (has_field-snoc j k w done) (
    let old = a j (rw e (ground arith)) in
    elim (Bool-cases (text_eq k j)) [
      | inl t ↦ absurd (ground (arith, text_eq_iff k j))
      | inr t ↦ rw (old, t) refl
    ])

merge_value-mask : (v : Value) → merge_value v (mask v) ≡ mask v
unfolding deep_merge mask mask_one
merge_value-mask null = refl
merge_value-mask (boolean true) = refl
merge_value-mask (boolean false) = refl
merge_value-mask (number n) = refl
merge_value-mask (text t) = refl
merge_value-mask (array xs) = refl
merge_value-mask (object end) = refl
merge_value-mask (object (field k v fs)) = refl

mutual
  unfolding deep_merge redact is_sound append has_field unique_keys

  merge_value-redact : (v : Value) → is_sound v ≡ true → merge_value v (redact v) ≡ redact v
  merge_value-redact null h = refl
  merge_value-redact (boolean b) h = refl
  merge_value-redact (number n) h = refl
  merge_value-redact (text t) h = refl
  merge_value-redact (array xs) h = refl
  merge_value-redact (object fs) h = ap object (deep_merge-redact_from fs end h (λ k e. refl))

  deep_merge-redact_from :
      (fs done : Fields)
      → (unique_keys fs && fields_sound fs) ≡ true
      → AreApart done fs
      → deep_merge (append done fs) (redact_fields fs) ≡ append done (redact_fields fs)
  deep_merge-redact_from end done h a = refl
  deep_merge-redact_from (field k v fs) done h a =
      let inner = merge_value-redact v in
      let (keys, sound) = both_true (not (has_field k fs) && unique_keys fs) _ h in
      let (new, unique) = both_true (not (has_field k fs)) (unique_keys fs) keys in
      let (own, rest) =
        both_true (if is_secret k then is_full v else is_sound v) (fields_sound fs) sound in
      let w : Value = if is_secret k then mask v else redact v in
      let merged : merge_value v w ≡ w = elim (Bool-cases (is_secret k)) [
        | inl e ↦ rw e (merge_value-mask v)
        | inr e ↦ rw e (inner (rw e at own))
      ] in
      let absent : has_field k done ≡ false = a k (rw (text_eq_refl k) refl) in
      let missing : has_field k fs ≡ false = ground arith in
      let later =
        deep_merge-redact_from fs (snoc done k w) (rw (unique, rest) refl)
          (AreApart-snoc done fs k v w missing a) in
      rw (find_field-append k v done fs absent, merged, set_field-append k v w done fs absent)
        (later ∙ append-snoc done (redact_fields fs) k w)

-- A sound configuration that a client reads masked and puts back as it is, is stored as it was: what
-- was sent is merged onto what is stored, and the secrets are restored from there.
pub restore-deep_merge :
    (fs : Fields)
    → is_sound (object fs) ≡ true
    → restore (object (deep_merge fs (redact_fields fs))) (object fs) ≡ restored (object fs)
unfolding redact is_sound append has_field
restore-deep_merge fs h =
    rw (deep_merge-redact_from fs end h (λ k e. refl)) (restore-redact (object fs) h)
