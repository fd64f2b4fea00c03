-- ===== src/Secrets/RoundTrip.antt =====
-- What a client that sends back the masked configuration gets (backend/app/config.py).
use joulenap.Prelude.{
  ◌≡◌, refl, ap, ◌∙◌, true, false, ◌&&◌, List, [], ◌∷◌, Text, text_eq_refl, text_eq_iff, both_true,
  Bool-cases, inl, inr, if◌then◌else◌, arith,
}
use joulenap.Tree.{
  Value, Items, Fields, null, boolean, number, text, array, object, nil, cons, end, field,
  has_field, find_field, get, unique_keys,
}
use joulenap.Secrets.{
  is_secret, secret_keys, redact, redact_items, redact_fields, Restored, restored, with_one,
  with_two, match_entry, keep_keys, keep_omitted, restore, restore_items, restore_fields,
}
use joulenap.Secrets.Sound.{is_full, is_addressed, unmask-mask, is_sound, are_sound, fields_sound}
use joulenap.Secrets.Entries.{
  append, append-snoc, count, count-snoc, snoc, IsApart, IsApart-snoc, match_entry-append,
  match_entry-redact,
}

keep_keys-same : (ks : List Text) (fs : Fields) → keep_keys ks fs fs ≡ fs
unfolding keep_keys
keep_keys-same [] fs = refl
keep_keys-same (k ∷ ks) fs = elim (Bool-cases (has_field k fs)) [
  | inl e ↦ rw e (keep_keys-same ks fs)
  | inr e ↦ rw e (keep_keys-same ks fs)
]

keep_omitted-same : (v : Value) → keep_omitted v v ≡ v
unfolding keep_omitted
keep_omitted-same (object fs) = ap object (keep_keys-same secret_keys fs)
keep_omitted-same null = refl
keep_omitted-same (boolean b) = refl
keep_omitted-same (number n) = refl
keep_omitted-same (text t) = refl
keep_omitted-same (array xs) = refl

-- Each of the fields is what `current` has under its key.
Agrees : Fields → Value → Type 0
Agrees end current = Unit
Agrees (field k v fs) current = (get k current ≡ v) × Agrees fs current

Agrees-field :
    (k : Text) (v : Value) (fs gs : Fields)
    → has_field k fs ≡ false
    → Agrees fs (object gs)
    → Agrees fs (object (field k v gs))
unfolding has_field find_field Agrees
Agrees-field k v end gs h a = tt
Agrees-field k v (field j w fs) gs h a = (
  ground (arith, a.0, text_eq_iff j k, text_eq_iff k j),
  Agrees-field k v fs gs (ground arith) a.1,
)

Agrees-self : (fs : Fields) → unique_keys fs ≡ true → Agrees fs (object fs)
unfolding unique_keys Agrees find_field
Agrees-self end h = tt
Agrees-self (field k v fs) h = (
  rw (text_eq_refl k) refl,
  Agrees-field k v fs fs (ground arith) (Agrees-self fs (ground arith)),
)

restored-cons :
    (x m : Value) (xs : Items) (r : Value → Restored Value) (rest : Restored Items)
    → m ≡ x
    → r x ≡ restored x
    → rest ≡ restored xs
    → with_two cons (with_one (keep_omitted m) (r m)) rest ≡ restored (cons x xs)
restored-cons x m xs r rest e f g =
    rw (e, f, g) (ap (λ v. restored (cons v xs)) (keep_omitted-same x))

mutual
  unfolding redact restore is_sound Agrees append count

  restore-redact_at : (v : Value) → is_sound v ≡ true → restore (redact v) v ≡ restored v
  restore-redact_at null h = refl
  restore-redact_at (boolean b) h = refl
  restore-redact_at (number n) h = refl
  restore-redact_at (text t) h = refl
  restore-redact_at (array xs) h = ap (with_one array) (restore_items-redact xs nil h (λ t k. refl))
  restore-redact_at (object fs) h = ap (with_one object) (
      let (keys, rest) = both_true (unique_keys fs) (fields_sound fs) h in
      restore_fields-redact fs (object fs) (Agrees-self fs keys) rest)

  restore_items-redact :
      (xs pre : Items)
      → are_sound xs ≡ true
      → IsApart pre xs
      → restore_items (redact_items xs) (array (append pre xs)) (count pre) ≡ restored xs
  restore_items-redact nil pre h a = refl
  restore_items-redact (cons x xs) pre h a =
      let (entry, rest) = both_true (is_addressed x xs && is_sound x) (are_sound xs) h in
      let (addressed, sound) = both_true (is_addressed x xs) (is_sound x) entry in
      let located : match_entry (redact x) (array (append pre (cons x xs))) (count pre) ≡ x =
        match_entry-redact x _ xs (count pre) addressed ∙ match_entry-append pre xs x addressed a in
      let first = restore-redact_at x sound in
      let later = restore_items-redact xs (snoc pre x) rest (IsApart-snoc pre x xs addressed a) in
      restored-cons x _ xs (λ m. restore (redact x) m) _ located first
        (rw (append-snoc pre xs x, count-snoc pre x) at later)

  restore_fields-redact :
      (fs : Fields) (current : Value)
      → Agrees fs current
      → fields_sound fs ≡ true
      → restore_fields (redact_fields fs) current ≡ restored fs
  restore_fields-redact end current a h = refl
  restore_fields-redact (field k v fs) current a h =
      let (own, rest) =
        both_true (if is_secret k then is_full v else is_sound v) (fields_sound fs) h in
      let first = restore-redact_at v in
      let later = restore_fields-redact fs current a.1 rest in
      elim (Bool-cases (is_secret k)) [
        | inl e ↦ rw (e, a.0, unmask-mask v k (rw e at own), later) refl
        | inr e ↦ rw (e, a.0, first (rw e at own), later) refl
      ]

-- A sound configuration that a client reads, with its secrets masked, and sends back as it is comes
-- out as it was stored.
pub restore-redact : (v : Value) → is_sound v ≡ true → restore (redact v) v ≡ restored v
restore-redact v h = restore-redact_at v h
