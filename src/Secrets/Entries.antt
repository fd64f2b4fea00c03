-- ===== src/Secrets/Entries.antt =====
-- Which stored entry a masked entry of a list is matched with (backend/app/config.py).
use joulenap.Prelude.{
  ◌≡◌, refl, sym, ap, ◌∙◌, ℕ, suc, true, false, ◌||◌, Text, text_eq, text_eq_refl, text_eq_sound,
  ◌≢◌, Bool-cases, inl, inr, arith,
}
use joulenap.Tree.{
  Value, Items, Fields, null, boolean, number, text, array, object, nil, cons, end, field,
  has_field, find_field, nth, value_eq,
}
use joulenap.Tree.Lookup.{find_field-missing}
use joulenap.Secrets.{is_secret, redact, redact_fields, id_key, find_entry, match_entry}
use joulenap.Secrets.Sound.{has_id, is_taken, is_text, text_of, is_addressed}

unfoldable pub append : Items → Items → Items
append nil ys = ys
append (cons x xs) ys = cons x (append xs ys)

unfoldable pub count : Items → ℕ
count nil = 0
count (cons x xs) = suc (count xs)

pub snoc : Items → Value → Items
unfolding append
snoc xs x = append xs (cons x nil)

pub append-snoc : (xs ys : Items) (x : Value) → append (snoc xs x) ys ≡ append xs (cons x ys)
unfolding append snoc
append-snoc nil ys x = refl
append-snoc (cons y xs) ys x = ap (cons y) (append-snoc xs ys x)

pub count-snoc : (xs : Items) (x : Value) → count (snoc xs x) ≡ suc (count xs)
unfolding append snoc count
count-snoc nil x = refl
count-snoc (cons y xs) x = ap suc (count-snoc xs x)

is_taken-snoc :
    (t : Text) (xs : Items) (x : Value) → is_taken t (snoc xs x) ≡ (is_taken t xs || has_id t x)
unfolding append snoc
is_taken-snoc t nil x = ground arith
is_taken-snoc t (cons y xs) x = ground (arith, is_taken-snoc t xs x)

nth-append : (xs ys : Items) (x : Value) → nth (count xs) (append xs (cons x ys)) ≡ x
unfolding nth append count
nth-append nil ys x = refl
nth-append (cons y xs) ys x = nth-append xs ys x

find_entry-append :
    (t : Text) (xs ys : Items) (x : Value)
    → is_taken t xs ≡ false
    → has_id t x ≡ true
    → find_entry (text t) (append xs (cons x ys)) ≡ x
unfolding find_entry append
find_entry-append t nil ys x h k = ground arith
find_entry-append t (cons y xs) ys x h k = ground (arith, find_entry-append t xs ys x)

-- No entry of `ys` has the id of an entry before it.
abbrev pub IsApart : Items → Items → Type 0
IsApart xs ys = (t : Text) → is_taken t ys ≡ true → is_taken t xs ≡ false

value_eq_text : (v : Value) (t : Text) → value_eq v (text t) ≡ true → v ≡ text t
unfolding value_eq
value_eq_text (text s) t h = ap text (text_eq_sound s t h)
value_eq_text null t h = absurd (cc)
value_eq_text (boolean b) t h = absurd (cc)
value_eq_text (number n) t h = absurd (cc)
value_eq_text (array xs) t h = absurd (cc)
value_eq_text (object fs) t h = absurd (cc)

is_text_of : (v : Value) → is_text v ≡ true → v ≡ text (text_of v)
is_text_of (text s) h = refl
is_text_of null h = absurd (cc)
is_text_of (boolean b) h = absurd (cc)
is_text_of (number n) h = absurd (cc)
is_text_of (array xs) h = absurd (cc)
is_text_of (object fs) h = absurd (cc)

text_not_null : {t : Text} → null ≢ text t
text_not_null e = cc

value_eq_refl : (t : Text) → value_eq (text t) (text t) ≡ true
unfolding value_eq
value_eq_refl t = text_eq_refl t

addressed-taken :
    (x : Value) (xs : Items) (t : Text)
    → is_addressed x xs ≡ true
    → has_id t x ≡ true
    → is_taken t xs ≡ false
addressed-taken (object fs) xs t a h =
    let e = value_eq_text (find_field id_key fs) t h in
    elim (Bool-cases (has_field id_key fs)) [
      | inl y ↦ let b = rw (y, e) at a in ground arith
      | inr n ↦ absurd (text_not_null (sym (find_field-missing id_key fs n) ∙ e))
    ]
addressed-taken null xs t a h = absurd (cc)
addressed-taken (boolean b) xs t a h = absurd (cc)
addressed-taken (number n) xs t a h = absurd (cc)
addressed-taken (text s) xs t a h = absurd (cc)
addressed-taken (array ys) xs t a h = absurd (cc)

pub IsApart-snoc :
    (pre : Items) (x : Value) (xs : Items)
    → is_addressed x xs ≡ true
    → IsApart pre (cons x xs)
    → IsApart (snoc pre x) xs
IsApart-snoc pre x xs a h t k = rw (is_taken-snoc t pre x) (elim (Bool-cases (has_id t x)) [
  | inl e ↦ absurd (ground (arith, addressed-taken x xs t a))
  | inr e ↦ ground (arith, h t)
])

pub match_entry-append :
    (pre xs : Items) (x : Value)
    → is_addressed x xs ≡ true
    → IsApart pre (cons x xs)
    → match_entry x (array (append pre (cons x xs))) (count pre) ≡ x
unfolding match_entry
match_entry-append pre xs (object fs) a h = elim (Bool-cases (has_field id_key fs)) [
  | inl y ↦
      let t : Text = text_of (find_field id_key fs) in
      let e = is_text_of (find_field id_key fs) (let b = rw y at a in ground arith) in
      let mine : has_id t (object fs) ≡ true = rw e (value_eq_refl t) in
      rw (y, e) (find_entry-append t pre xs (object fs) (h t (ground arith)) mine)
  | inr n ↦ rw n (nth-append pre xs (object fs))
]
match_entry-append pre xs null a h = nth-append pre xs null
match_entry-append pre xs (boolean b) a h = nth-append pre xs (boolean b)
match_entry-append pre xs (number n) a h = nth-append pre xs (number n)
match_entry-append pre xs (text s) a h = nth-append pre xs (text s)
match_entry-append pre xs (array ys) a h = nth-append pre xs (array ys)

has_field-redact : (k : Text) (fs : Fields) → has_field k (redact_fields fs) ≡ has_field k fs
unfolding has_field redact
has_field-redact k end = refl
has_field-redact k (field j v fs) = ap (λ b. text_eq j k || b) (has_field-redact k fs)

find_field-redact :
    (k : Text) (fs : Fields)
    → is_secret k ≡ false
    → find_field k (redact_fields fs) ≡ redact (find_field k fs)
unfolding find_field redact
find_field-redact k end h = refl
find_field-redact k (field j v fs) h = elim (Bool-cases (text_eq j k)) [
  | inl e ↦ rw (e, (rw (← text_eq_sound j k e) at h)) refl
  | inr e ↦ rw e (find_field-redact k fs h)
]

id_is_open : is_secret id_key ≡ false
unfolding is_secret text_eq
id_is_open = refl

pub match_entry-redact :
    (x cur : Value) (xs : Items) (i : ℕ)
    → is_addressed x xs ≡ true
    → match_entry (redact x) cur i ≡ match_entry x cur i
unfolding match_entry redact
match_entry-redact (object fs) (array cs) xs i a = elim (Bool-cases (has_field id_key fs)) [
  | inl y ↦
      let e = is_text_of (find_field id_key fs) (let b = rw y at a in ground arith) in
      rw (has_field-redact id_key fs, y, find_field-redact id_key fs id_is_open, e) refl
  | inr n ↦ rw (has_field-redact id_key fs, n) refl
]
match_entry-redact (object fs) _ xs i a = refl
match_entry-redact null cur xs i a = refl
match_entry-redact (boolean b) cur xs i a = refl
match_entry-redact (number n) cur xs i a = refl
match_entry-redact (text t) cur xs i a = refl
match_entry-redact (array ys) (array zs) xs i a = refl
match_entry-redact (array ys) _ xs i a = refl
