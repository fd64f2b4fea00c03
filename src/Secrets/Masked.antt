-- ===== src/Secrets/Masked.antt =====
-- What a client sees of the secrets of a configuration (backend/app/config.py, `redact`).
use joulenap.Prelude.{
  [], ◌∷◌, ◌≡◌, refl, Bool, true, false, not, ◌&&◌, ◌||◌, text_eq, Bool-cases, inl, inr,
  if◌then◌else◌, arith,
}
use joulenap.Tree.{
  Value, Items, Fields, null, boolean, number, text, array, object, nil, cons, end, field, truthy,
}
use joulenap.Secrets.{
  is_secret, redacted, mask_one, mask_items, mask, redact, redact_items, redact_fields,
}

-- The placeholder, or nothing.
abbrev is_blank : Value → Bool
is_blank (text t) = text_eq t redacted || not (truthy (text t))
is_blank v = not (truthy v)

abbrev all_blank : Items → Bool
all_blank nil = true
all_blank (cons x xs) = is_blank x && all_blank xs

abbrev tells_nothing : Value → Bool
tells_nothing (array xs) = all_blank xs
tells_nothing v = is_blank v

-- Every secret, at any depth, is the placeholder or empty.
unfoldable mutual
  pub is_masked : Value → Bool
  is_masked (array xs) = are_masked xs
  is_masked (object fs) = fields_masked fs
  is_masked v = true

  are_masked : Items → Bool
  are_masked nil = true
  are_masked (cons x xs) = is_masked x && are_masked xs

  fields_masked : Fields → Bool
  fields_masked end = true
  fields_masked (field k v fs) =
      let inner = is_masked v in
      (if is_secret k then tells_nothing v else inner) && fields_masked fs

mask_items_lem : (xs : Items) → all_blank (mask_items xs) ≡ true
unfolding mask_items mask_one text_eq
mask_items_lem nil = refl
mask_items_lem (cons x xs) = rw (mask_one_lem x, mask_items_lem xs) refl
  where
    mask_one_lem : (v : Value) → is_blank (mask_one v) ≡ true
    mask_one_lem null = refl
    mask_one_lem (boolean true) = refl
    mask_one_lem (boolean false) = refl
    mask_one_lem (number n) = ground arith
    mask_one_lem (text []) = refl
    mask_one_lem (text (c ∷ cs)) = refl
    mask_one_lem (array nil) = refl
    mask_one_lem (array (cons x xs)) = refl
    mask_one_lem (object end) = refl
    mask_one_lem (object (field k v fs)) = refl

mask_lem : (v : Value) → tells_nothing (mask v) ≡ true
unfolding mask mask_one text_eq
mask_lem null = refl
mask_lem (boolean true) = refl
mask_lem (boolean false) = refl
mask_lem (number n) = ground arith
mask_lem (text []) = refl
mask_lem (text (c ∷ cs)) = refl
mask_lem (array xs) = mask_items_lem xs
mask_lem (object end) = refl
mask_lem (object (field k v fs)) = refl

mutual
  unfolding redact is_masked

  redact-masked_at : (v : Value) → is_masked (redact v) ≡ true
  redact-masked_at null = refl
  redact-masked_at (boolean b) = refl
  redact-masked_at (number n) = refl
  redact-masked_at (text t) = refl
  redact-masked_at (array xs) = redact_items-masked xs
  redact-masked_at (object fs) = redact_fields-masked fs

  redact_items-masked : (xs : Items) → are_masked (redact_items xs) ≡ true
  redact_items-masked nil = refl
  redact_items-masked (cons x xs) = rw (redact-masked_at x, redact_items-masked xs) refl

  redact_fields-masked : (fs : Fields) → fields_masked (redact_fields fs) ≡ true
  redact_fields-masked end = refl
  redact_fields-masked (field k v fs) =
      let inner = redact-masked_at v in
      let later = redact_fields-masked fs in
      elim (Bool-cases (is_secret k)) [
        | inl e ↦ rw (e, mask_lem v, later) refl
        | inr e ↦ rw (e, inner, later) refl
      ]

-- In what the API sends of any configuration, every value under a secret's key, at any depth, is
-- the placeholder or empty.
pub redact-is_masked : (v : Value) → is_masked (redact v) ≡ true
redact-is_masked v = redact-masked_at v
