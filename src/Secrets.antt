-- ===== src/Secrets.antt =====
-- backend/app/config.py: masking the secrets of a configuration for the API, and putting them back
-- when it is sent in again. A raised `RedactionError` is a `rejected` result; what the source
-- writes into a copy in place is the result here.
pub mod Sound
mod Entries
pub mod RoundTrip
pub mod Masked
pub mod Merge
pub mod PutGet
use joulenap.Prelude.{
  ℕ, zero, suc, Bool, true, false, not, ◌&&◌, ◌||◌, List, [], ◌∷◌, Text, codes, text_eq, any,
  if◌then◌else◌,
}
use joulenap.Tree.{
  Value, Items, Fields, null, boolean, number, text, array, object, nil, cons, end, field, truthy,
  has_field, find_field, get, set_field, nth, value_eq,
}

-- `SECRET_KEYS`, in some order.
abbrev pub secret_keys : List Text
secret_keys =
    codes "secret_key"
    ∷ codes "api_key"
    ∷ codes "password_hash"
    ∷ codes "api_token_secret"
    ∷ codes "bot_token"
    ∷ codes "smtp_password"
    ∷ codes "webhook_url"
    ∷ codes "custom_urls"
    ∷ []

unfoldable pub is_secret : Text → Bool
is_secret key = any (λ k. text_eq k key) secret_keys

abbrev pub redacted : Text
redacted = codes "***REDACTED***"

unfoldable pub mask_one : Value → Value
mask_one v = if truthy v then text redacted else v

unfoldable pub mask_items : Items → Items
unfolding mask_one
mask_items nil = nil
mask_items (cons x xs) = cons (mask_one x) (mask_items xs)

-- `_mask`
unfoldable pub mask : Value → Value
unfolding mask_items mask_one
mask (array xs) = array (mask_items xs)
mask v = mask_one v

-- `redact`
unfoldable mutual
  unfolding mask

  pub redact : Value → Value
  redact (array xs) = array (redact_items xs)
  redact (object fs) = object (redact_fields fs)
  redact v = v

  pub redact_items : Items → Items
  redact_items nil = nil
  redact_items (cons x xs) = cons (redact x) (redact_items xs)

  pub redact_fields : Fields → Fields
  redact_fields end = end
  redact_fields (field k v fs) =
      let inner = redact v in field k (if is_secret k then mask v else inner) (redact_fields fs)

pub data RedactionError : Type 0 where
  unresolvable : Text → RedactionError
  mixed_list : RedactionError

pub data Restored {ℓ} (A : Type ℓ) : Type ℓ where
  restored : A → Restored A
  rejected : RedactionError → Restored A

abbrev pub with_one {ℓ} : {A B : Type ℓ} → (A → B) → Restored A → Restored B
with_one f (restored a) = restored (f a)
with_one f (rejected e) = rejected e

-- The first of two that raises ends the walk.
abbrev pub with_two {ℓ} : {A B C : Type ℓ} → (A → B → C) → Restored A → Restored B → Restored C
with_two f (restored a) (restored b) = restored (f a b)
with_two f (restored a) (rejected e) = rejected e
with_two f (rejected e) r = rejected e

abbrev is_mask : Value → Bool
is_mask (text t) = text_eq t redacted
is_mask _ = false

abbrev pub all_masks : Items → Bool
all_masks nil = true
all_masks (cons x xs) = is_mask x && all_masks xs

abbrev pub any_mask : Items → Bool
any_mask nil = false
any_mask (cons x xs) = is_mask x || any_mask xs

-- The stored value, if it is a list.
abbrev stored_list : Text → Value → Restored Value
stored_list key (array xs) = restored (array xs)
stored_list key _ = rejected (unresolvable key)

-- The stored value, unless it is None.
abbrev stored_value : Text → Value → Restored Value
stored_value key null = rejected (unresolvable key)
stored_value key v = restored v

-- `_unmask`, given the field, the value stored there, and its key.
unfoldable pub unmask : Value → Value → Text → Restored Value
unmask (array nil) current key = restored (array nil)
unmask (array (cons x xs)) current key =
    if all_masks (cons x xs)
    then stored_list key current
    else if any_mask (cons x xs)
    then rejected mixed_list
    else restored (array (cons x xs))
unmask v current key = if is_mask v then stored_value key current else restored v

abbrev pub id_key : Text
id_key = codes "id"

abbrev pub entry_has : Value → Value → Bool
entry_has id (object fs) = value_eq (find_field id_key fs) id
entry_has id _ = false

-- The first entry of that id, or None.
unfoldable pub find_entry : Value → Items → Value
find_entry id nil = null
find_entry id (cons c cs) = let rest = find_entry id cs in if entry_has id c then c else rest

-- `_match`
unfoldable pub match_entry : Value → Value → ℕ → Value
unfolding find_entry
match_entry (object fs) (array cs) i =
    if has_field id_key fs then find_entry (find_field id_key fs) cs else nth i cs
match_entry item (array cs) i = nth i cs
match_entry item _ i = null

-- The loop of `_keep_omitted_secrets`.
unfoldable pub keep_keys : List Text → Fields → Fields → Fields
keep_keys [] fs stored = fs
keep_keys (k ∷ ks) fs stored =
    keep_keys ks
      (if not (has_field k fs) && has_field k stored
        then set_field k (find_field k stored) fs
        else fs)
      stored

-- `_keep_omitted_secrets`
unfoldable pub keep_omitted : Value → Value → Value
unfolding keep_keys
keep_omitted (object stored) (object fs) = object (keep_keys secret_keys fs stored)
keep_omitted current item = item

-- `restore_secrets_from`, given the value sent in and what is stored in its place.
unfoldable mutual
  unfolding unmask match_entry keep_omitted

  pub restore : Value → Value → Restored Value
  restore (array xs) current = with_one array (restore_items xs current 0)
  restore (object fs) current = with_one object (restore_fields fs current)
  restore v current = restored v

  pub restore_items : Items → Value → ℕ → Restored Items
  restore_items nil current i = restored nil
  restore_items (cons x xs) current i =
      with_two cons
        (with_one (keep_omitted (match_entry x current i)) (restore x (match_entry x current i)))
        (restore_items xs current (suc i))

  pub restore_fields : Fields → Value → Restored Fields
  restore_fields end current = restored end
  restore_fields (field k v fs) current =
      let inner = restore v (get k current) in
      with_two (field k) (if is_secret k then unmask v (get k current) k else inner)
        (restore_fields fs current)

-- `deep_merge`
unfoldable mutual
  pub deep_merge : Fields → Fields → Fields
  deep_merge base end = base
  deep_merge base (field k v fs) =
      deep_merge (set_field k (merge_value (find_field k base) v) base) fs

  pub merge_value : Value → Value → Value
  merge_value (object base) (object fs) = object (deep_merge base fs)
  merge_value old v = v
