-- ===== src/Secrets/Sound.antt =====
-- Configurations that can be sent out and back (backend/app/config.py).
use joulenap.Prelude.{
  ◌≡◌, refl, Bool, true, false, not, ◌&&◌, ◌||◌, [], ◌∷◌, Text, text_eq, if◌then◌else◌, arith,
}
use joulenap.Tree.{
  Value, Items, Fields, null, boolean, number, text, array, object, nil, cons, end, field, truthy,
  has_field, find_field, unique_keys,
}
use joulenap.Secrets.{
  is_secret, mask_one, mask_items, mask, restored, all_masks, unmask, id_key, entry_has,
}

abbrev all_truthy : Items → Bool
all_truthy nil = true
all_truthy (cons x xs) = truthy x && all_truthy xs

-- A list of secrets has no empty entry.
abbrev pub is_full : Value → Bool
is_full (array xs) = all_truthy xs
is_full _ = true

-- The entry has that text for its id.
abbrev pub has_id : Text → Value → Bool
has_id t = entry_has (text t)

abbrev pub is_taken : Text → Items → Bool
is_taken t nil = false
is_taken t (cons x xs) = has_id t x || is_taken t xs

abbrev pub is_text : Value → Bool
is_text (text t) = true
is_text _ = false

abbrev pub text_of : Value → Text
text_of (text t) = t
text_of _ = []

-- An entry with an id has a text there, and no later entry has the same.
abbrev pub is_addressed : Value → Items → Bool
is_addressed (object fs) xs =
    not (has_field id_key fs)
    || is_text (find_field id_key fs) && not (is_taken (text_of (find_field id_key fs)) xs)
is_addressed _ xs = true

-- A configuration that can be sent out and back: the keys of a dict and the ids of a list are
-- unique, ids are texts, and a list of secrets has no empty entry.
unfoldable mutual
  pub is_sound : Value → Bool
  is_sound (array xs) = are_sound xs
  is_sound (object fs) = unique_keys fs && fields_sound fs
  is_sound _ = true

  pub are_sound : Items → Bool
  are_sound nil = true
  are_sound (cons x xs) = is_addressed x xs && is_sound x && are_sound xs

  pub fields_sound : Fields → Bool
  fields_sound end = true
  fields_sound (field k v fs) =
      let inner = is_sound v in (if is_secret k then is_full v else inner) && fields_sound fs

all_masks-mask_items : (xs : Items) → all_truthy xs ≡ true → all_masks (mask_items xs) ≡ true
unfolding mask_items mask_one text_eq
all_masks-mask_items nil h = refl
all_masks-mask_items (cons x xs) h = ground (arith, all_masks-mask_items xs)

pub unmask-mask : (v : Value) (key : Text) → is_full v ≡ true → unmask (mask v) v key ≡ restored v
unfolding unmask mask mask_items mask_one text_eq
unmask-mask null key h = refl
unmask-mask (boolean true) key h = refl
unmask-mask (boolean false) key h = refl
unmask-mask (number n) key h = ground arith
unmask-mask (text []) key h = refl
unmask-mask (text (c ∷ cs)) key h = refl
unmask-mask (array nil) key h = refl
unmask-mask (array (cons x xs)) key h =
    let masks = all_masks-mask_items (cons x xs) h in ground (arith, masks)
unmask-mask (object end) key h = refl
unmask-mask (object (field k v fs)) key h = refl
