-- ===== src/Examples/SecretsCases.antt =====
-- A configuration with two devices, a token each, and the secrets of a web and a notification
-- section, read masked and sent back.
use joulenap.Prelude.{◌≡◌, refl, true, codes, text_eq}
use joulenap.Tree.{
  Value, Fields, number, text, array, object, nil, cons, end, field, find_field, has_field,
  unique_keys, value_eq,
}
use joulenap.Secrets.{
  is_secret, redact, redact_fields, restore, restored, deep_merge, unmask, rejected, mixed_list,
  redacted,
}
use joulenap.Secrets.Sound.{is_sound}
use joulenap.Secrets.RoundTrip.{restore-redact}
use joulenap.Secrets.PutGet.{restore-deep_merge}
use joulenap.Secrets.Masked.{is_masked, redact-is_masked}

abbrev device : Value → Value → Value
device id secret = object (field (codes "id") id (field (codes "api_token_secret") secret end))

abbrev urls : Value
urls = array (cons (text (codes "ntfy://a")) (cons (text (codes "ntfy://b")) nil))

abbrev stored : Fields
stored =
    field (codes "web")
      (object (field (codes "api_key") (text (codes "k")) (field (codes "port") (number 8080) end)))
      (field (codes "devices")
        (array (
          cons (device (text (codes "pve")) (text (codes "s1")))
            (cons (device (text (codes "pbs")) (text (codes "s2"))) nil)))
        (field (codes "notify") (object (field (codes "custom_urls") urls end)) end))

stored-is_sound : is_sound (object stored) ≡ true
unfolding is_sound unique_keys has_field text_eq is_secret find_field value_eq
stored-is_sound = refl

restore-redact_example : restore (redact (object stored)) (object stored) ≡ restored (object stored)
restore-redact_example = restore-redact (object stored) stored-is_sound

redact-is_masked_example : is_masked (redact (object stored)) ≡ true
redact-is_masked_example = redact-is_masked (object stored)

restore-deep_merge_example :
    restore (object (deep_merge stored (redact_fields stored))) (object stored)
    ≡ restored (object stored)
restore-deep_merge_example = restore-deep_merge stored stored-is_sound

-- A test: a list with a masked and a new entry is refused, whatever is stored.
abbrev two_hooks : Value
two_hooks = array (cons (text redacted) (cons (text (codes "ntfy://c")) nil))

mixed_test : unmask two_hooks urls (codes "custom_urls") ≡ rejected mixed_list
unfolding unmask text_eq
mixed_test = refl
