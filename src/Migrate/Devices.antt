-- ===== src/Migrate/Devices.antt =====
-- The devices of a migrated configuration (backend/app/config_migrate.py).
use joulenap.Prelude.{
  ℕ, Bool, true, false, not, ◌&&◌, ◌||◌, List, [], ◌∷◌, Text, codes, is_empty, leb, ◌==◌,
  if◌then◌else◌, is_digit, strip, lower, length,
}
use joulenap.Tree.{Value, Fields, boolean, number, text, object, end, field, truthy, find_field}
use joulenap.Scheduler.{split}
use joulenap.Migrate.{get_or, as_text, all_digits, section}

abbrev is_alnum : ℕ → Bool
is_alnum c = is_digit c || (leb b'a' c && leb c b'z')

abbrev is_slug : ℕ → Bool
is_slug c = is_alnum c || (c == b'.' || (c == b'_' || c == b'-'))

-- `_SLUG_STRIP.sub("-", ...)`; the flag says whether the character before was replaced.
unfoldable pub strip_slug : Bool → Text → Text
strip_slug gone [] = []
strip_slug gone (c ∷ t) =
    let kept = strip_slug false t in
    let rest = strip_slug true t in
    if is_slug c then c ∷ kept else (if gone then rest else b'-' ∷ rest)

-- `_SLUG_LEAD.sub("", ...)`
unfoldable pub strip_lead : Text → Text
strip_lead [] = []
strip_lead (c ∷ t) = let rest = strip_lead t in if is_alnum c then c ∷ t else rest

-- `_slug`
unfoldable pub slug : Value → Text
unfolding strip_slug strip_lead strip lower
slug v = strip_lead (strip_slug false (lower (strip (as_text v))))

abbrev is_part : Text → Bool
is_part t = not (is_empty t) && (leb (length t) 3 && all_digits t)

-- `_IPV4`
abbrev pub is_ipv4 : List Text → Bool
is_ipv4 (a ∷ b ∷ c ∷ d ∷ []) = is_part a && (is_part b && (is_part c && is_part d))
is_ipv4 _ = false

abbrev first_of : List Text → Text
first_of [] = []
first_of (t ∷ ts) = t

-- `_host_label`
unfoldable pub host_label : Value → Text
unfolding split strip
host_label host =
    let parts = split b'.' (strip (first_of (split b':' (as_text host)))) in
    if is_ipv4 parts then [] else first_of parts

-- `_device_id`
unfoldable pub device_id : Value → Value → Text → Text
unfolding slug host_label
device_id preferred host fallback =
    let name = slug preferred in
    let label = slug (text (host_label host)) in
    if not (is_empty name) then name else (if not (is_empty label) then label else fallback)

-- `_pve_device`
unfoldable pub pve_device : Fields → Text → Text → Fields
pve_device pve pve_id pbs_id =
    let storage = find_field (codes "storage_id") pve in
    field (codes "id") (text pve_id) (
      field (codes "host") (get_or (codes "host") (text []) pve) (
        field (codes "port") (get_or (codes "port") (number 8006) pve) (
          field (codes "verify_tls") (get_or (codes "verify_tls") (boolean false) pve) (
            field (codes "api_token_id") (get_or (codes "api_token_id") (text []) pve) (
              field (codes "api_token_secret") (get_or (codes "api_token_secret") (text []) pve) (
                field (codes "storages")
                  (object (if truthy storage then field pbs_id storage end else end)) end))))))

-- `_pbs_device`
unfoldable pub pbs_device : Fields → Text → Fields → Fields
pbs_device pbs pbs_id backup =
    let mac = get_or (codes "mac") (text []) pbs in
    let external = section backup (codes "external") in
    let empty = text [] in
    field (codes "id") (text pbs_id) (
      field (codes "host") (get_or (codes "host") empty pbs) (
        field (codes "port") (get_or (codes "port") (number 8007) pbs) (
          field (codes "datastore") (get_or (codes "datastore") empty pbs) (
            field (codes "fingerprint") (get_or (codes "fingerprint") empty pbs) (
              field (codes "api_token_id") (get_or (codes "api_token_id") empty pbs) (
                field (codes "api_token_secret") (get_or (codes "api_token_secret") empty pbs) (
                  field (codes "managed_power") (boolean (truthy mac)) (
                    field (codes "mac") mac (
                      field (codes "wol_broadcast_iface")
                        (get_or (codes "wol_broadcast_iface") empty pbs)
                        (field (codes "wait_timeout")
                          (get_or (codes "wait_timeout") (number 180) pbs)
                          (field (codes "wol_retries") (get_or (codes "wol_retries") (number 2) pbs)
                            (field (codes "poweroff_task_wait")
                              (get_or (codes "poweroff_task_wait") (number 600) pbs)
                              (field (codes "ssh_user")
                                (get_or (codes "ssh_user") (text (codes "root")) pbs)
                                (field (codes "ssh_key_path")
                                  (get_or (codes "ssh_key_path")
                                    (text (codes "/app/data/id_ed25519")) pbs)
                                  (field (codes "external")
                                    (object (
                                      field (codes "first_task_wait")
                                        (get_or (codes "first_task_wait") (number 900) external)
                                        (field (codes "idle_wait")
                                          (get_or (codes "idle_wait") (number 300) external) end)))
                                    end)))))))))))))))
