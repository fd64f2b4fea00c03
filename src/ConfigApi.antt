-- ===== src/ConfigApi.antt =====
-- backend/app/api/config.py, api/_config_edit.py, core/config_store.py and `enforce_server_managed`
-- of config.py: how a configuration is changed. The store keeps it in memory and on disk, and the
-- scheduler was armed with one. pydantic's dump and validation, and whether the file can be
-- written, are parameters; raised errors are answers.
pub mod Applied
use joulenap.Prelude.{
  ℕ, Bool, true, false, not, ◌&&◌, ◌||◌, Option, none, some, List, [], ◌∷◌, map, Text, codes,
  text_eq, is_empty, if◌then◌else◌, Dict, lookup, insert,
}
use joulenap.Config.{PbsDevice, Route, Config}
use joulenap.Tree.{Value, Fields, object, array, Items, find_field, get, set_field, has_field}
use joulenap.Secrets.{Restored, restored, rejected, deep_merge, restore}
use joulenap.Scheduler.{CronLibrary, build_trigger}
use joulenap.MacAddress.{normalize_mac}

abbrev pub app_key : Text
app_key = codes "app"

abbrev pub auth_key : Text
auth_key = codes "auth"

abbrev pub signing_key : Text
signing_key = codes "secret_key"

abbrev pub api_key : Text
api_key = codes "api_key"

abbrev pub hash_key : Text
hash_key = codes "password_hash"

abbrev pub username_key : Text
username_key = codes "username"

-- `auth`, given the stored one.
abbrev pub manage_auth : Value → Value → Value
manage_auth stored (object auth) = object (
    set_field username_key (get username_key stored)
      (set_field hash_key (get hash_key stored) auth))
manage_auth stored v = v

abbrev pub if_there : Text → (Value → Value) → Fields → Fields
if_there key f fs = if has_field key fs then set_field key (f (find_field key fs)) fs else fs

-- `app`, given the stored one.
abbrev pub manage_app : Value → Value → Value
manage_app stored (object app) = object (
    if_there auth_key (manage_auth (get auth_key stored))
      (set_field api_key (get api_key stored) (set_field signing_key (get signing_key stored) app)))
manage_app stored v = v

-- `enforce_server_managed`, with the stored configuration as it is dumped.
unfoldable pub enforce_server_managed : Value → Value → Value
enforce_server_managed (object fs) stored =
    object (if_there app_key (manage_app (get app_key stored)) fs)
enforce_server_managed v stored = v

abbrev pub is_kept : Option Text → Text → Bool
is_kept none t = false
is_kept (some old) t = text_eq t old

-- The last value under each id, as a dict comprehension has it.
unfoldable pub last_by_id : Dict Text → List (Text × Text) → Dict Text
last_by_id d [] = d
last_by_id d ((id, t) ∷ rest) = last_by_id (insert id t d) rest

unfoldable pub all_pass : (Text → Bool) → Dict Text → List (Text × Text) → Bool
all_pass ok old [] = true
all_pass ok old ((id, t) ∷ rest) =
    (is_empty t || is_kept (lookup id old) t || ok t) && all_pass ok old rest

abbrev pub crons : Config → List (Text × Text)
crons config = map (λ (r : Route). (r.id, r.schedule.cron)) config.routes

abbrev pub macs : Config → List (Text × Text)
macs config = map (λ (p : PbsDevice). (p.id, p.mac)) config.pbss

abbrev pub is_some {ℓ} : {A : Type ℓ} → Option A → Bool
is_some (some a) = true
is_some none = false

pub record App : Type 0 where
  pub memory : Config
  pub disk : Config
  pub armed : Config

-- 200, 422 and 500.
pub data Answer : Type 0 where
  applied unprocessable unwritable : Answer

-- `validate_cron`
abbrev pub is_cron : {Trigger : Type 0} → CronLibrary Trigger → Text → Bool
is_cron lib schedule = is_some (build_trigger lib (codes "UTC") schedule)

-- `check_pbs_macs`
unfoldable pub check_pbs_macs : Config → Config → Bool
unfolding all_pass last_by_id
check_pbs_macs new old =
    all_pass (λ m. is_some (normalize_mac m)) (last_by_id [] (macs old)) (macs new)

-- `ConfigStore.replace` and what its callers do next, where the file can be written or not.
unfoldable pub replace_and_rearm : Bool → Config → App → Answer × App
replace_and_rearm writable new s =
    if writable
    then (applied, record { memory = new; disk = new; armed = new })
    else (unwritable, record s { memory = new })

-- What an incoming document is merged to, given the stored one.
unfoldable pub merged_with : Fields → Fields → Restored Value
unfolding enforce_server_managed
merged_with stored incoming = elim (restore (object (deep_merge stored incoming)) (object stored)) [
  | restored v ↦ restored (enforce_server_managed v (object stored))
  | rejected e ↦ rejected e
]

module _ {Trigger : Type 0} (lib : CronLibrary Trigger) where
  -- `check_route_crons`
  unfoldable pub check_route_crons : Config → Config → Bool
  unfolding all_pass last_by_id
  check_route_crons new old = all_pass (is_cron lib) (last_by_id [] (crons old)) (crons new)

  -- From a validated configuration on.
  unfoldable pub persist : Bool → Option Config → App → Answer × App
  unfolding replace_and_rearm check_route_crons check_pbs_macs
  persist writable none s = (unprocessable, s)
  persist writable (some new) s =
      if check_route_crons new s.memory && check_pbs_macs new s.memory
      then replace_and_rearm writable new s
      else (unprocessable, s)

  module _ (dump : Config → Fields) (validate : Value → Option Config) (writable : Bool) where
    -- `_apply_config`
    unfoldable pub apply_config : Fields → App → Answer × App
    unfolding merged_with persist
    apply_config incoming s = elim (merged_with (dump s.memory) incoming) [
      | restored v ↦ persist writable (validate v) s
      | rejected e ↦ (unprocessable, s)
    ]

    -- `save_section`
    unfoldable pub save_section : Text → Items → App → Answer × App
    unfolding persist
    save_section section value s =
        persist writable (validate (object (set_field section (array value) (dump s.memory)))) s
