-- ===== src/ConfigApi/Applied.antt =====
-- What a request that changes the configuration leaves behind (backend/app/api/config.py).
use joulenap.Prelude.{
  ◌≡◌, refl, ◌∙◌, sym, ◌⊎◌, ◌≢◌, inl, inr, Bool, true, ◌&&◌, ◌||◌, Option, some, List, [], ◌∷◌,
  Text, text_eq, text_eq_sound, is_empty, lookup, Dict, All, Bool-cases, Option-cases, both_true,
  if◌then◌else◌,
}
use joulenap.Config.{Config}
use joulenap.Tree.{
  Value, Fields, object, null, boolean, number, text, array, find_field, get, set_field, has_field,
}
use joulenap.Tree.Lookup.{find_field-set_field, find_field-missing}
use joulenap.Secrets.{RedactionError, Restored, restored, rejected, restore, deep_merge}
use joulenap.Scheduler.{CronLibrary}
use joulenap.MacAddress.{normalize_mac}
use joulenap.ConfigApi.{
  app_key, auth_key, signing_key, api_key, hash_key, username_key, manage_auth, manage_app,
  if_there, enforce_server_managed, last_by_id, all_pass, crons, macs, is_kept, is_some, App,
  Answer, applied, unprocessable, unwritable, is_cron, check_route_crons, check_pbs_macs,
  replace_and_rearm, persist, merged_with, apply_config,
}

-- What the server owns is as it is stored, where it is there at all.
pub record IsManaged (v stored : Value) : Type 0 where
  pub signing :
      (app : Fields)
      → get app_key v ≡ object app
      → find_field signing_key app ≡ get signing_key (get app_key stored)
  pub api :
      (app : Fields)
      → get app_key v ≡ object app
      → find_field api_key app ≡ get api_key (get app_key stored)
  pub login :
      (app auth : Fields)
      → get app_key v ≡ object app
      → find_field auth_key app ≡ object auth
      → (find_field hash_key auth ≡ get hash_key (get auth_key (get app_key stored)))
        × (find_field username_key auth ≡ get username_key (get auth_key (get app_key stored)))

find_field-if_there :
    (k j : Text) (f : Value → Value) (fs : Fields)
    → f null ≡ null
    → find_field j (if_there k f fs)
      ≡ (if text_eq k j then f (find_field j fs) else find_field j fs)
find_field-if_there k j f fs n = elim (Bool-cases (has_field k fs)) [
  | inl h ↦
      rw (h, find_field-set_field k j (f (find_field k fs)) fs)
        (elim (Bool-cases (text_eq k j)) [
          | inl e ↦ rw (e, text_eq_sound k j e) refl
          | inr e ↦ rw e refl
        ])
  | inr h ↦ rw h (elim (Bool-cases (text_eq k j)) [
    | inl e ↦
        let gone : find_field j fs ≡ null =
          find_field-missing j fs (rw (text_eq_sound k j e) at h) in
        rw (e, gone, n) refl
    | inr e ↦ rw e refl
  ])
]

manage_auth-inv :
    (stored v : Value) (auth : Fields)
    → manage_auth stored v ≡ object auth
    → (find_field hash_key auth ≡ get hash_key stored)
      × (find_field username_key auth ≡ get username_key stored)
unfolding text_eq
manage_auth-inv stored (object fs) auth h =
    let e : set_field username_key (get username_key stored)
          (set_field hash_key (get hash_key stored) fs)
        ≡ auth =
      cc in
    rw (← e) (
      find_field-set_field username_key hash_key (get username_key stored) _
          ∙ find_field-set_field hash_key hash_key (get hash_key stored) fs,
      find_field-set_field username_key username_key (get username_key stored) _,
    )
manage_auth-inv stored null auth h = absurd (cc)
manage_auth-inv stored (boolean b) auth h = absurd (cc)
manage_auth-inv stored (number n) auth h = absurd (cc)
manage_auth-inv stored (text t) auth h = absurd (cc)
manage_auth-inv stored (array xs) auth h = absurd (cc)

-- The parts of what `manage_app` makes of a dict.
record IsApp (stored : Value) (app : Fields) : Type 0 where
  signing : find_field signing_key app ≡ get signing_key stored
  api : find_field api_key app ≡ get api_key stored
  login :
      (auth : Fields)
      → find_field auth_key app ≡ object auth
      → (find_field hash_key auth ≡ get hash_key (get auth_key stored))
        × (find_field username_key auth ≡ get username_key (get auth_key stored))

manage_app-IsApp :
    (stored v : Value) (app : Fields) → manage_app stored v ≡ object app → IsApp stored app
unfolding text_eq
manage_app-IsApp stored (object fs) app h =
    let signed : Fields = set_field signing_key (get signing_key stored) fs in
    let keyed : Fields = set_field api_key (get api_key stored) signed in
    let renew : Value → Value = manage_auth (get auth_key stored) in
    let e : if_there auth_key (manage_auth (get auth_key stored)) keyed ≡ app = cc in
    rw (← e) (record {
      signing =
          find_field-if_there auth_key signing_key renew keyed refl
          ∙ find_field-set_field api_key signing_key (get api_key stored) signed
          ∙ find_field-set_field signing_key signing_key (get signing_key stored) fs;
      api =
          find_field-if_there auth_key api_key renew keyed refl
          ∙ find_field-set_field api_key api_key (get api_key stored) signed;
      login = λ auth k.
          manage_auth-inv (get auth_key stored) (find_field auth_key keyed) auth
            (sym (find_field-if_there auth_key auth_key renew keyed refl) ∙ k);
    })
manage_app-IsApp stored null app h = absurd (cc)
manage_app-IsApp stored (boolean b) app h = absurd (cc)
manage_app-IsApp stored (number n) app h = absurd (cc)
manage_app-IsApp stored (text t) app h = absurd (cc)
manage_app-IsApp stored (array xs) app h = absurd (cc)

enforce-IsApp :
    (v stored : Value) (app : Fields)
    → get app_key (enforce_server_managed v stored) ≡ object app
    → IsApp (get app_key stored) app
unfolding enforce_server_managed text_eq
enforce-IsApp (object fs) stored app h =
    manage_app-IsApp (get app_key stored) (find_field app_key fs) app
      (sym (find_field-if_there app_key app_key (manage_app (get app_key stored)) fs refl) ∙ h)
enforce-IsApp null stored app h = absurd (cc)
enforce-IsApp (boolean b) stored app h = absurd (cc)
enforce-IsApp (number n) stored app h = absurd (cc)
enforce-IsApp (text t) stored app h = absurd (cc)
enforce-IsApp (array xs) stored app h = absurd (cc)

enforce-IsManaged : (v stored : Value) → IsManaged (enforce_server_managed v stored) stored
enforce-IsManaged v stored = record {
  signing = λ app h. (enforce-IsApp v stored app h).signing;
  api = λ app h. (enforce-IsApp v stored app h).api;
  login = λ app auth h k. (enforce-IsApp v stored app h).login auth k;
}

-- An entry is empty, or as it was, or passes.
abbrev pub IsFine : (Text → Bool) → Dict Text → Text × Text → Type 0
IsFine good old e = (is_empty e.1 ≡ true) ⊎ ((lookup e.0 old ≡ some e.1) ⊎ (good e.1 ≡ true))

fine :
    (good : Text → Bool) (old : Dict Text) (id t : Text)
    → (is_empty t || is_kept (lookup id old) t || good t) ≡ true
    → IsFine good old (id, t)
fine good old id t h = elim (Bool-cases (is_empty t)) [
  | inl e ↦ inl e
  | inr e ↦ inr (elim (Option-cases (lookup id old)) [
    | inl n ↦ inr (rw (e, n) at h)
    | inr (o, m) ↦ elim (Bool-cases (text_eq t o)) [
      | inl q ↦ inl (rw (text_eq_sound t o q) m)
      | inr q ↦ inr (rw (e, m, q) at h)
    ]
  ])
]

all_pass-IsFine :
    (good : Text → Bool) (old : Dict Text) (entries : List (Text × Text))
    → all_pass good old entries ≡ true
    → All (IsFine good old) entries
unfolding all_pass
all_pass-IsFine good old [] h = tt
all_pass-IsFine good old ((id, t) ∷ rest) h =
    let (here, later) = both_true _ _ h in
    (fine good old id t here, all_pass-IsFine good old rest later)

module _ {Trigger : Type 0} (lib : CronLibrary Trigger) (dump : Config → Fields)
    (validate : Value → Option Config) where
  -- A configuration that was taken over: the merged document passed validation, what the server owns
  -- is as it was, and each schedule and each MAC that is new can be read.
  pub record IsTaken (current new : Config) : Type 0 where
    pub document : (v : Value) × (validate v ≡ some new) × IsManaged v (object (dump current))
    pub schedules : All (IsFine (is_cron lib) (last_by_id [] (crons current))) (crons new)
    pub addresses :
        All (IsFine (λ m. is_some (normalize_mac m)) (last_by_id [] (macs current))) (macs new)

  pub record IsApplied (s : App) (answer : Answer) (s' : App) : Type 0 where
    pub refused : answer ≡ unprocessable → s' ≡ s
    pub taken :
        answer ≢ unprocessable
        → (new : Config) × IsTaken s.memory new
          × (s'.memory ≡ new)
          × ((answer ≡ applied) × (s'.disk ≡ new) × (s'.armed ≡ new)
              ⊎ ((answer ≡ unwritable) × (s'.disk ≡ s.disk) × (s'.armed ≡ s.armed)))

  refused-IsApplied : (s : App) → IsApplied s unprocessable s
  refused-IsApplied s = record { refused = λ e. refl; taken = λ n. absurd (n refl) }

  replace-IsApplied :
      (writable : Bool) (s : App) (new : Config)
      → IsTaken s.memory new
      → IsApplied s (replace_and_rearm writable new s).0 (replace_and_rearm writable new s).1
  unfolding replace_and_rearm
  replace-IsApplied writable s new t = elim (Bool-cases writable) [
    | inl w ↦
        rw w (record {
          refused = λ e. absurd (cc);
          taken = λ n. (new, t, refl, inl (refl, refl, refl));
        })
    | inr w ↦
        rw w (record {
          refused = λ e. absurd (cc);
          taken = λ n. (new, t, refl, inr (refl, refl, refl));
        })
  ]

  persist-IsApplied :
      (writable : Bool) (s : App) (v : Value)
      → IsManaged v (object (dump s.memory))
      → IsApplied s (persist lib writable (validate v) s).0 (persist lib writable (validate v) s).1
  unfolding persist check_route_crons check_pbs_macs
  persist-IsApplied writable s v m = elim (Option-cases (validate v)) [
    | inl n ↦ rw n (refused-IsApplied s)
    | inr (new, e) ↦
        elim (Bool-cases (check_route_crons lib new s.memory && check_pbs_macs new s.memory)) [
          | inl ok ↦
              let (c, d) = both_true _ _ ok in
              rw (e, ok)
                (replace-IsApplied writable s new (record {
                  document = (v, e, m);
                  schedules = all_pass-IsFine _ _ (crons new) c;
                  addresses = all_pass-IsFine _ _ (macs new) d;
                }))
          | inr bad ↦ rw (e, bad) (refused-IsApplied s)
        ]
  ]

Restored-cases :
    (r : Restored Value)
    → ((v : Value) × (r ≡ restored v)) ⊎ ((e : RedactionError) × (r ≡ rejected e))
Restored-cases (restored v) = inl (v, refl)
Restored-cases (rejected e) = inr (e, refl)

-- A request to change the configuration that is refused leaves everything as it was. One that is not
-- takes over a document that passed validation, in which the signing key, the API key and the login
-- are the stored ones and each schedule and MAC that is new can be read. It is then in memory, on
-- disk and armed; or, where the file cannot be written, in memory alone, which the answer calls an
-- error.
pub apply_config-IsApplied :
    {Trigger : Type 0} (lib : CronLibrary Trigger) (dump : Config → Fields)
    (validate : Value → Option Config) (writable : Bool) (incoming : Fields) (s : App)
    → IsApplied lib dump validate s
        (apply_config lib dump validate writable incoming s).0
        (apply_config lib dump validate writable incoming s).1
unfolding apply_config merged_with
apply_config-IsApplied lib dump validate writable incoming s =
    elim (Restored-cases
      (restore (object (deep_merge (dump s.memory) incoming)) (object (dump s.memory)))) [
        | inl (v, e) ↦
            rw (apply_config, merged_with, e)
              (persist-IsApplied lib dump validate writable s
                (enforce_server_managed v (object (dump s.memory)))
                (enforce-IsManaged v (object (dump s.memory))))
        | inr (x, e) ↦ rw (apply_config, merged_with, e) (refused-IsApplied lib dump validate s)
      ]
