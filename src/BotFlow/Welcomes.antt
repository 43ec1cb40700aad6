-- ===== src/BotFlow/Welcomes.antt =====
-- `getConfig` and `updateConfig` of src/api/services/welcome-message.service.ts, on the tables that the
-- bot's `saveFlow` writes too.
use lydia_bg_back.Prelude.{
  Text, List, [], Bool, true, false, not, ◌&&◌, ◌≡◌, ◌≢◌, ◌⊎◌, refl, ap, subst, ◌∙◌, Option, none,
  some, inl, inr, is_empty, trim, eq_refl, if◌then◌else◌, bad_request, HttpError, Result, ok, err,
  Bool-cases, Option-cases,
}
use lydia_bg_back.Json.{Value, str}
use lydia_bg_back.Table.{find_row, find-update_row, find-push_row}
use lydia_bg_back.BotFlow.Flows.{
  Welcome, Config, welcome_key, find_instance, is_flag, flag_of, set_welcome, upsert_welcome,
}

-- The body of a request; a missing field is undefined.
pub record WelcomeData : Type 0 where
  pub enabled : Option Value
  pub message : Option Value

-- What both calls return, but for the name.
pub record WelcomeView : Type 0 where
  pub enabled : Bool
  pub message : Text

-- `data.message !== undefined && typeof data.message !== 'string'`, negated
abbrev pub is_text : Option Value → Bool
is_text none = true
is_text (some (str t)) = true
is_text (some v) = false

abbrev pub text_or : Text → Option Text → Text
text_or d none = d
text_or d (some t) = t

abbrev pub view_of : Option Welcome → WelcomeView
view_of none = record { enabled = false; message = [] }
view_of (some w) = record { enabled = w.enabled; message = text_or [] w.message }

abbrev pub flag_or : Bool → Option Bool → Bool
flag_or d none = d
flag_or d (some b) = b

-- `data.message.trim()`, or the message as it is
unfoldable pub new_message : Option Value → Text → Text
unfolding trim
new_message (some (str t)) old = trim t
new_message _ old = old

unfoldable pub get_config : Text → Config → Result WelcomeView
get_config name cfg = elim (find_instance name cfg) [
  | err thrown ↦ err thrown
  | ok id ↦ ok (view_of (find_row welcome_key id cfg.welcomes))
]

-- An automation without a text is not turned on.
unfoldable pub store_welcome : Text → WelcomeView → Config → Result WelcomeView × Config
unfolding upsert_welcome
store_welcome id v cfg =
    if v.enabled && is_empty v.message
    then (err bad_request, cfg)
    else (ok v, record cfg { welcomes = upsert_welcome id v.enabled v.message cfg.welcomes })

abbrev pub patched : WelcomeData → WelcomeView → WelcomeView
patched body old = record {
  enabled = flag_or old.enabled (flag_of body.enabled);
  message = new_message body.message old.message;
}

unfoldable pub update_config : Text → WelcomeData → Config → Result WelcomeView × Config
unfolding store_welcome new_message
update_config name body cfg =
    if not (is_flag body.enabled)
    then (err bad_request, cfg)
    else if not (is_text body.message)
    then (err bad_request, cfg)
    else elim (find_instance name cfg) [
      | err thrown ↦ (err thrown, cfg)
      | ok id ↦ store_welcome id (patched body (view_of (find_row welcome_key id cfg.welcomes))) cfg
    ]

find-upsert_welcome :
    (id : Text) (enabled : Bool) (t : Text) (ws : List Welcome)
    → view_of (find_row welcome_key id (upsert_welcome id enabled t ws))
      ≡ record { enabled = enabled; message = t }
unfolding upsert_welcome
find-upsert_welcome id enabled t ws = elim (Option-cases (find_row welcome_key id ws)) [
  | inl e ↦
      rw (upsert_welcome, e)
        (ap view_of (find-push_row welcome_key id new ws) ∙ rw (e, eq_refl id) refl)
  | inr (w, e) ↦
      rw (upsert_welcome, e)
        (ap view_of (find-update_row welcome_key id id (set_welcome enabled t) ws (λ a. refl))
          ∙ rw (e, eq_refl id) refl)
]
  where
    new : Welcome
    new = record { instance_id = id; enabled = enabled; message = some t }

Result-cases :
    {A : Type 0} (r : Result A) → ((e : HttpError) × (r ≡ err e)) ⊎ ((a : A) × (r ≡ ok a))
Result-cases (err e) = inl (e, refl)
Result-cases (ok a) = inr (a, refl)

err_ne_ok : {A : Type 0} {e : HttpError} {a : A} → err e ≢ ok a
err_ne_ok h = cc

ok_eq : {A : Type 0} {a b : A} → ok a ≡ ok b → a ≡ b
ok_eq h = cc

get_config-store_welcome :
    (name id : Text) (v view : WelcomeView) (cfg : Config)
    → find_instance name cfg ≡ ok id
    → (store_welcome id v cfg).0 ≡ ok view
    → (get_config name (store_welcome id v cfg).1 ≡ ok view)
      × ((view.enabled && is_empty view.message) ≡ false)
unfolding store_welcome get_config
get_config-store_welcome name id v view cfg found e =
    elim (Bool-cases (v.enabled && is_empty v.message)) [
      | inl t ↦ absurd (err_ne_ok (rw t at e))
      | inr t ↦
          let same : v ≡ view = ok_eq (rw t at e) in
          (
            rw t (
                rw (get_config, found)
                  (ap ok (find-upsert_welcome id v.enabled v.message cfg.welcomes ∙ same))),
            subst (λ (z : WelcomeView). (z.enabled && is_empty z.message) ≡ false) same t,
          )
    ]

-- If a call of `updateConfig` succeeds, `getConfig` then returns for that instance what the call has
-- returned, and the automation is off or its message is not empty.
pub get_config-update_config :
    (name : Text) (body : WelcomeData) (cfg : Config) (view : WelcomeView)
    → (update_config name body cfg).0 ≡ ok view
    → (get_config name (update_config name body cfg).1 ≡ ok view)
      × ((view.enabled && is_empty view.message) ≡ false)
unfolding update_config
get_config-update_config name body cfg view e = elim (Bool-cases (not (is_flag body.enabled))) [
  | inl t ↦ absurd (err_ne_ok (rw (update_config, t) at e))
  | inr t ↦ elim (Bool-cases (not (is_text body.message))) [
    | inl u ↦ absurd (err_ne_ok (rw (update_config, t, u) at e))
    | inr u ↦ elim (Result-cases (find_instance name cfg)) [
      | inl (x, p) ↦ absurd (err_ne_ok (rw (update_config, t, u, p) at e))
      | inr (id, p) ↦
          rw (update_config, t)
            (rw u (
              rw p (
                get_config-store_welcome name id
                  (patched body (view_of (find_row welcome_key id cfg.welcomes))) view cfg p
                  (rw (update_config, t, u, p) at e))))
    ]
  ]
]
