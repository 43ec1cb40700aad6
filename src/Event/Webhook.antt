-- ===== src/Event/Webhook.antt =====
-- `emit` of src/api/integrations/event/webhook/webhook.controller.ts: an event goes to the address of its
-- instance and to that of the server. Case mapping and the signing of tokens are parameters; a key
-- that cannot sign makes `sign` return nothing.
use lydia_bg_back.Prelude.{
  ℕ, Text, codes, List, [], ◌∷◌, ◌++◌, Bool, true, false, not, ◌&&◌, ◌||◌, Option, none, some, map,
  filter, lookup, push, nat_eq, is_empty, contains, starts_with, ◌==◌, if◌then◌else◌,
}
use lydia_bg_back.Event.Settings.{LocalEvent}
use lydia_bg_back.Event.Retry.{
  RetryConf, Answer, Endpoint, local_url, Post, Step, retry_webhook_request,
}

-- WEBHOOK of the configuration.
pub record WebhookConf : Type 0 where
  pub global_enabled : Bool
  pub global_url : Text
  pub global_by_events : Bool
  pub events : Text → Bool
  pub retry : RetryConf

-- The fields of `EmitData` that decide where the event goes.
pub record EmitData : Type 0 where
  pub event : Text
  pub local : Bool
  pub integration : Option (List Text)

-- `thrown`: an exception has left `emit`.
pub record Emission : Type 0 where
  pub steps : List Step
  pub thrown : Bool

abbrev pub excludes_webhook : Option (List Text) → Bool
excludes_webhook none = false
excludes_webhook (some names) = not (contains (codes "webhook") names)

-- `/^(https?:\/\/)/`
abbrev pub is_http : Text → Bool
is_http url = starts_with url (codes "http://") || starts_with url (codes "https://")

abbrev pub headers_of : Option LocalEvent → List (Text × Text)
headers_of none = []
headers_of (some e) = e.headers

abbrev pub without_key : Text → List (Text × Text) → List (Text × Text)
without_key k hs = filter (λ h. not (h.0 == k)) hs

abbrev pub as_underscore : ℕ → ℕ
as_underscore c = if nat_eq c 46 || nat_eq c 45 then 95 else c

abbrev pub as_dash : ℕ → ℕ
as_dash c = if nat_eq c 95 then 45 else c

-- The headers with a token in place of its key.
module _ (sign : Text → Option Text) where
  abbrev pub with_token : List (Text × Text) → Option Text → Option (List (Text × Text))
  with_token hs none = none
  with_token hs (some token) = some (
      push (without_key (codes "jwt_key") (without_key (codes "Authorization") hs))
        (codes "Authorization", codes "Bearer " ++ token))

  abbrev pub webhook_headers : List (Text × Text) → Option (List (Text × Text))
  webhook_headers hs = elim (lookup (codes "jwt_key") hs) [
    | none ↦ some hs
    | some key ↦ with_token hs (sign key)
  ]

module _ (to_upper_case to_lower_case : Text → Text) where
  -- `we` and `transformedWe`
  abbrev pub event_name : Text → Text
  event_name event = to_upper_case (map as_underscore event)

  abbrev pub event_path : Text → Text
  event_path event = to_lower_case (map as_dash (event_name event))

  abbrev pub by_event : Bool → Text → Text → Text
  by_event b url event = if b then url ++ (47 ∷ event_path event) else url

  -- `instance?.url || …`
  abbrev pub destination_of : WebhookConf → Option LocalEvent → Text → Text
  destination_of c none event = c.global_url ++ (47 ∷ event_path event)
  destination_of c (some e) event =
      if is_empty e.url then c.global_url ++ (47 ∷ event_path event) else e.url

  module _ (c : WebhookConf) (d : EmitData) where
    abbrev pub is_local : LocalEvent → Bool
    is_local e = (d.local && e.enabled) && (contains (event_name d.event) e.events && is_http e.url)

    abbrev pub local_post : LocalEvent → List (Text × Text) → Post
    local_post e hs = record {
      endpoint = local_url;
      url = by_event e.by_events e.url d.event;
      headers = hs;
      destination = destination_of c (some e) d.event;
    }

    abbrev pub global_address : Text
    global_address = by_event c.global_by_events c.global_url d.event

    abbrev pub is_global : Bool
    is_global = (c.global_enabled && c.events (event_name d.event)) && is_http global_address

    abbrev pub global_post : Option LocalEvent → Post
    global_post o = record {
      endpoint = Endpoint.global_url;
      url = global_address;
      headers = [];
      destination = destination_of c o d.event;
    }

    module _ (shaken : ℕ → ℕ → ℕ) (answers : Endpoint → ℕ → Answer) where
      unfoldable pub send_local : Option LocalEvent → List (Text × Text) → List Step
      unfolding retry_webhook_request
      send_local none hs = []
      send_local (some e) hs =
          if is_local e
          then (retry_webhook_request c.retry shaken (answers local_url) (local_post e hs) []).steps
          else []

      unfoldable pub send_global : Option LocalEvent → List Step → List Step
      unfolding retry_webhook_request
      send_global o steps =
          if is_global
          then (retry_webhook_request c.retry shaken (answers Endpoint.global_url) (global_post o)
              steps).steps
          else steps

      abbrev pub send_both : Option LocalEvent → Option (List (Text × Text)) → Emission
      send_both o none = record { steps = []; thrown = true }
      send_both o (some hs) = record { steps = send_global o (send_local o hs); thrown = false }

      -- `o` is the instance's row, as `get` finds it.
      unfoldable pub emit : (Text → Option Text) → Option LocalEvent → Emission
      unfolding send_local send_global
      emit sign o =
          if excludes_webhook d.integration
          then record { steps = []; thrown = false }
          else send_both o (webhook_headers sign (headers_of o))
