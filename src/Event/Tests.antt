-- ===== src/Event/Tests.antt =====
-- Webhooks of one instance, and the theorems at them.
use lydia_bg_back.Prelude.{
  HttpError, err, ℕ, zero, suc, ◌<◌, ◌≤◌, Text, codes, [], ◌∷◌, ◌++◌, true, false, ◌≡◌, refl,
  Option, none, some, All, lookup, push, starts_with, contains, ◌==◌, arith,
}
use lydia_bg_back.Table.{update_row}
use lydia_bg_back.Event.Settings.{
  LocalEvent, EventDto, WaInstances, all_events, upsert, set_in, set, get,
}
use lydia_bg_back.Event.Retry.{
  RetryConf, Answer, taken, fails, Endpoint, local_url, Post, posts, pauses, delivered, attempts_of,
  retry_from, retry_webhook_request,
}
use lydia_bg_back.Event.Attempts.{
  IsRetryable, IsPatient, attempts_in, retry_webhook_request_bounds,
  retry_webhook_request-delivered,
}
use lydia_bg_back.Event.Webhook.{WebhookConf, EmitData, send_local, send_global, emit}
use lydia_bg_back.Event.Sent.{
  IsAllowed, endpoint_of, emit-IsAllowed, emit-append, set-emit_off, set-emit_unsigned,
}

-- What the tests compute with.
events : Unit {0}
unfolding lookup push starts_with contains ◌==◌ update_row upsert set_in set get retry_from
    retry_webhook_request send_local send_global emit
events = tt

abbrev conf : RetryConf
conf = record {
  max_attempts = some 3;
  initial_delay = some 5;
  use_exponential_backoff = none;
  max_delay = none;
  non_retryable = none;
}

abbrev unshaken : ℕ → ℕ → ℕ
unshaken n delay = delay

-- A server that answers the second attempt alone.
abbrev second : ℕ → Answer
second zero = fails (some 500)
second (suc zero) = taken
second (suc (suc n)) = fails none

abbrev request : Post
request = record {
  endpoint = local_url;
  url = codes "http://a";
  headers = [];
  destination = codes "http://a";
}

second_steps :
    (retry_webhook_request conf unshaken second request []).steps
    ≡ posts request ∷ pauses local_url 5 ∷ posts request ∷ []
unfolding events
second_steps = refl

-- A status that is not retried ends the delivery.
not_found_steps :
    (retry_webhook_request conf unshaken (λ n. fails (some 404)) request []).steps
    ≡ posts request ∷ []
unfolding events
not_found_steps = refl

first_fails : (j : ℕ) → j < 1 → IsRetryable conf (second j)
first_fails zero h = refl
first_fails (suc j) h = absurd (omega (arith, h))

retry_webhook_request-delivered_example :
    (retry_webhook_request conf unshaken second request []).outcome ≡ delivered
retry_webhook_request-delivered_example =
    (retry_webhook_request-delivered conf unshaken second request).1
      (1, (omega arith, (refl, first_fails)))

retry_webhook_request_bounds_example :
    (attempts_in (retry_webhook_request conf unshaken second request []).steps ≤ attempts_of conf)
    × All (IsPatient conf) (retry_webhook_request conf unshaken second request []).steps
retry_webhook_request_bounds_example = retry_webhook_request_bounds conf unshaken second request

abbrev upper : Text → Text
upper s = s

abbrev server : WebhookConf
server = record {
  global_enabled = true;
  global_url = codes "https://s";
  global_by_events = false;
  events = λ e. true;
  retry = conf;
}

abbrev call : EmitData
call = record { event = codes "CALL"; local = true; integration = none }

abbrev answered : Endpoint → ℕ → Answer
answered e n = taken

abbrev silent_here : Endpoint → ℕ → Answer
silent_here local_url n = fails none
silent_here Endpoint.global_url n = taken

abbrev unsigned : Text → Option Text
unsigned key = none

abbrev body : EventDto
body = record {
  enabled = some true;
  events = some [];
  url = some (codes "http://a");
  headers = some ((codes "x", codes "y") ∷ []);
  by_events = none;
}

abbrev off : EventDto
off = record body { enabled = some false; headers = some ((codes "jwt_key", []) ∷ []) }

abbrev loaded : WaInstances
loaded = (codes "main", codes "i") ∷ (codes "other", codes "j") ∷ []

abbrev row : LocalEvent
row = record {
  instance_id = codes "i";
  enabled = true;
  events = all_events;
  url = codes "http://a";
  headers = (codes "x", codes "y") ∷ [];
  by_events = false;
}

-- A request that has an address alone keeps the headers that are stored.
abbrev moved : EventDto
moved = record {
  enabled = some true;
  events = some (codes "CALL" ∷ []);
  url = some (codes "http://b");
  headers = none;
  by_events = none;
}

abbrev moved_row : LocalEvent
moved_row = record row { events = codes "CALL" ∷ []; url = codes "http://b" }

-- A new row needs an address.
no_address :
    set true loaded (codes "main") (record body { url = none }) [] ≡ (err HttpError.internal, [])
unfolding events
no_address = refl

emit-IsAllowed_example :
    All
      (IsAllowed upper upper server call (some row))
      (emit upper upper server call unshaken silent_here unsigned (some row)).steps
emit-IsAllowed_example =
    emit-IsAllowed upper upper server call unshaken silent_here unsigned (some row)

emit-append_example :
    (emit upper upper server call unshaken silent_here unsigned (some row)).steps
    ≡ send_local upper upper server call unshaken silent_here
        (some row)
        ((codes "x", codes "y") ∷ [])
      ++ send_global upper upper server call unshaken answered (some row) []
unfolding events
emit-append_example =
    emit-append upper upper server call unshaken silent_here unsigned (some row)
      ((codes "x", codes "y") ∷ []) answered refl refl refl

set-emit_off_example :
    All
      (λ s. endpoint_of s ≡ Endpoint.global_url)
      (emit upper upper server call unshaken answered unsigned (
        get true loaded
          (codes "main")
          (set true loaded (codes "main") (record off { headers = none }) []).1)).steps
unfolding events
set-emit_off_example =
    set-emit_off upper upper server call unshaken answered unsigned loaded (codes "main")
      (codes "i") (record off { headers = none }) [] refl refl

set-emit_unsigned_example :
    emit upper upper server call unshaken answered unsigned
      (get true loaded (codes "main") (set true loaded (codes "main") off []).1)
    ≡ record { steps = []; thrown = true }
unfolding events
set-emit_unsigned_example =
    set-emit_unsigned upper upper server call unshaken answered unsigned loaded (codes "main")
      (codes "i") off [] ((codes "jwt_key", []) ∷ []) [] refl refl refl refl refl refl refl
