-- ===== src/Event/Retry.antt =====
-- `retryWebhookRequest` of src/api/integrations/event/webhook/webhook.controller.ts. What the server on
-- the other side answers to each attempt is the parameter `answers`, and `shaken` is the sum of a
-- delay and its random jitter, in whole seconds.
use lydia_bg_back.Prelude.{
  ℕ, zero, suc, ◌*◌, ◌^◌, min, max, Text, List, [], ◌∷◌, Bool, true, false, not, ◌&&◌, Option, none,
  some, nat_eq, any, push, if◌then◌else◌,
}

-- What the configuration says; a missing field has a default.
pub record RetryConf : Type 0 where
  pub max_attempts : Option ℕ
  pub initial_delay : Option ℕ
  pub use_exponential_backoff : Option Bool
  pub max_delay : Option ℕ
  pub non_retryable : Option (List ℕ)

abbrev pub nat_or : ℕ → Option ℕ → ℕ
nat_or d none = d
nat_or d (some n) = n

abbrev pub attempts_of : RetryConf → ℕ
attempts_of c = nat_or 10 c.max_attempts

abbrev pub initial_delay_of : RetryConf → ℕ
initial_delay_of c = nat_or 5 c.initial_delay

abbrev pub is_exponential : RetryConf → Bool
is_exponential c = elim c.use_exponential_backoff [ none ↦ true | some b ↦ b ]

abbrev pub max_delay_of : RetryConf → ℕ
max_delay_of c = nat_or 300 c.max_delay

abbrev pub codes_of : RetryConf → List ℕ
codes_of c = elim c.non_retryable [ none ↦ 400 ∷ 401 ∷ 403 ∷ 404 ∷ 422 ∷ [] | some cs ↦ cs ]

-- A request is answered with success, or fails, with a status if there was an answer.
pub data Answer : Type 0 where
  taken : Answer
  fails : Option ℕ → Answer

pub data Endpoint : Type 0 where
  local_url global_url : Endpoint

-- A request: where to, with which headers, and what its body names as the destination.
pub record Post : Type 0 where
  pub endpoint : Endpoint
  pub url : Text
  pub headers : List (Text × Text)
  pub destination : Text

pub data Step : Type 0 where
  posts : Post → Step
  pauses : Endpoint → ℕ → Step

-- `unsent`: no attempt is allowed.
pub data Outcome : Type 0 where
  delivered refused unsent : Outcome

pub record Delivery : Type 0 where
  pub steps : List Step
  pub outcome : Outcome

-- `error?.response?.status && nonRetryableStatusCodes.includes(error.response.status)`
abbrev pub is_final : RetryConf → Option ℕ → Bool
is_final c none = false
is_final c (some status) = not (nat_eq status 0) && any (λ n. nat_eq n status) (codes_of c)

module _ (c : RetryConf) (shaken : ℕ → ℕ → ℕ) where
  -- The delay after as many attempts and one more.
  abbrev pub next_delay : ℕ → ℕ
  next_delay n =
      if is_exponential c
      then max (initial_delay_of c) (shaken n (min (initial_delay_of c * 2 ^ n) (max_delay_of c)))
      else initial_delay_of c

  module _ (answers : ℕ → Answer) (p : Post) where
    -- The loop, with the number of rounds that are left and that of the attempts made.
    unfoldable pub retry_from : ℕ → ℕ → List Step → Delivery
    unfolding push
    retry_from zero attempts steps = record { steps = steps; outcome = unsent }
    retry_from (suc n) attempts steps =
        let sent = push steps (posts p) in
        let again =
          retry_from n (suc attempts) (push sent (pauses p.endpoint (next_delay attempts))) in
        elim (answers attempts) [
          | taken ↦ record { steps = sent; outcome = delivered }
          | fails status ↦
              if is_final c status
              then record { steps = sent; outcome = refused }
              else if nat_eq (suc attempts) (attempts_of c)
              then record { steps = sent; outcome = refused }
              else again
        ]

    unfoldable pub retry_webhook_request : List Step → Delivery
    unfolding retry_from
    retry_webhook_request steps = retry_from (attempts_of c) 0 steps
