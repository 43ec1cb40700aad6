-- ===== src/Chatbot/State.antt =====
-- What an integration of a chatbot (Typebot, OpenAI, Dify and others) stores: the bots and settings of
-- src/api/integrations/chatbot/base-chatbot.controller.ts, and the sessions that all integrations share.
use lydia_bg_back.Prelude.{ℕ, Text, List, Bool, Option}

pub data TriggerType : Type 0 where
  all_messages keyword no_trigger advanced : TriggerType

pub data TriggerOperator : Type 0 where
  contains equals starts_with ends_with regex : TriggerOperator

pub data SessionStatus : Type 0 where
  opened closed paused : SessionStatus

-- The options that a bot may leave to the settings of its instance.
pub record BotOptions : Type 0 where
  pub expire : Option ℕ
  pub keyword_finish : Option Text
  pub delay_message : Option ℕ
  pub unknown_message : Option Text
  pub listening_from_me : Option Bool
  pub stop_bot_from_me : Option Bool
  pub keep_open : Option Bool
  pub debounce_time : Option ℕ
  pub ignore_jids : Option (List Text)
  pub split_messages : Option Bool
  pub time_per_char : Option ℕ

pub record Bot : Type 0 where
  pub id : Text
  pub instance_id : Text
  pub enabled : Bool
  pub description : Option Text
  pub options : BotOptions
  pub trigger_type : Option TriggerType
  pub trigger_operator : Option TriggerOperator
  pub trigger_value : Option Text

-- `fallback_id` stands for the field whose name `getFallbackFieldName` gives.
pub record Settings : Type 0 where
  pub id : Text
  pub instance_id : Text
  pub options : BotOptions
  pub fallback_id : Option Text

-- `kind` is the column `type`; `sessionId` is the contact's jid, as `createNewSession` sets it.
pub record IntegrationSession : Type 0 where
  pub id : Text
  pub instance_id : Text
  pub remote_jid : Text
  pub status : SessionStatus
  pub bot_id : Option Text
  pub created_at : ℕ
  pub push_name : Option Text
  pub await_user : Bool
  pub kind : Text

pub record Store : Type 0 where
  pub bots : List Bot
  pub settings : List Settings
  pub sessions : List IntegrationSession

abbrev pub session_id : IntegrationSession → Text
session_id s = s.id

abbrev pub bot_id : Bot → Text
bot_id b = b.id
