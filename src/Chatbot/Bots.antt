-- ===== src/Chatbot/Bots.antt =====
-- The calls of src/api/integrations/chatbot/base-chatbot.controller.ts that store bots and settings:
-- `createBot`, `updateBot` and `settings`. What a derived class adds is a parameter: whether its own
-- check of duplicates passes, and the defaults of its table's columns.
use lydia_bg_back.Prelude.{
  ℕ, zero, suc, Text, List, [], ◌∷◌, Bool, true, false, not, ◌&&◌, ◌||◌, Option, none, some, any,
  push, lookup, ◌==◌, if◌then◌else◌, bad_request, internal, ok, err,
}
use lydia_bg_back.Table.{find_row, has_row, update_row}
use lydia_bg_back.Chatbot.State.{
  TriggerType, all_messages, keyword, no_trigger, advanced, TriggerOperator, BotOptions, Bot,
  Settings, Store, bot_id,
}
use lydia_bg_back.Chatbot.Triggers.{is_type, is_operator}
use lydia_bg_back.Chatbot.Emit.{first_of, merged, no_options, is_none, is_absent}
use lydia_bg_back.Chatbot.Registry.{settings_id, Instances, Change, settings_in}

-- The body of a request; a missing field is undefined.
pub record BotData : Type 0 where
  pub enabled : Option Bool
  pub description : Option Text
  pub options : BotOptions
  pub trigger_type : Option TriggerType
  pub trigger_operator : Option TriggerOperator
  pub trigger_value : Option Text

-- `!n` and `!b` on values that may be undefined
abbrev pub no_number : Option ℕ → Bool
no_number none = true
no_number (some zero) = true
no_number (some (suc n)) = false

abbrev pub no_flag : Option Bool → Bool
no_flag none = true
no_flag (some b) = not b

abbrev pub is_incomplete : BotOptions → Bool
is_incomplete o =
    (no_number o.expire
      || (is_absent o.keyword_finish || (no_number o.delay_message || is_absent o.unknown_message)))
    || ((no_flag o.listening_from_me || (no_flag o.stop_bot_from_me || no_flag o.keep_open))
        || ((no_number o.debounce_time || is_none o.ignore_jids)
            || (no_flag o.split_messages || no_number o.time_per_char)))

-- What the database stores: an undefined column gets its default, or keeps its value.
abbrev pub filled : BotOptions → BotOptions → BotOptions
filled o d = record {
  expire = first_of o.expire d.expire;
  keyword_finish = first_of o.keyword_finish d.keyword_finish;
  delay_message = first_of o.delay_message d.delay_message;
  unknown_message = first_of o.unknown_message d.unknown_message;
  listening_from_me = first_of o.listening_from_me d.listening_from_me;
  stop_bot_from_me = first_of o.stop_bot_from_me d.stop_bot_from_me;
  keep_open = first_of o.keep_open d.keep_open;
  debounce_time = first_of o.debounce_time d.debounce_time;
  ignore_jids = first_of o.ignore_jids d.ignore_jids;
  split_messages = first_of o.split_messages d.split_messages;
  time_per_char = first_of o.time_per_char d.time_per_char;
}

abbrev pub options_of : Option Settings → BotOptions
options_of none = no_options
options_of (some s) = s.options

abbrev pub set_options : BotOptions → Option Text → Settings → Settings
set_options o fallback s = record s {
  options = filled o s.options;
  fallback_id = first_of fallback s.fallback_id;
}

-- `settings` once the instance is known; `id` is that of a new row.
unfoldable pub store_settings :
    BotOptions → Text → Text → BotOptions → Option Text → Option Settings → Store → Store
unfolding update_row push
store_settings defaults id instance_id o fallback (some s) store = record store {
  settings = update_row settings_id s.id (set_options o fallback) store.settings;
}
store_settings defaults id instance_id o fallback none store = record store {
  settings = push store.settings (record {
    id = id;
    instance_id = instance_id;
    options = filled o defaults;
    fallback_id = fallback;
  });
}

unfoldable pub settings :
    BotOptions → Bool → Instances → Text → Text → BotOptions → Option Text → Store → Change
unfolding store_settings
settings defaults enabled instances name id o fallback store =
    if not enabled then (err bad_request, store) else elim (lookup name instances) [
      | none ↦ (err internal, store)
      | some instance_id ↦ (
        ok tt,
        store_settings defaults id instance_id o fallback (settings_in instance_id store) store,
      )
    ]

-- The bots that the checks of triggers look for, by the columns that they compare.
abbrev pub same_operator : Option TriggerOperator → Option TriggerOperator → Bool
same_operator none p = false
same_operator (some o) p = is_operator o p

abbrev pub same_value : Option Text → Option Text → Bool
same_value (some v) (some w) = v == w
same_value none w = false
same_value (some v) none = false

abbrev pub catches_all_in : Text → Bot → Bool
catches_all_in instance_id b =
    b.enabled && (is_type all_messages b.trigger_type && b.instance_id == instance_id)

abbrev pub has_trigger_in : Text → Option TriggerOperator → Option Text → Bot → Bool
has_trigger_in instance_id o v b =
    same_operator o b.trigger_operator
    && (same_value v b.trigger_value && b.instance_id == instance_id)

abbrev pub has_value_in : Text → Option Text → Bot → Bool
has_value_in instance_id v b = same_value v b.trigger_value && b.instance_id == instance_id

-- Whether a body's trigger is refused: a bot with it exists, or a part is missing.
unfoldable pub is_refused : Text → BotData → List Bot → Bool
is_refused instance_id body bots = elim body.trigger_type [
  | none ↦ false
  | some all_messages ↦ any (catches_all_in instance_id) bots
  | some keyword ↦
      (is_none body.trigger_operator || is_absent body.trigger_value)
      || any (has_trigger_in instance_id body.trigger_operator body.trigger_value) bots
  | some no_trigger ↦ false
  | some advanced ↦
      is_absent body.trigger_value || any (has_value_in instance_id body.trigger_value) bots
]

abbrev pub on_by_default : Option Bool → Bool
on_by_default none = true
on_by_default (some b) = b

abbrev pub new_bot : BotOptions → Text → Text → BotData → BotOptions → Bot
new_bot defaults id instance_id body o = record {
  id = id;
  instance_id = instance_id;
  enabled = on_by_default body.enabled;
  description = body.description;
  options = filled o defaults;
  trigger_type = body.trigger_type;
  trigger_operator = body.trigger_operator;
  trigger_value = body.trigger_value;
}

-- `botRepository.create`
unfoldable pub insert_bot : Bot → Store → Change
unfolding push
insert_bot b store =
    if has_row bot_id b.id store.bots
    then (err internal, store)
    else (ok tt, record store { bots = push store.bots b })

unfoldable pub check_and_insert : BotOptions → Text → Text → BotData → BotOptions → Store → Change
unfolding is_refused insert_bot
check_and_insert defaults id instance_id body o store =
    if is_refused instance_id body store.bots
    then (err internal, store)
    else insert_bot (new_bot defaults id instance_id body o) store

-- `createBot` once the instance is known. Options are looked up in the settings if one of them is
-- falsy, and settings are stored if there are none; they stay if the bot is refused afterwards.
unfoldable pub create_in : BotOptions → Text → Text → Text → BotData → Store → Change
unfolding check_and_insert store_settings
create_in defaults id new_settings instance_id body store =
    let own = settings_in instance_id store in
    let o = merged body.options (options_of own) in
    if is_incomplete body.options
    then check_and_insert defaults id instance_id body o (
        if is_none own
        then store_settings defaults new_settings instance_id o none none store
        else store)
    else check_and_insert defaults id instance_id body body.options store

unfoldable pub create_bot :
    BotOptions → Bool → Instances → Text → Text → Text → BotData → Store → Change
unfolding create_in
create_bot defaults enabled instances name id new_settings body store =
    if not enabled then (err bad_request, store) else elim (lookup name instances) [
      | none ↦ (err internal, store)
      | some instance_id ↦ create_in defaults id new_settings instance_id body store
    ]

-- The rows other than a bot's own, which its update is checked against.
unfoldable pub others : Text → List Bot → List Bot
others id [] = []
others id (b ∷ bs) = let rest = others id bs in if b.id == id then rest else b ∷ rest

abbrev pub on_or : Option Bool → Bool → Bool
on_or none b = b
on_or (some c) b = c

abbrev pub patch_bot : BotData → Bot → Bot
patch_bot body b = record b {
  enabled = on_or body.enabled b.enabled;
  description = first_of body.description b.description;
  options = filled body.options b.options;
  trigger_type = first_of body.trigger_type b.trigger_type;
  trigger_operator = first_of body.trigger_operator b.trigger_operator;
  trigger_value = first_of body.trigger_value b.trigger_value;
}

unfoldable pub update_in :
    (Text → Text → Bool) → Text → Text → BotData → Option Bot → Store → Change
unfolding is_refused update_row others
update_in no_duplicates instance_id id body none store = (err internal, store)
update_in no_duplicates instance_id id body (some b) store =
    if not (b.instance_id == instance_id)
      || (not (no_duplicates id instance_id) || is_refused instance_id body (others id store.bots))
    then (err internal, store)
    else (ok tt, record store { bots = update_row bot_id id (patch_bot body) store.bots })

unfoldable pub update_bot :
    (Text → Text → Bool) → Bool → Instances → Text → Text → BotData → Store → Change
unfolding update_in
update_bot no_duplicates enabled instances name id body store =
    if not enabled then (err bad_request, store) else elim (lookup name instances) [
      | none ↦ (err internal, store)
      | some instance_id ↦
          update_in no_duplicates instance_id id body (find_row bot_id id store.bots) store
    ]
