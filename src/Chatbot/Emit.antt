-- ===== src/Chatbot/Emit.antt =====
-- What an integration does with a message: `emit` of
-- src/api/integrations/chatbot/base-chatbot.controller.ts, with `checkIgnoreJids`, `getSession` and
-- `findBotTrigger` of chatbot.controller.ts beside it. The call of the bot's service is the result:
-- debounced, or at once.
use lydia_bg_back.Prelude.{
  ℕ, ltb, Text, codes, List, [], ◌∷◌, Bool, true, false, not, ◌&&◌, ◌||◌, Option, none, some, find,
  filter, is_empty, contains, ◌==◌, if◌then◌else◌, Result, ok, err, internal, ◌>>=◌,
}
use lydia_bg_back.Table.{find_row, update_row}
use lydia_bg_back.Chatbot.State.{
  opened, closed, paused, BotOptions, Bot, Settings, IntegrationSession, Store, session_id, bot_id,
}
use lydia_bg_back.Chatbot.Triggers.{ends_with, find_bot_by_trigger}

-- `content` is what `getConversationMessage` gives: undefined for a sticker or a reaction.
pub record Incoming : Type 0 where
  pub instance_id : Text
  pub remote_jid : Text
  pub from_me : Bool
  pub content : Option Text

unfoldable pub check_ignore_jids : Option (List Text) → Text → Bool
check_ignore_jids none jid = false
check_ignore_jids (some jids) jid =
    (contains (codes "@g.us") jids && ends_with jid (codes "@g.us"))
    || ((contains (codes "@s.whatsapp.net") jids && ends_with jid (codes "@s.whatsapp.net"))
        || contains jid jids)

-- `findFirst` with the latest `createdAt` first; among equals the database chooses, here the first.
unfoldable pub latest : List IntegrationSession → Option IntegrationSession
latest [] = none
latest (s ∷ ss) = elim (latest ss) [
  | none ↦ some s
  | some t ↦ if ltb s.created_at t.created_at then some t else some s
]

-- `!id` on a text that may be null
abbrev pub is_absent : Option Text → Bool
is_absent none = true
is_absent (some t) = is_empty t

abbrev pub is_session_of : Incoming → IntegrationSession → Bool
is_session_of m s = s.remote_jid == m.remote_jid && s.instance_id == m.instance_id

-- Both branches of the code for a session without a bot give null.
abbrev pub with_bot : Option IntegrationSession → Option IntegrationSession
with_bot none = none
with_bot (some s) = if is_absent s.bot_id then none else some s

unfoldable pub get_session : Incoming → List IntegrationSession → Option IntegrationSession
unfolding latest
get_session m ss = with_bot (latest (filter (is_session_of m) ss))

-- A bot's options, or those of the settings; `splitMessages` and `timePerChar` have a default too.
abbrev pub first_of {ℓ} : {A : Type ℓ} → Option A → Option A → Option A
first_of none y = y
first_of (some x) y = some x

abbrev pub merged : BotOptions → BotOptions → BotOptions
merged b s = record {
  expire = first_of b.expire s.expire;
  keyword_finish = first_of b.keyword_finish s.keyword_finish;
  delay_message = first_of b.delay_message s.delay_message;
  unknown_message = first_of b.unknown_message s.unknown_message;
  listening_from_me = first_of b.listening_from_me s.listening_from_me;
  stop_bot_from_me = first_of b.stop_bot_from_me s.stop_bot_from_me;
  keep_open = first_of b.keep_open s.keep_open;
  debounce_time = first_of b.debounce_time s.debounce_time;
  ignore_jids = first_of b.ignore_jids s.ignore_jids;
  split_messages = first_of b.split_messages (first_of s.split_messages (some false));
  time_per_char = first_of b.time_per_char (first_of s.time_per_char (some 0));
}

abbrev pub no_options : BotOptions
no_options = record {
  expire = none;
  keyword_finish = none;
  delay_message = none;
  unknown_message = none;
  listening_from_me = none;
  stop_bot_from_me = none;
  keep_open = none;
  debounce_time = none;
  ignore_jids = none;
  split_messages = none;
  time_per_char = none;
}

abbrev pub is_none {ℓ} : {A : Type ℓ} → Option A → Bool
is_none none = true
is_none (some x) = false

-- The options that are read as `settings.expire` and so on, which throws without settings.
abbrev pub needs_settings : BotOptions → Bool
needs_settings b =
    (is_none b.expire
      || (is_none b.keyword_finish || (is_none b.delay_message || is_none b.unknown_message)))
    || ((is_none b.listening_from_me || (is_none b.stop_bot_from_me || is_none b.keep_open))
        || (is_none b.debounce_time || is_none b.ignore_jids))

unfoldable pub resolve : BotOptions → Option Settings → Result BotOptions
resolve b none = if needs_settings b then err internal else ok (merged b no_options)
resolve b (some s) = ok (merged b s.options)

-- `x === true` of an option that may be null
abbrev pub is_on : Option Bool → Bool
is_on none = false
is_on (some b) = b

abbrev pub is_closed : Option IntegrationSession → Bool
is_closed none = false
is_closed (some s) = elim s.status [ opened ↦ false | closed ↦ true | paused ↦ false ]

-- What becomes of a message. `process_bot` is given the bot, the session, the merged options and the
-- seconds of the debounce.
pub data Reaction : Type 0 where
  silent : Reaction
  failed : Reaction
  pauses : Text → Reaction
  process_bot : Bot → Option IntegrationSession → BotOptions → ℕ → Reaction

abbrev pub seconds : Option ℕ → ℕ
seconds none = 0
seconds (some n) = n

-- The guards from the message's sender and the session's status.
abbrev pub stop_session : Option IntegrationSession → Reaction → Reaction
stop_session none r = r
stop_session (some s) r = pauses s.id

unfoldable pub admit : Incoming → Bot → Option IntegrationSession → BotOptions → Reaction
admit m b s o =
    let go =
      if not (is_on o.listening_from_me) && m.from_me
      then silent
      else if is_closed s
      then silent
      else process_bot b s o (seconds o.debounce_time) in
    if is_on o.stop_bot_from_me && m.from_me then stop_session s go else go

unfoldable pub react :
    Incoming → Option Settings → Option IntegrationSession → Result (Option Bot) → Reaction
unfolding admit resolve
react m settings s (err e) = failed
react m settings s (ok none) = silent
react m settings s (ok (some b)) = elim (resolve b.options settings) [
  | err e ↦ failed
  | ok o ↦ admit m b s o
]

abbrev pub fallback : Option Settings → List Bot → Option Bot
fallback none bots = none
fallback (some s) bots = elim s.fallback_id [
  | none ↦ none
  | some id ↦ if is_empty id then none else find_row bot_id id bots
]

abbrev pub or_fallback : Option Settings → List Bot → Option Bot → Option Bot
or_fallback settings bots none = fallback settings bots
or_fallback settings bots (some b) = some b

abbrev pub jids_of : Option Settings → Option (List Text)
jids_of none = none
jids_of (some s) = s.options.ignore_jids

abbrev pub bot_of_session : IntegrationSession → List Bot → Option Bot
bot_of_session s bots = elim s.bot_id [ none ↦ none | some id ↦ find_row bot_id id bots ]

abbrev pub settings_of : Incoming → List Settings → Option Settings
settings_of m ss = find (λ (s : Settings). s.instance_id == m.instance_id) ss

module _ (nfd to_lower_case : Text → Text) (matches : Text → Text → Option Bool) where
  unfoldable pub find_bot_trigger :
      List Bot → Incoming → Option IntegrationSession → Result (Option Bot)
  unfolding find_bot_by_trigger
  find_bot_trigger bots m none =
      find_bot_by_trigger nfd to_lower_case matches bots m.content m.instance_id
  find_bot_trigger bots m (some s) = ok (bot_of_session s bots)

  unfoldable pub emit : Bool → Incoming → Store → Reaction
  unfolding react find_bot_trigger get_session check_ignore_jids
  emit enabled m store =
      let settings = settings_of m store.settings in
      let session = get_session m store.sessions in
      if not enabled || check_ignore_jids (jids_of settings) m.remote_jid
      then silent
      else react m settings session (
          find_bot_trigger store.bots m session >>= λ found.
          ok (or_fallback settings store.bots found))

-- The session of `pauses`, as the store is then.
abbrev pub pause : IntegrationSession → IntegrationSession
pause s = record s { status = paused }

unfoldable pub after_reaction : Reaction → Store → Store
unfolding update_row
after_reaction (pauses id) store = record store {
  sessions = update_row session_id id pause store.sessions;
}
after_reaction silent store = store
after_reaction failed store = store
after_reaction (process_bot b s o n) store = store
