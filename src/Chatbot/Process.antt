-- ===== src/Chatbot/Process.antt =====
-- What a bot's service does with a message: `process`, `initNewSession` and `createNewSession` of
-- src/api/integrations/chatbot/base-chatbot.service.ts. The provider's API (`sendMessageToBot` of a
-- derived class) is the parameter `answers`: whether its call succeeds or throws. The messages here have
-- a text.
use lydia_bg_back.Prelude.{
  ℕ, Text, List, [], Bool, true, false, not, ◌&&◌, Option, none, some, push, trim, is_empty, ◌==◌,
  if◌then◌else◌,
}
use lydia_bg_back.Table.{has_row, update_row}
use lydia_bg_back.Chatbot.State.{
  opened, closed, paused, BotOptions, Bot, IntegrationSession, Store, session_id,
}

-- The name of the sender, as the channels give it: missing, a text, or an object with a field of that
-- name.
pub data PushName : Type 0 where
  no_name : PushName
  name : Text → PushName
  nested : Option Text → PushName

abbrev pub push_name_value : PushName → Option Text
push_name_value no_name = none
push_name_value (name t) = some t
push_name_value (nested none) = none
push_name_value (nested (some t)) = if is_empty t then none else some t

-- The store, and the calls of the provider so far: the session's id and the text.
pub record Service : Type 0 where
  pub store : Store
  pub calls : List (Text × Text)

-- The row that is created; `id` and `now` are the database's.
abbrev pub new_session : Text → ℕ → Text → Text → Option Text → Text → Text → IntegrationSession
new_session id now instance_id jid push_name bot_id kind = record {
  id = id;
  instance_id = instance_id;
  remote_jid = jid;
  status = opened;
  bot_id = some bot_id;
  created_at = now;
  push_name = push_name;
  await_user = false;
  kind = kind;
}

-- `none` if the database refuses the row.
unfoldable pub create_new_session : IntegrationSession → Store → Option Store
unfolding push
create_new_session s store =
    if has_row session_id s.id store.sessions
    then none
    else some (record store { sessions = push store.sessions s })

abbrev pub opened_for : Bool → IntegrationSession → IntegrationSession
opened_for waits s = record s { status = opened; await_user = waits }

abbrev pub close : IntegrationSession → IntegrationSession
close s = record s { status = closed }

abbrev pub change_session : Text → (IntegrationSession → IntegrationSession) → Store → Store
change_session id f store = record store { sessions = update_row session_id id f store.sessions }

abbrev pub call_bot : Text → Text → Service → Service
call_bot id content w = record w { calls = push w.calls (id, content) }

-- `settings?.keywordFinish || ''`
abbrev pub keyword_of : BotOptions → Text
keyword_of o = elim o.keyword_finish [ none ↦ [] | some k ↦ k ]

abbrev pub is_finish : (Text → Text) → BotOptions → Text → Bool
is_finish to_lower_case o content =
    not (is_empty (keyword_of o)) && trim (to_lower_case content) == to_lower_case (keyword_of o)

-- An exception of the provider is caught after what has been stored.
unfoldable pub open_session : IntegrationSession → Text → Option Store → Service → Service
unfolding update_row push
open_session s content none w = w
open_session s content (some store) w =
    call_bot s.id content (record w { store = change_session s.id (opened_for false) store })

unfoldable pub init_new_session :
    Text → ℕ → Text → Text → Bot → PushName → Text → Text → Service → Service
unfolding open_session create_new_session
init_new_session id now instance_id jid bot push_name kind content w =
    let s = new_session id now instance_id jid (push_name_value push_name) bot.id kind in
    open_session s content (create_new_session s w.store) w

-- The session waits for the user again if the provider's call does not throw.
unfoldable pub forward : (Text → Text → Bool) → IntegrationSession → Text → Service → Service
unfolding update_row push
forward answers s content w =
    let called = call_bot s.id content w in
    if answers s.id content
    then record called { store = change_session s.id (opened_for true) w.store }
    else called

module _ (to_lower_case : Text → Text) (answers : Text → Text → Bool) where
  unfoldable pub process_session : IntegrationSession → BotOptions → Text → Service → Service
  unfolding forward update_row
  process_session s o content w = elim s.status [
    | paused ↦ w
    | opened ↦
        if is_finish to_lower_case o content
        then record w { store = change_session s.id close w.store }
        else forward answers s content w
    | closed ↦
        if is_finish to_lower_case o content
        then record w { store = change_session s.id close w.store }
        else forward answers s content w
  ]

  unfoldable pub process :
      Text
      → ℕ
      → Text
      → Text
      → Bot
      → Option IntegrationSession
      → BotOptions
      → PushName
      → Text
      → Text
      → Service
      → Service
  unfolding init_new_session process_session
  process id now instance_id jid bot none o push_name kind content w =
      init_new_session id now instance_id jid bot push_name kind content w
  process id now instance_id jid bot (some s) o push_name kind content w =
      process_session s o content w
