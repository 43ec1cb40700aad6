-- ===== src/Chatbot/Registry.antt =====
-- The calls of src/api/integrations/chatbot/base-chatbot.controller.ts that change the settings and
-- sessions of an integration or delete a bot: `ignoreJid`, `changeStatus` and `deleteBot`. An instance
-- is found by its name. Typebot reports a change of status through the loaded instance; whether that
-- event is delivered has no effect on the tables and is left out.
use lydia_bg_back.Prelude.{
  Text, List, [], ◌∷◌, Bool, true, false, not, ◌&&◌, Option, none, some, filter, find, contains,
  lookup, push, ◌==◌, if◌then◌else◌, bad_request, internal, Result, ok, err,
}
use lydia_bg_back.Table.{find_row, update_row, delete_row}
use lydia_bg_back.Chatbot.State.{
  opened, closed, paused, SessionStatus, Bot, Settings, IntegrationSession, Store, bot_id,
}
use lydia_bg_back.Chatbot.Emit.{is_on}

abbrev pub settings_id : Settings → Text
settings_id s = s.id

-- The instances' ids by their names.
abbrev pub Instances : Type 0
Instances = List (Text × Text)

abbrev pub Change : Type 0
Change = Result (Unit {0}) × Store

abbrev pub settings_in : Text → Store → Option Settings
settings_in instance_id store = find (λ (s : Settings). s.instance_id == instance_id) store.settings

abbrev pub or_no_jids : Option (List Text) → List Text
or_no_jids none = []
or_no_jids (some jids) = jids

-- `action === 'add'`, or any other action
abbrev pub changed_jids : Bool → Text → List Text → List Text
changed_jids true jid jids = if contains jid jids then jids else push jids jid
changed_jids false jid jids = filter (λ j. not (j == jid)) jids

abbrev pub set_jids : List Text → Settings → Settings
set_jids jids s = record s { options = record s.options { ignore_jids = some jids } }

unfoldable pub ignore_in : Bool → Text → Option Settings → Store → Change
unfolding update_row
ignore_in add jid none store = (err internal, store)
ignore_in add jid (some s) store = (
  ok tt,
  record store {
    settings =
        update_row settings_id s.id
          (set_jids (changed_jids add jid (or_no_jids s.options.ignore_jids))) store.settings;
  },
)

unfoldable pub ignore_jid : Bool → Instances → Text → Bool → Text → Store → Change
unfolding ignore_in
ignore_jid enabled instances name add jid store =
    if not enabled then (err bad_request, store) else elim (lookup name instances) [
      | none ↦ (err internal, store)
      | some instance_id ↦ ignore_in add jid (settings_in instance_id store) store
    ]

-- The status that a client asks for.
pub data StatusChange : Type 0 where
  delete : StatusChange
  set_status : SessionStatus → StatusChange

abbrev pub has_bot : Option Text → Bool
has_bot none = false
has_bot (some b) = true

-- `where: { remoteJid, botId: { not: null } }`, and with `instanceId`
abbrev pub is_bot_session : Text → IntegrationSession → Bool
is_bot_session jid s = s.remote_jid == jid && has_bot s.bot_id

abbrev pub is_bot_session_in : Text → Text → IntegrationSession → Bool
is_bot_session_in instance_id jid s = s.instance_id == instance_id && is_bot_session jid s

unfoldable pub set_sessions :
    (IntegrationSession → Bool) → SessionStatus → List IntegrationSession → List IntegrationSession
set_sessions p st [] = []
set_sessions p st (s ∷ ss) = (if p s then record s { status = st } else s) ∷ set_sessions p st ss

abbrev pub without_sessions : (IntegrationSession → Bool) → Store → Store
without_sessions p store = record store { sessions = filter (λ s. not (p s)) store.sessions }

abbrev pub keeps_open : Option Settings → Bool
keeps_open none = false
keeps_open (some s) = is_on s.options.keep_open

unfoldable pub change_in : Text → Text → StatusChange → Option Settings → Store → Store
unfolding set_sessions
change_in instance_id jid delete settings store = without_sessions (is_bot_session jid) store
change_in instance_id jid (set_status closed) settings store =
    if keeps_open settings
    then record store { sessions = set_sessions (is_bot_session jid) closed store.sessions }
    else without_sessions (is_bot_session jid) store
change_in instance_id jid (set_status opened) settings store = record store {
  sessions = set_sessions (is_bot_session_in instance_id jid) opened store.sessions;
}
change_in instance_id jid (set_status paused) settings store = record store {
  sessions = set_sessions (is_bot_session_in instance_id jid) paused store.sessions;
}

-- `waInstances[instanceName].sendDataWebhook` of Typebot throws for an instance that is not loaded.
abbrev pub cannot_report : Bool → List Text → Text → Bool
cannot_report typebot loaded name = typebot && not (contains name loaded)

-- `typebot` says whether the integration is Typebot, `loaded` has the names in `waInstances`.
unfoldable pub change_status :
    Bool → Bool → List Text → Instances → Text → Text → StatusChange → Store → Change
unfolding change_in
change_status enabled typebot loaded instances name jid change store =
    if not enabled then (err bad_request, store) else elim (lookup name instances) [
      | none ↦ (err internal, store)
      | some instance_id ↦
          if cannot_report typebot loaded name
          then (err internal, store)
          else (ok tt, change_in instance_id jid change (settings_in instance_id store) store)
    ]

abbrev pub is_session_of_bot : Text → IntegrationSession → Bool
is_session_of_bot id s = elim s.bot_id [ none ↦ false | some b ↦ b == id ]

unfoldable pub delete_bot_in : Text → Text → Option Bot → Store → Change
unfolding delete_row
delete_bot_in instance_id id none store = (err internal, store)
delete_bot_in instance_id id (some b) store =
    if not (b.instance_id == instance_id) then (err internal, store) else (
      ok tt,
      record (without_sessions (is_session_of_bot id) store) {
        bots = delete_row bot_id id store.bots;
      },
    )

unfoldable pub delete_bot : Bool → Instances → Text → Text → Store → Change
unfolding delete_bot_in
delete_bot enabled instances name id store =
    if not enabled then (err bad_request, store) else elim (lookup name instances) [
      | none ↦ (err internal, store)
      | some instance_id ↦ delete_bot_in instance_id id (find_row bot_id id store.bots) store
    ]
