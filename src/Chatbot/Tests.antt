-- ===== src/Chatbot/Tests.antt =====
-- A message on a small store, and the theorems at it.
use lydia_bg_back.Prelude.{
  ◌≢◌, lookup, any, ◌+◌, Text, codes, [], ◌∷◌, Bool, true, false, ◌&&◌, ◌≡◌, refl, Option, none,
  some, map, leb, contains, starts_with, push, split_first, ◌==◌, if◌then◌else◌, err, ok, HttpError,
}
use lydia_bg_back.Chatbot.State.{
  equals, bot_id, keyword, advanced, TriggerOperator, opened, closed, SessionStatus, BotOptions,
  Bot, Store,
}
use lydia_bg_back.Chatbot.Triggers.{find_bot_by_trigger, advanced_operators_search}
use lydia_bg_back.Chatbot.Emit.{
  get_session, process_bot, merged, Incoming, silent, pauses, merged, emit, after_reaction,
}
use lydia_bg_back.Chatbot.Sound.{IsMatch, find_bot_by_trigger-IsMatch}
use lydia_bg_back.Chatbot.Replies.{IsReply, emit-IsReply}
use lydia_bg_back.Chatbot.Registry.{
  Change, Instances, delete, is_session_of_bot, ignore_jid, change_status, delete_bot,
}
use lydia_bg_back.Chatbot.Changes.{delete_bot-ok, change_status-delete, ignore_jid-emit}
use lydia_bg_back.Table.{has_row, update_row, delete_row}

-- What the tests compute with.
chatbot : Unit {0}
unfolding emit ignore_jid change_status delete_bot lookup update_row delete_row after_reaction
    find_bot_by_trigger advanced_operators_search ◌==◌ contains starts_with push split_first
chatbot = tt

abbrev pub lower : Text → Text
lower = map (λ c. if leb b'A' c && leb c b'Z' then c + 32 else c)

abbrev pub no_marks : Text → Text
no_marks s = s

abbrev pub no_pattern : Text → Text → Option Bool
no_pattern p s = some false

abbrev pub defaults : BotOptions
defaults = record {
  expire = some 300;
  keyword_finish = some (codes "bye");
  delay_message = some 1000;
  unknown_message = some (codes "?");
  listening_from_me = some true;
  stop_bot_from_me = some true;
  keep_open = some false;
  debounce_time = some 1;
  ignore_jids = some [];
  split_messages = none;
  time_per_char = none;
}

abbrev pub bot : Bot
bot = record {
  id = codes "b";
  instance_id = codes "i";
  enabled = true;
  description = none;
  options = defaults;
  trigger_type = some keyword;
  trigger_operator = some TriggerOperator.starts_with;
  trigger_value = some (codes "ho");
}

abbrev pub store : Store
store = record {
  bots =
      record bot {
        id = codes "a";
        trigger_type = some advanced;
        trigger_value = some (codes "exact:x");
      }
      ∷ bot
      ∷ [];
  settings =
      record { id = codes "s"; instance_id = codes "i"; options = defaults; fallback_id = none }
      ∷ [];
  sessions = [];
}

abbrev pub hello : Incoming
hello = record {
  instance_id = codes "i";
  remote_jid = codes "51";
  from_me = false;
  content = some (codes "hola");
}

abbrev pub with_session : SessionStatus → Store
with_session st = record store {
  sessions =
      record {
        id = codes "z";
        instance_id = codes "i";
        remote_jid = codes "51";
        status = st;
        bot_id = some (codes "b");
        created_at = 1;
        push_name = none;
        await_user = false;
        kind = codes "n8n";
      }
      ∷ [];
}

-- All words of an advanced trigger have to fit.
advanced_search :
    advanced_operators_search no_marks lower no_pattern
      (codes "Hola")
      (codes "startswith:ho contains:l,x")
    ≡ ok false
unfolding chatbot
advanced_search = refl

-- A word named like a property of every object makes the search throw.
inherited_search :
    advanced_operators_search no_marks lower no_pattern (codes "x") (codes "valueOf")
    ≡ err HttpError.internal
unfolding chatbot
inherited_search = refl

closed_session : emit no_marks lower no_pattern true hello (with_session closed) ≡ silent
unfolding chatbot
closed_session = refl

own_message :
    emit no_marks lower no_pattern true (record hello { from_me = true }) (with_session opened)
    ≡ pauses (codes "z")
unfolding chatbot
own_message = refl

abbrev quiet : Bot
quiet = record bot { trigger_operator = some equals; trigger_value = some (codes "never") }

-- A message without a text starts a bot whose keyword a text would have to equal.
no_text :
    emit no_marks lower no_pattern true
      (record hello { content = none })
      (record store { bots = quiet ∷ [] })
    ≡ process_bot quiet none (merged defaults defaults) 1
unfolding chatbot
no_text = refl

find_bot_by_trigger-IsMatch_example :
    IsMatch no_marks lower no_pattern (some (codes "hola")) (codes "i") bot
unfolding chatbot
find_bot_by_trigger-IsMatch_example =
    find_bot_by_trigger-IsMatch no_marks lower no_pattern store.bots (some (codes "hola"))
      (codes "i") bot refl

emit-IsReply_example :
    IsReply no_marks lower no_pattern true hello store bot none (merged defaults defaults) 1
unfolding chatbot
emit-IsReply_example =
    emit-IsReply no_marks lower no_pattern true hello store bot none (merged defaults defaults) 1
      refl

abbrev pub instances : Instances
instances = (codes "main", codes "i") ∷ (codes "other", codes "j") ∷ []

ignore_jid-emit_example :
    emit no_marks lower no_pattern true hello
      (ignore_jid true instances (codes "main") true (codes "51") store).1
    ≡ silent
unfolding chatbot
ignore_jid-emit_example =
    ignore_jid-emit no_marks lower no_pattern true instances (codes "main") hello store refl refl

delete_bot-ok_example :
    (has_row bot_id
        (codes "b")
        (delete_bot true instances (codes "main") (codes "b") (with_session opened)).1.bots
      ≡ false)
    × (any
          (is_session_of_bot (codes "b"))
          (delete_bot true instances (codes "main") (codes "b") (with_session opened)).1.sessions
        ≡ false)
unfolding chatbot
delete_bot-ok_example =
    delete_bot-ok true instances (codes "main") (codes "b") (with_session opened) refl

abbrev deleted : Change
deleted =
    change_status true true (codes "other" ∷ []) instances (codes "other") (codes "51") delete
      (with_session opened)

-- The session is one of the first instance, the call is for the second one.
change_status-delete_example :
    (deleted.0 ≡ ok tt)
    × (((m : Incoming) → m.remote_jid ≡ codes "51" → get_session m deleted.1.sessions ≡ none)
        × ((m : Incoming)
            → m.remote_jid ≢ codes "51"
            → get_session m deleted.1.sessions ≡ get_session m (with_session opened).sessions))
unfolding chatbot
change_status-delete_example =
    change_status-delete true (codes "other" ∷ []) instances (codes "other") (codes "51")
      (codes "j") (with_session opened) refl refl

not_loaded :
    change_status true true [] instances (codes "other") (codes "51") delete (with_session opened)
    ≡ (err HttpError.internal, with_session opened)
unfolding chatbot
not_loaded = refl
