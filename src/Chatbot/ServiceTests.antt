-- ===== src/Chatbot/ServiceTests.antt =====
-- Runs of the calls that store bots, of the debounce and of a bot's service, and the theorems at them.
use lydia_bg_back.Prelude.{
  push, Text, codes, List, [], ◌∷◌, Bool, true, false, ◌≡◌, ◌≢◌, refl, none, some, push, length,
  split_first, contains, ◌==◌, trim, lookup, arith, starts_with,
}
use lydia_bg_back.Table.{update_row}
use lydia_bg_back.Chatbot.State.{all_messages, opened, IntegrationSession, Store}
use lydia_bg_back.Chatbot.Triggers.{includes}
use lydia_bg_back.Chatbot.Emit.{Incoming, get_session, emit, process_bot, no_options}
use lydia_bg_back.Chatbot.Bots.{BotData, create_bot, update_bot}
use lydia_bg_back.Chatbot.Slots.{IsExclusive}
use lydia_bg_back.Chatbot.Histories.{BotCall, creates, perform, start, step, IsRun-IsExclusive}
use lydia_bg_back.Chatbot.Debounce.{
  Debounce, Event, arrives, fires, empty, run, process_debounce, fire, hand_over, IsTimed,
}
use lydia_bg_back.Chatbot.Debounce.Timers.{run-IsTimed}
use lydia_bg_back.Chatbot.Debounce.Callers.{process_debounce-fire}
use lydia_bg_back.Chatbot.Process.{Service, process_session, forward}
use lydia_bg_back.Chatbot.Sessions.{process_session-closes}
use lydia_bg_back.Chatbot.Links.{scan, source, match_link, take_alt, take_url}
use lydia_bg_back.Chatbot.Links.Reading.{source-scan, scan_enough}
use lydia_bg_back.Chatbot.Outgoing.{
  Action, sends_text, waits, sends_media, image, Sending, Target,
  split_message_by_double_line_breaks, split_breaks, send_message_whats_app, act, send_pieces,
  send_piece, send_media, send_buffer, send_formatted_text, send_all, send_single_message,
  get_media_type,
}
use lydia_bg_back.Chatbot.Actions.{AllProper, send_message_whats_app-AllProper}
use lydia_bg_back.Chatbot.Tests.{
  lower, no_marks, no_pattern, defaults, bot, store, hello, with_session, instances,
}

-- What the tests compute with.
service : Unit {0}
unfolding perform create_bot update_bot run process_debounce fire hand_over process_session forward
    get_session scan match_link take_alt take_url split_message_by_double_line_breaks split_breaks
    send_message_whats_app act send_pieces send_piece includes starts_with send_media send_buffer
    send_formatted_text send_all send_single_message get_media_type push split_first contains ◌==◌
    trim lookup update_row
service = tt

abbrev always : Text → Text → Bool
always x y = true

abbrev no_bots : Store
no_bots = record store { bots = [] }

abbrev catching : BotData
catching = record {
  enabled = none;
  description = none;
  options = no_options;
  trigger_type = some all_messages;
  trigger_operator = none;
  trigger_value = none;
}

abbrev create_first : BotCall
create_first = creates (codes "main") (codes "c") (codes "t") catching

-- The second bot that catches all messages is refused.
abbrev create_second : BotCall
create_second = creates (codes "main") (codes "d") (codes "t") catching

after : BotCall → Store → Store
unfolding service
after call w = (perform defaults always true instances call w).1

second_refused :
    (after create_second (after create_first no_bots)).bots ≡ (after create_first no_bots).bots
unfolding service after
second_refused = refl

IsRun-IsExclusive_example : IsExclusive (after create_second (after create_first no_bots)).bots
unfolding service after
IsRun-IsExclusive_example =
    IsRun-IsExclusive defaults always true instances no_bots
      (after create_second (after create_first no_bots))
      (step create_second (step create_first start (λ h. cc)) (λ h. cc)) (λ j k a b s u v. cc)

abbrev three_events : List Event
three_events =
    arrives (codes "i") (codes "51") (codes "a")
    ∷ arrives (codes "i") (codes "51") (codes "b")
    ∷ arrives (codes "i") (codes "52") (codes "x")
    ∷ fires 1
    ∷ []

run-IsTimed_example : IsTimed (run three_events empty)
run-IsTimed_example = run-IsTimed three_events

-- What a first caller has handed in.
abbrev first_text : Debounce
first_text = run (arrives (codes "i") (codes "51") (codes "a") ∷ []) empty

process_debounce-fire_example :
    (fire 0 (process_debounce (codes "j") (codes "51") (codes "b") first_text)
      ≡ process_debounce (codes "j") (codes "51") (codes "b") first_text)
    × ((fire first_text.next_timer
          (process_debounce (codes "j") (codes "51") (codes "b") first_text)).handed
        ≡ push first_text.handed
            (record { caller = codes "j"; remote_jid = codes "51"; message = codes "a\nb" }))
unfolding service
process_debounce-fire_example =
    process_debounce-fire (arrives (codes "i") (codes "51") (codes "a") ∷ []) (codes "j")
      (codes "51") (codes "b") (record { message = codes "a"; timer = 0 }) refl

abbrev session : IntegrationSession
session = record {
  id = codes "z";
  instance_id = codes "i";
  remote_jid = codes "51";
  status = opened;
  bot_id = some (codes "b");
  created_at = 1;
  push_name = none;
  await_user = false;
  kind = codes "n8n";
}

abbrev bye : Incoming
bye = record hello { content = some (codes "Bye") }

abbrev serving : Store → Service
serving s = record { store = s; calls = [] }

process_session-closes_example :
    emit no_marks lower no_pattern true hello
      (process_session lower always session defaults
        (codes "Bye")
        (serving (with_session opened))).store
    ≢ process_bot bot (some session) defaults 1
unfolding service
process_session-closes_example =
    process_session-closes lower always no_marks no_pattern true bye hello (codes "Bye") session
      defaults (serving (with_session opened)) bot (some session) defaults 1 refl (λ h. cc) refl
      refl refl

abbrev bot_answer : Text
bot_answer = codes "Look: ![x](a.png) and [y](b)"

answer_pieces :
    (scan (length bot_answer) bot_answer).0
    ≡ record {
      before = codes "Look: ";
      link = record { bang = true; alt = codes "x"; url = codes "a.png" };
    }
      ∷ record {
        before = codes " and ";
        link = record { bang = false; alt = codes "y"; url = codes "b" };
      }
      ∷ []
unfolding service
answer_pieces = refl

source-scan_example : source (scan 28 bot_answer) ≡ bot_answer
source-scan_example = source-scan 28 bot_answer

scan_enough_example : scan 29 bot_answer ≡ scan 28 bot_answer
scan_enough_example = scan_enough 28 bot_answer (ground arith)

abbrev target : Target
target = record { remote_jid = codes "51@s.whatsapp.net"; is_baileys = false; link_preview = true }

abbrev taken : List Action → Action → Bool
taken before a = true

abbrev nothing_sent : Sending
nothing_sent = record { actions = []; going = true }

abbrev answer_sent : Sending
answer_sent = send_message_whats_app taken lower target defaults bot_answer nothing_sent

answer_actions :
    answer_sent.actions
    ≡ waits 1000
      ∷ sends_text (codes "51") 1000 (codes "Look:") true
      ∷ sends_media image (codes "51") 1000 (codes "a.png") (codes "x") none
      ∷ waits 1000
      ∷ sends_text (codes "51") 1000 (codes "and [y](b)") true
      ∷ []
unfolding service
answer_actions = refl

send_message_whats_app-AllProper_example : AllProper answer_sent
send_message_whats_app-AllProper_example =
    send_message_whats_app-AllProper taken target defaults lower bot_answer nothing_sent tt
