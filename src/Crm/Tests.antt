-- ===== src/Crm/Tests.antt =====
-- Calls on a small set of tables, and the theorems at it.
use Prim.Native.String.{String}
use lydia_bg_back.Prelude.{
  ◌⊎◌, HttpError, ℕ, Text, codes, [], ◌∷◌, true, false, ◌≡◌, ◌≢◌, refl, Option, none, some,
  find-All, map, trim, push, ◌==◌, ok,
}
use lydia_bg_back.Json.{finite}
use lydia_bg_back.Table.{find_row, update_row, delete_row}
use lydia_bg_back.Crm.State.{contacto_inicial, tarea, «open», Chat, Lead, Db, lead_id, lead_number}
use lydia_bg_back.Crm.Leads.{LeadData, create_lead, delete_lead}
use lydia_bg_back.Crm.Calendar.{EventData}
use lydia_bg_back.Crm.Conversations.{
  ChatPatch, characters, update_chat_row, update_unread, delete_conversation,
}
use lydia_bg_back.Crm.Deletion.{IsMarkedRead}
use lydia_bg_back.Crm.Consistent.{IsConsistent}
use lydia_bg_back.Crm.Calls.{
  creates_event, deletes_event, updates_conversation, perform, start, step, IsHistory-IsConsistent,
  perform_err,
}
use lydia_bg_back.Crm.Numbers.{delete_lead-insert_lead}

-- What the tests compute with.
crm : Unit {0}
unfolding perform delete_lead delete_conversation update_unread update_chat_row characters ◌==◌ trim
    lead_number update_row delete_row push
crm = tt

abbrev dates : Text → Option ℕ
dates t = some 7

abbrev conversation : Chat
conversation = record {
  id = codes "c";
  instance_id = codes "i";
  remote_jid = codes "51";
  unread_messages = 0;
  status = «open»;
  assigned_agent_id = none;
  contact_name_override = none;
  contact_phone_override = none;
  archived = false;
}

abbrev lead : String → ℕ → Option Text → Lead
lead id n c = record {
  id = codes id;
  lead_number = lead_number n;
  contact_name = codes "Ana";
  company = none;
  phone = none;
  email = none;
  position = none;
  source = codes "web";
  budget = none;
  budget_amount = finite 0;
  stage = contacto_inicial;
  has_pending_tasks = false;
  observations = none;
  chat_id = c;
  assigned_agent_id = none;
  created_at = 1;
  updated_at = 1;
}

abbrev tables : Db
tables = record {
  agents = [];
  chats = conversation ∷ [];
  leads = lead "a" 1 (some (codes "c")) ∷ lead "b" 2 none ∷ [];
  events = [];
  notes = record { id = codes "n"; chat_id = codes "c"; agent_id = none; content = codes "x" } ∷ [];
  messages =
      record { instance_id = codes "i"; remote_jid = codes "51"; from_me = false; status = none }
      ∷ [];
}

abbrev task : EventData
task = record {
  kind = some tarea;
  lead_id = some (codes "a");
  agent_id = none;
  start_at = some (codes "2026");
  end_at = some (codes "2026");
  note = none;
}

abbrev new_lead : LeadData
new_lead = record {
  contact_name = some (codes "Luz");
  company = none;
  phone = none;
  email = none;
  position = none;
  source = some (codes "web");
  budget = none;
  budget_amount = none;
  observations = none;
  chat_id = none;
  assigned_agent_id = none;
}

-- No lead has an open task.
tables-IsConsistent : IsConsistent tables
unfolding crm
tables-IsConsistent = record {
  keyed = tt;
  linked = tt;
  named = refl;
  synced = λ k l f q. unflagged k l f;
}
  where
    unflagged :
        (k : Text) (l : Lead)
        → find_row lead_id k tables.leads ≡ some l
        → l.has_pending_tasks ≡ false
    unflagged k l f =
        (find-All (λ (m : Lead). m.has_pending_tasks ≡ false) (λ m. m.id == k) tables.leads
          (refl, (refl, tt)) f).0

abbrev after_task : Db
after_task = (perform dates 9 (creates_event (codes "t") task) tables).1

-- The new task sets the flag of its lead, and its deletion clears it.
task_flags : map (λ (l : Lead). l.has_pending_tasks) after_task.leads ≡ true ∷ false ∷ []
unfolding crm
task_flags = refl

no_task_flags :
    map
      (λ (l : Lead). l.has_pending_tasks)
      (perform dates 10 (deletes_event (codes "t")) after_task).1.leads
    ≡ false ∷ false ∷ []
unfolding crm
no_task_flags = refl

IsHistory-IsConsistent_example :
    IsConsistent
      (perform dates 10
        (deletes_event (codes "t"))
        (perform dates 9 (creates_event (codes "t") task) tables).1).1
IsHistory-IsConsistent_example =
    IsHistory-IsConsistent dates tables
      (perform dates 10 (deletes_event (codes "t"))
        (perform dates 9 (creates_event (codes "t") task) tables).1).1
      (step 10 (deletes_event (codes "t")) (step 9 (creates_event (codes "t") task) start tt) tt)
      tables-IsConsistent

-- A phone number of 31 digits is refused after the messages have been marked as read.
abbrev too_long : ChatPatch
too_long = record {
  status = none;
  assigned_agent_id = none;
  unread_messages = some 0;
  contact_name_override = none;
  contact_phone_override = some (some (codes "5100000000000000000000000000000"));
  archived = none;
}

perform_err_example :
    ((perform dates 9 (updates_conversation (codes "c") too_long) tables).1 ≡ tables)
    ⊎ IsMarkedRead
        (codes "c")
        too_long
        tables
        (perform dates 9 (updates_conversation (codes "c") too_long) tables).1
unfolding crm
perform_err_example =
    perform_err dates 9 (updates_conversation (codes "c") too_long) tables HttpError.internal tt
      tables-IsConsistent refl

-- The new lead would be the second to have the number LD-2.
delete_lead-insert_lead_example :
    (create_lead 9 (codes "d") new_lead (delete_lead (codes "a") tables).1).0 ≢ ok tt
unfolding crm
delete_lead-insert_lead_example =
    delete_lead-insert_lead 9 (codes "a") (codes "d") none new_lead tables
      (lead "a" 1 (some (codes "c")) ∷ []) (lead "b" 2 none) refl (refl, tt) refl refl refl
