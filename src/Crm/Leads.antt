-- ===== src/Crm/Leads.antt =====
-- The sales pipeline: src/api/services/leads.service.ts. `now` is the time of the call.
use lydia_bg_back.Prelude.{
  ℕ, ◌+◌, Text, List, Bool, true, false, not, ◌&&◌, ◌||◌, Option, none, some, any, length, map,
  push, trim, ◌==◌, if◌then◌else◌, bad_request, not_found, internal, Result, ok, err,
}
use lydia_bg_back.Json.{Number, finite}
use lydia_bg_back.Table.{find_row, has_row, update_row, delete_row}
use lydia_bg_back.Crm.State.{
  LeadStage, contacto_inicial, Lead, CalendarEvent, Db, agent_id, chat_id, lead_id, Outcome,
  return_ok, throw, is_missing, or_empty, refers_to, is_reference, is_known, patched, lead_number,
}

-- The bodies of `POST /crm/leads` and `PATCH /crm/leads/:id`; a missing field is undefined.
pub record LeadData : Type 0 where
  pub contact_name : Option Text
  pub company : Option Text
  pub phone : Option Text
  pub email : Option Text
  pub position : Option Text
  pub source : Option Text
  pub budget : Option Text
  pub budget_amount : Option Number
  pub observations : Option Text
  pub chat_id : Option Text
  pub assigned_agent_id : Option Text

pub record LeadPatch : Type 0 where
  pub stage : Option LeadStage
  pub assigned_agent_id : Option (Option Text)
  pub contact_name : Option Text
  pub company : Option Text
  pub phone : Option Text
  pub email : Option Text
  pub position : Option Text
  pub source : Option Text
  pub budget : Option Text
  pub budget_amount : Option Number
  pub observations : Option Text
  pub has_pending_tasks : Option Bool
  pub chat_id : Option (Option Text)

-- A column that may be null, in an update that sets it to a text or leaves it alone.
abbrev pub patched_optional {ℓ} : {A : Type ℓ} → Option A → Option A → Option A
patched_optional none x = x
patched_optional (some y) x = some y

-- The unique indexes on `chatId` and on `leadNumber`.
abbrev pub has_lead_of : Text → List Lead → Bool
has_lead_of chat leads = any (λ (l : Lead). refers_to chat l.chat_id) leads

abbrev pub is_free_chat : Option Text → List Lead → Bool
is_free_chat none leads = true
is_free_chat (some chat) leads = not (has_lead_of chat leads)

abbrev pub has_number : Text → List Lead → Bool
has_number number leads = any (λ (l : Lead). l.lead_number == number) leads

-- `lead.create`: the constraints of the table, then the row.
unfoldable pub create_lead_row : Lead → Db → Outcome
create_lead_row l db =
    if (is_reference agent_id l.assigned_agent_id db.agents
        && is_reference chat_id l.chat_id db.chats)
      && (is_free_chat l.chat_id db.leads
          && not (has_number l.lead_number db.leads || has_row lead_id l.id db.leads))
    then return_ok (record db { leads = push db.leads l })
    else throw internal db

-- The row of a lead; `dates` are those of a lead of an import.
abbrev pub lead_row : ℕ → Text → Option (ℕ × ℕ) → LeadData → ℕ → Lead
lead_row now id dates body n = record {
  id = id;
  lead_number = lead_number (n + 1);
  contact_name = or_empty body.contact_name;
  company = body.company;
  phone = body.phone;
  email = body.email;
  position = body.position;
  source = or_empty body.source;
  budget = body.budget;
  budget_amount = patched body.budget_amount (finite 0);
  stage = contacto_inicial;
  has_pending_tasks = false;
  observations = body.observations;
  chat_id = body.chat_id;
  assigned_agent_id = body.assigned_agent_id;
  created_at = elim dates [ none ↦ now | some d ↦ d.0 ];
  updated_at = elim dates [ none ↦ now | some d ↦ d.1 ];
}

abbrev pub is_blank : Option Text → Bool
is_blank t = is_missing (some (trim (or_empty t)))

-- `id` is the id that the database gives the lead.
unfoldable pub insert_lead : ℕ → Text → Option (ℕ × ℕ) → LeadData → Db → Outcome
unfolding create_lead_row
insert_lead now id dates body db =
    if is_blank body.contact_name || is_blank body.source
    then throw bad_request db
    else if not (is_known agent_id body.assigned_agent_id db.agents)
    then throw bad_request db
    else if not (is_known chat_id body.chat_id db.chats)
    then throw bad_request db
    else create_lead_row (lead_row now id dates body (length db.leads)) db

abbrev pub create_lead : ℕ → Text → LeadData → Db → Outcome
create_lead now id body db = insert_lead now id none body db

abbrev pub create_historical_lead : ℕ → Text → ℕ → ℕ → LeadData → Db → Outcome
create_historical_lead now id created updated body db =
    insert_lead now id (some (created, updated)) body db

abbrev pub patch_lead : ℕ → LeadPatch → Lead → Lead
patch_lead now body l = record l {
  stage = patched body.stage l.stage;
  assigned_agent_id = patched body.assigned_agent_id l.assigned_agent_id;
  contact_name = patched body.contact_name l.contact_name;
  company = patched_optional body.company l.company;
  phone = patched_optional body.phone l.phone;
  email = patched_optional body.email l.email;
  position = patched_optional body.position l.position;
  source = patched body.source l.source;
  budget = patched_optional body.budget l.budget;
  budget_amount = patched body.budget_amount l.budget_amount;
  observations = patched_optional body.observations l.observations;
  has_pending_tasks = patched body.has_pending_tasks l.has_pending_tasks;
  chat_id = patched body.chat_id l.chat_id;
  updated_at = now;
}

-- Another lead with the chat that an update sets.
abbrev pub is_taken : Text → Option (Option Text) → List Lead → Bool
is_taken id (some (some chat)) leads =
    any (λ (l : Lead). refers_to chat l.chat_id && not (l.id == id)) leads
is_taken id _ leads = false

-- `lead.update`
unfoldable pub update_lead_row : ℕ → Text → LeadPatch → Db → Outcome
unfolding update_row
update_lead_row now id body db =
    if has_row lead_id id db.leads
      && (is_reference agent_id (patched body.assigned_agent_id none) db.agents
          && (is_reference chat_id (patched body.chat_id none) db.chats
              && not (is_taken id body.chat_id db.leads)))
    then return_ok (record db { leads = update_row lead_id id (patch_lead now body) db.leads })
    else throw internal db

unfoldable pub update_lead : ℕ → Text → LeadPatch → Db → Outcome
unfolding update_lead_row
update_lead now id body db =
    if not (has_row lead_id id db.leads)
    then throw not_found db
    else if not (is_known agent_id (patched body.assigned_agent_id none) db.agents)
    then throw bad_request db
    else update_lead_row now id body db

-- ON DELETE SET NULL of the events' foreign key
abbrev pub forget_lead : Text → CalendarEvent → CalendarEvent
forget_lead id e = if refers_to id e.lead_id then record e { lead_id = none } else e

unfoldable pub delete_lead_row : Text → Db → Db
unfolding delete_row
delete_lead_row id db = record db {
  leads = delete_row lead_id id db.leads;
  events = map (forget_lead id) db.events;
}

unfoldable pub delete_lead : Text → Db → Outcome
unfolding delete_lead_row
delete_lead id db =
    if has_row lead_id id db.leads then return_ok (delete_lead_row id db) else throw not_found db

unfoldable pub get_lead : Text → Db → Result Lead
get_lead id db = elim (find_row lead_id id db.leads) [ none ↦ err not_found | some l ↦ ok l ]
