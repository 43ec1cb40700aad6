-- ===== src/Crm/Calendar.antt =====
-- The calendar: src/api/services/calendar-events.service.ts. `new Date(text)` is a parameter, with
-- `none` for an invalid date, which Prisma refuses.
use lydia_bg_back.Prelude.{
  ℕ, Text, Bool, true, false, not, ◌&&◌, ◌||◌, Option, none, some, any, push, ◌==◌, if◌then◌else◌,
  bad_request, not_found, internal, ok, err,
}
use lydia_bg_back.Table.{find_row, has_row, update_row, delete_row}
use lydia_bg_back.Crm.State.{
  CalendarEventType, chat, nota, tarea, reserva, CalendarEvent, Lead, Db, agent_id, lead_id,
  event_id, Outcome, return_ok, throw, is_missing, or_empty, refers_to, is_reference, is_known,
  patched,
}

pub record EventData : Type 0 where
  pub kind : Option CalendarEventType
  pub lead_id : Option Text
  pub agent_id : Option Text
  pub start_at : Option Text
  pub end_at : Option Text
  pub note : Option Text

pub record EventPatch : Type 0 where
  pub kind : Option CalendarEventType
  pub lead_id : Option (Option Text)
  pub agent_id : Option (Option Text)
  pub start_at : Option Text
  pub end_at : Option Text
  pub note : Option Text
  pub completed : Option Bool

abbrev pub is_task : CalendarEventType → Bool
is_task tarea = true
is_task chat = false
is_task nota = false
is_task reserva = false

-- `where: { leadId, type: 'tarea', completed: false }`
abbrev pub is_pending : Text → CalendarEvent → Bool
is_pending lead e = refers_to lead e.lead_id && (is_task e.kind && not e.completed)

abbrev pub set_pending : ℕ → Bool → Lead → Lead
set_pending now b l = record l { has_pending_tasks = b; updated_at = now }

-- `syncLeadPendingTasks`: `lead.update` throws if there is no such lead.
unfoldable pub sync_lead_pending_tasks : ℕ → Text → Db → Outcome
unfolding update_row
sync_lead_pending_tasks now lead db =
    if has_row lead_id lead db.leads
    then return_ok (record db {
      leads = update_row lead_id lead (set_pending now (any (is_pending lead) db.events)) db.leads;
    })
    else throw internal db

-- `if (leadId) await this.syncLeadPendingTasks(leadId)`
unfoldable pub sync_if_linked : ℕ → Option Text → Db → Outcome
unfolding sync_lead_pending_tasks
sync_if_linked now none db = return_ok db
sync_if_linked now (some lead) db =
    if is_missing (some lead) then return_ok db else sync_lead_pending_tasks now lead db

abbrev pub then_run : Outcome → (Db → Outcome) → Outcome
then_run (ok u, db) f = f db
then_run (err e, db) f = (err e, db)

abbrev pub is_same : Option Text → Option Text → Bool
is_same none none = true
is_same (some j) (some k) = j == k
is_same none (some k) = false
is_same (some j) none = false

-- The loop over `new Set([existing.leadId, event.leadId].filter(Boolean))`
unfoldable pub sync_both : ℕ → Option Text → Option Text → Db → Outcome
unfolding sync_if_linked
sync_both now before after db =
    if is_same before after
    then sync_if_linked now before db
    else then_run (sync_if_linked now before db) (sync_if_linked now after)

-- `calendarEvent.create`
unfoldable pub create_event_row : CalendarEvent → Db → Outcome
create_event_row e db =
    if (is_reference agent_id e.agent_id db.agents && is_reference lead_id e.lead_id db.leads)
      && not (has_row event_id e.id db.events)
    then return_ok (record db { events = push db.events e })
    else throw internal db

unfoldable pub delete_event : ℕ → Text → Db → Outcome
unfolding sync_if_linked delete_row
delete_event now id db = elim (find_row event_id id db.events) [
  | none ↦ throw not_found db
  | some e ↦ sync_if_linked now e.lead_id (record db { events = delete_row event_id id db.events })
]

module _ (parse_date : Text → Option ℕ) where
  -- `id` is the id that the database gives the event.
  abbrev pub event_row : Text → CalendarEventType → EventData → ℕ → ℕ → CalendarEvent
  event_row id kind body from to = record {
    id = id;
    kind = kind;
    lead_id = body.lead_id;
    agent_id = body.agent_id;
    start_at = from;
    end_at = to;
    note = or_empty body.note;
    completed = false;
  }

  -- The write and what follows it.
  unfoldable pub store_event : ℕ → CalendarEvent → Db → Outcome
  unfolding create_event_row sync_if_linked
  store_event now e db =
      then_run (create_event_row e db)
        (λ w. if is_task e.kind then sync_if_linked now e.lead_id w else return_ok w)

  unfoldable pub create_dated_event :
      ℕ → Text → CalendarEventType → EventData → Option ℕ → Option ℕ → Db → Outcome
  unfolding store_event
  create_dated_event now id kind body (some from) (some to) db =
      store_event now (event_row id kind body from to) db
  create_dated_event now id kind body none to db = throw internal db
  create_dated_event now id kind body (some from) none db = throw internal db

  unfoldable pub create_event_kind : ℕ → Text → Option CalendarEventType → EventData → Db → Outcome
  unfolding create_dated_event
  create_event_kind now id none body db = throw bad_request db
  create_event_kind now id (some kind) body db =
      if is_missing body.start_at || is_missing body.end_at
      then throw bad_request db
      else if not (is_known lead_id body.lead_id db.leads)
      then throw bad_request db
      else if not (is_known agent_id body.agent_id db.agents)
      then throw bad_request db
      else create_dated_event now id kind body (parse_date (or_empty body.start_at))
          (parse_date (or_empty body.end_at)) db

  unfoldable pub create_event : ℕ → Text → EventData → Db → Outcome
  unfolding create_event_kind
  create_event now id body db = create_event_kind now id body.kind body db

  -- A date of an update: an empty text is passed on as it is, and refused.
  abbrev pub patched_date : Option Text → ℕ → Option ℕ
  patched_date none d = some d
  patched_date (some t) d = if is_missing (some t) then none else parse_date t

  abbrev pub patch_event : EventPatch → ℕ → ℕ → CalendarEvent → CalendarEvent
  patch_event body from to e = record e {
    kind = patched body.kind e.kind;
    lead_id = patched body.lead_id e.lead_id;
    agent_id = patched body.agent_id e.agent_id;
    start_at = from;
    end_at = to;
    note = patched body.note e.note;
    completed = patched body.completed e.completed;
  }

  -- `calendarEvent.update` of `existing`, and the leads before and after.
  unfoldable pub update_dated_event :
      ℕ → Text → EventPatch → CalendarEvent → Option ℕ → Option ℕ → Db → Outcome
  unfolding sync_both update_row
  update_dated_event now id body existing (some from) (some to) db =
      if is_reference lead_id (patched body.lead_id none) db.leads
        && is_reference agent_id (patched body.agent_id none) db.agents
      then sync_both now existing.lead_id (patched body.lead_id existing.lead_id)
          (record db { events = update_row event_id id (patch_event body from to) db.events })
      else throw internal db
  update_dated_event now id body existing none to db = throw internal db
  update_dated_event now id body existing (some from) none db = throw internal db

  unfoldable pub update_event : ℕ → Text → EventPatch → Db → Outcome
  unfolding update_dated_event
  update_event now id body db = elim (find_row event_id id db.events) [
    | none ↦ throw not_found db
    | some e ↦
        update_dated_event now id body e (patched_date body.start_at e.start_at)
          (patched_date body.end_at e.end_at) db
  ]
