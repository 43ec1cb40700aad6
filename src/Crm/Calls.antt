-- ===== src/Crm/Calls.antt =====
-- The calls of the three CRM services that write, and any sequence of them.
use lydia_bg_back.Prelude.{ℕ, Text, [], ◌≡◌, ◌≢◌, ◌⊎◌, Option, none, some, HttpError, err}
use lydia_bg_back.Crm.State.{Db, Outcome}
use lydia_bg_back.Crm.Leads.{
  LeadData, LeadPatch, create_lead, create_historical_lead, update_lead, delete_lead,
}
use lydia_bg_back.Crm.Calendar.{EventData, EventPatch, create_event, update_event, delete_event}
use lydia_bg_back.Crm.Conversations.{
  AgentData, ChatPatch, create_agent, update_conversation, add_note, delete_conversation,
}
use lydia_bg_back.Crm.Consistent.{IsConsistent}
use lydia_bg_back.Crm.Tasks.{delete_event-Settles}
use lydia_bg_back.Crm.Events.{create_event-Settles, update_event-Settles}
use lydia_bg_back.Crm.LeadFlags.{insert_lead-Settles, update_lead-Settles, delete_lead-Settles}
use lydia_bg_back.Crm.Deletion.{
  delete_conversation-Settles, add_note-Settles, create_agent-Settles,
  update_conversation-IsConsistent, IsMarkedRead,
}

-- One constructor for a method; the first text of a call that creates a row is the row's id.
pub data CrmCall : Type 0 where
  creates_lead : Text → LeadData → CrmCall
  imports_lead : Text → ℕ → ℕ → LeadData → CrmCall
  updates_lead : Text → LeadPatch → CrmCall
  deletes_lead : Text → CrmCall
  creates_event : Text → EventData → CrmCall
  updates_event : Text → EventPatch → CrmCall
  deletes_event : Text → CrmCall
  creates_agent : Text → AgentData → CrmCall
  updates_conversation : Text → ChatPatch → CrmCall
  adds_note : Text → Text → Option Text → Option Text → CrmCall
  deletes_conversation : Text → CrmCall

module _ (parse_date : Text → Option ℕ) where
  unfoldable pub perform : ℕ → CrmCall → Db → Outcome
  unfolding create_event update_event delete_event update_lead delete_lead create_agent
      update_conversation add_note delete_conversation
  perform now (creates_lead id body) db = create_lead now id body db
  perform now (imports_lead id created updated body) db =
      create_historical_lead now id created updated body db
  perform now (updates_lead id body) db = update_lead now id body db
  perform now (deletes_lead id) db = delete_lead id db
  perform now (creates_event id body) db = create_event parse_date now id body db
  perform now (updates_event id body) db = update_event parse_date now id body db
  perform now (deletes_event id) db = delete_event now id db
  perform now (creates_agent id body) db = create_agent id body db
  perform now (updates_conversation id body) db = update_conversation id body db
  perform now (adds_note id chat content agent) db = add_note id chat content agent db
  perform now (deletes_conversation id) db = delete_conversation id db

  -- The database gives a lead an id that is not empty, and a client does not set the flag of open tasks.
  abbrev pub IsProper : CrmCall → Type 0
  IsProper (creates_lead id body) = id ≢ []
  IsProper (imports_lead id created updated body) = id ≢ []
  IsProper (updates_lead id body) = body.has_pending_tasks ≡ none
  IsProper _ = Unit

  -- What a call may leave when it throws.
  abbrev pub IsUndone : CrmCall → Db → Db → Type 0
  IsUndone (updates_conversation id body) db w = (w ≡ db) ⊎ IsMarkedRead id body db w
  IsUndone _ db w = w ≡ db

  perform-IsUndone :
      (now : ℕ) (call : CrmCall) (db : Db)
      → IsProper call
      → IsConsistent db
      → IsConsistent (perform now call db).1
        × ((e : HttpError)
            → (perform now call db).0 ≡ err e
            → IsUndone call db (perform now call db).1)
  unfolding perform
  perform-IsUndone now (creates_lead id body) db p c = insert_lead-Settles now id none body db p c
  perform-IsUndone now (imports_lead id created updated body) db p c =
      insert_lead-Settles now id (some (created, updated)) body db p c
  perform-IsUndone now (updates_lead id body) db p c = update_lead-Settles now id body db p c
  perform-IsUndone now (deletes_lead id) db p c = delete_lead-Settles id db c
  perform-IsUndone now (creates_event id body) db p c =
      create_event-Settles now parse_date id body db c
  perform-IsUndone now (updates_event id body) db p c =
      update_event-Settles now parse_date id body db c
  perform-IsUndone now (deletes_event id) db p c = delete_event-Settles now id db c
  perform-IsUndone now (creates_agent id body) db p c = create_agent-Settles id body db c
  perform-IsUndone now (updates_conversation id body) db p c =
      update_conversation-IsConsistent id body db c
  perform-IsUndone now (adds_note id chat content agent) db p c =
      add_note-Settles id chat content agent db c
  perform-IsUndone now (deletes_conversation id) db p c = delete_conversation-Settles id db c

  -- A proper call that throws on consistent tables leaves every table as it was, but for one that sets
  -- the unread messages of a conversation to 0, which may leave that conversation's messages marked as
  -- read and everything else as it was.
  pub perform_err :
      (now : ℕ) (call : CrmCall) (db : Db) (e : HttpError)
      → IsProper call
      → IsConsistent db
      → (perform now call db).0 ≡ err e
      → IsUndone call db (perform now call db).1
  perform_err now call db e p c h = (perform-IsUndone now call db p c).1 e h

  -- Proper calls at their times, one after the other, whether they throw or not.
  pub data IsHistory : Db → Db → Type 0 where
    start : {db : Db} → IsHistory db db
    step :
        {db w : Db} (now : ℕ) (call : CrmCall)
        → IsHistory db w
        → IsProper call
        → IsHistory db (perform now call w).1

  -- After any sequence of proper calls on consistent tables, the tables are consistent: the flag of
  -- each lead says whether it has an open task, and the events have distinct ids and refer to leads.
  pub IsHistory-IsConsistent : (db w : Db) → IsHistory db w → IsConsistent db → IsConsistent w
  IsHistory-IsConsistent db w start c = c
  IsHistory-IsConsistent db w (step now call h p) c =
      (perform-IsUndone now call _ p (IsHistory-IsConsistent db _ h c)).0
