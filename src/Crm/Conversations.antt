-- ===== src/Crm/Conversations.antt =====
-- The writes of src/api/services/crm.service.ts: agents, conversations and their notes.
use lydia_bg_back.Prelude.{
  ℕ, zero, suc, Text, codes, List, [], ◌∷◌, Bool, true, false, not, ◌&&◌, ◌||◌, Option, none, some,
  any, find, filter, push, trim, leb, ◌==◌, if◌then◌else◌, bad_request, not_found, internal,
}
use lydia_bg_back.Table.{find_row, has_row, update_row, delete_row}
use lydia_bg_back.Crm.State.{
  AgentRole, asesor, Agent, ChatStatus, Chat, CalendarEvent, Lead, Note, Message, Db, agent_id,
  chat_id, note_id, Outcome, return_ok, throw, is_missing, or_empty, refers_to, is_reference,
  is_known, patched,
}
use lydia_bg_back.Crm.Leads.{delete_lead_row}

pub record AgentData : Type 0 where
  pub name : Option Text
  pub email : Option Text
  pub color : Option Text
  pub role : Option AgentRole

pub record ChatPatch : Type 0 where
  pub status : Option ChatStatus
  pub assigned_agent_id : Option (Option Text)
  pub unread_messages : Option ℕ
  pub contact_name_override : Option (Option Text)
  pub contact_phone_override : Option (Option Text)
  pub archived : Option Bool

abbrev pub has_email : Option Text → List Agent → Bool
has_email none agents = false
has_email (some email) agents = any (λ (a : Agent). refers_to email a.email) agents

-- `id` is the id that the database gives the agent.
unfoldable pub create_agent : Text → AgentData → Db → Outcome
create_agent id body db =
    if is_missing body.name
    then throw bad_request db
    else if has_email body.email db.agents || has_row agent_id id db.agents
    then throw internal db
    else return_ok (record db {
      agents = push db.agents (record {
        id = id;
        name = or_empty body.name;
        email = body.email;
        color = body.color;
        role = patched body.role asesor;
        active = true;
      });
    })

-- `messageStatus[3]` and `messageStatus[4]`
abbrev pub delivery_ack : Text
delivery_ack = codes "DELIVERY_ACK"

abbrev pub read : Text
read = codes "READ"

-- The messages that the counter of unread messages of a chat counts.
abbrev pub is_message_of : Chat → Message → Bool
is_message_of c m = m.instance_id == c.instance_id && m.remote_jid == c.remote_jid

abbrev pub is_unread : Option Text → Bool
is_unread none = true
is_unread (some s) = s == delivery_ack

abbrev pub mark_read : Chat → Message → Message
mark_read c m =
    if is_message_of c m && (not m.from_me && is_unread m.status)
    then record m { status = some read }
    else m

unfoldable pub mark_all_read : Chat → List Message → List Message
mark_all_read c [] = []
mark_all_read c (m ∷ ms) = mark_read c m ∷ mark_all_read c ms

-- `value?.trim() || null`
abbrev pub cleaned : Option Text → Option Text
cleaned t = let s = trim (or_empty t) in if is_missing (some s) then none else some s

abbrev pub patched_override : Option (Option Text) → Option Text → Option Text
patched_override none old = old
patched_override (some t) old = cleaned t

abbrev pub patch_chat : ChatPatch → Chat → Chat
patch_chat body c = record c {
  status = patched body.status c.status;
  assigned_agent_id = patched body.assigned_agent_id c.assigned_agent_id;
  unread_messages = patched body.unread_messages c.unread_messages;
  contact_name_override = patched_override body.contact_name_override c.contact_name_override;
  contact_phone_override = patched_override body.contact_phone_override c.contact_phone_override;
  archived = patched body.archived c.archived;
}

-- The characters of a text, of which one outside of the basic plane is two units.
unfoldable pub characters : Text → ℕ
characters [] = 0
characters (c ∷ t) =
    let rest = characters t in if leb 0xdc00 c && leb c 0xdfff then rest else suc rest

-- Whether a VARCHAR of a width takes a value.
abbrev pub is_within : ℕ → Option Text → Bool
is_within width none = true
is_within width (some t) = leb (characters t) width

abbrev pub fits_overrides : ChatPatch → Bool
fits_overrides body =
    is_within 100 (patched_override body.contact_name_override none)
    && is_within 30 (patched_override body.contact_phone_override none)

-- `chat.update`, which the agents' foreign key and the widths of the columns can refuse
unfoldable pub update_chat_row : Text → ChatPatch → Db → Outcome
unfolding update_row characters
update_chat_row id body db =
    if is_reference agent_id (patched body.assigned_agent_id none) db.agents && fits_overrides body
    then return_ok (record db { chats = update_row chat_id id (patch_chat body) db.chats })
    else throw internal db

-- `unreadMessages` may only be set to 0, and sets the messages' status too.
unfoldable pub update_unread : Chat → ChatPatch → Option ℕ → Db → Outcome
unfolding update_chat_row mark_all_read
update_unread c body none db = update_chat_row c.id body db
update_unread c body (some zero) db =
    update_chat_row c.id body (record db { messages = mark_all_read c db.messages })
update_unread c body (some (suc n)) db = throw bad_request db

unfoldable pub update_conversation : Text → ChatPatch → Db → Outcome
unfolding update_unread
update_conversation id body db = elim (find_row chat_id id db.chats) [
  | none ↦ throw not_found db
  | some c ↦
      if not (is_known agent_id (patched body.assigned_agent_id none) db.agents)
      then throw bad_request db
      else update_unread c body body.unread_messages db
]

-- `id` is the id that the database gives the note.
unfoldable pub add_note : Text → Text → Option Text → Option Text → Db → Outcome
add_note id chat content agent db =
    if not (has_row chat_id chat db.chats)
    then throw not_found db
    else if is_missing (some (trim (or_empty content)))
    then throw bad_request db
    else if not (is_reference agent_id agent db.agents) || has_row note_id id db.notes
    then throw internal db
    else return_ok (record db {
      notes =
          push db.notes
            (record { id = id; chat_id = chat; agent_id = agent; content = or_empty content });
    })

-- `calendarEvent.deleteMany({ where: { leadId } })` and `lead.delete`
unfoldable pub delete_lead_with_events : Text → Db → Db
unfolding delete_lead_row
delete_lead_with_events lead db = delete_lead_row lead (record db {
  events = filter (λ (e : CalendarEvent). not (refers_to lead e.lead_id)) db.events;
})

unfoldable pub delete_linked_lead : Option Lead → Db → Db
unfolding delete_lead_with_events
delete_linked_lead none db = db
delete_linked_lead (some l) db = delete_lead_with_events l.id db

-- ON DELETE SET NULL of the leads' foreign key
abbrev pub forget_chat : Text → Lead → Lead
forget_chat chat l = record l { chat_id = if refers_to chat l.chat_id then none else l.chat_id }

unfoldable pub forget_chats : Text → List Lead → List Lead
forget_chats chat [] = []
forget_chats chat (l ∷ ls) = forget_chat chat l ∷ forget_chats chat ls

-- `chat.delete`, with ON DELETE CASCADE of the notes' foreign key
unfoldable pub delete_chat_row : Text → Db → Db
unfolding delete_row forget_chats
delete_chat_row chat db = record db {
  chats = delete_row chat_id chat db.chats;
  leads = forget_chats chat db.leads;
  notes = filter (λ (n : Note). not (n.chat_id == chat)) db.notes;
}

-- The transaction, whose statements all find the rows that they name.
unfoldable pub delete_conversation : Text → Db → Outcome
unfolding delete_linked_lead delete_chat_row
delete_conversation chat db = elim (find_row chat_id chat db.chats) [
  | none ↦ throw not_found db
  | some c ↦
      let w = delete_linked_lead (find (λ (l : Lead). refers_to chat l.chat_id) db.leads) db in
      return_ok (
        delete_chat_row chat
          (record w { messages = filter (λ (m : Message). not (is_message_of c m)) w.messages }))
]
