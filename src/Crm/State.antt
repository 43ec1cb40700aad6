-- ===== src/Crm/State.antt =====
-- The tables that the CRM services read and write, from the models of prisma/postgresql-schema.prisma,
-- and what a call gives: a result or an exception, and the tables it leaves behind. Time stamps other
-- than those of leads and events, and the widths of columns other than those of a conversation's
-- overrides, are left out.
use lydia_bg_back.Prelude.{
  ℕ, zero, suc, ◌+◌, ◌/◌, ◌%◌, Text, codes, List, [], ◌∷◌, ◌++◌, Bool, true, false, ◌||◌, Option,
  none, some, is_empty, ltb, ◌==◌, if◌then◌else◌, HttpError, Result, ok, err,
}
use lydia_bg_back.Json.{Number}
use lydia_bg_back.Table.{has_row}

pub data LeadStage : Type 0 where
  contacto_inicial negociacion promesa_pago discusion_contrato matriculado venta_perdida : LeadStage

pub data CalendarEventType : Type 0 where
  chat nota tarea reserva : CalendarEventType

pub data ChatStatus : Type 0 where
  «open» pending resolved : ChatStatus

pub data AgentRole : Type 0 where
  asesor administrador : AgentRole

pub record Agent : Type 0 where
  pub id : Text
  pub name : Text
  pub email : Option Text
  pub color : Option Text
  pub role : AgentRole
  pub active : Bool

pub record Chat : Type 0 where
  pub id : Text
  pub instance_id : Text
  pub remote_jid : Text
  pub unread_messages : ℕ
  pub status : ChatStatus
  pub assigned_agent_id : Option Text
  pub contact_name_override : Option Text
  pub contact_phone_override : Option Text
  pub archived : Bool

pub record Lead : Type 0 where
  pub id : Text
  pub lead_number : Text
  pub contact_name : Text
  pub company : Option Text
  pub phone : Option Text
  pub email : Option Text
  pub position : Option Text
  pub source : Text
  pub budget : Option Text
  pub budget_amount : Number
  pub stage : LeadStage
  pub has_pending_tasks : Bool
  pub observations : Option Text
  pub chat_id : Option Text
  pub assigned_agent_id : Option Text
  pub created_at : ℕ
  pub updated_at : ℕ

pub record CalendarEvent : Type 0 where
  pub id : Text
  pub kind : CalendarEventType
  pub lead_id : Option Text
  pub agent_id : Option Text
  pub start_at : ℕ
  pub end_at : ℕ
  pub note : Text
  pub completed : Bool

pub record Note : Type 0 where
  pub id : Text
  pub chat_id : Text
  pub agent_id : Option Text
  pub content : Text

-- `remote_jid` and `from_me` are fields of the JSON column `key`.
pub record Message : Type 0 where
  pub instance_id : Text
  pub remote_jid : Text
  pub from_me : Bool
  pub status : Option Text

pub record Db : Type 0 where
  pub agents : List Agent
  pub chats : List Chat
  pub leads : List Lead
  pub events : List CalendarEvent
  pub notes : List Note
  pub messages : List Message

abbrev pub agent_id : Agent → Text
agent_id a = a.id

abbrev pub chat_id : Chat → Text
chat_id c = c.id

abbrev pub lead_id : Lead → Text
lead_id l = l.id

abbrev pub event_id : CalendarEvent → Text
event_id e = e.id

abbrev pub note_id : Note → Text
note_id n = n.id

-- A call that throws keeps what it has written before.
abbrev pub Outcome : Type 0
Outcome = Result (Unit {0}) × Db

abbrev pub return_ok : Db → Outcome
return_ok db = (ok tt, db)

abbrev pub throw : HttpError → Db → Outcome
throw e db = (err e, db)

-- `!x` on a text that may be missing, and `x ?? ''`
abbrev pub is_missing : Option Text → Bool
is_missing none = true
is_missing (some t) = is_empty t

abbrev pub or_empty : Option Text → Text
or_empty none = []
or_empty (some t) = t

abbrev pub refers_to : Text → Option Text → Bool
refers_to k none = false
refers_to k (some j) = j == k

-- A foreign key: null, or the id of a row.
abbrev pub is_reference : {A : Type 0} → (A → Text) → Option Text → List A → Bool
is_reference key none rows = true
is_reference key (some k) rows = has_row key k rows

-- `if (id) { const row = await findUnique(...); if (!row) throw ... }` passes.
abbrev pub is_known : {A : Type 0} → (A → Text) → Option Text → List A → Bool
is_known key none rows = true
is_known key (some k) rows = is_empty k || has_row key k rows

-- An optional field of an update: undefined keeps the column.
abbrev pub patched {ℓ} : {A : Type ℓ} → Option A → A → A
patched none x = x
patched (some y) x = y

-- The decimal digits of a number; `n` steps are enough, since a step divides by ten.
unfoldable pub digits : ℕ → ℕ → Text
digits zero n = (n + 48) ∷ []
digits (suc fuel) n =
    let front = digits fuel (n / 10) in
    if ltb n 10 then (n + 48) ∷ [] else front ++ ((n % 10 + 48) ∷ [])

-- `LD-${count}`
unfoldable pub lead_number : ℕ → Text
unfolding digits
lead_number n = codes "LD-" ++ digits n n
