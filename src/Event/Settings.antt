-- ===== src/Event/Settings.antt =====
-- Which events the webhook of an instance reports: `set` of
-- src/api/integrations/event/webhook/webhook.controller.ts, and the guard on the status and `get` of
-- event.controller.ts beside it. The other transports store rows without the columns of the address.
use lydia_bg_back.Prelude.{
  Text, codes, List, [], ◌∷◌, Bool, true, false, not, Option, none, some, push, lookup, is_empty,
  if◌then◌else◌, internal, Result, ok, err,
}
use lydia_bg_back.Table.{find_row, update_row}

-- `EventController.events`
abbrev pub all_events : List Text
all_events =
    codes "APPLICATION_STARTUP"
    ∷ codes "QRCODE_UPDATED"
    ∷ codes "MESSAGES_SET"
    ∷ codes "MESSAGES_UPSERT"
    ∷ codes "MESSAGES_EDITED"
    ∷ codes "MESSAGES_UPDATE"
    ∷ codes "MESSAGES_DELETE"
    ∷ codes "SEND_MESSAGE"
    ∷ codes "SEND_MESSAGE_UPDATE"
    ∷ codes "CONTACTS_SET"
    ∷ codes "CONTACTS_UPSERT"
    ∷ codes "CONTACTS_UPDATE"
    ∷ codes "PRESENCE_UPDATE"
    ∷ codes "CHATS_SET"
    ∷ codes "CHATS_UPSERT"
    ∷ codes "CHATS_UPDATE"
    ∷ codes "CHATS_DELETE"
    ∷ codes "GROUPS_UPSERT"
    ∷ codes "GROUP_UPDATE"
    ∷ codes "GROUP_PARTICIPANTS_UPDATE"
    ∷ codes "CONNECTION_UPDATE"
    ∷ codes "LABELS_EDIT"
    ∷ codes "LABELS_ASSOCIATION"
    ∷ codes "CALL"
    ∷ codes "TYPEBOT_START"
    ∷ codes "TYPEBOT_CHANGE_STATUS"
    ∷ codes "REMOVE_INSTANCE"
    ∷ codes "LOGOUT_INSTANCE"
    ∷ codes "INSTANCE_CREATE"
    ∷ codes "INSTANCE_DELETE"
    ∷ codes "STATUS_INSTANCE"
    ∷ []

-- A row of the webhook; missing headers are an empty list.
pub record LocalEvent : Type 0 where
  pub instance_id : Text
  pub enabled : Bool
  pub events : List Text
  pub url : Text
  pub headers : List (Text × Text)
  pub by_events : Bool

-- The `webhook` of a request, where any field may be missing.
pub record EventDto : Type 0 where
  pub enabled : Option Bool
  pub events : Option (List Text)
  pub url : Option Text
  pub headers : Option (List (Text × Text))
  pub by_events : Option Bool

abbrev pub instance_key : LocalEvent → Text
instance_key e = e.instance_id

-- `monitor.waInstances`: the id of an instance that is loaded, by its name.
abbrev pub WaInstances : Type 0
WaInstances = List (Text × Text)

-- The events that are stored; the length of a missing list is read, which throws.
abbrev pub stored_events : Option Bool → Option (List Text) → Option (List Text)
stored_events (some true) none = none
stored_events (some true) (some events) = some (if is_empty events then all_events else events)
stored_events _ events = some []

-- A field of the request, or what the column has if it is missing.
abbrev pub or_column {ℓ} : {A : Type ℓ} → Option A → A → A
or_column none old = old
or_column (some a) old = a

-- `update`: Prisma leaves the column of a missing field as it is.
abbrev pub replaced : EventDto → List Text → LocalEvent → LocalEvent
replaced body events old = record old {
  enabled = or_column body.enabled old.enabled;
  events = events;
  url = or_column body.url old.url;
  headers = or_column body.headers old.headers;
  by_events = or_column body.by_events old.by_events;
}

-- `create`: the columns but that of the address have defaults.
abbrev pub event_row : Text → EventDto → List Text → Option LocalEvent
event_row id body events = elim body.url [
  | none ↦ none
  | some url ↦ some (record {
    instance_id = id;
    enabled = or_column body.enabled true;
    events = events;
    url = url;
    headers = or_column body.headers [];
    by_events = or_column body.by_events false;
  })
]

abbrev pub Stored : Type 0
Stored = Result Unit × List LocalEvent

abbrev pub create_row : Option LocalEvent → List LocalEvent → Stored
create_row none rows = (err internal, rows)
create_row (some e) rows = (ok tt, push rows e)

unfoldable pub upsert : Text → EventDto → List Text → List LocalEvent → Stored
unfolding update_row push
upsert id body events rows = elim (find_row instance_key id rows) [
  | none ↦ create_row (event_row id body events) rows
  | some old ↦ (ok tt, update_row instance_key id (replaced body events) rows)
]

unfoldable pub set_in : EventDto → List LocalEvent → Option Text → Option (List Text) → Stored
unfolding upsert
set_in body rows none events = (err internal, rows)
set_in body rows (some id) none = (err internal, rows)
set_in body rows (some id) (some events) = upsert id body events rows

-- `set`; `status` says whether the transport is on.
unfoldable pub set : Bool → WaInstances → Text → EventDto → List LocalEvent → Stored
unfolding set_in
set status instances name body rows =
    if not status
    then (ok tt, rows)
    else set_in body rows (lookup name instances) (stored_events body.enabled body.events)

unfoldable pub get : Bool → WaInstances → Text → List LocalEvent → Option LocalEvent
get status instances name rows =
    if not status
    then none
    else elim (lookup name instances) [ none ↦ none | some id ↦ find_row instance_key id rows ]
