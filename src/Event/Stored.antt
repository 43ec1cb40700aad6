-- ===== src/Event/Stored.antt =====
-- What `get` finds after `set`.
use lydia_bg_back.Prelude.{
  some_eq, none_ne_some, Text, List, [], true, ◌≡◌, ◌≢◌, refl, ap, sym, ◌∙◌, Option, none, some,
  inl, inr, lookup, ◌==◌, eq_iff, eq_refl, ok, err, internal, Bool, Bool-cases, Option-cases, false,
}
use lydia_bg_back.Table.{find_row, updated, or_new, find-update_row, find-push_row}
use lydia_bg_back.Event.Settings.{
  LocalEvent, EventDto, instance_key, WaInstances, stored_events, event_row, or_column, replaced,
  Stored, upsert, set_in, set, get,
}

-- The row of an instance after an upsert: the old one with the fields of the request, or a new one.
abbrev pub new_row : Text → EventDto → List Text → Option LocalEvent → Option LocalEvent
new_row id body events none = event_row id body events
new_row id body events (some old) = some (replaced body events old)

differs : (id k : Text) → k ≢ id → (id == k) ≡ false
differs id k n = elim (Bool-cases (id == k)) [
  | inl t ↦ absurd (n (sym ((eq_iff id k).0 t)))
  | inr t ↦ t
]

event_row-id :
    (id : Text) (body : EventDto) (events : List Text) {row : LocalEvent}
    → event_row id body events ≡ some row
    → row.instance_id ≡ id
event_row-id id body events {row} e = elim (Option-cases body.url) [
  | inl t ↦ absurd (none_ne_some (rw t at e))
  | inr (u, t) ↦ ap (λ (z : LocalEvent). z.instance_id) (sym (some_eq (rw t at e)))
]

or_new-other :
    (k : Text) (a : LocalEvent) (o : Option LocalEvent)
    → (a.instance_id == k) ≡ false
    → or_new instance_key k a o ≡ o
or_new-other k a none h = rw h refl
or_new-other k a (some b) h = refl

updated-other :
    (id k : Text) (f : LocalEvent → LocalEvent) (o : Option LocalEvent)
    → (id == k) ≡ false
    → updated instance_key id f k o ≡ o
updated-other id k f none h = refl
updated-other id k f (some b) h = rw h refl

-- How an upsert goes that can make its row.
record IsUpserted (id : Text) (rows : List LocalEvent) (row : LocalEvent) (r : Stored)
    : Type 0 where
  done : r.0 ≡ ok tt
  own : find_row instance_key id r.1 ≡ some row
  elsewhere : (k : Text) → k ≢ id → find_row instance_key k r.1 ≡ find_row instance_key k rows

upsert-IsUpserted :
    (id : Text) (body : EventDto) (events : List Text) (rows : List LocalEvent) (row : LocalEvent)
    → new_row id body events (find_row instance_key id rows) ≡ some row
    → IsUpserted id rows row (upsert id body events rows)
unfolding upsert
upsert-IsUpserted id body events rows row e = elim (Option-cases (find_row instance_key id rows)) [
  | inl t ↦
      let made = rw t at e in
      let named = event_row-id id body events made in
      rw (upsert, t)
        (rw made (record {
          done = refl;
          own = find-push_row instance_key id row rows ∙ rw (t, named, eq_refl id) refl;
          elsewhere = λ k n.
              find-push_row instance_key k row rows
              ∙ or_new-other k row (find_row instance_key k rows)
                  (ap (λ i. i == k) named ∙ differs id k n);
        }))
  | inr (old, t) ↦
      let made = some_eq (rw t at e) in
      rw (upsert, t)
        (record {
          done = refl;
          own =
              find-update_row instance_key id id (replaced body events) rows (λ a. refl)
              ∙ rw (t, eq_refl id) (ap some made);
          elsewhere = λ k n.
              find-update_row instance_key id k (replaced body events) rows (λ a. refl)
              ∙ updated-other id k (replaced body events) (find_row instance_key k rows)
                  (differs id k n);
        })
]

-- An upsert that cannot make its row changes nothing.
upsert-refused :
    (id : Text) (body : EventDto) (events : List Text) (rows : List LocalEvent)
    → new_row id body events (find_row instance_key id rows) ≡ none
    → upsert id body events rows ≡ (err internal, rows)
unfolding upsert
upsert-refused id body events rows e = elim (Option-cases (find_row instance_key id rows)) [
  | inl t ↦ rw (upsert, t) (rw (rw t at e) refl)
  | inr (old, t) ↦ absurd (none_ne_some (sym (rw t at e)))
]

set-stored :
    (instances : WaInstances) (name id : Text) (body : EventDto) (events : List Text)
    (rows : List LocalEvent)
    → lookup name instances ≡ some id
    → stored_events body.enabled body.events ≡ some events
    → set true instances name body rows ≡ upsert id body events rows
unfolding set set_in
set-stored instances name id body events rows e f = rw (set, e, f) refl

get-found :
    (instances : WaInstances) (name id : Text) (rows : List LocalEvent)
    → lookup name instances ≡ some id
    → get true instances name rows ≡ find_row instance_key id rows
unfolding get
get-found instances name id rows e = rw (get, e) refl

pub get-set :
    (instances : WaInstances) (name id : Text) (body : EventDto) (events : List Text)
    (rows : List LocalEvent) (row : LocalEvent)
    → lookup name instances ≡ some id
    → stored_events body.enabled body.events ≡ some events
    → new_row id body events (get true instances name rows) ≡ some row
    → ((set true instances name body rows).0 ≡ ok tt)
      × ((get true instances name (set true instances name body rows).1 ≡ some row)
          × ((other k : Text)
              → lookup other instances ≡ some k
              → k ≢ id
              → get true instances other (set true instances name body rows).1
                ≡ get true instances other rows))
get-set instances name id body events rows row e f g =
    let stored = set-stored instances name id body events rows e f in
    let up =
      upsert-IsUpserted id body events rows row
        (ap (new_row id body events) (sym (get-found instances name id rows e)) ∙ g) in
    (
      ap (λ z. z.0) stored ∙ up.done,
      (
        ap (λ z. get true instances name z.1) stored
            ∙ (get-found instances name id (upsert id body events rows).1 e ∙ up.own),
        λ other k l n.
            ap (λ z. get true instances other z.1) stored
            ∙ (get-found instances other k (upsert id body events rows).1 l
                ∙ (up.elsewhere k n ∙ sym (get-found instances other k rows l))),
      ),
    )

-- If the row cannot be made, `set` throws and `get` finds what it found.
pub get-set_refused :
    (instances : WaInstances) (name id : Text) (body : EventDto) (events : List Text)
    (rows : List LocalEvent)
    → lookup name instances ≡ some id
    → stored_events body.enabled body.events ≡ some events
    → new_row id body events (get true instances name rows) ≡ none
    → set true instances name body rows ≡ (err internal, rows)
get-set_refused instances name id body events rows e f g =
    set-stored instances name id body events rows e f
    ∙ upsert-refused id body events rows
        (ap (new_row id body events) (sym (get-found instances name id rows e)) ∙ g)

-- A new row.
event_row-url :
    (id : Text) (body : EventDto) (events : List Text) {new : LocalEvent}
    → event_row id body events ≡ some new
    → (url : Text) × (record {
      instance_id = id;
      enabled = or_column body.enabled true;
      events = events;
      url = url;
      headers = or_column body.headers [];
      by_events = or_column body.by_events false;
    }
        ≡ new)
event_row-url id body events {new} e = elim (Option-cases body.url) [
  | inl t ↦ absurd (none_ne_some (rw t at e))
  | inr (u, t) ↦ (u, some_eq (rw t at e))
]

-- A row that a request has made has the fields of the request.
pub new_row-enabled :
    (id : Text) (body : EventDto) (events : List Text) (o : Option LocalEvent) (row : LocalEvent)
    (b : Bool)
    → body.enabled ≡ some b
    → new_row id body events o ≡ some row
    → row.enabled ≡ b
new_row-enabled id body events none row b f e =
    let (u, same) = event_row-url id body events e in
    ap (λ (z : LocalEvent). z.enabled) (sym same) ∙ rw f refl
new_row-enabled id body events (some old) row b f e =
    ap (λ (z : LocalEvent). z.enabled) (sym (some_eq e)) ∙ rw f refl

pub new_row-headers :
    (id : Text) (body : EventDto) (events : List Text) (o : Option LocalEvent) (row : LocalEvent)
    (hs : List (Text × Text))
    → body.headers ≡ some hs
    → new_row id body events o ≡ some row
    → row.headers ≡ hs
new_row-headers id body events none row hs f e =
    let (u, same) = event_row-url id body events e in
    ap (λ (z : LocalEvent). z.headers) (sym same) ∙ rw f refl
new_row-headers id body events (some old) row hs f e =
    ap (λ (z : LocalEvent). z.headers) (sym (some_eq e)) ∙ rw f refl
