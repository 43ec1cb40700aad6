-- ===== src/Crm/Events.antt =====
-- Creating and changing a calendar event keeps the flags of its leads.
use lydia_bg_back.Prelude.{
  ℕ, Text, List, [], ◌∷◌, Bool, true, false, not, ◌&&◌, ◌||◌, ◌≡◌, refl, sym, ◌∙◌, Option, none,
  some, inl, inr, any, find-All, push, All-push, ◌==◌, if◌then◌else◌, bad_request, not_found,
  internal, arith, Bool-cases, Option-cases,
}
use lydia_bg_back.Table.{
  find_row, has_row, update_row, delete_row, IsKeyed-push, IsKeyed-update_row, any-delete_row,
  any-update_row,
}
use lydia_bg_back.Crm.State.{
  CalendarEventType, Lead, CalendarEvent, Db, agent_id, lead_id, event_id, is_missing, or_empty,
  refers_to, is_reference, is_known, patched, return_ok,
}
use lydia_bg_back.Crm.Calendar.{
  EventData, EventPatch, is_pending, is_task, sync_if_linked, sync_both, create_event_row,
  store_event, create_dated_event, create_event_kind, create_event, event_row, patch_event,
  patched_date, update_dated_event, update_event,
}
use lydia_bg_back.Crm.Consistent.{
  IsLinked, IsConsistentBut, IsConsistent, nobody, IsConsistentBut-weaken, All-update_row, Settles,
  throw-Settles, guard-Settles,
}
use lydia_bg_back.Crm.Tasks.{
  Kept, Kept-weaken, Kept-Settles, not_pending, any-keeps, sync_if_linked-Kept, sync_both-Kept,
}

any-push :
    (p : CalendarEvent → Bool) (es : List CalendarEvent) (e : CalendarEvent)
    → any p (push es e) ≡ (any p es || p e)
unfolding push
any-push p [] e = ground arith
any-push p (x ∷ es) e = ground (arith, any-push p es e)

-- Only an open task of the lead changes what its flag has to be.
abbrev touches : CalendarEvent → Text → Bool
touches e k = refers_to k e.lead_id && is_task e.kind

untouched : (e : CalendarEvent) (k : Text) → touches e k ≡ false → is_pending k e ≡ false
untouched e k h = ground (arith, h)

relinked :
    (p : Option (Option Text)) (o : Option Text) (ls : List Lead)
    → is_reference lead_id (patched p none) ls ≡ true
    → is_reference lead_id o ls ≡ true
    → is_reference lead_id (patched p o) ls ≡ true
relinked none o ls h k = k
relinked (some x) o ls h k = h

module _ (now : ℕ) where
  stored :
      (e : CalendarEvent) (db : Db)
      → IsConsistent db
      → is_reference lead_id e.lead_id db.leads ≡ true
      → has_row event_id e.id db.events ≡ false
      → IsConsistentBut (touches e) (record db { events = push db.events e })
  stored e db c r h = record {
    keyed = IsKeyed-push event_id db.events e c.keyed h;
    linked = All-push (IsLinked db.leads) db.events e c.linked r;
    named = c.named;
    synced = λ k l f q.
        c.synced k l f refl
        ∙ sym (any-push (is_pending k) db.events e ∙ ground (arith, untouched e k q));
  }

  synced_after :
      (e : CalendarEvent) (w : Db)
      → IsConsistentBut (touches e) w
      → is_reference lead_id e.lead_id w.leads ≡ true
      → Kept nobody (if is_task e.kind then sync_if_linked now e.lead_id w else return_ok w)
  synced_after e w c r = elim (Bool-cases (is_task e.kind)) [
    | inl t ↦ rw t (
        Kept-weaken (λ k. touches e k && not (refers_to k e.lead_id)) nobody
          (sync_if_linked now e.lead_id w) (λ k q. ground arith)
          (sync_if_linked-Kept now (touches e) e.lead_id w c r))
    | inr t ↦ rw t (refl, IsConsistentBut-weaken (touches e) nobody w (λ k q. ground (arith, t)) c)
  ]

  store_event-Settles :
      (parse_date : Text → Option ℕ) (e : CalendarEvent) (db : Db)
      → IsConsistent db
      → Settles db (store_event parse_date now e db)
  unfolding store_event create_event_row
  store_event-Settles parse_date e db c =
      elim (Bool-cases (
        (is_reference agent_id e.agent_id db.agents && is_reference lead_id e.lead_id db.leads)
        && not (has_row event_id e.id db.events))) [
          | inl t ↦ rw t (
              Kept-Settles db
                (if is_task e.kind
                  then sync_if_linked now e.lead_id (record db { events = push db.events e })
                  else return_ok (record db { events = push db.events e }))
                (synced_after e (record db { events = push db.events e })
                  (stored e db c (ground (arith, t)) (ground (arith, t))) (ground (arith, t))))
          | inr t ↦ rw t (throw-Settles internal db c)
        ]

  module _ (parse_date : Text → Option ℕ) where
    pub create_event-Settles :
        (id : Text) (body : EventData) (db : Db)
        → IsConsistent db
        → Settles db (create_event parse_date now id body db)
    unfolding create_event create_event_kind create_dated_event
    create_event-Settles id body db c = at_kind body.kind
      where
        dated :
            (kind : CalendarEventType) (from to : Option ℕ)
            → Settles db (create_dated_event parse_date now id kind body from to db)
        dated kind (some from) (some to) =
            store_event-Settles parse_date (event_row parse_date id kind body from to) db c
        dated kind none to = throw-Settles internal db c
        dated kind (some from) none = throw-Settles internal db c

        at_kind :
            (k : Option CalendarEventType)
            → Settles db (create_event_kind parse_date now id k body db)
        at_kind none = throw-Settles bad_request db c
        at_kind (some kind) =
            guard-Settles (is_missing body.start_at || is_missing body.end_at) bad_request db _ c (
              guard-Settles (not (is_known lead_id body.lead_id db.leads)) bad_request db _ c (
                guard-Settles (not (is_known agent_id body.agent_id db.agents)) bad_request db _ c (
                  dated kind (parse_date (or_empty body.start_at))
                    (parse_date (or_empty body.end_at)))))

    changed :
        (id : Text) (body : EventPatch) (from to : ℕ) (e : CalendarEvent) (db : Db)
        → IsConsistent db
        → find_row event_id id db.events ≡ some e
        → is_reference lead_id (patched body.lead_id none) db.leads ≡ true
        → IsConsistentBut
            (λ k. refers_to k e.lead_id || refers_to k (patched body.lead_id e.lead_id))
            (record db {
              events = update_row event_id id (patch_event parse_date body from to) db.events;
            })
    changed id body from to e db c t r = record {
      keyed = IsKeyed-update_row event_id id f db.events (λ a. refl) c.keyed;
      linked =
          All-update_row event_id (IsLinked db.leads) id f db.events
            (λ a. relinked body.lead_id a.lead_id db.leads r) c.linked;
      named = c.named;
      synced = λ k l g q.
          c.synced k l g refl
          ∙ (any-delete_row event_id (is_pending k) id db.events c.keyed t
              ∙ (any-keeps (is_pending k e) (any (is_pending k) (delete_row event_id id db.events))
                    (not_pending k e (ground (arith, q)))
                  ∙ sym (
                      any-update_row event_id (is_pending k) id f db.events c.keyed t
                      ∙ any-keeps (is_pending k (f e))
                          (any (is_pending k) (delete_row event_id id db.events))
                          (not_pending k (f e) (ground (arith, q))))));
    }
      where
        f : CalendarEvent → CalendarEvent
        f = patch_event parse_date body from to

    update_dated_event-Settles :
        (id : Text) (body : EventPatch) (e : CalendarEvent) (from to : Option ℕ) (db : Db)
        → IsConsistent db
        → find_row event_id id db.events ≡ some e
        → Settles db (update_dated_event parse_date now id body e from to db)
    unfolding update_dated_event
    update_dated_event-Settles id body e none to db c t = throw-Settles internal db c
    update_dated_event-Settles id body e (some from) none db c t = throw-Settles internal db c
    update_dated_event-Settles id body e (some from) (some to) db c t =
        elim (Bool-cases (
          is_reference lead_id (patched body.lead_id none) db.leads
          && is_reference agent_id (patched body.agent_id none) db.agents)) [
            | inl g ↦
                let own =
                  (find-All (IsLinked db.leads) (λ a. event_id a == id) db.events c.linked t).0 in
                let known : is_reference lead_id (patched body.lead_id none) db.leads ≡ true =
                  ground (arith, g) in
                rw g (
                  Kept-Settles db
                    (sync_both now e.lead_id (patched body.lead_id e.lead_id) (record db {
                      events =
                          update_row event_id id (patch_event parse_date body from to) db.events;
                    }))
                    (sync_both-Kept now e.lead_id (patched body.lead_id e.lead_id)
                      (record db {
                        events =
                            update_row event_id id (patch_event parse_date body from to) db.events;
                      })
                      (changed id body from to e db c t known) own
                      (relinked body.lead_id e.lead_id db.leads known own)))
            | inr g ↦ rw g (throw-Settles internal db c)
          ]

    pub update_event-Settles :
        (id : Text) (body : EventPatch) (db : Db)
        → IsConsistent db
        → Settles db (update_event parse_date now id body db)
    unfolding update_event
    update_event-Settles id body db c = elim (Option-cases (find_row event_id id db.events)) [
      | inl t ↦ rw (update_event, t) (throw-Settles not_found db c)
      | inr (e, t) ↦
          rw (update_event, t)
            (update_dated_event-Settles id body e (patched_date parse_date body.start_at e.start_at)
              (patched_date parse_date body.end_at e.end_at) db c t)
    ]
