-- ===== src/Crm/Deletion.antt =====
-- The calls of src/api/services/crm.service.ts keep the tables consistent.
use lydia_bg_back.Prelude.{
  ℕ, zero, suc, Text, List, [], ◌∷◌, Bool, true, false, not, ◌||◌, ◌≡◌, ◌≢◌, ◌⊎◌, refl, HttpError,
  ok, err, ◌&&◌, ap, sym, ◌∙◌, Option, none, some, inl, inr, any, find, filter, trim, All-filter,
  ◌==◌, eq_iff, bad_request, not_found, internal, arith, Bool-cases, Option-cases,
}
use lydia_bg_back.Table.{find_row, has_row, IsKeyed}
use lydia_bg_back.Crm.State.{
  Outcome, Chat, Lead, CalendarEvent, Message, Db, agent_id, chat_id, lead_id, event_id, note_id,
  refers_to, is_reference, is_known, is_missing, or_empty, patched,
}
use lydia_bg_back.Crm.Calendar.{is_pending}
use lydia_bg_back.Crm.Conversations.{
  AgentData, ChatPatch, create_agent, has_email, is_message_of, update_chat_row, update_unread,
  mark_all_read, fits_overrides, update_conversation, add_note, delete_lead_with_events,
  delete_linked_lead, forget_chat, forget_chats, delete_chat_row, delete_conversation,
}
use lydia_bg_back.Crm.Consistent.{
  IsLinked, IsConsistent, All-IsLinked, Settles, throw-Settles, guard-Settles, return_ok-Settles,
}
use lydia_bg_back.Crm.LeadFlags.{delete_lead_row-IsConsistent}

abbrev not_of : Text → CalendarEvent → Bool
not_of lead e = not (refers_to lead e.lead_id)

has_row-filter :
    {A : Type 0} (key : A → Text) (p : A → Bool) (k : Text) (rows : List A)
    → has_row key k rows ≡ false
    → has_row key k (filter p rows) ≡ false
has_row-filter key p k [] h = refl
has_row-filter key p k (a ∷ rows) h = ground (arith, h, has_row-filter key p k rows)

IsKeyed-filter :
    {A : Type 0} (key : A → Text) (p : A → Bool) (rows : List A)
    → IsKeyed key rows
    → IsKeyed key (filter p rows)
IsKeyed-filter key p [] d = tt
IsKeyed-filter key p (a ∷ rows) d = elim (Bool-cases (p a)) [
  | inl t ↦ rw t (has_row-filter key p (key a) rows d.0, IsKeyed-filter key p rows d.1)
  | inr t ↦ rw t (IsKeyed-filter key p rows d.1)
]

any-filter :
    {A : Type 0} (q p : A → Bool) (rows : List A)
    → ((a : A) → p a ≡ false → q a ≡ false)
    → any q (filter p rows) ≡ any q rows
any-filter q p [] w = refl
any-filter q p (a ∷ rows) w = elim (Bool-cases (p a)) [
  | inl t ↦ ground (arith, t, any-filter q p rows w)
  | inr t ↦ ground (arith, t, w a t, any-filter q p rows w)
]

pub any-filter-false :
    {A : Type 0} (p : A → Bool) (rows : List A) → any p (filter (λ a. not (p a)) rows) ≡ false
any-filter-false p [] = refl
any-filter-false p (a ∷ rows) = ground (arith, any-filter-false p rows)

delete_lead_with_events-IsConsistent :
    (lead : Text) (db : Db) → IsConsistent db → IsConsistent (delete_lead_with_events lead db)
unfolding delete_lead_with_events
delete_lead_with_events-IsConsistent lead db c =
    delete_lead_row-IsConsistent lead (record db { events = filter (not_of lead) db.events })
      (record {
        keyed = IsKeyed-filter event_id (not_of lead) db.events c.keyed;
        linked = All-filter (IsLinked db.leads) (not_of lead) db.events c.linked;
        named = c.named;
        synced = λ k l f q.
            c.synced k l f refl
            ∙ sym (
                any-filter (is_pending k) (not_of lead) db.events (λ e n. other k e.lead_id e q n));
      })
  where
    two :
        (k : Text) (o : Option Text)
        → (lead == k) ≡ false
        → refers_to lead o ≡ true
        → refers_to k o ≡ false
    two k none q t = cc
    two k (some j) q t = ground (arith, t, q, eq_iff lead k, eq_iff j lead, eq_iff j k)

    other :
        (k : Text) (o : Option Text) (e : CalendarEvent)
        → (lead == k) ≡ false
        → not_of lead e ≡ false
        → is_pending k e ≡ false
    other k o e q n = ground (arith, two k e.lead_id q (ground (arith, n)))

delete_linked_lead-IsConsistent :
    (o : Option Lead) (db : Db) → IsConsistent db → IsConsistent (delete_linked_lead o db)
unfolding delete_linked_lead
delete_linked_lead-IsConsistent none db c = c
delete_linked_lead-IsConsistent (some l) db c = delete_lead_with_events-IsConsistent l.id db c

pub has_row-forget_chats :
    (chat k : Text) (ls : List Lead)
    → has_row lead_id k (forget_chats chat ls) ≡ has_row lead_id k ls
unfolding forget_chats
has_row-forget_chats chat k [] = refl
has_row-forget_chats chat k (l ∷ ls) = ground (arith, has_row-forget_chats chat k ls)

find-forget_chats :
    (chat k : Text) (ls : List Lead) {m : Lead}
    → find_row lead_id k (forget_chats chat ls) ≡ some m
    → (l : Lead) × ((find_row lead_id k ls ≡ some l) × (l.has_pending_tasks ≡ m.has_pending_tasks))
unfolding forget_chats
find-forget_chats chat k [] f = cc
find-forget_chats chat k (l ∷ ls) {m} f = elim (Bool-cases (l.id == k)) [
  | inl t ↦
      let same : forget_chat chat l ≡ m = ground (arith, t, f) in
      (l, (ground (arith, t), ap (λ (x : Lead). x.has_pending_tasks) same))
  | inr t ↦
      let (x, g) = find-forget_chats chat k ls (rw t at f) in (x, (ground (arith, t, g.0), g.1))
]

delete_chat_row-IsConsistent :
    (chat : Text) (db : Db) → IsConsistent db → IsConsistent (delete_chat_row chat db)
unfolding delete_chat_row
delete_chat_row-IsConsistent chat db c = record {
  keyed = c.keyed;
  linked =
      All-IsLinked db.leads (forget_chats chat db.leads) db.events
        (λ k r. has_row-forget_chats chat k db.leads ∙ r) c.linked;
  named = has_row-forget_chats chat [] db.leads ∙ c.named;
  synced = λ k m f q.
      let (l, g) = find-forget_chats chat k db.leads f in sym g.1 ∙ c.synced k l g.0 refl;
}

pub delete_conversation-Settles :
    (chat : Text) (db : Db) → IsConsistent db → Settles db (delete_conversation chat db)
unfolding delete_conversation
delete_conversation-Settles chat db c = elim (Option-cases (find_row chat_id chat db.chats)) [
  | inl t ↦ rw (delete_conversation, t) (throw-Settles not_found db c)
  | inr (x, t) ↦ rw (delete_conversation, t) (return_ok-Settles db _ (cleared x))
]
  where
    w : Db
    w = delete_linked_lead (find (λ (l : Lead). refers_to chat l.chat_id) db.leads) db

    cleared :
        (x : Chat)
        → IsConsistent (
            delete_chat_row chat (record w {
              messages = filter (λ (m : Message). not (is_message_of x m)) w.messages;
            }))
    cleared x = delete_chat_row-IsConsistent chat _ (
        same (
          delete_linked_lead-IsConsistent (find (λ (l : Lead). refers_to chat l.chat_id) db.leads)
            db c))
      where
        same :
            IsConsistent w
            → IsConsistent (record w {
              messages = filter (λ (m : Message). not (is_message_of x m)) w.messages;
            })
        same d = record { keyed = d.keyed; linked = d.linked; named = d.named; synced = d.synced }

pub add_note-Settles :
    (id chat : Text) (content agent : Option Text) (db : Db)
    → IsConsistent db
    → Settles db (add_note id chat content agent db)
unfolding add_note
add_note-Settles id chat content agent db c =
    guard-Settles (not (has_row chat_id chat db.chats)) not_found db _ c (
      guard-Settles (is_missing (some (trim (or_empty content)))) bad_request db _ c (
        guard-Settles (not (is_reference agent_id agent db.agents) || has_row note_id id db.notes)
          internal db _ c
          (return_ok-Settles db _
            (record { keyed = c.keyed; linked = c.linked; named = c.named; synced = c.synced }))))

pub create_agent-Settles :
    (id : Text) (body : AgentData) (db : Db)
    → IsConsistent db
    → Settles db (create_agent id body db)
unfolding create_agent
create_agent-Settles id body db c = guard-Settles (is_missing body.name) bad_request db _ c (
    guard-Settles (has_email body.email db.agents || has_row agent_id id db.agents) internal db _ c
      (return_ok-Settles db _
        (record { keyed = c.keyed; linked = c.linked; named = c.named; synced = c.synced })))

-- The conversation's messages have been marked as read, and nothing else has changed.
pub record IsMarkedRead (id : Text) (body : ChatPatch) (before after : Db) : Type 0 where
  pub chat : Chat
  pub found : find_row chat_id id before.chats ≡ some chat
  pub asked : body.unread_messages ≡ some 0
  pub marked : after ≡ record before { messages = mark_all_read chat before.messages }

-- Only what the database refuses is refused after the messages have been marked as read.
pub update_conversation-IsConsistent :
    (id : Text) (body : ChatPatch) (db : Db)
    → IsConsistent db
    → IsConsistent (update_conversation id body db).1
      × ((e : HttpError)
          → (update_conversation id body db).0 ≡ err e
          → ((update_conversation id body db).1 ≡ db)
            ⊎ IsMarkedRead id body db (update_conversation id body db).1)
unfolding update_conversation update_unread update_chat_row
update_conversation-IsConsistent id body db c = elim (Option-cases (find_row chat_id id db.chats)) [
  | inl t ↦ rw (update_conversation, t) (c, λ e h. inl refl)
  | inr (x, t) ↦
      rw (update_conversation, t)
        (elim (Bool-cases (is_known agent_id (patched body.assigned_agent_id none) db.agents)) [
          | inl k ↦ rw k (unread x body.unread_messages refl t)
          | inr k ↦ rw k (c, λ e h. inl refl)
        ])
]
  where
    Fine : Outcome → Type 0
    Fine w =
        IsConsistent w.1
        × ((e : HttpError) → w.0 ≡ err e → (w.1 ≡ db) ⊎ IsMarkedRead id body db w.1)

    no_err : {e : HttpError} → ok tt ≢ err e
    no_err h = cc

    unread :
        (x : Chat) (u : Option ℕ)
        → body.unread_messages ≡ u
        → find_row chat_id id db.chats ≡ some x
        → Fine (update_unread x body u db)
    unread x none t f =
        elim (Bool-cases (
          is_reference agent_id (patched body.assigned_agent_id none) db.agents
          && fits_overrides body)) [
            | inl r ↦ rw r (
              record { keyed = c.keyed; linked = c.linked; named = c.named; synced = c.synced },
              λ e h. absurd (no_err h),
            )
            | inr r ↦ rw r (c, λ e h. inl refl)
          ]
    unread x (some zero) t f =
        let kept : IsConsistent (record db { messages = mark_all_read x db.messages }) = record {
          keyed = c.keyed;
          linked = c.linked;
          named = c.named;
          synced = c.synced;
        } in
        elim (Bool-cases (
          is_reference agent_id (patched body.assigned_agent_id none) db.agents
          && fits_overrides body)) [
            | inl r ↦ rw r (
              record { keyed = c.keyed; linked = c.linked; named = c.named; synced = c.synced },
              λ e h. absurd (no_err h),
            )
            | inr r ↦
                rw r (kept, λ e h. inr (record { chat = x; found = f; asked = t; marked = refl }))
          ]
    unread x (some (suc m)) t f = (c, λ e h. inl refl)
