-- ===== src/Crm/LeadFlags.antt =====
-- The calls on leads keep the tables consistent: a new lead has no events, an update that does not
-- set the flag leaves it right, and the events of a deleted lead have none.
use lydia_bg_back.Prelude.{
  ℕ, Text, List, [], ◌∷◌, Bool, true, false, not, ◌&&◌, ◌||◌, ◌≡◌, ◌≢◌, refl, ap, sym, subst, ◌∙◌,
  Option, none, some, inl, inr, any, map, length, push, All, ◌==◌, eq_iff, if◌then◌else◌,
  bad_request, not_found, internal, arith, Bool-cases,
}
use lydia_bg_back.Table.{
  find_row, has_row, update_row, delete_row, updated, or_new, find-update_row, find-delete_row,
  find-push_row, has_row-update_row, has_row-push_row, has_row-delete_row, IsKeyed,
}
use lydia_bg_back.Crm.State.{
  Lead, CalendarEvent, Db, agent_id, chat_id, lead_id, event_id, refers_to, is_reference, is_known,
  patched,
}
use lydia_bg_back.Crm.Calendar.{is_pending}
use lydia_bg_back.Crm.Leads.{
  LeadData, LeadPatch, lead_row, is_blank, is_free_chat, has_number, create_lead_row, insert_lead,
  is_taken, patch_lead, update_lead_row, update_lead, forget_lead, delete_lead_row, delete_lead,
}
use lydia_bg_back.Crm.Consistent.{
  IsLinked, IsConsistentBut, IsConsistent, nobody, IsConsistentBut-weaken, All-IsLinked,
  any-is_pending_none, Settles, throw-Settles, guard-Settles, return_ok-Settles,
}

inserted :
    (l : Lead) (db : Db)
    → IsConsistent db
    → l.id ≢ []
    → l.has_pending_tasks ≡ false
    → has_row lead_id l.id db.leads ≡ false
    → IsConsistent (record db { leads = push db.leads l })
inserted l db c n p h = record {
  keyed = c.keyed;
  linked =
      All-IsLinked db.leads (push db.leads l) db.events
        (λ k r. has_row-push_row lead_id k l db.leads ∙ ground (arith, r)) c.linked;
  named =
      has_row-push_row lead_id [] l db.leads
      ∙ ground (arith, c.named, Bool-cases (l.id == []), (eq_iff l.id []).0);
  synced = λ k m f q.
      at_lead k m (find_row lead_id k db.leads) refl (sym (find-push_row lead_id k l db.leads) ∙ f);
}
  where
    at_lead :
        (k : Text) (m : Lead) (o : Option Lead)
        → find_row lead_id k db.leads ≡ o
        → or_new lead_id k l o ≡ some m
        → m.has_pending_tasks ≡ any (is_pending k) db.events
    at_lead k m (some x) f g = c.synced k m (f ∙ g) refl
    at_lead k m none f g = elim (Bool-cases (l.id == k)) [
      | inl t ↦
          let same : l ≡ m = ground (arith, t, g) in
          sym (ap (λ (x : Lead). x.has_pending_tasks) same)
          ∙ (p
              ∙ sym (
                  any-is_pending_none k db.leads db.events c.linked
                    (subst (λ j. has_row lead_id j db.leads ≡ false) ((eq_iff l.id k).0 t) h)))
      | inr t ↦ cc
    ]

pub insert_lead-Settles :
    (now : ℕ) (id : Text) (dates : Option (ℕ × ℕ)) (body : LeadData) (db : Db)
    → id ≢ []
    → IsConsistent db
    → Settles db (insert_lead now id dates body db)
unfolding insert_lead create_lead_row
insert_lead-Settles now id dates body db n c =
    guard-Settles (is_blank body.contact_name || is_blank body.source) bad_request db _ c (
      guard-Settles (not (is_known agent_id body.assigned_agent_id db.agents)) bad_request db _ c (
        guard-Settles (not (is_known chat_id body.chat_id db.chats)) bad_request db _ c
          (elim (Bool-cases guard) [
            | inl t ↦ rw t (
                return_ok-Settles db (record db { leads = push db.leads row })
                  (inserted row db c n refl (ground (arith, t))))
            | inr t ↦ rw t (throw-Settles internal db c)
          ])))
  where
    row : Lead
    row = lead_row now id dates body (length db.leads)

    guard : Bool
    guard =
        (is_reference agent_id row.assigned_agent_id db.agents
          && is_reference chat_id row.chat_id db.chats)
        && (is_free_chat row.chat_id db.leads
            && not (has_number row.lead_number db.leads || has_row lead_id row.id db.leads))

pub update_lead-Settles :
    (now : ℕ) (id : Text) (body : LeadPatch) (db : Db)
    → body.has_pending_tasks ≡ none
    → IsConsistent db
    → Settles db (update_lead now id body db)
unfolding update_lead update_lead_row
update_lead-Settles now id body db n c =
    guard-Settles (not (has_row lead_id id db.leads)) not_found db _ c (
      guard-Settles (not (is_known agent_id (patched body.assigned_agent_id none) db.agents))
        bad_request db _ c
        (elim (Bool-cases guard) [
          | inl t ↦ rw t (
              return_ok-Settles db (record db { leads = after })
                (record {
                  keyed = c.keyed;
                  linked =
                      All-IsLinked db.leads after db.events
                        (λ k r. has_row-update_row lead_id id k f db.leads (λ l. refl) ∙ r)
                        c.linked;
                  named = has_row-update_row lead_id id [] f db.leads (λ l. refl) ∙ c.named;
                  synced = λ k m g q.
                      at_lead k m (find_row lead_id k db.leads) refl
                        (sym (find-update_row lead_id id k f db.leads (λ l. refl)) ∙ g);
                }))
          | inr t ↦ rw t (throw-Settles internal db c)
        ]))
  where
    guard : Bool
    guard =
        has_row lead_id id db.leads
        && (is_reference agent_id (patched body.assigned_agent_id none) db.agents
            && (is_reference chat_id (patched body.chat_id none) db.chats
                && not (is_taken id body.chat_id db.leads)))

    f : Lead → Lead
    f = patch_lead now body

    after : List Lead
    after = update_row lead_id id f db.leads

    at_lead :
        (k : Text) (m : Lead) (o : Option Lead)
        → find_row lead_id k db.leads ≡ o
        → updated lead_id id f k o ≡ some m
        → m.has_pending_tasks ≡ any (is_pending k) db.events
    at_lead k m none g h = cc
    at_lead k m (some x) g h = elim (Bool-cases (id == k)) [
      | inl t ↦
          let same : f x ≡ m = ground (arith, t, h) in
          sym (ap (λ (y : Lead). y.has_pending_tasks) same)
          ∙ (ap (λ p. patched p x.has_pending_tasks) n ∙ c.synced k x g refl)
      | inr t ↦
          let same : x ≡ m = ground (arith, t, h) in
          sym (ap (λ (y : Lead). y.has_pending_tasks) same) ∙ c.synced k x g refl
    ]

has_row-forget :
    (id j : Text) (es : List CalendarEvent)
    → has_row event_id j (map (forget_lead id) es) ≡ has_row event_id j es
has_row-forget id j [] = refl
has_row-forget id j (e ∷ es) = ground (arith, has_row-forget id j es)

IsKeyed-forget :
    (id : Text) (es : List CalendarEvent)
    → IsKeyed event_id es
    → IsKeyed event_id (map (forget_lead id) es)
IsKeyed-forget id [] d = tt
IsKeyed-forget id (e ∷ es) d = elim (Bool-cases (refers_to id e.lead_id)) [
  | inl t ↦ rw t (has_row-forget id e.id es ∙ d.0, IsKeyed-forget id es d.1)
  | inr t ↦ rw t (has_row-forget id e.id es ∙ d.0, IsKeyed-forget id es d.1)
]

any-forget :
    (id k : Text) (es : List CalendarEvent)
    → (id == k) ≡ false
    → any (is_pending k) (map (forget_lead id) es) ≡ any (is_pending k) es
any-forget id k [] n = refl
any-forget id k (e ∷ es) n = ap2 (one e) (any-forget id k es n)
  where
    ap2 : {a b x y : Bool} → a ≡ b → x ≡ y → (a || x) ≡ (b || y)
    ap2 p q = cc

    two : (o : Option Text) → refers_to id o ≡ true → refers_to k o ≡ false
    two none t = cc
    two (some j) t = ground (arith, t, n, eq_iff id k, eq_iff j id, eq_iff j k)

    one : (x : CalendarEvent) → is_pending k (forget_lead id x) ≡ is_pending k x
    one x = elim (Bool-cases (refers_to id x.lead_id)) [
      | inl t ↦ ground (arith, t, two x.lead_id t)
      | inr t ↦ ground (arith, t)
    ]

IsLinked-forget :
    (id : Text) (ls : List Lead) (es : List CalendarEvent)
    → All (IsLinked ls) es
    → All (IsLinked (delete_row lead_id id ls)) (map (forget_lead id) es)
IsLinked-forget id ls [] h = tt
IsLinked-forget id ls (e ∷ es) h = elim (Bool-cases (refers_to id e.lead_id)) [
  | inl t ↦ rw t (refl, IsLinked-forget id ls es h.1)
  | inr t ↦ rw t (kept e.lead_id t h.0, IsLinked-forget id ls es h.1)
]
  where
    kept :
        (o : Option Text)
        → refers_to id o ≡ false
        → is_reference lead_id o ls ≡ true
        → is_reference lead_id o (delete_row lead_id id ls) ≡ true
    kept none t r = refl
    kept (some j) t r =
        has_row-delete_row lead_id id j ls ∙ ground (arith, r, t, eq_iff id j, eq_iff j id)

-- What a lead's flag says does not matter when the lead goes.
pub delete_lead_row-IsConsistent :
    (id : Text) (db : Db) → IsConsistentBut (λ k. id == k) db → IsConsistent (delete_lead_row id db)
unfolding delete_lead_row
delete_lead_row-IsConsistent id db c = record {
  keyed = IsKeyed-forget id db.events c.keyed;
  linked = IsLinked-forget id db.leads db.events c.linked;
  named = has_row-delete_row lead_id id [] db.leads ∙ ground (arith, c.named);
  synced = λ k l f q. at_lead k l (sym (find-delete_row lead_id id k db.leads) ∙ f);
}
  where
    at_lead :
        (k : Text) (l : Lead)
        → (if id == k then none else find_row lead_id k db.leads) ≡ some l
        → l.has_pending_tasks ≡ any (is_pending k) (map (forget_lead id) db.events)
    at_lead k l f = elim (Bool-cases (id == k)) [
      | inl t ↦ let wrong : none ≡ some l = rw t at f in cc
      | inr t ↦ c.synced k l (rw t at f) t ∙ sym (any-forget id k db.events t)
    ]

pub delete_lead-Settles : (id : Text) (db : Db) → IsConsistent db → Settles db (delete_lead id db)
unfolding delete_lead
delete_lead-Settles id db c = elim (Bool-cases (has_row lead_id id db.leads)) [
  | inl t ↦ rw t (
      return_ok-Settles db (delete_lead_row id db) (
        delete_lead_row-IsConsistent id db
          (IsConsistentBut-weaken nobody (λ k. id == k) db (λ k q. refl) c)))
  | inr t ↦ rw t (throw-Settles not_found db c)
]
