-- ===== src/Crm/Numbers.antt =====
-- The numbers that src/api/services/leads.service.ts gives to leads: the count of the rows plus one.
use lydia_bg_back.Prelude.{
  ℕ, suc, ◌+◌, Text, List, [], ◌∷◌, Bool, true, false, not, ◌&&◌, ◌||◌, ◌≡◌, ◌≢◌, refl, ap, sym,
  subst, ◌∙◌, Option, inl, inr, length, length-push, push, ◌==◌, eq_iff, if◌then◌else◌, HttpError,
  bad_request, ok, arith, Bool-cases,
}
use lydia_bg_back.Table.{has_row, delete_row, IsKeyed, has_row-push_row}
use lydia_bg_back.Crm.State.{
  Lead, Db, agent_id, chat_id, lead_id, is_reference, is_known, lead_number, throw, Outcome,
}
use lydia_bg_back.Crm.Leads.{
  LeadData, lead_row, is_blank, is_free_chat, has_number, create_lead_row, insert_lead,
  delete_lead_row, delete_lead,
}

delete_row-push :
    (k : Text) (rows : List Lead) (l : Lead)
    → (l.id == k) ≡ false
    → delete_row lead_id k (push rows l) ≡ push (delete_row lead_id k rows) l
unfolding delete_row push
delete_row-push k [] l n = rw n refl
delete_row-push k (m ∷ rows) l n = elim (Bool-cases (m.id == k)) [
  | inl t ↦ rw t (delete_row-push k rows l n)
  | inr t ↦ rw t (ap (λ r. m ∷ r) (delete_row-push k rows l n))
]

length-delete_row_absent :
    (k : Text) (rows : List Lead)
    → has_row lead_id k rows ≡ false
    → length (delete_row lead_id k rows) ≡ length rows
unfolding delete_row
length-delete_row_absent k [] h = refl
length-delete_row_absent k (m ∷ rows) h = ground (arith, h, length-delete_row_absent k rows)

length-delete_row :
    (k : Text) (rows : List Lead)
    → IsKeyed lead_id rows
    → has_row lead_id k rows ≡ true
    → suc (length (delete_row lead_id k rows)) ≡ length rows
unfolding delete_row
length-delete_row k [] d h = cc
length-delete_row k (m ∷ rows) d h = elim (Bool-cases (m.id == k)) [
  | inl t ↦ rw t (
      ap suc (
        length-delete_row_absent k rows
          (subst (λ j. has_row lead_id j rows ≡ false) ((eq_iff m.id k).0 t) d.0)))
  | inr t ↦ rw t (ap suc (length-delete_row k rows d.1 (ground (arith, t, h))))
]

has_number-push :
    (t : Text) (rows : List Lead) (l : Lead) → l.lead_number ≡ t → has_number t (push rows l) ≡ true
unfolding push
has_number-push t [] l e = ground (arith, eq_iff l.lead_number t, e)
has_number-push t (m ∷ rows) l e = ground (arith, has_number-push t rows l e)

insert_lead-taken :
    (now : ℕ) (id : Text) (dates : Option (ℕ × ℕ)) (body : LeadData) (db : Db)
    → has_number (lead_number (length db.leads + 1)) db.leads ≡ true
    → (insert_lead now id dates body db).0 ≢ ok tt
unfolding insert_lead create_lead_row
insert_lead-taken now id dates body db h =
    refuses (is_blank body.contact_name || is_blank body.source) bad_request db _ (
      refuses (not (is_known agent_id body.assigned_agent_id db.agents)) bad_request db _ (
        refuses (not (is_known chat_id body.chat_id db.chats)) bad_request db _
          (rw closed (λ e. cc))))
  where
    refuses :
        (b : Bool) (e : HttpError) (w : Db) (r : Outcome)
        → r.0 ≢ ok tt
        → (if b then throw e w else r).0 ≢ ok tt
    refuses true e w r n h = cc
    refuses false e w r n h = n h

    row : Lead
    row = lead_row now id dates body (length db.leads)

    closed :
        ((is_reference agent_id row.assigned_agent_id db.agents
            && is_reference chat_id row.chat_id db.chats)
          && (is_free_chat row.chat_id db.leads
              && not (has_number row.lead_number db.leads || has_row lead_id row.id db.leads)))
        ≡ false
    closed = ground (arith, h)

-- If the last lead has the number of the count, then after the deletion of any other lead no lead can
-- be created: the number that the next one would get is taken.
pub delete_lead-insert_lead :
    (now : ℕ) (old id : Text) (dates : Option (ℕ × ℕ)) (body : LeadData) (db : Db)
    (rest : List Lead) (last : Lead)
    → db.leads ≡ push rest last
    → IsKeyed lead_id rest
    → has_row lead_id old rest ≡ true
    → (last.id == old) ≡ false
    → last.lead_number ≡ lead_number (length db.leads)
    → (insert_lead now id dates body (delete_lead old db).1).0 ≢ ok tt
unfolding delete_lead delete_lead_row
delete_lead-insert_lead now old id dates body db rest last e d h n number = rw present (
    insert_lead-taken now id dates body (delete_lead_row old db) (
      subst (λ r. has_number (lead_number (length r + 1)) r ≡ true) (sym left)
        (has_number-push (lead_number (length (push (delete_row lead_id old rest) last) + 1))
          (delete_row lead_id old rest) last (number ∙ ap lead_number same))))
  where
    present : has_row lead_id old db.leads ≡ true
    present =
        ap (has_row lead_id old) e ∙ (has_row-push_row lead_id old last rest ∙ ground (arith, h))

    left : delete_row lead_id old db.leads ≡ push (delete_row lead_id old rest) last
    left = ap (delete_row lead_id old) e ∙ delete_row-push old rest last n

    same : length db.leads ≡ length (push (delete_row lead_id old rest) last) + 1
    same =
        ap length e
        ∙ omega (
          arith,
          length-push rest last,
          length-push (delete_row lead_id old rest) last,
          length-delete_row old rest d h,
        )
