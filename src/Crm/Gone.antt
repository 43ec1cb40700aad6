-- ===== src/Crm/Gone.antt =====
-- What `deleteConversation` of src/api/services/crm.service.ts leaves of a conversation.
use lydia_bg_back.Prelude.{
  Text, Bool, false, not, ◌≡◌, ◌∙◌, some, any, find, filter, ◌==◌, eq_refl, if◌then◌else◌, arith,
}
use lydia_bg_back.Table.{has_row}
use lydia_bg_back.Crm.State.{Chat, Lead, CalendarEvent, Note, Db, chat_id, lead_id, refers_to}
use lydia_bg_back.Crm.Conversations.{is_message_of}

pub record IsGone (chat : Text) (c : Chat) (before after : Db) : Type 0 where
  pub no_chat : has_row chat_id chat after.chats ≡ false
  pub no_note : any (λ (n : Note). n.chat_id == chat) after.notes ≡ false
  pub no_message : any (is_message_of c) after.messages ≡ false
  pub no_link : any (λ (l : Lead). refers_to chat l.chat_id) after.leads ≡ false
  pub no_lead :
      (l : Lead)
      → find (λ (m : Lead). refers_to chat m.chat_id) before.leads ≡ some l
      → (has_row lead_id l.id after.leads ≡ false)
        × ((any (λ (e : CalendarEvent). refers_to l.id e.lead_id) after.events ≡ false)
            × (after.events
                ≡ filter (λ (e : CalendarEvent). not (refers_to l.id e.lead_id)) before.events))

absent :
    {A : Type 0} (key : A → Text) (k : Text) (b c : Bool)
    → b ≡ (if k == k then false else c)
    → b ≡ false
absent key k b c e = e ∙ ground (arith, eq_refl k)
