-- ===== src/Chatbot/Histories.antt =====
-- Sequences of the calls that change the bots of an integration.
use lydia_bg_back.Prelude.{
  none_ne_some, Text, Bool, true, false, not, ◌≡◌, sym, ◌∙◌, Option, none, some, inl, inr, lookup,
  ◌==◌, if◌then◌else◌, Bool-cases, Option-cases,
}
use lydia_bg_back.Table.{find_row, delete_row, find-delete_row}
use lydia_bg_back.Chatbot.State.{BotOptions, Bot, Store, bot_id}
use lydia_bg_back.Chatbot.Registry.{Instances, Change, delete_bot_in, delete_bot}
use lydia_bg_back.Chatbot.Slots.{IsExclusive}
use lydia_bg_back.Chatbot.Bots.{BotData, create_bot, update_bot}
use lydia_bg_back.Chatbot.Exclusive.{IsTyped, create_bot-IsExclusive, update_bot-IsExclusive}

-- The instance's name first, then the ids; the second text of `creates` is the id of new settings.
pub data BotCall : Type 0 where
  creates : Text → Text → Text → BotData → BotCall
  updates : Text → Text → BotData → BotCall
  deletes : Text → Text → BotCall

abbrev pub IsTypedCall : BotCall → Type 0
IsTypedCall (creates name id settings body) = IsTyped body
IsTypedCall (updates name id body) = IsTyped body
IsTypedCall (deletes name id) = Unit

delete_row-IsExclusive :
    (id : Text) (store : Store)
    → IsExclusive store.bots
    → IsExclusive (delete_row bot_id id store.bots)
delete_row-IsExclusive id store h j k a b s u v =
    h j k a b s (kept j a (sym (find-delete_row bot_id id j store.bots) ∙ u))
      (kept k b (sym (find-delete_row bot_id id k store.bots) ∙ v))
  where
    kept :
        (i : Text) (c : Bot)
        → (if id == i then none else find_row bot_id i store.bots) ≡ some c
        → find_row bot_id i store.bots ≡ some c
    kept i c e = elim (Bool-cases (id == i)) [
      | inl t ↦ absurd (none_ne_some (rw t at e))
      | inr t ↦ rw t at e
    ]

delete_bot-IsExclusive :
    (enabled : Bool) (instances : Instances) (name id : Text) (store : Store)
    → IsExclusive store.bots
    → IsExclusive (delete_bot enabled instances name id store).1.bots
unfolding delete_bot delete_bot_in
delete_bot-IsExclusive false instances name id store h = h
delete_bot-IsExclusive true instances name id store h =
    elim (Option-cases (lookup name instances)) [
      | inl t ↦ rw (delete_bot, t) h
      | inr (i, t) ↦ rw (delete_bot, t) (found i (find_row bot_id id store.bots))
    ]
  where
    found : (i : Text) (o : Option Bot) → IsExclusive (delete_bot_in i id o store).1.bots
    found i none = h
    found i (some b) = elim (Bool-cases (not (b.instance_id == i))) [
      | inl t ↦ rw t h
      | inr t ↦ rw t (delete_row-IsExclusive id store h)
    ]

module _ (defaults : BotOptions) (no_duplicates : Text → Text → Bool) (enabled : Bool)
    (instances : Instances) where
  unfoldable pub perform : BotCall → Store → Change
  unfolding create_bot update_bot delete_bot
  perform (creates name id settings body) store =
      create_bot defaults enabled instances name id settings body store
  perform (updates name id body) store =
      update_bot no_duplicates enabled instances name id body store
  perform (deletes name id) store = delete_bot enabled instances name id store

  -- Calls one after the other, whether they throw or not.
  pub data IsRun : Store → Store → Type 0 where
    start : {store : Store} → IsRun store store
    step :
        {store w : Store} (call : BotCall)
        → IsRun store w
        → IsTypedCall call
        → IsRun store (perform call w).1

  -- If no two bots of an instance share a trigger, where a trigger is all messages with the bot enabled, a
  -- keyword with its operator and value, or an advanced query, this stays so under any sequence of
  -- `createBot`, `updateBot` and `deleteBot` whose requests name the type of the trigger. Bots of the
  -- type `none` and disabled bots for all messages have no trigger in this sense: several are accepted.
  pub IsRun-IsExclusive :
      (store w : Store) → IsRun store w → IsExclusive store.bots → IsExclusive w.bots
  unfolding perform
  IsRun-IsExclusive store w start h = h
  IsRun-IsExclusive store w (step {w = v} (creates name id settings body) r t) h =
      create_bot-IsExclusive defaults enabled instances name id settings body v t
        (IsRun-IsExclusive store v r h)
  IsRun-IsExclusive store w (step {w = v} (updates name id body) r t) h =
      update_bot-IsExclusive no_duplicates enabled instances name id body v t
        (IsRun-IsExclusive store v r h)
  IsRun-IsExclusive store w (step {w = v} (deletes name id) r t) h =
      delete_bot-IsExclusive enabled instances name id v (IsRun-IsExclusive store v r h)
