-- ===== src/Chatbot/Slots.antt =====
-- The triggers of bots, and what the checks of a body's trigger say of them.
use lydia_bg_back.Prelude.{
  true_ne_false, Text, List, [], ◌∷◌, Bool, true, false, ◌||◌, ◌≡◌, ◌≢◌, refl, sym, subst, ◌∙◌,
  Option, none, some, inl, inr, any, ◌==◌, eq_iff, eq_refl, if◌then◌else◌, arith, Bool-cases,
}
use lydia_bg_back.Table.{find_row}
use lydia_bg_back.Chatbot.State.{
  all_messages, keyword, advanced, TriggerOperator, contains, equals, starts_with, ends_with, regex,
  Bot, bot_id,
}
use lydia_bg_back.Chatbot.Triggers.{is_operator}
use lydia_bg_back.Chatbot.Emit.{is_none, is_absent}
use lydia_bg_back.Chatbot.Bots.{
  BotData, is_refused, catches_all_in, has_trigger_in, has_value_in, others,
}

-- What a bot's trigger takes: all messages, if it is enabled, or a text that messages are compared with.
pub data Slot : Type 0 where
  takes_all : Slot
  takes_keyword : TriggerOperator → Text → Slot
  takes_advanced : Text → Slot

-- The trigger of a bot.
pub data IsSlot (b : Bot) : Slot → Type 0 where
  is_all : b.enabled ≡ true → b.trigger_type ≡ some all_messages → IsSlot b takes_all
  is_keyword :
      (o : TriggerOperator) (v : Text)
      → b.trigger_type ≡ some keyword
      → b.trigger_operator ≡ some o
      → b.trigger_value ≡ some v
      → IsSlot b (takes_keyword o v)
  is_advanced :
      (v : Text)
      → b.trigger_type ≡ some advanced
      → b.trigger_value ≡ some v
      → IsSlot b (takes_advanced v)

abbrev pub IsExclusive : List Bot → Type 0
IsExclusive bots =
    (j k : Text) (a b : Bot) (s : Slot)
    → find_row bot_id j bots ≡ some a
    → find_row bot_id k bots ≡ some b
    → a.instance_id ≡ b.instance_id
    → IsSlot a s
    → IsSlot b s
    → j ≡ k

any-find_false :
    (p : Bot → Bool) (k : Text) (bots : List Bot) {b : Bot}
    → any p bots ≡ false
    → find_row bot_id k bots ≡ some b
    → p b ≡ false
any-find_false p k [] h e = cc
any-find_false p k (c ∷ bots) {b} h e = elim (Bool-cases (c.id == k)) [
  | inl t ↦
      let same : c ≡ b = ground (arith, t, e) in subst (λ x. p x ≡ false) same (ground (arith, h))
  | inr t ↦ any-find_false p k bots (ground (arith, h)) (rw t at e)
]

pub find-others :
    (id k : Text) (bots : List Bot)
    → find_row bot_id k (others id bots) ≡ (if id == k then none else find_row bot_id k bots)
unfolding others
find-others id k [] = ground arith
find-others id k (b ∷ bots) =
    ground (arith, find-others id k bots, eq_iff b.id k, eq_iff b.id id, eq_iff id k)

is_operator_refl : (o : TriggerOperator) → is_operator o (some o) ≡ true
is_operator_refl contains = refl
is_operator_refl equals = refl
is_operator_refl starts_with = refl
is_operator_refl ends_with = refl
is_operator_refl regex = refl

all_of : {b : Bot} → IsSlot b takes_all → (b.enabled ≡ true) × (b.trigger_type ≡ some all_messages)
all_of (is_all e t) = (e, t)

keyword_of :
    {b : Bot} {o : TriggerOperator} {v : Text}
    → IsSlot b (takes_keyword o v)
    → (b.trigger_type ≡ some keyword) × ((b.trigger_operator ≡ some o) × (b.trigger_value ≡ some v))
keyword_of (is_keyword o v t p q) = (t, (p, q))

advanced_of :
    {b : Bot} {v : Text}
    → IsSlot b (takes_advanced v)
    → (b.trigger_type ≡ some advanced) × (b.trigger_value ≡ some v)
advanced_of (is_advanced v t q) = (t, q)

has_trigger_lem :
    (i : Text) (b : Bot) (o : TriggerOperator) (v : Text)
    → b.trigger_operator ≡ some o
    → b.trigger_value ≡ some v
    → b.instance_id ≡ i
    → has_trigger_in i (some o) (some v) b ≡ true
has_trigger_lem i b o v p q e =
    rw (p, q) (ground (arith, is_operator_refl o, eq_refl v, eq_iff b.instance_id i, e))

all_lem :
    {i : Text} (b : Bot)
    → b.enabled ≡ true
    → b.trigger_type ≡ some all_messages
    → b.instance_id ≡ i
    → catches_all_in i b ≡ true
all_lem {i} b e t h = rw (e, t) (ground (arith, eq_iff b.instance_id i, h))

kw_free :
    (i : Text) (bots : List Bot) (k : Text) (b : Bot) (o : TriggerOperator) (v : Text)
    (x : Option TriggerOperator) (y : Option Text)
    → ((is_none x || is_absent y) || any (has_trigger_in i x y) bots) ≡ false
    → (x ≢ none → x ≡ some o)
    → (y ≢ none → y ≡ some v)
    → find_row bot_id k bots ≡ some b
    → b.trigger_operator ≡ some o
    → b.trigger_value ≡ some v
    → b.instance_id ≡ i
    → ⊥
kw_free i bots k b o v none y r xs ys f p q e = cc
kw_free i bots k b o v (some c) none r xs ys f p q e = cc
kw_free i bots k b o v (some c) (some w) r xs ys f p q e = true_ne_false (
    sym (has_trigger_lem i b o v p q e)
    ∙ subst (λ z. has_trigger_in i z (some v) b ≡ false) (xs (λ h. cc))
        (subst (λ z. has_trigger_in i (some c) z b ≡ false) (ys (λ h. cc))
          (any-find_false (has_trigger_in i (some c) (some w)) k bots (ground (arith, r)) f)))

adv_free :
    (i : Text) (bots : List Bot) (k : Text) (b : Bot) (v : Text) (y : Option Text)
    → (is_absent y || any (has_value_in i y) bots) ≡ false
    → (y ≢ none → y ≡ some v)
    → find_row bot_id k bots ≡ some b
    → b.trigger_value ≡ some v
    → b.instance_id ≡ i
    → ⊥
adv_free i bots k b v none r ys f q e = cc
adv_free i bots k b v (some w) r ys f q e = true_ne_false (
    sym (value_lem b v q e)
    ∙ subst (λ z. has_value_in i z b ≡ false) (ys (λ h. cc))
        (any-find_false (has_value_in i (some w)) k bots (ground (arith, r)) f))
  where
    value_lem :
        (c : Bot) (w : Text)
        → c.trigger_value ≡ some w
        → c.instance_id ≡ i
        → has_value_in i (some w) c ≡ true
    value_lem c w q e = rw q (ground (arith, eq_refl w, eq_iff c.instance_id i, e))

-- A body that is not refused gives a bot a trigger that no bot of the list has.
pub free :
    (i : Text) (body : BotData) (bots : List Bot) (k : Text) (a b : Bot) (s : Slot)
    → body.trigger_type ≢ none
    → is_refused i body bots ≡ false
    → a.trigger_type ≡ body.trigger_type
    → (body.trigger_operator ≢ none → a.trigger_operator ≡ body.trigger_operator)
    → (body.trigger_value ≢ none → a.trigger_value ≡ body.trigger_value)
    → find_row bot_id k bots ≡ some b
    → b.instance_id ≡ i
    → IsSlot a s
    → IsSlot b s
    → ⊥
unfolding is_refused
free i body bots k a b s n r ty op va f e (is_all en t) sb =
    let (eb, tb) = all_of sb in
    let kind : body.trigger_type ≡ some all_messages = sym ty ∙ t in
    let none_of = any-find_false (catches_all_in i) k bots (rw (is_refused, kind) at r) f in
    true_ne_false (sym (all_lem b eb tb e) ∙ none_of)
free i body bots k a b s n r ty op va f e (is_keyword o v t p q) sb =
    let (tb, (pb, qb)) = keyword_of sb in
    let kind : body.trigger_type ≡ some keyword = sym ty ∙ t in
    kw_free i bots k b o v body.trigger_operator body.trigger_value (rw (is_refused, kind) at r)
      (λ h. sym (op h) ∙ p) (λ h. sym (va h) ∙ q) f pb qb e
free i body bots k a b s n r ty op va f e (is_advanced v t q) sb =
    let (tb, qb) = advanced_of sb in
    let kind : body.trigger_type ≡ some advanced = sym ty ∙ t in
    adv_free i bots k b v body.trigger_value (rw (is_refused, kind) at r) (λ h. sym (va h) ∙ q) f qb
      e
