-- ===== src/Chatbot/Exclusive.antt =====
-- No two bots of an instance have one trigger: the calls that store bots keep it so.
use lydia_bg_back.Prelude.{
  some_eq, none_ne_some, Text, List, Bool, true, false, not, ◌||◌, ◌≡◌, ◌≢◌, refl, ap, sym, subst,
  ◌∙◌, Option, none, some, inl, inr, lookup, ◌==◌, eq_iff, if◌then◌else◌, arith, Bool-cases,
  Option-cases,
}
use lydia_bg_back.Table.{
  find_row, has_row, update_row, updated, or_new, find-update_row, find-push_row,
  find-has_row-false,
}
use lydia_bg_back.Chatbot.State.{BotOptions, Bot, Settings, Store, bot_id}
use lydia_bg_back.Chatbot.Emit.{is_none, first_of, merged}
use lydia_bg_back.Chatbot.Slots.{Slot, IsSlot, IsExclusive, find-others, free}
use lydia_bg_back.Chatbot.Registry.{Instances, settings_in}
use lydia_bg_back.Chatbot.Bots.{
  BotData, is_refused, store_settings, options_of, is_incomplete, new_bot, insert_bot,
  check_and_insert, create_in, create_bot, others, patch_bot, update_in, update_bot,
}

-- The trigger of every bot in a list that has the keys of another is kept apart from a changed bot.
abbrev IsFreeIn : Text → Text → Bot → List Bot → Type 0
IsFreeIn i id a bots =
    (k : Text) (b : Bot) (s : Slot)
    → (id == k) ≡ false
    → find_row bot_id k bots ≡ some b
    → b.instance_id ≡ i
    → IsSlot a s
    → IsSlot b s
    → ⊥

new_is : (b : Bot) (j : Text) {x : Bot} → or_new bot_id j b none ≡ some x → (b.id ≡ j) × (b ≡ x)
new_is b j {x} l = elim (Bool-cases (b.id == j)) [
  | inl t ↦ ((eq_iff b.id j).0 t, ground (arith, t, l))
  | inr t ↦ absurd (none_ne_some (rw t at l))
]

insert_bot-IsExclusive :
    (b : Bot) (store : Store)
    → IsExclusive store.bots
    → IsFreeIn b.instance_id b.id b store.bots
    → IsExclusive (insert_bot b store).1.bots
unfolding insert_bot
insert_bot-IsExclusive b store h f = elim (Bool-cases (has_row bot_id b.id store.bots)) [
  | inl t ↦ rw t h
  | inr t ↦ rw t (λ j k x y s u v.
      pushed t j k x y s (find_row bot_id j store.bots) (find_row bot_id k store.bots) refl refl
        (sym (find-push_row bot_id j b store.bots) ∙ u)
        (sym (find-push_row bot_id k b store.bots) ∙ v))
]
  where
    absent :
        (t : has_row bot_id b.id store.bots ≡ false) (k : Text) (c : Bot)
        → find_row bot_id k store.bots ≡ some c
        → (b.id == k) ≡ false
    absent t k c e = elim (Bool-cases (b.id == k)) [
      | inl u ↦
          let none_is =
            subst (λ z. find_row bot_id z store.bots ≡ none) ((eq_iff b.id k).0 u)
              (find-has_row-false bot_id b.id store.bots t) in
          absurd (none_ne_some (sym none_is ∙ e))
      | inr u ↦ u
    ]

    pushed :
        (t : has_row bot_id b.id store.bots ≡ false) (j k : Text) (x y : Bot) (s : Slot)
        (o p : Option Bot)
        → find_row bot_id j store.bots ≡ o
        → find_row bot_id k store.bots ≡ p
        → or_new bot_id j b o ≡ some x
        → or_new bot_id k b p ≡ some y
        → x.instance_id ≡ y.instance_id
        → IsSlot x s
        → IsSlot y s
        → j ≡ k
    pushed t j k x y s (some c) (some d) u v l m same sx sy = h j k x y s (u ∙ l) (v ∙ m) same sx sy
    pushed t j k x y s none (some d) u v l m same sx sy =
        let (i, bx) = new_is b j l in
        absurd (
          f k y s (absent t k y (v ∙ m)) (v ∙ m)
            (sym same ∙ sym (ap (λ (z : Bot). z.instance_id) bx))
            (subst (λ z. IsSlot z s) (sym bx) sx) sy)
    pushed t j k x y s (some c) none u v l m same sx sy =
        let (i, by) = new_is b k m in
        absurd (
          f j x s (absent t j x (u ∙ l)) (u ∙ l) (same ∙ sym (ap (λ (z : Bot). z.instance_id) by))
            (subst (λ z. IsSlot z s) (sym by) sy) sx)
    pushed t j k x y s none none u v l m same sx sy = sym (new_is b j l).0 ∙ (new_is b k m).0

-- A changed bot keeps its key and its instance.
update_row-IsExclusive :
    (id : Text) (g : Bot → Bot) (bots : List Bot) {b : Bot}
    → ((a : Bot) → (g a).id ≡ a.id)
    → ((a : Bot) → (g a).instance_id ≡ a.instance_id)
    → find_row bot_id id bots ≡ some b
    → IsExclusive bots
    → IsFreeIn b.instance_id id (g b) bots
    → IsExclusive (update_row bot_id id g bots)
update_row-IsExclusive id g bots {b} kid kin found h f j k x y s u v =
    changed (find_row bot_id j bots) (find_row bot_id k bots) refl refl
      (sym (find-update_row bot_id id j g bots kid) ∙ u)
      (sym (find-update_row bot_id id k g bots kid) ∙ v)
  where
    clash :
        (i l : Text) (c d p q : Bot)
        → (id == i) ≡ true
        → (id == l) ≡ false
        → find_row bot_id i bots ≡ some c
        → find_row bot_id l bots ≡ some d
        → g c ≡ p
        → d ≡ q
        → p.instance_id ≡ q.instance_id
        → IsSlot p s
        → IsSlot q s
        → ⊥
    clash i l c d p q t w fc fd gp dq same sp sq =
        let own : find_row bot_id id bots ≡ some c =
          subst (λ z. find_row bot_id z bots ≡ some c) (sym ((eq_iff id i).0 t)) fc in
        let bc : b ≡ c = some_eq (sym found ∙ own) in
        f l d s w fd
          (ap (λ (z : Bot). z.instance_id) dq
            ∙ (sym same
                ∙ (sym (ap (λ (z : Bot). z.instance_id) gp)
                    ∙ (kin c ∙ sym (ap (λ (z : Bot). z.instance_id) bc)))))
          (subst (λ z. IsSlot z s) (sym (ap g bc ∙ gp)) sp) (subst (λ z. IsSlot z s) (sym dq) sq)

    changed :
        (o p : Option Bot)
        → find_row bot_id j bots ≡ o
        → find_row bot_id k bots ≡ p
        → updated bot_id id g j o ≡ some x
        → updated bot_id id g k p ≡ some y
        → x.instance_id ≡ y.instance_id
        → IsSlot x s
        → IsSlot y s
        → j ≡ k
    changed none p fu fv l m same sx sy = cc
    changed (some c) none fu fv l m same sx sy = cc
    changed (some c) (some d) fu fv l m same sx sy = elim (Bool-cases (id == j)) [
      | inl t ↦ elim (Bool-cases (id == k)) [
        | inl w ↦ sym ((eq_iff id j).0 t) ∙ (eq_iff id k).0 w
        | inr w ↦
            absurd
              (clash j k c d x y t w fu fv (ground (arith, t, l)) (ground (arith, w, m)) same sx sy)
      ]
      | inr t ↦ elim (Bool-cases (id == k)) [
        | inl w ↦ absurd (
            clash k j d c y x w t fv fu (ground (arith, w, m)) (ground (arith, t, l)) (sym same) sy
              sx)
        | inr w ↦
            let cx : c ≡ x = ground (arith, t, l) in
            let dy : d ≡ y = ground (arith, w, m) in
            h j k c d s fu fv
              (ap (λ (z : Bot). z.instance_id) cx
                ∙ (same ∙ sym (ap (λ (z : Bot). z.instance_id) dy)))
              (subst (λ z. IsSlot z s) (sym cx) sx) (subst (λ z. IsSlot z s) (sym dy) sy)
      ]
    ]

-- A body names the type of its trigger, as the schemas of the requests demand.
abbrev pub IsTyped : BotData → Type 0
IsTyped body = body.trigger_type ≢ none

check_and_insert-IsExclusive :
    (defaults : BotOptions) (id i : Text) (body : BotData) (o : BotOptions) (store : Store)
    → IsTyped body
    → IsExclusive store.bots
    → IsExclusive (check_and_insert defaults id i body o store).1.bots
unfolding check_and_insert
check_and_insert-IsExclusive defaults id i body o store n h =
    elim (Bool-cases (is_refused i body store.bots)) [
      | inl t ↦ rw t h
      | inr t ↦ rw t (
          insert_bot-IsExclusive (new_bot defaults id i body o) store h (λ k b s w f e sa sb.
            free i body store.bots k (new_bot defaults id i body o) b s n t refl (λ q. refl)
              (λ q. refl) f e sa sb))
    ]

store_settings-bots :
    (defaults : BotOptions) (id i : Text) (o : BotOptions) (f : Option Text) (own : Option Settings)
    (store : Store)
    → (store_settings defaults id i o f own store).bots ≡ store.bots
unfolding store_settings
store_settings-bots defaults id i o f none store = refl
store_settings-bots defaults id i o f (some s) store = refl

-- If the request names the type of the trigger and no two bots of an instance have one trigger, this
-- is so after `createBot` too, whether the call throws or not.
pub create_bot-IsExclusive :
    (defaults : BotOptions) (enabled : Bool) (instances : Instances) (name id new_settings : Text)
    (body : BotData) (store : Store)
    → IsTyped body
    → IsExclusive store.bots
    → IsExclusive (create_bot defaults enabled instances name id new_settings body store).1.bots
unfolding create_bot create_in
create_bot-IsExclusive defaults false instances name id new_settings body store n h = h
create_bot-IsExclusive defaults true instances name id new_settings body store n h =
    elim (Option-cases (lookup name instances)) [
      | inl t ↦ rw (create_bot, t) h
      | inr (i, t) ↦ rw (create_bot, t) (created i)
    ]
  where
    own : Text → Store
    own i =
        if is_none (settings_in i store)
        then store_settings defaults new_settings i
            (merged body.options (options_of (settings_in i store))) none none store
        else store

    own-bots : (i : Text) → (own i).bots ≡ store.bots
    own-bots i = elim (Bool-cases (is_none (settings_in i store))) [
      | inl t ↦ rw t (
          store_settings-bots defaults new_settings i
            (merged body.options (options_of (settings_in i store))) none none store)
      | inr t ↦ rw t refl
    ]

    created : (i : Text) → IsExclusive (create_in defaults id new_settings i body store).1.bots
    created i = elim (Bool-cases (is_incomplete body.options)) [
      | inl t ↦ rw t (
          check_and_insert-IsExclusive defaults id i body
            (merged body.options (options_of (settings_in i store))) (own i) n
            (subst IsExclusive (sym (own-bots i)) h))
      | inr t ↦ rw t (check_and_insert-IsExclusive defaults id i body body.options store n h)
    ]

-- The same of `updateBot`.
pub update_bot-IsExclusive :
    (no_duplicates : Text → Text → Bool) (enabled : Bool) (instances : Instances) (name id : Text)
    (body : BotData) (store : Store)
    → IsTyped body
    → IsExclusive store.bots
    → IsExclusive (update_bot no_duplicates enabled instances name id body store).1.bots
unfolding update_bot update_in
update_bot-IsExclusive no_duplicates false instances name id body store n h = h
update_bot-IsExclusive no_duplicates true instances name id body store n h =
    elim (Option-cases (lookup name instances)) [
      | inl t ↦ rw (update_bot, t) h
      | inr (i, t) ↦ rw (update_bot, t) (found i (find_row bot_id id store.bots) refl)
    ]
  where
    given : {A : Type 0} (x y : Option A) → x ≢ none → first_of x y ≡ x
    given none y q = absurd (q refl)
    given (some v) y q = refl

    found :
        (i : Text) (o : Option Bot)
        → find_row bot_id id store.bots ≡ o
        → IsExclusive (update_in no_duplicates i id body o store).1.bots
    found i none t = h
    found i (some b) t =
        elim (Bool-cases (
          not (b.instance_id == i)
          || (not (no_duplicates id i) || is_refused i body (others id store.bots)))) [
            | inl g ↦ rw g h
            | inr g ↦ rw g (
                update_row-IsExclusive id (patch_bot body) store.bots (λ a. refl) (λ a. refl) t h
                  (λ k c s w f e sa sb.
                    free i body (others id store.bots) k (patch_bot body b) c s n
                      (ground (arith, g)) (given body.trigger_type b.trigger_type n)
                      (given body.trigger_operator b.trigger_operator)
                      (given body.trigger_value b.trigger_value)
                      (find-others id k store.bots ∙ rw w f)
                      (e ∙ (eq_iff b.instance_id i).0 (ground (arith, g))) sa sb))
          ]
