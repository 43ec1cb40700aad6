-- ===== src/BotFlow/Sound/Options.antt =====
-- The loop over the options of a question.
use lydia_bg_back.Prelude.{
  ℕ, zero, suc, ◌+◌, ◌≤◌, Text, codes, List, [], ◌∷◌, ◌≡◌, refl, ap, Option, none, some, length,
  push, push-ne-nil, push_if, push_if-eq-nil, length-push, ltb, ltb-eq-false, contains,
  contains-push, ◌||◌, All, All-push, IsDistinct, IsDistinct-push, arith, take,
}
use lydia_bg_back.Json.{Value, obj, Fields, as_text, get_field}
use lydia_bg_back.BotFlow.Graph.{BotOption, BotError, bad_option_count, max_options}
use lydia_bg_back.BotFlow.Nodes.{
  short_id, OptionState, accept_option, read_option, add_option, add_options, first_options,
  read_options,
}
use lydia_bg_back.BotFlow.WellFormed.{IsShortId, IsOption, option_ids, option_titles, IsChoice}

pub short_id-IsShortId : (t : Option Text) {k : Text} → short_id t ≡ some k → IsShortId k
unfolding short_id
short_id-IsShortId none e = cc
short_id-IsShortId (some s) e = ground arith

module _ (to_lower_case : Text → Text) where
  pub record OptionsGood (s : OptionState) : Type 0 where
    options : All IsOption s.options
    ids : IsDistinct (option_ids s.options)
    titles : IsDistinct (option_titles to_lower_case s.options)
    same_ids : (k : Text) → contains k s.option_ids ≡ contains k (option_ids s.options)
    same_titles :
        (k : Text) → contains k s.titles ≡ contains k (option_titles to_lower_case s.options)

  option_ids-push :
      (os : List BotOption) (o : BotOption) → option_ids (push os o) ≡ push (option_ids os) o.id
  unfolding push
  option_ids-push [] o = refl
  option_ids-push (p ∷ os) o = ap (λ ks. p.id ∷ ks) (option_ids-push os o)

  option_titles-push :
      (os : List BotOption) (o : BotOption)
      → option_titles to_lower_case (push os o)
        ≡ push (option_titles to_lower_case os) (to_lower_case o.title)
  unfolding push
  option_titles-push [] o = refl
  option_titles-push (p ∷ os) o = ap (λ ks. to_lower_case p.title ∷ ks) (option_titles-push os o)

  -- What one round has done if it reports no error.
  record Kept (s s' : OptionState) : Type 0 where
    before : s.errors ≡ []
    good : OptionsGood s → OptionsGood s'
    longer : length s'.options ≡ length s.options + 1

  contains-snoc :
      (k x : Text) (seen listed : List Text)
      → contains k seen ≡ contains k listed
      → contains k (x ∷ seen) ≡ contains k (push listed x)
  unfolding contains
  contains-snoc k x seen listed e = ground (arith, contains-push k listed x, e)

  accept_option_sound :
      (label id title : Text) (s : OptionState)
      → IsShortId id
      → (accept_option to_lower_case label id title s).errors ≡ []
      → Kept s (accept_option to_lower_case label id title s)
  unfolding accept_option
  accept_option_sound label id title s short e =
      let (h4, e3) = push_if-eq-nil _ _ _ e in
      let (h3, e2) = push_if-eq-nil _ _ _ e3 in
      let (h2, e1) = push_if-eq-nil _ _ _ e2 in
      let (h1, e0) = push_if-eq-nil _ _ _ e1 in
      record {
        before = e0;
        good = λ g. record {
          options =
              All-push IsOption s.options _ g.options
                (record { id = short; titled = h1; fits = ltb-eq-false _ _ h2 });
          ids = rw option_ids-push (IsDistinct-push _ _ g.ids (rw (← g.same_ids id) h4));
          titles =
              rw option_titles-push
                (IsDistinct-push _ _ g.titles (rw (← g.same_titles (to_lower_case title)) h3));
          same_ids = λ k. rw option_ids-push (contains-snoc k id _ _ (g.same_ids k));
          same_titles = λ k.
              rw option_titles-push (contains-snoc k (to_lower_case title) _ _ (g.same_titles k));
        };
        longer = length-push s.options _;
      }

  refuse : (s s' : OptionState) (x : BotError) → push s.errors x ≡ [] → Kept s s'
  refuse s s' x e = absurd (push-ne-nil _ _ e)

  read_option_sound :
      (label : Text) (r : Fields) (t : Option Text) (s : OptionState)
      → ((k : Text) → t ≡ some k → IsShortId k)
      → (read_option to_lower_case label r t s).errors ≡ []
      → Kept s (read_option to_lower_case label r t s)
  unfolding read_option
  read_option_sound label r none s h e = refuse s _ _ e
  read_option_sound label r (some id) s h e = accept_option_sound label id _ s (h id refl) e

  add_option_sound :
      (label : Text) (s : OptionState) (v : Value)
      → (add_option to_lower_case label s v).errors ≡ []
      → Kept s (add_option to_lower_case label s v)
  unfolding add_option
  add_option_sound label s (obj r) e =
      read_option_sound label r (short_id (as_text (get_field (codes "id") r))) s
        (λ k q. short_id-IsShortId (as_text (get_field (codes "id") r)) q) e
  add_option_sound label s _ e = refuse s _ _ e

  pub add_options_sound :
      (label : Text) (s : OptionState) (vs : List Value)
      → (add_options to_lower_case label s vs).errors ≡ []
      → (s.errors ≡ [])
        × (OptionsGood s → OptionsGood (add_options to_lower_case label s vs))
        × (length (add_options to_lower_case label s vs).options ≡ length s.options + length vs)
  unfolding add_options
  add_options_sound label s [] e = (e, λ g. g, omega arith)
  add_options_sound label s (v ∷ vs) e =
      let (e', g, n) = add_options_sound label (add_option to_lower_case label s v) vs e in
      let k = add_option_sound label s v e' in
      (k.before, λ h. g (k.good h), omega (arith, n, k.longer))

  length-take_le : (n : ℕ) (vs : List Value) → length vs ≤ n → length (take n vs) ≡ length vs
  length-take_le zero [] h = refl
  length-take_le zero (v ∷ vs) h = absurd (omega arith)
  length-take_le (suc n) [] h = refl
  length-take_le (suc n) (v ∷ vs) h = ap suc (length-take_le n vs (omega arith))

  first_options-OptionsGood : (errors : List BotError) → OptionsGood (first_options errors)
  first_options-OptionsGood errors = record {
    options = tt;
    ids = tt;
    titles = tt;
    same_ids = λ k. refl;
    same_titles = λ k. refl;
  }

  -- Options that raise no error are a choice of one to three.
  pub read_options_sound :
      (label : Text) (raws : List Value) (errors : List BotError)
      → (read_options to_lower_case label raws errors).errors ≡ []
      → (errors ≡ [])
        × IsChoice to_lower_case (read_options to_lower_case label raws errors).options
  unfolding read_options
  read_options_sound label raws errors e =
      let count = length raws in
      let tested = push_if (ltb count 1 || ltb max_options count) (bad_option_count label) errors in
      let (e', g, n) =
        add_options_sound label (first_options tested) (take (max_options + 1) raws) e in
      let (h, e0) = push_if-eq-nil _ _ _ e' in
      let fits : (1 ≤ count) × (count ≤ max_options) = ground arith in
      let d = g (first_options-OptionsGood tested) in
      let m = length-take_le (max_options + 1) raws (omega arith) in
      (
        e0,
        record {
          some_option = omega (arith, n, m);
          few = omega (arith, n, m);
          options = d.options;
          ids = d.ids;
          titles = d.titles;
        },
      )
