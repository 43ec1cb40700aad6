-- ===== src/BotFlow/Reread/Options.antt =====
-- The options of a question, stored and read again.
use lydia_bg_back.Prelude.{
  ℕ, zero, suc, ◌+◌, ◌≤◌, Text, codes, List, [], ◌∷◌, ◌++◌, ◌&&◌, ◌||◌, ◌≡◌, refl, ap, sym, ◌∙◌,
  Option, none, some, inl, inr, is_empty, is_space, trim, trim_start, trim_end, length, take, push,
  push-ne-nil, push_if, push_if-eq-nil, ltb, lookup, ◌==◌, arith, Bool-cases,
}
use mathlib.Core.List.{append-nil, append_assoc}
use lydia_bg_back.Json.{Value, str, obj, Fields, end, prop, items, of_items, as_text, get_field}
use lydia_bg_back.BotFlow.Graph.{BotOption, BotError, bad_option_count, max_options}
use lydia_bg_back.BotFlow.Nodes.{
  text_or_empty, short_id, trimmed, OptionState, accept_option, read_option, add_option,
  add_options, first_options, read_options,
}
use lydia_bg_back.BotFlow.Sound.Options.{add_options_sound}
use lydia_bg_back.BotFlow.Encode.{value_of_option, values_of_options}

trim_start_idem : (s : Text) → trim_start (trim_start s) ≡ trim_start s
unfolding trim_start
trim_start_idem [] = refl
trim_start_idem (c ∷ s) = elim (Bool-cases (is_space c)) [
  | inl t ↦ rw t (trim_start_idem s)
  | inr t ↦ rw t (rw t refl)
]

trim_end_idem : (s : Text) → trim_end (trim_end s) ≡ trim_end s
unfolding trim_end
trim_end_idem [] = refl
trim_end_idem (c ∷ s) = elim (Bool-cases (is_space c && is_empty (trim_end s))) [
  | inl t ↦ rw t refl
  | inr t ↦ rw t (rw (trim_end_idem s, t) refl)
]

trim_start-trim_end : (s : Text) → trim_start (trim_end (trim_start s)) ≡ trim_end (trim_start s)
unfolding trim_start trim_end
trim_start-trim_end [] = refl
trim_start-trim_end (c ∷ s) = elim (Bool-cases (is_space c)) [
  | inl t ↦ rw t (trim_start-trim_end s)
  | inr t ↦ rw t (rw t (rw t refl))
]

pub trim_idem : (s : Text) → trim (trim s) ≡ trim s
unfolding trim
trim_idem s = ap trim_end (trim_start-trim_end s) ∙ trim_end_idem (trim_start s)

pub items-of_items : (vs : List Value) → items (of_items vs) ≡ vs
items-of_items [] = refl
items-of_items (v ∷ vs) = ap (λ z. v ∷ z) (items-of_items vs)

pub take-all : {A : Type 0} (n : ℕ) (xs : List A) → length xs ≤ n → take n xs ≡ xs
take-all zero [] h = refl
take-all zero (x ∷ xs) h = absurd (omega (arith, h))
take-all (suc n) [] h = refl
take-all (suc n) (x ∷ xs) h = ap (λ z. x ∷ z) (take-all n xs (omega (arith, h)))

pub short_id-some : (o : Option Text) {k : Text} → short_id o ≡ some k → short_id (some k) ≡ some k
unfolding short_id
short_id-some none e = cc
short_id-some (some s) {k} e = ground arith

module _ (to_lower_case : Text → Text) where
  -- What an option that raises no error adds, and that its stored form adds the same.
  record Reread (label : Text) (s s' : OptionState) : Type 0 where
    option : BotOption
    added : s'.options ≡ push s.options option
    again : add_option to_lower_case label s (value_of_option option) ≡ s'

  read_option_again :
      (label : Text) (r : Fields) (t : Option Text) (s : OptionState)
      → ((k : Text) → t ≡ some k → short_id (some k) ≡ some k)
      → (read_option to_lower_case label r t s).errors ≡ []
      → Reread label s (read_option to_lower_case label r t s)
  unfolding read_option accept_option add_option trimmed lookup ◌==◌
  read_option_again label r none s h e = absurd (push-ne-nil _ _ e)
  read_option_again label r (some id) s h e = record {
    option = record { id = id; title = trimmed (codes "title") r };
    added = refl;
    again =
        ap (λ t. read_option to_lower_case label stored t s) (h id refl)
        ∙ ap (λ t. accept_option to_lower_case label id t s)
            (trim_idem (text_or_empty (as_text (get_field (codes "title") r))));
  }
    where
      stored : Fields
      stored =
          prop (codes "id") (str id) (prop (codes "title") (str (trimmed (codes "title") r)) end)

  add_option_again :
      (label : Text) (s : OptionState) (v : Value)
      → (add_option to_lower_case label s v).errors ≡ []
      → Reread label s (add_option to_lower_case label s v)
  unfolding add_option
  add_option_again label s (obj r) e =
      read_option_again label r (short_id (as_text (get_field (codes "id") r))) s
        (λ k q. short_id-some (as_text (get_field (codes "id") r)) q) e
  add_option_again label s _ e = absurd (push-ne-nil _ _ e)

  record RereadAll (label : Text) (s : OptionState) (vs : List Value) : Type 0 where
    options : List BotOption
    added : (add_options to_lower_case label s vs).options ≡ s.options ++ options
    count : length (values_of_options options) ≡ length vs
    again :
        add_options to_lower_case label s (values_of_options options)
        ≡ add_options to_lower_case label s vs

  add_options_again :
      (label : Text) (s : OptionState) (vs : List Value)
      → (add_options to_lower_case label s vs).errors ≡ []
      → RereadAll label s vs
  unfolding add_options push
  add_options_again label s [] e = record {
    options = [];
    added = sym (append-nil s.options);
    count = refl;
    again = refl;
  }
  add_options_again label s (v ∷ vs) e =
      let (before, good, longer) =
        add_options_sound to_lower_case label (add_option to_lower_case label s v) vs e in
      let k = add_option_again label s v before in
      let rest = add_options_again label (add_option to_lower_case label s v) vs e in
      record {
        options = k.option ∷ rest.options;
        added =
            rest.added
            ∙ (ap (λ z. z ++ rest.options) k.added
                ∙ append_assoc s.options (k.option ∷ []) rest.options);
        count = ap suc rest.count;
        again =
            ap (λ z. add_options to_lower_case label z (values_of_options rest.options)) k.again
            ∙ rest.again;
      }

  -- The options that raise no error are read again with the same result.
  pub read_options_again :
      (label : Text) (raws : List Value) (errors : List BotError)
      → (read_options to_lower_case label raws errors).errors ≡ []
      → read_options to_lower_case label
          (values_of_options (read_options to_lower_case label raws errors).options)
          errors
        ≡ read_options to_lower_case label raws errors
  unfolding read_options
  read_options_again label raws errors e =
      let (e1, good, longer) =
        add_options_sound to_lower_case label (from (length raws)) (take (max_options + 1) raws)
          e in
      let (h, e0) = push_if-eq-nil _ _ _ e1 in
      let fits : length raws ≤ max_options = ground (arith, h) in
      let whole = take-all (max_options + 1) raws (omega (arith, fits)) in
      let all = add_options_again label (from (length raws)) (take (max_options + 1) raws) e in
      let same : length (values_of_options all.options) ≡ length raws =
        all.count ∙ ap length whole in
      ap (λ os. read_options to_lower_case label (values_of_options os) errors) all.added
      ∙ (ap
            (λ n.
              add_options to_lower_case label (from n)
                (take (max_options + 1) (values_of_options all.options)))
            same
          ∙ (ap (add_options to_lower_case label (from (length raws))) (
                take-all (max_options + 1) (values_of_options all.options)
                  (omega (arith, fits, same)))
              ∙ all.again))
    where
      from : ℕ → OptionState
      from n =
          first_options (push_if (ltb n 1 || ltb max_options n) (bad_option_count label) errors)
