-- ===== src/Chatbot/Triggers.antt =====
-- Which bot a message starts: src/utils/findBotByTrigger.ts and src/utils/advancedOperatorsSearch.ts.
-- Unicode normalisation with lower case, and regular expressions, are parameters: `matches` is `none`
-- for a pattern that RegExp refuses.
use lydia_bg_back.Prelude.{
  ℕ, nat_eq, leb, Text, codes, List, [], ◌∷◌, Bool, true, false, not, ◌&&◌, ◌||◌, Option, none,
  some, any, all, find, filter, push, reverse, split, starts_with, ◌==◌, if◌then◌else◌, Result, ok,
  err, internal, ◌>>=◌, contains,
}
use lydia_bg_back.Chatbot.State.{
  TriggerType, all_messages, keyword, no_trigger, advanced, TriggerOperator, equals, regex, Bot,
}

-- `includes` and `endsWith` on strings
unfoldable pub includes : Text → Text → Bool
includes [] p = starts_with [] p
includes (c ∷ s) p = starts_with (c ∷ s) p || includes s p

abbrev pub ends_with : Text → Text → Bool
ends_with s p = starts_with (reverse s) (reverse p)

-- `filter.split(':')`: the operator, and the other parts joined again
unfoldable pub split_filter : Text → Text × Text
split_filter [] = ([], [])
split_filter (c ∷ s) =
    let (operator, value) = split_filter s in if nat_eq c 58 then ([], s) else (c ∷ operator, value)

-- The properties that `{}` inherits, which are no arrays: `acc[operator].push` throws.
abbrev pub inherited : List Text
inherited =
    codes "constructor"
    ∷ codes "hasOwnProperty"
    ∷ codes "isPrototypeOf"
    ∷ codes "propertyIsEnumerable"
    ∷ codes "toLocaleString"
    ∷ codes "toString"
    ∷ codes "valueOf"
    ∷ codes "__proto__"
    ∷ codes "__defineGetter__"
    ∷ codes "__defineSetter__"
    ∷ codes "__lookupGetter__"
    ∷ codes "__lookupSetter__"
    ∷ []

abbrev pub Filters : Type 0
Filters = List (Text × List Text)

unfoldable pub add_value : Text → Text → Filters → Filters
add_value operator value [] = (operator, value ∷ []) ∷ []
add_value operator value ((o, values) ∷ fs) =
    let rest = add_value operator value fs in
    if o == operator then (o, push values value) ∷ fs else (o, values) ∷ rest

unfoldable pub add_filters : List Text → Filters → Result Filters
unfolding add_value split_filter
add_filters [] acc = ok acc
add_filters (f ∷ fs) acc =
    let (operator, value) = split_filter f in
    let rest = add_filters fs (add_value operator value acc) in
    if contains operator inherited then err internal else rest

-- `/[\u0300-\u036f]/`
abbrev pub is_combining : ℕ → Bool
is_combining c = leb 0x300 c && leb c 0x36f

-- `findFirst` and `findMany` with `enabled: true`, the instance and the kind of trigger
abbrev pub is_type : TriggerType → Option TriggerType → Bool
is_type t none = false
is_type all_messages (some all_messages) = true
is_type keyword (some keyword) = true
is_type no_trigger (some no_trigger) = true
is_type advanced (some advanced) = true
is_type t (some u) = false

abbrev pub is_operator : TriggerOperator → Option TriggerOperator → Bool
is_operator o none = false
is_operator TriggerOperator.contains (some TriggerOperator.contains) = true
is_operator equals (some equals) = true
is_operator TriggerOperator.starts_with (some TriggerOperator.starts_with) = true
is_operator TriggerOperator.ends_with (some TriggerOperator.ends_with) = true
is_operator regex (some regex) = true
is_operator o (some p) = false

abbrev pub is_enabled_in : Text → Bot → Bool
is_enabled_in instance_id b = b.enabled && b.instance_id == instance_id

abbrev pub catches_all : Bot → Bool
catches_all b = is_type all_messages b.trigger_type || is_type no_trigger b.trigger_type

abbrev pub has_keyword : TriggerOperator → Bot → Bool
has_keyword o b = is_type keyword b.trigger_type && is_operator o b.trigger_operator

-- `String(null)`, which the string methods make of a missing value
abbrev pub null_text : Option Text → Text
null_text none = codes "null"
null_text (some t) = t

-- `triggerValue: content` of the query; Prisma leaves a condition out whose value is undefined.
abbrev pub equals_test : Option Text → Bot → Bool
equals_test none b = true
equals_test (some content) b = elim b.trigger_value [ none ↦ false | some v ↦ v == content ]

-- `String(content)`, which `test` makes of the content
abbrev pub test_text : Option Text → Text
test_text none = codes "undefined"
test_text (some content) = content

-- A string method called on the content, which throws if that is undefined.
abbrev pub text_test : (Text → Text → Bool) → Option Text → Bot → Result Bool
text_test p none b = err internal
text_test p (some content) b = ok (p content (null_text b.trigger_value))

-- A loop that returns the first element that passes a test that may throw.
unfoldable pub first_match : (Bot → Result Bool) → List Bot → Result (Option Bot)
first_match test [] = ok none
first_match test (b ∷ bs) =
    let rest = first_match test bs in test b >>= λ found. if found then ok (some b) else rest

abbrev pub or_else : Result (Option Bot) → Result (Option Bot) → Result (Option Bot)
or_else (ok none) r = r
or_else (ok (some b)) r = ok (some b)
or_else (err e) r = err e

module _ (nfd to_lower_case : Text → Text) (matches : Text → Text → Option Bool) where
  abbrev pub normalize_string : Text → Text
  normalize_string s = to_lower_case (filter (λ c. not (is_combining c)) (nfd s))

  abbrev pub passes : Text → Text → Text → Bool
  passes operator item value =
      if operator == codes "contains"
      then includes item value
      else if operator == codes "notcontains"
      then not (includes item value)
      else if operator == codes "startswith"
      then starts_with item value
      else if operator == codes "endswith"
      then ends_with item value
      else (operator == codes "exact" && item == value)

  abbrev pub passes_values : Text → Text × List Text → Bool
  passes_values item (operator, values) =
      any
        (λ value.
          all (λ v. passes (to_lower_case operator) item (normalize_string v)) (split 44 value))
        values

  unfoldable pub advanced_operators_search : Text → Text → Result Bool
  unfolding add_filters includes
  advanced_operators_search item query = add_filters (split 32 query) [] >>= λ filters.
      ok (all (passes_values (normalize_string item)) filters)

  -- `split` throws on a `triggerValue` that is null, and `normalize` on a content that is undefined.
  abbrev pub advanced_test : Option Text → Bot → Result Bool
  advanced_test none b = err internal
  advanced_test (some content) b = elim b.trigger_value [
    | none ↦ err internal
    | some query ↦ advanced_operators_search content query
  ]

  abbrev pub regex_test : Option Text → Bot → Result Bool
  regex_test content b = elim (matches (null_text b.trigger_value) (test_text content)) [
    | none ↦ err internal
    | some r ↦ ok r
  ]

  -- The tests in the order of the code. A message without a text (a sticker, a reaction) has no content.
  unfoldable pub find_bot_by_trigger : List Bot → Option Text → Text → Result (Option Bot)
  unfolding first_match advanced_operators_search
  find_bot_by_trigger bots content instance_id =
      let own = filter (is_enabled_in instance_id) bots in
      or_else (ok (find catches_all own)) (
        or_else
          (first_match (advanced_test content) (filter (λ b. is_type advanced b.trigger_type) own))
          (or_else (ok (find (λ b. has_keyword equals b && equals_test content b) own)) (
            or_else (first_match (regex_test content) (filter (has_keyword regex) own)) (
              or_else
                (first_match (text_test starts_with content)
                  (filter (has_keyword TriggerOperator.starts_with) own))
                (or_else
                  (first_match (text_test ends_with content)
                    (filter (has_keyword TriggerOperator.ends_with) own))
                  (first_match (text_test includes content)
                    (filter (has_keyword TriggerOperator.contains) own)))))))
