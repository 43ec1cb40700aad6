-- ===== src/Chatbot/Sound.antt =====
-- The bot that a message starts, and when `emit` starts one.
use lydia_bg_back.Prelude.{
  Text, List, [], ◌∷◌, Bool, true, false, ◌&&◌, ◌≡◌, refl, ap, subst, ◌∙◌, ◌==◌, eq_iff, internal,
  Option, none, some, find, find-All, filter, All, filter-All, All-Unit, All-map, starts_with,
  if◌then◌else◌, Result, ok, err, ◌>>=◌, arith,
}
use lydia_bg_back.Chatbot.State.{advanced, TriggerOperator, equals, regex, Bot}
use lydia_bg_back.Chatbot.Triggers.{
  includes, ends_with, is_type, is_enabled_in, catches_all, has_keyword, null_text, first_match,
  or_else, advanced_test, regex_test, test_text, text_test, advanced_operators_search, equals_test,
  find_bot_by_trigger,
}

-- Every bot that a search returns has `P`.
abbrev Finds : (Bot → Type 0) → Result (Option Bot) → Type 0
Finds P r = (b : Bot) → r ≡ ok (some b) → P b

or_else-Finds :
    (P : Bot → Type 0) (r s : Result (Option Bot)) → Finds P r → Finds P s → Finds P (or_else r s)
or_else-Finds P (ok none) s f g = g
or_else-Finds P (ok (some b)) s f g = f
or_else-Finds P (err e) s f g = f

find-Finds :
    (P Q : Bot → Type 0) (p : Bot → Bool) (bs : List Bot)
    → All Q bs
    → ((b : Bot) → Q b → p b ≡ true → P b)
    → Finds P (ok (find p bs))
find-Finds P Q p bs h w b e = let (q, t) = find-All Q p bs h (ok_eq e) in w b q t
  where
    ok_eq : {x y : Option Bot} → ok x ≡ ok y → x ≡ y
    ok_eq h = cc

first_match-Finds :
    (P Q : Bot → Type 0) (test : Bot → Result Bool) (bs : List Bot)
    → All Q bs
    → ((b : Bot) → Q b → test b ≡ ok true → P b)
    → Finds P (first_match test bs)
unfolding first_match
first_match-Finds P Q test [] h w b e = cc
first_match-Finds P Q test (x ∷ bs) h w b e =
    at (test x) refl (first_match-Finds P Q test bs h.1 w b) e
  where
    at :
        (r : Result Bool)
        → test x ≡ r
        → (first_match test bs ≡ ok (some b) → P b)
        → (r >>= λ found. if found then ok (some x) else first_match test bs) ≡ ok (some b)
        → P b
    at (ok true) t rest f = let same : x ≡ b = cc in subst P same (w x h.0 t)
    at (ok false) t rest f = rest f
    at (err d) t rest f = cc

module _ (nfd to_lower_case : Text → Text) (matches : Text → Text → Option Bool) where
  -- How a message with a text triggers a bot.
  pub data IsTriggeredBy (content : Text) (b : Bot) : Type 0 where
    by_advanced :
        (query : Text)
        → is_type advanced b.trigger_type ≡ true
        → b.trigger_value ≡ some query
        → advanced_operators_search nfd to_lower_case matches content query ≡ ok true
        → IsTriggeredBy content b
    by_equals :
        has_keyword equals b ≡ true → b.trigger_value ≡ some content → IsTriggeredBy content b
    by_start :
        has_keyword TriggerOperator.starts_with b ≡ true
        → starts_with content (null_text b.trigger_value) ≡ true
        → IsTriggeredBy content b
    by_end :
        has_keyword TriggerOperator.ends_with b ≡ true
        → ends_with content (null_text b.trigger_value) ≡ true
        → IsTriggeredBy content b
    by_part :
        has_keyword TriggerOperator.contains b ≡ true
        → includes content (null_text b.trigger_value) ≡ true
        → IsTriggeredBy content b

  -- How a message starts a bot, with a text or without one.
  pub data IsTriggered (content : Option Text) (b : Bot) : Type 0 where
    by_all : catches_all b ≡ true → IsTriggered content b
    by_text : (t : Text) → content ≡ some t → IsTriggeredBy t b → IsTriggered content b
    by_regex :
        has_keyword regex b ≡ true
        → matches (null_text b.trigger_value) (test_text content) ≡ some true
        → IsTriggered content b
    without_text : content ≡ none → has_keyword equals b ≡ true → IsTriggered content b

  abbrev pub IsMatch : Option Text → Text → Bot → Type 0
  IsMatch content instance_id b = (is_enabled_in instance_id b ≡ true) × IsTriggered content b

  advanced_test-true :
      (content : Option Text) (b : Bot)
      → is_type advanced b.trigger_type ≡ true
      → advanced_test nfd to_lower_case matches content b ≡ ok true
      → IsTriggered content b
  advanced_test-true none b h e = cc
  advanced_test-true (some t) b h e = at b.trigger_value refl e
    where
      at :
          (v : Option Text)
          → b.trigger_value ≡ v
          → elim v [
            | none ↦ err internal
            | some query ↦ advanced_operators_search nfd to_lower_case matches t query
          ]
            ≡ ok true
          → IsTriggered (some t) b
      at none p q = cc
      at (some query) p q = by_text t refl (by_advanced query h p q)

  equals_test-true :
      (content : Option Text) (b : Bot)
      → has_keyword equals b ≡ true
      → equals_test content b ≡ true
      → IsTriggered content b
  equals_test-true none b h e = without_text refl h
  equals_test-true (some t) b h e = at b.trigger_value refl e
    where
      at :
          (v : Option Text)
          → b.trigger_value ≡ v
          → elim v [ none ↦ false | some w ↦ w == t ] ≡ true
          → IsTriggered (some t) b
      at none p q = cc
      at (some w) p q = by_text t refl (by_equals h (p ∙ ap some ((eq_iff w t).0 q)))

  regex_test-true :
      (content : Option Text) (b : Bot)
      → has_keyword regex b ≡ true
      → regex_test nfd to_lower_case matches content b ≡ ok true
      → IsTriggered content b
  regex_test-true content b h e =
      at (matches (null_text b.trigger_value) (test_text content)) refl e
    where
      at :
          (r : Option Bool)
          → matches (null_text b.trigger_value) (test_text content) ≡ r
          → elim r [ none ↦ err internal | some x ↦ ok x ] ≡ ok true
          → IsTriggered content b
      at none p q = cc
      at (some true) p q = by_regex h p
      at (some false) p q = cc

  text_test-true :
      (p : Text → Text → Bool) (content : Option Text) (b : Bot)
      → ((t : Text) → p t (null_text b.trigger_value) ≡ true → IsTriggeredBy t b)
      → text_test p content b ≡ ok true
      → IsTriggered content b
  text_test-true p none b w e = cc
  text_test-true p (some t) b w e = by_text t refl (w t (ok_eq e))
    where
      ok_eq : {x y : Bool} → ok x ≡ ok y → x ≡ y
      ok_eq h = cc

  -- A bot that the search by trigger returns is enabled and of the message's instance, and either it
  -- takes all messages, or the message has a text that its trigger fits, or its regular expression
  -- matches that text (`undefined` if there is none), or the message has no text and the bot one to be
  -- equal to, whichever that is.
  pub find_bot_by_trigger-IsMatch :
      (bots : List Bot) (content : Option Text) (instance_id : Text) (b : Bot)
      → find_bot_by_trigger nfd to_lower_case matches bots content instance_id ≡ ok (some b)
      → IsMatch content instance_id b
  unfolding find_bot_by_trigger
  find_bot_by_trigger-IsMatch bots content instance_id =
      or_else-Finds P _ _ (find-Finds P Own catches_all own owned (λ b q t. (q, by_all t))) (
        or_else-Finds P _ _
          (first_match-Finds P (With (λ b. is_type advanced b.trigger_type)) _ _
            (kept (λ b. is_type advanced b.trigger_type))
            (λ b q t. (q.0, advanced_test-true content b q.1 t)))
          (or_else-Finds P _ _
            (find-Finds P Own _ own owned
              (λ b q t. (q, equals_test-true content b (left _ _ t) (right _ _ t))))
            (or_else-Finds P _ _
              (first_match-Finds P (With (has_keyword regex)) _ _ (kept (has_keyword regex))
                (λ b q t. (q.0, regex_test-true content b q.1 t)))
              (or_else-Finds P _ _
                (first_match-Finds P (With (has_keyword TriggerOperator.starts_with)) _ _
                  (kept (has_keyword TriggerOperator.starts_with))
                  (λ b q t. (q.0, text_test-true starts_with content b (λ x. by_start q.1) t)))
                (or_else-Finds P _ _
                  (first_match-Finds P (With (has_keyword TriggerOperator.ends_with)) _ _
                    (kept (has_keyword TriggerOperator.ends_with))
                    (λ b q t. (q.0, text_test-true ends_with content b (λ x. by_end q.1) t)))
                  (first_match-Finds P (With (has_keyword TriggerOperator.contains)) _ _
                    (kept (has_keyword TriggerOperator.contains))
                    (λ b q t. (q.0, text_test-true includes content b (λ x. by_part q.1) t))))))))
    where
      P : Bot → Type 0
      P = IsMatch content instance_id

      own : List Bot
      own = filter (is_enabled_in instance_id) bots

      Own : Bot → Type 0
      Own b = is_enabled_in instance_id b ≡ true

      With : (Bot → Bool) → Bot → Type 0
      With p b = Own b × (p b ≡ true)

      owned : All Own own
      owned =
          All-map (λ b. Unit × Own b) Own (λ b h. h.1) own
            (filter-All (λ b. Unit) (is_enabled_in instance_id) bots (All-Unit bots))

      kept : (p : Bot → Bool) → All (With p) (filter p own)
      kept p = filter-All Own p own owned

      left : (a b : Bool) → (a && b) ≡ true → a ≡ true
      left a b h = ground (arith, h)

      right : (a b : Bool) → (a && b) ≡ true → b ≡ true
      right a b h = ground (arith, h)
