-- ===== src/Chatbot/Replies.antt =====
-- When `emit` hands a message to a bot.
use lydia_bg_back.Prelude.{
  ℕ, Text, List, [], ◌∷◌, Bool, true, false, not, ◌&&◌, ◌||◌, ◌≡◌, ◌≢◌, refl, ap, sym, subst, ◌∙◌,
  Option, none, some, inl, inr, is_empty, if◌then◌else◌, Result, ok, err, ◌>>=◌, arith, Bool-cases,
}
use lydia_bg_back.Table.{find_row, key-find}
use lydia_bg_back.Chatbot.State.{BotOptions, Bot, Settings, IntegrationSession, Store, bot_id}
use lydia_bg_back.Chatbot.Triggers.{find_bot_by_trigger}
use lydia_bg_back.Chatbot.Emit.{
  Incoming, check_ignore_jids, get_session, resolve, is_on, is_closed, Reaction, process_bot,
  silent, failed, seconds, stop_session, admit, react, fallback, or_fallback, jids_of,
  find_bot_trigger, settings_of, emit,
}
use lydia_bg_back.Chatbot.Sound.{IsMatch, find_bot_by_trigger-IsMatch}

-- Where a bot comes from: the session, the triggers, or the settings' fallback.
pub data IsSource (P : Bot → Type 0) (session : Option IntegrationSession)
    (settings : Option Settings) (b : Bot) : Type 0 where
  of_session :
      (s : IntegrationSession)
      → session ≡ some s
      → s.bot_id ≡ some b.id
      → IsSource P session settings b
  of_trigger : session ≡ none → P b → IsSource P session settings b
  of_fallback :
      (t : Settings) → settings ≡ some t → t.fallback_id ≡ some b.id → IsSource P session settings b

-- What must be so of the sender and the session for options `o`.
pub record IsAdmitted (m : Incoming) (s : Option IntegrationSession) (o : BotOptions) : Type 0 where
  pub awake : is_closed s ≡ false
  pub listening : m.from_me ≡ true → is_on o.listening_from_me ≡ true
  pub running : m.from_me ≡ true → is_on o.stop_bot_from_me ≡ true → s ≡ none

abbrev IsSame :
    Bot
    → Bot
    → Option IntegrationSession
    → Option IntegrationSession
    → BotOptions
    → BotOptions
    → ℕ
    → ℕ
    → Type 0
IsSame b c s t o p k n = (b ≡ c) × ((s ≡ t) × ((o ≡ p) × (k ≡ n)))

admit-IsAdmitted :
    (m : Incoming) (b c : Bot) (s t : Option IntegrationSession) (o p : BotOptions) (n : ℕ)
    → admit m b s o ≡ process_bot c t p n
    → IsAdmitted m s o × IsSame b c s t o p (seconds o.debounce_time) n
unfolding admit
admit-IsAdmitted m b c s t o p n e =
    let (h, same) =
      outer m.from_me (is_on o.listening_from_me) (is_on o.stop_bot_from_me) (is_closed s) s e in
    (record { awake = h.0; listening = h.1.0; running = h.1.1 }, same)
  where
    inner : Bool → Bool → Bool → Option IntegrationSession → Reaction
    inner me lis cl x =
        if not lis && me
        then silent
        else if cl
        then silent
        else process_bot b x o (seconds o.debounce_time)

    Facts : Bool → Bool → Bool → Bool → Option IntegrationSession → Type 0
    Facts me lis st cl x =
        ((cl ≡ false) × ((me ≡ true → lis ≡ true) × (me ≡ true → st ≡ true → x ≡ none)))
        × IsSame b c x t o p (seconds o.debounce_time) n

    within :
        (me lis st cl : Bool) (x : Option IntegrationSession)
        → (me ≡ true → st ≡ true → x ≡ none)
        → inner me lis cl x ≡ process_bot c t p n
        → Facts me lis st cl x
    within true true st false x r f = ((refl, (λ h. refl, r)), (cc, (cc, (cc, cc))))
    within false true st false x r f = ((refl, (λ h. refl, r)), (cc, (cc, (cc, cc))))
    within false false st false x r f = ((refl, (λ h. cc, r)), (cc, (cc, (cc, cc))))
    within true false st cl x r f = cc
    within true true st true x r f = cc
    within false lis st true x r f = silenced lis f
      where
        silenced :
            (l : Bool) → inner false l true x ≡ process_bot c t p n → Facts false lis st true x
        silenced true g = cc
        silenced false g = cc

    outer :
        (me lis st cl : Bool) (x : Option IntegrationSession)
        → (if st && me then stop_session x (inner me lis cl x) else inner me lis cl x)
          ≡ process_bot c t p n
        → Facts me lis st cl x
    outer true lis true cl none f = within true lis true cl none (λ h k. refl) f
    outer true lis true cl (some x) f = cc
    outer true lis false cl x f = within true lis false cl x (λ h k. cc) f
    outer false lis true cl x f = within false lis true cl x (λ h k. cc) f
    outer false lis false cl x f = within false lis false cl x (λ h k. cc) f

fallback-IsSource :
    (P : Bot → Type 0) (session : Option IntegrationSession) (settings : Option Settings)
    (bots : List Bot) (b : Bot)
    → fallback settings bots ≡ some b
    → IsSource P session settings b
fallback-IsSource P session none bots b e = cc
fallback-IsSource P session (some s) bots b e = at s.fallback_id refl e
  where
    at :
        (o : Option Text)
        → s.fallback_id ≡ o
        → elim o [ none ↦ none | some id ↦ if is_empty id then none else find_row bot_id id bots ]
          ≡ some b
        → IsSource P session (some s) b
    at none f g = cc
    at (some []) f g = cc
    at (some (x ∷ id)) f g =
        of_fallback s refl (f ∙ ap some (sym (key-find bot_id (x ∷ id) bots g)))

react-chosen :
    (m : Incoming) (b : Bot) (s : Option IntegrationSession) (settings : Option Settings)
    (x : Option IntegrationSession) (r : Result (Option Bot)) (o : BotOptions) (n : ℕ)
    → react m settings x r ≡ process_bot b s o n
    → (r ≡ ok (some b))
      × ((resolve b.options settings ≡ ok o)
          × (IsAdmitted m x o × ((x ≡ s) × (seconds o.debounce_time ≡ n))))
unfolding react
react-chosen m b s settings x (err d) o n e = cc
react-chosen m b s settings x (ok none) o n e = cc
react-chosen m b s settings x (ok (some c)) o n e = at (resolve c.options settings) refl e
  where
    at :
        (r : Result BotOptions)
        → resolve c.options settings ≡ r
        → elim r [ err d ↦ failed | ok p ↦ admit m c x p ] ≡ process_bot b s o n
        → (ok (some c) ≡ ok (some b))
          × ((resolve b.options settings ≡ ok o)
              × (IsAdmitted m x o × ((x ≡ s) × (seconds o.debounce_time ≡ n))))
    at (err d) t f = cc
    at (ok p) t f =
        let (h, (same, (y, (q, k)))) = admit-IsAdmitted m c b x s p o n f in
        (
          ap (λ z. ok (some z)) same,
          (
            subst (λ z. resolve z.options settings ≡ ok o) same (t ∙ ap ok q),
            (subst (λ z. IsAdmitted m x z) q h, (y, ap (λ z. seconds z.debounce_time) (sym q) ∙ k)),
          ),
        )

trigger-IsSource :
    (nfd to_lower_case : Text → Text) (matches : Text → Text → Option Bool) (m : Incoming)
    (bots : List Bot) (session : Option IntegrationSession) (settings : Option Settings) (b : Bot)
    → (find_bot_trigger nfd to_lower_case matches bots m session >>= λ found.
        ok (or_fallback settings bots found))
      ≡ ok (some b)
    → IsSource (IsMatch nfd to_lower_case matches m.content m.instance_id) session settings b
unfolding find_bot_trigger
trigger-IsSource nfd to_lower_case matches m bots none settings b e =
    at (find_bot_by_trigger nfd to_lower_case matches bots m.content m.instance_id) refl e
  where
    at :
        (r : Result (Option Bot))
        → find_bot_by_trigger nfd to_lower_case matches bots m.content m.instance_id ≡ r
        → (r >>= λ found. ok (or_fallback settings bots found)) ≡ ok (some b)
        → IsSource (IsMatch nfd to_lower_case matches m.content m.instance_id) none settings b
    at (err d) t f = cc
    at (ok none) t f = fallback-IsSource _ none settings bots b (ok_eq f)
      where
        ok_eq : {x y : Option Bot} → ok x ≡ ok y → x ≡ y
        ok_eq h = cc
    at (ok (some c)) t f =
        let same : c ≡ b = cc in
        of_trigger refl (
          find_bot_by_trigger-IsMatch nfd to_lower_case matches bots m.content m.instance_id b
            (t ∙ ap (λ z. ok (some z)) same))
trigger-IsSource nfd to_lower_case matches m bots (some s) settings b e = at s.bot_id refl e
  where
    P : Bot → Type 0
    P = IsMatch nfd to_lower_case matches m.content m.instance_id

    ok_eq : {x y : Option Bot} → ok x ≡ ok y → x ≡ y
    ok_eq h = cc

    found :
        (id : Text) (x : Option Bot)
        → s.bot_id ≡ some id
        → find_row bot_id id bots ≡ x
        → or_fallback settings bots x ≡ some b
        → IsSource P (some s) settings b
    found id none i t f = fallback-IsSource P (some s) settings bots b f
    found id (some c) i t f =
        let same : c ≡ b = cc in
        of_session s refl (i ∙ ap some (sym (key-find bot_id id bots (t ∙ ap some same))))

    at :
        (o : Option Text)
        → s.bot_id ≡ o
        → (ok (elim o [ none ↦ none | some id ↦ find_row bot_id id bots ]) >>= λ x.
            ok (or_fallback settings bots x))
          ≡ ok (some b)
        → IsSource P (some s) settings b
    at none i f = fallback-IsSource P (some s) settings bots b (ok_eq f)
    at (some id) i f = found id (find_row bot_id id bots) i refl (ok_eq f)

module _ (nfd to_lower_case : Text → Text) (matches : Text → Text → Option Bool) where
  -- What is so when a message is handed to a bot.
  pub record IsReply (enabled : Bool) (m : Incoming) (store : Store) (b : Bot)
      (s : Option IntegrationSession) (o : BotOptions) (n : ℕ) : Type 0 where
    pub on : enabled ≡ true
    pub heard : check_ignore_jids (jids_of (settings_of m store.settings)) m.remote_jid ≡ false
    pub session : s ≡ get_session m store.sessions
    pub options : resolve b.options (settings_of m store.settings) ≡ ok o
    pub delay : n ≡ seconds o.debounce_time
    pub admitted : IsAdmitted m s o
    pub source :
        IsSource
          (IsMatch nfd to_lower_case matches m.content m.instance_id)
          s
          (settings_of m store.settings)
          b

  -- If a message is handed to a bot, the integration is on and does not ignore the contact, the bot is
  -- that of the contact's session, or one that fits the message as `IsMatch` says if there is no
  -- session, or the fallback; the session is not closed; and a message that the user has sent is one
  -- that the options let a bot hear and that stops no session.
  pub emit-IsReply :
      (enabled : Bool) (m : Incoming) (store : Store) (b : Bot) (s : Option IntegrationSession)
      (o : BotOptions) (n : ℕ)
      → emit nfd to_lower_case matches enabled m store ≡ process_bot b s o n
      → IsReply enabled m store b s o n
  unfolding emit
  emit-IsReply enabled m store b s o n e =
      elim (Bool-cases (not enabled || check_ignore_jids (jids_of settings) m.remote_jid)) [
        | inl t ↦ absurd (silent_ne_reply (rw t at e))
        | inr t ↦
            let (found, (chosen, (admitted, (same, delay)))) =
              react-chosen m b s settings session _ o n (rw t at e) in
            record {
              on = ground (arith, t);
              heard = ground (arith, t);
              session = sym same;
              options = chosen;
              delay = sym delay;
              admitted = subst (λ x. IsAdmitted m x o) same admitted;
              source =
                  subst
                    (λ x.
                      IsSource (IsMatch nfd to_lower_case matches m.content m.instance_id) x
                        settings b)
                    same
                    (trigger-IsSource nfd to_lower_case matches m store.bots session settings b
                      found);
            }
      ]
    where
      settings : Option Settings
      settings = settings_of m store.settings

      session : Option IntegrationSession
      session = get_session m store.sessions

      silent_ne_reply : silent ≢ process_bot b s o n
      silent_ne_reply h = cc
