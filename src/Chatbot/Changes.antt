-- ===== src/Chatbot/Changes.antt =====
-- What the calls of Chatbot/Registry leave: who is ignored, and which sessions and bots are gone.
use lydia_bg_back.Prelude.{
  some_eq, none_ne_some, ltb, All, sym, eq_iff, Text, List, [], ◌∷◌, Bool, true, false, not, ◌||◌,
  ◌≡◌, ◌≢◌, refl, ap, subst, ◌∙◌, Option, none, some, inl, inr, any, filter, find, contains,
  contains-push, lookup, ◌==◌, eq_refl, if◌then◌else◌, HttpError, ok, err, arith, Bool-cases,
  Option-cases,
}
use lydia_bg_back.Table.{find_row, has_row, update_row, has_row-delete_row}
use lydia_bg_back.Chatbot.State.{Bot, Settings, IntegrationSession, Store, bot_id}
use lydia_bg_back.Chatbot.Emit.{
  is_session_of, latest, with_bot, is_absent, get_session, Incoming, Reaction, silent,
  check_ignore_jids, jids_of, settings_of, emit,
}
use lydia_bg_back.Chatbot.Registry.{
  has_bot, cannot_report, settings_id, settings_in, set_jids, changed_jids, or_no_jids, ignore_in,
  ignore_jid, Change, Instances, delete, is_bot_session, change_in, change_status,
  is_session_of_bot, delete_bot_in, delete_bot,
}

any-filter-none :
    {A : Type 0} (p : A → Bool) (xs : List A) → any p (filter (λ a. not (p a)) xs) ≡ false
any-filter-none p [] = refl
any-filter-none p (x ∷ xs) = ground (arith, any-filter-none p xs)

-- If the deletion of a bot succeeds, neither the bot nor a session of it is left.
pub delete_bot-ok :
    (enabled : Bool) (instances : Instances) (name id : Text) (store : Store)
    → (delete_bot enabled instances name id store).0 ≡ ok tt
    → (has_row bot_id id (delete_bot enabled instances name id store).1.bots ≡ false)
      × (any (is_session_of_bot id) (delete_bot enabled instances name id store).1.sessions ≡ false)
unfolding delete_bot delete_bot_in
delete_bot-ok false instances name id store e = cc
delete_bot-ok true instances name id store e = elim (Option-cases (lookup name instances)) [
  | inl t ↦ rw (delete_bot, t) (at none (rw (delete_bot, t) at e))
  | inr (j, t) ↦ rw (delete_bot, t) (at (some j) (rw (delete_bot, t) at e))
]
  where
    Gone : Store → Type 0
    Gone w = (has_row bot_id id w.bots ≡ false) × (any (is_session_of_bot id) w.sessions ≡ false)

    found :
        (i : Text) (b : Option Bot)
        → (delete_bot_in i id b store).0 ≡ ok tt
        → Gone (delete_bot_in i id b store).1
    found i none h = cc
    found i (some b) h = elim (Bool-cases (not (b.instance_id == i))) [
      | inl t ↦ absurd (failed (rw t at h))
      | inr t ↦ rw t (
        has_row-delete_row bot_id id id store.bots ∙ ground (arith, eq_refl id),
        any-filter-none (is_session_of_bot id) store.sessions,
      )
    ]
      where
        failed : err HttpError.internal ≢ ok tt
        failed q = cc

    after : Option Text → Change
    after none = (err HttpError.internal, store)
    after (some j) = delete_bot_in j id (find_row bot_id id store.bots) store

    at : (i : Option Text) → (after i).0 ≡ ok tt → Gone (after i).1
    at none h = cc
    at (some j) h = found j (find_row bot_id id store.bots) h

-- Whichever row is the latest, it is one of the rows.
latest-All :
    (P : IntegrationSession → Type 0) (ss : List IntegrationSession) {s : IntegrationSession}
    → All P ss
    → latest ss ≡ some s
    → P s
unfolding latest
latest-All P [] h e = absurd (none_ne_some e)
latest-All P (x ∷ ss) {s} h e = elim (Option-cases (latest ss)) [
  | inl t ↦ subst P (some_eq (rw t at e)) h.0
  | inr (y, t) ↦ elim (Bool-cases (ltb x.created_at y.created_at)) [
    | inl u ↦ subst P (some_eq (rw (t, u) at e)) (latest-All P ss h.1 t)
    | inr u ↦ subst P (some_eq (rw (t, u) at e)) h.0
  ]
]

-- No session of a message's contact that is left has a bot.
left_over :
    (m : Incoming) (jid : Text) (ss : List IntegrationSession)
    → m.remote_jid ≡ jid
    → All
        (λ s. has_bot s.bot_id ≡ false)
        (filter (is_session_of m) (filter (λ s. not (is_bot_session jid s)) ss))
left_over m jid [] h = tt
left_over m jid (s ∷ ss) h = elim (Bool-cases (is_bot_session jid s)) [
  | inl t ↦ rw t (left_over m jid ss h)
  | inr t ↦ rw t (elim (Bool-cases (is_session_of m s)) [
    | inl u ↦ rw u (botless t u, left_over m jid ss h)
    | inr u ↦ rw u (left_over m jid ss h)
  ])
]
  where
    botless : is_bot_session jid s ≡ false → is_session_of m s ≡ true → has_bot s.bot_id ≡ false
    botless t u =
        let own : s.remote_jid ≡ m.remote_jid =
          (eq_iff s.remote_jid m.remote_jid).0 (ground (arith, u)) in
        let same : (s.remote_jid == jid) ≡ true = (eq_iff s.remote_jid jid).1 (own ∙ h) in
        ground (arith, t, same)

-- The sessions of another contact are those that there were.
kept_sessions :
    (m : Incoming) (jid : Text) (ss : List IntegrationSession)
    → m.remote_jid ≢ jid
    → filter (is_session_of m) (filter (λ s. not (is_bot_session jid s)) ss)
      ≡ filter (is_session_of m) ss
kept_sessions m jid [] n = refl
kept_sessions m jid (s ∷ ss) n = elim (Bool-cases (is_session_of m s)) [
  | inl u ↦ rw (stays u) (rw u (ap (λ ys. s ∷ ys) (kept_sessions m jid ss n)))
  | inr u ↦ elim (Bool-cases (is_bot_session jid s)) [
    | inl t ↦ rw (t, u) (kept_sessions m jid ss n)
    | inr t ↦ rw (t, u) (kept_sessions m jid ss n)
  ]
]
  where
    stays : is_session_of m s ≡ true → is_bot_session jid s ≡ false
    stays u =
        let own : s.remote_jid ≡ m.remote_jid =
          (eq_iff s.remote_jid m.remote_jid).0 (ground (arith, u)) in
        elim (Bool-cases (s.remote_jid == jid)) [
          | inl t ↦ absurd (n (sym own ∙ (eq_iff s.remote_jid jid).0 t))
          | inr t ↦ ground (arith, t)
        ]

-- If the integration is on, the instance exists and, for Typebot, is loaded, the change to `delete`
-- succeeds. A message of that contact then finds no session, in whichever instance, and a message of
-- any other contact the session that it would have found before.
pub change_status-delete :
    (typebot : Bool) (loaded : List Text) (instances : Instances) (name jid i : Text)
    (store : Store)
    → lookup name instances ≡ some i
    → cannot_report typebot loaded name ≡ false
    → ((change_status true typebot loaded instances name jid delete store).0 ≡ ok tt)
      × (((m : Incoming)
            → m.remote_jid ≡ jid
            → get_session m
                (change_status true typebot loaded instances name jid delete store).1.sessions
              ≡ none)
          × ((m : Incoming)
              → m.remote_jid ≢ jid
              → get_session m
                  (change_status true typebot loaded instances name jid delete store).1.sessions
                ≡ get_session m store.sessions))
unfolding change_status change_in get_session
change_status-delete typebot loaded instances name jid i store e r =
    rw (change_status, e)
      (rw r (
        refl,
        (no_session, λ m n. ap (λ ss. with_bot (latest ss)) (kept_sessions m jid store.sessions n)),
      ))
  where
    rest : List IntegrationSession
    rest = filter (λ s. not (is_bot_session jid s)) store.sessions

    found :
        (m : Incoming) (o : Option IntegrationSession)
        → m.remote_jid ≡ jid
        → latest (filter (is_session_of m) rest) ≡ o
        → with_bot o ≡ none
    found m none h t = refl
    found m (some s) h t = no_bot s (
        latest-All (λ z. has_bot z.bot_id ≡ false) (filter (is_session_of m) rest)
          (left_over m jid store.sessions h) t)
      where
        no_bot : (z : IntegrationSession) → has_bot z.bot_id ≡ false → with_bot (some z) ≡ none
        no_bot z b = absent z.bot_id b
          where
            absent :
                (o : Option Text)
                → has_bot o ≡ false
                → (if is_absent o then none else some z) ≡ none
            absent none q = refl
            absent (some x) q = cc

    no_session : (m : Incoming) → m.remote_jid ≡ jid → get_session m rest ≡ none
    no_session m h = found m (latest (filter (is_session_of m) rest)) h refl

find-update_row_first :
    (p : Settings → Bool) (f : Settings → Settings) (rows : List Settings) {s : Settings}
    → ((a : Settings) → p (f a) ≡ p a)
    → find p rows ≡ some s
    → find p (update_row settings_id s.id f rows) ≡ some (f s)
unfolding update_row
find-update_row_first p f [] w e = cc
find-update_row_first p f (a ∷ rows) {s} w e = elim (Bool-cases (p a)) [
  | inl t ↦
      let same : a ≡ s = ground (arith, t, e) in
      subst (λ z. find p (update_row settings_id z.id f (a ∷ rows)) ≡ some (f z)) same
        (rw (eq_refl a.id) (rw (w a, t) refl))
  | inr t ↦ elim (Bool-cases (a.id == s.id)) [
    | inl u ↦ rw u (rw (w a, t) (find-update_row_first p f rows w (rw t at e)))
    | inr u ↦ rw u (rw t (find-update_row_first p f rows w (rw t at e)))
  ]
]

contains-changed :
    (jid : Text) (jids : List Text) → contains jid (changed_jids true jid jids) ≡ true
contains-changed jid jids = elim (Bool-cases (contains jid jids)) [
  | inl t ↦ rw t t
  | inr t ↦ rw t (contains-push jid jids jid ∙ ground (arith, eq_refl jid))
]

-- After a contact has been added to the ignored ones of an instance, the integration is silent at every
-- message of that contact to that instance.
pub ignore_jid-emit :
    (nfd to_lower_case : Text → Text) (matches : Text → Text → Option Bool) (enabled : Bool)
    (instances : Instances) (name : Text) (m : Incoming) (store : Store)
    → lookup name instances ≡ some m.instance_id
    → (ignore_jid true instances name true m.remote_jid store).0 ≡ ok tt
    → emit nfd to_lower_case matches enabled m
        (ignore_jid true instances name true m.remote_jid store).1
      ≡ silent
unfolding ignore_jid ignore_in emit check_ignore_jids
ignore_jid-emit nfd to_lower_case matches enabled instances name m store i e =
    rw (ignore_jid, i) (ignored (settings_in m.instance_id store) refl (rw (ignore_jid, i) at e))
  where
    hears_not :
        (j : Text) (js : List Text) → check_ignore_jids (some (changed_jids true j js)) j ≡ true
    hears_not j js = ground (arith, contains-changed j js)

    silenced :
        (c on : Bool) (r : Reaction) → c ≡ true → (if not on || c then silent else r) ≡ silent
    silenced c on r h = ground (arith, h)

    ignored :
        (o : Option Settings)
        → settings_in m.instance_id store ≡ o
        → (ignore_in true m.remote_jid o store).0 ≡ ok tt
        → emit nfd to_lower_case matches enabled m (ignore_in true m.remote_jid o store).1 ≡ silent
    ignored none t h = cc
    ignored (some s) t h =
        let jids = changed_jids true m.remote_jid (or_no_jids s.options.ignore_jids) in
        let found =
          find-update_row_first (λ a. a.instance_id == m.instance_id) (set_jids jids) store.settings
            (λ a. refl) t in
        silenced
          (check_ignore_jids
            (jids_of (settings_of m (update_row settings_id s.id (set_jids jids) store.settings)))
            m.remote_jid)
          enabled _
          (ap (λ o. check_ignore_jids (jids_of o) m.remote_jid) found
            ∙ hears_not m.remote_jid (or_no_jids s.options.ignore_jids))
