-- ===== src/Chatbot/Sessions.antt =====
-- The sessions of contacts across `process` and the next `emit`.
use lydia_bg_back.Prelude.{
  some_eq, none_ne_some, ℕ, ltb, Text, List, [], ◌∷◌, Bool, true, false, ◌&&◌, ◌≡◌, ◌≢◌, refl, ap,
  sym, subst, ◌∙◌, Option, none, some, inl, inr, filter, ◌==◌, eq_refl, if◌then◌else◌, Bool-cases,
}
use lydia_bg_back.Table.{update_row}
use lydia_bg_back.Chatbot.State.{
  opened, closed, paused, SessionStatus, BotOptions, Bot, IntegrationSession, session_id,
}
use lydia_bg_back.Chatbot.Emit.{
  Incoming, is_session_of, latest, with_bot, is_absent, get_session, is_closed, process_bot, emit,
}
use lydia_bg_back.Chatbot.Replies.{emit-IsReply}
use lydia_bg_back.Chatbot.Process.{Service, close, change_session, is_finish, process_session}

-- A change of the row with a key, on one row.
abbrev at_key :
    Text → (IntegrationSession → IntegrationSession) → IntegrationSession → IntegrationSession
at_key k f s = if s.id == k then f s else s

abbrev at_key_option :
    Text
    → (IntegrationSession → IntegrationSession)
    → Option IntegrationSession
    → Option IntegrationSession
at_key_option k f none = none
at_key_option k f (some s) = some (at_key k f s)

module _ (k : Text) (f : IntegrationSession → IntegrationSession)
    (same_time : (s : IntegrationSession) → (f s).created_at ≡ s.created_at)
    (same_bot : (s : IntegrationSession) → (f s).bot_id ≡ s.bot_id) where
  at_key-created_at : (s : IntegrationSession) → (at_key k f s).created_at ≡ s.created_at
  at_key-created_at s = elim (Bool-cases (s.id == k)) [
    | inl t ↦ rw t (same_time s)
    | inr t ↦ rw t refl
  ]

  at_key-bot_id : (s : IntegrationSession) → (at_key k f s).bot_id ≡ s.bot_id
  at_key-bot_id s = elim (Bool-cases (s.id == k)) [ inl t ↦ rw t (same_bot s) | inr t ↦ rw t refl ]

  latest-update_row :
      (ss : List IntegrationSession)
      → latest (update_row session_id k f ss) ≡ at_key_option k f (latest ss)
  unfolding latest update_row
  latest-update_row [] = refl
  latest-update_row (s ∷ ss) = ap newer (latest-update_row ss) ∙ at (latest ss)
    where
      newer : Option IntegrationSession → Option IntegrationSession
      newer o = elim o [
        | none ↦ some (at_key k f s)
        | some t ↦
            if ltb (at_key k f s).created_at t.created_at then some t else some (at_key k f s)
      ]

      at :
          (o : Option IntegrationSession)
          → newer (at_key_option k f o)
            ≡ at_key_option k f (elim o [
              | none ↦ some s
              | some t ↦ if ltb s.created_at t.created_at then some t else some s
            ])
      at none = refl
      at (some t) =
          rw (at_key-created_at s, at_key-created_at t)
            (elim (Bool-cases (ltb s.created_at t.created_at)) [
              | inl u ↦ rw u refl
              | inr u ↦ rw u refl
            ])

  filter-update_row :
      (p : IntegrationSession → Bool) (ss : List IntegrationSession)
      → ((s : IntegrationSession) → p (f s) ≡ p s)
      → filter p (update_row session_id k f ss) ≡ update_row session_id k f (filter p ss)
  unfolding update_row
  filter-update_row p [] w = refl
  filter-update_row p (s ∷ ss) w = elim (Bool-cases (s.id == k)) [
    | inl t ↦ elim (Bool-cases (p s)) [
      | inl u ↦ rw (t, w s, u) (rw t (ap (λ r. f s ∷ r) (filter-update_row p ss w)))
      | inr u ↦ rw (t, w s, u) (filter-update_row p ss w)
    ]
    | inr t ↦ elim (Bool-cases (p s)) [
      | inl u ↦ rw (t, u) (rw t (ap (λ r. s ∷ r) (filter-update_row p ss w)))
      | inr u ↦ rw (t, u) (filter-update_row p ss w)
    ]
  ]

with_bot-some :
    (o : Option IntegrationSession) {s : IntegrationSession}
    → with_bot o ≡ some s
    → (o ≡ some s) × (is_absent s.bot_id ≡ false)
with_bot-some none e = cc
with_bot-some (some t) {s} e = elim (Bool-cases (is_absent t.bot_id)) [
  | inl u ↦ absurd (none_ne_some (rw u at e))
  | inr u ↦
      let same : t ≡ s = some_eq (rw u at e) in
      (ap some same, subst (λ z. is_absent z.bot_id ≡ false) same u)
]

get_session-update_row :
    (m : Incoming) (f : IntegrationSession → IntegrationSession) (ss : List IntegrationSession)
    (s : IntegrationSession)
    → ((a : IntegrationSession) → (f a).created_at ≡ a.created_at)
    → ((a : IntegrationSession) → (f a).bot_id ≡ a.bot_id)
    → ((a : IntegrationSession) → is_session_of m (f a) ≡ is_session_of m a)
    → get_session m ss ≡ some s
    → get_session m (update_row session_id s.id f ss) ≡ some (f s)
unfolding get_session
get_session-update_row m f ss s time bot own e =
    let (found, has) = with_bot-some (latest (filter (is_session_of m) ss)) e in
    ap (λ r. with_bot (latest r)) (filter-update_row s.id f time bot (is_session_of m) ss own)
    ∙ (ap with_bot (
          latest-update_row s.id f time bot (filter (is_session_of m) ss)
          ∙ ap (at_key_option s.id f) found)
        ∙ rw (eq_refl s.id) (rw (bot s, has) refl))

module _ (to_lower_case : Text → Text) (answers : Text → Text → Bool) where
  closes :
      (s : IntegrationSession) (o : BotOptions) (content : Text) (w : Service)
      → s.status ≢ paused
      → is_finish to_lower_case o content ≡ true
      → process_session to_lower_case answers s o content w
        ≡ record w { store = change_session s.id close w.store }
  unfolding process_session
  closes s o content w n h = at s.status refl
    where
      at :
          (x : SessionStatus)
          → s.status ≡ x
          → process_session to_lower_case answers s o content w
            ≡ record w { store = change_session s.id close w.store }
      at opened e = rw (process_session, e) (rw h refl)
      at closed e = rw (process_session, e) (rw h refl)
      at paused e = absurd (n e)

  module _ (nfd : Text → Text) (matches : Text → Text → Option Bool) where
    -- If the session of a message's contact is not paused and the message is the keyword that ends a
    -- conversation, then no bot is started afterwards by any message of that contact to that instance.
    pub process_session-closes :
        (enabled : Bool) (m n : Incoming) (content : Text) (s : IntegrationSession) (o : BotOptions)
        (w : Service) (b : Bot) (t : Option IntegrationSession) (p : BotOptions) (d : ℕ)
        → get_session m w.store.sessions ≡ some s
        → s.status ≢ paused
        → is_finish to_lower_case o content ≡ true
        → n.remote_jid ≡ m.remote_jid
        → n.instance_id ≡ m.instance_id
        → emit nfd to_lower_case matches enabled n
            (process_session to_lower_case answers s o content w).store
          ≢ process_bot b t p d
    unfolding get_session
    process_session-closes enabled m n content s o w b t p d found alive finish jid inst e =
        let w2 = process_session to_lower_case answers s o content w in
        let reply = emit-IsReply nfd to_lower_case matches enabled n w2.store b t p d e in
        let now : get_session n w2.store.sessions ≡ some (close s) =
          ap (λ z. get_session n z.store.sessions) (closes s o content w alive finish)
          ∙ (same_contact (update_row session_id s.id close w.store.sessions)
              ∙ get_session-update_row m close w.store.sessions s (λ a. refl) (λ a. refl)
                  (λ a. refl) found) in
        true_ne_false (ap is_closed (sym (reply.session ∙ now)) ∙ reply.admitted.awake)
      where
        true_ne_false : true ≢ false
        true_ne_false h = cc

        same_contact : (ss : List IntegrationSession) → get_session n ss ≡ get_session m ss
        same_contact ss = λ k.
            with_bot (latest (filter (λ a. a.remote_jid == jid k && a.instance_id == inst k) ss))
