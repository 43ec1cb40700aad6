-- ===== src/Event/Sent.antt =====
-- Where `emit` of the webhook sends an event, and what it keeps to.
use lydia_bg_back.Prelude.{
  ok, err, internal, some_eq, none_ne_some, ℕ, Text, codes, List, [], ◌∷◌, ◌++◌, true, false, ◌≡◌,
  ◌≢◌, refl, ap, sym, ◌∙◌, Option, none, some, inl, inr, lookup, push, contains, ◌==◌, All, All-map,
  arith, Bool-cases, Option-cases,
}
use mathlib.Core.List.{append-nil}
use lydia_bg_back.Event.Settings.{LocalEvent, EventDto, WaInstances, stored_events, set, get}
use lydia_bg_back.Event.Stored.{get-set, get-set_refused, new_row, new_row-enabled, new_row-headers}
use lydia_bg_back.Event.Retry.{
  Answer, Endpoint, local_url, Post, Step, posts, pauses, attempts_of, retry_from,
  retry_webhook_request,
}
use lydia_bg_back.Event.Attempts.{retry_from-All, retry_from-append}
use lydia_bg_back.Event.Webhook.{
  WebhookConf, EmitData, Emission, excludes_webhook, is_http, headers_of, without_key, with_token,
  webhook_headers, event_name, is_local, local_post, send_local, is_global, global_address,
  global_post, send_global, emit,
}

false_ne_true : false ≢ true
false_ne_true h = cc

abbrev pub endpoint_of : Step → Endpoint
endpoint_of (posts p) = p.endpoint
endpoint_of (pauses e n) = e

lookup-without_key : (k : Text) (hs : List (Text × Text)) → lookup k (without_key k hs) ≡ none
unfolding lookup
lookup-without_key k [] = refl
lookup-without_key k ((j, v) ∷ hs) = elim (Bool-cases (j == k)) [
  | inl t ↦ rw t (lookup-without_key k hs)
  | inr t ↦ rw t (rw t (lookup-without_key k hs))
]

lookup-push :
    (k : Text) (hs : List (Text × Text)) (j v : Text)
    → lookup k hs ≡ none
    → (j == k) ≡ false
    → lookup k (push hs (j, v)) ≡ none
unfolding lookup push
lookup-push k [] j v h n = rw n refl
lookup-push k ((i, w) ∷ hs) j v h n = elim (Bool-cases (i == k)) [
  | inl t ↦ absurd (none_ne_some (sym (rw t at h)))
  | inr t ↦ rw t (lookup-push k hs j v (rw t at h) n)
]

-- No header that is sent is the key that signs tokens.
key-webhook_headers :
    (sign : Text → Option Text) (hs sent : List (Text × Text))
    → webhook_headers sign hs ≡ some sent
    → lookup (codes "jwt_key") sent ≡ none
unfolding ◌==◌
key-webhook_headers sign hs sent e = elim (Option-cases (lookup (codes "jwt_key") hs)) [
  | inl t ↦ ap (lookup (codes "jwt_key")) (sym (some_eq (rw (webhook_headers, t) at e))) ∙ t
  | inr (key, t) ↦ signed (sign key) (rw (webhook_headers, t) at e)
]
  where
    signed :
        (o : Option Text) → with_token sign hs o ≡ some sent → lookup (codes "jwt_key") sent ≡ none
    signed none h = absurd (none_ne_some h)
    signed (some token) h =
        ap (lookup (codes "jwt_key")) (sym (some_eq h))
        ∙ lookup-push (codes "jwt_key")
            (without_key (codes "jwt_key") (without_key (codes "Authorization") hs))
            (codes "Authorization") (codes "Bearer " ++ token)
            (lookup-without_key (codes "jwt_key") (without_key (codes "Authorization") hs)) refl

module _ (to_upper_case to_lower_case : Text → Text) (c : WebhookConf) (d : EmitData) where
  -- The webhook of an instance is on, for an event that it lists, and to an HTTP address.
  pub record IsWanted (e : LocalEvent) : Type 0 where
    pub asked : d.local ≡ true
    pub enabled : e.enabled ≡ true
    pub listed : contains (event_name to_upper_case to_lower_case d.event) e.events ≡ true
    pub web : is_http e.url ≡ true

  -- The same of the webhook of the server.
  pub record IsWantedGlobally : Type 0 where
    pub enabled : c.global_enabled ≡ true
    pub listed : c.events (event_name to_upper_case to_lower_case d.event) ≡ true
    pub web : is_http (global_address to_upper_case to_lower_case c d) ≡ true

  -- Where a request may go, and that no header of it is the key that signs tokens.
  abbrev pub IsWantedAt : Option LocalEvent → Endpoint → Type 0
  IsWantedAt o local_url = (e : LocalEvent) × ((o ≡ some e) × IsWanted e)
  IsWantedAt o Endpoint.global_url = IsWantedGlobally

  abbrev pub IsAllowed : Option LocalEvent → Step → Type 0
  IsAllowed o (posts p) = IsWantedAt o p.endpoint × (lookup (codes "jwt_key") p.headers ≡ none)
  IsAllowed o (pauses e n) = IsWantedAt o e

  is_local-IsWanted :
      (e : LocalEvent) → is_local to_upper_case to_lower_case c d e ≡ true → IsWanted e
  is_local-IsWanted e h = record {
    asked = ground (arith, h);
    enabled = ground (arith, h);
    listed = ground (arith, h);
    web = ground (arith, h);
  }

  is_global-IsWantedGlobally : is_global to_upper_case to_lower_case c d ≡ true → IsWantedGlobally
  is_global-IsWantedGlobally h = record {
    enabled = ground (arith, h);
    listed = ground (arith, h);
    web = ground (arith, h);
  }

  module _ (shaken : ℕ → ℕ → ℕ) (answers : Endpoint → ℕ → Answer) where
    send_local-IsAllowed :
        (o : Option LocalEvent) (hs : List (Text × Text))
        → lookup (codes "jwt_key") hs ≡ none
        → All (IsAllowed o) (send_local to_upper_case to_lower_case c d shaken answers o hs)
    unfolding send_local retry_webhook_request
    send_local-IsAllowed none hs h = tt
    send_local-IsAllowed (some e) hs h =
        elim (Bool-cases (is_local to_upper_case to_lower_case c d e)) [
          | inl t ↦
              let wanted : IsWantedAt (some e) local_url = (e, (refl, is_local-IsWanted e t)) in
              rw t (
                retry_from-All c.retry shaken (answers local_url)
                  (local_post to_upper_case to_lower_case c d e hs) (IsAllowed (some e)) (wanted, h)
                  (λ n. wanted) (attempts_of c.retry) 0 [] tt)
          | inr t ↦ rw t tt
        ]

    send_global-IsAllowed :
        (o : Option LocalEvent) (steps : List Step)
        → All (IsAllowed o) steps
        → All (IsAllowed o) (send_global to_upper_case to_lower_case c d shaken answers o steps)
    unfolding send_global retry_webhook_request lookup
    send_global-IsAllowed o steps h =
        elim (Bool-cases (is_global to_upper_case to_lower_case c d)) [
          | inl t ↦
              let wanted = is_global-IsWantedGlobally t in
              rw t (
                retry_from-All c.retry shaken (answers Endpoint.global_url)
                  (global_post to_upper_case to_lower_case c d o) (IsAllowed o) (wanted, refl)
                  (λ n. wanted) (attempts_of c.retry) 0 steps h)
          | inr t ↦ rw t h
        ]

    -- Whatever the servers answer: every request and pause of `emit` is for the instance's webhook, which
    -- is on, lists the event and has an HTTP address, or for the server's, of which the same holds; and no
    -- header of a request is the key that signs tokens.
    pub emit-IsAllowed :
        (sign : Text → Option Text) (o : Option LocalEvent)
        → All (IsAllowed o) (emit to_upper_case to_lower_case c d shaken answers sign o).steps
    unfolding emit
    emit-IsAllowed sign o = elim (Bool-cases (excludes_webhook d.integration)) [
      | inl t ↦ rw (emit, t) tt
      | inr t ↦ elim (Option-cases (webhook_headers sign (headers_of o))) [
        | inl u ↦ rw (emit, t) (rw u tt)
        | inr (hs, u) ↦
            rw (emit, t)
              (rw u (
                send_global-IsAllowed o
                  (send_local to_upper_case to_lower_case c d shaken answers o hs)
                  (send_local-IsAllowed o hs (key-webhook_headers sign (headers_of o) hs u))))
      ]
    ]

    -- What is sent to the server's webhook does not depend on how the instance's one answers: if a token
    -- can be made where one is due, it follows the instance's part as it would follow nothing.
    pub emit-append :
        (sign : Text → Option Text) (o : Option LocalEvent) (hs : List (Text × Text))
        (others : Endpoint → ℕ → Answer)
        → excludes_webhook d.integration ≡ false
        → webhook_headers sign (headers_of o) ≡ some hs
        → others Endpoint.global_url ≡ answers Endpoint.global_url
        → (emit to_upper_case to_lower_case c d shaken answers sign o).steps
          ≡ send_local to_upper_case to_lower_case c d shaken answers o hs
            ++ send_global to_upper_case to_lower_case c d shaken others o []
    unfolding emit send_global retry_webhook_request
    emit-append sign o hs others t u same =
        rw (emit, t)
          (rw u (elim (Bool-cases (is_global to_upper_case to_lower_case c d)) [
            | inl v ↦ rw v (
                ap after (sym (append-nil sent))
                ∙ (retry_from-append c.retry shaken (answers Endpoint.global_url) post
                      (attempts_of c.retry) 0 sent []
                    ∙ ap
                        (λ f.
                          sent
                          ++ (retry_from c.retry shaken f post (attempts_of c.retry) 0 []).steps)
                        (sym same)))
            | inr v ↦ rw v (sym (append-nil sent))
          ]))
      where
        sent : List Step
        sent = send_local to_upper_case to_lower_case c d shaken answers o hs

        post : Post
        post = global_post to_upper_case to_lower_case c d o

        after : List Step → List Step
        after xs =
            (retry_from c.retry shaken (answers Endpoint.global_url) post (attempts_of c.retry) 0
              xs).steps

    module _ (sign : Text → Option Text) (instances : WaInstances) (name id : Text)
        (body : EventDto) (rows : List LocalEvent) where
      emitted : Emission
      emitted =
          emit to_upper_case to_lower_case c d shaken answers sign
            (get true instances name (set true instances name body rows).1)

      -- A row that is there after the request is the one that the request makes.
      stored_off :
          (w : LocalEvent)
          → lookup name instances ≡ some id
          → body.enabled ≡ some false
          → get true instances name (set true instances name body rows).1 ≡ some w
          → new_row id body [] (get true instances name rows) ≡ some w
      stored_off w e f g =
          let events = ap (λ b. stored_events b body.events) f in
          elim (Option-cases (new_row id body [] (get true instances name rows))) [
            | inl t ↦
                let kept = get-set_refused instances name id body [] rows e events t in
                absurd (
                  missing (get true instances name rows) t
                    (ap (λ z. get true instances name z.1) (sym kept) ∙ g))
            | inr (r, t) ↦ t ∙ (sym (get-set instances name id body [] rows r e events t).1.0 ∙ g)
          ]
        where
          missing : (o : Option LocalEvent) → new_row id body [] o ≡ none → o ≢ some w
          missing none h k = none_ne_some k
          missing (some old) h k = none_ne_some (sym h)

      -- After the webhook of a loaded instance has been turned off, nothing is sent to it.
      pub set-emit_off :
          lookup name instances ≡ some id
          → body.enabled ≡ some false
          → All
              (λ s. endpoint_of s ≡ Endpoint.global_url)
              (emit to_upper_case to_lower_case c d shaken answers sign
                (get true instances name (set true instances name body rows).1)).steps
      unfolding emitted
      set-emit_off e f =
          All-map (IsAllowed (get true instances name (set true instances name body rows).1))
            (λ s. endpoint_of s ≡ Endpoint.global_url) to_global emitted.steps
            (emit-IsAllowed sign (get true instances name (set true instances name body rows).1))
        where
          at_global :
              (p : Endpoint)
              → IsWantedAt (get true instances name (set true instances name body rows).1) p
              → p ≡ Endpoint.global_url
          at_global Endpoint.global_url h = refl
          at_global local_url (w, (h, wanted)) = absurd (
              false_ne_true (
                sym (
                  new_row-enabled id body [] (get true instances name rows) w false f
                    (stored_off w e f h))
                ∙ wanted.enabled))

          to_global :
              (s : Step)
              → IsAllowed (get true instances name (set true instances name body rows).1) s
              → endpoint_of s ≡ Endpoint.global_url
          to_global (posts p) h = at_global p.endpoint h.0
          to_global (pauses p n) h = at_global p h

      -- If the webhook of a loaded instance is stored, turned off, with a key that cannot sign, then an
      -- event of that instance is not sent to the server's webhook either, and `emit` throws.
      pub set-emit_unsigned :
          (hs : List (Text × Text)) (key : Text)
          → lookup name instances ≡ some id
          → body.enabled ≡ some false
          → (set true instances name body rows).0 ≡ ok tt
          → body.headers ≡ some hs
          → lookup (codes "jwt_key") hs ≡ some key
          → sign key ≡ none
          → excludes_webhook d.integration ≡ false
          → emit to_upper_case to_lower_case c d shaken answers sign
              (get true instances name (set true instances name body rows).1)
            ≡ record { steps = []; thrown = true }
      unfolding emit
      set-emit_unsigned hs key e f done headers g h x =
          let events = ap (λ b. stored_events b body.events) f in
          elim (Option-cases (new_row id body [] (get true instances name rows))) [
            | inl t ↦ absurd (
                failed (
                  ap (λ z. z.0) (sym (get-set_refused instances name id body [] rows e events t))
                  ∙ done))
            | inr (r, t) ↦
                let same =
                  new_row-headers id body [] (get true instances name rows) r hs headers t in
                ap (emit to_upper_case to_lower_case c d shaken answers sign)
                  (get-set instances name id body [] rows r e events t).1.0
                ∙ rw (emit, x) (rw same (rw (webhook_headers, g) (rw h refl)))
          ]
        where
          failed : err internal ≢ ok tt
          failed q = cc
