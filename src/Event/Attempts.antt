-- ===== src/Event/Attempts.antt =====
-- What the attempts of a delivery come to.
use lydia_bg_back.Prelude.{
  ℕ, zero, suc, ◌+◌, ◌≤◌, ◌<◌, List, [], ◌∷◌, ◌++◌, false, ◌≡◌, ◌≢◌, ◌↔◌, ◌⊎◌, refl, ap, sym, ◌∙◌,
  Option, inl, inr, nat_eq, nat_eq_iff, push, All, All-push, arith, Bool-cases,
}
use mathlib.Core.List.{append_assoc}
use lydia_bg_back.Event.Retry.{
  RetryConf, attempts_of, initial_delay_of, is_exponential, Answer, taken, fails, Endpoint, Post,
  Step, posts, pauses, delivered, refused, is_final, next_delay, retry_from, retry_webhook_request,
}

Answer-cases : (a : Answer) → (a ≡ taken) ⊎ ((s : Option ℕ) × (a ≡ fails s))
Answer-cases taken = inl refl
Answer-cases (fails s) = inr (s, refl)

-- A failure after which the code tries again.
abbrev pub IsRetryable : RetryConf → Answer → Type 0
IsRetryable c taken = ⊥
IsRetryable c (fails s) = is_final c s ≡ false

abbrev pub attempts_in : List Step → ℕ
attempts_in [] = 0
attempts_in (posts p ∷ steps) = suc (attempts_in steps)
attempts_in (pauses e n ∷ steps) = attempts_in steps

abbrev pub IsPatient : RetryConf → Step → Type 0
IsPatient c (posts p) = Unit
IsPatient c (pauses e n) = initial_delay_of c ≤ n

attempts_in-push_posts :
    (steps : List Step) (p : Post) → attempts_in (push steps (posts p)) ≡ suc (attempts_in steps)
unfolding push
attempts_in-push_posts [] p = refl
attempts_in-push_posts (posts q ∷ steps) p = ap suc (attempts_in-push_posts steps p)
attempts_in-push_posts (pauses e n ∷ steps) p = attempts_in-push_posts steps p

attempts_in-push_pauses :
    (steps : List Step) (e : Endpoint) (n : ℕ)
    → attempts_in (push steps (pauses e n)) ≡ attempts_in steps
unfolding push
attempts_in-push_pauses [] e n = refl
attempts_in-push_pauses (posts q ∷ steps) e n = ap suc (attempts_in-push_pauses steps e n)
attempts_in-push_pauses (pauses f m ∷ steps) e n = attempts_in-push_pauses steps e n

module _ (c : RetryConf) (shaken : ℕ → ℕ → ℕ) where
  next_delay-initial : (n : ℕ) → initial_delay_of c ≤ next_delay c shaken n
  next_delay-initial n = elim (Bool-cases (is_exponential c)) [
    | inl t ↦ rw t (omega arith)
    | inr t ↦ rw t (omega arith)
  ]

  module _ (answers : ℕ → Answer) (p : Post) where
    -- A property of the requests and pauses is one of all steps.
    pub retry_from-All :
        (P : Step → Type 0)
        → P (posts p)
        → ((n : ℕ) → P (pauses p.endpoint (next_delay c shaken n)))
        → (n a : ℕ) (steps : List Step) → All P steps
        → All P (retry_from c shaken answers p n a steps).steps
    unfolding retry_from
    retry_from-All P q w zero a steps h = h
    retry_from-All P q w (suc n) a steps h =
        let sent = All-push P steps (posts p) h q in
        elim (Answer-cases (answers a)) [
          | inl t ↦ rw (retry_from, t) sent
          | inr (s, t) ↦ elim (Bool-cases (is_final c s)) [
            | inl u ↦ rw (retry_from, t) (rw u sent)
            | inr u ↦ elim (Bool-cases (nat_eq (suc a) (attempts_of c))) [
              | inl v ↦ rw (retry_from, t) (rw (u, v) sent)
              | inr v ↦
                  rw (retry_from, t)
                    (rw (u, v)
                      (retry_from-All P q w n (suc a)
                        (push (push steps (posts p)) (pauses p.endpoint (next_delay c shaken a)))
                        (All-push P (push steps (posts p))
                          (pauses p.endpoint (next_delay c shaken a)) sent (w a))))
            ]
          ]
        ]

    attempts_in-retry_from :
        (n a : ℕ) (steps : List Step)
        → attempts_in (retry_from c shaken answers p n a steps).steps ≤ n + attempts_in steps
    unfolding retry_from
    attempts_in-retry_from zero a steps = omega arith
    attempts_in-retry_from (suc n) a steps =
        let sent = attempts_in-push_posts steps p in
        elim (Answer-cases (answers a)) [
          | inl t ↦ rw (retry_from, t) (omega (arith, sent))
          | inr (s, t) ↦ elim (Bool-cases (is_final c s)) [
            | inl u ↦ rw (retry_from, t) (rw u (omega (arith, sent)))
            | inr u ↦ elim (Bool-cases (nat_eq (suc a) (attempts_of c))) [
              | inl v ↦ rw (retry_from, t) (rw (u, v) (omega (arith, sent)))
              | inr v ↦
                  rw (retry_from, t)
                    (rw (u, v)
                      (omega (
                        arith,
                        sent,
                        attempts_in-push_pauses (push steps (posts p)) p.endpoint
                            (next_delay c shaken a),
                        attempts_in-retry_from n (suc a) (
                            push (push steps (posts p))
                              (pauses p.endpoint (next_delay c shaken a))),
                      )))
            ]
          ]
        ]

    -- No delivery makes more requests than the attempts allowed, and none pauses for less than the
    -- initial delay.
    pub retry_webhook_request_bounds :
        (attempts_in (retry_webhook_request c shaken answers p []).steps ≤ attempts_of c)
        × All (IsPatient c) (retry_webhook_request c shaken answers p []).steps
    unfolding retry_webhook_request
    retry_webhook_request_bounds = (
      omega (arith, attempts_in-retry_from (attempts_of c) 0 []),
      retry_from-All (IsPatient c) tt next_delay-initial (attempts_of c) 0 [] tt,
    )

    -- Between two numbers of attempts there is a request that succeeds, after failures to be retried.
    abbrev IsDeliveredFrom : ℕ → Type 0
    IsDeliveredFrom a =
        (k : ℕ) × ((a ≤ k)
          × ((k < attempts_of c)
              × ((answers k ≡ taken) × ((j : ℕ) → a ≤ j → j < k → IsRetryable c (answers j)))))

    delivered-from :
        (n a : ℕ) (steps : List Step)
        → n + a ≡ attempts_of c
        → (retry_from c shaken answers p n a steps).outcome ≡ delivered
        → IsDeliveredFrom a
    unfolding retry_from
    delivered-from zero a steps h e = cc
    delivered-from (suc n) a steps h e = elim (Answer-cases (answers a)) [
      | inl t ↦ (a, (omega arith, (omega (arith, h), (t, λ j l m. absurd (omega (arith, l, m))))))
      | inr (s, t) ↦ elim (Bool-cases (is_final c s)) [
        | inl u ↦ absurd (refused_ne (rw (retry_from, t, u) at e))
        | inr u ↦ elim (Bool-cases (nat_eq (suc a) (attempts_of c))) [
          | inl v ↦ absurd (refused_ne (rw (retry_from, t, u, v) at e))
          | inr v ↦
              let (k, (low, (high, (found, before)))) =
                delivered-from n (suc a)
                  (push (push steps (posts p)) (pauses p.endpoint (next_delay c shaken a)))
                  (omega (arith, h)) (rw (retry_from, t, u, v) at e) in
              (k, (omega (arith, low), (high, (found, λ j l m. at s t u k before j l m))))
        ]
      ]
    ]
      where
        refused_ne : refused ≢ delivered
        refused_ne q = cc

        at :
            (s : Option ℕ) (t : answers a ≡ fails s) (u : is_final c s ≡ false) (k : ℕ)
            → ((j : ℕ) → suc a ≤ j → j < k → IsRetryable c (answers j))
            → (j : ℕ) → a ≤ j
            → j < k
            → IsRetryable c (answers j)
        at s t u k before j l m = elim (Bool-cases (nat_eq a j)) [
          | inl q ↦ rw (← (nat_eq_iff a j).0 q, t) u
          | inr q ↦
              let ne : a ≢ j = λ r. ground (arith, q, (nat_eq_iff a j).1 r) in
              before j (omega (arith, l, ne)) m
        ]

    from-delivered :
        (n a : ℕ) (steps : List Step)
        → n + a ≡ attempts_of c
        → IsDeliveredFrom a
        → (retry_from c shaken answers p n a steps).outcome ≡ delivered
    unfolding retry_from
    from-delivered zero a steps h (k, (low, (high, (found, before)))) =
        absurd (omega (arith, h, low, high))
    from-delivered (suc n) a steps h (k, (low, (high, (found, before)))) =
        elim (Answer-cases (answers a)) [
          | inl t ↦ rw (retry_from, t) refl
          | inr (s, t) ↦
              let later = differs s t in
              let goes : is_final c s ≡ false = rw t at (before a (omega arith) later) in
              let more : nat_eq (suc a) (attempts_of c) ≡ false =
                ground (arith, nat_eq_iff (suc a) (attempts_of c), later, high) in
              rw (retry_from, t)
                (rw (goes, more)
                  (from-delivered n (suc a)
                    (push (push steps (posts p)) (pauses p.endpoint (next_delay c shaken a)))
                    (omega (arith, h))
                    (
                      k,
                      (
                        omega (arith, later),
                        (high, (found, λ j l m. before j (omega (arith, l)) m)),
                      ),
                    )))
        ]
      where
        taken_ne : (s : Option ℕ) → taken ≢ fails s
        taken_ne s q = cc

        differs : (s : Option ℕ) → answers a ≡ fails s → a < k
        differs s t = elim (Bool-cases (nat_eq a k)) [
          | inl q ↦ absurd (taken_ne s (sym found ∙ (ap answers (sym ((nat_eq_iff a k).0 q)) ∙ t)))
          | inr q ↦
              let ne : a ≢ k = λ r. ground (arith, q, (nat_eq_iff a k).1 r) in
              omega (arith, low, ne)
        ]

    -- A delivery succeeds exactly if one of the attempts allowed is answered with success and every one
    -- before it fails in a way that is tried again.
    pub retry_webhook_request-delivered :
        ((retry_webhook_request c shaken answers p []).outcome ≡ delivered) ↔ (
          (k : ℕ) × ((k < attempts_of c)
            × ((answers k ≡ taken) × ((j : ℕ) → j < k → IsRetryable c (answers j)))))
    unfolding retry_webhook_request
    retry_webhook_request-delivered = (
      λ e.
          let (k, (low, (high, (found, before)))) =
            delivered-from (attempts_of c) 0 [] (omega arith) e in
          (k, (high, (found, λ j m. before j (omega arith) m))),
      λ (k, (high, (found, before))).
          from-delivered (attempts_of c) 0 [] (omega arith)
            (k, (omega arith, (high, (found, λ j l m. before j m)))),
    )

    -- What is done goes after what was done before.
    pub retry_from-append :
        (n a : ℕ) (xs ys : List Step)
        → (retry_from c shaken answers p n a (xs ++ ys)).steps
          ≡ xs ++ (retry_from c shaken answers p n a ys).steps
    unfolding retry_from push
    retry_from-append zero a xs ys = refl
    retry_from-append (suc n) a xs ys =
        let sent = append_assoc xs ys (posts p ∷ []) in
        let paused =
          append_assoc xs (ys ++ (posts p ∷ [])) (pauses p.endpoint (next_delay c shaken a) ∷ []) in
        elim (Answer-cases (answers a)) [
          | inl t ↦ rw (retry_from, t) sent
          | inr (s, t) ↦ elim (Bool-cases (is_final c s)) [
            | inl u ↦ rw (retry_from, t) (rw u sent)
            | inr u ↦ elim (Bool-cases (nat_eq (suc a) (attempts_of c))) [
              | inl v ↦ rw (retry_from, t) (rw (u, v) sent)
              | inr v ↦
                  rw (retry_from, t)
                    (rw (u, v)
                      (ap
                          (λ z.
                            (retry_from c shaken answers p n (suc a)
                              (z ++ (pauses p.endpoint (next_delay c shaken a) ∷ []))).steps)
                          sent
                        ∙ (ap (λ z. (retry_from c shaken answers p n (suc a) z).steps) paused
                            ∙ retry_from-append n (suc a) xs (
                                (ys ++ (posts p ∷ []))
                                ++ (pauses p.endpoint (next_delay c shaken a) ∷ [])))))
            ]
          ]
        ]
