-- ===== src/Chatbot/Debounce/Timers.antt =====
-- Every text that waits has one live timer, and no timer finds nothing to hand over.
use lydia_bg_back.Prelude.{
  some_eq, none_ne_some, ℕ, suc, ◌<◌, Text, List, [], ◌∷◌, false, ◌≡◌, ◌≢◌, ◌⊎◌, refl, ap, sym,
  subst, ◌∙◌, Option, none, some, inl, inr, nat_eq, nat_eq_iff, ◌==◌, eq_iff, eq_refl, arith,
  Bool-cases, Option-cases,
}
use lydia_bg_back.Chatbot.Debounce.{
  Buffer, Callback, Debounce, empty, with_buffer, with_timer, extended, cleared, process_debounce,
  hand_over, fire, Event, arrives, fires, step, run, IsTimed,
}

-- What a map that has been changed at one key says of a key.
with_buffer-some :
    (jid k : Text) (o : Option Buffer) (m : Text → Option Buffer) {b : Buffer}
    → with_buffer jid o m k ≡ some b
    → ((jid ≡ k) × (o ≡ some b)) ⊎ (((jid == k) ≡ false) × (m k ≡ some b))
with_buffer-some jid k o m e = elim (Bool-cases (jid == k)) [
  | inl t ↦ inl ((eq_iff jid k).0 t, rw t at e)
  | inr t ↦ inr (t, rw t at e)
]

with_timer-some :
    (t k : ℕ) (o : Option Callback) (m : ℕ → Option Callback) {c : Callback}
    → with_timer t o m k ≡ some c
    → ((t ≡ k) × (o ≡ some c)) ⊎ ((t ≢ k) × (m k ≡ some c))
with_timer-some t k o m e = elim (Bool-cases (nat_eq t k)) [
  | inl u ↦ inl ((nat_eq_iff t k).0 u, rw u at e)
  | inr u ↦ inr (λ h. ground (arith, u, (nat_eq_iff t k).1 h), rw u at e)
]

pub with_timer-other :
    (t k : ℕ) (o : Option Callback) (m : ℕ → Option Callback) → t ≢ k → with_timer t o m k ≡ m k
with_timer-other t k o m n = elim (Bool-cases (nat_eq t k)) [
  | inl u ↦ absurd (n ((nat_eq_iff t k).0 u))
  | inr u ↦ rw u refl
]

pub with_timer-same :
    (t : ℕ) (o : Option Callback) (m : ℕ → Option Callback) → with_timer t o m t ≡ o
with_timer-same t o m = rw ((nat_eq_iff t t).1 refl) refl

with_buffer-other :
    (j k : Text) (o : Option Buffer) (m : Text → Option Buffer) → j ≢ k → with_buffer j o m k ≡ m k
with_buffer-other j k o m n = elim (Bool-cases (j == k)) [
  | inl u ↦ absurd (n ((eq_iff j k).0 u))
  | inr u ↦ rw u refl
]

pub with_buffer-same :
    (j : Text) (o : Option Buffer) (m : Text → Option Buffer) → with_buffer j o m j ≡ o
with_buffer-same j o m = rw (eq_refl j) refl

cleared-some :
    (o : Option Buffer) (timers : ℕ → Option Callback) (t : ℕ) {c : Callback}
    → cleared o timers t ≡ some c
    → (timers t ≡ some c) × ((b : Buffer) → o ≡ some b → b.timer ≢ t)
cleared-some none timers t e = (e, λ b h. absurd (none_ne_some h))
cleared-some (some a) timers t {c} e = at (with_timer-some a.timer t none timers e)
  where
    at :
        (((a.timer ≡ t) × (none ≡ some c)) ⊎ ((a.timer ≢ t) × (timers t ≡ some c)))
        → (timers t ≡ some c) × ((b : Buffer) → some a ≡ some b → b.timer ≢ t)
    at (inl (p, q)) = absurd (none_ne_some q)
    at (inr (p, q)) = (q, λ b h. subst (λ (z : Buffer). z.timer ≢ t) (some_eq h) p)

cleared-other :
    (o : Option Buffer) (timers : ℕ → Option Callback) (t : ℕ)
    → ((b : Buffer) → o ≡ some b → b.timer ≢ t)
    → cleared o timers t ≡ timers t
cleared-other none timers t h = refl
cleared-other (some b) timers t h = with_timer-other b.timer t none timers (h b refl)

module _ (d : Debounce) (inv : IsTimed d) where
  -- One timer has one contact, and one contact one timer.
  same_contact :
      (j k : Text) (a b : Buffer)
      → d.buffers j ≡ some a
      → d.buffers k ≡ some b
      → a.timer ≡ b.timer
      → j ≡ k
  same_contact j k a b p q e =
      let (c, (u, v)) = inv.armed j a p in
      let (f, (x, y)) = inv.armed k b q in
      let same : c ≡ f = some_eq (sym u ∙ (ap d.timers e ∙ x)) in
      sym v ∙ (ap (λ (z : Callback). z.remote_jid) same ∙ y)

  module _ (caller jid content : Text) where
    new : Buffer
    new = record { message = extended (d.buffers jid) content; timer = d.next_timer }

    callback : Callback
    callback = record { caller = caller; remote_jid = jid }

    live : ℕ → Option Callback
    live = cleared (d.buffers jid) d.timers

    process_debounce-IsTimed : IsTimed (process_debounce caller jid content d)
    unfolding process_debounce live new callback
    process_debounce-IsTimed = record {
      fresh = λ t c e. below t c (with_timer-some d.next_timer t (some callback) live e);
      armed = λ k b e. armed k b (with_buffer-some jid k (some new) d.buffers e);
      held = λ t c e. held t c (with_timer-some d.next_timer t (some callback) live e);
      calm = inv.calm;
    }
      where
        Set_timer : ℕ → Callback → Type 0
        Set_timer t c =
            ((d.next_timer ≡ t) × (some callback ≡ some c))
            ⊎ ((d.next_timer ≢ t) × (live t ≡ some c))

        below : (t : ℕ) (c : Callback) → Set_timer t c → t < suc d.next_timer
        below t c (inl (p, q)) = omega (arith, p)
        below t c (inr (p, q)) =
            let old = inv.fresh t c (cleared-some (d.buffers jid) d.timers t q).0 in
            omega (arith, old)

        armed :
            (k : Text) (b : Buffer)
            → ((jid ≡ k) × (some new ≡ some b)) ⊎ (((jid == k) ≡ false) × (d.buffers k ≡ some b))
            → (c : Callback) × ((with_timer d.next_timer (some callback) live b.timer ≡ some c)
                × (c.remote_jid ≡ k))
        armed k b (inl (p, q)) = (
          callback,
          (
            ap (λ (z : Buffer). with_timer d.next_timer (some callback) live z.timer)
                  (sym (some_eq q))
                ∙ with_timer-same d.next_timer (some callback) live,
            p,
          ),
        )
        armed k b (inr (p, q)) =
            let (c, (u, v)) = inv.armed k b q in
            let old = inv.fresh b.timer c u in
            (
              c,
              (
                with_timer-other d.next_timer b.timer (some callback) live
                      (λ h. omega (arith, h, old))
                    ∙ (cleared-other (d.buffers jid) d.timers b.timer
                          (λ a e h. different k p (same_contact jid k a b e q h))
                        ∙ u),
                v,
              ),
            )
          where
            different : (k : Text) → (jid == k) ≡ false → jid ≢ k
            different k p h = ground (arith, p, (eq_iff jid k).1 h)

        held :
            (t : ℕ) (c : Callback)
            → Set_timer t c
            → (b : Buffer) × ((with_buffer jid (some new) d.buffers c.remote_jid ≡ some b)
                × (b.timer ≡ t))
        held t c (inl (p, q)) = (
          new,
          (
            ap (λ (z : Callback). with_buffer jid (some new) d.buffers z.remote_jid)
                  (sym (some_eq q))
                ∙ with_buffer-same jid (some new) d.buffers,
            p,
          ),
        )
        held t c (inr (p, q)) =
            let (was, gone) = cleared-some (d.buffers jid) d.timers t q in
            let (b, (u, v)) = inv.held t c was in
            (
              b,
              (
                with_buffer-other jid c.remote_jid (some new) d.buffers
                      (λ h. gone b (ap d.buffers h ∙ u) v)
                    ∙ u,
                v,
              ),
            )

  fire-IsTimed : (t : ℕ) → IsTimed (fire t d)
  unfolding fire hand_over
  fire-IsTimed t = elim (Option-cases (d.timers t)) [
    | inl e ↦ rw (fire, e) inv
    | inr (c, e) ↦ let (b, (u, v)) = inv.held t c e in rw (fire, e) (rw u (handed c b e u v))
  ]
    where
      handed :
          (c : Callback) (b : Buffer)
          → d.timers t ≡ some c
          → d.buffers c.remote_jid ≡ some b
          → b.timer ≡ t
          → IsTimed (hand_over c (some b) (record d { timers = with_timer t none d.timers }))
      handed c b e u v = record {
        fresh = λ k f h. inv.fresh k f (left k f (with_timer-some t k none d.timers h)).1;
        armed = λ k a h. armed k a (with_buffer-some c.remote_jid k none d.buffers h);
        held = λ k f h. held k f (left k f (with_timer-some t k none d.timers h));
        calm = inv.calm;
      }
        where
          left :
              (k : ℕ) (f : Callback)
              → ((t ≡ k) × (none ≡ some f)) ⊎ ((t ≢ k) × (d.timers k ≡ some f))
              → (t ≢ k) × (d.timers k ≡ some f)
          left k f (inl (p, q)) = absurd (none_ne_some q)
          left k f (inr r) = r

          other :
              (k : Text) (a : Buffer)
              → d.buffers k ≡ some a
              → (c.remote_jid == k) ≡ false
              → t ≢ a.timer
          other k a q p h =
              ground
                (arith, p, (eq_iff c.remote_jid k).1 (same_contact c.remote_jid k b a u q (v ∙ h)))

          armed :
              (k : Text) (a : Buffer)
              → ((c.remote_jid ≡ k) × (none ≡ some a))
                ⊎ (((c.remote_jid == k) ≡ false) × (d.buffers k ≡ some a))
              → (f : Callback) × ((with_timer t none d.timers a.timer ≡ some f)
                  × (f.remote_jid ≡ k))
          armed k a (inl (p, q)) = absurd (none_ne_some q)
          armed k a (inr (p, q)) =
              let (f, (x, y)) = inv.armed k a q in
              (f, (with_timer-other t a.timer none d.timers (other k a q p) ∙ x, y))

          held :
              (k : ℕ) (f : Callback)
              → (t ≢ k) × (d.timers k ≡ some f)
              → (a : Buffer) × ((with_buffer c.remote_jid none d.buffers f.remote_jid ≡ some a)
                  × (a.timer ≡ k))
          held k f (n, q) =
              let (a, (x, y)) = inv.held k f q in
              (
                a,
                (
                  with_buffer-other c.remote_jid f.remote_jid none d.buffers (λ h. n (
                        sym v
                        ∙ (ap (λ (z : Buffer). z.timer) (some_eq (sym u ∙ (ap d.buffers h ∙ x)))
                            ∙ y)))
                      ∙ x,
                  y,
                ),
              )

step-IsTimed : (e : Event) (d : Debounce) → IsTimed d → IsTimed (step e d)
step-IsTimed (arrives caller jid content) d inv = process_debounce-IsTimed d inv caller jid content
step-IsTimed (fires t) d inv = fire-IsTimed d inv t

empty-IsTimed : IsTimed empty
empty-IsTimed = record {
  fresh = λ t c e. absurd (none_ne_some e);
  armed = λ k b e. absurd (none_ne_some e);
  held = λ t c e. absurd (none_ne_some e);
  calm = refl;
}

run-from-IsTimed : (es : List Event) (d : Debounce) → IsTimed d → IsTimed (run es d)
unfolding run
run-from-IsTimed [] d inv = inv
run-from-IsTimed (e ∷ es) d inv = run-from-IsTimed es (step e d) (step-IsTimed e d inv)

-- However messages arrive and timers fire, every entry that waits has a live timer of its contact,
-- every live timer names the entry that it will hand over, and no timer has found none.
pub run-IsTimed : (es : List Event) → IsTimed (run es empty)
run-IsTimed es = run-from-IsTimed es empty empty-IsTimed
