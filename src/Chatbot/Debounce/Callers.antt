-- ===== src/Chatbot/Debounce/Callers.antt =====
-- What becomes of a text that one caller of `processDebounce` has handed in when another caller hands in
-- a text of the same contact.
use lydia_bg_back.Prelude.{
  push, ◌++◌, ℕ, ◌<◌, Text, List, ◌∷◌, ◌≡◌, refl, ap, ◌∙◌, Option, none, some, arith,
}
use lydia_bg_back.Chatbot.Debounce.{
  Buffer, Callback, Debounce, empty, with_timer, extended, cleared, process_debounce, hand_over,
  fire, Event, run,
}
use lydia_bg_back.Chatbot.Debounce.Timers.{
  with_timer-other, with_timer-same, with_buffer-same, run-IsTimed,
}

fire-dead : (t : ℕ) (d : Debounce) → d.timers t ≡ none → fire t d ≡ d
unfolding fire
fire-dead t d e = rw (fire, e) refl

fire-live :
    (t : ℕ) (d : Debounce) {c : Callback} {b : Buffer}
    → d.timers t ≡ some c
    → d.buffers c.remote_jid ≡ some b
    → (fire t d).handed
      ≡ push d.handed (record { caller = c.caller; remote_jid = c.remote_jid; message = b.message })
unfolding fire hand_over
fire-live t d {c} {b} e f = rw (fire, e) (rw f refl)

-- Two callers share a contact's entry: if a text waits, however that has come about, and a second
-- caller hands in another one, then the timer of the text that waited no longer does anything, and the
-- new timer hands both texts over as one to the second caller.
pub process_debounce-fire :
    (es : List Event) (second jid content : Text) (b : Buffer)
    → (run es empty).buffers jid ≡ some b
    → (fire b.timer (process_debounce second jid content (run es empty))
        ≡ process_debounce second jid content (run es empty))
      × ((fire
            (run es empty).next_timer
            (process_debounce second jid content (run es empty))).handed
          ≡ push
              (run es empty).handed
              (record { caller = second; remote_jid = jid; message = b.message ++ (10 ∷ content) }))
unfolding process_debounce fire hand_over
process_debounce-fire es second jid content b e =
    let d = run es empty in
    let timed = run-IsTimed es in
    let (c, (live, own)) = timed.armed jid b e in
    let earlier : b.timer < d.next_timer = timed.fresh b.timer c live in
    let call : Option Callback = some (record { caller = second; remote_jid = jid }) in
    let dead : with_timer d.next_timer call (cleared (d.buffers jid) d.timers) b.timer ≡ none =
      with_timer-other d.next_timer b.timer call (cleared (d.buffers jid) d.timers)
        (λ q. omega (arith, earlier, q))
      ∙ (ap (λ o. cleared o d.timers b.timer) e ∙ with_timer-same b.timer none d.timers) in
    (
      fire-dead b.timer (process_debounce second jid content d) dead,
      fire-live d.next_timer (process_debounce second jid content d)
            (with_timer-same d.next_timer call (cleared (d.buffers jid) d.timers))
            (with_buffer-same jid
              (some (record { message = extended (d.buffers jid) content; timer = d.next_timer }))
              d.buffers)
          ∙ ap
              (λ o.
                push d.handed
                  (record { caller = second; remote_jid = jid; message = extended o content }))
              e,
    )
