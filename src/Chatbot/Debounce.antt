-- ===== src/Chatbot/Debounce.antt =====
-- `processDebounce` of src/api/integrations/chatbot/chatbot.controller.ts: the texts that a contact sends
-- in quick succession are handed over as one. Timers are numbered as `setTimeout` makes them; which
-- of the live timers fires next, and when a message arrives, is left open: an event chooses.
pub mod Timers
pub mod Texts
pub mod Callers
use lydia_bg_back.Prelude.{
  ℕ, suc, ◌+◌, ◌<◌, Text, List, [], ◌∷◌, ◌++◌, Bool, true, false, ◌≡◌, ◌≢◌, refl, ap, sym, subst,
  ◌∙◌, Option, none, some, inl, inr, push, nat_eq, nat_eq_iff, ◌==◌, eq_iff, eq_refl, if◌then◌else◌,
  arith, Bool-cases, Option-cases,
}

-- An entry of `userMessageDebounce`.
pub record Buffer : Type 0 where
  pub message : Text
  pub timer : ℕ

-- What a timer's callback has in its closure: the contact, and the caller that handed in the message.
pub record Callback : Type 0 where
  pub caller : Text
  pub remote_jid : Text

pub record Handed : Type 0 where
  pub caller : Text
  pub remote_jid : Text
  pub message : Text

-- `failed` says that a callback has found no entry, where the code would throw.
pub record Debounce : Type 0 where
  pub buffers : Text → Option Buffer
  pub timers : ℕ → Option Callback
  pub next_timer : ℕ
  pub handed : List Handed
  pub failed : Bool

abbrev pub empty : Debounce
empty = record {
  buffers = λ jid. none;
  timers = λ t. none;
  next_timer = 0;
  handed = [];
  failed = false;
}

abbrev pub with_buffer : Text → Option Buffer → (Text → Option Buffer) → Text → Option Buffer
with_buffer jid b buffers k = if jid == k then b else buffers k

abbrev pub with_timer : ℕ → Option Callback → (ℕ → Option Callback) → ℕ → Option Callback
with_timer t c timers k = if nat_eq t k then c else timers k

-- `message += '\n' + content`, or the first message
abbrev pub extended : Option Buffer → Text → Text
extended none content = content
extended (some b) content = b.message ++ (10 ∷ content)

-- `clearTimeout` of the entry's timer
abbrev pub cleared : Option Buffer → (ℕ → Option Callback) → ℕ → Option Callback
cleared none timers = timers
cleared (some b) timers = with_timer b.timer none timers

unfoldable pub process_debounce : Text → Text → Text → Debounce → Debounce
process_debounce caller jid content d =
    let old = d.buffers jid in
    record d {
      buffers =
          with_buffer jid (some (record { message = extended old content; timer = d.next_timer }))
            d.buffers;
      timers =
          with_timer d.next_timer (some (record { caller = caller; remote_jid = jid }))
            (cleared old d.timers);
      next_timer = suc d.next_timer;
    }

-- The callback of `setTimeout`.
unfoldable pub hand_over : Callback → Option Buffer → Debounce → Debounce
hand_over c none d = record d { failed = true }
hand_over c (some b) d = record d {
  buffers = with_buffer c.remote_jid none d.buffers;
  handed =
      push d.handed (record { caller = c.caller; remote_jid = c.remote_jid; message = b.message });
}

-- A timer that is not live does not fire.
unfoldable pub fire : ℕ → Debounce → Debounce
unfolding hand_over
fire t d = elim (d.timers t) [
  | none ↦ d
  | some c ↦ hand_over c (d.buffers c.remote_jid) (record d { timers = with_timer t none d.timers })
]

pub data Event : Type 0 where
  arrives : Text → Text → Text → Event
  fires : ℕ → Event

abbrev pub step : Event → Debounce → Debounce
step (arrives caller jid content) d = process_debounce caller jid content d
step (fires t) d = fire t d

unfoldable pub run : List Event → Debounce → Debounce
unfolding process_debounce fire
run [] d = d
run (e ∷ es) d = run es (step e d)

-- Every entry has a live timer of its contact and every live timer an entry that names it.
pub record IsTimed (d : Debounce) : Type 0 where
  pub fresh : (t : ℕ) (c : Callback) → d.timers t ≡ some c → t < d.next_timer
  pub armed :
      (jid : Text) (b : Buffer)
      → d.buffers jid ≡ some b
      → (c : Callback) × ((d.timers b.timer ≡ some c) × (c.remote_jid ≡ jid))
  pub held :
      (t : ℕ) (c : Callback)
      → d.timers t ≡ some c
      → (b : Buffer) × ((d.buffers c.remote_jid ≡ some b) × (b.timer ≡ t))
  pub calm : d.failed ≡ false
