-- ===== src/Chatbot/Actions.antt =====
-- What every action of `sendMessageWhatsApp` keeps to.
use lydia_bg_back.Prelude.{
  true_ne_false, ◌≤◌, ◌<◌, Text, List, [], ◌∷◌, ◌++◌, Bool, true, false, not, ◌≡◌, ◌≢◌, ap, sym,
  ◌∙◌, Option, none, some, inl, inr, length, filter, trim, is_empty, All, All-push, filter-All,
  All-Unit, All-map, arith, Bool-cases,
}
use lydia_bg_back.Chatbot.State.{BotOptions}
use lydia_bg_back.Chatbot.Emit.{is_on}
use lydia_bg_back.Chatbot.Links.{Link, Piece, scan}
use lydia_bg_back.Chatbot.Outgoing.{
  MediaType, image, audio, video, document, Action, subscribes, composes, stops, waits, sends_text,
  sends_audio, sends_media, Sending, Target, number_of, delay_of, typing_delay, split_breaks,
  split_message_by_double_line_breaks, act, if_baileys, send_single_message, send_all,
  send_formatted_text, send_buffer, media_action, send_media, send_piece, get_media_type, with_rest,
  send_pieces, send_message_whats_app,
}

-- A pause of one to twenty seconds, a text that is not empty, and a delay that is not zero.
abbrev pub IsProper : Action → Type 0
IsProper (waits n) = (1000 ≤ n) × (n ≤ 20000)
IsProper (sends_text number delay message preview) = (message ≢ []) × (0 < delay)
IsProper (sends_audio number delay url caption) = 0 < delay
IsProper (sends_media kind number delay url caption name) = 0 < delay
IsProper (subscribes jid) = Unit
IsProper (composes jid) = Unit
IsProper (stops jid) = Unit

abbrev pub AllProper : Sending → Type 0
AllProper s = All IsProper s.actions

typing_delay_bounds :
    (o : BotOptions) (m : Text) → (1000 ≤ typing_delay o m) × (typing_delay o m ≤ 20000)
typing_delay_bounds o m = omega arith

delay_of_pos : (o : BotOptions) → 0 < delay_of o
delay_of_pos o = ground arith

not_empty : (t : Text) → is_empty t ≡ false → t ≢ []
not_empty [] h = λ e. cc
not_empty (c ∷ t) h = λ e. cc

module _ (takes : List Action → Action → Bool) (t : Target) (o : BotOptions) where
  act-AllProper : (a : Action) (s : Sending) → AllProper s → IsProper a → AllProper (act takes a s)
  unfolding act
  act-AllProper a s h p = elim (Bool-cases s.going) [
    | inl g ↦ rw g (All-push IsProper s.actions a h p)
    | inr g ↦ rw g h
  ]

  if_baileys-AllProper :
      (f : Sending → Sending) (s : Sending)
      → ((x : Sending) → AllProper x → AllProper (f x))
      → AllProper s
      → AllProper (if_baileys takes t f s)
  if_baileys-AllProper f s w h = elim (Bool-cases t.is_baileys) [
    | inl g ↦ rw g (w s h)
    | inr g ↦ rw g h
  ]

  send_single_message-AllProper :
      (m : Text) (s : Sending)
      → m ≢ []
      → AllProper s
      → AllProper (send_single_message takes t o m s)
  unfolding send_single_message
  send_single_message-AllProper m s n h =
      if_baileys-AllProper (act takes (stops t.remote_jid)) (act takes text waited)
        (λ x k. act-AllProper (stops t.remote_jid) x k tt)
        (act-AllProper text waited
          (act-AllProper (waits (typing_delay o m)) ready (if_baileys-AllProper starts s started h)
            (typing_delay_bounds o m))
          (n, delay_of_pos o))
    where
      starts : Sending → Sending
      starts x = act takes (composes t.remote_jid) (act takes (subscribes t.remote_jid) x)

      ready : Sending
      ready = if_baileys takes t starts s

      waited : Sending
      waited = act takes (waits (typing_delay o m)) ready

      text : Action
      text = sends_text (number_of t) (delay_of o) m t.link_preview

      started : (x : Sending) → AllProper x → AllProper (starts x)
      started x k =
          act-AllProper (composes t.remote_jid) (act takes (subscribes t.remote_jid) x)
            (act-AllProper (subscribes t.remote_jid) x k tt) tt

  send_all-AllProper :
      (ms : List Text) (s : Sending)
      → All (λ m. m ≢ []) ms
      → AllProper s
      → AllProper (send_all takes t o ms s)
  unfolding send_all
  send_all-AllProper [] s n h = h
  send_all-AllProper (m ∷ ms) s n h =
      send_all-AllProper ms (send_single_message takes t o m s) n.1
        (send_single_message-AllProper m s n.0 h)

  parts-not_empty : (m : Text) → All (λ p. p ≢ []) (split_message_by_double_line_breaks m)
  unfolding split_message_by_double_line_breaks trim
  parts-not_empty m =
      let (part, parts) = split_breaks m in
      All-map (λ p. Unit × (not (is_empty (trim p)) ≡ true)) (λ p. p ≢ []) (λ p h. filled p h.1)
        (filter (λ p. not (is_empty (trim p))) (part ∷ parts))
        (filter-All (λ p. Unit) (λ p. not (is_empty (trim p))) (part ∷ parts)
          (All-Unit (part ∷ parts)))
    where
      filled : (p : Text) → not (is_empty (trim p)) ≡ true → p ≢ []
      filled p h e = absurd (true_ne_false (sym h ∙ ap (λ z. not (is_empty (trim z))) e))

  send_formatted_text-AllProper :
      (m : Text) (s : Sending)
      → m ≢ []
      → AllProper s
      → AllProper (send_formatted_text takes t o m s)
  unfolding send_formatted_text
  send_formatted_text-AllProper m s n h = elim (Bool-cases (is_on o.split_messages)) [
    | inl g ↦
        rw g (send_all-AllProper (split_message_by_double_line_breaks m) s (parts-not_empty m) h)
    | inr g ↦ rw g (send_single_message-AllProper m s n h)
  ]

  send_buffer-AllProper :
      (buffer : Text) (s : Sending) → AllProper s → AllProper (send_buffer takes t o buffer s)
  unfolding send_buffer
  send_buffer-AllProper buffer s h = elim (Bool-cases (is_empty (trim buffer))) [
    | inl g ↦ rw g h
    | inr g ↦ rw g (send_formatted_text-AllProper (trim buffer) s (not_empty (trim buffer) g) h)
  ]

  media_action-IsProper : (kind : MediaType) (l : Link) → IsProper (media_action takes t o kind l)
  media_action-IsProper image l = delay_of_pos o
  media_action-IsProper audio l = delay_of_pos o
  media_action-IsProper video l = delay_of_pos o
  media_action-IsProper document l = delay_of_pos o

  send_media-AllProper :
      (kind : MediaType) (l : Link) (s : Sending)
      → AllProper s
      → AllProper (send_media takes t o kind l s).1
  unfolding send_media
  send_media-AllProper kind l s h = elim (Bool-cases s.going) [
    | inl g ↦ rw g (
        All-push IsProper s.actions (media_action takes t o kind l) h
          (media_action-IsProper kind l))
    | inr g ↦ rw g h
  ]

  send_piece-AllProper :
      (kind : Option MediaType) (p : Piece) (x : Text × Sending)
      → AllProper x.1
      → AllProper (send_piece takes t o kind p x).1
  unfolding send_piece
  send_piece-AllProper none p (buffer, s) h = h
  send_piece-AllProper (some kind) p (buffer, s) h =
      send_media-AllProper kind p.link (send_buffer takes t o (buffer ++ p.before) s)
        (send_buffer-AllProper (buffer ++ p.before) s h)

  module _ (to_lower_case : Text → Text) where
    send_pieces-AllProper :
        (ps : List Piece) (x : Text × Sending)
        → AllProper x.1
        → AllProper (send_pieces takes to_lower_case t o ps x).1
    unfolding send_pieces
    send_pieces-AllProper [] x h = h
    send_pieces-AllProper (p ∷ ps) x h =
        send_pieces-AllProper ps
          (send_piece takes t o (get_media_type to_lower_case p.link.url) p x)
          (send_piece-AllProper (get_media_type to_lower_case p.link.url) p x h)

    -- Whatever the answer of a bot is and however the channel takes it: the pauses before texts last
    -- from one to twenty seconds, no empty text is sent, and no delay is zero.
    pub send_message_whats_app-AllProper :
        (message : Text) (s : Sending)
        → AllProper s
        → AllProper (send_message_whats_app takes to_lower_case t o message s)
    unfolding send_message_whats_app
    send_message_whats_app-AllProper message s h =
        let (pieces, rest) = scan (length message) message in
        let x = send_pieces takes to_lower_case t o pieces ([], s) in
        send_buffer-AllProper (with_rest takes x.0 rest) x.1
          (send_pieces-AllProper pieces ([], s) h)
