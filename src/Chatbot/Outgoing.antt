-- ===== src/Chatbot/Outgoing.antt =====
-- The messages that a bot's answer becomes: `sendMessageWhatsApp`, `sendFormattedText`,
-- `sendSingleMessage`, `splitMessageByDoubleLineBreaks` and `getMediaType` of
-- src/api/integrations/chatbot/base-chatbot.service.ts. Whether the channel takes an action is the
-- parameter `takes`, which may depend on all that went before.
use lydia_bg_back.Prelude.{
  ℕ, ◌*◌, min, max, Text, codes, List, [], ◌∷◌, ◌++◌, Bool, true, false, not, ◌&&◌, Option, none,
  some, nat_eq, length, filter, push, trim, is_empty, contains, split_first, if◌then◌else◌,
}
use lydia_bg_back.Chatbot.State.{BotOptions}
use lydia_bg_back.Chatbot.Triggers.{includes}
use lydia_bg_back.Chatbot.Emit.{is_on, seconds}
use lydia_bg_back.Chatbot.Links.{Link, Piece, scan, full_match}

pub data MediaType : Type 0 where
  image audio video document : MediaType

-- `url.split('.').pop()`
abbrev pub last : Text → List Text → Text
last t [] = t
last t (u ∷ us) = last u us

abbrev pub extension : Text → Text
extension url = let (part, parts) = split_first 46 url in last part parts

abbrev pub image_extensions : List Text
image_extensions =
    codes "jpg" ∷ codes "jpeg" ∷ codes "png" ∷ codes "gif" ∷ codes "bmp" ∷ codes "webp" ∷ []

abbrev pub audio_extensions : List Text
audio_extensions = codes "mp3" ∷ codes "wav" ∷ codes "aac" ∷ codes "ogg" ∷ []

abbrev pub video_extensions : List Text
video_extensions = codes "mp4" ∷ codes "avi" ∷ codes "mkv" ∷ codes "mov" ∷ []

abbrev pub document_extensions : List Text
document_extensions =
    codes "pdf"
    ∷ codes "doc"
    ∷ codes "docx"
    ∷ codes "xls"
    ∷ codes "xlsx"
    ∷ codes "ppt"
    ∷ codes "pptx"
    ∷ codes "txt"
    ∷ []

unfoldable pub get_media_type : (Text → Text) → Text → Option MediaType
get_media_type to_lower_case url =
    let e = to_lower_case (extension url) in
    if contains e image_extensions
    then some image
    else if contains e audio_extensions
    then some audio
    else if contains e video_extensions
    then some video
    else if contains e document_extensions
    then some document
    else none

-- What is asked of the channel, in order. `waits` is the pause before a text, in milliseconds.
pub data Action : Type 0 where
  subscribes composes stops : Text → Action
  waits : ℕ → Action
  sends_text : Text → ℕ → Text → Bool → Action
  sends_audio : Text → ℕ → Text → Text → Action
  sends_media : MediaType → Text → ℕ → Text → Text → Option Text → Action

-- The actions so far. `going` is false once an exception has left `sendMessageWhatsApp`, or a text
-- has failed, whose promise is never settled: nothing is done any more.
pub record Sending : Type 0 where
  pub actions : List Action
  pub going : Bool

-- Who is written to, over which channel.
pub record Target : Type 0 where
  pub remote_jid : Text
  pub is_baileys : Bool
  pub link_preview : Bool

-- `remoteJid.includes('@lid') ? remoteJid : remoteJid.split('@')[0]`
abbrev pub number_of : Target → Text
number_of t =
    if includes t.remote_jid (codes "@lid") then t.remote_jid else (split_first 64 t.remote_jid).0

-- `settings?.delayMessage || 1000`
abbrev pub delay_of : BotOptions → ℕ
delay_of o = let n = seconds o.delay_message in if nat_eq n 0 then 1000 else n

-- `Math.min(Math.max(message.length * timePerChar, minDelay), maxDelay)`
abbrev pub typing_delay : BotOptions → Text → ℕ
typing_delay o message = min (max (length message * seconds o.time_per_char) 1000) 20000

-- `split('\n\n')`: the first part and the others
unfoldable pub split_breaks : Text → Text × List Text
split_breaks [] = ([], [])
split_breaks (c ∷ []) = (c ∷ [], [])
split_breaks (c ∷ (d ∷ s)) = elim (nat_eq c 10 && nat_eq d 10) [
  | true ↦ let (part, parts) = split_breaks s in ([], part ∷ parts)
  | false ↦ let (part, parts) = split_breaks (d ∷ s) in (c ∷ part, parts)
]

unfoldable pub split_message_by_double_line_breaks : Text → List Text
unfolding split_breaks
split_message_by_double_line_breaks message =
    let (part, parts) = split_breaks message in filter (λ p. not (is_empty (trim p))) (part ∷ parts)

module _ (takes : List Action → Action → Bool) where
  unfoldable pub act : Action → Sending → Sending
  unfolding push
  act a s = if s.going then record { actions = push s.actions a; going = takes s.actions a } else s

  abbrev pub if_baileys : Target → (Sending → Sending) → Sending → Sending
  if_baileys t f s = if t.is_baileys then f s else s

  unfoldable pub send_single_message : Target → BotOptions → Text → Sending → Sending
  unfolding act
  send_single_message t o message s =
      let ready =
        if_baileys t (λ x. act (composes t.remote_jid) (act (subscribes t.remote_jid) x)) s in
      let sent =
        act (sends_text (number_of t) (delay_of o) message t.link_preview)
          (act (waits (typing_delay o message)) ready) in
      if_baileys t (act (stops t.remote_jid)) sent

  unfoldable pub send_all : Target → BotOptions → List Text → Sending → Sending
  unfolding send_single_message
  send_all t o [] s = s
  send_all t o (m ∷ ms) s = send_all t o ms (send_single_message t o m s)

  unfoldable pub send_formatted_text : Target → BotOptions → Text → Sending → Sending
  unfolding send_all split_message_by_double_line_breaks
  send_formatted_text t o text s =
      if is_on o.split_messages
      then send_all t o (split_message_by_double_line_breaks text) s
      else send_single_message t o text s

  -- `if (textBuffer.trim()) await this.sendFormattedText(…, textBuffer.trim(), …)`
  unfoldable pub send_buffer : Target → BotOptions → Text → Sending → Sending
  unfolding send_formatted_text
  send_buffer t o buffer s =
      if is_empty (trim buffer) then s else send_formatted_text t o (trim buffer) s

  -- The name of a document's file.
  abbrev pub file_name : MediaType → Text → Option Text
  file_name document alt = some (if is_empty alt then codes "document" else alt)
  file_name image alt = none
  file_name audio alt = none
  file_name video alt = none

  abbrev pub media_action : Target → BotOptions → MediaType → Link → Action
  media_action t o audio l = sends_audio (number_of t) (delay_of o) l.url l.alt
  media_action t o image l =
      sends_media image (number_of t) (delay_of o) l.url l.alt (file_name image l.alt)
  media_action t o video l =
      sends_media video (number_of t) (delay_of o) l.url l.alt (file_name video l.alt)
  media_action t o document l =
      sends_media document (number_of t) (delay_of o) l.url l.alt (file_name document l.alt)

  -- A media message that the channel does not take is caught, and its text kept for the buffer.
  unfoldable pub send_media : Target → BotOptions → MediaType → Link → Sending → Text × Sending
  unfolding push
  send_media t o kind l s =
      if s.going
      then (
        if takes s.actions (media_action t o kind l) then [] else l.alt ++ (58 ∷ (32 ∷ l.url)),
        record s { actions = push s.actions (media_action t o kind l) },
      )
      else ([], s)

  -- One round of the loop: the text buffer and what has been sent.
  unfoldable pub send_piece :
      Target → BotOptions → Option MediaType → Piece → Text × Sending → Text × Sending
  unfolding send_buffer send_media
  send_piece t o none p (buffer, s) = (buffer ++ (p.before ++ full_match p.link), s)
  send_piece t o (some kind) p (buffer, s) =
      let text = buffer ++ p.before in
      let (failed, sent) = send_media t o kind p.link (send_buffer t o text s) in
      ((if is_empty (trim text) then text else []) ++ failed, sent)

  -- `if (remainingText.trim()) textBuffer += remainingText`
  abbrev pub with_rest : Text → Text → Text
  with_rest buffer rest = if is_empty (trim rest) then buffer else buffer ++ rest

  module _ (to_lower_case : Text → Text) where
    unfoldable pub send_pieces : Target → BotOptions → List Piece → Text × Sending → Text × Sending
    unfolding send_piece get_media_type
    send_pieces t o [] x = x
    send_pieces t o (p ∷ ps) x =
        send_pieces t o ps (send_piece t o (get_media_type to_lower_case p.link.url) p x)

    -- An empty text sends nothing; so does the loop on it.
    unfoldable pub send_message_whats_app : Target → BotOptions → Text → Sending → Sending
    unfolding send_pieces send_buffer scan
    send_message_whats_app t o message s =
        let (pieces, rest) = scan (length message) message in
        let (buffer, sent) = send_pieces t o pieces ([], s) in
        send_buffer t o (with_rest buffer rest) sent
