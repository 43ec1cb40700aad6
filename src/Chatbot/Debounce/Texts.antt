-- ===== src/Chatbot/Debounce/Texts.antt =====
-- No text that a contact sends is lost, repeated or put out of order by the debounce.
use lydia_bg_back.Prelude.{Text, List, [], ◌∷◌, ◌++◌, Option, none, some, ◌==◌, if◌then◌else◌}
use lydia_bg_back.Chatbot.Debounce.{Buffer, Handed, Debounce, Event, arrives, fires}

-- Texts with a line break between them.
abbrev pub lines : List Text → Text
lines [] = []
lines (x ∷ []) = x
lines (x ∷ (y ∷ xs)) = x ++ (10 ∷ lines (y ∷ xs))

-- What a contact has sent, and what has been handed over of it, in order.
abbrev pub sent_by : Text → List Event → List Text
sent_by jid [] = []
sent_by jid (arrives caller k content ∷ es) =
    let rest = sent_by jid es in if k == jid then content ∷ rest else rest
sent_by jid (fires t ∷ es) = sent_by jid es

abbrev pub handed_of : Text → List Handed → List Text
handed_of jid [] = []
handed_of jid (h ∷ hs) =
    let rest = handed_of jid hs in if h.remote_jid == jid then h.message ∷ rest else rest

abbrev pub waiting : Option Buffer → List Text
waiting none = []
waiting (some b) = b.message ∷ []

abbrev pub texts : Text → Debounce → List Text
texts jid d = handed_of jid d.handed ++ waiting (d.buffers jid)
