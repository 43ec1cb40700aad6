-- ===== src/BotFlow/Engine/Sessions.antt =====
-- The session of a chat, before and after an update of the table.
use lydia_bg_back.Prelude.{
  Text, List, [], ◌∷◌, Bool, true, ◌≡◌, refl, ap, Option, none, some, inl, inr, any, ◌==◌, eq_refl,
  if◌then◌else◌, arith, Bool-cases,
}
use lydia_bg_back.BotFlow.Engine.{
  Session, World, find_session, update_many, update_session, returned, try_update,
}

abbrev pub touched : (Session → Bool) → (Session → Session) → Option Session → Option Session
touched p f none = none
touched p f (some s) = some (if p s then f s else s)

pub find-update_many :
    (chat : Text) (p : Session → Bool) (f : Session → Session) (ss : List Session)
    → ((s : Session) → (f s).chat_id ≡ s.chat_id)
    → find_session chat (update_many p f ss) ≡ touched p f (find_session chat ss)
unfolding update_many
find-update_many chat p f [] same = refl
find-update_many chat p f (s ∷ ss) same =
    let kept : ((f s).chat_id == chat) ≡ (s.chat_id == chat) = ap (λ c. c == chat) (same s) in
    elim (Bool-cases (s.chat_id == chat)) [
      | inl t ↦ ground (arith, t, kept)
      | inr t ↦ ground (arith, t, kept, find-update_many chat p f ss same)
    ]

-- A session that is found meets a condition that some row meets.
pub any-find :
    (chat : Text) (p : Session → Bool) (ss : List Session) {s : Session}
    → find_session chat ss ≡ some s
    → p s ≡ true
    → any p ss ≡ true
any-find chat p [] e h = cc
any-find chat p (x ∷ ss) e h = elim (Bool-cases (x.chat_id == chat)) [
  | inl t ↦ ground (arith, t, e, h)
  | inr t ↦ ground (arith, any-find chat p ss (rw t at e) h)
]

-- The chat's session, found and changed by its id.
pub try_update-found :
    (chat : Text) (f : Session → Session) (w : World) (s : Session)
    → ((x : Session) → (f x).chat_id ≡ x.chat_id)
    → find_session chat w.sessions ≡ some s
    → (w' : World) × (try_update s.id f w ≡ returned w')
      × (find_session chat w'.sessions ≡ some (f s))
      × (w'.sent ≡ w.sent)
unfolding update_session
try_update-found chat f w s same e =
    let there = any-find chat (λ x. x.id == s.id) w.sessions e (eq_refl s.id) in
    (
      record w { sessions = update_many (λ x. x.id == s.id) f w.sessions },
      rw (there, try_update),
      rw (find-update_many chat (λ x. x.id == s.id) f w.sessions same, e, eq_refl s.id),
      refl,
    )
