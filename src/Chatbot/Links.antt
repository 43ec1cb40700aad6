-- ===== src/Chatbot/Links.antt =====
-- The links of a text as `sendMessageWhatsApp` of
-- src/api/integrations/chatbot/base-chatbot.service.ts finds them: the matches of the regular expression
-- `!?\[(.*?)\]\((.*?)\)`, from left to right. An alternative text ends at the first `](`, an address
-- at the first `)`, and neither has a line terminator, so the expression never goes back.
pub mod Reading
use lydia_bg_back.Prelude.{
  ℕ, zero, suc, Text, List, [], ◌∷◌, ◌++◌, Bool, true, false, ◌||◌, ◌≡◌, ◌≢◌, refl, ap, sym, ◌∙◌,
  Option, none, some, inl, inr, nat_eq, nat_eq_iff, length, length-append, ◌<◌, ◌≤◌, if◌then◌else◌,
  Option-cases, Bool-cases, arith,
}
use mathlib.Core.List.{append_assoc}

pub record Link : Type 0 where
  pub bang : Bool
  pub alt : Text
  pub url : Text

-- A piece of a text: what stands before a link, and the link.
pub record Piece : Type 0 where
  pub before : Text
  pub link : Link

-- What `.` does not match.
abbrev pub ends_line : ℕ → Bool
ends_line c = nat_eq c 10 || (nat_eq c 13 || (nat_eq c 0x2028 || nat_eq c 0x2029))

abbrev pub prepend : ℕ → Option (Text × Text) → Option (Text × Text)
prepend c none = none
prepend c (some (s, rest)) = some (c ∷ s, rest)

-- The text up to the first `)`, and what follows it.
unfoldable pub take_url : Text → Option (Text × Text)
take_url [] = none
take_url (c ∷ s) =
    let rest = take_url s in
    if nat_eq c 41 then some ([], s) else if ends_line c then none else prepend c rest

-- The text up to the first `](`, and what follows it.
unfoldable pub take_alt : Text → Option (Text × Text)
take_alt [] = none
take_alt (c ∷ []) = none
take_alt (c ∷ (d ∷ s)) =
    let rest = take_alt (d ∷ s) in
    if nat_eq c 93
    then (if nat_eq d 40 then some ([], s) else prepend c rest)
    else if ends_line c
    then none
    else prepend c rest

abbrev pub with_url : Bool → Text → Option (Text × Text) → Option (Link × Text)
with_url bang alt none = none
with_url bang alt (some (url, rest)) = some (record { bang = bang; alt = alt; url = url }, rest)

abbrev pub with_alt : Bool → Option (Text × Text) → Option (Link × Text)
with_alt bang none = none
with_alt bang (some (alt, s)) = with_url bang alt (take_url s)

-- The match of the expression that begins a text, and what follows it.
unfoldable pub match_link : Text → Option (Link × Text)
unfolding take_url take_alt
match_link [] = none
match_link (c ∷ []) = none
match_link (c ∷ (d ∷ s)) =
    if nat_eq c 91
    then with_alt false (take_alt (d ∷ s))
    else if nat_eq c 33
    then (if nat_eq d 91 then with_alt true (take_alt s) else none)
    else none

abbrev pub Pieces : Type 0
Pieces = List Piece × Text

abbrev pub put_before : ℕ → Pieces → Pieces
put_before c ([], rest) = ([], c ∷ rest)
put_before c (p ∷ ps, rest) = (record p { before = c ∷ p.before } ∷ ps, rest)

abbrev pub put_link : Link → Pieces → Pieces
put_link l (ps, rest) = (record { before = []; link = l } ∷ ps, rest)

-- All matches; the fuel is the length of the text, of which a step reads one unit at least.
unfoldable pub scan : ℕ → Text → Pieces
unfolding match_link
scan zero s = ([], s)
scan (suc n) [] = ([], [])
scan (suc n) (c ∷ s) = elim (match_link (c ∷ s)) [
  | none ↦ put_before c (scan n s)
  | some (l, rest) ↦ put_link l (scan n rest)
]

-- The text that a link was read from.
abbrev pub full_match : Link → Text
full_match l =
    (if l.bang then 33 ∷ [] else []) ++ (91 ∷ (l.alt ++ (93 ∷ (40 ∷ (l.url ++ (41 ∷ []))))))

abbrev pub source : Pieces → Text
source ([], rest) = rest
source (p ∷ ps, rest) = p.before ++ (full_match p.link ++ source (ps, rest))
