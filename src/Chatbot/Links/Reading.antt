-- ===== src/Chatbot/Links/Reading.antt =====
-- A text that is taken apart into links loses nothing, and is read to its end.
use lydia_bg_back.Prelude.{
  some_eq, none_ne_some, ℕ, zero, suc, Text, [], ◌∷◌, ◌++◌, Bool, true, false, ◌≡◌, refl, ap, sym,
  ◌∙◌, Option, none, some, inl, inr, nat_eq, nat_eq_iff, length, length-append, ◌<◌, ◌≤◌,
  if◌then◌else◌, Option-cases, Bool-cases, arith,
}
use mathlib.Core.List.{append_assoc}
use lydia_bg_back.Chatbot.Links.{
  Link, ends_line, prepend, take_url, take_alt, with_url, with_alt, match_link, Pieces, put_before,
  put_link, scan, full_match, source,
}

prepend-some :
    (c : ℕ) (o : Option (Text × Text)) {u r : Text}
    → prepend c o ≡ some (u, r)
    → (v : Text) × ((o ≡ some (v, r)) × (c ∷ v ≡ u))
prepend-some c none e = absurd (none_ne_some e)
prepend-some c (some (v, q)) e =
    let p = some_eq e in
    (v, (ap (λ (z : Text × Text). some (v, z.1)) p, ap (λ (z : Text × Text). z.0) p))

take_url-source : (s : Text) {u r : Text} → take_url s ≡ some (u, r) → u ++ (41 ∷ r) ≡ s
unfolding take_url
take_url-source [] e = absurd (none_ne_some e)
take_url-source (c ∷ s) {u} {r} e = elim (Bool-cases (nat_eq c 41)) [
  | inl t ↦
      ap (λ (z : Text × Text). z.0 ++ (41 ∷ z.1)) (sym (some_eq (rw t at e)))
      ∙ ap (λ x. x ∷ s) (sym ((nat_eq_iff c 41).0 t))
  | inr t ↦ elim (Bool-cases (ends_line c)) [
    | inl q ↦ absurd (none_ne_some (rw (t, q) at e))
    | inr q ↦
        let (v, (f, g)) = prepend-some c (take_url s) (rw (t, q) at e) in
        ap (λ z. z ++ (41 ∷ r)) (sym g) ∙ ap (λ z. c ∷ z) (take_url-source s f)
  ]
]

take_alt-source : (s : Text) {u r : Text} → take_alt s ≡ some (u, r) → u ++ (93 ∷ (40 ∷ r)) ≡ s
unfolding take_alt
take_alt-source [] e = absurd (none_ne_some e)
take_alt-source (c ∷ []) e = absurd (none_ne_some e)
take_alt-source (c ∷ (d ∷ s)) {u} {r} e = elim (Bool-cases (nat_eq c 93)) [
  | inl t ↦ elim (Bool-cases (nat_eq d 40)) [
    | inl q ↦
        ap (λ (z : Text × Text). z.0 ++ (93 ∷ (40 ∷ z.1))) (sym (some_eq (rw (t, q) at e)))
        ∙ (ap (λ x. x ∷ (40 ∷ s)) (sym ((nat_eq_iff c 93).0 t))
            ∙ ap (λ x. c ∷ (x ∷ s)) (sym ((nat_eq_iff d 40).0 q)))
    | inr q ↦
        let (v, (f, g)) = prepend-some c (take_alt (d ∷ s)) (rw (t, q) at e) in
        ap (λ z. z ++ (93 ∷ (40 ∷ r))) (sym g) ∙ ap (λ z. c ∷ z) (take_alt-source (d ∷ s) f)
  ]
  | inr t ↦ elim (Bool-cases (ends_line c)) [
    | inl q ↦ absurd (none_ne_some (rw (t, q) at e))
    | inr q ↦
        let (v, (f, g)) = prepend-some c (take_alt (d ∷ s)) (rw (t, q) at e) in
        ap (λ z. z ++ (93 ∷ (40 ∷ r))) (sym g) ∙ ap (λ z. c ∷ z) (take_alt-source (d ∷ s) f)
  ]
]

bracketed : Link → Text → Text
bracketed l r = 91 ∷ (l.alt ++ (93 ∷ (40 ∷ (l.url ++ (41 ∷ r)))))

full_match-bracketed :
    (b : Bool) (l : Link) (r : Text)
    → l.bang ≡ b
    → full_match l ++ r ≡ (if b then 33 ∷ bracketed l r else bracketed l r)
unfolding bracketed
full_match-bracketed b l r e = ap (λ c. (if c then 33 ∷ [] else []) ++ body ++ r) e ∙ at b
  where
    body : Text
    body = 91 ∷ (l.alt ++ (93 ∷ (40 ∷ (l.url ++ (41 ∷ [])))))

    whole : body ++ r ≡ bracketed l r
    whole =
        ap (λ z. 91 ∷ z)
          (append_assoc l.alt (93 ∷ (40 ∷ (l.url ++ (41 ∷ [])))) r
            ∙ ap (λ z. l.alt ++ (93 ∷ (40 ∷ z))) (append_assoc l.url (41 ∷ []) r))

    at :
        (c : Bool)
        → (if c then 33 ∷ [] else []) ++ body ++ r
          ≡ (if c then 33 ∷ bracketed l r else bracketed l r)
    at true = ap (λ z. 33 ∷ z) whole
    at false = whole

with_alt-some :
    (b : Bool) (s : Text) {l : Link} {r : Text}
    → with_alt b (take_alt s) ≡ some (l, r)
    → (l.bang ≡ b) × (bracketed l r ≡ 91 ∷ s)
unfolding bracketed
with_alt-some b s {l} {r} e = alts (take_alt s) refl e
  where
    urls :
        (alt q : Text) (o : Option (Text × Text))
        → take_url q ≡ o
        → alt ++ (93 ∷ (40 ∷ q)) ≡ s
        → with_url b alt o ≡ some (l, r)
        → (l.bang ≡ b) × (bracketed l r ≡ 91 ∷ s)
    urls alt q none f g h = absurd (none_ne_some h)
    urls alt q (some (url, rest)) f g h =
        let p = some_eq h in
        (
          sym (ap (λ (z : Link × Text). z.0.bang) p),
          ap (λ (z : Link × Text). bracketed z.0 z.1) (sym p)
              ∙ (ap (λ z. 91 ∷ (alt ++ (93 ∷ (40 ∷ z)))) (take_url-source q f)
                  ∙ ap (λ z. 91 ∷ z) g),
        )

    alts :
        (o : Option (Text × Text))
        → take_alt s ≡ o
        → with_alt b o ≡ some (l, r)
        → (l.bang ≡ b) × (bracketed l r ≡ 91 ∷ s)
    alts none f h = absurd (none_ne_some h)
    alts (some (alt, q)) f h = urls alt q (take_url q) refl (take_alt-source s f) h

match_link-source :
    (s : Text) {l : Link} {r : Text} → match_link s ≡ some (l, r) → full_match l ++ r ≡ s
unfolding match_link
match_link-source [] e = absurd (none_ne_some e)
match_link-source (c ∷ []) e = absurd (none_ne_some e)
match_link-source (c ∷ (d ∷ s)) {l} {r} e = elim (Bool-cases (nat_eq c 91)) [
  | inl t ↦
      let (p, q) = with_alt-some false (d ∷ s) (rw t at e) in
      full_match-bracketed false l r p ∙ (q ∙ ap (λ z. z ∷ (d ∷ s)) (sym ((nat_eq_iff c 91).0 t)))
  | inr t ↦ elim (Bool-cases (nat_eq c 33)) [
    | inl u ↦ elim (Bool-cases (nat_eq d 91)) [
      | inl v ↦
          let (p, q) = with_alt-some true s (rw (t, u, v) at e) in
          full_match-bracketed true l r p
          ∙ (ap (λ z. 33 ∷ z) q
              ∙ (ap (λ z. z ∷ (91 ∷ s)) (sym ((nat_eq_iff c 33).0 u))
                  ∙ ap (λ z. c ∷ (z ∷ s)) (sym ((nat_eq_iff d 91).0 v))))
      | inr v ↦ absurd (none_ne_some (rw (t, u, v) at e))
    ]
    | inr u ↦ absurd (none_ne_some (rw (t, u) at e))
  ]
]

put_before-source : (c : ℕ) (ps : Pieces) → source (put_before c ps) ≡ c ∷ source ps
put_before-source c ([], rest) = refl
put_before-source c (p ∷ ps, rest) = refl

-- The pieces of a text and what is left of it, put together again, are the text.
pub source-scan : (n : ℕ) (s : Text) → source (scan n s) ≡ s
unfolding scan
source-scan zero s = refl
source-scan (suc n) [] = refl
source-scan (suc n) (c ∷ s) = elim (Option-cases (match_link (c ∷ s))) [
  | inl t ↦ rw (scan, t) (put_before-source c (scan n s) ∙ ap (λ z. c ∷ z) (source-scan n s))
  | inr ((l, r), t) ↦
      rw (scan, t) (ap (λ z. full_match l ++ z) (source-scan n r) ∙ match_link-source (c ∷ s) t)
]

length-match_link :
    (s : Text) {l : Link} {r : Text} → match_link s ≡ some (l, r) → length r < length s
unfolding bracketed
length-match_link s {l} {r} e =
    let whole = ap length (sym (match_link-source s e) ∙ full_match-bracketed l.bang l r refl) in
    shorter l.bang whole
  where
    tail_shorter : length r < length (bracketed l r)
    tail_shorter =
        omega (
          arith,
          length-append l.alt (93 ∷ (40 ∷ (l.url ++ (41 ∷ r)))),
          length-append l.url (41 ∷ r),
        )

    shorter :
        (b : Bool)
        → length s ≡ length (if b then 33 ∷ bracketed l r else bracketed l r)
        → length r < length s
    shorter true h = omega (arith, h, tail_shorter)
    shorter false h = omega (arith, h, tail_shorter)

-- With fuel for its length a text is read to its end: more fuel finds the same pieces.
pub scan_enough : (n : ℕ) (s : Text) → length s ≤ n → scan (suc n) s ≡ scan n s
unfolding scan
scan_enough zero [] h = refl
scan_enough zero (c ∷ s) h = absurd (omega (arith, h))
scan_enough (suc n) [] h = refl
scan_enough (suc n) (c ∷ s) h = elim (Option-cases (match_link (c ∷ s))) [
  | inl t ↦ rw (scan, t) (ap (put_before c) (scan_enough n s (omega (arith, h))))
  | inr ((l, r), t) ↦
      let shorter = length-match_link (c ∷ s) t in
      rw (scan, t) (ap (put_link l) (scan_enough n r (omega (arith, h, shorter))))
]
