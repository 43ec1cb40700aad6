-- ===== src/BotFlow/Engine/Buttons.antt =====
-- The ids of the buttons, written by `run` and read by `handleInbound`.
use lydia_bg_back.Prelude.{
  Text, codes, [], ◌∷◌, ◌++◌, Bool, true, false, ◌≡◌, ◌≢◌, refl, ap, sym, ◌∙◌, some, any,
  split_first, starts_with, nat_eq, arith,
}
use lydia_bg_back.BotFlow.Engine.{button_id, parse_button}

abbrev pub has_colon : Text → Bool
has_colon s = any (λ c. nat_eq c b':') s

split_first-append : (n o : Text) → has_colon n ≡ false → (split_first b':' (n ++ (b':' ∷ o))).0 ≡ n
unfolding split_first
split_first-append [] o h = refl
split_first-append (c ∷ n) o h = ground (arith, split_first-append n o)

split_first-rest :
    (n o : Text)
    → has_colon n ≡ false
    → (split_first b':' (n ++ (b':' ∷ o))).1 ≡ (split_first b':' o).0 ∷ (split_first b':' o).1
unfolding split_first
split_first-rest [] o h = refl
split_first-rest (c ∷ n) o h = ground (arith, split_first-rest n o)

split_first_self : (o : Text) → has_colon o ≡ false → (split_first b':' o).0 ≡ o
unfolding split_first
split_first_self [] h = refl
split_first_self (c ∷ o) h = ground (arith, split_first_self o)

has_colon-split_first : (s : Text) → has_colon (split_first b':' s).0 ≡ false
unfolding split_first
has_colon-split_first [] = refl
has_colon-split_first (c ∷ s) = ground (arith, has_colon-split_first s)

parsed_option :
    (n o : Text)
    → has_colon n ≡ false
    → (parse_button (button_id n o)).1 ≡ some (split_first b':' o).0
unfolding button_id parse_button
parsed_option n o hn = rw (split_first-rest n o hn, parse_button)

-- A button's id carries the bot's prefix, and it is read back as its node and its option exactly when
-- neither of the two has a colon.
pub parse_button-button_id :
    (n o : Text)
    → (starts_with (button_id n o) (codes "bot:") ≡ true)
      × (has_colon n ≡ false → has_colon o ≡ false → parse_button (button_id n o) ≡ (n, some o))
      × (has_colon n ≡ true → (parse_button (button_id n o)).0 ≢ n)
      × (has_colon n ≡ false → has_colon o ≡ true → (parse_button (button_id n o)).1 ≢ some o)
unfolding button_id parse_button starts_with
parse_button-button_id n o = (
  refl,
  λ hn ho. rw (split_first-append n o hn, split_first-rest n o hn, split_first_self o ho),
  λ hn e.
      let e' : (split_first b':' (n ++ (b':' ∷ o))).0 ≡ n = e in
      cc (ap has_colon e', has_colon-split_first (n ++ (b':' ∷ o)), hn),
  λ hn ho e.
      let e' : some (split_first b':' o).0 ≡ some o = sym (parsed_option n o hn) ∙ e in
      cc (e', has_colon-split_first o, ho),
)
