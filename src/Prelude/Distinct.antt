-- ===== src/Prelude/Distinct.antt =====
-- Lists of texts without repetition.
use mathlib.Core.Path.{◌≡◌, refl, subst}
use mathlib.Core.Logic.{inl, inr}
use mathlib.Core.Bool.{true, false, ◌||◌}
use mathlib.Core.List.{List, [], ◌∷◌}
use native.Mathlib.Omega.{arith}
use lydia_bg_back.Prelude.Tests.{Bool-cases}
use lydia_bg_back.Prelude.Lists.{push, All}
use lydia_bg_back.Prelude.Strings.{Text, ◌==◌, eq_iff, contains}

abbrev pub IsDistinct : List Text → Type 0
IsDistinct [] = Unit
IsDistinct (k ∷ ks) = (contains k ks ≡ false) × IsDistinct ks

pub contains-push :
    (k : Text) (xs : List Text) (x : Text) → contains k (push xs x) ≡ (contains k xs || x == k)
unfolding push contains
contains-push k [] x = ground arith
contains-push k (y ∷ xs) x = ground (arith, contains-push k xs x)

pub IsDistinct-push :
    (xs : List Text) (x : Text) → IsDistinct xs → contains x xs ≡ false → IsDistinct (push xs x)
unfolding push contains
IsDistinct-push [] x d h = (refl, tt)
IsDistinct-push (y ∷ xs) x d h =
    (unfold push in rest (contains-push y xs x), IsDistinct-push xs x d.1 (ground arith))
  where
    rest : contains y (push xs x) ≡ (contains y xs || x == y) → contains y (push xs x) ≡ false
    rest e = ground (arith, e, d.0, eq_iff x y, eq_iff y x)

-- What all elements of a list have, one that it contains has.
pub All-contains :
    (P : Text → Type 0) (ns : List Text) (n : Text) → contains n ns ≡ true → All P ns → P n
unfolding contains
All-contains P [] n c h = cc
All-contains P (x ∷ ns) n c h = elim (Bool-cases (x == n)) [
  | inl t ↦ subst P ((eq_iff x n).0 t) h.0
  | inr t ↦ All-contains P ns n (ground arith) h.1
]
