-- ===== src/Table.antt =====
-- The database tables, as lists of rows with a text for a key: what Prisma's `findUnique`, `update`,
-- `delete` and `create` do to the row of a key, and the laws by which the other modules read them.
use lydia_bg_back.Prelude.{
  Text, List, [], ◌∷◌, Bool, true, false, ◌||◌, ◌≡◌, refl, ap, Option, none, some, inl, inr, any,
  sym, subst, ◌∙◌, find, push, ◌==◌, eq_iff, if◌then◌else◌, arith, Bool-cases,
}

module _ {A : Type 0} (key : A → Text) where
  abbrev pub find_row : Text → List A → Option A
  find_row k rows = find (λ a. key a == k) rows

  abbrev pub has_row : Text → List A → Bool
  has_row k rows = any (λ a. key a == k) rows

  unfoldable pub update_row : Text → (A → A) → List A → List A
  update_row k f [] = []
  update_row k f (a ∷ rows) = (if key a == k then f a else a) ∷ update_row k f rows

  unfoldable pub delete_row : Text → List A → List A
  delete_row k [] = []
  delete_row k (a ∷ rows) = let rest = delete_row k rows in if key a == k then rest else a ∷ rest

  abbrev pub updated : Text → (A → A) → Text → Option A → Option A
  updated k f j none = none
  updated k f j (some a) = some (if k == j then f a else a)

  pub find-update_row :
      (k j : Text) (f : A → A) (rows : List A)
      → ((a : A) → key (f a) ≡ key a)
      → find_row j (update_row k f rows) ≡ updated k f j (find_row j rows)
  unfolding update_row
  find-update_row k j f [] same = refl
  find-update_row k j f (a ∷ rows) same =
      let kept : (key (f a) == j) ≡ (key a == j) = ap (λ c. c == j) (same a) in
      elim (Bool-cases (key a == j)) [
        | inl t ↦ elim (Bool-cases (key a == k)) [
          | inl u ↦ ground (arith, t, u, kept, eq_iff (key a) j, eq_iff (key a) k, eq_iff k j)
          | inr u ↦ ground (arith, t, u, kept, eq_iff (key a) j, eq_iff (key a) k, eq_iff k j)
        ]
        | inr t ↦ ground (arith, t, kept, find-update_row k j f rows same)
      ]

  pub find-delete_row :
      (k j : Text) (rows : List A)
      → find_row j (delete_row k rows) ≡ (if k == j then none else find_row j rows)
  unfolding delete_row
  find-delete_row k j [] = ground arith
  find-delete_row k j (a ∷ rows) =
      ground (arith, find-delete_row k j rows, eq_iff (key a) j, eq_iff (key a) k, eq_iff k j)

  abbrev pub or_new : Text → A → Option A → Option A
  or_new j a none = if key a == j then some a else none
  or_new j a (some b) = some b

  pub find-push_row :
      (j : Text) (a : A) (rows : List A) → find_row j (push rows a) ≡ or_new j a (find_row j rows)
  unfolding push
  find-push_row j a [] = refl
  find-push_row j a (b ∷ rows) = ground (arith, find-push_row j a rows)

  pub has_row-find :
      (k : Text) (rows : List A) {a : A} → find_row k rows ≡ some a → has_row k rows ≡ true
  has_row-find k [] e = cc
  has_row-find k (b ∷ rows) e = elim (Bool-cases (key b == k)) [
    | inl t ↦ ground (arith, t)
    | inr t ↦ ground (arith, has_row-find k rows (rw t at e))
  ]

  pub find-has_row-false :
      (k : Text) (rows : List A) → has_row k rows ≡ false → find_row k rows ≡ none
  find-has_row-false k [] h = refl
  find-has_row-false k (b ∷ rows) h = ground (arith, find-has_row-false k rows)

  pub key-find : (k : Text) (rows : List A) {a : A} → find_row k rows ≡ some a → key a ≡ k
  key-find k [] e = cc
  key-find k (b ∷ rows) {a} e = elim (Bool-cases (key b == k)) [
    | inl t ↦ let same : b ≡ a = ground (arith, t, e) in rw (← same) ((eq_iff (key b) k).0 t)
    | inr t ↦ key-find k rows (rw t at e)
  ]

  update_row-absent :
      (k : Text) (f : A → A) (rows : List A) → has_row k rows ≡ false → update_row k f rows ≡ rows
  unfolding update_row
  update_row-absent k f [] h = refl
  update_row-absent k f (a ∷ rows) h = ground (arith, update_row-absent k f rows)

  delete_row-absent : (k : Text) (rows : List A) → has_row k rows ≡ false → delete_row k rows ≡ rows
  unfolding delete_row
  delete_row-absent k [] h = refl
  delete_row-absent k (a ∷ rows) h = ground (arith, delete_row-absent k rows)

  pub has_row-delete_row :
      (k j : Text) (rows : List A)
      → has_row j (delete_row k rows) ≡ (if k == j then false else has_row j rows)
  unfolding delete_row
  has_row-delete_row k j [] = ground arith
  has_row-delete_row k j (a ∷ rows) =
      ground (arith, has_row-delete_row k j rows, eq_iff (key a) j, eq_iff (key a) k, eq_iff k j)

  pub has_row-update_row :
      (k j : Text) (f : A → A) (rows : List A)
      → ((a : A) → key (f a) ≡ key a)
      → has_row j (update_row k f rows) ≡ has_row j rows
  unfolding update_row
  has_row-update_row k j f [] same = refl
  has_row-update_row k j f (a ∷ rows) same =
      let kept : (key (f a) == j) ≡ (key a == j) = ap (λ c. c == j) (same a) in
      ground (arith, kept, has_row-update_row k j f rows same)

  pub has_row-push_row :
      (j : Text) (a : A) (rows : List A) → has_row j (push rows a) ≡ (has_row j rows || key a == j)
  unfolding push
  has_row-push_row j a [] = ground arith
  has_row-push_row j a (b ∷ rows) = ground (arith, has_row-push_row j a rows)

  abbrev pub IsKeyed : List A → Type 0
  IsKeyed [] = Unit
  IsKeyed (a ∷ rows) = (has_row (key a) rows ≡ false) × IsKeyed rows

  pub IsKeyed-push :
      (rows : List A) (a : A) → IsKeyed rows → has_row (key a) rows ≡ false → IsKeyed (push rows a)
  unfolding push
  IsKeyed-push [] a d h = (refl, tt)
  IsKeyed-push (b ∷ rows) a d h = (
    let e : (has_row (key b) (push rows a) ≡ (has_row (key b) rows || key a == key b)) =
          has_row-push_row (key b) a rows in
        ground (arith, e, d.0, eq_iff (key a) (key b), eq_iff (key b) (key a)),
    IsKeyed-push rows a d.1 (ground arith),
  )

  pub IsKeyed-update_row :
      (k : Text) (f : A → A) (rows : List A)
      → ((a : A) → key (f a) ≡ key a)
      → IsKeyed rows
      → IsKeyed (update_row k f rows)
  unfolding update_row
  IsKeyed-update_row k f [] same d = tt
  IsKeyed-update_row k f (a ∷ rows) same d =
      let rest = IsKeyed-update_row k f rows same d.1 in
      let e = has_row-update_row k (key a) f rows same ∙ d.0 in
      elim (Bool-cases (key a == k)) [
        | inl t ↦ rw t (subst (λ j. has_row j (update_row k f rows) ≡ false) (sym (same a)) e, rest)
        | inr t ↦ rw t (e, rest)
      ]

  pub IsKeyed-delete_row : (k : Text) (rows : List A) → IsKeyed rows → IsKeyed (delete_row k rows)
  unfolding delete_row
  IsKeyed-delete_row k [] d = tt
  IsKeyed-delete_row k (a ∷ rows) d =
      let rest = IsKeyed-delete_row k rows d.1 in
      elim (Bool-cases (key a == k)) [
        | inl t ↦ rw t rest
        | inr t ↦ rw t (ground (arith, has_row-delete_row k (key a) rows, d.0), rest)
      ]

  -- A test on a keyed table is one on the row of a key and one on the other rows.
  pub any-delete_row :
      (p : A → Bool) (k : Text) (rows : List A) {a : A}
      → IsKeyed rows
      → find_row k rows ≡ some a
      → any p rows ≡ (p a || any p (delete_row k rows))
  unfolding delete_row
  any-delete_row p k [] d e = cc
  any-delete_row p k (b ∷ rows) {a} d e = elim (Bool-cases (key b == k)) [
    | inl t ↦
        let same : b ≡ a = ground (arith, t, e) in
        let absent : has_row k rows ≡ false =
          subst (λ j. has_row j rows ≡ false) ((eq_iff (key b) k).0 t) d.0 in
        rw (t, delete_row-absent k rows absent, same) refl
    | inr t ↦ ground (arith, t, any-delete_row p k rows {a = a} d.1 (rw t at e))
  ]

  pub any-update_row :
      (p : A → Bool) (k : Text) (f : A → A) (rows : List A) {a : A}
      → IsKeyed rows
      → find_row k rows ≡ some a
      → any p (update_row k f rows) ≡ (p (f a) || any p (delete_row k rows))
  unfolding delete_row update_row
  any-update_row p k f [] d e = cc
  any-update_row p k f (b ∷ rows) {a} d e = elim (Bool-cases (key b == k)) [
    | inl t ↦
        let same : b ≡ a = ground (arith, t, e) in
        let absent : has_row k rows ≡ false =
          subst (λ j. has_row j rows ≡ false) ((eq_iff (key b) k).0 t) d.0 in
        rw (t, delete_row-absent k rows absent, update_row-absent k f rows absent, same) refl
    | inr t ↦ ground (arith, t, any-update_row p k f rows {a = a} d.1 (rw t at e))
  ]
