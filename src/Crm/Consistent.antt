-- ===== src/Crm/Consistent.antt =====
-- The well-formedness of the CRM's tables, and what the writes to one table keep of it.
use lydia_bg_back.Prelude.{
  Text, List, [], ◌∷◌, Bool, true, false, ◌≡◌, refl, ap, sym, subst, Option, none, some, inl, inr,
  any, All, All-map, ◌↔◌, ◌==◌, eq_iff, eq_refl, if◌then◌else◌, HttpError, err, arith, Bool-cases,
}
use lydia_bg_back.Table.{find_row, has_row, update_row, delete_row, IsKeyed}
use lydia_bg_back.Crm.State.{
  Lead, CalendarEvent, Db, lead_id, event_id, refers_to, is_reference, Outcome, return_ok, throw,
}
use lydia_bg_back.Crm.Calendar.{is_pending}

-- The flag of every lead says whether a task of its is open, but for the leads with `p`.
abbrev pub IsSynced : (Text → Bool) → List Lead → List CalendarEvent → Type 0
IsSynced p leads events =
    (k : Text) (l : Lead)
    → find_row lead_id k leads ≡ some l
    → p k ≡ false
    → l.has_pending_tasks ≡ any (is_pending k) events

abbrev pub IsLinked : List Lead → CalendarEvent → Type 0
IsLinked leads e = is_reference lead_id e.lead_id leads ≡ true

-- The events have ids of their own and refer to leads, no lead's id is empty, and the flags are right.
pub record IsConsistentBut (p : Text → Bool) (db : Db) : Type 0 where
  pub keyed : IsKeyed event_id db.events
  pub linked : All (IsLinked db.leads) db.events
  pub named : has_row lead_id [] db.leads ≡ false
  pub synced : IsSynced p db.leads db.events

abbrev pub nobody : Text → Bool
nobody k = false

abbrev pub IsConsistent : Db → Type 0
IsConsistent db = IsConsistentBut nobody db

pub IsConsistentBut-weaken :
    (p q : Text → Bool) (db : Db)
    → ((k : Text) → q k ≡ false → p k ≡ false)
    → IsConsistentBut p db
    → IsConsistentBut q db
IsConsistentBut-weaken p q db w c = record {
  keyed = c.keyed;
  linked = c.linked;
  named = c.named;
  synced = λ k l f h. c.synced k l f (w k h);
}

pub All-IsLinked :
    (ls ms : List Lead) (es : List CalendarEvent)
    → ((k : Text) → has_row lead_id k ls ≡ true → has_row lead_id k ms ≡ true)
    → All (IsLinked ls) es
    → All (IsLinked ms) es
All-IsLinked ls ms es w h = All-map (IsLinked ls) (IsLinked ms) (λ e. link e.lead_id) es h
  where
    link : (o : Option Text) → is_reference lead_id o ls ≡ true → is_reference lead_id o ms ≡ true
    link none r = refl
    link (some k) r = w k r

pub refers_to_iff : (k : Text) (o : Option Text) → (refers_to k o ≡ true) ↔ (o ≡ some k)
refers_to_iff k o = (known o, λ h. subst (λ x. refers_to k x ≡ true) (sym h) (eq_refl k))
  where
    known : (x : Option Text) → refers_to k x ≡ true → x ≡ some k
    known none h = cc
    known (some j) h = ap some ((eq_iff j k).0 h)

-- No event is one of a lead that does not exist.
pub any-is_pending_none :
    (k : Text) (ls : List Lead) (es : List CalendarEvent)
    → All (IsLinked ls) es
    → has_row lead_id k ls ≡ false
    → any (is_pending k) es ≡ false
any-is_pending_none k ls [] h a = refl
any-is_pending_none k ls (e ∷ es) h a =
    ground (arith, stranger e.lead_id h.0, any-is_pending_none k ls es h.1 a)
  where
    stranger : (o : Option Text) → is_reference lead_id o ls ≡ true → refers_to k o ≡ false
    stranger none r = refl
    stranger (some j) r = elim (Bool-cases (j == k)) [
      | inl t ↦ let j_is : j ≡ k = (eq_iff j k).0 t in cc
      | inr t ↦ t
    ]

pub All-update_row :
    {A : Type 0} (key : A → Text) (P : A → Type 0) (k : Text) (f : A → A) (rows : List A)
    → ((a : A) → P a → P (f a))
    → All P rows
    → All P (update_row key k f rows)
unfolding update_row
All-update_row key P k f [] w h = tt
All-update_row key P k f (a ∷ rows) w h =
    let rest = All-update_row key P k f rows w h.1 in
    elim (Bool-cases (key a == k)) [ inl t ↦ rw t (w a h.0, rest) | inr t ↦ rw t (h.0, rest) ]

pub All-delete_row :
    {A : Type 0} (key : A → Text) (P : A → Type 0) (k : Text) (rows : List A)
    → All P rows
    → All P (delete_row key k rows)
unfolding delete_row
All-delete_row key P k [] h = tt
All-delete_row key P k (a ∷ rows) h =
    let rest = All-delete_row key P k rows h.1 in
    elim (Bool-cases (key a == k)) [ inl t ↦ rw t rest | inr t ↦ rw t (h.0, rest) ]

-- A call leaves consistent tables, and those that it found if it throws.
abbrev pub Settles : Db → Outcome → Type 0
Settles db r = IsConsistent r.1 × ((e : HttpError) → r.0 ≡ err e → r.1 ≡ db)

pub throw-Settles : (e : HttpError) (db : Db) → IsConsistent db → Settles db (throw e db)
throw-Settles e db c = (c, λ d h. refl)

pub return_ok-Settles : (db w : Db) → IsConsistent w → Settles db (return_ok w)
return_ok-Settles db w c = (c, λ d h. cc)

-- `if (b) throw`
pub guard-Settles :
    (b : Bool) (e : HttpError) (db : Db) (r : Outcome)
    → IsConsistent db
    → Settles db r
    → Settles db (if b then throw e db else r)
guard-Settles true e db r c h = throw-Settles e db c
guard-Settles false e db r c h = h
