-- ===== src/Crm/Tasks.antt =====
-- The calls of the calendar keep the flag of open tasks of every lead.
use lydia_bg_back.Prelude.{
  true_ne_false, ℕ, Text, List, [], ◌∷◌, Bool, true, false, not, ◌&&◌, ◌||◌, ◌≡◌, ◌≢◌, refl, ap,
  sym, ◌∙◌, Option, none, some, inl, inr, any, find-All, ◌==◌, eq_iff, HttpError, not_found, ok,
  err, arith, Bool-cases, Option-cases,
}
use lydia_bg_back.Table.{
  find_row, has_row, update_row, delete_row, updated, find-update_row, has_row-update_row,
  IsKeyed-delete_row, any-delete_row,
}
use lydia_bg_back.Crm.State.{
  Lead, CalendarEvent, Db, lead_id, event_id, Outcome, refers_to, is_reference,
}
use lydia_bg_back.Crm.Calendar.{
  is_pending, set_pending, sync_lead_pending_tasks, sync_if_linked, sync_both, is_same, then_run,
  delete_event,
}
use lydia_bg_back.Crm.Consistent.{
  IsLinked, IsConsistentBut, IsConsistent, nobody, IsConsistentBut-weaken, All-IsLinked,
  All-delete_row, Settles, throw-Settles,
}

-- A call succeeds, and leaves consistent tables but for the leads with `p`.
abbrev pub Kept : (Text → Bool) → Outcome → Type 0
Kept p r = (r.0 ≡ ok tt) × IsConsistentBut p r.1

pub Kept-weaken :
    (p q : Text → Bool) (r : Outcome)
    → ((k : Text) → q k ≡ false → p k ≡ false)
    → Kept p r
    → Kept q r
Kept-weaken p q r w h = (h.0, IsConsistentBut-weaken p q r.1 w h.1)

pub Kept-Settles : (db : Db) (r : Outcome) → Kept nobody r → Settles db r
Kept-Settles db r h = (h.1, λ e q. absurd (ok_ne_err (sym h.0 ∙ q)))
  where
    ok_ne_err : {u : Unit {0}} {e : HttpError} → ok u ≢ err e
    ok_ne_err h = cc

pub then_run-Kept :
    (p q : Text → Bool) (r : Outcome) (f : Db → Outcome)
    → Kept p r
    → Kept q (f r.1)
    → Kept q (then_run r f)
then_run-Kept p q (ok u, w) f h k = k
then_run-Kept p q (err e, w) f h k = absurd (err_ne_ok h.0)
  where
    err_ne_ok : {u : Unit {0}} → err e ≢ ok u
    err_ne_ok h = cc

is_same-eq : (x y : Option Text) → is_same x y ≡ true → x ≡ y
is_same-eq none none h = refl
is_same-eq (some j) (some k) h = ap some ((eq_iff j k).0 h)
is_same-eq none (some k) h = cc
is_same-eq (some j) none h = cc

-- An event that is of no lead with `p` does not count there.
pub not_pending :
    (k : Text) (e : CalendarEvent) → refers_to k e.lead_id ≡ false → is_pending k e ≡ false
not_pending k e h = ground (arith, h)

pub any-keeps : (x y : Bool) → x ≡ false → (x || y) ≡ y
any-keeps x y h = ground arith

module _ (now : ℕ) where
  pub sync_lead_pending_tasks-Kept :
      (p : Text → Bool) (j : Text) (db : Db)
      → IsConsistentBut p db
      → has_row lead_id j db.leads ≡ true
      → Kept (λ k. p k && not (j == k)) (sync_lead_pending_tasks now j db)
  unfolding sync_lead_pending_tasks
  sync_lead_pending_tasks-Kept p j db c h = rw h (
    refl,
    record {
      keyed = c.keyed;
      linked =
          All-IsLinked db.leads after db.events
            (λ k r. has_row-update_row lead_id j k flag db.leads (λ l. refl) ∙ r) c.linked;
      named = has_row-update_row lead_id j [] flag db.leads (λ l. refl) ∙ c.named;
      synced = λ k l f q.
          at_lead k l (find_row lead_id k db.leads) refl
            (sym (find-update_row lead_id j k flag db.leads (λ m. refl)) ∙ f) q;
    },
  )
    where
      flag : Lead → Lead
      flag = set_pending now (any (is_pending j) db.events)

      after : List Lead
      after = update_row lead_id j flag db.leads

      at_lead :
          (k : Text) (l : Lead) (o : Option Lead)
          → find_row lead_id k db.leads ≡ o
          → updated lead_id j flag k o ≡ some l
          → (p k && not (j == k)) ≡ false
          → l.has_pending_tasks ≡ any (is_pending k) db.events
      at_lead k l none f g q = cc
      at_lead k l (some m) f g q = elim (Bool-cases (j == k)) [
        | inl t ↦
            let same : flag m ≡ l = ground (arith, t, g) in
            sym (ap (λ (x : Lead). x.has_pending_tasks) same)
            ∙ ap (λ x. any (is_pending x) db.events) ((eq_iff j k).0 t)
        | inr t ↦
            let same : m ≡ l = ground (arith, t, g) in
            sym (ap (λ (x : Lead). x.has_pending_tasks) same)
            ∙ c.synced k m f (ground (arith, t, q))
      ]

  pub sync_if_linked-Kept :
      (p : Text → Bool) (o : Option Text) (db : Db)
      → IsConsistentBut p db
      → is_reference lead_id o db.leads ≡ true
      → Kept (λ k. p k && not (refers_to k o)) (sync_if_linked now o db)
  unfolding sync_if_linked
  sync_if_linked-Kept p none db c h =
      (refl, IsConsistentBut-weaken p (λ k. p k && true) db (λ k q. ground (arith, q)) c)
  sync_if_linked-Kept p (some []) db c h = absurd (true_ne_false (sym h ∙ c.named))
  sync_if_linked-Kept p (some (x ∷ j)) db c h = sync_lead_pending_tasks-Kept p (x ∷ j) db c h

  sync_if_linked-reference :
      (o x : Option Text) (db : Db)
      → is_reference lead_id x db.leads ≡ true
      → is_reference lead_id x (sync_if_linked now o db).1.leads ≡ true
  unfolding sync_if_linked
  sync_if_linked-reference none x db h = h
  sync_if_linked-reference (some []) x db h = h
  sync_if_linked-reference (some (c ∷ j)) none db h = refl
  sync_if_linked-reference (some (c ∷ j)) (some k) db h =
      elim (Bool-cases (has_row lead_id (c ∷ j) db.leads)) [
        | inl t ↦ rw t (
            has_row-update_row lead_id (c ∷ j) k
              (set_pending now (any (is_pending (c ∷ j)) db.events)) db.leads (λ l. refl)
            ∙ h)
        | inr t ↦ rw t h
      ]

  pub sync_both-Kept :
      (before after : Option Text) (db : Db)
      → IsConsistentBut (λ k. refers_to k before || refers_to k after) db
      → is_reference lead_id before db.leads ≡ true
      → is_reference lead_id after db.leads ≡ true
      → Kept nobody (sync_both now before after db)
  unfolding sync_both
  sync_both-Kept before after db c h k = elim (Bool-cases (is_same before after)) [
    | inl t ↦ rw t (
        Kept-weaken (λ j. (refers_to j before || refers_to j after) && not (refers_to j before))
          nobody (sync_if_linked now before db)
          (λ j q.
            twice (refers_to j before) (refers_to j after)
              (ap (refers_to j) (is_same-eq before after t)))
          first)
    | inr t ↦ rw t (
        then_run-Kept (λ j. (refers_to j before || refers_to j after) && not (refers_to j before))
          nobody (sync_if_linked now before db) (sync_if_linked now after) first
          (Kept-weaken
            (λ j.
              ((refers_to j before || refers_to j after) && not (refers_to j before))
              && not (refers_to j after))
            nobody (sync_if_linked now after (sync_if_linked now before db).1)
            (λ j q. both (refers_to j before) (refers_to j after))
            (sync_if_linked-Kept
              (λ j. (refers_to j before || refers_to j after) && not (refers_to j before)) after
              (sync_if_linked now before db).1 first.1
              (sync_if_linked-reference before after db k))))
  ]
    where
      first :
          Kept
            (λ j. (refers_to j before || refers_to j after) && not (refers_to j before))
            (sync_if_linked now before db)
      first = sync_if_linked-Kept (λ j. refers_to j before || refers_to j after) before db c h

      twice : (a b : Bool) → a ≡ b → ((a || b) && not a) ≡ false
      twice a b e = ground (arith, e)

      both : (a b : Bool) → (((a || b) && not a) && not b) ≡ false
      both a b = ground arith

  pub delete_event-Settles :
      (id : Text) (db : Db) → IsConsistent db → Settles db (delete_event now id db)
  unfolding delete_event
  delete_event-Settles id db c = elim (Option-cases (find_row event_id id db.events)) [
    | inl t ↦ rw (delete_event, t) (throw-Settles not_found db c)
    | inr (e, t) ↦
        rw (delete_event, t)
          (Kept-Settles db (sync_if_linked now e.lead_id (without e)) (
            Kept-weaken (λ k. refers_to k e.lead_id && not (refers_to k e.lead_id)) nobody
              (sync_if_linked now e.lead_id (without e)) (λ k q. never (refers_to k e.lead_id))
              (sync_if_linked-Kept (λ k. refers_to k e.lead_id) e.lead_id (without e) (removed e t)
                (find-All (IsLinked db.leads) (λ a. event_id a == id) db.events c.linked t).0)))
  ]
    where
      without : CalendarEvent → Db
      without e = record db { events = delete_row event_id id db.events }

      never : (a : Bool) → (a && not a) ≡ false
      never a = ground arith

      removed :
          (e : CalendarEvent)
          → find_row event_id id db.events ≡ some e
          → IsConsistentBut (λ k. refers_to k e.lead_id) (without e)
      removed e t = record {
        keyed = IsKeyed-delete_row event_id id db.events c.keyed;
        linked = All-delete_row event_id (IsLinked db.leads) id db.events c.linked;
        named = c.named;
        synced = λ k l f q.
            c.synced k l f refl
            ∙ (any-delete_row event_id (is_pending k) id db.events c.keyed t
                ∙ any-keeps (is_pending k e) (any (is_pending k) (delete_row event_id id db.events))
                    (not_pending k e q));
      }
