-- ===== src/Repo/Accounts/Gone.antt =====
-- What is left in the tables after a calendar or an account is deleted, or a calendar is excluded from
-- synchronisation, by core/repo.
use dankcalendar.Base.{
  String, Bool, true, not, List, [], ◌∷◌, ◌==◌, string_eq, ◌≡◌, refl, sym, ap, ◌∙◌, inl, inr,
  Bool-cases, arith,
}
use dankcalendar.Repo.Store.{
  Result, EventRow, TaskRow, CalendarRow, AccountRow, SecretRow, Tables, World, M, ◌>>◌, pure,
  update, wrap_error,
}
use dankcalendar.Repo.Post.{Triple, Any, update-Triple, bind-Triple, wrap_error-Triple}
use dankcalendar.Repo.Events.{select, delete_where, in_calendar}
use dankcalendar.Repo.Tasks.{delete_tasks_where}
use dankcalendar.Repo.Calendars.{update_calendar, with_calendar_id, disable_sync}
use dankcalendar.Repo.Transactions.Whole.{begun, Whole, with_tx-Whole}
use dankcalendar.Repo.Accounts.{
  some_calendar, of_account, without_calendars, delete_calendars_where, delete_calendar,
  set_calendar_sync_disabled, delete_account_events, delete_account_secrets, delete_account_row,
  delete_account,
}

-- A computation that takes the tables from `a` to `b` if it succeeds.
abbrev Takes : {A : Type 0} → Tables → M A → Tables → Type 0
Takes a m b = Triple (λ t. t ≡ a) m (λ x t. t ≡ b) Any

update-Takes :
    {A : Type 0} (g : Tables → Result A × Tables) (a : Tables) → Takes a (update g) (g a).1
update-Takes g a =
    update-Triple (λ t. t ≡ a) (λ x t. t ≡ (g a).1) Any g (λ t x h e. ap (λ s. (g s).1) h)
      (λ t e h x. tt) (λ t text h. tt)

then-Takes :
    {A B : Type 0} (a b c : Tables) (m : M A) (k : M B)
    → Takes a m b
    → Takes b k c
    → Takes a (m >> k) c
then-Takes a b c m k h l =
    bind-Triple (λ t. t ≡ a) (λ x t. t ≡ b) Any (λ x t. t ≡ c) m (λ x. k) h (λ x. l)

wrap_error-Takes :
    {A : Type 0} (text : String) (a b : Tables) (m : M A)
    → Takes a m b
    → Takes a (wrap_error text m) b
wrap_error-Takes text a b m h = wrap_error-Triple (λ t. t ≡ a) (λ x t. t ≡ b) Any text m h

module _ {ℓ} {A : Type ℓ} where
  -- A second selection that keeps what the first one keeps.
  select-select :
      (p q : A → Bool) (xs : List A)
      → ((x : A) → p x ≡ true → q x ≡ true)
      → select q (select p xs) ≡ select p xs
  unfolding select
  select-select p q [] h = refl
  select-select p q (x ∷ xs) h = elim (Bool-cases (p x)) [
    | inl e ↦ rw e (rw (h x e) (ap (λ ys. x ∷ ys) (select-select p q xs h)))
    | inr e ↦ rw e (select-select p q xs h)
  ]

  select-all : (q : A → Bool) (xs : List A) → ((x : A) → q x ≡ true) → select q xs ≡ xs
  unfolding select
  select-all q [] h = refl
  select-all q (x ∷ xs) h = rw (h x) (ap (λ ys. x ∷ ys) (select-all q xs h))

some_calendar-with_id :
    (id : String) (cs : List CalendarRow) (c : String)
    → not (c == id) ≡ true
    → not (some_calendar (with_calendar_id id) cs c) ≡ true
unfolding some_calendar
some_calendar-with_id id [] c h = refl
some_calendar-with_id id (x ∷ cs) c h = ground (arith, some_calendar-with_id id cs c h)

some_calendar-gone :
    (p : CalendarRow → Bool) (cs : List CalendarRow) (c : String)
    → not (some_calendar p (select (λ x. not (p x)) cs) c) ≡ true
unfolding some_calendar select
some_calendar-gone p [] c = refl
some_calendar-gone p (x ∷ cs) c = elim (Bool-cases (p x)) [
  | inl e ↦ rw e (some_calendar-gone p cs c)
  | inr e ↦ let rest = some_calendar-gone p cs c in rw e (ground arith)
]

-- The tables without a calendar, and without an account.
abbrev pub calendar_gone : String → Tables → Tables
calendar_gone id t = record t {
  events = select (λ (r : EventRow). not (in_calendar id r)) t.events;
  tasks = select (λ (r : TaskRow). not (r.calendar_id == id)) t.tasks;
  calendars = select (λ (c : CalendarRow). not (with_calendar_id id c)) t.calendars;
}

abbrev pub account_gone : String → Tables → Tables
account_gone id t = record t {
  events =
      select (λ (r : EventRow). not (some_calendar (of_account id) t.calendars r.calendar_id))
        t.events;
  tasks =
      select (λ (r : TaskRow). not (some_calendar (of_account id) t.calendars r.calendar_id))
        t.tasks;
  calendars = select (λ (c : CalendarRow). not (of_account id c)) t.calendars;
  accounts = select (λ (a : AccountRow). not (a.id == id)) t.accounts;
  secrets = select (λ (s : SecretRow). not (s.account_id == id)) t.secrets;
}

module _ (id : String) where
  rows_gone : Tables → Tables
  rows_gone t = record t {
    events = select (λ (r : EventRow). not (in_calendar id r)) t.events;
    tasks = select (λ (r : TaskRow). not (r.calendar_id == id)) t.tasks;
  }

  calendar_gone_lem :
      (t : Tables) → without_calendars (with_calendar_id id) (rows_gone t) ≡ calendar_gone id t
  unfolding without_calendars rows_gone
  calendar_gone_lem t = λ i. record (calendar_gone id t) {
    events =
        select-select (λ (r : EventRow). not (in_calendar id r))
          (λ (r : EventRow). not (some_calendar (with_calendar_id id) t.calendars r.calendar_id))
          t.events (λ r. some_calendar-with_id id t.calendars r.calendar_id) i;
    tasks =
        select-select (λ (r : TaskRow). not (r.calendar_id == id))
          (λ (r : TaskRow). not (some_calendar (with_calendar_id id) t.calendars r.calendar_id))
          t.tasks (λ r. some_calendar-with_id id t.calendars r.calendar_id) i;
  }

  rows-Takes :
      {A : Type 0} (k : M A) (t b : Tables)
      → Takes (rows_gone t) k b
      → Takes t
          (delete_where (in_calendar id)
            >> (delete_tasks_where (λ (r : TaskRow). r.calendar_id == id) >> k))
          b
  unfolding delete_where delete_tasks_where rows_gone
  rows-Takes k t b h =
      then-Takes t _ b _ _ (update-Takes _ t)
        (then-Takes _ (rows_gone t) b _ k (update-Takes _ _) h)

  pub delete_calendar-Whole :
      (w : World) → Whole (begun w) (calendar_gone id (begun w)) (delete_calendar id w)
  unfolding delete_calendar delete_calendars_where
  delete_calendar-Whole =
      with_tx-Whole _ (calendar_gone id)
        (λ t. rw (sym (calendar_gone_lem t)) (rows-Takes _ t _ (update-Takes _ (rows_gone t))))

  pub disable_sync-Whole :
      (w : World)
      → Whole (begun w) (disable_sync id (begun w)) (set_calendar_sync_disabled id true w)
  unfolding set_calendar_sync_disabled update_calendar disable_sync rows_gone
  disable_sync-Whole = with_tx-Whole _ (disable_sync id) (λ t. rows-Takes _ t _ (
      then-Takes (rows_gone t) (disable_sync id t) (disable_sync id t) _ (pure tt)
        (update-Takes _ (rows_gone t)) (λ w c h. (c, h))))

  events_gone : Tables → Tables
  events_gone t = record t {
    events =
        select (λ (r : EventRow). not (some_calendar (of_account id) t.calendars r.calendar_id))
          t.events;
  }

  secrets_gone : Tables → Tables
  secrets_gone t = record t {
    secrets = select (λ (s : SecretRow). not (s.account_id == id)) t.secrets;
  }

  account_row_gone : Tables → Tables
  account_row_gone t = record (without_calendars (of_account id) t) {
    secrets = select (λ (s : SecretRow). not (s.account_id == id)) t.secrets;
    accounts = select (λ (a : AccountRow). not (a.id == id)) t.accounts;
  }

  account_gone_lem :
      (t : Tables)
      → account_row_gone (secrets_gone (without_calendars (of_account id) (events_gone t)))
        ≡ account_gone id t
  unfolding without_calendars events_gone secrets_gone account_row_gone
  account_gone_lem t =
      let kept : List CalendarRow =
        select (λ (c : CalendarRow). not (of_account id c)) t.calendars in
      λ i. record (account_gone id t) {
        events =
            (select-all (λ (r : EventRow). not (some_calendar (of_account id) kept r.calendar_id)) _
                  (λ r. some_calendar-gone (of_account id) t.calendars r.calendar_id)
                ∙ select-select
                    (λ (r : EventRow).
                      not (some_calendar (of_account id) t.calendars r.calendar_id))
                    (λ (r : EventRow).
                      not (some_calendar (of_account id) t.calendars r.calendar_id))
                    t.events (λ r h. h))
              i;
        tasks =
            select-all (λ (r : TaskRow). not (some_calendar (of_account id) kept r.calendar_id))
              (select
                (λ (r : TaskRow). not (some_calendar (of_account id) t.calendars r.calendar_id))
                t.tasks)
              (λ r. some_calendar-gone (of_account id) t.calendars r.calendar_id) i;
        calendars =
            select-select (λ (c : CalendarRow). not (of_account id c))
              (λ (c : CalendarRow). not (of_account id c)) t.calendars (λ c h. h) i;
        secrets =
            select-select (λ (s : SecretRow). not (s.account_id == id))
              (λ (s : SecretRow). not (s.account_id == id)) t.secrets (λ s h. h) i;
      }

  pub delete_account-Whole :
      (w : World) → Whole (begun w) (account_gone id (begun w)) (delete_account id w)
  unfolding delete_account delete_calendars_where delete_account_events delete_account_secrets
      delete_account_row events_gone secrets_gone account_row_gone
  delete_account-Whole = with_tx-Whole _ (account_gone id) (λ t. rw (sym (account_gone_lem t)) (
      then-Takes t (events_gone t) _ _ _ (wrap_error-Takes _ t _ _ (update-Takes _ t)) (
        then-Takes _ (without_calendars (of_account id) (events_gone t)) _ _ _
          (wrap_error-Takes _ _ _ _ (update-Takes _ _))
          (then-Takes _ (secrets_gone (without_calendars (of_account id) (events_gone t))) _ _ _
            (wrap_error-Takes _ _ _ _ (update-Takes _ _))
            (wrap_error-Takes _ _ _ _ (update-Takes _ _))))))

-- Deleting a calendar, excluding it from synchronisation, and deleting an account happen as a whole or
-- not at all, whichever of the statements fails: either the tables are those that the transaction found,
-- and the call fails, or exactly the events, tasks and calendars, and for an account its secrets and its
-- row, are gone; a calendar that is excluded stays, marked so and without its token.
pub deletions_atomic :
    (id : String) (w : World)
    → Whole (begun w) (calendar_gone id (begun w)) (delete_calendar id w)
      × Whole (begun w) (disable_sync id (begun w)) (set_calendar_sync_disabled id true w)
      × Whole (begun w) (account_gone id (begun w)) (delete_account id w)
deletions_atomic id w =
    (delete_calendar-Whole id w, disable_sync-Whole id w, delete_account-Whole id w)
