-- ===== src/Repo/Accounts/Linked.antt =====
-- The edges between the tables of core/repo: no row is left without the row that it belongs to.
use mathlib.Core.List.Memᴰ
use dankcalendar.Base.{
  String, Bool, true, not, List, [], ◌∷◌, Memᴰ, ◌==◌, string_eq, ◌≡◌, refl, sym, ap, ◌∙◌, subst,
  inl, inr, Bool-cases, arith,
}
use dankcalendar.Repo.Store.{
  Result, ok, err, EventRow, TaskRow, CalendarRow, AccountRow, SecretRow, Tables, World,
}
use dankcalendar.Repo.Events.{select, in_calendar}
use dankcalendar.Repo.Events.Members.{Memᴰ-select, Memᴰ-of_select}
use dankcalendar.Repo.Calendars.{with_calendar_id, disable_sync, update_calendars}
use dankcalendar.Repo.Transactions.Whole.{begun, Whole}
use dankcalendar.Repo.Accounts.{
  some_calendar, of_account, delete_calendar, set_calendar_sync_disabled, delete_account,
}
use dankcalendar.Repo.Accounts.Gone.{
  calendar_gone, account_gone, delete_calendar-Whole, disable_sync-Whole, delete_account-Whole,
}

-- A calendar, or an account, with an identifier.
abbrev HasCalendar : List CalendarRow → String → Type 0
HasCalendar cs id = (c : CalendarRow) × Memᴰ c cs × (c.id ≡ id)

abbrev HasAccount : List AccountRow → String → Type 0
HasAccount accounts id = (a : AccountRow) × Memᴰ a accounts × (a.id ≡ id)

pub record Linked (t : Tables) : Type 0 where
  pub of_event : (r : EventRow) → Memᴰ r t.events → HasCalendar t.calendars r.calendar_id
  pub of_task : (r : TaskRow) → Memᴰ r t.tasks → HasCalendar t.calendars r.calendar_id
  pub of_calendar : (c : CalendarRow) → Memᴰ c t.calendars → HasAccount t.accounts c.account_id
  pub of_secret : (s : SecretRow) → Memᴰ s t.secrets → HasAccount t.accounts s.account_id

HasCalendar-kept :
    (p : CalendarRow → Bool) (cs : List CalendarRow) (id : String)
    → HasCalendar cs id
    → ((c : CalendarRow) → Memᴰ c cs → c.id ≡ id → p c ≡ true)
    → HasCalendar (select p cs) id
HasCalendar-kept p cs id (c, m, e) h = (c, Memᴰ-select p (h c m e) m, e)

some_calendar-Memᴰ :
    (p : CalendarRow → Bool) (cs : List CalendarRow) (c : CalendarRow)
    → Memᴰ c cs
    → p c ≡ true
    → some_calendar p cs c.id ≡ true
unfolding some_calendar
some_calendar-Memᴰ p [] c m h = absurd (Memᴰ.not-nil m)
some_calendar-Memᴰ p (x ∷ cs) c m h = elim (Memᴰ.cases_cons m) [
  | inl e ↦ ground (arith, e, ap p e)
  | inr k ↦ ground (arith, some_calendar-Memᴰ p cs c k h)
]

-- A calendar of a row that stays belongs to another account.
other_account :
    (id : String) (cs : List CalendarRow) (calendar_id : String)
    → not (some_calendar (of_account id) cs calendar_id) ≡ true
    → (c : CalendarRow) → Memᴰ c cs
    → c.id ≡ calendar_id
    → not (of_account id c) ≡ true
other_account id cs calendar_id h c m e = elim (Bool-cases (of_account id c)) [
  | inl b ↦
      let k : some_calendar (of_account id) cs calendar_id ≡ true =
        ap (some_calendar (of_account id) cs) (sym e)
        ∙ some_calendar-Memᴰ (of_account id) cs c m b in
      absurd (ground (arith, h, k))
  | inr b ↦ ground arith
]

HasAccount-kept :
    (id : String) (accounts : List AccountRow) (other : String)
    → not (other == id) ≡ true
    → HasAccount accounts other
    → HasAccount (select (λ (a : AccountRow). not (a.id == id)) accounts) other
HasAccount-kept id accounts other h (a, m, e) =
    (a, Memᴰ-select (λ (a : AccountRow). not (a.id == id)) (ap (λ x. not (x == id)) e ∙ h) m, e)

module _ (id : String) (t : Tables) (l : Linked t) where
  account_gone-Linked : Linked (account_gone id t)
  account_gone-Linked = record {
    of_event = λ r m.
        let (k, h) =
          Memᴰ-of_select
            (λ (r : EventRow). not (some_calendar (of_account id) t.calendars r.calendar_id))
            t.events m in
        HasCalendar-kept (λ (c : CalendarRow). not (of_account id c)) t.calendars r.calendar_id
          (l.of_event r k) (other_account id t.calendars r.calendar_id h);
    of_task = λ r m.
        let (k, h) =
          Memᴰ-of_select
            (λ (r : TaskRow). not (some_calendar (of_account id) t.calendars r.calendar_id)) t.tasks
            m in
        HasCalendar-kept (λ (c : CalendarRow). not (of_account id c)) t.calendars r.calendar_id
          (l.of_task r k) (other_account id t.calendars r.calendar_id h);
    of_calendar = λ c m.
        let (k, h) = Memᴰ-of_select (λ (c : CalendarRow). not (of_account id c)) t.calendars m in
        HasAccount-kept id t.accounts c.account_id h (l.of_calendar c k);
    of_secret = λ s m.
        let (k, h) = Memᴰ-of_select (λ (s : SecretRow). not (s.account_id == id)) t.secrets m in
        HasAccount-kept id t.accounts s.account_id h (l.of_secret s k);
  }

  calendar_gone-Linked : Linked (calendar_gone id t)
  calendar_gone-Linked = record {
    of_event = λ r m.
        let (k, h) = Memᴰ-of_select (λ (r : EventRow). not (in_calendar id r)) t.events m in
        HasCalendar-kept (λ (c : CalendarRow). not (with_calendar_id id c)) t.calendars
          r.calendar_id (l.of_event r k) (λ c i e. ap (λ x. not (x == id)) e ∙ h);
    of_task = λ r m.
        let (k, h) = Memᴰ-of_select (λ (r : TaskRow). not (r.calendar_id == id)) t.tasks m in
        HasCalendar-kept (λ (c : CalendarRow). not (with_calendar_id id c)) t.calendars
          r.calendar_id (l.of_task r k) (λ c i e. ap (λ x. not (x == id)) e ∙ h);
    of_calendar = λ c m.
        let (k, h) =
          Memᴰ-of_select (λ (c : CalendarRow). not (with_calendar_id id c)) t.calendars m in
        l.of_calendar c k;
    of_secret = l.of_secret;
  }

abbrev off : CalendarRow → CalendarRow
off c = record c { sync_disabled = true; sync_token = "" }

HasCalendar-off :
    (id : String) (cs : List CalendarRow) (x : String) (c : CalendarRow)
    → Memᴰ c cs
    → c.id ≡ x
    → HasCalendar (update_calendars (with_calendar_id id) off cs) x
unfolding update_calendars
HasCalendar-off id [] x c m e = absurd (Memᴰ.not-nil m)
HasCalendar-off id (y ∷ cs) x c m e = elim (Memᴰ.cases_cons m) [
  | inl q ↦ elim (Bool-cases (with_calendar_id id y)) [
    | inl b ↦ rw b (off y, Memᴰ.head refl, ap (λ z. z.id) (sym q) ∙ e)
    | inr b ↦ rw b (y, Memᴰ.head refl, ap (λ z. z.id) (sym q) ∙ e)
  ]
  | inr k ↦ let (d, i, f) = HasCalendar-off id cs x c k e in (d, Memᴰ.tail i, f)
]

of_update :
    (id : String) (cs : List CalendarRow) (c : CalendarRow)
    → Memᴰ c (update_calendars (with_calendar_id id) off cs)
    → (d : CalendarRow) × Memᴰ d cs × (d.account_id ≡ c.account_id)
unfolding update_calendars
of_update id [] c m = absurd (Memᴰ.not-nil m)
of_update id (y ∷ cs) c m = elim (Memᴰ.cases_cons m) [
  | inl q ↦ elim (Bool-cases (with_calendar_id id y)) [
    | inl b ↦ (y, Memᴰ.head refl, sym (ap (λ z. z.account_id) (rw b at q)))
    | inr b ↦ (y, Memᴰ.head refl, sym (ap (λ z. z.account_id) (rw b at q)))
  ]
  | inr k ↦ let (d, i, f) = of_update id cs c k in (d, Memᴰ.tail i, f)
]

module _ (id : String) (t : Tables) (l : Linked t) where
  disable_sync-Linked : Linked (disable_sync id t)
  unfolding disable_sync
  disable_sync-Linked = record {
    of_event = λ r m.
        let (k, h) = Memᴰ-of_select (λ (r : EventRow). not (in_calendar id r)) t.events m in
        let (c, i, e) = l.of_event r k in HasCalendar-off id t.calendars r.calendar_id c i e;
    of_task = λ r m.
        let (k, h) = Memᴰ-of_select (λ (r : TaskRow). not (r.calendar_id == id)) t.tasks m in
        let (c, i, e) = l.of_task r k in HasCalendar-off id t.calendars r.calendar_id c i e;
    of_calendar = λ c m.
        let (d, k, e) = of_update id t.calendars c m in
        let (a, i, f) = l.of_calendar d k in (a, i, f ∙ e);
    of_secret = l.of_secret;
  }

Whole-either :
    (P : Tables → Type 0) (before after : Tables) (p : Result (Unit {0}) × World)
    → Whole before after p
    → P before
    → P after
    → P p.1.tables
Whole-either P before after (ok u, w) h b a = subst P (sym h) a
Whole-either P before after (err e, w) h b a = subst P (sym h) b

-- If, when the transaction begins, every event and task has its calendar, and every calendar and secret
-- its account, then so it is after deleting a calendar, excluding one from synchronisation, or deleting
-- an account, whether the call succeeds or fails.
pub deletions_keep_links :
    (id : String) (w : World)
    → Linked (begun w)
    → Linked (delete_calendar id w).1.tables
      × Linked (set_calendar_sync_disabled id true w).1.tables
      × Linked (delete_account id w).1.tables
deletions_keep_links id w l = (
  Whole-either Linked (begun w) (calendar_gone id (begun w)) (delete_calendar id w)
      (delete_calendar-Whole id w) l (calendar_gone-Linked id (begun w) l),
  Whole-either Linked (begun w) (disable_sync id (begun w)) (set_calendar_sync_disabled id true w)
      (disable_sync-Whole id w) l (disable_sync-Linked id (begun w) l),
  Whole-either Linked (begun w) (account_gone id (begun w)) (delete_account id w)
      (delete_account-Whole id w) l (account_gone-Linked id (begun w) l),
)
