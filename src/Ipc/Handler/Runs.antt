-- ===== src/Ipc/Handler/Runs.antt =====
-- What a request of core/internal/ipc that is answered without an error has done, step by step, while no
-- other process writes.
use dankcalendar.Base.{
  String, Bool, true, false, List, [], Option, none, some, ◌==◌, string_eq, if◌then◌else◌, ◌≡◌,
  refl, ap, ◌∙◌, sym, arith,
}
use dankcalendar.Calendar.Types.{Calendar}
use dankcalendar.Calendar.Rsvp.{Account}
use dankcalendar.Repo.Store.{Result, ok, err, CalendarRow, AccountRow, Tables, World, only, query}
use dankcalendar.Repo.Post.{still}
use dankcalendar.Repo.Events.{select}
use dankcalendar.Rsvp.{find_account, joined, get_calendar_with_account, domain_account}
use dankcalendar.Ipc.Handler.{
  Provider, Effect, Outcome, Handler, preceded, chained, ◌>>=◌, with_calendar, writable_calendar,
  provider_of, provider_for_calendar, refuse, respond_with, run_repo,
}

-- Both parts of a chain succeed, the second in the world that the first leaves.
pub record Ran {A B : Type 0} (m : Handler A) (f : A → Handler B) (w : World) (b : B) : Type 0 where
  pub value : A
  pub first : (m w).result ≡ ok value
  pub second : (f value (m w).world).result ≡ ok b
  pub world : ((m >>= f) w).world ≡ (f value (m w).world).world

record Chained {A B : Type 0} (f : A → Handler B) (r : Result A) (es : List Effect) (w : World)
    (b : B) : Type 0 where
  value : A
  first : r ≡ ok value
  second : (f value w).result ≡ ok b
  world : (chained f r es w).world ≡ (f value w).world

chained-ok :
    {A B : Type 0} (f : A → Handler B) (r : Result A) (es : List Effect) (w : World) (b : B)
    → (chained f r es w).result ≡ ok b
    → Chained f r es w b
chained-ok f (ok a) es w b h = record { value = a; first = refl; second = h; world = refl }
chained-ok f (err e) es w b h = absurd (ground arith)

pub >>=-Ran :
    {A B : Type 0} (m : Handler A) (f : A → Handler B) (w : World) (b : B)
    → ((m >>= f) w).result ≡ ok b
    → Ran m f w b
unfolding ◌>>=◌
>>=-Ran m f w b h =
    let c = chained-ok f (m w).result (m w).effects (m w).world b h in
    record { value = c.value; first = c.first; second = c.second; world = c.world }

-- A request that is not refused at once.
pub past_refusal :
    {A : Type 0} (b : Bool) (text : String) (k : Handler A) (w : World) (a : A)
    → ((if b then refuse text else k) w).result ≡ ok a
    → ((k w).result ≡ ok a) × (((if b then refuse text else k) w).world ≡ (k w).world)
past_refusal true text k w a h = absurd (ground arith)
past_refusal false text k w a h = (h, refl)

-- The provider that a calendar has.
pub record Provides (build : Account → Result Provider) (id : String) (t : Tables)
    (o : Outcome (Provider × Calendar)) (p : Provider) (c : Calendar) : Type 0 where
  pub account : Account
  pub built : build account ≡ ok p
  pub row : CalendarRow
  pub stored : only (select (λ (x : CalendarRow). x.id == id) t.calendars) ≡ ok row
  pub named : c.id ≡ row.id
  pub world : o.world ≡ still t

abbrev provider_in : Provider → Result (Provider × Calendar) → Provider
provider_in q (ok (p, c)) = p
provider_in q (err e) = q

abbrev calendar_in : Calendar → Result (Provider × Calendar) → Calendar
calendar_in d (ok (p, c)) = c
calendar_in d (err e) = d

module _ (build : Account → Result Provider) (id : String) (t : Tables) (p : Provider)
    (c : Calendar) where
  of_build :
      (row : CalendarRow) (a : AccountRow) (r : Result Provider)
      → build (domain_account a) ≡ r
      → only (select (λ (x : CalendarRow). x.id == id) t.calendars) ≡ ok row
      → (o : Outcome (Provider × Calendar)) → o.world ≡ still t
      → with_calendar (writable_calendar row a) r ≡ ok (p, c)
      → Provides build id t o p c
  of_build row a (ok q) e s o w h = record {
    account = domain_account a;
    built = e ∙ ap (λ x. ok x) (ap (provider_in q) h);
    row = row;
    stored = s;
    named = sym (ap (λ x. x.id) (ap (calendar_in c) h));
    world = w;
  }
  of_build row a (err x) e s o w h = absurd (ground arith)

  of_choice :
      (row : CalendarRow) (a : AccountRow) (b : Bool)
      → only (select (λ (x : CalendarRow). x.id == id) t.calendars) ≡ ok row
      → (let m : Handler (Provider × Calendar) =
            if b
            then refuse "calendar is read-only"
            else respond_with
                (with_calendar (writable_calendar row a) (build (domain_account a))) in
          (m (still t)).result ≡ ok (p, c) → Provides build id t (preceded [] (m (still t))) p c)
  of_choice row a true s h = absurd (ground arith)
  of_choice row a false s h = of_build row a (build (domain_account a)) refl s _ refl h

  of_account :
      (row : CalendarRow) (o : Option AccountRow)
      → only (select (λ (x : CalendarRow). x.id == id) t.calendars) ≡ ok row
      → (provider_of build (row, o) (still t)).result ≡ ok (p, c)
      → Provides build id t (preceded [] (provider_of build (row, o) (still t))) p c
  unfolding provider_of
  of_account row none s h = absurd (ground arith)
  of_account row (some a) s h = of_choice row a row.read_only s h

  of_calendar :
      (r : Result CalendarRow)
      → only (select (λ (x : CalendarRow). x.id == id) t.calendars) ≡ r
      → (chained (provider_of build) (joined t.accounts r) [] (still t)).result ≡ ok (p, c)
      → Provides build id t (chained (provider_of build) (joined t.accounts r) [] (still t)) p c
  of_calendar (ok row) s h = of_account row (find_account t.accounts row.account_id) s h
  of_calendar (err e) s h = absurd (ground arith)

  -- Where a provider is given, it is one that was built, for the calendar that was asked for.
  pub provider_for_calendar-Provides :
      (provider_for_calendar build id (still t)).result ≡ ok (p, c)
      → Provides build id t (provider_for_calendar build id (still t)) p c
  unfolding provider_for_calendar run_repo get_calendar_with_account query ◌>>=◌
  provider_for_calendar-Provides h = of_calendar _ refl h
