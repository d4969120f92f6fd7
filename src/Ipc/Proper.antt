-- ===== src/Ipc/Proper.antt =====
-- What every request of core/internal/ipc does to the bus and to the provider, whatever the database and
-- other processes do meanwhile.
pub mod Events
pub mod Tasks
pub mod Calendars
use dankcalendar.Base.{
  ℕ, suc, ◌+◌, ◌≤◌, String, Bool, true, false, not, ◌&&◌, ◌||◌, List, [], ◌∷◌, ◌++◌, Option, none,
  some, if◌then◌else◌, ◌≡◌, refl, sym, ap, ◌∙◌, inl, inr, Bool-cases, arith,
}
use dankcalendar.Calendar.Types.{Calendar}
use dankcalendar.Calendar.Rsvp.{Account}
use dankcalendar.Repo.Store.{Error, Result, ok, err, CalendarRow, AccountRow, World, M}
use dankcalendar.Rsvp.{domain_account}
use dankcalendar.Ipc.Handler.{
  Provider, Call, Effect, called, published, resync, Outcome, Handler, preceded, chained, ◌>>=◌,
  ◌>>◌, respond_with, respond, refuse, run_repo, try_repo, publish, texted, call_provider,
  with_calendar, writable_calendar, provider_of, provider_for_calendar,
}
use dankcalendar.Ipc.Effects.{
  publishes, calls, all_writable, succeeds, Proper, Silent, Announced, publishes-++, calls-++,
  all_writable-uncalled, Announced-Proper,
}

abbrev pub Anything : {A : Type 0} → A → Type 0
Anything a = Unit

-- Statements alone are silent.
pub run_repo-Silent : {A : Type 0} (m : M A) (w : World) → Silent Anything (run_repo m w)
unfolding run_repo
run_repo-Silent m w = record { effects_none = refl; gives = λ a e. tt }

pub try_repo-Silent : {A : Type 0} (m : M A) (w : World) → Silent Anything (try_repo m w)
unfolding try_repo
try_repo-Silent m w = record { effects_none = refl; gives = λ a e. tt }

pub respond_with-Silent :
    {A : Type 0} (r : Result A) (w : World) → Silent Anything (respond_with r w)
respond_with-Silent r w = record { effects_none = refl; gives = λ a e. tt }

module _ {A B : Type 0} (Q : A → Type 0) (f : A → Handler B) where
  chained-Proper :
      (r : Result A) (es : List Effect) (w : World)
      → es ≡ []
      → ((a : A) → r ≡ ok a → Q a)
      → ((a : A) → Q a → (w : World) → Proper (f a w))
      → Proper (chained f r es w)
  chained-Proper (err e) es w none_out q k =
      rw none_out (record { announced = refl; once = omega arith; guarded = refl })
  chained-Proper (ok a) es w none_out q k = rw none_out (k a (q a refl) w)

  chained-Announced :
      (r : Result A) (es : List Effect) (w : World)
      → es ≡ []
      → ((a : A) → r ≡ ok a → Q a)
      → ((a : A) → Q a → (w : World) → Announced (f a w))
      → Announced (chained f r es w)
  chained-Announced (err e) es w none_out q k =
      rw none_out (record { announced = refl; uncalled = refl })
  chained-Announced (ok a) es w none_out q k = rw none_out (k a (q a refl) w)

  chained-Silent :
      (R : B → Type 0) (r : Result A) (es : List Effect) (w : World)
      → es ≡ []
      → ((a : A) → r ≡ ok a → Q a)
      → ((a : A) → Q a → (w : World) → Silent R (f a w))
      → Silent R (chained f r es w)
  chained-Silent R (err e) es w none_out q k = record {
    effects_none = none_out;
    gives = λ b h. absurd (ground arith);
  }
  chained-Silent R (ok a) es w none_out q k = rw none_out (k a (q a refl) w)

  pub then-Proper :
      (m : Handler A)
      → ((w : World) → Silent Q (m w))
      → ((a : A) → Q a → (w : World) → Proper (f a w))
      → (w : World) → Proper ((m >>= f) w)
  unfolding ◌>>=◌
  then-Proper m s k w =
      chained-Proper (m w).result (m w).effects (m w).world (s w).effects_none (s w).gives k

  pub then-Announced :
      (m : Handler A)
      → ((w : World) → Silent Q (m w))
      → ((a : A) → Q a → (w : World) → Announced (f a w))
      → (w : World) → Announced ((m >>= f) w)
  unfolding ◌>>=◌
  then-Announced m s k w =
      chained-Announced (m w).result (m w).effects (m w).world (s w).effects_none (s w).gives k

  pub then-Silent :
      (R : B → Type 0) (m : Handler A)
      → ((w : World) → Silent Q (m w))
      → ((a : A) → Q a → (w : World) → Silent R (f a w))
      → (w : World) → Silent R ((m >>= f) w)
  unfolding ◌>>=◌
  then-Silent R m s k w =
      chained-Silent R (m w).result (m w).effects (m w).world (s w).effects_none (s w).gives k

-- The two choices at the head of a request.
pub if-Proper :
    {A : Type 0} (b : Bool) (m k : Handler A) (w : World)
    → Proper (m w)
    → Proper (k w)
    → Proper ((if b then m else k) w)
if-Proper true m k w p q = p
if-Proper false m k w p q = q

pub refuse-Proper : {A : Type 0} (text : String) (w : World) → Proper (refuse {A = A} text w)
refuse-Proper text w = record { announced = refl; once = omega arith; guarded = refl }

-- A publication, and what cannot fail after it.
pub publish-Announced :
    {A : Type 0} (topic type calendar_id : String) (k : Handler A)
    → ((w : World) → (succeeds (k w).result ≡ true) × (calls (k w).effects ≡ 0))
    → (w : World) → Announced ((publish topic type calendar_id >> k) w)
unfolding publish ◌>>◌ ◌>>=◌
publish-Announced topic type calendar_id k h w = record {
  announced = sym (h w).0;
  uncalled = (h w).1;
}

-- The call of the provider, with what follows where it accepts.
module _ {A B : Type 0} (text : String) (c : Calendar) (call : Call) (f : A → Handler B) where
  accepted-Proper :
      (r : Result A) (w : World)
      → c.read_only ≡ false
      → ((a : A) (w : World) → Announced (f a w))
      → Proper (chained f (texted text r) (called c call ∷ []) w)
  accepted-Proper (err e) w h k = record {
    announced = refl;
    once = omega arith;
    guarded = ground arith;
  }
  accepted-Proper (ok a) w h k =
      let p = k a w in
      record {
        announced = p.announced;
        once = rw p.uncalled (omega arith);
        guarded = rw (h, all_writable-uncalled (f a w).effects p.uncalled) refl;
      }

  pub call_provider-Proper :
      (r : Result A)
      → c.read_only ≡ false
      → ((a : A) (w : World) → Announced (f a w))
      → (w : World) → Proper ((call_provider text c call r >>= f) w)
  unfolding call_provider ◌>>=◌
  call_provider-Proper r h k w = accepted-Proper r w h k

abbrev pub Writable : Provider × Calendar → Type 0
Writable (p, c) = c.read_only ≡ false

with_calendar-Writable :
    (c : Calendar) (r : Result Provider) (found : Provider × Calendar)
    → c.read_only ≡ false
    → with_calendar c r ≡ ok found
    → Writable found
with_calendar-Writable c (ok p) (q, d) h e = ground arith
with_calendar-Writable c (err x) (q, d) h e = absurd (ground arith)

choice-Silent :
    (b : Bool) (c : Calendar) (r : Result Provider) (w : World)
    → c.read_only ≡ b
    → Silent Writable
        ((if b then refuse "calendar is read-only" else respond_with (with_calendar c r)) w)
choice-Silent true c r w h = record { effects_none = refl; gives = λ a e. absurd (ground arith) }
choice-Silent false c r w h = record {
  effects_none = refl;
  gives = λ found e. with_calendar-Writable c r found h e;
}

module _ (build : Account → Result Provider) where
  provider_of-Silent :
      (found : CalendarRow × Option AccountRow) (w : World)
      → Silent Writable (provider_of build found w)
  unfolding provider_of
  provider_of-Silent (c, none) w = record {
    effects_none = refl;
    gives = λ a e. absurd (ground arith);
  }
  provider_of-Silent (c, some a) w =
      choice-Silent c.read_only (writable_calendar c a) (build (domain_account a)) w refl

  -- A provider is given only for a calendar that may be written.
  pub provider_for_calendar-Silent :
      (calendar_id : String) (w : World)
      → Silent Writable (provider_for_calendar build calendar_id w)
  unfolding provider_for_calendar
  provider_for_calendar-Silent calendar_id =
      then-Silent Anything (provider_of build) Writable (run_repo _) (run_repo-Silent _)
        (λ found q. provider_of-Silent found)
