-- ===== src/Sync/Pages/Ends.antt =====
-- When the loop of `syncCalendar` of core/internal/sync/engine.go ends.
use dankcalendar.Base.{
  ℤ, refl, String, Bool, true, false, List, [], ◌∷◌, ◌≡◌, ◌≢◌, ◌⊎◌, inl, inr, arith, if◌then◌else◌,
}
use dankcalendar.Calendar.Types.{Calendar, SyncResult}
use dankcalendar.Repo.Store.{Result, ok, err, World, M, ◌>>=◌, continue, pure}
use dankcalendar.Sync.Pages.{
  Progress, no_progress, Step, applied, stopped, sync_page, Synced, returned, awaiting, Topic,
  record_page, reconcile, repaint, finish, sync_pages, sync_calendar,
}

-- Some answer is an error or announces no further page.
abbrev pub Settles : List (Result SyncResult) → Type 0
Settles [] = ⊥
Settles (err e ∷ rest) = Unit
Settles (ok r ∷ rest) = (r.more ≡ false) ⊎ Settles rest

abbrev Done : M Synced → Type 0
Done m = (w : World) → (m w).0 ≢ ok awaiting

continue-Done :
    {A : Type 0} (f : A → M Synced) (p : Result A × World)
    → ((a : A) → Done (f a))
    → (continue f p).0 ≢ ok awaiting
continue-Done f (ok a, w) h = h a w
continue-Done f (err e, w) h = λ q. absurd (ground arith)

bind-Done : {A : Type 0} (m : M A) (f : A → M Synced) → ((a : A) → Done (f a)) → Done (m >>= f)
bind-Done m f h w = continue-Done f (m w) h

pure-Done : (d : ℤ) (topics : List Topic) → Done (pure (returned d topics))
pure-Done d topics w q = absurd (ground arith)

choose-Done :
    (b : Bool) (x y : M Synced)
    → (b ≡ true → Done x)
    → (b ≡ false → Done y)
    → Done (if b then x else y)
choose-Done true x y h k = h refl
choose-Done false x y h k = k refl

step-Done :
    (step : Step) (x y : M Synced)
    → Done x
    → Done y
    → Done (elim step [ stopped ↦ x | applied ↦ y ])
step-Done stopped x y h k = h
step-Done applied x y h k = k

later : (b : Bool) (P : Type 0) → b ≡ true → (b ≡ false) ⊎ P → P
later b P e (inl e2) = absurd (cc)
later b P e (inr x) = x

module _ (trim_space to_lower : String → String) (cal : Calendar) where
  finish-Done : (p : Progress) → Done (finish trim_space to_lower cal p)
  unfolding finish
  finish-Done p =
      bind-Done (reconcile cal p) _ (λ n.
        bind-Done (repaint trim_space to_lower cal p.color) _ (λ t. pure-Done p.retry_after _))

  pages-Done :
      (answers : List (Result SyncResult)) (p : Progress)
      → Settles answers
      → Done (sync_pages trim_space to_lower cal answers p)
  unfolding sync_pages
  pages-Done [] p h = absurd h
  pages-Done (err e ∷ rest) p h = λ w q. absurd (ground arith)
  pages-Done (ok r ∷ rest) p h = bind-Done (sync_page cal.id r) _ λ step.
      step-Done step _ _ (pure-Done r.retry_after []) (
        choose-Done r.more _ _ (λ more. pages-Done rest (record_page r p) (later r.more _ more h))
          (λ no. finish-Done (record_page r p)))

-- If some answer of the provider is an error or announces no further page, then `sync_calendar`
-- returns, with a delay or with an error: it does not ask for more pages for ever, whatever the
-- database does.
pub sync_calendar_ends :
    (trim_space to_lower : String → String) (cal : Calendar) (answers : List (Result SyncResult))
    → Settles answers
    → (w : World) → (sync_calendar trim_space to_lower cal answers w).0 ≢ ok awaiting
unfolding sync_calendar
sync_calendar_ends trim_space to_lower cal answers h =
    pages-Done trim_space to_lower cal answers no_progress h
