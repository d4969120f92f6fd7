-- ===== src/Sync/Account/Total.antt =====
-- That one calendar does not stop `syncAccount` of core/internal/sync/engine.go.
use dankcalendar.Base.{
  ◌≤ℤ◌, int_laws, String, Bool, true, false, List, [], ◌∷◌, Option, none, some, ◌≡◌, ◌≢◌, ◌⊎◌, refl,
  arith, Bool-cases, inl, inr, if◌then◌else◌,
}
use dankcalendar.Repo.Store.{Result, ok, err, CalendarRow, World, M, continue}
use dankcalendar.Sync.Pages.{Synced, returned, awaiting}
use dankcalendar.Sync.Pages.Ends.{Settles, sync_calendar_ends}
use dankcalendar.Sync.Account.{
  Remote, Totals, count_synced, sync_stored, after_upsert, sync_remote, sync_calendars,
}

abbrev AllSettle : List Remote → Type 0
AllSettle [] = Unit
AllSettle (r ∷ rs) = Settles r.answers × AllSettle rs

-- The result counts on from `t`, and forgets neither its delay nor its failure.
abbrev pub CountsOn : Totals → Result (Option Totals) → Type 0
CountsOn t r =
    (t' : Totals) × (r ≡ ok (some t'))
    × (t.retry_after ≤ℤ t'.retry_after)
    × ((t.failed ≡ false) ⊎ (t'.failed ≡ true))

kept : (b : Bool) → (b ≡ false) ⊎ (b ≡ true)
kept b = elim (Bool-cases b) [ inl e ↦ inr e | inr e ↦ inl e ]

same-CountsOn : (t : Totals) → CountsOn t (ok (some t))
same-CountsOn t = (t, refl, omega int_laws, kept t.failed)

count_synced-CountsOn :
    (t : Totals) (s : Result Synced) → s ≢ ok awaiting → CountsOn t (ok (count_synced t s))
unfolding count_synced
count_synced-CountsOn t (ok (returned d topics)) h = (_, refl, ground arith, kept t.failed)
count_synced-CountsOn t (ok awaiting) h = absurd (h refl)
count_synced-CountsOn t (err e) h = (_, refl, ground arith, inr refl)

choose-CountsOn :
    (t : Totals) (b : Bool) (x y : M (Option Totals)) (w : World)
    → CountsOn t (x w).0
    → CountsOn t (y w).0
    → CountsOn t ((if b then x else y) w).0
choose-CountsOn t true x y w h k = h
choose-CountsOn t false x y w h k = k

trans-CountsOn :
    (t t' : Totals) (r : Result (Option Totals))
    → t.retry_after ≤ℤ t'.retry_after
    → (t.failed ≡ false) ⊎ (t'.failed ≡ true)
    → CountsOn t' r
    → CountsOn t r
trans-CountsOn t t' r le f (u, e, le', f') = (u, e, omega (int_laws, le, le'), ground arith)

continue-CountsOn :
    (t : Totals) (f : Option Totals → M (Option Totals)) (p : Result (Option Totals) × World)
    → CountsOn t p.0
    → ((u : Totals) (w : World) → CountsOn u (f (some u) w).0)
    → CountsOn t (continue f p).0
continue-CountsOn t f (ok (some v), w) (u, e, le, g) k =
    trans-CountsOn t v _ (ground (arith, e, le)) (ground (arith, e, g)) (k v w)
continue-CountsOn t f (ok none, w) (u, e, le, g) k = absurd (ground arith)
continue-CountsOn t f (err x, w) (u, e, le, g) k = absurd (ground arith)

module _ (trim_space to_lower : String → String) (account_id : String) where
  found-CountsOn :
      (remote : Remote) (t : Totals) (found : Result CalendarRow) (w : World)
      → Settles remote.answers
      → CountsOn t (after_upsert trim_space to_lower account_id remote t found w).0
  unfolding after_upsert sync_stored
  found-CountsOn remote t (ok stored) w h =
      choose-CountsOn t stored.sync_disabled _ _ w (same-CountsOn t)
        (count_synced-CountsOn t _ (sync_calendar_ends trim_space to_lower _ remote.answers h w))
  found-CountsOn remote t (err e) w h = same-CountsOn t

  remote-CountsOn :
      (remote : Remote) (t : Totals) (w : World)
      → Settles remote.answers
      → CountsOn t (sync_remote trim_space to_lower account_id remote t w).0
  unfolding sync_remote
  remote-CountsOn remote t w h = found-CountsOn remote t _ _ h

-- If the provider's answers for each calendar come to an end, then the loop over the calendars reaches
-- its end and returns no error, whatever the database does and whichever calendars fail; the delay
-- that it returns is not below the one that it starts with, and a failure stays noted.
pub sync_calendars_total :
    (trim_space to_lower : String → String) (account_id : String) (rs : List Remote) (t : Totals)
    (w : World)
    → AllSettle rs
    → CountsOn t (sync_calendars trim_space to_lower account_id rs t w).0
unfolding sync_calendars
sync_calendars_total trim_space to_lower account_id [] t w h = same-CountsOn t
sync_calendars_total trim_space to_lower account_id (r ∷ rs) t w h =
    continue-CountsOn t _ (sync_remote trim_space to_lower account_id r t w)
      (remote-CountsOn trim_space to_lower account_id r t w h.0)
      (λ u w. sync_calendars_total trim_space to_lower account_id rs u w h.1)
