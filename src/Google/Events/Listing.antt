-- ===== src/Google/Events/Listing.antt =====
-- The listing of changes in core/internal/providers/google/provider.go: what a snapshot holds, and what
-- becomes of a token that has expired.
use dankcalendar.Base.{
  ℤ, ◌+ℤ◌, ◌<ℤ◌, ltb_ℤ, String, Bool, true, false, not, ◌&&◌, ◌||◌, List, [], ◌∷◌, ◌++◌, Option,
  none, some, ◌==◌, string_eq, ◌≡◌, refl, subst, inl, inr, Bool-cases, arith, int_laws,
}
use dankcalendar.Calendar.Types.{
  Event, EventStatus, Calendar, SyncCursor, ChangeType, upsert, delete, other, EventChange,
  SyncResult,
}
use dankcalendar.Google.Quota.Errors.{Err}
use dankcalendar.Repo.Queries.{is_cancelled_row}
use dankcalendar.Google.Events.{
  Env, GoogleEvent, from_google_status, all_day_end, from_google_event, from_google_time, day,
}
use dankcalendar.Google.Events.Pages.{
  changes_of, Answer, page, failure, Fetched, fetched, failed, awaiting, sync_pages, synced,
  is_gone, full_listing, after_pages, sync_events,
}

abbrev cancelled_event : Option EventStatus → Bool
cancelled_event none = false
cancelled_event (some s) = is_cancelled_row s

-- A change that stores an event, which is cancelled only as an exception of a series.
abbrev stores_event : ChangeType → Option Event → Bool
stores_event upsert none = false
stores_event upsert (some ev) = not (cancelled_event ev.status) || not (ev.recurring_id == "")
stores_event delete ev = false
stores_event other ev = false

all_stored : List EventChange → Bool
all_stored [] = true
all_stored (c ∷ cs) = stores_event c.type c.event && all_stored cs

all_stored-++ :
    (xs ys : List EventChange)
    → all_stored xs ≡ true
    → all_stored ys ≡ true
    → all_stored (xs ++ ys) ≡ true
unfolding all_stored
all_stored-++ [] ys h k = k
all_stored-++ (x ∷ xs) ys h k = ground (arith, all_stored-++ xs ys)

status-live :
    (s : String) → (s == "cancelled") ≡ false → is_cancelled_row (from_google_status s) ≡ false
unfolding from_google_status
status-live s h = ground arith

empty_text : ◌==◌ {A = String} "" "" ≡ true
unfolding string_eq
empty_text = refl

empty_of : (s : String) → (s == "") ≡ true → s ≡ ""
empty_of s h = ground arith

module _ (env : Env) (c : Calendar) where
  upsert-stored :
      (item : GoogleEvent)
      → ((item.status == "cancelled") && (item.recurring_event_id == "")) ≡ false
      → stores_event upsert (some (from_google_event env c item)) ≡ true
  unfolding from_google_event
  upsert-stored item h = elim (Bool-cases (item.status == "cancelled")) [
    | inl e ↦ ground (arith, h, e)
    | inr e ↦ ground (arith, status-live item.status e)
  ]

  changes-stored : (items : List GoogleEvent) → all_stored (changes_of env c "" items) ≡ true
  unfolding changes_of all_stored
  changes-stored [] = refl
  changes-stored (item ∷ items) =
      ground (arith, empty_text, upsert-stored item, changes-stored items)

  pages-stored :
      (changes : List EventChange) (answers : List (Answer env)) (r : List EventChange)
      (token : String)
      → all_stored changes ≡ true
      → sync_pages env c "" changes answers ≡ fetched r token
      → all_stored r ≡ true
  unfolding sync_pages
  pages-stored changes [] r token h e = absurd (ground arith)
  pages-stored changes (failure x ∷ answers) r token h e = absurd (ground arith)
  pages-stored changes (page p ∷ answers) r token h e =
      let all = changes ++ changes_of env c "" p.items in
      let k : all_stored all ≡ true =
        all_stored-++ changes (changes_of env c "" p.items) h (changes-stored p.items) in
      elim (Bool-cases (p.next_page_token == "")) [
        | inl b ↦ ground (arith, k, rw b at e)
        | inr b ↦ pages-stored all answers r token k (rw b at e)
      ]

  module _ (classify : Err → Err) (cursor : SyncCursor) (answers again : List (Answer env)) where
    abbrev Snapshot : SyncResult → Type 0
    Snapshot r = r.full_snapshot ≡ true → all_stored r.changes ≡ true

    full_listing-Snapshot :
        (f : Fetched env) (r : SyncResult)
        → sync_pages env c "" [] again ≡ f
        → full_listing env classify cursor.calendar_id f ≡ synced r
        → Snapshot r
    unfolding full_listing all_stored
    full_listing-Snapshot (fetched changes token) r e h full =
        let k : all_stored changes ≡ true = pages-stored [] again changes token refl e in
        ground (arith, h)
    full_listing-Snapshot (failed x) r e h full = absurd (ground arith)
    full_listing-Snapshot awaiting r e h full = absurd (ground arith)

    after_pages-Snapshot :
        (f : Fetched env) (r : SyncResult)
        → sync_pages env c cursor.token [] answers ≡ f
        → after_pages env classify c cursor again f ≡ synced r
        → Snapshot r
    unfolding after_pages all_stored
    after_pages-Snapshot (fetched changes token) r e h full =
        let blank : (cursor.token == "") ≡ true = ground arith in
        let e' : sync_pages env c "" [] answers ≡ fetched changes token =
          subst (λ s. sync_pages env c s [] answers ≡ fetched changes token)
            (empty_of cursor.token blank) e in
        let k : all_stored changes ≡ true = pages-stored [] answers changes token refl e' in
        ground (arith, h)
    after_pages-Snapshot (failed x) r e h full =
        elim (Bool-cases (cursor.token == "" || not (is_gone env x))) [
          | inl b ↦ absurd (ground (arith, rw b at h))
          | inr b ↦ full_listing-Snapshot (sync_pages env c "" [] again) r refl (rw b at h) full
        ]
    after_pages-Snapshot awaiting r e h full = absurd (ground arith)

restarted :
    (env : Env) (c : Calendar) (classify : Err → Err) (calendar_id : String) (f : Fetched env)
    → full_listing env classify calendar_id f
      ≡ after_pages env classify c (record { calendar_id = calendar_id; token = "" }) [] f
unfolding full_listing after_pages string_eq
restarted env c classify calendar_id (fetched changes token) = refl
restarted env c classify calendar_id (failed e) = refl
restarted env c classify calendar_id awaiting = refl

all_day_end_lem : (b : Bool) (s e : ℤ) → b ≡ true → s <ℤ all_day_end b s e
unfolding all_day_end
all_day_end_lem b s e h = elim (Bool-cases (ltb_ℤ s e)) [
  | inl k ↦ ground (arith, h, k)
  | inr k ↦ let later : s <ℤ s +ℤ day = omega int_laws in ground (arith, h, k, later)
]

-- A full snapshot that `syncEvents` returns has no deletions: each change stores an event, and one that
-- is cancelled only as an exception of a series. Where the listing from a token fails because the token
-- has expired, the result is that of a listing without a token.
sync_events_laws :
    (env : Env) (c : Calendar) (classify : Err → Err) (cursor : SyncCursor)
    (answers again : List (Answer env))
    → ((r : SyncResult)
        → sync_events env classify c cursor answers again ≡ synced r
        → r.full_snapshot ≡ true
        → all_stored r.changes ≡ true)
      × ((e : Err)
          → sync_pages env c cursor.token [] answers ≡ failed e
          → is_gone env e ≡ true
          → (cursor.token == "") ≡ false
          → sync_events env classify c cursor answers again
            ≡ sync_events env classify c (record cursor { token = "" }) again [])
unfolding sync_events after_pages string_eq
sync_events_laws env c classify cursor answers again = (
  λ r h full. after_pages-Snapshot env c classify cursor answers again _ r refl h full,
  λ e h gone old. rw h (
      rw gone
        (rw old (restarted env c classify cursor.calendar_id (sync_pages env c "" [] again)))),
)

-- An event of Google's that is read as an all-day event ends after it starts, whatever its end is.
all_day_spans :
    (env : Env) (c : Calendar) (item : GoogleEvent)
    → (from_google_event env c item).all_day ≡ true
    → (from_google_event env c item).start <ℤ (from_google_event env c item).end
unfolding from_google_event
all_day_spans env c item h =
    all_day_end_lem _ (from_google_time env item.start).at (from_google_time env item.end).at h
