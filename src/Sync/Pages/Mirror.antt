-- ===== src/Sync/Pages/Mirror.antt =====
-- A full listing of core/internal/providers/google/provider.go, applied by core/internal/sync/engine.go.
use mathlib.Core.Path.{fun_ext}
use dankcalendar.Base.{
  String, true, false, List, [], ◌∷◌, ◌++◌, ++-nil, ++-assoc, ◌≡◌, ◌≢◌, refl, sym, ap, ◌∙◌, subst,
  ◌==◌, contains, string_eq, if◌then◌else◌, inl, inr, Bool-cases, arith, ◌⊎◌, some,
}
use dankcalendar.Calendar.Types.{Calendar, SyncCursor, EventChange, SyncResult, holds_events}
use dankcalendar.Repo.Store.{ok, World}
use dankcalendar.Repo.Post.{Calm, Post, Any}
use dankcalendar.Repo.Events.{select}
use dankcalendar.Repo.Events.Rows.{Rows, HoldsRows, only_listed}
use dankcalendar.Google.Quota.Errors.{Err}
use dankcalendar.Google.Events.{Env, GoogleEvent, from_google_event}
use dankcalendar.Google.Events.Pages as Google
use dankcalendar.Google.Events.Pages.{
  Answer, page, failure, Fetched, fetched, failed, Synced, synced, is_gone, full_listing,
  after_pages, sync_events,
}
use dankcalendar.Sync.Pages.{awaiting, sync_calendar}
use dankcalendar.Sync.Pages.View.{Enabled}
use dankcalendar.Sync.Pages.Written.{with_event, all_changed, sent_uids}
use dankcalendar.Sync.Pages.Listed.{
  is_kept, kept_ids, google_row, row_after, mirrored, row_of-from_google_event,
}
use dankcalendar.Sync.Pages.Snapshot as Snapshot
use dankcalendar.Sync.Pages.Snapshot.{last_page, snapshot_sync}

empty_text : ◌==◌ {A = String} "" "" ≡ true
unfolding string_eq
empty_text = refl

empty_of : (s : String) → (s == "") ≡ true → s ≡ ""
empty_of s h = ground arith

module _ (env : Env) where
  -- The items of the pages, up to the last page.
  pub items_of : List (Answer env) → List GoogleEvent
  items_of [] = []
  items_of (failure e ∷ answers) = []
  items_of (page p ∷ answers) =
      let rest = items_of answers in if p.next_page_token == "" then p.items else p.items ++ rest

  -- The items of the listing that gives a full snapshot.
  abbrev pub listed_items : SyncCursor → List (Answer env) → List (Answer env) → List GoogleEvent
  listed_items cursor answers again = items_of (if cursor.token == "" then answers else again)

  module _ (c : Calendar) where
    kept_or_not :
        (item : GoogleEvent) (items : List GoogleEvent)
        → ((is_kept item ≡ true)
            × (Google.changes_of env c "" (item ∷ items)
                ≡ Google.upsert_of env c item ∷ Google.changes_of env c "" items)
            × (kept_ids (item ∷ items) ≡ item.id ∷ kept_ids items))
          ⊎ ((is_kept item ≡ false)
              × (Google.changes_of env c "" (item ∷ items) ≡ Google.changes_of env c "" items)
              × (kept_ids (item ∷ items) ≡ kept_ids items))
    unfolding Google.changes_of kept_ids select
    kept_or_not item items = elim (Bool-cases (item.status == "cancelled")) [
      | inl e ↦ elim (Bool-cases (item.recurring_event_id == "")) [
        | inl k ↦ inr (rw (e, k) refl, rw (e, k, empty_text) refl, rw (e, k) refl)
        | inr k ↦ inl (rw (e, k) refl, rw (e, k) refl, rw (e, k) refl)
      ]
      | inr e ↦ inl (rw e refl, rw e refl, rw e refl)
    ]

    sent-changes_of :
        (items : List GoogleEvent) → sent_uids (Google.changes_of env c "" items) ≡ kept_ids items
    unfolding Google.changes_of kept_ids select from_google_event
    sent-changes_of [] = refl
    sent-changes_of (item ∷ items) = elim (kept_or_not item items) [
      | inl (b, e, k) ↦ ap sent_uids e ∙ ap (λ xs. item.id ∷ xs) (sent-changes_of items) ∙ sym k
      | inr (b, e, k) ↦ ap sent_uids e ∙ sent-changes_of items ∙ sym k
    ]

    with_event-google_row :
        (item : GoogleEvent) (v : Rows) (c' u : String)
        → (c.id == c') ≡ true
        → with_event c.id (from_google_event env c item) v c' u
          ≡ (if item.id == u then some (google_row env c item (v c' u)) else v c' u)
    unfolding from_google_event
    with_event-google_row item v c' u here = elim (Bool-cases (item.id == u)) [
      | inl e ↦
          let same : v c.id item.id ≡ v c' u = ground arith in
          rw (here, e)
            (ap some (
              row_of-from_google_event env c item (v c.id item.id)
              ∙ ap (google_row env c item) same))
      | inr e ↦ rw (here, e) refl
    ]

    changed_here :
        (items : List GoogleEvent) (v : Rows) (c' u : String)
        → (c.id == c') ≡ true
        → all_changed c.id (Google.changes_of env c "" items) v c' u
          ≡ row_after env c items u (v c' u)
    unfolding Google.changes_of
    changed_here [] v c' u here = refl
    changed_here (item ∷ items) v c' u here = elim (kept_or_not item items) [
      | inl (b, e, k) ↦
          ap (λ chs. all_changed c.id chs v c' u) e
          ∙ changed_here items (with_event c.id (from_google_event env c item) v) c' u here
          ∙ ap (row_after env c items u) (with_event-google_row item v c' u here)
          ∙ rw b refl
      | inr (b, e, k) ↦
          ap (λ chs. all_changed c.id chs v c' u) e ∙ changed_here items v c' u here ∙ rw b refl
    ]

    changed_elsewhere :
        (items : List GoogleEvent) (v : Rows) (c' u : String)
        → (c.id == c') ≡ false
        → all_changed c.id (Google.changes_of env c "" items) v c' u ≡ v c' u
    unfolding Google.changes_of
    changed_elsewhere [] v c' u away = refl
    changed_elsewhere (item ∷ items) v c' u away = elim (kept_or_not item items) [
      | inl (b, e, k) ↦
          ap (λ chs. all_changed c.id chs v c' u) e
          ∙ changed_elsewhere items (with_event c.id (from_google_event env c item) v) c' u away
          ∙ rw away refl
      | inr (b, e, k) ↦
          ap (λ chs. all_changed c.id chs v c' u) e ∙ changed_elsewhere items v c' u away
    ]

    mirrored_lem :
        (items : List GoogleEvent) (v : Rows) (c' u : String)
        → only_listed c.id
            (kept_ids items)
            (all_changed c.id (Google.changes_of env c "" items) v)
            c'
            u
          ≡ mirrored env c items v c' u
    mirrored_lem items v c' u = elim (Bool-cases (c.id == c')) [
      | inl here ↦ elim (Bool-cases (contains (kept_ids items) u)) [
        | inl k ↦ rw (here, k) (changed_here items v c' u here)
        | inr k ↦ rw (here, k) refl
      ]
      | inr away ↦ rw away (changed_elsewhere items v c' u away)
    ]

    changes_of-++ :
        (xs ys : List GoogleEvent)
        → Google.changes_of env c "" (xs ++ ys)
          ≡ Google.changes_of env c "" xs ++ Google.changes_of env c "" ys
    unfolding Google.changes_of
    changes_of-++ [] ys = refl
    changes_of-++ (x ∷ xs) ys = ground (arith, changes_of-++ xs ys)

    -- The changes of the pages are those of their items.
    fetched_changes :
        (before all : List EventChange) (answers : List (Answer env)) (token : String)
        → Google.sync_pages env c "" before answers ≡ fetched all token
        → all ≡ before ++ Google.changes_of env c "" (items_of answers)
    unfolding Google.sync_pages items_of
    fetched_changes before all [] token h = absurd (ground arith)
    fetched_changes before all (failure e ∷ answers) token h = absurd (ground arith)
    fetched_changes before all (page p ∷ answers) token h =
        elim (Bool-cases (p.next_page_token == "")) [
          | inl e ↦ rw e (ground (arith, rw e at h))
          | inr e ↦
              let now = Google.changes_of env c "" p.items in
              rw e (
                fetched_changes (before ++ now) all answers token (rw e at h)
                ∙ ++-assoc before now (Google.changes_of env c "" (items_of answers))
                ∙ ap (λ chs. before ++ chs) (sym (changes_of-++ p.items (items_of answers))))
        ]

    module _ (classify : Err → Err) (cursor : SyncCursor) (answers again : List (Answer env))
        (r : SyncResult) where
      abbrev Lists : List GoogleEvent → Type 0
      Lists items = (r.changes ≡ Google.changes_of env c "" items) × (r.more ≡ false)

      full_listing-Lists :
          (f : Fetched env)
          → Google.sync_pages env c "" [] again ≡ f
          → full_listing env classify cursor.calendar_id f ≡ synced r
          → Lists (items_of again)
      unfolding full_listing
      full_listing-Lists (fetched changes token) e h =
          let k = fetched_changes [] changes again token e in (ground arith, ground arith)
      full_listing-Lists (failed x) e h = absurd (ground arith)
      full_listing-Lists Google.awaiting e h = absurd (ground arith)

      after_pages-Lists :
          (f : Fetched env)
          → Google.sync_pages env c cursor.token [] answers ≡ f
          → after_pages env classify c cursor again f ≡ synced r
          → r.full_snapshot ≡ true
          → Lists (listed_items cursor answers again)
      unfolding after_pages
      after_pages-Lists (fetched changes token) e h full =
          let blank : (cursor.token == "") ≡ true = ground arith in
          let e' : Google.sync_pages env c "" [] answers ≡ fetched changes token =
            subst (λ s. Google.sync_pages env c s [] answers ≡ fetched changes token)
              (empty_of cursor.token blank) e in
          let k = fetched_changes [] changes answers token e' in
          rw blank (ground arith, ground arith)
      after_pages-Lists (failed x) e h full = elim (Bool-cases (cursor.token == "")) [
        | inl b ↦ absurd (ground (arith, rw b at h))
        | inr b ↦ elim (Bool-cases (is_gone env x)) [
          | inl g ↦ rw b (full_listing-Lists _ refl (rw (b, g) at h))
          | inr g ↦ absurd (ground (arith, rw (b, g) at h))
        ]
      ]
      after_pages-Lists Google.awaiting e h full = absurd (ground arith)

      -- A full snapshot is one page, with the changes of the items that were listed.
      sync_events-Lists :
          sync_events env classify c cursor answers again ≡ synced r
          → r.full_snapshot ≡ true
          → Lists (listed_items cursor answers again)
      unfolding sync_events
      sync_events-Lists h full = after_pages-Lists _ refl h full

module _ (env : Env) (c : Calendar) (v : Rows) (items : List GoogleEvent) (r : SyncResult)
    (same : r.changes ≡ Google.changes_of env c "" items) where
  snapshot_rows :
      only_listed c.id
        (sent_uids (Snapshot.changes_of (r ∷ [])))
        (all_changed c.id (Snapshot.changes_of (r ∷ [])) v)
      ≡ mirrored env c items v
  snapshot_rows =
      let one : Snapshot.changes_of (r ∷ []) ≡ Google.changes_of env c "" items =
        ++-nil r.changes ∙ same in
      ap (λ chs. only_listed c.id (sent_uids chs) (all_changed c.id chs v)) one
      ∙ ap (λ uids. only_listed c.id uids (all_changed c.id (Google.changes_of env c "" items) v))
          (sent-changes_of env c items)
      ∙ fun_ext λ c'. fun_ext λ u. mirrored_lem env c items v c' u

-- Take a full snapshot that Google's provider returns for a calendar that holds events, the first listing
-- being one without a token, or a listing after the token has expired, and a database whose events have
-- unique keys. If `sync_calendar` applies it without an error, and no other process changes the database
-- meanwhile, then it has returned, and the events stored of that calendar are exactly those that Google
-- listed on all its pages, less the cancelled ones that are no exception of a series. The row of each
-- has the fields that `google_row` gives for the item that was listed last under its id: what the item
-- has, except that attendees, reminders, recurrence, organizer and original start stay as they were
-- where the item has none, the categories always do, and the identifier is not stated. The other
-- calendars' rows are as before.
pub google_snapshot_mirrored :
    (env : Env) (classify : Err → Err) (trim_space to_lower : String → String) (c : Calendar)
    (cursor : SyncCursor) (answers again : List (Answer env)) (v : Rows) (r : SyncResult)
    → holds_events c.supported_components ≡ true
    → sync_events env classify c cursor answers again ≡ synced r
    → r.full_snapshot ≡ true
    → (w : World) → Calm w.incidents
    → HoldsRows (Enabled c.id) v w.tables
    → Post
        (λ s t.
          HoldsRows (Enabled c.id) (mirrored env c (listed_items env cursor answers again) v) t
          × (s ≢ awaiting))
        Any
        (sync_calendar trim_space to_lower c (ok r ∷ []) w)
google_snapshot_mirrored env classify trim_space to_lower c cursor answers again v r kept listed
      full w calm seen =
    let (same, last) = sync_events-Lists env c classify cursor answers again r listed full in
    subst
      (λ (k : Rows).
        Post (λ s t. HoldsRows (Enabled c.id) k t × (s ≢ awaiting)) Any
          (sync_calendar trim_space to_lower c (ok r ∷ []) w))
      (snapshot_rows env c v (listed_items env cursor answers again) r same)
      (snapshot_sync trim_space to_lower c v (r ∷ []) kept (last_page r full last) w calm seen)
