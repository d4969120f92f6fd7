-- ===== src/Sync/Records/Flags.antt =====
-- The flag, the notice and the notifications that core/internal/sync/engine.go records of an account.
use dankcalendar.Base.{
  ℕ, suc, ◌+◌, String, Bool, true, false, ◌&&◌, List, [], ◌∷◌, ◌++◌, map, some, ◌==◌, string_eq,
  if◌then◌else◌, ◌≡◌, refl, sym, ap, ◌∙◌, inl, inr, Bool-cases, arith,
}
use dankcalendar.Repo.Store.{
  Result, ok, AccountRow, Tables, World, M, update, ◌>>=◌, pure, continue,
}
use dankcalendar.Repo.Post.{still}
use dankcalendar.Repo.Events.{select}
use dankcalendar.Repo.Accounts.{update_accounts, update_account_by_id, set_account_sync_notice}
use dankcalendar.Sync.Schedule.{is_reauth}
use dankcalendar.Sync.Records.{
  Announcement, publish_changed, send_reauth, Recorded, same_flag, notice_of, notice_recorded,
  record_sync_notice, Outcome, stopped, finished, unchanged, after_first,
}

-- The copy is the one row with its identifier.
abbrev pub Agrees : AccountRow → Tables → Type 0
Agrees acc t = select (λ (a : AccountRow). a.id == acc.id) t.accounts ≡ acc ∷ []

abbrev pub sent : List Announcement → ℕ
sent [] = 0
sent (publish_changed id ∷ es) = sent es
sent (send_reauth name ∷ es) = suc (sent es)

abbrev pub asks : Outcome → Bool
asks (stopped e) = is_reauth (some e)
asks (finished codes calendar_failed) = false

-- How often the user is asked anew: an outcome asks, and the one before does not.
abbrev pub risings : Bool → List Bool → ℕ
risings was [] = 0
risings true (b ∷ bs) = risings b bs
risings false (true ∷ bs) = suc (risings true bs)
risings false (false ∷ bs) = risings false bs

abbrev pub last_flag : Bool → List Bool → Bool
last_flag was [] = was
last_flag was (b ∷ bs) = last_flag b bs

-- The notice of the last synchronisation that was not stopped.
abbrev pub last_notice : String → List Outcome → String
last_notice notice [] = notice
last_notice notice (stopped e ∷ os) = last_notice notice os
last_notice notice (finished codes calendar_failed ∷ os) =
    last_notice (notice_of codes calendar_failed) os

abbrev pub rising : Bool → Bool → ℕ
rising true b = 0
rising false true = 1
rising false false = 0

-- The call succeeds, the copy agrees with the table, and these are its flag and its notice and the
-- number of notifications.
pub record Settled (reauth : Bool) (notice : String) (n : ℕ) (result : Result Recorded × World)
    : Type 0 where
  pub recorded : Recorded
  pub tables : Tables
  pub returns : result ≡ (ok recorded, still tables)
  pub agrees : Agrees recorded.account tables
  pub flag : recorded.account.needs_reauth ≡ reauth
  pub noted : recorded.account.sync_notice ≡ notice
  pub count : sent recorded.effects ≡ n

sent-++ : (xs ys : List Announcement) → sent (xs ++ ys) ≡ sent xs + sent ys
sent-++ [] ys = ground arith
sent-++ (publish_changed id ∷ xs) ys = sent-++ xs ys
sent-++ (send_reauth name ∷ xs) ys = ground (arith, sent-++ xs ys)

module _ (id : String) (f : AccountRow → AccountRow)
    (keeps : (a : AccountRow) → (f a).id ≡ a.id) where
  select-update_accounts :
      (rows : List AccountRow)
      → select (λ (a : AccountRow). a.id == id) (update_accounts id f rows)
        ≡ map f (select (λ (a : AccountRow). a.id == id) rows)
  unfolding select update_accounts
  select-update_accounts [] = refl
  select-update_accounts (a ∷ rows) = elim (Bool-cases (a.id == id)) [
    | inl e ↦
        let kept : ((f a).id == id) ≡ true = ap (λ x. x == id) (keeps a) ∙ e in
        rw (e, kept) (ap (λ xs. f a ∷ xs) (select-update_accounts rows))
    | inr e ↦ rw (e, e) (select-update_accounts rows)
  ]

  unfoldable pub updated : Tables → Tables
  updated t = record t { accounts = update_accounts id f t.accounts }

  pub update_account_by_id-still :
      (acc : AccountRow) (t : Tables)
      → acc.id ≡ id
      → Agrees acc t
      → (update_account_by_id id f (still t) ≡ (ok (f acc), still (updated t)))
        × (select (λ (a : AccountRow). a.id == id) (updated t).accounts ≡ f acc ∷ [])
  unfolding update_account_by_id update updated
  update_account_by_id-still acc t e h =
      let found : select (λ (a : AccountRow). a.id == id) t.accounts ≡ acc ∷ [] =
        sym (ap (λ k. select (λ (a : AccountRow). a.id == k) t.accounts) e) ∙ h in
      let rows : select (λ (a : AccountRow). a.id == id) (update_accounts id f t.accounts)
          ≡ f acc ∷ [] =
        select-update_accounts t.accounts ∙ ap (map f) found in
      (rw rows refl, rows)

pub record_sync_notice-Settled :
    (acc : AccountRow) (codes : List String) (calendar_failed : Bool) (t : Tables)
    → Agrees acc t
    → Settled acc.needs_reauth
        (notice_of codes calendar_failed)
        0
        (record_sync_notice acc codes calendar_failed (still t))
unfolding record_sync_notice set_account_sync_notice notice_recorded updated
record_sync_notice-Settled acc codes calendar_failed t h =
    let notice = notice_of codes calendar_failed in
    elim (Bool-cases (notice == acc.sync_notice)) [
      | inl e ↦ record {
        recorded = unchanged acc;
        tables = t;
        returns = rw e refl;
        agrees = h;
        flag = refl;
        noted = ground arith;
        count = refl;
      }
      | inr e ↦
          let f : AccountRow → AccountRow = λ a. record a { sync_notice = notice } in
          let (saved, stored) = update_account_by_id-still acc.id f (λ a. refl) acc t refl h in
          record {
            recorded = notice_recorded acc notice (ok (f acc));
            tables = updated acc.id f (λ a. refl) t;
            returns = rw e (
                ap (λ (p : Result AccountRow × World). (ok (notice_recorded acc notice p.0), p.1))
                  saved);
            agrees = stored;
            flag = refl;
            noted = refl;
            count = refl;
          }
    ]

pub sent_when :
    (b : Bool) (id name : String)
    → sent (publish_changed id ∷ (if b && true then send_reauth name ∷ [] else []))
      ≡ (if b then 1 else 0)
sent_when true id name = refl
sent_when false id name = refl

pub rising-same : (b was : Bool) → same_flag b was ≡ true → (was ≡ b) × (rising was b ≡ 0)
unfolding same_flag
rising-same true true h = (refl, refl)
rising-same true false h = absurd (ground arith)
rising-same false true h = absurd (ground arith)
rising-same false false h = (refl, refl)

pub rising-changed : (b was : Bool) → same_flag b was ≡ false → (if b then 1 else 0) ≡ rising was b
unfolding same_flag
rising-changed true true h = absurd (ground arith)
rising-changed true false h = refl
rising-changed false true h = refl
rising-changed false false h = refl

pub risings-cons :
    (was b : Bool) (bs : List Bool) → rising was b + risings b bs ≡ risings was (b ∷ bs)
risings-cons true b bs = ground arith
risings-cons false true bs = ground arith
risings-cons false false bs = ground arith

-- The notice after one synchronisation.
abbrev pub noted_after : String → Outcome → String
noted_after notice (stopped e) = notice
noted_after notice (finished codes calendar_failed) = notice_of codes calendar_failed

pub last_notice-noted :
    (notice : String) (o : Outcome) (os : List Outcome)
    → last_notice (noted_after notice o) os ≡ last_notice notice (o ∷ os)
last_notice-noted notice (stopped e) os = refl
last_notice-noted notice (finished codes calendar_failed) os = refl

pub Settled-at :
    {f f' : Bool} {n n' : String} {c c' : ℕ} {result : Result Recorded × World}
    → Settled f n c result
    → f ≡ f'
    → n ≡ n'
    → c ≡ c'
    → Settled f' n' c' result
Settled-at s f n c = record {
  recorded = s.recorded;
  tables = s.tables;
  returns = s.returns;
  agrees = s.agrees;
  flag = s.flag ∙ f;
  noted = s.noted ∙ n;
  count = s.count ∙ c;
}

pub then-Settled :
    {f f' : Bool} {n n' : String} {c c' : ℕ} (m : M Recorded) (k : AccountRow → M Recorded)
    (t : Tables)
    → (a : Settled f n c (m (still t))) → Settled f' n' c' (k a.recorded.account (still a.tables))
    → Settled f' n'
        (c + c')
        ((m >>= λ r. k r.account >>= λ rest. pure (after_first r.effects rest)) (still t))
then-Settled m k t a b = record {
  recorded = after_first a.recorded.effects b.recorded;
  tables = b.tables;
  returns =
      ap (continue (λ r. k r.account >>= λ rest. pure (after_first r.effects rest))) a.returns
      ∙ ap (continue (λ rest. pure (after_first a.recorded.effects rest))) b.returns;
  agrees = b.agrees;
  flag = b.flag;
  noted = b.noted;
  count = sent-++ a.recorded.effects b.recorded.effects ∙ rw (a.count, b.count) refl;
}
