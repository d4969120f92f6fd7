-- ===== src/Sync/Records/Edges.antt =====
-- What a series of synchronisations of core/internal/sync/engine.go records of an account.
use dankcalendar.Base.{
  ◌+◌, String, true, false, List, [], ◌∷◌, map, Option, none, some, string_eq, refl, sym, ap, ◌∙◌,
  inl, inr, Bool-cases, arith,
}
use dankcalendar.Repo.Store.{Error, Result, ok, AccountRow, Tables, World}
use dankcalendar.Repo.Post.{still}
use dankcalendar.Repo.Accounts.{set_account_auth_state}
use dankcalendar.Sync.Schedule.{is_reauth}
use dankcalendar.Sync.Records.{
  same_flag, record_sync_notice, Outcome, stopped, finished, auth_error_of, auth_recorded,
  record_auth_state, record_outcome, record_outcomes, unchanged,
}
use dankcalendar.Sync.Records.Flags.{
  Agrees, asks, risings, last_flag, last_notice, rising, Settled, updated,
  update_account_by_id-still, noted_after, sent_when, rising-same, rising-changed, risings-cons,
  last_notice-noted, Settled-at, then-Settled, record_sync_notice-Settled,
}

module _ (error_text : Error → String) where
  record_auth_state-Settled :
      (acc : AccountRow) (failure : Option Error) (t : Tables)
      → Agrees acc t
      → Settled
          (is_reauth failure)
          acc.sync_notice
          (rising acc.needs_reauth (is_reauth failure))
          (record_auth_state error_text true acc failure (still t))
  unfolding record_auth_state set_account_auth_state auth_recorded updated
  record_auth_state-Settled acc failure t h =
      elim (Bool-cases (same_flag (is_reauth failure) acc.needs_reauth)) [
        | inl e ↦
            let (same, none_sent) = rising-same _ _ e in
            record {
              recorded = unchanged acc;
              tables = t;
              returns = rw e refl;
              agrees = h;
              flag = same;
              noted = refl;
              count = sym none_sent;
            }
        | inr e ↦
            let f : AccountRow → AccountRow = λ a. record a {
              needs_reauth = is_reauth failure;
              auth_error = auth_error_of error_text true failure;
            } in
            let (saved, stored) = update_account_by_id-still acc.id f (λ a. refl) acc t refl h in
            record {
              recorded = auth_recorded error_text true acc failure (ok (f acc));
              tables = updated acc.id f (λ a. refl) t;
              returns = rw e (
                  ap
                    (λ (p : Result AccountRow × World).
                      (ok (auth_recorded error_text true acc failure p.0), p.1))
                    saved);
              agrees = stored;
              flag = refl;
              noted = refl;
              count = sent_when (is_reauth failure) acc.id acc.display_name ∙ rising-changed _ _ e;
            }
      ]

  record_outcome-Settled :
      (acc : AccountRow) (o : Outcome) (t : Tables)
      → Agrees acc t
      → Settled
          (asks o)
          (noted_after acc.sync_notice o)
          (rising acc.needs_reauth (asks o))
          (record_outcome error_text true acc o (still t))
  unfolding record_outcome is_reauth
  record_outcome-Settled acc (stopped e) t h = record_auth_state-Settled acc (some e) t h
  record_outcome-Settled acc (finished codes calendar_failed) t h =
      let a = record_sync_notice-Settled acc codes calendar_failed t h in
      let b = record_auth_state-Settled a.recorded.account none a.tables a.agrees in
      Settled-at
        (then-Settled (record_sync_notice acc codes calendar_failed)
          (λ noted. record_auth_state error_text true noted none) t a b)
        refl a.noted (ap (λ f. 0 + rising f false) a.flag ∙ ground arith)

  -- In a world without failures and other processes, for a copy of an account that agrees with its row,
  -- a series of synchronisations records what each reveals: the calls succeed; afterwards the copy
  -- agrees with the row again, the flag is that of the last outcome, and the notice that of the last
  -- outcome that was not stopped; and, with a sender, the user is notified exactly as often as an
  -- outcome asks to sign in where the state before it does not.
  pub record_outcomes-Settled :
      (acc : AccountRow) (os : List Outcome) (t : Tables)
      → Agrees acc t
      → Settled
          (last_flag acc.needs_reauth (map asks os))
          (last_notice acc.sync_notice os)
          (risings acc.needs_reauth (map asks os))
          (record_outcomes error_text true acc os (still t))
  unfolding record_outcomes
  record_outcomes-Settled acc [] t h = record {
    recorded = unchanged acc;
    tables = t;
    returns = refl;
    agrees = h;
    flag = refl;
    noted = refl;
    count = refl;
  }
  record_outcomes-Settled acc (o ∷ os) t h =
      let a = record_outcome-Settled acc o t h in
      let b = record_outcomes-Settled a.recorded.account os a.tables a.agrees in
      Settled-at
        (then-Settled (record_outcome error_text true acc o)
          (λ r. record_outcomes error_text true r os) t a b)
        (ap (λ f. last_flag f (map asks os)) a.flag)
        (ap (λ n. last_notice n os) a.noted ∙ last_notice-noted acc.sync_notice o os)
        (ap (λ f. rising acc.needs_reauth (asks o) + risings f (map asks os)) a.flag
          ∙ risings-cons acc.needs_reauth (asks o) (map asks os))
