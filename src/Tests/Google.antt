-- ===== src/Tests/Google.antt =====
-- The gate and the retries of core/internal/providers/google/quota.go on small inputs.
use Prim.Native.Nat.{min}
use dankcalendar.Base.{
  ℤ, pos, ◌+ℤ◌, ◌-ℤ◌, nat_eq, ◌≤ℤ◌, pos_part, ℕ, ◌*◌, ◌/◌, ◌^◌, ◌≤◌, ◌≡◌, ◌≢◌, ◌⊎◌, inl, refl,
  String, false, true, List, [], ◌∷◌, Option, none, some, arith,
}
use dankcalendar.Google.Quota.Errors.{Err, nil, api, deferred, as_api, is_nil}
use dankcalendar.Google.Quota.{
  QuotaGate, second, quota_units_per_second, max_inline_delay, spend_retry, Turn, granted, waiting,
  wait, wait_quota, wait_loop, admission, may_spend,
}
use dankcalendar.Google.Quota.Pacing.{total, wait_bounds, Shared, grants_spaced}
use dankcalendar.Google.Quota.Calls.{
  quota_limited, max_read_retries, Attempt, failure, failed, pending, quota_call,
}
use dankcalendar.Google.Quota.Calls.Retry.{asked, quota_call_bounds, mutation_deferred}

abbrev turn : Turn
turn = record { ctx_err = nil; others = λ q. q; late = 0; sleep_err = nil }

abbrev turns : List Turn
turns = turn ∷ turn ∷ []

abbrev gate : QuotaGate
gate = record { next = pos 1500; blocked_until = pos 900; cause = nil }

abbrev no_int : String → Option ℤ
no_int s = none

abbrev busy : Err
busy = api (record { code = 429; reasons = []; retry_after = ""; message = "" })

abbrev busy_attempt : Attempt ℕ
busy_attempt = record {
  started = pos 1000;
  turns = turns;
  response = failure busy;
  failed_at = pos 2000;
  cooled_at = pos 2100;
  returned_at = pos 2200;
  jitter = 7;
}

wait_bounds_example :
    (total (wait (some spend_retry) 1 (pos 1000) turns gate (pos 0)).sleeps ≤ℤ max_inline_delay)
    × ((2 ≤ pos_part max_inline_delay)
        ⊎ ((wait (some spend_retry) 1 (pos 1000) turns gate (pos 0)).outcome ≢ waiting))
wait_bounds_example = wait_bounds (some spend_retry) 1 (pos 1000) turns gate (pos 0)

abbrev after : QuotaGate
after = (wait none 1 (pos 1000) turns gate (pos 0)).gate

first_granted : (wait none 1 (pos 1000) turns gate (pos 0)).outcome ≡ granted (pos 1500)
unfolding wait wait_loop admission may_spend is_nil ◌+ℤ◌ ◌-ℤ◌
first_granted = refl

then_granted : (wait none 1 (pos 2000) turns after (pos 0)).outcome ≡ granted (pos 250001500)
unfolding wait wait_loop admission may_spend is_nil ◌+ℤ◌ ◌-ℤ◌
then_granted = refl

quota_granted : (wait_quota (pos 1000) turns gate (pos 0)).outcome ≡ granted (pos 1500)
unfolding wait_quota wait wait_loop admission may_spend is_nil ◌+ℤ◌ ◌-ℤ◌ spend_retry
quota_granted = refl

abbrev shared : Shared turns
shared = ((λ q. (omega arith, omega arith)), ((λ q. (omega arith, omega arith)), tt))

grants_spaced_example :
    (pos 1500 +ℤ pos (1 * second / quota_units_per_second) ≤ℤ pos 250001500)
    × (after.blocked_until ≤ℤ pos 250001500)
grants_spaced_example =
    grants_spaced none 1 1 (pos 1000) (pos 2000) (pos 1500) (pos 250001500) turns turns gate after
      (pos 0) (pos 0) shared shared first_granted (omega arith, omega arith) then_granted

quota_call_bounds_example :
    ((quota_call no_int no_int false 0 (busy_attempt ∷ []) gate (pos 0)).calls ≤ 1)
    × ((1 ≤ max_read_retries)
        ⊎ ((quota_call no_int no_int false 0 (busy_attempt ∷ []) gate (pos 0)).outcome ≢ pending))
quota_call_bounds_example = quota_call_bounds no_int no_int false (busy_attempt ∷ []) gate (pos 0)

-- Twenty seconds are asked for.
abbrev twenty : String → Option ℤ
twenty text = some (pos 20)

busy_api : as_api busy ≡ some (record { code = 429; reasons = []; retry_after = ""; message = "" })
unfolding as_api
busy_api = refl

busy_limited : quota_limited busy ≡ true
unfolding quota_limited as_api nat_eq
busy_limited = refl

mutation_deferred_example :
    let c = quota_call twenty no_int false 0 (busy_attempt ∷ []) gate (pos 0) in
    (until : ℤ) × (c.outcome ≡ failed (deferred until busy))
    × (c.calls ≡ 1)
    × (pos 2200 +ℤ pos (second * 2 ^ min 0 6) ≤ℤ until)
    × (pos 2200 +ℤ asked twenty "" ≤ℤ until)
    × (pos 2100 +ℤ pos (second * 2 ^ min 0 6) ≤ℤ c.gate.blocked_until)
    × (pos 2100 +ℤ asked twenty "" ≤ℤ c.gate.blocked_until)
mutation_deferred_example =
    mutation_deferred twenty no_int 0 busy_attempt [] gate (pos 0) (pos 1500) busy
      (record { code = 429; reasons = []; retry_after = ""; message = "" }) quota_granted refl
      busy_api (inl busy_limited)
