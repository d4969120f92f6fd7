-- ===== src/Google/Quota/Calls.antt =====
-- core/internal/providers/google/quota.go: which errors are retried, after how long, and the
-- retry loop round a request. `strconv.ParseInt(s, 10, 32)` and `http.ParseTime` are parameters.
pub mod Retry
use Prim.Native.Nat.{min}
use dankcalendar.Base.{
  ℤ, pos, ◌+ℤ◌, ◌-ℤ◌, ◌*ℤ◌, ltb_ℤ, max_ℤ, ℕ, zero, suc, ◌+◌, ◌*◌, ◌^◌, leb, if◌then◌else◌, Bool,
  true, false, not, ◌&&◌, ◌||◌, Option, none, some, List, [], ◌∷◌, String, ◌==◌, string_eq, nat_eq,
}
use dankcalendar.Google.Quota.Errors.{Err, deferred, ApiError, as_api}
use dankcalendar.Google.Quota.{
  QuotaGate, second, cooldown, Turn, Outcome, granted, refused, waiting, wait_quota,
}

abbrev pub max_read_retries : ℕ
max_read_retries = 5

limited_reason : List String → Bool
limited_reason [] = false
limited_reason (r ∷ rs) =
    r == "rateLimitExceeded" || r == "userRateLimitExceeded" || limited_reason rs

unfoldable pub quota_limited : Err → Bool
unfolding as_api limited_reason
quota_limited err = elim (as_api err) [
  | none ↦ false
  | some e ↦
      if e.code == 429
      then true
      else if not (e.code == 403)
      then false
      else limited_reason e.reasons
]

module _ (parse_int : String → Option ℤ) (parse_time : String → Option ℤ) where
  -- The delay that the header asks for, if it holds a positive number of seconds or a date.
  unfoldable pub server_delay : String → ℤ → Option ℤ
  server_delay header now =
      let by_date : Option ℤ = elim (parse_time header) [
        | none ↦ none
        | some at ↦ some (at -ℤ now)
      ] in
      elim (parse_int header) [
        | none ↦ by_date
        | some n ↦ if ltb_ℤ (pos 0) n then some (n *ℤ pos second) else by_date
      ]

  unfoldable pub read_retry_delay : Err → ℕ → ℤ → Option ℤ
  read_retry_delay err attempt now = elim (as_api err) [
    | none ↦ none
    | some e ↦
        let delay = pos (second * 2 ^ min attempt 6) in
        if not (quota_limited err)
          && not (e.code == 500)
          && not (e.code == 502)
          && not (e.code == 503)
          && not (e.code == 504)
        then none
        else elim (server_delay e.retry_after now) [
          | none ↦ some delay
          | some least ↦ some (max_ℤ delay least)
        ]
  ]

-- What `call` answers: a result, or an error.
pub data Response (A : Type 0) : Type 0 where
  result : A → Response A
  failure : Err → Response A

-- What the world does in one attempt: the start and the rounds of the wait, the response, the
-- clock as it is read for the delay, by `cooldown` and for the error, and the jitter.
pub record Attempt (A : Type 0) : Type 0 where
  pub started : ℤ
  pub turns : List Turn
  pub response : Response A
  pub failed_at : ℤ
  pub cooled_at : ℤ
  pub returned_at : ℤ
  pub jitter : ℕ

-- `in_wait` says that the wait of an attempt has not returned, `pending` that the attempts ran out.
pub data CallOutcome (A : Type 0) : Type 0 where
  success : A → CallOutcome A
  failed : Err → CallOutcome A
  in_wait pending : CallOutcome A

pub record Called (A : Type 0) : Type 0 where
  pub outcome : CallOutcome A
  pub gate : QuotaGate
  pub spent : ℤ
  -- How often `call` ran.
  pub calls : ℕ

abbrev pub called : {A : Type 0} → CallOutcome A → QuotaGate → ℤ → ℕ → Called A
called o q spent n = record { outcome = o; gate = q; spent = spent; calls = n }

module _ (parse_int : String → Option ℤ) (parse_time : String → Option ℤ) {A : Type 0} where
  -- `quotaCall`, from the attempt of the given number on.
  unfoldable pub quota_call : Bool → ℕ → List (Attempt A) → QuotaGate → ℤ → Called A
  quota_call read attempt [] q spent = called pending q spent 0
  quota_call read attempt (a ∷ rest) q spent =
      let w = wait_quota a.started a.turns q spent in
      elim w.outcome [
        | refused e ↦ called (failed e) w.gate w.spent 0
        | waiting ↦ called in_wait w.gate w.spent 0
        | granted now ↦ elim a.response [
          | result v ↦ called (success v) w.gate w.spent 1
          | failure e ↦ elim (read_retry_delay parse_int parse_time e attempt a.failed_at) [
            | none ↦ called (failed e) w.gate w.spent 1
            | some least ↦
                let delay = least +ℤ pos a.jitter in
                let q' = cooldown w.gate a.cooled_at delay e in
                let later = quota_call read (suc attempt) rest q' w.spent in
                if not read || leb max_read_retries attempt
                then called (failed (deferred (a.returned_at +ℤ delay) e)) q' w.spent 1
                else record later { calls = suc later.calls }
          ]
        ]
      ]
