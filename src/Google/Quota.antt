-- ===== src/Google/Quota.antt =====
-- core/internal/providers/google/quota.go: the gate that paces one account's requests. Instants
-- are nanoseconds since Go's zero time. What another goroutine does to the shared gate, the delay
-- of the scheduler and the result of a sleep enter as the turns of the loop.
pub mod Pacing
pub mod Errors
pub mod Calls
use dankcalendar.Base.{
  ℤ, pos, ◌+ℤ◌, ◌-ℤ◌, ltb_ℤ, max_ℤ, ℕ, ◌*◌, ◌/◌, if◌then◌else◌, Bool, true, false, ◌||◌, not,
  Option, none, some, List, [], ◌∷◌,
}
use Errors.{Err, deferred, is_nil}

abbrev pub second : ℕ
second = 1000000000

abbrev pub quota_units_per_second : ℕ
quota_units_per_second = 4

abbrev pub max_inline_delay : ℤ
max_inline_delay = pos (2 * second)

abbrev pub max_inline_retry_wait : ℤ
max_inline_retry_wait = pos (5 * second)

pub record QuotaGate : Type 0 where
  pub next : ℤ
  pub blocked_until : ℤ
  pub cause : Err

abbrev new_quota_gate : QuotaGate
new_quota_gate = record { next = pos 0; blocked_until = pos 0; cause = Err.nil }

-- `cooldown` at the instant `now`.
unfoldable pub cooldown : QuotaGate → ℤ → ℤ → Err → QuotaGate
cooldown q now delay cause =
    let until = now +ℤ delay in
    if ltb_ℤ q.blocked_until until then record q { blocked_until = until; cause = cause } else q

-- `spend` asks for inline waiting time, and changes the time spent so far.
abbrev pub Spend : Type 0
Spend = ℤ → ℤ → Bool × ℤ

-- The closure of `waitQuota`: an amount asked for, and `p.retryWait`.
unfoldable pub spend_retry : Spend
spend_retry delay spent =
    if ltb_ℤ (max_inline_retry_wait -ℤ spent) delay then (false, spent) else (true, spent +ℤ delay)

-- What one round of the loop decides under the lock.
pub data Verdict : Type 0 where
  reserve : Verdict
  defer park : ℤ → Verdict

abbrev pub ready_at : QuotaGate → ℤ
ready_at q = if ltb_ℤ q.next q.blocked_until then q.blocked_until else q.next

-- The last disjunct of the test in `wait`: whether the cooldown may be slept through.
unfoldable pub may_spend : Option Spend → ℤ → ℤ → Bool × ℤ
may_spend none amount spent = (true, spent)
may_spend (some f) amount spent = if ltb_ℤ (pos 0) amount then f amount spent else (true, spent)

unfoldable pub admission : Option Spend → ℤ → ℤ → QuotaGate → ℤ → Verdict × ℤ
unfolding may_spend
admission spend started now q spent =
    let delay = ready_at q -ℤ now in
    let amount = max_ℤ (pos 0) (q.blocked_until -ℤ now) in
    let (allowed, spent') = may_spend spend amount spent in
    if not (ltb_ℤ (pos 0) delay)
    then (reserve, spent)
    else if ltb_ℤ max_inline_delay delay || ltb_ℤ max_inline_delay (now -ℤ started +ℤ delay)
    then (defer (ready_at q), spent)
    else if allowed
    then (park delay, spent')
    else (defer (ready_at q), spent')

-- One round: `ctx.Err()`, what other goroutines have done to the gate since the last round, how
-- much later than the clock of the loop the instant is read, and the error of the sleep.
pub record Turn : Type 0 where
  pub ctx_err : Err
  pub others : QuotaGate → QuotaGate
  pub late : ℕ
  pub sleep_err : Err

pub data Outcome : Type 0 where
  granted : ℤ → Outcome
  refused : Err → Outcome
  waiting : Outcome

pub record Waited : Type 0 where
  pub outcome : Outcome
  pub gate : QuotaGate
  pub spent : ℤ
  pub sleeps : List ℤ

abbrev pub stop : Outcome → QuotaGate → ℤ → Waited
stop o q spent = record { outcome = o; gate = q; spent = spent; sleeps = [] }

abbrev pub reserved : ℕ → ℤ → QuotaGate → QuotaGate
reserved cost now q = record q { next = now +ℤ pos (cost * second / quota_units_per_second) }

-- The loop of `wait`. A timer never fires early, so after a sleep the clock has moved on by the
-- delay at least. `waiting` says that the turns ran out while the call still waits.
unfoldable pub wait_loop : Option Spend → ℕ → ℤ → ℤ → List Turn → QuotaGate → ℤ → Waited
wait_loop spend cost started clock [] q spent = stop waiting q spent
wait_loop spend cost started clock (t ∷ ts) q spent =
    let now = clock +ℤ pos t.late in
    let here = t.others q in
    let (verdict, spent') = admission spend started now here spent in
    elim (is_nil t.ctx_err) [
      | false ↦ stop (refused t.ctx_err) here spent
      | true ↦ elim verdict [
        | reserve ↦ stop (granted now) (reserved cost now here) spent'
        | defer until ↦ stop (refused (deferred until here.cause)) here spent'
        | park delay ↦
            let rest = wait_loop spend cost started (now +ℤ delay) ts here spent' in
            elim (is_nil t.sleep_err) [
              | false ↦ record {
                outcome = refused t.sleep_err;
                gate = here;
                spent = spent';
                sleeps = delay ∷ [];
              }
              | true ↦ record rest { sleeps = delay ∷ rest.sleeps }
            ]
      ]
    ]

unfoldable pub wait : Option Spend → ℕ → ℤ → List Turn → QuotaGate → ℤ → Waited
wait spend cost started ts q spent = wait_loop spend cost started started ts q spent

unfoldable pub wait_quota : ℤ → List Turn → QuotaGate → ℤ → Waited
wait_quota = wait (some spend_retry) 1
