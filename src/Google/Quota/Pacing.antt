-- ===== src/Google/Quota/Pacing.antt =====
-- What the gate of core/internal/providers/google/quota.go promises of waits and reservations.
use dankcalendar.Base.{
  ℤ, pos, ◌⊎◌, leb, ◌≤◌, refl, ◌+ℤ◌, ◌-ℤ◌, ◌≤ℤ◌, ◌<ℤ◌, ℕ, ◌+◌, ◌*◌, ◌/◌, ◌<◌, ◌≢◌, ◌≡◌, Bool-cases,
  false, inl, inr, Option, some, List, [], ◌∷◌, arith, int_laws, pos_part,
}
use dankcalendar.Base.Int.{+ℤ_parts, -ℤ_parts}
use dankcalendar.Google.Quota.Errors.{Err, is_nil}
use dankcalendar.Google.Quota.{
  Spend, QuotaGate, Verdict, reserve, defer, park, admission, spend_retry, wait_quota,
  max_inline_retry_wait, max_inline_delay, Turn, granted, refused, waiting, Waited, wait_loop, wait,
  ready_at, stop, reserved, second, quota_units_per_second,
}

abbrev pub length : List Turn → ℕ
length [] = 0
length (t ∷ ts) = 1 + length ts

abbrev pub total : List ℤ → ℤ
total [] = pos 0
total (d ∷ ds) = d +ℤ total ds

-- A round that parks does so for a positive delay, within the inline limit.
admission-park :
    (spend : Option Spend) (started now : ℤ) (q : QuotaGate) (spent : ℤ) (d : ℤ)
    → (admission spend started now q spent).0 ≡ park d
    → (pos 0 <ℤ d) × (now -ℤ started +ℤ d ≤ℤ max_inline_delay)
unfolding admission
admission-park spend started now q spent d h = ground arith

admission-reserve :
    (spend : Option Spend) (started now : ℤ) (q : QuotaGate) (spent : ℤ)
    → (admission spend started now q spent).0 ≡ reserve
    → (q.next ≤ℤ now) × (q.blocked_until ≤ℤ now)
unfolding admission
admission-reserve spend started now q spent h = ground (arith, -ℤ_parts (ready_at q) now)

Verdict-cases : (v : Verdict) → (v ≡ reserve) ⊎ ((u : ℤ) × (v ≡ defer u)) ⊎ ((d : ℤ) × (v ≡ park d))
Verdict-cases reserve = inl refl
Verdict-cases (defer u) = inr (inl (u, refl))
Verdict-cases (park d) = inr (inr (d, refl))

-- The budget of one provider holds round by round.
admission-spent :
    (started now : ℤ) (q : QuotaGate) (spent : ℤ)
    → spent ≤ℤ max_inline_retry_wait
    → let spent' = (admission (some spend_retry) started now q spent).1 in
      (spent ≤ℤ spent') × (spent' ≤ℤ max_inline_retry_wait)
unfolding admission spend_retry
admission-spent started now q spent h =
    ground (arith, -ℤ_parts max_inline_retry_wait spent, +ℤ_parts spent (q.blocked_until -ℤ now))

-- The ways a round can go, with what is known in each.
wait_loop_cases {ℓ} :
    (P : Waited → Type ℓ) (spend : Option Spend) (cost : ℕ) (started clock : ℤ) (t : Turn)
    (ts : List Turn) (q : QuotaGate) (spent : ℤ)
    → let now = clock +ℤ pos t.late in
      let here = t.others q in
      let spent' = (admission spend started now here spent).1 in
      let rest = λ (d : ℤ). wait_loop spend cost started (now +ℤ d) ts here spent' in
      ((e : Err) (s : ℤ) → (s ≡ spent) ⊎ (s ≡ spent') → P (stop (refused e) here s))
      → ((admission spend started now here spent).0 ≡ reserve
          → P (stop (granted now) (reserved cost now here) spent'))
      → ((d : ℤ) (e : Err)
          → (admission spend started now here spent).0 ≡ park d
          → P (record { outcome = refused e; gate = here; spent = spent'; sleeps = d ∷ [] }))
      → ((d : ℤ)
          → (admission spend started now here spent).0 ≡ park d
          → P (record (rest d) { sleeps = d ∷ (rest d).sleeps }))
      → P (wait_loop spend cost started clock (t ∷ ts) q spent)
unfolding wait_loop
wait_loop_cases P spend cost started clock t ts q spent refuse grant wake slept =
    let now = clock +ℤ pos t.late in
    let here = t.others q in
    elim (Bool-cases (is_nil t.ctx_err)) [
      | inl e ↦ elim (Verdict-cases (admission spend started now here spent).0) [
        | inl r ↦ rw (e, r, wait_loop) (grant r)
        | inr (inl (u, r)) ↦ rw (e, r, wait_loop) (refuse _ _ (inr refl))
        | inr (inr (d, r)) ↦ elim (Bool-cases (is_nil t.sleep_err)) [
          | inl f ↦ rw (e, r, f, wait_loop) (slept d r)
          | inr f ↦ rw (e, r, f, wait_loop) (wake d _ r)
        ]
      ]
      | inr e ↦ rw (e, wait_loop) (refuse _ _ (inl refl))
    ]

-- What is promised of a wait that has slept so far until `clock`.
record Bounded (started clock : ℤ) (ts : List Turn) (w : Waited) : Type 0 where
  slept : clock -ℤ started +ℤ total w.sleeps ≤ℤ max_inline_delay
  rounds : w.outcome ≡ waiting → clock -ℤ started +ℤ pos (length ts) ≤ℤ max_inline_delay

wait_loop-Bounded :
    (spend : Option Spend) (cost : ℕ) (started clock : ℤ) (ts : List Turn) (q : QuotaGate)
    (spent : ℤ)
    → clock -ℤ started ≤ℤ max_inline_delay
    → Bounded started clock ts (wait_loop spend cost started clock ts q spent)
wait_loop-Bounded spend cost started clock [] q spent h =
    unfold wait_loop in record { slept = omega int_laws; rounds = λ _. omega int_laws }
wait_loop-Bounded spend cost started clock (t ∷ ts) q spent h =
    wait_loop_cases (Bounded started clock (t ∷ ts)) spend cost started clock t ts q spent
      (λ e s _. record { slept = omega int_laws; rounds = λ w. absurd (cc) })
      (λ r. record { slept = omega int_laws; rounds = λ w. absurd (cc) })
      (λ d e r.
        let (pos_d, short) = admission-park spend started _ _ spent d r in
        record { slept = omega int_laws; rounds = λ w. absurd (cc) })
      (λ d r.
        let (pos_d, short) = admission-park spend started _ _ spent d r in
        let ih =
          wait_loop-Bounded spend cost started (clock +ℤ pos t.late +ℤ d) ts (t.others q)
            (admission spend started (clock +ℤ pos t.late) (t.others q) spent).1 (omega int_laws) in
        record { slept = omega (int_laws, ih.slept); rounds = λ w. omega (int_laws, ih.rounds w) })

gt_of_leb : (a b : ℕ) → leb a b ≡ false → b < a
gt_of_leb a b h = ground arith

-- A wait sleeps for two seconds in all at most, whatever the gate, the clock and the other
-- goroutines do, and it returns within two thousand million rounds, since each round that sleeps
-- takes a nanosecond at least.
pub wait_bounds :
    (spend : Option Spend) (cost : ℕ) (started : ℤ) (ts : List Turn) (q : QuotaGate) (spent : ℤ)
    → let w = wait spend cost started ts q spent in
      (total w.sleeps ≤ℤ max_inline_delay)
      × ((length ts ≤ pos_part max_inline_delay) ⊎ (w.outcome ≢ waiting))
unfolding wait
wait_bounds spend cost started ts q spent =
    let b = wait_loop-Bounded spend cost started started ts q spent (omega int_laws) in
    (
      omega (int_laws, b.slept),
      elim (Bool-cases (leb (length ts) (pos_part max_inline_delay))) [
        | inl short ↦ inl (ground arith)
        | inr long ↦ inr (λ e. absurd (omega (int_laws, gt_of_leb _ _ long, b.rounds e)))
      ],
    )

-- The other users of the gate reserve and cool down: they move its two instants forward only.
abbrev Forward : QuotaGate → QuotaGate → Type 0
Forward q r = (q.next ≤ℤ r.next) × (q.blocked_until ≤ℤ r.blocked_until)

abbrev pub Shared : List Turn → Type 0
Shared [] = Unit
Shared (t ∷ ts) = ((q : QuotaGate) → Forward q (t.others q)) × Shared ts

record Admitted (cost : ℕ) (q : QuotaGate) (w : Waited) (now : ℤ) : Type 0 where
  open_gate : (q.next ≤ℤ now) × (q.blocked_until ≤ℤ now)
  booked : w.gate.next ≡ now +ℤ pos (cost * second / quota_units_per_second)

wait_loop-Admitted :
    (spend : Option Spend) (cost : ℕ) (started clock : ℤ) (ts : List Turn) (q : QuotaGate)
    (spent : ℤ)
    → Shared ts
    → (now : ℤ) → (wait_loop spend cost started clock ts q spent).outcome ≡ granted now
    → Admitted cost q (wait_loop spend cost started clock ts q spent) now
wait_loop-Admitted spend cost started clock [] q spent s = unfold wait_loop in λ now h. absurd (cc)
wait_loop-Admitted spend cost started clock (t ∷ ts) q spent s =
    wait_loop_cases (λ w. (now : ℤ) → w.outcome ≡ granted now → Admitted cost q w now) spend cost
      started clock t ts q spent (λ e s _ now h. absurd (cc))
      (λ r now h.
        let e : clock +ℤ pos t.late ≡ now = cc in
        let (n, b) = admission-reserve spend started _ _ spent r in
        let (fn, fb) = s.0 q in
        rw (← e) (record { open_gate = (omega int_laws, omega int_laws); booked = refl }))
      (λ d e r now h. absurd (cc))
      (λ d r now h.
        let ih =
          wait_loop-Admitted spend cost started (clock +ℤ pos t.late +ℤ d) ts (t.others q)
            (admission spend started (clock +ℤ pos t.late) (t.others q) spent).1 (s.1) now h in
        let (fn, fb) = s.0 q in
        let (n, b) = ih.open_gate in
        record { open_gate = (omega int_laws, omega int_laws); booked = ih.booked })

-- Requests are paced. When one wait is granted at `first`, and a later wait on the same gate is
-- granted at `then`, with other goroutines only booking and cooling down in between and meanwhile,
-- then `then` lies the cost of the first request after `first`, a quarter of a second for each
-- unit, and no cooldown that the gate held is still running.
pub grants_spaced :
    (spend : Option Spend) (cost cost' : ℕ) (started started' first then : ℤ) (ts ts' : List Turn)
    (q q' : QuotaGate) (spent spent' : ℤ)
    → Shared ts
    → Shared ts'
    → (wait spend cost started ts q spent).outcome ≡ granted first
    → Forward (wait spend cost started ts q spent).gate q'
    → (wait spend cost' started' ts' q' spent').outcome ≡ granted then
    → (first +ℤ pos (cost * second / quota_units_per_second) ≤ℤ then) × (q'.blocked_until ≤ℤ then)
unfolding wait
grants_spaced spend cost cost' started started' first then ts ts' q q' spent spent' s s' g f g' =
    let a = wait_loop-Admitted spend cost started started ts q spent s first g in
    let b = wait_loop-Admitted spend cost' started' started' ts' q' spent' s' then g' in
    let h : first +ℤ pos (cost * second / quota_units_per_second) ≤ℤ q'.next =
      rw (← a.booked) f.0 in
    (omega (int_laws, b.open_gate.0), b.open_gate.1)

abbrev Budget : ℤ → Waited → Type 0
Budget spent w = (spent ≤ℤ w.spent) × (w.spent ≤ℤ max_inline_retry_wait)

wait_loop-Budget :
    (started clock : ℤ) (ts : List Turn) (q : QuotaGate) (spent : ℤ)
    → spent ≤ℤ max_inline_retry_wait
    → Budget spent (wait_loop (some spend_retry) 1 started clock ts q spent)
wait_loop-Budget started clock [] q spent h = unfold wait_loop in (omega arith, h)
wait_loop-Budget started clock (t ∷ ts) q spent h =
    let now = clock +ℤ pos t.late in
    let spent' = (admission (some spend_retry) started now (t.others q) spent).1 in
    let (up, low) = admission-spent started now (t.others q) spent h in
    wait_loop_cases (Budget spent) (some spend_retry) 1 started clock t ts q spent
      (λ e s known. elim known [
        | inl same ↦ rw same (omega arith, h)
        | inr same ↦ rw same (up, low)
      ])
      (λ r. (up, low)) (λ d e r. (up, low))
      (λ d r.
        let ih = wait_loop-Budget started (now +ℤ d) ts (t.others q) spent' low in
        (omega (arith, ih.0), ih.1))

-- One provider sleeps through at most five seconds of cooldowns: the time that `waitQuota` has
-- charged never falls in a wait, and never passes the limit if it has not passed it before.
wait_quota_budget :
    (started : ℤ) (ts : List Turn) (q : QuotaGate) (spent : ℤ)
    → spent ≤ℤ max_inline_retry_wait
    → let w = wait_quota started ts q spent in
      (spent ≤ℤ w.spent) × (w.spent ≤ℤ max_inline_retry_wait)
unfolding wait_quota wait
wait_quota_budget started ts q spent h = wait_loop-Budget started started ts q spent h
