-- ===== src/Google/Quota/Calls/Retry.antt =====
-- The retries of core/internal/providers/google/quota.go: how often a request runs, and how long a
-- server's cooldown lasts.
use Prim.Native.Nat.{min}
use dankcalendar.Base.{
  ℤ, pos, ◌+ℤ◌, ◌*ℤ◌, ◌≤ℤ◌, ◌<ℤ◌, ℕ, suc, ◌+◌, ◌*◌, ◌^◌, ◌≤◌, ◌<◌, ◌≡◌, ◌≢◌, ◌⊎◌, inl, inr, refl,
  Bool, false, true, Option, some, ltb_ℤ, if◌then◌else◌, none, leb, not, ◌||◌, ◌&&◌, ◌==◌, nat_eq,
  contains, max_ℤ, sym, ◌∙◌, subst, Bool-cases, Option-cases, List, [], ◌∷◌, String, arith,
  int_laws,
}
use dankcalendar.Base.Int.{+ℤ_parts}
use dankcalendar.Google.Quota.Errors.{Err, deferred, ApiError, as_api}
use dankcalendar.Google.Quota.{
  QuotaGate, second, cooldown, Outcome, granted, refused, waiting, wait_quota,
}
use dankcalendar.Google.Quota.Calls.{
  max_read_retries, quota_limited, server_delay, read_retry_delay, Response, Attempt, result,
  failure, Called, called, CallOutcome, failed, pending, quota_call,
}

Outcome-cases :
    (o : Outcome) → ((e : Err) × (o ≡ refused e)) ⊎ (o ≡ waiting) ⊎ ((t : ℤ) × (o ≡ granted t))
Outcome-cases (granted t) = inr (inr (t, refl))
Outcome-cases (refused e) = inl (e, refl)
Outcome-cases waiting = inr (inl refl)

abbrev length : {A : Type 0} → List (Attempt A) → ℕ
length [] = 0
length (a ∷ rest) = suc (length rest)

Response-cases :
    {A : Type 0} (r : Response A) → ((v : A) × (r ≡ result v)) ⊎ ((e : Err) × (r ≡ failure e))
Response-cases (result v) = inl (v, refl)
Response-cases (failure e) = inr (e, refl)

-- What is promised of the loop from the attempt `n` on.
record Bounds {A : Type 0} (read : Bool) (n : ℕ) (attempts : List (Attempt A)) (c : Called A)
    : Type 0 where
  once : read ≡ false → c.calls ≤ 1
  often : c.calls + n ≤ suc max_read_retries
  ends : max_read_retries < n + length attempts → c.outcome ≢ pending

-- The positive number of seconds that the header asks for, or nothing.
abbrev pub asked : (String → Option ℤ) → String → ℤ
asked parse_int header = elim (parse_int header) [
  | none ↦ pos 0
  | some n ↦ if ltb_ℤ (pos 0) n then n *ℤ pos second else pos 0
]

asked-cases :
    (parse_int : String → Option ℤ) (header : String)
    → (asked parse_int header ≡ pos 0)
      ⊎ ((n : ℤ) × (parse_int header ≡ some n)
          × (pos 0 <ℤ n)
          × (asked parse_int header ≡ n *ℤ pos second))
asked-cases parse_int header = elim (Option-cases (parse_int header)) [
  | inl p ↦ inl (rw (asked, p) refl)
  | inr (n, p) ↦ elim (Bool-cases (ltb_ℤ (pos 0) n)) [
    | inl q ↦ inr (n, p, ground arith, rw (asked, p, q) refl)
    | inr q ↦ inl (rw (asked, p, q) refl)
  ]
]

calls_limit :
    (read : Bool) (n : ℕ)
    → (read ≡ false → n ≤ 1)
    → n ≤ suc max_read_retries
    → n ≤ (if read then suc max_read_retries else 1)
calls_limit true n one many = many
calls_limit false n one many = one refl

cooldown-lower :
    (q : QuotaGate) (now d : ℤ) (jitter : ℕ) (e : Err)
    → now +ℤ d ≤ℤ (cooldown q now (d +ℤ pos jitter) e).blocked_until
unfolding cooldown
cooldown-lower q now d jitter e =
    elim (Bool-cases (ltb_ℤ q.blocked_until (now +ℤ (d +ℤ pos jitter)))) [
      | inl t ↦ rw t (omega int_laws)
      | inr t ↦
          rw t (
            ground (arith, +ℤ_parts now d, +ℤ_parts d (pos jitter), +ℤ_parts now (d +ℤ pos jitter)))
    ]

later : (t b d : ℤ) (jitter : ℕ) → b ≤ℤ d → t +ℤ b ≤ℤ t +ℤ (d +ℤ pos jitter)
later t b d jitter h = omega (int_laws, h)

blocked : (t b d u : ℤ) → b ≤ℤ d → t +ℤ d ≤ℤ u → t +ℤ b ≤ℤ u
blocked t b d u h k = omega (int_laws, h, k)

some_of : (y x : ApiError) → some y ≡ some x → y ≡ x
some_of y x h = ground arith

module _ (parse_int : String → Option ℤ) (parse_time : String → Option ℤ) where
  quota_call_cases {ℓ} :
      {A : Type 0} (P : Called A → Type ℓ) (read : Bool) (n : ℕ) (a : Attempt A)
      (rest : List (Attempt A)) (q : QuotaGate) (spent : ℤ)
      → ((o : CallOutcome A) (g : QuotaGate) (s : ℤ) (k : ℕ)
          → k ≤ 1
          → o ≢ pending
          → P (called o g s k))
      → ((g : QuotaGate) (s : ℤ)
          → read ≡ true
          → n < max_read_retries
          → let later = quota_call parse_int parse_time read (suc n) rest g s in
            P (record later { calls = suc later.calls }))
      → P (quota_call parse_int parse_time read n (a ∷ rest) q spent)
  unfolding quota_call
  quota_call_cases P read n a rest q spent stop again =
      elim (Outcome-cases (wait_quota a.started a.turns q spent).outcome) [
        | inl (e, r) ↦ rw (r, quota_call) (stop _ _ _ _ (omega arith) (λ h. cc))
        | inr (inl r) ↦ rw (r, quota_call) (stop _ _ _ _ (omega arith) (λ h. cc))
        | inr (inr (now, r)) ↦ elim (Response-cases a.response) [
          | inl (v, f) ↦ rw (r, f, quota_call) (stop _ _ _ _ (omega arith) (λ h. cc))
          | inr (e, f) ↦
              elim (Option-cases (read_retry_delay parse_int parse_time e n a.failed_at)) [
                | inl g ↦ rw (r, f, g, quota_call) (stop _ _ _ _ (omega arith) (λ h. cc))
                | inr (d, g) ↦ elim (Bool-cases (not read || leb max_read_retries n)) [
                  | inl t ↦ rw (r, f, g, t, quota_call) (stop _ _ _ _ (omega arith) (λ h. cc))
                  | inr t ↦ rw (r, f, g, t, quota_call) (again _ _ (ground arith) (ground arith))
                ]
              ]
        ]
      ]

  quota_call-Bounds :
      {A : Type 0} (read : Bool) (n : ℕ) (attempts : List (Attempt A)) (q : QuotaGate) (spent : ℤ)
      → n ≤ max_read_retries
      → Bounds read n attempts (quota_call parse_int parse_time read n attempts q spent)
  quota_call-Bounds read n [] q spent h =
      unfold quota_call in
      record { once = λ _. omega arith; often = omega arith; ends = λ l. absurd (omega arith) }
  quota_call-Bounds read n (a ∷ rest) q spent h =
      quota_call_cases (Bounds read n (a ∷ rest)) read n a rest q spent
        (λ o g s k few end. record { once = λ _. few; often = omega arith; ends = λ _. end })
        (λ g s r more.
          let ih = quota_call-Bounds read (suc n) rest g s (omega arith) in
          record {
            once = λ w. absurd (cc);
            often = omega (arith, ih.often);
            ends = λ l. ih.ends (omega arith);
          })

  -- A request that is not a read runs once at most, and a read six times at most, whatever the
  -- server answers; and with six attempts the loop ends, unless one of them is still waiting.
  pub quota_call_bounds :
      {A : Type 0} (read : Bool) (attempts : List (Attempt A)) (q : QuotaGate) (spent : ℤ)
      → let c = quota_call parse_int parse_time read 0 attempts q spent in
        (c.calls ≤ (if read then suc max_read_retries else 1))
        × ((length attempts ≤ max_read_retries) ⊎ (c.outcome ≢ pending))
  quota_call_bounds read attempts q spent =
      let b = quota_call-Bounds read 0 attempts q spent (omega arith) in
      (
        calls_limit read _ b.once (omega (arith, b.often)),
        elim (Bool-cases (leb (length attempts) max_read_retries)) [
          | inl few ↦ inl (ground arith)
          | inr many ↦ inr (b.ends (ground arith))
        ],
      )

  server_delay_seconds :
      (header : String) (now n : ℤ)
      → parse_int header ≡ some n
      → pos 0 <ℤ n
      → server_delay parse_int parse_time header now ≡ some (n *ℤ pos second)
  unfolding server_delay
  server_delay_seconds header now n p q = rw (p, server_delay) (ground arith)

  -- A retry waits for two to the power of the attempt in seconds at least, up to a minute, and for
  -- the seconds that the server's header asks for; only errors of the API are retried.
  read_retry_delay_lower :
      (e : Err) (attempt : ℕ) (now : ℤ) {d : ℤ}
      → read_retry_delay parse_int parse_time e attempt now ≡ some d
      → (x : ApiError) × (as_api e ≡ some x)
        × (pos (second * 2 ^ min attempt 6) ≤ℤ d)
        × (asked parse_int x.retry_after ≤ℤ d)
  unfolding read_retry_delay
  read_retry_delay_lower e attempt now {d} h = elim (Option-cases (as_api e)) [
    | inl f ↦ absurd (ground arith)
    | inr (x, f) ↦ (
      x,
      f,
      ground arith,
      elim (asked-cases parse_int x.retry_after) [
        | inl z ↦ rw z (ground arith)
        | inr (n, p, q, k) ↦ rw k (ground (arith, server_delay_seconds x.retry_after now n p q))
      ],
    )
  ]

  -- What is retried: what the quota limits, and the errors of a server.
  abbrev pub IsRetryable : Err → ApiError → Type 0
  IsRetryable e x = (quota_limited e ≡ true) ⊎ (contains (500 ∷ 502 ∷ 503 ∷ 504 ∷ []) x.code ≡ true)

  unskipped :
      (e : Err) (x : ApiError)
      → IsRetryable e x
      → (not (quota_limited e)
          && not (x.code == 500)
          && not (x.code == 502)
          && not (x.code == 503)
          && not (x.code == 504))
        ≡ false
  unskipped e x (inl limited) = rw limited refl
  unskipped e x (inr failing) = ground arith

  retryable_delay :
      (e : Err) (x : ApiError) (attempt : ℕ) (now : ℤ)
      → as_api e ≡ some x
      → IsRetryable e x
      → (d : ℤ) × (read_retry_delay parse_int parse_time e attempt now ≡ some d)
  unfolding read_retry_delay
  retryable_delay e x attempt now f r =
      let backoff = pos (second * 2 ^ min attempt 6) in
      elim (Option-cases (server_delay parse_int parse_time x.retry_after now)) [
        | inl s ↦ (backoff, rw (f, unskipped e x r, s, read_retry_delay) refl)
        | inr (least, s) ↦ (max_ℤ backoff least, rw (f, unskipped e x r, s, read_retry_delay) refl)
      ]

  -- A mutation that was admitted and fails with a retryable error of the API is not run again: the caller
  -- gets that error as deferred, until a time that lies after its return by two to the power of the
  -- attempt in seconds at least, up to a minute, and by the seconds that the header Retry-After asks for;
  -- and the gate is blocked for that long at least.
  pub mutation_deferred :
      {A : Type 0} (n : ℕ) (a : Attempt A) (rest : List (Attempt A)) (q : QuotaGate) (spent now : ℤ)
      (e : Err) (x : ApiError)
      → (wait_quota a.started a.turns q spent).outcome ≡ granted now
      → a.response ≡ failure e
      → as_api e ≡ some x
      → IsRetryable e x
      → let c = quota_call parse_int parse_time false n (a ∷ rest) q spent in
        (until : ℤ) × (c.outcome ≡ failed (deferred until e))
        × (c.calls ≡ 1)
        × (a.returned_at +ℤ pos (second * 2 ^ min n 6) ≤ℤ until)
        × (a.returned_at +ℤ asked parse_int x.retry_after ≤ℤ until)
        × (a.cooled_at +ℤ pos (second * 2 ^ min n 6) ≤ℤ c.gate.blocked_until)
        × (a.cooled_at +ℤ asked parse_int x.retry_after ≤ℤ c.gate.blocked_until)
  unfolding quota_call
  mutation_deferred n a rest q spent now e x g f api retried =
      let (d, r) = retryable_delay e x n a.failed_at api retried in
      let (y, api', backoff, header) = read_retry_delay_lower e n a.failed_at r in
      let same : y ≡ x = some_of y x (sym api' ∙ api) in
      let seconds : asked parse_int x.retry_after ≤ℤ d =
        subst (λ z. asked parse_int z.retry_after ≤ℤ d) same header in
      let cold =
        cooldown-lower (wait_quota a.started a.turns q spent).gate a.cooled_at d a.jitter e in
      rw (g, f, r, quota_call)
        (
          a.returned_at +ℤ (d +ℤ pos a.jitter),
          refl,
          refl,
          later _ _ d a.jitter backoff,
          later _ _ d a.jitter seconds,
          blocked _ _ d _ backoff cold,
          blocked _ _ d _ seconds cold,
        )
