-- ===== src/Client/Requests/Retries.antt =====
-- How often a request is sent, how long the client waits, and what comes of it.
use blindmarkets.Base.{
  ◌^◌, leb, ℕ, zero, suc, ◌+◌, ◌*◌, ◌<◌, ◌≤◌, ◌≡◌, refl, sym, ◌∙◌, ap, inl, inr, Bool, true, false,
  not, ◌&&◌, Text, length, ltb, Bool-cases, repeat, if◌then◌else◌, arith,
}
use blindmarkets.Http.{Reply, no_reply, reply, is_success}
use blindmarkets.Client.Requests.{
  GatewayClient, ClientResult, ok, err, gateway_error, request_failed, ClientRequest, Trace,
  saturate, compute_backoff, is_retryable_status, send, sleep, try_send, send_with_retry,
}

abbrev pub is_retried : Reply → Bool
is_retried no_reply = true
is_retried (reply status body) = not (is_success status) && is_retryable_status status

abbrev pub verdict : Reply → ClientResult Text
verdict no_reply = err request_failed
verdict (reply status body) = if is_success status then ok body else err (gateway_error status body)

compute_backoff-le :
    (draw : ℕ → ℕ) (c : GatewayClient) (attempt : ℕ)
    → draw c.retry_jitter_ms ≤ c.retry_jitter_ms
    → compute_backoff draw c attempt ≤ c.retry_max_delay_ms + c.retry_jitter_ms
unfolding compute_backoff
compute_backoff-le draw c attempt h = ground arith

-- The delay before the jitter: the base, doubled with each attempt, up to the greatest delay.
abbrev pub doubled : GatewayClient → ℕ → ℕ
doubled c attempt =
    let base = saturate (c.retry_base_delay_ms * saturate (2 ^ attempt)) in
    if leb base c.retry_max_delay_ms then base else c.retry_max_delay_ms

-- The delays of so many retries after an attempt, together.
unfoldable pub all_doubled : GatewayClient → ℕ → ℕ → ℕ
all_doubled c attempt zero = 0
all_doubled c attempt (suc retries) = doubled c attempt + all_doubled c (suc attempt) retries

doubled-compute_backoff :
    (draw : ℕ → ℕ) (c : GatewayClient) (attempt : ℕ)
    → doubled c attempt ≤ compute_backoff draw c attempt
unfolding compute_backoff
doubled-compute_backoff draw c attempt = ground arith

-- One wait more, each of at most `bound`.
one_wait_le :
    (waited start delay retries bound : ℕ)
    → waited ≤ start + delay + retries * bound
    → delay ≤ bound
    → waited ≤ start + suc retries * bound
one_wait_le waited start delay retries bound h d = omega arith

one_wait_more :
    (waited start delay least rest : ℕ)
    → start + delay + rest ≤ waited
    → least ≤ delay
    → start + (least + rest) ≤ waited
one_wait_more waited start delay least rest h d = omega arith

module _ (server : ℕ → ClientRequest → Reply) (draw : ℕ → ℕ → ℕ) (c : GatewayClient)
    (r : ClientRequest) where
  abbrev longest : ℕ
  longest = c.retry_max_delay_ms + c.retry_jitter_ms

  pub record Sent (attempt : ℕ) (t t' : Trace) (result : ClientResult Text) : Type 0 where
    pub retries : ℕ
    pub few : attempt + retries ≤ c.max_retries
    pub requests : t'.requests ≡ repeat (suc retries) r t.requests
    pub slept : t'.slept ≤ t.slept + retries * longest
    pub backed_off : t.slept + all_doubled c attempt retries ≤ t'.slept
    pub repeated : (n : ℕ) → n < retries → is_retried (server (length t.requests + n) r) ≡ true
    pub decided : result ≡ verdict (server (length t.requests + retries) r)
    pub exhausted :
        is_retried (server (length t.requests + retries) r) ≡ true
        → attempt + retries ≡ c.max_retries

  later_number : (k n : ℕ) → server (k + suc n) r ≡ server (suc k + n) r
  later_number k n = ap (λ i. server i r) (omega arith)

  earlier_retried :
      (k retries : ℕ)
      → is_retried (server k r) ≡ true
      → ((n : ℕ) → n < retries → is_retried (server (suc k + n) r) ≡ true)
      → (n : ℕ) → n < suc retries
      → is_retried (server (k + n) r) ≡ true
  earlier_retried k retries first later zero h = let e : k + 0 ≡ k = omega arith in rw e first
  earlier_retried k retries first later (suc n) h =
      ap is_retried (later_number k n) ∙ later n (omega arith)

  again :
      (attempt delay : ℕ) (t t' : Trace) (result : ClientResult Text)
      → delay ≤ longest
      → doubled c attempt ≤ delay
      → is_retried (server (length t.requests) r) ≡ true
      → Sent (suc attempt) (sleep delay (send r t)) t' result
      → Sent attempt t t' result
  unfolding all_doubled
  again attempt delay t t' result short long first later = record {
    retries = suc later.retries;
    few = omega (arith, later.few);
    requests = later.requests;
    slept = one_wait_le t'.slept t.slept delay later.retries longest later.slept short;
    backed_off = one_wait_more _ _ _ _ _ later.backed_off long;
    repeated = earlier_retried _ later.retries first later.repeated;
    decided = later.decided ∙ ap verdict (sym (later_number _ later.retries));
    exhausted = λ h.
        let left = later.exhausted (ap is_retried (sym (later_number _ later.retries)) ∙ h) in
        omega (arith, left);
  }

  last :
      (attempt : ℕ) (t : Trace)
      → attempt ≤ c.max_retries
      → (is_retried (server (length t.requests) r) ≡ true → attempt ≡ c.max_retries)
      → Sent attempt t (send r t) (verdict (server (length t.requests) r))
  unfolding all_doubled
  last attempt t h x =
      let e : length t.requests + 0 ≡ length t.requests = omega arith in
      record {
        retries = 0;
        few = omega (arith, h);
        requests = refl;
        slept = omega arith;
        backed_off = omega arith;
        repeated = λ n h. absurd (omega arith);
        decided = rw e refl;
        exhausted = rw e (λ q. omega (arith, x q));
      }

  try_send_stops :
      (fuel attempt : ℕ) (t : Trace) (answer : Reply)
      → server (length t.requests) r ≡ answer
      → (is_retried answer ≡ true → ltb attempt c.max_retries ≡ false)
      → try_send server draw c (suc fuel) attempt r t ≡ (verdict answer, send r t)
  unfolding try_send
  try_send_stops fuel attempt t no_reply q h = rw (q, try_send) (ground arith)
  try_send_stops fuel attempt t (reply status body) q h = rw (q, try_send) (ground arith)

  try_send_again :
      (fuel attempt : ℕ) (t : Trace) (answer : Reply)
      → server (length t.requests) r ≡ answer
      → is_retried answer ≡ true
      → ltb attempt c.max_retries ≡ true
      → try_send server draw c (suc fuel) attempt r t
        ≡ try_send server draw c fuel
            (suc attempt)
            r
            (sleep (compute_backoff (draw (length t.requests)) c attempt) (send r t))
  unfolding try_send
  try_send_again fuel attempt t no_reply q y l = rw (q, try_send) (ground arith)
  try_send_again fuel attempt t (reply status body) q y l = rw (q, try_send) (ground arith)

  abbrev SentBy : ℕ → Trace → ClientResult Text × Trace → Type 0
  SentBy attempt t out = Sent attempt t out.1 out.0

  stopped :
      (fuel attempt : ℕ) (t : Trace)
      → attempt ≤ c.max_retries
      → (is_retried (server (length t.requests) r) ≡ true → ltb attempt c.max_retries ≡ false)
      → SentBy attempt t (try_send server draw c (suc fuel) attempt r t)
  stopped fuel attempt t l h =
      rw (try_send_stops fuel attempt t _ refl h)
        (last attempt t l (λ y. let full = h y in ground arith))

  module _ (drawn : (n j : ℕ) → draw n j ≤ j) where
    try_send-Sent :
        (fuel attempt : ℕ) (t : Trace)
        → fuel + attempt ≡ suc c.max_retries
        → attempt ≤ c.max_retries
        → SentBy attempt t (try_send server draw c fuel attempt r t)
    try_send-Sent zero attempt t h l = absurd (omega arith)
    try_send-Sent (suc fuel) attempt t h l =
        elim (Bool-cases (is_retried (server (length t.requests) r))) [
          | inr n ↦ stopped fuel attempt t l (λ y. absurd (cc))
          | inl y ↦ elim (Bool-cases (ltb attempt c.max_retries)) [
            | inr full ↦ stopped fuel attempt t l (λ _. full)
            | inl more ↦ rw (try_send_again fuel attempt t _ refl y more) (
                again attempt _ t _ _ (compute_backoff-le _ c attempt (drawn _ _))
                  (doubled-compute_backoff _ c attempt) y
                  (try_send-Sent fuel (suc attempt) _ (omega arith) (ground arith)))
          ]
        ]

-- A request of the client is sent once, and again at most `max_retries` times, each time because no
-- answer came or one with the status 429 or 5xx. All the waits together are at least the sum of the
-- delays, which double with each attempt up to the longest, and at most so many times the longest delay
-- and the jitter. The last answer decides the result; where it would be retried, the
-- retries are used up. Each draw of the jitter is taken to lie within its bound.
pub send_with_retry-Sent :
    (server : ℕ → ClientRequest → Reply) (draw : ℕ → ℕ → ℕ) (c : GatewayClient) (r : ClientRequest)
    (t : Trace)
    → ((n j : ℕ) → draw n j ≤ j)
    → Sent server draw c r 0 t
        (send_with_retry server draw c r t).1
        (send_with_retry server draw c r t).0
unfolding send_with_retry
send_with_retry-Sent server draw c r t drawn =
    try_send-Sent server draw c r drawn (suc c.max_retries) 0 t (omega arith) (omega arith)
