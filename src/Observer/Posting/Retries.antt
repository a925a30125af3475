-- ===== src/Observer/Posting/Retries.antt =====
-- How often a message is posted, and what comes of it.
use blindmarkets.Base.{
  ℕ, zero, suc, ◌+◌, ◌^◌, ◌<◌, ◌≡◌, refl, sym, ◌∙◌, ap, inl, inr, Bool, true, false, not, ◌&&◌,
  length, leb, Bool-cases, repeat, leb→le, if◌then◌else◌, arith,
}
use blindmarkets.Http.{Reply, no_reply, reply, is_success}
use blindmarkets.Observer.Posting.{
  Message, PostResult, delivered, transport_error, rejected, gave_up, Desk, is_final, send, sleep,
  attempt, post_gateway_json,
}

-- 2 ^ (a + 1) + .. + 2 ^ (a + k)
abbrev pub waits : ℕ → ℕ → ℕ
waits a zero = 0
waits a (suc k) = 2 ^ suc a + waits (suc a) k

-- A reply after which the message is posted again.
abbrev pub is_retried : Reply → Bool
is_retried no_reply = false
is_retried (reply status body) = not (is_success status) && not (is_final status)

abbrev pub verdict : Reply → PostResult
verdict no_reply = transport_error
verdict (reply status body) =
    if is_success status then delivered else if is_final status then rejected else gave_up

module _ (gateway : ℕ → Message → Reply) (m : Message) where
  pub record Posted (attempts : ℕ) (desk desk' : Desk) (result : PostResult) : Type 0 where
    pub retries : ℕ
    pub few : attempts + retries < 5
    pub posted : desk'.posted ≡ repeat (suc retries) m desk.posted
    pub slept : desk'.slept ≡ desk.slept + waits attempts retries
    pub repeated : (n : ℕ) → n < retries → is_retried (gateway (length desk.posted + n) m) ≡ true
    pub decided : result ≡ verdict (gateway (length desk.posted + retries) m)
    pub exhausted :
        is_retried (gateway (length desk.posted + retries) m) ≡ true → attempts + retries ≡ 4

  later_number : (k n : ℕ) → gateway (k + suc n) m ≡ gateway (suc k + n) m
  later_number k n = ap (λ i. gateway i m) (omega arith)

  earlier_retried :
      (k retries : ℕ)
      → is_retried (gateway k m) ≡ true
      → ((n : ℕ) → n < retries → is_retried (gateway (suc k + n) m) ≡ true)
      → (n : ℕ) → n < suc retries
      → is_retried (gateway (k + n) m) ≡ true
  earlier_retried k retries first later zero h = let e : k + 0 ≡ k = omega arith in rw e first
  earlier_retried k retries first later (suc n) h =
      ap is_retried (later_number k n) ∙ later n (omega arith)

  abbrev PostedBy : ℕ → Desk → PostResult × Desk → Type 0
  PostedBy attempts desk out = Posted attempts desk out.1 out.0

  -- One more attempt before those of `later`.
  again :
      (attempts : ℕ) (desk desk' : Desk) (result : PostResult)
      → is_retried (gateway (length desk.posted) m) ≡ true
      → Posted (suc attempts) (sleep (2 ^ suc attempts) (send m desk)) desk' result
      → Posted attempts desk desk' result
  again attempts desk desk' result first later = record {
    retries = suc later.retries;
    few = omega (arith, later.few);
    posted = later.posted;
    slept = omega (arith, later.slept);
    repeated = earlier_retried _ later.retries first later.repeated;
    decided = later.decided ∙ ap verdict (sym (later_number _ later.retries));
    exhausted = λ h.
        let left = later.exhausted (ap is_retried (sym (later_number _ later.retries)) ∙ h) in
        omega (arith, left);
  }

  last :
      (attempts : ℕ) (desk : Desk) (result : PostResult)
      → attempts < 5
      → result ≡ verdict (gateway (length desk.posted) m)
      → (is_retried (gateway (length desk.posted) m) ≡ true → attempts ≡ 4)
      → Posted attempts desk (send m desk) result
  last attempts desk result h v x =
      let e : length desk.posted + 0 ≡ length desk.posted = omega arith in
      record {
        retries = 0;
        few = omega arith;
        posted = refl;
        slept = omega arith;
        repeated = λ n h. absurd (omega arith);
        decided = rw e v;
        exhausted = rw e (λ q. omega (arith, x q));
      }

  attempt_stops :
      (fuel attempts : ℕ) (desk : Desk) (r : Reply)
      → gateway (length desk.posted) m ≡ r
      → (is_retried r ≡ true → leb 5 (suc attempts) ≡ true)
      → attempt gateway m (suc fuel) attempts desk ≡ (verdict r, send m desk)
  unfolding attempt
  attempt_stops fuel attempts desk no_reply q h = rw (q, attempt) refl
  attempt_stops fuel attempts desk (reply status body) q h = rw (q, attempt) (ground arith)

  attempt_again :
      (fuel attempts : ℕ) (desk : Desk) (r : Reply)
      → gateway (length desk.posted) m ≡ r
      → is_retried r ≡ true
      → leb 5 (suc attempts) ≡ false
      → attempt gateway m (suc fuel) attempts desk
        ≡ attempt gateway m fuel (suc attempts) (sleep (2 ^ suc attempts) (send m desk))
  unfolding attempt
  attempt_again fuel attempts desk no_reply q y l = absurd (cc)
  attempt_again fuel attempts desk (reply status body) q y l = rw (q, attempt) (ground arith)

  stopped :
      (fuel attempts : ℕ) (desk : Desk)
      → attempts < 5
      → (is_retried (gateway (length desk.posted) m) ≡ true → leb 5 (suc attempts) ≡ true)
      → PostedBy attempts desk (attempt gateway m (suc fuel) attempts desk)
  stopped fuel attempts desk l h = rw (attempt_stops fuel attempts desk _ refl h) (
      last attempts desk _ l refl
        (λ y. let full = leb→le 5 (suc attempts) (h y) in omega (arith, full)))

  attempt-Posted :
      (fuel attempts : ℕ) (desk : Desk)
      → fuel + attempts ≡ 5
      → attempts < 5
      → PostedBy attempts desk (attempt gateway m fuel attempts desk)
  attempt-Posted zero attempts desk h l = absurd (omega arith)
  attempt-Posted (suc fuel) attempts desk h l =
      elim (Bool-cases (is_retried (gateway (length desk.posted) m))) [
        | inr n ↦ stopped fuel attempts desk l (λ y. absurd (cc))
        | inl y ↦ elim (Bool-cases (leb 5 (suc attempts))) [
          | inl full ↦ stopped fuel attempts desk l (λ _. full)
          | inr more ↦ rw (attempt_again fuel attempts desk _ refl y more) (
              again attempts desk _ _ y
                (attempt-Posted fuel (suc attempts) _ (omega arith) (ground arith)))
        ]
      ]

-- A message is posted at least once and at most five times, each time but the last because the
-- gateway answered neither with success nor with a final refusal, with waits of 2, 4, 8 and 16
-- seconds between. The last answer decides the result; where that answer would be retried, it was
-- the fifth.
pub post_gateway_json-Posted :
    (gateway : ℕ → Message → Reply) (m : Message) (desk : Desk)
    → Posted gateway m 0 desk
        (post_gateway_json gateway m desk).1
        (post_gateway_json gateway m desk).0
unfolding post_gateway_json
post_gateway_json-Posted gateway m desk = attempt-Posted gateway m 5 0 desk refl (omega arith)
