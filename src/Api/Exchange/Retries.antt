-- ===== src/Api/Exchange/Retries.antt =====
-- The attempts of api_do of core/src/api.c: how often a request is made, and that a transfer gets over
-- transport failures.
use dae_moon.Prelude.{
  if◌then◌else◌, ℕ, zero, suc, ◌≤◌, ◌<◌, ◌≡◌, refl, ap, ◌∙◌, true, false, none, List, ◌∷◌,
  Bool-cases, inl, inr, arith,
}
use dae_moon.Errors.{ok}
use dae_moon.Backend.{Env, can_request}
use dae_moon.Api.Request.{Request}
use dae_moon.Api.Routing.{ApiSink}
use dae_moon.Api.Exchange.{
  Network, Body, Attempted, exchange, reset_sink, attempt, goes_on, attempts, before_any,
  max_attempts, sink_outcome, api_do,
}

-- The requests after `req` was made so often more.
abbrev pub copies : ℕ → Request → List Request → List Request
copies zero req past = past
copies (suc n) req past = req ∷ copies n req past

copies_inside :
    (n : ℕ) (req : Request) (past : List Request)
    → copies n req (req ∷ past) ≡ copies (suc n) req past
copies_inside zero req past = refl
copies_inside (suc n) req past = ap (λ r. req ∷ r) (copies_inside n req past)

-- After at most `left` more requests, all of them `req`.
abbrev pub Repeats : Request → ℕ → List Request → List Request → Type 0
Repeats req left past after = (n : ℕ) × (n ≤ left) × (after ≡ copies n req past)

Repeats-suc :
    (req : Request) (left : ℕ) (past after : List Request)
    → Repeats req left (req ∷ past) after
    → Repeats req (suc left) past after
Repeats-suc req left past after (n, h, e) = (suc n, omega arith, e ∙ copies_inside n req past)

-- A backend whose next `k` exchanges of this request fail in a way that may be tried again, whatever
-- is sent and received, and whose next one after them succeeds.
pub record Recovers (B S : Type 0) (net : Network) (req : Request) (k : ℕ) (past : List Request)
    : Type 0 where
  pub flaky :
      (i : ℕ)
      → i < k
      → (b : Body B) (s : ApiSink S) → goes_on (exchange (net (copies i req past) req) b s).3 ≡ true
  pub steady :
      (b : Body B) (s : ApiSink S)
      → s.failure ≡ none
      → let e = exchange (net (copies k req past) req) b s in (e.3 ≡ ok tt) × (e.1.failure ≡ none)

later_Recovers :
    {B S : Type 0} {net : Network} {req : Request} (k : ℕ) (past : List Request)
    → Recovers B S net req (suc k) past
    → Recovers B S net req k (req ∷ past)
later_Recovers {req = req} k past h = record {
  flaky = λ i l b s. rw (copies_inside i req past) (h.flaky (suc i) (omega arith) b s);
  steady = λ b s f. rw (copies_inside k req past) (h.steady b s f);
}

failure-reset_sink : {S : Type 0} (s : ApiSink S) → (reset_sink s).failure ≡ none
unfolding reset_sink
failure-reset_sink s = refl

module _ {B S : Type 0} (net : Network) (req : Request) where
  requests-attempt : (a : Attempted B S) → (attempt net req a).requests ≡ req ∷ a.requests
  unfolding attempt
  requests-attempt a = refl

  attempts-Repeats :
      (left : ℕ) (a : Attempted B S)
      → Repeats req left a.requests (attempts net req left a).requests
  unfolding attempts
  attempts-Repeats zero a = (0, omega arith, refl)
  attempts-Repeats (suc left) a = elim (Bool-cases (goes_on (attempt net req a).outcome)) [
    | inl e ↦
        Repeats-suc req left a.requests _
          (rw e (rw (requests-attempt a) at (attempts-Repeats left (attempt net req a))))
    | inr e ↦ rw e (1, omega arith, requests-attempt a)
  ]

  -- A request is made at most three times, and at most once where it has a body; nothing else is requested.
  pub api_do-Repeats :
      (env : Env) (past : List Request) (b : Body B) (s : ApiSink S)
      → Repeats req (if req.has_body then 1 else 3) past (api_do net env past req b s).requests
  unfolding api_do
  api_do-Repeats env past b s = elim (Bool-cases (can_request env)) [
    | inl e ↦ rw e (attempts-Repeats (max_attempts req) _)
    | inr e ↦ rw e (0, omega arith, refl)
  ]

  steady_attempt :
      (a : Attempted B S)
      → Recovers B S net req 0 a.requests
      → ((attempt net req a).outcome ≡ ok tt) × ((attempt net req a).sink.failure ≡ none)
  unfolding attempt
  steady_attempt a h = h.steady a.body (reset_sink a.sink) (failure-reset_sink a.sink)

  flaky_attempt :
      (k : ℕ) (a : Attempted B S)
      → Recovers B S net req (suc k) a.requests
      → goes_on (attempt net req a).outcome ≡ true
  unfolding attempt
  flaky_attempt k a h = h.flaky 0 (omega arith) a.body (reset_sink a.sink)

  stops : (a : Attempted B S) → a.outcome ≡ ok tt → goes_on a.outcome ≡ false
  unfolding goes_on
  stops a e = rw e refl

  attempts_recover :
      (k left : ℕ) (a : Attempted B S)
      → Recovers B S net req k a.requests
      → k < left
      → let a' = attempts net req left a in
        (a'.outcome ≡ ok tt)
        × (a'.sink.failure ≡ none)
        × (a'.requests ≡ copies (suc k) req a.requests)
  unfolding attempts goes_on
  attempts_recover k zero a h l = absurd (omega arith)
  attempts_recover zero (suc left) a h l =
      let good = steady_attempt a h in
      rw (stops (attempt net req a) good.0) (good.0, good.1, requests-attempt a)
  attempts_recover (suc k) (suc left) a h l =
      let r =
        attempts_recover k left (attempt net req a)
          (rw (requests-attempt a) (later_Recovers k a.requests h)) (omega arith) in
      rw (flaky_attempt k a h)
        (r.0, r.1, r.2 ∙ rw (requests-attempt a) (copies_inside (suc k) req a.requests))

  sink_outcome_ok :
      (a : Attempted B S) → a.outcome ≡ ok tt → a.sink.failure ≡ none → sink_outcome a ≡ ok tt
  unfolding sink_outcome
  sink_outcome_ok a e f = ground arith

  -- A transfer gets over failures that may be tried again: if fewer attempts than the ceiling fail that
  -- way and the next one succeeds, the call succeeds with one request for each of them.
  pub api_do-Recovers :
      (env : Env) (past : List Request) (b : Body B) (s : ApiSink S) (k : ℕ)
      → can_request env ≡ true
      → k < max_attempts req
      → Recovers B S net req k past
      → let a = api_do net env past req b s in
        (a.outcome ≡ ok tt) × (a.requests ≡ copies (suc k) req past)
  unfolding api_do
  api_do-Recovers env past b s k here l h =
      let (o, f, r) = attempts_recover k (max_attempts req) (before_any past b s) h l in
      rw here (sink_outcome_ok (attempts net req (max_attempts req) (before_any past b s)) o f, r)
