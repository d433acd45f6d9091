-- ===== src/Api/Exchange/Statuses.antt =====
-- What one exchange of core/src/api.c does to the sink, for a backend that fills in the status before the
-- first body_write, as core/include/daemoon/backend.h requires of it.
use dae_moon.Prelude.{
  ℕ, ◌≡◌, refl, sym, ◌∙◌, ap, true, false, none, some, [], ◌++◌, Bytes, append_assoc, append-nil,
  ◌==◌, arith, zero, suc, ◌<◌, List, Bool-cases, inl, inr,
}
use mathlib.Core.Option.{none-ne-some}
use dae_moon.Errors.{Code, Result, ok, err}
use dae_moon.Errors.Laws.{err≢ok}
use dae_moon.Backend.{Env, can_request}
use dae_moon.Api.Request.{Request}
use dae_moon.Backend.Streams.{Stream, stream_write}
use dae_moon.Backend.Streams.Copies.{Target}
use dae_moon.Api.Routing.{ApiSink, is_2xx, accept_chunk, api_body_write, failure_of}
use dae_moon.Api.Exchange.{
  Exchange, Response, returns, body_read, body_write, Body, const_body, read_body, exchange,
  Network, Attempted, reset_sink, attempt, goes_on, attempts, max_attempts, before_any, api_do,
}

-- The status is `s` from the first chunk on.
abbrev pub HasStatus : ℕ → Exchange → Type 0
HasStatus s (returns resp r) = resp.status ≡ s
HasStatus s (body_read cap k) = (r : Result Bytes) → HasStatus s (k r)
HasStatus s (body_write status buf k) = (status ≡ s) × ((r : Result (Unit {0})) → HasStatus s (k r))

module _ {B S : Type 0} (b : Body B) (s : ApiSink S) where
  exchange-returns :
      (resp : Response) (r : Result (Unit {0})) → exchange (returns resp r) b s ≡ (b, s, resp, r)
  unfolding exchange
  exchange-returns resp r = refl

  exchange-body_read :
      (cap : ℕ) (k : Result Bytes → Exchange)
      → let r = read_body b cap in exchange (body_read cap k) b s ≡ exchange (k r.1) r.0 s
  unfolding exchange
  exchange-body_read cap k = refl

  exchange-body_write :
      (status : ℕ) (buf : Bytes) (k : Result (Unit {0}) → Exchange)
      → let w = api_body_write s status buf in
        exchange (body_write status buf k) b s ≡ exchange (k w.1) b w.0
  unfolding exchange
  exchange-body_write status buf k = refl

-- A chunk outside 2xx leaves the stream alone.
outside_chunk :
    {S : Type 0} (s : ApiSink S) (status : ℕ) (buf : Bytes)
    → is_2xx status ≡ false
    → (api_body_write s status buf).0.state ≡ s.state
unfolding api_body_write
outside_chunk s status buf h = ground arith

-- The response of an exchange has its status, and outside 2xx nothing reaches the caller's stream.
pub exchange_outside :
    {B S : Type 0} (e : Exchange) (b : Body B) (s : ApiSink S) (status : ℕ)
    → HasStatus status e
    → is_2xx status ≡ false
    → (exchange e b s).1.state ≡ s.state
unfolding exchange
exchange_outside (returns resp r) b s status h o = refl
exchange_outside (body_read cap k) b s status h o =
    let (b', r) = read_body b cap in exchange_outside (k r) b' s status (h r) o
exchange_outside (body_write st buf k) b s status h o =
    let (s', r) = api_body_write s st buf in
    exchange_outside (k r) b s' status (h.1 r) o ∙ outside_chunk s st buf (rw h.0 o)

pub exchange-status :
    {B S : Type 0} (e : Exchange) (b : Body B) (s : ApiSink S) (status : ℕ)
    → HasStatus status e
    → (exchange e b s).2.status ≡ status
unfolding exchange
exchange-status (returns resp r) b s status h = h
exchange-status (body_read cap k) b s status h =
    let (b', r) = read_body b cap in exchange-status (k r) b' s status (h r)
exchange-status (body_write st buf k) b s status h =
    let (s', r) = api_body_write s st buf in exchange-status (k r) b s' status (h.1 r)

-- A chunk after a failure is refused with that failure, which stays.
refused_chunk :
    {S : Type 0} (s : ApiSink S) (status : ℕ) (buf : Bytes) (c : Code)
    → s.failure ≡ some c
    → (api_body_write s status buf).0.failure ≡ some c
unfolding api_body_write
refused_chunk s status buf c h = rw h refl

exchange_failed :
    {B S : Type 0} (e : Exchange) (b : Body B) (s : ApiSink S) (c : Code)
    → s.failure ≡ some c
    → (exchange e b s).1.failure ≡ some c
unfolding exchange
exchange_failed (returns resp r) b s c h = h
exchange_failed (body_read cap k) b s c h =
    let (b', r) = read_body b cap in exchange_failed (k r) b' s c h
exchange_failed (body_write st buf k) b s c h =
    let (s', r) = api_body_write s st buf in
    exchange_failed (k r) b s' c (refused_chunk s st buf c h)

-- The body that a backend delivers to a caller who sends none and accepts every chunk.
unfoldable pub delivered : Exchange → Bytes
delivered (returns resp r) = []
delivered (body_read cap k) = delivered (k (ok []))
delivered (body_write status buf k) = buf ++ delivered (k (ok tt))

abbrev pub nothing_sent : Body (Unit {0})
nothing_sent = const_body [] 0

read_body_nothing : (cap : ℕ) → read_body nothing_sent cap ≡ (nothing_sent, ok [])
unfolding read_body
read_body_nothing cap = ground arith

is_2xx-nonzero : (status : ℕ) → is_2xx status ≡ true → (status == 0) ≡ false
unfolding is_2xx
is_2xx-nonzero status h = ground arith

module _ {S : Type 0} (stream : Stream S) where
  accepted_chunk :
      (s : ApiSink S) (status : ℕ) (buf : Bytes)
      → s.failure ≡ none
      → s.target ≡ some stream
      → is_2xx status ≡ true
      → let w = stream_write stream s.state buf in
        api_body_write s status buf
        ≡ (record s { target = some stream; state = w.0; failure = failure_of w.1 }, w.1)
  unfolding api_body_write accept_chunk
  accepted_chunk s status buf f t h =
      rw (f, is_2xx-nonzero status h, h)
        (ap (λ o. accept_chunk (record s { target = o; failure = none }) buf) t)

  module _ (content : S → Bytes) (target : Target stream content) (status : ℕ)
      (good : is_2xx status ≡ true) where
    abbrev pub Delivers : Exchange → ApiSink S → Type 0
    Delivers e s =
        (exchange e nothing_sent s).1.failure ≡ none
        → content (exchange e nothing_sent s).1.state ≡ content s.state ++ delivered e

    written_Delivers :
        (buf : Bytes) (k : Result (Unit {0}) → Exchange) (s : ApiSink S)
        → ((r : Result (Unit {0})) (s' : ApiSink S)
            → s'.target ≡ some stream
            → s'.failure ≡ none
            → Delivers (k r) s')
        → (w : S × Result (Unit {0})) → stream_write stream s.state buf ≡ w
        → let s' = record s { target = some stream; state = w.0; failure = failure_of w.1 } in
          (exchange (k w.1) nothing_sent s').1.failure ≡ none
          → content (exchange (k w.1) nothing_sent s').1.state
            ≡ content s.state ++ (buf ++ delivered (k (ok tt)))
    unfolding failure_of
    written_Delivers buf k s next (st', err c) e q =
        absurd (none-ne-some c (sym q ∙ exchange_failed (k (err c)) nothing_sent _ c refl))
    written_Delivers buf k s next (st', ok x) e q =
        next (ok x) _ refl refl q
        ∙ rw (target.appends s.state st' buf e)
            (append_assoc (content s.state) buf (delivered (k (ok x))))

    -- A transfer that no write failed in has appended the whole body.
    pub exchange_delivered :
        (e : Exchange) (s : ApiSink S)
        → HasStatus status e
        → s.target ≡ some stream
        → s.failure ≡ none
        → Delivers e s
    unfolding delivered
    exchange_delivered (returns resp r) s h t f q =
        rw (exchange-returns nothing_sent s resp r) (sym (append-nil (content s.state)))
    exchange_delivered (body_read cap k) s h t f q =
        rw (exchange-body_read nothing_sent s cap k, read_body_nothing cap)
          (exchange_delivered (k (ok [])) s (h (ok [])) t f
            (rw (exchange-body_read nothing_sent s cap k, read_body_nothing cap) at q))
    exchange_delivered (body_write st buf k) s h t f q =
        rw (exchange-body_write nothing_sent s st buf k, accepted)
          (written_Delivers buf k s (λ r s'. exchange_delivered (k r) s' (h.1 r))
            (stream_write stream s.state buf) refl
            (rw (exchange-body_write nothing_sent s st buf k, accepted) at q))
      where
        accepted :
            let w = stream_write stream s.state buf in
            api_body_write s st buf
            ≡ (record s { target = some stream; state = w.0; failure = failure_of w.1 }, w.1)
        accepted = accepted_chunk s st buf f t (rw h.0 good)

-- A server that answers every request with the status `s`.
abbrev pub Answers : ℕ → Network → Type 0
Answers s net = (past : List Request) (req : Request) → HasStatus s (net past req)

module _ {B S : Type 0} (net : Network) (req : Request) (status : ℕ)
    (answers : Answers status net) where
  attempt-status : (a : Attempted B S) → (attempt net req a).response.status ≡ status
  unfolding attempt
  attempt-status a =
      exchange-status (net a.requests req) a.body (reset_sink a.sink) status
        (answers a.requests req)

  attempts-status :
      (left : ℕ) (a : Attempted B S)
      → a.response.status ≡ status
      → (attempts net req left a).response.status ≡ status
  unfolding attempts
  attempts-status zero a h = h
  attempts-status (suc left) a h = elim (Bool-cases (goes_on (attempt net req a).outcome)) [
    | inl e ↦ rw e (attempts-status left (attempt net req a) (attempt-status a))
    | inr e ↦ rw e (attempt-status a)
  ]

  attempts-started :
      (left : ℕ) (a : Attempted B S) → 0 < left → (attempts net req left a).response.status ≡ status
  unfolding attempts
  attempts-started zero a l = absurd (omega arith)
  attempts-started (suc left) a l = elim (Bool-cases (goes_on (attempt net req a).outcome)) [
    | inl e ↦ rw e (attempts-status left (attempt net req a) (attempt-status a))
    | inr e ↦ rw e (attempt-status a)
  ]

  -- The status of a response that api_do reports.
  pub api_do-status :
      (env : Env) (past : List Request) (b : Body B) (s : ApiSink S) (x : Unit {0})
      → (api_do net env past req b s).outcome ≡ ok x
      → (api_do net env past req b s).response.status ≡ status
  unfolding api_do
  api_do-status env past b s x h = elim (Bool-cases (can_request env)) [
    | inl e ↦ rw e (attempts-started (max_attempts req) (before_any past b s) (ground arith))
    | inr e ↦ absurd (err≢ok (rw e at h))
  ]
