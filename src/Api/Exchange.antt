-- ===== src/Api/Exchange.antt =====
-- api_do of core/src/api.c, const_body_read and stream_body_read, and what passes between it and the
-- network backend of core/include/daemoon/backend.h.
pub mod Statuses
pub mod Retries
use dae_moon.Prelude.{
  ℕ, zero, suc, ◌+◌, ◌-◌, Bool, true, false, Option, none, some, List, [], ◌∷◌, ◌++◌, Bytes, length,
  take, drop, ltb, if◌then◌else◌,
}
use dae_moon.Errors.{Code, Result, ok, err, unsupported, network_error, retryable}
use dae_moon.Backend.{Env, can_request}
use dae_moon.Backend.Streams.{Stream, stream_read}
use dae_moon.Api.Request.{Request}
use dae_moon.Api.Routing.{Membuf, membuf_init, ApiSink, api_body_write}

-- daemoon_http_resp_t without the callback; `content_length` is none for -1.
pub record Response : Type 0 where
  pub status : ℕ
  pub sha256 : Bytes
  pub content_length : Option ℕ

-- What the network backend does with one request: it pulls the request body, pushes the response body
-- with what `status` is by then, and returns with the response filled in.
pub data Exchange : Type 0 where
  returns : Response → Result (Unit {0}) → Exchange
  body_read : ℕ → (Result Bytes → Exchange) → Exchange
  body_write : ℕ → Bytes → (Result (Unit {0}) → Exchange) → Exchange

-- The backend, which may remember the requests before.
abbrev pub Network : Type 0
Network = List Request → Request → Exchange

-- The request body: api_const_body_t, or a stream with the state behind it.
pub data Body (B : Type 0) : Type 0 where
  const_body : Bytes → ℕ → Body B
  stream_body : Stream B → B → Body B

-- const_body_read, with `pos` afterwards.
unfoldable pub const_body_read : Bytes → ℕ → ℕ → ℕ × Bytes
const_body_read data_ pos cap =
    let n = length data_ - pos in
    let n = if ltb cap n then cap else n in (pos + n, take n (drop pos data_))

-- What the attempts of api_do leave behind: the requests so far, the newest first, the body and the
-- sink, and what the last one returned.
pub record Attempted (B S : Type 0) : Type 0 where
  pub requests : List Request
  pub body : Body B
  pub sink : ApiSink S
  pub response : Response
  pub outcome : Result (Unit {0})

abbrev pub retry_ceiling : ℕ
retry_ceiling = 3

abbrev pub max_attempts : Request → ℕ
max_attempts req = if req.has_body then 1 else retry_ceiling

abbrev pub no_response : Response
no_response = record { status = 0; sha256 = []; content_length = none }

-- The callback body_read of a request.
unfoldable pub read_body : {B : Type 0} → Body B → ℕ → Body B × Result Bytes
unfolding const_body_read stream_read
read_body (const_body d pos) cap =
    let (pos', buf) = const_body_read d pos cap in (const_body d pos', ok buf)
read_body (stream_body s st) cap = let (st', r) = stream_read s st cap in (stream_body s st', r)

-- One call of env->net->request.
unfoldable pub exchange :
    {B S : Type 0}
    → Exchange
    → Body B
    → ApiSink S
    → Body B × ApiSink S × Response × Result (Unit {0})
unfolding read_body api_body_write
exchange (returns resp r) b s = (b, s, resp, r)
exchange (body_read cap k) b s = let (b', r) = read_body b cap in exchange (k r) b' s
exchange (body_write status buf k) b s =
    let (s', r) = api_body_write s status buf in exchange (k r) b s'

unfoldable pub reset_sink : {S : Type 0} → ApiSink S → ApiSink S
unfolding membuf_init
reset_sink s = record s {
  failure = none;
  ok_body = membuf_init s.ok_body.cap;
  err_body = membuf_init s.err_body.cap;
}

-- One round of the loop of api_do.
unfoldable pub attempt : {B S : Type 0} → Network → Request → Attempted B S → Attempted B S
unfolding exchange reset_sink
attempt net req a =
    let (b, s, resp, r) = exchange (net a.requests req) a.body (reset_sink a.sink) in
    record { requests = req ∷ a.requests; body = b; sink = s; response = resp; outcome = r }

-- Whether the loop goes on after a round.
unfoldable pub goes_on : Result (Unit {0}) → Bool
goes_on (ok x) = false
goes_on (err e) = retryable e

-- The loop of api_do, with so many attempts left; `a` is what the last one left.
unfoldable pub attempts : {B S : Type 0} → Network → Request → ℕ → Attempted B S → Attempted B S
unfolding attempt goes_on
attempts net req zero a = a
attempts net req (suc left) a =
    let again = attempts net req left (attempt net req a) in
    if goes_on (attempt net req a).outcome then again else attempt net req a

-- The outcome of the last attempt, and behind a success what the sink said.
unfoldable pub sink_outcome : {B S : Type 0} → Attempted B S → Result (Unit {0})
sink_outcome a = elim a.outcome [
  | err e ↦ err e
  | ok x ↦ elim a.sink.failure [ none ↦ ok tt | some e ↦ err e ]
]

-- Before the first attempt.
abbrev pub before_any : {B S : Type 0} → List Request → Body B → ApiSink S → Attempted B S
before_any past b s = record {
  requests = past;
  body = b;
  sink = s;
  response = no_response;
  outcome = err network_error;
}

-- api_do
unfoldable pub api_do :
    {B S : Type 0} → Network → Env → List Request → Request → Body B → ApiSink S → Attempted B S
unfolding attempts sink_outcome can_request
api_do net env past req b s =
    if can_request env
    then (let a = attempts net req (max_attempts req) (before_any past b s) in
        record a { outcome = sink_outcome a })
    else record (before_any past b s) { outcome = err unsupported }
