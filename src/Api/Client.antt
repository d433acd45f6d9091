-- ===== src/Api/Client.antt =====
-- daemoon_api_get_latest, daemoon_api_download, daemoon_api_upload, daemoon_api_pair and
-- daemoon_api_revoke_device of core/src/api.c. The pointers that they test are not NULL here, `past` is
-- the requests before the call, and each returns the requests after it. A NULL buffer has length 0.
pub mod Answers
pub mod Refused
pub mod Delivered
use dae_moon.Prelude.{
  ℕ, Bool, true, false, not, ◌||◌, Option, none, some, List, [], ◌∷◌, Bytes, text, length, ◌==◌,
  if◌then◌else◌,
}
use dae_moon.Errors.{Code, Result, ok, err, either, ◌>>=◌, invalid_request, parse_error}
use dae_moon.Util.Copy.{strlcpy}
use dae_moon.Util.Digest.{is_end}
use dae_moon.Util.Json.{Tokenize, json_parse}
use dae_moon.Util.Json.Strings.{get_str}
use dae_moon.Backend.{Platform, Env}
use dae_moon.Backend.Streams.{Stream}
use dae_moon.Manifest.{Manifest}
use dae_moon.Sync.Decide.{RemoteMeta}
use dae_moon.Api.Routing.{Membuf, membuf_init, ApiSink, is_2xx, failure_of}
use dae_moon.Api.Request.{
  Request, bodiless, posted, headers_init, latest_url, blob_url, upload_url, pair_url, device_url,
  pair_body,
}
use dae_moon.Api.Exchange.{
  Response, Network, Body, const_body, stream_body, exchange, Attempted, sink_outcome, api_do,
}
use dae_moon.Api.Reading.{Conflict, api_tokens, api_parse_error, str_under, parse_version_meta}

abbrev pub api_errbuf_max : ℕ
api_errbuf_max = 512

abbrev pub api_jsonbuf_max : ℕ
api_jsonbuf_max = 1024

-- A sink without a stream behind it, for a success body of so many bytes.
abbrev pub plain_sink : ℕ → ApiSink (Unit {0})
plain_sink room = record {
  target = none;
  state = tt;
  ok_body = membuf_init room;
  err_body = membuf_init api_errbuf_max;
  failure = none;
}

abbrev pub stream_sink : {S : Type 0} → Stream S → S → ApiSink S
stream_sink stream st = record {
  target = some stream;
  state = st;
  ok_body = membuf_init 0;
  err_body = membuf_init api_errbuf_max;
  failure = none;
}

-- The body that stands behind a request without one; nothing pulls it.
abbrev pub no_body : Body (Unit {0})
no_body = const_body [] 0

-- The failure that a response outside 2xx stands for. It is returned as it is: were it DAEMOON_OK,
-- *out would stay what it was.
unfoldable pub refusal {ℓ} : {A : Type ℓ} → Tokenize → Membuf → ℕ → A → Result A
unfolding api_parse_error
refusal jsmn body status out =
    either (api_parse_error jsmn body.content status).0 (λ e. err e) (λ x. ok out)

abbrev pub never_uploaded : RemoteMeta
never_uploaded = record {
  exists = false;
  latest_version = 0;
  parent_version = 0;
  sha256 = [];
  size = 0;
  device_label = [];
  received_at = [];
}

-- A 2xx body as a version.
unfoldable pub version_body : Tokenize → Membuf → Result RemoteMeta
unfolding parse_version_meta
version_body jsmn body =
    if body.truncated then err parse_error else parse_version_meta jsmn body.content

-- What daemoon_api_get_latest makes of its request; `out` is *out before the call.
unfoldable pub latest_answer :
    {B S : Type 0} → Tokenize → RemoteMeta → Attempted B S → Result RemoteMeta
unfolding is_2xx refusal version_body
latest_answer jsmn out a =
    either a.outcome (λ e. err e)
      (λ x.
        if a.response.status == 404
        then ok never_uploaded
        else if is_2xx a.response.status
        then version_body jsmn a.sink.ok_body
        else refusal jsmn a.sink.err_body a.response.status out)

unfoldable pub get_latest :
    Network
    → Tokenize
    → Env
    → List Request
    → Platform
    → Bytes
    → RemoteMeta
    → List Request × Result RemoteMeta
unfolding latest_url headers_init api_do latest_answer membuf_init
get_latest net jsmn env past platform title_id out =
    either (latest_url env platform title_id) (λ e. (past, err e))
      (λ url.
        let req = bodiless (text "GET") url (headers_init env.token none) in
        let a = api_do net env past req no_body (plain_sink api_jsonbuf_max) in
        (a.requests, latest_answer jsmn out a))

-- What daemoon_api_download makes of its exchange: the digest that the server announced.
unfoldable pub blob_answer :
    {S : Type 0} → Tokenize → ℕ → ApiSink S → Response → Result (Unit {0}) → Result Bytes
unfolding is_2xx refusal strlcpy
blob_answer jsmn sha_len s resp (err e) = err e
blob_answer jsmn sha_len s resp (ok x) = elim s.failure [
  | some e ↦ err e
  | none ↦
      if is_2xx resp.status
      then ok (strlcpy sha_len (some resp.sha256)).0
      else refusal jsmn s.err_body resp.status []
]

-- A single request, into a stream with the state `st`. The request is made without asking whether
-- env->net is NULL, so the network is taken to be there.
unfoldable pub download :
    {S : Type 0}
    → Network
    → Tokenize
    → Env
    → List Request
    → Platform
    → Bytes
    → ℕ
    → Stream S
    → S
    → ℕ
    → List Request × S × Result Bytes
unfolding blob_url headers_init exchange blob_answer membuf_init
download net jsmn env past platform title_id version stream st sha_len =
    if version == 0
    then (past, st, err invalid_request)
    else either (blob_url env platform title_id version) (λ e. (past, st, err e))
        (λ url.
          let req = bodiless (text "GET") url (headers_init env.token none) in
          let (b, s, resp, r) = exchange (net past req) no_body (stream_sink stream st) in
          (req ∷ past, s.state, blob_answer jsmn sha_len s resp r))

-- What daemoon_api_upload makes of its request.
unfoldable pub upload_answer :
    {B S : Type 0} → Tokenize → RemoteMeta → Attempted B S → Result RemoteMeta × Option Conflict
unfolding is_2xx refusal api_parse_error version_body
upload_answer jsmn out a =
    either a.outcome (λ e. (err e, none))
      (λ x. if is_2xx a.response.status then (version_body jsmn a.sink.ok_body, none) else (
        refusal jsmn a.sink.err_body a.response.status out,
        (api_parse_error jsmn a.sink.err_body.content a.response.status).1,
      ))

-- The package is the stream `body` with the state `st` behind it.
unfoldable pub upload :
    {B : Type 0}
    → Network
    → Tokenize
    → Env
    → List Request
    → Manifest
    → Stream B
    → B
    → ℕ
    → RemoteMeta
    → List Request × Result RemoteMeta × Option Conflict
unfolding upload_url headers_init api_do upload_answer membuf_init
upload net jsmn env past m body st body_len out =
    either (upload_url env m.platform m.title_id m.parent_version) (λ e. (past, err e, none))
      (λ url.
        let req = posted url (headers_init env.token (some (text "application/zip"))) body_len in
        let a = api_do net env past req (stream_body body st) (plain_sink api_jsonbuf_max) in
        let (r, conflict) = upload_answer jsmn out a in (a.requests, r, conflict))

-- The token and the device id of a pairing.
pub record Paired : Type 0 where
  pub token : Bytes
  pub device_id : Bytes

unfoldable pub paired_body : Tokenize → Bytes → ℕ → ℕ → Bytes → Result Paired
unfolding json_parse str_under get_str
paired_body jsmn js token_len device_id_len old_id = do
  toks ← json_parse jsmn js api_tokens
  token ← str_under js toks (text "token") token_len
  ok (record {
    token = token;
    device_id =
        if device_id_len == 0
        then old_id
        else (get_str js toks 0 (text "device_id") device_id_len old_id).0;
  })

unfoldable pub pair_answer :
    {B S : Type 0} → Tokenize → ℕ → ℕ → Paired → Attempted B S → Result Paired
unfolding is_2xx refusal paired_body
pair_answer jsmn token_len device_id_len out a =
    either a.outcome (λ e. err e)
      (λ x.
        if is_2xx a.response.status
        then paired_body jsmn a.sink.ok_body.content token_len device_id_len out.device_id
        else refusal jsmn a.sink.err_body a.response.status out)

unfoldable pub pair :
    Network
    → Tokenize
    → Env
    → List Request
    → Bytes
    → Bytes
    → Bytes
    → Platform
    → ℕ
    → ℕ
    → Paired
    → List Request × Result Paired
unfolding pair_url pair_body headers_init api_do pair_answer membuf_init
pair net jsmn env past grant code label platform token_len device_id_len out =
    either (pair_url env) (λ e. (past, err e))
      (λ url.
        either (pair_body grant code label platform) (λ e. (past, err e))
          (λ js.
            let headers = headers_init env.token (some (text "application/json")) in
            let body : Body (Unit {0}) = const_body js 0 in
            let a =
              api_do net env past (posted url headers (length js)) body
                (plain_sink api_jsonbuf_max) in
            (a.requests, pair_answer jsmn token_len device_id_len out a)))

unfoldable pub revoke_answer : {B S : Type 0} → Tokenize → Attempted B S → Result (Unit {0})
unfolding is_2xx refusal
revoke_answer jsmn a =
    either a.outcome (λ e. err e)
      (λ x.
        if a.response.status == 404
        then ok tt
        else if is_2xx a.response.status
        then ok tt
        else refusal jsmn a.sink.err_body a.response.status tt)

-- Authenticated as the token that is given up.
unfoldable pub revoke_device :
    Network → Tokenize → Env → List Request → Bytes → Bytes → List Request × Result (Unit {0})
unfolding device_url headers_init api_do revoke_answer membuf_init is_end
revoke_device net jsmn env past token device_id =
    if is_end token || is_end device_id
    then (past, err invalid_request)
    else either (device_url env device_id) (λ e. (past, err e))
        (λ url.
          let req = bodiless (text "DELETE") url (headers_init (some token) none) in
          let as_old = record env { token = some token } in
          let a = api_do net as_old past req no_body (plain_sink 16) in
          (a.requests, revoke_answer jsmn a))
