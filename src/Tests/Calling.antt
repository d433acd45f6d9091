-- ===== src/Tests/Calling.antt =====
-- The theorems about core/src/api.c and the streams, at concrete inputs.
use dae_moon.Prelude.{
  ℕ, zero, suc, ◌==◌, ◌++◌, ◌≡◌, ◌↔◌, ◌<◌, refl, true, false, none, [], ◌∷◌, Bytes, text, arith,
}
use dae_moon.Errors.{ok, err, timeout, retryable}
use dae_moon.Util.Strbuf.{addn}
use dae_moon.Util.Json.{Tokenize, tokens}
use dae_moon.Backend.{Platform, can_request}
use dae_moon.Backend.Streams.{stream_copy}
use dae_moon.Backend.Streams.Copies.{Ends, stream_copy-IsWhole}
use dae_moon.Api.Routing.{is_2xx, ApiSink}
use dae_moon.Api.Request.{Request, bodiless}
use dae_moon.Api.Exchange.{
  returns, body_write, Network, no_response, Body, exchange, goes_on, api_do,
}
use dae_moon.Api.Exchange.Statuses.{Answers, delivered}
use dae_moon.Api.Exchange.Retries.{Repeats, copies, Recovers, api_do-Repeats, api_do-Recovers}
use dae_moon.Api.Client.{
  download, get_latest, upload, pair, revoke_device, Paired, plain_sink, no_body, never_uploaded,
}
use dae_moon.Api.Client.Answers.{Fails}
use dae_moon.Api.Client.Refused.{download-outside, calls-Fails}
use dae_moon.Api.Client.Delivered.{download-delivered}
use dae_moon.Api.Pairing.{PairPayload, pair_parse}
use dae_moon.Api.Pairing.RoundTrip.{IsPrinted, pair_parse-IsPrinted}
use dae_moon.Tests.Memory.{memory, kept, memory-Source, memory-Target}
use dae_moon.Tests.World.{console, packaged}

stream_copy-IsWhole_example :
    Ends memory memory kept kept (stream_copy memory memory 2 4 [] (text "abc")) [] (text "abc") 0
stream_copy-IsWhole_example =
    stream_copy-IsWhole memory memory kept kept 2 memory-Source memory-Target (omega arith) []
      (text "abc")

abbrev unpaired : Paired
unpaired = record { token = []; device_id = [] }

abbrev no_tokens : Tokenize
no_tokens js n = tokens []

-- A server that answers everything with one status and a body.
abbrev answering : ℕ → Bytes → Network
answering status body past req =
    body_write status body
      (λ r. returns (record { status = status; sha256 = []; content_length = none }) (ok tt))

answering-Answers : (status : ℕ) (body : Bytes) → Answers status (answering status body)
answering-Answers status body past req = (refl, λ r. refl)

status_500 : is_2xx 500 ≡ false
unfolding is_2xx
status_500 = refl

status_200 : is_2xx 200 ≡ true
unfolding is_2xx
status_200 = refl

download-outside_example :
    let done =
      download
        (answering 500 (text "oops"))
        no_tokens
        console
        []
        Platform.nx
        (text "A")
        1
        memory
        (text "x")
        65 in
    (done.1 ≡ text "x") × Fails done.2
download-outside_example =
    download-outside (answering 500 (text "oops")) no_tokens [] 500
      (answering-Answers 500 (text "oops")) status_500 console Platform.nx (text "A") 1 memory
      (text "x") 65

calls-Fails_example :
    let net = answering 500 (text "oops") in
    Fails (upload net no_tokens console [] packaged memory [] 3 never_uploaded).1
    × Fails
        (pair net no_tokens console []
          (text "qr")
          (text "123456")
          (text "Switch")
          Platform.nx
          129
          65
          unpaired).1
    × ((500 == 404) ≡ false
        → Fails (get_latest net no_tokens console [] Platform.nx (text "Switch") never_uploaded).1
          × Fails (revoke_device net no_tokens console [] (text "t") (text "d")).1)
calls-Fails_example =
    calls-Fails (answering 500 (text "oops")) no_tokens [] 500 (answering-Answers 500 (text "oops"))
      status_500 console packaged memory [] 3 never_uploaded (text "qr") (text "123456")
      (text "Switch") Platform.nx 129 65 unpaired (text "t") (text "d")

-- The request that a download of version 1 of the title A makes.
downloaded :
    let done =
      download
        (answering 200 (text "zip"))
        no_tokens
        console
        []
        Platform.nx
        (text "A")
        1
        memory
        []
        65 in
    done.2 ≡ ok []
unfolding download addn
downloaded = refl

download-delivered_example :
    let done =
      download
        (answering 200 (text "zip"))
        no_tokens
        console
        []
        Platform.nx
        (text "A")
        1
        memory
        []
        65 in
    (req : Request) × (done.0 ≡ req ∷ [])
    × (done.1 ≡ [] ++ delivered (answering 200 (text "zip") [] req))
download-delivered_example =
    download-delivered (answering 200 (text "zip")) no_tokens console [] Platform.nx (text "A") 1
      memory [] 65 kept 200 [] memory-Target (answering-Answers 200 (text "zip")) status_200
      downloaded

abbrev lookup : Request
lookup = bodiless (text "GET") (text "http://s/v1") []

-- A request with a body, that is not tried again.
abbrev sending : Request
sending = record lookup { has_body = true }

abbrev timing_out : Network
timing_out past req = returns no_response (err timeout)

api_do-Repeats_example :
    Repeats sending 1 [] (api_do timing_out console [] sending no_body (plain_sink 1024)).requests
api_do-Repeats_example = api_do-Repeats timing_out sending console [] no_body (plain_sink 1024)

-- A network that times out once.
abbrev flaky : Network
flaky [] req = returns no_response (err timeout)
flaky (r ∷ past) req = returns (record { status = 200; sha256 = []; content_length = none }) (ok tt)

flaky-Recovers : Recovers (Unit {0}) (Unit {0}) flaky lookup 1 []
flaky-Recovers = record { flaky = once; steady = unfold exchange in (λ b s h. (refl, h)) }
  where
    once :
        (i : ℕ)
        → i < 1
        → (b : Body (Unit {0})) (s : ApiSink (Unit {0}))
        → goes_on (exchange (flaky (copies i lookup []) lookup) b s).3 ≡ true
    once zero h b s = unfold exchange goes_on retryable in refl
    once (suc i) h b s = absurd (omega arith)

connected : can_request console ≡ true
unfolding can_request
connected = refl

api_do-Recovers_example :
    let a = api_do flaky console [] lookup no_body (plain_sink 1024) in
    (a.outcome ≡ ok tt) × (a.requests ≡ copies 2 lookup [])
api_do-Recovers_example =
    api_do-Recovers flaky lookup console [] no_body (plain_sink 1024) 1 connected (omega arith)
      flaky-Recovers

abbrev scanned : PairPayload
scanned = record { server = text "http://s"; code = text "123456" }

pair_parse-IsPrinted_example :
    (pair_parse (text "DAEMOON|1|http://s|123456") ≡ ok scanned)
    ↔ IsPrinted (text "DAEMOON|1|http://s|123456") scanned
pair_parse-IsPrinted_example = pair_parse-IsPrinted (text "DAEMOON|1|http://s|123456") scanned

scanned_read : pair_parse (text "DAEMOON|1|http://s|123456") ≡ ok scanned
unfolding pair_parse
scanned_read = refl
