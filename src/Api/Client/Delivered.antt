-- ===== src/Api/Client/Delivered.antt =====
-- daemoon_api_download of core/src/api.c: a success has written the whole body.
use dae_moon.Prelude.{
  ℕ, ◌≡◌, refl, true, none, List, ◌∷◌, ◌++◌, Bytes, text, Bool-cases, Option-cases, inl, inr, ◌==◌,
}
use dae_moon.Errors.{Result, ok, err}
use dae_moon.Errors.Laws.{err≢ok, Result-cases}
use dae_moon.Util.Json.{Tokenize}
use dae_moon.Backend.{Platform, Env}
use dae_moon.Backend.Streams.{Stream}
use dae_moon.Backend.Streams.Copies.{Target}
use dae_moon.Api.Routing.{ApiSink, is_2xx}
use dae_moon.Api.Request.{Request, bodiless, headers_init, blob_url}
use dae_moon.Api.Exchange.{Network, Response, exchange}
use dae_moon.Api.Exchange.Statuses.{Answers, delivered, exchange_delivered}
use dae_moon.Api.Client.{blob_answer, download, stream_sink, no_body}

blob_answer_whole :
    {S : Type 0} (jsmn : Tokenize) (room : ℕ) (s : ApiSink S) (resp : Response)
    (r : Result (Unit {0})) (v : Bytes)
    → blob_answer jsmn room s resp r ≡ ok v
    → s.failure ≡ none
unfolding blob_answer
blob_answer_whole jsmn room s resp (err c) v e = absurd (err≢ok e)
blob_answer_whole jsmn room s resp (ok x) v e = elim (Option-cases s.failure) [
  | inl n ↦ n
  | inr (c, n) ↦ absurd (err≢ok (rw n at e))
]

-- Where the server answers in 2xx, and the backend fills in the status before the first piece of a body,
-- a download that succeeds has made one request and appended to the stream all that was delivered
-- for it, if a write that succeeds appends what it was given.
pub download-delivered :
    {S : Type 0} (net : Network) (jsmn : Tokenize) (env : Env) (past : List Request) (p : Platform)
    → (title : Bytes) (version : ℕ) (stream : Stream S) (st : S) (room : ℕ)
    → (content : S → Bytes) (status : ℕ) (v : Bytes) → Target stream content
    → Answers status net
    → is_2xx status ≡ true
    → let done = download net jsmn env past p title version stream st room in
      done.2 ≡ ok v
      → (req : Request) × (done.0 ≡ req ∷ past)
        × (content done.1 ≡ content st ++ delivered (net past req))
unfolding download
download-delivered net jsmn env past p title version stream st room content status v target answers
      good h =
    elim (Bool-cases (version == 0)) [
      | inl k ↦ absurd (err≢ok (rw k at h))
      | inr k ↦ elim (Result-cases (blob_url env p title version)) [
        | inr (c, u) ↦ absurd (err≢ok (rw (k, u) at h))
        | inl (url, u) ↦
            let req = bodiless (text "GET") url (headers_init env.token none) in
            let done = exchange (net past req) no_body (stream_sink stream st) in
            rw (k, u)
              (
                req,
                refl,
                exchange_delivered stream content target status good (net past req)
                    (stream_sink stream st) (answers past req) refl refl
                    (blob_answer_whole jsmn room done.1 done.2 done.3 v (rw (k, u) at h)),
              )
      ]
    ]
