-- ===== src/Api/Client/Refused.antt =====
-- The calls of core/src/api.c against a server that answers outside 2xx: none succeeds, and a download
-- leaves its stream alone.
use dae_moon.Prelude.{
  ℕ, ◌≡◌, refl, false, none, some, List, Bytes, text, inl, inr, ◌==◌, ◌||◌, Bool-cases, length,
}
use dae_moon.Errors.{ok}
use dae_moon.Errors.Laws.{err≢ok, Result-cases}
use dae_moon.Util.Digest.{is_end}
use dae_moon.Util.Json.{Tokenize}
use dae_moon.Backend.{Platform, Env}
use dae_moon.Backend.Streams.{Stream}
use dae_moon.Manifest.{Manifest}
use dae_moon.Sync.Decide.{RemoteMeta}
use dae_moon.Api.Routing.{ApiSink, is_2xx}
use dae_moon.Api.Request.{
  Request, bodiless, posted, headers_init, latest_url, blob_url, upload_url, pair_url, device_url,
  pair_body,
}
use dae_moon.Api.Exchange.{Network, Body, const_body, stream_body, exchange, api_do}
use dae_moon.Api.Exchange.Statuses.{Answers, exchange_outside, exchange-status, api_do-status}
use dae_moon.Api.Client.{
  get_latest, download, upload, Paired, pair, revoke_device, stream_sink, plain_sink,
  api_jsonbuf_max, no_body,
}
use dae_moon.Api.Client.Answers.{
  Fails, latest_answer-Fails, upload_answer-Fails, pair_answer-Fails, revoke_answer-Fails,
  blob_answer-Fails,
}

-- The answers of a server whose status is never in 2xx.
module _ (net : Network) (jsmn : Tokenize) (past : List Request) (status : ℕ)
    (answers : Answers status net) (bad : is_2xx status ≡ false) where
  module _ {B S : Type 0} (env : Env) (req : Request) (b : Body B) (s : ApiSink S) where
    done_bad :
        (x : Unit {0})
        → (api_do net env past req b s).outcome ≡ ok x
        → is_2xx (api_do net env past req b s).response.status ≡ false
    done_bad x e = rw (api_do-status net req status answers env past b s x e) bad

    done_there :
        (status == 404) ≡ false
        → (x : Unit {0}) → (api_do net env past req b s).outcome ≡ ok x
        → ((api_do net env past req b s).response.status == 404) ≡ false
    done_there n x e = rw (api_do-status net req status answers env past b s x e) n

  module _ (env : Env) where
    get_latest-Fails :
        (p : Platform) (title : Bytes) (out : RemoteMeta)
        → (status == 404) ≡ false
        → Fails (get_latest net jsmn env past p title out).1
    unfolding get_latest
    get_latest-Fails p title out n m e = elim (Result-cases (latest_url env p title)) [
      | inr (c, u) ↦ err≢ok (rw u at e)
      | inl (url, u) ↦
          let req = bodiless (text "GET") url (headers_init env.token none) in
          latest_answer-Fails jsmn (api_do net env past req no_body (plain_sink api_jsonbuf_max))
            (done_bad env req no_body (plain_sink api_jsonbuf_max)) out
            (done_there env req no_body (plain_sink api_jsonbuf_max) n) m (rw u at e)
    ]

    upload-Fails :
        {B : Type 0} (m : Manifest) (body : Stream B) (st : B) (len : ℕ) (out : RemoteMeta)
        → Fails (upload net jsmn env past m body st len out).1
    unfolding upload
    upload-Fails m body st len out v e =
        elim (Result-cases (upload_url env m.platform m.title_id m.parent_version)) [
          | inr (c, u) ↦ err≢ok (rw u at e)
          | inl (url, u) ↦
              let req = posted url (headers_init env.token (some (text "application/zip"))) len in
              let b = stream_body body st in
              upload_answer-Fails jsmn (api_do net env past req b (plain_sink api_jsonbuf_max))
                (done_bad env req b (plain_sink api_jsonbuf_max)) out v (rw u at e)
        ]

    pair-Fails :
        (grant code label : Bytes) (p : Platform) (n k : ℕ) (out : Paired)
        → Fails (pair net jsmn env past grant code label p n k out).1
    unfolding pair
    pair-Fails grant code label p n k out v e = elim (Result-cases (pair_url env)) [
      | inr (c, u) ↦ err≢ok (rw u at e)
      | inl (url, u) ↦ elim (Result-cases (pair_body grant code label p)) [
        | inr (c, j) ↦ err≢ok (rw (u, j) at e)
        | inl (js, j) ↦
            let headers = headers_init env.token (some (text "application/json")) in
            let req = posted url headers (length js) in
            let b : Body (Unit {0}) = const_body js 0 in
            pair_answer-Fails jsmn (api_do net env past req b (plain_sink api_jsonbuf_max))
              (done_bad env req b (plain_sink api_jsonbuf_max)) n k out v (rw (u, j) at e)
      ]
    ]

    revoke_device-Fails :
        (token device_id : Bytes)
        → (status == 404) ≡ false
        → Fails (revoke_device net jsmn env past token device_id).1
    unfolding revoke_device
    revoke_device-Fails token device_id n v e =
        elim (Bool-cases (is_end token || is_end device_id)) [
          | inl k ↦ err≢ok (rw k at e)
          | inr k ↦ elim (Result-cases (device_url env device_id)) [
            | inr (c, u) ↦ err≢ok (rw (k, u) at e)
            | inl (url, u) ↦
                let req = bodiless (text "DELETE") url (headers_init (some token) none) in
                let old = record env { token = some token } in
                revoke_answer-Fails jsmn (api_do net old past req no_body (plain_sink 16))
                  (done_bad old req no_body (plain_sink 16))
                  (done_there old req no_body (plain_sink 16) n) v (rw (k, u) at e)
          ]
        ]

    module _ {S : Type 0} (p : Platform) (title : Bytes) (version : ℕ) (stream : Stream S) (st : S)
        (room : ℕ) where
      -- Where every answer of the server has one status outside 2xx, and the backend fills it in before
      -- the first piece of a body, a download fails and writes nothing to the caller's stream, whatever
      -- the bodies hold.
      pub download-outside :
          ((download net jsmn env past p title version stream st room).1 ≡ st)
          × Fails (download net jsmn env past p title version stream st room).2
      unfolding download
      download-outside = elim (Bool-cases (version == 0)) [
        | inl k ↦ rw k (refl, λ v e. err≢ok e)
        | inr k ↦ elim (Result-cases (blob_url env p title version)) [
          | inr (c, u) ↦ rw (k, u) (refl, λ v e. err≢ok e)
          | inl (url, u) ↦
              let req = bodiless (text "GET") url (headers_init env.token none) in
              let here = answers past req in
              let e = net past req in
              let done = exchange e no_body (stream_sink stream st) in
              rw (k, u)
                (
                  exchange_outside e no_body (stream_sink stream st) status here bad,
                  blob_answer-Fails jsmn room done.1 done.2 done.3
                      (rw (exchange-status e no_body (stream_sink stream st) status here) bad),
                )
        ]
      ]

-- A call other than a download, against a server that answers every request with one status outside
-- 2xx, does not succeed: an upload and a pairing never, a lookup and a revocation not unless that
-- status is 404.
pub calls-Fails :
    {B : Type 0} (net : Network) (jsmn : Tokenize) (past : List Request) (status : ℕ)
    → Answers status net
    → is_2xx status ≡ false
    → (env : Env) (m : Manifest) (body : Stream B) (st : B) (len : ℕ) (out : RemoteMeta)
    → (grant code label : Bytes) (p : Platform) (n k : ℕ) (paired : Paired)
      (token device_id : Bytes)
    → Fails (upload net jsmn env past m body st len out).1
      × Fails (pair net jsmn env past grant code label p n k paired).1
      × ((status == 404) ≡ false
          → Fails (get_latest net jsmn env past p label out).1
            × Fails (revoke_device net jsmn env past token device_id).1)
calls-Fails net jsmn past status answers bad env m body st len out grant code label p n k paired
      token device_id =
    (
      upload-Fails net jsmn past status answers bad env m body st len out,
      pair-Fails net jsmn past status answers bad env grant code label p n k paired,
      λ there. (
        get_latest-Fails net jsmn past status answers bad env p label out there,
        revoke_device-Fails net jsmn past status answers bad env token device_id there,
      ),
    )
