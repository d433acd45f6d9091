-- ===== src/Api/Client/Answers.antt =====
-- What the calls of core/src/api.c make of the status of a response.
use dae_moon.Prelude.{
  ℕ, ◌≡◌, false, Option, none, some, [], Bytes, Option-cases, inl, inr, ◌==◌, ◌<◌, ◌≤◌, arith,
}
use dae_moon.Errors.{Result, ok, err}
use dae_moon.Errors.Laws.{err≢ok, from_http-ok, Result-cases}
use dae_moon.Util.Json.{Tokenize}
use dae_moon.Sync.Decide.{RemoteMeta}
use dae_moon.Api.Routing.{Membuf, ApiSink, is_2xx}
use dae_moon.Api.Exchange.{Response, Attempted}
use dae_moon.Api.Reading.{Conflict, named_failure, error_body, api_parse_error}
use dae_moon.Api.Client.{
  refusal, latest_answer, blob_answer, upload_answer, Paired, pair_answer, revoke_answer,
}

-- A call that did not succeed.
abbrev pub Fails {ℓ} : {A : Type ℓ} → Result A → Type ℓ
Fails {A = A} r = (a : A) → ¬ (r ≡ ok a)

outside : (s : ℕ) → is_2xx s ≡ false → ¬ ((200 ≤ s) × (s < 300))
unfolding is_2xx
outside s h (l, u) = ground arith

named_failure-Fails :
    (status : ℕ) (b : Option (Bytes × Option Conflict))
    → is_2xx status ≡ false
    → Fails (named_failure status b).0
unfolding named_failure
named_failure-Fails status none h x e = outside status h ((from_http-ok status none).0 e)
named_failure-Fails status (some (code, detail)) h x e =
    outside status h ((from_http-ok status (some code)).0 e)

-- An error body never stands for a success.
parse_error-Fails :
    (jsmn : Tokenize) (body : Bytes) (status : ℕ)
    → is_2xx status ≡ false
    → Fails (api_parse_error jsmn body status).0
unfolding api_parse_error
parse_error-Fails jsmn body status = named_failure-Fails status (error_body jsmn body)

refusal-Fails {ℓ} :
    {A : Type ℓ} (jsmn : Tokenize) (body : Membuf) (status : ℕ) (out : A)
    → is_2xx status ≡ false
    → Fails (refusal jsmn body status out)
unfolding refusal
refusal-Fails jsmn body status out h a e =
    elim (Result-cases (api_parse_error jsmn body.content status).0) [
      | inl (x, n) ↦ parse_error-Fails jsmn body.content status h x n
      | inr (c, n) ↦ err≢ok (rw n at e)
    ]

module _ (jsmn : Tokenize) {B S : Type 0} (a : Attempted B S)
    (bad : (x : Unit {0}) → a.outcome ≡ ok x → is_2xx a.response.status ≡ false) where
  pub latest_answer-Fails :
      (out : RemoteMeta)
      → ((x : Unit {0}) → a.outcome ≡ ok x → (a.response.status == 404) ≡ false)
      → Fails (latest_answer jsmn out a)
  unfolding latest_answer
  latest_answer-Fails out n m e = elim (Result-cases a.outcome) [
    | inl (x, k) ↦
        refusal-Fails jsmn a.sink.err_body a.response.status out (bad x k) m
          (rw (k, n x k, bad x k) at e)
    | inr (c, k) ↦ err≢ok (rw k at e)
  ]

  pub upload_answer-Fails : (out : RemoteMeta) → Fails (upload_answer jsmn out a).0
  unfolding upload_answer
  upload_answer-Fails out m e = elim (Result-cases a.outcome) [
    | inl (x, k) ↦
        refusal-Fails jsmn a.sink.err_body a.response.status out (bad x k) m (rw (k, bad x k) at e)
    | inr (c, k) ↦ err≢ok (rw k at e)
  ]

  pub pair_answer-Fails : (n k : ℕ) (out : Paired) → Fails (pair_answer jsmn n k out a)
  unfolding pair_answer
  pair_answer-Fails n k out m e = elim (Result-cases a.outcome) [
    | inl (x, i) ↦
        refusal-Fails jsmn a.sink.err_body a.response.status out (bad x i) m (rw (i, bad x i) at e)
    | inr (c, i) ↦ err≢ok (rw i at e)
  ]

  pub revoke_answer-Fails :
      ((x : Unit {0}) → a.outcome ≡ ok x → (a.response.status == 404) ≡ false)
      → Fails (revoke_answer jsmn a)
  unfolding revoke_answer
  revoke_answer-Fails n m e = elim (Result-cases a.outcome) [
    | inl (x, k) ↦
        refusal-Fails jsmn a.sink.err_body a.response.status tt (bad x k) m
          (rw (k, n x k, bad x k) at e)
    | inr (c, k) ↦ err≢ok (rw k at e)
  ]

module _ {S : Type 0} (jsmn : Tokenize) (room : ℕ) (s : ApiSink S) (resp : Response) where
  pub blob_answer-Fails :
      (r : Result (Unit {0})) → is_2xx resp.status ≡ false → Fails (blob_answer jsmn room s resp r)
  unfolding blob_answer
  blob_answer-Fails (err c) bad v e = err≢ok e
  blob_answer-Fails (ok x) bad v e = elim (Option-cases s.failure) [
    | inl n ↦ refusal-Fails jsmn s.err_body resp.status [] bad v (rw (n, bad) at e)
    | inr (c, n) ↦ err≢ok (rw n at e)
  ]
