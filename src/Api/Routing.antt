-- ===== src/Api/Routing.antt =====
-- membuf_init, membuf_append and api_body_write of core/src/api.c: where the bytes of a response body go.
use dae_moon.Prelude.{
  ℕ, ◌-◌, Bool, true, false, Option, none, some, [], ◌++◌, Bytes, length, take, ltb, leb, ◌&&◌,
  ◌==◌, if◌then◌else◌,
}
use dae_moon.Errors.{Code, Result, ok, err, backend_error}
use dae_moon.Backend.Streams.{Stream, stream_write}

-- api_membuf_t: `content` is the buffer up to `len`, where the NUL stands.
pub record Membuf : Type 0 where
  pub cap : ℕ
  pub content : Bytes
  pub truncated : Bool

unfoldable pub membuf_init : ℕ → Membuf
membuf_init cap = record { cap = cap; content = []; truncated = false }

-- membuf_append; it always returns DAEMOON_OK.
unfoldable pub membuf_append : Membuf → Bytes → Membuf
membuf_append mb buf =
    if mb.cap == 0
    then record mb { truncated = true }
    else (let room = mb.cap - length mb.content - 1 in
        if ltb room (length buf)
        then record mb { content = mb.content ++ take room buf; truncated = true }
        else record mb { content = mb.content ++ buf })

-- api_sink_t without the response it points at; `target` is the caller's sink, with the state behind it.
pub record ApiSink (S : Type 0) : Type 0 where
  pub target : Option (Stream S)
  pub state : S
  pub ok_body : Membuf
  pub err_body : Membuf
  pub failure : Option Code

-- What DAEMOON_OK or a failure leaves in a variable of type daemoon_result_t, here `none` for DAEMOON_OK.
unfoldable pub failure_of {ℓ} : {A : Type ℓ} → Result A → Option Code
failure_of (ok a) = none
failure_of (err e) = some e

unfoldable pub is_2xx : ℕ → Bool
is_2xx status = leb 200 status && ltb status 300

module _ {S : Type 0} where
  -- A chunk of a success body.
  unfoldable pub accept_chunk : ApiSink S → Bytes → ApiSink S × Result (Unit {0})
  unfolding membuf_append stream_write failure_of
  accept_chunk s buf = elim s.target [
    | none ↦ (record s { ok_body = membuf_append s.ok_body buf }, ok tt)
    | some t ↦
        let (st, r) = stream_write t s.state buf in
        (record s { state = st; failure = failure_of r }, r)
  ]

  -- api_body_write, where `status` is what the response says at that time; 0 is not filled in.
  unfoldable pub api_body_write : ApiSink S → ℕ → Bytes → ApiSink S × Result (Unit {0})
  unfolding is_2xx accept_chunk membuf_append
  api_body_write s status buf = elim s.failure [
    | some e ↦ (s, err e)
    | none ↦
        if status == 0
        then (record s { failure = some backend_error }, err backend_error)
        else if is_2xx status
        then accept_chunk s buf
        else (record s { err_body = membuf_append s.err_body buf }, ok tt)
  ]
