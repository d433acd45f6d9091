-- ===== src/Errors.antt =====
-- core/include/daemoon/error_codes.h and core/src/error_table.c: the failure codes, the table that
-- gives each its wire spelling, HTTP status and retry flag, and the searches of that table.
pub mod Laws
use dae_moon.Prelude.{
  ℕ, Bool, true, false, ◌&&◌, Option, none, some, List, [], ◌∷◌, Bytes, text, bytes_eq, ltb, leb,
  ◌==◌, if◌then◌else◌,
}

-- DAEMOON_OK is `Result.ok`; these are the failures, in the order of their values 1 to 28.
pub data Code : Type 0 where
  invalid_request invalid_manifest unsupported_platform unauthorized device_revoked : Code
  forbidden not_found version_conflict share_expired pairing_expired pairing_pending : Code
  save_too_large checksum_mismatch rate_limited internal_error io_error out_of_memory : Code
  parse_error network_error timeout backend_error user_cancelled no_space unsupported : Code
  archive_error buffer_too_small empty_save tls_error : Code

-- What a function that returns daemoon_result_t yields: its results, or the failure.
pub data Result {ℓ} (A : Type ℓ) : Type ℓ where
  ok : A → Result A
  err : Code → Result A

-- The two ways on from a result.
abbrev pub either {ℓ κ} : {A : Type ℓ} {B : Type κ} → Result A → (Code → B) → (A → B) → B
either (ok a) f g = g a
either (err e) f g = f e

-- What DAEMOON_TRY does with a result.
infixl 5 ◌>>=◌
abbrev pub ◌>>=◌ {ℓ κ} : {A : Type ℓ} {B : Type κ} → Result A → (A → Result B) → Result B
ok a >>= f = f a
err e >>= f = err e

-- The value of a code, from 1; 0 is DAEMOON_OK.
unfoldable pub value : Code → ℕ
value invalid_request = 1
value invalid_manifest = 2
value unsupported_platform = 3
value unauthorized = 4
value device_revoked = 5
value forbidden = 6
value not_found = 7
value version_conflict = 8
value share_expired = 9
value pairing_expired = 10
value pairing_pending = 11
value save_too_large = 12
value checksum_mismatch = 13
value rate_limited = 14
value internal_error = 15
value io_error = 16
value out_of_memory = 17
value parse_error = 18
value network_error = 19
value timeout = 20
value backend_error = 21
value user_cancelled = 22
value no_space = 23
value unsupported = 24
value archive_error = 25
value buffer_too_small = 26
value empty_save = 27
value tls_error = 28

-- daemoon_error_row_t, without the id of the message.
pub record Row : Type 0 where
  pub result : Code
  pub code : Bytes
  pub http : ℕ
  pub retryable : Bool

abbrev pub row : Code → Bytes → ℕ → Bool → Row
row r c h t = record { result = r; code = c; http = h; retryable = t }

unfoldable pub errors : List Row
errors =
    row invalid_request (text "invalid_request") 400 false
    ∷ row invalid_manifest (text "invalid_manifest") 400 false
    ∷ row unsupported_platform (text "unsupported_platform") 400 false
    ∷ row unauthorized (text "unauthorized") 401 false
    ∷ row device_revoked (text "device_revoked") 401 false
    ∷ row forbidden (text "forbidden") 403 false
    ∷ row not_found (text "not_found") 404 false
    ∷ row version_conflict (text "version_conflict") 409 false
    ∷ row share_expired (text "share_expired") 410 false
    ∷ row pairing_expired (text "pairing_expired") 410 false
    ∷ row pairing_pending (text "pairing_pending") 400 true
    ∷ row save_too_large (text "save_too_large") 413 false
    ∷ row checksum_mismatch (text "checksum_mismatch") 422 false
    ∷ row rate_limited (text "rate_limited") 429 true
    ∷ row internal_error (text "internal_error") 500 true
    ∷ row io_error (text "io_error") 0 false
    ∷ row out_of_memory (text "out_of_memory") 0 false
    ∷ row parse_error (text "parse_error") 0 false
    ∷ row network_error (text "network_error") 0 true
    ∷ row timeout (text "timeout") 0 true
    ∷ row backend_error (text "backend_error") 0 false
    ∷ row user_cancelled (text "user_cancelled") 0 false
    ∷ row no_space (text "no_space") 0 false
    ∷ row unsupported (text "unsupported") 0 false
    ∷ row archive_error (text "archive_error") 0 false
    ∷ row buffer_too_small (text "buffer_too_small") 0 false
    ∷ row empty_save (text "empty_save") 0 false
    ∷ row tls_error (text "tls_error") 0 false
    ∷ []

-- The loop of find_row, over the rows that are left.
unfoldable pub find_in : List Row → Code → Option Row
unfolding value
find_in [] r = none
find_in (x ∷ xs) r = if value x.result == value r then some x else find_in xs r

unfoldable pub find_row : Code → Option Row
unfolding find_in errors
find_row r = find_in errors r

-- daemoon_result_code of a failure.
unfoldable pub result_code : Code → Bytes
unfolding find_row
result_code r = elim (find_row r) [ none ↦ text "internal_error" | some x ↦ x.code ]

unfoldable pub code_in : List Row → Bytes → Code
code_in [] c = internal_error
code_in (x ∷ xs) c = if bytes_eq x.code c then x.result else code_in xs c

-- daemoon_result_from_code; `none` is the NULL pointer.
unfoldable pub from_code : Option Bytes → Code
unfolding code_in errors
from_code none = internal_error
from_code (some c) = code_in errors c

unfoldable pub status_in : List Row → ℕ → Code
status_in [] s = internal_error
status_in (x ∷ xs) s = if x.http == s then x.result else status_in xs s

-- daemoon_result_from_http: the body's code wins, the status is the fallback.
unfoldable pub from_http : ℕ → Option Bytes → Result (Unit {0})
unfolding from_code status_in errors
from_http status code = if leb 200 status && ltb status 300 then ok tt else elim code [
  | none ↦ err (status_in errors status)
  | some [] ↦ err (status_in errors status)
  | some (c ∷ cs) ↦ err (from_code (some (c ∷ cs)))
]

unfoldable pub retryable : Code → Bool
unfolding find_row
retryable r = elim (find_row r) [ none ↦ false | some x ↦ x.retryable ]
