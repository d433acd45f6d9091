-- ===== src/Api/Reading.antt =====
-- daemoon_api_parse_error and parse_version_meta of core/src/api.c: what a response body says. A text and
-- its length are one list here.
use dae_moon.Prelude.{
  ℕ, ◌%◌, ◌^◌, Bool, true, false, Option, none, some, List, [], ◌∷◌, Bytes, text, if◌then◌else◌,
}
use dae_moon.Errors.{Result, ok, err, either, ◌>>=◌, parse_error, from_http}
use dae_moon.Util.Json.{Tokenize, Token, json_parse, is_object, is_null, find, json_uint, get_uint}
use dae_moon.Util.Json.Nested.{find_index, at}
use dae_moon.Util.Json.Strings.{json_text, get_str}
use dae_moon.Sync.Decide.{RemoteMeta}

abbrev pub api_tokens : ℕ
api_tokens = 64

-- daemoon_conflict_t
pub record Conflict : Type 0 where
  pub server_version : ℕ
  pub parent_version : ℕ
  pub server_size : ℕ
  pub server_device_label : Bytes
  pub server_received_at : Bytes

-- A number that is cast to unsigned int.
abbrev pub u32 : ℕ → ℕ
u32 n = n % 2 ^ 32

-- A field that stays 0 where it cannot be read.
unfoldable pub uint_or_zero : Bytes → List Token → ℕ → Bytes → ℕ
unfolding get_uint
uint_or_zero js toks obj key = either (get_uint js toks obj key) (λ e. 0) (λ n. n)

unfoldable pub conflict_fields : Bytes → List Token → ℕ → Conflict
unfolding uint_or_zero get_str
conflict_fields js toks detail = record {
  server_version = u32 (uint_or_zero js toks detail (text "server_version"));
  parent_version = u32 (uint_or_zero js toks detail (text "parent_version"));
  server_size = uint_or_zero js toks detail (text "server_size");
  server_device_label = (get_str js toks detail (text "server_device_label") 65 []).0;
  server_received_at = (get_str js toks detail (text "server_received_at") 32 []).0;
}

-- The index of the object under a key of an object.
unfoldable pub object_under : Bytes → List Token → ℕ → Bytes → Option ℕ
unfolding find_index is_object
object_under js toks obj key = elim (find_index js toks obj key) [
  | none ↦ none
  | some i ↦ elim (at toks (some i)) [
    | none ↦ none
    | some t ↦ if is_object t.kind then some i else none
  ]
]

-- The code of the error object `obj`, in a buffer of 64 bytes; `none` is one that cannot be read.
unfoldable pub error_code : Bytes → List Token → ℕ → Option Bytes
unfolding find json_text
error_code js toks obj = elim (find js toks obj (text "code")) [
  | none ↦ none
  | some t ↦ let r = json_text js t 64 [] in either r.1 (λ e. none) (λ x. some r.0)
]

-- The code that a body names, and the detail behind it; `none` is a body that the status replaces.
unfoldable pub error_body : Tokenize → Bytes → Option (Bytes × Option Conflict)
unfolding json_parse object_under error_code conflict_fields
error_body jsmn [] = none
error_body jsmn (c ∷ js) =
    either (json_parse jsmn (c ∷ js) api_tokens) (λ e. none)
      (λ toks. elim (object_under (c ∷ js) toks 0 (text "error")) [
        | none ↦ none
        | some obj ↦ elim (error_code (c ∷ js) toks obj) [
          | none ↦ none
          | some code ↦ some (
            code,
            elim (object_under (c ∷ js) toks obj (text "detail")) [
              | none ↦ none
              | some d ↦ some (conflict_fields (c ∷ js) toks d)
            ],
          )
        ]
      ])

-- The result for a body that was read, and what *out_conflict becomes; `none` leaves it alone.
unfoldable pub named_failure :
    ℕ → Option (Bytes × Option Conflict) → Result (Unit {0}) × Option Conflict
unfolding from_http
named_failure status none = (from_http status none, none)
named_failure status (some (code, detail)) = (from_http status (some code), detail)

-- daemoon_api_parse_error; a caller that passes no out_conflict drops the conflict.
unfoldable pub api_parse_error : Tokenize → Bytes → ℕ → Result (Unit {0}) × Option Conflict
unfolding error_body named_failure
api_parse_error jsmn body status = named_failure status (error_body jsmn body)

-- `parent_version` where it is there, not null and a number.
unfoldable pub parent_of : Bytes → List Token → ℕ
unfolding find is_null json_uint
parent_of js toks = elim (find js toks 0 (text "parent_version")) [
  | none ↦ 0
  | some t ↦ if is_null js t then 0 else either (json_uint js t) (λ e. 0) (λ n. u32 n)
]

-- A string field that has to be there, in a buffer of so many bytes.
unfoldable pub str_under : Bytes → List Token → Bytes → ℕ → Result Bytes
unfolding get_str
str_under js toks key room =
    let r = get_str js toks 0 key room [] in either r.1 (λ e. err e) (λ x. ok r.0)

unfoldable pub meta_fields : Bytes → List Token → Result RemoteMeta
unfolding get_uint parent_of str_under get_str
meta_fields js toks = do
  version ← get_uint js toks 0 (text "version")
  sha256 ← str_under js toks (text "sha256") 65
  size ← get_uint js toks 0 (text "size")
  ok (record {
    exists = true;
    latest_version = u32 version;
    parent_version = parent_of js toks;
    sha256 = sha256;
    size = size;
    device_label = (get_str js toks 0 (text "device_label") 65 []).0;
    received_at = (get_str js toks 0 (text "received_at") 32 []).0;
  })

unfoldable pub root_is_object : List Token → Bool
unfolding is_object
root_is_object [] = false
root_is_object (t ∷ toks) = is_object t.kind

-- parse_version_meta; its callers drop *out where it fails.
unfoldable pub parse_version_meta : Tokenize → Bytes → Result RemoteMeta
unfolding json_parse root_is_object meta_fields
parse_version_meta jsmn js = json_parse jsmn js api_tokens >>= λ toks.
    if root_is_object toks then meta_fields js toks else err parse_error
