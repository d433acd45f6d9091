-- ===== src/Api/Request.antt =====
-- build_base, add_platform_query and headers_init of core/src/api.c, daemoon_http_req_t of
-- core/include/daemoon/backend.h, and the addresses and bodies of the requests.
use dae_moon.Prelude.{
  ℕ, ◌+◌, Bool, true, false, Option, none, some, List, [], ◌∷◌, ◌++◌, Bytes, text, if◌then◌else◌,
}
use dae_moon.Errors.{Result, ok, err, either, ◌>>=◌, invalid_request}
use dae_moon.Util.Strbuf.{Strbuf, init, add, addc, add_uint, add_json, add_urlenc, result}
use dae_moon.Backend.{Platform, Env, is_blank, or_empty}
use dae_moon.Backend.Names.{platform_name}

abbrev pub api_url_max : ℕ
api_url_max = 512

abbrev pub token_max : ℕ
token_max = 129

pub record Header : Type 0 where
  pub name : Bytes
  pub value : Bytes

-- daemoon_http_req_t; `has_body` is whether body_read is not NULL, and `body_len` is none for -1.
pub record Request : Type 0 where
  pub method : Bytes
  pub url : Bytes
  pub headers : List Header
  pub has_body : Bool
  pub body_len : Option ℕ
  pub timeout_ms : ℕ

abbrev pub header : Bytes → Bytes → Header
header name value = record { name = name; value = value }

unfoldable pub build_base : Env → ℕ → Result Strbuf
unfolding init add is_blank or_empty
build_base env cap =
    if is_blank env.server_url
    then err invalid_request
    else ok (add (init cap) (or_empty env.server_url))

unfoldable pub add_platform_query : Strbuf → Platform → Bool → Strbuf
unfolding addc add add_urlenc platform_name
add_platform_query sb p first =
    add_urlenc (add (addc sb (if first then b'?' else b'&')) (text "platform=")) (platform_name p)

-- The value of the Authorization header.
unfoldable pub bearer : Bytes → Result Bytes
unfolding init add result
bearer token = result (add (add (init (16 + token_max)) (text "Bearer ")) token)

-- The Authorization header, or nothing without a token that fits.
unfoldable pub auth_header : Option Bytes → List Header
unfolding is_blank bearer or_empty
auth_header token =
    if is_blank token
    then []
    else either (bearer (or_empty token)) (λ e. []) (λ v. header (text "Authorization") v ∷ [])

unfoldable pub content_type_header : Option Bytes → List Header
content_type_header none = []
content_type_header (some t) = header (text "Content-Type") t ∷ []

-- headers_init
unfoldable pub headers_init : Option Bytes → Option Bytes → List Header
unfolding content_type_header auth_header
headers_init token content_type =
    header (text "Accept") (text "application/json")
    ∷ (content_type_header content_type ++ auth_header token)

abbrev pub default_timeout_ms : ℕ
default_timeout_ms = 30000

-- A request without a body, as the calls fill it in.
abbrev pub bodiless : Bytes → Bytes → List Header → Request
bodiless method url headers = record {
  method = method;
  url = url;
  headers = headers;
  has_body = false;
  body_len = none;
  timeout_ms = default_timeout_ms;
}

abbrev pub posted : Bytes → List Header → ℕ → Request
posted url headers len = record {
  method = text "POST";
  url = url;
  headers = headers;
  has_body = true;
  body_len = some len;
  timeout_ms = default_timeout_ms;
}

-- The address of daemoon_api_get_latest.
unfoldable pub latest_url : Env → Platform → Bytes → Result Bytes
unfolding build_base add add_urlenc add_platform_query result
latest_url env platform title_id = do
  sb ← build_base env api_url_max
  result (
      add_platform_query (add (add_urlenc (add sb (text "/v1/titles/")) title_id) (text "/latest"))
        platform true)

-- The address of daemoon_api_download.
unfoldable pub blob_url : Env → Platform → Bytes → ℕ → Result Bytes
unfolding build_base add add_urlenc add_uint add_platform_query result
blob_url env platform title_id version = do
  sb ← build_base env api_url_max
  let sb = add (add_urlenc (add sb (text "/v1/titles/")) title_id) (text "/blob/")
  result (add_platform_query (add_uint sb version) platform true)

-- The address of daemoon_api_upload.
unfoldable pub upload_url : Env → Platform → Bytes → ℕ → Result Bytes
unfolding build_base add add_urlenc add_uint add_platform_query result
upload_url env platform title_id parent = do
  sb ← build_base env api_url_max
  let sb = add (add_urlenc (add sb (text "/v1/titles/")) title_id) (text "/blob?parent_version=")
  result (add_platform_query (add_uint sb parent) platform false)

-- The address of daemoon_api_pair.
unfoldable pub pair_url : Env → Result Bytes
unfolding build_base add result
pair_url env = do sb ← build_base env api_url_max; result (add sb (text "/v1/devices/pair"))

-- The address of daemoon_api_revoke_device.
unfoldable pub device_url : Env → Bytes → Result Bytes
unfolding build_base add add_urlenc result
device_url env device_id = do
  sb ← build_base env api_url_max
  result (add_urlenc (add sb (text "/v1/devices/")) device_id)

-- The body of daemoon_api_pair.
unfoldable pub pair_body : Bytes → Bytes → Bytes → Platform → Result Bytes
unfolding init add add_json result platform_name
pair_body grant code label platform =
    let sb = add (init 512) (text "{\"grant\":\"") in
    let sb = add_json sb grant in
    let sb = add sb (text "\",\"code\":\"") in
    let sb = add_json sb code in
    let sb = add sb (text "\",\"label\":\"") in
    let sb = add_json sb label in
    let sb = add sb (text "\",\"platform\":\"") in
    let sb = add_json sb (platform_name platform) in result (add sb (text "\"}"))
