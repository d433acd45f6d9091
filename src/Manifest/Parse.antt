-- ===== src/Manifest/Parse.antt =====
-- daemoon_manifest_parse of core/src/manifest.c. `js` is the text of `len` bytes, or the whole string
-- where `len` is 0.
use dae_moon.Prelude.{
  ℕ, not, Option, none, some, List, [], ◌∷◌, Bytes, text, length, ltb, ◌==◌, if◌then◌else◌,
}
use dae_moon.Errors.{Result, ok, err, either, invalid_manifest, ◌>>=◌}
use dae_moon.Util.Json.{
  Tokenize, Token, json_parse, is_object, is_string, is_null, find, json_uint, get_uint,
}
use dae_moon.Util.Json.Strings.{json_text, get_str}
use dae_moon.Backend.Names.{platform_parse, save_type_parse}
use dae_moon.Manifest.{Manifest, manifest_format_version, version_none}
use dae_moon.Manifest.Check.{validate}

-- MANIFEST_MAX_TOKENS and DAEMOON_MANIFEST_MAX_BYTES
abbrev pub manifest_max_tokens : ℕ
manifest_max_tokens = 64

abbrev pub manifest_max_bytes : ℕ
manifest_max_bytes = 2048

-- daemoon_json_get_str into a cleared field, where a failure ends the parse.
unfoldable pub str_field : Bytes → List Token → Bytes → ℕ → Result Bytes
str_field js toks key room =
    let r = get_str js toks 0 key room [] in either r.1 (λ e. err e) (λ _. ok r.0)

unfoldable pub bounded : ℕ → ℕ → Result ℕ
bounded most n = if ltb most n then err invalid_manifest else ok n

-- `none` is a missing or unreadable secure value.
unfoldable pub secure_field : Bytes → List Token → Option ℕ
secure_field js toks = either (get_uint js toks 0 (text "secure_value")) (λ e. none) (λ v. some v)

unfoldable pub parent_field : Bytes → List Token → Result ℕ
parent_field js toks = elim (find js toks 0 (text "parent_version")) [
  | none ↦ ok version_none
  | some t ↦
      if is_null js t then ok version_none else (json_uint js t >>= λ n. bounded 0xffffffff n)
]

unfoldable pub created_field : Bytes → List Token → Bytes
created_field js toks = elim (find js toks 0 (text "created_at")) [
  | none ↦ []
  | some t ↦ if is_string t.kind then (json_text js t 32 []).0 else []
]

-- The fields of the object, before they are validated.
unfoldable pub manifest_fields : Bytes → List Token → Result Manifest
manifest_fields js toks = do
  stated ← get_uint js toks 0 (text "format_version")
  format ← bounded 0x7fffffff stated
  _ ←
      if not (format == manifest_format_version)
      then err invalid_manifest
      else ok (let u : Unit {0} = tt in u)
  platform ← str_field js toks (text "platform") 64
  save_type ← str_field js toks (text "save_type") 64
  title_id ← str_field js toks (text "title_id") 33
  sha256 ← str_field js toks (text "sha256") 65
  label ← str_field js toks (text "device_label") 65
  issued ← get_uint js toks 0 (text "version")
  version ← bounded 0xffffffff issued
  size ← get_uint js toks 0 (text "size")
  parent ← parent_field js toks
  ok (record {
    format_version = format;
    platform = platform_parse platform;
    title_id = title_id;
    save_type = save_type_parse save_type;
    version = version;
    parent_version = parent;
    sha256 = sha256;
    size = size;
    device_label = label;
    title_name = (get_str js toks 0 (text "title_name") 128 []).0;
    secure_value = secure_field js toks;
    created_at = created_field js toks;
  })

unfoldable pub parse_tokens : Bytes → List Token → Result Manifest
parse_tokens js [] = err invalid_manifest
parse_tokens js (t ∷ toks) =
    if not (is_object t.kind)
    then err invalid_manifest
    else (do m ← manifest_fields js (t ∷ toks); _ ← validate m; ok m)

-- daemoon_manifest_parse
unfoldable pub parse : Tokenize → Bytes → Result Manifest
parse jsmn js =
    if ltb manifest_max_bytes (length js)
    then err invalid_manifest
    else (json_parse jsmn js manifest_max_tokens >>= λ toks. parse_tokens js toks)
