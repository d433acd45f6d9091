-- ===== src/Tests/Packages.antt =====
-- The theorems about packages, at a small one.
use dae_moon.Prelude.{
  before_nul, starts_with, ℕ, ◌≡◌, ◌↔◌, ◌≤◌, refl, List, [], ◌∷◌, ◌++◌, true, false, Option, some,
  none, Bytes, text, length, ltb, if◌then◌else◌, All, arith, bytes_eq,
}
use dae_moon.Errors.{ok, err, ◌>>=◌, buffer_too_small}
use dae_moon.Util.Json.{
  Kind, Token, Tokenize, tokens, json_parse, is_string, is_object, is_primitive, is_child_of,
  is_key, find_value, find, is_null, uint_walk, json_uint, get_uint,
}
use dae_moon.Util.Json.Strings.{decode_walk, finish, json_str, json_text, get_str}
use dae_moon.Util.Strbuf.{init, addn, add, addc}
use dae_moon.Util.Utf8.{valid, valid_walk, step_len, seq_len}
use dae_moon.Util.Digest.{is_end}
use dae_moon.Backend.{Platform, SaveType}
use dae_moon.Backend.Names.{platform_parse, save_type_parse}
use dae_moon.Manifest.{Manifest}
use dae_moon.Manifest.Check.{
  validate, is_lower_hex, lower_hex_walk, is_lower_hex64, is_title_id_char, title_id_walk,
  is_valid_title_id, is_unknown_platform, is_unknown_save_type,
}
use dae_moon.Manifest.Parse.{
  str_field, bounded, secure_field, parent_field, created_field, manifest_fields, parse_tokens,
  parse, manifest_max_bytes,
}
use dae_moon.Manifest.Print.{write}
use dae_moon.Manifest.Text.{manifest_text, write-manifest_text}
use dae_moon.Manifest.Valid.{IsValid, validate-IsValid}
use dae_moon.Manifest.Read.{parse-IsValid}
use dae_moon.Manifest.Room.{Fits, write-Fits}
use dae_moon.Util.Sha256.{be_bytes}
use dae_moon.Archive.{
  path_is_safe, contains, has_byte, no_control, starts_absolute, ends_in_slash, Entry,
  collect_entry, path_before, insert, sort, Stat, collect_file, collect_files, collect_payload,
  entry_header, hash_files, max_entries,
}
use dae_moon.Archive.Paths.{IsSafe, path_is_safe-IsSafe}
use dae_moon.Archive.Collecting.{HasSafePath, IsSorted, collect_payload-IsSorted}
use dae_moon.Archive.Framing.{Named, hash_files-inj}
use dae_moon.Util.Copy.{strlcpy}

abbrev token : Kind → ℕ → ℕ → ℕ → Option ℕ → Token
token k a b n p = record { kind = k; start = a; stop = b; size = n; parent = p }

abbrev json : Bytes
json =
    text
      "{\"format_version\":1,\"platform\":\"nx\",\"save_type\":\"savedata\",\"title_id\":\"0100000000010000\",\"sha256\":\"00000000000000000000000000000000000000000000000000000000000000aa\",\"device_label\":\"Switch\",\"version\":5,\"size\":10,\"parent_version\":4}"

-- What the tokenizer makes of it.
abbrev tokenized : Tokenize
tokenized js n = tokens (
    token Kind.object 0 230 9 (none)
    ∷ token Kind.string 2 16 1 (some 0)
    ∷ token Kind.primitive 18 19 0 (some 1)
    ∷ token Kind.string 21 29 1 (some 0)
    ∷ token Kind.string 32 34 0 (some 3)
    ∷ token Kind.string 37 46 1 (some 0)
    ∷ token Kind.string 49 57 0 (some 5)
    ∷ token Kind.string 60 68 1 (some 0)
    ∷ token Kind.string 71 87 0 (some 7)
    ∷ token Kind.string 90 96 1 (some 0)
    ∷ token Kind.string 99 163 0 (some 9)
    ∷ token Kind.string 166 178 1 (some 0)
    ∷ token Kind.string 181 187 0 (some 11)
    ∷ token Kind.string 190 197 1 (some 0)
    ∷ token Kind.primitive 199 200 0 (some 13)
    ∷ token Kind.string 202 206 1 (some 0)
    ∷ token Kind.primitive 208 210 0 (some 15)
    ∷ token Kind.string 212 226 1 (some 0)
    ∷ token Kind.primitive 228 229 0 (some 17)
    ∷ [])

abbrev read_back : Manifest
read_back = record {
  format_version = 1;
  title_name = [];
  secure_value = none;
  created_at = [];
  platform = Platform.nx;
  title_id = text "0100000000010000";
  save_type = SaveType.savedata;
  version = 5;
  parent_version = 4;
  sha256 = text "00000000000000000000000000000000000000000000000000000000000000aa";
  size = 10;
  device_label = text "Switch";
}

read_back-valid : validate read_back ≡ ok tt
unfolding validate is_lower_hex lower_hex_walk is_lower_hex64 is_title_id_char title_id_walk
    is_valid_title_id is_unknown_platform is_unknown_save_type valid valid_walk step_len seq_len
    is_end
read_back-valid = refl

json-parse : parse tokenized json ≡ ok read_back
unfolding validate is_lower_hex lower_hex_walk is_lower_hex64 is_title_id_char title_id_walk
    is_valid_title_id is_unknown_platform is_unknown_save_type valid valid_walk step_len seq_len
    is_end str_field bounded secure_field parent_field created_field manifest_fields parse_tokens
    parse json_parse is_string is_object is_primitive is_child_of is_key find_value find is_null
    decode_walk finish json_str json_text before_nul uint_walk json_uint get_str get_uint init addn
    add addc platform_parse save_type_parse bytes_eq
json-parse = refl

validate-IsValid_example : (validate read_back ≡ ok tt) ↔ IsValid read_back
validate-IsValid_example = validate-IsValid read_back

parse-IsValid_example : IsValid read_back × (length json ≤ manifest_max_bytes)
parse-IsValid_example = parse-IsValid tokenized json read_back json-parse

write-manifest_text_example : write read_back 100 ≡ (
    validate read_back >>= λ _.
    if ltb (length (manifest_text read_back)) 100
    then ok (manifest_text read_back)
    else err buffer_too_small)
write-manifest_text_example = write-manifest_text read_back 100

read_back-Fits : Fits read_back
read_back-Fits = record { label = omega arith; name = omega arith; created = omega arith }

write-Fits_example : write read_back manifest_max_bytes ≡ ok (manifest_text read_back)
write-Fits_example =
    write-Fits read_back ((validate-IsValid read_back).0 read_back-valid) read_back-Fits

path-safe : path_is_safe (text "b/x") ≡ true
unfolding path_is_safe starts_with contains has_byte no_control starts_absolute ends_in_slash
path-safe = refl

path_is_safe-IsSafe_example : IsSafe (text "b/x")
path_is_safe-IsSafe_example = path_is_safe-IsSafe (text "b/x") path-safe

abbrev zipped : List (Option Stat)
zipped =
    some (record { filename = text "payload/b/x"; is_directory = false; uncomp_size = 2 })
    ∷ some (record { filename = text "manifest.json"; is_directory = false; uncomp_size = 9 })
    ∷ some (record { filename = text "payload/a"; is_directory = false; uncomp_size = 1 })
    ∷ []

abbrev sorted : List Entry
sorted = record { path = text "a"; size = 1 } ∷ record { path = text "b/x"; size = 2 } ∷ []

zipped-collect_payload : collect_payload zipped ≡ ok sorted
unfolding collect_payload collect_files collect_file sort insert path_before bytes_eq collect_entry
    strlcpy path_is_safe starts_with contains has_byte no_control starts_absolute ends_in_slash
zipped-collect_payload = refl

collect_payload-IsSorted_example :
    IsSorted sorted × All HasSafePath sorted × (length sorted ≤ max_entries)
collect_payload-IsSorted_example = collect_payload-IsSorted zipped sorted zipped-collect_payload

abbrev contents : List (Entry × Bytes)
contents =
    (record { path = text "a"; size = 1 }, text "1")
    ∷ (record { path = text "b/x"; size = 2 }, text "23")
    ∷ []

abbrev fed : Bytes
fed =
    text "a"
    ++ 0 ∷ 0 ∷ 0 ∷ 0 ∷ 0 ∷ 0 ∷ 0 ∷ 0 ∷ 1 ∷ text "1b/x"
    ++ 0 ∷ 0 ∷ 0 ∷ 0 ∷ 0 ∷ 0 ∷ 0 ∷ 0 ∷ 2 ∷ text "23"

contents-hash_files : hash_files contents ≡ ok (fed, 3)
unfolding hash_files entry_header be_bytes
contents-hash_files = refl

contents-Named : All Named contents
contents-Named = (
  record { no_nul = (omega arith, tt); bounded = omega arith },
  (record { no_nul = (omega arith, (omega arith, (omega arith, tt))); bounded = omega arith }, tt),
)

hash_files-inj_example : contents ≡ contents
hash_files-inj_example =
    hash_files-inj contents contents fed 3 3 contents-Named contents-Named contents-hash_files
      contents-hash_files
