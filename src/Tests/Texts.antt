-- ===== src/Tests/Texts.antt =====
-- The theorems about core/src/util, the error table and the spellings, at concrete inputs.
use dae_moon.Prelude.{
  ◌≡◌, ◌↔◌, inl, ◌<◌, refl, [], ◌∷◌, ◌++◌, true, some, Bytes, text, length, ltb, if◌then◌else◌,
  arith,
}
use dae_moon.Errors.{ok, err, not_found, buffer_too_small, from_code, result_code}
use dae_moon.Errors.Laws.{from_code-result_code}
use dae_moon.Util.Strbuf.{hex_digit, init, add_json, add_urlenc, result, uint_text}
use dae_moon.Util.Strbuf.Refine.{Holds, init-Holds}
use dae_moon.Util.Strbuf.Escape.{escape_byte, escape, percent, result-add_json, add_urlenc-Holds}
use dae_moon.Util.Utf8.{seq_len, step_len, valid_walk, valid, truncate}
use dae_moon.Util.Utf8.Walks.{IsText, encode_all, kept, valid-IsText, truncate-kept}
use dae_moon.Util.Copy.{strlcpy, strlcpy-valid}
use dae_moon.Util.Json.{uint_walk}
use dae_moon.Util.Json.{Kind, Token, is_string, slice}
use dae_moon.Util.Json.Strings.{json_str}
use dae_moon.Util.Json.Escapes.{json_str-escape}
use dae_moon.Util.Json.Numbers.{uint_walk-uint_text}
use dae_moon.Util.Digest.{hex_equal, hex_equal_iff}

from_code-result_code_example : from_code (some (result_code not_found)) ≡ not_found
from_code-result_code_example = from_code-result_code not_found

result-add_json_example : result (add_json (init 8) (text "a\"b")) ≡ (
    if ltb (length (escape (text "a\"b"))) 8
    then ok (escape (text "a\"b"))
    else err buffer_too_small)
result-add_json_example = result-add_json 8 (text "a\"b")

add_urlenc-Holds_example : Holds 8 (add_urlenc (init 8) (text "a b")) ([] ++ percent (text "a b"))
add_urlenc-Holds_example = add_urlenc-Holds (text "a b") (init-Holds 8)

-- U+20AC and a letter
abbrev euro : Bytes
euro = 0xe2 ∷ 0x82 ∷ 0xac ∷ 0x61 ∷ []

euro_read : seq_len euro ≡ some (3, 0x20ac)
unfolding seq_len
euro_read = refl

euro-valid : valid euro ≡ true
unfolding valid valid_walk step_len seq_len
euro-valid = refl

valid-IsText_example : (valid euro ≡ true) ↔ IsText euro
valid-IsText_example = valid-IsText euro

truncate-kept_example :
    truncate (encode_all (0x20ac ∷ 0x61 ∷ [])) 3 ≡ length (encode_all (kept 3 (0x20ac ∷ 0x61 ∷ [])))
truncate-kept_example =
    truncate-kept 3 (0x20ac ∷ 0x61 ∷ []) (inl (omega arith), (inl (omega arith), tt))

strlcpy-valid_example :
    (valid (strlcpy 3 (some euro)).0 ≡ true) × (length (strlcpy 3 (some euro)).0 < 3)
strlcpy-valid_example = strlcpy-valid 3 euro (omega arith) euro-valid

uint_walk-uint_text_example : uint_walk 0 (uint_text 4096) ≡ ok 4096
uint_walk-uint_text_example = uint_walk-uint_text 4096 (omega arith)

hex_equal_iff_example :
    (hex_equal (text "ab") (text "ab") ≡ true)
    ↔ ((text "ab" ≡ text "ab") × (length (text "ab") ≡ 64))
hex_equal_iff_example = hex_equal_iff (text "ab") (text "ab")

-- {"k":"..."} with a quote and a line feed in the value
abbrev quoted : Bytes
quoted = text "{\"k\":\"" ++ escape (text "a\"" ++ 10 ∷ 1 ∷ []) ++ text "\"}"

abbrev value_token : Token
value_token = record { kind = Kind.string; start = 6; stop = 17; size = 0; parent = some 1 }

value_token-string : is_string value_token.kind ≡ true
unfolding is_string
value_token-string = refl

value_token-slice : slice quoted value_token ≡ escape (text "a\"" ++ 10 ∷ 1 ∷ [])
unfolding escape escape_byte hex_digit
value_token-slice = refl

json_str-escape_example : json_str quoted value_token 16 [] ≡ (text "a\"" ++ 10 ∷ 1 ∷ [], ok tt)
json_str-escape_example =
    json_str-escape quoted value_token 16 [] (text "a\"" ++ 10 ∷ 1 ∷ []) value_token-string
      value_token-slice (omega arith)
