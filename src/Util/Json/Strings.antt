-- ===== src/Util/Json/Strings.antt =====
-- daemoon_json_str of core/src/util/json.c and what it is made of: reading a token as a string.
use dae_moon.Prelude.{
  before_nul, ℕ, zero, suc, ◌+◌, ◌-◌, ◌*◌, ◌/◌, ◌%◌, Bool, true, false, ◌&&◌, ◌||◌, Option, none,
  some, List, [], ◌∷◌, Bytes, length, take, drop, ltb, leb, ◌==◌, if◌then◌else◌,
}
use dae_moon.Errors.{Result, ok, err, parse_error, buffer_too_small}
use dae_moon.Util.Strbuf.{Strbuf, init, addc}
use dae_moon.Util.Utf8.{trim_partial}
use dae_moon.Util.Json.{Token, slice, is_string, find}

unfoldable pub hex_val : ℕ → Option ℕ
hex_val c =
    if leb b'0' c && leb c b'9'
    then some (c - b'0')
    else if leb b'a' c && leb c b'f'
    then some (c - b'a' + 10)
    else if leb b'A' c && leb c b'F'
    then some (c - b'A' + 10)
    else none

unfoldable pub append_utf8 : Strbuf → ℕ → Strbuf
append_utf8 sb cp =
    if ltb cp 0x80
    then addc sb cp
    else if ltb cp 0x800
    then addc (addc sb (0xc0 + cp / 64)) (0x80 + cp % 64)
    else if ltb cp 0x10000
    then addc (addc (addc sb (0xe0 + cp / 4096)) (0x80 + cp / 64 % 64)) (0x80 + cp % 64)
    else addc
        (addc (addc (addc sb (0xf0 + cp / 262144)) (0x80 + cp / 4096 % 64)) (0x80 + cp / 64 % 64))
        (0x80 + cp % 64)

-- Four hexadecimal digits, most significant first, after `acc`.
unfoldable pub four_digits : ℕ → ℕ → Bytes → Option ℕ
unfolding hex_val
four_digits zero acc s = some acc
four_digits (suc n) acc [] = none
four_digits (suc n) acc (c ∷ s) = elim (hex_val c) [
  | none ↦ none
  | some v ↦ four_digits n (acc * 16 + v) s
]

-- The second half of a surrogate pair, at the text behind the first half `hi`: the code point and
-- what follows the pair.
unfoldable pub low_surrogate : ℕ → Bytes → Option (ℕ × Bytes)
unfolding four_digits
low_surrogate hi (b ∷ u ∷ s) =
    if ltb (length s) 4
    then none
    else if b == 92 && u == b'u'
    then elim (four_digits 4 0 s) [
      | none ↦ none
      | some lo ↦
          if ltb lo 0xdc00 || ltb 0xdfff lo
          then none
          else some (0x10000 + (hi - 0xd800) * 1024 + (lo - 0xdc00), drop 4 s)
    ]
    else none
low_surrogate hi _ = none

-- The escape \u at the text behind the `u`: the code point and what follows.
unfoldable pub unicode_escape : Bytes → Option (ℕ × Bytes)
unfolding low_surrogate
unicode_escape s = if ltb (length s) 4 then none else elim (four_digits 4 0 s) [
  | none ↦ none
  | some cp ↦
      if leb 0xd800 cp && leb cp 0xdbff
      then low_surrogate cp (drop 4 s)
      else if leb 0xdc00 cp && leb cp 0xdfff
      then none
      else some (cp, drop 4 s)
]

-- What an escape of one letter stands for.
unfoldable pub letter_escape : ℕ → Option ℕ
letter_escape c =
    if c == b'"'
    then some b'"'
    else if c == 92
    then some 92
    else if c == b'/'
    then some b'/'
    else if c == b'b'
    then some 8
    else if c == b'f'
    then some 12
    else if c == b'n'
    then some 10
    else if c == b'r'
    then some 13
    else if c == b't'
    then some 9
    else none

-- The loop of daemoon_json_str: what was written, and whether the text was well formed.
unfoldable pub decode_walk : ℕ → Strbuf → Bytes → Strbuf × Bool
unfolding letter_escape unicode_escape append_utf8
decode_walk fuel sb [] = (sb, true)
decode_walk zero sb (c ∷ s) = (sb, false)
decode_walk (suc fuel) sb (c ∷ []) =
    if c == 92 then (sb, false) else decode_walk fuel (addc sb c) []
decode_walk (suc fuel) sb (c ∷ e ∷ s) =
    let plain = decode_walk fuel (addc sb c) (e ∷ s) in
    let escaped : Strbuf × Bool =
      if e == b'u'
      then elim (unicode_escape s) [
        | none ↦ (sb, false)
        | some (cp, rest) ↦ decode_walk fuel (append_utf8 sb cp) rest
      ]
      else elim (letter_escape e) [
        | none ↦ (sb, false)
        | some b ↦ decode_walk fuel (addc sb b) s
      ] in
    if c == 92 then escaped else plain

-- The end of daemoon_json_str: a full buffer is cut back to a code point boundary.
unfoldable pub finish : Strbuf × Bool → Bytes × Result (Unit {0})
finish (sb, well_formed) =
    if well_formed
    then if sb.overflow
      then (take (trim_partial sb.content) sb.content, err buffer_too_small)
      else (sb.content, ok tt)
    else (sb.content, err parse_error)

-- daemoon_json_str into a buffer of `cap` bytes that held `old`: the buffer afterwards, and the
-- result.
unfoldable pub json_str : Bytes → Token → ℕ → Bytes → Bytes × Result (Unit {0})
unfolding decode_walk finish is_string
json_str js t cap old =
    if cap == 0
    then (old, err buffer_too_small)
    else if is_string t.kind
    then finish (decode_walk (length (slice js t)) (init cap) (slice js t))
    else (old, err parse_error)

-- What the buffer holds as a C string: a NUL that was decoded from an escape ends it.
unfoldable pub json_text : Bytes → Token → ℕ → Bytes → Bytes × Result (Unit {0})
unfolding json_str before_nul
json_text js t cap old = let (buf, r) = json_str js t cap old in (before_nul buf, r)

-- daemoon_json_get_str
unfoldable pub get_str : Bytes → List Token → ℕ → Bytes → ℕ → Bytes → Bytes × Result (Unit {0})
unfolding find json_text
get_str js toks obj key cap old = elim (find js toks obj key) [
  | none ↦ (old, err parse_error)
  | some t ↦ json_text js t cap old
]
