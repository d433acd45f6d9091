-- ===== src/Util/Strbuf.antt =====
-- core/src/util/strbuf.c: a string builder over a caller's buffer that never writes past it and
-- remembers whether anything was cut off.
pub mod Refine
pub mod Escape
use dae_moon.Prelude.{
  ℕ, zero, suc, ◌+◌, ◌-◌, ◌/◌, ◌%◌, Bool, true, false, ◌&&◌, ◌||◌, [], ◌∷◌, ◌++◌, Bytes, text,
  length, take, ltb, leb, ◌==◌, if◌then◌else◌, get_or,
}
use dae_moon.Errors.{Result, ok, err, buffer_too_small}

-- daemoon_strbuf_t: `content` is the buffer up to `len`, where the NUL stands.
pub record Strbuf : Type 0 where
  pub cap : ℕ
  pub content : Bytes
  pub overflow : Bool

unfoldable pub init : ℕ → Strbuf
init cap = record { cap = cap; content = []; overflow = cap == 0 }

-- daemoon_strbuf_reset
unfoldable pub reset : Strbuf → Strbuf
reset sb = record sb { content = []; overflow = sb.cap == 0 }

-- daemoon_strbuf_addn, of the first n bytes of a string, which are `s`.
unfoldable pub addn : Strbuf → Bytes → Strbuf
addn sb s =
    if length s == 0
    then sb
    else if sb.cap == 0
    then record sb { overflow = true }
    else (let room = sb.cap - length sb.content - 1 in
        if ltb room (length s)
        then record sb { content = sb.content ++ take room s; overflow = true }
        else record sb { content = sb.content ++ s })

-- daemoon_strbuf_add adds a whole C string.
unfoldable pub add : Strbuf → Bytes → Strbuf
add sb s = addn sb s

unfoldable pub addc : Strbuf → ℕ → Strbuf
addc sb c = addn sb (c ∷ [])

-- The do-while loop of daemoon_strbuf_add_uint: `i` places are left in `tmp`, and `tail` is what
-- stands behind them.
unfoldable pub digits_before : ℕ → ℕ → Bytes → Bytes
digits_before zero v tail = tail
digits_before (suc i) v tail =
    let rest = digits_before i (v / 10) ((48 + v % 10) ∷ tail) in
    if v / 10 == 0 then (48 + v % 10) ∷ tail else rest

-- char tmp[24]
unfoldable pub uint_text : ℕ → Bytes
unfolding digits_before
uint_text v = digits_before 24 v []

unfoldable pub add_uint : Strbuf → ℕ → Strbuf
unfolding uint_text
add_uint sb v = addn sb (uint_text v)

-- A signed number: `pos n` is n, and `negsuc n` is - n - 1.
pub data ℤ : Type 0 where
  pos negsuc : ℕ → ℤ

unfoldable pub add_int : Strbuf → ℤ → Strbuf
unfolding addc add_uint
add_int sb (pos v) = add_uint sb v
add_int sb (negsuc n) = add_uint (addc sb b'-') (n + 1)

unfoldable pub hex_digit : ℕ → ℕ
hex_digit d = get_or (text "0123456789abcdef") d 0

-- One round of daemoon_strbuf_add_json.
unfoldable pub add_json_byte : Strbuf → ℕ → Strbuf
unfolding add addc hex_digit
add_json_byte sb c =
    if c == b'"'
    then add sb (text "\\\"")
    else if c == 92
    then add sb (text "\\\\")
    else if c == 10
    then add sb (text "\\n")
    else if c == 13
    then add sb (text "\\r")
    else if c == 9
    then add sb (text "\\t")
    else if c == 8
    then add sb (text "\\b")
    else if c == 12
    then add sb (text "\\f")
    else if ltb c 32
    then addc (addc (add sb (text "\\u00")) (hex_digit (c / 16 % 16))) (hex_digit (c % 16))
    else addc sb c

unfoldable pub add_json : Strbuf → Bytes → Strbuf
unfolding add_json_byte
add_json sb [] = sb
add_json sb (c ∷ s) = add_json (add_json_byte sb c) s

unfoldable pub unreserved : ℕ → Bool
unreserved c =
    (leb b'A' c && leb c b'Z')
    || (leb b'a' c && leb c b'z')
    || (leb b'0' c && leb c b'9')
    || c == b'-'
    || c == b'.'
    || c == b'_'
    || c == b'~'

unfoldable pub upper_hex_digit : ℕ → ℕ
upper_hex_digit d = get_or (text "0123456789ABCDEF") d 0

unfoldable pub add_urlenc : Strbuf → Bytes → Strbuf
unfolding addc unreserved upper_hex_digit
add_urlenc sb [] = sb
add_urlenc sb (c ∷ s) =
    add_urlenc
      (if unreserved c
        then addc sb c
        else addc (addc (addc sb b'%') (upper_hex_digit (c / 16 % 16))) (upper_hex_digit (c % 16)))
      s

-- daemoon_strbuf_result, with the text that was built.
unfoldable pub result : Strbuf → Result Bytes
result sb = if sb.overflow then err buffer_too_small else ok sb.content
