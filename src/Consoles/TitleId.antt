-- ===== src/Consoles/TitleId.antt =====
-- platform/3ds/source/title_id.c and platform/nx/source/title_id.c: a 64-bit title id as 16 hexadecimal
-- digits.
pub mod Spelling
use dae_moon.Prelude.{
  ℕ, zero, suc, ◌+◌, ◌-◌, ◌*◌, ◌/◌, ◌%◌, ◌^◌, ◌≡◌, ◌<◌, ◌≤◌, refl, sym, ap, ◌∙◌, Bool, true, false,
  ◌&&◌, not, Option, none, some, [], ◌∷◌, Bytes, length, take, take-all, ltb, leb, ◌==◌,
  if◌then◌else◌, lt→ltb, ge→ltb, arith,
}
use dae_moon.Errors.{Result, ok, err, invalid_request}
use dae_moon.Util.Strbuf.{upper_hex_digit}

-- The last `n` of the digits of an id, the first of which is four times `n - 1` bits up.
unfoldable pub id_digits : ℕ → ℕ → Bytes
unfolding upper_hex_digit
id_digits zero id = []
id_digits (suc n) id = upper_hex_digit (id / 16 ^ n % 16) ∷ id_digits n id

-- daemoon_3ds_format_title_id: what stands before the NUL.
unfoldable pub format_title_id : ℕ → ℕ → Bytes
unfolding id_digits
format_title_id cap id = if ltb cap 17 then [] else id_digits 16 id

-- daemoon_nx_format_title_id: snprintf with %016llX, into a buffer that is not empty.
unfoldable pub nx_format_title_id : ℕ → ℕ → Bytes
unfolding id_digits
nx_format_title_id cap id = if cap == 0 then [] else take (cap - 1) (id_digits 16 id)

unfoldable pub id_digit : ℕ → Option ℕ
id_digit c =
    if leb b'0' c && leb c b'9'
    then some (c - b'0')
    else if leb b'A' c && leb c b'F'
    then some (c - b'A' + 10)
    else if leb b'a' c && leb c b'f'
    then some (c - b'a' + 10)
    else none

-- A round of the loop; `more` are those that follow. The shift drops what is above 64 bits and leaves four
-- zeros, so that `|` adds the digit.
abbrev pub add_digit : (ℕ → Result ℕ) → ℕ → Option ℕ → Result ℕ
add_digit more value none = err invalid_request
add_digit more value (some d) = more (value * 16 % 2 ^ 64 + d)

unfoldable pub id_walk : ℕ → Bytes → Result ℕ
unfolding id_digit
id_walk value [] = ok value
id_walk value (c ∷ s) = add_digit (λ v. id_walk v s) value (id_digit c)

-- daemoon_3ds_parse_title_id; `none` is a NULL text.
unfoldable pub parse_title_id : Option Bytes → Result ℕ
unfolding id_walk
parse_title_id none = err invalid_request
parse_title_id (some s) = if not (length s == 16) then err invalid_request else id_walk 0 s

-- daemoon_nx_parse_title_id
unfoldable pub nx_parse_title_id : Option Bytes → Result ℕ
unfolding id_walk
nx_parse_title_id none = err invalid_request
nx_parse_title_id (some s) = if not (length s == 16) then err invalid_request else id_walk 0 s
