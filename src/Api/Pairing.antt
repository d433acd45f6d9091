-- ===== src/Api/Pairing.antt =====
-- daemoon_pair_parse of core/src/api.c: what a pairing QR code holds. `text` and `out` are not NULL, and
-- the payload of a refused text is dropped.
pub mod Fields
pub mod LineEnds
pub mod Version
pub mod RoundTrip
use dae_moon.Prelude.{
  starts_with, ℕ, zero, suc, ◌+◌, ◌-◌, ◌*◌, Bool, true, false, ◌&&◌, ◌||◌, not, Option, none, some,
  [], ◌∷◌, Bytes, text, length, drop, ltb, leb, ◌==◌, if◌then◌else◌,
}
use dae_moon.Errors.{Result, ok, err, ◌>>=◌, parse_error, unsupported, buffer_too_small}
use dae_moon.Util.Digest.{is_end}

-- daemoon_pair_payload_t
pub record PairPayload : Type 0 where
  pub server : Bytes
  pub code : Bytes

abbrev pub server_url_max : ℕ
server_url_max = 256

abbrev pub pair_code_max : ℕ
pair_code_max = 16

abbrev pub pair_format : ℕ
pair_format = 1

-- DAEMOON_PAIR_TAG "|"
abbrev pub tag : Bytes
tag = text "DAEMOON|"

-- A field up to the next bar, and what is behind the bar; `none` is a text without one.
unfoldable pub split_bar : Bytes → Option (Bytes × Bytes)
split_bar [] = none
split_bar (c ∷ s) =
    if c == b'|'
    then some ([], s)
    else elim (split_bar s) [ none ↦ none | some (field, rest) ↦ some (c ∷ field, rest) ]

-- A field that is there and not empty.
unfoldable pub some_field : Option (Bytes × Bytes) → Result (Bytes × Bytes)
unfolding is_end
some_field none = err parse_error
some_field (some (field, rest)) = if is_end field then err parse_error else ok (field, rest)

unfoldable pub next_field : Bytes → Result (Bytes × Bytes)
unfolding split_bar some_field
next_field s = some_field (split_bar s)

-- The loop over the digits of the format version.
unfoldable pub version_walk : ℕ → Bytes → Result ℕ
version_walk version [] = ok version
version_walk version (c ∷ s) =
    if ltb c b'0' || ltb b'9' c
    then err parse_error
    else if ltb 999 (version * 10 + (c - b'0'))
    then err parse_error
    else version_walk (version * 10 + (c - b'0')) s

unfoldable pub check_version : Bytes → Result (Unit {0})
unfolding version_walk
check_version field = do
  version ← version_walk 0 field
  if version == pair_format then ok tt else err unsupported

unfoldable pub check_server : Bytes → Result Bytes
unfolding starts_with
check_server server =
    if leb server_url_max (length server)
    then err buffer_too_small
    else if starts_with (text "http://") server || starts_with (text "https://") server
    then ok server
    else err parse_error

unfoldable pub is_trailing : ℕ → Bool
is_trailing c = c == 10 || c == 13 || c == 0

-- The code without the line ends and NULs at its end.
unfoldable pub trim_end : Bytes → Bytes
unfolding is_trailing is_end
trim_end [] = []
trim_end (c ∷ s) = let r = trim_end s in if is_end r && is_trailing c then [] else c ∷ r

unfoldable pub has_bar : Bytes → Bool
has_bar [] = false
has_bar (c ∷ s) = c == b'|' || has_bar s

unfoldable pub check_code : Bytes → Result Bytes
unfolding has_bar is_end
check_code code =
    if is_end code || leb pair_code_max (length code)
    then err parse_error
    else if has_bar code
    then err parse_error
    else ok code

-- What is behind the tag.
unfoldable pub pair_fields : Bytes → Result PairPayload
unfolding next_field check_version check_server check_code trim_end
pair_fields s = do
  versioned ← next_field s
  known ← check_version versioned.0
  addressed ← next_field versioned.1
  server ← check_server addressed.0
  code ← check_code (trim_end addressed.1)
  ok (record { server = server; code = code })

-- daemoon_pair_parse
unfoldable pub pair_parse : Bytes → Result PairPayload
unfolding starts_with pair_fields
pair_parse s =
    if leb (length s) (length tag) || not (starts_with tag s)
    then err parse_error
    else pair_fields (drop (length tag) s)
