-- ===== src/Consoles/Config.antt =====
-- platform/common/config_lines.c: the lines of a file as pairs of a key and a value.
pub mod Lines
use dae_moon.Prelude.{
  before_nul, ℕ, zero, suc, Bool, true, false, ◌||◌, ◌&&◌, Option, none, some, List, [], ◌∷◌, ◌++◌,
  Bytes, ◌==◌, if◌then◌else◌,
}
use dae_moon.Errors.{Result, ok, err, not_found}

unfoldable pub is_blank : ℕ → Bool
is_blank c = c == b' ' || c == 9

unfoldable pub is_blank_or_end : ℕ → Bool
is_blank_or_end c = c == 10 || c == 13 || c == b' ' || c == 9

unfoldable pub is_nil : Bytes → Bool
is_nil [] = true
is_nil (c ∷ s) = false

-- The first loop of trim: what is blank at the end is cut off.
unfoldable pub trim_back : Bytes → Bytes
unfolding is_blank_or_end is_nil
trim_back [] = []
trim_back (c ∷ s) =
    let rest = trim_back s in if is_blank_or_end c && is_nil rest then [] else c ∷ rest

-- The second loop, and the move to the front.
unfoldable pub trim_front : Bytes → Bytes
unfolding is_blank
trim_front [] = []
trim_front (c ∷ s) = let rest = trim_front s in if is_blank c then rest else c ∷ s

-- trim
unfoldable pub trim : Bytes → Bytes
unfolding trim_front trim_back
trim s = trim_front (trim_back s)

-- What a byte does to the calls of fgets on a file, each of which reads up to a line end or fills its buffer
-- of 512 bytes: the lines that are complete, and the room and the line of the next call.
unfoldable pub read_byte : ℕ → Bytes → ℕ → List Bytes × ℕ × Bytes
read_byte zero line c =
    if c == 10 then (line ∷ (c ∷ []) ∷ [], 511, []) else (line ∷ [], 510, c ∷ [])
read_byte (suc room) line c =
    if c == 10 then ((line ++ c ∷ []) ∷ [], 511, []) else ([], room, line ++ c ∷ [])

unfoldable pub read_calls : ℕ → Bytes → Bytes → List Bytes
unfolding is_nil read_byte
read_calls room line [] = if is_nil line then [] else line ∷ []
read_calls room line (c ∷ s) =
    let (lines, room', line') = read_byte room line c in lines ++ read_calls room' line' s

-- strchr(line, '='), with the text before it and behind it.
unfoldable pub split_at_equals : Bytes → Option (Bytes × Bytes)
split_at_equals [] = none
split_at_equals (c ∷ s) =
    let rest = split_at_equals s in
    if c == b'=' then some ([], s) else elim rest [ none ↦ none | some kv ↦ some (c ∷ kv.0, kv.1) ]

unfoldable pub is_skipped : Bytes → Bool
is_skipped [] = true
is_skipped (c ∷ s) = c == b'#'

unfoldable pub trim_pair : Option (Bytes × Bytes) → Option (Bytes × Bytes)
unfolding trim
trim_pair none = none
trim_pair (some (key, value)) = some (trim key, trim value)

-- A round of the loop, on a line that was trimmed.
unfoldable pub trimmed_pair : Bytes → Option (Bytes × Bytes)
unfolding is_skipped split_at_equals trim_pair
trimmed_pair s = if is_skipped s then none else trim_pair (split_at_equals s)

-- A round of the loop: the pair that the callback gets.
unfoldable pub line_pair : Bytes → Option (Bytes × Bytes)
unfolding trim before_nul trimmed_pair
line_pair line = trimmed_pair (trim (before_nul line))

abbrev pub add_pair : Option (Bytes × Bytes) → List (Bytes × Bytes) → List (Bytes × Bytes)
add_pair none pairs = pairs
add_pair (some kv) pairs = kv ∷ pairs

unfoldable pub line_pairs : List Bytes → List (Bytes × Bytes)
unfolding line_pair
line_pairs [] = []
line_pairs (line ∷ lines) = add_pair (line_pair line) (line_pairs lines)

-- daemoon_config_read_lines, of a path and a callback that are not NULL: the pairs that the callback gets, in
-- turn. `none` is a file that cannot be opened.
unfoldable pub config_read_lines : Option Bytes → Result (List (Bytes × Bytes))
unfolding line_pairs read_calls
config_read_lines none = err not_found
config_read_lines (some content) = ok (line_pairs (read_calls 511 [] content))
