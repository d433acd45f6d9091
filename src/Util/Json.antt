-- ===== src/Util/Json.antt =====
-- core/src/util/json.c: looking up a key among jsmn's tokens, and reading a token as a number. The tokenizer is vendored code: `Tokenize` is its interface.
pub mod Strings
pub mod Digits
pub mod Escapes
pub mod Nested
pub mod Numbers
use dae_moon.Prelude.{
  ℕ, zero, suc, ◌+◌, ◌-◌, ◌*◌, ◌/◌, ◌%◌, Bool, true, false, ◌&&◌, ◌||◌, not, Option, none, some,
  List, [], ◌∷◌, ◌++◌, Bytes, bytes_eq, length, take, drop, get_elem?, get_or, ltb, leb, ◌==◌,
  if◌then◌else◌,
}
use dae_moon.Errors.{Result, ok, err, parse_error, buffer_too_small}
use dae_moon.Util.Strbuf.{Strbuf, init, addc}
use dae_moon.Util.Utf8.{trim_partial}

pub data Kind : Type 0 where
  object array string primitive : Kind

-- jsmntok_t; the parent of a token at the top is -1, here `none`.
pub record Token : Type 0 where
  pub kind : Kind
  pub start : ℕ
  pub stop : ℕ
  pub size : ℕ
  pub parent : Option ℕ

pub data Failure : Type 0 where
  no_memory invalid partial : Failure

pub data Tokens : Type 0 where
  tokens : List Token → Tokens
  failed : Failure → Tokens

-- jsmn_parse over a text, into at most so many tokens.
abbrev pub Tokenize : Type 0
Tokenize = Bytes → ℕ → Tokens

-- daemoon_json_parse
unfoldable pub json_parse : Tokenize → Bytes → ℕ → Result (List Token)
json_parse jsmn js max_tokens = elim (jsmn js max_tokens) [
  | failed no_memory ↦ err buffer_too_small
  | failed _ ↦ err parse_error
  | tokens [] ↦ err parse_error
  | tokens (t ∷ ts) ↦ ok (t ∷ ts)
]

abbrev pub slice : Bytes → Token → Bytes
slice js t = take (t.stop - t.start) (drop t.start js)

unfoldable pub is_string : Kind → Bool
is_string Kind.string = true
is_string _ = false

unfoldable pub is_object : Kind → Bool
is_object Kind.object = true
is_object _ = false

unfoldable pub is_primitive : Kind → Bool
is_primitive Kind.primitive = true
is_primitive _ = false

unfoldable pub is_child_of : ℕ → Option ℕ → Bool
is_child_of obj none = false
is_child_of obj (some p) = p == obj

-- A key of the object: a string token of it that has a value.
unfoldable pub is_key : Bytes → ℕ → Bytes → Token → Bool
unfolding is_child_of is_string bytes_eq
is_key js obj key t =
    is_child_of obj t.parent && is_string t.kind && t.size == 1 && bytes_eq (slice js t) key

-- The loop over the tokens behind the object: the value stands right after its key.
unfoldable pub find_value : Bytes → ℕ → Bytes → List Token → Option Token
unfolding is_key
find_value js obj key [] = none
find_value js obj key (t ∷ []) = none
find_value js obj key (t ∷ v ∷ ts) =
    if is_key js obj key t then some v else find_value js obj key (v ∷ ts)

-- daemoon_json_find, with the token at the index it returns.
unfoldable pub find : Bytes → List Token → ℕ → Bytes → Option Token
unfolding find_value is_object
find js toks obj key = elim (get_elem? toks obj) [
  | none ↦ none
  | some o ↦ if is_object o.kind then find_value js obj key (drop (suc obj) toks) else none
]

-- daemoon_json_is_null
unfoldable pub is_null : Bytes → Token → Bool
unfolding is_primitive
is_null js t = is_primitive t.kind && get_or js t.start 0 == b'n'

-- The loop of daemoon_json_uint over the digits that are left.
unfoldable pub uint_walk : ℕ → Bytes → Result ℕ
uint_walk v [] = ok v
uint_walk v (c ∷ s) =
    if ltb c b'0' || ltb b'9' c
    then err parse_error
    else if ltb ((0xffffffffffffffff - (c - b'0')) / 10) v
    then err parse_error
    else uint_walk (v * 10 + (c - b'0')) s

-- daemoon_json_uint
unfoldable pub json_uint : Bytes → Token → Result ℕ
unfolding uint_walk is_primitive
json_uint js t =
    if not (is_primitive t.kind) || leb t.stop t.start
    then err parse_error
    else uint_walk 0 (slice js t)

-- daemoon_json_get_uint
unfoldable pub get_uint : Bytes → List Token → ℕ → Bytes → Result ℕ
unfolding find json_uint
get_uint js toks obj key = elim (find js toks obj key) [
  | none ↦ err parse_error
  | some t ↦ json_uint js t
]
