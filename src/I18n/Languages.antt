-- ===== src/I18n/Languages.antt =====
-- The languages of core/src/i18n.c: their codes, the one that is selected, and which text stands for a
-- message. A language is its number, and the table of texts, which is generated, is a parameter.
use dae_moon.Prelude.{
  ℕ, suc, ◌+◌, Bool, true, false, ◌&&◌, Option, none, some, List, [], ◌∷◌, Bytes, text, get_or, ltb,
  leb, ◌==◌, if◌then◌else◌,
}
use dae_moon.Errors.{Result, ok, err, invalid_request, unsupported}
use dae_moon.Messages.{StrId}

-- DAEMOON_LANG_COUNT
abbrev pub lang_count : ℕ
lang_count = 8

-- daemoon_lang_codes
abbrev pub lang_codes : List Bytes
lang_codes =
    text "en"
    ∷ text "ko"
    ∷ text "ja"
    ∷ text "zh-Hans"
    ∷ text "zh-Hant"
    ∷ text "es"
    ∷ text "fr"
    ∷ text "de"
    ∷ []

-- DAEMOON_LANG_ZH_HANS and DAEMOON_LANG_ZH_HANT
abbrev zh_hans : ℕ
zh_hans = 3

abbrev zh_hant : ℕ
zh_hant = 4

-- daemoon_i18n_set_language: the language that is selected then.
unfoldable pub set_language : ℕ → ℕ → ℕ
set_language selected lang = if ltb lang lang_count then lang else selected

-- daemoon_lang_code
unfoldable pub lang_code : ℕ → Bytes
lang_code lang = if leb lang_count lang then text "en" else get_or lang_codes lang []

unfoldable pub ascii_lower : ℕ → ℕ
ascii_lower c = if leb b'A' c && leb c b'Z' then c + 32 else c

unfoldable pub code_eq_ci : Bytes → Bytes → Bool
unfolding ascii_lower
code_eq_ci [] [] = true
code_eq_ci (x ∷ a) (y ∷ b) =
    let rest = code_eq_ci a b in if ascii_lower x == ascii_lower y then rest else false
code_eq_ci _ _ = false

-- The loop of daemoon_i18n_language_from_code over the codes that are left, the first of which is of
-- language `i`.
unfoldable pub matching_code : ℕ → List Bytes → Bytes → Option ℕ
unfolding code_eq_ci
matching_code i [] code = none
matching_code i (c ∷ codes) code =
    let rest = matching_code (suc i) codes code in if code_eq_ci code c then some i else rest

unfoldable pub is_one_of : Bytes → List Bytes → Bool
unfolding code_eq_ci
is_one_of code [] = false
is_one_of code (c ∷ codes) =
    let rest = is_one_of code codes in if code_eq_ci code c then true else rest

-- Behind the loop: a code that is of no language may be one of Chinese.
unfoldable pub or_chinese : Bytes → Option ℕ → Result ℕ
unfolding is_one_of
or_chinese code (some lang) = ok lang
or_chinese code none =
    if is_one_of code (text "zh" ∷ text "zh-CN" ∷ text "zh-Hans-CN" ∷ [])
    then ok zh_hans
    else if is_one_of code (text "zh-TW" ∷ text "zh-HK" ∷ text "zh-Hant-TW" ∷ [])
    then ok zh_hant
    else err unsupported

-- daemoon_i18n_language_from_code; `none` is a NULL code.
unfoldable pub language_from_code : Option Bytes → Result ℕ
unfolding matching_code or_chinese
language_from_code none = err invalid_request
language_from_code (some code) = or_chinese code (matching_code 0 lang_codes code)

-- daemoon_lang_table; `none` is a NULL entry.
abbrev pub LangTable : Type 0
LangTable = ℕ → StrId → Option Bytes

abbrev text_or : Option Bytes → Bytes → Bytes
text_or none s = s
text_or (some t) s = t

-- daemoon_str_in; `none` is a number that is not a message's.
unfoldable pub str_in : LangTable → ℕ → Option StrId → Bytes
str_in table lang none = text "?"
str_in table lang (some id) =
    let english = text_or (table 0 id) (text "?") in
    if ltb lang lang_count then text_or (table lang id) english else english

-- daemoon_str, in the language that is selected.
unfoldable pub str : LangTable → ℕ → Option StrId → Bytes
unfolding str_in
str table selected id = str_in table selected id

-- daemoon_lang_name
unfoldable pub lang_name : LangTable → ℕ → Bytes
unfolding str_in
lang_name table lang = str_in table lang (some StrId.lang_name)
