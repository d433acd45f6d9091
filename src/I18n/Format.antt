-- ===== src/I18n/Format.antt =====
-- daemoon_strf of core/src/i18n.c: the text of a message with its placeholders filled in.
use dae_moon.Prelude.{
  ℕ, zero, suc, ◌-◌, ◌&&◌, Option, none, some, List, [], ◌∷◌, Bytes, take, get_elem?, get_or, leb,
  ◌==◌, if◌then◌else◌,
}
use dae_moon.Errors.{Result, ok, err, either, buffer_too_small}
use dae_moon.Messages.{StrId}
use dae_moon.Util.Strbuf.{Strbuf, init, addn, add, addc, result}
use dae_moon.Util.Utf8.{trim_partial}
use dae_moon.I18n.Languages.{LangTable, str}

-- DAEMOON_STR_MAX_ARGS
abbrev pub max_args : ℕ
max_args = 8

-- args[idx], where there is one that is not NULL.
abbrev pub argument : List (Option Bytes) → ℕ → Option Bytes
argument args i = elim (get_elem? args i) [ none ↦ none | some a ↦ a ]

-- A round of the loop, at the byte `c` before `t`, past whose end a NUL is read: how many bytes it takes
-- behind that one, and the builder.
unfoldable pub strf_step : List (Option Bytes) → ℕ → Bytes → Strbuf → ℕ × Strbuf
unfolding add addn addc
strf_step args c t sb =
    let d = get_or t 0 0 in
    if c == b'{' && d == b'{'
    then (1, addc sb b'{')
    else if c == b'{' && leb b'0' d && leb d b'9' && get_or t 1 0 == b'}'
    then (2, elim (argument args (d - 48)) [ some a ↦ add sb a | none ↦ addn sb (c ∷ take 2 t) ])
    else (0, addc sb c)

-- The loop, with so many bytes of the template to pass over first.
unfoldable pub strf_walk : List (Option Bytes) → ℕ → Bytes → Strbuf → Strbuf
unfolding strf_step
strf_walk args skip [] sb = sb
strf_walk args (suc skip) (c ∷ t) sb = strf_walk args skip t sb
strf_walk args zero (c ∷ t) sb =
    let (skip, sb') = strf_step args c t sb in strf_walk args skip t sb'

-- The end of daemoon_strf: the text in the buffer, cut behind a whole code point if it does not fit.
unfoldable pub strf_end : Strbuf → Bytes × Result (Unit {0})
unfolding result trim_partial
strf_end sb =
    either (result sb) (λ e. (take (trim_partial sb.content) sb.content, err buffer_too_small))
      (λ w. (w, ok tt))

-- daemoon_strf, in the selected language; an empty list is a NULL array too.
unfoldable pub strf :
    ℕ → LangTable → ℕ → Option StrId → List (Option Bytes) → Bytes × Result (Unit {0})
unfolding str init strf_walk strf_end
strf cap table selected id args =
    if cap == 0
    then ([], err buffer_too_small)
    else strf_end (strf_walk (take max_args args) 0 (str table selected id) (init cap))
