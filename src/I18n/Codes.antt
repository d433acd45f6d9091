-- ===== src/I18n/Codes.antt =====
-- What daemoon_i18n_language_from_code of core/src/i18n.c reads.
use dae_moon.Prelude.{
  ℕ, zero, suc, ◌≡◌, ◌<◌, refl, sym, ap, ◌∙◌, true, some, List, [], ◌∷◌, Bytes, bytes_eq,
  bytes_eq→eq, ◌==◌, Bool-cases, inl, inr, arith,
}
use dae_moon.Errors.{ok}
use dae_moon.I18n.Languages.{
  lang_count, lang_codes, lang_code, ascii_lower, code_eq_ci, matching_code, or_chinese,
  language_from_code,
}

-- A code in lower case.
lowered : Bytes → Bytes
unfolding ascii_lower
lowered [] = []
lowered (c ∷ s) = ascii_lower c ∷ lowered s

code_eq_ci-lowered : (a b : Bytes) → code_eq_ci a b ≡ bytes_eq (lowered a) (lowered b)
unfolding code_eq_ci lowered bytes_eq
code_eq_ci-lowered [] [] = refl
code_eq_ci-lowered [] (y ∷ b) = refl
code_eq_ci-lowered (x ∷ a) [] = refl
code_eq_ci-lowered (x ∷ a) (y ∷ b) = elim (Bool-cases (ascii_lower x == ascii_lower y)) [
  | inl e ↦ rw (e, code_eq_ci-lowered a b) refl
  | inr e ↦ rw e refl
]

matching_code-lowered :
    (i : ℕ) (codes : List Bytes) (a b : Bytes)
    → lowered a ≡ lowered b
    → matching_code i codes a ≡ matching_code i codes b
unfolding matching_code
matching_code-lowered i [] a b h = refl
matching_code-lowered i (c ∷ codes) a b h =
    rw
      (code_eq_ci-lowered a c, code_eq_ci-lowered b c, h, matching_code-lowered (suc i) codes a b h)
      refl

code_found :
    (lang : ℕ) → lang < lang_count → matching_code 0 lang_codes (lang_code lang) ≡ some lang
unfolding matching_code code_eq_ci ascii_lower lang_code
code_found zero h = refl
code_found (suc zero) h = refl
code_found (suc (suc zero)) h = refl
code_found (suc (suc (suc zero))) h = refl
code_found (suc (suc (suc (suc zero)))) h = refl
code_found (suc (suc (suc (suc (suc zero))))) h = refl
code_found (suc (suc (suc (suc (suc (suc zero)))))) h = refl
code_found (suc (suc (suc (suc (suc (suc (suc zero))))))) h = refl
code_found (suc (suc (suc (suc (suc (suc (suc (suc n)))))))) h = absurd (omega arith)

-- The code of a language, in whatever case its letters are, is read as that language.
pub language_from_code-lang_code :
    (lang : ℕ) (s : Bytes)
    → lang < lang_count
    → code_eq_ci s (lang_code lang) ≡ true
    → language_from_code (some s) ≡ ok lang
unfolding language_from_code
language_from_code-lang_code lang s h e =
    let same =
      bytes_eq→eq (lowered s) (lowered (lang_code lang))
        (sym (code_eq_ci-lowered s (lang_code lang)) ∙ e) in
    ap (or_chinese s)
      (matching_code-lowered 0 lang_codes s (lang_code lang) same ∙ code_found lang h)
