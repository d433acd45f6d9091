-- ===== src/Manifest/Read.antt =====
-- What daemoon_manifest_parse of core/src/manifest.c yields.
use dae_moon.Prelude.{
  ◌≡◌, ◌≤◌, subst, List, [], ◌∷◌, Bytes, length, ltb, Bool-cases, ltb→ge, inl, inr,
}
use dae_moon.Errors.{ok, ◌>>=◌}
use dae_moon.Errors.Laws.{err≢ok, ok_inj, bound_ok}
use dae_moon.Util.Json.{Tokenize, Token, json_parse, is_object}
use dae_moon.Manifest.{Manifest}
use dae_moon.Manifest.Check.{validate}
use dae_moon.Manifest.Parse.{
  manifest_fields, parse_tokens, parse, manifest_max_tokens, manifest_max_bytes,
}
use dae_moon.Manifest.Valid.{IsValid, validate-IsValid}

validated : (m m' : Manifest) → (validate m >>= λ _. ok m) ≡ ok m' → IsValid m'
validated m m' h =
    let (u, v, e) = bound_ok (validate m) (λ _. ok m) h in
    subst IsValid (ok_inj e) ((validate-IsValid m).0 v)

parse_tokens-IsValid :
    (js : Bytes) (toks : List Token) (m : Manifest) → parse_tokens js toks ≡ ok m → IsValid m
unfolding parse_tokens
parse_tokens-IsValid js [] m h = absurd (err≢ok h)
parse_tokens-IsValid js (t ∷ toks) m h = elim (Bool-cases (is_object t.kind)) [
  | inr e ↦ absurd (err≢ok (rw e at h))
  | inl e ↦
      let (m', f, v) =
        bound_ok (manifest_fields js (t ∷ toks)) (λ x. validate x >>= λ _. ok x) (rw e at h) in
      validated m' m v
]

-- Whatever the tokenizer does, a manifest that was read is a valid one, and its text was not larger
-- than the buffer for one.
pub parse-IsValid :
    (jsmn : Tokenize) (js : Bytes) (m : Manifest)
    → parse jsmn js ≡ ok m
    → IsValid m × (length js ≤ manifest_max_bytes)
unfolding parse
parse-IsValid jsmn js m h = elim (Bool-cases (ltb manifest_max_bytes (length js))) [
  | inl e ↦ absurd (err≢ok (rw e at h))
  | inr e ↦
      let (toks, p, v) =
        bound_ok (json_parse jsmn js manifest_max_tokens) (λ toks. parse_tokens js toks)
          (rw e at h) in
      (parse_tokens-IsValid js toks m v, ltb→ge manifest_max_bytes (length js) e)
]
