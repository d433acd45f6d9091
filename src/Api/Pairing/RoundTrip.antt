-- ===== src/Api/Pairing/RoundTrip.antt =====
-- daemoon_pair_parse of core/src/api.c reads exactly the texts of the form DAEMOON|1|server|code.
use dae_moon.Prelude.{
  All, starts_with, ℕ, ◌<◌, ◌≡◌, ◌↔◌, refl, ap, subst, ◌∙◌, Bool, true, false, ◌||◌, not, [], ◌∷◌,
  ◌++◌, Bytes, text, length, length-append, drop, leb, Bool-cases, Option-cases, some, ap₂, inl,
  inr, arith, all,
}
use dae_moon.Util.Digest.{is_end}
use dae_moon.Errors.{ok}
use dae_moon.Errors.Laws.{err≢ok, ok_inj, bound_ok}
use dae_moon.Api.Pairing.{
  PairPayload, server_url_max, pair_code_max, tag, split_bar, some_field, next_field, check_version,
  check_server, is_trailing, trim_end, has_bar, check_code, pair_fields, pair_parse,
}
use dae_moon.Api.Pairing.Fields.{
  starts_with-append, starts_with-splits, split_bar-append, split_bar-splits, IsTrimmed,
  trim_end-splits, trim_end-append, trim_end-IsTrimmed,
}
use dae_moon.Api.Pairing.LineEnds.{IsLineEnd, all-IsLineEnd, IsLineEnd-all}
use dae_moon.Api.Pairing.Version.{
  one, has_bar-one, is_end-one, length-one, check_version-one, check_version-one_ok,
}

abbrev pub printed : ℕ → PairPayload → Bytes → Bytes
printed pad p t = tag ++ (one pad ++ b'|' ∷ (p.server ++ b'|' ∷ (p.code ++ t)))

-- A payload that a QR code can hold.
pub record IsPayload (p : PairPayload) : Type 0 where
  pub server_whole : has_bar p.server ≡ false
  pub server_fits : length p.server < server_url_max
  pub speaks_http :
      (starts_with (text "http://") p.server || starts_with (text "https://") p.server) ≡ true
  pub code_whole : has_bar p.code ≡ false
  pub code_there : is_end p.code ≡ false
  pub code_fits : length p.code < pair_code_max
  pub code_trimmed : IsTrimmed p.code

next_field-append :
    (a b : Bytes) → has_bar a ≡ false → is_end a ≡ false → next_field (a ++ b'|' ∷ b) ≡ ok (a, b)
unfolding next_field some_field
next_field-append a b h e = rw (split_bar-append a b h, e) refl

some_field_parts :
    (a b : Bytes) (r : Bytes × Bytes)
    → some_field (some (a, b)) ≡ ok r
    → (is_end a ≡ false) × ((a, b) ≡ r)
unfolding some_field
some_field_parts a b r h = elim (Bool-cases (is_end a)) [
  | inl e ↦ absurd (err≢ok (rw e at h))
  | inr e ↦ (e, ok_inj (rw e at h))
]

next_field_parts :
    (s : Bytes) (r : Bytes × Bytes)
    → next_field s ≡ ok r
    → (s ≡ r.0 ++ b'|' ∷ r.1) × (has_bar r.0 ≡ false) × (is_end r.0 ≡ false)
unfolding next_field some_field
next_field_parts s r h = elim (Option-cases (split_bar s)) [
  | inl e ↦ absurd (err≢ok (rw e at h))
  | inr ((a, b), e) ↦
      let (p, q) = split_bar-splits s a b e in
      let (x, y) = some_field_parts a b r (rw e at h) in
      subst
        (λ (f : Bytes × Bytes).
          (s ≡ f.0 ++ b'|' ∷ f.1) × (has_bar f.0 ≡ false) × (is_end f.0 ≡ false))
        y (p, q, x)
]

check_server_parts :
    (s r : Bytes)
    → check_server s ≡ ok r
    → (s ≡ r)
      × (length s < server_url_max)
      × ((starts_with (text "http://") s || starts_with (text "https://") s) ≡ true)
unfolding check_server
check_server_parts s r h = ground arith

check_code_parts :
    (s r : Bytes)
    → check_code s ≡ ok r
    → (s ≡ r) × (is_end s ≡ false) × (length s < pair_code_max) × (has_bar s ≡ false)
unfolding check_code
check_code_parts s r h = ground arith

-- A text that spells a payload, with line ends and NULs behind it.
pub record IsPrinted (s : Bytes) (p : PairPayload) : Type 0 where
  pub pad : ℕ
  pub trail : Bytes
  pub spells : s ≡ printed pad p trail
  pub trailing : All IsLineEnd trail
  pub payload : IsPayload p

-- What is behind the tag of such a text.
abbrev AreFields : Bytes → PairPayload → Type 0
AreFields s p =
    (pad : ℕ) × (trail : Bytes) × (s ≡ one pad ++ b'|' ∷ (p.server ++ b'|' ∷ (p.code ++ trail)))
    × (all is_trailing trail ≡ true)
    × IsPayload p

-- The fields that were split off, put together.
together :
    (s v r a q server code trail : Bytes) (pad : ℕ)
    → s ≡ v ++ b'|' ∷ r
    → v ≡ one pad
    → r ≡ a ++ b'|' ∷ q
    → a ≡ server
    → q ≡ trim_end q ++ trail
    → trim_end q ≡ code
    → s ≡ one pad ++ b'|' ∷ (server ++ b'|' ∷ (code ++ trail))
together s v r a q server code trail pad h1 h2 h3 h4 h5 h6 =
    h1
    ∙ ap₂ (λ x y. x ++ b'|' ∷ y) h2
        (h3 ∙ ap₂ (λ x y. x ++ b'|' ∷ y) h4 (h5 ∙ ap (λ x. x ++ trail) h6))

sound_payload :
    (a q server code : Bytes)
    → has_bar a ≡ false
    → check_server a ≡ ok server
    → check_code (trim_end q) ≡ ok code
    → (a ≡ server) × (trim_end q ≡ code) × IsPayload (record { server = server; code = code })
sound_payload a q server code w e f =
    let (same, fits, http) = check_server_parts a server e in
    let (same', there, fits', whole) = check_code_parts (trim_end q) code f in
    (
      same,
      same',
      record {
        server_whole = rw same at w;
        server_fits = rw same at fits;
        speaks_http = rw same at http;
        code_whole = rw same' at whole;
        code_there = rw same' at there;
        code_fits = rw same' at fits';
        code_trimmed = rw same' at (trim_end-IsTrimmed q);
      },
    )

pair_fields-AreFields : (s : Bytes) (p : PairPayload) → pair_fields s ≡ ok p → AreFields s p
unfolding pair_fields
pair_fields-AreFields s p h =
    let (versioned, e1, h1) = bound_ok (next_field s) _ h in
    let (known, e2, h2) = bound_ok (check_version versioned.0) _ h1 in
    let (addressed, e3, h3) = bound_ok (next_field versioned.1) _ h2 in
    let (server, e4, h4) = bound_ok (check_server addressed.0) _ h3 in
    let (code, e5, h5) = bound_ok (check_code (trim_end addressed.1)) _ h4 in
    let (split, v_whole, v_there) = next_field_parts s versioned e1 in
    let (pad, version) = check_version-one versioned.0 known e2 in
    let (split', s_whole, s_there) = next_field_parts versioned.1 addressed e3 in
    let (same, same', valid) = sound_payload addressed.0 addressed.1 server code s_whole e4 e5 in
    let (trail, split'', trailing) = trim_end-splits addressed.1 in
    subst (AreFields s) (ok_inj h5) (
      pad,
      trail,
      together s versioned.0 versioned.1 addressed.0 addressed.1 server code trail pad split version
          split' same split'' same',
      trailing,
      valid,
    )

check_server-ok : (p : PairPayload) → IsPayload p → check_server p.server ≡ ok p.server
unfolding check_server
check_server-ok p v = ground (arith, v.server_fits, v.speaks_http)

check_code-ok : (p : PairPayload) → IsPayload p → check_code p.code ≡ ok p.code
unfolding check_code
check_code-ok p v = ground (arith, v.code_whole, v.code_there, v.code_fits)

http_there :
    (s : Bytes)
    → (starts_with (text "http://") s || starts_with (text "https://") s) ≡ true
    → is_end s ≡ false
unfolding starts_with is_end
http_there [] h = cc
http_there (c ∷ s) h = refl

AreFields-pair_fields : (s : Bytes) (p : PairPayload) → AreFields s p → pair_fields s ≡ ok p
unfolding pair_fields
AreFields-pair_fields s p (pad, trail, e, t, v) =
    rw
      (
        e,
        next_field-append (one pad) (p.server ++ b'|' ∷ (p.code ++ trail)) (has_bar-one pad)
            (is_end-one pad),
        check_version-one_ok pad,
        next_field-append p.server (p.code ++ trail) v.server_whole
            (http_there p.server v.speaks_http),
        check_server-ok p v,
        trim_end-append p.code trail v.code_trimmed t,
        check_code-ok p v,
      )
      refl

abbrev is_short : Bytes → Bool
is_short s = leb (length s) (length tag) || not (starts_with tag s)

long_enough : (pad : ℕ) (p : PairPayload) (t : Bytes) → is_short (printed pad p t) ≡ false
long_enough pad p t =
    rw (starts_with-append tag (one pad ++ b'|' ∷ (p.server ++ b'|' ∷ (p.code ++ t)))) (
      no_less (length (printed pad p t)) (
        omega (
          arith,
          length-append (one pad) (b'|' ∷ (p.server ++ b'|' ∷ (p.code ++ t))),
          length-one pad,
        )))
  where
    no_less : (n : ℕ) → 8 < n → (leb n 8 || not true) ≡ false
    no_less n h = ground arith

tagged : (s : Bytes) → is_short s ≡ false → starts_with tag s ≡ true
tagged s h = ground arith

IsPrinted-AreFields :
    (s : Bytes) (p : PairPayload)
    → starts_with tag s ≡ true
    → AreFields (drop (length tag) s) p
    → IsPrinted s p
IsPrinted-AreFields s p h (pad, trail, e, t, v) = record {
  pad = pad;
  trail = trail;
  spells = starts_with-splits tag s h ∙ ap (λ r. tag ++ r) e;
  trailing = all-IsLineEnd trail t;
  payload = v;
}

pair_parse_read : (s : Bytes) (p : PairPayload) → pair_parse s ≡ ok p → IsPrinted s p
unfolding pair_parse
pair_parse_read s p h = elim (Bool-cases (is_short s)) [
  | inl e ↦ absurd (err≢ok (rw e at h))
  | inr e ↦
      IsPrinted-AreFields s p (tagged s e)
        (pair_fields-AreFields (drop (length tag) s) p (rw e at h))
]

pair_parse-printed :
    (p : PairPayload) (pad : ℕ) (t : Bytes)
    → all is_trailing t ≡ true
    → IsPayload p
    → pair_parse (printed pad p t) ≡ ok p
unfolding pair_parse
pair_parse-printed p pad t h v =
    rw (long_enough pad p t) (AreFields-pair_fields _ p (pad, t, refl, h, v))

-- A pairing text is read as a payload exactly when it spells that payload: the tag, the format version 1,
-- an address that fits and starts with http:// or https://, and a code that fits, is not empty and
-- has no bar, with nothing but line ends and NULs behind it.
pub pair_parse-IsPrinted : (s : Bytes) (p : PairPayload) → (pair_parse s ≡ ok p) ↔ IsPrinted s p
pair_parse-IsPrinted s p = (
  pair_parse_read s p,
  λ v.
      rw v.spells (pair_parse-printed p v.pad v.trail (IsLineEnd-all v.trail v.trailing) v.payload),
)
