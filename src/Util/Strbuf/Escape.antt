-- ===== src/Util/Strbuf/Escape.antt =====
-- What daemoon_strbuf_add_json and daemoon_strbuf_add_urlenc add, as plain strings.
use dae_moon.Prelude.{
  ℕ, ◌/◌, ◌%◌, ◌≡◌, ap, subst, [], ◌∷◌, ◌++◌, Bytes, text, length, append_assoc, append-nil, Bool,
  true, get_or, arith, ◌&&◌, ◌||◌, false, ltb, ◌==◌, if◌then◌else◌,
}
use dae_moon.Errors.{ok, err, buffer_too_small}
use dae_moon.Util.Strbuf.{
  Strbuf, init, addn, add_json_byte, add_json, add_urlenc, result, hex_digit, upper_hex_digit,
  unreserved,
}
use dae_moon.Util.Strbuf.Refine.{Holds, init-Holds, addn-Holds, result-Holds}

-- The JSON spelling of one byte.
unfoldable pub escape_byte : ℕ → Bytes
escape_byte c =
    if c == b'"'
    then text "\\\""
    else if c == 92
    then text "\\\\"
    else if c == 10
    then text "\\n"
    else if c == 13
    then text "\\r"
    else if c == 9
    then text "\\t"
    else if c == 8
    then text "\\b"
    else if c == 12
    then text "\\f"
    else if ltb c 32
    then text "\\u00" ++ hex_digit (c / 16 % 16) ∷ hex_digit (c % 16) ∷ []
    else c ∷ []

unfoldable pub escape : Bytes → Bytes
escape [] = []
escape (c ∷ s) = escape_byte c ++ escape s

if-Holds :
    {cap : ℕ} (b : Bool) {x y : Strbuf} (w s t : Bytes)
    → Holds cap x (w ++ s)
    → Holds cap y (w ++ t)
    → Holds cap (if b then x else y) (w ++ (if b then s else t))
if-Holds true w s t hx hy = hx
if-Holds false w s t hx hy = hy

three_adds :
    {cap : ℕ} {sb : Strbuf} {w : Bytes} (s : Bytes) (a b : ℕ)
    → Holds cap sb w
    → Holds cap (addn (addn (addn sb s) (a ∷ [])) (b ∷ [])) (w ++ (s ++ a ∷ b ∷ []))
three_adds {cap} {sb} {w} s a b h =
    subst (Holds cap (addn (addn (addn sb s) (a ∷ [])) (b ∷ []))) regroup
      (addn-Holds (b ∷ []) (addn-Holds (a ∷ []) (addn-Holds s h)))
  where
    regroup : ((w ++ s) ++ a ∷ []) ++ b ∷ [] ≡ w ++ (s ++ a ∷ b ∷ [])
    regroup = simp append_assoc

add_json_byte-Holds :
    {cap : ℕ} {sb : Strbuf} {w : Bytes} (c : ℕ)
    → Holds cap sb w
    → Holds cap (add_json_byte sb c) (w ++ escape_byte c)
unfolding add_json_byte escape_byte
add_json_byte-Holds c h = if-Holds (c == b'"') _ _ _ (addn-Holds _ h) (
    if-Holds (c == 92) _ _ _ (addn-Holds _ h) (
      if-Holds (c == 10) _ _ _ (addn-Holds _ h) (
        if-Holds (c == 13) _ _ _ (addn-Holds _ h) (
          if-Holds (c == 9) _ _ _ (addn-Holds _ h) (
            if-Holds (c == 8) _ _ _ (addn-Holds _ h) (
              if-Holds (c == 12) _ _ _ (addn-Holds _ h)
                (if-Holds (ltb c 32) _ _ _ (three_adds _ _ _ h) (addn-Holds _ h))))))))

-- The builder that a string was added to in JSON holds its escaped spelling.
pub add_json-Holds :
    (s : Bytes) {cap : ℕ} {sb : Strbuf} {w : Bytes}
    → Holds cap sb w
    → Holds cap (add_json sb s) (w ++ escape s)
unfolding add_json escape
add_json-Holds [] {w = w} h = rw (append-nil w) h
add_json-Holds (c ∷ s) {w = w} h =
    rw (← append_assoc w (escape_byte c) (escape s)) (add_json-Holds s (add_json_byte-Holds c h))

-- The bytes that stand for themselves in a URL: letters, digits and four marks.
abbrev pub is_unreserved : ℕ → Bool
is_unreserved c =
    (ltb 64 c && ltb c 91)
    || (ltb 96 c && ltb c 123)
    || (ltb 47 c && ltb c 58)
    || c == 45
    || c == 46
    || c == 95
    || c == 126

unreserved-is_unreserved : (c : ℕ) → unreserved c ≡ is_unreserved c
unfolding unreserved
unreserved-is_unreserved c = ground arith

abbrev digit_text : Bytes
digit_text = text "0123456789ABCDEF"

-- The percent encoding of one byte: itself, or its two digits in capitals.
unfoldable pub percent_byte : ℕ → Bytes
percent_byte c =
    if is_unreserved c
    then c ∷ []
    else (b'%' ∷ []) ++ (get_or digit_text (c / 16 % 16) 0 ∷ get_or digit_text (c % 16) 0 ∷ [])

unfoldable pub percent : Bytes → Bytes
unfolding percent_byte
percent [] = []
percent (c ∷ s) = percent_byte c ++ percent s

percent_byte-unreserved :
    (c : ℕ)
    → (if unreserved c
        then c ∷ []
        else (b'%' ∷ []) ++ (upper_hex_digit (c / 16 % 16) ∷ upper_hex_digit (c % 16) ∷ []))
      ≡ percent_byte c
unfolding percent_byte upper_hex_digit
percent_byte-unreserved c =
    ap
      (λ b.
        if b
        then c ∷ []
        else (b'%' ∷ []) ++ (get_or digit_text (c / 16 % 16) 0 ∷ get_or digit_text (c % 16) 0 ∷ []))
      (unreserved-is_unreserved c)

urlenc_byte-Holds :
    (c : ℕ) {cap : ℕ} {sb : Strbuf} {w : Bytes}
    → Holds cap sb w
    → Holds cap
        (if unreserved c
          then addn sb (c ∷ [])
          else addn
              (addn (addn sb (b'%' ∷ [])) (upper_hex_digit (c / 16 % 16) ∷ []))
              (upper_hex_digit (c % 16) ∷ []))
        (w ++ percent_byte c)
urlenc_byte-Holds c {cap} {sb} {w} h =
    subst
      (λ x.
        Holds cap
          (if unreserved c
            then addn sb (c ∷ [])
            else addn (addn (addn sb (b'%' ∷ [])) (upper_hex_digit (c / 16 % 16) ∷ []))
                (upper_hex_digit (c % 16) ∷ []))
          (w ++ x))
      (percent_byte-unreserved c)
      (if-Holds (unreserved c) w (c ∷ []) _ (addn-Holds (c ∷ []) h)
        (three_adds (b'%' ∷ []) (upper_hex_digit (c / 16 % 16)) (upper_hex_digit (c % 16)) h))

-- The builder that a string was added to for a URL holds its percent encoding behind what it held.
pub add_urlenc-Holds :
    (s : Bytes) {cap : ℕ} {sb : Strbuf} {w : Bytes}
    → Holds cap sb w
    → Holds cap (add_urlenc sb s) (w ++ percent s)
unfolding add_urlenc percent
add_urlenc-Holds [] {w = w} h = rw (append-nil w) h
add_urlenc-Holds (c ∷ s) {w = w} h =
    rw (← append_assoc w (percent_byte c) (percent s)) (add_urlenc-Holds s (urlenc_byte-Holds c h))

-- A string built from nothing is reported in full, escaped, or as not fitting.
pub result-add_json :
    (cap : ℕ) (s : Bytes)
    → result (add_json (init cap) s)
      ≡ (if ltb (length (escape s)) cap then ok (escape s) else err buffer_too_small)
result-add_json cap s = result-Holds (add_json-Holds s (init-Holds cap))
