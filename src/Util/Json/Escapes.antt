-- ===== src/Util/Json/Escapes.antt =====
-- A string that core/src/util/strbuf.c escapes is read back by core/src/util/json.c.
use dae_moon.Prelude.{
  ℕ, zero, suc, ◌/◌, ◌%◌, ◌≡◌, ◌≢◌, ◌≤◌, ◌<◌, refl, sym, ◌∙◌, ap, true, false, ◌&&◌, [], ◌∷◌, ◌++◌,
  Bytes, length, length-append, append-nil, append_assoc, subst, take-all, ltb→lt, ◌-◌, ltb, leb,
  ◌==◌, Bool-cases, inl, inr, ==→eq, arith,
}
use dae_moon.Errors.{ok}
use dae_moon.Util.Strbuf.{Strbuf, init, addn, addc, hex_digit}
use dae_moon.Util.Strbuf.Refine.{Holds, init-Holds, addn-Holds}
use dae_moon.Util.Json.{Token, is_string, slice}
use dae_moon.Util.Strbuf.Escape.{escape_byte, escape}
use dae_moon.Util.Json.Strings.{decode_walk, finish, json_str}
use dae_moon.Util.Json.Digits.{four_digits-control}

-- A letter that is not an escape is taken as it is.
decode_walk-plain :
    (n : ℕ) (sb : Strbuf) (c : ℕ) (r : Bytes)
    → c ≢ 92
    → decode_walk (suc n) sb (c ∷ r) ≡ decode_walk n (addc sb c) r
unfolding decode_walk
decode_walk-plain n sb c [] h = ground arith
decode_walk-plain n sb c (e ∷ r) h = ground arith

decode_walk-control :
    (n : ℕ) (sb : Strbuf) (c : ℕ) (r : Bytes)
    → c < 32
    → decode_walk (suc n) sb (92 ∷ 117 ∷ 48 ∷ 48 ∷ hex_digit (c / 16 % 16) ∷ hex_digit (c % 16) ∷ r)
      ≡ decode_walk n (addc sb c) r
unfolding decode_walk
decode_walk-control n sb c r h = rw (long_enough, four_digits-control c r h, high, low, small) refl
  where
    long_enough :
        ltb (length (48 ∷ 48 ∷ hex_digit (c / 16 % 16) ∷ hex_digit (c % 16) ∷ r)) 4 ≡ false
    long_enough = ground arith

    high : (leb 0xd800 c && leb c 0xdbff) ≡ false
    high = ground arith

    low : (leb 0xdc00 c && leb c 0xdfff) ≡ false
    low = ground arith

    small : ltb c 0x80 ≡ true
    small = ground arith

-- The escapes of one letter.
decode_walk-letters :
    (n : ℕ) (sb : Strbuf) (r : Bytes)
    → (decode_walk (suc n) sb (92 ∷ 34 ∷ r) ≡ decode_walk n (addc sb 34) r)
      × (decode_walk (suc n) sb (92 ∷ 92 ∷ r) ≡ decode_walk n (addc sb 92) r)
      × (decode_walk (suc n) sb (92 ∷ 110 ∷ r) ≡ decode_walk n (addc sb 10) r)
      × (decode_walk (suc n) sb (92 ∷ 114 ∷ r) ≡ decode_walk n (addc sb 13) r)
      × (decode_walk (suc n) sb (92 ∷ 116 ∷ r) ≡ decode_walk n (addc sb 9) r)
      × (decode_walk (suc n) sb (92 ∷ 98 ∷ r) ≡ decode_walk n (addc sb 8) r)
      × (decode_walk (suc n) sb (92 ∷ 102 ∷ r) ≡ decode_walk n (addc sb 12) r)
unfolding decode_walk
decode_walk-letters n sb r = (refl, refl, refl, refl, refl, refl, refl)

-- The spelling of a byte is read as that byte.
decode_walk-escape_byte :
    (n : ℕ) (sb : Strbuf) (c : ℕ) (r : Bytes)
    → decode_walk (suc n) sb (escape_byte c ++ r) ≡ decode_walk n (addc sb c) r
unfolding escape_byte
decode_walk-escape_byte n sb c r =
    let known = decode_walk-letters n sb r in
    elim (Bool-cases (c == 34)) [
      | inl e ↦ rw e (known.0 ∙ meant (==→eq c 34 e))
      | inr e1 ↦ elim (Bool-cases (c == 92)) [
        | inl e ↦ rw (e1, e) (known.1 ∙ meant (==→eq c 92 e))
        | inr e2 ↦ elim (Bool-cases (c == 10)) [
          | inl e ↦ rw (e1, e2, e) (known.2 ∙ meant (==→eq c 10 e))
          | inr e3 ↦ elim (Bool-cases (c == 13)) [
            | inl e ↦ rw (e1, e2, e3, e) (known.3 ∙ meant (==→eq c 13 e))
            | inr e4 ↦ elim (Bool-cases (c == 9)) [
              | inl e ↦ rw (e1, e2, e3, e4, e) (known.4 ∙ meant (==→eq c 9 e))
              | inr e5 ↦ elim (Bool-cases (c == 8)) [
                | inl e ↦ rw (e1, e2, e3, e4, e5, e) (known.5 ∙ meant (==→eq c 8 e))
                | inr e6 ↦ elim (Bool-cases (c == 12)) [
                  | inl e ↦ rw (e1, e2, e3, e4, e5, e6, e) (known.6 ∙ meant (==→eq c 12 e))
                  | inr e7 ↦ elim (Bool-cases (ltb c 32)) [
                    | inl e ↦
                        rw (e1, e2, e3, e4, e5, e6, e7, e)
                          (decode_walk-control n sb c r (ltb→lt c 32 e))
                    | inr e ↦
                        rw (e1, e2, e3, e4, e5, e6, e7, e)
                          (decode_walk-plain n sb c r (λ k. ground arith))
                  ]
                ]
              ]
            ]
          ]
        ]
      ]
    ]
  where
    meant : {k : ℕ} → c ≡ k → decode_walk n (addc sb k) r ≡ decode_walk n (addc sb c) r
    meant e = ap (λ (k : ℕ). decode_walk n (addc sb k) r) (sym e)

-- A string added byte by byte.
abbrev add_each : Strbuf → Bytes → Strbuf
add_each sb [] = sb
add_each sb (c ∷ s) = add_each (addc sb c) s

decode_walk_end : (n : ℕ) (sb : Strbuf) → decode_walk n sb [] ≡ (sb, true)
unfolding decode_walk
decode_walk_end zero sb = refl
decode_walk_end (suc n) sb = refl

decode_walk-escape :
    (n : ℕ) (sb : Strbuf) (s : Bytes)
    → length s ≤ n
    → decode_walk n sb (escape s) ≡ (add_each sb s, true)
unfolding escape
decode_walk-escape n sb [] h = decode_walk_end n sb
decode_walk-escape zero sb (c ∷ s) h = absurd (omega arith)
decode_walk-escape (suc n) sb (c ∷ s) h =
    decode_walk-escape_byte n sb c (escape s) ∙ decode_walk-escape n (addc sb c) s (omega arith)

add_each-Holds :
    (s : Bytes) {cap : ℕ} {sb : Strbuf} {w : Bytes}
    → Holds cap sb w
    → Holds cap (add_each sb s) (w ++ s)
unfolding addc
add_each-Holds [] {cap = cap} {sb = sb} {w = w} h = subst (Holds cap sb) (sym (append-nil w)) h
add_each-Holds (c ∷ s) {cap = cap} {sb = sb} {w = w} h =
    subst (Holds cap _) (append_assoc w (c ∷ []) s)
      (add_each-Holds s {sb = addn sb (c ∷ [])} (addn-Holds (c ∷ []) h))

length-escape_more : (s : Bytes) → length s ≤ length (escape s)
unfolding escape escape_byte
length-escape_more [] = omega arith
length-escape_more (c ∷ s) =
    omega (arith, length-append (escape_byte c) (escape s), length-escape_more s, spelled c)
  where
    spelled : (c : ℕ) → 1 ≤ length (escape_byte c)
    spelled c = ground arith

-- A builder that holds a string which fits is read in full.
finish-Holds :
    {cap : ℕ} {sb : Strbuf} {w : Bytes}
    → Holds cap sb w
    → length w < cap
    → finish (sb, true) ≡ (w, ok tt)
unfolding finish
finish-Holds {cap = cap} {sb = sb} {w = w} h fits = elim (Bool-cases sb.overflow) [
  | inl e ↦ absurd (omega (arith, h.cut e, fits))
  | inr e ↦
      rw e (ap (λ (r : Bytes). (r, ok tt)) (h.prefix ∙ take-all (cap - 1) w (omega (arith, fits))))
]

json_str-finish :
    (js : Bytes) (t : Token) (cap : ℕ) (old : Bytes)
    → (cap == 0) ≡ false
    → is_string t.kind ≡ true
    → json_str js t cap old ≡ finish (decode_walk (length (slice js t)) (init cap) (slice js t))
unfolding json_str
json_str-finish js t cap old z k = rw (z, k) refl

-- A string that was escaped into a text is read back as itself, by a token of kind string that spans
-- the escaped spelling, into any buffer that has room for the string with its NUL.
pub json_str-escape :
    (js : Bytes) (t : Token) (cap : ℕ) (old s : Bytes)
    → is_string t.kind ≡ true
    → slice js t ≡ escape s
    → length s < cap
    → json_str js t cap old ≡ (s, ok tt)
json_str-escape js t cap old s k e h =
    json_str-finish js t cap old (ground arith) k
    ∙ ap (λ (q : Bytes). finish (decode_walk (length q) (init cap) q)) e
    ∙ ap finish (decode_walk-escape (length (escape s)) (init cap) s (length-escape_more s))
    ∙ finish-Holds (add_each-Holds s (init-Holds cap)) h
