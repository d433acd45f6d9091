-- ===== src/I18n/Pieces.antt =====
-- What daemoon_strf of core/src/i18n.c makes of a template that is put together from pieces.
use dae_moon.Prelude.{
  ℕ, zero, suc, ◌≡◌, ◌≢◌, ◌≤◌, ◌-◌, ◌+◌, refl, sym, ap, subst, ◌∙◌, true, false, Option, none, some,
  List, [], ◌∷◌, ◌++◌, Bytes, text, length, take, ltb, leb, ◌==◌, Bool-cases, Option-cases, inl,
  inr, ==→eq, All, arith, append_assoc, append-nil, if◌then◌else◌,
}
use dae_moon.Errors.{ok, err, buffer_too_small}
use dae_moon.Messages.{StrId}
use dae_moon.Util.Strbuf.{Strbuf, init, addn}
use dae_moon.Util.Strbuf.Refine.{Holds, init-Holds, addn-Holds, result-Holds}
use dae_moon.Util.Utf8.{trim_partial}
use dae_moon.I18n.Languages.{LangTable, str}
use dae_moon.I18n.Format.{max_args, argument, strf_step, strf_walk, strf_end, strf}

-- A byte, an opening brace, or a placeholder.
pub data Piece : Type 0 where
  byte : ℕ → Piece
  brace : Piece
  slot : ℕ → Piece

-- How it stands in a template.
abbrev pub spelled : Piece → Bytes
spelled (byte c) = c ∷ []
spelled brace = text "{{"
spelled (slot d) = b'{' ∷ (48 + d) ∷ b'}' ∷ []

abbrev pub placed : ℕ → Option Bytes → Bytes
placed d (some a) = a
placed d none = spelled (slot d)

-- What it stands for: a placeholder without an argument stands for itself.
abbrev pub filled : List (Option Bytes) → Piece → Bytes
filled args (byte c) = c ∷ []
filled args brace = text "{"
filled args (slot d) = placed d (argument args d)

-- The bytes are no opening braces, and the placeholders have one digit.
abbrev pub IsPlain : Piece → Type 0
IsPlain (byte c) = c ≢ b'{'
IsPlain brace = Unit
IsPlain (slot d) = d ≤ 9

abbrev pub template : List Piece → Bytes
template [] = []
template (p ∷ ps) = spelled p ++ template ps

abbrev pub sentence : List (Option Bytes) → List Piece → Bytes
sentence args [] = []
sentence args (p ∷ ps) = filled args p ++ sentence args ps

not_brace : (c : ℕ) → c ≢ b'{' → (c == b'{') ≡ false
not_brace c h = elim (Bool-cases (c == b'{')) [ inl e ↦ absurd (h (==→eq c b'{' e)) | inr e ↦ e ]

byte-step :
    (args : List (Option Bytes)) (c : ℕ) (t : Bytes) (sb : Strbuf)
    → c ≢ b'{'
    → strf_step args c t sb ≡ (0, addn sb (c ∷ []))
unfolding strf_step
byte-step args c t sb h = rw (not_brace c h) refl

slot-step :
    (args : List (Option Bytes)) (d : ℕ) (t : Bytes) (sb : Strbuf)
    → d ≤ 9
    → strf_step args b'{' ((48 + d) ∷ b'}' ∷ t) sb ≡ (2, addn sb (filled args (slot d)))
unfolding strf_step
slot-step args d t sb h = elim (Option-cases (argument args d)) [
  | inl n ↦ rw (no_brace, from_zero, to_nine, back, n) refl
  | inr (a, n) ↦ rw (no_brace, from_zero, to_nine, back, n) refl
]
  where
    no_brace : (48 + d == b'{') ≡ false
    no_brace = ground arith

    from_zero : leb b'0' (48 + d) ≡ true
    from_zero = ground arith

    to_nine : leb (48 + d) b'9' ≡ true
    to_nine = ground arith

    back : 48 + d - 48 ≡ d
    back = omega arith

walk-spelled :
    (args : List (Option Bytes)) (p : Piece) (t : Bytes) (sb : Strbuf)
    → IsPlain p
    → strf_walk args 0 (spelled p ++ t) sb ≡ strf_walk args 0 t (addn sb (filled args p))
unfolding strf_walk
walk-spelled args (byte c) t sb h =
    ap (λ (r : ℕ × Strbuf). strf_walk args r.0 t r.1) (byte-step args c t sb h)
walk-spelled args brace t sb h = unfold strf_step in refl
walk-spelled args (slot d) t sb h =
    ap (λ (r : ℕ × Strbuf). strf_walk args r.0 ((48 + d) ∷ b'}' ∷ t) r.1) (slot-step args d t sb h)

walk-Holds :
    (args : List (Option Bytes)) (ps : List Piece) {cap : ℕ} {sb : Strbuf} {w : Bytes}
    → All IsPlain ps
    → Holds cap sb w
    → Holds cap (strf_walk args 0 (template ps) sb) (w ++ sentence args ps)
walk-Holds args [] {sb = sb} {w = w} plain h = unfold strf_walk in rw (append-nil w) h
walk-Holds args (p ∷ ps) {cap} {sb} {w} (plain, rest) h =
    subst (λ x. Holds cap x (w ++ (filled args p ++ sentence args ps)))
      (sym (walk-spelled args p (template ps) sb plain))
      (subst (Holds cap _) (append_assoc w (filled args p) (sentence args ps))
        (walk-Holds args ps rest (addn-Holds (filled args p) h)))

-- The first bytes of a text that a buffer has room for, before its NUL, cut behind a whole code point.
abbrev pub shortened : ℕ → Bytes → Bytes
shortened cap w = take (trim_partial (take (cap - 1) w)) (take (cap - 1) w)

strf_end-Holds :
    {cap : ℕ} {sb : Strbuf} {w : Bytes}
    → Holds cap sb w
    → strf_end sb
      ≡ (if ltb (length w) cap then (w, ok tt) else (shortened cap w, err buffer_too_small))
unfolding strf_end
strf_end-Holds {cap} {sb} {w} h = elim (Bool-cases (ltb (length w) cap)) [
  | inl e ↦ rw (result-Holds h, e) refl
  | inr e ↦ rw (result-Holds h, e, h.prefix) refl
]

no_room : (n : ℕ) → ltb n 0 ≡ false
no_room n = ground arith

has_room : (cap : ℕ) → (suc cap == 0) ≡ false
has_room cap = ground arith

-- A template that is put together from pieces, bytes that are no opening braces, braces and
-- placeholders of one digit, is printed as the sentence of what they stand for, the first eight
-- arguments counting, if that fits with its NUL; otherwise the call fails, and the buffer has
-- the part of it that fits, as daemoon_utf8_trim_partial shortens it.
pub strf-sentence :
    (cap : ℕ) (table : LangTable) (selected : ℕ) (id : Option StrId) (args : List (Option Bytes))
    (ps : List Piece)
    → str table selected id ≡ template ps
    → All IsPlain ps
    → let w = sentence (take max_args args) ps in
      strf cap table selected id args
      ≡ (if ltb (length w) cap then (w, ok tt) else (shortened cap w, err buffer_too_small))
unfolding strf
strf-sentence zero table selected id args ps h plain =
    rw (no_room (length (sentence (take max_args args) ps))) refl
strf-sentence (suc cap) table selected id args ps h plain =
    let printed = λ (t : Bytes). strf_end (strf_walk (take max_args args) 0 t (init (suc cap))) in
    ap (λ b. if b then ([], err buffer_too_small) else printed (str table selected id))
      (has_room cap)
    ∙ ap printed h
    ∙ strf_end-Holds (walk-Holds (take max_args args) ps plain (init-Holds (suc cap)))
