-- ===== src/Consoles/Config/Lines.antt =====
-- A file of settings, written line by line, as platform/common/config_lines.c reads it.
use dae_moon.Prelude.{
  before_nul, ℕ, zero, suc, ◌+◌, ◌≡◌, ◌≢◌, ◌<◌, ◌≤◌, refl, sym, ap, ap₂, ◌∙◌, Bool, true, false,
  ◌&&◌, some, List, [], ◌∷◌, ◌++◌, Bytes, text, length, length-append, append_assoc, All,
  All-append, ◌==◌, Bool-cases, inl, inr, ==→eq, arith, if◌then◌else◌,
}
use dae_moon.Errors.{ok}
use dae_moon.Consoles.Config.{
  is_blank, is_blank_or_end, is_nil, trim_back, trim_front, trim, read_byte, read_calls,
  split_at_equals, trim_pair, trimmed_pair, line_pair, add_pair, line_pairs, config_read_lines,
}

-- The line that a setting is written as.
abbrev pub setting_line : Bytes × Bytes → Bytes
setting_line (k, v) = k ++ (text " = " ++ (v ++ 10 ∷ []))

abbrev pub settings_text : List (Bytes × Bytes) → Bytes
settings_text [] = []
settings_text (s ∷ settings) = setting_line s ++ settings_text settings

-- The first byte is neither blank nor a `#`.
abbrev pub HasStart : Bytes → Type 0
HasStart [] = ⊥
HasStart (c ∷ s) = (is_blank c ≡ false) × (c ≢ b'#')

-- A setting that a line can hold: the key has no equals sign, is not empty and does not begin with `#`, neither side has a
-- NUL or a line end in it or a blank around it, and the line is not longer than what fgets reads.
pub record IsSetting (s : Bytes × Bytes) : Type 0 where
  pub key_bytes : All (λ c. (c ≢ 0) × (c ≢ 10) × (c ≢ b'=')) s.0
  pub value_bytes : All (λ c. (c ≢ 0) × (c ≢ 10)) s.1
  pub key_trimmed : trim s.0 ≡ s.0
  pub value_trimmed : trim s.1 ≡ s.1
  pub key_start : HasStart s.0
  pub fits : length s.0 + length s.1 ≤ 507

not_equal : (c d : ℕ) → c ≢ d → (c == d) ≡ false
not_equal c d h = elim (Bool-cases (c == d)) [ inl e ↦ absurd (h (==→eq c d e)) | inr e ↦ e ]

trim_back-blank :
    (s : Bytes) (b : ℕ) → is_blank_or_end b ≡ true → trim_back (s ++ b ∷ []) ≡ trim_back s
unfolding trim_back is_nil
trim_back-blank [] b h = rw h refl
trim_back-blank (c ∷ s) b h = rw (trim_back-blank s b h) refl

pub nil_is_nil : (s : Bytes) → is_nil s ≡ true → s ≡ []
unfolding is_nil
nil_is_nil [] h = refl
nil_is_nil (c ∷ s) h = cc

trim_back-trim_back : (s : Bytes) → trim_back (trim_back s) ≡ trim_back s
unfolding trim_back
trim_back-trim_back [] = refl
trim_back-trim_back (c ∷ s) = elim (Bool-cases (is_blank_or_end c && is_nil (trim_back s))) [
  | inl e ↦ rw e refl
  | inr e ↦ rw (e, trim_back-trim_back s, e) refl
]

and_false : (b : Bool) → (b && false) ≡ false
and_false true = refl
and_false false = refl

-- What stands up to a byte that is not blank stays.
trim_back-mark :
    (a : Bytes) (m : ℕ) (r : Bytes)
    → is_blank_or_end m ≡ false
    → trim_back (a ++ m ∷ r) ≡ a ++ m ∷ trim_back r
unfolding trim_back is_nil
trim_back-mark [] m r h = rw h refl
trim_back-mark (c ∷ []) m r h = rw (h, and_false (is_blank_or_end c)) refl
trim_back-mark (c ∷ d ∷ a) m r h =
    rw (trim_back-mark (d ∷ a) m r h, and_false (is_blank_or_end c)) refl

before_nul-kept : (s : Bytes) → All (λ c. c ≢ 0) s → before_nul s ≡ s
unfolding before_nul
before_nul-kept [] h = refl
before_nul-kept (c ∷ s) h = rw (not_equal c 0 h.0, before_nul-kept s h.1) refl

split_at_equals-first :
    (a r : Bytes) → All (λ c. c ≢ b'=') a → split_at_equals (a ++ b'=' ∷ r) ≡ some (a, r)
unfolding split_at_equals
split_at_equals-first [] r h = refl
split_at_equals-first (c ∷ a) r h = rw (not_equal c b'=' h.0, split_at_equals-first a r h.1) refl

-- The calls of fgets end behind a line end that comes in time.
read_calls-line :
    (l : Bytes) (room : ℕ) (line rest : Bytes)
    → length l < room
    → All (λ c. c ≢ 10) l
    → read_calls room line (l ++ 10 ∷ rest) ≡ (line ++ (l ++ 10 ∷ [])) ∷ read_calls 511 [] rest
unfolding read_calls read_byte
read_calls-line l zero line rest h k = absurd (omega arith)
read_calls-line [] (suc room) line rest h k = refl
read_calls-line (c ∷ l) (suc room) line rest h k = rw (not_equal c 10 k.0) (
    read_calls-line l room (line ++ c ∷ []) rest (omega arith) k.1
    ∙ ap (λ x. x ∷ read_calls 511 [] rest) (append_assoc line (c ∷ []) (l ++ 10 ∷ [])))

after_blank : (t : Bytes) → trim_front (if is_nil t then [] else b' ' ∷ t) ≡ trim_front t
unfolding trim_front is_nil
after_blank [] = refl
after_blank (c ∷ t) = refl

-- A value behind its equals sign.
trimmed_value : (v : Bytes) → trim v ≡ v → trim (trim_back (b' ' ∷ (v ++ 10 ∷ []))) ≡ v
unfolding trim
trimmed_value v h =
    ap trim_front (trim_back-trim_back (b' ' ∷ (v ++ 10 ∷ [])))
    ∙ after_blank (trim_back (v ++ 10 ∷ []))
    ∙ ap trim_front (trim_back-blank v 10 refl)
    ∙ h

trimmed_key : (k : Bytes) → trim k ≡ k → trim (k ++ b' ' ∷ []) ≡ k
unfolding trim
trimmed_key k h = ap trim_front (trim_back-blank k b' ' refl) ∙ h

trim-line : (k r : Bytes) → HasStart k → trim (k ++ b'=' ∷ r) ≡ k ++ b'=' ∷ trim_back r
unfolding trim trim_front
trim-line [] r h = absurd h
trim-line (c ∷ s) r h = ap trim_front (trim_back-mark (c ∷ s) b'=' r refl) ∙ rw h.0 refl

trimmed_pair-line :
    (k r : Bytes)
    → HasStart k
    → All (λ c. c ≢ b'=') k
    → trimmed_pair (k ++ b'=' ∷ r) ≡ some (trim k, trim r)
unfolding trimmed_pair trim_pair
trimmed_pair-line [] r h n = absurd h
trimmed_pair-line (c ∷ s) r h n =
    rw (not_equal c b'#' h.1) (ap trim_pair (split_at_equals-first (c ∷ s) r n))

All-map : {P Q : ℕ → Type 0} (f : (c : ℕ) → P c → Q c) (s : Bytes) → All P s → All Q s
All-map f [] h = tt
All-map f (c ∷ s) h = (f c h.0, All-map f s h.1)

with_blank : (k : Bytes) → HasStart k → HasStart (k ++ b' ' ∷ [])
with_blank [] h = absurd h
with_blank (c ∷ s) h = h

module _ (k v : Bytes) (h : IsSetting (k, v)) where
  value : Bytes
  value = b' ' ∷ (v ++ 10 ∷ [])

  whole_line : setting_line (k, v) ≡ (k ++ b' ' ∷ []) ++ b'=' ∷ value
  unfolding value
  whole_line = sym (append_assoc k (b' ' ∷ []) (b'=' ∷ b' ' ∷ (v ++ 10 ∷ [])))

  no_nul : All (λ c. c ≢ 0) (setting_line (k, v))
  no_nul =
      All-append (λ c. c ≢ 0) k (text " = " ++ (v ++ 10 ∷ []))
        (All-map (λ c (p : (c ≢ 0) × (c ≢ 10) × (c ≢ b'=')). p.0) k h.key_bytes)
        (
          (λ e. absurd (omega (arith, e))),
          (
            (λ e. absurd (omega (arith, e))),
            (
              (λ e. absurd (omega (arith, e))),
              All-append (λ c. c ≢ 0) v (10 ∷ [])
                  (All-map (λ c (p : (c ≢ 0) × (c ≢ 10)). p.0) v h.value_bytes)
                  ((λ e. absurd (omega (arith, e))), tt),
            ),
          ),
        )

  no_equals : All (λ c. c ≢ b'=') (k ++ b' ' ∷ [])
  no_equals =
      All-append (λ c. c ≢ b'=') k (b' ' ∷ [])
        (All-map (λ c (p : (c ≢ 0) × (c ≢ 10) × (c ≢ b'=')). p.2) k h.key_bytes)
        ((λ e. absurd (omega (arith, e))), tt)

  line_pair-setting_line : line_pair (setting_line (k, v)) ≡ some (k, v)
  unfolding line_pair value
  line_pair-setting_line =
      ap (λ s. trimmed_pair (trim s)) (before_nul-kept (setting_line (k, v)) no_nul ∙ whole_line)
      ∙ ap trimmed_pair (trim-line (k ++ b' ' ∷ []) value (with_blank k h.key_start))
      ∙ trimmed_pair-line (k ++ b' ' ∷ []) (trim_back value) (with_blank k h.key_start) no_equals
      ∙ ap₂ (λ x y. some (x, y)) (trimmed_key k h.key_trimmed) (trimmed_value v h.value_trimmed)

  before_end : Bytes
  before_end = k ++ (text " = " ++ v)

  in_time : length before_end < 511
  unfolding before_end
  in_time = omega (arith, length-append k (text " = " ++ v), h.fits)

  no_end : All (λ c. c ≢ 10) before_end
  unfolding before_end
  no_end =
      All-append (λ c. c ≢ 10) k (text " = " ++ v)
        (All-map (λ c (p : (c ≢ 0) × (c ≢ 10) × (c ≢ b'=')). p.1) k h.key_bytes)
        (
          (λ e. absurd (omega (arith, e))),
          (
            (λ e. absurd (omega (arith, e))),
            (
              (λ e. absurd (omega (arith, e))),
              All-map (λ c (p : (c ≢ 0) × (c ≢ 10)). p.1) v h.value_bytes,
            ),
          ),
        )

  read_calls-setting_line :
      (rest : Bytes)
      → read_calls 511 [] (setting_line (k, v) ++ rest)
        ≡ setting_line (k, v) ∷ read_calls 511 [] rest
  unfolding before_end
  read_calls-setting_line rest =
      ap (read_calls 511 []) (behind rest)
      ∙ read_calls-line before_end 511 [] rest in_time no_end
      ∙ ap (λ l. l ∷ read_calls 511 [] rest) (whole (10 ∷ []))
    where
      behind : (rest : Bytes) → setting_line (k, v) ++ rest ≡ before_end ++ 10 ∷ rest
      behind rest = simp append_assoc

      whole : (e : Bytes) → before_end ++ e ≡ k ++ (text " = " ++ (v ++ e))
      whole e = simp append_assoc

line_pairs-settings_text :
    (settings : List (Bytes × Bytes))
    → All IsSetting settings
    → line_pairs (read_calls 511 [] (settings_text settings)) ≡ settings
unfolding line_pairs
line_pairs-settings_text [] h = unfold read_calls is_nil in refl
line_pairs-settings_text ((k, v) ∷ settings) h =
    ap line_pairs (read_calls-setting_line k v h.0 (settings_text settings))
    ∙ ap₂ add_pair (line_pair-setting_line k v h.0) (line_pairs-settings_text settings h.1)

-- Settings that are written one to a line are read back as they are, in their order.
pub config_read_lines-settings_text :
    (settings : List (Bytes × Bytes))
    → All IsSetting settings
    → config_read_lines (some (settings_text settings)) ≡ ok settings
unfolding config_read_lines
config_read_lines-settings_text settings h = ap ok (line_pairs-settings_text settings h)
