-- ===== src/Consoles/Settings/Storable.antt =====
-- Which settings platform/3ds/source/config.c can keep, and how a setting is read that may not have been
-- written.
use dae_moon.Prelude.{
  ℕ, ◌≡◌, ◌≢◌, ◌<◌, ◌≤◌, ◌+◌, refl, sym, ap, ◌∙◌, Bool, true, false, ◌&&◌, not, some, List, [], ◌∷◌,
  ◌++◌, Bytes, text, length, All, ◌==◌, eq→==, arith, Bool-cases, inl, inr, if◌then◌else◌,
}
use mathlib.Core.Bool.{false≢true}
use dae_moon.Errors.{Result, ok}
use dae_moon.Util.Utf8.{valid}
use dae_moon.Util.Copy.{strlcpy_fits}
use dae_moon.Util.Sha256.Chunks.{joined}
use dae_moon.Archive.{path_max}
use dae_moon.Api.Request.{token_max}
use dae_moon.I18n.Languages.{language_from_code}
use dae_moon.Consoles.Config.{is_nil, is_blank, is_blank_or_end, trim_front, trim_back, trim}
use dae_moon.Consoles.Config.Lines.{HasStart, setting_line, settings_text, IsSetting}
use dae_moon.Consoles.Settings.{
  Settings, copied, drop_slashes, config_pair, config_pairs, optional, lines_of,
}

-- Settings that fit into their arrays and into lines: an address without a slash at its end, a label that is a
-- non-empty text, and a language, if there is one, that has a code.
pub record IsStorable (cfg : Settings) : Type 0 where
  pub server : IsSetting (text "server", cfg.server_url)
  pub server_fits : length cfg.server_url < 256
  pub no_slash : drop_slashes cfg.server_url ≡ cfg.server_url
  pub label : IsSetting (text "label", cfg.device_label)
  pub label_fits : length cfg.device_label < 65
  pub label_shown : is_nil cfg.device_label ≡ false
  pub label_valid : valid cfg.device_label ≡ true
  pub token : IsSetting (text "token", cfg.token)
  pub token_fits : length cfg.token < token_max
  pub device : IsSetting (text "device", cfg.device_id)
  pub device_fits : length cfg.device_id < 65
  pub language : IsSetting (text "language", cfg.language)
  pub language_fits : length cfg.language < 12
  pub language_known :
      is_nil cfg.language ≡ false → (lang : ℕ) × (language_from_code (some cfg.language) ≡ ok lang)
  pub bundle : IsSetting (text "ca_bundle", cfg.ca_bundle)
  pub bundle_fits : length cfg.ca_bundle < path_max

pub copied_fits : (cap : ℕ) (s : Bytes) → length s < cap → copied cap s ≡ s
copied_fits cap s h = ap (λ (r : Bytes × Result (Unit {0})). r.0) (strlcpy_fits cap s h)

pub config_pairs-append :
    (cfg : Settings) (a b : List (Bytes × Bytes))
    → config_pairs cfg (a ++ b) ≡ config_pairs (config_pairs cfg a) b
unfolding config_pairs
config_pairs-append cfg [] b = refl
config_pairs-append cfg (kv ∷ a) b = config_pairs-append (config_pair cfg kv) a b

-- What reading some settings makes of others.
pub record Reads (cfg : Settings) (pairs : List (Bytes × Bytes)) (cfg' : Settings) : Type 0 where
  pub comes_to : config_pairs cfg pairs ≡ cfg'

pub then_reads :
    {cfg cfg' last : Settings} {a b : List (Bytes × Bytes)}
    → Reads cfg a cfg'
    → Reads cfg' b last
    → Reads cfg (a ++ b) last
then_reads {cfg} {cfg'} {last} {a} {b} h next = record {
  comes_to = config_pairs-append cfg a b ∙ ap (λ c. config_pairs c b) h.comes_to ∙ next.comes_to;
}

-- A setting that is read where it was written, and that is as it was where it was not.
pub optional-Reads :
    (b : Bool) (k v : Bytes) (cfg cfg' : Settings)
    → (b ≡ true → config_pair cfg (k, v) ≡ cfg')
    → (b ≡ false → cfg ≡ cfg')
    → Reads cfg (optional b k v) cfg'
unfolding config_pairs
optional-Reads true k v cfg cfg' reads stays = record { comes_to = reads refl }
optional-Reads false k v cfg cfg' reads stays = record { comes_to = stays refl }

pub joined-lines_of :
    (settings : List (Bytes × Bytes)) → joined (lines_of settings) ≡ settings_text settings
joined-lines_of [] = refl
joined-lines_of (kv ∷ settings) = ap (λ s. setting_line kv ++ s) (joined-lines_of settings)

pub empty_or : (s : Bytes) → not (is_nil s) ≡ false → [] ≡ s
unfolding is_nil
empty_or [] h = refl
empty_or (c ∷ s) h = absurd (false≢true (sym h))

pub shown : (b : Bool) → not b ≡ true → b ≡ false
shown true h = absurd (false≢true h)
shown false h = refl

pub written_token : (b : Bool) (s : Bytes) → b && not (is_nil s) ≡ true → s ≡ (if b then s else [])
written_token true s h = refl
written_token false s h = absurd (false≢true h)

pub no_token : (b : Bool) (s : Bytes) → b && not (is_nil s) ≡ false → [] ≡ (if b then s else [])
no_token true s h = empty_or s h
no_token false s h = refl

-- A key or a value that has none of the bytes that a line cannot hold, as a test.
abbrev pub plain : Bytes → Bool
plain [] = true
plain (c ∷ s) = not (c == 0) && (not (c == 10) && (not (c == b'=') && plain s))

pub unequal : (c d : ℕ) → (c == d) ≡ false → c ≢ d
unequal c d h e = false≢true (sym h ∙ eq→== c d e)

pub plain_bytes : (s : Bytes) → plain s ≡ true → All (λ c. (c ≢ 0) × (c ≢ 10) × (c ≢ b'=')) s
plain_bytes [] h = tt
plain_bytes (c ∷ s) h = elim (Bool-cases (c == 0)) [
  | inl e ↦ absurd (false≢true (rw e at h))
  | inr e ↦ elim (Bool-cases (c == 10)) [
    | inl d ↦ absurd (false≢true (rw (e, d) at h))
    | inr d ↦ elim (Bool-cases (c == b'=')) [
      | inl f ↦ absurd (false≢true (rw (e, d, f) at h))
      | inr f ↦
          ((unequal c 0 e, unequal c 10 d, unequal c b'=' f), plain_bytes s (rw (e, d, f) at h))
    ]
  ]
]

without_equals :
    (s : Bytes) → All (λ c. (c ≢ 0) × (c ≢ 10) × (c ≢ b'=')) s → All (λ c. (c ≢ 0) × (c ≢ 10)) s
without_equals [] h = tt
without_equals (c ∷ s) h = ((h.0.0, h.0.1), without_equals s h.1)

-- A setting whose bytes are all plain.
pub plain_setting :
    (k v : Bytes)
    → plain k ≡ true
    → plain v ≡ true
    → (trim k ≡ k) × (trim v ≡ v)
    → HasStart k
    → length k + length v ≤ 507
    → IsSetting (k, v)
plain_setting k v hk hv t start room = record {
  key_bytes = plain_bytes k hk;
  value_bytes = without_equals v (plain_bytes v hv);
  key_trimmed = t.0;
  value_trimmed = t.1;
  key_start = start;
  fits = room;
}

pub autosync_setting : IsSetting (text "autosync", text "1")
unfolding trim trim_front trim_back is_blank is_blank_or_end is_nil
autosync_setting =
    plain_setting (text "autosync") (text "1") refl refl (refl, refl) (refl, unequal b'a' b'#' refl)
      (omega arith)

pub welcomed_setting : IsSetting (text "welcomed", text "1")
unfolding trim trim_front trim_back is_blank is_blank_or_end is_nil
welcomed_setting =
    plain_setting (text "welcomed") (text "1") refl refl (refl, refl) (refl, unequal b'w' b'#' refl)
      (omega arith)

pub optional-IsSetting :
    (b : Bool) (k v : Bytes) → IsSetting (k, v) → All IsSetting (optional b k v)
optional-IsSetting true k v h = (h, tt)
optional-IsSetting false k v h = tt
