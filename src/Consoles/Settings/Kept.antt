-- ===== src/Consoles/Settings/Kept.antt =====
-- Settings that platform/3ds/source/config.c has written, read back.
use dae_moon.Prelude.{
  ◌≡◌, refl, sym, ap, ◌∙◌, Bool, true, false, ◌&&◌, not, some, List, [], ◌∷◌, ◌++◌, Bytes, text,
  bytes_eq, append_assoc, All, All-append, if◌then◌else◌,
}
use dae_moon.Errors.{Result, ok, err, either}
use dae_moon.Util.Utf8.{valid}
use dae_moon.Util.Sha256.Chunks.{joined}
use dae_moon.Archive.{path_max}
use dae_moon.Api.Request.{token_max}
use dae_moon.Consoles.Config.{is_nil, config_read_lines}
use dae_moon.Consoles.Config.Lines.{
  setting_line, settings_text, IsSetting, config_read_lines-settings_text,
}
use dae_moon.Consoles.Settings.{
  Settings, config_defaults, drop_slashes, starts_with_one, set_label, set_code, config_pair,
  config_pairs, config_load, optional, optional_settings, lines_of, config_prints,
}
use dae_moon.Consoles.Settings.Storable.{
  IsStorable, Reads, copied_fits, then_reads, optional-Reads, joined-lines_of, empty_or, shown,
  written_token, no_token, autosync_setting, welcomed_setting, optional-IsSetting,
}

-- What is written is read, but for a token that is not to be on the card.
abbrev pub on_card : Settings → Settings
on_card cfg = record cfg {
  token = if cfg.token_on_card then cfg.token else [];
  token_on_card = false;
}

-- Settings that were read so far.
abbrev stage : Bytes → Bytes → Bytes → Bytes → Bytes → Bytes → Bool → Bool → Settings
stage url label token device lang bundle autosync welcomed = record {
  server_url = url;
  token = token;
  device_label = label;
  ca_bundle = bundle;
  device_id = device;
  token_on_card = false;
  language = lang;
  welcomed = welcomed;
  autosync = autosync;
}

module _ (cfg : Settings) (h : IsStorable cfg) where
  abbrev card_token : Bytes
  card_token = if cfg.token_on_card then cfg.token else []

  abbrev after_label : Settings
  after_label = stage cfg.server_url cfg.device_label [] [] [] [] false false

  abbrev after_token : Settings
  after_token = stage cfg.server_url cfg.device_label card_token [] [] [] false false

  abbrev after_device : Settings
  after_device = stage cfg.server_url cfg.device_label card_token cfg.device_id [] [] false false

  abbrev after_language : Settings
  after_language =
      stage cfg.server_url cfg.device_label card_token cfg.device_id cfg.language [] false false

  abbrev after_autosync : Settings
  after_autosync =
      stage cfg.server_url cfg.device_label card_token cfg.device_id cfg.language [] cfg.autosync
        false

  abbrev after_welcomed : Settings
  after_welcomed =
      stage cfg.server_url cfg.device_label card_token cfg.device_id cfg.language [] cfg.autosync
        cfg.welcomed

  read_server :
      config_pair config_defaults (text "server", cfg.server_url)
      ≡ stage cfg.server_url (text "3DS") [] [] [] [] false false
  unfolding config_pair bytes_eq
  read_server =
      ap (λ s. stage s (text "3DS") [] [] [] [] false false)
        (ap drop_slashes (copied_fits 256 cfg.server_url h.server_fits) ∙ h.no_slash)

  label_kept : not (is_nil cfg.device_label) && valid cfg.device_label ≡ true
  label_kept = rw (h.label_shown, h.label_valid) refl

  read_label :
      config_pair
        (stage cfg.server_url (text "3DS") [] [] [] [] false false)
        (text "label", cfg.device_label)
      ≡ after_label
  unfolding config_pair bytes_eq
  read_label =
      ap (set_label (stage cfg.server_url (text "3DS") [] [] [] [] false false) cfg.device_label)
        label_kept
      ∙ ap (λ s. stage cfg.server_url s [] [] [] [] false false)
          (copied_fits 65 cfg.device_label h.label_fits)

  read_token :
      Reads after_label
        (optional (cfg.token_on_card && not (is_nil cfg.token)) (text "token") cfg.token)
        (after_token)
  unfolding config_pair bytes_eq
  read_token =
      optional-Reads _ (text "token") cfg.token _ _
        (λ w.
          ap (λ s. stage cfg.server_url cfg.device_label s [] [] [] false false)
            (copied_fits token_max cfg.token h.token_fits
              ∙ written_token cfg.token_on_card cfg.token w))
        (λ w.
          ap (λ s. stage cfg.server_url cfg.device_label s [] [] [] false false)
            (no_token cfg.token_on_card cfg.token w))

  read_device :
      Reads after_token
        (optional (not (is_nil cfg.device_id)) (text "device") cfg.device_id)
        (after_device)
  unfolding config_pair bytes_eq
  read_device =
      optional-Reads _ (text "device") cfg.device_id _ _
        (λ w. ap with_device (copied_fits 65 cfg.device_id h.device_fits))
        (λ w. ap with_device (empty_or cfg.device_id w))
    where
      with_device : Bytes → Settings
      with_device s = stage cfg.server_url cfg.device_label card_token s [] [] false false

  read_language :
      Reads after_device
        (optional (not (is_nil cfg.language)) (text "language") cfg.language)
        (after_language)
  unfolding config_pair bytes_eq
  read_language =
      optional-Reads _ (text "language") cfg.language _ _
        (λ w.
          let (lang, known) = h.language_known (shown _ w) in
          ap (set_code after_device cfg.language) known
          ∙ ap with_language (copied_fits 12 cfg.language h.language_fits))
        (λ w. ap with_language (empty_or cfg.language w))
    where
      with_language : Bytes → Settings
      with_language s =
          stage cfg.server_url cfg.device_label card_token cfg.device_id s [] false false

  read_autosync :
      Reads after_language (optional cfg.autosync (text "autosync") (text "1")) (after_autosync)
  unfolding config_pair bytes_eq starts_with_one
  read_autosync =
      optional-Reads cfg.autosync (text "autosync") (text "1") _ _ (λ w. ap with_autosync (sym w))
        (λ w. ap with_autosync (sym w))
    where
      with_autosync : Bool → Settings
      with_autosync b =
          stage cfg.server_url cfg.device_label card_token cfg.device_id cfg.language [] b false

  read_welcomed :
      Reads after_autosync (optional cfg.welcomed (text "welcomed") (text "1")) (after_welcomed)
  unfolding config_pair bytes_eq starts_with_one
  read_welcomed =
      optional-Reads cfg.welcomed (text "welcomed") (text "1") _ _ (λ w. ap with_welcomed (sym w))
        (λ w. ap with_welcomed (sym w))
    where
      with_welcomed : Bool → Settings
      with_welcomed b =
          stage cfg.server_url cfg.device_label card_token cfg.device_id cfg.language []
            cfg.autosync b

  read_bundle :
      Reads after_welcomed
        (optional (not (is_nil cfg.ca_bundle)) (text "ca_bundle") cfg.ca_bundle)
        (on_card cfg)
  unfolding config_pair bytes_eq
  read_bundle =
      optional-Reads _ (text "ca_bundle") cfg.ca_bundle _ _
        (λ w. ap with_bundle (copied_fits path_max cfg.ca_bundle h.bundle_fits))
        (λ w. ap with_bundle (empty_or cfg.ca_bundle w))
    where
      with_bundle : Bytes → Settings
      with_bundle s =
          stage cfg.server_url cfg.device_label card_token cfg.device_id cfg.language s cfg.autosync
            cfg.welcomed

  all_settings : List (Bytes × Bytes)
  all_settings =
      (text "server", cfg.server_url) ∷ (text "label", cfg.device_label) ∷ optional_settings cfg

  optional_settings-IsSetting : All IsSetting (optional_settings cfg)
  optional_settings-IsSetting =
      All-append IsSetting
        (optional (cfg.token_on_card && not (is_nil cfg.token)) (text "token") cfg.token) _
        (optional-IsSetting _ (text "token") cfg.token h.token)
        (All-append IsSetting (optional (not (is_nil cfg.device_id)) (text "device") cfg.device_id)
          _ (optional-IsSetting _ (text "device") cfg.device_id h.device)
          (All-append IsSetting
            (optional (not (is_nil cfg.language)) (text "language") cfg.language) _
            (optional-IsSetting _ (text "language") cfg.language h.language)
            (All-append IsSetting (optional cfg.autosync (text "autosync") (text "1")) _
              (optional-IsSetting cfg.autosync (text "autosync") (text "1") autosync_setting)
              (All-append IsSetting (optional cfg.welcomed (text "welcomed") (text "1")) _
                (optional-IsSetting cfg.welcomed (text "welcomed") (text "1") welcomed_setting)
                (optional-IsSetting _ (text "ca_bundle") cfg.ca_bundle h.bundle)))))

  joined-config_prints : joined (config_prints cfg) ≡ settings_text all_settings
  unfolding config_prints all_settings
  joined-config_prints =
      let server = setting_line (text "server", cfg.server_url) in
      let label = setting_line (text "label", cfg.device_label) in
      append_assoc server label (joined (lines_of (optional_settings cfg)))
      ∙ ap (λ s. server ++ (label ++ s)) (joined-lines_of (optional_settings cfg))

  all_read : config_pairs config_defaults all_settings ≡ on_card cfg
  unfolding all_settings config_pairs
  all_read =
      ap
        (λ c. config_pairs (config_pair c (text "label", cfg.device_label)) (optional_settings cfg))
        read_server
      ∙ ap (λ c. config_pairs c (optional_settings cfg)) read_label
      ∙ others.comes_to
    where
      others : Reads after_label (optional_settings cfg) (on_card cfg)
      others = then_reads read_token (
          then_reads read_device (
            then_reads read_language
              (then_reads read_autosync (then_reads read_welcomed read_bundle))))

-- Settings are read back from the file as they were written, but for a token that is kept off the card, which
-- is read back empty, and for the mark that it is on it, if each of them, the token in any case, fits
-- into its array, has no NUL and no line end in it and no blank around it, and comes to 507 bytes at
-- most with its key, the address has no slash at its end, the label is a valid text and not empty, and
-- the language is empty or one that has a code.
pub config_load-config_prints :
    (cfg : Settings)
    → IsStorable cfg
    → config_load (some (joined (config_prints cfg))) ≡ (on_card cfg, ok tt)
unfolding config_load
config_load-config_prints cfg h =
    let loaded = λ (r : Result (List (Bytes × Bytes))).
      either r (λ e. (config_defaults, err e))
        (λ pairs. (config_pairs config_defaults pairs, ok tt)) in
    ap (λ t. loaded (config_read_lines (some t))) (joined-config_prints cfg h)
    ∙ ap loaded (
        config_read_lines-settings_text (all_settings cfg h)
          (unfold all_settings in (h.server, (h.label, optional_settings-IsSetting cfg h))))
    ∙ ap (λ c. (c, ok tt)) (all_read cfg h)
