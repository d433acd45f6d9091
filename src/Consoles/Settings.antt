-- ===== src/Consoles/Settings.antt =====
-- platform/3ds/source/config.c: the settings of a console, and the file that they are kept in.
pub mod Storable
pub mod Kept
use dae_moon.Prelude.{
  ℕ, zero, suc, ◌==◌, Bool, true, false, ◌&&◌, not, Option, none, some, List, [], ◌∷◌, ◌++◌, Bytes,
  text, bytes_eq, if◌then◌else◌,
}
use dae_moon.Errors.{Code, Result, ok, err, either, io_error}
use dae_moon.Util.Strbuf
use dae_moon.Util.Strbuf.{add, result}
use dae_moon.Util.Utf8.{valid}
use dae_moon.Util.Copy.{strlcpy}
use dae_moon.Archive.{path_max}
use dae_moon.Api.Request.{token_max}
use dae_moon.I18n.Languages.{language_from_code}
use dae_moon.Consoles.Config.{is_nil, config_read_lines}
use dae_moon.Consoles.Config.Lines.{setting_line}

-- daemoon_3ds_config_t
pub record Settings : Type 0 where
  pub server_url : Bytes
  pub token : Bytes
  pub device_label : Bytes
  pub ca_bundle : Bytes
  pub device_id : Bytes
  pub token_on_card : Bool
  pub language : Bytes
  pub welcomed : Bool
  pub autosync : Bool

-- daemoon_3ds_config_defaults
abbrev pub config_defaults : Settings
config_defaults = record {
  server_url = [];
  token = [];
  device_label = text "3DS";
  ca_bundle = [];
  device_id = [];
  token_on_card = false;
  language = [];
  welcomed = false;
  autosync = false;
}

-- daemoon_strlcpy, of which only what it leaves in the buffer counts.
abbrev pub copied : ℕ → Bytes → Bytes
copied cap s = (strlcpy cap (some s)).0

-- The loop that drops the slashes at the end of an address.
unfoldable pub drop_slashes : Bytes → Bytes
unfolding is_nil
drop_slashes [] = []
drop_slashes (c ∷ s) =
    let rest = drop_slashes s in if c == b'/' && is_nil rest then [] else c ∷ rest

unfoldable pub starts_with_one : Bytes → Bool
starts_with_one [] = false
starts_with_one (c ∷ s) = c == b'1'

-- A label is kept only if it is a text that shows.
abbrev pub set_label : Settings → Bytes → Bool → Settings
set_label cfg value true = record cfg { device_label = copied 65 value }
set_label cfg value false = cfg

-- A language is kept only if its code is known.
abbrev pub set_code : Settings → Bytes → Result ℕ → Settings
set_code cfg value (ok lang) = record cfg { language = copied 12 value }
set_code cfg value (err e) = cfg

-- config_pair
unfoldable pub config_pair : Settings → Bytes × Bytes → Settings
unfolding strlcpy drop_slashes starts_with_one is_nil valid language_from_code bytes_eq
config_pair cfg (key, value) =
    if bytes_eq key (text "server")
    then record cfg { server_url = drop_slashes (copied 256 value) }
    else if bytes_eq key (text "token")
    then record cfg { token = copied token_max value }
    else if bytes_eq key (text "label")
    then set_label cfg value (not (is_nil value) && valid value)
    else if bytes_eq key (text "device")
    then record cfg { device_id = copied 65 value }
    else if bytes_eq key (text "language")
    then set_code cfg value (language_from_code (some value))
    else if bytes_eq key (text "autosync")
    then record cfg { autosync = starts_with_one value }
    else if bytes_eq key (text "welcomed")
    then record cfg { welcomed = starts_with_one value }
    else if bytes_eq key (text "ca_bundle")
    then record cfg { ca_bundle = copied path_max value }
    else cfg

unfoldable pub config_pairs : Settings → List (Bytes × Bytes) → Settings
unfolding config_pair
config_pairs cfg [] = cfg
config_pairs cfg (kv ∷ pairs) = config_pairs (config_pair cfg kv) pairs

-- daemoon_3ds_config_load; `none` is a file that cannot be opened.
unfoldable pub config_load : Option Bytes → Settings × Result (Unit {0})
unfolding config_read_lines config_pairs
config_load file =
    either (config_read_lines file) (λ e. (config_defaults, err e))
      (λ pairs. (config_pairs config_defaults pairs, ok tt))

-- A setting that is written only where it is needed.
abbrev pub optional : Bool → Bytes → Bytes → List (Bytes × Bytes)
optional true key value = (key, value) ∷ []
optional false key value = []

-- The settings behind the first two that daemoon_3ds_config_save writes.
abbrev pub optional_settings : Settings → List (Bytes × Bytes)
optional_settings cfg =
    optional (cfg.token_on_card && not (is_nil cfg.token)) (text "token") cfg.token
    ++ (optional (not (is_nil cfg.device_id)) (text "device") cfg.device_id
        ++ (optional (not (is_nil cfg.language)) (text "language") cfg.language
            ++ (optional cfg.autosync (text "autosync") (text "1")
                ++ (optional cfg.welcomed (text "welcomed") (text "1")
                    ++ optional (not (is_nil cfg.ca_bundle)) (text "ca_bundle") cfg.ca_bundle))))

-- The text of each call of fprintf, the first of which writes two settings.
abbrev lines_of : List (Bytes × Bytes) → List Bytes
lines_of [] = []
lines_of (kv ∷ settings) = setting_line kv ∷ lines_of settings

unfoldable pub config_prints : Settings → List Bytes
unfolding is_nil
config_prints cfg =
    (setting_line (text "server", cfg.server_url) ++ setting_line (text "label", cfg.device_label))
    ∷ lines_of (optional_settings cfg)

-- What the C library does with files: fopen for writing, fprintf and fclose, and whether each succeeds; remove;
-- and rename.
pub record StdFiles (F : Type 0) : Type 0 where
  pub create : F → Bytes → F × Bool
  pub print : F → Bytes → F × Bool
  pub close : F → F × Bool
  pub remove : F → Bytes → F
  pub rename : F → Bytes → Bytes → F × Bool

module _ {F : Type 0} (std : StdFiles F) where
  -- The calls of fprintf, up to one that fails.
  unfoldable pub print_all : F → List Bytes → F × Bool
  print_all fs [] = (fs, true)
  print_all fs (t ∷ prints) =
      let (fs', done) = std.print fs t in
      let rest = print_all fs' prints in if done then rest else (fs', false)

  -- Behind fclose.
  unfoldable pub replace_file : F → Bytes → Bytes → Bool → F × Result (Unit {0})
  replace_file fs temp path false = (std.remove fs temp, err io_error)
  replace_file fs temp path true =
      let (fs', done) = std.rename (std.remove fs path) temp path in
      if done then (fs', ok tt) else (std.remove fs' temp, err io_error)

  -- Behind fopen.
  unfoldable pub write_file : F × Bool → Bytes → Bytes → List Bytes → F × Result (Unit {0})
  unfolding print_all replace_file
  write_file (fs, false) temp path prints = (fs, err io_error)
  write_file (fs, true) temp path prints =
      let (fs', printed) = print_all fs prints in
      let (fs'', closed) = std.close fs' in replace_file fs'' temp path (closed && printed)

  -- daemoon_3ds_config_save
  unfoldable pub config_save : F → Bytes → Settings → F × Result (Unit {0})
  unfolding write_file config_prints Strbuf.init add result
  config_save fs path cfg =
      either (result (add (add (Strbuf.init path_max) path) (text ".tmp"))) (λ e. (fs, err e))
        (λ temp. write_file (std.create fs temp) temp path (config_prints cfg))

-- daemoon_3ds_config_can_sync
unfoldable pub config_can_sync : Settings → Bool
unfolding is_nil
config_can_sync cfg = not (is_nil cfg.server_url) && not (is_nil cfg.token)
