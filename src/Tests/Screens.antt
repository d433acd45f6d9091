-- ===== src/Tests/Screens.antt =====
-- The theorems about core/src/i18n.c and the consoles' clients, at concrete inputs.
use dae_moon.Prelude.{
  ◌≡◌, refl, Bool, true, false, Option, none, some, List, [], ◌∷◌, Bytes, text, ltb, length,
  if◌then◌else◌, arith,
}
use dae_moon.Errors.{ok, err, buffer_too_small}
use dae_moon.Messages.{StrId}
use dae_moon.I18n.Languages.{LangTable, str_in, str}
use dae_moon.I18n.Languages.{language_from_code, code_eq_ci, ascii_lower, matching_code, or_chinese}
use dae_moon.Util.Utf8.{valid, valid_walk, step_len, seq_len}
use dae_moon.Util.Sha256.Chunks.{joined}
use dae_moon.Consoles.Config.{trim, trim_front, trim_back, is_blank, is_blank_or_end, is_nil}
use dae_moon.Consoles.Settings.{Settings, drop_slashes, config_prints, config_load}
use dae_moon.Consoles.Settings.Storable.{IsStorable, plain_setting, unequal}
use dae_moon.Consoles.Settings.Kept.{config_load-config_prints}
use dae_moon.I18n.Format.{strf}
use dae_moon.I18n.Pieces.{Piece, template, sentence, shortened, strf-sentence}
use dae_moon.Consoles.TitleId.{
  format_title_id, nx_format_title_id, parse_title_id, nx_parse_title_id,
}
use dae_moon.Consoles.TitleId.Spelling.{parse_title_id-format_title_id}
use dae_moon.Consoles.Backups.{BackupRow, sort_rows}
use dae_moon.Consoles.Backups.Order.{IsOrdered, count, sort_rows-IsOrdered}

abbrev table : LangTable
table lang id = some (text "{1}: {0}{{")

abbrev pieces : List Piece
pieces = Piece.slot 1 ∷ Piece.byte b':' ∷ Piece.byte b' ' ∷ Piece.slot 0 ∷ Piece.brace ∷ []

abbrev arguments : List (Option Bytes)
arguments = some (text "b") ∷ none ∷ []

table-str : str table 1 (some StrId.sync_result) ≡ template pieces
unfolding str str_in
table-str = refl

strf-sentence_example : strf 64 table 1 (some StrId.sync_result) arguments ≡ (
    if ltb (length (sentence arguments pieces)) 64
    then (sentence arguments pieces, ok tt)
    else (shortened 64 (sentence arguments pieces), err buffer_too_small))
strf-sentence_example =
    strf-sentence 64 table 1 (some StrId.sync_result) arguments pieces table-str (
      omega arith,
      (λ e. absurd (omega (arith, e)), (λ e. absurd (omega (arith, e)), (omega arith, (tt, tt)))),
    )

parse_title_id-format_title_id_example :
    (format_title_id 33 0x4000000cafe ≡ nx_format_title_id 33 0x4000000cafe)
    × (parse_title_id (some (format_title_id 33 0x4000000cafe)) ≡ ok 0x4000000cafe)
    × (nx_parse_title_id (some (nx_format_title_id 33 0x4000000cafe)) ≡ ok 0x4000000cafe)
parse_title_id-format_title_id_example =
    parse_title_id-format_title_id 33 0x4000000cafe (omega arith) (omega arith)

abbrev row : Bytes → Bytes → Bool → BackupRow
row name date readable = record {
  name = name;
  size = 1;
  created_at = date;
  device_label = text "3DS";
  sha256 = [];
  readable = readable;
  is_current = false;
}

abbrev rows : List BackupRow
rows =
    row (text "a") [] false
    ∷ row (text "b") (text "2026-01-02T00:00:00Z") true
    ∷ row (text "c") (text "2026-02-02T00:00:00Z") true
    ∷ []

sort_rows-IsOrdered_example :
    IsOrdered (sort_rows rows) × ((p : BackupRow → Bool) → count p (sort_rows rows) ≡ count p rows)
sort_rows-IsOrdered_example = sort_rows-IsOrdered rows

abbrev stored : Settings
stored = record {
  server_url = text "http://192.168.0.2:8080";
  token = text "t0ken";
  device_label = text "3DS";
  ca_bundle = [];
  device_id = text "d1";
  token_on_card = false;
  language = text "ko";
  welcomed = true;
  autosync = false;
}

stored-IsStorable : IsStorable stored
unfolding trim trim_front trim_back is_blank is_blank_or_end is_nil drop_slashes valid valid_walk
    step_len seq_len language_from_code code_eq_ci ascii_lower matching_code or_chinese
stored-IsStorable = record {
  server =
      plain_setting (text "server") stored.server_url refl refl (refl, refl)
        (refl, unequal b's' b'#' refl) (omega arith);
  server_fits = omega arith;
  no_slash = refl;
  label =
      plain_setting (text "label") stored.device_label refl refl (refl, refl)
        (refl, unequal b'l' b'#' refl) (omega arith);
  label_fits = omega arith;
  label_shown = refl;
  label_valid = refl;
  token =
      plain_setting (text "token") stored.token refl refl (refl, refl)
        (refl, unequal b't' b'#' refl) (omega arith);
  token_fits = omega arith;
  device =
      plain_setting (text "device") stored.device_id refl refl (refl, refl)
        (refl, unequal b'd' b'#' refl) (omega arith);
  device_fits = omega arith;
  language =
      plain_setting (text "language") stored.language refl refl (refl, refl)
        (refl, unequal b'l' b'#' refl) (omega arith);
  language_fits = omega arith;
  language_known = λ e. (1, refl);
  bundle =
      plain_setting (text "ca_bundle") stored.ca_bundle refl refl (refl, refl)
        (refl, unequal b'c' b'#' refl) (omega arith);
  bundle_fits = omega arith;
}

config_load-config_prints_example :
    config_load (some (joined (config_prints stored))) ≡ (record stored { token = [] }, ok tt)
config_load-config_prints_example = config_load-config_prints stored stored-IsStorable
