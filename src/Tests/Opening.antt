-- ===== src/Tests/Opening.antt =====
-- What the unattended client does in these surroundings.
use dae_moon.Prelude.{◌≡◌, refl, [], ◌∷◌, drop, true, bytes_eq}
use dae_moon.Errors.{ok}
use dae_moon.Sync.State.{
  read_walk, state_fields, state_load, state_text, state_save, scan_save, scan_opened, scan_local,
}
use dae_moon.Sync.Backup.{
  send_notice, show_progress, check_not_running, copy_field, fill_created_at, recorded_secure_value,
  describe, pack_payload, close_package, publish, pack_title_to, backup_path, backup, backup_local,
}
use dae_moon.Sync.Restore.{
  ask_restore, warn_secure, accept_backup, backup_first, checked_manifest, report_verdict,
  same_platform, is_for, verify_package, commit_save, close_written, write_save, warn_unless,
  restore_secure_value, restore_package, sync_restore_package,
}
use dae_moon.Sync.Transfer.{
  staging_path, record_base, do_upload, fetch, staged_digest, refuse_mismatch, match_digest,
  do_download,
}
use dae_moon.Sync.Run.{
  ask_conflict, choice_of, is_deferred, is_keep_local, resolve_conflict, leave, run_nothing,
  ask_upload, after_upload, run_upload, run_download, run_conflict, run_action, survey,
  after_survey, sync_title_with, sync_title,
}
use dae_moon.Sync.Paths.{join_path, title_key, with_suffix, state_path, backup_leaf}
use dae_moon.Sync.Decide.{local_dirty, decide}
use dae_moon.Backend.{
  is_blank, scratch_usable, save_usable, fs_usable, ui_usable, env_validate, can_ask_running,
  can_read_secure, can_write_secure, can_clear_secure, can_notify, can_progress, or_empty,
}
use dae_moon.Backend.Names.{platform_name, platform_parse, save_type_name, save_type_parse}
use dae_moon.Util.Strbuf.{
  init, addn, add, addc, digits_before, uint_text, add_uint, hex_digit, add_json_byte, add_json,
  unreserved, upper_hex_digit, add_urlenc, result,
}
use dae_moon.Util.Digest.{hex, is_end, hex_equal_walk, hex_equal}
use dae_moon.Util.Copy.{strlcpy}
use dae_moon.Sync.Io.{◌>>=◌, ask, check, attempt, run}
use dae_moon.Util.Utf8.{
  lead, continuation, is_refused, accept, seq_from, seq_len, step_len, valid_walk, valid,
  length_walk, length_utf8, decode, truncate_walk, truncate, announced, trim_walk, trim_partial,
  cp_width, width_walk, width,
}
use dae_moon.Sync.Options.{Opts, Policy}
use dae_moon.Sync.Calls.{open_save_write}
use dae_moon.Sync.Guard.{IsReady}
use dae_moon.Sync.Promise.{sync_open_save_write-IsReady}
use dae_moon.Sync.Io.{History, event}
use dae_moon.Tests.World.{game, console, world, no_tokens, zero_stats}

abbrev unattended : Opts
unattended = record {
  conflict = Policy.keep_server;
  upload_confirmed = true;
  restore_confirmed = true;
}

abbrev past : History
past = (run world (sync_title_with no_tokens console game unattended zero_stats) []).1

opens : drop 11 past ≡ event (open_save_write game) (ok (record { handle = 3 })) ∷ drop 12 past
unfolding bytes_eq read_walk state_fields state_load state_text state_save scan_save scan_opened
    scan_local send_notice show_progress check_not_running copy_field fill_created_at
    recorded_secure_value describe pack_payload close_package publish pack_title_to backup_path
    backup backup_local ask_restore warn_secure accept_backup backup_first checked_manifest
    report_verdict same_platform is_for verify_package commit_save close_written write_save
    warn_unless restore_secure_value restore_package sync_restore_package staging_path record_base
    do_upload fetch staged_digest refuse_mismatch match_digest do_download ask_conflict choice_of
    is_deferred is_keep_local resolve_conflict leave run_nothing ask_upload after_upload run_upload
    run_download run_conflict run_action survey after_survey sync_title_with sync_title join_path
    title_key with_suffix state_path backup_leaf local_dirty decide is_blank scratch_usable
    save_usable fs_usable ui_usable env_validate can_ask_running can_read_secure can_write_secure
    can_clear_secure can_notify can_progress or_empty platform_name platform_parse save_type_name
    save_type_parse init addn add addc digits_before uint_text add_uint hex_digit add_json_byte
    add_json unreserved upper_hex_digit add_urlenc result hex is_end hex_equal_walk hex_equal
    strlcpy ◌>>=◌ ask check attempt run lead continuation is_refused accept seq_from seq_len
    step_len valid_walk valid length_walk length_utf8 decode truncate_walk truncate announced
    trim_walk trim_partial cp_width width_walk width
opens = refl

sync_open_save_write-IsReady_example : IsReady true game (drop 12 past)
sync_open_save_write-IsReady_example =
    sync_open_save_write-IsReady world no_tokens console game unattended zero_stats 11 game
      (ok (record { handle = 3 })) (drop 12 past) opens
