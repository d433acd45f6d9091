-- ===== src/Messages.antt =====
-- The message ids of core/include/daemoon/str_ids.h, and daemoon_str_ref_t of
-- core/include/daemoon/backend.h.
use dae_moon.Prelude.{List, Bytes}

pub data StrId : Type 0 where
  app_title autosync_cancelled autosync_left autosync_network autosync_no_network : StrId
  autosync_nothing autosync_returning autosync_starting autosync_title backup_clock_note : StrId
  backup_creating backup_deleted backup_failed backup_list backup_no_date backup_none : StrId
  backup_same_as_console batch_backup batch_backup_done batch_backup_hint : StrId
  batch_confirm_backup batch_confirm_sync batch_confirm_sync_server batch_empty batch_hint : StrId
  batch_hint_running batch_policy batch_policy_ask batch_policy_ask_hint : StrId
  batch_policy_local batch_policy_local_hint batch_policy_server batch_policy_server_hint : StrId
  batch_running batch_stopped batch_sync batch_sync_hint batch_title btn_back btn_cancel : StrId
  btn_exit btn_no btn_ok btn_open btn_yes commit_failed confirm_backup : StrId
  confirm_delete_backup confirm_restore confirm_upload conflict_explain conflict_keep_both : StrId
  conflict_keep_local conflict_keep_server conflict_title err_archive_error : StrId
  err_backend_error err_buffer_too_small err_checksum_mismatch err_device_revoked : StrId
  err_empty_save err_forbidden err_internal_error err_invalid_manifest err_invalid_request : StrId
  err_io_error err_network_error err_no_server err_no_space err_not_found : StrId
  err_out_of_memory err_pairing_expired err_pairing_pending err_parse_error : StrId
  err_rate_limited err_save_too_large err_share_expired err_timeout err_title_list : StrId
  err_tls_error err_unauthorized err_unsupported err_unsupported_platform : StrId
  err_user_cancelled err_version_conflict grid_empty grid_nothing_selected grid_saves : StrId
  hint_backups hint_choose hint_continue hint_edit hint_exit_app hint_grid lang_name : StrId
  lib_3ds lib_nds loading_backups loading_icons loading_titles menu_backup menu_batch : StrId
  menu_restore menu_selftest menu_settings menu_survey menu_sync nx_account nx_no_account : StrId
  nx_reload op_backup op_restore op_secure_value op_survey op_sync pair_aim pair_done : StrId
  pair_enter_code pair_no_camera pair_no_server pair_scan pair_switch pair_title : StrId
  pair_wrong_code progress_downloading progress_packing progress_unpacking : StrId
  progress_uploading progress_verifying report_failed report_ok selftest_no_archive : StrId
  selftest_self selftest_warning settings_autosync settings_label settings_language : StrId
  settings_language_auto settings_no_font settings_off settings_on settings_save_failed : StrId
  settings_saved settings_server settings_survey settings_survey_hint settings_title : StrId
  settings_token settings_unset settings_welcome sync_action_conflict sync_action_download : StrId
  sync_action_none sync_action_upload sync_done sync_result sync_up_to_date : StrId
  title_no_secure_value title_secure_value update_available update_downloading : StrId
  update_installed update_title verify_failed warn_applet_mode warn_game_running : StrId
  warn_secure_value welcome_connect welcome_connect_how welcome_hint_choose : StrId
  welcome_hint_intro welcome_later welcome_opt_code welcome_opt_code_hint : StrId
  welcome_opt_later welcome_opt_later_hint welcome_opt_qr welcome_opt_qr_hint : StrId
  welcome_ready welcome_safe welcome_title welcome_what welcome_when : StrId

pub record StrRef : Type 0 where
  pub id : StrId
  pub args : List Bytes
