-- ===== src/Sync/Restore.antt =====
-- restore_package and daemoon_sync_restore_package of core/src/sync.c.
use dae_moon.Prelude.{
  ℕ, Bool, true, false, ◌&&◌, Option, none, some, Bytes, bytes_eq, if◌then◌else◌,
}
use dae_moon.Errors.{
  Result, ok, err, not_found, user_cancelled, checksum_mismatch, invalid_manifest, either,
}
use dae_moon.Messages.{StrId}
use dae_moon.Backend.{Platform, Title, Env, env_validate, can_write_secure, can_clear_secure}
use dae_moon.Manifest.{Manifest}
use dae_moon.Sync.Calls.{
  Save, Stream, read, open_save_write, commit, close_save, write_secure_value, clear_secure_value,
  read_manifest, verify, unpack, fs_open, stream_close, confirm,
}
use dae_moon.Sync.Io.{Io, ret, fail, ask, check, attempt, ◌>>=◌, ◌>>◌}
use dae_moon.Sync.Backup.{str_ref, send_notice, show_progress, check_not_running, backup_local}

-- The one question a restore asks; `confirmed` says that it was asked before.
unfoldable pub ask_restore : Env → Title → Bool → Io (Unit {0})
ask_restore env title true = ret tt
ask_restore env title false = do
  yes_said ← ask (confirm (str_ref StrId.confirm_restore title.name))
  if yes_said then (ret tt) else (fail user_cancelled)

unfoldable pub warn_secure : Env → Title → Io (Unit {0})
warn_secure env title =
    if title.secure_value then (send_notice env StrId.warn_secure_value title.name) else (ret tt)

-- Step 1: the backup, which may be missing only where there is no save.
unfoldable pub accept_backup : Env → Title → Result Bytes → Io (Unit {0})
accept_backup env title (ok path) = ret tt
accept_backup env title (err not_found) = ret tt
accept_backup env title (err e) = do send_notice env StrId.backup_failed title.name; fail e

unfoldable pub backup_first : Env → Title → Io (Unit {0})
backup_first env title = do
  show_progress env StrId.backup_creating
  r ← attempt (backup_local env title 0)
  accept_backup env title r

-- The manifest of an open package whose payload has its digest.
unfoldable pub checked_manifest : Stream → Io (Result Manifest)
checked_manifest pkg = do
  told ← ask (read_manifest pkg)
  either told (λ e. ret (err e))
      (λ m. do verdict ← ask (verify pkg m); ret (either verdict (λ e. err e) (λ _. ok m)))

unfoldable pub report_verdict : Env → Title → Result Manifest → Io Manifest
report_verdict env title (ok m) = ret m
report_verdict env title (err checksum_mismatch) = do
  send_notice env StrId.verify_failed title.name
  fail checksum_mismatch
report_verdict env title (err e) = fail e

unfoldable pub same_platform : Platform → Platform → Bool
same_platform Platform.unknown Platform.unknown = true
same_platform Platform.n3ds Platform.n3ds = true
same_platform Platform.nx Platform.nx = true
same_platform Platform.nds Platform.nds = true
same_platform _ _ = false

-- Whether the package is of this title.
unfoldable pub is_for : Manifest → Title → Bool
is_for m title = same_platform m.platform title.platform && bytes_eq m.title_id title.id

-- Step 2: verify the package against its own manifest, and that it is this title's.
unfoldable pub verify_package : Env → Title → Bytes → Io Manifest
verify_package env title path = do
  show_progress env StrId.progress_verifying
  opened ← ask (fs_open path read)
  pkg ← check opened
  verdict ← checked_manifest pkg
  ask (stream_close pkg)
  m ← report_verdict env title verdict
  if (is_for m title) then (ret m) else (fail invalid_manifest)

unfoldable pub commit_save : Env → Title → Save → Io (Result (Unit {0}))
commit_save env title save = do
  committed ← ask (commit save)
  either committed (λ e. do send_notice env StrId.commit_failed title.name; ret (err e))
      (λ _. ret (ok tt))

-- Close the save, keeping an earlier failure.
unfoldable pub close_written : Save → Result (Unit {0}) → Io (Unit {0})
close_written save r = do closed ← ask (close_save save); either r (λ e. fail e) (λ _. check closed)

-- Step 3: write, then commit, and treat a failed commit as a failed restore.
unfoldable pub write_save : Env → Title → Bytes → Io (Unit {0})
write_save env title path = do
  show_progress env StrId.progress_unpacking
  opened ← ask (fs_open path read)
  pkg ← check opened
  target ← ask (open_save_write title)
  either target (λ e. do ask (stream_close pkg); fail e)
      (λ save. do
        unpacked ← ask (unpack pkg save)
        ask (stream_close pkg)
        either unpacked (λ e. close_written save (err e))
            (λ _. do r ← commit_save env title save; close_written save r))

unfoldable pub warn_unless : Env → Title → Result (Unit {0}) → Io (Unit {0})
warn_unless env title (ok _) = ret tt
warn_unless env title (err e) = send_notice env StrId.warn_secure_value title.name

-- Step 4: put back the value that this save was bound to, or remove the console's.
unfoldable pub restore_secure_value : Env → Title → Option ℕ → Io (Unit {0})
restore_secure_value env title (some v) =
    if (can_write_secure env)
    then (do r ← ask (write_secure_value title v); warn_unless env title r)
    else (ret tt)
restore_secure_value env title none =
    if (can_clear_secure env)
    then (do r ← ask (clear_secure_value title); warn_unless env title r)
    else (ret tt)

unfoldable pub restore_package : Env → Title → Bytes → Bool → Io (Unit {0})
restore_package env title path confirmed = do
  check (env_validate env)
  check_not_running env title
  warn_secure env title
  ask_restore env title confirmed
  backup_first env title
  m ← verify_package env title path
  write_save env title path
  restore_secure_value env title m.secure_value

-- daemoon_sync_restore_package: the published entry point always asks.
unfoldable pub sync_restore_package : Env → Title → Bytes → Io (Unit {0})
sync_restore_package env title path = restore_package env title path false
