-- ===== src/Sync/Transfer.antt =====
-- staging_path, do_upload and do_download of core/src/sync.c.
use dae_moon.Prelude.{ℕ, ◌+◌, Bool, none, some, Bytes, text, if◌then◌else◌}
use dae_moon.Errors.{Result, ok, err, checksum_mismatch, either}
use dae_moon.Messages.{StrId}
use dae_moon.Util.Digest.{hex_equal}
use dae_moon.Backend.{Title, Env, or_empty}
use dae_moon.Manifest.{Manifest}
use dae_moon.Sync.Decide.{LocalState, RemoteMeta}
use dae_moon.Sync.Calls.{
  read, write, read_manifest, api_upload, api_download, fs_open, mkdir_p, rename, remove,
  stream_close,
}
use dae_moon.Sync.Io.{Io, ret, fail, ask, check, attempt, ◌>>=◌, ◌>>◌}
use dae_moon.Sync.Paths.{join_path, title_key, with_suffix, sync_path_max, title_id_max}
use dae_moon.Sync.State.{state_save}
use dae_moon.Sync.Backup.{send_notice, show_progress, copy_field, pack_title_to}
use dae_moon.Sync.Restore.{restore_package}

unfoldable pub staging_path : Env → Title → Io Bytes
staging_path env title = do
  dir ← check (join_path (or_empty env.work_dir) (some (text "tmp")) none)
  made ← ask (mkdir_p dir)
  check made
  key ← check (title_key title.platform title.id)
  leaf ← check (with_suffix (title_id_max + 24) key (text ".zip"))
  check (join_path dir (some leaf) none)

-- Remember what this console is now based on.
unfoldable pub record_base : Env → Title → LocalState → ℕ → Bytes → Io (Unit {0})
record_base env title st version sha256 = do
  digest ← copy_field 65 (some sha256)
  state_save env title.platform title.id
      (record st { base_version = version; base_sha256 = digest })

unfoldable pub do_upload : Env → Title → ℕ → LocalState → Io (Unit {0})
do_upload env title parent st = do
  path ← staging_path env title
  show_progress env StrId.progress_packing
  m ← pack_title_to env title parent path
  show_progress env StrId.progress_uploading
  opened ← ask (fs_open path read)
  either opened (λ e. do ask (remove path); fail e)
      (λ f. do
        sent ← ask (api_upload m f f.size)
        ask (stream_close f)
        ask (remove path)
        issued ← check sent
        record_base env title st issued.latest_version m.sha256)

-- The download into a temporary name, closed.
unfoldable pub fetch : Title → ℕ → Bytes → Io (Unit {0})
fetch title version tmp = do
  opened ← ask (fs_open tmp write)
  f ← check opened
  got ← ask (api_download title.platform title.id version f)
  closed ← ask (stream_close f)
  either got (λ e. do ask (remove tmp); fail e)
      (λ _. either closed (λ e. do ask (remove tmp); fail e) (λ _. ret tt))

-- What the server said it was sending has to match what the package says it is.
unfoldable pub staged_digest : Bytes → Io (Result Manifest)
staged_digest path = do
  opened ← ask (fs_open path read)
  either opened (λ e. ret (err e))
      (λ f. do told ← ask (read_manifest f); ask (stream_close f); ret told)

unfoldable pub refuse_mismatch : Env → Title → Bytes → Io (Unit {0})
refuse_mismatch env title path = do
  send_notice env StrId.verify_failed title.name
  ask (remove path)
  fail checksum_mismatch

unfoldable pub match_digest : Env → Title → Bytes → Bytes → Result Manifest → Io (Unit {0})
match_digest env title path sha256 (ok m) =
    if (hex_equal m.sha256 sha256) then (ret tt) else (refuse_mismatch env title path)
match_digest env title path sha256 (err checksum_mismatch) = refuse_mismatch env title path
match_digest env title path sha256 (err e) = do ask (remove path); fail e

unfoldable pub do_download : Env → Title → RemoteMeta → LocalState → Bool → Io (Unit {0})
do_download env title remote st confirmed = do
  path ← staging_path env title
  tmp ← check (with_suffix sync_path_max path (text ".part"))
  show_progress env StrId.progress_downloading
  fetch title remote.latest_version tmp
  renamed ← ask (rename tmp path)
  either renamed (λ e. do ask (remove tmp); fail e)
      (λ _. do
        told ← staged_digest path
        match_digest env title path remote.sha256 told
        restored ← attempt (restore_package env title path confirmed)
        ask (remove path)
        check restored
        record_base env title st remote.latest_version remote.sha256)
