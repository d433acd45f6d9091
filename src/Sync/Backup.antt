-- ===== src/Sync/Backup.antt =====
-- check_not_running, the notices, fill_created_at, pack_title_to and daemoon_sync_backup_local of
-- core/src/sync.c.
use dae_moon.Prelude.{ℕ, Option, none, some, [], ◌∷◌, Bytes, text, ◌==◌, if◌then◌else◌}
use dae_moon.Errors.{Result, ok, err, backend_error, empty_save, either}
use dae_moon.Messages.{StrId, StrRef}
use dae_moon.Util.Copy.{strlcpy}
use dae_moon.Backend.{
  Title, Env, env_validate, or_empty, can_ask_running, can_notify, can_progress, can_read_secure,
}
use dae_moon.Manifest
use dae_moon.Manifest.{Manifest, version_none, timestamp_none}
use dae_moon.Sync.Calls.{
  Save, Stream, write, is_title_running, open_save, close_save, read_secure_value, hash_save, pack,
  fs_open, fs_exists, mkdir_p, rename, remove, stream_close, notify, progress, clock_iso8601,
}
use dae_moon.Sync.Io.{Io, ret, fail, ask, check, attempt, ◌>>=◌, ◌>>◌}
use dae_moon.Sync.Paths.{
  join_path, with_suffix, title_key, backup_leaf, sync_path_max, title_id_max,
}

-- str_ref with one argument
abbrev pub str_ref : StrId → Bytes → StrRef
str_ref id arg = record { id = id; args = arg ∷ [] }

unfoldable pub send_notice : Env → StrId → Bytes → Io (Unit {0})
send_notice env id arg =
    if (can_notify env) then (do ask (notify (str_ref id arg)); ret tt) else (ret tt)

unfoldable pub show_progress : Env → StrId → Io (Unit {0})
show_progress env id =
    if (can_progress env)
    then (do ask (progress (record { id = id; args = [] })); ret tt)
    else (ret tt)

unfoldable pub check_not_running : Env → Title → Io (Unit {0})
check_not_running env title =
    if (can_ask_running env)
    then (do
      answer ← ask (is_title_running title)
      running ← check answer
      if running
          then (do send_notice env StrId.warn_game_running title.name; fail backend_error)
          else (ret tt))
    else (ret tt)

-- daemoon_strlcpy into a field of `cap` bytes.
unfoldable pub copy_field : ℕ → Option Bytes → Io Bytes
copy_field cap src = let copied = strlcpy cap src in check copied.1 >>= λ _. ret copied.0

-- The clock's answer, if it gave one; `none` is the placeholder.
abbrev pub stamp : Result Bytes → Io Bytes
stamp (err e) = copy_field 32 (some timestamp_none)
stamp (ok []) = copy_field 32 (some timestamp_none)
stamp (ok (c ∷ s)) = ret (c ∷ s)

unfoldable pub fill_created_at : Env → Io Bytes
fill_created_at env =
    if env.clock_iso8601
    then (do answer ← ask (clock_iso8601 32); stamp answer)
    else (copy_field 32 (some timestamp_none))

-- The value that the console holds for the title; a failure to read it counts as none.
unfoldable pub recorded_secure_value : Env → Title → Io (Option ℕ)
recorded_secure_value env title =
    if (can_read_secure env)
    then (do
      answer ← ask (read_secure_value title)
      ret (either answer (λ e. none) (λ value. value)))
    else (ret none)

-- The identity of a package, before its payload is known.
unfoldable pub describe : Env → Title → ℕ → Io Manifest
describe env title parent = do
  title_id ← copy_field title_id_max (some title.id)
  label ← copy_field 65 env.device_label
  created ← fill_created_at env
  secure ← recorded_secure_value env title
  ret (record Manifest.init {
    platform = title.platform;
    save_type = title.save_type;
    version = version_none;
    parent_version = parent;
    title_id = title_id;
    device_label = label;
    title_name = (strlcpy 128 (some title.name)).0;
    created_at = created;
    secure_value = secure;
  })

-- daemoon_archive_pack, and the refusal of a package with nothing in it.
unfoldable pub pack_payload : Save → Manifest → Stream → Io Manifest
pack_payload save m f = do
  packed ← ask (pack save m f)
  p ← check packed
  if (p.count == 0)
      then (fail empty_save)
      else (ret (record m { sha256 = p.sha256; size = p.size }))

-- Close the package, keeping an earlier failure.
unfoldable pub close_package : Stream → Result Manifest → Io (Result Manifest)
close_package f (err e) = do ask (stream_close f); ret (err e)
close_package f (ok m) = do
  closed ← ask (stream_close f)
  ret (either closed (λ e. err e) (λ _. ok m))

-- Give the finished package its name, or remove what there is of it.
unfoldable pub publish : Bytes → Bytes → Result Manifest → Io Manifest
publish tmp path (err e) = do ask (remove tmp); fail e
publish tmp path (ok m) = do
  renamed ← ask (rename tmp path)
  either renamed (λ e. do ask (remove tmp); fail e) (λ _. ret m)

unfoldable pub pack_title_to : Env → Title → ℕ → Bytes → Io Manifest
pack_title_to env title parent path = do
  m ← describe env title parent
  tmp ← check (with_suffix sync_path_max path (text ".part"))
  opened ← ask (open_save title)
  save ← check opened
  staged ← ask (fs_open tmp write)
  either staged (λ e. do ask (close_save save); fail e)
      (λ f. do
        packed ← attempt (pack_payload save m f)
        closed ← close_package f packed
        ask (close_save save)
        publish tmp path closed)

-- The name of the backup of what is now in the save: it is made from the content.
unfoldable pub backup_path : Bytes → Title → Bytes → Result Bytes
backup_path dir title hex =
    either (title_key title.platform title.id) (λ e. err e)
      (λ key. either (backup_leaf key hex) (λ e. err e) (λ leaf. join_path dir (some leaf) none))

-- daemoon_sync_backup_local without the copy of the path to the caller.
unfoldable pub backup : Env → Title → Io Bytes
backup env title = do
  check (env_validate env)
  dir ← check (join_path (or_empty env.work_dir) (some (text "backups")) none)
  made ← ask (mkdir_p dir)
  check made
  opened ← ask (open_save title)
  save ← check opened
  hashed ← ask (hash_save save)
  ask (close_save save)
  p ← check hashed
  if (p.count == 0) then (fail empty_save) else (do
    path ← check (backup_path dir title p.sha256)
    there ← ask (fs_exists path)
    if there then (ret path) else (do pack_title_to env title version_none path; ret path))

-- daemoon_sync_backup_local: out_path has room for `path_len` bytes, 0 standing for a NULL pointer.
unfoldable pub backup_local : Env → Title → ℕ → Io Bytes
backup_local env title path_len = do
  path ← backup env title
  if (path_len == 0) then (ret []) else (copy_field path_len (some path))
