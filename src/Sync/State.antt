-- ===== src/Sync/State.antt =====
-- daemoon_sync_state_load, daemoon_sync_state_save and daemoon_sync_scan_local of core/src/sync.c:
-- the record of the last successful sync, and the inspection of the console's side.
use dae_moon.Prelude.{
  ℕ, zero, suc, ◌-◌, true, false, none, some, List, [], ◌++◌, Bytes, text, length, leb,
  if◌then◌else◌,
}
use dae_moon.Errors.{Result, ok, err, parse_error, internal_error, not_found, either}
use dae_moon.Util.Strbuf.{init, add, add_json, add_uint, result}
use dae_moon.Util.Digest.{is_end}
use dae_moon.Util.Json.{Tokenize, Token, json_parse, get_uint}
use dae_moon.Util.Json.Strings.{get_str}
use dae_moon.Backend.{Platform, Title, Env, or_empty}
use dae_moon.Backend.Names.{platform_name}
use dae_moon.Manifest.{version_none}
use dae_moon.Sync.Decide.{LocalState}
use dae_moon.Sync.Calls.{
  Stream, Save, read, write, stream_read, stream_write, stream_close, fs_exists, fs_open, mkdir_p,
  rename, remove, open_save, hash_save, close_save,
}
use dae_moon.Sync.Io.{Io, ret, fail, ask, check, ◌>>=◌, ◌>>◌}
use dae_moon.Sync.Paths.{join_path, with_suffix, state_path, sync_path_max}

-- sizeof(json) - 1, with SYNC_STATE_MAX_BYTES
abbrev pub state_room : ℕ
state_room = 511

-- The reading loop. Every round that goes on has read one byte at least and the loop stops at
-- `state_room`, so that many rounds and one suffice.
unfoldable pub read_walk : ℕ → Stream → Bytes → Io Bytes
read_walk zero f so_far = fail internal_error
read_walk (suc fuel) f so_far = do
  r ← ask (stream_read f (state_room - length so_far))
  either r (λ e. do ask (stream_close f); fail e)
      (λ chunk.
        if is_end chunk
        then ret so_far
        else if leb state_room (length (so_far ++ chunk))
        then (do ask (stream_close f); fail parse_error)
        else read_walk fuel f (so_far ++ chunk))

-- What a state file says; both fields are optional, and a digest that is cut off or broken stays as
-- far as it was read.
unfoldable pub state_fields : Bytes → List Token → ℕ × Bytes
state_fields js toks = (
  either (get_uint js toks 0 (text "base_version")) (λ e. version_none)
      (λ n. if leb n 0xffffffff then n else version_none),
  (get_str js toks 0 (text "base_sha256") 65 []).0,
)

-- The base version and the base digest.
unfoldable pub state_load : Tokenize → Env → Platform → Bytes → Io (ℕ × Bytes)
state_load jsmn env platform title_id = do
  path ← state_path env platform title_id
  there ← ask (fs_exists path)
  if there
      then (do
        opened ← ask (fs_open path read)
        f ← check opened
        js ← read_walk (suc state_room) f []
        closed ← ask (stream_close f)
        check closed
        toks ← check (json_parse jsmn js 32)
        ret (state_fields js toks))
      else (ret (version_none, []))

-- The text of a state file.
unfoldable pub state_text : Platform → Bytes → LocalState → Result Bytes
state_text platform title_id st =
    let sb = add (init 512) (text "{\"format_version\":1,\"platform\":\"") in
    let sb = add_json sb (platform_name platform) in
    let sb = add sb (text "\",\"title_id\":\"") in
    let sb = add_json sb title_id in
    let sb = add sb (text "\",\"base_version\":") in
    let sb = add_uint sb st.base_version in
    let sb = add sb (text ",\"base_sha256\":\"") in
    let sb = add_json sb st.base_sha256 in result (add sb (text "\"}"))

-- Write a temporary file, then rename it.
unfoldable pub state_save : Env → Platform → Bytes → LocalState → Io (Unit {0})
state_save env platform title_id st = do
  dir ← check (join_path (or_empty env.work_dir) (some (text "state")) none)
  made ← ask (mkdir_p dir)
  check made
  path ← state_path env platform title_id
  tmp ← check (with_suffix sync_path_max path (text ".tmp"))
  json ← check (state_text platform title_id st)
  opened ← ask (fs_open tmp write)
  f ← check opened
  written ← ask (stream_write f json)
  either written (λ e. do ask (stream_close f); ask (remove tmp); fail e)
      (λ _. do
        closed ← ask (stream_close f)
        either closed (λ e. do ask (remove tmp); fail e)
            (λ _. do
              renamed ← ask (rename tmp path)
              either renamed (λ e. do ask (remove tmp); fail e) (λ _. ret tt)))

-- The state of a title without a save archive.
abbrev absent : ℕ × Bytes → LocalState
absent base = record {
  has_save = false;
  sha256 = [];
  size = 0;
  base_version = base.0;
  base_sha256 = base.1;
}

unfoldable pub scan_save : ℕ × Bytes → Save → Io LocalState
scan_save base save = do
  hashed ← ask (hash_save save)
  either hashed (λ e. do ask (close_save save); fail e)
      (λ p. do
        closed ← ask (close_save save)
        check closed
        ret (record {
          has_save = true;
          sha256 = p.sha256;
          size = p.size;
          base_version = base.0;
          base_sha256 = base.1;
        }))

-- A missing archive is a normal answer.
unfoldable pub scan_opened : ℕ × Bytes → Result Save → Io LocalState
scan_opened base (ok save) = scan_save base save
scan_opened base (err not_found) = ret (absent base)
scan_opened base (err e) = fail e

unfoldable pub scan_local : Tokenize → Env → Title → Io LocalState
scan_local jsmn env title = do
  base ← state_load jsmn env title.platform title.id
  opened ← ask (open_save title)
  scan_opened base opened
