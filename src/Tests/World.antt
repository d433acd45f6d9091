-- ===== src/Tests/World.antt =====
-- A console with one title, and surroundings that answer every call with success.
use dae_moon.Prelude.{true, false, none, some, [], Bytes, text}
use dae_moon.Errors.{ok}
use dae_moon.Util.Json.{Tokenize, tokens}
use dae_moon.Backend.{Platform, SaveType, Title, Env}
use dae_moon.Manifest
use dae_moon.Manifest.{Manifest}
use dae_moon.Sync.Decide.{RemoteMeta}
use dae_moon.Sync.Options.{Stats}
use dae_moon.Sync.Calls.{
  Stream, Payload, is_title_running, open_save, open_save_write, commit, close_save,
  read_secure_value, write_secure_value, clear_secure_value, hash_save, pack, read_manifest, verify,
  unpack, get_latest, api_upload, api_download, fs_exists, mkdir_p, fs_open, rename, remove,
  stream_read, stream_write, stream_close, confirm, choose, notify, progress, clock_iso8601,
}
use dae_moon.Sync.Io.{Environment}

abbrev pub game : Title
game = record {
  id = text "0100000000010000";
  name = text "Game";
  platform = Platform.nx;
  save_type = SaveType.savedata;
  size_hint = 0;
  has_save = true;
  secure_value = false;
  account_bound = true;
}

abbrev pub console : Env
console = record {
  save = some (record {
    list_titles = true;
    open_save = true;
    open_save_write = true;
    list_entries = true;
    open_file = true;
    remove_all = true;
    commit = true;
    close_save = true;
    is_title_running = true;
    read_secure_value = true;
    write_secure_value = true;
    clear_secure_value = true;
  });
  net = some (record { request = true });
  ui = some (record { confirm = true; progress = true; choose = true; notify = true });
  fs =
      some (record { fs_open = true; remove = true; rename = true; mkdir_p = true; exists = true });
  clock_iso8601 = false;
  server_url = some (text "http://s");
  token = some (text "t");
  device_label = some (text "Switch");
  work_dir = some (text "/d");
  scratch = some 4096;
}

-- The digest of the package on the server.
abbrev pub digest : Bytes
digest = text "00000000000000000000000000000000000000000000000000000000000000aa"

abbrev pub packaged : Manifest
packaged = record Manifest.init {
  platform = Platform.nx;
  title_id = text "0100000000010000";
  sha256 = digest;
  secure_value = some 7;
}

abbrev pub on_server : RemoteMeta
on_server = record {
  exists = true;
  latest_version = 5;
  parent_version = 4;
  sha256 = digest;
  size = 10;
  device_label = text "3DS";
  received_at = [];
}

abbrev payload : Payload
payload = record {
  sha256 = text "00000000000000000000000000000000000000000000000000000000000000bb";
  size = 10;
  count = 1;
}

abbrev stream : Stream
stream = record { handle = 1; size = 10 }

abbrev pub world : Environment
world h (is_title_running t) = ok false
world h (open_save t) = ok (record { handle = 2 })
world h (open_save_write t) = ok (record { handle = 3 })
world h (commit s) = ok tt
world h (close_save s) = ok tt
world h (read_secure_value t) = ok none
world h (write_secure_value t v) = ok tt
world h (clear_secure_value t) = ok tt
world h (hash_save s) = ok payload
world h (pack s m f) = ok payload
world h (read_manifest f) = ok packaged
world h (verify f m) = ok tt
world h (unpack f s) = ok tt
world h (get_latest p t) = ok on_server
world h (api_upload m f n) = ok on_server
world h (api_download p t v f) = ok tt
world h (fs_exists p) = false
world h (mkdir_p p) = ok tt
world h (fs_open p m) = ok stream
world h (rename a b) = ok tt
world h (remove p) = ok tt
world h (stream_read f n) = ok []
world h (stream_write f b) = ok tt
world h (stream_close f) = ok tt
world h (confirm m) = true
world h (choose m options) = some 0
world h (notify m) = ok tt
world h (progress m) = ok tt
world h (clock_iso8601 n) = ok (text "2024-01-01T00:00:00Z")

abbrev pub no_tokens : Tokenize
no_tokens js n = tokens []

abbrev pub zero_stats : Stats
zero_stats = record { uploaded = 0; downloaded = 0; skipped = 0; conflicts = 0; failed = 0 }
