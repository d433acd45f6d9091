-- ===== src/Sync/Calls.antt =====
-- What core/src/sync.c asks of the components around it: the four backends of
-- core/include/daemoon/backend.h, the archive functions, and the API client. An answer is whatever
-- the other side returns; nothing is assumed of it.
use dae_moon.Prelude.{ℕ, Bool, Option, List, Bytes}
use dae_moon.Errors.{Result}
use dae_moon.Messages.{StrRef}
use dae_moon.Backend.{Platform, Title}
use dae_moon.Manifest.{Manifest}
use dae_moon.Sync.Decide.{RemoteMeta}

pub data Mode : Type 0 where
  read write : Mode

-- daemoon_stream_t and daemoon_save_t as the handles that they are to this code.
pub record Stream : Type 0 where
  pub handle : ℕ
  pub size : ℕ

pub record Save : Type 0 where
  pub handle : ℕ

-- What daemoon_archive_hash_save and daemoon_archive_pack leave behind: the digest, the size of the
-- payload, and the entry count of the archive context.
pub record Payload : Type 0 where
  pub sha256 : Bytes
  pub size : ℕ
  pub count : ℕ

pub data Call : Type 0 where
  -- the save backend
  is_title_running : Title → Call
  open_save : Title → Call
  open_save_write : Title → Call
  commit : Save → Call
  close_save : Save → Call
  read_secure_value : Title → Call
  write_secure_value : Title → ℕ → Call
  clear_secure_value : Title → Call
  -- archive.c
  hash_save : Save → Call
  pack : Save → Manifest → Stream → Call
  read_manifest : Stream → Call
  verify : Stream → Manifest → Call
  unpack : Stream → Save → Call
  -- api.c
  get_latest : Platform → Bytes → Call
  api_upload : Manifest → Stream → ℕ → Call
  api_download : Platform → Bytes → ℕ → Stream → Call
  -- the fs backend
  fs_exists : Bytes → Call
  mkdir_p : Bytes → Call
  fs_open : Bytes → Mode → Call
  rename : Bytes → Bytes → Call
  remove : Bytes → Call
  -- streams
  stream_read : Stream → ℕ → Call
  stream_write : Stream → Bytes → Call
  stream_close : Stream → Call
  -- the ui backend; a negative choice is none
  confirm : StrRef → Call
  choose : StrRef → List StrRef → Call
  notify : StrRef → Call
  progress : StrRef → Call
  -- the clock
  clock_iso8601 : ℕ → Call

abbrev pub Answer : Call → Type 0
Answer (is_title_running t) = Result Bool
Answer (open_save t) = Result Save
Answer (open_save_write t) = Result Save
Answer (read_secure_value t) = Result (Option ℕ)
Answer (hash_save s) = Result Payload
Answer (pack s m f) = Result Payload
Answer (read_manifest f) = Result Manifest
Answer (get_latest p t) = Result RemoteMeta
Answer (api_upload m f n) = Result RemoteMeta
Answer (fs_exists p) = Bool
Answer (fs_open p m) = Result Stream
Answer (stream_read f n) = Result Bytes
Answer (confirm m) = Bool
Answer (choose m o) = Option ℕ
Answer (clock_iso8601 n) = Result Bytes
Answer _ = Result (Unit {0})
