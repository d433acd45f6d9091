-- ===== src/Sync/Packaged.antt =====
-- What has happened, in which order, when pack_title_to of core/src/sync.c has published a package.
use dae_moon.Prelude.{◌≡◌, false, Bytes, ◌==◌}
use dae_moon.Errors.{ok}
use dae_moon.Backend.{Title}
use dae_moon.Manifest.{Manifest}
use dae_moon.Sync.Calls.{
  Save, Stream, Payload, write, open_save, pack, fs_open, rename, stream_close,
}
use dae_moon.Sync.Io.{History, event}
use dae_moon.Sync.Trace.{Happened, Grows, Then, Then-Grows}

-- The title's save was opened, and then the file that the package goes into.
abbrev pub IsOpened : Title → Save → Bytes → Stream → History → Type 0
IsOpened t save tmp file =
    Then (event (fs_open tmp write) (ok file)) (Happened (event (open_save t) (ok save)))

-- Then that save was packed into that file, and its payload is not empty.
pub record IsFilled (t : Title) (tmp : Bytes) (file : Stream) (h : History) : Type 0 where
  pub save : Save
  pub identity : Manifest
  pub payload : Payload
  pub packed : Then (event (pack save identity file) (ok payload)) (IsOpened t save tmp file) h
  pub filled : (payload.count == 0) ≡ false

-- Then that file was closed without a failure.
abbrev pub IsClosed : Title → Bytes → Stream → History → Type 0
IsClosed t tmp file = Then (event (stream_close file) (ok tt)) (IsFilled t tmp file)

-- Then it was renamed to the path.
pub record IsPublished (t : Title) (path : Bytes) (h : History) : Type 0 where
  pub tmp : Bytes
  pub file : Stream
  pub renamed : Then (event (rename tmp path) (ok tt)) (IsClosed t tmp file) h

pub IsFilled-Grows :
    {t : Title} {tmp : Bytes} {file : Stream} {h h' : History}
    → Grows h h'
    → IsFilled t tmp file h
    → IsFilled t tmp file h'
IsFilled-Grows g p = record {
  save = p.save;
  identity = p.identity;
  payload = p.payload;
  packed = Then-Grows g p.packed;
  filled = p.filled;
}

pub IsPublished-Grows :
    {t : Title} {path : Bytes} {h h' : History}
    → Grows h h'
    → IsPublished t path h
    → IsPublished t path h'
IsPublished-Grows g p = record { tmp = p.tmp; file = p.file; renamed = Then-Grows g p.renamed }
