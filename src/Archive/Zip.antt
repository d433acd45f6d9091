-- ===== src/Archive/Zip.antt =====
-- zip_io_t, zip_read_cb and zip_write_cb of core/src/archive.c, and what the vendored zip library does
-- between them: it reads and writes through callbacks, and everything else about it is left open.
use dae_moon.Prelude.{
  ℕ, zero, suc, ◌+◌, ◌-◌, Bool, Option, none, some, List, [], ◌++◌, Bytes, length, ltb, ◌==◌,
  if◌then◌else◌,
}
use dae_moon.Errors.{Code, Result, ok, err, either, archive_error}
use dae_moon.Backend.Streams.{Stream, stream_read, stream_write, stream_seek}
use dae_moon.Archive.{Stat}

-- A call of the reading side of miniz, up to its return value: it reads from the package at an offset,
-- and hands over what it extracted.
pub data Reads (A : Type 0) : Type 0 where
  ret : A → Reads A
  read_at : ℕ → ℕ → (Bytes → Reads A) → Reads A
  put : Bytes → (ℕ → Reads A) → Reads A

-- A zip file that was opened: mz_zip_reader_file_stat of each file, mz_zip_reader_locate_file, and
-- mz_zip_reader_extract_to_callback.
pub record Directory : Type 0 where
  pub files : List (Option Stat)
  pub locate : Bytes → Option ℕ
  pub extract : ℕ → Reads Bool

-- mz_zip_reader_init on a file of so many bytes.
abbrev pub Unzip : Type 0
Unzip = ℕ → Reads (Option Directory)

-- A call of the writing side: it writes to the package at an offset, and pulls the content of an entry.
pub data Writes : Type 0 where
  ret : Bool → Writes
  write_at : ℕ → Bytes → (ℕ → Writes) → Writes
  pull : ℕ → (Bytes → Writes) → Writes

-- The zip that is written: mz_zip_writer_add_read_buf_callback for a name and a size,
-- mz_zip_writer_add_mem for a name and a content, and mz_zip_writer_finalize_archive. Each may depend on
-- what was added before, given by their number.
pub record Zipper : Type 0 where
  pub add_callback : ℕ → Bytes → ℕ → Writes
  pub add_mem : ℕ → Bytes → Bytes → Writes
  pub finalize : ℕ → Writes

-- zip_io_t, with the state behind the stream.
pub record ZipIo (P : Type 0) : Type 0 where
  pub stream : Stream P
  pub state : P
  pub ofs : ℕ
  pub failure : Option Code

-- The error that is reported for a call that failed: the stream's, or one of the archive.
unfoldable pub zip_error : {P : Type 0} → ZipIo P → Code
zip_error io = elim io.failure [ none ↦ archive_error | some e ↦ e ]

module _ {P : Type 0} where
  -- A round of the loop of zip_read_cb; `more` are the rounds that follow.
  abbrev pub fill_round :
      (ZipIo P → Bytes → ZipIo P × Bytes) → ZipIo P → Bytes → P × Result Bytes → ZipIo P × Bytes
  fill_round more io done (st, err e) = (record io { state = st; failure = some e }, done)
  fill_round more io done (st, ok got) =
      if length got == 0
      then (record io { state = st; ofs = io.ofs + length done }, done)
      else more (record io { state = st }) (done ++ got)

  -- The loop, for so many rounds; each that goes on has read a byte.
  unfoldable pub fill : ℕ → ℕ → ZipIo P → Bytes → ZipIo P × Bytes
  unfolding stream_read
  fill zero n io done = (record io { ofs = io.ofs + length done }, done)
  fill (suc rounds) n io done =
      if ltb (length done) n
      then fill_round (fill rounds n) io done (stream_read io.stream io.state (n - length done))
      else (record io { ofs = io.ofs + length done }, done)

  -- zip_read_cb, with the bytes that it puts into the buffer.
  unfoldable pub zip_read_cb : ZipIo P → ℕ → ℕ → ZipIo P × Bytes
  unfolding fill stream_seek
  zip_read_cb io file_ofs n = elim io.failure [
    | some e ↦ (io, [])
    | none ↦
        if file_ofs == io.ofs
        then fill (suc n) n io []
        else (let (st, r) = stream_seek io.stream io.state file_ofs in
            either r (λ e. (record io { state = st; failure = some e }, []))
              (λ x. fill (suc n) n (record io { state = st; ofs = file_ofs }) []))
  ]

  -- zip_write_cb, with the number of bytes that it reports.
  unfoldable pub zip_write_cb : ZipIo P → ℕ → Bytes → ZipIo P × ℕ
  unfolding stream_write
  zip_write_cb io file_ofs buf = elim io.failure [
    | some e ↦ (io, 0)
    | none ↦
        if file_ofs == io.ofs
        then (let (st, r) = stream_write io.stream io.state buf in
            either r (λ e. (record io { state = st; failure = some e }, 0))
              (λ x. (record io { state = st; ofs = io.ofs + length buf }, length buf)))
        else (record io { failure = some archive_error }, 0)
  ]

-- A call of the reading side, with a callback over the state `W` for what is extracted.
unfoldable pub run_reads :
    {P W A : Type 0} → (W → Bytes → W × ℕ) → Reads A → ZipIo P → W → ZipIo P × W × A
unfolding zip_read_cb
run_reads cb (ret a) io w = (io, w, a)
run_reads cb (read_at ofs n k) io w =
    let (io', buf) = zip_read_cb io ofs n in run_reads cb (k buf) io' w
run_reads cb (put buf k) io w = let (w', n) = cb w buf in run_reads cb (k n) io w'

-- A call of the writing side, with a callback over the state `W` for the content of an entry.
unfoldable pub run_writes :
    {P W : Type 0} → (W → ℕ → W × Bytes) → Writes → ZipIo P → W → ZipIo P × W × Bool
unfolding zip_write_cb
run_writes cb (ret b) io w = (io, w, b)
run_writes cb (write_at ofs buf k) io w =
    let (io', n) = zip_write_cb io ofs buf in run_writes cb (k n) io' w
run_writes cb (pull n k) io w = let (w', buf) = cb w n in run_writes cb (k buf) io w'
