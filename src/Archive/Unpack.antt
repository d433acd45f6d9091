-- ===== src/Archive/Unpack.antt =====
-- extract_write_cb and daemoon_archive_unpack of core/src/archive.c, over a save as the backend of
-- core/include/daemoon/backend.h gives access to it.
pub mod Writing
pub mod Whole
use dae_moon.Prelude.{
  ℕ, ◌+◌, Bool, true, false, not, Option, none, some, List, [], ◌∷◌, ◌++◌, Bytes, length,
  if◌then◌else◌,
}
use dae_moon.Errors.{Code, Result, ok, err, either, archive_error}
use dae_moon.Backend.Streams.{Stream, stream_write, stream_close}
use dae_moon.Archive.{Entry, collect_payload}
use dae_moon.Archive.Zip.{Directory, Unzip, ZipIo, zip_error, run_reads}
use dae_moon.Archive.Reader.{reader_open, payload_name}

pub data OpenMode : Type 0 where
  for_reading for_writing : OpenMode

-- What list_entries does: it names entries, asks after each whether to stop, and returns.
pub data Listing (S : Type 0) : Type 0 where
  returns : S → Result (Unit {0}) → Listing S
  entry : Bytes → ℕ → (Bool → Listing S) → Listing S

-- The entry points of daemoon_save_backend_t that work on an open save, over the state of the save; the
-- streams of its files have the same state behind them.
pub record SaveOps (S : Type 0) : Type 0 where
  pub list_entries : S → Listing S
  pub open_file : S → Bytes → OpenMode → S × Result (Stream S)
  pub remove_all : S → S × Result (Unit {0})

module _ {S : Type 0} where
  -- What the callback reports of a write of so many bytes.
  unfoldable pub taken : ℕ → S × Result (Unit {0}) → (S × Option Code) × ℕ
  taken n (st, ok x) = ((st, none), n)
  taken n (st, err e) = ((st, some e), 0)

  -- extract_write_cb, over the state of the save and the first failure.
  unfoldable pub extract_write_cb : Stream S → S × Option Code → Bytes → (S × Option Code) × ℕ
  unfolding stream_write taken
  extract_write_cb out (st, some e) buf = ((st, some e), 0)
  extract_write_cb out (st, none) buf = taken (length buf) (stream_write out st buf)

  module _ {P : Type 0} where
    -- What is made of an extraction into an open file.
    unfoldable pub finish_file :
        Stream S → ZipIo P × (S × Option Code) × Bool → ZipIo P × S × Result (Unit {0})
    unfolding stream_close zip_error
    finish_file out (io, (st, failure), true) =
        let (st', r) = stream_close (some out) st in (io, st', r)
    finish_file out (io, (st, failure), false) =
        let (st', r) = stream_close (some out) st in
        (io, st', err (elim failure [ none ↦ zip_error io | some e ↦ e ]))

    -- The rest of a round, behind the opening of the file.
    unfoldable pub unpack_opened :
        Directory → ZipIo P → ℕ → S × Result (Stream S) → ZipIo P × S × Result (Unit {0})
    unfolding finish_file run_reads extract_write_cb
    unpack_opened dir io i (st, err e) = (io, st, err e)
    unpack_opened dir io i (st, ok out) =
        finish_file out (run_reads (extract_write_cb out) (dir.extract i) io (st, none))

    unfoldable pub unpack_found :
        SaveOps S → Directory → ZipIo P → S → Entry → Option ℕ → ZipIo P × S × Result (Unit {0})
    unfolding unpack_opened
    unpack_found ops dir io st e none = (io, st, err archive_error)
    unpack_found ops dir io st e (some i) =
        unpack_opened dir io i (ops.open_file st e.path OpenMode.for_writing)

    -- A round of the loop of daemoon_archive_unpack.
    unfoldable pub unpack_entry :
        SaveOps S → Directory → ZipIo P → S → Entry → ZipIo P × S × Result (Unit {0})
    unfolding unpack_found payload_name
    unpack_entry ops dir io st e =
        either (payload_name e.path) (λ c. (io, st, err c))
          (λ name. unpack_found ops dir io st e (dir.locate name))

    unfoldable pub unpack_entries :
        SaveOps S → Directory → ZipIo P → S → List Entry → S × Result (Unit {0})
    unfolding unpack_entry
    unpack_entries ops dir io st [] = (st, ok tt)
    unpack_entries ops dir io st (e ∷ es) =
        let (io', st', r) = unpack_entry ops dir io st e in
        let rest = unpack_entries ops dir io' st' es in either r (λ c. (st', err c)) (λ x. rest)

    -- The save is cleared before anything is written into it.
    unfoldable pub unpack_payload :
        SaveOps S → Directory → ZipIo P → S → List Entry → S × Result (Unit {0})
    unfolding unpack_entries
    unpack_payload ops dir io st es =
        let (st', r) = ops.remove_all st in
        either r (λ c. (st', err c)) (λ x. unpack_entries ops dir io st' es)

    -- daemoon_archive_unpack
    unfoldable pub archive_unpack :
        Unzip → SaveOps S → Option (Stream P) → P → S → S × Result (Unit {0})
    unfolding reader_open collect_payload unpack_payload
    archive_unpack unzip ops pkg pst st =
        either (reader_open unzip pkg pst) (λ c. (st, err c))
          (λ opened.
            either (collect_payload opened.1.files) (λ c. (st, err c))
              (λ entries. unpack_payload ops opened.1 opened.0 st entries))
