-- ===== src/Archive/Packing.antt =====
-- pack_read_cb and daemoon_archive_pack of core/src/archive.c. The total size is
-- cut to 64 bits; the count of one file's bytes is not.
pub mod Described
pub mod Pulled
use dae_moon.Prelude.{
  ◌%◌, ◌^◌, ℕ, zero, suc, ◌+◌, Bool, true, false, not, Option, none, some, List, [], ◌∷◌, ◌++◌,
  Bytes, text, length, ◌==◌, if◌then◌else◌,
}
use dae_moon.Errors.{Code, Result, ok, err, either, ◌>>=◌, archive_error, io_error}
use dae_moon.Util.Digest.{hex}
use dae_moon.Util.Sha256.{Context, init, update, final}
use dae_moon.Backend.Streams.{Stream, stream_read, stream_close}
use dae_moon.Manifest.{Manifest}
use dae_moon.Manifest.Parse.{manifest_max_bytes}
use dae_moon.Manifest.Print.{write}
use dae_moon.Archive.{Entry, collect_entry, sort}
use dae_moon.Archive.Zip.{Writes, Zipper, ZipIo, zip_error, run_writes}
use dae_moon.Archive.Reader.{fresh_io, payload_name, hash_entry_header}
use dae_moon.Archive.Unpack.{OpenMode, Listing, returns, entry, SaveOps}
use dae_moon.Archive.Hashing.{list_save}

-- pack_src_t: the state behind the file, the hash, the bytes read and the error.
pub record PackSrc (S : Type 0) : Type 0 where
  pub state : S
  pub hash : Context
  pub read_total : ℕ
  pub failure : Option Code

-- What a round of the loop leaves: the package, the save, and the hash with the bytes read.
abbrev pub Packed : Type 0 → Type 0 → Type 0
Packed P S = ZipIo P × S × Result (Context × ℕ)

-- The callback of an entry whose content is in memory is not called.
abbrev pub no_source : Unit {0} → ℕ → Unit {0} × Bytes
no_source w n = (w, [])

-- The last steps: the manifest goes in last, and the archive is finalized, behind `n` entries.
unfoldable pub finish_zip : {P : Type 0} → Zipper → ℕ → Bytes → ZipIo P → Result (Unit {0})
unfolding run_writes zip_error
finish_zip zip n json io =
    let (io1, w, added) = run_writes no_source (zip.add_mem n (text "manifest.json") json) io tt in
    if added
    then (let (io2, w', done) = run_writes no_source (zip.finalize (suc n)) io1 tt in
        if done then elim io2.failure [ none ↦ ok tt | some e ↦ err e ] else err (zip_error io2))
    else err (zip_error io1)

-- The manifest with what was packed.
unfoldable pub describe_payload : Manifest → Context × ℕ → Manifest
unfolding hex final
describe_payload m (h, total) = record m { sha256 = hex (final h); size = total }

-- Behind the loop.
unfoldable pub pack_manifest :
    {P : Type 0} → Zipper → ℕ → Manifest → ZipIo P → Context × ℕ → Result Manifest
unfolding describe_payload write finish_zip
pack_manifest zip n m io w = do
  json ← write (describe_payload m w) manifest_max_bytes
  done ← finish_zip zip n json io
  ok (describe_payload m w)

module _ {S : Type 0} where
  -- What pack_read_cb makes of a read.
  unfoldable pub hash_read : PackSrc S → S × Result Bytes → PackSrc S × Bytes
  unfolding update
  hash_read src (st, err e) = (record src { state = st; failure = some e }, [])
  hash_read src (st, ok got) = (
    record src { state = st; hash = update src.hash got; read_total = src.read_total + length got },
    got,
  )

  unfoldable pub pack_read_cb : Stream S → PackSrc S → ℕ → PackSrc S × Bytes
  unfolding stream_read hash_read
  pack_read_cb file src n = elim src.failure [
    | some e ↦ (src, [])
    | none ↦ hash_read src (stream_read file src.state n)
  ]

  -- The error of an entry that was not added: the file's, or the package's.
  unfoldable pub source_error : {P : Type 0} → PackSrc S → ZipIo P → Code
  unfolding zip_error
  source_error src io = elim src.failure [ none ↦ zip_error io | some e ↦ e ]

  module _ {P : Type 0} where
    -- Behind the adding of an entry: close the file, and compare with the listed size.
    unfoldable pub pack_added : Stream S → Entry → ZipIo P × PackSrc S × Bool → Packed P S
    unfolding stream_close source_error
    pack_added file e (io, src, false) =
        (io, (stream_close (some file) src.state).0, err (source_error src io))
    pack_added file e (io, src, true) =
        let (st', closed) = stream_close (some file) src.state in
        (
          io,
          st',
          closed >>= λ x.
              if src.read_total == e.size then ok (src.hash, src.read_total) else err io_error,
        )

    unfoldable pub pack_opened :
        Zipper → ℕ → Bytes → ZipIo P → Context → Entry → S × Result (Stream S) → Packed P S
    unfolding run_writes pack_read_cb pack_added hash_entry_header
    pack_opened zip i name io h e (st, err c) = (io, st, err c)
    pack_opened zip i name io h e (st, ok file) = pack_added file e (
        run_writes (pack_read_cb file) (zip.add_callback i name e.size) io (record {
          state = st;
          hash = hash_entry_header h e.path e.size;
          read_total = 0;
          failure = none;
        }))

    -- A round of the loop, for entry number `i`.
    unfoldable pub pack_entry : Zipper → SaveOps S → ℕ → ZipIo P → S → Context → Entry → Packed P S
    unfolding payload_name pack_opened
    pack_entry zip ops i io st h e =
        either (payload_name e.path) (λ c. (io, st, err c))
          (λ name. pack_opened zip i name io h e (ops.open_file st e.path OpenMode.for_reading))

    unfoldable pub pack_entries :
        Zipper → SaveOps S → ℕ → ZipIo P → S → Context → ℕ → List Entry → Packed P S
    unfolding pack_entry
    pack_entries zip ops i io st h total [] = (io, st, ok (h, total))
    pack_entries zip ops i io st h total (e ∷ es) =
        let (io', st', r) = pack_entry zip ops i io st h e in
        either r (λ c. (io', st', err c))
          (λ w. pack_entries zip ops (suc i) io' st' w.0 ((total + w.1) % 2 ^ 64) es)

    unfoldable pub pack_listed :
        Zipper → SaveOps S → Manifest → ZipIo P → S → List Entry → S × Result Manifest
    unfolding pack_entries pack_manifest init
    pack_listed zip ops m io st es =
        let (io', st', r) = pack_entries zip ops 0 io st init 0 es in
        (st', r >>= λ w. pack_manifest zip (length es) m io' w)

    -- daemoon_archive_pack: the save afterwards, and the manifest with the digest and the size filled in.
    -- `starts` is whether mz_zip_writer_init_v2 succeeds.
    unfoldable pub archive_pack :
        Zipper → Bool → SaveOps S → S → Manifest → Stream P → P → S × Result Manifest
    unfolding list_save pack_listed
    archive_pack zip starts ops st m out ost =
        let (st', listed) = list_save ops st in
        either listed (λ c. (st', err c))
          (λ es.
            if starts
            then pack_listed zip ops m (fresh_io out ost) st' es
            else (st', err archive_error))
