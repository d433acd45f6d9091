-- ===== src/Archive/Reader.antt =====
-- reader_open, daemoon_archive_read_manifest and daemoon_archive_verify of core/src/archive.c. The total
-- size is cut to 64 bits; the count of one file's bytes is not.
pub mod Extracted
pub mod Hashed
pub mod Verified
use dae_moon.Prelude.{
  ◌%◌, ◌^◌, ℕ, ◌+◌, Bool, true, false, ◌&&◌, ◌||◌, not, Option, none, some, List, [], ◌∷◌, ◌++◌,
  Bytes, text, length, ltb, ◌==◌, if◌then◌else◌,
}
use dae_moon.Errors.{
  Code, Result, ok, err, either, ◌>>=◌, archive_error, invalid_request, unsupported,
  invalid_manifest, checksum_mismatch,
}
use dae_moon.Util.Strbuf
use dae_moon.Util.Strbuf.{add, result}
use dae_moon.Util.Digest.{hex, hex_equal, is_end}
use dae_moon.Util.Sha256.{Context, init, update, final, be_bytes}
use dae_moon.Util.Json.{Tokenize}
use dae_moon.Backend.Streams.{Stream, stream_seek}
use dae_moon.Manifest.{Manifest}
use dae_moon.Manifest.Parse.{manifest_max_bytes, parse}
use dae_moon.Archive.{path_max, Entry, collect_payload}
use dae_moon.Archive.Zip.{Directory, Unzip, ZipIo, zip_error, run_reads}

-- Nothing is extracted while a file is opened.
abbrev pub no_sink : Unit {0} → Bytes → Unit {0} × ℕ
no_sink w buf = (w, 0)

-- The zip library's part of reader_open.
unfoldable pub directory_of :
    {P : Type 0} → ZipIo P → Option Directory → Result (ZipIo P × Directory)
unfolding zip_error
directory_of io none = err (zip_error io)
directory_of io (some d) = ok (io, d)

unfoldable pub open_directory : {P : Type 0} → Unzip → ZipIo P → Result (ZipIo P × Directory)
unfolding directory_of run_reads
open_directory unzip io =
    let (io', w, dir) = run_reads no_sink (unzip io.stream.size) io tt in directory_of io' dir

-- The reader's view of a package before anything was read.
abbrev pub fresh_io : {P : Type 0} → Stream P → P → ZipIo P
fresh_io pkg st = record { stream = pkg; state = st; ofs = 0; failure = none }

-- The rest of reader_open, behind the seek to the start.
unfoldable pub open_sought :
    {P : Type 0} → Unzip → Stream P → P × Result (Unit {0}) → Result (ZipIo P × Directory)
unfolding open_directory
open_sought unzip pkg (st, err e) = err e
open_sought unzip pkg (st, ok x) = open_directory unzip (fresh_io pkg st)

-- reader_open; `none` is a NULL package.
unfoldable pub reader_open :
    {P : Type 0} → Unzip → Option (Stream P) → P → Result (ZipIo P × Directory)
unfolding open_sought stream_seek
reader_open unzip none st = err invalid_request
reader_open unzip (some pkg) st = elim pkg.read [
  | none ↦ err invalid_request
  | some r ↦ elim pkg.seek [
    | none ↦ err unsupported
    | some s ↦
        if pkg.size == 0 then err archive_error else open_sought unzip pkg (stream_seek pkg st 0)
  ]
]

-- membuf_t and mem_write_cb, over a buffer for a manifest: what is in it and whether it overflowed.
unfoldable pub mem_write_cb : Bytes × Bool → Bytes → (Bytes × Bool) × ℕ
mem_write_cb (content, overflow) buf =
    if ltb manifest_max_bytes (length content + length buf)
    then ((content, true), 0)
    else ((content ++ buf, overflow), length buf)

-- read_manifest_from. A file without a byte leaves its buffer unset, and the parser then takes the
-- length from what stands there: `unset`, up to a NUL.
unfoldable pub read_manifest_from :
    {P : Type 0} → Tokenize → Bytes → ZipIo P → Directory → Result Manifest
unfolding run_reads mem_write_cb zip_error parse is_end
read_manifest_from jsmn unset io dir = elim (dir.locate (text "manifest.json")) [
  | none ↦ err invalid_manifest
  | some i ↦
      let (io', (json, overflow), done) = run_reads mem_write_cb (dir.extract i) io ([], false) in
      if done
      then parse jsmn (if is_end json then unset else json)
      else if overflow
      then err invalid_manifest
      else err (zip_error io')
]

-- daemoon_archive_read_manifest
unfoldable pub archive_read_manifest :
    {P : Type 0} → Tokenize → Bytes → Unzip → Option (Stream P) → P → Result Manifest
unfolding reader_open read_manifest_from
archive_read_manifest jsmn unset unzip pkg st =
    reader_open unzip pkg st >>= λ opened. read_manifest_from jsmn unset opened.0 opened.1

-- The name of a payload entry in a package.
unfoldable pub payload_name : Bytes → Result Bytes
unfolding Strbuf.init add result
payload_name path = result (add (add (Strbuf.init (path_max + 9)) (text "payload/")) path)

-- hash_entry_header
unfoldable pub hash_entry_header : Context → Bytes → ℕ → Context
unfolding update be_bytes
hash_entry_header h path size = update (update (update h path) (0 ∷ [])) (be_bytes 8 size)

-- hash_write_cb, over the hash and the number of bytes that it has got.
unfoldable pub hash_write_cb : Context × ℕ → Bytes → (Context × ℕ) × ℕ
unfolding update
hash_write_cb (h, len) buf = ((update h buf, len + length buf), length buf)

-- What an extraction into the hash comes to: the hash and the number of bytes, as many as the entry says.
unfoldable pub file_hash :
    {P : Type 0} → Entry → ZipIo P × (Context × ℕ) × Bool → Result (Context × ℕ)
unfolding zip_error
file_hash e (io, (h, len), done) =
    if done then (if len == e.size then ok (h, len) else err archive_error) else err (zip_error io)

-- A round of the loop of daemoon_archive_verify, on the file that was found under the entry's name.
unfoldable pub verify_file :
    {P : Type 0} → Directory → ZipIo P → Context → Entry → ℕ → ZipIo P × Result (Context × ℕ)
unfolding run_reads hash_write_cb hash_entry_header file_hash
verify_file dir io h e i =
    let r = run_reads hash_write_cb (dir.extract i) io (hash_entry_header h e.path e.size, 0) in
    (r.0, file_hash e r)

unfoldable pub verify_found :
    {P : Type 0} → Directory → ZipIo P → Context → Entry → Option ℕ → ZipIo P × Result (Context × ℕ)
unfolding verify_file
verify_found dir io h e none = (io, err archive_error)
verify_found dir io h e (some i) = verify_file dir io h e i

unfoldable pub verify_entry :
    {P : Type 0} → Directory → ZipIo P → Context → Entry → ZipIo P × Result (Context × ℕ)
unfolding payload_name verify_found
verify_entry dir io h e =
    either (payload_name e.path) (λ c. (io, err c))
      (λ name. verify_found dir io h e (dir.locate name))

-- The loop over the entries that are left: the hash and the total behind them.
unfoldable pub verify_entries :
    {P : Type 0} → Directory → ZipIo P → Context → ℕ → List Entry → Result (Context × ℕ)
unfolding verify_entry
verify_entries dir io h total [] = ok (h, total)
verify_entries dir io h total (e ∷ es) =
    let (io', r) = verify_entry dir io h e in
    r >>= λ done. verify_entries dir io' done.0 ((total + done.1) % 2 ^ 64) es

unfoldable pub check_digest : Manifest → Context × ℕ → Result (Unit {0})
unfolding hex_equal hex final
check_digest m (h, total) =
    if not (hex_equal (hex (final h)) m.sha256) || not (total == m.size)
    then err checksum_mismatch
    else ok tt

-- daemoon_archive_verify
unfoldable pub archive_verify :
    {P : Type 0} → Unzip → Option (Stream P) → P → Manifest → Result (Unit {0})
unfolding reader_open collect_payload verify_entries check_digest init
archive_verify unzip pkg st m = do
  opened ← reader_open unzip pkg st
  entries ← collect_payload opened.1.files
  hashed ← verify_entries opened.1 opened.0 init 0 entries
  check_digest m hashed
