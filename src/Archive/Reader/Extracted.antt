-- ===== src/Archive/Reader/Extracted.antt =====
-- What a package holds, apart from what core/src/archive.c does with it: the content that the zip library
-- extracts for each entry when every byte of it is taken.
use dae_moon.Prelude.{ℕ, Option, none, some, List, [], ◌∷◌, ◌++◌, Bytes, length}
use dae_moon.Errors.{either}
use dae_moon.Archive.{Entry}
use dae_moon.Archive.Zip.{Directory, ZipIo, Reads, ret, read_at, put, zip_read_cb}
use dae_moon.Archive.Reader.{payload_name}

-- The package's reader behind an extraction, the content, and what the call returns.
unfoldable pub delivered : {P A : Type 0} → Reads A → ZipIo P → ZipIo P × Bytes × A
unfolding zip_read_cb
delivered (ret a) io = (io, [], a)
delivered (read_at ofs n k) io = let (io', buf) = zip_read_cb io ofs n in delivered (k buf) io'
delivered (put buf k) io = let (io', c, a) = delivered (k (length buf)) io in (io', buf ++ c, a)

module _ {P : Type 0} where
  unfoldable pub content_at : Directory → ZipIo P → Option ℕ → ZipIo P × Bytes
  unfolding delivered
  content_at dir io none = (io, [])
  content_at dir io (some i) = let (io', c, done) = delivered (dir.extract i) io in (io', c)

  unfoldable pub entry_content : Directory → ZipIo P → Entry → ZipIo P × Bytes
  unfolding content_at payload_name
  entry_content dir io e =
      either (payload_name e.path) (λ c. (io, [])) (λ name. content_at dir io (dir.locate name))

  -- The entries with their contents, read one after the other.
  unfoldable pub package_files : Directory → ZipIo P → List Entry → List (Entry × Bytes)
  unfolding entry_content
  package_files dir io [] = []
  package_files dir io (e ∷ es) =
      let (io', c) = entry_content dir io e in (e, c) ∷ package_files dir io' es
