-- ===== src/Archive/Unpack/Whole.antt =====
-- daemoon_archive_unpack of core/src/archive.c over a save that keeps its files: a success leaves exactly
-- the files of the package.
use dae_moon.Prelude.{
  ℕ, ◌≡◌, refl, ap, ap₂, subst, ◌∙◌, Bool, true, false, Option, none, some, List, [], ◌∷◌, Bytes,
  ◌==◌, Bool-cases, Option-cases, inl, inr,
}
use dae_moon.Errors.{Code, Result, ok, err}
use dae_moon.Errors.Laws.{err≢ok, ok_inj, Result-cases}
use dae_moon.Backend.Streams.{Stream, stream_seek, stream_close}
use dae_moon.Archive.{Entry, hash_files, collect_payload}
use dae_moon.Archive.Zip.{Directory, Unzip, ZipIo, Reads, ret, read_at, put, zip_read_cb, run_reads}
use dae_moon.Util.Digest.{hex}
use dae_moon.Util.Sha256.{digest}
use dae_moon.Manifest.{Manifest}
use dae_moon.Archive.Reader.Verified.{archive_verify-Matches}
use dae_moon.Archive.Reader.Extracted.{entry_content, content_at, package_files}
use dae_moon.Archive.Reader.{
  directory_of, open_sought, reader_open, open_directory, fresh_io, archive_verify, no_sink,
  payload_name,
}
use dae_moon.Archive.Unpack.{
  OpenMode, SaveOps, extract_write_cb, finish_file, unpack_opened, unpack_found, unpack_entry,
  unpack_entries, unpack_payload, archive_unpack,
}
use dae_moon.Archive.Unpack.Writing.{
  Heeds, Returns, HeedsAll, Documented, Files, no_files, updated, Writes, KeepsFiles, Extends,
  run_write,
}

-- The files of a save behind the files of a package, written one after the other: where a path is there
-- twice, the later content stays.
abbrev pub saved : Files → List (Entry × Bytes) → Files
saved files [] = files
saved files ((e, c) ∷ xs) = saved (updated files e.path c) xs

module _ {S P : Type 0} (view : S → Files) where
  finish_file-ok :
      (f : Stream S) (path : Bytes) (r : ZipIo P × (S × Option Code) × Bool) (x : Unit {0})
      → Writes view f path
      → (finish_file f r).2 ≡ ok x
      → (r.2 ≡ true) × ((finish_file f r).0 ≡ r.0) × (view (finish_file f r).1 ≡ view r.1.0)
  unfolding finish_file
  finish_file-ok f path (io, (s, failure), true) x w h = (
    refl,
    refl,
    w.closes s (stream_close (some f) s).0 (ap (λ r. ((stream_close (some f) s).0, r)) h),
  )
  finish_file-ok f path (io, (s, failure), false) x w h = absurd (err≢ok h)

  -- A round that succeeds adds a file with what the package holds under the entry's name.
  AddsFile : S → Bytes → ZipIo P × Bytes → ZipIo P × S × Result (Unit {0}) → Type 0
  AddsFile s path (io, c) r = (r.0 ≡ io) × (view r.1 ≡ updated (view s) path c)

  module _ (ops : SaveOps S) (keeps : KeepsFiles ops view) (dir : Directory)
      (heeds : (i : ℕ) → Heeds (dir.extract i)) where
    unpack_opened-AddsFile :
        (io : ZipIo P) (s : S) (e : Entry) (i : ℕ) (o : S × Result (Stream S)) (x : Unit {0})
        → ops.open_file s e.path OpenMode.for_writing ≡ o
        → (unpack_opened dir io i o).2 ≡ ok x
        → AddsFile s e.path (content_at dir io (some i)) (unpack_opened dir io i o)
    unfolding unpack_opened AddsFile content_at Extends
    unpack_opened-AddsFile io s e i (s', err c) x p h = absurd (err≢ok h)
    unpack_opened-AddsFile io s e i (s', ok f) x p h =
        let (there, w) = keeps.opens s s' e.path f p in
        let r = run_reads (extract_write_cb f) (dir.extract i) io (s', none) in
        let (done, same, closed) = finish_file-ok f e.path r x w h in
        let (same', grown) =
          run_write f view e.path w (dir.extract i) io s' (view s) [] (heeds i) there done in
        (same ∙ same', closed ∙ grown)

    unpack_found-AddsFile :
        (io : ZipIo P) (s : S) (e : Entry) (o : Option ℕ) (x : Unit {0})
        → (unpack_found ops dir io s e o).2 ≡ ok x
        → AddsFile s e.path (content_at dir io o) (unpack_found ops dir io s e o)
    unfolding unpack_found
    unpack_found-AddsFile io s e none x h = absurd (err≢ok h)
    unpack_found-AddsFile io s e (some i) x h =
        unpack_opened-AddsFile io s e i (ops.open_file s e.path OpenMode.for_writing) x refl h

    unpack_entry-AddsFile :
        (io : ZipIo P) (s : S) (e : Entry) (x : Unit {0})
        → (unpack_entry ops dir io s e).2 ≡ ok x
        → AddsFile s e.path (entry_content dir io e) (unpack_entry ops dir io s e)
    unfolding unpack_entry entry_content
    unpack_entry-AddsFile io s e x h = elim (Result-cases (payload_name e.path)) [
      | inr (c, n) ↦ absurd (err≢ok (rw n at h))
      | inl (name, n) ↦ rw n (unpack_found-AddsFile io s e (dir.locate name) x (rw n at h))
    ]

    one_more :
        (io : ZipIo P) (s : S) (e : Entry) (es : List Entry) (r : ZipIo P × S × Result (Unit {0}))
        (s' : S)
        → AddsFile s e.path (entry_content dir io e) r
        → view s' ≡ saved (view r.1) (package_files dir r.0 es)
        → view s' ≡ saved (view s) (package_files dir io (e ∷ es))
    unfolding AddsFile package_files
    one_more io s e es r s' (same, added) h =
        h ∙ ap₂ (λ v z. saved v (package_files dir z es)) added same

    unpack_entries-saved :
        (io : ZipIo P) (s : S) (es : List Entry) (x : Unit {0})
        → (unpack_entries ops dir io s es).1 ≡ ok x
        → view (unpack_entries ops dir io s es).0 ≡ saved (view s) (package_files dir io es)
    unfolding unpack_entries package_files
    unpack_entries-saved io s [] x h = refl
    unpack_entries-saved io s (e ∷ es) x h = elim (Result-cases (unpack_entry ops dir io s e).2) [
      | inr (c, n) ↦ absurd (err≢ok (rw n at h))
      | inl (y, n) ↦
          let r = unpack_entry ops dir io s e in
          rw n (
            one_more io s e es r (unpack_entries ops dir r.0 r.1 es).0
              (unpack_entry-AddsFile io s e y n) (unpack_entries-saved r.0 r.1 es x (rw n at h)))
    ]

    unpack_payload-saved :
        (io : ZipIo P) (s : S) (es : List Entry) (x : Unit {0})
        → (unpack_payload ops dir io s es).1 ≡ ok x
        → view (unpack_payload ops dir io s es).0 ≡ saved no_files (package_files dir io es)
    unfolding unpack_payload
    unpack_payload-saved io s es x h = elim (Result-cases (ops.remove_all s).1) [
      | inr (c, n) ↦ absurd (err≢ok (rw n at h))
      | inl (y, n) ↦
          let s' = (ops.remove_all s).0 in
          rw n (
            unpack_entries-saved io s' es x (rw n at h)
            ∙ ap (λ v. saved v (package_files dir io es)) (keeps.clears s s' (ap (λ r. (s', r)) n)))
    ]

run_reads-Returns :
    {P W A : Type 0} (Q : A → Type 0) (cb : W → Bytes → W × ℕ) (steps : Reads A) (io : ZipIo P)
    (w : W)
    → Returns Q steps
    → Q (run_reads cb steps io w).2
unfolding run_reads
run_reads-Returns Q cb (ret a) io w h = h
run_reads-Returns Q cb (read_at ofs n k) io w h =
    let (io', buf) = zip_read_cb io ofs n in run_reads-Returns Q cb (k buf) io' w (h buf)
run_reads-Returns Q cb (put buf k) io w h =
    let (w', n) = cb w buf in run_reads-Returns Q cb (k n) io w' (h n)

module _ {P : Type 0} (unzip : Unzip) (documented : Documented unzip) where
  directory_of-Heeds :
      (io io' : ZipIo P) (o : Option Directory) (dir : Directory)
      → HeedsAll o
      → directory_of io o ≡ ok (io', dir)
      → HeedsAll (some dir)
  unfolding directory_of
  directory_of-Heeds io io' none dir h e = absurd (err≢ok e)
  directory_of-Heeds io io' (some d) dir h e =
      subst (λ (z : ZipIo P × Directory). HeedsAll (some z.1)) (ok_inj e) h

  open_sought-Heeds :
      (pkg : Stream P) (r : P × Result (Unit {0})) (io : ZipIo P) (dir : Directory)
      → open_sought unzip pkg r ≡ ok (io, dir)
      → HeedsAll (some dir)
  unfolding open_sought open_directory
  open_sought-Heeds pkg (st, err e) io dir h = absurd (err≢ok h)
  open_sought-Heeds pkg (st, ok x) io dir h =
      let r = run_reads no_sink (unzip pkg.size) (fresh_io pkg st) tt in
      directory_of-Heeds r.0 io r.2 dir
        (run_reads-Returns HeedsAll no_sink (unzip pkg.size) (fresh_io pkg st) tt
          (documented pkg.size))
        h

  reader_open-Heeds :
      (pkg : Option (Stream P)) (st : P) (io : ZipIo P) (dir : Directory)
      → reader_open unzip pkg st ≡ ok (io, dir)
      → HeedsAll (some dir)
  unfolding reader_open
  reader_open-Heeds none st io dir h = absurd (err≢ok h)
  reader_open-Heeds (some pkg) st io dir h = elim (Option-cases pkg.read) [
    | inl n ↦ absurd (err≢ok (rw n at h))
    | inr (r, n) ↦ elim (Option-cases pkg.seek) [
      | inl k ↦ absurd (err≢ok (rw (n, k) at h))
      | inr (q, k) ↦ elim (Bool-cases (pkg.size == 0)) [
        | inl z ↦ absurd (err≢ok (rw (n, k, z) at h))
        | inr z ↦ open_sought-Heeds pkg (stream_seek pkg st 0) io dir (rw (n, k, z) at h)
      ]
    ]
  ]

  module _ {S : Type 0} (ops : SaveOps S) (view : S → Files) (keeps : KeepsFiles ops view) where
    archive_unpack-saved :
        (pkg : Option (Stream P)) (pst : P) (st : S) (io : ZipIo P) (dir : Directory)
        (es : List Entry) (x : Unit {0})
        → reader_open unzip pkg pst ≡ ok (io, dir)
        → collect_payload dir.files ≡ ok es
        → (archive_unpack unzip ops pkg pst st).1 ≡ ok x
        → view (archive_unpack unzip ops pkg pst st).0 ≡ saved no_files (package_files dir io es)
    unfolding archive_unpack
    archive_unpack-saved pkg pst st io dir es x opened collected h =
        rw (opened, collected)
          (unpack_payload-saved view ops keeps dir (reader_open-Heeds pkg pst io dir opened) io st
            es x (rw (opened, collected) at h))

    -- A package that verifies against a manifest and is then unpacked, from the same state of its stream,
    -- leaves in the save exactly the files of a payload that has the digest and the total size, as an
    -- unsigned 64-bit number, that the manifest names, and nothing of what was there, if the zip library keeps to its documentation, and
    -- the save keeps what is written into it and creates or truncates a file that is opened for
    -- writing. Of two entries with one path the later one's content is there.
    pub archive_unpack-archive_verify :
        (pkg : Option (Stream P)) (pst : P) (st : S) (m : Manifest) (x y : Unit {0})
        → archive_verify unzip pkg pst m ≡ ok x
        → (archive_unpack unzip ops pkg pst st).1 ≡ ok y
        → (files : List (Entry × Bytes)) × (bytes : Bytes) × (hash_files files ≡ ok (bytes, m.size))
          × (m.sha256 ≡ hex (digest bytes))
          × (view (archive_unpack unzip ops pkg pst st).0 ≡ saved no_files files)
    archive_unpack-archive_verify pkg pst st m x y verified h =
        let (io, dir, opened, match) = archive_verify-Matches unzip pkg pst m x verified in
        (
          package_files dir io match.entries,
          match.bytes,
          match.framed,
          match.digest_of,
          archive_unpack-saved pkg pst st io dir match.entries y opened match.collected h,
        )
