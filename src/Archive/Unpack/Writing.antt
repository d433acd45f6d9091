-- ===== src/Archive/Unpack/Writing.antt =====
-- extract_write_cb of core/src/archive.c: an extraction into a file of a save that keeps its files.
use dae_moon.Prelude.{
  bytes_eq, if◌then◌else◌, ℕ, ◌≡◌, ◌≢◌, refl, sym, ap, ◌∙◌, Bool, true, false, Option, none, some,
  [], ◌∷◌, ◌++◌, Bytes, length, append_assoc, append-nil, arith, Option-cases, inl, inr,
}
use dae_moon.Errors.{Code, Result, ok, err}
use dae_moon.Errors.Laws.{err≢ok}
use dae_moon.Backend.Streams.{Stream, stream_write, stream_close}
use dae_moon.Archive.Zip.{Directory, Unzip, ZipIo, Reads, ret, read_at, put, zip_read_cb, run_reads}
use mathlib.Core.Bool.{false≢true}
use dae_moon.Archive.Reader.Extracted.{delivered}
use dae_moon.Archive.Unpack.{OpenMode, SaveOps, taken, extract_write_cb}

-- An extraction that fails whatever happens from here on.
abbrev Failing : Reads Bool → Type 0
Failing (ret b) = b ≡ false
Failing (read_at ofs n k) = (buf : Bytes) → Failing (k buf)
Failing (put buf k) = (n : ℕ) → Failing (k n)

-- As miniz documents it: an extraction whose callback takes fewer bytes than it was given fails.
abbrev pub Heeds : Reads Bool → Type 0
Heeds (ret b) = Unit
Heeds (read_at ofs n k) = (buf : Bytes) → Heeds (k buf)
Heeds (put buf k) = (n : ℕ) → ((n ≢ length buf) → Failing (k n)) × Heeds (k n)

-- A call that returns only what has a property.
abbrev pub Returns : {A : Type 0} → (A → Type 0) → Reads A → Type 0
Returns Q (ret a) = Q a
Returns Q (read_at ofs n k) = (buf : Bytes) → Returns Q (k buf)
Returns Q (put buf k) = (n : ℕ) → Returns Q (k n)

abbrev pub HeedsAll : Option Directory → Type 0
HeedsAll none = Unit
HeedsAll (some dir) = (i : ℕ) → Heeds (dir.extract i)

-- A zip library that keeps to its documentation for every package.
abbrev pub Documented : Unzip → Type 0
Documented unzip = (size : ℕ) → Returns HeedsAll (unzip size)

-- The files of a save: what is under each path.
abbrev pub Files : Type 0
Files = Bytes → Option Bytes

abbrev pub no_files : Files
no_files = λ path. none

-- The files with that content under a path, whatever was there.
abbrev pub updated : Files → Bytes → Bytes → Files
updated files path c = λ q. if bytes_eq path q then some c else files q

-- A write that succeeds appends to the file that is being written, and closing it changes nothing.
pub record Writes {S : Type 0} (view : S → Files) (f : Stream S) (path : Bytes) : Type 0 where
  pub appends :
      (before : Files) (c : Bytes) (s s' : S) (buf : Bytes)
      → view s ≡ updated before path c
      → stream_write f s buf ≡ (s', ok tt)
      → view s' ≡ updated before path (c ++ buf)
  pub closes : (s s' : S) → stream_close (some f) s ≡ (s', ok tt) → view s' ≡ view s

-- A save whose files are `view`: clearing it leaves none, and opening one for writing creates or
-- truncates it.
pub record KeepsFiles {S : Type 0} (ops : SaveOps S) (view : S → Files) : Type 0 where
  pub clears : (s s' : S) → ops.remove_all s ≡ (s', ok tt) → view s' ≡ no_files
  pub opens :
      (s s' : S) (path : Bytes) (f : Stream S)
      → ops.open_file s path OpenMode.for_writing ≡ (s', ok f)
      → (view s' ≡ updated (view s) path []) × Writes view f path

run_fails :
    {P W : Type 0} (cb : W → Bytes → W × ℕ) (steps : Reads Bool) (io : ZipIo P) (s : W)
    → Failing steps
    → (run_reads cb steps io s).2 ≡ false
unfolding run_reads
run_fails cb (ret b) io s h = h
run_fails cb (read_at ofs n k) io s h =
    let (io', buf) = zip_read_cb io ofs n in run_fails cb (k buf) io' s (h buf)
run_fails cb (put buf k) io s h = let (s', n) = cb s buf in run_fails cb (k n) io s' (h n)

some_bytes : (c : ℕ) (buf : Bytes) → 0 ≢ length (c ∷ buf)
some_bytes c buf h = omega arith

-- An empty write that fails has not been made.
empty_write :
    {S : Type 0} (f : Stream S) (s s' : S) (e : Code) → stream_write f s [] ≡ (s', err e) → s' ≡ s
unfolding stream_write
empty_write f s s' e h = elim (Option-cases f.write) [
  | inl n ↦ sym (ap (λ r. r.0) (rw n at h))
  | inr (g, n) ↦ absurd (err≢ok (sym (ap (λ r. r.1) (rw n at h))))
]

module _ {S P : Type 0} (f : Stream S) where
  -- Nothing more is written after a failure, and the extraction fails unless nothing more comes.
  run_failed :
      (steps : Reads Bool) (io : ZipIo P) (s : S) (e : Code)
      → Heeds steps
      → let r = run_reads (extract_write_cb f) steps io (s, some e) in
        r.2 ≡ true → (r.0 ≡ (delivered steps io).0) × (r.1.0 ≡ s) × ((delivered steps io).1 ≡ [])
  unfolding run_reads extract_write_cb delivered
  run_failed (ret b) io s e h t = (refl, refl, refl)
  run_failed (read_at ofs n k) io s e h t =
      let (io', buf) = zip_read_cb io ofs n in run_failed (k buf) io' s e (h buf) t
  run_failed (put [] k) io s e h t = run_failed (k 0) io s e (h 0).1 t
  run_failed (put (c ∷ buf) k) io s e h t = absurd (
      false≢true (
        sym (run_fails (extract_write_cb f) (k 0) io (s, some e) ((h 0).0 (some_bytes c buf))) ∙ t))

  module _ (view : S → Files) (path : Bytes) (w : Writes view f path) where
    -- The content c of the file that is written, and what is extracted behind it.
    unfoldable pub Extends :
        Files → Bytes → Reads Bool → ZipIo P → ZipIo P × (S × Option Code) × Bool → Type 0
    Extends before c steps io r =
        r.2 ≡ true
        → (r.0 ≡ (delivered steps io).0)
          × (view r.1.0 ≡ updated before path (c ++ (delivered steps io).1))

    written :
        (buf : Bytes) (k : ℕ → Reads Bool) (io : ZipIo P) (s : S) (before : Files) (c : Bytes)
        → Heeds (put buf k)
        → ((s' : S) (c' : Bytes)
            → view s' ≡ updated before path c'
            → Extends before c'
                (k (length buf))
                io
                (run_reads (extract_write_cb f) (k (length buf)) io (s', none)))
        → view s ≡ updated before path c
        → (r : S × Result (Unit {0})) → stream_write f s buf ≡ r
        → let n = taken (length buf) r in
          Extends before c (put buf k) io (run_reads (extract_write_cb f) (k n.1) io n.0)
    unfolding delivered Extends taken
    written buf k io s before c h next v (s', ok x) e t =
        let (same, grown) = next s' (c ++ buf) (w.appends before c s s' buf v e) t in
        (
          same,
          grown
              ∙ ap (λ z. updated before path z)
                  (append_assoc c buf (delivered (k (length buf)) io).1),
        )
    written [] k io s before c h next v (s', err e) q t =
        let (same, kept, nothing) = run_failed (k 0) io s' e (h 0).1 t in
        (
          same,
          ap view (kept ∙ empty_write f s s' e q)
              ∙ v
              ∙ ap (λ z. updated before path z)
                  (sym (append-nil c) ∙ ap (λ z. c ++ z) (sym nothing)),
        )
    written (b ∷ buf) k io s before c h next v (s', err e) q t = absurd (
        false≢true (
          sym (run_fails (extract_write_cb f) (k 0) io (s', some e) ((h 0).0 (some_bytes b buf)))
          ∙ t))

    -- An extraction that succeeds has appended what the package holds.
    pub run_write :
        (steps : Reads Bool) (io : ZipIo P) (s : S) (before : Files) (c : Bytes)
        → Heeds steps
        → view s ≡ updated before path c
        → Extends before c steps io (run_reads (extract_write_cb f) steps io (s, none))
    unfolding run_reads delivered Extends taken extract_write_cb
    run_write (ret b) io s before c h v t = (refl, rw (append-nil c) v)
    run_write (read_at ofs n k) io s before c h v t =
        let (io', buf) = zip_read_cb io ofs n in run_write (k buf) io' s before c (h buf) v t
    run_write (put buf k) io s before c h v t =
        written buf k io s before c h
          (λ s' c' v'. run_write (k (length buf)) io s' before c' (h (length buf)).1 v') v
          (stream_write f s buf) refl t
