-- ===== src/Archive/Reader/Hashed.antt =====
-- A round of daemoon_archive_verify of core/src/archive.c: what it adds to the hash.
use dae_moon.Prelude.{
  ℕ, ◌+◌, ◌≡◌, ◌<◌, refl, sym, ap, ap₂, ◌∙◌, Bool, true, false, Option, none, some, [], ◌∷◌, ◌++◌,
  Bytes, length, length-append, append_assoc, append-nil, ◌==◌, Bool-cases, inl, inr, ==→eq, arith,
}
use dae_moon.Errors.{Result, ok}
use dae_moon.Errors.Laws.{err≢ok, ok_inj, Result-cases}
use dae_moon.Util.Sha256.{Context, init, update, final, digest, be_bytes}
use dae_moon.Util.Sha256.Chunks.{update-update}
use dae_moon.Archive.{Entry, entry_header}
use dae_moon.Archive.Zip.{Directory, ZipIo, Reads, ret, read_at, put, zip_read_cb, run_reads}
use dae_moon.Archive.Reader.Extracted.{delivered, content_at, entry_content}
use dae_moon.Archive.Reader.{
  payload_name, hash_entry_header, hash_write_cb, file_hash, verify_found, verify_file,
  verify_entry,
}

begins : length init.block < 64
unfolding init
begins = omega arith

-- A hash that has got `b`.
abbrev pub hashed : Bytes → Context
hashed b = update init b

pub nothing_hashed : hashed [] ≡ init
unfolding update
nothing_hashed = refl

pub final-hashed : (b : Bytes) → final (hashed b) ≡ digest b
unfolding digest
final-hashed b = refl

pub hashed-append : (b x : Bytes) → update (hashed b) x ≡ hashed (b ++ x)
hashed-append b x = (update-update init b x begins).0

pub hashed-header :
    (b : Bytes) (path : Bytes) (size : ℕ)
    → hash_entry_header (hashed b) path size ≡ hashed (b ++ entry_header path size)
unfolding hash_entry_header entry_header
hashed-header b path size =
    rw (hashed-append b path, hashed-append (b ++ path) (0 ∷ []))
      (hashed-append ((b ++ path) ++ 0 ∷ []) (be_bytes 8 size) ∙ ap hashed regroup)
  where
    regroup : ((b ++ path) ++ 0 ∷ []) ++ be_bytes 8 size ≡ b ++ (path ++ 0 ∷ be_bytes 8 size)
    regroup = simp append_assoc

module _ {P : Type 0} where
  -- An extraction into a hash.
  run_hash :
      {A : Type 0} (steps : Reads A) (io : ZipIo P) (b : Bytes) (n : ℕ)
      → let (io', c, a) = delivered steps io in
        run_reads hash_write_cb steps io (hashed b, n) ≡ (io', (hashed (b ++ c), n + length c), a)
  unfolding run_reads hash_write_cb delivered
  run_hash (ret a) io b n =
      ap₂ (λ h m. (io, (h, m), a)) (ap hashed (sym (append-nil b))) (omega arith)
  run_hash (read_at ofs n k) io b m =
      let (io', buf) = zip_read_cb io ofs n in run_hash (k buf) io' b m
  run_hash (put buf k) io b n =
      let (io', c, a) = delivered (k (length buf)) io in
      ap (λ h. run_reads hash_write_cb (k (length buf)) io (h, n + length buf))
        (hashed-append b buf)
      ∙ run_hash (k (length buf)) io (b ++ buf) (n + length buf)
      ∙ ap₂ (λ h m. (io', (h, m), a)) (ap hashed (append_assoc b buf c))
          (omega (arith, length-append buf c))

  file_hash-ok :
      (e : Entry) (r : ZipIo P × (Context × ℕ) × Bool) (w : Context × ℕ)
      → file_hash e r ≡ ok w
      → (r.1 ≡ w) × (r.1.1 ≡ e.size)
  unfolding file_hash
  file_hash-ok e (io, w', true) w h = elim (Bool-cases (w'.1 == e.size)) [
    | inl k ↦ (ok_inj (rw k at h), ==→eq w'.1 e.size k)
    | inr k ↦ absurd (err≢ok (rw k at h))
  ]
  file_hash-ok e (io, w', false) w h = absurd (err≢ok h)

  -- A file that was hashed: its content behind its header, as long as its entry says.
  unfoldable pub Adds :
      ZipIo P × Bytes → Bytes → Entry → ZipIo P × Result (Context × ℕ) → Context × ℕ → Type 0
  Adds (io, c) b e r w =
      (length c ≡ e.size)
      × (r.0 ≡ io)
      × (w ≡ (hashed (b ++ (entry_header e.path e.size ++ c)), length c))

  verify_file-Adds :
      (dir : Directory) (io : ZipIo P) (b : Bytes) (e : Entry) (i : ℕ) (w : Context × ℕ)
      → (verify_file dir io (hashed b) e i).1 ≡ ok w
      → Adds (content_at dir io (some i)) b e (verify_file dir io (hashed b) e i) w
  unfolding verify_file content_at Adds
  verify_file-Adds dir io b e i w h =
      let begin = hash_entry_header (hashed b) e.path e.size in
      let done = run_reads hash_write_cb (dir.extract i) io (begin, 0) in
      let (same, exact) = file_hash-ok e done w h in
      let header = entry_header e.path e.size in
      let (io', c, a) = delivered (dir.extract i) io in
      let seen =
        ap (λ x. run_reads hash_write_cb (dir.extract i) io (x, 0)) (hashed-header b e.path e.size)
        ∙ run_hash (dir.extract i) io (b ++ header) 0 in
      (
        omega (arith, exact, ap (λ (r : ZipIo P × (Context × ℕ) × Bool). r.1.1) seen),
        ap (λ (r : ZipIo P × (Context × ℕ) × Bool). r.0) seen,
        sym same
            ∙ ap (λ (r : ZipIo P × (Context × ℕ) × Bool). r.1) seen
            ∙ ap₂ (λ x y. (x, y)) (ap hashed (append_assoc b header c)) (omega arith),
      )

  verify_found-Adds :
      (dir : Directory) (io : ZipIo P) (b : Bytes) (e : Entry) (o : Option ℕ) (w : Context × ℕ)
      → (verify_found dir io (hashed b) e o).1 ≡ ok w
      → Adds (content_at dir io o) b e (verify_found dir io (hashed b) e o) w
  unfolding verify_found
  verify_found-Adds dir io b e none w h = absurd (err≢ok h)
  verify_found-Adds dir io b e (some i) w h = verify_file-Adds dir io b e i w h

  pub verify_entry-Adds :
      (dir : Directory) (io : ZipIo P) (b : Bytes) (e : Entry) (w : Context × ℕ)
      → (verify_entry dir io (hashed b) e).1 ≡ ok w
      → Adds (entry_content dir io e) b e (verify_entry dir io (hashed b) e) w
  unfolding verify_entry entry_content
  verify_entry-Adds dir io b e w h = elim (Result-cases (payload_name e.path)) [
    | inr (c, n) ↦ absurd (err≢ok (rw n at h))
    | inl (name, n) ↦ rw n (verify_found-Adds dir io b e (dir.locate name) w (rw n at h))
  ]
