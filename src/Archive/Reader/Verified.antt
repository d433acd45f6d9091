-- ===== src/Archive/Reader/Verified.antt =====
-- daemoon_archive_verify of core/src/archive.c: what a package that verifies holds.
use dae_moon.Prelude.{
  ◌<◌, ◌%◌, ◌^◌, Bool-cases, inl, inr, ℕ, ◌+◌, ◌≡◌, refl, sym, ap, subst, eq→==, ap₂, ◌∙◌, Bool,
  true, ◌||◌, not, Option, List, [], ◌∷◌, ◌++◌, Bytes, length, append_assoc, append-nil, ◌==◌,
  ==→eq, arith, if◌then◌else◌,
}
use dae_moon.Errors.{Code, Result, ok, err}
use dae_moon.Errors.Laws.{err≢ok, ok_inj, bound_ok}
use dae_moon.Util.Digest.{hex, hex_equal, hex_equal_iff}
use dae_moon.Util.Sha256.{Context, init, final, digest}
use dae_moon.Backend.Streams.{Stream}
use dae_moon.Manifest.{Manifest}
use dae_moon.Archive.{Entry, entry_header, hash_files, collect_payload}
use dae_moon.Archive.Zip.{Directory, Unzip, ZipIo}
use dae_moon.Archive.Reader.Extracted.{entry_content, package_files}
use dae_moon.Archive.Reader.{
  reader_open, verify_entry, verify_entries, check_digest, archive_verify,
}
use dae_moon.Archive.Reader.Hashed.{hashed, final-hashed, nothing_hashed, Adds, verify_entry-Adds}

pub hash_files-cons :
    (e : Entry) (c b : Bytes) (n : ℕ) (xs : List (Entry × Bytes))
    → length c ≡ e.size
    → hash_files xs ≡ ok (b, n)
    → hash_files ((e, c) ∷ xs) ≡ ok (entry_header e.path e.size ++ c ++ b, (length c + n) % 2 ^ 64)
unfolding hash_files
hash_files-cons e c b n xs h k = rw (eq→== (length c) e.size h, k) refl

-- The total size is a 64-bit number.
pub hash_files-bound :
    (xs : List (Entry × Bytes)) (b : Bytes) (n : ℕ) → hash_files xs ≡ ok (b, n) → n < 2 ^ 64
unfolding hash_files
hash_files-bound [] b n h = omega (arith, ap (λ (r : Bytes × ℕ). r.1) (ok_inj h))
hash_files-bound ((e, c) ∷ xs) b n h = elim (Bool-cases (length c == e.size)) [
  | inr z ↦ absurd (err≢ok (rw z at h))
  | inl z ↦
      let ((rest, t), p, q) = bound_ok (hash_files xs) _ (rw z at h) in
      omega (arith, ap (λ (r : Bytes × ℕ). r.1) (ok_inj q))
]

-- The loop over the entries hashes what the package holds of them.
Hashes : {P : Type 0} → Directory → ZipIo P → Bytes → ℕ → List Entry → Context × ℕ → Type 0
Hashes dir io b total es r =
    (c : Bytes) × (n : ℕ) × (hash_files (package_files dir io es) ≡ ok (c, n))
    × (r ≡ (hashed (b ++ c), (total + n) % 2 ^ 64))

next_verified :
    {P : Type 0} (dir : Directory) (io : ZipIo P) (b : Bytes) (total : ℕ) (e : Entry)
    (es : List Entry)
    → (v : ZipIo P × Result (Context × ℕ)) (w r : Context × ℕ)
    → Adds (entry_content dir io e) b e v w
    → ((b' : Bytes) (t : ℕ)
        → t < 2 ^ 64
        → verify_entries dir v.0 (hashed b') t es ≡ ok r
        → Hashes dir v.0 b' t es r)
    → verify_entries dir v.0 w.0 ((total + w.1) % 2 ^ 64) es ≡ ok r
    → Hashes dir io b total (e ∷ es) r
unfolding Hashes package_files Adds
next_verified dir io b total e es v w r (exact, same, got) next h =
    let (io', c) = entry_content dir io e in
    let header = entry_header e.path e.size in
    let h' =
      subst (λ (d : Context × ℕ). verify_entries dir v.0 d.0 ((total + d.1) % 2 ^ 64) es ≡ ok r) got
        h in
    let (rest, n, framed, last) =
      next (b ++ (header ++ c)) ((total + length c) % 2 ^ 64) (omega arith) h' in
    let framed' =
      subst (λ (z : ZipIo _). hash_files (package_files dir z es) ≡ ok (rest, n)) same framed in
    (
      header ++ c ++ rest,
      (length c + n) % 2 ^ 64,
      hash_files-cons e c rest n (package_files dir io' es) exact framed',
      last ∙ ap₂ (λ x y. (x, y)) (ap hashed (regroup header c rest)) (omega arith),
    )
  where
    regroup : (x y z : Bytes) → (b ++ (x ++ y)) ++ z ≡ b ++ (x ++ y ++ z)
    regroup x y z = simp append_assoc

verify_entries-Hashes :
    {P : Type 0} (dir : Directory) (io : ZipIo P) (es : List Entry) (r : Context × ℕ) (b : Bytes)
    (total : ℕ)
    → total < 2 ^ 64
    → verify_entries dir io (hashed b) total es ≡ ok r
    → Hashes dir io b total es r
unfolding verify_entries
verify_entries-Hashes dir io [] r b total below h =
    unfold Hashes package_files hash_files in
    (
      [],
      0,
      refl,
      sym (ok_inj h) ∙ ap₂ (λ x y. (x, y)) (ap hashed (sym (append-nil b))) (omega arith),
    )
verify_entries-Hashes dir io (e ∷ es) r b total below h =
    let (w, p, q) = bound_ok (verify_entry dir io (hashed b) e).1 _ h in
    next_verified dir io b total e es (verify_entry dir io (hashed b) e) w r
      (verify_entry-Adds dir io b e w p)
      (verify_entries-Hashes dir (verify_entry dir io (hashed b) e).0 es r) q

both_hold :
    (x y : Bool) (e : Code) (u : Unit {0})
    → Path (Result (Unit {0})) (if not x || not y then err e else ok tt) (ok u)
    → (x ≡ true) × (y ≡ true)
both_hold x y e u h = ground arith

check_digest-Matches :
    (m : Manifest) (b : Bytes) (n : ℕ) (x : Unit {0})
    → check_digest m (hashed b, n) ≡ ok x
    → (m.sha256 ≡ hex (digest b)) × (m.size ≡ n)
unfolding check_digest
check_digest-Matches m b n x h =
    let (same, long) =
      both_hold (hex_equal (hex (final (hashed b))) m.sha256) (n == m.size) _ x h in
    (
      sym ((hex_equal_iff (hex (final (hashed b))) m.sha256).0 same).0 ∙ ap hex (final-hashed b),
      sym (==→eq n m.size long),
    )

-- A package that was opened, as `io` and `directory`: the contents of the entries that collect_payload
-- accepts have the sizes that the entries state, the total size that the manifest names, and its
-- digest.
pub record Matches {P : Type 0} (io : ZipIo P) (directory : Directory) (m : Manifest) : Type 0 where
  pub entries : List Entry
  pub collected : collect_payload directory.files ≡ ok entries
  pub bytes : Bytes
  pub framed : hash_files (package_files directory io entries) ≡ ok (bytes, m.size)
  pub digest_of : m.sha256 ≡ hex (digest bytes)

matched :
    {P : Type 0} (m : Manifest) (dir : Directory) (io : ZipIo P) (entries : List Entry)
    (r : Context × ℕ) (x : Unit {0})
    → collect_payload dir.files ≡ ok entries
    → Hashes dir io [] 0 entries r
    → check_digest m r ≡ ok x
    → Matches io dir m
unfolding Hashes
matched m dir io entries r x collected (b, n, framed, same) h =
    let (sha, size) =
      check_digest-Matches m b n x
        (rw (same, none_before n (hash_files-bound _ b n framed)) at h) in
    record {
      entries = entries;
      collected = collected;
      bytes = b;
      framed = rw size framed;
      digest_of = sha;
    }
  where
    none_before : (n : ℕ) → n < 2 ^ 64 → (0 + n) % 2 ^ 64 ≡ n
    none_before n below = omega arith

-- Whatever the zip library and the package's stream do, a package verifies against a manifest only if
-- contents were extracted for each of its payload entries, in their order, of the length that the
-- entry states, such that the manifest has their total size and the digest of what they are framed
-- into.
pub archive_verify-Matches :
    {P : Type 0} (unzip : Unzip) (pkg : Option (Stream P)) (st : P) (m : Manifest) (x : Unit {0})
    → archive_verify unzip pkg st m ≡ ok x
    → (io : ZipIo P) × (dir : Directory) × (reader_open unzip pkg st ≡ ok (io, dir))
      × Matches io dir m
unfolding archive_verify
archive_verify-Matches unzip pkg st m x h =
    let ((io, dir), p, h1) = bound_ok (reader_open unzip pkg st) _ h in
    let (entries, collected, h2) = bound_ok (collect_payload dir.files) _ h1 in
    let (r, q, h3) = bound_ok (verify_entries dir io init 0 entries) _ h2 in
    (
      io,
      dir,
      p,
      matched m dir io entries r x collected
          (verify_entries-Hashes dir io entries r [] 0 (omega arith) (
            subst (λ (c : Context). verify_entries dir io c 0 entries ≡ ok r) (sym nothing_hashed)
              q))
          h3,
    )
