-- ===== src/Tests/Saves.antt =====
-- A save in memory, and a package of one file, with what the theorems about core/src/archive.c ask of them.
use dae_moon.Prelude.{
  List, bytes_eq→eq, bytes_eq_refl, ℕ, ◌≡◌, ◌≢◌, refl, sym, ap, subst, ◌∙◌, true, false, Option,
  none, some, [], ◌∷◌, ◌++◌, Bytes, text, length, take, drop, append-nil, ◌==◌, Bool-cases, inl,
  inr, ==→eq, arith, if◌then◌else◌, bytes_eq,
}
use mathlib.Core.Bool.{false≢true}
use dae_moon.Errors.{Result, ok, err, not_found}
use dae_moon.Errors.Laws.{ok_inj}
use dae_moon.Backend.Streams.{Stream, stream_write, stream_close}
use dae_moon.Archive.Zip
use dae_moon.Archive.Zip.{Unzip, Reads, Zipper}
use dae_moon.Archive.Unpack.{OpenMode, Listing, returns, entry, SaveOps}
use dae_moon.Archive.Unpack.Writing.{Documented, Files, updated, Writes, KeepsFiles}

-- The files with their contents, and what is left of the one that is being read.
abbrev pub Saved : Type 0
Saved = List (Bytes × Bytes) × Bytes

abbrev content_of : List (Bytes × Bytes) → Files
content_of [] path = none
content_of ((p, c) ∷ fs) path = if bytes_eq p path then some c else content_of fs path

abbrev pub files_of : Saved → Files
files_of s = content_of s.0

-- The content under a path becomes `c`; a file that is not there is created.
abbrev set_at : Bytes → Bytes → List (Bytes × Bytes) → List (Bytes × Bytes)
set_at path c [] = (path, c) ∷ []
set_at path c ((p, d) ∷ fs) = if bytes_eq p path then (p, c) ∷ fs else (p, d) ∷ set_at path c fs

abbrev appended : Saved → Bytes → Bytes → Option Bytes → Saved × Result (Unit {0})
appended s path buf none = (s, err not_found)
appended s path buf (some c) = ((set_at path (c ++ buf) s.0, s.1), ok tt)

abbrev pub file : Bytes → Stream Saved
file path = record {
  read = some (λ s n. ((s.0, drop n s.1), ok (take n s.1)));
  write = some (λ s buf. appended s path buf (files_of s path));
  seek = none;
  close = none;
  size = 0;
}

abbrev listed : Saved → List (Bytes × Bytes) → Listing Saved
listed s [] = returns s (ok tt)
listed s ((p, c) ∷ fs) =
    entry p (length c) (λ stop. if stop then returns s (ok tt) else listed s fs)

abbrev reading : Saved → Bytes → Option Bytes → Saved × Result (Stream Saved)
reading s path none = (s, err not_found)
reading s path (some c) = ((s.0, c), ok (file path))

-- Opening for writing creates or truncates.
abbrev pub open_saved : Saved → Bytes → OpenMode → Saved × Result (Stream Saved)
open_saved s path OpenMode.for_reading = reading s path (files_of s path)
open_saved s path OpenMode.for_writing = ((set_at path [] s.0, []), ok (file path))

abbrev pub in_memory : SaveOps Saved
in_memory = record {
  list_entries = λ s. listed s s.0;
  open_file = open_saved;
  remove_all = λ s. (([], []), ok tt);
}

content_of-set_at :
    (path c q : Bytes) (fs : List (Bytes × Bytes))
    → content_of (set_at path c fs) q ≡ updated (content_of fs) path c q
content_of-set_at path c q [] = refl
content_of-set_at path c q ((p, d) ∷ fs) = elim (Bool-cases (bytes_eq p path)) [
  | inl e ↦
      rw (e, bytes_eq→eq p path e)
        (elim (Bool-cases (bytes_eq path q)) [ inl k ↦ rw k refl | inr k ↦ rw k refl ])
  | inr e ↦ rw e (elim (Bool-cases (bytes_eq p q)) [
    | inl k ↦ rw (k, apart e k) refl
    | inr k ↦ rw k (content_of-set_at path c q fs)
  ])
]
  where
    apart : bytes_eq p path ≡ false → bytes_eq p q ≡ true → bytes_eq path q ≡ false
    apart e k = elim (Bool-cases (bytes_eq path q)) [
      | inr j ↦ j
      | inl j ↦
          let same = bytes_eq→eq p q k ∙ sym (bytes_eq→eq path q j) in
          absurd (false≢true (sym e ∙ subst (λ x. bytes_eq p x ≡ true) same (bytes_eq_refl p)))
    ]

file_written :
    (path : Bytes) (s : Saved) (b : ℕ) (buf c : Bytes)
    → files_of s path ≡ some c
    → stream_write (file path) s (b ∷ buf) ≡ ((set_at path (c ++ b ∷ buf) s.0, s.1), ok tt)
unfolding stream_write
file_written path s b buf c h = written ∙ ap (appended s path (b ∷ buf)) h
  where
    written : stream_write (file path) s (b ∷ buf) ≡ appended s path (b ∷ buf) (files_of s path)
    written = ground arith

behind :
    (path : Bytes) (before : Files) (c d : Bytes) (s : Saved) (q : Bytes)
    → files_of s ≡ updated before path c
    → updated (files_of s) path d q ≡ updated before path d q
behind path before c d s q h = elim (Bool-cases (bytes_eq path q)) [
  | inl k ↦ rw k refl
  | inr k ↦ rw k (ap (λ (f : Files). f q) h ∙ rw k refl)
]

file_appends :
    (path : Bytes) (before : Files) (c : Bytes) (s s' : Saved) (buf : Bytes)
    → files_of s ≡ updated before path c
    → stream_write (file path) s buf ≡ (s', ok tt)
    → files_of s' ≡ updated before path (c ++ buf)
unfolding stream_write
file_appends path before c s s' [] h e =
    sym (ap (λ (r : Saved × Result (Unit {0})). files_of r.0) e)
    ∙ h
    ∙ ap (λ d. updated before path d) (sym (append-nil c))
file_appends path before c s s' (b ∷ buf) h e =
    let there = ap (λ (f : Files). f path) h ∙ rw (bytes_eq_refl path) refl in
    sym (
      ap (λ (r : Saved × Result (Unit {0})). files_of r.0)
        (sym (file_written path s b buf c there) ∙ e))
    ∙ λ i q.
        (content_of-set_at path (c ++ b ∷ buf) q s.0 ∙ behind path before c (c ++ b ∷ buf) s q h) i

file-Writes : (path : Bytes) → Writes files_of (file path) path
unfolding stream_close
file-Writes path = record {
  appends = λ before c s s' buf. file_appends path before c s s' buf;
  closes = λ s s' e. sym (ap (λ (r : Saved × Result (Unit {0})). files_of r.0) e);
}

pub in_memory-KeepsFiles : KeepsFiles in_memory files_of
in_memory-KeepsFiles = record {
  clears = λ s s' e. sym (ap (λ (r : Saved × Result (Unit {0})). files_of r.0) e);
  opens = λ s s' path f e. (
    sym (ap (λ (r : Saved × Result (Stream Saved)). files_of r.0) e)
        ∙ (λ i q. content_of-set_at path [] q s.0 i),
    subst (λ g. Writes files_of g path) (ok_inj (ap (λ (r : Saved × Result (Stream Saved)). r.1) e))
        (file-Writes path),
  );
}

-- The zip library on a package with the one file `payload/a`, whose content is "abc".
abbrev pub one_file : Unzip
one_file size = Reads.read_at 0 size (λ buf. Reads.ret (
    some record {
      files =
          some record { filename = text "payload/a"; is_directory = false; uncomp_size = 3 } ∷ [];
      locate = λ name. if bytes_eq name (text "payload/a") then some 0 else none;
      extract = λ i. Reads.put (text "abc") (λ n. Reads.ret (n == 3));
    }))

refused : (n : ℕ) → n ≢ 3 → (n == 3) ≡ false
refused n h = elim (Bool-cases (n == 3)) [ inl e ↦ absurd (h (==→eq n 3 e)) | inr e ↦ e ]

pub one_file-Documented : Documented one_file
one_file-Documented size buf i n = (refused n, tt)

-- A package that can be read from its start.
abbrev pub pkg : Stream (Unit {0})
pkg = record {
  read = some (λ st n. (st, ok []));
  write = some (λ st buf. (st, ok tt));
  seek = some (λ st n. (st, ok tt));
  close = none;
  size = 22;
}

-- A zip that pulls each entry in one piece and writes what it pulled.
abbrev pub stored : Zipper
stored = record {
  add_callback = λ i name size.
      Zip.Writes.pull size (λ buf. Zip.Writes.write_at 0 [] (λ n. Zip.Writes.ret true));
  add_mem = λ i name content. Zip.Writes.write_at 0 [] (λ n. Zip.Writes.ret true);
  finalize = λ n. Zip.Writes.ret true;
}
