-- ===== src/Archive.antt =====
-- core/src/archive.c: which entry paths are accepted, how the entries of a save or of a package are
-- collected, and the bytes that the payload digest is taken of. Zip files are read by vendored code;
-- what it reports of a file is `Stat` here.
pub mod Paths
pub mod Collecting
pub mod Framing
pub mod Zip
pub mod Reader
pub mod Unpack
pub mod Hashing
pub mod Packing
use dae_moon.Prelude.{
  starts_with, ℕ, zero, suc, ◌+◌, ◌-◌, ◌*◌, ◌/◌, ◌%◌, ◌^◌, Bool, true, false, ◌&&◌, ◌||◌, not,
  Option, none, some, List, [], ◌∷◌, ◌++◌, Bytes, text, bytes_eq, length, take, drop, ltb, leb,
  ◌==◌, if◌then◌else◌,
}
use dae_moon.Errors.{
  Code, Result, ok, err, either, archive_error, io_error, checksum_mismatch, ◌>>=◌,
}
use dae_moon.Util.Strbuf.{Strbuf, init, add, result}
use dae_moon.Util.Copy.{strlcpy}
use dae_moon.Util.Digest.{is_end}
use dae_moon.Util.Sha256.{be_bytes}

-- DAEMOON_PATH_MAX and DAEMOON_ARCHIVE_MAX_ENTRIES
abbrev pub path_max : ℕ
path_max = 256

abbrev pub max_entries : ℕ
max_entries = 192

-- strstr(s, needle) != NULL, for a needle that is not empty
unfoldable pub contains : Bytes → Bytes → Bool
contains needle [] = false
contains needle (c ∷ s) = starts_with needle (c ∷ s) || contains needle s

-- strchr(s, c) != NULL
unfoldable pub has_byte : ℕ → Bytes → Bool
has_byte b [] = false
has_byte b (c ∷ s) = c == b || has_byte b s

unfoldable pub no_control : Bytes → Bool
no_control [] = true
no_control (c ∷ s) = if ltb c 0x20 || c == 0x7f then false else no_control s

-- p[0] is a separator of either kind
unfoldable pub starts_absolute : Bytes → Bool
starts_absolute [] = false
starts_absolute (c ∷ s) = c == b'/' || c == 92

-- p[n - 1] is a slash
unfoldable pub ends_in_slash : Bytes → Bool
ends_in_slash [] = false
ends_in_slash (c ∷ []) = c == b'/'
ends_in_slash (c ∷ d ∷ s) = ends_in_slash (d ∷ s)

unfoldable pub path_is_safe : Bytes → Bool
path_is_safe p =
    if length p == 0 || leb path_max (length p)
    then false
    else if starts_absolute p
    then false
    else if contains (text "..") p
    then false
    else if has_byte 92 p || has_byte b':' p
    then false
    else if not (no_control p)
    then false
    else if contains (text "//") p || ends_in_slash p
    then false
    else true

-- daemoon_archive_entry_t
pub record Entry : Type 0 where
  pub path : Bytes
  pub size : ℕ

-- collect_entry, with the entries that are in the context already
unfoldable pub collect_entry : List Entry → Bytes → ℕ → Result (List Entry)
collect_entry ctx path size =
    if not (path_is_safe path)
    then err archive_error
    else if leb max_entries (length ctx)
    then err archive_error
    else (let copied = strlcpy path_max (some path) in
        either copied.1 (λ e. err archive_error)
          (λ _. ok (ctx ++ record { path = copied.0; size = size } ∷ [])))

-- strcmp(a, b) < 0
unfoldable pub path_before : Bytes → Bytes → Bool
path_before [] [] = false
path_before [] (y ∷ ys) = true
path_before (x ∷ xs) [] = false
path_before (x ∷ xs) (y ∷ ys) = if x == y then path_before xs ys else ltb x y

-- qsort by entry_cmp
unfoldable pub insert : Entry → List Entry → List Entry
insert e [] = e ∷ []
insert e (x ∷ xs) = if path_before x.path e.path then x ∷ insert e xs else e ∷ x ∷ xs

unfoldable pub sort : List Entry → List Entry
sort [] = []
sort (e ∷ es) = insert e (sort es)

-- What the zip reader says of a file: mz_zip_archive_file_stat.
pub record Stat : Type 0 where
  pub filename : Bytes
  pub is_directory : Bool
  pub uncomp_size : ℕ

-- One round of collect_payload; `none` is a file whose description cannot be read.
unfoldable pub collect_file : List Entry → Option Stat → Result (List Entry)
collect_file ctx none = err archive_error
collect_file ctx (some st) =
    if st.is_directory
    then ok ctx
    else if bytes_eq st.filename (text "manifest.json")
    then ok ctx
    else if not (starts_with (text "payload/") st.filename)
    then err archive_error
    else collect_entry ctx (drop 8 st.filename) st.uncomp_size

unfoldable pub collect_files : List Entry → List (Option Stat) → Result (List Entry)
collect_files ctx [] = ok ctx
collect_files ctx (f ∷ files) = do next ← collect_file ctx f; collect_files next files

-- collect_payload
unfoldable pub collect_payload : List (Option Stat) → Result (List Entry)
collect_payload files = do es ← collect_files [] files; ok (sort es)

-- hash_entry_header: the bytes that go into the digest before the content of an entry.
unfoldable pub entry_header : Bytes → ℕ → Bytes
entry_header path size = path ++ 0 ∷ be_bytes 8 size

-- The loop of daemoon_archive_hash_save over the entries and what is read of each: the bytes that go
-- into the digest, and the size of the payload. An entry that does not have its listed size ends it.
unfoldable pub hash_files : List (Entry × Bytes) → Result (Bytes × ℕ)
hash_files [] = ok ([], 0)
hash_files ((e, content) ∷ rest) = if not (length content == e.size) then err io_error else (do
  (behind, total) ← hash_files rest
  ok (entry_header e.path e.size ++ content ++ behind, (length content + total) % 2 ^ 64))
