-- ===== src/Archive/Hashing/Framed.antt =====
-- What the payload digests of core/src/archive.c are taken of: contents that were read from the files of a
-- save, framed.
use dae_moon.Prelude.{
  ◌<◌, ◌%◌, ◌^◌, ℕ, ◌+◌, ◌≡◌, refl, sym, ap, ap₂, subst, ◌∙◌, List, [], ◌∷◌, ◌++◌, Bytes, length,
  append_assoc, append-nil, All, arith,
}
use dae_moon.Errors.{ok}
use dae_moon.Util.Digest.{hex}
use dae_moon.Util.Sha256.{Context, final, digest}
use dae_moon.Backend.Streams.{Stream, stream_read}
use dae_moon.Archive.{Entry, entry_header, hash_files}
use dae_moon.Archive.Reader.Hashed.{hashed, final-hashed}
use dae_moon.Archive.Reader.Verified.{hash_files-cons, hash_files-bound}
use dae_moon.Archive.Unpack.{OpenMode, SaveOps}

-- What reads of an open file in turn returned.
pub data ReadsFrom {S : Type 0} (f : Stream S) : S → Bytes → Type 0 where
  nothing_read : {st : S} → ReadsFrom f st []
  then_read :
      (n : ℕ) {st st' : S} {got c : Bytes}
      → stream_read f st n ≡ (st', ok got)
      → ReadsFrom f st' c
      → ReadsFrom f st (got ++ c)

-- An entry's content was read from the file of its path, from the start.
pub record WasRead {S : Type 0} (ops : SaveOps S) (x : Entry × Bytes) : Type 0 where
  pub before : S
  pub start : S
  pub file : Stream S
  pub opened : ops.open_file before x.0.path OpenMode.for_reading ≡ (start, ok file)
  pub content : ReadsFrom file start x.1

abbrev pub names : List (Entry × Bytes) → List Entry
names [] = []
names ((e, c) ∷ xs) = e ∷ names xs

-- A payload of the entries `es` whose contents were read from the save, each as long as its entry says,
-- framed into `bytes`, with the total size `n`.
pub record Payload {S : Type 0} (ops : SaveOps S) (es : List Entry) (bytes : Bytes) (n : ℕ)
    : Type 0 where
  pub files : List (Entry × Bytes)
  pub named : names files ≡ es
  pub read : All (WasRead ops) files
  pub framed : hash_files files ≡ ok (bytes, n)

module _ {S : Type 0} (ops : SaveOps S) where
  -- A hash that got a header and a content that was read.
  pub record Adds (b : Bytes) (e : Entry) (w : Context × ℕ) : Type 0 where
    pub content : Bytes
    pub exact : length content ≡ e.size
    pub read : WasRead ops (e, content)
    pub got : w ≡ (hashed (b ++ (entry_header e.path e.size ++ content)), length content)

  -- The loop over the entries hashes contents that were read.
  pub record Hashes (b : Bytes) (total : ℕ) (es : List Entry) (r : Context × ℕ) : Type 0 where
    pub bytes : Bytes
    pub size : ℕ
    pub payload : Payload ops es bytes size
    pub last : r ≡ (hashed (b ++ bytes), (total + size) % 2 ^ 64)

  pub no_more : (b : Bytes) (total : ℕ) → total < 2 ^ 64 → Hashes b total [] (hashed b, total)
  unfolding hash_files
  no_more b total below = record {
    bytes = [];
    size = 0;
    payload = record { files = []; named = refl; read = tt; framed = refl };
    last = ap₂ (λ x y. (x, y)) (ap hashed (sym (append-nil b))) (omega arith);
  }

  pub one_more :
      (b : Bytes) (total : ℕ) (e : Entry) (es : List Entry) (w r : Context × ℕ) (a : Adds b e w)
      → Hashes
          (b ++ (entry_header e.path e.size ++ a.content))
          ((total + length a.content) % 2 ^ 64)
          es
          r
      → Hashes b total (e ∷ es) r
  one_more b total e es w r a h =
      let header = entry_header e.path e.size in
      let p = h.payload in
      record {
        bytes = header ++ a.content ++ h.bytes;
        size = (length a.content + h.size) % 2 ^ 64;
        payload = record {
          files = (e, a.content) ∷ p.files;
          named = ap (λ x. e ∷ x) p.named;
          read = (a.read, p.read);
          framed = hash_files-cons e a.content h.bytes h.size p.files a.exact p.framed;
        };
        last =
            h.last
            ∙ ap₂ (λ x y. (x, y)) (ap hashed (regroup header a.content h.bytes)) (omega arith);
      }
    where
      regroup : (x y z : Bytes) → (b ++ (x ++ y)) ++ z ≡ b ++ (x ++ y ++ z)
      regroup x y z = simp append_assoc

  -- What one file of a save adds to a hash that it was read into.
  pub added :
      (b : Bytes) (e : Entry) (before start : S) (f : Stream S) (c : Bytes) (w : Context × ℕ)
      → ops.open_file before e.path OpenMode.for_reading ≡ (start, ok f)
      → ReadsFrom f start c
      → w ≡ (hashed ((b ++ entry_header e.path e.size) ++ c), length c)
      → w.1 ≡ e.size
      → Adds b e w
  added b e before start f c w o r g n = record {
    content = c;
    exact = sym (ap (λ (x : Context × ℕ). x.1) g) ∙ n;
    read = record { before = before; start = start; file = f; opened = o; content = r };
    got = g ∙ ap (λ x. (x, length c)) (ap hashed (append_assoc b (entry_header e.path e.size) c));
  }

  -- The digest behind the last entry.
  pub finished :
      (es : List Entry) (r : Context × ℕ) (sha : Bytes) (n : ℕ)
      → Hashes [] 0 es r
      → Path (Bytes × ℕ) (hex (final r.0), r.1) (sha, n)
      → (bytes : Bytes) × Payload ops es bytes n × (sha ≡ hex (digest bytes))
  finished es r sha n h q =
      let size =
        ap (λ (x : Bytes × ℕ). x.1) (sym q)
        ∙ ap (λ (x : Context × ℕ). x.1) h.last
        ∙ none_before h.size (hash_files-bound h.payload.files h.bytes h.size h.payload.framed) in
      (
        h.bytes,
        subst (Payload ops es h.bytes) (sym size) h.payload,
        ap (λ (x : Bytes × ℕ). x.0) (sym q)
            ∙ ap (λ (x : Context × ℕ). hex (final x.0)) h.last
            ∙ ap hex (final-hashed h.bytes),
      )
    where
      none_before : (k : ℕ) → k < 2 ^ 64 → (0 + k) % 2 ^ 64 ≡ k
      none_before k below = omega arith
