-- ===== src/Archive/Packing/Described.antt =====
-- daemoon_archive_pack of core/src/archive.c: the manifest that is filled in describes contents that were read
-- from the files of the save.
use dae_moon.Prelude.{
  ◌<◌, ◌%◌, ◌^◌, ℕ, suc, ◌+◌, ◌≡◌, refl, sym, ap, ap₂, subst, ◌∙◌, Bool, true, false, none, some,
  List, [], ◌∷◌, ◌++◌, Bytes, length, ◌==◌, Bool-cases, inl, inr, ==→eq, arith, if◌then◌else◌,
}
use dae_moon.Errors.{Result, ok, err, either, archive_error}
use dae_moon.Errors.Laws.{err≢ok, ok_inj, bound_ok, Result-cases}
use dae_moon.Util.Digest.{hex}
use dae_moon.Util.Sha256.{Context, init, digest}
use dae_moon.Backend.Streams.{Stream, stream_close}
use dae_moon.Manifest.{Manifest}
use dae_moon.Manifest.Parse.{manifest_max_bytes}
use dae_moon.Manifest.Print.{write}
use dae_moon.Archive.{Entry, entry_header}
use dae_moon.Archive.Zip.{Zipper, ZipIo, run_writes}
use dae_moon.Archive.Reader.{fresh_io, payload_name, hash_entry_header}
use dae_moon.Archive.Reader.Hashed.{hashed, nothing_hashed, hashed-header}
use dae_moon.Archive.Unpack.{OpenMode, SaveOps}
use dae_moon.Archive.Hashing.{list_save}
use dae_moon.Archive.Hashing.Listed.{Listed, list_save-Listed}
use dae_moon.Archive.Hashing.Framed.{Payload, Adds, Hashes, no_more, one_more, added, finished}
use dae_moon.Archive.Packing.Pulled.{source_of, Took, took}
use dae_moon.Archive.Packing.{
  PackSrc, Packed, pack_read_cb, pack_added, pack_opened, pack_entry, pack_entries, pack_manifest,
  pack_listed, describe_payload, finish_zip, archive_pack,
}

pack_manifest-describe_payload :
    {P : Type 0} (zip : Zipper) (n : ℕ) (m m' : Manifest) (io : ZipIo P) (w : Context × ℕ)
    → pack_manifest zip n m io w ≡ ok m'
    → describe_payload m w ≡ m'
unfolding pack_manifest
pack_manifest-describe_payload zip n m m' io w h =
    let (json, written, h2) = bound_ok (write (describe_payload m w) manifest_max_bytes) _ h in
    let (x, done, h3) = bound_ok (finish_zip zip n json io) _ h2 in ok_inj h3

-- A file that nothing was read of.
abbrev from_start : {S : Type 0} → S → Context → PackSrc S
from_start st h = record { state = st; hash = h; read_total = 0; failure = none }

module _ {S P : Type 0} where
  abbrev packed_result : Packed P S → Result (Context × ℕ)
  packed_result r = r.2

  pack_added-ok :
      (f : Stream S) (e : Entry) (r : ZipIo P × PackSrc S × Bool) (w : Context × ℕ)
      → packed_result (pack_added f e r) ≡ ok w
      → (w ≡ ((source_of r).hash, (source_of r).read_total)) × ((source_of r).read_total ≡ e.size)
  unfolding pack_added
  pack_added-ok f e (io, src, false) w h = absurd (err≢ok h)
  pack_added-ok f e (io, src, true) w h =
      let (x, closed, q) = bound_ok (stream_close (some f) src.state).1 _ h in
      elim (Bool-cases (src.read_total == e.size)) [
        | inl z ↦ (sym (ok_inj (rw z at q)), ==→eq src.read_total e.size z)
        | inr z ↦ absurd (err≢ok (rw z at q))
      ]

  module _ (zip : Zipper) (ops : SaveOps S) where
    pack_opened-Adds :
        (i : ℕ) (name : Bytes) (io : ZipIo P) (b : Bytes) (e : Entry) (before : S)
        (o : S × Result (Stream S)) (w : Context × ℕ)
        → ops.open_file before e.path OpenMode.for_reading ≡ o
        → packed_result (pack_opened zip i name io (hashed b) e o) ≡ ok w
        → Adds ops b e w
    unfolding pack_opened Took
    pack_opened-Adds i name io b e before (st, err c) w p h = absurd (err≢ok h)
    pack_opened-Adds i name io b e before (st, ok file) w p h =
        let src = from_start st (hash_entry_header (hashed b) e.path e.size) in
        let steps = zip.add_callback i name e.size in
        let (c, reads, got, n) =
          took file steps io src (b ++ entry_header e.path e.size)
            (hashed-header b e.path e.size) in
        let (same, exact) =
          pack_added-ok file e (run_writes (pack_read_cb file) steps io src) w h in
        added ops b e before st file c w p reads (same ∙ ap₂ (λ x y. (x, y)) got (omega (arith, n)))
          (ap (λ (d : Context × ℕ). d.1) same ∙ exact)

    pack_entry-Adds :
        (i : ℕ) (io : ZipIo P) (st : S) (b : Bytes) (e : Entry) (w : Context × ℕ)
        → packed_result (pack_entry zip ops i io st (hashed b) e) ≡ ok w
        → Adds ops b e w
    unfolding pack_entry
    pack_entry-Adds i io st b e w h = elim (Result-cases (payload_name e.path)) [
      | inr (c, n) ↦ absurd (err≢ok (rw n at h))
      | inl (name, n) ↦
          pack_opened-Adds i name io b e st (ops.open_file st e.path OpenMode.for_reading) w refl
            (rw n at h)
    ]

    packed_more :
        (b : Bytes) (total : ℕ) (e : Entry) (es : List Entry) (o : Packed P S)
        → (more : ZipIo P → S → Context → ℕ → Packed P S) (r : Context × ℕ)
        → ((w : Context × ℕ) → packed_result o ≡ ok w → Adds ops b e w)
        → ((io : ZipIo P) (st : S) (b' : Bytes) (n : ℕ)
            → n < 2 ^ 64
            → packed_result (more io st (hashed b') n) ≡ ok r
            → Hashes ops b' n es r)
        → let (io', st', got) = o in
          packed_result
              (either got (λ c. (io', st', err c)) (λ w. more io' st' w.0 ((total + w.1) % 2 ^ 64)))
            ≡ ok r
          → Hashes ops b total (e ∷ es) r
    packed_more b total e es (io, st, err c) more r adds next h = absurd (err≢ok h)
    packed_more b total e es (io, st, ok w) more r adds next h =
        let a = adds w refl in
        one_more ops b total e es w r a (
          next io st (b ++ (entry_header e.path e.size ++ a.content))
            ((total + length a.content) % 2 ^ 64) (omega arith)
            (subst
              (λ (d : Context × ℕ). packed_result (more io st d.0 ((total + d.1) % 2 ^ 64)) ≡ ok r)
              a.got h))

    pack_entries-Hashes :
        (es : List Entry) (r : Context × ℕ) (i : ℕ) (io : ZipIo P) (st : S) (b : Bytes) (total : ℕ)
        → total < 2 ^ 64
        → packed_result (pack_entries zip ops i io st (hashed b) total es) ≡ ok r
        → Hashes ops b total es r
    unfolding pack_entries
    pack_entries-Hashes [] r i io st b total below h =
        subst (Hashes ops b total []) (ok_inj h) (no_more ops b total below)
    pack_entries-Hashes (e ∷ es) r i io st b total below h =
        packed_more b total e es (pack_entry zip ops i io st (hashed b) e)
          (λ io' st' c n. pack_entries zip ops (suc i) io' st' c n es) r
          (pack_entry-Adds i io st b e) (pack_entries-Hashes es r (suc i)) h

    pack_listed-Payload :
        (m m' : Manifest) (io : ZipIo P) (st : S) (es : List Entry)
        → (pack_listed zip ops m io st es).1 ≡ ok m'
        → (bytes : Bytes) × Payload ops es bytes m'.size × (m'.sha256 ≡ hex (digest bytes))
    unfolding pack_listed describe_payload
    pack_listed-Payload m m' io st es h =
        let (w, p, h1) = bound_ok (packed_result (pack_entries zip ops 0 io st init 0 es)) _ h in
        finished ops es w m'.sha256 m'.size
          (pack_entries-Hashes es w 0 io st [] 0 (omega arith) (
            subst (λ c. packed_result (pack_entries zip ops 0 io st c 0 es) ≡ ok w)
              (sym nothing_hashed) p))
          (ap (λ (d : Manifest). (d.sha256, d.size))
            (pack_manifest-describe_payload zip (length es) m m' _ w h1))

    -- A save that is packed to the end, with whatever its backend and the zip library do: the manifest that
    -- is returned has the total size, as an unsigned 64-bit number, and the digest of what the contents of
    -- all entries that the backend lists are framed into, in the order of their paths, and each content was read from the file of its
    -- entry's path, as long as the listing said.
    pub archive_pack-Payload :
        (starts : Bool) (st st' : S) (m m' : Manifest) (out : Stream P) (ost : P)
        → archive_pack zip starts ops st m out ost ≡ (st', ok m')
        → (es : List Entry) × (bytes : Bytes) × Listed ops st es
          × Payload ops es bytes m'.size
          × (m'.sha256 ≡ hex (digest bytes))
    unfolding archive_pack
    archive_pack-Payload starts st st' m m' out ost h =
        listed (list_save ops st) refl (ap (λ (r : S × Result Manifest). r.1) h)
      where
        then_packed : S → List Entry → S × Result Manifest
        then_packed x es =
            if starts then pack_listed zip ops m (fresh_io out ost) x es else (x, err archive_error)

        starting :
            (b : Bool) (x : S) (es : List Entry)
            → (if b
                then pack_listed zip ops m (fresh_io out ost) x es
                else (x, err archive_error)).1
              ≡ ok m'
            → (pack_listed zip ops m (fresh_io out ost) x es).1 ≡ ok m'
        starting true x es q = q
        starting false x es q = absurd (err≢ok q)

        listed :
            (r : S × Result (List Entry))
            → list_save ops st ≡ r
            → (either r.1 (λ c. (r.0, err c)) (then_packed r.0)).1 ≡ ok m'
            → (es : List Entry) × (bytes : Bytes) × Listed ops st es
              × Payload ops es bytes m'.size
              × (m'.sha256 ≡ hex (digest bytes))
        listed (x, err c) p q = absurd (err≢ok q)
        listed (x, ok es) p q =
            let (bytes, payload, same) =
              pack_listed-Payload m m' (fresh_io out ost) x es (starting starts x es q) in
            (
              es,
              bytes,
              list_save-Listed ops st es (ap (λ (r : S × Result (List Entry)). r.1) p),
              payload,
              same,
            )
