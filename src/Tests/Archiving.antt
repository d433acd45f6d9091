-- ===== src/Tests/Archiving.antt =====
-- The theorems about the loops of core/src/archive.c, at a save and a package of one file.
use dae_moon.Prelude.{
  ◌<◌, zero, suc, ap, subst, arith, drop, take, ltb, ℕ, length, Bool, false, ◌≡◌, refl, [], ◌∷◌,
  true, some, Bytes, text, List, bytes_eq, starts_with,
}
use dae_moon.Errors.{Result, ok, err, not_found}
use dae_moon.Errors.Laws.{err≢ok}
use dae_moon.Util.Digest.{hex, is_end, hex_equal, hex_equal_walk}
use dae_moon.Util.Strbuf
use dae_moon.Util.Strbuf.{
  hex_digit, addc, add_json, add_json_byte, add_uint, uint_text, digits_before, addn, add, result,
}
use dae_moon.Util.Copy.{strlcpy}
use dae_moon.Util.Sha256
use dae_moon.Util.Sha256.{
  k_round, rotr, ch, maj, bsig0, bsig1, ssig0, ssig1, block_words, more_words, reversed, round,
  rounds, compress, absorb, whole_blocks, update, be_bytes, zeros, final, digest,
}
use dae_moon.Backend.Streams.{Stream, stream_read, stream_write, stream_seek, stream_close}
use dae_moon.Manifest
use dae_moon.Manifest.{Manifest}
use dae_moon.Archive.{
  Entry, collect_entry, path_before, insert, sort, collect_file, collect_files, collect_payload,
  hash_files, path_is_safe, contains, has_byte, no_control, starts_absolute, ends_in_slash,
}
use dae_moon.Archive.Zip.{run_reads, run_writes, zip_write_cb, zip_read_cb, fill, zip_error}
use dae_moon.Archive.Reader.{
  directory_of, open_directory, open_sought, reader_open, payload_name, hash_entry_header,
  hash_write_cb, file_hash, verify_file, verify_found, verify_entry, verify_entries, check_digest,
  archive_verify,
}
use dae_moon.Archive.Unpack.{
  OpenMode, SaveOps, taken, extract_write_cb, finish_file, unpack_opened, unpack_found,
  unpack_entry, unpack_entries, unpack_payload, archive_unpack,
}
use dae_moon.Archive.Unpack.Writing.{no_files}
use dae_moon.Archive.Unpack.Whole.{saved, archive_unpack-archive_verify}
use dae_moon.Archive.Hashing.{
  collect_cb, run_listing, list_save, hash_stream, hash_closed, hash_ended, hash_opened,
  hash_entries, digest_and_size, hash_finished, archive_hash_save,
}
use dae_moon.Archive.Hashing.Listed.{Listed, list_save-Listed}
use dae_moon.Archive.Hashing.Framed.{Payload}
use dae_moon.Archive.Hashing.Ends.{Ends, at_end, reads, Returned, archive_hash_save-Payload}
use dae_moon.Archive.Packing.{
  finish_zip, describe_payload, pack_manifest, hash_read, pack_read_cb, source_error, pack_added,
  pack_opened, pack_entry, pack_entries, pack_listed, archive_pack,
}
use dae_moon.Archive.Packing.Described.{archive_pack-Payload}
use dae_moon.Manifest.Print.{write, add_parent, add_name, add_secure, add_manifest}
use dae_moon.Manifest.Check.{
  validate, is_lower_hex, lower_hex_walk, is_lower_hex64, is_title_id_char, title_id_walk,
  is_valid_title_id, is_unknown_platform, is_unknown_save_type,
}
use dae_moon.Util.Utf8.{valid, valid_walk, step_len, seq_len}
use dae_moon.Backend.{SaveType}
use dae_moon.Tests.World.{packaged}
use dae_moon.Backend.Names.{platform_name, save_type_name}
use dae_moon.Tests.Saves.{
  open_saved, file, Saved, files_of, in_memory, in_memory-KeepsFiles, one_file, one_file-Documented,
  pkg, stored,
}

abbrev described : Manifest
described = record Manifest.init {
  sha256 = text "9d6362789eebaa5d9bf1e0f2c0e5411c7d583d1df1ecb867360c9471e509a272";
  size = 3;
}

-- A save that holds something else.
abbrev old : Saved
old = ((text "b", text "xy") ∷ [], [])

one_file-archive_verify : archive_verify one_file (some pkg) tt described ≡ ok tt
unfolding archive_verify check_digest verify_entries verify_entry verify_found verify_file file_hash
    hash_write_cb hash_entry_header payload_name reader_open open_sought open_directory directory_of
    run_reads zip_read_cb fill stream_read stream_seek collect_payload collect_files collect_file
    sort insert path_before bytes_eq collect_entry strlcpy path_is_safe starts_with contains
    has_byte no_control starts_absolute ends_in_slash Strbuf.init addn add result hex hex_equal
    hex_equal_walk hex_digit digest final zeros be_bytes update whole_blocks absorb Sha256.init
    compress rounds round reversed more_words block_words ssig1 ssig0 bsig1 bsig0 maj ch rotr
    k_round
one_file-archive_verify = refl

one_file-archive_unpack : (archive_unpack one_file in_memory (some pkg) tt old).1 ≡ ok tt
unfolding archive_unpack unpack_payload unpack_entries unpack_entry unpack_found unpack_opened
    finish_file extract_write_cb taken payload_name reader_open open_sought open_directory
    directory_of run_reads zip_read_cb fill stream_read stream_seek stream_write stream_close
    collect_payload collect_files collect_file sort insert path_before bytes_eq collect_entry
    strlcpy path_is_safe starts_with contains has_byte no_control starts_absolute ends_in_slash
    Strbuf.init addn add result
one_file-archive_unpack = refl

archive_unpack-archive_verify_example :
    (files : List (Entry × Bytes)) × (bytes : Bytes) × (hash_files files ≡ ok (bytes, 3))
    × (described.sha256 ≡ hex (digest bytes))
    × (files_of (archive_unpack one_file in_memory (some pkg) tt old).0 ≡ saved no_files files)
archive_unpack-archive_verify_example =
    archive_unpack-archive_verify one_file one_file-Documented in_memory files_of
      in_memory-KeepsFiles (some pkg) tt old described tt tt one_file-archive_verify
      one_file-archive_unpack

-- A save of the file that is in the package.
abbrev kept : Saved
kept = ((text "a", text "abc") ∷ [], [])

abbrev the_entry : Entry
the_entry = record { path = text "a"; size = 3 }

-- A save whose files are opened only if they have less than eight bytes.
abbrev opened_small : Saved → Bool → Saved × Result (Stream Saved)
opened_small s true = (s, ok (file []))
opened_small s false = (s, err not_found)

abbrev small : SaveOps Saved
small = record in_memory {
  open_file = λ s path mode.
      let r = in_memory.open_file s path mode in opened_small r.0 (ltb (length r.0.1) 8);
}

drop_short : (n : ℕ) (s : Bytes) → length s < n → drop n s ≡ []
drop_short n [] h = drop-empty n
  where
    drop-empty : (k : ℕ) → Path Bytes (drop k []) []
    drop-empty zero = refl
    drop-empty (suc k) = refl
drop_short zero (b ∷ s) h = absurd (omega (arith, h))
drop_short (suc n) (b ∷ s) h = drop_short n s (omega (arith, h))

-- The second read of such a file is at its end.
file-two_reads : (s : Saved) → length s.1 < 8 → Ends (file []) 8 2 s
unfolding stream_read
file-two_reads s h =
    reads refl (at_end (ap (λ c. ((s.0, drop 8 c), ok (take 8 c))) (drop_short 8 s.1 h)))

small-two_reads :
    (s start : Saved) (f : Stream Saved) (b : Bool)
    → ltb (length s.1) 8 ≡ b
    → opened_small s b ≡ (start, ok f)
    → Ends f 8 2 start
small-two_reads s start f false fits h =
    absurd (err≢ok (ap (λ (o : Saved × Result (Stream Saved)). o.1) h))
small-two_reads s start f true fits h =
    subst (λ (o : Saved × Result (Stream Saved)). elim o.1 [ err e ↦ Unit | ok g ↦ Ends g 8 2 o.0 ])
      h (file-two_reads s (ground (arith, fits)))

kept-archive_hash_save : archive_hash_save 2 8 small kept ≡ some (kept, ok (described.sha256, 3))
unfolding archive_hash_save hash_finished digest_and_size hash_entries hash_opened hash_ended
    hash_closed hash_stream hash_entry_header list_save run_listing collect_cb collect_entry sort
    insert path_before bytes_eq strlcpy path_is_safe starts_with contains has_byte no_control
    starts_absolute ends_in_slash stream_read stream_close hex hex_digit final zeros be_bytes update
    whole_blocks absorb Sha256.init compress rounds round reversed more_words block_words ssig1
    ssig0 bsig1 bsig0 maj ch rotr k_round
kept-archive_hash_save = refl

archive_hash_save-Payload_example :
    (st' : Saved) × (r : Result (Bytes × ℕ)) × (archive_hash_save 2 8 small kept ≡ some (st', r))
    × Returned small kept r
archive_hash_save-Payload_example =
    archive_hash_save-Payload 2 8 small
      (λ before path start f h.
        let s = (open_saved before path OpenMode.for_reading).0 in
        small-two_reads s start f (ltb (length s.1) 8) refl h)
      kept

-- A save whose backend names its files out of their order.
abbrev swapped : Saved
swapped = ((text "b", text "xy") ∷ (text "a", text "abc") ∷ [], [])

abbrev in_turn : List Entry
in_turn = the_entry ∷ record { path = text "b"; size = 2 } ∷ []

swapped-list_save : (list_save in_memory swapped).1 ≡ ok in_turn
unfolding list_save run_listing collect_cb collect_entry sort insert path_before strlcpy
    path_is_safe starts_with contains has_byte no_control starts_absolute ends_in_slash
swapped-list_save = refl

list_save-Listed_example : Listed in_memory swapped in_turn
list_save-Listed_example = list_save-Listed in_memory swapped in_turn swapped-list_save

abbrev uploading : Manifest
uploading = record packaged {
  save_type = SaveType.savedata;
  version = 5;
  parent_version = 4;
  device_label = text "Switch";
}

abbrev filled_in : Manifest
filled_in = record uploading { sha256 = described.sha256; size = 3 }

kept-archive_pack : archive_pack stored true in_memory kept uploading pkg tt ≡ (kept, ok filled_in)
unfolding archive_pack pack_listed pack_entries pack_entry pack_opened pack_added source_error
    pack_read_cb hash_read pack_manifest describe_payload finish_zip write run_writes zip_write_cb
    zip_error stream_write payload_name hash_entry_header list_save run_listing collect_cb
    collect_entry sort insert path_before bytes_eq strlcpy path_is_safe starts_with contains
    has_byte no_control starts_absolute ends_in_slash stream_read stream_close hex hex_digit final
    zeros be_bytes update whole_blocks absorb Sha256.init compress rounds round reversed more_words
    block_words ssig1 ssig0 bsig1 bsig0 maj ch rotr k_round Strbuf.init addn add addc add_json
    add_json_byte add_uint uint_text digits_before result platform_name save_type_name Manifest.init
    validate is_lower_hex lower_hex_walk is_lower_hex64 is_title_id_char title_id_walk
    is_valid_title_id is_unknown_platform is_unknown_save_type valid valid_walk step_len seq_len
    is_end add_parent add_name add_secure add_manifest
kept-archive_pack = refl

archive_pack-Payload_example :
    (es : List Entry) × (bytes : Bytes) × Listed in_memory kept es
    × Payload in_memory es bytes 3
    × (filled_in.sha256 ≡ hex (digest bytes))
archive_pack-Payload_example =
    archive_pack-Payload stored in_memory true kept kept uploading filled_in pkg tt
      kept-archive_pack
