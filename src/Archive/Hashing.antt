-- ===== src/Archive/Hashing.antt =====
-- collect_entry as a callback and daemoon_archive_hash_save of core/src/archive.c. The total size is cut to
-- 64 bits; the count of one file's bytes is not.
pub mod Framed
pub mod Listed
pub mod Saved
pub mod Ends
use dae_moon.Prelude.{
  ◌%◌, ◌^◌, ℕ, zero, suc, ◌+◌, Bool, true, false, not, Option, none, some, List, [], ◌∷◌, ◌++◌,
  Bytes, text, length, ◌==◌, if◌then◌else◌,
}
use dae_moon.Errors.{Code, Result, ok, err, either, ◌>>=◌, archive_error, io_error}
use dae_moon.Util.Digest.{hex}
use dae_moon.Util.Sha256.{Context, init, update, final}
use dae_moon.Backend.Streams.{Stream, stream_read, stream_close}
use dae_moon.Manifest.{Manifest}
use dae_moon.Manifest.Parse.{manifest_max_bytes}
use dae_moon.Manifest.Print.{write}
use dae_moon.Archive.{Entry, collect_entry, sort}
use dae_moon.Archive.Zip.{Writes, Zipper, ZipIo, zip_error, run_writes}
use dae_moon.Archive.Reader.{payload_name, hash_entry_header}
use dae_moon.Archive.Unpack.{OpenMode, Listing, returns, entry, SaveOps}

-- collect_t: the entries so far and the error.
abbrev pub Collected : Type 0
Collected = List Entry × Option Code

-- collect_entry, with whether the walk stops.
unfoldable pub collect_cb : Collected → Bytes → ℕ → Collected × Bool
unfolding collect_entry
collect_cb (es, failure) path size =
    either (collect_entry es path size) (λ e. ((es, some e), true)) (λ es'. ((es', failure), false))

unfoldable pub run_listing :
    {S : Type 0} → Listing S → Collected → S × Collected × Result (Unit {0})
unfolding collect_cb
run_listing (returns st r) c = (st, c, r)
run_listing (entry path size k) c =
    let (c', stop) = collect_cb c path size in run_listing (k stop) c'

module _ {S : Type 0} where
  -- The entries of a save, sorted, as both functions begin with.
  unfoldable pub list_save : SaveOps S → S → S × Result (List Entry)
  unfolding run_listing sort
  list_save ops st =
      let (st', (es, failure), r) = run_listing (ops.list_entries st) ([], none) in
      (st', r >>= λ x. elim failure [ none ↦ ok (sort es) | some e ↦ err e ])

  -- A round of the reading loop of daemoon_archive_hash_save; `more` are the rounds that follow.
  abbrev pub hash_round :
      (S → Context × ℕ → Option (S × Result (Context × ℕ)))
      → Stream S
      → Context × ℕ
      → S × Result Bytes
      → Option (S × Result (Context × ℕ))
  hash_round more f (h, len) (st, err e) = some ((stream_close (some f) st).0, err e)
  hash_round more f (h, len) (st, ok got) =
      if length got == 0 then some (st, ok (h, len)) else more st (update h got, len + length got)

  -- The loop, for so many rounds; `none` is a loop that is not done after them.
  unfoldable pub hash_stream :
      ℕ → Stream S → ℕ → S → Context × ℕ → Option (S × Result (Context × ℕ))
  unfolding stream_read stream_close update
  hash_stream zero f room st w = none
  hash_stream (suc rounds) f room st w =
      hash_round (hash_stream rounds f room) f w (stream_read f st room)

  -- Behind the loop: close, and compare with the listed size.
  unfoldable pub hash_closed :
      Stream S → Entry → S × Result (Context × ℕ) → S × Result (Context × ℕ)
  unfolding stream_close
  hash_closed f e (st, err c) = (st, err c)
  hash_closed f e (st, ok w) =
      let (st', closed) = stream_close (some f) st in
      (st', closed >>= λ x. if w.1 == e.size then ok w else err io_error)

  -- What is made of the loop, if it is done.
  unfoldable pub hash_ended :
      Stream S → Entry → Option (S × Result (Context × ℕ)) → Option (S × Result (Context × ℕ))
  unfolding hash_closed
  hash_ended f e none = none
  hash_ended f e (some r) = some (hash_closed f e r)

  unfoldable pub hash_opened :
      ℕ → ℕ → Context → Entry → S × Result (Stream S) → Option (S × Result (Context × ℕ))
  unfolding hash_stream hash_ended hash_entry_header
  hash_opened rounds room h e (st, err c) = some (st, err c)
  hash_opened rounds room h e (st, ok f) =
      hash_ended f e (hash_stream rounds f room st (hash_entry_header h e.path e.size, 0))

  -- Behind an entry: `more` is the loop over those that are left.
  abbrev pub hash_next :
      (S → Context → ℕ → Option (S × Result (Context × ℕ)))
      → ℕ
      → Option (S × Result (Context × ℕ))
      → Option (S × Result (Context × ℕ))
  hash_next more total none = none
  hash_next more total (some (st, err c)) = some (st, err c)
  hash_next more total (some (st, ok (h, len))) = more st h ((total + len) % 2 ^ 64)

  -- The loop over the entries that are left: the hash and the total behind them.
  unfoldable pub hash_entries :
      ℕ → ℕ → SaveOps S → List Entry → S → Context → ℕ → Option (S × Result (Context × ℕ))
  unfolding hash_opened
  hash_entries rounds room ops [] st h total = some (st, ok (h, total))
  hash_entries rounds room ops (e ∷ es) st h total =
      hash_next (hash_entries rounds room ops es) total
        (hash_opened rounds room h e (ops.open_file st e.path OpenMode.for_reading))

  unfoldable pub digest_and_size : S × Result (Context × ℕ) → S × Result (Bytes × ℕ)
  unfolding hex final
  digest_and_size (st, err c) = (st, err c)
  digest_and_size (st, ok (h, total)) = (st, ok (hex (final h), total))

  unfoldable pub hash_finished : Option (S × Result (Context × ℕ)) → Option (S × Result (Bytes × ℕ))
  unfolding digest_and_size
  hash_finished none = none
  hash_finished (some r) = some (digest_and_size r)

  -- daemoon_archive_hash_save, with the scratch buffer's length: the digest and the size. Each file is
  -- read in so many rounds at most; `none` is a file that needs more.
  unfoldable pub archive_hash_save : ℕ → ℕ → SaveOps S → S → Option (S × Result (Bytes × ℕ))
  unfolding list_save hash_entries hash_finished init
  archive_hash_save rounds room ops st =
      let (st', listed) = list_save ops st in
      either listed (λ c. some (st', err c))
        (λ es. hash_finished (hash_entries rounds room ops es st' init 0))
