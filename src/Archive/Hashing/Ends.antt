-- ===== src/Archive/Hashing/Ends.antt =====
-- daemoon_archive_hash_save of core/src/archive.c, over a save whose files come to an end: the loops are
-- done, and what is returned is the digest of the save.
use dae_moon.Prelude.{
  ◌%◌, ◌^◌, ℕ, zero, suc, ◌+◌, ◌≡◌, refl, Option, some, List, [], ◌∷◌, Bytes, length, ◌==◌, Bool,
  true, false, if◌then◌else◌,
}
use dae_moon.Errors.{Code, Result, ok, err, either}
use dae_moon.Util.Sha256.{Context, init, update}
use dae_moon.Backend.Streams.{Stream, stream_read}
use dae_moon.Archive.{Entry}
use dae_moon.Archive.Reader.{hash_entry_header}
use dae_moon.Archive.Unpack.{OpenMode, SaveOps}
use dae_moon.Archive.Hashing.{
  list_save, hash_stream, hash_ended, hash_opened, hash_next, hash_finished, hash_entries,
  archive_hash_save,
}
use dae_moon.Archive.Hashing.Saved.{IsHashed, archive_hash_save-ok}

-- So many reads of `room` bytes come to the end of a file, or to a failure.
pub data Ends {S : Type 0} (f : Stream S) (room : ℕ) : ℕ → S → Type 0 where
  fails :
      {n : ℕ} {st st' : S} {e : Code}
      → stream_read f st room ≡ (st', err e)
      → Ends f room (suc n) st
  at_end : {n : ℕ} {st st' : S} → stream_read f st room ≡ (st', ok []) → Ends f room (suc n) st
  reads :
      {n : ℕ} {st st' : S} {got : Bytes}
      → stream_read f st room ≡ (st', ok got)
      → Ends f room n st'
      → Ends f room (suc n) st

-- What the result of hashing a save says: nothing, or its digest and size.
abbrev pub Returned : {S : Type 0} → SaveOps S → S → Result (Bytes × ℕ) → Type 0
Returned ops st (err e) = Unit
Returned ops st (ok (sha, n)) = IsHashed ops st sha n

-- A loop that is done.
abbrev Done : {A : Type 0} → Option A → Type 0
Done {A} o = (a : A) × (o ≡ some a)

branch-Done :
    {A : Type 0} (b : Bool) (a : A) (more : Option A)
    → Done more
    → Done (if b then some a else more)
branch-Done true a more d = (_, refl)
branch-Done false a more d = d

module _ {S : Type 0} (f : Stream S) (room : ℕ) where
  hash_stream-Done :
      (n : ℕ) (st : S) (w : Context × ℕ) → Ends f room n st → Done (hash_stream n f room st w)
  unfolding hash_stream
  hash_stream-Done zero st w e = elim e [ ]
  hash_stream-Done (suc n) st w (fails r) = rw r (_, refl)
  hash_stream-Done (suc n) st w (at_end r) = rw r (_, refl)
  hash_stream-Done (suc n) st (h, len) (reads {st' = st'} {got = got} r more) = rw r (
      branch-Done (length got == 0) _ _
        (hash_stream-Done n st' (update h got, len + length got) more))

module _ {S : Type 0} (rounds room : ℕ) (ops : SaveOps S)
    (ends : (before : S) (path : Bytes) (start : S) (f : Stream S)
      → ops.open_file before path OpenMode.for_reading ≡ (start, ok f)
      → Ends f room rounds start) where
  hash_opened-Done :
      (h : Context) (e : Entry) (before : S) (o : S × Result (Stream S))
      → ops.open_file before e.path OpenMode.for_reading ≡ o
      → Done (hash_opened rounds room h e o)
  unfolding hash_opened hash_ended
  hash_opened-Done h e before (st, err c) p = (_, refl)
  hash_opened-Done h e before (st, ok f) p =
      let (r, q) =
        hash_stream-Done f room rounds st (hash_entry_header h e.path e.size, 0)
          (ends before e.path st f p) in
      rw q (_, refl)

  hash_next-Done :
      (more : S → Context → ℕ → Option (S × Result (Context × ℕ))) (total : ℕ)
      (o : Option (S × Result (Context × ℕ)))
      → ((st : S) (h : Context) (n : ℕ) → Done (more st h n))
      → Done o
      → Done (hash_next more total o)
  hash_next-Done more total o next ((st, err c), p) = rw p (_, refl)
  hash_next-Done more total o next ((st, ok (h, n)), p) = rw p (next st h ((total + n) % 2 ^ 64))

  hash_entries-Done :
      (es : List Entry) (st : S) (h : Context) (total : ℕ)
      → Done (hash_entries rounds room ops es st h total)
  unfolding hash_entries
  hash_entries-Done [] st h total = (_, refl)
  hash_entries-Done (e ∷ es) st h total =
      hash_next-Done (hash_entries rounds room ops es) total _ (hash_entries-Done es)
        (hash_opened-Done h e st (ops.open_file st e.path OpenMode.for_reading) refl)

  archive_hash_save-Done : (st : S) → Done (archive_hash_save rounds room ops st)
  unfolding archive_hash_save hash_finished
  archive_hash_save-Done st = listed (list_save ops st)
    where
      listed :
          (r : S × Result (List Entry))
          → Done (
              either r.1
                (λ c. some (r.0, err c))
                (λ es. hash_finished (hash_entries rounds room ops es r.0 init 0)))
      listed (x, err c) = (_, refl)
      listed (x, ok es) = let (d, q) = hash_entries-Done es x init 0 in rw q (_, refl)

  -- Where so many reads come to the end of every file that opens, or to a failure, the hashing of a save
  -- ends. If it succeeds, each entry that the backend lists has, in the order of the paths, had a content read from
  -- the file of its path, as long as the listing said; the size that is returned is the sum of their
  -- lengths, as an unsigned 64-bit number, and the digest that of what they are framed into.
  pub archive_hash_save-Payload :
      (st : S)
      → (st' : S) × (r : Result (Bytes × ℕ)) × (archive_hash_save rounds room ops st
          ≡ some (st', r))
        × Returned ops st r
  archive_hash_save-Payload st =
      let ((st', r), p) = archive_hash_save-Done st in (st', r, p, content r p)
    where
      content :
          {st' : S} (r : Result (Bytes × ℕ))
          → archive_hash_save rounds room ops st ≡ some (st', r)
          → Returned ops st r
      content (err e) p = tt
      content {st'} (ok (sha, n)) p = archive_hash_save-ok rounds room ops st st' sha n p
