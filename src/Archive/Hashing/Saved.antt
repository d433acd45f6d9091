-- ===== src/Archive/Hashing/Saved.antt =====
-- daemoon_archive_hash_save of core/src/archive.c: the digest of a save is that of contents that were read
-- from its files.
use dae_moon.Prelude.{
  ◌<◌, ◌%◌, ◌^◌, ℕ, zero, suc, ◌+◌, ◌≡◌, refl, sym, ap, ap₂, subst, ◌∙◌, Option, none, some, List,
  [], ◌∷◌, ◌++◌, Bytes, length, length-append, append_assoc, append-nil, ◌==◌, Bool-cases, inl, inr,
  ==→eq, arith,
}
use mathlib.Core.Option.{none-ne-some, some_inj}
use dae_moon.Errors.{Result, ok, err, either}
use dae_moon.Errors.Laws.{err≢ok, ok_inj, bound_ok}
use dae_moon.Util.Digest.{hex}
use dae_moon.Util.Sha256.{Context, init, digest}
use dae_moon.Backend.Streams.{Stream, stream_read, stream_close}
use dae_moon.Archive.{Entry, entry_header}
use dae_moon.Archive.Reader.Hashed.{hashed, nothing_hashed, hashed-append, hashed-header}
use dae_moon.Archive.Unpack.{OpenMode, SaveOps}
use dae_moon.Archive.Hashing.{
  list_save, hash_round, hash_stream, hash_closed, hash_ended, hash_opened, hash_next,
  hash_finished, hash_entries, digest_and_size, archive_hash_save,
}
use dae_moon.Archive.Hashing.Listed.{Listed, list_save-Listed}
use dae_moon.Archive.Hashing.Framed.{
  ReadsFrom, nothing_read, then_read, Payload, Adds, Hashes, no_more, one_more, added, finished,
}

module _ {S : Type 0} (f : Stream S) (room : ℕ) where
  -- What the loop has read when it ends well.
  Hashed : S → Bytes → ℕ → Option (S × Result (Context × ℕ)) → Type 0
  Hashed st b n none = Unit
  Hashed st b n (some (st', err e)) = Unit
  Hashed st b n (some (st', ok w)) =
      (c : Bytes) × ReadsFrom f st c × (w ≡ (hashed (b ++ c), n + length c))

  read_more :
      (st st' : S) (b got : Bytes) (n : ℕ) (o : Option (S × Result (Context × ℕ)))
      → stream_read f st room ≡ (st', ok got)
      → Hashed st' (b ++ got) (n + length got) o
      → Hashed st b n o
  unfolding Hashed
  read_more st st' b got n none r h = tt
  read_more st st' b got n (some (x, err e)) r h = tt
  read_more st st' b got n (some (x, ok w)) r (c, reads, same) = (
    got ++ c,
    then_read room r reads,
    same
        ∙ ap₂ (λ x y. (x, y)) (ap hashed (append_assoc b got c))
            (omega (arith, length-append got c)),
  )

  hash_round-Hashed :
      (more : S → Context × ℕ → Option (S × Result (Context × ℕ))) (st : S) (b : Bytes) (n : ℕ)
      → ((st' : S) (b' : Bytes) (n' : ℕ) → Hashed st' b' n' (more st' (hashed b', n')))
      → (r : S × Result Bytes) → stream_read f st room ≡ r
      → Hashed st b n (hash_round more f (hashed b, n) r)
  unfolding Hashed
  hash_round-Hashed more st b n next (st', err e) r = tt
  hash_round-Hashed more st b n next (st', ok got) r = elim (Bool-cases (length got == 0)) [
    | inl z ↦
        rw z ([], nothing_read, ap₂ (λ x y. (x, y)) (ap hashed (sym (append-nil b))) (omega arith))
    | inr z ↦
        rw (z, hashed-append b got)
          (read_more st st' b got n _ r (next st' (b ++ got) (n + length got)))
  ]

  hash_stream-Hashed :
      (rounds : ℕ) (st : S) (b : Bytes) (n : ℕ)
      → Hashed st b n (hash_stream rounds f room st (hashed b, n))
  unfolding hash_stream
  hash_stream-Hashed zero st b n = unfold Hashed in tt
  hash_stream-Hashed (suc rounds) st b n =
      hash_round-Hashed (hash_stream rounds f room) st b n (hash_stream-Hashed rounds)
        (stream_read f st room) refl

hash_closed-ok :
    {S : Type 0} (f : Stream S) (e : Entry) (r : S × Result (Context × ℕ)) (w : Context × ℕ)
    → (hash_closed f e r).1 ≡ ok w
    → (r.1 ≡ ok w) × (w.1 ≡ e.size)
unfolding hash_closed
hash_closed-ok f e (st, err c) w h = absurd (err≢ok h)
hash_closed-ok f e (st, ok w') w h =
    let (x, closed, q) = bound_ok (stream_close (some f) st).1 _ h in
    elim (Bool-cases (w'.1 == e.size)) [
      | inl z ↦
          let same = ok_inj (rw z at q) in
          (ap ok same, ap (λ (d : Context × ℕ). d.1) (sym same) ∙ ==→eq w'.1 e.size z)
      | inr z ↦ absurd (err≢ok (rw z at q))
    ]

abbrev outcome {ℓ} : {S : Type 0} {A : Type ℓ} → S × Result A → Result A
outcome r = r.1

module _ {S : Type 0} (rounds room : ℕ) (ops : SaveOps S) where
  hash_ended-Adds :
      (b : Bytes) (e : Entry) (before start : S) (f : Stream S)
      (o : Option (S × Result (Context × ℕ)))
      → (st : S) (w : Context × ℕ)
      → ops.open_file before e.path OpenMode.for_reading ≡ (start, ok f)
      → Hashed f room start (b ++ entry_header e.path e.size) 0 o
      → hash_ended f e o ≡ some (st, ok w)
      → Adds ops b e w
  unfolding Hashed hash_ended
  hash_ended-Adds b e before start f none st w opened h q = absurd (none-ne-some _ q)
  hash_ended-Adds b e before start f (some (st', err c)) st w opened h q =
      absurd (err≢ok (hash_closed-ok f e (st', err c) w (ap outcome (some_inj.0 q))).0)
  hash_ended-Adds b e before start f (some (st', ok w')) st w opened (c, reads, same) q =
      let (there, exact) = hash_closed-ok f e (st', ok w') w (ap outcome (some_inj.0 q)) in
      added ops b e before start f c w opened reads
        (sym (ok_inj there)
          ∙ same
          ∙ ap (λ k. (hashed ((b ++ entry_header e.path e.size) ++ c), k)) (omega arith))
        exact

  hash_opened-Adds :
      (b : Bytes) (e : Entry) (before : S) (o : S × Result (Stream S)) (st : S) (w : Context × ℕ)
      → ops.open_file before e.path OpenMode.for_reading ≡ o
      → hash_opened rounds room (hashed b) e o ≡ some (st, ok w)
      → Adds ops b e w
  unfolding hash_opened
  hash_opened-Adds b e before (start, err c) st w p h = absurd (err≢ok (ap outcome (some_inj.0 h)))
  hash_opened-Adds b e before (start, ok f) st w p h =
      let begun = hashed-header b e.path e.size in
      hash_ended-Adds b e before start f _ st w p
        (hash_stream-Hashed f room rounds start (b ++ entry_header e.path e.size) 0)
        (subst (λ x. hash_ended f e (hash_stream rounds f room start (x, 0)) ≡ some (st, ok w))
          begun h)

  hash_next-Hashes :
      (b : Bytes) (total : ℕ) (e : Entry) (es : List Entry) (o : Option (S × Result (Context × ℕ)))
      → (st' : S) (r : Context × ℕ)
      → ((st : S) (w : Context × ℕ) → o ≡ some (st, ok w) → Adds ops b e w)
      → ((st : S) (b' : Bytes) (n : ℕ)
          → n < 2 ^ 64
          → hash_entries rounds room ops es st (hashed b') n ≡ some (st', ok r)
          → Hashes ops b' n es r)
      → hash_next (hash_entries rounds room ops es) total o ≡ some (st', ok r)
      → Hashes ops b total (e ∷ es) r
  hash_next-Hashes b total e es none st' r adds next h = absurd (none-ne-some _ h)
  hash_next-Hashes b total e es (some (st, err c)) st' r adds next h =
      absurd (err≢ok (ap outcome (some_inj.0 h)))
  hash_next-Hashes b total e es (some (st, ok w)) st' r adds next h =
      let a = adds st w refl in
      let more = hash_entries rounds room ops es in
      one_more ops b total e es w r a (
        next st (b ++ (entry_header e.path e.size ++ a.content))
          ((total + length a.content) % 2 ^ 64) (omega arith)
          (subst (λ (d : Context × ℕ). more st d.0 ((total + d.1) % 2 ^ 64) ≡ some (st', ok r))
            a.got h))

  hash_entries-Hashes :
      (es : List Entry) (st' : S) (r : Context × ℕ) (st : S) (b : Bytes) (total : ℕ)
      → total < 2 ^ 64
      → hash_entries rounds room ops es st (hashed b) total ≡ some (st', ok r)
      → Hashes ops b total es r
  unfolding hash_entries
  hash_entries-Hashes [] st' r st b total below h =
      subst (Hashes ops b total []) (ok_inj (ap outcome (some_inj.0 h))) (no_more ops b total below)
  hash_entries-Hashes (e ∷ es) st' r st b total below h =
      hash_next-Hashes b total e es
        (hash_opened rounds room (hashed b) e (ops.open_file st e.path OpenMode.for_reading)) st' r
        (λ x w. hash_opened-Adds b e st (ops.open_file st e.path OpenMode.for_reading) x w refl)
        (hash_entries-Hashes es st' r) h

  hash_finished-Payload :
      (es : List Entry) (o : Option (S × Result (Context × ℕ))) (st' : S) (sha : Bytes) (n : ℕ)
      → ((x : S) (r : Context × ℕ) → o ≡ some (x, ok r) → Hashes ops [] 0 es r)
      → hash_finished o ≡ some (st', ok (sha, n))
      → (bytes : Bytes) × Payload ops es bytes n × (sha ≡ hex (digest bytes))
  unfolding hash_finished digest_and_size
  hash_finished-Payload es none st' sha n hashes h = absurd (none-ne-some _ h)
  hash_finished-Payload es (some (x, err c)) st' sha n hashes h =
      absurd (err≢ok (ap outcome (some_inj.0 h)))
  hash_finished-Payload es (some (x, ok r)) st' sha n hashes h =
      finished ops es r sha n (hashes x r refl) (ok_inj (ap outcome (some_inj.0 h)))

-- The digest and the size of a save: of the entries that its backend lists, in the order of their paths,
-- with contents that were read from their files.
abbrev pub IsHashed : {S : Type 0} → SaveOps S → S → Bytes → ℕ → Type 0
IsHashed ops st sha n =
    (es : List Entry) × (bytes : Bytes) × Listed ops st es
    × Payload ops es bytes n
    × (sha ≡ hex (digest bytes))

-- What a save that was hashed has been read from.
pub archive_hash_save-ok :
    {S : Type 0} (rounds room : ℕ) (ops : SaveOps S) (st st' : S) (sha : Bytes) (n : ℕ)
    → archive_hash_save rounds room ops st ≡ some (st', ok (sha, n))
    → IsHashed ops st sha n
unfolding archive_hash_save
archive_hash_save-ok {S} rounds room ops st st' sha n h = listed (list_save ops st) refl h
  where
    listed :
        (r : S × Result (List Entry))
        → list_save ops st ≡ r
        → either r.1
            (λ c. some (r.0, err c))
            (λ es. hash_finished (hash_entries rounds room ops es r.0 init 0))
          ≡ some (st', ok (sha, n))
        → (es : List Entry) × (bytes : Bytes) × Listed ops st es
          × Payload ops es bytes n
          × (sha ≡ hex (digest bytes))
    listed (x, err c) p q = absurd (err≢ok (ap outcome (some_inj.0 q)))
    listed (x, ok es) p q =
        let (bytes, payload, same) =
          hash_finished-Payload rounds room ops es (hash_entries rounds room ops es x (hashed []) 0)
            st' sha n (λ y r. hash_entries-Hashes rounds room ops es y r x [] 0 (omega arith))
            (subst
              (λ c. hash_finished (hash_entries rounds room ops es x c 0) ≡ some (st', ok (sha, n)))
              (sym nothing_hashed) q) in
        (es, bytes, list_save-Listed ops st es (ap outcome p), payload, same)
