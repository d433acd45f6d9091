-- ===== src/Archive/Packing/Pulled.antt =====
-- pack_read_cb of core/src/archive.c: what an entry that is added has hashed of its file.
use dae_moon.Prelude.{
  ℕ, ◌+◌, ◌≡◌, refl, sym, ap, subst, ◌∙◌, Bool, none, some, [], ◌++◌, Bytes, length, length-append,
  append_assoc, append-nil, Option-cases, inl, inr, arith,
}
use dae_moon.Errors.{Code, Result, ok, err}
use dae_moon.Util.Sha256.{update}
use dae_moon.Backend.Streams.{Stream, stream_read}
use dae_moon.Archive.Zip.{Writes, ret, write_at, pull, ZipIo, zip_write_cb, run_writes}
use dae_moon.Archive.Reader.Hashed.{hashed, hashed-append}
use dae_moon.Archive.Hashing.Framed.{ReadsFrom, nothing_read, then_read}
use dae_moon.Archive.Packing.{PackSrc, hash_read, pack_read_cb}

abbrev pub source_of : {S P : Type 0} → ZipIo P × PackSrc S × Bool → PackSrc S
source_of r = r.1

module _ {S : Type 0} (f : Stream S) where
  nothing_pulled :
      (src : PackSrc S) (n : ℕ) (e : Code) → src.failure ≡ some e → pack_read_cb f src n ≡ (src, [])
  unfolding pack_read_cb
  nothing_pulled src n e h = rw h refl

  read_pulled :
      (src : PackSrc S) (n : ℕ)
      → src.failure ≡ none
      → pack_read_cb f src n ≡ hash_read src (stream_read f src.state n)
  unfolding pack_read_cb
  read_pulled src n h = rw h refl

  -- What was read of a file, into a hash that had got `b`.
  unfoldable pub Took : S → Bytes → ℕ → PackSrc S → Type 0
  Took st b n r =
      (c : Bytes) × ReadsFrom f st c × (r.hash ≡ hashed (b ++ c)) × (r.read_total ≡ n + length c)

  nothing_more :
      (b : Bytes) (src : PackSrc S) → src.hash ≡ hashed b → (st : S) → Took st b src.read_total src
  unfolding Took
  nothing_more b src h st = ([], nothing_read, h ∙ ap hashed (sym (append-nil b)), omega arith)

  pulled_more :
      (st st' : S) (n : ℕ) (b got : Bytes) (total : ℕ) (r : PackSrc S)
      → stream_read f st n ≡ (st', ok got)
      → Took st' (b ++ got) (total + length got) r
      → Took st b total r
  unfolding Took
  pulled_more st st' n b got total r p (c, reads, h, m) = (
    got ++ c,
    then_read n p reads,
    h ∙ ap hashed (append_assoc b got c),
    omega (arith, m, length-append got c),
  )

  module _ {P : Type 0} where
    -- Behind an error nothing is read.
    stuck :
        (steps : Writes) (io : ZipIo P) (src : PackSrc S) (e : Code)
        → src.failure ≡ some e
        → source_of (run_writes (pack_read_cb f) steps io src) ≡ src
    unfolding run_writes
    stuck (ret b) io src e h = refl
    stuck (write_at ofs buf k) io src e h =
        let (io', n) = zip_write_cb io ofs buf in stuck (k n) io' src e h
    stuck (pull n k) io src e h =
        subst
          (λ (r : PackSrc S × Bytes). source_of (run_writes (pack_read_cb f) (k r.1) io r.0) ≡ src)
          (sym (nothing_pulled src n e h)) (stuck (k []) io src e h)

    read_then :
        (steps : Bytes → Writes) (io : ZipIo P) (src : PackSrc S) (b : Bytes) (n : ℕ)
        (r : S × Result Bytes)
        → ((buf : Bytes) (src' : PackSrc S) (b' : Bytes)
            → src'.hash ≡ hashed b'
            → Took src'.state b' src'.read_total
                (source_of (run_writes (pack_read_cb f) (steps buf) io src')))
        → src.hash ≡ hashed b
        → stream_read f src.state n ≡ r
        → let (src', buf) = hash_read src r in
          Took src.state b src.read_total
            (source_of (run_writes (pack_read_cb f) (steps buf) io src'))
    unfolding hash_read
    read_then steps io src b n (st, err e) next h p =
        let failed = record src { state = st; failure = some e } in
        subst (Took src.state b src.read_total) (sym (stuck (steps []) io failed e refl))
          (nothing_more b failed h src.state)
    read_then steps io src b n (st, ok got) next h p =
        let read = record src {
          state = st;
          hash = update src.hash got;
          read_total = src.read_total + length got;
        } in
        pulled_more src.state st n b got src.read_total _ p
          (next got read (b ++ got) (ap (λ x. update x got) h ∙ hashed-append b got))

    pub took :
        (steps : Writes) (io : ZipIo P) (src : PackSrc S) (b : Bytes)
        → src.hash ≡ hashed b
        → Took src.state b src.read_total (source_of (run_writes (pack_read_cb f) steps io src))
    unfolding run_writes
    took (ret x) io src b h = nothing_more b src h src.state
    took (write_at ofs buf k) io src b h =
        let (io', n) = zip_write_cb io ofs buf in took (k n) io' src b h
    took (pull n k) io src b h =
        let Goal = λ (r : PackSrc S × Bytes).
          Took src.state b src.read_total
            (source_of (run_writes (pack_read_cb f) (k r.1) io r.0)) in
        elim (Option-cases src.failure) [
          | inr (e, q) ↦ subst Goal (sym (nothing_pulled src n e q)) (took (k []) io src b h)
          | inl q ↦
              subst Goal (sym (read_pulled src n q))
                (read_then k io src b n (stream_read f src.state n) (λ buf. took (k buf) io) h refl)
        ]
