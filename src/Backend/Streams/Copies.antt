-- ===== src/Backend/Streams/Copies.antt =====
-- daemoon_stream_copy of core/src/backend.c over streams that keep a content: it ends, and a success has
-- moved all of it.
use dae_moon.Prelude.{
  ℕ, zero, suc, ◌+◌, ◌%◌, ◌^◌, ◌<◌, ◌≡◌, refl, sym, ap, ◌∙◌, some, Option, [], ◌∷◌, ◌++◌, Bytes,
  length, length-append, append_assoc, append-nil, ◌==◌, false, arith,
}
use dae_moon.Errors.{Result, ok, err}
use dae_moon.Backend.Streams.{
  Stream, stream_read, stream_write, Copied, copy_read, copy_written, copy_walk, stream_copy,
}

-- A stream that is read: what is left of it is what its reads return, and an empty read is the end.
pub record Source {S : Type 0} (src : Stream S) (rest : S → Bytes) : Type 0 where
  pub yields :
      (s s' : S) (n : ℕ) (got : Bytes)
      → stream_read src s n ≡ (s', ok got)
      → rest s ≡ got ++ rest s'
  pub ends : (s s' : S) (n : ℕ) → 0 < n → stream_read src s n ≡ (s', ok []) → rest s ≡ []

-- A stream that is written: a write that succeeds appends.
pub record Target {D : Type 0} (dst : Stream D) (content : D → Bytes) : Type 0 where
  pub appends :
      (d d' : D) (buf : Bytes)
      → stream_write dst d buf ≡ (d', ok tt)
      → content d' ≡ content d ++ buf

module _ {D S : Type 0} (dst : Stream D) (src : Stream S) (content : D → Bytes)
    (rest : S → Bytes) where
  -- A copy from `d`, `s` and a total of `t` that ended in `c`.
  abbrev pub IsWhole : D → S → ℕ → Copied D S → Type 0
  IsWhole d s t (d', s', err e) = Unit
  IsWhole d s t (d', s', ok n) =
      (content d' ≡ content d ++ rest s) × (n ≡ (t + length (rest s)) % 2 ^ 64)

  abbrev pub Ends : Option (Copied D S) → D → S → ℕ → Type 0
  Ends o d s t = (c : Copied D S) × (o ≡ some c) × IsWhole d s t c

  module _ (room : ℕ) (source : Source src rest) (target : Target dst content)
      (wide : 0 < room) where
    extend :
        (d d' : D) (s s' : S) (t : ℕ) (got : Bytes)
        → rest s ≡ got ++ rest s'
        → content d' ≡ content d ++ got
        → (c : Copied D S) → IsWhole d' s' ((t + length got) % 2 ^ 64) c
        → IsWhole d s t c
    extend d d' s s' t got split grown (d'', s'', err e) h = tt
    extend d d' s s' t got split grown (d'', s'', ok n) h = (
      h.0 ∙ rw (grown, split) (append_assoc (content d) got (rest s')),
      omega (arith, h.1, ap length split, length-append got (rest s')),
    )

    written_Ends :
        (more : D → S → ℕ → Option (Copied D S)) (d : D) (s s' : S) (t : ℕ) (got : Bytes)
        → rest s ≡ got ++ rest s'
        → ((d' : D) (u : ℕ) → u < 2 ^ 64 → Ends (more d' s' u) d' s' u)
        → (r : D × Result (Unit {0})) → stream_write dst d got ≡ r
        → Ends (copy_written dst src room more s' t got r) d s t
    written_Ends more d s s' t got split next (d', err e) w = ((d', s', err e), refl, tt)
    written_Ends more d s s' t got split next (d', ok x) w =
        let (c, e, h) = next d' ((t + length got) % 2 ^ 64) (omega arith) in
        (c, e, extend d d' s s' t got split (target.appends d d' got w) c h)

    read_Ends :
        (more : D → S → ℕ → Option (Copied D S)) (d : D) (s : S) (t : ℕ)
        → t < 2 ^ 64
        → ((d' : D) (s' : S) (u : ℕ)
            → length (rest s') < length (rest s)
            → u < 2 ^ 64
            → Ends (more d' s' u) d' s' u)
        → (r : S × Result Bytes) → stream_read src s room ≡ r
        → Ends (copy_read dst src room more d t r) d s t
    read_Ends more d s t small next (s', err e) r = ((d, s', err e), refl, tt)
    read_Ends more d s t small next (s', ok []) r =
        let over = source.ends s s' room wide r in
        ((d, s', ok t), refl, rw over (sym (append-nil (content d)), omega arith))
    read_Ends more d s t small next (s', ok (b ∷ got)) r =
        let split = source.yields s s' room (b ∷ got) r in
        let some_bytes : (suc (length got) == 0) ≡ false = ground arith in
        rw some_bytes (
          written_Ends more d s s' t (b ∷ got) split
            (λ d' u h.
              next d' s' u (omega (arith, ap length split, length-append (b ∷ got) (rest s'))) h)
            (stream_write dst d (b ∷ got)) refl)

    copy_walk-Ends :
        (rounds : ℕ) (d : D) (s : S) (t : ℕ)
        → length (rest s) < rounds
        → t < 2 ^ 64
        → Ends (copy_walk dst src room rounds d s t) d s t
    unfolding copy_walk
    copy_walk-Ends zero d s t h small = absurd (omega arith)
    copy_walk-Ends (suc n) d s t h small =
        read_Ends (copy_walk dst src room n) d s t small
          (λ d' s' u shorter k. copy_walk-Ends n d' s' u (omega arith) k) (stream_read src s room)
          refl

    -- A copy through a buffer that holds a byte at least ends after one round more than the source
    -- has bytes; if it then reports success, the target has got exactly what was left of the source, and
    -- the reported number is its length, as an unsigned 64-bit number.
    pub stream_copy-IsWhole :
        (d : D) (s : S) → Ends (stream_copy dst src room (suc (length (rest s))) d s) d s 0
    unfolding stream_copy
    stream_copy-IsWhole d s =
        rw (room_pos) (copy_walk-Ends (suc (length (rest s))) d s 0 (omega arith) (omega arith))
      where
        room_pos : (room == 0) ≡ false
        room_pos = ground arith
