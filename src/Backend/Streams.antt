-- ===== src/Backend/Streams.antt =====
-- daemoon_stream_t of core/include/daemoon/backend.h and the stream functions of
-- core/src/backend.c: guarded calls of a stream's function pointers, and the loops over them.
pub mod Copies
use dae_moon.Prelude.{
  ℕ, zero, suc, ◌+◌, ◌-◌, ◌%◌, ◌^◌, ltb, Option, none, some, [], ◌++◌, Bytes, length, ◌==◌,
  if◌then◌else◌,
}
use dae_moon.Errors.{Result, ok, err, invalid_request, unsupported, io_error, internal_error}

-- The function pointers, over the state `S` behind `ctx`; `none` is NULL. A read returns the bytes it
-- put into the buffer, and none of them at the end of the stream.
pub record Stream (S : Type 0) : Type 0 where
  pub read : Option (S → ℕ → S × Result Bytes)
  pub write : Option (S → Bytes → S × Result (Unit {0}))
  pub seek : Option (S → ℕ → S × Result (Unit {0}))
  pub close : Option (S → S × Result (Unit {0}))
  pub size : ℕ

module _ {S : Type 0} where
  -- daemoon_stream_read
  unfoldable pub stream_read : Stream S → S → ℕ → S × Result Bytes
  stream_read s st cap = elim s.read [ none ↦ (st, err invalid_request) | some f ↦ f st cap ]

  -- daemoon_stream_write
  unfoldable pub stream_write : Stream S → S → Bytes → S × Result (Unit {0})
  stream_write s st buf = elim s.write [
    | none ↦ (st, err invalid_request)
    | some f ↦ if length buf == 0 then (st, ok tt) else f st buf
  ]

  -- daemoon_stream_seek
  unfoldable pub stream_seek : Stream S → S → ℕ → S × Result (Unit {0})
  stream_seek s st offset = elim s.seek [ none ↦ (st, err unsupported) | some f ↦ f st offset ]

  -- daemoon_stream_close; `none` is a NULL stream.
  unfoldable pub stream_close : Option (Stream S) → S → S × Result (Unit {0})
  stream_close none st = (st, ok tt)
  stream_close (some s) st = elim s.close [ none ↦ (st, ok tt) | some f ↦ f st ]

  -- A round of daemoon_stream_read_full with what was read; `more` are the rounds that follow.
  abbrev pub full_round :
      (S → Bytes → S × Result Bytes) → Bytes → S × Result Bytes → S × Result Bytes
  full_round more done (st, err e) = (st, err e)
  full_round more done (st, ok got) =
      if length got == 0 then (st, err io_error) else more st (done ++ got)

  unfoldable pub full_walk : ℕ → Stream S → ℕ → S → Bytes → S × Result Bytes
  unfolding stream_read
  full_walk zero s len st done = (st, err internal_error)
  full_walk (suc fuel) s len st done =
      if ltb (length done) len
      then full_round (full_walk fuel s len) done (stream_read s st (len - length done))
      else (st, ok done)

  -- daemoon_stream_read_full. Every round that goes on has read a byte, so these rounds are enough.
  unfoldable pub read_full : Stream S → S → ℕ → S × Result Bytes
  unfolding full_walk
  read_full s st len = full_walk (suc len) s len st []

-- How a copy ends: the states of both streams, and the number of bytes that were copied.
abbrev pub Copied : Type 0 → Type 0 → Type 0
Copied D S = D × S × Result ℕ

module _ {D S : Type 0} (dst : Stream D) (src : Stream S) (scratch_len : ℕ) where
  -- A round of daemoon_stream_copy; the total is an unsigned 64-bit number.
  abbrev pub copy_written :
      (D → S → ℕ → Option (Copied D S))
      → S
      → ℕ
      → Bytes
      → D × Result (Unit {0})
      → Option (Copied D S)
  copy_written more s total got (d, err e) = some (d, s, err e)
  copy_written more s total got (d, ok _) = more d s ((total + length got) % 2 ^ 64)

  abbrev pub copy_read :
      (D → S → ℕ → Option (Copied D S)) → D → ℕ → S × Result Bytes → Option (Copied D S)
  copy_read more d total (s, err e) = some (d, s, err e)
  copy_read more d total (s, ok got) =
      if length got == 0
      then some (d, s, ok total)
      else copy_written more s total got (stream_write dst d got)

  -- The loop, for so many rounds; `none` is a loop that is not done after them.
  unfoldable pub copy_walk : ℕ → D → S → ℕ → Option (Copied D S)
  unfolding stream_read stream_write
  copy_walk zero d s total = none
  copy_walk (suc rounds) d s total =
      copy_read (copy_walk rounds) d total (stream_read src s scratch_len)

  -- daemoon_stream_copy; a NULL scratch buffer has no length either.
  unfoldable pub stream_copy : ℕ → D → S → Option (Copied D S)
  unfolding copy_walk
  stream_copy rounds d s =
      if scratch_len == 0 then some (d, s, err invalid_request) else copy_walk rounds d s 0
