-- ===== src/Sync/Reading.antt =====
-- The reading loop of daemoon_sync_state_load of core/src/sync.c ends by itself.
use dae_moon.Prelude.{
  ℕ, zero, suc, ◌+◌, ◌-◌, ◌≤◌, ◌<◌, ◌≡◌, refl, sym, ◌∙◌, ap, false, [], ◌∷◌, ◌++◌, Bytes, length,
  length-append, leb, Bool-cases, inl, inr, if◌then◌else◌, arith,
}
use mathlib.Core.Bool.{false≢true}
use dae_moon.Errors.{Result, ok, err, either, parse_error}
use dae_moon.Util.Digest.{is_end}
use dae_moon.Sync.Calls.{Stream, stream_read, stream_close}
use dae_moon.Sync.Io.{Io, ret, fail, ask, ◌>>=◌, ◌>>◌}
use dae_moon.Sync.State.{read_walk, state_room}

-- A round of the loop on what was read, with `next` for the rounds that follow.
abbrev round : (Bytes → Io Bytes) → Stream → Bytes → Result Bytes → Io Bytes
round next f so_far r =
    either r (λ e. do ask (stream_close f); fail e)
      (λ chunk.
        if is_end chunk
        then ret so_far
        else if leb state_room (length (so_far ++ chunk))
        then (do ask (stream_close f); fail parse_error)
        else next (so_far ++ chunk))

not_empty : (chunk : Bytes) → is_end chunk ≡ false → 0 < length chunk
unfolding is_end
not_empty [] h = absurd (false≢true (sym h))
not_empty (c ∷ s) h = omega arith

-- Two ways on that agree wherever a round goes on.
round_agree :
    (next next' : Bytes → Io Bytes) (f : Stream) (s : Bytes)
    → ((chunk : Bytes)
        → 0 < length chunk
        → length (s ++ chunk) ≤ state_room
        → next (s ++ chunk) ≡ next' (s ++ chunk))
    → (r : Result Bytes) → round next f s r ≡ round next' f s r
round_agree next next' f s agree (err e) = refl
round_agree next next' f s agree (ok chunk) = elim (Bool-cases (is_end chunk)) [
  | inl e ↦ rw e refl
  | inr e ↦ elim (Bool-cases (leb state_room (length (s ++ chunk)))) [
    | inl k ↦ rw (e, k) refl
    | inr k ↦ rw (e, k) (agree chunk (not_empty chunk e) (ground arith))
  ]
]

read_walk-enough :
    (n : ℕ) (f : Stream) (s : Bytes)
    → state_room - length s < n
    → length s ≤ state_room
    → read_walk n f s ≡ read_walk (suc n) f s
unfolding read_walk
read_walk-enough zero f s h b = absurd (omega arith)
read_walk-enough (suc n) f s h b =
    ap (λ k. ask (stream_read f (state_room - length s)) >>= k)
      (λ i r.
        round_agree (read_walk n f) (read_walk (suc n) f) f s
          (λ chunk p q.
            read_walk-enough n f (s ++ chunk) (omega (arith, p, q, length-append s chunk)) q)
          r i)

-- The rounds that the state file is read with are enough: with any number more, the loop makes the
-- same calls and comes to the same end, whatever is read.
pub read_walk_fuel :
    (k : ℕ) (f : Stream) → read_walk (k + suc state_room) f [] ≡ read_walk (suc state_room) f []
read_walk_fuel zero f = refl
read_walk_fuel (suc k) f =
    let another : suc k + suc state_room ≡ suc (k + suc state_room) = omega arith in
    ap (λ n. read_walk n f []) another
    ∙ sym (read_walk-enough (k + suc state_room) f [] (omega arith) (omega arith))
    ∙ read_walk_fuel k f
