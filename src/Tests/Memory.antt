-- ===== src/Tests/Memory.antt =====
-- A stream over a list of bytes: a read takes from its front, a write appends.
use dae_moon.Prelude.{
  ℕ, zero, suc, ◌<◌, ◌≡◌, refl, sym, ap, ap₂, ◌∙◌, none, some, [], ◌∷◌, ◌++◌, Bytes, append-nil,
  take, drop, take-drop, arith,
}
use dae_moon.Errors.{ok}
use dae_moon.Errors.Laws.{ok_inj}
use dae_moon.Backend.Streams.{Stream, stream_read, stream_write}
use dae_moon.Backend.Streams.Copies.{Source, Target}

abbrev pub memory : Stream Bytes
memory = record {
  read = some (λ st n. (drop n st, ok (take n st)));
  write = some (λ st buf. (st ++ buf, ok tt));
  seek = none;
  close = none;
  size = 0;
}

abbrev pub kept : Bytes → Bytes
kept st = st

nothing_taken : (n : ℕ) (s : Bytes) → 0 < n → take n s ≡ [] → s ≡ []
nothing_taken zero s h e = absurd (omega arith)
nothing_taken (suc n) [] h e = refl
nothing_taken (suc n) (c ∷ s) h e = cc

pub memory-Source : Source memory kept
unfolding stream_read
memory-Source = record {
  yields = λ s s' n got e.
      sym (take-drop n s) ∙ ap₂ (λ x y. x ++ y) (ok_inj (ap (λ r. r.1) e)) (ap (λ r. r.0) e);
  ends = λ s s' n h e. nothing_taken n s h (ok_inj (ap (λ r. r.1) e));
}

written : (d d' buf : Bytes) → stream_write memory d buf ≡ (d', ok tt) → d' ≡ d ++ buf
unfolding stream_write
written d d' [] e = sym (ap (λ r. r.0) e) ∙ sym (append-nil d)
written d d' (c ∷ buf) e = ground arith

pub memory-Target : Target memory kept
memory-Target = record { appends = written }
