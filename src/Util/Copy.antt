-- ===== src/Util/Copy.antt =====
-- daemoon_strlcpy of core/src/util/strbuf.c: a copy into a buffer of `cap` bytes, cut on a code point
-- boundary where the string does not fit with its NUL.
use dae_moon.Prelude.{
  ℕ, ◌-◌, ◌≤◌, ◌<◌, ◌≡◌, refl, true, false, Option, none, some, Bytes, [], length, take, ltb,
  if◌then◌else◌, arith, Bool-cases, inl, inr, ltb→lt, ◌==◌,
}
use dae_moon.Errors.{Code, Result, ok, err, buffer_too_small}
use dae_moon.Util.Utf8.{truncate, valid}
use dae_moon.Util.Utf8.Walks.{
  IsText, valid-IsText, kept, truncate-kept, length-kept, kept-IsScalar, take-kept,
}

-- The buffer afterwards and the result; `none` is a NULL source. With no room at all the buffer is
-- not written, and its content here stands for nothing.
unfoldable pub strlcpy : ℕ → Option Bytes → Bytes × Result (Unit {0})
strlcpy cap none = if cap == 0 then ([], err buffer_too_small) else ([], ok tt)
strlcpy cap (some src) =
    if cap == 0
    then ([], err buffer_too_small)
    else if ltb (length src) cap
    then (src, ok tt)
    else (take (truncate src (cap - 1)) src, err buffer_too_small)

-- A string that fits is copied whole.
pub strlcpy_fits : (cap : ℕ) (s : Bytes) → length s < cap → strlcpy cap (some s) ≡ (s, ok tt)
unfolding strlcpy
strlcpy_fits cap s h = ground arith

cut-IsText :
    (m : ℕ) (s : Bytes)
    → IsText s
    → IsText (take (truncate s m) s) × (length (take (truncate s m) s) ≤ m)
cut-IsText m s (cps, h, e) =
    rw (e, truncate-kept m cps h, take-kept m cps)
      ((kept m cps, kept-IsScalar m cps h, refl), length-kept m cps)

-- A copy of a valid text is a valid text that fits with its NUL, whether or not it was cut.
pub strlcpy-valid :
    (cap : ℕ) (s : Bytes)
    → 0 < cap
    → valid s ≡ true
    → (valid (strlcpy cap (some s)).0 ≡ true) × (length (strlcpy cap (some s)).0 < cap)
unfolding strlcpy
strlcpy-valid cap s room h = elim (Bool-cases (ltb (length s) cap)) [
  | inl e ↦ rw (cap_pos, e) (h, ltb→lt (length s) cap e)
  | inr e ↦
      let cut = cut-IsText (cap - 1) s ((valid-IsText s).0 h) in
      rw (cap_pos, e) ((valid-IsText (take (truncate s (cap - 1)) s)).1 cut.0, omega (arith, cut.1))
]
  where
    cap_pos : (cap == 0) ≡ false
    cap_pos = ground arith

-- The only failure of a copy is a buffer that is too small.
pub strlcpy_failure :
    (cap : ℕ) (src : Option Bytes) (e : Code) → (strlcpy cap src).1 ≡ err e → e ≡ buffer_too_small
unfolding strlcpy
strlcpy_failure cap none e h = ground arith
strlcpy_failure cap (some s) e h = ground arith
