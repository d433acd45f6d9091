-- ===== src/Archive/Paths.antt =====
-- What path_is_safe of core/src/archive.c keeps out: a path that leaves the root of the save.
use dae_moon.Prelude.{
  starts_with, ℕ, ◌≡◌, ◌≢◌, ◌≤◌, ◌<◌, refl, sym, ◌∙◌, ap, subst, true, false, List, [], ◌∷◌, ◌++◌,
  Bytes, text, length, All, leb, ◌==◌, ==→eq, Bool-cases, inl, inr, if◌then◌else◌, arith,
  append_assoc,
}
use mathlib.Core.Bool.{false≢true}
use dae_moon.Archive.{
  path_max, contains, has_byte, no_control, starts_absolute, ends_in_slash, path_is_safe,
}

-- The parts of a path between its slashes, behind what has been read of the first.
unfoldable pub parts_from : Bytes → Bytes → List Bytes
parts_from cur [] = cur ∷ []
parts_from cur (c ∷ s) = if c == b'/' then cur ∷ parts_from [] s else parts_from (cur ++ c ∷ []) s

-- A byte that no file system takes for something else.
abbrev pub IsPlainByte : ℕ → Type 0
IsPlainByte c = (32 ≤ c) × (c ≢ 127) × (c ≢ 92) × (c ≢ 58)

-- A path below the root: it is relative and within its buffer, no part of it is empty or `..`, and no
-- byte of it is a control character, a backslash or a colon.
pub record IsSafe (p : Bytes) : Type 0 where
  pub bounded : length p < path_max
  pub bytes : All IsPlainByte p
  pub named : All (λ part. part ≢ []) (parts_from [] p)
  pub inside : All (λ part. part ≢ text "..") (parts_from [] p)

starts_with-append : (n s t : Bytes) → starts_with n s ≡ true → starts_with n (s ++ t) ≡ true
unfolding starts_with
starts_with-append [] s t h = refl
starts_with-append (x ∷ n) [] t h = absurd (false≢true h)
starts_with-append (x ∷ n) (c ∷ s) t h = ground (arith, starts_with-append n s t)

contains-append_left : (n s t : Bytes) → contains n s ≡ true → contains n (s ++ t) ≡ true
unfolding contains
contains-append_left n [] t h = absurd (false≢true h)
contains-append_left n (c ∷ s) t h =
    ground (arith, starts_with-append n (c ∷ s) t, contains-append_left n s t)

contains-append_right : (n s t : Bytes) → contains n t ≡ true → contains n (s ++ t) ≡ true
unfolding contains
contains-append_right n [] t h = h
contains-append_right n (c ∷ s) t h = ground (arith, contains-append_right n s t h)

-- What is not in the whole is in no part of it.
absent-left : (n s t : Bytes) → contains n (s ++ t) ≡ false → contains n s ≡ false
absent-left n s t h = elim (Bool-cases (contains n s)) [
  | inl e ↦ absurd (false≢true (sym h ∙ contains-append_left n s t e))
  | inr e ↦ e
]

absent-right : (n s t : Bytes) → contains n (s ++ t) ≡ false → contains n t ≡ false
absent-right n s t h = elim (Bool-cases (contains n t)) [
  | inl e ↦ absurd (false≢true (sym h ∙ contains-append_right n s t e))
  | inr e ↦ e
]

not_dots : (s : Bytes) → contains (text "..") s ≡ false → s ≢ text ".."
unfolding contains starts_with
not_dots s h e = false≢true (sym h ∙ ap (contains (text "..")) e)

inside_from :
    (cur s : Bytes)
    → contains (text "..") (cur ++ s) ≡ false
    → All (λ part. part ≢ text "..") (parts_from cur s)
unfolding parts_from
inside_from cur [] h = (not_dots cur (absent-left (text "..") cur [] h), tt)
inside_from cur (c ∷ s) h = elim (Bool-cases (c == b'/')) [
  | inl e ↦ rw e (
    not_dots cur (absent-left (text "..") cur (c ∷ s) h),
    inside_from [] s (absent-right (text "..") (c ∷ []) s (absent-right (text "..") cur (c ∷ s) h)),
  )
  | inr e ↦ rw e (
      inside_from (cur ++ c ∷ []) s
        (subst (λ w. contains (text "..") w ≡ false) (sym (append_assoc cur (c ∷ []) s)) h))
]

-- The next part has begun, or begins with the next byte.
abbrev Begun : Bytes → Bytes → Type 0
Begun (x ∷ cur) s = Unit
Begun [] [] = ⊥
Begun [] (c ∷ s) = c ≢ 47

Begun-more : (cur : Bytes) (c : ℕ) (s : Bytes) → Begun (cur ++ c ∷ []) s
Begun-more [] c s = tt
Begun-more (x ∷ cur) c s = tt

Begun-named : (cur : Bytes) → Begun cur [] → cur ≢ []
Begun-named [] b e = b
Begun-named (x ∷ cur) b e = cc

slash_named : (cur s : Bytes) → Begun cur (47 ∷ s) → cur ≢ []
slash_named [] s b e = b refl
slash_named (x ∷ cur) s b e = cc

Begun-next :
    (s : Bytes)
    → contains (text "//") (47 ∷ s) ≡ false
    → ends_in_slash (47 ∷ s) ≡ false
    → Begun [] s
unfolding contains starts_with ends_in_slash
Begun-next [] h e = absurd (false≢true (sym e))
Begun-next (c ∷ s) h e = λ k. ground arith

ends_more : (c : ℕ) (s : Bytes) → ends_in_slash (c ∷ s) ≡ false → ends_in_slash s ≡ false
unfolding ends_in_slash
ends_more c [] e = refl
ends_more c (d ∷ s) e = e

named_from :
    (cur s : Bytes)
    → Begun cur s
    → contains (text "//") s ≡ false
    → ends_in_slash s ≡ false
    → All (λ part. part ≢ []) (parts_from cur s)
unfolding parts_from
named_from cur [] b h e = (Begun-named cur b, tt)
named_from cur (c ∷ s) b h e = elim (Bool-cases (c == b'/')) [
  | inl k ↦
      let q = ==→eq c 47 k in
      rw k (
        slash_named cur s (subst (λ x. Begun cur (x ∷ s)) q b),
        named_from [] s
            (Begun-next s (subst (λ x. contains (text "//") (x ∷ s) ≡ false) q h)
              (subst (λ x. ends_in_slash (x ∷ s) ≡ false) q e))
            (absent-right (text "//") (c ∷ []) s h) (ends_more c s e),
      )
  | inr k ↦ rw k (
      named_from (cur ++ c ∷ []) s (Begun-more cur c s) (absent-right (text "//") (c ∷ []) s h)
        (ends_more c s e))
]

Begun-relative : (p : Bytes) → (length p == 0) ≡ false → starts_absolute p ≡ false → Begun [] p
unfolding starts_absolute
Begun-relative [] h a = absurd (false≢true (sym h))
Begun-relative (c ∷ s) h a = λ k. ground arith

plain_bytes :
    (p : Bytes)
    → has_byte 92 p ≡ false
    → has_byte b':' p ≡ false
    → no_control p ≡ true
    → All IsPlainByte p
unfolding has_byte no_control
plain_bytes [] a b n = tt
plain_bytes (c ∷ s) a b n = (
  (ground arith, λ k. ground arith, λ k. ground arith, λ k. ground arith),
  plain_bytes s (ground arith) (ground arith) (ground arith),
)

-- The tests of path_is_safe, each as it comes out for a path that is accepted.
record Passes (p : Bytes) : Type 0 where
  nonempty : (length p == 0) ≡ false
  bounded : leb path_max (length p) ≡ false
  relative : starts_absolute p ≡ false
  no_dots : contains (text "..") p ≡ false
  no_backslash : has_byte 92 p ≡ false
  no_colon : has_byte b':' p ≡ false
  printable : no_control p ≡ true
  no_empty : contains (text "//") p ≡ false
  no_end : ends_in_slash p ≡ false

path_is_safe-Passes : (p : Bytes) → path_is_safe p ≡ true → Passes p
unfolding path_is_safe
path_is_safe-Passes p h = record {
  nonempty = ground arith;
  bounded = ground arith;
  relative = ground arith;
  no_dots = ground arith;
  no_backslash = ground arith;
  no_colon = ground arith;
  printable = ground arith;
  no_empty = ground arith;
  no_end = ground arith;
}

-- A path that is accepted stays below the root: it is relative and shorter than its buffer, no part of
-- it between slashes is empty or `..`, and no byte of it is a control character, a backslash or a
-- colon.
pub path_is_safe-IsSafe : (p : Bytes) → path_is_safe p ≡ true → IsSafe p
path_is_safe-IsSafe p h =
    let t = path_is_safe-Passes p h in
    record {
      bounded = ground (arith, t.bounded);
      bytes = plain_bytes p t.no_backslash t.no_colon t.printable;
      named = named_from [] p (Begun-relative p t.nonempty t.relative) t.no_empty t.no_end;
      inside = inside_from [] p t.no_dots;
    }
