-- ===== src/Archive/Collecting.antt =====
-- The collection of entries in core/src/archive.c takes every entry or refuses the whole, and orders
-- them by path.
use dae_moon.Prelude.{
  starts_with, ℕ, suc, ◌≡◌, ◌≤◌, ◌<◌, refl, sym, ◌∙◌, ap, subst, true, false, Option, none, some,
  List, [], ◌∷◌, ◌++◌, Bytes, text, length, length-append, drop, All, All-append, leb, Bool-cases,
  inl, inr, arith, bytes_eq,
}
use mathlib.Core.Bool.{false≢true}
use dae_moon.Errors.{ok}
use dae_moon.Errors.Laws.{err≢ok, ok_inj, bound_ok}
use dae_moon.Util.Copy.{strlcpy_fits}
use dae_moon.Archive.{
  path_max, max_entries, path_is_safe, Entry, collect_entry, path_before, insert, sort, Stat,
  collect_file, collect_files, collect_payload,
}
use dae_moon.Archive.Paths.{IsSafe, path_is_safe-IsSafe}

abbrev pub HasSafePath : Entry → Type 0
HasSafePath e = IsSafe e.path

-- An entry that is accepted is put behind the others as it is.
pub record Added (ctx : List Entry) (path : Bytes) (size : ℕ) (next : List Entry) : Type 0 where
  pub behind : next ≡ ctx ++ record { path = path; size = size } ∷ []
  pub safe : IsSafe path
  pub room : length ctx < max_entries

pub collect_entry-Added :
    (ctx : List Entry) (path : Bytes) (size : ℕ) (next : List Entry)
    → collect_entry ctx path size ≡ ok next
    → Added ctx path size next
unfolding collect_entry
collect_entry-Added ctx path size next h = elim (Bool-cases (path_is_safe path)) [
  | inr e ↦ absurd (err≢ok (rw e at h))
  | inl e ↦ elim (Bool-cases (leb max_entries (length ctx))) [
    | inl k ↦ absurd (err≢ok (rw (e, k) at h))
    | inr k ↦
        let safe = path_is_safe-IsSafe path e in
        record {
          behind = sym (ok_inj (rw (e, k, strlcpy_fits path_max path safe.bounded) at h));
          safe = safe;
          room = ground arith;
        }
  ]
]

-- A context within its bound whose entries all have safe paths.
pub record Sound (es : List Entry) : Type 0 where
  pub paths : All HasSafePath es
  pub bound : length es ≤ max_entries

pub Added-Sound :
    {ctx : List Entry} {path : Bytes} {size : ℕ} {next : List Entry}
    → Added ctx path size next
    → Sound ctx
    → Sound next
Added-Sound {ctx = ctx} {path = path} {size = size} a s =
    let e : Entry = record { path = path; size = size } in
    subst Sound (sym a.behind) (record {
      paths = All-append HasSafePath ctx (e ∷ []) s.paths (a.safe, tt);
      bound = omega (arith, length-append ctx (e ∷ []), a.room);
    })

-- A text comes first that ends where another goes on, or has the smaller byte where they part.
pub data ComesFirst : Bytes → Bytes → Type 0 where
  ends_first : (y : ℕ) (b : Bytes) → ComesFirst [] (y ∷ b)
  parts : (x y : ℕ) (a b : Bytes) → x < y → ComesFirst (x ∷ a) (y ∷ b)
  goes_on : (x : ℕ) (a b : Bytes) → ComesFirst a b → ComesFirst (x ∷ a) (x ∷ b)

pub path_before-ComesFirst : {a b : Bytes} → ComesFirst a b → path_before a b ≡ true
unfolding path_before
path_before-ComesFirst (ends_first y b) = refl
path_before-ComesFirst (parts x y a b h) = ground arith
path_before-ComesFirst (goes_on x a b h) = ground (arith, path_before-ComesFirst h)

-- No entry has a path that comes before that of the entry in front of it.
abbrev pub IsSorted : List Entry → Type 0
IsSorted [] = Unit
IsSorted (x ∷ []) = Unit
IsSorted (x ∷ y ∷ es) = ¬ (ComesFirst y.path x.path) × IsSorted (y ∷ es)

-- The same, as the comparison tells it.
abbrev IsInTurn : List Entry → Type 0
IsInTurn [] = Unit
IsInTurn (x ∷ []) = Unit
IsInTurn (x ∷ y ∷ es) = (path_before y.path x.path ≡ false) × IsInTurn (y ∷ es)

IsInTurn-IsSorted : (es : List Entry) → IsInTurn es → IsSorted es
IsInTurn-IsSorted [] h = tt
IsInTurn-IsSorted (x ∷ []) h = tt
IsInTurn-IsSorted (x ∷ y ∷ es) h =
    (λ c. false≢true (sym h.0 ∙ path_before-ComesFirst c), IsInTurn-IsSorted (y ∷ es) h.1)

pub path_before_asym : (a b : Bytes) → path_before a b ≡ true → path_before b a ≡ false
unfolding path_before
path_before_asym [] [] h = refl
path_before_asym [] (y ∷ b) h = refl
path_before_asym (x ∷ a) [] h = absurd (false≢true h)
path_before_asym (x ∷ a) (y ∷ b) h = ground (arith, path_before_asym a b)

insert-IsInTurn : (e : Entry) (es : List Entry) → IsInTurn es → IsInTurn (insert e es)
unfolding insert
insert-IsInTurn e [] s = tt
insert-IsInTurn e (x ∷ []) s = elim (Bool-cases (path_before x.path e.path)) [
  | inl k ↦ rw k (path_before_asym x.path e.path k, tt)
  | inr k ↦ rw k (k, tt)
]
insert-IsInTurn e (x ∷ y ∷ es) s = elim (Bool-cases (path_before x.path e.path)) [
  | inr k ↦ rw k (k, s)
  | inl k ↦
      let rest = insert-IsInTurn e (y ∷ es) s.1 in
      elim (Bool-cases (path_before y.path e.path)) [
        | inl j ↦ rw (k, j) (s.0, rw j at rest)
        | inr j ↦ rw (k, j) (path_before_asym x.path e.path k, rw j at rest)
      ]
]

sort-IsInTurn : (es : List Entry) → IsInTurn (sort es)
unfolding sort
sort-IsInTurn [] = tt
sort-IsInTurn (e ∷ es) = insert-IsInTurn e (sort es) (sort-IsInTurn es)

pub sort-IsSorted : (es : List Entry) → IsSorted (sort es)
sort-IsSorted es = IsInTurn-IsSorted (sort es) (sort-IsInTurn es)

insert-HasSafePath :
    (e : Entry) (es : List Entry)
    → HasSafePath e
    → All HasSafePath es
    → All HasSafePath (insert e es)
unfolding insert
insert-HasSafePath e [] p h = (p, tt)
insert-HasSafePath e (x ∷ es) p h = elim (Bool-cases (path_before x.path e.path)) [
  | inl k ↦ rw k (h.0, insert-HasSafePath e es p h.1)
  | inr k ↦ rw k (p, h)
]

length-insert : (e : Entry) (es : List Entry) → length (insert e es) ≡ suc (length es)
unfolding insert
length-insert e [] = refl
length-insert e (x ∷ es) = elim (Bool-cases (path_before x.path e.path)) [
  | inl k ↦ rw k (ap suc (length-insert e es))
  | inr k ↦ rw k refl
]

pub sort-HasSafePath : (es : List Entry) → All HasSafePath es → All HasSafePath (sort es)
unfolding sort
sort-HasSafePath [] h = tt
sort-HasSafePath (e ∷ es) h = insert-HasSafePath e (sort es) h.0 (sort-HasSafePath es h.1)

pub length-sort : (es : List Entry) → length (sort es) ≡ length es
unfolding sort
length-sort [] = refl
length-sort (e ∷ es) = length-insert e (sort es) ∙ ap suc (length-sort es)

collect_file-Sound :
    (ctx : List Entry) (f : Option Stat) (next : List Entry)
    → Sound ctx
    → collect_file ctx f ≡ ok next
    → Sound next
unfolding collect_file
collect_file-Sound ctx none next s h = absurd (err≢ok h)
collect_file-Sound ctx (some st) next s h = elim (Bool-cases st.is_directory) [
  | inl a ↦ subst Sound (ok_inj (rw a at h)) s
  | inr a ↦ elim (Bool-cases (bytes_eq st.filename (text "manifest.json"))) [
    | inl b ↦ subst Sound (ok_inj (rw (a, b) at h)) s
    | inr b ↦ elim (Bool-cases (starts_with (text "payload/") st.filename)) [
      | inr c ↦ absurd (err≢ok (rw (a, b, c) at h))
      | inl c ↦
          Added-Sound
            (collect_entry-Added ctx (drop 8 st.filename) st.uncomp_size next (rw (a, b, c) at h)) s
    ]
  ]
]

collect_files-Sound :
    (ctx : List Entry) (files : List (Option Stat)) (es : List Entry)
    → Sound ctx
    → collect_files ctx files ≡ ok es
    → Sound es
unfolding collect_files
collect_files-Sound ctx [] es s h = subst Sound (ok_inj h) s
collect_files-Sound ctx (f ∷ files) es s h =
    let (next, p, q) = bound_ok (collect_file ctx f) (λ x. collect_files x files) h in
    collect_files-Sound next files es (collect_file-Sound ctx f next s p) q

-- The payload entries of a package, whatever the package says of itself, are 192 at most, sorted by
-- path, and each has a path below the root of the save; or the package is refused.
pub collect_payload-IsSorted :
    (files : List (Option Stat)) (es : List Entry)
    → collect_payload files ≡ ok es
    → IsSorted es × All HasSafePath es × (length es ≤ max_entries)
unfolding collect_payload
collect_payload-IsSorted files es h =
    let (found, p, q) = bound_ok (collect_files [] files) (λ x. ok (sort x)) h in
    let s = collect_files-Sound [] files found (record { paths = tt; bound = omega arith }) p in
    subst (λ x. IsSorted x × All HasSafePath x × (length x ≤ max_entries)) (ok_inj q)
      (
        sort-IsSorted found,
        sort-HasSafePath found s.paths,
        omega (arith, length-sort found, s.bound),
      )
