-- ===== src/Archive/Hashing/Listed.antt =====
-- list_entries of a save with collect_entry of core/src/archive.c as its callback: what the entries are
-- that come of it.
use dae_moon.Prelude.{
  ℕ, ◌+◌, ◌≡◌, ◌≤◌, refl, sym, ◌∙◌, ap, subst, Bool, true, false, none, some, List, [], ◌∷◌, ◌++◌,
  append_assoc, append-nil, Bytes, length, All, Bool-cases, inl, inr, arith, Option-cases,
  if◌then◌else◌,
}
use mathlib.Core.Option.{none-ne-some}
use dae_moon.Errors.{Code, Result, ok, err, either}
use dae_moon.Errors.Laws.{err≢ok, ok_inj, bound_ok, Result-cases}
use dae_moon.Archive.{max_entries, Entry, collect_entry, path_before, insert, sort}
use dae_moon.Archive.Collecting.{
  HasSafePath, IsSorted, Sound, Added-Sound, collect_entry-Added, sort-IsSorted, sort-HasSafePath,
  length-sort,
}
use dae_moon.Archive.Unpack.{Listing, returns, entry, SaveOps}
use dae_moon.Archive.Hashing.{Collected, collect_cb, run_listing, list_save}

-- Every entry of a listing that is never told to stop, as the backend names it.
abbrev pub all_named : {S : Type 0} → Listing S → List Entry
all_named (returns st r) = []
all_named (entry path size k) = record { path = path; size = size } ∷ all_named (k false)

-- What such a listing returns.
abbrev pub returned : {S : Type 0} → Listing S → Result (Unit {0})
returned (returns st r) = r
returned (entry path size k) = returned (k false)

-- How many entries have a property.
abbrev pub count : (Entry → Bool) → List Entry → ℕ
count p [] = 0
count p (e ∷ es) = (if p e then 1 else 0) + count p es

-- The entries of a save: all that its backend names, and each as often, by path, within their bound and
-- below the root of the save, from a listing that succeeded.
pub record Listed {S : Type 0} (ops : SaveOps S) (st : S) (es : List Entry) : Type 0 where
  pub done : returned (ops.list_entries st) ≡ ok tt
  pub complete : (p : Entry → Bool) → count p es ≡ count p (all_named (ops.list_entries st))
  pub sorted : IsSorted es
  pub safe : All HasSafePath es
  pub bound : length es ≤ max_entries

module _ (p : Entry → Bool) where
  count-insert : (e : Entry) (es : List Entry) → count p (insert e es) ≡ count p (e ∷ es)
  unfolding insert
  count-insert e [] = refl
  count-insert e (x ∷ es) = elim (Bool-cases (path_before x.path e.path)) [
    | inl k ↦ rw k (omega (arith, count-insert e es))
    | inr k ↦ rw k refl
  ]

  count-sort : (es : List Entry) → count p (sort es) ≡ count p es
  unfolding sort
  count-sort [] = refl
  count-sort (e ∷ es) = omega (arith, count-insert e (sort es), count-sort es)

-- The collection as it stands.
abbrev collection : {S : Type 0} → S × Collected × Result (Unit {0}) → Collected
collection r = r.1

-- A failure that was noted stays.
stays_failed :
    {S : Type 0} (l : Listing S) (es : List Entry) (c : Code)
    → (e : Code) × ((collection (run_listing l (es, some c))).1 ≡ some e)
unfolding run_listing collect_cb
stays_failed (returns st r) es c = (c, refl)
stays_failed (entry path size k) es c = elim (Result-cases (collect_entry es path size)) [
  | inl (next, a) ↦ rw a (stays_failed (k false) next c)
  | inr (e, a) ↦ rw a (stays_failed (k true) es e)
]

-- A walk that noted no failure went on to the end, and put each entry behind the others.
record Walked {S : Type 0} (l : Listing S) (ctx es : List Entry) (r : Result (Unit {0}))
    : Type 0 where
  whole : es ≡ ctx ++ all_named l
  result : r ≡ returned l
  sound : Sound es

-- A walk whose callback takes the entry goes on from there.
goes_on :
    {S : Type 0} (path : Bytes) (size : ℕ) (k : Bool → Listing S) (ctx next : List Entry)
    → collect_entry ctx path size ≡ ok next
    → run_listing (entry path size k) (ctx, none) ≡ run_listing (k false) (next, none)
unfolding run_listing collect_cb
goes_on path size k ctx next a =
    ap
      (λ (o : Result (List Entry)).
        let r : Collected × Bool =
          either o (λ e. ((ctx, some e), true)) (λ es. ((es, none), false)) in
        run_listing (k r.1) r.0)
      a

run_listing-Walked :
    {S : Type 0} (l : Listing S) (ctx : List Entry)
    → Sound ctx
    → (collection (run_listing l (ctx, none))).1 ≡ none
    → Walked l ctx (collection (run_listing l (ctx, none))).0 (run_listing l (ctx, none)).2
unfolding run_listing collect_cb
run_listing-Walked (returns st r) ctx s h = record {
  whole = sym (append-nil ctx);
  result = refl;
  sound = s;
}
run_listing-Walked {S} (entry path size k) ctx s h =
    elim (Result-cases (collect_entry ctx path size)) [
      | inr (e, a) ↦ absurd (none-ne-some _ (sym (rw a at h) ∙ (stays_failed (k true) ctx e).1))
      | inl (next, a) ↦
          let added = collect_entry-Added ctx path size next a in
          let w = run_listing-Walked (k false) next (Added-Sound added s) (rw a at h) in
          subst
            (λ (run : S × Collected × Result (Unit {0})).
              Walked (entry path size k) ctx (collection run).0 run.2)
            (sym (goes_on path size k ctx next a))
            (record {
              whole =
                  w.whole
                  ∙ ap (λ (x : List Entry). x ++ all_named (k false)) added.behind
                  ∙ append_assoc ctx (record { path = path; size = size } ∷ [])
                      (all_named (k false));
              result = w.result;
              sound = w.sound;
            })
    ]

-- The entries that packing and hashing begin with, if there is no failure, are all that the backend names,
-- each as often as it names it, in the order of their paths, 192 at most and each with a path below the
-- root of the save, and the listing itself succeeded.
pub list_save-Listed :
    {S : Type 0} (ops : SaveOps S) (st : S) (es : List Entry)
    → (list_save ops st).1 ≡ ok es
    → Listed ops st es
unfolding list_save
list_save-Listed ops st es h =
    let l = ops.list_entries st in
    let r = run_listing l ([], none) in
    let (x, q, t) = bound_ok r.2 (λ x. elim r.1.1 [ none ↦ ok (sort r.1.0) | some e ↦ err e ]) h in
    elim (Option-cases r.1.1) [
      | inr (e, c) ↦ absurd (err≢ok (rw c at t))
      | inl c ↦
          let w = run_listing-Walked l [] (record { paths = tt; bound = omega arith }) c in
          subst (Listed ops st) (ok_inj (rw c at t)) (record {
            done = sym w.result ∙ q;
            complete = λ p. count-sort p r.1.0 ∙ ap (count p) w.whole;
            sorted = sort-IsSorted r.1.0;
            safe = sort-HasSafePath r.1.0 w.sound.paths;
            bound = omega (arith, length-sort r.1.0, w.sound.bound);
          })
    ]
