-- ===== src/Consoles/Backups/Order.antt =====
-- What sort_rows of platform/3ds/source/backup_list.c makes of the rows.
use dae_moon.Prelude.{
  ℕ, ◌+◌, ◌≡◌, ◌≢◌, ◌↔◌, refl, sym, subst, ◌∙◌, Bytes, text, bytes_eq, bytes_eq→eq, bytes_eq_refl,
  Bool, true, false, not, List, [], ◌∷◌, Bool-cases, inl, inr, if◌then◌else◌, arith,
}
use mathlib.Core.Bool.{false≢true}
use dae_moon.Util.Digest.{is_end}
use dae_moon.Manifest.Check.{has_date}
use dae_moon.Archive.Collecting.{ComesFirst, path_before-ComesFirst, path_before_asym}
use dae_moon.Consoles.Backups.{
  BackupRow, differs, is_worse, insert_row, sort_walk, reversed_onto, sort_rows,
}

by_rank :
    (a b c d x y : Bool)
    → (x ≡ true → y ≡ false)
    → (if differs a b then not a else if differs c d then not c else x) ≡ true
    → (if differs b a then not b else if differs d c then not d else y) ≡ false
unfolding differs
by_rank true true true true x y asym h = asym h
by_rank true true true false x y asym h = absurd (cc)
by_rank true true false true x y asym h = refl
by_rank true true false false x y asym h = asym h
by_rank true false c d x y asym h = absurd (cc)
by_rank false true c d x y asym h = refl
by_rank false false true true x y asym h = asym h
by_rank false false true false x y asym h = absurd (cc)
by_rank false false false true x y asym h = refl
by_rank false false false false x y asym h = asym h

is_worse_asym : (r s : BackupRow) → is_worse r s ≡ true → is_worse s r ≡ false
unfolding is_worse
is_worse_asym r s h =
    by_rank r.readable s.readable (has_date r.created_at) (has_date s.created_at) _ _
      (path_before_asym r.created_at s.created_at) h

-- From the last to the first, no row has to stand behind the one after it.
abbrev IsReversed : List BackupRow → Type 0
IsReversed [] = Unit
IsReversed (r ∷ []) = Unit
IsReversed (r ∷ s ∷ rows) = (is_worse s r ≡ false) × IsReversed (s ∷ rows)

-- A date that says something.
abbrev pub IsDated : Bytes → Type 0
IsDated date = (date ≢ []) × (date ≢ text "1970-01-01T00:00:00Z")

-- A row may stand before another: a readable one before any, a dated one before those without a date, and
-- otherwise not the one of an older date. A date is older if its text comes first.
pub record MayPrecede (r s : BackupRow) : Type 0 where
  pub reading : s.readable ≡ true → r.readable ≡ true
  pub dating : r.readable ≡ s.readable → IsDated s.created_at → IsDated r.created_at
  pub newest :
      r.readable ≡ s.readable
      → (IsDated r.created_at ↔ IsDated s.created_at)
      → ¬ (ComesFirst r.created_at s.created_at)

has_date-IsDated : (date : Bytes) → (has_date date ≡ true) ↔ IsDated date
unfolding has_date is_end
has_date-IsDated [] = (λ h. absurd (false≢true h), λ d. absurd (d.0 refl))
has_date-IsDated (c ∷ s) = (
  λ h. (
    λ e. cc,
    λ e.
        let known = subst (λ x. bytes_eq (c ∷ s) x ≡ true) e (bytes_eq_refl (c ∷ s)) in
        false≢true (rw known at h),
  ),
  λ d. elim (Bool-cases (bytes_eq (c ∷ s) (text "1970-01-01T00:00:00Z"))) [
    | inl e ↦ absurd (d.1 (bytes_eq→eq (c ∷ s) _ e))
    | inr e ↦ rw e refl
  ],
)

agree : (c d : Bool) → (c ≡ true → d ≡ true) → (d ≡ true → c ≡ true) → c ≡ d
agree true d f g = sym (f refl)
agree false true f g = g refl
agree false false f g = refl

not_worse :
    (a b c d x : Bool)
    → (if differs a b then not a else if differs c d then not c else x) ≡ false
    → (b ≡ true → a ≡ true) × (a ≡ b → d ≡ true → c ≡ true) × (a ≡ b → c ≡ d → x ≡ false)
unfolding differs
not_worse true true true true x h = (λ p. refl, λ p q. refl, λ p q. h)
not_worse true true true false x h = (λ p. refl, λ p q. refl, λ p q. absurd (false≢true (sym q)))
not_worse true true false true x h = absurd (false≢true (sym h))
not_worse true true false false x h = (λ p. refl, λ p q. q, λ p q. h)
not_worse true false c d x h =
    (λ p. refl, λ p q. absurd (false≢true (sym p)), λ p q. absurd (false≢true (sym p)))
not_worse false true c d x h = absurd (false≢true (sym h))
not_worse false false true true x h = (λ p. p, λ p q. refl, λ p q. h)
not_worse false false true false x h = (λ p. p, λ p q. refl, λ p q. absurd (false≢true (sym q)))
not_worse false false false true x h = absurd (false≢true (sym h))
not_worse false false false false x h = (λ p. p, λ p q. q, λ p q. h)

is_worse-MayPrecede : (r s : BackupRow) → is_worse r s ≡ false → MayPrecede r s
unfolding is_worse
is_worse-MayPrecede r s h =
    let t = not_worse r.readable s.readable (has_date r.created_at) (has_date s.created_at) _ h in
    let first = has_date-IsDated r.created_at in
    let second = has_date-IsDated s.created_at in
    record {
      reading = t.0;
      dating = λ e d. first.0 (t.1 e (second.1 d));
      newest = λ e i k.
          let same =
            agree (has_date r.created_at) (has_date s.created_at) (λ a. second.1 (i.0 (first.0 a)))
              (λ b. first.1 (i.1 (second.0 b))) in
          false≢true (sym (t.2 e same) ∙ path_before-ComesFirst k);
    }

-- Each row may stand before the one after it.
abbrev pub IsOrdered : List BackupRow → Type 0
IsOrdered [] = Unit
IsOrdered (r ∷ []) = Unit
IsOrdered (r ∷ s ∷ rows) = MayPrecede r s × IsOrdered (s ∷ rows)

-- How many rows have a property.
abbrev pub count : (BackupRow → Bool) → List BackupRow → ℕ
count p [] = 0
count p (r ∷ rows) = (if p r then 1 else 0) + count p rows

insert_row-IsReversed :
    (k : BackupRow) (rows : List BackupRow) → IsReversed rows → IsReversed (insert_row k rows)
unfolding insert_row
insert_row-IsReversed k [] s = tt
insert_row-IsReversed k (x ∷ []) s = elim (Bool-cases (is_worse x k)) [
  | inl e ↦ rw e (is_worse_asym x k e, tt)
  | inr e ↦ rw e (e, tt)
]
insert_row-IsReversed k (x ∷ y ∷ rows) s = elim (Bool-cases (is_worse x k)) [
  | inr e ↦ rw e (e, s)
  | inl e ↦
      let rest = insert_row-IsReversed k (y ∷ rows) s.1 in
      elim (Bool-cases (is_worse y k)) [
        | inl j ↦ rw (e, j) (s.0, rw j at rest)
        | inr j ↦ rw (e, j) (is_worse_asym x k e, rw j at rest)
      ]
]

sort_walk-IsReversed :
    (before rows : List BackupRow) → IsReversed before → IsReversed (sort_walk before rows)
unfolding sort_walk
sort_walk-IsReversed before [] h = h
sort_walk-IsReversed before (k ∷ rows) h =
    sort_walk-IsReversed (insert_row k before) rows (insert_row-IsReversed k before h)

-- The last of what is reversed may stand before the first of what it is put onto.
Meets : List BackupRow → List BackupRow → Type 0
Meets [] rows = Unit
Meets (r ∷ before) [] = Unit
Meets (r ∷ before) (s ∷ rows) = is_worse r s ≡ false

reversed_onto-IsOrdered :
    (before rows : List BackupRow)
    → IsReversed before
    → IsOrdered rows
    → Meets before rows
    → IsOrdered (reversed_onto before rows)
unfolding reversed_onto Meets
reversed_onto-IsOrdered [] rows b o m = o
reversed_onto-IsOrdered (r ∷ []) [] b o m = tt
reversed_onto-IsOrdered (r ∷ []) (s ∷ rows) b o m = (is_worse-MayPrecede r s m, o)
reversed_onto-IsOrdered (r ∷ q ∷ before) [] b o m =
    reversed_onto-IsOrdered (q ∷ before) (r ∷ []) b.1 tt b.0
reversed_onto-IsOrdered (r ∷ q ∷ before) (s ∷ rows) b o m =
    reversed_onto-IsOrdered (q ∷ before) (r ∷ s ∷ rows) b.1 (is_worse-MayPrecede r s m, o) b.0

module _ (p : BackupRow → Bool) where
  count-insert_row :
      (k : BackupRow) (rows : List BackupRow) → count p (insert_row k rows) ≡ count p (k ∷ rows)
  unfolding insert_row
  count-insert_row k [] = refl
  count-insert_row k (x ∷ rows) = elim (Bool-cases (is_worse x k)) [
    | inl e ↦ rw e (omega (arith, count-insert_row k rows))
    | inr e ↦ rw e refl
  ]

  count-sort_walk :
      (before rows : List BackupRow)
      → count p (sort_walk before rows) ≡ count p before + count p rows
  unfolding sort_walk
  count-sort_walk before [] = omega arith
  count-sort_walk before (k ∷ rows) =
      omega (arith, count-sort_walk (insert_row k before) rows, count-insert_row k before)

  count-reversed_onto :
      (before rows : List BackupRow)
      → count p (reversed_onto before rows) ≡ count p before + count p rows
  unfolding reversed_onto
  count-reversed_onto [] rows = omega arith
  count-reversed_onto (r ∷ before) rows = omega (arith, count-reversed_onto before (r ∷ rows))

-- The backups are shown in order, and none is lost or made up: each row may stand before the one after
-- it, which an unreadable one may not before a readable one, nor, where both are readable or both
-- are not, one without a date before a dated one, nor, where both are dated or both are not, one of
-- an older date before one of a newer date; and whatever is asked of the rows, as many have it as
-- before.
pub sort_rows-IsOrdered :
    (rows : List BackupRow)
    → IsOrdered (sort_rows rows)
      × ((p : BackupRow → Bool) → count p (sort_rows rows) ≡ count p rows)
unfolding sort_rows
sort_rows-IsOrdered rows = (
  reversed_onto-IsOrdered (sort_walk [] rows) [] (sort_walk-IsReversed [] rows tt) tt
      (meets (sort_walk [] rows)),
  λ p. count-reversed_onto p (sort_walk [] rows) [] ∙ omega (arith, count-sort_walk p [] rows),
)
  where
    meets : (before : List BackupRow) → Meets before []
    meets [] = unfold Meets in tt
    meets (r ∷ before) = unfold Meets in tt
