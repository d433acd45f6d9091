-- ===== src/Api/Pairing/Fields.antt =====
-- The fields of a pairing text: splitting at a bar, and trimming the end.
use dae_moon.Prelude.{
  starts_with, ℕ, ◌≡◌, refl, ap, true, false, ◌&&◌, Option, none, some, [], ◌∷◌, ◌++◌, Bytes,
  length, drop, ◌==◌, Bool-cases, inl, inr, arith, all, ==→eq, &&-left, &&-right,
}
use dae_moon.Util.Digest.{is_end}
use dae_moon.Api.Pairing.{split_bar, is_trailing, trim_end, has_bar}

-- A text is at its own start, and behind it comes the rest.
pub starts_with-append : (a b : Bytes) → starts_with a (a ++ b) ≡ true
unfolding starts_with
starts_with-append [] b = refl
starts_with-append (x ∷ a) b = ground (arith, starts_with-append a b)

pub starts_with-splits : (a s : Bytes) → starts_with a s ≡ true → s ≡ a ++ drop (length a) s
unfolding starts_with
starts_with-splits [] s h = refl
starts_with-splits (x ∷ a) [] h = cc
starts_with-splits (x ∷ a) (y ∷ s) h = ground (arith, starts_with-splits a s)

-- A field without a bar, and the bar behind it.
pub split_bar-append : (a b : Bytes) → has_bar a ≡ false → split_bar (a ++ b'|' ∷ b) ≡ some (a, b)
unfolding split_bar has_bar
split_bar-append [] b h = refl
split_bar-append (x ∷ a) b h = ground (arith, split_bar-append a b)

abbrev Splits : Bytes → Option (Bytes × Bytes) → Type 0
Splits s none = Unit
Splits s (some (a, b)) = (s ≡ a ++ b'|' ∷ b) × (has_bar a ≡ false)

-- The split of a text from the split of its tail.
abbrev prepend : ℕ → Option (Bytes × Bytes) → Option (Bytes × Bytes)
prepend c none = none
prepend c (some (a, b)) = some (c ∷ a, b)

prepend-Splits :
    (c : ℕ) (s : Bytes) (o : Option (Bytes × Bytes))
    → (c == b'|') ≡ false
    → Splits s o
    → Splits (c ∷ s) (prepend c o)
unfolding has_bar
prepend-Splits c s none e h = tt
prepend-Splits c s (some (a, b)) e h = (ap (λ r. c ∷ r) h.0, rw (e, h.1) refl)

split_bar-prepend :
    (c : ℕ) (s : Bytes) → (c == b'|') ≡ false → split_bar (c ∷ s) ≡ prepend c (split_bar s)
unfolding split_bar
split_bar-prepend c s e = ground arith

split_bar_here : (c : ℕ) (s : Bytes) → (c == b'|') ≡ true → split_bar (c ∷ s) ≡ some ([], s)
unfolding split_bar
split_bar_here c s e = rw e refl

split_bar-Splits : (s : Bytes) → Splits s (split_bar s)
unfolding split_bar has_bar
split_bar-Splits [] = tt
split_bar-Splits (c ∷ s) = elim (Bool-cases (c == b'|')) [
  | inl e ↦ rw (split_bar_here c s e) (ap (λ x. x ∷ s) (==→eq c b'|' e), refl)
  | inr e ↦ rw (split_bar-prepend c s e) (prepend-Splits c s (split_bar s) e (split_bar-Splits s))
]

pub split_bar-splits :
    (s a b : Bytes) → split_bar s ≡ some (a, b) → (s ≡ a ++ b'|' ∷ b) × (has_bar a ≡ false)
split_bar-splits s a b h = rw h at (split_bar-Splits s)

-- A text that does not end in a line end or a NUL.
abbrev pub IsTrimmed : Bytes → Type 0
IsTrimmed s = trim_end s ≡ s

trim_end_trailing : (t : Bytes) → all is_trailing t ≡ true → trim_end t ≡ []
unfolding trim_end
trim_end_trailing [] h = refl
trim_end_trailing (c ∷ t) h = ground (arith, trim_end_trailing t)

trim_end-cons :
    (c : ℕ) (s : Bytes) → is_end (trim_end s) ≡ false → trim_end (c ∷ s) ≡ c ∷ trim_end s
unfolding trim_end
trim_end-cons c s h = rw h refl

is_end→nil : (s : Bytes) → is_end s ≡ true → s ≡ []
unfolding is_end
is_end→nil [] h = refl
is_end→nil (c ∷ s) h = cc

-- A text of which nothing is left is all trailing.
all_trailing : (s : Bytes) → is_end (trim_end s) ≡ true → all is_trailing s ≡ true
unfolding trim_end is_end
all_trailing [] h = refl
all_trailing (c ∷ s) h = ground (arith, all_trailing s)

IsTrimmed-tail :
    (c : ℕ) (a : Bytes)
    → IsTrimmed (c ∷ a)
    → ((is_end (trim_end a) && is_trailing c) ≡ false) × IsTrimmed a
unfolding trim_end
IsTrimmed-tail c a h = elim (Bool-cases (is_end (trim_end a) && is_trailing c)) [
  | inl e ↦ absurd (nil≢cons (rw e at h))
  | inr e ↦ (e, tail_eq (rw e at h))
]
  where
    nil≢cons : ¬ (Path Bytes [] (c ∷ a))
    nil≢cons p = cc

    tail_eq : {x y : Bytes} → c ∷ x ≡ c ∷ y → x ≡ y
    tail_eq p = cc

-- What is trimmed off is trailing, and what is left is trimmed.
pub trim_end-splits : (s : Bytes) → (t : Bytes) × (s ≡ trim_end s ++ t) × (all is_trailing t ≡ true)
unfolding trim_end
trim_end-splits [] = ([], refl, refl)
trim_end-splits (c ∷ s) = elim (Bool-cases (is_end (trim_end s) && is_trailing c)) [
  | inl e ↦ rw e (
    c ∷ s,
    refl,
    rw (&&-right (is_end (trim_end s)) (is_trailing c) e)
        (all_trailing s (&&-left (is_end (trim_end s)) (is_trailing c) e)),
  )
  | inr e ↦ let (t, p, q) = trim_end-splits s in rw e (t, ap (λ r. c ∷ r) p, q)
]

-- Line ends and NULs behind a trimmed text are trimmed off.
pub trim_end-append : (a t : Bytes) → IsTrimmed a → all is_trailing t ≡ true → trim_end (a ++ t) ≡ a
unfolding trim_end is_end
trim_end-append [] t h q = trim_end_trailing t q
trim_end-append (c ∷ a) t h q =
    let (e, f) = IsTrimmed-tail c a h in
    let less = trim_end-append a t f q in rw (less, (rw f at e)) refl

pub trim_end-IsTrimmed : (s : Bytes) → IsTrimmed (trim_end s)
unfolding trim_end
trim_end-IsTrimmed [] = refl
trim_end-IsTrimmed (c ∷ s) = elim (Bool-cases (is_end (trim_end s) && is_trailing c)) [
  | inl e ↦ rw e refl
  | inr e ↦ rw (e, trim_end-IsTrimmed s, e) refl
]
