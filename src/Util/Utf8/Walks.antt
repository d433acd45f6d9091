-- ===== src/Util/Utf8/Walks.antt =====
-- The walks of core/src/util/utf8.c over the texts that are encodings of code points: validity says
-- that a text is one, and the cuts keep the longest run of whole code points that fits.
use dae_moon.Prelude.{
  ℕ, zero, suc, ◌+◌, ◌/◌, ◌%◌, ◌-◌, ◌≤◌, ◌<◌, ◌≡◌, refl, sym, subst, ap, ◌∙◌, ◌↔◌, true, some, List,
  [], ◌∷◌, ◌++◌, Bytes, length, take, drop, All, arith, ltb, if◌then◌else◌, Bool-cases, ltb→lt,
  ltb→ge, leb, leb→le, lt→ltb, ge→ltb, length-append, drop-length-append, take-drop, Option-cases,
  inl, inr,
}
use mathlib.Core.Bool.{false≢true}
use native.Mathlib.Nat.{zero-add}
use dae_moon.Util.Utf8.{seq_len, valid_walk, valid, truncate_walk, truncate}
use dae_moon.Util.Utf8.Sequence.{IsScalar, encode, seq_len-encode, seq_len-Encodes}

unfoldable pub encode_all : List ℕ → Bytes
encode_all [] = []
encode_all (cp ∷ cps) = encode cp ++ encode_all cps

suc_add : (m n : ℕ) → suc m + n ≡ suc (m + n)
suc_add m n = omega arith

take-append_more {ℓ} :
    {A : Type ℓ} (xs ys : List A) (n : ℕ) → take (length xs + n) (xs ++ ys) ≡ xs ++ take n ys
take-append_more [] ys n = rw zero-add
take-append_more {A = A} (x ∷ xs) ys n =
    rw (suc_add (length xs) n) (ap (λ (r : List A). x ∷ r) (take-append_more xs ys n))

-- A text that is the encoding of scalar values.
abbrev pub IsText : Bytes → Type 0
IsText s = (cps : List ℕ) × All IsScalar cps × (s ≡ encode_all cps)

encode_lead : ℕ → ℕ × Bytes
encode_lead cp =
    if ltb cp 0x80
    then (cp, [])
    else if ltb cp 0x800
    then (0xc0 + cp / 64, (0x80 + cp % 64) ∷ [])
    else if ltb cp 0x10000
    then (0xe0 + cp / 4096, (0x80 + cp / 64 % 64) ∷ (0x80 + cp % 64) ∷ [])
    else (
      0xf0 + cp / 262144,
      (0x80 + cp / 4096 % 64) ∷ (0x80 + cp / 64 % 64) ∷ (0x80 + cp % 64) ∷ [],
    )

encode_cons : (cp : ℕ) → encode cp ≡ (encode_lead cp).0 ∷ (encode_lead cp).1
unfolding encode encode_lead
encode_cons cp = ground arith

-- A text that begins with an encoded code point, as the walks see it.
record View (cp : ℕ) (rest : Bytes) : Type 0 where
  first : ℕ
  others : Bytes
  bytes : encode cp ++ rest ≡ first ∷ others
  sequence : seq_len (first ∷ others) ≡ some (length (encode cp), cp)
  behind : drop (length (encode cp)) (first ∷ others) ≡ rest

view : (cp : ℕ) (rest : Bytes) → IsScalar cp → View cp rest
view cp rest h = record {
  first = (encode_lead cp).0;
  others = (encode_lead cp).1 ++ rest;
  bytes = split;
  sequence =
      subst (λ t. seq_len t ≡ some (length (encode cp), cp)) split (seq_len-encode cp rest h);
  behind =
      subst (λ t. drop (length (encode cp)) t ≡ rest) split (drop-length-append (encode cp) rest);
}
  where
    split : encode cp ++ rest ≡ (encode_lead cp).0 ∷ ((encode_lead cp).1 ++ rest)
    split = ap (λ t. t ++ rest) (encode_cons cp)

length-encode_pos : (cp : ℕ) → 0 < length (encode cp)
length-encode_pos cp = rw encode_cons (omega arith)

valid_walk-IsText : (fuel : ℕ) (s : Bytes) → valid_walk fuel s ≡ true → IsText s
unfolding valid_walk encode_all
valid_walk-IsText zero [] h = ([], tt, refl)
valid_walk-IsText (suc fuel) [] h = ([], tt, refl)
valid_walk-IsText zero (c ∷ s) h = cc
valid_walk-IsText (suc fuel) (c ∷ s) h = elim (Option-cases (seq_len (c ∷ s))) [
  | inl e ↦ absurd (false≢true (rw (e, valid_walk) at h))
  | inr ((n, cp), e) ↦
      let fact = seq_len-Encodes (c ∷ s) n cp e in
      let rest = valid_walk-IsText fuel (drop n (c ∷ s)) (rw (e, valid_walk) at h) in
      (
        cp ∷ rest.0,
        (fact.0, rest.1),
        sym (take-drop n (c ∷ s))
            ∙ ap (λ t. t ++ drop n (c ∷ s)) fact.2
            ∙ ap (λ t. encode cp ++ t) rest.2,
      )
]

valid_walk-encode_all :
    (fuel : ℕ) (cps : List ℕ)
    → All IsScalar cps
    → length (encode_all cps) ≤ fuel
    → valid_walk fuel (encode_all cps) ≡ true
unfolding valid_walk encode_all
valid_walk-encode_all zero [] h m = refl
valid_walk-encode_all (suc fuel) [] h m = refl
valid_walk-encode_all zero (cp ∷ cps) h m =
    absurd (omega (arith, length-encode_pos cp, length-append (encode cp) (encode_all cps)))
valid_walk-encode_all (suc fuel) (cp ∷ cps) h m =
    let v = view cp (encode_all cps) h.0 in
    rw (v.bytes, v.sequence, valid_walk, v.behind)
      (valid_walk-encode_all fuel cps h.1
        (omega (arith, length-encode_pos cp, length-append (encode cp) (encode_all cps))))

-- A text is valid exactly when it encodes Unicode scalar values, each in its shortest form.
pub valid-IsText : (s : Bytes) → (valid s ≡ true) ↔ IsText s
unfolding valid
valid-IsText s = (
  valid_walk-IsText (length s) s,
  λ (cps, h, e). rw e (valid_walk-encode_all (length (encode_all cps)) cps h (omega arith)),
)

-- The longest run of code points from the front whose encoding takes `room` bytes at most.
unfoldable pub kept : ℕ → List ℕ → List ℕ
kept room [] = []
kept room (cp ∷ cps) =
    if ltb room (length (encode cp)) then [] else cp ∷ kept (room - length (encode cp)) cps

sub_zero : (m : ℕ) → m - 0 ≡ m
sub_zero m = omega arith

sub_sub : (m i n : ℕ) → m - i - n ≡ m - (i + n)
sub_sub m i n = omega arith

truncate_walk-kept :
    (fuel m i : ℕ) (cps : List ℕ)
    → All IsScalar cps
    → length (encode_all cps) ≤ fuel
    → i ≤ m
    → truncate_walk fuel m i (encode_all cps) ≡ i + length (encode_all (kept (m - i) cps))
unfolding truncate_walk encode_all kept
truncate_walk-kept zero m i [] h f b = omega arith
truncate_walk-kept (suc fuel) m i [] h f b = omega arith
truncate_walk-kept zero m i (cp ∷ cps) h f b =
    absurd (omega (arith, length-encode_pos cp, length-append (encode cp) (encode_all cps)))
truncate_walk-kept (suc fuel) m i (cp ∷ cps) h f b =
    let v = view cp (encode_all cps) h.0 in
    let n = length (encode cp) in
    rw (v.bytes, v.sequence, truncate_walk, v.behind)
      (elim (Bool-cases (ltb m (i + n))) [
        | inl e ↦ rw (e, lt→ltb (m - i) n (omega (arith, ltb→lt m (i + n) e))) (omega arith)
        | inr e ↦
            let fits : i + n ≤ m = ltb→ge m (i + n) e in
            rw (e, ge→ltb (m - i) n (omega arith), sub_sub m i n)
              (omega (
                arith,
                length-append (encode cp) (encode_all (kept (m - (i + n)) cps)),
                length-append (encode cp) (encode_all cps),
                length-encode_pos cp,
                truncate_walk-kept fuel m (i + n) cps h.1
                    (omega
                      (arith, length-append (encode cp) (encode_all cps), length-encode_pos cp))
                    fits,
              ))
      ])

kept-all : (m : ℕ) (cps : List ℕ) → length (encode_all cps) ≤ m → kept m cps ≡ cps
unfolding kept encode_all
kept-all m [] h = refl
kept-all m (cp ∷ cps) h =
    let size = length-append (encode cp) (encode_all cps) in
    rw (ge→ltb m (length (encode cp)) (omega (arith, size)))
      (ap (λ r. cp ∷ r) (kept-all (m - length (encode cp)) cps (omega (arith, size))))

-- The cut of a text to `m` bytes falls behind the last code point that fits whole.
pub truncate-kept :
    (m : ℕ) (cps : List ℕ)
    → All IsScalar cps
    → truncate (encode_all cps) m ≡ length (encode_all (kept m cps))
unfolding truncate
truncate-kept m cps h = elim (Bool-cases (leb (length (encode_all cps)) m)) [
  | inl e ↦ rw (e, kept-all m cps (leb→le (length (encode_all cps)) m e))
  | inr e ↦ rw e (
      omega (
        arith,
        truncate_walk-kept (length (encode_all cps)) m 0 cps h (omega arith) (omega arith),
        ap (λ (k : ℕ). length (encode_all (kept k cps))) (sub_zero m),
      ))
]

-- What is kept takes `m` bytes at most and is a text again.
pub length-kept : (m : ℕ) (cps : List ℕ) → length (encode_all (kept m cps)) ≤ m
unfolding kept encode_all
length-kept m [] = omega arith
length-kept m (cp ∷ cps) = elim (Bool-cases (ltb m (length (encode cp)))) [
  | inl e ↦ rw e (omega arith)
  | inr e ↦ rw e (
      omega (
        arith,
        ltb→ge m (length (encode cp)) e,
        length-append (encode cp) (encode_all (kept (m - length (encode cp)) cps)),
        length-kept (m - length (encode cp)) cps,
      ))
]

pub kept-IsScalar : (m : ℕ) (cps : List ℕ) → All IsScalar cps → All IsScalar (kept m cps)
unfolding kept
kept-IsScalar m [] h = tt
kept-IsScalar m (cp ∷ cps) h = elim (Bool-cases (ltb m (length (encode cp)))) [
  | inl e ↦ rw e tt
  | inr e ↦ rw e (h.0, kept-IsScalar (m - length (encode cp)) cps h.1)
]

-- The kept code points are the front of the text.
pub take-kept :
    (m : ℕ) (cps : List ℕ)
    → take (length (encode_all (kept m cps))) (encode_all cps) ≡ encode_all (kept m cps)
unfolding kept encode_all
take-kept m [] = refl
take-kept m (cp ∷ cps) = elim (Bool-cases (ltb m (length (encode cp)))) [
  | inl e ↦ rw e refl
  | inr e ↦
      rw (e, length-append, take-append_more)
        (ap (λ t. encode cp ++ t) (take-kept (m - length (encode cp)) cps))
]
