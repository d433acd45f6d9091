-- ===== src/Util/Sha256/Chunks.antt =====
-- How the bytes are handed to daemoon_sha256_update of core/src/util/sha256.c does not matter.
use dae_moon.Prelude.{
  ℕ, zero, suc, ◌-◌, ◌≡◌, ◌≤◌, ◌<◌, refl, sym, ◌∙◌, ap, ap₂, subst, true, false, List, [], ◌∷◌,
  ◌++◌, append_assoc, append-nil, Bytes, length, take, drop, length-append, length-drop, ltb, leb,
  ltb→lt, ltb→ge, leb→le, ◌==◌, Bool-cases, inl, inr, arith,
}
use mathlib.Core.Bool.{false≢true}
use dae_moon.Util.Sha256.{Context, init, absorb, whole_blocks, update, final, digest}
use dae_moon.Util.Sha256.Cuts.{
  take-append_within, drop-append_within, take-append_beyond, drop-append_beyond,
}

-- More rounds than there are blocks change nothing.
whole_blocks-enough :
    (m n : ℕ) (c : Context) (p : Bytes)
    → length p ≤ m
    → length p ≤ n
    → whole_blocks m c p ≡ whole_blocks n c p
unfolding whole_blocks
whole_blocks-enough zero zero c p a b = refl
whole_blocks-enough zero (suc n) c p a b = ground arith
whole_blocks-enough (suc m) zero c p a b = ground arith
whole_blocks-enough (suc m) (suc n) c p a b = elim (Bool-cases (leb 64 (length p))) [
  | inr e ↦ rw e refl
  | inl e ↦ rw e (
      whole_blocks-enough m n (absorb c (take 64 p)) (drop 64 p)
        (omega (arith, leb→le 64 (length p) e, length-drop 64 p))
        (omega (arith, leb→le 64 (length p) e, length-drop 64 p)))
]

le→leb : (m n : ℕ) → m ≤ n → leb m n ≡ true
le→leb m n h = ground arith

unrolled :
    (n : ℕ) (c : Context) (p : Bytes)
    → 64 ≤ length p
    → whole_blocks (suc n) c p ≡ whole_blocks n (absorb c (take 64 p)) (drop 64 p)
unfolding whole_blocks
unrolled n c p b = rw (le→leb 64 (length p) b) refl

-- A round, where there is a block.
whole_blocks-step :
    (n : ℕ) (c : Context) (p : Bytes)
    → 64 ≤ length p
    → length p ≤ n
    → whole_blocks n c p ≡ whole_blocks n (absorb c (take 64 p)) (drop 64 p)
whole_blocks-step n c p b h = whole_blocks-enough n (suc n) c p h (omega arith) ∙ unrolled n c p b

whole_blocks-short :
    (n : ℕ) (c : Context) (p : Bytes) → length p < 64 → whole_blocks n c p ≡ record c { block = p }
unfolding whole_blocks
whole_blocks-short zero c p h = refl
whole_blocks-short (suc n) c p h = ground arith

-- The buffer holds less than a block afterwards.
length-whole_blocks :
    (n : ℕ) (c : Context) (p : Bytes) → length p ≤ n → length (whole_blocks n c p).block < 64
unfolding whole_blocks
length-whole_blocks zero c p h = omega arith
length-whole_blocks (suc n) c p h = elim (Bool-cases (leb 64 (length p))) [
  | inr e ↦ rw e (ground arith)
  | inl e ↦ rw e (
      length-whole_blocks n (absorb c (take 64 p)) (drop 64 p)
        (omega (arith, leb→le 64 (length p) e, length-drop 64 p)))
]

abbrev emptied : Context → Context
emptied c = record c { block = [] }

-- All that a context has not compressed yet, followed by more.
abbrev behind : Context → Bytes → Context
behind c p = whole_blocks (length (c.block ++ p)) (emptied c) (c.block ++ p)

-- Reading on from where the first bytes left off.
whole_blocks-append :
    (n : ℕ) (c : Context) (x y : Bytes)
    → length x ≤ n
    → behind (whole_blocks n c x) y ≡ whole_blocks (length (x ++ y)) (emptied c) (x ++ y)
unfolding whole_blocks absorb
whole_blocks-append zero c [] y h = refl
whole_blocks-append zero c (b ∷ x) y h = absurd (omega arith)
whole_blocks-append (suc n) c x y h = elim (Bool-cases (leb 64 (length x))) [
  | inr e ↦ rw e refl
  | inl e ↦
      let big = leb→le 64 (length x) e in
      let inner =
        whole_blocks-append n (absorb c (take 64 x)) (drop 64 x) y
          (omega (arith, length-drop 64 x)) in
      let step =
        whole_blocks-step (length (x ++ y)) (emptied c) (x ++ y) (omega (arith, length-append x y))
          (omega arith) in
      rw e (
        inner
        ∙ whole_blocks-enough (length (drop 64 x ++ y)) (length (x ++ y)) (absorb c (take 64 x))
            (drop 64 x ++ y) (omega arith)
            (omega (arith, length-append x y, length-append (drop 64 x) y, length-drop 64 x))
        ∙ ap₂ (λ f r. whole_blocks (length (x ++ y)) (absorb c f) r)
            (sym (take-append_within 64 x y big)) (sym (drop-append_within 64 x y big))
        ∙ sym step)
]

suc_zero : (n : ℕ) → (suc n == 0) ≡ false
suc_zero n = ground arith

nil_buffer : (b : Bytes) → (length b == 0) ≡ true → b ≡ []
nil_buffer [] h = refl
nil_buffer (x ∷ b) h = absurd (false≢true (sym (suc_zero (length b)) ∙ h))

-- An update into an empty buffer.
update_start : (c : Context) (x : Bytes) → c.block ≡ [] → whole_blocks (length x) c x ≡ behind c x
update_start c x e =
    ap (λ (b : Bytes). whole_blocks (length x) (record c { block = b }) x) e
    ∙ ap (λ (b : Bytes). whole_blocks (length (b ++ x)) (emptied c) (b ++ x)) (sym e)

-- An update that fills the buffer.
update_fill :
    (c : Context) (x : Bytes)
    → length c.block < 64
    → 64 - length c.block ≤ length x
    → whole_blocks
        (length x)
        (absorb c (c.block ++ take (64 - length c.block) x))
        (drop (64 - length c.block) x)
      ≡ behind c x
unfolding absorb
update_fill c x h s =
    let whole = c.block ++ x in
    let size = length-append c.block x in
    let left = drop (64 - length c.block) x in
    whole_blocks-enough (length x) (length whole)
      (absorb c (c.block ++ take (64 - length c.block) x)) left
      (omega (arith, length-drop (64 - length c.block) x))
      (omega (arith, size, length-drop (64 - length c.block) x))
    ∙ ap₂ (λ f r. whole_blocks (length whole) (absorb c f) r)
        (sym (take-append_beyond c.block x 64 (omega arith)))
        (sym (drop-append_beyond c.block x 64 (omega arith)))
    ∙ sym (whole_blocks-step (length whole) (emptied c) whole (omega (arith, size)) (omega arith))

-- An update reads on behind what stands in the buffer.
update-behind : (c : Context) (x : Bytes) → length c.block < 64 → update c x ≡ behind c x
unfolding update
update-behind c [] h =
    ap (λ (b : Bytes). record c { block = b }) (sym (append-nil c.block))
    ∙ sym (
        whole_blocks-short (length (c.block ++ [])) (emptied c) (c.block ++ [])
          (omega (arith, length-append c.block [])))
update-behind c (a ∷ x) h = elim (Bool-cases (length c.block == 0)) [
  | inl k ↦ rw (suc_zero (length x), k) (update_start c (a ∷ x) (nil_buffer c.block k))
  | inr k ↦ elim (Bool-cases (ltb (length (a ∷ x)) (64 - length c.block))) [
    | inl s ↦
        rw (suc_zero (length x), k, s)
          (sym (
            whole_blocks-short (length (c.block ++ a ∷ x)) (emptied c) (c.block ++ a ∷ x) (
              omega (
                arith,
                length-append c.block (a ∷ x),
                ltb→lt (length (a ∷ x)) (64 - length c.block) s,
              ))))
    | inr s ↦
        rw (suc_zero (length x), k, s)
          (update_fill c (a ∷ x) h (ltb→ge (length (a ∷ x)) (64 - length c.block) s))
  ]
]

-- Two updates leave the context as one update with all the bytes does, wherever the cut falls; the
-- buffer holds less than a block before and after.
pub update-update :
    (c : Context) (x y : Bytes)
    → length c.block < 64
    → (update (update c x) y ≡ update c (x ++ y)) × (length (update c x).block < 64)
update-update c x y h =
    let first = update-behind c x h in
    let less =
      subst (λ (d : Context). length d.block < 64) (sym first)
        (length-whole_blocks (length (c.block ++ x)) (emptied c) (c.block ++ x) (omega arith)) in
    (
      update-behind (update c x) y less
          ∙ ap (λ (d : Context). behind d y) first
          ∙ whole_blocks-append (length (c.block ++ x)) (emptied c) (c.block ++ x) y (omega arith)
          ∙ ap (λ (r : Bytes). whole_blocks (length r) (emptied c) r) (append_assoc c.block x y)
          ∙ sym (update-behind c (x ++ y) h),
      less,
    )

-- The pieces handed over one by one, and put together.
unfoldable pub updates : Context → List Bytes → Context
updates c [] = c
updates c (x ∷ xs) = updates (update c x) xs

abbrev pub joined : List Bytes → Bytes
joined [] = []
joined (x ∷ xs) = x ++ joined xs

update_nothing : (c : Context) → update c [] ≡ c
unfolding update
update_nothing c = refl

begins : length init.block < 64
unfolding init
begins = omega arith

updates-update :
    (c : Context) (xs : List Bytes) → length c.block < 64 → updates c xs ≡ update c (joined xs)
unfolding updates
updates-update c [] h = sym (update_nothing c)
updates-update c (x ∷ xs) h =
    let both = update-update c x (joined xs) h in updates-update (update c x) xs both.1 ∙ both.0

-- However a text is cut into pieces, hashing the pieces in turn gives the digest of the text.
pub updates-digest : (xs : List Bytes) → final (updates init xs) ≡ digest (joined xs)
unfolding digest
updates-digest xs = ap final (updates-update init xs begins)
