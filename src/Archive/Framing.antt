-- ===== src/Archive/Framing.antt =====
-- The framing of the payload digest of core/src/archive.c: no two payloads are the same bytes.
use dae_moon.Prelude.{
  ℕ, zero, suc, ◌^◌, ◌≡◌, ◌≢◌, ◌<◌, refl, sym, ◌∙◌, ap, ap₂, List, [], ◌∷◌, ◌++◌, append_assoc,
  Bytes, length, All, arith, ◌==◌, ==→eq, Bool-cases, inl, inr,
}
use dae_moon.Errors.{ok}
use dae_moon.Errors.Laws.{err≢ok, ok_inj, bound_ok}
use dae_moon.Util.Sha256.{be_bytes}
use dae_moon.Archive.{Entry, entry_header, hash_files}

-- A C string for a path, and a size of 64 bits.
pub record Named (x : Entry × Bytes) : Type 0 where
  pub no_nul : All (λ c. 0 < c) x.0.path
  pub bounded : x.0.size < 2 ^ 64

-- A path has no NUL in it, and the content has the size that the entry states, a 64-bit number.
pub record Framed (x : Entry × Bytes) : Type 0 where
  pub no_nul : All (λ c. 0 < c) x.0.path
  pub exact : x.0.size ≡ length x.1
  pub bounded : x.0.size < 2 ^ 64

-- The head and the tail of equal lists.
cons-inj {ℓ} : {A : Type ℓ} {x y : A} {xs ys : List A} → x ∷ xs ≡ y ∷ ys → (x ≡ y) × (xs ≡ ys)
cons-inj h = (cc, cc)

-- What stands before the first NUL, and after it.
path-inj :
    (p q : Bytes) (s t : Bytes)
    → All (λ c. 0 < c) p
    → All (λ c. 0 < c) q
    → p ++ (0 ∷ s) ≡ q ++ (0 ∷ t)
    → (p ≡ q) × (s ≡ t)
path-inj [] [] s t hp hq e = (refl, (cons-inj e).1)
path-inj [] (d ∷ q) s t hp hq e = absurd (omega (arith, (cons-inj e).0, hq.0))
path-inj (c ∷ p) [] s t hp hq e = absurd (omega (arith, (cons-inj e).0, hp.0))
path-inj (c ∷ p) (d ∷ q) s t hp hq e =
    let r = path-inj p q s t hp.1 hq.1 (cons-inj e).1 in
    (ap₂ (λ x (xs : Bytes). x ∷ xs) (cons-inj e).0 r.0, r.1)

-- Lists of one length, cut off the front.
front-inj : (a b s t : Bytes) → length a ≡ length b → a ++ s ≡ b ++ t → (a ≡ b) × (s ≡ t)
front-inj [] [] s t l e = (refl, e)
front-inj [] (y ∷ b) s t l e = absurd (omega arith)
front-inj (x ∷ a) [] s t l e = absurd (omega arith)
front-inj (x ∷ a) (y ∷ b) s t l e =
    let r = front-inj a b s t (omega arith) (cons-inj e).1 in
    (ap₂ (λ x (xs : Bytes). x ∷ xs) (cons-inj e).0 r.0, r.1)

length-be_bytes : (n v : ℕ) → length (be_bytes n v) ≡ n
unfolding be_bytes
length-be_bytes zero v = refl
length-be_bytes (suc n) v = ap suc (length-be_bytes n v)

-- A 64-bit number is known by its eight bytes.
be_bytes-inj : (v w : ℕ) → v < 2 ^ 64 → w < 2 ^ 64 → be_bytes 8 v ≡ be_bytes 8 w → v ≡ w
unfolding be_bytes
be_bytes-inj v w hv hw e =
    let e7 = cons-inj e in
    let e6 = cons-inj e7.1 in
    let e5 = cons-inj e6.1 in
    let e4 = cons-inj e5.1 in
    let e3 = cons-inj e4.1 in
    let e2 = cons-inj e3.1 in
    let e1 = cons-inj e2.1 in
    let e0 = cons-inj e1.1 in omega (arith, hv, hw, e7.0, e6.0, e5.0, e4.0, e3.0, e2.0, e1.0, e0.0)

split_header :
    (e : Entry) (content rest : Bytes)
    → entry_header e.path e.size ++ content ++ rest
      ≡ e.path ++ (0 ∷ (be_bytes 8 e.size ++ (content ++ rest)))
unfolding entry_header
split_header e content rest = simp append_assoc

not_nil : (p s : Bytes) → [] ≢ p ++ (0 ∷ s)
not_nil [] s h = cc
not_nil (c ∷ p) s h = cc

-- The bytes of a payload, each content behind its header.
unfoldable pub payload_bytes : List (Entry × Bytes) → Bytes
payload_bytes [] = []
payload_bytes ((e, content) ∷ rest) = entry_header e.path e.size ++ content ++ payload_bytes rest

payload_bytes-inj :
    (xs ys : List (Entry × Bytes))
    → All Framed xs
    → All Framed ys
    → payload_bytes xs ≡ payload_bytes ys
    → xs ≡ ys
unfolding payload_bytes
payload_bytes-inj [] [] hx hy e = refl
payload_bytes-inj [] ((d, c) ∷ ys) hx hy e =
    absurd (not_nil d.path _ (e ∙ split_header d c (payload_bytes ys)))
payload_bytes-inj ((d, c) ∷ xs) [] hx hy e =
    absurd (not_nil d.path _ (sym e ∙ split_header d c (payload_bytes xs)))
payload_bytes-inj ((d, c) ∷ xs) ((d', c') ∷ ys) hx hy e =
    let whole =
      sym (split_header d c (payload_bytes xs)) ∙ e ∙ split_header d' c' (payload_bytes ys) in
    let paths = path-inj d.path d'.path _ _ hx.0.no_nul hy.0.no_nul whole in
    let sizes =
      front-inj (be_bytes 8 d.size) (be_bytes 8 d'.size) _ _
        (length-be_bytes 8 d.size ∙ sym (length-be_bytes 8 d'.size)) paths.1 in
    let size = be_bytes-inj d.size d'.size hx.0.bounded hy.0.bounded sizes.0 in
    let contents = front-inj c c' _ _ (sym hx.0.exact ∙ size ∙ hy.0.exact) sizes.1 in
    ap₂ (λ x (r : List (Entry × Bytes)). x ∷ r)
      (ap₂ (λ (x : Entry) (y : Bytes). (x, y))
        (ap₂ (λ p n. record { path = p; size = n }) paths.0 size) contents.0)
      (payload_bytes-inj xs ys hx.1 hy.1 contents.1)

-- What goes into the digest of a payload that is read without an error.
hash_files-payload_bytes :
    (xs : List (Entry × Bytes)) (b : Bytes) (n : ℕ)
    → All Named xs
    → hash_files xs ≡ ok (b, n)
    → All Framed xs × (b ≡ payload_bytes xs)
unfolding hash_files payload_bytes
hash_files-payload_bytes [] b n h e = (tt, ap (λ (p : Bytes × ℕ). p.0) (sym (ok_inj e)))
hash_files-payload_bytes ((d, c) ∷ xs) b n h e = elim (Bool-cases (length c == d.size)) [
  | inr k ↦ absurd (err≢ok (rw k at e))
  | inl k ↦
      let ((b', n'), p, q) = bound_ok (hash_files xs) _ (rw k at e) in
      let (framed, same) = hash_files-payload_bytes xs b' n' h.1 p in
      (
        (
          record {
            no_nul = h.0.no_nul;
            exact = sym (==→eq (length c) d.size k);
            bounded = h.0.bounded;
          },
          framed,
        ),
        sym (ap (λ (r : Bytes × ℕ). r.0) (ok_inj q))
            ∙ ap (λ r. entry_header d.path d.size ++ c ++ r) same,
      )
]

-- Two payloads that are read without an error and feed the same bytes to the digest have the same
-- entries and the same contents, in the same order, given that no path has a NUL in it and no size
-- takes more than 64 bits: where one file ends and the next begins cannot be confused.
pub hash_files-inj :
    (xs ys : List (Entry × Bytes)) (b : Bytes) (m n : ℕ)
    → All Named xs
    → All Named ys
    → hash_files xs ≡ ok (b, m)
    → hash_files ys ≡ ok (b, n)
    → xs ≡ ys
hash_files-inj xs ys b m n hx hy ex ey =
    let x = hash_files-payload_bytes xs b m hx ex in
    let y = hash_files-payload_bytes ys b n hy ey in payload_bytes-inj xs ys x.0 y.0 (sym x.1 ∙ y.1)
