-- ===== src/Api/Pairing/Version.antt =====
-- The format version in a pairing text: what core/src/api.c takes for 1.
use dae_moon.Prelude.{
  ℕ, zero, suc, ◌+◌, ◌*◌, ◌-◌, ◌≤◌, ◌<◌, ◌≡◌, refl, ap, ◌∙◌, false, [], ◌∷◌, Bytes, text, length,
  ◌==◌, if◌then◌else◌, Bool-cases, ==→eq, ap₂, inl, inr, arith,
}
use dae_moon.Util.Digest.{is_end}
use dae_moon.Errors.{unsupported, ok, err}
use dae_moon.Errors.Laws.{ok_inj, bound_ok}
use dae_moon.Api.Pairing.{version_walk, check_version, has_bar}

-- The spellings of the format version 1: pad may stand before it.
abbrev pub one : ℕ → Bytes
one zero = text "1"
one (suc n) = b'0' ∷ one n

version_walk-one : (n : ℕ) → version_walk 0 (one n) ≡ ok 1
unfolding version_walk
version_walk-one zero = refl
version_walk-one (suc n) = version_walk-one n

version_walk-grows : (v : ℕ) (s : Bytes) (n : ℕ) → version_walk v s ≡ ok n → v ≤ n
unfolding version_walk
version_walk-grows v [] n h = omega (arith, ok_inj h)
version_walk-grows v (c ∷ s) n h = ground (arith, version_walk-grows (v * 10 + (c - b'0')) s n)

version_walk_step :
    (v c : ℕ) (s : Bytes) (n : ℕ)
    → version_walk v (c ∷ s) ≡ ok n
    → (b'0' ≤ c) × (c ≤ b'9') × (version_walk (v * 10 + (c - b'0')) s ≡ ok n)
unfolding version_walk
version_walk_step v c s n h = ground arith

version_walk_stops : (s : Bytes) → version_walk 1 s ≡ ok 1 → s ≡ []
version_walk_stops [] h = refl
version_walk_stops (c ∷ s) h =
    let (lo, hi, r) = version_walk_step 1 c s 1 h in
    absurd (omega (arith, version_walk-grows (1 * 10 + (c - b'0')) s 1 r))

version_walk_reads_one : (s : Bytes) → version_walk 0 s ≡ ok 1 → (n : ℕ) × (s ≡ one n)
version_walk_reads_one [] h = absurd (nothing_read h)
  where
    nothing_read : ¬ (version_walk 0 [] ≡ ok 1)
    nothing_read = unfold version_walk in (λ e. omega (arith, ok_inj e))
version_walk_reads_one (c ∷ s) h =
    let (lo, hi, r) = version_walk_step 0 c s 1 h in
    elim (Bool-cases (c == b'0')) [
      | inl e ↦
          let (n, q) = version_walk_reads_one s (rw (zero_digit c (==→eq c b'0' e)) at r) in
          (suc n, ap₂ (λ x y. x ∷ y) (==→eq c b'0' e) q)
      | inr e ↦
          let digit = one_digit c e lo (version_walk-grows (0 * 10 + (c - b'0')) s 1 r) in
          (0, ap₂ (λ x y. x ∷ y) digit.0 (version_walk_stops s (rw digit.1 at r)))
    ]
  where
    zero_digit : (c : ℕ) → c ≡ b'0' → 0 * 10 + (c - b'0') ≡ 0
    zero_digit c e = omega arith

    one_digit :
        (c : ℕ)
        → (c == b'0') ≡ false
        → b'0' ≤ c
        → 0 * 10 + (c - b'0') ≤ 1
        → (c ≡ b'1') × (0 * 10 + (c - b'0') ≡ 1)
    one_digit c e l u = ground arith

pub has_bar-one : (n : ℕ) → has_bar (one n) ≡ false
unfolding has_bar
has_bar-one zero = refl
has_bar-one (suc n) = has_bar-one n

pub is_end-one : (n : ℕ) → is_end (one n) ≡ false
unfolding is_end
is_end-one zero = refl
is_end-one (suc n) = refl

pub length-one : (n : ℕ) → 0 < length (one n)
length-one zero = omega arith
length-one (suc n) = omega arith

pub check_version-one : (v : Bytes) (x : Unit {0}) → check_version v ≡ ok x → (n : ℕ) × (v ≡ one n)
unfolding check_version
check_version-one v x h =
    let (n, p, q) =
      bound_ok (version_walk 0 v) (λ n. if n == 1 then ok tt else err unsupported) h in
    version_walk_reads_one v (p ∙ ap ok (is_one n q))
  where
    is_one : (n : ℕ) → (if n == 1 then ok tt else err unsupported) ≡ ok x → n ≡ 1
    is_one n e = ground arith

pub check_version-one_ok : (n : ℕ) → check_version (one n) ≡ ok tt
unfolding check_version
check_version-one_ok n = rw (version_walk-one n) refl
