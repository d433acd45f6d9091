-- ===== src/Util/Strbuf/Refine.antt =====
-- The builder refines an unbounded string: it holds the longest prefix that fits, and the overflow
-- flag says exactly whether something is missing.
use dae_moon.Prelude.{
  ℕ, zero, suc, ◌-◌, ◌≤◌, ◌<◌, ◌≡◌, refl, ap, ◌∙◌, true, false, [], ◌∷◌, ◌++◌, Bytes, length, take,
  List, min, ltb, ◌||◌, sym, Bool-cases, inl, inr, ge→ltb, lt→ltb, if◌then◌else◌, arith,
  length-append, length-take, take-all, append-nil,
}
use dae_moon.Errors.{ok, err, buffer_too_small}
use dae_moon.Util.Strbuf.{Strbuf, init, addn, result}

pub record Holds (cap : ℕ) (sb : Strbuf) (whole : Bytes) : Type 0 where
  pub size : sb.cap ≡ cap
  pub prefix : sb.content ≡ take (cap - 1) whole
  pub cut : sb.overflow ≡ true → cap ≤ length whole
  pub whole_fits : sb.overflow ≡ false → length whole < cap

zero_sub : (n : ℕ) → 0 - n ≡ 0
zero_sub n = omega arith

sub_zero : (n : ℕ) → n - 0 ≡ n
sub_zero n = omega arith

suc_sub_suc : (n m : ℕ) → suc n - suc m ≡ n - m
suc_sub_suc n m = omega arith

take-append {ℓ} :
    {A : Type ℓ} (n : ℕ) (xs ys : List A) → take n (xs ++ ys) ≡ take n xs ++ take (n - length xs) ys
take-append zero xs ys = rw (zero_sub (length xs)) refl
take-append (suc n) [] ys = rw (sub_zero (suc n)) refl
take-append (suc n) (x ∷ xs) ys =
    rw (suc_sub_suc n (length xs)) (ap (λ r. x ∷ r) (take-append n xs ys))

abbrev nil_of {ℓ} : (A : Type ℓ) → List A
nil_of A = []

take-nil {ℓ} : {A : Type ℓ} (n : ℕ) → take n (nil_of A) ≡ []
take-nil zero = refl
take-nil (suc n) = refl

-- An empty builder holds the empty string.
pub init-Holds : (cap : ℕ) → Holds cap (init cap) []
unfolding init
init-Holds cap = record {
  size = refl;
  prefix = sym (take-nil (cap - 1));
  cut = λ e. ground arith;
  whole_fits = λ e. ground arith;
}

module _ (sb : Strbuf) (s : Bytes) where
  cap-addn : (addn sb s).cap ≡ sb.cap
  unfolding addn
  cap-addn = ground arith

  overflow-addn :
      (addn sb s).overflow ≡ (sb.overflow || ltb (sb.cap - length sb.content - 1) (length s))
  unfolding addn
  overflow-addn = ground arith

content-addn :
    (sb : Strbuf) (s : Bytes)
    → (addn sb s).content ≡ sb.content ++ take (sb.cap - length sb.content - 1) s
unfolding addn
content-addn sb [] = rw take-nil (sym (append-nil sb.content))
content-addn sb (c ∷ s) =
    ground (arith, append-nil sb.content, take-all (sb.cap - length sb.content - 1) (c ∷ s))

room : (cap n : ℕ) → cap - min (cap - 1) n - 1 ≡ cap - 1 - n
room cap n = omega arith

module _ {cap : ℕ} {sb : Strbuf} {w : Bytes} where
  length-content : Holds cap sb w → length sb.content ≡ min (cap - 1) (length w)
  length-content h = ap length h.prefix ∙ length-take (cap - 1) w

  -- Adding bytes to the builder adds them to the string it stands for.
  pub addn-Holds : (s : Bytes) → Holds cap sb w → Holds cap (addn sb s) (w ++ s)
  addn-Holds s h = record {
    size = cap-addn sb s ∙ h.size;
    prefix =
        rw (content-addn sb s, h.size, length-content h, room cap (length w), h.prefix)
          (sym (take-append (cap - 1) w s));
    cut = λ e. ground (arith, overflow-addn sb s, h.size, length-content h, length-append w s);
    whole_fits =
        λ e. ground (arith, overflow-addn sb s, h.size, length-content h, length-append w s);
  }

  -- What a builder that holds `w` reports: the whole string if it fits with its NUL, or the failure.
  pub result-Holds :
      Holds cap sb w → result sb ≡ (if ltb (length w) cap then ok w else err buffer_too_small)
  unfolding result
  result-Holds h = elim (Bool-cases sb.overflow) [
    | inl e ↦ rw (e, ge→ltb (length w) cap (h.cut e))
    | inr e ↦ rw (
      e,
      lt→ltb (length w) cap (h.whole_fits e),
      h.prefix,
      take-all (cap - 1) w (omega (arith, h.whole_fits e)),
    )
  ]
