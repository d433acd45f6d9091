-- ===== src/Util/Sha256/Cuts.antt =====
-- Cutting a list that is put together from two, as the buffer of core/src/util/sha256.c is.
use dae_moon.Prelude.{
  ℕ, zero, suc, ◌-◌, ◌≡◌, ◌≤◌, refl, ◌∙◌, ap, List, [], ◌∷◌, ◌++◌, length, take, drop, arith,
}

minus_zero : (n : ℕ) → n ≡ n - 0
minus_zero n = omega arith

minus_suc : (n m : ℕ) → n - m ≡ suc n - suc m
minus_suc n m = omega arith

module _ {ℓ} {A : Type ℓ} where
  pub take-append_within : (n : ℕ) (xs ys : List A) → n ≤ length xs → take n (xs ++ ys) ≡ take n xs
  take-append_within zero xs ys h = refl
  take-append_within (suc n) [] ys h = absurd (omega arith)
  take-append_within (suc n) (x ∷ xs) ys h =
      ap (λ (r : List A). x ∷ r) (take-append_within n xs ys (omega arith))

  pub drop-append_within :
      (n : ℕ) (xs ys : List A) → n ≤ length xs → drop n (xs ++ ys) ≡ drop n xs ++ ys
  drop-append_within zero xs ys h = refl
  drop-append_within (suc n) [] ys h = absurd (omega arith)
  drop-append_within (suc n) (x ∷ xs) ys h = drop-append_within n xs ys (omega arith)

  pub take-append_beyond :
      (xs ys : List A) (n : ℕ) → length xs ≤ n → take n (xs ++ ys) ≡ xs ++ take (n - length xs) ys
  take-append_beyond [] ys n h = ap (λ (k : ℕ). take k ys) (minus_zero n)
  take-append_beyond (x ∷ xs) ys zero h = absurd (omega arith)
  take-append_beyond (x ∷ xs) ys (suc n) h =
      ap (λ (r : List A). x ∷ r)
        (take-append_beyond xs ys n (omega arith)
          ∙ ap (λ (k : ℕ). xs ++ take k ys) (minus_suc n (length xs)))

  pub drop-append_beyond :
      (xs ys : List A) (n : ℕ) → length xs ≤ n → drop n (xs ++ ys) ≡ drop (n - length xs) ys
  drop-append_beyond [] ys n h = ap (λ (k : ℕ). drop k ys) (minus_zero n)
  drop-append_beyond (x ∷ xs) ys zero h = absurd (omega arith)
  drop-append_beyond (x ∷ xs) ys (suc n) h =
      drop-append_beyond xs ys n (omega arith) ∙ ap (λ (k : ℕ). drop k ys) (minus_suc n (length xs))
