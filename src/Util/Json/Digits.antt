-- ===== src/Util/Json/Digits.antt =====
-- The four hexadecimal digits that core/src/util/strbuf.c writes for a control character, as
-- core/src/util/json.c reads them.
use dae_moon.Prelude.{
  ℕ, zero, suc, ◌+◌, ◌*◌, ◌/◌, ◌%◌, ◌≡◌, ◌<◌, refl, ◌∙◌, ap, false, ◌&&◌, some, ◌∷◌, Bytes, length,
  ltb, leb, arith,
}
use dae_moon.Util.Strbuf.{hex_digit}
use dae_moon.Util.Json.Strings.{hex_val, four_digits, unicode_escape}

hex_val-hex_digit : (d : ℕ) → d < 16 → hex_val (hex_digit d) ≡ some d
unfolding hex_val hex_digit
hex_val-hex_digit zero h = refl
hex_val-hex_digit (suc zero) h = refl
hex_val-hex_digit (suc (suc zero)) h = refl
hex_val-hex_digit (suc (suc (suc zero))) h = refl
hex_val-hex_digit (suc (suc (suc (suc zero)))) h = refl
hex_val-hex_digit (suc (suc (suc (suc (suc zero))))) h = refl
hex_val-hex_digit (suc (suc (suc (suc (suc (suc zero)))))) h = refl
hex_val-hex_digit (suc (suc (suc (suc (suc (suc (suc zero))))))) h = refl
hex_val-hex_digit (suc (suc (suc (suc (suc (suc (suc (suc zero)))))))) h = refl
hex_val-hex_digit (suc (suc (suc (suc (suc (suc (suc (suc (suc zero))))))))) h = refl
hex_val-hex_digit (suc (suc (suc (suc (suc (suc (suc (suc (suc (suc zero)))))))))) h = refl
hex_val-hex_digit (suc (suc (suc (suc (suc (suc (suc (suc (suc (suc (suc zero))))))))))) h = refl
hex_val-hex_digit (suc (suc (suc (suc (suc (suc (suc (suc (suc (suc (suc (suc zero)))))))))))) h =
    refl
hex_val-hex_digit (suc (suc (suc (suc (suc (suc (suc (suc (suc (suc (suc (suc (suc zero)))))))))))))
      h =
    refl
hex_val-hex_digit
      (suc (suc (suc (suc (suc (suc (suc (suc (suc (suc (suc (suc (suc (suc zero)))))))))))))) h =
    refl
hex_val-hex_digit
      (suc (suc (suc (suc (suc (suc (suc (suc (suc (suc (suc (suc (suc (suc (suc zero)))))))))))))))
      h =
    refl
hex_val-hex_digit
      (suc
        (suc (suc (suc (suc (suc (suc (suc (suc (suc (suc (suc (suc (suc (suc (suc d))))))))))))))))
      h =
    absurd (omega arith)

four_digits-step :
    (n acc v c : ℕ) (s : Bytes)
    → hex_val c ≡ some v
    → four_digits (suc n) acc (c ∷ s) ≡ four_digits n (acc * 16 + v) s
unfolding four_digits
four_digits-step n acc v c s h = rw (h, four_digits) refl

hex_val_zero : hex_val 48 ≡ some 0
unfolding hex_val
hex_val_zero = refl

four_digits_end : (acc : ℕ) (s : Bytes) → four_digits 0 acc s ≡ some acc
unfolding four_digits
four_digits_end acc s = refl

pub four_digits-control :
    (c : ℕ) (r : Bytes)
    → c < 32
    → four_digits 4 0 (48 ∷ 48 ∷ hex_digit (c / 16 % 16) ∷ hex_digit (c % 16) ∷ r) ≡ some c
four_digits-control c r h =
    let hi = c / 16 % 16 in
    let lo = c % 16 in
    four_digits-step 3 0 0 48 _ hex_val_zero
    ∙ four_digits-step 2 0 0 48 _ hex_val_zero
    ∙ four_digits-step 1 0 hi (hex_digit hi) _ (hex_val-hex_digit hi (omega arith))
    ∙ four_digits-step 0 (0 * 16 + hi) lo (hex_digit lo) r (hex_val-hex_digit lo (omega arith))
    ∙ four_digits_end ((0 * 16 + hi) * 16 + lo) r
    ∙ ap (λ (k : ℕ). some k) value_back
  where
    value_back : (0 * 16 + c / 16 % 16) * 16 + c % 16 ≡ c
    value_back = omega arith

pub unicode_escape-control :
    (c : ℕ) (r : Bytes)
    → c < 32
    → unicode_escape (48 ∷ 48 ∷ hex_digit (c / 16 % 16) ∷ hex_digit (c % 16) ∷ r) ≡ some (c, r)
unfolding unicode_escape
unicode_escape-control c r h = rw (long_enough, four_digits-control c r h, high, low) refl
  where
    long_enough :
        ltb (length (48 ∷ 48 ∷ hex_digit (c / 16 % 16) ∷ hex_digit (c % 16) ∷ r)) 4 ≡ false
    long_enough = ground arith

    high : (leb 0xd800 c && leb c 0xdbff) ≡ false
    high = ground arith

    low : (leb 0xdc00 c && leb c 0xdfff) ≡ false
    low = ground arith
