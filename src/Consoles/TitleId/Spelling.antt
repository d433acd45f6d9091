-- ===== src/Consoles/TitleId/Spelling.antt =====
-- The two spellings of a title id, and how they are read back.
use dae_moon.Prelude.{
  ℕ, zero, suc, ◌+◌, ◌-◌, ◌*◌, ◌/◌, ◌%◌, ◌^◌, ◌≡◌, ◌<◌, ◌≤◌, refl, sym, ap, ◌∙◌, true, false, some,
  length, take-all, ◌==◌, ge→ltb, arith,
}
use native.Mathlib.Nat.{div-div-eq-div-mul, pow-suc, div-le_self, div-one}
use dae_moon.Errors.{ok}
use dae_moon.Util.Strbuf.{upper_hex_digit}
use dae_moon.Consoles.TitleId.{
  id_digits, format_title_id, nx_format_title_id, id_digit, add_digit, id_walk, parse_title_id,
  nx_parse_title_id,
}

id_digit-upper_hex_digit : (d : ℕ) → d < 16 → id_digit (upper_hex_digit d) ≡ some d
unfolding id_digit upper_hex_digit
id_digit-upper_hex_digit zero h = refl
id_digit-upper_hex_digit (suc zero) h = refl
id_digit-upper_hex_digit (suc (suc zero)) h = refl
id_digit-upper_hex_digit (suc (suc (suc zero))) h = refl
id_digit-upper_hex_digit (suc (suc (suc (suc zero)))) h = refl
id_digit-upper_hex_digit (suc (suc (suc (suc (suc zero))))) h = refl
id_digit-upper_hex_digit (suc (suc (suc (suc (suc (suc zero)))))) h = refl
id_digit-upper_hex_digit (suc (suc (suc (suc (suc (suc (suc zero))))))) h = refl
id_digit-upper_hex_digit (suc (suc (suc (suc (suc (suc (suc (suc zero)))))))) h = refl
id_digit-upper_hex_digit (suc (suc (suc (suc (suc (suc (suc (suc (suc zero))))))))) h = refl
id_digit-upper_hex_digit (suc (suc (suc (suc (suc (suc (suc (suc (suc (suc zero)))))))))) h = refl
id_digit-upper_hex_digit (suc (suc (suc (suc (suc (suc (suc (suc (suc (suc (suc zero))))))))))) h =
    refl
id_digit-upper_hex_digit
      (suc (suc (suc (suc (suc (suc (suc (suc (suc (suc (suc (suc zero)))))))))))) h =
    refl
id_digit-upper_hex_digit
      (suc (suc (suc (suc (suc (suc (suc (suc (suc (suc (suc (suc (suc zero))))))))))))) h =
    refl
id_digit-upper_hex_digit
      (suc (suc (suc (suc (suc (suc (suc (suc (suc (suc (suc (suc (suc (suc zero)))))))))))))) h =
    refl
id_digit-upper_hex_digit
      (suc (suc (suc (suc (suc (suc (suc (suc (suc (suc (suc (suc (suc (suc (suc zero)))))))))))))))
      h =
    refl
id_digit-upper_hex_digit
      (suc
        (suc (suc (suc (suc (suc (suc (suc (suc (suc (suc (suc (suc (suc (suc (suc n))))))))))))))))
      h =
    absurd (omega arith)

length-id_digits : (n id : ℕ) → length (id_digits n id) ≡ n
unfolding id_digits
length-id_digits zero id = refl
length-id_digits (suc n) id = ap suc (length-id_digits n id)

-- One digit more is one division by 16 less.
next_division : (id n : ℕ) → id / 16 ^ suc n ≡ id / 16 ^ n / 16
next_division id n = ap (λ k. id / k) (pow-suc 16 n) ∙ sym (div-div-eq-div-mul id (16 ^ n) 16)

id_walk-id_digits : (n id : ℕ) → id < 2 ^ 64 → id_walk (id / 16 ^ n) (id_digits n id) ≡ ok id
unfolding id_walk id_digits
id_walk-id_digits zero id h = ap ok (div-one id)
id_walk-id_digits (suc n) id h =
    let d = id / 16 ^ n % 16 in
    ap (add_digit (λ v. id_walk v (id_digits n id)) (id / 16 ^ suc n))
      (id_digit-upper_hex_digit d (omega arith))
    ∙ ap (λ v. id_walk v (id_digits n id)) next_digit
    ∙ id_walk-id_digits n id h
  where
    next_digit : id / 16 ^ suc n * 16 % 2 ^ 64 + id / 16 ^ n % 16 ≡ id / 16 ^ n
    next_digit = omega (arith, next_division id n, div-le_self id (16 ^ n), h)

id_digits-read : (id : ℕ) → id < 2 ^ 64 → id_walk 0 (id_digits 16 id) ≡ ok id
id_digits-read id h =
    ap (λ v. id_walk v (id_digits 16 id)) (omega (arith, h)) ∙ id_walk-id_digits 16 id h

sixteen : (id : ℕ) → (length (id_digits 16 id) == 16) ≡ true
sixteen id = rw (length-id_digits 16 id) refl

-- Both consoles spell a title id below 2^64 alike, where the buffer has room for 16 digits and
-- the NUL, and each reads it back.
pub parse_title_id-format_title_id :
    (cap id : ℕ)
    → 17 ≤ cap
    → id < 2 ^ 64
    → (format_title_id cap id ≡ nx_format_title_id cap id)
      × (parse_title_id (some (format_title_id cap id)) ≡ ok id)
      × (nx_parse_title_id (some (nx_format_title_id cap id)) ≡ ok id)
parse_title_id-format_title_id cap id room h = (
  on_3ds ∙ sym on_nx,
  ap (λ s. parse_title_id (some s)) on_3ds ∙ read_3ds,
  ap (λ s. nx_parse_title_id (some s)) on_nx ∙ read_nx,
)
  where
    on_3ds : format_title_id cap id ≡ id_digits 16 id
    on_3ds = unfold format_title_id in rw (ge→ltb cap 17 room) refl

    not_empty : (cap == 0) ≡ false
    not_empty = ground arith

    on_nx : nx_format_title_id cap id ≡ id_digits 16 id
    on_nx =
        unfold nx_format_title_id in
        rw not_empty (take-all (cap - 1) (id_digits 16 id) (omega (arith, length-id_digits 16 id)))

    read_3ds : parse_title_id (some (id_digits 16 id)) ≡ ok id
    read_3ds = unfold parse_title_id in rw (sixteen id) (id_digits-read id h)

    read_nx : nx_parse_title_id (some (id_digits 16 id)) ≡ ok id
    read_nx = unfold nx_parse_title_id in rw (sixteen id) (id_digits-read id h)
