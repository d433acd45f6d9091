-- ===== src/Util/Json/Numbers.antt =====
-- A number that daemoon_strbuf_add_uint prints is read back by daemoon_json_uint.
use native.Mathlib.Nat.{pow-suc}
use dae_moon.Prelude.{
  ℕ, zero, suc, ◌+◌, ◌-◌, ◌*◌, ◌/◌, ◌%◌, ◌^◌, ◌≤◌, ◌<◌, ◌≡◌, refl, ap, ◌∙◌, inl, inr, false, [],
  ◌∷◌, Bytes, arith, ltb, ◌||◌, ◌==◌, Bool-cases, ==→eq,
}
use dae_moon.Errors.{ok}
use dae_moon.Util.Strbuf.{digits_before, uint_text}
use dae_moon.Util.Json.{uint_walk}

abbrev pub u64_max : ℕ
u64_max = 0xffffffffffffffff

uint_walk-digit :
    (v d : ℕ) (tail : Bytes)
    → d < 10
    → v * 10 + d ≤ u64_max
    → uint_walk v ((48 + d) ∷ tail) ≡ uint_walk (v * 10 + d) tail
unfolding uint_walk
uint_walk-digit v d tail small fits = rw (not_a_letter, no_overflow, digit) refl
  where
    not_a_letter : (ltb (48 + d) b'0' || ltb b'9' (48 + d)) ≡ false
    not_a_letter = ground arith

    no_overflow : ltb ((u64_max - (48 + d - b'0')) / 10) v ≡ false
    no_overflow = ground arith

    digit : 48 + d - b'0' ≡ d
    digit = omega arith

pow_step : (i v : ℕ) → v < 10 ^ suc i → v / 10 < 10 ^ i
pow_step i v h = omega (arith, pow-suc 10 i)

uint_walk-digits_before :
    (i v : ℕ) (tail : Bytes)
    → v < 10 ^ i
    → v ≤ u64_max
    → uint_walk 0 (digits_before i v tail) ≡ uint_walk v tail
unfolding digits_before
uint_walk-digits_before zero v tail h fits = ap (λ n. uint_walk n tail) (omega arith)
uint_walk-digits_before (suc i) v tail h fits = elim (Bool-cases (v / 10 == 0)) [
  | inl e ↦
      let small : v / 10 ≡ 0 = ==→eq (v / 10) 0 e in
      rw e (
        uint_walk-digit 0 (v % 10) tail (omega arith) (omega arith)
        ∙ ap (λ n. uint_walk n tail) (omega arith))
  | inr e ↦ rw e (
      uint_walk-digits_before i (v / 10) ((48 + v % 10) ∷ tail) (pow_step i v h) (omega arith)
      ∙ uint_walk-digit (v / 10) (v % 10) tail (omega arith) (omega arith)
      ∙ ap (λ n. uint_walk n tail) (omega arith))
]

-- Every 64-bit number survives being printed and read.
pub uint_walk-uint_text : (v : ℕ) → v ≤ u64_max → uint_walk 0 (uint_text v) ≡ ok v
unfolding uint_text uint_walk
uint_walk-uint_text v h = uint_walk-digits_before 24 v [] (omega arith) h
