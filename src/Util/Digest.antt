-- ===== src/Util/Digest.antt =====
-- core/src/util/sha256.c: how a digest is spelled, and how two spellings are compared.
use Prim.Native.Nat.{bit_or, bit_xor}
use dae_moon.Prelude.{
  ℕ, zero, suc, ◌≡◌, refl, ◌↔◌, ap, ◌∙◌, Bool, true, false, ◌&&◌, [], ◌∷◌, Bytes, length, arith,
  ◌==◌, bit_or-zero, bit_xor-zero, bit_xor_self, ◌/◌, ◌%◌,
}
use dae_moon.Util.Strbuf.{hex_digit}

-- daemoon_sha256_hex
unfoldable pub hex : Bytes → Bytes
unfolding hex_digit
hex [] = []
hex (d ∷ digest) = hex_digit (d / 16 % 16) ∷ hex_digit (d % 16) ∷ hex digest

unfoldable pub is_end : Bytes → Bool
is_end [] = true
is_end (c ∷ s) = false

-- The loop of daemoon_sha256_hex_equal, with `n` places to go. A list that has ended is at its NUL.
unfoldable pub hex_equal_walk : ℕ → ℕ → Bytes → Bytes → Bool
unfolding is_end
hex_equal_walk zero diff a b = diff == 0 && is_end a && is_end b
hex_equal_walk (suc n) diff [] b = false
hex_equal_walk (suc n) diff (x ∷ a) [] = false
hex_equal_walk (suc n) diff (x ∷ a) (y ∷ b) = hex_equal_walk n (bit_or diff (bit_xor x y)) a b

-- daemoon_sha256_hex_equal
unfoldable pub hex_equal : Bytes → Bytes → Bool
unfolding hex_equal_walk
hex_equal a b = hex_equal_walk 64 0 a b

walk_sound :
    (n diff : ℕ) (a b : Bytes)
    → hex_equal_walk n diff a b ≡ true
    → (diff ≡ 0) × (length a ≡ n) × (a ≡ b)
unfolding hex_equal_walk
walk_sound zero diff [] [] h = ground arith
walk_sound zero diff [] (y ∷ b) h = ground arith
walk_sound zero diff (x ∷ a) b h = ground arith
walk_sound (suc n) diff [] b h = cc
walk_sound (suc n) diff (x ∷ a) [] h = cc
walk_sound (suc n) diff (x ∷ a) (y ∷ b) h =
    let rest = walk_sound n (bit_or diff (bit_xor x y)) a b h in
    let zeros = bit_or-zero diff (bit_xor x y) rest.0 in
    (zeros.0, ap suc rest.1, cons_path (bit_xor-zero x y zeros.1) rest.2)
  where
    cons_path : x ≡ y → a ≡ b → x ∷ a ≡ y ∷ b
    cons_path p q = cc

walk_complete : (a : Bytes) → hex_equal_walk (length a) 0 a a ≡ true
unfolding hex_equal_walk
walk_complete [] = refl
walk_complete (x ∷ a) =
    ap (λ (d : ℕ). hex_equal_walk (length a) (bit_or 0 d) a a) (bit_xor_self x) ∙ walk_complete a

-- Two spellings are equal to the code exactly when they are the same 64 characters.
pub hex_equal_iff : (a b : Bytes) → (hex_equal a b ≡ true) ↔ ((a ≡ b) × (length a ≡ 64))
unfolding hex_equal
hex_equal_iff a b =
    (λ h. let r = walk_sound 64 0 a b h in (r.2, r.1), λ (e, l). rw (← e, ← l) (walk_complete a))
