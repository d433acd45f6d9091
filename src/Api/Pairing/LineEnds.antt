-- ===== src/Api/Pairing/LineEnds.antt =====
-- The bytes that daemoon_pair_parse of core/src/api.c drops behind the code.
use dae_moon.Prelude.{
  ℕ, ◌≡◌, ◌⊎◌, ◌==◌, ==→eq, refl, true, [], ◌∷◌, Bytes, All, all, Bool-cases, inl, inr, &&-left,
  &&-right,
}
use dae_moon.Api.Pairing.{is_trailing}

-- A line feed, a carriage return or a NUL.
abbrev pub IsLineEnd : ℕ → Type 0
IsLineEnd c = (c ≡ 10) ⊎ (c ≡ 13) ⊎ (c ≡ 0)

is_trailing-IsLineEnd : (c : ℕ) → is_trailing c ≡ true → IsLineEnd c
unfolding is_trailing
is_trailing-IsLineEnd c h = elim (Bool-cases (c == 10)) [
  | inl e ↦ inl (==→eq c 10 e)
  | inr e ↦ elim (Bool-cases (c == 13)) [
    | inl k ↦ inr (inl (==→eq c 13 k))
    | inr k ↦ inr (inr (==→eq c 0 (rw (e, k) at h)))
  ]
]

IsLineEnd-is_trailing : (c : ℕ) → IsLineEnd c → is_trailing c ≡ true
unfolding is_trailing
IsLineEnd-is_trailing c (inl e) = rw e refl
IsLineEnd-is_trailing c (inr (inl e)) = rw e refl
IsLineEnd-is_trailing c (inr (inr e)) = rw e refl

pub all-IsLineEnd : (t : Bytes) → all is_trailing t ≡ true → All IsLineEnd t
all-IsLineEnd [] h = tt
all-IsLineEnd (c ∷ t) h = (
  is_trailing-IsLineEnd c (&&-left (is_trailing c) (all is_trailing t) h),
  all-IsLineEnd t (&&-right (is_trailing c) (all is_trailing t) h),
)

pub IsLineEnd-all : (t : Bytes) → All IsLineEnd t → all is_trailing t ≡ true
IsLineEnd-all [] h = refl
IsLineEnd-all (c ∷ t) h = rw (IsLineEnd-is_trailing c h.0, IsLineEnd-all t h.1) refl
