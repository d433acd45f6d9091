-- ===== src/Util/Utf8/Sequence.antt =====
-- The sequences that `seq_len` accepts are the encodings of the Unicode scalar values, each in its
-- one shortest form.
use dae_moon.Prelude.{
  ℕ, ◌+◌, ◌/◌, ◌%◌, ◌≤◌, ◌<◌, ◌≡◌, ◌⊎◌, some, [], ◌∷◌, ◌++◌, Bytes, length, take, arith, ltb,
  if◌then◌else◌,
}
use dae_moon.Util.Utf8.{seq_len}

-- A Unicode scalar value.
abbrev pub IsScalar : ℕ → Type 0
IsScalar cp = (cp < 0xd800) ⊎ ((0xdfff < cp) × (cp ≤ 0x10ffff))

-- The shortest encoding.
unfoldable pub encode : ℕ → Bytes
encode cp =
    if ltb cp 0x80
    then cp ∷ []
    else if ltb cp 0x800
    then (0xc0 + cp / 64) ∷ (0x80 + cp % 64) ∷ []
    else if ltb cp 0x10000
    then (0xe0 + cp / 4096) ∷ (0x80 + cp / 64 % 64) ∷ (0x80 + cp % 64) ∷ []
    else (0xf0 + cp / 262144)
      ∷ (0x80 + cp / 4096 % 64)
      ∷ (0x80 + cp / 64 % 64)
      ∷ (0x80 + cp % 64)
      ∷ []

pub seq_len-encode :
    (cp : ℕ) (rest : Bytes)
    → IsScalar cp
    → seq_len (encode cp ++ rest) ≡ some (length (encode cp), cp)
unfolding seq_len encode
seq_len-encode cp rest h = ground arith

-- The sequence of `n` bytes at the front is the encoding of the scalar value `cp`.
abbrev pub Encodes : Bytes → ℕ × ℕ → Type 0
Encodes s (n, cp) = IsScalar cp × (n ≡ length (encode cp)) × (take n s ≡ encode cp)

-- An accepted sequence is the shortest encoding of the Unicode scalar value that it is read as.
pub seq_len-Encodes : (s : Bytes) (n cp : ℕ) → seq_len s ≡ some (n, cp) → Encodes s (n, cp)
unfolding seq_len encode
seq_len-Encodes [] n cp h = cc
seq_len-Encodes (a ∷ []) n cp h = (ground arith, ground arith, ground arith)
seq_len-Encodes (a ∷ b ∷ []) n cp h = (ground arith, ground arith, ground arith)
seq_len-Encodes (a ∷ b ∷ c ∷ []) n cp h = (ground arith, ground arith, ground arith)
seq_len-Encodes (a ∷ b ∷ c ∷ d ∷ s) n cp h = (ground arith, ground arith, ground arith)
