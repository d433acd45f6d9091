-- ===== src/Util/Utf8.antt =====
-- core/src/util/utf8.c: the well formed sequences of UTF-8, and the walks over a text that count,
-- cut and measure by them. A pointer with a length is the list of the bytes from there on; a walk
-- takes fuel, which is never less than the bytes left, and every round consumes one at least.
pub mod Sequence
pub mod Walks
use dae_moon.Prelude.{
  ℕ, zero, suc, ◌+◌, ◌-◌, ◌*◌, ◌/◌, ◌%◌, Bool, true, false, ◌&&◌, ◌||◌, Option, none, some, List,
  [], ◌∷◌, Bytes, length, drop, ltb, leb, ◌==◌, if◌then◌else◌,
}

-- The lead byte gives the length of the sequence and the first bits; `none` is a continuation byte
-- or the lead of five bytes and more.
unfoldable pub lead : ℕ → Option (ℕ × ℕ)
lead c =
    if ltb c 0x80
    then some (1, c)
    else if c / 32 == 6
    then some (2, c % 32)
    else if c / 16 == 14
    then some (3, c % 16)
    else if c / 8 == 30
    then some (4, c % 8)
    else none

-- The loop over the continuation bytes, `n` of which are left.
unfoldable pub continuation : ℕ → ℕ → Bytes → Option ℕ
continuation zero cp s = some cp
continuation (suc n) cp [] = none
continuation (suc n) cp (c ∷ s) =
    let rest = continuation n (cp * 64 + c % 64) s in if c / 64 == 2 then rest else none

-- Overlong forms, what lies above U+10FFFF, and surrogates.
unfoldable pub is_refused : ℕ → ℕ → Bool
is_refused need cp =
    (need == 2 && ltb cp 0x80)
    || (need == 3 && ltb cp 0x800)
    || (need == 4 && ltb cp 0x10000)
    || ltb 0x10ffff cp
    || (leb 0xd800 cp && leb cp 0xdfff)

unfoldable pub accept : ℕ → Option ℕ → Option (ℕ × ℕ)
unfolding is_refused
accept need none = none
accept need (some cp) = if is_refused need cp then none else some (need, cp)

unfoldable pub seq_from : Bytes → Option (ℕ × ℕ) → Option (ℕ × ℕ)
unfolding continuation accept
seq_from s none = none
seq_from s (some (need, cp)) =
    if ltb (suc (length s)) need then none else accept need (continuation (need - 1) cp s)

-- seq_len: the length of the sequence at the head and its code point; `none` is 0.
unfoldable pub seq_len : Bytes → Option (ℕ × ℕ)
unfolding lead seq_from
seq_len [] = none
seq_len (c ∷ s) = seq_from s (lead c)

-- The number of bytes a walk passes over, a malformed byte counting as one.
unfoldable pub step_len : Option (ℕ × ℕ) → ℕ
step_len none = 1
step_len (some (n, cp)) = n

unfoldable pub valid_walk : ℕ → Bytes → Bool
valid_walk fuel [] = true
valid_walk zero (c ∷ s) = false
valid_walk (suc fuel) (c ∷ s) = elim (seq_len (c ∷ s)) [
  | none ↦ false
  | some (n, cp) ↦ valid_walk fuel (drop n (c ∷ s))
]

-- daemoon_utf8_valid
unfoldable pub valid : Bytes → Bool
unfolding valid_walk
valid s = valid_walk (length s) s

unfoldable pub length_walk : ℕ → Bytes → ℕ
unfolding step_len
length_walk fuel [] = 0
length_walk zero (c ∷ s) = 0
length_walk (suc fuel) (c ∷ s) = suc (length_walk fuel (drop (step_len (seq_len (c ∷ s))) (c ∷ s)))

-- daemoon_utf8_length
unfoldable pub length_utf8 : Bytes → ℕ
unfolding length_walk
length_utf8 s = length_walk (length s) s

-- daemoon_utf8_decode: the bytes read and the code point, U+FFFD for a malformed byte.
unfoldable pub decode : Bytes → ℕ × ℕ
decode [] = (0, 0)
decode (c ∷ s) = elim (seq_len (c ∷ s)) [ none ↦ (1, 0xfffd) | some (n, cp) ↦ (n, cp) ]

-- The loop of daemoon_utf8_truncate, with `i` bytes kept.
unfoldable pub truncate_walk : ℕ → ℕ → ℕ → Bytes → ℕ
unfolding step_len
truncate_walk fuel max_bytes i [] = i
truncate_walk zero max_bytes i (c ∷ s) = i
truncate_walk (suc fuel) max_bytes i (c ∷ s) =
    let n = step_len (seq_len (c ∷ s)) in
    let rest = truncate_walk fuel max_bytes (i + n) (drop n (c ∷ s)) in
    if ltb max_bytes (i + n) then i else rest

-- daemoon_utf8_truncate
unfoldable pub truncate : Bytes → ℕ → ℕ
unfolding truncate_walk
truncate s max_bytes =
    if leb (length s) max_bytes then length s else truncate_walk (length s) max_bytes 0 s

-- The bytes that a lead byte announces, 0 if it is none.
unfoldable pub announced : ℕ → ℕ
announced c = if c / 32 == 6 then 2 else if c / 16 == 14 then 3 else if c / 8 == 30 then 4 else 0

unfoldable pub trim_walk : ℕ → ℕ → Bytes → ℕ
unfolding announced
trim_walk fuel i [] = i
trim_walk zero i (c ∷ s) = i
trim_walk (suc fuel) i (c ∷ s) = elim (seq_len (c ∷ s)) [
  | some (n, cp) ↦ trim_walk fuel (i + n) (drop n (c ∷ s))
  | none ↦
      let rest = trim_walk fuel (i + 1) s in
      if ltb 0 (announced c) && ltb (suc (length s)) (announced c) then i else rest
]

-- daemoon_utf8_trim_partial
unfoldable pub trim_partial : Bytes → ℕ
unfolding trim_walk
trim_partial s = trim_walk (length s) 0 s

unfoldable pub cp_width : ℕ → ℕ
cp_width cp =
    if cp == 0
    then 0
    else if (leb 0x0300 cp && leb cp 0x036f)
        || cp == 0x200b
        || cp == 0x200d
        || (leb 0xfe00 cp && leb cp 0xfe0f)
    then 0
    else if (leb 0x1100 cp && leb cp 0x115f)
        || (leb 0x2e80 cp && leb cp 0xa4cf)
        || (leb 0xac00 cp && leb cp 0xd7a3)
        || (leb 0xf900 cp && leb cp 0xfaff)
        || (leb 0xfe30 cp && leb cp 0xfe6f)
        || (leb 0xff00 cp && leb cp 0xff60)
        || (leb 0xffe0 cp && leb cp 0xffe6)
        || (leb 0x1f300 cp && leb cp 0x1f64f)
        || (leb 0x20000 cp && leb cp 0x3fffd)
    then 2
    else 1

unfoldable pub width_walk : ℕ → Bytes → ℕ
unfolding decode cp_width
width_walk fuel [] = 0
width_walk zero (c ∷ s) = 0
width_walk (suc fuel) (c ∷ s) =
    let (n, cp) = decode (c ∷ s) in cp_width cp + width_walk fuel (drop n (c ∷ s))

-- daemoon_utf8_width
unfoldable pub width : Bytes → ℕ
unfolding width_walk
width s = width_walk (length s) s
