-- ===== src/Util/Sha256.antt =====
-- The hash of core/src/util/sha256.c, FIPS 180-4, over 32-bit words written out as numbers below 2^32.
pub mod Cuts
pub mod Chunks
use Prim.Native.Nat.{bit_and, bit_or, bit_xor}
use dae_moon.Prelude.{
  ℕ, zero, suc, ◌+◌, ◌-◌, ◌*◌, ◌/◌, ◌%◌, ◌^◌, Bool, true, false, List, [], ◌∷◌, ◌++◌, Bytes, length,
  take, drop, get_or, ltb, leb, ◌==◌, if◌then◌else◌,
}

abbrev pub word_size : ℕ
word_size = 0x100000000

unfoldable pub k_round : List ℕ
k_round =
    0x428a2f98 ∷ 0x71374491 ∷ 0xb5c0fbcf ∷ 0xe9b5dba5 ∷ 0x3956c25b ∷ 0x59f111f1 ∷ 0x923f82a4
    ∷ 0xab1c5ed5 ∷ 0xd807aa98 ∷ 0x12835b01 ∷ 0x243185be ∷ 0x550c7dc3 ∷ 0x72be5d74 ∷ 0x80deb1fe
    ∷ 0x9bdc06a7 ∷ 0xc19bf174 ∷ 0xe49b69c1 ∷ 0xefbe4786 ∷ 0x0fc19dc6 ∷ 0x240ca1cc ∷ 0x2de92c6f
    ∷ 0x4a7484aa ∷ 0x5cb0a9dc ∷ 0x76f988da ∷ 0x983e5152 ∷ 0xa831c66d ∷ 0xb00327c8 ∷ 0xbf597fc7
    ∷ 0xc6e00bf3 ∷ 0xd5a79147 ∷ 0x06ca6351 ∷ 0x14292967 ∷ 0x27b70a85 ∷ 0x2e1b2138 ∷ 0x4d2c6dfc
    ∷ 0x53380d13 ∷ 0x650a7354 ∷ 0x766a0abb ∷ 0x81c2c92e ∷ 0x92722c85 ∷ 0xa2bfe8a1 ∷ 0xa81a664b
    ∷ 0xc24b8b70 ∷ 0xc76c51a3 ∷ 0xd192e819 ∷ 0xd6990624 ∷ 0xf40e3585 ∷ 0x106aa070 ∷ 0x19a4c116
    ∷ 0x1e376c08 ∷ 0x2748774c ∷ 0x34b0bcb5 ∷ 0x391c0cb3 ∷ 0x4ed8aa4a ∷ 0x5b9cca4f ∷ 0x682e6ff3
    ∷ 0x748f82ee ∷ 0x78a5636f ∷ 0x84c87814 ∷ 0x8cc70208 ∷ 0x90befffa ∷ 0xa4506ceb ∷ 0xbef9a3f7
    ∷ 0xc67178f2 ∷ []

unfoldable pub rotr : ℕ → ℕ → ℕ
rotr x n = bit_or (x / 2 ^ n) (x * 2 ^ (32 - n) % word_size)

unfoldable pub ch : ℕ → ℕ → ℕ → ℕ
ch x y z = bit_xor (bit_and x y) (bit_and (word_size - 1 - x) z)

unfoldable pub maj : ℕ → ℕ → ℕ → ℕ
maj x y z = bit_xor (bit_xor (bit_and x y) (bit_and x z)) (bit_and y z)

unfoldable pub bsig0 : ℕ → ℕ
bsig0 x = bit_xor (bit_xor (rotr x 2) (rotr x 13)) (rotr x 22)

unfoldable pub bsig1 : ℕ → ℕ
bsig1 x = bit_xor (bit_xor (rotr x 6) (rotr x 11)) (rotr x 25)

unfoldable pub ssig0 : ℕ → ℕ
ssig0 x = bit_xor (bit_xor (rotr x 7) (rotr x 18)) (x / 8)

unfoldable pub ssig1 : ℕ → ℕ
ssig1 x = bit_xor (bit_xor (rotr x 17) (rotr x 19)) (x / 1024)

-- c->state, and the variables a to h of a round
pub record Words : Type 0 where
  pub a : ℕ
  pub b : ℕ
  pub c : ℕ
  pub d : ℕ
  pub e : ℕ
  pub f : ℕ
  pub g : ℕ
  pub h : ℕ

-- The first 16 words, read from the block, the newest first.
unfoldable pub block_words : ℕ → Bytes → List ℕ → List ℕ
block_words zero block w = w
block_words (suc n) block w = block_words n (drop 4 block) (
    (get_or block 0 0 * 0x1000000
      + get_or block 1 0 * 0x10000
      + get_or block 2 0 * 0x100
      + get_or block 3 0)
    ∷ w)

-- The words that follow, the newest first: w[i - 2] is the second of them, and so on.
unfoldable pub more_words : ℕ → List ℕ → List ℕ
more_words zero w = w
more_words (suc n) w = more_words n (
    ((ssig1 (get_or w 1 0) + get_or w 6 0 + ssig0 (get_or w 14 0) + get_or w 15 0) % word_size) ∷ w)

unfoldable pub reversed : List ℕ → List ℕ → List ℕ
reversed [] ys = ys
reversed (x ∷ xs) ys = reversed xs (x ∷ ys)

unfoldable pub round : Words → ℕ → ℕ → Words
round s k w =
    let t1 = (s.h + bsig1 s.e + ch s.e s.f s.g + k + w) % word_size in
    let t2 = (bsig0 s.a + maj s.a s.b s.c) % word_size in
    record {
      a = (t1 + t2) % word_size;
      b = s.a;
      c = s.b;
      d = s.c;
      e = (s.d + t1) % word_size;
      f = s.e;
      g = s.f;
      h = s.g;
    }

unfoldable pub rounds : Words → List ℕ → List ℕ → Words
rounds s [] ws = s
rounds s (k ∷ ks) [] = s
rounds s (k ∷ ks) (w ∷ ws) = rounds (round s k w) ks ws

unfoldable pub compress : Words → Bytes → Words
compress s block =
    let r = rounds s k_round (reversed (more_words 48 (block_words 16 block [])) []) in
    record {
      a = (s.a + r.a) % word_size;
      b = (s.b + r.b) % word_size;
      c = (s.c + r.c) % word_size;
      d = (s.d + r.d) % word_size;
      e = (s.e + r.e) % word_size;
      f = (s.f + r.f) % word_size;
      g = (s.g + r.g) % word_size;
      h = (s.h + r.h) % word_size;
    }

-- daemoon_sha256_t; `block` is the buffer up to blocklen.
pub record Context : Type 0 where
  pub state : Words
  pub bitlen : ℕ
  pub block : Bytes

unfoldable pub init : Context
init = record {
  state = record {
    a = 0x6a09e667;
    b = 0xbb67ae85;
    c = 0x3c6ef372;
    d = 0xa54ff53a;
    e = 0x510e527f;
    f = 0x9b05688c;
    g = 0x1f83d9ab;
    h = 0x5be0cd19;
  };
  bitlen = 0;
  block = [];
}

-- The context after one whole block, with nothing in its buffer.
unfoldable pub absorb : Context → Bytes → Context
absorb c block = record {
  state = compress c.state block;
  bitlen = (c.bitlen + 512) % 2 ^ 64;
  block = [];
}

-- The while loop of daemoon_sha256_update and what follows it, from an empty buffer; each round takes
-- 64 bytes.
unfoldable pub whole_blocks : ℕ → Context → Bytes → Context
whole_blocks zero c p = record c { block = p }
whole_blocks (suc fuel) c p =
    let rest = whole_blocks fuel (absorb c (take 64 p)) (drop 64 p) in
    if leb 64 (length p) then rest else record c { block = p }

-- daemoon_sha256_update
unfoldable pub update : Context → Bytes → Context
update c bytes =
    if length bytes == 0
    then c
    else if length c.block == 0
    then whole_blocks (length bytes) c bytes
    else (let need = 64 - length c.block in
        if ltb (length bytes) need
        then record c { block = c.block ++ bytes }
        else whole_blocks (length bytes) (absorb c (c.block ++ take need bytes)) (drop need bytes))

-- The bytes of a number, the greatest first.
unfoldable pub be_bytes : ℕ → ℕ → Bytes
be_bytes zero v = []
be_bytes (suc n) v = (v / 256 ^ n % 256) ∷ be_bytes n v

unfoldable pub zeros : ℕ → Bytes
zeros zero = []
zeros (suc n) = 0 ∷ zeros n

-- daemoon_sha256_final
unfoldable pub final : Context → Bytes
final c =
    let total = (c.bitlen + length c.block * 8) % 2 ^ 64 in
    let marked = c.block ++ 0x80 ∷ [] in
    let s =
      if ltb 56 (length marked)
      then compress (compress c.state (marked ++ zeros (64 - length marked)))
          (zeros 56 ++ be_bytes 8 total)
      else compress c.state (marked ++ zeros (56 - length marked) ++ be_bytes 8 total) in
    be_bytes 4 s.a
    ++ be_bytes 4 s.b
    ++ be_bytes 4 s.c
    ++ be_bytes 4 s.d
    ++ be_bytes 4 s.e
    ++ be_bytes 4 s.f
    ++ be_bytes 4 s.g
    ++ be_bytes 4 s.h

-- daemoon_sha256_buf
unfoldable pub digest : Bytes → Bytes
digest bytes = final (update init bytes)
