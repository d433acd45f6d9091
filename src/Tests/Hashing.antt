-- ===== src/Tests/Hashing.antt =====
-- The hash of core/src/util/sha256.c on a test vector of FIPS 180-4.
use dae_moon.Prelude.{◌≡◌, refl, [], ◌∷◌, text}
use dae_moon.Util.Digest.{hex}
use dae_moon.Util.Strbuf.{hex_digit}
use dae_moon.Util.Sha256.{
  k_round, rotr, ch, maj, bsig0, bsig1, ssig0, ssig1, block_words, more_words, reversed, round,
  rounds, compress, init, absorb, whole_blocks, update, be_bytes, zeros, final, digest,
}
use dae_moon.Util.Sha256.Chunks.{updates, joined, updates-digest}

abc-digest :
    hex (digest (text "abc"))
    ≡ text "ba7816bf8f01cfea414140de5dae2223b00361a396177a9cb410ff61f20015ad"
unfolding hex hex_digit digest final zeros be_bytes update whole_blocks absorb init compress rounds
    round reversed more_words block_words ssig1 ssig0 bsig1 bsig0 maj ch rotr k_round
abc-digest = refl

updates-digest_example :
    final (updates init (text "a" ∷ text "bc" ∷ [])) ≡ digest (joined (text "a" ∷ text "bc" ∷ []))
updates-digest_example = updates-digest (text "a" ∷ text "bc" ∷ [])
