-- ===== src/Sha256d/Reference.antt =====
-- crates/sha256d/src/reference.rs: SHA-256 as FIPS 180-4 describes it. A u32 is a number below
-- 2^32; `wrapping_add` is the sum modulo 2^32.
pub mod Blocks
use Prim.Native.Nat.{bit_and, bit_or, bit_xor}
use mac_solo_miner.Base.{
  ℕ, zero, suc, ◌+◌, ◌-◌, ◌*◌, ◌/◌, ◌%◌, ◌^◌, List, [], ◌∷◌, ◌++◌, get_or, set, replicate,
  chunks_exact, to_be_bytes, from_be_bytes,
}
use mac_solo_miner.Sha256d.Constants.{Words, to_list, h0, k}
use mac_solo_miner.Sha256d.Padding.{pad}
use mathlib.Core.List.{foldl}

abbrev pub wrapping_add : ℕ → ℕ → ℕ
wrapping_add x y = (x + y) % 2 ^ 32

rotate_right : ℕ → ℕ → ℕ
rotate_right x n = bit_or (x / 2 ^ n) (x * 2 ^ (32 - n) % 2 ^ 32)

-- `!x`
complement : ℕ → ℕ
complement x = bit_xor x 0xFFFF_FFFF

ch : ℕ → ℕ → ℕ → ℕ
unfolding complement
ch x y z = bit_xor (bit_and x y) (bit_and (complement x) z)

maj : ℕ → ℕ → ℕ → ℕ
maj x y z = bit_xor (bit_xor (bit_and x y) (bit_and x z)) (bit_and y z)

big_sigma0 : ℕ → ℕ
unfolding rotate_right
big_sigma0 x = bit_xor (bit_xor (rotate_right x 2) (rotate_right x 13)) (rotate_right x 22)

big_sigma1 : ℕ → ℕ
unfolding rotate_right
big_sigma1 x = bit_xor (bit_xor (rotate_right x 6) (rotate_right x 11)) (rotate_right x 25)

small_sigma0 : ℕ → ℕ
unfolding rotate_right
small_sigma0 x = bit_xor (bit_xor (rotate_right x 7) (rotate_right x 18)) (x / 2 ^ 3)

small_sigma1 : ℕ → ℕ
unfolding rotate_right
small_sigma1 x = bit_xor (bit_xor (rotate_right x 17) (rotate_right x 19)) (x / 2 ^ 10)

-- `for t in 0..16`, with the rounds that are left and `t`.
first_words : List ℕ → ℕ → ℕ → List ℕ → List ℕ
first_words block zero t w = w
first_words block (suc left) t w = first_words block left (suc t) (set w t word)
  where
    at : ℕ → ℕ
    at i = get_or block (t * 4 + i) 0

    word : ℕ
    word = from_be_bytes (at 0 ∷ at 1 ∷ at 2 ∷ at 3 ∷ [])

-- `for t in 16..64`
derived_words : ℕ → ℕ → List ℕ → List ℕ
unfolding small_sigma0 small_sigma1
derived_words zero t w = w
derived_words (suc left) t w = derived_words left (suc t) (set w t word)
  where
    word : ℕ
    word =
        wrapping_add
          (wrapping_add (wrapping_add (small_sigma1 (get_or w (t - 2) 0)) (get_or w (t - 7) 0))
            (small_sigma0 (get_or w (t - 15) 0)))
          (get_or w (t - 16) 0)

schedule : List ℕ → List ℕ
unfolding first_words derived_words from_be_bytes
schedule block = derived_words 48 16 (first_words block 16 0 (replicate 64 0))

round : ℕ → ℕ → Words → Words
unfolding big_sigma0 big_sigma1 ch maj
round k_t w_t v = record {
  a = wrapping_add t1 t2;
  b = v.a;
  c = v.b;
  d = v.c;
  e = wrapping_add v.d t1;
  f = v.e;
  g = v.f;
  h = v.g;
}
  where
    t1 : ℕ
    t1 =
        wrapping_add
          (wrapping_add (wrapping_add (wrapping_add v.h (big_sigma1 v.e)) (ch v.e v.f v.g)) k_t) w_t

    t2 : ℕ
    t2 = wrapping_add (big_sigma0 v.a) (maj v.a v.b v.c)

-- `for t in 0..64`
rounds : List ℕ → ℕ → ℕ → Words → Words
unfolding round k
rounds w zero t v = v
rounds w (suc left) t v = rounds w left (suc t) (round (get_or k t 0) (get_or w t 0) v)

add_words : Words → Words → Words
add_words s v = record {
  a = wrapping_add s.a v.a;
  b = wrapping_add s.b v.b;
  c = wrapping_add s.c v.c;
  d = wrapping_add s.d v.d;
  e = wrapping_add s.e v.e;
  f = wrapping_add s.f v.f;
  g = wrapping_add s.g v.g;
  h = wrapping_add s.h v.h;
}

unfoldable pub compress_block : Words → List ℕ → Words
unfolding schedule rounds add_words
compress_block state block = add_words state (rounds (schedule block) 64 0 state)

-- `for (i, word) in state.iter().enumerate()`: the words one after the other, big-endian.
unfoldable pub be_words : List ℕ → List ℕ
be_words [] = []
be_words (w ∷ ws) = to_be_bytes 4 w ++ be_words ws

-- The state after every whole block of `padded`.
unfoldable pub absorb : Words → List ℕ → Words
absorb state padded = foldl compress_block state (chunks_exact 64 padded)

unfoldable pub sha256 : List ℕ → List ℕ
unfolding absorb be_words h0
sha256 message = be_words (to_list (absorb h0 (pad message)))

unfoldable pub sha256d : List ℕ → List ℕ
unfolding sha256
sha256d message = sha256 (sha256 message)
