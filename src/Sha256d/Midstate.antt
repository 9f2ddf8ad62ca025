-- ===== src/Sha256d/Midstate.antt =====
-- crates/sha256d/src/midstate.rs: the header's first block is compressed once for all nonces.
-- `compress` is the portable one: no SHA instructions.
pub mod Laws
use mac_solo_miner.Base.{
  ℕ, ◌+◌, ◌-◌, ◌*◌, List, ◌++◌, take, drop, set, replicate, copy_from_slice, to_le_bytes,
  to_be_bytes, length,
}
use mac_solo_miner.Sha256d.Constants.{Words, to_list, h0}
use mac_solo_miner.Sha256d.Reference.{compress_block, be_words}

abbrev pub header_size : ℕ
header_size = 80

abbrev nonce_offset : ℕ
nonce_offset = 76

abbrev nonce_in_tail : ℕ
nonce_in_tail = nonce_offset - 64

pub record HeaderHasher : Type 0 where
  pub midstate : Words
  pub tail : List ℕ

compress : Words → List ℕ → Words
compress state block = compress_block state block

pub new : List ℕ → HeaderHasher
unfolding compress
new header = record {
  midstate = compress h0 (take 64 header);
  tail =
      copy_from_slice 56 (to_be_bytes 8 (header_size * 8))
        (set (copy_from_slice 0 (take 16 (drop 64 header)) (replicate 64 0)) 16 0x80);
}

-- The digest is written into the first 32 bytes of a zero block, word by word.
second_hash : Words → List ℕ
unfolding compress
second_hash first_state = be_words (
    to_list (
      compress h0 (
        copy_from_slice 56 (to_be_bytes 8 (32 * 8))
          (set (copy_from_slice 0 (be_words (to_list first_state)) (replicate 64 0)) 32 0x80))))

pub hash : HeaderHasher → ℕ → List ℕ
unfolding compress second_hash
hash self nonce =
    second_hash
      (compress self.midstate (copy_from_slice nonce_in_tail (to_le_bytes 4 nonce) self.tail))
