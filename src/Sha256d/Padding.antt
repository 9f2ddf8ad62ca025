-- ===== src/Sha256d/Padding.antt =====
-- crates/sha256d/src/padding.rs: the padding of FIPS 180-4, section 5.1.1. A message of 2^61 bytes
-- or more, on which `pad` panics, does not fit a machine's memory and is left out.
pub mod Laws
use mac_solo_miner.Base.{
  ℕ, zero, suc, ◌+◌, ◌*◌, ◌/◌, ◌%◌, if◌then◌else◌, ◌==◌, List, [], ◌∷◌, ◌++◌, length, to_be_bytes,
}

-- `while padded.len() % 64 != 56 { padded.push(0x00) }`, on fuel.
pub zero_fill : ℕ → List ℕ → List ℕ
zero_fill zero padded = padded
zero_fill (suc fuel) padded =
    let rest = zero_fill fuel (padded ++ 0 ∷ []) in
    if length padded % 64 == 56 then padded else rest

-- At most 63 zeros are pushed, so 64 rounds are enough fuel.
pub pad : List ℕ → List ℕ
unfolding zero_fill
pad message =
    let bit_len = length message * 8 in zero_fill 64 (message ++ 0x80 ∷ []) ++ to_be_bytes 8 bit_len

-- `(len + 9).div_ceil(64) * 64`
pub padded_len : ℕ → ℕ
padded_len len = (len + 9 + 63) / 64 * 64
