-- ===== src/BtcPrimitives/Target.antt =====
-- crates/btc-primitives/src/target.rs: 256-bit targets, big-endian, and their compact form. A
-- `difficulty`, a float for display, is not modelled here.
pub mod Compact
pub mod Meets
pub mod Tests
use mac_solo_miner.Base.{
  ℕ, zero, suc, ◌+◌, ◌-◌, ◌/◌, ◌%◌, ◌^◌, Bool, true, if◌then◌else◌, ltb, leb, ◌==◌, List, [], ◌∷◌,
  get_or, set, replicate, Result, ok, err, ◌>>=◌,
}
use mac_solo_miner.BtcPrimitives.Hash.{Sha256dHash, as_internal_bytes, count_leading}

-- `Target([u8; 32])`, most significant byte first.
abbrev pub Target : Type 0
Target = List ℕ

pub data TargetError : Type 0 where
  negative overflow : TargetError

-- `Target::DIFFICULTY_ONE`
pub difficulty_one : Target
difficulty_one = set (set (replicate 32 0) 4 0xFF) 5 0xFF

abbrev pub exponent_of : ℕ → ℕ
exponent_of bits = bits / 2 ^ 24

-- `bits & 0x007F_FFFF`
abbrev pub mantissa_of : ℕ → ℕ
mantissa_of bits = bits % 2 ^ 23

-- `bits & 0x0080_0000 != 0`
abbrev pub sign_of : ℕ → Bool
sign_of bits = bits / 2 ^ 23 % 2 == 1

-- One round of the loop over the mantissa's bytes. The signed `power` is `exponent - 1 - i`: it is
-- above 31 where `32 + i < exponent`, and not negative where `1 + i <= exponent`.
pub place_byte : ℕ → ℕ → ℕ → List ℕ → Result TargetError (List ℕ)
place_byte exponent i byte bytes =
    if ltb (32 + i) exponent
    then if byte == 0 then ok bytes else err overflow
    else if leb (1 + i) exponent
    then ok (set bytes (32 + i - exponent) byte)
    else ok bytes

-- The loop, over the bytes that are left.
pub place_bytes : ℕ → ℕ → List ℕ → List ℕ → Result TargetError (List ℕ)
place_bytes exponent i [] bytes = ok bytes
place_bytes exponent i (byte ∷ rest) bytes = do
  placed ← place_byte exponent i byte bytes
  place_bytes exponent (suc i) rest placed

abbrev pub mantissa_bytes : ℕ → List ℕ
mantissa_bytes m = (m / 2 ^ 16 % 256) ∷ (m / 2 ^ 8 % 256) ∷ (m % 256) ∷ []

pub from_compact : ℕ → Result TargetError Target
from_compact bits =
    if sign_of bits
    then err negative
    else place_bytes (exponent_of bits) 0 (mantissa_bytes (mantissa_of bits)) (replicate 32 0)

abbrev pub from_be_bytes : List ℕ → Target
from_be_bytes bytes = bytes

-- `for i in 0..32`, with the rounds that are left and `i`.
meets_from : ℕ → ℕ → Target → List ℕ → Bool
meets_from zero i self bytes = true
meets_from (suc left) i self bytes =
    let hash_byte = get_or bytes (31 - i) 0 in
    let target_byte = get_or self i 0 in
    let rest = meets_from left (suc i) self bytes in
    if hash_byte == target_byte then rest else ltb hash_byte target_byte

pub is_met_by : Target → Sha256dHash → Bool
is_met_by self hash = meets_from 32 0 self (as_internal_bytes hash)

pub leading_zero_bits : Target → ℕ
leading_zero_bits self = count_leading 0 self
