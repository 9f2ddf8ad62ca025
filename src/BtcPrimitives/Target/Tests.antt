-- ===== src/BtcPrimitives/Target/Tests.antt =====
-- Concrete runs of the targets.
use mac_solo_miner.Base.{
  ℕ, ◌*◌, ◌/◌, ◌^◌, ◌≤◌, ◌≡◌, refl, arith, leb, replicate, IsArray, IsByte, All-replicate,
  from_le_bytes, from_be_bytes, List, ◌∷◌, ok,
}
use mac_solo_miner.BtcPrimitives.Hash
use mac_solo_miner.BtcPrimitives.Target.{
  from_compact, place_bytes, place_byte, is_met_by, meets_from, leading_zero_bits, mantissa_of,
  exponent_of,
}
use mac_solo_miner.BtcPrimitives.Target.Compact.{Decodes, from_compact-Decodes}
use mac_solo_miner.BtcPrimitives.Target.Meets.{is_met_by-leb, leading_zero_bits-le}

abbrev ones : List ℕ
ones = replicate 32 1

abbrev twos : List ℕ
twos = replicate 32 2

ones-IsArray : IsArray 32 ones
ones-IsArray = (refl, All-replicate IsByte 32 1 (omega arith))

twos-IsArray : IsArray 32 twos
twos-IsArray = (refl, All-replicate IsByte 32 2 (omega arith))

is_met_by-leb_example : is_met_by twos ones ≡ leb (from_le_bytes ones) (from_be_bytes twos)
is_met_by-leb_example = is_met_by-leb twos ones twos-IsArray ones-IsArray

leading_zero_bits-le_example : leading_zero_bits twos ≤ Hash.leading_zero_bits ones
unfolding is_met_by meets_from
leading_zero_bits-le_example = leading_zero_bits-le twos ones twos-IsArray ones-IsArray refl

-- Difficulty 1.
from_compact-Decodes_example :
    Decodes
      (mantissa_of 0x1d00ffff * 256 ^ exponent_of 0x1d00ffff / 256 ^ 3)
      (from_compact 0x1d00ffff)
from_compact-Decodes_example = from_compact-Decodes 0x1d00ffff refl

-- The easiest target.
pub from_compact_easiest : from_compact 0x207fffff ≡ ok (0x7F ∷ 0xFF ∷ 0xFF ∷ replicate 29 0)
unfolding from_compact place_bytes place_byte
from_compact_easiest = refl
