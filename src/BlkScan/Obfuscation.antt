-- ===== src/BlkScan/Obfuscation.antt =====
-- crates/blk-scan/src/obfuscation.rs: the key that the block files are stored under. What reading
-- its file gives is an argument.
pub mod Involution
use Prim.Native.Nat.{bit_xor}
use mac_solo_miner.Base.{
  ℕ, suc, ◌+◌, ◌%◌, ◌^◌, Bool, not, if◌then◌else◌, ◌==◌, List, [], ◌∷◌, length, get_or, replicate,
  bytes_eq, Result, ok, err,
}
use mac_solo_miner.BtcPrimitives.Hex

-- Eight bytes.
abbrev pub ObfuscationKey : Type 0
ObfuscationKey = List ℕ

-- What reading a file can give.
pub data FileRead : Type 0 where
  contents : List ℕ → FileRead
  not_found : FileRead
  failed : FileRead

pub data KeyError : Type 0 where
  invalid_data : KeyError
  io_failed : KeyError

unfoldable pub from_blocks_dir : FileRead → Result KeyError ObfuscationKey
from_blocks_dir (contents bytes) = if length bytes == 8 then ok bytes else err invalid_data
from_blocks_dir not_found = ok (replicate 8 0)
from_blocks_dir failed = err io_failed

unfoldable pub is_active : ObfuscationKey → Bool
is_active self = not (bytes_eq self (replicate 8 0))

-- `wrapping_add`
unfoldable pub key_byte : ObfuscationKey → ℕ → ℕ → ℕ
key_byte self file_offset index = get_or self ((file_offset + index) % 2 ^ 64 % 8) 0

-- The loop over the bytes from `index` on.
unfoldable pub apply_each : ObfuscationKey → ℕ → ℕ → List ℕ → List ℕ
apply_each self file_offset index [] = []
apply_each self file_offset index (byte ∷ buffer) =
    bit_xor byte (key_byte self file_offset index) ∷ apply_each self file_offset (suc index) buffer

unfoldable pub apply : ObfuscationKey → List ℕ → ℕ → List ℕ
apply self buffer file_offset =
    if not (is_active self) then buffer else apply_each self file_offset 0 buffer

unfoldable pub to_hex : ObfuscationKey → List ℕ
to_hex self = Hex.encode self
