-- ===== src/BtcPrimitives/Hash.antt =====
-- crates/btc-primitives/src/hash.rs: a hash of 32 bytes in internal order, least significant first.
pub mod Order
pub mod ZeroBits
pub mod Text
mod Tests
use Prim.Native.Nat.{compare, Ordering}
use mac_solo_miner.Base.{
  ℕ, zero, suc, ◌^◌, ◌+◌, Bool, true, false, if◌then◌else◌, ltb, ◌==◌, List, [], ◌∷◌, reverse,
  get_or, replicate, then_cmp,
}
use mac_solo_miner.Sha256d.{sha256d}

-- `Sha256dHash([u8; 32])`
abbrev pub Sha256dHash : Type 0
Sha256dHash = List ℕ

-- `Sha256dHash::ZERO`
abbrev pub zero_hash : Sha256dHash
zero_hash = replicate 32 0

unfoldable pub hash : List ℕ → Sha256dHash
hash data_bytes = sha256d data_bytes

abbrev pub from_internal_bytes : List ℕ → Sha256dHash
from_internal_bytes bytes = bytes

abbrev pub as_internal_bytes : Sha256dHash → List ℕ
as_internal_bytes self = self

pub from_display_bytes : List ℕ → Sha256dHash
from_display_bytes bytes = reverse bytes

pub to_display_bytes : Sha256dHash → List ℕ
to_display_bytes self = reverse self

-- `for i in (0..n).rev()`
cmp_down : ℕ → Sha256dHash → Sha256dHash → Ordering
cmp_down zero self other = Ordering.eq
cmp_down (suc i) self other =
    then_cmp (compare (get_or self i 0) (get_or other i 0)) (cmp_down i self other)

pub numeric_cmp : Sha256dHash → Sha256dHash → Ordering
numeric_cmp self other = cmp_down 32 self other

pub is_below : Sha256dHash → Sha256dHash → Bool
is_below self other = elim (numeric_cmp self other) [ Ordering.lt ↦ true | _ ↦ false ]

-- `u8::leading_zeros`, at a width of `w` bits.
unfoldable pub leading_zeros : ℕ → ℕ → ℕ
leading_zeros zero byte = 0
leading_zeros (suc w) byte =
    let rest = leading_zeros w byte in if ltb byte (2 ^ w) then suc rest else 0

-- The loop over the bytes, most significant first, that stops behind the first that is not zero.
unfoldable pub count_leading : ℕ → List ℕ → ℕ
count_leading count [] = count
count_leading count (byte ∷ bytes) =
    let rest = count_leading (count + leading_zeros 8 byte) bytes in
    if byte == 0 then rest else count + leading_zeros 8 byte

unfoldable pub leading_zero_bits : Sha256dHash → ℕ
unfolding count_leading
leading_zero_bits self = count_leading 0 (reverse self)
