-- ===== src/BtcPrimitives/Varint.antt =====
-- crates/btc-primitives/src/varint.rs: the CompactSize encoding of a u64 in 1, 3, 5 or 9 bytes.
pub mod RoundTrip
mod Tests
use mac_solo_miner.Base.{
  ℕ, ◌+◌, ◌-◌, ◌%◌, ◌^◌, Bool, if◌then◌else◌, ltb, leb, ◌==◌, List, [], ◌∷◌, ◌++◌, take, drop,
  length, replicate, get_elem?, Result, ok, err, ok_or, ◌>>=◌, to_le_bytes, from_le_bytes,
}

pub data VarIntError : Type 0 where
  unexpected_end non_canonical : VarIntError

-- `encode value out` appends to `out`; the casts `as u16` and `as u32` are the remainders.
unfoldable pub encode : ℕ → List ℕ → List ℕ
encode value out =
    if leb value 0xFC
    then out ++ value % 2 ^ 8 ∷ []
    else if leb value 0xFFFF
    then (out ++ 0xFD ∷ []) ++ to_le_bytes 2 (value % 2 ^ 16)
    else if leb value 0xFFFF_FFFF
    then (out ++ 0xFE ∷ []) ++ to_le_bytes 4 (value % 2 ^ 32)
    else (out ++ 0xFF ∷ []) ++ to_le_bytes 8 value

pub encoded_len : ℕ → ℕ
encoded_len value =
    if leb value 0xFC
    then 1
    else if leb value 0xFFFF
    then 3
    else if leb value 0xFFFF_FFFF
    then 5
    else 9

-- The little-endian integer of `n` bytes behind the first byte, widened to eight bytes by zeros.
pub read_le : ℕ → List ℕ → Result VarIntError ℕ
read_le n bytes =
    if leb (1 + n) (length bytes)
    then ok (from_le_bytes (take n (drop 1 bytes) ++ replicate (8 - n) 0))
    else err unexpected_end

-- The match on the first byte: the value, and how many bytes it took.
pub decode_first : ℕ → List ℕ → Result VarIntError (ℕ × ℕ)
decode_first first bytes =
    if leb first 0xFC
    then ok (first, 1)
    else if first == 0xFD
    then (do value ← read_le 2 bytes; if ltb value 0xFD then err non_canonical else ok (value, 3))
    else if first == 0xFE
    then (do value ← read_le 4 bytes; if leb value 0xFFFF then err non_canonical else ok (value, 5))
    else (do
      value ← read_le 8 bytes
      if leb value 0xFFFF_FFFF then err non_canonical else ok (value, 9))

pub decode : List ℕ → Result VarIntError (ℕ × ℕ)
decode bytes = do first ← ok_or (get_elem? bytes 0) unexpected_end; decode_first first bytes
