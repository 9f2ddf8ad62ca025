-- ===== src/Mining/Script.antt =====
-- crates/mining/src/script.rs: pushes of data, script numbers, and the height in front of a
-- coinbase. Where the source panics, the result is `none`.
pub mod Numbers
pub mod Heights
use mac_solo_miner.Base.{
  ℕ, zero, suc, ◌+◌, ◌-◌, ◌/◌, ◌%◌, ◌^◌, Bool, true, false, if◌then◌else◌, leb, ltb, ◌==◌, List, [],
  ◌∷◌, ◌++◌, length, Option, none, some, to_le_bytes,
}

-- The length, as the opcode or behind it.
unfoldable pub push_length : ℕ → List ℕ → Option (List ℕ)
push_length size out =
    if leb size 75
    then some (out ++ size % 2 ^ 8 ∷ [])
    else if leb size 255
    then some ((out ++ 0x4C ∷ []) ++ size % 2 ^ 8 ∷ [])
    else if leb size 520
    then some ((out ++ 0x4D ∷ []) ++ to_le_bytes 2 (size % 2 ^ 16))
    else none

abbrev pub extend : Option (List ℕ) → List ℕ → Option (List ℕ)
extend none more = none
extend (some out) more = some (out ++ more)

unfoldable pub push_data : List ℕ → List ℕ → Option (List ℕ)
push_data data_bytes out = extend (push_length (length data_bytes) out) data_bytes

-- `while value > 0`, on fuel: a round takes a byte off, so four rounds end it for a u32.
unfoldable pub value_bytes : ℕ → ℕ → List ℕ → List ℕ
value_bytes zero value encoded = encoded
value_bytes (suc fuel) value encoded =
    let rest = value_bytes fuel (value / 2 ^ 8) (encoded ++ value % 2 ^ 8 ∷ []) in
    if ltb 0 value then rest else encoded

-- `encoded.last().is_some_and(|byte| byte & 0x80 != 0)`
unfoldable pub last_is_negative : List ℕ → Bool
last_is_negative [] = false
last_is_negative (byte ∷ []) = byte / 2 ^ 7 % 2 == 1
last_is_negative (byte ∷ more ∷ rest) = last_is_negative (more ∷ rest)

unfoldable pub encode_script_number : ℕ → List ℕ
encode_script_number value =
    if value == 0
    then []
    else (let encoded = value_bytes 4 value [] in
        if last_is_negative encoded then encoded ++ 0x00 ∷ [] else encoded)

unfoldable pub encode_block_height : ℕ → Option (List ℕ)
encode_block_height height =
    if height == 0
    then some (0x00 ∷ [])
    else if leb height 16
    then some ((0x51 + height % 2 ^ 8 - 1) ∷ [])
    else push_data (encode_script_number height) []
