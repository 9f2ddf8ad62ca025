-- ===== src/Mining/Script/Heights.antt =====
-- The heights, read back by a strict reader.
use mac_solo_miner.Base.{
  ℕ, ◌+◌, ◌-◌, ◌%◌, ◌^◌, ◌≤◌, ◌<◌, ◌≡◌, refl, sym, ap, arith, inl, inr, ==→eq, le→leb, leb→gt,
  take-append, length-append, ge→ltb, true, not, ◌||◌, false, Bool-cases, if◌then◌else◌, ltb, leb,
  ◌==◌, List, [], ◌∷◌, ◌++◌, length, take, Option, none, some, from_le_bytes,
}
use mac_solo_miner.Mining.Script.{encode_script_number, push_length, push_data, encode_block_height}
use mac_solo_miner.Mining.Script.Numbers.{is_negative, is_minimal, encode_script_number-decode}

-- A push of `size` bytes, read as a script number. Only a whole push of a minimal number without a
-- sign is taken, and one that no opcode stands for.
unfoldable pub read_push : ℕ → List ℕ → Option ℕ
read_push size rest =
    let bytes = take size rest in
    if ltb (length rest) size || is_negative bytes || not (is_minimal bytes)
    then none
    else if leb (from_le_bytes bytes) 16
    then none
    else some (from_le_bytes bytes)

-- A strict reader of a height at the front of a script: OP_0, an opcode from OP_1 to OP_16, or a
-- push of another number.
unfoldable pub read_height : List ℕ → Option ℕ
read_height [] = none
read_height (op ∷ rest) =
    if op == 0
    then some 0
    else if leb op 75
    then read_push op rest
    else if leb op 0x50
    then none
    else if leb op 0x60
    then some (op - 0x50)
    else none

-- A push of at most 75 bytes is their number and the bytes.
pub push_data_short :
    (bs out : List ℕ) → length bs ≤ 75 → push_data bs out ≡ some ((out ++ length bs ∷ []) ++ bs)
unfolding push_data push_length
push_data_short bs out h =
    let small : length bs % 2 ^ 8 ≡ length bs = omega arith in
    rw (le→leb (length bs) 75 h, small) refl

read_height-push :
    (v : ℕ) (bs rest : List ℕ)
    → from_le_bytes bs ≡ v
    → is_negative bs ≡ false
    → is_minimal bs ≡ true
    → 16 < v
    → length bs ≤ 75
    → (0 < length bs) × (read_height (length bs ∷ bs ++ rest) ≡ some v)
unfolding read_height read_push
read_height-push v [] rest e sign short pos h =
    let nothing_read : from_le_bytes [] ≡ 0 = unfold from_le_bytes in refl in
    absurd (omega (arith, e, nothing_read))
read_height-push v (b ∷ bs) rest e sign short pos h =
    let some_byte : (length (b ∷ bs) == 0) ≡ false = ground arith in
    let whole : ltb (length ((b ∷ bs) ++ rest)) (length (b ∷ bs)) ≡ false =
      ge→ltb (length ((b ∷ bs) ++ rest)) (length (b ∷ bs))
        (omega (arith, length-append (b ∷ bs) rest)) in
    let large : leb (from_le_bytes (b ∷ bs)) 16 ≡ false = ground (arith, e) in
    (
      omega arith,
      rw
          (
            some_byte,
            le→leb (length (b ∷ bs)) 75 h,
            take-append (length (b ∷ bs)) (b ∷ bs) rest refl,
            whole,
            sign,
            short,
            large,
          )
          (ap some e),
    )

-- Every height of 32 bits is encoded, in at most six bytes, and the strict reader reads it back
-- whatever follows.
pub encode_block_height-read :
    (height : ℕ)
    → height < 2 ^ 32
    → (script : List ℕ) × (encode_block_height height ≡ some script)
      × (0 < length script)
      × (length script ≤ 6)
      × ((rest : List ℕ) → read_height (script ++ rest) ≡ some height)
unfolding encode_block_height read_height
encode_block_height-read height h = elim (Bool-cases (height == 0)) [
  | inl first ↦
      rw first
        (0 ∷ [], refl, omega arith, omega arith, λ rest. ap some (sym (==→eq height 0 first)))
  | inr positive ↦ elim (Bool-cases (leb height 16)) [
    | inl small ↦
        rw (positive, small)
          ((0x51 + height % 2 ^ 8 - 1) ∷ [], refl, omega arith, omega arith, λ rest. ground arith)
    | inr large ↦
        rw
          (
            positive,
            large,
            push_data_short (encode_script_number height) [] (omega (arith, number.1)),
          )
          (
            length (encode_script_number height) ∷ encode_script_number height,
            refl,
            omega arith,
            omega (arith, number.1),
            λ rest.
                (read_height-push height (encode_script_number height) rest number.0 number.2
                  number.3 (leb→gt height 16 large) (omega (arith, number.1))).1,
          )
  ]
]
  where
    number :
        (from_le_bytes (encode_script_number height) ≡ height)
        × (length (encode_script_number height) ≤ 5)
        × (is_negative (encode_script_number height) ≡ false)
        × (is_minimal (encode_script_number height) ≡ true)
    number = encode_script_number-decode height h
